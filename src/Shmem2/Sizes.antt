-- ===== src/Shmem2/Sizes.antt =====
-- core/shmem_ipc_2/shared_ring_queue.c: how the process settles the size of a segment. There is no
-- container set-up, and a size in the environment only chooses between the two released sizes.
use openappsec_attachment.Common.{ℕ, Bool, true, false, not, none, some, gtb_ℤ, if◌then◌else◌}
use openappsec_attachment.Shmem.Sizes.{
  Os, Environ, getenv, size_key, read_metadata, entry_size, entry_size_bc,
}

-- The static variables of the file, and the environment.
pub record Settled : Type 0 where
  pub effective_segment_size : ℕ
  pub effective_size_initialized : Bool
  pub environ : Environ

unfoldable pub is_larger_data_segment_supported : Os → Environ → Bool × Environ
unfolding getenv read_metadata
is_larger_data_segment_supported os env = elim (getenv size_key env) [
  | some v ↦ (gtb_ℤ (os.atoi v) entry_size_bc, env)
  | none ↦ if not os.has_agent_metadata then (false, env) else elim os.agent_metadata [
    | none ↦ (false, env)
    | some lines ↦
        let env' = read_metadata lines env in
        elim (getenv size_key env') [
          | some v ↦ (gtb_ℤ (os.atoi v) entry_size_bc, env')
          | none ↦ (false, env')
        ]
  ]
]

unfoldable pub get_effective_segment_size : Os → Settled → ℕ × Settled
unfolding is_larger_data_segment_supported
get_effective_segment_size os s =
    if s.effective_size_initialized
    then (s.effective_segment_size, s)
    else let (larger, env) = is_larger_data_segment_supported os s.environ in
      let size = if larger then entry_size else entry_size_bc in
      (
        size,
        record { effective_segment_size = size; effective_size_initialized = true; environ = env },
      )
