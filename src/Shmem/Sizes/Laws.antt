-- ===== src/Shmem/Sizes/Laws.antt =====
-- core/shmem_ipc/shared_ring_queue.c: what the settled sizes are, and that they stay.
use openappsec_attachment.Common.{
  ℕ, ◌≡◌, ◌≢◌, ◌∙◌, ◌⊎◌, true, false, none, some, List, arith, ◌<◌, pos,
}
use openappsec_attachment.Shmem.Sizes.{
  Os, Sizes, entry_size, entry_size_bc, is_larger_data_segment_supported, getenv, size_key,
  agent_key, negotiate_segment_size, get_effective_segment_size, get_effective_entry_size,
}

-- The question whether large segments are supported leaves the sizes alone.
module _ (os : Os) (s : Sizes) where
  abbrev asked : Sizes
  asked = (is_larger_data_segment_supported os s).1

  pub larger_keeps :
      (asked.effective_segment_size ≡ s.effective_segment_size)
      × (asked.effective_entry_size ≡ s.effective_entry_size)
      × (asked.effective_size_initialized ≡ s.effective_size_initialized)
  unfolding is_larger_data_segment_supported
  larger_keeps = ground arith

  abbrev entered : ℕ × Sizes
  entered = get_effective_entry_size os s

  pub entry_size_settled :
      (entered.1.effective_entry_size ≡ entered.0)
      × (entered.1.effective_segment_size ≡ s.effective_segment_size)
      × (entered.1.effective_size_initialized ≡ s.effective_size_initialized)
      × ((s.effective_entry_size ≡ 0) → (entered.0 ≡ entry_size) ⊎ (entered.0 ≡ entry_size_bc))
  unfolding get_effective_entry_size
  entry_size_settled = ground (arith, larger_keeps)

settled :
    (os : Os) (s : Sizes)
    → s.effective_size_initialized ≡ true
    → get_effective_segment_size os s ≡ (s.effective_segment_size, s)
unfolding get_effective_segment_size
settled os s h = rw h

module _ (os : Os) (s : Sizes) where
  abbrev measured : ℕ × Sizes
  measured = get_effective_segment_size os s

  pub segment_size_settled :
      (measured.1.effective_size_initialized ≡ true)
      × (measured.1.effective_segment_size ≡ measured.0)
      × (measured.1.effective_entry_size ≡ s.effective_entry_size)
  unfolding get_effective_segment_size negotiate_segment_size
  segment_size_settled =
      ground (arith, larger_keeps os (record s { effective_size_initialized = true }))

  -- A second call for the segments' size answers what the first did and changes nothing.
  pub segment_size_again : get_effective_segment_size os measured.1 ≡ measured
  segment_size_again =
      settled os measured.1 segment_size_settled.0 ∙ ground (arith, segment_size_settled)

-- Before any size is settled, with neither of the two container set-ups, a size `k` from 1 to 65535
-- other than 4096 in the environment becomes the segments' size, and the entries' size is 4096.
pub sizes_disagree :
    (os : Os) (s : Sizes) (v : List ℕ) (k : ℕ)
    → s.effective_size_initialized ≡ false
    → s.effective_entry_size ≡ 0
    → s.docker_env_initialized ≡ false
    → os.has_dual_docker_file ≡ false
    → getenv agent_key s.environ ≡ none
    → getenv size_key s.environ ≡ some v
    → os.atoi v ≡ pos k
    → 0 < k
    → k < 65536
    → k ≢ 4096
    → let (segment, s') = get_effective_segment_size os s in
      let (entry, _) = get_effective_entry_size os s' in (segment ≡ k) × (entry ≡ entry_size)
unfolding get_effective_segment_size get_effective_entry_size is_larger_data_segment_supported
sizes_disagree os s v k h1 h2 h3 h4 h5 h6 h7 a b c = ground arith
