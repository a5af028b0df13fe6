-- ===== src/Shmem/Sizes.antt =====
-- core/shmem_ipc/shared_ring_queue.c: how the process settles the size of a segment, from its
-- environment, the agent's metadata file, or the header of a queue that exists.
-- Files, `access`, `getenv("…")`'s table and `atoi` are outside the repository: `Os` holds what
-- the code sees of them.
pub mod Laws
use Prim.Native.Char.{code}
use Prim.Native.String.{String}
use openappsec_attachment.Common.{
  ℕ, ℤ, Bool, true, false, ◌&&◌, not, Option, none, some, List, [], ◌∷◌, str_eq, length, ltb, ◌==◌,
  gtb_ℤ, u16_of_ℤ, if◌then◌else◌,
}

-- The bytes of an ASCII text.
abbrev pub codes : String → List ℕ
codes String.[] = []
codes (String.◌∷◌ c s) = code c ∷ codes s

pub record Os : Type 0 where
  -- `access("/etc/dual_docker_nginx", F_OK) == 0`
  pub has_dual_docker_file : Bool
  -- `stat` of /dev/shm/agent-metadata succeeds
  pub has_agent_metadata : Bool
  -- its lines as `getline` returns them, or `none` where `fopen` fails
  pub agent_metadata : Option (List (List ℕ))
  pub atoi : List ℕ → ℤ

abbrev pub Environ : Type 0
Environ = List (List ℕ × List ℕ)

-- The static variables of the file, and the environment that `setenv` changes.
pub record Sizes : Type 0 where
  pub effective_segment_size : ℕ
  pub effective_entry_size : ℕ
  pub effective_size_initialized : Bool
  pub is_dual_docker_nginx_env : Bool
  pub is_dual_docker_env : Bool
  pub docker_env_initialized : Bool
  pub environ : Environ

abbrev pub entry_size : ℕ
entry_size = 4096

abbrev pub entry_size_bc : ℕ
entry_size_bc = 1024

unfoldable pub getenv : List ℕ → Environ → Option (List ℕ)
unfolding str_eq
getenv key [] = none
getenv key ((k, v) ∷ env) = if str_eq k key then some v else getenv key env

-- `setenv(key, value, 1)`
unfoldable pub setenv : List ℕ → List ℕ → Environ → Environ
unfolding str_eq
setenv key value [] = (key, value) ∷ []
setenv key value ((k, v) ∷ env) =
    if str_eq k key then (k, value) ∷ env else (k, v) ∷ setenv key value env

abbrev pub size_key : List ℕ
size_key = codes "EFFECTIVE_SHM_SEGMENT_SIZE"

abbrev pub agent_key : List ℕ
agent_key = codes "INFINITY_NEXT_NANO_AGENT"

abbrev pub is_some {ℓ} : {A : Type ℓ} → Option A → Bool
is_some none = false
is_some (some _) = true

unfoldable pub initialize_docker_environment : Os → Sizes → Sizes
unfolding getenv
initialize_docker_environment os s = if s.docker_env_initialized then s else record s {
  docker_env_initialized = true;
  is_dual_docker_nginx_env = os.has_dual_docker_file;
  is_dual_docker_env = is_some (getenv agent_key s.environ);
}

-- `line[read_len - 1] = '\0'` where the line ends in a newline.
unfoldable pub chop_newline : List ℕ → List ℕ
chop_newline [] = []
chop_newline (c ∷ []) = if c == 10 then [] else c ∷ []
chop_newline (c ∷ d ∷ cs) = c ∷ chop_newline (d ∷ cs)

-- `strchr(line, '=')`: the text before it and the text behind it.
unfoldable pub split_at_equals : List ℕ → Option (List ℕ × List ℕ)
split_at_equals [] = none
split_at_equals (c ∷ cs) =
    let rest = split_at_equals cs in
    if c == b'=' then some ([], cs) else elim rest [ none ↦ none | some (k, v) ↦ some (c ∷ k, v) ]

unfoldable pub read_metadata_line : List ℕ → Environ → Environ
unfolding chop_newline split_at_equals setenv
read_metadata_line line env = elim (split_at_equals (chop_newline line)) [
  | none ↦ env
  | some (key, value) ↦
      if ltb 0 (length key) && ltb 0 (length value) then setenv key value env else env
]

unfoldable pub read_metadata : List (List ℕ) → Environ → Environ
unfolding read_metadata_line
read_metadata [] env = env
read_metadata (line ∷ lines) env = read_metadata lines (read_metadata_line line env)

unfoldable pub is_larger_data_segment_supported : Os → Sizes → Bool × Sizes
unfolding initialize_docker_environment getenv read_metadata
is_larger_data_segment_supported os s0 =
    let s = initialize_docker_environment os s0 in
    if not s.is_dual_docker_env && not s.is_dual_docker_nginx_env
    then (true, s)
    else elim (getenv size_key s.environ) [
      | some v ↦ (gtb_ℤ (os.atoi v) entry_size_bc, s)
      | none ↦ if not os.has_agent_metadata then (false, s) else elim os.agent_metadata [
        | none ↦ (false, s)
        | some lines ↦
            let s' = record s { environ = read_metadata lines s.environ } in
            elim (getenv size_key s'.environ) [
              | some v ↦ (gtb_ℤ (os.atoi v) entry_size_bc, s')
              | none ↦ (false, s')
            ]
      ]
    ]

-- The tail of `getEffectiveSegmentSize`, where no positive size stands in the environment.
unfoldable pub negotiate_segment_size : Os → Sizes → ℕ × Sizes
negotiate_segment_size os s0 =
    let (larger, s) = is_larger_data_segment_supported os s0 in
    let size = if larger then entry_size else entry_size_bc in
    (size, record s { effective_segment_size = size })

unfoldable pub get_effective_segment_size : Os → Sizes → ℕ × Sizes
unfolding getenv negotiate_segment_size
get_effective_segment_size os s0 =
    if s0.effective_size_initialized
    then (s0.effective_segment_size, s0)
    else let s = record s0 { effective_size_initialized = true } in
      elim (getenv size_key s.environ) [
        | some v ↦
            if gtb_ℤ (os.atoi v) 0
            then (u16_of_ℤ (os.atoi v), record s { effective_segment_size = u16_of_ℤ (os.atoi v) })
            else negotiate_segment_size os s
        | none ↦ negotiate_segment_size os s
      ]

unfoldable pub get_effective_entry_size : Os → Sizes → ℕ × Sizes
get_effective_entry_size os s0 =
    if not (s0.effective_entry_size == 0)
    then (s0.effective_entry_size, s0)
    else let (larger, s) = is_larger_data_segment_supported os s0 in
      let size = if larger then entry_size else entry_size_bc in
      (size, record s { effective_entry_size = size })
