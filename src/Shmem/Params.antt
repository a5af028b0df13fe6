-- ===== src/Shmem/Params.antt =====
-- core/shmem_ipc/shared_ring_queue.c: the process's table of the queues it has open.
-- `getQueueParams` returns a pointer into the table, through which only `resetRingQueue` writes:
-- here a lookup returns the entry, and `update_slot` writes the first entry that a lookup finds.
pub mod Laws
use openappsec_attachment.Common.{
  ℕ, ℤ, negsuc, Bool, true, false, ◌&&◌, Option, none, some, List, [], ◌∷◌, str_eq, take,
  if◌then◌else◌,
}

pub record QueueParams : Type 0 where
  pub location_name : List ℕ
  pub num_of_data_segments : ℕ
  pub memory_size : ℤ
  pub fd : ℤ
  pub in_use : Bool

-- `g_queue_params` and `g_queue_params_initialized`.
pub record ParamsTable : Type 0 where
  pub slots : List QueueParams
  pub initialized : Bool

abbrev pub max_one_way_queue_name_length : ℕ
max_one_way_queue_name_length = 64

abbrev pub cleared_slot : QueueParams
cleared_slot = record {
  location_name = [];
  num_of_data_segments = 0;
  memory_size = negsuc 0;
  fd = negsuc 0;
  in_use = false;
}

-- The loop runs over the `MAX_QUEUES` = 4 entries.
unfoldable pub initialize_queue_params : ParamsTable → ParamsTable
initialize_queue_params t = if t.initialized then t else record {
  slots = cleared_slot ∷ cleared_slot ∷ cleared_slot ∷ cleared_slot ∷ [];
  initialized = true;
}

abbrev pub is_slot_of : List ℕ → QueueParams → Bool
is_slot_of name s = s.in_use && str_eq s.location_name name

unfoldable pub find_slot : List ℕ → List QueueParams → Option QueueParams
find_slot name [] = none
find_slot name (s ∷ ss) = if is_slot_of name s then some s else find_slot name ss

-- A write through the pointer that the lookup of `name` returns.
unfoldable pub update_slot :
    (QueueParams → QueueParams) → List ℕ → List QueueParams → List QueueParams
update_slot f name [] = []
update_slot f name (s ∷ ss) = if is_slot_of name s then f s ∷ ss else s ∷ update_slot f name ss

unfoldable pub get_queue_params : List ℕ → ParamsTable → Option QueueParams × ParamsTable
get_queue_params name t = let t' = initialize_queue_params t in (find_slot name t'.slots, t')

-- `snprintf(dst, 64, "%s", name)` keeps at most 63 bytes.
abbrev pub stored_name : List ℕ → List ℕ
stored_name name = take 63 name

abbrev pub renew : ℕ → ℤ → ℤ → QueueParams → QueueParams
renew n size fd s = record s { num_of_data_segments = n; memory_size = size; fd = fd }

-- The second loop of `addQueueParams`: the first free entry is taken.
unfoldable pub take_free_slot : List ℕ → ℕ → ℤ → ℤ → List QueueParams → Option (List QueueParams)
take_free_slot name n size fd [] = none
take_free_slot name n size fd (s ∷ ss) =
    let rest = take_free_slot name n size fd ss in
    if s.in_use
    then elim rest [ none ↦ none | some ss' ↦ some (s ∷ ss') ]
    else some (
        record {
          location_name = stored_name name;
          num_of_data_segments = n;
          memory_size = size;
          fd = fd;
          in_use = true;
        }
        ∷ ss)

-- `false` is the NULL that a full table returns.
unfoldable pub add_queue_params : List ℕ → ℕ → ℤ → ℤ → ParamsTable → Bool × ParamsTable
add_queue_params name n size fd t =
    let t' = initialize_queue_params t in
    elim (find_slot name t'.slots) [
      | some _ ↦ (true, record t' { slots = update_slot (renew n size fd) name t'.slots })
      | none ↦ elim (take_free_slot name n size fd t'.slots) [
        | some ss ↦ (true, record t' { slots = ss })
        | none ↦ (false, t')
      ]
    ]

unfoldable pub remove_queue_params : List ℕ → ParamsTable → ParamsTable
remove_queue_params name t =
    let t' = initialize_queue_params t in
    record t' { slots = update_slot (λ _. cleared_slot) name t'.slots }
