-- ===== src/Tests/Table.antt =====
-- core/shmem_ipc at concrete inputs: the table of queues, the test for room, the stamp.
use openappsec_attachment.Common.{
  ℕ, ◌+◌, ◌*◌, ◌≤◌, ◌<◌, ◌≡◌, ◌≢◌, ◌↔◌, refl, ◌⊎◌, inl, Bool, true, false, List, [], ◌∷◌, arith,
  pos, some, none,
}
use openappsec_attachment.Shmem.Params.{
  ParamsTable, add_queue_params, get_queue_params, remove_queue_params, initialize_queue_params,
  find_slot, take_free_slot,
}
use openappsec_attachment.Shmem.Params.Laws.{add-get, remove-get, new_slot, IsUnique}
use openappsec_attachment.Shmem.Sizes.{codes}
use openappsec_attachment.Shmem.Ring.{is_there_enough_memory, header_prefix_size}
use openappsec_attachment.Shmem.Queue.Space.{
  InRange, HasRoom, Occupied, enough_iff, Claimed-not-Occupied,
}
use openappsec_attachment.Shmem.Create.{Stamp, derive_from_stamp}
use openappsec_attachment.Shmem.Create.Geometry.{derive_sound}

abbrev table : ParamsTable
table = record { slots = []; initialized = false }

abbrev name : List ℕ
name = codes "ring"

abbrev other_name : List ℕ
other_name = codes "other"

abbrev added : ParamsTable
added = (add_queue_params name 8 (pos 36946) (pos 5) table).1

add-get_example : (get_queue_params name added).0 ≡ some (new_slot name 8 (pos 36946) (pos 5))
unfolding add_queue_params initialize_queue_params find_slot take_free_slot
    openappsec_attachment.Common.str_eq
add-get_example = add-get name 8 (pos 36946) (pos 5) table (omega arith) refl name

unique : IsUnique (initialize_queue_params table).slots
unfolding initialize_queue_params
unique = ground arith

remove-get_example : (get_queue_params name (remove_queue_params name table)).0 ≡ none
unfolding openappsec_attachment.Common.str_eq
remove-get_example = remove-get name table unique name

exact_range : InRange 10 6 2 3
exact_range = omega arith

enough_iff_example : (is_there_enough_memory 10 6 2 3 ≡ true) ↔ HasRoom 10 6 2 3
enough_iff_example = enough_iff exact_range (inl (omega arith))

Claimed-not-Occupied_example : ¬ Occupied 10 6 2 7
unfolding is_there_enough_memory
Claimed-not-Occupied_example =
    Claimed-not-Occupied exact_range (inl (omega arith)) refl 7 (omega arith)

abbrev stamp : Stamp
stamp = record { num_of_data_segments = 8; size_of_memory = pos 36946 }

derive_sound_example :
    ((derive_from_stamp stamp ≡ 1024) ⊎ (derive_from_stamp stamp ≡ 4096))
    × (0 < 8)
    × (8 ≤ 2048)
    × (pos 36946 ≡ pos (header_prefix_size + (8 + 1) * derive_from_stamp stamp))
unfolding derive_from_stamp
derive_sound_example = derive_sound stamp (omega arith)
