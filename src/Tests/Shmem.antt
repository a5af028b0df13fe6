-- ===== src/Tests/Shmem.antt =====
-- core/shmem_ipc at concrete inputs: a queue of 8 segments of 4096 bytes.
use mathlib.Core.List.{flatten, append-nil}
use openappsec_attachment.Common.{
  ◌+◌, ℕ, zero, suc, ap, ◌≤◌, ◌<◌, ◌≡◌, refl, ◌⊎◌, inl, inr, true, false, List, [], ◌∷◌, arith, ℤ,
  pos, some, none, Option, length,
}
use openappsec_attachment.Shmem.Params.{
  add_queue_params, initialize_queue_params, find_slot, take_free_slot,
}
use openappsec_attachment.Shmem.Sizes.{
  Os, codes, get_effective_segment_size, get_effective_entry_size, is_larger_data_segment_supported,
}
use openappsec_attachment.Shmem.Ring.{
  data_segment_offset, header_prefix_size, segments_needed, max_write_size,
}
use openappsec_attachment.Shmem.Queue.{
  SharedRingQueue, Process, status_ok, status_full, push_buffers_to_queue, peek_to_queue,
  pop_from_queue, entry_size_of,
}
use openappsec_attachment.Shmem.Queue.Sound.{Holds, AreSmall}
use openappsec_attachment.Shmem.Queue.Refine.{Peeked, peek_refines, pop_refines}
use openappsec_attachment.Shmem.Queue.Push.{Outcome, push_refines, push_in_bounds}
use openappsec_attachment.Shmem.Channel.{SharedMemoryIpc, send_data}
use openappsec_attachment.Shmem.Channel.Laws.{send-Delivered, Delivered}
use openappsec_attachment.Shmem.Create.{
  ShmObject, mapped, Created, create_shared_ring_queue, stamp_queue,
}
use openappsec_attachment.Shmem.Create.Fresh.{create-Holds, created, size}

abbrev pub os : Os
os = record {
  has_dual_docker_file = false;
  has_agent_metadata = false;
  agent_metadata = none;
  atoi = λ _. pos 0;
}

abbrev start : Process
start = record {
  table = record { slots = []; initialized = false };
  sizes = record {
    effective_segment_size = 0;
    effective_entry_size = 0;
    effective_size_initialized = false;
    is_dual_docker_nginx_env = false;
    is_dual_docker_env = false;
    docker_env_initialized = false;
    environ = [];
  };
}

abbrev pub raw : SharedRingQueue
raw = record {
  shared_location_name = [];
  owner_fd = pos 0;
  user_fd = pos 0;
  size_of_memory = pos 0;
  write_pos = 0;
  read_pos = 0;
  num_of_data_segments = 0;
  mgmt = λ _. 0;
  bytes = λ _. 0;
}

abbrev pub object : ShmObject
object = record {
  fd = pos 5;
  file_size = none;
  header = none;
  ftruncate_succeeds = true;
  mapping = mapped raw;
}

abbrev pub name : List ℕ
name = codes "ring"

abbrev fresh : SharedRingQueue × Process
fresh = created os name 8 object start raw

abbrev process : Process
process = (entry_size_of os fresh.1).1

-- The size that the process settles.
size_at_start : size os name 8 object start raw ≡ 4096
unfolding get_effective_segment_size is_larger_data_segment_supported
size_at_start = refl

create-Holds_example :
    (create_shared_ring_queue os name 8 true object start ≡ (Created.queue fresh.0, fresh.1))
    × Holds (size os name 8 object start raw) 8 fresh.0 process []
unfolding get_effective_segment_size get_effective_entry_size is_larger_data_segment_supported
    add_queue_params initialize_queue_params find_slot take_free_slot
create-Holds_example =
    create-Holds os name 8 object start raw (omega arith) (omega arith) (omega arith) (inr refl)
      (omega arith) refl refl refl refl refl

empty : Holds 4096 8 fresh.0 process []
unfolding get_effective_segment_size get_effective_entry_size is_larger_data_segment_supported
    add_queue_params initialize_queue_params find_slot take_free_slot
empty =
    (create-Holds os name 8 object start raw (omega arith) (omega arith) (omega arith) (inr refl)
      (omega arith) refl refl refl refl refl).1

abbrev pub message : List ℕ
message = 7 ∷ 8 ∷ 9 ∷ []

abbrev pub parts : List (List ℕ)
parts = (7 ∷ []) ∷ (8 ∷ 9 ∷ []) ∷ []

pub parts_small : AreSmall parts
parts_small = omega arith

pub parts_some : 0 < length (flatten parts)
unfolding flatten
parts_some = omega arith

pub parts_limit : length (flatten parts) ≤ max_write_size
unfolding flatten
parts_limit = omega arith

push_refines_example :
    Outcome os empty parts parts_small parts_some parts_limit
      (push_buffers_to_queue os fresh.0 parts process)
unfolding stamp_queue
push_refines_example =
    push_refines os empty parts parts_small parts_some parts_limit (inl (omega arith))

-- The queue after the push.
abbrev pushed : SharedRingQueue × Process
pushed = (
  (push_buffers_to_queue os fresh.0 parts process).1,
  (push_buffers_to_queue os fresh.0 parts process).2,
)

holding : Holds 4096 8 pushed.0 pushed.1 (message ∷ [])
unfolding flatten segments_needed stamp_queue
holding =
    elim (push_refines os empty parts parts_small parts_some parts_limit (inl (omega arith))) [
      | inl (_, _, holds) ↦ holds
      | inr (full, _) ↦ absurd (full (omega arith))
    ]

peek_refines_example :
    Peeked 4096 8 pushed.0 pushed.1 message [] (peek_to_queue os pushed.0 pushed.1)
peek_refines_example = peek_refines os message [] holding

abbrev peeked : ℤ × Option (ℕ × ℕ) × SharedRingQueue × Process
peeked = peek_to_queue os pushed.0 pushed.1

-- The peek at it.
looking : Peeked 4096 8 pushed.0 pushed.1 message [] peeked
looking = peek_refines os message [] holding

pop_refines_example :
    let (status, q, p) = pop_from_queue os peeked.2 peeked.3 in
    (status ≡ status_ok) × Holds 4096 8 q p []
pop_refines_example = pop_refines os message [] looking.holds looking.at_message

push_in_bounds_example :
    let out = (push_buffers_to_queue os fresh.0 parts process).1 in
    (out.mgmt 8 ≡ fresh.0.mgmt 8)
    × (header_prefix_size + 16 ≤ data_segment_offset 4096 0)
    × (out.bytes 0 ≡ fresh.0.bytes 0)
    × (out.read_pos ≡ fresh.0.read_pos)
unfolding data_segment_offset stamp_queue
push_in_bounds_example =
    push_in_bounds os empty parts parts_small parts_some parts_limit (inl (omega arith)) 8 0
      (omega arith) (inl (omega arith))

abbrev channel : SharedMemoryIpc
channel = record { shm_name = name; rx_queue = none; tx_queue = some fresh.0 }

send-Delivered_example :
    ((send_data os channel message process).0 ≡ status_full)
    ⊎ (((send_data os channel message process).0 ≡ status_ok)
        × ((q : SharedRingQueue) × ((send_data os channel message process).1.tx_queue ≡ some q)
            × Delivered os channel q process message))
send-Delivered_example =
    send-Delivered os os channel channel fresh.0 process process message refl empty empty.is_open
      (omega arith) (omega arith)

many : ℕ → List ℕ
many zero = []
many (suc k) = 0 ∷ many k

length-many : (k : ℕ) → length (many k) ≡ k
unfolding many
length-many zero = refl
length-many (suc k) = ap suc (length-many k)

-- One buffer of 65533 bytes, kept shut.
too_large : List (List ℕ)
too_large = many 65533 ∷ []

too_large_small : AreSmall too_large
unfolding too_large
too_large_small = omega (arith, length-many 65533)

too_large_over : max_write_size < length (flatten too_large)
unfolding too_large flatten
too_large_over = rw append-nil (omega (arith, length-many 65533))
