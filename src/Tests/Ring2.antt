-- ===== src/Tests/Ring2.antt =====
-- The theorems on the shared memory of the nano attachment at concrete inputs.
use mathlib.Core.List.{flatten}
use openappsec_attachment.Common.{
  ℕ, ℤ, ◌≡◌, refl, [], ◌∷◌, arith, false, true, none, some, Option, inl, inr,
}
use openappsec_attachment.Shmem.Ring.{segments_needed}
use openappsec_attachment.Shmem.Queue.{SharedRingQueue, status_failed}
use openappsec_attachment.Shmem.Create.{stamp_queue}
use openappsec_attachment.Shmem2.Sizes.{
  Settled, get_effective_segment_size, is_larger_data_segment_supported,
}
use openappsec_attachment.Shmem2.Queue.{
  SharedRingGlobalData, reset_ring_queue, peek_to_queue, pop_from_queue, push_buffers_to_queue,
  is_corrupted_queue,
}
use openappsec_attachment.Shmem2.Create.{initial_global_data}
use openappsec_attachment.Shmem2.Create.Fresh.{created, create_queue-Holds, reset_queue_refused}
use openappsec_attachment.Shmem2.Queue.Refine.{Holds, Peeked, peek_queue_refines}
use openappsec_attachment.Shmem2.Queue.Push.{Outcome, push_queue_refines}
use openappsec_attachment.Shmem2.Channel.{SharedMemoryIpc}
use openappsec_attachment.Tests.Shmem.{
  os, raw, object, name, message, parts, parts_small, parts_some, parts_limit,
}

abbrev start : Settled
start = record { effective_segment_size = 0; effective_size_initialized = false; environ = [] }

abbrev fresh : SharedRingQueue × SharedRingGlobalData × Settled
fresh = created os name 8 true object initial_global_data start raw

empty : Holds 1024 8 fresh.0 fresh.1 fresh.2 []
unfolding get_effective_segment_size is_larger_data_segment_supported
empty =
    (create_queue-Holds os name 8 true object initial_global_data start raw (omega arith)
      (omega arith) (omega arith) refl refl refl).1

push_queue_refines_example :
    Outcome os empty parts parts_small parts_some parts_limit
      (push_buffers_to_queue os fresh.0 fresh.1 parts fresh.2)
unfolding stamp_queue
push_queue_refines_example =
    push_queue_refines os empty parts parts_small parts_some parts_limit (inl (omega arith))

-- The queue after the push.
abbrev pushed : SharedRingQueue × Settled
pushed = (
  (push_buffers_to_queue os fresh.0 fresh.1 parts fresh.2).1,
  (push_buffers_to_queue os fresh.0 fresh.1 parts fresh.2).2,
)

holding : Holds 1024 8 pushed.0 fresh.1 pushed.1 (message ∷ [])
unfolding flatten segments_needed stamp_queue
holding =
    elim (push_queue_refines os empty parts parts_small parts_some parts_limit
      (inl (omega arith))) [
        | inl (_, _, holds) ↦ holds
        | inr (full, _) ↦ absurd (full (omega arith))
      ]

abbrev peeked : ℤ × Option (ℕ × ℕ) × SharedRingQueue × Settled
peeked = peek_to_queue os pushed.0 fresh.1 pushed.1

looking : Peeked 1024 8 pushed.0 fresh.1 pushed.1 message [] peeked
looking = peek_queue_refines os message [] holding

reset_queue_refused_example :
    let q = reset_ring_queue pushed.0 4 in
    (peek_to_queue os q fresh.1 pushed.1 ≡ (status_failed, none, q, pushed.1))
    × (pop_from_queue os q fresh.1 pushed.1 ≡ (status_failed, q, pushed.1))
    × (push_buffers_to_queue os q fresh.1 parts pushed.1 ≡ (status_failed, q, pushed.1))
    × (is_corrupted_queue q fresh.1 true ≡ true)
reset_queue_refused_example = reset_queue_refused holding.is_open os 4 parts true (omega arith)

abbrev channel : SharedMemoryIpc
channel = record {
  shm_name = name;
  rx_queue = some pushed.0;
  tx_queue = none;
  global_data = fresh.1;
}
