-- ===== src/Shmem2/Create/Fresh.antt =====
-- core/shmem_ipc_2/shared_ring_queue.c: a queue that was just created or reset.
use openappsec_attachment.Common.{
  ℕ, ◌+◌, ◌≤◌, ◌<◌, ◌≡◌, ◌≢◌, refl, sym, List, [], arith, pos, negsuc, Bool, true, false, eqb_ℤ,
  none,
}
use openappsec_attachment.Shmem.Sizes.{Os}
use openappsec_attachment.Shmem.Queue.{SharedRingQueue, status_failed}
use openappsec_attachment.Shmem.Queue.Layout.{IsReleased}
use openappsec_attachment.Shmem.Create.{ShmObject, queue, mapped, memory_size_of, stamp_queue}
use openappsec_attachment.Shmem.Create.Fresh.{segments_fit, cleared-Layout}
use openappsec_attachment.Shmem2.Sizes.{
  Settled, is_larger_data_segment_supported, get_effective_segment_size,
}
use openappsec_attachment.Shmem2.Queue.{
  SharedRingGlobalData, get_position, is_corrupted_queue, reset_ring_queue, peek_to_queue,
  push_buffers_to_queue, pop_from_queue,
}
use openappsec_attachment.Shmem2.Create.{create_shared_ring_queue, register_queue}
use openappsec_attachment.Shmem2.Queue.Refine.{IsOpen, Holds}

-- The settled sizes are those of a released layout, and an owner starts from nothing settled.
settled_size :
    (os : Os) (s : Settled)
    → s.effective_size_initialized ≡ false
    → let (size, s') = get_effective_segment_size os s in
      IsReleased size × (s'.effective_size_initialized ≡ true) × (s'.effective_segment_size ≡ size)
unfolding get_effective_segment_size is_larger_data_segment_supported
settled_size os s h = ground arith

module _ (os : Os) (name : List ℕ) (n : ℕ) (is_tx : Bool) (o : ShmObject) (g : SharedRingGlobalData)
    (s : Settled) (raw : SharedRingQueue) where
  abbrev pub settled : ℕ × Settled
  settled =
      get_effective_segment_size os
        (record s { effective_size_initialized = false; effective_segment_size = 0 })

  abbrev pub created : SharedRingQueue × SharedRingGlobalData × Settled
  created = (
    stamp_queue true name n (memory_size_of settled.0 n) o.fd raw,
    register_queue is_tx name (memory_size_of settled.0 n) o.fd
        (record g { num_of_data_segments = n }),
    settled.1,
  )

  creates :
      n ≤ 2048
      → eqb_ℤ o.fd (negsuc 0) ≡ false
      → o.ftruncate_succeeds ≡ true
      → o.mapping ≡ mapped raw
      → create_shared_ring_queue os name n true is_tx o g s
        ≡ (queue created.0, created.1, created.2)
  unfolding create_shared_ring_queue
  creates few fd truncated map = ground arith

  registered :
      (created.1.num_of_data_segments ≡ n)
      × (created.1.memory_size ≡ pos (memory_size_of settled.0 n))
  unfolding register_queue
  registered = ground arith

  -- An owner's creation of 1 to 2048 segments by the nano attachment, where every call of the system
  -- succeeds and the words of the segments fit in one: it answers a sound queue that holds nothing,
  -- of the size that the process settles.
  pub create_queue-Holds :
      0 < n
      → n ≤ 2048
      → n + n ≤ settled.0
      → eqb_ℤ o.fd (negsuc 0) ≡ false
      → o.ftruncate_succeeds ≡ true
      → o.mapping ≡ mapped raw
      → (create_shared_ring_queue os name n true is_tx o g s
          ≡ (queue created.0, created.1, created.2))
        × Holds settled.0 n created.0 created.1 created.2 []
  unfolding stamp_queue
  create_queue-Holds some few words fd truncated map =
      let (released, initialized, same) =
        settled_size os
          (record s { effective_size_initialized = false; effective_segment_size = 0 }) refl in
      (
        creates few fd truncated map,
        record {
          is_open = record {
            same_number = registered.0;
            queue_number = refl;
            same_memory = sym registered.1;
            some_segment = some;
            few_segments = few;
            released = released;
            size_initialized = initialized;
            segment = same;
            mapped_size = memory_size_of settled.0 n;
            stamped = refl;
            segments_fit = segments_fit settled.0 n few released;
            words_fit = words;
          };
          layout = cleared-Layout settled.0 n raw.mgmt raw.bytes some;
        },
      )

module _ {size n : ℕ} {q : SharedRingQueue} {g : SharedRingGlobalData} {s : Settled}
    (o : IsOpen size n q g s) where
  -- A reset of an open queue of the nano attachment to its own number of segments leaves a sound queue
  -- that holds nothing.
  pub reset_queue-Holds : Holds size n (reset_ring_queue q n) g s []
  unfolding reset_ring_queue
  reset_queue-Holds = record {
    is_open = record {
      same_number = o.same_number;
      queue_number = refl;
      same_memory = o.same_memory;
      some_segment = o.some_segment;
      few_segments = o.few_segments;
      released = o.released;
      size_initialized = o.size_initialized;
      segment = o.segment;
      mapped_size = o.mapped_size;
      stamped = o.stamped;
      segments_fit = o.segments_fit;
      words_fit = o.words_fit;
    };
    layout = cleared-Layout size n q.mgmt q.bytes o.some_segment;
  }

  -- After a reset of an open queue of the nano attachment to another number of segments, a peek, a pop
  -- and a push of anything fail and change nothing, and the queue is reported as corrupted.
  pub reset_queue_refused :
      (os : Os) (k : ℕ) (bs : List (List ℕ)) (is_tx : Bool)
      → k ≢ n
      → let q' = reset_ring_queue q k in
        (peek_to_queue os q' g s ≡ (status_failed, none, q', s))
        × (pop_from_queue os q' g s ≡ (status_failed, q', s))
        × (push_buffers_to_queue os q' g bs s ≡ (status_failed, q', s))
        × (is_corrupted_queue q' g is_tx ≡ true)
  unfolding reset_ring_queue peek_to_queue pop_from_queue push_buffers_to_queue is_corrupted_queue
      get_position
  reset_queue_refused os k bs is_tx ne = ground (arith, o.same_number, o.some_segment)
