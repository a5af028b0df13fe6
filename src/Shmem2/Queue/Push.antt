-- ===== src/Shmem2/Queue/Push.antt =====
-- core/shmem_ipc_2/shared_ring_queue.c: a push on a sound queue against a list of messages.
use mathlib.Core.List.{flatten}
use openappsec_attachment.Common.{
  ℕ, ◌≤◌, ◌<◌, ◌≡◌, refl, List, [], ◌∷◌, ◌++◌, arith, length, ℤ, Memory, copy, true, false, ◌⊎◌,
  inl, inr, Bool-cases,
}
use openappsec_attachment.Shmem.Sizes.{Os}
use openappsec_attachment.Shmem.Ring.{
  max_write_size, segments_needed, data_segment_offset, is_there_enough_memory,
}
use openappsec_attachment.Shmem.Queue.{SharedRingQueue, status_ok, status_full, status_too_large}
use openappsec_attachment.Shmem.Queue.Layout.{segments_needed_bounds}
use openappsec_attachment.Shmem.Queue.Append.{append_message, append-Layout}
use openappsec_attachment.Shmem.Queue.Space.{InRange, IsTestExact, HasRoom, enough_iff}
use openappsec_attachment.Shmem.Queue.Sound.{
  Layout-bounds, AreSmall, total_size_lem, copy_buffers_lem,
}
use openappsec_attachment.Shmem2.Sizes.{Settled}
use openappsec_attachment.Shmem2.Queue.{SharedRingGlobalData, push_buffers_to_queue, write_message}
use openappsec_attachment.Shmem2.Queue.Refine.{Holds, moved, position, segment_size-IsOpen}

module _ (os : Os) {size n : ℕ} {q : SharedRingQueue} {g : SharedRingGlobalData} {s : Settled}
    {xs : List (List ℕ)} (h : Holds size n q g s xs) (bs : List (List ℕ))
    (small : AreSmall bs) where
  push_over :
      max_write_size < length (flatten bs)
      → push_buffers_to_queue os q g bs s ≡ (status_too_large, q, s)
  unfolding push_buffers_to_queue
  push_over over = ground (arith, position os h, total_size_lem bs small)

  module _ (some_byte : 0 < length (flatten bs))
      (limit : length (flatten bs) ≤ max_write_size) where
    abbrev pub num : ℕ
    num = segments_needed size (length (flatten bs))

    bounds : (0 < num) × (num ≤ 64)
    bounds = segments_needed_bounds size h.is_open.released (length (flatten bs)) some_byte limit

    in_range : InRange n q.write_pos q.read_pos num
    in_range = omega (arith, bounds, Layout-bounds h.layout, h.is_open.few_segments)

    push_full :
        is_there_enough_memory n q.write_pos q.read_pos num ≡ false
        → push_buffers_to_queue os q g bs s ≡ (status_full, q, s)
    unfolding push_buffers_to_queue
    push_full no_room = ground (
      arith,
      position os h,
      total_size_lem bs small,
      segment_size-IsOpen os h.is_open,
      bounds,
      h.is_open.same_number,
      no_room,
    )

    push_writes :
        is_there_enough_memory n q.write_pos q.read_pos num ≡ true
        → push_buffers_to_queue os q g bs s ≡ write_message os n num (length (flatten bs)) q bs s
    unfolding push_buffers_to_queue
    push_writes room = ground (
      arith,
      position os h,
      total_size_lem bs small,
      segment_size-IsOpen os h.is_open,
      bounds,
      h.is_open.same_number,
      room,
    )

    abbrev pushed : Memory × ℕ × ℕ
    pushed = append_message n num (length (flatten bs)) q.mgmt q.write_pos

    write_step : write_message os n num (length (flatten bs)) q bs s ≡ (
      status_ok,
      record q {
        mgmt = pushed.0;
        bytes = copy q.bytes (data_segment_offset size pushed.1) (flatten bs);
        write_pos = pushed.2;
      },
      s,
    )
    unfolding write_message append_message
    write_step =
        rw (← copy_buffers_lem q.bytes (data_segment_offset size pushed.1) bs)
          (ground (arith, Layout-bounds h.layout, segment_size-IsOpen os h.is_open))

    abbrev pub Outcome : ℤ × SharedRingQueue × Settled → Type 0
    Outcome out =
        (HasRoom n q.write_pos q.read_pos num
          × (out.0 ≡ status_ok)
          × Holds size n out.1 g out.2 (xs ++ flatten bs ∷ []))
        ⊎ ((¬ HasRoom n q.write_pos q.read_pos num) × (out ≡ (status_full, q, s)))

    -- Pushing buffers of less than 65536 bytes each and 1 to 65532 in total on a sound queue of the nano attachment, the writer
    -- not behind the reader or the message ending before the ring does: with room it succeeds, and the
    -- queue holds the buffers' bytes as one message behind the others; without, it answers that the
    -- queue is full and changes nothing.
    pub push_queue_refines :
        IsTestExact n q.write_pos q.read_pos num → Outcome (push_buffers_to_queue os q g bs s)
    push_queue_refines exact =
        elim (Bool-cases (is_there_enough_memory n q.write_pos q.read_pos num)) [
          | inr full ↦ inr ((λ room. cc ((enough_iff in_range exact).1 room)), push_full full)
          | inl enough ↦
              let room : HasRoom n q.write_pos q.read_pos num =
                (enough_iff in_range exact).0 enough in
              inl (
                rw (push_writes enough, write_step)
                  (
                    room,
                    refl,
                    record {
                      is_open =
                          moved pushed.0
                            (copy q.bytes (data_segment_offset size pushed.1) (flatten bs))
                            q.read_pos pushed.2 h.is_open;
                      layout =
                          append-Layout size n h.is_open.released q.mgmt q.bytes (flatten bs)
                            some_byte limit h.is_open.few_segments xs room h.layout;
                    },
                  ))
        ]
