-- ===== src/Shmem/Queue/Push.antt =====
-- core/shmem_ipc/shared_ring_queue.c: `pushBuffersToQueue` on a sound queue against a list of
-- messages.
use mathlib.Core.List.{flatten}
use openappsec_attachment.Common.{
  ℕ, ◌+◌, ◌≤◌, ◌<◌, ◌≡◌, refl, ◌⊎◌, inl, inr, List, [], ◌∷◌, ◌++◌, arith, length, ℤ, Memory, copy,
  copy_out, true, false, Bool-cases,
}
use openappsec_attachment.Shmem.Sizes.{Os}
use openappsec_attachment.Shmem.Ring.{
  segments_needed, data_segment_offset, header_prefix_size, max_write_size, is_there_enough_memory,
}
use openappsec_attachment.Shmem.Queue.{
  SharedRingQueue, Process, push_buffers_to_queue, status_ok, status_too_large, status_full,
  write_message,
}
use openappsec_attachment.Shmem.Queue.Space.{IsTestExact, HasRoom, enough_iff, InRange}
use openappsec_attachment.Shmem.Queue.Layout.{segments_needed_bounds, offset_mono, offset_le}
use openappsec_attachment.Shmem.Queue.Append.{
  append_message, append-Layout, append_in_ring, append_words,
}
use openappsec_attachment.Shmem.Queue.Sound.{
  Holds, AreSmall, Layout-bounds, lookup-IsOpen, segment_size-IsOpen, entry_size-IsOpen,
  total_size_lem, copy_buffers_lem,
}
use openappsec_attachment.Shmem.Queue.Refine.{position, moved}

module _ (os : Os) {size n : ℕ} {q : SharedRingQueue} {p : Process} {xs : List (List ℕ)}
    (h : Holds size n q p xs) (bs : List (List ℕ)) (small : AreSmall bs) where
  -- On a sound queue, buffers of less than 65536 bytes each and more than 65532 in total are refused,
  -- and nothing changes.
  pub push_too_large :
      max_write_size < length (flatten bs)
      → push_buffers_to_queue os q bs p ≡ (status_too_large, q, p)
  unfolding push_buffers_to_queue
  push_too_large over = ground (arith, position os h, total_size_lem bs small)

  module _ (some_byte : 0 < length (flatten bs))
      (limit : length (flatten bs) ≤ max_write_size) where
    abbrev pub num : ℕ
    num = segments_needed size (length (flatten bs))

    bounds : (0 < num) × (num ≤ 64)
    bounds = segments_needed_bounds size h.is_open.released (length (flatten bs)) some_byte limit

    in_range : InRange n q.write_pos q.read_pos num
    in_range = omega (arith, bounds, Layout-bounds h.layout, h.is_open.few_segments)

    push_full :
        is_there_enough_memory n q.write_pos q.read_pos num ≡ false
        → push_buffers_to_queue os q bs p ≡ (status_full, q, p)
    unfolding push_buffers_to_queue
    push_full no_room = ground (
      arith,
      position os h,
      total_size_lem bs small,
      entry_size-IsOpen h.is_open os,
      bounds,
      lookup-IsOpen h.is_open,
      h.is_open.same_number,
      no_room,
    )

    push_writes :
        is_there_enough_memory n q.write_pos q.read_pos num ≡ true
        → push_buffers_to_queue os q bs p ≡ write_message os n num (length (flatten bs)) q bs p
    unfolding push_buffers_to_queue
    push_writes room = ground (
      arith,
      position os h,
      total_size_lem bs small,
      entry_size-IsOpen h.is_open os,
      bounds,
      lookup-IsOpen h.is_open,
      h.is_open.same_number,
      room,
    )

    abbrev pushed : Memory × ℕ × ℕ
    pushed = append_message n num (length (flatten bs)) q.mgmt q.write_pos

    write_step : write_message os n num (length (flatten bs)) q bs p ≡ (
      status_ok,
      record q {
        mgmt = pushed.0;
        bytes = copy q.bytes (data_segment_offset size pushed.1) (flatten bs);
        write_pos = pushed.2;
      },
      p,
    )
    unfolding write_message append_message
    write_step =
        rw (← copy_buffers_lem q.bytes (data_segment_offset size pushed.1) bs)
          (ground (arith, Layout-bounds h.layout, segment_size-IsOpen h.is_open os))

    abbrev pub Outcome : ℤ × SharedRingQueue × Process → Type 0
    Outcome out =
        (HasRoom n q.write_pos q.read_pos num
          × (out.0 ≡ status_ok)
          × Holds size n out.1 out.2 (xs ++ flatten bs ∷ []))
        ⊎ ((¬ HasRoom n q.write_pos q.read_pos num) × (out ≡ (status_full, q, p)))

    -- Pushing buffers of less than 65536 bytes each and 1 to 65532 in total on a sound queue, the writer not behind the reader
    -- or the message ending before the ring does: with room it succeeds, and the queue holds the
    -- buffers' bytes as one message behind the others; without, it answers that the queue is full
    -- and changes nothing.
    pub push_refines :
        IsTestExact n q.write_pos q.read_pos num → Outcome (push_buffers_to_queue os q bs p)
    push_refines exact = elim (Bool-cases (is_there_enough_memory n q.write_pos q.read_pos num)) [
      | inr full ↦ inr ((λ room. cc ((enough_iff in_range exact).1 room)), push_full full)
      | inl enough ↦
          let room : HasRoom n q.write_pos q.read_pos num = (enough_iff in_range exact).0 enough in
          inl (
            rw (push_writes enough, write_step)
              (
                room,
                refl,
                record {
                  is_open =
                      moved pushed.0 (copy q.bytes (data_segment_offset size pushed.1) (flatten bs))
                        q.read_pos pushed.2 h.is_open;
                  layout =
                      append-Layout size n h.is_open.released q.mgmt q.bytes (flatten bs) some_byte
                        limit h.is_open.few_segments xs room h.layout;
                },
              ))
    ]

    bytes_in_bounds :
        IsTestExact n q.write_pos q.read_pos num
        → (j : ℕ) → (j < data_segment_offset size 0) ⊎ (h.is_open.mapped_size ≤ j)
        → (push_buffers_to_queue os q bs p).1.bytes j ≡ q.bytes j
    bytes_in_bounds exact j out =
        elim (Bool-cases (is_there_enough_memory n q.write_pos q.read_pos num)) [
          | inr full ↦ rw (push_full full)
          | inl enough ↦
              rw (push_writes enough, write_step)
                (copy_out q.bytes (data_segment_offset size pushed.1) (flatten bs) j (elim out [
                  | inl before ↦
                      inl (
                        omega (arith, offset_mono size h.is_open.released 0 pushed.1 (omega arith)))
                  | inr behind ↦ inr (
                      omega (
                        arith,
                        offset_le size h.is_open.released pushed.1 (length (flatten bs)) n (
                            append_in_ring size n h.is_open.released q.mgmt q.bytes (flatten bs)
                              some_byte limit h.is_open.few_segments q.read_pos q.write_pos
                              (Layout-bounds h.layout).1 (Layout-bounds h.layout).0
                              ((enough_iff in_range exact).0 enough)),
                        h.is_open.segments_fit,
                      ))
                ]))
        ]

    words_in_bounds :
        IsTestExact n q.write_pos q.read_pos num
        → (k : ℕ) → n ≤ k
        → (push_buffers_to_queue os q bs p).1.mgmt k ≡ q.mgmt k
    words_in_bounds exact k behind =
        elim (Bool-cases (is_there_enough_memory n q.write_pos q.read_pos num)) [
          | inr full ↦ rw (push_full full)
          | inl enough ↦
              rw (push_writes enough, write_step)
                (append_words size n h.is_open.released q.mgmt q.bytes (flatten bs) some_byte limit
                  h.is_open.few_segments q.read_pos q.write_pos k (Layout-bounds h.layout).1
                  (Layout-bounds h.layout).0 ((enough_iff in_range exact).0 enough) behind)
        ]

    words_in_front : header_prefix_size + (n + n) ≤ data_segment_offset size 0
    unfolding data_segment_offset
    words_in_front = ground (arith, h.is_open.words_fit)

    -- Pushing buffers of less than 65536 bytes each and 1 to 65532 in total on a sound queue, the writer
    -- not behind the reader or the message ending before the ring does, stays in the mapping: it changes
    -- no management word but those of the ring's segments, all of which lie between the structure's
    -- fields and the first segment; in the copying of the buffers no byte in front of the first segment,
    -- nor past the mapping; and never the reader's position.
    pub push_in_bounds :
        IsTestExact n q.write_pos q.read_pos num
        → (k j : ℕ) → n ≤ k
        → (j < data_segment_offset size 0) ⊎ (h.is_open.mapped_size ≤ j)
        → let out = (push_buffers_to_queue os q bs p).1 in
          (out.mgmt k ≡ q.mgmt k)
          × (header_prefix_size + (n + n) ≤ data_segment_offset size 0)
          × (out.bytes j ≡ q.bytes j)
          × (out.read_pos ≡ q.read_pos)
    push_in_bounds exact k j behind out = (
      words_in_bounds exact k behind,
      words_in_front,
      bytes_in_bounds exact j out,
      elim (Bool-cases (is_there_enough_memory n q.write_pos q.read_pos num)) [
        | inr full ↦ rw (push_full full) refl
        | inl enough ↦ rw (push_writes enough, write_step) refl
      ],
    )
