-- ===== src/Shmem/Queue/Faults.antt =====
-- core/shmem_ipc/shared_ring_queue.c: a message of no bytes, which takes no segment.
use openappsec_attachment.Common.{
  ℕ, ◌+◌, ◌≤◌, ◌<◌, ◌≡◌, ◌≢◌, refl, sym, ◌∙◌, [], ◌∷◌, arith, fill, copy, store, leb, if◌then◌else◌,
}
use openappsec_attachment.Shmem.Sizes.{Os}
use openappsec_attachment.Shmem.Ring.{
  segments_needed, total_size, copy_buffers, is_there_enough_memory, mark_message, place_message,
}
use openappsec_attachment.Shmem.Queue.{
  SharedRingQueue, Process, push_to_queue, push_buffers_to_queue, pop_from_queue, write_message,
  status_ok,
}
use openappsec_attachment.Shmem.Queue.Layout.{IsReleased}
use openappsec_attachment.Shmem.Queue.Refine.{moved}
use openappsec_attachment.Shmem.Queue.Sound.{
  IsOpen, Holds, Layout-bounds, Layout-empty, get_position-IsOpen, lookup-IsOpen, entry_size-IsOpen,
  segment_size-IsOpen,
}

segments_needed-zero : (size : ℕ) → IsReleased size → segments_needed size 0 ≡ 0
unfolding segments_needed
segments_needed-zero size released = ground arith

-- The queue after the push of a message of no bytes.
abbrev pub jammed : SharedRingQueue → ℕ → SharedRingQueue
jammed r segments = record r {
  mgmt = store r.mgmt r.write_pos 0;
  write_pos = if leb segments (r.write_pos + 1) then 0 else r.write_pos + 1;
}

module _ (os : Os) {size n : ℕ} {q : SharedRingQueue} {p : Process} where
  -- A first message of no bytes is never removed: the pop succeeds and changes nothing.
  pub pop_empty_message :
      IsOpen size n q p
      → q.read_pos < n
      → q.write_pos ≤ n
      → q.read_pos ≢ q.write_pos
      → q.mgmt q.read_pos ≡ 0
      → pop_from_queue os q p ≡ (status_ok, q, p)
  unfolding pop_from_queue fill
  pop_empty_message o r w ne word = ground (
    arith,
    get_position-IsOpen o (omega arith) w,
    entry_size-IsOpen o os,
    o.same_number,
    segments_needed-zero size o.released,
    word,
  )

  write_empty :
      IsOpen size n q p
      → q.write_pos < n
      → write_message os n 0 0 q ([] ∷ []) p ≡ (status_ok, jammed q n, p)
  unfolding write_message place_message mark_message fill copy_buffers copy
  write_empty o w = ground (arith, o.few_segments, segment_size-IsOpen o os)

  push_empty_writes :
      Holds size n q p [] → 1 < n → push_to_queue os q [] p ≡ write_message os n 0 0 q ([] ∷ []) p
  unfolding push_to_queue push_buffers_to_queue total_size is_there_enough_memory
  push_empty_writes h many = ground (
    arith,
    get_position-IsOpen h.is_open (omega (arith, Layout-bounds h.layout))
        (omega (arith, Layout-bounds h.layout)),
    entry_size-IsOpen h.is_open os,
    lookup-IsOpen h.is_open,
    h.is_open.same_number,
    h.is_open.few_segments,
    segments_needed-zero size h.is_open.released,
    Layout-empty h.layout,
    Layout-bounds h.layout,
  )

jammed_moves :
    (q : SharedRingQueue) (n : ℕ)
    → q.write_pos < n
    → 1 < n
    → ((jammed q n).write_pos < n) × ((jammed q n).write_pos ≢ q.write_pos)
jammed_moves q n w many = ground arith

-- A sound queue of more than one segment that holds nothing takes a message of no bytes; then its
-- positions differ, and a pop answers success and changes nothing.
pub push_empty_jams :
    (os : Os) {size n : ℕ} {q : SharedRingQueue} {p : Process}
    → Holds size n q p []
    → 1 < n
    → let (status, q', p') = push_to_queue os q [] p in
      (status ≡ status_ok)
      × (q'.read_pos ≢ q'.write_pos)
      × (pop_from_queue os q' p' ≡ (status_ok, q', p'))
push_empty_jams os {size} {n} {q} {p} h many =
    let w : q.write_pos < n = (Layout-bounds h.layout).1 in
    let same : q.read_pos ≡ q.write_pos = Layout-empty h.layout in
    let next = jammed_moves q n w many in
    let ne : q.read_pos ≢ (jammed q n).write_pos = λ e. next.1 (sym e ∙ same) in
    rw (push_empty_writes os h many, write_empty os h.is_open w)
      (
        refl,
        ne,
        pop_empty_message os {q = jammed q n}
            (moved (jammed q n).mgmt q.bytes q.read_pos (jammed q n).write_pos h.is_open)
            (omega arith) (omega arith) ne (ground arith),
      )
