-- ===== src/Shmem2/Queue/Refine.antt =====
-- core/shmem_ipc_2/shared_ring_queue.c: the operations on a sound queue against a list of messages.
use openappsec_attachment.Common.{
  ℕ, ◌+◌, ◌≤◌, ◌<◌, ◌≡◌, refl, sym, ◌∙◌, List, [], ◌∷◌, arith, length, Option, none, some, ℤ, pos,
  Memory, read, ap, true,
}
use openappsec_attachment.Shmem.Sizes.{Os}
use openappsec_attachment.Shmem.Ring.{advance_to_message, segments_needed, data_segment_offset}
use openappsec_attachment.Shmem.Queue.{SharedRingQueue, status_ok, status_failed}
use openappsec_attachment.Shmem.Queue.Layout.{IsReleased, Layout, segments_needed_bounds}
use openappsec_attachment.Shmem.Queue.Pop.{Found, advance-Found}
use openappsec_attachment.Shmem.Queue.Remove.{remove_message, remove-Layout}
use openappsec_attachment.Shmem.Queue.Sound.{
  Layout-bounds, Layout-empty, Layout-nonempty, Layout-limits, eqb_ℤ-refl, cons_eq,
}
use openappsec_attachment.Shmem2.Sizes.{Settled, get_effective_segment_size}
use openappsec_attachment.Shmem2.Queue.{
  SharedRingGlobalData, get_position, get_data_segment_address, get_num_of_data_segments_needed,
  peek_to_queue, pop_from_queue,
}

-- The stamp, the structure and the settled size agree on `n` segments of `size` bytes.
pub record IsOpen (size n : ℕ) (q : SharedRingQueue) (g : SharedRingGlobalData) (s : Settled)
    : Type 0 where
  pub same_number : g.num_of_data_segments ≡ n
  pub queue_number : q.num_of_data_segments ≡ n
  pub same_memory : q.size_of_memory ≡ g.memory_size
  pub some_segment : 0 < n
  pub few_segments : n ≤ 2048
  pub released : IsReleased size
  pub size_initialized : s.effective_size_initialized ≡ true
  pub segment : s.effective_segment_size ≡ size
  -- The mapping holds the segments, and a word for each in front of them.
  pub mapped_size : ℕ
  pub stamped : q.size_of_memory ≡ pos mapped_size
  pub segments_fit : data_segment_offset size n ≤ mapped_size
  pub words_fit : n + n ≤ size

pub record Holds (size n : ℕ) (q : SharedRingQueue) (g : SharedRingGlobalData) (s : Settled)
    (xs : List (List ℕ)) : Type 0 where
  pub is_open : IsOpen size n q g s
  pub layout : Layout size n q.mgmt q.bytes q.read_pos q.write_pos xs

pub moved :
    {size n : ℕ} {q : SharedRingQueue} {g : SharedRingGlobalData} {s : Settled} (m b : Memory)
    (r w : ℕ)
    → IsOpen size n q g s
    → IsOpen size n (record q { mgmt = m; bytes = b; read_pos = r; write_pos = w }) g s
moved m b r w o = record {
  same_number = o.same_number;
  queue_number = o.queue_number;
  same_memory = o.same_memory;
  some_segment = o.some_segment;
  few_segments = o.few_segments;
  released = o.released;
  size_initialized = o.size_initialized;
  segment = o.segment;
  mapped_size = o.mapped_size;
  stamped = o.stamped;
  segments_fit = o.segments_fit;
  words_fit = o.words_fit;
}

-- What a peek at the message `x` answers, and that it leaves the messages as they were.
pub record Peeked (size n : ℕ) (q : SharedRingQueue) (g : SharedRingGlobalData) (s : Settled)
    (x : List ℕ) (xs : List (List ℕ)) (out : ℤ × Option (ℕ × ℕ) × SharedRingQueue × Settled)
    : Type 0 where
  pub status : out.0 ≡ status_ok
  pub address : ℕ
  pub answer : out.1 ≡ some (address, length x)
  pub content : read out.2.bytes address (length x) ≡ x
  pub at_message : out.2.mgmt out.2.read_pos ≡ length x
  pub same_sizes : out.3 ≡ s
  pub holds : Holds size n out.2 g out.3 (x ∷ xs)

module _ (os : Os) {size n : ℕ} {q : SharedRingQueue} {g : SharedRingGlobalData} {s : Settled} where
  pub segment_size-IsOpen : IsOpen size n q g s → get_effective_segment_size os s ≡ (size, s)
  unfolding get_effective_segment_size
  segment_size-IsOpen o = rw (o.size_initialized, o.segment)

  pub position : {xs : List (List ℕ)} → Holds size n q g s xs → get_position q g ≡ true
  unfolding get_position
  position h = ground (
    arith,
    Layout-bounds h.layout,
    eqb_ℤ-refl q.size_of_memory,
    h.is_open.same_number,
    h.is_open.queue_number,
    h.is_open.same_memory,
    h.is_open.some_segment,
  )

  -- On a sound queue of the nano attachment that holds nothing, a peek and a pop both fail, and
  -- neither changes anything.
  pub empty_fails :
      Holds size n q g s []
      → (peek_to_queue os q g s ≡ (status_failed, none, q, s))
        × (pop_from_queue os q g s ≡ (status_failed, q, s))
  unfolding peek_to_queue pop_from_queue
  empty_fails h = ground (arith, position h, Layout-empty h.layout)

  peek_step :
      {x : List ℕ} {xs : List (List ℕ)}
      → Holds size n q g s (x ∷ xs)
      → let (m, r) = advance_to_message n q.mgmt q.read_pos in
        peek_to_queue os q g s ≡ (
          status_ok,
          some (data_segment_offset size r, m r),
          record q { mgmt = m; read_pos = r },
          s,
        )
  unfolding peek_to_queue get_data_segment_address
  peek_step h = ground (
    arith,
    position h,
    Layout-nonempty h.is_open.released h.layout,
    Layout-bounds h.layout,
    h.is_open.same_number,
    segment_size-IsOpen h.is_open,
  )

  -- Peeking a queue of the nano attachment that holds at least a message succeeds. It answers the
  -- first message's length and the address where its bytes are, stands on that message, leaves the
  -- settled size as it was, and the queue holds the same messages.
  pub peek_queue_refines :
      (x : List ℕ) (xs : List (List ℕ))
      → Holds size n q g s (x ∷ xs)
      → Peeked size n q g s x xs (peek_to_queue os q g s)
  peek_queue_refines x xs h =
      let m : Memory = (advance_to_message n q.mgmt q.read_pos).0 in
      let r : ℕ = (advance_to_message n q.mgmt q.read_pos).1 in
      let found : Found size n m q.bytes r q.write_pos (x ∷ xs) =
        advance-Found size n h.is_open.released q.mgmt q.bytes (x ∷ xs) h.layout
          (Layout-nonempty h.is_open.released h.layout) in
      let word : m r ≡ length x = found.message.word ∙ ap length (sym (cons_eq found.split).0) in
      rw (peek_step h) (record {
        status = refl;
        address = data_segment_offset size r;
        answer = rw word;
        content = rw ((cons_eq found.split).0) found.message.stored;
        at_message = word;
        same_sizes = refl;
        holds = record { is_open = moved m q.bytes r q.write_pos h.is_open; layout = found.layout };
      })

  pop_step :
      {x : List ℕ} {xs : List (List ℕ)}
      → Holds size n q g s (x ∷ xs)
      → q.mgmt q.read_pos ≡ length x
      → let (m, r) = remove_message n (segments_needed size (length x)) q.mgmt q.read_pos in
        pop_from_queue os q g s ≡ (status_ok, record q { mgmt = m; read_pos = r }, s)
  unfolding pop_from_queue get_num_of_data_segments_needed remove_message
  pop_step {x} h word = ground (
    arith,
    position h,
    Layout-nonempty h.is_open.released h.layout,
    h.is_open.same_number,
    word,
    segment_size-IsOpen h.is_open,
    segments_needed_bounds size h.is_open.released (length x) (Layout-limits h.layout).0
        (Layout-limits h.layout).1,
  )

  -- Popping a queue of the nano attachment that holds at least a message, and stands on it as a peek
  -- leaves it, succeeds, and the queue then holds the other messages.
  pub pop_queue_refines :
      (x : List ℕ) (xs : List (List ℕ))
      → Holds size n q g s (x ∷ xs)
      → q.mgmt q.read_pos ≡ length x
      → let (status, q', s') = pop_from_queue os q g s in
        (status ≡ status_ok) × Holds size n q' g s' xs
  pop_queue_refines x xs h word =
      let out : Memory × ℕ = remove_message n (segments_needed size (length x)) q.mgmt q.read_pos in
      rw (pop_step {x = x} {xs = xs} h word) (
        refl,
        record {
          is_open = moved out.0 q.bytes out.1 q.write_pos h.is_open;
          layout =
              remove-Layout size n h.is_open.released q.mgmt q.bytes x xs word
                (Layout-limits h.layout).1 h.layout;
        },
      )
