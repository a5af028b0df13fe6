-- ===== src/Shmem/Queue/Refine.antt =====
-- core/shmem_ipc/shared_ring_queue.c: the operations on a sound queue against a list of messages.
use openappsec_attachment.Common.{
  ℕ, ◌≡◌, refl, sym, ◌∙◌, List, [], ◌∷◌, arith, length, Option, none, some, ℤ, Memory, read, ap,
}
use openappsec_attachment.Shmem.Sizes.{Os}
use openappsec_attachment.Shmem.Ring.{advance_to_message, segments_needed, data_segment_offset}
use openappsec_attachment.Shmem.Queue.{
  SharedRingQueue, Process, peek_to_queue, pop_from_queue, status_ok, status_failed,
  get_data_segment_address, get_num_of_data_segments_needed, get_position,
}
use openappsec_attachment.Shmem.Queue.Layout.{segments_needed_bounds}
use openappsec_attachment.Shmem.Queue.Pop.{Found, advance-Found}
use openappsec_attachment.Shmem.Queue.Remove.{remove_message, remove-Layout}
use openappsec_attachment.Shmem.Queue.Sound.{
  IsOpen, Holds, Layout-bounds, Layout-empty, Layout-nonempty, segment_size-IsOpen,
  entry_size-IsOpen, get_position-IsOpen, cons_eq, Layout-limits,
}

module _ (os : Os) {size n : ℕ} {q : SharedRingQueue} {p : Process} where
  pub position :
      {xs : List (List ℕ)}
      → (h : Holds size n q p xs) → get_position q p ≡ (some h.is_open.params, p)
  position h =
      get_position-IsOpen h.is_open (omega (arith, Layout-bounds h.layout))
        (omega (arith, Layout-bounds h.layout))

  -- On a sound queue that holds nothing, a peek fails and changes nothing.
  pub peek_empty : Holds size n q p [] → peek_to_queue os q p ≡ (status_failed, none, q, p)
  unfolding peek_to_queue
  peek_empty h = ground (arith, position h, Layout-empty h.layout)

  -- What a peek does to a queue with a message.
  peek_step :
      {x : List ℕ} {xs : List (List ℕ)}
      → Holds size n q p (x ∷ xs)
      → let (m, r) = advance_to_message n q.mgmt q.read_pos in
        peek_to_queue os q p ≡ (
          status_ok,
          some (data_segment_offset size r, m r),
          record q { mgmt = m; read_pos = r },
          p,
        )
  unfolding peek_to_queue get_data_segment_address
  peek_step h = ground (
    arith,
    position h,
    Layout-nonempty h.is_open.released h.layout,
    Layout-bounds h.layout,
    h.is_open.same_number,
    segment_size-IsOpen h.is_open os,
  )

-- What a peek at the message `x` answers, and that it leaves the messages as they were.
pub record Peeked (size n : ℕ) (q : SharedRingQueue) (p : Process) (x : List ℕ) (xs : List (List ℕ))
    (out : ℤ × Option (ℕ × ℕ) × SharedRingQueue × Process) : Type 0 where
  pub status : out.0 ≡ status_ok
  pub address : ℕ
  pub answer : out.1 ≡ some (address, length x)
  pub content : read out.2.bytes address (length x) ≡ x
  pub at_message : out.2.mgmt out.2.read_pos ≡ length x
  pub same_process : out.3 ≡ p
  pub holds : Holds size n out.2 out.3 (x ∷ xs)

-- The queue's shared variables are written; its name and its stamped sizes are not.
pub moved :
    {size n : ℕ} {q : SharedRingQueue} {p : Process} (m b : Memory) (r w : ℕ)
    → IsOpen size n q p
    → IsOpen size n (record q { mgmt = m; bytes = b; read_pos = r; write_pos = w }) p
moved m b r w o = record {
  initialized = o.initialized;
  params = o.params;
  known = o.known;
  same_number = o.same_number;
  queue_number = o.queue_number;
  same_memory = o.same_memory;
  some_segment = o.some_segment;
  few_segments = o.few_segments;
  released = o.released;
  size_initialized = o.size_initialized;
  segment = o.segment;
  entry = o.entry;
  mapped_size = o.mapped_size;
  stamped = o.stamped;
  segments_fit = o.segments_fit;
  words_fit = o.words_fit;
}

module _ (os : Os) {size n : ℕ} {q : SharedRingQueue} {p : Process} where
  -- Peeking a queue that holds at least a message succeeds. It answers the first message's length
  -- and the address where its bytes are, stands on that message, leaves the process as it was, and
  -- the queue holds the same messages.
  pub peek_refines :
      (x : List ℕ) (xs : List (List ℕ))
      → Holds size n q p (x ∷ xs)
      → Peeked size n q p x xs (peek_to_queue os q p)
  peek_refines x xs h =
      let m : Memory = (advance_to_message n q.mgmt q.read_pos).0 in
      let r : ℕ = (advance_to_message n q.mgmt q.read_pos).1 in
      let found : Found size n m q.bytes r q.write_pos (x ∷ xs) =
        advance-Found size n h.is_open.released q.mgmt q.bytes (x ∷ xs) h.layout
          (Layout-nonempty h.is_open.released h.layout) in
      let word : m r ≡ length x = found.message.word ∙ ap length (sym (cons_eq found.split).0) in
      rw (peek_step os h) (record {
        status = refl;
        address = data_segment_offset size r;
        answer = rw word;
        content = rw ((cons_eq found.split).0) found.message.stored;
        at_message = word;
        same_process = refl;
        holds = record { is_open = moved m q.bytes r q.write_pos h.is_open; layout = found.layout };
      })

  pop_step :
      {x : List ℕ} {xs : List (List ℕ)}
      → Holds size n q p (x ∷ xs)
      → q.mgmt q.read_pos ≡ length x
      → let (m, r) = remove_message n (segments_needed size (length x)) q.mgmt q.read_pos in
        pop_from_queue os q p ≡ (status_ok, record q { mgmt = m; read_pos = r }, p)
  unfolding pop_from_queue get_num_of_data_segments_needed remove_message
  pop_step {x} h word = ground (
    arith,
    position os h,
    Layout-nonempty h.is_open.released h.layout,
    h.is_open.same_number,
    word,
    entry_size-IsOpen h.is_open os,
    segments_needed_bounds size h.is_open.released (length x) (Layout-limits h.layout).0
        (Layout-limits h.layout).1,
  )

  -- On a sound queue that holds nothing, a pop fails and changes nothing.
  pub pop_empty : Holds size n q p [] → pop_from_queue os q p ≡ (status_failed, q, p)
  unfolding pop_from_queue
  pop_empty h = ground (arith, position os h, Layout-empty h.layout)

  -- Popping a queue that holds at least a message, and stands on it as a peek leaves it, succeeds, and
  -- the queue then holds the other messages.
  pub pop_refines :
      (x : List ℕ) (xs : List (List ℕ))
      → Holds size n q p (x ∷ xs)
      → q.mgmt q.read_pos ≡ length x
      → let (status, q', p') = pop_from_queue os q p in (status ≡ status_ok) × Holds size n q' p' xs
  pop_refines x xs h word =
      let out : Memory × ℕ = remove_message n (segments_needed size (length x)) q.mgmt q.read_pos in
      rw (pop_step {x = x} {xs = xs} h word) (
        refl,
        record {
          is_open = moved out.0 q.bytes out.1 q.write_pos h.is_open;
          layout =
              remove-Layout size n h.is_open.released q.mgmt q.bytes x xs word
                (Layout-limits h.layout).1 h.layout;
        },
      )
