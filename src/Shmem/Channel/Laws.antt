-- ===== src/Shmem/Channel/Laws.antt =====
-- core/shmem_ipc/shmem_ipc.c: the two ends of a channel, and a message's way through it.
use mathlib.Core.List.{flatten, append-nil}
use openappsec_attachment.Common.{
  ℕ, ◌≤◌, ◌<◌, ◌≡◌, refl, ◌∙◌, ◌≢◌, ◌⊎◌, inl, inr, Bool, true, false, not, Option, some, List, [],
  ◌∷◌, get_or, length, arith, read, ap, ℤ,
}
use openappsec_attachment.Shmem.Sizes.{Os}
use openappsec_attachment.Shmem.Ring.{max_write_size}
use openappsec_attachment.Shmem.Queue.{
  push_buffers_to_queue, write_message, peek_to_queue, pop_from_queue, SharedRingQueue, Process,
  status_ok, status_full, push_to_queue, is_queue_empty,
}
use openappsec_attachment.Shmem.Queue.Sound.{IsOpen, Holds, Layout-empty}
use openappsec_attachment.Shmem.Queue.Refine.{Peeked, peek_refines, pop_refines}
use openappsec_attachment.Shmem.Queue.Push.{push_refines}
use openappsec_attachment.Shmem.Channel.{
  SharedMemoryIpc, queue_name, is_towards_owner, send_data, receive_data, pop_data,
  is_data_available,
}

names_differ :
    (is_owner : Bool) (name : List ℕ)
    → queue_name is_owner true name ≢ queue_name is_owner false name
unfolding queue_name is_towards_owner
names_differ true name e =
    let h : ◌≡◌ {A = ℕ} b't' b'r' = ap (λ l. get_or l 10 0) e in absurd (omega arith)
names_differ false name e =
    let h : ◌≡◌ {A = ℕ} b'r' b't' = ap (λ l. get_or l 10 0) e in absurd (omega arith)

-- The owner sends on the queue that the user receives on, and the other way round; the two queues
-- of a channel have different names.
pub ends_meet :
    (is_tx : Bool) (name : List ℕ)
    → (queue_name true is_tx name ≡ queue_name false (not is_tx) name)
      × ((is_owner : Bool) → queue_name is_owner true name ≢ queue_name is_owner false name)
unfolding queue_name is_towards_owner
ends_meet true name = (refl, λ o. names_differ o name)
ends_meet false name = (refl, λ o. names_differ o name)

-- The receiver's view of a queue that the sender wrote.
seen :
    {size n : ℕ} {q q' : SharedRingQueue} {ps' pr : Process} {xs : List (List ℕ)}
    → IsOpen size n q pr
    → q'.shared_location_name ≡ q.shared_location_name
    → q'.num_of_data_segments ≡ q.num_of_data_segments
    → q'.size_of_memory ≡ q.size_of_memory
    → Holds size n q' ps' xs
    → Holds size n q' pr xs
seen o name number memory h = record {
  is_open = record {
    initialized = o.initialized;
    params = o.params;
    known = rw name o.known;
    same_number = o.same_number;
    queue_number = number ∙ o.queue_number;
    same_memory = memory ∙ o.same_memory;
    some_segment = o.some_segment;
    few_segments = o.few_segments;
    released = o.released;
    size_initialized = o.size_initialized;
    segment = o.segment;
    entry = o.entry;
    mapped_size = o.mapped_size;
    stamped = memory ∙ o.stamped;
    segments_fit = o.segments_fit;
    words_fit = o.words_fit;
  };
  layout = h.layout;
}

module _ (os : Os) (q : SharedRingQueue) (bs : List (List ℕ)) (p : Process) where
  abbrev written : SharedRingQueue
  written = (push_buffers_to_queue os q bs p).1

  -- A push leaves the name and the stamped sizes as they are.
  push_keeps :
      (written.shared_location_name ≡ q.shared_location_name)
      × (written.num_of_data_segments ≡ q.num_of_data_segments)
      × (written.size_of_memory ≡ q.size_of_memory)
  unfolding push_buffers_to_queue write_message
  push_keeps = ground arith

-- What the receiver gets of `bytes` through the queue `q`: the bytes, and after a pop an empty queue.
pub record Delivered (os : Os) (ipc : SharedMemoryIpc) (q : SharedRingQueue) (p : Process)
    (bytes : List ℕ) : Type 0 where
  pub received : (receive_data os ipc q p).0 ≡ status_ok
  pub address : ℕ
  pub answer : (receive_data os ipc q p).1 ≡ some (address, length bytes)
  pub peeked : SharedRingQueue
  pub kept : (receive_data os ipc q p).2.rx_queue ≡ some peeked
  pub content : read peeked.bytes address (length bytes) ≡ bytes
  pub popped : (pop_data os ipc peeked (receive_data os ipc q p).3).0 ≡ status_ok
  pub rest : SharedRingQueue
  pub left : (pop_data os ipc peeked (receive_data os ipc q p).3).1.rx_queue ≡ some rest
  pub emptied : is_data_available rest ≡ false

not_available : (q : SharedRingQueue) → q.read_pos ≡ q.write_pos → is_data_available q ≡ false
unfolding is_data_available is_queue_empty
not_available q e = ground arith

deliver :
    (os : Os) (ipc : SharedMemoryIpc) {size n : ℕ} {q : SharedRingQueue} {p : Process}
    (bytes : List ℕ)
    → Holds size n q p (bytes ∷ [])
    → Delivered os ipc q p bytes
unfolding receive_data pop_data
deliver os ipc {size} {n} {q} {p} bytes h =
    let out : ℤ × Option (ℕ × ℕ) × SharedRingQueue × Process = peek_to_queue os q p in
    let peek : Peeked size n q p bytes [] out = peek_refines os bytes [] h in
    let pop : ((pop_from_queue os out.2 out.3).0 ≡ status_ok)
        × Holds size n (pop_from_queue os out.2 out.3).1 (pop_from_queue os out.2 out.3).2 [] =
      pop_refines os bytes [] peek.holds peek.at_message in
    record {
      received = peek.status;
      address = peek.address;
      answer = peek.answer;
      peeked = out.2;
      kept = refl;
      content = peek.content;
      popped = pop.0;
      rest = (pop_from_queue os out.2 out.3).1;
      left = refl;
      emptied = not_available (pop_from_queue os out.2 out.3).1 (Layout-empty pop.1.layout);
    }

push_one :
    (os : Os) {size n : ℕ} {q : SharedRingQueue} {p : Process} (bytes : List ℕ)
    → Holds size n q p []
    → 0 < length bytes
    → length bytes ≤ max_write_size
    → ((push_to_queue os q bytes p).0 ≡ status_full)
      ⊎ (((push_to_queue os q bytes p).0 ≡ status_ok)
          × Holds size n (push_to_queue os q bytes p).1 (push_to_queue os q bytes p).2 (bytes ∷ []))
unfolding push_to_queue flatten
push_one os {size} {n} {q} {p} bytes h some_byte limit =
    elim (push_refines os h (bytes ∷ []) (omega arith) (rw append-nil some_byte)
      (rw append-nil limit) (inl (omega (arith, Layout-empty h.layout)))) [
        | inr (_, full) ↦ inl (rw full)
        | inl (_, done, holds) ↦ inr (done, rw append-nil at holds)
      ]

-- A message of 1 to 65532 bytes, sent on a sound queue that holds nothing and that the receiving
-- process has open: the send answers that the queue is full; or it succeeds, and the receiver gets
-- the bytes, its pop succeeds, and then no data is available.
pub send-Delivered :
    (os os' : Os) (ipc ipc' : SharedMemoryIpc) {size n : ℕ} (q : SharedRingQueue) (p p' : Process)
    (bytes : List ℕ)
    → ipc.tx_queue ≡ some q
    → Holds size n q p []
    → IsOpen size n q p'
    → 0 < length bytes
    → length bytes ≤ max_write_size
    → ((send_data os ipc bytes p).0 ≡ status_full)
      ⊎ (((send_data os ipc bytes p).0 ≡ status_ok)
          × ((q' : SharedRingQueue) × ((send_data os ipc bytes p).1.tx_queue ≡ some q')
              × Delivered os' ipc' q' p' bytes))
unfolding send_data
send-Delivered os os' ipc ipc' {size} {n} q p p' bytes at h o some_byte limit =
    elim (push_one os bytes h some_byte limit) [
      | inl full ↦ inl (rw (at, send_data) full)
      | inr (done, holds) ↦ inr (
        rw (at, send_data) done,
        (
          (push_to_queue os q bytes p).1,
          rw (at, send_data),
          deliver os' ipc' bytes (seen o keeps.0 keeps.1 keeps.2 holds),
        ),
      )
    ]
  where
    keeps :
        ((push_to_queue os q bytes p).1.shared_location_name ≡ q.shared_location_name)
        × ((push_to_queue os q bytes p).1.num_of_data_segments ≡ q.num_of_data_segments)
        × ((push_to_queue os q bytes p).1.size_of_memory ≡ q.size_of_memory)
    keeps = unfold push_to_queue in push_keeps os q (bytes ∷ []) p
