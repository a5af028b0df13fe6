-- ===== src/Shmem2/Channel/Laws.antt =====
-- core/shmem_ipc_2/shmem_ipc.c: messages that go through a channel.
use openappsec_attachment.Common.{ℕ, ◌≡◌, refl, List, ◌∷◌, length, Option, some, ℤ, read}
use openappsec_attachment.Shmem.Sizes.{Os}
use openappsec_attachment.Shmem.Queue.{SharedRingQueue, status_ok}
use openappsec_attachment.Shmem2.Sizes.{Settled}
use openappsec_attachment.Shmem2.Queue.{peek_to_queue, pop_from_queue}
use openappsec_attachment.Shmem2.Queue.Refine.{Holds, Peeked, peek_queue_refines, pop_queue_refines}
use openappsec_attachment.Shmem2.Channel.{SharedMemoryIpc, receive_data, pop_data}

-- One turn of a receiver: what it was given, and the channel and the size when it has popped.
pub record Received (os : Os) (size n : ℕ) (ipc : SharedMemoryIpc) (rx : SharedRingQueue)
    (s : Settled) (x : List ℕ) (xs : List (List ℕ)) : Type 0 where
  pub succeeded : (receive_data os ipc rx s).0 ≡ status_ok
  pub address : ℕ
  pub answer : (receive_data os ipc rx s).1 ≡ some (address, length x)
  pub peeked : SharedRingQueue
  pub kept : (receive_data os ipc rx s).2.rx_queue ≡ some peeked
  pub content : read peeked.bytes address (length x) ≡ x
  pub popped : (pop_data os (receive_data os ipc rx s).2 (receive_data os ipc rx s).3).0 ≡ status_ok
  pub rest : SharedRingQueue
  pub left :
      (pop_data os (receive_data os ipc rx s).2 (receive_data os ipc rx s).3).1.rx_queue ≡ some rest
  pub holds :
      Holds size n rest ipc.global_data
        (pop_data os (receive_data os ipc rx s).2 (receive_data os ipc rx s).3).2
        xs

-- On a channel of the nano attachment whose receiving queue is sound and holds at least a message, a
-- receive and then a pop succeed: the receive answers the first message's length and where its bytes
-- are, and after the pop the queue holds the other messages.
pub receive_pop_refines :
    (os : Os) {size n : ℕ} (ipc : SharedMemoryIpc) (rx : SharedRingQueue) (s : Settled) (x : List ℕ)
    (xs : List (List ℕ))
    → Holds size n rx ipc.global_data s (x ∷ xs)
    → Received os size n ipc rx s x xs
unfolding receive_data pop_data
receive_pop_refines os {size} {n} ipc rx s x xs h =
    let out : ℤ × Option (ℕ × ℕ) × SharedRingQueue × Settled =
      peek_to_queue os rx ipc.global_data s in
    let peek : Peeked size n rx ipc.global_data s x xs out = peek_queue_refines os x xs h in
    let pop : ((pop_from_queue os out.2 ipc.global_data out.3).0 ≡ status_ok)
        × Holds size n (pop_from_queue os out.2 ipc.global_data out.3).1 ipc.global_data
            (pop_from_queue os out.2 ipc.global_data out.3).2 xs =
      pop_queue_refines os x xs peek.holds peek.at_message in
    record {
      succeeded = peek.status;
      address = peek.address;
      answer = peek.answer;
      peeked = out.2;
      kept = refl;
      content = peek.content;
      popped = pop.0;
      rest = (pop_from_queue os out.2 ipc.global_data out.3).1;
      left = refl;
      holds = pop.1;
    }
