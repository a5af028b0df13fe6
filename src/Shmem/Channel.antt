-- ===== src/Shmem/Channel.antt =====
-- core/shmem_ipc/shmem_ipc.c: a two-way channel of two rings, one towards the owner and one from it.
-- `malloc`, `chmod` and the debug callback are outside the model's code: the first two are answers
-- among the arguments, the callback only prints.
pub mod Laws
use openappsec_attachment.Common.{
  ℕ, ◌+◌, ℤ, Bool, true, false, ◌&&◌, ◌||◌, not, Option, none, some, List, [], ◌∷◌, ◌++◌, length,
  take, ltb, if◌then◌else◌,
}
use openappsec_attachment.Shmem.Sizes.{Os, codes}
use openappsec_attachment.Shmem.Queue.{
  SharedRingQueue, Process, status_failed, reset_ring_queue, push_to_queue, push_buffers_to_queue,
  peek_to_queue, pop_from_queue, is_queue_empty, is_corrupted_queue,
}
use openappsec_attachment.Shmem.Create.{
  ShmObject, Created, create_shared_ring_queue, destroy_shared_ring_queue, Release,
}

-- `SharedMemoryIPC`; `none` is a NULL pointer.
pub record SharedMemoryIpc : Type 0 where
  pub shm_name : List ℕ
  pub rx_queue : Option SharedRingQueue
  pub tx_queue : Option SharedRingQueue

unfoldable pub is_towards_owner : Bool → Bool → Bool
is_towards_owner true is_tx = not is_tx
is_towards_owner false is_tx = is_tx

abbrev pub direction : Bool → Bool → List ℕ
direction is_owner is_tx = if is_towards_owner is_owner is_tx then codes "rx" else codes "tx"

-- `snprintf` into 63 bytes: at most 62 and the NUL.
unfoldable pub queue_name : Bool → Bool → List ℕ → List ℕ
unfolding is_towards_owner
queue_name is_owner is_tx name = take 62 (
    codes "__cp_nano_"
    ++ (direction is_owner is_tx ++ (codes "_shared_memory_" ++ (name ++ codes "__"))))

-- The path's length, against those of its parts: the name of a channel must not be cut too short.
unfoldable pub path_fits : Bool → Bool → List ℕ → Bool
unfolding queue_name is_towards_owner
path_fits is_owner is_tx name = not (
    ltb (length (codes "/dev/shm/" ++ queue_name is_owner is_tx name))
      (length (direction is_owner is_tx) + length name))

-- What the system answers while one queue is opened.
pub record Endpoint : Type 0 where
  pub object : ShmObject
  pub chmod_succeeds : Bool

unfoldable pub create_one_way_ipc_queue :
    Os → List ℕ → Bool → Bool → ℕ → Endpoint → Process → Created × Process
unfolding create_shared_ring_queue destroy_shared_ring_queue path_fits queue_name
create_one_way_ipc_queue os name is_tx is_owner segments e p =
    let (made, p') =
      create_shared_ring_queue os (queue_name is_owner is_tx name) segments is_owner e.object p in
    elim made [
      | Created.failed ↦ (Created.failed, p')
      | Created.fault ↦ (Created.fault, p')
      | Created.queue q ↦
          if not (path_fits is_owner is_tx name)
          then (Created.failed, p')
          else if is_owner && not e.chmod_succeeds
          then (Created.failed, (destroy_shared_ring_queue is_owner q p').2)
          else (Created.queue q, p')
    ]

-- `destroyIpc` on one of the two pointers.
unfoldable pub destroy_end : Bool → Option SharedRingQueue → Process → Process
unfolding destroy_shared_ring_queue
destroy_end is_owner none p = p
destroy_end is_owner (some q) p = (destroy_shared_ring_queue is_owner q p).2

-- The channel itself is freed.
unfoldable pub destroy_ipc : Option SharedMemoryIpc → Bool → Process → Process
unfolding destroy_end
destroy_ipc none is_owner p = p
destroy_ipc (some ipc) is_owner p =
    destroy_end is_owner ipc.tx_queue (destroy_end is_owner ipc.rx_queue p)

pub data Channel : Type 0 where
  opened : SharedMemoryIpc → Channel
  refused : Channel
  crashed : Channel

-- The second half of `initIpc`, with the first queue open.
unfoldable pub open_tx :
    Os → List ℕ → Bool → ℕ → Endpoint → SharedRingQueue → Process → Channel × Process
unfolding create_one_way_ipc_queue destroy_ipc
open_tx os name is_owner segments e rx p =
    let (made, p') = create_one_way_ipc_queue os name true is_owner segments e p in
    elim made [
      | Created.fault ↦ (crashed, p')
      | Created.failed ↦ (
        refused,
        destroy_ipc (some (record { shm_name = []; rx_queue = some rx; tx_queue = none })) is_owner
            p',
      )
      | Created.queue tx ↦
          (opened (record { shm_name = take 32 name; rx_queue = some rx; tx_queue = some tx }), p')
    ]

unfoldable pub init_ipc :
    Os → List ℕ → Bool → ℕ → Bool → Endpoint → Endpoint → Process → Channel × Process
unfolding create_one_way_ipc_queue open_tx
init_ipc os name is_owner segments allocated rx_end tx_end p =
    if not allocated
    then (refused, p)
    else let (made, p') = create_one_way_ipc_queue os name false is_owner segments rx_end p in
      elim made [
        | Created.fault ↦ (crashed, p')
        | Created.failed ↦ (refused, p')
        | Created.queue rx ↦ open_tx os name is_owner segments tx_end rx p'
      ]

-- Both queues must be there; without them nothing changes.
unfoldable pub reset_ipc : SharedMemoryIpc → ℕ → Process → SharedMemoryIpc × Process
unfolding reset_ring_queue
reset_ipc ipc segments p = elim ipc.rx_queue [
  | none ↦ (ipc, p)
  | some rx ↦ elim ipc.tx_queue [
    | none ↦ (ipc, p)
    | some tx ↦
        let (rx', p1) = reset_ring_queue rx segments p in
        let (tx', p2) = reset_ring_queue tx segments p1 in
        (record ipc { rx_queue = some rx'; tx_queue = some tx' }, p2)
  ]
]

unfoldable pub send_data : Os → SharedMemoryIpc → List ℕ → Process → ℤ × SharedMemoryIpc × Process
send_data os ipc bytes p = elim ipc.tx_queue [
  | none ↦ (status_failed, ipc, p)
  | some tx ↦
      let (status, tx', p') = push_to_queue os tx bytes p in
      (status, record ipc { tx_queue = some tx' }, p')
]

-- The remaining calls read a queue pointer that the code does not test: the queue is an argument.
unfoldable pub send_chunked_data :
    Os → SharedMemoryIpc → SharedRingQueue → List (List ℕ) → Process → ℤ × SharedMemoryIpc × Process
send_chunked_data os ipc tx chunks p =
    let (status, tx', p') = push_buffers_to_queue os tx chunks p in
    (status, record ipc { tx_queue = some tx' }, p')

unfoldable pub receive_data :
    Os
    → SharedMemoryIpc
    → SharedRingQueue
    → Process
    → ℤ × Option (ℕ × ℕ) × SharedMemoryIpc × Process
receive_data os ipc rx p =
    let (status, out, rx', p') = peek_to_queue os rx p in
    (status, out, record ipc { rx_queue = some rx' }, p')

unfoldable pub pop_data :
    Os → SharedMemoryIpc → SharedRingQueue → Process → ℤ × SharedMemoryIpc × Process
pop_data os ipc rx p =
    let (status, rx', p') = pop_from_queue os rx p in
    (status, record ipc { rx_queue = some rx' }, p')

unfoldable pub is_data_available : SharedRingQueue → Bool
is_data_available rx = not (is_queue_empty rx)

unfoldable pub is_corrupted_shmem : SharedRingQueue → SharedRingQueue → Process → Bool × Process
unfolding is_corrupted_queue
is_corrupted_shmem rx tx p =
    let (bad_rx, p1) = is_corrupted_queue rx p in
    if bad_rx then (true, p1) else is_corrupted_queue tx p1
