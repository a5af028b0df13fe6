-- ===== src/Shmem2/Channel.antt =====
-- core/shmem_ipc_2/shmem_ipc.c: a channel of two rings and the structure that both share. The names of
-- the queues and the test of the path are those of core/shmem_ipc. The logging data is left out.
pub mod Laws
use openappsec_attachment.Common.{
  ℕ, ℤ, Bool, true, false, ◌&&◌, ◌||◌, not, Option, none, some, List, take, if◌then◌else◌,
}
use openappsec_attachment.Shmem.Sizes.{Os}
use openappsec_attachment.Shmem.Queue.{SharedRingQueue, status_failed}
use openappsec_attachment.Shmem.Create.{Created}
use openappsec_attachment.Shmem.Channel.{Endpoint, queue_name, path_fits, is_towards_owner}
use openappsec_attachment.Shmem2.Sizes.{Settled}
use openappsec_attachment.Shmem2.Queue.{
  SharedRingGlobalData, reset_ring_queue, push_to_queue, push_buffers_to_queue, peek_to_queue,
  pop_from_queue, is_queue_empty, is_corrupted_queue,
}
use openappsec_attachment.Shmem2.Create.{
  initial_global_data, create_shared_ring_queue, destroy_shared_ring_queue,
}

-- `SharedMemoryIPC`; `none` is a NULL pointer.
pub record SharedMemoryIpc : Type 0 where
  pub shm_name : List ℕ
  pub rx_queue : Option SharedRingQueue
  pub tx_queue : Option SharedRingQueue
  pub global_data : SharedRingGlobalData

unfoldable pub create_one_way_ipc_queue :
    Os
    → List ℕ
    → Bool
    → Bool
    → ℕ
    → Endpoint
    → SharedRingGlobalData
    → Settled
    → Created × SharedRingGlobalData × Settled
unfolding create_shared_ring_queue destroy_shared_ring_queue path_fits queue_name is_towards_owner
create_one_way_ipc_queue os name is_tx is_owner segments e g s =
    let towards = is_towards_owner is_owner is_tx in
    let (made, g', s') =
      create_shared_ring_queue os (queue_name is_owner is_tx name) segments is_owner towards
        e.object g s in
    elim made [
      | Created.failed ↦ (Created.failed, g', s')
      | Created.fault ↦ (Created.fault, g', s')
      | Created.queue q ↦
          if not (path_fits is_owner is_tx name)
          then (Created.failed, g', s')
          else if is_owner && not e.chmod_succeeds
          then (Created.failed, (destroy_shared_ring_queue is_owner towards q g').2, s')
          else (Created.queue q, g', s')
    ]

pub data Channel : Type 0 where
  opened : SharedMemoryIpc → Channel
  refused : Channel
  crashed : Channel

-- A channel that is refused is destroyed, and its structure freed.
unfoldable pub init_ipc :
    Os → List ℕ → Bool → ℕ → Bool → Endpoint → Endpoint → Settled → Channel × Settled
unfolding create_one_way_ipc_queue
init_ipc os name is_owner segments allocated rx_end tx_end s0 =
    if not allocated
    then (refused, s0)
    else let (made_rx, g, s) =
        create_one_way_ipc_queue os name false is_owner segments rx_end initial_global_data s0 in
      elim made_rx [
        | Created.fault ↦ (crashed, s)
        | Created.failed ↦ (refused, s)
        | Created.queue rx ↦
            let (made_tx, g', s') =
              create_one_way_ipc_queue os name true is_owner segments tx_end g s in
            elim made_tx [
              | Created.fault ↦ (crashed, s')
              | Created.failed ↦ (refused, s')
              | Created.queue tx ↦ (
                opened (record {
                  shm_name = take 32 name;
                  rx_queue = some rx;
                  tx_queue = some tx;
                  global_data = g';
                }),
                s',
              )
            ]
      ]

-- Both queues must be there; the structure that they share keeps its number of segments.
unfoldable pub reset_ipc : SharedMemoryIpc → ℕ → SharedMemoryIpc
unfolding reset_ring_queue
reset_ipc ipc segments = elim ipc.rx_queue [
  | none ↦ ipc
  | some rx ↦ elim ipc.tx_queue [
    | none ↦ ipc
    | some tx ↦ record ipc {
      rx_queue = some (reset_ring_queue rx segments);
      tx_queue = some (reset_ring_queue tx segments);
    }
  ]
]

unfoldable pub send_data : Os → SharedMemoryIpc → List ℕ → Settled → ℤ × SharedMemoryIpc × Settled
send_data os ipc bytes s = elim ipc.tx_queue [
  | none ↦ (status_failed, ipc, s)
  | some tx ↦
      let (status, tx', s') = push_to_queue os tx ipc.global_data bytes s in
      (status, record ipc { tx_queue = some tx' }, s')
]

unfoldable pub send_chunked_data :
    Os → SharedMemoryIpc → List (List ℕ) → Settled → ℤ × SharedMemoryIpc × Settled
send_chunked_data os ipc chunks s = elim ipc.tx_queue [
  | none ↦ (status_failed, ipc, s)
  | some tx ↦
      let (status, tx', s') = push_buffers_to_queue os tx ipc.global_data chunks s in
      (status, record ipc { tx_queue = some tx' }, s')
]

-- The queue is not tested here: it is an argument.
unfoldable pub receive_data :
    Os
    → SharedMemoryIpc
    → SharedRingQueue
    → Settled
    → ℤ × Option (ℕ × ℕ) × SharedMemoryIpc × Settled
receive_data os ipc rx s =
    let (status, out, rx', s') = peek_to_queue os rx ipc.global_data s in
    (status, out, record ipc { rx_queue = some rx' }, s')

unfoldable pub pop_data : Os → SharedMemoryIpc → Settled → ℤ × SharedMemoryIpc × Settled
pop_data os ipc s = elim ipc.rx_queue [
  | none ↦ (status_failed, ipc, s)
  | some rx ↦
      let (status, rx', s') = pop_from_queue os rx ipc.global_data s in
      (status, record ipc { rx_queue = some rx' }, s')
]

unfoldable pub is_data_available : SharedMemoryIpc → Bool
unfolding is_queue_empty
is_data_available ipc = elim ipc.rx_queue [ none ↦ false | some rx ↦ not (is_queue_empty rx) ]

-- The two queues are not tested here: they are arguments.
unfoldable pub is_corrupted_shmem :
    SharedMemoryIpc → SharedRingQueue → SharedRingQueue → Bool → Bool
unfolding is_corrupted_queue is_towards_owner
is_corrupted_shmem ipc rx tx is_owner =
    is_corrupted_queue rx ipc.global_data (is_towards_owner is_owner false)
    || is_corrupted_queue tx ipc.global_data (is_towards_owner is_owner true)
