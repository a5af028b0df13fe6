-- ===== src/Shmem2/Create.antt =====
-- core/shmem_ipc_2/shared_ring_queue.c: opening a queue as its owner or its user, and closing it.
pub mod Fresh
use openappsec_attachment.Common.{
  ℕ, ℤ, pos, negsuc, Bool, true, false, ◌&&◌, not, Option, none, some, List, [], ltb, ◌==◌, eqb_ℤ,
  gtb_ℤ, if◌then◌else◌,
}
use openappsec_attachment.Shmem.Params.{stored_name}
use openappsec_attachment.Shmem.Sizes.{Os}
use openappsec_attachment.Shmem.Queue.{SharedRingQueue, max_num_of_data_segments}
use openappsec_attachment.Shmem.Create.{
  ShmObject, Mapping, mapped, null, map_failed, Created, derive_segment_size_from_existing_queue,
  memory_size_of, stamp_queue,
}
use openappsec_attachment.Shmem2.Queue.{SharedRingGlobalData}
use openappsec_attachment.Shmem2.Sizes.{Settled, get_effective_segment_size}

-- What a successful `createSharedRingGlobalData` returns.
abbrev pub initial_global_data : SharedRingGlobalData
initial_global_data = record {
  rx_location_name = [];
  tx_location_name = [];
  rx_fd = negsuc 0;
  tx_fd = negsuc 0;
  memory_size = negsuc 0;
  num_of_data_segments = 0;
}

-- `if (!is_owner) { … }`
unfoldable pub adopt_segment_size : Os → Bool → ShmObject → Settled → Settled
unfolding derive_segment_size_from_existing_queue
adopt_segment_size os true o s = s
adopt_segment_size os false o s =
    let (negotiated, s') = get_effective_segment_size os s in
    let adopted = derive_segment_size_from_existing_queue o in
    if not (adopted == 0) && not (adopted == negotiated)
    then record s' { effective_segment_size = adopted; effective_size_initialized = true }
    else s'

-- What the structure records of a queue that was opened.
unfoldable pub register_queue : Bool → List ℕ → ℕ → ℤ → SharedRingGlobalData → SharedRingGlobalData
register_queue true name memory fd g = record g {
  memory_size = pos memory;
  tx_fd = fd;
  tx_location_name = stored_name name;
}
register_queue false name memory fd g = record g {
  memory_size = pos memory;
  rx_fd = fd;
  rx_location_name = stored_name name;
}

unfoldable pub create_shared_ring_queue :
    Os
    → List ℕ
    → ℕ
    → Bool
    → Bool
    → ShmObject
    → SharedRingGlobalData
    → Settled
    → Created × SharedRingGlobalData × Settled
unfolding adopt_segment_size memory_size_of stamp_queue register_queue
create_shared_ring_queue os name segments is_owner is_tx o g0 s0 =
    let s = record s0 { effective_size_initialized = false; effective_segment_size = 0 } in
    if ltb max_num_of_data_segments segments
    then (Created.failed, g0, s)
    else let g = record g0 { num_of_data_segments = segments } in
      if eqb_ℤ o.fd (negsuc 0)
      then (Created.failed, g, s)
      else let (size, s') = get_effective_segment_size os (adopt_segment_size os is_owner o s) in
        if is_owner && not o.ftruncate_succeeds
        then (Created.failed, g, s')
        else let memory = memory_size_of size segments in
          elim o.mapping [
            | null ↦ (Created.failed, g, s')
            | map_failed ↦ (Created.fault, g, s')
            | mapped q ↦ (
              Created.queue (stamp_queue is_owner name segments memory o.fd q),
              register_queue is_tx name memory o.fd g,
              s',
            )
          ]

-- What `destroySharedRingQueue` asks of the system: the size to unmap, the descriptor to close, and
-- the name to remove.
pub record Released : Type 0 where
  pub unmap : ℤ
  pub close : Option ℤ
  pub unlink : Option (List ℕ)

unfoldable pub destroy_shared_ring_queue :
    Bool
    → Bool
    → SharedRingQueue
    → SharedRingGlobalData
    → Released × SharedRingQueue × SharedRingGlobalData
destroy_shared_ring_queue is_owner is_tx q g =
    let fd = if is_tx then g.tx_fd else g.rx_fd in
    (
      record {
        unmap = g.memory_size;
        close = if gtb_ℤ fd 0 then some fd else none;
        unlink =
            if is_owner
            then some (if is_tx then g.tx_location_name else g.rx_location_name)
            else none;
      },
      if is_owner then record q { owner_fd = pos 0 } else record q { user_fd = pos 0 },
      if is_tx then record g { tx_fd = negsuc 0 } else record g { rx_fd = negsuc 0 },
    )
