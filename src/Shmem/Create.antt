-- ===== src/Shmem/Create.antt =====
-- core/shmem_ipc/shared_ring_queue.c: opening a queue as its owner or its user, and closing it.
-- `shm_open`, `fstat`, `pread`, `ftruncate` and `mmap` are outside the repository: `ShmObject`
-- holds what they answer for the object's name.
pub mod Geometry
pub mod Fresh
use openappsec_attachment.Common.{
  ℕ, ◌+◌, ◌-◌, ◌*◌, ◌/◌, ℤ, pos, negsuc, Bool, true, false, ◌&&◌, ◌||◌, not, Option, none, some,
  List, ltb, ◌==◌, eqb_ℤ, gtb_ℤ, u32, fill, if◌then◌else◌,
}
use openappsec_attachment.Shmem.Params.{
  QueueParams, stored_name, get_queue_params, add_queue_params, remove_queue_params,
}
use openappsec_attachment.Shmem.Sizes.{
  Os, Sizes, entry_size, entry_size_bc, get_effective_segment_size,
}
use openappsec_attachment.Shmem.Ring.{header_prefix_size, empty_buff_mgmt_magic}
use openappsec_attachment.Shmem.Queue.{
  SharedRingQueue, Process, max_num_of_data_segments, lookup_params, segment_size,
}

-- The header fields that `deriveSegmentSizeFromExistingQueue` reads.
pub record Stamp : Type 0 where
  pub num_of_data_segments : ℕ
  pub size_of_memory : ℤ

-- What `mmap` returns. Its failure is `MAP_FAILED`, which is not NULL.
pub data Mapping : Type 0 where
  mapped : SharedRingQueue → Mapping
  null : Mapping
  map_failed : Mapping

pub record ShmObject : Type 0 where
  -- the descriptor, or -1
  pub fd : ℤ
  -- `fstat`'s size, if the call succeeds
  pub file_size : Option ℕ
  -- the header, if `pread` reads it whole
  pub header : Option Stamp
  pub ftruncate_succeeds : Bool
  pub mapping : Mapping

unfoldable pub derive_from_stamp : Stamp → ℕ
derive_from_stamp h =
    if h.num_of_data_segments == 0 || ltb max_num_of_data_segments h.num_of_data_segments
    then 0
    else elim h.size_of_memory [
      | negsuc _ ↦ 0
      | pos size ↦
          if not (ltb header_prefix_size size)
          then 0
          else let payload = size - header_prefix_size in
            let divisor = h.num_of_data_segments + 1 in
            let derived = payload / divisor in
            if not (u32 (derived * divisor) == payload)
            then 0
            else if not (derived == entry_size) && not (derived == entry_size_bc)
            then 0
            else derived
    ]

unfoldable pub derive_segment_size_from_existing_queue : ShmObject → ℕ
unfolding derive_from_stamp
derive_segment_size_from_existing_queue o = elim o.file_size [
  | none ↦ 0
  | some size ↦
      if ltb size header_prefix_size
      then 0
      else elim o.header [ none ↦ 0 | some h ↦ derive_from_stamp h ]
]

-- What the caller gets: a queue, NULL, or a fault, where the failed mapping is written to.
pub data Created : Type 0 where
  queue : SharedRingQueue → Created
  failed : Created
  fault : Created

-- `if (!is_owner) { … }`: the user takes the size that the owner stamped.
unfoldable pub adopt_segment_size : Os → Bool → ShmObject → Process → Process
unfolding derive_segment_size_from_existing_queue
adopt_segment_size os true o p = p
adopt_segment_size os false o p =
    let adopted = derive_segment_size_from_existing_queue o in
    if adopted == 0
    then p
    else let (negotiated, p') = segment_size os p in
      if adopted == negotiated then p' else record p' {
        sizes = record (p'.sizes) {
          effective_segment_size = adopted;
          effective_entry_size = adopted;
          effective_size_initialized = true;
        };
      }

-- `getEffectiveSharedRingQueueSize() + num_of_data_segments * effective_size`
unfoldable pub memory_size_of : ℕ → ℕ → ℕ
memory_size_of size segments = u32 (header_prefix_size + size + segments * size)

-- The header as the owner writes it, or the user's mark in it.
unfoldable pub stamp_queue : Bool → List ℕ → ℕ → ℕ → ℤ → SharedRingQueue → SharedRingQueue
stamp_queue true name segments memory fd q = record q {
  shared_location_name = stored_name name;
  num_of_data_segments = segments;
  read_pos = 0;
  write_pos = 0;
  size_of_memory = pos memory;
  mgmt = fill q.mgmt 0 segments empty_buff_mgmt_magic;
  owner_fd = fd;
}
stamp_queue false name segments memory fd q = record q { user_fd = fd }

-- The end of `createSharedRingQueue`: the mapping is stamped, and the queue enters the table.
unfoldable pub register_queue : Bool → List ℕ → ℕ → ℕ → ShmObject → Process → Created × Process
unfolding stamp_queue
register_queue is_owner name segments memory o p = elim o.mapping [
  | null ↦ (failed, p)
  | map_failed ↦ (fault, p)
  | mapped q ↦
      let (added, t) = add_queue_params name segments (pos memory) o.fd p.table in
      (
        if added then queue (stamp_queue is_owner name segments memory o.fd q) else failed,
        record p { table = t },
      )
]

unfoldable pub create_shared_ring_queue :
    Os → List ℕ → ℕ → Bool → ShmObject → Process → Created × Process
unfolding adopt_segment_size memory_size_of register_queue
create_shared_ring_queue os name segments is_owner o p0 =
    let p = record p0 {
      sizes = record (p0.sizes) { effective_size_initialized = false; effective_entry_size = 0 };
    } in
    if ltb max_num_of_data_segments segments
    then (failed, p)
    else if eqb_ℤ o.fd (negsuc 0)
    then (failed, p)
    else let (size, p') = segment_size os (adopt_segment_size os is_owner o p) in
      if is_owner && not o.ftruncate_succeeds
      then (failed, p')
      else register_queue is_owner name segments (memory_size_of size segments) o p'

-- What `destroySharedRingQueue` asks of the system: the size to unmap, the descriptor to close,
-- and whether the object's name is removed.
pub record Release : Type 0 where
  pub unmap : ℤ
  pub close : Option ℤ
  pub unlink : Bool

unfoldable pub destroy_shared_ring_queue :
    Bool → SharedRingQueue → Process → Option Release × SharedRingQueue × Process
destroy_shared_ring_queue is_owner q p =
    let name = stored_name q.shared_location_name in
    let (found, p') = lookup_params name p in
    elim found [
      | none ↦ (none, q, p')
      | some params ↦ (
        some (record {
          unmap = params.memory_size;
          close = if gtb_ℤ params.fd 0 then some params.fd else none;
          unlink = is_owner;
        }),
        if is_owner then record q { owner_fd = pos 0 } else record q { user_fd = pos 0 },
        record p' { table = remove_queue_params name p'.table },
      )
    ]
