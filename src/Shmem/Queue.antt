-- ===== src/Shmem/Queue.antt =====
-- core/shmem_ipc/shared_ring_queue.{h,c}: the ring of segments and the operations on it.
-- A message takes one or more consecutive segments; `mgmt` has a 16-bit word for each segment:
-- the message's size at its first segment, the skip magic at its others and at the segments left
-- over at the end of the ring, the empty magic elsewhere.
-- `bytes` is the mapping, by offset from its start; `mgmt` is kept apart from it. They are apart
-- in the mapping too while two bytes for each segment fit in one segment.
pub mod Append
pub mod Faults
pub mod Layout
pub mod Pop
pub mod Push
pub mod Refine
pub mod Remove
pub mod Sound
pub mod Space
use openappsec_attachment.Common.{
  ℕ, zero, suc, ◌+◌, ◌-◌, ◌*◌, ◌/◌, ℤ, pos, negsuc, Bool, true, false, ◌&&◌, ◌||◌, not, Option,
  none, some, List, [], ◌∷◌, str_eq, length, ltb, leb, ◌==◌, eqb_ℤ, u8, u16, u32, Memory, store,
  fill, copy, if◌then◌else◌,
}
use openappsec_attachment.Shmem.Ring.{
  empty_buff_mgmt_magic, skip_buff_mgmt_magic, max_write_size, header_prefix_size,
  data_segment_offset, segments_needed, is_there_enough_memory, clear_skips, advance_to_message,
  total_size, copy_buffers, place_message, mark_message, clear_message, clear_tail,
}
use openappsec_attachment.Shmem.Params.{QueueParams, ParamsTable, get_queue_params, update_slot}
use openappsec_attachment.Shmem.Sizes.{
  Os, Sizes, entry_size, get_effective_segment_size, get_effective_entry_size,
}

-- `sizeof(DataSegment) / sizeof(uint16_t)`
abbrev pub max_num_of_data_segments : ℕ
max_num_of_data_segments = 2048

pub record SharedRingQueue : Type 0 where
  pub shared_location_name : List ℕ
  pub owner_fd : ℤ
  pub user_fd : ℤ
  pub size_of_memory : ℤ
  pub write_pos : ℕ
  pub read_pos : ℕ
  pub num_of_data_segments : ℕ
  pub mgmt : Memory
  pub bytes : Memory

-- The static variables of the process.
pub record Process : Type 0 where
  pub table : ParamsTable
  pub sizes : Sizes

abbrev pub lookup_params : List ℕ → Process → Option QueueParams × Process
lookup_params name p =
    let (found, t) = get_queue_params name p.table in (found, record p { table = t })

abbrev pub segment_size : Os → Process → ℕ × Process
segment_size os p =
    let (size, s) = get_effective_segment_size os p.sizes in (size, record p { sizes = s })

abbrev pub entry_size_of : Os → Process → ℕ × Process
entry_size_of os p =
    let (size, s) = get_effective_entry_size os p.sizes in (size, record p { sizes = s })

unfoldable pub get_data_segment_address : Os → ℕ → Process → ℕ × Process
unfolding data_segment_offset
get_data_segment_address os idx p =
    let (size, p') = segment_size os p in (data_segment_offset size idx, p')

unfoldable pub get_num_of_data_segments_needed : Os → ℕ → Process → ℕ × Process
unfolding segments_needed
get_num_of_data_segments_needed os size p =
    let (entry, p') = entry_size_of os p in (segments_needed entry size, p')

unfoldable pub is_there_enough_memory_in_queue :
    SharedRingQueue → ℕ → ℕ → ℕ → Process → Bool × Process
unfolding is_there_enough_memory
is_there_enough_memory_in_queue q write read num p =
    let (found, p') = lookup_params q.shared_location_name p in
    elim found [
      | none ↦ (false, p')
      | some params ↦ (is_there_enough_memory params.num_of_data_segments write read num, p')
    ]

-- The conditions of `isGetPossitionSucceccful` on an entry of the table.
unfoldable pub positions_agree : SharedRingQueue → QueueParams → Bool
positions_agree q params =
    not (params.num_of_data_segments == 0)
    && q.num_of_data_segments == params.num_of_data_segments
    && eqb_ℤ q.size_of_memory params.memory_size
    && leb q.read_pos params.num_of_data_segments
    && leb q.write_pos params.num_of_data_segments

-- `some` is success; the positions are then `q.read_pos` and `q.write_pos`, and the entry is what
-- the callers' own lookup returns again.
unfoldable pub get_position : SharedRingQueue → Process → Option QueueParams × Process
unfolding positions_agree
get_position q p =
    let (found, p') = lookup_params q.shared_location_name p in
    elim found [
      | none ↦ (none, p')
      | some params ↦ (if positions_agree q params then some params else none, p')
    ]

unfoldable pub reset_ring_queue : SharedRingQueue → ℕ → Process → SharedRingQueue × Process
reset_ring_queue q segments p =
    let (_, p') = lookup_params q.shared_location_name p in
    (
      record q {
        read_pos = 0;
        write_pos = 0;
        num_of_data_segments = segments;
        mgmt = fill q.mgmt 0 segments empty_buff_mgmt_magic;
      },
      record p' {
        table = record (p'.table) {
          slots =
              update_slot (λ s. record s { num_of_data_segments = segments }) q.shared_location_name
                p'.table.slots;
        };
      },
    )

abbrev pub status_ok : ℤ
status_ok = pos 0

abbrev pub status_failed : ℤ
status_failed = negsuc 0

-- `CORRUPTED_SHMEM_ERROR`
abbrev pub corrupted_shmem_error : ℤ
corrupted_shmem_error = negsuc 1

abbrev pub status_too_large : ℤ
status_too_large = negsuc 1

abbrev pub status_full : ℤ
status_full = negsuc 2

abbrev pub status_bad_position : ℤ
status_bad_position = negsuc 3

-- The option is what goes through `output_buffer` and `output_buffer_size`: offset and size.
unfoldable pub peek_to_queue :
    Os → SharedRingQueue → Process → ℤ × Option (ℕ × ℕ) × SharedRingQueue × Process
unfolding get_position advance_to_message get_data_segment_address
peek_to_queue os q p =
    let (found, p1) = get_position q p in
    elim found [
      | none ↦ (status_failed, none, q, p1)
      | some params ↦
          let segments = params.num_of_data_segments in
          if q.read_pos == q.write_pos
          then (status_failed, none, q, p1)
          else if leb segments q.read_pos
          then (corrupted_shmem_error, none, q, p1)
          else let (m, r) = advance_to_message segments q.mgmt q.read_pos in
            let (address, p2) = get_data_segment_address os r p1 in
            (status_ok, some (address, m r), record q { mgmt = m; read_pos = r }, p2)
    ]

-- The rest of `pushBuffersToQueue`, once there is room for `size` bytes in `num` segments.
unfoldable pub write_message :
    Os → ℕ → ℕ → ℕ → SharedRingQueue → List (List ℕ) → Process → ℤ × SharedRingQueue × Process
unfolding place_message mark_message copy_buffers get_data_segment_address
write_message os segments num size q buffers p =
    if leb segments q.write_pos
    then (status_bad_position, q, p)
    else let (m, start) = place_message segments num q.mgmt q.write_pos in
      let (address, p') = get_data_segment_address os start p in
      let (m', write) = mark_message segments num size m start in
      (
        status_ok,
        record q { mgmt = m'; bytes = copy_buffers q.bytes address buffers; write_pos = write },
        p',
      )

unfoldable pub push_buffers_to_queue :
    Os → SharedRingQueue → List (List ℕ) → Process → ℤ × SharedRingQueue × Process
unfolding get_position total_size get_num_of_data_segments_needed is_there_enough_memory_in_queue
push_buffers_to_queue os q buffers p =
    let (found, p1) = get_position q p in
    elim found [
      | none ↦ (status_failed, q, p1)
      | some params ↦ elim (total_size 0 buffers) [
        | none ↦ (status_too_large, q, p1)
        | some size ↦
            let (num, p2) = get_num_of_data_segments_needed os (u16 size) p1 in
            let (enough, p3) =
              is_there_enough_memory_in_queue q q.write_pos q.read_pos (u16 num) p2 in
            if not enough
            then (status_full, q, p3)
            else write_message os params.num_of_data_segments (u16 num) (u16 size) q buffers p3
      ]
    ]

unfoldable pub push_to_queue :
    Os → SharedRingQueue → List ℕ → Process → ℤ × SharedRingQueue × Process
push_to_queue os q buffer p = push_buffers_to_queue os q (buffer ∷ []) p

unfoldable pub pop_from_queue : Os → SharedRingQueue → Process → ℤ × SharedRingQueue × Process
unfolding get_position get_num_of_data_segments_needed clear_message clear_tail
pop_from_queue os q p =
    let (found, p1) = get_position q p in
    elim found [
      | none ↦ (status_failed, q, p1)
      | some params ↦
          let segments = params.num_of_data_segments in
          if q.read_pos == q.write_pos
          then (status_failed, q, p1)
          else let (num, p2) = get_num_of_data_segments_needed os (q.mgmt q.read_pos) p1 in
            let (m, r) = clear_message segments (u16 num) q.mgmt q.read_pos in
            let (m', r') = clear_tail segments m r in
            (status_ok, record q { mgmt = m'; read_pos = r' }, p2)
    ]

unfoldable pub is_queue_empty : SharedRingQueue → Bool
is_queue_empty q = q.read_pos == q.write_pos

-- The checks of `isCorruptedQueue` on the entry of the table.
unfoldable pub disagrees : SharedRingQueue → QueueParams → Bool
disagrees q params =
    if params.num_of_data_segments == 0
    then false
    else not (q.num_of_data_segments == params.num_of_data_segments)
      || not (eqb_ℤ q.size_of_memory params.memory_size)
      || ltb params.num_of_data_segments q.read_pos
      || ltb params.num_of_data_segments q.write_pos
      || not (str_eq q.shared_location_name params.location_name)

unfoldable pub is_corrupted_queue : SharedRingQueue → Process → Bool × Process
unfolding disagrees
is_corrupted_queue q p =
    let (found, p') = lookup_params q.shared_location_name p in
    elim found [ none ↦ (false, p') | some params ↦ (disagrees q params, p') ]
