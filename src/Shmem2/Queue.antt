-- ===== src/Shmem2/Queue.antt =====
-- core/shmem_ipc_2/shared_ring_queue.{h,c}: the operations on a ring. The structure of a ring, its
-- words and its segments are those of core/shmem_ipc; so are the loops over them, and the tests.
-- `SharedRingGlobalData` is read by these operations and never changed.
pub mod Push
pub mod Refine
use openappsec_attachment.Common.{
  ℕ, ℤ, Bool, true, false, ◌&&◌, ◌||◌, not, Option, none, some, List, [], ◌∷◌, str_eq, ltb, leb,
  ◌==◌, eqb_ℤ, u16, Memory, fill, if◌then◌else◌,
}
use openappsec_attachment.Shmem.Sizes.{Os}
use openappsec_attachment.Shmem.Ring.{
  empty_buff_mgmt_magic, data_segment_offset, segments_needed, is_there_enough_memory,
  advance_to_message, total_size, copy_buffers, place_message, mark_message, clear_message,
  clear_tail,
}
use openappsec_attachment.Shmem.Queue.{
  SharedRingQueue, status_ok, status_failed, status_too_large, status_full, status_bad_position,
  corrupted_shmem_error,
}
use openappsec_attachment.Shmem2.Sizes.{Settled, get_effective_segment_size}

pub record SharedRingGlobalData : Type 0 where
  pub rx_location_name : List ℕ
  pub tx_location_name : List ℕ
  pub rx_fd : ℤ
  pub tx_fd : ℤ
  pub memory_size : ℤ
  pub num_of_data_segments : ℕ

unfoldable pub get_data_segment_address : Os → ℕ → Settled → ℕ × Settled
unfolding data_segment_offset
get_data_segment_address os idx s =
    let (size, s') = get_effective_segment_size os s in (data_segment_offset size idx, s')

unfoldable pub get_num_of_data_segments_needed : Os → ℕ → Settled → ℕ × Settled
unfolding segments_needed
get_num_of_data_segments_needed os bytes s =
    let (size, s') = get_effective_segment_size os s in (segments_needed size bytes, s')

unfoldable pub is_there_enough_memory_in_queue : SharedRingGlobalData → ℕ → ℕ → ℕ → Bool
unfolding is_there_enough_memory
is_there_enough_memory_in_queue g write read num =
    is_there_enough_memory g.num_of_data_segments write read num

-- `true` is success: the positions are then `q.read_pos` and `q.write_pos`.
unfoldable pub get_position : SharedRingQueue → SharedRingGlobalData → Bool
get_position q g =
    not (g.num_of_data_segments == 0)
    && q.num_of_data_segments == g.num_of_data_segments
    && eqb_ℤ q.size_of_memory g.memory_size
    && leb q.read_pos g.num_of_data_segments
    && leb q.write_pos g.num_of_data_segments

unfoldable pub reset_ring_queue : SharedRingQueue → ℕ → SharedRingQueue
reset_ring_queue q segments = record q {
  read_pos = 0;
  write_pos = 0;
  num_of_data_segments = segments;
  mgmt = fill q.mgmt 0 segments empty_buff_mgmt_magic;
}

-- The option is what goes through `output_buffer` and `output_buffer_size`: offset and size.
unfoldable pub peek_to_queue :
    Os
    → SharedRingQueue
    → SharedRingGlobalData
    → Settled
    → ℤ × Option (ℕ × ℕ) × SharedRingQueue × Settled
unfolding get_position advance_to_message get_data_segment_address
peek_to_queue os q g s =
    if not (get_position q g)
    then (status_failed, none, q, s)
    else if q.read_pos == q.write_pos
    then (status_failed, none, q, s)
    else if leb g.num_of_data_segments q.read_pos
    then (corrupted_shmem_error, none, q, s)
    else let (m, r) = advance_to_message g.num_of_data_segments q.mgmt q.read_pos in
      let (address, s') = get_data_segment_address os r s in
      (status_ok, some (address, m r), record q { mgmt = m; read_pos = r }, s')

-- The rest of `pushBuffersToQueue`, once there is room for `size` bytes in `num` segments.
unfoldable pub write_message :
    Os → ℕ → ℕ → ℕ → SharedRingQueue → List (List ℕ) → Settled → ℤ × SharedRingQueue × Settled
unfolding place_message mark_message copy_buffers get_data_segment_address
write_message os segments num size q buffers s =
    if leb segments q.write_pos
    then (status_bad_position, q, s)
    else let (m, start) = place_message segments num q.mgmt q.write_pos in
      let (address, s') = get_data_segment_address os start s in
      let (m', write) = mark_message segments num size m start in
      (
        status_ok,
        record q { mgmt = m'; bytes = copy_buffers q.bytes address buffers; write_pos = write },
        s',
      )

unfoldable pub push_buffers_to_queue :
    Os
    → SharedRingQueue
    → SharedRingGlobalData
    → List (List ℕ)
    → Settled
    → ℤ × SharedRingQueue × Settled
unfolding get_position total_size get_num_of_data_segments_needed is_there_enough_memory_in_queue
push_buffers_to_queue os q g buffers s =
    if not (get_position q g) then (status_failed, q, s) else elim (total_size 0 buffers) [
      | none ↦ (status_too_large, q, s)
      | some size ↦
          let (num, s') = get_num_of_data_segments_needed os (u16 size) s in
          if not (is_there_enough_memory_in_queue g q.write_pos q.read_pos (u16 num))
          then (status_full, q, s')
          else write_message os g.num_of_data_segments (u16 num) (u16 size) q buffers s'
    ]

unfoldable pub push_to_queue :
    Os → SharedRingQueue → SharedRingGlobalData → List ℕ → Settled → ℤ × SharedRingQueue × Settled
push_to_queue os q g buffer s = push_buffers_to_queue os q g (buffer ∷ []) s

unfoldable pub pop_from_queue :
    Os → SharedRingQueue → SharedRingGlobalData → Settled → ℤ × SharedRingQueue × Settled
unfolding get_position get_num_of_data_segments_needed clear_message clear_tail
pop_from_queue os q g s =
    if not (get_position q g)
    then (status_failed, q, s)
    else if q.read_pos == q.write_pos
    then (status_failed, q, s)
    else let (num, s') = get_num_of_data_segments_needed os (q.mgmt q.read_pos) s in
      let (m, r) = clear_message g.num_of_data_segments (u16 num) q.mgmt q.read_pos in
      let (m', r') = clear_tail g.num_of_data_segments m r in
      (status_ok, record q { mgmt = m'; read_pos = r' }, s')

unfoldable pub is_queue_empty : SharedRingQueue → Bool
is_queue_empty q = q.read_pos == q.write_pos

unfoldable pub is_corrupted_queue : SharedRingQueue → SharedRingGlobalData → Bool → Bool
is_corrupted_queue q g is_tx =
    if g.num_of_data_segments == 0
    then false
    else not (q.num_of_data_segments == g.num_of_data_segments)
      || not (eqb_ℤ q.size_of_memory g.memory_size)
      || ltb g.num_of_data_segments q.read_pos
      || ltb g.num_of_data_segments q.write_pos
      || not
          (str_eq q.shared_location_name (if is_tx then g.tx_location_name else g.rx_location_name))
