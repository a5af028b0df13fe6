-- ===== src/Shmem/Ring.antt =====
-- core/shmem_ipc/shared_ring_queue.c: the arithmetic of the ring and the loops over its words and
-- bytes. core/shmem_ipc_2/shared_ring_queue.c has the same ones.
use openappsec_attachment.Common.{
  ℕ, zero, suc, ◌+◌, ◌-◌, ◌*◌, ◌/◌, Bool, true, false, ◌&&◌, ◌||◌, Option, none, some, List, [],
  ◌∷◌, length, ltb, leb, ◌==◌, u8, u16, u32, Memory, store, fill, copy, if◌then◌else◌,
}
use openappsec_attachment.Shmem.Sizes.{entry_size}

abbrev pub empty_buff_mgmt_magic : ℕ
empty_buff_mgmt_magic = 0xfffe

abbrev pub skip_buff_mgmt_magic : ℕ
skip_buff_mgmt_magic = 0xfffd

abbrev pub max_write_size : ℕ
max_write_size = 0xfffc

-- `offsetof(SharedRingQueue, mgmt_segment)` of the packed structure.
abbrev pub header_prefix_size : ℕ
header_prefix_size = 82

-- `getDataSegmentAddress` for a segment size, as an offset into the mapping.
unfoldable pub data_segment_offset : ℕ → ℕ → ℕ
data_segment_offset size idx =
    if size == entry_size
    then header_prefix_size + entry_size + idx * entry_size
    else header_prefix_size + size + idx * size

-- `getNumOfDataSegmentsNeeded`; a division by 0 cannot happen, since an entry has a size.
unfoldable pub segments_needed : ℕ → ℕ → ℕ
segments_needed entry size = (size + entry - 1) / entry

-- The arithmetic of `isThereEnoughMemoryInQueue`: `num` is a `uint8_t`, the positions `uint16_t`.
unfoldable pub is_there_enough_memory : ℕ → ℕ → ℕ → ℕ → Bool
is_there_enough_memory segments write read num0 =
    let num = u8 num0 in
    if leb segments num
    then false
    else let num' =
        if ltb segments (write + num) then u8 (num + segments + 65536 - write) else num in
      let read' = if leb segments (write + num') then u16 (read + segments) else read in
      ltb (write + num') read' || leb read' write

-- The loop of `peekToQueue`, for the `rounds` segments left before the end of the ring.
unfoldable pub clear_skips : ℕ → Memory → ℕ → Memory × ℕ
clear_skips zero m r = (m, r)
clear_skips (suc rounds) m r = elim (m r == skip_buff_mgmt_magic) [
  | true ↦ clear_skips rounds (store m r empty_buff_mgmt_magic) (suc r)
  | false ↦ (m, r)
]

-- What `peekToQueue` does once the ring is found sound and not empty: the new words and position.
unfoldable pub advance_to_message : ℕ → Memory → ℕ → Memory × ℕ
unfolding clear_skips
advance_to_message segments m r =
    let (m', r') = clear_skips (segments - r) m r in (m', if r' == segments then 0 else r')

-- The first loop of `pushBuffersToQueue`: the total size, or `none` past the write limit.
unfoldable pub total_size : ℕ → List (List ℕ) → Option ℕ
total_size sum [] = some sum
total_size sum (b ∷ bs) =
    let sum' = u32 (sum + length b) in
    let rest = total_size sum' bs in if ltb max_write_size sum' then none else rest

-- The copying loop.
unfoldable pub copy_buffers : Memory → ℕ → List (List ℕ) → Memory
copy_buffers m at [] = m
copy_buffers m at (b ∷ bs) = copy_buffers (copy m at b) (at + length b) bs

-- Where the message starts, and the words after the rest of the ring was marked as skipped.
unfoldable pub place_message : ℕ → ℕ → Memory → ℕ → Memory × ℕ
place_message segments num m write =
    if ltb segments (write + num)
    then (fill m write (segments - write) skip_buff_mgmt_magic, 0)
    else (m, write)

-- The words and the position after the message's size and its further segments are marked:
-- `write_pos++; end_pos = write_pos + num - 1; for (; write_pos < end_pos; ++write_pos) …`.
unfoldable pub mark_message : ℕ → ℕ → ℕ → Memory → ℕ → Memory × ℕ
mark_message segments num size m start =
    let write = u16 (start + 1) in
    let stop = u16 (write + num - 1) in
    let write' = if ltb write stop then stop else write in
    (
      fill (store m start size) write (stop - write) skip_buff_mgmt_magic,
      if leb segments write' then 0 else write',
    )

-- The first two loops of `popFromQueue`: the message's segments, after a jump to the start of the
-- ring if they would pass its end.
unfoldable pub clear_message : ℕ → ℕ → Memory → ℕ → Memory × ℕ
clear_message segments num m read =
    if ltb segments (read + num)
    then (
      fill (fill m read (segments - read) empty_buff_mgmt_magic) 0 (u16 num) empty_buff_mgmt_magic,
      u16 num,
    )
    else (fill m read num empty_buff_mgmt_magic, read + num)

-- The last loop, and the return to the start of the ring.
unfoldable pub clear_tail : ℕ → Memory → ℕ → Memory × ℕ
clear_tail segments m read =
    let skipped = ltb read segments && m read == skip_buff_mgmt_magic in
    let m' = if skipped then fill m read (segments - read) empty_buff_mgmt_magic else m in
    (m', if skipped || read == segments then 0 else read)
