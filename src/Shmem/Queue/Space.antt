-- ===== src/Shmem/Queue/Space.antt =====
-- core/shmem_ipc/shared_ring_queue.c: what the test of `isThereEnoughMemoryInQueue` decides.
use openappsec_attachment.Common.{ℕ, ◌+◌, ◌≤◌, ◌<◌, ◌≡◌, ◌⊎◌, true, arith, ◌↔◌}
use openappsec_attachment.Shmem.Ring.{is_there_enough_memory}

-- The segments from `read` up to `write` round the ring hold what was not read yet.
abbrev pub Occupied : ℕ → ℕ → ℕ → ℕ → Type 0
Occupied segments write read c =
    ((read ≤ write) × (read ≤ c) × (c < write))
    ⊎ ((write < read) × (c < segments) × ((read ≤ c) ⊎ (c < write)))

-- The segments that a push of `num` segments marks.
abbrev pub Claimed : ℕ → ℕ → ℕ → ℕ → Type 0
Claimed segments write num c =
    ((write + num ≤ segments) × (write ≤ c) × (c < write + num))
    ⊎ ((segments < write + num) × (c < segments) × ((write ≤ c) ⊎ (c < num)))

-- The sizes that the code can meet: a ring of at most 2048 segments, positions in it, and a
-- message of 1 to 64 segments.
pub record InRange (segments write read num : ℕ) : Type 0 where
  pub ring : segments ≤ 2048
  pub write_in : write < segments
  pub read_in : read < segments
  pub some_segment : 0 < num
  pub few_segments : num ≤ 64

-- The writer has not gone round behind the reader, or the message ends before the ring does.
abbrev pub IsTestExact : ℕ → ℕ → ℕ → ℕ → Type 0
IsTestExact segments write read num = (read ≤ write) ⊎ (write + num < segments)

-- Room for the message, with a segment to spare: in one piece ahead of the writer, at the start
-- of the ring, or between the writer and the reader.
abbrev pub HasRoom : ℕ → ℕ → ℕ → ℕ → Type 0
HasRoom segments write read num =
    ((read ≤ write)
      × (num < segments)
      × ((write + num < segments)
          ⊎ ((write + num ≡ segments) × (0 < read))
          ⊎ ((segments < write + num) × (num < read))))
    ⊎ ((write < read) × (write + num < read))

module _ {segments write read num : ℕ} (r : InRange segments write read num) where
  enough→HasRoom :
      IsTestExact segments write read num
      → is_there_enough_memory segments write read num ≡ true
      → HasRoom segments write read num
  unfolding is_there_enough_memory
  enough→HasRoom x h = ground arith

  HasRoom→enough :
      IsTestExact segments write read num
      → HasRoom segments write read num
      → is_there_enough_memory segments write read num ≡ true
  unfolding is_there_enough_memory
  HasRoom→enough x h = ground arith

  -- With sizes in range, and the writer not behind the reader or the message ending before the ring
  -- does, the test says that there is enough memory exactly when the message has room.
  pub enough_iff :
      IsTestExact segments write read num
      → (is_there_enough_memory segments write read num ≡ true) ↔ HasRoom segments write read num
  enough_iff x = (enough→HasRoom x, HasRoom→enough x)

  -- With sizes in range, and the writer not behind the reader or the message ending before the ring
  -- does, where the test says that there is enough memory no segment that the push marks holds a
  -- message that was not read yet.
  pub Claimed-not-Occupied :
      IsTestExact segments write read num
      → is_there_enough_memory segments write read num ≡ true
      → (c : ℕ) → Claimed segments write num c
      → ¬ Occupied segments write read c
  Claimed-not-Occupied x h c a o = ground (arith, enough→HasRoom x h)

  -- With sizes in range and the writer behind the reader, for a message that reaches the ring's end
  -- and has fewer segments than the reader's position: the test says that there is enough memory,
  -- and the push marks the segment of the reader's position, which holds an unread message.
  pub enough_overruns :
      write < read
      → segments ≤ write + num
      → num < read
      → (is_there_enough_memory segments write read num ≡ true)
        × Claimed segments write num read
        × Occupied segments write read read
  unfolding is_there_enough_memory
  enough_overruns a b c = ground arith
