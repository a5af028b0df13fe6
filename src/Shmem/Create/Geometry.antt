-- ===== src/Shmem/Create/Geometry.antt =====
-- core/shmem_ipc/shared_ring_queue.c: the owner's stamp and the size that a user reads from it.
use native.Mathlib.Nat.{mul-div_cancel_left}
use openappsec_attachment.Common.{ℕ, ◌+◌, ◌*◌, ◌≤◌, ◌<◌, ◌≡◌, ◌≢◌, inl, inr, pos, arith}
use openappsec_attachment.Shmem.Ring.{header_prefix_size}
use openappsec_attachment.Shmem.Queue.Layout.{IsReleased}
use openappsec_attachment.Shmem.Create.{Stamp, derive_from_stamp, memory_size_of}

-- What is stamped on a queue of 1 to 2048 segments of a released size gives that size back.
pub derive-stamp :
    (n size : ℕ)
    → 0 < n
    → n ≤ 2048
    → IsReleased size
    → derive_from_stamp
        (record { num_of_data_segments = n; size_of_memory = pos (memory_size_of size n) })
      ≡ size
unfolding derive_from_stamp memory_size_of
derive-stamp n size a b released = elim released [
  | inl e ↦ rw e (ground (arith, mul-div_cancel_left 1024 {n = n + 1} (omega arith)))
  | inr e ↦ rw e (ground (arith, mul-div_cancel_left 4096 {n = n + 1} (omega arith)))
]

-- A size that is derived from a stamp, whatever the stamp holds, is a released one; the stamp has
-- 1 to 2048 segments, and its memory is what they need.
pub derive_sound :
    (h : Stamp)
    → derive_from_stamp h ≢ 0
    → IsReleased (derive_from_stamp h)
      × (0 < h.num_of_data_segments)
      × (h.num_of_data_segments ≤ 2048)
      × (h.size_of_memory
          ≡ pos (header_prefix_size + (h.num_of_data_segments + 1) * derive_from_stamp h))
unfolding derive_from_stamp
derive_sound h ne = ground arith
