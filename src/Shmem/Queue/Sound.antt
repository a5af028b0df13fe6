-- ===== src/Shmem/Queue/Sound.antt =====
-- core/shmem_ipc/shared_ring_queue.c: a queue that agrees with its process's table and sizes, and
-- what the shared first steps of the operations do on it.
use mathlib.Core.List.{flatten}
use openappsec_attachment.Common.{
  ℕ, ◌↔◌, false, str_eq_refl, ◌+◌, ◌≤◌, ◌<◌, ◌≡◌, refl, ◌∙◌, ◌≢◌, List, [], ◌∷◌, arith, length, ℤ,
  none, some, true, Memory, copy, copy-append, length-append, leb, if◌then◌else◌, eqb_ℤ, u32, pos,
  negsuc,
}
use openappsec_attachment.Shmem.Params.{
  QueueParams, find_slot, get_queue_params, initialize_queue_params,
}
use openappsec_attachment.Shmem.Sizes.{Os, get_effective_segment_size, get_effective_entry_size}
use openappsec_attachment.Shmem.Ring.{
  data_segment_offset, segments_needed, total_size, copy_buffers, max_write_size,
}
use openappsec_attachment.Shmem.Queue.{
  SharedRingQueue, Process, lookup_params, segment_size, entry_size_of, get_position, disagrees,
  positions_agree,
}
use openappsec_attachment.Shmem.Queue.Layout.{
  IsReleased, Layout, linear, wrapped, Run-le, segments_needed_bounds,
}

-- The process knows the queue under its name, with `n` segments, and has settled the size.
pub record IsOpen (size n : ℕ) (q : SharedRingQueue) (p : Process) : Type 0 where
  pub initialized : p.table.initialized ≡ true
  pub params : QueueParams
  pub known : find_slot q.shared_location_name p.table.slots ≡ some params
  pub same_number : params.num_of_data_segments ≡ n
  pub queue_number : q.num_of_data_segments ≡ n
  pub same_memory : q.size_of_memory ≡ params.memory_size
  pub some_segment : 0 < n
  pub few_segments : n ≤ 2048
  pub released : IsReleased size
  pub size_initialized : p.sizes.effective_size_initialized ≡ true
  pub segment : p.sizes.effective_segment_size ≡ size
  pub entry : p.sizes.effective_entry_size ≡ size
  -- The mapping holds the segments, and a word for each in front of them.
  pub mapped_size : ℕ
  pub stamped : q.size_of_memory ≡ pos mapped_size
  pub segments_fit : data_segment_offset size n ≤ mapped_size
  pub words_fit : n + n ≤ size

-- It holds the messages `xs`, first to last.
pub record Holds (size n : ℕ) (q : SharedRingQueue) (p : Process) (xs : List (List ℕ))
    : Type 0 where
  pub is_open : IsOpen size n q p
  pub layout : Layout size n q.mgmt q.bytes q.read_pos q.write_pos xs

pub eqb_ℤ-refl : (a : ℤ) → eqb_ℤ a a ≡ true
eqb_ℤ-refl (pos n) = ground arith
eqb_ℤ-refl (negsuc n) = ground arith

module _ {size n : ℕ} {q : SharedRingQueue} {p : Process} (o : IsOpen size n q p) where
  pub get_params-IsOpen : get_queue_params q.shared_location_name p.table ≡ (some o.params, p.table)
  unfolding get_queue_params initialize_queue_params
  get_params-IsOpen = rw (o.initialized, o.known)

  pub lookup-IsOpen : lookup_params q.shared_location_name p ≡ (some o.params, p)
  unfolding get_queue_params initialize_queue_params
  lookup-IsOpen = rw (o.initialized, o.known)

  pub segment_size-IsOpen : (os : Os) → segment_size os p ≡ (size, p)
  unfolding get_effective_segment_size
  segment_size-IsOpen os = rw (o.size_initialized, o.segment)

  pub entry_size-IsOpen : (os : Os) → entry_size_of os p ≡ (size, p)
  unfolding get_effective_entry_size
  entry_size-IsOpen os = ground (arith, o.entry, o.released)

  pub get_position-IsOpen : q.read_pos ≤ n → q.write_pos ≤ n → get_position q p ≡ (some o.params, p)
  unfolding get_position positions_agree
  get_position-IsOpen a b = ground (arith, eqb_ℤ-refl q.size_of_memory, lookup-IsOpen)

-- The positions of a sound ring lie in it.
pub Layout-bounds :
    {size n r w : ℕ} {m b : Memory} {xs : List (List ℕ)}
    → Layout size n m b r w xs
    → (r < n) × (w < n)
Layout-bounds (linear rw_le wn _ _ _) = omega arith
Layout-bounds (wrapped wr rn _ _ _ _ _ _ _ _ _ _) = omega arith

-- It is empty exactly when they are equal.
pub Layout-empty : {size n r w : ℕ} {m b : Memory} → Layout size n m b r w [] → r ≡ w
Layout-empty (linear rw_le wn run _ _) = run
Layout-empty (wrapped _ _ _ _ _ _ ne _ _ _ _ _) = absurd (ne refl)

pub Layout-nonempty :
    {size n r w : ℕ} {m b : Memory} {x : List ℕ} {xs : List (List ℕ)}
    → IsReleased size
    → Layout size n m b r w (x ∷ xs)
    → r ≢ w
Layout-nonempty {size} {r = r} {m = m} {b = b} {x = x} {xs = xs} released
      (linear rw_le wn run _ _) =
    omega (
      arith,
      Run-le size m b (r + segments_needed size (length x)) xs run.1,
      segments_needed_bounds size released (length x) run.0.nonempty run.0.limited,
    )
Layout-nonempty released (wrapped wr _ _ _ _ _ _ _ _ _ _ _) = omega arith

pub cons_eq : {x y : List ℕ} {xs ys : List (List ℕ)} → x ∷ xs ≡ y ∷ ys → (x ≡ y) × (xs ≡ ys)
cons_eq h = (cc, cc)

-- A message has a byte, and keeps to the write limit.
pub Layout-limits :
    {size n r w : ℕ} {m b : Memory} {x : List ℕ} {xs : List (List ℕ)}
    → Layout size n m b r w (x ∷ xs)
    → (0 < length x) × (length x ≤ max_write_size)
Layout-limits (linear _ _ run _ _) = (run.0.nonempty, run.0.limited)
Layout-limits (wrapped _ _ (y ∷ ys) zs _ split _ _ run _ _ _) =
    rw ((cons_eq split).0) (run.0.nonempty, run.0.limited)
Layout-limits (wrapped _ _ [] (z ∷ zs) _ split _ _ _ _ run _) =
    rw ((cons_eq split).0) (run.0.nonempty, run.0.limited)
Layout-limits (wrapped _ _ [] [] _ split _ _ _ _ _ _) = cc

-- The copying loop writes the messages' bytes one behind the other.
pub copy_buffers_lem :
    (m : Memory) (at : ℕ) (bs : List (List ℕ)) → copy_buffers m at bs ≡ copy m at (flatten bs)
unfolding copy_buffers copy flatten
copy_buffers_lem m at [] = refl
copy_buffers_lem m at (b ∷ bs) =
    copy_buffers_lem (copy m at b) (at + length b) bs ∙ copy-append m at b (flatten bs)

-- Every buffer's size is a `uint16_t`.
abbrev pub AreSmall : List (List ℕ) → Type 0
AreSmall [] = Unit
AreSmall (b ∷ bs) = (length b < 65536) × AreSmall bs

total_size_from :
    (sum : ℕ) (bs : List (List ℕ))
    → AreSmall bs
    → sum ≤ max_write_size
    → total_size sum bs ≡ (
        if leb (sum + length (flatten bs)) max_write_size
        then some (sum + length (flatten bs))
        else none)
unfolding total_size flatten
total_size_from sum [] small h = ground arith
total_size_from sum (b ∷ bs) small h =
    ground (arith, total_size_from (u32 (sum + length b)) bs small.1, length-append b (flatten bs))

pub total_size_lem :
    (bs : List (List ℕ))
    → AreSmall bs
    → total_size 0 bs
      ≡ (if leb (length (flatten bs)) max_write_size then some (length (flatten bs)) else none)
total_size_lem bs small = ground (arith, total_size_from 0 bs small)

-- For parameters with the queue's own name and with a segment, the test of `isCorruptedQueue` finds a
-- disagreement exactly when the test of the other operations refuses the positions.
pub disagrees_iff :
    (q : SharedRingQueue) (params : QueueParams)
    → params.location_name ≡ q.shared_location_name
    → 0 < params.num_of_data_segments
    → (disagrees q params ≡ true) ↔ (positions_agree q params ≡ false)
unfolding disagrees positions_agree
disagrees_iff q params same some_segment = ground (arith, str_eq_refl q.shared_location_name)
