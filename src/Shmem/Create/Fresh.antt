-- ===== src/Shmem/Create/Fresh.antt =====
-- core/shmem_ipc/shared_ring_queue.c: a queue that its owner created, or that was reset, is a
-- sound queue with no message.
use mathlib.Core.Option
use openappsec_attachment.Common.{
  ℕ, ◌+◌, ◌≤◌, ◌<◌, ◌≡◌, refl, ◌∙◌, List, [], ◌∷◌, arith, length, some, Bool, true, false, pos,
  negsuc, eqb_ℤ, Memory, fill, fill_in, inl, inr, ap, Bool-cases,
}
use openappsec_attachment.Shmem.Params.{
  QueueParams, ParamsTable, find_slot, update_slot, add_queue_params, is_slot_of,
}
use openappsec_attachment.Shmem.Params.Laws.{
  stored_name-short, new_slot, after_initialized, after_found,
}
use openappsec_attachment.Shmem.Sizes.{Os}
use openappsec_attachment.Shmem.Sizes.Laws.{segment_size_settled, entry_size_settled}
use openappsec_attachment.Shmem.Ring.{data_segment_offset, empty_buff_mgmt_magic}
use openappsec_attachment.Shmem.Queue.{
  SharedRingQueue, Process, reset_ring_queue, segment_size, entry_size_of,
}
use openappsec_attachment.Shmem.Queue.Layout.{IsReleased, Layout, linear, offset_mono}
use openappsec_attachment.Shmem.Queue.Sound.{IsOpen, Holds, get_params-IsOpen}
use openappsec_attachment.Shmem.Create.{
  ShmObject, queue, create_shared_ring_queue, stamp_queue, mapped, memory_size_of,
}

-- All words empty and both positions 0.
pub cleared-Layout :
    (size n : ℕ) (m b : Memory) → 0 < n → Layout size n (fill m 0 n empty_buff_mgmt_magic) b 0 0 []
cleared-Layout size n m b h =
    linear (omega arith) h refl (λ j a d. absurd (omega arith))
      (λ j a d. fill_in m 0 n empty_buff_mgmt_magic j a (omega arith))

update-find :
    (f : QueueParams → QueueParams) (name : List ℕ)
    → ((s : QueueParams) → is_slot_of name (f s) ≡ is_slot_of name s)
    → (ss : List QueueParams) {s : QueueParams} → find_slot name ss ≡ some s
    → find_slot name (update_slot f name ss) ≡ some (f s)
unfolding find_slot update_slot
update-find f name keep [] h = cc
update-find f name keep (t ∷ ss) {s} h = elim (Bool-cases (is_slot_of name t)) [
  | inl e ↦ rw (e, keep t, e) (ap (λ o. Option.map f o) (rw e at h))
  | inr e ↦ rw (e, e) (update-find f name keep ss (rw e at h))
]

-- Whatever an open queue held, after a reset to `k` segments, from 1 to as many as it has, it is sound
-- with `k` segments and holds nothing.
pub reset-Holds :
    {size n : ℕ} {q : SharedRingQueue} {p : Process} (k : ℕ) (o : IsOpen size n q p)
    → 0 < k
    → k ≤ n
    → let (q', p') = reset_ring_queue q k p in Holds size k q' p' []
unfolding reset_ring_queue
reset-Holds {size} {n} {q} {p} k o a b = rw (get_params-IsOpen o) (record {
  is_open = record {
    initialized = o.initialized;
    params = record (o.params) { num_of_data_segments = k };
    known =
        update-find (λ s. record s { num_of_data_segments = k }) q.shared_location_name (λ s. refl)
          p.table.slots o.known;
    same_number = refl;
    queue_number = refl;
    same_memory = o.same_memory;
    some_segment = a;
    few_segments = omega (arith, o.few_segments);
    released = o.released;
    size_initialized = o.size_initialized;
    segment = o.segment;
    entry = o.entry;
    mapped_size = o.mapped_size;
    stamped = o.stamped;
    segments_fit = omega (arith, offset_mono size o.released k n b, o.segments_fit);
    words_fit = omega (arith, o.words_fit);
  };
  layout = cleared-Layout size k q.mgmt q.bytes a;
})

pub segments_fit :
    (size n : ℕ) → n ≤ 2048 → IsReleased size → data_segment_offset size n ≤ memory_size_of size n
unfolding data_segment_offset memory_size_of
segments_fit size n b released = elim released [
  | inl e ↦ rw e (omega arith)
  | inr e ↦ rw e (omega arith)
]

-- The sizes that `createSharedRingQueue` starts from, and those that it settles as an owner.
abbrev pub forgotten : Process → Process
forgotten p = record p {
  sizes = record (p.sizes) { effective_size_initialized = false; effective_entry_size = 0 };
}

module _ (os : Os) (name : List ℕ) (n : ℕ) (o : ShmObject) (p : Process)
    (raw : SharedRingQueue) where
  abbrev pub size : ℕ
  size = (segment_size os (forgotten p)).0

  abbrev pub measured : Process
  measured = (segment_size os (forgotten p)).1

  abbrev pub new_table : Bool × ParamsTable
  new_table = add_queue_params name n (pos (memory_size_of size n)) o.fd p.table

  abbrev pub created : SharedRingQueue × Process
  created = (
    stamp_queue true name n (memory_size_of size n) o.fd raw,
    record { table = new_table.1; sizes = measured.sizes },
  )

  create_queue :
      n ≤ 2048
      → eqb_ℤ o.fd (negsuc 0) ≡ false
      → o.ftruncate_succeeds ≡ true
      → o.mapping ≡ mapped raw
      → new_table.0 ≡ true
      → create_shared_ring_queue os name n true o p ≡ (queue created.0, created.1)
  unfolding create_shared_ring_queue
  create_queue ring fd truncated map added = ground arith

  -- An owner's creation of 1 to 2048 segments, with a name of at most 63 characters, where every call
  -- of the system succeeds, the table has a place, the segments' size is a released one, has the
  -- words of the segments in it and is the entries' size too: it answers the queue, and once the
  -- process has asked for the entries' size the queue is sound and holds nothing.
  pub create-Holds :
      0 < n
      → n ≤ 2048
      → length name ≤ 63
      → IsReleased size
      → n + n ≤ size
      → (entry_size_of os created.1).0 ≡ size
      → eqb_ℤ o.fd (negsuc 0) ≡ false
      → o.ftruncate_succeeds ≡ true
      → o.mapping ≡ mapped raw
      → new_table.0 ≡ true
      → (create_shared_ring_queue os name n true o p ≡ (queue created.0, created.1))
        × Holds size n created.0 (entry_size_of os created.1).1 []
  unfolding stamp_queue
  create-Holds a b short released words entry fd truncated map added = (
    create_queue b fd truncated map added,
    record {
      is_open = record {
        initialized = after_initialized name n (pos (memory_size_of size n)) o.fd p.table;
        params = new_slot name n (pos (memory_size_of size n)) o.fd;
        known =
            rw (stored_name-short name short)
              (after_found name n (pos (memory_size_of size n)) o.fd p.table short added);
        same_number = refl;
        queue_number = refl;
        same_memory = refl;
        some_segment = a;
        few_segments = b;
        released = released;
        size_initialized =
            (entry_size_settled os measured.sizes).2
            ∙ (segment_size_settled os (forgotten p).sizes).0;
        segment =
            (entry_size_settled os measured.sizes).1
            ∙ (segment_size_settled os (forgotten p).sizes).1;
        entry = (entry_size_settled os measured.sizes).0 ∙ entry;
        mapped_size = memory_size_of size n;
        stamped = refl;
        segments_fit = segments_fit size n b released;
        words_fit = words;
      };
      layout = cleared-Layout size n raw.mgmt raw.bytes a;
    },
  )
