-- ===== src/Shmem/Queue/Layout.antt =====
-- core/shmem_ipc/shared_ring_queue.c: how the words and the bytes of a ring hold messages.
use openappsec_attachment.Common.{
  ℕ, ◌+◌, ◌≤◌, ◌<◌, ◌≡◌, refl, ◌∙◌, ◌≢◌, ◌⊎◌, inl, inr, List, [], ◌∷◌, ◌++◌, arith, length, Memory,
  read, read_agree,
}
use openappsec_attachment.Shmem.Ring.{
  data_segment_offset, segments_needed, empty_buff_mgmt_magic, skip_buff_mgmt_magic, max_write_size,
}

-- The two sizes of a segment that were ever released.
abbrev pub IsReleased : ℕ → Type 0
IsReleased size = (size ≡ 1024) ⊎ (size ≡ 4096)

module _ (size : ℕ) (released : IsReleased size) where
  pub segments_needed_bounds :
      (n : ℕ)
      → 0 < n
      → n ≤ max_write_size
      → (0 < segments_needed size n) × (segments_needed size n ≤ 64)
  unfolding segments_needed
  segments_needed_bounds n = elim released [
    | inl e ↦ rw e (λ a b. (omega arith, omega arith))
    | inr e ↦ rw e (λ a b. (omega arith, omega arith))
  ]

  -- A message's bytes end before the first segment behind it.
  pub offset_le :
      (p n s : ℕ)
      → p + segments_needed size n ≤ s
      → data_segment_offset size p + n ≤ data_segment_offset size s
  unfolding segments_needed data_segment_offset
  offset_le p n s = elim released [
    | inl e ↦ rw e (λ h. omega arith)
    | inr e ↦ rw e (λ h. omega arith)
  ]

  pub offset_mono : (p q : ℕ) → p ≤ q → data_segment_offset size p ≤ data_segment_offset size q
  unfolding data_segment_offset
  offset_mono p q = elim released [
    | inl e ↦ rw e (λ h. omega arith)
    | inr e ↦ rw e (λ h. omega arith)
  ]

-- Segment `p` starts the message `x`.
pub record IsMessage (size : ℕ) (m b : Memory) (p : ℕ) (x : List ℕ) : Type 0 where
  pub word : m p ≡ length x
  pub nonempty : 0 < length x
  pub limited : length x ≤ max_write_size
  pub further :
      (j : ℕ) → p < j → j < p + segments_needed size (length x) → m j ≡ skip_buff_mgmt_magic
  pub stored : read b (data_segment_offset size p) (length x) ≡ x

-- The segments from `p` up to `q` hold the messages `xs`, in order and with none left between.
abbrev pub Run : ℕ → Memory → Memory → ℕ → List (List ℕ) → ℕ → Type 0
Run size m b p [] q = p ≡ q
Run size m b p (x ∷ xs) q =
    IsMessage size m b p x × Run size m b (p + segments_needed size (length x)) xs q

-- All words from `p` up to `q` are `v`.
abbrev pub Filled : Memory → ℕ → ℕ → ℕ → Type 0
Filled m p q v = (j : ℕ) → p ≤ j → j < q → m j ≡ v

-- A ring of `n` segments whose next read is at `r` and next write at `w` holds the messages `xs`.
pub data Layout (size n : ℕ) (m b : Memory) (r w : ℕ) (xs : List (List ℕ)) : Type 0 where
  linear :
      r ≤ w
      → w < n
      → Run size m b r xs w
      → Filled m 0 r empty_buff_mgmt_magic
      → Filled m w n empty_buff_mgmt_magic
      → Layout size n m b r w xs
  -- `ys` stand behind the end of the ring at `n`, where the segments from `t` on are skipped.
  wrapped :
      w < r
      → r < n
      → (ys zs : List (List ℕ)) (t : ℕ) → xs ≡ ys ++ zs
      → xs ≢ []
      → t ≤ n
      → Run size m b r ys t
      → Filled m t n skip_buff_mgmt_magic
      → Run size m b 0 zs w
      → Filled m w r empty_buff_mgmt_magic
      → Layout size n m b r w xs

module _ (size : ℕ) where
  pub Run-le : (m b : Memory) (p : ℕ) (xs : List (List ℕ)) {q : ℕ} → Run size m b p xs q → p ≤ q
  Run-le m b p [] h = omega arith
  Run-le m b p (x ∷ xs) h = omega (arith, Run-le m b (p + segments_needed size (length x)) xs h.1)

  pub Run-snoc :
      (m b : Memory) (p : ℕ) (xs : List (List ℕ)) {q : ℕ} (x : List ℕ)
      → Run size m b p xs q
      → IsMessage size m b q x
      → Run size m b p (xs ++ x ∷ []) (q + segments_needed size (length x))
  Run-snoc m b p [] x h c = rw h (c, refl)
  Run-snoc m b p (y ∷ ys) x h c =
      (h.0, Run-snoc m b (p + segments_needed size (length y)) ys x h.1 c)

module _ (size : ℕ) (released : IsReleased size) (m b m' b' : Memory) where
  -- A message is untouched by what changes neither its words nor its bytes.
  pub IsMessage-frame :
      (p q : ℕ) (x : List ℕ)
      → p + segments_needed size (length x) ≤ q
      → ((j : ℕ) → p ≤ j → j < q → m' j ≡ m j)
      → ((j : ℕ) → data_segment_offset size p ≤ j → j < data_segment_offset size q → b' j ≡ b j)
      → IsMessage size m b p x
      → IsMessage size m' b' p x
  IsMessage-frame p q x le words bytes c = record {
    word =
        words p (omega arith)
          (omega (arith, segments_needed_bounds size released (length x) c.nonempty c.limited))
        ∙ c.word;
    nonempty = c.nonempty;
    limited = c.limited;
    further = λ j a d. words j (omega arith) (omega arith) ∙ c.further j a d;
    stored =
        read_agree b' b (data_segment_offset size p) (length x)
          (λ j a d. bytes j a (omega (arith, offset_le size released p (length x) q le)))
        ∙ c.stored;
  }

  pub Run-frame :
      (p : ℕ) (xs : List (List ℕ)) (q : ℕ)
      → ((j : ℕ) → p ≤ j → j < q → m' j ≡ m j)
      → ((j : ℕ) → data_segment_offset size p ≤ j → j < data_segment_offset size q → b' j ≡ b j)
      → Run size m b p xs q
      → Run size m' b' p xs q
  Run-frame p [] q words bytes h = h
  Run-frame p (x ∷ xs) q words bytes h =
      let next : ℕ = p + segments_needed size (length x) in
      let le : next ≤ q = Run-le size m b next xs h.1 in
      (
        IsMessage-frame p q x le words bytes h.0,
        Run-frame next xs q (λ j a d. words j (omega arith) d)
            (λ j a d.
              bytes j (omega (arith, offset_le size released p (length x) next (omega arith))) d)
            h.1,
      )
