-- ===== src/Shmem/Queue/Remove.antt =====
-- core/shmem_ipc/shared_ring_queue.c: `popFromQueue` on a sound ring whose reader is at a message.
use native.Mathlib.Decide.{dec_lt}
use openappsec_attachment.Common.{
  ℕ, ◌+◌, ◌-◌, ◌≤◌, ◌<◌, ◌≡◌, refl, ◌∙◌, ◌≢◌, inl, inr, List, [], ◌∷◌, ◌++◌, arith, length, Memory,
  fill, fill_in, fill_out,
}
use openappsec_attachment.Shmem.Ring.{
  segments_needed, empty_buff_mgmt_magic, skip_buff_mgmt_magic, clear_message, clear_tail,
}
use openappsec_attachment.Shmem.Queue.Layout.{
  IsReleased, Run, Filled, Layout, linear, wrapped, segments_needed_bounds, Run-le, Run-frame,
}
use openappsec_attachment.Shmem.Queue.Sound.{cons_eq}
use openappsec_attachment.Shmem.Queue.Pop.{linear_again}

-- What the loops of `popFromQueue` leave.
unfoldable pub remove_message : ℕ → ℕ → Memory → ℕ → Memory × ℕ
remove_message n num m r = let (m1, r1) = clear_message n num m r in clear_tail n m1 r1

-- The next segment starts a message or is free: nothing else is cleared.
remove_plain :
    (n num : ℕ) (m : Memory) (r : ℕ)
    → r + num < n
    → m (r + num) ≢ skip_buff_mgmt_magic
    → remove_message n num m r ≡ (fill m r num empty_buff_mgmt_magic, r + num)
unfolding remove_message clear_message clear_tail
remove_plain n num m r l h =
    ground (arith, fill_out m r num empty_buff_mgmt_magic (r + num) (inr (omega arith)))

-- Skipped segments follow, up to the end of the ring.
remove_skipped :
    (n num : ℕ) (m : Memory) (r : ℕ)
    → r + num < n
    → m (r + num) ≡ skip_buff_mgmt_magic
    → remove_message n num m r ≡ (
      fill (fill m r num empty_buff_mgmt_magic) (r + num) (n - (r + num)) empty_buff_mgmt_magic,
      0,
    )
unfolding remove_message clear_message clear_tail
remove_skipped n num m r l h =
    ground (arith, fill_out m r num empty_buff_mgmt_magic (r + num) (inr (omega arith)))

-- The message ends the ring.
remove_end :
    (n num : ℕ) (m : Memory) (r : ℕ)
    → r + num ≡ n
    → remove_message n num m r ≡ (fill m r num empty_buff_mgmt_magic, 0)
unfolding remove_message clear_message clear_tail
remove_end n num m r l = ground arith

-- Where nothing but skipped segments follows, the reader goes to the start, and clears the rest.
record Emptied (n : ℕ) (m : Memory) (r : ℕ) (out : Memory × ℕ) : Type 0 where
  start : out.1 ≡ 0
  same : (j : ℕ) → j < r → out.0 j ≡ m j
  cleared : Filled out.0 r n empty_buff_mgmt_magic

remove_last :
    (n num : ℕ) (m : Memory) (r : ℕ)
    → r + num ≤ n
    → Filled m (r + num) n skip_buff_mgmt_magic
    → Emptied n m r (remove_message n num m r)
remove_last n num m r l h = elim (dec_lt (r + num) n) [
  | yes p ↦ rw (remove_skipped n num m r p (h (r + num) (omega arith) p)) (
      let m1 : Memory = fill m r num e in
      record {
        start = refl;
        same = λ j a.
            fill_out m1 (r + num) (n - (r + num)) e j (inl (omega arith))
            ∙ fill_out m r num e j (inl a);
        cleared = λ j a d. elim (dec_lt j (r + num)) [
          | yes c ↦ fill_out m1 (r + num) (n - (r + num)) e j (inl c) ∙ fill_in m r num e j a c
          | no c ↦ fill_in m1 (r + num) (n - (r + num)) e j (omega arith) (omega arith)
        ];
      })
  | no p ↦ rw (remove_end n num m r (omega arith)) (record {
    start = refl;
    same = λ j a. fill_out m r num e j (inl a);
    cleared = λ j a d. fill_in m r num e j a (omega arith);
  })
]
  where
    e : ℕ
    e = empty_buff_mgmt_magic

module _ (size n : ℕ) (released : IsReleased size) (m b : Memory) where
  abbrev removed : ℕ → List ℕ → Memory × ℕ
  removed r x = remove_message n (segments_needed size (length x)) m r

  -- The word at the end of a run is the next message's, or as the segments behind it.
  Run-word_ne_skip :
      (p : ℕ) (xs : List (List ℕ)) {q : ℕ}
      → Run size m b p xs q
      → m q ≢ skip_buff_mgmt_magic
      → m p ≢ skip_buff_mgmt_magic
  Run-word_ne_skip p [] h ne = rw h ne
  Run-word_ne_skip p (x ∷ xs) h ne = λ e. omega (arith, h.0.word, h.0.limited)

  -- Clearing the message at `r` leaves the messages behind it.
  Run-cleared :
      (r num : ℕ) (xs : List (List ℕ)) (q : ℕ)
      → Run size m b (r + num) xs q
      → Run size (fill m r num empty_buff_mgmt_magic) b (r + num) xs q
  Run-cleared r num xs q h =
      Run-frame size released m b (fill m r num empty_buff_mgmt_magic) b (r + num) xs q
        (λ j a _. fill_out m r num empty_buff_mgmt_magic j (inr a)) (λ j _ _. refl) h

  -- Clearing from `p` on keeps what is empty up to `p`, and what is empty further on.
  Filled-cleared :
      (p num i k : ℕ)
      → Filled m i k empty_buff_mgmt_magic
      → Filled (fill m p num empty_buff_mgmt_magic) i k empty_buff_mgmt_magic
  Filled-cleared p num i k h j a d = elim (dec_lt j p) [
    | yes l ↦ fill_out m p num empty_buff_mgmt_magic j (inl l) ∙ h j a d
    | no g ↦ elim (dec_lt j (p + num)) [
      | yes l ↦ fill_in m p num empty_buff_mgmt_magic j (omega arith) l
      | no g' ↦ fill_out m p num empty_buff_mgmt_magic j (inr (omega arith)) ∙ h j a d
    ]
  ]

  Filled-extend :
      (i p num : ℕ)
      → Filled m i p empty_buff_mgmt_magic
      → Filled (fill m p num empty_buff_mgmt_magic) i (p + num) empty_buff_mgmt_magic
  Filled-extend i p num h j a d = elim (dec_lt j p) [
    | yes l ↦ fill_out m p num empty_buff_mgmt_magic j (inl l) ∙ h j a l
    | no g ↦ fill_in m p num empty_buff_mgmt_magic j (omega arith) d
  ]

  remove_linear :
      (r w : ℕ) (x : List ℕ) (xs : List (List ℕ))
      → r ≤ w
      → w < n
      → Run size m b r (x ∷ xs) w
      → Filled m 0 r empty_buff_mgmt_magic
      → Filled m w n empty_buff_mgmt_magic
      → Layout size n (removed r x).0 b (removed r x).1 w xs
  remove_linear r w x xs rw_le wn run before after =
      let num : ℕ = segments_needed size (length x) in
      let le : r + num ≤ w = Run-le size m b (r + num) xs run.1 in
      rw
        (remove_plain n num m r (omega arith)
          (Run-word_ne_skip (r + num) xs run.1 (λ e. omega (arith, after w (omega arith) wn))))
        (linear le wn (Run-cleared r num xs w run.1) (Filled-extend 0 r num before)
          (Filled-cleared r num w n after))

  remove_wrapped :
      (r w : ℕ) (x : List ℕ) (ys zs : List (List ℕ)) (t : ℕ)
      → w < r
      → r < n
      → t ≤ n
      → Run size m b r (x ∷ ys) t
      → Filled m t n skip_buff_mgmt_magic
      → Run size m b 0 zs w
      → Filled m w r empty_buff_mgmt_magic
      → Layout size n (removed r x).0 b (removed r x).1 w (ys ++ zs)
  remove_wrapped r w x [] zs t wr rn tn run skips run' free =
      let num : ℕ = segments_needed size (length x) in
      let out : Emptied n m r (removed r x) =
        remove_last n num m r (omega (arith, run.1)) (rw (← run.1) at skips) in
      rw out.start (
        linear_again size n released m b (removed r x).0 zs wr (omega arith) run' free out.same
          out.cleared)
  remove_wrapped r w x (y ∷ ys) zs t wr rn tn run skips run' free =
      let num : ℕ = segments_needed size (length x) in
      let le : r + num + segments_needed size (length y) ≤ t =
        Run-le size m b (r + num + segments_needed size (length y)) ys run.1.1 in
      let more : 0 < segments_needed size (length y) =
        (segments_needed_bounds size released (length y) run.1.0.nonempty run.1.0.limited).0 in
      let e : ℕ = empty_buff_mgmt_magic in
      rw (remove_plain n num m r (omega arith) (λ e. omega (arith, run.1.0.word, run.1.0.limited)))
        (wrapped (omega arith) (omega arith) (y ∷ ys) zs t refl (λ e. cc) tn
          (Run-cleared r num (y ∷ ys) t run.1)
          (λ j a d. fill_out m r num e j (inr (omega arith)) ∙ skips j a d)
          (Run-frame size released m b (fill m r num e) b 0 zs w
            (λ j _ d. fill_out m r num e j (inl (omega arith))) (λ j _ _. refl) run')
          (Filled-extend w r num free))

  -- The first message is removed, whichever way the ring lies.
  pub remove-Layout :
      {r w : ℕ} (x : List ℕ) (xs : List (List ℕ))
      → m r ≡ length x
      → length x ≤ 0xfffc
      → Layout size n m b r w (x ∷ xs)
      → Layout size n (removed r x).0 b (removed r x).1 w xs
  remove-Layout {r} {w} x xs word limit (linear rw_le wn run before after) =
      remove_linear r w x xs rw_le wn run before after
  remove-Layout {r} {w} x xs word limit
        (wrapped wr rn (y ∷ ys) zs t split ne tn run skips run' free) =
      rw ((cons_eq split).1, (cons_eq split).0)
        (remove_wrapped r w y ys zs t wr rn tn run skips run' free)
  remove-Layout {r} {w} x xs word limit (wrapped wr rn [] zs t split ne tn run skips run' free) =
      absurd (omega (arith, skips r (omega arith) rn))
