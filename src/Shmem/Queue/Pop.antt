-- ===== src/Shmem/Queue/Pop.antt =====
-- core/shmem_ipc/shared_ring_queue.c: reading and removing the first message of a sound ring.
use native.Mathlib.Decide.{dec_lt}
use openappsec_attachment.Common.{
  ℕ, zero, suc, ◌+◌, ◌-◌, ◌≤◌, ◌<◌, ◌≡◌, refl, ◌∙◌, ◌≢◌, inl, List, [], ◌∷◌, ◌++◌, arith, Memory,
  fill, store, fill_in, fill_out,
}
use openappsec_attachment.Shmem.Ring.{
  empty_buff_mgmt_magic, skip_buff_mgmt_magic, clear_skips, advance_to_message,
}
use openappsec_attachment.Shmem.Queue.Layout.{
  IsReleased, IsMessage, Run, Filled, Layout, linear, wrapped, Run-frame,
}

clear_skips_stop :
    (rounds : ℕ) (m : Memory) (r : ℕ) → m r ≢ skip_buff_mgmt_magic → clear_skips rounds m r ≡ (m, r)
unfolding clear_skips
clear_skips_stop zero m r h = refl
clear_skips_stop (suc k) m r h = ground arith

clear_skips_all :
    (rounds : ℕ) (m : Memory) (r : ℕ)
    → Filled m r (r + rounds) skip_buff_mgmt_magic
    → clear_skips rounds m r ≡ (fill m r rounds empty_buff_mgmt_magic, r + rounds)
unfolding clear_skips fill
clear_skips_all zero m r h = ground arith
clear_skips_all (suc k) m r h = ground (
  arith,
  h r,
  clear_skips_all k (store m r empty_buff_mgmt_magic) (suc r) (λ j a d. ground (arith, h j)),
)

module _ (size n : ℕ) (released : IsReleased size) (m b : Memory) where
  word-ne-skip : {p : ℕ} {x : List ℕ} → IsMessage size m b p x → m p ≢ skip_buff_mgmt_magic
  word-ne-skip c h = omega (arith, c.word, c.limited)

  advance_stop : {r : ℕ} → r < n → m r ≢ skip_buff_mgmt_magic → advance_to_message n m r ≡ (m, r)
  unfolding advance_to_message
  advance_stop {r} l h = ground (arith, clear_skips_stop (n - r) m r h)

  advance_wrap :
      {r : ℕ}
      → r < n
      → Filled m r n skip_buff_mgmt_magic
      → advance_to_message n m r ≡ (fill m r (n - r) empty_buff_mgmt_magic, 0)
  unfolding advance_to_message
  advance_wrap {r} l h = ground (arith, clear_skips_all (n - r) m r (λ j a d. h j a (omega arith)))

  -- The reader's words from `r` to the end are cleared: what is left starts at the ring's start.
  pub linear_again :
      {r w : ℕ} (m' : Memory) (zs : List (List ℕ))
      → w < r
      → r ≤ n
      → Run size m b 0 zs w
      → Filled m w r empty_buff_mgmt_magic
      → ((j : ℕ) → j < r → m' j ≡ m j)
      → Filled m' r n empty_buff_mgmt_magic
      → Layout size n m' b 0 w zs
  linear_again {r} {w} m' zs wr rn run free same rest =
      linear (omega arith) (omega arith)
        (Run-frame size released m b m' b 0 zs w (λ j _ d. same j (omega arith)) (λ j _ _. refl)
          run)
        (λ j a d. absurd (omega arith))
        (λ j a d. elim (dec_lt j r) [
          | yes l ↦ same j l ∙ free j a l
          | no g ↦ rest j (omega arith) d
        ])

-- The state after a peek: the reader stands at the first message.
pub record Found (size n : ℕ) (m b : Memory) (r w : ℕ) (xs : List (List ℕ)) : Type 0 where
  pub first : List ℕ
  pub rest : List (List ℕ)
  pub split : xs ≡ first ∷ rest
  pub message : IsMessage size m b r first
  pub layout : Layout size n m b r w xs

module _ (size n : ℕ) (released : IsReleased size) (m b : Memory) where
  pub advance-Found :
      {r w : ℕ} (xs : List (List ℕ))
      → Layout size n m b r w xs
      → r ≢ w
      → let (m', r') = advance_to_message n m r in Found size n m' b r' w xs
  advance-Found [] (linear rw_le wn run before after) ne = absurd (ne run)
  advance-Found {r} (x ∷ rest) (linear rw_le wn run before after) ne =
      rw
        (advance_stop size n released m b {r = r} (omega arith)
          (word-ne-skip size n released m b run.0))
        (record {
          first = x;
          rest = rest;
          split = refl;
          message = run.0;
          layout = linear rw_le wn run before after;
        })
  advance-Found xs (wrapped wr rn (y ∷ ys) zs t split ne tn run skips run' free) _ =
      rw (advance_stop size n released m b rn (word-ne-skip size n released m b run.0)) (record {
        first = y;
        rest = ys ++ zs;
        split = split;
        message = run.0;
        layout = wrapped wr rn (y ∷ ys) zs t split ne tn run skips run' free;
      })
  advance-Found xs (wrapped wr rn [] [] t split ne tn run skips run' free) _ = absurd (ne split)
  advance-Found {r} {w} xs (wrapped wr rn [] (z ∷ zs) t split ne tn run skips run' free) _ =
      rw (advance_wrap size n released m b rn (rw (← run) at skips)) (
        let m' : Memory = fill m r (n - r) empty_buff_mgmt_magic in
        let again : Layout size n m' b 0 w (z ∷ zs) =
          linear_again size n released m b m' (z ∷ zs) wr (omega arith) run' free
            (λ j l. fill_out m r (n - r) empty_buff_mgmt_magic j (inl l))
            (λ j a d. fill_in m r (n - r) empty_buff_mgmt_magic j a (omega arith)) in
        record {
          first = z;
          rest = zs;
          split = split;
          message = first_message again;
          layout = rw split again;
        })
    where
      first_message :
          {m' : Memory} {x : List ℕ} {xs : List (List ℕ)}
          → Layout size n m' b 0 w (x ∷ xs)
          → IsMessage size m' b 0 x
      first_message (linear _ _ run _ _) = run.0
      first_message (wrapped wr _ _ _ _ _ _ _ _ _ _ _) = absurd (omega arith)
