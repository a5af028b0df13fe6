-- ===== src/Async/Verdict/Modifications.antt =====
-- attachments/nginx/ngx_module/async/ngx_cp_async_core.c: the loop that adds the modifications of a
-- verdict to its context.
use openappsec_attachment.Common.{
  ℕ, zero, suc, ◌+◌, ◌≡◌, ◌≢◌, refl, Bool, true, false, ◌&&◌, none, List, [], ◌∷◌, ◌++◌, arith, ◌⊎◌,
  ◌↔◌, inl, inr, if◌then◌else◌,
}
use mathlib.Core.List.{append-nil, append_assoc}
use openappsec_attachment.Failing.{inject}
use openappsec_attachment.Async.Types.{Ctx, Env, is_valid}
use openappsec_attachment.Async.Stages.{State}
use openappsec_attachment.Async.Verdict.Rule.{noted}
use openappsec_attachment.Async.Verdict.{
  Reply, AddedModifications, added, refused, crashed, add_modifications, inject_modifications,
  note_verdict, drop_modifications, answer_added, apply_verdict,
}

-- Whether `creates` is true of `n` indices from `i` on.
abbrev all_create : (ℕ → Bool) → ℕ → ℕ → Bool
all_create creates i zero = true
all_create creates i (suc n) = creates i && all_create creates (i + 1) n

-- The `n` indices from `i` on.
abbrev indices : ℕ → ℕ → List ℕ
indices i zero = []
indices i (suc n) = i ∷ indices (i + 1) n

-- The loop with `current_modification` set, or on no modifications.
adds :
    (creates : ℕ → Bool) (n i : ℕ) (current : Bool) (l : List ℕ)
    → (current ≡ true) ⊎ (l ≡ [])
    → add_modifications creates n i current l
      ≡ (if all_create creates i n then added (l ++ indices i n) else refused)
unfolding add_modifications
adds creates zero i current l safe = rw (append-nil l) refl
adds creates (suc n) i current [] safe =
    let rest = adds creates n (i + 1) true (i ∷ []) (inl refl) in ground (arith, rest)
adds creates (suc n) i current (m ∷ ms) safe =
    let rest = adds creates n (i + 1) true ((m ∷ ms) ++ i ∷ []) (inl refl) in
    let assoc = append_assoc (m ∷ ms) (i ∷ []) (indices (i + 1) n) in
    ground (arith, rest, assoc, safe)

-- A verdict that injects into a context with no modifications gives it the indices of its own, in
-- order, where each of them finds its memory, and is refused otherwise.
pub inject_into_empty :
    (r : Reply) (c : Ctx)
    → c.modifications ≡ []
    → r.verdict ≡ inject
    → inject_modifications r c ≡ (
        if all_create r.creates 0 r.modification_count
        then added (indices 0 r.modification_count)
        else refused)
unfolding inject_modifications add_modifications
inject_into_empty r c empty injects =
    let all = adds r.creates r.modification_count 0 false [] (inr refl) in
    ground (arith, empty, injects, all)

adds_crashes :
    (creates : ℕ → Bool) (n : ℕ) (l : List ℕ)
    → (add_modifications creates n 0 false l ≡ crashed)
      ↔ ((n ≢ 0) × ((creates 0 ≡ true) × (l ≢ [])))
unfolding add_modifications
adds_crashes creates zero l = ground arith
adds_crashes creates (suc n) [] = ground (arith, adds creates (suc n) 0 false [] (inr refl))
adds_crashes creates (suc n) (m ∷ ms) = ground arith

-- The loop over the modifications of a verdict writes through a NULL pointer exactly when the verdict
-- injects, its first modification finds its memory, and the context has modifications of an earlier
-- verdict.
pub inject_crashes :
    (r : Reply) (c : Ctx)
    → (inject_modifications r c ≡ crashed) ↔ (
        (r.verdict ≡ inject)
        × ((r.modification_count ≢ 0) × ((r.creates 0 ≡ true) × (c.modifications ≢ []))))
unfolding inject_modifications add_modifications
inject_crashes r c = ground (arith, adds_crashes r.creates r.modification_count c.modifications)

answer_none :
    (env : Env) (a : ℕ) (s : State) (o : AddedModifications)
    → (answer_added env a s o ≡ none) ↔ (o ≡ crashed)
unfolding answer_added
answer_none env a s o = ground arith

noted_modifications :
    (env : Env) (r : Reply) (c : Ctx)
    → r.verdict ≡ inject
    → (noted env r c).modifications ≡ c.modifications
unfolding drop_modifications note_verdict
noted_modifications env r c injects = ground (arith, injects)

-- A verdict crashes the worker exactly when its context is valid and has modifications of an earlier
-- verdict, and the verdict injects modifications, the first of which finds its memory.
pub apply_crashes :
    (env : Env) (a : ℕ) (r : Reply) (s : State)
    → (apply_verdict env a r s ≡ none) ↔ (
        (is_valid s.ctx ≡ true)
        × ((r.verdict ≡ inject)
            × ((r.modification_count ≢ 0) × ((r.creates 0 ≡ true) × (s.ctx.modifications ≢ [])))))
unfolding apply_verdict
apply_crashes env a r s =
    let c' = noted env r s.ctx in
    let o = inject_modifications r c' in
    ground (
      arith,
      answer_none env a (record s { ctx = c' }) o,
      inject_crashes r c',
      noted_modifications env r s.ctx,
    )
