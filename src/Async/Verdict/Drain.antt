-- ===== src/Async/Verdict/Drain.antt =====
-- attachments/nginx/ngx_module/async/ngx_cp_async_core.c: the loop over the verdicts that have come in.
use openappsec_attachment.Common.{
  ℕ, ◌≡◌, ◌≢◌, refl, sym, ◌∙◌, ap, not, ◌||◌, Option, none, some, List, [], ◌∷◌, arith, if_case,
}
use mathlib.Core.Option.{none-ne-some, some-injective}
use openappsec_attachment.Async.Types.{Ctx, Env, Rc, is_valid, get_flow_error_safe}
use openappsec_attachment.Async.Table.{Table, find_in_chain, find_ctx, ctx_hash}
use openappsec_attachment.Async.Stages.{State}
use openappsec_attachment.Async.Verdict.{
  Reply, World, orphan, set_ctx, store_ctx, drain_found, is_reconf, apply_verdict, drain_one,
  drain_ipc_queue,
}

chain_session :
    (sid : ℕ → ℕ) (k : ℕ) (chain : List ℕ) (a : ℕ) → find_in_chain sid k chain ≡ some a → sid a ≡ k
unfolding find_in_chain
chain_session sid k [] a e = absurd (none-ne-some _ e)
chain_session sid k (b ∷ chain) a e = ground (arith, e, chain_session sid k chain a)

-- A context that the table finds for a session is of that session.
found_session : (sid : ℕ → ℕ) (k : ℕ) (t : Table) (a : ℕ) → find_ctx sid k t ≡ some a → sid a ≡ k
unfolding find_ctx
found_session sid k t a e = chain_session sid k (t.buckets (ctx_hash k)) a e

set_other : (ctxs : ℕ → Ctx) (a : ℕ) (c : Ctx) (b : ℕ) → b ≢ a → set_ctx ctxs a c b ≡ ctxs b
set_other ctxs a c b ne = ground (arith, ne)

-- What a round leaves as it was: the contexts of other sessions.
abbrev pub IsRound : ℕ → World → World → Type 0
IsRound k w w' = (b : ℕ) → (w.ctxs b).session_id ≢ k → w'.ctxs b ≡ w.ctxs b

-- A round that ends in the outcome is one.
abbrev Rounds : ℕ → World → Option World → Type 0
Rounds k w o = (w' : World) → o ≡ some w' → IsRound k w w'

Rounds-some : (k : ℕ) (w w' : World) → IsRound k w w' → Rounds k w (some w')
Rounds-some k w w' good w'' e = rw (sym (some-injective _ _ e)) good

Rounds-orphan : (k : ℕ) (w : World) → Rounds k w (some (orphan w))
Rounds-orphan k w = Rounds-some k w (orphan w) (λ b ne. refl)

Rounds-store :
    (env : Env) (a : ℕ) (w : World) (o : Option (Rc × State))
    → Rounds (w.ctxs a).session_id w (store_ctx env a w o)
Rounds-store env a w none = λ w' e. absurd (none-ne-some _ e)
Rounds-store env a w (some (rc, s)) =
    Rounds-some (w.ctxs a).session_id w _
      (λ b ne. set_other w.ctxs a s.ctx b (λ same. ne (ap (λ x. (w.ctxs x).session_id) same)))

Rounds-found :
    (env : Env) (a : ℕ) (r : Reply) (w : World)
    → Rounds (w.ctxs a).session_id w (drain_found env a r w)
unfolding drain_found
Rounds-found env a r w =
    if_case (Rounds (w.ctxs a).session_id w)
      (not (is_valid (w.ctxs a)) || get_flow_error_safe (w.ctxs a))
      (Rounds-orphan (w.ctxs a).session_id w)
      (Rounds-store env a w
        (apply_verdict env a r (record { ctx = w.ctxs a; table = w.table; log = w.log })))

Rounds-find :
    (env : Env) (r : Reply) (w : World) (o : Option ℕ)
    → find_ctx (λ a. (w.ctxs a).session_id) r.session_id w.table ≡ o
    → Rounds r.session_id w (elim o [ none ↦ some (orphan w) | some a ↦ drain_found env a r w ])
Rounds-find env r w none e = Rounds-orphan r.session_id w
Rounds-find env r w (some a) e =
    rw (found_session (λ a. (w.ctxs a).session_id) r.session_id w.table a e) at
      (Rounds-found env a r w)

round : (env : Env) (r : Reply) (w : World) → Rounds r.session_id w (drain_one env r w)
unfolding drain_one
round env r w =
    if_case (Rounds r.session_id w) (is_reconf r.verdict)
      (Rounds-some r.session_id w w (λ b ne. refl)) (Rounds-find env r w _ refl)

-- None of the replies is for the session.
abbrev pub IsSilent : ℕ → List (Env × Reply) → Type 0
IsSilent k [] = Unit
IsSilent k ((_, r) ∷ rest) = (k ≢ r.session_id) × IsSilent k rest

drain_split :
    (env : Env) (r : Reply) (rest : List (Env × Reply)) (w w' : World)
    → drain_ipc_queue ((env, r) ∷ rest) w ≡ some w'
    → (v : World) × ((drain_one env r w ≡ some v) × (drain_ipc_queue rest v ≡ some w'))
unfolding drain_ipc_queue
drain_split env r rest w w' = go (drain_one env r w) refl
  where
    go :
        (o : Option World)
        → drain_one env r w ≡ o
        → elim o [ none ↦ none | some v ↦ drain_ipc_queue rest v ] ≡ some w'
        → (v : World) × ((drain_one env r w ≡ some v) × (drain_ipc_queue rest v ≡ some w'))
    go none first e = absurd (none-ne-some _ e)
    go (some v) first e = (v, (first, e))

-- The loop over the verdicts that have come in, where it ends without a crash, leaves every context as it
-- was whose session none of the replies is for, whatever the handlers do with the contexts that it finds.
pub drain_isolates :
    (q : List (Env × Reply)) (w w' : World) (b : ℕ)
    → IsSilent (w.ctxs b).session_id q
    → drain_ipc_queue q w ≡ some w'
    → w'.ctxs b ≡ w.ctxs b
unfolding drain_ipc_queue
drain_isolates [] w w' b silent e = ap (λ x. x.ctxs b) (sym (some-injective _ _ e))
drain_isolates ((env, r) ∷ rest) w w' b silent e =
    let (v, (first, then_on)) = drain_split env r rest w w' e in
    let same = round env r w v first b silent.0 in
    drain_isolates rest v w' b (rw same silent.1) then_on ∙ same
