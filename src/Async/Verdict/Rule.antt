-- ===== src/Async/Verdict/Rule.antt =====
-- attachments/nginx/ngx_module/async/ngx_cp_async_core.c: what a verdict that is applied can end in.
use openappsec_attachment.Common.{ℕ, ◌≡◌, ap, not, Option, some, List, [], if_case, arith}
use mathlib.Core.Option.{none-ne-some, some-injective}
use openappsec_attachment.Failing.{ServiceVerdict}
use openappsec_attachment.Async.Types.{Rc, Ctx, Env, is_valid, ngx_ok, ngx_error}
use openappsec_attachment.Async.Stages.{State}
use openappsec_attachment.Async.Verdict.{
  Reply, AddedModifications, added, refused, crashed, note_verdict, drop_modifications,
  inject_modifications, count_reply, settle_stage, answer_added, is_limit, apply_verdict,
}

-- The context as the loop over the modifications finds it.
abbrev pub noted : Env → Reply → Ctx → Ctx
noted env r c = drop_modifications r (note_verdict env r.verdict c)

noted_stage : (env : Env) (r : Reply) (c : Ctx) → (noted env r c).stage ≡ c.stage
unfolding drop_modifications note_verdict
noted_stage env r c = ground arith

-- The context as the verdict of its stage finds it.
abbrev pub answered : Env → Reply → List ℕ → Ctx → Ctx
answered env r l c = count_reply (record (noted env r c) { modifications = l })

pub answered_stage :
    (env : Env) (r : Reply) (l : List ℕ) (c : Ctx) → (answered env r l c).stage ≡ c.stage
unfolding count_reply
answered_stage env r l c = noted_stage env r c

pub note_stage : (env : Env) (v : ServiceVerdict) (c : Ctx) → (note_verdict env v c).stage ≡ c.stage
unfolding note_verdict
note_stage env v c = ground arith

module _ (env : Env) (a : ℕ) (r : Reply) (s : State) (Q : State → Type 0) (same : Q s)
    (limits : Q (record s { ctx = note_verdict env r.verdict s.ctx }))
    (settles : (l : List ℕ)
      → Q (settle_stage env a (record s { ctx = answered env r l s.ctx }))) where
  abbrev Good : Option (Rc × State) → Type 0
  Good o = (rc : Rc) (s' : State) → o ≡ some (rc, s') → Q s'

  Good-some : (rc : Rc) (t : State) → Q t → Good (some (rc, t))
  Good-some rc t q rc' s' e = rw (ap (λ p. p.1) (some-injective _ _ e)) at q

  Good-answer :
      (o : AddedModifications) → Good (answer_added env a (record s { ctx = noted env r s.ctx }) o)
  unfolding answer_added
  Good-answer crashed = λ rc s' e. absurd (none-ne-some _ e)
  Good-answer refused = Good-some ngx_error _ (settles [])
  Good-answer (added l) = Good-some ngx_ok _ (settles l)

  -- What holds of the state as it is, with the verdict noted, and with the verdict of the stage settled,
  -- holds when a verdict was applied.
  pub apply_rule : (rc : Rc) (s' : State) → apply_verdict env a r s ≡ some (rc, s') → Q s'
  unfolding apply_verdict
  apply_rule = if_case Good (not (is_valid s.ctx)) (Good-some ngx_error s same) (
      if_case Good (is_limit r.verdict) (Good-some ngx_ok _ limits)
        (Good-answer (inject_modifications r (noted env r s.ctx))))
