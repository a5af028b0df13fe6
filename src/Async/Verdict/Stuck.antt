-- ===== src/Async/Verdict/Stuck.antt =====
-- attachments/nginx/ngx_module/async/ngx_cp_async_core.c: the stage that waits for a verdict on the meta
-- data, which neither the processing nor a verdict leaves.
use openappsec_attachment.Common.{ℕ, ◌≡◌, refl, ◌∙◌, false, some, List, arith, if_case}
use openappsec_attachment.Async.Types.{wait_meta_verdict, Rc, Env, Effect}
use openappsec_attachment.Async.Stages.{State, apply_verdict_for_stage, is_verdict_drop_or_custom}
use openappsec_attachment.Async.Handler.{dispatch, event_handler, continue_processing, finish_event}
use openappsec_attachment.Async.Verdict.Rule.{answered, answered_stage, note_stage, apply_rule}
use openappsec_attachment.Async.Verdict.{Reply, follow_up, settle_stage, apply_verdict}

-- The event handler does nothing to a context that waits for the verdict on its meta data, unless it is
-- blocked or has a flow error.
pub meta_event :
    (env : Env) (a : ℕ) (s : State)
    → s.ctx.stage ≡ wait_meta_verdict
    → s.ctx.flow_error ≡ false
    → is_verdict_drop_or_custom s.ctx.session.verdict ≡ false
    → dispatch env a s ≡ s
unfolding dispatch event_handler continue_processing finish_event
meta_event env a s waits sound passes = ground (arith, waits, sound, passes)

-- The context still waits, and no effect came after those of the first state.
abbrev pub IsStuck : List Effect → State → Type 0
IsStuck l s = (s.ctx.stage ≡ wait_meta_verdict) × (s.log ≡ l)

apply-IsStuck :
    (env : Env) (a : ℕ) (s : State)
    → s.ctx.stage ≡ wait_meta_verdict
    → IsStuck s.log (follow_up env a (apply_verdict_for_stage env s))
unfolding follow_up apply_verdict_for_stage
apply-IsStuck env a s waits = ground (arith, waits)

settle-IsStuck :
    (env : Env) (a : ℕ) (s : State)
    → s.ctx.stage ≡ wait_meta_verdict
    → IsStuck s.log (settle_stage env a s)
unfolding settle_stage
settle-IsStuck env a s waits = if_case (IsStuck s.log) _ (apply-IsStuck env a s waits) (waits, refl)

-- A verdict that is applied to a context that waits for the verdict on its meta data, be it a final
-- one, leaves it waiting, and lets nothing be done about its request.
pub meta_verdict :
    (env : Env) (a : ℕ) (r : Reply) (s : State) (rc : Rc) (s' : State)
    → apply_verdict env a r s ≡ some (rc, s')
    → s.ctx.stage ≡ wait_meta_verdict
    → IsStuck s.log s'
meta_verdict env a r s rc s' e waits =
    apply_rule env a r s (IsStuck s.log) (waits, refl)
      (note_stage env r.verdict s.ctx ∙ waits, refl)
      (λ l.
        settle-IsStuck env a (record s { ctx = answered env r l s.ctx })
          (answered_stage env r l s.ctx ∙ waits))
      rc s' e
