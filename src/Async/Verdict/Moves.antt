-- ===== src/Async/Verdict/Moves.antt =====
-- attachments/nginx/ngx_module/async/ngx_cp_async_core.c: the runs of the handlers on a context, and the
-- stages that they lead to.
use openappsec_attachment.Common.{ℕ, ◌≡◌, if_case, some, inl}
use openappsec_attachment.Async.Types.{complete, Rc, ngx_ok, Env}
use openappsec_attachment.Async.Stages.{State, apply_verdict_for_stage}
use openappsec_attachment.Async.Stages.Legal.{
  Reaches, here, Reaches-trans, Moved→Reaches, apply_moves, complete_stays,
}
use openappsec_attachment.Async.Handler.{dispatch}
use openappsec_attachment.Async.Handler.Timers.{
  deadline_handler, context_cleanup_handler, release_ctx,
}
use openappsec_attachment.Async.Handler.Moves.{
  dispatch-Reaches, deadline-Reaches, cleanup-Reaches, release-Reaches,
}
use openappsec_attachment.Async.Verdict.Rule.{answered, answered_stage, note_stage, apply_rule}
use openappsec_attachment.Async.Verdict.{Reply, follow_up, settle_stage, apply_verdict}

follow-Reaches :
    (env : Env) (a : ℕ) (rc : Rc) (s : State)
    → Reaches s.ctx.stage (follow_up env a (rc, s)).ctx.stage
unfolding follow_up
follow-Reaches env a ngx_ok s = dispatch-Reaches env a s
follow-Reaches env a _ s = here

settle-Reaches :
    (env : Env) (a : ℕ) (s : State) → Reaches s.ctx.stage (settle_stage env a s).ctx.stage
unfolding settle_stage
settle-Reaches env a s =
    let stays : Reaches s.ctx.stage s.ctx.stage = here in
    let (rc, t) = apply_verdict_for_stage env s in
    let goes =
      Moved→Reaches (apply_moves env s) (
        follow-Reaches env a (apply_verdict_for_stage env s).0 (apply_verdict_for_stage env s).1) in
    if_case (λ (t : State). Reaches s.ctx.stage t.ctx.stage) _ goes stays

-- A verdict that is applied leaves the context where moves lead from the stage it found.
pub verdict-Reaches :
    (env : Env) (a : ℕ) (r : Reply) (s : State) (rc : Rc) (s' : State)
    → apply_verdict env a r s ≡ some (rc, s')
    → Reaches s.ctx.stage s'.ctx.stage
verdict-Reaches env a r s =
    apply_rule env a r s (λ t. Reaches s.ctx.stage t.ctx.stage) here
      (rw (note_stage env r.verdict s.ctx) here)
      (λ l.
        let t : State = record s { ctx = answered env r l s.ctx } in
        Moved→Reaches (inl (answered_stage env r l s.ctx)) (settle-Reaches env a t))

-- The runs of the handlers on a context: the event handler, the timers, the cleanup of the module,
-- and the verdicts that come in, in any order.
pub data Run (a : ℕ) : State → State → Type 0 where
  at_rest : {s : State} → Run a s s
  on_event : {s t : State} (env : Env) → Run a (dispatch env a s) t → Run a s t
  on_deadline : {s t : State} (env : Env) → Run a (deadline_handler env a s) t → Run a s t
  on_cleanup : {s t : State} (env : Env) → Run a (context_cleanup_handler env a s) t → Run a s t
  on_release : {s t : State} (env : Env) → Run a (release_ctx env a s) t → Run a s t
  on_verdict :
      {s s' t : State} (env : Env) (r : Reply) (rc : Rc)
      → apply_verdict env a r s ≡ some (rc, s')
      → Run a s' t
      → Run a s t

-- The stage at the end of a run of the handlers is one that moves lead to from the stage at its start.
pub Run-Reaches : (a : ℕ) (s t : State) → Run a s t → Reaches s.ctx.stage t.ctx.stage
Run-Reaches a s t at_rest = here
Run-Reaches a s t (on_event env run) =
    Reaches-trans (dispatch-Reaches env a s) (Run-Reaches a (dispatch env a s) t run)
Run-Reaches a s t (on_deadline env run) =
    Reaches-trans (deadline-Reaches env a s) (Run-Reaches a (deadline_handler env a s) t run)
Run-Reaches a s t (on_cleanup env run) =
    Reaches-trans (cleanup-Reaches env a s) (Run-Reaches a (context_cleanup_handler env a s) t run)
Run-Reaches a s t (on_release env run) =
    Reaches-trans (release-Reaches env a s) (Run-Reaches a (release_ctx env a s) t run)
Run-Reaches a s t (on_verdict {s' = s'} env r rc e run) =
    Reaches-trans (verdict-Reaches env a r s rc s' e) (Run-Reaches a s' t run)

-- Once a context is complete, no sequence of calls of the event handler, of the deadline's and the cleanup's
-- timers and of the release, and of verdicts that are applied without a crash, takes it out of that stage.
pub Run-complete :
    (a : ℕ) (s t : State) → Run a s t → s.ctx.stage ≡ complete → t.ctx.stage ≡ complete
Run-complete a s t run e = complete_stays t.ctx.stage (rw e at (Run-Reaches a s t run))
