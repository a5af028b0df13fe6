-- ===== src/Async/Handler/Ends.antt =====
-- attachments/nginx/ngx_module/async/ngx_cp_async_core.c: how the timers end a context.
use openappsec_attachment.Common.{
  ℕ, ◌≡◌, refl, Bool, true, false, ◌∷◌, arith, Option, none, some, ◌⊎◌, inl, inr, Bool-cases, ◌≢◌,
  if◌then◌else◌,
}
use openappsec_attachment.Failing.{
  ServiceVerdict, inspect, accept, drop, irrelevant, custom_response,
}
use openappsec_attachment.Async.Types.{
  Rc, ngx_again, ngx_declined, ngx_http_forbidden, ngx_error, complete, Stage, init, body,
  wait_meta_verdict, verdict, error, run_phases, rejected, Ctx, Env, is_valid, is_complete,
  stage_transition,
}
use openappsec_attachment.Async.Table.{remove_ctx}
use openappsec_attachment.Async.Stages.{State, destroy_ctx}
use openappsec_attachment.Async.Handler.{
  continue_processing, handle_wait_verdict, complete_stage, flow_failed, process_body, finish_event,
  event_handler, dispatch,
}
use openappsec_attachment.Async.Handler.Timers.{force_completion, context_cleanup_handler}

-- How the handlers end a context whose session has the verdict of a fail mode: the request is
-- rejected, or it goes on where it waited, and the context is out of the table.
abbrev pub IsEnded : Bool → ℕ → State → State → Type 0
IsEnded is_open a s t =
    (t.log ≡ (
      if is_open then (if s.ctx.waiting then run_phases ∷ s.log else s.log) else rejected ∷ s.log))
    × (t.table ≡ remove_ctx a s.ctx.session_id s.table)

failed_ends :
    (env : Env) (a : ℕ) (s : State)
    → s.ctx.agent_event.data_set ≡ true
    → is_valid s.ctx ≡ true
    → s.ctx.stage ≡ complete
    → s.ctx.flow_error ≡ true
    → IsEnded env.fail_open a s (dispatch env a s)
unfolding dispatch event_handler continue_processing finish_event destroy_ctx is_valid
failed_ends env a s on valid done failed = ground (arith, on, valid, done, failed)

forced_valid : (b : Bool) (c : Ctx) → is_valid c ≡ true → is_valid (force_completion b c) ≡ true
unfolding is_valid stage_transition
forced_valid b c valid = valid

-- When the cleanup timer of a valid context fires that is not complete, the context ends by the
-- general fail mode.
pub cleanup_ends :
    (env : Env) (a : ℕ) (s : State)
    → s.ctx.cleanup_event.data_set ≡ true
    → s.ctx.agent_event.data_set ≡ true
    → is_valid s.ctx ≡ true
    → is_complete s.ctx.stage ≡ false
    → IsEnded env.fail_open a s (context_cleanup_handler env a s)
unfolding context_cleanup_handler
cleanup_ends env a s due on valid running =
    let c = record (s.ctx) { flow_error = true } in
    let t : State = record s { ctx = force_completion env.fail_open c } in
    let ended : IsEnded env.fail_open a t (dispatch env a t) =
      failed_ends env a t on (forced_valid env.fail_open s.ctx valid) refl refl in
    ground (arith, due, valid, running, ended.0, ended.1)

-- What the code does with a request on a session's verdict: it lets it pass, blocks it, or leaves that to
-- the fail mode.
abbrev pub LetsPass : Env → ServiceVerdict → Type 0
LetsPass env accept = Unit
LetsPass env inspect = Unit
LetsPass env irrelevant = Unit
LetsPass env drop = ⊥
LetsPass env custom_response = ⊥
LetsPass env _ = env.fail_open ≡ true

abbrev pub Blocks : Env → ServiceVerdict → Type 0
Blocks env accept = ⊥
Blocks env inspect = ⊥
Blocks env irrelevant = ⊥
Blocks env drop = Unit
Blocks env custom_response = Unit
Blocks env _ = env.fail_open ≡ false

-- A stage in which a context does not come to be processed.
abbrev pub IsIdle : Stage → Type 0
IsIdle st = (st ≡ init) ⊎ ((st ≡ wait_meta_verdict) ⊎ ((st ≡ verdict) ⊎ (st ≡ error)))

-- What a result of the processing says of the context before and after.
abbrev pub IsDecided : Env → Ctx → Rc → Ctx → Type 0
IsDecided env c ngx_declined c' = LetsPass env c'.session.verdict
IsDecided env c ngx_http_forbidden c' = Blocks env c'.session.verdict
IsDecided env c ngx_again c' = (c.stage ≢ complete) × (c.flow_error ≡ false)
IsDecided env c ngx_error c' = (IsIdle c.stage ⊎ (is_valid c ≡ false)) × (c' ≡ c)
IsDecided env c _ c' = ⊥

complete_IsDecided :
    (env : Env) (c : Ctx) (s : State)
    → IsDecided env c (complete_stage env s).0 (complete_stage env s).1.ctx
unfolding complete_stage
complete_IsDecided env c s = ground arith

abbrev pub Decides : Env → State → Option (Rc × State) → Type 0
Decides env s none = Unit
Decides env s (some (rc, s')) = IsDecided env s.ctx rc s'.ctx

flow_Decides : (env : Env) (s : State) → Decides env s (some (flow_failed env s))
flow_Decides env s = complete_IsDecided env s.ctx _

body_Decides :
    (env : Env) (s : State)
    → s.ctx.stage ≡ body
    → s.ctx.flow_error ≡ false
    → Decides env s (some (process_body env s))
unfolding process_body
body_Decides env s at sound =
    let done = complete_IsDecided env s.ctx (record s { ctx = stage_transition complete s.ctx }) in
    ground (arith, at, sound, done)

wait_Decides :
    (env : Env) (h : State → Option State) (s : State)
    → s.ctx.stage ≢ complete
    → s.ctx.flow_error ≡ false
    → Decides env s (handle_wait_verdict env h s)
unfolding handle_wait_verdict
wait_Decides env h s running sound = ground (arith, running, sound)

stage_Decides :
    (env : Env) (h : State → Option State) (s : State)
    → s.ctx.flow_error ≡ false
    → Decides env s (continue_processing env h s)
unfolding continue_processing
stage_Decides env h s sound =
    let failed = flow_Decides env s in
    let inspected = body_Decides env s in
    let waited = wait_Decides env h s in
    let done = complete_IsDecided env s.ctx s in
    ground (arith, sound, failed, inspected, waited, done)

failed_Decides :
    (env : Env) (h : State → Option State) (s : State)
    → s.ctx.flow_error ≡ true
    → Decides env s (continue_processing env h s)
unfolding continue_processing
failed_Decides env h s failed = ground (arith, failed)

-- Where the processing ends, whatever the event handler that a wait calls does, its result decides as the
-- session's verdict then says: `NGX_DECLINED` comes with a verdict to accept, to inspect or of an irrelevant
-- request, `NGX_HTTP_FORBIDDEN` with one to drop or of a custom response, and each also with any other
-- verdict by the general fail mode; `NGX_AGAIN` comes from a context with no flow error in another stage
-- than the complete one; `NGX_ERROR` from a context that is not valid or whose stage has no case, which
-- stays as it was; no other value of `ngx_int_t`, `NGX_OK` among them, comes at all.
pub continue_IsDecided :
    (env : Env) (h : State → Option State) (s s' : State) (rc : Rc)
    → continue_processing env h s ≡ some (rc, s')
    → IsDecided env s.ctx rc s'.ctx
continue_IsDecided env h s s' rc e =
    let decides : Decides env s (continue_processing env h s) = elim (Bool-cases s.ctx.flow_error) [
      | inl failed ↦ failed_Decides env h s failed
      | inr sound ↦ stage_Decides env h s sound
    ] in
    rw e at decides
