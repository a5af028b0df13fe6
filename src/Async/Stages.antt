-- ===== src/Async/Stages.antt =====
-- attachments/nginx/ngx_module/async/ngx_cp_async_core.c: how a verdict moves a context from stage to
-- stage, and the creation and the end of a context.
pub mod Legal
use openappsec_attachment.Common.{
  ℕ, ◌+◌, ◌-◌, Bool, true, false, ◌&&◌, ◌||◌, not, Option, none, some, List, [], ◌∷◌, ◌==◌,
  if◌then◌else◌,
}
use openappsec_attachment.Failing.{
  ServiceVerdict, inspect, accept, drop, inject, irrelevant, reconf, delayed,
  limit_response_headers, custom_response,
}
use openappsec_attachment.Async.Types.{
  Stage, init, meta_data, wait_meta_verdict, headers, wait_header_verdict, end_transaction,
  wait_end_verdict, body, wait_body_verdict, complete, error, Rc, ngx_ok, ngx_error, ngx_again,
  ngx_declined, SessionData, Event, Ctx, Effect, run_phases, Env, is_valid, get_session_id_safe,
  get_stage_safe, get_flow_error_safe, nullify_ctx_refs, cancel_timers, cancel_deadline_timer,
  stage_transition, delete_timer, fail_verdict,
}
use openappsec_attachment.Async.Table.{Table, remove_ctx}

-- A context at its address, the table, and the effects so far, the last one first.
pub record State : Type 0 where
  pub ctx : Ctx
  pub table : Table
  pub log : List Effect

abbrev pub emit : Effect → State → State
emit e s = record s { log = e ∷ s.log }

abbrev pub set_verdict : ServiceVerdict → Ctx → Ctx
set_verdict v c = record c { session = record (c.session) { verdict = v } }

abbrev pub add_timer : ℕ → Event → Event
add_timer ms e = record e { timer = some ms }

unfoldable pub is_verdict_final : ServiceVerdict → Bool
is_verdict_final accept = true
is_verdict_final drop = true
is_verdict_final custom_response = true
is_verdict_final _ = false

unfoldable pub is_verdict_drop_or_custom : ServiceVerdict → Bool
is_verdict_drop_or_custom drop = true
is_verdict_drop_or_custom custom_response = true
is_verdict_drop_or_custom _ = false

abbrev pub is_delayed : ServiceVerdict → Bool
is_delayed delayed = true
is_delayed _ = false

abbrev idle : Event
idle = record { data_set = true; timer = none; posted = false }

abbrev unset : Event
unset = record { data_set = false; timer = none; posted = false }

-- `none` is NULL; the last argument is whether both allocations succeed.
unfoldable pub create_ctx : ℕ → ℕ → ℕ → SessionData → ℕ → Bool → Option Ctx
create_ctx request session_data session_id session cleanup_timeout_ms allocated =
    if request == 0 || session_data == 0 || not allocated
    then none
    else some (record {
      request = request;
      session_data = session_data;
      session = session;
      session_id = session_id;
      stage = init;
      agent_event = idle;
      deadline_event = unset;
      deadline_handler_set = false;
      cleanup_event = add_timer cleanup_timeout_ms idle;
      resume_event = idle;
      modifications = [];
      waiting = false;
      body_phase_started = false;
      released = false;
      req_seen_last = false;
      req_seq = 0;
      queue = [];
      meta_data_sent = false;
      headers_sent = false;
      end_transaction_sent = false;
      header_declined = false;
      first_wait_verdict_encountered = false;
      flow_error = false;
    })

-- `SAFE_DESTROY_CTX`: the memory stays the request's pool's.
unfoldable pub destroy_ctx : ℕ → State → State
unfolding nullify_ctx_refs cancel_timers remove_ctx
destroy_ctx a s = record s {
  ctx = cancel_timers (nullify_ctx_refs s.ctx);
  table = remove_ctx a s.ctx.session_id s.table;
}

unfoldable pub transition_after_wait : Ctx → Ctx
unfolding get_session_id_safe get_flow_error_safe get_stage_safe is_verdict_drop_or_custom
    stage_transition
transition_after_wait c =
    if get_session_id_safe c == 0 || get_flow_error_safe c || is_delayed c.session.verdict
    then c
    else elim (get_stage_safe c) [
      | wait_header_verdict ↦
          if is_verdict_drop_or_custom c.session.verdict
          then stage_transition complete c
          else stage_transition end_transaction c
      | wait_end_verdict ↦
          if c.body_phase_started then stage_transition body c else stage_transition complete c
      | wait_body_verdict ↦
          if is_verdict_drop_or_custom c.session.verdict
          then stage_transition complete c
          else stage_transition body c
      | _ ↦ stage_transition complete c
    ]

-- The headers were inspected and a body follows: the request goes on to it.
unfoldable pub enter_body : State → State
unfolding stage_transition cancel_deadline_timer
enter_body s =
    let c =
      cancel_deadline_timer (stage_transition body (record (s.ctx) { header_declined = true })) in
    if c.waiting
    then emit run_phases (record s { ctx = record c { waiting = false } })
    else record s { ctx = c }

abbrev pub wait_again : ℕ → Ctx → Ctx
wait_again ms c = record c { agent_event = add_timer ms c.agent_event }

abbrev pub done_processing : Ctx → Ctx
done_processing c = record c { session = record (c.session) { async_processing_needed = false } }

-- The cases of a stage whose chunk was answered, by the session's verdict.
unfoldable pub apply_verdict_for_stage : Env → State → Rc × State
unfolding get_session_id_safe get_stage_safe is_verdict_drop_or_custom stage_transition enter_body
apply_verdict_for_stage env s =
    let c = s.ctx in
    let blocked = is_verdict_drop_or_custom c.session.verdict in
    let waits = is_delayed c.session.verdict in
    let completed : Rc × State = (ngx_ok, record s { ctx = stage_transition complete c }) in
    let again : Rc × State =
      (ngx_again, record s { ctx = wait_again env.wait_verdict_timeout_ms c }) in
    if get_session_id_safe c == 0 then (ngx_error, s) else elim (get_stage_safe c) [
      | error ↦ (ngx_error, s)
      | meta_data ↦
          if blocked
          then completed
          else if waits
          then (ngx_ok, record s { ctx = stage_transition wait_meta_verdict c })
          else (ngx_ok, record s { ctx = stage_transition headers c })
      | headers ↦
          if blocked
          then completed
          else if waits
          then (ngx_ok, record s { ctx = stage_transition wait_header_verdict c })
          else if env.contains_body
          then (ngx_declined, enter_body s)
          else (ngx_ok, record s { ctx = stage_transition end_transaction (done_processing c) })
      | end_transaction ↦
          if blocked
          then completed
          else if waits
          then (
            ngx_again,
            record s {
              ctx = wait_again env.wait_verdict_timeout_ms (stage_transition wait_end_verdict c);
            },
          )
          else (
            ngx_ok,
            record s {
              ctx =
                  done_processing (record (stage_transition complete c) { header_declined = true });
            },
          )
      | body ↦
          if blocked
          then completed
          else if waits
          then (
            ngx_again,
            record s {
              ctx = wait_again env.wait_verdict_timeout_ms (stage_transition wait_body_verdict c);
            },
          )
          else if c.session.was_request_fully_inspected
          then (ngx_ok, record s { ctx = record c { req_seq = 0 } })
          else (ngx_ok, s)
      | wait_meta_verdict ↦ again
      | wait_header_verdict ↦ again
      | wait_body_verdict ↦ again
      | wait_end_verdict ↦ again
      | _ ↦ (ngx_ok, s)
    ]
