-- ===== src/Async/Handler.antt =====
-- attachments/nginx/ngx_module/async/ngx_cp_async_core.c: the processing of a stage, and the event
-- handlers around it. The event handler calls the processing, and the processing of a stage that
-- waits calls the event handler: the recursion is on fuel, and `none` is its end.
pub mod Timers
pub mod Ends
pub mod Moves
pub mod Once
pub mod Total
use openappsec_attachment.Common.{
  ℕ, ◌+◌, Bool, true, false, ◌&&◌, ◌||◌, not, Option, none, some, List, [], ◌∷◌, zero, suc, ltb,
  ◌==◌, if◌then◌else◌,
}
use openappsec_attachment.Failing.{
  ServiceVerdict, inspect, accept, drop, inject, irrelevant, reconf, delayed,
  limit_response_headers, custom_response,
}
use openappsec_attachment.Metric.{hold_thread_timeout, req_header_thread_timeout}
use openappsec_attachment.Async.Types.{
  Stage, init, meta_data, wait_meta_verdict, headers, wait_header_verdict, end_transaction,
  wait_end_verdict, body, wait_body_verdict, complete, error, Rc, ngx_ok, ngx_error, ngx_again,
  ngx_declined, ngx_http_forbidden, ngx_http_request_time_out, SessionData, Ctx, Effect, run_phases,
  rejected, resumed, counted, Env, is_valid, get_stage_safe, get_flow_error_safe, cancel_timers,
  cancel_deadline_timer, stage_transition, delete_timer, fail_verdict, fail_result, is_complete,
  is_body,
}
use openappsec_attachment.Async.Stages.{
  State, emit, set_verdict, wait_again, is_verdict_drop_or_custom, is_delayed, destroy_ctx,
  transition_after_wait,
}

-- `ngx_http_cp_finalize_request_headers_hook` of ngx_cp_hooks.c with the result `NGX_OK`: what it does
-- to the session's data. What it counts is left out.
unfoldable pub finalize_request_headers : Env → List ℕ → SessionData → SessionData
finalize_request_headers env modifications d =
    let inspected = record d {
      was_request_fully_inspected =
          if env.contains_body then d.was_request_fully_inspected else true;
    } in
    elim modifications [
      | [] ↦ inspected
      | _ ∷ _ ↦ if env.headers_modified then inspected else elim d.verdict [
        | inspect ↦ record d { verdict = fail_verdict env.fail_open }
        | _ ↦ d
      ]
    ]

-- From the label `process_complete_stage` on. The times of the processing are not kept.
unfoldable pub complete_stage : Env → State → Rc × State
unfolding cancel_deadline_timer is_verdict_drop_or_custom finalize_request_headers
complete_stage env s =
    let c1 = cancel_deadline_timer s.ctx in
    let c = record c1 {
      session = finalize_request_headers env c1.modifications c1.session;
      agent_event = delete_timer c1.agent_event;
    } in
    (
      elim c.session.verdict [
        | accept ↦ ngx_declined
        | inspect ↦ ngx_declined
        | irrelevant ↦ ngx_declined
        | v ↦ if is_verdict_drop_or_custom v then ngx_http_forbidden else fail_result env.fail_open
      ],
      record s { ctx = c },
    )

-- A sender failed: the session gets the verdict of the fail mode.
abbrev pub flow_failed : Env → State → Rc × State
flow_failed env s = complete_stage env (record s {
  ctx = set_verdict (fail_verdict env.fail_open) (record (s.ctx) { flow_error = true });
})

-- The chunk of a stage was sent, in so many messages.
abbrev pub expect : ℕ → Ctx → Ctx
expect sent c = record c {
  session = record (c.session) {
    remaining_messages_to_reply = c.session.remaining_messages_to_reply + sent;
  };
}

-- The end of a wait that failed: the session gets the verdict of the mode for held requests.
unfoldable pub give_up_waiting : Env → State → State
unfolding cancel_timers stage_transition
give_up_waiting env s =
    let c = set_verdict (fail_verdict env.hold_open) s.ctx in
    let c' = record c {
      session = record (c.session) {
        remaining_messages_to_reply = 0;
        async_processing_needed = false;
      };
      header_declined = true;
      req_seq = 0;
    } in
    emit (counted hold_thread_timeout) (record s { ctx = stage_transition body (cancel_timers c') })

-- The handler is called, and the result is `NGX_AGAIN`.
abbrev pub yield_after : (State → Option State) → State → Option (Rc × State)
yield_after handler s = elim (handler s) [ none ↦ none | some s' ↦ some (ngx_again, s') ]

unfoldable pub handle_wait_verdict : Env → (State → Option State) → State → Option (Rc × State)
unfolding is_valid get_flow_error_safe give_up_waiting transition_after_wait
handle_wait_verdict env handler s =
    if not (is_valid s.ctx)
    then some (ngx_error, s)
    else if get_flow_error_safe s.ctx
    then yield_after handler (give_up_waiting env s)
    else if not (is_delayed s.ctx.session.verdict)
    then yield_after handler (record s { ctx = transition_after_wait s.ctx })
    else elim env.wait_signal [
      | ngx_ok ↦ some (ngx_again, record s { ctx = wait_again env.wait_verdict_timeout_ms s.ctx })
      | ngx_http_request_time_out ↦
          some (ngx_again, record s { ctx = wait_again env.wait_verdict_timeout_ms s.ctx })
      | _ ↦ yield_after handler (give_up_waiting env s)
    ]

-- The body: blocked, or its chunks await verdicts, or the request is resumed.
unfoldable pub process_body : Env → State → Rc × State
unfolding is_verdict_drop_or_custom stage_transition complete_stage
process_body env s =
    let c = s.ctx in
    if is_verdict_drop_or_custom c.session.verdict
    then complete_stage env (record s { ctx = stage_transition complete c })
    else if ltb 0 c.req_seq
    then (ngx_again, s)
    else (
      ngx_again,
      emit resumed (record s {
        ctx = record c {
          released = if c.end_transaction_sent && c.req_seen_last then true else c.released;
        };
      }),
    )

-- `handler` is the event handler.
unfoldable pub continue_processing : Env → (State → Option State) → State → Option (Rc × State)
unfolding complete_stage handle_wait_verdict process_body
continue_processing env handler s =
    let c = s.ctx in
    if c.flow_error
    then some
        (fail_result env.fail_open, record s { ctx = set_verdict (fail_verdict env.fail_open) c })
    else elim c.stage [
      | meta_data ↦ if c.meta_data_sent then some (ngx_again, s) else elim (env.send_meta_data.0) [
        | ngx_declined ↦ some (ngx_declined, record s { ctx = set_verdict irrelevant c })
        | ngx_ok ↦ some (
          ngx_again,
          record s { ctx = record (expect env.send_meta_data.1 c) { meta_data_sent = true } },
        )
        | _ ↦ some (flow_failed env s)
      ]
      | headers ↦ if c.headers_sent then some (ngx_again, s) else elim (env.send_headers.0) [
        | ngx_ok ↦ some (
          ngx_again,
          record s { ctx = record (expect env.send_headers.1 c) { headers_sent = true } },
        )
        | _ ↦ some (flow_failed env s)
      ]
      | end_transaction ↦
          if c.end_transaction_sent
          then some (ngx_again, s)
          else elim (env.send_end_transaction.0) [
            | ngx_ok ↦ some (
              ngx_again,
              record s {
                ctx = record (expect env.send_end_transaction.1 c) { end_transaction_sent = true };
              },
            )
            | _ ↦ some (flow_failed env s)
          ]
      | body ↦ some (process_body env s)
      | wait_header_verdict ↦ handle_wait_verdict env handler s
      | wait_end_verdict ↦ handle_wait_verdict env handler s
      | wait_body_verdict ↦ handle_wait_verdict env handler s
      | complete ↦ some (complete_stage env s)
      | _ ↦ some (ngx_error, s)
    ]

-- What the event handler does with the result of the processing of `stage`.
unfoldable pub finish_event : ℕ → Stage → Rc → State → State
unfolding is_valid is_verdict_drop_or_custom destroy_ctx cancel_deadline_timer
finish_event a stage ngx_again s = s
finish_event a stage rc s =
    if not (is_valid s.ctx)
    then s
    else if is_verdict_drop_or_custom s.ctx.session.verdict
    then emit rejected (destroy_ctx a s)
    else elim rc [
      | ngx_declined ↦
          let s1 = record s { ctx = cancel_deadline_timer s.ctx } in
          let waits = s1.ctx.waiting in
          let s2 = if is_complete stage then destroy_ctx a s1 else s1 in
          let s3 =
            if is_complete stage
            then s2
            else record s2 { ctx = record (s2.ctx) { waiting = false } } in
          if waits then emit run_phases s3 else s2
      | _ ↦ s
    ]

-- `ngx_cp_async_event_handler` on the context's agent event, at the context's address.
unfoldable pub event_handler : ℕ → Env → ℕ → State → Option State
unfolding is_valid continue_processing finish_event
event_handler zero env a s = none
event_handler (suc fuel) env a s =
    if not s.ctx.agent_event.data_set || not (is_valid s.ctx)
    then some s
    else elim (continue_processing env (event_handler fuel env a) s) [
      | none ↦ none
      | some (rc, s') ↦ some (finish_event a s.ctx.stage rc s')
    ]

-- The handler with the fuel that is always enough.
unfoldable pub dispatch : Env → ℕ → State → State
dispatch env a s = elim (event_handler 2 env a s) [ none ↦ s | some s' ↦ s' ]
