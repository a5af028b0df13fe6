-- ===== src/Async/Handler/Timers.antt =====
-- attachments/nginx/ngx_module/async/ngx_cp_async_core.c: the timers of a context, its release when the
-- module is cleaned up, and the start of the communication.
use openappsec_attachment.Common.{ℕ, Bool, true, false, ◌||◌, not, Option, some, if◌then◌else◌}
use openappsec_attachment.Failing.{}
use openappsec_attachment.Metric.{req_header_thread_timeout}
use openappsec_attachment.Async.Types.{
  Stage, meta_data, wait_header_verdict, wait_end_verdict, body, wait_body_verdict, complete, Rc,
  Ctx, counted, Env, is_valid, get_stage_safe, get_flow_error_safe, cancel_timers, stage_transition,
  fail_verdict, fail_result, is_complete, is_body,
}
use openappsec_attachment.Async.Stages.{State, emit, set_verdict, destroy_ctx}
use openappsec_attachment.Async.Handler.{continue_processing, event_handler, dispatch}

abbrev pub deadline_mode : Env → Stage → Bool
deadline_mode env stage = elim stage [
  | wait_header_verdict ↦ env.hold_open
  | wait_end_verdict ↦ env.hold_open
  | wait_body_verdict ↦ env.hold_open
  | _ ↦ env.fail_open
]

-- The session gets the verdict of a fail mode, and the context is complete.
abbrev pub force_completion : Bool → Ctx → Ctx
force_completion is_open c =
    let c' = set_verdict (fail_verdict is_open) c in
    stage_transition complete (record c' {
      session = record (c'.session) {
        remaining_messages_to_reply = 0;
        async_processing_needed = false;
      };
      header_declined = true;
    })

unfoldable pub deadline_handler : Env → ℕ → State → State
unfolding is_valid get_stage_safe get_flow_error_safe stage_transition dispatch
deadline_handler env a s =
    let c = s.ctx in
    if not c.deadline_event.data_set || not (is_valid c)
    then s
    else if is_complete c.stage || c.flow_error
    then s
    else dispatch env a (
        emit (counted req_header_thread_timeout)
          (record s { ctx = force_completion (deadline_mode env c.stage) c }))

unfoldable pub context_cleanup_handler : Env → ℕ → State → State
unfolding is_valid stage_transition dispatch
context_cleanup_handler env a s =
    let c = s.ctx in
    if not c.cleanup_event.data_set || not (is_valid c)
    then s
    else if is_complete c.stage
    then s
    else dispatch env a
        (record s { ctx = force_completion env.fail_open (record c { flow_error = true }) })

-- What the cleanup of the module does to a valid context before it calls the event handler.
unfoldable pub abandon : Env → Ctx → Ctx
unfolding cancel_timers stage_transition
abandon env c =
    let c1 = set_verdict (fail_verdict env.fail_open) c in
    let c2 = cancel_timers (record c1 {
      session = record (c1.session) {
        remaining_messages_to_reply = 0;
        async_processing_needed = false;
      };
      header_declined = true;
      req_seq = 0;
    }) in
    let c3 : Ctx = elim c2.stage [ wait_body_verdict ↦ record c2 { stage = body } | _ ↦ c2 ] in
    if is_body c3.stage then c3 else stage_transition complete (record c3 { flow_error = true })

-- One round of the loop of `ngx_cp_async_cleanup_impl`.
unfoldable pub release_ctx : Env → ℕ → State → State
unfolding is_valid abandon dispatch destroy_ctx
release_ctx env a s =
    if not (is_valid s.ctx)
    then destroy_ctx a s
    else let s' = dispatch env a (record s { ctx = abandon env s.ctx }) in
      record s' { ctx = record (s'.ctx) { flow_error = true } }

-- `handle_shmem_corruption` failing is the first argument.
unfoldable pub start_agent_communication : Bool → Env → ℕ → State → Option (Rc × State)
unfolding continue_processing event_handler
start_agent_communication corrupted env a s =
    let c = record (s.ctx) { stage = meta_data } in
    if corrupted
    then some (
      fail_result env.fail_open,
      record s { ctx = set_verdict (fail_verdict env.fail_open) (record c { flow_error = true }) },
    )
    else continue_processing env (event_handler 2 env a) (record s { ctx = c })
