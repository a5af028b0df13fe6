-- ===== src/Async/Types.antt =====
-- attachments/nginx/ngx_module/async/ngx_cp_async_types.h, ngx_cp_async_core.h and
-- ngx_cp_async_ctx_validation.c: the stages, a context, and the guarded reads of it.
-- The NGINX structures are outside the repository: a request and its session's data are addresses, 0
-- for NULL, and an event is its flags.
use openappsec_attachment.Common.{
  ℕ, Bool, true, false, ◌&&◌, not, Option, none, some, List, ◌==◌, if◌then◌else◌,
}
use openappsec_attachment.Failing.{ServiceVerdict, accept, drop}
use openappsec_attachment.Metric.{MetricType}

pub data Stage : Type 0 where
  init meta_data wait_meta_verdict headers wait_header_verdict end_transaction : Stage
  wait_end_verdict body wait_body_verdict verdict complete error : Stage

-- The results that the code compares, all of them `ngx_int_t` constants of NGINX.
pub data Rc : Type 0 where
  ngx_ok ngx_error ngx_again ngx_declined ngx_done : Rc
  ngx_http_forbidden ngx_http_request_time_out : Rc

-- What the asynchronous code reads and writes of `ngx_http_cp_session_data`.
pub record SessionData : Type 0 where
  pub verdict : ServiceVerdict
  pub remaining_messages_to_reply : ℕ
  pub async_processing_needed : Bool
  pub was_request_fully_inspected : Bool

-- An event: whether its `data` is set, its timer's delay while it is set, and whether it is posted.
pub record Event : Type 0 where
  pub data_set : Bool
  pub timer : Option ℕ
  pub posted : Bool

-- `ngx_http_cp_async_ctx_t`, with the data that `session_data` points to. The link `map_next` is in
-- the table. The queue of saved chains is the list of its buffers, the modifications that of theirs.
pub record Ctx : Type 0 where
  pub request : ℕ
  pub session_data : ℕ
  pub session : SessionData
  pub session_id : ℕ
  pub stage : Stage
  pub agent_event : Event
  pub deadline_event : Event
  pub deadline_handler_set : Bool
  pub cleanup_event : Event
  pub resume_event : Event
  pub modifications : List ℕ
  pub waiting : Bool
  pub body_phase_started : Bool
  pub released : Bool
  pub req_seen_last : Bool
  pub req_seq : ℕ
  pub queue : List ℕ
  pub meta_data_sent : Bool
  pub headers_sent : Bool
  pub end_transaction_sent : Bool
  pub header_declined : Bool
  pub first_wait_verdict_encountered : Bool
  pub flow_error : Bool

-- What a handler does outside its context: it goes on with the request's phases, rejects the request,
-- posts the event to resume it, or counts a metric.
pub data Effect : Type 0 where
  run_phases rejected resumed : Effect
  counted : MetricType → Effect

-- What the code learns from outside the handlers: the settings, and the answers of the senders, of
-- `does_contain_body` and of `ngx_http_cp_header_modifier`; and how often the senders that a call of the
-- handlers reaches count a pending chunk (a sender of headers once for each bulk), with the limit from
-- which on that posts the event to drain the queue. A fail mode is open, `NGX_OK`, or closed,
-- `NGX_HTTP_FORBIDDEN`.
pub record Env : Type 0 where
  pub fail_open : Bool
  pub hold_open : Bool
  pub wait_verdict_timeout_ms : ℕ
  pub max_proccessing_ms : ℕ
  pub body_stage_timeout : ℕ
  pub send_meta_data : Rc × ℕ
  pub send_headers : Rc × ℕ
  pub send_end_transaction : Rc × ℕ
  pub wait_signal : Rc
  pub contains_body : Bool
  pub headers_modified : Bool
  pub chunks_counted : ℕ
  pub backpressure_threshold : ℕ

-- `mode == NGX_OK ? TRAFFIC_VERDICT_ACCEPT : TRAFFIC_VERDICT_DROP`
abbrev pub fail_verdict : Bool → ServiceVerdict
fail_verdict is_open = if is_open then accept else drop

-- `mode == NGX_OK ? NGX_DECLINED : mode`
abbrev pub fail_result : Bool → Rc
fail_result is_open = if is_open then ngx_declined else ngx_http_forbidden

abbrev pub is_complete : Stage → Bool
is_complete complete = true
is_complete _ = false

abbrev pub is_body : Stage → Bool
is_body body = true
is_body _ = false

-- `ngx_cp_async_ctx_is_valid` on a context that is not NULL.
unfoldable pub is_valid : Ctx → Bool
is_valid c = not (c.session_id == 0) && not (c.request == 0) && not (c.session_data == 0)

unfoldable pub get_session_id_safe : Ctx → ℕ
unfolding is_valid
get_session_id_safe c = if is_valid c then c.session_id else 0

unfoldable pub get_stage_safe : Ctx → Stage
unfolding is_valid
get_stage_safe c = if is_valid c then c.stage else error

unfoldable pub get_flow_error_safe : Ctx → Bool
unfolding is_valid
get_flow_error_safe c = if is_valid c then c.flow_error else true

unfoldable pub nullify_ctx_refs : Ctx → Ctx
nullify_ctx_refs c = record c {
  agent_event = record (c.agent_event) { data_set = false };
  cleanup_event = record (c.cleanup_event) { data_set = false };
  resume_event = record (c.resume_event) { data_set = false };
  deadline_event = record (c.deadline_event) { data_set = false };
}

abbrev pub delete_timer : Event → Event
delete_timer e = record e { timer = none }

-- The posted event is deleted with the timer, save for the deadline's.
unfoldable pub cancel_timers : Ctx → Ctx
cancel_timers c = record c {
  agent_event = record (c.agent_event) { timer = none; posted = false };
  cleanup_event = record (c.cleanup_event) { timer = none; posted = false };
  resume_event = record (c.resume_event) { timer = none; posted = false };
  deadline_event = delete_timer c.deadline_event;
}

unfoldable pub cancel_deadline_timer : Ctx → Ctx
cancel_deadline_timer c = record c { deadline_event = delete_timer c.deadline_event }

unfoldable pub start_deadline_timer : ℕ → Ctx → Ctx
start_deadline_timer ms c = record c {
  deadline_event = record (c.deadline_event) {
    data_set = if c.deadline_handler_set then c.deadline_event.data_set else true;
    timer = some ms;
  };
  deadline_handler_set = true;
}

-- `ASYNC_STAGE_TRANSITION`
unfoldable pub stage_transition : Stage → Ctx → Ctx
stage_transition s c = record c {
  stage = s;
  deadline_event = if is_complete s then delete_timer c.deadline_event else c.deadline_event;
  cleanup_event = if is_complete s then delete_timer c.cleanup_event else c.cleanup_event;
  agent_event = if is_complete s then delete_timer c.agent_event else c.agent_event;
}
