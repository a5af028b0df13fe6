-- ===== src/Tests/Async.antt =====
-- The theorems on the asynchronous contexts at concrete inputs.
use openappsec_attachment.Common.{
  ◌==◌, ℕ, ◌+◌, ◌≡◌, ◌≢◌, ◌↔◌, refl, true, false, none, some, List, [], ◌∷◌, arith,
}
use openappsec_attachment.Failing.{inspect, accept, drop, inject}
use openappsec_attachment.Async.Types.{
  Stage, Rc, init, end_transaction, meta_data, ngx_ok, ngx_again, Ctx, Env, wait_meta_verdict,
  wait_header_verdict, headers, complete,
}
use openappsec_attachment.Async.Body.{BodyEnv, Body}
use openappsec_attachment.Async.Table.{Table, find_ctx, add_ctx}
use openappsec_attachment.Async.Table.Laws.{IsWell, table-IsWell}
use openappsec_attachment.Async.Stages.{State, apply_verdict_for_stage, transition_after_wait}
use openappsec_attachment.Async.Stages.Legal.{Step, Moved}
use openappsec_attachment.Async.Handler.Once.{MovesOnce, IsStarted, stages_move_once}
use openappsec_attachment.Async.Handler.{continue_processing, event_handler, dispatch}
use openappsec_attachment.Async.Handler.Timers.{
  deadline_handler, force_completion, abandon, start_agent_communication,
}
use openappsec_attachment.Async.Handler.Total.{event_handler_total}
use openappsec_attachment.Async.Handler.Ends.{IsDecided, continue_IsDecided}
use openappsec_attachment.Async.Verdict.{Reply, World, apply_verdict, drain_ipc_queue}
use openappsec_attachment.Async.Verdict.Drain.{drain_isolates}
use openappsec_attachment.Async.Verdict.Moves.{at_rest, on_event, on_deadline, Run-complete}
use openappsec_attachment.Async.Verdict.Modifications.{apply_crashes}

-- Failures pass, held requests are blocked; the headers go out in two messages.
abbrev env : Env
env = record {
  fail_open = true;
  hold_open = false;
  wait_verdict_timeout_ms = 200;
  max_proccessing_ms = 3000;
  body_stage_timeout = 1000;
  send_meta_data = (ngx_ok, 1);
  send_headers = (ngx_ok, 2);
  send_end_transaction = (ngx_ok, 1);
  wait_signal = ngx_ok;
  contains_body = true;
  headers_modified = true;
  chunks_counted = 1;
  backpressure_threshold = 100;
}

abbrev ctx : Ctx
ctx = record {
  request = 900;
  session_data = 901;
  session = record {
    verdict = inspect;
    remaining_messages_to_reply = 1;
    async_processing_needed = true;
    was_request_fully_inspected = false;
  };
  session_id = 5;
  stage = wait_header_verdict;
  agent_event = record { data_set = true; timer = none; posted = false };
  deadline_event = record { data_set = true; timer = some 3000; posted = false };
  deadline_handler_set = true;
  cleanup_event = record { data_set = true; timer = some 9000; posted = false };
  resume_event = record { data_set = true; timer = none; posted = false };
  modifications = [];
  waiting = true;
  body_phase_started = false;
  released = false;
  req_seen_last = false;
  req_seq = 0;
  queue = [];
  meta_data_sent = true;
  headers_sent = true;
  end_transaction_sent = false;
  header_declined = false;
  first_wait_verdict_encountered = false;
  flow_error = false;
}

-- The session of the context at an address.
abbrev sid : ℕ → ℕ
sid a = a + 4

abbrev no_contexts : Table
no_contexts = record { buckets = λ i. []; context_count = 0 }

abbrev one_context : Table
one_context = add_ctx 1 5 no_contexts

abbrev state : State
state = record { ctx = ctx; table = one_context; log = [] }

none-IsWell : IsWell sid no_contexts
none-IsWell i = ground arith

none_found : find_ctx sid 5 no_contexts ≡ none
unfolding find_ctx
none_found = refl

one-IsWell : IsWell sid one_context
one-IsWell = (table-IsWell sid 1 3 no_contexts none-IsWell none_found).0

one_found : find_ctx sid 5 one_context ≡ some 1
unfolding find_ctx add_ctx
one_found = refl

event_handler_total_example : event_handler 7 env 1 state ≡ some (dispatch env 1 state)
event_handler_total_example = event_handler_total env 1 5 state

-- A context whose headers were answered by a verdict to drop is complete, and its request is forbidden.
abbrev blocked : State
blocked = record state {
  ctx = record ctx { stage = complete; session = record (ctx.session) { verdict = drop } };
}

abbrev done : Rc × State
done = elim (continue_processing env (event_handler 2 env 1) blocked) [
  | none ↦ (ngx_ok, blocked)
  | some p ↦ p
]

done_lem : continue_processing env (event_handler 2 env 1) blocked ≡ some (done.0, done.1)
unfolding continue_processing
done_lem = refl

continue_IsDecided_example : IsDecided env blocked.ctx done.0 done.1.ctx
continue_IsDecided_example =
    continue_IsDecided env (event_handler 2 env 1) blocked done.1 done.0 done_lem

abbrev reply : Reply
reply = record { verdict = inject; session_id = 5; modification_count = 2; creates = λ i. true }

abbrev injected : State
injected = record state { ctx = record ctx { modifications = 0 ∷ 1 ∷ [] } }

apply_crashes_example : (apply_verdict env 1 reply injected ≡ none) ↔ (
    (true ≡ true)
    × ((inject ≡ inject)
        × ((reply.modification_count ≢ 0) × ((true ≡ true) × (injected.ctx.modifications ≢ [])))))
unfolding openappsec_attachment.Async.Types.is_valid
apply_crashes_example = apply_crashes env 1 reply injected

-- The wait for the headers' verdict is over, and the event handler is called.
abbrev handed : Rc × State
handed = elim (continue_processing env (event_handler 2 env 1) state) [
  | none ↦ (ngx_ok, state)
  | some p ↦ p
]

handed_lem : continue_processing env (event_handler 2 env 1) state ≡ some (handed.0, handed.1)
unfolding continue_processing event_handler openappsec_attachment.Async.Types.is_valid
handed_lem = refl

stages_move_once_example :
    MovesOnce (event_handler 2 env 1) state handed.1
    × Moved wait_header_verdict (apply_verdict_for_stage env state).1.ctx.stage
    × Moved wait_header_verdict (transition_after_wait ctx).stage
    × Moved wait_header_verdict (force_completion true ctx).stage
    × Moved wait_header_verdict (abandon env ctx).stage
    × IsStarted (start_agent_communication false env 1 state)
    × Step init meta_data
stages_move_once_example =
    stages_move_once false true env (event_handler 2 env 1) 1 state handed.0 handed.1 handed_lem

-- The blocked context, when its event comes, and its deadline after that.
Run-complete_example : (deadline_handler env 1 (dispatch env 1 blocked)).ctx.stage ≡ complete
Run-complete_example =
    Run-complete 1 blocked (deadline_handler env 1 (dispatch env 1 blocked))
      (on_event env (on_deadline env at_rest)) refl

abbrev meta_state : State
meta_state = record state { ctx = record ctx { stage = wait_meta_verdict } }

abbrev accepts : Reply
accepts = record reply { verdict = accept; modification_count = 0 }

abbrev after : Rc × State
after = elim (apply_verdict env 1 accepts meta_state) [ none ↦ (ngx_ok, meta_state) | some p ↦ p ]

after_lem : apply_verdict env 1 accepts meta_state ≡ some (after.0, after.1)
unfolding apply_verdict
after_lem = refl

abbrev world : World
world = record {
  ctxs = λ a. record ctx { session_id = sid a; stage = headers };
  table = one_context;
  pending = record { chunks = 3; drain_initialized = true; drain_posted = false };
  log = [];
}

-- A request without a body.
abbrev no_body : Env
no_body = record env { contains_body = false }

-- The first reply moves its context on, whose next chunk is sent; the session of the second is gone.
abbrev replies : List (Env × Reply)
replies = (no_body, accepts) ∷ (env, record accepts { session_id = 77 }) ∷ []

abbrev drained : World
drained = elim (drain_ipc_queue replies world) [ none ↦ world | some w ↦ w ]

drained_lem : drain_ipc_queue replies world ≡ some drained
unfolding drain_ipc_queue find_ctx add_ctx event_handler
drained_lem = refl

drain_isolates_example : drained.ctxs 2 ≡ record ctx { session_id = 6; stage = headers }
drain_isolates_example = drain_isolates replies world drained 2 (ground arith) drained_lem

-- Two buffers come in behind a saved one; the second is the last of the body.
abbrev body_env : BodyEnv
body_env = record {
  has_session = true;
  is_async = true;
  ipc_ready = true;
  copies = true;
  next_filter = ngx_ok;
  send_chunk = λ buf. (ngx_ok, 1);
  send_end = (ngx_ok, 1);
  last_buf = λ buf. buf == 12;
  body_deadline = 3000;
}

abbrev saved : Body
saved = record { state = record state { ctx = record ctx { queue = 10 ∷ [] } }; forwarded = [] }

drained_stage :
    ((drained.ctxs 1).stage ≡ end_transaction)
    × ((drained.ctxs 1).end_transaction_sent ≡ true)
    × (drained.pending.chunks ≡ 2)
unfolding drain_ipc_queue find_ctx add_ctx event_handler
drained_stage = (refl, refl, refl)
