-- ===== src/Async/Verdict.antt =====
-- attachments/nginx/ngx_module/async/ngx_cp_async_core.c: a verdict of the service, applied to its
-- context, and the loop over the verdicts that have come in.
pub mod Drain
pub mod Modifications
pub mod Moves
pub mod Rule
pub mod Stuck
use openappsec_attachment.Common.{
  ℕ, zero, suc, ◌+◌, ◌-◌, Bool, true, false, ◌&&◌, ◌||◌, not, Option, none, some, List, [], ◌∷◌,
  ◌++◌, ltb, ◌==◌, if◌then◌else◌,
}
use openappsec_attachment.Failing.{
  ServiceVerdict, inspect, accept, drop, inject, irrelevant, reconf, delayed,
  limit_response_headers, custom_response,
}
use openappsec_attachment.Async.Types.{
  Rc, ngx_ok, ngx_error, Ctx, Effect, Env, is_valid, is_body, get_stage_safe, get_flow_error_safe,
  cancel_deadline_timer, start_deadline_timer,
}
use openappsec_attachment.Async.Table.{
  Table, Pending, find_ctx, increment_pending_chunks, decrement_pending_chunks,
}
use openappsec_attachment.Async.Stages.{
  State, is_verdict_final, is_verdict_drop_or_custom, is_delayed, set_verdict,
  apply_verdict_for_stage,
}
use openappsec_attachment.Async.Handler.{dispatch}

-- `HttpReplyFromService`: what the handlers read of it. `creates` tells for each modification whether
-- `create_modification_node` finds the memory for it.
pub record Reply : Type 0 where
  pub verdict : ServiceVerdict
  pub session_id : ℕ
  pub modification_count : ℕ
  pub creates : ℕ → Bool

-- The loop over the modifications: they are added, or one had no memory, or the loop wrote through
-- `current_modification` while it was NULL.
pub data AddedModifications : Type 0 where
  added : List ℕ → AddedModifications
  refused : AddedModifications
  crashed : AddedModifications

-- The rounds left, the index of this one, and whether `current_modification` is set.
unfoldable pub add_modifications : (ℕ → Bool) → ℕ → ℕ → Bool → List ℕ → AddedModifications
add_modifications creates zero i current l = added l
add_modifications creates (suc rounds) i current [] =
    let rest = add_modifications creates rounds (i + 1) true (i ∷ []) in
    if creates i then rest else refused
add_modifications creates (suc rounds) i current (m ∷ ms) =
    let rest = add_modifications creates rounds (i + 1) true ((m ∷ ms) ++ i ∷ []) in
    if not (creates i) then refused else if current then rest else crashed

-- The verdict is noted: a final one ends the inspection, and the first one to wait restarts the
-- deadline.
unfoldable pub note_verdict : Env → ServiceVerdict → Ctx → Ctx
unfolding is_verdict_final cancel_deadline_timer start_deadline_timer
note_verdict env v c0 =
    let c1 = set_verdict v c0 in
    let c = record c1 {
      session = record (c1.session) {
        was_request_fully_inspected =
            if is_verdict_final v then true else c1.session.was_request_fully_inspected;
      };
    } in
    if is_delayed v && not c.first_wait_verdict_encountered
    then start_deadline_timer
        (if ltb env.max_proccessing_ms env.body_stage_timeout
          then env.body_stage_timeout
          else env.max_proccessing_ms)
        (cancel_deadline_timer (record c { first_wait_verdict_encountered = true }))
    else c

-- A custom response replaces the modifications.
unfoldable pub drop_modifications : Reply → Ctx → Ctx
unfolding is_verdict_drop_or_custom
drop_modifications r c =
    if is_verdict_drop_or_custom r.verdict && ltb 0 r.modification_count
    then record c {
      modifications = [];
      session = record (c.session) { remaining_messages_to_reply = 0 };
    }
    else c

abbrev injects : ServiceVerdict → Bool
injects inject = true
injects _ = false

unfoldable pub inject_modifications : Reply → Ctx → AddedModifications
unfolding add_modifications
inject_modifications r c =
    if injects r.verdict && ltb 0 r.modification_count
    then add_modifications r.creates r.modification_count 0 false c.modifications
    else added c.modifications

-- One message less to wait for.
unfoldable pub count_reply : Ctx → Ctx
count_reply c = record c {
  session = record (c.session) {
    remaining_messages_to_reply = c.session.remaining_messages_to_reply - 1;
  };
  req_seq = c.req_seq - 1;
}

-- The stage's verdict was applied: the event handler is called where the result asks for it.
unfoldable pub follow_up : Env → ℕ → Rc × State → State
unfolding dispatch
follow_up env a (ngx_ok, s) = dispatch env a s
follow_up env a (_, s) = s

-- With every message answered, or the body inspected to its end, the stage's verdict is applied, and
-- the event handler called where that asks for it.
unfoldable pub settle_stage : Env → ℕ → State → State
unfolding get_stage_safe apply_verdict_for_stage follow_up
settle_stage env a s =
    if (s.ctx.session.remaining_messages_to_reply == 0)
      || (s.ctx.session.was_request_fully_inspected && is_body (get_stage_safe s.ctx))
    then follow_up env a (apply_verdict_for_stage env s)
    else s

-- From the loop over the modifications on. `none` is the loop's crash.
unfoldable pub answer_added : Env → ℕ → State → AddedModifications → Option (Rc × State)
unfolding count_reply settle_stage
answer_added env a s crashed = none
answer_added env a s refused = some (
  ngx_error,
  settle_stage env a (record s { ctx = count_reply (record (s.ctx) { modifications = [] }) }),
)
answer_added env a s (added l) = some (
  ngx_ok,
  settle_stage env a (record s { ctx = count_reply (record (s.ctx) { modifications = l }) }),
)

abbrev pub is_limit : ServiceVerdict → Bool
is_limit limit_response_headers = true
is_limit _ = false

unfoldable pub apply_verdict : Env → ℕ → Reply → State → Option (Rc × State)
unfolding is_valid note_verdict drop_modifications inject_modifications answer_added
apply_verdict env a r s =
    if not (is_valid s.ctx)
    then some (ngx_error, s)
    else let c = note_verdict env r.verdict s.ctx in
      let c' = drop_modifications r c in
      if is_limit r.verdict
      then some (ngx_ok, record s { ctx = c })
      else answer_added env a (record s { ctx = c' }) (inject_modifications r c')

-- The contexts by address, their table, the chunks that wait for a verdict, and the effects so far.
pub record World : Type 0 where
  pub ctxs : ℕ → Ctx
  pub table : Table
  pub pending : Pending
  pub log : List Effect

-- A verdict whose context is gone, not valid or given up only counts.
abbrev pub orphan : World → World
orphan w = record w { pending = decrement_pending_chunks w.pending }

-- The chunks that the senders count.
unfoldable pub count_chunks : ℕ → ℕ → Pending → Pending
unfolding increment_pending_chunks
count_chunks threshold zero p = p
count_chunks threshold (suc n) p =
    count_chunks threshold n (increment_pending_chunks threshold true p)

abbrev pub set_ctx : (ℕ → Ctx) → ℕ → Ctx → ℕ → Ctx
set_ctx ctxs a c b = if b == a then c else ctxs b

-- The context after its verdict, back in the world: the chunks that the senders counted meanwhile, and
-- then one less.
abbrev pub store_ctx : Env → ℕ → World → Option (Rc × State) → Option World
store_ctx env a w none = none
store_ctx env a w (some (_, s)) = some (record {
  ctxs = set_ctx w.ctxs a s.ctx;
  table = s.table;
  pending =
      decrement_pending_chunks
        (count_chunks env.backpressure_threshold env.chunks_counted w.pending);
  log = s.log;
})

-- The verdict of a session whose context was found.
unfoldable pub drain_found : Env → ℕ → Reply → World → Option World
unfolding is_valid get_flow_error_safe apply_verdict decrement_pending_chunks count_chunks
drain_found env a r w =
    if not (is_valid (w.ctxs a)) || get_flow_error_safe (w.ctxs a)
    then some (orphan w)
    else store_ctx env a w
        (apply_verdict env a r (record { ctx = w.ctxs a; table = w.table; log = w.log }))

abbrev pub is_reconf : ServiceVerdict → Bool
is_reconf reconf = true
is_reconf _ = false

-- A round of the loop of `drain_ipc_queue`: the reply has been received, and is popped.
-- `reset_attachment_config`, on a verdict to reconfigure, reads the settings again.
unfoldable pub drain_one : Env → Reply → World → Option World
unfolding find_ctx drain_found decrement_pending_chunks
drain_one env r w =
    if is_reconf r.verdict
    then some w
    else elim (find_ctx (λ a. (w.ctxs a).session_id) r.session_id w.table) [
      | none ↦ some (orphan w)
      | some a ↦ drain_found env a r w
    ]

-- The replies in the queue, first to last, each received and popped with success. The environment
-- answers each anew.
unfoldable pub drain_ipc_queue : List (Env × Reply) → World → Option World
unfolding drain_one
drain_ipc_queue [] w = some w
drain_ipc_queue ((env, r) ∷ rest) w = elim (drain_one env r w) [
  | none ↦ none
  | some w' ↦ drain_ipc_queue rest w'
]
