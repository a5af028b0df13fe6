-- ===== src/Async/Body.antt =====
-- attachments/nginx/ngx_module/async/ngx_cp_async_body.c, and the queue of saved buffers of
-- ngx_cp_async_core.c: the filter of a request's body, and the resumption of a request.
-- A chain is the list of its buffers, 0 for NULL. The count of references to the request is left out.
pub mod Laws
use openappsec_attachment.Common.{
  ℕ, ◌+◌, Bool, true, false, ◌&&◌, ◌||◌, not, Option, none, some, List, [], ◌∷◌, ◌++◌, ltb, ◌==◌,
  if◌then◌else◌,
}
use openappsec_attachment.Failing.{ServiceVerdict, inspect, accept}
use openappsec_attachment.Async.Types.{
  Rc, ngx_ok, ngx_error, ngx_again, ngx_done, ngx_http_forbidden, Ctx, run_phases, is_valid,
  get_flow_error_safe, start_deadline_timer,
}
use openappsec_attachment.Async.Table.{find_ctx}
use openappsec_attachment.Async.Stages.{State, emit, add_timer, destroy_ctx}

-- What the filter learns from outside: whether the session has data and the mode is still asynchronous,
-- whether the channel is ready, the answers of `ngx_chain_add_copy`, of the next filter, and of the
-- senders for a buffer and for the end, whether a buffer is the last one, and the body's deadline.
pub record BodyEnv : Type 0 where
  pub has_session : Bool
  pub is_async : Bool
  pub ipc_ready : Bool
  pub copies : Bool
  pub next_filter : Rc
  pub send_chunk : ℕ → Rc × ℕ
  pub send_end : Rc × ℕ
  pub last_buf : ℕ → Bool
  pub body_deadline : ℕ

-- A context with its table, and the buffers that the next filter was handed so far.
pub record Body : Type 0 where
  pub state : State
  pub forwarded : List ℕ

abbrev pub hand_on : List ℕ → Body → Body
hand_on bufs b = record b { forwarded = b.forwarded ++ bufs }

abbrev pub with_ctx : Ctx → Body → Body
with_ctx c b = record b { state = record (b.state) { ctx = c } }

abbrev pub is_nil : List ℕ → Bool
is_nil [] = true
is_nil (_ ∷ _) = false

-- `queue_free`
unfoldable pub queue_free : Ctx → Ctx
queue_free c = record c { queue = [] }

unfoldable pub chain_add_copy : Bool → List ℕ → Ctx → Rc × Ctx
chain_add_copy copies bufs c =
    if is_nil bufs
    then (ngx_ok, c)
    else if copies
    then (ngx_ok, record c { queue = c.queue ++ bufs })
    else (ngx_error, c)

-- The context is destroyed.
abbrev pub drop_ctx : ℕ → Body → Body
drop_ctx a b = record b { state = destroy_ctx a b.state }

-- The queue is handed on, and freed whatever the next filter answers.
unfoldable pub flush : Body → Body
unfolding queue_free
flush b = with_ctx (queue_free b.state.ctx) (hand_on b.state.ctx.queue b)

abbrev pub add_messages : ℕ → Ctx → Ctx
add_messages n c = record c {
  req_seq = c.req_seq + n;
  session = record (c.session) {
    remaining_messages_to_reply = c.session.remaining_messages_to_reply + n;
  };
}

abbrev pub no_processing : Ctx → Ctx
no_processing c = record c { session = record (c.session) { async_processing_needed = false } }

-- The buffers were sent, or one of them or the end of the request was not.
pub data Sent : Type 0 where
  sent : Ctx → Sent
  refused_chunk : Ctx → Sent
  refused_end : Ctx → Sent

-- A round of the loop over the buffers.
unfoldable pub send_buffer : BodyEnv → ℕ → Ctx → Sent
send_buffer env buf c = if buf == 0 then sent c else elim (env.send_chunk buf).0 [
  | ngx_ok ↦
      let c' = add_messages (env.send_chunk buf).1 c in
      if not (env.last_buf buf) then sent c' else elim env.send_end.0 [
        | ngx_ok ↦ sent (add_messages env.send_end.1 (record c' { req_seen_last = true }))
        | _ ↦ refused_end c'
      ]
  | _ ↦ refused_chunk c
]

unfoldable pub send_buffers : BodyEnv → List ℕ → Ctx → Sent
unfolding send_buffer
send_buffers env [] c = sent c
send_buffers env (buf ∷ bufs) c = elim (send_buffer env buf c) [
  | sent c' ↦ send_buffers env bufs c'
  | refused_chunk c' ↦ refused_chunk c'
  | refused_end c' ↦ refused_end c'
]

-- A buffer or the end was not sent: what is queued passes uninspected.
unfoldable pub pass_queue : BodyEnv → ℕ → Ctx → Body → Rc × Body
unfolding flush destroy_ctx
pass_queue env a c b =
    if is_nil c.queue
    then (ngx_ok, drop_ctx a (with_ctx c b))
    else (env.next_filter, drop_ctx a (flush (with_ctx c b)))

unfoldable pub finish_buffers : BodyEnv → ℕ → Body → Sent → Rc × Body
unfolding pass_queue start_deadline_timer
finish_buffers env a b (refused_chunk c) =
    pass_queue env a (if is_nil c.queue then c else no_processing c) b
finish_buffers env a b (refused_end c) = pass_queue env a c b
finish_buffers env a b (sent c) =
    if c.req_seen_last
    then (
      ngx_done,
      with_ctx (record (start_deadline_timer env.body_deadline c) { waiting = true }) b,
    )
    else (env.next_filter, b')
  where
    b' : Body
    b' = with_ctx c b

-- The buffers were queued, or could not be copied.
unfoldable pub after_copy : BodyEnv → ℕ → List ℕ → Body → Rc × Ctx → Rc × Body
unfolding queue_free destroy_ctx send_buffers finish_buffers
after_copy env a bufs b (ngx_ok, c) = finish_buffers env a b (send_buffers env bufs c)
after_copy env a bufs b (_, c) = (ngx_error, drop_ctx a (with_ctx (queue_free (no_processing c)) b))

-- The buffers that come in: they are queued, and sent.
unfoldable pub take_buffers : BodyEnv → ℕ → List ℕ → Body → Rc × Body
unfolding chain_add_copy after_copy
take_buffers env a bufs b = after_copy env a bufs b (chain_add_copy env.copies bufs b.state.ctx)

abbrev pub is_inspect : ServiceVerdict → Bool
is_inspect inspect = true
is_inspect _ = false

abbrev is_accept : ServiceVerdict → Bool
is_accept accept = true
is_accept _ = false

-- The filter once the session's context was found.
unfoldable pub filter_found : BodyEnv → ℕ → List ℕ → Body → Rc × Body
unfolding destroy_ctx get_flow_error_safe is_valid flush take_buffers
filter_found env a bufs b =
    let c = b.state.ctx in
    let c' = record c { body_phase_started = true } in
    let b' = with_ctx c' b in
    if not (is_inspect c.session.verdict)
    then (if is_accept c.session.verdict
        then (env.next_filter, hand_on bufs (drop_ctx a b))
        else (ngx_http_forbidden, drop_ctx a b))
    else if get_flow_error_safe c
    then (env.next_filter, hand_on bufs (drop_ctx a b))
    else if is_valid c && c.released && not (is_nil c.queue)
    then (env.next_filter, drop_ctx a (flush b'))
    else if (c.req_seq == 0) && not (is_nil c.queue) && is_nil bufs
    then (env.next_filter, flush b')
    else if is_nil bufs
    then (env.next_filter, b')
    else take_buffers env a bufs b'

-- `ngx_http_cp_req_body_filter_async`; `sid` is the session of the context at an address.
unfoldable pub req_body_filter_async : BodyEnv → (ℕ → ℕ) → List ℕ → Body → Rc × Body
unfolding find_ctx filter_found
req_body_filter_async env sid bufs b =
    let passed = hand_on bufs b in
    if not env.has_session || not env.is_async
    then (env.next_filter, passed)
    else if not env.ipc_ready || not b.state.ctx.session.async_processing_needed
    then (env.next_filter, passed)
    else elim (find_ctx sid b.state.ctx.session_id b.state.table) [
      | none ↦ (env.next_filter, passed)
      | some a ↦ filter_found env a bufs b
    ]

abbrev pub is_again : Rc → Bool
is_again ngx_again = true
is_again _ = false

-- After the queue was handed on: a released request that waits goes on, and its context ends;
-- otherwise its connection is to be read, which is an event of NGINX.
unfoldable pub go_on : ℕ → Body → Body
unfolding destroy_ctx
go_on a b =
    let c = b.state.ctx in
    if c.released && c.waiting
    then (let b' = drop_ctx a (with_ctx (record c { waiting = false }) b) in
        record b' { state = emit run_phases b'.state })
    else b

-- The session's context was found. Where the next filter answers NGX_AGAIN the queue is kept, and the event
-- is set again.
unfoldable pub resume_found : BodyEnv → ℕ → Body → Body
unfolding flush go_on
resume_found env a b =
    let c = b.state.ctx in
    if is_nil c.queue
    then go_on a b
    else if is_again env.next_filter
    then with_ctx (record c { resume_event = add_timer 50 c.resume_event }) b
    else go_on a (flush b)

-- `cp_async_posted_resume`
unfoldable pub posted_resume : BodyEnv → (ℕ → ℕ) → Body → Body
unfolding find_ctx resume_found
posted_resume env sid b =
    if not env.has_session then b else elim (find_ctx sid b.state.ctx.session_id b.state.table) [
      | none ↦ b
      | some a ↦ resume_found env a b
    ]

-- `cp_async_resume_event_handler`
unfoldable pub resume_event_handler : BodyEnv → (ℕ → ℕ) → Body → Body
unfolding is_valid posted_resume
resume_event_handler env sid b =
    if not b.state.ctx.resume_event.data_set || not (is_valid b.state.ctx)
    then b
    else posted_resume env sid b
