-- ===== src/Async/Handler/Moves.antt =====
-- attachments/nginx/ngx_module/async/ngx_cp_async_core.c: the moves that the handlers make.
use openappsec_attachment.Common.{
  if_case, ℕ, zero, suc, ◌≡◌, refl, sym, Bool, true, false, Option, none, some, arith, ◌⊎◌, inl,
  inr, Option-cases, not, ◌||◌, if◌then◌else◌,
}
use mathlib.Core.Option.{none-ne-some, some-injective}
use openappsec_attachment.Metric.{req_header_thread_timeout}
use openappsec_attachment.Async.Types.{
  Stage, wait_header_verdict, wait_end_verdict, wait_body_verdict, body, counted, Rc, Ctx, Env,
  is_valid,
}
use openappsec_attachment.Async.Stages.{State, destroy_ctx, emit, transition_after_wait}
use openappsec_attachment.Async.Stages.Legal.{
  Moved, Reaches, here, Moved→Reaches, transition_moves, completes,
}
use openappsec_attachment.Async.Handler.{
  continue_processing, handle_wait_verdict, give_up_waiting, finish_event, event_handler, dispatch,
}
use openappsec_attachment.Async.Handler.Timers.{
  force_completion, deadline_mode, deadline_handler, context_cleanup_handler, release_ctx, abandon,
}
use openappsec_attachment.Async.Handler.Total.{is_awake, event_handler_total}

finish_stage :
    (a : ℕ) (st : Stage) (rc : Rc) (s : State) → (finish_event a st rc s).ctx.stage ≡ s.ctx.stage
unfolding finish_event
finish_stage a st rc s = ground arith

-- A handler reaches its result from the stage it found.
abbrev Reaching : (State → Option State) → Type 0
Reaching h = (s s' : State) → h s ≡ some s' → Reaches s.ctx.stage s'.ctx.stage

pub awake_moves :
    (env : Env) (h : State → Option State) (s : State) (rc : Rc) (s' : State)
    → is_awake s.ctx.stage ≡ true
    → continue_processing env h s ≡ some (rc, s')
    → Moved s.ctx.stage s'.ctx.stage
unfolding continue_processing
awake_moves env h s rc s' awake e = ground (arith, e)

-- Where a wait hands over: nowhere, or to the handler, after the wait was given up or was over.
pub wait_cases :
    (env : Env) (h : State → Option State) (s : State) (rc : Rc) (s' : State)
    → handle_wait_verdict env h s ≡ some (rc, s')
    → (s'.ctx.stage ≡ s.ctx.stage)
      ⊎ ((h (give_up_waiting env s) ≡ some s')
          ⊎ (h (record s { ctx = transition_after_wait s.ctx }) ≡ some s'))
unfolding handle_wait_verdict
wait_cases env h s rc s' e = ground (arith, e)

abbrev pub IsWaiting : Stage → Type 0
IsWaiting st = (st ≡ wait_header_verdict) ⊎ ((st ≡ wait_end_verdict) ⊎ (st ≡ wait_body_verdict))

pub body_moves : (st : Stage) → IsWaiting st → Moved st body
body_moves st w = ground (arith, w)

pub give_up_stage : (env : Env) (s : State) → (give_up_waiting env s).ctx.stage ≡ body
unfolding give_up_waiting
give_up_stage env s = refl

wait-Reaches :
    (env : Env) (h : State → Option State) (s : State) (rc : Rc) (s' : State)
    → Reaching h
    → IsWaiting s.ctx.stage
    → handle_wait_verdict env h s ≡ some (rc, s')
    → Reaches s.ctx.stage s'.ctx.stage
wait-Reaches env h s rc s' below w e = elim (wait_cases env h s rc s' e) [
  | inl same ↦ rw same here
  | inr (inl up) ↦
      Moved→Reaches (body_moves s.ctx.stage w)
        (rw (give_up_stage env s) at (below (give_up_waiting env s) s' up))
  | inr (inr on) ↦
      Moved→Reaches (transition_moves s.ctx)
        (below (record s { ctx = transition_after_wait s.ctx }) s' on)
]

pub continue_waits :
    (env : Env) (h : State → Option State) (s : State) (rc : Rc) (s' : State)
    → IsWaiting s.ctx.stage
    → continue_processing env h s ≡ some (rc, s')
    → (s'.ctx.stage ≡ s.ctx.stage) ⊎ (handle_wait_verdict env h s ≡ some (rc, s'))
unfolding continue_processing
continue_waits env h s rc s' w e = ground (arith, e)

pub awake_or_IsWaiting : (st : Stage) → (is_awake st ≡ true) ⊎ IsWaiting st
awake_or_IsWaiting st = ground arith

continue-Reaches :
    (env : Env) (h : State → Option State) (s : State) (rc : Rc) (s' : State)
    → Reaching h
    → continue_processing env h s ≡ some (rc, s')
    → Reaches s.ctx.stage s'.ctx.stage
continue-Reaches env h s rc s' below e = elim (awake_or_IsWaiting s.ctx.stage) [
  | inl awake ↦ Moved→Reaches (awake_moves env h s rc s' awake e) here
  | inr w ↦ elim (continue_waits env h s rc s' w e) [
    | inl same ↦ rw same here
    | inr waits ↦ wait-Reaches env h s rc s' below w waits
  ]
]

picked :
    (b : Bool) (o : Option (Rc × State)) (f : Rc → State → State) (s s' : State) (rc : Rc)
    (t : State)
    → o ≡ some (rc, t)
    → (if b then some s else elim o [ none ↦ none | some (rc, t) ↦ some (f rc t) ]) ≡ some s'
    → (s ≡ s') ⊎ (f rc t ≡ s')
picked true o f s s' rc t go e = inl (some-injective _ _ e)
picked false o f s s' rc t go e =
    let e' : some (f rc t) ≡ some s' = rw go at e in inr (some-injective _ _ e')

-- One call of the event handler, after a processing that ended in `t`.
event_stage :
    (f : ℕ) (env : Env) (a : ℕ) (s s' : State) (rc : Rc) (t : State)
    → continue_processing env (event_handler f env a) s ≡ some (rc, t)
    → event_handler (suc f) env a s ≡ some s'
    → (s'.ctx.stage ≡ s.ctx.stage) ⊎ (s'.ctx.stage ≡ t.ctx.stage)
unfolding event_handler
event_stage f env a s s' rc t go e =
    let b = not s.ctx.agent_event.data_set || not (is_valid s.ctx) in
    elim (picked b (continue_processing env (event_handler f env a) s) (finish_event a s.ctx.stage)
      s s' rc t go e) [
        | inl same ↦ inl (rw same refl)
        | inr fin ↦ inr (rw (sym fin) (finish_stage a s.ctx.stage rc t))
      ]

event_stuck :
    (f : ℕ) (env : Env) (a : ℕ) (s s' : State)
    → continue_processing env (event_handler f env a) s ≡ none
    → event_handler (suc f) env a s ≡ some s'
    → s'.ctx.stage ≡ s.ctx.stage
unfolding event_handler
event_stuck f env a s s' stuck e = ground (arith, stuck, e)

event_reaches : (f : ℕ) (env : Env) (a : ℕ) → Reaching (event_handler f env a)
unfolding event_handler
event_reaches zero env a s s' e = absurd (none-ne-some _ e)
event_reaches (suc f) env a s s' e =
    elim (Option-cases (continue_processing env (event_handler f env a) s)) [
      | inl stuck ↦ rw (event_stuck f env a s s' stuck e) here
      | inr ((rc, t), go) ↦
          let on = continue-Reaches env (event_handler f env a) s rc t (event_reaches f env a) go in
          elim (event_stage f env a s s' rc t go e) [
            | inl same ↦ rw same here
            | inr same ↦ rw same on
          ]
    ]

-- Whatever the event handler does, the stage it leaves is reached by moves from the stage it found.
pub dispatch-Reaches :
    (env : Env) (a : ℕ) (s : State) → Reaches s.ctx.stage (dispatch env a s).ctx.stage
dispatch-Reaches env a s =
    event_reaches 2 env a s (dispatch env a s) (event_handler_total env a 0 s)

after_dispatch :
    (env : Env) (a : ℕ) (st : Stage) (s : State)
    → Moved st s.ctx.stage
    → Reaches st (dispatch env a s).ctx.stage
after_dispatch env a st s m = Moved→Reaches m (dispatch-Reaches env a s)

-- The handler of the deadline leaves the context where moves lead from the stage it found.
pub deadline-Reaches :
    (env : Env) (a : ℕ) (s : State) → Reaches s.ctx.stage (deadline_handler env a s).ctx.stage
unfolding deadline_handler
deadline-Reaches env a s =
    let stays : Reaches s.ctx.stage s.ctx.stage = here in
    let t : State =
      emit (counted req_header_thread_timeout)
        (record s { ctx = force_completion (deadline_mode env s.ctx.stage) s.ctx }) in
    let goes : Reaches s.ctx.stage (dispatch env a t).ctx.stage =
      after_dispatch env a s.ctx.stage t (completes s.ctx.stage) in
    ground (arith, stays, goes)

-- So does the handler of the cleanup.
pub cleanup-Reaches :
    (env : Env) (a : ℕ) (s : State)
    → Reaches s.ctx.stage (context_cleanup_handler env a s).ctx.stage
unfolding context_cleanup_handler
cleanup-Reaches env a s =
    let stays : Reaches s.ctx.stage s.ctx.stage = here in
    let t : State = record s {
      ctx = force_completion env.fail_open (record (s.ctx) { flow_error = true });
    } in
    let goes = after_dispatch env a s.ctx.stage t (completes s.ctx.stage) in
    ground (arith, stays, goes)

pub abandon_moves : (env : Env) (c : Ctx) → Moved c.stage (abandon env c).stage
unfolding abandon
abandon_moves env c = ground arith

-- So does the release of a context when the module is cleaned up.
pub release-Reaches :
    (env : Env) (a : ℕ) (s : State) → Reaches s.ctx.stage (release_ctx env a s).ctx.stage
unfolding release_ctx destroy_ctx
release-Reaches env a s =
    let stays : Reaches s.ctx.stage (destroy_ctx a s).ctx.stage = here in
    let goes =
      after_dispatch env a s.ctx.stage (record s { ctx = abandon env s.ctx })
        (abandon_moves env s.ctx) in
    if_case (λ (t : State). Reaches s.ctx.stage t.ctx.stage) (not (is_valid s.ctx)) stays goes
