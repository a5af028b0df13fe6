-- ===== src/Async/Handler/Total.antt =====
-- attachments/nginx/ngx_module/async/ngx_cp_async_core.c: the event handler and the processing of a
-- stage call each other at most twice.
use openappsec_attachment.Common.{
  ℕ, suc, ◌≡◌, ◌≢◌, refl, ◌∙◌, Bool, true, false, Option, none, some, arith,
}
use openappsec_attachment.Async.Types.{
  Stage, wait_header_verdict, wait_end_verdict, wait_body_verdict, Ctx, Env, is_valid,
}
use openappsec_attachment.Async.Stages.{State, transition_after_wait, is_delayed}
use openappsec_attachment.Async.Handler.{
  continue_processing, handle_wait_verdict, give_up_waiting, yield_after, event_handler, dispatch,
}

-- The stage is not one of the three whose processing calls the event handler.
abbrev pub is_awake : Stage → Bool
is_awake wait_header_verdict = false
is_awake wait_end_verdict = false
is_awake wait_body_verdict = false
is_awake _ = true

-- Two handlers that end, and do the same, where the stage does not wait.
abbrev Agree : (State → Option State) → (State → Option State) → Type 0
Agree h h' = (s : State) → is_awake s.ctx.stage ≡ true → (h s ≡ h' s) × (h s ≢ none)

continue_awake :
    (env : Env) (h h' : State → Option State) (s : State)
    → is_awake s.ctx.stage ≡ true
    → (continue_processing env h s ≡ continue_processing env h' s)
      × (continue_processing env h s ≢ none)
unfolding continue_processing
continue_awake env h h' s awake = ground arith

give_up_awake : (env : Env) (s : State) → is_awake (give_up_waiting env s).ctx.stage ≡ true
unfolding give_up_waiting
give_up_awake env s = refl

transition_awake :
    (c : Ctx)
    → is_valid c ≡ true
    → c.flow_error ≡ false
    → is_delayed c.session.verdict ≡ false
    → is_awake (transition_after_wait c).stage ≡ true
unfolding transition_after_wait is_valid
transition_awake c valid sound settled = ground (arith, valid, sound, settled)

yield_agree :
    (h h' : State → Option State) (s : State)
    → (h s ≡ h' s) × (h s ≢ none)
    → (yield_after h s ≡ yield_after h' s) × (yield_after h s ≢ none)
yield_agree h h' s e = ground (arith, e)

wait-Agree :
    (env : Env) (h h' : State → Option State) (s : State)
    → Agree h h'
    → (handle_wait_verdict env h s ≡ handle_wait_verdict env h' s)
      × (handle_wait_verdict env h s ≢ none)
unfolding handle_wait_verdict
wait-Agree env h h' s agree =
    let s' : State = record s { ctx = transition_after_wait s.ctx } in
    let up =
      yield_agree h h' (give_up_waiting env s)
        (agree (give_up_waiting env s) (give_up_awake env s)) in
    let on : is_valid s.ctx ≡ true
        → s.ctx.flow_error ≡ false
        → is_delayed s.ctx.session.verdict ≡ false
        → (yield_after h s' ≡ yield_after h' s') × (yield_after h s' ≢ none) =
      λ a b c. yield_agree h h' s' (agree s' (transition_awake s.ctx a b c)) in
    ground (arith, up, on)

continue-Agree :
    (env : Env) (h h' : State → Option State) (s : State)
    → Agree h h'
    → (continue_processing env h s ≡ continue_processing env h' s)
      × (continue_processing env h s ≢ none)
unfolding continue_processing
continue-Agree env h h' s agree = ground (arith, wait-Agree env h h' s agree)

-- One call of the event handler, with handlers that agree for the calls inside.
event_step :
    (env : Env) (a f f' : ℕ) (s : State)
    → (continue_processing env (event_handler f env a) s
        ≡ continue_processing env (event_handler f' env a) s)
      × (continue_processing env (event_handler f env a) s ≢ none)
    → (event_handler (suc f) env a s ≡ event_handler (suc f') env a s)
      × (event_handler (suc f) env a s ≢ none)
unfolding event_handler
event_step env a f f' s e = ground (arith, e)

event_awake :
    (env : Env) (a f f' : ℕ) → Agree (event_handler (suc f) env a) (event_handler (suc f') env a)
event_awake env a f f' s awake =
    event_step env a f f' s
      (continue_awake env (event_handler f env a) (event_handler f' env a) s awake)

event_any :
    (env : Env) (a f : ℕ) (s : State)
    → (event_handler (suc (suc f)) env a s ≡ event_handler 2 env a s)
      × (event_handler (suc (suc f)) env a s ≢ none)
event_any env a f s = event_step env a (suc f) 1 s (
    continue-Agree env (event_handler (suc f) env a) (event_handler 1 env a) s
      (event_awake env a f 0))

some_or {ℓ} :
    {A : Type ℓ} (d : A) (o : Option A) → o ≢ none → o ≡ some (elim o [ none ↦ d | some x ↦ x ])
some_or d none ne = absurd (ne refl)
some_or d (some x) ne = refl

dispatch_lem : (env : Env) (a : ℕ) (s : State) → event_handler 2 env a s ≡ some (dispatch env a s)
unfolding dispatch
dispatch_lem env a s = some_or s (event_handler 2 env a s) (event_any env a 0 s).1

-- Whatever the context, with fuel of two or more the event handler ends, always with the same
-- outcome, that of `dispatch`.
pub event_handler_total :
    (env : Env) (a fuel : ℕ) (s : State)
    → event_handler (suc (suc fuel)) env a s ≡ some (dispatch env a s)
event_handler_total env a fuel s = (event_any env a fuel s).0 ∙ dispatch_lem env a s

-- With fuel of one or more for the event handler inside, the processing of a stage ends, always with
-- the same outcome.
pub continue_processing_total :
    (env : Env) (a fuel : ℕ) (s : State)
    → (continue_processing env (event_handler (suc fuel) env a) s ≢ none)
      × (continue_processing env (event_handler (suc fuel) env a) s
          ≡ continue_processing env (event_handler 2 env a) s)
continue_processing_total env a fuel s =
    let (same, ends) =
      continue-Agree env (event_handler (suc fuel) env a) (event_handler 2 env a) s
        (event_awake env a fuel 1) in
    (ends, same)
