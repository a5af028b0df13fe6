-- ===== src/Async/Handler/Once.antt =====
-- attachments/nginx/ngx_module/async/ngx_cp_async_core.c: the functions that set a stage make one move.
use openappsec_attachment.Common.{ℕ, ◌≡◌, refl, Bool, Option, none, some, arith, ◌⊎◌, inl, inr}
use openappsec_attachment.Async.Types.{
  Stage, init, meta_data, wait_header_verdict, wait_end_verdict, wait_body_verdict, body, counted,
  Rc, Ctx, Env, is_valid,
}
use openappsec_attachment.Async.Stages.{State, apply_verdict_for_stage, transition_after_wait}
use openappsec_attachment.Async.Stages.Legal.{Step, Moved, apply_moves, transition_moves, completes}
use openappsec_attachment.Async.Handler.{continue_processing, handle_wait_verdict, give_up_waiting}
use openappsec_attachment.Async.Handler.Timers.{
  force_completion, abandon, start_agent_communication,
}
use openappsec_attachment.Async.Handler.Moves.{
  awake_moves, wait_cases, IsWaiting, body_moves, give_up_stage, continue_waits, awake_or_IsWaiting,
  abandon_moves,
}

-- The processing makes at most one move itself, or one and then hands over to the event handler.
abbrev pub MovesOnce : (State → Option State) → State → State → Type 0
MovesOnce h s s' =
    Moved s.ctx.stage s'.ctx.stage
    ⊎ ((t : State) × (Moved s.ctx.stage t.ctx.stage × (h t ≡ some s')))

wait-MovesOnce :
    (env : Env) (h : State → Option State) (s : State) (rc : Rc) (s' : State)
    → IsWaiting s.ctx.stage
    → handle_wait_verdict env h s ≡ some (rc, s')
    → MovesOnce h s s'
wait-MovesOnce env h s rc s' w e = elim (wait_cases env h s rc s' e) [
  | inl same ↦ inl (inl same)
  | inr (inl up) ↦
      inr (give_up_waiting env s, (rw (give_up_stage env s) (body_moves s.ctx.stage w), up))
  | inr (inr on) ↦
      inr (record s { ctx = transition_after_wait s.ctx }, (transition_moves s.ctx, on))
]

continue-MovesOnce :
    (env : Env) (h : State → Option State) (s : State) (rc : Rc) (s' : State)
    → continue_processing env h s ≡ some (rc, s')
    → MovesOnce h s s'
continue-MovesOnce env h s rc s' e = elim (awake_or_IsWaiting s.ctx.stage) [
  | inl awake ↦ inl (awake_moves env h s rc s' awake e)
  | inr w ↦ elim (continue_waits env h s rc s' w e) [
    | inl same ↦ inl (inl same)
    | inr waits ↦ wait-MovesOnce env h s rc s' w waits
  ]
]

-- The start of the communication ends, and leaves a context at its meta data.
abbrev pub IsStarted : Option (Rc × State) → Type 0
IsStarted none = ⊥
IsStarted (some (rc, s)) = s.ctx.stage ≡ meta_data

start-IsStarted :
    (corrupted : Bool) (env : Env) (a : ℕ) (s : State)
    → IsStarted (start_agent_communication corrupted env a s)
unfolding start_agent_communication continue_processing
start-IsStarted corrupted env a s = ground arith

force_moves : (b : Bool) (c : Ctx) → Moved c.stage (force_completion b c).stage
unfolding openappsec_attachment.Async.Types.stage_transition
force_moves b c = completes c.stage

-- Each function that sets the stage of a context makes at most one move, and that a legal one: the
-- processing of a stage, where it ends, which makes it itself or hands the context over to the event
-- handler after it; the verdict that is applied for a stage; the end of a wait; the completion at a
-- deadline or cleanup; and the release. The start of the communication ends with the context at its meta
-- data, which is the legal move from the first stage.
pub stages_move_once :
    (corrupted b : Bool) (env : Env) (h : State → Option State) (a : ℕ) (s : State) (rc : Rc)
    (s' : State)
    → continue_processing env h s ≡ some (rc, s')
    → MovesOnce h s s'
      × Moved s.ctx.stage (apply_verdict_for_stage env s).1.ctx.stage
      × Moved s.ctx.stage (transition_after_wait s.ctx).stage
      × Moved s.ctx.stage (force_completion b s.ctx).stage
      × Moved s.ctx.stage (abandon env s.ctx).stage
      × IsStarted (start_agent_communication corrupted env a s)
      × Step init meta_data
stages_move_once corrupted b env h a s rc s' e = (
  continue-MovesOnce env h s rc s' e,
  apply_moves env s,
  transition_moves s.ctx,
  force_moves b s.ctx,
  abandon_moves env s.ctx,
  start-IsStarted corrupted env a s,
  inl refl,
)
