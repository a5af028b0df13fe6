-- ===== src/Failing/Laws.antt =====
-- attachments/nginx/ngx_module/ngx_cp_failing_state.c: the states of failure, and the periods without
-- inspection.
use openappsec_attachment.Common.{
  Option-cases, inl, inr, ℕ, ◌+◌, ◌≤◌, ◌<◌, ◌≡◌, ◌≢◌, ◌⊎◌, refl, Bool, true, false, Option, none,
  some, arith, u64, ◌==◌, ◌&&◌, not, if◌then◌else◌,
}
use openappsec_attachment.Failing.{
  Failing, TimeVal, Session, inspect, accept, drop, timer_lt, handle_inspection_failure,
  is_in_transparent_mode,
}

-- `failed_sessions_monitor` is read inside its bounds.
abbrev pub IsInTable : Failing → Type 0
IsInTable f = f.current_fail_state ≤ 2

-- From a state of the array, a failure that reads nothing past it ends in one too; the session was
-- inspected and gets the verdict of the fail mode, or it was not and nothing changes.
pub failure_result :
    (now : TimeVal) (weight : ℕ) (is_open : Bool) (s s' : Session) (f f' : Failing)
    → IsInTable f
    → handle_inspection_failure now weight is_open s f ≡ some (s', f')
    → IsInTable f'
      × (((s.verdict ≡ inspect) × (s'.verdict ≡ (if is_open then accept else drop)))
          ⊎ ((s.verdict ≢ inspect) × (s' ≡ s) × (f' ≡ f)))
unfolding handle_inspection_failure
failure_result now weight is_open s s' f f' h e = ground arith

-- Below the last state no failure reads past the array.
pub failure_ne_none :
    (now : TimeVal) (weight : ℕ) (is_open : Bool) (s : Session) (f : Failing)
    → f.current_fail_state < 2
    → handle_inspection_failure now weight is_open s f ≢ none
unfolding handle_inspection_failure
failure_ne_none now weight is_open s f h = ground arith

-- What a failure leads to: a state of the array, and the verdict of the fail mode where the session was
-- inspected, or no change.
abbrev pub IsHandled : Bool → Session → Failing → Session → Failing → Type 0
IsHandled is_open s f s' f' =
    IsInTable f'
    × (((s.verdict ≡ inspect) × (s'.verdict ≡ (if is_open then accept else drop)))
        ⊎ ((s.verdict ≢ inspect) × (s' ≡ s) × (f' ≡ f)))

-- Below the last state, a failure reads nothing past the array and ends, in a state of the array; the
-- session was inspected and gets the verdict of the fail mode, or it was not and nothing changes.
pub failure_ends :
    (now : TimeVal) (weight : ℕ) (is_open : Bool) (s : Session) (f : Failing)
    → f.current_fail_state < 2
    → (s' : Session) × (f' : Failing) × (handle_inspection_failure now weight is_open s f
        ≡ some (s', f'))
      × IsHandled is_open s f s' f'
failure_ends now weight is_open s f below =
    elim (Option-cases (handle_inspection_failure now weight is_open s f)) [
      | inl stuck ↦ absurd (failure_ne_none now weight is_open s f below stuck)
      | inr ((s', f'), e) ↦
          (s', f', e, failure_result now weight is_open s s' f f' (omega (arith, below)) e)
    ]

-- In the last state, a failure of an inspected session past the limit inside its interval reads past
-- the array.
pub failure_overruns :
    (now : TimeVal) (weight : ℕ) (is_open : Bool) (s : Session) (f : Failing)
    → f.current_fail_state ≡ 2
    → s.verdict ≡ inspect
    → timer_lt f.failing_interval now ≡ false
    → f.max_allowed_failed_requests < u64 (f.current_failed_requests + weight)
    → handle_inspection_failure now weight is_open s f ≡ none
unfolding handle_inspection_failure
failure_overruns now weight is_open s f a b c d = ground arith

-- The seconds without inspection that a state starts.
abbrev pub period : Failing → ℕ
period f = if f.current_fail_state == 0 then 60 else 300

-- What `is_in_transparent_mode` answers while a period lasts, and after it.
abbrev pub Answers : Bool → Failing → Option (Bool × Failing) → Type 0
Answers passes f none = ⊥
Answers passes f (some (answer, f')) =
    (answer ≡ passes)
    × (f'.is_transparent_mode_active ≡ passes)
    × (f'.current_fail_state ≡ f.current_fail_state)
    × ((passes ≡ true) ⊎ (f'.current_failed_requests ≡ 0))

-- In a state of the array, a request passes uninspected exactly while a period is active and not over;
-- the period is then active exactly when the request passed, the state is the same, and where the
-- request did not pass no failure is counted.
pub transparent_iff :
    (now : TimeVal) (f : Failing)
    → IsInTable f
    → Answers
        (f.is_transparent_mode_active && not (timer_lt f.transparent_interval now))
        f
        (is_in_transparent_mode now f)
unfolding is_in_transparent_mode
transparent_iff now f h = ground arith

failure_escalates :
    (now : TimeVal) (weight : ℕ) (is_open : Bool) (s s' : Session) (f f' : Failing)
    → f.current_fail_state < 2
    → s.verdict ≡ inspect
    → timer_lt f.failing_interval now ≡ false
    → f.max_allowed_failed_requests < u64 (f.current_failed_requests + weight)
    → handle_inspection_failure now weight is_open s f ≡ some (s', f')
    → (f'.current_fail_state ≡ f.current_fail_state + 1)
      × (f'.is_transparent_mode_active ≡ true)
      × (f'.transparent_interval.tv_sec ≡ now.tv_sec + period f)
      × (f'.transparent_interval.tv_usec ≡ now.tv_usec)
unfolding handle_inspection_failure
failure_escalates now weight is_open s s' f f' h a b c e = ground arith

over :
    (f : Failing) (t later : TimeVal)
    → f.is_transparent_mode_active ≡ true
    → f.transparent_interval.tv_sec ≡ t.tv_sec
    → f.transparent_interval.tv_usec ≡ t.tv_usec
    → (f.is_transparent_mode_active && not (timer_lt f.transparent_interval later))
      ≡ not (timer_lt t later)
over f t later a b c = rw (a, b, c) refl

-- Below the last state, a failure of an inspected session past the limit inside its interval takes the
-- state one up and starts a period, of 60 seconds from the first state and of 300 from the second: at
-- any other time a request passes uninspected exactly when that time is at most the period's length
-- past the failure's.
pub failure_period :
    (now later : TimeVal) (weight : ℕ) (is_open : Bool) (s s' : Session) (f f' : Failing)
    → f.current_fail_state < 2
    → s.verdict ≡ inspect
    → timer_lt f.failing_interval now ≡ false
    → f.max_allowed_failed_requests < u64 (f.current_failed_requests + weight)
    → handle_inspection_failure now weight is_open s f ≡ some (s', f')
    → (f'.current_fail_state ≡ f.current_fail_state + 1)
      × Answers
          (not (timer_lt (record now { tv_sec = now.tv_sec + period f }) later))
          f'
          (is_in_transparent_mode later f')
failure_period now later weight is_open s s' f f' h a b c e =
    let (up, on, sec, usec) = failure_escalates now weight is_open s s' f f' h a b c e in
    (
      up,
      rw (over f' (record now { tv_sec = now.tv_sec + period f }) later on sec usec) at
          (transparent_iff later f' (omega arith)),
    )
