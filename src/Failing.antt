-- ===== src/Failing.antt =====
-- attachments/nginx/ngx_module/ngx_cp_failing_state.c: how failures of the inspection lead to periods in
-- which traffic passes uninspected, each longer than the one before. The times are those of
-- attachments/nginx/ngx_module/ngx_cp_utils.c.
-- The clock is an argument: the time that `getCurrTimeFast` returns. The metrics are those of
-- attachments/nginx/ngx_module/ngx_cp_metric.c, whose code is that of the nano attachment's metrics.
pub mod Laws
use openappsec_attachment.Common.{
  ℕ, zero, suc, ◌+◌, ◌*◌, ◌-◌, Bool, true, false, ◌&&◌, ◌||◌, not, Option, none, some, ltb, leb,
  ◌==◌, u64, if◌then◌else◌,
}
use openappsec_attachment.Metric.{
  Metrics, update_metric_field, total_transparents_time, inspection_open_failures_count,
  inspection_close_failures_count, inspection_successes_count,
  average_overall_pprocessing_time_until_verdict, max_overall_pprocessing_time_until_verdict,
  min_overall_pprocessing_time_until_verdict, average_req_pprocessing_time_until_verdict,
  max_req_pprocessing_time_until_verdict, min_req_pprocessing_time_until_verdict,
  average_res_pprocessing_time_until_verdict, max_res_pprocessing_time_until_verdict,
  min_res_pprocessing_time_until_verdict,
}

-- `struct timeval`.
pub record TimeVal : Type 0 where
  pub tv_sec : ℕ
  pub tv_usec : ℕ

-- `timercmp(a, b, <)`.
abbrev pub timer_lt : TimeVal → TimeVal → Bool
timer_lt a b = if a.tv_sec == b.tv_sec then ltb a.tv_usec b.tv_usec else ltb a.tv_sec b.tv_sec

unfoldable pub is_timeout_reached : TimeVal → TimeVal → Bool
is_timeout_reached now timeout = timer_lt timeout now

unfoldable pub get_timeout_val_sec : TimeVal → ℕ → TimeVal
get_timeout_val_sec now delta = record now { tv_sec = now.tv_sec + delta }

-- `failure_state`, and the array of three; `none` is a read past its end.
pub record FailureState : Type 0 where
  pub max_allowed_failed_requests : ℕ
  pub failing_interval_boundry : ℕ
  pub transparent_period_sec : ℕ

abbrev pub failed_sessions_monitor : ℕ → Option FailureState
failed_sessions_monitor i =
    if i == 0
    then some (monitor 60)
    else if i == 1
    then some (monitor 300)
    else if i == 2
    then some (monitor 600)
    else none
  where
    monitor : ℕ → FailureState
    monitor period = record {
      max_allowed_failed_requests = 5;
      failing_interval_boundry = 20;
      transparent_period_sec = period;
    }

abbrev pub failed_sessions_monitor_length : ℕ
failed_sessions_monitor_length = 3

-- `ngx_http_cp_periodic_failure` and the other static variables, that of `is_in_transparent_mode`
-- included.
pub record Failing : Type 0 where
  pub max_allowed_failed_requests : ℕ
  pub current_failed_requests : ℕ
  pub is_transparent_mode_active : Bool
  pub transparent_interval_boundry : ℕ
  pub transparent_interval : TimeVal
  pub failing_interval : TimeVal
  pub current_fail_state : ℕ
  pub should_update_timeout : ℕ
  pub transparent_mode_reported : Bool
  pub metrics : Metrics

-- `TRAFFIC_VERDICT_…`.
pub data ServiceVerdict : Type 0 where
  inspect accept drop inject irrelevant reconf delayed : ServiceVerdict
  limit_response_headers custom_response : ServiceVerdict

-- What the code reads and writes of the session: its verdict and the three times to report, as the
-- whole numbers that the conversion of a `double` to `uint64_t` gives. The first of them is the
-- difference of two clock readings.
pub record Session : Type 0 where
  pub verdict : ServiceVerdict
  pub overall_process_time : ℕ
  pub req_proccesing_time : ℕ
  pub res_proccesing_time : ℕ

-- The static initialisation.
unfoldable pub initial : Metrics → Failing
initial m = record {
  max_allowed_failed_requests = 0;
  current_failed_requests = 0;
  is_transparent_mode_active = false;
  transparent_interval_boundry = 0;
  transparent_interval = record { tv_sec = 0; tv_usec = 0 };
  failing_interval = record { tv_sec = 0; tv_usec = 0 };
  current_fail_state = 0;
  should_update_timeout = 0;
  transparent_mode_reported = false;
  metrics = m;
}

unfoldable pub reset_failure_state : TimeVal → Failing → Option Failing
unfolding get_timeout_val_sec
reset_failure_state now f = elim (failed_sessions_monitor f.current_fail_state) [
  | none ↦ none
  | some s ↦ some (record f {
    max_allowed_failed_requests = s.max_allowed_failed_requests;
    failing_interval = get_timeout_val_sec now s.failing_interval_boundry;
  })
]

unfoldable pub is_in_transparent_mode : TimeVal → Failing → Option (Bool × Failing)
unfolding is_timeout_reached reset_failure_state
is_in_transparent_mode now f =
    if f.is_transparent_mode_active && not (is_timeout_reached now f.transparent_interval)
    then some (
      true,
      record f {
        transparent_mode_reported = true;
        metrics =
            if f.transparent_mode_reported
            then f.metrics
            else update_metric_field total_transparents_time f.transparent_interval_boundry
                f.metrics;
      },
    )
    else elim (reset_failure_state now (record f {
      transparent_mode_reported = false;
      is_transparent_mode_active = false;
      current_failed_requests = 0;
    })) [ none ↦ none | some f' ↦ some (false, f') ]

-- The entry read is the first of the array.
unfoldable pub reset_transparent_mode : TimeVal → Failing → Failing
unfolding get_timeout_val_sec
reset_transparent_mode now f = record f {
  max_allowed_failed_requests = 5;
  current_failed_requests = 0;
  is_transparent_mode_active = false;
  transparent_interval_boundry = 60;
  transparent_interval = record { tv_sec = 0; tv_usec = 0 };
  failing_interval = get_timeout_val_sec now 20;
  current_fail_state = 0;
  should_update_timeout = 0;
}

unfoldable pub activate_transparent_mode : TimeVal → Failing → Option Failing
unfolding get_timeout_val_sec
activate_transparent_mode now f = elim (failed_sessions_monitor f.current_fail_state) [
  | none ↦ none
  | some s ↦ some (record f {
    is_transparent_mode_active = true;
    transparent_interval = get_timeout_val_sec now s.transparent_period_sec;
    transparent_interval_boundry = s.transparent_period_sec;
  })
]

unfoldable pub report_time_metrics : Session → Metrics → Metrics
report_time_metrics s m0 =
    let m1 =
      update_metric_field average_overall_pprocessing_time_until_verdict s.overall_process_time
        m0 in
    let m2 =
      update_metric_field max_overall_pprocessing_time_until_verdict s.overall_process_time m1 in
    let m3 =
      update_metric_field min_overall_pprocessing_time_until_verdict s.overall_process_time m2 in
    let m4 =
      update_metric_field average_req_pprocessing_time_until_verdict s.req_proccesing_time m3 in
    let m5 = update_metric_field max_req_pprocessing_time_until_verdict s.req_proccesing_time m4 in
    let m6 = update_metric_field min_req_pprocessing_time_until_verdict s.req_proccesing_time m5 in
    let m7 =
      update_metric_field average_res_pprocessing_time_until_verdict s.res_proccesing_time m6 in
    let m8 = update_metric_field max_res_pprocessing_time_until_verdict s.res_proccesing_time m7 in
    update_metric_field min_res_pprocessing_time_until_verdict s.res_proccesing_time m8

-- The end of `handle_inspection_failure`, past the limit. The line that logs the new state reads its
-- entry of the array: the arguments of `write_dbg` are evaluated at every debug level.
unfoldable pub escalate : TimeVal → Failing → Option Failing
unfolding activate_transparent_mode
escalate now f0 = elim (activate_transparent_mode now f0) [
  | none ↦ none
  | some f ↦
      if ltb f.current_fail_state failed_sessions_monitor_length
      then elim (failed_sessions_monitor (f.current_fail_state + 1)) [
        | none ↦ none
        | some _ ↦ some (record f { current_fail_state = f.current_fail_state + 1 })
      ]
      else some (record f { current_fail_state = failed_sessions_monitor_length - 1 })
]

-- `weight` is not negative in any call. `none` is a read past the array's end.
unfoldable pub handle_inspection_failure :
    TimeVal → ℕ → Bool → Session → Failing → Option (Session × Failing)
unfolding is_timeout_reached reset_failure_state escalate
handle_inspection_failure now weight is_open s f = elim s.verdict [
  | inspect ↦
      let m = report_time_metrics s f.metrics in
      let s' = record s { verdict = if is_open then accept else drop } in
      let f' = record f {
        metrics =
            update_metric_field
              (if is_open then inspection_open_failures_count else inspection_close_failures_count)
              1 m;
        current_failed_requests = u64 (f.current_failed_requests + weight);
      } in
      let next =
        if is_timeout_reached now f'.failing_interval
        then reset_failure_state now f'
        else if leb f'.current_failed_requests f'.max_allowed_failed_requests
        then some f'
        else escalate now f' in
      elim next [ none ↦ none | some f'' ↦ some (s', f'') ]
  | _ ↦ some (s, f)
]

unfoldable pub handle_inspection_success : TimeVal → Session → Failing → Failing
unfolding is_timeout_reached
handle_inspection_success now s f0 =
    let f = record f0 {
      metrics = report_time_metrics s (update_metric_field inspection_successes_count 1 f0.metrics);
    } in
    if not (is_timeout_reached now f.failing_interval)
    then f
    else if not (f.current_failed_requests == 0) || f.should_update_timeout == 1
    then f
    else record f { current_fail_state = 0 }
