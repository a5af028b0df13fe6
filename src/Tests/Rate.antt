-- ===== src/Tests/Rate.antt =====
-- Runs of attachments/nginx/ngx_module/ngx_cp_hooks.c, enforce_sessions_rate.
use openappsec_attachment.Common.{
  ◌≤◌, ◌≡◌, refl, false, not, ◌&&◌, [], ◌∷◌, arith, ltb, ◌==◌, if◌then◌else◌,
}
use openappsec_attachment.Failing.{inspect, drop}
use openappsec_attachment.Rate.{
  SessionsPerMinuteLimit, LimitConfig, get_periodic_sessions_limit_info, enforce_sessions_rate,
}
use openappsec_attachment.Rate.Laws.{recent_sessions, recent_at, Counts}
use openappsec_attachment.Rate.Window.{rate_refines}

abbrev config : LimitConfig
config = record { is_fail_open = false; max_sessions = 1 }

abbrev one_session : SessionsPerMinuteLimit
one_session = record {
  sessions_per_second = λ k. if k == 40 then 1 else 0;
  last_minute_sessions_sum = 1;
  last_session_time = 100;
  limit_verdict = drop;
  max_sessions_per_minute = 1;
}

one_session-Counts : Counts (100 ∷ []) (get_periodic_sessions_limit_info config 130 one_session)
unfolding get_periodic_sessions_limit_info recent_at recent_sessions
one_session-Counts = record {
  past = (omega arith, tt);
  by_second = λ k p. ground arith;
  in_sum = refl;
}

-- A second session within the minute is one too many; after the minute it is not.
second_refused : (enforce_sessions_rate config 130 one_session).0 ≡ drop
unfolding enforce_sessions_rate
second_refused = refl

second_inspected : (enforce_sessions_rate config 160 one_session).0 ≡ inspect
unfolding enforce_sessions_rate
second_inspected = refl

info_time : (get_periodic_sessions_limit_info config 130 one_session).last_session_time ≤ 130
unfolding get_periodic_sessions_limit_info
info_time = omega arith

rate_refines_example :
    let info = get_periodic_sessions_limit_info config 130 one_session in
    let (answer, l') = enforce_sessions_rate config 130 one_session in
    Counts (130 ∷ 100 ∷ []) l'
    × answer ≡ (
        if not (info.max_sessions_per_minute == 0)
          && ltb info.max_sessions_per_minute (recent_sessions 130 (130 ∷ 100 ∷ []))
        then info.limit_verdict
        else inspect)
rate_refines_example =
    rate_refines config (100 ∷ []) 130 one_session one_session-Counts info_time (omega arith)
      (omega arith)
