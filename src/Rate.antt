-- ===== src/Rate.antt =====
-- attachments/nginx/ngx_module/ngx_cp_hooks.c, enforce_sessions_rate: the sessions of the last minute are
-- counted by the second they began in, and limited.
-- The clock is an argument: what time() answers, as an `unsigned int`. What the configuration answers is a
-- record.
pub mod Laws
pub mod Window
use openappsec_attachment.Common.{
  ℕ, zero, suc, ◌+◌, ◌-◌, ◌%◌, Bool, true, false, not, ◌&&◌, Memory, store, ltb, ◌==◌, u32,
  if◌then◌else◌,
}
use openappsec_attachment.Failing.{ServiceVerdict, inspect, accept, drop}

-- `ngx_http_cp_sessions_per_minute_limit`, with `sessions_per_minute_limit_verdict` and
-- `max_sessions_per_minute`, which are static variables beside it.
pub record SessionsPerMinuteLimit : Type 0 where
  pub sessions_per_second : Memory
  pub last_minute_sessions_sum : ℕ
  pub last_session_time : ℕ
  pub limit_verdict : ServiceVerdict
  pub max_sessions_per_minute : ℕ

-- What isFailOpenOnSessionLimit and getMaxSessionsPerMinute answer.
pub record LimitConfig : Type 0 where
  pub is_fail_open : Bool
  pub max_sessions : ℕ

abbrev pub one_minute : ℕ
one_minute = 60

-- The difference of two `unsigned int`.
abbrev pub sub_u32 : ℕ → ℕ → ℕ
sub_u32 a b = u32 (a + 4294967296 - b)

unfoldable pub get_periodic_sessions_limit_info :
    LimitConfig → (now : ℕ) → SessionsPerMinuteLimit → SessionsPerMinuteLimit
get_periodic_sessions_limit_info config now l =
    if l.last_session_time == 0
    then record l {
      last_session_time = now;
      limit_verdict = if config.is_fail_open then accept else drop;
      max_sessions_per_minute = config.max_sessions;
    }
    else l

-- The loop over the seconds that have passed, `n` of them, the first to clear being `expired_session`.
unfoldable pub clear_expired :
    (n expired_session : ℕ) → SessionsPerMinuteLimit → SessionsPerMinuteLimit
clear_expired zero expired_session l = l
clear_expired (suc n) expired_session l =
    let i = expired_session % 60 in
    clear_expired n (sub_u32 expired_session 1) (record l {
      last_minute_sessions_sum = sub_u32 l.last_minute_sessions_sum (l.sessions_per_second i);
      sessions_per_second = store l.sessions_per_second i 0;
    })

-- What is counted is brought to the second `now`.
unfoldable pub advance : (now : ℕ) → SessionsPerMinuteLimit → SessionsPerMinuteLimit
unfolding clear_expired
advance now l =
    let seconds = sub_u32 now l.last_session_time in
    let cleared = clear_expired seconds now l in
    if ltb one_minute seconds
    then record l {
      sessions_per_second = λ i. 0;
      last_minute_sessions_sum = 0;
      last_session_time = now;
    }
    else if not (seconds == 0)
    then record cleared { last_session_time = now }
    else l

-- One session more in the second `now`.
unfoldable pub count_session : (now : ℕ) → SessionsPerMinuteLimit → SessionsPerMinuteLimit
count_session now l =
    let i = now % 60 in
    record l {
      sessions_per_second = store l.sessions_per_second i (u32 (l.sessions_per_second i + 1));
      last_minute_sessions_sum = u32 (l.last_minute_sessions_sum + 1);
    }

unfoldable pub enforce_sessions_rate :
    LimitConfig → (now : ℕ) → SessionsPerMinuteLimit → ServiceVerdict × SessionsPerMinuteLimit
unfolding get_periodic_sessions_limit_info advance count_session
enforce_sessions_rate config now l =
    let info = get_periodic_sessions_limit_info config now l in
    let counted = count_session now (advance now info) in
    let exceeded =
      not (info.max_sessions_per_minute == 0)
      && ltb info.max_sessions_per_minute counted.last_minute_sessions_sum in
    (if exceeded then info.limit_verdict else inspect, counted)
