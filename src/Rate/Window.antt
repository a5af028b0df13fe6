-- ===== src/Rate/Window.antt =====
-- attachments/nginx/ngx_module/ngx_cp_hooks.c, enforce_sessions_rate: a session is let through just while
-- those of the last minute are within the limit.
use openappsec_attachment.Common.{
  ℕ, zero, suc, ◌+◌, ◌%◌, ◌≤◌, ◌<◌, ◌≡◌, refl, sym, ap, ◌∙◌, Bool, not, ◌&&◌, ◌||◌, List, [], ◌∷◌,
  arith, store, ltb, ◌==◌, u32, length, if◌then◌else◌, if_split,
}
use openappsec_attachment.Failing.{inspect}
use openappsec_attachment.Rate.{
  SessionsPerMinuteLimit, LimitConfig, one_minute, sub_u32, get_periodic_sessions_limit_info,
  clear_expired, advance, count_session, enforce_sessions_rate,
}
use openappsec_attachment.Rate.Laws.{
  one_if, is_recent, recent_sessions, recent_at, IsPast, Counts, hit, recent_at-hit, IsPast-later,
  total, total-recent, total-store, total-agree,
}

clear-at :
    (n e t k : ℕ) (l : SessionsPerMinuteLimit)
    → e ≡ t + n
    → e < 4294967296
    → (clear_expired n e l).sessions_per_second k
      ≡ (if hit t n k then 0 else l.sessions_per_second k)
unfolding clear_expired
clear-at zero e t k l h w = refl
clear-at (suc n) e t k l h w =
    clear-at n (sub_u32 e 1) t k
      (record l {
        last_minute_sessions_sum =
            sub_u32 l.last_minute_sessions_sum (l.sessions_per_second (e % 60));
        sessions_per_second = store l.sessions_per_second (e % 60) 0;
      })
      (omega (arith, h, w)) (omega (arith, h, w))
    ∙ cleared (hit t n k) (l.sessions_per_second k) h
  where
    cleared :
        (b : Bool) (x : ℕ)
        → e ≡ t + suc n
        → (if b then 0 else if k == e % 60 then 0 else x)
          ≡ (if (t + suc n) % 60 == k || b then 0 else x)
    cleared b x f = ground arith

clear-sum :
    (n e : ℕ) (l : SessionsPerMinuteLimit)
    → l.last_minute_sessions_sum ≡ total l.sessions_per_second 60
    → l.last_minute_sessions_sum < 4294967296
    → (clear_expired n e l).last_minute_sessions_sum
      ≡ total (clear_expired n e l).sessions_per_second 60
unfolding clear_expired
clear-sum zero e l h w = h
clear-sum (suc n) e l h w =
    let removed = total-store l.sessions_per_second (e % 60) 0 60 (omega arith) in
    clear-sum n (sub_u32 e 1)
      (record l {
        last_minute_sessions_sum =
            sub_u32 l.last_minute_sessions_sum (l.sessions_per_second (e % 60));
        sessions_per_second = store l.sessions_per_second (e % 60) 0;
      })
      (omega (arith, h, w, removed)) (omega (arith, h, w, removed))

recent_at-old : (t u k : ℕ) (log : List ℕ) → t + 60 ≤ u → IsPast t log → recent_at u k log ≡ 0
unfolding recent_at
recent_at-old t u k [] h p = refl
recent_at-old t u k (s ∷ log) h (q, p) = ground (arith, recent_at-old t u k log h p)

recent_sessions-old :
    (t u : ℕ) (log : List ℕ) → t + 60 ≤ u → IsPast t log → recent_sessions u log ≡ 0
unfolding recent_sessions
recent_sessions-old t u [] h p = refl
recent_sessions-old t u (s ∷ log) h (q, p) = ground (arith, recent_sessions-old t u log h p)

recent_sessions-le : (t : ℕ) (log : List ℕ) → recent_sessions t log ≤ length log
unfolding recent_sessions
recent_sessions-le t [] = omega arith
recent_sessions-le t (s ∷ log) = ground (arith, recent_sessions-le t log)

recent_at-le : (t k : ℕ) (log : List ℕ) → recent_at t k log ≤ length log
unfolding recent_at
recent_at-le t k [] = omega arith
recent_at-le t k (s ∷ log) = ground (arith, recent_at-le t k log)

sum-total :
    (log : List ℕ) (l : SessionsPerMinuteLimit)
    → Counts log l
    → l.last_minute_sessions_sum ≡ total l.sessions_per_second 60
sum-total log l c =
    c.in_sum
    ∙ sym (total-recent l.last_session_time log)
    ∙ sym (
        total-agree l.sessions_per_second (λ k. recent_at l.last_session_time k log) 60 c.by_second)

cleared-Counts :
    (log : List ℕ) (now n : ℕ) (l : SessionsPerMinuteLimit)
    → Counts log l
    → now ≡ l.last_session_time + n
    → now < 4294967296
    → length log < 4294967295
    → Counts log (record (clear_expired n now l) { last_session_time = now })
cleared-Counts log now n l c h w few =
    let t = l.last_session_time in
    let by : (k : ℕ)
        → k < 60
        → (clear_expired n now l).sessions_per_second k ≡ recent_at now k log =
      λ k p.
        clear-at n now t k l h w
        ∙ ap (λ x. if hit t n k then 0 else x) (c.by_second k p)
        ∙ sym (recent_at-hit t n k log c.past)
        ∙ ap (λ u. recent_at u k log) (sym h) in
    record {
      past = IsPast-later t now log (omega (arith, h)) c.past;
      by_second = by;
      in_sum =
          clear-sum n now l (sum-total log l c)
            (omega (arith, c.in_sum, recent_sessions-le t log, few))
          ∙ total-agree (clear_expired n now l).sessions_per_second (λ k. recent_at now k log) 60 by
          ∙ total-recent now log;
    }

-- The counters before the session is counted.
advance-Counts :
    (log : List ℕ) (now : ℕ) (l : SessionsPerMinuteLimit)
    → Counts log l
    → l.last_session_time ≤ now
    → now < 4294967296
    → length log < 4294967295
    → Counts log (advance now l)
unfolding advance
advance-Counts log now l c h w few =
    let t = l.last_session_time in
    let gap : sub_u32 now t + t ≡ now = omega (arith, h, w) in
    if_split (Counts log) (ltb one_minute (sub_u32 now t))
      (λ e.
        let old : t + 60 ≤ now = ground (arith, e, gap) in
        record {
          past = IsPast-later t now log h c.past;
          by_second = λ k p. sym (recent_at-old t now k log old c.past);
          in_sum = sym (recent_sessions-old t now log old c.past);
        })
      (λ _.
        if_split (Counts log) (not (sub_u32 now t == 0))
          (λ _. cleared-Counts log now (sub_u32 now t) l c (omega (arith, gap)) w few) (λ _. c))

advance-last :
    (now : ℕ) (l : SessionsPerMinuteLimit)
    → l.last_session_time ≤ now
    → now < 4294967296
    → (advance now l).last_session_time ≡ now
unfolding advance
advance-last now l h w =
    if_split (λ (x : SessionsPerMinuteLimit). x.last_session_time ≡ now)
      (ltb one_minute (sub_u32 now l.last_session_time)) (λ _. refl)
      (λ _.
        if_split (λ (x : SessionsPerMinuteLimit). x.last_session_time ≡ now)
          (not (sub_u32 now l.last_session_time == 0)) (λ _. refl) (λ e. ground (arith, e, h, w)))

added :
    (t now k x y r : ℕ)
    → t ≡ now
    → x ≡ r
    → (now % 60 ≡ k → y ≡ x)
    → y < 4294967295
    → (if k == now % 60 then u32 (y + 1) else x) ≡ one_if (is_recent t now && (now % 60 == k)) + r
added t now k x y r e f g w = ground arith

count-Counts :
    (log : List ℕ) (now : ℕ) (l : SessionsPerMinuteLimit)
    → Counts log l
    → l.last_session_time ≡ now
    → length log < 4294967295
    → Counts (now ∷ log) (count_session now l)
unfolding count_session recent_at recent_sessions
count-Counts log now l c e few = record {
  past = (omega (arith, e), c.past);
  by_second = λ k p.
      added l.last_session_time now k (l.sessions_per_second k) (l.sessions_per_second (now % 60))
        (recent_at l.last_session_time k log) e (c.by_second k p) (λ i. ap l.sessions_per_second i)
        (omega (
          arith,
          few,
          recent_at-le l.last_session_time (now % 60) log,
          c.by_second (now % 60) (omega arith),
        ));
  in_sum = ground (arith, c.in_sum, recent_sessions-le l.last_session_time log, few, e);
}

-- The first session finds counters at zero, and the time it begins at.
pub start-Counts :
    (config : LimitConfig) (now : ℕ) (l : SessionsPerMinuteLimit)
    → l.last_session_time ≡ 0
    → ((k : ℕ) → l.sessions_per_second k ≡ 0)
    → l.last_minute_sessions_sum ≡ 0
    → let info = get_periodic_sessions_limit_info config now l in
      Counts [] info × info.last_session_time ≡ now
unfolding get_periodic_sessions_limit_info recent_at recent_sessions
start-Counts config now l e z s =
    if_split (λ (x : SessionsPerMinuteLimit). Counts [] x × x.last_session_time ≡ now)
      (l.last_session_time == 0)
      (λ _. (record { past = tt; by_second = λ k p. z k; in_sum = s }, refl))
      (λ f. absurd (ground (arith, f, e)))

-- A session that begins while the clock does not run back is counted with those of the last minute, and
-- the limit's verdict is given just when there is a limit and they are more.
pub rate_refines :
    (config : LimitConfig) (log : List ℕ) (now : ℕ) (l : SessionsPerMinuteLimit)
    → let info = get_periodic_sessions_limit_info config now l in
      Counts log info
      → info.last_session_time ≤ now
      → now < 4294967296
      → length log < 4294967295
      → let (answer, l') = enforce_sessions_rate config now l in
        Counts (now ∷ log) l'
        × answer ≡ (
            if not (info.max_sessions_per_minute == 0)
              && ltb info.max_sessions_per_minute (recent_sessions now (now ∷ log))
            then info.limit_verdict
            else inspect)
unfolding enforce_sessions_rate count_session
rate_refines config log now l c h w few =
    let info = get_periodic_sessions_limit_info config now l in
    let ready = advance now info in
    let at = advance-last now info h w in
    let counted = count-Counts log now ready (advance-Counts log now info c h w few) at few in
    (
      counted,
      ap
          (λ n.
            if not (info.max_sessions_per_minute == 0) && ltb info.max_sessions_per_minute n
            then info.limit_verdict
            else inspect)
          (counted.in_sum ∙ ap (λ t. recent_sessions t (now ∷ log)) at),
    )
