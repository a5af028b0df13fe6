-- ===== src/Rate/Laws.antt =====
-- attachments/nginx/ngx_module/ngx_cp_hooks.c, enforce_sessions_rate: the counters are those of the sessions
-- of the last minute.
use openappsec_attachment.Common.{
  ℕ, zero, suc, ◌+◌, ◌%◌, ◌≤◌, ◌<◌, ◌≡◌, refl, sym, ap, ◌∙◌, Bool, true, false, ◌&&◌, ◌||◌, List,
  [], ◌∷◌, arith, Memory, store, ltb, ◌==◌, if◌then◌else◌, if_case,
}
use openappsec_attachment.Rate.{SessionsPerMinuteLimit}

abbrev pub one_if : Bool → ℕ
one_if true = 1
one_if false = 0

-- Whether a session that began at `s` is one of the 60 seconds that end with `now`.
abbrev pub is_recent : ℕ → ℕ → Bool
is_recent now s = ltb now (s + 60)

-- Of the sessions that began at the given times, those of the last minute, and those among them whose
-- second has the place `k`.
unfoldable pub recent_sessions : ℕ → List ℕ → ℕ
recent_sessions now [] = 0
recent_sessions now (s ∷ l) = one_if (is_recent now s) + recent_sessions now l

unfoldable pub recent_at : ℕ → ℕ → List ℕ → ℕ
recent_at now k [] = 0
recent_at now k (s ∷ l) = one_if (is_recent now s && (s % 60 == k)) + recent_at now k l

-- No session began after `now`.
abbrev pub IsPast : ℕ → List ℕ → Type 0
IsPast now [] = Unit
IsPast now (s ∷ l) = s ≤ now × IsPast now l

-- The counters stand for the sessions that began at the given times.
pub record Counts (log : List ℕ) (l : SessionsPerMinuteLimit) : Type 0 where
  pub past : IsPast l.last_session_time log
  pub by_second : (k : ℕ) → k < 60 → l.sessions_per_second k ≡ recent_at l.last_session_time k log
  pub in_sum : l.last_minute_sessions_sum ≡ recent_sessions l.last_session_time log

-- A second later, the place of the new second counts nothing.
entry_step :
    (t s k : ℕ)
    → s ≤ t
    → one_if (is_recent (suc t) s && (s % 60 == k))
      ≡ (if suc t % 60 == k then 0 else one_if (is_recent t s && (s % 60 == k)))
entry_step t s k h = ground arith

recent_at-suc :
    (t k : ℕ) (log : List ℕ)
    → IsPast t log
    → recent_at (suc t) k log ≡ (if suc t % 60 == k then 0 else recent_at t k log)
unfolding recent_at
recent_at-suc t k [] p = if_case (λ n. 0 ≡ n) (suc t % 60 == k) refl refl
recent_at-suc t k (s ∷ log) (h, p) = ground (arith, entry_step t s k h, recent_at-suc t k log p)

-- Whether one of the `n` seconds after `t` has the place `k`.
abbrev pub hit : ℕ → ℕ → ℕ → Bool
hit t zero k = false
hit t (suc n) k = (t + suc n) % 60 == k || hit t n k

or_else :
    (c h : Bool) (x r : ℕ)
    → x ≡ (if h then 0 else r)
    → (if c then 0 else x) ≡ (if c || h then 0 else r)
or_else true h x r e = refl
or_else false h x r e = e

pub IsPast-later : (t u : ℕ) (log : List ℕ) → t ≤ u → IsPast t log → IsPast u log
IsPast-later t u [] h p = tt
IsPast-later t u (s ∷ log) h (q, p) = (omega (arith, q, h), IsPast-later t u log h p)

pub recent_at-hit :
    (t n k : ℕ) (log : List ℕ)
    → IsPast t log
    → recent_at (t + n) k log ≡ (if hit t n k then 0 else recent_at t k log)
recent_at-hit t zero k log p = ap (λ u. recent_at u k log) (omega arith)
recent_at-hit t (suc n) k log p =
    let here : t + suc n ≡ suc (t + n) = omega arith in
    ap (λ u. recent_at u k log) here
    ∙ recent_at-suc (t + n) k log (IsPast-later t (t + n) log (omega arith) p)
    ∙ ap (λ u. if u % 60 == k then 0 else recent_at (t + n) k log) (sym here)
    ∙ or_else ((t + suc n) % 60 == k) (hit t n k) (recent_at (t + n) k log) (recent_at t k log)
        (recent_at-hit t n k log p)

-- The sum of the first `n` places.
unfoldable pub total : Memory → ℕ → ℕ
total m zero = 0
total m (suc n) = total m n + m n

pub total-agree : (m m' : Memory) (n : ℕ) → ((k : ℕ) → k < n → m k ≡ m' k) → total m n ≡ total m' n
unfolding total
total-agree m m' zero h = refl
total-agree m m' (suc n) h =
    omega (arith, total-agree m m' n (λ k p. h k (omega (arith, p))), h n (omega arith))

total-plus : (f g : Memory) (n : ℕ) → total (λ k. f k + g k) n ≡ total f n + total g n
unfolding total
total-plus f g zero = refl
total-plus f g (suc n) = omega (arith, total-plus f g n)

total-entry :
    (b : Bool) (r n : ℕ) → total (λ k. one_if (b && (r == k))) n ≡ (if ltb r n then one_if b else 0)
unfolding total
total-entry b r zero = ground arith
total-entry b r (suc n) = ground (arith, total-entry b r n)

total-zero : (n : ℕ) → total (λ k. 0) n ≡ 0
unfolding total
total-zero zero = refl
total-zero (suc n) = omega (arith, total-zero n)

in_minute : (b : Bool) (s : ℕ) → (if ltb (s % 60) 60 then one_if b else 0) ≡ one_if b
in_minute b s = ground arith

pub total-recent :
    (t : ℕ) (log : List ℕ) → total (λ k. recent_at t k log) 60 ≡ recent_sessions t log
unfolding recent_at recent_sessions
total-recent t [] = total-zero 60
total-recent t (s ∷ log) =
    total-plus (λ k. one_if (is_recent t s && (s % 60 == k))) (λ k. recent_at t k log) 60
    ∙ omega (
      arith,
      total-entry (is_recent t s) (s % 60) 60,
      total-recent t log,
      in_minute (is_recent t s) s,
    )

total-store_out : (m : Memory) (i v n : ℕ) → n ≤ i → total (store m i v) n ≡ total m n
unfolding total
total-store_out m i v zero h = refl
total-store_out m i v (suc n) h = ground (arith, total-store_out m i v n (omega (arith, h)))

pub total-store : (m : Memory) (i v n : ℕ) → i < n → total (store m i v) n + m i ≡ total m n + v
unfolding total
total-store m i v zero h = absurd (omega arith)
total-store m i v (suc n) h = ground (arith, total-store m i v n, total-store_out m i v n)
