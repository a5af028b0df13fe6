-- ===== src/Sender/Thread.antt =====
-- attachments/nano_attachment/nano_attachment_thread.c: a routine in a thread of its own, with a limit on
-- its time. The times of the processing are not kept.
pub mod Laws
use openappsec_attachment.Common.{
  ℕ, ◌+◌, ◌-◌, ◌*◌, ◌/◌, ◌%◌, Bool, true, false, not, ◌||◌, Option, none, some, ltb, ◌==◌,
  if◌then◌else◌,
}
use openappsec_attachment.Metric.{
  Metrics, MetricType, update_metric_field, thread_timeout, thread_failure,
}

-- `struct timespec`.
pub record TimeSpec : Type 0 where
  pub tv_sec : ℕ
  pub tv_nsec : ℕ

-- `NanoHttpInspectionMode`
pub data InspectionMode : Type 0 where
  non_blocking_thread blocking_thread no_thread : InspectionMode

-- What the clock and the threads answer for one run of a routine on its context: whether the first
-- reading of the clock and the creation succeed, the second reading, and the statuses of the joins, 0
-- for a success. The routine changes its context and the metrics, when it ends (`run`) or as far as it
-- came (`cut`).
pub record Threads {ℓ} (A : Type ℓ) : Type ℓ where
  pub clock_ok : Bool
  pub created : Bool
  pub join_status : ℕ
  pub now : Option TimeSpec
  pub timed_join : TimeSpec → ℕ
  pub rejoin_status : ℕ
  pub canceled : Bool
  pub run : Metrics × A → Metrics × A
  pub cut : Metrics × A → Metrics × A

-- The time that the join waits for, from the clock's and the limit in milliseconds.
unfoldable pub join_deadline : TimeSpec → ℕ → TimeSpec
join_deadline now timeout =
    let sec = now.tv_sec + timeout / 1000 in
    let nsec = now.tv_nsec + (timeout % 1000) * 1000000 in
    let past = ltb 1000000000 nsec in
    let sec' = if past then sec + 1 else sec in
    let nsec' = if past then nsec - 1000000000 else nsec in
    let total = nsec' + (timeout % 1000) * 1000000 in
    record { tv_sec = sec' + (timeout / 1000 + total / 1000000000); tv_nsec = total % 1000000000 }

abbrev failed_thread {ℓ} : {A : Type ℓ} → Metrics × A → Bool × (Metrics × A)
failed_thread (m, c) = (false, (update_metric_field thread_failure 1 m, c))

-- The thread was not joined in time: it is cancelled, and joined again.
unfoldable pub cancel_thread {ℓ} : {A : Type ℓ} → Threads A → Metrics × A → Bool × (Metrics × A)
unfolding update_metric_field
cancel_thread os mc =
    let (m, c) = os.cut mc in
    if not (os.rejoin_status == 0) then (true, (update_metric_field thread_failure 1 m, c)) else (
      false,
      (update_metric_field (if os.canceled then thread_timeout else thread_failure) 1 m, c),
    )

-- `NanoRunInThreadTimeout`: whether the routine ended.
unfoldable pub run_in_thread_timeout {ℓ} :
    {A : Type ℓ} → InspectionMode → Threads A → ℕ → Metrics × A → Bool × (Metrics × A)
unfolding update_metric_field join_deadline cancel_thread
run_in_thread_timeout no_thread os timeout mc = (true, os.run mc)
run_in_thread_timeout blocking_thread os timeout mc =
    if not os.clock_ok || not os.created
    then failed_thread mc
    else if os.join_status == 0
    then (true, os.run mc)
    else (false, os.cut mc)
run_in_thread_timeout non_blocking_thread os timeout mc =
    if not os.clock_ok || not os.created then failed_thread mc else elim os.now [
      | none ↦ failed_thread (os.cut mc)
      | some now ↦
          if os.timed_join (join_deadline now timeout) == 0
          then (true, os.run mc)
          else cancel_thread os mc
    ]
