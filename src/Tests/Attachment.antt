-- ===== src/Tests/Attachment.antt =====
-- The theorems on the attachment's metrics, verdicts and failures at concrete inputs.
use openappsec_attachment.Common.{ℕ, ◌+◌, ◌≡◌, refl, List, [], ◌∷◌, true, none, some, arith}
use openappsec_attachment.Metric.{Metrics}
use openappsec_attachment.Bucket.{Buckets, generate_failed_verdict, SessionIdQueue}
use openappsec_attachment.Bucket.Queue.{IsValid}
use openappsec_attachment.Failing.{
  TimeVal, Session, Failing, inspect, initial, handle_inspection_failure, is_in_transparent_mode,
}
use openappsec_attachment.Failing.Laws.{Answers, failure_period}

abbrev zeros : Metrics
zeros = record { metric_data = λ i. 0; metric_average_data_divisor = λ i. 0 }

abbrev values : List ℕ
values = 7 ∷ 0 ∷ 3 ∷ []

abbrev no_responses : Buckets
no_responses i = generate_failed_verdict true 0

abbrev queue_at_end : SessionIdQueue
queue_at_end = record { queue = λ i. i + 40; head = 1023; tail = 0; count = 1 }

queue_at_end-IsValid : IsValid queue_at_end
queue_at_end-IsValid = record { head_in = ground arith; tail_at = refl; count_in = ground arith }

abbrev at_time : ℕ → TimeVal
at_time t = record { tv_sec = t; tv_usec = 0 }

abbrev inspected : Session
inspected = record {
  verdict = inspect;
  overall_process_time = 9;
  req_proccesing_time = 4;
  res_proccesing_time = 5;
}

-- Five failures counted, at second 100, in an interval that ends at second 110.
abbrev at_limit : ℕ → Failing
at_limit state = record (initial zeros) {
  max_allowed_failed_requests = 5;
  current_failed_requests = 5;
  failing_interval = at_time 110;
  current_fail_state = state;
}

-- The session and the state that a failure at second 100 leaves.
abbrev outcome : ℕ → Session × Failing
outcome state = elim (handle_inspection_failure (at_time 100) 1 true inspected (at_limit state)) [
  | none ↦ (inspected, at_limit state)
  | some out ↦ out
]

outcome_lem :
    handle_inspection_failure (at_time 100) 1 true inspected (at_limit 1)
    ≡ some ((outcome 1).0, (outcome 1).1)
unfolding handle_inspection_failure
outcome_lem = refl

failure_period_example :
    ((outcome 1).1.current_fail_state ≡ 2)
    × Answers true (outcome 1).1 (is_in_transparent_mode (at_time 390) (outcome 1).1)
failure_period_example =
    failure_period (at_time 100) (at_time 390) 1 true inspected (outcome 1).0 (at_limit 1)
      (outcome 1).1 (ground arith) refl refl (ground arith) outcome_lem
