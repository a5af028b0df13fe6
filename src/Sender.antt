-- ===== src/Sender.antt =====
-- attachments/nano_attachment/nano_attachment_sender.c: the chunks of a request and a response are sent
-- to the service in a thread of their own, and the session gets its answer.
-- The pointers to the session's data, the attachment and the context are never NULL here.
pub mod Chunks
pub mod Thread
pub mod Queued
pub mod Laws
pub mod Grounds
use openappsec_attachment.Common.{ℕ, zero, suc, ◌+◌, Bool, true, false, not, ◌&&◌, if◌then◌else◌}
use openappsec_attachment.Metric.{
  Metrics, MetricType, update_metric_field, inspection_open_failures_count,
  inspection_close_failures_count, inspection_successes_count, irrelevant_verdicts_count,
  hold_thread_timeout, req_metadata_thread_timeout, req_header_thread_timeout,
  req_body_thread_timeout, req_end_thread_timeout, res_header_thread_timeout,
  res_body_thread_timeout, res_end_thread_timeout,
}
use openappsec_attachment.Failing.{
  ServiceVerdict, inspect, accept, drop, inject, irrelevant, reconf, delayed,
  limit_response_headers, custom_response,
}
use openappsec_attachment.Bucket.{
  AttachmentVerdict, AttachmentVerdictResponse, NanoCommunicationResult, nano_ok, nano_error,
  nano_declined, nano_http_forbidden, SessionIdQueue,
}
use openappsec_attachment.Sender.Thread.{InspectionMode, Threads, run_in_thread_timeout}

-- What the senders read and write of the session's data.
pub record HttpSessionData : Type 0 where
  pub verdict : ServiceVerdict
  pub session_id : ℕ
  pub remaining_messages_to_reply : ℕ

-- `HttpEventThreadCtx`; the last two are addresses, 0 for NULL.
pub record ThreadCtx : Type 0 where
  pub session : HttpSessionData
  pub res : NanoCommunicationResult
  pub web_response_data : ℕ
  pub modifications : ℕ

-- What the senders read and write of the attachment. `fail_open` is `fail_mode_verdict == NANO_OK`.
pub record NanoAttachment : Type 0 where
  pub fail_open : Bool
  pub inspection_mode : InspectionMode
  pub req_start_thread_timeout_msec : ℕ
  pub req_header_thread_timeout_msec : ℕ
  pub req_body_thread_timeout_msec : ℕ
  pub res_header_thread_timeout_msec : ℕ
  pub res_body_thread_timeout_msec : ℕ
  pub waiting_for_verdict_thread_timeout_msec : ℕ
  pub hold_verdict_retries : ℕ
  pub metrics : Metrics
  pub async_failed : SessionIdQueue

-- The answers of `handle_shmem_corruption` and `CreateDefaultBlockPage`, of the chunk's thread, and of
-- the threads that ask for a delayed verdict.
pub record Answers : Type 0 where
  pub corruption : NanoCommunicationResult
  pub block_page : ℕ
  pub thread : Threads ThreadCtx
  pub polls : ℕ → Threads ThreadCtx

abbrev pub Outcome : Type 0
Outcome = AttachmentVerdictResponse × HttpSessionData × NanoAttachment

abbrev pub count : MetricType → NanoAttachment → NanoAttachment
count t n = record n { metrics = update_metric_field t 1 n.metrics }

abbrev pub is_error : NanoCommunicationResult → Bool
is_error nano_error = true
is_error _ = false

abbrev pub is_declined : NanoCommunicationResult → Bool
is_declined nano_declined = true
is_declined _ = false

abbrev pub is_answered : NanoCommunicationResult → Bool
is_answered nano_ok = true
is_answered nano_http_forbidden = true
is_answered _ = false

abbrev pub is_delayed : ServiceVerdict → Bool
is_delayed delayed = true
is_delayed _ = false

abbrev pub count_failure : NanoAttachment → NanoAttachment
count_failure n =
    count (if n.fail_open then inspection_open_failures_count else inspection_close_failures_count)
      n

-- The answer of the fail mode, and the session's verdict with it.
abbrev pub fail_mode_answer :
    Answers → HttpSessionData → NanoAttachment → AttachmentVerdictResponse × HttpSessionData
fail_mode_answer os s n =
    if n.fail_open
    then (
      record {
        verdict = AttachmentVerdict.accept;
        session_id = s.session_id;
        web_response_data = 0;
        modifications = 0;
      },
      record s { verdict = accept },
    )
    else (
      record {
        verdict = AttachmentVerdict.drop;
        session_id = s.session_id;
        web_response_data = os.block_page;
        modifications = 0;
      },
      record s { verdict = drop },
    )

unfoldable pub send_corrupt_memory_verdict : Answers → HttpSessionData → NanoAttachment → Outcome
unfolding update_metric_field
send_corrupt_memory_verdict os s n =
    let (r, s') = fail_mode_answer os s n in (r, s', count_failure n)

unfoldable pub send_thread_timeout_verdict : Answers → HttpSessionData → NanoAttachment → Outcome
send_thread_timeout_verdict os s n = let (r, s') = fail_mode_answer os s n in (r, s', n)

unfoldable pub finalize_failed_response : Answers → ThreadCtx → NanoAttachment → Outcome
unfolding update_metric_field
finalize_failed_response os c n =
    let (r, s') = fail_mode_answer os c.session n in (r, s', count_failure n)

-- The verdict that is reported for that of the service.
unfoldable pub reported : ServiceVerdict → AttachmentVerdict
reported accept = AttachmentVerdict.accept
reported drop = AttachmentVerdict.drop
reported custom_response = AttachmentVerdict.drop
reported _ = AttachmentVerdict.inspect

unfoldable pub finalize_successful_response : ThreadCtx → NanoAttachment → Outcome
unfolding update_metric_field reported
finalize_successful_response c n = (
  record {
    verdict = reported c.session.verdict;
    session_id = c.session.session_id;
    web_response_data = c.web_response_data;
    modifications = c.modifications;
  },
  c.session,
  count inspection_successes_count n,
)

unfoldable pub finalize_irrelevant_response : ThreadCtx → NanoAttachment → Outcome
unfolding update_metric_field
finalize_irrelevant_response c n = (
  record {
    verdict = AttachmentVerdict.accept;
    session_id = c.session.session_id;
    web_response_data = 0;
    modifications = 0;
  },
  c.session,
  count irrelevant_verdicts_count n,
)

-- The end of every sender.
unfoldable pub finalize : Answers → ThreadCtx → NanoAttachment → Outcome
unfolding finalize_failed_response finalize_successful_response
finalize os c n =
    if is_answered c.res then finalize_successful_response c n else finalize_failed_response os c n

unfoldable pub init_thread_ctx : HttpSessionData → ThreadCtx
init_thread_ctx s = record { session = s; res = nano_ok; web_response_data = 0; modifications = 0 }

-- A thread for the session: whether it ended, its context, and the attachment with its metrics.
unfoldable pub spawn :
    Threads ThreadCtx → ℕ → HttpSessionData → NanoAttachment → Bool × ThreadCtx × NanoAttachment
unfolding init_thread_ctx run_in_thread_timeout
spawn os timeout s n =
    let (ended, (m, c)) =
      run_in_thread_timeout n.inspection_mode os timeout (n.metrics, init_thread_ctx s) in
    (ended, c, record n { metrics = m })

-- `HandleDelayedVerdict`, with the retries left: whether a thread timed out.
unfoldable pub handle_delayed_verdict :
    (ℕ → Threads ThreadCtx) → ℕ → ThreadCtx → NanoAttachment → Bool × ThreadCtx × NanoAttachment
unfolding spawn update_metric_field
handle_delayed_verdict polls zero c n = (false, record c { res = nano_error }, n)
handle_delayed_verdict polls (suc retries) c n =
    let (ended, c', n') = spawn (polls 0) n.waiting_for_verdict_thread_timeout_msec c.session n in
    let rest = handle_delayed_verdict (λ i. polls (i + 1)) retries c' n' in
    if not ended
    then (true, c', count hold_thread_timeout n')
    else if not (is_delayed c'.session.verdict)
    then (false, c', n')
    else rest

-- The chunk was sent: the request may be irrelevant.
unfoldable pub finalize_unless_irrelevant : Answers → ThreadCtx → NanoAttachment → Outcome
unfolding finalize finalize_irrelevant_response
finalize_unless_irrelevant os c n =
    if is_declined c.res then finalize_irrelevant_response c n else finalize os c n

-- The chunk was sent: the verdict may be delayed.
unfoldable pub finalize_after_delay : Answers → ThreadCtx → NanoAttachment → Outcome
unfolding handle_delayed_verdict finalize send_thread_timeout_verdict
finalize_after_delay os c n =
    if is_delayed c.session.verdict
    then (let (timed_out, c', n') = handle_delayed_verdict os.polls n.hold_verdict_retries c n in
        if timed_out then send_thread_timeout_verdict os c'.session n' else finalize os c' n')
    else finalize os c n

-- What all the senders do: the test for corruption, the thread, its time-out with its metric, and the
-- end of the sender.
unfoldable pub send :
    ℕ
    → MetricType
    → (Answers → ThreadCtx → NanoAttachment → Outcome)
    → Answers
    → HttpSessionData
    → NanoAttachment
    → Outcome
unfolding send_corrupt_memory_verdict spawn send_thread_timeout_verdict update_metric_field
send timeout metric ending os s n =
    if is_error os.corruption
    then send_corrupt_memory_verdict os s n
    else let (ended, c, n') = spawn os.thread timeout s n in
      if not ended
      then send_thread_timeout_verdict os c.session (count metric n')
      else ending os c n'
