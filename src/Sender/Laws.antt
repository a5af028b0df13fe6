-- ===== src/Sender/Laws.antt =====
-- attachments/nano_attachment/nano_attachment_sender.c: what the senders report.
use openappsec_attachment.Common.{
  ℕ, zero, suc, ◌+◌, ◌≡◌, ◌≢◌, refl, Bool, true, false, not, arith, ◌⊎◌, inl, inr, if_case,
  if_split, if◌then◌else◌,
}
use openappsec_attachment.Metric.{MetricType}
use openappsec_attachment.Failing.{ServiceVerdict, delayed}
use openappsec_attachment.Bucket.{nano_error}
use openappsec_attachment.Sender.{
  HttpSessionData, ThreadCtx, NanoAttachment, Answers, Outcome, reported, send, finalize,
  finalize_after_delay, handle_delayed_verdict, finalize_failed_response,
  finalize_successful_response, send_corrupt_memory_verdict, send_thread_timeout_verdict, spawn,
  is_delayed, is_error,
}
use openappsec_attachment.Sender.Chunks.{
  send_request_headers, send_request_body, send_response_body, send_request_end,
}
use openappsec_attachment.Sender.Thread.{Threads}

-- The response says what the session's verdict is, and a verdict to wait is not left.
abbrev pub IsSettled : Outcome → Type 0
IsSettled (r, s, n) = (r.verdict ≡ reported s.verdict) × (s.verdict ≢ delayed)

corrupt-IsSettled :
    (os : Answers) (s : HttpSessionData) (n : NanoAttachment)
    → IsSettled (send_corrupt_memory_verdict os s n)
unfolding send_corrupt_memory_verdict reported
corrupt-IsSettled os s n = ground arith

timeout-IsSettled :
    (os : Answers) (s : HttpSessionData) (n : NanoAttachment)
    → IsSettled (send_thread_timeout_verdict os s n)
unfolding send_thread_timeout_verdict reported
timeout-IsSettled os s n = ground arith

failed-IsSettled :
    (os : Answers) (c : ThreadCtx) (n : NanoAttachment)
    → IsSettled (finalize_failed_response os c n)
unfolding finalize_failed_response reported
failed-IsSettled os c n = ground arith

-- Before the end of a sender: the verdict is not to wait, or the context has an error.
abbrev IsReady : ThreadCtx → Type 0
IsReady c = (c.session.verdict ≢ delayed) ⊎ (c.res ≡ nano_error)

finalize-IsSettled :
    (os : Answers) (c : ThreadCtx) (n : NanoAttachment) → IsReady c → IsSettled (finalize os c n)
unfolding finalize finalize_successful_response
finalize-IsSettled os c n ready = ground (arith, ready, failed-IsSettled os c n)

-- The waits end with a thread that timed out, or a context that is ready.
abbrev IsWaited : Bool × ThreadCtx × NanoAttachment → Type 0
IsWaited (timed_out, c, n) = (timed_out ≡ true) ⊎ IsReady c

poll-IsWaited :
    (ended : Bool) (c : ThreadCtx) (n n' : NanoAttachment)
    (rest : Bool × ThreadCtx × NanoAttachment)
    → IsWaited rest
    → IsWaited (
        if not ended
        then (true, c, n)
        else if not (is_delayed c.session.verdict)
        then (false, c, n')
        else rest)
poll-IsWaited ended c n n' rest waited = ground (arith, waited)

delay-IsWaited :
    (polls : ℕ → Threads ThreadCtx) (retries : ℕ) (c : ThreadCtx) (n : NanoAttachment)
    → IsWaited (handle_delayed_verdict polls retries c n)
unfolding handle_delayed_verdict
delay-IsWaited polls zero c n = inr (inr refl)
delay-IsWaited polls (suc retries) c n =
    let (ended, c', n') = spawn (polls 0) n.waiting_for_verdict_thread_timeout_msec c.session n in
    poll-IsWaited ended c' _ n' _ (delay-IsWaited (λ i. polls (i + 1)) retries c' n')

after-IsSettled :
    (os : Answers) (w : Bool × ThreadCtx × NanoAttachment)
    → IsWaited w
    → IsSettled
        (if w.0 then send_thread_timeout_verdict os w.1.session w.2 else finalize os w.1 w.2)
after-IsSettled os (true, c, n) waited = timeout-IsSettled os c.session n
after-IsSettled os (false, c, n) (inl never) = ground (arith, never)
after-IsSettled os (false, c, n) (inr ready) = finalize-IsSettled os c n ready

not_delayed : (v : ServiceVerdict) → is_delayed v ≡ false → v ≢ delayed
not_delayed v settled = ground (arith, settled)

-- An end of a sender has the property.
abbrev Always : (Outcome → Type 0) → (Answers → ThreadCtx → NanoAttachment → Outcome) → Type 0
Always P ending = (os : Answers) (c : ThreadCtx) (n : NanoAttachment) → P (ending os c n)

delayed-IsSettled : Always IsSettled finalize_after_delay
unfolding finalize_after_delay
delayed-IsSettled os c n =
    if_split IsSettled (is_delayed c.session.verdict)
      (λ waits.
        after-IsSettled os (handle_delayed_verdict os.polls n.hold_verdict_retries c n)
          (delay-IsWaited os.polls n.hold_verdict_retries c n))
      (λ settled. finalize-IsSettled os c n (inl (not_delayed c.session.verdict settled)))

send-Always :
    (P : Outcome → Type 0)
    → ((os : Answers) (s : HttpSessionData) (n : NanoAttachment)
        → P (send_corrupt_memory_verdict os s n))
    → ((os : Answers) (s : HttpSessionData) (n : NanoAttachment)
        → P (send_thread_timeout_verdict os s n))
    → (ending : Answers → ThreadCtx → NanoAttachment → Outcome) → Always P ending
    → (timeout : ℕ) (metric : MetricType) (os : Answers) (s : HttpSessionData) (n : NanoAttachment)
    → P (send timeout metric ending os s n)
unfolding send
send-Always P corrupt late ending ends timeout metric os s n =
    let (ended, c, n') = spawn os.thread timeout s n in
    if_case P (is_error os.corruption) (corrupt os s n)
      (if_case P (not ended) (late os c.session _) (ends os c n'))

-- The senders of the request's headers and end, and of both bodies, report what the session's verdict
-- says, and never leave it at a verdict to wait, whatever the service and the threads answer.
pub senders-IsSettled :
    (os : Answers) (s : HttpSessionData) (n : NanoAttachment)
    → IsSettled (send_request_headers os s n)
      × IsSettled (send_request_body os s n)
      × IsSettled (send_response_body os s n)
      × IsSettled (send_request_end os s n)
unfolding send_request_headers send_request_body send_response_body send_request_end
senders-IsSettled os s n =
    let settled : (timeout : ℕ) (metric : MetricType)
        → IsSettled (send timeout metric finalize_after_delay os s n) =
      λ timeout metric.
        send-Always IsSettled corrupt-IsSettled timeout-IsSettled finalize_after_delay
          delayed-IsSettled timeout metric os s n in
    (settled _ _, settled _ _, settled _ _, settled _ _)
