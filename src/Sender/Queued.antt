-- ===== src/Sender/Queued.antt =====
-- attachments/nano_attachment/nano_attachment_sender.c: the senders that do not wait for a verdict, and
-- the sender of the metrics.
pub mod Laws
use openappsec_attachment.Common.{ℕ, Bool, true, false, not, ◌&&◌, if◌then◌else◌}
use openappsec_attachment.Bucket.{NanoCommunicationResult, nano_ok, nano_error, failed_add}
use openappsec_attachment.Sender.{HttpSessionData, NanoAttachment, is_error}
use openappsec_attachment.Sender.Thread.{Threads, run_in_thread_timeout}

-- A call: whether its pointers to the attachment, the data and the session's data are set, that to the
-- chunk, the answer of `handle_shmem_corruption`, and the sender of nano_attachment_sender_async.c.
pub record Call : Type 0 where
  pub given : Bool
  pub has_chunk : Bool
  pub corruption : NanoCommunicationResult
  pub sends : HttpSessionData → NanoAttachment → NanoCommunicationResult × NanoAttachment

-- The session failed: it is put in the queue of those.
unfoldable pub note_failed_session :
    HttpSessionData → NanoAttachment → NanoCommunicationResult × NanoAttachment
unfolding failed_add
note_failed_session s n =
    (nano_error, record n { async_failed = (failed_add n.async_failed s.session_id).1 })

-- With the chunk's pointer tested or not.
unfoldable pub send_async :
    Bool → Call → HttpSessionData → NanoAttachment → NanoCommunicationResult × NanoAttachment
unfolding note_failed_session
send_async is_chunk call s n =
    if not call.given
    then (nano_error, n)
    else if is_chunk && not call.has_chunk
    then (nano_error, n)
    else if is_error call.corruption
    then note_failed_session s n
    else call.sends s n

unfoldable pub send_request_filter_async :
    Call → HttpSessionData → NanoAttachment → NanoCommunicationResult × NanoAttachment
unfolding send_async
send_request_filter_async = send_async true

unfoldable pub send_metadata_async :
    Call → HttpSessionData → NanoAttachment → NanoCommunicationResult × NanoAttachment
unfolding send_async
send_metadata_async = send_async true

unfoldable pub send_request_headers_async :
    Call → HttpSessionData → NanoAttachment → NanoCommunicationResult × NanoAttachment
unfolding send_async
send_request_headers_async = send_async true

unfoldable pub send_request_body_async :
    Call → HttpSessionData → NanoAttachment → NanoCommunicationResult × NanoAttachment
unfolding send_async
send_request_body_async = send_async true

unfoldable pub send_request_end_async :
    Call → HttpSessionData → NanoAttachment → NanoCommunicationResult × NanoAttachment
unfolding send_async
send_request_end_async = send_async false

unfoldable pub send_delayed_verdict_request_async :
    Call → HttpSessionData → NanoAttachment → NanoCommunicationResult × NanoAttachment
unfolding send_async
send_delayed_verdict_request_async = send_async false

-- The routine changes only the metrics; the second argument is the limit on its time.
unfoldable pub send_metric_data :
    NanoCommunicationResult
    → ℕ
    → Threads Bool
    → NanoAttachment
    → NanoCommunicationResult × NanoAttachment
unfolding run_in_thread_timeout
send_metric_data corruption metric_timeout os n =
    if is_error corruption
    then (nano_error, n)
    else let (ended, (m, _)) =
        run_in_thread_timeout n.inspection_mode os metric_timeout (n.metrics, true) in
      (if ended then nano_ok else nano_error, record n { metrics = m })
