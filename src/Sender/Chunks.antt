-- ===== src/Sender/Chunks.antt =====
-- attachments/nano_attachment/nano_attachment_sender.c: the senders of the chunks.
use openappsec_attachment.Metric.{
  req_metadata_thread_timeout, req_header_thread_timeout, req_body_thread_timeout,
  req_end_thread_timeout, res_header_thread_timeout, res_body_thread_timeout,
  res_end_thread_timeout,
}
use openappsec_attachment.Failing.{}
use openappsec_attachment.Bucket.{}
use openappsec_attachment.Sender.{
  HttpSessionData, NanoAttachment, Answers, Outcome, finalize, finalize_unless_irrelevant,
  finalize_after_delay, send,
}

unfoldable pub send_request_filter : Answers → HttpSessionData → NanoAttachment → Outcome
unfolding send finalize_unless_irrelevant
send_request_filter os s n =
    send n.req_header_thread_timeout_msec req_metadata_thread_timeout finalize_unless_irrelevant os
      s n

unfoldable pub send_metadata : Answers → HttpSessionData → NanoAttachment → Outcome
unfolding send finalize_unless_irrelevant
send_metadata os s n =
    send n.req_start_thread_timeout_msec req_metadata_thread_timeout finalize_unless_irrelevant os s
      n

unfoldable pub send_request_headers : Answers → HttpSessionData → NanoAttachment → Outcome
unfolding send finalize_after_delay
send_request_headers os s n =
    send n.req_header_thread_timeout_msec req_header_thread_timeout finalize_after_delay os s n

unfoldable pub send_response_headers : Answers → HttpSessionData → NanoAttachment → Outcome
unfolding send finalize
send_response_headers os s n =
    send n.res_header_thread_timeout_msec res_header_thread_timeout finalize os s n

unfoldable pub send_request_body : Answers → HttpSessionData → NanoAttachment → Outcome
unfolding send finalize_after_delay
send_request_body os s n =
    send n.req_body_thread_timeout_msec req_body_thread_timeout finalize_after_delay os s n

unfoldable pub send_response_body : Answers → HttpSessionData → NanoAttachment → Outcome
unfolding send finalize_after_delay
send_response_body os s n =
    send n.res_body_thread_timeout_msec res_body_thread_timeout finalize_after_delay os s n

unfoldable pub send_request_end : Answers → HttpSessionData → NanoAttachment → Outcome
unfolding send finalize_after_delay
send_request_end os s n =
    send n.req_header_thread_timeout_msec req_end_thread_timeout finalize_after_delay os s n

unfoldable pub send_response_end : Answers → HttpSessionData → NanoAttachment → Outcome
unfolding send finalize
send_response_end os s n =
    send n.req_header_thread_timeout_msec res_end_thread_timeout finalize os s n
