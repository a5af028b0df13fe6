-- ===== src/Tests/Sender.antt =====
-- The theorems on the senders of the nano attachment at concrete inputs.
use openappsec_attachment.Common.{◌<◌, ◌≡◌, refl, true, false, some, arith}
use openappsec_attachment.Failing.{inspect, delayed}
use openappsec_attachment.Bucket.{nano_ok, nano_error, SessionIdQueue}
use openappsec_attachment.Bucket.Queue.{IsValid}
use openappsec_attachment.Sender.{HttpSessionData, ThreadCtx, NanoAttachment, Answers}
use openappsec_attachment.Sender.Chunks.{
  send_request_headers, send_request_body, send_response_body, send_request_end,
}
use openappsec_attachment.Sender.Laws.{IsSettled, senders-IsSettled}
use openappsec_attachment.Sender.Queued.{
  Call, send_request_filter_async, send_metadata_async, send_request_headers_async,
  send_request_body_async, send_request_end_async, send_delayed_verdict_request_async,
}
use openappsec_attachment.Sender.Queued.Laws.{IsRefused, senders-IsRefused}
use openappsec_attachment.Sender.Thread.{Threads, non_blocking_thread, join_deadline}
use openappsec_attachment.Sender.Thread.Laws.{nanoseconds, deadline_doubles}

abbrev session : HttpSessionData
session = record { verdict = inspect; session_id = 7; remaining_messages_to_reply = 0 }

abbrev failed_queue : SessionIdQueue
failed_queue = record { queue = λ i. 0; head = 0; tail = 1; count = 1 }

failed_queue-IsValid : IsValid failed_queue
failed_queue-IsValid = record { head_in = ground arith; tail_at = refl; count_in = ground arith }

abbrev attachment : NanoAttachment
attachment = record {
  fail_open = false;
  inspection_mode = non_blocking_thread;
  req_start_thread_timeout_msec = 100;
  req_header_thread_timeout_msec = 100;
  req_body_thread_timeout_msec = 150;
  res_header_thread_timeout_msec = 100;
  res_body_thread_timeout_msec = 150;
  waiting_for_verdict_thread_timeout_msec = 100;
  hold_verdict_retries = 3;
  metrics = record { metric_data = λ i. 0; metric_average_data_divisor = λ i. 0 };
  async_failed = failed_queue;
}

-- A thread that ends in time, with a verdict to wait.
abbrev waits : Threads ThreadCtx
waits = record {
  clock_ok = true;
  created = true;
  join_status = 0;
  now = some (record { tv_sec = 5; tv_nsec = 999000000 });
  timed_join = λ t. 0;
  rejoin_status = 0;
  canceled = false;
  run = λ mc. (mc.0, record (mc.1) { session = record (mc.1.session) { verdict = delayed } });
  cut = λ mc. mc;
}

abbrev answers : Answers
answers = record { corruption = nano_ok; block_page = 800; thread = waits; polls = λ i. waits }

deadline_doubles_example :
    (nanoseconds (join_deadline (record { tv_sec = 5; tv_nsec = 999000000 }) 1500) ≡ 8999000000)
    × ((join_deadline (record { tv_sec = 5; tv_nsec = 999000000 }) 1500).tv_nsec < 1000000000)
deadline_doubles_example =
    deadline_doubles (record { tv_sec = 5; tv_nsec = 999000000 }) 1500 (ground arith)

senders-IsSettled_example :
    IsSettled (send_request_headers answers session attachment)
    × IsSettled (send_request_body answers session attachment)
    × IsSettled (send_response_body answers session attachment)
    × IsSettled (send_request_end answers session attachment)
senders-IsSettled_example = senders-IsSettled answers session attachment

abbrev call : Call
call = record {
  given = true;
  has_chunk = true;
  corruption = nano_error;
  sends = λ s n. (nano_ok, n);
}

senders-IsRefused_example :
    IsRefused session attachment (send_request_filter_async call session attachment)
    × IsRefused session attachment (send_metadata_async call session attachment)
    × IsRefused session attachment (send_request_headers_async call session attachment)
    × IsRefused session attachment (send_request_body_async call session attachment)
    × IsRefused session attachment (send_request_end_async call session attachment)
    × IsRefused session attachment (send_delayed_verdict_request_async call session attachment)
senders-IsRefused_example =
    senders-IsRefused call session attachment failed_queue-IsValid refl refl refl
