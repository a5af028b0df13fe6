-- ===== src/Sender/Queued/Laws.antt =====
-- attachments/nano_attachment/nano_attachment_sender.c: the sessions that fail on a corrupt channel.
use openappsec_attachment.Common.{
  ◌≡◌, ◌<◌, refl, ap, inl, inr, Bool, true, false, [], ◌∷◌, ◌++◌, arith, ◌⊎◌,
}
use openappsec_attachment.Bucket.{NanoCommunicationResult, nano_error, SessionIdQueue, failed_add}
use openappsec_attachment.Bucket.Queue.{IsValid, sessions, failed_add_refines, Added}
use openappsec_attachment.Sender.{HttpSessionData, NanoAttachment}
use openappsec_attachment.Sender.Queued.{
  Call, note_failed_session, send_async, send_request_filter_async, send_metadata_async,
  send_request_headers_async, send_request_body_async, send_request_end_async,
  send_delayed_verdict_request_async,
}

-- The call failed, and the session stands behind the others in the queue of the failed ones where that
-- has room, and is dropped where it has none.
abbrev pub IsRefused :
    HttpSessionData → NanoAttachment → NanoCommunicationResult × NanoAttachment → Type 0
IsRefused s n (result, n') =
    (result ≡ nano_error)
    × IsValid n'.async_failed
    × (((n.async_failed.count < 1024)
          × (sessions n'.async_failed ≡ sessions n.async_failed ++ s.session_id ∷ []))
        ⊎ ((n.async_failed.count ≡ 1024) × (n'.async_failed ≡ n.async_failed)))

add-IsRefused :
    (s : HttpSessionData) (n : NanoAttachment) (out : NanoCommunicationResult × SessionIdQueue)
    → IsValid n.async_failed
    → Added n.async_failed s.session_id out
    → IsRefused s n (nano_error, record n { async_failed = out.1 })
add-IsRefused s n (rc, q) valid (inl (room, _, stays, added)) = (refl, stays, inl (room, added))
add-IsRefused s n (rc, q) valid (inr (full, same)) =
    let same' : q ≡ n.async_failed = ap (λ p. p.1) same in (refl, rw same' valid, inr (full, same'))

noted-IsRefused :
    (s : HttpSessionData) (n : NanoAttachment)
    → IsValid n.async_failed
    → IsRefused s n (note_failed_session s n)
unfolding note_failed_session
noted-IsRefused s n valid =
    add-IsRefused s n (failed_add n.async_failed s.session_id) valid
      (failed_add_refines n.async_failed s.session_id valid)

async_refused :
    (is_chunk : Bool) (call : Call) (s : HttpSessionData) (n : NanoAttachment)
    → call.given ≡ true
    → call.has_chunk ≡ true
    → call.corruption ≡ nano_error
    → send_async is_chunk call s n ≡ note_failed_session s n
unfolding send_async
async_refused is_chunk call s n given chunk corrupt = ground (arith, given, chunk, corrupt)

-- On a corrupt channel every sender that does not wait fails, and leaves a valid queue of failed
-- sessions with the session behind the others, or as it was where it is full.
pub senders-IsRefused :
    (call : Call) (s : HttpSessionData) (n : NanoAttachment)
    → IsValid n.async_failed
    → call.given ≡ true
    → call.has_chunk ≡ true
    → call.corruption ≡ nano_error
    → IsRefused s n (send_request_filter_async call s n)
      × IsRefused s n (send_metadata_async call s n)
      × IsRefused s n (send_request_headers_async call s n)
      × IsRefused s n (send_request_body_async call s n)
      × IsRefused s n (send_request_end_async call s n)
      × IsRefused s n (send_delayed_verdict_request_async call s n)
unfolding send_request_filter_async send_metadata_async send_request_headers_async
    send_request_body_async send_request_end_async send_delayed_verdict_request_async
senders-IsRefused call s n valid given chunk corrupt =
    let refused : (is_chunk : Bool) → IsRefused s n (send_async is_chunk call s n) = λ is_chunk.
      rw (async_refused is_chunk call s n given chunk corrupt) (noted-IsRefused s n valid) in
    (refused true, refused true, refused true, refused true, refused false, refused false)
