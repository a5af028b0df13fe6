-- ===== src/Wire/Replies/Popped.antt =====
-- attachments/nano_attachment/nano_attachment_io.c, PopResponseVerdictFromQueue: a verdict is taken from the
-- ring of the asynchronous use.
use openappsec_attachment.Common.{
  ℕ, ◌≡◌, refl, Bool, true, false, Option, none, some, arith, Memory, if◌then◌else◌,
}
use openappsec_attachment.Failing.{
  ServiceVerdict, inspect, accept, drop, inject, irrelevant, reconf, delayed,
  limit_response_headers, custom_response,
}
use openappsec_attachment.Bucket.{AttachmentVerdict}
use openappsec_attachment.Wire.Response.{
  WebResponse, Built, unchanged, built, overrun, handle_drop_response,
}
use openappsec_attachment.Wire.Replies.{HttpReplyFromService}

-- `AttachmentVerdictResponse`, and whether the configuration was read anew.
pub record PoppedVerdict : Type 0 where
  pub verdict : AttachmentVerdict
  pub session_id : ℕ
  pub web_response : Option WebResponse
  pub is_reset : Bool

abbrev pub no_verdict : PoppedVerdict
no_verdict = record {
  verdict = AttachmentVerdict.inspect;
  session_id = 0;
  web_response = none;
  is_reset = false;
}

abbrev pub plain : AttachmentVerdict → ℕ → PoppedVerdict
plain v id = record { verdict = v; session_id = id; web_response = none; is_reset = false }

abbrev pub dropped : Built → ℕ → Option PoppedVerdict
dropped overrun id = none
dropped unchanged id = some (plain AttachmentVerdict.drop id)
dropped (built r) id = some (record (plain AttachmentVerdict.drop id) { web_response = some r })

-- The `switch` over the verdict of the service; `none` is a write past the end of an array.
unfoldable pub convert_verdict :
    (malloc : ℕ → Bool) → Memory → HttpReplyFromService → ServiceVerdict → Option PoppedVerdict
unfolding handle_drop_response
convert_verdict malloc m r accept = some (plain AttachmentVerdict.accept r.session_id)
convert_verdict malloc m r drop =
    dropped (handle_drop_response malloc m r.web_response_data) r.session_id
convert_verdict malloc m r reconf =
    some (record (plain AttachmentVerdict.inspect 0) { is_reset = true })
convert_verdict malloc m r delayed = some (plain AttachmentVerdict.delayed r.session_id)
convert_verdict malloc m r _ = some (plain AttachmentVerdict.inspect r.session_id)

-- `taken` is what `receiveData` gives where data is available, and `is_popped` whether `popData` succeeds.
unfoldable pub pop_response_verdict_from_queue :
    (malloc : ℕ → Bool)
    → Memory
    → (taken : Option HttpReplyFromService) → (is_popped : Bool) → Option PoppedVerdict
unfolding convert_verdict
pop_response_verdict_from_queue malloc m none is_popped = some no_verdict
pop_response_verdict_from_queue malloc m (some r) is_popped =
    if is_popped then convert_verdict malloc m r r.verdict else some no_verdict

abbrev pub Blocks : Option PoppedVerdict → Type 0
Blocks none = true ≡ false
Blocks (some v) = v.verdict ≡ AttachmentVerdict.drop

dropped-Blocks :
    (b : Built) (id : ℕ) (v : PoppedVerdict)
    → dropped b id ≡ some v
    → v.verdict ≡ AttachmentVerdict.drop
dropped-Blocks unchanged id v e = ground arith
dropped-Blocks (built r) id v e = ground arith
dropped-Blocks overrun id v e = ground arith

-- Of the replies that are popped, only a drop blocks: a custom response, which blocks where the service's
-- replies are awaited, is handed on as an inspection.
pub popped-Blocks :
    (malloc : ℕ → Bool) (m : Memory) (r : HttpReplyFromService) (v : ServiceVerdict)
    → Blocks (convert_verdict malloc m r v)
    → v ≡ drop
unfolding convert_verdict
popped-Blocks malloc m r drop h = refl
popped-Blocks malloc m r inspect h = ground arith
popped-Blocks malloc m r accept h = ground arith
popped-Blocks malloc m r inject h = ground arith
popped-Blocks malloc m r irrelevant h = ground arith
popped-Blocks malloc m r reconf h = ground arith
popped-Blocks malloc m r delayed h = ground arith
popped-Blocks malloc m r limit_response_headers h = ground arith
popped-Blocks malloc m r custom_response h = ground arith
