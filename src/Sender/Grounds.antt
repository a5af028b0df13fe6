-- ===== src/Sender/Grounds.antt =====
-- attachments/nano_attachment/nano_attachment_sender.c: the grounds of what the senders report.
use openappsec_attachment.Common.{ℕ, ◌≡◌, ◌≢◌, Bool, true, false, ◌⊎◌}
use openappsec_attachment.Failing.{accept, drop, custom_response}
use openappsec_attachment.Bucket.{
  AttachmentVerdict, nano_error, nano_ok, nano_declined, nano_http_forbidden,
}
use openappsec_attachment.Sender.{
  HttpSessionData, ThreadCtx, NanoAttachment, Answers, Outcome, spawn,
}

-- The service answered the chunk.
abbrev pub HasAnswered : ThreadCtx → Type 0
HasAnswered c = (c.res ≡ nano_ok) ⊎ (c.res ≡ nano_http_forbidden)

-- What the service says of the chunk, in the context that the thread left: whether NANO_DECLINED means an
-- irrelevant request there is the first argument.
abbrev pub IsSaid : Bool → ThreadCtx → AttachmentVerdict → Type 0
IsSaid declines c AttachmentVerdict.accept =
    (HasAnswered c × (c.session.verdict ≡ accept)) ⊎ ((declines ≡ true) × (c.res ≡ nano_declined))
IsSaid declines c AttachmentVerdict.drop =
    HasAnswered c × ((c.session.verdict ≡ drop) ⊎ (c.session.verdict ≡ custom_response))
IsSaid declines c AttachmentVerdict.inspect =
    HasAnswered c
    × (c.session.verdict ≢ accept)
    × (c.session.verdict ≢ drop)
    × (c.session.verdict ≢ custom_response)
IsSaid declines c _ = ⊥

abbrev pub IsSilent : Bool → ThreadCtx → Type 0
IsSilent declines c = (¬ HasAnswered c) × ((declines ≡ false) ⊎ (c.res ≢ nano_declined))

-- The verdict of the fail mode.
abbrev pub IsFailMode : Bool → AttachmentVerdict → Type 0
IsFailMode true v = v ≡ AttachmentVerdict.accept
IsFailMode false v = v ≡ AttachmentVerdict.drop

-- The end of a sender reports for a context what the service says of it, or by the fail mode where it says
-- nothing.
abbrev IsGrounded : Bool → Bool → ThreadCtx → AttachmentVerdict → Type 0
IsGrounded declines fail_open c v =
    (IsSilent declines c × IsFailMode fail_open v) ⊎ ((¬ IsSilent declines c) × IsSaid declines c v)

-- A sender fails where the memory is corrupt, the thread does not end, or the service says nothing.
abbrev pub HasFailed : Bool → ℕ → Answers → HttpSessionData → NanoAttachment → Type 0
HasFailed declines timeout os s n =
    (os.corruption ≡ nano_error)
    ⊎ (((spawn os.thread timeout s n).0 ≡ false)
        ⊎ IsSilent declines (spawn os.thread timeout s n).1)

-- The report of a sender with that limit on its thread.
abbrev pub Reports : Bool → ℕ → Answers → HttpSessionData → NanoAttachment → Outcome → Type 0
Reports declines timeout os s n o =
    (HasFailed declines timeout os s n × IsFailMode n.fail_open o.0.verdict)
    ⊎ ((¬ HasFailed declines timeout os s n)
        × IsSaid declines (spawn os.thread timeout s n).1 o.0.verdict)
