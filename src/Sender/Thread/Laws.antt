-- ===== src/Sender/Thread/Laws.antt =====
-- attachments/nano_attachment/nano_attachment_thread.c: how long a routine may take.
use openappsec_attachment.Common.{ℕ, ◌+◌, ◌*◌, ◌<◌, ◌≡◌, arith}
use openappsec_attachment.Sender.Thread.{TimeSpec, join_deadline}

-- The nanoseconds since the clock's start.
abbrev pub nanoseconds : TimeSpec → ℕ
nanoseconds t = t.tv_sec * 1000000000 + t.tv_nsec

-- The join waits for a valid time, twice the limit after the clock's.
pub deadline_doubles :
    (now : TimeSpec) (timeout : ℕ)
    → now.tv_nsec < 1000000000
    → (nanoseconds (join_deadline now timeout) ≡ nanoseconds now + 2 * (timeout * 1000000))
      × ((join_deadline now timeout).tv_nsec < 1000000000)
unfolding join_deadline
deadline_doubles now timeout valid = ground arith
