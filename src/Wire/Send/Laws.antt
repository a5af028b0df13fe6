-- ===== src/Wire/Send/Laws.antt =====
-- attachments/nano_attachment/nano_attachment_io.c, send_session_data_to_service: how often the ring takes
-- the chunk.
use openappsec_attachment.Common.{
  ℕ, zero, suc, ◌<◌, ◌≡◌, ◌∙◌, ◌≢◌, ◌⊎◌, inl, inr, refl, Bool, true, false, ◌&&◌, arith, ℤ, pos,
  negsuc, eqb_ℤ, if◌then◌else◌,
}
use openappsec_attachment.Bucket.{NanoCommunicationResult, nano_ok, nano_error, nano_timeout}
use openappsec_attachment.Wire.Signal.{is_ok}
use openappsec_attachment.Wire.Send.{
  Attempts, is_error, send_attempts, send_session_data_to_service,
}

-- The chunk was sent and the ring has taken it once, or it was not and the ring has not.
abbrev pub IsOnce : NanoCommunicationResult × ℕ → Type 0
IsOnce r = (r ≡ (nano_ok, 1)) ⊎ (r ≡ (nano_error, 0))

abbrev pub IsPlain : (ℕ → NanoCommunicationResult) → Type 0
IsPlain f = (k : ℕ) → (f k ≡ nano_ok) ⊎ (f k ≡ nano_error)

attempts-IsOnce :
    (a : Attempts) (n k : ℕ)
    → IsPlain a.signal
    → IsPlain a.restart
    → IsOnce (send_attempts a n k nano_ok 0)
unfolding send_attempts
attempts-IsOnce a zero k s r = inr refl
attempts-IsOnce a (suc n) k s r =
    attempt (eqb_ℤ (a.push k) (pos 0)) (a.signal k) (a.restart k) (s k) (r k)
      (attempts-IsOnce a n (suc k) s r)
  where
    attempt :
        (t : Bool) (x y : NanoCommunicationResult)
        → (x ≡ nano_ok) ⊎ (x ≡ nano_error)
        → (y ≡ nano_ok) ⊎ (y ≡ nano_error)
        → IsOnce (send_attempts a n (suc k) nano_ok 0)
        → IsOnce (
            let pushed' = if t then 1 else 0 in
            let next = λ (r : NanoCommunicationResult). send_attempts a n (suc k) r pushed' in
            if is_ok nano_ok && t
            then (nano_ok, pushed')
            else if is_error x
            then if is_error y then (nano_error, pushed') else next y
            else next x)
    attempt true x y p q next = inl refl
    attempt false nano_ok y p q next = next
    attempt false nano_error nano_ok p q next = next
    attempt false nano_error nano_error p q next = inr refl
    attempt false nano_error _ p q next = ground arith
    attempt false _ y p q next = ground arith

-- Where each signal and each restart answers NANO_OK or NANO_ERROR, the chunk is sent just when the ring
-- has taken it, and it has taken it once.
pub send-IsOnce :
    (a : Attempts) → IsPlain a.signal → IsPlain a.restart → IsOnce (send_session_data_to_service a)
unfolding send_session_data_to_service
send-IsOnce a s r = attempts-IsOnce a 5 1 s r

refused-eqb : (z : ℤ) → z ≢ pos 0 → eqb_ℤ z (pos 0) ≡ false
refused-eqb (pos zero) d = absurd (d refl)
refused-eqb (pos (suc n)) d = ground arith
refused-eqb (negsuc n) d = refl

no_attempts :
    (a : Attempts) (k : ℕ) (res : NanoCommunicationResult) (p : ℕ)
    → send_attempts a 0 k res p ≡ (nano_error, p)
unfolding send_attempts
no_attempts a k res p = refl

attempt_stays :
    (a : Attempts) (n k p : ℕ)
    → a.push k ≡ pos 0
    → a.signal k ≡ nano_timeout
    → send_attempts a (suc n) k nano_timeout p ≡ send_attempts a n (suc k) nano_timeout (suc p)
unfolding send_attempts
attempt_stays a n k p q s = rw (q, s) refl

attempt_refused :
    (a : Attempts) (n k : ℕ)
    → a.push k ≢ pos 0
    → a.signal k ≡ nano_timeout
    → send_attempts a (suc n) k nano_ok 0 ≡ send_attempts a n (suc k) nano_timeout 0
unfolding send_attempts
attempt_refused a n k q s = rw (refused-eqb (a.push k) q, s) refl

-- Where the first attempt finds no room and every signal times out, the ring takes the chunk four times
-- and the answer is still NANO_ERROR.
pub timeouts_send_again :
    (a : Attempts)
    → a.push 1 ≢ pos 0
    → ((k : ℕ) → 1 < k → a.push k ≡ pos 0)
    → ((k : ℕ) → a.signal k ≡ nano_timeout)
    → send_session_data_to_service a ≡ (nano_error, 4)
unfolding send_session_data_to_service
timeouts_send_again a p q s =
    attempt_refused a 4 1 p (s 1)
    ∙ attempt_stays a 3 2 0 (q 2 (omega arith)) (s 2)
    ∙ attempt_stays a 2 3 1 (q 3 (omega arith)) (s 3)
    ∙ attempt_stays a 1 4 2 (q 4 (omega arith)) (s 4)
    ∙ attempt_stays a 0 5 3 (q 5 (omega arith)) (s 5)
    ∙ no_attempts a 6 nano_timeout 4
