-- ===== src/Wire/Send.antt =====
-- attachments/nano_attachment/nano_attachment_io.c, send_session_data_to_service: a chunk is put into the
-- shared ring, in five attempts at most.
-- What `sendChunkedData`, `signal_for_session_data` and `restart_communication` answer in each attempt is
-- a parameter.
pub mod Laws
use openappsec_attachment.Common.{
  ℕ, zero, suc, ◌+◌, Bool, true, false, ◌&&◌, ℤ, pos, negsuc, eqb_ℤ, if◌then◌else◌,
}
use openappsec_attachment.Bucket.{NanoCommunicationResult, nano_ok, nano_error}
use openappsec_attachment.Wire.Signal.{is_ok}

pub record Attempts : Type 0 where
  pub push : ℕ → ℤ
  pub signal : ℕ → NanoCommunicationResult
  pub restart : ℕ → NanoCommunicationResult

abbrev pub is_error : NanoCommunicationResult → Bool
is_error nano_error = true
is_error _ = false

-- `n` attempts are left, the next of them is `attempt_num`, `res` is what the last signal or restart
-- answered, and the ring has taken the chunk `pushed` times.
unfoldable pub send_attempts :
    Attempts
    → (n attempt_num : ℕ) → (res : NanoCommunicationResult) → (pushed : ℕ)
    → NanoCommunicationResult × ℕ
send_attempts a zero attempt_num res pushed = (nano_error, pushed)
send_attempts a (suc n) attempt_num res pushed =
    let is_sent = eqb_ℤ (a.push attempt_num) (pos 0) in
    let pushed' = if is_sent then suc pushed else pushed in
    let next = λ (r : NanoCommunicationResult). send_attempts a n (suc attempt_num) r pushed' in
    if is_ok res && is_sent
    then (nano_ok, pushed')
    else if is_error (a.signal attempt_num)
    then if is_error (a.restart attempt_num)
      then (nano_error, pushed')
      else next (a.restart attempt_num)
    else next (a.signal attempt_num)

unfoldable pub send_session_data_to_service : Attempts → NanoCommunicationResult × ℕ
unfolding send_attempts
send_session_data_to_service a = send_attempts a 5 1 nano_ok 0
