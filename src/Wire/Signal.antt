-- ===== src/Wire/Signal.antt =====
-- attachments/nano_attachment/nano_attachment_io.c: the service is told of new data over a socket, and
-- acknowledges it there.
-- What `poll`, `write` and `read` answer is a parameter. A run whose answers end first has not returned.
-- `NanoCommunicationResult` has no negative member, so that the compiler holds a variable of it as an
-- unsigned integer: an answer of -1 that is put into it is 4294967295.
pub mod Laws
use openappsec_attachment.Common.{
  ℕ, zero, suc, ◌+◌, ◌-◌, ◌*◌, ◌%◌, Bool, true, false, ◌&&◌, Option, none, some, List, [], ◌∷◌, ltb,
  leb, ◌==◌, ℤ, pos, negsuc, if◌then◌else◌,
}
use openappsec_attachment.Bucket.{
  NanoCommunicationResult, nano_ok, nano_error, nano_abort, nano_again, nano_http_forbidden,
  nano_declined, nano_timeout,
}

pub data SignalUsageMode : Type 0 where
  signal_usage_sync signal_usage_async : SignalUsageMode

abbrev pub is_async : SignalUsageMode → Bool
is_async signal_usage_sync = false
is_async signal_usage_async = true

-- An `int` in a variable of the unsigned type.
abbrev pub u32_of_ℤ : ℤ → ℕ
u32_of_ℤ (pos n) = n % 4294967296
u32_of_ℤ (negsuc n) = 4294967295 - n % 4294967296

-- The answer of `write`: the bytes written, or -1 with EBADF, EPIPE or ECONNRESET, or with another error.
pub data Written : Type 0 where
  wrote : ℕ → Written
  closed : Written
  failed : Written

-- One round of the loop: whether the second is over before it, and the answer of `write`.
pub record WriteTurn : Type 0 where
  pub late : Bool
  pub answer : Written

-- The loop that writes the four bytes of the session's number.
unfoldable pub write_signal :
    (failopen_enabled : Bool)
    → SignalUsageMode
    → (bytes_written : ℕ) → List WriteTurn
    → Option NanoCommunicationResult
write_signal failopen_enabled usage_mode bytes_written [] =
    if ltb bytes_written 4 then none else some nano_ok
write_signal failopen_enabled usage_mode bytes_written (t ∷ ts) =
    let after = λ (n : ℕ). write_signal failopen_enabled usage_mode (bytes_written + n) ts in
    if ltb bytes_written 4
    then if failopen_enabled && t.late then some nano_timeout else elim t.answer [
      | wrote n ↦ after n
      | closed ↦ some nano_error
      | failed ↦ some (if is_async usage_mode then nano_timeout else nano_error)
    ]
    else some nano_ok

-- What the socket answers to one signal: whether it has hung up, the writes, then for each of the three
-- retries what `poll` and `read` answer, and what `reply_from_service` holds after that `read`.
pub record Socket : Type 0 where
  pub hung_up : Bool
  pub writes : List WriteTurn
  pub poll : ℕ → ℤ
  pub read : ℕ → ℤ
  pub reply_from_service : ℕ → ℕ

unfoldable pub notify_signal_to_service :
    (failopen_enabled : Bool) → SignalUsageMode → Socket → Option NanoCommunicationResult
unfolding write_signal
notify_signal_to_service failopen_enabled usage_mode s =
    if s.hung_up then some nano_error else write_signal failopen_enabled usage_mode 0 s.writes

abbrev pub corrupted_session_id : ℕ
corrupted_session_id = 0

-- `res < 0` of an unsigned variable.
abbrev pub is_negative : ℕ → Bool
is_negative res = ltb res 0

-- The loop that waits for the acknowledgement, with `n` retries left, the next of them `retry`.
unfoldable pub wait_for_ack : Socket → (cur_session_id n retry : ℕ) → NanoCommunicationResult
wait_for_ack s cur_session_id zero retry = nano_timeout
wait_for_ack s cur_session_id (suc n) retry =
    let polled = u32_of_ℤ (s.poll retry) in
    let got = u32_of_ℤ (s.read retry) in
    let again = wait_for_ack s cur_session_id n (suc retry) in
    if is_negative polled
    then nano_error
    else if polled == 0
    then again
    else if leb got 0
    then nano_error
    else if s.reply_from_service retry == cur_session_id
    then nano_ok
    else if s.reply_from_service retry == corrupted_session_id
    then nano_error
    else nano_again

abbrev pub is_ok : NanoCommunicationResult → Bool
is_ok nano_ok = true
is_ok _ = false

unfoldable pub signal_for_session_data :
    (failopen_enabled : Bool)
    → (cur_session_id : ℕ) → SignalUsageMode
    → Socket
    → Option NanoCommunicationResult
unfolding notify_signal_to_service wait_for_ack
signal_for_session_data failopen_enabled cur_session_id usage_mode s =
    elim (notify_signal_to_service failopen_enabled usage_mode s) [
      | none ↦ none
      | some res ↦
          if is_ok res
          then some (if is_async usage_mode then nano_ok else wait_for_ack s cur_session_id 3 0)
          else some res
    ]
