-- ===== src/Wire/Signal/Laws.antt =====
-- attachments/nano_attachment/nano_attachment_io.c: that a signal to the service comes to an end, and how.
use openappsec_attachment.Common.{
  ℕ, zero, suc, ◌+◌, ◌≤◌, ◌≡◌, ◌≢◌, ◌↔◌, refl, Bool, true, false, ◌&&◌, Option, none, some, List,
  [], ◌∷◌, arith, ltb, leb, ◌==◌, negsuc, length, if◌then◌else◌, if_split, if_case,
}
use openappsec_attachment.Bucket.{
  NanoCommunicationResult, nano_ok, nano_error, nano_again, nano_timeout,
}
use openappsec_attachment.Wire.Signal.{
  SignalUsageMode, is_async, u32_of_ℤ, Written, wrote, closed, failed, WriteTurn, write_signal,
  Socket, notify_signal_to_service, wait_for_ack, signal_for_session_data, is_negative,
  corrupted_session_id, is_ok,
}

abbrev pub Returned {ℓ} : {A : Type ℓ} → Option A → Type 0
Returned none = true ≡ false
Returned (some _) = Unit

-- Every `write` writes something or fails.
abbrev pub AreWrites : List WriteTurn → Type 0
AreWrites [] = Unit
AreWrites (t ∷ ts) = t.answer ≢ wrote 0 × AreWrites ts

write_signal_returns :
    (f : Bool) (m : SignalUsageMode) (b : ℕ) (ts : List WriteTurn)
    → 4 ≤ b + length ts
    → AreWrites ts
    → Returned (write_signal f m b ts)
unfolding write_signal
write_signal_returns f m b [] h w = ground arith
write_signal_returns f m b (t ∷ ts) h (w, ws) =
    if_split Returned (ltb b 4)
      (λ _.
        if_split Returned (f && t.late) (λ _. tt)
          (λ _.
            answered t.answer w
              (λ n. write_signal_returns f m (b + suc n) ts (omega (arith, h)) ws)))
      (λ _. tt)
  where
    answered :
        (a : Written)
        → a ≢ wrote 0
        → ((n : ℕ) → Returned (write_signal f m (b + suc n) ts))
        → Returned (elim a [
          | wrote n ↦ write_signal f m (b + n) ts
          | closed ↦ some nano_error
          | failed ↦ some (if is_async m then nano_timeout else nano_error)
        ])
    answered (wrote zero) d next = absurd (d refl)
    answered (wrote (suc n)) d next = next n
    answered closed d next = tt
    answered failed d next = tt

-- A signal comes to an end where the socket has four answers and no `write` writes nothing.
pub signal_returns :
    (f : Bool) (id : ℕ) (m : SignalUsageMode) (s : Socket)
    → 4 ≤ length s.writes
    → AreWrites s.writes
    → Returned (signal_for_session_data f id m s)
unfolding signal_for_session_data notify_signal_to_service
signal_returns f id m s h w =
    go (notify_signal_to_service f m s)
      (if_case Returned s.hung_up tt (write_signal_returns f m 0 s.writes (omega (arith, h)) w))
  where
    go :
        (o : Option NanoCommunicationResult)
        → Returned o
        → Returned (elim o [
          | none ↦ none
          | some res ↦
              if is_ok res
              then some (if is_async m then nano_ok else wait_for_ack s id 3 0)
              else some res
        ])
    go none r = r
    go (some res) r = if_case Returned (is_ok res) tt tt

polled_iff :
    (polled got reply id : ℕ) (again : NanoCommunicationResult)
    → (if is_negative polled
          then nano_error
          else if polled == 0
          then again
          else if leb got 0
          then nano_error
          else if reply == id
          then nano_ok
          else if reply == corrupted_session_id
          then nano_error
          else nano_again)
        ≡ nano_timeout
      ↔ (polled ≡ 0 × again ≡ nano_timeout)
polled_iff polled got reply id again = ground arith

wait_step_iff :
    (s : Socket) (id n k : ℕ)
    → wait_for_ack s id (suc n) k ≡ nano_timeout
      ↔ (u32_of_ℤ (s.poll k) ≡ 0 × wait_for_ack s id n (suc k) ≡ nano_timeout)
unfolding wait_for_ack
wait_step_iff s id n k =
    polled_iff (u32_of_ℤ (s.poll k)) (u32_of_ℤ (s.read k)) (s.reply_from_service k) id
      (wait_for_ack s id n (suc k))

wait_ends : (s : Socket) (id k : ℕ) → wait_for_ack s id 0 k ≡ nano_timeout
unfolding wait_for_ack
wait_ends s id k = refl

-- The wait for the acknowledgement times out just when all three calls of `poll` do.
pub wait_times_out_iff :
    (s : Socket) (id : ℕ)
    → wait_for_ack s id 3 0 ≡ nano_timeout
      ↔ (u32_of_ℤ (s.poll 0) ≡ 0 × u32_of_ℤ (s.poll 1) ≡ 0 × u32_of_ℤ (s.poll 2) ≡ 0)
wait_times_out_iff s id = ground (
  wait_step_iff s id 2 0,
  wait_step_iff s id 1 1,
  wait_step_iff s id 0 2,
  wait_ends s id 3,
  arith,
)

-- A call of `poll` that fails and a call of `read` that fails pass as an acknowledgement where the
-- variable for the reply, which `read` has not written, holds the session's number.
pub failed_read_acknowledges :
    (s : Socket) (id : ℕ)
    → s.poll 0 ≡ negsuc 0
    → s.read 0 ≡ negsuc 0
    → s.reply_from_service 0 ≡ id
    → wait_for_ack s id 3 0 ≡ nano_ok
unfolding wait_for_ack
failed_read_acknowledges s id p r e = ground arith
