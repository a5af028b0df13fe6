-- ===== src/Wire/Replies/Answers.antt =====
-- attachments/nano_attachment/nano_attachment_io.c, service_reply_receiver: when it does not fail.
use openappsec_attachment.Common.{
  ℕ, zero, suc, ◌-◌, ◌≤◌, ◌<◌, ◌≡◌, refl, ap, Bool, true, false, ◌&&◌, not, Option, none, some,
  List, [], ◌∷◌, arith, ◌==◌, if◌then◌else◌, if_split, if_case,
}
use openappsec_attachment.Metric.{
  inject_verdicts_count, drop_verdicts_count, irrelevant_verdicts_count, reconf_verdicts_count,
  inspect_verdicts_count, hold_verdicts_count,
}
use openappsec_attachment.Failing.{
  ServiceVerdict, inspect, accept, drop, inject, irrelevant, reconf, delayed,
  limit_response_headers, custom_response,
}
use openappsec_attachment.Bucket.{NanoCommunicationResult, nano_ok, nano_error}
use openappsec_attachment.Wire.Signal.{is_ok}
use openappsec_attachment.Wire.Response.{
  Built, unchanged, built, overrun, handle_drop_response, handle_custom_response_with_headers,
}
use openappsec_attachment.Wire.Replies.{
  NanoHttpModification, HttpReplyFromService, Surroundings, Inspection, Received, returned,
  handle_inject_response, receive_data_from_service, set_verdict, set_remaining, count, is_reconf,
  free_modifications, end_with, tail, handle_verdict, receive_replies, signal_until_answered,
  service_reply_receiver,
}

-- The replies of a ring that concern the session.
abbrev pub own_replies : ℕ → List HttpReplyFromService → ℕ
own_replies id [] = 0
own_replies id (r ∷ rs) =
    if not (is_reconf r.verdict) && (r.session_id == id)
    then suc (own_replies id rs)
    else own_replies id rs

-- Each can be taken within five attempts.
abbrev pub AreTimely : List HttpReplyFromService → Type 0
AreTimely [] = Unit
AreTimely (r ∷ rs) = r.late < 5 × AreTimely rs

abbrev pub NotFailed : Received → Type 0
NotFailed (returned nano_error x left) = true ≡ false
NotFailed _ = Unit

pub timely : (n late : ℕ) → late < n → receive_data_from_service n late ≡ true
unfolding receive_data_from_service
timely zero late h = absurd (omega arith)
timely (suc n) zero h = refl
timely (suc n) (suc late) h = timely n late (omega arith)

free-NotFailed :
    (l : List NanoHttpModification) (left : List HttpReplyFromService) (x : Inspection)
    → NotFailed (free_modifications l left x)
unfolding free_modifications
free-NotFailed [] left x = tt
free-NotFailed (_ ∷ _) left x = tt

end-NotFailed :
    (b : Built) (left : List HttpReplyFromService) (x : Inspection) → NotFailed (end_with b left x)
unfolding end_with
end-NotFailed overrun left x = tt
end-NotFailed unchanged left x = free-NotFailed x.modifications left (set_remaining 0 x)
end-NotFailed (built r) left x =
    free-NotFailed x.modifications left (record (set_remaining 0 x) { web_response = some r })

-- The loop goes on with the session's number and the count of expected replies unchanged.
verdict-NotFailed :
    (env : Surroundings) (r : HttpReplyFromService) (rest : List HttpReplyFromService)
    (next : Inspection → Received) (v : ServiceVerdict) (x : Inspection)
    → ((y : Inspection)
        → y.session.session_id ≡ x.session.session_id
        → y.session.remaining_messages_to_reply ≡ x.session.remaining_messages_to_reply
        → NotFailed (next y))
    → NotFailed (handle_verdict env r rest next v x)
unfolding handle_verdict
verdict-NotFailed env r rest next inject x n =
    n
      (set_verdict inspect (record (count inject_verdicts_count x) {
        modifications = handle_inject_response env.room 0 x.modifications r.inject_data;
      }))
      refl refl
verdict-NotFailed env r rest next drop x n =
    end-NotFailed (handle_drop_response env.malloc env.memory r.web_response_data) rest
      (count drop_verdicts_count x)
verdict-NotFailed env r rest next custom_response x n =
    let b = handle_custom_response_with_headers env.malloc env.memory r.custom_response_data in
    let x' = count drop_verdicts_count x in
    if_case NotFailed env.two_rings
      (end-NotFailed b (r ∷ rest) (record x' { primary = tail x.primary }))
      (end-NotFailed b rest x')
verdict-NotFailed env r rest next accept x n = tt
verdict-NotFailed env r rest next irrelevant x n = n (count irrelevant_verdicts_count x) refl refl
verdict-NotFailed env r rest next reconf x n =
    n (record (count reconf_verdicts_count x) { reconfigurations = suc x.reconfigurations }) refl
      refl
verdict-NotFailed env r rest next inspect x n = n (count inspect_verdicts_count x) refl refl
verdict-NotFailed env r rest next delayed x n = n (count hold_verdicts_count x) refl refl
verdict-NotFailed env r rest next limit_response_headers x n = n (set_verdict inspect x) refl refl

-- The replies behind a reply that does not count, and behind one that does.
own_skip :
    (n own : ℕ) (reconfigures mine : Bool)
    → n ≤ (if not reconfigures && mine then suc own else own)
    → (reconfigures ≡ true → n ≤ own) × (mine ≡ false → n ≤ own) × (n - 1 ≤ own)
own_skip n own true mine h = (λ e. h, λ e. h, omega (arith, h))
own_skip n own false false h = (λ e. h, λ e. h, omega (arith, h))
own_skip n own false true h = (λ e. ground arith, λ e. ground arith, omega (arith, h))

replies-NotFailed :
    (env : Surroundings) (rs : List HttpReplyFromService) (x : Inspection)
    → AreTimely rs
    → x.session.remaining_messages_to_reply ≤ own_replies x.session.session_id rs
    → NotFailed (receive_replies env rs x)
unfolding receive_replies
replies-NotFailed env [] x t h =
    if_split NotFailed (x.session.remaining_messages_to_reply == 0) (λ _. tt)
      (λ e. absurd (ground (arith, e, h)))
replies-NotFailed env (r ∷ rs) x (t, ts) h =
    let n = x.session.remaining_messages_to_reply in
    let id = x.session.session_id in
    let (skip, other, own) =
      own_skip n (own_replies id rs) (is_reconf r.verdict) (r.session_id == id) h in
    if_case NotFailed (n == 0) tt (
      if_split NotFailed (receive_data_from_service 5 r.late)
        (λ _.
          if_split NotFailed (is_reconf r.verdict)
            (λ e.
              verdict-NotFailed env r rs (receive_replies env rs) r.verdict
                (set_verdict r.verdict x)
                (λ y i k.
                  replies-NotFailed env rs y ts
                    (omega (arith, k, ap (λ j. own_replies j rs) i, skip e))))
            (λ _.
              if_split NotFailed (r.session_id == x.session.session_id)
                (λ _.
                  verdict-NotFailed env r rs (receive_replies env rs) r.verdict
                    (set_verdict r.verdict (set_remaining (n - 1) x))
                    (λ y i k.
                      replies-NotFailed env rs y ts
                        (omega (arith, k, ap (λ j. own_replies j rs) i, own))))
                (λ e. replies-NotFailed env rs x ts (other e))))
        (λ e. absurd (ground (arith, e, timely 5 r.late t))))

abbrev pub HasNotFailed : Option Received → Type 0
HasNotFailed none = true ≡ false
HasNotFailed (some r) = NotFailed r

-- Where the service has acknowledged the chunks, and has put as many replies of the session into the ring
-- as are expected, each to be taken within five attempts, the receiver does not answer NANO_ERROR.
pub receiver-HasNotFailed :
    (env : Surroundings) (signals : List NanoCommunicationResult) (rs : List HttpReplyFromService)
    (x : Inspection)
    → signal_until_answered signals ≡ some nano_ok
    → AreTimely rs
    → x.session.remaining_messages_to_reply ≤ own_replies x.session.session_id rs
    → HasNotFailed (service_reply_receiver env signals rs x)
unfolding service_reply_receiver
receiver-HasNotFailed env signals rs x s t h =
    if_case HasNotFailed (x.session.remaining_messages_to_reply == 0) tt
      (waited (signal_until_answered signals) s)
  where
    waited :
        (o : Option NanoCommunicationResult)
        → o ≡ some nano_ok
        → HasNotFailed (elim o [
          | none ↦ none
          | some res ↦ some (
              if is_ok res
              then receive_replies env rs x
              else returned nano_error (record x { restarts = suc x.restarts }) rs)
        ])
    waited none e = absurd (ground arith)
    waited (some nano_ok) e = replies-NotFailed env rs x t h
    waited (some _) e = absurd (ground arith)
