-- ===== src/Wire/Replies/Laws.antt =====
-- attachments/nano_attachment/nano_attachment_io.c, service_reply_receiver: what holds when it returns.
use openappsec_attachment.Common.{
  suc, ◌-◌, ◌<◌, ◌≡◌, ◌≢◌, ◌⊎◌, inl, inr, refl, Option, none, some, List, [], ◌∷◌, arith, ◌==◌,
  if◌then◌else◌, if_split, if_case,
}
use openappsec_attachment.Metric.{
  inject_verdicts_count, drop_verdicts_count, irrelevant_verdicts_count, reconf_verdicts_count,
  inspect_verdicts_count, hold_verdicts_count,
}
use openappsec_attachment.Failing.{
  ServiceVerdict, inspect, accept, drop, inject, irrelevant, reconf, delayed,
  limit_response_headers, custom_response,
}
use openappsec_attachment.Bucket.{
  NanoCommunicationResult, nano_ok, nano_error, nano_again, nano_http_forbidden,
}
use openappsec_attachment.Wire.Signal.{is_ok}
use openappsec_attachment.Wire.Response.{
  Built, unchanged, built, overrun, handle_drop_response, handle_custom_response_with_headers,
}
use openappsec_attachment.Wire.Replies.{
  handle_inject_response, NanoHttpModification, HttpReplyFromService, Surroundings, Inspection,
  Received, returned, crashed, count, free_modifications, receive_data_from_service, set_verdict,
  set_remaining, is_reconf, end_with, tail, handle_verdict, receive_replies, signal_until_answered,
  service_reply_receiver,
}

-- A verdict that ends the transaction.
abbrev pub IsBlock : ServiceVerdict → Type 0
IsBlock v = (v ≡ drop) ⊎ (v ≡ custom_response)

-- What an answer promises: after NANO_OK no reply is expected; after NANO_HTTP_FORBIDDEN none is either,
-- the verdict blocks and there are no modifications; after NANO_ERROR a reply is still expected; and there
-- is no other answer.
abbrev pub Promised : NanoCommunicationResult → Inspection → Type 0
Promised nano_ok x = x.session.remaining_messages_to_reply ≡ 0
Promised nano_http_forbidden x =
    x.session.remaining_messages_to_reply ≡ 0 × IsBlock x.session.verdict × x.modifications ≡ []
Promised nano_error x = 0 < x.session.remaining_messages_to_reply
Promised _ x = ⊥

-- A reply that a crash can come from: it injects, or its response runs past the end of an array.
abbrev pub IsFatal : Surroundings → HttpReplyFromService → Type 0
IsFatal env r =
    (r.verdict ≡ inject)
    ⊎ ((handle_drop_response env.malloc env.memory r.web_response_data ≡ overrun)
        ⊎ (handle_custom_response_with_headers env.malloc env.memory r.custom_response_data
            ≡ overrun))

abbrev pub HasFatal : Surroundings → List HttpReplyFromService → Type 0
HasFatal env [] = ⊥
HasFatal env (r ∷ rs) = IsFatal env r ⊎ HasFatal env rs

-- Where a crash can come from: modifications that are there before, or a reply.
abbrev pub CanCrash : Surroundings → List HttpReplyFromService → List NanoHttpModification → Type 0
CanCrash env rs modifications = (modifications ≢ []) ⊎ HasFatal env rs

-- A call keeps the promise of its answer, or it crashes, by a cause.
abbrev pub IsSettled : Type 0 → Received → Type 0
IsSettled Cause (returned res x left) = Promised res x
IsSettled Cause crashed = Cause

IsSettled-imp : (C D : Type 0) → (C → D) → (r : Received) → IsSettled C r → IsSettled D r
IsSettled-imp C D f (returned res x left) h = h
IsSettled-imp C D f crashed h = f h

free-IsSettled :
    (Cause : Type 0) (l : List NanoHttpModification) (left : List HttpReplyFromService)
    (x : Inspection)
    → (l ≢ [] → Cause)
    → IsBlock x.session.verdict
    → x.session.remaining_messages_to_reply ≡ 0
    → x.modifications ≡ l
    → IsSettled Cause (free_modifications l left x)
unfolding free_modifications
free-IsSettled Cause [] left x cause v e m = (e, v, m)
free-IsSettled Cause (_ ∷ _) left x cause v e m = cause (λ nil. ground (arith, nil))

end-IsSettled :
    (Cause : Type 0) (b : Built) (left : List HttpReplyFromService) (x : Inspection)
    → (x.modifications ≢ [] → Cause)
    → (b ≡ overrun → Cause)
    → IsBlock x.session.verdict
    → IsSettled Cause (end_with b left x)
unfolding end_with
end-IsSettled Cause overrun left x full over v = over refl
end-IsSettled Cause unchanged left x full over v =
    free-IsSettled Cause x.modifications left (set_remaining 0 x) full v refl refl
end-IsSettled Cause (built r) left x full over v =
    free-IsSettled Cause x.modifications left (record (set_remaining 0 x) { web_response = some r })
      full v refl refl

-- The causes of a crash after a reply, where the loop goes on with other modifications.
later :
    (env : Surroundings) (r : HttpReplyFromService) (rs : List HttpReplyFromService)
    (l : List NanoHttpModification)
    → CanCrash env rs l
    → CanCrash env (r ∷ rs) l
later env r rs l (inl full) = inl full
later env r rs l (inr fatal) = inr (inr fatal)

-- A reply after which the loop goes on with the same modifications.
passes :
    (env : Surroundings) (r : HttpReplyFromService) (rest : List HttpReplyFromService)
    (next : Inspection → Received) (x y : Inspection)
    → y.modifications ≡ x.modifications
    → ((y : Inspection) → IsSettled (CanCrash env rest y.modifications) (next y))
    → IsSettled (CanCrash env (r ∷ rest) x.modifications) (next y)
passes env r rest next x y same n =
    IsSettled-imp (CanCrash env rest y.modifications) (CanCrash env (r ∷ rest) x.modifications)
      (λ c. later env r rest x.modifications (rw same at c)) (next y) (n y)

verdict-IsSettled :
    (env : Surroundings) (r : HttpReplyFromService) (rest : List HttpReplyFromService)
    (next : Inspection → Received) (v : ServiceVerdict) (x : Inspection)
    → r.verdict ≡ v
    → x.session.verdict ≡ v
    → ((y : Inspection) → IsSettled (CanCrash env rest y.modifications) (next y))
    → IsSettled (CanCrash env (r ∷ rest) x.modifications) (handle_verdict env r rest next v x)
unfolding handle_verdict
verdict-IsSettled env r rest next inject x same e n =
    let y = set_verdict inspect (record (count inject_verdicts_count x) {
      modifications = handle_inject_response env.room 0 x.modifications r.inject_data;
    }) in
    IsSettled-imp (CanCrash env rest y.modifications) (CanCrash env (r ∷ rest) x.modifications)
      (λ _. inr (inl (inl same))) (next y) (n y)
verdict-IsSettled env r rest next drop x same e n =
    end-IsSettled (CanCrash env (r ∷ rest) x.modifications)
      (handle_drop_response env.malloc env.memory r.web_response_data) rest
      (count drop_verdicts_count x) inl (λ over. inr (inl (inr (inl over)))) (inl e)
verdict-IsSettled env r rest next custom_response x same e n =
    let b = handle_custom_response_with_headers env.malloc env.memory r.custom_response_data in
    let x' = count drop_verdicts_count x in
    let Cause = CanCrash env (r ∷ rest) x.modifications in
    if_case (IsSettled Cause) env.two_rings
      (end-IsSettled Cause b (r ∷ rest) (record x' { primary = tail x.primary }) inl
        (λ o. inr (inl (inr (inr o)))) (inr e))
      (end-IsSettled Cause b rest x' inl (λ o. inr (inl (inr (inr o)))) (inr e))
verdict-IsSettled env r rest next accept x same e n = refl
verdict-IsSettled env r rest next irrelevant x same e n =
    passes env r rest next x (count irrelevant_verdicts_count x) refl n
verdict-IsSettled env r rest next reconf x same e n =
    passes env r rest next x
      (record (count reconf_verdicts_count x) { reconfigurations = suc x.reconfigurations }) refl n
verdict-IsSettled env r rest next inspect x same e n =
    passes env r rest next x (count inspect_verdicts_count x) refl n
verdict-IsSettled env r rest next delayed x same e n =
    passes env r rest next x (count hold_verdicts_count x) refl n
verdict-IsSettled env r rest next limit_response_headers x same e n =
    passes env r rest next x (set_verdict inspect x) refl n

replies-IsSettled :
    (env : Surroundings) (rs : List HttpReplyFromService) (x : Inspection)
    → IsSettled (CanCrash env rs x.modifications) (receive_replies env rs x)
unfolding receive_replies
replies-IsSettled env [] x =
    let n = x.session.remaining_messages_to_reply in
    if_split (IsSettled (CanCrash env [] x.modifications)) (n == 0) (λ e. ground (arith, e))
      (λ e. ground (arith, e))
replies-IsSettled env (r ∷ rs) x =
    let n = x.session.remaining_messages_to_reply in
    let Ends = IsSettled (CanCrash env (r ∷ rs) x.modifications) in
    let next = replies-IsSettled env rs in
    if_split Ends (n == 0) (λ e. ground (arith, e))
      (λ e.
        if_case Ends (receive_data_from_service 5 r.late)
          (if_case Ends (is_reconf r.verdict)
            (verdict-IsSettled env r rs (receive_replies env rs) r.verdict (set_verdict r.verdict x)
              refl refl next)
            (if_case Ends (r.session_id == x.session.session_id)
              (verdict-IsSettled env r rs (receive_replies env rs) r.verdict
                (set_verdict r.verdict (set_remaining (n - 1) x)) refl refl next)
              (passes env r rs (receive_replies env rs) x x refl next)))
          (ground (arith, e)))

-- Every signal that there is was answered with NANO_AGAIN.
abbrev pub IsAllAgain : List NanoCommunicationResult → Type 0
IsAllAgain [] = Unit
IsAllAgain (res ∷ l) = (res ≡ nano_again) × IsAllAgain l

signal-IsAllAgain :
    (l : List NanoCommunicationResult) → signal_until_answered l ≡ none → IsAllAgain l
unfolding signal_until_answered
signal-IsAllAgain [] e = tt
signal-IsAllAgain (res ∷ l) e = ground (arith, e, signal-IsAllAgain l)

abbrev pub IsSettledAnswer :
    Surroundings
    → List NanoCommunicationResult
    → List HttpReplyFromService
    → Inspection
    → Option Received
    → Type 0
IsSettledAnswer env signals rs x none =
    IsAllAgain signals × (0 < x.session.remaining_messages_to_reply)
IsSettledAnswer env signals rs x (some r) = IsSettled (CanCrash env rs x.modifications) r

-- The receiver answers NANO_OK with no reply expected any more, NANO_HTTP_FORBIDDEN with none expected, a
-- verdict to drop or a custom response, and no modifications left, or NANO_ERROR with a reply still
-- expected, and nothing else; the program crashes only where there were modifications before, a reply
-- injects some, or a reply's response runs past the end of an array; and the receiver goes on
-- signalling only where a reply is expected and every signal is answered with NANO_AGAIN.
pub receiver-IsSettled :
    (env : Surroundings) (signals : List NanoCommunicationResult) (rs : List HttpReplyFromService)
    (x : Inspection)
    → IsSettledAnswer env signals rs x (service_reply_receiver env signals rs x)
unfolding service_reply_receiver
receiver-IsSettled env signals rs x =
    if_split (IsSettledAnswer env signals rs x) (x.session.remaining_messages_to_reply == 0)
      (λ e. ground (arith, e))
      (λ e. waited (signal_until_answered signals) refl (ground (arith, e)))
  where
    waited :
        (o : Option NanoCommunicationResult)
        → signal_until_answered signals ≡ o
        → 0 < x.session.remaining_messages_to_reply
        → IsSettledAnswer env signals rs x (elim o [
          | none ↦ none
          | some res ↦ some (
              if is_ok res
              then receive_replies env rs x
              else returned nano_error (record x { restarts = suc x.restarts }) rs)
        ])
    waited none again h = (signal-IsAllAgain signals again, h)
    waited (some res) again h =
        if_case (λ r. IsSettledAnswer env signals rs x (some r)) (is_ok res)
          (replies-IsSettled env rs x) h
