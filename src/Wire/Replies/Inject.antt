-- ===== src/Wire/Replies/Inject.antt =====
-- attachments/nano_attachment/nano_attachment_io.c, handle_inject_response: what is left of the
-- modifications of a reply.
use openappsec_attachment.Common.{
  ℕ, suc, ◌+◌, ◌-◌, ◌<◌, ◌≡◌, ◌≢◌, refl, ap, ◌∙◌, Bool, true, some, List, [], ◌∷◌, ◌++◌, arith,
  ◌==◌, length, if◌then◌else◌, if_split,
}
use openappsec_attachment.Failing.{drop}
use openappsec_attachment.Wire.Response.{Built, unchanged, built, overrun, handle_drop_response}
use openappsec_attachment.Metric.{drop_verdicts_count}
use openappsec_attachment.Wire.Replies.Answers.{timely}
use openappsec_attachment.Wire.Replies.{
  HttpInjectData, NanoHttpModification, create_modification_node, handle_inject_response,
  HttpReplyFromService, Surroundings, Inspection, Received, crashed, receive_data_from_service,
  set_verdict, set_remaining, end_with, free_modifications, handle_verdict, receive_replies,
  is_reconf, count,
}

room_step :
    (room : ℕ → Bool) (i : ℕ) (l r : List NanoHttpModification)
    → room i ≡ true
    → l ≡ r
    → (if room i then l else []) ≡ r
room_step room i l r e h = if_split (λ t. t ≡ r) (room i) (λ _. h) (λ f. absurd (ground (arith, e)))

-- Of two modifications none is left.
two_lost :
    (room : ℕ → Bool) (i : ℕ) (a b : HttpInjectData) (ds : List HttpInjectData)
    → ((j : ℕ) → room j ≡ true)
    → handle_inject_response room i [] (a ∷ b ∷ ds)
      ≡ handle_inject_response room (suc (suc i)) [] ds
unfolding handle_inject_response
two_lost room i a b ds r =
    let rest = handle_inject_response room (suc (suc i)) [] ds in
    room_step room i (if room (suc i) then rest else []) rest (r i)
      (room_step room (suc i) rest rest (r (suc i)) refl)

one_left :
    (room : ℕ → Bool) (i : ℕ) (d : HttpInjectData)
    → room i ≡ true
    → handle_inject_response room i [] (d ∷ []) ≡ create_modification_node d ∷ []
unfolding handle_inject_response
one_left room i d r =
    room_step room i (create_modification_node d ∷ []) (create_modification_node d ∷ []) r refl

none_left : (room : ℕ → Bool) (i : ℕ) → handle_inject_response room i [] [] ≡ []
unfolding handle_inject_response
none_left room i = refl

inject_from :
    (room : ℕ → Bool) (i k : ℕ) (front : List HttpInjectData) (last : HttpInjectData)
    → ((j : ℕ) → room j ≡ true)
    → length front ≡ k + k
    → (handle_inject_response room i [] front ≡ [])
      × (handle_inject_response room i [] (front ++ (last ∷ []))
          ≡ create_modification_node last ∷ [])
inject_from room i k [] last r e = (none_left room i, one_left room i last (r i))
inject_from room i k (a ∷ []) last r e = absurd (omega (arith, e))
inject_from room i k (a ∷ b ∷ front) last r e =
    let (even, odd) = inject_from room (suc (suc i)) (k - 1) front last r (omega (arith, e)) in
    (two_lost room i a b front r ∙ even, two_lost room i a b (front ++ (last ∷ [])) r ∙ odd)

-- A reply's modifications are put into an empty list, with memory for all: of an even number of them none
-- is in the list afterwards, and of an odd number only the last.
pub inject_keeps_last :
    (room : ℕ → Bool) (k : ℕ) (front : List HttpInjectData) (last : HttpInjectData)
    → ((j : ℕ) → room j ≡ true)
    → length front ≡ k + k
    → (handle_inject_response room 0 [] front ≡ [])
      × (handle_inject_response room 0 [] (front ++ (last ∷ []))
          ≡ create_modification_node last ∷ [])
inject_keeps_last room k front last r e = inject_from room 0 k front last r e

free_crashes :
    (l : List NanoHttpModification) (left : List HttpReplyFromService) (x : Inspection)
    → l ≢ []
    → free_modifications l left x ≡ crashed
unfolding free_modifications
free_crashes [] left x h = absurd (h refl)
free_crashes (_ ∷ _) left x h = refl

end_crashes :
    (b : Built) (left : List HttpReplyFromService) (x : Inspection)
    → x.modifications ≢ []
    → end_with b left x ≡ crashed
unfolding end_with
end_crashes overrun left x h = refl
end_crashes unchanged left x h = free_crashes x.modifications left (set_remaining 0 x) h
end_crashes (built r) left x h =
    free_crashes x.modifications left (record (set_remaining 0 x) { web_response = some r }) h

verdict_crashes :
    (env : Surroundings) (r : HttpReplyFromService) (rs : List HttpReplyFromService)
    (next : Inspection → Received) (x : Inspection)
    → x.modifications ≢ []
    → handle_verdict env r rs next drop x ≡ crashed
unfolding handle_verdict
verdict_crashes env r rs next x m =
    end_crashes (handle_drop_response env.malloc env.memory r.web_response_data) rs
      (count drop_verdicts_count x) m

-- A drop of the session, while a reply is expected and a modification is in the list, ends the program.
pub drop_crashes :
    (env : Surroundings) (r : HttpReplyFromService) (rs : List HttpReplyFromService)
    (x : Inspection)
    → 0 < x.session.remaining_messages_to_reply
    → r.late < 5
    → r.verdict ≡ drop
    → r.session_id ≡ x.session.session_id
    → x.modifications ≢ []
    → receive_replies env (r ∷ rs) x ≡ crashed
unfolding receive_replies
drop_crashes env r rs x n t v i m =
    let k = x.session.remaining_messages_to_reply in
    if_split (λ t. t ≡ crashed) (k == 0) (λ e. absurd (ground (arith, e, n)))
      (λ _.
        if_split (λ t. t ≡ crashed) (receive_data_from_service 5 r.late)
          (λ _.
            if_split (λ t. t ≡ crashed) (is_reconf r.verdict) (λ e. absurd (ground (arith, e, v)))
              (λ _.
                if_split (λ t. t ≡ crashed) (r.session_id == x.session.session_id)
                  (λ _.
                    ap
                      (λ w.
                        handle_verdict env r rs (receive_replies env rs) w
                          (set_verdict r.verdict (set_remaining (k - 1) x)))
                      v
                    ∙ verdict_crashes env r rs (receive_replies env rs)
                        (set_verdict r.verdict (set_remaining (k - 1) x)) m)
                  (λ e. absurd (ground (arith, e, i)))))
          (λ e. absurd (ground (arith, e, timely 5 r.late t))))
