-- ===== src/Wire/Replies.antt =====
-- attachments/nano_attachment/nano_attachment_io.c: the replies of the service to what it was sent about a
-- session.
-- The bytes of the replies are memory, as in Wire/Response. The answers of `malloc` in the making of a
-- response are a parameter, and so is, for each modification of a reply, whether there is memory for it.
-- A reply has one of the verdicts of the enumeration. A free of memory that `malloc` has not given, and a
-- write past the end of an array, end the program.
pub mod Inject
pub mod Laws
pub mod Answers
pub mod Popped
use openappsec_attachment.Common.{
  ℕ, zero, suc, ◌+◌, ◌-◌, Bool, true, false, not, ◌&&◌, ◌||◌, Option, none, some, List, [], ◌∷◌,
  ◌==◌, Memory, ℤ, if◌then◌else◌,
}
use openappsec_attachment.Metric.{
  Metrics, MetricType, update_metric_field, inject_verdicts_count, drop_verdicts_count,
  accept_verdicts_count, irrelevant_verdicts_count, reconf_verdicts_count, inspect_verdicts_count,
  hold_verdicts_count,
}
use openappsec_attachment.Failing.{
  ServiceVerdict, inspect, accept, drop, inject, irrelevant, reconf, delayed,
  limit_response_headers, custom_response,
}
use openappsec_attachment.Bucket.{
  AttachmentVerdict, NanoCommunicationResult, nano_ok, nano_error, nano_again, nano_http_forbidden,
}
use openappsec_attachment.Sender.{HttpSessionData}
use openappsec_attachment.Wire.Signal.{is_ok}
use openappsec_attachment.Wire.Response.{
  WebResponse, Built, unchanged, built, overrun, HttpWebResponseData, HttpCustomResponseData,
  handle_drop_response, handle_custom_response_with_headers,
}

-- `HttpInjectData`, with the bytes that follow it: `injection_size` of them.
pub record HttpInjectData : Type 0 where
  pub injection_pos : ℤ
  pub mod_type : ℕ
  pub injection_size : ℕ
  pub is_header : ℕ
  pub orig_buff_index : ℕ
  pub bytes : List ℕ

-- `NanoHttpModificationList`: the text that is copied, and the fields.
pub record NanoHttpModification : Type 0 where
  pub modification : HttpInjectData
  pub modification_buffer : List ℕ

-- `snprintf(..., "%s", ...)` stops at a NUL.
unfoldable pub text_of : List ℕ → List ℕ
text_of [] = []
text_of (b ∷ bs) = let rest = text_of bs in if b == 0 then [] else b ∷ rest

unfoldable pub create_modification_node : HttpInjectData → NanoHttpModification
unfolding text_of
create_modification_node d = record { modification = d; modification_buffer = text_of d.bytes }

-- The loop over the modifications of a reply, from that of index `i`; `modification_list` is the list that
-- the caller's pointer points to. To append, the loop moves that pointer itself to the end.
unfoldable pub handle_inject_response :
    (room : ℕ → Bool)
    → (i : ℕ) → (modification_list : List NanoHttpModification) → List HttpInjectData
    → List NanoHttpModification
unfolding create_modification_node
handle_inject_response room i modification_list [] = modification_list
handle_inject_response room i [] (d ∷ ds) =
    let rest = handle_inject_response room (suc i) (create_modification_node d ∷ []) ds in
    if room i then rest else []
handle_inject_response room i (m ∷ ms) (d ∷ ds) =
    let rest = handle_inject_response room (suc i) [] ds in if room i then rest else []

-- `late` attempts to take it fail before one does not.
pub record HttpReplyFromService : Type 0 where
  pub verdict : ServiceVerdict
  pub session_id : ℕ
  pub inject_data : List HttpInjectData
  pub web_response_data : HttpWebResponseData
  pub custom_response_data : HttpCustomResponseData
  pub late : ℕ

pub record Surroundings : Type 0 where
  pub malloc : ℕ → Bool
  pub memory : Memory
  pub room : ℕ → Bool
  pub two_rings : Bool

-- What the receiver reads and writes. Where the attachment has two rings, `primary` holds the replies in
-- that of the asynchronous use, from which this receiver does not read.
pub record Inspection : Type 0 where
  pub session : HttpSessionData
  pub modifications : List NanoHttpModification
  pub web_response : Option WebResponse
  pub metrics : Metrics
  pub primary : List HttpReplyFromService
  pub reconfigurations : ℕ
  pub restarts : ℕ

-- What a call comes to: its answer with the replies that are left in the ring, or the program's end.
pub data Received : Type 0 where
  returned : NanoCommunicationResult → Inspection → List HttpReplyFromService → Received
  crashed : Received

-- The loop of attempts, `n` of them.
unfoldable pub receive_data_from_service : (n late : ℕ) → Bool
receive_data_from_service zero late = false
receive_data_from_service (suc n) zero = true
receive_data_from_service (suc n) (suc late) = receive_data_from_service n late

abbrev pub set_verdict : ServiceVerdict → Inspection → Inspection
set_verdict v x = record x { session = record x.session { verdict = v } }

abbrev pub set_remaining : ℕ → Inspection → Inspection
set_remaining n x = record x { session = record x.session { remaining_messages_to_reply = n } }

abbrev pub count : MetricType → Inspection → Inspection
count t x = record x { metrics = update_metric_field t 1 x.metrics }

abbrev pub is_reconf : ServiceVerdict → Bool
is_reconf reconf = true
is_reconf _ = false

-- The loop that frees the modifications: `free(current_modification->modification.data)` is given the
-- address of a member.
unfoldable pub free_modifications :
    List NanoHttpModification → (replies_left : List HttpReplyFromService) → Inspection → Received
free_modifications [] left x = returned nano_http_forbidden x left
free_modifications (_ ∷ _) left x = crashed

-- The end of a drop, with what became of the response.
unfoldable pub end_with : Built → (replies_left : List HttpReplyFromService) → Inspection → Received
unfolding free_modifications
end_with overrun left x = crashed
end_with unchanged left x = free_modifications x.modifications left (set_remaining 0 x)
end_with (built r) left x =
    free_modifications x.modifications left (record (set_remaining 0 x) { web_response = some r })

abbrev pub tail {ℓ} : {A : Type ℓ} → List A → List A
tail [] = []
tail (_ ∷ xs) = xs

-- One reply that concerns the session or the configuration: the body of the loop after the verdict is set.
-- `rest` are the replies behind it, and `next` is the loop that goes on with them.
unfoldable pub handle_verdict :
    Surroundings
    → (r : HttpReplyFromService) → (rest : List HttpReplyFromService)
    → (next : Inspection → Received) → ServiceVerdict
    → Inspection
    → Received
unfolding update_metric_field handle_inject_response end_with handle_drop_response
    handle_custom_response_with_headers
handle_verdict env r rest next inject x = next (
    set_verdict inspect (record (count inject_verdicts_count x) {
      modifications = handle_inject_response env.room 0 x.modifications r.inject_data;
    }))
handle_verdict env r rest next drop x =
    end_with (handle_drop_response env.malloc env.memory r.web_response_data) rest
      (count drop_verdicts_count x)
handle_verdict env r rest next custom_response x =
    let b = handle_custom_response_with_headers env.malloc env.memory r.custom_response_data in
    let x' = count drop_verdicts_count x in
    if env.two_rings
    then end_with b (r ∷ rest) (record x' { primary = tail x.primary })
    else end_with b rest x'
handle_verdict env r rest next accept x =
    returned nano_ok (set_remaining 0 (count accept_verdicts_count x)) rest
handle_verdict env r rest next irrelevant x = next (count irrelevant_verdicts_count x)
handle_verdict env r rest next reconf x =
    next (record (count reconf_verdicts_count x) { reconfigurations = suc x.reconfigurations })
handle_verdict env r rest next inspect x = next (count inspect_verdicts_count x)
handle_verdict env r rest next delayed x = next (count hold_verdicts_count x)
handle_verdict env r rest next limit_response_headers x = next (set_verdict inspect x)

-- The loop while replies are expected; the list is the ring that it reads from.
unfoldable pub receive_replies : Surroundings → List HttpReplyFromService → Inspection → Received
unfolding handle_verdict receive_data_from_service
receive_replies env [] x =
    if x.session.remaining_messages_to_reply == 0
    then returned nano_ok x []
    else returned nano_error x []
receive_replies env (r ∷ rs) x =
    let next = λ (y : Inspection). receive_replies env rs y in
    let own = set_remaining (x.session.remaining_messages_to_reply - 1) x in
    if x.session.remaining_messages_to_reply == 0
    then returned nano_ok x (r ∷ rs)
    else if receive_data_from_service 5 r.late
    then if is_reconf r.verdict
      then handle_verdict env r rs next r.verdict (set_verdict r.verdict x)
      else if r.session_id == x.session.session_id
      then handle_verdict env r rs next r.verdict (set_verdict r.verdict own)
      else next x
    else returned nano_error x (r ∷ rs)

-- The signals until one is not answered with NANO_AGAIN; `none` where the answers end first.
unfoldable pub signal_until_answered : List NanoCommunicationResult → Option NanoCommunicationResult
signal_until_answered [] = none
signal_until_answered (nano_again ∷ l) = signal_until_answered l
signal_until_answered (res ∷ l) = some res

unfoldable pub service_reply_receiver :
    Surroundings
    → List NanoCommunicationResult
    → List HttpReplyFromService
    → Inspection
    → Option Received
unfolding signal_until_answered receive_replies
service_reply_receiver env signals replies x =
    if x.session.remaining_messages_to_reply == 0
    then some (returned nano_ok (set_verdict inspect x) replies)
    else elim (signal_until_answered signals) [
      | none ↦ none
      | some res ↦ some (
          if is_ok res
          then receive_replies env replies x
          else returned nano_error (record x { restarts = suc x.restarts }) replies)
    ]
