-- ===== src/Tests/Wire.antt =====
-- Runs of attachments/nano_attachment/nano_attachment_io.c.
use openappsec_attachment.Common.{
  ℕ, zero, suc, ◌≡◌, ◌≢◌, ◌≤◌, ◌<◌, ◌↔◌, ◌⊎◌, refl, Bool, true, false, none, some, List, [], ◌∷◌,
  ◌++◌, arith, pos, negsuc, inl, length, Memory, copy, leb, if◌then◌else◌,
}
use openappsec_attachment.Failing.{inspect, drop, inject, accept}
use openappsec_attachment.Bucket.{NanoCommunicationResult, nano_ok, nano_error, nano_again}
use openappsec_attachment.Wire.Signal.{
  signal_usage_sync, WriteTurn, wrote, Socket, signal_for_session_data,
}
use openappsec_attachment.Wire.Signal.Laws.{Returned, signal_returns}
use openappsec_attachment.Wire.Send.{Attempts, send_session_data_to_service}
use openappsec_attachment.Wire.Send.Laws.{IsOnce, send-IsOnce}
use openappsec_attachment.Wire.Response.{
  CustomWebResponseData, unknown, HttpCustomResponseData, overrun, built,
  custom_response_with_headers, handle_custom_web_response, handle_custom_response_with_headers,
}
use openappsec_attachment.Wire.Response.Laws.{custom_overruns_iff}
use openappsec_attachment.Wire.Response.Packed.{Holds, pack_headers, packed_read_back}
use openappsec_attachment.Wire.Replies.{
  HttpInjectData, HttpReplyFromService, Surroundings, Inspection, create_modification_node,
  handle_inject_response, signal_until_answered, service_reply_receiver,
}
use openappsec_attachment.Wire.Replies.Laws.{IsSettledAnswer, receiver-IsSettled}
use openappsec_attachment.Wire.Replies.Answers.{HasNotFailed, receiver-HasNotFailed}
use openappsec_attachment.Wire.Replies.Inject.{inject_keeps_last}
use openappsec_attachment.Wire.Senders.{HttpHeaderData, Transfer, IsFinished}
use openappsec_attachment.Wire.Senders.Headers.{
  IsCut, send_bulks, nano_header_sender, header_sender_cuts,
}
use openappsec_attachment.Wire.Senders.Bodies.{
  numbered, nano_body_sender, body_sender_ends, many_bodies_endless,
}
use openappsec_attachment.Wire.Senders.Metadata.{
  HttpMetaData, concat, sent_fragments, metadata_bytes, metadata_framed,
}

-- The signal.
abbrev one_byte : WriteTurn
one_byte = record { late = false; answer = wrote 1 }

abbrev socket : Socket
socket = record {
  hung_up = false;
  writes = one_byte ∷ one_byte ∷ one_byte ∷ one_byte ∷ [];
  poll = λ i. pos 1;
  read = λ i. pos 4;
  reply_from_service = λ i. 7;
}

signal_returns_example : Returned (signal_for_session_data true 7 signal_usage_sync socket)
signal_returns_example = signal_returns true 7 signal_usage_sync socket (omega arith) (
  (λ e. ground (arith, e)),
  ((λ e. ground (arith, e)), ((λ e. ground (arith, e)), ((λ e. ground (arith, e)), tt))),
)

-- The chunk that is sent in the third attempt.
abbrev third : Attempts
third = record {
  push = λ k. if leb 3 k then pos 0 else negsuc 2;
  signal = λ k. if leb 2 k then nano_ok else nano_error;
  restart = λ k. nano_ok;
}

third_plain :
    (k : ℕ)
    → ((if leb 2 k then nano_ok else nano_error) ≡ nano_ok)
      ⊎ ((if leb 2 k then nano_ok else nano_error) ≡ nano_error)
third_plain k = ground arith

send-IsOnce_example : IsOnce (send_session_data_to_service third)
send-IsOnce_example = send-IsOnce third third_plain (λ k. inl refl)

-- The responses.
abbrev has_room : ℕ → Bool
has_room i = true

abbrev blank : Memory
blank i = 65

abbrev long_uuid : CustomWebResponseData
long_uuid = record {
  uuid_size = 60;
  response_code = 403;
  title_size = 5;
  body_size = 9;
  data_at = 100;
}

custom_overruns_iff_example :
    handle_custom_web_response has_room blank long_uuid ≡ overrun
    ↔ (51 ≤ 60 × 60 < 64 × 0 < 5 × 5 < 64 × 0 < 9 × 9 < 128 × true ≡ true × true ≡ true)
custom_overruns_iff_example = custom_overruns_iff has_room blank long_uuid

abbrev header : HttpHeaderData
header = record { key = 72 ∷ 111 ∷ []; value = 118 ∷ [] }

abbrev packed : Memory
packed = copy blank 10 (2 ∷ 0 ∷ 1 ∷ 0 ∷ 72 ∷ 111 ∷ 118 ∷ 66 ∷ 67 ∷ [])

packed-Holds : Holds packed 10 (pack_headers (header ∷ []) ++ (66 ∷ 67 ∷ []))
unfolding pack_headers copy
packed-Holds = (refl, (refl, (refl, (refl, (refl, (refl, (refl, (refl, (refl, tt)))))))))

packed_read_back_example :
    handle_custom_response_with_headers has_room packed
      (record { response_code = 403; body_size = 2; headers_count = 1; data_at = 10 })
    ≡ built (custom_response_with_headers 403 (header ∷ []) (66 ∷ 67 ∷ []))
packed_read_back_example =
    packed_read_back has_room packed 403 10 (header ∷ []) (66 ∷ 67 ∷ []) (λ i. refl)
      (omega arith, omega arith, tt) packed-Holds

-- The replies: one of another session, one that injects, and one that accepts.
abbrev injection : HttpInjectData
injection = record {
  injection_pos = pos 3;
  mod_type = 1;
  injection_size = 2;
  is_header = 0;
  orig_buff_index = 0;
  bytes = 60 ∷ 62 ∷ [];
}

abbrev no_response : HttpCustomResponseData
no_response = record { response_code = 0; body_size = 0; headers_count = 0; data_at = 0 }

abbrev foreign : HttpReplyFromService
foreign = record {
  verdict = drop;
  session_id = 8;
  inject_data = [];
  web_response_data = unknown;
  custom_response_data = no_response;
  late = 0;
}

abbrev injecting : HttpReplyFromService
injecting = record foreign {
  verdict = inject;
  session_id = 7;
  inject_data = injection ∷ [];
  late = 4;
}

abbrev accepting : HttpReplyFromService
accepting = record foreign { verdict = accept; session_id = 7 }

abbrev dropping : HttpReplyFromService
dropping = record foreign { session_id = 7 }

abbrev around : Surroundings
around = record { malloc = has_room; memory = blank; room = has_room; two_rings = true }

abbrev inspection : Inspection
inspection = record {
  session = record { verdict = inspect; session_id = 7; remaining_messages_to_reply = 2 };
  modifications = [];
  web_response = none;
  metrics = record { metric_data = λ i. 0; metric_average_data_divisor = λ i. 0 };
  primary = [];
  reconfigurations = 0;
  restarts = 0;
}

abbrev replies : List HttpReplyFromService
replies = foreign ∷ injecting ∷ accepting ∷ []

receiver-IsSettled_example :
    IsSettledAnswer around
      (nano_again ∷ nano_ok ∷ [])
      replies
      inspection
      (service_reply_receiver around (nano_again ∷ nano_ok ∷ []) replies inspection)
receiver-IsSettled_example =
    receiver-IsSettled around (nano_again ∷ nano_ok ∷ []) replies inspection

receiver-HasNotFailed_example :
    HasNotFailed (service_reply_receiver around (nano_again ∷ nano_ok ∷ []) replies inspection)
unfolding signal_until_answered
receiver-HasNotFailed_example =
    receiver-HasNotFailed around (nano_again ∷ nano_ok ∷ []) replies inspection refl
      (omega arith, (omega arith, (omega arith, tt))) (omega arith)

inject_keeps_last_example :
    (handle_inject_response has_room 0 [] (injection ∷ injection ∷ []) ≡ [])
    × (handle_inject_response has_room 0 [] (injection ∷ injection ∷ injection ∷ [])
        ≡ create_modification_node injection ∷ [])
inject_keeps_last_example =
    inject_keeps_last has_room 1 (injection ∷ injection ∷ []) injection (λ j. refl) refl

abbrev modified : Inspection
modified = record inspection {
  modifications = record { modification = injection; modification_buffer = 60 ∷ [] } ∷ [];
}

modified-nonempty : modified.modifications ≢ []
modified-nonempty e = ground (arith, e)

-- The senders.
abbrev takes_all : ℕ → NanoCommunicationResult
takes_all i = nano_ok

abbrev transfer : Transfer
transfer = record {
  res = nano_ok;
  async_failed = record { queue = λ i. 0; head = 0; tail = 0; count = 0 };
  num_messages_sent = 1;
  sent = [];
}

abbrev twelve : List HttpHeaderData
twelve =
    header ∷ header ∷ header ∷ header ∷ header ∷ header ∷ header ∷ header ∷ header ∷ header ∷ header
    ∷ header ∷ []

header_sender_cuts_example :
    let run = send_bulks takes_all [] 0 twelve in
    IsCut takes_all run.refused 0 twelve run.bulks
    × IsFinished run.refused run.bulks
        (length run.bulks)
        true
        nano_again
        nano_ok
        signal_usage_sync
        transfer
        (nano_header_sender takes_all twelve true nano_again signal_usage_sync 7 transfer)
header_sender_cuts_example =
    header_sender_cuts takes_all twelve true nano_again signal_usage_sync 7 transfer

body_sender_ends_example :
    (y : Transfer) × nano_body_sender takes_all 3
        ((1 ∷ []) ∷ (2 ∷ 3 ∷ []) ∷ [])
        false
        nano_ok
        signal_usage_sync
        7
        transfer
      ≡ some y
    × IsFinished false
        (numbered 0 ((1 ∷ []) ∷ (2 ∷ 3 ∷ []) ∷ []))
        2
        false
        nano_ok
        nano_ok
        signal_usage_sync
        transfer
        y
body_sender_ends_example =
    body_sender_ends takes_all ((1 ∷ []) ∷ (2 ∷ 3 ∷ []) ∷ []) false nano_ok signal_usage_sync 7
      transfer (λ j. refl) (omega arith)

abbrev pieces : ℕ → List (List ℕ)
pieces zero = []
pieces (suc n) = (1 ∷ []) ∷ pieces n

length-pieces : (n : ℕ) → length (pieces n) ≡ n
length-pieces zero = refl
length-pieces (suc n) = omega (arith, length-pieces n)

pieces-many : 256 ≤ length (pieces 300)
pieces-many = omega (arith, length-pieces 300)

many_bodies_endless_example :
    nano_body_sender takes_all 1000 (pieces 300) false nano_ok signal_usage_sync 7 transfer ≡ none
many_bodies_endless_example =
    many_bodies_endless takes_all (pieces 300) 1000 false nano_ok signal_usage_sync 7 transfer
      (λ j. refl) pieces-many

abbrev metadata : HttpMetaData
metadata = record {
  http_protocol = 72 ∷ 84 ∷ [];
  method_name = 71 ∷ [];
  host = 104 ∷ [];
  listening_ip = 49 ∷ [];
  listening_port = 443;
  uri = 47 ∷ [];
  client_ip = 50 ∷ [];
  client_port = 5000;
  parsed_host = [];
  parsed_uri = 47 ∷ 97 ∷ [];
}

metadata_framed_example : concat (sent_fragments 7 metadata) ≡ metadata_bytes 7 metadata
metadata_framed_example = metadata_framed 7 metadata
