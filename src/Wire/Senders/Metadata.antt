-- ===== src/Wire/Senders/Metadata.antt =====
-- attachments/nano_attachment/nano_attachment_io.c, nano_metadata_sender: the fragments that open a
-- transaction.
-- Whether the client's address is one, and whether the configuration skips it, are parameters.
use mathlib.Core.List.{append-nil}
use openappsec_attachment.Common.{
  ℕ, ◌+◌, ◌-◌, ◌≡◌, refl, ap, Bool, true, false, ◌&&◌, List, [], ◌∷◌, ◌++◌, u16, length, take,
  if◌then◌else◌,
}
use openappsec_attachment.Failing.{ServiceVerdict, irrelevant}
use openappsec_attachment.Bucket.{NanoCommunicationResult, nano_declined}
use openappsec_attachment.Wire.Signal.{SignalUsageMode, is_ok}
use openappsec_attachment.Wire.Send.{is_error}
use openappsec_attachment.Wire.Senders.{
  bytes_u16, set_fragments_identifiers, Transfer, send_failed, handle_counter_new_message_sent,
}

pub record HttpMetaData : Type 0 where
  pub http_protocol : List ℕ
  pub method_name : List ℕ
  pub host : List ℕ
  pub listening_ip : List ℕ
  pub listening_port : ℕ
  pub uri : List ℕ
  pub client_ip : List ℕ
  pub client_port : ℕ
  pub parsed_host : List ℕ
  pub parsed_uri : List ℕ

abbrev pub meta_data_count : ℕ
meta_data_count = 20

abbrev pub request_start : ℕ
request_start = 0

-- A text takes two fragments; the size of each fragment is a `uint16_t`.
abbrev pub text_fragments : List ℕ → List (List ℕ)
text_fragments t = bytes_u16 (length t) ∷ take (u16 (length t)) t ∷ []

-- The fragments of a text that is sent where it is not empty; the array is zero otherwise.
abbrev pub optional_fragments : List ℕ → List (List ℕ)
optional_fragments [] = [] ∷ [] ∷ []
optional_fragments (x ∷ xs) = text_fragments (x ∷ xs)

-- The array, from the type of the chunk to the two fragments of the tag, which are never set.
unfoldable pub metadata_fragments : ℕ → HttpMetaData → List (List ℕ)
unfolding set_fragments_identifiers
metadata_fragments cur_request_id d =
    set_fragments_identifiers request_start cur_request_id
    ++ (text_fragments d.http_protocol
        ++ (text_fragments d.method_name
            ++ (text_fragments d.host
                ++ (text_fragments d.listening_ip
                    ++ ((bytes_u16 d.listening_port ∷ [])
                        ++ (text_fragments d.uri
                            ++ (text_fragments d.client_ip
                                ++ ((bytes_u16 d.client_port ∷ [])
                                    ++ (optional_fragments d.parsed_host
                                        ++ (optional_fragments d.parsed_uri
                                            ++ ([] ∷ [] ∷ [])))))))))))

abbrev pub is_nil {ℓ} : {A : Type ℓ} → List A → Bool
is_nil [] = true
is_nil (_ ∷ _) = false

-- `meta_data_count` when the fragments are sent.
unfoldable pub sent_count : HttpMetaData → ℕ
sent_count d =
    let base = meta_data_count - 4 in
    let with_host = if is_nil d.parsed_host then base else base + 2 in
    if is_nil d.parsed_uri then with_host else with_host + 2

-- The fragments that `send_session_data_to_service` is given.
unfoldable pub sent_fragments : ℕ → HttpMetaData → List (List ℕ)
unfolding metadata_fragments sent_count
sent_fragments cur_request_id d = take (sent_count d + 2) (metadata_fragments cur_request_id d)

abbrev pub concat : List (List ℕ) → List ℕ
concat [] = []
concat (l ∷ ls) = l ++ concat ls

-- The answer with what is sent: the verdict of the session, and the transfer.
unfoldable pub nano_metadata_sender :
    (is_ip_address is_skipped : Bool)
    → (res : NanoCommunicationResult) → (is_verdict_requested : Bool)
    → (reply : NanoCommunicationResult) → SignalUsageMode
    → ℕ
    → ServiceVerdict
    → Transfer
    → ServiceVerdict × Transfer
unfolding send_failed handle_counter_new_message_sent
nano_metadata_sender is_ip is_skipped res is_verdict_requested reply mode session_id verdict x =
    let counted = if is_ok res then handle_counter_new_message_sent 1 mode x else x in
    if is_ip && is_skipped
    then (irrelevant, record x { res = nano_declined })
    else if is_error res
    then (verdict, send_failed mode session_id x)
    else (verdict, record counted { res = if is_verdict_requested then reply else counted.res })

-- The bytes of a text with its size.
abbrev pub framed : List ℕ → List ℕ
framed t = bytes_u16 (length t) ++ take (u16 (length t)) t

abbrev pub framed_optional : List ℕ → List ℕ
framed_optional [] = []
framed_optional (x ∷ xs) = framed (x ∷ xs)

-- The bytes of the fields, with `end` behind them.
abbrev pub fields_then : ℕ → HttpMetaData → (end : List ℕ) → List ℕ
unfolding set_fragments_identifiers
fields_then id d end =
    concat (set_fragments_identifiers request_start id)
    ++ (framed d.http_protocol
        ++ (framed d.method_name
            ++ (framed d.host
                ++ (framed d.listening_ip
                    ++ (bytes_u16 d.listening_port
                        ++ (framed d.uri
                            ++ (framed d.client_ip ++ (bytes_u16 d.client_port ++ end))))))))

abbrev pub metadata_bytes : ℕ → HttpMetaData → List ℕ
metadata_bytes id d =
    fields_then id d (framed_optional d.parsed_host ++ framed_optional d.parsed_uri)

with_parsed : (h u : List ℕ) → HttpMetaData → HttpMetaData
with_parsed h u d = record d { parsed_host = h; parsed_uri = u }

metadata_cases :
    (id : ℕ) (h u : List ℕ) (d : HttpMetaData)
    → concat (sent_fragments id (with_parsed h u d)) ≡ metadata_bytes id (with_parsed h u d)
unfolding sent_fragments metadata_fragments sent_count set_fragments_identifiers with_parsed
metadata_cases id [] [] d = refl
metadata_cases id (x ∷ h) [] d = refl
metadata_cases id [] (y ∷ u) d = ap (fields_then id d) (append-nil (framed (y ∷ u)))
metadata_cases id (x ∷ h) (y ∷ u) d =
    ap (λ t. fields_then id d (framed (x ∷ h) ++ t)) (append-nil (framed (y ∷ u)))

-- The bytes on the wire are the fields in their order, each text behind its size, and of the two texts of
-- the parser those that are not empty: what else the count takes in is empty.
pub metadata_framed :
    (id : ℕ) (d : HttpMetaData) → concat (sent_fragments id d) ≡ metadata_bytes id d
unfolding with_parsed
metadata_framed id d = metadata_cases id d.parsed_host d.parsed_uri d
