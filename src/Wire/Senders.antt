-- ===== src/Wire/Senders.antt =====
-- attachments/nano_attachment/nano_attachment_io.c: the senders of the parts of a transaction.
-- What `send_session_data_to_service` answers to the chunk of each number is a parameter, and so is what
-- `service_reply_receiver` answers.
pub mod Headers
pub mod Bodies
pub mod Metadata
use openappsec_attachment.Common.{
  ℕ, zero, suc, ◌+◌, ◌*◌, ◌/◌, ◌%◌, Bool, true, false, not, ◌&&◌, ◌||◌, Option, none, some, List,
  [], ◌∷◌, ◌++◌, ◌≡◌, refl, ltb, ◌==◌, u8, u16, u32, length, get_or, if◌then◌else◌,
}
use openappsec_attachment.Bucket.{
  NanoCommunicationResult, nano_ok, nano_error, SessionIdQueue, failed_add,
}
use openappsec_attachment.Wire.Signal.{
  SignalUsageMode, signal_usage_sync, signal_usage_async, is_async, is_ok,
}

-- `HttpHeaderData`.
pub record HttpHeaderData : Type 0 where
  pub key : List ℕ
  pub value : List ℕ

-- What stands in the fragments of a chunk after the type and the number of the session.
pub data Chunk : Type 0 where
  response_code : ℕ → Chunk
  content_length : ℕ → Chunk
  header_bulk : (is_last_part : Bool) (bulk_part_index : ℕ) (headers : List HttpHeaderData) → Chunk
  body_chunk : (is_final_chunk : Bool) (body_index : ℕ) (body : List ℕ) → Chunk
  end_transaction : Chunk
  delayed_verdict : Chunk

-- The two bytes of a `uint16_t`, and the four of a `uint32_t`, of which the low ones come first.
abbrev pub bytes_u16 : ℕ → List ℕ
bytes_u16 n = n % 256 ∷ n / 256 % 256 ∷ []

abbrev pub bytes_u32 : ℕ → List ℕ
bytes_u32 n = bytes_u16 n ++ bytes_u16 (n / 65536)

abbrev pub byte_of_bool : Bool → ℕ
byte_of_bool true = 1
byte_of_bool false = 0

-- `add_header_to_bulk`, for all headers of a bulk: four fragments each.
unfoldable pub header_fragments : List HttpHeaderData → List (List ℕ)
header_fragments [] = []
header_fragments (h ∷ hs) =
    bytes_u16 (length h.key) ∷ h.key ∷ bytes_u16 (length h.value) ∷ h.value ∷ header_fragments hs

unfoldable pub set_fragments_identifiers : (data_type cur_request_id : ℕ) → List (List ℕ)
set_fragments_identifiers data_type cur_request_id =
    bytes_u16 data_type ∷ bytes_u32 cur_request_id ∷ []

-- `send_header_bulk`: the fragments, and the count of them that is passed on.
unfoldable pub bulk_fragments :
    (header_type cur_request_id : ℕ) (is_last_part : Bool) (bulk_part_index : ℕ)
    → List HttpHeaderData
    → List (List ℕ)
unfolding set_fragments_identifiers header_fragments
bulk_fragments header_type cur_request_id is_last_part bulk_part_index headers =
    set_fragments_identifiers header_type cur_request_id
    ++ ((byte_of_bool is_last_part ∷ []) ∷ (bulk_part_index ∷ []) ∷ header_fragments headers)

abbrev pub header_data_count : ℕ
header_data_count = 4

abbrev pub num_of_data_elem : List HttpHeaderData → ℕ
num_of_data_elem headers = u8 (header_data_count * length headers + 4)

abbrev pub max_header_bulk_size : ℕ
max_header_bulk_size = 10

-- What the senders read and write: `ctx->res`, the sessions that failed, `num_messages_sent` and the
-- chunks that the service has been sent.
pub record Transfer : Type 0 where
  pub res : NanoCommunicationResult
  pub async_failed : SessionIdQueue
  pub num_messages_sent : ℕ
  pub sent : List Chunk

-- A chunk could not be sent.
unfoldable pub send_failed : SignalUsageMode → ℕ → Transfer → Transfer
unfolding failed_add
send_failed usage_mode session_id x = record x {
  res = nano_error;
  async_failed =
      if is_async usage_mode then (failed_add x.async_failed session_id).1 else x.async_failed;
}

unfoldable pub handle_counter_new_message_sent : ℕ → SignalUsageMode → Transfer → Transfer
handle_counter_new_message_sent amount usage_mode x =
    if is_async usage_mode
    then x
    else record x { num_messages_sent = u32 (x.num_messages_sent + amount) }

-- The end of a sender; without a request for the verdict the answer is `otherwise`.
abbrev pub request_verdict :
    (is_verdict_requested : Bool) (reply otherwise : NanoCommunicationResult) → Transfer → Transfer
request_verdict is_verdict_requested reply otherwise x = record x {
  res = if is_verdict_requested then reply else otherwise;
}

-- How the senders of several chunks end: `sent` are those the service has been sent.
unfoldable pub finish_sender :
    (refused : Bool) (sent : List Chunk) (amount : ℕ) (is_verdict_requested : Bool)
    (reply otherwise : NanoCommunicationResult)
    → SignalUsageMode
    → ℕ
    → Transfer
    → Transfer
unfolding send_failed handle_counter_new_message_sent
finish_sender refused sent amount is_verdict_requested reply otherwise usage_mode session_id x =
    let x' = record x { sent = x.sent ++ sent } in
    if refused
    then send_failed usage_mode session_id x'
    else request_verdict is_verdict_requested reply otherwise
        (handle_counter_new_message_sent amount usage_mode x')

-- What the end of a sender is.
abbrev pub IsFinished :
    (refused : Bool) (sent : List Chunk) (amount : ℕ) (is_verdict_requested : Bool)
    (reply otherwise : NanoCommunicationResult)
    → SignalUsageMode
    → (x y : Transfer) → Type 0
IsFinished refused sent amount is_verdict_requested reply otherwise mode x y =
    y.sent ≡ x.sent ++ sent
    × y.res ≡ (if refused then nano_error else if is_verdict_requested then reply else otherwise)
    × y.num_messages_sent ≡ (
        if refused || is_async mode
        then x.num_messages_sent
        else u32 (x.num_messages_sent + amount))

pub finish-IsFinished :
    (refused : Bool) (sent : List Chunk) (amount : ℕ) (v : Bool)
    (reply otherwise : NanoCommunicationResult) (mode : SignalUsageMode) (id : ℕ) (x : Transfer)
    → IsFinished refused sent amount v reply otherwise mode x
        (finish_sender refused sent amount v reply otherwise mode id x)
unfolding finish_sender send_failed handle_counter_new_message_sent
finish-IsFinished true sent amount v reply otherwise mode id x = (refl, refl, refl)
finish-IsFinished false sent amount v reply otherwise signal_usage_sync id x = (refl, refl, refl)
finish-IsFinished false sent amount v reply otherwise signal_usage_async id x = (refl, refl, refl)

abbrev pub note_sent : Chunk → Transfer → Transfer
note_sent chunk x = record x { sent = x.sent ++ (chunk ∷ []) }

-- `nano_send_response_code` and `nano_send_response_content_length`; `res` is the answer to the chunk.
abbrev send_single : Chunk → NanoCommunicationResult → SignalUsageMode → ℕ → Transfer → Transfer
send_single chunk res usage_mode session_id x =
    if is_ok res
    then handle_counter_new_message_sent 1 usage_mode (note_sent chunk x)
    else send_failed usage_mode session_id x

unfoldable pub nano_send_response_code :
    (code : ℕ) → NanoCommunicationResult → SignalUsageMode → ℕ → Transfer → Transfer
unfolding handle_counter_new_message_sent send_failed
nano_send_response_code code = send_single (response_code (u16 code))

unfoldable pub nano_send_response_content_length :
    (size : ℕ) → NanoCommunicationResult → SignalUsageMode → ℕ → Transfer → Transfer
unfolding handle_counter_new_message_sent send_failed
nano_send_response_content_length size = send_single (content_length size)

-- A failure sets `ctx->res` in the asynchronous mode only.
abbrev send_event :
    Chunk
    → (res : NanoCommunicationResult) → (is_verdict_requested : Bool)
    → (reply : NanoCommunicationResult) → SignalUsageMode
    → ℕ
    → Transfer
    → Transfer
send_event chunk res is_verdict_requested reply usage_mode session_id x =
    if is_ok res
    then request_verdict is_verdict_requested reply nano_ok
        (handle_counter_new_message_sent 1 usage_mode (note_sent chunk x))
    else if is_async usage_mode
    then send_failed usage_mode session_id x
    else x

unfoldable pub nano_end_transaction_sender :
    (res : NanoCommunicationResult)
    → (is_verdict_requested : Bool) → (reply : NanoCommunicationResult) → SignalUsageMode
    → ℕ
    → Transfer
    → Transfer
unfolding handle_counter_new_message_sent send_failed
nano_end_transaction_sender = send_event end_transaction

unfoldable pub nano_request_delayed_verdict :
    (res : NanoCommunicationResult)
    → (is_verdict_requested : Bool) → (reply : NanoCommunicationResult) → SignalUsageMode
    → ℕ
    → Transfer
    → Transfer
unfolding handle_counter_new_message_sent send_failed
nano_request_delayed_verdict = send_event delayed_verdict
