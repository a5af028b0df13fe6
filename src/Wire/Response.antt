-- ===== src/Wire/Response.antt =====
-- attachments/nano_attachment/nano_attachment_io.c: the response that the service wants sent in place of
-- the traffic, read from its reply.
-- The bytes of the reply are memory, and `data_at` is the address of the flexible member. The answers of
-- `malloc` are a parameter, one for each call. Pointers are never NULL.
pub mod Laws
pub mod Packed
use openappsec_attachment.Common.{
  ℕ, zero, suc, ◌+◌, ◌*◌, Bool, true, false, ◌||◌, Option, none, some, List, [], ◌∷◌, ◌++◌, ltb,
  leb, ◌==◌, Memory, read, length, if◌then◌else◌,
}
use openappsec_attachment.Wire.Senders.{HttpHeaderData}

abbrev pub uuid_max : ℕ
uuid_max = 64

abbrev pub custom_response_title_size : ℕ
custom_response_title_size = 64

abbrev pub custom_response_body_size : ℕ
custom_response_body_size = 128

abbrev pub redirect_response_location_size : ℕ
redirect_response_location_size = 512

-- `NanoHttpCpCustomWebResponseData`, `NanoHttpCpRedirectData` and `HttpCustomResponseData`, the first two
-- with the `uuid_size` of the structure they stand in. The fields are of fixed widths in the packed structures
-- (`headers_count` a byte, `body_size` two bytes): a reply has numbers that fit in them.
pub record CustomWebResponseData : Type 0 where
  pub uuid_size : ℕ
  pub response_code : ℕ
  pub title_size : ℕ
  pub body_size : ℕ
  pub data_at : ℕ

pub record CpRedirectData : Type 0 where
  pub uuid_size : ℕ
  pub redirect_location_size : ℕ
  pub redirect_location : ℕ

pub record HttpCustomResponseData : Type 0 where
  pub response_code : ℕ
  pub body_size : ℕ
  pub headers_count : ℕ
  pub data_at : ℕ

-- `WebResponseData` with what `data` points to; texts are without their final NUL.
pub data WebResponse : Type 0 where
  response_code_only : (response_code : ℕ) → WebResponse
  custom_web_response : (uuid : List ℕ) (response_code : ℕ) (title body : List ℕ) → WebResponse
  redirect_web_response : (uuid location : List ℕ) → WebResponse
  custom_response_with_headers :
      (response_code : ℕ) (headers : List HttpHeaderData) (body : List ℕ) → WebResponse

-- The response of the context stays, a new one is set, or bytes are written past the end of an array.
pub data Built : Type 0 where
  unchanged : Built
  built : WebResponse → Built
  overrun : Built

-- "Incident Id: ".
abbrev pub incident_prefix : List ℕ
incident_prefix = 73 ∷ 110 ∷ 99 ∷ 105 ∷ 100 ∷ 101 ∷ 110 ∷ 116 ∷ 32 ∷ 73 ∷ 100 ∷ 58 ∷ 32 ∷ []

-- The text and a NUL are written into an array of `size` bytes, and then the response is set.
unfoldable pub put_text : (size : ℕ) → List ℕ → WebResponse → Built
put_text size text r = if leb (length text + 1) size then built r else overrun

unfoldable pub handle_custom_web_response :
    (malloc : ℕ → Bool) → Memory → CustomWebResponseData → Built
unfolding put_text read
handle_custom_web_response malloc m d =
    let title = read m d.data_at d.title_size in
    let body = read m (d.data_at + d.title_size) d.body_size in
    let uuid = incident_prefix ++ read m (d.data_at + d.title_size + d.body_size) d.uuid_size in
    if leb uuid_max d.uuid_size
    then unchanged
    else if leb custom_response_title_size d.title_size
    then unchanged
    else if leb custom_response_body_size d.body_size
    then unchanged
    else if malloc 0
    then if malloc 1
      then if d.title_size == 0 || d.body_size == 0
        then built (response_code_only d.response_code)
        else put_text uuid_max uuid (custom_web_response uuid d.response_code title body)
      else unchanged
    else unchanged

unfoldable pub handle_redirect_response : (malloc : ℕ → Bool) → Memory → CpRedirectData → Built
unfolding put_text read
handle_redirect_response malloc m d =
    let location = read m d.redirect_location d.redirect_location_size in
    let uuid = read m (d.redirect_location + d.redirect_location_size) d.uuid_size in
    if leb uuid_max d.uuid_size
    then unchanged
    else if leb redirect_response_location_size d.redirect_location_size
    then unchanged
    else if malloc 0
    then if malloc 1
      then put_text uuid_max uuid (redirect_web_response uuid location)
      else unchanged
    else unchanged

-- A `uint16_t` at an address.
abbrev pub read_u16 : Memory → ℕ → ℕ
read_u16 m p = m p + 256 * m (suc p)

abbrev pub header_data_size : ℕ
header_data_size = 4

-- The headers, and `data_ptr` and the number of calls of `malloc` after them.
pub record Parsed : Type 0 where
  pub headers : List HttpHeaderData
  pub data_ptr : ℕ
  pub calls : ℕ

abbrev pub prepend : HttpHeaderData → Option Parsed → Option Parsed
prepend h none = none
prepend h (some r) = some (record r { headers = h ∷ r.headers })

-- The loop over the packed headers; `none` where there is no memory.
unfoldable pub parse_headers :
    (malloc : ℕ → Bool) → Memory → (headers_count data_ptr calls : ℕ) → Option Parsed
unfolding read
parse_headers malloc m zero data_ptr calls =
    some (record { headers = []; data_ptr = data_ptr; calls = calls })
parse_headers malloc m (suc n) data_ptr calls =
    let key_size = read_u16 m data_ptr in
    let value_size = read_u16 m (data_ptr + 2) in
    let key_at = data_ptr + header_data_size in
    let value_at = key_at + key_size in
    let h : HttpHeaderData = record {
      key = read m key_at key_size;
      value = read m value_at value_size;
    } in
    let rest = parse_headers malloc m n (value_at + value_size) (suc (suc calls)) in
    if malloc calls then if malloc (suc calls) then prepend h rest else none else none

-- The body after the headers.
unfoldable pub parse_body :
    (malloc : ℕ → Bool) → Memory → HttpCustomResponseData → Option Parsed → Built
unfolding read
parse_body malloc m d none = unchanged
parse_body malloc m d (some r) =
    if d.body_size == 0
    then built (custom_response_with_headers d.response_code r.headers [])
    else if malloc r.calls
    then built
        (custom_response_with_headers d.response_code r.headers (read m r.data_ptr d.body_size))
    else unchanged

unfoldable pub handle_custom_response_with_headers :
    (malloc : ℕ → Bool) → Memory → HttpCustomResponseData → Built
unfolding parse_headers parse_body
handle_custom_response_with_headers malloc m d =
    if malloc 0
    then if malloc 1
      then if d.headers_count == 0
        then parse_body malloc m d (some (record { headers = []; data_ptr = d.data_at; calls = 2 }))
        else if malloc 2
        then parse_body malloc m d (parse_headers malloc m d.headers_count d.data_at 3)
        else unchanged
      else unchanged
    else unchanged

-- `HttpWebResponseData`, by its type.
pub data HttpWebResponseData : Type 0 where
  custom : CustomWebResponseData → HttpWebResponseData
  redirect : CpRedirectData → HttpWebResponseData
  unknown : HttpWebResponseData

unfoldable pub handle_drop_response : (malloc : ℕ → Bool) → Memory → HttpWebResponseData → Built
unfolding handle_custom_web_response handle_redirect_response
handle_drop_response malloc m (custom d) = handle_custom_web_response malloc m d
handle_drop_response malloc m (redirect d) = handle_redirect_response malloc m d
handle_drop_response malloc m unknown = unchanged
