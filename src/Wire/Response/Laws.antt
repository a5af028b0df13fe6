-- ===== src/Wire/Response/Laws.antt =====
-- attachments/nano_attachment/nano_attachment_io.c, handle_custom_web_response and
-- handle_redirect_response: where the texts of a response are written.
use openappsec_attachment.Common.{
  ℕ, zero, suc, ◌+◌, ◌≤◌, ◌<◌, ◌≡◌, ◌≢◌, ◌↔◌, refl, ap, Bool, true, ◌||◌, List, ◌++◌, arith, leb,
  ◌==◌, Memory, read, length, if◌then◌else◌, length-append, ◌∙◌,
}
use openappsec_attachment.Wire.Response.{
  CustomWebResponseData, CpRedirectData, WebResponse, response_code_only, custom_web_response,
  incident_prefix, unchanged, built, overrun, put_text, handle_custom_web_response,
  handle_redirect_response, HttpWebResponseData, custom, redirect, unknown, handle_drop_response,
}

length-read : (m : Memory) (i n : ℕ) → length (read m i n) ≡ n
unfolding read
length-read m i zero = refl
length-read m i (suc n) = ap suc (length-read m (suc i) n)

put_text-fits :
    (size : ℕ) (text : List ℕ) (r : WebResponse)
    → length text < size
    → put_text size text r ≡ built r
unfolding put_text
put_text-fits size text r h = ground arith

put_text-overrun :
    (size : ℕ) (text : List ℕ) (r : WebResponse)
    → put_text size text r ≡ overrun ↔ size ≤ length text
unfolding put_text
put_text-overrun size text r = ground arith

-- A redirection never writes past the end of an array.
redirect_fits :
    (malloc : ℕ → Bool) (m : Memory) (d : CpRedirectData)
    → handle_redirect_response malloc m d ≢ overrun
unfolding handle_redirect_response put_text
redirect_fits malloc m d e =
    ground (arith, length-read m (d.redirect_location + d.redirect_location_size) d.uuid_size)

long_iff :
    (u t b n : ℕ) (one two : Bool) (r s : WebResponse)
    → n ≡ 13 + u
    → (if leb 64 u
          then unchanged
          else if leb 64 t
          then unchanged
          else if leb 128 b
          then unchanged
          else if one
          then if two
            then if t == 0 || b == 0 then built r else if leb (n + 1) 64 then built s else overrun
            else unchanged
          else unchanged)
        ≡ overrun
      ↔ (51 ≤ u × u < 64 × 0 < t × t < 64 × 0 < b × b < 128 × one ≡ true × two ≡ true)
long_iff u t b n one two r s e = ground arith

-- A custom response writes past the end of `uuid` just when it has a title and a body, all three sizes
-- pass the code's tests, there is memory, and `uuid_size` is 51 or more: what is put before the uuid was
-- left out of the test.
pub custom_overruns_iff :
    (malloc : ℕ → Bool) (m : Memory) (d : CustomWebResponseData)
    → handle_custom_web_response malloc m d ≡ overrun ↔ (
        51 ≤ d.uuid_size
        × d.uuid_size < 64
        × 0 < d.title_size
        × d.title_size < 64
        × 0 < d.body_size
        × d.body_size < 128
        × malloc 0 ≡ true
        × malloc 1 ≡ true)
unfolding handle_custom_web_response put_text
custom_overruns_iff malloc m d =
    let uuid = incident_prefix ++ read m (d.data_at + d.title_size + d.body_size) d.uuid_size in
    long_iff d.uuid_size d.title_size d.body_size (length uuid) (malloc 0) (malloc 1)
      (response_code_only d.response_code)
      (custom_web_response uuid d.response_code (read m d.data_at d.title_size)
        (read m (d.data_at + d.title_size) d.body_size))
      (length-append incident_prefix (read m (d.data_at + d.title_size + d.body_size) d.uuid_size)
        ∙ ap (λ n. 13 + n) (length-read m (d.data_at + d.title_size + d.body_size) d.uuid_size))

-- No other response does.
pub drop_overruns :
    (malloc : ℕ → Bool) (m : Memory) (d : HttpWebResponseData)
    → handle_drop_response malloc m d ≡ overrun
    → (c : CustomWebResponseData) × d ≡ custom c × 51 ≤ c.uuid_size
unfolding handle_drop_response
drop_overruns malloc m (custom c) e = (c, refl, ground (arith, custom_overruns_iff malloc m c))
drop_overruns malloc m (redirect d) e = absurd (redirect_fits malloc m d e)
drop_overruns malloc m unknown e = absurd (ground arith)
