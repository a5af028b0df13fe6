-- ===== src/Wire/Response/Packed.antt =====
-- attachments/nano_attachment/nano_attachment_io.c, handle_custom_response_with_headers: the headers and
-- the body of a packed response are read back.
use mathlib.Core.Path.{subst, ap₂}
use mathlib.Core.List.{append_assoc}
use openappsec_attachment.Common.{
  ℕ, suc, ◌+◌, ◌<◌, ◌≡◌, refl, sym, ap, ◌∙◌, Bool, true, Option, some, List, [], ◌∷◌, ◌++◌, arith,
  ◌==◌, Memory, read, length, if◌then◌else◌, if_split,
}
use openappsec_attachment.Wire.Senders.{HttpHeaderData, bytes_u16}
use openappsec_attachment.Wire.Response.{
  prepend, HttpCustomResponseData, custom_response_with_headers, Built, unchanged, built, read_u16,
  Parsed, parse_headers, parse_body, handle_custom_response_with_headers,
}

-- `HttpHeaderPackedData` of each header.
unfoldable pub pack_headers : List HttpHeaderData → List ℕ
pack_headers [] = []
pack_headers (h ∷ hs) =
    bytes_u16 (length h.key)
    ++ (bytes_u16 (length h.value) ++ (h.key ++ (h.value ++ pack_headers hs)))

-- The sizes fit their `uint16_t`.
abbrev pub AreShort : List HttpHeaderData → Type 0
AreShort [] = Unit
AreShort (h ∷ hs) = length h.key < 65536 × length h.value < 65536 × AreShort hs

-- The memory holds the bytes from address `p` on.
abbrev pub Holds : Memory → ℕ → List ℕ → Type 0
Holds m p [] = Unit
Holds m p (b ∷ bs) = m p ≡ b × Holds m (suc p) bs

read-Holds : (m : Memory) (p : ℕ) (l : List ℕ) → Holds m p l → read m p (length l) ≡ l
unfolding read
read-Holds m p [] h = refl
read-Holds m p (b ∷ bs) (e, h) = ap₂ ◌∷◌ e (read-Holds m (suc p) bs h)

Holds-append :
    (m : Memory) (p q : ℕ) (xs ys : List ℕ)
    → q ≡ p + length xs
    → Holds m p (xs ++ ys)
    → Holds m p xs × Holds m q ys
Holds-append m p q [] ys e h = (tt, subst (λ k. Holds m k ys) (omega (arith, e)) h)
Holds-append m p q (x ∷ xs) ys e (f, h) =
    let (left, right) = Holds-append m (suc p) q xs ys (omega (arith, e)) h in ((f, left), right)

read_u16_lem : (m : Memory) (p n : ℕ) → n < 65536 → Holds m p (bytes_u16 n) → read_u16 m p ≡ n
read_u16_lem m p n h (e, (f, _)) = omega (arith, e, f)

header_here :
    (m : Memory) (p : ℕ) (h : HttpHeaderData) (rest : List ℕ)
    → length h.key < 65536
    → length h.value < 65536
    → Holds m p
        (bytes_u16 (length h.key) ++ (bytes_u16 (length h.value) ++ (h.key ++ (h.value ++ rest))))
    → read_u16 m p ≡ length h.key
      × read_u16 m (p + 2) ≡ length h.value
      × Holds m (p + 4) h.key
      × Holds m (p + 4 + length h.key) h.value
      × Holds m (p + 4 + length h.key + length h.value) rest
header_here m p h rest k v holds =
    let (a, b) =
      Holds-append m p (p + 2) (bytes_u16 (length h.key))
        (bytes_u16 (length h.value) ++ (h.key ++ (h.value ++ rest))) (omega arith) holds in
    let (c, d) =
      Holds-append m (p + 2) (p + 4) (bytes_u16 (length h.value)) (h.key ++ (h.value ++ rest))
        (omega arith) b in
    let (e, f) = Holds-append m (p + 4) (p + 4 + length h.key) h.key (h.value ++ rest) refl d in
    let (g, r) =
      Holds-append m (p + 4 + length h.key) (p + 4 + length h.key + length h.value) h.value rest
        refl f in
    (read_u16_lem m p (length h.key) k a, read_u16_lem m (p + 2) (length h.value) v c, e, g, r)

pack_assoc :
    (h : HttpHeaderData) (packed rest : List ℕ)
    → (bytes_u16 (length h.key) ++ (bytes_u16 (length h.value) ++ (h.key ++ (h.value ++ packed))))
        ++ rest
      ≡ bytes_u16 (length h.key)
        ++ (bytes_u16 (length h.value) ++ (h.key ++ (h.value ++ (packed ++ rest))))
pack_assoc h packed rest =
    ap (λ l. bytes_u16 (length h.key) ++ (bytes_u16 (length h.value) ++ l))
      (append_assoc h.key (h.value ++ packed) rest
        ∙ ap (λ l. h.key ++ l) (append_assoc h.value packed rest))

is_empty : (l : List ℕ) → length l ≡ 0 → l ≡ []
is_empty [] e = refl
is_empty (x ∷ l) e = absurd (omega (arith, e))

-- One round of the loop over the headers.
parse_one :
    (malloc : ℕ → Bool) (m : Memory) (h : HttpHeaderData) (hs : List HttpHeaderData)
    (p calls q c : ℕ)
    → ((i : ℕ) → malloc i ≡ true)
    → read_u16 m p ≡ length h.key
    → read_u16 m (p + 2) ≡ length h.value
    → Holds m (p + 4) h.key
    → Holds m (p + 4 + length h.key) h.value
    → parse_headers malloc m (length hs) (p + 4 + length h.key + length h.value) (suc (suc calls))
      ≡ some (record { headers = hs; data_ptr = q; calls = c })
    → parse_headers malloc m (suc (length hs)) p calls
      ≡ some (record { headers = h ∷ hs; data_ptr = q; calls = c })
unfolding parse_headers
parse_one malloc m h hs p calls q c ok ks vs key value next =
    let goal : Option Parsed = some (record { headers = h ∷ hs; data_ptr = q; calls = c }) in
    let item : ℕ → ℕ → HttpHeaderData =
      λ k v. record { key = read m (p + 4) k; value = read m (p + 4 + k) v } in
    let rest : ℕ → ℕ → Option Parsed =
      λ k v. parse_headers malloc m (length hs) (p + 4 + k + v) (suc (suc calls)) in
    if_split (λ o. o ≡ goal) (malloc calls)
      (λ _.
        if_split (λ o. o ≡ goal) (malloc (suc calls))
          (λ _.
            ap₂ (λ k v. prepend (item k v) (rest k v)) ks vs
            ∙ ap₂
                (λ k v.
                  prepend (record { key = k; value = v }) (rest (length h.key) (length h.value)))
                (read-Holds m (p + 4) h.key key) (read-Holds m (p + 4 + length h.key) h.value value)
            ∙ ap (prepend h) next)
          (λ e. absurd (ground (arith, ok (suc calls)))))
      (λ e. absurd (ground (arith, ok calls)))

parse-pack :
    (malloc : ℕ → Bool) (m : Memory) (hs : List HttpHeaderData) (rest : List ℕ) (p calls : ℕ)
    → ((i : ℕ) → malloc i ≡ true)
    → AreShort hs
    → Holds m p (pack_headers hs ++ rest)
    → (q : ℕ) × (c : ℕ) × parse_headers malloc m (length hs) p calls
        ≡ some (record { headers = hs; data_ptr = q; calls = c })
      × Holds m q rest
unfolding parse_headers pack_headers
parse-pack malloc m [] rest p calls ok short holds = (p, calls, refl, holds)
parse-pack malloc m (h ∷ hs) rest p calls ok (k, v, short) holds =
    let (ks, vs, key, value, others) =
      header_here m p h (pack_headers hs ++ rest) k v
        (subst (Holds m p) (pack_assoc h (pack_headers hs) rest) holds) in
    let at = p + 4 + length h.key + length h.value in
    let (q, c, next, after) = parse-pack malloc m hs rest at (suc (suc calls)) ok short others in
    (q, c, parse_one malloc m h hs p calls q c ok ks vs key value next, after)

body_read_back :
    (malloc : ℕ → Bool) (m : Memory) (d : HttpCustomResponseData) (r : Parsed) (body : List ℕ)
    → ((i : ℕ) → malloc i ≡ true)
    → d.body_size ≡ length body
    → Holds m r.data_ptr body
    → parse_body malloc m d (some r)
      ≡ built (custom_response_with_headers d.response_code r.headers body)
unfolding parse_body
body_read_back malloc m d r body ok e holds =
    let reply : List ℕ → Built =
      λ l. built (custom_response_with_headers d.response_code r.headers l) in
    if_split (λ b. b ≡ reply body) (d.body_size == 0)
      (λ f. ap reply (sym (is_empty body (ground (arith, e, f)))))
      (λ _.
        if_split (λ b. b ≡ reply body) (malloc r.calls)
          (λ _. ap reply (ap (read m r.data_ptr) e ∙ read-Holds m r.data_ptr body holds))
          (λ f. absurd (ground (arith, ok r.calls))))

headers_read_back :
    (malloc : ℕ → Bool) (m : Memory) (d : HttpCustomResponseData) (hs : List HttpHeaderData)
    (body : List ℕ)
    → ((i : ℕ) → malloc i ≡ true)
    → d.body_size ≡ length body
    → AreShort hs
    → Holds m d.data_at (pack_headers hs ++ body)
    → parse_body malloc m d (parse_headers malloc m (length hs) d.data_at 3)
      ≡ built (custom_response_with_headers d.response_code hs body)
headers_read_back malloc m d hs body ok e short holds =
    let (q, c, parsed, left) = parse-pack malloc m hs body d.data_at 3 ok short holds in
    ap (parse_body malloc m d) parsed
    ∙ body_read_back malloc m d (record { headers = hs; data_ptr = q; calls = c }) body ok e left

-- A packed response is read back as it was packed, where there is memory and the sizes of the headers fit
-- their fields.
pub packed_read_back :
    (malloc : ℕ → Bool) (m : Memory) (code p : ℕ) (hs : List HttpHeaderData) (body : List ℕ)
    → ((i : ℕ) → malloc i ≡ true)
    → AreShort hs
    → Holds m p (pack_headers hs ++ body)
    → handle_custom_response_with_headers malloc m (record {
      response_code = code;
      body_size = length body;
      headers_count = length hs;
      data_at = p;
    })
      ≡ built (custom_response_with_headers code hs body)
unfolding handle_custom_response_with_headers pack_headers
packed_read_back malloc m code p hs body ok short holds =
    if_split (λ b. b ≡ goal hs) (malloc 0)
      (λ _.
        if_split (λ b. b ≡ goal hs) (malloc 1) (λ _. with_headers hs short holds)
          (λ f. absurd (ground (arith, ok 1))))
      (λ f. absurd (ground (arith, ok 0)))
  where
    goal : List HttpHeaderData → Built
    goal l = built (custom_response_with_headers code l body)

    reply : ℕ → HttpCustomResponseData
    reply n = record {
      response_code = code;
      body_size = length body;
      headers_count = n;
      data_at = p;
    }

    with_headers :
        (l : List HttpHeaderData)
        → AreShort l
        → Holds m p (pack_headers l ++ body)
        → (if length l == 0
            then parse_body malloc m
                (reply (length l))
                (some (record { headers = []; data_ptr = p; calls = 2 }))
            else if malloc 2
            then parse_body malloc m (reply (length l)) (parse_headers malloc m (length l) p 3)
            else unchanged)
          ≡ goal l
    with_headers [] s h =
        body_read_back malloc m (reply 0) (record { headers = []; data_ptr = p; calls = 2 }) body ok
          refl h
    with_headers (x ∷ xs) s h =
        if_split (λ b. b ≡ goal (x ∷ xs)) (suc (length xs) == 0) (λ f. absurd (ground arith))
          (λ _.
            if_split (λ b. b ≡ goal (x ∷ xs)) (malloc 2)
              (λ _. headers_read_back malloc m (reply (suc (length xs))) (x ∷ xs) body ok refl s h)
              (λ f. absurd (ground (arith, ok 2))))
