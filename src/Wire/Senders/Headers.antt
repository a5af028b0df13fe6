-- ===== src/Wire/Senders/Headers.antt =====
-- attachments/nano_attachment/nano_attachment_io.c, nano_header_sender: the headers go out in bulks of ten.
use openappsec_attachment.Common.{
  ℕ, zero, suc, ◌+◌, ◌≤◌, ◌<◌, ◌≡◌, ◌⊎◌, inl, inr, refl, sym, ap, ◌∙◌, Bool, true, false, not, ◌&&◌,
  List, [], ◌∷◌, ◌++◌, arith, ltb, u8, length, take, drop, length-append, if◌then◌else◌, if_split,
  if_case,
}
use mathlib.Core.List.{append-nil, append_assoc}
use mathlib.Core.Path.{subst, ap₂}
use openappsec_attachment.Bucket.{NanoCommunicationResult, nano_ok}
use openappsec_attachment.Wire.Signal.{SignalUsageMode, is_ok}
use openappsec_attachment.Wire.Senders.{
  HttpHeaderData, Chunk, header_bulk, Transfer, finish_sender, IsFinished, finish-IsFinished,
  max_header_bulk_size,
}

-- What the loop comes to: the bulks that were sent, `bulk_index`, and whether a bulk was refused.
pub record BulkRun : Type 0 where
  pub bulks : List Chunk
  pub bulk_index : ℕ
  pub refused : Bool

abbrev pub is_last : List HttpHeaderData → Bool
is_last [] = true
is_last (_ ∷ _) = false

-- The loop over the headers that are left; `bulk` are those in the fragments. The answer to the bulk of
-- each number is `send`.
unfoldable pub send_bulks :
    (send : ℕ → NanoCommunicationResult)
    → (bulk : List HttpHeaderData) → (bulk_index : ℕ) → List HttpHeaderData
    → BulkRun
send_bulks send bulk bulk_index [] = record { bulks = []; bulk_index = bulk_index; refused = false }
send_bulks send bulk bulk_index (h ∷ hs) =
    let bulk' = bulk ++ (h ∷ []) in
    let kept = send_bulks send bulk' bulk_index hs in
    let next = send_bulks send [] (suc bulk_index) hs in
    if ltb (length bulk') max_header_bulk_size && not (is_last hs)
    then kept
    else if is_ok (send bulk_index)
    then record next { bulks = header_bulk (is_last hs) (u8 bulk_index) bulk' ∷ next.bulks }
    else record { bulks = []; bulk_index = bulk_index; refused = true }

unfoldable pub nano_header_sender :
    (send : ℕ → NanoCommunicationResult)
    → List HttpHeaderData
    → (is_verdict_requested : Bool) → (reply : NanoCommunicationResult) → SignalUsageMode
    → ℕ
    → Transfer
    → Transfer
unfolding send_bulks finish_sender
nano_header_sender send headers is_verdict_requested reply usage_mode session_id x =
    let run = send_bulks send [] 0 headers in
    finish_sender run.refused run.bulks run.bulk_index is_verdict_requested reply x.res usage_mode
      session_id x

-- The answers to a bulk that the service took, and to one that it refused.
abbrev pub IsTaken : NanoCommunicationResult → Type 0
IsTaken res = res ≡ nano_ok

-- The bulks, from number `i` on, are the headers cut into tens, in their order, the last flag on the bulk
-- that ends them, and each was taken; either the headers end there, and none was refused, or the bulk
-- of the next number was.
abbrev pub IsCut :
    (ℕ → NanoCommunicationResult) → Bool → ℕ → List HttpHeaderData → List Chunk → Type 0
IsCut send refused i headers [] =
    ((headers ≡ []) × (refused ≡ false))
    ⊎ ((0 < length headers) × ((¬ IsTaken (send i)) × (refused ≡ true)))
IsCut send refused i headers (b ∷ bs) =
    b ≡ header_bulk (is_last (drop 10 headers)) (u8 i) (take 10 headers)
    × 0 < length headers
    × IsTaken (send i)
    × IsCut send refused (suc i) (drop 10 headers) bs

ok-IsTaken : (res : NanoCommunicationResult) → is_ok res ≡ true → IsTaken res
ok-IsTaken res e = ground (arith, e)

not-IsTaken : (res : NanoCommunicationResult) → is_ok res ≡ false → ¬ IsTaken res
not-IsTaken res e = λ t. ground (arith, e, t)

cut_whole :
    (n : ℕ) (bulk hs : List HttpHeaderData)
    → length bulk ≤ n
    → (length bulk ≡ n) ⊎ (hs ≡ [])
    → (take n (bulk ++ hs) ≡ bulk) × (drop n (bulk ++ hs) ≡ hs)
cut_whole zero [] hs h e = (refl, refl)
cut_whole zero (b ∷ bs) hs h e = absurd (omega arith)
cut_whole (suc n) [] [] h e = (refl, refl)
cut_whole (suc n) [] (x ∷ hs) h e = absurd (ground arith)
cut_whole (suc n) (b ∷ bs) hs h e =
    let (t, d) = cut_whole n bs hs (omega arith) (ground arith) in (ap (◌∷◌ b) t, d)

last_nil : (hs : List HttpHeaderData) → is_last hs ≡ true → hs ≡ []
last_nil [] e = refl
last_nil (h ∷ hs) e = ground arith

bulk_full :
    (n : ℕ) (hs : List HttpHeaderData)
    → n ≤ 10
    → (ltb n 10 && not (is_last hs)) ≡ false
    → (n ≡ 10) ⊎ (hs ≡ [])
bulk_full n hs h e = ground (arith, last_nil hs)

bulk_more : (n : ℕ) (t : Bool) → (ltb n 10 && not t) ≡ true → (n < 10) × (t ≡ false)
bulk_more n t h = ground arith

bulks-IsCut :
    (send : ℕ → NanoCommunicationResult) (bulk : List HttpHeaderData) (i : ℕ)
    (hs : List HttpHeaderData)
    → length bulk < 10
    → (bulk ≡ []) ⊎ (is_last hs ≡ false)
    → IsCut send
        (send_bulks send bulk i hs).refused
        i
        (bulk ++ hs)
        (send_bulks send bulk i hs).bulks
unfolding send_bulks
bulks-IsCut send bulk i [] few e = inl (append-nil bulk ∙ nil_or bulk e, refl)
  where
    nil_or : (l : List HttpHeaderData) → (l ≡ []) ⊎ (true ≡ false) → l ≡ []
    nil_or l f = ground arith
bulks-IsCut send bulk i (h ∷ hs) few e =
    let bulk' = bulk ++ (h ∷ []) in
    let l = bulk ++ (h ∷ hs) in
    let whole : bulk' ++ hs ≡ l = append_assoc bulk (h ∷ []) hs in
    let size : length bulk' ≡ length bulk + 1 = length-append bulk (h ∷ []) in
    let next = send_bulks send [] (suc i) hs in
    if_split (λ (r : BulkRun). IsCut send r.refused i l r.bulks)
      (ltb (length bulk') max_header_bulk_size && not (is_last hs))
      (λ f.
        let kept = send_bulks send bulk' i hs in
        let (room, more) = bulk_more (length bulk') (is_last hs) f in
        subst (λ t. IsCut send kept.refused i t kept.bulks) whole
          (bulks-IsCut send bulk' i hs room (inr more)))
      (λ f.
        if_split (λ (r : BulkRun). IsCut send r.refused i l r.bulks) (is_ok (send i))
          (λ ok.
            let few' : length bulk' ≤ 10 = omega (arith, size, few) in
            let (taken, left) = cut_whole 10 bulk' hs few' (bulk_full (length bulk') hs few' f) in
            let end = header_bulk (is_last hs) (u8 i) bulk' in
            subst (λ t. IsCut send next.refused i t (end ∷ next.bulks)) whole
              (
                ap₂ (λ t u. header_bulk t (u8 i) u) (ap is_last (sym left)) (sym taken),
                omega (arith, length-append bulk' hs, size),
                ok-IsTaken (send i) ok,
                subst (λ t. IsCut send next.refused (suc i) t next.bulks) (sym left)
                    (bulks-IsCut send [] (suc i) hs (omega arith) (inl refl)),
              ))
          (λ no. inr (omega (arith, length-append bulk (h ∷ hs)), (not-IsTaken (send i) no, refl))))

bulks-counted :
    (send : ℕ → NanoCommunicationResult) (bulk : List HttpHeaderData) (i : ℕ)
    (hs : List HttpHeaderData)
    → let run = send_bulks send bulk i hs in run.bulk_index ≡ i + length run.bulks
unfolding send_bulks
bulks-counted send bulk i [] = omega arith
bulks-counted send bulk i (h ∷ hs) =
    if_case (λ (r : BulkRun). r.bulk_index ≡ i + length r.bulks)
      (ltb (length (bulk ++ (h ∷ []))) max_header_bulk_size && not (is_last hs))
      (bulks-counted send (bulk ++ (h ∷ [])) i hs)
      (if_case (λ (r : BulkRun). r.bulk_index ≡ i + length r.bulks) (is_ok (send i))
        (omega (arith, bulks-counted send [] (suc i) hs)) (omega arith))

-- The header sender sends the headers cut into tens, in their order, numbered modulo 256 from 0 on, the
-- last flag on the bulk that ends them alone. Every bulk that counts as sent was answered with NANO_OK;
-- either that are all of them, or the bulk of the next number was answered otherwise. After such a
-- refusal the result is an error; else, in the synchronous mode, the bulks are counted.
pub header_sender_cuts :
    (send : ℕ → NanoCommunicationResult) (headers : List HttpHeaderData)
    (is_verdict_requested : Bool) (reply : NanoCommunicationResult) (mode : SignalUsageMode)
    (session_id : ℕ) (x : Transfer)
    → let run = send_bulks send [] 0 headers in
      IsCut send run.refused 0 headers run.bulks
      × IsFinished run.refused run.bulks
          (length run.bulks)
          is_verdict_requested
          reply
          x.res
          mode
          x
          (nano_header_sender send headers is_verdict_requested reply mode session_id x)
unfolding nano_header_sender
header_sender_cuts send headers v reply mode session_id x =
    let run = send_bulks send [] 0 headers in
    let amount : run.bulk_index ≡ length run.bulks =
      omega (arith, bulks-counted send [] 0 headers) in
    let y = nano_header_sender send headers v reply mode session_id x in
    (
      bulks-IsCut send [] 0 headers (omega arith) (inl refl),
      subst (λ n. IsFinished run.refused run.bulks n v reply x.res mode x y) amount
          (finish-IsFinished run.refused run.bulks run.bulk_index v reply x.res mode session_id x),
    )
