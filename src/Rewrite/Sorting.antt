-- ===== src/Rewrite/Sorting.antt =====
-- attachments/nginx/ngx_module/ngx_cp_custom_response.c, ngx_http_cp_body_modifier: the sort of the
-- modifications of a chunk.
use mathlib.Core.Path.{subst, ap₂}
use mathlib.Core.List.{append-nil, append_assoc}
use openappsec_attachment.Common.{
  ℕ, zero, suc, ◌≡◌, refl, sym, ap, ◌∙◌, Bool, true, false, List, [], ◌∷◌, ◌++◌, arith,
  if◌then◌else◌, length, ◌==◌, ℤ, pos, negsuc, ltb_ℤ, if_case, if_split,
}
use openappsec_attachment.Rewrite.{Modification, bubble, sort_rounds, sort_modifications}
use openappsec_attachment.Rewrite.Weave.{Bound, Descends, injected_by, injected_at, weave}

ltb_ℤ-irrefl : (a : ℤ) → ltb_ℤ a a ≡ false
ltb_ℤ-irrefl (pos a) = ground arith
ltb_ℤ-irrefl (negsuc a) = ground arith

ltb_ℤ-asym : (a b : ℤ) → ltb_ℤ a b ≡ true → ltb_ℤ b a ≡ false
ltb_ℤ-asym (pos a) (pos b) h = ground arith
ltb_ℤ-asym (pos a) (negsuc b) h = ground arith
ltb_ℤ-asym (negsuc a) (pos b) h = refl
ltb_ℤ-asym (negsuc a) (negsuc b) h = ground arith

ltb_ℤ-trans : (a b c : ℤ) → ltb_ℤ a b ≡ false → ltb_ℤ b c ≡ false → ltb_ℤ a c ≡ false
ltb_ℤ-trans (pos a) (pos b) (pos c) h k = ground arith
ltb_ℤ-trans (pos a) b (negsuc c) h k = refl
ltb_ℤ-trans (negsuc a) (negsuc b) (negsuc c) h k = ground arith
ltb_ℤ-trans (pos a) (negsuc b) (pos c) h k = ground arith
ltb_ℤ-trans (negsuc a) (pos b) c h k = ground arith
ltb_ℤ-trans (negsuc a) (negsuc b) (pos c) h k = ground arith

Bound-trans : (a b : ℤ) (l : List Modification) → ltb_ℤ a b ≡ false → Bound b l → Bound a l
Bound-trans a b [] h k = tt
Bound-trans a b (m ∷ l) h (q, k) = (ltb_ℤ-trans a b m.injection_pos h q, Bound-trans a b l h k)

abbrev pub All : (Modification → Type 0) → List Modification → Type 0
All P [] = Unit
All P (m ∷ l) = P m × All P l

-- What one round of the inner loop comes to: the modification it moves to the end, and those before.
record Round : Type 0 where
  before : List Modification
  least : Modification

abbrev keep : Modification → Round → Round
keep m r = record { before = m ∷ r.before; least = r.least }

round : Modification → List Modification → Round
round a [] = record { before = []; least = a }
round a (b ∷ l) =
    if ltb_ℤ a.injection_pos b.injection_pos then keep b (round a l) else keep a (round b l)

abbrev whole : Round → List Modification → List Modification
whole r suffix = r.before ++ (r.least ∷ suffix)

bubble-round :
    (a : Modification) (l suffix : List Modification)
    → bubble (length l) (a ∷ (l ++ suffix)) ≡ whole (round a l) suffix
unfolding bubble round
bubble-round a [] suffix = refl
bubble-round a (b ∷ l) suffix =
    choose (ltb_ℤ a.injection_pos b.injection_pos) (bubble-round a l suffix)
      (bubble-round b l suffix)
  where
    choose :
        (t : Bool)
        → bubble (length l) (a ∷ (l ++ suffix)) ≡ whole (round a l) suffix
        → bubble (length l) (b ∷ (l ++ suffix)) ≡ whole (round b l) suffix
        → (if t
            then b ∷ bubble (length l) (a ∷ (l ++ suffix))
            else a ∷ bubble (length l) (b ∷ (l ++ suffix)))
          ≡ whole (if t then keep b (round a l) else keep a (round b l)) suffix
    choose true h k = ap (◌∷◌ b) h
    choose false h k = ap (◌∷◌ a) k

length-round : (a : Modification) (l : List Modification) → length (round a l).before ≡ length l
unfolding round
length-round a [] = refl
length-round a (b ∷ l) =
    if_case (λ (r : Round). length r.before ≡ suc (length l))
      (ltb_ℤ a.injection_pos b.injection_pos) (ap suc (length-round a l))
      (ap suc (length-round b l))

-- What all modifications have, those after a round have.
round-All :
    (P : Modification → Type 0) (a : Modification) (l : List Modification)
    → P a
    → All P l
    → All P (round a l).before × P (round a l).least
unfolding round
round-All P a [] p ps = (tt, p)
round-All P a (b ∷ l) p (q, ps) =
    let (f, g) = round-All P a l p ps in
    let (f', g') = round-All P b l q ps in
    if_case (λ (r : Round). All P r.before × P r.least) (ltb_ℤ a.injection_pos b.injection_pos)
      ((q, f), g) ((p, f'), g')

-- The modification at the end is past none of the others.
abbrev IsLow : Modification → Round → Type 0
IsLow a r =
    ltb_ℤ a.injection_pos r.least.injection_pos ≡ false
    × All (λ m. ltb_ℤ m.injection_pos r.least.injection_pos ≡ false) r.before

round-IsLow : (a : Modification) (l : List Modification) → IsLow a (round a l)
unfolding round
round-IsLow a [] = (ltb_ℤ-irrefl a.injection_pos, tt)
round-IsLow a (b ∷ l) =
    let (low, lows) = round-IsLow a l in
    let (low', lows') = round-IsLow b l in
    if_split (IsLow a) (ltb_ℤ a.injection_pos b.injection_pos)
      (λ h. (
        low,
        (
          ltb_ℤ-trans b.injection_pos a.injection_pos (round a l).least.injection_pos
              (ltb_ℤ-asym a.injection_pos b.injection_pos h) low,
          lows,
        ),
      ))
      (λ h. (
        ltb_ℤ-trans a.injection_pos b.injection_pos (round b l).least.injection_pos h low',
        (ltb_ℤ-trans a.injection_pos b.injection_pos (round b l).least.injection_pos h low', lows'),
      ))

Bounds :
    (ms : List Modification) (m : Modification) (suffix : List Modification)
    → All (λ n. ltb_ℤ n.injection_pos m.injection_pos ≡ false) ms
    → All (λ n. Bound n.injection_pos suffix) ms
    → All (λ n. Bound n.injection_pos (m ∷ suffix)) ms
Bounds [] m suffix h k = tt
Bounds (n ∷ ms) m suffix (h, hs) (k, ks) = ((h, k), Bounds ms m suffix hs ks)

sort_rounds-Descends :
    (k : ℕ) (l suffix : List Modification)
    → length l ≡ suc k
    → Descends suffix
    → All (λ m. Bound m.injection_pos suffix) l
    → Descends (sort_rounds k (l ++ suffix))
unfolding sort_rounds
sort_rounds-Descends k [] suffix e d b = absurd (omega arith)
sort_rounds-Descends zero (a ∷ []) suffix e d (b, bs) = (b, d)
sort_rounds-Descends zero (a ∷ c ∷ l) suffix e d b = absurd (omega arith)
sort_rounds-Descends (suc k) (a ∷ l) suffix e d (b, bs) =
    let (keeps, last) = round-All (λ m. Bound m.injection_pos suffix) a l b bs in
    let (_, lows) = round-IsLow a l in
    let r = round a l in
    let e' : length l ≡ suc k = omega arith in
    subst (λ j. Descends (sort_rounds k (bubble j (a ∷ (l ++ suffix))))) e'
      (subst (λ t. Descends (sort_rounds k t)) (sym (bubble-round a l suffix))
        (sort_rounds-Descends k r.before (r.least ∷ suffix) (length-round a l ∙ e') (last, d)
          (Bounds r.before r.least suffix lows keeps)))

unbounded : (l : List Modification) → All (λ m. Bound m.injection_pos []) l
unbounded [] = tt
unbounded (m ∷ l) = (tt, unbounded l)

-- The sort leaves the modifications in descending order.
pub sort-Descends : (l : List Modification) → Descends (sort_modifications l)
unfolding sort_modifications
sort-Descends [] = tt
sort-Descends (m ∷ l) =
    subst (λ t. Descends (sort_rounds (length l) t)) (append-nil (m ∷ l))
      (sort_rounds-Descends (length l) (m ∷ l) [] refl tt (unbounded (m ∷ l)))

injected_by-less :
    (i p q : ℕ) (d : List ℕ)
    → ltb_ℤ (pos p) (pos q) ≡ true
    → (q == i) ≡ true
    → injected_by i (pos p) d ≡ []
injected_by-less i p q d h k = ground arith

injected_by-swap :
    (i : ℕ) (y z : ℤ) (d e : List ℕ)
    → ltb_ℤ y z ≡ true
    → injected_by i y d ++ injected_by i z e ≡ injected_by i z e ++ injected_by i y d
injected_by-swap i (pos p) (pos q) d e h =
    if_split (λ t. injected_by i (pos p) d ++ t ≡ t ++ injected_by i (pos p) d) (q == i)
      (λ k.
        ap (λ t. t ++ e) (injected_by-less i p q d h k)
        ∙ sym (append-nil e)
        ∙ ap (λ t. e ++ t) (sym (injected_by-less i p q d h k)))
      (λ k. append-nil (injected_by i (pos p) d))
injected_by-swap i (negsuc p) z d e h = sym (append-nil (injected_by i z e))
injected_by-swap i (pos p) (negsuc q) d e h = append-nil (injected_by i (pos p) d)

-- A step of the inner loop keeps the order of modifications at one position.
injected_at-bubble :
    (i k : ℕ) (l : List Modification) → injected_at i (bubble k l) ≡ injected_at i l
unfolding injected_at bubble
injected_at-bubble i zero l = refl
injected_at-bubble i (suc k) [] = refl
injected_at-bubble i (suc k) (a ∷ []) = refl
injected_at-bubble i (suc k) (a ∷ b ∷ l) =
    let this : Modification → List ℕ = λ m. injected_by i m.injection_pos m.modification_buffer in
    if_split (λ t. injected_at i t ≡ injected_at i (a ∷ b ∷ l))
      (ltb_ℤ a.injection_pos b.injection_pos)
      (λ h.
        ap (λ t. t ++ this b) (injected_at-bubble i k (a ∷ l))
        ∙ append_assoc (injected_at i l) (this a) (this b)
        ∙ ap (λ t. injected_at i l ++ t)
            (injected_by-swap i a.injection_pos b.injection_pos a.modification_buffer
              b.modification_buffer h)
        ∙ sym (append_assoc (injected_at i l) (this b) (this a)))
      (λ h. ap (λ t. t ++ this a) (injected_at-bubble i k (b ∷ l)))

injected_at-rounds :
    (i k : ℕ) (l : List Modification) → injected_at i (sort_rounds k l) ≡ injected_at i l
unfolding sort_rounds
injected_at-rounds i zero l = refl
injected_at-rounds i (suc k) l =
    injected_at-rounds i k (bubble (suc k) l) ∙ injected_at-bubble i (suc k) l

injected_at-sort :
    (i : ℕ) (l : List Modification) → injected_at i (sort_modifications l) ≡ injected_at i l
unfolding sort_modifications
injected_at-sort i [] = refl
injected_at-sort i (m ∷ l) = injected_at-rounds i (length l) (m ∷ l)

-- So the sorted modifications weave the same bytes in.
pub weave-sort :
    (l : List Modification) (i : ℕ) (buffer : List ℕ)
    → weave (sort_modifications l) i buffer ≡ weave l i buffer
unfolding weave
weave-sort l i [] = injected_at-sort i l
weave-sort l i (x ∷ xs) = ap₂ (λ t u. t ++ (x ∷ u)) (injected_at-sort i l) (weave-sort l (suc i) xs)
