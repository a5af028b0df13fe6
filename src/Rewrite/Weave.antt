-- ===== src/Rewrite/Weave.antt =====
-- attachments/nginx/ngx_module/ngx_cp_custom_response.c, ngx_http_cp_body_modifier: the loop over the
-- sorted modifications against a description that passes over the buffer once.
use mathlib.Core.List.{append-nil, append_assoc}
use openappsec_attachment.Common.{
  ℕ, zero, suc, ◌+◌, ◌≤◌, ◌<◌, ◌≡◌, refl, sym, ap, ◌∙◌, Bool, true, false, List, [], ◌∷◌, ◌++◌,
  arith, if◌then◌else◌, ltb, ◌==◌, length, ℤ, pos, negsuc, ltb_ℤ, if_split,
}
use openappsec_attachment.Rewrite.{Modification, splice, apply_modification, apply_modifications}

-- The bytes of a modification at `z`, when that is position `i`.
abbrev pub injected_by : ℕ → ℤ → List ℕ → List ℕ
injected_by i (pos p) bytes = if p == i then bytes else []
injected_by i (negsuc p) bytes = []

-- What is injected before the byte at position `i`: of two modifications there, the later comes first.
unfoldable pub injected_at : ℕ → List Modification → List ℕ
injected_at i [] = []
injected_at i (m ∷ ms) = injected_at i ms ++ injected_by i m.injection_pos m.modification_buffer

-- The bytes of a buffer from position `i`, each after what is injected before it.
unfoldable pub weave : List Modification → ℕ → List ℕ → List ℕ
unfolding injected_at
weave ms i [] = injected_at i ms
weave ms i (x ∷ xs) = injected_at i ms ++ (x ∷ weave ms (suc i) xs)

-- No modification is past position `z`.
abbrev pub Bound : ℤ → List Modification → Type 0
Bound z [] = Unit
Bound z (m ∷ ms) = ltb_ℤ z m.injection_pos ≡ false × Bound z ms

-- No modification is past one that comes before it.
abbrev pub Descends : List Modification → Type 0
Descends [] = Unit
Descends (m ∷ ms) = Bound m.injection_pos ms × Descends ms

Bound-pos : (p q : ℕ) → ltb_ℤ (pos p) (pos q) ≡ false → q ≤ p
Bound-pos p q h = ground arith

injected_by-other :
    (z : ℤ) (i j : ℕ) (d : List ℕ) → ltb_ℤ (pos i) z ≡ false → i < j → injected_by j z d ≡ []
injected_by-other (pos p) i j d h k = ground arith
injected_by-other (negsuc p) i j d h k = refl

injected_at-past :
    (ms : List Modification) (i j : ℕ) → Bound (pos i) ms → i < j → injected_at j ms ≡ []
unfolding injected_at
injected_at-past [] i j b h = refl
injected_at-past (m ∷ ms) i j (q, b) h =
    ap (λ l. injected_at j ms ++ l)
      (injected_by-other m.injection_pos i j m.modification_buffer q h)
    ∙ append-nil (injected_at j ms)
    ∙ injected_at-past ms i j b h

-- Past all modifications the buffer is unchanged.
weave-past :
    (ms : List Modification) (i j : ℕ) (l : List ℕ) → Bound (pos i) ms → i < j → weave ms j l ≡ l
unfolding weave
weave-past ms i j [] b h = injected_at-past ms i j b h
weave-past ms i j (x ∷ xs) b h =
    ap (λ l. l ++ (x ∷ weave ms (suc j) xs)) (injected_at-past ms i j b h)
    ∙ ap (◌∷◌ x) (weave-past ms i (suc j) xs b (omega arith))

-- From the last position of a modification on, all that is injected comes first.
weave-last :
    (ms : List Modification) (q i : ℕ) (l : List ℕ)
    → Bound (pos q) ms
    → q ≤ i
    → weave ms i l ≡ injected_at i ms ++ l
unfolding weave
weave-last ms q i [] b h = sym (append-nil (injected_at i ms))
weave-last ms q i (x ∷ xs) b h =
    ap (λ l. injected_at i ms ++ (x ∷ l)) (weave-past ms q (suc i) xs b (omega arith))

injected_by-here : (z : ℤ) (q i : ℕ) (d : List ℕ) → z ≡ pos q → q ≡ i → injected_by i z d ≡ d
injected_by-here z q i d h k = ground arith

injected_by-later : (z : ℤ) (i q : ℕ) (d : List ℕ) → z ≡ pos q → i < q → injected_by i z d ≡ []
injected_by-later z i q d h k = ground arith

self-Bound : (z : ℤ) (q : ℕ) → z ≡ pos q → ltb_ℤ (pos q) z ≡ false
self-Bound z q e = ground arith

injected_at-later :
    (ms : List Modification) (m : Modification) (i q : ℕ)
    → m.injection_pos ≡ pos q
    → i < q
    → injected_at i (m ∷ ms) ≡ injected_at i ms
unfolding injected_at
injected_at-later ms m i q e h =
    ap (λ l. injected_at i ms ++ l)
      (injected_by-later m.injection_pos i q m.modification_buffer e h)
    ∙ append-nil (injected_at i ms)

-- Writing a modification into the buffer is the same as passing over it once more.
pub weave-splice :
    (ms : List Modification) (m : Modification) (q i p : ℕ) (l : List ℕ)
    → m.injection_pos ≡ pos q
    → Bound (pos q) ms
    → q ≡ i + p
    → p ≤ length l
    → weave ms i (splice p m.modification_buffer l) ≡ weave (m ∷ ms) i l
unfolding weave splice injected_at
weave-splice ms m q i zero l e b k h =
    weave-last ms q i (m.modification_buffer ++ l) b (omega arith)
    ∙ sym (append_assoc (injected_at i ms) m.modification_buffer l)
    ∙ ap (λ d. (injected_at i ms ++ d) ++ l)
        (sym (injected_by-here m.injection_pos q i m.modification_buffer e (omega arith)))
    ∙ sym (weave-last (m ∷ ms) q i l (self-Bound m.injection_pos q e, b) (omega arith))
weave-splice ms m q i (suc p) [] e b k h = absurd (omega arith)
weave-splice ms m q i (suc p) (x ∷ xs) e b k h =
    ap (λ l. injected_at i ms ++ (x ∷ l))
      (weave-splice ms m q (suc i) p xs e b (omega arith) (omega arith))
    ∙ ap (λ l. l ++ (x ∷ weave (m ∷ ms) (suc i) xs))
        (sym (injected_at-later ms m i q e (omega arith)))

-- A modification past the end of the buffer injects nothing.
pub weave-beyond :
    (ms : List Modification) (m : Modification) (i q : ℕ) (l : List ℕ)
    → m.injection_pos ≡ pos q
    → i + length l < q
    → weave (m ∷ ms) i l ≡ weave ms i l
unfolding weave
weave-beyond ms m i q [] e h = injected_at-later ms m i q e (omega arith)
weave-beyond ms m i q (x ∷ xs) e h =
    ap (λ l. l ++ (x ∷ weave (m ∷ ms) (suc i) xs)) (injected_at-later ms m i q e (omega arith))
    ∙ ap (λ l. injected_at i ms ++ (x ∷ l)) (weave-beyond ms m (suc i) q xs e (omega arith))

pub weave-none : (i : ℕ) (l : List ℕ) → weave [] i l ≡ l
unfolding weave injected_at
weave-none i [] = refl
weave-none i (x ∷ xs) = ap (◌∷◌ x) (weave-none (suc i) xs)

injected_by-negative : (z : ℤ) (i n : ℕ) (d : List ℕ) → z ≡ negsuc n → injected_by i z d ≡ []
injected_by-negative z i n d h = ground arith

injected_at-negative :
    (ms : List Modification) (m : Modification) (i n : ℕ)
    → m.injection_pos ≡ negsuc n
    → injected_at i (m ∷ ms) ≡ injected_at i ms
unfolding injected_at
injected_at-negative ms m i n e =
    ap (λ l. injected_at i ms ++ l)
      (injected_by-negative m.injection_pos i n m.modification_buffer e)
    ∙ append-nil (injected_at i ms)

-- Nor does one at a negative position.
pub weave-negative :
    (ms : List Modification) (m : Modification) (i n : ℕ) (l : List ℕ)
    → m.injection_pos ≡ negsuc n
    → weave (m ∷ ms) i l ≡ weave ms i l
unfolding weave
weave-negative ms m i n [] e = injected_at-negative ms m i n e
weave-negative ms m i n (x ∷ xs) e =
    ap (λ l. l ++ (x ∷ weave (m ∷ ms) (suc i) xs)) (injected_at-negative ms m i n e)
    ∙ ap (λ l. injected_at i ms ++ (x ∷ l)) (weave-negative ms m (suc i) n xs e)

-- One round of the loop moves a modification from the buffer to what is woven in.
weave-apply :
    (ms : List Modification) (m : Modification) (z : ℤ) (l : List ℕ)
    → m.injection_pos ≡ z
    → Bound z ms
    → weave ms 0 (apply_modification true z m.modification_buffer l) ≡ weave (m ∷ ms) 0 l
unfolding apply_modification
weave-apply ms m (negsuc n) l e b = sym (weave-negative ms m 0 n l e)
weave-apply ms m (pos p) l e b =
    if_split (λ r. weave ms 0 r ≡ weave (m ∷ ms) 0 l) (ltb (length l) p)
      (λ h. sym (weave-beyond ms m 0 p l e (ground arith)))
      (λ h. weave-splice ms m p 0 p l e b (omega arith) (ground arith))

-- With room for every buffer, the loop over modifications in descending order weaves them in.
pub apply-weave :
    (room : ℕ → Bool) (k : ℕ) (ms : List Modification) (l : List ℕ)
    → ((i : ℕ) → room i ≡ true)
    → Descends ms
    → apply_modifications room k ms l ≡ weave ms 0 l
unfolding apply_modifications
apply-weave room k [] l r d = sym (weave-none 0 l)
apply-weave room k (m ∷ ms) l r (b, d) =
    let next : Bool → List ℕ = λ t. apply_modification t m.injection_pos m.modification_buffer l in
    apply-weave room (suc k) ms (next (room k)) r d
    ∙ ap (λ t. weave ms 0 (next t)) (r k)
    ∙ weave-apply ms m m.injection_pos l refl b
