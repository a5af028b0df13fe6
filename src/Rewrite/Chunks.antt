-- ===== src/Rewrite/Chunks.antt =====
-- attachments/nginx/ngx_module/ngx_cp_custom_response.c, ngx_http_cp_body_modifier: what becomes of one
-- chunk of a body.
pub mod Body
use openappsec_attachment.Common.{
  ℕ, zero, suc, ◌≤◌, ◌<◌, ◌≡◌, ◌≢◌, ◌⊎◌, inl, inr, refl, sym, ap, ◌∙◌, Bool, true, false, List, [],
  ◌∷◌, ◌++◌, map, arith, if◌then◌else◌, length, ◌==◌, ltb_ℤ, if_false, if_split,
}
use mathlib.Core.Path.{subst, ap₂}
use mathlib.Core.List.{append_assoc}
use openappsec_attachment.Rewrite.{
  Modification, collect, bubble, sort_rounds, sort_modifications, apply_modifications, Current,
  left, stale, last_node, release, Rewritten, rewritten, no_memory, stale_node, after_chunk,
  max_modifications_per_chunk, Chunk, untouched, no_room, changed, modify_chunk, modify_chunks,
  body_modifier,
}
use openappsec_attachment.Rewrite.Weave.{Bound, Descends, weave, weave-none, apply-weave}
use openappsec_attachment.Rewrite.Sorting.{sort-Descends, weave-sort, All}

-- With room for every buffer, the sort and the loop that follows it weave the modifications of a chunk
-- into its bytes.
pub sort_apply_weaves :
    (room : ℕ → Bool) (ms : List Modification) (chunk : List ℕ)
    → ((i : ℕ) → room i ≡ true)
    → apply_modifications room 0 (sort_modifications ms) chunk ≡ weave ms 0 chunk
sort_apply_weaves room ms chunk r =
    apply-weave room 0 (sort_modifications ms) chunk r (sort-Descends ms) ∙ weave-sort ms 0 chunk

Bound-head :
    (a b : Modification) (l : List Modification)
    → Bound a.injection_pos (b ∷ l)
    → ltb_ℤ a.injection_pos b.injection_pos ≡ false
Bound-head a b l (h, k) = h

bubble-sorted : (k : ℕ) (l : List Modification) → Descends l → bubble k l ≡ l
unfolding bubble
bubble-sorted zero l d = refl
bubble-sorted (suc k) [] d = refl
bubble-sorted (suc k) (a ∷ []) d = refl
bubble-sorted (suc k) (a ∷ b ∷ l) (h, d) =
    if_false (λ t. t ≡ a ∷ b ∷ l) (ltb_ℤ a.injection_pos b.injection_pos) (b ∷ bubble k (a ∷ l))
      (Bound-head a b l h) (ap (◌∷◌ a) (bubble-sorted k (b ∷ l) d))

rounds-sorted : (k : ℕ) (l : List Modification) → Descends l → sort_rounds k l ≡ l
unfolding sort_rounds
rounds-sorted zero l d = refl
rounds-sorted (suc k) l d = ap (sort_rounds k) (bubble-sorted (suc k) l d) ∙ rounds-sorted k l d

sort-sorted : (l : List Modification) → Descends l → sort_modifications l ≡ l
unfolding sort_modifications
sort-sorted [] d = refl
sort-sorted (m ∷ l) d = rounds-sorted (length l) (m ∷ l) d

-- A chunk of a body and the modifications that are meant for it.
pub record Part : Type 0 where
  pub bytes : List ℕ
  pub wanted : List Modification

abbrev pub all_wanted : List Part → List Modification
all_wanted [] = []
all_wanted (p ∷ ps) = p.wanted ++ all_wanted ps

abbrev pub IsFor : ℕ → Modification → Type 0
IsFor c m = m.orig_buff_index ≡ c

-- At chunk `c`: the modifications are for it, at most 64, in descending order, and only where it has bytes.
abbrev pub IsPart : ℕ → Part → Type 0
IsPart c p =
    All (IsFor c) p.wanted
    × length p.wanted ≤ max_modifications_per_chunk
    × Descends p.wanted
    × ((p.wanted ≡ []) ⊎ (0 < length p.bytes))

abbrev pub AreParts : ℕ → List Part → Type 0
AreParts c [] = Unit
AreParts c (p ∷ ps) = IsPart c p × AreParts (suc c) ps

All-append :
    (P : Modification → Type 0) (l l' : List Modification) → All P l → All P l' → All P (l ++ l')
All-append P [] l' h k = k
All-append P (m ∷ l) l' (q, h) k = (q, All-append P l l' h k)

All-imp :
    (P Q : Modification → Type 0) (l : List Modification)
    → ((m : Modification) → P m → Q m)
    → All P l
    → All Q l
All-imp P Q [] f h = tt
All-imp P Q (m ∷ l) f (q, h) = (f m q, All-imp P Q l f h)

abbrev IsAfter : ℕ → Modification → Type 0
IsAfter c m = c < m.orig_buff_index

AreParts-later :
    (c d : ℕ) (ps : List Part) → c < d → AreParts d ps → All (IsAfter c) (all_wanted ps)
AreParts-later c d [] h k = tt
AreParts-later c d (p ∷ ps) h ((own, _, _, _), k) =
    All-append (IsAfter c) p.wanted (all_wanted ps)
      (All-imp (IsFor d) (IsAfter c) p.wanted (λ m e. omega (arith, e)) own)
      (AreParts-later c (suc d) ps (omega arith) k)

collect-group :
    (n c : ℕ) (mine rest : List Modification)
    → All (IsFor c) mine
    → length mine ≤ n
    → All (IsAfter c) rest
    → collect n c (mine ++ rest) ≡ (mine, rest)
unfolding collect
collect-group zero c [] rest h k later = refl
collect-group (suc n) c [] [] h k later = refl
collect-group (suc n) c [] (m ∷ rest) h k (q, later) = ground arith
collect-group zero c (m ∷ mine) rest h k later = absurd (omega arith)
collect-group (suc n) c (m ∷ mine) rest (e, h) k later =
    let own = collect-group n c mine rest h (omega arith) later in
    if_split (λ t. t ≡ (m ∷ mine, rest)) (m.orig_buff_index == c)
      (λ _. ap (λ t. (m ∷ t.0, t.1)) own) (λ f. absurd (ground arith))

release-same : (l rest : List Modification) → release l l rest ≡ left rest
unfolding release
release-same l rest = ground arith

-- With room for every buffer, a chunk gets what is meant for it and the others are left.
chunk_lem :
    (room : ℕ → Bool) (m : Modification) (ms rest : List Modification) (chunk : List ℕ)
    → ((i : ℕ) → room i ≡ true)
    → Descends (m ∷ ms)
    → modify_chunk room chunk (m ∷ ms, rest) ≡ changed (weave (m ∷ ms) 0 chunk) (left rest)
unfolding modify_chunk
chunk_lem room m ms rest chunk r d =
    let sorted = sort_modifications (m ∷ ms) in
    if_split (λ t. t ≡ changed (weave (m ∷ ms) 0 chunk) (left rest)) (room 0)
      (λ _.
        ap₂ changed (sort_apply_weaves room (m ∷ ms) chunk r)
          (ap (λ t. release t (m ∷ ms) rest) (sort-sorted (m ∷ ms) d) ∙ release-same (m ∷ ms) rest))
      (λ f. absurd (ground (arith, r 0)))

-- The loop goes on with what comes of a chunk with bytes.
round_lem :
    (palloc : ℕ → ℕ → Bool) (c x : ℕ) (xs : List ℕ) (chain : List (List ℕ)) (m : Modification)
    (ms mine rest : List Modification) (ch : Chunk)
    → collect max_modifications_per_chunk c (m ∷ ms) ≡ (mine, rest)
    → modify_chunk (palloc c) (x ∷ xs) (mine, rest) ≡ ch
    → modify_chunks palloc c ((x ∷ xs) ∷ chain) (left (m ∷ ms)) ≡ elim ch [
      | untouched ↦ after_chunk (x ∷ xs) (modify_chunks palloc (suc c) chain (left (m ∷ ms)))
      | no_room ↦ no_memory ((x ∷ xs) ∷ chain)
      | changed buffer curr ↦ after_chunk buffer (modify_chunks palloc (suc c) chain curr)
    ]
unfolding modify_chunks
round_lem palloc c x xs chain m ms mine rest ch e h =
    ap
      (λ t. elim t [
        | untouched ↦ after_chunk (x ∷ xs) (modify_chunks palloc (suc c) chain (left (m ∷ ms)))
        | no_room ↦ no_memory ((x ∷ xs) ∷ chain)
        | changed buffer curr ↦ after_chunk buffer (modify_chunks palloc (suc c) chain curr)
      ])
      (ap (modify_chunk (palloc c) (x ∷ xs)) e ∙ h)
