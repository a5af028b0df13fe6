-- ===== src/Rewrite/Chunks/Body.antt =====
-- attachments/nginx/ngx_module/ngx_cp_custom_response.c, ngx_http_cp_body_modifier: the chunks of a body
-- with all that is injected into them.
use openappsec_attachment.Common.{
  ℕ, suc, ◌≤◌, ◌<◌, ◌≡◌, ◌⊎◌, refl, sym, ap, ◌∙◌, Bool, true, List, [], ◌∷◌, ◌++◌, map, arith,
  length,
}
use mathlib.Core.Path.{ap₂}
use openappsec_attachment.Rewrite.{
  Modification, left, rewritten, after_chunk, max_modifications_per_chunk, untouched, changed,
  modify_chunk, modify_chunks, body_modifier,
}
use openappsec_attachment.Rewrite.Weave.{Descends, weave, weave-none}
use openappsec_attachment.Rewrite.Sorting.{All}
use openappsec_attachment.Rewrite.Chunks.{
  AreParts-later, collect-group, Part, all_wanted, IsFor, AreParts, IsAfter, chunk_lem, round_lem,
}

abbrev pub woven : Part → List ℕ
woven p = weave p.wanted 0 p.bytes

abbrev pub bytes_of : Part → List ℕ
bytes_of p = p.bytes

both-nil : (l l' : List Modification) → l ++ l' ≡ [] → (l ≡ []) × (l' ≡ [])
both-nil [] l' e = (refl, e)
both-nil (m ∷ l) l' e = ground arith

-- Where nothing is wanted any more the body stays as it is.
none_wanted : (c : ℕ) (ps : List Part) → all_wanted ps ≡ [] → map bytes_of ps ≡ map woven ps
none_wanted c [] e = refl
none_wanted c (p ∷ ps) e =
    let (mine, others) = both-nil p.wanted (all_wanted ps) e in
    ap₂ ◌∷◌ (sym (weave-none 0 p.bytes) ∙ ap (λ w. weave w 0 p.bytes) (sym mine))
      (none_wanted (suc c) ps others)

-- One round of the loop over the chain.
chunk_step :
    (palloc : ℕ → ℕ → Bool) (c : ℕ) (bytes : List ℕ) (mine rest : List Modification)
    (chain out : List (List ℕ))
    → ((c i : ℕ) → palloc c i ≡ true)
    → All (IsFor c) mine
    → length mine ≤ max_modifications_per_chunk
    → Descends mine
    → ((mine ≡ []) ⊎ (0 < length bytes))
    → All (IsAfter c) rest
    → (rest ≡ [] → chain ≡ out)
    → modify_chunks palloc (suc c) chain (left rest) ≡ rewritten out
    → modify_chunks palloc c (bytes ∷ chain) (left (mine ++ rest))
      ≡ rewritten (weave mine 0 bytes ∷ out)
unfolding modify_chunks after_chunk modify_chunk
chunk_step palloc c bytes [] [] chain out r own few order b later stop next =
    ap₂ (λ x xs. rewritten (x ∷ xs)) (sym (weave-none 0 bytes)) (stop refl)
chunk_step palloc c [] [] (m ∷ ms) chain out r own few order b later stop next =
    ap (after_chunk []) next ∙ ap (λ t. rewritten (t ∷ out)) (sym (weave-none 0 []))
chunk_step palloc c (x ∷ xs) [] (m ∷ ms) chain out r own few order b later stop next =
    round_lem palloc c x xs chain m ms [] (m ∷ ms) untouched
      (collect-group max_modifications_per_chunk c [] (m ∷ ms) tt few later) refl
    ∙ ap (after_chunk (x ∷ xs)) next
    ∙ ap (λ t. rewritten (t ∷ out)) (sym (weave-none 0 (x ∷ xs)))
chunk_step palloc c [] (m ∷ ms) rest chain out r own few order b later stop next = ground arith
chunk_step palloc c (x ∷ xs) (m ∷ ms) rest chain out r own few order b later stop next =
    round_lem palloc c x xs chain m (ms ++ rest) (m ∷ ms) rest
      (changed (weave (m ∷ ms) 0 (x ∷ xs)) (left rest))
      (collect-group max_modifications_per_chunk c (m ∷ ms) rest own few later)
      (chunk_lem (palloc c) m ms rest (x ∷ xs) (r c) order)
    ∙ ap (after_chunk (weave (m ∷ ms) 0 (x ∷ xs))) next

-- The body of a reply, with room for every buffer.
chunks_lem :
    (palloc : ℕ → ℕ → Bool) (c : ℕ) (ps : List Part)
    → ((c i : ℕ) → palloc c i ≡ true)
    → AreParts c ps
    → modify_chunks palloc c (map bytes_of ps) (left (all_wanted ps)) ≡ rewritten (map woven ps)
unfolding modify_chunks
chunks_lem palloc c [] r h = refl
chunks_lem palloc c (p ∷ ps) r ((own, few, order, some_bytes), hs) =
    chunk_step palloc c p.bytes p.wanted (all_wanted ps) (map bytes_of ps) (map woven ps) r own few
      order some_bytes (AreParts-later c (suc c) ps (omega arith) hs) (none_wanted c ps)
      (chunks_lem palloc (suc c) ps r hs)

-- Take the list of modifications to be that of the first chunk's, then the second's, and so on, at most 64
-- for a chunk, all with their chunk's index, those of a chunk in descending order of position, and none
-- for a chunk without bytes. Where every allocation succeeds, the call rewrites the body: each chunk has
-- what is meant for it woven in, and the loop never goes on at a node that was passed to `ngx_pfree`.
pub body_modifier_weaves :
    (palloc : ℕ → ℕ → Bool) (ps : List Part)
    → ((c i : ℕ) → palloc c i ≡ true)
    → AreParts 0 ps
    → body_modifier palloc (map bytes_of ps) (all_wanted ps) ≡ rewritten (map woven ps)
unfolding body_modifier
body_modifier_weaves palloc ps r h = chunks_lem palloc 0 ps r h
