-- ===== src/Async/Table/Laws.antt =====
-- attachments/nginx/ngx_module/async/ngx_cp_async_core.c: what the table of contexts answers.
use native.Mathlib.Decide.{ℕ_discrete}
use openappsec_attachment.Common.{
  ℕ, ◌<◌, ◌≡◌, ◌≢◌, none, some, List, [], ◌∷◌, arith, ◌==◌, if◌then◌else◌, ◌⊎◌, inl, inr,
  Bool-cases, Option-cases,
}
use openappsec_attachment.Async.Table.{
  Table, ctx_hash, find_in_chain, find_ctx, add_ctx, unlink_ctx, remove_ctx, set_chain,
  ctx_buckets_length,
}

hash-lt : (s : ℕ) → ctx_hash s < ctx_buckets_length
unfolding ctx_hash
hash-lt s = omega arith

abbrev pub IsInChain : ℕ → List ℕ → Type 0
IsInChain a [] = ⊥
IsInChain a (b ∷ chain) = (a ≡ b) ⊎ IsInChain a chain

-- After a context was added for a session, that session finds it, and the others what they found.
pub find_ctx-add :
    (sid : ℕ → ℕ) (a s t : ℕ) (tab : Table)
    → sid a ≡ s
    → find_ctx sid t (add_ctx a s tab) ≡ (if t == s then some a else find_ctx sid t tab)
unfolding find_ctx add_ctx
find_ctx-add sid a s t tab h = ground arith

-- No session twice in a chain.
abbrev pub IsDistinct : (ℕ → ℕ) → List ℕ → Type 0
IsDistinct sid [] = Unit
IsDistinct sid (a ∷ chain) = (find_in_chain sid (sid a) chain ≡ none) × IsDistinct sid chain

-- The two ways to unlink_ctx from a chain that is not empty.
abbrev Unlinked : ℕ → ℕ → List ℕ → List ℕ → Type 0
Unlinked a b chain chain' =
    ((b ≡ a) × (chain' ≡ chain))
    ⊎ ((b ≢ a) × ((rest : List ℕ) × (unlink_ctx a chain ≡ some rest) × (chain' ≡ b ∷ rest)))

unlink_cases :
    (a b : ℕ) (chain chain' : List ℕ)
    → unlink_ctx a (b ∷ chain) ≡ some chain'
    → Unlinked a b chain chain'
unfolding unlink_ctx
unlink_cases a b chain chain' e = elim (Bool-cases (b == a)) [
  | inl same ↦ inl (ground (arith, e), ground (arith, e, same))
  | inr other ↦ elim (Option-cases (unlink_ctx a chain)) [
    | inl gone ↦ absurd (ground (arith, e, other, gone))
    | inr (rest, found) ↦ inr (ground arith, (rest, found, ground (arith, e, other, found)))
  ]
]

unlink_ctx-find :
    (sid : ℕ → ℕ) (a : ℕ) (chain chain' : List ℕ)
    → unlink_ctx a chain ≡ some chain'
    → find_in_chain sid (sid a) chain ≢ none
unfolding unlink_ctx find_in_chain
unlink_ctx-find sid a [] chain' e = ground (arith, e)
unlink_ctx-find sid a (b ∷ chain) chain' e = elim (unlink_cases a b chain chain' e) [
  | inl (same, _) ↦ rw same (ground arith)
  | inr (_, (rest, found, _)) ↦ ground (arith, unlink_ctx-find sid a chain rest found)
]

find_in_chain-unlink_ctx :
    (sid : ℕ → ℕ) (a t : ℕ) (chain chain' : List ℕ)
    → IsDistinct sid chain
    → unlink_ctx a chain ≡ some chain'
    → find_in_chain sid t chain' ≡ (if t == sid a then none else find_in_chain sid t chain)
unfolding find_in_chain unlink_ctx
find_in_chain-unlink_ctx sid a t [] chain' d e = ground (arith, e)
find_in_chain-unlink_ctx sid a t (b ∷ chain) chain' d e = elim (unlink_cases a b chain chain' e) [
  | inl (same, rest) ↦ rw (rest, ← same) (ground (arith, d.0))
  | inr (other, (rest, found, eq)) ↦ rw eq (
      ground (
        arith,
        d.0,
        unlink_ctx-find sid a chain rest found,
        find_in_chain-unlink_ctx sid a t chain rest d.1 found,
      ))
]

find-unlink_ctx :
    (sid : ℕ → ℕ) (a s : ℕ) (chain : List ℕ)
    → find_in_chain sid s chain ≡ some a
    → unlink_ctx a chain ≢ none
unfolding unlink_ctx find_in_chain
find-unlink_ctx sid a s [] e = ground (arith, e)
find-unlink_ctx sid a s (b ∷ chain) e = ground (arith, e, find-unlink_ctx sid a s chain)

unlink_ctx-IsDistinct :
    (sid : ℕ → ℕ) (a : ℕ) (chain chain' : List ℕ)
    → IsDistinct sid chain
    → unlink_ctx a chain ≡ some chain'
    → IsDistinct sid chain'
unlink_ctx-IsDistinct sid a [] chain' d e = absurd (unfold unlink_ctx in ground (arith, e))
unlink_ctx-IsDistinct sid a (b ∷ chain) chain' d e = elim (unlink_cases a b chain chain' e) [
  | inl (same, rest) ↦ rw rest (d.1)
  | inr (other, (rest, found, eq)) ↦ rw eq (
    ground (arith, d.0, find_in_chain-unlink_ctx sid a (sid b) chain rest d.1 found),
    unlink_ctx-IsDistinct sid a chain rest d.1 found,
  )
]

-- Every context stands in the chain of its session's hash.
abbrev pub IsHashed : (ℕ → ℕ) → ℕ → List ℕ → Type 0
IsHashed sid i [] = Unit
IsHashed sid i (a ∷ chain) = (ctx_hash (sid a) ≡ i) × IsHashed sid i chain

unlink_ctx-IsHashed :
    (sid : ℕ → ℕ) (i a : ℕ) (chain chain' : List ℕ)
    → IsHashed sid i chain
    → unlink_ctx a chain ≡ some chain'
    → IsHashed sid i chain'
unlink_ctx-IsHashed sid i a [] chain' d e = absurd (unfold unlink_ctx in ground (arith, e))
unlink_ctx-IsHashed sid i a (b ∷ chain) chain' d e = elim (unlink_cases a b chain chain' e) [
  | inl (same, rest) ↦ rw rest (d.1)
  | inr (other, (rest, found, eq)) ↦ rw eq (d.0, unlink_ctx-IsHashed sid i a chain rest d.1 found)
]

-- The contexts of a chain have different sessions, each with the chain's hash.
abbrev pub IsWell : (ℕ → ℕ) → Table → Type 0
IsWell sid t = (i : ℕ) → IsDistinct sid (t.buckets i) × IsHashed sid i (t.buckets i)

removed :
    (a s : ℕ) (tab : Table) (chain : List ℕ)
    → unlink_ctx a (tab.buckets (ctx_hash s)) ≡ some chain
    → (remove_ctx a s tab).buckets ≡ set_chain tab.buckets (ctx_hash s) chain
unfolding remove_ctx
removed a s tab chain found = ground (arith, found)

not_removed :
    (a s : ℕ) (tab : Table)
    → unlink_ctx a (tab.buckets (ctx_hash s)) ≡ none
    → (remove_ctx a s tab).buckets ≡ tab.buckets
unfolding remove_ctx
not_removed a s tab gone = ground (arith, gone)

-- In a table of different sessions, after the context of a session was removed, that session finds
-- none, and every other what it found.
pub find_ctx-remove :
    (sid : ℕ → ℕ) (a t : ℕ) (tab : Table)
    → IsWell sid tab
    → find_ctx sid (sid a) tab ≡ some a
    → find_ctx sid t (remove_ctx a (sid a) tab) ≡ (if t == sid a then none else find_ctx sid t tab)
unfolding find_ctx
find_ctx-remove sid a t tab well listed =
    elim (Option-cases (unlink_ctx a (tab.buckets (ctx_hash (sid a))))) [
      | inl gone ↦
          absurd (find-unlink_ctx sid a (sid a) (tab.buckets (ctx_hash (sid a))) listed gone)
      | inr (chain, found) ↦ rw (removed a (sid a) tab chain found) (
          ground (
            arith,
            find_in_chain-unlink_ctx sid a t (tab.buckets (ctx_hash (sid a))) chain
                (well (ctx_hash (sid a))).0 found,
          ))
    ]

add-IsWell :
    (sid : ℕ → ℕ) (a : ℕ) (tab : Table)
    → IsWell sid tab
    → find_ctx sid (sid a) tab ≡ none
    → IsWell sid (add_ctx a (sid a) tab)
unfolding find_ctx add_ctx
add-IsWell sid a tab well fresh i = elim (ℕ_discrete i (ctx_hash (sid a))) [
  | yes same ↦ rw same (ground (arith, fresh, well (ctx_hash (sid a))))
  | no other ↦ ground (arith, well i)
]

remove-IsWell :
    (sid : ℕ → ℕ) (a : ℕ) (tab : Table) → IsWell sid tab → IsWell sid (remove_ctx a (sid a) tab)
remove-IsWell sid a tab well i =
    let chain0 : List ℕ = tab.buckets (ctx_hash (sid a)) in
    elim (Option-cases (unlink_ctx a chain0)) [
      | inl gone ↦ rw (not_removed a (sid a) tab gone) (well i)
      | inr (chain, found) ↦
          rw (removed a (sid a) tab chain found) (elim (ℕ_discrete i (ctx_hash (sid a))) [
            | yes same ↦ rw same (
                ground (
                  arith,
                  unlink_ctx-IsDistinct sid a chain0 chain (well (ctx_hash (sid a))).0 found,
                  unlink_ctx-IsHashed sid (ctx_hash (sid a)) a chain0 chain
                      (well (ctx_hash (sid a))).1 found,
                ))
            | no other ↦ ground (arith, well i)
          ])
    ]

-- In a table whose chains have different sessions, each hashed to its chain, adding a context whose
-- session finds none keeps that so, and so does removing any context.
pub table-IsWell :
    (sid : ℕ → ℕ) (a b : ℕ) (tab : Table)
    → IsWell sid tab
    → find_ctx sid (sid a) tab ≡ none
    → IsWell sid (add_ctx a (sid a) tab) × IsWell sid (remove_ctx b (sid b) tab)
table-IsWell sid a b tab well fresh =
    (add-IsWell sid a tab well fresh, remove-IsWell sid b tab well)
