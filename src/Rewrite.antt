-- ===== src/Rewrite.antt =====
-- attachments/nginx/ngx_module/ngx_cp_custom_response.c, ngx_http_cp_body_modifier: what the service
-- injects is written into the chunks of a body.
-- A buffer is its bytes. A list of modifications is that of its nodes, and `next` is what follows. The
-- pool's answers are a parameter: that to the request of chunk `c` and modification `i` is `palloc c i`.
pub mod Sorting
pub mod Iterator
pub mod Weave
pub mod Chunks
use openappsec_attachment.Common.{
  ℕ, zero, suc, Bool, true, false, ◌&&◌, List, [], ◌∷◌, ◌++◌, if◌then◌else◌, ltb, ◌==◌, length,
  take, drop, ℤ, pos, negsuc, ltb_ℤ,
}

-- A node; `modification_buffer` holds `injection_size` bytes, and `node` is the address.
pub record Modification : Type 0 where
  pub node : ℕ
  pub injection_pos : ℤ
  pub orig_buff_index : ℕ
  pub modification_buffer : List ℕ

-- The modifications at the head of the list that are for chunk `c`, at most `n`, and the rest.
unfoldable pub collect : ℕ → ℕ → List Modification → List Modification × List Modification
collect zero c l = ([], l)
collect (suc n) c [] = ([], [])
collect (suc n) c (m ∷ l) =
    let (mine, rest) = collect n c l in
    if m.orig_buff_index == c then (m ∷ mine, rest) else ([], m ∷ l)

-- `k` steps of the inner loop.
unfoldable pub bubble : ℕ → List Modification → List Modification
bubble (suc k) (a ∷ b ∷ l) =
    if ltb_ℤ a.injection_pos b.injection_pos then b ∷ bubble k (a ∷ l) else a ∷ bubble k (b ∷ l)
bubble _ l = l

-- The outer loop, whose rounds take one step less each.
unfoldable pub sort_rounds : ℕ → List Modification → List Modification
unfolding bubble
sort_rounds zero l = l
sort_rounds (suc k) l = sort_rounds k (bubble (suc k) l)

unfoldable pub sort_modifications : List Modification → List Modification
unfolding sort_rounds
sort_modifications [] = []
sort_modifications (m ∷ l) = sort_rounds (length l) (m ∷ l)

-- The three calls of `ngx_memcpy`.
unfoldable pub splice : ℕ → List ℕ → List ℕ → List ℕ
splice p data_bytes buffer = take p buffer ++ (data_bytes ++ drop p buffer)

-- One modification; a negative position is converted to a `size_t` above any size.
unfoldable pub apply_modification : Bool → ℤ → List ℕ → List ℕ → List ℕ
unfolding splice
apply_modification room (pos p) modification_buffer buffer =
    if ltb (length buffer) p
    then buffer
    else if room
    then splice p modification_buffer buffer
    else buffer
apply_modification room (negsuc p) modification_buffer buffer = buffer

-- The loop over the sorted modifications, from the one at index `i`.
unfoldable pub apply_modifications : (ℕ → Bool) → ℕ → List Modification → List ℕ → List ℕ
unfolding apply_modification
apply_modifications room i [] buffer = buffer
apply_modifications room i (m ∷ ms) buffer =
    apply_modifications room (suc i) ms
      (apply_modification (room i) m.injection_pos m.modification_buffer buffer)

-- `curr_modification`: the nodes that are left, or a node of the chunk's own that was passed to
-- `ngx_pfree`, whether or not the pool then gives its memory back.
pub data Current : Type 0 where
  left : List Modification → Current
  stale : Current

abbrev pub last_node : List Modification → ℕ → ℕ
last_node [] d = d
last_node (m ∷ l) d = last_node l m.node

-- The loop that passes the nodes to `ngx_pfree`: `next` of the last of the sorted nodes is `rest` when that node was the last of
-- those collected, and else another node of theirs.
unfoldable pub release : List Modification → List Modification → List Modification → Current
release sorted collected rest =
    if last_node sorted 0 == last_node collected 0 then left rest else stale

-- What a call comes to: the buffers of the body after NGX_OK or NGX_ERROR, or that the
-- loop goes on at a stale node; what it finds there depends on the pool.
pub data Rewritten : Type 0 where
  rewritten : List (List ℕ) → Rewritten
  no_memory : List (List ℕ) → Rewritten
  stale_node : Rewritten

unfoldable pub after_chunk : List ℕ → Rewritten → Rewritten
after_chunk buffer (rewritten l) = rewritten (buffer ∷ l)
after_chunk buffer (no_memory l) = no_memory (buffer ∷ l)
after_chunk buffer stale_node = stale_node

abbrev pub max_modifications_per_chunk : ℕ
max_modifications_per_chunk = 64

-- What comes of one chunk with bytes.
pub data Chunk : Type 0 where
  untouched : Chunk
  no_room : Chunk
  changed : List ℕ → Current → Chunk

-- The body of the loop, for the modifications that were collected and those that follow them.
unfoldable pub modify_chunk : (ℕ → Bool) → List ℕ → List Modification × List Modification → Chunk
unfolding sort_modifications apply_modifications release
modify_chunk room chunk ([], rest) = untouched
modify_chunk room chunk (m ∷ ms, rest) =
    let sorted = sort_modifications (m ∷ ms) in
    if room 0
    then changed (apply_modifications room 0 sorted chunk) (release sorted (m ∷ ms) rest)
    else no_room

-- The loop over the chain, from chunk `c`.
unfoldable pub modify_chunks : (ℕ → ℕ → Bool) → ℕ → List (List ℕ) → Current → Rewritten
unfolding after_chunk collect modify_chunk
modify_chunks palloc c [] curr = rewritten []
modify_chunks palloc c (chunk ∷ chain) (left []) = rewritten (chunk ∷ chain)
modify_chunks palloc c ([] ∷ chain) curr = after_chunk [] (modify_chunks palloc (suc c) chain curr)
modify_chunks palloc c ((x ∷ xs) ∷ chain) stale = stale_node
modify_chunks palloc c ((x ∷ xs) ∷ chain) (left (m ∷ ms)) =
    elim (modify_chunk (palloc c) (x ∷ xs) (collect max_modifications_per_chunk c (m ∷ ms))) [
      | untouched ↦ after_chunk (x ∷ xs) (modify_chunks palloc (suc c) chain (left (m ∷ ms)))
      | no_room ↦ no_memory ((x ∷ xs) ∷ chain)
      | changed buffer curr ↦ after_chunk buffer (modify_chunks palloc (suc c) chain curr)
    ]

unfoldable pub body_modifier : (ℕ → ℕ → Bool) → List (List ℕ) → List Modification → Rewritten
unfolding modify_chunks
body_modifier palloc chain modifications = modify_chunks palloc 0 chain (left modifications)
