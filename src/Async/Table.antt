-- ===== src/Async/Table.antt =====
-- attachments/nginx/ngx_module/async/ngx_cp_async_core.c: the contexts by session, in 2048 chains, and
-- the counter of chunks that wait for a verdict.
-- A chain is the list of its contexts' addresses. This is faithful while no context is added twice,
-- which would tie its chain into a circle; `sid` is the session of the context at an address.
pub mod Laws
use openappsec_attachment.Common.{
  ℕ, ◌+◌, ◌-◌, ◌*◌, ◌%◌, Bool, true, false, ◌&&◌, not, Option, none, some, List, [], ◌∷◌, ltb, leb,
  ◌==◌, u32, u64, if◌then◌else◌,
}

abbrev pub ctx_buckets_length : ℕ
ctx_buckets_length = 2048

pub record Table : Type 0 where
  pub buckets : ℕ → List ℕ
  pub context_count : ℕ

abbrev pub set_chain : (ℕ → List ℕ) → ℕ → List ℕ → ℕ → List ℕ
set_chain b i l j = if j == i then l else b j

-- `cp_async_ctx_hash`
unfoldable pub ctx_hash : ℕ → ℕ
ctx_hash session_id = u32 (session_id * 2654435761) % ctx_buckets_length

unfoldable pub find_in_chain : (ℕ → ℕ) → ℕ → List ℕ → Option ℕ
find_in_chain sid session_id [] = none
find_in_chain sid session_id (a ∷ chain) =
    if sid a == session_id then some a else find_in_chain sid session_id chain

unfoldable pub find_ctx : (ℕ → ℕ) → ℕ → Table → Option ℕ
unfolding find_in_chain ctx_hash
find_ctx sid session_id t = find_in_chain sid session_id (t.buckets (ctx_hash session_id))

unfoldable pub add_ctx : ℕ → ℕ → Table → Table
unfolding ctx_hash
add_ctx a session_id t = record {
  buckets = set_chain t.buckets (ctx_hash session_id) (a ∷ t.buckets (ctx_hash session_id));
  context_count = u64 (t.context_count + 1);
}

-- The chain without the first link to the context, if there is one.
unfoldable pub unlink_ctx : ℕ → List ℕ → Option (List ℕ)
unlink_ctx a [] = none
unlink_ctx a (b ∷ bs) =
    let rest = unlink_ctx a bs in
    if b == a then some bs else elim rest [ none ↦ none | some bs' ↦ some (b ∷ bs') ]

unfoldable pub remove_ctx : ℕ → ℕ → Table → Table
unfolding ctx_hash unlink_ctx
remove_ctx a session_id t = elim (unlink_ctx a (t.buckets (ctx_hash session_id))) [
  | none ↦ t
  | some chain ↦ record {
    buckets = set_chain t.buckets (ctx_hash session_id) chain;
    context_count = u64 (t.context_count + 18446744073709551615);
  }
]

-- The chunks that wait for a verdict, and the event that drains them.
pub record Pending : Type 0 where
  pub chunks : ℕ
  pub drain_initialized : Bool
  pub drain_posted : Bool

-- The last argument tells whether `nano_service_ipc` is set.
unfoldable pub increment_pending_chunks : ℕ → Bool → Pending → Pending
increment_pending_chunks threshold connected p =
    let chunks = u64 (p.chunks + 1) in
    record p {
      chunks = chunks;
      drain_posted =
          if leb threshold chunks && p.drain_initialized && not p.drain_posted && connected
          then true
          else p.drain_posted;
    }

unfoldable pub decrement_pending_chunks : Pending → Pending
decrement_pending_chunks p = if ltb 0 p.chunks then record p { chunks = p.chunks - 1 } else p

unfoldable pub reset_pending_chunks : Pending → Pending
reset_pending_chunks p = record p {
  chunks = 0;
  drain_posted = if ltb 0 p.chunks && p.drain_initialized then false else p.drain_posted;
}
