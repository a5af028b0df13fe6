-- ===== src/Bucket/Queue.antt =====
-- attachments/nano_attachment/nano_attachment_bucket.c: the queue of failed sessions against a list.
use mathlib.Core.Path.{ap₂}
use native.Mathlib.Decide.{dec_lt}
use openappsec_attachment.Common.{
  ℕ, zero, suc, ◌+◌, ◌-◌, ◌%◌, ◌≤◌, ◌<◌, ◌≡◌, refl, List, [], ◌∷◌, ◌++◌, length, arith, ap, Memory,
  store, true, ◌⊎◌, inl, inr, ◌↔◌,
}
use openappsec_attachment.Bucket.{
  SessionIdQueue, NanoCommunicationResult, nano_ok, nano_error, failed_is_empty, failed_add,
  failed_pop,
}

-- The `n` sessions from index `h` on, going round at 1024.
abbrev pub window : Memory → ℕ → ℕ → List ℕ
window m h zero = []
window m h (suc n) = m h ∷ window m ((h + 1) % 1024) n

pub record IsValid (q : SessionIdQueue) : Type 0 where
  pub head_in : q.head < 1024
  pub tail_at : q.tail ≡ (q.head + q.count) % 1024
  pub count_in : q.count ≤ 1024

abbrev pub sessions : SessionIdQueue → List ℕ
sessions q = window q.queue q.head q.count

pub length-window : (m : Memory) (h n : ℕ) → length (window m h n) ≡ n
length-window m h zero = refl
length-window m h (suc n) = ap suc (length-window m ((h + 1) % 1024) n)

-- A write just behind a window that leaves room adds to it.
window-store :
    (m : Memory) (x n h i : ℕ)
    → h < 1024
    → n < 1024
    → i ≡ (h + n) % 1024
    → window (store m i x) h (suc n) ≡ window m h n ++ x ∷ []
window-store m x zero h i a b e = ap (λ y. y ∷ []) (ground arith)
window-store m x (suc n) h i a b e =
    ap₂ ◌∷◌ (ground arith)
      (window-store m x n ((h + 1) % 1024) i (omega arith) (omega arith) (omega arith))

window-pos : (m : Memory) (h n : ℕ) → 0 < n → window m h n ≡ m h ∷ window m ((h + 1) % 1024) (n - 1)
window-pos m h zero p = absurd (omega arith)
window-pos m h (suc n) p = ap (λ k. m h ∷ window m ((h + 1) % 1024) k) (omega arith)

-- What an addition answers: the session behind the others, or an error from a full queue.
abbrev pub Added : SessionIdQueue → ℕ → NanoCommunicationResult × SessionIdQueue → Type 0
Added q s out =
    ((q.count < 1024) × (out.0 ≡ nano_ok) × IsValid out.1 × (sessions out.1 ≡ sessions q ++ s ∷ []))
    ⊎ ((q.count ≡ 1024) × (out ≡ (nano_error, q)))

-- What a pop answers: the first session, or 0 from an empty queue.
abbrev pub Popped : SessionIdQueue → ℕ × SessionIdQueue → Type 0
Popped q out =
    (IsValid out.1 × (sessions q ≡ out.0 ∷ sessions out.1)) ⊎ ((sessions q ≡ []) × (out ≡ (0, q)))

add_room :
    (q : SessionIdQueue) (s : ℕ)
    → IsValid q
    → q.count < 1024
    → ((failed_add q s).0 ≡ nano_ok)
      × IsValid (failed_add q s).1
      × (sessions (failed_add q s).1 ≡ sessions q ++ s ∷ [])
unfolding failed_add
add_room q s v room =
    (ground arith, ground arith, ground (arith, window-store q.queue s q.count q.head q.tail))

-- In a valid queue: with fewer than 1024 sessions an addition succeeds, the queue stays valid and
-- has the session behind the others; with 1024 it is an error and changes nothing.
pub failed_add_refines : (q : SessionIdQueue) (s : ℕ) → IsValid q → Added q s (failed_add q s)
failed_add_refines q s v = elim (dec_lt q.count 1024) [
  | yes room ↦ let (a, b, c) = add_room q s v room in inl (room, a, b, c)
  | no full ↦ inr (omega arith, unfold failed_add in ground arith)
]

pop_some :
    (q : SessionIdQueue)
    → IsValid q
    → 0 < q.count
    → IsValid (failed_pop q).1 × (sessions q ≡ (failed_pop q).0 ∷ sessions (failed_pop q).1)
unfolding failed_pop
pop_some q v some = (ground arith, ground (arith, window-pos q.queue q.head q.count some))

-- In a valid queue: a pop answers the first session, the queue stays valid and has the others; with
-- no session it answers 0 and changes nothing.
pub failed_pop_refines : (q : SessionIdQueue) → IsValid q → Popped q (failed_pop q)
failed_pop_refines q v = elim (dec_lt 0 q.count) [
  | yes some ↦ inl (pop_some q v some)
  | no none ↦
      inr (ap (window q.queue q.head) {y = 0} (omega arith), unfold failed_pop in ground arith)
]

-- In a valid queue: a pop answers the first session, the queue stays valid and has the others; with
-- no session it answers 0 and changes nothing. With fewer than 1024 sessions an addition succeeds, the
-- queue stays valid and has the session behind the others; with 1024 it is an error and changes
-- nothing.
pub failed_queue_refines :
    (q : SessionIdQueue) (s : ℕ) → IsValid q → Popped q (failed_pop q) × Added q s (failed_add q s)
failed_queue_refines q s v = (failed_pop_refines q v, failed_add_refines q s v)

-- The queue is reported empty exactly when it has no sessions.
pub failed_is_empty_iff : (q : SessionIdQueue) → (failed_is_empty q ≡ true) ↔ (sessions q ≡ [])
unfolding failed_is_empty
failed_is_empty_iff q = (
  λ h. ap (window q.queue q.head) {x = q.count} {y = 0} (ground arith),
  λ h. ground (arith, ap length h, length-window q.queue q.head q.count),
)
