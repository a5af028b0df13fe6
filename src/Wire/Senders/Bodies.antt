-- ===== src/Wire/Senders/Bodies.antt =====
-- attachments/nano_attachment/nano_attachment_io.c, nano_body_sender: the pieces of a body go out one by
-- one, numbered by a byte.
use mathlib.Core.Path.{subst}
use mathlib.Core.List.{append_assoc}
use openappsec_attachment.Common.{
  ℕ, zero, suc, ◌+◌, ◌≤◌, ◌<◌, ◌≡◌, ◌⊎◌, inl, inr, refl, sym, ap, ◌∙◌, Bool, true, false, ◌||◌,
  Option, none, some, List, [], ◌∷◌, ◌++◌, arith, ltb, ◌==◌, u8, length, get_or, length-append,
  if◌then◌else◌, if_split,
}
use openappsec_attachment.Bucket.{NanoCommunicationResult, nano_ok}
use openappsec_attachment.Wire.Signal.{SignalUsageMode, is_ok}
use openappsec_attachment.Wire.Senders.{
  Chunk, body_chunk, Transfer, finish_sender, IsFinished, finish-IsFinished,
}

-- What the loop comes to: the chunks that were sent, `body_index`, and whether one was refused.
pub record BodyRun : Type 0 where
  pub chunks : List Chunk
  pub body_index : ℕ
  pub refused : Bool

abbrev prepend : Chunk → Option BodyRun → Option BodyRun
prepend c none = none
prepend c (some r) = some (record r { chunks = c ∷ r.chunks })

-- The loop with fuel for `n` tests of its condition; `k` chunks have been sent, and the answer to the
-- next one is `send k`.
unfoldable pub send_bodies :
    (send : ℕ → NanoCommunicationResult)
    → (bodies : List (List ℕ)) → (n k body_index : ℕ) → (is_final_chunk : Bool) → Option BodyRun
send_bodies send bodies zero k body_index is_final_chunk = none
send_bodies send bodies (suc n) k body_index is_final_chunk =
    let is_final = is_final_chunk || (body_index + 1 == length bodies) in
    let rest = send_bodies send bodies n (suc k) (u8 (suc body_index)) is_final in
    if ltb body_index (length bodies)
    then if is_ok (send k)
      then prepend (body_chunk is_final body_index (get_or bodies body_index [])) rest
      else some (record { chunks = []; body_index = body_index; refused = true })
    else some (record { chunks = []; body_index = body_index; refused = false })

abbrev finished :
    (is_verdict_requested : Bool) (reply : NanoCommunicationResult)
    → SignalUsageMode
    → ℕ
    → Transfer
    → Option BodyRun
    → Option Transfer
unfolding finish_sender
finished is_verdict_requested reply usage_mode session_id x none = none
finished is_verdict_requested reply usage_mode session_id x (some run) = some (
    finish_sender run.refused run.chunks run.body_index is_verdict_requested reply nano_ok
      usage_mode session_id x)

unfoldable pub nano_body_sender :
    (send : ℕ → NanoCommunicationResult)
    → (fuel : ℕ) → List (List ℕ)
    → (is_verdict_requested : Bool) → (reply : NanoCommunicationResult) → SignalUsageMode
    → ℕ
    → Transfer
    → Option Transfer
unfolding send_bodies finish_sender
nano_body_sender send fuel bodies is_verdict_requested reply usage_mode session_id x =
    finished is_verdict_requested reply usage_mode session_id x
      (send_bodies send bodies fuel 0 0 false)

-- The pieces numbered from `i` on, the last of them final.
abbrev pub numbered : ℕ → List (List ℕ) → List Chunk
numbered i [] = []
numbered i (b ∷ []) = body_chunk true i b ∷ []
numbered i (b ∷ c ∷ bs) = body_chunk false i b ∷ numbered (suc i) (c ∷ bs)

get_or-here :
    (before rest : List (List ℕ)) (b : List ℕ)
    → get_or (before ++ (b ∷ rest)) (length before) [] ≡ b
get_or-here [] rest b = refl
get_or-here (x ∷ before) rest b = get_or-here before rest b

-- One round of the loop that sends a piece.
one_sent :
    (send : ℕ → NanoCommunicationResult) (bodies : List (List ℕ)) (n k i : ℕ) (final t : Bool)
    (b : List ℕ) (r : BodyRun)
    → send k ≡ nano_ok
    → i < length bodies
    → u8 (suc i) ≡ suc i
    → get_or bodies i [] ≡ b
    → (final || (i + 1 == length bodies)) ≡ t
    → send_bodies send bodies n (suc k) (suc i) t ≡ some r
    → send_bodies send bodies (suc n) k i final
      ≡ some (record r { chunks = body_chunk t i b ∷ r.chunks })
unfolding send_bodies
one_sent send bodies n k i final t b r ok h u g f next =
    let goal : Option BodyRun = some (record r { chunks = body_chunk t i b ∷ r.chunks }) in
    let last : Bool = final || (i + 1 == length bodies) in
    let here : List ℕ = get_or bodies i [] in
    if_split (λ o. o ≡ goal) (ltb i (length bodies))
      (λ _.
        if_split (λ o. o ≡ goal) (is_ok (send k))
          (λ _.
            ap
              (λ l.
                prepend (body_chunk l i here) (send_bodies send bodies n (suc k) (u8 (suc i)) l))
              f
            ∙ ap (λ j. prepend (body_chunk t i here) (send_bodies send bodies n (suc k) j t)) u
            ∙ ap (λ d. prepend (body_chunk t i d) (send_bodies send bodies n (suc k) (suc i) t)) g
            ∙ ap (prepend (body_chunk t i b)) next)
          (λ e. absurd (ground (arith, ok))))
      (λ e. absurd (ground arith))

all_sent :
    (send : ℕ → NanoCommunicationResult) (bodies : List (List ℕ)) (n k i : ℕ) (final : Bool)
    → i ≡ length bodies
    → send_bodies send bodies (suc n) k i final
      ≡ some (record { chunks = []; body_index = length bodies; refused = false })
unfolding send_bodies
all_sent send bodies n k i final e =
    if_split (λ o. o ≡ some (record { chunks = []; body_index = length bodies; refused = false }))
      (ltb i (length bodies)) (λ f. absurd (ground arith))
      (λ _. ap (λ j. some (record { chunks = []; body_index = j; refused = false })) e)

is_final : List (List ℕ) → Bool
is_final [] = true
is_final (_ ∷ _) = false

numbered-cons :
    (i : ℕ) (b : List ℕ) (bs : List (List ℕ))
    → body_chunk (is_final bs) i b ∷ numbered (suc i) bs ≡ numbered i (b ∷ bs)
unfolding is_final
numbered-cons i b [] = refl
numbered-cons i b (c ∷ bs) = refl

final_here :
    (i l : ℕ) (final : Bool) (bs : List (List ℕ))
    → final ≡ false
    → l ≡ i + suc (length bs)
    → (final || (i + 1 == l)) ≡ is_final bs
unfolding is_final
final_here i l final [] e h = ground arith
final_here i l final (b ∷ bs) e h = ground arith

final_or : (bs : List (List ℕ)) → (is_final bs ≡ false) ⊎ (bs ≡ [])
unfolding is_final
final_or [] = inr refl
final_or (b ∷ bs) = inl refl

bodies-numbered :
    (send : ℕ → NanoCommunicationResult) (rest before : List (List ℕ)) (n k i : ℕ) (final : Bool)
    → ((j : ℕ) → send j ≡ nano_ok)
    → i ≡ length before
    → length (before ++ rest) < 256
    → length rest < n
    → ((final ≡ false) ⊎ (rest ≡ []))
    → send_bodies send (before ++ rest) n k i final
      ≡ some (record {
        chunks = numbered i rest;
        body_index = length (before ++ rest);
        refused = false;
      })
unfolding send_bodies is_final
bodies-numbered send rest before zero k i final ok e few fuel f = absurd (omega arith)
bodies-numbered send [] before (suc n) k i final ok e few fuel f =
    all_sent send (before ++ []) n k i final (omega (arith, e, length-append before []))
bodies-numbered send (b ∷ bs) before (suc n) k i final ok e few fuel f =
    let whole : before ++ (b ∷ bs) ≡ (before ++ (b ∷ [])) ++ bs =
      sym (append_assoc before (b ∷ []) bs) in
    let size : length (before ++ (b ∷ bs)) ≡ length before + suc (length bs) =
      length-append before (b ∷ bs) in
    one_sent send (before ++ (b ∷ bs)) n k i final (is_final bs) b
      (record {
        chunks = numbered (suc i) bs;
        body_index = length (before ++ (b ∷ bs));
        refused = false;
      })
      (ok k) (omega (arith, size, e)) (omega (arith, size, e, few))
      (ap (λ j. get_or (before ++ (b ∷ bs)) j []) e ∙ get_or-here before bs b)
      (final_here i (length (before ++ (b ∷ bs))) final bs (ground arith) (omega (arith, size, e)))
      (subst
        (λ l.
          send_bodies send l n (suc k) (suc i) (is_final bs)
          ≡ some (record { chunks = numbered (suc i) bs; body_index = length l; refused = false }))
        (sym whole)
        (bodies-numbered send bs (before ++ (b ∷ [])) n (suc k) (suc i) (is_final bs) ok
          (omega (arith, e, length-append before (b ∷ []))) (omega (arith, few, ap length whole))
          (omega (arith, fuel)) (final_or bs)))
    ∙ ap
        (λ c.
          some (record { chunks = c; body_index = length (before ++ (b ∷ bs)); refused = false }))
        (numbered-cons i b bs)

-- More than 255 pieces: whatever the fuel, the loop has not ended.
bodies-endless :
    (send : ℕ → NanoCommunicationResult) (bodies : List (List ℕ)) (n k i : ℕ) (final : Bool)
    → ((j : ℕ) → send j ≡ nano_ok)
    → 256 ≤ length bodies
    → i < 256
    → send_bodies send bodies n k i final ≡ none
unfolding send_bodies
bodies-endless send bodies zero k i final ok many h = refl
bodies-endless send bodies (suc n) k i final ok many h =
    let next =
      bodies-endless send bodies n (suc k) (u8 (suc i)) (final || (i + 1 == length bodies)) ok many
        (omega arith) in
    if_split (λ t. t ≡ none) (ltb i (length bodies))
      (λ _.
        if_split (λ t. t ≡ none) (is_ok (send k))
          (λ _.
            ap (prepend (body_chunk (final || (i + 1 == length bodies)) i (get_or bodies i [])))
              next)
          (λ f. absurd (ground (arith, ok k))))
      (λ f. absurd (ground arith))

-- Given more than 255 pieces that the service takes, the body sender does not end: its byte-wide index
-- never reaches their number.
pub many_bodies_endless :
    (send : ℕ → NanoCommunicationResult) (bodies : List (List ℕ)) (fuel : ℕ) (v : Bool)
    (reply : NanoCommunicationResult) (mode : SignalUsageMode) (id : ℕ) (x : Transfer)
    → ((j : ℕ) → send j ≡ nano_ok)
    → 256 ≤ length bodies
    → nano_body_sender send fuel bodies v reply mode id x ≡ none
unfolding nano_body_sender
many_bodies_endless send bodies fuel v reply mode id x ok many =
    ap (finished v reply mode id x)
      (bodies-endless send bodies fuel 0 0 false ok many (omega arith))

-- At most 255 pieces that the service takes: the body sender ends, has sent each piece once, in order and
-- numbered, the last of them as final, and has counted them in the synchronous mode.
pub body_sender_ends :
    (send : ℕ → NanoCommunicationResult) (bodies : List (List ℕ)) (v : Bool)
    (reply : NanoCommunicationResult) (mode : SignalUsageMode) (id : ℕ) (x : Transfer)
    → ((j : ℕ) → send j ≡ nano_ok)
    → length bodies < 256
    → (y : Transfer) × nano_body_sender send (suc (length bodies)) bodies v reply mode id x ≡ some y
      × IsFinished false (numbered 0 bodies) (length bodies) v reply nano_ok mode x y
unfolding nano_body_sender
body_sender_ends send bodies v reply mode id x ok few = (
  finish_sender false (numbered 0 bodies) (length bodies) v reply nano_ok mode id x,
  ap (finished v reply mode id x) (
      bodies-numbered send bodies [] (suc (length bodies)) 0 0 false ok refl few (omega arith)
        (inl refl)),
  finish-IsFinished false (numbered 0 bodies) (length bodies) v reply nano_ok mode id x,
)
