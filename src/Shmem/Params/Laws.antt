-- ===== src/Shmem/Params/Laws.antt =====
-- core/shmem_ipc/shared_ring_queue.c: the table of open queues against a map from names.
use openappsec_attachment.Common.{
  ℕ, zero, suc, ◌≤◌, ◌≡◌, refl, ap, ℤ, inl, inr, ◌≢◌, true, false, Option, none, some, List, [],
  ◌∷◌, arith, length, take, str_eq, str_eq_refl, str_eq→eq, Bool-cases, if◌then◌else◌,
}
use openappsec_attachment.Shmem.Params.{
  QueueParams, ParamsTable, find_slot, update_slot, take_free_slot, add_queue_params,
  remove_queue_params, get_queue_params, initialize_queue_params, stored_name, cleared_slot,
  is_slot_of, renew,
}

-- A name that fits is stored as it is.
pub stored_name-short : (name : List ℕ) → length name ≤ 63 → stored_name name ≡ name
stored_name-short name h = take-all 63 name h
  where
    take-all : (n : ℕ) (xs : List ℕ) → length xs ≤ n → take n xs ≡ xs
    take-all zero [] l = refl
    take-all zero (x ∷ xs) l = absurd (omega arith)
    take-all (suc n) [] l = refl
    take-all (suc n) (x ∷ xs) l = ap (λ ys. x ∷ ys) (take-all n xs (omega arith))

-- The entry that `add_queue_params` writes.
abbrev pub new_slot : List ℕ → ℕ → ℤ → ℤ → QueueParams
new_slot name n size fd = record {
  location_name = name;
  num_of_data_segments = n;
  memory_size = size;
  fd = fd;
  in_use = true;
}

-- All entries taken, none by `name`.
abbrev pub IsFull : List QueueParams → Type 0
IsFull [] = Unit
IsFull (s ∷ ss) = (s.in_use ≡ true) × IsFull ss

-- A lookup where the table may have been too full to change.
abbrev found_in : List ℕ → Option (List QueueParams) → Option QueueParams
found_in name none = none
found_in name (some ss) = find_slot name ss

-- Another name's lookup, where the entry that changes answers to no other name.
module _ (name other : List ℕ) (ne : other ≢ name) where
  apart : (s : QueueParams) → is_slot_of name s ≡ true → is_slot_of other s ≡ false
  apart s h = ground (arith, str_eq→eq s.location_name name, str_eq→eq s.location_name other)

  str_eq-ne : str_eq name other ≡ false
  str_eq-ne = ground (arith, str_eq→eq name other)

module _ (name : List ℕ) (n : ℕ) (size fd : ℤ) (short : length name ≤ 63) where
  take_free_slot-find :
      (ss : List QueueParams)
      → find_slot name ss ≡ none
      → take_free_slot name n size fd ss ≢ none
      → found_in name (take_free_slot name n size fd ss) ≡ some (new_slot name n size fd)
  unfolding find_slot take_free_slot
  take_free_slot-find [] h e = ground arith
  take_free_slot-find (s ∷ ss) h e =
      ground (arith, stored_name-short name short, str_eq_refl name, take_free_slot-find ss)

  renew-find :
      (ss : List QueueParams)
      → find_slot name ss ≢ none
      → find_slot name (update_slot (renew n size fd) name ss) ≡ some (new_slot name n size fd)
  unfolding find_slot update_slot
  renew-find [] h = ground arith
  renew-find (s ∷ ss) h = ground (arith, renew-find ss, str_eq→eq s.location_name name)

  take_free_slot-other :
      (other : List ℕ)
      → other ≢ name
      → (ss : List QueueParams) → take_free_slot name n size fd ss ≢ none
      → found_in other (take_free_slot name n size fd ss) ≡ find_slot other ss
  unfolding find_slot take_free_slot
  take_free_slot-other other ne [] h = ground arith
  take_free_slot-other other ne (s ∷ ss) h = ground (
    arith,
    stored_name-short name short,
    str_eq-ne name other ne,
    take_free_slot-other other ne ss,
  )

update_slot-other :
    (f : QueueParams → QueueParams) (name other : List ℕ)
    → other ≢ name
    → ((s : QueueParams) → is_slot_of name s ≡ true → is_slot_of other (f s) ≡ false)
    → (ss : List QueueParams) → find_slot other (update_slot f name ss) ≡ find_slot other ss
unfolding find_slot update_slot
update_slot-other f name other ne keep [] = refl
update_slot-other f name other ne keep (s ∷ ss) =
    ground (arith, keep s, update_slot-other f name other ne keep ss, apart name other ne s)

initialize_true : (t : ParamsTable) → (initialize_queue_params t).initialized ≡ true
unfolding initialize_queue_params
initialize_true t = ground arith

initialize_again : (t : ParamsTable) → t.initialized ≡ true → initialize_queue_params t ≡ t
unfolding initialize_queue_params
initialize_again t h = rw h

differs : (a b : List ℕ) → str_eq a b ≡ false → a ≢ b
differs a b h e = cc (ap (str_eq a) e, str_eq_refl a, h)

module _ (name : List ℕ) (n : ℕ) (size fd : ℤ) (t : ParamsTable) where
  abbrev pub before : List QueueParams
  before = (initialize_queue_params t).slots

  abbrev pub after : ParamsTable
  after = (add_queue_params name n size fd t).1

  pub after_initialized : after.initialized ≡ true
  unfolding add_queue_params
  after_initialized = ground (arith, initialize_true t)

  module _ (short : length name ≤ 63) (added : (add_queue_params name n size fd t).0 ≡ true) where
    pub after_found : find_slot name after.slots ≡ some (new_slot name n size fd)
    unfolding add_queue_params
    after_found = ground (
      arith,
      renew-find name n size fd short before,
      take_free_slot-find name n size fd short before,
    )

    after_other :
        (other : List ℕ) → other ≢ name → find_slot other after.slots ≡ find_slot other before
    unfolding add_queue_params
    after_other other ne = ground (
      arith,
      take_free_slot-other name n size fd short other ne before,
      update_slot-other (renew n size fd) name other ne (apart name other ne) before,
    )

    -- After a name of at most 63 characters was added with success, that name is found with what
    -- was given, and any other name as before.
    pub add-get :
        (other : List ℕ)
        → (get_queue_params other after).0 ≡ (
            if str_eq other name
            then some (new_slot name n size fd)
            else (get_queue_params other t).0)
    unfolding get_queue_params
    add-get other =
        rw (initialize_again after after_initialized) (elim (Bool-cases (str_eq other name)) [
          | inl same ↦ rw (same, str_eq→eq other name same) after_found
          | inr apart ↦ rw apart (after_other other (differs other name apart))
        ])

-- In-use entries have different names, as `add_queue_params` keeps them.
abbrev pub IsUnique : List QueueParams → Type 0
IsUnique [] = Unit
IsUnique (s ∷ ss) = (s.in_use ≡ true → find_slot s.location_name ss ≡ none) × IsUnique ss

remove-find :
    (name : List ℕ) (ss : List QueueParams)
    → IsUnique ss
    → find_slot name (update_slot (λ _. cleared_slot) name ss) ≡ none
unfolding find_slot update_slot
remove-find name [] u = refl
remove-find name (s ∷ ss) u =
    ground (arith, str_eq→eq s.location_name name, remove-find name ss u.1)

removed_again :
    (name : List ℕ) (t : ParamsTable)
    → initialize_queue_params (remove_queue_params name t) ≡ remove_queue_params name t
unfolding remove_queue_params
removed_again name t =
    initialize_again
      (record {
        slots = update_slot (λ _. cleared_slot) name (initialize_queue_params t).slots;
        initialized = (initialize_queue_params t).initialized;
      })
      (initialize_true t)

module _ (name : List ℕ) (t : ParamsTable) (u : IsUnique (initialize_queue_params t).slots) where
  -- In a table whose entries in use have different names, after a name was removed it is not found,
  -- and any other name as before.
  pub remove-get :
      (other : List ℕ)
      → (get_queue_params other (remove_queue_params name t)).0
        ≡ (if str_eq other name then none else (get_queue_params other t).0)
  unfolding get_queue_params
  remove-get other = rw (removed_again name t) (elim (Bool-cases (str_eq other name)) [
    | inl same ↦
        rw (same, str_eq→eq other name same)
          (unfold remove_queue_params in remove-find name slots u)
    | inr apart ↦ rw apart (
        unfold remove_queue_params in
        update_slot-other (λ _. cleared_slot) name other (differs other name apart) (λ s h. refl)
          slots)
  ])
    where
      slots : List QueueParams
      slots = (initialize_queue_params t).slots

abbrev AllUnique : Option (List QueueParams) → Type 0
AllUnique none = Unit
AllUnique (some ss) = IsUnique ss

-- Where no entry answers to `name`, an entry in use goes by another name.
find_none-ne :
    (name : List ℕ) (s : QueueParams) (ss : List QueueParams)
    → find_slot name (s ∷ ss) ≡ none
    → s.in_use ≡ true
    → s.location_name ≢ name
unfolding find_slot
find_none-ne name s ss h used e = ground (arith, str_eq_refl name)

module _ (name : List ℕ) (n : ℕ) (size fd : ℤ) (short : length name ≤ 63) where
  take_free_slot-IsUnique :
      (ss : List QueueParams)
      → find_slot name ss ≡ none
      → IsUnique ss
      → AllUnique (take_free_slot name n size fd ss)
  unfolding find_slot take_free_slot
  take_free_slot-IsUnique [] h u = tt
  take_free_slot-IsUnique (s ∷ ss) h u = elim (Bool-cases s.in_use) [
    | inl used ↦ ground (
      arith,
      take_free_slot-other name n size fd short s.location_name (find_none-ne name s ss h used) ss,
      take_free_slot-IsUnique ss,
    )
    | inr free ↦ ground (arith, stored_name-short name short)
  ]

update_slot-none :
    (name other : List ℕ) (n : ℕ) (size fd : ℤ) (ss : List QueueParams)
    → find_slot other ss ≡ none
    → find_slot other (update_slot (renew n size fd) name ss) ≡ none
unfolding find_slot update_slot
update_slot-none name other n size fd [] h = refl
update_slot-none name other n size fd (s ∷ ss) h =
    ground (arith, update_slot-none name other n size fd ss)

renew-IsUnique :
    (name : List ℕ) (n : ℕ) (size fd : ℤ) (ss : List QueueParams)
    → IsUnique ss
    → IsUnique (update_slot (renew n size fd) name ss)
unfolding find_slot update_slot
renew-IsUnique name n size fd [] u = tt
renew-IsUnique name n size fd (s ∷ ss) u = ground (
  arith,
  renew-IsUnique name n size fd ss u.1,
  update_slot-none name s.location_name n size fd ss,
)

add-IsUnique :
    (name : List ℕ) (n : ℕ) (size fd : ℤ) (t : ParamsTable)
    → length name ≤ 63
    → IsUnique (initialize_queue_params t).slots
    → IsUnique (add_queue_params name n size fd t).1.slots
unfolding add_queue_params
add-IsUnique name n size fd t short u =
    let slots : List QueueParams = (initialize_queue_params t).slots in
    ground (
      arith,
      take_free_slot-IsUnique name n size fd short slots,
      renew-IsUnique name n size fd slots,
    )

clear-none :
    (name other : List ℕ) (ss : List QueueParams)
    → find_slot other ss ≡ none
    → find_slot other (update_slot (λ _. cleared_slot) name ss) ≡ none
unfolding find_slot update_slot
clear-none name other [] h = refl
clear-none name other (s ∷ ss) h = ground (arith, clear-none name other ss)

clear-IsUnique :
    (name : List ℕ) (ss : List QueueParams)
    → IsUnique ss
    → IsUnique (update_slot (λ _. cleared_slot) name ss)
unfolding find_slot update_slot
clear-IsUnique name [] u = tt
clear-IsUnique name (s ∷ ss) u =
    ground (arith, clear-IsUnique name ss u.1, clear-none name s.location_name ss)

-- Both operations keep the names of the entries in use apart.
pub table-IsUnique :
    (name : List ℕ) (n : ℕ) (size fd : ℤ) (t : ParamsTable)
    → length name ≤ 63
    → IsUnique (initialize_queue_params t).slots
    → IsUnique (add_queue_params name n size fd t).1.slots
      × IsUnique (remove_queue_params name t).slots
unfolding remove_queue_params
table-IsUnique name n size fd t short u =
    (add-IsUnique name n size fd t short u, clear-IsUnique name (initialize_queue_params t).slots u)
