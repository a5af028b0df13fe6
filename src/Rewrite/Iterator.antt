-- ===== src/Rewrite/Iterator.antt =====
-- attachments/nginx/ngx_module/ngx_cp_utils.c, init_list_iterator and get_list_element: how the header to
-- change is found in an NGINX list, which is a chain of arrays.
-- The pointers are never NULL here. An iterator is reset by `init_list_iterator` alone.
use openappsec_attachment.Common.{
  ℕ, zero, suc, ◌+◌, ◌-◌, ◌≤◌, ◌<◌, ◌≡◌, refl, ap, Bool, true, false, ◌&&◌, List, [], ◌∷◌, arith,
  ltb, leb, length, if◌then◌else◌, if_split,
}

-- `ngx_http_cp_list_iterator`: the current part, the parts behind it, and the two indices.
pub record ListIterator {ℓ} (A : Type ℓ) : Type ℓ where
  pub current_part : List A
  pub next_parts : List (List A)
  pub current_part_element_index : ℕ
  pub current_list_element_index : ℕ

-- What the pointer that is returned points to.
pub data Element {ℓ} (A : Type ℓ) : Type ℓ where
  element : A → Element A
  past_end : Element A
  null : Element A

abbrev pub is_nil {ℓ} : {A : Type ℓ} → List A → Bool
is_nil [] = true
is_nil (_ ∷ _) = false

module _ {ℓ} {A : Type ℓ} where
  unfoldable pub init_list_iterator : (part : List A) (parts : List (List A)) → ListIterator A
  init_list_iterator part parts = record {
    current_part = part;
    next_parts = parts;
    current_part_element_index = 0;
    current_list_element_index = 0;
  }

  -- The loop, `n` rounds from its end.
  unfoldable pub go_forward : (n : ℕ) → ListIterator A → ListIterator A
  go_forward zero it = it
  go_forward (suc n) it =
      let here = go_forward n (record it {
        current_part_element_index = suc it.current_part_element_index;
        current_list_element_index = suc it.current_list_element_index;
      }) in
      if leb (length it.current_part) it.current_part_element_index
      then elim it.next_parts [
        | [] ↦ it
        | p ∷ ps ↦ go_forward n (record {
          current_part = p;
          next_parts = ps;
          current_part_element_index = 1;
          current_list_element_index = suc it.current_list_element_index;
        })
      ]
      else here

  unfoldable pub element_at : List A → ℕ → Element A
  element_at [] i = past_end
  element_at (x ∷ xs) zero = element x
  element_at (x ∷ xs) (suc i) = element_at xs i

  unfoldable pub get_list_element : ListIterator A → (index : ℕ) → Element A × ListIterator A
  unfolding go_forward element_at
  get_list_element it index =
      let it' = go_forward (index - it.current_list_element_index) it in
      (
        if is_nil it'.next_parts && ltb it'.current_list_element_index index
            then null
            else element_at it'.current_part it'.current_part_element_index,
        it',
      )

  -- The elements of the parts in their order, except that the index of the first one of a later part
  -- points past the end of the part before it.
  unfoldable pub locate : (part : List A) (parts : List (List A)) (index : ℕ) → Element A
  unfolding element_at
  locate part [] index = if leb index (length part) then element_at part index else null
  locate part (p ∷ ps) index =
      let later = locate p ps (index - length part) in
      if leb index (length part) then element_at part index else later

  abbrev pub AreFilled : List (List A) → Type 0
  AreFilled [] = Unit
  AreFilled (p ∷ ps) = 0 < length p × AreFilled ps

  -- What the end of `get_list_element` makes of an iterator.
  found : ListIterator A → ℕ → Element A
  unfolding element_at
  found it index =
      if is_nil it.next_parts && ltb it.current_list_element_index index
      then null
      else element_at it.current_part it.current_part_element_index

  forward-locate :
      (n i j t u : ℕ) (part : List A) (parts : List (List A))
      → t ≡ j + n
      → u ≡ i + n
      → AreFilled parts
      → i ≤ length part
      → found
          (go_forward n (record {
            current_part = part;
            next_parts = parts;
            current_part_element_index = i;
            current_list_element_index = j;
          }))
          t
        ≡ locate part parts u
  unfolding go_forward found locate
  forward-locate zero i j t u part [] e d f h =
      if_split (λ r. r ≡ locate part [] u) (ltb j t) (λ k. absurd (ground (arith, e, k)))
        (λ _.
          if_split (λ r. element_at part i ≡ r) (leb u (length part))
            (λ _. ap (element_at part) (omega (arith, d))) (λ k. absurd (ground (arith, d, k, h))))
  forward-locate zero i j t u part (p ∷ ps) e d f h =
      if_split (λ r. element_at part i ≡ r) (leb u (length part))
        (λ _. ap (element_at part) (omega (arith, d))) (λ k. absurd (ground (arith, d, k, h)))
  forward-locate (suc n) i j t u part [] e d f h =
      if_split (λ it. found it t ≡ locate part [] u) (leb (length part) i)
        (λ k.
          if_split (λ r. r ≡ locate part [] u) (ltb j t)
            (λ _.
              if_split (λ (r : Element A). null ≡ r) (leb u (length part))
                (λ w. absurd (ground (arith, d, k, w))) (λ _. refl))
            (λ w. absurd (ground (arith, e, w))))
        (λ k.
          forward-locate n (suc i) (suc j) t u part [] (omega (arith, e)) (omega (arith, d)) f
            (ground (arith, k)))
  forward-locate (suc n) i j t u part (p ∷ ps) e d (q, f) h =
      if_split (λ it. found it t ≡ locate part (p ∷ ps) u) (leb (length part) i)
        (λ k.
          if_split
            (λ r.
              found
                (go_forward n (record {
                  current_part = p;
                  next_parts = ps;
                  current_part_element_index = 1;
                  current_list_element_index = suc j;
                }))
                t
              ≡ r)
            (leb u (length part)) (λ w. absurd (ground (arith, d, k, w)))
            (λ _.
              forward-locate n 1 (suc j) t (u - length part) p ps (omega (arith, e))
                (ground (arith, d, k, h)) f (omega (arith, q))))
        (λ k.
          forward-locate n (suc i) (suc j) t u part (p ∷ ps) (omega (arith, e)) (omega (arith, d))
            (q, f) (ground (arith, k)))

  -- In a list whose later parts have elements, a new iterator finds the element of an index that counts
  -- through the parts, except that the first element of a later part is missed for the end of the one
  -- before it, and so is the end of the list.
  pub get_locates :
      (part : List A) (parts : List (List A)) (index : ℕ)
      → AreFilled parts
      → (get_list_element (init_list_iterator part parts) index).0 ≡ locate part parts index
  unfolding get_list_element init_list_iterator found
  get_locates part parts index f =
      forward-locate (index - 0) 0 0 index index part parts (omega arith) (omega arith) f
        (omega arith)
