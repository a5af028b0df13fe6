-- ===== src/Common/Arrays.antt =====
-- Arrays and raw memory. A C array of fixed address range is a function from index to value.
use Prim.Native.Nat.{ℕ, zero, suc, ◌+◌, ◌≤◌, ◌<◌}
use mathlib.Core.Path.{◌≡◌, refl, ap, ap₂, ◌∙◌}
use mathlib.Core.Logic.{◌⊎◌, inl}
use mathlib.Core.List.{List, [], ◌∷◌, ◌++◌}
use native.Mathlib.Omega.{arith}
use openappsec_attachment.Common.Tests.{◌==◌, if◌then◌else◌}

module _ {ℓ} {A : Type ℓ} where
  abbrev pub length : List A → ℕ
  length [] = 0
  length (_ ∷ xs) = suc (length xs)

  abbrev pub take : ℕ → List A → List A
  take zero _ = []
  take (suc n) [] = []
  take (suc n) (x ∷ xs) = x ∷ take n xs

  abbrev pub drop : ℕ → List A → List A
  drop (suc n) (_ ∷ xs) = drop n xs
  drop _ xs = xs

  abbrev pub get_or : List A → ℕ → A → A
  get_or [] _ d = d
  get_or (x ∷ _) zero _ = x
  get_or (_ ∷ xs) (suc i) d = get_or xs i d

  pub length-append : (xs ys : List A) → length (xs ++ ys) ≡ length xs + length ys
  length-append [] ys = omega arith
  length-append (x ∷ xs) ys = omega (arith, length-append xs ys)

abbrev pub Memory : Type 0
Memory = ℕ → ℕ

-- `m[i] = v`.
abbrev pub store : Memory → ℕ → ℕ → Memory
store m i v j = if j == i then v else m j

-- `for (k = 0; k < n; k++) m[i + k] = v;`
unfoldable pub fill : Memory → ℕ → ℕ → ℕ → Memory
fill m i zero v = m
fill m i (suc n) v = fill (store m i v) (suc i) n v

-- `memcpy(m + i, bytes, length bytes)`.
unfoldable pub copy : Memory → ℕ → List ℕ → Memory
copy m i [] = m
copy m i (b ∷ bs) = copy (store m i b) (suc i) bs

-- The `n` bytes from index `i`.
unfoldable pub read : Memory → ℕ → ℕ → List ℕ
read m i zero = []
read m i (suc n) = m i ∷ read m (suc i) n

pub fill_out : (m : Memory) (i n v j : ℕ) → (j < i) ⊎ (i + n ≤ j) → fill m i n v j ≡ m j
unfolding fill
fill_out m i zero v j h = refl
fill_out m i (suc n) v j h = ground (arith, fill_out (store m i v) (suc i) n v j)

pub fill_in : (m : Memory) (i n v j : ℕ) → i ≤ j → j < i + n → fill m i n v j ≡ v
unfolding fill
fill_in m i zero v j h k = absurd (omega arith)
fill_in m i (suc n) v j h k =
    ground (arith, fill_in (store m i v) (suc i) n v j, fill_out (store m i v) (suc i) n v j)

pub copy_out :
    (m : Memory) (i : ℕ) (bs : List ℕ) (j : ℕ) → (j < i) ⊎ (i + length bs ≤ j) → copy m i bs j ≡ m j
unfolding copy
copy_out m i [] j h = refl
copy_out m i (b ∷ bs) j h = ground (arith, copy_out (store m i b) (suc i) bs j)

-- Equal memories on a range read alike.
pub read_agree :
    (m m' : Memory) (i n : ℕ)
    → ((j : ℕ) → i ≤ j → j < i + n → m j ≡ m' j)
    → read m i n ≡ read m' i n
unfolding read
read_agree m m' i zero h = refl
read_agree m m' i (suc n) h =
    ap₂ ◌∷◌ (h i (omega arith) (omega arith))
      (read_agree m m' (suc i) n (λ j p q. h j (omega arith) (omega arith)))

pub read-copy : (m : Memory) (i : ℕ) (bs : List ℕ) → read (copy m i bs) i (length bs) ≡ bs
unfolding read copy
read-copy m i [] = refl
read-copy m i (b ∷ bs) =
    ap₂ ◌∷◌ (copy_out (store m i b) (suc i) bs i (inl (omega arith)) ∙ ground arith)
      (read-copy (store m i b) (suc i) bs)

pub copy-append :
    (m : Memory) (i : ℕ) (xs ys : List ℕ)
    → copy (copy m i xs) (i + length xs) ys ≡ copy m i (xs ++ ys)
unfolding copy
copy-append m i [] ys = ap (λ k. copy m k ys) (omega arith)
copy-append m i (x ∷ xs) ys =
    ap (λ k. copy (copy (store m i x) (suc i) xs) k ys) (omega arith)
    ∙ copy-append (store m i x) (suc i) xs ys
