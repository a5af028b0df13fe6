-- ===== src/Metric/Laws.antt =====
-- attachments/nano_attachment/nano_attachment_metric.c: a metric against the values that it was fed.
use native.Mathlib.Nat.{div-mul-le_self}
use native.Mathlib.Decide.{ℕ_discrete}
use openappsec_attachment.Common.{
  ℕ, ◌+◌, ◌*◌, ◌/◌, ◌≤◌, ◌<◌, ◌≡◌, ◌≢◌, refl, ◌∙◌, List, [], ◌∷◌, arith, length, u64, ltb, ◌==◌,
  if◌then◌else◌, ap, ◌⊎◌, inl, inr, Bool-cases,
}
use openappsec_attachment.Metric.{
  Metrics, Kind, average, maximum, minimum, counter, update_field, feed, metric_types_count,
  MetricType, index,
}

-- The enumerators number the arrays' entries.
pub index-lt : (t : MetricType) → index t < metric_types_count
unfolding index
index-lt t = ground arith

-- An update of one entry leaves every other entry, and its count, as it was.
pub update_field-other :
    (k : Kind) (m : Metrics) (i v j : ℕ)
    → j ≢ i
    → ((update_field k m i v).metric_data j ≡ m.metric_data j)
      × ((update_field k m i v).metric_average_data_divisor j ≡ m.metric_average_data_divisor j)
unfolding update_field
update_field-other k m i v j ne = ground arith

abbrev pub sum : List ℕ → ℕ
sum [] = 0
sum (v ∷ vs) = v + sum vs

-- The larger, and the smaller where 0 stands for no value yet.
abbrev pub larger : ℕ → ℕ → ℕ
larger a b = if ltb a b then b else a

abbrev pub smaller : ℕ → ℕ → ℕ
smaller a b = if b == 0 then a else if a == 0 then b else if ltb b a then b else a

abbrev pub largest : ℕ → List ℕ → ℕ
largest a [] = a
largest a (v ∷ vs) = largest (larger a v) vs

abbrev pub smallest : ℕ → List ℕ → ℕ
smallest a [] = a
smallest a (v ∷ vs) = smallest (smaller a v) vs

-- A counter fed with values holds its start and their sum, modulo 2 ^ 64.
pub feed_counter :
    (i : ℕ) (vs : List ℕ) (m : Metrics)
    → m.metric_data i < 18446744073709551616
    → (feed counter i vs m).metric_data i ≡ u64 (m.metric_data i + sum vs)
unfolding feed update_field
feed_counter i [] m h = omega arith
feed_counter i (v ∷ vs) m h =
    feed_counter i vs (update_field counter m i v) (ground arith) ∙ ground arith

feed_maximum :
    (i : ℕ) (vs : List ℕ) (m : Metrics)
    → (feed maximum i vs m).metric_data i ≡ largest (m.metric_data i) vs
unfolding feed update_field
feed_maximum i [] m = refl
feed_maximum i (v ∷ vs) m =
    feed_maximum i vs (update_field maximum m i v) ∙ ap (λ a. largest a vs) (ground arith)

feed_minimum :
    (i : ℕ) (vs : List ℕ) (m : Metrics)
    → (feed minimum i vs m).metric_data i ≡ smallest (m.metric_data i) vs
unfolding feed update_field
feed_minimum i [] m = refl
feed_minimum i (v ∷ vs) m =
    feed_minimum i vs (update_field minimum m i v) ∙ ap (λ a. smallest a vs) (ground arith)

abbrev pub All : (ℕ → Type 0) → List ℕ → Type 0
All P [] = Unit
All P (v ∷ vs) = P v × All P vs

abbrev pub IsIn : ℕ → List ℕ → Type 0
IsIn a [] = ⊥
IsIn a (v ∷ vs) = (a ≡ v) ⊎ IsIn a vs

largest_lem :
    (a : ℕ) (vs : List ℕ)
    → (a ≤ largest a vs)
      × All (λ v. v ≤ largest a vs) vs
      × ((largest a vs ≡ a) ⊎ IsIn (largest a vs) vs)
largest_lem a [] = (omega arith, tt, inl refl)
largest_lem a (v ∷ vs) =
    let (up, all, one) = largest_lem (larger a v) vs in
    (ground (arith, up), (ground (arith, up), all), ground (arith, one))

-- The non-zero values.
abbrev pub nonzero : List ℕ → List ℕ
nonzero [] = []
nonzero (v ∷ vs) = if v == 0 then nonzero vs else v ∷ nonzero vs

smallest_lem :
    (a : ℕ) (vs : List ℕ)
    → All (λ v. smallest a vs ≤ v) (nonzero vs)
      × (0 < a → smallest a vs ≤ a)
      × ((smallest a vs ≡ a) ⊎ IsIn (smallest a vs) (nonzero vs))
smallest_lem a [] = (tt, (λ h. omega arith), inl refl)
smallest_lem a (v ∷ vs) = elim (Bool-cases (v == 0)) [
  | inl none ↦ rw none (smallest_lem a vs)
  | inr some ↦ rw some (
      let (all, down, one) = smallest_lem (smaller a v) vs in
      ((ground (arith, down), rw some at all), ground (arith, down), ground (arith, one)))
]

-- A maximum that started at 0 is the largest of the values that it was fed, or 0 where there are none.
pub feed_maximum_largest :
    (i : ℕ) (vs : List ℕ) (m : Metrics)
    → m.metric_data i ≡ 0
    → let top = (feed maximum i vs m).metric_data i in
      All (λ v. v ≤ top) vs × ((top ≡ 0) ⊎ IsIn top vs)
feed_maximum_largest i vs m start =
    rw (feed_maximum i vs m, start) (let (_, all, one) = largest_lem 0 vs in (all, one))

-- A minimum that started at 0 is the smallest of the non-zero values that it was fed, or 0 where
-- there are none.
pub feed_minimum_smallest :
    (i : ℕ) (vs : List ℕ) (m : Metrics)
    → m.metric_data i ≡ 0
    → let low = (feed minimum i vs m).metric_data i in
      All (λ v. low ≤ v) (nonzero vs) × ((low ≡ 0) ⊎ IsIn low (nonzero vs))
feed_minimum_smallest i vs m start =
    rw (feed_minimum i vs m, start) (let (all, _, one) = smallest_lem 0 vs in (all, one))

-- Fed with values from 0, a counter holds their sum modulo 2 ^ 64; a maximum the largest of them, or 0
-- where there are none; and a minimum the smallest of the non-zero ones, or 0 where there are none.
pub feed_from_zero :
    (i : ℕ) (vs : List ℕ) (m : Metrics)
    → m.metric_data i ≡ 0
    → let top = (feed maximum i vs m).metric_data i in
      let low = (feed minimum i vs m).metric_data i in
      ((feed counter i vs m).metric_data i ≡ u64 (sum vs))
      × (All (λ v. v ≤ top) vs × ((top ≡ 0) ⊎ IsIn top vs))
      × (All (λ v. low ≤ v) (nonzero vs) × ((low ≡ 0) ⊎ IsIn low (nonzero vs)))
feed_from_zero i vs m start = (
  feed_counter i vs m (omega arith) ∙ ap u64 {y = sum vs} (omega (arith, start)),
  feed_maximum_largest i vs m start,
  feed_minimum_smallest i vs m start,
)

-- One step of the average: without a wrap, the stored average times the count stays below the sum.
average_step :
    (old count v total : ℕ)
    → old * count ≤ total
    → (old * count + v) / (count + 1) * (count + 1) ≤ total + v
average_step old count v total h = omega (arith, div-mul-le_self (old * count + v) (count + 1))

fed_zero : (m : Metrics) (i : ℕ) → update_field average m i 0 ≡ m
unfolding update_field
fed_zero m i = refl

fed_average :
    (m : Metrics) (i v total : ℕ)
    → v ≢ 0
    → m.metric_data i * m.metric_average_data_divisor i ≤ total
    → total + v < 18446744073709551616
    → m.metric_average_data_divisor i < 18446744073709551615
    → let m' = update_field average m i v in
      (m'.metric_average_data_divisor i ≡ m.metric_average_data_divisor i + 1)
      × (m'.metric_data i * m'.metric_average_data_divisor i ≤ total + v)
unfolding update_field
fed_average m i v total ne h a b =
    ground (arith, average_step (m.metric_data i) (m.metric_average_data_divisor i) v total h)

-- An average whose value times its count is at most `total`, fed with values whose sum and number do
-- not wrap: the count goes up by the number of the non-zero values, and the stored average times the
-- count is at most `total` and the sum of the values.
pub feed_average :
    (i : ℕ) (vs : List ℕ) (m : Metrics) (total : ℕ)
    → m.metric_data i * m.metric_average_data_divisor i ≤ total
    → total + sum vs < 18446744073709551616
    → m.metric_average_data_divisor i + length vs < 18446744073709551615
    → let m' = feed average i vs m in
      (m'.metric_average_data_divisor i ≡ m.metric_average_data_divisor i + length (nonzero vs))
      × (m'.metric_data i * m'.metric_average_data_divisor i ≤ total + sum vs)
unfolding feed
feed_average i [] m total h a b = omega arith
feed_average i (v ∷ vs) m total h a b = elim (ℕ_discrete v 0) [
  | yes none ↦
      let (count, below) = feed_average i vs m total h (omega arith) (omega arith) in
      rw (none, fed_zero m i, feed) (count, omega (arith, below))
  | no some ↦
      let (count, below) = fed_average m i v total some h (omega arith) (omega arith) in
      let (count', below') =
        feed_average i vs (update_field average m i v) (total + v) below (omega arith)
          (omega arith) in
      (count' ∙ ground (arith, count), omega (arith, below'))
]
