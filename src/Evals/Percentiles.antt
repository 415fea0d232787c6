-- ===== src/Evals/Percentiles.antt =====
-- What a percentile is: an order statistic.
use Prim.Native.Nat.{min}
use evidence_flow.Prelude.{
  ℕ, zero, suc, ◌-◌, ◌*◌, ◌/◌, ◌≤◌, ◌<◌, ◌≡◌, refl, sym, ap, ◌∙◌, Bool, false, some, List, [], ◌∷◌,
  arith, ltb, leb, length, get_elem?, filter, All, Bool-cases, inl, inr,
}
use evidence_flow.Evals.Rows.{insert_value, sort_values, percentile}

-- How many items pass a test.
abbrev pub count : (ℕ → Bool) → List ℕ → ℕ
count p xs = length (filter p xs)

count-insert_value :
    (p : ℕ → Bool) (x : ℕ) (ys : List ℕ) → count p (insert_value x ys) ≡ count p (x ∷ ys)
unfolding insert_value
count-insert_value p x [] = refl
count-insert_value p x (y ∷ ys) = elim (Bool-cases (leb x y)) [
  | inl first ↦ rw first refl
  | inr later ↦ rw later (ground (arith, count-insert_value p x ys))
]

count-sort_values : (p : ℕ → Bool) (xs : List ℕ) → count p (sort_values xs) ≡ count p xs
unfolding sort_values
count-sort_values p [] = refl
count-sort_values p (x ∷ xs) =
    count-insert_value p x (sort_values xs) ∙ ground (arith, count-sort_values p xs)

length-insert_value : (x : ℕ) (ys : List ℕ) → length (insert_value x ys) ≡ suc (length ys)
unfolding insert_value
length-insert_value x [] = refl
length-insert_value x (y ∷ ys) = ground (arith, length-insert_value x ys)

length-sort_values : (xs : List ℕ) → length (sort_values xs) ≡ length xs
unfolding sort_values
length-sort_values [] = refl
length-sort_values (x ∷ xs) =
    length-insert_value x (sort_values xs) ∙ ap suc (length-sort_values xs)

abbrev IsSorted : List ℕ → Type 0
IsSorted [] = Unit {0}
IsSorted (x ∷ xs) = All (λ y. x ≤ y) xs × IsSorted xs

insert_value-All :
    (b x : ℕ) (ys : List ℕ) → b ≤ x → All (λ y. b ≤ y) ys → All (λ y. b ≤ y) (insert_value x ys)
unfolding insert_value
insert_value-All b x [] h k = (h, tt)
insert_value-All b x (y ∷ ys) h k = elim (Bool-cases (leb x y)) [
  | inl first ↦ rw first (h, k)
  | inr later ↦ rw later (k.0, insert_value-All b x ys h k.1)
]

All-le : (x y : ℕ) (ys : List ℕ) → x ≤ y → All (λ z. y ≤ z) ys → All (λ z. x ≤ z) ys
All-le x y [] h k = tt
All-le x y (z ∷ zs) h k = (omega arith, All-le x y zs h k.1)

insert_value-IsSorted : (x : ℕ) (ys : List ℕ) → IsSorted ys → IsSorted (insert_value x ys)
unfolding insert_value
insert_value-IsSorted x [] h = (tt, tt)
insert_value-IsSorted x (y ∷ ys) h = elim (Bool-cases (leb x y)) [
  | inl first ↦ rw first (let l : x ≤ y = ground arith in ((l, All-le x y ys l h.0), h))
  | inr later ↦
      rw later (insert_value-All y x ys (ground arith) h.0, insert_value-IsSorted x ys h.1)
]

sort_values-IsSorted : (xs : List ℕ) → IsSorted (sort_values xs)
unfolding sort_values
sort_values-IsSorted [] = tt
sort_values-IsSorted (x ∷ xs) = insert_value-IsSorted x (sort_values xs) (sort_values-IsSorted xs)

-- No item of a list that `x` bounds from below is smaller.
count_smaller : (x : ℕ) (ys : List ℕ) → All (λ y. x ≤ y) ys → count (λ y. ltb y x) ys ≡ 0
count_smaller x [] h = refl
count_smaller x (y ∷ ys) h =
    let kept : ltb y x ≡ false = ground arith in rw kept (count_smaller x ys h.1)

get_elem?-ge : (b v i : ℕ) (ys : List ℕ) → All (λ y. b ≤ y) ys → get_elem? ys i ≡ some v → b ≤ v
get_elem?-ge b v i [] h e = absurd (cc)
get_elem?-ge b v zero (y ∷ ys) h e = let same : y ≡ v = ground arith in omega arith
get_elem?-ge b v (suc i) (y ∷ ys) h e = get_elem?-ge b v i ys h.1 e

-- The item at place `i` of a sorted list: at most `i` items are smaller, and more than `i` are not
-- larger.
record IsRanked (v i : ℕ) (xs : List ℕ) : Type 0 where
  smaller : count (λ x. ltb x v) xs ≤ i
  not_larger : i < count (λ x. leb x v) xs

sorted-IsRanked : (v i : ℕ) (ys : List ℕ) → IsSorted ys → get_elem? ys i ≡ some v → IsRanked v i ys
sorted-IsRanked v i [] s e = absurd (cc)
sorted-IsRanked v zero (y ∷ ys) s e =
    let same : y ≡ v = ground arith in
    let below = count_smaller y ys s.0 in
    rw (sym same) (record { smaller = ground (arith, below); not_larger = ground arith })
sorted-IsRanked v (suc i) (y ∷ ys) s e =
    let r = sorted-IsRanked v i ys s.1 e in
    let l = get_elem?-ge y v i ys s.0 e in
    record { smaller = ground (arith, r.smaller); not_larger = ground (arith, r.not_larger) }

get_elem?_total : (i : ℕ) (ys : List ℕ) → i < length ys → (v : ℕ) × (get_elem? ys i ≡ some v)
get_elem?_total i [] h = absurd (omega arith)
get_elem?_total zero (y ∷ ys) h = (y, refl)
get_elem?_total (suc i) (y ∷ ys) h = get_elem?_total i ys (omega arith)

-- The place of a percentile among the values.
abbrev pub place : List ℕ → ℕ → ℕ → ℕ
place xs num den = min (num * length xs / den) (length xs - 1)

pub record IsOrderStatistic (xs : List ℕ) (num den : ℕ) : Type 0 where
  pub value : ℕ
  pub returned : percentile xs num den ≡ some value
  pub smaller : count (λ x. ltb x value) xs ≤ place xs num den
  pub not_larger : place xs num den < count (λ x. leb x value) xs

-- Of values, at least one, `_percentile` returns a value with at most as many smaller ones as its
-- place says, and more than that many which are not larger. It never indexes out of range.
pub percentile-IsOrderStatistic :
    (x : ℕ) (xs : List ℕ) (num den : ℕ) → IsOrderStatistic (x ∷ xs) num den
unfolding percentile
percentile-IsOrderStatistic x xs num den =
    let ordered = sort_values (x ∷ xs) in
    let same = length-sort_values (x ∷ xs) in
    let i = min (num * length ordered / den) (length ordered - 1) in
    let i_place : i ≡ place (x ∷ xs) num den = ap (λ n. min (num * n / den) (n - 1)) same in
    let (v, found) = get_elem?_total i ordered (omega (arith, same)) in
    let r = sorted-IsRanked v i ordered (sort_values-IsSorted (x ∷ xs)) found in
    record {
      value = v;
      returned = found;
      smaller = omega (arith, count-sort_values (λ y. ltb y v) (x ∷ xs), r.smaller, i_place);
      not_larger = omega (arith, count-sort_values (λ y. leb y v) (x ∷ xs), r.not_larger, i_place);
    }
