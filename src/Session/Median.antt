-- ===== src/Session/Median.antt =====
-- The p50 that backend/app/routes/transactions.py reports is a median.
use mathlib.Core.Option.{some-injective, none-ne-some}
use open_htap_stack.Prelude.{
  ℕ, zero, suc, ◌+◌, ◌-◌, ◌*◌, ◌≤◌, ◌<◌, ◌≡◌, refl, ◌∙◌, ap, subst, min, Bool-cases, inl, inr,
  leb→le, some, List, [], ◌∷◌, leb, if◌then◌else◌, length, get_elem?, arith,
}
use open_htap_stack.Session.Latency.{
  insert_value, sort_values, round_half, round_ms, rounded, percentile,
}

-- How many of the values are at most, and at least, a value.
abbrev pub count_le : ℕ → List ℕ → ℕ
count_le v [] = 0
count_le v (x ∷ xs) = (if leb x v then 1 else 0) + count_le v xs

abbrev pub count_ge : ℕ → List ℕ → ℕ
count_ge v [] = 0
count_ge v (x ∷ xs) = (if leb v x then 1 else 0) + count_ge v xs

abbrev Rises : ℕ → List ℕ → Type 0
Rises lo [] = Unit {0}
Rises lo (x ∷ xs) = (lo ≤ x) × Rises x xs

insert_value-Rises : (lo x : ℕ) (xs : List ℕ) → lo ≤ x → Rises lo xs → Rises lo (insert_value x xs)
unfolding insert_value
insert_value-Rises lo x [] h r = (h, tt)
insert_value-Rises lo x (y ∷ ys) h r = elim (Bool-cases (leb x y)) [
  | inl e ↦ rw e (h, (leb→le x y e, r.1))
  | inr e ↦ rw e (r.0, insert_value-Rises y x ys (ground arith) r.1)
]

sort_values-Rises : (xs : List ℕ) → Rises 0 (sort_values xs)
unfolding sort_values
sort_values-Rises [] = tt
sort_values-Rises (x ∷ xs) =
    insert_value-Rises 0 x (sort_values xs) (omega arith) (sort_values-Rises xs)

count_le-insert_value :
    (v x : ℕ) (xs : List ℕ) → count_le v (insert_value x xs) ≡ count_le v (x ∷ xs)
unfolding insert_value
count_le-insert_value v x [] = refl
count_le-insert_value v x (y ∷ ys) = ground (arith, count_le-insert_value v x ys)

count_ge-insert_value :
    (v x : ℕ) (xs : List ℕ) → count_ge v (insert_value x xs) ≡ count_ge v (x ∷ xs)
unfolding insert_value
count_ge-insert_value v x [] = refl
count_ge-insert_value v x (y ∷ ys) = ground (arith, count_ge-insert_value v x ys)

length-insert_value : (x : ℕ) (xs : List ℕ) → length (insert_value x xs) ≡ suc (length xs)
unfolding insert_value
length-insert_value x [] = refl
length-insert_value x (y ∷ ys) = ground (arith, length-insert_value x ys)

-- Sorting keeps the counts.
record Kept (xs ys : List ℕ) : Type 0 where
  size : length ys ≡ length xs
  below : (v : ℕ) → count_le v ys ≡ count_le v xs
  above : (v : ℕ) → count_ge v ys ≡ count_ge v xs

sort_values-Kept : (xs : List ℕ) → Kept xs (sort_values xs)
unfolding sort_values
sort_values-Kept [] = record { size = refl; below = λ v. refl; above = λ v. refl }
sort_values-Kept (x ∷ xs) =
    let k = sort_values-Kept xs in
    record {
      size = length-insert_value x (sort_values xs) ∙ ap suc k.size;
      below = λ v. omega (arith, count_le-insert_value v x (sort_values xs), k.below v);
      above = λ v. omega (arith, count_ge-insert_value v x (sort_values xs), k.above v);
    }

get_elem?-ge : (lo i v : ℕ) (xs : List ℕ) → Rises lo xs → get_elem? xs i ≡ some v → lo ≤ v
get_elem?-ge lo i v [] r h = absurd (none-ne-some v h)
get_elem?-ge lo zero v (x ∷ xs) r h = subst (λ (k : ℕ). lo ≤ k) (some-injective x v h) r.0
get_elem?-ge lo (suc i) v (x ∷ xs) r h = omega (arith, r.0, get_elem?-ge x i v xs r.1 h)

-- The values up to a place are at most the one there, those from it on at least it.
before-le : (lo i v : ℕ) (xs : List ℕ) → Rises lo xs → get_elem? xs i ≡ some v → i < count_le v xs
before-le lo i v [] r h = absurd (none-ne-some v h)
before-le lo zero v (x ∷ xs) r h = let e = some-injective x v h in ground arith
before-le lo (suc i) v (x ∷ xs) r h =
    ground (arith, get_elem?-ge x i v xs r.1 h, before-le x i v xs r.1 h)

all-ge : (lo v : ℕ) (xs : List ℕ) → Rises lo xs → v ≤ lo → count_ge v xs ≡ length xs
all-ge lo v [] r h = refl
all-ge lo v (x ∷ xs) r h = ground (arith, all-ge x v xs r.1)

after-ge :
    (lo i v : ℕ) (xs : List ℕ)
    → Rises lo xs
    → get_elem? xs i ≡ some v
    → length xs ≤ i + count_ge v xs
after-ge lo i v [] r h = absurd (none-ne-some v h)
after-ge lo zero v (x ∷ xs) r h = let e = some-injective x v h in ground (arith, all-ge x v xs r.1)
after-ge lo (suc i) v (x ∷ xs) r h = ground (arith, after-ge x i v xs r.1 h)

round_half_bounds : (m : ℕ) → (m ≤ 2 * round_half m + 1) × (2 * round_half m ≤ m + 1)
unfolding round_half
round_half_bounds m = ground arith

get_elem?-some : (i : ℕ) (xs : List ℕ) → i < length xs → (v : ℕ) × (get_elem? xs i ≡ some v)
get_elem?-some i [] h = absurd (omega arith)
get_elem?-some zero (x ∷ xs) h = (x, refl)
get_elem?-some (suc i) (x ∷ xs) h = get_elem?-some i xs (omega arith)

index_bounds :
    (n i r : ℕ)
    → 0 < n
    → i ≡ min (n - 1) r
    → n - 1 ≤ 2 * r + 1
    → 2 * r ≤ n - 1 + 1
    → (i < n) × (n ≤ 2 * i + 2) × (2 * i ≤ n)
index_bounds n i r h e lo hi = (omega arith, omega arith, omega arith)

-- the rounding moves a time by half a hundredth of a millisecond at most
round_ms_bounds : (v : ℕ) → (10 * round_ms v ≤ v + 5) × (v ≤ 10 * round_ms v + 5)
unfolding round_ms
round_ms_bounds v = ground arith

-- Of any measurements, at least one, in whole microseconds: the p50 that is reported is a value of
-- hundredths of a millisecond no further than half of one from a median, of which at least half of the
-- measurements are no more and at least half no less, whichever way the rounding of the place falls.
pub percentile-IsMedian :
    (xs : List ℕ)
    → 0 < length xs
    → (v p : ℕ) × (percentile xs ≡ some p)
      × (10 * p ≤ v + 5)
      × (v ≤ 10 * p + 5)
      × (length xs ≤ 2 * count_le v xs)
      × (length xs ≤ 2 * count_ge v xs)
unfolding percentile rounded
percentile-IsMedian xs h =
    let k = sort_values-Kept xs in
    let i = min (length xs - 1) (round_half (length xs - 1)) in
    let r = round_half_bounds (length xs - 1) in
    let b = index_bounds (length xs) i (round_half (length xs - 1)) h refl r.0 r.1 in
    let (v, there) = get_elem?-some i (sort_values xs) (omega (arith, k.size, b.0)) in
    let near = round_ms_bounds v in
    (
      v,
      round_ms v,
      rw there refl,
      near.0,
      near.1,
      omega (arith, k.below v, b.1, before-le 0 i v (sort_values xs) (sort_values-Rises xs) there),
      omega (
        arith,
        k.above v,
        k.size,
        b.2,
        after-ge 0 i v (sort_values xs) (sort_values-Rises xs) there,
      ),
    )
