-- ===== src/Session/Latency.antt =====
-- `_percentile` and `_reference_ms` of backend/app/routes/transactions.py. Times are in whole microseconds,
-- and in hundredths of a millisecond where they are reported; the fraction is 0.5, the only one that is asked for.
use open_htap_stack.Prelude.{
  ℕ, zero, suc, ◌+◌, ◌-◌, ◌/◌, ◌%◌, min, max, Option, none, some, List, [], ◌∷◌, ltb, leb, ◌==◌,
  if◌then◌else◌, length, get_elem?,
}

-- `sorted(values)`
unfoldable pub insert_value : ℕ → List ℕ → List ℕ
insert_value x [] = x ∷ []
insert_value x (y ∷ ys) = if leb x y then x ∷ y ∷ ys else y ∷ insert_value x ys

unfoldable pub sort_values : List ℕ → List ℕ
unfolding insert_value
sort_values [] = []
sort_values (x ∷ xs) = insert_value x (sort_values xs)

-- `round(0.5 * m)`: Python rounds a half to the even neighbour.
unfoldable pub round_half : ℕ → ℕ
round_half m = if m % 2 == 0 then m / 2 else if m / 2 % 2 == 0 then m / 2 else m / 2 + 1

-- `round(ms, 2)` of a time in whole microseconds, in hundredths of a millisecond. A time is taken
-- exactly, so that a tie goes to the even neighbour.
unfoldable pub round_ms : ℕ → ℕ
round_ms us =
    let half = us % 10 in
    let down = us / 10 in
    if ltb half 5
    then down
    else if half == 5
    then if down % 2 == 0 then down else down + 1
    else down + 1

unfoldable pub rounded : Option ℕ → Option ℕ
unfolding round_ms
rounded none = none
rounded (some us) = some (round_ms us)

-- `_percentile(values, 0.5)`; no value where there are none, for which Python raises.
unfoldable pub percentile : List ℕ → Option ℕ
unfolding sort_values round_half rounded
percentile values =
    rounded
      (get_elem? (sort_values values) (min (length values - 1) (round_half (length values - 1))))

unfoldable pub max_of_samples : List ℕ → ℕ
max_of_samples [] = 0
max_of_samples (x ∷ xs) = max x (max_of_samples xs)

-- The inner loop of `_reference_ms`: what each write took, those that raised left out.
unfoldable pub samples_of : ℕ → ℕ → (ℕ → Option ℕ) → List ℕ
samples_of index zero took = []
samples_of index (suc n) took =
    let rest = samples_of (suc index) n took in
    elim (took index) [ none ↦ rest | some t ↦ t ∷ rest ]

-- The p50 and the maximum of one kind of write, unless every write raised.
pub record WriteFigures : Type 0 where
  pub p50 : Option ℕ
  pub longest : ℕ

unfoldable pub figures_of : List ℕ → Option WriteFigures
unfolding percentile max_of_samples round_ms
figures_of [] = none
figures_of (x ∷ xs) =
    some (record { p50 = percentile (x ∷ xs); longest = round_ms (max_of_samples (x ∷ xs)) })

-- `_reference_ms`: the plain insert and the lightweight transaction, each row under a number of its own.
unfoldable pub reference_ms : ℕ → (ℕ → Option ℕ) → Option WriteFigures × Option WriteFigures
unfolding samples_of figures_of
reference_ms repeats took =
    (figures_of (samples_of 100000 repeats took), figures_of (samples_of 200000 repeats took))
