-- ===== src/Prelude/Text.antt =====
-- Texts as keys: equality, membership, and maps as association lists or as functions.
use Prim.Native.Nat.{◌+◌}
use Prim.Native.String.{String}
use mathlib.Core.Path.{◌≡◌, refl}
use mathlib.Core.Bool.{Bool, false, ◌||◌}
use mathlib.Core.Option.{Option, none, some}
use mathlib.Core.List.{List, [], ◌∷◌}
use native.Mathlib.Omega.{arith}
use text.Mathlib.Text.{◌==◌ as str_eq}
use text.Mathlib.TextEquality.{eq_iff}
use open_htap_stack.Prelude.Tests.{if◌then◌else◌}
use open_htap_stack.Prelude.Lists.{length}

infix 50 ◌=s=◌
abbrev pub ◌=s=◌ : String → String → Bool
a =s= b = str_eq a b

-- `x in xs`
unfoldable pub contains : String → List String → Bool
contains x [] = false
contains x (y ∷ ys) = y =s= x || contains x ys

module _ {ℓ} {V : Type ℓ} where
  -- `d.get(k)`, and a point read of a table whose primary key is `k`.
  unfoldable pub lookup : String → List (String × V) → Option V
  lookup k [] = none
  lookup k ((j, v) ∷ m) = if j =s= k then some v else lookup k m

  -- `d[k] = v`, and a CQL upsert: a present key keeps its place.
  unfoldable pub insert : String → V → List (String × V) → List (String × V)
  insert k v [] = (k, v) ∷ []
  insert k v ((j, w) ∷ m) = if j =s= k then (j, v) ∷ m else (j, w) ∷ insert k v m

  -- `d.pop(k, None)`, and a CQL delete of one row.
  unfoldable pub remove : String → List (String × V) → List (String × V)
  remove k [] = []
  remove k ((j, v) ∷ m) = if j =s= k then m else (j, v) ∷ remove k m

  -- What an upsert leaves under each key.
  pub lookup-insert :
      (key asked : String) (row : V) (rows : List (String × V))
      → lookup asked (insert key row rows) ≡ (if key =s= asked then some row else lookup asked rows)
  unfolding insert lookup
  lookup-insert key asked row [] = refl
  lookup-insert key asked row (e ∷ rows) =
      ground (
        lookup-insert key asked row rows,
        eq_iff e.0 key,
        eq_iff e.0 asked,
        eq_iff key asked,
        arith,
      )

  -- Every key stands once.
  abbrev pub Distinct : List (String × V) → Type ℓ
  Distinct [] = Unit
  Distinct ((k, v) ∷ m) = (lookup k m ≡ none) × Distinct m

  pub lookup-remove :
      (k j : String) (m : List (String × V))
      → Distinct m
      → lookup j (remove k m) ≡ (if k =s= j then none else lookup j m)
  unfolding lookup remove
  lookup-remove k j [] d = ground arith
  lookup-remove k j ((i, w) ∷ m) d =
      ground (arith, eq_iff k j, eq_iff i k, eq_iff i j, lookup-remove k j m d.1)

  pub insert-Distinct :
      (k : String) (v : V) (m : List (String × V)) → Distinct m → Distinct (insert k v m)
  unfolding lookup insert
  insert-Distinct k v [] d = (refl, tt)
  insert-Distinct k v ((i, w) ∷ m) d =
      ground (arith, eq_iff i k, eq_iff k i, lookup-insert k i v m, insert-Distinct k v m d.1)

  pub remove-Distinct : (k : String) (m : List (String × V)) → Distinct m → Distinct (remove k m)
  unfolding lookup remove
  remove-Distinct k [] d = tt
  remove-Distinct k ((i, w) ∷ m) d =
      ground (arith, eq_iff i k, eq_iff k i, lookup-remove k i m d.1, remove-Distinct k m d.1)

  pub length-insert_new :
      (k : String) (v : V) (m : List (String × V))
      → lookup k m ≡ none
      → length (insert k v m) ≡ length m + 1
  unfolding lookup insert
  length-insert_new k v [] h = omega arith
  length-insert_new k v ((i, w) ∷ m) h = ground (arith, length-insert_new k v m)

  pub length-remove :
      (k : String) (m : List (String × V)) {v : V}
      → lookup k m ≡ some v
      → length (remove k m) + 1 ≡ length m
  unfolding lookup remove
  length-remove k [] h = ground arith
  length-remove k ((i, w) ∷ m) {v} h = ground (arith, length-remove k m {v = v})

-- A partitioned table: what stands under each partition key.
abbrev pub update {ℓ} : {V : Type ℓ} → (String → V) → String → V → String → V
update f k v j = if k =s= j then v else f j
