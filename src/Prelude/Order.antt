-- ===== src/Prelude/Order.antt =====
-- `sorted` on texts and on rows keyed by a text, as insertion sort.
use Prim.Native.String.{String, compare}
use Prim.Native.Nat.{Ordering}
use mathlib.Core.Path.{◌≡◌, refl, ap, ◌∙◌}
use mathlib.Core.Bool.{Bool, true, false}
use mathlib.Core.Option.{none, some}
use mathlib.Core.List.{List, [], ◌∷◌}
use native.Mathlib.Omega.{arith}
use Prim.Native.Nat.{suc}
use text.Mathlib.TextEquality.{eq_iff}
use open_htap_stack.Prelude.Tests.{if◌then◌else◌}
use open_htap_stack.Prelude.Lists.{length}
use open_htap_stack.Prelude.Text.{◌=s=◌, lookup, Distinct}

-- Python orders texts by code points, which is the order of their UTF-8 bytes.
str_le : String → String → Bool
str_le a b = elim (compare a b) [ Ordering.gt ↦ false | _ ↦ true ]

module _ {ℓ} {V : Type ℓ} where
  insert_sorted : String → V → List (String × V) → List (String × V)
  unfolding str_le
  insert_sorted k v [] = (k, v) ∷ []
  insert_sorted k v ((j, w) ∷ m) =
      if str_le k j then (k, v) ∷ (j, w) ∷ m else (j, w) ∷ insert_sorted k v m

  -- `rows.sort(key=...)`
  unfoldable pub sort_rows : List (String × V) → List (String × V)
  unfolding insert_sorted
  sort_rows [] = []
  sort_rows ((k, v) ∷ m) = insert_sorted k v (sort_rows m)

  lookup-insert_sorted :
      (k j : String) (v : V) (m : List (String × V))
      → lookup k m ≡ none
      → lookup j (insert_sorted k v m) ≡ (if k =s= j then some v else lookup j m)
  unfolding lookup insert_sorted
  lookup-insert_sorted k j v [] h = refl
  lookup-insert_sorted k j v ((i, w) ∷ m) h =
      ground (arith, eq_iff k j, eq_iff i k, eq_iff i j, lookup-insert_sorted k j v m)

  -- Where every key stands once, sorting moves no value to another key.
  pub lookup-sort_rows :
      (k : String) (m : List (String × V)) → Distinct m → lookup k (sort_rows m) ≡ lookup k m
  unfolding lookup sort_rows
  lookup-sort_rows k [] d = refl
  lookup-sort_rows k ((i, w) ∷ m) d =
      rw (lookup-insert_sorted i k w (sort_rows m) (lookup-sort_rows i m d.1 ∙ d.0))
        (ground (arith, lookup-sort_rows k m d.1))

  length-insert_sorted :
      (k : String) (v : V) (m : List (String × V)) → length (insert_sorted k v m) ≡ suc (length m)
  unfolding insert_sorted
  length-insert_sorted k v [] = refl
  length-insert_sorted k v ((i, w) ∷ m) = ground (arith, length-insert_sorted k v m)

  -- Sorting keeps how many rows there are.
  pub length-sort_rows : (m : List (String × V)) → length (sort_rows m) ≡ length m
  unfolding sort_rows
  length-sort_rows [] = refl
  length-sort_rows ((k, v) ∷ m) =
      length-insert_sorted k v (sort_rows m) ∙ ap suc (length-sort_rows m)
