-- ===== src/Vector/Complete.antt =====
-- After enough rounds the live embedder of backend/app/routes/vector.py has embedded every snippet.
use text.Mathlib.TextEquality.{eq_iff}
use open_htap_stack.Prelude.{
  ℕ, ◌*◌, ◌≤◌, ◌≡◌, refl, ap, String, true, false, Option, none, some, List, [], ◌∷◌, map, length,
  lookup, All, Distinct, arith, ==_iff,
}
use open_htap_stack.Geometry.Floats.{Floats}
use open_htap_stack.Prelude.Chars.{codes}
use open_htap_stack.Vector.Live.{
  same_digest, all_space, Embedder, Moment, snippet_key, is_unseen, is_changed, changed, round, run,
}
use open_htap_stack.Vector.CatchUp.{Works, IsOn, run-leaves_nothing}

same_digest-eq : (a b : List ℕ) → same_digest a b ≡ true → a ≡ b
unfolding same_digest
same_digest-eq [] [] h = refl
same_digest-eq [] (y ∷ ys) h = absurd (ground arith)
same_digest-eq (x ∷ xs) [] h = absurd (ground arith)
same_digest-eq (x ∷ xs) (y ∷ ys) h = ground (arith, ==_iff x y, same_digest-eq xs ys)

module _ (fl : Floats) (blake2b : List ℕ → List ℕ) (max_per_cycle : ℕ) where
  -- every snippet of the rows that is not blank is the one remembered of its asset
  unchanged :
      (k text : String) (seen : List (String × List ℕ)) (rows : List (String × Option String))
      → changed fl blake2b max_per_cycle seen rows ≡ []
      → lookup k rows ≡ some (some text)
      → is_changed fl blake2b max_per_cycle k text seen ≡ false
  unfolding changed lookup
  unchanged k text seen [] h e = absurd (ground arith)
  unchanged k text seen ((i, none) ∷ rows) h e =
      ground (arith, eq_iff i k, unchanged k text seen rows h)
  unchanged k text seen ((i, some t) ∷ rows) h e =
      ground (arith, eq_iff i k, unchanged k text seen rows)

  seen_of :
      (o : Option (List ℕ)) (key : List ℕ)
      → is_unseen fl blake2b max_per_cycle o key ≡ false
      → o ≡ some key
  unfolding is_unseen
  seen_of none key h = absurd (ground arith)
  seen_of (some digest) key h = ap some (same_digest-eq digest key (ground arith))

  remembered :
      (k text : String) (seen : List (String × List ℕ))
      → is_changed fl blake2b max_per_cycle k text seen ≡ false
      → all_space (codes text) ≡ false
      → lookup k seen ≡ some (snippet_key fl blake2b max_per_cycle text)
  unfolding is_changed
  remembered k text seen h b =
      seen_of (lookup k seen) (snippet_key fl blake2b max_per_cycle text) (ground arith)

  -- Of an embedder that is on and has read its table, over rounds that all read the same snippets, of
  -- distinct assets, and at which Cassandra is connected, every text gets an embedding and every write is
  -- acknowledged: where the snippets changed at first are no more than the number of rounds times the most
  -- that a round takes, afterwards the digest remembered of each asset whose snippet is not blank is that
  -- of its snippet.
  pub run-remembers_each :
      (rows : List (String × Option String)) (ms : List (Moment fl blake2b max_per_cycle))
      (e : Embedder fl blake2b max_per_cycle) (k text : String)
      → Distinct rows
      → All (Works fl blake2b max_per_cycle rows) ms
      → IsOn fl blake2b max_per_cycle e
      → length (changed fl blake2b max_per_cycle e.seen rows) ≤ length ms * max_per_cycle
      → lookup k rows ≡ some (some text)
      → all_space (codes text) ≡ false
      → lookup k (run fl blake2b max_per_cycle (map round ms) e).seen
        ≡ some (snippet_key fl blake2b max_per_cycle text)
  run-remembers_each rows ms e k text d w on h there filled =
      let seen = (run fl blake2b max_per_cycle (map round ms) e).seen in
      let none_left = run-leaves_nothing fl blake2b max_per_cycle rows ms e d w on h in
      remembered k text seen (unchanged k text seen rows none_left there) filled
