-- ===== src/Vector/Marked.antt =====
-- Which snippets a pass of backend/app/routes/vector.py leaves for the next one.
use text.Mathlib.TextEquality.{eq_iff}
use text.Mathlib.TextPositions.{eq_refl}
use open_htap_stack.Prelude.{
  ℕ, zero, suc, ◌≡◌, refl, sym, ◌∙◌, ap, String, Bool, true, false, ◌&&◌, not, Bool-cases, inl, inr,
  Option, none, some, List, [], ◌∷◌, take, drop, lookup, insert, lookup-insert, Distinct, arith,
}
use open_htap_stack.Geometry.Floats.{Floats}
use open_htap_stack.Prelude.Chars.{codes}
use open_htap_stack.Vector.Live.{
  same_digest, all_space, snippet_key, is_unseen, is_changed, changed,
}

module _ (fl : Floats) (blake2b : List ℕ → List ℕ) (max_per_cycle : ℕ) where
  -- What is remembered after a batch is embedded.
  abbrev pub mark : List (String × String) → List (String × List ℕ) → List (String × List ℕ)
  mark [] seen = seen
  mark ((k, text) ∷ batch) seen =
      mark batch (insert k (snippet_key fl blake2b max_per_cycle text) seen)

  same_digest_refl : (d : List ℕ) → same_digest d d ≡ true
  unfolding same_digest
  same_digest_refl [] = refl
  same_digest_refl (x ∷ xs) = ground (arith, same_digest_refl xs)

  is_changed-cong :
      (k text : String) (s t : List (String × List ℕ))
      → lookup k s ≡ lookup k t
      → is_changed fl blake2b max_per_cycle k text s ≡ is_changed fl blake2b max_per_cycle k text t
  unfolding is_changed
  is_changed-cong k text s t h =
      ap
        (λ (o : Option (List ℕ)).
          not (all_space (codes text))
          && is_unseen fl blake2b max_per_cycle o (snippet_key fl blake2b max_per_cycle text))
        h

  and_false : (b : Bool) → (b && false) ≡ false
  and_false true = refl
  and_false false = refl

  pub is_changed-seen :
      (k text : String) (s : List (String × List ℕ))
      → lookup k s ≡ some (snippet_key fl blake2b max_per_cycle text)
      → is_changed fl blake2b max_per_cycle k text s ≡ false
  unfolding is_changed is_unseen
  is_changed-seen k text s h =
      rw (h, same_digest_refl (snippet_key fl blake2b max_per_cycle text))
        (and_false (not (all_space (codes text))))

  changed-skip :
      (k text : String) (s : List (String × List ℕ)) (rows : List (String × Option String))
      → is_changed fl blake2b max_per_cycle k text s ≡ false
      → changed fl blake2b max_per_cycle s ((k, some text) ∷ rows)
        ≡ changed fl blake2b max_per_cycle s rows
  unfolding changed
  changed-skip k text s rows h = rw h refl

  changed-take :
      (k text : String) (s : List (String × List ℕ)) (rows : List (String × Option String))
      → is_changed fl blake2b max_per_cycle k text s ≡ true
      → changed fl blake2b max_per_cycle s ((k, some text) ∷ rows)
        ≡ (k, text) ∷ changed fl blake2b max_per_cycle s rows
  unfolding changed
  changed-take k text s rows h = rw h refl

  changed-insert :
      (k : String) (d : List ℕ) (s : List (String × List ℕ)) (rows : List (String × Option String))
      → lookup k rows ≡ none
      → changed fl blake2b max_per_cycle (insert k d s) rows
        ≡ changed fl blake2b max_per_cycle s rows
  unfolding changed lookup
  changed-insert k d s [] h = refl
  changed-insert k d s ((i, none) ∷ rows) h = ground (arith, changed-insert k d s rows, eq_iff i k)
  changed-insert k d s ((i, some text) ∷ rows) h = ground (
    arith,
    changed-insert k d s rows,
    eq_iff i k,
    eq_iff k i,
    lookup-insert k i d s,
    is_changed-cong i text (insert k d s) s,
  )

  pub lookup-changed :
      (k : String) (s : List (String × List ℕ)) (rows : List (String × Option String))
      → lookup k rows ≡ none
      → lookup k (changed fl blake2b max_per_cycle s rows) ≡ none
  unfolding changed lookup
  lookup-changed k s [] h = refl
  lookup-changed k s ((i, none) ∷ rows) h = ground (arith, lookup-changed k s rows)
  lookup-changed k s ((i, some text) ∷ rows) h = ground (arith, lookup-changed k s rows)

  pub lookup-take :
      (k : String) (n : ℕ) (xs : List (String × String))
      → lookup k xs ≡ none
      → lookup k (take n xs) ≡ none
  unfolding lookup
  lookup-take k zero xs h = refl
  lookup-take k (suc n) [] h = refl
  lookup-take k (suc n) ((i, t) ∷ xs) h = ground (arith, lookup-take k n xs)

  lookup-mark :
      (k : String) (batch : List (String × String)) (s : List (String × List ℕ))
      → lookup k batch ≡ none
      → lookup k (mark batch s) ≡ lookup k s
  unfolding lookup
  lookup-mark k [] s h = refl
  lookup-mark k ((i, t) ∷ batch) s h = ground (
    arith,
    eq_iff i k,
    lookup-mark k batch (insert i (snippet_key fl blake2b max_per_cycle t) s),
    lookup-insert i k (snippet_key fl blake2b max_per_cycle t) s,
  )

  -- An asset that is not in the rows keeps what is remembered of it.
  lookup-mark-changed :
      (k : String) (n : ℕ) (t s : List (String × List ℕ)) (rows : List (String × Option String))
      → lookup k rows ≡ none
      → lookup k (mark (take n (changed fl blake2b max_per_cycle t rows)) s) ≡ lookup k s
  lookup-mark-changed k n t s rows h =
      lookup-mark k (take n (changed fl blake2b max_per_cycle t rows)) s
        (lookup-take k n (changed fl blake2b max_per_cycle t rows) (lookup-changed k t rows h))

  abbrev Leaves : ℕ → List (String × List ℕ) → List (String × Option String) → Type 0
  Leaves n s rows =
      changed fl blake2b max_per_cycle (mark (take n (changed fl blake2b max_per_cycle s rows)) s)
        rows
      ≡ drop n (changed fl blake2b max_per_cycle s rows)

  nothing-Leaves : (n : ℕ) (s : List (String × List ℕ)) → Leaves n s []
  unfolding changed
  nothing-Leaves zero s = refl
  nothing-Leaves (suc n) s = refl

  textless-Leaves :
      (n : ℕ) (s : List (String × List ℕ)) (k : String) (rows : List (String × Option String))
      → Leaves n s rows
      → Leaves n s ((k, none) ∷ rows)
  unfolding changed
  textless-Leaves n s k rows h = h

  unchanged-Leaves :
      (n : ℕ) (s : List (String × List ℕ)) (k text : String) (rows : List (String × Option String))
      → lookup k rows ≡ none
      → is_changed fl blake2b max_per_cycle k text s ≡ false
      → Leaves n s rows
      → Leaves n s ((k, some text) ∷ rows)
  unchanged-Leaves n s k text rows h e ih = rw (changed-skip k text s rows e) (
      changed-skip k text (mark (take n (changed fl blake2b max_per_cycle s rows)) s) rows
        (is_changed-cong k text _ s (lookup-mark-changed k n s s rows h) ∙ e)
      ∙ ih)

  lookup-insert_self :
      (k : String) (d : List ℕ) (s : List (String × List ℕ)) → lookup k (insert k d s) ≡ some d
  lookup-insert_self k d s = lookup-insert k k d s ∙ rw (eq_refl k) refl

  changed-Leaves :
      (n : ℕ) (s : List (String × List ℕ)) (k text : String) (rows : List (String × Option String))
      → lookup k rows ≡ none
      → is_changed fl blake2b max_per_cycle k text s ≡ true
      → Leaves n (insert k (snippet_key fl blake2b max_per_cycle text) s) rows
      → Leaves (suc n) s ((k, some text) ∷ rows)
  changed-Leaves n s k text rows h e ih =
      let digest = snippet_key fl blake2b max_per_cycle text in
      rw (changed-take k text s rows e, sym (changed-insert k digest s rows h))
        (changed-skip k text
            (mark (take n (changed fl blake2b max_per_cycle (insert k digest s) rows))
              (insert k digest s))
            rows
            (is_changed-seen k text _ (
              lookup-mark-changed k n (insert k digest s) (insert k digest s) rows h
              ∙ lookup-insert_self k digest s))
          ∙ ih)

  -- A pass over distinct assets that embeds the first `n` changed snippets leaves the others.
  pub changed-mark :
      (n : ℕ) (s : List (String × List ℕ)) (rows : List (String × Option String))
      → Distinct rows
      → Leaves n s rows
  changed-mark n s [] d = nothing-Leaves n s
  changed-mark n s ((k, none) ∷ rows) d = textless-Leaves n s k rows (changed-mark n s rows d.1)
  changed-mark zero s ((k, some text) ∷ rows) d = refl
  changed-mark (suc n) s ((k, some text) ∷ rows) d =
      elim (Bool-cases (is_changed fl blake2b max_per_cycle k text s)) [
        | inl e ↦
            changed-Leaves n s k text rows d.0 e
              (changed-mark n (insert k (snippet_key fl blake2b max_per_cycle text) s) rows d.1)
        | inr e ↦ unchanged-Leaves (suc n) s k text rows d.0 e (changed-mark (suc n) s rows d.1)
      ]
