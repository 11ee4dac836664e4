-- ===== src/Cdc/Bounded.antt =====
-- A bounded deque, as backend/app/routes/streaming.py uses it, holds the newest of what was appended.
use open_htap_stack.Prelude.{
  ℕ, zero, suc, ◌+◌, ◌-◌, ◌≤◌, ◌<◌, ◌≡◌, refl, ap, sym, ◌∙◌, ◌⊎◌, inl, inr, List, [], ◌∷◌, ◌++◌,
  length, length-append, take, drop, arith,
}
use mathlib.Core.List.{reverse, reverse-append}
use open_htap_stack.Cdc.Tail.{append_bounded}

le_cases : (n k : ℕ) → k ≤ n → (k ≡ n) ⊎ (k < n)
le_cases n k h = ground arith

module _ {ℓ} {A : Type ℓ} where
  reverse-cons : (x : A) (xs : List A) → reverse (x ∷ xs) ≡ reverse xs ++ x ∷ []
  reverse-cons x xs = reverse-append (x ∷ []) xs

  length-reverse : (xs : List A) → length (reverse xs) ≡ length xs
  length-reverse [] = refl
  length-reverse (x ∷ xs) =
      ap length (reverse-cons x xs)
      ∙ omega (arith, length-append (reverse xs) (x ∷ []), length-reverse xs)

  length-take : (n : ℕ) (xs : List A) → length (take n xs) ≤ n
  length-take zero xs = omega arith
  length-take (suc n) [] = omega arith
  length-take (suc n) (x ∷ xs) = omega (arith, length-take n xs)

  -- A window that is not full holds no more than a smaller one.
  take_fewer :
      (m : ℕ) (xs : List A) → length (take (suc m) xs) < suc m → take (suc m) xs ≡ take m xs
  take_fewer zero [] h = refl
  take_fewer (suc m) [] h = refl
  take_fewer zero (x ∷ xs) h = absurd (omega arith)
  take_fewer (suc m) (x ∷ xs) h = ap (λ (l : List A). x ∷ l) (take_fewer m xs (omega arith))

  drop_one : (xs : List A) (x : A) → 0 < length xs → drop 1 (xs ++ x ∷ []) ≡ drop 1 xs ++ x ∷ []
  drop_one [] x h = absurd (omega arith)
  drop_one (y ∷ xs) x h = refl

  -- The oldest of a full window is the one that a smaller window lacks.
  drop-reverse-take :
      (m : ℕ) (xs : List A)
      → length (take (suc m) xs) ≡ suc m
      → drop 1 (reverse (take (suc m) xs)) ≡ reverse (take m xs)
  drop-reverse-take m [] h = absurd (omega arith)
  drop-reverse-take zero (x ∷ xs) h = refl
  drop-reverse-take (suc m) (x ∷ xs) h =
      ap (drop 1) (reverse-cons x (take (suc m) xs))
      ∙ drop_one (reverse (take (suc m) xs)) x (omega (arith, length-reverse (take (suc m) xs)))
      ∙ ap (λ (l : List A). l ++ x ∷ []) (drop-reverse-take m xs (omega arith))
      ∙ sym (reverse-cons x (take m xs))

  -- What is dropped from a window of `k`, of at most `n`, at one more.
  append_bounded-full :
      (m k : ℕ) (xs : List A) (x : A)
      → length (reverse (take (suc m) xs)) ≡ k
      → length (take (suc m) xs) ≡ k
      → (k ≡ suc m) ⊎ (k < suc m)
      → drop (k + 1 - suc m) (reverse (take (suc m) xs) ++ x ∷ []) ≡ reverse (take m xs) ++ x ∷ []
  append_bounded-full m k xs x e f (inl full) = rw (let g : k + 1 - suc m ≡ 1 = omega arith in g) (
      drop_one (reverse (take (suc m) xs)) x (omega arith)
      ∙ ap (λ (l : List A). l ++ x ∷ []) (drop-reverse-take m xs (omega arith)))
  append_bounded-full m k xs x e f (inr room) =
      rw (let g : k + 1 - suc m ≡ 0 = omega arith in g)
        (ap (λ (l : List A). reverse l ++ x ∷ []) (take_fewer m xs (omega arith)))

  -- A bounded buffer holds the newest of all that was appended.
  pub append_bounded-window :
      (n : ℕ) (xs : List A) (x : A)
      → append_bounded n (reverse (take n xs)) x ≡ reverse (take n (x ∷ xs))
  unfolding append_bounded
  append_bounded-window zero xs x = refl
  append_bounded-window (suc m) xs x =
      append_bounded-full m (length (reverse (take (suc m) xs))) xs x refl
        (sym (length-reverse (take (suc m) xs)))
        (le_cases (suc m) (length (reverse (take (suc m) xs)))
          (omega (arith, length-reverse (take (suc m) xs), length-take (suc m) xs)))
      ∙ sym (reverse-cons x (take m xs))
