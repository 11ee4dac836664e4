-- ===== src/Vector/Dimensions.antt =====
-- The size of the vectors of backend/app/routes/vector.py.
use mathlib.Core.Option.{some-injective, none-ne-some}
use open_htap_stack.Prelude.{
  ℕ, zero, suc, ◌≡◌, refl, ap, ◌∙◌, subst, Option, none, some, List, [], ◌∷◌, ltb, ◌==◌, ==_iff,
  length, length-map, Bool-cases, inl, inr,
}
use open_htap_stack.Geometry.Floats.{Floats}
use open_htap_stack.Prelude.Chars.{lower}
use open_htap_stack.Vector.Embedding.{
  embedding_dims, findall, Reply, request_failed, embedding, zeros, add_at, add_token, add_tokens,
  sum_squares, set_first, normalised, local_embedding, embedding_of, get_embedding,
}

module _ (fl : Floats) (blake2b : List ℕ → List ℕ) where
  open fl use {Float, eq, sqrt, lit}

  length-zeros : (n : ℕ) → length (zeros fl blake2b n) ≡ n
  unfolding zeros
  length-zeros zero = refl
  length-zeros (suc n) = ap suc (length-zeros n)

  length-add_at :
      (i : ℕ) (x : Float) (vs : List Float) → length (add_at fl blake2b i x vs) ≡ length vs
  unfolding add_at
  length-add_at i x [] = refl
  length-add_at zero x (v ∷ vs) = refl
  length-add_at (suc i) x (v ∷ vs) = ap suc (length-add_at i x vs)

  length-add_token : (t : List ℕ) (vs : List Float) → length (add_token fl blake2b t vs) ≡ length vs
  unfolding add_token
  length-add_token t vs = elim (Bool-cases (ltb (length t) 3)) [
    | inl e ↦ rw e refl
    | inr e ↦ rw e (length-add_at _ _ vs)
  ]

  length-add_tokens :
      (ts : List (List ℕ)) (vs : List Float) → length (add_tokens fl blake2b ts vs) ≡ length vs
  unfolding add_tokens
  length-add_tokens [] vs = refl
  length-add_tokens (t ∷ ts) vs =
      length-add_tokens ts (add_token fl blake2b t vs) ∙ length-add_token t vs

  length-set_first : (vs : List Float) → length (set_first fl blake2b vs) ≡ length vs
  unfolding set_first
  length-set_first [] = refl
  length-set_first (v ∷ vs) = refl

  length-normalised : (vs : List Float) → length (normalised fl blake2b vs) ≡ length vs
  unfolding normalised
  length-normalised vs =
      elim (Bool-cases (eq (sqrt (sum_squares fl blake2b (lit 0 0) vs)) (lit 0 0))) [
        | inl e ↦ rw e (length-set_first vs)
        | inr e ↦ rw e (length-map _ vs)
      ]

  length-local_embedding :
      (text : List ℕ) → length (local_embedding fl blake2b text) ≡ embedding_dims
  unfolding local_embedding
  length-local_embedding text =
      length-normalised _
      ∙ length-add_tokens (findall [] (lower text)) (zeros fl blake2b embedding_dims)
      ∙ length-zeros embedding_dims

  length-embedding_of :
      (text : List ℕ) (reply : Reply Float) (v : List Float)
      → embedding_of fl blake2b text reply ≡ some v
      → length v ≡ embedding_dims
  unfolding embedding_of
  length-embedding_of text request_failed v h =
      subst (λ (u : List Float). length u ≡ embedding_dims) (some-injective _ _ h)
        (length-local_embedding text)
  length-embedding_of text (embedding u) v h = elim (Bool-cases (length u == embedding_dims)) [
    | inl e ↦
        subst (λ (x : List Float). length x ≡ embedding_dims) (some-injective u v (rw e at h))
          ((==_iff (length u) embedding_dims).0 e)
    | inr e ↦ absurd (none-ne-some v (rw e at h))
  ]

  -- Whatever the endpoint answers, with a key or without: a text that is embedded has a vector of
  -- exactly the size of the column, a text with no token of three characters too.
  pub length-get_embedding :
      (endpoint : Option (List ℕ → Reply Float)) (text : List ℕ) (v : List Float)
      → get_embedding fl blake2b endpoint text ≡ some v
      → length v ≡ embedding_dims
  unfolding get_embedding
  length-get_embedding none text v h =
      subst (λ (u : List Float). length u ≡ embedding_dims) (some-injective _ _ h)
        (length-local_embedding text)
  length-get_embedding (some endpoint) text v h = length-embedding_of text (endpoint text) v h

  -- An endpoint that fails costs no text its vector.
  pub get_embedding-falls_back :
      (endpoint : List ℕ → Reply Float) (text : List ℕ)
      → endpoint text ≡ request_failed
      → get_embedding fl blake2b (some endpoint) text ≡ get_embedding fl blake2b none text
  unfolding get_embedding embedding_of
  get_embedding-falls_back endpoint text h = rw h refl
