-- ===== src/Vector/Embedding.antt =====
-- `local_embedding` and `get_embedding` of backend/app/routes/vector.py. A text is the list of its code
-- points. The hash of Python's `hashlib` and what the embedding endpoint answers are parameters.
use open_htap_stack.Prelude.{
  ℕ, zero, suc, ◌+◌, ◌*◌, ◌%◌, Bool, false, ◌&&◌, ◌||◌, Option, none, some, List, [], ◌∷◌, ◌++◌,
  map, ltb, leb, ◌==◌, if◌then◌else◌, length,
}
use open_htap_stack.Prelude.Chars.{lower}
use open_htap_stack.Geometry.Floats.{Floats}

abbrev pub embedding_dims : ℕ
embedding_dims = 1536

unfoldable pub is_token_char : ℕ → Bool
is_token_char c = (leb 97 c && leb c 122) || (leb 48 c && leb c 57)

abbrev pub flush : List ℕ → List (List ℕ) → List (List ℕ)
flush [] tokens = tokens
flush (c ∷ cs) tokens = (c ∷ cs) ∷ tokens

-- `_TOKEN_RE.findall`: the longest runs of a-z and 0-9. The first list is the run so far.
unfoldable pub findall : List ℕ → List ℕ → List (List ℕ)
unfolding is_token_char
findall run [] = flush run []
findall run (c ∷ cs) =
    let longer = findall (run ++ c ∷ []) cs in
    let fresh = findall [] cs in if is_token_char c then longer else flush run fresh

-- `int.from_bytes(digest[:4], "big") % EMBEDDING_DIMS`
unfoldable pub index_of : List ℕ → ℕ
index_of (a ∷ b ∷ c ∷ d ∷ rest) = (((a * 256 + b) * 256 + c) * 256 + d) % embedding_dims
index_of _ = 0

-- `digest[4] & 1`
unfoldable pub is_odd_fifth : List ℕ → Bool
is_odd_fifth (a ∷ b ∷ c ∷ d ∷ e ∷ rest) = e % 2 == 1
is_odd_fifth _ = false

-- What the endpoint answers: a request that raised, or a vector.
pub data Reply (F : Type 0) : Type 0 where
  request_failed : Reply F
  embedding : List F → Reply F

module _ (fl : Floats) (blake2b : List ℕ → List ℕ) where
  open fl use {Float, add, mul, div, neg, eq, sqrt, lit}

  unfoldable pub zeros : ℕ → List Float
  zeros zero = []
  zeros (suc n) = lit 0 0 ∷ zeros n

  -- `vector[index] += sign`
  unfoldable pub add_at : ℕ → Float → List Float → List Float
  add_at i x [] = []
  add_at zero x (v ∷ vs) = add v x ∷ vs
  add_at (suc i) x (v ∷ vs) = v ∷ add_at i x vs

  -- The body of the loop over the tokens.
  unfoldable pub add_token : List ℕ → List Float → List Float
  unfolding add_at index_of is_odd_fifth
  add_token token vector =
      if ltb (length token) 3
      then vector
      else add_at (index_of (blake2b token))
          (if is_odd_fifth (blake2b token) then lit 1 0 else neg (lit 1 0)) vector

  unfoldable pub add_tokens : List (List ℕ) → List Float → List Float
  unfolding add_token
  add_tokens [] vector = vector
  add_tokens (token ∷ tokens) vector = add_tokens tokens (add_token token vector)

  -- `sum(v * v for v in vector)`, from the left.
  unfoldable pub sum_squares : Float → List Float → Float
  sum_squares total [] = total
  sum_squares total (v ∷ vs) = sum_squares (add total (mul v v)) vs

  -- `vector[0] = 1.0`
  unfoldable pub set_first : List Float → List Float
  set_first [] = []
  set_first (v ∷ vs) = lit 1 0 ∷ vs

  unfoldable pub normalised : List Float → List Float
  unfolding sum_squares set_first
  normalised vector =
      let norm = sqrt (sum_squares (lit 0 0) vector) in
      if eq norm (lit 0 0) then set_first vector else map (λ v. div v norm) vector

  unfoldable pub local_embedding : List ℕ → List Float
  unfolding lower findall zeros add_tokens normalised
  local_embedding text = normalised (add_tokens (findall [] (lower text)) (zeros embedding_dims))

  -- The answer of an endpoint, with the text; `none` is the HTTP error on a vector of another size.
  unfoldable pub embedding_of : List ℕ → Reply Float → Option (List Float)
  unfolding local_embedding
  embedding_of text request_failed = some (local_embedding text)
  embedding_of text (embedding v) = if length v == embedding_dims then some v else none

  -- `get_embedding`; the endpoint stands where a key is configured.
  unfoldable pub get_embedding : Option (List ℕ → Reply Float) → List ℕ → Option (List Float)
  unfolding local_embedding embedding_of
  get_embedding none text = some (local_embedding text)
  get_embedding (some endpoint) text = embedding_of text (endpoint text)
