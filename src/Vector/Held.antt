-- ===== src/Vector/Held.antt =====
-- An asset that the live embedder of backend/app/routes/vector.py holds as embedded keeps its row through
-- a batch of the others.
use text.Mathlib.TextEquality.{eq_iff}
use open_htap_stack.Prelude.{
  ℕ, ◌≡◌, refl, ◌∙◌, String, true, false, Option, none, some, List, [], ◌∷◌, ◌=s=◌, lookup, insert,
  lookup-insert, Distinct, arith,
}
use open_htap_stack.Geometry.Floats.{Floats}
use open_htap_stack.Prelude.Chars.{codes}
use open_htap_stack.Vector.Embedding.{get_embedding}
use open_htap_stack.Vector.Live.{
  Write, acknowledged, refused, lost, Stored, Embedder, Moment, is_changed, changed,
  write_embedding, count_failure, finish_write, write_vector, embed_one, embed_all,
}
use open_htap_stack.Vector.Marked.{lookup-changed}

module _ (fl : Floats) (blake2b : List ℕ → List ℕ) (max_per_cycle : ℕ) where
  open fl use {Float}

  abbrev LiveState : Type 0
  LiveState = Embedder fl blake2b max_per_cycle

  -- An asset whose snippet is remembered is not changed.
  pub lookup-changed_seen :
      (k text : String) (s : List (String × List ℕ)) (rows : List (String × Option String))
      → Distinct rows
      → lookup k rows ≡ some (some text)
      → is_changed fl blake2b max_per_cycle k text s ≡ false
      → lookup k (changed fl blake2b max_per_cycle s rows) ≡ none
  unfolding changed lookup
  lookup-changed_seen k text s [] d h e = ground arith
  lookup-changed_seen k text s ((i, none) ∷ rows) d h e =
      ground (arith, eq_iff i k, lookup-changed_seen k text s rows d.1)
  lookup-changed_seen k text s ((i, some t) ∷ rows) d h e = ground (
    arith,
    eq_iff i k,
    lookup-changed_seen k text s rows d.1,
    lookup-changed fl blake2b max_per_cycle k s rows,
  )

  -- What is remembered of an asset, and its row.
  pub record Holds (k : String) (digest : List ℕ) (row : Stored fl blake2b max_per_cycle)
      (e : LiveState) : Type 0 where
    pub seen : lookup k e.seen ≡ some digest
    pub there : lookup k e.table ≡ some row
    pub primed : e.primed ≡ true

  lookup-insert_other {ℓ} :
      {V : Type ℓ} (i k : String) (v : V) (m : List (String × V))
      → (i =s= k) ≡ false
      → lookup k (insert i v m) ≡ lookup k m
  lookup-insert_other i k v m h = lookup-insert i k v m ∙ rw h refl

  finish_write-Holds :
      (write : Write) (i text : String) (v : List Float) (k : String) (digest : List ℕ)
      (row : Stored fl blake2b max_per_cycle) (e : LiveState)
      → (i =s= k) ≡ false
      → Holds k digest row e
      → Holds k digest row (finish_write fl blake2b max_per_cycle write i text v e).1
  unfolding finish_write write_embedding count_failure
  finish_write-Holds acknowledged i text v k digest row e n h = record {
    seen = lookup-insert_other i k _ e.seen n ∙ h.seen;
    there = lookup-insert_other i k _ e.table n ∙ h.there;
    primed = h.primed;
  }
  finish_write-Holds refused i text v k digest row e n h = record {
    seen = h.seen;
    there = h.there;
    primed = h.primed;
  }
  finish_write-Holds lost i text v k digest row e n h = record {
    seen = h.seen;
    there = lookup-insert_other i k _ e.table n ∙ h.there;
    primed = h.primed;
  }

  write_vector-Holds :
      (o : Option (List Float)) (write : Write) (i text : String) (k : String) (digest : List ℕ)
      (row : Stored fl blake2b max_per_cycle) (e : LiveState)
      → (i =s= k) ≡ false
      → Holds k digest row e
      → Holds k digest row (write_vector fl blake2b max_per_cycle o write i text e).1
  unfolding write_vector count_failure
  write_vector-Holds none write i text k digest row e n h = record {
    seen = h.seen;
    there = h.there;
    primed = h.primed;
  }
  write_vector-Holds (some v) write i text k digest row e n h =
      finish_write-Holds write i text v k digest row e n h

  other_first :
      (i k text : String) (batch : List (String × String))
      → lookup k ((i, text) ∷ batch) ≡ none
      → ((i =s= k) ≡ false) × (lookup k batch ≡ none)
  unfolding lookup
  other_first i k text batch h = ground arith

  pub embed_all-Holds :
      (m : Moment fl blake2b max_per_cycle) (batch : List (String × String)) (k : String)
      (digest : List ℕ) (row : Stored fl blake2b max_per_cycle) (e : LiveState)
      → lookup k batch ≡ none
      → Holds k digest row e
      → Holds k digest row (embed_all fl blake2b max_per_cycle m batch e).1
  unfolding embed_all embed_one
  embed_all-Holds m [] k digest row e n h = h
  embed_all-Holds m ((i, text) ∷ batch) k digest row e n h =
      let (other, rest) = other_first i k text batch n in
      embed_all-Holds m batch k digest row (embed_one fl blake2b max_per_cycle m i text e).1 rest (
        write_vector-Holds (get_embedding fl blake2b m.endpoint (codes text)) (m.writes i) i text k
          digest row e other h)
