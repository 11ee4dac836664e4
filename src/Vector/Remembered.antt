-- ===== src/Vector/Remembered.antt =====
-- What the live embedder of backend/app/routes/vector.py remembers of each asset, beside the table: one
-- batch of writes, and the first reading of the table.
use mathlib.Core.Option.{some-injective, none-ne-some}
use text.Mathlib.TextEquality.{eq_iff}
use open_htap_stack.Prelude.{
  ℕ, ◌≡◌, refl, sym, ◌∙◌, subst, ◌≢◌, inl, inr, String, true, false, Bool-cases, Option, none, some,
  List, [], ◌∷◌, ◌=s=◌, if◌then◌else◌, lookup, insert, lookup-insert, Distinct, insert-Distinct,
  arith,
}
use open_htap_stack.Geometry.Floats.{Floats}
use open_htap_stack.Prelude.Chars.{codes}
use open_htap_stack.Vector.Embedding.{get_embedding}
use open_htap_stack.Vector.Live.{
  Write, acknowledged, refused, lost, Stored, Embedder, Moment, snippet_key, prime_rows, prime,
  write_embedding, count_failure, finish_write, write_vector, embed_one, embed_all, Event, round,
  toggle,
}

module _ (fl : Floats) (blake2b : List ℕ → List ℕ) (max_per_cycle : ℕ) where
  open fl use {Float}

  abbrev Row : Type 0
  Row = Stored fl blake2b max_per_cycle

  abbrev LiveState : Type 0
  LiveState = Embedder fl blake2b max_per_cycle

  -- The digest that stands for a row, with the one that was there before.
  abbrev told : Option Row → Option (List ℕ) → Option (List ℕ)
  told none before = before
  told (some row) before =
      if row.text_payload =s= ""
      then before
      else some (snippet_key fl blake2b max_per_cycle row.text_payload)

  lookup-prime_rows :
      (k : String) (rows : List (String × Row)) (seen : List (String × List ℕ))
      → Distinct rows
      → lookup k (prime_rows fl blake2b max_per_cycle rows seen)
        ≡ told (lookup k rows) (lookup k seen)
  unfolding lookup prime_rows
  lookup-prime_rows k [] seen d = refl
  lookup-prime_rows k ((i, row) ∷ rows) seen d = ground (
    arith,
    eq_iff i k,
    lookup-prime_rows k rows seen d.1,
    lookup-prime_rows k rows (insert i (snippet_key fl blake2b max_per_cycle row.text_payload) seen)
        d.1,
    lookup-insert i k (snippet_key fl blake2b max_per_cycle row.text_payload) seen,
  )

  -- What is believed to be embedded is the text in the table, for every asset; before the table was read
  -- nothing is believed.
  pub record IsCurrent (e : LiveState) : Type 0 where
    pub distinct : Distinct e.table
    pub unprimed : e.primed ≡ false → e.seen ≡ []
    pub current :
        (k : String) (digest : List ℕ)
        → lookup k e.seen ≡ some digest
        → (row : Row) × (lookup k e.table ≡ some row)
          × (snippet_key fl blake2b max_per_cycle row.text_payload ≡ digest)

  -- The digest of the row under a key is what `told` makes of it.
  told-current :
      (o : Option Row) (digest : List ℕ)
      → told o none ≡ some digest
      → (row : Row) × (o ≡ some row)
        × (snippet_key fl blake2b max_per_cycle row.text_payload ≡ digest)
  told-current none digest h = absurd (none-ne-some digest h)
  told-current (some row) digest h = elim (Bool-cases (row.text_payload =s= "")) [
    | inl e ↦ absurd (none-ne-some digest (rw e at h))
    | inr e ↦ (row, refl, some-injective _ digest (rw e at h))
  ]

  pub prime-IsCurrent :
      (e : LiveState) → e.seen ≡ [] → IsCurrent e → IsCurrent (prime fl blake2b max_per_cycle e)
  unfolding prime lookup
  prime-IsCurrent e fresh c = record {
    distinct = c.distinct;
    unprimed = λ h. ground arith;
    current = λ k digest h. told-current (lookup k e.table) digest (
        subst (λ (s : List (String × List ℕ)). told (lookup k e.table) (lookup k s) ≡ some digest)
          fresh (sym (lookup-prime_rows k e.table e.seen c.distinct) ∙ h));
  }

  -- An embedding that is acknowledged.
  acknowledged-current :
      (e : LiveState) (k text : String) (vector : List Float) (asked : String) (digest : List ℕ)
      → ((i : String) (d : List ℕ)
          → lookup i e.seen ≡ some d
          → (row : Row) × (lookup i e.table ≡ some row)
            × (snippet_key fl blake2b max_per_cycle row.text_payload ≡ d))
      → lookup asked (insert k (snippet_key fl blake2b max_per_cycle text) e.seen) ≡ some digest
      → (row : Row) × (lookup asked (write_embedding fl blake2b max_per_cycle k text vector e.table)
          ≡ some row)
        × (snippet_key fl blake2b max_per_cycle row.text_payload ≡ digest)
  unfolding write_embedding
  acknowledged-current e k text vector asked digest c h = elim (Bool-cases (k =s= asked)) [
    | inl same ↦ (
      record { text_payload = text; payload_vector = vector },
      lookup-insert k asked _ e.table ∙ rw same refl,
      some-injective _ digest (rw (lookup-insert k asked _ e.seen, same) at h),
    )
    | inr other ↦
        let (row, there, key) = c asked digest (rw (lookup-insert k asked _ e.seen, other) at h) in
        (row, lookup-insert k asked _ e.table ∙ rw other there, key)
  ]

  -- The same, of an embedder that has read the table.
  abbrev pub IsReady : LiveState → Type 0
  IsReady e = (e.primed ≡ true) × IsCurrent e

  count_failure-IsReady :
      (e : LiveState) → IsReady e → IsReady (count_failure fl blake2b max_per_cycle e)
  unfolding count_failure
  count_failure-IsReady e (p, c) =
      (p, record { distinct = c.distinct; unprimed = c.unprimed; current = c.current })

  finish_write-IsReady :
      (write : Write) (k text : String) (vector : List Float) (e : LiveState)
      → write ≢ lost
      → IsReady e
      → IsReady (finish_write fl blake2b max_per_cycle write k text vector e).1
  unfolding finish_write write_embedding
  finish_write-IsReady acknowledged k text vector e h (p, c) = (
    p,
    record {
      distinct = insert-Distinct k _ e.table c.distinct;
      unprimed = λ u. ground arith;
      current =
          λ asked digest found. acknowledged-current e k text vector asked digest c.current found;
    },
  )
  finish_write-IsReady refused k text vector e h r = count_failure-IsReady e r
  finish_write-IsReady lost k text vector e h r = absurd (h refl)

  write_vector-IsReady :
      (v : Option (List Float)) (write : Write) (k text : String) (e : LiveState)
      → write ≢ lost
      → IsReady e
      → IsReady (write_vector fl blake2b max_per_cycle v write k text e).1
  unfolding write_vector
  write_vector-IsReady none write k text e h r = count_failure-IsReady e r
  write_vector-IsReady (some v) write k text e h r = finish_write-IsReady write k text v e h r

  -- No write of the pass is applied and yet reported as failed.
  abbrev pub TellsTruth : Moment fl blake2b max_per_cycle → Type 0
  TellsTruth m = (k : String) → m.writes k ≢ lost

  abbrev pub EventTellsTruth : Event fl blake2b max_per_cycle → Type 0
  EventTellsTruth (round m) = TellsTruth m
  EventTellsTruth (toggle on) = Unit {0}

  pub embed_all-IsReady :
      (m : Moment fl blake2b max_per_cycle) (batch : List (String × String)) (e : LiveState)
      → TellsTruth m
      → IsReady e
      → IsReady (embed_all fl blake2b max_per_cycle m batch e).1
  unfolding embed_all embed_one
  embed_all-IsReady m [] e h r = r
  embed_all-IsReady m ((k, text) ∷ batch) e h r =
      embed_all-IsReady m batch (embed_one fl blake2b max_per_cycle m k text e).1 h (
        write_vector-IsReady (get_embedding fl blake2b m.endpoint (codes text)) (m.writes k) k text
          e (h k) r)
