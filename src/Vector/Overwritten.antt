-- ===== src/Vector/Overwritten.antt =====
-- `_run_indexing` of backend/app/routes/vector.py beside the live embedder: an asset that it writes
-- late.
use text.Mathlib.TextPositions.{eq_refl}
use open_htap_stack.Prelude.{
  ℕ, ◌-◌, ◌≡◌, refl, sym, ◌∙◌, subst, subst₂, String, Bool, true, false, Option, none, some, List,
  [], ◌∷◌, map, if◌then◌else◌, length, take, All, lookup, lookup-insert, Distinct,
}
use open_htap_stack.Geometry.Floats.{Floats}
use open_htap_stack.Prelude.Chars.{codes}
use open_htap_stack.Vector.Embedding.{get_embedding}
use open_htap_stack.Vector.Live.{
  Write, acknowledged, cassandra_unavailable, Stored, Embedder, Moment, snippet_key, changed,
  write_embedding, count_pass, pass_rows, primed_pass, pass, tick, index_write, index_one, round,
  happen, run,
}
use open_htap_stack.Vector.Marked.{is_changed-seen, lookup-take}
use open_htap_stack.Vector.Held.{lookup-changed_seen, Holds, embed_all-Holds}

module _ (fl : Floats) (blake2b : List ℕ → List ℕ) (max_per_cycle : ℕ) where
  open fl use {Float}

  abbrev LiveState : Type 0
  LiveState = Embedder fl blake2b max_per_cycle

  -- What a round reads, if it reads, has the asset with this snippet.
  abbrev pub Shows : String → String → Option (List (String × Option String)) → Type 0
  Shows k text none = Unit {0}
  Shows k text (some rows) = Distinct rows × (lookup k rows ≡ some (some text))

  abbrev pub Shown : String → String → Moment fl blake2b max_per_cycle → Type 0
  Shown k text m = Shows k text m.rows

  pass_rows-Holds :
      (m : Moment fl blake2b max_per_cycle) (read : Option (List (String × Option String)))
      (k text : String) (row : Stored fl blake2b max_per_cycle) (e : LiveState)
      → Shows k text read
      → Holds fl blake2b max_per_cycle k (snippet_key fl blake2b max_per_cycle text) row e
      → Holds fl blake2b max_per_cycle k
          (snippet_key fl blake2b max_per_cycle text)
          row
          (pass_rows fl blake2b max_per_cycle m read e).1
  unfolding pass_rows count_pass
  pass_rows-Holds m none k text row e s h = h
  pass_rows-Holds m (some rows) k text row e s h =
      let todo = changed fl blake2b max_per_cycle e.seen rows in
      let batch = take max_per_cycle todo in
      let after =
        embed_all-Holds fl blake2b max_per_cycle m batch k
          (snippet_key fl blake2b max_per_cycle text) row
          (record e { pending = length todo - length batch })
          (lookup-take fl blake2b max_per_cycle k max_per_cycle todo (
            lookup-changed_seen fl blake2b max_per_cycle k text e.seen rows s.0 s.1
              (is_changed-seen fl blake2b max_per_cycle k text e.seen h.seen)))
          (record { seen = h.seen; there = h.there; primed = h.primed }) in
      record { seen = after.seen; there = after.there; primed = after.primed }

  either :
      (b : Bool) (k : String) (digest : List ℕ) (row : Stored fl blake2b max_per_cycle)
      (x y : LiveState)
      → Holds fl blake2b max_per_cycle k digest row x
      → Holds fl blake2b max_per_cycle k digest row y
      → Holds fl blake2b max_per_cycle k digest row (if b then x else y)
  either true k digest row x y hx hy = hx
  either false k digest row x y hx hy = hy

  pass-Holds :
      (m : Moment fl blake2b max_per_cycle) (k text : String)
      (row : Stored fl blake2b max_per_cycle) (e : LiveState)
      → Shown k text m
      → Holds fl blake2b max_per_cycle k (snippet_key fl blake2b max_per_cycle text) row e
      → Holds fl blake2b max_per_cycle k
          (snippet_key fl blake2b max_per_cycle text)
          row
          (pass fl blake2b max_per_cycle m e).1
  unfolding pass primed_pass
  pass-Holds m k text row e s h =
      subst
        (λ (b : Bool).
          Holds fl blake2b max_per_cycle k (snippet_key fl blake2b max_per_cycle text) row
            (if m.connected
              then primed_pass fl blake2b max_per_cycle m b e
              else (some cassandra_unavailable, e)).1)
        (sym h.primed)
        (elim m.connected
          as (λ b.
            Holds fl blake2b max_per_cycle k (snippet_key fl blake2b max_per_cycle text) row
              (if b
                then pass_rows fl blake2b max_per_cycle m m.rows e
                else (some cassandra_unavailable, e)).1) [
                  | true ↦ pass_rows-Holds m m.rows k text row e s h
                  | false ↦ h
                ])

  tick-Holds :
      (m : Moment fl blake2b max_per_cycle) (k text : String)
      (row : Stored fl blake2b max_per_cycle) (e : LiveState)
      → Shown k text m
      → Holds fl blake2b max_per_cycle k (snippet_key fl blake2b max_per_cycle text) row e
      → Holds fl blake2b max_per_cycle k
          (snippet_key fl blake2b max_per_cycle text)
          row
          (tick fl blake2b max_per_cycle m e)
  unfolding tick
  tick-Holds m k text row e s h =
      let after = pass-Holds m k text row e s h in
      either e.enabled k (snippet_key fl blake2b max_per_cycle text) row _ e
        (record { seen = after.seen; there = after.there; primed = after.primed }) h

  run-Holds :
      (ms : List (Moment fl blake2b max_per_cycle)) (k text : String)
      (row : Stored fl blake2b max_per_cycle) (e : LiveState)
      → All (Shown k text) ms
      → Holds fl blake2b max_per_cycle k (snippet_key fl blake2b max_per_cycle text) row e
      → Holds fl blake2b max_per_cycle k
          (snippet_key fl blake2b max_per_cycle text)
          row
          (run fl blake2b max_per_cycle (map round ms) e)
  unfolding run happen
  run-Holds [] k text row e s h = h
  run-Holds (m ∷ ms) k text row e s h =
      run-Holds ms k text row (tick fl blake2b max_per_cycle m e) s.1
        (tick-Holds m k text row e s.0 h)

  index_one-Holds :
      (k old : String) (m : Moment fl blake2b max_per_cycle) (v : List Float) (e : LiveState)
      (digest : List ℕ)
      → e.primed ≡ true
      → lookup k e.seen ≡ some digest
      → get_embedding fl blake2b m.endpoint (codes old) ≡ some v
      → m.writes k ≡ acknowledged
      → Holds fl blake2b max_per_cycle k digest
          (record { text_payload = old; payload_vector = v })
          (index_one fl blake2b max_per_cycle m k old e)
  unfolding index_one index_write write_embedding
  index_one-Holds k old m v e digest p seen there done =
      subst₂
        (λ (o : Option (List Float)) (w : Write).
          Holds fl blake2b max_per_cycle k digest
            (record { text_payload = old; payload_vector = v })
            (index_write fl blake2b max_per_cycle o w k old e))
        (sym there) (sym done)
        (record {
          seen = seen;
          there = lookup-insert k k _ e.table ∙ rw (eq_refl k) refl;
          primed = p;
        })

  -- An asset's snippet was read by the indexing run as `old`; meanwhile the live embedder has embedded
  -- its new snippet. The write of the indexing run replaces that embedding by the old one, and no
  -- later round of the live embedder repairs it while the asset keeps the snippet, whatever works or
  -- fails in these rounds.
  pub index_one-overwrites :
      (k old text : String) (m : Moment fl blake2b max_per_cycle)
      (ms : List (Moment fl blake2b max_per_cycle)) (v : List Float) (e : LiveState)
      → e.primed ≡ true
      → lookup k e.seen ≡ some (snippet_key fl blake2b max_per_cycle text)
      → get_embedding fl blake2b m.endpoint (codes old) ≡ some v
      → m.writes k ≡ acknowledged
      → All (Shown k text) ms
      → lookup k
          (run fl blake2b max_per_cycle
            (map round ms)
            (index_one fl blake2b max_per_cycle m k old e)).table
        ≡ some (record { text_payload = old; payload_vector = v })
  index_one-overwrites k old text m ms v e p seen there done s =
      (run-Holds ms k text (record { text_payload = old; payload_vector = v }) _ s
        (index_one-Holds k old m v e (snippet_key fl blake2b max_per_cycle text) p seen there
          done)).there
