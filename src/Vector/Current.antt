-- ===== src/Vector/Current.antt =====
-- What the live embedder of backend/app/routes/vector.py believes to be embedded, beside the table.
use mathlib.Core.Option.{none-ne-some}
use open_htap_stack.Prelude.{
  ℕ, ◌-◌, ◌≡◌, refl, sym, ◌∙◌, ap, subst, inl, inr, String, Bool, true, false, Bool-cases, Option,
  none, some, List, [], ◌∷◌, if◌then◌else◌, length, take, lookup, Distinct, All,
}
use open_htap_stack.Geometry.Floats.{Floats}
use open_htap_stack.Vector.Live.{
  Stored, Embedder, Moment, prime, changed, count_pass, pass_rows, primed_pass, pass, tick,
  set_enabled, Event, round, toggle, happen, run, started,
}
use open_htap_stack.Vector.Remembered.{
  IsCurrent, prime-IsCurrent, IsReady, TellsTruth, EventTellsTruth, embed_all-IsReady,
}

module _ (fl : Floats) (blake2b : List ℕ → List ℕ) (max_per_cycle : ℕ) where
  open fl use {Float}

  abbrev Row : Type 0
  Row = Stored fl blake2b max_per_cycle

  abbrev LiveState : Type 0
  LiveState = Embedder fl blake2b max_per_cycle

  -- A change of the counts only.
  carry-IsCurrent :
      (e after : LiveState)
      → after.table ≡ e.table
      → after.seen ≡ e.seen
      → after.primed ≡ e.primed
      → IsCurrent fl blake2b max_per_cycle e
      → IsCurrent fl blake2b max_per_cycle after
  carry-IsCurrent e after t s p c = record {
    distinct = subst (λ (l : List (String × Row)). Distinct l) (sym t) c.distinct;
    unprimed = λ u. s ∙ c.unprimed (sym p ∙ u);
    current = λ k digest h.
        let (row, there, key) =
          c.current k digest (ap (λ (l : List (String × List ℕ)). lookup k l) (sym s) ∙ h) in
        (row, ap (λ (l : List (String × Row)). lookup k l) t ∙ there, key);
  }

  pass_rows-IsCurrent :
      (m : Moment fl blake2b max_per_cycle) (rows : Option (List (String × Option String)))
      (e : LiveState)
      → TellsTruth fl blake2b max_per_cycle m
      → IsReady fl blake2b max_per_cycle e
      → IsCurrent fl blake2b max_per_cycle (pass_rows fl blake2b max_per_cycle m rows e).1
  unfolding pass_rows count_pass
  pass_rows-IsCurrent m none e h r = r.1
  pass_rows-IsCurrent m (some rows) e h r =
      let todo = changed fl blake2b max_per_cycle e.seen rows in
      let batch = take max_per_cycle todo in
      carry-IsCurrent _ _ refl refl refl
        (embed_all-IsReady fl blake2b max_per_cycle m batch
          (record e { pending = length todo - length batch }) h
          (r.0, carry-IsCurrent e _ refl refl refl r.1)).1

  prime-primed : (e : LiveState) → (prime fl blake2b max_per_cycle e).primed ≡ true
  unfolding prime
  prime-primed e = refl

  primed_pass-IsCurrent :
      (m : Moment fl blake2b max_per_cycle) (primed : Bool) (e : LiveState)
      → e.primed ≡ primed
      → TellsTruth fl blake2b max_per_cycle m
      → IsCurrent fl blake2b max_per_cycle e
      → IsCurrent fl blake2b max_per_cycle (primed_pass fl blake2b max_per_cycle m primed e).1
  unfolding primed_pass
  primed_pass-IsCurrent m true e p h c = pass_rows-IsCurrent m m.rows e h (p, c)
  primed_pass-IsCurrent m false e p h c = elim (Bool-cases m.table_reads) [
    | inl reads ↦ rw reads (
        pass_rows-IsCurrent m m.rows (prime fl blake2b max_per_cycle e) h
          (prime-primed e, prime-IsCurrent fl blake2b max_per_cycle e (c.unprimed p) c))
    | inr fails ↦ rw fails c
  ]

  pass-IsCurrent :
      (m : Moment fl blake2b max_per_cycle) (e : LiveState)
      → TellsTruth fl blake2b max_per_cycle m
      → IsCurrent fl blake2b max_per_cycle e
      → IsCurrent fl blake2b max_per_cycle (pass fl blake2b max_per_cycle m e).1
  unfolding pass
  pass-IsCurrent m e h c = elim (Bool-cases m.connected) [
    | inl up ↦ rw up (primed_pass-IsCurrent m e.primed e refl h c)
    | inr down ↦ rw down c
  ]

  either :
      (b : Bool) (x y : LiveState)
      → IsCurrent fl blake2b max_per_cycle x
      → IsCurrent fl blake2b max_per_cycle y
      → IsCurrent fl blake2b max_per_cycle (if b then x else y)
  either true x y hx hy = hx
  either false x y hx hy = hy

  happen-IsCurrent :
      (ev : Event fl blake2b max_per_cycle) (e : LiveState)
      → EventTellsTruth fl blake2b max_per_cycle ev
      → IsCurrent fl blake2b max_per_cycle e
      → IsCurrent fl blake2b max_per_cycle (happen fl blake2b max_per_cycle ev e)
  unfolding happen tick set_enabled
  happen-IsCurrent (toggle on) e h c = carry-IsCurrent e _ refl refl refl c
  happen-IsCurrent (round m) e h c =
      either e.enabled _ e
        (carry-IsCurrent (pass fl blake2b max_per_cycle m e).1 _ refl refl refl
          (pass-IsCurrent m e h c))
        c

  run_from-IsCurrent :
      (events : List (Event fl blake2b max_per_cycle)) (e : LiveState)
      → All (EventTellsTruth fl blake2b max_per_cycle) events
      → IsCurrent fl blake2b max_per_cycle e
      → IsCurrent fl blake2b max_per_cycle (run fl blake2b max_per_cycle events e)
  unfolding run
  run_from-IsCurrent [] e h c = c
  run_from-IsCurrent (ev ∷ events) e h c =
      run_from-IsCurrent events (happen fl blake2b max_per_cycle ev e) h.1
        (happen-IsCurrent ev e h.0 c)

  -- From the start beside any table, over any rounds and toggles, whichever reads, embeddings and writes
  -- fail, as long as no write is applied and yet reported as failed and nothing else writes the table: a
  -- text is remembered as embedded for an asset only if the table's row of the asset holds a text of
  -- that digest.
  pub run-IsCurrent :
      (events : List (Event fl blake2b max_per_cycle)) (enabled : Bool)
      (table : List (String × Row))
      → Distinct table
      → All (EventTellsTruth fl blake2b max_per_cycle) events
      → IsCurrent fl blake2b max_per_cycle
          (run fl blake2b max_per_cycle events (started fl blake2b max_per_cycle enabled table))
  unfolding started lookup
  run-IsCurrent events enabled table d h =
      run_from-IsCurrent events (started fl blake2b max_per_cycle enabled table) h (record {
        distinct = d;
        unprimed = λ u. refl;
        current = λ k digest found. absurd (none-ne-some digest found);
      })
