-- ===== src/Vector/CatchUp.antt =====
-- The live embedder of backend/app/routes/vector.py takes up what a pass leaves.
use mathlib.Core.Option.{some-injective, none-ne-some}
use open_htap_stack.Prelude.{
  ℕ, zero, suc, ◌+◌, ◌-◌, ◌*◌, ◌≤◌, ◌≡◌, refl, sym, ◌∙◌, ap, subst, subst₂, insert, String, Bool,
  true, false, Option, none, some, List, [], ◌∷◌, map, if◌then◌else◌, length, take, drop, All,
  Distinct, arith,
}
use open_htap_stack.Geometry.Floats.{Floats}
use open_htap_stack.Prelude.Chars.{codes}
use open_htap_stack.Vector.Embedding.{get_embedding}
use open_htap_stack.Vector.Live.{
  Write, acknowledged, PassError, cassandra_unavailable, Embedder, Moment, snippet_key, changed,
  finish_write, write_vector, embed_one, embed_all, count_pass, pass_rows, primed_pass, pass, tick,
  round, happen, run,
}
use open_htap_stack.Vector.Marked.{mark, changed-mark}

suc-mul : (n k : ℕ) → k + n * k ≡ suc n * k
suc-mul n k = grind arith

module _ {ℓ} {A : Type ℓ} where
  drop_start : (n : ℕ) (xs : List A) → n ≡ 0 → xs ≡ drop n xs
  drop_start zero xs h = refl
  drop_start (suc n) xs h = absurd (omega arith)

  drop_nothing : (n : ℕ) → drop {A = A} n [] ≡ []
  drop_nothing zero = refl
  drop_nothing (suc n) = refl

  drop-drop : (m n : ℕ) (xs : List A) → drop m (drop n xs) ≡ drop (n + m) xs
  drop-drop m zero xs = ap (λ (k : ℕ). drop k xs) (omega arith)
  drop-drop m (suc n) [] = drop_nothing m ∙ sym (drop_nothing (suc n + m))
  drop-drop m (suc n) (x ∷ xs) =
      drop-drop m n xs
      ∙ ap (λ (k : ℕ). drop k (x ∷ xs)) (let e : suc (n + m) ≡ suc n + m = omega arith in e)

  drop_past : (n : ℕ) (xs : List A) → length xs ≤ n → drop n xs ≡ []
  drop_past zero [] h = refl
  drop_past zero (x ∷ xs) h = absurd (omega arith)
  drop_past (suc n) [] h = refl
  drop_past (suc n) (x ∷ xs) h = drop_past n xs (omega arith)

module _ (fl : Floats) (blake2b : List ℕ → List ℕ) (max_per_cycle : ℕ) where
  open fl use {Float}

  abbrev LiveState : Type 0
  LiveState = Embedder fl blake2b max_per_cycle

  -- A moment at which everything that a pass calls works, with the snippets that it reads.
  pub record Works (rows : List (String × Option String)) (m : Moment fl blake2b max_per_cycle)
      : Type 0 where
    pub up : m.connected ≡ true
    pub reads : m.rows ≡ some rows
    pub embeds :
        (text : List ℕ) → (v : List Float) × (get_embedding fl blake2b m.endpoint text ≡ some v)
    pub writes : (k : String) → m.writes k ≡ acknowledged

  -- An embedder that is on and has read the table.
  abbrev pub IsOn : LiveState → Type 0
  IsOn e = (e.enabled ≡ true) × (e.primed ≡ true)

  -- What an embedder that is on remembers.
  abbrev Remembers : List (String × List ℕ) → LiveState → Type 0
  Remembers seen e = (e.seen ≡ seen) × (e.enabled ≡ true) × (e.primed ≡ true)

  -- The write of a vector that is there.
  write_vector-Remembers :
      (v : List Float) (vector : Option (List Float)) (write : Write) (k text : String)
      (seen : List (String × List ℕ)) (e : LiveState)
      → vector ≡ some v
      → write ≡ acknowledged
      → Remembers seen e
      → Remembers
          (mark fl blake2b max_per_cycle ((k, text) ∷ []) seen)
          (write_vector fl blake2b max_per_cycle vector write k text e).1
  unfolding write_vector finish_write
  write_vector-Remembers v vector write k text seen e p q (s, on, primed) =
      subst₂
        (λ (o : Option (List Float)) (w : Write).
          Remembers (mark fl blake2b max_per_cycle ((k, text) ∷ []) seen)
            (write_vector fl blake2b max_per_cycle o w k text e).1)
        (sym p) (sym q)
        (
          ap
              (λ (l : List (String × List ℕ)).
                insert k (snippet_key fl blake2b max_per_cycle text) l)
              s,
          on,
          primed,
        )

  embed_all-Remembers :
      (rows : List (String × Option String)) (m : Moment fl blake2b max_per_cycle)
      (batch : List (String × String)) (seen : List (String × List ℕ)) (e : LiveState)
      → Works rows m
      → Remembers seen e
      → Remembers
          (mark fl blake2b max_per_cycle batch seen)
          (embed_all fl blake2b max_per_cycle m batch e).1
  unfolding embed_all
  embed_all-Remembers rows m [] seen e w r = r
  embed_all-Remembers rows m ((k, text) ∷ batch) seen e w r =
      let (v, there) = w.embeds (codes text) in
      embed_all-Remembers rows m batch (insert k (snippet_key fl blake2b max_per_cycle text) seen)
        (embed_one fl blake2b max_per_cycle m k text e).1 w
        (write_vector-Remembers v _ (m.writes k) k text seen e there (w.writes k) r)

  pass_rows-Remembers :
      (rows : List (String × Option String)) (m : Moment fl blake2b max_per_cycle)
      (read : Option (List (String × Option String))) (e : LiveState)
      → read ≡ some rows
      → Works rows m
      → IsOn e
      → Remembers
          (mark fl blake2b max_per_cycle
            (take max_per_cycle (changed fl blake2b max_per_cycle e.seen rows))
            e.seen)
          (pass_rows fl blake2b max_per_cycle m read e).1
  unfolding pass_rows count_pass
  pass_rows-Remembers rows m none e p w on = absurd (none-ne-some rows p)
  pass_rows-Remembers rows m (some given) e p w on =
      let todo = changed fl blake2b max_per_cycle e.seen given in
      let batch = take max_per_cycle todo in
      let r =
        embed_all-Remembers rows m batch e.seen (record e { pending = length todo - length batch })
          w (refl, on.0, on.1) in
      (
        r.0
            ∙ ap
                (λ (l : List (String × Option String)).
                  mark fl blake2b max_per_cycle
                    (take max_per_cycle (changed fl blake2b max_per_cycle e.seen l)) e.seen)
                (some-injective given rows p),
        r.1,
        r.2,
      )

  pass-eq :
      (rows : List (String × Option String)) (m : Moment fl blake2b max_per_cycle) (e : LiveState)
      → Works rows m
      → e.primed ≡ true
      → pass fl blake2b max_per_cycle m e ≡ pass_rows fl blake2b max_per_cycle m m.rows e
  unfolding pass primed_pass
  pass-eq rows m e w p =
      ap
        (λ (b : Bool).
          if b
          then primed_pass fl blake2b max_per_cycle m e.primed e
          else (some cassandra_unavailable, e))
        w.up
      ∙ ap (λ (b : Bool). primed_pass fl blake2b max_per_cycle m b e) p

  when_on :
      (b : Bool) (x y : LiveState) (seen : List (String × List ℕ))
      → b ≡ true
      → Remembers seen x
      → Remembers seen (if b then x else y)
  when_on true x y seen h r = r
  when_on false x y seen h r = cc

  tick-Remembers :
      (rows : List (String × Option String)) (m : Moment fl blake2b max_per_cycle) (e : LiveState)
      → Works rows m
      → IsOn e
      → Remembers
          (mark fl blake2b max_per_cycle
            (take max_per_cycle (changed fl blake2b max_per_cycle e.seen rows))
            e.seen)
          (tick fl blake2b max_per_cycle m e)
  unfolding tick
  tick-Remembers rows m e w on =
      let r =
        subst
          (λ (p : Option PassError × LiveState).
            Remembers
              (mark fl blake2b max_per_cycle
                (take max_per_cycle (changed fl blake2b max_per_cycle e.seen rows)) e.seen)
              p.1)
          (sym (pass-eq rows m e w on.1)) (pass_rows-Remembers rows m m.rows e w.reads w on) in
      when_on e.enabled _ e _ on.0 (r.0, r.1, r.2)

  -- Of rounds at which all that they call works, over the same snippets of distinct assets: each
  -- embeds the first of those that the rounds before have left, so that after `n` rounds what is left
  -- is what stood behind the first n times the most that a round takes.
  pub run-catches_up :
      (rows : List (String × Option String)) (ms : List (Moment fl blake2b max_per_cycle))
      (e : LiveState)
      → Distinct rows
      → All (Works rows) ms
      → IsOn e
      → changed fl blake2b max_per_cycle (run fl blake2b max_per_cycle (map round ms) e).seen rows
        ≡ drop (length ms * max_per_cycle) (changed fl blake2b max_per_cycle e.seen rows)
  unfolding run happen
  run-catches_up rows [] e d w on =
      drop_start (0 * max_per_cycle) (changed fl blake2b max_per_cycle e.seen rows) (omega arith)
  run-catches_up rows (m ∷ ms) e d w on =
      let r = tick-Remembers rows m e w.0 on in
      run-catches_up rows ms (tick fl blake2b max_per_cycle m e) d w.1 (r.1, r.2)
      ∙ ap
          (λ (s : List (String × List ℕ)).
            drop (length ms * max_per_cycle) (changed fl blake2b max_per_cycle s rows))
          r.0
      ∙ ap (drop (length ms * max_per_cycle))
          (changed-mark fl blake2b max_per_cycle max_per_cycle e.seen rows d)
      ∙ drop-drop (length ms * max_per_cycle) max_per_cycle
          (changed fl blake2b max_per_cycle e.seen rows)
      ∙ ap (λ (k : ℕ). drop k (changed fl blake2b max_per_cycle e.seen rows))
          (suc-mul (length ms) max_per_cycle)

  -- Of such rounds, where all changed snippets are no more than the rounds take at most, afterwards none
  -- is changed.
  pub run-leaves_nothing :
      (rows : List (String × Option String)) (ms : List (Moment fl blake2b max_per_cycle))
      (e : LiveState)
      → Distinct rows
      → All (Works rows) ms
      → IsOn e
      → length (changed fl blake2b max_per_cycle e.seen rows) ≤ length ms * max_per_cycle
      → changed fl blake2b max_per_cycle (run fl blake2b max_per_cycle (map round ms) e).seen rows
        ≡ []
  run-leaves_nothing rows ms e d w on h =
      run-catches_up rows ms e d w on
      ∙ drop_past (length ms * max_per_cycle) (changed fl blake2b max_per_cycle e.seen rows) h
