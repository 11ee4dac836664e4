-- ===== src/Compare/Stream.antt =====
-- A stream of the comparison that its client reads to the end.
use mathlib.Core.Option.{some-injective}
use open_htap_stack.Prelude.{
  ℕ, zero, suc, ◌+◌, ◌≤◌, ◌≡◌, refl, subst, sym, String, Bool, true, false, some, List, [], ◌∷◌,
  ◌++◌, get_elem?, length, arith, inl, inr, Bool-cases,
}
use open_htap_stack.Compare.Runs.{
  Phase, fresh, at_baseline, at_engines, at_end, whole_body, over, Run, World, set_at, begin_run,
  end_run, keep_run, advance, is_over, settle, resume_run, new_run,
}
use open_htap_stack.Compare.Requests.{Request, proceed, handle, handle_all}

pub get_elem?-append_last {ℓ} :
    {A : Type ℓ} (xs : List A) (x : A) → get_elem? (xs ++ x ∷ []) (length xs) ≡ some x
get_elem?-append_last [] x = refl
get_elem?-append_last (y ∷ xs) x = get_elem?-append_last xs x

module _ (Result : Type 0) where
  pub get_elem?-set_at :
      (i : ℕ) (r r' : Run Result) (rs : List (Run Result))
      → get_elem? rs i ≡ some r
      → get_elem? (set_at Result i r' rs) i ≡ some r'
  unfolding set_at
  get_elem?-set_at i r r' [] h = absurd (ground (arith, h))
  get_elem?-set_at zero r r' (x ∷ xs) h = refl
  get_elem?-set_at (suc i) r r' (x ∷ xs) h = get_elem?-set_at i r r' xs h

  -- How many steps a run has before it is over, if nothing cancels it.
  abbrev pub steps_left : List String → Phase Result → ℕ
  steps_left names fresh = length names + 4
  steps_left names at_baseline = length names + 3
  steps_left names (at_engines es) = length es + 2
  steps_left names at_end = 1
  steps_left names (whole_body es) = length es + 1
  steps_left names over = 0

  abbrev pub proceeds : ℕ → ℕ → List (Request Result)
  proceeds i zero = []
  proceeds i (suc n) = proceed i ∷ proceeds i n

  advance-steps_left :
      (answer : String → Result) (cancelled : Bool) (r : Run Result) (p : Phase Result)
      → is_over Result p ≡ false
      → (let r' = (advance Result answer cancelled r p).1 in
          steps_left r'.engines r'.phase + 1 ≤ steps_left r.engines p)
  unfolding advance
  advance-steps_left answer cancelled r fresh h = omega arith
  advance-steps_left answer cancelled r at_baseline h = omega arith
  advance-steps_left answer cancelled r (at_engines []) h = omega arith
  advance-steps_left answer true r (at_engines (e ∷ es)) h = omega arith
  advance-steps_left answer false r (at_engines (e ∷ es)) h = omega arith
  advance-steps_left answer cancelled r at_end h = omega arith
  advance-steps_left answer cancelled r (whole_body []) h = omega arith
  advance-steps_left answer true r (whole_body (e ∷ es)) h = omega arith
  advance-steps_left answer false r (whole_body (e ∷ es)) h = omega arith
  advance-steps_left answer cancelled r over h = absurd (ground (arith, h))

  -- A run that is over does not hold the lock.
  abbrev pub Lets : Run Result → World Result → Type 0
  Lets r w = is_over Result r.phase ≡ true → w.locked ≡ false

  pub settle-Lets :
      (i : ℕ) (r r' : Run Result) (w : World Result)
      → get_elem? w.runs i ≡ some r
      → (get_elem? (settle Result i r' w).runs i ≡ some r') × Lets r' (settle Result i r' w)
  unfolding settle end_run keep_run
  settle-Lets i r r' w at = elim (Bool-cases (is_over Result r'.phase)) [
    | inl ended ↦ rw ended (get_elem?-set_at i r r' w.runs at, λ h. refl)
    | inr going ↦ rw going (get_elem?-set_at i r r' w.runs at, λ h. absurd (ground (arith, h)))
  ]

  no_steps :
      (names : List String) (p : Phase Result) (n : ℕ)
      → is_over Result p ≡ true
      → steps_left names p ≤ n
  no_steps names fresh n h = absurd (ground (arith, h))
  no_steps names at_baseline n h = absurd (ground (arith, h))
  no_steps names (at_engines es) n h = absurd (ground (arith, h))
  no_steps names at_end n h = absurd (ground (arith, h))
  no_steps names (whole_body es) n h = absurd (ground (arith, h))
  no_steps names over n h = omega arith

  over_at_no_steps :
      (names : List String) (p : Phase Result) → steps_left names p ≤ 0 → is_over Result p ≡ true
  over_at_no_steps names fresh h = absurd (omega (arith, h))
  over_at_no_steps names at_baseline h = absurd (omega (arith, h))
  over_at_no_steps names (at_engines es) h = absurd (omega (arith, h))
  over_at_no_steps names at_end h = absurd (omega (arith, h))
  over_at_no_steps names (whole_body es) h = absurd (omega (arith, h))
  over_at_no_steps names over h = refl

  pub proceed-over :
      (answer : String → Result) (i : ℕ) (r : Run Result) (w : World Result)
      → get_elem? w.runs i ≡ some r
      → is_over Result r.phase ≡ true
      → (handle Result answer (proceed i) w).1 ≡ w
  unfolding handle resume_run
  proceed-over answer i r w at ended = rw (at, ended) refl

  pub proceed-settle :
      (answer : String → Result) (i : ℕ) (r : Run Result) (w : World Result)
      → get_elem? w.runs i ≡ some r
      → is_over Result r.phase ≡ false
      → (handle Result answer (proceed i) w).1
        ≡ settle Result i (advance Result answer w.cancel_requested r r.phase).1 w
  unfolding handle resume_run
  proceed-settle answer i r w at going = rw (at, going) refl

  pub proceeds-frees :
      (answer : String → Result) (i n : ℕ) (r : Run Result) (w : World Result)
      → get_elem? w.runs i ≡ some r
      → steps_left r.engines r.phase ≤ n
      → Lets r w
      → (handle_all Result answer (proceeds i n) w).locked ≡ false
  unfolding handle_all
  proceeds-frees answer i zero r w at enough lets = lets (over_at_no_steps r.engines r.phase enough)
  proceeds-frees answer i (suc n) r w at enough lets = elim (Bool-cases (is_over Result r.phase)) [
    | inl ended ↦
        subst (λ x. (handle_all Result answer (proceeds i n) x).locked ≡ false)
          (sym (proceed-over answer i r w at ended))
          (proceeds-frees answer i n r w at (no_steps r.engines r.phase n ended) lets)
    | inr going ↦
        let r' = (advance Result answer w.cancel_requested r r.phase).1 in
        let (at', lets') = settle-Lets i r r' w at in
        subst (λ x. (handle_all Result answer (proceeds i n) x).locked ≡ false)
          (sym (proceed-settle answer i r w at going))
          (proceeds-frees answer i n r' (settle Result i r' w) at'
            (omega (arith, enough, advance-steps_left answer w.cancel_requested r r.phase going))
            lets')
  ]

  -- A run that was let in, in a phase that has as many steps left as the run has engines and four
  -- more, or fewer, gives the lock back within that many steps, whatever the engines answer.
  pub begin_run-frees :
      (answer : String → Result) (names : List String) (sql : String) (p : Phase Result)
      (w w' : World Result)
      → steps_left names p ≤ length names + 4
      → is_over Result p ≡ false
      → begin_run Result (new_run Result names sql p) w ≡ some w'
      → (handle_all Result answer (proceeds (length w.runs) (length names + 4)) w').locked ≡ false
  unfolding begin_run
  begin_run-frees answer names sql p w w' few going let_in = elim (Bool-cases w.locked) [
    | inl held ↦ absurd (ground (arith, held, let_in))
    | inr free ↦
        let begun = some-injective _ _ (rw free at let_in) in
        subst
          (λ x.
            (handle_all Result answer (proceeds (length w.runs) (length names + 4)) x).locked
            ≡ false)
          begun
          (proceeds-frees answer (length w.runs) (length names + 4) (new_run Result names sql p) _
            (get_elem?-append_last w.runs (new_run Result names sql p)) few
            (λ h. absurd (ground (arith, h, going))))
  ]
