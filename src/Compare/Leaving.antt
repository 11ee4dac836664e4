-- ===== src/Compare/Leaving.antt =====
-- A stream that is read in part: its client goes away, or it is cancelled.
use mathlib.Core.Option.{some-injective}
use open_htap_stack.Prelude.{
  ℕ, zero, suc, ◌≡◌, refl, subst, ap, sym, ◌∙◌, String, Bool, true, false, some, List, [], ◌∷◌,
  ◌++◌, get_elem?, length, arith, inl, inr, Bool-cases,
}
use open_htap_stack.Compare.Runs.{
  Phase, fresh, at_baseline, at_engines, at_end, whole_body, over, Run, World, begin_run, end_run,
  keep_run, in_phase, answered_by, advance, settle, is_over, resume_run, close_phase,
  request_cancel, new_run, done,
}
use open_htap_stack.Compare.Requests.{sent, proceed, leave, cancel, leave_run, handle, handle_all}
use open_htap_stack.Compare.Stream.{
  get_elem?-append_last, get_elem?-set_at, proceeds, settle-Lets, proceeds-frees, proceed-over,
  proceed-settle,
}

module _ (Result : Type 0) where
  -- A generator that was started, and is in one of its later phases or over.
  abbrev IsStarted : Phase Result → Type 0
  IsStarted fresh = ⊥
  IsStarted at_baseline = Unit
  IsStarted (at_engines es) = Unit
  IsStarted at_end = Unit
  IsStarted (whole_body es) = ⊥
  IsStarted over = Unit

  advance-IsStarted :
      (answer : String → Result) (cancelled : Bool) (r : Run Result) (p : Phase Result)
      → IsStarted p
      → IsStarted (advance Result answer cancelled r p).1.phase
  unfolding advance answered_by
  advance-IsStarted answer cancelled r fresh h = tt
  advance-IsStarted answer cancelled r at_baseline h = tt
  advance-IsStarted answer cancelled r (at_engines []) h = tt
  advance-IsStarted answer true r (at_engines (e ∷ es)) h = tt
  advance-IsStarted answer false r (at_engines (e ∷ es)) h = tt
  advance-IsStarted answer cancelled r at_end h = tt
  advance-IsStarted answer cancelled r (whole_body es) h = absurd h
  advance-IsStarted answer cancelled r over h = tt

  close-frees :
      (i : ℕ) (r : Run Result) (p : Phase Result) (w : World Result)
      → IsStarted p
      → (is_over Result p ≡ true → w.locked ≡ false)
      → (close_phase Result i r p w).locked ≡ false
  unfolding close_phase end_run
  close-frees i r fresh w h lets = absurd h
  close-frees i r at_baseline w h lets = refl
  close-frees i r (at_engines es) w h lets = refl
  close-frees i r at_end w h lets = refl
  close-frees i r (whole_body es) w h lets = absurd h
  close-frees i r over w h lets = lets refl

  leave-frees :
      (answer : String → Result) (i n : ℕ) (r : Run Result) (w : World Result)
      → get_elem? w.runs i ≡ some r
      → IsStarted r.phase
      → (is_over Result r.phase ≡ true → w.locked ≡ false)
      → (handle_all Result answer (proceeds Result i n ++ leave i ∷ []) w).locked ≡ false
  unfolding handle_all handle leave_run
  leave-frees answer i zero r w at begun lets =
      subst (λ o. (leave_run Result i o w).locked ≡ false) (sym at)
        (close-frees i r r.phase w begun lets)
  leave-frees answer i (suc n) r w at begun lets = elim (Bool-cases (is_over Result r.phase)) [
    | inl ended ↦
        subst
          (λ x. (handle_all Result answer (proceeds Result i n ++ leave i ∷ []) x).locked ≡ false)
          (sym (proceed-over Result answer i r w at ended))
          (leave-frees answer i n r w at begun lets)
    | inr going ↦
        let r' = (advance Result answer w.cancel_requested r r.phase).1 in
        let (at', lets') = settle-Lets Result i r r' w at in
        subst
          (λ x. (handle_all Result answer (proceeds Result i n ++ leave i ∷ []) x).locked ≡ false)
          (sym (proceed-settle Result answer i r w at going))
          (leave-frees answer i n r' (settle Result i r' w) at'
            (advance-IsStarted answer w.cancel_requested r r.phase begun) lets')
  ]

  first_step :
      (answer : String → Result) (i n : ℕ) (r : Run Result) (w : World Result)
      → get_elem? w.runs i ≡ some r
      → r.phase ≡ fresh
      → (handle_all Result answer (proceed i ∷ proceeds Result i n ++ leave i ∷ []) w).locked
        ≡ false
  unfolding handle_all
  first_step answer i n r w at e =
      let r' = (advance Result answer w.cancel_requested r r.phase).1 in
      let (at', lets') = settle-Lets Result i r r' w at in
      subst (λ x. (handle_all Result answer (proceeds Result i n ++ leave i ∷ []) x).locked ≡ false)
        (sym (proceed-settle Result answer i r w at (rw e refl)))
        (leave-frees answer i n r' (settle Result i r' w) at'
          (subst (λ p. IsStarted (advance Result answer w.cancel_requested r p).1.phase) (sym e) tt)
          lets')

  -- A client whose stream was let in and that goes away once its first line was asked for gives the
  -- lock back, wherever in the stream it goes away.
  pub left_stream-frees :
      (answer : String → Result) (names : List String) (sql : String) (w w' : World Result) (n : ℕ)
      → begin_run Result (new_run Result names sql fresh) w ≡ some w'
      → (let i = length w.runs in
          (handle_all Result answer (proceed i ∷ proceeds Result i n ++ leave i ∷ []) w').locked
          ≡ false)
  unfolding handle_all begin_run
  left_stream-frees answer names sql w w' n let_in = elim (Bool-cases w.locked) [
    | inl held ↦ absurd (ground (arith, held, let_in))
    | inr free ↦
        let r = new_run Result names sql fresh in
        let i = length w.runs in
        subst
          (λ x.
            (handle_all Result answer (proceed i ∷ proceeds Result i n ++ leave i ∷ []) x).locked
            ≡ false)
          (some-injective _ _ (rw free at let_in))
          (first_step answer i n r _ (get_elem?-append_last w.runs r) refl)
  ]

  advance-cancelled :
      (answer : String → Result) (r : Run Result) (names : List String)
      → advance Result answer true r (at_engines names)
        ≡ (some (done true), in_phase Result r at_end)
  unfolding advance
  advance-cancelled answer r [] = refl
  advance-cancelled answer r (e ∷ es) = refl

  proceed-cancelled :
      (answer : String → Result) (i : ℕ) (r : Run Result) (names : List String) (w : World Result)
      → w.cancel_requested ≡ true
      → get_elem? w.runs i ≡ some r
      → r.phase ≡ at_engines names
      → handle Result answer (proceed i) w
        ≡ (sent (some (done true)), keep_run Result i (in_phase Result r at_end) w)
  unfolding handle resume_run settle
  proceed-cancelled answer i r names w asked at has =
      rw (at, has, asked, advance-cancelled answer r names) refl

  request-cancels :
      (w : World Result) (j : ℕ)
      → w.in_flight ≡ some j
      → (request_cancel Result w).cancel_requested ≡ true
  unfolding request_cancel
  request-cancels w j flying = rw flying refl

  -- A cancel while a stream has engines left: its next line is the last one, which says so, no engine
  -- is run for it, and one step later the lock is free.
  pub cancelled_stream-stops :
      (answer : String → Result) (i j : ℕ) (r : Run Result) (names : List String) (w : World Result)
      → w.in_flight ≡ some j
      → get_elem? w.runs i ≡ some r
      → r.phase ≡ at_engines names
      → (let w' = (handle Result answer cancel w).1 in
          ((handle Result answer (proceed i) w').0 ≡ sent (some (done true)))
          × (get_elem? (handle Result answer (proceed i) w').1.runs i
              ≡ some (in_phase Result r at_end))
          × ((handle_all Result answer (cancel ∷ proceed i ∷ proceed i ∷ []) w).locked ≡ false))
  unfolding handle_all keep_run request_cancel handle
  cancelled_stream-stops answer i j r names w flying at has =
      let w' = request_cancel Result w in
      let stopped = proceed-cancelled answer i r names w' (request-cancels w j flying) at has in
      let at' = get_elem?-set_at Result i r (in_phase Result r at_end) w.runs at in
      (
        ap (λ x. x.0) stopped,
        ap (λ x. get_elem? x.1.runs i) stopped ∙ at',
        subst (λ x. (handle_all Result answer (proceed i ∷ []) x).locked ≡ false)
            (sym (ap (λ x. x.1) stopped))
            (proceeds-frees Result answer i 1 (in_phase Result r at_end)
              (keep_run Result i (in_phase Result r at_end) w') at' (omega arith)
              (λ h. absurd (ground (arith, h)))),
      )
