-- ===== src/Compare/Abandoned.antt =====
-- A stream whose client goes away before it is read.
use mathlib.Core.Option.{some-injective}
use open_htap_stack.Prelude.{
  ℕ, zero, suc, ◌≡◌, refl, subst, sym, String, true, false, Option, none, some, List, [], ◌∷◌,
  get_elem?, length, arith, inl, inr, Bool-cases,
}
use open_htap_stack.Compare.Engines.{Choice, chosen, unknown_engines, no_engine, requested_engines}
use open_htap_stack.Compare.Runs.{
  Phase, fresh, at_baseline, at_engines, at_end, whole_body, over, Run, World, begin_run, keep_run,
  in_phase, is_over, close_phase, request_cancel, new_run,
}
use open_htap_stack.Compare.Requests.{
  begun_or_refused, Request, stream, benchmark, proceed, leave, cancel, start_stream,
  start_benchmark, proceed_run, leave_run, handle, handle_all,
}
use open_htap_stack.Compare.Exclusive.{
  open_count, open_count-append, open_count-set_at, is_open, IsExclusive,
}
use open_htap_stack.Compare.Stream.{get_elem?-append_last}

module _ (Result : Type 0) where
  -- The lock is held, and every run is over.
  abbrev pub IsStuck : World Result → Type 0
  IsStuck w = (w.locked ≡ true) × (open_count Result w.runs ≡ 0)

  over_of_none_open :
      (i : ℕ) (r : Run Result) (rs : List (Run Result))
      → open_count Result rs ≡ 0
      → get_elem? rs i ≡ some r
      → is_over Result r.phase ≡ true
  over_of_none_open i r [] h at = absurd (ground (arith, at))
  over_of_none_open zero r (x ∷ xs) h at =
      subst (λ (y : Run Result). is_over Result y.phase ≡ true) (some-injective x r at)
        (ground (arith, h))
  over_of_none_open (suc i) r (x ∷ xs) h at = over_of_none_open i r xs (ground (arith, h)) at

  proceed-IsStuck :
      (answer : String → Result) (i : ℕ) (o : Option (Run Result)) (w : World Result)
      → get_elem? w.runs i ≡ o
      → IsStuck w
      → IsStuck (proceed_run Result answer i o w).1
  unfolding proceed_run
  proceed-IsStuck answer i none w at stuck = stuck
  proceed-IsStuck answer i (some r) w at stuck = rw (over_of_none_open i r w.runs stuck.1 at) stuck

  close-IsStuck :
      (i : ℕ) (r : Run Result) (p : Phase Result) (w : World Result)
      → is_over Result p ≡ true
      → IsStuck w
      → IsStuck (close_phase Result i r p w)
  unfolding close_phase
  close-IsStuck i r fresh w e stuck = absurd (ground (arith, e))
  close-IsStuck i r at_baseline w e stuck = absurd (ground (arith, e))
  close-IsStuck i r (at_engines es) w e stuck = absurd (ground (arith, e))
  close-IsStuck i r at_end w e stuck = absurd (ground (arith, e))
  close-IsStuck i r (whole_body es) w e stuck = stuck
  close-IsStuck i r over w e stuck = stuck

  leave-IsStuck :
      (i : ℕ) (o : Option (Run Result)) (w : World Result)
      → get_elem? w.runs i ≡ o
      → IsStuck w
      → IsStuck (leave_run Result i o w)
  unfolding leave_run
  leave-IsStuck i none w at stuck = stuck
  leave-IsStuck i (some r) w at stuck =
      close-IsStuck i r r.phase w (over_of_none_open i r w.runs stuck.1 at) stuck

  begin-stuck : (r : Run Result) (w : World Result) → IsStuck w → begin_run Result r w ≡ none
  unfolding begin_run
  begin-stuck r w stuck = rw (stuck.0) refl

  stream-IsStuck :
      (c : Choice) (sql : String) (w : World Result)
      → IsStuck w
      → IsStuck (start_stream Result c sql w).1
  unfolding start_stream begun_or_refused
  stream-IsStuck (chosen names) sql w stuck =
      rw (begin-stuck (new_run Result names sql fresh) w stuck) stuck
  stream-IsStuck (unknown_engines names) sql w stuck = stuck
  stream-IsStuck no_engine sql w stuck = stuck

  benchmark-IsStuck :
      (c : Choice) (sql : String) (w : World Result)
      → IsStuck w
      → IsStuck (start_benchmark Result c sql w).1
  unfolding start_benchmark begun_or_refused
  benchmark-IsStuck (chosen names) sql w stuck =
      rw (begin-stuck (new_run Result names sql (whole_body names)) w stuck) stuck
  benchmark-IsStuck (unknown_engines names) sql w stuck = stuck
  benchmark-IsStuck no_engine sql w stuck = stuck

  handle-IsStuck :
      (answer : String → Result) (q : Request Result) (w : World Result)
      → IsStuck w
      → IsStuck (handle Result answer q w).1
  unfolding handle request_cancel
  handle-IsStuck answer (stream names sql) w stuck =
      stream-IsStuck (requested_engines names true) sql w stuck
  handle-IsStuck answer (benchmark names sql) w stuck =
      benchmark-IsStuck (requested_engines names false) sql w stuck
  handle-IsStuck answer (proceed i) w stuck =
      proceed-IsStuck answer i (get_elem? w.runs i) w refl stuck
  handle-IsStuck answer (leave i) w stuck = leave-IsStuck i (get_elem? w.runs i) w refl stuck
  handle-IsStuck answer cancel w stuck = stuck

  handle_all-IsStuck :
      (answer : String → Result) (qs : List (Request Result)) (w : World Result)
      → IsStuck w
      → IsStuck (handle_all Result answer qs w)
  unfolding handle_all
  handle_all-IsStuck answer [] w stuck = stuck
  handle_all-IsStuck answer (q ∷ qs) w stuck =
      handle_all-IsStuck answer qs (handle Result answer q w).1 (handle-IsStuck answer q w stuck)

  open_fresh : (r : Run Result) → r.phase ≡ fresh → is_open Result r ≡ 1
  open_fresh r h = rw h refl

  leave-fresh :
      (i : ℕ) (r : Run Result) (w : World Result)
      → get_elem? w.runs i ≡ some r
      → r.phase ≡ fresh
      → w.locked ≡ true
      → open_count Result w.runs ≡ 1
      → IsStuck (leave_run Result i (get_elem? w.runs i) w)
  unfolding leave_run keep_run
  leave-fresh i r w at e held one =
      subst (λ o. IsStuck (leave_run Result i o w)) (sym at)
        (subst (λ p. IsStuck (close_phase Result i r p w)) (sym e)
          (
            held,
            omega (
              arith,
              open_count-set_at Result i r (in_phase Result r over) w.runs at,
              one,
              open_fresh r e,
            ),
          ))

  -- In a state where one run at a time is kept: a client whose stream was let in and that goes away
  -- before the first line was asked for leaves the lock held for good. Whatever requests follow,
  -- every run is over and the lock is not given back.
  pub abandoned_stream-IsStuck :
      (answer : String → Result) (names : List String) (sql : String) (w w' : World Result)
      (qs : List (Request Result))
      → IsExclusive Result w
      → begin_run Result (new_run Result names sql fresh) w ≡ some w'
      → IsStuck (handle_all Result answer (leave (length w.runs) ∷ qs) w')
  unfolding handle_all handle begin_run
  abandoned_stream-IsStuck answer names sql w w' qs (few, idle) let_in =
      elim (Bool-cases w.locked) [
        | inl held ↦ absurd (ground (arith, held, let_in))
        | inr free ↦
            let r = new_run Result names sql fresh in
            subst (λ x. IsStuck (handle_all Result answer (leave (length w.runs) ∷ qs) x))
              (some-injective _ _ (rw free at let_in))
              (handle_all-IsStuck answer qs _ (
                leave-fresh (length w.runs) r _ (get_elem?-append_last w.runs r) refl refl
                  (ground (arith, few, free, open_count-append Result w.runs (r ∷ [])))))
      ]
