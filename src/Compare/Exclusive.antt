-- ===== src/Compare/Exclusive.antt =====
-- One comparison at a time: what the lock guarantees over any sequence of requests.
use open_htap_stack.Prelude.{
  ℕ, zero, suc, ◌+◌, ◌≤◌, ◌≡◌, refl, ap, String, true, false, Option, none, some, List, [], ◌∷◌,
  ◌++◌, get_elem?, arith, inl, inr, Bool-cases, if◌then◌else◌,
}
use open_htap_stack.Compare.Engines.{Choice, chosen, unknown_engines, no_engine, requested_engines}
use open_htap_stack.Compare.Runs.{
  Phase, fresh, at_baseline, at_engines, at_end, whole_body, over, Run, World, set_at, begin_run,
  end_run, keep_run, in_phase, advance, is_over, settle, resume_run, close_phase, request_cancel,
  new_run,
}
use open_htap_stack.Compare.Requests.{
  begun_or_refused, Request, stream, benchmark, proceed, leave, cancel, start_stream,
  start_benchmark, proceed_run, leave_run, handle, handle_all,
}

module _ (Result : Type 0) where
  -- 1 for a run that is not over.
  abbrev pub is_open : Run Result → ℕ
  is_open r = if is_over Result r.phase then 0 else 1

  -- How many runs are not over.
  abbrev pub open_count : List (Run Result) → ℕ
  open_count [] = 0
  open_count (r ∷ rs) = is_open r + open_count rs

  pub open_count-append :
      (xs ys : List (Run Result)) → open_count (xs ++ ys) ≡ open_count xs + open_count ys
  open_count-append [] ys = omega arith
  open_count-append (x ∷ xs) ys = omega (arith, open_count-append xs ys)

  pub open_count-set_at :
      (i : ℕ) (r r' : Run Result) (rs : List (Run Result))
      → get_elem? rs i ≡ some r
      → open_count (set_at Result i r' rs) + is_open r ≡ open_count rs + is_open r'
  unfolding set_at
  open_count-set_at i r r' [] h = absurd (ground (arith, h))
  open_count-set_at zero r r' (x ∷ xs) h =
      omega (arith, ap (λ o. is_open (elim o [ none ↦ x | some y ↦ y ])) h)
  open_count-set_at (suc i) r r' (x ∷ xs) h = omega (arith, open_count-set_at i r r' xs h)

  -- As many runs are open as the lock lets through, and without the lock no run is in flight and none
  -- is cancelled.
  abbrev pub IsExclusive : World Result → Type 0
  IsExclusive w =
      (open_count w.runs ≤ (if w.locked then 1 else 0))
      × (w.locked ≡ false → (w.in_flight ≡ none) × (w.cancel_requested ≡ false))

  start-IsExclusive :
      (r : Run Result) (w : World Result)
      → is_open r ≤ 1
      → IsExclusive w
      → IsExclusive (elim (begin_run Result r w) [ none ↦ w | some w' ↦ w' ])
  unfolding begin_run
  start-IsExclusive r w one (few, idle) = elim (Bool-cases w.locked) [
    | inl held ↦ rw held (ground (arith, few, held), λ h. absurd (ground (arith, h)))
    | inr free ↦ rw free (
      omega (arith, open_count-append w.runs (r ∷ []), one, few_of free),
      λ h. absurd (ground (arith, h)),
    )
  ]
    where
      few_of : w.locked ≡ false → open_count w.runs ≡ 0
      few_of free = ground (arith, few, free)

  end-IsExclusive :
      (i : ℕ) (r r' : Run Result) (w : World Result)
      → get_elem? w.runs i ≡ some r
      → is_open r ≡ 1
      → is_open r' ≡ 0
      → IsExclusive w
      → IsExclusive (end_run Result i r' w)
  unfolding end_run
  end-IsExclusive i r r' w at was now (few, idle) =
      (ground (arith, few, was, now, open_count-set_at i r r' w.runs at), λ h. (refl, refl))

  keep-IsExclusive :
      (i : ℕ) (r r' : Run Result) (w : World Result)
      → get_elem? w.runs i ≡ some r
      → is_open r' ≤ is_open r
      → IsExclusive w
      → IsExclusive (keep_run Result i r' w)
  unfolding keep_run
  keep-IsExclusive i r r' w at less (few, idle) =
      (omega (arith, few, less, open_count-set_at i r r' w.runs at), idle)

  settle-IsExclusive :
      (i : ℕ) (r r' : Run Result) (w : World Result)
      → get_elem? w.runs i ≡ some r
      → is_open r ≡ 1
      → IsExclusive w
      → IsExclusive (settle Result i r' w)
  unfolding settle
  settle-IsExclusive i r r' w at was ok = elim (Bool-cases (is_over Result r'.phase)) [
    | inl ended ↦ rw ended (end-IsExclusive i r r' w at was (ground (arith, ended)) ok)
    | inr going ↦ rw going (keep-IsExclusive i r r' w at (ground (arith, going, was)) ok)
  ]

  resume-IsExclusive :
      (answer : String → Result) (i : ℕ) (r : Run Result) (w : World Result)
      → get_elem? w.runs i ≡ some r
      → IsExclusive w
      → IsExclusive (resume_run Result answer i r w).1
  unfolding resume_run
  resume-IsExclusive answer i r w at ok = elim (Bool-cases (is_over Result r.phase)) [
    | inl ended ↦ rw ended ok
    | inr going ↦ rw going (
        settle-IsExclusive i r (advance Result answer w.cancel_requested r r.phase).1 w at
          (ground (arith, going)) ok)
  ]

  close-IsExclusive :
      (i : ℕ) (r : Run Result) (p : Phase Result) (w : World Result)
      → r.phase ≡ p
      → get_elem? w.runs i ≡ some r
      → IsExclusive w
      → IsExclusive (close_phase Result i r p w)
  unfolding close_phase
  close-IsExclusive i r fresh w e at ok =
      keep-IsExclusive i r (in_phase Result r over) w at (omega arith) ok
  close-IsExclusive i r at_baseline w e at ok =
      end-IsExclusive i r (in_phase Result r over) w at (rw e refl) refl ok
  close-IsExclusive i r (at_engines es) w e at ok =
      end-IsExclusive i r (in_phase Result r over) w at (rw e refl) refl ok
  close-IsExclusive i r at_end w e at ok =
      end-IsExclusive i r (in_phase Result r over) w at (rw e refl) refl ok
  close-IsExclusive i r (whole_body es) w e at ok = ok
  close-IsExclusive i r over w e at ok = ok

  cancel-IsExclusive : (w : World Result) → IsExclusive w → IsExclusive (request_cancel Result w)
  unfolding request_cancel
  cancel-IsExclusive w (few, idle) = (few, λ h. ((idle h).0, rw ((idle h).0) ((idle h).1)))

  begun-IsExclusive :
      (o : Option (World Result)) (w : World Result)
      → IsExclusive (elim o [ none ↦ w | some w' ↦ w' ])
      → IsExclusive (begun_or_refused Result o w).1
  unfolding begun_or_refused
  begun-IsExclusive none w ok = ok
  begun-IsExclusive (some w') w ok = ok

  start_stream-IsExclusive :
      (c : Choice) (sql : String) (w : World Result)
      → IsExclusive w
      → IsExclusive (start_stream Result c sql w).1
  unfolding start_stream
  start_stream-IsExclusive (chosen names) sql w ok =
      begun-IsExclusive (begin_run Result (new_run Result names sql fresh) w) w
        (start-IsExclusive (new_run Result names sql fresh) w (omega arith) ok)
  start_stream-IsExclusive (unknown_engines names) sql w ok = ok
  start_stream-IsExclusive no_engine sql w ok = ok

  start_benchmark-IsExclusive :
      (c : Choice) (sql : String) (w : World Result)
      → IsExclusive w
      → IsExclusive (start_benchmark Result c sql w).1
  unfolding start_benchmark
  start_benchmark-IsExclusive (chosen names) sql w ok =
      begun-IsExclusive (begin_run Result (new_run Result names sql (whole_body names)) w) w
        (start-IsExclusive (new_run Result names sql (whole_body names)) w (omega arith) ok)
  start_benchmark-IsExclusive (unknown_engines names) sql w ok = ok
  start_benchmark-IsExclusive no_engine sql w ok = ok

  proceed-IsExclusive :
      (answer : String → Result) (i : ℕ) (o : Option (Run Result)) (w : World Result)
      → get_elem? w.runs i ≡ o
      → IsExclusive w
      → IsExclusive (proceed_run Result answer i o w).1
  unfolding proceed_run
  proceed-IsExclusive answer i none w at ok = ok
  proceed-IsExclusive answer i (some r) w at ok = resume-IsExclusive answer i r w at ok

  leave-IsExclusive :
      (i : ℕ) (o : Option (Run Result)) (w : World Result)
      → get_elem? w.runs i ≡ o
      → IsExclusive w
      → IsExclusive (leave_run Result i o w)
  unfolding leave_run
  leave-IsExclusive i none w at ok = ok
  leave-IsExclusive i (some r) w at ok = close-IsExclusive i r r.phase w refl at ok

  handle-IsExclusive :
      (answer : String → Result) (q : Request Result) (w : World Result)
      → IsExclusive w
      → IsExclusive (handle Result answer q w).1
  unfolding handle
  handle-IsExclusive answer (stream names sql) w ok =
      start_stream-IsExclusive (requested_engines names true) sql w ok
  handle-IsExclusive answer (benchmark names sql) w ok =
      start_benchmark-IsExclusive (requested_engines names false) sql w ok
  handle-IsExclusive answer (proceed i) w ok =
      proceed-IsExclusive answer i (get_elem? w.runs i) w refl ok
  handle-IsExclusive answer (leave i) w ok = leave-IsExclusive i (get_elem? w.runs i) w refl ok
  handle-IsExclusive answer cancel w ok = cancel-IsExclusive w ok

  -- From a state where this holds, such as the first, and whatever requests come, in whatever order
  -- and each served in one step: while the lock is held at most one run is not over, and while it is free
  -- every run is over, none is recorded as in flight, and no cancel is left over for the next run.
  pub handle_all-IsExclusive :
      (answer : String → Result) (qs : List (Request Result)) (w : World Result)
      → IsExclusive w
      → IsExclusive (handle_all Result answer qs w)
  unfolding handle_all
  handle_all-IsExclusive answer [] w ok = ok
  handle_all-IsExclusive answer (q ∷ qs) w ok =
      handle_all-IsExclusive answer qs (handle Result answer q w).1
        (handle-IsExclusive answer q w ok)
