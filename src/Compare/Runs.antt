-- ===== src/Compare/Runs.antt =====
-- The run of a comparison: `_begin_run`, `_end_run`, `_run_sequence`, the generator of
-- `stream_benchmark`, the sequential `run_benchmark` and the flag of `cancel_comparison` (backend/app/routes/query.py). What `_run` reports of an engine is a parameter.
use open_htap_stack.Prelude.{
  ℕ, zero, suc, String, Bool, true, false, Option, none, some, List, [], ◌∷◌, ◌++◌, length, insert,
  if◌then◌else◌,
}

module _ (Result : Type 0) where
  -- Where a run stands: a generator that was not started yet; before the baseline; with engines left;
  -- after its last line; the route that answers with the whole body, with engines left; and over.
  pub data Phase : Type 0 where
    fresh : Phase
    at_baseline : Phase
    at_engines : List String → Phase
    at_end : Phase
    whole_body : List String → Phase
    over : Phase

  pub record Run : Type 0 where
    pub engines : List String
    pub sql : String
    pub results : List (String × Result)
    pub phase : Phase

  -- `_comparison_lock`, `_in_flight` (which run it names), `_cancel_requested`, and all runs so far.
  pub record World : Type 0 where
    pub locked : Bool
    pub in_flight : Option ℕ
    pub cancel_requested : Bool
    pub runs : List Run

  -- A line of the stream.
  pub data Line : Type 0 where
    start : List String → String → Line
    baseline : Line
    engine : String → Result → Line
    done : Bool → Line

  unfoldable pub set_at : ℕ → Run → List Run → List Run
  set_at i r [] = []
  set_at zero r (x ∷ xs) = r ∷ xs
  set_at (suc i) r (x ∷ xs) = x ∷ set_at i r xs

  -- `_begin_run`; `none` is the status 409.
  unfoldable pub begin_run : Run → World → Option World
  begin_run r w =
      if w.locked
      then none
      else some (record {
        locked = true;
        in_flight = some (length w.runs);
        cancel_requested = false;
        runs = w.runs ++ r ∷ [];
      })

  -- `_end_run`, with the run as it is left.
  unfoldable pub end_run : ℕ → Run → World → World
  unfolding set_at
  end_run i r w = record {
    locked = false;
    in_flight = none;
    cancel_requested = false;
    runs = set_at i r w.runs;
  }

  -- A run that goes on.
  unfoldable pub keep_run : ℕ → Run → World → World
  unfolding set_at
  keep_run i r w = record {
    locked = w.locked;
    in_flight = w.in_flight;
    cancel_requested = w.cancel_requested;
    runs = set_at i r w.runs;
  }

  abbrev pub in_phase : Run → Phase → Run
  in_phase r p = record { engines = r.engines; sql = r.sql; results = r.results; phase = p }

  -- `results[engine] = ...`
  unfoldable pub answered_by : String → Result → Run → Phase → Run
  answered_by e a r p = record {
    engines = r.engines;
    sql = r.sql;
    results = insert e a r.results;
    phase = p;
  }

  -- The next step of a run, up to the line that it gives or to its end.
  unfoldable pub advance : (String → Result) → Bool → Run → Phase → Option Line × Run
  unfolding answered_by
  advance answer cancelled r fresh = (some (start r.engines r.sql), in_phase r at_baseline)
  advance answer cancelled r at_baseline = (some baseline, in_phase r (at_engines r.engines))
  advance answer cancelled r (at_engines []) = (some (done cancelled), in_phase r at_end)
  advance answer cancelled r (at_engines (e ∷ es)) =
      if cancelled
      then (some (done cancelled), in_phase r at_end)
      else (some (engine e (answer e)), answered_by e (answer e) r (at_engines es))
  advance answer cancelled r at_end = (none, in_phase r over)
  advance answer cancelled r (whole_body []) = (none, in_phase r over)
  advance answer cancelled r (whole_body (e ∷ es)) =
      if cancelled
      then (none, in_phase r over)
      else (none, answered_by e (answer e) r (whole_body es))
  advance answer cancelled r over = (none, in_phase r over)

  abbrev pub is_over : Phase → Bool
  is_over over = true
  is_over fresh = false
  is_over at_baseline = false
  is_over (at_engines es) = false
  is_over at_end = false
  is_over (whole_body es) = false

  -- The `finally` of both routes: a run that comes to its end gives the lock back.
  unfoldable pub settle : ℕ → Run → World → World
  unfolding end_run keep_run
  settle i r w = if is_over r.phase then end_run i r w else keep_run i r w

  unfoldable pub resume_run : (String → Result) → ℕ → Run → World → Option Line × World
  unfolding advance settle
  resume_run answer i r w =
      if is_over r.phase
      then (none, w)
      else let (line, r') = advance answer w.cancel_requested r r.phase in (line, settle i r' w)

  -- The generator is closed, for a client that has gone away. One that was not started runs none of
  -- its body, its `finally` included. The route with the whole body goes on without its client.
  unfoldable pub close_phase : ℕ → Run → Phase → World → World
  unfolding end_run keep_run
  close_phase i r fresh w = keep_run i (in_phase r over) w
  close_phase i r at_baseline w = end_run i (in_phase r over) w
  close_phase i r (at_engines es) w = end_run i (in_phase r over) w
  close_phase i r at_end w = end_run i (in_phase r over) w
  close_phase i r (whole_body es) w = w
  close_phase i r over w = w

  -- The flag of `cancel_comparison`: its look at `_in_flight` and the setting are taken as one step, with
  -- no end of a run between the two.
  unfoldable pub request_cancel : World → World
  request_cancel w = record {
    locked = w.locked;
    in_flight = w.in_flight;
    cancel_requested = elim w.in_flight [ none ↦ w.cancel_requested | some i ↦ true ];
    runs = w.runs;
  }

  -- What a run of these engines begins as.
  abbrev pub new_run : List String → String → Phase → Run
  new_run names sql phase = record { engines = names; sql = sql; results = []; phase = phase }
