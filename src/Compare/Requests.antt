-- ===== src/Compare/Requests.antt =====
-- The requests that reach the comparison, one at a time, in any order
-- (`run_benchmark` in sequence, `stream_benchmark` and `cancel_comparison`).
use open_htap_stack.Prelude.{ℕ, String, true, false, Option, none, some, List, [], ◌∷◌, get_elem?}
use open_htap_stack.Compare.Engines.{Choice, chosen, unknown_engines, no_engine, requested_engines}
use open_htap_stack.Compare.Runs.{
  fresh, whole_body, Run, World, Line, begin_run, resume_run, close_phase, request_cancel, new_run,
}

module _ (Result : Type 0) where
  -- A request for a stream or for the whole body; the next step of the run with a number; its client
  -- gone; and a cancel.
  pub data Request : Type 0 where
    stream : Option (List String) → String → Request
    benchmark : Option (List String) → String → Request
    proceed : ℕ → Request
    leave : ℕ → Request
    cancel : Request

  pub data Reply : Type 0 where
    bad_request : Choice → Reply
    already_running : Reply
    begun : Reply
    sent : Option (Line Result) → Reply
    nothing : Reply

  unfoldable pub begun_or_refused : Option (World Result) → World Result → Reply × World Result
  begun_or_refused none w = (already_running, w)
  begun_or_refused (some w') w = (begun, w')

  unfoldable pub start_stream : Choice → String → World Result → Reply × World Result
  unfolding begun_or_refused begin_run
  start_stream (chosen names) sql w =
      begun_or_refused (begin_run Result (new_run Result names sql fresh) w) w
  start_stream (unknown_engines names) sql w = (bad_request (unknown_engines names), w)
  start_stream no_engine sql w = (bad_request no_engine, w)

  unfoldable pub start_benchmark : Choice → String → World Result → Reply × World Result
  unfolding begun_or_refused begin_run
  start_benchmark (chosen names) sql w =
      begun_or_refused (begin_run Result (new_run Result names sql (whole_body names)) w) w
  start_benchmark (unknown_engines names) sql w = (bad_request (unknown_engines names), w)
  start_benchmark no_engine sql w = (bad_request no_engine, w)

  unfoldable pub proceed_run :
      (String → Result) → ℕ → Option (Run Result) → World Result → Reply × World Result
  unfolding resume_run
  proceed_run answer i none w = (nothing, w)
  proceed_run answer i (some r) w =
      let (line, w') = resume_run Result answer i r w in (sent line, w')

  unfoldable pub leave_run : ℕ → Option (Run Result) → World Result → World Result
  unfolding close_phase
  leave_run i none w = w
  leave_run i (some r) w = close_phase Result i r r.phase w

  unfoldable pub handle : (String → Result) → Request → World Result → Reply × World Result
  unfolding requested_engines start_stream start_benchmark proceed_run leave_run request_cancel
  handle answer (stream names sql) w = start_stream (requested_engines names true) sql w
  handle answer (benchmark names sql) w = start_benchmark (requested_engines names false) sql w
  handle answer (proceed i) w = proceed_run answer i (get_elem? w.runs i) w
  handle answer (leave i) w = (nothing, leave_run i (get_elem? w.runs i) w)
  handle answer cancel w = (nothing, request_cancel Result w)

  unfoldable pub handle_all : (String → Result) → List Request → World Result → World Result
  unfolding handle
  handle_all answer [] w = w
  handle_all answer (q ∷ qs) w = handle_all answer qs (handle answer q w).1
