-- ===== src/Compare/Tests.antt =====
-- Runs of the comparison, and the theorems at concrete inputs.
use open_htap_stack.Prelude.{
  ℕ, ◌≡◌, refl, String, true, false, none, some, List, [], ◌∷◌, contains, arith,
}
use open_htap_stack.Compare.Engines.{chosen, requested_engines}
use open_htap_stack.Compare.Runs.{fresh, at_engines, Run, World, begin_run, new_run}
use open_htap_stack.Compare.Requests.{
  Request, stream, benchmark, proceed, leave, cancel, handle_all,
}
use open_htap_stack.Compare.Exclusive.{IsExclusive, handle_all-IsExclusive}
use open_htap_stack.Compare.Stream.{proceeds, begin_run-frees}
use open_htap_stack.Compare.Abandoned.{IsStuck, abandoned_stream-IsStuck}

abbrev names : List String
names = "spark" ∷ "cassandra" ∷ "spark" ∷ []

abbrev ask : String
ask = "SELECT count(*) FROM events"

-- every engine answers with a number of rows
abbrev answer : String → ℕ
answer e = 7

abbrev idle : World ℕ
idle = record { locked = false; in_flight = none; cancel_requested = false; runs = [] }

idle-IsExclusive : IsExclusive ℕ idle
idle-IsExclusive = (omega arith, λ h. (refl, refl))

abbrev running : World ℕ
running = record {
  locked = true;
  in_flight = some 0;
  cancel_requested = false;
  runs = new_run ℕ ("spark" ∷ "cassandra" ∷ []) ask fresh ∷ [];
}

kept_order : requested_engines (some names) true ≡ chosen ("spark" ∷ "cassandra" ∷ [])
unfolding requested_engines contains
kept_order = refl

display_order : requested_engines (some names) false ≡ chosen ("cassandra" ∷ "spark" ∷ [])
unfolding requested_engines contains
display_order = refl

let_in : begin_run ℕ (new_run ℕ ("spark" ∷ "cassandra" ∷ []) ask fresh) idle ≡ some running
unfolding begin_run
let_in = refl

-- a stream, a second one that is refused, and a client that leaves
abbrev requests : List (Request ℕ)
requests =
    stream (some names) ask
    ∷ proceed 0
    ∷ benchmark none ask
    ∷ cancel
    ∷ proceed 0
    ∷ leave 0
    ∷ benchmark none ask
    ∷ []

handle_all-IsExclusive_example : IsExclusive ℕ (handle_all ℕ answer requests idle)
handle_all-IsExclusive_example = handle_all-IsExclusive ℕ answer requests idle idle-IsExclusive

begin_run-frees_example : (handle_all ℕ answer (proceeds ℕ 0 6) running).locked ≡ false
begin_run-frees_example =
    begin_run-frees ℕ answer ("spark" ∷ "cassandra" ∷ []) ask fresh idle running (omega arith) refl
      let_in

abandoned_stream-IsStuck_example :
    IsStuck ℕ (handle_all ℕ answer (leave 0 ∷ benchmark none ask ∷ cancel ∷ []) running)
abandoned_stream-IsStuck_example =
    abandoned_stream-IsStuck ℕ answer ("spark" ∷ "cassandra" ∷ []) ask idle running
      (benchmark none ask ∷ cancel ∷ []) idle-IsExclusive let_in

abbrev halfway : Run ℕ
halfway = record {
  engines = "spark" ∷ "cassandra" ∷ [];
  sql = ask;
  results = ("spark", 7) ∷ [];
  phase = at_engines ("cassandra" ∷ []);
}

abbrev midstream : World ℕ
midstream = record {
  locked = true;
  in_flight = some 0;
  cancel_requested = false;
  runs = halfway ∷ [];
}
