-- ===== src/Session/Tests.antt =====
-- Runs of the session code on a new session, and the theorems at concrete inputs.
use open_htap_stack.Prelude.{
  ℕ, ◌+◌, ◌*◌, ◌≤◌, ◌≡◌, refl, true, false, none, some, List, [], ◌∷◌, ◌==◌, if◌then◌else◌, arith,
}
use open_htap_stack.Session.Latency.{percentile, reference_ms}
use open_htap_stack.Session.Median.{count_le, count_ge, percentile-IsMedian}
use open_htap_stack.Session.Store.{
  Event, Store, insert_seq, insert_event, apply_writes, open_session,
}
use open_htap_stack.Session.Step.{answered, lost, run_step}
use open_htap_stack.Session.Timeline.{
  InOrder, HasApplied, next_count, seqs, Request, opening, applying, serve, serve-InOrder,
}
use open_htap_stack.Session.Demo.{verdict, run_step-exact}

abbrev empty : Store
empty = record {
  sessions_open = λ _ _. false;
  session_seq_applied = λ _ _. [];
  session_timeline = λ _ _. [];
}

abbrev opened : Store
opened = record empty { sessions_open = λ _ _. true }

abbrev event : ℕ → Event
event n = record {
  event_id = n;
  event_time = 1000 + n;
  event_type = "session.step";
  payload = "{}";
}

empty-InOrder : InOrder empty
empty-InOrder user session = (0, record { applied = refl; projected = refl })

-- a replay after a lost reply
abbrev requests : List Request
requests =
    opening "u" "s"
    ∷ applying "u" "s" 0 (event 0) (lost 4 "timed out")
    ∷ applying "u" "s" 0 (event 9) (answered 2)
    ∷ applying "u" "s" 2 (event 2) (answered 2)
    ∷ applying "u" "s" 1 (event 1) (answered 2)
    ∷ []

served : seqs ((serve requests empty).session_timeline "u" "s") ≡ 0 ∷ 1 ∷ []
unfolding serve run_step open_session apply_writes insert_seq insert_event
served = refl

serve-InOrder_example : InOrder (serve requests empty)
serve-InOrder_example = serve-InOrder requests empty empty-InOrder

run_step-exact_example :
    ((run_step "apply" "u" "s" 2 (event 2) (answered 3) opened).0.reason ≡ verdict 2 0)
    × ((run_step "apply" "u" "s" 2 (event 2) (answered 3) opened).0.applied ≡ 2 == 0)
    × ((run_step "apply" "u" "s" 2 (event 2) (answered 3) opened).0.timeline_rows ≡ next_count 2 0)
    × HasApplied "u" "s"
        (next_count 2 0)
        (run_step "apply" "u" "s" 2 (event 2) (answered 3) opened).1
run_step-exact_example =
    run_step-exact "apply" "u" "s" 2 0 3 (event 2) opened
      (record { applied = refl; projected = refl }) refl

-- Of four values Python's rounding takes the third, and then 1.235 milliseconds are 1.24.
p50_of_four : percentile (1300 ∷ 1000 ∷ 1235 ∷ 1200 ∷ []) ≡ some 124
unfolding percentile
p50_of_four = refl

one_write_failed : reference_ms 2 (λ i. if i == 100001 then none else some i) ≡ (
  some (record { p50 = some 10000; longest = 10000 }),
  some (record { p50 = some 20000; longest = 20000 }),
)
unfolding reference_ms
one_write_failed = refl

percentile-IsMedian_example :
    (v p : ℕ) × (percentile (1300 ∷ 1000 ∷ 1235 ∷ 1200 ∷ []) ≡ some p)
    × (10 * p ≤ v + 5)
    × (v ≤ 10 * p + 5)
    × (4 ≤ 2 * count_le v (1300 ∷ 1000 ∷ 1235 ∷ 1200 ∷ []))
    × (4 ≤ 2 * count_ge v (1300 ∷ 1000 ∷ 1235 ∷ 1200 ∷ []))
percentile-IsMedian_example = percentile-IsMedian (1300 ∷ 1000 ∷ 1235 ∷ 1200 ∷ []) (omega arith)
