-- ===== src/Console/Tests.antt =====
-- Runs of the console on small inputs, and the theorems at inputs that meet their hypotheses.
use open_htap_stack.Prelude.{ℕ, suc, ◌≡◌, refl, true, false, none, some, List, [], ◌∷◌, All}
use open_htap_stack.Console.Accord.{AccordSql, result_set, no_result, rejected}
use open_htap_stack.Console.Routes.{
  Event, arrive, run_next, complete, Response, already_running, serve,
}
use open_htap_stack.Console.Reported.{IsComplete, serve-IsComplete}

abbrev down : AccordSql
down = record { conn = false; connected = false }

-- The second statement is rejected; another request arrives meanwhile.
abbrev events : List Event
events =
    arrive 1 ("CREATE TABLE t" ∷ "INSERT" ∷ "SELECT" ∷ []) false none
    ∷ run_next none no_result
    ∷ arrive 2 ("SELECT" ∷ []) true none
    ∷ run_next none (rejected "UNIQUE constraint violation")
    ∷ complete
    ∷ run_next none (result_set ("n" ∷ []) ((some "1" ∷ []) ∷ []))
    ∷ complete
    ∷ []

abbrev refusals : List Response → ℕ
refusals [] = 0
refusals (already_running id ∷ rs) = suc (refusals rs)
refusals (r ∷ rs) = refusals rs

one_refusal : refusals (serve events (record { holder = none; client = down })).0 ≡ 1
unfolding serve
one_refusal = refl

lock_free : (serve events (record { holder = none; client = down })).1.holder ≡ none
unfolding serve
lock_free = refl

serve-IsComplete_example : All IsComplete (serve events (record { holder = none; client = down })).0
serve-IsComplete_example = serve-IsComplete events down
