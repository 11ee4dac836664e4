-- ===== src/Console/Reported.antt =====
-- What backend/app/routes/sql_console.py reports of the statements of a request.
use mathlib.Core.List.{reverse, reverse-append, append-nil, append_assoc}
use open_htap_stack.Prelude.{
  ℕ, zero, suc, ◌≤◌, ◌≡◌, refl, sym, ◌∙◌, ap, subst, String, Bool, true, false, Option, none, some,
  List, [], ◌∷◌, ◌++◌, map, length, take, All, arith,
}
use open_htap_stack.Console.Accord.{
  AccordSql, Opening, Answer, result_set, no_result, rejected, Executed, executed, raised, opened,
  run_statement, open_and_run, execute, ensure_ready,
}
use open_htap_stack.Console.Routes.{
  max_rows, StatementReport, Statement, report_of, run_one, Running, Console, Event, arrive,
  run_next, complete, Response, unavailable, already_running, begun, answered, nothing, acquire,
  admit, run_left, run_holder, finish, finish_holder, happen, serve,
}

abbrev sqls : List StatementReport → List String
sqls rs = map (λ (r : StatementReport). r.sql) rs

-- At most 500 rows are sent, and their number before the cut is told.
abbrev pub IsCut : StatementReport → Type 0
IsCut r = (length r.rows ≤ max_rows) × (length r.rows ≤ r.row_count)

length-take :
    (n : ℕ) (rows : List (List (Option String)))
    → (length (take n rows) ≤ n) × (length (take n rows) ≤ length rows)
length-take zero rows = (omega arith, omega arith)
length-take (suc n) [] = (omega arith, omega arith)
length-take (suc n) (r ∷ rows) =
    let (a, b) = length-take n rows in (omega (arith, a), omega (arith, b))

report_of-IsCut : (sql : String) (e : Executed) → IsCut (report_of sql e)
unfolding report_of
report_of-IsCut sql (raised e) = (omega arith, omega arith)
report_of-IsCut sql (executed columns rows) = length-take max_rows rows

report_of-sql : (sql : String) (e : Executed) → (report_of sql e).sql ≡ sql
unfolding report_of
report_of-sql sql (raised e) = refl
report_of-sql sql (executed columns rows) = refl

run_one-sql : (s : Statement) (c : AccordSql) → (run_one s c).0.sql ≡ s.sql
unfolding run_one
run_one-sql s c = report_of-sql s.sql (execute s.opening s.answer c).0

run_one-IsCut : (s : Statement) (c : AccordSql) → IsCut (run_one s c).0
unfolding run_one
run_one-IsCut s c = report_of-IsCut s.sql (execute s.opening s.answer c).0

All-snoc :
    (rs : List StatementReport) (r : StatementReport)
    → All IsCut rs
    → IsCut r
    → All IsCut (rs ++ r ∷ [])
All-snoc [] r h k = (k, tt)
All-snoc (x ∷ rs) r h k = (h.0, All-snoc rs r h.1 k)

sqls-snoc :
    (rs : List StatementReport) (r : StatementReport) → sqls (rs ++ r ∷ []) ≡ sqls rs ++ r.sql ∷ []
sqls-snoc [] r = refl
sqls-snoc (x ∷ rs) r = ap (λ (l : List String). x.sql ∷ l) (sqls-snoc rs r)

-- A running request has reported its statements in order, up to those that are left.
abbrev InOrder : List String → List String → List StatementReport → Type 0
InOrder asked left made = (sqls made ++ left ≡ asked) × All IsCut made

InOrder-step :
    (asked left : List String) (sql : String) (made : List StatementReport) (r : StatementReport)
    → r.sql ≡ sql
    → IsCut r
    → InOrder asked (sql ∷ left) (reverse made)
    → InOrder asked left (reverse (r ∷ made))
InOrder-step asked left sql made r e cut (order, all) =
    subst (λ (l : List StatementReport). InOrder asked left l) (sym (reverse-append (r ∷ []) made))
      (
        ap (λ (l : List String). l ++ left) (sqls-snoc (reverse made) r)
            ∙ append_assoc (sqls (reverse made)) (r.sql ∷ []) left
            ∙ ap (λ (t : String). sqls (reverse made) ++ t ∷ left) e
            ∙ order,
        All-snoc (reverse made) r all cut,
      )

abbrev Progresses : Option Running → Type 0
Progresses none = Unit {0}
Progresses (some r) = InOrder r.asked r.left (reverse r.made)

-- An answer holds one report for each statement that was asked for, in order, each cut to 500 rows.
abbrev pub IsComplete : Response → Type 0
IsComplete (answered id asked result) =
    (map (λ (r : StatementReport). r.sql) result.statements ≡ asked) × All IsCut result.statements
IsComplete (unavailable id) = Unit {0}
IsComplete (already_running id) = Unit {0}
IsComplete (begun id) = Unit {0}
IsComplete nothing = Unit {0}

-- What a step makes of a sound console.
abbrev Sound : Response × Console → Type 0
Sound (response, s) = IsComplete response × Progresses s.holder

acquire-Sound :
    (id : ℕ) (asked : List String) (holder : Option Running) (c : AccordSql)
    → Progresses holder
    → Sound (acquire id asked holder c)
unfolding acquire
acquire-Sound id asked none c h = (tt, (refl, tt))
acquire-Sound id asked (some r) c h = (tt, h)

admit-Sound :
    (id : ℕ) (asked : List String) (holder : Option Running) (ready : Bool) (c : AccordSql)
    → Progresses holder
    → Sound (admit id asked holder (ready, c))
unfolding admit
admit-Sound id asked holder false c h = (tt, h)
admit-Sound id asked holder true c h = acquire-Sound id asked holder c h

run_left-Progresses :
    (opening : Opening) (answer : Answer) (id : ℕ) (asked left : List String)
    (made : List StatementReport) (c : AccordSql)
    → InOrder asked left (reverse made)
    → Progresses (run_left opening answer id asked left made c).holder
unfolding run_left
run_left-Progresses opening answer id asked [] made c h = h
run_left-Progresses opening answer id asked (sql ∷ left) made c h =
    let s : Statement = record { sql = sql; opening = opening; answer = answer } in
    InOrder-step asked left sql made (run_one s c).0 (run_one-sql s c) (run_one-IsCut s c) h

run_holder-Progresses :
    (opening : Opening) (answer : Answer) (holder : Option Running) (c : AccordSql)
    → Progresses holder
    → Progresses (run_holder opening answer holder c).holder
unfolding run_holder
run_holder-Progresses opening answer none c h = tt
run_holder-Progresses opening answer (some r) c h =
    run_left-Progresses opening answer r.id r.asked r.left r.made c h

finish-Sound :
    (id : ℕ) (asked left : List String) (made : List StatementReport) (c : AccordSql)
    → InOrder asked left (reverse made)
    → Sound (finish id asked left made c)
unfolding finish
finish-Sound id asked [] made c (order, all) =
    ((sym (append-nil (sqls (reverse made))) ∙ order, all), tt)
finish-Sound id asked (sql ∷ left) made c h = (tt, h)

finish_holder-Sound :
    (holder : Option Running) (c : AccordSql) → Progresses holder → Sound (finish_holder holder c)
unfolding finish_holder
finish_holder-Sound none c h = (tt, tt)
finish_holder-Sound (some r) c h = finish-Sound r.id r.asked r.left r.made c h

happen-Sound : (ev : Event) (s : Console) → Progresses s.holder → Sound (happen ev s)
unfolding happen finish_holder
happen-Sound (arrive id asked probe opening) s h =
    admit-Sound id asked s.holder (ensure_ready probe opening s.client).0
      (ensure_ready probe opening s.client).1 h
happen-Sound (run_next opening answer) s h =
    (tt, run_holder-Progresses opening answer s.holder s.client h)
happen-Sound complete s h = finish_holder-Sound s.holder s.client h

serve_from-IsComplete :
    (events : List Event) (s : Console) → Progresses s.holder → All IsComplete (serve events s).0
unfolding serve
serve_from-IsComplete [] s h = tt
serve_from-IsComplete (ev ∷ events) s h =
    let sound = happen-Sound ev s h in
    (sound.0, serve_from-IsComplete events (happen ev s).1 sound.1)

-- Over requests that arrive in any order while another one runs, and whatever the server does to any of
-- their probes and statements: every request that is answered is answered with one report for each of
-- its own statements, in order, those behind a failed one included, none with more than 500 rows or
-- than it counts.
pub serve-IsComplete :
    (events : List Event) (c : AccordSql)
    → All IsComplete (serve events (record { holder = none; client = c })).0
serve-IsComplete events c = serve_from-IsComplete events (record { holder = none; client = c }) tt

-- What a statement comes to on a connection that works.
abbrev pub outcome : Answer → Executed
outcome (result_set columns rows) = executed columns rows
outcome no_result = executed [] []
outcome (rejected e) = raised e

run_statement-outcome : (a : Answer) (c : AccordSql) → (run_statement a c).0 ≡ outcome a
unfolding run_statement
run_statement-outcome (result_set columns rows) c = refl
run_statement-outcome no_result c = refl
run_statement-outcome (rejected e) c = refl

execute-outcome :
    (a : Answer) (conn connected : Bool)
    → (execute none a (record { conn = conn; connected = connected })).0 ≡ outcome a
unfolding execute open_and_run
execute-outcome a true connected = run_statement-outcome a _
execute-outcome a false connected = run_statement-outcome a opened

-- A statement that costs the connection costs no other one: while a connection can be opened, each
-- statement is reported by what the server answers to it, whatever the statements and probes before
-- have left of the connection.
pub run_one-outcome :
    (sql : String) (a : Answer) (c : AccordSql)
    → (run_one (record { sql = sql; opening = none; answer = a }) c).0 ≡ report_of sql (outcome a)
unfolding run_one
run_one-outcome sql a c = ap (report_of sql) (execute-outcome a c.conn c.connected)
