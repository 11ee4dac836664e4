-- ===== src/Console/Routes.antt =====
-- The routes of backend/app/routes/sql_console.py that run statements: what they report, and the lock
-- that lets one request run at a time. Durations are left out.
use Prim.Native.String.{◌++◌ as ◌+s+◌}
use open_htap_stack.Prelude.{
  ℕ, ◌+◌, String, Bool, true, false, Option, none, some, List, [], ◌∷◌, ◌=s=◌, if◌then◌else◌,
  length, take,
}
use mathlib.Core.List.{reverse}
use open_htap_stack.Console.Accord.{
  AccordSql, Opening, Answer, Executed, executed, raised, ensure_ready, execute,
}

abbrev pub max_rows : ℕ
max_rows = 500

-- `SqlStatementResult`
pub record StatementReport : Type 0 where
  pub sql : String
  pub columns : List String
  pub rows : List (List (Option String))
  pub row_count : ℕ
  pub error : Option String

-- A statement with what the server does when it comes to it.
pub record Statement : Type 0 where
  pub sql : String
  pub opening : Opening
  pub answer : Answer

unfoldable pub report_of : String → Executed → StatementReport
report_of sql (raised e) = record {
  sql = sql;
  columns = [];
  rows = [];
  row_count = 0;
  error = some e;
}
report_of sql (executed columns rows) = record {
  sql = sql;
  columns = columns;
  rows = take max_rows rows;
  row_count = length rows;
  error = none;
}

-- `_run_one`
unfoldable pub run_one : Statement → AccordSql → StatementReport × AccordSql
unfolding report_of execute
run_one s c =
    let (outcome, after) = execute s.opening s.answer c in (report_of s.sql outcome, after)

-- `if r.error`: an error with an empty text does not count.
abbrev pub counted_error : Option String → ℕ
counted_error none = 0
counted_error (some e) = if e =s= "" then 0 else 1

unfoldable pub error_count : List StatementReport → ℕ
error_count [] = 0
error_count (r ∷ rs) = counted_error r.error + error_count rs

-- `SqlConsoleResult`
pub record ConsoleResult : Type 0 where
  pub statements : List StatementReport
  pub error_count : ℕ

-- The statements of /tables.
abbrev pub counted_tables : List String
counted_tables = "operators" ∷ "drones" ∷ "zones" ∷ "flights" ∷ "flight_legs" ∷ []

unfoldable pub count_statements : List String → List String
count_statements [] = []
count_statements (table ∷ tables) =
    ("SELECT COUNT(*) AS n FROM " +s+ table +s+ ";") ∷ count_statements tables

-- A request that holds the module's lock: its statements, those that are left, and the reports of the
-- others, newest first.
pub record Running : Type 0 where
  pub id : ℕ
  pub asked : List String
  pub left : List String
  pub made : List StatementReport

-- The lock, by who holds it, and the client.
pub record Console : Type 0 where
  pub holder : Option Running
  pub client : AccordSql

-- What happens, in any order: a request arrives with its statements, and with the probe and the opening
-- that `_require_connection` meets; the running one runs its next statement; the running one ends, once
-- no statement is left.
pub data Event : Type 0 where
  arrive : ℕ → List String → Bool → Opening → Event
  run_next : Opening → Answer → Event
  complete : Event

pub data Response : Type 0 where
  -- the HTTP errors 503 and 409
  unavailable already_running : ℕ → Response
  begun : ℕ → Response
  answered : ℕ → List String → ConsoleResult → Response
  nothing : Response

unfoldable pub acquire : ℕ → List String → Option Running → AccordSql → Response × Console
acquire id asked none c = (
  begun id,
  record { holder = some (record { id = id; asked = asked; left = asked; made = [] }); client = c },
)
acquire id asked (some r) c = (already_running id, record { holder = some r; client = c })

-- `_require_connection`, and the lock.
unfoldable pub admit : ℕ → List String → Option Running → Bool × AccordSql → Response × Console
unfolding acquire
admit id asked holder (false, c) = (unavailable id, record { holder = holder; client = c })
admit id asked holder (true, c) = acquire id asked holder c

-- `_run_one` on the next statement of those that are left.
unfoldable pub run_left :
    Opening → Answer → ℕ → List String → List String → List StatementReport → AccordSql → Console
unfolding run_one
run_left opening answer id asked [] made c = record {
  holder = some (record { id = id; asked = asked; left = []; made = made });
  client = c;
}
run_left opening answer id asked (sql ∷ left) made c =
    let (report, after) = run_one (record { sql = sql; opening = opening; answer = answer }) c in
    record {
      holder = some (record { id = id; asked = asked; left = left; made = report ∷ made });
      client = after;
    }

unfoldable pub run_holder : Opening → Answer → Option Running → AccordSql → Console
unfolding run_left
run_holder opening answer none c = record { holder = none; client = c }
run_holder opening answer (some r) c = run_left opening answer r.id r.asked r.left r.made c

-- The end of a route, whose `finally` gives the lock back.
unfoldable pub finish :
    ℕ → List String → List String → List StatementReport → AccordSql → Response × Console
unfolding error_count
finish id asked [] made c = (
  answered id asked
      (record { statements = reverse made; error_count = error_count (reverse made) }),
  record { holder = none; client = c },
)
finish id asked (sql ∷ left) made c = (
  nothing,
  record {
    holder = some (record { id = id; asked = asked; left = sql ∷ left; made = made });
    client = c;
  },
)

unfoldable pub finish_holder : Option Running → AccordSql → Response × Console
unfolding finish
finish_holder none c = (nothing, record { holder = none; client = c })
finish_holder (some r) c = finish r.id r.asked r.left r.made c

unfoldable pub happen : Event → Console → Response × Console
unfolding admit run_holder finish_holder ensure_ready
happen (arrive id asked probe opening) s =
    admit id asked s.holder (ensure_ready probe opening s.client)
happen (run_next opening answer) s = (nothing, run_holder opening answer s.holder s.client)
happen complete s = finish_holder s.holder s.client

unfoldable pub serve : List Event → Console → List Response × Console
unfolding happen
serve [] s = ([], s)
serve (ev ∷ events) s =
    let (response, after) = happen ev s in
    let (responses, last) = serve events after in (response ∷ responses, last)
