-- ===== src/Console/Accord.antt =====
-- `AccordSqlClient` of backend/app/db/accord_sql_client.py: one connection, reopened where a statement
-- has cost it. What the server does is given to each call; a method holds the client's lock from its
-- first to its last step, so that calls follow one another.
use open_htap_stack.Prelude.{String, Bool, true, false, Option, none, some, List, []}

-- `_conn`, by whether there is one, and `connected`.
pub record AccordSql : Type 0 where
  pub conn : Bool
  pub connected : Bool

-- What opening a connection and proving it comes to: an error, or none.
abbrev pub Opening : Type 0
Opening = Option String

-- What a statement comes to: a result set, no result set, or an error.
pub data Answer : Type 0 where
  result_set : List String → List (List (Option String)) → Answer
  no_result : Answer
  rejected : String → Answer

pub data Executed : Type 0 where
  executed : List String → List (List (Option String)) → Executed
  raised : String → Executed

abbrev pub opened : AccordSql
opened = record { conn = true; connected = true }

abbrev pub dropped : AccordSql
dropped = record { conn = false; connected = false }

-- `connect`, and the second half of `ensure_ready`; whether it succeeded.
unfoldable pub reopen : Opening → Bool × AccordSql
reopen none = (true, opened)
reopen (some e) = (false, dropped)

-- `ensure_ready`, with whether the connection that there is answers its probe.
unfoldable pub ensure_ready : Bool → Opening → AccordSql → Bool × AccordSql
unfolding reopen
ensure_ready probe opening c = elim c.conn [
  | true ↦ elim probe [ true ↦ (true, c) | false ↦ reopen opening ]
  | false ↦ reopen opening
]

-- The statement itself, on a connection.
unfoldable pub run_statement : Answer → AccordSql → Executed × AccordSql
run_statement (result_set columns rows) c = (executed columns rows, c)
run_statement no_result c = (executed [] [], c)
run_statement (rejected e) c = (raised e, dropped)

-- `execute` where there is no connection; `_open` that raises changes nothing.
unfoldable pub open_and_run : Opening → Answer → AccordSql → Executed × AccordSql
unfolding run_statement
open_and_run none answer c = run_statement answer opened
open_and_run (some e) answer c = (raised e, c)

-- `execute`
unfoldable pub execute : Opening → Answer → AccordSql → Executed × AccordSql
unfolding open_and_run run_statement
execute opening answer c = elim c.conn [
  | true ↦ run_statement answer c
  | false ↦ open_and_run opening answer c
]
