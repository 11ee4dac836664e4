-- ===== src/Cqlite/Client.antt =====
-- `CqliteClient` of backend/app/db/cqlite_client.py: registering the tables, and running and aborting
-- a statement. What the cluster's metadata, the file system and the reader answer is given to each
-- call. The clock is in whole seconds.
use open_htap_stack.Prelude.{
  ℕ, zero, suc, ◌+◌, ◌-◌, ◌/◌, ◌%◌, ◌++◌, String, Bool, true, false, not, ◌&&◌, ◌||◌, Option, none,
  some, List, [], ◌∷◌, ltb, ◌==◌, if◌then◌else◌, length, lookup, insert, remove,
}
use open_htap_stack.Prelude.Chars.{codes, lower, behind}
use open_htap_stack.Cqlite.Message.{readable_error}

-- `CQLITE_TABLES`
abbrev pub cqlite_tables : List String
cqlite_tables = "events" ∷ "drone_latest_status" ∷ "drone_events_by_entity" ∷ []

abbrev pub retry_after_s : ℕ
retry_after_s = 30

-- A directory: the one that a table's id names, or one that `glob` found.
pub data Directory : Type 0 where
  of_id : String → String → Directory
  matching : String → Directory

pub data Attempt {ℓ} (A : Type ℓ) : Type ℓ where
  done : A → Attempt A
  failed : List ℕ → Attempt A

-- What a registration meets: the keyspace and the data directory by their texts, whether the modules can be imported and Cassandra is connected after an
-- attempt to, the metadata of a table (an error where it has none, and its id if it has one), the
-- directories there are, and whether opening and registering a provider raises.
pub record Site : Type 0 where
  pub keyspace : List ℕ
  pub root : List ℕ
  pub imports : Bool
  pub cassandra : Bool
  pub table_id : String → Attempt (Option String)
  pub is_dir : Directory → Bool
  pub glob : String → List String
  pub create_table_cql : String → Attempt String
  pub open_provider : Directory → String → Option (List ℕ)

pub record Client : Type 0 where
  -- whether there is a session
  pub ctx : Bool
  pub providers : List (String × Directory)
  pub declined : List (String × List ℕ)
  pub attempted_at : ℕ
  pub connected : Bool
  pub busy : Bool
  pub aborted : Bool

-- A number in decimal; the fuel is one more than the number.
unfoldable pub digits : ℕ → ℕ → List ℕ
digits zero n = []
digits (suc fuel) n =
    let front = digits fuel (n / 10) in
    if ltb n 10 then (48 + n) ∷ [] else front ++ (48 + n % 10) ∷ []

-- `{keyspace}.{table} under {root}`
abbrev pub place_of : Site → String → List ℕ
place_of s table = s.keyspace ++ codes "." ++ codes table ++ codes " under " ++ s.root

-- The two errors of `_table_directory`.
unfoldable pub no_directory : Site → String → List ℕ
no_directory s table =
    codes "no directory for "
    ++ place_of s table
    ++ codes "; the data directory is mounted read-only at CQLITE_DATA_DIR"

unfoldable pub several_directories : Site → String → ℕ → List ℕ
unfolding digits
several_directories s table n =
    digits (suc n) n
    ++ codes " directories match "
    ++ place_of s table
    ++ codes " and the cluster did not say which is current"

unfoldable pub fallback : Site → String → List String → Attempt Directory
unfolding no_directory several_directories
fallback s table [] = failed (no_directory s table)
fallback s table (d ∷ []) = done (matching d)
fallback s table (d ∷ e ∷ ds) = failed (several_directories s table (length (d ∷ e ∷ ds)))

unfoldable pub directory_of : Site → String → Option String → Attempt Directory
unfolding fallback
directory_of s table none = fallback s table (s.glob table)
directory_of s table (some id) =
    if s.is_dir (of_id table id) then done (of_id table id) else fallback s table (s.glob table)

-- `_table_directory`
unfoldable pub table_directory : Site → String → Attempt Directory
unfolding directory_of
table_directory s table = elim (s.table_id table) [
  | failed e ↦ failed e
  | done id ↦ directory_of s table id
]

-- Opening and registering a provider.
unfoldable pub opened : Directory → Option (List ℕ) → Attempt Directory
opened directory none = done directory
opened directory (some e) = failed e

unfoldable pub open_with : Site → Directory → Attempt String → Attempt Directory
unfolding opened
open_with s directory (failed e) = failed e
open_with s directory (done ddl) = opened directory (s.open_provider directory ddl)

unfoldable pub open_in : Site → String → Attempt Directory → Attempt Directory
unfolding open_with
open_in s table (failed e) = failed e
open_in s table (done directory) = open_with s directory (s.create_table_cql table)

-- The `try` of the two loops over the tables.
unfoldable pub try_register : Site → String → Attempt Directory
unfolding table_directory open_in
try_register s table = open_in s table (table_directory s table)

-- What a loop has registered, and declined.
pub record Tables : Type 0 where
  pub providers : List (String × Directory)
  pub declined : List (String × List ℕ)

unfoldable pub note : String → Attempt Directory → Tables → Tables
unfolding readable_error insert remove
note table (done d) t = record {
  providers = insert table d t.providers;
  declined = remove table t.declined;
}
note table (failed e) t = record {
  providers = t.providers;
  declined = insert table (readable_error e) t.declined;
}

-- The loop of `connect`, over tables that are none of them registered.
unfoldable pub register_all : Site → List String → Tables → Tables
unfolding try_register note
register_all s [] t = t
register_all s (table ∷ tables) t = register_all s tables (note table (try_register s table) t)

unfoldable pub note_missing : Site → String → Option Directory → Tables → Tables
unfolding try_register note
note_missing s table (some d) t = t
note_missing s table none t = note table (try_register s table) t

-- The loop of `_register_missing`.
unfoldable pub register_missing_all : Site → List String → Tables → Tables
unfolding note_missing lookup
register_missing_all s [] t = t
register_missing_all s (table ∷ tables) t =
    register_missing_all s tables (note_missing s table (lookup table t.providers) t)

abbrev pub is_empty {ℓ} : {A : Type ℓ} → List A → Bool
is_empty [] = true
is_empty (x ∷ xs) = false

abbrev pub no_tables : Tables
no_tables = record { providers = []; declined = [] }

-- `connect`
unfoldable pub connect : Site → ℕ → Client → Client
unfolding register_all
connect s now c =
    if s.imports && s.cassandra
    then (let t = register_all s cqlite_tables no_tables in
        record c {
          ctx = true;
          providers = t.providers;
          declined = t.declined;
          attempted_at = now;
          connected = not (is_empty t.providers);
        })
    else record c { declined = []; attempted_at = now; connected = false }

-- `_register_missing`
unfoldable pub register_missing : Site → ℕ → Client → Client
unfolding register_missing_all
register_missing s now c =
    if c.ctx && s.imports && s.cassandra
    then (let t =
          register_missing_all s cqlite_tables
            (record { providers = c.providers; declined = c.declined }) in
        record c { providers = t.providers; declined = t.declined; attempted_at = now })
    else record c { attempted_at = now }

-- `ensure_registered`; its answer is whether anything is registered afterwards.
unfoldable pub ensure_registered : Site → ℕ → Client → Client
unfolding connect register_missing
ensure_registered s now c =
    if length c.providers == length cqlite_tables
    then c
    else if ltb (now - c.attempted_at) retry_after_s
    then c
    else if is_empty c.providers
    then connect s now c
    else register_missing s now c

-- `abort`, beside the call of `cancel` on every provider; whether anything was running.
unfoldable pub abort : Client → Bool × Client
abort c = (c.busy, record c { aborted = c.busy || c.aborted })

pub data Outcome : Type 0 where
  not_connected : Outcome
  cancelled : Outcome
  raised : List ℕ → Outcome
  rows : Outcome

abbrev pub is_prefix : Option (List ℕ) → Bool
is_prefix none = false
is_prefix (some rest) = true

-- `part in text`
unfoldable pub is_in : List ℕ → List ℕ → Bool
unfolding behind
is_in part [] = is_prefix (behind part [])
is_in part (c ∷ cs) = is_prefix (behind part (c ∷ cs)) || is_in part cs

-- `execute_query` up to its scan, with the lock free.
unfoldable pub start_query : Client → Option Client
start_query c = if c.ctx then some (record c { busy = true; aborted = false }) else none

unfoldable pub outcome_of : Bool → Option (List ℕ) → Outcome
unfolding readable_error is_in
outcome_of aborted none = rows
outcome_of aborted (some e) =
    if aborted || is_in (codes "cancelled") (lower (readable_error e))
    then cancelled
    else raised (readable_error e)

-- The rest of `execute_query`, with the error of the scan, if it raised.
unfoldable pub finish_query : Option (List ℕ) → Client → Outcome × Client
unfolding outcome_of
finish_query e c = (outcome_of c.aborted e, record c { busy = false })
