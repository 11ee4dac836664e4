-- ===== src/Cqlite/Tests.antt =====
-- Runs of the CQLite client on small inputs, and the theorems at inputs that meet their hypotheses.
use open_htap_stack.Prelude.{
  length, ℕ, ◌+◌, ◌≡◌, refl, String, true, false, none, some, List, [], ◌∷◌, ◌=s=◌, take, lookup,
  contains, if◌then◌else◌, arith,
}
use open_htap_stack.Prelude.Chars.{codes, lower, split}
use open_htap_stack.Cqlite.Message.{strip_all, prefixes, join, readable_error, message_limit}
use open_htap_stack.Cqlite.Client.{
  Directory, of_id, matching, done, Site, Client, try_register, ensure_registered, abort,
  finish_query, cancelled, is_in,
}
use open_htap_stack.Cqlite.Figures.{Scan, collect_measured}
use open_htap_stack.Cqlite.Stripped.{Bare, Strips, readable_error-returns}
use open_htap_stack.Cqlite.Registered.{ensure_registered-recovers}
use open_htap_stack.Cqlite.Named.{all_registered, collect_measured-counts_events}

nested : readable_error (codes "FFI error:  External error: cqlite: no  file") ≡ codes "no file"
unfolding readable_error
nested = refl

abbrev error : List ℕ
error = codes "FFI error:  External error: cqlite: no  file"

readable_error-returns_example :
    (rest : List ℕ) × (strip_all
        (length (join (split [] error)) + 1)
        prefixes
        (join (split [] error))
      ≡ some rest)
    × (readable_error error ≡ take message_limit rest)
    × Bare prefixes rest
    × Strips prefixes rest (join (split [] error))
readable_error-returns_example = readable_error-returns error

-- The directory of `events` is there, by its id; the others are not.
abbrev site : Site
site = record {
  keyspace = codes "demo";
  root = codes "/data/demo";
  imports = true;
  cassandra = true;
  table_id = λ table. done (some "17");
  is_dir = λ d. elim d [ of_id table id ↦ table =s= "events" | matching found ↦ false ];
  glob = λ table. [];
  create_table_cql = λ table. done "CREATE TABLE";
  open_provider = λ d ddl. none;
}

abbrev young : Client
young = record {
  ctx = true;
  providers = ("drone_latest_status", matching "drone_latest_status-9") ∷ [];
  declined = ("events", codes "no directory") ∷ [];
  attempted_at = 100;
  connected = true;
  busy = false;
  aborted = false;
}

too_early : (ensure_registered site 129 young).attempted_at ≡ 100
unfolding ensure_registered
too_early = refl

ensure_registered-recovers_example :
    lookup "events" (ensure_registered site 130 young).providers ≡ some (of_id "events" "17")
unfolding lookup contains try_register
ensure_registered-recovers_example =
    ensure_registered-recovers site 130 young "events" (of_id "events" "17") (λ h. refl)
      (omega arith) (omega arith) refl refl refl refl refl

-- A scan that fails after an abort is told to be cancelled.
stopped :
    (finish_query (some (codes "boom")) (abort (record young { busy = true })).1).0 ≡ cancelled
unfolding finish_query abort
stopped = refl

abbrev last_scan : String → Scan
last_scan table =
    if table =s= "events"
    then record { files = 4; bytes = 4000; reader_open = 12; data_age_s = some 9 }
    else record { files = 1; bytes = 10; reader_open = 3; data_age_s = some 2 }

abbrev sql : List ℕ
sql = codes "SELECT * FROM drone_events_by_entity"

abbrev place : Directory
place = matching "x"

collect_measured-counts_events_example :
    ((collect_measured last_scan sql (all_registered place place place)).files ≡ some (4 + 1))
    × ((collect_measured last_scan sql (all_registered place place place)).bytes ≡ some (4000 + 10))
unfolding is_in lower
collect_measured-counts_events_example =
    collect_measured-counts_events last_scan sql place place place refl refl
