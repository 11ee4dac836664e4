-- ===== src/Snapshot/Bulk.antt =====
-- `SparkBulkClient`: which snapshot a query reads, and what is reported of it. The clock is in whole
-- seconds. What the Sidecar lists and which DDL the Thrift Server accepts are parameters.
use open_htap_stack.Prelude.{
  ℕ, suc, ◌+◌, ◌-◌, ◌*◌, ◌/◌, max, String, Bool, true, false, Option, none, some, List, [], ◌∷◌,
  leb, lookup, insert, if◌then◌else◌,
}

-- What a snapshot's name tells: its table, the clock and the counter.
pub record Snapshot : Type 0 where
  pub table : String
  pub taken_at : ℕ
  pub number : ℕ

-- `clearSnapshotStrategy`
pub data Strategy : Type 0 where
  no_op : Strategy
  on_completion_or_ttl : ℕ → Strategy

-- The view that a DDL statement makes, by what differs between two of them.
pub record View : Type 0 where
  pub table : String
  pub create_snapshot : Bool
  pub snapshot : Snapshot
  pub strategy : Strategy

-- `_last_snapshot` and `_bulk_snapshot_counter`.
pub record Client : Type 0 where
  pub last_snapshot : List (String × Snapshot)
  pub counter : ℕ

-- The moment at which Cassandra removes a snapshot that a DDL statement created with a strategy; one
-- with none stays. Completion ends nothing for a statement that comes through the Thrift Server.
unfoldable pub expires_at : Snapshot → Strategy → Option ℕ
expires_at s no_op = none
expires_at s (on_completion_or_ttl minutes) = some (s.taken_at + minutes * 60)

-- What a query meets: the clock, the bytes of a snapshot that the Sidecar lists, and the DDL that runs.
pub record Cluster : Type 0 where
  pub now : ℕ
  pub snapshot_bytes : String → Snapshot → Option ℕ
  pub accepts : View → Bool

-- `SNAPSHOT_TTL_MINUTES`: `max(15, math.ceil(timeout_s / 60) * 2)`
unfoldable pub snapshot_ttl_minutes : ℕ → ℕ
snapshot_ttl_minutes timeout_s = max 15 ((timeout_s + 59) / 60 * 2)

-- `_age_of`, for a name of the client's own.
unfoldable pub age_of : Snapshot → ℕ → ℕ
age_of s now = now - s.taken_at

unfoldable pub listed : Option ℕ → Snapshot → Option Snapshot
listed none s = none
listed (some bytes) s = some s

-- `_reusable`, with what `_last_snapshot` has of the table. `remaining <= margin` is written without
-- the subtraction, which may go below 0.
unfoldable pub reusable_of : ℕ → Cluster → String → Option Snapshot → Option Snapshot
unfolding age_of listed snapshot_ttl_minutes
reusable_of timeout_s c table none = none
reusable_of timeout_s c table (some s) =
    if leb (snapshot_ttl_minutes timeout_s * 60) (timeout_s + age_of s c.now)
    then none
    else listed (c.snapshot_bytes table s) s

unfoldable pub reusable : ℕ → Cluster → String → Client → Option Snapshot
unfolding reusable_of
reusable timeout_s c table client =
    reusable_of timeout_s c table (lookup table client.last_snapshot)

-- The view of `_register_bulk_view`, of an existing snapshot or of a new one.
unfoldable pub view_of : ℕ → ℕ → ℕ → String → Option Snapshot → View
unfolding snapshot_ttl_minutes
view_of timeout_s now number table none = record {
  table = table;
  create_snapshot = true;
  snapshot = record { table = table; taken_at = now; number = number };
  strategy = on_completion_or_ttl (snapshot_ttl_minutes timeout_s);
}
view_of timeout_s now number table (some s) = record {
  table = table;
  create_snapshot = false;
  snapshot = s;
  strategy = no_op;
}

-- The counter is read only for a new name.
unfoldable pub counter_after : Option Snapshot → ℕ → ℕ
counter_after none n = suc n
counter_after (some s) n = n

unfoldable pub registered : View → Option Snapshot → Client → Client
unfolding counter_after
registered v existing client = record {
  last_snapshot = insert v.table v.snapshot client.last_snapshot;
  counter = counter_after existing client.counter;
}

-- A DDL statement that raised keeps `_last_snapshot`, and a number taken stays taken.
unfoldable pub unregistered : Option Snapshot → Client → Client
unfolding counter_after
unregistered existing client = record {
  last_snapshot = client.last_snapshot;
  counter = counter_after existing client.counter;
}

abbrev pub no_snapshot : Option Snapshot
no_snapshot = none

-- `existing`
unfoldable pub existing_for : ℕ → Cluster → String → Bool → Client → Option Snapshot
unfolding reusable
existing_for timeout_s c table reuse client =
    if reuse then reusable timeout_s c table client else no_snapshot

-- `_register_bulk_view`: the view, unless its DDL raised.
unfoldable pub register_bulk_view : ℕ → Cluster → String → Bool → Client → Option View × Client
unfolding existing_for view_of registered unregistered
register_bulk_view timeout_s c table reuse client =
    let existing = existing_for timeout_s c table reuse client in
    let v = view_of timeout_s c.now client.counter table existing in
    if c.accepts v
    then (some v, registered v existing client)
    else (none, unregistered existing client)

-- A call of `_register_bulk_view`.
pub record Request : Type 0 where
  pub table : String
  pub reuse : Bool
  pub cluster : Cluster

-- The views of which a DDL statement ran, the newest first.
abbrev pub and_made : Option View → List View → List View
and_made none made = made
and_made (some v) made = v ∷ made

-- Calls of `_register_bulk_view` one after the other, with the views that were made before.
unfoldable pub run_requests : ℕ → List Request → Client → List View → Client × List View
unfolding register_bulk_view
run_requests timeout_s [] client made = (client, made)
run_requests timeout_s (q ∷ qs) client made =
    let (view, after) = register_bulk_view timeout_s q.cluster q.table q.reuse client in
    run_requests timeout_s qs after (and_made view made)

-- The client of a process that has read nothing.
abbrev pub new_client : Client
new_client = record { last_snapshot = []; counter = 1 }

-- The figures of a read: `reused`, `ages` and `total` of the loop in `execute_query`.
pub record Figures : Type 0 where
  pub reused : List Bool
  pub ages : List ℕ
  pub total : Option ℕ

abbrev pub no_figures : Figures
no_figures = record { reused = []; ages = []; total = none }

-- `total = (total or 0) + measured`, where the snapshot could be sized.
unfoldable pub add_bytes : Option ℕ → Option ℕ → Option ℕ
add_bytes total none = total
add_bytes none (some bytes) = some bytes
add_bytes (some total) (some bytes) = some (total + bytes)

-- One table's view in front of those behind it.
unfoldable pub figure_of : Cluster → View → Figures → Figures
unfolding add_bytes age_of
figure_of c v f = record {
  reused = (if v.create_snapshot then false else true) ∷ f.reused;
  ages = age_of v.snapshot c.now ∷ f.ages;
  total = add_bytes f.total (c.snapshot_bytes v.table v.snapshot);
}

-- A table's view, and what the loop gives of the tables behind it: one that raised ends the query.
unfoldable pub and_rest :
    Cluster
    → Option View
    → Client
    → Option (List View × Figures) × Client
    → Option (List View × Figures) × Client
unfolding figure_of
and_rest c none client rest = (none, client)
and_rest c (some v) client (none, last) = (none, last)
and_rest c (some v) client (some (vs, f), last) = (some (v ∷ vs, figure_of c v f), last)

-- The loop of `execute_query` over the statement's tables: the views and their figures, unless one
-- raised. Each table meets the cluster as it is then.
unfoldable pub prepare :
    ℕ → Bool → List (String × Cluster) → Client → Option (List View × Figures) × Client
unfolding register_bulk_view and_rest
prepare timeout_s reuse [] client = (some ([], no_figures), client)
prepare timeout_s reuse ((table, c) ∷ tables) client =
    let (view, after) = register_bulk_view timeout_s c table reuse client in
    and_rest c view after (prepare timeout_s reuse tables after)
