-- ===== src/Clearance/Ledger.antt =====
-- The three tables of the clearance demonstration, and the two Accord transactions that write them
-- (`_grant_cql` and `_release_cql` of backend/app/routes/transactions.py). Accord runs a transaction
-- as one atomic step, so each is a function on the tables.
use open_htap_stack.Prelude.{
  ℕ, ◌+◌, ◌-◌, String, Bool, true, false, ◌&&◌, Option, none, some, List, [], ◌∷◌, ltb, ◌=s=◌,
  lookup, insert, remove, update, if◌then◌else◌,
}

-- A row of `zone_occupancy` without its key. The seed writes every column, so none is null.
pub record Occupancy : Type 0 where
  pub zone_name : String
  pub severity : String
  pub capacity : ℕ
  pub remaining : ℕ

-- A row of `drone_clearance` without its key.
pub record Held : Type 0 where
  pub zone_id : String
  pub granted_at : ℕ

-- `zone_clearance` and `drone_clearance` are only read by partition, so they are functions of the
-- partition key; a partition of `zone_clearance` holds (entity_id, granted_at) rows.
pub record Ledger : Type 0 where
  pub zone_occupancy : List (String × Occupancy)
  pub zone_clearance : String → List (String × ℕ)
  pub drone_clearance : String → Option Held

-- The row that a transaction's SELECT projects. A column that the statement does not name reads as
-- null, as `dict.get` has it.
pub record Projection : Type 0 where
  pub remaining : Option ℕ
  pub capacity : Option ℕ
  pub held_zone : Option String

unfoldable pub held_zone_of : Option Held → Option String
held_zone_of none = none
held_zone_of (some h) = some h.zone_id

remaining_of : Option Occupancy → Option ℕ
remaining_of none = none
remaining_of (some occ) = some occ.remaining

unfoldable pub capacity_of : Option Occupancy → Option ℕ
capacity_of none = none
capacity_of (some occ) = some occ.capacity

-- `occ.remaining IS NOT NULL AND occ.remaining > 0`
abbrev pub has_room : Option Occupancy → Bool
has_room none = false
has_room (some occ) = ltb 0 occ.remaining

-- `held.zone_id IS NULL`
abbrev pub is_free : Option Held → Bool
is_free none = true
is_free (some h) = false

-- `held.zone_id = ?`: null equals nothing.
abbrev pub holds : String → Option Held → Bool
holds zone none = false
holds zone (some h) = h.zone_id =s= zone

-- `UPDATE zone_occupancy SET remaining = ... WHERE zone_id = ?` on a row that is there.
unfoldable pub set_remaining :
    (ℕ → ℕ) → String → List (String × Occupancy) → List (String × Occupancy)
set_remaining f zone [] = []
set_remaining f zone ((z, occ) ∷ rows) =
    if z =s= zone
    then (z, record occ { remaining = f occ.remaining }) ∷ rows
    else (z, occ) ∷ set_remaining f zone rows

abbrev pub decrement : ℕ → ℕ
decrement n = n - 1

abbrev pub increment : ℕ → ℕ
increment n = n + 1

-- The three writes under the IF of `_grant_cql`.
unfoldable pub grant_writes : String → String → ℕ → Ledger → Ledger
grant_writes zone entity granted_at db = record {
  zone_occupancy = set_remaining decrement zone db.zone_occupancy;
  zone_clearance =
      update db.zone_clearance zone (insert entity granted_at (db.zone_clearance zone));
  drone_clearance =
      update db.drone_clearance entity (some (record { zone_id = zone; granted_at = granted_at }));
}

-- The guard of `_grant_cql`.
unfoldable pub grant_guard : String → String → Ledger → Bool
grant_guard zone entity db =
    has_room (lookup zone db.zone_occupancy) && is_free (db.drone_clearance entity)

-- `_grant_cql`: the projection, and the tables afterwards.
unfoldable pub grant : String → String → ℕ → Ledger → Projection × Ledger
unfolding grant_guard grant_writes held_zone_of remaining_of capacity_of
grant zone entity granted_at db =
    let occ = lookup zone db.zone_occupancy in
    (
      record {
        remaining = remaining_of occ;
        capacity = capacity_of occ;
        held_zone = held_zone_of (db.drone_clearance entity);
      },
      if grant_guard zone entity db then grant_writes zone entity granted_at db else db,
    )

-- The three writes under the IF of `_release_cql`.
unfoldable pub release_writes : String → String → Ledger → Ledger
release_writes zone entity db = record {
  zone_occupancy = set_remaining increment zone db.zone_occupancy;
  zone_clearance = update db.zone_clearance zone (remove entity (db.zone_clearance zone));
  drone_clearance = update db.drone_clearance entity none;
}

-- `_release_cql`: the projection, and the tables afterwards.
unfoldable pub release : String → String → Ledger → Projection × Ledger
unfolding release_writes held_zone_of
release zone entity db = (
  record {
    remaining = none;
    capacity = none;
    held_zone = held_zone_of (db.drone_clearance entity);
  },
  if holds zone (db.drone_clearance entity) then release_writes zone entity db else db,
)
