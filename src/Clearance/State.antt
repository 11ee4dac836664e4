-- ===== src/Clearance/State.antt =====
-- The ledger read from both sides: `_clearance_state` of backend/app/routes/transactions.py.
use open_htap_stack.Prelude.{
  ℕ, ◌+◌, String, Bool, true, Option, List, [], ◌∷◌, ◌++◌, ◌==◌, map, length, lookup, contains,
  sort_rows, if◌then◌else◌,
}
use open_htap_stack.Clearance.Ledger.{Occupancy, Ledger, holds}

-- A `ClearanceZone` without its key.
pub record Zone : Type 0 where
  pub zone_name : String
  pub severity : String
  pub capacity : ℕ
  pub remaining : ℕ
  pub holders : List String
  pub consistent : Bool

pub record ClearanceState : Type 0 where
  pub zones : List (String × Zone)
  pub mismatched : List String

abbrev pub keys {ℓ} : {V : Type ℓ} → List (String × V) → List String
keys = map (λ e. e.0)

-- `SELECT entity_id FROM zone_clearance WHERE zone_id = ?`
unfoldable pub holders : Ledger → String → List String
holders db zone = keys (db.zone_clearance zone)

unfoldable pub flag : List String → List (String × Bool)
flag [] = []
flag (n ∷ ns) = (n, true) ∷ flag ns

-- `sorted(...)` of texts.
unfoldable pub sort_texts : List String → List String
unfolding flag
sort_texts names = keys (sort_rows (flag names))

unfoldable pub zone_of : Ledger → String → Occupancy → Zone
unfolding sort_texts holders
zone_of db zone occ = record {
  zone_name = occ.zone_name;
  severity = occ.severity;
  capacity = occ.capacity;
  remaining = occ.remaining;
  holders = sort_texts (holders db zone);
  consistent = occ.capacity == occ.remaining + length (holders db zone);
}

-- The loop over the occupancy rows, and the zones it lists.
unfoldable pub zone_rows : Ledger → List (String × Occupancy) → List (String × Zone)
unfolding zone_of
zone_rows db [] = []
zone_rows db ((zone, occ) ∷ rows) = (zone, zone_of db zone occ) ∷ zone_rows db rows

-- The inner loop: the holders of one zone whose own row does not name it.
unfoldable pub mismatches_in : Ledger → String → List String → List String
mismatches_in db zone [] = []
mismatches_in db zone (entity ∷ rest) =
    let more = mismatches_in db zone rest in
    if holds zone (db.drone_clearance entity) then more else entity ∷ more

unfoldable pub mismatches : Ledger → List (String × Occupancy) → List String
unfolding mismatches_in holders
mismatches db [] = []
mismatches db ((zone, occ) ∷ rows) = mismatches_in db zone (holders db zone) ++ mismatches db rows

-- `set(names)`, each name once.
unfoldable pub dedup : List String → List String
dedup [] = []
dedup (n ∷ ns) = let rest = dedup ns in if contains n rest then rest else n ∷ rest

unfoldable pub clearance_state : Ledger → ClearanceState
unfolding zone_rows mismatches dedup sort_texts
clearance_state db = record {
  zones = sort_rows (zone_rows db db.zone_occupancy);
  mismatched = sort_texts (dedup (mismatches db db.zone_occupancy));
}

-- `next((z for z in _clearance_state(keyspace).zones if z.zone_id == zone_id), None)`
unfoldable pub zone_now : Ledger → String → Option Zone
unfolding clearance_state
zone_now db zone = lookup zone (clearance_state db).zones
