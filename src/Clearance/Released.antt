-- ===== src/Clearance/Released.antt =====
-- One release by an answering driver, in a sound ledger, and the holders that a reset reads first.
use open_htap_stack.Prelude.{
  ℕ, ◌≡◌, refl, String, Bool, true, false, ◌&&◌, ◌||◌, Option, none, some, List, [], ◌∷◌, ◌=s=◌,
  eq_iff, arith, lookup, contains, lookup-remove, if◌then◌else◌,
}
use open_htap_stack.Clearance.Ledger.{
  Occupancy, Held, Ledger, capacity_of, holds, increment, release_writes, release,
}
use open_htap_stack.Clearance.Step.{Delivery, answered, run_release}
use open_htap_stack.Clearance.State.{Zone, clearance_state}
use open_htap_stack.Clearance.Routes.{Answers}
use open_htap_stack.Clearance.Sound.{IsSound, present, lookup-set_remaining}
use open_htap_stack.Clearance.Reads.{clearance_state-reports}

abbrev pub AllAnswered : Answers → Type 0
AllAnswered answer = (zone entity : String) → (ms : ℕ) × (answer zone entity ≡ answered ms)

-- A release takes one holder out of one partition, and in a sound ledger also where it refuses.
pub lookup-release :
    (zone entity z j : String) {db : Ledger}
    → IsSound db
    → lookup j ((release zone entity db).1.zone_clearance z)
      ≡ (if zone =s= z && entity =s= j then none else lookup j (db.zone_clearance z))
unfolding release release_writes
lookup-release zone entity z j {db} s = ground (
  arith,
  eq_iff zone z,
  eq_iff entity j,
  s.mirrored z j,
  lookup-remove entity j (db.zone_clearance zone) (s.one_each zone),
)

-- the release of an answering driver does what the transaction does
pub answered-release :
    (action zone entity : String) (d : Delivery) (db : Ledger)
    → ((ms : ℕ) × (d ≡ answered ms))
    → (run_release action zone entity d db).1 ≡ (release zone entity db).1
unfolding run_release
answered-release action zone entity d db (ms, e) = rw e refl

pub capacity-release :
    (zone entity z : String) (db : Ledger)
    → capacity_of (lookup z (release zone entity db).1.zone_occupancy)
      ≡ capacity_of (lookup z db.zone_occupancy)
unfolding release release_writes capacity_of
capacity-release zone entity z db =
    ground (arith, eq_iff zone z, lookup-set_remaining increment zone z db.zone_occupancy)

-- some zone of the list names the holder
abbrev pub listed : String → String → List (String × Zone) → Bool
listed z j [] = false
listed z j ((zone, v) ∷ zones) = (zone =s= z && contains j v.holders) || listed z j zones

pub listed_of_lookup :
    (z j : String) (zones : List (String × Zone)) (v : Zone)
    → lookup z zones ≡ some v
    → contains j v.holders ≡ true
    → listed z j zones ≡ true
unfolding lookup
listed_of_lookup z j [] v h c = cc
listed_of_lookup z j ((i, w) ∷ zones) v h c =
    ground (arith, eq_iff i z, listed_of_lookup z j zones v)

pub nil_of_lookup : (rows : List (String × ℕ)) → ((j : String) → lookup j rows ≡ none) → rows ≡ []
unfolding lookup
nil_of_lookup [] h = refl
nil_of_lookup ((k, v) ∷ rows) h = ground (arith, h k, eq_iff k k)

-- every holder of a zone with a row is listed by the state that the reset reads first
pub none_left :
    (db : Ledger) (zone : String) (occ : Occupancy)
    → IsSound db
    → lookup zone db.zone_occupancy ≡ some occ
    → (j : String)
    → (if listed zone j (clearance_state db).zones then none else lookup j (db.zone_clearance zone))
      ≡ none
none_left db zone occ s h j =
    let (z, e, _, _, _, c) = (clearance_state-reports db s).1 zone occ h in
    ground (arith, c j, s.mirrored zone j, listed_of_lookup zone j (clearance_state db).zones z e)

pub row_of_capacity :
    (o : Option Occupancy) (occ : Occupancy)
    → capacity_of o ≡ capacity_of (some occ)
    → (occ' : Occupancy) × (o ≡ some occ') × (occ'.capacity ≡ occ.capacity)
unfolding capacity_of
row_of_capacity none occ h = absurd (ground arith)
row_of_capacity (some occ') occ h = (occ', refl, ground arith)

pub row_of_present :
    (o o' : Option Occupancy)
    → capacity_of o ≡ capacity_of o'
    → present o ≡ true
    → (occ : Occupancy) × (o' ≡ some occ)
unfolding capacity_of
row_of_present none o' e h = absurd (ground arith)
row_of_present (some occ) none e h = absurd (ground arith)
row_of_present (some occ) (some occ') e h = (occ', refl)

pub held_nowhere :
    (entity : String) (h : Held) {o : Option Held} {rows : List (String × ℕ)}
    → present (lookup entity rows) ≡ holds h.zone_id o
    → o ≡ some h
    → rows ≡ []
    → ⊥
unfolding lookup
held_nowhere entity h m e nil = ground (arith, eq_iff h.zone_id h.zone_id)
