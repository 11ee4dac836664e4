-- ===== src/Clearance/Sound.antt =====
-- The clearance ledger's invariant: capacity is remaining plus holders in every zone, and the two
-- indexes of who holds what agree. Every transaction keeps it.
use open_htap_stack.Prelude.{
  ℕ, ◌+◌, ◌≡◌, String, Bool, true, false, Option, none, some, inl, inr, List, [], ◌∷◌, ◌=s=◌,
  eq_iff, arith, length, lookup, remove, Distinct, lookup-insert, lookup-remove, insert-Distinct,
  remove-Distinct, length-insert_new, length-remove, Bool-cases, Option-cases, if◌then◌else◌,
}
use open_htap_stack.Clearance.Ledger.{
  Occupancy, Held, Ledger, holds, is_free, set_remaining, decrement, increment, grant_guard,
  grant_writes, grant, release_writes, release,
}

abbrev pub present {ℓ} : {A : Type ℓ} → Option A → Bool
present none = false
present (some a) = true

pub record IsSound (db : Ledger) : Type 0 where
  pub one_row : Distinct db.zone_occupancy
  pub one_each : (zone : String) → Distinct (db.zone_clearance zone)
  pub counted :
      (zone : String) (occ : Occupancy)
      → lookup zone db.zone_occupancy ≡ some occ
      → occ.capacity ≡ occ.remaining + length (db.zone_clearance zone)
  pub mirrored :
      (zone entity : String)
      → present (lookup entity (db.zone_clearance zone)) ≡ holds zone (db.drone_clearance entity)
  pub known :
      (entity : String) (h : Held)
      → db.drone_clearance entity ≡ some h
      → present (lookup h.zone_id db.zone_occupancy) ≡ true

abbrev pub adjust : (ℕ → ℕ) → Option Occupancy → Option Occupancy
adjust f none = none
adjust f (some occ) = some (record occ { remaining = f occ.remaining })

pub lookup-set_remaining :
    (f : ℕ → ℕ) (zone j : String) (rows : List (String × Occupancy))
    → lookup j (set_remaining f zone rows)
      ≡ (if zone =s= j then adjust f (lookup j rows) else lookup j rows)
unfolding lookup set_remaining
lookup-set_remaining f zone j [] = ground arith
lookup-set_remaining f zone j ((i, occ) ∷ rows) =
    ground (arith, eq_iff zone j, eq_iff i zone, eq_iff i j, lookup-set_remaining f zone j rows)

set_remaining-Distinct :
    (f : ℕ → ℕ) (zone : String) (rows : List (String × Occupancy))
    → Distinct rows
    → Distinct (set_remaining f zone rows)
unfolding lookup set_remaining
set_remaining-Distinct f zone [] d = d
set_remaining-Distinct f zone ((i, occ) ∷ rows) d = ground (
  arith,
  lookup-set_remaining f zone i rows,
  set_remaining-Distinct f zone rows d.1,
  eq_iff i zone,
  eq_iff zone i,
)

abbrev Counts : String → Option Occupancy → Ledger → Type 0
Counts zone none db = Unit
Counts zone (some occ) db = occ.capacity ≡ occ.remaining + length (db.zone_clearance zone)

holds_one : (zone z : String) (h : Option Held) → holds zone h ≡ true → holds z h ≡ true → zone ≡ z
holds_one zone z none p q = cc
holds_one zone z (some h) p q = ground (arith, eq_iff h.zone_id zone, eq_iff h.zone_id z)

length-remove-present :
    (entity : String) (rows : List (String × ℕ))
    → present (lookup entity rows) ≡ true
    → length (remove entity rows) + 1 ≡ length rows
length-remove-present entity rows h = elim (Option-cases (lookup entity rows)) [
  | inl e ↦ absurd (ground arith)
  | inr (t, e) ↦ length-remove entity rows e
]

module _ (zone entity : String) (now : ℕ) (db : Ledger) (s : IsSound db) where
  -- who asks for a slot and holds none is in no partition
  absent_of_free :
      (z : String)
      → is_free (db.drone_clearance entity) ≡ true
      → lookup entity (db.zone_clearance z) ≡ none
  absent_of_free z h = ground (arith, s.mirrored z entity)

  counted_before : (z : String) → Counts z (lookup z db.zone_occupancy) db
  counted_before z = elim (Option-cases (lookup z db.zone_occupancy)) [
    | inl e ↦ rw e tt
    | inr (occ, e) ↦ rw e (s.counted z occ e)
  ]

  grant_writes-IsSound :
      grant_guard zone entity db ≡ true → IsSound (grant_writes zone entity now db)
  unfolding grant_guard grant_writes
  grant_writes-IsSound g = record {
    one_row = set_remaining-Distinct decrement zone db.zone_occupancy s.one_row;
    one_each = λ z. ground (
      arith,
      eq_iff zone z,
      s.one_each z,
      insert-Distinct entity now (db.zone_clearance zone) (s.one_each zone),
    );
    counted = λ z occ h. ground (
      arith,
      eq_iff zone z,
      lookup-set_remaining decrement zone z db.zone_occupancy,
      counted_before z,
      absent_of_free zone,
      length-insert_new entity now (db.zone_clearance zone),
    );
    mirrored = λ z e. ground (
      arith,
      eq_iff zone z,
      eq_iff z zone,
      eq_iff entity e,
      s.mirrored z e,
      s.mirrored zone e,
      absent_of_free z,
      lookup-insert entity e now (db.zone_clearance zone),
    );
    known = λ e h q. ground (
      arith,
      eq_iff zone h.zone_id,
      eq_iff entity e,
      s.known e h,
      lookup-set_remaining decrement zone h.zone_id db.zone_occupancy,
    );
  }

  release_writes-IsSound :
      holds zone (db.drone_clearance entity) ≡ true → IsSound (release_writes zone entity db)
  unfolding release_writes
  release_writes-IsSound g = record {
    one_row = set_remaining-Distinct increment zone db.zone_occupancy s.one_row;
    one_each = λ z. ground (
      arith,
      eq_iff zone z,
      s.one_each z,
      remove-Distinct entity (db.zone_clearance zone) (s.one_each zone),
    );
    counted = λ z occ h. ground (
      arith,
      eq_iff zone z,
      lookup-set_remaining increment zone z db.zone_occupancy,
      counted_before z,
      length-remove-present entity (db.zone_clearance zone),
      s.mirrored zone entity,
    );
    mirrored = λ z e. ground (
      arith,
      eq_iff zone z,
      eq_iff z zone,
      eq_iff entity e,
      s.mirrored z e,
      s.mirrored zone e,
      holds_one zone z (db.drone_clearance entity),
      lookup-remove entity e (db.zone_clearance zone) (s.one_each zone),
    );
    known = λ e h q. ground (
      arith,
      eq_iff zone h.zone_id,
      eq_iff entity e,
      s.known e h,
      lookup-set_remaining increment zone h.zone_id db.zone_occupancy,
    );
  }

-- What the theorems say of a ledger, at any transaction and reply.
pub grant-IsSound :
    (zone entity : String) (now : ℕ) {db : Ledger}
    → IsSound db
    → IsSound (grant zone entity now db).1
unfolding grant
grant-IsSound zone entity now {db} s = elim (Bool-cases (grant_guard zone entity db)) [
  | inl g ↦ rw g (grant_writes-IsSound zone entity now db s g)
  | inr g ↦ rw g s
]

pub release-IsSound :
    (zone entity : String) {db : Ledger} → IsSound db → IsSound (release zone entity db).1
unfolding release
release-IsSound zone entity {db} s = elim (Bool-cases (holds zone (db.drone_clearance entity))) [
  | inl g ↦ rw g (release_writes-IsSound zone entity 0 db s g)
  | inr g ↦ rw g s
]
