-- ===== src/Clearance/Repeat.antt =====
-- The measured pairs of `_repeat_clearance`: one drone in and out of a zone.
use open_htap_stack.Prelude.{
  ℕ, suc, ◌+◌, ◌-◌, ◌<◌, ◌≡◌, refl, ap, ◌∙◌, String, true, none, some, List, [], ◌∷◌, eq_iff, arith,
  length, lookup,
}
use open_htap_stack.Clearance.Ledger.{
  Occupancy, Ledger, held_zone_of, grant_guard, grant_writes, release_writes, increment, decrement,
}
use open_htap_stack.Clearance.Step.{Delivery, answered, clearance_step, run_grant, run_release}
use open_htap_stack.Clearance.Routes.{repeat_clearance}
use open_htap_stack.Clearance.Sound.{lookup-set_remaining}

abbrev pub AllPaired : List (ℕ × Delivery × Delivery) → Type 0
AllPaired [] = Unit
AllPaired ((now, d, e) ∷ rest) =
    ((ms : ℕ) × (d ≡ answered ms)) × ((ms : ℕ) × (e ≡ answered ms)) × AllPaired rest

module _ (action zone entity : String) (ms : ℕ) (d : Delivery) (reply : d ≡ answered ms)
    (db : Ledger) (occ : Occupancy) where
  grant_in :
      (now : ℕ)
      → lookup zone db.zone_occupancy ≡ some occ
      → 0 < occ.remaining
      → db.drone_clearance entity ≡ none
      → ((run_grant action zone entity now d db).0.applied ≡ true)
        × (lookup zone (run_grant action zone entity now d db).1.zone_occupancy
            ≡ some (record occ { remaining = occ.remaining - 1 }))
        × (held_zone_of ((run_grant action zone entity now d db).1.drone_clearance entity)
            ≡ some zone)
  unfolding run_grant grant_writes grant_guard held_zone_of
  grant_in now row room free =
      rw (reply, clearance_step, run_grant)
        (ground (
          arith,
          eq_iff zone zone,
          eq_iff entity entity,
          lookup-set_remaining decrement zone zone db.zone_occupancy,
        ))

  release_out :
      lookup zone db.zone_occupancy ≡ some occ
      → held_zone_of (db.drone_clearance entity) ≡ some zone
      → ((run_release action zone entity d db).0.applied ≡ true)
        × (lookup zone (run_release action zone entity d db).1.zone_occupancy
            ≡ some (record occ { remaining = occ.remaining + 1 }))
        × ((run_release action zone entity d db).1.drone_clearance entity ≡ none)
  unfolding run_release release_writes held_zone_of
  release_out row held =
      rw (reply, clearance_step, run_release)
        (ground (
          arith,
          eq_iff zone zone,
          eq_iff entity entity,
          lookup-set_remaining increment zone zone db.zone_occupancy,
        ))

-- Of a drone that holds nothing and a zone with a slot left, when every transaction is answered,
-- every repeat times a grant and a release that applied, and at the end the zone has its row and the
-- drone holds nothing, as before.
pub repeat_clearance-all_applied :
    (zone entity : String) (repeats : List (ℕ × Delivery × Delivery)) (db : Ledger)
    (occ : Occupancy)
    → AllPaired repeats
    → lookup zone db.zone_occupancy ≡ some occ
    → 0 < occ.remaining
    → db.drone_clearance entity ≡ none
    → (length (repeat_clearance zone entity repeats db).0 ≡ length repeats)
      × (length (repeat_clearance zone entity repeats db).1 ≡ length repeats)
      × (lookup zone (repeat_clearance zone entity repeats db).2.zone_occupancy ≡ some occ)
      × ((repeat_clearance zone entity repeats db).2.drone_clearance entity ≡ none)
unfolding repeat_clearance
repeat_clearance-all_applied zone entity [] db occ p row room free = (refl, refl, row, free)
repeat_clearance-all_applied zone entity ((now, d, e) ∷ rest) db occ p row room free =
    let (ms, reply) = p.0 in
    let (ms', reply') = p.1 in
    let db₁ = (run_grant "measure grant" zone entity now d db).1 in
    let db₂ = (run_release "measure release" zone entity e db₁).1 in
    let occ₁ : Occupancy = record occ { remaining = occ.remaining - 1 } in
    let (in_applied, row₁, held) =
      grant_in "measure grant" zone entity ms d reply db occ now row room free in
    let (out_applied, row₂, free₂) =
      release_out "measure release" zone entity ms' e reply' db₁ occ₁ row₁ held in
    let same : record occ { remaining = occ.remaining - 1 + 1 } ≡ occ = ground arith in
    let (grants, releases, last, end) =
      repeat_clearance-all_applied zone entity rest db₂ occ p.2 (row₂ ∙ ap some same) room free₂ in
    (rw in_applied (ap suc grants), rw out_applied (ap suc releases), last, end)
