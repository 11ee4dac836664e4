-- ===== src/Clearance/Reset.antt =====
-- `_clearance_reset` gives every clearance back.
use open_htap_stack.Prelude.{
  ℕ, ◌≡◌, refl, ap, ◌∙◌, String, ◌&&◌, none, some, inl, inr, List, [], ◌∷◌, ◌=s=◌, eq_iff, arith,
  length, lookup, contains, Option-cases, if◌then◌else◌,
}
use open_htap_stack.Clearance.Ledger.{Occupancy, Ledger, capacity_of}
use open_htap_stack.Clearance.Step.{run_release}
use open_htap_stack.Clearance.State.{Zone, clearance_state}
use open_htap_stack.Clearance.Routes.{Answers, reset_holders, reset_zones, clearance_reset}
use open_htap_stack.Clearance.Sound.{IsSound}
use open_htap_stack.Clearance.Outcome.{run_release-IsSound}
use open_htap_stack.Clearance.Released.{
  AllAnswered, lookup-release, answered-release, capacity-release, listed, none_left,
  row_of_capacity, row_of_present, held_nowhere, nil_of_lookup,
}

module _ (answer : Answers) (good : AllAnswered answer) where
  lookup-reset_holders :
      (zone : String) (names : List String) (z j : String) {db : Ledger}
      → IsSound db
      → lookup j ((reset_holders answer zone names db).1.zone_clearance z)
        ≡ (if zone =s= z && contains j names then none else lookup j (db.zone_clearance z))
  unfolding reset_holders contains
  lookup-reset_holders zone [] z j s = ground arith
  lookup-reset_holders zone (entity ∷ rest) z j {db} s =
      lookup-reset_holders zone rest z j
        (run_release-IsSound entity zone entity (answer zone entity) s)
      ∙ rw (answered-release entity zone entity (answer zone entity) db (good zone entity))
          (ground (arith, lookup-release zone entity z j s, eq_iff j entity, eq_iff entity j))

  reset_holders-IsSound :
      (zone : String) (names : List String) {db : Ledger}
      → IsSound db
      → IsSound (reset_holders answer zone names db).1
  unfolding reset_holders
  reset_holders-IsSound zone [] s = s
  reset_holders-IsSound zone (entity ∷ rest) s =
      reset_holders-IsSound zone rest
        (run_release-IsSound entity zone entity (answer zone entity) s)

  reset_zones-IsSound :
      (zones : List (String × Zone)) {db : Ledger}
      → IsSound db
      → IsSound (reset_zones answer zones db).1
  unfolding reset_zones
  reset_zones-IsSound [] s = s
  reset_zones-IsSound ((zone, z) ∷ zones) s =
      reset_zones-IsSound zones (reset_holders-IsSound zone z.holders s)

  lookup-reset_zones :
      (zones : List (String × Zone)) (z j : String) {db : Ledger}
      → IsSound db
      → lookup j ((reset_zones answer zones db).1.zone_clearance z)
        ≡ (if listed z j zones then none else lookup j (db.zone_clearance z))
  unfolding reset_zones
  lookup-reset_zones [] z j s = refl
  lookup-reset_zones ((zone, v) ∷ zones) z j s =
      lookup-reset_zones zones z j (reset_holders-IsSound zone v.holders s)
      ∙ ground (arith, lookup-reset_holders zone v.holders z j s)

  capacity-reset_holders :
      (zone : String) (names : List String) (z : String) (db : Ledger)
      → capacity_of (lookup z (reset_holders answer zone names db).1.zone_occupancy)
        ≡ capacity_of (lookup z db.zone_occupancy)
  unfolding reset_holders
  capacity-reset_holders zone [] z db = refl
  capacity-reset_holders zone (entity ∷ rest) z db =
      capacity-reset_holders zone rest z (run_release entity zone entity (answer zone entity) db).1
      ∙ rw (answered-release entity zone entity (answer zone entity) db (good zone entity))
          (capacity-release zone entity z db)

  capacity-reset_zones :
      (zones : List (String × Zone)) (z : String) (db : Ledger)
      → capacity_of (lookup z (reset_zones answer zones db).1.zone_occupancy)
        ≡ capacity_of (lookup z db.zone_occupancy)
  unfolding reset_zones
  capacity-reset_zones [] z db = refl
  capacity-reset_zones ((zone, v) ∷ zones) z db =
      capacity-reset_zones zones z (reset_holders answer zone v.holders db).1
      ∙ capacity-reset_holders zone v.holders z db

  pub clearance_reset-IsSound : {db : Ledger} → IsSound db → IsSound (clearance_reset answer db).1
  unfolding clearance_reset
  clearance_reset-IsSound {db} s = reset_zones-IsSound (clearance_state db).zones s

  -- After the reset no zone that has a row has a holder.
  no_holder-reset :
      (db : Ledger) (zone : String) (occ : Occupancy)
      → IsSound db
      → lookup zone db.zone_occupancy ≡ some occ
      → (clearance_reset answer db).1.zone_clearance zone ≡ []
  unfolding clearance_reset
  no_holder-reset db zone occ s h =
      nil_of_lookup _
        (λ j. lookup-reset_zones (clearance_state db).zones zone j s ∙ none_left db zone occ s h j)

  capacity-clearance_reset :
      (db : Ledger) (zone : String)
      → capacity_of (lookup zone (clearance_reset answer db).1.zone_occupancy)
        ≡ capacity_of (lookup zone db.zone_occupancy)
  unfolding clearance_reset
  capacity-clearance_reset db zone = capacity-reset_zones (clearance_state db).zones zone db

  all_slots :
      (db : Ledger)
      → IsSound db
      → (zone : String) (occ : Occupancy) → lookup zone db.zone_occupancy ≡ some occ
      → (occ' : Occupancy) × (lookup zone (clearance_reset answer db).1.zone_occupancy ≡ some occ')
        × (occ'.capacity ≡ occ.capacity)
        × (occ'.remaining ≡ occ.capacity)
        × ((clearance_reset answer db).1.zone_clearance zone ≡ [])
  all_slots db s zone occ h =
      let (occ', e, c) =
        row_of_capacity _ occ (capacity-clearance_reset db zone ∙ ap capacity_of h) in
      let nil = no_holder-reset db zone occ s h in
      (
        occ',
        e,
        c,
        omega (
          arith,
          c,
          (clearance_reset-IsSound s).counted zone occ' e,
          ap (λ (l : List (String × ℕ)). length l) nil,
        ),
        nil,
      )

  all_free :
      (db : Ledger)
      → IsSound db
      → (entity : String) → (clearance_reset answer db).1.drone_clearance entity ≡ none
  all_free db s entity =
      elim (Option-cases ((clearance_reset answer db).1.drone_clearance entity)) [
        | inl e ↦ e
        | inr (h, e) ↦
            let after = clearance_reset-IsSound s in
            let (occ, there) =
              row_of_present _ _ (capacity-clearance_reset db h.zone_id) (after.known entity h e) in
            let nil = no_holder-reset db h.zone_id occ s there in
            absurd (held_nowhere entity h (after.mirrored h.zone_id entity) e nil)
      ]

  -- With every release answered, the reset of a sound ledger leaves no drone with a clearance, and
  -- every zone with as many slots as its capacity, which is unchanged.
  pub clearance_reset-clears :
      (db : Ledger)
      → IsSound db
      → ((entity : String) → (clearance_reset answer db).1.drone_clearance entity ≡ none)
        × ((zone : String) (occ : Occupancy)
            → lookup zone db.zone_occupancy ≡ some occ
            → (occ' : Occupancy) × (lookup zone (clearance_reset answer db).1.zone_occupancy
                ≡ some occ')
              × (occ'.capacity ≡ occ.capacity)
              × (occ'.remaining ≡ occ.capacity)
              × ((clearance_reset answer db).1.zone_clearance zone ≡ []))
  clearance_reset-clears db s = (all_free db s, all_slots db s)
