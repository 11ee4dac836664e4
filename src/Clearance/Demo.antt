-- ===== src/Clearance/Demo.antt =====
-- The scripted steps of `clearance_demo` and the measured repeats of `_repeat_clearance`.
use open_htap_stack.Prelude.{
  ℕ, suc, ◌≡◌, refl, String, true, false, Option, none, some, List, [], ◌∷◌, eq_iff, arith, map,
  lookup,
}
use open_htap_stack.Clearance.Ledger.{Occupancy, Held, Ledger, held_zone_of, holds, grant_guard}
use open_htap_stack.Clearance.Step.{
  Refusal, already_holds, full, holds_none, Delivery, answered, Report, run_grant, run_release,
}
use open_htap_stack.Clearance.Routes.{
  demo_zone, demo_other_zone, asset_0, asset_1, asset_2, Scripted, ask_for, give_back, script,
  run_scripted, run_script,
}
use open_htap_stack.Clearance.Sound.{IsSound, present}
use open_htap_stack.Clearance.Outcome.{run_grant-IsSound, run_release-IsSound}
use open_htap_stack.Clearance.Scene.{Scene, Scene-grant_0, Scene-grant_1, Scene-release_0}

run_scripted-IsSound :
    (s : Scripted) (now : ℕ) (d : Delivery) {db : Ledger}
    → IsSound db
    → IsSound (run_scripted s now d db).1
unfolding run_scripted
run_scripted-IsSound (ask_for action zone entity) now d h =
    run_grant-IsSound action zone entity now d h
run_scripted-IsSound (give_back action zone entity) now d h =
    run_release-IsSound action zone entity d h

-- Any sequence of grants and releases, whatever is reported of each, keeps a sound ledger sound: in
-- every zone the capacity stays the remaining slots plus the holders, and the indexes agree.
pub run_script-IsSound :
    (steps : List Scripted) (replies : List (ℕ × Delivery)) {db : Ledger}
    → IsSound db
    → IsSound (run_script steps replies db).1
unfolding run_script
run_script-IsSound [] replies h = h
run_script-IsSound (s ∷ steps) [] h = h
run_script-IsSound (s ∷ steps) ((now, d) ∷ replies) h =
    run_script-IsSound steps replies (run_scripted-IsSound s now d h)

-- The seven replies of a driver that answers each step, at these times.
abbrev pub seven : (ℕ → ℕ) → (ℕ → ℕ) → List (ℕ × Delivery)
seven now ms =
    (now 0, answered (ms 0))
    ∷ (now 1, answered (ms 1))
    ∷ (now 2, answered (ms 2))
    ∷ (now 3, answered (ms 3))
    ∷ (now 4, answered (ms 4))
    ∷ (now 5, answered (ms 5))
    ∷ (now 6, answered (ms 6))
    ∷ []

abbrev pub reasons : List Report → List (Option Refusal)
reasons = map (λ r. r.reason)

guard_of_scene :
    (zone entity : String) (db : Ledger) {occ : Occupancy} {r : ℕ}
    → lookup zone db.zone_occupancy ≡ some occ
    → occ.remaining ≡ suc r
    → held_zone_of (db.drone_clearance entity) ≡ none
    → grant_guard zone entity db ≡ true
unfolding grant_guard held_zone_of
guard_of_scene zone entity db row slots free = ground arith

not_free :
    (zone entity : String) (db : Ledger) {held : String}
    → held_zone_of (db.drone_clearance entity) ≡ some held
    → grant_guard zone entity db ≡ false
unfolding grant_guard held_zone_of
not_free zone entity db held = ground arith

no_room :
    (zone entity : String) (db : Ledger) {occ : Occupancy}
    → lookup zone db.zone_occupancy ≡ some occ
    → occ.remaining ≡ 0
    → grant_guard zone entity db ≡ false
unfolding grant_guard
no_room zone entity db row slots = ground arith

holds_of_zone : (zone : String) (o : Option Held) → held_zone_of o ≡ some zone → holds zone o ≡ true
unfolding held_zone_of
holds_of_zone zone o h = ground (arith, eq_iff zone zone)

there : {o : Option Occupancy} {occ : Occupancy} → o ≡ some occ → present o ≡ true
there h = rw h refl

module _ (action : String) (now ms cap : ℕ) {db : Ledger} where
  first_grant :
      Scene cap 2 none none none db
      → ((run_grant action demo_zone asset_0 now (answered ms) db).0.reason ≡ none)
        × Scene cap 1
            (some demo_zone)
            none
            none
            (run_grant action demo_zone asset_0 now (answered ms) db).1
  unfolding run_grant grant_guard held_zone_of
  first_grant v = (
    ground (arith, v.airport, v.slots, v.z0),
    rw (guard_of_scene demo_zone asset_0 db v.airport v.slots v.z0) (Scene-grant_0 cap 1 now v),
  )

  second_grant :
      Scene cap 1 (some demo_zone) none none db
      → ((run_grant action demo_zone asset_1 now (answered ms) db).0.reason ≡ none)
        × Scene cap 0
            (some demo_zone)
            (some demo_zone)
            none
            (run_grant action demo_zone asset_1 now (answered ms) db).1
  unfolding run_grant grant_guard held_zone_of
  second_grant v = (
    ground (arith, v.airport, v.slots, v.z1),
    rw (guard_of_scene demo_zone asset_1 db v.airport v.slots v.z1) (Scene-grant_1 cap 0 now v),
  )

  held_grant :
      (zone : String) {r : ℕ} {h1 h2 : Option String}
      → present (lookup zone db.zone_occupancy) ≡ true
      → Scene cap r (some demo_zone) h1 h2 db
      → ((run_grant action zone asset_0 now (answered ms) db).0.reason
          ≡ some (already_holds asset_0 demo_zone))
        × Scene cap r (some demo_zone) h1 h2 (run_grant action zone asset_0 now (answered ms) db).1
  unfolding run_grant grant_guard held_zone_of
  held_grant zone there v = (ground (arith, there, v.z0), rw (not_free zone asset_0 db v.z0) v)

  full_grant :
      {h0 h1 : Option String}
      → Scene cap 0 h0 h1 none db
      → ((run_grant action demo_zone asset_2 now (answered ms) db).0.reason
          ≡ some (full demo_zone (some cap)))
        × Scene cap 0 h0 h1 none (run_grant action demo_zone asset_2 now (answered ms) db).1
  unfolding run_grant grant_guard held_zone_of
  full_grant v = (
    ground (arith, v.airport, v.slots, v.size, v.z2),
    rw (no_room demo_zone asset_2 db v.airport v.slots) v,
  )

  give_first :
      {r : ℕ} {h1 h2 : Option String}
      → Scene cap r (some demo_zone) h1 h2 db
      → ((run_release action demo_zone asset_0 (answered ms) db).0.reason ≡ none)
        × Scene cap (suc r) none h1 h2 (run_release action demo_zone asset_0 (answered ms) db).1
  unfolding run_release held_zone_of
  give_first {r} v = (
    ground (arith, v.z0),
    rw (holds_of_zone demo_zone (db.drone_clearance asset_0) v.z0) (Scene-release_0 cap r now v),
  )

  give_again :
      {r : ℕ} {h1 h2 : Option String}
      → Scene cap r none h1 h2 db
      → (run_release action demo_zone asset_0 (answered ms) db).0.reason ≡ some (holds_none asset_0)
  unfolding run_release held_zone_of
  give_again v = ground (arith, v.z0)

-- From a ledger in which the three assets hold nothing, the airport zone has two slots left and the
-- palace zone has a row, when every step is answered: the first, the fourth and the sixth of the
-- seven steps are applied, and the others are refused for the reasons that the demonstration is to
-- show, the fifth naming the airport's capacity.
pub script-reasons :
    (now ms : ℕ → ℕ) (db : Ledger) {occ : Occupancy}
    → lookup demo_zone db.zone_occupancy ≡ some occ
    → present (lookup demo_other_zone db.zone_occupancy) ≡ true
    → occ.remaining ≡ 2
    → db.drone_clearance asset_0 ≡ none
    → db.drone_clearance asset_1 ≡ none
    → db.drone_clearance asset_2 ≡ none
    → reasons (run_script script (seven now ms) db).0
      ≡ none
        ∷ some (already_holds asset_0 demo_zone)
        ∷ some (already_holds asset_0 demo_zone)
        ∷ none
        ∷ some (full demo_zone (some occ.capacity))
        ∷ none
        ∷ some (holds_none asset_0)
        ∷ []
unfolding run_script
script-reasons now ms db {occ} row other two f0 f1 f2 =
    let v₀ : Scene occ.capacity 2 none none none db = record {
      occ = occ;
      airport = row;
      slots = two;
      size = refl;
      palace = other;
      z0 = unfold held_zone_of in rw f0 refl;
      z1 = unfold held_zone_of in rw f1 refl;
      z2 = unfold held_zone_of in rw f2 refl;
    } in
    let (r₁, v₁) = first_grant "grant" (now 0) (ms 0) occ.capacity v₀ in
    let (r₂, v₂) =
      held_grant "replay the grant" (now 1) (ms 1) occ.capacity demo_zone (there v₁.airport) v₁ in
    let (r₃, v₃) =
      held_grant "grant a second clearance" (now 2) (ms 2) occ.capacity demo_other_zone v₂.palace
        v₂ in
    let (r₄, v₄) = second_grant "grant the last slot" (now 3) (ms 3) occ.capacity v₃ in
    let (r₅, v₅) = full_grant "grant into a full zone" (now 4) (ms 4) occ.capacity v₄ in
    let (r₆, v₆) = give_first "release" (now 5) (ms 5) occ.capacity v₅ in
    let r₇ = give_again "release again" (now 6) (ms 6) occ.capacity v₆ in
    λ i. r₁ i ∷ r₂ i ∷ r₃ i ∷ r₄ i ∷ r₅ i ∷ r₆ i ∷ r₇ i ∷ []
