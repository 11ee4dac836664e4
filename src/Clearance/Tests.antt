-- ===== src/Clearance/Tests.antt =====
-- Runs of the clearance code on the sink's seed, and the theorems at concrete inputs.
use open_htap_stack.Prelude.{
  false, ◌&&◌, ◌+◌, ◌≤◌, ◌≡◌, refl, min, String, true, none, some, List, [], ◌∷◌, length, lookup,
  contains, if◌then◌else◌, arith,
}
use open_htap_stack.Clearance.Ledger.{
  Occupancy, Ledger, holds, set_remaining, grant_guard, grant_writes,
}
use open_htap_stack.Clearance.Step.{answered, lost, run_grant}
use open_htap_stack.Clearance.State.{Zone, clearance_state}
use open_htap_stack.Clearance.Routes.{
  Ask, Contention, script, run_script, run_asks, clearance_reset, clearance_contend, count_applied,
  demo_zone, asset_0,
}
use open_htap_stack.Clearance.Sound.{IsSound}
use open_htap_stack.Clearance.Outcome.{run_grant-agrees}
use open_htap_stack.Clearance.Reads.{clearance_state-reports}
use open_htap_stack.Clearance.Reset.{clearance_reset-clears}
use open_htap_stack.Clearance.Contend.{run_asks-never_over, clearance_contend-exact}
use open_htap_stack.Clearance.Demo.{seven, run_script-IsSound}

abbrev airport : Occupancy
airport = record {
  zone_name = "Oslo Lufthavn Gardermoen";
  severity = "critical";
  capacity = 2;
  remaining = 2;
}

abbrev palace : Occupancy
palace = record {
  zone_name = "Det Kongelige Slott";
  severity = "critical";
  capacity = 3;
  remaining = 3;
}

-- what `seed_zone_occupancy` leaves of the first two zones
abbrev seeded : Ledger
seeded = record {
  zone_occupancy = ("zone-oslo-airport", airport) ∷ ("zone-royal-palace", palace) ∷ [];
  zone_clearance = λ _. [];
  drone_clearance = λ _. none;
}

seeded-IsSound : IsSound seeded
unfolding lookup
seeded-IsSound = record {
  one_row = (refl, (refl, tt));
  one_each = λ z. tt;
  counted = λ z occ h. ground arith;
  mirrored = λ z e. refl;
  known = λ e h q. absurd (ground arith);
}

-- the second reply is lost, and the clearance is held all the same
abbrev asks : List Ask
asks =
    record { entity = "asset-000000"; granted_at = 5; delivery = answered 1 }
    ∷ record { entity = "asset-000001"; granted_at = 6; delivery = lost 9 "timed out" }
    ∷ record { entity = "asset-000002"; granted_at = 7; delivery = answered 1 }
    ∷ []

abbrev answered_asks : List Ask
answered_asks =
    record { entity = "asset-000000"; granted_at = 5; delivery = answered 1 }
    ∷ record { entity = "asset-000001"; granted_at = 6; delivery = answered 1 }
    ∷ record { entity = "asset-000002"; granted_at = 7; delivery = answered 1 }
    ∷ []

lost_reply : count_applied (run_asks demo_zone asks seeded).0 ≡ 1
unfolding count_applied run_asks lookup set_remaining
lost_reply = refl

run_grant-agrees_example :
    ((run_grant "grant" demo_zone asset_0 5 (lost 1 "timed out") seeded).0.applied
      ≡ (false && grant_guard demo_zone asset_0 seeded))
    × ((run_grant "grant" demo_zone asset_0 5 (lost 1 "timed out") seeded).1 ≡ (
        if true && grant_guard demo_zone asset_0 seeded
        then grant_writes demo_zone asset_0 5 seeded
        else seeded))
run_grant-agrees_example = run_grant-agrees "grant" demo_zone asset_0 5 (lost 1 "timed out") seeded

run_script-IsSound_example : IsSound (run_script script (seven (λ n. n) (λ n. n)) seeded).1
run_script-IsSound_example = run_script-IsSound script (seven (λ n. n) (λ n. n)) seeded-IsSound

run_asks-never_over_example :
    (occ : Occupancy) × (lookup demo_zone (run_asks demo_zone asks seeded).1.zone_occupancy
      ≡ some occ)
    × (count_applied (run_asks demo_zone asks seeded).0 + occ.remaining ≤ 2)
    × (occ.remaining + length ((run_asks demo_zone asks seeded).1.zone_clearance demo_zone) ≡ 2)
unfolding lookup
run_asks-never_over_example = run_asks-never_over demo_zone asks seeded airport seeded-IsSound refl

clearance_reset-clears_example :
    ((entity : String)
      → (clearance_reset (λ _ _. answered 1) seeded).1.drone_clearance entity ≡ none)
    × ((zone : String) (occ : Occupancy)
        → lookup zone seeded.zone_occupancy ≡ some occ
        → (occ' : Occupancy) × (lookup zone
              (clearance_reset (λ _ _. answered 1) seeded).1.zone_occupancy
            ≡ some occ')
          × (occ'.capacity ≡ occ.capacity)
          × (occ'.remaining ≡ occ.capacity)
          × ((clearance_reset (λ _ _. answered 1) seeded).1.zone_clearance zone ≡ []))
clearance_reset-clears_example =
    clearance_reset-clears (λ _ _. answered 1) (λ z e. (1, refl)) seeded seeded-IsSound

clearance_contend-exact_example :
    (c : Contention) × ((clearance_contend (λ _ _. answered 1) demo_zone answered_asks seeded).0
      ≡ some c)
    × (c.capacity ≡ 2)
    × (c.granted ≡ min c.askers 2)
    × (c.granted + c.refused ≡ c.askers)
    × (length c.winners ≡ c.granted)
    × (c.askers ≡ 3)
unfolding lookup
clearance_contend-exact_example =
    clearance_contend-exact (λ _ _. answered 1) demo_zone answered_asks seeded airport
      (λ z e. (1, refl)) ((1, refl), ((1, refl), ((1, refl), tt))) (refl, (refl, (refl, tt)))
      seeded-IsSound refl

clearance_state-reports_example :
    ((clearance_state seeded).mismatched ≡ [])
    × ((zone : String) (occ : Occupancy)
        → lookup zone seeded.zone_occupancy ≡ some occ
        → (z : Zone) × (lookup zone (clearance_state seeded).zones ≡ some z)
          × (z.consistent ≡ true)
          × (z.remaining ≡ occ.remaining)
          × (z.remaining + length z.holders ≡ z.capacity)
          × ((e : String) → contains e z.holders ≡ holds zone (seeded.drone_clearance e)))
clearance_state-reports_example = clearance_state-reports seeded seeded-IsSound
