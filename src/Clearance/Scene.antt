-- ===== src/Clearance/Scene.antt =====
-- What the script of `clearance_demo` can see of the ledger, and what each of its steps changes.
use open_htap_stack.Prelude.{
  ℕ, suc, ◌≡◌, refl, ◌∙◌, String, true, Option, none, some, arith, lookup,
}
use open_htap_stack.Clearance.Ledger.{
  Occupancy, Ledger, held_zone_of, grant_writes, release_writes, increment, decrement,
}
use open_htap_stack.Clearance.Routes.{demo_zone, demo_other_zone, asset_0, asset_1, asset_2}
use open_htap_stack.Clearance.Sound.{present, lookup-set_remaining}

-- What the script can see: the airport zone's slots, and what each asset holds.
pub record Scene (cap r : ℕ) (h0 h1 h2 : Option String) (db : Ledger) : Type 0 where
  pub occ : Occupancy
  pub airport : lookup demo_zone db.zone_occupancy ≡ some occ
  pub slots : occ.remaining ≡ r
  pub size : occ.capacity ≡ cap
  pub palace : present (lookup demo_other_zone db.zone_occupancy) ≡ true
  pub z0 : held_zone_of (db.drone_clearance asset_0) ≡ h0
  pub z1 : held_zone_of (db.drone_clearance asset_1) ≡ h1
  pub z2 : held_zone_of (db.drone_clearance asset_2) ≡ h2

module _ (cap r now : ℕ) {db : Ledger} where
  pub Scene-grant_0 :
      {h1 h2 : Option String}
      → Scene cap (suc r) none h1 h2 db
      → Scene cap r (some demo_zone) h1 h2 (grant_writes demo_zone asset_0 now db)
  unfolding grant_writes held_zone_of
  Scene-grant_0 v = record {
    occ = record v.occ { remaining = r };
    airport =
        lookup-set_remaining decrement demo_zone demo_zone db.zone_occupancy
        ∙ ground (arith, v.airport, v.slots);
    slots = refl;
    size = v.size;
    palace = ground (
      arith,
      lookup-set_remaining decrement demo_zone demo_other_zone db.zone_occupancy,
      v.palace,
    );
    z0 = refl;
    z1 = v.z1;
    z2 = v.z2;
  }

  pub Scene-grant_1 :
      {h0 h2 : Option String}
      → Scene cap (suc r) h0 none h2 db
      → Scene cap r h0 (some demo_zone) h2 (grant_writes demo_zone asset_1 now db)
  unfolding grant_writes held_zone_of
  Scene-grant_1 v = record {
    occ = record v.occ { remaining = r };
    airport =
        lookup-set_remaining decrement demo_zone demo_zone db.zone_occupancy
        ∙ ground (arith, v.airport, v.slots);
    slots = refl;
    size = v.size;
    palace = ground (
      arith,
      lookup-set_remaining decrement demo_zone demo_other_zone db.zone_occupancy,
      v.palace,
    );
    z0 = v.z0;
    z1 = refl;
    z2 = v.z2;
  }

  pub Scene-release_0 :
      {h0 h1 h2 : Option String}
      → Scene cap r h0 h1 h2 db
      → Scene cap (suc r) none h1 h2 (release_writes demo_zone asset_0 db)
  unfolding release_writes held_zone_of
  Scene-release_0 v = record {
    occ = record v.occ { remaining = suc r };
    airport =
        lookup-set_remaining increment demo_zone demo_zone db.zone_occupancy
        ∙ ground (arith, v.airport, v.slots);
    slots = refl;
    size = v.size;
    palace = ground (
      arith,
      lookup-set_remaining increment demo_zone demo_other_zone db.zone_occupancy,
      v.palace,
    );
    z0 = refl;
    z1 = v.z1;
    z2 = v.z2;
  }
