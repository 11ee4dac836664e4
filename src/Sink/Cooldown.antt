-- ===== src/Sink/Cooldown.antt =====
-- The alerts that `AlertGenerator` writes over a run: how far apart they are, and when one is held
-- back.
use open_htap_stack.Prelude.{
  ℕ, ◌+◌, ◌≤◌, ◌≡◌, refl, subst, sym, String, Bool, true, false, ◌&&◌, Option, none, some, List, [],
  ◌∷◌, inl, inr, ◌=s=◌, eq_iff, arith, All, Bool-cases, if◌then◌else◌,
}
use open_htap_stack.Geometry.Floats.{Floats}
use open_htap_stack.Geometry.Polygon.{distance_to_polygon_m}
use open_htap_stack.Sink.Alerts.{
  Zone, Alert, Generator, Verdict, Position, out_of_range, is_alarming, is_cooling, alert_row,
  alert_at, alert_zone, check_zone, check_zones, check_proximity, check_all, nothing_near,
}

module _ (fl : Floats) (metres : fl.Float → String) where
  -- Whether an alert is of this asset and zone.
  abbrev pub is_of : String → String → Alert fl metres → Bool
  is_of e z a = (a.entity_id =s= e) && (a.zone_id =s= z)

  -- The moment of the newest alert of an asset and zone.
  abbrev pub newest : String → String → List (ℕ × Alert fl metres) → Option ℕ
  newest e z [] = none
  newest e z ((t, a) ∷ log) = if is_of e z a then some t else newest e z log

  -- Two alerts of one asset and zone are 60 s apart or more.
  abbrev pub IsSpaced : List (ℕ × Alert fl metres) → Type 0
  IsSpaced [] = Unit
  IsSpaced ((t, a) ∷ log) =
      All (λ (b : ℕ × Alert fl metres). is_of a.entity_id a.zone_id b.1 ≡ true → b.0 + 60000000 ≤ t)
        log
      × IsSpaced log

  -- `_last_alert` holds the newest alert of each asset and zone.
  abbrev IsSynced : Generator fl metres → Type 0
  IsSynced g = (e z : String) → g.last_alert e z ≡ newest e z g.written

  abbrev IsGood : Generator fl metres → Type 0
  IsGood g = IsSynced g × IsSpaced g.written

  abbrev AtMost : ℕ → Option ℕ → Type 0
  AtMost u none = ⊥
  AtMost u (some n) = u ≤ n

  is_of_trans :
      (e z : String) (a b : Alert fl metres)
      → is_of e z a ≡ true
      → is_of e z b ≡ true
      → is_of a.entity_id a.zone_id b ≡ true
  is_of_trans e z a b h k = ground (
    arith,
    eq_iff a.entity_id e,
    eq_iff a.zone_id z,
    eq_iff b.entity_id e,
    eq_iff b.zone_id z,
    eq_iff b.entity_id a.entity_id,
    eq_iff b.zone_id a.zone_id,
    h,
    k,
  )

  All-imp :
      {P Q : ℕ × Alert fl metres → Type 0} (log : List (ℕ × Alert fl metres))
      → ((b : ℕ × Alert fl metres) → P b → Q b)
      → All P log
      → All Q log
  All-imp [] f h = tt
  All-imp {P} {Q} (b ∷ log) f h = (f b h.0, All-imp {P = P} {Q = Q} log f h.1)

  abbrev BoundedBy : String → String → List (ℕ × Alert fl metres) → Option ℕ → Type 0
  BoundedBy e z log o = All (λ (b : ℕ × Alert fl metres). is_of e z b.1 ≡ true → AtMost b.0 o) log

  older_le_newest :
      (e z : String) (log : List (ℕ × Alert fl metres))
      → IsSpaced log
      → BoundedBy e z log (newest e z log)
  older_le_newest e z [] s = tt
  older_le_newest e z ((t, a) ∷ log) s = elim (Bool-cases (is_of e z a)) [
    | inl same ↦
        let n : newest e z ((t, a) ∷ log) ≡ some t = rw same refl in
        subst (λ o. (is_of e z a ≡ true → AtMost t o) × BoundedBy e z log o) (sym n)
          (
            λ _. omega arith,
            All-imp log (λ b far h. omega (arith, far (is_of_trans e z a b.1 same h))) s.0,
          )
    | inr other ↦
        let n : newest e z ((t, a) ∷ log) ≡ newest e z log = rw other refl in
        subst (λ o. (is_of e z a ≡ true → AtMost t o) × BoundedBy e z log o) (sym n)
          (λ h. absurd (ground (arith, h)), older_le_newest e z log s.1)
  ]

  is_cooling-far :
      (now : ℕ) (o : Option ℕ) (e z : String) (log : List (ℕ × Alert fl metres))
      → is_cooling fl metres o now ≡ false
      → BoundedBy e z log o
      → All (λ (b : ℕ × Alert fl metres). is_of e z b.1 ≡ true → b.0 + 60000000 ≤ now) log
  unfolding is_cooling
  is_cooling-far now none e z log c h = All-imp log (λ b k same. absurd (k same)) h
  is_cooling-far now (some n) e z log c h = All-imp log (λ b k same. ground (arith, c, k same)) h

  alert_at-IsGood :
      (now : ℕ) (p : Position fl metres) (d : fl.Float) (zone : Zone fl metres)
      (g : Generator fl metres)
      → IsGood g
      → IsGood (alert_at fl metres now p d zone g)
  unfolding alert_at alert_row
  alert_at-IsGood now p d zone g (synced, spaced) =
      elim (Bool-cases (is_cooling fl metres (g.last_alert p.entity_id zone.zone_id) now)) [
        | inl cooling ↦ rw cooling (synced, spaced)
        | inr over ↦ rw over (
          (λ e z. ground (arith, synced e z)),
          (
            is_cooling-far now (g.last_alert p.entity_id zone.zone_id) p.entity_id zone.zone_id
                g.written over
                (subst (BoundedBy p.entity_id zone.zone_id g.written)
                  (sym (synced p.entity_id zone.zone_id))
                  (older_le_newest p.entity_id zone.zone_id g.written spaced)),
            spaced,
          ),
        )
      ]

  alert_zone-IsGood :
      (clock : ℕ → ℕ) (p : Position fl metres) (d : fl.Float) (zone : Zone fl metres)
      (g : Generator fl metres)
      → IsGood g
      → IsGood (alert_zone fl metres clock p d zone g)
  unfolding alert_zone
  alert_zone-IsGood clock p d zone g good = elim (Bool-cases (is_alarming fl metres d)) [
    | inl alarming ↦ rw alarming (alert_at-IsGood (clock g.readings) p d zone g good)
    | inr quiet ↦ rw quiet good
  ]

  check_zone-IsGood :
      (clock : ℕ → ℕ) (p : Position fl metres) (zone : Zone fl metres) (v : Verdict fl metres)
      (g : Generator fl metres)
      → IsGood g
      → IsGood (check_zone fl metres clock p zone (v, g)).1
  unfolding check_zone
  check_zone-IsGood clock p zone v g good =
      let d = distance_to_polygon_m fl p.lat p.lon zone.ring in
      elim (Bool-cases (out_of_range fl metres d)) [
        | inl far ↦ rw far good
        | inr near ↦ rw near (alert_zone-IsGood clock p d zone g good)
      ]

  check_zones-IsGood :
      (clock : ℕ → ℕ) (p : Position fl metres) (zones : List (Zone fl metres))
      (s : Verdict fl metres × Generator fl metres)
      → IsGood s.1
      → IsGood (check_zones fl metres clock p zones s).1
  unfolding check_zones
  check_zones-IsGood clock p [] s good = good
  check_zones-IsGood clock p (zone ∷ zones) s good =
      check_zones-IsGood clock p zones (check_zone fl metres clock p zone s)
        (check_zone-IsGood clock p zone s.0 s.1 good)

  check_all-IsGood :
      (clock : ℕ → ℕ) (calls : List (List (Zone fl metres) × Position fl metres))
      (g : Generator fl metres)
      → IsGood g
      → IsGood (check_all fl metres clock calls g)
  unfolding check_all check_proximity
  check_all-IsGood clock [] g good = good
  check_all-IsGood clock ((zones, p) ∷ calls) g good =
      check_all-IsGood clock calls (check_proximity fl metres clock zones p g).1
        (check_zones-IsGood clock p zones (nothing_near fl metres, g) good)

  -- `AlertGenerator.__init__`
  abbrev pub new_generator : Generator fl metres
  new_generator = record { last_alert = λ e z. none; readings = 0; written = [] }

  new_generator-IsGood : IsGood new_generator
  new_generator-IsGood = (λ e z. refl, tt)

  -- Over any run, whatever the clock's readings, two alerts of one asset and zone are 60 seconds or
  -- more apart.
  pub check_all-IsSpaced :
      (clock : ℕ → ℕ) (calls : List (List (Zone fl metres) × Position fl metres))
      → IsSpaced (check_all fl metres clock calls new_generator).written
  check_all-IsSpaced clock calls =
      (check_all-IsGood clock calls new_generator new_generator-IsGood).1

  own_is_recent :
      (t : ℕ) (e z : String) (o : Option ℕ)
      → is_cooling fl metres (if (e =s= e) && (z =s= z) then some t else o) t ≡ true
  unfolding is_cooling
  own_is_recent t e z o = ground (arith, eq_iff e e, eq_iff z z)

  alert_at-recent :
      (now : ℕ) (p : Position fl metres) (d : fl.Float) (zone : Zone fl metres)
      (g : Generator fl metres)
      → IsSynced g
      → is_cooling fl metres
          (newest p.entity_id zone.zone_id (alert_at fl metres now p d zone g).written)
          now
        ≡ true
  unfolding alert_at alert_row
  alert_at-recent now p d zone g synced =
      elim (Bool-cases (is_cooling fl metres (g.last_alert p.entity_id zone.zone_id) now)) [
        | inl cooling ↦ rw cooling (rw (synced p.entity_id zone.zone_id) at cooling)
        | inr over ↦
            rw over (
              own_is_recent now p.entity_id zone.zone_id
                (newest p.entity_id zone.zone_id g.written))
      ]

  -- After an alarming zone in range is scored, an alert for the asset and the zone that is less than
  -- 60 seconds old stands written: the one just written, or the one that held it back.
  pub check_zone-alerted :
      (clock : ℕ → ℕ) (calls : List (List (Zone fl metres) × Position fl metres))
      (p : Position fl metres) (zone : Zone fl metres) (v : Verdict fl metres)
      → out_of_range fl metres (distance_to_polygon_m fl p.lat p.lon zone.ring) ≡ false
      → is_alarming fl metres (distance_to_polygon_m fl p.lat p.lon zone.ring) ≡ true
      → is_cooling fl metres
          (newest p.entity_id zone.zone_id
            (check_zone fl metres clock p zone
              (v, check_all fl metres clock calls new_generator)).1.written)
          (clock (check_all fl metres clock calls new_generator).readings)
        ≡ true
  unfolding check_zone alert_zone
  check_zone-alerted clock calls p zone v near alarming =
      let g = check_all fl metres clock calls new_generator in
      rw near (
        rw alarming (
          alert_at-recent (clock g.readings) p (distance_to_polygon_m fl p.lat p.lon zone.ring) zone
            g (check_all-IsGood clock calls new_generator new_generator-IsGood).0))
