-- ===== src/Sink/Tests.antt =====
-- Runs of the tracker and the alerts at one zone, and the theorems at concrete inputs.
mod Loop
mod Zones
use open_htap_stack.Prelude.{
  ℕ, ◌*◌, ◌≡◌, refl, String, true, false, ◌&&◌, none, List, [], ◌∷◌, ◌⊎◌, length, ltb, arith,
}
use open_htap_stack.Geometry.Grid.{grid, grid-IsOrdered}
use open_htap_stack.Geometry.Polygon.{distance_to_polygon_m, point_in_polygon, crosses}
use open_htap_stack.Sink.Tracker.{Tracker, track, IsPlausible, track-IsPlausible}
use open_htap_stack.Sink.Alerts.{
  Zone, Position, is_alarming, out_of_range, is_cooling, check_zone, check_all, check_proximity,
  nothing_near, breaches,
}
use open_htap_stack.Sink.Cooldown.{
  IsSpaced, newest, new_generator, check_all-IsSpaced, check_zone-alerted,
}
use open_htap_stack.Sink.Verdicts.{
  distance_of, is_near, any_of, Names, IsHighest, check_proximity-verdict,
}

abbrev pub metres : ℕ → String
metres d = "near"

abbrev square : Zone grid metres
square = record {
  zone_id = "zone-oslo-airport";
  zone_name = "Oslo Lufthavn Gardermoen";
  severity = "critical";
  ring = (10, 10) ∷ (10, 20) ∷ (20, 20) ∷ (20, 10) ∷ [];
}

abbrev hovering : Position grid metres
hovering = record {
  entity_id = "asset-000000";
  lat = 15;
  lon = 12;
  alt = 40;
  alert_time = 7200000000;
}

-- the readings of the clock are half a minute apart
abbrev pub half_minutes : ℕ → ℕ
half_minutes n = n * 30000000

abbrev calls : List (List (Zone grid metres) × Position grid metres)
calls = (square ∷ [], hovering) ∷ (square ∷ [], hovering) ∷ (square ∷ [], hovering) ∷ []

-- three calls in a minute write two alerts
alerts_of_three :
    length (check_all grid metres half_minutes calls (new_generator grid metres)).written ≡ 2
unfolding check_all distance_to_polygon_m point_in_polygon crosses
alerts_of_three = refl

check_all-IsSpaced_example :
    IsSpaced grid metres
      (check_all grid metres half_minutes calls (new_generator grid metres)).written
check_all-IsSpaced_example = check_all-IsSpaced grid metres half_minutes calls

in_range : out_of_range grid metres (distance_of grid metres hovering square) ≡ false
unfolding out_of_range distance_to_polygon_m point_in_polygon crosses
in_range = refl

alarming : is_alarming grid metres (distance_of grid metres hovering square) ≡ true
unfolding is_alarming distance_to_polygon_m point_in_polygon crosses
alarming = refl

check_proximity-verdict_example :
    (let w =
        (check_proximity grid metres half_minutes
          (square ∷ [])
          hovering
          (new_generator grid metres)).0 in
      (w.near_zone ≡ any_of grid metres (is_near grid metres hovering) (square ∷ []))
      × (w.predicted_breach
          ≡ any_of grid metres
              (λ z.
                is_near grid metres hovering z
                && breaches grid metres (distance_of grid metres hovering z))
              (square ∷ []))
      × IsHighest grid metres hovering (square ∷ []) w.risk_score
      × (((w.nearest_zone_id ≡ none) × (w.risk_score ≡ 0))
          ⊎ Names grid metres hovering (square ∷ []) w))
check_proximity-verdict_example =
    check_proximity-verdict grid metres grid-IsOrdered half_minutes (square ∷ []) hovering
      (new_generator grid metres)

abbrev pub untracked : Tracker grid
untracked = λ e. none

untracked-IsPlausible : IsPlausible grid untracked
untracked-IsPlausible = λ e seen s h k. absurd (ground (arith, h))

track-IsPlausible_example :
    (ltb 10 (track grid untracked "asset-000000" 15 12 40 7200000000).0.speed_mps ≡ false)
    × IsPlausible grid (track grid untracked "asset-000000" 15 12 40 7200000000).1
track-IsPlausible_example =
    track-IsPlausible grid untracked "asset-000000" 15 12 40 7200000000 refl untracked-IsPlausible
