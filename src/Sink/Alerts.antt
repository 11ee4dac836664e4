-- ===== src/Sink/Alerts.antt =====
-- `AlertGenerator` of ingress/consumer/consumer.py: `check_proximity` over the loaded zones, and the
-- cooldown. The clock is `time.monotonic` in whole microseconds, one entry for each reading of it.
use Prim.Native.String.{◌++◌ as ◌+s+◌}
use open_htap_stack.Prelude.{
  ℕ, suc, ◌+◌, ◌/◌, String, Bool, true, false, ◌&&◌, ◌||◌, Option, none, some, List, [], ◌∷◌, ltb,
  ◌=s=◌, if◌then◌else◌,
}
use open_htap_stack.Geometry.Floats.{Floats}
use open_htap_stack.Geometry.Polygon.{Vertex, distance_to_polygon_m}
use open_htap_stack.Window.Bucket.{hour_start}

-- The section's `metres` is Python's format `:.0f`.
module _ (fl : Floats) (metres : fl.Float → String) where
  open fl use {Float, lt, eq, sub, div, lit}

  -- An entry of `_zones`.
  pub record Zone : Type 0 where
    pub zone_id : String
    pub zone_name : String
    pub severity : String
    pub ring : List (Vertex fl)

  -- The values of `_insert_alert` but the fresh `alert_id`. The bucket is the hour's start.
  pub record Alert : Type 0 where
    pub bucket : ℕ
    pub alert_time : ℕ
    pub entity_id : String
    pub alert_type : String
    pub severity : String
    pub zone_id : String
    pub latitude : Float
    pub longitude : Float
    pub altitude_m : Float
    pub message : String
    pub risk_score : Float

  -- `_last_alert`; how often the clock was read; and the alerts written, newest first, each with the
  -- reading that let it through.
  pub record Generator : Type 0 where
    pub last_alert : String → String → Option ℕ
    pub readings : ℕ
    pub written : List (ℕ × Alert)

  -- What `check_proximity` returns.
  pub record Verdict : Type 0 where
    pub near_zone : Bool
    pub predicted_breach : Bool
    pub risk_score : Float
    pub nearest_zone_id : Option String

  -- One call's arguments.
  pub record Position : Type 0 where
    pub entity_id : String
    pub lat : Float
    pub lon : Float
    pub alt : Float
    pub alert_time : ℕ

  -- `a >= b`
  abbrev pub ge : Float → Float → Bool
  ge a b = lt b a || eq a b

  -- `distance >= self.WARNING_DISTANCE_M`
  unfoldable pub out_of_range : Float → Bool
  out_of_range distance = ge distance (lit 500 0)

  unfoldable pub is_inside : Float → Bool
  is_inside distance = eq distance (lit 0 0)

  -- `zone_risk`
  unfoldable pub zone_risk : Float → Float
  unfolding is_inside
  zone_risk distance =
      if is_inside distance then lit 95 2 else sub (lit 1 0) (div distance (lit 500 0))

  -- `inside or zone_risk > self.BREACH_RISK_THRESHOLD`
  unfoldable pub breaches : Float → Bool
  unfolding is_inside zone_risk
  breaches distance = is_inside distance || lt (lit 7 1) (zone_risk distance)

  -- `zone_risk >= self.ALERT_RISK_THRESHOLD`
  unfoldable pub is_alarming : Float → Bool
  unfolding zone_risk
  is_alarming distance = ge (zone_risk distance) (lit 5 1)

  -- The result so far, with one zone that is in range.
  unfoldable pub note_zone : Float → Zone → Verdict → Verdict
  unfolding zone_risk breaches
  note_zone distance zone v = record {
    near_zone = true;
    predicted_breach = breaches distance || v.predicted_breach;
    risk_score = if lt v.risk_score (zone_risk distance) then zone_risk distance else v.risk_score;
    nearest_zone_id =
        if lt v.risk_score (zone_risk distance) then some zone.zone_id else v.nearest_zone_id;
  }

  -- `now - last < self.ALERT_COOLDOWN_S`, where no last alert is one infinitely long ago.
  unfoldable pub is_cooling : Option ℕ → ℕ → Bool
  is_cooling none now = false
  is_cooling (some last) now = ltb now (last + 60000000)

  abbrev pub set_last :
      (String → String → Option ℕ) → String → String → ℕ → String → String → Option ℕ
  set_last last entity zone now e z = if (entity =s= e) && (zone =s= z) then some now else last e z

  -- The alert's type, severity and message.
  unfoldable pub alert_row : Position → Float → Zone → Alert
  unfolding is_inside zone_risk
  alert_row p distance zone = record {
    bucket = hour_start (p.alert_time / 1000000);
    alert_time = p.alert_time;
    entity_id = p.entity_id;
    alert_type = if is_inside distance then "zone_breach" else "zone_proximity";
    severity =
        if is_inside distance
        then "critical"
        else if lt (lit 8 1) (zone_risk distance)
        then "high"
        else "warning";
    zone_id = zone.zone_id;
    latitude = p.lat;
    longitude = p.lon;
    altitude_m = p.alt;
    message =
        if is_inside distance
        then p.entity_id +s+ " is inside restricted zone " +s+ zone.zone_name
        else p.entity_id
          +s+ " is "
          +s+ metres distance
          +s+ "m from restricted zone "
          +s+ zone.zone_name;
    risk_score = zone_risk distance;
  }

  -- `_cooldown_elapsed` and then `_write_alert`, at the reading `now`.
  unfoldable pub alert_at : ℕ → Position → Float → Zone → Generator → Generator
  unfolding is_cooling alert_row
  alert_at now p distance zone g =
      if is_cooling (g.last_alert p.entity_id zone.zone_id) now
      then record { last_alert = g.last_alert; readings = suc g.readings; written = g.written }
      else record {
        last_alert = set_last g.last_alert p.entity_id zone.zone_id now;
        readings = suc g.readings;
        written = (now, alert_row p distance zone) ∷ g.written;
      }

  -- The body of the loop for a zone in range.
  unfoldable pub alert_zone : (ℕ → ℕ) → Position → Float → Zone → Generator → Generator
  unfolding is_alarming alert_at
  alert_zone clock p distance zone g =
      if is_alarming distance then alert_at (clock g.readings) p distance zone g else g

  unfoldable pub check_zone : (ℕ → ℕ) → Position → Zone → Verdict × Generator → Verdict × Generator
  unfolding out_of_range note_zone alert_zone
  check_zone clock p zone (v, g) =
      let distance = distance_to_polygon_m fl p.lat p.lon zone.ring in
      if out_of_range distance
      then (v, g)
      else (note_zone distance zone v, alert_zone clock p distance zone g)

  unfoldable pub check_zones :
      (ℕ → ℕ) → Position → List Zone → Verdict × Generator → Verdict × Generator
  unfolding check_zone
  check_zones clock p [] s = s
  check_zones clock p (zone ∷ zones) s = check_zones clock p zones (check_zone clock p zone s)

  abbrev pub nothing_near : Verdict
  nothing_near = record {
    near_zone = false;
    predicted_breach = false;
    risk_score = lit 0 0;
    nearest_zone_id = none;
  }

  -- `check_proximity`, with the zones loaded
  unfoldable pub check_proximity : (ℕ → ℕ) → List Zone → Position → Generator → Verdict × Generator
  unfolding check_zones
  check_proximity clock zones p g = check_zones clock p zones (nothing_near, g)

  -- The calls of one run, with the zones loaded at each.
  unfoldable pub check_all : (ℕ → ℕ) → List (List Zone × Position) → Generator → Generator
  unfolding check_proximity
  check_all clock [] g = g
  check_all clock ((zones, p) ∷ calls) g = check_all clock calls (check_proximity clock zones p g).1
