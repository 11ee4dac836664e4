-- ===== src/Sink/Rows.antt =====
-- What `main` of ingress/consumer/consumer.py writes for one event: the rows of its three tables.
-- A moment is in whole microseconds, and an event id the text of its UUID.
use open_htap_stack.Prelude.{ℕ, ◌+◌, ◌-◌, ◌/◌, ◌%◌, String, Bool, Option, none, some, List, [], ◌∷◌}
use open_htap_stack.Geometry.Floats.{Floats}
use open_htap_stack.Window.Bucket.{event_bucket}
use open_htap_stack.Sink.Tracker.{Tracker, track}
use open_htap_stack.Sink.Alerts.{Zone, Generator, Position, check_proximity}

-- The settings that the sink reads, and the code it calls: `zlib.crc32` of an id's bytes, and the id
-- and the moment that stand for the n-th event without a readable id.
pub record Settings : Type 0 where
  pub event_bucket_minutes : ℕ
  pub event_shards : ℕ
  pub report_every_us : ℕ
  pub crc32 : String → ℕ
  pub fresh_id : ℕ → String
  pub fresh_time : ℕ → ℕ

module _ (fl : Floats) (metres : fl.Float → String) (cfg : Settings) where
  open fl use {Float, lit}

  -- `message.value`: `event_id` with its moment, where it is the text of a version-1 UUID.
  pub record Event : Type 0 where
    pub event_id : Option (String × ℕ)
    pub entity_id : Option String
    pub position_lat : Option Float
    pub position_lon : Option Float
    pub z_m : Option Float
    pub event_type : Option String
    pub observer_id : Option String
    pub temp_external_c : Option Float
    pub temp_internal_c : Option Float
    pub text : Option String

  pub record RawRow : Type 0 where
    pub event_bucket : ℕ
    pub shard : ℕ
    pub event_id : String
    pub entity_id : String
    pub event_day : ℕ
    pub event_time : ℕ
    pub event_type : String
    pub observer_id : String
    pub latitude : Float
    pub longitude : Float
    pub altitude_m : Float
    pub temp_external_c : Float
    pub temp_internal_c : Float
    pub text_payload : String

  pub record HistoryRow : Type 0 where
    pub entity_id : String
    pub event_time : ℕ
    pub event_id : String
    pub event_type : String
    pub observer_id : String
    pub latitude : Float
    pub longitude : Float
    pub altitude_m : Float
    pub temp_external_c : Float
    pub temp_internal_c : Float
    pub speed_mps : Float
    pub heading_deg : Float
    pub zone_id : Option String
    pub text_payload : String

  pub record LatestRow : Type 0 where
    pub event_id : String
    pub event_time : ℕ
    pub event_type : String
    pub observer_id : String
    pub latitude : Float
    pub longitude : Float
    pub altitude_m : Float
    pub temp_external_c : Float
    pub temp_internal_c : Float
    pub speed_mps : Float
    pub heading_deg : Float
    pub is_flying : Bool
    pub telemetry_age_s : ℕ
    pub near_restricted_zone : Bool
    pub predicted_zone_breach : Bool
    pub risk_score : Float
    pub text_payload : String
    pub updated_at : ℕ
    pub entity_id : String

  pub data Write : Type 0 where
    insert_raw : RawRow → Write
    insert_history : HistoryRow → Write
    upsert_latest : LatestRow → Write

  -- `event.get(key, default)`
  unfoldable pub get_or {ℓ} : {A : Type ℓ} → Option A → A → A
  get_or none d = d
  get_or (some a) d = a

  unfoldable pub event_shard : String → ℕ
  event_shard event_id = cfg.crc32 event_id % cfg.event_shards

  -- The event's id and moment, or a fresh id and the moment it is read at; with the number of fresh
  -- ids taken.
  unfoldable pub identify : Event → ℕ → (String × ℕ) × ℕ
  identify e n = elim e.event_id [
    | none ↦ ((cfg.fresh_id n, cfg.fresh_time n), n + 1)
    | some stamp ↦ (stamp, n)
  ]

  -- What the loop over a batch's messages carries: the tracker, the alerts and the fresh ids.
  pub record Derivations : Type 0 where
    pub tracker : Tracker fl
    pub alerts : Generator fl metres
    pub fresh_ids : ℕ

  abbrev pub position_of : Event → ℕ → Position fl metres
  position_of e event_time = record {
    entity_id = get_or e.entity_id "";
    lat = get_or e.position_lat (lit 0 0);
    lon = get_or e.position_lon (lit 0 0);
    alt = get_or e.z_m (lit 0 0);
    alert_time = event_time;
  }

  -- The body of the loop over the messages, at the moment `now_utc`: the three writes it issues.
  unfoldable pub write_event :
      (ℕ → ℕ) → List (Zone fl metres) → ℕ → Event → Derivations → List Write × Derivations
  unfolding identify event_shard
  write_event clock zones now_utc e d =
      let (stamp, taken) = identify e d.fresh_ids in
      let p = position_of e stamp.1 in
      let (derived, seen) = track fl d.tracker p.entity_id p.lat p.lon p.alt stamp.1 in
      let (verdict, alerted) = check_proximity fl metres clock zones p d.alerts in
      (
        insert_raw (record {
          event_bucket = event_bucket cfg.event_bucket_minutes (stamp.1 / 1000000);
          shard = event_shard stamp.0;
          event_id = stamp.0;
          entity_id = p.entity_id;
          event_day = stamp.1 / 86400000000;
          event_time = stamp.1;
          event_type = get_or e.event_type "";
          observer_id = get_or e.observer_id "";
          latitude = p.lat;
          longitude = p.lon;
          altitude_m = p.alt;
          temp_external_c = get_or e.temp_external_c (lit 0 0);
          temp_internal_c = get_or e.temp_internal_c (lit 0 0);
          text_payload = get_or e.text "";
        })
            ∷ insert_history (record {
              entity_id = p.entity_id;
              event_time = stamp.1;
              event_id = stamp.0;
              event_type = get_or e.event_type "";
              observer_id = get_or e.observer_id "";
              latitude = p.lat;
              longitude = p.lon;
              altitude_m = p.alt;
              temp_external_c = get_or e.temp_external_c (lit 0 0);
              temp_internal_c = get_or e.temp_internal_c (lit 0 0);
              speed_mps = derived.speed_mps;
              heading_deg = derived.heading_deg;
              zone_id = verdict.nearest_zone_id;
              text_payload = get_or e.text "";
            })
            ∷ upsert_latest (record {
              event_id = stamp.0;
              event_time = stamp.1;
              event_type = get_or e.event_type "";
              observer_id = get_or e.observer_id "";
              latitude = p.lat;
              longitude = p.lon;
              altitude_m = p.alt;
              temp_external_c = get_or e.temp_external_c (lit 0 0);
              temp_internal_c = get_or e.temp_internal_c (lit 0 0);
              speed_mps = derived.speed_mps;
              heading_deg = derived.heading_deg;
              is_flying = derived.is_flying;
              telemetry_age_s = (now_utc - stamp.1) / 1000000;
              near_restricted_zone = verdict.near_zone;
              predicted_zone_breach = verdict.predicted_breach;
              risk_score = verdict.risk_score;
              text_payload = get_or e.text "";
              updated_at = now_utc;
              entity_id = p.entity_id;
            })
            ∷ [],
        record { tracker = seen; alerts = alerted; fresh_ids = taken },
      )
