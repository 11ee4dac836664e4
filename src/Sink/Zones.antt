-- ===== src/Sink/Zones.antt =====
-- `AlertGenerator.load_zones` of ingress/consumer/consumer.py: the zones that the alerts are checked
-- against. The rows of restricted_zones and Python's `float()` are parameters.
use open_htap_stack.Prelude.{
  ℕ, ◌≤◌, ◌≡◌, refl, ap, ◌∙◌, String, Bool, true, false, Bool-cases, inl, inr, Option, none, some,
  List, [], ◌∷◌, ltb, if◌then◌else◌, length, All, arith,
}
use open_htap_stack.Geometry.Floats.{Floats}
use open_htap_stack.Geometry.Polygon.{Vertex}
use open_htap_stack.Geometry.Wkt.{parse_wkt_polygon}
use open_htap_stack.Geometry.Printed.{Shows, wkt, parse_wkt_polygon-wkt}
use open_htap_stack.Sink.Alerts.{Zone}

module _ (fl : Floats) (metres : fl.Float → String) (float : List ℕ → Option fl.Float) where
  open fl use {Float}

  -- A row of restricted_zones.
  pub record ZoneRow : Type 0 where
    pub zone_id : String
    pub zone_name : String
    pub polygon_wkt : Option (List ℕ)
    pub severity : String
    pub enabled : Bool

  unfoldable pub loaded_zone : ZoneRow → Zone fl metres
  unfolding parse_wkt_polygon
  loaded_zone r = record {
    zone_id = r.zone_id;
    zone_name = r.zone_name;
    severity = r.severity;
    ring = parse_wkt_polygon float r.polygon_wkt;
  }

  -- The zones of the enabled rows.
  unfoldable pub enabled_zones : List ZoneRow → List (Zone fl metres)
  unfolding loaded_zone
  enabled_zones [] = []
  enabled_zones (r ∷ rows) =
      if r.enabled then loaded_zone r ∷ enabled_zones rows else enabled_zones rows

  -- `[z for z in self._zones if len(z["ring"]) >= 3]`
  unfoldable pub usable : List (Zone fl metres) → List (Zone fl metres)
  usable [] = []
  usable (z ∷ zones) = if ltb (length z.ring) 3 then usable zones else z ∷ usable zones

  -- `load_zones`, with the rows, or none where the read raises; the zones that were there.
  unfoldable pub load_zones : Option (List ZoneRow) → List (Zone fl metres) → List (Zone fl metres)
  unfolding enabled_zones usable
  load_zones none zones = zones
  load_zones (some rows) zones = usable (enabled_zones rows)

  abbrev pub IsUsable : Zone fl metres → Type 0
  IsUsable z = 3 ≤ length z.ring

  usable-IsUsable : (zones : List (Zone fl metres)) → All IsUsable (usable zones)
  unfolding usable
  usable-IsUsable [] = tt
  usable-IsUsable (z ∷ zones) = elim (Bool-cases (ltb (length z.ring) 3)) [
    | inl e ↦ rw e (usable-IsUsable zones)
    | inr e ↦ rw e (ground arith, usable-IsUsable zones)
  ]

  -- Whatever texts the table holds, and whether or not it can be read: if the zones before were
  -- polygons of three vertices or more, so are the zones after.
  pub load_zones-IsUsable :
      (rows : Option (List ZoneRow)) (zones : List (Zone fl metres))
      → All IsUsable zones
      → All IsUsable (load_zones rows zones)
  unfolding load_zones
  load_zones-IsUsable none zones h = h
  load_zones-IsUsable (some rows) zones h = usable-IsUsable (enabled_zones rows)

  -- What an operator draws, and the row that it is kept in.
  pub record Drawn : Type 0 where
    pub zone_id : String
    pub zone_name : String
    pub severity : String
    pub enabled : Bool
    pub vertices : List (Vertex fl)

  abbrev pub drawn_zone : Drawn → Zone fl metres
  drawn_zone d = record {
    zone_id = d.zone_id;
    zone_name = d.zone_name;
    severity = d.severity;
    ring = d.vertices;
  }

  -- The zone itself, if it is enabled and a polygon.
  abbrev pub expected : List Drawn → List (Zone fl metres)
  expected [] = []
  expected (d ∷ ds) =
      if d.enabled
      then if ltb (length d.vertices) 3 then expected ds else drawn_zone d ∷ expected ds
      else expected ds

  usable-if :
      (b : Bool) (z : Zone fl metres) (rest wanted : List (Zone fl metres))
      → usable rest ≡ wanted
      → usable (if b then z ∷ rest else rest)
        ≡ (if b then (if ltb (length z.ring) 3 then wanted else z ∷ wanted) else wanted)
  unfolding usable
  usable-if true z rest wanted h = rw h refl
  usable-if false z rest wanted h = h

  module _ (show : Float → List ℕ) (shows : Shows float show) where
    abbrev pub row_of : Drawn → ZoneRow
    row_of d = record {
      zone_id = d.zone_id;
      zone_name = d.zone_name;
      polygon_wkt = some (wkt float show shows d.vertices);
      severity = d.severity;
      enabled = d.enabled;
    }

    abbrev pub table_of : List Drawn → List ZoneRow
    table_of [] = []
    table_of (d ∷ ds) = row_of d ∷ table_of ds

    loaded_zone-row_of : (d : Drawn) → loaded_zone (row_of d) ≡ drawn_zone d
    unfolding loaded_zone
    loaded_zone-row_of d =
        ap
          (λ (ring : List (Vertex fl)).
            let z : Zone fl metres = record {
              zone_id = d.zone_id;
              zone_name = d.zone_name;
              severity = d.severity;
              ring = ring;
            } in
            z)
          (parse_wkt_polygon-wkt float show shows d.vertices)

    -- Of zones whose polygons are written in WKT, reading them back gives exactly the enabled ones of three
    -- vertices or more, each with the vertices that were written, in the order of the rows, whatever
    -- zones there were before.
    pub load_zones-wkt :
        (ds : List Drawn) (zones : List (Zone fl metres))
        → load_zones (some (table_of ds)) zones ≡ expected ds
    unfolding load_zones enabled_zones usable loaded_zone
    load_zones-wkt [] zones = refl
    load_zones-wkt (d ∷ ds) zones =
        ap
          (λ (z : Zone fl metres).
            usable
              (if d.enabled then z ∷ enabled_zones (table_of ds) else enabled_zones (table_of ds)))
          (loaded_zone-row_of d)
        ∙ usable-if d.enabled (drawn_zone d) (enabled_zones (table_of ds)) (expected ds)
            (load_zones-wkt ds zones)
