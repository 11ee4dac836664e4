-- ===== src/Sink/Tests/Zones.antt =====
-- The zones that are loaded of a small table.
use open_htap_stack.Prelude.{ℕ, ◌≡◌, refl, String, true, false, some, List, [], ◌∷◌}
use open_htap_stack.Prelude.Chars.{codes}
use open_htap_stack.Geometry.Grid.{grid, show, float, float-Shows}
use open_htap_stack.Geometry.Wkt.{parse_wkt_polygon}
use open_htap_stack.Geometry.Printed.{wkt, parse_wkt_polygon-wkt}
use open_htap_stack.Sink.Zones.{Drawn, load_zones, table_of, expected, load_zones-wkt}

abbrev metres : ℕ → String
metres d = "near"

-- A polygon with a number that is none in the middle; the pair is passed over.
parsed :
    parse_wkt_polygon float (some (codes "  polygon ((1 11, 1, 111 1 ) )) ")) ≡ (0, 1) ∷ (2, 0) ∷ []
unfolding parse_wkt_polygon
parsed = refl

abbrev triangle : List (ℕ × ℕ)
triangle = (3, 0) ∷ (2, 5) ∷ (0, 1) ∷ []

parse_wkt_polygon-wkt_example :
    parse_wkt_polygon float (some (wkt float show float-Shows triangle)) ≡ triangle
parse_wkt_polygon-wkt_example = parse_wkt_polygon-wkt float show float-Shows triangle

abbrev drawn : List (Drawn grid metres float)
drawn =
    record { zone_id = "a"; zone_name = "A"; severity = "low"; enabled = true; vertices = triangle }
    ∷ record {
      zone_id = "b";
      zone_name = "B";
      severity = "low";
      enabled = false;
      vertices = triangle;
    }
    ∷ record { zone_id = "c"; zone_name = "C"; severity = "low"; enabled = true; vertices = [] }
    ∷ []

load_zones-wkt_example :
    load_zones grid metres float (some (table_of grid metres float show float-Shows drawn)) []
    ≡ expected grid metres float drawn
load_zones-wkt_example = load_zones-wkt grid metres float show float-Shows drawn []
