-- ===== src/Geometry/Tests.antt =====
-- Containment on a grid, and the theorems at a square.
use open_htap_stack.Prelude.{◌≡◌, refl, true, List, [], ◌∷◌, arith}
use open_htap_stack.Geometry.Grid.{grid}
use open_htap_stack.Geometry.Polygon.{Vertex, crosses, point_in_polygon}
use open_htap_stack.Geometry.Laws.{ring_edges, met_by_ray, is_odd, point_in_polygon-parity}

abbrev corner : Vertex grid
corner = (10, 10)

abbrev others : List (Vertex grid)
others = (10, 20) ∷ (20, 20) ∷ (20, 10) ∷ []

inside_square : point_in_polygon grid 15 12 (corner ∷ others) ≡ true
unfolding point_in_polygon crosses
inside_square = refl

point_in_polygon-parity_example :
    point_in_polygon grid 15 12 (corner ∷ others)
    ≡ is_odd grid (met_by_ray grid 15 12 (ring_edges grid corner (corner ∷ others)))
point_in_polygon-parity_example = point_in_polygon-parity grid 15 12 corner others (omega arith)
