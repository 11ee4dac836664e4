-- ===== src/Geometry/Polygon.antt =====
-- Containment, distance and bearing (`point_in_polygon`, `distance_to_polygon_m`,
-- `haversine_distance_m` and `compute_bearing_deg`).
use open_htap_stack.Prelude.{
  Bool, true, false, not, ◌&&◌, List, [], ◌∷◌, ltb, length, if◌then◌else◌,
}
use open_htap_stack.Geometry.Floats.{Floats, max_of, min_of}

module _ (fl : Floats) where
  open fl use {
    Float, lt, eq, add, sub, mul, div, fmod, neg, hypot, sqrt, sin, cos, asin, atan2, radians,
    degrees, infinity, lit,
  }

  -- A vertex is (lon, lat).
  abbrev pub Vertex : Type 0
  Vertex = Float × Float

  abbrev pub xor_of : Bool → Bool → Bool
  xor_of true b = not b
  xor_of false b = b

  -- Whether the edge from `w` to `v` is crossed by the ray: the two tests of the loop's body.
  unfoldable pub crosses : Float → Float → Vertex → Vertex → Bool
  crosses lat lon (xi, yi) (xj, yj) =
      xor_of (lt lat yi) (lt lat yj)
      && lt lon (add xi (div (mul (sub xj xi) (sub lat yi)) (sub yj yi)))

  -- The loop, with the vertex `polygon[j]` that it has just passed.
  unfoldable pub ray_loop : Float → Float → Vertex → Bool → List Vertex → Bool
  ray_loop lat lon prev inside [] = inside
  ray_loop lat lon prev inside (v ∷ rest) =
      ray_loop lat lon v (if crosses lat lon v prev then not inside else inside) rest

  unfoldable pub last_of : Vertex → List Vertex → Vertex
  last_of v [] = v
  last_of v (w ∷ rest) = last_of w rest

  unfoldable pub point_in_polygon : Float → Float → List Vertex → Bool
  unfolding ray_loop last_of
  point_in_polygon lat lon [] = false
  point_in_polygon lat lon (v ∷ rest) =
      if ltb (length (v ∷ rest)) 3
      then false
      else ray_loop lat lon (last_of v rest) false (v ∷ rest)

  -- `M_PER_DEG_LAT * max(math.cos(math.radians(lat)), 0.01)`
  unfoldable pub m_per_deg_lon : Float → Float
  m_per_deg_lon lat = mul (lit 111320 0) (max_of fl (cos (radians lat)) (lit 1 2))

  -- The distance in metres from the point to the edge from `v` to `w`.
  unfoldable pub edge_distance : Float → Float → Vertex → Vertex → Float
  unfolding m_per_deg_lon
  edge_distance lat lon (vlon, vlat) (wlon, wlat) =
      let ax = mul (sub vlon lon) (m_per_deg_lon lat) in
      let ay = mul (sub vlat lat) (lit 111320 0) in
      let dx = sub (mul (sub wlon lon) (m_per_deg_lon lat)) ax in
      let dy = sub (mul (sub wlat lat) (lit 111320 0)) ay in
      let length_sq = add (mul dx dx) (mul dy dy) in
      let t =
        if eq length_sq (lit 0 0)
        then lit 0 0
        else max_of fl (lit 0 0)
            (min_of fl (lit 1 0) (div (neg (add (mul ax dx) (mul ay dy))) length_sq)) in
      hypot (add ax (mul t dx)) (add ay (mul t dy))

  -- `polygon[i]` with `polygon[(i + 1) % len(polygon)]`, for each i.
  unfoldable pub edges_from : Vertex → List Vertex → List (Vertex × Vertex)
  edges_from first [] = []
  edges_from first (v ∷ []) = (v, first) ∷ []
  edges_from first (v ∷ w ∷ rest) = (v, w) ∷ edges_from first (w ∷ rest)

  unfoldable pub nearest_loop : Float → Float → Float → List (Vertex × Vertex) → Float
  nearest_loop lat lon nearest [] = nearest
  nearest_loop lat lon nearest ((v, w) ∷ rest) =
      nearest_loop lat lon (min_of fl nearest (edge_distance lat lon v w)) rest

  -- `nearest` after the loop over the ring.
  unfoldable pub nearest_edge : Float → Float → List Vertex → Float
  unfolding nearest_loop edges_from
  nearest_edge lat lon [] = infinity
  nearest_edge lat lon (v ∷ rest) = nearest_loop lat lon infinity (edges_from v (v ∷ rest))

  unfoldable pub distance_to_polygon_m : Float → Float → List Vertex → Float
  unfolding nearest_edge
  distance_to_polygon_m lat lon polygon =
      if ltb (length polygon) 3
      then infinity
      else if point_in_polygon lat lon polygon
      then lit 0 0
      else nearest_edge lat lon polygon

  unfoldable pub haversine_distance_m : Float → Float → Float → Float → Float
  haversine_distance_m lat1 lon1 lat2 lon2 =
      let rlat1 = radians lat1 in
      let rlat2 = radians lat2 in
      let dlat = sub rlat2 rlat1 in
      let dlon = radians (sub lon2 lon1) in
      let s = sin (div dlat (lit 2 0)) in
      let u = sin (div dlon (lit 2 0)) in
      let a = add (mul s s) (mul (mul (cos rlat1) (cos rlat2)) (mul u u)) in
      mul (mul (lit 2 0) (lit 6371000 0)) (asin (min_of fl (lit 1 0) (sqrt a)))

  unfoldable pub compute_bearing_deg : Float → Float → Float → Float → Float
  compute_bearing_deg lat1 lon1 lat2 lon2 =
      let rlat1 = radians lat1 in
      let rlat2 = radians lat2 in
      let dlon = radians (sub lon2 lon1) in
      let x = mul (sin dlon) (cos rlat2) in
      let y = sub (mul (cos rlat1) (sin rlat2)) (mul (mul (sin rlat1) (cos rlat2)) (cos dlon)) in
      fmod (add (degrees (atan2 x y)) (lit 360 0)) (lit 360 0)
