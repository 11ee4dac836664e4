-- ===== src/Geometry/Laws.antt =====
-- What containment and distance come to.
use open_htap_stack.Prelude.{
  ℕ, ◌+◌, ◌%◌, ◌≤◌, ◌≡◌, refl, ◌∙◌, Bool, true, false, not, ◌&&◌, ◌||◌, List, [], ◌∷◌, ltb, ◌==◌,
  length, All, arith, if◌then◌else◌,
}
use open_htap_stack.Geometry.Floats.{Floats, IsOrdered, min_of}
use open_htap_stack.Geometry.Polygon.{
  Vertex, crosses, ray_loop, last_of, point_in_polygon, edge_distance, edges_from, nearest_loop,
  distance_to_polygon_m,
}

module _ (fl : Floats) where
  open fl use {Float, lt, add, sub, mul, div, infinity, lit}

  -- A ring's edges, each from a vertex to the one behind it, the last vertex's to the first.
  abbrev pub ring_edges : Vertex fl → List (Vertex fl) → List (Vertex fl × Vertex fl)
  ring_edges first [] = []
  ring_edges first (v ∷ []) = (v, first) ∷ []
  ring_edges first (v ∷ w ∷ rest) = (v, w) ∷ ring_edges first (w ∷ rest)

  -- One end of the edge lies above the point's latitude, and the other does not.
  abbrev pub straddles : Float → Vertex fl × Vertex fl → Bool
  straddles lat ((_, y), (_, y')) = (lt lat y && not (lt lat y')) || (not (lt lat y) && lt lat y')

  -- The longitude at which the edge's line meets a latitude, reckoned from the edge's end.
  abbrev pub meets_at : Float → Vertex fl × Vertex fl → Float
  meets_at lat ((x, y), (x', y')) = add x' (div (mul (sub x x') (sub lat y')) (sub y y'))

  -- How many of the edges are met by the ray that leaves the point eastwards.
  abbrev pub met_by_ray : Float → Float → List (Vertex fl × Vertex fl) → ℕ
  met_by_ray lat lon [] = 0
  met_by_ray lat lon (e ∷ es) =
      (if straddles lat e && lt lon (meets_at lat e) then 1 else 0) + met_by_ray lat lon es

  abbrev pub is_odd : ℕ → Bool
  is_odd n = n % 2 == 1

  crosses-eq :
      (lat lon : Float) (v w : Vertex fl)
      → crosses fl lat lon w v ≡ (straddles lat (v, w) && lt lon (meets_at lat (v, w)))
  unfolding crosses
  crosses-eq lat lon (x, y) (x', y') = ground arith

  -- the edges of a path, in the order of the loop
  path_edges : Vertex fl → List (Vertex fl) → List (Vertex fl × Vertex fl)
  path_edges prev [] = []
  path_edges prev (v ∷ rest) = (prev, v) ∷ path_edges v rest

  ray_loop-parity :
      (lat lon : Float) (prev : Vertex fl) (inside : Bool) (ring : List (Vertex fl))
      → ray_loop fl lat lon prev inside ring
        ≡ (if is_odd (met_by_ray lat lon (path_edges prev ring)) then not inside else inside)
  unfolding ray_loop path_edges
  ray_loop-parity lat lon prev inside [] = refl
  ray_loop-parity lat lon prev inside (v ∷ rest) =
      ray_loop-parity lat lon v (if crosses fl lat lon v prev then not inside else inside) rest
      ∙ ground (arith, crosses-eq lat lon prev v)

  -- the closing edge, which the ring has last, stands first in the loop
  met_by_ray-ring_edges :
      (lat lon : Float) (first v : Vertex fl) (rest : List (Vertex fl))
      → met_by_ray lat lon (ring_edges first (v ∷ rest))
        ≡ met_by_ray lat lon ((last_of fl v rest, first) ∷ path_edges v rest)
  unfolding last_of path_edges
  met_by_ray-ring_edges lat lon first v [] = refl
  met_by_ray-ring_edges lat lon first v (w ∷ rest) =
      let more = met_by_ray-ring_edges lat lon first w rest in ground (arith, more)

  -- The ray casting of a ring of at least three vertices: a point is inside exactly when an odd number
  -- of the ring's edges, from each vertex to the next and from the last to the first, have one end
  -- above the point's latitude and the other not, and meet that latitude east of the point.
  pub point_in_polygon-parity :
      (lat lon : Float) (v : Vertex fl) (rest : List (Vertex fl))
      → 2 ≤ length rest
      → point_in_polygon fl lat lon (v ∷ rest)
        ≡ is_odd (met_by_ray lat lon (ring_edges v (v ∷ rest)))
  unfolding point_in_polygon path_edges
  point_in_polygon-parity lat lon v rest h =
      let shape : ltb (length (v ∷ rest)) 3 ≡ false = ground arith in
      let same = met_by_ray-ring_edges lat lon v v rest in
      rw (shape, same) (ray_loop-parity lat lon (last_of fl v rest) false (v ∷ rest) ∙ ground arith)

  module _ (ord : IsOrdered fl) where
    min_of-le_left : (a b : Float) → lt a (min_of fl a b) ≡ false
    min_of-le_left a b = ground (arith, ord.irreflexive a, ord.asymmetric b a)

    min_of-le_right : (a b : Float) → lt b (min_of fl a b) ≡ false
    min_of-le_right a b = ground (arith, ord.irreflexive b)

    nearest_loop-le :
        (lat lon nearest : Float) (edges : List (Vertex fl × Vertex fl))
        → (lt nearest (nearest_loop fl lat lon nearest edges) ≡ false)
          × All
              (λ e.
                lt (edge_distance fl lat lon e.0 e.1) (nearest_loop fl lat lon nearest edges)
                ≡ false)
              edges
    unfolding nearest_loop
    nearest_loop-le lat lon nearest [] = (ord.irreflexive nearest, tt)
    nearest_loop-le lat lon nearest ((v, w) ∷ rest) =
        let d = edge_distance fl lat lon v w in
        let (below, each) = nearest_loop-le lat lon (min_of fl nearest d) rest in
        (
          ord.transitive nearest (min_of fl nearest d) _ (min_of-le_left nearest d) below,
          (ord.transitive d (min_of fl nearest d) _ (min_of-le_right nearest d) below, each),
        )

    -- Of a ring of at least three vertices, the distance is 0 for a point inside, and for another no
    -- edge of the ring is nearer than the distance, the closing edge included.
    pub distance_to_polygon_m-le :
        (lat lon : Float) (v : Vertex fl) (rest : List (Vertex fl))
        → 2 ≤ length rest
        → (point_in_polygon fl lat lon (v ∷ rest) ≡ true
            → distance_to_polygon_m fl lat lon (v ∷ rest) ≡ lit 0 0)
          × (point_in_polygon fl lat lon (v ∷ rest) ≡ false
              → All
                  (λ e.
                    lt
                      (edge_distance fl lat lon e.0 e.1)
                      (distance_to_polygon_m fl lat lon (v ∷ rest))
                    ≡ false)
                  (edges_from fl v (v ∷ rest)))
    unfolding distance_to_polygon_m
    distance_to_polygon_m-le lat lon v rest h =
        let shape : ltb (length (v ∷ rest)) 3 ≡ false = ground arith in
        (
          λ inside. rw (shape, inside) refl,
          λ outside.
              rw (shape, outside) (nearest_loop-le lat lon infinity (edges_from fl v (v ∷ rest))).1,
        )

  -- What is no polygon holds no point, and is infinitely far.
  pub degenerate :
      (lat lon : Float) (ring : List (Vertex fl))
      → ltb (length ring) 3 ≡ true
      → (point_in_polygon fl lat lon ring ≡ false)
        × (distance_to_polygon_m fl lat lon ring ≡ infinity)
  unfolding distance_to_polygon_m point_in_polygon
  degenerate lat lon [] h = (refl, refl)
  degenerate lat lon (v ∷ rest) h = (rw h refl, rw h refl)
