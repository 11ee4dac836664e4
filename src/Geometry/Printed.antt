-- ===== src/Geometry/Printed.antt =====
-- What `parse_wkt_polygon` of ingress/consumer/consumer.py makes of a polygon that is written in WKT.
use mathlib.Core.List.{append-nil, append_assoc}
use open_htap_stack.Prelude.{
  ℕ, ◌+◌, ◌-◌, ◌<◌, ◌≡◌, refl, sym, ◌∙◌, ap, Bool, false, Option, some, List, [], ◌∷◌, ◌++◌, ◌==◌,
  length, take, All, arith,
}
use open_htap_stack.Prelude.Chars.{codes, is_space, flush_word, split, behind}
use open_htap_stack.Geometry.Wkt.{
  strip_front, keep_before, strip_back, strip, upper, find_part, rfind_part, slice, put_first,
  split_comma, close_mark, vertex_of, ring_of, ring_between, parse_stripped, parse_wkt_polygon,
}

-- A character of a number's text.
abbrev pub IsPlain : ℕ → Type 0
IsPlain c = (is_space c ≡ false) × ((c == b',') ≡ false)

abbrev NoComma : ℕ → Type 0
NoComma c = (c == b',') ≡ false

-- The texts of the numbers: not empty, with no white space or comma, and read back as the numbers.
pub record Shows {F : Type 0} (float : List ℕ → Option F) (show : F → List ℕ) : Type 0 where
  pub nonempty : (x : F) → 0 < length (show x)
  pub plain : (x : F) → All IsPlain (show x)
  pub reads : (x : F) → float (show x) ≡ some x

keep_before-snoc :
    (d c : ℕ) (u : List ℕ) (b : Bool) → keep_before d (u ++ c ∷ []) b ≡ d ∷ (u ++ c ∷ [])
keep_before-snoc d c [] b = refl
keep_before-snoc d c (x ∷ u) b = refl

strip_back-snoc : (u : List ℕ) (c : ℕ) → is_space c ≡ false → strip_back (u ++ c ∷ []) ≡ u ++ c ∷ []
unfolding strip_back
strip_back-snoc [] c h = rw h refl
strip_back-snoc (d ∷ u) c h = rw (strip_back-snoc u c h) (keep_before-snoc d c u (is_space d))

rfind_part-end : (u : List ℕ) → rfind_part close_mark (u ++ close_mark) ≡ some (length u)
unfolding rfind_part behind
rfind_part-end [] = refl
rfind_part-end (c ∷ u) = rw (rfind_part-end u) refl

take-append : (u v : List ℕ) → take (length u) (u ++ v) ≡ u
take-append [] v = refl
take-append (c ∷ u) v = ap (λ (l : List ℕ). c ∷ l) (take-append u v)

-- A text with no comma in front of one.
split_comma-first : (u s : List ℕ) → All NoComma u → split_comma (u ++ b',' ∷ s) ≡ u ∷ split_comma s
unfolding split_comma
split_comma-first [] s h = refl
split_comma-first (c ∷ u) s h = rw (h.0, split_comma-first u s h.1) refl

split_comma-alone : (u : List ℕ) → All NoComma u → split_comma u ≡ u ∷ []
unfolding split_comma
split_comma-alone [] h = refl
split_comma-alone (c ∷ u) h = rw (h.0, split_comma-alone u h.1) refl

-- Two numbers' texts with a space between them.
NoComma-pair : (u v : List ℕ) → All IsPlain u → All IsPlain v → All NoComma (u ++ 32 ∷ v)
NoComma-pair [] [] h k = (refl, tt)
NoComma-pair [] (c ∷ v) h k = (refl, (k.0.1, (NoComma-pair [] v h k.1).1))
NoComma-pair (c ∷ u) v h k = (h.0.1, NoComma-pair u v h.1 k)

split-word : (w run rest : List ℕ) → All IsPlain w → split run (w ++ rest) ≡ split (run ++ w) rest
unfolding split
split-word [] run rest h = rw append-nil refl
split-word (c ∷ w) run rest h = rw h.0.0 (
    split-word w (run ++ c ∷ []) rest h.1
    ∙ ap (λ (l : List ℕ). split l rest) (append_assoc run (c ∷ []) w))

flush_word-nonempty : (w : List ℕ) (ws : List (List ℕ)) → 0 < length w → flush_word w ws ≡ w ∷ ws
flush_word-nonempty [] ws h = absurd (omega arith)
flush_word-nonempty (c ∷ w) ws h = refl

split-space : (run rest : List ℕ) → split run (32 ∷ rest) ≡ flush_word run (split [] rest)
unfolding split is_space
split-space run rest = refl

split_comma-space : (text : List ℕ) → split_comma (32 ∷ text) ≡ put_first 32 (split_comma text)
unfolding split_comma
split_comma-space text = refl

split-alone : (w : List ℕ) → All IsPlain w → 0 < length w → split [] w ≡ w ∷ []
unfolding split
split-alone w h nonempty =
    ap (λ (l : List ℕ). split [] l) (sym (append-nil w))
    ∙ split-word w [] [] h
    ∙ flush_word-nonempty w [] nonempty

module _ {F : Type 0} (float : List ℕ → Option F) (show : F → List ℕ)
    (shows : Shows float show) where
  -- The text of a vertex, and of the vertices.
  abbrev pub pair : F × F → List ℕ
  pair (x, y) = show x ++ 32 ∷ show y

  abbrev pub pairs : List (F × F) → List ℕ
  pairs [] = []
  pairs (v ∷ []) = pair v
  pairs (v ∷ w ∷ vs) = pair v ++ b',' ∷ 32 ∷ pairs (w ∷ vs)

  -- `POLYGON((lon lat, ...))`
  abbrev pub wkt : List (F × F) → List ℕ
  wkt ring = codes "POLYGON((" ++ pairs ring ++ close_mark

  split-pair : (x y : F) → split [] (pair (x, y)) ≡ show x ∷ show y ∷ []
  split-pair x y =
      split-word (show x) [] (32 ∷ show y) (shows.plain x)
      ∙ split-space (show x) (show y)
      ∙ flush_word-nonempty (show x) (split [] (show y)) (shows.nonempty x)
      ∙ ap (λ (ws : List (List ℕ)). show x ∷ ws)
          (split-alone (show y) (shows.plain y) (shows.nonempty y))

  ring_of-pair :
      (v : F × F) (rest : List (List ℕ)) → ring_of float (pair v ∷ rest) ≡ v ∷ ring_of float rest
  unfolding ring_of vertex_of
  ring_of-pair (x, y) rest = rw (split-pair x y, shows.reads x, shows.reads y) refl

  -- A space in front of a piece is nothing.
  ring_of-space :
      (pieces : List (List ℕ)) → ring_of float (put_first 32 pieces) ≡ ring_of float pieces
  unfolding ring_of split vertex_of is_space
  ring_of-space [] = refl
  ring_of-space (p ∷ pieces) = refl

  NoComma-vertex : (v : F × F) → All NoComma (pair v)
  NoComma-vertex (x, y) = NoComma-pair (show x) (show y) (shows.plain x) (shows.plain y)

  ring_of-comma :
      (v : F × F) (text : List ℕ)
      → ring_of float (split_comma (pair v ++ b',' ∷ 32 ∷ text))
        ≡ v ∷ ring_of float (split_comma text)
  ring_of-comma v text =
      ap (ring_of float) (split_comma-first (pair v) (32 ∷ text) (NoComma-vertex v))
      ∙ ring_of-pair v (split_comma (32 ∷ text))
      ∙ ap (λ (ring : List (F × F)). v ∷ ring)
          (ap (ring_of float) (split_comma-space text) ∙ ring_of-space (split_comma text))

  ring_of-end : ring_of float [] ≡ []
  unfolding ring_of
  ring_of-end = refl

  ring_of-nothing : ring_of float (split_comma []) ≡ []
  unfolding ring_of split_comma split vertex_of
  ring_of-nothing = refl

  ring_of-pairs : (ring : List (F × F)) → ring_of float (split_comma (pairs ring)) ≡ ring
  ring_of-pairs [] = ring_of-nothing
  ring_of-pairs (v ∷ []) =
      ap (ring_of float) (split_comma-alone (pair v) (NoComma-vertex v))
      ∙ ring_of-pair v []
      ∙ ap (λ (ring : List (F × F)). v ∷ ring) ring_of-end
  ring_of-pairs (v ∷ w ∷ vs) =
      ring_of-comma v (pairs (w ∷ vs))
      ∙ ap (λ (ring : List (F × F)). v ∷ ring) (ring_of-pairs (w ∷ vs))

  ends :
      (ring : List (F × F)) → (codes "POLYGON((" ++ pairs ring ++ codes ")") ++ b')' ∷ [] ≡ wkt ring
  ends ring =
      append_assoc (codes "POLYGON((") (pairs ring ++ codes ")") (b')' ∷ [])
      ∙ ap (λ (l : List ℕ). codes "POLYGON((" ++ l)
          (append_assoc (pairs ring) (codes ")") (b')' ∷ []))

  between :
      (ring : List (F × F))
      → slice (7 + 2) (length (codes "POLYGON((" ++ pairs ring)) (wkt ring) ≡ pairs ring
  between ring =
      ap (λ (n : ℕ). take n (pairs ring ++ close_mark))
        (let e : length (codes "POLYGON((" ++ pairs ring) - 9 ≡ length (pairs ring) = omega arith in
          e)
      ∙ take-append (pairs ring) close_mark

  parse_stripped-wkt : (ring : List (F × F)) → parse_stripped float (wkt ring) ≡ ring
  unfolding parse_stripped upper behind find_part ring_between
  parse_stripped-wkt ring =
      ap (λ (end : Option ℕ). ring_between float (some 7) end (wkt ring))
        (rfind_part-end (codes "POLYGON((" ++ pairs ring))
      ∙ ap (λ (l : List ℕ). ring_of float (split_comma l)) (between ring)
      ∙ ring_of-pairs ring

  strip-wkt : (ring : List (F × F)) → strip (wkt ring) ≡ wkt ring
  unfolding strip strip_front is_space
  strip-wkt ring =
      ap strip_back (sym (ends ring))
      ∙ strip_back-snoc (codes "POLYGON((" ++ pairs ring ++ codes ")") b')' refl
      ∙ ends ring

  -- A polygon that is written in WKT is read back as the same vertices in the same order, for numbers
  -- whose texts are not empty, have no white space and no comma, and are read back by `float()`.
  pub parse_wkt_polygon-wkt :
      (ring : List (F × F)) → parse_wkt_polygon float (some (wkt ring)) ≡ ring
  unfolding parse_wkt_polygon
  parse_wkt_polygon-wkt ring = ap (parse_stripped float) (strip-wkt ring) ∙ parse_stripped-wkt ring
