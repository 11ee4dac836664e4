-- ===== src/Geometry/Wkt.antt =====
-- `parse_wkt_polygon`, of ingress/consumer/consumer.py and backend/app/utils/geometry.py. A text is the
-- list of its code points; Python's `float()` on a text is a parameter.
use open_htap_stack.Prelude.{
  ℕ, suc, ◌+◌, ◌-◌, Bool, true, false, ◌&&◌, Option, none, some, List, [], ◌∷◌, leb, ◌==◌,
  if◌then◌else◌, take, drop,
}
use open_htap_stack.Prelude.Chars.{codes, is_space, split, behind}

-- `text.lstrip()`
unfoldable pub strip_front : List ℕ → List ℕ
unfolding is_space
strip_front [] = []
strip_front (c ∷ cs) = if is_space c then strip_front cs else c ∷ cs

-- `text.rstrip()`: a white space stays only in front of something that stays.
abbrev pub keep_before : ℕ → List ℕ → Bool → List ℕ
keep_before c [] true = []
keep_before c [] false = c ∷ []
keep_before c (d ∷ ds) space = c ∷ d ∷ ds

unfoldable pub strip_back : List ℕ → List ℕ
unfolding is_space
strip_back [] = []
strip_back (c ∷ cs) = keep_before c (strip_back cs) (is_space c)

-- `text.strip()`
unfoldable pub strip : List ℕ → List ℕ
unfolding strip_front strip_back
strip text = strip_back (strip_front text)

-- `str.upper`, for a text that is compared with one of ASCII letters.
unfoldable pub upper : List ℕ → List ℕ
upper [] = []
upper (c ∷ cs) = (if leb 97 c && leb c 122 then c - 32 else c) ∷ upper cs

abbrev pub is_found : Option (List ℕ) → Bool
is_found none = false
is_found (some rest) = true

abbrev pub next : Option ℕ → Option ℕ
next none = none
next (some i) = some (suc i)

-- `text.find(part)`, for a part that is not empty; `none` is -1.
unfoldable pub find_part : List ℕ → List ℕ → Option ℕ
unfolding behind
find_part part [] = none
find_part part (c ∷ cs) =
    if is_found (behind part (c ∷ cs)) then some 0 else next (find_part part cs)

abbrev pub later : Option ℕ → Bool → Option ℕ
later (some i) here = some (suc i)
later none true = some 0
later none false = none

-- `text.rfind(part)`, likewise.
unfoldable pub rfind_part : List ℕ → List ℕ → Option ℕ
unfolding behind
rfind_part part [] = none
rfind_part part (c ∷ cs) = later (rfind_part part cs) (is_found (behind part (c ∷ cs)))

-- `text[start:end]`, empty where the end is no later than the start.
abbrev pub slice : ℕ → ℕ → List ℕ → List ℕ
slice start end text = take (end - start) (drop start text)

-- `text.split(",")`
abbrev pub put_first : ℕ → List (List ℕ) → List (List ℕ)
put_first c [] = (c ∷ []) ∷ []
put_first c (w ∷ ws) = (c ∷ w) ∷ ws

unfoldable pub split_comma : List ℕ → List (List ℕ)
split_comma [] = [] ∷ []
split_comma (c ∷ cs) = if c == b',' then [] ∷ split_comma cs else put_first c (split_comma cs)

abbrev pub open_mark : List ℕ
open_mark = codes "(("

abbrev pub close_mark : List ℕ
close_mark = codes "))"

module _ {F : Type 0} (float : List ℕ → Option F) where
  -- The pair of two readings, unless one of them raised ValueError.
  abbrev pub both : Option F → Option F → Option (F × F)
  both (some x) (some y) = some (x, y)
  both (some x) none = none
  both none o = none

  -- The body of the loop, on the parts of a pair.
  unfoldable pub vertex_of : List (List ℕ) → Option (F × F)
  vertex_of [] = none
  vertex_of (x ∷ []) = none
  vertex_of (x ∷ y ∷ rest) = both (float x) (float y)

  abbrev pub add_vertex : Option (F × F) → List (F × F) → List (F × F)
  add_vertex none ring = ring
  add_vertex (some v) ring = v ∷ ring

  -- The loop over the pairs.
  unfoldable pub ring_of : List (List ℕ) → List (F × F)
  unfolding vertex_of split
  ring_of [] = []
  ring_of (pair ∷ pairs) = add_vertex (vertex_of (split [] pair)) (ring_of pairs)

  unfoldable pub ring_between : Option ℕ → Option ℕ → List ℕ → List (F × F)
  unfolding ring_of split_comma
  ring_between none end text = []
  ring_between (some start) none text = []
  ring_between (some start) (some end) text = ring_of (split_comma (slice (start + 2) end text))

  unfoldable pub parse_stripped : List ℕ → List (F × F)
  unfolding ring_between find_part rfind_part upper behind
  parse_stripped text =
      if is_found (behind (codes "POLYGON") (upper text))
      then ring_between (find_part open_mark text) (rfind_part close_mark text) text
      else []

  -- `parse_wkt_polygon`; a missing text counts as an empty one.
  unfoldable pub parse_wkt_polygon : Option (List ℕ) → List (F × F)
  unfolding parse_stripped strip
  parse_wkt_polygon none = parse_stripped []
  parse_wkt_polygon (some wkt) = parse_stripped (strip wkt)
