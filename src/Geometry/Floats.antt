-- ===== src/Geometry/Floats.antt =====
-- Python's floats and the functions of its `math` module that the program calls: parameters of the
-- model, of which only the order is assumed to have laws.
use open_htap_stack.Prelude.{ℕ, ◌≡◌, Bool, true, false, if◌then◌else◌}

pub record Floats : Type 1 where
  pub Float : Type 0
  -- `a < b` and `a == b`
  pub lt : Float → Float → Bool
  pub eq : Float → Float → Bool
  pub add : Float → Float → Float
  pub sub : Float → Float → Float
  pub mul : Float → Float → Float
  pub div : Float → Float → Float
  pub fmod : Float → Float → Float
  pub neg : Float → Float
  pub hypot : Float → Float → Float
  pub sqrt : Float → Float
  pub sin : Float → Float
  pub cos : Float → Float
  pub asin : Float → Float
  pub atan2 : Float → Float → Float
  pub radians : Float → Float
  pub degrees : Float → Float
  pub infinity : Float
  -- `lit m k` is the literal m / 10 ^ k
  pub lit : ℕ → ℕ → Float

-- The order of floats that are no NaN.
pub record IsOrdered (fl : Floats) : Type 0 where
  pub irreflexive : (a : fl.Float) → fl.lt a a ≡ false
  -- what is not below `b` is not below what `b` is not below
  pub transitive : (a b c : fl.Float) → fl.lt a b ≡ false → fl.lt b c ≡ false → fl.lt a c ≡ false
  pub asymmetric : (a b : fl.Float) → fl.lt a b ≡ true → fl.lt b a ≡ false

module _ (fl : Floats) where
  open fl use {Float, lt}

  -- Python's `max(a, b)` and `min(a, b)` keep the first of equals.
  abbrev pub max_of : Float → Float → Float
  max_of a b = if lt a b then b else a

  abbrev pub min_of : Float → Float → Float
  min_of a b = if lt b a then b else a
