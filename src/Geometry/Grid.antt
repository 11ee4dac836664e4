-- ===== src/Geometry/Grid.antt =====
-- A grid in place of the floats, for the tests.
use open_htap_stack.Prelude.{
  ℕ, zero, suc, ◌+◌, ◌-◌, ◌*◌, ◌/◌, ◌%◌, ◌<◌, ◌≡◌, refl, Option, none, some, List, [], ◌∷◌, ltb,
  ◌==◌, length, All, arith,
}
use open_htap_stack.Prelude.Chars.{is_space}
use open_htap_stack.Geometry.Printed.{IsPlain, Shows}
use open_htap_stack.Geometry.Floats.{Floats, IsOrdered}

-- natural numbers: enough where no value is negative
abbrev pub grid : Floats
grid = record {
  Float = ℕ;
  lt = ltb;
  eq = λ a b. a == b;
  add = λ a b. a + b;
  sub = λ a b. a - b;
  mul = λ a b. a * b;
  div = λ a b. a / b;
  fmod = λ a b. a % b;
  neg = λ a. a;
  hypot = λ a b. a + b;
  sqrt = λ a. a;
  sin = λ a. a;
  cos = λ a. a;
  asin = λ a. a;
  atan2 = λ a b. a;
  radians = λ a. a;
  degrees = λ a. a;
  infinity = 1000000000;
  lit = λ m k. m / 10;
}

pub grid-IsOrdered : IsOrdered grid
grid-IsOrdered = record {
  irreflexive = λ a. ground arith;
  transitive = λ a b c h k. ground arith;
  asymmetric = λ a b h. ground arith;
}

-- Numbers as texts of ones, one more than the number.
abbrev pub show : ℕ → List ℕ
show zero = b'1' ∷ []
show (suc n) = b'1' ∷ show n

abbrev pub float : List ℕ → Option ℕ
float [] = none
float (c ∷ []) = some 0
float (c ∷ d ∷ cs) = elim (float (d ∷ cs)) [ none ↦ none | some n ↦ some (suc n) ]

float-show : (n : ℕ) → float (show n) ≡ some n
float-show zero = refl
float-show (suc zero) = refl
float-show (suc (suc n)) = rw (float-show (suc n)) refl

length-show : (n : ℕ) → 0 < length (show n)
length-show zero = omega arith
length-show (suc n) = omega arith

All-show : (n : ℕ) → All IsPlain (show n)
unfolding is_space
All-show zero = ((refl, refl), tt)
All-show (suc n) = ((refl, refl), All-show n)

pub float-Shows : Shows float show
float-Shows = record { nonempty = length-show; plain = All-show; reads = float-show }
