-- ===== src/Cqlite/Stripped.antt =====
-- The prefixes that `readable_error` of backend/app/db/cqlite_client.py strips.
use mathlib.Core.List.{Memᴰ}
use mathlib.Core.Option.{some-injective}
use open_htap_stack.Prelude.{
  ℕ, zero, suc, ◌+◌, ◌≤◌, ◌<◌, ◌≡◌, refl, sym, ◌∙◌, ap, subst, Bool, true, false, Bool-cases,
  Option-cases, inl, inr, Option, none, some, List, [], ◌∷◌, ◌++◌, ==_iff, length, length-append,
  take, arith,
}
use open_htap_stack.Prelude.Chars.{split, behind}
use open_htap_stack.Cqlite.Message.{
  join, prefixes, strip_one, sweep, strip_all, cut, message_limit, readable_error,
}

-- No prefix stands in front.
abbrev pub Bare : List (List ℕ) → List ℕ → Type 0
Bare [] text = Unit {0}
Bare (p ∷ ps) text = (behind p text ≡ none) × Bare ps text

abbrev Filled : List (List ℕ) → Type 0
Filled [] = Unit {0}
Filled (p ∷ ps) = (0 < length p) × Filled ps

-- What is left of a text when some of the prefixes are taken off its front, one after the other.
pub data Strips (ps : List (List ℕ)) (rest : List ℕ) : List ℕ → Type 0 where
  all_off : {text : List ℕ} → text ≡ rest → Strips ps rest text
  one_off :
      {text : List ℕ} (p between : List ℕ)
      → Memᴰ p ps
      → text ≡ p ++ between
      → Strips ps rest between
      → Strips ps rest text

Strips-trans : {ps : List (List ℕ)} {b a c : List ℕ} → Strips ps b a → Strips ps c b → Strips ps c a
Strips-trans {ps} {b} {a} {c} (all_off e) t = subst (λ (x : List ℕ). Strips ps c x) (sym e) t
Strips-trans (one_off p between m e s) t = one_off p between m e (Strips-trans s t)

Strips-tail :
    {ps : List (List ℕ)} {rest text : List ℕ} (p : List ℕ)
    → Strips ps rest text
    → Strips (p ∷ ps) rest text
Strips-tail p (all_off e) = all_off e
Strips-tail p (one_off q between m e s) = one_off q between (Memᴰ.tail m) e (Strips-tail p s)

behind-eq : (p text rest : List ℕ) → behind p text ≡ some rest → text ≡ p ++ rest
unfolding behind
behind-eq [] text rest h = some-injective text rest h
behind-eq (p ∷ ps) [] rest h = cc
behind-eq (p ∷ ps) (c ∷ cs) rest h = ground (arith, ==_iff p c, behind-eq ps cs rest)

-- What a sweep comes to.
record Swept (ps : List (List ℕ)) (text : List ℕ) (out : Bool × List ℕ) : Type 0 where
  strips : Strips ps out.1 text
  no_longer : length out.1 ≤ length text
  bare : out.0 ≡ false → Bare ps text × (out.1 ≡ text)
  shorter : out.0 ≡ true → length out.1 < length text

longer-than :
    (front rest text : List ℕ) → text ≡ front ++ rest → length text ≡ length front + length rest
longer-than front rest text h = ap length h ∙ length-append front rest

sweep-found :
    (p : List ℕ) (ps : List (List ℕ)) (text after : List ℕ) (out : Bool × List ℕ)
    → 0 < length p
    → behind p text ≡ some after
    → Swept ps after out
    → Swept (p ∷ ps) text (true, out.1)
sweep-found p ps text after out h e s =
    let whole = behind-eq p text after e in
    let a = longer-than p after text whole in
    record {
      strips = one_off p after (Memᴰ.head refl) whole (Strips-tail p s.strips);
      no_longer = omega (arith, a, s.no_longer);
      bare = λ f. cc;
      shorter = λ t. omega (arith, a, s.no_longer);
    }

sweep-missed :
    (p : List ℕ) (ps : List (List ℕ)) (text : List ℕ) (out : Bool × List ℕ)
    → behind p text ≡ none
    → Swept ps text out
    → Swept (p ∷ ps) text out
sweep-missed p ps text out e s = record {
  strips = Strips-tail p s.strips;
  no_longer = s.no_longer;
  bare = λ f. let (b, same) = s.bare f in ((e, b), same);
  shorter = s.shorter;
}

sweep-Swept : (ps : List (List ℕ)) (text : List ℕ) → Filled ps → Swept ps text (sweep ps text)
unfolding sweep strip_one
sweep-Swept [] text h = record {
  strips = all_off refl;
  no_longer = omega arith;
  bare = λ f. (tt, refl);
  shorter = λ t. cc;
}
sweep-Swept (p ∷ ps) text h = elim (Option-cases (behind p text)) [
  | inl e ↦ rw e (sweep-missed p ps text (sweep ps text) e (sweep-Swept ps text h.1))
  | inr (after, e) ↦
      rw e (sweep-found p ps text after (sweep ps after) h.0 e (sweep-Swept ps after h.1))
]

-- The loop ends within the length of the text: it takes prefixes off until none stands in front.
strip_all-returns :
    (fuel : ℕ) (ps : List (List ℕ)) (text : List ℕ)
    → Filled ps
    → length text < fuel
    → (rest : List ℕ) × (strip_all fuel ps text ≡ some rest) × Bare ps rest × Strips ps rest text
unfolding strip_all
strip_all-returns zero ps text h k = absurd (omega arith)
strip_all-returns (suc fuel) ps text h k =
    let s = sweep-Swept ps text h in
    elim (Bool-cases (sweep ps text).0) [
      | inl e ↦
          let (rest, found, bare, ends) =
            strip_all-returns fuel ps (sweep ps text).1 h (omega (arith, s.shorter e)) in
          (rest, rw e found, bare, Strips-trans s.strips ends)
      | inr e ↦
          let (bare, same) = s.bare e in
          (
            (sweep ps text).1,
            rw e refl,
            subst (λ (t : List ℕ). Bare ps t) (sym same) bare,
            s.strips,
          )
    ]

-- Whatever the text of an error, with its white space normalised: the stripping comes to an end within
-- the fuel, having taken nothing but prefixes of the five off the front until none of them stands there,
-- and the message is the first 400 characters of what is left.
pub readable_error-returns :
    (error : List ℕ)
    → (rest : List ℕ) × (strip_all
          (length (join (split [] error)) + 1)
          prefixes
          (join (split [] error))
        ≡ some rest)
      × (readable_error error ≡ take message_limit rest)
      × Bare prefixes rest
      × Strips prefixes rest (join (split [] error))
unfolding readable_error
readable_error-returns error =
    let text = join (split [] error) in
    let (rest, found, bare, ends) =
      strip_all-returns (length text + 1) prefixes text (omega arith) (omega arith) in
    (rest, found, ap (λ (o : Option (List ℕ)). cut o) found, bare, ends)
