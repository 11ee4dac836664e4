-- ===== src/Compare/Chosen.antt =====
-- The engines that `_requested_engines` gives, against the names that were asked for.
use open_htap_stack.Prelude.{
  ◌≡◌, refl, subst, sym, ◌∙◌, String, Bool, true, false, not, ◌&&◌, some, List, [], ◌∷◌, contains,
  ◌=s=◌, eq_iff, arith, inl, inr, Bool-cases,
}
use open_htap_stack.Compare.Engines.{
  engines, Choice, chosen, unknown_of, unseen_of, in_display_order, choice_of, order_names,
  check_unknown, requested_engines,
}

-- No name stands twice.
abbrev pub IsOnce : List String → Type 0
IsOnce [] = Unit
IsOnce (x ∷ xs) = (contains x xs ≡ false) × IsOnce xs

contains-unseen_of :
    (x : String) (seen names : List String)
    → contains x (unseen_of seen names) ≡ (contains x names && not (contains x seen))
unfolding contains unseen_of
contains-unseen_of x seen [] = refl
contains-unseen_of x seen (n ∷ ns) =
    ground (arith, eq_iff n x, contains-unseen_of x seen ns, contains-unseen_of x (n ∷ seen) ns)

contains-own : (x : String) (xs : List String) → contains x (x ∷ xs) ≡ true
unfolding contains
contains-own x xs = ground (arith, eq_iff x x)

unseen_of-IsOnce : (seen names : List String) → IsOnce (unseen_of seen names)
unfolding unseen_of
unseen_of-IsOnce seen [] = tt
unseen_of-IsOnce seen (n ∷ ns) = elim (Bool-cases (contains n seen)) [
  | inl skipped ↦ rw skipped (unseen_of-IsOnce seen ns)
  | inr taken ↦ rw taken (
    contains-unseen_of n (n ∷ seen) ns ∙ ground (arith, contains-own n seen),
    unseen_of-IsOnce (n ∷ seen) ns,
  )
]

contains-in_display_order :
    (x : String) (names es : List String)
    → contains x (in_display_order names es) ≡ (contains x es && contains x names)
unfolding contains in_display_order
contains-in_display_order x names [] = refl
contains-in_display_order x names (e ∷ es) =
    ground (arith, eq_iff e x, contains-in_display_order x names es)

in_display_order-IsOnce : (names es : List String) → IsOnce es → IsOnce (in_display_order names es)
unfolding in_display_order
in_display_order-IsOnce names [] once = tt
in_display_order-IsOnce names (e ∷ es) once = elim (Bool-cases (contains e names)) [
  | inl asked ↦ rw asked (
    contains-in_display_order e names es ∙ rw (once.0) refl,
    in_display_order-IsOnce names es once.1,
  )
  | inr left ↦ rw left (in_display_order-IsOnce names es once.1)
]

engines-IsOnce : IsOnce engines
unfolding contains
engines-IsOnce = (refl, (refl, (refl, (refl, (refl, tt)))))

nonempty : (n : String) (ns : List String) → ¬ ((n ∷ ns) ≡ [])
nonempty n ns h = ground (arith, h)

none_seen : (x : String) (b : Bool) → (b && not (contains x [])) ≡ b
unfolding contains
none_seen x true = refl
none_seen x false = refl

both_or_none : (a b : Bool) → (b ≡ true → a ≡ true) → (a && b) ≡ b
both_or_none true b h = refl
both_or_none false true h = h refl
both_or_none false false h = refl

known_of :
    (x : String) (names : List String)
    → unknown_of names ≡ []
    → contains x names ≡ true
    → contains x engines ≡ true
unfolding unknown_of contains
known_of x [] h at = absurd (ground (arith, at))
known_of x (n ∷ ns) h at = elim (Bool-cases (contains n engines)) [
  | inl known ↦ elim (Bool-cases (n =s= x)) [
    | inl same ↦ subst (λ y. contains y engines ≡ true) ((eq_iff n x).0 same) known
    | inr other ↦ known_of x ns (rw known at (h)) (rw other at (at))
  ]
  | inr strange ↦ absurd (nonempty n (unknown_of ns) (rw strange at (h)))
]

choice_of-chosen : (l es : List String) → choice_of l ≡ chosen es → l ≡ es
unfolding choice_of
choice_of-chosen [] es h = absurd (ground (arith, h))
choice_of-chosen (n ∷ ns) es h = ground (arith, h)

-- What an order keeps of the names, where none is unknown.
abbrev IsOrdering : List String → List String → Type 0
IsOrdering names es = ((x : String) → contains x es ≡ contains x names) × IsOnce es

order_names-IsOrdering :
    (keep_order : Bool) (names es : List String)
    → unknown_of names ≡ []
    → order_names keep_order names ≡ chosen es
    → IsOrdering names es
unfolding order_names
order_names-IsOrdering true names es known h =
    subst (IsOrdering names) (choice_of-chosen (unseen_of [] names) es h) (
      λ x. contains-unseen_of x [] names ∙ none_seen x (contains x names),
      unseen_of-IsOnce [] names,
    )
order_names-IsOrdering false names es known h =
    subst (IsOrdering names) (choice_of-chosen (in_display_order names engines) es h) (
      λ x.
          contains-in_display_order x names engines
          ∙ both_or_none (contains x engines) (contains x names) (known_of x names known),
      in_display_order-IsOnce names engines engines-IsOnce,
    )

check_unknown-chosen :
    (u es : List String) (c : Choice) → check_unknown u c ≡ chosen es → (u ≡ []) × (c ≡ chosen es)
unfolding check_unknown
check_unknown-chosen [] es c h = (refl, h)
check_unknown-chosen (n ∷ ns) es c h = absurd (ground (arith, h))

-- The engines that a request is given are exactly those that it names, each once and each of them
-- known, whichever order is asked for.
pub requested_engines-chosen :
    (names es : List String) (keep_order : Bool)
    → requested_engines (some names) keep_order ≡ chosen es
    → ((x : String) → contains x es ≡ contains x names)
      × IsOnce es
      × ((x : String) → contains x es ≡ true → contains x engines ≡ true)
unfolding requested_engines
requested_engines-chosen names es keep_order h =
    let (known, given) =
      check_unknown-chosen (unknown_of names) es (order_names keep_order names) h in
    let (same, once) = order_names-IsOrdering keep_order names es known given in
    (same, once, λ x at. known_of x names known (sym (same x) ∙ at))
