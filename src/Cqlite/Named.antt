-- ===== src/Cqlite/Named.antt =====
-- Which scans backend/app/db/cqlite_client.py counts for a statement.
use open_htap_stack.Prelude.{
  ℕ, ◌+◌, ◌≡◌, refl, ap, String, Bool, true, false, ◌||◌, Bool-cases, inl, inr, some, List, [], ◌∷◌,
  ==_iff, arith,
}
use open_htap_stack.Prelude.Chars.{codes, lower, behind}
use open_htap_stack.Cqlite.Client.{Directory, is_prefix, is_in}
use open_htap_stack.Cqlite.Figures.{Scan, scans_of, sum_of, measured, collect_measured}

prefix_trans :
    (a b s : List ℕ)
    → is_prefix (behind a b) ≡ true
    → is_prefix (behind b s) ≡ true
    → is_prefix (behind a s) ≡ true
unfolding behind
prefix_trans [] b s h k = refl
prefix_trans (x ∷ a) [] s h k = cc
prefix_trans (x ∷ a) (y ∷ b) [] h k = cc
prefix_trans (x ∷ a) (y ∷ b) (z ∷ s) h k =
    ground (arith, prefix_trans a b s, ==_iff x y, ==_iff y z)

nothing_in : (a s : List ℕ) → is_prefix (behind a []) ≡ true → is_in a s ≡ true
unfolding behind is_in
nothing_in [] [] h = refl
nothing_in [] (c ∷ s) h = refl
nothing_in (x ∷ a) s h = cc

or_true : (b : Bool) → (b || true) ≡ true
or_true true = refl
or_true false = refl

no_prefix : (y : ℕ) (b : List ℕ) → is_prefix (behind (y ∷ b) []) ≡ true → ⊥
unfolding behind
no_prefix y b h = cc

tail_prefix :
    (y z : ℕ) (b s : List ℕ)
    → is_prefix (behind (y ∷ b) (z ∷ s)) ≡ true
    → is_prefix (behind b s) ≡ true
unfolding behind
tail_prefix y z b s h = ground arith

in_prefix : (a b s : List ℕ) → is_in a b ≡ true → is_prefix (behind b s) ≡ true → is_in a s ≡ true
unfolding is_in
in_prefix a [] s h k = nothing_in a s h
in_prefix a (y ∷ b) [] h k = absurd (no_prefix y b k)
in_prefix a (y ∷ b) (z ∷ s) h k = elim (Bool-cases (is_prefix (behind a (y ∷ b)))) [
  | inl e ↦ rw (prefix_trans a (y ∷ b) (z ∷ s) e k) refl
  | inr e ↦ rw (in_prefix a b s (rw e at h) (tail_prefix y z b s k)) (or_true _)
]

-- What is in a part of a text is in the text.
is_in_trans : (a b s : List ℕ) → is_in a b ≡ true → is_in b s ≡ true → is_in a s ≡ true
unfolding is_in
is_in_trans a b [] h k = in_prefix a b [] h k
is_in_trans a b (c ∷ s) h k = elim (Bool-cases (is_prefix (behind b (c ∷ s)))) [
  | inl e ↦ in_prefix a b (c ∷ s) h e
  | inr e ↦ rw (is_in_trans a b s h (rw e at k)) (or_true _)
]

-- The name of the one table is in that of the other.
events_in : is_in (codes "events") (codes "drone_events_by_entity") ≡ true
unfolding is_in behind
events_in = refl

abbrev pub all_registered : Directory → Directory → Directory → List (String × Directory)
all_registered d e f =
    ("events", d) ∷ ("drone_latest_status", e) ∷ ("drone_events_by_entity", f) ∷ []

-- With all tables registered, a statement that names drone_events_by_entity, and drone_latest_status
-- nowhere, is reported with the files and the bytes of two scans: its own, and the one that
-- `events` had last, whether it names that table or not.
pub collect_measured-counts_events :
    (last_scan : String → Scan) (sql : List ℕ) (d e f : Directory)
    → is_in (codes "drone_events_by_entity") (lower sql) ≡ true
    → is_in (codes "drone_latest_status") (lower sql) ≡ false
    → ((collect_measured last_scan sql (all_registered d e f)).files
        ≡ some ((last_scan "events").files + (last_scan "drone_events_by_entity").files))
      × ((collect_measured last_scan sql (all_registered d e f)).bytes
          ≡ some ((last_scan "events").bytes + (last_scan "drone_events_by_entity").bytes))
unfolding collect_measured scans_of measured sum_of
collect_measured-counts_events last_scan sql d e f named other =
    rw
      (
        is_in_trans (codes "events") (codes "drone_events_by_entity") (lower sql) events_in named,
        other,
        named,
      )
      (ap some (omega arith), ap some (omega arith))
