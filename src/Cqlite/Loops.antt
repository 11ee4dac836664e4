-- ===== src/Cqlite/Loops.antt =====
-- What the two loops of `CqliteClient` over the tables leave registered.
use text.Mathlib.TextEquality.{eq_iff}
use text.Mathlib.TextPositions.{eq_refl}
use open_htap_stack.Prelude.{
  ℕ, ◌≡◌, refl, sym, ◌∙◌, subst, String, Bool, true, false, ◌&&◌, Bool-cases, inl, inr, Option,
  none, some, List, [], ◌∷◌, ◌=s=◌, contains, lookup, lookup-insert, arith,
}
use open_htap_stack.Cqlite.Client.{
  cqlite_tables, Directory, Attempt, done, failed, Site, Client, try_register, Tables, note,
  register_all, note_missing, register_missing_all, is_empty, register_missing,
}

-- A note of one table tells nothing of another.
note-other :
    (table asked : String) (a : Attempt Directory) (t : Tables)
    → (table =s= asked) ≡ false
    → lookup asked (note table a t).providers ≡ lookup asked t.providers
unfolding note
note-other table asked (done d) t h = lookup-insert table asked d t.providers ∙ rw h refl
note-other table asked (failed e) t h = refl

note-done :
    (table asked : String) (d : Directory) (t : Tables)
    → (table =s= asked) ≡ true
    → lookup asked (note table (done d) t).providers ≡ some d
unfolding note
note-done table asked d t h = lookup-insert table asked d t.providers ∙ rw h refl

-- A provider that is there stays as it is.
note_missing-keeps :
    (s : Site) (table asked : String) (o : Option Directory) (d : Directory) (t : Tables)
    → lookup table t.providers ≡ o
    → lookup asked t.providers ≡ some d
    → lookup asked (note_missing s table o t).providers ≡ some d
unfolding note_missing
note_missing-keeps s table asked (some p) d t e h = h
note_missing-keeps s table asked none d t e h = elim (Bool-cases (table =s= asked)) [
  | inl same ↦ absurd (
      let f : lookup asked t.providers ≡ none =
        subst (λ (k : String). lookup k t.providers ≡ none) ((eq_iff table asked).0 same) e in
      cc)
  | inr other ↦ note-other table asked (try_register s table) t other ∙ h
]

register_missing_all-keeps :
    (s : Site) (tables : List String) (asked : String) (d : Directory) (t : Tables)
    → lookup asked t.providers ≡ some d
    → lookup asked (register_missing_all s tables t).providers ≡ some d
unfolding register_missing_all
register_missing_all-keeps s [] asked d t h = h
register_missing_all-keeps s (table ∷ tables) asked d t h =
    register_missing_all-keeps s tables asked d (note_missing s table (lookup table t.providers) t)
      (note_missing-keeps s table asked (lookup table t.providers) d t refl h)

note_missing-other :
    (s : Site) (table asked : String) (o : Option Directory) (t : Tables)
    → (table =s= asked) ≡ false
    → lookup asked (note_missing s table o t).providers ≡ lookup asked t.providers
unfolding note_missing
note_missing-other s table asked (some p) t h = refl
note_missing-other s table asked none t h = note-other table asked (try_register s table) t h

note_missing-same :
    (s : Site) (table asked : String) (d : Directory) (t : Tables)
    → (table =s= asked) ≡ true
    → try_register s asked ≡ done d
    → lookup asked t.providers ≡ none
    → lookup asked (note_missing s table (lookup table t.providers) t).providers ≡ some d
unfolding note_missing
note_missing-same s table asked d t same opens n =
    let e = (eq_iff table asked).0 same in
    subst
      (λ (k : String). lookup asked (note_missing s k (lookup k t.providers) t).providers ≡ some d)
      (sym e) (rw (n, opens) (note-done asked asked d t (eq_refl asked)))

-- A table whose provider opens is registered by the loop that comes to it.
pub register_missing_all-registers :
    (s : Site) (tables : List String) (asked : String) (d : Directory) (t : Tables)
    → try_register s asked ≡ done d
    → contains asked tables ≡ true
    → lookup asked t.providers ≡ none
    → lookup asked (register_missing_all s tables t).providers ≡ some d
unfolding register_missing_all contains
register_missing_all-registers s [] asked d t opens h n = cc
register_missing_all-registers s (table ∷ tables) asked d t opens h n =
    elim (Bool-cases (table =s= asked)) [
      | inl same ↦
          register_missing_all-keeps s tables asked d
            (note_missing s table (lookup table t.providers) t)
            (note_missing-same s table asked d t same opens n)
      | inr other ↦
          register_missing_all-registers s tables asked d
            (note_missing s table (lookup table t.providers) t) opens (rw other at h)
            (note_missing-other s table asked (lookup table t.providers) t other ∙ n)
    ]

note-same :
    (s : Site) (table asked : String) (d : Directory) (t : Tables)
    → (table =s= asked) ≡ true
    → try_register s asked ≡ done d
    → lookup asked (note table (try_register s table) t).providers ≡ some d
note-same s table asked d t same opens =
    subst (λ (k : String). lookup asked (note k (try_register s k) t).providers ≡ some d)
      (sym ((eq_iff table asked).0 same)) (rw opens (note-done asked asked d t (eq_refl asked)))

pub both_true : (a b : Bool) → a ≡ true → b ≡ true → (a && b) ≡ true
both_true a b h k = ground arith

pub all_true : (a b c : Bool) → a ≡ true → b ≡ true → c ≡ true → (a && b && c) ≡ true
all_true a b c h k l = ground arith

register_all-stays :
    (s : Site) (tables : List String) (asked : String) (d : Directory) (t : Tables)
    → try_register s asked ≡ done d
    → lookup asked t.providers ≡ some d
    → lookup asked (register_all s tables t).providers ≡ some d
unfolding register_all
register_all-stays s [] asked d t opens h = h
register_all-stays s (table ∷ tables) asked d t opens h =
    register_all-stays s tables asked d (note table (try_register s table) t) opens
      (elim (Bool-cases (table =s= asked)) [
        | inl same ↦ note-same s table asked d t same opens
        | inr other ↦ note-other table asked (try_register s table) t other ∙ h
      ])

pub register_all-registers :
    (s : Site) (tables : List String) (asked : String) (d : Directory) (t : Tables)
    → try_register s asked ≡ done d
    → contains asked tables ≡ true
    → lookup asked (register_all s tables t).providers ≡ some d
unfolding register_all contains
register_all-registers s [] asked d t opens h = cc
register_all-registers s (table ∷ tables) asked d t opens h = elim (Bool-cases (table =s= asked)) [
  | inl same ↦
      register_all-stays s tables asked d (note table (try_register s table) t) opens
        (note-same s table asked d t same opens)
  | inr other ↦
      register_all-registers s tables asked d (note table (try_register s table) t) opens
        (rw other at h)
]

pub lookup-is_empty :
    (asked : String) (m : List (String × Directory)) → is_empty m ≡ true → lookup asked m ≡ none
unfolding lookup
lookup-is_empty asked [] h = refl
lookup-is_empty asked (x ∷ m) h = cc

pub register_missing-keeps :
    (s : Site) (now : ℕ) (c : Client) (asked : String) (d : Directory)
    → lookup asked c.providers ≡ some d
    → lookup asked (register_missing s now c).providers ≡ some d
unfolding register_missing
register_missing-keeps s now c asked d h = elim (Bool-cases (c.ctx && s.imports && s.cassandra)) [
  | inl e ↦ rw e (
      register_missing_all-keeps s cqlite_tables asked d
        (record { providers = c.providers; declined = c.declined }) h)
  | inr e ↦ rw e h
]
