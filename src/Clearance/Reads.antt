-- ===== src/Clearance/Reads.antt =====
-- What `_clearance_state` shows of a sound ledger: each zone under its own row, all of its holders,
-- the sum consistent, and no holder whose own row disagrees.
use open_htap_stack.Prelude.{
  ◌+◌, ◌≡◌, refl, sym, ap, ◌∙◌, String, true, Option, none, some, inl, inr, List, [], ◌∷◌, ◌=s=◌,
  eq_iff, arith, length, length-map, lookup, contains, Distinct, sort_rows, lookup-sort_rows,
  length-sort_rows, Bool-cases, ==_iff,
}
use open_htap_stack.Clearance.Ledger.{Occupancy, Ledger, holds}
use open_htap_stack.Clearance.State.{
  Zone, flag, sort_texts, keys, holders, zone_of, zone_rows, mismatches_in, mismatches,
  clearance_state,
}
use open_htap_stack.Clearance.Sound.{IsSound, present}

module _ {V : Type 0} where
  pub contains-keys :
      (j : String) (m : List (String × V)) → contains j (keys m) ≡ present (lookup j m)
  unfolding contains lookup
  contains-keys j [] = refl
  contains-keys j ((k, v) ∷ m) = ground (arith, contains-keys j m, eq_iff j k, eq_iff k j)

module _ {V : Type 0} where
  lookup-flag :
      (j : String) (m : List (String × V))
      → present (lookup j (flag (keys m))) ≡ present (lookup j m)
  unfolding flag lookup
  lookup-flag j [] = refl
  lookup-flag j ((k, v) ∷ m) = ground (arith, lookup-flag j m)

  flag-Distinct : (m : List (String × V)) → Distinct m → Distinct (flag (keys m))
  unfolding flag
  flag-Distinct [] d = tt
  flag-Distinct ((k, v) ∷ m) d = (ground (arith, lookup-flag k m, d.0), flag-Distinct m d.1)

  length-flag : (m : List (String × V)) → length (flag (keys m)) ≡ length m
  unfolding flag
  length-flag [] = refl
  length-flag (e ∷ m) = omega (arith, length-flag m)

  pub contains-sort_texts :
      (j : String) (m : List (String × V))
      → Distinct m
      → contains j (sort_texts (keys m)) ≡ present (lookup j m)
  unfolding sort_texts
  contains-sort_texts j m d =
      contains-keys j (sort_rows (flag (keys m)))
      ∙ ap present (lookup-sort_rows j (flag (keys m)) (flag-Distinct m d))
      ∙ lookup-flag j m

  pub length-sort_texts : (m : List (String × V)) → length (sort_texts (keys m)) ≡ length m
  unfolding sort_texts
  length-sort_texts m =
      length-map (λ e. e.0) (sort_rows (flag (keys m)))
      ∙ length-sort_rows (flag (keys m))
      ∙ length-flag m

-- the zone of a row, if there is one
abbrev pub shown : Ledger → String → Option Occupancy → Option Zone
shown db zone none = none
shown db zone (some occ) = some (zone_of db zone occ)

lookup-zone_rows :
    (db : Ledger) (z : String) (rows : List (String × Occupancy))
    → lookup z (zone_rows db rows) ≡ shown db z (lookup z rows)
unfolding lookup zone_rows
lookup-zone_rows db z [] = refl
lookup-zone_rows db z ((i, occ) ∷ rows) = elim (Bool-cases (i =s= z)) [
  | inl e ↦ rw e (ap (λ k. some (zone_of db k occ)) ((eq_iff i z).0 e))
  | inr e ↦ rw e (lookup-zone_rows db z rows)
]

zone_rows-Distinct :
    (db : Ledger) (rows : List (String × Occupancy)) → Distinct rows → Distinct (zone_rows db rows)
unfolding zone_rows
zone_rows-Distinct db [] d = tt
zone_rows-Distinct db ((i, occ) ∷ rows) d =
    (lookup-zone_rows db i rows ∙ ap (shown db i) d.0, zone_rows-Distinct db rows d.1)

-- Of a sound ledger, the zone listed under a key is that of its own occupancy row.
pub lookup-clearance_state :
    (db : Ledger) (zone : String)
    → IsSound db
    → lookup zone (clearance_state db).zones ≡ shown db zone (lookup zone db.zone_occupancy)
unfolding clearance_state
lookup-clearance_state db zone s =
    lookup-sort_rows zone (zone_rows db db.zone_occupancy)
      (zone_rows-Distinct db db.zone_occupancy s.one_row)
    ∙ lookup-zone_rows db zone db.zone_occupancy

-- no holder of a sound ledger disagrees with its own row
mismatches_in-eq-nil :
    (db : Ledger) (zone : String) (names : List String)
    → ((e : String) → contains e names ≡ true → holds zone (db.drone_clearance e) ≡ true)
    → mismatches_in db zone names ≡ []
unfolding mismatches_in contains
mismatches_in-eq-nil db zone [] h = refl
mismatches_in-eq-nil db zone (e ∷ names) h =
    ground (arith, h e, eq_iff e e, mismatches_in-eq-nil db zone names (λ j q. h j (ground arith)))

mismatches-eq-nil :
    (db : Ledger) (rows : List (String × Occupancy)) → IsSound db → mismatches db rows ≡ []
unfolding mismatches holders
mismatches-eq-nil db [] s = refl
mismatches-eq-nil db ((zone, occ) ∷ rows) s =
    rw
      (mismatches_in-eq-nil db zone (keys (db.zone_clearance zone))
        (λ e q. sym (s.mirrored zone e) ∙ sym (contains-keys e (db.zone_clearance zone)) ∙ q))
      (mismatches-eq-nil db rows s)

mismatched-eq-nil : (db : Ledger) → IsSound db → (clearance_state db).mismatched ≡ []
unfolding clearance_state sort_texts sort_rows
mismatched-eq-nil db s = rw (mismatches-eq-nil db db.zone_occupancy s) refl

-- The zone that the state route shows of one occupancy row of a sound ledger.
pub zone_of-consistent :
    (db : Ledger) (zone : String) (occ : Occupancy)
    → IsSound db
    → lookup zone db.zone_occupancy ≡ some occ
    → (zone_of db zone occ).consistent ≡ true
unfolding zone_of holders
zone_of-consistent db zone occ s h = (==_iff _ _).1 (
    s.counted zone occ h
    ∙ ap (λ n. occ.remaining + n) (sym (length-map _ (db.zone_clearance zone))))

-- The state route shows a sound ledger as sound: every occupancy row has its zone, with all its
-- holders and the sum consistent, and no holder is reported as mismatched.
pub clearance_state-reports :
    (db : Ledger)
    → IsSound db
    → ((clearance_state db).mismatched ≡ [])
      × ((zone : String) (occ : Occupancy)
          → lookup zone db.zone_occupancy ≡ some occ
          → (z : Zone) × (lookup zone (clearance_state db).zones ≡ some z)
            × (z.consistent ≡ true)
            × (z.remaining ≡ occ.remaining)
            × (z.remaining + length z.holders ≡ z.capacity)
            × ((e : String) → contains e z.holders ≡ holds zone (db.drone_clearance e)))
unfolding zone_of holders
clearance_state-reports db s = (
  mismatched-eq-nil db s,
  λ zone occ h. (
    zone_of db zone occ,
    lookup-clearance_state db zone s ∙ ap (shown db zone) h,
    zone_of-consistent db zone occ s h,
    refl,
    omega (arith, s.counted zone occ h, length-sort_texts (db.zone_clearance zone)),
    λ e. contains-sort_texts e (db.zone_clearance zone) (s.one_each zone) ∙ s.mirrored zone e,
  ),
)
