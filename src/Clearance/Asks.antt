-- ===== src/Clearance/Asks.antt =====
-- A list of asks for one zone, each an atomic step: who is granted, and what is left.
use open_htap_stack.Prelude.{
  ℕ, ◌-◌, ◌≡◌, ◌∙◌, min, String, Bool, false, none, some, List, [], ◌∷◌, ◌=s=◌, ◌||◌, eq_iff, arith,
  ltb, length, lookup,
}
use open_htap_stack.Clearance.Ledger.{Occupancy, Ledger, decrement, grant_guard, grant_writes}
use open_htap_stack.Clearance.Step.{Delivery, answered, clearance_step, run_grant}
use open_htap_stack.Clearance.Routes.{Ask, run_asks, count_applied, count_refused}
use open_htap_stack.Clearance.Sound.{IsSound, lookup-set_remaining}
use open_htap_stack.Clearance.Outcome.{run_grant-IsSound}

abbrev pub asked : String → List Ask → Bool
asked e [] = false
asked e (a ∷ asks) = a.entity =s= e || asked e asks

-- Every ask is of another drone.
abbrev pub DistinctAskers : List Ask → Type 0
DistinctAskers [] = Unit
DistinctAskers (a ∷ asks) = (asked a.entity asks ≡ false) × DistinctAskers asks

abbrev pub AllReplied : List Ask → Type 0
AllReplied [] = Unit
AllReplied (a ∷ asks) = ((ms : ℕ) × (a.delivery ≡ answered ms)) × AllReplied asks

-- no asker of the list holds a clearance
abbrev pub AllFree : Ledger → List Ask → Type 0
AllFree db [] = Unit
AllFree db (a ∷ asks) = (db.drone_clearance a.entity ≡ none) × AllFree db asks

-- one slot less, if there was one
abbrev pub taken : ℕ → Occupancy → Occupancy
taken n occ = record occ { remaining = occ.remaining - n }

module _ (zone entity : String) (now ms : ℕ) (d : Delivery) (db : Ledger) (occ : Occupancy)
    (row : lookup zone db.zone_occupancy ≡ some occ) (free : db.drone_clearance entity ≡ none)
    (reply : d ≡ answered ms) where
  ask_applied :
      ((run_grant entity zone entity now d db).0.applied ≡ ltb 0 occ.remaining)
      × ((run_grant entity zone entity now d db).0.error ≡ none)
  unfolding run_grant
  ask_applied = rw (reply, clearance_step, run_grant) (ground arith)

  ask_row :
      lookup zone (run_grant entity zone entity now d db).1.zone_occupancy ≡ some (taken 1 occ)
  unfolding run_grant grant_writes grant_guard
  ask_row =
      rw (reply, clearance_step, run_grant)
        (ground
          (arith, eq_iff zone zone, lookup-set_remaining decrement zone zone db.zone_occupancy))

  ask_others :
      (j : String)
      → (entity =s= j) ≡ false
      → (run_grant entity zone entity now d db).1.drone_clearance j ≡ db.drone_clearance j
  unfolding run_grant grant_writes grant_guard
  ask_others j other = rw (reply, clearance_step, run_grant) (ground (arith, eq_iff entity j))

free_of_not_asked :
    (e : String) (db db' : Ledger) (asks : List Ask)
    → ((j : String) → (e =s= j) ≡ false → db'.drone_clearance j ≡ db.drone_clearance j)
    → asked e asks ≡ false
    → AllFree db asks
    → AllFree db' asks
free_of_not_asked e db db' [] h n f = tt
free_of_not_asked e db db' (a ∷ asks) h n f = (
  h a.entity (ground (arith, eq_iff a.entity e, eq_iff e a.entity)) ∙ f.0,
  free_of_not_asked e db db' asks h (ground arith) f.1,
)

-- From a row, free and different drones, and answers: the slots are granted until none is left.
pub run_asks-exact :
    (zone : String) (asks : List Ask) (db : Ledger) (occ : Occupancy)
    → lookup zone db.zone_occupancy ≡ some occ
    → DistinctAskers asks
    → AllReplied asks
    → AllFree db asks
    → (count_applied (run_asks zone asks db).0 ≡ min (length asks) occ.remaining)
      × (count_refused (run_asks zone asks db).0 ≡ length asks - occ.remaining)
      × (lookup zone (run_asks zone asks db).1.zone_occupancy ≡ some (taken (length asks) occ))
unfolding run_asks count_applied count_refused
run_asks-exact zone [] db occ row d r f = (omega arith, omega arith, ground arith)
run_asks-exact zone (a ∷ asks) db occ row d r f =
    let (ms, reply) = r.0 in
    let db' = (run_grant a.entity zone a.entity a.granted_at a.delivery db).1 in
    let (applied, no_error) =
      ask_applied zone a.entity a.granted_at ms a.delivery db occ row f.0 reply in
    let others = ask_others zone a.entity a.granted_at ms a.delivery db occ row f.0 reply in
    let row' = ask_row zone a.entity a.granted_at ms a.delivery db occ row f.0 reply in
    let (granted, turned, left) =
      run_asks-exact zone asks db' (taken 1 occ) row' d.1 r.1
        (free_of_not_asked a.entity db db' asks others d.0 f.1) in
    (
      ground (arith, granted, applied),
      ground (arith, turned, applied, no_error),
      ground (arith, left),
    )

pub run_asks-IsSound :
    (zone : String) (asks : List Ask) {db : Ledger} → IsSound db → IsSound (run_asks zone asks db).1
unfolding run_asks
run_asks-IsSound zone [] s = s
run_asks-IsSound zone (a ∷ asks) s =
    run_asks-IsSound zone asks (run_grant-IsSound a.entity zone a.entity a.granted_at a.delivery s)
