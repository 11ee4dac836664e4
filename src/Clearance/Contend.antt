-- ===== src/Clearance/Contend.antt =====
-- Many drones ask for one zone at once (`clearance_contend`): in whatever order Accord serialises
-- them, exactly the zone's slots are granted.
use open_htap_stack.Prelude.{
  ℕ, ◌+◌, ◌≤◌, ◌≡◌, refl, ap, ◌∙◌, min, String, none, some, List, [], ◌∷◌, eq_iff, arith, length,
  lookup, if◌then◌else◌,
}
use open_htap_stack.Clearance.Ledger.{
  Occupancy, Ledger, decrement, grant_guard, grant_writes, grant,
}
use open_htap_stack.Clearance.Step.{Delivery, answered, no_row, refused, lost, run_grant}
use open_htap_stack.Clearance.State.{Zone, holders, zone_of, zone_now}
use open_htap_stack.Clearance.Routes.{
  Answers, Ask, run_asks, count_applied, Contention, contention, winners_of, clearance_reset,
  clearance_contend,
}
use open_htap_stack.Clearance.Sound.{IsSound, lookup-set_remaining}
use open_htap_stack.Clearance.Reads.{shown, lookup-clearance_state, length-sort_texts}
use open_htap_stack.Clearance.Released.{AllAnswered}
use open_htap_stack.Clearance.Reset.{clearance_reset-IsSound, clearance_reset-clears}
use open_htap_stack.Clearance.Asks.{
  DistinctAskers, AllReplied, AllFree, taken, run_asks-exact, run_asks-IsSound,
}

grant_row :
    (zone entity : String) (now : ℕ) (db : Ledger) (occ : Occupancy)
    → lookup zone db.zone_occupancy ≡ some occ
    → lookup zone (grant zone entity now db).1.zone_occupancy
      ≡ some (if grant_guard zone entity db then taken 1 occ else occ)
unfolding grant grant_writes
grant_row zone entity now db occ row =
    ground (arith, eq_iff zone zone, lookup-set_remaining decrement zone zone db.zone_occupancy)

-- one ask takes at most one slot, whatever was reported of it
ask_slots :
    (zone entity : String) (now : ℕ) (d : Delivery) (db : Ledger) (occ : Occupancy)
    → lookup zone db.zone_occupancy ≡ some occ
    → (occ' : Occupancy) × (lookup zone (run_grant entity zone entity now d db).1.zone_occupancy
        ≡ some occ')
      × (occ'.capacity ≡ occ.capacity)
      × ((if (run_grant entity zone entity now d db).0.applied then 1 else 0) + occ'.remaining
          ≤ occ.remaining)
unfolding run_grant grant_writes
ask_slots zone entity now (answered ms) db occ row = (
  if grant_guard zone entity db then taken 1 occ else occ,
  grant_row zone entity now db occ row,
  ground arith,
  unfold grant_guard in ground arith,
)
ask_slots zone entity now (refused ms m) db occ row = (occ, row, refl, omega arith)
ask_slots zone entity now (no_row ms) db occ row = (
  if grant_guard zone entity db then taken 1 occ else occ,
  grant_row zone entity now db occ row,
  ground arith,
  ground arith,
)
ask_slots zone entity now (lost ms m) db occ row = (
  if grant_guard zone entity db then taken 1 occ else occ,
  grant_row zone entity now db occ row,
  ground arith,
  ground arith,
)

run_asks-slots :
    (zone : String) (asks : List Ask) (db : Ledger) (occ : Occupancy)
    → lookup zone db.zone_occupancy ≡ some occ
    → (occ' : Occupancy) × (lookup zone (run_asks zone asks db).1.zone_occupancy ≡ some occ')
      × (occ'.capacity ≡ occ.capacity)
      × (count_applied (run_asks zone asks db).0 + occ'.remaining ≤ occ.remaining)
unfolding run_asks count_applied
run_asks-slots zone [] db occ row = (occ, row, refl, omega arith)
run_asks-slots zone (a ∷ asks) db occ row =
    let db' = (run_grant a.entity zone a.entity a.granted_at a.delivery db).1 in
    let (occ₁, row₁, same₁, few₁) = ask_slots zone a.entity a.granted_at a.delivery db occ row in
    let (occ₂, row₂, same₂, few₂) = run_asks-slots zone asks db' occ₁ row₁ in
    (occ₂, row₂, same₂ ∙ same₁, omega (arith, few₁, few₂))

-- Whatever the asks, their order and the replies that were lost: no more are reported as granted
-- than slots left the count, so a zone is never oversubscribed.
pub run_asks-never_over :
    (zone : String) (asks : List Ask) (db : Ledger) (occ : Occupancy)
    → IsSound db
    → lookup zone db.zone_occupancy ≡ some occ
    → (occ' : Occupancy) × (lookup zone (run_asks zone asks db).1.zone_occupancy ≡ some occ')
      × (count_applied (run_asks zone asks db).0 + occ'.remaining ≤ occ.remaining)
      × (occ'.remaining + length ((run_asks zone asks db).1.zone_clearance zone) ≡ occ.capacity)
run_asks-never_over zone asks db occ s row =
    let (occ', row', same, few) = run_asks-slots zone asks db occ row in
    (occ', row', few, omega (arith, same, (run_asks-IsSound zone asks s).counted zone occ' row'))

winners_count :
    (db : Ledger) (zone : String) (occ : Occupancy)
    → IsSound db
    → lookup zone db.zone_occupancy ≡ some occ
    → length (winners_of (zone_now db zone)) + occ.remaining ≡ occ.capacity
unfolding winners_of zone_now zone_of holders
winners_count db zone occ s row =
    rw (lookup-clearance_state db zone s, row)
      (omega (arith, s.counted zone occ row, length-sort_texts (db.zone_clearance zone)))

free_all :
    (db : Ledger) (asks : List Ask) → ((e : String) → db.drone_clearance e ≡ none) → AllFree db asks
free_all db [] h = tt
free_all db (a ∷ asks) h = (h a.entity, free_all db asks h)

zone_now-eq-shown :
    (db : Ledger) (zone : String)
    → IsSound db
    → zone_now db zone ≡ shown db zone (lookup zone db.zone_occupancy)
unfolding zone_now
zone_now-eq-shown db zone s = lookup-clearance_state db zone s

contend_found :
    (answer : Answers) (zone : String) (asks : List Ask) (db : Ledger) (before : Zone)
    → zone_now (clearance_reset answer db).1 zone ≡ some before
    → (clearance_contend answer zone asks db).0
      ≡ some (
          contention before.capacity asks
            (run_asks zone asks (clearance_reset answer db).1).0
            (zone_now (run_asks zone asks (clearance_reset answer db).1).1 zone))
unfolding clearance_contend
contend_found answer zone asks db before e = ground (arith, e)

-- The contention route on a sound ledger, when every release and every ask is answered and the
-- askers differ: whatever the order in which they are serialised, as many are granted as the zone
-- has capacity, all others are refused, and the winners listed are as many as were granted.
pub clearance_contend-exact :
    (answer : Answers) (zone : String) (asks : List Ask) (db : Ledger) (occ : Occupancy)
    → AllAnswered answer
    → AllReplied asks
    → DistinctAskers asks
    → IsSound db
    → lookup zone db.zone_occupancy ≡ some occ
    → (c : Contention) × ((clearance_contend answer zone asks db).0 ≡ some c)
      × (c.capacity ≡ occ.capacity)
      × (c.granted ≡ min c.askers occ.capacity)
      × (c.granted + c.refused ≡ c.askers)
      × (length c.winners ≡ c.granted)
      × (c.askers ≡ length asks)
unfolding contention zone_of
clearance_contend-exact answer zone asks db occ good replied distinct s row =
    let db₁ = (clearance_reset answer db).1 in
    let s₁ : IsSound db₁ = clearance_reset-IsSound answer good s in
    let (free, slots) = clearance_reset-clears answer good db s in
    let (occ₁, row₁, same, all, _) = slots zone occ row in
    let db₂ = (run_asks zone asks db₁).1 in
    let (granted, turned, left) =
      run_asks-exact zone asks db₁ occ₁ row₁ distinct replied (free_all db₁ asks free) in
    let winners =
      winners_count db₂ zone (taken (length asks) occ₁) (run_asks-IsSound zone asks s₁) left in
    (
      contention occ₁.capacity asks (run_asks zone asks db₁).0 (zone_now db₂ zone),
      contend_found answer zone asks db (zone_of db₁ zone occ₁)
          (zone_now-eq-shown db₁ zone s₁ ∙ ap (shown db₁ zone) row₁),
      same,
      omega (arith, granted, all),
      omega (arith, granted, turned),
      omega (arith, granted, winners, all, same),
      refl,
    )
