-- ===== src/Clearance/Routes.antt =====
-- The clearance routes: steps with the zone's state, reset, contention, the seven scripted steps and
-- the measured repeats (backend/app/routes/transactions.py).
use open_htap_stack.Prelude.{
  ℕ, ◌+◌, String, not, ◌&&◌, Option, none, some, List, [], ◌∷◌, ◌++◌, length, if◌then◌else◌,
}
use open_htap_stack.Clearance.Ledger.{Ledger}
use open_htap_stack.Clearance.Step.{Refusal, Delivery, Report, is_none, run_grant, run_release}
use open_htap_stack.Clearance.State.{Zone, clearance_state, zone_now}

-- A `TransactionStep` with the zone as the step left it.
pub record Step : Type 0 where
  pub report : Report
  pub state : Option Zone

-- The end of `_clearance_step`: the zone is read unless the transaction raised.
unfoldable pub with_zone : String → Report × Ledger → Step × Ledger
with_zone zone (report, db) = (
  record { report = report; state = if is_none report.error then zone_now db zone else none },
  db,
)

-- One entry of the list that `_clearance_reset` returns.
pub data ResetAction : Type 0 where
  released : String → String → ResetAction
  could_not_release : String → String → Option Refusal → Option String → ResetAction

unfoldable pub reset_action : String → String → Report → ResetAction
reset_action zone entity report =
    if report.applied
    then released entity zone
    else could_not_release entity zone report.reason report.error

-- What the driver answers to the release of an entity from a zone.
abbrev pub Answers : Type 0
Answers = String → String → Delivery

unfoldable pub reset_holders : Answers → String → List String → Ledger → List ResetAction × Ledger
unfolding run_release reset_action
reset_holders answer zone [] db = ([], db)
reset_holders answer zone (entity ∷ rest) db =
    let (report, db') = run_release entity zone entity (answer zone entity) db in
    let (actions, db'') = reset_holders answer zone rest db' in
    (reset_action zone entity report ∷ actions, db'')

unfoldable pub reset_zones : Answers → List (String × Zone) → Ledger → List ResetAction × Ledger
unfolding reset_holders
reset_zones answer [] db = ([], db)
reset_zones answer ((zone, z) ∷ zones) db =
    let (here, db') = reset_holders answer zone z.holders db in
    let (there, db'') = reset_zones answer zones db' in (here ++ there, db'')

-- `_clearance_reset`: the zones and their holders are read once, before the first release.
unfoldable pub clearance_reset : Answers → Ledger → List ResetAction × Ledger
unfolding reset_zones
clearance_reset answer db = reset_zones answer (clearance_state db).zones db

-- One of the transactions that `clearance_contend` submits at once.
pub record Ask : Type 0 where
  pub entity : String
  pub granted_at : ℕ
  pub delivery : Delivery

-- The asks in the order in which Accord serialises them.
unfoldable pub run_asks : String → List Ask → Ledger → List Report × Ledger
unfolding run_grant
run_asks zone [] db = ([], db)
run_asks zone (a ∷ asks) db =
    let (report, db') = run_grant a.entity zone a.entity a.granted_at a.delivery db in
    let (reports, db'') = run_asks zone asks db' in (report ∷ reports, db'')

unfoldable pub count_applied : List Report → ℕ
count_applied [] = 0
count_applied (r ∷ rs) = (if r.applied then 1 else 0) + count_applied rs

unfoldable pub count_refused : List Report → ℕ
count_refused [] = 0
count_refused (r ∷ rs) = (if not r.applied && is_none r.error then 1 else 0) + count_refused rs

pub record Contention : Type 0 where
  pub capacity : ℕ
  pub askers : ℕ
  pub granted : ℕ
  pub refused : ℕ
  pub winners : List String
  pub zone : Option Zone

unfoldable pub winners_of : Option Zone → List String
winners_of none = []
winners_of (some z) = z.holders

unfoldable pub contention : ℕ → List Ask → List Report → Option Zone → Contention
unfolding count_applied count_refused winners_of
contention capacity asks reports after = record {
  capacity = capacity;
  askers = length asks;
  granted = count_applied reports;
  refused = count_refused reports;
  winners = winners_of after;
  zone = after;
}

-- `clearance_contend` after the lock; `none` is the 404.
unfoldable pub clearance_contend : Answers → String → List Ask → Ledger → Option Contention × Ledger
unfolding clearance_reset run_asks contention
clearance_contend answer zone asks db =
    let db₁ = (clearance_reset answer db).1 in
    elim (zone_now db₁ zone) [
      | none ↦ (none, db₁)
      | some before ↦
          let (reports, db₂) = run_asks zone asks db₁ in
          (some (contention before.capacity asks reports (zone_now db₂ zone)), db₂)
    ]

abbrev pub demo_zone : String
demo_zone = "zone-oslo-airport"

abbrev pub demo_other_zone : String
demo_other_zone = "zone-royal-palace"

abbrev pub demo_measure_zone : String
demo_measure_zone = "zone-fornebu"

abbrev pub asset_0 : String
asset_0 = "asset-000000"

abbrev pub asset_1 : String
asset_1 = "asset-000001"

abbrev pub asset_2 : String
asset_2 = "asset-000002"

-- One scripted step: a grant or a release of an asset into a zone.
pub data Scripted : Type 0 where
  ask_for : String → String → String → Scripted
  give_back : String → String → String → Scripted

abbrev pub script : List Scripted
script =
    ask_for "grant" demo_zone asset_0
    ∷ ask_for "replay the grant" demo_zone asset_0
    ∷ ask_for "grant a second clearance" demo_other_zone asset_0
    ∷ ask_for "grant the last slot" demo_zone asset_1
    ∷ ask_for "grant into a full zone" demo_zone asset_2
    ∷ give_back "release" demo_zone asset_0
    ∷ give_back "release again" demo_zone asset_0
    ∷ []

-- A step at time `now`, whose reply is `d`.
unfoldable pub run_scripted : Scripted → ℕ → Delivery → Ledger → Report × Ledger
unfolding run_grant run_release
run_scripted (ask_for action zone entity) now d db = run_grant action zone entity now d db
run_scripted (give_back action zone entity) now d db = run_release action zone entity d db

-- The list of steps of `clearance_demo`; the replies come in the order of the calls.
unfoldable pub run_script : List Scripted → List (ℕ × Delivery) → Ledger → List Report × Ledger
unfolding run_scripted
run_script [] replies db = ([], db)
run_script (s ∷ steps) [] db = ([], db)
run_script (s ∷ steps) ((now, d) ∷ replies) db =
    let (report, db') = run_scripted s now d db in
    let (reports, db'') = run_script steps replies db' in (report ∷ reports, db'')

abbrev pub keep_applied : Report → List ℕ → List ℕ
keep_applied r times = if r.applied then r.duration_ms ∷ times else times

-- `_repeat_clearance`: the latencies of the grants and of the releases that applied. A repeat is
-- the time of its grant and the replies to its two transactions.
unfoldable pub repeat_clearance :
    String → String → List (ℕ × Delivery × Delivery) → Ledger → List ℕ × List ℕ × Ledger
unfolding run_grant run_release
repeat_clearance zone entity [] db = ([], [], db)
repeat_clearance zone entity ((now, d, e) ∷ repeats) db =
    let (grant, db') = run_grant "measure grant" zone entity now d db in
    let (release, db'') = run_release "measure release" zone entity e db' in
    let (grant_ms, release_ms, db‴) = repeat_clearance zone entity repeats db'' in
    (keep_applied grant grant_ms, keep_applied release release_ms, db‴)
