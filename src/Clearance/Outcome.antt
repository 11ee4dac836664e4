-- ===== src/Clearance/Outcome.antt =====
-- What a grant or a release reports against what it did to the ledger.
use open_htap_stack.Prelude.{ℕ, ◌≡◌, String, Bool, true, false, ◌&&◌, Option, arith, if◌then◌else◌}
use open_htap_stack.Clearance.Ledger.{Ledger, Projection, grant_guard, grant_writes, grant, release}
use open_htap_stack.Clearance.Step.{
  Delivery, answered, no_row, refused, lost, Refusal, grant_reason, release_reason, clearance_step,
  run_grant, run_release,
}
use open_htap_stack.Clearance.Sound.{IsSound, grant-IsSound, release-IsSound}

-- A reply with a projection.
abbrev pub is_answer : Delivery → Bool
is_answer (answered ms) = true
is_answer (no_row ms) = false
is_answer (refused ms message) = false
is_answer (lost ms message) = false

-- The transaction ran, whatever was heard of it.
abbrev pub ran : Delivery → Bool
ran (answered ms) = true
ran (no_row ms) = true
ran (refused ms message) = false
ran (lost ms message) = true

-- Whatever becomes of the reply: a grant is reported as applied exactly when its projection arrives and
-- the guard of its IF held, and the ledger has the three writes exactly when the transaction ran and the
-- guard held, and is left alone otherwise. So a grant reported as applied has its writes, and one that
-- is not may have them too, where its reply was lost or had no row.
pub run_grant-agrees :
    (action zone entity : String) (now : ℕ) (d : Delivery) (db : Ledger)
    → ((run_grant action zone entity now d db).0.applied
        ≡ (is_answer d && grant_guard zone entity db))
      × ((run_grant action zone entity now d db).1
          ≡ (if ran d && grant_guard zone entity db then grant_writes zone entity now db else db))
unfolding run_grant grant_guard
run_grant-agrees action zone entity now (answered ms) db = ground arith
run_grant-agrees action zone entity now (no_row ms) db = ground arith
run_grant-agrees action zone entity now (refused ms message) db = ground arith
run_grant-agrees action zone entity now (lost ms message) db = ground arith

clearance_step-IsSound :
    (action : String) (d : Delivery) (reason_of : Option Projection → Option Refusal)
    (after : Projection × Ledger) (db : Ledger)
    → IsSound db
    → IsSound after.1
    → IsSound (clearance_step action d reason_of after db).1
unfolding clearance_step
clearance_step-IsSound action (answered ms) reason_of after db s t = t
clearance_step-IsSound action (no_row ms) reason_of after db s t = t
clearance_step-IsSound action (refused ms m) reason_of after db s t = s
clearance_step-IsSound action (lost ms m) reason_of after db s t = t

-- Whatever the driver reports of a transaction, a sound ledger stays sound.
pub run_grant-IsSound :
    (action zone entity : String) (now : ℕ) (d : Delivery) {db : Ledger}
    → IsSound db
    → IsSound (run_grant action zone entity now d db).1
unfolding run_grant
run_grant-IsSound action zone entity now d {db} s =
    clearance_step-IsSound action d (grant_reason zone entity) (grant zone entity now db) db s
      (grant-IsSound zone entity now s)

pub run_release-IsSound :
    (action zone entity : String) (d : Delivery) {db : Ledger}
    → IsSound db
    → IsSound (run_release action zone entity d db).1
unfolding run_release
run_release-IsSound action zone entity d {db} s =
    clearance_step-IsSound action d (release_reason zone entity) (release zone entity db) db s
      (release-IsSound zone entity s)
