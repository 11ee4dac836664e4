-- ===== src/Clearance/Step.antt =====
-- What the routes report of one clearance transaction: `_grant_reason`, `_release_reason` and the
-- part of `_clearance_step` that reads the reply (backend/app/routes/transactions.py).
use open_htap_stack.Prelude.{
  ℕ, String, Bool, true, false, Option, none, some, ◌=s=◌, leb, if◌then◌else◌,
}
use open_htap_stack.Clearance.Ledger.{Ledger, Projection, grant, release}

-- The texts that the reasons are, by what each names; the empty text is `none`.
pub data Refusal : Type 0 where
  unreadable : Refusal
  no_occupancy : String → Refusal
  already_holds : String → String → Refusal
  full : String → Option ℕ → Refusal
  holds_none : String → Refusal
  holds_other : String → String → String → Refusal

-- The last two tests of `_grant_reason`, on a zone that has a row.
unfoldable pub grant_reason_held : String → String → Option ℕ → ℕ → Option String → Option Refusal
grant_reason_held zone entity capacity remaining (some held) = some (already_holds entity held)
grant_reason_held zone entity capacity remaining none =
    if leb remaining 0 then some (full zone capacity) else none

unfoldable pub grant_reason_row :
    String → String → Option ℕ → Option ℕ → Option String → Option Refusal
unfolding grant_reason_held
grant_reason_row zone entity capacity none held = some (no_occupancy zone)
grant_reason_row zone entity capacity (some remaining) held =
    grant_reason_held zone entity capacity remaining held

-- `none` for the projection is the empty dict.
unfoldable pub grant_reason : String → String → Option Projection → Option Refusal
unfolding grant_reason_row
grant_reason zone entity none = some unreadable
grant_reason zone entity (some p) = grant_reason_row zone entity p.capacity p.remaining p.held_zone

unfoldable pub release_reason_held : String → String → Option String → Option Refusal
release_reason_held zone entity none = some (holds_none entity)
release_reason_held zone entity (some held) =
    if held =s= zone then none else some (holds_other entity held zone)

unfoldable pub release_reason : String → String → Option Projection → Option Refusal
unfolding release_reason_held
release_reason zone entity none = some unreadable
release_reason zone entity (some p) = release_reason_held zone entity p.held_zone

-- What the driver reports of a transaction, beside the time it took: the projected row, no row at all
-- for one that ran, an error for one that did not run, or an error for one that ran and whose reply
-- was lost.
pub data Delivery : Type 0 where
  answered : ℕ → Delivery
  no_row : ℕ → Delivery
  refused : ℕ → String → Delivery
  lost : ℕ → String → Delivery

-- A `TransactionStep` without its statement's text and the zone's state, which `State.with_zone`
-- adds.
pub record Report : Type 0 where
  pub action : String
  pub applied : Bool
  pub reason : Option Refusal
  pub error : Option String
  pub projection : Option Projection
  pub duration_ms : ℕ

abbrev pub is_none {ℓ} : {A : Type ℓ} → Option A → Bool
is_none none = true
is_none (some a) = false

-- The `except` branch of `_clearance_step`.
unfoldable pub failed : String → ℕ → String → Report
failed action ms message = record {
  action = action;
  applied = false;
  reason = none;
  error = some message;
  projection = none;
  duration_ms = ms;
}

unfoldable pub reported : String → ℕ → Option Refusal → Option Projection → Report
reported action ms reason projection = record {
  action = action;
  applied = is_none reason;
  reason = reason;
  error = none;
  projection = projection;
  duration_ms = ms;
}

-- `_clearance_step` up to its reply. `after` is what the transaction gives when it runs.
unfoldable pub clearance_step :
    String
    → Delivery
    → (Option Projection → Option Refusal)
    → Projection × Ledger
    → Ledger
    → Report × Ledger
unfolding failed reported
clearance_step action (answered ms) reason_of after db =
    (reported action ms (reason_of (some after.0)) (some after.0), after.1)
clearance_step action (no_row ms) reason_of after db =
    (reported action ms (reason_of none) none, after.1)
clearance_step action (refused ms message) reason_of after db = (failed action ms message, db)
clearance_step action (lost ms message) reason_of after db = (failed action ms message, after.1)

unfoldable pub run_grant : String → String → String → ℕ → Delivery → Ledger → Report × Ledger
unfolding clearance_step grant grant_reason
run_grant action zone entity granted_at d db =
    clearance_step action d (grant_reason zone entity) (grant zone entity granted_at db) db

unfoldable pub run_release : String → String → String → Delivery → Ledger → Report × Ledger
unfolding clearance_step release release_reason
run_release action zone entity d db =
    clearance_step action d (release_reason zone entity) (release zone entity db) db
