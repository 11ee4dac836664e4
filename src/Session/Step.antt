-- ===== src/Session/Step.antt =====
-- What the routes report of one session transaction: `_reason` and `_run_step`
-- (backend/app/routes/transactions.py).
use open_htap_stack.Prelude.{ℕ, zero, suc, String, Bool, true, false, Option, none, some, length}
use open_htap_stack.Session.Store.{Event, Store, Projection, apply_event}

-- The texts that the reasons are, by what each names; the empty text is `none`.
pub data Refusal : Type 0 where
  unreadable : Refusal
  not_open : Refusal
  replayed : ℕ → Refusal
  gap : ℕ → ℕ → Refusal

unfoldable pub reason_prev : ℕ → Option ℕ → Option Refusal
reason_prev zero prev_ok = none
reason_prev (suc prev) (some n) = none
reason_prev (suc prev) none = some (gap prev (suc prev))

unfoldable pub reason_row : ℕ → Option String → Option ℕ → Option ℕ → Option Refusal
unfolding reason_prev
reason_row seq none already prev_ok = some not_open
reason_row seq (some session) (some n) prev_ok = some (replayed seq)
reason_row seq (some session) none prev_ok = reason_prev seq prev_ok

-- `_reason`; `none` for the projection is the empty dict.
unfoldable pub reason_of : ℕ → Option Projection → Option Refusal
unfolding reason_row
reason_of seq none = some unreadable
reason_of seq (some p) = reason_row seq p.session_ok p.already p.prev_ok

-- What the driver reports of a transaction, beside the time it took.
pub data Delivery : Type 0 where
  answered : ℕ → Delivery
  refused : ℕ → String → Delivery
  lost : ℕ → String → Delivery

pub record Step : Type 0 where
  pub action : String
  pub applied : Bool
  pub reason : Option Refusal
  pub error : Option String
  pub projection : Option Projection
  pub duration_ms : ℕ
  pub timeline_rows : ℕ

abbrev pub is_none {ℓ} : {A : Type ℓ} → Option A → Bool
is_none none = true
is_none (some a) = false

-- `len(_timeline_rows(...))`
unfoldable pub rows_of : String → String → Store → ℕ
rows_of user session db = length (db.session_timeline user session)

-- The `except` branch of `_run_step`: the timeline is read there too.
unfoldable pub failed : String → ℕ → String → ℕ → Step
failed action ms message rows = record {
  action = action;
  applied = false;
  reason = none;
  error = some message;
  projection = none;
  duration_ms = ms;
  timeline_rows = rows;
}

unfoldable pub reported : String → ℕ → Option Refusal → Projection → ℕ → Step
reported action ms reason projection rows = record {
  action = action;
  applied = is_none reason;
  reason = reason;
  error = none;
  projection = some projection;
  duration_ms = ms;
  timeline_rows = rows;
}

-- `_run_step`, for the reply `d`.
unfoldable pub run_step : String → String → String → ℕ → Event → Delivery → Store → Step × Store
unfolding apply_event reason_of failed reported rows_of
run_step action user session seq e (answered ms) db =
    let (p, db') = apply_event user session seq e db in
    (reported action ms (reason_of seq (some p)) p (rows_of user session db'), db')
run_step action user session seq e (refused ms message) db =
    (failed action ms message (rows_of user session db), db)
run_step action user session seq e (lost ms message) db =
    let db' = (apply_event user session seq e db).1 in
    (failed action ms message (rows_of user session db'), db')
