-- ===== src/Session/Demo.antt =====
-- What a step reports in a session that is in order, the scripted steps of `session_demo` and the
-- measured ones of `_repeat_applied`.
use open_htap_stack.Prelude.{
  ℕ, zero, suc, ◌-◌, ◌≡◌, refl, sym, ap, ◌∙◌, String, true, false, Option, none, some, List, [],
  ◌∷◌, ltb, ◌==◌, arith, map, length, length-map, if◌then◌else◌, eq_iff,
}
use open_htap_stack.Session.Store.{
  Event, Store, replace, apply_guard, apply_writes, apply_event, open_session,
}
use open_htap_stack.Session.Step.{
  answered, Step, Refusal, not_open, replayed, gap, reason_of, is_none, rows_of, run_step,
}
use open_htap_stack.Session.Timeline.{
  count_from, HasApplied, next_count, contains-count_from, event-HasApplied,
}

-- What a client should hear of `seq` when the next number is `n`.
abbrev pub verdict : ℕ → ℕ → Option Refusal
verdict seq n =
    if seq == n then none else if ltb seq n then some (replayed seq) else some (gap (seq - 1) seq)

length-count_from : (from n : ℕ) → length (count_from from n) ≡ n
length-count_from from zero = refl
length-count_from from (suc n) = ap suc (length-count_from (suc from) n)

rows_of-HasApplied :
    (user session : String) (n : ℕ) (db : Store)
    → HasApplied user session n db
    → rows_of user session db ≡ n
unfolding rows_of
rows_of-HasApplied user session n db h =
    sym (length-map (λ r. r.0) (db.session_timeline user session))
    ∙ ap length h.projected
    ∙ length-count_from 0 n

reason-verdict :
    (user session : String) (seq n : ℕ) (e : Event) (db : Store)
    → HasApplied user session n db
    → db.sessions_open user session ≡ true
    → reason_of seq (some (apply_event user session seq e db).0) ≡ verdict seq n
unfolding reason_of apply_event
reason-verdict user session zero n e db h opened =
    ground (arith, h.applied, opened, contains-count_from 0 0 n)
reason-verdict user session (suc prev) n e db h opened =
    ground
      (arith, h.applied, opened, contains-count_from (suc prev) 0 n, contains-count_from prev 0 n)

-- A step in an open session whose next number is `n`, when the transaction is answered: it is
-- applied exactly when it tries `n`; a lower number is reported as replayed, a higher one as leaving
-- a gap; the row count is that of the session, which grew by the number `n` or not at all.
pub run_step-exact :
    (action user session : String) (seq n ms : ℕ) (e : Event) (db : Store)
    → HasApplied user session n db
    → db.sessions_open user session ≡ true
    → ((run_step action user session seq e (answered ms) db).0.reason ≡ verdict seq n)
      × ((run_step action user session seq e (answered ms) db).0.applied ≡ (seq == n))
      × ((run_step action user session seq e (answered ms) db).0.timeline_rows ≡ next_count seq n)
      × HasApplied user session
          (next_count seq n)
          (run_step action user session seq e (answered ms) db).1
unfolding run_step
run_step-exact action user session seq n ms e db h opened =
    let after = event-HasApplied user session seq n e db h opened in
    let reason = reason-verdict user session seq n e db h opened in
    (
      reason,
      ap is_none reason ∙ ground arith,
      rows_of-HasApplied user session (next_count seq n) _ after,
      after,
    )

-- A step in a session that is not open is refused as such, and changes nothing.
pub run_step-closed :
    (action user session : String) (seq ms : ℕ) (e : Event) (db : Store)
    → db.sessions_open user session ≡ false
    → ((run_step action user session seq e (answered ms) db).0.reason ≡ some not_open)
      × ((run_step action user session seq e (answered ms) db).1 ≡ db)
unfolding run_step apply_event reason_of apply_guard
run_step-closed action user session seq ms e db shut = (rw shut refl, rw shut refl)

-- The scripted steps after the session is opened, as (action, seq).
abbrev pub script : List (String × ℕ)
script =
    ("apply seq=0", 0)
    ∷ ("replay seq=0", 0)
    ∷ ("attempt seq=2 out of order", 2)
    ∷ ("apply seq=1", 1)
    ∷ ("apply seq=2", 2)
    ∷ []

-- The steps of a script, each with the event that it binds and the time that it takes.
unfoldable pub run_script :
    String → String → List (String × ℕ) → (ℕ → Event) → (ℕ → ℕ) → Store → List Step × Store
unfolding run_step
run_script user session [] e ms db = ([], db)
run_script user session ((action, seq) ∷ rest) e ms db =
    let (step, db') = run_step action user session seq (e seq) (answered (ms seq)) db in
    let (steps, db'') = run_script user session rest e ms db' in (step ∷ steps, db'')

-- `sequence` of `session_demo`, without the first entry, which only reports the opening.
unfoldable pub session_demo : String → String → (ℕ → Event) → (ℕ → ℕ) → Store → List Step × Store
unfolding open_session run_script
session_demo user session e ms db =
    run_script user session script e ms (open_session user session db)

-- what the verdicts are for a list of tries, from a session with `n` applied
abbrev pub verdicts : ℕ → List (String × ℕ) → List (Option Refusal × ℕ)
verdicts n [] = []
verdicts n ((action, seq) ∷ rest) =
    (verdict seq n, next_count seq n) ∷ verdicts (next_count seq n) rest

abbrev pub outcomes : List Step → List (Option Refusal × ℕ)
outcomes = map (λ s. (s.reason, s.timeline_rows))

pub open-run_step :
    (action user session u s : String) (seq ms : ℕ) (e : Event) (db : Store)
    → (run_step action user session seq e (answered ms) db).1.sessions_open u s
      ≡ db.sessions_open u s
unfolding run_step apply_event apply_writes
open-run_step action user session u s seq ms e db = ground arith

-- In any script, from any session in order: each step is answered by its verdict.
run_script-verdicts :
    (user session : String) (steps : List (String × ℕ)) (n : ℕ) (e : ℕ → Event) (ms : ℕ → ℕ)
    (db : Store)
    → HasApplied user session n db
    → db.sessions_open user session ≡ true
    → outcomes (run_script user session steps e ms db).0 ≡ verdicts n steps
unfolding run_script
run_script-verdicts user session [] n e ms db h opened = refl
run_script-verdicts user session ((action, seq) ∷ rest) n e ms db h opened =
    let (reason, _, rows, after) =
      run_step-exact action user session seq n (ms seq) (e seq) db h opened in
    let db' = (run_step action user session seq (e seq) (answered (ms seq)) db).1 in
    let later =
      run_script-verdicts user session rest (next_count seq n) e ms db' after
        (open-run_step action user session user session seq (ms seq) (e seq) db ∙ opened) in
    λ i. (reason i, rows i) ∷ later i

-- The demonstration, in a session that is new and with every transaction answered: number 0 is
-- applied, its replay is refused, number 2 is refused since it would leave a gap, then 1 and 2 are
-- applied; the rows of the timeline after each are 1, 1, 1, 2, 3.
pub outcomes-session_demo :
    (user session : String) (e : ℕ → Event) (ms : ℕ → ℕ) (db : Store)
    → HasApplied user session 0 db
    → outcomes (session_demo user session e ms db).0
      ≡ (none, 1) ∷ (some (replayed 0), 1) ∷ (some (gap 1 2), 1) ∷ (none, 2) ∷ (none, 3) ∷ []
unfolding session_demo open_session
outcomes-session_demo user session e ms db h =
    run_script-verdicts user session script 0 e ms
      (record db { sessions_open = replace db.sessions_open user session true })
      (record { applied = h.applied; projected = h.projected })
      (ground (arith, eq_iff user user, eq_iff session session))
