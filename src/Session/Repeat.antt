-- ===== src/Session/Repeat.antt =====
-- The measured transactions of `_repeat_applied`, which must all take the applied path.
use open_htap_stack.Prelude.{
  ℕ, zero, suc, ◌+◌, ◌≡◌, refl, ap, ◌∙◌, subst, String, true, List, [], ◌∷◌, ◌==◌, arith, length,
  eq_iff, if◌then◌else◌,
}
use open_htap_stack.Session.Store.{Event, Store, replace, open_session}
use open_htap_stack.Session.Step.{answered, run_step}
use open_htap_stack.Session.Timeline.{HasApplied, next_count}
use open_htap_stack.Session.Demo.{run_step-exact, open-run_step}

-- The loop of `_repeat_applied` over the numbers from `seq` on: the latencies of those applied.
unfoldable pub repeat_from :
    String → String → ℕ → ℕ → (ℕ → Event) → (ℕ → ℕ) → Store → List ℕ × Store
repeat_from user session seq zero e ms db = ([], db)
repeat_from user session seq (suc k) e ms db =
    let (step, db') = run_step "apply" user session seq (e seq) (answered (ms seq)) db in
    let (latencies, db'') = repeat_from user session (seq + 1) k e ms db' in
    (if step.applied then step.duration_ms ∷ latencies else latencies, db'')

-- `_repeat_applied` in a session that is new.
unfoldable pub repeat_applied : String → String → ℕ → (ℕ → Event) → (ℕ → ℕ) → Store → List ℕ × Store
unfolding open_session repeat_from
repeat_applied user session zero e ms db = ([], db)
repeat_applied user session (suc k) e ms db =
    let db₀ = open_session user session db in
    let db₁ = (run_step "apply seq=0" user session 0 (e 0) (answered (ms 0)) db₀).1 in
    repeat_from user session 1 (suc k) e ms db₁

recount :
    {user session : String} {n m : ℕ} {db : Store}
    → n ≡ m
    → HasApplied user session n db
    → HasApplied user session m db
recount {user} {session} {db = db} p h = subst (λ k. HasApplied user session k db) p h

same_test : (n : ℕ) → (n == n) ≡ true
same_test n = ground arith

next_self : (n : ℕ) → next_count n n ≡ n + 1
next_self n = ground arith

repeat_from-all_applied :
    (user session : String) (seq k : ℕ) (e : ℕ → Event) (ms : ℕ → ℕ) (db : Store)
    → HasApplied user session seq db
    → db.sessions_open user session ≡ true
    → (length (repeat_from user session seq k e ms db).0 ≡ k)
      × HasApplied user session (seq + k) (repeat_from user session seq k e ms db).1
unfolding repeat_from
repeat_from-all_applied user session seq zero e ms db h opened = (refl, recount (omega arith) h)
repeat_from-all_applied user session seq (suc k) e ms db h opened =
    let (_, applied, _, after) =
      run_step-exact "apply" user session seq seq (ms seq) (e seq) db h opened in
    let db' = (run_step "apply" user session seq (e seq) (answered (ms seq)) db).1 in
    let (latencies, last) =
      repeat_from-all_applied user session (seq + 1) k e ms db' (recount (next_self seq) after)
        (open-run_step "apply" user session user session seq (ms seq) (e seq) db ∙ opened) in
    (rw (applied ∙ same_test seq) (ap suc latencies), recount (omega arith) last)

-- In a session that is new, when every transaction is answered, all the repeats apply: there is a
-- latency for each, and the session ends with number 0 and one more for each repeat.
pub repeat_applied-all_applied :
    (user session : String) (k : ℕ) (e : ℕ → Event) (ms : ℕ → ℕ) (db : Store)
    → HasApplied user session 0 db
    → (length (repeat_applied user session k e ms db).0 ≡ k)
      × HasApplied user session
          (if k == 0 then 0 else k + 1)
          (repeat_applied user session k e ms db).1
unfolding repeat_applied
repeat_applied-all_applied user session zero e ms db h = (refl, h)
repeat_applied-all_applied user session (suc k) e ms db h =
    let db₀ = record db { sessions_open = replace db.sessions_open user session true } in
    let h₀ : HasApplied user session 0 db₀ = record {
      applied = h.applied;
      projected = h.projected;
    } in
    let opened : db₀.sessions_open user session ≡ true =
      ground (arith, eq_iff user user, eq_iff session session) in
    let (_, _, _, after) =
      run_step-exact "apply seq=0" user session 0 0 (ms 0) (e 0) db₀ h₀ opened in
    let db₁ = (run_step "apply seq=0" user session 0 (e 0) (answered (ms 0)) db₀).1 in
    let (latencies, last) =
      repeat_from-all_applied user session 1 (suc k) e ms db₁ after
        (open-run_step "apply seq=0" user session user session 0 (ms 0) (e 0) db₀ ∙ opened) in
    (latencies, recount (ground arith) last)
