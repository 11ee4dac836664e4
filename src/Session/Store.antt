-- ===== src/Session/Store.antt =====
-- The three tables of the session demonstration, and the Accord transaction that appends one event
-- (`_apply_cql` of backend/app/routes/transactions.py). Accord runs a transaction as one atomic step.
use open_htap_stack.Prelude.{
  ℕ, zero, suc, String, Bool, true, false, not, ◌&&◌, ◌||◌, Option, none, some, List, [], ◌∷◌, ltb,
  ◌==◌, ◌=s=◌, if◌then◌else◌,
}

-- A row of `session_timeline` without its partition key.
pub record Event : Type 0 where
  pub event_id : ℕ
  pub event_time : ℕ
  pub event_type : String
  pub payload : String

-- Each table is read by partition only, so each is a function of its partition key; the rows of a
-- partition stand in the order of `seq`, their clustering column.
pub record Store : Type 0 where
  pub sessions_open : String → String → Bool
  pub session_seq_applied : String → String → List ℕ
  pub session_timeline : String → String → List (ℕ × Event)

abbrev pub same_key : String → String → String → String → Bool
same_key user session u s = user =s= u && session =s= s

-- A table with one partition replaced.
abbrev pub replace {ℓ} :
    {A : Type ℓ} → (String → String → A) → String → String → A → String → String → A
replace table user session rows u s = if same_key user session u s then rows else table u s

unfoldable pub contains_seq : ℕ → List ℕ → Bool
contains_seq seq [] = false
contains_seq seq (n ∷ ns) = n == seq || contains_seq seq ns

-- INSERT of a key: a row that is there is overwritten.
unfoldable pub insert_seq : ℕ → List ℕ → List ℕ
insert_seq seq [] = seq ∷ []
insert_seq seq (n ∷ ns) =
    if n == seq then n ∷ ns else if ltb seq n then seq ∷ n ∷ ns else n ∷ insert_seq seq ns

unfoldable pub insert_event : ℕ → Event → List (ℕ × Event) → List (ℕ × Event)
insert_event seq e [] = (seq, e) ∷ []
insert_event seq e ((n, old) ∷ rows) =
    if n == seq
    then (n, e) ∷ rows
    else if ltb seq n
    then (seq, e) ∷ (n, old) ∷ rows
    else (n, old) ∷ insert_event seq e rows

-- The row that the transaction's SELECT projects; for seq = 0 it names no predecessor.
pub record Projection : Type 0 where
  pub session_ok : Option String
  pub already : Option ℕ
  pub prev_ok : Option ℕ

abbrev found_session : String → Bool → Option String
found_session session true = some session
found_session session false = none

abbrev found_seq : ℕ → Bool → Option ℕ
found_seq seq true = some seq
found_seq seq false = none

-- `LET prev_ok`, which `_apply_cql` leaves out where there is no predecessor.
unfoldable pub prev_of : ℕ → List ℕ → Option ℕ
unfolding contains_seq
prev_of zero applied = none
prev_of (suc prev) applied = found_seq prev (contains_seq prev applied)

-- The third conjunct of the IF, likewise.
unfoldable pub prev_applied : ℕ → List ℕ → Bool
unfolding contains_seq
prev_applied zero applied = true
prev_applied (suc prev) applied = contains_seq prev applied

unfoldable pub apply_guard : String → String → ℕ → Store → Bool
unfolding contains_seq prev_applied
apply_guard user session seq db =
    let applied = db.session_seq_applied user session in
    db.sessions_open user session && not (contains_seq seq applied) && prev_applied seq applied

-- The two writes under the IF.
unfoldable pub apply_writes : String → String → ℕ → Event → Store → Store
apply_writes user session seq e db = record db {
  session_timeline =
      replace db.session_timeline user session
        (insert_event seq e (db.session_timeline user session));
  session_seq_applied =
      replace db.session_seq_applied user session
        (insert_seq seq (db.session_seq_applied user session));
}

-- `_apply_cql`: the projection, and the tables afterwards.
unfoldable pub apply_event : String → String → ℕ → Event → Store → Projection × Store
unfolding apply_guard prev_of
apply_event user session seq e db =
    let applied = db.session_seq_applied user session in
    (
      record {
        session_ok = found_session session (db.sessions_open user session);
        already = found_seq seq (contains_seq seq applied);
        prev_ok = prev_of seq applied;
      },
      if apply_guard user session seq db then apply_writes user session seq e db else db,
    )

-- `_open_session`
unfoldable pub open_session : String → String → Store → Store
open_session user session db = record db {
  sessions_open = replace db.sessions_open user session true;
}
