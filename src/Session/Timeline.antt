-- ===== src/Session/Timeline.antt =====
-- The timeline's invariant: what has been applied to a session is 0, 1, ... with no gap and nothing
-- twice, and the timeline holds exactly those rows.
use open_htap_stack.Prelude.{
  ℕ, zero, suc, ◌+◌, ◌≡◌, refl, ap, ◌∙◌, subst₂, String, true, false, not, ◌&&◌, ◌⊎◌, inl, inr,
  List, [], ◌∷◌, ltb, ◌==◌, eq_iff, arith, map, Bool-cases, if◌then◌else◌,
}
use open_htap_stack.Session.Store.{
  Event, Store, same_key, contains_seq, insert_seq, insert_event, apply_guard, apply_writes,
  apply_event, open_session,
}
use open_htap_stack.Session.Step.{Delivery, answered, refused, lost, run_step}

-- from, from + 1, ..., n numbers in all
abbrev pub count_from : ℕ → ℕ → List ℕ
count_from from zero = []
count_from from (suc n) = from ∷ count_from (suc from) n

abbrev pub seqs : List (ℕ × Event) → List ℕ
seqs = map (λ r. r.0)

-- the first `n` sequence numbers have been applied to the session, and no other
pub record HasApplied (user session : String) (n : ℕ) (db : Store) : Type 0 where
  pub applied : db.session_seq_applied user session ≡ count_from 0 n
  pub projected : seqs (db.session_timeline user session) ≡ count_from 0 n

abbrev pub InOrder : Store → Type 0
InOrder db = (user session : String) → (n : ℕ) × HasApplied user session n db

pub contains-count_from :
    (seq from n : ℕ)
    → contains_seq seq (count_from from n) ≡ (not (ltb seq from) && ltb seq (from + n))
unfolding contains_seq
contains-count_from seq from zero = ground arith
contains-count_from seq from (suc n) = ground (arith, contains-count_from seq (suc from) n)

insert_seq-count_from :
    (from n : ℕ) → insert_seq (from + n) (count_from from n) ≡ count_from from (suc n)
unfolding insert_seq
insert_seq-count_from from zero = ground arith
insert_seq-count_from from (suc n) = ground (arith, insert_seq-count_from (suc from) n)

seqs-insert_event :
    (seq : ℕ) (e : Event) (rows : List (ℕ × Event))
    → seqs (insert_event seq e rows) ≡ insert_seq seq (seqs rows)
unfolding insert_event insert_seq
seqs-insert_event seq e [] = refl
seqs-insert_event seq e ((n, old) ∷ rows) = ground (arith, seqs-insert_event seq e rows)

insert_next : (n : ℕ) → insert_seq n (count_from 0 n) ≡ count_from 0 (suc n)
insert_next n =
    let e : n ≡ 0 + n = omega arith in
    ap (λ k. insert_seq k (count_from 0 n)) e ∙ insert_seq-count_from 0 n

-- In a session to which the first `n` numbers have been applied, the guard of the transaction holds
-- exactly for the number `n`, and only if the session is open.
pub guard-next :
    (user session : String) (seq n : ℕ) (db : Store)
    → HasApplied user session n db
    → apply_guard user session seq db ≡ (db.sessions_open user session && seq == n)
unfolding apply_guard
guard-next user session zero n db h = ground (arith, h.applied, contains-count_from 0 0 n)
guard-next user session (suc prev) n db h =
    ground (arith, h.applied, contains-count_from (suc prev) 0 n, contains-count_from prev 0 n)

same_key_iff :
    (user session u s : String) → same_key user session u s ≡ true → (user ≡ u) × (session ≡ s)
same_key_iff user session u s h = ground (arith, eq_iff user u, eq_iff session s)

same_key_refl : (user session : String) → same_key user session user session ≡ true
same_key_refl user session = ground (arith, eq_iff user user, eq_iff session session)

-- the writes of the next number extend the session
writes-HasApplied :
    (user session : String) (n : ℕ) (e : Event) (db : Store)
    → HasApplied user session n db
    → HasApplied user session (suc n) (apply_writes user session n e db)
unfolding apply_writes
writes-HasApplied user session n e db h = record {
  applied = rw (same_key_refl user session) (ap (insert_seq n) h.applied ∙ insert_next n);
  projected = rw (same_key_refl user session) (
      seqs-insert_event n e (db.session_timeline user session)
      ∙ ap (insert_seq n) h.projected
      ∙ insert_next n);
}

-- and leave every other session alone
writes-others :
    (user session u s : String) (seq n : ℕ) (e : Event) (db : Store)
    → same_key user session u s ≡ false
    → HasApplied u s n db
    → HasApplied u s n (apply_writes user session seq e db)
unfolding apply_writes
writes-others user session u s seq n e db other h = record {
  applied = rw other h.applied;
  projected = rw other h.projected;
}

eq_of_test : (a b : ℕ) → (a == b) ≡ true → a ≡ b
eq_of_test a b h = ground arith

-- how many numbers a session has after an attempt at `seq`
abbrev pub next_count : ℕ → ℕ → ℕ
next_count seq n = if seq == n then suc n else n

pub event-HasApplied :
    (user session : String) (seq n : ℕ) (e : Event) (db : Store)
    → HasApplied user session n db
    → db.sessions_open user session ≡ true
    → HasApplied user session (next_count seq n) (apply_event user session seq e db).1
unfolding apply_event
event-HasApplied user session seq n e db h open_ =
    rw (guard-next user session seq n db h, open_)
      (elim (Bool-cases (seq == n)) [
        | inl q ↦ rw q (
            rw (ap (λ k. apply_writes user session k e db) (eq_of_test seq n q))
              (writes-HasApplied user session n e db h))
        | inr q ↦ rw q h
      ])

event-others :
    (user session u s : String) (seq n : ℕ) (e : Event) (db : Store)
    → same_key user session u s ≡ false
    → HasApplied u s n db
    → HasApplied u s n (apply_event user session seq e db).1
unfolding apply_event
event-others user session u s seq n e db other h =
    elim (Bool-cases (apply_guard user session seq db)) [
      | inl q ↦ rw q (writes-others user session u s seq n e db other h)
      | inr q ↦ rw q h
    ]

pub event-closed :
    (user session : String) (seq : ℕ) (e : Event) (db : Store)
    → db.sessions_open user session ≡ false
    → (apply_event user session seq e db).1 ≡ db
unfolding apply_event apply_guard
event-closed user session seq e db shut = rw shut refl

-- A transaction keeps every session in order, whichever session and number it tries.
event-InOrder :
    (user session : String) (seq : ℕ) (e : Event) (db : Store)
    → InOrder db
    → InOrder (apply_event user session seq e db).1
event-InOrder user session seq e db h u s = elim (Bool-cases (same_key user session u s)) [
  | inr other ↦ let (n, v) = h u s in (n, event-others user session u s seq n e db other v)
  | inl same ↦
      let (eu, es) = same_key_iff user session u s same in
      subst₂ (λ x y. (n : ℕ) × HasApplied x y n (apply_event user session seq e db).1) eu es
        (here (Bool-cases (db.sessions_open user session)))
]
  where
    here :
        (db.sessions_open user session ≡ true) ⊎ (db.sessions_open user session ≡ false)
        → (n : ℕ) × HasApplied user session n (apply_event user session seq e db).1
    here (inl opened) =
        let (n, v) = h user session in
        (next_count seq n, event-HasApplied user session seq n e db v opened)
    here (inr shut) =
        let (n, v) = h user session in (n, rw (event-closed user session seq e db shut) v)

open-InOrder :
    (user session : String) (db : Store) → InOrder db → InOrder (open_session user session db)
unfolding open_session
open-InOrder user session db h u s =
    let (n, v) = h u s in (n, record { applied = v.applied; projected = v.projected })

-- One request of a client: to open a session, or to apply a number to one.
pub data Request : Type 0 where
  opening : String → String → Request
  applying : String → String → ℕ → Event → Delivery → Request

unfoldable pub serve : List Request → Store → Store
serve [] db = db
serve (opening user session ∷ rest) db = serve rest (open_session user session db)
serve (applying user session seq e d ∷ rest) db =
    serve rest (run_step "apply" user session seq e d db).1

step-InOrder :
    (action user session : String) (seq : ℕ) (e : Event) (d : Delivery) (db : Store)
    → InOrder db
    → InOrder (run_step action user session seq e d db).1
unfolding run_step
step-InOrder action user session seq e (answered ms) db h = event-InOrder user session seq e db h
step-InOrder action user session seq e (refused ms m) db h = h
step-InOrder action user session seq e (lost ms m) db h = event-InOrder user session seq e db h

-- Whatever clients request, in whatever order, with replays and lost replies: what each session has
-- applied is 0, 1, ..., n - 1 for some n, each once, and its timeline holds exactly those rows in order.
pub serve-InOrder :
    (requests : List Request) (db : Store) → InOrder db → InOrder (serve requests db)
unfolding serve
serve-InOrder [] db h = h
serve-InOrder (opening user session ∷ rest) db h =
    serve-InOrder rest (open_session user session db) (open-InOrder user session db h)
serve-InOrder (applying user session seq e d ∷ rest) db h =
    serve-InOrder rest (run_step "apply" user session seq e d db).1
      (step-InOrder "apply" user session seq e d db h)
