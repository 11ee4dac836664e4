-- ===== src/Snapshot/Numbers.antt =====
-- The numbers that the names of snapshots carry: a name is never asked for twice.
use mathlib.Core.Option.{some-injective, none-ne-some}
use open_htap_stack.Prelude.{
  ℕ, ◌+◌, ◌*◌, ◌≤◌, ◌<◌, ◌≡◌, refl, subst, ap, sym, ◌∙◌, String, Bool, true, false, Option, none,
  some, List, [], ◌∷◌, leb, lookup, lookup-insert, ◌=s=◌, arith, inl, inr, Bool-cases,
}
use open_htap_stack.Snapshot.Bulk.{
  Snapshot, View, Client, Cluster, snapshot_ttl_minutes, age_of, reusable_of, reusable, view_of,
  counter_after, registered, unregistered, existing_for, register_bulk_view, prepare, and_rest,
  Figures,
}
use open_htap_stack.Snapshot.Life.{view-registered, listed-same}

-- The numbers of the snapshots known are below the counter.
abbrev pub IsNumbered : Client → Type 0
IsNumbered client =
    (t : String) (s : Snapshot) → lookup t client.last_snapshot ≡ some s → s.number < client.counter

counter_after_le : (o : Option Snapshot) (n : ℕ) → n ≤ counter_after o n
unfolding counter_after
counter_after_le none n = omega arith
counter_after_le (some s) n = omega arith

unregistered-IsNumbered :
    (o : Option Snapshot) (client : Client) → IsNumbered client → IsNumbered (unregistered o client)
unfolding unregistered
unregistered-IsNumbered o client ok t s at =
    omega (arith, ok t s at, counter_after_le o client.counter)

registered-IsNumbered :
    (v : View) (o : Option Snapshot) (client : Client)
    → v.snapshot.number < counter_after o client.counter
    → IsNumbered client
    → IsNumbered (registered v o client)
unfolding registered
registered-IsNumbered v o client below ok t s at = elim (Bool-cases (v.table =s= t)) [
  | inl same ↦
      let mine : some v.snapshot ≡ some s =
        rw same at (sym (lookup-insert v.table t v.snapshot client.last_snapshot) ∙ at) in
      subst (λ (x : Snapshot). x.number < counter_after o client.counter)
        (some-injective v.snapshot s mine) below
  | inr other ↦
      let old : lookup t client.last_snapshot ≡ some s =
        rw other at (sym (lookup-insert v.table t v.snapshot client.last_snapshot) ∙ at) in
      omega (arith, ok t s old, counter_after_le o client.counter)
]

reusable_of-own :
    (timeout_s : ℕ) (c : Cluster) (table : String) (o : Option Snapshot) (s : Snapshot)
    → reusable_of timeout_s c table o ≡ some s
    → o ≡ some s
unfolding reusable_of
reusable_of-own timeout_s c table none s h = h
reusable_of-own timeout_s c table (some t) s h =
    elim (Bool-cases (leb (snapshot_ttl_minutes timeout_s * 60) (timeout_s + age_of t c.now))) [
      | inl late ↦ absurd (none-ne-some s (rw late at h))
      | inr early ↦ ap some (listed-same (c.snapshot_bytes table t) t s (rw early at (h)))
    ]

pub existing_for-known :
    (timeout_s : ℕ) (c : Cluster) (table : String) (reuse : Bool) (client : Client) (s : Snapshot)
    → existing_for timeout_s c table reuse client ≡ some s
    → lookup table client.last_snapshot ≡ some s
unfolding existing_for reusable
existing_for-known timeout_s c table true client s h =
    reusable_of-own timeout_s c table (lookup table client.last_snapshot) s h
existing_for-known timeout_s c table false client s h = absurd (none-ne-some s h)

number-view_of :
    (timeout_s now number : ℕ) (table : String) (o : Option Snapshot)
    → ((s : Snapshot) → o ≡ some s → s.number < number)
    → (view_of timeout_s now number table o).snapshot.number < counter_after o number
unfolding view_of counter_after
number-view_of timeout_s now number table none h = omega arith
number-view_of timeout_s now number table (some s) h = h s refl

register_bulk_view-IsNumbered :
    (timeout_s : ℕ) (c : Cluster) (table : String) (reuse : Bool) (client : Client)
    → IsNumbered client
    → IsNumbered (register_bulk_view timeout_s c table reuse client).1
unfolding register_bulk_view
register_bulk_view-IsNumbered timeout_s c table reuse client ok =
    let existing = existing_for timeout_s c table reuse client in
    let made = view_of timeout_s c.now client.counter table existing in
    elim (Bool-cases (c.accepts made)) [
      | inl fine ↦ rw fine (
          registered-IsNumbered made existing client
            (number-view_of timeout_s c.now client.counter table existing
              (λ s h. ok table s (existing_for-known timeout_s c table reuse client s h)))
            ok)
      | inr raised ↦ rw raised (unregistered-IsNumbered existing client ok)
    ]

new_number :
    (timeout_s now number : ℕ) (table : String) (o : Option Snapshot)
    → (view_of timeout_s now number table o).create_snapshot ≡ true
    → (view_of timeout_s now number table o).snapshot.number ≡ number
unfolding view_of
new_number timeout_s now number table none h = refl
new_number timeout_s now number table (some s) h = absurd (ground (arith, h))

-- Where the numbers of the snapshots known are below the counter: a view that creates a snapshot
-- gives it a number above those of all snapshots known, so no name is asked for twice.
pub register_bulk_view-new :
    (timeout_s : ℕ) (c : Cluster) (table : String) (reuse : Bool) (client : Client) (v : View)
    (t : String) (s : Snapshot)
    → IsNumbered client
    → (register_bulk_view timeout_s c table reuse client).0 ≡ some v
    → v.create_snapshot ≡ true
    → lookup t client.last_snapshot ≡ some s
    → s.number < v.snapshot.number
register_bulk_view-new timeout_s c table reuse client v t s ok h created at =
    let same = view-registered timeout_s c table reuse client v h in
    let number =
      new_number timeout_s c.now client.counter table (existing_for timeout_s c table reuse client)
        (ap (λ (x : View). x.create_snapshot) same ∙ created) in
    omega (arith, ok t s at, number, ap (λ (x : View). x.snapshot.number) same)

and_rest-IsNumbered :
    (c : Cluster) (o : Option View) (client : Client) (rest : Option (List View × Figures) × Client)
    → IsNumbered client
    → IsNumbered rest.1
    → IsNumbered (and_rest c o client rest).1
unfolding and_rest
and_rest-IsNumbered c none client rest h k = h
and_rest-IsNumbered c (some v) client (none, last) h k = k
and_rest-IsNumbered c (some v) client (some (vs, f), last) h k = k

-- Whatever tables a query reads, and whether its views were made or one of them raised: the snapshots
-- known to the client afterwards still have numbers below its counter.
pub prepare-IsNumbered :
    (timeout_s : ℕ) (reuse : Bool) (tables : List (String × Cluster)) (client : Client)
    → IsNumbered client
    → IsNumbered (prepare timeout_s reuse tables client).1
unfolding prepare
prepare-IsNumbered timeout_s reuse [] client ok = ok
prepare-IsNumbered timeout_s reuse ((table, c) ∷ tables) client ok =
    let (view, after) = register_bulk_view timeout_s c table reuse client in
    let here = register_bulk_view-IsNumbered timeout_s c table reuse client ok in
    and_rest-IsNumbered c view after (prepare timeout_s reuse tables after) here
      (prepare-IsNumbered timeout_s reuse tables after here)
