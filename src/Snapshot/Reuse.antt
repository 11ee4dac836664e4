-- ===== src/Snapshot/Reuse.antt =====
-- Which snapshot a query reads, after the queries before it.
use mathlib.Core.Option.{some-injective, none-ne-some}
use open_htap_stack.Prelude.{
  ℕ, ◌+◌, ◌-◌, ◌*◌, ◌<◌, ◌≡◌, refl, ap, ◌∙◌, String, Bool, true, false, Option, none, some, leb,
  lookup, lookup-insert, ◌=s=◌, eq_iff, arith, inl, inr, Bool-cases, if◌then◌else◌,
}
use open_htap_stack.Snapshot.Bulk.{
  no_op, Snapshot, View, Client, Cluster, snapshot_ttl_minutes, reusable_of, reusable, view_of,
  registered, existing_for, register_bulk_view,
}
use open_htap_stack.Snapshot.Life.{ttl_end}

view_of-table :
    (timeout_s now number : ℕ) (table : String) (o : Option Snapshot)
    → (view_of timeout_s now number table o).table ≡ table
unfolding view_of
view_of-table timeout_s now number table none = refl
view_of-table timeout_s now number table (some s) = refl

lookup-registered :
    (v : View) (o : Option Snapshot) (client : Client) (table : String)
    → v.table ≡ table
    → lookup table (registered v o client).last_snapshot ≡ some v.snapshot
unfolding registered
lookup-registered v o client table same =
    lookup-insert v.table table v.snapshot client.last_snapshot
    ∙ own v.table table (some v.snapshot) same
  where
    own :
        (a b : String) (x : Option Snapshot)
        → a ≡ b
        → (if a =s= b then x else lookup b client.last_snapshot) ≡ x
    own a b x h = ground (arith, eq_iff a b, h)

-- What a view that was made leaves as the table's last snapshot.
pub lookup-register_bulk_view :
    (timeout_s : ℕ) (c : Cluster) (table : String) (reuse : Bool) (client : Client) (v : View)
    → (register_bulk_view timeout_s c table reuse client).0 ≡ some v
    → lookup table (register_bulk_view timeout_s c table reuse client).1.last_snapshot
      ≡ some v.snapshot
unfolding register_bulk_view
lookup-register_bulk_view timeout_s c table reuse client v h =
    let existing = existing_for timeout_s c table reuse client in
    let made = view_of timeout_s c.now client.counter table existing in
    elim (Bool-cases (c.accepts made)) [
      | inl fine ↦ rw fine (
          lookup-registered made existing client table
            (view_of-table timeout_s c.now client.counter table existing)
          ∙ ap (λ (x : View). some x.snapshot) (some-injective made v (rw fine at h)))
      | inr raised ↦ absurd (none-ne-some v (rw raised at h))
    ]

reusable_of-keeps :
    (timeout_s bytes : ℕ) (c : Cluster) (table : String) (s : Snapshot)
    → c.snapshot_bytes table s ≡ some bytes
    → c.now + timeout_s < ttl_end timeout_s s
    → timeout_s < snapshot_ttl_minutes timeout_s * 60
    → reusable_of timeout_s c table (some s) ≡ some s
unfolding reusable_of ttl_end
reusable_of-keeps timeout_s bytes c table s at lives long =
    rw (early s.taken_at (snapshot_ttl_minutes timeout_s * 60) c.now timeout_s lives long, at) refl
  where
    early :
        (taken life now timeout : ℕ)
        → now + timeout < taken + life
        → timeout < life
        → leb life (timeout + (now - taken)) ≡ false
    early taken life now timeout h k = ground (arith, h, k)

register-accepted :
    (timeout_s : ℕ) (c : Cluster) (table : String) (reuse : Bool) (client : Client)
    (o : Option Snapshot)
    → ((v : View) → c.accepts v ≡ true)
    → existing_for timeout_s c table reuse client ≡ o
    → (register_bulk_view timeout_s c table reuse client).0
      ≡ some (view_of timeout_s c.now client.counter table o)
unfolding register_bulk_view
register-accepted timeout_s c table reuse client o fine same =
    rw (same, fine (view_of timeout_s c.now client.counter table o)) refl

existing-last :
    (timeout_s : ℕ) (c : Cluster) (table : String) (client : Client) (s : Snapshot)
    → lookup table client.last_snapshot ≡ some s
    → reusable_of timeout_s c table (some s) ≡ some s
    → existing_for timeout_s c table true client ≡ some s
unfolding existing_for reusable
existing-last timeout_s c table client s at keeps = rw at keeps

ttl_long : (timeout_s : ℕ) → timeout_s < snapshot_ttl_minutes timeout_s * 60
unfolding snapshot_ttl_minutes
ttl_long timeout_s = omega arith

old_view :
    (timeout_s now number : ℕ) (table : String) (s : Snapshot)
    → some (view_of timeout_s now number table (some s))
      ≡ some (record { table = table; create_snapshot = false; snapshot = s; strategy = no_op })
unfolding view_of
old_view timeout_s now number table s = refl

-- A query that asks for reuse reads the snapshot that the query before it took or read, and takes none,
-- where the Sidecar still lists that snapshot, more of its life is left than the read may take, and the
-- DDL runs.
pub register_bulk_view-reuses :
    (timeout_s bytes : ℕ) (c c' : Cluster) (table : String) (reuse : Bool) (client : Client)
    (v : View)
    → (register_bulk_view timeout_s c table reuse client).0 ≡ some v
    → c'.snapshot_bytes table v.snapshot ≡ some bytes
    → c'.now + timeout_s < ttl_end timeout_s v.snapshot
    → ((w : View) → c'.accepts w ≡ true)
    → (register_bulk_view timeout_s c' table true
        (register_bulk_view timeout_s c table reuse client).1).0
      ≡ some (record {
        table = table;
        create_snapshot = false;
        snapshot = v.snapshot;
        strategy = no_op;
      })
register_bulk_view-reuses timeout_s bytes c c' table reuse client v h at lives fine =
    let client' = (register_bulk_view timeout_s c table reuse client).1 in
    register-accepted timeout_s c' table true client' (some v.snapshot) fine (
      existing-last timeout_s c' table client' v.snapshot
        (lookup-register_bulk_view timeout_s c table reuse client v h)
        (reusable_of-keeps timeout_s bytes c' table v.snapshot at lives (ttl_long timeout_s)))
    ∙ old_view timeout_s c'.now client'.counter table v.snapshot
