-- ===== src/Snapshot/Life.antt =====
-- How long a snapshot lives that a read is given.
use mathlib.Core.Option.{some-injective, none-ne-some}
use open_htap_stack.Prelude.{
  ℕ, ◌+◌, ◌-◌, ◌*◌, ◌≤◌, ◌<◌, ◌≡◌, refl, subst, String, Bool, true, false, Option, none, some, leb,
  lookup, arith, inl, inr, Bool-cases,
}
use open_htap_stack.Snapshot.Bulk.{
  Snapshot, View, Client, Cluster, snapshot_ttl_minutes, age_of, listed, reusable_of, reusable,
  view_of, existing_for, register_bulk_view,
}

-- When the time is up that the client reckons a snapshot of its own to have.
unfoldable pub ttl_end : ℕ → Snapshot → ℕ
ttl_end timeout_s s = s.taken_at + snapshot_ttl_minutes timeout_s * 60

-- A snapshot lives longer than twice the time that a read may take, or 15 minutes.
ttl_bounds :
    (timeout_s : ℕ)
    → (timeout_s * 2 ≤ snapshot_ttl_minutes timeout_s * 60)
      × (900 ≤ snapshot_ttl_minutes timeout_s * 60)
unfolding snapshot_ttl_minutes
ttl_bounds timeout_s = (omega arith, omega arith)

pub listed-same : (bytes : Option ℕ) (t s : Snapshot) → listed bytes t ≡ some s → t ≡ s
unfolding listed
listed-same none t s h = absurd (ground (arith, h))
listed-same (some b) t s h = some-injective t s h

outlives :
    (taken life now timeout : ℕ)
    → leb life (timeout + (now - taken)) ≡ false
    → now + timeout < taken + life
outlives taken life now timeout h = ground (arith, h)

reusable_of-lasts :
    (timeout_s : ℕ) (c : Cluster) (table : String) (o : Option Snapshot) (s : Snapshot)
    → reusable_of timeout_s c table o ≡ some s
    → c.now + timeout_s < ttl_end timeout_s s
unfolding reusable_of ttl_end
reusable_of-lasts timeout_s c table none s h = absurd (ground (arith, h))
reusable_of-lasts timeout_s c table (some t) s h =
    elim (Bool-cases (leb (snapshot_ttl_minutes timeout_s * 60) (timeout_s + age_of t c.now))) [
      | inl late ↦ absurd (none-ne-some s (rw late at h))
      | inr early ↦
          let same = listed-same (c.snapshot_bytes table t) t s (rw early at (h)) in
          subst (λ x. c.now + timeout_s < ttl_end timeout_s x) same
            (outlives t.taken_at (snapshot_ttl_minutes timeout_s * 60) c.now timeout_s early)
    ]

existing_for-lasts :
    (timeout_s : ℕ) (c : Cluster) (table : String) (reuse : Bool) (client : Client) (s : Snapshot)
    → existing_for timeout_s c table reuse client ≡ some s
    → c.now + timeout_s < ttl_end timeout_s s
unfolding existing_for reusable
existing_for-lasts timeout_s c table true client s h =
    reusable_of-lasts timeout_s c table (lookup table client.last_snapshot) s h
existing_for-lasts timeout_s c table false client s h = absurd (none-ne-some s h)

view_of-lasts :
    (timeout_s : ℕ) (c : Cluster) (table : String) (number : ℕ) (o : Option Snapshot)
    → ((s : Snapshot) → o ≡ some s → c.now + timeout_s < ttl_end timeout_s s)
    → c.now + timeout_s < ttl_end timeout_s (view_of timeout_s c.now number table o).snapshot
unfolding view_of ttl_end
view_of-lasts timeout_s c table number none h =
    let (twice, quarter) = ttl_bounds timeout_s in omega (arith, twice, quarter)
view_of-lasts timeout_s c table number (some s) h = h s refl

pub view-registered :
    (timeout_s : ℕ) (c : Cluster) (table : String) (reuse : Bool) (client : Client) (v : View)
    → (register_bulk_view timeout_s c table reuse client).0 ≡ some v
    → view_of timeout_s c.now client.counter table (existing_for timeout_s c table reuse client) ≡ v
unfolding register_bulk_view
view-registered timeout_s c table reuse client v h =
    let made =
      view_of timeout_s c.now client.counter table (existing_for timeout_s c table reuse client) in
    elim (Bool-cases (c.accepts made)) [
      | inl fine ↦ some-injective made v (rw fine at h)
      | inr raised ↦ absurd (none-ne-some v (rw raised at h))
    ]

-- The view of a query's table, whether its snapshot is an old one or one just taken, reads a snapshot
-- of which more time is left by the client's reckoning than the read may take.
pub register_bulk_view-lasts :
    (timeout_s : ℕ) (c : Cluster) (table : String) (reuse : Bool) (client : Client) (v : View)
    → (register_bulk_view timeout_s c table reuse client).0 ≡ some v
    → c.now + timeout_s < ttl_end timeout_s v.snapshot
register_bulk_view-lasts timeout_s c table reuse client v h =
    subst (λ x. c.now + timeout_s < ttl_end timeout_s x.snapshot)
      (view-registered timeout_s c table reuse client v h)
      (view_of-lasts timeout_s c table client.counter (existing_for timeout_s c table reuse client)
        (existing_for-lasts timeout_s c table reuse client))
