-- ===== src/Snapshot/Backed.antt =====
-- What Cassandra was told of each snapshot that `SparkBulkClient` reads.
use mathlib.Core.List.{Memᴰ}
use mathlib.Core.Option.{some-injective, none-ne-some}
use open_htap_stack.Prelude.{
  ℕ, ◌+◌, ◌<◌, ◌≡◌, refl, sym, ◌∙◌, subst, String, Bool, true, Option, none, some, List, [], ◌∷◌,
  lookup, lookup-insert, ◌=s=◌, inl, inr, Bool-cases,
}
use open_htap_stack.Snapshot.Bulk.{
  Snapshot, View, Client, Cluster, Request, expires_at, view_of, registered, unregistered,
  existing_for, register_bulk_view, and_made, run_requests, new_client,
}
use open_htap_stack.Snapshot.Life.{ttl_end, register_bulk_view-lasts}
use open_htap_stack.Snapshot.Numbers.{existing_for-known}
use open_htap_stack.Snapshot.Reuse.{lookup-register_bulk_view}

-- One of the views made created the snapshot, under a strategy that ends it when the client reckons.
record Created (timeout_s : ℕ) (made : List View) (s : Snapshot) : Type 0 where
  view : View
  within : Memᴰ view made
  creates : view.create_snapshot ≡ true
  of : view.snapshot ≡ s
  ends : expires_at view.snapshot view.strategy ≡ some (ttl_end timeout_s s)

-- Every snapshot that the client knows was created by one of the views made.
abbrev IsBacked : ℕ → List View → Client → Type 0
IsBacked timeout_s made client =
    (t : String) (s : Snapshot) → lookup t client.last_snapshot ≡ some s → Created timeout_s made s

Created-and_made :
    {timeout_s : ℕ} {made : List View} {s : Snapshot} (o : Option View)
    → Created timeout_s made s
    → Created timeout_s (and_made o made) s
Created-and_made none c = c
Created-and_made (some v) c = record {
  view = c.view;
  within = Memᴰ.tail c.within;
  creates = c.creates;
  of = c.of;
  ends = c.ends;
}

-- A view's snapshot was created before, or by the view itself.
view_of-Created :
    (timeout_s now number : ℕ) (table : String) (o : Option Snapshot) (made : List View)
    → ((s : Snapshot) → o ≡ some s → Created timeout_s made s)
    → Created timeout_s
        (view_of timeout_s now number table o ∷ made)
        (view_of timeout_s now number table o).snapshot
unfolding view_of expires_at ttl_end
view_of-Created timeout_s now number table none made h = record {
  view = view_of timeout_s now number table none;
  within = Memᴰ.head refl;
  creates = refl;
  of = refl;
  ends = refl;
}
view_of-Created timeout_s now number table (some s) made h =
    Created-and_made (some (view_of timeout_s now number table (some s))) (h s refl)

registered-IsBacked :
    (timeout_s : ℕ) (made : List View) (v : View) (o : Option Snapshot) (client : Client)
    → IsBacked timeout_s made client
    → Created timeout_s (v ∷ made) v.snapshot
    → IsBacked timeout_s (v ∷ made) (registered v o client)
unfolding registered
registered-IsBacked timeout_s made v o client ok mine t s at = elim (Bool-cases (v.table =s= t)) [
  | inl same ↦
      let e : some v.snapshot ≡ some s =
        rw same at (sym (lookup-insert v.table t v.snapshot client.last_snapshot) ∙ at) in
      subst (λ (x : Snapshot). Created timeout_s (v ∷ made) x) (some-injective v.snapshot s e) mine
  | inr other ↦
      let e : lookup t client.last_snapshot ≡ some s =
        rw other at (sym (lookup-insert v.table t v.snapshot client.last_snapshot) ∙ at) in
      Created-and_made (some v) (ok t s e)
]

register_bulk_view-IsBacked :
    (timeout_s : ℕ) (c : Cluster) (table : String) (reuse : Bool) (client : Client)
    (made : List View)
    → IsBacked timeout_s made client
    → IsBacked timeout_s
        (and_made (register_bulk_view timeout_s c table reuse client).0 made)
        (register_bulk_view timeout_s c table reuse client).1
unfolding register_bulk_view unregistered
register_bulk_view-IsBacked timeout_s c table reuse client made ok =
    let existing = existing_for timeout_s c table reuse client in
    let v = view_of timeout_s c.now client.counter table existing in
    elim (Bool-cases (c.accepts v)) [
      | inl fine ↦ rw fine (
          registered-IsBacked timeout_s made v existing client ok (
            view_of-Created timeout_s c.now client.counter table existing made
              (λ s h. ok table s (existing_for-known timeout_s c table reuse client s h))))
      | inr raised ↦ rw raised ok
    ]

run_requests-IsBacked :
    (timeout_s : ℕ) (qs : List Request) (client : Client) (made : List View)
    → IsBacked timeout_s made client
    → IsBacked timeout_s
        (run_requests timeout_s qs client made).1
        (run_requests timeout_s qs client made).0
unfolding run_requests
run_requests-IsBacked timeout_s [] client made ok = ok
run_requests-IsBacked timeout_s (q ∷ qs) client made ok =
    run_requests-IsBacked timeout_s qs
      (register_bulk_view timeout_s q.cluster q.table q.reuse client).1
      (and_made (register_bulk_view timeout_s q.cluster q.table q.reuse client).0 made)
      (register_bulk_view-IsBacked timeout_s q.cluster q.table q.reuse client made ok)

new_client-IsBacked : (timeout_s : ℕ) → IsBacked timeout_s [] new_client
unfolding lookup
new_client-IsBacked timeout_s t s h = absurd (none-ne-some s h)

-- After any calls of a process, with whatever clusters and whichever DDL statements raised: a view that
-- is made, of an old snapshot or of a new one, reads a snapshot that the view itself or one made before
-- it created, under a strategy by which Cassandra keeps it for longer than the read may take.
pub run_requests-lasts :
    (timeout_s : ℕ) (qs : List Request) (q : Request) (v : View)
    → (register_bulk_view timeout_s q.cluster q.table q.reuse
        (run_requests timeout_s qs new_client []).0).0
      ≡ some v
    → (w : View) × (until : ℕ) × Memᴰ w (v ∷ (run_requests timeout_s qs new_client []).1)
      × (w.create_snapshot ≡ true)
      × (w.snapshot ≡ v.snapshot)
      × (expires_at w.snapshot w.strategy ≡ some until)
      × (q.cluster.now + timeout_s < until)
run_requests-lasts timeout_s qs q v h =
    let (client, made) = run_requests timeout_s qs new_client [] in
    let ok =
      register_bulk_view-IsBacked timeout_s q.cluster q.table q.reuse client made
        (run_requests-IsBacked timeout_s qs new_client [] (new_client-IsBacked timeout_s)) in
    let at = lookup-register_bulk_view timeout_s q.cluster q.table q.reuse client v h in
    let c =
      subst (λ (o : Option View). Created timeout_s (and_made o made) v.snapshot) h
        (ok q.table v.snapshot at) in
    (
      c.view,
      ttl_end timeout_s v.snapshot,
      c.within,
      c.creates,
      c.of,
      c.ends,
      register_bulk_view-lasts timeout_s q.cluster q.table q.reuse client v h,
    )
