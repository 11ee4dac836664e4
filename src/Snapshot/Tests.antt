-- ===== src/Snapshot/Tests.antt =====
-- Queries of the bulk reader, and the theorems at concrete inputs.
use mathlib.Core.Option.{some-injective, none-ne-some}
use open_htap_stack.Prelude.{
  subst, inl, inr, Bool-cases, ℕ, ◌+◌, ◌<◌, ◌≡◌, refl, true, false, some, [], ◌∷◌, lookup, insert,
  ◌=s=◌, arith,
}
use mathlib.Core.List.{Memᴰ}
use open_htap_stack.Snapshot.Bulk.{
  Request, expires_at, run_requests, new_client, no_op, on_completion_or_ttl, Snapshot, View,
  Client, Cluster, register_bulk_view,
}
use open_htap_stack.Snapshot.Backed.{run_requests-lasts}
use open_htap_stack.Snapshot.Numbers.{IsNumbered}

-- every snapshot is listed, and all DDL runs
abbrev at_moment : ℕ → Cluster
at_moment now = record { now = now; snapshot_bytes = λ table s. some 4096; accepts = λ v. true }

abbrev first : Snapshot
first = record { table = "events"; taken_at = 1775000000; number = 0 }

abbrev first_view : View
first_view = record {
  table = "events";
  create_snapshot = true;
  snapshot = first;
  strategy = on_completion_or_ttl 30;
}

abbrev started : Client
started = record { last_snapshot = []; counter = 0 }

started-IsNumbered : IsNumbered started
unfolding lookup
started-IsNumbered = λ t s h. absurd (ground (arith, h))

abbrev after_first : Client
after_first = record { last_snapshot = ("events", first) ∷ []; counter = 1 }

first_made :
    (register_bulk_view 900 (at_moment 1775000000) "events" true started).0 ≡ some first_view
unfolding register_bulk_view lookup
first_made = refl

after_first-IsNumbered : IsNumbered after_first
unfolding lookup
after_first-IsNumbered = λ t s h. elim (Bool-cases ("events" =s= t)) [
  | inl same ↦
      subst (λ (x : Snapshot). x.number < 1) (some-injective first s (rw same at (h))) (omega arith)
  | inr other ↦ absurd (none-ne-some s (rw other at h))
]

-- ten minutes later the same snapshot is read, with five minutes left beside the read
abbrev first_request : Request
first_request = record { table = "events"; reuse = true; cluster = at_moment 1775000000 }

abbrev later_request : Request
later_request = record { table = "events"; reuse = true; cluster = at_moment 1775000600 }

abbrev reused_view : View
reused_view = record {
  table = "events";
  create_snapshot = false;
  snapshot = record first { number = 1 };
  strategy = no_op;
}

reused :
    (register_bulk_view 900 later_request.cluster "events" true
      (run_requests 900 (first_request ∷ []) new_client []).0).0
    ≡ some reused_view
unfolding register_bulk_view run_requests lookup insert
reused = refl

run_requests-lasts_example :
    (w : View) × (until : ℕ) × Memᴰ w
      (reused_view ∷ (run_requests 900 (first_request ∷ []) new_client []).1)
    × (w.create_snapshot ≡ true)
    × (w.snapshot ≡ reused_view.snapshot)
    × (expires_at w.snapshot w.strategy ≡ some until)
    × (1775000600 + 900 < until)
run_requests-lasts_example =
    run_requests-lasts 900 (first_request ∷ []) later_request reused_view reused

-- without reuse, a second snapshot is taken
abbrev second_view : View
second_view = record {
  table = "events";
  create_snapshot = true;
  snapshot = record { table = "events"; taken_at = 1775000600; number = 1 };
  strategy = on_completion_or_ttl 30;
}

second_made :
    (register_bulk_view 900 (at_moment 1775000600) "events" false after_first).0 ≡ some second_view
unfolding register_bulk_view
second_made = refl

first_known : lookup "events" after_first.last_snapshot ≡ some first
unfolding lookup
first_known = refl
