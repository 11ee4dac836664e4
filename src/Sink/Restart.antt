-- ===== src/Sink/Restart.antt =====
-- The sink's loop over process restarts.
use open_htap_stack.Prelude.{
  ℕ, ◌≤◌, ◌<◌, ◌≡◌, String, true, false, Option, some, List, [], ◌∷◌, arith, All, inl, inr,
  Bool-cases,
}
use open_htap_stack.Geometry.Floats.{Floats}
use open_htap_stack.Sink.Rows.{Settings, Event}
use open_htap_stack.Sink.Batch.{
  Message, Consumer, Turn, Sink, Step, steady, broken, write_batch, all_accepted, fail_batch,
  handle_records, run_turn, restart, run_step, run_steps,
}
use open_htap_stack.Sink.Stored.{IsStored, IsStored-left}
use open_htap_stack.Sink.Delivery.{
  IsDocumented, IsAccepting, IsDelivered, accepting_all, handle_records-IsDelivered,
}

module _ (fl : Floats) (metres : fl.Float → String) (cfg : Settings)
    (kafka : Consumer (Event fl metres cfg)) (topic : ℕ → ℕ → Option (Event fl metres cfg))
    (doc : IsDocumented kafka topic) where
  -- A turn after which the process goes on is acknowledged in full.
  abbrev pub IsGuarded : Step fl metres cfg kafka → Type 0
  IsGuarded (steady t) = IsAccepting fl metres cfg kafka t
  IsGuarded (broken t now) = Unit

  restart-IsDelivered :
      (start : ℕ → ℕ) (now : ℕ) (s : Sink fl metres cfg kafka)
      → IsDelivered fl metres cfg kafka topic doc start s
      → IsDelivered fl metres cfg kafka topic doc start (restart fl metres cfg kafka now s)
  unfolding restart
  restart-IsDelivered start now s (stored, behind) = (
    (λ q o e id at h k from upto.
        stored q o e id at h k from
          (omega (arith, upto, behind q, doc.rejoin_resumes s.consumer q))),
    λ q. omega (arith, doc.rejoin_resumes s.consumer q, doc.rejoin_keeps s.consumer q),
  )

  failed-IsDelivered :
      (start : ℕ → ℕ) (now : ℕ) (t : Turn fl metres cfg kafka)
      (ms : List (Message (Event fl metres cfg))) (s : Sink fl metres cfg kafka)
      → all_accepted fl metres cfg kafka t.accepts
          (write_batch fl metres cfg kafka t ms s.derivations).0
        ≡ false
      → IsDelivered fl metres cfg kafka topic doc start s
      → IsDelivered fl metres cfg kafka topic doc start (
          restart fl metres cfg kafka now
            (handle_records fl metres cfg kafka t ms (kafka.poll s.consumer).1 s))
  unfolding restart handle_records fail_batch
  failed-IsDelivered start now t [] s lost d = absurd (ground (arith, lost))
  failed-IsDelivered start now t (m ∷ ms) s lost (stored, behind) =
      let polled = (kafka.poll s.consumer).1 in
      rw lost (
        (λ q o e id at h k from upto. IsStored-left fl metres cfg id s.stored _ (
            stored q o e id at h k from (
              omega (
                arith,
                upto,
                behind q,
                doc.rejoin_resumes polled q,
                doc.poll_keeps s.consumer q,
              )))),
        λ q. omega (arith, doc.rejoin_resumes polled q, doc.rejoin_keeps polled q),
      )

  turn-IsDelivered :
      (start : ℕ → ℕ) (t : Turn fl metres cfg kafka) (s : Sink fl metres cfg kafka)
      → all_accepted fl metres cfg kafka t.accepts
          (write_batch fl metres cfg kafka t (kafka.poll s.consumer).0 s.derivations).0
        ≡ true
      → IsDelivered fl metres cfg kafka topic doc start s
      → IsDelivered fl metres cfg kafka topic doc start (run_turn fl metres cfg kafka t s)
  unfolding run_turn
  turn-IsDelivered start t s whole d =
      handle_records-IsDelivered fl metres cfg kafka topic doc start t (kafka.poll s.consumer).0
        (kafka.poll s.consumer).1 s whole d
        (λ q o e h from upto. doc.poll_returns s.consumer q o e h from upto)
        (λ q. omega (arith, d.1 q, doc.poll_advances s.consumer q, doc.poll_keeps s.consumer q))

  broken-IsDelivered :
      (start : ℕ → ℕ) (now : ℕ) (t : Turn fl metres cfg kafka) (s : Sink fl metres cfg kafka)
      → IsDelivered fl metres cfg kafka topic doc start s
      → IsDelivered fl metres cfg kafka topic doc start
          (restart fl metres cfg kafka now (run_turn fl metres cfg kafka t s))
  unfolding run_turn
  broken-IsDelivered start now t s d =
      elim (Bool-cases (
        all_accepted fl metres cfg kafka t.accepts
          (write_batch fl metres cfg kafka t (kafka.poll s.consumer).0 s.derivations).0)) [
            | inl whole ↦
                restart-IsDelivered start now (run_turn fl metres cfg kafka t s)
                  (turn-IsDelivered start t s whole d)
            | inr lost ↦ failed-IsDelivered start now t (kafka.poll s.consumer).0 s lost d
          ]

  step-IsDelivered :
      (start : ℕ → ℕ) (x : Step fl metres cfg kafka) (s : Sink fl metres cfg kafka)
      → IsGuarded x
      → IsDelivered fl metres cfg kafka topic doc start s
      → IsDelivered fl metres cfg kafka topic doc start (run_step fl metres cfg kafka x s)
  unfolding run_step
  step-IsDelivered start (steady t) s ok d =
      turn-IsDelivered start t s (accepting_all fl metres cfg kafka t.accepts _ ok) d
  step-IsDelivered start (broken t now) s ok d = broken-IsDelivered start now t s d

  steps-IsDelivered :
      (start : ℕ → ℕ) (xs : List (Step fl metres cfg kafka)) (s : Sink fl metres cfg kafka)
      → All IsGuarded xs
      → IsDelivered fl metres cfg kafka topic doc start s
      → IsDelivered fl metres cfg kafka topic doc start (run_steps fl metres cfg kafka xs s)
  unfolding run_steps
  steps-IsDelivered start [] s ok d = d
  steps-IsDelivered start (x ∷ xs) s ok d =
      steps-IsDelivered start xs (run_step fl metres cfg kafka x s) ok.1
        (step-IsDelivered start x s ok.0 d)

  -- Where Kafka does as documented and nothing is committed beyond what was read, over any run with
  -- restarts in which each turn that the cluster does not acknowledge in full is followed by a
  -- restart before the next turn: each record with an event id that lies below the committed offset
  -- of its partition, from where the sink began, has all three of its rows written.
  pub run_steps-delivers :
      (s : Sink fl metres cfg kafka) (xs : List (Step fl metres cfg kafka))
      → ((q : ℕ) → kafka.committed s.consumer q ≤ kafka.position s.consumer q)
      → All IsGuarded xs
      → (q o : ℕ) (e : Event fl metres cfg) (id : String) (at : ℕ) → topic q o ≡ some e
      → e.event_id ≡ some (id, at)
      → kafka.position s.consumer q ≤ o
      → o < kafka.committed (run_steps fl metres cfg kafka xs s).consumer q
      → IsStored fl metres cfg id (run_steps fl metres cfg kafka xs s).stored
  run_steps-delivers s xs behind ok q o e id at h k from upto =
      let (stored, below) =
        steps-IsDelivered (λ p. kafka.position s.consumer p) xs s ok
          ((λ p i f key t a b lo hi. absurd (omega (arith, lo, hi))), behind) in
      stored q o e id at h k from (omega (arith, upto, below q))
