-- ===== src/Sink/Failure.antt =====
-- A batch of the sink that the cluster does not acknowledge in full.
use open_htap_stack.Prelude.{
  ℕ, ◌+◌, ◌*◌, ◌≤◌, ◌≡◌, refl, ap, ◌∙◌, String, Bool, true, false, Option, List, [], ◌∷◌, ◌++◌,
  length, length-append, inl, inr, arith, Bool-cases,
}
use open_htap_stack.Geometry.Floats.{Floats}
use open_htap_stack.Sink.Rows.{Settings, Event, Write, Derivations, write_event}
use open_htap_stack.Sink.Batch.{
  Message, Consumer, Turn, Sink, write_batch, all_accepted, kept, fail_batch, commit_batch,
  handle_records, run_turn, run_turns,
}
use open_htap_stack.Sink.Delivery.{IsDocumented}

-- The sum of the amounts counted.
abbrev pub counted : List (ℕ × ℕ) → ℕ
counted [] = 0
counted ((bucket, amount) ∷ rest) = amount + counted rest

module _ (fl : Floats) (metres : fl.Float → String) (cfg : Settings)
    (kafka : Consumer (Event fl metres cfg)) where
  -- The writes of the batch that a turn polls.
  abbrev pub batch_of :
      Turn fl metres cfg kafka → Sink fl metres cfg kafka → List (Write fl metres cfg)
  batch_of t s = (write_batch fl metres cfg kafka t (kafka.poll s.consumer).0 s.derivations).0

  -- Whether the cluster acknowledges all of them.
  abbrev pub succeeds : Turn fl metres cfg kafka → Sink fl metres cfg kafka → Bool
  succeeds t s = all_accepted fl metres cfg kafka t.accepts (batch_of t s)

  abbrev pub is_empty : List (Message (Event fl metres cfg)) → Bool
  is_empty [] = true
  is_empty (m ∷ ms) = false

  failed_records :
      (t : Turn fl metres cfg kafka) (ms : List (Message (Event fl metres cfg)))
      (polled : kafka.State) (s : Sink fl metres cfg kafka)
      → all_accepted fl metres cfg kafka t.accepts
          (write_batch fl metres cfg kafka t ms s.derivations).0
        ≡ false
      → handle_records fl metres cfg kafka t ms polled s
        ≡ fail_batch fl metres cfg kafka t polled
            (write_batch fl metres cfg kafka t ms s.derivations).0
            (write_batch fl metres cfg kafka t ms s.derivations).2
            s
  unfolding handle_records
  failed_records t [] polled s h = absurd (ground (arith, h))
  failed_records t (m ∷ ms) polled s h = rw h refl

  committed_records :
      (t : Turn fl metres cfg kafka) (ms : List (Message (Event fl metres cfg)))
      (polled : kafka.State) (s : Sink fl metres cfg kafka)
      → is_empty ms ≡ false
      → all_accepted fl metres cfg kafka t.accepts
          (write_batch fl metres cfg kafka t ms s.derivations).0
        ≡ true
      → handle_records fl metres cfg kafka t ms polled s
        ≡ commit_batch fl metres cfg kafka t polled
            (write_batch fl metres cfg kafka t ms s.derivations).0
            (write_batch fl metres cfg kafka t ms s.derivations).1
            (write_batch fl metres cfg kafka t ms s.derivations).2
            s
  unfolding handle_records
  committed_records t [] polled s e h = absurd (ground (arith, e))
  committed_records t (m ∷ ms) polled s e h = rw h refl

  length-write_event :
      (t : Turn fl metres cfg kafka) (m : Message (Event fl metres cfg))
      (d : Derivations fl metres cfg)
      → length (write_event fl metres cfg t.clock t.zones (t.now_utc m) m.value d).0 ≡ 3
  unfolding write_event
  length-write_event t m d = omega arith

  length-write_batch :
      (t : Turn fl metres cfg kafka) (ms : List (Message (Event fl metres cfg)))
      (d : Derivations fl metres cfg)
      → length (write_batch fl metres cfg kafka t ms d).0
        ≡ 3 * (write_batch fl metres cfg kafka t ms d).1
  unfolding write_batch
  length-write_batch t [] d = omega arith
  length-write_batch t (m ∷ ms) d =
      let (writes, after) = write_event fl metres cfg t.clock t.zones (t.now_utc m) m.value d in
      omega (
        arith,
        length-append writes (write_batch fl metres cfg kafka t ms after).0,
        length-write_event t m d,
        length-write_batch t ms after,
      )

  -- The counts issued add up to the total, and the three writes of every event counted are stored.
  abbrev pub IsCounted : Sink fl metres cfg kafka → Type 0
  IsCounted s = (counted s.counts ≡ s.total_inserted) × (3 * s.total_inserted ≤ length s.stored)

  handle_records-IsCounted :
      (t : Turn fl metres cfg kafka) (ms : List (Message (Event fl metres cfg)))
      (polled : kafka.State) (s : Sink fl metres cfg kafka)
      → IsCounted s
      → IsCounted (handle_records fl metres cfg kafka t ms polled s)
  unfolding handle_records commit_batch fail_batch
  handle_records-IsCounted t [] polled s h = h
  handle_records-IsCounted t (m ∷ ms) polled s (sum, enough) =
      let (pending, buffered, last) = write_batch fl metres cfg kafka t (m ∷ ms) s.derivations in
      elim (Bool-cases (all_accepted fl metres cfg kafka t.accepts pending)) [
        | inl all ↦ rw all (
          omega (arith, sum),
          omega (
            arith,
            enough,
            length-append s.stored pending,
            length-write_batch t (m ∷ ms) s.derivations,
          ),
        )
        | inr some_lost ↦ rw some_lost (
          sum,
          omega (arith, enough, length-append s.stored (kept fl metres cfg kafka t pending)),
        )
      ]

  -- Over any run, whichever batches fail, it stays so that the counts issued add up to the total
  -- inserted, and that the writes stored are at least three for every event of that total.
  pub run_turns-IsCounted :
      (ts : List (Turn fl metres cfg kafka)) (s : Sink fl metres cfg kafka)
      → (counted s.counts ≡ s.total_inserted) × (3 * s.total_inserted ≤ length s.stored)
      → (counted (run_turns fl metres cfg kafka ts s).counts
          ≡ (run_turns fl metres cfg kafka ts s).total_inserted)
        × (3 * (run_turns fl metres cfg kafka ts s).total_inserted
            ≤ length (run_turns fl metres cfg kafka ts s).stored)
  unfolding run_turns run_turn
  run_turns-IsCounted [] s h = h
  run_turns-IsCounted (t ∷ ts) s h =
      run_turns-IsCounted ts (run_turn fl metres cfg kafka t s)
        (handle_records-IsCounted t (kafka.poll s.consumer).0 (kafka.poll s.consumer).1 s h)

  module _ (topic : ℕ → ℕ → Option (Event fl metres cfg)) (doc : IsDocumented kafka topic) where
    -- Where Kafka does as documented, a batch that is not acknowledged in full commits nothing and
    -- counts nothing, and the consumer stands behind the batch afterwards, not at its start.
    pub failed_batch-commits_nothing :
        (t : Turn fl metres cfg kafka) (s : Sink fl metres cfg kafka)
        → succeeds t s ≡ false
        → ((q : ℕ)
            → (kafka.committed (run_turn fl metres cfg kafka t s).consumer q
                ≡ kafka.committed s.consumer q)
              × (kafka.position (run_turn fl metres cfg kafka t s).consumer q
                  ≡ kafka.position (kafka.poll s.consumer).1 q))
          × ((run_turn fl metres cfg kafka t s).total_inserted ≡ s.total_inserted)
          × ((run_turn fl metres cfg kafka t s).counts ≡ s.counts)
    unfolding run_turn fail_batch
    failed_batch-commits_nothing t s failed =
        let e = failed_records t (kafka.poll s.consumer).0 (kafka.poll s.consumer).1 s failed in
        (
          (λ q. (
            ap (λ x. kafka.committed x.consumer q) e ∙ doc.poll_keeps s.consumer q,
            ap (λ x. kafka.position x.consumer q) e,
          )),
          ap (λ x. x.total_inserted) e,
          ap (λ x. x.counts) e,
        )

    -- Where Kafka does as documented: after a batch that is not acknowledged in full, where the next one
    -- is not empty and is acknowledged, the offsets committed are past the failed batch, of which the
    -- cluster holds the writes that were acknowledged and those that it applied without an
    -- acknowledgement, and no others.
    pub failed_batch-passed :
        (t next : Turn fl metres cfg kafka) (s : Sink fl metres cfg kafka)
        → succeeds t s ≡ false
        → is_empty (kafka.poll (run_turn fl metres cfg kafka t s).consumer).0 ≡ false
        → succeeds next (run_turn fl metres cfg kafka t s) ≡ true
        → (let s' = run_turn fl metres cfg kafka t s in
            ((q : ℕ)
              → kafka.position (kafka.poll s.consumer).1 q
                ≤ kafka.committed (run_turn fl metres cfg kafka next s').consumer q)
            × ((run_turn fl metres cfg kafka next s').stored
                ≡ (s.stored ++ kept fl metres cfg kafka t (batch_of t s)) ++ batch_of next s'))
    unfolding run_turn fail_batch commit_batch
    failed_batch-passed t next s failed more ok =
        let s' = run_turn fl metres cfg kafka t s in
        let e = failed_records t (kafka.poll s.consumer).0 (kafka.poll s.consumer).1 s failed in
        let e' =
          committed_records next (kafka.poll s'.consumer).0 (kafka.poll s'.consumer).1 s' more ok in
        (
          (λ q. omega (
            arith,
            ap (λ x. kafka.position x.consumer q) e,
            ap (λ x. kafka.committed x.consumer q) e',
            doc.commit_commits (kafka.poll s'.consumer).1 q,
            doc.poll_advances s'.consumer q,
          )),
          ap (λ x. x.stored) e' ∙ ap (λ x. x.stored ++ batch_of next s') e,
        )
