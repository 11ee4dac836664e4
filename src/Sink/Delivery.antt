-- ===== src/Sink/Delivery.antt =====
-- What a turn of the sink's loop keeps of the records that it has read.
use open_htap_stack.Prelude.{
  ℕ, ◌≤◌, ◌<◌, ◌≡◌, refl, ap, ◌∙◌, String, Bool, true, Option, some, List, [], ◌∷◌, ◌⊎◌, inl, inr,
  ltb, arith, Bool-cases,
}
use open_htap_stack.Geometry.Floats.{Floats}
use open_htap_stack.Sink.Rows.{Settings, Event, Write, Derivations, write_event}
use open_htap_stack.Sink.Batch.{
  Message, Consumer, Turn, Sink, write_batch, all_accepted, commit_batch, handle_records,
}
use open_htap_stack.Sink.Stored.{IsStored, IsStored-left, IsStored-right, write_event-IsStored}

-- Some message of a batch has this value.
abbrev pub Carries : {E : Type 0} → E → List (Message E) → Type 0
Carries e [] = ⊥
Carries e (m ∷ ms) = (m.value ≡ e) ⊎ Carries e ms

-- What Kafka documents, for a topic with the events `at`: a poll returns every record that it moves
-- over and commits nothing, a commit commits what was polled, and a new
-- consumer of the group reads on from what was committed.
pub record IsDocumented {E : Type 0} (k : Consumer E) (at : ℕ → ℕ → Option E) : Type 0 where
  pub poll_returns :
      (s : k.State) (q o : ℕ) (e : E)
      → at q o ≡ some e
      → k.position s q ≤ o
      → o < k.position (k.poll s).1 q
      → Carries e (k.poll s).0
  pub poll_advances : (s : k.State) (q : ℕ) → k.position s q ≤ k.position (k.poll s).1 q
  pub poll_keeps : (s : k.State) (q : ℕ) → k.committed (k.poll s).1 q ≡ k.committed s q
  pub rejoin_resumes : (s : k.State) (q : ℕ) → k.position (k.rejoin s) q ≡ k.committed s q
  pub rejoin_keeps : (s : k.State) (q : ℕ) → k.committed (k.rejoin s) q ≡ k.committed s q
  pub commit_commits : (s : k.State) (q : ℕ) → k.committed (k.commit s) q ≡ k.position s q
  pub commit_stays : (s : k.State) (q : ℕ) → k.position (k.commit s) q ≡ k.position s q

module _ (fl : Floats) (metres : fl.Float → String) (cfg : Settings)
    (kafka : Consumer (Event fl metres cfg)) where
  -- Every write is acknowledged.
  abbrev pub IsAccepting : Turn fl metres cfg kafka → Type 0
  IsAccepting t = (w : Write fl metres cfg) → t.accepts w ≡ true

  pub accepting_all :
      (f : Write fl metres cfg → Bool) (ws : List (Write fl metres cfg))
      → ((w : Write fl metres cfg) → f w ≡ true)
      → all_accepted fl metres cfg kafka f ws ≡ true
  unfolding all_accepted
  accepting_all f [] h = refl
  accepting_all f (w ∷ ws) h = rw (h w) (accepting_all f ws h)

  write_batch-IsStored :
      (t : Turn fl metres cfg kafka) (ms : List (Message (Event fl metres cfg)))
      (d : Derivations fl metres cfg) (e : Event fl metres cfg) (id : String) (at : ℕ)
      → Carries e ms
      → e.event_id ≡ some (id, at)
      → IsStored fl metres cfg id (write_batch fl metres cfg kafka t ms d).0
  unfolding write_batch
  write_batch-IsStored t [] d e id at c h = absurd c
  write_batch-IsStored t (m ∷ ms) d e id at (inl here) h = IsStored-left fl metres cfg id _ _ (
      write_event-IsStored fl metres cfg t.clock t.zones (t.now_utc m) m.value d id at
        (ap (λ (x : Event fl metres cfg). x.event_id) here ∙ h))
  write_batch-IsStored t (m ∷ ms) d e id at (inr later) h = IsStored-right fl metres cfg id _ _ (
      write_batch-IsStored t ms
        (write_event fl metres cfg t.clock t.zones (t.now_utc m) m.value d).1 e id at later h)

  module _ (topic : ℕ → ℕ → Option (Event fl metres cfg)) (doc : IsDocumented kafka topic) where
    -- From the offsets `start`, every event with an id that was read is stored, and no offset is
    -- committed before its record was read.
    abbrev pub IsDelivered : (ℕ → ℕ) → Sink fl metres cfg kafka → Type 0
    IsDelivered start s =
        ((q o : ℕ) (e : Event fl metres cfg) (id : String) (at : ℕ)
          → topic q o ≡ some e
          → e.event_id ≡ some (id, at)
          → start q ≤ o
          → o < kafka.position s.consumer q
          → IsStored fl metres cfg id s.stored)
        × ((q : ℕ) → kafka.committed s.consumer q ≤ kafka.position s.consumer q)

    pub handle_records-IsDelivered :
        (start : ℕ → ℕ) (t : Turn fl metres cfg kafka) (ms : List (Message (Event fl metres cfg)))
        (polled : kafka.State) (s : Sink fl metres cfg kafka)
        → all_accepted fl metres cfg kafka t.accepts
            (write_batch fl metres cfg kafka t ms s.derivations).0
          ≡ true
        → IsDelivered start s
        → ((q o : ℕ) (e : Event fl metres cfg)
            → topic q o ≡ some e
            → kafka.position s.consumer q ≤ o
            → o < kafka.position polled q
            → Carries e ms)
        → ((q : ℕ) → kafka.committed polled q ≤ kafka.position polled q)
        → IsDelivered start (handle_records fl metres cfg kafka t ms polled s)
    unfolding handle_records commit_batch
    handle_records-IsDelivered start t [] polled s ok (stored, behind) returned below = (
      (λ q o e id at h k from upto. elim (Bool-cases (ltb o (kafka.position s.consumer q))) [
        | inl before ↦ stored q o e id at h k from (ground (arith, before))
        | inr after ↦ absurd (returned q o e h (ground (arith, after)) upto)
      ]),
      below,
    )
    handle_records-IsDelivered start t (m ∷ ms) polled s ok (stored, behind) returned below =
        rw ok (
          (λ q o e id at h k from upto. elim (Bool-cases (ltb o (kafka.position s.consumer q))) [
            | inl before ↦
                IsStored-left fl metres cfg id _ _
                  (stored q o e id at h k from (ground (arith, before)))
            | inr after ↦ IsStored-right fl metres cfg id _ _ (
                write_batch-IsStored t (m ∷ ms) s.derivations e id at
                  (returned q o e h (ground (arith, after))
                    (omega (arith, upto, doc.commit_stays polled q)))
                  k)
          ]),
          λ q. omega (arith, doc.commit_commits polled q, doc.commit_stays polled q),
        )
