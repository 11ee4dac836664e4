-- ===== src/Cdc/Honest.antt =====
-- The state that the tail of backend/app/routes/streaming.py shows, over its loop.
use open_htap_stack.Prelude.{
  ℕ, ◌+◌, ◌-◌, ◌∙◌, ◌≡◌, refl, Bool, true, false, Bool-cases, inl, inr, leb, Option, none, some,
  List, [], ◌∷◌, subst, subst₂, sym,
}
use open_htap_stack.Cdc.Record.{Avro, CdcRecord}
use open_htap_stack.Cdc.Tail.{
  Mode, starting, waiting_for_topic, tailing, failed, Fault, Sizes, Tail, Arrival, decode, keep,
  ingest_one, ingest_all, mark_rate, ingest,
}
use open_htap_stack.Cdc.Decoding.{decode-Decoding}
use open_htap_stack.Cdc.Loop.{
  Answer, answers, raises, Log, Turn, attach, attached, attach_if_needed, after_attach, poll_turn,
  after_ingest, report_error, close, run_turn, run, new,
}

-- What the state and the error say of the consumer: `tailing` with no error exactly where one is open,
-- an error with `failed` where none is, and `starting` before the first turn. Never
-- `waiting_for_topic`.
abbrev pub Tells : Option (List (ℕ × ℕ)) → Mode → Option Fault → Type 0
Tells (some assignment) tailing none = Unit {0}
Tells (some assignment) mode fault = ⊥
Tells none failed (some e) = Unit {0}
Tells none starting none = Unit {0}
Tells none mode fault = ⊥

module _ (av : Avro) (sizes : Sizes) where
  -- What a change of the tail leaves alone.
  record Steady (t after : Tail av sizes) : Type 0 where
    consumer : after.consumer ≡ t.consumer
    mode : after.mode ≡ t.mode

  keep-Steady :
      (t after : Tail av sizes) (result : Option CdcRecord)
      → Steady t after
      → Steady t (keep av sizes result after).1
  unfolding keep
  keep-Steady t after none s = record { consumer = s.consumer; mode = s.mode }
  keep-Steady t after (some r) s = record { consumer = s.consumer; mode = s.mode }

  ingest_one-Steady :
      (p : ℕ) (a : Arrival av sizes) (t : Tail av sizes) → Steady t (ingest_one av sizes p a t).1
  unfolding ingest_one
  ingest_one-Steady p a t =
      let d = decode-Decoding av sizes p a (record t { consumed = t.consumed + 1 }) in
      keep-Steady t (decode av sizes p a (record t { consumed = t.consumed + 1 })).1
        (decode av sizes p a (record t { consumed = t.consumed + 1 })).0
        (record { consumer = d.same_consumer; mode = d.same_mode })

  ingest_all-Steady :
      (ms : List (ℕ × Arrival av sizes)) (t : Tail av sizes) → Steady t (ingest_all av sizes ms t).1
  unfolding ingest_all
  ingest_all-Steady [] t = record { consumer = refl; mode = refl }
  ingest_all-Steady ((p, a) ∷ rest) t =
      let one = ingest_one-Steady p a t in
      let more = ingest_all-Steady rest (ingest_one av sizes p a t).1 in
      elim (Bool-cases (ingest_one av sizes p a t).0) [
        | inl e ↦
            rw e (record { consumer = more.consumer ∙ one.consumer; mode = more.mode ∙ one.mode })
        | inr e ↦ rw e one
      ]

  mark_rate-Steady : (now : ℕ) (t : Tail av sizes) → Steady t (mark_rate av sizes now t)
  unfolding mark_rate
  mark_rate-Steady now t = elim (Bool-cases (leb 1000000 (now - t.rate_marker_at))) [
    | inl e ↦ rw e (record { consumer = refl; mode = refl })
    | inr e ↦ rw e (record { consumer = refl; mode = refl })
  ]

  ingest-Steady :
      (ms : List (ℕ × Arrival av sizes)) (now : ℕ) (t : Tail av sizes)
      → Steady t (ingest av sizes ms now t).1
  unfolding ingest
  ingest-Steady [] now t = record { consumer = refl; mode = refl }
  ingest-Steady (m ∷ ms) now t =
      let all = ingest_all-Steady (m ∷ ms) t in
      let marked = mark_rate-Steady now (ingest_all av sizes (m ∷ ms) t).1 in
      elim (Bool-cases (ingest_all av sizes (m ∷ ms) t).0) [
        | inl e ↦
            rw e
              (record { consumer = marked.consumer ∙ all.consumer; mode = marked.mode ∙ all.mode })
        | inr e ↦ rw e all
      ]

  abbrev pub IsHonest : Tail av sizes → Type 0
  IsHonest t = Tells t.consumer t.mode t.fault

  -- A tail with an open consumer, whatever error a turn before has left.
  abbrev Attached : Option (List (ℕ × ℕ)) → Mode → Type 0
  Attached (some assignment) tailing = Unit {0}
  Attached (some assignment) mode = ⊥
  Attached none mode = ⊥

  no_fault_open :
      (consumer : Option (List (ℕ × ℕ))) (mode : Mode)
      → Attached consumer mode
      → Tells consumer mode none
  no_fault_open none mode h = absurd h
  no_fault_open (some c) starting h = absurd h
  no_fault_open (some c) waiting_for_topic h = absurd h
  no_fault_open (some c) tailing h = tt
  no_fault_open (some c) failed h = absurd h

  after_ingest-IsHonest :
      (returned : Bool) (t : Tail av sizes)
      → Attached t.consumer t.mode
      → IsHonest (after_ingest av sizes returned t)
  unfolding after_ingest report_error close
  after_ingest-IsHonest true t h = no_fault_open t.consumer t.mode h
  after_ingest-IsHonest false t h = tt

  poll_turn-IsHonest :
      (polled : Answer (List (ℕ × Arrival av sizes))) (now : ℕ) (t : Tail av sizes)
      → Attached t.consumer t.mode
      → IsHonest (poll_turn av sizes polled now t)
  unfolding poll_turn report_error close
  poll_turn-IsHonest (raises e) now t h = tt
  poll_turn-IsHonest (answers ms) now t h =
      let s = ingest-Steady ms now t in
      after_ingest-IsHonest (ingest av sizes ms now t).0 (ingest av sizes ms now t).1 (
        subst₂ (λ (c : Option (List (ℕ × ℕ))) (m : Mode). Attached c m) (sym s.consumer)
          (sym s.mode) h)

  open_of_told :
      (c : List (ℕ × ℕ)) (mode : Mode) (fault : Option Fault)
      → Tells (some c) mode fault
      → Attached (some c) mode
  open_of_told c starting fault h = absurd h
  open_of_told c waiting_for_topic fault h = absurd h
  open_of_told c tailing fault h = tt
  open_of_told c failed fault h = absurd h

  -- Where `_attach` raises nothing the tail is attached.
  abbrev Attaches : Option Fault × Tail av sizes → Type 0
  Attaches (some e, t) = Unit {0}
  Attaches (none, t) = Attached t.consumer t.mode

  attach-Attaches :
      (topic : Answer (List Log)) (t : Tail av sizes) → Attaches (attach av sizes topic t)
  unfolding attach attached
  attach-Attaches (raises e) t = tt
  attach-Attaches (answers []) t = tt
  attach-Attaches (answers (l ∷ ls)) t = tt

  attach_if_needed-Attaches :
      (topic : Answer (List Log)) (consumer : Option (List (ℕ × ℕ))) (t : Tail av sizes)
      → t.consumer ≡ consumer
      → IsHonest t
      → Attaches (attach_if_needed av sizes topic consumer t)
  unfolding attach_if_needed
  attach_if_needed-Attaches topic none t e h = attach-Attaches topic t
  attach_if_needed-Attaches topic (some c) t e h =
      subst (λ (o : Option (List (ℕ × ℕ))). Attached o t.mode) (sym e)
        (open_of_told c t.mode t.fault
          (subst (λ (o : Option (List (ℕ × ℕ))). Tells o t.mode t.fault) e h))

  after_attach-IsHonest :
      (turn : Turn av sizes) (raised : Option Fault) (t : Tail av sizes)
      → Attaches (raised, t)
      → IsHonest (after_attach av sizes turn raised t)
  unfolding after_attach report_error close
  after_attach-IsHonest turn (some e) t h = tt
  after_attach-IsHonest turn none t h = poll_turn-IsHonest turn.polled turn.now t h

  run_turn-IsHonest :
      (turn : Turn av sizes) (t : Tail av sizes) → IsHonest t → IsHonest (run_turn av sizes turn t)
  unfolding run_turn
  run_turn-IsHonest turn t h =
      after_attach-IsHonest turn (attach_if_needed av sizes turn.topic t.consumer t).0
        (attach_if_needed av sizes turn.topic t.consumer t).1
        (attach_if_needed-Attaches turn.topic t.consumer t refl h)

  run_from-IsHonest :
      (turns : List (Turn av sizes)) (t : Tail av sizes)
      → IsHonest t
      → IsHonest (run av sizes turns t)
  unfolding run
  run_from-IsHonest [] t h = h
  run_from-IsHonest (turn ∷ turns) t h =
      run_from-IsHonest turns (run_turn av sizes turn t) (run_turn-IsHonest turn t h)

  -- After any turns, whatever Kafka answers or fails to, the state tells of the consumer: `tailing`
  -- and no error where one is open, `failed` and an error where none is, `starting` and neither
  -- before the first turn. No other combination is ever left by a turn, so `waiting_for_topic` is never.
  pub run-IsHonest :
      (turns : List (Turn av sizes)) (start : ℕ)
      → IsHonest (run av sizes turns (new av sizes start))
  unfolding new
  run-IsHonest turns start = run_from-IsHonest turns (new av sizes start) tt
