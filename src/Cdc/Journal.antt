-- ===== src/Cdc/Journal.antt =====
-- Everything that the tail of backend/app/routes/streaming.py has decoded, newest first, beside the
-- bounded buffer that it keeps.
use open_htap_stack.Prelude.{
  ℕ, zero, suc, ◌+◌, ◌-◌, ◌≤◌, ◌≡◌, refl, ap, sym, ◌∙◌, Bool, true, false, Bool-cases, inl, inr,
  Option, none, some, List, [], ◌∷◌, if◌then◌else◌, leb, take, arith,
}
use mathlib.Core.List.{reverse}
use open_htap_stack.Cdc.Record.{Avro, CdcRecord}
use open_htap_stack.Cdc.Tail.{
  append_bounded, Sizes, Tail, Arrival, Fault, decode, keep, ingest_one, ingest_all, mark_rate,
  ingest,
}
use open_htap_stack.Cdc.Loop.{
  Answer, answers, raises, Log, Turn, attach, attached, attach_if_needed, after_attach, poll_turn,
  after_ingest, report_error, run_turn, run, new,
}
use open_htap_stack.Cdc.Bounded.{append_bounded-window}
use open_htap_stack.Cdc.Decoding.{count_undecoded, Descends, noted, Decoding, decode-Decoding}

module _ (av : Avro) (sizes : Sizes) where
  abbrev pub counted : Tail av sizes → Tail av sizes
  counted t = record t { consumed = t.consumed + 1 }

  -- The records decoded of the messages of a poll, in front of those before.
  unfoldable pub journal_all :
      List (ℕ × Arrival av sizes) → Tail av sizes → List CdcRecord → List CdcRecord
  journal_all [] t journal = journal
  journal_all ((p, a) ∷ rest) t journal =
      let now = noted (decode av sizes p a (counted t)).0 journal in
      let onward = journal_all rest (ingest_one av sizes p a t).1 now in
      if (ingest_one av sizes p a t).0 then onward else now

  pub journal_poll :
      Answer (List (ℕ × Arrival av sizes)) → Tail av sizes → List CdcRecord → List CdcRecord
  unfolding journal_all
  journal_poll (raises e) t journal = journal
  journal_poll (answers messages) t journal = journal_all messages t journal

  journal_attached : Turn av sizes → Option Fault → Tail av sizes → List CdcRecord → List CdcRecord
  unfolding journal_poll
  journal_attached turn (some e) t journal = journal
  journal_attached turn none t journal = journal_poll turn.polled t journal

  -- The same of a turn of the loop, and of a run.
  pub journal_turn : Turn av sizes → Tail av sizes → List CdcRecord → List CdcRecord
  unfolding journal_attached attach_if_needed
  journal_turn turn t journal =
      let tried = attach_if_needed av sizes turn.topic t.consumer t in
      journal_attached turn tried.0 tried.1 journal

  unfoldable pub journal_run :
      List (Turn av sizes) → Tail av sizes → List CdcRecord → List CdcRecord
  unfolding journal_turn run_turn
  journal_run [] t journal = journal
  journal_run (turn ∷ turns) t journal =
      journal_run turns (run_turn av sizes turn t) (journal_turn turn t journal)

  -- The tail against its journal: the buffer is the newest part of it, its numbers fall from the last
  -- one given, and the counts are true.
  pub record Keeps (t : Tail av sizes) (journal : List CdcRecord) : Type 0 where
    pub window : t.buffer ≡ reverse (take sizes.buffer_size journal)
    pub numbers : Descends (t.seq + 1) journal
    pub counts : t.seq ≡ t.consumed
    pub failures : t.decode_failures ≡ count_undecoded journal

  Descends-weaken : (a b : ℕ) (j : List CdcRecord) → a ≤ b → Descends a j → Descends b j
  Descends-weaken a b [] h d = tt
  Descends-weaken a b (r ∷ rs) h d = (omega arith, d.1)

  keep-Keeps :
      (t after : Tail av sizes) (result : Option CdcRecord) (journal : List CdcRecord)
      → Keeps t journal
      → Decoding av sizes (record (counted t) { seq = t.seq + 1 }) (t.seq + 1) (result, after)
      → Keeps (keep av sizes result after).1 (noted result journal)
  unfolding keep
  keep-Keeps t after none journal k d = record {
    window = d.same_buffer ∙ k.window;
    numbers =
        Descends-weaken (t.seq + 1) (after.seq + 1) journal (omega (arith, d.same_seq)) k.numbers;
    counts = omega (arith, d.same_seq, d.same_consumed, k.counts);
    failures = d.brings ∙ k.failures;
  }
  keep-Keeps t after (some r) journal k d = record {
    window =
        ap (λ (l : List CdcRecord). append_bounded sizes.buffer_size l r) (d.same_buffer ∙ k.window)
        ∙ append_bounded-window sizes.buffer_size journal r;
    numbers = (
      omega (arith, d.same_seq, d.brings.0),
      Descends-weaken (t.seq + 1) r.seq journal (omega (arith, d.brings.0)) k.numbers,
    );
    counts = omega (arith, d.same_seq, d.same_consumed, k.counts);
    failures = omega (arith, d.brings.1, k.failures);
  }

  ingest_one-Keeps :
      (p : ℕ) (a : Arrival av sizes) (t : Tail av sizes) (journal : List CdcRecord)
      → Keeps t journal
      → Keeps (ingest_one av sizes p a t).1 (noted (decode av sizes p a (counted t)).0 journal)
  unfolding ingest_one
  ingest_one-Keeps p a t journal k =
      keep-Keeps t (decode av sizes p a (counted t)).1 (decode av sizes p a (counted t)).0 journal k
        (decode-Decoding av sizes p a (counted t))

  ingest_all-Keeps :
      (ms : List (ℕ × Arrival av sizes)) (t : Tail av sizes) (journal : List CdcRecord)
      → Keeps t journal
      → Keeps (ingest_all av sizes ms t).1 (journal_all ms t journal)
  unfolding ingest_all journal_all
  ingest_all-Keeps [] t journal k = k
  ingest_all-Keeps ((p, a) ∷ rest) t journal k = elim (Bool-cases (ingest_one av sizes p a t).0) [
    | inl e ↦ rw e (
        ingest_all-Keeps rest (ingest_one av sizes p a t).1
          (noted (decode av sizes p a (counted t)).0 journal) (ingest_one-Keeps p a t journal k))
    | inr e ↦ rw e (ingest_one-Keeps p a t journal k)
  ]

  -- A change of the tail beside what the journal tells of.
  carry-Keeps :
      (t after : Tail av sizes) (journal : List CdcRecord)
      → after.buffer ≡ t.buffer
      → after.seq ≡ t.seq
      → after.consumed ≡ t.consumed
      → after.decode_failures ≡ t.decode_failures
      → Keeps t journal
      → Keeps after journal
  carry-Keeps t after journal b s c f k = record {
    window = b ∙ k.window;
    numbers = Descends-weaken (t.seq + 1) (after.seq + 1) journal (omega arith) k.numbers;
    counts = s ∙ k.counts ∙ sym c;
    failures = f ∙ k.failures;
  }

  mark_rate-Keeps :
      (now : ℕ) (t : Tail av sizes) (journal : List CdcRecord)
      → Keeps t journal
      → Keeps (mark_rate av sizes now t) journal
  unfolding mark_rate
  mark_rate-Keeps now t journal k = elim (Bool-cases (leb 1000000 (now - t.rate_marker_at))) [
    | inl e ↦ rw e (carry-Keeps t _ journal refl refl refl refl k)
    | inr e ↦ rw e k
  ]

  ingest-Keeps :
      (ms : List (ℕ × Arrival av sizes)) (now : ℕ) (t : Tail av sizes) (journal : List CdcRecord)
      → Keeps t journal
      → Keeps (ingest av sizes ms now t).1 (journal_all ms t journal)
  unfolding ingest journal_all
  ingest-Keeps [] now t journal k = k
  ingest-Keeps (m ∷ ms) now t journal k =
      let after = ingest_all-Keeps (m ∷ ms) t journal k in
      elim (Bool-cases (ingest_all av sizes (m ∷ ms) t).0) [
        | inl e ↦ rw e (
            mark_rate-Keeps now (ingest_all av sizes (m ∷ ms) t).1 (journal_all (m ∷ ms) t journal)
              after)
        | inr e ↦ rw e after
      ]

  report_error-Keeps :
      (e : Fault) (t : Tail av sizes) (journal : List CdcRecord)
      → Keeps t journal
      → Keeps (report_error av sizes e t) journal
  unfolding report_error
  report_error-Keeps e t journal k = carry-Keeps t _ journal refl refl refl refl k

  after_ingest-Keeps :
      (returned : Bool) (t : Tail av sizes) (journal : List CdcRecord)
      → Keeps t journal
      → Keeps (after_ingest av sizes returned t) journal
  unfolding after_ingest
  after_ingest-Keeps true t journal k = carry-Keeps t _ journal refl refl refl refl k
  after_ingest-Keeps false t journal k = report_error-Keeps _ t journal k

  poll_turn-Keeps :
      (polled : Answer (List (ℕ × Arrival av sizes))) (now : ℕ) (t : Tail av sizes)
      (journal : List CdcRecord)
      → Keeps t journal
      → Keeps (poll_turn av sizes polled now t) (journal_poll polled t journal)
  unfolding poll_turn journal_poll
  poll_turn-Keeps (raises e) now t journal k = report_error-Keeps _ t journal k
  poll_turn-Keeps (answers ms) now t journal k =
      after_ingest-Keeps (ingest av sizes ms now t).0 (ingest av sizes ms now t).1
        (journal_all ms t journal) (ingest-Keeps ms now t journal k)

  attach-Keeps :
      (topic : Answer (List Log)) (consumer : Option (List (ℕ × ℕ))) (t : Tail av sizes)
      (journal : List CdcRecord)
      → Keeps t journal
      → Keeps (attach_if_needed av sizes topic consumer t).1 journal
  unfolding attach_if_needed attach attached
  attach-Keeps topic (some c) t journal k = k
  attach-Keeps (raises e) none t journal k = k
  attach-Keeps (answers []) none t journal k = carry-Keeps t _ journal refl refl refl refl k
  attach-Keeps (answers (l ∷ ls)) none t journal k = carry-Keeps t _ journal refl refl refl refl k

  after_attach-Keeps :
      (turn : Turn av sizes) (raised : Option Fault) (t : Tail av sizes) (journal : List CdcRecord)
      → Keeps t journal
      → Keeps (after_attach av sizes turn raised t) (journal_attached turn raised t journal)
  unfolding after_attach journal_attached
  after_attach-Keeps turn (some e) t journal k = report_error-Keeps e t journal k
  after_attach-Keeps turn none t journal k = poll_turn-Keeps turn.polled turn.now t journal k

  run_turn-Keeps :
      (turn : Turn av sizes) (t : Tail av sizes) (journal : List CdcRecord)
      → Keeps t journal
      → Keeps (run_turn av sizes turn t) (journal_turn turn t journal)
  unfolding run_turn journal_turn
  run_turn-Keeps turn t journal k =
      after_attach-Keeps turn (attach_if_needed av sizes turn.topic t.consumer t).0
        (attach_if_needed av sizes turn.topic t.consumer t).1 journal
        (attach-Keeps turn.topic t.consumer t journal k)

  -- A run keeps it.
  pub run-Keeps :
      (turns : List (Turn av sizes)) (t : Tail av sizes) (journal : List CdcRecord)
      → Keeps t journal
      → Keeps (run av sizes turns t) (journal_run turns t journal)
  unfolding run journal_run
  run-Keeps [] t journal k = k
  run-Keeps (turn ∷ turns) t journal k =
      run-Keeps turns (run_turn av sizes turn t) (journal_turn turn t journal)
        (run_turn-Keeps turn t journal k)

  take_nothing : (n : ℕ) → take {A = CdcRecord} n [] ≡ []
  take_nothing zero = refl
  take_nothing (suc n) = refl

  pub new-Keeps : (now : ℕ) → Keeps (new av sizes now) []
  unfolding new
  new-Keeps now = record {
    window = sym (ap reverse (take_nothing sizes.buffer_size));
    numbers = tt;
    counts = refl;
    failures = refl;
  }
