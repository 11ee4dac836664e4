-- ===== src/Cdc/Loop.antt =====
-- The loop of the tail in backend/app/routes/streaming.py: `_attach`, `run` and `_close`, and what the
-- page reads, `status` and `records`. What Kafka answers is given to each turn.
use open_htap_stack.Prelude.{
  ℕ, zero, suc, ◌-◌, ◌/◌, max, String, Bool, true, false, Option, none, some, List, [], ◌∷◌, map,
  ltb, leb, if◌then◌else◌, length, take, get_elem?,
}
use mathlib.Core.List.{reverse}
use open_htap_stack.Prelude.Int.{ℤ, leb_ℤ}
use open_htap_stack.Cdc.Record.{Avro, CdcRecord}
use open_htap_stack.Cdc.Tail.{
  Mode, starting, waiting_for_topic, tailing, failed, Fault, broker, topic_missing, not_a_mutation,
  Sizes, Tail, Arrival, ingest,
}

-- A partition as Kafka describes it to `_attach`: the offsets of its first record and of its end.
pub record Log : Type 0 where
  pub partition : ℕ
  pub beginning : ℕ
  pub end : ℕ

-- What the broker does when the tail attaches: one of its calls raises, or it lists the topic's
-- partitions, none where there is no topic.
pub data Answer {ℓ} (A : Type ℓ) : Type ℓ where
  answers : A → Answer A
  raises : String → Answer A

module _ (av : Avro) (sizes : Sizes) where
  -- One round of the loop of `run`: what the broker answers to `_attach`, if that is called, and to
  -- the poll, and the clock after the batch.
  pub record Turn : Type 0 where
    pub topic : Answer (List Log)
    pub polled : Answer (List (ℕ × Arrival av sizes))
    pub now : ℕ

  -- `sorted(partitions)`
  unfoldable pub insert_log : Log → List Log → List Log
  insert_log l [] = l ∷ []
  insert_log l (m ∷ ms) = if leb l.partition m.partition then l ∷ m ∷ ms else m ∷ insert_log l ms

  unfoldable pub sort_logs : List Log → List Log
  unfolding insert_log
  sort_logs [] = []
  sort_logs (l ∷ ls) = insert_log l (sort_logs ls)

  -- `max(1, settings.cdc_buffer_size // len(assignment))`, where a topic has a partition.
  unfoldable pub backfill_each : ℕ → ℕ
  backfill_each zero = 1
  backfill_each (suc n) = max 1 (sizes.buffer_size / suc n)

  -- `consumer.seek(tp, max(begins[tp], ends[tp] - backfill_each))`; no offset is below 0.
  unfoldable pub sought : ℕ → Log → ℕ
  sought each l = max l.beginning (l.end - each)

  -- `_attach` where it returns.
  unfoldable pub attached : List Log → Tail av sizes → Tail av sizes
  unfolding backfill_each sought
  attached logs t = record t {
    backfill_until = map (λ l. (l.partition, l.end)) logs;
    consumer = some (map (λ l. (l.partition, sought (backfill_each (length logs)) l)) logs);
    partitions = map (λ l. l.partition) logs;
    mode = tailing;
  }

  -- `_attach`, and the error that it raises.
  unfoldable pub attach : Answer (List Log) → Tail av sizes → Option Fault × Tail av sizes
  unfolding sort_logs attached
  attach (raises e) t = (some (broker e), t)
  attach (answers []) t = (some topic_missing, record t { mode = waiting_for_topic })
  attach (answers (l ∷ ls)) t = (none, attached (sort_logs (l ∷ ls)) t)

  -- `if self._consumer is None`
  unfoldable pub attach_if_needed :
      Answer (List Log) → Option (List (ℕ × ℕ)) → Tail av sizes → Option Fault × Tail av sizes
  unfolding attach
  attach_if_needed topic none t = attach topic t
  attach_if_needed topic (some assignment) t = (none, t)

  -- `_close`; it raises nothing.
  unfoldable pub close : Tail av sizes → Tail av sizes
  close t = record t { consumer = none }

  -- The `except` clause of `run`: the error is told, the consumer closed.
  unfoldable pub report_error : Fault → Tail av sizes → Tail av sizes
  unfolding close
  report_error e t = close (record t { fault = some e; mode = failed })

  -- The end of the `try` of `run`, by whether `_ingest` returned.
  unfoldable pub after_ingest : Bool → Tail av sizes → Tail av sizes
  unfolding report_error
  after_ingest true t = record t { fault = none }
  after_ingest false t = report_error not_a_mutation t

  -- The poll and what follows it.
  unfoldable pub poll_turn :
      Answer (List (ℕ × Arrival av sizes)) → ℕ → Tail av sizes → Tail av sizes
  unfolding ingest after_ingest report_error
  poll_turn (raises e) now t = report_error (broker e) t
  poll_turn (answers messages) now t =
      let (returned, after) = ingest av sizes messages now t in after_ingest returned after

  unfoldable pub after_attach : Turn → Option Fault → Tail av sizes → Tail av sizes
  unfolding poll_turn report_error
  after_attach turn (some e) t = report_error e t
  after_attach turn none t = poll_turn turn.polled turn.now t

  -- One round of the loop of `run`.
  unfoldable pub run_turn : Turn → Tail av sizes → Tail av sizes
  unfolding attach_if_needed after_attach
  run_turn turn t =
      let (raised, after) = attach_if_needed turn.topic t.consumer t in
      after_attach turn raised after

  -- `run`, until it is cancelled.
  unfoldable pub run : List Turn → Tail av sizes → Tail av sizes
  unfolding run_turn
  run [] t = t
  run (turn ∷ turns) t = run turns (run_turn turn t)

  -- `CdcTail.__init__`, at a reading of the clock.
  unfoldable pub new : ℕ → Tail av sizes
  new now = record {
    buffer = [];
    consumer = none;
    partitions = [];
    mode = starting;
    fault = none;
    seq = 0;
    consumed = 0;
    decode_failures = 0;
    schemas = [];
    backfill_until = [];
    latencies = [];
    last_record_at_ms = none;
    rate = (0, 0);
    rate_marker_at = now;
    rate_marker_count = 0;
  }

  -- `[r for r in newest_first if r.seq > since]`
  unfoldable pub seen_after : ℕ → List CdcRecord → List CdcRecord
  seen_after since [] = []
  seen_after since (r ∷ rs) =
      if ltb since r.seq then r ∷ seen_after since rs else seen_after since rs

  unfoldable pub newer : Option ℕ → List CdcRecord → List CdcRecord
  unfolding seen_after
  newer none rs = rs
  newer (some since) rs = seen_after since rs

  -- `records`
  unfoldable pub records : ℕ → Option ℕ → Tail av sizes → List CdcRecord
  unfolding newer
  records limit since t = take limit (newer since (reverse t.buffer))

  -- `sorted(self._latencies)`
  unfoldable pub insert_age : ℤ → List ℤ → List ℤ
  insert_age a [] = a ∷ []
  insert_age a (b ∷ bs) = if leb_ℤ a b then a ∷ b ∷ bs else b ∷ insert_age a bs

  unfoldable pub sort_ages : List ℤ → List ℤ
  unfolding insert_age
  sort_ages [] = []
  sort_ages (a ∷ as') = insert_age a (sort_ages as')

  unfoldable pub last_age : List ℤ → Option ℤ
  last_age [] = none
  last_age (a ∷ []) = some a
  last_age (a ∷ b ∷ bs) = last_age (b ∷ bs)

  -- The figures of `status` that are computed; the others are fields of the tail.
  pub record Status : Type 0 where
    pub mode : Mode
    pub fault : Option Fault
    pub partitions : List ℕ
    pub buffer_size : ℕ
    pub buffered : ℕ
    pub consumed : ℕ
    pub decode_failures : ℕ
    pub rate : ℕ × ℕ
    pub latency_p50 : Option ℤ
    pub latency_max : Option ℤ
    pub last_record_at_ms : Option ℕ

  -- `status`, its latencies not rounded.
  unfoldable pub status : Tail av sizes → Status
  unfolding sort_ages last_age
  status t =
      let live = sort_ages t.latencies in
      record {
        mode = t.mode;
        fault = t.fault;
        partitions = t.partitions;
        buffer_size = sizes.buffer_size;
        buffered = length t.buffer;
        consumed = t.consumed;
        decode_failures = t.decode_failures;
        rate = t.rate;
        latency_p50 = get_elem? live (length live / 2);
        latency_max = last_age live;
        last_record_at_ms = t.last_record_at_ms;
      }
