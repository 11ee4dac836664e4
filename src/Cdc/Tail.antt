-- ===== src/Cdc/Tail.antt =====
-- The state of `CdcTail` of backend/app/routes/streaming.py, and what one record does to it: `_decode`,
-- `_schema` and `_ingest`. Times are whole microseconds.
use open_htap_stack.Prelude.{
  ℕ, ◌+◌, ◌-◌, ◌*◌, ◌/◌, String, Bool, true, false, Option, none, some, List, [], ◌∷◌, ◌++◌, ltb,
  leb, ◌==◌, if◌then◌else◌, length, drop,
}
use open_htap_stack.Prelude.Int.{ℤ, sub_ℕ}
use open_htap_stack.Cdc.Values.{no_members}
use open_htap_stack.Cdc.Record.{
  Message, Envelope, Read, unreadable, decoded, no_record, Avro, DecodeError, not_framed, no_schema,
  avro_error, CdcRecord, or_else, typed_or, envelope_fits, text_or, key_parts, columns_of,
  schema_id_of, first_byte, is_framed,
}

-- `deque(maxlen=n).append(x)`: the oldest leaves as the newest arrives.
unfoldable pub append_bounded {ℓ} : {A : Type ℓ} → ℕ → List A → A → List A
append_bounded n xs x = drop (length xs + 1 - n) (xs ++ x ∷ [])

-- `d.get(k)` of a dictionary keyed by numbers.
unfoldable pub find {ℓ} : {A : Type ℓ} → ℕ → List (ℕ × A) → Option A
find k [] = none
find k ((j, v) ∷ m) = if j == k then some v else find k m

-- `self._state`, and what `self._error` tells.
pub data Mode : Type 0 where
  starting waiting_for_topic tailing failed : Mode

pub data Fault : Type 0 where
  broker : String → Fault
  topic_missing : Fault
  -- a value on which `_decode` raises outside its `try`
  not_a_mutation : Fault

-- What the registry answers: a schema, or an error.
pub data Fetch (S : Type 0) : Type 0 where
  fetched : S → Fetch S
  refused : String → Fetch S

pub record Sizes : Type 0 where
  pub buffer_size : ℕ
  pub latency_samples : ℕ

module _ (av : Avro) (sizes : Sizes) where
  pub record Tail : Type 0 where
    pub buffer : List CdcRecord
    -- the partitions that the consumer is assigned, each with the offset it was sought to
    pub consumer : Option (List (ℕ × ℕ))
    pub partitions : List ℕ
    pub mode : Mode
    pub fault : Option Fault
    pub seq : ℕ
    pub consumed : ℕ
    pub decode_failures : ℕ
    pub schemas : List (ℕ × av.Schema)
    pub backfill_until : List (ℕ × ℕ)
    pub latencies : List ℤ
    pub last_record_at_ms : Option ℕ
    -- `_rate`, as a number of records and the microseconds that they took
    pub rate : ℕ × ℕ
    pub rate_marker_at : ℕ
    pub rate_marker_count : ℕ

  -- A message, the registry at that moment, and the clock at the end of its decoding.
  pub record Arrival : Type 0 where
    pub message : Message
    pub registry : ℕ → Fetch av.Schema
    pub now_us : ℕ

  -- The record before its value is read.
  unfoldable pub received : ℕ → Bool → Message → CdcRecord
  unfolding key_parts
  received seq backfill m = record {
    seq = seq;
    partition = m.partition;
    offset = m.offset;
    key = or_else m.key "";
    keyspace = (key_parts (or_else m.key "")).0;
    table = (key_parts (or_else m.key "")).1;
    operation = "";
    mutation_at_ms = 0;
    kafka_at_ms = or_else m.timestamp 0;
    age = none;
    backfill = backfill;
    partial = false;
    columns = no_members;
    update_fields = [];
    schema_id = none;
    decode_error = none;
  }

  -- The record with what the envelope says; its age where it counts.
  unfoldable pub filled : ℕ → CdcRecord → Envelope → CdcRecord
  unfolding text_or columns_of
  filled now_us r e = record r {
    operation = or_else e.operation_type "";
    keyspace = text_or e.source_keyspace r.keyspace;
    table = text_or e.source_table r.table;
    partial = or_else e.is_partial false;
    mutation_at_ms = typed_or e.timestamp_micros 0 / 1000;
    update_fields = typed_or e.update_fields [];
    columns = columns_of e;
    age =
        if typed_or e.timestamp_micros 0 / 1000 == 0
        then none
        else if r.backfill
        then none
        else some (sub_ℕ now_us (typed_or e.timestamp_micros 0 / 1000 * 1000));
  }

  -- `self._latencies.append(age_ms)`, where the record has an age.
  unfoldable pub sampled : Option ℤ → List ℤ → List ℤ
  unfolding append_bounded
  sampled none ages = ages
  sampled (some age) ages = append_bounded sizes.latency_samples ages age

  -- `record.kafka_at_ms or record.mutation_at_ms`
  abbrev moment_of : CdcRecord → ℕ
  moment_of r = if r.kafka_at_ms == 0 then r.mutation_at_ms else r.kafka_at_ms

  -- `_decode` where it raises inside its `try`.
  unfoldable pub decode_failed : CdcRecord → DecodeError → Tail → Option CdcRecord × Tail
  decode_failed r e t = (
    some (record r { decode_error = some e }),
    record t { decode_failures = t.decode_failures + 1 },
  )

  -- `_decode` once it has a record, by whether the envelope's fields are of the types that it needs. Where
  -- they are not it raises, outside its `try`.
  unfoldable pub decode_fields : Bool → ℕ → CdcRecord → Envelope → Tail → Option CdcRecord × Tail
  unfolding filled sampled
  decode_fields false now_us r e t = (none, t)
  decode_fields true now_us r e t =
      let full = filled now_us r e in
      (
        some full,
        record t {
          latencies = sampled full.age t.latencies;
          last_record_at_ms = some (moment_of full);
        },
      )

  -- `_decode` once the Avro reader has answered; no record where the rest of it raises.
  unfoldable pub decode_read : ℕ → CdcRecord → Read → Tail → Option CdcRecord × Tail
  unfolding decode_fields envelope_fits decode_failed
  decode_read now_us r (unreadable e) t = decode_failed r (avro_error e) t
  decode_read now_us r no_record t = (none, t)
  decode_read now_us r (decoded e) t = decode_fields (envelope_fits e) now_us r e t

  -- `_schema`, where the id was not seen before.
  unfoldable pub fetch_schema :
      ℕ → Fetch av.Schema → List ℕ → ℕ → CdcRecord → Tail → Option CdcRecord × Tail
  unfolding decode_read decode_failed
  fetch_schema id (refused e) body now_us r t = decode_failed r (no_schema e) t
  fetch_schema id (fetched s) body now_us r t =
      decode_read now_us r (av.schemaless_reader s body)
        (record t { schemas = t.schemas ++ (id, s) ∷ [] })

  unfoldable pub with_schema :
      ℕ → Option av.Schema → Arrival → List ℕ → CdcRecord → Tail → Option CdcRecord × Tail
  unfolding decode_read fetch_schema
  with_schema id (some s) a body r t = decode_read a.now_us r (av.schemaless_reader s body) t
  with_schema id none a body r t = fetch_schema id (a.registry id) body a.now_us r t

  -- `_decode` from its `try` on.
  unfoldable pub decode_value : Arrival → List ℕ → CdcRecord → Tail → Option CdcRecord × Tail
  unfolding is_framed schema_id_of find with_schema decode_failed
  decode_value a payload r t =
      if is_framed payload
      then with_schema (schema_id_of payload) (find (schema_id_of payload) t.schemas) a
          (drop 5 payload) (record r { schema_id = some (schema_id_of payload) }) t
      else decode_failed r (not_framed (length payload) (first_byte payload)) t

  -- `message.offset < self._backfill_until.get(topic_partition, 0)`
  unfoldable pub is_backfill : ℕ → ℕ → List (ℕ × ℕ) → Bool
  unfolding find
  is_backfill partition offset ends = ltb offset (or_else (find partition ends) 0)

  -- `_decode` of a message that the poll gave for a partition.
  unfoldable pub decode : ℕ → Arrival → Tail → Option CdcRecord × Tail
  unfolding received decode_value is_backfill
  decode partition a t =
      decode_value a (or_else a.message.value [])
        (received (t.seq + 1) (is_backfill partition a.message.offset t.backfill_until) a.message)
        (record t { seq = t.seq + 1 })

  -- `self._buffer.append(...)`, unless the decoding raised.
  unfoldable pub keep : Option CdcRecord → Tail → Bool × Tail
  unfolding append_bounded
  keep none t = (false, t)
  keep (some r) t = (true, record t { buffer = append_bounded sizes.buffer_size t.buffer r })

  -- The body of the loop of `_ingest`; whether it goes on.
  unfoldable pub ingest_one : ℕ → Arrival → Tail → Bool × Tail
  unfolding decode keep
  ingest_one partition a t =
      let (result, after) = decode partition a (record t { consumed = t.consumed + 1 }) in
      keep result after

  -- The two loops of `_ingest`, over the messages with their partitions in the order of the poll.
  unfoldable pub ingest_all : List (ℕ × Arrival) → Tail → Bool × Tail
  unfolding ingest_one
  ingest_all [] t = (true, t)
  ingest_all ((partition, a) ∷ rest) t =
      let (goes_on, after) = ingest_one partition a t in
      let onward = ingest_all rest after in if goes_on then onward else (false, after)

  -- The rate over a second or more, at `now`.
  unfoldable pub mark_rate : ℕ → Tail → Tail
  mark_rate now t =
      if leb 1000000 (now - t.rate_marker_at)
      then record t {
        rate = (t.consumed - t.rate_marker_count, now - t.rate_marker_at);
        rate_marker_at = now;
        rate_marker_count = t.consumed;
      }
      else t

  -- `_ingest`; whether it returned.
  unfoldable pub ingest : List (ℕ × Arrival) → ℕ → Tail → Bool × Tail
  unfolding ingest_all mark_rate
  ingest [] now t = (true, t)
  ingest (m ∷ ms) now t =
      let (returned, after) = ingest_all (m ∷ ms) t in
      if returned then (true, mark_rate now after) else (false, after)
