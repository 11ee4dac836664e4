-- ===== src/Cdc/Decoding.antt =====
-- What decoding one message changes of the tail of backend/app/routes/streaming.py.
use open_htap_stack.Prelude.{
  ℕ, ◌+◌, ◌<◌, ◌≡◌, refl, inl, inr, Bool-cases, Bool, true, false, Option, none, some, List, [],
  ◌∷◌, ◌++◌, length, drop, arith,
}
use open_htap_stack.Cdc.Record.{
  Avro, Envelope, envelope_fits, CdcRecord, Read, decoded, unreadable, no_record, or_else,
  is_framed, schema_id_of, first_byte, avro_error, not_framed, no_schema, DecodeError,
}
use open_htap_stack.Cdc.Tail.{
  find, fetched, refused, Sizes, Tail, Arrival, received, filled, decode_failed, decode_fields,
  decode_read, fetch_schema, with_schema, decode_value, is_backfill, decode,
}

-- How many of the records could not be decoded.
abbrev pub undecoded : Option DecodeError → ℕ
undecoded none = 0
undecoded (some e) = 1

abbrev pub count_undecoded : List CdcRecord → ℕ
count_undecoded [] = 0
count_undecoded (r ∷ rs) = undecoded r.decode_error + count_undecoded rs

-- The numbers of the records, newest first, fall, from one below the bound on.
abbrev pub Descends : ℕ → List CdcRecord → Type 0
Descends bound [] = Unit {0}
Descends bound (r ∷ rs) = (r.seq < bound) × Descends r.seq rs

abbrev pub noted : Option CdcRecord → List CdcRecord → List CdcRecord
noted none journal = journal
noted (some r) journal = r ∷ journal

-- How many more undecoded records and which number a result brings.
abbrev pub Brings : ℕ → ℕ → ℕ → Option CdcRecord → Type 0
Brings seq before after none = after ≡ before
Brings seq before after (some r) = (r.seq ≡ seq) × (after ≡ undecoded r.decode_error + before)

module _ (av : Avro) (sizes : Sizes) where
  -- What a decoding changes of a tail.
  pub record Decoding (t : Tail av sizes) (seq : ℕ) (p : Option CdcRecord × Tail av sizes)
      : Type 0 where
    pub same_buffer : p.1.buffer ≡ t.buffer
    pub same_seq : p.1.seq ≡ t.seq
    pub same_consumed : p.1.consumed ≡ t.consumed
    pub same_consumer : p.1.consumer ≡ t.consumer
    pub same_mode : p.1.mode ≡ t.mode
    pub brings : Brings seq t.decode_failures p.1.decode_failures p.0

  decode_failed-Decoding :
      (r : CdcRecord) (e : DecodeError) (t : Tail av sizes)
      → Decoding t r.seq (decode_failed av sizes r e t)
  unfolding decode_failed
  decode_failed-Decoding r e t = record {
    same_buffer = refl;
    same_seq = refl;
    same_consumed = refl;
    same_consumer = refl;
    same_mode = refl;
    brings = (refl, omega arith);
  }

  decode_fields-Decoding :
      (ok : Bool) (now : ℕ) (r : CdcRecord) (e : Envelope) (t : Tail av sizes)
      → r.decode_error ≡ none
      → Decoding t r.seq (decode_fields av sizes ok now r e t)
  unfolding decode_fields filled
  decode_fields-Decoding false now r e t h = record {
    same_buffer = refl;
    same_seq = refl;
    same_consumed = refl;
    same_consumer = refl;
    same_mode = refl;
    brings = refl;
  }
  decode_fields-Decoding true now r e t h = record {
    same_buffer = refl;
    same_seq = refl;
    same_consumed = refl;
    same_consumer = refl;
    same_mode = refl;
    brings = (refl, rw h (omega arith));
  }

  decode_read-Decoding :
      (now : ℕ) (r : CdcRecord) (read : Read) (t : Tail av sizes)
      → r.decode_error ≡ none
      → Decoding t r.seq (decode_read av sizes now r read t)
  unfolding decode_read
  decode_read-Decoding now r (unreadable e) t h = decode_failed-Decoding r (avro_error e) t
  decode_read-Decoding now r no_record t h = record {
    same_buffer = refl;
    same_seq = refl;
    same_consumed = refl;
    same_consumer = refl;
    same_mode = refl;
    brings = refl;
  }
  decode_read-Decoding now r (decoded e) t h = decode_fields-Decoding (envelope_fits e) now r e t h

  with_schema-Decoding :
      (id : ℕ) (s : Option av.Schema) (a : Arrival av sizes) (body : List ℕ) (r : CdcRecord)
      (t : Tail av sizes)
      → r.decode_error ≡ none
      → Decoding t r.seq (with_schema av sizes id s a body r t)
  unfolding with_schema fetch_schema
  with_schema-Decoding id (some s) a body r t h =
      decode_read-Decoding a.now_us r (av.schemaless_reader s body) t h
  with_schema-Decoding id none a body r t h =
      elim (a.registry id)
        as (λ f. Decoding t r.seq (fetch_schema av sizes id f body a.now_us r t)) [
          | refused e ↦ decode_failed-Decoding r (no_schema e) t
          | fetched s ↦
              let d =
                decode_read-Decoding a.now_us r (av.schemaless_reader s body)
                  (record t { schemas = t.schemas ++ (id, s) ∷ [] }) h in
              record {
                same_buffer = d.same_buffer;
                same_seq = d.same_seq;
                same_consumed = d.same_consumed;
                same_consumer = d.same_consumer;
                same_mode = d.same_mode;
                brings = d.brings;
              }
        ]

  decode_value-Decoding :
      (a : Arrival av sizes) (payload : List ℕ) (r : CdcRecord) (t : Tail av sizes)
      → r.decode_error ≡ none
      → Decoding t r.seq (decode_value av sizes a payload r t)
  unfolding decode_value
  decode_value-Decoding a payload r t h = elim (Bool-cases (is_framed payload)) [
    | inl e ↦ rw e (
        with_schema-Decoding (schema_id_of payload) (find (schema_id_of payload) t.schemas) a
          (drop 5 payload) (record r { schema_id = some (schema_id_of payload) }) t h)
    | inr e ↦ rw e (decode_failed-Decoding r (not_framed (length payload) (first_byte payload)) t)
  ]

  -- `_decode` numbers its record next, and touches the buffer and the count of messages not at all.
  pub decode-Decoding :
      (p : ℕ) (a : Arrival av sizes) (t : Tail av sizes)
      → Decoding (record t { seq = t.seq + 1 }) (t.seq + 1) (decode av sizes p a t)
  unfolding decode received
  decode-Decoding p a t =
      decode_value-Decoding a (or_else a.message.value [])
        (received av sizes (t.seq + 1) (is_backfill av sizes p a.message.offset t.backfill_until)
          a.message)
        (record t { seq = t.seq + 1 }) refl
