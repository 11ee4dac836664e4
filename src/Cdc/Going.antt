-- ===== src/Cdc/Going.antt =====
-- A record that cannot be read stops nothing: `_ingest` of backend/app/routes/streaming.py over a poll.
use open_htap_stack.Prelude.{
  ℕ, suc, ◌+◌, ◌≡◌, refl, true, Bool-cases, inl, inr, Option, none, some, List, [], ◌∷◌, length,
  arith,
}
use open_htap_stack.Cdc.Record.{
  Avro, CdcRecord, Read, decoded, unreadable, no_record, or_else, is_framed, envelope_fits,
}
use open_htap_stack.Cdc.Tail.{
  Fetch, fetched, refused, Sizes, Tail, Arrival, decode_failed, decode_fields, decode_read,
  fetch_schema, with_schema, decode_value, decode, keep, ingest_one, ingest_all, ingest,
}
use open_htap_stack.Cdc.Decoding.{noted}
use open_htap_stack.Cdc.Journal.{journal_all, counted}

-- A record whose time stamp is a number and whose updated fields are a list, where they are there.
abbrev pub IsEnvelope : Read → Type 0
IsEnvelope (unreadable e) = Unit {0}
IsEnvelope (decoded e) = envelope_fits e ≡ true
IsEnvelope no_record = ⊥

-- Every schema of the registry is a mutation's, so that what the reader returns is one.
abbrev pub ReadsMutations : Avro → Type 0
ReadsMutations av = (s : av.Schema) (body : List ℕ) → IsEnvelope (av.schemaless_reader s body)

abbrev Some : Option CdcRecord → Type 0
Some none = ⊥
Some (some r) = Unit {0}

module _ (av : Avro) (sizes : Sizes) (reads : ReadsMutations av) where
  decode_read-Some :
      (now : ℕ) (r : CdcRecord) (read : Read) (t : Tail av sizes)
      → IsEnvelope read
      → Some (decode_read av sizes now r read t).0
  unfolding decode_read decode_fields decode_failed
  decode_read-Some now r (unreadable e) t h = tt
  decode_read-Some now r (decoded e) t h = rw h tt
  decode_read-Some now r no_record t h = absurd h

  fetch_schema-Some :
      (id : ℕ) (f : Fetch av.Schema) (body : List ℕ) (now : ℕ) (r : CdcRecord) (t : Tail av sizes)
      → Some (fetch_schema av sizes id f body now r t).0
  unfolding fetch_schema decode_failed
  fetch_schema-Some id (refused e) body now r t = tt
  fetch_schema-Some id (fetched s) body now r t =
      decode_read-Some now r (av.schemaless_reader s body) _ (reads s body)

  with_schema-Some :
      (id : ℕ) (s : Option av.Schema) (a : Arrival av sizes) (body : List ℕ) (r : CdcRecord)
      (t : Tail av sizes)
      → Some (with_schema av sizes id s a body r t).0
  unfolding with_schema
  with_schema-Some id (some s) a body r t =
      decode_read-Some a.now_us r (av.schemaless_reader s body) t (reads s body)
  with_schema-Some id none a body r t = fetch_schema-Some id (a.registry id) body a.now_us r t

  decode-Some : (p : ℕ) (a : Arrival av sizes) (t : Tail av sizes) → Some (decode av sizes p a t).0
  unfolding decode decode_value decode_failed
  decode-Some p a t = elim (Bool-cases (is_framed (or_else a.message.value []))) [
    | inl e ↦ rw e (with_schema-Some _ _ a _ _ _)
    | inr e ↦ rw e tt
  ]

  keep-goes_on :
      (result : Option CdcRecord) (t : Tail av sizes)
      → Some result
      → (keep av sizes result t).0 ≡ true
  unfolding keep
  keep-goes_on none t h = absurd h
  keep-goes_on (some r) t h = refl

  length-noted :
      (result : Option CdcRecord) (journal : List CdcRecord)
      → Some result
      → length (noted result journal) ≡ suc (length journal)
  length-noted none journal h = absurd h
  length-noted (some r) journal h = refl

  ingest_all-goes_on :
      (ms : List (ℕ × Arrival av sizes)) (t : Tail av sizes) (journal : List CdcRecord)
      → ((ingest_all av sizes ms t).0 ≡ true)
        × (length (journal_all av sizes ms t journal) ≡ length ms + length journal)
  unfolding ingest_all journal_all ingest_one
  ingest_all-goes_on [] t journal = (refl, omega arith)
  ingest_all-goes_on ((p, a) ∷ rest) t journal =
      let made = decode-Some p a (counted av sizes t) in
      let on =
        keep-goes_on (decode av sizes p a (counted av sizes t)).0
          (decode av sizes p a (counted av sizes t)).1 made in
      let more =
        ingest_all-goes_on rest (ingest_one av sizes p a t).1
          (noted (decode av sizes p a (counted av sizes t)).0 journal) in
      rw on (
        more.0,
        omega
            (arith, more.1, length-noted (decode av sizes p a (counted av sizes t)).0 journal made),
      )

  -- Where every schema is a mutation's, a record with a number for its time stamp and a list for its
  -- updated fields: of any poll, whatever the bytes of its messages and whatever the registry answers,
  -- each message makes one record, and the ingest returns.
  pub ingest-goes_on :
      (ms : List (ℕ × Arrival av sizes)) (now : ℕ) (t : Tail av sizes) (journal : List CdcRecord)
      → ((ingest av sizes ms now t).0 ≡ true)
        × (length (journal_all av sizes ms t journal) ≡ length ms + length journal)
  unfolding ingest
  ingest-goes_on [] now t journal = ingest_all-goes_on [] t journal
  ingest-goes_on (m ∷ ms) now t journal =
      let all = ingest_all-goes_on (m ∷ ms) t journal in rw all.0 (refl, all.1)
