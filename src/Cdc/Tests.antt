-- ===== src/Cdc/Tests.antt =====
-- Runs of the tail on small inputs, and the theorems at inputs that meet their hypotheses.
use open_htap_stack.Prelude.{
  ℕ, ◌+◌, ◌≤◌, ◌≡◌, refl, true, none, some, List, [], ◌∷◌, map, All, max, length, take, arith,
}
use open_htap_stack.Prelude.Int.{pos}
use open_htap_stack.Cdc.Values.{scalar, whole, no_fields, field_then, b64encode}
use open_htap_stack.Cdc.Record.{
  Avro, Message, Envelope, Read, typed, envelope_fits, decoded, unreadable, CdcRecord, key_parts,
}
use open_htap_stack.Cdc.Tail.{Sizes, Arrival, Fetch, fetched, ingest, failed}
use open_htap_stack.Cdc.Loop.{
  Log, answers, Turn, run, new, records, status, attach, sort_logs, sought,
}
use open_htap_stack.Cdc.Journal.{journal_run, journal_all}
use open_htap_stack.Cdc.Follow.{run-newest}
use open_htap_stack.Cdc.Honest.{IsHonest, run-IsHonest}
use open_htap_stack.Cdc.Attach.{InLog, backlog, each_of, attach-reads_back}
use open_htap_stack.Cdc.Going.{ReadsMutations, ingest-goes_on}
use open_htap_stack.Cdc.Shown.{json_safe-bytes_reversible}

abbrev envelope : Envelope
envelope = record {
  operation_type = some "INSERT";
  source_keyspace = some "drones";
  source_table = none;
  is_partial = none;
  timestamp_micros = typed 5000000;
  update_fields = typed ("speed_mps" ∷ []);
  payload = some (field_then "speed_mps" (scalar (whole (pos 7))) no_fields);
  items = no_fields;
}

-- A reader that fails on an empty body.
abbrev read : List ℕ → Read
read [] = unreadable "EOFError"
read (b ∷ bs) = decoded envelope

abbrev av : Avro
av = record { Schema = ℕ; schemaless_reader = λ s body. read body }

abbrev sizes : Sizes
sizes = record { buffer_size = 2; latency_samples = 200 }

abbrev message : ℕ → List ℕ → Message
message offset value = record {
  partition = 0;
  offset = offset;
  key = some "drones:events:17";
  value = some value;
  timestamp = some 6000;
}

abbrev registry : ℕ → Fetch ℕ
registry id = fetched id

abbrev arrival : ℕ → List ℕ → Arrival av sizes
arrival offset value = record {
  message = message offset value;
  registry = registry;
  now_us = 6000000;
}

abbrev good : List ℕ
good = 0 ∷ 0 ∷ 0 ∷ 0 ∷ 1 ∷ 9 ∷ []

abbrev messages : List (ℕ × Arrival av sizes)
messages =
    (0, arrival 8 good) ∷ (0, arrival 9 (7 ∷ [])) ∷ (0, arrival 10 good) ∷ (0, arrival 11 good) ∷ []

abbrev topic : List Log
topic = record { partition = 0; beginning = 3; end = 10 } ∷ []

-- The topic is missing, then it is there; then the poll fails.
abbrev turns : List (Turn av sizes)
turns =
    record { topic = answers []; polled = answers []; now = 0 }
    ∷ record { topic = answers topic; polled = answers messages; now = 2000000 }
    ∷ []

abbrev seqs : List CdcRecord → List ℕ
seqs rs = map (λ (r : CdcRecord). r.seq) rs

-- Of four messages the buffer of two keeps the last two.
newest_two : seqs (records av sizes 50 none (run av sizes turns (new av sizes 0))) ≡ 4 ∷ 3 ∷ []
unfolding records run new
newest_two = refl

-- The message that is not framed is counted, and the state is `tailing`.
one_failure : (status av sizes (run av sizes turns (new av sizes 0))).decode_failures ≡ 1
unfolding status run new
one_failure = refl

missing_topic : (run av sizes (take 1 turns) (new av sizes 0)).mode ≡ failed
unfolding run new
missing_topic = refl

-- Two of the four lie before the end, so that two ages count.
live_ages : (run av sizes turns (new av sizes 0)).latencies ≡ pos 1000000 ∷ pos 1000000 ∷ []
unfolding run new
live_ages = refl

keyed : key_parts "drones:events:17" ≡ ("drones", "events")
unfolding key_parts
keyed = refl

run-newest_example :
    records av sizes 50 none (run av sizes turns (new av sizes 0))
    ≡ take 50 (take 2 (journal_run av sizes turns (new av sizes 0) []))
run-newest_example = run-newest av sizes turns 0 50

run-IsHonest_example : IsHonest av sizes (run av sizes turns (new av sizes 0))
run-IsHonest_example = run-IsHonest av sizes turns 0

attach-reads_back_example :
    ((attach av sizes (answers topic) (new av sizes 0)).1.consumer
      ≡ some (
          map
            (λ (m : Log). (m.partition, sought av sizes (each_of av sizes topic) m))
            (sort_logs av sizes topic)))
    × All (InLog av sizes (each_of av sizes topic)) (sort_logs av sizes topic)
    × (backlog av sizes (each_of av sizes topic) (sort_logs av sizes topic)
        ≤ max sizes.buffer_size (length topic))
attach-reads_back_example =
    attach-reads_back av sizes (record { partition = 0; beginning = 3; end = 10 }) []
      (new av sizes 0) (omega arith, tt)

reads_mutations : ReadsMutations av
unfolding envelope_fits
reads_mutations s [] = tt
reads_mutations s (b ∷ bs) = refl

ingest-goes_on_example :
    ((ingest av sizes messages 0 (new av sizes 0)).0 ≡ true)
    × (length (journal_all av sizes messages (new av sizes 0) []) ≡ 4 + 0)
ingest-goes_on_example = ingest-goes_on av sizes reads_mutations messages 0 (new av sizes 0) []

abbrev blob : List ℕ
blob = 1 ∷ 255 ∷ 0 ∷ 64 ∷ []

json_safe-bytes_reversible_example : blob ≡ blob
json_safe-bytes_reversible_example =
    json_safe-bytes_reversible blob blob (omega arith) (omega arith) refl

-- `AUE=`
shown_blob : b64encode (1 ∷ 65 ∷ []) ≡ b'A' ∷ b'U' ∷ b'E' ∷ b'=' ∷ []
unfolding b64encode
shown_blob = refl
