-- ===== src/Cdc/Follow.antt =====
-- What the page reads of the tail of backend/app/routes/streaming.py over time.
use open_htap_stack.Prelude.{ℕ, ◌≡◌, ap, ◌∙◌, none, List, [], take}
use mathlib.Core.List.{reverse, reverse-reverse}
use open_htap_stack.Cdc.Record.{Avro, CdcRecord}
use open_htap_stack.Cdc.Tail.{Sizes, Tail}
use open_htap_stack.Cdc.Loop.{Turn, run, new, newer, records}
use open_htap_stack.Cdc.Decoding.{count_undecoded}
use open_htap_stack.Cdc.Journal.{Keeps, run-Keeps, new-Keeps, journal_run}

module _ (av : Avro) (sizes : Sizes) where
  newest_first :
      (t : Tail av sizes) (journal : List CdcRecord)
      → Keeps av sizes t journal
      → reverse t.buffer ≡ take sizes.buffer_size journal
  newest_first t journal k = ap reverse k.window ∙ reverse-reverse (take sizes.buffer_size journal)

  -- Over any turns of the loop, its errors included, a request without `since` reads the newest of
  -- all that was decoded: as many records as it asks for, of those that the buffer has room for, newest
  -- first, the ones that could not be read among them.
  pub run-newest :
      (turns : List (Turn av sizes)) (start limit : ℕ)
      → records av sizes limit none (run av sizes turns (new av sizes start))
        ≡ take limit (take sizes.buffer_size (journal_run av sizes turns (new av sizes start) []))
  unfolding records newer
  run-newest turns start limit = ap (take limit) (
      newest_first (run av sizes turns (new av sizes start))
        (journal_run av sizes turns (new av sizes start) [])
        (run-Keeps av sizes turns (new av sizes start) [] (new-Keeps av sizes start)))

  -- The counters tell the truth over any turns: the last number given is the number of messages
  -- consumed, and the failures are the records of all that were decoded that carry an error.
  pub run-counts :
      (turns : List (Turn av sizes)) (start : ℕ)
      → ((run av sizes turns (new av sizes start)).seq
          ≡ (run av sizes turns (new av sizes start)).consumed)
        × ((run av sizes turns (new av sizes start)).decode_failures
            ≡ count_undecoded (journal_run av sizes turns (new av sizes start) []))
  run-counts turns start =
      let k = run-Keeps av sizes turns (new av sizes start) [] (new-Keeps av sizes start) in
      (k.counts, k.failures)
