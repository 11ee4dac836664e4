-- ===== src/Window/Search.antt =====
-- Which window to ask about: `_holds_events` and `get_window` of backend/app/routes/query.py.
use open_htap_stack.Prelude.{
  ℕ, zero, suc, ◌+◌, ◌-◌, ◌*◌, max, Bool, true, false, Option, none, some, if◌then◌else◌,
}
use open_htap_stack.Window.Bucket.{bucket_start}
use open_htap_stack.Window.Settled.{Kafka, Detail, sink_consumed_past, target_of}

abbrev pub window_lookback : ℕ
window_lookback = 8

-- What Cassandra answers of a bucket: whether it has a row, or `none` for a read that raised.
abbrev pub Reads : Type 0
Reads = ℕ → Option Bool

-- `_holds_events`: a bucket that cannot be read counts as empty.
unfoldable pub holds_events : Reads → ℕ → Bool
holds_events reads bucket = elim (reads bucket) [ none ↦ false | some found ↦ found ]

-- `_bucket_start(now - timedelta(minutes=minutes * step))`
unfoldable pub candidate : ℕ → ℕ → ℕ → ℕ
unfolding bucket_start
candidate minutes now step = bucket_start minutes (now - minutes * step * 60)

-- The loop of `get_window` over `left` steps from `step` on: the first candidate with events.
unfoldable pub newest_closed : Reads → ℕ → ℕ → ℕ → ℕ → Option ℕ
newest_closed reads minutes now step zero = none
newest_closed reads minutes now step (suc left) =
    let rest = newest_closed reads minutes now (suc step) left in
    if holds_events reads (candidate minutes now step)
    then some (candidate minutes now step)
    else rest

-- The answer of the route. A bucket is its start; `none` for the detail is "the window is still
-- filling".
pub record Answer : Type 0 where
  pub bucket_minutes : ℕ
  pub shards : ℕ
  pub current : ℕ
  pub bucket : ℕ
  pub closed : Bool
  pub settled : Bool
  pub settled_detail : Option Detail

unfoldable pub answer_for : ℕ → ℕ → ℕ → (ℕ → Kafka) → Option ℕ → Answer
unfolding sink_consumed_past
answer_for minutes shards current ask none = record {
  bucket_minutes = minutes;
  shards = shards;
  current = current;
  bucket = current;
  closed = false;
  settled = false;
  settled_detail = none;
}
answer_for minutes shards current ask (some start) =
    let (settled, detail) = sink_consumed_past (ask (target_of (start + minutes * 60))) in
    record {
      bucket_minutes = minutes;
      shards = shards;
      current = current;
      bucket = start;
      closed = true;
      settled = settled;
      settled_detail = some detail;
    }

-- `get_window` at the moment `now`; `ask` is what Kafka answers about a target.
unfoldable pub get_window : ℕ → ℕ → Reads → (ℕ → Kafka) → ℕ → Answer
unfolding newest_closed holds_events candidate answer_for
get_window bucket_minutes shards reads ask now =
    let minutes = max 1 bucket_minutes in
    answer_for minutes shards (bucket_start bucket_minutes now) ask
      (newest_closed reads minutes now 1 window_lookback)
