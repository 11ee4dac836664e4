-- ===== src/Window/Bucket.antt =====
-- The event buckets: `_bucket_start` of backend/app/routes/query.py, and the writer's
-- `event_bucket` and `_thirty_min_bucket` of ingress/consumer/consumer.py. A moment is its whole
-- seconds since the epoch, in UTC; a bucket's text is its start, to the minute.
use open_htap_stack.Prelude.{ℕ, ◌+◌, ◌*◌, ◌/◌, ◌%◌, ◌≤◌, ◌<◌, ◌≡◌, max, ltb, arith, if◌then◌else◌}

-- The start of the hour, and the minute within it.
abbrev pub hour_start : ℕ → ℕ
hour_start t = t / 3600 * 3600

abbrev pub minute_of : ℕ → ℕ
minute_of t = t / 60 % 60

-- `_bucket_start`
unfoldable pub bucket_start : ℕ → ℕ → ℕ
bucket_start bucket_minutes t =
    let minutes = max 1 bucket_minutes in hour_start t + minute_of t / minutes * minutes * 60

-- `floored` in `event_bucket` of the sink, which divides by the setting as it is.
unfoldable pub event_bucket : ℕ → ℕ → ℕ
event_bucket bucket_minutes t = hour_start t + minute_of t / bucket_minutes * bucket_minutes * 60

-- `_thirty_min_bucket`
unfoldable pub thirty_min_bucket : ℕ → ℕ
thirty_min_bucket t = hour_start t + (if ltb (minute_of t) 30 then 0 else 30) * 60

floor_bounds : (x m : ℕ) → 0 < m → (x / m * m ≤ x) × (x < x / m * m + m)
floor_bounds x m h = (omega arith, omega arith)

minute_bounds :
    (t : ℕ)
    → (hour_start t + minute_of t * 60 ≤ t)
      × (t < hour_start t + minute_of t * 60 + 60)
      × (minute_of t < 60)
minute_bounds t = omega arith

-- The bucket of a moment begins at or before it, within the moment's hour, and less than the
-- bucket's length before it.
pub bucket_start_bounds :
    (bucket_minutes t : ℕ)
    → (bucket_start bucket_minutes t ≤ t)
      × (hour_start t ≤ bucket_start bucket_minutes t)
      × (t < bucket_start bucket_minutes t + max 1 bucket_minutes * 60)
unfolding bucket_start
bucket_start_bounds bucket_minutes t =
    let m = max 1 bucket_minutes in
    let (lo, hi) = floor_bounds (minute_of t) m (omega arith) in
    let (above, below, _) = minute_bounds t in
    (omega (arith, lo, above), omega arith, omega (arith, hi, below))

thirty : (t : ℕ) → thirty_min_bucket t ≡ event_bucket 30 t
unfolding thirty_min_bucket event_bucket
thirty t = ground arith
