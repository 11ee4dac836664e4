-- ===== src/Window/Claims.antt =====
-- What `get_window` claims is so.
use native.Mathlib.Decide.{dec_le}
use open_htap_stack.Prelude.{
  ℕ, zero, suc, ◌+◌, ◌-◌, ◌*◌, ◌≤◌, ◌<◌, ◌≡◌, ◌≢◌, refl, inl, inr, max, true, false, Option, none,
  some, Bool-cases, arith,
}
use open_htap_stack.Window.Bucket.{bucket_start, bucket_start_bounds}
use open_htap_stack.Window.Settled.{Kafka, sink_consumed_past, target_of}
use open_htap_stack.Window.Search.{
  window_lookback, Reads, holds_events, candidate, newest_closed, Answer, answer_for, get_window,
}

-- Which candidate the search gives: one of its steps, with events, and none of the steps before it
-- has any.
pub record IsNewest (reads : Reads) (minutes now step left start : ℕ) : Type 0 where
  pub at_step : ℕ
  pub from : step ≤ at_step
  pub below : at_step < step + left
  pub starts : candidate minutes now at_step ≡ start
  pub holds : holds_events reads start ≡ true
  pub first :
      (j : ℕ) → step ≤ j → j < at_step → holds_events reads (candidate minutes now j) ≡ false

newest_closed-IsNewest :
    (reads : Reads) (minutes now step left start : ℕ)
    → newest_closed reads minutes now step left ≡ some start
    → IsNewest reads minutes now step left start
unfolding newest_closed
newest_closed-IsNewest reads minutes now step zero start h = absurd (ground arith)
newest_closed-IsNewest reads minutes now step (suc left) start h =
    elim (Bool-cases (holds_events reads (candidate minutes now step))) [
      | inl e ↦
          let same : candidate minutes now step ≡ start = ground (arith, e) in
          record {
            at_step = step;
            from = omega arith;
            below = omega arith;
            starts = same;
            holds = rw (← same) e;
            first = λ j le lt. absurd (omega arith);
          }
      | inr e ↦
          let v = newest_closed-IsNewest reads minutes now (suc step) left start (rw e at h) in
          record {
            at_step = v.at_step;
            from = omega (arith, v.from);
            below = omega (arith, v.below);
            starts = v.starts;
            holds = v.holds;
            first = λ j le lt. elim (dec_le (suc step) j) [
              | yes p ↦ v.first j p lt
              | no p ↦ let same : j ≡ step = omega arith in rw same e
            ];
          }
    ]

newest_closed-none :
    (reads : Reads) (minutes now step left : ℕ)
    → newest_closed reads minutes now step left ≡ none
    → (j : ℕ) → step ≤ j
    → j < step + left
    → holds_events reads (candidate minutes now j) ≡ false
unfolding newest_closed
newest_closed-none reads minutes now step zero h j le lt = absurd (omega arith)
newest_closed-none reads minutes now step (suc left) h j le lt =
    elim (Bool-cases (holds_events reads (candidate minutes now step))) [
      | inl e ↦ absurd (ground (arith, e))
      | inr e ↦ elim (dec_le (suc step) j) [
        | yes p ↦ newest_closed-none reads minutes now (suc step) left (rw e at h) j p (omega arith)
        | no p ↦ let same : j ≡ step = omega arith in rw same e
      ]
    ]

-- a candidate's minutes are over
candidate_over :
    (minutes now step : ℕ)
    → 0 < minutes
    → 0 < step
    → minutes * step * 60 ≤ now
    → candidate minutes now step + minutes * 60 ≤ now
unfolding candidate
candidate_over minutes now step m s h =
    let (before, _, _) = bucket_start_bounds minutes (now - minutes * step * 60) in
    let long : minutes * 60 ≤ minutes * step * 60 = grind arith in omega (arith, before, long)

read_as_held : (reads : Reads) (b : ℕ) → holds_events reads b ≡ true → reads b ≡ some true
unfolding holds_events
read_as_held reads b h = ground arith

read_otherwise : (reads : Reads) (b : ℕ) → holds_events reads b ≡ false → reads b ≢ some true
unfolding holds_events
read_otherwise reads b h = λ e. ground arith

-- What the route claims of the window that it names.
pub record IsTrue (reads : Reads) (ask : ℕ → Kafka) (now : ℕ) (a : Answer) : Type 0 where
  -- a window called closed is over, and was read as having events
  pub over : a.closed ≡ true → a.bucket + a.bucket_minutes * 60 ≤ now
  pub events : a.closed ≡ true → reads a.bucket ≡ some true
  -- the window still filling is named only where none of those looked at was read as having events
  pub filling :
      a.closed ≡ false
      → (a.bucket ≡ a.current)
        × ((j : ℕ)
            → 0 < j
            → j ≤ window_lookback
            → reads (candidate a.bucket_minutes now j) ≢ some true)
  -- settled is what Kafka's answers about the window's end give, and only of a closed one
  pub written :
      a.settled ≡ true
      → (a.closed ≡ true)
        × ((sink_consumed_past (ask (target_of (a.bucket + a.bucket_minutes * 60)))).0 ≡ true)

answer-IsTrue :
    (minutes shards current : ℕ) (reads : Reads) (ask : ℕ → Kafka) (now : ℕ) (o : Option ℕ)
    → newest_closed reads minutes now 1 window_lookback ≡ o
    → 0 < minutes
    → minutes * window_lookback * 60 ≤ now
    → IsTrue reads ask now (answer_for minutes shards current ask o)
unfolding answer_for
answer-IsTrue minutes shards current reads ask now none e m late = record {
  over = λ h. absurd (ground arith);
  events = λ h. absurd (ground arith);
  filling = λ h. (
    refl,
    λ j p le.
        read_otherwise reads (candidate minutes now j)
          (newest_closed-none reads minutes now 1 window_lookback e j (omega arith) (omega arith)),
  );
  written = λ h. absurd (ground arith);
}
answer-IsTrue minutes shards current reads ask now (some start) e m late =
    let v = newest_closed-IsNewest reads minutes now 1 window_lookback start e in
    record {
      over = λ h.
          rw (← v.starts) (
            candidate_over minutes now v.at_step m (omega (arith, v.from))
              (grind (arith, v.below)));
      events = λ h. read_as_held reads start v.holds;
      filling = λ h. absurd (ground arith);
      written = λ h. (refl, h);
    }

-- At a moment that lies a whole search after the epoch, the answer of the route is true: of the
-- window that it names as closed the minutes are over and it was read as having events, it names the
-- one now filling only if of the eight before it none was read as having any, where a read that raised
-- tells of none, and it calls settled only a closed window that the sink has read past.
pub get_window-IsTrue :
    (bucket_minutes shards : ℕ) (reads : Reads) (ask : ℕ → Kafka) (now : ℕ)
    → max 1 bucket_minutes * window_lookback * 60 ≤ now
    → IsTrue reads ask now (get_window bucket_minutes shards reads ask now)
unfolding get_window answer_for
get_window-IsTrue bucket_minutes shards reads ask now late =
    let minutes = max 1 bucket_minutes in
    answer-IsTrue minutes shards (bucket_start bucket_minutes now) reads ask now
      (newest_closed reads minutes now 1 window_lookback) refl (omega arith) late
