-- ===== src/Sink/Batch.antt =====
-- The loop of `main` in ingress/consumer/consumer.py, one turn at a time: poll, write, commit.
-- The Kafka consumer and what the cluster answers are parameters.
use open_htap_stack.Prelude.{
  none, ℕ, suc, ◌+◌, ◌-◌, ◌/◌, String, Bool, true, ◌&&◌, ◌||◌, List, [], ◌∷◌, ◌++◌, leb,
  if◌then◌else◌,
}
use open_htap_stack.Geometry.Floats.{Floats}
use open_htap_stack.Window.Bucket.{thirty_min_bucket}
use open_htap_stack.Sink.Alerts.{Zone}
use open_htap_stack.Sink.Rows.{Settings, Event, Write, Derivations, write_event}

-- A record of the topic.
pub record Message (E : Type 0) : Type 0 where
  pub partition : ℕ
  pub offset : ℕ
  pub value : E

-- The calls of a `KafkaConsumer`, with the offset that each partition is read at and the one
-- committed for it.
pub record Consumer (E : Type 0) : Type 1 where
  pub State : Type 0
  pub poll : State → List (Message E) × State
  pub commit : State → State
  -- a new consumer of the group, after the process that had this one has ended
  pub rejoin : State → State
  pub position : State → ℕ → ℕ
  pub committed : State → ℕ → ℕ

module _ (fl : Floats) (metres : fl.Float → String) (cfg : Settings)
    (kafka : Consumer (Event fl metres cfg)) where
  -- What one turn of the loop meets: the zones loaded, the readings of the clocks (at each message, at
  -- the count, and before and after the report), which writes are acknowledged, and which of the others
  -- the cluster applies all the same, as one that timed out may have been.
  pub record Turn : Type 0 where
    pub clock : ℕ → ℕ
    pub zones : List (Zone fl metres)
    pub now_utc : Message (Event fl metres cfg) → ℕ
    pub counted_at : ℕ
    pub elapsed_at : ℕ
    pub reported_at : ℕ
    pub accepts : Write fl metres cfg → Bool
    pub unheard : Write fl metres cfg → Bool

  -- The loop's variables, the consumer, the writes that the cluster holds (newest batch last) and the
  -- counts issued, each with its bucket.
  pub record Sink : Type 0 where
    pub consumer : kafka.State
    pub derivations : Derivations fl metres cfg
    pub stored : List (Write fl metres cfg)
    pub counts : List (ℕ × ℕ)
    pub total_inserted : ℕ
    pub window_inserted : ℕ
    pub last_report : ℕ

  -- The loop over the messages: the writes issued, how many events were buffered, and what the loop
  -- carries on.
  unfoldable pub write_batch :
      Turn
      → List (Message (Event fl metres cfg))
      → Derivations fl metres cfg
      → List (Write fl metres cfg) × ℕ × Derivations fl metres cfg
  write_batch t [] d = ([], 0, d)
  write_batch t (m ∷ ms) d =
      let (writes, after) = write_event fl metres cfg t.clock t.zones (t.now_utc m) m.value d in
      let (pending, buffered, last) = write_batch t ms after in
      (writes ++ pending, suc buffered, last)

  -- `future.result()` of every write in turn raises for none of them.
  unfoldable pub all_accepted : (Write fl metres cfg → Bool) → List (Write fl metres cfg) → Bool
  all_accepted accepts [] = true
  all_accepted accepts (w ∷ ws) = accepts w && all_accepted accepts ws

  -- All writes are in flight at once, so one that fails keeps none of the others from the cluster.
  unfoldable pub kept : Turn → List (Write fl metres cfg) → List (Write fl metres cfg)
  kept t [] = []
  kept t (w ∷ ws) = if t.accepts w || t.unheard w then w ∷ kept t ws else kept t ws

  -- A batch whose writes are not all acknowledged: the loop goes on at its top.
  unfoldable pub fail_batch :
      Turn → kafka.State → List (Write fl metres cfg) → Derivations fl metres cfg → Sink → Sink
  unfolding kept
  fail_batch t polled pending last s = record {
    consumer = polled;
    derivations = last;
    stored = s.stored ++ kept t pending;
    counts = s.counts;
    total_inserted = s.total_inserted;
    window_inserted = s.window_inserted;
    last_report = s.last_report;
  }

  -- Whether the turn prints its report, which starts a new window.
  unfoldable pub reports : Turn → Sink → Bool
  reports t s = leb cfg.report_every_us (t.elapsed_at - s.last_report)

  -- A batch that is acknowledged: commit, count, report.
  unfoldable pub commit_batch :
      Turn → kafka.State → List (Write fl metres cfg) → ℕ → Derivations fl metres cfg → Sink → Sink
  unfolding reports
  commit_batch t polled pending buffered last s = record {
    consumer = kafka.commit polled;
    derivations = last;
    stored = s.stored ++ pending;
    counts = (thirty_min_bucket (t.counted_at / 1000000), buffered) ∷ s.counts;
    total_inserted = s.total_inserted + buffered;
    window_inserted = if reports t s then 0 else s.window_inserted + buffered;
    last_report = if reports t s then t.reported_at else s.last_report;
  }

  -- The turn, with what the poll gave.
  unfoldable pub handle_records :
      Turn → List (Message (Event fl metres cfg)) → kafka.State → Sink → Sink
  unfolding write_batch all_accepted fail_batch commit_batch
  handle_records t [] polled s = record {
    consumer = polled;
    derivations = s.derivations;
    stored = s.stored;
    counts = s.counts;
    total_inserted = s.total_inserted;
    window_inserted = s.window_inserted;
    last_report = s.last_report;
  }
  handle_records t (m ∷ ms) polled s =
      let (pending, buffered, last) = write_batch t (m ∷ ms) s.derivations in
      if all_accepted t.accepts pending
      then commit_batch t polled pending buffered last s
      else fail_batch t polled pending last s

  unfoldable pub run_turn : Turn → Sink → Sink
  unfolding handle_records
  run_turn t s = let (records, polled) = kafka.poll s.consumer in handle_records t records polled s

  unfoldable pub run_turns : List Turn → Sink → Sink
  unfolding run_turn
  run_turns [] s = s
  run_turns (t ∷ ts) s = run_turns ts (run_turn t s)

  -- What the loop starts with in a new process, the cluster's rows and the counts issued staying.
  unfoldable pub restart : ℕ → Sink → Sink
  restart now s = record {
    consumer = kafka.rejoin s.consumer;
    derivations = record {
      tracker = λ e. none;
      alerts = record { last_alert = λ e z. none; readings = 0; written = [] };
      fresh_ids = s.derivations.fresh_ids;
    };
    stored = s.stored;
    counts = s.counts;
    total_inserted = 0;
    window_inserted = 0;
    last_report = now;
  }

  -- A turn of the loop, and one in or after which the process ends and a new one takes its place.
  pub data Step : Type 0 where
    steady : Turn → Step
    broken : Turn → ℕ → Step

  unfoldable pub run_step : Step → Sink → Sink
  unfolding run_turn restart
  run_step (steady t) s = run_turn t s
  run_step (broken t now) s = restart now (run_turn t s)

  unfoldable pub run_steps : List Step → Sink → Sink
  unfolding run_step
  run_steps [] s = s
  run_steps (x ∷ xs) s = run_steps xs (run_step x s)
