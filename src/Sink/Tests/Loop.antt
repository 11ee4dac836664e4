-- ===== src/Sink/Tests/Loop.antt =====
-- Runs of the sink's loop over a topic of two records, and the theorems at concrete inputs.
use open_htap_stack.Prelude.{
  ℕ, zero, suc, subst, sym, ap, ◌∙◌, ◌≤◌, ◌<◌, ◌≡◌, refl, String, Bool, true, false, Option, none,
  some, List, [], ◌∷◌, ◌++◌, get_elem?, inl, arith,
}
use mathlib.Core.Option.{some-injective}
use open_htap_stack.Geometry.Grid.{grid}
use open_htap_stack.Sink.Cooldown.{new_generator}
use open_htap_stack.Sink.Rows.{Settings, Event, Write, write_event}
use open_htap_stack.Sink.Batch.{
  Message, Consumer, Turn, Sink, write_batch, all_accepted, run_turn, run_turns, kept, Step, steady,
  broken, run_steps,
}
use open_htap_stack.Sink.Stored.{IsStored, is_raw, any_write}
use open_htap_stack.Sink.Delivery.{IsDocumented, Carries}
use open_htap_stack.Sink.Failure.{batch_of, succeeds, is_empty, failed_batch-passed}
use open_htap_stack.Sink.Restart.{run_steps-delivers}
use open_htap_stack.Sink.Tests.{metres, half_minutes, untracked}

abbrev cfg : Settings
cfg = record {
  event_bucket_minutes = 15;
  event_shards = 16;
  report_every_us = 5000000;
  crc32 = λ id. 35;
  fresh_id = λ n. "fresh";
  fresh_time = λ n. 7200000000;
}

abbrev event : String → Event grid metres cfg
event id = record {
  event_id = some (id, 7200000000);
  entity_id = some "asset-000000";
  position_lat = some 15;
  position_lon = some 12;
  z_m = some 40;
  event_type = some "telemetry";
  observer_id = none;
  temp_external_c = none;
  temp_internal_c = none;
  text = some "hovering";
}

abbrev records : List (Event grid metres cfg)
records = event "event-0" ∷ event "event-1" ∷ []

abbrev topic : ℕ → ℕ → Option (Event grid metres cfg)
topic zero o = get_elem? records o
topic (suc q) o = none

abbrev poll_at :
    Option (Event grid metres cfg) → ℕ × ℕ → List (Message (Event grid metres cfg)) × (ℕ × ℕ)
poll_at none s = ([], s)
poll_at (some e) (p, c) = (record { partition = 0; offset = p; value = e } ∷ [], (suc p, c))

abbrev first_of : ℕ → ℕ → ℕ
first_of zero n = n
first_of (suc q) n = 0

-- one partition, one record a poll
abbrev kafka : Consumer (Event grid metres cfg)
kafka = record {
  State = ℕ × ℕ;
  poll = λ s. poll_at (get_elem? records s.0) s;
  commit = λ s. (s.0, s.0);
  rejoin = λ s. (s.1, s.1);
  position = λ s q. first_of q s.0;
  committed = λ s q. first_of q s.1;
}

poll_returns :
    (p c q o : ℕ) (e : Event grid metres cfg) (r : Option (Event grid metres cfg))
    → get_elem? records p ≡ r
    → topic q o ≡ some e
    → first_of q p ≤ o
    → o < first_of q (poll_at r (p, c)).1.0
    → Carries e (poll_at r (p, c)).0
poll_returns p c zero o e none same h from upto = absurd (omega (arith, from, upto))
poll_returns p c zero o e (some r) same h from upto =
    let here : o ≡ p = omega (arith, from, upto) in
    inl (some-injective r e (sym same ∙ ap (λ n. get_elem? records n) (sym here) ∙ h))
poll_returns p c (suc q) o e r same h from upto = absurd (omega (arith, upto))

poll_advances :
    (p c q : ℕ) (r : Option (Event grid metres cfg))
    → (first_of q p ≤ first_of q (poll_at r (p, c)).1.0)
      × (first_of q (poll_at r (p, c)).1.1 ≡ first_of q c)
poll_advances p c zero none = omega arith
poll_advances p c zero (some e) = omega arith
poll_advances p c (suc q) r = omega arith

kafka-IsDocumented : IsDocumented kafka topic
kafka-IsDocumented = record {
  poll_returns =
      λ s q o e h from upto. poll_returns s.0 s.1 q o e (get_elem? records s.0) refl h from upto;
  poll_advances = λ s q. (poll_advances s.0 s.1 q (get_elem? records s.0)).0;
  poll_keeps = λ s q. (poll_advances s.0 s.1 q (get_elem? records s.0)).1;
  rejoin_resumes = λ s q. refl;
  rejoin_keeps = λ s q. refl;
  commit_commits = λ s q. refl;
  commit_stays = λ s q. refl;
}

abbrev turn_of : (Write grid metres cfg → Bool) → Turn grid metres cfg kafka
turn_of accepts = record {
  clock = half_minutes;
  zones = [];
  now_utc = λ m. 7260000000;
  counted_at = 7260000000;
  elapsed_at = 1000000;
  reported_at = 1000000;
  accepts = accepts;
  unheard = λ w. false;
}

abbrev answered : Turn grid metres cfg kafka
answered = turn_of (λ w. true)

abbrev timed_out : Turn grid metres cfg kafka
timed_out = turn_of (λ w. false)

abbrev started : Sink grid metres cfg kafka
started = record {
  consumer = (0, 0);
  derivations = record { tracker = untracked; alerts = new_generator grid metres; fresh_ids = 0 };
  stored = [];
  counts = [];
  total_inserted = 0;
  window_inserted = 0;
  last_report = 0;
}

both_committed :
    (run_turns grid metres cfg kafka (answered ∷ answered ∷ []) started).consumer ≡ (2, 2)
unfolding run_turns write_event
both_committed = refl

first_fails : succeeds grid metres cfg kafka timed_out started ≡ false
unfolding write_batch write_event all_accepted
first_fails = refl

second_is_there :
    is_empty grid metres cfg kafka
      (kafka.poll (run_turn grid metres cfg kafka timed_out started).consumer).0
    ≡ false
unfolding run_turn write_event
second_is_there = refl

second_succeeds :
    succeeds grid metres cfg kafka answered (run_turn grid metres cfg kafka timed_out started)
    ≡ true
unfolding run_turn write_event
second_succeeds = refl

-- the first event is below the committed offset and in no table
first_is_lost :
    ((run_turns grid metres cfg kafka (timed_out ∷ answered ∷ []) started).consumer ≡ (2, 2))
    × (any_write grid metres cfg
          (is_raw grid metres cfg "event-0")
          (run_turns grid metres cfg kafka (timed_out ∷ answered ∷ []) started).stored
        ≡ false)
unfolding run_turns write_event
first_is_lost = (refl, refl)

failed_batch-passed_example :
    (let s' = run_turn grid metres cfg kafka timed_out started in
      ((q : ℕ)
        → kafka.position (kafka.poll started.consumer).1 q
          ≤ kafka.committed (run_turn grid metres cfg kafka answered s').consumer q)
      × ((run_turn grid metres cfg kafka answered s').stored
          ≡ ([]
              ++ kept grid metres cfg kafka timed_out
                  (batch_of grid metres cfg kafka timed_out started))
            ++ batch_of grid metres cfg kafka answered s'))
failed_batch-passed_example =
    failed_batch-passed grid metres cfg kafka topic kafka-IsDocumented timed_out answered started
      first_fails second_is_there second_succeeds

-- the first batch fails, the process is restarted, and the batch is read again
abbrev recovery : List (Step grid metres cfg kafka)
recovery = broken timed_out 2000000 ∷ steady answered ∷ []

first_recovered : (run_steps grid metres cfg kafka recovery started).consumer ≡ (1, 1)
unfolding run_steps write_event
first_recovered = refl

run_steps-delivers_example :
    IsStored grid metres cfg "event-0" (run_steps grid metres cfg kafka recovery started).stored
run_steps-delivers_example =
    run_steps-delivers grid metres cfg kafka topic kafka-IsDocumented started recovery
      (λ q. omega arith) (tt, ((λ w. refl), tt)) 0 0 (event "event-0") "event-0" 7200000000 refl
      refl (omega arith) (subst (λ s. 0 < s.1) (sym first_recovered) (omega arith))
