-- ===== src/Producer/Tests.antt =====
-- Turns of the producer at its default rate, and the theorems at concrete inputs.
use open_htap_stack.Prelude.{
  ◌+◌, ◌*◌, ◌<◌, ◌≡◌, refl, false, none, some, List, [], ◌∷◌, map, length, arith,
}
use open_htap_stack.Producer.Pacing.{Payload, Config, Producer, Event, changed, turned, run_events}
use open_htap_stack.Producer.Rate.{due, run_events-rate}

abbrev cfg : Config
cfg = record { max_entities = 2000; period_ms = 50; report_every = 5 }

-- fifty events a second over two assets
abbrev started : Producer
started = record {
  live = record { events_per_sec = 50; n_entities = 2; paused = false };
  ptr = 0;
  owed = 0;
  total_sent = 0;
  window_sent = 0;
  last_report = 0;
  sent = [];
}

-- two and a half events a turn
sent_in_two_turns : (run_events cfg (map turned (1 ∷ 2 ∷ [])) started).sent ≡ 0 ∷ 1 ∷ 0 ∷ 1 ∷ 0 ∷ []
unfolding run_events
sent_in_two_turns = refl

abbrev slower : Payload
slower = record { events_per_sec = some 5; drones_enabled = none; paused = none }

abbrev events : List Event
events = turned 1 ∷ changed slower ∷ turned 2 ∷ turned 6 ∷ []

run_events-rate_example :
    (let s' = run_events cfg events started in
      (1000 * length s'.sent + s'.owed
        ≡ 1000 * length started.sent + started.owed + due cfg events started)
      × (s'.owed < 1000)
      × (s'.total_sent + s'.window_sent ≡ length s'.sent))
run_events-rate_example = run_events-rate cfg events started (omega arith, refl)
