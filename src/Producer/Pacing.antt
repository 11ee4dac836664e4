-- ===== src/Producer/Pacing.antt =====
-- `LiveSettings` and the loop of `main` in ingress/producer/producer.py. What an event holds is left out:
-- an event is the number of its asset. `owed`, a float in the code, is a whole number of thousandths of
-- an event here (the rate is whole a second and the period whole in milliseconds), so that the rounding
-- of floats is left out.
use open_htap_stack.Prelude.{
  ℕ, zero, suc, ◌+◌, ◌-◌, ◌*◌, ◌/◌, ◌%◌, min, max, Bool, Option, none, some, List, [], ◌∷◌, ◌++◌,
  leb, if◌then◌else◌,
}

pub record Live : Type 0 where
  pub events_per_sec : ℕ
  pub n_entities : ℕ
  pub paused : Bool

-- A payload of the settings route; a key that is missing is `none`.
pub record Payload : Type 0 where
  pub events_per_sec : Option ℕ
  pub drones_enabled : Option ℕ
  pub paused : Option Bool

-- `payload.get(key, now)`
unfoldable pub value_or {ℓ} : {A : Type ℓ} → Option A → A → A
value_or none now = now
value_or (some a) now = a

-- `LiveSettings.apply`, without the outliers.
unfoldable pub apply_payload : Payload → Live → Live
unfolding value_or
apply_payload p live = record {
  events_per_sec = max 1 (value_or p.events_per_sec live.events_per_sec);
  n_entities = max 1 (value_or p.drones_enabled live.n_entities);
  paused = value_or p.paused live.paused;
}

-- `max_entities`, `period_s` in milliseconds and `report_every_s` in the clock's unit.
pub record Config : Type 0 where
  pub max_entities : ℕ
  pub period_ms : ℕ
  pub report_every : ℕ

-- The loop's variables, with the settings, and the assets sent so far.
pub record Producer : Type 0 where
  pub live : Live
  pub ptr : ℕ
  pub owed : ℕ
  pub total_sent : ℕ
  pub window_sent : ℕ
  pub last_report : ℕ
  pub sent : List ℕ

-- `np.arange(ptr, ptr + batch_n) % n_entities`
unfoldable pub ids_from : ℕ → ℕ → ℕ → List ℕ
ids_from ptr n zero = []
ids_from ptr n (suc batch) = ptr % n ∷ ids_from (suc ptr) n batch

-- `n_entities` of a turn
abbrev pub fleet_of : Config → Producer → ℕ
fleet_of cfg s = min s.live.n_entities cfg.max_entities

-- `owed` in the turn before the batch is taken from it.
abbrev pub owed_now : Config → Producer → ℕ
owed_now cfg s = s.owed + s.live.events_per_sec * cfg.period_ms

-- `batch_n = int(owed)`
abbrev pub batch_of : Config → Producer → ℕ
batch_of cfg s = owed_now cfg s / 1000

-- `owed -= batch_n`, and the batch, where it is not empty.
unfoldable pub send_batch : Config → ℕ → Producer → Producer
unfolding ids_from
send_batch cfg zero s = record {
  live = s.live;
  ptr = s.ptr;
  owed = owed_now cfg s;
  total_sent = s.total_sent;
  window_sent = s.window_sent;
  last_report = s.last_report;
  sent = s.sent;
}
send_batch cfg (suc n) s = record {
  live = s.live;
  ptr = (s.ptr + suc n) % fleet_of cfg s;
  owed = owed_now cfg s - suc n * 1000;
  total_sent = s.total_sent;
  window_sent = s.window_sent + suc n;
  last_report = s.last_report;
  sent = s.sent ++ ids_from s.ptr (fleet_of cfg s) (suc n);
}

-- The report at the end of the turn, at the moment `now`.
unfoldable pub report_at : Config → ℕ → Producer → Producer
report_at cfg now s =
    if leb cfg.report_every (now - s.last_report)
    then record {
      live = s.live;
      ptr = s.ptr;
      owed = s.owed;
      total_sent = s.total_sent + s.window_sent;
      window_sent = 0;
      last_report = now;
      sent = s.sent;
    }
    else s

-- What happens: the settings change, or the loop takes a turn that ends at a moment.
pub data Event : Type 0 where
  changed : Payload → Event
  turned : ℕ → Event

unfoldable pub take_turn : Config → ℕ → Producer → Producer
unfolding send_batch report_at
take_turn cfg now s =
    if s.live.paused then s else report_at cfg now (send_batch cfg (batch_of cfg s) s)

unfoldable pub change_settings : Payload → Producer → Producer
unfolding apply_payload
change_settings p s = record {
  live = apply_payload p s.live;
  ptr = s.ptr;
  owed = s.owed;
  total_sent = s.total_sent;
  window_sent = s.window_sent;
  last_report = s.last_report;
  sent = s.sent;
}

unfoldable pub step : Config → Event → Producer → Producer
unfolding take_turn change_settings
step cfg (changed p) s = change_settings p s
step cfg (turned now) s = take_turn cfg now s

unfoldable pub run_events : Config → List Event → Producer → Producer
unfolding step
run_events cfg [] s = s
run_events cfg (e ∷ es) s = run_events cfg es (step cfg e s)
