-- ===== src/Producer/Rate.antt =====
-- The rate at which the producer sends, over any sequence of turns and changes of the settings.
use open_htap_stack.Prelude.{
  ℕ, zero, suc, ◌+◌, ◌-◌, ◌*◌, ◌/◌, ◌<◌, ◌≡◌, refl, Bool, true, false, List, [], ◌∷◌, length,
  length-append, leb, arith, inl, inr, Bool-cases, if◌then◌else◌,
}
use open_htap_stack.Producer.Pacing.{
  Config, Producer, Event, changed, turned, ids_from, fleet_of, owed_now, batch_of, send_batch,
  report_at, step, run_events,
}

-- What one event adds to what is to be sent, in thousandths of an event: a turn that is not paused adds
-- the rate over its period.
abbrev pub due_of : Config → Event → Producer → ℕ
due_of cfg (changed p) s = 0
due_of cfg (turned now) s = if s.live.paused then 0 else s.live.events_per_sec * cfg.period_ms

-- What a run of events adds.
abbrev pub due : Config → List Event → Producer → ℕ
due cfg [] s = 0
due cfg (e ∷ es) s = due_of cfg e s + due cfg es (step cfg e s)

length-ids_from : (ptr n batch : ℕ) → length (ids_from ptr n batch) ≡ batch
unfolding ids_from
length-ids_from ptr n zero = refl
length-ids_from ptr n (suc batch) = omega (arith, length-ids_from (suc ptr) n batch)

-- Less than one event is owed, and all events sent are in the total or in the window.
abbrev pub IsPaced : Producer → Type 0
IsPaced s = (s.owed < 1000) × (s.total_sent + s.window_sent ≡ length s.sent)

-- What a step keeps, and what it sends of what was due.
abbrev Sends : ℕ → Producer → Producer → Type 0
Sends d s s' = IsPaced s' × (1000 * length s'.sent + s'.owed ≡ 1000 * length s.sent + s.owed + d)

-- The batch taken from what is owed leaves less than one event.
none_left : (owed : ℕ) → 0 ≡ owed / 1000 → owed < 1000
none_left owed e = omega (arith, e)

rest_left :
    (owed n : ℕ)
    → suc n ≡ owed / 1000
    → (owed - suc n * 1000 < 1000) × (1000 * suc n + (owed - suc n * 1000) ≡ owed)
rest_left owed n e = (omega (arith, e), omega (arith, e))

send_batch-Sends :
    (cfg : Config) (b : ℕ) (s : Producer)
    → b ≡ batch_of cfg s
    → IsPaced s
    → Sends (s.live.events_per_sec * cfg.period_ms) s (send_batch cfg b s)
unfolding send_batch
send_batch-Sends cfg zero s e (less, sum) = ((none_left (owed_now cfg s) e, sum), omega arith)
send_batch-Sends cfg (suc n) s e (less, sum) =
    let ids = ids_from s.ptr (fleet_of cfg s) (suc n) in
    let (few, whole) = rest_left (owed_now cfg s) n e in
    let grown = length-append s.sent ids in
    let many = length-ids_from s.ptr (fleet_of cfg s) (suc n) in
    ((few, omega (arith, sum, grown, many)), omega (arith, whole, grown, many))

report_at-Sends :
    (cfg : Config) (now d : ℕ) (s s' : Producer) → Sends d s s' → Sends d s (report_at cfg now s')
unfolding report_at
report_at-Sends cfg now d s s' ((less, sum), all) =
    elim (Bool-cases (leb cfg.report_every (now - s'.last_report))) [
      | inl time ↦ rw time ((less, omega (arith, sum)), all)
      | inr early ↦ rw early ((less, sum), all)
    ]

turn-Sends :
    (paused : Bool) (d : ℕ) (s s' : Producer)
    → IsPaced s
    → Sends d s s'
    → Sends (if paused then 0 else d) s (if paused then s else s')
turn-Sends true d s s' ok sends = (ok, omega arith)
turn-Sends false d s s' ok sends = sends

step-Sends :
    (cfg : Config) (e : Event) (s : Producer) → IsPaced s → Sends (due_of cfg e s) s (step cfg e s)
unfolding step
step-Sends cfg (changed p) s ok = (ok, omega arith)
step-Sends cfg (turned now) s ok =
    let x = s.live.events_per_sec * cfg.period_ms in
    let running = report_at cfg now (send_batch cfg (batch_of cfg s) s) in
    turn-Sends s.live.paused x s running ok (
      report_at-Sends cfg now x s (send_batch cfg (batch_of cfg s) s)
        (send_batch-Sends cfg (batch_of cfg s) s refl ok))

-- From a state that owes less than one event and has counted all events sent, over any turns, pauses
-- and changes of the settings, and with no rounding of what is owed, the rate is kept: the events
-- sent, in thousandths, and what is still owed are what was so before and what the turns made due;
-- and the state is again of that kind.
pub run_events-rate :
    (cfg : Config) (es : List Event) (s : Producer)
    → (s.owed < 1000) × (s.total_sent + s.window_sent ≡ length s.sent)
    → (let s' = run_events cfg es s in
        (1000 * length s'.sent + s'.owed ≡ 1000 * length s.sent + s.owed + due cfg es s)
        × (s'.owed < 1000)
        × (s'.total_sent + s'.window_sent ≡ length s'.sent))
unfolding run_events
run_events-rate cfg [] s (less, sum) = (omega arith, less, sum)
run_events-rate cfg (e ∷ es) s ok =
    let (paced, all) = step-Sends cfg e s ok in
    let (later, less, sum) = run_events-rate cfg es (step cfg e s) paced in
    (omega (arith, all, later), less, sum)
