-- ===== src/Sink/Tracker.antt =====
-- `DroneTracker` of ingress/consumer/consumer.py. Times are whole microseconds, as a Python `datetime` has them.
use mathlib.Core.Option.{some-injective}
use open_htap_stack.Prelude.{
  ℕ, ◌-◌, ◌≡◌, refl, ap, ◌∙◌, String, Bool, false, Option, none, some, inl, inr, ◌=s=◌, leb, arith,
  update, Bool-cases, if◌then◌else◌,
}
use open_htap_stack.Geometry.Floats.{Floats}
use open_htap_stack.Geometry.Polygon.{haversine_distance_m, compute_bearing_deg}

module _ (fl : Floats) where
  open fl use {Float, lt, div, lit}

  -- A value of `_state`. The first event of an asset stores no speed and no heading.
  pub record Seen : Type 0 where
    pub lat : Float
    pub lon : Float
    pub alt : Float
    pub time : ℕ
    pub speed : Option Float
    pub heading : Option Float

  -- `_state`
  abbrev pub Tracker : Type 0
  Tracker = String → Option Seen

  -- `(speed_mps, heading_deg, is_flying)`
  pub record Derived : Type 0 where
    pub speed_mps : Float
    pub heading_deg : Float
    pub is_flying : Bool

  -- `alt > FLYING_ALTITUDE_THRESHOLD_M`
  unfoldable pub above_threshold : Float → Bool
  above_threshold alt = lt (lit 10 0) alt

  -- `dt` in seconds: 0.001 where the time did not advance.
  unfoldable pub elapsed_s : ℕ → ℕ → Float
  elapsed_s before now = if leb now before then lit 1 3 else lit (now - before) 6

  unfoldable pub speed_or_zero : Option Float → Float
  speed_or_zero none = lit 0 0
  speed_or_zero (some s) = s

  -- `speed_mps` above MAX_PLAUSIBLE_SPEED_MPS falls back on the speed before, or 0.
  unfoldable pub plausible_speed : Option Float → Float → Float
  unfolding speed_or_zero
  plausible_speed before speed = if lt (lit 100 0) speed then speed_or_zero before else speed

  -- What is derived of an event after `prev`.
  unfoldable pub derive_next : Seen → Float → Float → Float → ℕ → Derived
  unfolding plausible_speed elapsed_s above_threshold
  derive_next prev lat lon alt now = record {
    speed_mps =
        plausible_speed prev.speed
          (div (haversine_distance_m fl prev.lat prev.lon lat lon) (elapsed_s prev.time now));
    heading_deg = compute_bearing_deg fl prev.lat prev.lon lat lon;
    is_flying = above_threshold alt;
  }

  unfoldable pub update_seen : Option Seen → Float → Float → Float → ℕ → Derived × Seen
  unfolding derive_next above_threshold
  update_seen none lat lon alt now = (
    record { speed_mps = lit 0 0; heading_deg = lit 0 0; is_flying = above_threshold alt },
    record { lat = lat; lon = lon; alt = alt; time = now; speed = none; heading = none },
  )
  update_seen (some prev) lat lon alt now =
      let d = derive_next prev lat lon alt now in
      (
        d,
        record {
          lat = lat;
          lon = lon;
          alt = alt;
          time = now;
          speed = some d.speed_mps;
          heading = some d.heading_deg;
        },
      )

  -- `DroneTracker.update`
  unfoldable pub track : Tracker → String → Float → Float → Float → ℕ → Derived × Tracker
  unfolding update_seen
  track state entity lat lon alt now =
      let (d, seen) = update_seen (state entity) lat lon alt now in
      (d, update state entity (some seen))

  -- No stored speed is above the plausible maximum.
  abbrev pub IsPlausible : Tracker → Type 0
  IsPlausible state =
      (entity : String) (seen : Seen) (s : Float)
      → state entity ≡ some seen
      → seen.speed ≡ some s
      → lt (lit 100 0) s ≡ false

  -- a speed that is no higher than the maximum
  abbrev Fits : Option Float → Type 0
  Fits none = Unit
  Fits (some s) = lt (lit 100 0) s ≡ false

  plausible_speed-Fits :
      (before : Option Float) (speed : Float)
      → lt (lit 100 0) (lit 0 0) ≡ false
      → Fits before
      → lt (lit 100 0) (plausible_speed before speed) ≡ false
  unfolding plausible_speed
  plausible_speed-Fits none speed zero_ok h = ground (arith, zero_ok)
  plausible_speed-Fits (some s) speed zero_ok h = ground (arith, h)

  abbrev SeenFits : Option Seen → Type 0
  SeenFits none = Unit
  SeenFits (some seen) = Fits seen.speed

  update_seen-Fits :
      (o : Option Seen) (lat lon alt : Float) (now : ℕ)
      → lt (lit 100 0) (lit 0 0) ≡ false
      → SeenFits o
      → (lt (lit 100 0) (update_seen o lat lon alt now).0.speed_mps ≡ false)
        × Fits (update_seen o lat lon alt now).1.speed
  unfolding update_seen derive_next
  update_seen-Fits none lat lon alt now zero_ok h = (zero_ok, tt)
  update_seen-Fits (some prev) lat lon alt now zero_ok h =
      let fits = plausible_speed-Fits prev.speed _ zero_ok h in (fits, fits)

  Fits-of_stored :
      (o : Option Float) → ((s : Float) → o ≡ some s → lt (lit 100 0) s ≡ false) → Fits o
  Fits-of_stored none h = tt
  Fits-of_stored (some s) h = h s refl

  fits_of_seen :
      (o : Option Seen)
      → ((seen : Seen) (s : Float) → o ≡ some seen → seen.speed ≡ some s → lt (lit 100 0) s ≡ false)
      → SeenFits o
  fits_of_seen none h = tt
  fits_of_seen (some seen) h = Fits-of_stored seen.speed (λ s. h seen s refl)

  speed_of_Fits : (o : Option Float) (s : Float) → Fits o → o ≡ some s → lt (lit 100 0) s ≡ false
  speed_of_Fits none s h e = absurd (ground arith)
  speed_of_Fits (some s') s h e = ground (arith, h)

  -- Where 0 is no more than the maximum and no speed stored is above it: the speed that the tracker
  -- derives is no more than the maximum, however far the positions jump and whatever the clocks say,
  -- and again no speed stored is above it.
  pub track-IsPlausible :
      (state : Tracker) (entity : String) (lat lon alt : Float) (now : ℕ)
      → lt (lit 100 0) (lit 0 0) ≡ false
      → IsPlausible state
      → (lt (lit 100 0) (track state entity lat lon alt now).0.speed_mps ≡ false)
        × IsPlausible (track state entity lat lon alt now).1
  unfolding track
  track-IsPlausible state entity lat lon alt now zero_ok ok =
      let (derived, stored) =
        update_seen-Fits (state entity) lat lon alt now zero_ok
          (fits_of_seen (state entity) (ok entity)) in
      (
        derived,
        λ j seen s e q. elim (Bool-cases (entity =s= j)) [
          | inl same ↦
              let here : (update_seen (state entity) lat lon alt now).1 ≡ seen =
                some-injective _ _ (rw same at e) in
              speed_of_Fits (update_seen (state entity) lat lon alt now).1.speed s stored
                (ap (λ (x : Seen). x.speed) here ∙ q)
          | inr other ↦ ok j seen s (rw other at e) q
        ],
      )

  -- What is derived of one asset's event changes nothing that is known of another.
  pub track-others :
      (state : Tracker) (entity j : String) (lat lon alt : Float) (now : ℕ)
      → (entity =s= j) ≡ false
      → (track state entity lat lon alt now).1 j ≡ state j
  unfolding track
  track-others state entity j lat lon alt now other = rw other refl
