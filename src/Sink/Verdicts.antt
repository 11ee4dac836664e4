-- ===== src/Sink/Verdicts.antt =====
-- What `AlertGenerator.check_proximity` returns, against a reading of the zones one by one.
use open_htap_stack.Prelude.{
  ℕ, ◌≡◌, refl, subst, sym, ◌∙◌, String, Bool, true, false, not, ◌&&◌, ◌||◌, none, some, List, [],
  ◌∷◌, ◌⊎◌, inl, inr, arith, All, Bool-cases,
}
use open_htap_stack.Geometry.Floats.{Floats, IsOrdered}
use open_htap_stack.Geometry.Polygon.{distance_to_polygon_m}
use open_htap_stack.Sink.Alerts.{
  Zone, Generator, Verdict, Position, out_of_range, zone_risk, breaches, note_zone, alert_zone,
  check_zone, check_zones, check_proximity, nothing_near,
}

module _ (fl : Floats) (metres : fl.Float → String) where
  open fl use {lt, lit}

  abbrev pub distance_of : Position fl metres → Zone fl metres → fl.Float
  distance_of p zone = distance_to_polygon_m fl p.lat p.lon zone.ring

  abbrev pub is_near : Position fl metres → Zone fl metres → Bool
  is_near p zone = not (out_of_range fl metres (distance_of p zone))

  abbrev pub any_of : (Zone fl metres → Bool) → List (Zone fl metres) → Bool
  any_of f [] = false
  any_of f (zone ∷ zones) = f zone || any_of f zones

  -- The zone named is one in range, and the score is its risk.
  abbrev pub Names : Position fl metres → List (Zone fl metres) → Verdict fl metres → Type 0
  Names p [] v = ⊥
  Names p (zone ∷ zones) v =
      ((is_near p zone ≡ true)
        × (v.nearest_zone_id ≡ some zone.zone_id)
        × (v.risk_score ≡ zone_risk fl metres (distance_of p zone)))
      ⊎ Names p zones v

  skip_zone :
      (clock : ℕ → ℕ) (p : Position fl metres) (zone : Zone fl metres)
      (zones : List (Zone fl metres)) (v : Verdict fl metres) (g : Generator fl metres)
      → out_of_range fl metres (distance_of p zone) ≡ true
      → check_zones fl metres clock p (zone ∷ zones) (v, g)
        ≡ check_zones fl metres clock p zones (v, g)
  unfolding check_zones check_zone
  skip_zone clock p zone zones v g far = rw far refl

  score_zone :
      (clock : ℕ → ℕ) (p : Position fl metres) (zone : Zone fl metres)
      (zones : List (Zone fl metres)) (v : Verdict fl metres) (g : Generator fl metres)
      → out_of_range fl metres (distance_of p zone) ≡ false
      → check_zones fl metres clock p (zone ∷ zones) (v, g)
        ≡ check_zones fl metres clock p zones (
          note_zone fl metres (distance_of p zone) zone v,
          alert_zone fl metres clock p (distance_of p zone) zone g,
        )
  unfolding check_zones check_zone
  score_zone clock p zone zones v g near = rw near refl

  verdict_of :
      (clock : ℕ → ℕ) (p : Position fl metres) (zones : List (Zone fl metres))
      (v : Verdict fl metres) (g : Generator fl metres)
      → ((check_zones fl metres clock p zones (v, g)).0.near_zone
          ≡ (v.near_zone || any_of (is_near p) zones))
        × ((check_zones fl metres clock p zones (v, g)).0.predicted_breach ≡ (
            v.predicted_breach
            || any_of (λ z. is_near p z && breaches fl metres (distance_of p z)) zones))
  unfolding check_zones note_zone
  verdict_of clock p [] v g = ground arith
  verdict_of clock p (zone ∷ zones) v g =
      let d = distance_of p zone in
      elim (Bool-cases (out_of_range fl metres d)) [
        | inl far ↦ rw (skip_zone clock p zone zones v g far, far) (verdict_of clock p zones v g)
        | inr near ↦
            let (a, b) =
              verdict_of clock p zones (note_zone fl metres d zone v)
                (alert_zone fl metres clock p d zone g) in
            rw (score_zone clock p zone zones v g near, near) (ground (arith, a), ground (arith, b))
      ]

  note_zone-names :
      (d : fl.Float) (zone : Zone fl metres) (v : Verdict fl metres)
      → (((note_zone fl metres d zone v).nearest_zone_id ≡ some zone.zone_id)
          × ((note_zone fl metres d zone v).risk_score ≡ zone_risk fl metres d))
        ⊎ (((note_zone fl metres d zone v).nearest_zone_id ≡ v.nearest_zone_id)
            × ((note_zone fl metres d zone v).risk_score ≡ v.risk_score))
  unfolding note_zone
  note_zone-names d zone v = elim (Bool-cases (lt v.risk_score (zone_risk fl metres d))) [
    | inl more ↦ inl (rw more refl, rw more refl)
    | inr less ↦ inr (rw less refl, rw less refl)
  ]

  Names-check_zones :
      (clock : ℕ → ℕ) (p : Position fl metres) (zones : List (Zone fl metres))
      (v : Verdict fl metres) (g : Generator fl metres)
      → (let w = (check_zones fl metres clock p zones (v, g)).0 in
          ((w.nearest_zone_id ≡ v.nearest_zone_id) × (w.risk_score ≡ v.risk_score))
          ⊎ Names p zones w)
  unfolding check_zones
  Names-check_zones clock p [] v g = inl (refl, refl)
  Names-check_zones clock p (zone ∷ zones) v g =
      let d = distance_of p zone in
      elim (Bool-cases (out_of_range fl metres d)) [
        | inl far ↦
            rw (skip_zone clock p zone zones v g far, far)
              (elim (Names-check_zones clock p zones v g) [
                | inl same ↦ inl same
                | inr named ↦ inr (inr named)
              ])
        | inr near ↦
            let u = note_zone fl metres d zone v in
            rw (score_zone clock p zone zones v g near, near)
              (elim (Names-check_zones clock p zones u (alert_zone fl metres clock p d zone g)) [
                | inr named ↦ inr (inr named)
                | inl (zone_same, risk_same) ↦ elim (note_zone-names d zone v) [
                  | inl (a, b) ↦ inr (inl (refl, zone_same ∙ a, risk_same ∙ b))
                  | inr (a, b) ↦ inl (zone_same ∙ a, risk_same ∙ b)
                ]
              ])
      ]

  note_zone-raises :
      (ordered : IsOrdered fl) (d : fl.Float) (zone : Zone fl metres) (v : Verdict fl metres)
      → (lt (note_zone fl metres d zone v).risk_score v.risk_score ≡ false)
        × (lt (note_zone fl metres d zone v).risk_score (zone_risk fl metres d) ≡ false)
  unfolding note_zone
  note_zone-raises ordered d zone v = elim (Bool-cases (lt v.risk_score (zone_risk fl metres d))) [
    | inl more ↦ rw more (
      ordered.asymmetric v.risk_score (zone_risk fl metres d) more,
      ordered.irreflexive (zone_risk fl metres d),
    )
    | inr less ↦ rw less (ordered.irreflexive v.risk_score, less)
  ]

  abbrev pub IsHighest : Position fl metres → List (Zone fl metres) → fl.Float → Type 0
  IsHighest p zones risk =
      All
        (λ (zone : Zone fl metres).
          is_near p zone ≡ true → lt risk (zone_risk fl metres (distance_of p zone)) ≡ false)
        zones

  abbrev IsAbove :
      Position fl metres → List (Zone fl metres) → Verdict fl metres → Verdict fl metres → Type 0
  IsAbove p zones v w = (lt w.risk_score v.risk_score ≡ false) × IsHighest p zones w.risk_score

  highest_of :
      (ordered : IsOrdered fl) (clock : ℕ → ℕ) (p : Position fl metres)
      (zones : List (Zone fl metres)) (v : Verdict fl metres) (g : Generator fl metres)
      → IsAbove p zones v (check_zones fl metres clock p zones (v, g)).0
  unfolding check_zones
  highest_of ordered clock p [] v g = (ordered.irreflexive v.risk_score, tt)
  highest_of ordered clock p (zone ∷ zones) v g =
      let d = distance_of p zone in
      elim (Bool-cases (out_of_range fl metres d)) [
        | inl far ↦
            let (above, rest) = highest_of ordered clock p zones v g in
            subst (λ s. IsAbove p (zone ∷ zones) v s.0) (sym (skip_zone clock p zone zones v g far))
              (above, ((λ h. absurd (ground (arith, h, far))), rest))
        | inr near ↦
            let u = note_zone fl metres d zone v in
            let (above, rest) =
              highest_of ordered clock p zones u (alert_zone fl metres clock p d zone g) in
            let (over_v, over_zone) = note_zone-raises ordered d zone v in
            subst (λ s. IsAbove p (zone ∷ zones) v s.0)
              (sym (score_zone clock p zone zones v g near))
              (
                ordered.transitive _ u.risk_score _ above over_v,
                ((λ h. ordered.transitive _ u.risk_score _ above over_zone), rest),
              )
      ]

  -- Where the floats are ordered: an asset is near exactly where some zone is in range, a breach is
  -- predicted exactly where some zone in range says so, the score is at least the risk of every zone
  -- in range, and the zone named is one in range whose risk is the score (with none, the score is 0).
  pub check_proximity-verdict :
      (ordered : IsOrdered fl) (clock : ℕ → ℕ) (zones : List (Zone fl metres))
      (p : Position fl metres) (g : Generator fl metres)
      → (let w = (check_proximity fl metres clock zones p g).0 in
          (w.near_zone ≡ any_of (is_near p) zones)
          × (w.predicted_breach
              ≡ any_of (λ z. is_near p z && breaches fl metres (distance_of p z)) zones)
          × IsHighest p zones w.risk_score
          × (((w.nearest_zone_id ≡ none) × (w.risk_score ≡ lit 0 0)) ⊎ Names p zones w))
  unfolding check_proximity
  check_proximity-verdict ordered clock zones p g =
      let (near, breach) = verdict_of clock p zones (nothing_near fl metres) g in
      (
        near,
        breach,
        (highest_of ordered clock p zones (nothing_near fl metres) g).1,
        Names-check_zones clock p zones (nothing_near fl metres) g,
      )
