-- ===== src/Producer/Rounds.antt =====
-- The order in which the producer goes round the assets.
use mathlib.Core.List.{append-nil, append_assoc, map}
use native.Mathlib.Nat.{mod-mod, mod-add-mod, suc-mod}
use open_htap_stack.Prelude.{
  ℕ, zero, suc, ◌+◌, ◌-◌, ◌%◌, ◌≡◌, refl, ap, sym, ◌∙◌, subst, min, Bool, true, false, List, [],
  ◌∷◌, ◌++◌, arith, leb, inl, inr, Bool-cases, if◌then◌else◌,
}
use open_htap_stack.Producer.Pacing.{
  Live, Config, Producer, turned, ids_from, fleet_of, batch_of, send_batch, report_at, take_turn,
  step, run_events,
}

-- The assets of a batch go on from where the cursor is, and are the same from the cursor's remainder.
ids_from-mod : (ptr n batch : ℕ) → ids_from (ptr % n) n batch ≡ ids_from ptr n batch
unfolding ids_from
ids_from-mod ptr n zero = refl
ids_from-mod ptr n (suc batch) =
    subst (λ x. (ptr % n % n ∷ ids_from (suc (ptr % n)) n batch) ≡ (x ∷ ids_from (suc ptr) n batch))
      (mod-mod ptr n)
      (ap (λ l. ptr % n % n ∷ l)
        (sym (ids_from-mod (suc (ptr % n)) n batch)
          ∙ ap (λ x. ids_from x n batch) (sym (suc-mod ptr n))
          ∙ ids_from-mod (suc ptr) n batch))

ids_from-eq : (n p p' b b' : ℕ) → p ≡ p' → b ≡ b' → ids_from p n b ≡ ids_from p' n b'
ids_from-eq n p p' b b' e h = ap (λ x. ids_from x n b) e ∙ ap (λ y. ids_from p' n y) h

ids_from-append :
    (ptr n a b : ℕ) → ids_from ptr n a ++ ids_from (ptr + a) n b ≡ ids_from ptr n (a + b)
unfolding ids_from
ids_from-append ptr n zero b = ids_from-eq n (ptr + 0) ptr b (0 + b) (omega arith) (omega arith)
ids_from-append ptr n (suc a) b =
    ap (λ l. ptr % n ∷ l)
      (ap (λ l. ids_from (suc ptr) n a ++ l)
          (ids_from-eq n (ptr + suc a) (suc ptr + a) b b (omega arith) refl)
        ∙ ids_from-append (suc ptr) n a b)
    ∙ ids_from-eq n ptr ptr (suc (a + b)) (suc a + b) refl (omega arith)

-- From `s` to `s'`, with the settings kept, `c` events went out to the assets in turn.
pub record GoesRound (n c : ℕ) (s s' : Producer) : Type 0 where
  pub sent : s'.sent ≡ s.sent ++ ids_from s.ptr n c
  pub cursor : s'.ptr % n ≡ (s.ptr + c) % n
  pub live : s'.live ≡ s.live

stays : (n : ℕ) (s : Producer) → GoesRound n 0 s s
unfolding ids_from
stays n s = record {
  sent = sym (append-nil s.sent);
  cursor = ap (λ x. x % n) (omega arith);
  live = refl;
}

goes_on :
    (n c d : ℕ) (s s' s'' : Producer)
    → GoesRound n c s s'
    → GoesRound n d s' s''
    → GoesRound n (c + d) s s''
goes_on n c d s s' s'' g h = record {
  sent =
      h.sent
      ∙ ap (λ l. l ++ ids_from s'.ptr n d) g.sent
      ∙ append_assoc s.sent (ids_from s.ptr n c) (ids_from s'.ptr n d)
      ∙ ap (λ l. s.sent ++ l)
          (ap (λ l. ids_from s.ptr n c ++ l)
              (sym (ids_from-mod s'.ptr n d)
                ∙ ap (λ x. ids_from x n d) g.cursor
                ∙ ids_from-mod (s.ptr + c) n d)
            ∙ ids_from-append s.ptr n c d);
  cursor =
      h.cursor
      ∙ sym (mod-add-mod s'.ptr n d)
      ∙ ap (λ x. (x + d) % n) g.cursor
      ∙ mod-add-mod (s.ptr + c) n d
      ∙ ap (λ x. x % n) (omega arith);
  live = h.live ∙ g.live;
}

send_batch-GoesRound :
    (cfg : Config) (b : ℕ) (s : Producer) → GoesRound (fleet_of cfg s) b s (send_batch cfg b s)
unfolding send_batch
send_batch-GoesRound cfg zero s = record {
  sent = (stays (fleet_of cfg s) s).sent;
  cursor = (stays (fleet_of cfg s) s).cursor;
  live = refl;
}
send_batch-GoesRound cfg (suc n) s = record {
  sent = refl;
  cursor = mod-mod (s.ptr + suc n) (fleet_of cfg s);
  live = refl;
}

report_at-GoesRound :
    (cfg : Config) (now n c : ℕ) (s s' : Producer)
    → GoesRound n c s s'
    → GoesRound n c s (report_at cfg now s')
unfolding report_at
report_at-GoesRound cfg now n c s s' g =
    elim (Bool-cases (leb cfg.report_every (now - s'.last_report))) [
      | inl time ↦ rw time (record { sent = g.sent; cursor = g.cursor; live = g.live })
      | inr early ↦ rw early g
    ]

-- How many events a turn sends.
abbrev pub sent_by : Config → Producer → ℕ
sent_by cfg s = if s.live.paused then 0 else batch_of cfg s

turn-GoesRound :
    (paused : Bool) (n c : ℕ) (s s' : Producer)
    → GoesRound n c s s'
    → GoesRound n (if paused then 0 else c) s (if paused then s else s')
turn-GoesRound true n c s s' g = stays n s
turn-GoesRound false n c s s' g = g

take_turn-GoesRound :
    (cfg : Config) (now : ℕ) (s : Producer)
    → GoesRound (fleet_of cfg s) (sent_by cfg s) s (take_turn cfg now s)
unfolding take_turn
take_turn-GoesRound cfg now s = turn-GoesRound s.live.paused (fleet_of cfg s) (batch_of cfg s) s _ (
    report_at-GoesRound cfg now (fleet_of cfg s) (batch_of cfg s) s
      (send_batch cfg (batch_of cfg s) s) (send_batch-GoesRound cfg (batch_of cfg s) s))

-- The events that a run of turns sends.
abbrev pub sent_in : Config → List ℕ → Producer → ℕ
sent_in cfg [] s = 0
sent_in cfg (now ∷ nows) s = sent_by cfg s + sent_in cfg nows (take_turn cfg now s)

-- While the settings stay as they are, the turns go round the assets one by one, across batches: what
-- they send is the numbers from the cursor on, each modulo the size of the fleet.
pub run_events-rounds :
    (cfg : Config) (nows : List ℕ) (s : Producer)
    → GoesRound (fleet_of cfg s) (sent_in cfg nows s) s (run_events cfg (map turned nows) s)
unfolding run_events step
run_events-rounds cfg [] s = stays (fleet_of cfg s) s
run_events-rounds cfg (now ∷ nows) s =
    let first = take_turn-GoesRound cfg now s in
    let s' = take_turn cfg now s in
    goes_on (fleet_of cfg s) (sent_by cfg s) (sent_in cfg nows s') s s'
      (run_events cfg (map turned nows) s') first
      (subst (λ n. GoesRound n (sent_in cfg nows s') s' (run_events cfg (map turned nows) s'))
        (ap (λ (l : Live). min l.n_entities cfg.max_entities) first.live)
        (run_events-rounds cfg nows s'))
