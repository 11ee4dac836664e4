-- ===== src/Window/Progress.antt =====
-- What a settled verdict licenses: nothing that the sink has not read can fall into the window.
use open_htap_stack.Prelude.{
  ℕ, ◌+◌, ◌≤◌, ◌<◌, ◌≡◌, refl, ◌↔◌, inl, inr, true, Option, none, some, List, [], ◌∷◌, ltb, arith,
  All, Option-cases, if◌then◌else◌,
}
use open_htap_stack.Window.Settled.{
  Committed, absent, negative, at, Replies, answers, Checked, stopped, judged, needed, note_short,
  and_then, check_needed, check_committed, check_partitions, worst, verdict, conclude,
  sink_consumed_past,
}

-- The sink has read a partition as far as the answers ask.
pub record HasRead (r : Replies) (p : ℕ) : Type 0 where
  pub offset : ℕ
  pub need : ℕ
  pub committed_at : r.committed p ≡ at offset
  pub needed_at : needed (r.first_beyond p) (r.ends p) ≡ some need
  pub enough : need ≤ offset

passed :
    (p : ℕ) (c : Committed) (need : Option ℕ) (rest : Checked)
    → check_committed p c need rest ≡ judged []
    → (offset n : ℕ) × (c ≡ at offset) × (need ≡ some n) × (n ≤ offset) × (rest ≡ judged [])
unfolding check_committed check_needed and_then note_short
passed p absent need rest h = cc
passed p negative need rest h = cc
passed p (at offset) none rest h = cc
passed p (at offset) (some n) (stopped d) h = cc
passed p (at offset) (some n) (judged more) h = (offset, n, refl, refl, ground arith, ground arith)

judged_nil : (r : Replies) (ps : List ℕ) → check_partitions r ps ≡ judged [] → All (HasRead r) ps
unfolding check_partitions
judged_nil r [] h = tt
judged_nil r (p ∷ ps) h =
    let (offset, n, c, e, le, rest) =
      passed p (r.committed p) (needed (r.first_beyond p) (r.ends p)) (check_partitions r ps) h in
    (
      record { offset = offset; need = n; committed_at = c; needed_at = e; enough = le },
      judged_nil r ps rest,
    )

nil_judged : (r : Replies) (ps : List ℕ) → All (HasRead r) ps → check_partitions r ps ≡ judged []
unfolding check_partitions check_committed check_needed and_then note_short
nil_judged r [] h = refl
nil_judged r (p ∷ ps) h =
    rw (h.0.committed_at, h.0.needed_at, check_committed, check_needed)
      (rw (nil_judged r ps h.1) (ground (arith, h.0.enough)))

conclude-true : (n : ℕ) (c : Checked) → (conclude n c).0 ≡ true → c ≡ judged []
unfolding conclude verdict
conclude-true n (stopped d) h = cc
conclude-true n (judged []) h = refl
conclude-true n (judged (s ∷ rest)) h = cc

-- With the topic's partitions known and at least one, the verdict is positive exactly when the sink
-- has read each of them as far as Kafka's answers ask.
pub settled_iff :
    (p : ℕ) (ps : List ℕ) (r : Replies)
    → ((sink_consumed_past (answers (some (p ∷ ps)) r)).0 ≡ true) ↔ All (HasRead r) (p ∷ ps)
unfolding sink_consumed_past
settled_iff p ps r = (
  λ h. judged_nil r (p ∷ ps) (conclude-true _ (check_partitions r (p ∷ ps)) h),
  λ h. rw (nil_judged r (p ∷ ps) h) (unfold conclude verdict in refl),
)

-- A partition's records by their offsets: how many there are, and the time stamp of each.
pub record Log : Type 0 where
  pub end : ℕ → ℕ
  pub stamp : ℕ → ℕ → ℕ

-- What Kafka documents of its answers about the instant `target`.
pub record Answered (log : Log) (target : ℕ) (r : Replies) : Type 0 where
  pub first : (p o : ℕ) → r.first_beyond p ≡ some o → target ≤ log.stamp p o
  pub ended : (p e : ℕ) → r.ends p ≡ some e → e ≡ log.end p

-- Of two records of a partition the later one is stamped no more than `late` before the earlier one.
unfoldable pub IsLateBy : ℕ → Log → Type 0
IsLateBy late log = (p k l : ℕ) → k ≤ l → log.stamp p k ≤ log.stamp p l + late

-- A record of the partition, at or before a place, that is stamped at or after the target.
abbrev pub Reached : Log → ℕ → ℕ → ℕ → Type 0
Reached log target p k = (o : ℕ) × (o ≤ k) × (target ≤ log.stamp p o)

-- Each record that the sink has yet to read of a partition has one that reached the target at or before
-- it, and is stamped no more than `late` before the target.
abbrev pub NothingLeft : ℕ → Log → ℕ → Replies → ℕ → Type 0
NothingLeft late log target r p =
    (offset k : ℕ)
    → r.committed p ≡ at offset
    → offset ≤ k
    → k < log.end p
    → Reached log target p k × (target ≤ log.stamp p k + late)

read-Reached :
    (log : Log) (target : ℕ) (r : Replies) (p offset k : ℕ)
    → Answered log target r
    → HasRead r p
    → r.committed p ≡ at offset
    → offset ≤ k
    → k < log.end p
    → Reached log target p k
unfolding needed
read-Reached log target r p offset k a h c le lt = elim (Option-cases (r.first_beyond p)) [
  | inl e ↦
      absurd (omega (arith, a.ended p h.need (ground (arith, e, h.needed_at)), same, h.enough))
  | inr (o, e) ↦
      let need : o ≡ h.need = ground (arith, e, h.needed_at) in
      (o, omega (arith, need, same, h.enough), a.first p o e)
]
  where
    same : offset ≡ h.offset
    same = ground (arith, c, h.committed_at)

read-NothingLeft :
    (late : ℕ) (log : Log) (target : ℕ) (r : Replies) (p : ℕ)
    → Answered log target r
    → IsLateBy late log
    → HasRead r p
    → NothingLeft late log target r p
unfolding IsLateBy
read-NothingLeft late log target r p a order h offset k c le lt =
    let (o, before, beyond) = read-Reached log target r p offset k a h c le lt in
    ((o, before, beyond), omega (arith, beyond, order p o k before))

All-map : {P Q : ℕ → Type 0} (ps : List ℕ) → ((p : ℕ) → P p → Q p) → All P ps → All Q ps
All-map [] f h = tt
All-map (p ∷ ps) f h = (f p h.0, All-map ps f h.1)

-- If the verdict is positive, Kafka's answers are what it documents, and no record is stamped more than
-- `late` seconds before an earlier one of its partition: on every partition of the topic each record that
-- the sink has not read lies at or behind one stamped at or after the target, which is the window's end
-- and the margin of 60 seconds, and is itself stamped no more than `late` before the target. So with
-- stamps late by the margin at most, it is stamped at or after the window's end.
pub settled_sound :
    (late : ℕ) (log : Log) (target p : ℕ) (ps : List ℕ) (r : Replies)
    → Answered log target r
    → IsLateBy late log
    → (sink_consumed_past (answers (some (p ∷ ps)) r)).0 ≡ true
    → All (NothingLeft late log target r) (p ∷ ps)
settled_sound late log target p ps r a order h =
    All-map (p ∷ ps) (λ q. read-NothingLeft late log target r q a order) ((settled_iff p ps r).0 h)

-- how far a partition's worst is from being exceeded
worst_bounds :
    (best : ℕ × ℕ) (rest : List (ℕ × ℕ))
    → (best.1 ≤ (worst best rest).1) × All (λ s. s.1 ≤ (worst best rest).1) rest
unfolding worst
worst_bounds best [] = (omega arith, tt)
worst_bounds best ((p, n) ∷ rest) =
    let (here, there) = worst_bounds (if ltb best.1 n then (p, n) else best) rest in
    (ground (arith, here), (ground (arith, here), there))
