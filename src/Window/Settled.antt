-- ===== src/Window/Settled.antt =====
-- Whether the sink has read past a window: `_sink_consumed_past` of backend/app/routes/query.py.
use open_htap_stack.Prelude.{
  ℕ, suc, ◌+◌, ◌-◌, String, Bool, true, false, Option, none, some, List, [], ◌∷◌, ltb, length,
  if◌then◌else◌,
}

abbrev pub settled_margin_s : ℕ
settled_margin_s = 60

-- `committed.get(topic_partition)`: the group has no offset there, Kafka's -1, or an offset.
pub data Committed : Type 0 where
  absent negative : Committed
  at : ℕ → Committed

-- What Kafka answers of each partition: the committed offset, the first offset stamped at or after
-- the target, and the end offset.
pub record Replies : Type 0 where
  pub committed : ℕ → Committed
  pub first_beyond : ℕ → Option ℕ
  pub ends : ℕ → Option ℕ

-- A call that raised, or the topic's partitions in order (`none` where Kafka knows no topic).
pub data Kafka : Type 0 where
  raised : String → Kafka
  answers : Option (List ℕ) → Replies → Kafka

-- The evidence beside the verdict. `short`: how many partitions are short, of how many, by how many
-- records in all, and the worst of them with its count.
pub data Detail : Type 0 where
  no_partitions : Detail
  no_commit : ℕ → Detail
  no_end : ℕ → Detail
  short : ℕ → ℕ → ℕ → ℕ × ℕ → Detail
  consumed : ℕ → Detail
  unreachable : String → Detail

-- The loop over the partitions stops at one that it cannot judge, or gives those that are short.
pub data Checked : Type 0 where
  stopped : Detail → Checked
  judged : List (ℕ × ℕ) → Checked

-- `needed`, where Kafka gave an answer for the partition.
unfoldable pub needed : Option ℕ → Option ℕ → Option ℕ
needed (some beyond) end = some beyond
needed none end = end

-- `if at < needed: short[p] = needed - at`
unfoldable pub note_short : ℕ → ℕ → ℕ → List (ℕ × ℕ) → List (ℕ × ℕ)
note_short p offset need more = if ltb offset need then (p, need - offset) ∷ more else more

-- One partition put in front of what the rest of the loop gives.
unfoldable pub and_then : ℕ → ℕ → ℕ → Checked → Checked
unfolding note_short
and_then p offset need (stopped d) = stopped d
and_then p offset need (judged more) = judged (note_short p offset need more)

unfoldable pub check_needed : ℕ → ℕ → Option ℕ → Checked → Checked
unfolding and_then
check_needed p offset none rest = stopped (no_end p)
check_needed p offset (some need) rest = and_then p offset need rest

unfoldable pub check_committed : ℕ → Committed → Option ℕ → Checked → Checked
unfolding check_needed
check_committed p absent need rest = stopped (no_commit p)
check_committed p negative need rest = stopped (no_commit p)
check_committed p (at offset) need rest = check_needed p offset need rest

unfoldable pub check_partitions : Replies → List ℕ → Checked
unfolding check_committed needed
check_partitions r [] = judged []
check_partitions r (p ∷ ps) =
    check_committed p (r.committed p) (needed (r.first_beyond p) (r.ends p)) (check_partitions r ps)

-- `sum(short.values())`
unfoldable pub total : List (ℕ × ℕ) → ℕ
total [] = 0
total ((p, n) ∷ rest) = n + total rest

-- `max(short.items(), key=lambda item: item[1])`: the first of the largest.
unfoldable pub worst : ℕ × ℕ → List (ℕ × ℕ) → ℕ × ℕ
worst best [] = best
worst best ((p, n) ∷ rest) = worst (if ltb best.1 n then (p, n) else best) rest

unfoldable pub verdict : ℕ → List (ℕ × ℕ) → Bool × Detail
unfolding total worst
verdict partitions [] = (true, consumed partitions)
verdict partitions (s ∷ rest) =
    (false, short (suc (length rest)) partitions (total (s ∷ rest)) (worst s rest))

unfoldable pub conclude : ℕ → Checked → Bool × Detail
unfolding verdict
conclude partitions (stopped d) = (false, d)
conclude partitions (judged shorts) = verdict partitions shorts

-- `_sink_consumed_past`, once Kafka has been asked of the moment `target_of window_end`.
unfoldable pub sink_consumed_past : Kafka → Bool × Detail
unfolding conclude check_partitions
sink_consumed_past (raised message) = (false, unreachable message)
sink_consumed_past (answers none r) = (false, no_partitions)
sink_consumed_past (answers (some []) r) = (false, no_partitions)
sink_consumed_past (answers (some (p ∷ ps)) r) =
    conclude (length (p ∷ ps)) (check_partitions r (p ∷ ps))

-- The instant that Kafka is asked about.
abbrev pub target_of : ℕ → ℕ
target_of window_end = window_end + settled_margin_s
