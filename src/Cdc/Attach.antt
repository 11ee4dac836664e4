-- ===== src/Cdc/Attach.antt =====
-- Where `_attach` of backend/app/routes/streaming.py puts the consumer, and how much it reads back.
use open_htap_stack.Prelude.{
  ℕ, zero, suc, ◌+◌, ◌-◌, ◌*◌, ◌/◌, ◌≤◌, ◌≡◌, refl, ap, ◌∙◌, max, some, Bool-cases, inl, inr, List,
  [], ◌∷◌, map, All, length, leb, arith,
}
use native.Mathlib.Nat.{mul-div-le}
use open_htap_stack.Cdc.Record.{Avro}
use open_htap_stack.Cdc.Tail.{Sizes, Tail}
use open_htap_stack.Cdc.Loop.{
  Log, answers, attach, attached, insert_log, sort_logs, backfill_each, sought,
}

at_least_one : (k q b : ℕ) → k * q ≤ b → k * max 1 q ≤ max b k
at_least_one k zero b h = omega arith
at_least_one k (suc q) b h = rw (let e : max 1 (suc q) ≡ suc q = omega arith in e) (omega arith)

fits : (b p size k n : ℕ) → b ≤ p → p ≤ max size k → k ≡ n → b ≤ max size n
fits b p size k n h g e = omega arith

module _ (av : Avro) (sizes : Sizes) where
  -- The records between where each partition is read from and its end.
  abbrev pub backlog : ℕ → List Log → ℕ
  backlog each [] = 0
  backlog each (l ∷ ls) = (l.end - sought av sizes each l) + backlog each ls

  abbrev pub InLog : ℕ → Log → Type 0
  InLog each l =
      (l.beginning ≤ sought av sizes each l)
      × (sought av sizes each l ≤ l.end)
      × (l.end - sought av sizes each l ≤ each)

  abbrev pub Ordered : Log → Type 0
  Ordered l = l.beginning ≤ l.end

  backlog-le : (each : ℕ) (ls : List Log) → backlog each ls ≤ length ls * each
  unfolding sought
  backlog-le each [] = omega arith
  backlog-le each (l ∷ ls) = grind (arith, backlog-le each ls)

  length-mul-backfill_each : (n : ℕ) → n * backfill_each av sizes n ≤ max sizes.buffer_size n
  unfolding backfill_each
  length-mul-backfill_each zero = omega arith
  length-mul-backfill_each (suc n) =
      at_least_one (suc n) (sizes.buffer_size / suc n) sizes.buffer_size
        (mul-div-le sizes.buffer_size (suc n))

  All-InLog : (each : ℕ) (ls : List Log) → All Ordered ls → All (InLog each) ls
  unfolding sought
  All-InLog each [] h = tt
  All-InLog each (l ∷ ls) h =
      ((omega arith, omega (arith, h.0), omega arith), All-InLog each ls h.1)

  insert_log-Ordered :
      (l : Log) (ls : List Log)
      → Ordered l
      → All Ordered ls
      → All Ordered (insert_log av sizes l ls)
  unfolding insert_log
  insert_log-Ordered l [] h hs = (h, tt)
  insert_log-Ordered l (m ∷ ms) h hs = elim (Bool-cases (leb l.partition m.partition)) [
    | inl e ↦ rw e (h, hs)
    | inr e ↦ rw e (hs.0, insert_log-Ordered l ms h hs.1)
  ]

  sort_logs-Ordered : (ls : List Log) → All Ordered ls → All Ordered (sort_logs av sizes ls)
  unfolding sort_logs
  sort_logs-Ordered [] h = tt
  sort_logs-Ordered (l ∷ ls) h =
      insert_log-Ordered l (sort_logs av sizes ls) h.0 (sort_logs-Ordered ls h.1)

  length-insert_log :
      (l : Log) (ls : List Log) → length (insert_log av sizes l ls) ≡ suc (length ls)
  unfolding insert_log
  length-insert_log l [] = refl
  length-insert_log l (m ∷ ms) = ground (arith, length-insert_log l ms)

  length-sort_logs : (ls : List Log) → length (sort_logs av sizes ls) ≡ length ls
  unfolding sort_logs
  length-sort_logs [] = refl
  length-sort_logs (l ∷ ls) =
      length-insert_log l (sort_logs av sizes ls) ∙ ap suc (length-sort_logs ls)

  abbrev pub each_of : List Log → ℕ
  each_of logs = backfill_each av sizes (length (sort_logs av sizes logs))

  -- A tail that attaches to a topic, each of whose logs ends no earlier than it begins, reads every
  -- partition from inside its log, at most a share of the buffer before the end; and together no more
  -- than the buffer holds, or one record a partition where there are more partitions than that.
  pub attach-reads_back :
      (l : Log) (ls : List Log) (t : Tail av sizes)
      → All Ordered (l ∷ ls)
      → let logs = sort_logs av sizes (l ∷ ls) in
        let each = each_of (l ∷ ls) in
        ((attach av sizes (answers (l ∷ ls)) t).1.consumer
          ≡ some (map (λ m. (m.partition, sought av sizes each m)) logs))
        × All (InLog each) logs
        × (backlog each logs ≤ max sizes.buffer_size (length (l ∷ ls)))
  unfolding attach attached
  attach-reads_back l ls t h = (
    refl,
    All-InLog (each_of (l ∷ ls)) (sort_logs av sizes (l ∷ ls)) (sort_logs-Ordered (l ∷ ls) h),
    fits _ _ sizes.buffer_size _ _ (backlog-le (each_of (l ∷ ls)) (sort_logs av sizes (l ∷ ls)))
        (length-mul-backfill_each (length (sort_logs av sizes (l ∷ ls))))
        (length-sort_logs (l ∷ ls)),
  )
