-- ===== src/Chain/Draining.antt =====
-- `process_time_queue` ends by its own test, and without a time it processes nothing.
use blockchain_mapping_syste.Prelude.{
  ℕ, zero, suc, ◌+◌, ◌≤◌, ◌<◌, true, false, Option, none, some, List, [], ◌∷◌, ◌≡◌, ◌≢◌, refl, sym,
  ap, ◌∙◌, inl, inr, arith, nat_beq, length, get_elem?, Bool, Bool-cases, Option-cases, Result, ok,
  err, if◌then◌else◌, ◌⊎◌,
}
use blockchain_mapping_syste.Prelude.Exec.{gets, ◌>>=◌}
use blockchain_mapping_syste.Block.{Block}
use blockchain_mapping_syste.Apply.{Platform}
use blockchain_mapping_syste.Chain.{
  Formats, Chain, insert_by_time, remove_at, add_block, is_due, drain, process_time_queue,
}
use blockchain_mapping_syste.Chain.Invariants.{add_block-Keeps, validated}
use blockchain_mapping_syste.Chain.TimeQueue.{extend_head-SameQueues, record_block-SameQueues}
use blockchain_mapping_syste.Chain.Sync.{IsSynced, synced}
use blockchain_mapping_syste.Chain.Adding.{
  Outcome, invalid, early, failed, added, add_block-Outcome,
}

length-insert_by_time : (b : Block) (l : List Block) → length (insert_by_time b l) ≡ suc (length l)
unfolding insert_by_time
length-insert_by_time b [] = refl
length-insert_by_time b (x ∷ l) = ground (arith, length-insert_by_time b l)

length-remove_at :
    (i : ℕ) (l : List Block) (b : Block)
    → get_elem? l i ≡ some b
    → length l ≡ suc (length (remove_at i l))
unfolding remove_at
length-remove_at i [] b h = cc
length-remove_at zero (x ∷ l) b h = refl
length-remove_at (suc i) (x ∷ l) b h = ap suc (length-remove_at i l b h)

get_elem?-lt : (l : List Block) (i : ℕ) (b : Block) → get_elem? l i ≡ some b → i < length l
get_elem?-lt [] i b h = cc
get_elem?-lt (x ∷ l) zero b h = omega arith
get_elem?-lt (x ∷ l) (suc i) b h = omega (arith, get_elem?-lt l i b h)

counted :
    (l : List Block) (i : ℕ) (b : Block)
    → get_elem? l i ≡ some b
    → (l' : List Block)
    → (length l' ≡ length (remove_at i l)) ⊎ (length l' ≡ suc (length (remove_at i l)))
    → (length l' ≡ length l) ⊎ (suc (length l') ≡ length l)
counted l i b h l' (inl e) = inr (omega (arith, length-remove_at i l b h))
counted l i b h l' (inr e) = inl (omega (arith, length-remove_at i l b h))

module _ (p : Platform) (f : Formats p) where
  -- A call puts back the block that it was given, or leaves the queue.
  abbrev Queued : Chain p → Result Bool × Chain p → Type 0
  Queued c q =
      (length q.1.time_queue ≡ length c.time_queue)
      ⊎ (length q.1.time_queue ≡ suc (length c.time_queue))

  queued :
      (now : ℕ) (b : Block) (c : Chain p) (q : Result Bool × Chain p)
      → Outcome p f now b c q
      → Queued c q
  queued now b c q invalid = inl refl
  queued now b c q (early late) = inr (length-insert_by_time b c.time_queue)
  queued now b c q (failed e c' x) = inl (
      ap length (
        ap (λ r. r.1.time_queue) (sym x)
        ∙ (extend_head-SameQueues p f b (validated p f b c)).times))
  queued now b c q (added c' due on x) = inl (
      ap length (
        (record_block-SameQueues p f b c').times
        ∙ ap (λ r. r.1.time_queue) (sym x)
        ∙ (extend_head-SameQueues p f b (validated p f b c)).times))

  -- The loop has stopped or raised, and was not cut off.
  abbrev Ends : Result Bool × Chain p → Type 0
  Ends q = q.0 ≢ ok false

  -- The next round, after the call for the block.
  round :
      (fuel depth now n : ℕ) (t : Option ℕ) (i : ℕ) (q : Result Bool × Chain p) (c : Chain p)
      → ((j : ℕ) (c' : Chain p)
          → IsSynced p f c'
          → j ≤ length c'.time_queue
          → length c'.time_queue < j + fuel
          → Ends (drain p f fuel depth now t j c'))
      → IsSynced p f q.1
      → (length q.1.time_queue ≡ n) ⊎ (suc (length q.1.time_queue) ≡ n)
      → i < n
      → n < suc (i + fuel)
      → Ends (
          ((λ _. q) >>= λ _. gets (λ c'. c') >>= λ c'.
          drain p f fuel depth now t (if nat_beq (length c'.time_queue) n then i + 1 else i))
            c)
  unfolding ◌>>=◌
  round fuel depth now n t i (err e, c') c rest k l less h = λ x. cc
  round fuel depth now n t i (ok u, c') c rest k (inl l) less h =
      rest (if nat_beq (length c'.time_queue) n then i + 1 else i) c' k (ground arith)
        (ground arith)
  round fuel depth now n t i (ok u, c') c rest k (inr l) less h =
      rest (if nat_beq (length c'.time_queue) n then i + 1 else i) c' k (ground arith)
        (ground arith)

  pub drain-Ends :
      (fuel depth now : ℕ) (t : Option ℕ) (i : ℕ) (c : Chain p)
      → IsSynced p f c
      → i ≤ length c.time_queue
      → length c.time_queue < i + fuel
      → Ends (drain p f fuel (suc depth) now t i c)
  unfolding drain ◌>>=◌
  drain-Ends zero depth now t i c k le h = absurd (omega arith)
  drain-Ends (suc fuel) depth now t i c k le h = elim (Option-cases (get_elem? c.time_queue i)) [
    | inl e ↦ rw (e, drain) (λ x. cc)
    | inr (b, e) ↦ elim (Bool-cases (is_due p f t b)) [
      | inr late ↦ rw (e, late, drain) (λ x. cc)
      | inl due ↦
          let c' : Chain p = record c { time_queue = remove_at i c.time_queue } in
          let k' : IsSynced p f c' = record { first = k.first; unqueued = k.unqueued } in
          let q = add_block p f (suc depth) now b c' in
          rw (e, due, drain)
            (round fuel (suc depth) now (length c.time_queue) t i q c'
              (λ j d kd le' h'. drain-Ends fuel depth now t j d kd le' h')
              ((add_block-Keeps p f (IsSynced p f) (synced p f) (suc depth) now b).keeps c' k')
              (counted c.time_queue i b e q.1.time_queue
                (queued now b c' q (add_block-Outcome p f depth now b c' k')))
              (get_elem?-lt c.time_queue i b e) (omega arith))
    ]
  ]

  -- From a synced chain the loop of `process_time_queue` ends: one turn for each queued block
  -- and one more are enough, so that the model never runs out of turns.
  pub process_time_queue-Ends :
      (depth now : ℕ) (new_time : Option ℕ) (c : Chain p)
      → IsSynced p f c
      → (process_time_queue p f (suc depth) now new_time c).0 ≢ ok false
  unfolding process_time_queue
  process_time_queue-Ends depth now new_time c k =
      drain-Ends (suc (length c.time_queue)) depth now new_time 0 _
        (record { first = k.first; unqueued = k.unqueued }) (omega arith) (omega arith)

  -- Without a time, `process_time_queue` only sets the clock: no queued block is added, however
  -- old it is.
  pub process_time_queue-none :
      (depth now : ℕ) (c : Chain p)
      → process_time_queue p f depth now none c ≡ (ok true, record c { localtime = now })
  unfolding process_time_queue drain
  process_time_queue-none depth now c = elim (Option-cases (get_elem? c.time_queue 0)) [
    | inl e ↦ rw (e, drain) refl
    | inr (b, e) ↦ rw (e, drain) refl
  ]
