-- ===== src/Chain/TimeQueue.antt =====
-- The blocks that came too early are kept by their time.
use blockchain_mapping_syste.Prelude.{
  ℕ, zero, suc, ◌≤◌, ◌≡◌, Option, List, [], ◌∷◌, inl, inr, ltb, arith, Bool-cases,
}
use blockchain_mapping_syste.Block.{Block}
use blockchain_mapping_syste.Apply.{Platform}
use blockchain_mapping_syste.Chain.{
  Formats, Chain, insert_by_time, remove_at, add_child, extend_head, record_block, wait_for_parent,
  add_block, process_time_queue, get_blockhash_by_number,
}
use blockchain_mapping_syste.Chain.Invariants.{
  IsChainInvariant, add_block-Keeps, process_time_queue-Keeps,
}

-- Every block of the list is as late as `t`.
abbrev pub AllFrom : ℕ → List Block → Type 0
AllFrom t [] = Unit
AllFrom t (b ∷ l) = (t ≤ b.header.timestamp) × AllFrom t l

abbrev pub IsSorted : List Block → Type 0
IsSorted [] = Unit
IsSorted (b ∷ l) = AllFrom b.header.timestamp l × IsSorted l

AllFrom-trans : (t u : ℕ) (l : List Block) → t ≤ u → AllFrom u l → AllFrom t l
AllFrom-trans t u [] h a = tt
AllFrom-trans t u (b ∷ l) h a = (omega arith, AllFrom-trans t u l h a.1)

AllFrom-insert :
    (t : ℕ) (b : Block) (l : List Block)
    → t ≤ b.header.timestamp
    → AllFrom t l
    → AllFrom t (insert_by_time b l)
unfolding insert_by_time
AllFrom-insert t b [] h a = (h, tt)
AllFrom-insert t b (x ∷ l) h a = elim (Bool-cases (ltb x.header.timestamp b.header.timestamp)) [
  | inl e ↦ rw e (a.0, AllFrom-insert t b l h a.1)
  | inr e ↦ rw e (h, a)
]

insert_by_time-IsSorted : (b : Block) (l : List Block) → IsSorted l → IsSorted (insert_by_time b l)
unfolding insert_by_time
insert_by_time-IsSorted b [] s = (tt, tt)
insert_by_time-IsSorted b (x ∷ l) s =
    elim (Bool-cases (ltb x.header.timestamp b.header.timestamp)) [
      | inl e ↦ rw e (
        AllFrom-insert x.header.timestamp b l (ground arith) s.0,
        insert_by_time-IsSorted b l s.1,
      )
      | inr e ↦ rw e (
        (ground arith, AllFrom-trans b.header.timestamp x.header.timestamp l (ground arith) s.0),
        s,
      )
    ]

AllFrom-remove_at : (t i : ℕ) (l : List Block) → AllFrom t l → AllFrom t (remove_at i l)
unfolding remove_at
AllFrom-remove_at t i [] a = tt
AllFrom-remove_at t zero (x ∷ l) a = a.1
AllFrom-remove_at t (suc i) (x ∷ l) a = (a.0, AllFrom-remove_at t i l a.1)

remove_at-IsSorted : (i : ℕ) (l : List Block) → IsSorted l → IsSorted (remove_at i l)
unfolding remove_at
remove_at-IsSorted i [] s = tt
remove_at-IsSorted zero (x ∷ l) s = s.1
remove_at-IsSorted (suc i) (x ∷ l) s =
    (AllFrom-remove_at x.header.timestamp i l s.0, remove_at-IsSorted i l s.1)

module _ (p : Platform) (f : Formats p) where
  -- The two steps of a block on the head leave both queues alone.
  pub record SameQueues (c c' : Chain p) : Type 0 where
    pub times : c'.time_queue ≡ c.time_queue
    pub parents : c'.parent_queue ≡ c.parent_queue

  pub extend_head-SameQueues : (b : Block) (c : Chain p) → SameQueues c (extend_head p f b c).1
  unfolding extend_head get_blockhash_by_number
  extend_head-SameQueues b c = ground arith

  pub record_block-SameQueues : (b : Block) (c : Chain p) → SameQueues c (record_block p f b c)
  unfolding record_block add_child
  record_block-SameQueues b c = ground arith

  sorted : IsChainInvariant p f (λ c. IsSorted c.time_queue)
  unfolding wait_for_parent
  sorted = record {
    validates = λ b c s. s;
    delays = λ b c s. insert_by_time-IsSorted b c.time_queue s;
    extends = λ b c s. rw (extend_head-SameQueues b c).times s;
    records = λ b c s. rw (record_block-SameQueues b c).times s;
    waits = λ b c s v e. s;
    releases = λ h c s. s;
  }

  -- A time queue in the order of the timestamps is so after `process_time_queue`, whatever it
  -- adds, and whether it returns or raises.
  pub process_time_queue-IsSorted :
      (depth now : ℕ) (new_time : Option ℕ) (c : Chain p)
      → IsSorted c.time_queue
      → IsSorted (process_time_queue p f depth now new_time c).1.time_queue
  process_time_queue-IsSorted depth now new_time c s =
      (process_time_queue-Keeps p f (λ c'. IsSorted c'.time_queue) sorted
          (λ j c' s'. remove_at-IsSorted j c'.time_queue s') depth now new_time
          (λ n c' s'. s')).keeps
        c s

  -- A time queue in the order of the timestamps is so after `add_block`, whether it returns or
  -- raises.
  pub add_block-IsSorted :
      (depth now : ℕ) (b : Block) (c : Chain p)
      → IsSorted c.time_queue
      → IsSorted (add_block p f depth now b c).1.time_queue
  add_block-IsSorted depth now b c s =
      (add_block-Keeps p f (λ c'. IsSorted c'.time_queue) sorted depth now b).keeps c s
