-- ===== src/Chain/Adding.antt =====
-- What `add_block` does to a chain whose head is the last header of its state.
use blockchain_mapping_syste.Prelude.{
  ℕ, suc, ◌≤◌, ◌<◌, true, false, some, [], ◌++◌, Bytes, bytes_eq, bytes_beq_sound, ==_refl, ◌==◌,
  ◌≡◌, refl, ap, ◌∙◌, inl, inr, arith, ltb, ltb→lt, Bool, Bool-cases, Option-cases, Result-cases,
  Result, Error, ok, err, length,
}
use blockchain_mapping_syste.Prelude.Exec.{pure, modify, ◌>>=◌, ◌>>◌}
use blockchain_mapping_syste.Prelude.Dict.{lookup, insert, lookup-insert}
use blockchain_mapping_syste.Block.{Block}
use blockchain_mapping_syste.Apply.{Platform, validate_block}
use blockchain_mapping_syste.Chain.{
  Formats, Chain, block_key, child_key, changed_key, head_hash_key, genesis_text, insert_by_time,
  join_keys, child_text, hash_of, extend_head, record_block, add_child, release, place_block,
  add_block, get_blockhash_by_number, get_block, read_block, get_block_by_number,
}
use blockchain_mapping_syste.Chain.Invariants.{validated, IsValidated}
use blockchain_mapping_syste.Chain.TimeQueue.{extend_head-SameQueues, record_block-SameQueues}
use blockchain_mapping_syste.Chain.Sync.{IsSynced, on_head}

module _ (p : Platform) (f : Formats p) where
  abbrev extended : Block → Chain p → Result (Unit {0}) × Chain p
  extended b c = extend_head p f b (validated p f b c)

  -- The ways a call can end.
  pub data Outcome (now : ℕ) (b : Block) (c : Chain p) : Result Bool × Chain p → Type 0 where
    invalid : Outcome now b c (ok false, validated p f b c)
    early :
        now < b.header.timestamp
        → Outcome now b c
            (ok false, record (validated p f b c) { time_queue = insert_by_time b c.time_queue })
    failed : (e : Error) (c' : Chain p) → extended b c ≡ (err e, c') → Outcome now b c (err e, c')
    added :
        (c' : Chain p)
        → b.header.timestamp ≤ now
        → b.header.prevhash ≡ c.head_hash
        → extended b c ≡ (ok tt, c')
        → Outcome now b c (ok true, record_block p f b c')

  release_none :
      (add : Block → Chain p → Result Bool × Chain p) (h : Bytes) (c : Chain p)
      → c.parent_queue ≡ []
      → release p f add h c ≡ (ok tt, c)
  unfolding release
  release_none add h c e = ground arith

  finish_outcome :
      (now : ℕ) (b : Block) (c d : Chain p) (q : Result (Unit {0}) × Chain p)
      → q ≡ (ok tt, d)
      → Outcome now b c (ok true, d)
      → Outcome now b c (((λ (_ : Chain p). q) >> pure true) d)
  unfolding ◌>>=◌
  finish_outcome now b c d (err e, d') h o = cc
  finish_outcome now b c d (ok u, d') h o = let e : d' ≡ d = cc in rw e o

  -- The calls after `extend_head`.
  ended :
      (add : Block → Chain p → Result Bool × Chain p) (now : ℕ) (b : Block) (c : Chain p)
      (q : Result (Unit {0}) × Chain p)
      → extended b c ≡ q
      → q.1.parent_queue ≡ []
      → b.header.timestamp ≤ now
      → b.header.prevhash ≡ c.head_hash
      → Outcome now b c (
          ((λ _. q) >>= λ _.
          modify (record_block p f b) >> (release p f add (hash_of p f b) >> pure true))
            (validated p f b c))
  unfolding ◌>>=◌
  ended add now b c (err e, c') h alone due on = failed e c' h
  ended add now b c (ok u, c') h alone due on =
      let alone' = (record_block-SameQueues p f b c').parents ∙ alone in
      finish_outcome now b c (record_block p f b c')
        (release p f add (hash_of p f b) (record_block p f b c'))
        (release_none add (hash_of p f b) (record_block p f b c') alone') (added c' due on h)

  placed :
      (add : Block → Chain p → Result Bool × Chain p) (now : ℕ) (b : Block) (c : Chain p)
      → IsSynced p f c
      → IsValidated p f b c
      → Outcome now b c (place_block p f add now b (validated p f b c))
  unfolding place_block ◌>>=◌
  placed add now b c k v = elim (Bool-cases (ltb now b.header.timestamp)) [
    | inl late ↦ rw late (early (ltb→lt _ _ late))
    | inr due ↦
        let on = on_head p f b c k v in
        let on' : (b.header.prevhash == c.head_hash) ≡ true = rw on (==_refl c.head_hash) in
        let alone = (extend_head-SameQueues p f b (validated p f b c)).parents ∙ k.unqueued in
        rw (due, on') (ended add now b c (extended b c) refl alone (ground arith) on)
  ]

  -- Every call ends in one of them.
  pub add_block-Outcome :
      (depth now : ℕ) (b : Block) (c : Chain p)
      → IsSynced p f c
      → Outcome now b c (add_block p f (suc depth) now b c)
  unfolding add_block
  add_block-Outcome depth now b c k = elim (Result-cases (validate_block p b c.state).0) [
    | inl (_, v) ↦ rw (v, add_block) (placed (add_block p f depth now) now b c k v)
    | inr (x, v) ↦ rw (v, add_block) invalid
  ]

  -- The block is the new head, and can be read back by its number and by its hash.
  pub record IsAdded (now : ℕ) (b : Block) (c c' : Chain p) : Type 0 where
    pub due : b.header.timestamp ≤ now
    pub on_head : b.header.prevhash ≡ c.head_hash
    pub head : c'.head_hash ≡ hash_of p f b
    pub number : c'.state.vars.block_number ≡ b.header.number
    pub stored : get_block p f (hash_of p f b) c' ≡ ok b
    pub numbered : get_block_by_number p f b.header.number c' ≡ ok b

  -- What the encoding of a block must do for the block to be read back: it decodes to the block, it
  -- is not the text that marks the genesis block, and the hash is not the key of the block's number.
  pub record IsReadable (b : Block) : Type 0 where
    pub decodes : f.decode_block (f.encode_block b) ≡ some b
    pub proper : (f.encode_block b == genesis_text) ≡ false
    pub apart : (hash_of p f b == block_key b.header.number) ≡ false

  longer : (h : Bytes) → (changed_key h == h) ≡ false
  longer h = elim (Bool-cases (changed_key h == h)) [
    | inl e ↦ absurd (omega (arith, ap length (bytes_beq_sound (changed_key h) h e)))
    | inr e ↦ e
  ]

  read_written :
      (b : Block) (c : Chain p)
      → IsReadable b
      → get_block p f (hash_of p f b) (record_block p f b c) ≡ ok b
  unfolding get_block read_block record_block add_child
  read_written b c r = ground (
    arith,
    lookup-insert (changed_key (hash_of p f b)) (hash_of p f b) (join_keys c.state.changed) (
        insert (hash_of p f b) (f.encode_block b)
          (insert head_hash_key c.head_hash (add_child p b c).db)),
    lookup-insert (hash_of p f b) (hash_of p f b) (f.encode_block b)
        (insert head_hash_key c.head_hash (add_child p b c).db),
    longer (hash_of p f b),
    ==_refl (hash_of p f b),
  )

  child_apart :
      (b : Block) (c : Chain p) (n : ℕ)
      → lookup (block_key n) (add_child p b c).db ≡ lookup (block_key n) c.db
  unfolding add_child
  child_apart b c n = ground (
    arith,
    lookup-insert (child_key b.header.prevhash) (block_key n)
        (child_text p b.header.prevhash c ++ hash_of p f b) c.db,
  )

  named :
      (b : Block) (c : Chain p)
      → IsReadable b
      → lookup (block_key b.header.number) (record_block p f b c).db
        ≡ lookup (block_key b.header.number) c.db
  unfolding record_block
  named b c r =
      let key = block_key b.header.number in
      let db = insert head_hash_key c.head_hash (add_child p b c).db in
      let db' = insert (hash_of p f b) (f.encode_block b) db in
      lookup-insert (changed_key (hash_of p f b)) key (join_keys c.state.changed) db'
      ∙ lookup-insert (hash_of p f b) key (f.encode_block b) db
      ∙ rw r.apart (
          lookup-insert head_hash_key key c.head_hash (add_child p b c).db
          ∙ child_apart b c b.header.number)

  -- The entry of the number and the head, as `extend_head` leaves them when it returns.
  pub record IsHead (b : Block) (c c' : Chain p) : Type 0 where
    pub head : c'.head_hash ≡ hash_of p f b
    pub entry : get_blockhash_by_number p b.header.number c' ≡ some (hash_of p f b)

  extend_head-IsHead :
      (b : Block) (c c' : Chain p) → extend_head p f b c ≡ (ok tt, c') → IsHead b c c'
  unfolding extend_head
  extend_head-IsHead b c c' h = elim (Option-cases (get_blockhash_by_number p b.header.number c')) [
    | inl e ↦ ground arith
    | inr (x, e) ↦ ground (arith, bytes_beq_sound x (hash_of p f b))
  ]

  record_block-number :
      (b : Block) (c : Chain p) → (record_block p f b c).state.vars.block_number ≡ b.header.number
  unfolding record_block
  record_block-number b c = refl

  record_block-head : (b : Block) (c : Chain p) → (record_block p f b c).head_hash ≡ c.head_hash
  unfolding record_block add_child
  record_block-head b c = ground arith

  read_named :
      (b : Block) (c : Chain p)
      → IsReadable b
      → get_blockhash_by_number p b.header.number c ≡ some (hash_of p f b)
      → get_block_by_number p f b.header.number (record_block p f b c) ≡ ok b
  unfolding get_block_by_number get_blockhash_by_number
  read_named b c r h = rw (get_block_by_number, named b c r, h) (read_written b c r)

  IsAdded-of :
      (now : ℕ) (b : Block) (c : Chain p) (q : Result Bool × Chain p)
      → IsReadable b
      → Outcome now b c q
      → q.0 ≡ ok true
      → IsAdded now b c q.1
  IsAdded-of now b c q r invalid h = cc
  IsAdded-of now b c q r (early late) h = cc
  IsAdded-of now b c q r (failed e c' x) h = cc
  IsAdded-of now b c q r (added c' due on x) h =
      let k = extend_head-IsHead b (validated p f b c) c' x in
      record {
        due = due;
        on_head = on;
        head = record_block-head b c' ∙ k.head;
        number = record_block-number b c';
        stored = read_written b c' r;
        numbered = read_named b c' r k.entry;
      }

  -- From a synced chain, when `add_block` returns true, the timestamp of the block is not later
  -- than the clock, its parent was the head, and it is the new head: its number is the state's,
  -- and `get_block` of its hash and `get_block_by_number` of its number return it. The encoding
  -- of the block must be readable.
  pub add_block-IsAdded :
      (depth now : ℕ) (b : Block) (c : Chain p)
      → IsSynced p f c
      → IsReadable b
      → (add_block p f (suc depth) now b c).0 ≡ ok true
      → IsAdded now b c (add_block p f (suc depth) now b c).1
  add_block-IsAdded depth now b c k r h =
      IsAdded-of now b c _ r (add_block-Outcome depth now b c k) h
