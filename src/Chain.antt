-- ===== src/Chain.antt =====
-- chain.py: the store of blocks and the head of the chain. Keys and Store hold the database, Poststate
-- builds the state after a stored block, and this file adds blocks.
mod Keys
mod Store
mod Poststate
pub mod Invariants
pub mod TimeQueue
pub mod Headers
pub mod Sync
pub mod Adding
pub mod Draining
pub mod Refusing
pub mod Children
pub mod Queries
unfoldable pub use Keys.{
  decimal, block_key, child_key, txindex_key, changed_key, head_hash_key, genesis_text,
  genesis_state_key, genesis_number_key,
}
pub use Store.{Formats, Chain, Dump}
unfoldable pub use Store.{
  read_block, get_block, get_blockhash_by_number, get_block_by_number, chunks, get_child_hashes,
  child_text, has_hash, chunks_of, add_child, get_tx_position, index_transactions, has_blockhash,
  get_head_block, get_parent,
}
unfoldable pub use Poststate.{from_snapshot, mk_poststate_of_blockhash}
use blockchain_mapping_syste.Prelude.{
  ℕ, zero, suc, ◌+◌, Bool, true, false, ◌&&◌, Option, none, some, List, [], ◌∷◌, ◌++◌, Bytes,
  bytes_eq, ◌==◌, length, leb, ltb, nat_beq, get_elem?, if◌then◌else◌, Result, ok, err, exception,
  assertion_error, key_error, raise_if, not,
}
use blockchain_mapping_syste.Prelude.Exec.{Exec, pure, lift, gets, modify, ◌>>=◌, ◌>>◌}
use blockchain_mapping_syste.Prelude.Dict.{Dict, lookup, insert, erase, has_key}
use blockchain_mapping_syste.Block.{Block}
use blockchain_mapping_syste.Apply.{Platform, ChainState, validate_block, apply_block}

-- The loop and the `insert` of `add_block`, on a block that comes too early.
unfoldable pub insert_by_time : Block → List Block → List Block
insert_by_time b [] = b ∷ []
insert_by_time b (x ∷ queue) =
    if ltb x.header.timestamp b.header.timestamp then x ∷ insert_by_time b queue else b ∷ x ∷ queue

-- What `l.pop(i)` leaves.
unfoldable pub remove_at : ℕ → List Block → List Block
remove_at i [] = []
remove_at zero (x ∷ l) = l
remove_at (suc i) (x ∷ l) = x ∷ remove_at i l

-- `b''.join(changed.keys())`
unfoldable pub join_keys : Dict Bytes Bool → Bytes
join_keys [] = []
join_keys ((k, _) ∷ d) = k ++ join_keys d

module _ (p : Platform) (f : Formats p) where
  abbrev pub hash_of : Block → Bytes
  hash_of b = p.header_hash b.header

  -- A call on the state of the chain alone.
  abbrev pub on_chain_state : {A : Type 0} → Exec (ChainState p) A → Exec (Chain p) A
  on_chain_state m c = let (r, s) = m c.state in (r, record c { state = s })

  -- `self.state.deletes` is read nowhere.
  abbrev pub forget_changed : ChainState p → ChainState p
  forget_changed s = record s { changed = [] }

  -- The branch of a block on the head, to the assertion. `patricia.to_db` writes a file.
  unfoldable pub extend_head : Block → Exec (Chain p) (Unit {0})
  unfolding index_transactions get_blockhash_by_number
  extend_head b c =
      let (r, s, tree) = apply_block p b (forget_changed c.state) c.patricia in
      let c' = record c { state = s; patricia = tree } in
      elim r [
        | err e ↦ (err e, c')
        | ok _ ↦
            let db = insert (block_key b.header.number) (hash_of b) c.db in
            let db' = index_transactions p f b.header.number 0 b.transactions db in
            let c'' = record c' { db = db'; head_hash = hash_of b } in
            elim (get_blockhash_by_number p b.header.number c'') [
              | none ↦ (err assertion_error, c'')
              | some h ↦ if h == hash_of b then (ok tt, c'') else (err assertion_error, c'')
            ]
      ]

  -- From `add_child` to the new block number. `changed` is that of the state, and there is no
  -- callback `new_head_cb`.
  unfoldable pub record_block : Block → Chain p → Chain p
  unfolding add_child join_keys
  record_block b c =
      let c' = add_child p b c in
      let db = insert head_hash_key c.head_hash c'.db in
      let db' = insert (hash_of b) (f.encode_block b) db in
      record c' {
        db = insert (changed_key (hash_of b)) (join_keys c.state.changed) db';
        state = record c.state { vars = record c.state.vars { block_number = b.header.number } };
      }

  -- `for _blk in self.parent_queue[...]: self.add_block(_blk)`
  unfoldable pub add_each : (Block → Exec (Chain p) Bool) → List Block → Exec (Chain p) (Unit {0})
  add_each add [] = pure tt
  add_each add (b ∷ l) = do add b; add_each add l

  -- The blocks that waited for this one.
  unfoldable pub release : (Block → Exec (Chain p) Bool) → Bytes → Exec (Chain p) (Unit {0})
  unfolding add_each
  release add hash c = elim (lookup hash c.parent_queue) [
    | none ↦ (ok tt, c)
    | some l ↦
        (do
          add_each add l
          c' ← gets (λ c'. c')
          lift (raise_if (not (has_key hash c'.parent_queue)) key_error)
          modify (λ c''. record c'' { parent_queue = erase hash c''.parent_queue }))
          c
  ]

  -- A block with no parent in the database.
  unfoldable pub wait_for_parent : Block → Chain p → Chain p
  wait_for_parent b c =
      let waiting : List Block = elim (lookup b.header.prevhash c.parent_queue) [
        | none ↦ []
        | some l ↦ l
      ] in
      record c { parent_queue = insert b.header.prevhash (waiting ++ b ∷ []) c.parent_queue }

  -- `apply_block(temp_state, block)` lacks an argument, and the `TypeError` is caught.
  unfoldable pub add_to_side : Block → Exec (Chain p) Bool
  unfolding mk_poststate_of_blockhash
  add_to_side b c = elim (mk_poststate_of_blockhash p f b.header.prevhash c) [
    | err e ↦ (err e, c)
    | ok _ ↦ (ok false, c)
  ]

  -- `add_block` below the validation. `now` is `int(time.time())`, taken once.
  unfoldable pub place_block : (Block → Exec (Chain p) Bool) → ℕ → Block → Exec (Chain p) Bool
  unfolding insert_by_time extend_head record_block release wait_for_parent add_to_side
  place_block add now b c =
      if ltb now b.header.timestamp
      then (ok false, record c { time_queue = insert_by_time b c.time_queue })
      else if b.header.prevhash == c.head_hash
      then (do extend_head b; modify (record_block b); release add (hash_of b); pure true) c
      else if has_key b.header.prevhash c.db
      then add_to_side b c
      else (ok false, wait_for_parent b c)

  -- `depth` is what is left of Python's recursion limit, past which it raises a `RuntimeError`.
  unfoldable pub add_block : ℕ → ℕ → Block → Exec (Chain p) Bool
  unfolding place_block
  add_block zero now b c = (err exception, c)
  add_block (suc depth) now b c =
      let (r, s) = validate_block p b c.state in
      let c' = record c { state = s } in
      let add = add_block depth now in
      elim r [ err _ ↦ (ok false, c') | ok _ ↦ place_block add now b c' ]

  -- `self.time_queue[i].timestamp <= new_time`; no number is at most `None`.
  abbrev pub is_due : Option ℕ → Block → Bool
  is_due none b = false
  is_due (some t) b = leb b.header.timestamp t

  -- The loop of `process_time_queue`; the result tells whether its own test has ended it.
  unfoldable pub drain : ℕ → ℕ → ℕ → Option ℕ → ℕ → Exec (Chain p) Bool
  unfolding remove_at
  drain zero depth now new_time i c = (ok false, c)
  drain (suc fuel) depth now new_time i c = elim (get_elem? c.time_queue i) [
    | none ↦ (ok true, c)
    | some b ↦ elim (is_due new_time b) [
      | false ↦ (ok true, c)
      | true ↦
          (do
            add_block depth now b
            c' ← gets (λ c'. c')
            drain fuel depth now new_time
                (if nat_beq (length c'.time_queue) (length c.time_queue) then i + 1 else i))
            (record c { time_queue = remove_at i c.time_queue })
    ]
  ]

  -- One round more than there are blocks.
  unfoldable pub process_time_queue : ℕ → ℕ → Option ℕ → Exec (Chain p) Bool
  unfolding drain
  process_time_queue depth now new_time c =
      drain (suc (length c.time_queue)) depth now new_time 0
        (record c { localtime = elim new_time [ none ↦ now | some t ↦ t ] })
