-- ===== src/Chain/Queries.antt =====
-- chain.py: the queries that walk over several blocks.
use blockchain_mapping_syste.Prelude.{
  ℕ, zero, suc, ◌-◌, Bool, true, false, Option, none, some, List, [], ◌∷◌, Bytes, bytes_eq, ◌==◌,
  nat_beq, get_elem?, if◌then◌else◌, Result, ok, err, key_error, type_error, index_error, exception,
  or_raise, ◌>>=◌, ◌≡◌, ==_refl,
}
use blockchain_mapping_syste.Prelude.Dict.{lookup}
use blockchain_mapping_syste.Transaction.{Transaction}
use blockchain_mapping_syste.Block.{Block}
use blockchain_mapping_syste.Apply.{Platform}
use blockchain_mapping_syste.Chain.{
  Formats, Chain, genesis_number_key, get_block, get_blockhash_by_number, get_child_hashes,
  get_block_by_number, get_tx_position, hash_of, add_block,
}
use blockchain_mapping_syste.Chain.Sync.{IsSynced}
use blockchain_mapping_syste.Chain.Adding.{IsReadable, add_block-IsAdded}

module _ (p : Platform) (f : Formats p) where
  -- `[self.get_block(h) for h in hashes]`
  unfoldable pub get_blocks : List Bytes → Chain p → Result (List Block)
  get_blocks [] c = ok []
  get_blocks (h ∷ l) c =
      let rest = get_blocks l c in
      elim (get_block p f h c) [
        | err e ↦ err e
        | ok b ↦ elim rest [ err e ↦ err e | ok bs ↦ ok (b ∷ bs) ]
      ]

  unfoldable pub get_children : Block → Chain p → Result (List Block)
  unfolding get_blocks
  get_children b c = get_blocks (get_child_hashes p (hash_of p f b) c) c

  -- `blk in self`, for a block: the block of its number has its hash.
  unfoldable pub contains : Block → Chain p → Bool
  contains blk c = elim (get_block_by_number p f blk.header.number c) [
    | err _ ↦ false
    | ok b ↦ hash_of p f b == hash_of p f blk
  ]

  -- `blk in self`, for a hash.
  unfoldable pub contains_hash : Bytes → Chain p → Bool
  unfolding contains
  contains_hash h c = elim (lookup h c.db) [
    | none ↦ false
    | some text ↦ elim (f.decode_block text) [ none ↦ false | some blk ↦ contains blk c ]
  ]

  -- The loop of `get_chain`, over so many numbers; past the last one it returns `None`.
  unfoldable pub chain_from : ℕ → ℕ → Chain p → Result (Option (List Block))
  chain_from zero number c = ok none
  chain_from (suc n) number c =
      let rest = chain_from n (suc number) c in
      elim (get_blockhash_by_number p number c) [
        | none ↦ ok (some [])
        | some [] ↦ ok (some [])
        | some (x ∷ h) ↦ elim (get_block p f (x ∷ h) c) [
          | err e ↦ err e
          | ok b ↦ elim rest [ err e ↦ err e | ok none ↦ ok none | ok (some l) ↦ ok (some (b ∷ l)) ]
        ]
      ]

  unfoldable pub get_chain : Option ℕ → ℕ → Chain p → Result (Option (List Block))
  unfolding chain_from
  get_chain (some frm) to c = chain_from (to - frm) frm c
  get_chain none to c = do
    text ← or_raise (lookup genesis_number_key c.db) key_error
    number ← or_raise (f.number_of text) exception
    chain_from (to - suc number) (suc number) c

  -- `None` has no parts.
  unfoldable pub get_transaction : Transaction → Chain p → Result (Transaction × Block × ℕ)
  get_transaction tx c = do
    position ← get_tx_position p f tx c
    place ← or_raise position type_error
    blk ← get_block_by_number p f place.0 c
    found ← or_raise (get_elem? blk.transactions place.1) index_error
    ok (found, blk, place.1)

  -- The loop back over the parents.
  unfoldable pub parent_hashes : ℕ → Block → Chain p → Result (List Bytes)
  parent_hashes zero b c = ok []
  parent_hashes (suc n) b c = do
    parent ← get_block p f b.header.prevhash c
    rest ← (if nat_beq parent.header.number 0 then ok [] else parent_hashes n parent c)
    ok (hash_of p f parent ∷ rest)

  unfoldable pub get_blockhashes_from_hash : Bytes → ℕ → Chain p → Result (List Bytes)
  unfolding parent_hashes
  get_blockhashes_from_hash hash max c = do b ← get_block p f hash c; parent_hashes max b c

  -- From a synced chain, when `add_block` returns true for a block whose encoding is readable,
  -- the chain contains the block.
  pub contains-add_block :
      (depth now : ℕ) (b : Block) (c : Chain p)
      → IsSynced p f c
      → IsReadable p f b
      → (add_block p f (suc depth) now b c).0 ≡ ok true
      → contains b (add_block p f (suc depth) now b c).1 ≡ true
  unfolding contains
  contains-add_block depth now b c s r h =
      let k = add_block-IsAdded p f depth now b c s r h in
      rw (k.numbered, contains) (==_refl (hash_of p f b))
