-- ===== src/Chain/Store.antt =====
-- chain.py: what the database holds, and the methods that read it. The database is the map that
-- LevelDB with its uncommitted writes implements.
use blockchain_mapping_syste.Prelude.{
  ℕ, zero, suc, ◌+◌, Bool, false, ◌||◌, Option, none, some, List, [], ◌∷◌, ◌++◌, Bytes, bytes_eq,
  ◌==◌, length, take, drop, if◌then◌else◌, Result, ok, err, exception, key_error, type_error,
  nat_beq, or_raise, ◌>>=◌,
}
use blockchain_mapping_syste.Prelude.Dict.{Dict, lookup, insert, has_key}
use blockchain_mapping_syste.Balance.{Balance}
use blockchain_mapping_syste.Transaction.{Transaction}
use blockchain_mapping_syste.Block.{PrevHeader, Block}
use blockchain_mapping_syste.MapReply.{Net}
use blockchain_mapping_syste.Apply.{Platform, ChainState}
use blockchain_mapping_syste.Chain.Keys.{
  block_key, child_key, txindex_key, genesis_text, genesis_number_key,
}

-- A snapshot that json has read, each entry parsed; an entry may be missing.
pub record Dump (p : Platform) : Type 0 where
  pub alloc : Option (Dict Bytes (Option (Balance p.netaddr) × Option ℕ))
  pub state_root : Option p.trie.Root
  pub txindex : Option ℕ
  pub block_number : Option ℕ
  pub block_coinbase : Option Bytes
  pub timestamp : Option ℕ
  pub prev_headers : Option (List PrevHeader)

-- The rlp and json packages, and the trie of the state.
pub record Formats (p : Platform) : Type 0 where
  -- `rlp.encode(block)`, and `rlp.decode(b, Block)`, which may raise
  pub encode_block : Block → Bytes
  pub decode_block : Bytes → Option Block
  -- `rlp.encode([number, i])`, and both elements read back as numbers
  pub encode_position : ℕ → ℕ → Bytes
  pub decode_position : Bytes → Option (ℕ × ℕ)
  -- `json.loads`
  pub load_dump : Bytes → Option (Dump p)
  -- `int(text)`
  pub number_of : Bytes → Option ℕ
  -- `state.trie.root_hash = h`, and the root hash of a trie
  pub root_of : Bytes → p.trie.Root
  pub hash_of_root : p.trie.Root → Bytes
  -- `trie.to_dict().keys()`
  pub keys : p.trie.Root → List Bytes
  -- `==` of two transactions, which compares what rlp encodes
  pub same_tx : Transaction → Transaction → Bool
  -- `IPNetwork(text)`, `str(IPNetwork(text).ip)`, and a network of netaddr as map replies take it
  pub network_of : Bytes → Option Net
  pub ip_text : Bytes → Option Bytes
  pub reply_net : p.netaddr.Net → Net

-- `genesis` is set when the chain is made.
pub record Chain (p : Platform) : Type 0 where
  pub state : ChainState p
  pub patricia : p.Tree
  pub db : Dict Bytes Bytes
  pub genesis : Block
  pub head_hash : Bytes
  pub time_queue : List Block
  pub parent_queue : Dict Bytes (List Block)
  pub localtime : ℕ

-- The slices of 32 bytes of a text, by fuel.
unfoldable pub chunks_of : ℕ → Bytes → List Bytes
chunks_of zero s = []
chunks_of (suc fuel) [] = []
chunks_of (suc fuel) (b ∷ s) = take 32 (b ∷ s) ∷ chunks_of fuel (drop 32 (b ∷ s))

-- `for i in range(0, len(s), 32)`; there are at most as many slices as bytes.
unfoldable pub chunks : Bytes → List Bytes
unfolding chunks_of
chunks s = chunks_of (length s) s

-- `h in hashes`
abbrev pub has_hash : Bytes → List Bytes → Bool
has_hash h [] = false
has_hash h (x ∷ l) = x == h || has_hash h l

module _ (p : Platform) (f : Formats p) where
  -- `rlp.decode(self.db.get(h), Block)`, or the genesis block.
  unfoldable pub read_block : Block → Bytes → Result Block
  read_block genesis block_rlp =
      if block_rlp == genesis_text
      then ok genesis
      else or_raise (f.decode_block block_rlp) exception

  unfoldable pub get_block : Bytes → Chain p → Result Block
  unfolding read_block
  get_block blockhash c = do
    block_rlp ← or_raise (lookup blockhash c.db) key_error
    read_block c.genesis block_rlp

module _ (p : Platform) where
  unfoldable pub get_blockhash_by_number : ℕ → Chain p → Option Bytes
  get_blockhash_by_number number c = lookup (block_key number) c.db

  -- `key in self.db`
  unfoldable pub has_blockhash : Bytes → Chain p → Bool
  has_blockhash h c = has_key h c.db

  unfoldable pub get_child_hashes : Bytes → Chain p → List Bytes
  unfolding chunks
  get_child_hashes h c = elim (lookup (child_key h) c.db) [ none ↦ [] | some s ↦ chunks s ]

  -- The hashes of the children that are known, joined.
  unfoldable pub child_text : Bytes → Chain p → Bytes
  child_text h c = elim (lookup (child_key h) c.db) [ none ↦ [] | some s ↦ s ]

  unfoldable pub add_child : Block → Chain p → Chain p
  unfolding chunks child_text
  add_child b c =
      let key = child_key b.header.prevhash in
      let existing = child_text b.header.prevhash c in
      if has_hash (p.header_hash b.header) (chunks existing)
      then c
      else record c { db = insert key (existing ++ p.header_hash b.header) c.db }

module _ (p : Platform) (f : Formats p) where
  -- LevelDB refuses the key `None`.
  unfoldable pub get_block_by_number : ℕ → Chain p → Result Block
  unfolding get_blockhash_by_number get_block
  get_block_by_number number c = elim (get_blockhash_by_number p number c) [
    | none ↦ err type_error
    | some h ↦ get_block p f h c
  ]

  -- The head block, `None` where it cannot be read.
  unfoldable pub get_head_block : Chain p → Option Block
  unfolding get_block
  get_head_block c = elim (get_block p f c.head_hash c) [ ok b ↦ some b | err _ ↦ none ]

  unfoldable pub get_parent : Block → Chain p → Result (Option Block)
  unfolding get_block
  get_parent b c = do
    text ← or_raise (lookup genesis_number_key c.db) key_error
    number ← or_raise (f.number_of text) exception
    if nat_beq number b.header.number
        then ok none
        else elim (get_block p f b.header.prevhash c) [ ok a ↦ ok (some a) | err e ↦ err e ]

  -- The loop of `add_block` over the transactions, from the index `i` on.
  unfoldable pub index_transactions : ℕ → ℕ → List Transaction → Dict Bytes Bytes → Dict Bytes Bytes
  index_transactions number i [] db = db
  index_transactions number i (tx ∷ txs) db =
      index_transactions number (i + 1) txs
        (insert (txindex_key (p.tx_crypto.hash tx)) (f.encode_position number i) db)

  -- `get_tx_position` of a transaction.
  unfoldable pub get_tx_position : Transaction → Chain p → Result (Option (ℕ × ℕ))
  get_tx_position tx c = elim (lookup (txindex_key (p.tx_crypto.hash tx)) c.db) [
    | none ↦ ok none
    | some s ↦ elim (f.decode_position s) [ none ↦ err exception | some q ↦ ok (some q) ]
  ]
