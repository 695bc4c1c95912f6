-- ===== src/ChainService/Creation.antt =====
-- chain_service.py: the creation of a block from the pool. `to_snapshot` and `clone` are those of state.py.
use blockchain_mapping_syste.Prelude.{
  ℕ, ◌+◌, ◌%◌, Bool, true, false, not, ◌&&◌, Option, none, some, List, [], ◌∷◌, Bytes, bytes_eq,
  take, nat_beq, if◌then◌else◌, Result, ok, err, exception, zero_division_error, assertion_error,
  dkg_block_requires_group_key, or_raise,
}
use blockchain_mapping_syste.Prelude.Exec.{Exec, lift, call, gets, ◌>>=◌, ◌>>◌}
use blockchain_mapping_syste.Prelude.Dict.{Dict}
use blockchain_mapping_syste.Utils.{normalize_address, encode_hex, remove_0x_head}
use blockchain_mapping_syste.Balance.{Balance}
use blockchain_mapping_syste.State.{Account, init, get_and_cache_account}
use blockchain_mapping_syste.Transaction.{Transaction}
use blockchain_mapping_syste.Block.{BlockHeader, Block}
use blockchain_mapping_syste.Apply.{Platform, ChainState, blank, apply_transaction}
use blockchain_mapping_syste.Chain.{Formats, Chain, Dump, from_snapshot, process_time_queue}
use blockchain_mapping_syste.ChainService.Pool.{Service, on_chain, on_state, afi_of_number}

-- The arguments of `create_block`; a group key may be `None`.
pub record Proposal : Type 0 where
  pub coinbase : Bytes
  pub random_no : Bytes
  pub group_key : Option Bytes
  pub group_sig : Bytes
  pub count : ℕ

-- `"0x00"`
abbrev pub no_group_key : Bytes
no_group_key = b'0' ∷ b'x' ∷ b'0' ∷ b'0' ∷ []

module _ (p : Platform) (f : Formats p) where
  -- `for addr in self.trie.to_dict().keys(): self.get_and_cache_account(addr)`
  unfoldable pub cache_accounts : List Bytes → ChainState p → ChainState p
  cache_accounts [] s = s
  cache_accounts (a ∷ l) s = cache_accounts l (get_and_cache_account p.trie (blank p) a s).1

  -- The accounts of the cache by the hexadecimal text of their address.
  dump_cache :
      Dict Bytes (Account (Balance p.netaddr)) → Dict Bytes (Option (Balance p.netaddr) × Option ℕ)
  dump_cache [] = []
  dump_cache ((a, o) ∷ c) = (encode_hex a, (some o.balance, some o.nonce)) ∷ dump_cache c

  -- `to_snapshot()`, which caches every account of the trie; 256 is `PREV_HEADER_DEPTH`.
  unfoldable pub to_snapshot : ChainState p → Dump p × ChainState p
  unfolding cache_accounts dump_cache
  to_snapshot s =
      let s' = cache_accounts (f.keys s.trie) s in
      (
        record {
          alloc = some (dump_cache s'.cache);
          state_root = none;
          txindex = some s.vars.txindex;
          block_number = some s.vars.block_number;
          block_coinbase = some s.vars.block_coinbase;
          timestamp = some s.vars.timestamp;
          prev_headers = some (take 256 s.vars.prev_headers);
        },
        s',
      )

  -- `assert not acct.touched` for every cached account
  all_untouched : Dict Bytes (Account (Balance p.netaddr)) → Bool
  all_untouched [] = true
  all_untouched ((_, o) ∷ c) = not o.touched && all_untouched c

  -- `clone()`. What `from_snapshot` loads from the root alone is overwritten.
  unfoldable pub clone : ChainState p → Result (ChainState p)
  unfolding all_untouched
  clone s =
      if all_untouched s.cache
      then ok (record (init p.trie (blank p)) { trie = s.trie; vars = s.vars; journal = s.journal })
      else err assertion_error

  -- The loop over the pool. Its tests are those of the afi; a transaction that raises leaves what it
  -- has changed. `sys.getsizeof(block)` does not count the transactions, so the block is never full.
  unfoldable pub select : ℕ → List Transaction → ChainState p → List Transaction
  select number [] s = []
  select number (tx ∷ txs) s =
      let (r, w) = apply_transaction p tx (record { state = s; cached = [] }) in
      let with = select number txs w.state in
      let without = select number txs s in
      if nat_beq tx.afi (afi_of_number p f number)
      then elim r [ ok _ ↦ tx ∷ with | err _ ↦ with ]
      else without

  -- The loop of `_create_tries`.
  unfoldable pub replay : List Transaction → ChainState p → Result (ChainState p)
  replay [] s = ok s
  replay (tx ∷ txs) s =
      let (r, w) = apply_transaction p tx (record { state = s; cached = [] }) in
      let rest = replay txs w.state in elim r [ err e ↦ err e | ok _ ↦ rest ]

  -- `_create_tries`, its own `to_snapshot` included.
  unfoldable pub create_tries : Block → Exec (ChainState p) Block
  unfolding to_snapshot clone replay
  create_tries b s =
      let s' = (to_snapshot s).1 in
      elim (clone s') [
        | err e ↦ (err e, s')
        | ok temp ↦ elim (replay b.transactions temp) [
          | err e ↦ (err e, s')
          | ok last ↦ (
            ok (record b {
              header = record b.header {
                tx_root = p.mk_transaction_sha b.transactions;
                state_root = f.hash_of_root last.trie;
              };
            }),
            s',
          )
        ]
      ]

  -- The group key of the header, from the number of the block.
  unfoldable pub header_group_key : ℕ → ℕ → Option Bytes → Result Bytes
  header_group_key interval number group_key =
      if nat_beq interval 0
      then err zero_division_error
      else if nat_beq (number % interval) 0
      then elim group_key [
        | none ↦ err dkg_block_requires_group_key
        | some [] ↦ err dkg_block_requires_group_key
        | some (x ∷ k) ↦ ok (x ∷ k)
      ]
      else ok no_group_key

  -- The header, before the tries are made.
  new_header : ℕ → Bytes → Bytes → Bytes → Bytes → Proposal → Chain p → BlockHeader
  new_header now coinbase random_number group_key blank_root a c = record {
    prevhash = c.head_hash;
    timestamp = now;
    extra_data = [];
    state_root = blank_root;
    tx_root = blank_root;
    number = c.state.vars.block_number + 1;
    coinbase = coinbase;
    random_number = random_number;
    group_pubkey = group_key;
    group_sig = a.group_sig;
    count = a.count;
  }

  -- The block before the tries are made; it is not signed.
  unfoldable pub draft : ℕ → Bytes → Bytes → Bytes → Proposal → Service p → ChainState p → Block
  unfolding new_header select
  draft now coinbase random_number group_key a v s = record {
    header =
        new_header now coinbase random_number group_key (f.hash_of_root p.trie.blank) a v.chain;
    transactions = select (v.chain.state.vars.block_number + 1) v.pool s;
    v = 0;
    r = 0;
    s = 0;
    cached_signer = none;
  }

  -- `create_block` below its first line.
  unfoldable pub propose : ℕ → ℕ → Proposal → Exec (Service p) Block
  unfolding header_group_key draft to_snapshot create_tries
  propose interval now a = do
    v ← gets (λ v. v)
    coinbase ← lift (normalize_address p.codec a.coinbase false)
    let number = v.chain.state.vars.block_number + 1
    group_key ← lift (header_group_key interval number a.group_key)
    random_number ← lift (or_raise (p.codec.decode_hex (remove_0x_head a.random_no)) exception)
    dump ← on_state p f (call to_snapshot)
    s ← lift (from_snapshot p dump)
    on_state p f (create_tries (draft now coinbase random_number group_key a v s))

  -- `process_time_queue` is called without a time.
  unfoldable pub create_block : ℕ → ℕ → ℕ → Proposal → Exec (Service p) Block
  unfolding propose
  create_block interval depth now a = do
    on_chain p f (process_time_queue p f depth now none)
    propose interval now a
