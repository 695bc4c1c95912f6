-- ===== src/Chain/Poststate.antt =====
-- State.from_snapshot of state.py, and the state after a stored block.
use blockchain_mapping_syste.Prelude.{
  ℕ, zero, suc, ◌-◌, false, not, Option, none, some, List, [], ◌∷◌, ◌++◌, Bytes, bytes_eq, ◌==◌,
  length, take, leb, nat_beq, if◌then◌else◌, Result, ok, err, exception, key_error, assertion_error,
  raise_if, or_raise,
}
use blockchain_mapping_syste.Prelude.Exec.{Exec, pure, lift, ◌>>=◌, ◌>>◌}
use blockchain_mapping_syste.Prelude.Dict.{Dict, lookup}
use blockchain_mapping_syste.Balance.{Balance}
use blockchain_mapping_syste.State.{init, set_nonce, commit}
use blockchain_mapping_syste.Block.{PrevHeader, Block, prev_header}
use blockchain_mapping_syste.Apply.{
  Platform, ChainState, blank, at_address, write_balance, update_block_env_variables,
}
use blockchain_mapping_syste.Chain.Keys.{genesis_text, genesis_state_key}
use blockchain_mapping_syste.Chain.Store.{Formats, Chain, Dump}

or_default : {A : Type 0} → Option A → A → A
or_default none d = d
or_default (some a) d = a

module _ (p : Platform) where
  -- The address of an entry of `alloc`.
  alloc_address : Bytes → Result Bytes
  alloc_address addr =
      if nat_beq (length addr) 40 then or_raise (p.codec.decode_hex addr) exception else ok addr

  set_entry : Bytes → Option (Balance p.netaddr) × Option ℕ → Exec (ChainState p) (Unit {0})
  set_entry addr (b, n) = do
    elim b [ none ↦ pure tt | some b' ↦ write_balance p addr b' ]
    elim n [
      | none ↦ pure tt
      | some n' ↦ at_address p addr (λ a s. (tt, set_nonce p.trie (blank p) a n' s))
    ]

  set_accounts : Dict Bytes (Option (Balance p.netaddr) × Option ℕ) → Exec (ChainState p) (Unit {0})
  unfolding alloc_address set_entry
  set_accounts [] = pure tt
  set_accounts ((addr, entry) ∷ alloc) = do
    a ← lift (alloc_address addr)
    lift (raise_if (not (nat_beq (length a) 20)) assertion_error)
    set_entry a entry
    set_accounts alloc

  load_accounts : Dump p → Exec (ChainState p) (Unit {0})
  unfolding set_accounts
  load_accounts d s = elim d.alloc [
    | some alloc ↦ set_accounts alloc s
    | none ↦ elim d.state_root [
      | some root ↦ (ok tt, record s { trie = root })
      | none ↦ (err exception, s)
    ]
  ]

  -- The loop over `STATE_DEFAULTS`.
  load_vars : Dump p → ChainState p → ChainState p
  unfolding or_default
  load_vars d s = record s {
    vars = record s.vars {
      txindex = or_default d.txindex 0;
      block_number = or_default d.block_number 0;
      block_coinbase = or_default d.block_coinbase s.vars.block_coinbase;
      timestamp = or_default d.timestamp 0;
      prev_headers = or_default d.prev_headers [];
    };
  }

  -- `State.from_snapshot(d, env)`
  unfoldable pub from_snapshot : Dump p → Result (ChainState p)
  unfolding load_accounts load_vars
  from_snapshot d =
      let (r, s) = load_accounts d (init p.trie (blank p)) in
      elim r [
        | err e ↦ err e
        | ok _ ↦ ok (record (commit p.trie (blank p) false (load_vars d s)) { changed = [] })
      ]

module _ (p : Platform) (f : Formats p) where
  -- `rlp.decode(state.db.get(b.header.prevhash), Block)`; the genesis text does not decode.
  parent_of : Dict Bytes Bytes → Block → Option Block
  parent_of db b = elim (lookup b.header.prevhash db) [ none ↦ none | some s ↦ f.decode_block s ]

  -- The loop over the ancestors: their headers, and the block `b` after it.
  ancestors : ℕ → Dict Bytes Bytes → Block → List PrevHeader × Block
  unfolding parent_of
  ancestors zero db b = ([], b)
  ancestors (suc n) db b =
      let head = prev_header p.header_hash b.header in
      elim (parent_of db b) [
        | none ↦ (head ∷ [], b)
        | some a ↦ let (hs, last) = ancestors n db a in (head ∷ hs, last)
      ]

  genesis_dump : Chain p → Result (Dump p)
  genesis_dump c = elim (lookup genesis_state_key c.db) [
    | none ↦ err key_error
    | some s ↦ or_raise (f.load_dump s) exception
  ]

  -- The headers that the loop has not reached; `n` of them were read.
  more_headers : ℕ → ℕ → Block → Chain p → Result (List PrevHeader)
  unfolding genesis_dump
  more_headers depth n last c =
      if leb n depth
      then elim (lookup last.header.prevhash c.db) [
        | none ↦ err key_error
        | some s ↦
            if s == genesis_text
            then elim (genesis_dump c) [
              | err e ↦ err e
              | ok d ↦ elim d.prev_headers [
                | none ↦ err key_error
                | some hs ↦ ok (take (depth - (n - 1)) hs)
              ]
            ]
            else err exception
      ]
      else ok []

  -- The state after a block that is not the genesis block; `depth` is `PREV_HEADER_DEPTH`.
  poststate : ℕ → Block → Chain p → Result (ChainState p)
  unfolding ancestors more_headers
  poststate depth b c =
      let s = record (init p.trie (blank p)) { trie = f.root_of b.header.state_root } in
      let s' = update_block_env_variables p b s in
      let (hs, last) = ancestors (suc depth) c.db b in
      elim (more_headers depth (length hs) last c) [
        | err e ↦ err e
        | ok hs' ↦ ok (record s' {
          vars = record s'.vars { txindex = length b.transactions; prev_headers = hs ++ hs' };
        })
      ]

  unfoldable pub mk_poststate_of_blockhash : Bytes → Chain p → Result (ChainState p)
  unfolding genesis_dump from_snapshot poststate
  mk_poststate_of_blockhash blockhash c = elim (lookup blockhash c.db) [
    | none ↦ err exception
    | some s ↦
        if s == genesis_text
        then elim (genesis_dump c) [ err e ↦ err e | ok d ↦ from_snapshot p d ]
        else elim (f.decode_block s) [ none ↦ err exception | some b ↦ poststate 256 b c ]
  ]
