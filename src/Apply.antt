-- ===== src/Apply.antt =====
-- apply.py: the checks on transactions, headers and blocks, and their effect on the state. The state
-- that an exception leaves behind is part of each result.
mod Calls
pub mod Invariants
pub mod Validation
pub mod Nonces
pub mod Senders
pub mod Ownership
pub mod Transfers
pub mod Atomicity
pub use Calls.{Platform, ChainState, Work, blank}
unfoldable pub use Calls.{
  ip_network, at_address, read_balance, read_nonce, write_balance, bump_nonce,
}
use blockchain_mapping_syste.Prelude.{
  ℕ, ◌+◌, ◌^◌, Bool, true, false, not, ◌&&◌, ◌||◌, Option, none, some, List, [], ◌∷◌, Bytes,
  bytes_eq, ◌==◌, length, leb, ltb, nat_beq, if◌then◌else◌, Result, Error, ok, err, raise_if,
  unsigned_transaction, invalid_nonce, invalid_category, insufficient_balance, unsigned_block,
  invalid_block_signer, value_error, assertion_error, index_error, attribute_error, type_error,
}
use blockchain_mapping_syste.Prelude.Exec.{Exec, pure, lift, gets, modify, ◌>>=◌, ◌>>◌}
use blockchain_mapping_syste.Prelude.Dict.{Dict, insert}
use blockchain_mapping_syste.Utils.{normalize_address}
use blockchain_mapping_syste.NetAddr.{NetAddr}
use blockchain_mapping_syste.Balance.{
  Balance, in_own_ips, affected_delegated_ips, remove_delegated_ips, remove_received_ips,
  add_received_ips, add_delegated_ips, add_own_ips, remove_own_ips, set_map_server, set_locator,
}
use blockchain_mapping_syste.State.{State, Snapshot, commit, snapshot, revert, add_block_header}
use blockchain_mapping_syste.Transaction.{Transaction, null_address, sender}
use blockchain_mapping_syste.Block.{BlockHeader, PrevHeader, Block, prev_header, signer}

-- `except (ValueError, AssertionError)`
abbrev pub is_caught : Error → Bool
is_caught value_error = true
is_caught assertion_error = true
is_caught _ = false

-- `not a or a == null_address`
abbrev pub is_unsigned : Bytes → Bool
is_unsigned a = nat_beq (length a) 0 || a == null_address

-- `except AttributeError: raise UnsignedBlock()`
abbrev pub unsigned_if_attribute : Error → Error
unsigned_if_attribute attribute_error = unsigned_block
unsigned_if_attribute e = e

module _ (p : Platform) where
  -- A transaction always has a `category`, so the branch that lacks one is left out.
  unfoldable pub validate_transaction : Transaction → Exec (ChainState p) (Unit {0})
  unfolding ip_network read_balance read_nonce
  validate_transaction tx = do
    from ← lift (sender p.tx_crypto tx)
    lift (raise_if (is_unsigned from) unsigned_transaction)
    req_nonce ← read_nonce p from
    lift (raise_if (not (nat_beq req_nonce tx.nonce)) invalid_nonce)
    lift (raise_if (ltb 3 tx.category) invalid_category)
    balance ← read_balance p from
    value ← lift (ip_network p tx)
    lift (
        raise_if (leb tx.category 1 && not (in_own_ips p.netaddr value balance))
          insufficient_balance)

  -- The loop over `affected`: what was delegated of the prefix is taken back.
  unfoldable pub revoke :
      Bytes
      → Dict Bytes p.netaddr.IpSet
      → Balance p.netaddr
      → Exec (ChainState p) (Balance p.netaddr)
  unfolding read_balance write_balance
  revoke from [] sender_balance = pure sender_balance
  revoke from ((add, ips) ∷ affected) sender_balance = do
    sender_balance' ← lift (remove_delegated_ips p.netaddr p.codec add ips sender_balance)
    received_balance ← read_balance p add
    received_balance' ← lift (remove_received_ips p.netaddr p.codec from ips received_balance)
    write_balance p add received_balance'
    revoke from affected sender_balance'

  -- The branch of category 0 below its first three lines.
  unfoldable pub allocate : Bytes → Bytes → p.netaddr.Net → Exec (ChainState p) (Unit {0})
  unfolding revoke bump_nonce
  allocate from to value = do
    sender_balance ← read_balance p from
    affected ← lift (affected_delegated_ips p.netaddr value sender_balance)
    sender_balance' ← revoke from affected sender_balance
    to_balance ← read_balance p to
    write_balance p to (add_own_ips p.netaddr value to_balance)
    write_balance p from (remove_own_ips p.netaddr value sender_balance')
    bump_nonce p from

  -- The branch of category 1 below its first three lines.
  unfoldable pub delegate : Bytes → Bytes → p.netaddr.Net → Exec (ChainState p) (Unit {0})
  unfolding revoke bump_nonce
  delegate from to value = do
    sender_balance ← read_balance p from
    affected ← lift (affected_delegated_ips p.netaddr value sender_balance)
    sender_balance' ← revoke from affected sender_balance
    to_balance ← read_balance p to
    to_balance' ← lift (add_received_ips p.netaddr p.codec from value to_balance)
    sender_balance'' ← lift (add_delegated_ips p.netaddr p.codec to value sender_balance')
    write_balance p to to_balance'
    write_balance p from sender_balance''
    bump_nonce p from

  -- The branches of categories 2 and 3.
  unfoldable pub publish :
      Bytes → (Balance p.netaddr → Result (Balance p.netaddr)) → Exec (ChainState p) (Unit {0})
  unfolding read_balance write_balance bump_nonce
  publish from set = do
    sender_balance ← read_balance p from
    sender_balance' ← lift (set sender_balance)
    write_balance p from sender_balance'
    bump_nonce p from

  -- A call on the state alone.
  abbrev pub on_state : {A : Type 0} → Exec (ChainState p) A → Exec (Work p) A
  on_state m w = let (r, s) = m w.state in (r, record w { state = s })

  -- The first lines of categories 0 and 1, `cached[str(value)] = normalize_address(to)` the last.
  unfoldable pub move_prefix :
      (Bytes → Bytes → p.netaddr.Net → Exec (ChainState p) (Unit {0}))
      → Transaction
      → Bytes
      → Exec (Work p) (Unit {0})
  unfolding ip_network
  move_prefix branch tx from = do
    value ← lift (ip_network p tx)
    owner ← lift (normalize_address p.codec tx.to false)
    modify (λ w. record w { cached = insert (p.net_text value) owner w.cached })
    on_state (branch from tx.to value)

  -- The branches on the category.
  unfoldable pub by_category : Transaction → Bytes → Exec (Work p) (Unit {0})
  unfolding move_prefix allocate delegate publish
  by_category tx from =
      if nat_beq tx.category 0
      then move_prefix allocate tx from
      else if nat_beq tx.category 1
      then move_prefix delegate tx from
      else if nat_beq tx.category 2
      then on_state (publish from (set_map_server p.netaddr tx.metadata))
      else on_state (publish from (set_locator p.netaddr tx.metadata))

  unfoldable pub apply_transaction : Transaction → Exec (Work p) (Unit {0})
  unfolding validate_transaction by_category
  apply_transaction tx = do
    on_state (validate_transaction tx)
    from ← lift (sender p.tx_crypto tx)
    by_category tx from
    on_state (modify (commit p.trie (blank p) false))

  -- `parent` is a header object, so the test `if parent` holds.
  unfoldable pub validate_header : ChainState p → BlockHeader → Result (Unit {0})
  validate_header s h = elim s.vars.prev_headers [
    | [] ↦ err index_error
    | parent ∷ _ ↦
        if not (h.prevhash == parent.hash)
          || not (nat_beq h.number (parent.number + 1))
          || leb h.timestamp parent.timestamp
          || leb (2 ^ 256) h.timestamp
        then err value_error
        else ok tt
  ]

  unfoldable pub validate_transaction_tree : Block → Result (Unit {0})
  validate_transaction_tree b =
      raise_if (not (b.header.tx_root == p.mk_transaction_sha b.transactions)) value_error

  -- The loop of `validate_block`: each transaction by itself, in the state before the block.
  unfoldable pub validate_transactions : List Transaction → Exec (ChainState p) (Unit {0})
  unfolding validate_transaction
  validate_transactions [] = pure tt
  validate_transactions (tx ∷ txs) = do validate_transaction tx; validate_transactions txs

  -- A signer that is the null address gives `UnsignedTransaction`.
  unfoldable pub validate_block : Block → Exec (ChainState p) (Unit {0})
  unfolding validate_header validate_transaction_tree validate_transactions
  validate_block b = do
    a ← lift (signer p.block_crypto b)
    lift (raise_if (nat_beq (length a) 0) unsigned_block)
    lift (raise_if (a == null_address) unsigned_transaction)
    s ← gets (λ s. s)
    lift (validate_header s b.header)
    lift (validate_transaction_tree b)
    validate_transactions b.transactions

  unfoldable pub apply_transactions : List Transaction → Exec (Work p) (Unit {0})
  unfolding apply_transaction
  apply_transactions [] = pure tt
  apply_transactions (tx ∷ txs) = do apply_transaction tx; apply_transactions txs

  -- The body of the `try` of `apply_block`, but for the patricia tree.
  unfoldable pub apply_body : Block → Exec (Work p) (Unit {0})
  unfolding validate_header validate_transaction_tree apply_transactions
  apply_body b = do
    w ← gets (λ w. w)
    lift (validate_header w.state b.header)
    lift (validate_transaction_tree b)
    apply_transactions b.transactions
    on_state (modify (add_block_header p.trie (blank p) (prev_header p.header_hash b.header)))

  -- `for key in cached: patricia.set_value(key, cached[key])`
  unfoldable pub set_values : Dict Bytes Bytes → p.Tree → p.Tree
  set_values [] tree = tree
  set_values ((key, owner) ∷ cached) tree = set_values cached (p.tree_set tree key owner)

  -- The outcome of the `try`, handled.
  unfoldable pub settle :
      Snapshot (Balance p.netaddr) PrevHeader p.trie
      → p.Tree
      → Result (Unit {0}) × Work p
      → Result (Unit {0}) × ChainState p × p.Tree
  unfolding set_values
  settle snap tree (ok _, w) = (ok tt, w.state, set_values w.cached tree)
  settle snap tree (err e, w) =
      if is_caught e
      then (let (r, s) = revert p.trie (blank p) snap w.state in
          elim r [ ok _ ↦ (err e, s, tree) | err f ↦ (err f, s, tree) ])
      else (err e, w.state, tree)

  unfoldable pub apply_block :
      Block → ChainState p → p.Tree → Result (Unit {0}) × ChainState p × p.Tree
  unfolding apply_body settle
  apply_block b s tree =
      settle (snapshot p.trie (blank p) s) tree (apply_body b (record { state = s; cached = [] }))

  -- `update_block_env_variables`
  unfoldable pub update_block_env_variables : Block → ChainState p → ChainState p
  update_block_env_variables b s = record s {
    vars = record s.vars {
      timestamp = b.header.timestamp;
      block_number = b.header.number;
      block_coinbase = b.header.coinbase;
    };
  }

  -- `verify_block_signature`; any attribute error of the signer means an unsigned block.
  unfoldable pub verify_block_signature : Block → p.netaddr.Net → Exec (ChainState p) Bool
  unfolding read_balance
  verify_block_signature b ip = do
    a ← lift (elim (signer p.block_crypto b) [
      | ok a ↦ if nat_beq (length a) 0 then err unsigned_block else ok a
      | err e ↦ err (unsigned_if_attribute e)
    ])
    balance ← read_balance p a
    if in_own_ips p.netaddr ip balance then pure true else lift (err invalid_block_signer)
