-- ===== src/Apply/Calls.antt =====
-- What apply.py calls: the packages, and the state's methods at an address that is normalised first.
use blockchain_mapping_syste.Prelude.{
  ℕ, false, Option, none, some, List, Bytes, length, take, get_elem?, nat_beq, if◌then◌else◌,
  Result, err, value_error, index_error, or_raise,
}
use blockchain_mapping_syste.Prelude.Exec.{Exec, lift, call, ◌>>=◌}
use blockchain_mapping_syste.Prelude.Dict.{Dict}
use blockchain_mapping_syste.Utils.{Codec, normalize_address}
use blockchain_mapping_syste.NetAddr.{NetAddr}
use blockchain_mapping_syste.Trie.{Trie}
use blockchain_mapping_syste.Balance.{Balance, balance_of}
use blockchain_mapping_syste.State.{
  State, Stored, get_balance, get_nonce, set_balance, increment_nonce,
}
use blockchain_mapping_syste.Transaction.{Transaction, Crypto}
use blockchain_mapping_syste.Block.{BlockHeader, PrevHeader, Block}

-- The packages, and the functions of the code that only call them.
pub record Platform : Type 1 where
  pub codec : Codec
  pub netaddr : NetAddr
  pub trie : Trie (Stored (Balance netaddr))
  pub tx_crypto : Crypto Transaction
  pub block_crypto : Crypto Block
  -- `BlockHeader.hash`, and `mk_transaction_sha`, the root of a trie of the encoded transactions
  pub header_hash : BlockHeader → Bytes
  pub mk_transaction_sha : List Transaction → Bytes
  -- `IPNetwork(str(IPv4Network(str(IPv4Address(Bytes(a))) + '/' + str(n))))`, and for IPv6
  pub network_of_v4 : Bytes → ℕ → Option netaddr.Net
  pub network_of_v6 : Bytes → ℕ → Option netaddr.Net
  -- `str(value)` of a network
  pub net_text : netaddr.Net → Bytes
  -- py-radix: `rnode = tree.add(key); rnode.data["address"] = value`, and the data of `search_best`
  pub Tree : Type 0
  pub tree_set : Tree → Bytes → Bytes → Tree
  pub search_best : Tree → Bytes → Option Bytes

abbrev pub ChainState : Platform → Type 0
ChainState p = State (Balance p.netaddr) PrevHeader p.trie

-- `Balance(IPSet())`, the balance of a blank account.
abbrev pub blank : (p : Platform) → Balance p.netaddr
blank p = balance_of p.netaddr p.netaddr.empty

-- The state, and the dict `cached` of owners that the block has changed.
pub record Work (p : Platform) : Type 0 where
  pub state : ChainState p
  pub cached : Dict Bytes Bytes

module _ (p : Platform) where
  -- `IPv4Address(Bytes(value[:k]))` wants `k` bytes, and `value[k]` one more.
  slice_network : (Bytes → ℕ → Option p.netaddr.Net) → ℕ → Bytes → Result p.netaddr.Net
  slice_network network_of k value = elim (get_elem? value k) [
    | none ↦ err (if nat_beq (length value) k then index_error else value_error)
    | some prefixlen ↦ or_raise (network_of (take k value) prefixlen) value_error
  ]

  -- The property `ip_network` of a transaction.
  unfoldable pub ip_network : Transaction → Result p.netaddr.Net
  unfolding slice_network
  ip_network tx =
      if nat_beq tx.afi 1
      then slice_network p.network_of_v4 4 tx.value
      else slice_network p.network_of_v6 16 tx.value

  -- A method of the state at the normalised address.
  unfoldable pub at_address :
      {A : Type 0} → Bytes → (Bytes → ChainState p → A × ChainState p) → Exec (ChainState p) A
  at_address x f = do a ← lift (normalize_address p.codec x false); call (f a)

  -- `state.get_balance(x)`, `state.get_nonce(x)`, `state.set_balance(x, b)`, `state.increment_nonce(x)`
  unfoldable pub read_balance : Bytes → Exec (ChainState p) (Balance p.netaddr)
  unfolding at_address
  read_balance x = at_address x (get_balance p.trie (blank p))

  unfoldable pub read_nonce : Bytes → Exec (ChainState p) ℕ
  unfolding at_address
  read_nonce x = at_address x (get_nonce p.trie (blank p))

  unfoldable pub write_balance : Bytes → Balance p.netaddr → Exec (ChainState p) (Unit {0})
  unfolding at_address
  write_balance x b = at_address x (λ a s. (tt, set_balance p.trie (blank p) a b s))

  unfoldable pub bump_nonce : Bytes → Exec (ChainState p) (Unit {0})
  unfolding at_address
  bump_nonce x = at_address x (λ a s. (tt, increment_nonce p.trie (blank p) a s))
