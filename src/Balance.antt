-- ===== src/Balance.antt =====
-- balance.py: what an address owns, has delegated and has received, and its map server and
-- locators, and `ipaddr_to_netaddr` of utils.py. A `Balance` is read from the state by unpickling,
-- so each call works on a copy of its own: a method returns the changed value. Where a method
-- raises the copy is dropped.
pub mod Sets
pub mod Affected
pub mod Mappings
use blockchain_mapping_syste.Prelude.{
  ℕ, Bool, true, false, Option, none, some, List, [], ◌∷◌, Bytes, bytes_eq, nat_beq, ltb,
  if◌then◌else◌, Result, ok, err, key_error, index_error, value_error, unbound_local, or_raise,
  ◌>>=◌, ◌>>◌,
}
use blockchain_mapping_syste.Prelude.Dict.{Dict, lookup, insert, erase}
use blockchain_mapping_syste.Utils.{Codec, encode_hex, bytes_to_int, normalize_address}
use blockchain_mapping_syste.NetAddr.{NetAddr}

pub record Balance (n : NetAddr) : Type 0 where
  pub own_ips : n.IpSet
  pub delegated_ips : Dict Bytes n.IpSet
  pub received_ips : Dict Bytes n.IpSet
  pub map_server : Dict n.Net Bytes
  pub locator : Dict n.Net (ℕ × ℕ)

module _ (n : NetAddr) where
  -- `Balance(own_ips)`
  abbrev pub balance_of : n.IpSet → Balance n
  balance_of ips = record {
    own_ips = ips;
    delegated_ips = [];
    received_ips = [];
    map_server = [];
    locator = [];
  }

  unfoldable pub add_own_ips : n.Net → Balance n → Balance n
  add_own_ips ips b = record b { own_ips = n.add b.own_ips ips }

  unfoldable pub remove_own_ips : n.Net → Balance n → Balance n
  remove_own_ips ips b = record b { own_ips = n.remove b.own_ips ips }

  unfoldable pub in_own_ips : n.Net → Balance n → Bool
  in_own_ips ips b = n.contains b.own_ips ips

  -- The branch on `n_address in d.keys()` of the two methods that add.
  unfoldable pub add_ips : Bytes → n.Net → Dict Bytes n.IpSet → Dict Bytes n.IpSet
  add_ips a ips d = elim (lookup a d) [
    | none ↦ insert a (n.of_net ips) d
    | some s ↦ insert a (n.add s ips) d
  ]

  -- The body of the two methods that remove: an entry that becomes empty is popped.
  unfoldable pub remove_ips : Bytes → n.IpSet → Dict Bytes n.IpSet → Result (Dict Bytes n.IpSet)
  remove_ips a ips d = elim (lookup a d) [
    | none ↦ err key_error
    | some s ↦ do
      let left = n.diff s ips
      count ← n.len left
      ok (if nat_beq count 0 then erase a (insert a left d) else insert a left d)
  ]

  -- The loop of `affected_delegated_ips`; its keys are hexadecimal texts.
  unfoldable pub affected_from :
      n.IpSet → Dict Bytes n.IpSet → Dict Bytes n.IpSet → Result (Dict Bytes n.IpSet)
  affected_from ips [] addresses = ok addresses
  affected_from ips ((addr, s) ∷ d) addresses = do
    let joint = n.inter ips s
    count ← n.len joint
    affected_from ips d
        (if ltb 0 count then insert (encode_hex addr) joint addresses else addresses)

  unfoldable pub affected_delegated_ips : n.Net → Balance n → Result (Dict Bytes n.IpSet)
  unfolding affected_from
  affected_delegated_ips ips b = affected_from (n.of_net ips) b.delegated_ips []

  any_contains : n.Net → Dict Bytes n.IpSet → Bool
  any_contains ips [] = false
  any_contains ips ((_, s) ∷ d) = if n.contains s ips then true else any_contains ips d

  unfoldable pub in_received_ips : n.Net → Balance n → Bool
  unfolding any_contains
  in_received_ips ips b = any_contains ips b.received_ips

  -- `ipaddr_to_netaddr` of utils.py: under any other afi the name `ip` is unbound.
  unfoldable pub ipaddr_to_netaddr : ℕ → Bytes → Result n.Net
  ipaddr_to_netaddr afi ipaddr =
      if nat_beq afi 1
      then or_raise (n.net_of_v4 ipaddr) value_error
      else if nat_beq afi 2
      then or_raise (n.net_of_v6 ipaddr) value_error
      else err unbound_local

  -- The loop of `set_map_server`, three items a round.
  unfoldable pub map_servers_from : List Bytes → Dict n.Net Bytes → Result (Dict n.Net Bytes)
  unfolding ipaddr_to_netaddr
  map_servers_from [] m = ok m
  map_servers_from (a ∷ []) m = do bytes_to_int a; err index_error
  map_servers_from (a ∷ i ∷ []) m = do
    afi ← bytes_to_int a
    ipaddr_to_netaddr afi i
    err index_error
  map_servers_from (a ∷ i ∷ address ∷ rest) m = do
    afi ← bytes_to_int a
    ip ← ipaddr_to_netaddr afi i
    map_servers_from rest (insert ⦃e = n.net_eq⦄ ip address m)

  unfoldable pub set_map_server : List Bytes → Balance n → Result (Balance n)
  set_map_server items b = do
    m ← map_servers_from items []
    ok (record b { map_server = m; locator = [] })

  -- Every entry of the dict is the one list `l`, so a write to `l` shows in all of them.
  unfoldable pub write_shared : ℕ × ℕ → Dict n.Net (ℕ × ℕ) → Dict n.Net (ℕ × ℕ)
  write_shared l [] = []
  write_shared l ((ip, _) ∷ d) = (ip, l) ∷ write_shared l d

  -- The loop of `set_locator`, four items a round.
  unfoldable pub locators_from : List Bytes → Dict n.Net (ℕ × ℕ) → Result (Dict n.Net (ℕ × ℕ))
  unfolding ipaddr_to_netaddr write_shared
  locators_from [] m = ok m
  locators_from (a ∷ []) m = do bytes_to_int a; err index_error
  locators_from (a ∷ i ∷ []) m = do afi ← bytes_to_int a; ipaddr_to_netaddr afi i; err index_error
  locators_from (a ∷ i ∷ p ∷ []) m = do
    afi ← bytes_to_int a
    ipaddr_to_netaddr afi i
    bytes_to_int p
    err index_error
  locators_from (a ∷ i ∷ p ∷ w ∷ rest) m = do
    afi ← bytes_to_int a
    ip ← ipaddr_to_netaddr afi i
    priority ← bytes_to_int p
    weight ← bytes_to_int w
    locators_from rest
        (insert ⦃e = n.net_eq⦄ ip (priority, weight) (write_shared (priority, weight) m))

  unfoldable pub set_locator : List Bytes → Balance n → Result (Balance n)
  set_locator items b = do
    m ← locators_from items []
    ok (record b { locator = m; map_server = [] })

  module _ (c : Codec) where
    unfoldable pub add_delegated_ips : Bytes → n.Net → Balance n → Result (Balance n)
    unfolding add_ips
    add_delegated_ips address ips b = do
      n_address ← normalize_address c address false
      ok (record b { delegated_ips = add_ips n_address ips b.delegated_ips })

    unfoldable pub remove_delegated_ips : Bytes → n.IpSet → Balance n → Result (Balance n)
    unfolding remove_ips
    remove_delegated_ips address ips b = do
      n_address ← normalize_address c address false
      d ← remove_ips n_address ips b.delegated_ips
      ok (record b { delegated_ips = d })

    unfoldable pub add_received_ips : Bytes → n.Net → Balance n → Result (Balance n)
    unfolding add_ips
    add_received_ips address ips b = do
      n_address ← normalize_address c address false
      ok (record b { received_ips = add_ips n_address ips b.received_ips })

    unfoldable pub remove_received_ips : Bytes → n.IpSet → Balance n → Result (Balance n)
    unfolding remove_ips
    remove_received_ips address ips b = do
      n_address ← normalize_address c address false
      d ← remove_ips n_address ips b.received_ips
      ok (record b { received_ips = d })
