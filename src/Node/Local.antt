-- ===== src/Node/Local.antt =====
-- blockchaincba.py: the objects and the local variables of `run`, and its settings. The messages that
-- the node has sent are kept in order.
use blockchain_mapping_syste.Prelude.{
  ℕ, Bool, Option, List, [], ◌∷◌, ◌++◌, Bytes, ok, unbound_local, or_raise,
}
use blockchain_mapping_syste.Prelude.Exec.{Exec, lift, modify, gets}
use blockchain_mapping_syste.Prelude.Dict.{Dict}
use blockchain_mapping_syste.Transaction.{Transaction, IpAddr}
use blockchain_mapping_syste.Block.{Block}
use blockchain_mapping_syste.Apply.{Platform}
use blockchain_mapping_syste.Chain.{Formats, decimal}
use blockchain_mapping_syste.ChainService.{Service}
use blockchain_mapping_syste.Consensus.{Bls, Share, DkgShare, Consensus}
use blockchain_mapping_syste.ShareCache.{ShareCache}
use blockchain_mapping_syste.User.{Entry}

-- chain_config.cfg; `start_time` and `is_master` are those of this node, and `depth` is Python's
-- recursion limit.
pub record Config : Type 0 where
  pub ext_tx_per_loop : ℕ
  pub loops_per_tx : ℕ
  pub dkg_renewal_interval : ℕ
  pub dkg_participants : ℕ
  pub block_time : ℕ
  pub timeout : ℕ
  pub dkg_timeout : ℕ
  -- `start_time + START_TIME`
  pub first_tx_time : ℕ
  pub is_master : Bool
  pub depth : ℕ

-- The packages that the main loop uses besides those of a platform.
pub record Packages (p : Platform) : Type 0 where
  pub bls : Bls
  pub formats : Formats p
  pub ipaddr : IpAddr
  -- `IPAddress(n)`, and the first element of an `IPSet`
  pub address : ℕ → p.netaddr.Net
  pub first_ip : p.netaddr.IpSet → Option p.netaddr.Net

pub data Message : Type 0 where
  share_sent : Share → Message
  block_sent : Block → Message
  tx_sent : Transaction → Message
  dkg_share_sent : DkgShare → Message
  blocks_answered : List Block → Message
  pool_answered : List Transaction → Message
  query_answered : Bytes → Message

-- `none` stands for a variable that is not bound yet. `next_signer` is the field of the consensus
-- object, as the number of the address. `keys` joins `addresses` and `keys`, which are in step.
-- `create_shares` is bound whenever the node is in the group.
pub record Node (p : Platform) : Type 0 where
  pub service : Service p
  pub consensus : Consensus
  pub next_signer : ℕ
  pub cache : ShareCache
  pub user : List Entry
  pub keys : Dict Bytes Bytes
  pub count : ℕ
  pub block_num : ℕ
  pub timestamp : ℕ
  pub last_random_no : Bytes
  pub dkg_on : Bool
  pub exit_from_dkg : Bool
  pub from_bootstrap : Bool
  pub in_dkg_group : Bool
  pub create_shares : Bool
  pub dkg_group : List Bytes
  pub my_dkg_ids : List Bytes
  pub signer : Option p.netaddr.Net
  pub signing_addr : Option Bytes
  pub user_tx_count : ℕ
  pub sent : List Message

module _ (p : Platform) where
  abbrev pub on_service : {A : Type 0} → Exec (Service p) A → Exec (Node p) A
  on_service m n = let (r, v) = m n.service in (r, record n { service = v })

  abbrev pub on_consensus : {A : Type 0} → Exec Consensus A → Exec (Node p) A
  on_consensus m n = let (r, c) = m n.consensus in (r, record n { consensus = c })

  abbrev pub on_cache : {A : Type 0} → Exec ShareCache A → Exec (Node p) A
  on_cache m n = let (r, c) = m n.cache in (r, record n { cache = c })

  abbrev pub send : Message → Exec (Node p) (Unit {0})
  send m = modify (λ n. record n { sent = n.sent ++ m ∷ [] })

  abbrev pub self : Exec (Node p) (Node p)
  self = gets (λ n. n)

  -- A variable that must be bound.
  abbrev pub bound : {A : Type 0} → Option A → Exec (Node p) A
  bound o = lift (or_raise o unbound_local)

  -- `try: m  except: pass`, which keeps what `m` wrote.
  abbrev pub attempt : {A : Type 0} → Exec (Node p) A → Exec (Node p) (Unit {0})
  attempt m n = (ok tt, (m n).1)

  -- `str(last_random_no) + str(block_num) + str(count)`
  abbrev pub message_of : Node p → Bytes
  message_of n = n.last_random_no ++ decimal n.block_num ++ decimal n.count
