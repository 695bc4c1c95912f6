-- ===== src/Node/Turn.antt =====
-- blockchaincba.py: one turn of the main loop, and what runs of it reach.
use blockchain_mapping_syste.Prelude.{ℕ, Bool, true, Option, List, Bytes, ok, ◌≡◌}
use blockchain_mapping_syste.Prelude.Exec.{Exec, pure, lift, modify, ◌>>=◌, ◌>>◌}
use blockchain_mapping_syste.Block.{Block}
use blockchain_mapping_syste.Transaction.{Transaction}
use blockchain_mapping_syste.Apply.{Platform}
use blockchain_mapping_syste.Consensus.{Share, DkgShare}
use blockchain_mapping_syste.Utils.{encode_hex}
use blockchain_mapping_syste.ChainService.Groups.{head_of, get_current_group_key}
use blockchain_mapping_syste.Node.Local.{Config, Packages, Node, self}
use blockchain_mapping_syste.Node.Blocks.{receive_blocks}
use blockchain_mapping_syste.Node.Signing.{sign_next_block}
use blockchain_mapping_syste.Node.Transactions.{
  receive_txs, user_turn, answer_query, answer_blocks, answer_pool,
}
use blockchain_mapping_syste.Node.Shares.{share_turn, watch_time}
use blockchain_mapping_syste.Node.KeyGeneration.{trigger_dkg, collect_dkg}
use blockchain_mapping_syste.Node.Bootstrap.{perform_bootstrap}

-- The queues of the network at one turn, and the clock at its parts.
pub record Inputs : Type 0 where
  pub blocks : List Block
  pub txs : List Transaction
  pub query : Option (Bytes × ℕ)
  pub block_numbers : Option (List ℕ)
  pub pool_query : Bool
  pub shares : List Share
  pub dkg_shares : List DkgShare
  pub now : ℕ
  -- The time after the sleep of a node that is not in the group.
  pub later : ℕ

-- What a turn leaves of the queues.
pub record Left : Type 0 where
  pub txs : List Transaction
  pub shares : List Share
  pub dkg_shares : List DkgShare

module _ (p : Platform) (k : Packages p) (g : Config) where
  -- The body of `while(not end):`
  unfoldable pub turn : Inputs → Exec (Node p) Left
  unfolding receive_blocks receive_txs sign_next_block user_turn answer_query answer_blocks
      answer_pool share_turn watch_time trigger_dkg collect_dkg
  turn i = do
    receive_blocks p k g i.now i.blocks
    txs ← receive_txs p k g.ext_tx_per_loop 0 i.txs
    sign_next_block p k g i.now
    user_turn p k g i.now
    answer_query p k i.query
    answer_blocks p k i.block_numbers
    answer_pool p k i.pool_query
    shares ← share_turn p k i.now i.shares
    modify (watch_time p k g i.now)
    trigger_dkg p k g i.now
    dkg_shares ← collect_dkg p k g i.now i.later i.dkg_shares
    pure (record { txs = txs; shares = shares; dkg_shares = dkg_shares })

  -- From the end of the bootstrap to the main loop. The group signature and key that are read here are
  -- not used again.
  unfoldable pub enter_loop : Exec (Node p) (Unit {0})
  enter_loop = do
    n ← self p
    head ← lift (head_of p k.formats n.service)
    lift (get_current_group_key p k.formats g.dkg_renewal_interval n.service)
    modify (λ n. record n {
      timestamp = head.header.timestamp;
      last_random_no = encode_hex head.header.random_number;
      from_bootstrap = true;
    })

  unfoldable pub start : ℕ → List Block → Exec (Node p) (Unit {0})
  unfolding perform_bootstrap enter_loop
  start now l = do perform_bootstrap p k g now l; enter_loop

  -- The nodes that a bootstrap and turns of the main loop reach, while no step stops the program.
  pub data Reaches (n : Node p) : Node p → Type 0 where
    started : (now : ℕ) (l : List Block) {n' : Node p} → start now l n ≡ (ok tt, n') → Reaches n n'
    turned :
        {m m' : Node p} (i : Inputs) (left : Left)
        → Reaches n m
        → turn i m ≡ (ok left, m')
        → Reaches n m'
