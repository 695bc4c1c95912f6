-- ===== src/Tests/Nodes.antt =====
-- The main loop, on a node with one key.
use blockchain_mapping_syste.Prelude.{true, false, none, [], ◌∷◌, ◌≡◌, ◌⊎◌, refl, ok}
use blockchain_mapping_syste.Apply.Transfers.{owned}
use blockchain_mapping_syste.Chain.{
  decimal, block_key, genesis_text, get_head_block, get_block_by_number,
}
use blockchain_mapping_syste.Prelude.Exec.{◌>>=◌}
use blockchain_mapping_syste.Consensus.{store_share}
use blockchain_mapping_syste.ShareCache.{pending_future_bls, get_future_bls}
use blockchain_mapping_syste.Node.{
  Config, Packages, Node, receive_block, bootstrap_block, future_shares, Inputs, Left, Reaches,
  started, turned, turn, perform_bootstrap, start, enter_loop,
}
use blockchain_mapping_syste.ChainService.{last_old_dkg_block}
use blockchain_mapping_syste.ChainService.Groups.{get_current_group_key}
use blockchain_mapping_syste.Node.Flags.{IsSound}
use blockchain_mapping_syste.Node.Running.{Reaches-IsSound}
use blockchain_mapping_syste.Node.Signers.{IsProven}
use blockchain_mapping_syste.Node.Checking.{HasBlocks, receive_block-IsProven}
use blockchain_mapping_syste.Node.Bootstrapping.{IsAuthentic, bootstrap_block-IsAuthentic}
use blockchain_mapping_syste.Node.Waiting.{IsServed, future_shares-Ends}
use blockchain_mapping_syste.Tests.Model.{platform, alice, ipaddr}
use blockchain_mapping_syste.Tests.Rounds.{bls, consensus, share}
use blockchain_mapping_syste.Tests.Chains.{chain, formats, first}

abbrev config : Config
config = record {
  ext_tx_per_loop = 2;
  loops_per_tx = 3;
  dkg_renewal_interval = 10;
  dkg_participants = 1;
  block_time = 5;
  timeout = 50;
  dkg_timeout = 50;
  first_tx_time = 0;
  is_master = false;
  depth = 2;
}

abbrev packages : Packages platform
packages = record {
  bls = bls;
  formats = formats;
  ipaddr = ipaddr;
  address = λ n. n;
  first_ip = λ s. none;
}

-- The head of the chain is the genesis block.
abbrev node : Node platform
node = record {
  service = record {
    chain = record chain { db = (9 ∷ [], genesis_text) ∷ (block_key 0, 9 ∷ []) ∷ [] };
    pool = [];
  };
  consensus = consensus false;
  next_signer = 7;
  cache = record {
    dkg_share_cache = [];
    bls_share_cache = [];
    bls_future_shares = (0, share ∷ []) ∷ [];
    last_time_clear = 0;
  };
  user = [];
  keys = (alice, 1 ∷ []) ∷ [];
  count = 0;
  block_num = 0;
  timestamp = 0;
  last_random_no = [];
  dkg_on = false;
  exit_from_dkg = false;
  from_bootstrap = false;
  in_dkg_group = false;
  create_shares = false;
  dkg_group = [];
  my_dkg_ids = [];
  signer = none;
  signing_addr = none;
  user_tx_count = 0;
  sent = [];
}

node-IsSound : IsSound platform packages node
node-IsSound = (
  record { apart = λ e. refl; joined = λ e. cc; signs = λ e. cc },
  record { first = refl; unqueued = refl },
)

abbrev inputs : Inputs
inputs = record {
  blocks = [];
  txs = [];
  query = none;
  block_numbers = none;
  pool_query = true;
  shares = [];
  dkg_shares = [];
  now = 1;
  later = 6;
}

abbrev left : Left
left = record { txs = []; shares = []; dkg_shares = [] }

abbrev started_node : Node platform
started_node = (start platform packages config 1 [] node).1

abbrev after_turn : Node platform
after_turn = (turn platform packages config inputs started_node).1

start_runs : start platform packages config 1 [] node ≡ (ok tt, started_node)
unfolding start perform_bootstrap enter_loop ◌>>=◌ get_head_block get_current_group_key decimal
    last_old_dkg_block get_block_by_number
start_runs = refl

after_turn_runs : turn platform packages config inputs started_node ≡ (ok left, after_turn)
unfolding turn ◌>>=◌ get_head_block start decimal get_current_group_key perform_bootstrap enter_loop
    last_old_dkg_block get_block_by_number
after_turn_runs = refl

node_turned : Reaches platform packages config node after_turn
node_turned = turned inputs left (started 1 [] start_runs) after_turn_runs

Reaches-IsSound_example : IsSound platform packages after_turn
Reaches-IsSound_example =
    Reaches-IsSound platform packages config node after_turn node_turned node-IsSound

receive_block-IsProven_example :
    HasBlocks platform packages
      (owned platform node.service.chain.state)
      node
      (receive_block platform packages config 10 first node).1
    ⊎ IsProven platform packages (owned platform node.service.chain.state) first node
receive_block-IsProven_example =
    receive_block-IsProven platform packages (owned platform node.service.chain.state) config 10
      first node (record { owns = λ a. refl })

bootstrap_block-IsAuthentic_example :
    HasBlocks platform packages
      (owned platform node.service.chain.state)
      node
      (bootstrap_block platform packages config 10 first node).1
    ⊎ IsAuthentic platform packages config (owned platform node.service.chain.state) first node
bootstrap_block-IsAuthentic_example =
    bootstrap_block-IsAuthentic platform packages config (owned platform node.service.chain.state)
      10 first node (record { owns = λ a. refl })

future_shares_end : (future_shares platform packages 1 node).0 ≡ ok true
unfolding future_shares pending_future_bls ◌>>=◌ get_future_bls store_share
future_shares_end = refl

future_shares-Ends_example :
    (true ≡ true) × IsServed platform packages (future_shares platform packages 1 node).1
future_shares-Ends_example = future_shares-Ends platform packages node true future_shares_end
