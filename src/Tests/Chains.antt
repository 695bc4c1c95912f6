-- ===== src/Tests/Chains.antt =====
-- The chain and its service run on the instance.
use blockchain_mapping_syste.Prelude.{
  ℕ, ◌≡◌, ◌≢◌, ◌↔◌, refl, true, false, Bool, Option, none, some, List, [], ◌∷◌, ◌++◌, Bytes,
  bytes_eq, Eq, nat_eq, replicate, if◌then◌else◌, arith, ok,
}
use blockchain_mapping_syste.Prelude.Exec.{◌>>=◌}
use blockchain_mapping_syste.State.Commit.{IsCoherent}
use blockchain_mapping_syste.State.{
  get_nonce, get_balance, commit, get_and_cache_account, set_nonce, set_balance, increment_nonce,
}
use blockchain_mapping_syste.Balance.{in_own_ips, affected_delegated_ips}
use blockchain_mapping_syste.Utils.{normalize_address, remove_0x_head, encode_hex}
use blockchain_mapping_syste.Transaction.{Transaction, sender, recover_sender, sighash, address_of}
use blockchain_mapping_syste.Block.{Block, signer}
use blockchain_mapping_syste.Apply.{
  blank, validate_block, apply_block, write_balance, apply_transaction,
}
use blockchain_mapping_syste.Chain.{
  Formats, Chain, add_block, process_time_queue, child_text, add_child, get_child_hashes, has_hash,
  decimal, from_snapshot,
}
use blockchain_mapping_syste.Chain.Sync.{IsSynced, add_block-IsSynced}
use blockchain_mapping_syste.Chain.Adding.{IsAdded, IsReadable, add_block-IsAdded}
use blockchain_mapping_syste.Chain.Refusing.{IsRefused, add_block-IsRefused}
use blockchain_mapping_syste.Chain.Draining.{process_time_queue-Ends, process_time_queue-none}
use blockchain_mapping_syste.Chain.Children.{get_child_hashes-add_child}
use blockchain_mapping_syste.ChainService.{
  Service, Proposal, no_group_key, service_add_block, create_block,
}
use blockchain_mapping_syste.ChainService.Purge.{IsEquality, AllHonest, encoded, AllValid}
use blockchain_mapping_syste.ChainService.Rounds.{accounts_of, service_add_block-AllValid}
use blockchain_mapping_syste.ChainService.Proposals.{IsProposal, create_block-IsProposal}
use blockchain_mapping_syste.Tests.Model.{
  platform, alice, bob, genesis, transaction, seven, block_of, eq_via, pair_eq, list_eq,
}

abbrev pub first : Block
first = block_of (transaction 0 0 bob seven ∷ [])

module _ {A : Type 0} (e : Eq A) where
  abbrev option_beq : Option A → Option A → Bool
  option_beq none none = true
  option_beq none (some b) = false
  option_beq (some a) none = false
  option_beq (some a) (some b) = e.beq a b

  pub option_beq_iff : (s t : Option A) → (option_beq s t ≡ true) ↔ (s ≡ t)
  option_beq_iff none none = (λ h. refl, λ h. refl)
  option_beq_iff none (some b) = (λ h. cc, λ h. cc)
  option_beq_iff (some a) none = (λ h. cc, λ h. cc)
  option_beq_iff (some a) (some b) = ground (arith, e.beq_iff a b)

  abbrev option_eq : Eq (Option A)
  option_eq = record { beq = option_beq; beq_iff = option_beq_iff }

abbrev Row : Type 0
Row = ℕ × (ℕ × (Bytes × (ℕ × (Bytes × (List Bytes × (ℕ × (ℕ × (ℕ × (ℕ × Option Bytes)))))))))

abbrev row : Transaction → Row
row t = (
  t.nonce,
  (
    t.category,
    (t.to, (t.afi, (t.value, (t.metadata, (t.time, (t.v, (t.r, (t.s, t.cached_sender)))))))),
  ),
)

abbrev of_row : Row → Transaction
of_row (n, (k, (to, (a, (x, (m, (t, (v, (r, (s, c)))))))))) = record {
  nonce = n;
  category = k;
  to = to;
  afi = a;
  value = x;
  metadata = m;
  time = t;
  v = v;
  r = r;
  s = s;
  cached_sender = c;
}

pub of_row-row : (t : Transaction) → of_row (row t) ≡ t
of_row-row t = refl

abbrev tx_eq : Eq Transaction
tx_eq =
    let last =
      pair_eq nat_eq (pair_eq nat_eq (pair_eq nat_eq (pair_eq nat_eq (option_eq bytes_eq)))) in
    eq_via row of_row of_row-row (
      pair_eq nat_eq (
        pair_eq nat_eq
          (pair_eq bytes_eq (pair_eq nat_eq (pair_eq bytes_eq (pair_eq (list_eq bytes_eq) last))))))

-- Every block is encoded by one text, which is read as the first one.
abbrev pub formats : Formats platform
formats = record {
  encode_block = λ b. 1 ∷ [];
  decode_block = λ s. some first;
  encode_position = λ n j. n ∷ j ∷ [];
  decode_position = λ s. none;
  load_dump = λ s. none;
  number_of = λ s. none;
  root_of = λ s. [];
  hash_of_root = λ r. [];
  keys = λ r. alice ∷ [];
  same_tx =
      λ x y. tx_eq.beq (record x { cached_sender = none }) (record y { cached_sender = none });
  network_of = λ s. none;
  ip_text = λ s. some s;
  reply_net = λ n. record { version = 4; ip = n; prefixlen = 32 };
}

abbrev pub chain : Chain platform
chain = record {
  state = genesis;
  patricia = [];
  db = [];
  genesis = first;
  head_hash = 9 ∷ [];
  time_queue = [];
  parent_queue = [];
  localtime = 0;
}

chain-IsSynced : IsSynced platform formats chain
chain-IsSynced = record { first = refl; unqueued = refl }

add_block-IsSynced_example :
    IsSynced platform formats (add_block platform formats 1 10 first chain).1
add_block-IsSynced_example = add_block-IsSynced platform formats 1 10 first chain chain-IsSynced

first_added : (add_block platform formats 1 10 first chain).0 ≡ ok true
unfolding add_block validate_block ◌>>=◌ signer sender normalize_address get_nonce in_own_ips
    get_balance apply_block affected_delegated_ips decimal
first_added = refl

first-IsReadable : IsReadable platform formats first
first-IsReadable = record { decodes = refl; proper = refl; apart = refl }

add_block-IsAdded_example :
    IsAdded platform formats 10 first chain (add_block platform formats 1 10 first chain).1
add_block-IsAdded_example =
    add_block-IsAdded platform formats 0 10 first chain chain-IsSynced first-IsReadable first_added

first_is_early : (add_block platform formats 1 3 first chain).0 ≡ ok false
unfolding add_block validate_block ◌>>=◌ signer sender normalize_address get_nonce in_own_ips
    get_balance
first_is_early = refl

add_block-IsRefused_example :
    IsRefused platform formats 3 first chain (add_block platform formats 1 3 first chain).1
add_block-IsRefused_example =
    add_block-IsRefused platform formats 0 3 first chain chain-IsSynced first_is_early

-- The first block waits for its time.
abbrev waiting : Chain platform
waiting = record chain { time_queue = first ∷ [] }

waiting-IsSynced : IsSynced platform formats waiting
waiting-IsSynced = record { first = refl; unqueued = refl }

process_time_queue-Ends_example :
    (process_time_queue platform formats 1 10 (some 10) waiting).0 ≢ ok false
process_time_queue-Ends_example =
    process_time_queue-Ends platform formats 0 10 (some 10) waiting waiting-IsSynced

process_time_queue-none_example :
    process_time_queue platform formats 1 10 none waiting
    ≡ (ok true, record waiting { localtime = 10 })
process_time_queue-none_example = process_time_queue-none platform formats 1 10 waiting

-- A block with a hash of 32 bytes.
abbrev hashed : Block
hashed = record first { header = record first.header { extra_data = replicate 32 8 } }

get_child_hashes-add_child_example :
    get_child_hashes platform (9 ∷ []) (add_child platform hashed chain)
    ≡ (if has_hash (replicate 32 8) [] then [] else [] ++ replicate 32 8 ∷ [])
unfolding child_text
get_child_hashes-add_child_example =
    get_child_hashes-add_child platform hashed chain [] tt refl refl

-- A chain whose next block has the number 2, so its transactions are those of IPv4.
abbrev later : Chain platform
later = record chain {
  state = record genesis {
    vars = record genesis.vars {
      block_number = 1;
      prev_headers = record { hash = 9 ∷ []; number = 1; timestamp = 0 } ∷ [];
    };
  };
}

abbrev second : Block
second = record first { header = record first.header { number = 2 } }

-- The second transaction of the pool is valid before the block, and not after it.
abbrev service : Service platform
service = record {
  chain = later;
  pool = transaction 0 0 bob seven ∷ transaction 0 2 bob seven ∷ [];
}

service_adds : (service_add_block platform formats 1 10 second service).0 ≡ ok tt
unfolding service_add_block add_block validate_block ◌>>=◌ signer sender normalize_address get_nonce
    in_own_ips get_balance apply_block affected_delegated_ips decimal
service_adds = refl

same_tx-IsEquality : IsEquality platform formats
same_tx-IsEquality x y = tx_eq.beq_iff (encoded platform formats x) (encoded platform formats y)

pool-AllHonest : AllHonest platform formats service.pool
unfolding sender recover_sender sighash address_of
pool-AllHonest = (refl, (refl, tt))

later-IsSynced : IsSynced platform formats later
later-IsSynced = record { first = refl; unqueued = refl }

later-IsCoherent : IsCoherent platform.trie (blank platform) later.state
later-IsCoherent = record { distinct = tt; live = λ a o q. cc; clean = λ a o q. cc }

service_add_block-AllValid_example :
    AllValid platform formats
      (accounts_of platform (service_add_block platform formats 1 10 second service).1.chain.state)
      (service_add_block platform formats 1 10 second service).1.pool
service_add_block-AllValid_example =
    service_add_block-AllValid platform formats 0 10 second service later-IsSynced later-IsCoherent
      same_tx-IsEquality pool-AllHonest service_adds

abbrev proposal : Proposal
proposal = record { coinbase = alice; random_no = []; group_key = none; group_sig = []; count = 0 }

abbrev created : Block
created = record {
  header = record {
    prevhash = 9 ∷ [];
    timestamp = 10;
    extra_data = [];
    state_root = [];
    tx_root = [];
    number = 2;
    coinbase = alice;
    random_number = [];
    group_pubkey = no_group_key;
    group_sig = [];
    count = 0;
  };
  transactions = transaction 0 0 bob seven ∷ [];
  v = 0;
  r = 0;
  s = 0;
  cached_signer = none;
}

service_creates : (create_block platform formats 5 1 10 proposal service).0 ≡ ok created
unfolding create_block ◌>>=◌ process_time_queue normalize_address remove_0x_head from_snapshot
    get_and_cache_account encode_hex write_balance apply_transaction sender get_nonce commit
    set_nonce set_balance in_own_ips get_balance affected_delegated_ips increment_nonce
service_creates = refl

create_block-IsProposal_example : IsProposal platform formats 5 10 service created
create_block-IsProposal_example =
    create_block-IsProposal platform formats 5 1 10 proposal service created service_creates
