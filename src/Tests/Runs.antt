-- ===== src/Tests/Runs.antt =====
-- Transactions and blocks run on the instance.
use blockchain_mapping_syste.Prelude.{
  bytes_eq, true, false, some, List, [], ◌∷◌, ◌≡◌, ◌↔◌, refl, arith, ok, err, value_error,
}
use blockchain_mapping_syste.Prelude.Dict.{lookup}
use blockchain_mapping_syste.Prelude.Exec.{◌>>=◌}
use blockchain_mapping_syste.Balance.{
  Balance, in_own_ips, affected_delegated_ips, set_map_server, map_servers_from,
}
use blockchain_mapping_syste.State.{
  stored, from_trie, snapshot, get_nonce, get_balance, set_balance, commit, revert, increment_nonce,
}
use blockchain_mapping_syste.Block.{signer}
use blockchain_mapping_syste.NetAddr.Singletons.{member}
use blockchain_mapping_syste.Utils.{normalize_address}
use blockchain_mapping_syste.Transaction.{Transaction, sender}
use blockchain_mapping_syste.State.Peek.{peek}
use blockchain_mapping_syste.State.Commit.{
  IsCoherent, flushed, commit-trie, stored-commit, set_balance-IsCoherent,
}
use blockchain_mapping_syste.State.Revert.{
  IsRecoverable, Op, put_balance, commit_accounts, bump_nonce, Reverted, run, revert-snapshot,
}
use blockchain_mapping_syste.Block.{Block, PrevHeader}
use blockchain_mapping_syste.Apply.{
  ChainState, Work, blank, ip_network, validate_transaction, validate_block, apply_transaction,
  apply_block,
}
use blockchain_mapping_syste.Apply.Validation.{IsValid, validate_transaction-accepts}
use blockchain_mapping_syste.Apply.Nonces.{Applied, apply_transaction-Applied}
use blockchain_mapping_syste.Apply.Senders.{HasDistinctSenders, apply_block-HasDistinctSenders}
use blockchain_mapping_syste.Apply.Atomicity.{Undone, apply_block-Undone}
use blockchain_mapping_syste.Apply.Transfers.{
  owned, apply_transaction-owned, apply_transaction-kept,
}
use blockchain_mapping_syste.Tests.Model.{
  platform, alice, bob, genesis, transaction, seven, block_of,
}

genesis-IsCoherent : IsCoherent platform.trie (blank platform) genesis
genesis-IsCoherent = record { distinct = tt; live = λ a o q. cc; clean = λ a o q. cc }

genesis-IsRecoverable : IsRecoverable platform.trie (blank platform) genesis
unfolding peek
genesis-IsRecoverable = record { j₁ = []; journal = refl; covered = tt; restored = λ k. refl }

abbrev work : Work platform
work = record { state = genesis; cached = [] }

abbrev allocation : Transaction
allocation = transaction 0 0 bob seven

allocation_returns : (apply_transaction platform allocation work).0 ≡ ok tt
unfolding apply_transaction ◌>>=◌ sender normalize_address get_nonce in_own_ips get_balance
    affected_delegated_ips
allocation_returns = refl

abbrev map_server_of_none : Transaction
map_server_of_none = transaction 0 2 bob seven

map_server_returns : (apply_transaction platform map_server_of_none work).0 ≡ ok tt
unfolding apply_transaction ◌>>=◌ sender normalize_address get_nonce in_own_ips get_balance
    affected_delegated_ips set_map_server map_servers_from
map_server_returns = refl

alice_is_normal : normalize_address platform.codec alice false ≡ ok alice
unfolding normalize_address
alice_is_normal = refl

bob_is_normal : normalize_address platform.codec bob false ≡ ok bob
unfolding normalize_address
bob_is_normal = refl

alice_signed :
    (tx : Transaction) → tx.cached_sender ≡ some alice → sender platform.tx_crypto tx ≡ ok alice
unfolding sender
alice_signed tx h = rw h refl

seven_is_network : ip_network platform allocation ≡ ok 7
unfolding ip_network
seven_is_network = refl

apply_transaction-Applied_example :
    Applied platform
      (λ k. (peek platform.trie (blank platform) genesis k).nonce)
      allocation
      (apply_transaction platform allocation work).1.state
apply_transaction-Applied_example =
    apply_transaction-Applied platform allocation work genesis-IsCoherent allocation_returns

apply_transaction-owned_example :
    member 7 (owned platform (apply_transaction platform allocation work).1.state bob) ≡ true
unfolding peek from_trie
apply_transaction-owned_example =
    apply_transaction-owned platform allocation work alice alice bob 7 genesis-IsCoherent refl
      (alice_signed allocation refl) alice_is_normal bob_is_normal seven_is_network
      allocation_returns bob 7

apply_transaction-kept_example :
    owned platform (apply_transaction platform map_server_of_none work).1.state alice
    ≡ owned platform genesis alice
apply_transaction-kept_example =
    apply_transaction-kept platform map_server_of_none work genesis-IsCoherent (λ h. cc)
      map_server_returns alice

-- The second transaction has no network, so its block is refused after the first was applied.
abbrev refused : Block
refused = block_of (allocation ∷ transaction 1 0 bob [] ∷ [])

refused_raises : (apply_block platform refused genesis []).0 ≡ err value_error
unfolding apply_block ◌>>=◌ sender normalize_address get_nonce in_own_ips get_balance
    affected_delegated_ips commit increment_nonce set_balance revert snapshot
refused_raises = refl

apply_block-Undone_example :
    Undone platform
      (snapshot platform.trie (blank platform) genesis)
      genesis
      []
      (apply_block platform refused genesis []).1
      (apply_block platform refused genesis []).2
apply_block-Undone_example =
    apply_block-Undone platform refused genesis [] value_error genesis-IsRecoverable refl
      refused_raises refl

abbrev accepted : Block
accepted = block_of (allocation ∷ [])

accepted_is_valid : (validate_block platform accepted genesis).0 ≡ ok tt
unfolding validate_block ◌>>=◌ sender signer normalize_address get_nonce in_own_ips get_balance
accepted_is_valid = refl

accepted_returns :
    (apply_block platform accepted (validate_block platform accepted genesis).1 []).0 ≡ ok tt
unfolding validate_block apply_block ◌>>=◌ sender signer normalize_address get_nonce in_own_ips
    get_balance affected_delegated_ips
accepted_returns = refl

apply_block-HasDistinctSenders_example : HasDistinctSenders platform (allocation ∷ [])
apply_block-HasDistinctSenders_example =
    apply_block-HasDistinctSenders platform accepted genesis [] genesis-IsCoherent accepted_is_valid
      accepted_returns

allocation-IsValid :
    IsValid platform (λ k. stored (peek platform.trie (blank platform) genesis k)) allocation
unfolding peek from_trie stored ip_network in_own_ips sender normalize_address
allocation-IsValid = record {
  from = alice;
  address = alice;
  value = 7;
  is_sender = refl;
  signed = refl;
  is_address = refl;
  nonce = refl;
  category = omega arith;
  is_value = refl;
  owned = λ h. refl;
}

validate_transaction-accepts_example :
    ((validate_transaction platform allocation genesis).0 ≡ ok tt)
    ↔ IsValid platform (λ k. stored (peek platform.trie (blank platform) genesis k)) allocation
validate_transaction-accepts_example =
    validate_transaction-accepts platform
      (λ k. stored (peek platform.trie (blank platform) genesis k)) allocation genesis
      (record { coherent = genesis-IsCoherent; accounts = λ k. refl })

abbrev touched_state : ChainState platform
touched_state = set_balance platform.trie (blank platform) alice (blank platform) genesis

touched-IsCoherent : IsCoherent platform.trie (blank platform) touched_state
touched-IsCoherent =
    set_balance-IsCoherent platform.trie (blank platform) alice (blank platform) genesis
      genesis-IsCoherent

stored-commit_example :
    stored (
      peek platform.trie
        (blank platform)
        (commit platform.trie (blank platform) false touched_state)
        alice)
    ≡ stored (peek platform.trie (blank platform) touched_state alice)
stored-commit_example =
    stored-commit platform.trie (blank platform) false alice touched_state touched-IsCoherent

commit-trie_example :
    platform.trie.get (commit platform.trie (blank platform) false touched_state).trie alice
    ≡ flushed platform.trie genesis.trie alice (lookup alice touched_state.cache)
unfolding set_balance
commit-trie_example =
    commit-trie platform.trie (blank platform) false alice touched_state touched-IsCoherent

abbrev operations : List (Op (Balance platform.netaddr) PrevHeader)
operations = put_balance alice (blank platform) ∷ commit_accounts false ∷ bump_nonce bob ∷ []

revert-snapshot_example :
    ((revert platform.trie
        (blank platform)
        (snapshot platform.trie (blank platform) genesis)
        (run platform.trie (blank platform) operations genesis)).0
      ≡ ok tt)
    × Reverted platform.trie
        (blank platform)
        (snapshot platform.trie (blank platform) genesis)
        (peek platform.trie (blank platform) genesis)
        (revert platform.trie
          (blank platform)
          (snapshot platform.trie (blank platform) genesis)
          (run platform.trie (blank platform) operations genesis)).1
revert-snapshot_example =
    revert-snapshot platform.trie (blank platform) operations genesis genesis-IsRecoverable refl
