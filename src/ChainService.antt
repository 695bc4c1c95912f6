-- ===== src/ChainService.antt =====
-- chain_service.py: the choice of the members of a key generation.
mod Pool
mod Creation
pub mod Members
pub mod Groups
pub mod Synced
pub mod Purge
pub mod Rounds
pub mod Proposals
pub use Pool.{Service}
pub use Creation.{Proposal, no_group_key}
unfoldable pub use Creation.{
  cache_accounts, to_snapshot, clone, select, replay, create_tries, header_group_key, draft,
  propose, create_block,
}
unfoldable pub use Pool.{
  on_chain, on_state, add_pending_transaction, in_list, remove_first, remove_each, afi_of_number,
  check_afi, collect_invalid, purge_pool, service_add_block, in_chain, in_pool, get_field,
  get_addr_from_ip, locator_records, answer_of, query_body, query_eid,
}
use blockchain_mapping_syste.Prelude.{
  ℕ, zero, suc, ◌%◌, ◌-◌, Bool, true, false, Option, none, some, List, [], ◌∷◌, Bytes, length,
  nat_beq, if◌then◌else◌, Result, ok, err, zero_division_error, index_error, or_raise, ◌>>=◌,
}
use blockchain_mapping_syste.Utils.{compress_random_no_to_int}

-- `l.pop(i)`
unfoldable pub pop_at : ℕ → List Bytes → Option (Bytes × List Bytes)
pop_at i [] = none
pop_at zero (x ∷ l) = some (x, l)
pop_at (suc i) (x ∷ l) = elim (pop_at i l) [ none ↦ none | some q ↦ some (q.0, x ∷ q.1) ]

-- The loop of `get_current_dkg_group`; `digest` is `hashlib.sha256(str(n)).hexdigest()`.
unfoldable pub choose : (ℕ → Bytes) → ℕ → ℕ → List Bytes → Result (List Bytes)
unfolding pop_at
choose digest zero random_no all_addresses = ok []
choose digest (suc n) random_no all_addresses =
    if nat_beq (length all_addresses) 0
    then err zero_division_error
    else elim (pop_at (random_no % length all_addresses) all_addresses) [
      | none ↦ err index_error
      | some q ↦ do
        random_no' ← compress_random_no_to_int (digest random_no)
        group ← choose digest n random_no' q.1
        ok (q.0 ∷ group)
    ]

-- The number of the block that started the current key generation; both methods compute it.
unfoldable pub last_old_dkg_block : ℕ → ℕ → Result ℕ
last_old_dkg_block interval last_block_no =
    if nat_beq interval 0
    then err zero_division_error
    else ok (last_block_no - last_block_no % interval)

-- `get_current_dkg_group`, from the hexadecimal text of that block's random number.
unfoldable pub get_current_dkg_group : (ℕ → Bytes) → ℕ → Bytes → List Bytes → Result (List Bytes)
unfolding choose
get_current_dkg_group digest participants random_text all_addresses = do
  random_no ← compress_random_no_to_int random_text
  choose digest participants random_no all_addresses
