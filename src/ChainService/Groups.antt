-- ===== src/ChainService/Groups.antt =====
-- chain_service.py: the group key and the members of the current key generation, and the first address
-- of an account.
use blockchain_mapping_syste.Prelude.{
  ℕ, Option, Bytes, List, Result, attribute_error, or_raise, ok, err, ◌>>=◌,
}
use blockchain_mapping_syste.Prelude.Exec.{Exec}
use blockchain_mapping_syste.Utils.{encode_hex}
use blockchain_mapping_syste.Block.{Block}
use blockchain_mapping_syste.Apply.{Platform}
use blockchain_mapping_syste.Chain.{Formats, get_head_block, get_block_by_number}
use blockchain_mapping_syste.ChainService.{
  Service, get_field, last_old_dkg_block, get_current_dkg_group,
}

module _ (p : Platform) (f : Formats p) where
  -- `get_head_block().header`; `None` has no header.
  abbrev pub head_of : Service p → Result Block
  head_of v = or_raise (get_head_block p f v.chain) attribute_error

  -- The block that started the current key generation.
  unfoldable pub last_dkg_block : ℕ → Service p → Result Block
  last_dkg_block interval v = do
    head ← head_of v
    number ← last_old_dkg_block interval head.header.number
    get_block_by_number p f number v.chain

  unfoldable pub get_current_group_key : ℕ → Service p → Result Bytes
  unfolding last_dkg_block
  get_current_group_key interval v = do b ← last_dkg_block interval v; ok b.header.group_pubkey

  -- `get_current_dkg_group`, with the addresses of the trie of the state.
  unfoldable pub current_dkg_group : (ℕ → Bytes) → ℕ → ℕ → Service p → Result (List Bytes)
  unfolding last_dkg_block
  current_dkg_group digest interval participants v = do
    b ← last_dkg_block interval v
    get_current_dkg_group digest participants (encode_hex b.header.random_number)
        (f.keys v.chain.state.trie)

  -- `extract_first_ip_from_address`; `first` is the first element of an IP set, if any.
  unfoldable pub extract_first_ip_from_address :
      (p.netaddr.IpSet → Option p.netaddr.Net) → Bytes → Exec (Service p) (Option p.netaddr.Net)
  extract_first_ip_from_address first address v =
      let (r, v') = get_field p f (λ b. b.own_ips) address v in
      elim r [ ok ips ↦ (ok (first ips), v') | err e ↦ (err e, v') ]
