-- ===== src/Block.antt =====
-- block.py: headers, blocks and the signer of a block. A property or attribute that `Block` lacks is
-- looked up in its header.
use blockchain_mapping_syste.Prelude.{
  ℕ, ◌&&◌, Option, none, some, List, Bytes, bytes_eq, ◌==◌, length, drop, replicate, leb, nat_beq,
  if◌then◌else◌, Result, ok, err, invalid_block, unbound_local, attribute_error, or_raise, raise_if,
  ◌>>=◌, ◌>>◌,
}
use blockchain_mapping_syste.Transaction.{
  Transaction, Crypto, null_address, is_plain, bad_signature_values,
}

pub record BlockHeader : Type 0 where
  pub prevhash : Bytes
  pub timestamp : ℕ
  pub extra_data : Bytes
  pub state_root : Bytes
  pub tx_root : Bytes
  pub number : ℕ
  pub coinbase : Bytes
  pub random_number : Bytes
  pub group_pubkey : Bytes
  pub group_sig : Bytes
  pub count : ℕ

-- An entry of `prev_headers`: a header with its hash, or a `FakeHeader`, which has these three only.
pub record PrevHeader : Type 0 where
  pub hash : Bytes
  pub number : ℕ
  pub timestamp : ℕ

pub record Block : Type 0 where
  pub header : BlockHeader
  pub transactions : List Transaction
  pub v : ℕ
  pub r : ℕ
  pub s : ℕ
  -- `_signer`
  pub cached_signer : Option Bytes

unfoldable pub prev_header : (BlockHeader → Bytes) → BlockHeader → PrevHeader
prev_header hash h = record { hash = hash h; number = h.number; timestamp = h.timestamp }

-- The hash that was signed. A block has no `network_id`, so the second form raises.
unfoldable pub block_sighash : Crypto Block → Block → Result (Option Bytes)
block_sighash k b =
    if is_plain b.v
    then ok (some (k.unsigned_hash b))
    else if leb 37 b.v
    then err attribute_error
    else ok none

unfoldable pub signer_of : Crypto Block → Bytes → Result Bytes
signer_of k pubkey =
    if pubkey == replicate 64 0 then err invalid_block else ok (drop 12 (k.sha3 pubkey))

-- The property `signer`, where it is not cached. For a genesis block the code first computes an
-- address and then overwrites it by the null address, as for every other unsigned block.
unfoldable pub recover_signer : Crypto Block → Block → Result Bytes
unfolding block_sighash signer_of
recover_signer k b = if nat_beq b.r 0 && nat_beq b.s 0 then ok null_address else do
  h ← block_sighash k b
  raise_if (bad_signature_values b.r b.s) invalid_block
  message ← or_raise h unbound_local
  pubkey ← k.ecrecover message b.v b.r b.s
  signer_of k pubkey

unfoldable pub signer : Crypto Block → Block → Result Bytes
unfolding recover_signer
signer k b = elim b.cached_signer [
  | none ↦ recover_signer k b
  | some a ↦ if nat_beq (length a) 0 then recover_signer k b else ok a
]

-- `sign` without a network id, the form that is used.
unfoldable pub sign_block : Crypto Block → Bytes → Block → Block
sign_block k key b =
    let (v, r, s) = k.ecsign (k.unsigned_hash b) key in
    record b { v = v; r = r; s = s; cached_signer = some (k.privtoaddr key) }
