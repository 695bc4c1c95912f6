-- ===== src/Transaction.antt =====
-- transactions.py: the transaction, its constructor's checks, its signature and its sender. The
-- parsers of the ipaddr package are the fields of `IpAddr`; hashing, the RLP encoding and the curve
-- secp256k1 are those of `Crypto`.
mod Metadata
pub mod Checks
pub mod Signature
pub mod Transport
pub use Metadata.{IpAddr, RawMetadata, text, items}
unfoldable pub use Metadata.{
  is_afi, bytes_of_item, map_server_item, locator_item, map_servers, locators, check_metadata,
}
use blockchain_mapping_syste.Prelude.{
  ℕ, suc, ◌+◌, ◌-◌, ◌*◌, ◌/◌, ◌^◌, Bool, true, false, not, ◌&&◌, ◌||◌, Option, none, some, List, [],
  ◌∷◌, ◌++◌, Bytes, bytes_eq, ◌==◌, length, take, drop, get_elem?, replicate, ltb, leb, nat_beq,
  if◌then◌else◌, Result, ok, err, exception, assertion_error, invalid_transaction, unbound_local,
  index_error, value_error, catch_as, or_raise, raise_if, ◌>>=◌, ◌>>◌,
}
use blockchain_mapping_syste.Prelude.Int.{ℤ, pos, negsuc}
use blockchain_mapping_syste.Utils.{
  Codec, Item, num, str, normalize_item, bytes_to_int, encode_int8,
}

pub record Transaction : Type 0 where
  pub nonce : ℕ
  pub category : ℕ
  pub to : Bytes
  pub afi : ℕ
  pub value : Bytes
  pub metadata : List Bytes
  pub time : ℕ
  pub v : ℕ
  pub r : ℕ
  pub s : ℕ
  -- `_sender`, which `sign` and the first use of `sender` fill in.
  pub cached_sender : Option Bytes

-- The fields of `UnsignedTransaction`, the others blank.
abbrev pub unsigned : Transaction → Transaction
unsigned tx = record tx { v = 0; r = 0; s = 0; cached_sender = none }

-- sha3, rlp and py_ecc, over the signed objects of a type `T`.
pub record Crypto (T : Type 0) : Type 0 where
  -- `sha3(rlp.encode(self))`, of the object without its signature, and with a network id in its place
  pub hash : T → Bytes
  pub unsigned_hash : T → Bytes
  pub network_hash : T → Option ℤ → Bytes
  pub sha3 : Bytes → Bytes
  -- `ecrecover_to_pub(sighash, v, r, s)`, `ecsign(rawhash, key)`, `privtoaddr(key)`
  pub ecrecover : Bytes → ℕ → ℕ → ℕ → Result Bytes
  pub ecsign : Bytes → Bytes → ℕ × ℕ × ℕ
  pub privtoaddr : Bytes → Bytes

abbrev pub secpk1n : ℕ
secpk1n = 115792089237316195423570985008687907852837564279074904382605163141518161494337

abbrev pub null_address : Bytes
null_address = replicate 20 255

-- The two attempts to read `value`: as text, then as an address and a prefix length in bytes.
unfoldable pub read_network : IpAddr → ℕ → Bytes → Result (Bytes × ℕ)
read_network ip afi value = elim ((if nat_beq afi 1 then ip.network4 else ip.network6) value) [
  | some net ↦ ok net
  | none ↦
      if nat_beq (length value) 5
      then or_raise (ip.network4_of (take 4 value) (drop 4 value)) invalid_transaction
      else if nat_beq (length value) 17
      then or_raise (ip.network6_of (take 16 value) (drop 16 value)) invalid_transaction
      else err invalid_transaction
]

-- The constructor from its check of the afi on, `to` and `metadata` being normalised.
unfoldable pub assemble :
    IpAddr → ℕ → ℕ → Bytes → ℕ → Bytes → List Bytes → ℕ → ℕ → ℕ → ℕ → Result Transaction
unfolding read_network
assemble ip nonce category to afi value metadata time v r s = do
  raise_if (not (is_afi afi)) invalid_transaction
  net ← read_network ip afi value
  prefixlen ← encode_int8 (pos net.1)
  ok (record {
    nonce = nonce;
    category = category;
    to = to;
    afi = afi;
    value = net.0 ++ prefixlen;
    metadata = metadata;
    time = time;
    v = v;
    r = r;
    s = s;
    cached_sender = none;
  })

-- `Transaction.__init__`
unfoldable pub make :
    Codec → IpAddr → ℕ → ℕ → Item → ℕ → Bytes → RawMetadata → ℕ → ℕ → ℕ → ℕ → Result Transaction
unfolding check_metadata assemble
make c ip nonce category to afi value metadata time v r s = do
  metadata' ← check_metadata c ip category metadata
  to' ← normalize_item c to true
  assemble ip nonce category to' afi value metadata' time v r s

-- `b'Allocate:\n'` and the other prefixes.
abbrev pub prefix_of : ℕ → Bytes
prefix_of category =
    if nat_beq category 0
    then 65 ∷ 108 ∷ 108 ∷ 111 ∷ 99 ∷ 97 ∷ 116 ∷ 101 ∷ 58 ∷ 10 ∷ []
    else if nat_beq category 1
    then 68 ∷ 101 ∷ 108 ∷ 101 ∷ 103 ∷ 97 ∷ 116 ∷ 101 ∷ 58 ∷ 10 ∷ []
    else if nat_beq category 2
    then 77 ∷ 97 ∷ 112 ∷ 83 ∷ 101 ∷ 114 ∷ 118 ∷ 101 ∷ 114 ∷ 58 ∷ 10 ∷ []
    else if nat_beq category 3
    then 76 ∷ 111 ∷ 99 ∷ 97 ∷ 116 ∷ 111 ∷ 114 ∷ 58 ∷ 10 ∷ []
    else []

unfoldable pub hash_message : Codec → Bytes → Transaction → Bytes
hash_message c msg tx =
    let prefix = prefix_of tx.category in
    c.sha3
      (c.int_to_big_endian (length prefix) ++ prefix ++ c.int_to_big_endian (length msg) ++ msg)

-- `v in (27, 28)`
abbrev pub is_plain : ℕ → Bool
is_plain v = nat_beq v 27 || nat_beq v 28

-- `((v - 1) // 2) - 17`, which is negative below 35.
unfoldable pub id_of_v : ℕ → ℤ
id_of_v v = if leb 35 v then pos ((v - 1) / 2 - 17) else negsuc (17 - (v + 1) / 2)

-- The property `network_id`; `none` is Python's `None`.
unfoldable pub network_id : Transaction → Option ℤ
unfolding id_of_v
network_id tx =
    if nat_beq tx.r 0 && nat_beq tx.s 0
    then some (pos tx.v)
    else if is_plain tx.v
    then none
    else some (id_of_v tx.v)

-- `v - network_id * 2 - 8`, where `v` is at least 37.
unfoldable pub vee : ℕ → Option ℤ → ℕ
vee v none = v
vee v (some (pos n)) = v - n * 2 - 8
vee v (some (negsuc n)) = v + (n + 1) * 2 - 8

-- The hash that was signed, if `v` has one of the two forms. `vee` serves the assertion only.
unfoldable pub sighash : Crypto Transaction → Transaction → Result (Option Bytes)
unfolding network_id vee
sighash k tx =
    if is_plain tx.v
    then ok (some (k.unsigned_hash (unsigned tx)))
    else if leb 37 tx.v
    then if is_plain (vee tx.v (network_id tx))
      then ok (some (k.network_hash (unsigned tx) (network_id tx)))
      else err assertion_error
    else ok none

abbrev pub bad_signature_values : ℕ → ℕ → Bool
bad_signature_values r s = leb secpk1n r || leb secpk1n s || nat_beq r 0 || nat_beq s 0

-- The address of a public key, `sha3(pub)[-20:]` of a hash of 32 bytes.
unfoldable pub address_of : Crypto Transaction → Bytes → Result Bytes
address_of k pubkey =
    if pubkey == replicate 64 0 then err invalid_transaction else ok (drop 12 (k.sha3 pubkey))

-- The property `sender`, where it is not cached.
unfoldable pub recover_sender : Crypto Transaction → Transaction → Result Bytes
unfolding sighash address_of
recover_sender k tx = if nat_beq tx.r 0 && nat_beq tx.s 0 then ok null_address else do
  h ← sighash k tx
  raise_if (bad_signature_values tx.r tx.s) invalid_transaction
  message ← or_raise h unbound_local
  pubkey ← k.ecrecover message tx.v tx.r tx.s
  address_of k pubkey

unfoldable pub sender : Crypto Transaction → Transaction → Result Bytes
unfolding recover_sender
sender k tx = elim tx.cached_sender [
  | none ↦ recover_sender k tx
  | some a ↦ if nat_beq (length a) 0 then recover_sender k tx else ok a
]

-- `sign`, with a key that `normalize_key` has accepted.
unfoldable pub sign : Crypto Transaction → Bytes → Option ℕ → Transaction → Result Transaction
sign k key none tx =
    let (v, r, s) = k.ecsign (k.unsigned_hash (unsigned tx)) key in
    ok (record tx { v = v; r = r; s = s; cached_sender = some (k.privtoaddr key) })
sign k key (some n) tx = do
  raise_if (not (leb 1 n && ltb n (2 ^ 63 - 18))) assertion_error
  let (v, r, s) = k.ecsign (k.network_hash (unsigned tx) (some (pos n))) key
  ok (record tx { v = v + (8 + n * 2); r = r; s = s; cached_sender = some (k.privtoaddr key) })
