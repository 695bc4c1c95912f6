-- ===== src/Tests/Model.antt =====
-- A small instance of everything that is a parameter: the packages, a chain state and transactions.
use blockchain_mapping_syste.Prelude.{
  ℕ, ◌+◌, ◌-◌, ◌*◌, ◌/◌, ◌%◌, ◌<◌, ◌≡◌, ◌↔◌, refl, sym, ap, ◌∙◌, Bool, true, false, ◌&&◌, Option,
  none, some, List, [], ◌∷◌, Bytes, bytes_eq, Eq, nat_eq, ltb, leb, replicate, if◌then◌else◌, arith,
  ok, err, value_error,
}
use blockchain_mapping_syste.Prelude.Dict.{Dict, lookup, insert}
use blockchain_mapping_syste.Utils.{Codec, IsBytes, encode_hex, Item, num, str}
use blockchain_mapping_syste.NetAddr.Singletons.{singletons, one_byte}
use blockchain_mapping_syste.Trie.Pairs.{pairs}
use blockchain_mapping_syste.Balance.{Balance, balance_of}
use blockchain_mapping_syste.State.{Stored}
use blockchain_mapping_syste.Transaction.{Transaction, Crypto, IpAddr}
use blockchain_mapping_syste.Block.{Block}
use blockchain_mapping_syste.Apply.{Platform, ChainState}

abbrev nibble : ℕ → ℕ
nibble ch = if ltb ch 58 then ch - 48 else ch - 87

abbrev pub decode : Bytes → Option Bytes
decode [] = some []
decode (a ∷ []) = none
decode (a ∷ b ∷ s) = elim (decode s) [
  | none ↦ none
  | some t ↦ some ((nibble a * 16 + nibble b) ∷ t)
]

digits :
    (b : ℕ)
    → b < 256
    → nibble (if ltb (b / 16) 10 then 48 + b / 16 else 87 + b / 16) * 16
        + nibble (if ltb (b % 16) 10 then 48 + b % 16 else 87 + b % 16)
      ≡ b
digits b h = ground arith

pub decode-encode_hex : (s : Bytes) → IsBytes s → decode (encode_hex s) ≡ some s
unfolding encode_hex
decode-encode_hex [] w = refl
decode-encode_hex (b ∷ s) (h, w) = rw (decode-encode_hex s w) (ap (λ c. some (c ∷ s)) (digits b h))

module _ {A B : Type 0} (f : A → B) (g : B → A) (back : (a : A) → g (f a) ≡ a) (e : Eq B) where
  pub via : (a b : A) → f a ≡ f b → a ≡ b
  via a b h = sym (back a) ∙ ap g h ∙ back b

  abbrev pub eq_via : Eq A
  eq_via = record {
    beq = λ a b. e.beq (f a) (f b);
    beq_iff = λ a b.
        (λ h. via a b ((e.beq_iff (f a) (f b)).0 h), λ h. (e.beq_iff (f a) (f b)).1 (ap f h));
  }

module _ {A B : Type 0} (e : Eq A) (f : Eq B) where
  abbrev pub pair_beq : A × B → A × B → Bool
  pair_beq (a, b) (c, d) = e.beq a c && f.beq b d

  pub pair_beq_iff : (p q : A × B) → (pair_beq p q ≡ true) ↔ (p ≡ q)
  pair_beq_iff (a, b) (c, d) = ground (arith, e.beq_iff a c, f.beq_iff b d)

  abbrev pub pair_eq : Eq (A × B)
  pair_eq = record { beq = pair_beq; beq_iff = pair_beq_iff }

module _ {A : Type 0} (e : Eq A) where
  abbrev pub list_beq : List A → List A → Bool
  list_beq [] [] = true
  list_beq [] (b ∷ t) = false
  list_beq (a ∷ s) [] = false
  list_beq (a ∷ s) (b ∷ t) = e.beq a b && list_beq s t

  pub list_beq_iff : (s t : List A) → (list_beq s t ≡ true) ↔ (s ≡ t)
  list_beq_iff [] [] = (λ h. refl, λ h. refl)
  list_beq_iff [] (b ∷ t) = (λ h. cc, λ h. cc)
  list_beq_iff (a ∷ s) [] = (λ h. cc, λ h. cc)
  list_beq_iff (a ∷ s) (b ∷ t) = ground (arith, e.beq_iff a b, list_beq_iff s t)

  abbrev pub list_eq : Eq (List A)
  list_eq = record { beq = list_beq; beq_iff = list_beq_iff }

abbrev pub Row : Type 0
Row = ℕ × (Bytes × (Dict Bytes Bytes × (Dict Bytes Bytes × (Dict ℕ Bytes × Dict ℕ (ℕ × ℕ)))))

abbrev pub row : Stored (Balance singletons) → Row
row d = (
  d.nonce,
  (
    d.balance.own_ips,
    (d.balance.delegated_ips, (d.balance.received_ips, (d.balance.map_server, d.balance.locator))),
  ),
)

abbrev pub of_row : Row → Stored (Balance singletons)
of_row (n, (o, (d, (r, (m, l))))) = record {
  nonce = n;
  balance = record {
    own_ips = o;
    delegated_ips = d;
    received_ips = r;
    map_server = m;
    locator = l;
  };
}

pub of_row-row : (d : Stored (Balance singletons)) → of_row (row d) ≡ d
of_row-row d = refl

abbrev pub row_eq : Eq Row
row_eq =
    let bytes = list_eq nat_eq in
    let sets = list_eq (pair_eq bytes bytes) in
    pair_eq nat_eq (
      pair_eq bytes (
        pair_eq sets (
          pair_eq sets (
            pair_eq (list_eq (pair_eq nat_eq bytes))
              (list_eq (pair_eq nat_eq (pair_eq nat_eq nat_eq)))))))

abbrev pub stored_eq : Eq (Stored (Balance singletons))
stored_eq = eq_via row of_row of_row-row row_eq

abbrev pub codec : Codec
codec = record {
  sha3 = λ s. replicate 32 0;
  decode_hex = decode;
  int_to_big_endian = λ n. if ltb n 1 then [] else n ∷ [];
  decode_hex-encode_hex = decode-encode_hex;
}

-- An address is its bytes.
abbrev pub parse_address : Item → Option Bytes
parse_address (num n) = none
parse_address (str b) = some b

abbrev pub ipaddr : IpAddr
ipaddr = record {
  address4 = parse_address;
  address6 = parse_address;
  packed4 = parse_address;
  packed6 = parse_address;
  network4 = λ b. none;
  network6 = λ b. none;
  network4_of = λ a p. some (a, 32);
  network6_of = λ a p. some (a, 128);
}

-- The public key of a signature is its `r`; a `v` above 34 is refused.
abbrev pub crypto : (T : Type 0) → Crypto T
crypto T = record {
  hash = λ x. [];
  unsigned_hash = λ x. [];
  network_hash = λ x n. [];
  sha3 = λ s. replicate 32 1;
  ecrecover = λ h v r s. if leb v 34 then ok (r ∷ []) else err value_error;
  ecsign = λ h key. (27, 1, 1);
  privtoaddr = λ key. replicate 20 1;
}

abbrev pub platform : Platform
platform = record {
  codec = codec;
  netaddr = singletons;
  trie = pairs stored_eq;
  tx_crypto = crypto Transaction;
  block_crypto = crypto Block;
  header_hash = λ h. h.extra_data;
  mk_transaction_sha = λ txs. [];
  network_of_v4 = λ a n. one_byte a;
  network_of_v6 = λ a n. one_byte a;
  net_text = λ n. n ∷ [];
  Tree = Dict Bytes Bytes;
  tree_set = λ d k v. insert k v d;
  search_best = λ d k. lookup k d;
}

abbrev pub alice : Bytes
alice = replicate 20 1

abbrev pub bob : Bytes
bob = replicate 20 2

-- Alice owns the network 7.
abbrev pub genesis : ChainState platform
genesis = record {
  trie = (alice, record { nonce = 0; balance = balance_of singletons (7 ∷ []) }) ∷ [];
  vars = record {
    txindex = 0;
    block_number = 0;
    block_coinbase = [];
    timestamp = 0;
    prev_headers = record { hash = 9 ∷ []; number = 0; timestamp = 0 } ∷ [];
  };
  journal = [];
  cache = [];
  changed = [];
  executing_on_head = false;
  addresses = [];
  env_db = [];
}

-- Alice's transaction of network 7, the value `7.0.0.0/32` packed.
abbrev pub transaction : ℕ → ℕ → Bytes → Bytes → Transaction
transaction nonce category to value = record {
  nonce = nonce;
  category = category;
  to = to;
  afi = 1;
  value = value;
  metadata = [];
  time = 0;
  v = 27;
  r = 1;
  s = 1;
  cached_sender = some alice;
}

abbrev pub seven : Bytes
seven = 7 ∷ 0 ∷ 0 ∷ 0 ∷ 32 ∷ []

abbrev pub block_of : List Transaction → Block
block_of txs = record {
  header = record {
    prevhash = 9 ∷ [];
    timestamp = 5;
    extra_data = 8 ∷ [];
    state_root = [];
    tx_root = [];
    number = 1;
    coinbase = [];
    random_number = [];
    group_pubkey = [];
    group_sig = [];
    count = 0;
  };
  transactions = txs;
  v = 27;
  r = 1;
  s = 1;
  cached_signer = some alice;
}
