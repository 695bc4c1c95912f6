-- ===== src/Tests/Rounds.antt =====
-- Shares, the next signer and the answers to map requests, on small values.
use blockchain_mapping_syste.Prelude.{
  ℕ, zero, suc, Bool, true, false, Option, none, some, List, [], ◌∷◌, ◌++◌, Bytes, bytes_eq,
  replicate, ◌≡◌, refl, ◌^◌, ok,
}
use blockchain_mapping_syste.Utils.{hex_value, compress_random_no_to_int}
use blockchain_mapping_syste.ChainService.{get_current_dkg_group}
use blockchain_mapping_syste.ChainService.Members.{IsGroup, get_current_dkg_group-IsGroup}
use blockchain_mapping_syste.Consensus.{
  Bls, Share, DkgShare, Member, Consensus, store_share, verify_dkg_contribution,
}
use blockchain_mapping_syste.Consensus.NextSigner.{calculate_next_signer}
use blockchain_mapping_syste.Consensus.Shares.{IsVerified, store_share-IsVerified}
use blockchain_mapping_syste.Consensus.Keys.{received, verify_dkg_contribution-received}
use blockchain_mapping_syste.Consensus.Signer.{IsHex, IsSigner, calculate_next_signer-IsSigner}
use blockchain_mapping_syste.MapReply.{
  LocatorRecord, servers, locator_bits, bits, response_bits, to_bytes,
}
use blockchain_mapping_syste.MapReply.Layout.{read_locator, fields_of, read_locator-locator_bits}
use blockchain_mapping_syste.MapReply.Alignment.{HasBytes, to_bytes-HasBytes}
use blockchain_mapping_syste.ShareCache.{ShareCache, get_future_bls, store_future_bls}
use blockchain_mapping_syste.ShareCache.Future.{waiting, get_future_bls-store_future_bls}

-- One share is enough, and every signature is valid.
abbrev pub bls : Bls
bls = record {
  sign = λ digest key. 1 ∷ [];
  recover = λ ids sigs. 2 ∷ [];
  verify = λ digest sig key. true;
  sha256 = λ x. 3 ∷ x;
  gen_key = λ oid. oid;
  verify_contribution = λ id contrib vector. true;
  contribute = λ ids. ([], []);
  add_contributions = λ l. 4 ∷ [];
  add_vectors = λ l. 5 ∷ [];
  threshold = 1;
}

abbrev member : Bytes → Option Bytes → Member
member id share = record { id = id; received_share = share; vvec = none }

-- The node 7 has the share 9 from the member 8, and none from itself.
abbrev pub consensus : Bool → Consensus
consensus verified = record {
  dkg_group = (7 ∷ []) ∷ (8 ∷ []) ∷ [];
  own_ids = (7 ∷ []) ∷ [];
  current_random_no = 0 ∷ [];
  secret_keys = [];
  group_key = [];
  group_sig = [];
  shares = [];
  shares_ids = [];
  msg = [];
  verified = verified;
  previous_group_key = [];
  members = some (
      (7 ∷ [], (7 ∷ [], member (7 ∷ []) none) ∷ (8 ∷ [], member (8 ∷ []) (some (9 ∷ []))) ∷ [])
      ∷ []);
}

abbrev pub share : Share
share = record { source = 8 ∷ []; signature = 6 ∷ []; block_number = 5 }

store_share-IsVerified_example :
    IsVerified bls [] (consensus false) (store_share bls share [] (consensus false)).1
unfolding store_share
store_share-IsVerified_example = store_share-IsVerified bls share [] (consensus false) refl

abbrev contribution : DkgShare
contribution = record {
  source = 7 ∷ [];
  to = 7 ∷ [];
  secret_share_contrib = 1 ∷ [];
  verif_vector = [];
}

verify_dkg_contribution-received_example :
    received
      (7 ∷ [])
      (8 ∷ [])
      (verify_dkg_contribution bls contribution (consensus false)).1.members
    ≡ some (9 ∷ [])
verify_dkg_contribution-received_example =
    verify_dkg_contribution-received bls contribution (consensus false) (7 ∷ []) (8 ∷ []) (9 ∷ [])
      refl

abbrev digits : Bytes
digits = replicate 64 49

ones_are_digits : (n : ℕ) → IsHex (replicate n 49)
unfolding hex_value
ones_are_digits zero = tt
ones_are_digits (suc n) = ((1, refl), ones_are_digits n)

calculate_next_signer-IsSigner_example : IsSigner (2 ^ 32) (calculate_next_signer 3 digits)
calculate_next_signer-IsSigner_example =
    calculate_next_signer-IsSigner 3 digits refl (ones_are_digits 64)

abbrev locator : LocatorRecord
locator = record {
  priority = 1;
  weight = 2;
  mpriority = 0;
  mweight = 0;
  unusedflags = 0;
  lpr = 0;
  locator = some (record { version = 4; ip = 77; prefixlen = 32 });
}

abbrev locator_result : List Bool
locator_result =
    bits 8 1
    ++ (bits 8 2
        ++ (bits 8 0 ++ (bits 8 0 ++ (bits 13 0 ++ (bits 3 0 ++ (bits 16 1 ++ bits 32 77))))))

read_locator-locator_bits_example :
    read_locator (locator_result ++ true ∷ []) ≡ some (fields_of locator, true ∷ [])
unfolding locator_bits
read_locator-locator_bits_example =
    read_locator-locator_bits locator locator_result (true ∷ []) refl

abbrev response_result : List Bool
response_result = bits 64 5 ++ (bits 8 0 ++ (bits 8 0 ++ []))

to_bytes-HasBytes_example : HasBytes response_result (to_bytes 5 (servers []))
unfolding response_bits
to_bytes-HasBytes_example = to_bytes-HasBytes 5 (servers []) response_result refl

abbrev cache : ShareCache
cache = record {
  dkg_share_cache = [];
  bls_share_cache = [];
  bls_future_shares = (5, share ∷ []) ∷ [];
  last_time_clear = 0;
}

get_future_bls-store_future_bls_example :
    let (r, c') = get_future_bls 5 (store_future_bls share cache) in
    (r ≡ ok share) × ((n : ℕ) → waiting n c' ≡ waiting n cache)
get_future_bls-store_future_bls_example = get_future_bls-store_future_bls share cache

get_current_dkg_group-IsGroup_example :
    IsGroup 2 ((7 ∷ []) ∷ (8 ∷ []) ∷ []) ((7 ∷ []) ∷ (8 ∷ []) ∷ [])
unfolding get_current_dkg_group compress_random_no_to_int
get_current_dkg_group-IsGroup_example =
    get_current_dkg_group-IsGroup (λ n. digits) 2 digits ((7 ∷ []) ∷ (8 ∷ []) ∷ [])
      ((7 ∷ []) ∷ (8 ∷ []) ∷ []) (refl, (refl, tt)) refl
