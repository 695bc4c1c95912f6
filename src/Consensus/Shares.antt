-- ===== src/Consensus/Shares.antt =====
-- What `store_share` does with a share: each member counts once, and the random number changes only
-- with a group signature that has been verified.
use blockchain_mapping_syste.Prelude.{
  ◌≤◌, true, false, ◌||◌, List, [], ◌∷◌, ◌++◌, Bytes, bytes_eq, bytes_beq_sound, ==_refl, ◌==◌,
  length, length-append, ◌≡◌, ◌≢◌, refl, inl, inr, arith, Bool-cases, Result-cases, ok,
}
use blockchain_mapping_syste.Consensus.{
  Bls, Share, Consensus, is_in, dkg_id_of, add_share, store_share,
}

-- No id is listed twice.
abbrev pub IsOnce : List Bytes → Type 0
IsOnce [] = Unit
IsOnce (x ∷ l) = (is_in x l ≡ false) × IsOnce l

is_in-append : (x y : Bytes) (l : List Bytes) → is_in x (l ++ y ∷ []) ≡ (is_in x l || y == x)
is_in-append x y [] = ground arith
is_in-append x y (z ∷ l) = ground (arith, is_in-append x y l)

append-IsOnce : (y : Bytes) (l : List Bytes) → IsOnce l → is_in y l ≡ false → IsOnce (l ++ y ∷ [])
append-IsOnce y [] h e = (refl, tt)
append-IsOnce y (z ∷ l) (h, k) e = (
  ground (arith, is_in-append z y l, bytes_beq_sound y z, ==_refl z),
  append-IsOnce y l k (ground arith),
)

-- The ids that have sent a share are distinct, and each has sent one signature.
pub record IsCounted (c : Consensus) : Type 0 where
  pub once : IsOnce c.shares_ids
  pub paired : length c.shares ≡ length c.shares_ids

module _ (k : Bls) where
  add_share-lists :
      (id sig msg : Bytes) (c : Consensus)
      → ((add_share k id sig msg c).1.shares_ids ≡ c.shares_ids ++ id ∷ [])
        × ((add_share k id sig msg c).1.shares ≡ c.shares ++ sig ∷ [])
  unfolding add_share
  add_share-lists id sig msg c = ground arith

  add_share-IsCounted :
      (id sig msg : Bytes) (c : Consensus)
      → IsCounted c
      → is_in id c.shares_ids ≡ false
      → IsCounted (add_share k id sig msg c).1
  add_share-IsCounted id sig msg c h e =
      let (ids, sigs) = add_share-lists id sig msg c in
      record {
        once = rw ids (append-IsOnce id c.shares_ids h.once e);
        paired =
            rw (ids, sigs)
              (omega (
                arith,
                length-append c.shares (sig ∷ []),
                length-append c.shares_ids (id ∷ []),
                h.paired,
              ));
      }

  -- A share of a new id before the end, or one that changes nothing.
  data Outcome (share : Share) (msg : Bytes) (c : Consensus) : Type 0 where
    added :
        (id : Bytes)
        → is_in id c.shares_ids ≡ false
        → store_share k share msg c ≡ add_share k id share.signature msg c
        → Outcome share msg c
    ignored :
        (store_share k share msg c).1 ≡ c
        → (store_share k share msg c).0 ≢ ok true
        → Outcome share msg c

  outcome : (share : Share) (msg : Bytes) (c : Consensus) → Outcome share msg c
  unfolding store_share
  outcome share msg c = elim (Result-cases (dkg_id_of share.source c)) [
    | inr (e, q) ↦ ignored (ground arith) (ground arith)
    | inl (id, q) ↦ elim (Bool-cases (is_in id c.shares_ids || c.verified)) [
      | inl seen ↦ ignored (ground arith) (ground arith)
      | inr fresh ↦ added id (ground arith) (ground arith)
    ]
  ]

  -- Where the stored ids are distinct and as many as the signatures, they are after
  -- `store_share` too, whether it returns or raises.
  pub store_share-IsCounted :
      (share : Share) (msg : Bytes) (c : Consensus)
      → IsCounted c
      → IsCounted (store_share k share msg c).1
  store_share-IsCounted share msg c h = elim (outcome share msg c) [
    | added id e q ↦ rw q (add_share-IsCounted id share.signature msg c h e)
    | ignored q n ↦ rw q h
  ]

  -- A new random number: enough members have signed, and it is the hash of their verified signature.
  pub record IsVerified (msg : Bytes) (c c' : Consensus) : Type 0 where
    pub verified : c'.verified ≡ true
    pub enough : k.threshold ≤ length c'.shares_ids
    pub signature : k.verify (k.sha256 msg) c'.group_sig c.group_key ≡ true
    pub random : c'.current_random_no ≡ k.sha256 c'.group_sig

  add_share-IsVerified :
      (id sig msg : Bytes) (c : Consensus)
      → (add_share k id sig msg c).0 ≡ ok true
      → IsVerified msg c (add_share k id sig msg c).1
  unfolding add_share
  add_share-IsVerified id sig msg c h = record {
    verified = ground arith;
    enough = ground arith;
    signature = ground arith;
    random = ground arith;
  }

  -- When `store_share` returns true, at least the threshold of ids is stored, the group
  -- signature is valid for the message under the group key, and the random number is its hash.
  pub store_share-IsVerified :
      (share : Share) (msg : Bytes) (c : Consensus)
      → (store_share k share msg c).0 ≡ ok true
      → IsVerified msg c (store_share k share msg c).1
  store_share-IsVerified share msg c h = elim (outcome share msg c) [
    | added id e q ↦ rw q (add_share-IsVerified id share.signature msg c (rw q at h))
    | ignored q n ↦ elim (n h) [ ]
  ]

  -- When `store_share` raises or returns false, the random number is as before.
  pub store_share-random :
      (share : Share) (msg : Bytes) (c : Consensus)
      → (store_share k share msg c).0 ≢ ok true
      → (store_share k share msg c).1.current_random_no ≡ c.current_random_no
  unfolding store_share add_share
  store_share-random share msg c h = ground arith
