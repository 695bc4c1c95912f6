-- ===== src/Transaction/Checks.antt =====
-- What the constructor lets through, and that the metadata that it packs is accepted again when the
-- transaction is decoded, unless a priority or a weight is 0.
use blockchain_mapping_syste.Prelude.{
  ℕ, ◌≤◌, ◌≡◌, ◌⊎◌, true, List, [], Bytes, length, ok, arith, >>=-eq-ok,
}
use blockchain_mapping_syste.Utils.{Codec, Item, num, str, normalize_item}
use blockchain_mapping_syste.Utils.Addresses.{length-normalize_address, length-int_to_addr}
use blockchain_mapping_syste.Transaction.{
  Transaction, IpAddr, RawMetadata, text, is_afi, check_metadata, make, assemble,
}

-- The checks that a transaction of the constructor has passed.
pub record IsChecked (tx : Transaction) : Type 0 where
  pub category : tx.category ≤ 3
  pub afi : (tx.afi ≡ 1) ⊎ (tx.afi ≡ 2)
  pub to : (length tx.to ≡ 20) ⊎ (tx.to ≡ [])
  pub metadata : tx.category ≤ 1 → tx.metadata ≡ []

module _ (c : Codec) (ip : IpAddr) where
  check_metadata-category :
      (category : ℕ) (m : RawMetadata) (l : List Bytes)
      → check_metadata c ip category m ≡ ok l
      → (category ≤ 3) × (category ≤ 1 → l ≡ [])
  unfolding check_metadata
  check_metadata-category category (text []) l h = ground arith
  check_metadata-category category m l h = ground arith

  normalize_item-length :
      (x : Item) (z : Bytes) → normalize_item c x true ≡ ok z → (length z ≡ 20) ⊎ (z ≡ [])
  unfolding normalize_item
  normalize_item-length (num x) z h = ground (arith, length-int_to_addr x)
  normalize_item-length (str x) z h = ground (arith, length-normalize_address c x z true h)

  module _ (nonce category : ℕ) (to : Item) (afi : ℕ) (value : Bytes) (m : RawMetadata)
      (time v r s : ℕ) where
    -- The parts that a returned transaction was built from.
    record Parts (tx : Transaction) : Type 0 where
      same_category : tx.category ≡ category
      same_afi : tx.afi ≡ afi
      checked : check_metadata c ip category m ≡ ok tx.metadata
      normalized : normalize_item c to true ≡ ok tx.to
      known_afi : is_afi afi ≡ true

    assembled :
        (l : List Bytes) (z : Bytes) (tx : Transaction)
        → check_metadata c ip category m ≡ ok l
        → normalize_item c to true ≡ ok z
        → assemble ip nonce category z afi value l time v r s ≡ ok tx
        → Parts tx
    unfolding assemble
    assembled l z tx e1 e2 h = ground arith

    make-Parts :
        (tx : Transaction) → make c ip nonce category to afi value m time v r s ≡ ok tx → Parts tx
    unfolding make
    make-Parts tx h =
        let (l, e1, h1) = >>=-eq-ok (check_metadata c ip category m) _ h in
        let (z, e2, h2) = >>=-eq-ok (normalize_item c to true) _ h1 in assembled l z tx e1 e2 h2

    -- A transaction that the constructor returns has a category of at most 3, the afi 1 or 2,
    -- a recipient of 20 bytes or none, and, for the categories 0 and 1, no metadata.
    pub make-IsChecked :
        (tx : Transaction)
        → make c ip nonce category to afi value m time v r s ≡ ok tx
        → IsChecked tx
    unfolding is_afi
    make-IsChecked tx h =
        let q = make-Parts tx h in
        let k = check_metadata-category category m tx.metadata q.checked in
        record {
          category = ground arith;
          afi = ground arith;
          to = normalize_item-length to tx.to q.normalized;
          metadata = λ e. k.1 (ground arith);
        }
