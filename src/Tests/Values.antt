-- ===== src/Tests/Values.antt =====
-- Addresses, balances, transactions and states of the instance.
use blockchain_mapping_syste.Prelude.{
  ℕ, ◌<◌, ◌≡◌, ◌≢◌, refl, arith, true, none, some, List, [], ◌∷◌, map, Bytes, bytes_eq,
  if◌then◌else◌, leb, ok, err, value_error,
}
use blockchain_mapping_syste.Prelude.Int.{pos}
use blockchain_mapping_syste.Prelude.Dict.{Dict}
use blockchain_mapping_syste.Utils.{
  Item, num, str, encode_hex, normalize_address, normalize_item, encode_int8, bytes_to_int,
}
use blockchain_mapping_syste.NetAddr.Singletons.{singletons}
use blockchain_mapping_syste.Balance.{Balance, affected_delegated_ips, set_locator, locators_from}
use blockchain_mapping_syste.Balance.Affected.{entry, overlap, lookup-affected_delegated_ips}
use blockchain_mapping_syste.Balance.Mappings.{LocatorItem, set_locator-shared}
use blockchain_mapping_syste.Transaction.{
  Transaction, make, text, network_id, sign, recover_sender, locators,
}
use blockchain_mapping_syste.Transaction.Checks.{IsChecked, make-IsChecked}
use blockchain_mapping_syste.Transaction.Signature.{
  network_id-sign, IsCurve, IsHonest, recover_sender-sign, recover_sender-network,
}
use blockchain_mapping_syste.Transaction.Transport.{set_locator-zero_priority, locators_again}
use blockchain_mapping_syste.Tests.Model.{codec, crypto, ipaddr, alice, bob, transaction, seven}

abbrev delegations : Dict Bytes (List ℕ)
delegations = (bob, 3 ∷ 4 ∷ []) ∷ (alice, 5 ∷ []) ∷ []

abbrev delegator : Balance singletons
delegator = record {
  own_ips = 3 ∷ 4 ∷ 5 ∷ [];
  delegated_ips = delegations;
  received_ips = [];
  map_server = [];
  locator = [];
}

lookup-affected_delegated_ips_example :
    entry (encode_hex bob) (affected_delegated_ips singletons 3 delegator)
    ≡ ok (overlap singletons (3 ∷ []) (some (3 ∷ 4 ∷ [])))
lookup-affected_delegated_ips_example =
    lookup-affected_delegated_ips codec singletons bob (ground arith) 3 delegator (ground arith)

abbrev locator_item : ℕ → ℕ → ℕ → LocatorItem
locator_item ip p w = record { afi = 1 ∷ []; ip = ip ∷ []; priority = p ∷ []; weight = w ∷ [] }

set_locator-shared_example : ◌≡◌ {A = ℕ × ℕ} (40, 60) (40, 60)
unfolding set_locator locators_from bytes_to_int
set_locator-shared_example =
    set_locator-shared singletons (locator_item 3 10 20 ∷ []) (locator_item 4 40 60) delegator
      (record delegator { locator = (3, (40, 60)) ∷ (4, (40, 60)) ∷ [] }) 40 60 refl refl refl 3
      (40, 60) refl

make-IsChecked_example : IsChecked (record (transaction 0 0 bob seven) { cached_sender = none })
unfolding make normalize_address normalize_item encode_int8
make-IsChecked_example =
    make-IsChecked codec ipaddr 0 0 (str bob) 1 seven (text []) 0 27 1 1
      (record (transaction 0 0 bob seven) { cached_sender = none }) refl

abbrev networked : Transaction
networked = record (transaction 0 0 bob seven) { v = 37; cached_sender = none }

network_id-sign_example :
    network_id (record networked { cached_sender = some alice }) ≡ some (pos 1)
unfolding sign
network_id-sign_example =
    network_id-sign (crypto Transaction) [] 1 (transaction 0 0 bob seven)
      (record networked { cached_sender = some alice }) (refl, refl) refl

curve : IsCurve (crypto Transaction) (3 ∷ []) (1 ∷ [])
curve = record {
  plain = λ h. refl;
  in_range = λ h. refl;
  recovers = λ h. refl;
  not_zero = refl;
  address = refl;
  address_length = refl;
}

recover_sender-sign_example :
    (recover_sender (crypto Transaction) (transaction 0 0 bob seven) ≡ ok alice)
    × IsHonest (crypto Transaction) (transaction 0 0 bob seven)
unfolding sign
recover_sender-sign_example =
    recover_sender-sign (crypto Transaction) (3 ∷ []) (1 ∷ [])
      (record (transaction 0 0 bob seven) { v = 0; r = 0; s = 0; cached_sender = none })
      (transaction 0 0 bob seven) curve refl

refuses :
    (h : Bytes) (v r s : ℕ) (a : Bytes)
    → 34 < v
    → (if leb v 34 then ok (r ∷ []) else err value_error) ≢ ok a
refuses h v r s a l e = ground arith

recover_sender-network_example : recover_sender (crypto Transaction) networked ≢ ok alice
recover_sender-network_example =
    recover_sender-network (crypto Transaction) refuses networked alice (omega arith) refl

abbrev zero_locator : List Item
zero_locator = num (pos 1) ∷ str (3 ∷ []) ∷ num (pos 0) ∷ num (pos 9) ∷ []

set_locator-zero_priority_example :
    set_locator singletons ((1 ∷ []) ∷ (3 ∷ []) ∷ [] ∷ (9 ∷ []) ∷ []) delegator ≡ err value_error
unfolding locators encode_int8
set_locator-zero_priority_example =
    set_locator-zero_priority codec ipaddr singletons delegator (num (pos 1)) (str (3 ∷ []))
      (num (pos 9)) [] ((1 ∷ []) ∷ (3 ∷ []) ∷ [] ∷ (9 ∷ []) ∷ []) refl refl

abbrev locator_packed : List Bytes
locator_packed = (1 ∷ []) ∷ (3 ∷ []) ∷ (8 ∷ []) ∷ (9 ∷ []) ∷ []

parsed_again : (y : Item) (p : Bytes) → ipaddr.address4 y ≡ some p → ipaddr.packed4 (str p) ≡ some p
parsed_again y p h = refl

byte_again : (p : ℕ) → 0 < p → p < 256 → bytes_to_int (codec.int_to_big_endian p) ≡ ok p
unfolding bytes_to_int
byte_again p h k = ground arith

locators_again_example : locators codec ipaddr true (map str locator_packed) ≡ ok locator_packed
unfolding locators encode_int8
locators_again_example =
    locators_again codec ipaddr parsed_again parsed_again byte_again
      (num (pos 1) ∷ str (3 ∷ []) ∷ num (pos 8) ∷ num (pos 9) ∷ []) locator_packed
      ((λ h. ground arith), (λ h. ground arith), tt) refl
