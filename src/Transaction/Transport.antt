-- ===== src/Transaction/Transport.antt =====
-- Decoding runs the constructor again, on the packed metadata. What was packed from ints is accepted
-- unchanged, but for a locator whose priority or weight is 0: its empty byte string is no number.
use blockchain_mapping_syste.Prelude.{
  ℕ, ◌<◌, ◌≡◌, ◌≢◌, inl, inr, refl, ap, ◌∙◌, true, false, some, List, [], ◌∷◌, ◌++◌, map, Bytes,
  nat_beq, if◌then◌else◌, ok, err, arith, >>=-eq-ok, Option-cases, value_error,
}
use blockchain_mapping_syste.Prelude.Int.{pos}
use blockchain_mapping_syste.Utils.{Codec, Item, num, str, bytes_to_int, encode_int8}
use blockchain_mapping_syste.NetAddr.{NetAddr}
use blockchain_mapping_syste.Balance.{Balance, set_locator, locators_from, ipaddr_to_netaddr}
use blockchain_mapping_syste.Transaction.{IpAddr, is_afi, locator_item, locators}

bytes_to_int-nil : bytes_to_int [] ≡ err value_error
unfolding bytes_to_int
bytes_to_int-nil = refl

-- One packed byte is read back.
bytes_to_int-byte : (n : ℕ) → bytes_to_int (n ∷ []) ≡ ok n
unfolding bytes_to_int
bytes_to_int-byte n = ap ok (omega arith)

ok-injective : {A : Type 0} (x y : A) → ok x ≡ ok y → x ≡ y
ok-injective x y h = cc

-- An empty priority is no number, whatever the afi and the address are.
refuse_group :
    (n : NetAddr) (b : Balance n) (a : ℕ) (packed w : Bytes) (more : List Bytes)
    → is_afi a ≡ true
    → set_locator n ((a ∷ []) ∷ packed ∷ [] ∷ w ∷ more) b ≡ err value_error
unfolding set_locator locators_from ipaddr_to_netaddr is_afi
refuse_group n b a packed w more k = ground (arith, bytes_to_int-byte a, bytes_to_int-nil)

module _ (c : Codec) (ip : IpAddr) where
  -- A group of a locator that was packed from ints.
  record Packed (y : Item) (p : ℕ) (w : Item) (g : List Bytes) : Type 0 where
    afi : ℕ
    packed : Bytes
    weight : ℕ
    known : is_afi afi ≡ true
    is_weight : w ≡ num (pos weight)
    small_priority : p < 256
    small : weight < 256
    parsed : (if nat_beq afi 1 then ip.address4 y else ip.address6 y) ≡ some packed
    group : g ≡ (afi ∷ []) ∷ packed ∷ c.int_to_big_endian p ∷ c.int_to_big_endian weight ∷ []

  locator_item-Packed :
      (x y : Item) (p : ℕ) (w : Item) (g : List Bytes)
      → locator_item c ip false x y (num (pos p)) w ≡ ok g
      → Packed y p w g
  unfolding locator_item encode_int8
  locator_item-Packed (num (pos n)) y p (num (pos q)) g h =
      elim (Option-cases (if nat_beq n 1 then ip.address4 y else ip.address6 y)) [
        | inl e ↦ ground arith
        | inr (b, e) ↦ record {
          afi = n;
          packed = b;
          weight = q;
          known = ground arith;
          is_weight = refl;
          small_priority = ground arith;
          small = ground arith;
          parsed = e;
          group = ground arith;
        }
      ]
  locator_item-Packed x y p w g h = ground arith

  refuse :
      (n : NetAddr) (b : Balance n) {y w : Item} (g more l : List Bytes)
      → c.int_to_big_endian 0 ≡ []
      → Packed y 0 w g
      → ok (g ++ more) ≡ ok l
      → set_locator n l b ≡ err value_error
  refuse n b g more l zero k h =
      let group =
        k.group ∙ ap (λ z. (k.afi ∷ []) ∷ k.packed ∷ z ∷ c.int_to_big_endian k.weight ∷ []) zero in
      let list = ok-injective (g ++ more) l h in
      rw (← list)
        (rw group (refuse_group n b k.afi k.packed (c.int_to_big_endian k.weight) more k.known))

  -- Where 0 is packed as the empty string: a list of locators from ints whose first priority is
  -- 0, and that the constructor accepts, makes `set_locator` raise a `ValueError` on every
  -- balance.
  pub set_locator-zero_priority :
      (n : NetAddr) (b : Balance n) (x y w : Item) (rest : List Item) (l : List Bytes)
      → c.int_to_big_endian 0 ≡ []
      → locators c ip false (x ∷ y ∷ num (pos 0) ∷ w ∷ rest) ≡ ok l
      → set_locator n l b ≡ err value_error
  unfolding locators
  set_locator-zero_priority n b x y w rest l zero h =
      let (g, e1, h1) = >>=-eq-ok (locator_item c ip false x y (num (pos 0)) w) _ h in
      let (more, e2, h2) = >>=-eq-ok (locators c ip false rest) _ h1 in
      refuse n b g more l zero (locator_item-Packed x y 0 w g e1) h2

  priority_of :
      (x y p w : Item) (g : List Bytes)
      → locator_item c ip false x y p w ≡ ok g
      → (n : ℕ) × (p ≡ num (pos n))
  unfolding locator_item
  priority_of x y (num (pos n)) w g h = (n, refl)
  priority_of x y p w g h = ground arith

  -- Each priority and weight of the list is another number than 0.
  abbrev pub IsPositive : List Item → Type 0
  IsPositive (x ∷ y ∷ p ∷ w ∷ rest) = (p ≢ num (pos 0)) × (w ≢ num (pos 0)) × IsPositive rest
  IsPositive _ = Unit

  module _ (again4 : (y : Item) (p : Bytes) → ip.address4 y ≡ some p → ip.packed4 (str p) ≡ some p)
      (again6 : (y : Item) (p : Bytes) → ip.address6 y ≡ some p → ip.packed6 (str p) ≡ some p)
      (value_of : (p : ℕ) → 0 < p → p < 256 → bytes_to_int (c.int_to_big_endian p) ≡ ok p) where
    locator_item_again :
        (a : ℕ) (y : Item) (packed : Bytes) (p q : ℕ)
        → is_afi a ≡ true
        → (if nat_beq a 1 then ip.address4 y else ip.address6 y) ≡ some packed
        → 0 < p
        → p < 256
        → 0 < q
        → q < 256
        → locator_item c ip true
            (str (a ∷ []))
            (str packed)
            (str (c.int_to_big_endian p))
            (str (c.int_to_big_endian q))
          ≡ ok ((a ∷ []) ∷ packed ∷ c.int_to_big_endian p ∷ c.int_to_big_endian q ∷ [])
    unfolding locator_item
    locator_item_again a y packed p q k e p0 p1 q0 q1 = ground (
      arith,
      bytes_to_int-byte a,
      value_of p p0 p1,
      value_of q q0 q1,
      again4 y packed,
      again6 y packed,
    )

    group_again :
        (x y w : Item) (p : ℕ) (g more : List Bytes)
        → num (pos p) ≢ num (pos 0)
        → w ≢ num (pos 0)
        → locator_item c ip false x y (num (pos p)) w ≡ ok g
        → locators c ip true (map str more) ≡ ok more
        → locators c ip true (map str (g ++ more)) ≡ ok (g ++ more)
    unfolding locators
    group_again x y w p g more kp kw h ih =
        let k = locator_item-Packed x y p w g h in
        let q0 : 0 < k.weight = ground (arith, k.is_weight, kw) in
        let again =
          locator_item_again k.afi y k.packed p k.weight k.known k.parsed (ground arith)
            k.small_priority q0 k.small in
        rw k.group (rw again (rw ih))

    -- Where a packed address parses as itself and a byte above 0 is read back as it was
    -- packed: the metadata of locators that is packed from ints, no priority or weight being
    -- 0, is accepted unchanged when it is read as byte strings.
    pub locators_again :
        (l : List Item) (m : List Bytes)
        → IsPositive l
        → locators c ip false l ≡ ok m
        → locators c ip true (map str m) ≡ ok m
    unfolding locators
    locators_again [] m k h = rw (← ok-injective [] m h)
    locators_again (x ∷ y ∷ p ∷ w ∷ rest) m (kp, kw, k) h =
        let (g, e1, h1) = >>=-eq-ok (locator_item c ip false x y p w) _ h in
        let (more, e2, h2) = >>=-eq-ok (locators c ip false rest) _ h1 in
        let (n, ep) = priority_of x y p w g e1 in
        let list = ok-injective (g ++ more) m h2 in
        rw (← list) (
          group_again x y w n g more (rw ep at kp) kw (rw ep at e1) (locators_again rest more k e2))
    locators_again (x ∷ []) m k h = cc
    locators_again (x ∷ y ∷ []) m k h = cc
    locators_again (x ∷ y ∷ z ∷ []) m k h = cc
