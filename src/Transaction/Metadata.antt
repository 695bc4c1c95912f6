-- ===== src/Transaction/Metadata.antt =====
-- The metadata of a transaction, as its constructor checks and packs it.
use blockchain_mapping_syste.Prelude.{
  ℕ, ◌%◌, Bool, true, false, not, ◌||◌, Option, List, [], ◌∷◌, ◌++◌, Bytes, bytes_eq, length, ltb,
  nat_beq, if◌then◌else◌, Result, ok, err, exception, invalid_transaction, index_error, catch_as,
  or_raise, raise_if, ◌>>=◌, ◌>>◌,
}
use blockchain_mapping_syste.Prelude.Int.{pos}
use blockchain_mapping_syste.Utils.{
  Codec, Item, num, str, normalize_item, bytes_to_int, encode_int8,
}

-- The ipaddr package: what each constructor packs, `none` where it raises.
pub record IpAddr : Type 0 where
  -- `IPv4Address(x)`, `IPv6Address(x)`
  pub address4 : Item → Option Bytes
  pub address6 : Item → Option Bytes
  -- `IPv4Address(Bytes(x))`, `IPv6Address(Bytes(x))`
  pub packed4 : Item → Option Bytes
  pub packed6 : Item → Option Bytes
  -- `IPv4Network(value)`, `IPv6Network(value)`: address and prefix length
  pub network4 : Bytes → Option (Bytes × ℕ)
  pub network6 : Bytes → Option (Bytes × ℕ)
  -- `IPv4Network(str(IPv4Address(Bytes(a))) + '/' + str(bytes_to_int(p)))`, and for IPv6
  pub network4_of : Bytes → Bytes → Option (Bytes × ℕ)
  pub network6_of : Bytes → Bytes → Option (Bytes × ℕ)

-- The argument `metadata`: a string or a list.
pub data RawMetadata : Type 0 where
  text : Bytes → RawMetadata
  items : List Item → RawMetadata

unfoldable pub is_afi : ℕ → Bool
is_afi n = nat_beq n 1 || nat_beq n 2

-- `bytes_to_int(x)`; an int has no `encode`.
unfoldable pub bytes_of_item : Item → Result (ℕ × Bytes)
bytes_of_item (num x) = err exception
bytes_of_item (str b) = do n ← bytes_to_int b; ok (n, b)

-- The first item of a group: the afi and its byte. `true` is the mode of byte strings.
afi_item : Bool → Item → Result (ℕ × Bytes)
unfolding is_afi bytes_of_item
afi_item true x = do a ← bytes_of_item x; raise_if (not (is_afi a.0)) invalid_transaction; ok a
afi_item false (num (pos n)) = do
  b ← encode_int8 (pos n)
  raise_if (not (is_afi n)) invalid_transaction
  ok (n, b)
afi_item false x = err exception

-- The second item: the packed address.
ip_item : IpAddr → Bool → ℕ → Item → Option Bytes
ip_item ip true afi x = if nat_beq afi 1 then ip.packed4 x else ip.packed6 x
ip_item ip false afi x = if nat_beq afi 1 then ip.address4 x else ip.address6 x

-- `int_to_bytes` of a priority or a weight from 0 to 255. Python 2 orders any string above any int.
small_item : Codec → Bool → Item → Result Bytes
unfolding bytes_of_item
small_item c true x = do
  a ← bytes_of_item x
  raise_if (ltb 255 a.0) invalid_transaction
  ok (c.int_to_big_endian a.0)
small_item c false (num (pos n)) =
    if ltb 255 n then err invalid_transaction else ok (c.int_to_big_endian n)
small_item c false x = err invalid_transaction

module _ (c : Codec) (ip : IpAddr) (mode : Bool) where
  -- One round of the loop of category 2. Whatever is raised becomes `InvalidTransaction`.
  unfoldable pub map_server_item : Item → Item → Item → Result (List Bytes)
  unfolding afi_item ip_item
  map_server_item x y z =
      catch_as
        (do
          a ← afi_item mode x
          packed ← or_raise (ip_item ip mode a.0 y) exception
          addr ← normalize_item c z true
          ok (a.1 ∷ packed ∷ addr ∷ []))
        invalid_transaction

  -- One round of the loop of category 3.
  unfoldable pub locator_item : Item → Item → Item → Item → Result (List Bytes)
  unfolding afi_item ip_item small_item
  locator_item x y p w =
      catch_as
        (do
          a ← afi_item mode x
          packed ← or_raise (ip_item ip mode a.0 y) exception
          priority ← small_item c mode p
          weight ← small_item c mode w
          ok (a.1 ∷ packed ∷ priority ∷ weight ∷ []))
        invalid_transaction

  -- The loops; the lists whose length is no multiple are refused before.
  unfoldable pub map_servers : List Item → Result (List Bytes)
  unfolding map_server_item
  map_servers (x ∷ y ∷ z ∷ rest) = do
    group ← map_server_item x y z
    packed ← map_servers rest
    ok (group ++ packed)
  map_servers [] = ok []
  map_servers _ = err invalid_transaction

  unfoldable pub locators : List Item → Result (List Bytes)
  unfolding locator_item
  locators (x ∷ y ∷ p ∷ w ∷ rest) = do
    group ← locator_item x y p w
    packed ← locators rest
    ok (group ++ packed)
  locators [] = ok []
  locators _ = err invalid_transaction

-- `type(metadata[0])`: byte strings or ints.
unfoldable pub mode_of : List Item → Result Bool
mode_of [] = err index_error
mode_of (num _ ∷ _) = ok false
mode_of (str _ ∷ _) = ok true

-- Categories 0 and 1 take the empty string only.
unfoldable pub no_metadata : RawMetadata → Result (List Bytes)
no_metadata (text []) = ok []
no_metadata _ = err invalid_transaction

-- Categories 2 and 3 take a list whose length is a multiple of `k`.
unfoldable pub grouped :
    ℕ → (Bool → List Item → Result (List Bytes)) → RawMetadata → Result (List Bytes)
unfolding mode_of
grouped k loop (text _) = err invalid_transaction
grouped k loop (items l) =
    if nat_beq (length l % k) 0 then (do mode ← mode_of l; loop mode l) else err invalid_transaction

-- The part of the constructor that depends on the category.
unfoldable pub check_metadata : Codec → IpAddr → ℕ → RawMetadata → Result (List Bytes)
unfolding map_servers locators no_metadata grouped
check_metadata c ip category m =
    if nat_beq category 0 || nat_beq category 1
    then no_metadata m
    else if nat_beq category 2
    then grouped 3 (map_servers c ip) m
    else if nat_beq category 3
    then grouped 4 (locators c ip) m
    else err invalid_transaction
