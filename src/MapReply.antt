-- ===== src/MapReply.antt =====
-- map_reply.py: the bits of the answers to map requests. A `BitArray` is the list of its bits, and
-- the packages' checks on a field that does not fit are part of `uint`.
pub mod Layout
pub mod Alignment
use blockchain_mapping_syste.Prelude.{
  ℕ, zero, suc, ◌+◌, ◌*◌, ◌/◌, ◌%◌, ◌^◌, Bool, true, false, not, Option, none, some, List, [], ◌∷◌,
  ◌++◌, length, replicate, ltb, nat_beq, if◌then◌else◌, Result, ok, err, exception, value_error,
  unbound_local, catch_as, or_raise, Bytes, ◌>>=◌,
}

-- The `n` bits of a number, the highest first.
unfoldable pub bits : ℕ → ℕ → List Bool
bits zero v = []
bits (suc n) v = bits n (v / 2) ++ not (nat_beq (v % 2) 0) ∷ []

abbrev pub byte_of : List Bool → ℕ → ℕ
byte_of [] acc = acc
byte_of (b ∷ l) acc = byte_of l (acc * 2 + (if b then 1 else 0))

-- `BitArray('uint:n=v')`
unfoldable pub uint : ℕ → ℕ → Result (List Bool)
uint n v = if ltb v (2 ^ n) then ok (bits n v) else err value_error

-- An IP network of netaddr: its version, the number of its address, and its prefix length.
pub record Net : Type 0 where
  pub version : ℕ
  pub ip : ℕ
  pub prefixlen : ℕ

unfoldable pub get_bitstream_for_afi_address : Option Net → Result (List Bool)
unfolding uint
get_bitstream_for_afi_address none = ok (replicate 16 false)
get_bitstream_for_afi_address (some a) =
    if nat_beq a.version 4
    then (do x ← uint 16 1; y ← uint 32 a.ip; ok (x ++ y))
    else if nat_beq a.version 6
    then (do x ← uint 16 2; y ← uint 128 a.ip; ok (x ++ y))
    else err value_error

pub record LocatorRecord : Type 0 where
  pub priority : ℕ
  pub weight : ℕ
  pub mpriority : ℕ
  pub mweight : ℕ
  pub unusedflags : ℕ
  pub lpr : ℕ
  pub locator : Option Net

-- `LocatorRecord.to_bitstream`
unfoldable pub locator_bits : LocatorRecord → Result (List Bool)
unfolding uint get_bitstream_for_afi_address
locator_bits l = do
  priority ← uint 8 l.priority
  weight ← uint 8 l.weight
  mpriority ← uint 8 l.mpriority
  mweight ← uint 8 l.mweight
  unusedflags ← uint 13 l.unusedflags
  lpr ← uint 3 l.lpr
  locator ← get_bitstream_for_afi_address l.locator
  ok (priority ++ (weight ++ (mpriority ++ (mweight ++ (unusedflags ++ (lpr ++ locator))))))

-- `eid_prefix` is an object with a prefix length, so it is not `None`.
pub record MapReplyRecord : Type 0 where
  pub ttl : ℕ
  pub action : ℕ
  pub authoritative : Bool
  pub map_version : ℕ
  pub eid_prefix : Net
  pub locator_records : List LocatorRecord

-- The loop over the locator records.
unfoldable pub locators_bits : List LocatorRecord → Result (List Bool)
unfolding locator_bits
locators_bits [] = ok []
locators_bits (l ∷ ls) = do
  here ← catch_as (locator_bits l) exception
  there ← locators_bits ls
  ok (here ++ there)

-- `MapReplyRecord.to_bitstream`
unfoldable pub map_reply_bits : MapReplyRecord → Result (List Bool)
unfolding uint get_bitstream_for_afi_address locators_bits
map_reply_bits m = do
  ttl ← uint 32 m.ttl
  count ← uint 8 (length m.locator_records)
  prefixlen ← uint 8 m.eid_prefix.prefixlen
  action ← uint 3 m.action
  map_version ← uint 12 m.map_version
  eid_prefix ← get_bitstream_for_afi_address (some m.eid_prefix)
  locators ← locators_bits m.locator_records
  ok (
      ttl
      ++ (count
          ++ (prefixlen
              ++ (action
                  ++ (m.authoritative
                      ∷ (replicate 16 false ++ (map_version ++ (eid_prefix ++ locators))))))))

-- The variable `afi` of the loop, which keeps its value under another version.
abbrev pub afi_of : ℕ → Option ℕ → Option ℕ
afi_of version afi =
    if nat_beq version 4 then some 1 else (if nat_beq version 6 then some 2 else afi)

-- The loop of `MapServers.to_bitstream`; `afi` is unbound before the first round.
unfoldable pub servers_bits : Option ℕ → List Net → Result (List Bool)
unfolding uint
servers_bits afi [] = ok []
servers_bits afi (key ∷ keys) =
    let afi' = afi_of key.version afi in
    let rest = servers_bits afi' keys in
    do
      a ← or_raise afi' unbound_local
      x ← uint 16 a
      y ← uint (if nat_beq a 1 then 32 else 128) key.ip
      there ← rest
      ok (x ++ (y ++ there))

-- `MapServers.to_bitstream`, of the list `info`
unfoldable pub map_servers_bits : List Net → Result (List Bool)
unfolding uint servers_bits
map_servers_bits info = do
  count ← uint 8 (length info)
  servers ← servers_bits none info
  ok (count ++ servers)

-- The argument `info` of a `Response`, and its flag.
pub data Info : Type 0 where
  servers : List Net → Info
  reply : MapReplyRecord → Info

unfoldable pub flag_of : Info → ℕ
flag_of (servers _) = 0
flag_of (reply _) = 1

unfoldable pub info_bits : Info → Result (List Bool)
unfolding map_servers_bits map_reply_bits
info_bits (servers l) = map_servers_bits l
info_bits (reply m) = map_reply_bits m

-- `Response.to_bitstream`
unfoldable pub response_bits : ℕ → Info → Result (List Bool)
unfolding uint flag_of info_bits
response_bits nonce info = do
  n ← uint 64 nonce
  flag ← uint 8 (flag_of info)
  rest ← info_bits info
  ok (n ++ (flag ++ rest))

-- The attribute `bytes` of a `BitArray`, which wants whole bytes.
unfoldable pub bytes_of : List Bool → Result Bytes
bytes_of [] = ok []
bytes_of (a ∷ b ∷ c ∷ d ∷ e ∷ f ∷ g ∷ h ∷ l) =
    let rest = bytes_of l in
    do there ← rest; ok (byte_of (a ∷ b ∷ c ∷ d ∷ e ∷ f ∷ g ∷ h ∷ []) 0 ∷ there)
bytes_of _ = err value_error

-- `Response.to_bytes`
unfoldable pub to_bytes : ℕ → Info → Result Bytes
to_bytes nonce info = do l ← response_bits nonce info; bytes_of l
