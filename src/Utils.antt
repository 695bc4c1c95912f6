-- ===== src/Utils.antt =====
-- utils.py: addresses as byte strings and as hexadecimal text, numbers as byte strings, and the
-- compression of a random number. `sha3` (Keccak), `decode_hex` and the big-endian codec of the
-- rlp package are the fields of `Codec`.
use Prim.Native.Nat.{bit_xor}
pub mod Hex
pub mod Addresses
use blockchain_mapping_syste.Prelude.{
  ℕ, zero, suc, ◌+◌, ◌-◌, ◌*◌, ◌/◌, ◌%◌, ◌^◌, ◌≤◌, ◌<◌, ◌≡◌, Bool, true, false, ◌&&◌, ◌||◌, Option,
  none, some, List, [], ◌∷◌, ◌++◌, Bytes, length, take, drop, replicate, ◌==◌, nat_eq, bytes_eq,
  ltb, leb, if◌then◌else◌, Result, ok, err, exception, assertion_error, value_error, or_raise,
  raise_if, ◌>>=◌, ◌>>◌,
}
use blockchain_mapping_syste.Prelude.Int.{ℤ, pos, negsuc}

-- A value of a byte string.
abbrev pub IsBytes : Bytes → Type 0
IsBytes [] = Unit
IsBytes (b ∷ s) = (b < 256) × IsBytes s

hex_digit : ℕ → ℕ
hex_digit n = if ltb n 10 then 48 + n else 87 + n

-- `s.encode('hex')`
unfoldable pub encode_hex : Bytes → Bytes
unfolding hex_digit
encode_hex [] = []
encode_hex (b ∷ s) = hex_digit (b / 16) ∷ hex_digit (b % 16) ∷ encode_hex s

-- The rlp and Crypto packages. `decode_hex` returns `none` where it raises.
pub record Codec : Type 0 where
  pub sha3 : Bytes → Bytes
  pub decode_hex : Bytes → Option Bytes
  pub int_to_big_endian : ℕ → Bytes
  pub decode_hex-encode_hex : (s : Bytes) → IsBytes s → decode_hex (encode_hex s) ≡ some s

-- The value of a big-endian byte string, `int(data.encode('hex'), 16)` without its check.
unfoldable pub big_endian_value : ℕ → Bytes → ℕ
big_endian_value acc [] = acc
big_endian_value acc (b ∷ s) = big_endian_value (acc * 256 + b) s

-- `int('', 16)` raises.
unfoldable pub bytes_to_int : Bytes → Result ℕ
unfolding big_endian_value
bytes_to_int [] = err value_error
bytes_to_int (b ∷ s) = ok (big_endian_value 0 (b ∷ s))

-- `struct.pack('B', v)`, which raises out of the range of a byte.
unfoldable pub encode_int8 : ℤ → Result Bytes
encode_int8 (pos n) = if ltb n 256 then ok (n ∷ []) else err exception
encode_int8 (negsuc n) = err exception

unfoldable pub zpad : Bytes → ℕ → Bytes
zpad x l = replicate (l - length x) 0 ++ x

-- The last `k` big-endian bytes of a number.
int_bytes : ℕ → ℕ → Bytes
int_bytes zero x = []
int_bytes (suc k) x = int_bytes k (x / 256) ++ (x % 256) ∷ []

-- `x & 0xff` and `x >>= 8` of a negative number are those of its complement, complemented.
complement : Bytes → Bytes
complement [] = []
complement (b ∷ s) = (255 - b) ∷ complement s

unfoldable pub int_to_addr : ℤ → Bytes
unfolding int_bytes complement
int_to_addr (pos n) = int_bytes 20 n
int_to_addr (negsuc n) = complement (int_bytes 20 n)

abbrev hex_prefix : Bytes
hex_prefix = 48 ∷ 120 ∷ []

unfoldable pub remove_0x_head : Bytes → Bytes
remove_0x_head s = if take 2 s == hex_prefix then drop 2 s else s

module _ (c : Codec) where
  -- `if len(x) in (42, 50) and x[:2] in {'0x', b'0x'}`
  strip_0x : Bytes → Bytes
  strip_0x x = if (length x == 42 || length x == 50) && take 2 x == hex_prefix then drop 2 x else x

  -- `if len(x) in (40, 48)`
  decode_text : Bytes → Result Bytes
  decode_text x =
      if length x == 40 || length x == 48 then or_raise (c.decode_hex x) exception else ok x

  -- `if len(x) == 24`: an address with a checksum.
  drop_checksum : Bytes → Result Bytes
  drop_checksum x =
      if length x == 24
      then if take 4 (c.sha3 (take 20 x)) == drop 20 x then ok (take 20 x) else err assertion_error
      else ok x

  -- `if len(x) != 20`
  exactly_20 : Bytes → Result Bytes
  exactly_20 x = if length x == 20 then ok x else err exception

  -- `normalize_address` of a string.
  unfoldable pub normalize_address : Bytes → Bool → Result Bytes
  unfolding strip_0x decode_text drop_checksum exactly_20
  normalize_address x allow_blank =
      if allow_blank && length x == 0
      then ok []
      else do y ← decode_text (strip_0x x); z ← drop_checksum y; exactly_20 z

-- A value that is an int or a string.
pub data Item : Type 0 where
  num : ℤ → Item
  str : Bytes → Item

-- `normalize_address` of either.
unfoldable pub normalize_item : Codec → Item → Bool → Result Bytes
normalize_item c (num x) allow_blank = ok (int_to_addr x)
normalize_item c (str x) allow_blank = normalize_address c x allow_blank

-- Digits of a hexadecimal text, `none` for any other character.
unfoldable pub hex_value : ℕ → Option ℕ
hex_value ch =
    if leb 48 ch && ltb ch 58
    then some (ch - 48)
    else if leb 97 ch && ltb ch 103
    then some (ch - 87)
    else if leb 65 ch && ltb ch 71
    then some (ch - 55)
    else none

-- `int(text, 16)` of a non-empty text of digits.
parse_hex : ℕ → Bytes → Option ℕ
unfolding hex_value
parse_hex acc [] = some acc
parse_hex acc (ch ∷ s) = elim (hex_value ch) [ none ↦ none | some d ↦ parse_hex (acc * 16 + d) s ]

-- The rounds of the loop of `compress_random_no_to_int`: a slice of `k` digits is read in base
-- `k` and joined by exclusive or. Python reads base 16 only for `k` = 16, the one value in use.
compress_groups : ℕ → Bytes → ℕ → Result ℕ
unfolding parse_hex
compress_groups zero s number = ok number
compress_groups (suc n) s number = elim (parse_hex 0 (take 16 s)) [
  | none ↦ err value_error
  | some group ↦ compress_groups n (drop 16 s) (bit_xor number group)
]

-- `compress_random_no_to_int(s, 16)`
unfoldable pub compress_random_no_to_int : Bytes → Result ℕ
unfolding compress_groups remove_0x_head
compress_random_no_to_int s =
    let digits = remove_0x_head s in compress_groups (length digits / 16) digits 0
