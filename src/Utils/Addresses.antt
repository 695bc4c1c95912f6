-- ===== src/Utils/Addresses.antt =====
-- `normalize_address` on the forms of an address, and `int_to_addr`.
use blockchain_mapping_syste.Prelude.{
  ℕ, zero, suc, ◌+◌, ◌*◌, ◌/◌, ◌%◌, ◌^◌, ◌<◌, ◌≡◌, refl, ◌∙◌, Bool, true, false, [], ◌∷◌, ◌++◌,
  Bytes, length, length-append, arith, ok, Result, err, ◌>>=◌, ◌⊎◌, inl, inr,
}
use blockchain_mapping_syste.Prelude.Int.{ℤ, pos, negsuc}
use blockchain_mapping_syste.Utils.{
  Codec, IsBytes, encode_hex, normalize_address, int_to_addr, int_bytes, complement, strip_0x,
  decode_text, drop_checksum, exactly_20, big_endian_value,
}
use blockchain_mapping_syste.Utils.Hex.{length-encode_hex}
use native.Mathlib.Nat.{pow-suc}

module _ (c : Codec) where
  -- An address that is 20 bytes long already is returned as it is.
  pub normalize_address-of_20 :
      (x : Bytes) (b : Bool) → length x ≡ 20 → normalize_address c x b ≡ ok x
  unfolding normalize_address
  normalize_address-of_20 x b h = ground arith

  -- For an address of 20 bytes, `normalize_address` of its hexadecimal text is the address.
  pub normalize_address-encode_hex :
      (x : Bytes) → IsBytes x → length x ≡ 20 → normalize_address c (encode_hex x) false ≡ ok x
  unfolding normalize_address
  normalize_address-encode_hex x w h =
      ground (arith, length-encode_hex x, c.decode_hex-encode_hex x w)

module _ (c : Codec) where
  length-exactly_20 : (y z : Bytes) → exactly_20 c y ≡ ok z → length z ≡ 20
  unfolding exactly_20
  length-exactly_20 y z h = ground arith

  length-checked : (r : Result Bytes) (z : Bytes) → (r >>= exactly_20 c) ≡ ok z → length z ≡ 20
  length-checked (ok y) z h = length-exactly_20 y z h
  length-checked (err e) z h = cc

  length-decoded :
      (r : Result Bytes) (z : Bytes)
      → (r >>= λ y. drop_checksum c y >>= exactly_20 c) ≡ ok z
      → length z ≡ 20
  length-decoded (ok y) z h = length-checked (drop_checksum c y) z h
  length-decoded (err e) z h = cc

  -- What `normalize_address` returns is 20 bytes long, or, where a blank is allowed and given,
  -- blank.
  pub length-normalize_address :
      (x z : Bytes) (b : Bool)
      → normalize_address c x b ≡ ok z
      → (length z ≡ 20) ⊎ ((b ≡ true) × (x ≡ []) × (z ≡ []))
  unfolding normalize_address
  length-normalize_address [] z true h = inr (refl, refl, cc)
  length-normalize_address x z b h =
      inl (length-decoded (decode_text c (strip_0x c x)) z (ground arith))

length-int_bytes : (k x : ℕ) → length (int_bytes k x) ≡ k
unfolding int_bytes
length-int_bytes zero x = refl
length-int_bytes (suc k) x =
    omega
      (arith, length-append (int_bytes k (x / 256)) ((x % 256) ∷ []), length-int_bytes k (x / 256))

length-complement : (s : Bytes) → length (complement s) ≡ length s
unfolding complement
length-complement [] = refl
length-complement (b ∷ s) = omega (arith, length-complement s)

-- Any integer, also a negative one, becomes an address of 20 bytes.
pub length-int_to_addr : (x : ℤ) → length (int_to_addr x) ≡ 20
unfolding int_to_addr
length-int_to_addr (pos n) = length-int_bytes 20 n
length-int_to_addr (negsuc n) = length-complement (int_bytes 20 n) ∙ length-int_bytes 20 n

big_endian_value-append :
    (acc : ℕ) (s : Bytes) (b : ℕ)
    → big_endian_value acc (s ++ b ∷ []) ≡ big_endian_value acc s * 256 + b
unfolding big_endian_value
big_endian_value-append acc [] b = refl
big_endian_value-append acc (a ∷ s) b = big_endian_value-append (acc * 256 + a) s b

big_endian_value-int_bytes : (k x : ℕ) → x < 256 ^ k → big_endian_value 0 (int_bytes k x) ≡ x
unfolding int_bytes big_endian_value
big_endian_value-int_bytes zero x h = omega arith
big_endian_value-int_bytes (suc k) x h = rw big_endian_value-append (
    omega
      (arith, big_endian_value-int_bytes k (x / 256) (omega (arith, pow-suc 256 k)), pow-suc 256 k))

-- The big-endian value of `int_to_addr` of a number below 2 ^ 160 is the number.
pub big_endian_value-int_to_addr :
    (n : ℕ) → n < 2 ^ 160 → big_endian_value 0 (int_to_addr (pos n)) ≡ n
unfolding int_to_addr
big_endian_value-int_to_addr n h = big_endian_value-int_bytes 20 n h
