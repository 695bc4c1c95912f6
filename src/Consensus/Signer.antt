-- ===== src/Consensus/Signer.antt =====
-- The next signer: 256 random bits give an address of 32 or 128 bits.
use blockchain_mapping_syste.Prelude.{
  ℕ, zero, suc, ◌+◌, ◌-◌, ◌*◌, ◌%◌, ◌^◌, ◌≤◌, ◌<◌, Bool, true, false, some, List, [], ◌∷◌, ◌++◌,
  Bytes, length, length-append, length-replicate, take, drop, replicate, nat_beq, if◌then◌else◌,
  ◌≡◌, ◌≢◌, refl, sym, ap, ◌∙◌, arith, Result, ok, err,
}
use native.Mathlib.Nat.{le_trans}
use blockchain_mapping_syste.Utils.{hex_value}
use blockchain_mapping_syste.Consensus.NextSigner.{
  bits_of_digit, xor_of, group_v6, group_v4, groups_from, consensus_for_ipv6, consensus_for_ipv4,
  value_of_bits, bits_of_text, strip, random_bits, calculate_next_signer,
}

impossible : (n g : ℕ) → 0 ≢ n + suc g
impossible n g h = omega arith

too_long : (n : ℕ) → ¬ (suc n ≤ 0)
too_long n h = omega arith

-- What is joined twice is gone: a group of version 4 does not depend on its first bit.
group_v4-tail : (b : Bool) (l : List Bool) → group_v4 (b ∷ l) ≡ xor_of l
unfolding xor_of
group_v4-tail true l = ground arith
group_v4-tail false l = refl

length-drop : (n : ℕ) (l : List Bool) → length (drop n l) ≡ length l - n
length-drop zero l = omega arith
length-drop (suc n) [] = omega arith
length-drop (suc n) (b ∷ l) = omega (arith, length-drop n l)

-- `m` groups of `n` bits.
abbrev times : ℕ → ℕ → ℕ
times zero n = 0
times (suc m) n = times m n + n

-- An address of `m` bits.
record Address (m : ℕ) (r : Result (List Bool)) : Type 0 where
  pub address : List Bool
  pub is_address : r ≡ ok address
  pub size : length address ≡ m

-- As many bits come out as there are groups.
groups_from-Address :
    (fuel : ℕ) (join : List Bool → Bool) (m g : ℕ) (bits : List Bool)
    → length bits ≡ times m (suc g)
    → length bits ≤ fuel
    → Address m (groups_from fuel join (suc g) bits)
unfolding groups_from
groups_from-Address fuel join zero g [] h k = record {
  address = [];
  is_address = refl;
  size = refl;
}
groups_from-Address fuel join (suc m) g [] h k = elim (impossible (times m (suc g)) g h) [ ]
groups_from-Address zero join m g (b ∷ bits) h k = elim (too_long (length bits) k) [ ]
groups_from-Address (suc fuel) join zero g (b ∷ bits) h k =
    elim (impossible 0 (length bits) (sym h ∙ omega arith)) [ ]
groups_from-Address (suc fuel) join (suc m) g (b ∷ bits) h k =
    let q =
      groups_from-Address fuel join m g (drop (suc g) (b ∷ bits))
        (omega (arith, length-drop (suc g) (b ∷ bits)))
        (omega (arith, length-drop (suc g) (b ∷ bits))) in
    record {
      address = join (take (suc g) (b ∷ bits)) ∷ q.address;
      is_address = ground (arith, q.is_address);
      size = ap suc q.size;
    }

-- 256 bits give an address of 128 bits in version 6, and of 32 bits in version 4.
consensus_for_ipv6-Address :
    (bits : List Bool) → length bits ≡ 256 → Address 128 (consensus_for_ipv6 bits)
unfolding consensus_for_ipv6
consensus_for_ipv6-Address bits h =
    rw h (groups_from-Address 256 group_v6 128 1 bits h (omega arith))

consensus_for_ipv4-Address :
    (bits : List Bool) → length bits ≡ 256 → Address 32 (consensus_for_ipv4 bits)
unfolding consensus_for_ipv4
consensus_for_ipv4-Address bits h =
    rw h (groups_from-Address 256 group_v4 32 7 bits h (omega arith))

-- The value of `n` ones after `acc`.
abbrev top : ℕ → ℕ → ℕ
top acc zero = acc
top acc (suc n) = top (acc * 2 + 1) n

top_mono : (n a b : ℕ) → a ≤ b → top a n ≤ top b n
top_mono zero a b h = h
top_mono (suc n) a b h = top_mono n (a * 2 + 1) (b * 2 + 1) (omega arith)

value_of_bits-top : (l : List Bool) (acc n : ℕ) → length l ≡ n → value_of_bits acc l ≤ top acc n
unfolding value_of_bits
value_of_bits-top [] acc zero h = omega arith
value_of_bits-top [] acc (suc n) h = elim (impossible 0 n (h ∙ omega arith)) [ ]
value_of_bits-top (b ∷ l) acc zero h = elim (impossible 0 (length l) (sym h ∙ omega arith)) [ ]
value_of_bits-top (true ∷ l) acc (suc n) h = value_of_bits-top l (acc * 2 + 1) n (omega arith)
value_of_bits-top (false ∷ l) acc (suc n) h =
    le_trans (value_of_bits-top l (acc * 2 + 0) n (omega arith))
      (top_mono n (acc * 2 + 0) (acc * 2 + 1) (omega arith))

length-strip : (l : List Bool) → length (strip l) ≤ length l
unfolding strip
length-strip [] = omega arith
length-strip (true ∷ l) = omega arith
length-strip (false ∷ l) = omega (arith, length-strip l)

-- Each character is a hexadecimal digit.
abbrev pub IsHex : Bytes → Type 0
IsHex [] = Unit
IsHex (ch ∷ s) = ((d : ℕ) × (hex_value ch ≡ some d)) × IsHex s

-- Four bits a digit.
record Bits (n : ℕ) (r : Result (List Bool)) : Type 0 where
  pub bits : List Bool
  pub is_bits : r ≡ ok bits
  pub count : length bits ≡ n * 4

bits_of_text-Bits : (s : Bytes) → IsHex s → Bits (length s) (bits_of_text s)
unfolding bits_of_text
bits_of_text-Bits [] h = record { bits = []; is_bits = refl; count = refl }
bits_of_text-Bits (ch ∷ s) ((d, e), h) =
    let q = bits_of_text-Bits s h in
    record {
      bits = bits_of_digit d ++ q.bits;
      is_bits = rw (bits_of_text, e, q.is_bits) refl;
      count = omega (arith, q.count);
    }

padded : (l : List Bool) → length l ≤ 256 → length (replicate (256 - length l) false ++ l) ≡ 256
padded l h = omega (
  arith,
  length-append (replicate (256 - length l) false) l,
  length-replicate (256 - length l) false,
)

random_bits-Address :
    (text : Bytes) → length text ≡ 64 → IsHex text → Address 256 (random_bits text)
unfolding random_bits
random_bits-Address text h d =
    let q = bits_of_text-Bits text d in
    record {
      address = replicate (256 - length (strip q.bits)) false ++ strip q.bits;
      is_address = rw (h, q.is_bits) refl;
      size = padded (strip q.bits) (omega (arith, length-strip q.bits, q.count, h));
    }

-- The number of the next signer, below the number `limit`.
pub record IsSigner (limit : ℕ) (r : Result ℕ) : Type 0 where
  pub number : ℕ
  pub is_number : r ≡ ok number
  pub bound : number < limit

bits_lead :
    (m : ℕ) (r : Result (List Bool))
    → Address m r
    → IsSigner (top 0 m + 1) (elim r [ err e ↦ err e | ok address ↦ ok (value_of_bits 0 address) ])
bits_lead m r q = record {
  number = value_of_bits 0 q.address;
  is_number = rw q.is_address refl;
  bound = omega (arith, value_of_bits-top q.address 0 m q.size);
}

random_leads :
    (even : Bool) (bits : List Bool)
    → length bits ≡ 256
    → IsSigner
        (if even then 2 ^ 128 else 2 ^ 32)
        (elim (if even then consensus_for_ipv6 bits else consensus_for_ipv4 bits) [
          | err e ↦ err e
          | ok address ↦ ok (value_of_bits 0 address)
        ])
random_leads true bits h =
    bits_lead 128 (consensus_for_ipv6 bits) (consensus_for_ipv6-Address bits h)
random_leads false bits h =
    bits_lead 32 (consensus_for_ipv4 bits) (consensus_for_ipv4-Address bits h)

-- From a random number of 64 hexadecimal digits, `calculate_next_signer` returns a number: below
-- 2 ^ 128 after a block of even number, and below 2 ^ 32 after one of odd number.
pub calculate_next_signer-IsSigner :
    (block_number : ℕ) (text : Bytes)
    → length text ≡ 64
    → IsHex text
    → IsSigner
        (if nat_beq (block_number % 2) 0 then 2 ^ 128 else 2 ^ 32)
        (calculate_next_signer block_number text)
unfolding calculate_next_signer
calculate_next_signer-IsSigner block_number text h d =
    let q = random_bits-Address text h d in
    rw (calculate_next_signer, q.is_address)
      (random_leads (nat_beq (block_number % 2) 0) q.address q.size)
