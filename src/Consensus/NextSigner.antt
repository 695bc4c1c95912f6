-- ===== src/Consensus/NextSigner.antt =====
-- consensus.py: `calculate_next_signer`, the address that the random number picks. Bits are a list of
-- Booleans, the highest first.
use blockchain_mapping_syste.Utils.{hex_value}
use blockchain_mapping_syste.Prelude.{
  ℕ, zero, suc, ◌+◌, ◌-◌, ◌*◌, ◌/◌, ◌%◌, value_error, take, drop, replicate, ltb, Bool, false, not,
  none, some, List, [], ◌∷◌, ◌++◌, Bytes, length, nat_beq, if◌then◌else◌, Result, ok, err,
  index_error,
}

-- The exclusive or of the bits of a list.
unfoldable pub xor_of : List Bool → Bool
xor_of [] = false
xor_of (b ∷ l) = if b then not (xor_of l) else xor_of l

-- `int(hash[i],2)` joined to the bits of the range from `i+1`.
abbrev pub group_v6 : List Bool → Bool
group_v6 l = xor_of l

-- The range of version 4 starts at `i`, so the first bit is joined to itself.
abbrev pub group_v4 : List Bool → Bool
group_v4 [] = false
group_v4 (b ∷ l) = xor_of (b ∷ b ∷ l)

-- The outer loop, over groups of `ngroup` bits; the last one may be too short.
unfoldable pub groups_from : ℕ → (List Bool → Bool) → ℕ → List Bool → Result (List Bool)
groups_from fuel join ngroup [] = ok []
groups_from zero join ngroup bits = err index_error
groups_from (suc fuel) join ngroup bits =
    let rest = groups_from fuel join ngroup (drop ngroup bits) in
    if ltb (length bits) ngroup
    then err index_error
    else elim rest [ err e ↦ err e | ok address ↦ ok (join (take ngroup bits) ∷ address) ]

-- `range` refuses the step 0.
unfoldable pub consensus_for : (List Bool → Bool) → ℕ → List Bool → Result (List Bool)
unfolding groups_from
consensus_for join prefix_length bits =
    let ngroup = length bits / prefix_length in
    if nat_beq ngroup 0 then err value_error else groups_from (length bits) join ngroup bits

-- `consensus_for_IPv6` and `consensus_for_IPv4`
unfoldable pub consensus_for_ipv6 : List Bool → Result (List Bool)
unfolding consensus_for
consensus_for_ipv6 bits = consensus_for group_v6 128 bits

unfoldable pub consensus_for_ipv4 : List Bool → Result (List Bool)
unfolding consensus_for
consensus_for_ipv4 bits = consensus_for group_v4 32 bits

-- `int(IP_bit_list, 2)`
unfoldable pub value_of_bits : ℕ → List Bool → ℕ
value_of_bits acc [] = acc
value_of_bits acc (b ∷ l) = value_of_bits (acc * 2 + (if b then 1 else 0)) l

abbrev pub bits_of_digit : ℕ → List Bool
bits_of_digit d =
    not (nat_beq (d / 8 % 2) 0)
    ∷ not (nat_beq (d / 4 % 2) 0)
    ∷ not (nat_beq (d / 2 % 2) 0)
    ∷ not (nat_beq (d % 2) 0)
    ∷ []

-- The bits of a text of hexadecimal digits.
unfoldable pub bits_of_text : Bytes → Result (List Bool)
bits_of_text [] = ok []
bits_of_text (ch ∷ s) =
    let rest = bits_of_text s in
    elim (hex_value ch) [
      | none ↦ err value_error
      | some d ↦ elim rest [ err e ↦ err e | ok l ↦ ok (bits_of_digit d ++ l) ]
    ]

unfoldable pub strip : List Bool → List Bool
strip [] = []
strip (b ∷ l) = let rest = strip l in if b then b ∷ l else rest

-- `bin(int(text,16))[2:].zfill(256)`
unfoldable pub random_bits : Bytes → Result (List Bool)
unfolding bits_of_text strip
random_bits text = if nat_beq (length text) 0 then err value_error else elim (bits_of_text text) [
  | err e ↦ err e
  | ok l ↦ let bits = strip l in ok (replicate (256 - length bits) false ++ bits)
]

-- `calculate_next_signer`: the number that `IPAddress` takes.
unfoldable pub calculate_next_signer : ℕ → Bytes → Result ℕ
calculate_next_signer block_number current_random_no = elim (random_bits current_random_no) [
  | err e ↦ err e
  | ok bits ↦
      elim (if nat_beq (block_number % 2) 0
        then consensus_for_ipv6 bits
        else consensus_for_ipv4 bits) [ err e ↦ err e | ok address ↦ ok (value_of_bits 0 address) ]
]
