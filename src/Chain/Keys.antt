-- ===== src/Chain/Keys.antt =====
-- The keys of the database of chain.py.
use blockchain_mapping_syste.Prelude.{
  ℕ, zero, suc, ◌+◌, ◌/◌, ◌%◌, [], ◌∷◌, ◌++◌, Bytes, ltb, if◌then◌else◌,
}

decimal_digits : ℕ → ℕ → Bytes
decimal_digits zero n = []
decimal_digits (suc fuel) n =
    let rest = decimal_digits fuel (n / 10) in
    if ltb n 10 then (48 + n) ∷ [] else rest ++ (48 + n % 10) ∷ []

-- `'%d' % n`; a number has fewer digits than its value and one.
unfoldable pub decimal : ℕ → Bytes
unfolding decimal_digits
decimal n = decimal_digits (suc n) n

-- `b'block:%d' % n`
abbrev pub block_key : ℕ → Bytes
block_key n = b'b' ∷ b'l' ∷ b'o' ∷ b'c' ∷ b'k' ∷ b':' ∷ decimal n

abbrev pub child_key : Bytes → Bytes
child_key h = b'c' ∷ b'h' ∷ b'i' ∷ b'l' ∷ b'd' ∷ b':' ∷ h

abbrev pub txindex_key : Bytes → Bytes
txindex_key h = b't' ∷ b'x' ∷ b'i' ∷ b'n' ∷ b'd' ∷ b'e' ∷ b'x' ∷ b':' ∷ h

abbrev pub changed_key : Bytes → Bytes
changed_key h = b'c' ∷ b'h' ∷ b'a' ∷ b'n' ∷ b'g' ∷ b'e' ∷ b'd' ∷ b':' ∷ h

abbrev pub head_hash_key : Bytes
head_hash_key = b'h' ∷ b'e' ∷ b'a' ∷ b'd' ∷ b'_' ∷ b'h' ∷ b'a' ∷ b's' ∷ b'h' ∷ []

abbrev pub genesis_text : Bytes
genesis_text = b'G' ∷ b'E' ∷ b'N' ∷ b'E' ∷ b'S' ∷ b'I' ∷ b'S' ∷ []

abbrev pub genesis_state_key : Bytes
genesis_state_key = genesis_text ++ b'_' ∷ b'S' ∷ b'T' ∷ b'A' ∷ b'T' ∷ b'E' ∷ []

abbrev pub genesis_number_key : Bytes
genesis_number_key = genesis_text ++ b'_' ∷ b'N' ∷ b'U' ∷ b'M' ∷ b'B' ∷ b'E' ∷ b'R' ∷ []
