-- ===== src/Balance/Affected.antt =====
-- `affected_delegated_ips`: what a network shares with the set delegated to each address. A shared
-- part of more addresses than `len` can count makes it raise.
use blockchain_mapping_syste.Prelude.{
  Bool, false, ◌||◌, ltb, nat_beq, Result, ok, err, index_error, ◌>>=◌, ◌≡◌, refl, inl, inr, Option,
  none, some, [], ◌∷◌, Bytes, bytes_eq, bytes_beq, bytes_beq_sound, bytes_beq_complete,
  if◌then◌else◌, arith, Bool-cases, ap, sym, ◌∙◌,
}
use blockchain_mapping_syste.Prelude.Dict.{Dict, lookup, insert, lookup-insert}
use blockchain_mapping_syste.Utils.{Codec, IsBytes, encode_hex}
use blockchain_mapping_syste.NetAddr.{NetAddr}
use blockchain_mapping_syste.Balance.{Balance, affected_from, affected_delegated_ips}

module _ (c : Codec) where
  -- Distinct byte strings have distinct texts.
  pub encode_hex-injective :
      (s t : Bytes) → IsBytes s → IsBytes t → encode_hex s ≡ encode_hex t → s ≡ t
  encode_hex-injective s t hs ht e =
      cc (c.decode_hex-encode_hex s hs, c.decode_hex-encode_hex t ht, ap c.decode_hex e)

  beq-encode_hex :
      (s t : Bytes)
      → IsBytes s
      → IsBytes t
      → bytes_beq (encode_hex s) (encode_hex t) ≡ bytes_beq s t
  beq-encode_hex s t hs ht = elim (Bool-cases (bytes_beq s t)) [
    | inl e ↦ bytes_beq_complete _ _ (ap encode_hex (bytes_beq_sound s t e)) ∙ sym e
    | inr e ↦ elim (Bool-cases (bytes_beq (encode_hex s) (encode_hex t))) [
      | inl q ↦ cc (bytes_beq_complete s t (encode_hex-injective s t hs ht (bytes_beq_sound _ _ q)))
      | inr q ↦ q ∙ sym e
    ]
  ]

-- The keys of the dict are byte strings, each listed once.
abbrev pub IsKeyed {ℓ} : {V : Type ℓ} → Dict Bytes V → Type ℓ
IsKeyed [] = Unit
IsKeyed ((a, _) ∷ d) = IsBytes a × (lookup a d ≡ none) × IsKeyed d

module _ (n : NetAddr) where
  -- What an entry has in common with a set, if anything.
  abbrev pub overlap : n.IpSet → Option n.IpSet → Option n.IpSet
  overlap ips none = none
  overlap ips (some s) = if nat_beq (n.size (n.inter ips s)) 0 then none else some (n.inter ips s)

  -- Some entry has more in common with a set than `len` can tell.
  abbrev pub has_long : n.IpSet → Dict Bytes n.IpSet → Bool
  has_long ips [] = false
  has_long ips ((_, s) ∷ d) = ltb n.maxint (n.size (n.inter ips s)) || has_long ips d

  abbrev or_else : Option n.IpSet → Option n.IpSet → Option n.IpSet
  or_else none o = o
  or_else (some s) o = some s

-- The entry of `a` in a dict that a call returns.
abbrev pub entry : {V : Type 0} → Bytes → Result (Dict Bytes V) → Result (Option V)
entry a r = r >>= λ d. ok (lookup a d)

module _ (c : Codec) (n : NetAddr) (a : Bytes) (w : IsBytes a) where
  lookup-affected_from :
      (ips : n.IpSet) (d acc : Dict Bytes n.IpSet)
      → IsKeyed d
      → entry (encode_hex a) (affected_from n ips d acc) ≡ (
          if has_long n ips d
          then err index_error
          else ok (or_else n (overlap n ips (lookup a d)) (lookup (encode_hex a) acc)))
  unfolding affected_from
  lookup-affected_from ips [] acc k = refl
  lookup-affected_from ips ((b, s) ∷ d) acc (wb, fresh, k) =
      let joint = n.inter ips s in
      let acc' = if ltb 0 (n.size joint) then insert (encode_hex b) joint acc else acc in
      ground (
        arith,
        lookup-affected_from ips d acc' k,
        lookup-insert (encode_hex b) (encode_hex a) joint acc,
        beq-encode_hex c b a wb w,
        bytes_beq_sound b a,
        n.len-size joint,
      )

  -- For byte strings as keys, each listed once: `affected_delegated_ips` raises an `IndexError`
  -- where the network shares more addresses with some delegated set than `len` can count.
  -- Otherwise it returns, and has, under the hexadecimal text of an address, what the network
  -- shares with the set delegated to that address, and no entry where they share nothing.
  pub lookup-affected_delegated_ips :
      (net : n.Net) (b : Balance n)
      → IsKeyed b.delegated_ips
      → entry (encode_hex a) (affected_delegated_ips n net b) ≡ (
          if has_long n (n.of_net net) b.delegated_ips
          then err index_error
          else ok (overlap n (n.of_net net) (lookup a b.delegated_ips)))
  unfolding affected_delegated_ips
  lookup-affected_delegated_ips net b k =
      ground (arith, lookup-affected_from (n.of_net net) b.delegated_ips [] k)
