-- ===== src/Transaction/Signature.antt =====
-- The signature of a transaction: replay protection by a network id, and who is taken for the
-- sender.
use blockchain_mapping_syste.Prelude.{
  ◌==◌, bytes_eq, replicate, drop, sym, ap, ◌∙◌, ℕ, ◌≤◌, ◌<◌, ◌≡◌, ◌≢◌, true, false, ◌&&◌, none,
  some, Bytes, length, nat_beq, ok, raise_if, arith, >>=-eq-ok, ◌>>=◌, ◌>>◌, or_raise,
  invalid_transaction, unbound_local,
}
use blockchain_mapping_syste.Prelude.Int.{pos}
use blockchain_mapping_syste.Transaction.{
  Transaction, unsigned, Crypto, network_id, id_of_v, vee, is_plain, sighash, sender,
  recover_sender, sign, bad_signature_values, address_of,
}

-- For a `v` of at least 37 and a signature that is not blank, `vee` is 27 or 28, so the assertion
-- on it holds.
pub vee-is_plain :
    (tx : Transaction)
    → 37 ≤ tx.v
    → (nat_beq tx.r 0 && nat_beq tx.s 0) ≡ false
    → is_plain (vee tx.v (network_id tx)) ≡ true
unfolding network_id vee id_of_v
vee-is_plain tx h q = ground arith

module _ (k : Crypto Transaction) where
  -- Where the curve gives a `v` of 27 or 28 and a signature that is not blank, a transaction
  -- that `sign` returns for a network id has that network id.
  pub network_id-sign :
      (key : Bytes) (n : ℕ) (tx tx' : Transaction)
      → (let (v, r, s) = k.ecsign (k.network_hash (unsigned tx) (some (pos n))) key in
          (is_plain v ≡ true) × ((nat_beq r 0 && nat_beq s 0) ≡ false))
      → sign k key (some n) tx ≡ ok tx'
      → network_id tx' ≡ some (pos n)
  unfolding network_id sign id_of_v
  network_id-sign key n tx tx' (plain, nonzero) h = ground arith

  -- What signing with a key and recovering promise: the signature is in range, its public key is
  -- `pubkey`, and the address of the key is that of `pubkey`.
  pub record IsCurve (key pubkey : Bytes) : Type 0 where
    pub plain : (h : Bytes) → (let (v, r, s) = k.ecsign h key in is_plain v) ≡ true
    pub in_range :
        (h : Bytes) → (let (v, r, s) = k.ecsign h key in bad_signature_values r s) ≡ false
    pub recovers : (h : Bytes) → (let (v, r, s) = k.ecsign h key in k.ecrecover h v r s) ≡ ok pubkey
    pub not_zero : (pubkey == replicate 64 0) ≡ false
    pub address : k.privtoaddr key ≡ drop 12 (k.sha3 pubkey)
    pub address_length : length (k.privtoaddr key) ≡ 20

  -- The cached sender, if there is one, is the one that the signature gives.
  abbrev pub IsHonest : Transaction → Type 0
  IsHonest tx = sender k tx ≡ recover_sender k tx

  not_blank : (r s : ℕ) → bad_signature_values r s ≡ false → (nat_beq r 0 && nat_beq s 0) ≡ false
  not_blank r s h = ground arith

  -- Where, whatever hash is signed, signing with a key gives a `v` of 27 or 28 and values in
  -- range from which its public key is recovered, where that public key is not all zeros, and
  -- where the address of the key is the end of its hash, of 20 bytes: for a transaction that
  -- `sign` returns without a network id, the sender recovered from the signature is the address
  -- of the key, and the sender that `sign` has cached is the same.
  pub recover_sender-sign :
      (key pubkey : Bytes) (tx tx' : Transaction)
      → IsCurve key pubkey
      → sign k key none tx ≡ ok tx'
      → (recover_sender k tx' ≡ ok (k.privtoaddr key)) × IsHonest tx'
  unfolding recover_sender sighash address_of sender sign
  recover_sender-sign key pubkey tx tx' c e =
      let h = k.unsigned_hash (unsigned tx) in
      let (v, r, s) = k.ecsign h key in
      let signed = record tx { v = v; r = r; s = s; cached_sender = some (k.privtoaddr key) } in
      let same : signed ≡ tx' = cc in
      let found : recover_sender k signed ≡ ok (k.privtoaddr key) =
        rw (not_blank r s (c.in_range h), c.plain h, c.in_range h, c.recovers h, c.not_zero)
          (ap (λ a. ok a) (sym c.address)) in
      let cached : sender k signed ≡ ok (k.privtoaddr key) = ground (arith, c.address_length) in
      rw (← same) (found, cached ∙ sym found)

  recovered :
      (tx : Transaction) (a : Bytes)
      → (nat_beq tx.r 0 && nat_beq tx.s 0) ≡ false
      → recover_sender k tx ≡ ok a
      → (h : Bytes) × (p : Bytes) × (k.ecrecover h tx.v tx.r tx.s ≡ ok p)
  unfolding recover_sender
  recovered tx a q e =
      let chain : (do
        h ← sighash k tx
        raise_if (bad_signature_values tx.r tx.s) invalid_transaction
        message ← or_raise h unbound_local
        pubkey ← k.ecrecover message tx.v tx.r tx.s
        address_of k pubkey)
          ≡ ok a =
        ground arith in
      let (h, _, e1) = >>=-eq-ok (sighash k tx) _ chain in
      let (_, _, e2) =
        >>=-eq-ok (raise_if (bad_signature_values tx.r tx.s) invalid_transaction) _ e1 in
      let (m, _, e3) = >>=-eq-ok (or_raise h unbound_local) _ e2 in
      let (p, e4, _) = >>=-eq-ok (k.ecrecover m tx.v tx.r tx.s) _ e3 in (m, p, e4)

  -- Where recovery refuses every `v` above 34: a transaction with a `v` of at least 37 and a
  -- signature that is not blank has no sender that can be recovered.
  pub recover_sender-network :
      ((h : Bytes) (v r s : ℕ) (a : Bytes) → 34 < v → k.ecrecover h v r s ≢ ok a)
      → (tx : Transaction) (a : Bytes) → 37 ≤ tx.v
      → (nat_beq tx.r 0 && nat_beq tx.s 0) ≡ false
      → recover_sender k tx ≢ ok a
  recover_sender-network refuses tx a h q e =
      let (m, p, found) = recovered tx a q e in refuses m tx.v tx.r tx.s p (omega arith) found
