-- ===== src/Node/Checking.antt =====
-- What a block of the network has to show before it reaches the chain: a group signature, and a
-- signer that owns the expected address.
use blockchain_mapping_syste.Prelude.{
  ℕ, Bool, true, false, not, ◌&&◌, ◌||◌, some, Bytes, bytes_eq, ◌≡◌, ◌⊎◌, refl, sym, ap, ◌∙◌, ok,
  err, Result, arith, Bool-cases, inl, inr, if◌then◌else◌, raise_if, raise_if-eq-ok,
  bls_invalid_group_signature,
}
use blockchain_mapping_syste.Prelude.Exec.{pure}
use blockchain_mapping_syste.Prelude.Hoare.{Ensures, Ensures->>=, Ensures-imp, Ensures-frame}
use blockchain_mapping_syste.Block.{Block}
use blockchain_mapping_syste.Apply.{Platform}
use blockchain_mapping_syste.Apply.Ownership.{Owns}
use blockchain_mapping_syste.Node.Groups.{ensures_if}
use blockchain_mapping_syste.Node.Looking.{check_block-Looks}
use blockchain_mapping_syste.Consensus.{verify_group_sig}
use blockchain_mapping_syste.Node.{
  Config, Packages, Node, message_of, after_dkg, outside_dkg, during_dkg, choose_signer,
  verify_signer, check_block, accept_block, receive_block, is_skipped,
}
use blockchain_mapping_syste.Node.Signers.{
  IsSignedBy, verify_block_signature-IsSignedBy, IsChosen, picked, IsProven, Own, Chosen,
  or_raise-some, signer_of_group-Ensures,
}

module _ (p : Platform) (k : Packages p) (o : Bytes → p.netaddr.IpSet) where
  abbrev started_at : Node p → Node p
  started_at n = record n { signer = some (k.address n.next_signer) }

  abbrev HasProof : Node p → Block → Type 0
  HasProof n b =
      verify_group_sig k.bls (message_of p n) b.header.group_sig (n.exit_from_dkg || n.dkg_on)
        n.consensus
      ≡ true

  HasProof-of :
      (n s : Node p) (b : Block)
      → s ≡ started_at n
      → (a : Unit {0})
      → raise_if
          (not (
            verify_group_sig k.bls
              (message_of p s)
              b.header.group_sig
              (s.exit_from_dkg || s.dkg_on)
              s.consensus))
          bls_invalid_group_signature
        ≡ ok a
      → HasProof n b
  HasProof-of n s b e a h =
      let h' : HasProof s b = ground (arith, raise_if-eq-ok _ _ h) in
      let w : HasProof (started_at n) b = rw e at h' in w

  abbrev IsGrouped : Node p → Type 0
  IsGrouped n = (n.in_dkg_group && n.exit_from_dkg || n.dkg_on) ≡ true

  abbrev SameSigner : Node p → Node p → Type 0
  SameSigner n s = (s.signing_addr ≡ n.signing_addr) × Own p k o s

  after_dkg-Ensures :
      (n : Node p) (b : Block)
      → IsGrouped n
      → Ensures (SameSigner n) (after_dkg p k b) (λ _ s. Own p k o s × Chosen p k o n s.signer)
  unfolding after_dkg
  after_dkg-Ensures n b c =
      Ensures->>= (λ _. SameSigner n) (record { ensures = λ s h a e. h })
        (λ _.
          Ensures->>= (λ _. SameSigner n) (record { ensures = λ s h a e. h })
            (λ n'.
              Ensures->>= (λ _. SameSigner n) (record { ensures = λ s h a e. h })
                (λ _.
                  Ensures->>= _ (signer_of_group-Ensures p k o n c)
                    (λ ip. record { ensures = λ s h a e. h }))))

  outside_dkg-Ensures :
      (n : Node p) (b : Block)
      → IsGrouped n
      → Ensures (SameSigner n) (outside_dkg p k b) (λ _ s. Own p k o s × Chosen p k o n s.signer)
  unfolding outside_dkg
  outside_dkg-Ensures n b c =
      Ensures->>= _ (signer_of_group-Ensures p k o n c) (λ ip. record { ensures = λ s h a e. h })

  during_dkg-Ensures :
      (n : Node p) (b : Block)
      → Ensures
          (λ s. (s ≡ started_at n) × Own p k o s)
          (during_dkg p k b)
          (λ _ s. Own p k o s × Chosen p k o n s.signer)
  unfolding during_dkg
  during_dkg-Ensures n b =
      ensures_if p {m = λ _. outside_dkg p k b} {m' = λ _. pure tt} (λ s. s.dkg_on)
        (λ _. record {
          ensures = λ s ((e, w), c).
              (outside_dkg-Ensures n b (ground (arith, rw e at c))).ensures s
                (ap (λ s. s.signing_addr) e, w);
        })
        (λ _. record {
          ensures = λ s ((e, w), c) a q. (
            w,
            λ ip q'.
                let e' : s.signer ≡ some (k.address n.next_signer) = ap (λ s. s.signer) e in
                picked cc,
          );
        })

  choose_signer-Ensures :
      (n : Node p) (b : Block)
      → Ensures
          (λ s. (s ≡ started_at n) × Own p k o s)
          (choose_signer p k b)
          (λ _ s. Own p k o s × Chosen p k o n s.signer)
  unfolding choose_signer
  choose_signer-Ensures n b =
      ensures_if p {m = λ _. after_dkg p k b} {m' = λ _. during_dkg p k b}
        (λ s. s.in_dkg_group && s.exit_from_dkg)
        (λ _. record {
          ensures = λ s ((e, w), c).
              (after_dkg-Ensures n b (ground (arith, rw e at c))).ensures s
                (ap (λ s. s.signing_addr) e, w);
        })
        (λ _. Ensures-imp (λ s h. h.0) (during_dkg-Ensures n b) (λ a s h. h))

  verify_signer-Ensures :
      (n : Node p) (b : Block)
      → Ensures
          (λ s. Own p k o s × Chosen p k o n s.signer)
          (verify_signer p k b)
          (λ r s. (ip : p.netaddr.Net) × IsChosen p k o n ip × IsSignedBy p o b ip)
  unfolding verify_signer
  verify_signer-Ensures n b =
      Ensures->>= (λ s' s. Own p k o s × Chosen p k o n s'.signer)
        (record { ensures = λ s h s' e. let e' : s ≡ s' = cc in (h.0, rw e' at h.1) })
        (λ s'.
          Ensures->>= (λ ip s. IsChosen p k o n ip × Own p k o s)
            (record { ensures = λ s h ip e. (h.1 ip (or_raise-some p k o s'.signer _ ip e), h.0) })
            (λ ip.
              Ensures->>= (λ _ s. IsChosen p k o n ip × Own p k o s)
                (record { ensures = λ s h a e. h })
                (λ _. record {
                  ensures = λ s h r e. (
                    ip,
                    h.0,
                    (verify_block_signature-IsSignedBy p o b ip).ensures s.service.chain.state h.1 r
                        e,
                  );
                })))

  check_block-Ensures :
      (n : Node p) (b : Block)
      → Ensures (λ s. (s ≡ n) × Own p k o s) (check_block p k b) (λ _ _. IsProven p k o b n)
  unfolding check_block
  check_block-Ensures n b =
      Ensures->>= (λ _ s. (s ≡ started_at n) × Own p k o s)
        (record { ensures = λ s h a e. (ap started_at h.0, h.1) })
        (λ _.
          Ensures->>= (λ s' s. (s' ≡ started_at n) × (s ≡ started_at n) × Own p k o s)
            (record { ensures = λ s h s' e. let e' : s ≡ s' = cc in (sym e' ∙ h.0, h.0, h.1) })
            (λ s'.
              Ensures->>= (λ _ s. HasProof n b × (s ≡ started_at n) × Own p k o s)
                (record { ensures = λ s h a e. (HasProof-of n s' b h.0 a e, h.1, h.2) })
                (λ _.
                  Ensures->>= (λ _ s. HasProof n b × Own p k o s × Chosen p k o n s.signer)
                    (Ensures-imp (λ s h. (h.0, (h.1, h.2)))
                      (Ensures-frame (choose_signer-Ensures n b)) (λ a s h. (h.0, h.1.0, h.1.1)))
                    (λ _.
                      Ensures-imp (λ s h. (h.0, (h.1, h.2)))
                        (Ensures-frame (verify_signer-Ensures n b))
                        (λ a s h. record {
                          proof = h.0;
                          ip = h.1.0;
                          chosen = h.1.1;
                          author = h.1.2;
                        })))))

  decided :
      (g : Config) (now : ℕ) (b : Block) (n : Node p) (q : Result Bool × Node p)
      → ((a : Bool) → q.0 ≡ ok a → IsProven p k o b n)
      → (let q' : Result (Unit {0}) × Node p = elim q.0 [
        | ok true ↦ accept_block p k g now b q.1
        | ok false ↦ (ok tt, q.1)
        | err e ↦ if is_skipped e then (ok tt, q.1) else (err e, q.1)
      ] in
          (q'.1 ≡ q.1) ⊎ IsProven p k o b n)
  decided g now b n (ok a, s) h = inr (h a refl)
  decided g now b n (err x, s) h = elim (Bool-cases (is_skipped x)) [
    | inl e ↦ rw e (inl refl)
    | inr e ↦ rw e (inl refl)
  ]

  -- The blocks are as before the call.
  abbrev pub HasBlocks : Node p → Node p → Type 0
  HasBlocks n s =
      (s.service.chain.db ≡ n.service.chain.db)
      × (s.service.chain.head_hash ≡ n.service.chain.head_hash)

  -- Where `o` is what the state says that each account owns: after `receive_block`, whether it
  -- returns or stops the program, the database and the head are as before, or the group
  -- signature of the block is valid for the node's message and the account that signed the
  -- block owns the chosen address. That address is the one that the random number has picked,
  -- or, during and right after a key generation, the first one of the member that signs.
  pub receive_block-IsProven :
      (g : Config) (now : ℕ) (b : Block) (n : Node p)
      → Owns p o n.service.chain.state
      → HasBlocks n (receive_block p k g now b n).1 ⊎ IsProven p k o b n
  unfolding receive_block
  receive_block-IsProven g now b n h =
      elim (decided g now b n (check_block p k b n)
        ((check_block-Ensures n b).ensures n (refl, h))) [
          | inr x ↦ inr x
          | inl e ↦ inl (
              rw e (
                (check_block-Looks p k n.service.chain.db n.service.chain.head_hash b).keeps n
                  (refl, refl)))
        ]
