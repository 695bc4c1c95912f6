-- ===== src/Node/Bootstrapping.antt =====
-- What a block has to show during a bootstrap before it reaches the chain.
use blockchain_mapping_syste.Prelude.{
  ℕ, ◌%◌, Bool, true, false, not, Option, some, List, Bytes, bytes_eq, bytes_beq_sound, ◌≡◌, ◌⊎◌,
  refl, sym, ap, ◌∙◌, ok, err, Error, Result, Bool-cases, inl, inr, nat_beq, if◌then◌else◌,
  raise_if,
}
use blockchain_mapping_syste.Prelude.Exec.{◌>>=◌}
use blockchain_mapping_syste.Prelude.Hoare.{Ensures, Ensures->>=}
use blockchain_mapping_syste.Utils.{normalize_address, encode_hex}
use blockchain_mapping_syste.Block.{Block}
use blockchain_mapping_syste.Apply.{Platform}
use blockchain_mapping_syste.Apply.Ownership.{Owns}
use blockchain_mapping_syste.ChainService.Groups.{current_dkg_group}
use blockchain_mapping_syste.Consensus.{verify_group_sig, set_current_group_key}
use blockchain_mapping_syste.Node.{
  Config, Packages, Node, message_of, digest_of, pick, group_signer, verify_proof, bootstrap_check,
  bootstrap_accept, bootstrap_block, is_passed_over,
}
use blockchain_mapping_syste.Node.Signers.{
  IsSignedBy, verify_block_signature-IsSignedBy, IsFirstOf, extract-Ensures, Own, or_raise-some,
}
use blockchain_mapping_syste.Node.Checking.{HasBlocks}
use blockchain_mapping_syste.Node.Looking.{bootstrap_check-Looks}

module _ (p : Platform) (k : Packages p) (g : Config) (o : Bytes → p.netaddr.IpSet) where
  -- Whether the block starts a key generation.
  abbrev renews : Block → Bool
  renews b = nat_beq (b.header.number % g.dkg_renewal_interval) 0

  -- The address that the signer must own: the one that the random number has picked, or, in a block
  -- that starts a key generation, the first one of the member that the random number picks.
  pub data IsDue (b : Block) (n : Node p) (ip : p.netaddr.Net) : Type 0 where
    numbered : renews b ≡ false → ip ≡ k.address n.next_signer → IsDue b n ip
    of_members :
        renews b ≡ true
        → (group : List Bytes) (member address : Bytes)
        → current_dkg_group p k.formats
            (digest_of p k)
            g.dkg_renewal_interval
            g.dkg_participants
            n.service
          ≡ ok group
        → pick p k n.last_random_no group ≡ ok member
        → normalize_address p.codec member false ≡ ok address
        → k.first_ip (o address) ≡ some ip
        → IsDue b n ip

  pub record IsAuthentic (b : Block) (n : Node p) : Type 0 where
    pub proof :
        verify_group_sig k.bls (message_of p n) b.header.group_sig (renews b) n.consensus ≡ true
    pub random : encode_hex b.header.random_number ≡ k.bls.sha256 b.header.group_sig
    pub ip : p.netaddr.Net
    pub due : IsDue b n ip
    pub author : IsSignedBy p o b ip

  -- The test of the group signature.
  abbrev passes : Bool → Block → Node p → Bool
  passes renewed b s =
      verify_group_sig k.bls (message_of p s) b.header.group_sig renewed s.consensus

  not_raised : (c : Bool) (e : Error) (a : Unit {0}) → raise_if (not c) e ≡ ok a → c ≡ true
  not_raised true e a h = refl
  not_raised false e a h = cc

  verify_proof-Ensures :
      (renewed : Bool) (o' : Option p.netaddr.Net) (b : Block) (c : Bool)
      → Ensures
          (λ s. (passes renewed b s ≡ c) × Own p k o s)
          (verify_proof p k renewed o' b)
          (λ _ _.
            (c ≡ true)
            × (encode_hex b.header.random_number ≡ k.bls.sha256 b.header.group_sig)
            × ((ip : p.netaddr.Net) × (o' ≡ some ip) × IsSignedBy p o b ip))
  unfolding verify_proof
  verify_proof-Ensures renewed o' b c =
      let same : Type 0 = encode_hex b.header.random_number ≡ k.bls.sha256 b.header.group_sig in
      Ensures->>= (λ n s. (passes renewed b n ≡ c) × Own p k o s)
        (record { ensures = λ s h n e. let e' : s ≡ n = cc in (rw e' at h.0, h.1) })
        (λ n.
          Ensures->>= (λ _ s. (c ≡ true) × Own p k o s)
            (record { ensures = λ s h a e. (sym h.0 ∙ not_raised (passes renewed b n) _ a e, h.1) })
            (λ _.
              Ensures->>= (λ _ s. (c ≡ true) × same × Own p k o s)
                (record {
                  ensures = λ s h a e. (h.0, bytes_beq_sound _ _ (not_raised _ _ a e), h.1);
                })
                (λ _.
                  Ensures->>= (λ ip s. (c ≡ true) × same × (o' ≡ some ip) × Own p k o s)
                    (record {
                      ensures = λ s h ip e. (h.0, h.1, or_raise-some p k o o' _ ip e, h.2);
                    })
                    (λ ip.
                      Ensures->>= (λ _ s. (c ≡ true) × same × (o' ≡ some ip) × Own p k o s)
                        (record { ensures = λ s h a e. h })
                        (λ _. record {
                          ensures = λ s h r e. (
                            h.0,
                            h.1,
                            (
                              ip,
                              h.2,
                              (verify_block_signature-IsSignedBy p o b ip).ensures
                                  s.service.chain.state h.3 r e,
                            ),
                          );
                        })))))

  abbrev IsGroup : Node p → List Bytes → Type 0
  IsGroup n group =
      current_dkg_group p k.formats (digest_of p k) g.dkg_renewal_interval g.dkg_participants
        n.service
      ≡ ok group

  abbrev IsPicked : Node p → List Bytes → Bytes → Type 0
  IsPicked n group a = pick p k n.last_random_no group ≡ ok a

  IsGroup-of : (m n : Node p) (group : List Bytes) → m ≡ n → IsGroup m group → IsGroup n group
  IsGroup-of m n group e h = rw e at h

  IsPicked-of :
      (m n : Node p) (group : List Bytes) (a : Bytes)
      → m ≡ n
      → IsPicked m group a
      → IsPicked n group a
  IsPicked-of m n group a e h = rw e at h

  -- The new group key does not matter to a test with the previous one.
  renewed :
      (s n : Node p) (b : Block)
      → passes true b s ≡ passes true b n
      → passes true b
          (record s { consensus = set_current_group_key b.header.group_pubkey s.consensus })
        ≡ passes true b n
  unfolding verify_group_sig set_current_group_key
  renewed s n b h = h

  group_signer-Ensures :
      (n : Node p) (b : Block)
      → renews b ≡ true
      → Ensures
          (λ s. (s ≡ n) × Own p k o s)
          (group_signer p k g b)
          (λ r s.
            (passes true b s ≡ passes true b n)
            × Own p k o s
            × ((ip : p.netaddr.Net) → r ≡ some ip → IsDue b n ip))
  unfolding group_signer
  group_signer-Ensures n b c =
      let P : Node p → Type 0 = λ s. (s ≡ n) × Own p k o s in
      Ensures->>= (λ m s. (m ≡ n) × (s ≡ n) × Own p k o s)
        (record { ensures = λ s h m e. let e' : s ≡ m = cc in (sym e' ∙ h.0, h.0, h.1) })
        (λ m.
          Ensures->>= (λ group s. (m ≡ n) × IsGroup n group × (s ≡ n) × Own p k o s)
            (record { ensures = λ s h group e. (h.0, IsGroup-of m n group h.0 e, h.1, h.2) })
            (λ group.
              Ensures->>= (λ a s. IsGroup n group × IsPicked n group a × (s ≡ n) × Own p k o s)
                (record { ensures = λ s h a e. (h.1, IsPicked-of m n group a h.0 e, h.2, h.3) })
                (λ a.
                  Ensures->>=
                    (λ r s.
                      IsGroup n group
                      × IsPicked n group a
                      × (passes true b s ≡ passes true b n)
                      × Own p k o s
                      × IsFirstOf p k o a r)
                    (record {
                      ensures = λ s h r e.
                          let (w, x) = (extract-Ensures p k o a).ensures s.service h.3 r e in
                          (h.0, h.1, ap (passes true b) h.2, w, x);
                    })
                    (λ r.
                      Ensures->>=
                        (λ _ s.
                          IsGroup n group
                          × IsPicked n group a
                          × (passes true b s ≡ passes true b n)
                          × Own p k o s
                          × IsFirstOf p k o a r)
                        (record { ensures = λ s h u e. (h.0, h.1, renewed s n b h.2, h.3, h.4) })
                        (λ _. record {
                          ensures = λ s h r' e.
                              let e' : r ≡ r' = cc in
                              let (address, x, y) = h.4 in
                              (
                                h.2,
                                h.3,
                                λ ip q. of_members c group a address h.0 h.1 x (sym y ∙ e' ∙ q),
                              );
                        })))))

  of_group :
      (n : Node p) (b : Block)
      → renews b ≡ true
      → Ensures
          (λ s. (s ≡ n) × Own p k o s)
          (do ip ← group_signer p k g b; verify_proof p k true ip b)
          (λ _ _. IsAuthentic b n)
  of_group n b c = Ensures->>= _ (group_signer-Ensures n b c) (λ r. record {
    ensures = λ s h a e.
        let (w, x, (ip, y, z)) =
          (verify_proof-Ensures true r b (passes true b n)).ensures s (h.0, h.1) a e in
        record { proof = rw c w; random = x; ip = ip; due = h.2 ip y; author = z };
  })

  by_number :
      (n : Node p) (b : Block) (due : p.netaddr.Net)
      → renews b ≡ false
      → due ≡ k.address n.next_signer
      → Ensures
          (λ s. (s ≡ n) × Own p k o s)
          (verify_proof p k false (some due) b)
          (λ _ _. IsAuthentic b n)
  by_number n b due c d = record {
    ensures = λ s h a e.
        let (w, x, (ip, y, z)) =
          (verify_proof-Ensures false (some due) b (passes false b n)).ensures s
            (ap (passes false b) h.0, h.1) a e in
        record {
          proof = rw c w;
          random = x;
          ip = ip;
          due = numbered c (let y' : due ≡ ip = cc in sym y' ∙ d);
          author = z;
        };
  }

  bootstrap_check-Ensures :
      (n : Node p) (b : Block)
      → Ensures (λ s. (s ≡ n) × Own p k o s) (bootstrap_check p k g b) (λ _ _. IsAuthentic b n)
  unfolding bootstrap_check
  bootstrap_check-Ensures n b = record {
    ensures = λ s h r. elim (Bool-cases (nat_beq g.dkg_renewal_interval 0)) [
      | inl c ↦ rw c (λ e. absurd (failed e))
      | inr c ↦ elim (Bool-cases (renews b)) [
        | inl d ↦ rw (c, d) (λ e. (of_group n b d).ensures s h r e)
        | inr d ↦
            rw (c, d)
              (λ e.
                (by_number n b (k.address s.next_signer) d
                    (ap (λ s. k.address s.next_signer) h.0)).ensures
                  s h r e)
      ]
    ];
  }
    where
      failed : {A : Type 0} {e : Error} {r : A} → err e ≡ ok r → ⊥
      failed h = cc

  -- Where `o` is what the state says that each account owns: after a block of a bootstrap,
  -- whether its step returns or stops the program, the database and the head are as before, or
  -- the group signature of the block is valid, its random number is the hash of that signature,
  -- and the account that signed it owns the due address. That address is the one that the
  -- random number has picked, or, in a block that starts a key generation, the first one of the
  -- member that it picks.
  pub bootstrap_block-IsAuthentic :
      (now : ℕ) (b : Block) (n : Node p)
      → Owns p o n.service.chain.state
      → HasBlocks p k o n (bootstrap_block p k g now b n).1 ⊎ IsAuthentic b n
  unfolding bootstrap_block
  bootstrap_block-IsAuthentic now b n h =
      elim (decided (bootstrap_check p k g b n)
        ((bootstrap_check-Ensures n b).ensures n (refl, h))) [
          | inr x ↦ inr x
          | inl e ↦ inl (
              rw e (
                (bootstrap_check-Looks p k n.service.chain.db n.service.chain.head_hash g b).keeps n
                  (refl, refl)))
        ]
    where
      decided :
          (q : Result Bool × Node p)
          → ((a : Bool) → q.0 ≡ ok a → IsAuthentic b n)
          → (let q' : Result (Unit {0}) × Node p = elim q.0 [
            | ok true ↦ bootstrap_accept p k g now b q.1
            | ok false ↦ (ok tt, q.1)
            | err e ↦ if is_passed_over e then (ok tt, q.1) else (err e, q.1)
          ] in
              (q'.1 ≡ q.1) ⊎ IsAuthentic b n)
      decided (ok a, s) h = inr (h a refl)
      decided (err x, s) h = elim (Bool-cases (is_passed_over x)) [
        | inl e ↦ rw e (inl refl)
        | inr e ↦ rw e (inl refl)
      ]
