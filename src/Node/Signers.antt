-- ===== src/Node/Signers.antt =====
-- Who has to sign a block, and that a check of the signer which returns has found the signer to own
-- the address.
use blockchain_mapping_syste.Prelude.{
  true, false, ◌&&◌, ◌||◌, Option, none, some, Bytes, bytes_eq, ◌≡◌, refl, sym, ◌∙◌, ok, err, Error,
  Result, arith, Bool-cases, inl, inr, length, nat_beq, if◌then◌else◌, or_raise, unsigned_block,
  invalid_block_signer,
}
use blockchain_mapping_syste.Prelude.Hoare.{Ensures, Ensures->>=, Ensures-lift}
use blockchain_mapping_syste.Utils.{normalize_address}
use blockchain_mapping_syste.Balance.{in_own_ips}
use blockchain_mapping_syste.Block.{Block, signer}
use blockchain_mapping_syste.Apply.{Platform, verify_block_signature, unsigned_if_attribute}
use blockchain_mapping_syste.Apply.Ownership.{Owns, ReadAt, reads}
use blockchain_mapping_syste.ChainService.{Service, get_field}
use blockchain_mapping_syste.ChainService.Groups.{extract_first_ip_from_address}
use blockchain_mapping_syste.Consensus.{verify_group_sig}
use blockchain_mapping_syste.Node.{Packages, Node, message_of, signer_of_group}

module _ (p : Platform) (o : Bytes → p.netaddr.IpSet) where
  -- Who has signed the block owns the address `ip`.
  pub record IsSignedBy (b : Block) (ip : p.netaddr.Net) : Type 0 where
    pub author : Bytes
    pub signed : signer p.block_crypto b ≡ ok author
    pub address : Bytes
    pub is_address : normalize_address p.codec author false ≡ ok address
    pub owner : p.netaddr.contains (o address) ip ≡ true

  author_of :
      (b : Block) (a : Bytes) (r : Result Bytes)
      → (let r' : Result Bytes = elim r [
        | ok a ↦ if nat_beq (length a) 0 then err unsigned_block else ok a
        | err e ↦ err (unsigned_if_attribute e)
      ] in
          r' ≡ ok a)
      → r ≡ ok a
  author_of b a (ok x) h = ground arith
  author_of b a (err e) h = cc

  pub verify_block_signature-IsSignedBy :
      (b : Block) (ip : p.netaddr.Net)
      → Ensures (Owns p o) (verify_block_signature p b ip) (λ _ s. IsSignedBy b ip)
  unfolding verify_block_signature in_own_ips
  verify_block_signature-IsSignedBy b ip = Ensures->>= _ Ensures-lift (λ a.
      Ensures->>= (λ x s. (signer p.block_crypto b ≡ ok a) × ReadAt p o a x)
        (record {
          ensures = λ s h x e.
              (author_of b a (signer p.block_crypto b) h.0, ((reads p o a).ensures s h.1 x e).0);
        })
        (λ x. record {
          ensures = λ s (w, r) c e. elim (Bool-cases (p.netaddr.contains x.own_ips ip)) [
            | inl q ↦ record {
              author = a;
              signed = w;
              address = r.address;
              is_address = r.is_address;
              owner = rw r.own at q;
            }
            | inr q ↦ let e' : err invalid_block_signer ≡ ok c = rw q at e in cc
          ];
        }))

module _ (p : Platform) (k : Packages p) (o : Bytes → p.netaddr.IpSet) where
  -- The address that the signer must own: the one that the random number has picked, or, in a key
  -- generation and right after one, the first one of the member of the group that signs.
  pub data IsChosen (n : Node p) (ip : p.netaddr.Net) : Type 0 where
    picked : ip ≡ k.address n.next_signer → IsChosen n ip
    of_group :
        (n.in_dkg_group && n.exit_from_dkg || n.dkg_on) ≡ true
        → (member address : Bytes) → n.signing_addr ≡ some member
        → normalize_address p.codec member false ≡ ok address
        → k.first_ip (o address) ≡ some ip
        → IsChosen n ip

  pub record IsProven (b : Block) (n : Node p) : Type 0 where
    pub proof :
        verify_group_sig k.bls
          (message_of p n)
          b.header.group_sig
          (n.exit_from_dkg || n.dkg_on)
          n.consensus
        ≡ true
    pub ip : p.netaddr.Net
    pub chosen : IsChosen n ip
    pub author : IsSignedBy p o b ip

  abbrev pub Own : Node p → Type 0
  Own s = Owns p o s.service.chain.state

  abbrev pub Chosen : Node p → Option p.netaddr.Net → Type 0
  Chosen n r = (ip : p.netaddr.Net) → r ≡ some ip → IsChosen n ip

  -- The first address of an account, by what the state says that it owns.
  abbrev pub IsFirstOf : Bytes → Option p.netaddr.Net → Type 0
  IsFirstOf a r =
      (address : Bytes) × (normalize_address p.codec a false ≡ ok address)
      × (r ≡ k.first_ip (o address))

  get_field-Ensures :
      (a : Bytes)
      → Ensures
          (λ v. Owns p o v.chain.state)
          (get_field p k.formats (λ b. b.own_ips) a)
          (λ ips v. Owns p o v.chain.state × IsFirstOf a (k.first_ip ips))
  unfolding get_field
  get_field-Ensures a = Ensures->>= _ Ensures-lift (λ x.
      Ensures->>= (λ b v. Owns p o v.chain.state × ReadAt p o a b)
        (record {
          ensures = λ v h b e. let q = (reads p o a).ensures v.chain.state h.1 b e in (q.1, q.0);
        })
        (λ b. record {
          ensures = λ v (h, r) ips e.
              let e' : b.own_ips ≡ ips = cc in
              (h, (r.address, r.is_address, rw (← e', r.own) refl));
        }))

  pub extract-Ensures :
      (a : Bytes)
      → Ensures
          (λ v. Owns p o v.chain.state)
          (extract_first_ip_from_address p k.formats k.first_ip a)
          (λ r v. Owns p o v.chain.state × IsFirstOf a r)
  unfolding extract_first_ip_from_address
  extract-Ensures a = record {
    ensures = λ v h r e.
        taken (get_field p k.formats (λ b. b.own_ips) a v) r ((get_field-Ensures a).ensures v h) e;
  }
    where
      taken :
          (q : Result p.netaddr.IpSet × Service p) (r : Option p.netaddr.Net)
          → ((ips : p.netaddr.IpSet)
              → q.0 ≡ ok ips
              → Owns p o q.1.chain.state × IsFirstOf a (k.first_ip ips))
          → (let q' : Result (Option p.netaddr.Net) × Service p = elim q.0 [
            | ok ips ↦ (ok (k.first_ip ips), q.1)
            | err e ↦ (err e, q.1)
          ] in
              (q'.0 ≡ ok r) → Owns p o q'.1.chain.state × IsFirstOf a r)
      taken (ok ips, v) r h e =
          let (w, x) = h ips refl in let e' : k.first_ip ips ≡ r = cc in (w, rw e' at x)
      taken (err x, v) r h e = cc

  pub or_raise-some :
      {A : Type 0} (q : Option A) (e : Error) (a : A) → or_raise q e ≡ ok a → q ≡ some a
  or_raise-some none e a h = cc
  or_raise-some (some x) e a h = cc

  pub signer_of_group-Ensures :
      (n : Node p)
      → (n.in_dkg_group && n.exit_from_dkg || n.dkg_on) ≡ true
      → Ensures
          (λ s. (s.signing_addr ≡ n.signing_addr) × Own s)
          (signer_of_group p k)
          (λ r s. Own s × Chosen n r)
  unfolding signer_of_group
  signer_of_group-Ensures n c =
      Ensures->>= (λ s' s. (s'.signing_addr ≡ n.signing_addr) × Own s)
        (record { ensures = λ s h s' e. let e' : s ≡ s' = cc in (rw e' at h.0, h.1) })
        (λ s'.
          Ensures->>= (λ a s. (n.signing_addr ≡ some a) × Own s)
            (record { ensures = λ s h a e. (sym h.0 ∙ or_raise-some s'.signing_addr _ a e, h.1) })
            (λ a. record {
              ensures = λ s h r e.
                  let (w, (address, x, y)) = (extract-Ensures a).ensures s.service h.1 r e in
                  (w, λ ip q. of_group c a address h.0 x (sym y ∙ q));
            }))
