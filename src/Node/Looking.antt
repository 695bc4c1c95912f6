-- ===== src/Node/Looking.antt =====
-- The check of a block of the network only reads the chain.
use blockchain_mapping_syste.Prelude.{
  Bool, some, nat_beq, ◌%◌, ◌&&◌, Option, Bytes, ◌≡◌, ok, err, Result,
}
use blockchain_mapping_syste.Prelude.Exec.{Exec}
use blockchain_mapping_syste.Prelude.Dict.{Dict}
use blockchain_mapping_syste.Prelude.Hoare.{Keeps, Keeps->>=, Keeps-lift, Keeps-if}
use blockchain_mapping_syste.Block.{Block}
use blockchain_mapping_syste.Apply.{Platform}
use blockchain_mapping_syste.ChainService.{Service, get_field}
use blockchain_mapping_syste.ChainService.Groups.{extract_first_ip_from_address}
use blockchain_mapping_syste.Node.{
  Packages, Node, signer_of_group, after_dkg, outside_dkg, during_dkg, choose_signer, verify_signer,
  check_block, Config, verify_proof, group_signer, bootstrap_check,
}

module _ (p : Platform) (k : Packages p) (db : Dict Bytes Bytes) (head : Bytes) where
  abbrev pub HasStore : Service p → Type 0
  HasStore v = (v.chain.db ≡ db) × (v.chain.head_hash ≡ head)

  abbrev pub Looks : {A : Type 0} → Exec (Node p) A → Type 0
  Looks m = Keeps (λ n. HasStore n.service) m

  pub looks :
      {A : Type 0} {m : Exec (Node p) A}
      → ((n : Node p) → HasStore n.service → HasStore (m n).1.service)
      → Looks m
  looks h = record { keeps = h }

  get_field-Keeps : (a : Bytes) → Keeps HasStore (get_field p k.formats (λ b. b.own_ips) a)
  unfolding get_field
  get_field-Keeps a =
      Keeps->>= Keeps-lift
        (λ _. Keeps->>= (record { keeps = λ v h. h }) (λ b. record { keeps = λ v h. h }))

  pub extract-Keeps :
      (a : Bytes) → Keeps HasStore (extract_first_ip_from_address p k.formats k.first_ip a)
  unfolding extract_first_ip_from_address
  extract-Keeps a = record {
    keeps =
        λ v h. taken (get_field p k.formats (λ b. b.own_ips) a v) ((get_field-Keeps a).keeps v h);
  }
    where
      taken :
          (q : Result p.netaddr.IpSet × Service p)
          → HasStore q.1
          → (let q' : Result (Option p.netaddr.Net) × Service p = elim q.0 [
            | ok ips ↦ (ok (k.first_ip ips), q.1)
            | err e ↦ (err e, q.1)
          ] in
              HasStore q'.1)
      taken (ok ips, v) h = h
      taken (err e, v) h = h

  signer_of_group-Looks : Looks (signer_of_group p k)
  unfolding signer_of_group
  signer_of_group-Looks =
      Keeps->>= (looks (λ n h. h))
        (λ n. Keeps->>= Keeps-lift (λ a. looks (λ n h. (extract-Keeps a).keeps n.service h)))

  after_dkg-Looks : (b : Block) → Looks (after_dkg p k b)
  unfolding after_dkg
  after_dkg-Looks b = Keeps->>= (looks (λ n h. h)) (λ _.
      Keeps->>= (looks (λ n h. h)) (λ n'.
        Keeps->>= Keeps-lift (λ _. Keeps->>= signer_of_group-Looks (λ ip. looks (λ n h. h)))))

  during_dkg-Looks : (b : Block) → Looks (during_dkg p k b)
  unfolding during_dkg outside_dkg
  during_dkg-Looks b = looks (λ n.
      (Keeps-if n.dkg_on (Keeps->>= signer_of_group-Looks (λ ip. looks (λ n h. h)))
          (looks (λ n h. h))).keeps
        n)

  choose_signer-Looks : (b : Block) → Looks (choose_signer p k b)
  unfolding choose_signer
  choose_signer-Looks b = looks (λ n.
      (Keeps-if (n.in_dkg_group && n.exit_from_dkg) (after_dkg-Looks b) (during_dkg-Looks b)).keeps
        n)

  pub check_block-Looks : (b : Block) → Looks (check_block p k b)
  unfolding check_block verify_signer
  check_block-Looks b = Keeps->>= (looks (λ n h. h)) (λ _. Keeps->>= (looks (λ n h. h)) (λ n.
      Keeps->>= Keeps-lift (λ _. Keeps->>= (choose_signer-Looks b) (λ _.
        Keeps->>= (looks (λ n h. h))
          (λ n'. Keeps->>= Keeps-lift (λ ip. Keeps->>= Keeps-lift (λ _. looks (λ n h. h))))))))

  verify_proof-Looks :
      (renewed : Bool) (ip : Option p.netaddr.Net) (b : Block)
      → Looks (verify_proof p k renewed ip b)
  unfolding verify_proof
  verify_proof-Looks renewed ip b = Keeps->>= (looks (λ n h. h)) (λ n. Keeps->>= Keeps-lift (λ _.
      Keeps->>= Keeps-lift
        (λ _. Keeps->>= Keeps-lift (λ a. Keeps->>= Keeps-lift (λ _. looks (λ n h. h))))))

  group_signer-Looks : (g : Config) (b : Block) → Looks (group_signer p k g b)
  unfolding group_signer
  group_signer-Looks g b = Keeps->>= (looks (λ n h. h)) (λ n. Keeps->>= Keeps-lift (λ group.
      Keeps->>= Keeps-lift (λ a.
        Keeps->>= (looks (λ n h. (extract-Keeps a).keeps n.service h))
          (λ ip. Keeps->>= (looks (λ n h. h)) (λ _. looks (λ n h. h))))))

  pub bootstrap_check-Looks : (g : Config) (b : Block) → Looks (bootstrap_check p k g b)
  unfolding bootstrap_check
  bootstrap_check-Looks g b = looks (λ n.
      (Keeps-if (nat_beq g.dkg_renewal_interval 0) Keeps-lift (
          Keeps-if (nat_beq (b.header.number % g.dkg_renewal_interval) 0)
            (Keeps->>= (group_signer-Looks g b) (λ ip. verify_proof-Looks _ ip b))
            (verify_proof-Looks _ (some (k.address n.next_signer)) b))).keeps
        n)
