-- ===== src/Node/Bootstrap.antt =====
-- blockchaincba.py: `perform_bootstrap`, which adds the blocks that the other nodes already have.
use blockchain_mapping_syste.Prelude.{
  ℕ, ◌%◌, Bool, true, false, not, Option, some, List, [], ◌∷◌, bytes_eq, ◌==◌, nat_beq, Error, ok,
  err, exception, zero_division_error, unsigned_block, invalid_block_signer, or_raise, raise_if,
  if◌then◌else◌,
}
use blockchain_mapping_syste.Prelude.Exec.{Exec, pure, lift, modify, ◌>>=◌, ◌>>◌}
use blockchain_mapping_syste.Utils.{encode_hex}
use blockchain_mapping_syste.Block.{Block}
use blockchain_mapping_syste.Apply.{Platform, verify_block_signature}
use blockchain_mapping_syste.ChainService.{on_state, service_add_block, get_addr_from_ip}
use blockchain_mapping_syste.ChainService.Groups.{current_dkg_group, extract_first_ip_from_address}
use blockchain_mapping_syste.Consensus.{
  verify_group_sig, set_current_group_key, bootstrap_only_set_random_no_manual,
  bootstrap_only_set_group_sig_manual,
}
use blockchain_mapping_syste.Node.Local.{Config, Packages, Node, on_service, self, message_of}
use blockchain_mapping_syste.Node.Blocks.{next_signer_round}
use blockchain_mapping_syste.Node.KeyGeneration.{digest_of, pick}

-- The two exceptions for which a block is skipped.
abbrev pub is_passed_over : Error → Bool
is_passed_over unsigned_block = true
is_passed_over invalid_block_signer = true
is_passed_over _ = false

module _ (p : Platform) (k : Packages p) where
  -- The signer of a block that starts a key generation.
  unfoldable pub group_signer : Config → Block → Exec (Node p) (Option p.netaddr.Net)
  group_signer g b = do
    n ← self p
    group ← lift (
        current_dkg_group p k.formats (digest_of p k) g.dkg_renewal_interval g.dkg_participants
          n.service)
    address ← lift (pick p k n.last_random_no group)
    ip ← on_service p (extract_first_ip_from_address p k.formats k.first_ip address)
    modify (λ n. record n { consensus = set_current_group_key b.header.group_pubkey n.consensus })
    pure ip

  -- The `try`, from the group signature on; `renewed` tells whether the block starts a key generation.
  unfoldable pub verify_proof : Bool → Option p.netaddr.Net → Block → Exec (Node p) Bool
  verify_proof renewed signer b = do
    n ← self p
    lift (
        raise_if
          (not (verify_group_sig k.bls (message_of p n) b.header.group_sig renewed n.consensus))
          exception)
    lift (
        raise_if (not (encode_hex b.header.random_number == k.bls.sha256 b.header.group_sig))
          exception)
    ip ← lift (or_raise signer exception)
    lift (get_addr_from_ip p k.formats (p.net_text ip) n.service)
    on_service p (on_state p k.formats (verify_block_signature p b ip))

  -- The body of the `try`.
  unfoldable pub bootstrap_check : Config → Block → Exec (Node p) Bool
  unfolding group_signer verify_proof
  bootstrap_check g b n =
      let renewed = nat_beq (b.header.number % g.dkg_renewal_interval) 0 in
      (if nat_beq g.dkg_renewal_interval 0
          then lift (err zero_division_error)
          else if renewed
          then (do ip ← group_signer g b; verify_proof renewed ip b)
          else verify_proof renewed (some (k.address n.next_signer)) b)
        n

  -- `if res:`
  unfoldable pub bootstrap_accept : Config → ℕ → Block → Exec (Node p) (Unit {0})
  unfolding next_signer_round
  bootstrap_accept g now b = do
    on_service p (service_add_block p k.formats g.depth now b)
    modify (λ n. record n {
      last_random_no = encode_hex b.header.random_number;
      block_num = b.header.number;
      consensus =
          bootstrap_only_set_group_sig_manual b.header.group_sig
            (bootstrap_only_set_random_no_manual (encode_hex b.header.random_number) n.consensus);
    })
    next_signer_round p k

  unfoldable pub bootstrap_block : Config → ℕ → Block → Exec (Node p) (Unit {0})
  unfolding bootstrap_check bootstrap_accept
  bootstrap_block g now b n =
      let (r, n') = bootstrap_check g b n in
      elim r [
        | ok true ↦ bootstrap_accept g now b n'
        | ok false ↦ (ok tt, n')
        | err e ↦ if is_passed_over e then (ok tt, n') else (err e, n')
      ]

  unfoldable pub perform_bootstrap : Config → ℕ → List Block → Exec (Node p) (Unit {0})
  unfolding bootstrap_block
  perform_bootstrap g now [] = pure tt
  perform_bootstrap g now (b ∷ l) = do bootstrap_block g now b; perform_bootstrap g now l
