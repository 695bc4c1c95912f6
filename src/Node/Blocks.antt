-- ===== src/Node/Blocks.antt =====
-- blockchaincba.py: what `run` does with the blocks of the network.
use blockchain_mapping_syste.Prelude.{
  ℕ, Bool, true, false, not, ◌&&◌, ◌||◌, Option, List, [], ◌∷◌, bytes_eq, ◌==◌, ok, err, Error,
  exception, or_raise, raise_if, if◌then◌else◌, unsigned_block, invalid_block_signer,
  bls_invalid_group_signature, some,
}
use blockchain_mapping_syste.Prelude.Exec.{Exec, pure, lift, modify, ◌>>=◌, ◌>>◌}
use blockchain_mapping_syste.Utils.{encode_hex}
use blockchain_mapping_syste.Block.{Block}
use blockchain_mapping_syste.Apply.{Platform, verify_block_signature}
use blockchain_mapping_syste.ChainService.{on_state, service_add_block, get_addr_from_ip}
use blockchain_mapping_syste.ChainService.Groups.{head_of, extract_first_ip_from_address}
use blockchain_mapping_syste.Consensus.{
  Share, verify_group_sig, create_shares, reset_bls, set_current_group_key,
  bootstrap_only_set_random_no_manual, bootstrap_only_set_group_sig_manual,
}
use blockchain_mapping_syste.Consensus.NextSigner.{calculate_next_signer}
use blockchain_mapping_syste.ShareCache.{store_bls}
use blockchain_mapping_syste.Node.Local.{
  Config, Packages, Node, share_sent, on_service, on_consensus, send, self, bound, message_of,
}

-- The three exceptions for which a block is only skipped.
abbrev pub is_skipped : Error → Bool
is_skipped unsigned_block = true
is_skipped invalid_block_signer = true
is_skipped bls_invalid_group_signature = true
is_skipped _ = false

module _ (p : Platform) (k : Packages p) where
  -- `chain.extract_first_ip_from_address(signing_addr)`
  unfoldable pub signer_of_group : Exec (Node p) (Option p.netaddr.Net)
  signer_of_group = do
    n ← self p
    address ← bound p n.signing_addr
    on_service p (extract_first_ip_from_address p k.formats k.first_ip address)

  -- `if in_dkg_group and exit_from_dkg:`
  unfoldable pub after_dkg : Block → Exec (Node p) (Unit {0})
  unfolding signer_of_group
  after_dkg b = do
    modify (λ n. record n { exit_from_dkg = false })
    n ← self p
    lift (raise_if (not (b.header.group_pubkey == n.consensus.group_key)) exception)
    ip ← signer_of_group
    modify (λ n. record n { signer = ip })

  -- `elif dkg_on:`
  unfoldable pub outside_dkg : Block → Exec (Node p) (Unit {0})
  unfolding signer_of_group
  outside_dkg b = do
    ip ← signer_of_group
    modify (λ n. record n {
      signer = ip;
      consensus = set_current_group_key b.header.group_pubkey n.consensus;
      dkg_on = false;
    })

  unfoldable pub during_dkg : Block → Exec (Node p) (Unit {0})
  unfolding outside_dkg
  during_dkg b n = (if n.dkg_on then outside_dkg b else pure tt) n

  -- The branches on `exit_from_dkg` and `dkg_on`, after the group signature.
  unfoldable pub choose_signer : Block → Exec (Node p) (Unit {0})
  unfolding after_dkg during_dkg
  choose_signer b n = (if n.in_dkg_group && n.exit_from_dkg then after_dkg b else during_dkg b) n

  -- `verify_block_signature`, after the log line that looks the signer up; no address at all is not
  -- found there.
  unfoldable pub verify_signer : Block → Exec (Node p) Bool
  verify_signer b = do
    n ← self p
    ip ← lift (or_raise n.signer exception)
    lift (get_addr_from_ip p k.formats (p.net_text ip) n.service)
    on_service p (on_state p k.formats (verify_block_signature p b ip))

  -- The body of the `try`.
  unfoldable pub check_block : Block → Exec (Node p) Bool
  unfolding choose_signer verify_signer
  check_block b = do
    modify (λ n. record n { signer = some (k.address n.next_signer) })
    n ← self p
    lift (
        raise_if
          (not (
            verify_group_sig k.bls (message_of p n) b.header.group_sig (n.exit_from_dkg || n.dkg_on)
              n.consensus))
          bls_invalid_group_signature)
    choose_signer b
    verify_signer b

  -- `p2p.broadcast_share(share)` and `cache.store_bls(share)` for each share.
  unfoldable pub send_shares : ℕ → List Share → Exec (Node p) (Unit {0})
  send_shares now [] = pure tt
  send_shares now (share ∷ l) = do
    send p (share_sent share)
    modify (λ n. record n { cache = store_bls now share n.cache })
    send_shares now l

  -- `if in_dkg_group and create_shares:`, which is the same after a block of the network and an own one.
  unfoldable pub share_round : ℕ → Exec (Node p) (Unit {0})
  unfolding send_shares
  share_round now n =
      (if n.in_dkg_group && n.create_shares
          then (do
            modify (λ n. record n { count = 0 })
            n ← self p
            l ← on_consensus p (create_shares k.bls (message_of p n) n.block_num)
            send_shares now l)
          else pure tt)
        n

  -- `consensus.calculate_next_signer(block_num)`
  unfoldable pub next_signer_round : Exec (Node p) (Unit {0})
  next_signer_round = do
    n ← self p
    ip ← lift (calculate_next_signer n.block_num n.consensus.current_random_no)
    modify (λ n. record n { next_signer = ip })

  -- The first block after a bootstrap brings its random number and group signature.
  unfoldable pub leave_bootstrap : Block → Node p → Node p
  leave_bootstrap b n =
      let c =
        bootstrap_only_set_group_sig_manual b.header.group_sig
          (bootstrap_only_set_random_no_manual n.last_random_no n.consensus) in
      if n.from_bootstrap then record n { from_bootstrap = false; consensus = c } else n

  -- `if res:`
  unfoldable pub accept_block : Config → ℕ → Block → Exec (Node p) (Unit {0})
  unfolding leave_bootstrap next_signer_round share_round
  accept_block g now b = do
    on_service p (service_add_block p k.formats g.depth now b)
    n ← self p
    head ← lift (head_of p k.formats n.service)
    modify (λ n. record n {
      timestamp = head.header.timestamp;
      block_num = head.header.number;
      last_random_no = encode_hex b.header.random_number;
    })
    modify (leave_bootstrap b)
    next_signer_round
    modify (λ n. record n { consensus = reset_bls k.bls n.consensus })
    share_round now

  unfoldable pub receive_block : Config → ℕ → Block → Exec (Node p) (Unit {0})
  unfolding check_block accept_block
  receive_block g now b n =
      let (r, n') = check_block b n in
      elim r [
        | ok true ↦ accept_block g now b n'
        | ok false ↦ (ok tt, n')
        | err e ↦ if is_skipped e then (ok tt, n') else (err e, n')
      ]

  -- The blocks that `get_block` gives before `None`.
  unfoldable pub receive_blocks : Config → ℕ → List Block → Exec (Node p) (Unit {0})
  unfolding receive_block
  receive_blocks g now [] = pure tt
  receive_blocks g now (b ∷ l) = do receive_block g now b; receive_blocks g now l
