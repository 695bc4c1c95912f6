-- ===== src/Node/Signing.antt =====
-- blockchaincba.py: the turn in which `run` may create and sign the next block.
use blockchain_mapping_syste.Prelude.{
  ℕ, ◌+◌, false, not, ◌&&◌, ◌||◌, none, some, Bytes, bytes_eq, leb, err, exception, if◌then◌else◌,
}
use blockchain_mapping_syste.Prelude.Exec.{Exec, pure, lift, modify, ◌>>=◌, ◌>>◌}
use blockchain_mapping_syste.Prelude.Dict.{lookup}
use blockchain_mapping_syste.Block.{sign_block}
use blockchain_mapping_syste.Apply.{Platform}
use blockchain_mapping_syste.ChainService.{
  Proposal, create_block, service_add_block, get_addr_from_ip,
}
use blockchain_mapping_syste.ChainService.Groups.{head_of}
use blockchain_mapping_syste.Consensus.{Consensus, reset_bls}
use blockchain_mapping_syste.Node.Local.{
  Config, Packages, Node, block_sent, on_service, send, self, bound,
}
use blockchain_mapping_syste.Node.Blocks.{next_signer_round, share_round}

-- The arguments of `create_block`.
abbrev pub proposal_of : Bytes → ℕ → Consensus → Proposal
proposal_of signing_addr count c = record {
  coinbase = signing_addr;
  random_no = c.current_random_no;
  group_key = some c.group_key;
  group_sig = c.group_sig;
  count = count;
}

module _ (p : Platform) (k : Packages p) where
  -- `timestamp` and `block_num` of the head.
  unfoldable pub read_head : Exec (Node p) (Unit {0})
  read_head = do
    n ← self p
    head ← lift (head_of p k.formats n.service)
    modify (λ n. record n { timestamp = head.header.timestamp; block_num = head.header.number })

  -- `if not exit_from_dkg:`, the owner of the next signer's address.
  unfoldable pub find_signer : Exec (Node p) (Unit {0})
  find_signer n =
      (if n.exit_from_dkg then pure tt else (do
        let ip = k.address n.next_signer
        modify (λ n. record n { signer = some ip })
        address ← lift (get_addr_from_ip p k.formats (p.net_text ip) n.service)
        modify (λ n. record n { signing_addr = some address })))
        n

  -- From the log line that names `signer` on; `key` is the key of `address`.
  unfoldable pub produce_block : Config → ℕ → Bytes → Bytes → Exec (Node p) (Unit {0})
  unfolding next_signer_round share_round
  produce_block g now address key = do
    modify (λ n. record n { exit_from_dkg = false })
    n ← self p
    bound p n.signer
    b ← on_service p (
        create_block p k.formats g.dkg_renewal_interval g.depth now
          (proposal_of address n.count n.consensus))
    let signed = sign_block p.block_crypto key b
    on_service p (service_add_block p k.formats g.depth now signed)
    send p (block_sent signed)
    modify (λ n. record n { count = 0; block_num = signed.header.number })
    next_signer_round p k
    modify (λ n. record n {
      last_random_no = n.consensus.current_random_no;
      consensus = reset_bls k.bls n.consensus;
    })
    share_round p k now

  -- `if signing_addr in addresses:`
  unfoldable pub produce_if_own : Config → ℕ → Exec (Node p) (Unit {0})
  unfolding produce_block
  produce_if_own g now = do
    n ← self p
    address ← bound p n.signing_addr
    elim (lookup address n.keys) [ none ↦ pure tt | some key ↦ produce_block g now address key ]

  -- `if (time.time()-timestamp) >= BLOCK_TIME:`
  unfoldable pub at_block_time : Config → ℕ → Exec (Node p) (Unit {0})
  unfolding find_signer produce_if_own
  at_block_time g now n =
      (if leb (n.timestamp + g.timeout) now
          then lift (err exception)
          else if (n.consensus.verified || n.exit_from_dkg) && not n.dkg_on
          then (do find_signer; produce_if_own g now)
          else pure tt)
        n

  unfoldable pub sign_next_block : Config → ℕ → Exec (Node p) (Unit {0})
  unfolding read_head at_block_time
  sign_next_block g now = do
    read_head
    n ← self p
    if leb (n.timestamp + g.block_time) now then at_block_time g now else pure tt
