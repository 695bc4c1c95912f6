-- ===== src/Node/KeyGeneration.antt =====
-- blockchaincba.py: the start of a key generation and its shares.
use blockchain_mapping_syste.Prelude.{
  ℕ, ◌+◌, ◌%◌, Bool, true, false, not, ◌&&◌, none, some, List, [], ◌∷◌, Bytes, bytes_eq, length,
  get_elem?, leb, nat_beq, Result, ok, err, exception, index_error, attribute_error,
  zero_division_error, or_raise, raise_if, if◌then◌else◌,
}
use blockchain_mapping_syste.Prelude.Exec.{Exec, pure, lift, modify, ◌>>=◌, ◌>>◌}
use blockchain_mapping_syste.Utils.{encode_hex, compress_random_no_to_int}
use blockchain_mapping_syste.Apply.{Platform}
use blockchain_mapping_syste.Chain.{decimal, get_block_by_number}
use blockchain_mapping_syste.ChainService.Groups.{current_dkg_group}
use blockchain_mapping_syste.Consensus.{
  DkgShare, is_in, new_dkg, store_ids, all_node_dkgs_finished, verify_dkg_contribution,
}
use blockchain_mapping_syste.ShareCache.{store_dkg, in_dkg_cache}
use blockchain_mapping_syste.Node.Local.{
  Config, Packages, Node, dkg_share_sent, on_consensus, send, self,
}

-- `find_me_in_dkg_group`: the addresses of the node that are in the group.
unfoldable pub find_me_in_dkg_group : List Bytes → List (Bytes × Bytes) → Bool × List Bytes
find_me_in_dkg_group current_group [] = (false, [])
find_me_in_dkg_group current_group ((address, _) ∷ l) =
    let rest = find_me_in_dkg_group current_group l in
    if is_in address current_group then (true, address ∷ rest.1) else rest

-- `'no_asociated_dkg'`
abbrev pub no_dkg_label : Bytes
no_dkg_label =
    b'n' ∷ b'o' ∷ b'_' ∷ b'a' ∷ b's' ∷ b'o' ∷ b'c' ∷ b'i' ∷ b'a' ∷ b't' ∷ b'e' ∷ b'd' ∷ b'_' ∷ b'd'
    ∷ b'k' ∷ b'g' ∷ []

module _ (p : Platform) (k : Packages p) where
  -- `hashlib.sha256(str(n)).hexdigest()`
  abbrev pub digest_of : ℕ → Bytes
  digest_of n = k.bls.sha256 (decimal n)

  -- `if consensus.all_node_dkgs_finished():`
  unfoldable pub finished : Node p → Result Bool
  finished n = elim n.consensus.members [
    | none ↦ err attribute_error
    | some m ↦ all_node_dkgs_finished n.consensus.own_ids m
  ]

  unfoldable pub leave_if_finished : Exec (Node p) Bool
  unfolding finished
  leave_if_finished = do
    n ← self p
    done ← lift (finished n)
    modify (λ n. if done then record n { dkg_on = false; exit_from_dkg = true } else n)
    pure done

  unfoldable pub send_dkg_shares : ℕ → List DkgShare → Exec (Node p) (Unit {0})
  send_dkg_shares now [] = pure tt
  send_dkg_shares now (share ∷ l) = do
    modify (λ n. record n { cache = store_dkg now share n.cache })
    send p (dkg_share_sent share)
    send_dkg_shares now l

  -- The member of the group that a random number picks.
  unfoldable pub pick : Bytes → List Bytes → Result Bytes
  pick random_no group = elim (compress_random_no_to_int random_no) [
    | err e ↦ err e
    | ok n ↦
        if nat_beq (length group) 0
        then err zero_division_error
        else or_raise (get_elem? group (n % length group)) index_error
  ]

  -- The two branches on `in_dkg_group`.
  unfoldable pub join_group : ℕ → List Bytes → Exec (Node p) (Unit {0})
  unfolding leave_if_finished send_dkg_shares
  join_group now group n =
      (if n.in_dkg_group
          then (do
            to_send ← on_consensus p (new_dkg k.bls group n.my_dkg_ids)
            send_dkg_shares now to_send
            leave_if_finished
            pure tt)
          else on_consensus p (store_ids k.bls no_dkg_label group))
        n

  -- The body of the trigger.
  unfoldable pub start_dkg : Config → ℕ → Exec (Node p) (Unit {0})
  unfolding find_me_in_dkg_group join_group pick
  start_dkg g now = do
    modify (λ n. record n { dkg_on = true; create_shares = true })
    n ← self p
    group ← lift (
        current_dkg_group p k.formats digest_of g.dkg_renewal_interval g.dkg_participants n.service)
    let (found, ids) = find_me_in_dkg_group group n.keys
    modify (λ n. record n { dkg_group = group; in_dkg_group = found; my_dkg_ids = ids })
    join_group now group
    n ← self p
    b ← lift (get_block_by_number p k.formats n.block_num n.service.chain)
    address ← lift (pick (encode_hex b.header.random_number) group)
    modify (λ n. record n { signing_addr = some address })

  unfoldable pub trigger_dkg : Config → ℕ → Exec (Node p) (Unit {0})
  unfolding start_dkg
  trigger_dkg g now n =
      (if nat_beq g.dkg_renewal_interval 0
          then lift (err zero_division_error)
          else if nat_beq ((n.block_num + 1) % g.dkg_renewal_interval) 0
              && not n.dkg_on
              && not n.exit_from_dkg
              && n.consensus.verified
          then start_dkg g now
          else pure tt)
        n

  -- A share for one of the node's own ids.
  unfoldable pub take_dkg_share : Config → ℕ → DkgShare → Exec (Node p) (Unit {0})
  unfolding leave_if_finished
  take_dkg_share g now share = do
    on_consensus p (verify_dkg_contribution k.bls share)
    done ← leave_if_finished
    n ← self p
    lift (raise_if (not done && leb (n.timestamp + g.dkg_timeout) now) exception)

  unfoldable pub receive_dkg_share : Config → ℕ → DkgShare → Exec (Node p) (Unit {0})
  unfolding take_dkg_share
  receive_dkg_share g now share n =
      (if in_dkg_cache share n.cache then pure tt else (do
        if is_in share.to n.my_dkg_ids
            then take_dkg_share g now share
            else send p (dkg_share_sent share)
        modify (λ n. record n { cache = store_dkg now share n.cache })))
        n

  -- The loop of a member of the group; what it leaves of the queue is returned. The share that is
  -- read when the key generation is over is taken off the queue all the same.
  unfoldable pub receive_dkg_shares : Config → ℕ → List DkgShare → Exec (Node p) (List DkgShare)
  unfolding receive_dkg_share
  receive_dkg_shares g now [] = pure []
  receive_dkg_shares g now (share ∷ l) = do
    n ← self p
    if n.dkg_on then (do receive_dkg_share g now share; receive_dkg_shares g now l) else pure l

  -- A node outside the group sleeps for one block time, till `later`.
  unfoldable pub collect_dkg : Config → ℕ → ℕ → List DkgShare → Exec (Node p) (List DkgShare)
  unfolding receive_dkg_shares
  collect_dkg g now later l n =
      (if n.in_dkg_group then receive_dkg_shares g now l else do
        lift (raise_if (n.dkg_on && leb (n.timestamp + g.dkg_timeout) later) exception)
        pure l)
        n
