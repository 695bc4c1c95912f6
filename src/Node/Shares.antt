-- ===== src/Node/Shares.antt =====
-- blockchaincba.py: the signature shares of the network.
use blockchain_mapping_syste.Prelude.{
  ℕ, zero, suc, ◌+◌, ◌*◌, Bool, true, not, ◌&&◌, List, [], ◌∷◌, ltb, nat_beq, length, ok,
  if◌then◌else◌, nat_eq,
}
use blockchain_mapping_syste.Prelude.Exec.{Exec, pure, modify, ◌>>=◌, ◌>>◌}
use blockchain_mapping_syste.Prelude.Dict.{lookup}
use blockchain_mapping_syste.Apply.{Platform}
use blockchain_mapping_syste.Consensus.{Share, store_share}
use blockchain_mapping_syste.ShareCache.{
  in_bls_cache, store_bls, store_future_bls, pending_future_bls, get_future_bls, shares_of,
}
use blockchain_mapping_syste.Node.Local.{
  Config, Packages, Node, share_sent, on_consensus, on_cache, send, self, message_of,
}

module _ (p : Platform) (k : Packages p) where
  -- `consensus.store_share(share, msg, block_num)`
  unfoldable pub count_share : Share → Exec (Node p) Bool
  count_share share = do n ← self p; on_consensus p (store_share k.bls share (message_of p n))

  -- The three cases of the number of the share's block.
  unfoldable pub place_share : Share → Exec (Node p) (Unit {0})
  unfolding count_share
  place_share share n =
      (if nat_beq share.block_number n.block_num
          then (do count_share share; pure tt)
          else if ltb n.block_num share.block_number
          then modify (λ n. record n { cache = store_future_bls share n.cache })
          else pure tt)
        n

  unfoldable pub receive_share : ℕ → Share → Exec (Node p) (Unit {0})
  unfolding place_share
  receive_share now share n =
      (if in_bls_cache share n.cache then pure tt else (do
        place_share share
        modify (λ n. record n { cache = store_bls now share n.cache })
        send p (share_sent share)))
        n

  -- The loop over the queue of the network. What it leaves is returned; during a key generation the
  -- first share is taken off the queue all the same.
  unfoldable pub receive_shares : ℕ → List Share → Exec (Node p) (List Share)
  unfolding receive_share
  receive_shares now [] = pure []
  receive_shares now (share ∷ l) = do
    n ← self p
    if n.dkg_on then pure l else (do receive_share now share; receive_shares now l)

  -- The body of the second loop.
  unfoldable pub serve_share : Exec (Node p) Bool
  unfolding count_share
  serve_share = do n ← self p; share ← on_cache p (get_future_bls n.block_num); count_share share

  -- The shares that came too early and are due now; the result tells whether the loop has ended by
  -- its own test.
  unfoldable pub future_shares : ℕ → Exec (Node p) Bool
  unfolding serve_share
  future_shares zero n = (ok (not (pending_future_bls n.block_num n.cache)), n)
  future_shares (suc fuel) n =
      let rest = future_shares fuel in
      (if pending_future_bls n.block_num n.cache then (do serve_share; rest) else pure true) n

  -- One turn for each share that waits.
  unfoldable pub share_turn : ℕ → List Share → Exec (Node p) (List Share)
  unfolding receive_shares future_shares
  share_turn now l = do
    l' ← receive_shares now l
    n ← self p
    future_shares (length (shares_of (lookup n.block_num n.cache.bls_future_shares)))
    pure l'

  -- Close to the time of the next block without a group signature: the next block is taken as after a
  -- bootstrap. The times are compared in hundredths.
  unfoldable pub watch_time : Config → ℕ → Node p → Node p
  watch_time g now n =
      if ltb (100 * n.timestamp + 75 * g.block_time) (100 * now) && not n.consensus.verified
      then if ltb (100 * n.timestamp + 99 * g.block_time) (100 * now) && not g.is_master
        then record n { from_bootstrap = true }
        else n
      else n
