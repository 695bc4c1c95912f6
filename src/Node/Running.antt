-- ===== src/Node/Running.antt =====
-- The flags of a key generation through a bootstrap and any number of turns of the main loop.
use blockchain_mapping_syste.Prelude.{
  ℕ, ◌%◌, nat_beq, Bool, true, false, Option, some, List, [], ◌∷◌, ap, ok, err, Result, arith,
  if◌then◌else◌,
}
use blockchain_mapping_syste.Prelude.Exec.{Exec, ◌>>=◌}
use blockchain_mapping_syste.Prelude.Hoare.{
  Ensures, Keeps-Ensures, Keeps-lift, Keeps-if, Keeps->>=, Ensures->>=,
}
use blockchain_mapping_syste.Apply.{Platform}
use blockchain_mapping_syste.Block.{Block}
use blockchain_mapping_syste.ChainService.Synced.{
  extract-Keeps, verifying-Keeps, service_add_block-Keeps,
}
use blockchain_mapping_syste.Node.{
  Config, Packages, Node, is_passed_over, group_signer, verify_proof, bootstrap_check,
  bootstrap_accept, bootstrap_block, perform_bootstrap, Inputs, enter_loop, start, Reaches, started,
  turned, turn,
}
use blockchain_mapping_syste.Node.Flags.{
  IsSound, serves, Stays, stays, Stays-at, Stays-self, next_signer_round-Stays,
  receive_blocks-Stays,
}
use blockchain_mapping_syste.Node.Rounds.{
  sign_next_block-Stays, receive_txs-Stays, user_turn-Stays, answer_query-Stays,
  answer_blocks-Stays, answer_pool-Stays, share_turn-Stays, watch_time-IsSound,
}
use blockchain_mapping_syste.Node.Groups.{trigger_dkg-Ensures, collect_dkg-Ensures}

module _ (p : Platform) (k : Packages p) (g : Config) where
  verify_proof-Stays :
      (renewed : Bool) (ip : Option p.netaddr.Net) (b : Block)
      → Stays p k (verify_proof p k renewed ip b)
  unfolding verify_proof
  verify_proof-Stays renewed ip b = Keeps->>= (Stays-self p k) (λ n. Keeps->>= Keeps-lift (λ _.
      Keeps->>= Keeps-lift (λ _.
        Keeps->>= Keeps-lift
          (λ a. Keeps->>= Keeps-lift (λ _. serves p k (verifying-Keeps p k.formats b a))))))

  group_signer-Stays : (b : Block) → Stays p k (group_signer p k g b)
  unfolding group_signer
  group_signer-Stays b = Keeps->>= (Stays-self p k) (λ n. Keeps->>= Keeps-lift (λ group.
      Keeps->>= Keeps-lift (λ a.
        Keeps->>= (serves p k (extract-Keeps p k.formats k.first_ip a))
          (λ ip. Keeps->>= (stays p k (λ n h. h)) (λ _. stays p k (λ n h. h))))))

  bootstrap_check-Stays : (b : Block) → Stays p k (bootstrap_check p k g b)
  unfolding bootstrap_check
  bootstrap_check-Stays b = Stays-at p k (λ n.
      Keeps-if (nat_beq g.dkg_renewal_interval 0) Keeps-lift (
        Keeps-if (nat_beq (b.header.number % g.dkg_renewal_interval) 0)
          (Keeps->>= (group_signer-Stays b) (λ ip. verify_proof-Stays _ ip b))
          (verify_proof-Stays _ (some (k.address n.next_signer)) b)))

  bootstrap_accept-Stays : (now : ℕ) (b : Block) → Stays p k (bootstrap_accept p k g now b)
  unfolding bootstrap_accept
  bootstrap_accept-Stays now b =
      Keeps->>= (serves p k (service_add_block-Keeps p k.formats g.depth now b))
        (λ _. Keeps->>= (stays p k (λ n h. h)) (λ _. next_signer_round-Stays p k))

  bootstrap_block-Stays : (now : ℕ) (b : Block) → Stays p k (bootstrap_block p k g now b)
  unfolding bootstrap_block
  bootstrap_block-Stays now b =
      stays p k (λ n h. checked (bootstrap_check p k g b n) ((bootstrap_check-Stays b).keeps n h))
    where
      checked :
          (q : Result Bool × Node p)
          → IsSound p k q.1
          → (let n' : Result (Unit {0}) × Node p = elim q.0 [
            | ok true ↦ bootstrap_accept p k g now b q.1
            | ok false ↦ (ok tt, q.1)
            | err e ↦ if is_passed_over e then (ok tt, q.1) else (err e, q.1)
          ] in
              IsSound p k n'.1)
      checked (ok true, n') h = (bootstrap_accept-Stays now b).keeps n' h
      checked (ok false, n') h = h
      checked (err e, n') h = ground arith

  perform_bootstrap-Stays : (now : ℕ) (l : List Block) → Stays p k (perform_bootstrap p k g now l)
  unfolding perform_bootstrap
  perform_bootstrap-Stays now [] = Keeps-lift
  perform_bootstrap-Stays now (b ∷ l) =
      Keeps->>= (bootstrap_block-Stays now b) (λ _. perform_bootstrap-Stays now l)

  enter_loop-Stays : Stays p k (enter_loop p k g)
  unfolding enter_loop
  enter_loop-Stays =
      Keeps->>= (Stays-self p k)
        (λ n. Keeps->>= Keeps-lift (λ head. Keeps->>= Keeps-lift (λ _. stays p k (λ n h. h))))

  start-Stays : (now : ℕ) (l : List Block) → Stays p k (start p k g now l)
  unfolding start
  start-Stays now l = Keeps->>= (perform_bootstrap-Stays now l) (λ _. enter_loop-Stays)

  turn-Ensures : (i : Inputs) → Ensures (IsSound p k) (turn p k g i) (λ _. IsSound p k)
  unfolding turn
  turn-Ensures i = after (receive_blocks-Stays p k g i.now i.blocks) (λ _.
      after (receive_txs-Stays p k g.ext_tx_per_loop 0 i.txs) (λ txs.
        after (sign_next_block-Stays p k g i.now) (λ _. after (user_turn-Stays p k g i.now) (λ _.
          after (answer_query-Stays p k i.query) (λ _.
            after (answer_blocks-Stays p k i.block_numbers) (λ _.
              after (answer_pool-Stays p k i.pool_query) (λ _.
                after (share_turn-Stays p k i.now i.shares) (λ shares.
                  after (stays p k (watch_time-IsSound p k g i.now)) (λ _.
                    Ensures->>= (λ _. IsSound p k) (trigger_dkg-Ensures p k g i.now)
                      (λ _.
                        Ensures->>= (λ _. IsSound p k)
                          (collect_dkg-Ensures p k g i.now i.later i.dkg_shares)
                          (λ left. Keeps-Ensures Keeps-lift)))))))))))
    where
      after :
          {A B : Type 0} {m : Exec (Node p) A} {f : A → Exec (Node p) B}
          → Stays p k m
          → ((a : A) → Ensures (IsSound p k) (f a) (λ _. IsSound p k))
          → Ensures (IsSound p k) (m >>= f) (λ _. IsSound p k)
      after s e = Ensures->>= (λ _. IsSound p k) (Keeps-Ensures s) e

  -- A bootstrap and any number of turns of the main loop, as long as none stops the program,
  -- keep four things: a key generation that is running has not been left; only a member of the
  -- group has left one; the next signer is known while one is running or has just been left;
  -- and the head of the chain is the first of the state's headers, with no block waiting for
  -- its parent.
  pub Reaches-IsSound : (n n' : Node p) → Reaches p k g n n' → IsSound p k n → IsSound p k n'
  Reaches-IsSound n n' (started now l e) h = let h' = (start-Stays now l).keeps n h in rw e at h'
  Reaches-IsSound n n' (turned {m} i left r e) h =
      let h' = (turn-Ensures i).ensures m (Reaches-IsSound n m r h) left (ap (λ q. q.0) e) in
      rw e at h'
