-- ===== src/Node/Rounds.antt =====
-- The flags of a key generation, which the steps on transactions, shares and an own block keep in step.
use blockchain_mapping_syste.Prelude.{
  ℕ, zero, suc, leb, ltb, nat_beq, Bool, true, false, not, ◌&&◌, ◌||◌, Option, none, some, List, [],
  ◌∷◌, Bytes, bytes_eq, ◌+◌, ok, Result, arith, Bool-cases, inl, inr,
}
use blockchain_mapping_syste.Prelude.Exec.{Exec, pure}
use blockchain_mapping_syste.Prelude.Dict.{lookup}
use blockchain_mapping_syste.Prelude.Hoare.{Keeps, Keeps-lift, Keeps-if, Keeps->>=}
use blockchain_mapping_syste.Apply.{Platform}
use blockchain_mapping_syste.Transaction.{Transaction}
use blockchain_mapping_syste.User.{Entry, get_tx}
use blockchain_mapping_syste.Consensus.{Share}
use blockchain_mapping_syste.ShareCache.{in_bls_cache, pending_future_bls}
use blockchain_mapping_syste.ChainService.{in_chain, in_pool}
use blockchain_mapping_syste.Block.{sign_block}
use blockchain_mapping_syste.ChainService.Synced.{
  IsInStep, counting-Keeps, service_add_block-Keeps, create_block-Keeps,
  add_pending_transaction-Keeps, query_eid-IsInStep,
}
use blockchain_mapping_syste.Node.{
  parse_transaction, proposal_of, Config, Packages, Node, attempt, read_head, find_signer,
  produce_block, produce_if_own, at_block_time, sign_next_block, offer, receive_tx, receive_txs,
  offer_entry, user_round, user_turn, answer_query, answer_blocks, answer_pool, count_share,
  place_share, receive_share, receive_shares, serve_share, future_shares, share_turn, watch_time,
}
use blockchain_mapping_syste.Node.Flags.{
  IsSound, serves, left_exit, known_signer, Stays, stays, Stays-at, Stays-self, Stays-send,
  Stays-attempt, share_round-Stays, next_signer_round-Stays,
}

module _ (p : Platform) (k : Packages p) where
  find_signer-Stays : Stays p k (find_signer p k)
  unfolding find_signer
  find_signer-Stays = Stays-at p k (λ n. Keeps-if n.exit_from_dkg (stays p k (λ n h. h)) (
      Keeps->>= (stays p k (λ n h. h)) (λ _. Keeps->>= Keeps-lift (λ a. stays p k (λ n h.
        (known_signer n.dkg_on n.exit_from_dkg n.in_dkg_group n.signing_addr a h.0, h.1))))))

  produce_block-Stays :
      (g : Config) (now : ℕ) (address key : Bytes) → Stays p k (produce_block p k g now address key)
  unfolding produce_block
  produce_block-Stays g now address key =
      Keeps->>=
        (stays p k
          (λ n h. (left_exit n.dkg_on n.exit_from_dkg n.in_dkg_group n.signing_addr h.0, h.1)))
        (λ _. Keeps->>= (Stays-self p k) (λ n. Keeps->>= Keeps-lift (λ _.
          Keeps->>=
            (serves p k (
              create_block-Keeps p k.formats g.dkg_renewal_interval g.depth now
                (proposal_of address n.count n.consensus)))
            (λ b.
              Keeps->>=
                (serves p k (
                  service_add_block-Keeps p k.formats g.depth now
                    (sign_block p.block_crypto key b)))
                (λ _. Keeps->>= (Stays-send p k) (λ _. Keeps->>= (stays p k (λ n h. h)) (λ _.
                  Keeps->>= (next_signer_round-Stays p k)
                    (λ _. Keeps->>= (stays p k (λ n h. h)) (λ _. share_round-Stays p k now)))))))))

  produce_if_own-Stays : (g : Config) (now : ℕ) → Stays p k (produce_if_own p k g now)
  unfolding produce_if_own
  produce_if_own-Stays g now =
      Keeps->>= (Stays-self p k)
        (λ n. Keeps->>= Keeps-lift (λ address. for_key address (lookup address n.keys)))
    where
      for_key :
          (address : Bytes) (o : Option Bytes)
          → (let m : Exec (Node p) (Unit {0}) = elim o [
            | none ↦ pure tt
            | some key ↦ produce_block p k g now address key
          ] in
              Stays p k m)
      for_key address none = stays p k (λ n h. h)
      for_key address (some key) = produce_block-Stays g now address key

  at_block_time-Stays : (g : Config) (now : ℕ) → Stays p k (at_block_time p k g now)
  unfolding at_block_time
  at_block_time-Stays g now = Stays-at p k (λ n.
      Keeps-if (leb (n.timestamp + g.timeout) now) Keeps-lift (
        Keeps-if ((n.consensus.verified || n.exit_from_dkg) && not n.dkg_on)
          (Keeps->>= find_signer-Stays (λ _. produce_if_own-Stays g now)) (stays p k (λ n h. h))))

  pub sign_next_block-Stays : (g : Config) (now : ℕ) → Stays p k (sign_next_block p k g now)
  unfolding sign_next_block read_head
  sign_next_block-Stays g now =
      Keeps->>=
        (Keeps->>= (Stays-self p k) (λ n. Keeps->>= Keeps-lift (λ head. stays p k (λ n h. h))))
        (λ _. Keeps->>= (Stays-self p k) (λ n.
          Keeps-if (leb (n.timestamp + g.block_time) now) (at_block_time-Stays g now)
            (stays p k (λ n h. h))))

  offer-Stays : (tx : Transaction) → Stays p k (offer p k tx)
  unfolding offer
  offer-Stays tx =
      Keeps->>= (serves p k (add_pending_transaction-Keeps p k.formats tx)) (λ _. Stays-send p k)

  receive_tx-Stays : (tx : Transaction) → Stays p k (receive_tx p k tx)
  unfolding receive_tx
  receive_tx-Stays tx = Stays-at p k (λ n.
      Keeps-if (in_chain p k.formats tx n.service || in_pool p k.formats tx n.service)
        (stays p k (λ n h. h)) (Stays-attempt p k (offer-Stays tx)))

  pub receive_txs-Stays :
      (limit processed : ℕ) (l : List Transaction) → Stays p k (receive_txs p k limit processed l)
  unfolding receive_txs
  receive_txs-Stays limit processed [] = Keeps-lift
  receive_txs-Stays limit processed (tx ∷ l) = Keeps->>= (receive_tx-Stays tx) (λ _.
      Keeps-if (ltb (suc processed) limit) (receive_txs-Stays limit (suc processed) l) Keeps-lift)

  parse_transaction-Keeps :
      (now : ℕ) (e : Entry) → Keeps (IsInStep p k.formats) (parse_transaction p k now e)
  unfolding parse_transaction
  parse_transaction-Keeps now e =
      Keeps->>= (counting-Keeps p k.formats e.from) (λ nonce. Keeps-lift)

  offer_entry-Stays : (now : ℕ) (e : Entry) → Stays p k (offer_entry p k now e)
  unfolding offer_entry
  offer_entry-Stays now e = Keeps->>= (Stays-self p k) (λ n. Keeps->>= Keeps-lift (λ key.
      Keeps->>= (serves p k (parse_transaction-Keeps now e))
        (λ tx. Keeps->>= Keeps-lift (λ signed. offer-Stays signed))))

  user_round-Stays : (now : ℕ) → Stays p k (user_round p k now)
  unfolding user_round
  user_round-Stays now = stays p k (λ n h. taken n (get_tx n.user) h)
    where
      taken :
          (n : Node p) (q : Option Entry × List Entry)
          → IsSound p k n
          → (let r : Result (Unit {0}) × Node p = elim q.0 [
            | none ↦ (ok tt, record n { user = q.1 })
            | some e ↦
                attempt p (offer_entry p k now e) (record n { user = q.1; user_tx_count = 0 })
          ] in
              IsSound p k r.1)
      taken n (none, l) h = h
      taken n (some e, l) h =
          (offer_entry-Stays now e).keeps (record n { user = l; user_tx_count = 0 }) h

  pub user_turn-Stays : (g : Config) (now : ℕ) → Stays p k (user_turn p k g now)
  unfolding user_turn
  user_turn-Stays g now = stays p k (λ n h.
      let r = (user_round-Stays now).keeps n h in
      elim (Bool-cases ((ltb g.first_tx_time now || g.is_master) && not n.dkg_on)) [
        | inr e ↦ rw e h
        | inl e ↦ elim (Bool-cases (nat_beq (suc n.user_tx_count) g.loops_per_tx)) [
          | inl e' ↦ rw (e, e') r
          | inr e' ↦ rw (e, e') h
        ]
      ])

  pub answer_query-Stays : (q : Option (Bytes × ℕ)) → Stays p k (answer_query p k q)
  unfolding answer_query
  answer_query-Stays none = Keeps-lift
  answer_query-Stays (some (address, nonce)) =
      Keeps->>= (serves p k (record { keeps = query_eid-IsInStep p k.formats address nonce }))
        (λ _. Keeps->>= Keeps-lift (λ _. Stays-send p k))

  pub answer_blocks-Stays : (q : Option (List ℕ)) → Stays p k (answer_blocks p k q)
  unfolding answer_blocks
  answer_blocks-Stays none = Keeps-lift
  answer_blocks-Stays (some l) =
      Keeps->>= (Stays-self p k) (λ n. Keeps->>= Keeps-lift (λ bs. Stays-send p k))

  pub answer_pool-Stays : (q : Bool) → Stays p k (answer_pool p k q)
  unfolding answer_pool
  answer_pool-Stays false = Keeps-lift
  answer_pool-Stays true = Keeps->>= (Stays-self p k) (λ n. Stays-send p k)

  count_share-Stays : (share : Share) → Stays p k (count_share p k share)
  unfolding count_share
  count_share-Stays share = Keeps->>= (Stays-self p k) (λ n. stays p k (λ n h. h))

  place_share-Stays : (share : Share) → Stays p k (place_share p k share)
  unfolding place_share
  place_share-Stays share = Stays-at p k (λ n.
      Keeps-if (nat_beq share.block_number n.block_num)
        (Keeps->>= (count_share-Stays share) (λ _. Keeps-lift))
        (Keeps-if (ltb n.block_num share.block_number) (stays p k (λ n h. h))
          (stays p k (λ n h. h))))

  receive_share-Stays : (now : ℕ) (share : Share) → Stays p k (receive_share p k now share)
  unfolding receive_share
  receive_share-Stays now share = Stays-at p k (λ n.
      Keeps-if (in_bls_cache share n.cache) (stays p k (λ n h. h)) (
        Keeps->>= (place_share-Stays share)
          (λ _. Keeps->>= (stays p k (λ n h. h)) (λ _. Stays-send p k))))

  receive_shares-Stays : (now : ℕ) (l : List Share) → Stays p k (receive_shares p k now l)
  unfolding receive_shares
  receive_shares-Stays now [] = Keeps-lift
  receive_shares-Stays now (x ∷ l) = Keeps->>= (Stays-self p k) (λ n.
      Keeps-if n.dkg_on Keeps-lift
        (Keeps->>= (receive_share-Stays now x) (λ _. receive_shares-Stays now l)))

  serve_share-Stays : Stays p k (serve_share p k)
  unfolding serve_share
  serve_share-Stays =
      Keeps->>= (Stays-self p k)
        (λ n. Keeps->>= (stays p k (λ n h. h)) (λ share. count_share-Stays share))

  future_shares-Stays : (fuel : ℕ) → Stays p k (future_shares p k fuel)
  unfolding future_shares
  future_shares-Stays zero = stays p k (λ n h. h)
  future_shares-Stays (suc fuel) = Stays-at p k (λ n.
      Keeps-if (pending_future_bls n.block_num n.cache)
        (Keeps->>= serve_share-Stays (λ _. future_shares-Stays fuel)) (stays p k (λ n h. h)))

  pub share_turn-Stays : (now : ℕ) (l : List Share) → Stays p k (share_turn p k now l)
  unfolding share_turn
  share_turn-Stays now l =
      Keeps->>= (receive_shares-Stays now l) (λ l'.
        Keeps->>= (Stays-self p k) (λ n. Keeps->>= (future_shares-Stays _) (λ _. Keeps-lift)))

  pub watch_time-IsSound :
      (g : Config) (now : ℕ) (n : Node p) → IsSound p k n → IsSound p k (watch_time p k g now n)
  unfolding watch_time
  watch_time-IsSound g now n h = ground arith
