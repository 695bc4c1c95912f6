-- ===== src/Apply/Senders.antt =====
-- `validate_block` checks every transaction in the state before the block, so no block with two
-- transactions of one account passes it and `apply_block` both.
use blockchain_mapping_syste.Prelude.{
  ℕ, ◌≤◌, false, List, [], ◌∷◌, Bytes, bytes_eq, ==_refl, ◌≡◌, ◌≢◌, refl, sym, ap, ◌∙◌, arith,
  Result, ok, err,
}
use blockchain_mapping_syste.Prelude.Hoare.{Ensures, Ensures->>=, Ensures-frame, Ensures-imp}
use blockchain_mapping_syste.Utils.{normalize_address}
use blockchain_mapping_syste.Balance.{Balance}
use blockchain_mapping_syste.State.{Snapshot}
use blockchain_mapping_syste.State.Peek.{peek}
use blockchain_mapping_syste.State.Commit.{IsCoherent}
use blockchain_mapping_syste.Transaction.{Transaction, sender}
use blockchain_mapping_syste.Block.{Block, PrevHeader}
use blockchain_mapping_syste.Apply.{
  Platform, ChainState, Work, blank, validate_transactions, validate_block, apply_transactions,
  apply_body, settle, apply_block,
}
use blockchain_mapping_syste.Apply.Nonces.{raised, HasNonces, IsNext, Applied, validated, applied}

module _ (p : Platform) where
  -- The account that a transaction is signed by.
  abbrev pub account_of : Transaction → Result Bytes
  account_of tx = elim (sender p.tx_crypto tx) [
    | err e ↦ err e
    | ok from ↦ normalize_address p.codec from false
  ]

  abbrev pub AllDiffer : Transaction → List Transaction → Type 0
  AllDiffer tx [] = Unit
  AllDiffer tx (tx' ∷ txs) = (account_of tx ≢ account_of tx') × AllDiffer tx txs

  -- No account signed two of the transactions.
  abbrev pub HasDistinctSenders : List Transaction → Type 0
  HasDistinctSenders [] = Unit
  HasDistinctSenders (tx ∷ txs) = AllDiffer tx txs × HasDistinctSenders txs

  abbrev AllNext : (Bytes → ℕ) → List Transaction → Type 0
  AllNext n [] = Unit
  AllNext n (tx ∷ txs) = IsNext p n tx × AllNext n txs

  -- The nonce of `tx` is at least what `m` has of its account.
  record IsLater (m : Bytes → ℕ) (tx : Transaction) : Type 0 where
    pub address : Bytes
    pub is_account : account_of tx ≡ ok address
    pub at_least : m address ≤ tx.nonce

  abbrev AllLater : (Bytes → ℕ) → List Transaction → Type 0
  AllLater m [] = Unit
  AllLater m (tx ∷ txs) = IsLater m tx × AllLater m txs

  account_of_next :
      (n : Bytes → ℕ) (tx : Transaction) (v : IsNext p n tx) → account_of tx ≡ ok v.address
  account_of_next n tx v = rw (account_of, v.is_sender, v.is_address) refl

  AllLater-raised :
      (a : Bytes) (m : Bytes → ℕ) (txs : List Transaction)
      → AllLater (raised a m) txs
      → AllLater m txs
  AllLater-raised a m [] h = tt
  AllLater-raised a m (tx ∷ txs) (h, hs) = (
    record {
      address = h.address;
      is_account = h.is_account;
      at_least = ground (arith, h.at_least);
    },
    AllLater-raised a m txs hs,
  )

  differ :
      (n m : Bytes → ℕ) (tx : Transaction) (v : IsNext p n tx) (txs : List Transaction)
      → m v.address ≡ tx.nonce
      → AllNext n txs
      → AllLater (raised v.address m) txs
      → AllDiffer tx txs
  differ n m tx v [] e hs ls = tt
  differ n m tx v (tx' ∷ txs) e (h, hs) (l, ls) = (
    λ q.
        let same : v.address ≡ h.address =
          cc (account_of_next n tx v, account_of_next n tx' h, q) in
        let also : l.address ≡ h.address = cc (account_of_next n tx' h, l.is_account) in
        ground (arith, same, also, l.at_least, h.nonce, v.nonce, e, ==_refl v.address),
    differ n m tx v txs e hs ls,
  )

  validate_transactions-AllNext :
      (n : Bytes → ℕ) (txs : List Transaction)
      → Ensures
          (HasNonces p n)
          (validate_transactions p txs)
          (λ _ s. AllNext n txs × HasNonces p n s)
  unfolding validate_transactions
  validate_transactions-AllNext n [] = record { ensures = λ s h _ _. (tt, h) }
  validate_transactions-AllNext n (tx ∷ txs) = Ensures->>= _ (validated p n tx) (λ _.
      Ensures-imp (λ _ h. h) (Ensures-frame (validate_transactions-AllNext n txs))
        (λ _ s (v, (vs, h)). ((v, vs), h)))

  apply_transactions-AllLater :
      (m : Bytes → ℕ) (txs : List Transaction)
      → Ensures (λ w. HasNonces p m w.state) (apply_transactions p txs) (λ _ _. AllLater m txs)
  unfolding apply_transactions
  apply_transactions-AllLater m [] = record { ensures = λ s h _ _. tt }
  apply_transactions-AllLater m (tx ∷ txs) =
      Ensures->>= (λ _ w. Applied p m tx w.state) (applied p m tx)
        (λ _. record {
          ensures = λ w h u e. (
            record {
              address = h.next.address;
              is_account = account_of_next m tx h.next;
              at_least = ground (arith, h.next.nonce);
            },
            AllLater-raised h.next.address m txs
                ((apply_transactions-AllLater (raised h.next.address m) txs).ensures w h.after u e),
          );
        })

  distinct :
      (n m : Bytes → ℕ) (txs : List Transaction)
      → AllNext n txs
      → Ensures
          (λ w. HasNonces p m w.state)
          (apply_transactions p txs)
          (λ _ _. HasDistinctSenders txs)
  unfolding apply_transactions
  distinct n m [] v = record { ensures = λ s h _ _. tt }
  distinct n m (tx ∷ txs) (v, vs) =
      Ensures->>= (λ _ w. Applied p m tx w.state) (applied p m tx)
        (λ _. record {
          ensures = λ w h u e.
              let same : h.next.address ≡ v.address =
                cc (account_of_next m tx h.next, account_of_next n tx v) in
              let later =
                (apply_transactions-AllLater (raised h.next.address m) txs).ensures w h.after u e in
              (
                differ n m tx v txs (ap m (sym same) ∙ h.next.nonce) vs (rw same at later),
                (distinct n (raised h.next.address m) txs vs).ensures w h.after u e,
              );
        })

  validate_block-AllNext :
      (n : Bytes → ℕ) (b : Block)
      → Ensures
          (HasNonces p n)
          (validate_block p b)
          (λ _ s. AllNext n b.transactions × HasNonces p n s)
  unfolding validate_block
  validate_block-AllNext n b =
      Ensures->>= (λ _. HasNonces p n) (record { ensures = λ s h _ _. h })
        (λ a.
          Ensures->>= (λ _. HasNonces p n) (record { ensures = λ s h _ _. h })
            (λ _.
              Ensures->>= (λ _. HasNonces p n) (record { ensures = λ s h _ _. h })
                (λ _.
                  Ensures->>= (λ _. HasNonces p n) (record { ensures = λ s h _ _. h })
                    (λ s.
                      Ensures->>= (λ _. HasNonces p n) (record { ensures = λ s h _ _. h })
                        (λ _.
                          Ensures->>= (λ _. HasNonces p n) (record { ensures = λ s h _ _. h })
                            (λ _. validate_transactions-AllNext n b.transactions))))))

  apply_body-distinct :
      (n : Bytes → ℕ) (b : Block)
      → AllNext n b.transactions
      → Ensures
          (λ w. HasNonces p n w.state)
          (apply_body p b)
          (λ _ _. HasDistinctSenders b.transactions)
  unfolding apply_body
  apply_body-distinct n b v =
      Ensures->>= (λ _ w. HasNonces p n w.state) (record { ensures = λ w h _ _. h })
        (λ w.
          Ensures->>= (λ _ w. HasNonces p n w.state) (record { ensures = λ w h _ _. h })
            (λ _.
              Ensures->>= (λ _ w. HasNonces p n w.state) (record { ensures = λ w h _ _. h })
                (λ _.
                  Ensures->>= (λ _ _. HasDistinctSenders b.transactions)
                    (distinct n n b.transactions v) (λ _. record { ensures = λ w h _ _. h }))))

  -- An error of the body stays an error, whether the exception is caught or not.
  settle-eq-ok :
      (snap : Snapshot (Balance p.netaddr) PrevHeader p.trie) (tree : p.Tree)
      (q : Result (Unit {0}) × Work p)
      → (settle p snap tree q).0 ≡ ok tt
      → q.0 ≡ ok tt
  unfolding settle
  settle-eq-ok snap tree (ok _, w) e = refl
  settle-eq-ok snap tree (err f, w) e = ground arith

  -- From a coherent state, a block for which `validate_block` returns, and for which
  -- `apply_block` then returns in the state that is left, has no two transactions of one
  -- account.
  pub apply_block-HasDistinctSenders :
      (b : Block) (s : ChainState p) (tree : p.Tree)
      → IsCoherent p.trie (blank p) s
      → (validate_block p b s).0 ≡ ok tt
      → (apply_block p b (validate_block p b s).1 tree).0 ≡ ok tt
      → HasDistinctSenders b.transactions
  unfolding apply_block
  apply_block-HasDistinctSenders b s tree h v e =
      let n : Bytes → ℕ = λ k. (peek p.trie (blank p) s k).nonce in
      let (next, same) =
        (validate_block-AllNext n b).ensures s (record { coherent = h; nonces = λ k. refl }) tt v in
      let w : Work p = record { state = (validate_block p b s).1; cached = [] } in
      (apply_body-distinct n b next).ensures w same tt (settle-eq-ok _ tree (apply_body p b w) e)
