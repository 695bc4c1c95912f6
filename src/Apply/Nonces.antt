-- ===== src/Apply/Nonces.antt =====
-- The nonces: a transaction that is applied raises its sender's by one, and no other.
use blockchain_mapping_syste.Prelude.{
  ℕ, ◌+◌, false, Bytes, bytes_eq, bytes_beq_sound, ◌==◌, ◌≡◌, refl, sym, ap, ◌∙◌, if◌then◌else◌,
  arith, Result, ok,
}
use blockchain_mapping_syste.Prelude.Exec.{Exec, lift}
use blockchain_mapping_syste.Prelude.Hoare.{
  Ensures, Keeps-Ensures, Ensures->>=, Ensures-lift, Ensures-frame, Ensures-if,
}
use blockchain_mapping_syste.Utils.{normalize_address}
use blockchain_mapping_syste.Balance.{Balance}
use blockchain_mapping_syste.State.{Stored, stored, set_attr, commit}
use blockchain_mapping_syste.State.Peek.{
  peek, peek-get_and_cache, peek-set_balance, peek-increment_nonce,
}
use blockchain_mapping_syste.State.Commit.{
  IsCoherent, get_and_cache-IsCoherent, set_balance-IsCoherent, increment_nonce-IsCoherent,
  stored-commit, commit-IsCoherent,
}
use blockchain_mapping_syste.Transaction.{Transaction, sender}
use blockchain_mapping_syste.Apply.{
  Platform, ChainState, Work, blank, at_address, read_balance, write_balance, bump_nonce, allocate,
  delegate, publish, move_prefix, by_category, validate_transaction, apply_transaction,
}
use blockchain_mapping_syste.Apply.Invariants.{
  IsStable, on_state-Ensures, read_balance-Keeps, write_balance-Keeps, revoke-Keeps,
}
use blockchain_mapping_syste.Apply.Validation.{validate_transaction-IsValid}

-- The nonces after one of `a` is raised.
abbrev pub raised : Bytes → (Bytes → ℕ) → Bytes → ℕ
raised a n k = if a == k then n k + 1 else n k

module _ (p : Platform) where
  pub record HasNonces (n : Bytes → ℕ) (s : ChainState p) : Type 0 where
    pub coherent : IsCoherent p.trie (blank p) s
    pub nonces : (k : Bytes) → (peek p.trie (blank p) s k).nonce ≡ n k

  module _ (n : Bytes → ℕ) where
    stable : IsStable p (HasNonces n)
    unfolding set_attr
    stable = record {
      reads = λ a s h. record {
        coherent = get_and_cache-IsCoherent p.trie (blank p) a s h.coherent;
        nonces = λ k. rw (peek-get_and_cache p.trie (blank p) a k s) (h.nonces k);
      };
      writes = λ a b s h. record {
        coherent = set_balance-IsCoherent p.trie (blank p) a b s h.coherent;
        nonces = λ k. rw (peek-set_balance p.trie (blank p) a k b s) (ground (arith, h.nonces k));
      };
    }

    -- The nonces after `x` is bumped.
    Bumped : Bytes → Unit {0} → ChainState p → Type 0
    Bumped x _ s =
        (a : Bytes) × (normalize_address p.codec x false ≡ ok a) × HasNonces (raised a n) s

    bump_nonce-Bumped : (x : Bytes) → Ensures (HasNonces n) (bump_nonce p x) (Bumped x)
    unfolding bump_nonce at_address set_attr Bumped
    bump_nonce-Bumped x = Ensures->>= _ Ensures-lift (λ a. record {
      ensures = λ s (e, h) _ _. (
        a,
        e,
        record {
          coherent = increment_nonce-IsCoherent p.trie (blank p) a s h.coherent;
          nonces = λ k.
              rw (peek-increment_nonce p.trie (blank p) a k s)
                (ground (arith, h.nonces k, bytes_beq_sound a k));
        },
      );
    })

    reads : (x : Bytes) → Ensures (HasNonces n) (read_balance p x) (λ _. HasNonces n)
    reads x = Keeps-Ensures (read_balance-Keeps p (HasNonces n) stable.reads x)

    writes :
        (x : Bytes) (b : Balance p.netaddr)
        → Ensures (HasNonces n) (write_balance p x b) (λ _. HasNonces n)
    writes x b = Keeps-Ensures (write_balance-Keeps p (HasNonces n) stable x b)

    lifts : {A : Type 0} (r : Result A) → Ensures (HasNonces n) (lift r) (λ _. HasNonces n)
    lifts r = record { ensures = λ s h _ _. h }

    allocate-Bumped :
        (from to : Bytes) (value : p.netaddr.Net)
        → Ensures (HasNonces n) (allocate p from to value) (Bumped from)
    unfolding allocate
    allocate-Bumped from to value = Ensures->>= _ (reads from) (λ b.
        Ensures->>= _ (lifts _) (λ affected.
          Ensures->>= _ (Keeps-Ensures (revoke-Keeps p (HasNonces n) stable from affected b)) (λ b'.
            Ensures->>= _ (reads to) (λ c.
              Ensures->>= _ (writes to _)
                (λ _. Ensures->>= _ (writes from _) (λ _. bump_nonce-Bumped from))))))

    delegate-Bumped :
        (from to : Bytes) (value : p.netaddr.Net)
        → Ensures (HasNonces n) (delegate p from to value) (Bumped from)
    unfolding delegate
    delegate-Bumped from to value = Ensures->>= _ (reads from) (λ b.
        Ensures->>= _ (lifts _) (λ affected.
          Ensures->>= _ (Keeps-Ensures (revoke-Keeps p (HasNonces n) stable from affected b)) (λ b'.
            Ensures->>= _ (reads to) (λ c. Ensures->>= _ (lifts _) (λ c'.
              Ensures->>= _ (lifts _) (λ b''.
                Ensures->>= _ (writes to _)
                  (λ _. Ensures->>= _ (writes from _) (λ _. bump_nonce-Bumped from))))))))

    publish-Bumped :
        (from : Bytes) (set : Balance p.netaddr → Result (Balance p.netaddr))
        → Ensures (HasNonces n) (publish p from set) (Bumped from)
    unfolding publish
    publish-Bumped from set = Ensures->>= _ (reads from) (λ b.
        Ensures->>= _ (lifts _)
          (λ b'. Ensures->>= _ (writes from b') (λ _. bump_nonce-Bumped from)))

    move_prefix-Bumped :
        (branch : Bytes → Bytes → p.netaddr.Net → Exec (ChainState p) (Unit {0})) (tx : Transaction)
        (from : Bytes)
        → ((from to : Bytes) (value : p.netaddr.Net)
            → Ensures (HasNonces n) (branch from to value) (Bumped from))
        → Ensures
            (λ w. HasNonces n w.state)
            (move_prefix p branch tx from)
            (λ u w. Bumped from u w.state)
    unfolding move_prefix
    move_prefix-Bumped branch tx from k =
        Ensures->>= (λ _ w. HasNonces n w.state) (record { ensures = λ w h _ _. h })
          (λ value.
            Ensures->>= (λ _ w. HasNonces n w.state) (record { ensures = λ w h _ _. h })
              (λ owner.
                Ensures->>= (λ _ w. HasNonces n w.state) (record { ensures = λ w h _ _. h })
                  (λ _. on_state-Ensures p (k from tx.to value))))

    by_category-Bumped :
        (tx : Transaction) (from : Bytes)
        → Ensures (λ w. HasNonces n w.state) (by_category p tx from) (λ u w. Bumped from u w.state)
    unfolding by_category
    by_category-Bumped tx from =
        Ensures-if _ (move_prefix-Bumped (allocate p) tx from allocate-Bumped) (
          Ensures-if _ (move_prefix-Bumped (delegate p) tx from delegate-Bumped) (
            Ensures-if _ (on_state-Ensures p (publish-Bumped from _))
              (on_state-Ensures p (publish-Bumped from _))))

    -- The account that signed `tx` has the nonce of `tx`.
    pub record IsNext (tx : Transaction) : Type 0 where
      pub from : Bytes
      pub address : Bytes
      pub is_sender : sender p.tx_crypto tx ≡ ok from
      pub is_address : normalize_address p.codec from false ≡ ok address
      pub nonce : n address ≡ tx.nonce

    pub validated :
        (tx : Transaction)
        → Ensures (HasNonces n) (validate_transaction p tx) (λ _ s. IsNext tx × HasNonces n s)
    unfolding stored
    validated tx = record {
      ensures = λ s h a e.
          let q : Bytes → Stored (Balance p.netaddr) = λ k. stored (peek p.trie (blank p) s k) in
          let (has, v) =
            (validate_transaction-IsValid p q tx).ensures s
              (record { coherent = h.coherent; accounts = λ k. refl }) a e in
          (
            record {
              from = v.from;
              address = v.address;
              is_sender = v.is_sender;
              is_address = v.is_address;
              nonce = sym (h.nonces v.address) ∙ v.nonce;
            },
            record {
              coherent = has.coherent;
              nonces = λ k. ap (λ d. d.nonce) (has.accounts k) ∙ h.nonces k;
            },
          );
    }

    -- The signer of `tx` had its nonce, and that nonce alone is raised, by one.
    pub record Applied (tx : Transaction) (s : ChainState p) : Type 0 where
      pub next : IsNext tx
      pub after : HasNonces (raised next.address n) s

    committed :
        (tx : Transaction) (from : Bytes) (w : Work p)
        → sender p.tx_crypto tx ≡ ok from
        → IsNext tx
        → Bumped from tt w.state
        → Applied tx (commit p.trie (blank p) false w.state)
    unfolding Bumped stored
    committed tx from w e v (a, q, h) = record {
      next = v;
      after = record {
        coherent = commit-IsCoherent p.trie (blank p) false w.state;
        nonces = λ k.
            ap (λ d. d.nonce) (stored-commit p.trie (blank p) false k w.state h.coherent)
            ∙ h.nonces k
            ∙ ap (λ x. raised x n k) (the_address);
      };
    }
      where
        the_address : a ≡ v.address
        the_address = cc (e, v.is_sender, q, v.is_address)

    pub applied :
        (tx : Transaction)
        → Ensures (λ w. HasNonces n w.state) (apply_transaction p tx) (λ _ w. Applied tx w.state)
    unfolding apply_transaction
    applied tx =
        Ensures->>= (λ _ w. IsNext tx × HasNonces n w.state) (on_state-Ensures p (validated tx))
          (λ _.
            Ensures->>=
              (λ from w. (sender p.tx_crypto tx ≡ ok from) × (IsNext tx × HasNonces n w.state))
              (record { ensures = λ w (v, h) a e. (e, (v, h)) })
              (λ from.
                Ensures->>= _ (Ensures-frame (Ensures-frame (by_category-Bumped tx from)))
                  (λ _. record { ensures = λ w (e, (v, h)) _ _. committed tx from w e v h })))

  -- From a coherent state, a transaction for which `apply_transaction` returns is signed by an
  -- account whose nonce was that of the transaction; that account's nonce grows by one, no
  -- other account's changes, and the state after is coherent.
  pub apply_transaction-Applied :
      (tx : Transaction) (w : Work p)
      → IsCoherent p.trie (blank p) w.state
      → (apply_transaction p tx w).0 ≡ ok tt
      → Applied (λ k. (peek p.trie (blank p) w.state k).nonce) tx (apply_transaction p tx w).1.state
  apply_transaction-Applied tx w h e =
      (applied (λ k. (peek p.trie (blank p) w.state k).nonce) tx).ensures w
        (record { coherent = h; nonces = λ k. refl }) tt e
