-- ===== src/Apply/Invariants.antt =====
-- What holds of the state through every call of apply.py, whether it returns or raises.
use blockchain_mapping_syste.Prelude.{false, List, [], ◌∷◌, Bytes, Result}
use blockchain_mapping_syste.Prelude.Exec.{Exec}
use blockchain_mapping_syste.Prelude.Dict.{Dict}
use blockchain_mapping_syste.Prelude.Hoare.{
  Ensures, Keeps, Keeps->>=, Keeps-if, Keeps-lift, Keeps-call,
}
use blockchain_mapping_syste.Balance.{Balance}
use blockchain_mapping_syste.State.{
  get_and_cache_account, get_balance, get_nonce, set_balance, increment_nonce, commit,
}
use blockchain_mapping_syste.Transaction.{Transaction}
use blockchain_mapping_syste.Block.{Block}
use blockchain_mapping_syste.Apply.{
  Platform, ChainState, blank, at_address, read_balance, read_nonce, write_balance, bump_nonce,
  validate_transaction, validate_transactions, validate_block, revoke, allocate, delegate, publish,
  on_state, move_prefix, by_category, apply_transaction, apply_transactions,
}

module _ (p : Platform) where
  -- A property of states that reading an account and writing a balance keep.
  pub record IsStable (P : ChainState p → Type 0) : Type 0 where
    pub reads :
        (a : Bytes) (s : ChainState p) → P s → P (get_and_cache_account p.trie (blank p) a s).1
    pub writes :
        (a : Bytes) (b : Balance p.netaddr) (s : ChainState p)
        → P s
        → P (set_balance p.trie (blank p) a b s)

  -- One that every call of a transaction keeps.
  pub record IsInvariant (P : ChainState p → Type 0) : Type 0 where
    pub stable : IsStable P
    pub bumps : (a : Bytes) (s : ChainState p) → P s → P (increment_nonce p.trie (blank p) a s)
    pub commits : (s : ChainState p) → P s → P (commit p.trie (blank p) false s)

  pub on_state-Ensures :
      {A : Type 0} {m : Exec (ChainState p) A} {P : ChainState p → Type 0}
      {Q : A → ChainState p → Type 0}
      → Ensures P m Q
      → Ensures (λ w. P w.state) (on_state p m) (λ a w. Q a w.state)
  on_state-Ensures k = record { ensures = λ w h a e. k.ensures w.state h a e }

  module _ (P : ChainState p → Type 0) where
    pub at_address-Keeps :
        {A : Type 0} (x : Bytes) (f : Bytes → ChainState p → A × ChainState p)
        → ((a : Bytes) (s : ChainState p) → P s → P (f a s).1)
        → Keeps P (at_address p x f)
    unfolding at_address
    at_address-Keeps x f k = Keeps->>= Keeps-lift (λ a. Keeps-call (k a))

    -- A property that reading an account keeps is kept by every check.
    module _
        (reads : (a : Bytes) (s : ChainState p)
          → P s
          → P (get_and_cache_account p.trie (blank p) a s).1) where
      pub read_balance-Keeps : (x : Bytes) → Keeps P (read_balance p x)
      unfolding read_balance get_balance
      read_balance-Keeps x = at_address-Keeps x _ reads

      pub read_nonce-Keeps : (x : Bytes) → Keeps P (read_nonce p x)
      unfolding read_nonce get_nonce
      read_nonce-Keeps x = at_address-Keeps x _ reads

      pub validate_transaction-Keeps : (tx : Transaction) → Keeps P (validate_transaction p tx)
      unfolding validate_transaction
      validate_transaction-Keeps tx = Keeps->>= Keeps-lift (λ from. Keeps->>= Keeps-lift (λ _.
          Keeps->>= (read_nonce-Keeps from) (λ _. Keeps->>= Keeps-lift (λ _.
            Keeps->>= Keeps-lift (λ _.
              Keeps->>= (read_balance-Keeps from) (λ _. Keeps->>= Keeps-lift (λ _. Keeps-lift)))))))

      validate_transactions-Keeps : (txs : List Transaction) → Keeps P (validate_transactions p txs)
      unfolding validate_transactions
      validate_transactions-Keeps [] = Keeps-lift
      validate_transactions-Keeps (tx ∷ txs) =
          Keeps->>= (validate_transaction-Keeps tx) (λ _. validate_transactions-Keeps txs)

      pub validate_block-Keeps : (b : Block) → Keeps P (validate_block p b)
      unfolding validate_block
      validate_block-Keeps b = Keeps->>= Keeps-lift (λ a. Keeps->>= Keeps-lift (λ _.
          Keeps->>= Keeps-lift (λ _. Keeps->>= (Keeps-call (λ s h. h)) (λ s.
            Keeps->>= Keeps-lift
              (λ _. Keeps->>= Keeps-lift (λ _. validate_transactions-Keeps b.transactions))))))

    module _ (i : IsStable P) where
      pub write_balance-Keeps : (x : Bytes) (b : Balance p.netaddr) → Keeps P (write_balance p x b)
      unfolding write_balance
      write_balance-Keeps x b = at_address-Keeps x _ (λ a s. i.writes a b s)

      pub revoke-Keeps :
          (from : Bytes) (affected : Dict Bytes p.netaddr.IpSet) (b : Balance p.netaddr)
          → Keeps P (revoke p from affected b)
      unfolding revoke
      revoke-Keeps from [] b = Keeps-lift
      revoke-Keeps from ((add, ips) ∷ affected) b = Keeps->>= Keeps-lift (λ b'.
          Keeps->>= (read_balance-Keeps i.reads add) (λ _.
            Keeps->>= Keeps-lift
              (λ r. Keeps->>= (write_balance-Keeps add r) (λ _. revoke-Keeps from affected b'))))

    module _ (i : IsInvariant P) where
      bump_nonce-Keeps : (x : Bytes) → Keeps P (bump_nonce p x)
      unfolding bump_nonce
      bump_nonce-Keeps x = at_address-Keeps x _ i.bumps

      allocate-Keeps :
          (from to : Bytes) (value : p.netaddr.Net) → Keeps P (allocate p from to value)
      unfolding allocate
      allocate-Keeps from to value = Keeps->>= (read_balance-Keeps i.stable.reads from) (λ b.
          Keeps->>= Keeps-lift (λ affected. Keeps->>= (revoke-Keeps i.stable from affected b) (λ b'.
            Keeps->>= (read_balance-Keeps i.stable.reads to) (λ c.
              Keeps->>= (write_balance-Keeps i.stable to _) (λ _.
                Keeps->>= (write_balance-Keeps i.stable from _) (λ _. bump_nonce-Keeps from))))))

      delegate-Keeps :
          (from to : Bytes) (value : p.netaddr.Net) → Keeps P (delegate p from to value)
      unfolding delegate
      delegate-Keeps from to value = Keeps->>= (read_balance-Keeps i.stable.reads from) (λ b.
          Keeps->>= Keeps-lift (λ affected. Keeps->>= (revoke-Keeps i.stable from affected b) (λ b'.
            Keeps->>= (read_balance-Keeps i.stable.reads to) (λ c. Keeps->>= Keeps-lift (λ c'.
              Keeps->>= Keeps-lift (λ b''. Keeps->>= (write_balance-Keeps i.stable to _) (λ _.
                Keeps->>= (write_balance-Keeps i.stable from _) (λ _. bump_nonce-Keeps from))))))))

      publish-Keeps :
          (from : Bytes) (set : Balance p.netaddr → Result (Balance p.netaddr))
          → Keeps P (publish p from set)
      unfolding publish
      publish-Keeps from set = Keeps->>= (read_balance-Keeps i.stable.reads from) (λ b.
          Keeps->>= Keeps-lift
            (λ b'. Keeps->>= (write_balance-Keeps i.stable from b') (λ _. bump_nonce-Keeps from)))

      pub on_state-Keeps :
          {A : Type 0} {m : Exec (ChainState p) A}
          → Keeps P m
          → Keeps (λ w. P w.state) (on_state p m)
      on_state-Keeps k = record { keeps = λ w. k.keeps w.state }

      move_prefix-Keeps :
          (branch : Bytes → Bytes → p.netaddr.Net → Exec (ChainState p) (Unit {0}))
          (tx : Transaction) (from : Bytes)
          → ((from to : Bytes) (value : p.netaddr.Net) → Keeps P (branch from to value))
          → Keeps (λ w. P w.state) (move_prefix p branch tx from)
      unfolding move_prefix
      move_prefix-Keeps branch tx from k = Keeps->>= Keeps-lift (λ value.
          Keeps->>= Keeps-lift
            (λ owner. Keeps->>= (Keeps-call (λ w h. h)) (λ _. on_state-Keeps (k from tx.to value))))

      pub by_category-Keeps :
          (tx : Transaction) (from : Bytes) → Keeps (λ w. P w.state) (by_category p tx from)
      unfolding by_category
      by_category-Keeps tx from =
          Keeps-if _ (move_prefix-Keeps (allocate p) tx from allocate-Keeps) (
            Keeps-if _ (move_prefix-Keeps (delegate p) tx from delegate-Keeps) (
              Keeps-if _ (on_state-Keeps (publish-Keeps from _))
                (on_state-Keeps (publish-Keeps from _))))

      pub apply_transaction-Keeps :
          (tx : Transaction) → Keeps (λ w. P w.state) (apply_transaction p tx)
      unfolding apply_transaction
      apply_transaction-Keeps tx =
          Keeps->>= (on_state-Keeps (validate_transaction-Keeps i.stable.reads tx)) (λ _.
            Keeps->>= Keeps-lift (λ from.
              Keeps->>= (by_category-Keeps tx from) (λ _. on_state-Keeps (Keeps-call i.commits))))

      pub apply_transactions-Keeps :
          (txs : List Transaction) → Keeps (λ w. P w.state) (apply_transactions p txs)
      unfolding apply_transactions
      apply_transactions-Keeps [] = Keeps-lift
      apply_transactions-Keeps (tx ∷ txs) =
          Keeps->>= (apply_transaction-Keeps tx) (λ _. apply_transactions-Keeps txs)
