-- ===== src/ChainService/Rounds.antt =====
-- A block that the service adds leaves a coherent state and a pool of valid transactions.
use blockchain_mapping_syste.Prelude.{
  ℕ, suc, ◌≡◌, ◌≢◌, refl, sym, ap, ◌∙◌, inl, inr, Bool, Bool-cases, List, [], ◌∷◌, Bytes, Result,
  Error, ok, err, Result-cases, arith,
}
use mathlib.Core.Path.{fun_ext}
use blockchain_mapping_syste.Prelude.Exec.{modify, ◌>>=◌, ◌>>◌}
use blockchain_mapping_syste.Prelude.Hoare.{Keeps, Keeps->>=, Keeps-lift, Keeps-call}
use blockchain_mapping_syste.Balance.{Balance}
use blockchain_mapping_syste.State.{Stored, stored, add_block_header, snapshot, revert}
use blockchain_mapping_syste.State.Peek.{peek}
use blockchain_mapping_syste.State.Commit.{IsCoherent}
use blockchain_mapping_syste.Transaction.{Transaction}
use blockchain_mapping_syste.Block.{Block}
use blockchain_mapping_syste.Apply.{
  Platform, ChainState, Work, blank, validate_transaction, apply_body, settle, apply_block,
  is_caught,
}
use blockchain_mapping_syste.Apply.Invariants.{
  validate_transaction-Keeps, validate_block-Keeps, apply_transactions-Keeps,
}
use blockchain_mapping_syste.Apply.Transfers.{coherent}
use blockchain_mapping_syste.Apply.Validation.{HasAccounts, get_and_cache-HasAccounts}
use blockchain_mapping_syste.Chain.{Formats, Chain, extend_head, record_block, add_block}
use blockchain_mapping_syste.Chain.Invariants.{validated}
use blockchain_mapping_syste.Chain.Sync.{IsSynced, applied, extend_head-state}
use blockchain_mapping_syste.Chain.Adding.{
  Outcome, invalid, early, failed, added, add_block-Outcome,
}
use blockchain_mapping_syste.ChainService.{
  Service, on_chain, check_afi, collect_invalid, remove_each, purge_pool, service_add_block,
}
use blockchain_mapping_syste.ChainService.Purge.{
  IsEquality, AllHonest, remove_each-AllHonest, AllValid, purge_pool-AllValid,
}

module _ (p : Platform) where
  abbrev IsGood : ChainState p → Type 0
  IsGood s = IsCoherent p.trie (blank p) s

  apply_body-IsGood : (b : Block) → Keeps (λ w. IsGood w.state) (apply_body p b)
  unfolding apply_body add_block_header
  apply_body-IsGood b = Keeps->>= (Keeps-call (λ w h. h)) (λ w. Keeps->>= Keeps-lift (λ _.
      Keeps->>= Keeps-lift (λ _.
        Keeps->>= (apply_transactions-Keeps p IsGood (coherent p) b.transactions) (λ _.
          Keeps-call (λ w' h. record { distinct = h.distinct; live = h.live; clean = h.clean })))))

  -- An error is handled and raised again.
  raises :
      (s : ChainState p) (tree : p.Tree) (e : Error) (w : Work p)
      → (settle p (snapshot p.trie (blank p) s) tree (err e, w)).0 ≢ ok tt
  unfolding settle
  raises s tree e w = λ h. elim (Bool-cases (is_caught e)) [
    | inr n ↦ let h' : err e ≡ ok tt = rw n at h in cc
    | inl y ↦
        elim (Result-cases (revert p.trie (blank p) (snapshot p.trie (blank p) s) w.state).0) [
          | inl (_, r) ↦ let h' : err e ≡ ok tt = rw (y, r, settle) at h in cc
          | inr (x, r) ↦ let h' : err x ≡ ok tt = rw (y, r, settle) at h in cc
        ]
  ]

  settle-IsGood :
      (s : ChainState p) (tree : p.Tree) (q : Result (Unit {0}) × Work p)
      → IsGood q.1.state
      → (settle p (snapshot p.trie (blank p) s) tree q).0 ≡ ok tt
      → IsGood (settle p (snapshot p.trie (blank p) s) tree q).1
  unfolding settle
  settle-IsGood s tree (ok u, w) g h = g
  settle-IsGood s tree (err e, w) g h = absurd (raises s tree e w h)

  apply_block-IsGood :
      (b : Block) (s : ChainState p) (tree : p.Tree)
      → IsGood s
      → (apply_block p b s tree).0 ≡ ok tt
      → IsGood (apply_block p b s tree).1
  unfolding apply_block
  apply_block-IsGood b s tree g h =
      let w : Work p = record { state = s; cached = [] } in
      settle-IsGood s tree (apply_body p b w) ((apply_body-IsGood b).keeps w g) h

  -- What a state says of each account.
  abbrev pub accounts_of : ChainState p → Bytes → Stored (Balance p.netaddr)
  accounts_of s k = stored (peek p.trie (blank p) s k)

module _ (p : Platform) (f : Formats p) where
  extend_head-applied :
      (b : Block) (c c' : Chain p) → extend_head p f b c ≡ (ok tt, c') → (applied p f b c).0 ≡ ok tt
  unfolding extend_head
  extend_head-applied b c c' h = ground arith

  record_block-IsGood :
      (b : Block) (c : Chain p) → IsGood p c.state → IsGood p (record_block p f b c).state
  unfolding record_block
  record_block-IsGood b c g = record { distinct = g.distinct; live = g.live; clean = g.clean }

  validated-IsGood :
      (b : Block) (c : Chain p) → IsGood p c.state → IsGood p (validated p f b c).state
  validated-IsGood b c g =
      (validate_block-Keeps p (IsGood p) (coherent p).stable.reads b).keeps c.state g

  IsGood-of :
      (now : ℕ) (b : Block) (c : Chain p) (q : Result Bool × Chain p) (r : Bool)
      → IsGood p c.state
      → Outcome p f now b c q
      → q.0 ≡ ok r
      → IsGood p q.1.state
  IsGood-of now b c q r g invalid h = validated-IsGood b c g
  IsGood-of now b c q r g (early late) h = validated-IsGood b c g
  IsGood-of now b c q r g (failed e c' x) h = cc
  IsGood-of now b c q r g (added c' due on x) h =
      let v = validated p f b c in
      let g' = validated-IsGood b c g in
      let g'' : IsGood p (applied p f b v).1 =
        apply_block-IsGood p b _ c.patricia
          (record { distinct = g'.distinct; live = g'.live; clean = g'.clean })
          (extend_head-applied b v c' x) in
      let same : c'.state ≡ (applied p f b v).1 =
        ap (λ r. r.1.state) (sym x) ∙ extend_head-state p f b v in
      record_block-IsGood b c' (rw same g'')

  collect_invalid-HasAccounts :
      (q : Bytes → Stored (Balance p.netaddr)) (l : List Transaction) (s : ChainState p)
      → HasAccounts p q s
      → HasAccounts p q (collect_invalid p f l s).1
  unfolding collect_invalid
  collect_invalid-HasAccounts q [] s h = h
  collect_invalid-HasAccounts q (x ∷ l) s h =
      let reads = λ (a : Bytes) (t : ChainState p) (k : HasAccounts p q t).
        get_and_cache-HasAccounts p q a t k in
      let k =
        collect_invalid-HasAccounts q l (validate_transaction p x s).1
          ((validate_transaction-Keeps p (HasAccounts p q) reads x).keeps s h) in
      elim (Result-cases (validate_transaction p x s).0) [
        | inl (_, e) ↦ rw (e, collect_invalid) k
        | inr (_, e) ↦ rw (e, collect_invalid) k
      ]

  purge_pool-accounts :
      (v : Service p)
      → IsGood p v.chain.state
      → accounts_of p (purge_pool p f v).chain.state ≡ accounts_of p v.chain.state
  unfolding purge_pool
  purge_pool-accounts v g = fun_ext (
      (collect_invalid-HasAccounts (accounts_of p v.chain.state) v.pool v.chain.state
        (record { coherent = g; accounts = λ k. refl })).accounts)

  -- The rest of `service_add_block`, after the chain has the block.
  abbrev cleared : Block → Service p → Service p
  cleared b v = purge_pool p f (record v { pool = remove_each p f b.transactions v.pool })

  cleared-AllValid :
      (b : Block) (v : Service p)
      → IsEquality p f
      → AllHonest p f v.pool
      → IsGood p v.chain.state
      → AllValid p f (accounts_of p (cleared b v).chain.state) (cleared b v).pool
  cleared-AllValid b v eq a g =
      let v' : Service p = record v { pool = remove_each p f b.transactions v.pool } in
      let e = purge_pool-accounts v' g in
      rw e (
        purge_pool-AllValid p f (accounts_of p v.chain.state) eq v'
          (record { coherent = g; accounts = λ k. refl })
          (remove_each-AllHonest p f b.transactions v.pool a))

  -- The calls after the chain's own, by its outcome.
  abbrev after_chain : Block → Result Bool × Chain p → Service p → Result (Unit {0}) × Service p
  after_chain b q = on_chain p f (λ _. q) >>= λ _.
      modify (λ v. record v { pool = remove_each p f b.transactions v.pool })
      >> modify (purge_pool p f)

  after_chain-cleared :
      (b : Block) (v : Service p) (q : Result Bool × Chain p)
      → (after_chain b q v).0 ≡ ok tt
      → ((r : Bool) × (q.0 ≡ ok r)) × ((after_chain b q v).1 ≡ cleared b (record v { chain = q.1 }))
  unfolding ◌>>=◌
  after_chain-cleared b v (ok r, c) h = ((r, refl), refl)
  after_chain-cleared b v (err e, c) h = cc

  returned :
      (depth now : ℕ) (b : Block) (v : Service p)
      → (service_add_block p f depth now b v).0 ≡ ok tt
      → let q = add_block p f depth now b v.chain in
        ((r : Bool) × (q.0 ≡ ok r))
        × ((service_add_block p f depth now b v).1 ≡ cleared b (record v { chain = q.1 }))
  unfolding service_add_block ◌>>=◌
  returned depth now b v h = elim (Result-cases (check_afi p f b.header.number b.transactions)) [
    | inr (e, x) ↦ let h' : err e ≡ ok tt = rw x at h in cc
    | inl (_, x) ↦
        let q = add_block p f depth now b v.chain in
        let h' : (after_chain b q v).0 ≡ ok tt = rw x at h in rw x (after_chain-cleared b v q h')
  ]

  -- From a synced chain and a coherent state, when the service's `add_block` returns, every
  -- transaction left in the pool is valid in the state after it. Before, no transaction in the
  -- pool may have a cached sender other than the one its signature gives; `==` of transactions
  -- compares all fields but the cached sender.
  pub service_add_block-AllValid :
      (depth now : ℕ) (b : Block) (v : Service p)
      → IsSynced p f v.chain
      → IsCoherent p.trie (blank p) v.chain.state
      → IsEquality p f
      → AllHonest p f v.pool
      → (service_add_block p f (suc depth) now b v).0 ≡ ok tt
      → AllValid p f
          (accounts_of p (service_add_block p f (suc depth) now b v).1.chain.state)
          (service_add_block p f (suc depth) now b v).1.pool
  service_add_block-AllValid depth now b v k g eq a h =
      let ((r, x), y) = returned (suc depth) now b v h in
      let q = add_block p f (suc depth) now b v.chain in
      let g' = IsGood-of now b v.chain q r g (add_block-Outcome p f depth now b v.chain k) x in
      rw y (cleared-AllValid b (record v { chain = q.1 }) eq a g')
