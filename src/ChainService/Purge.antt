-- ===== src/ChainService/Purge.antt =====
-- After a block the pool holds only transactions that are valid in the new state.
use blockchain_mapping_syste.Prelude.{
  true, none, ◌↔◌, ◌≡◌, refl, sym, ap, ◌∙◌, inl, inr, Bool-cases, List, [], ◌∷◌, Bytes, ok, err,
  Result-cases,
}
use blockchain_mapping_syste.Balance.{Balance}
use blockchain_mapping_syste.State.{Stored}
use blockchain_mapping_syste.Transaction.{
  Transaction, sender, recover_sender, sighash, network_id, vee,
}
use blockchain_mapping_syste.Transaction.Signature.{IsHonest}
use blockchain_mapping_syste.Apply.{Platform, ChainState, validate_transaction, ip_network}
use blockchain_mapping_syste.Apply.Invariants.{validate_transaction-Keeps}
use blockchain_mapping_syste.Apply.Validation.{
  HasAccounts, IsValid, get_and_cache-HasAccounts, validate_transaction-accepts,
}
use blockchain_mapping_syste.Chain.{Formats}
use blockchain_mapping_syste.ChainService.{
  Service, remove_first, remove_each, collect_invalid, purge_pool,
}

module _ (p : Platform) (f : Formats p) where
  -- The fields that rlp encodes.
  abbrev pub encoded : Transaction → Transaction
  encoded x = record x { cached_sender = none }

  -- `==` of two transactions, which the cached sender has no part in.
  abbrev pub IsEquality : Type 0
  IsEquality = (x y : Transaction) → (f.same_tx x y ≡ true) ↔ (encoded x ≡ encoded y)

  abbrev pub AllHonest : List Transaction → Type 0
  AllHonest [] = Unit
  AllHonest (x ∷ l) = IsHonest p.tx_crypto x × AllHonest l

  recover_sender-encoded :
      (x : Transaction) → recover_sender p.tx_crypto (encoded x) ≡ recover_sender p.tx_crypto x
  unfolding recover_sender sighash network_id vee
  recover_sender-encoded x = refl

  IsHonest-encoded : (x : Transaction) → IsHonest p.tx_crypto (encoded x)
  unfolding sender
  IsHonest-encoded x = refl

  remove_first-AllHonest :
      (tx : Transaction) (l : List Transaction) → AllHonest l → AllHonest (remove_first p f tx l)
  unfolding remove_first
  remove_first-AllHonest tx [] h = h
  remove_first-AllHonest tx (x ∷ l) h = elim (Bool-cases (f.same_tx x tx)) [
    | inl e ↦ rw e h.1
    | inr e ↦ rw e (h.0, remove_first-AllHonest tx l h.1)
  ]

  pub remove_each-AllHonest :
      (txs l : List Transaction) → AllHonest l → AllHonest (remove_each p f txs l)
  unfolding remove_each
  remove_each-AllHonest [] l h = h
  remove_each-AllHonest (tx ∷ txs) l h =
      remove_each-AllHonest txs (remove_first p f tx l) (remove_first-AllHonest tx l h)

  module _ (q : Bytes → Stored (Balance p.netaddr)) where
    -- A transaction with the same sender and the same encoded fields is judged alike.
    IsValid-via :
        (x y : Transaction)
        → sender p.tx_crypto x ≡ sender p.tx_crypto y
        → encoded x ≡ encoded y
        → IsValid p q x
        → IsValid p q y
    unfolding ip_network
    IsValid-via x y s e v = record {
      from = v.from;
      address = v.address;
      value = v.value;
      is_sender = sym s ∙ v.is_sender;
      signed = v.signed;
      is_address = v.is_address;
      nonce = v.nonce ∙ ap (λ t. t.nonce) e;
      category = rw (← ap (λ t. t.category) e) v.category;
      is_value = sym (ap (λ t. ip_network p t) e) ∙ v.is_value;
      owned = λ le. v.owned (rw (ap (λ t. t.category) e) le);
    }

    alike :
        (x y : Transaction)
        → IsHonest p.tx_crypto x
        → IsHonest p.tx_crypto y
        → encoded x ≡ encoded y
        → IsValid p q x
        → IsValid p q y
    alike x y hx hy e v =
        IsValid-via x y
          (hx
            ∙ sym (recover_sender-encoded x)
            ∙ ap (λ t. recover_sender p.tx_crypto t) e
            ∙ recover_sender-encoded y
            ∙ sym hy)
          e v

    -- The list without the transactions that are not valid.
    pub data Purged : List Transaction → List Transaction → List Transaction → Type 0 where
      done : Purged [] [] []
      keep :
          {l bad good : List Transaction} (x : Transaction)
          → IsHonest p.tx_crypto x
          → IsValid p q x
          → Purged l bad good
          → Purged (x ∷ l) bad (x ∷ good)
      drop :
          {l bad good : List Transaction} (x : Transaction)
          → IsHonest p.tx_crypto x
          → ¬ IsValid p q x
          → Purged l bad good
          → Purged (x ∷ l) (x ∷ bad) good

    abbrev pub AllValid : List Transaction → Type 0
    AllValid [] = Unit
    AllValid (x ∷ l) = IsValid p q x × AllValid l

    abbrev NoneValid : List Transaction → Type 0
    NoneValid [] = Unit
    NoneValid (x ∷ l) = IsHonest p.tx_crypto x × (¬ IsValid p q x) × NoneValid l

    Purged-NoneValid : (l bad good : List Transaction) → Purged l bad good → NoneValid bad
    Purged-NoneValid l bad good done = tt
    Purged-NoneValid l bad good (keep x h v k) = Purged-NoneValid _ _ _ k
    Purged-NoneValid l bad good (drop x h v k) = (h, v, Purged-NoneValid _ _ _ k)

    Purged-AllValid : (l bad good : List Transaction) → Purged l bad good → AllValid good
    Purged-AllValid l bad good done = tt
    Purged-AllValid l bad good (keep x h v k) = (v, Purged-AllValid _ _ _ k)
    Purged-AllValid l bad good (drop x h v k) = Purged-AllValid _ _ _ k

    collect-Purged :
        (l : List Transaction) (s : ChainState p)
        → HasAccounts p q s
        → AllHonest l
        → (good : List Transaction) × Purged l (collect_invalid p f l s).0 good
    unfolding collect_invalid
    collect-Purged [] s h a = ([], done)
    collect-Purged (x ∷ l) s h (ax, a) =
        let s' = (validate_transaction p x s).1 in
        let h' : HasAccounts p q s' =
          (validate_transaction-Keeps p (HasAccounts p q)
              (λ a t k. get_and_cache-HasAccounts p q a t k) x).keeps
            s h in
        let (good, k) = collect-Purged l s' h' a in
        elim (Result-cases (validate_transaction p x s).0) [
          | inl (_, e) ↦
              let v = (validate_transaction-accepts p q x s h).0 e in
              (x ∷ good, rw (e, collect_invalid) (keep x ax v k))
          | inr (z, e) ↦
              let v : ¬ IsValid p q x = λ w.
                let o = (validate_transaction-accepts p q x s h).1 w in
                let o' : err z ≡ ok tt = sym e ∙ o in cc in
              (good, rw (e, collect_invalid) (drop x ax v k))
        ]

    module _ (eq : IsEquality) where
      -- Removing what is not valid passes over what is.
      remove_each-valid :
          (bad : List Transaction) (x : Transaction) (l : List Transaction)
          → NoneValid bad
          → IsHonest p.tx_crypto x
          → IsValid p q x
          → remove_each p f bad (x ∷ l) ≡ x ∷ remove_each p f bad l
      unfolding remove_each remove_first
      remove_each-valid [] x l n h v = refl
      remove_each-valid (y ∷ bad) x l (hy, ny, n) h v = elim (Bool-cases (f.same_tx x y)) [
        | inl e ↦ absurd (ny (alike x y h hy ((eq x y).0 e) v))
        | inr e ↦ rw e (remove_each-valid bad x (remove_first p f y l) n h v)
      ]

      remove_each-Purged :
          (l bad good : List Transaction) → Purged l bad good → remove_each p f bad l ≡ good
      unfolding remove_each remove_first
      remove_each-Purged l bad good done = refl
      remove_each-Purged l bad good (keep {l = l'} {bad = bad'} x h v k) =
          remove_each-valid bad x _ (Purged-NoneValid _ _ _ k) h v
          ∙ ap (λ r. x ∷ r) (remove_each-Purged _ _ _ k)
      remove_each-Purged l bad good (drop x h v k) =
          rw ((eq x x).1 refl) (remove_each-Purged _ _ _ k)

      pub purge_pool-AllValid :
          (v : Service p)
          → HasAccounts p q v.chain.state
          → AllHonest v.pool
          → AllValid (purge_pool p f v).pool
      unfolding purge_pool
      purge_pool-AllValid v h a =
          let (good, k) = collect-Purged v.pool v.chain.state h a in
          rw (remove_each-Purged v.pool (collect_invalid p f v.pool v.chain.state).0 good k)
            (Purged-AllValid v.pool _ good k)
