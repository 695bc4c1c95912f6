-- ===== src/Apply/Validation.antt =====
-- What `validate_transaction` has checked when it returns, and that it changes no account.
use blockchain_mapping_syste.Prelude.{
  ℕ, ◌≤◌, Bool, true, false, not, ◌&&◌, Bytes, ◌≡◌, ◌↔◌, refl, sym, ap, nat_beq, nat_beq_iff, leb,
  ltb, arith, ok, raise_if, raise_if-eq-ok, unsigned_transaction, invalid_nonce, invalid_category,
  insufficient_balance,
}
use blockchain_mapping_syste.Prelude.Exec.{◌>>=◌}
use blockchain_mapping_syste.Prelude.Hoare.{
  Ensures, Ensures->>=, Ensures-lift, Ensures-frame, Ensures-imp,
}
use blockchain_mapping_syste.Utils.{normalize_address}
use blockchain_mapping_syste.Balance.{Balance, in_own_ips}
use blockchain_mapping_syste.State.{Stored, stored, get_and_cache_account, get_balance, get_nonce}
use blockchain_mapping_syste.State.Peek.{peek, peek-get_and_cache, account-get_and_cache}
use blockchain_mapping_syste.State.Commit.{IsCoherent, get_and_cache-IsCoherent}
use blockchain_mapping_syste.Transaction.{Transaction, sender}
use blockchain_mapping_syste.Apply.{
  Platform, ChainState, blank, is_unsigned, ip_network, at_address, read_balance, read_nonce,
  validate_transaction,
}

equal_of : (m n : ℕ) → not (nat_beq m n) ≡ false → m ≡ n
equal_of m n h = ground arith

at_most_of : (m : ℕ) → ltb 3 m ≡ false → m ≤ 3
at_most_of m h = ground arith

owned_of : (m : ℕ) (b : Bool) → leb m 1 && not b ≡ false → m ≤ 1 → b ≡ true
owned_of m b h le = ground arith

at_most : (m : ℕ) → m ≤ 3 → ltb 3 m ≡ false
at_most m h = ground arith

owned : (m : ℕ) (b : Bool) → (m ≤ 1 → b ≡ true) → leb m 1 && not b ≡ false
owned m b h = ground arith

module _ (p : Platform) where
  -- What a state says of the accounts.
  pub record HasAccounts (q : Bytes → Stored (Balance p.netaddr)) (s : ChainState p) : Type 0 where
    pub coherent : IsCoherent p.trie (blank p) s
    pub accounts : (k : Bytes) → stored (peek p.trie (blank p) s k) ≡ q k

  -- A transaction that is valid among the accounts `q`.
  pub record IsValid (q : Bytes → Stored (Balance p.netaddr)) (tx : Transaction) : Type 0 where
    pub from : Bytes
    pub address : Bytes
    pub value : p.netaddr.Net
    pub is_sender : sender p.tx_crypto tx ≡ ok from
    pub signed : is_unsigned from ≡ false
    pub is_address : normalize_address p.codec from false ≡ ok address
    pub nonce : (q address).nonce ≡ tx.nonce
    pub category : tx.category ≤ 3
    pub is_value : ip_network p tx ≡ ok value
    pub owned : tx.category ≤ 1 → in_own_ips p.netaddr value (q address).balance ≡ true

  -- What a read at `x` gave.
  pub record Found {A : Type 0} (q : Bytes → Stored (Balance p.netaddr)) (x : Bytes)
      (field : Stored (Balance p.netaddr) → A) (v : A) : Type 0 where
    pub address : Bytes
    pub is_address : normalize_address p.codec x false ≡ ok address
    pub is_value : v ≡ field (q address)

  module _ (q : Bytes → Stored (Balance p.netaddr)) where
    pub get_and_cache-HasAccounts :
        (a : Bytes) (s : ChainState p)
        → HasAccounts q s
        → HasAccounts q (get_and_cache_account p.trie (blank p) a s).1
    get_and_cache-HasAccounts a s h = record {
      coherent = get_and_cache-IsCoherent p.trie (blank p) a s h.coherent;
      accounts = λ k. rw (peek-get_and_cache p.trie (blank p) a k s) (h.accounts k);
    }

    cached_account :
        (a : Bytes) (s : ChainState p)
        → HasAccounts q s
        → stored (get_and_cache_account p.trie (blank p) a s).0 ≡ q a
    cached_account a s h = rw (account-get_and_cache p.trie (blank p) a s) (h.accounts a)

    pub read_balance-Found :
        (x : Bytes)
        → Ensures
            (HasAccounts q)
            (read_balance p x)
            (λ b s. Found q x (λ d. d.balance) b × HasAccounts q s)
    unfolding read_balance at_address get_balance stored
    read_balance-Found x = Ensures->>= _ Ensures-lift (λ a. record {
      ensures = λ s h b e. (
        record {
          address = a;
          is_address = h.0;
          is_value = cc (ap (λ d. d.balance) (cached_account a s h.1));
        },
        get_and_cache-HasAccounts a s h.1,
      );
    })

    pub read_nonce-Found :
        (x : Bytes)
        → Ensures
            (HasAccounts q)
            (read_nonce p x)
            (λ n s. Found q x (λ d. d.nonce) n × HasAccounts q s)
    unfolding read_nonce at_address get_nonce stored
    read_nonce-Found x = Ensures->>= _ Ensures-lift (λ a. record {
      ensures = λ s h b e. (
        record {
          address = a;
          is_address = h.0;
          is_value = cc (ap (λ d. d.nonce) (cached_account a s h.1));
        },
        get_and_cache-HasAccounts a s h.1,
      );
    })

    valid :
        (tx : Transaction) (from : Bytes) (n : ℕ) (b : Balance p.netaddr) (value : p.netaddr.Net)
        → sender p.tx_crypto tx ≡ ok from
        → raise_if (is_unsigned from) unsigned_transaction ≡ ok tt
        → Found q from (λ d. d.nonce) n
        → raise_if (not (nat_beq n tx.nonce)) invalid_nonce ≡ ok tt
        → raise_if (ltb 3 tx.category) invalid_category ≡ ok tt
        → Found q from (λ d. d.balance) b
        → ip_network p tx ≡ ok value
        → raise_if (leb tx.category 1 && not (in_own_ips p.netaddr value b)) insufficient_balance
          ≡ ok tt
        → IsValid q tx
    valid tx from n b value e1 e2 fn e3 e4 fb e5 e6 = record {
      from = from;
      address = fb.address;
      value = value;
      is_sender = e1;
      signed = raise_if-eq-ok (is_unsigned from) unsigned_transaction e2;
      is_address = fb.is_address;
      nonce =
          let same : fn.address ≡ fb.address = cc in
          cc (
            sym fn.is_value,
            ap (λ a. (q a).nonce) same,
            equal_of n tx.nonce (raise_if-eq-ok _ invalid_nonce e3),
          );
      category = at_most_of tx.category (raise_if-eq-ok (ltb 3 tx.category) invalid_category e4);
      is_value = e5;
      owned = λ le. cc (
        ap (in_own_ips p.netaddr value) fb.is_value,
        owned_of tx.category _ (raise_if-eq-ok _ insufficient_balance e6) le,
      );
    }

    pub validate_transaction-IsValid :
        (tx : Transaction)
        → Ensures
            (HasAccounts q)
            (validate_transaction p tx)
            (λ _ s. HasAccounts q s × IsValid q tx)
    unfolding validate_transaction
    validate_transaction-IsValid tx = Ensures->>= _ Ensures-lift (λ from.
        Ensures->>= _ Ensures-lift (λ _.
          Ensures->>= _ (Ensures-frame (Ensures-frame (read_nonce-Found from))) (λ n.
            Ensures->>= _ Ensures-lift (λ _. Ensures->>= _ Ensures-lift (λ _.
              Ensures->>= _
                (Ensures-frame (
                  Ensures-frame
                    (Ensures-frame (Ensures-frame (Ensures-frame (read_balance-Found from))))))
                (λ b. Ensures->>= _ Ensures-lift (λ value.
                  Ensures-imp (λ _ h. h) Ensures-lift
                    (λ _ s (e6, (e5, (e4, (e3, (e2, (e1, (fn, (fb, h)))))))).
                      (h, valid tx from n b value e1 e2 fn e3 e4 fb e5 e6)))))))))

    got_nonce :
        (a : Bytes) (s : ChainState p)
        → HasAccounts q s
        → (get_nonce p.trie (blank p) a s).0 ≡ (q a).nonce
    unfolding get_nonce stored
    got_nonce a s h = ap (λ d. d.nonce) (cached_account a s h)

    got_balance :
        (a : Bytes) (s : ChainState p)
        → HasAccounts q s
        → (get_balance p.trie (blank p) a s).0 ≡ (q a).balance
    unfolding get_balance stored
    got_balance a s h = ap (λ d. d.balance) (cached_account a s h)

    after_nonce :
        (a : Bytes) (s : ChainState p)
        → HasAccounts q s
        → HasAccounts q (get_nonce p.trie (blank p) a s).1
    unfolding get_nonce
    after_nonce a s h = get_and_cache-HasAccounts a s h

    -- In a coherent state whose accounts are `q`, `validate_transaction` returns exactly when
    -- the transaction has a sender that is signed for and normal, the sender's nonce in `q`
    -- is that of the transaction, the category is at most 3, `ip_network` returns a network,
    -- and, for the categories 0 and 1, the sender owns that network in `q`.
    pub validate_transaction-accepts :
        (tx : Transaction) (s : ChainState p)
        → HasAccounts q s
        → ((validate_transaction p tx s).0 ≡ ok tt) ↔ IsValid q tx
    unfolding validate_transaction read_nonce read_balance at_address ◌>>=◌
    validate_transaction-accepts tx s h = (
      λ e. ((validate_transaction-IsValid tx).ensures s h tt e).1,
      λ v.
          rw
            (
              v.is_sender,
              v.signed,
              v.is_address,
              got_nonce v.address s h,
              v.nonce,
              (nat_beq_iff tx.nonce tx.nonce).1 refl,
              at_most tx.category v.category,
              got_balance v.address _ (after_nonce v.address s h),
              v.is_value,
              owned tx.category _ v.owned,
            )
            refl,
    )
