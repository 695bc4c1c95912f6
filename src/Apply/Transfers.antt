-- ===== src/Apply/Transfers.antt =====
-- What the accounts own, before and after a whole transaction.
use blockchain_mapping_syste.Prelude.{
  ℕ, false, not, ◌&&◌, ◌||◌, Bytes, bytes_eq, ◌==◌, ◌≡◌, ◌≢◌, refl, ap, ◌∙◌, nat_beq, nat_beq_iff,
  if◌then◌else◌, arith, ok,
}
use blockchain_mapping_syste.Prelude.Exec.{Exec}
use blockchain_mapping_syste.Prelude.Hoare.{Ensures, Ensures->>=, Ensures-lift, Ensures-if}
use blockchain_mapping_syste.Utils.{normalize_address}
use blockchain_mapping_syste.Balance.{Balance}
use blockchain_mapping_syste.Balance.Mappings.{set_map_server-locator, set_locator-map_server}
use blockchain_mapping_syste.State.{Stored, stored, commit}
use blockchain_mapping_syste.State.Peek.{peek}
use blockchain_mapping_syste.State.Commit.{
  IsCoherent, get_and_cache-IsCoherent, set_balance-IsCoherent, increment_nonce-IsCoherent,
  stored-commit, commit-IsCoherent,
}
use blockchain_mapping_syste.Transaction.{Transaction, sender}
use blockchain_mapping_syste.Apply.{
  Platform, ChainState, Work, blank, ip_network, allocate, delegate, move_prefix, by_category,
  validate_transaction, apply_transaction,
}
use blockchain_mapping_syste.Apply.Invariants.{IsInvariant, by_category-Keeps, on_state-Ensures}
use blockchain_mapping_syste.Apply.Validation.{validate_transaction-IsValid}
use blockchain_mapping_syste.Apply.Ownership.{Owns, moved, allocated, delegated, published}

nat_beq_other : (m : ℕ) → m ≢ 0 → nat_beq m 0 ≡ false
nat_beq_other m h = ground arith

module _ (p : Platform) where
  pub coherent : IsInvariant p (IsCoherent p.trie (blank p))
  coherent = record {
    stable = record {
      reads = λ a s h. get_and_cache-IsCoherent p.trie (blank p) a s h;
      writes = λ a b s h. set_balance-IsCoherent p.trie (blank p) a b s h;
    };
    bumps = λ a s h. increment_nonce-IsCoherent p.trie (blank p) a s h;
    commits = λ s h. commit-IsCoherent p.trie (blank p) false s;
  }

  -- What each account owns.
  abbrev pub owned : ChainState p → Bytes → p.netaddr.IpSet
  owned s k = (peek p.trie (blank p) s k).balance.own_ips

  module _ (tx : Transaction) (o : Bytes → p.netaddr.IpSet) where
    moves :
        (branch : Bytes → Bytes → p.netaddr.Net → Exec (ChainState p) (Unit {0})) (from : Bytes)
        (o' : Bytes → p.netaddr.IpSet)
        → ((value : p.netaddr.Net) (t : Bytes)
            → ip_network p tx ≡ ok value
            → normalize_address p.codec tx.to false ≡ ok t
            → Ensures (Owns p o) (branch from tx.to value) (λ _. Owns p o'))
        → Ensures (λ w. Owns p o w.state) (move_prefix p branch tx from) (λ _ w. Owns p o' w.state)
    unfolding move_prefix
    moves branch from o' k = Ensures->>= _ Ensures-lift (λ value. Ensures->>= _ Ensures-lift (λ t.
        Ensures->>=
          (λ _ w.
            (normalize_address p.codec tx.to false ≡ ok t)
            × ((ip_network p tx ≡ ok value) × Owns p o w.state))
          (record { ensures = λ w h _ _. h })
          (λ _. record {
            ensures = λ w (et, (ev, h)) u e. (k value t ev et).ensures w.state h u e;
          })))

    by_category-moved :
        (from f t : Bytes) (value : p.netaddr.Net)
        → normalize_address p.codec from false ≡ ok f
        → normalize_address p.codec tx.to false ≡ ok t
        → ip_network p tx ≡ ok value
        → tx.category ≡ 0
        → Ensures
            (λ w. Owns p o w.state)
            (by_category p tx from)
            (λ _ w. Owns p (moved p value f t o) w.state)
    unfolding by_category
    by_category-moved from f t value ef et ev c = rw ((nat_beq_iff tx.category 0).1 c) (
        moves (allocate p) from (moved p value f t o) (λ v t' ev' et'.
          let same_value : v ≡ value = cc in
          rw same_value (allocated p o from tx.to f t value ef et)))

    by_category-kept :
        (from f : Bytes)
        → normalize_address p.codec from false ≡ ok f
        → nat_beq tx.category 0 ≡ false
        → Ensures (λ w. Owns p o w.state) (by_category p tx from) (λ _ w. Owns p o w.state)
    unfolding by_category
    by_category-kept from f ef c = rw c (
        Ensures-if _ (moves (delegate p) from o (λ v t ev et. delegated p o from tx.to f t v ef et))
          (Ensures-if _
            (on_state-Ensures p (
              published p o from _
                (λ b b' e. (set_map_server-locator p.netaddr tx.metadata b b' e).1.own)))
            (on_state-Ensures p (
              published p o from _
                (λ b b' e. (set_locator-map_server p.netaddr tx.metadata b b' e).1.own)))))

    -- The account that signed, where there is one.
    record IsSigned : Type 0 where
      pub from : Bytes
      pub address : Bytes
      pub is_sender : sender p.tx_crypto tx ≡ ok from
      pub is_address : normalize_address p.codec from false ≡ ok address

    Before : ChainState p → Type 0
    Before s = IsCoherent p.trie (blank p) s × Owns p o s

    validated : Ensures Before (validate_transaction p tx) (λ _ s. IsSigned × Before s)
    unfolding stored Before
    validated = record {
      ensures = λ s (c, h) a e.
          let q : Bytes → Stored (Balance p.netaddr) = λ k. stored (peek p.trie (blank p) s k) in
          let (has, v) =
            (validate_transaction-IsValid p q tx).ensures s
              (record { coherent = c; accounts = λ k. refl }) a e in
          (
            record {
              from = v.from;
              address = v.address;
              is_sender = v.is_sender;
              is_address = v.is_address;
            },
            (
              has.coherent,
              record { owns = λ k. ap (λ d. d.balance.own_ips) (has.accounts k) ∙ h.owns k },
            ),
          );
    }

    committed :
        (o' : Bytes → p.netaddr.IpSet) (s : ChainState p)
        → IsCoherent p.trie (blank p) s
        → Owns p o' s
        → Owns p o' (commit p.trie (blank p) false s)
    unfolding stored
    committed o' s c h = record {
      owns =
          λ k. ap (λ d. d.balance.own_ips) (stored-commit p.trie (blank p) false k s c) ∙ h.owns k;
    }

    transferred :
        (o' : Bytes → p.netaddr.IpSet)
        → ((from f : Bytes)
            → sender p.tx_crypto tx ≡ ok from
            → normalize_address p.codec from false ≡ ok f
            → Ensures (λ w. Owns p o w.state) (by_category p tx from) (λ _ w. Owns p o' w.state))
        → Ensures (λ w. Before w.state) (apply_transaction p tx) (λ _ w. Owns p o' w.state)
    unfolding apply_transaction Before
    transferred o' k = Ensures->>= _ (on_state-Ensures p validated) (λ _.
        Ensures->>= _ Ensures-lift (λ from.
          Ensures->>= (λ _ w. IsCoherent p.trie (blank p) w.state × Owns p o' w.state)
            (record {
              ensures = λ w (e, (v, (c, h))) u q.
                  let same : v.from ≡ from = cc (v.is_sender, e) in
                  let is_address : normalize_address p.codec from false ≡ ok v.address =
                    rw same at v.is_address in
                  (
                    (by_category-Keeps p _ coherent tx from).keeps w c,
                    (k from v.address e is_address).ensures w h u q,
                  );
            })
            (λ _. record { ensures = λ w (c, h) _ _. committed o' w.state c h })))

  mem-moved :
      (value : p.netaddr.Net) (f t k : Bytes) (o : Bytes → p.netaddr.IpSet) (x : p.netaddr.Ip)
      → p.netaddr.mem x (moved p value f t o k) ≡ (
          if f == k
          then p.netaddr.mem x (o f) && not (p.netaddr.mem_net x value)
          else if t == k
          then p.netaddr.mem x (o t) || p.netaddr.mem_net x value
          else p.netaddr.mem x (o k))
  mem-moved value f t k o x =
      ground (arith, p.netaddr.mem-remove x (o f) value, p.netaddr.mem-add x (o t) value)

  module _ (tx : Transaction) (w : Work p) where
    -- For a transaction of category 0, signed by an account `f`, to an account `t`, of a
    -- network `value`, from a coherent state: when `apply_transaction` returns, the addresses
    -- of `value` are out of what `f` owns, every other account owns what it owned, and `t`,
    -- where it is another account than `f`, owns the addresses of `value` besides. Where `t`
    -- is `f` the addresses are lost.
    pub apply_transaction-owned :
        (from f t : Bytes) (value : p.netaddr.Net)
        → IsCoherent p.trie (blank p) w.state
        → tx.category ≡ 0
        → sender p.tx_crypto tx ≡ ok from
        → normalize_address p.codec from false ≡ ok f
        → normalize_address p.codec tx.to false ≡ ok t
        → ip_network p tx ≡ ok value
        → (apply_transaction p tx w).0 ≡ ok tt
        → (k : Bytes) (x : p.netaddr.Ip)
        → p.netaddr.mem x (owned (apply_transaction p tx w).1.state k) ≡ (
            if f == k
            then p.netaddr.mem x (owned w.state f) && not (p.netaddr.mem_net x value)
            else if t == k
            then p.netaddr.mem x (owned w.state t) || p.netaddr.mem_net x value
            else p.netaddr.mem x (owned w.state k))
    unfolding Before
    apply_transaction-owned from f t value c z es ef et ev q k x =
        let o = owned w.state in
        let after =
          (transferred tx o (moved p value f t o) (λ from' f' es' ef'.
              let same : from' ≡ from = cc in
              rw same (by_category-moved tx o from f t value ef et ev z))).ensures
            w (c, record { owns = λ j. refl }) tt q in
        ap (p.netaddr.mem x) (after.owns k) ∙ mem-moved value f t k o x

    -- From a coherent state, a transaction of any category but 0 for which
    -- `apply_transaction` returns leaves what each account owns as it was.
    pub apply_transaction-kept :
        IsCoherent p.trie (blank p) w.state
        → tx.category ≢ 0
        → (apply_transaction p tx w).0 ≡ ok tt
        → (k : Bytes) → owned (apply_transaction p tx w).1.state k ≡ owned w.state k
    unfolding Before
    apply_transaction-kept c z q k =
        ((transferred tx (owned w.state) (owned w.state) (λ from f es ef.
              by_category-kept tx (owned w.state) from f ef (nat_beq_other tx.category z))).ensures
            w (c, record { owns = λ j. refl }) tt q).owns
          k
