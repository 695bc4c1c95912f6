-- ===== src/ShareCache/Future.antt =====
-- The shares of future blocks, and the memory of the shares that have been seen.
use blockchain_mapping_syste.Prelude.{
  ℕ, true, Option, none, some, List, [], ◌∷◌, ◌++◌, bytes_eq, nat_eq, ◌≡◌, ◌↔◌, refl, inl, inr,
  arith, Option-cases, ok,
}
use blockchain_mapping_syste.Prelude.Dict.{lookup, insert, lookup-insert}
use blockchain_mapping_syste.Consensus.{Share}
use blockchain_mapping_syste.ShareCache.{
  ShareCache, shares_of, store_future_bls, pending_future_bls, pop, get_future_bls,
}

-- The shares that wait for a block.
abbrev pub waiting : ℕ → ShareCache → List Share
waiting n c = shares_of (lookup n c.bls_future_shares)

pop-append : (l : List Share) (x : Share) → pop (l ++ x ∷ []) ≡ some (x, l)
unfolding pop
pop-append [] x = refl
pop-append (y ∷ l) x = rw (pop-append l x) refl

stored :
    (share : Share) (c : ShareCache)
    → lookup share.block_number (store_future_bls share c).bls_future_shares
      ≡ some (shares_of (lookup share.block_number c.bls_future_shares) ++ share ∷ [])
unfolding store_future_bls
stored share c =
    let n = share.block_number in
    ground (
      arith,
      lookup-insert n n (shares_of (lookup n c.bls_future_shares) ++ share ∷ [])
          c.bls_future_shares,
    )

got_last :
    (n : ℕ) (old : List Share) (share : Share) (c : ShareCache)
    → lookup n c.bls_future_shares ≡ some (old ++ share ∷ [])
    → get_future_bls n c
      ≡ (ok share, record c { bls_future_shares = insert n old c.bls_future_shares })
unfolding get_future_bls
got_last n old share c e = rw (get_future_bls, e, pop-append old share) refl

waiting_back :
    (share : Share) (c : ShareCache) (j : ℕ)
    → let n = share.block_number in
      let d = (store_future_bls share c).bls_future_shares in
      shares_of (lookup j (insert n (shares_of (lookup n c.bls_future_shares)) d)) ≡ waiting j c
unfolding store_future_bls
waiting_back share c j =
    let n = share.block_number in
    let old = shares_of (lookup n c.bls_future_shares) in
    ground (
      arith,
      lookup-insert n j old (insert n (old ++ share ∷ []) c.bls_future_shares),
      lookup-insert n j (old ++ share ∷ []) c.bls_future_shares,
    )

-- After `store_future_bls`, `get_future_bls` of its block returns that share, and the shares that
-- wait for each block are as before the two calls.
pub get_future_bls-store_future_bls :
    (share : Share) (c : ShareCache)
    → let (r, c') = get_future_bls share.block_number (store_future_bls share c) in
      (r ≡ ok share) × ((n : ℕ) → waiting n c' ≡ waiting n c)
get_future_bls-store_future_bls share c =
    let n = share.block_number in
    let old = shares_of (lookup n c.bls_future_shares) in
    let c' = store_future_bls share c in
    let got = got_last n old share c' (stored share c) in rw got (refl, λ j. waiting_back share c j)

pop-cons : (x : Share) (l : List Share) → (q : Share × List Share) × (pop (x ∷ l) ≡ some q)
unfolding pop
pop-cons x l = elim (Option-cases (pop l)) [
  | inl e ↦ ((x, []), rw (pop, e) refl)
  | inr (q, e) ↦ ((q.0, x ∷ q.1), rw (pop, e) refl)
]

-- `pending_future_bls` is true exactly when `get_future_bls` returns a share.
pub pending_future_bls-get_future_bls :
    (n : ℕ) (c : ShareCache)
    → (pending_future_bls n c ≡ true) ↔ ((share : Share) × ((get_future_bls n c).0 ≡ ok share))
unfolding pending_future_bls get_future_bls
pending_future_bls-get_future_bls n c = by_lookup (lookup n c.bls_future_shares) refl
  where
    by_list :
        (l : List Share)
        → lookup n c.bls_future_shares ≡ some l
        → (pending_future_bls n c ≡ true) ↔ ((share : Share) × ((get_future_bls n c).0 ≡ ok share))
    by_list [] e = rw (pending_future_bls, get_future_bls, e) (λ h. cc, λ (s, h). cc)
    by_list (x ∷ l) e =
        let (q, p) = pop-cons x l in
        rw (pending_future_bls, get_future_bls, e, p) (λ h. (q.0, refl), λ h. ground arith)

    by_lookup :
        (o : Option (List Share))
        → lookup n c.bls_future_shares ≡ o
        → (pending_future_bls n c ≡ true) ↔ ((share : Share) × ((get_future_bls n c).0 ≡ ok share))
    by_lookup none e = rw (pending_future_bls, get_future_bls, e) (λ h. cc, λ (s, h). cc)
    by_lookup (some l) e = by_list l e
