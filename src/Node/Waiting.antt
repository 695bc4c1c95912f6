-- ===== src/Node/Waiting.antt =====
-- The loop over the shares that came too early ends, and leaves none for the present block.
use blockchain_mapping_syste.Prelude.{
  ℕ, zero, suc, ◌≤◌, Bool, true, false, none, some, List, [], ◌∷◌, length, nat_eq, ◌≡◌, refl, ok,
  err, arith, key_error, index_error, ==_refl, Option-cases, inl, inr,
}
use blockchain_mapping_syste.Prelude.Exec.{pure, ◌>>◌}
use blockchain_mapping_syste.Prelude.Dict.{lookup, lookup-insert}
use blockchain_mapping_syste.Prelude.Hoare.{Ensures, Ensures->>=, Ensures-imp}
use blockchain_mapping_syste.Apply.{Platform}
use blockchain_mapping_syste.Consensus.{Share}
use blockchain_mapping_syste.ShareCache.{ShareCache, pop, get_future_bls, pending_future_bls}
use blockchain_mapping_syste.ShareCache.Future.{waiting}
use blockchain_mapping_syste.Node.{Packages, Node, count_share, serve_share, future_shares}
use blockchain_mapping_syste.Node.Groups.{ensures_if}

length-pop :
    (l : List Share) (q : Share × List Share) → pop l ≡ some q → length l ≡ suc (length q.1)
unfolding pop
length-pop [] q h = cc
length-pop (x ∷ l) q h = elim (Option-cases (pop l)) [
  | inl e ↦ let h' : some (x, []) ≡ some q = rw (e, pop) at h in ground (arith, nil_of l e)
  | inr (r, e) ↦
      let h' : some (r.0, x ∷ r.1) ≡ some q = rw (e, pop) at h in ground (arith, length-pop l r e)
]
  where
    nil_of : (l : List Share) → pop l ≡ none → l ≡ []
    nil_of [] e = refl
    nil_of (y ∷ l) e = elim (Option-cases (pop l)) [
      | inl w ↦ let e' : some (y, []) ≡ none = rw (w, pop) at e in cc
      | inr (r, w) ↦ let e' : some (r.0, y ∷ r.1) ≡ none = rw (w, pop) at e in cc
    ]

-- A share that is taken does not wait any more.
length-waiting :
    (m : ℕ) (c : ShareCache) (share : Share)
    → (get_future_bls m c).0 ≡ ok share
    → length (waiting m c) ≡ suc (length (waiting m (get_future_bls m c).1))
unfolding get_future_bls
length-waiting m c share h = elim (Option-cases (lookup m c.bls_future_shares)) [
  | inl e ↦ let h' : err key_error ≡ ok share = rw (e, get_future_bls) at h in cc
  | inr (l, e) ↦ elim (Option-cases (pop l)) [
    | inl w ↦ let h' : err index_error ≡ ok share = rw (e, w, get_future_bls) at h in cc
    | inr (q, w) ↦
        rw (e, w, get_future_bls, lookup-insert m m q.1 c.bls_future_shares, ==_refl m)
          (length-pop l q w)
  ]
]

none_waits : (m : ℕ) (c : ShareCache) → length (waiting m c) ≤ 0 → pending_future_bls m c ≡ false
unfolding pending_future_bls
none_waits m c h = elim (Option-cases (lookup m c.bls_future_shares)) [
  | inl e ↦ rw (e, pending_future_bls) refl
  | inr (l, e) ↦ let h' : length l ≤ 0 = rw e at h in rw (e, pending_future_bls) (ground arith)
]

module _ (p : Platform) (k : Packages p) where
  -- No share waits for the block of the node.
  abbrev pub IsServed : Node p → Type 0
  IsServed n = pending_future_bls n.block_num n.cache ≡ false

  abbrev AtMost : ℕ → ℕ → Node p → Type 0
  AtMost m fuel n = (n.block_num ≡ m) × (length (waiting m n.cache) ≤ fuel)

  count_share-Ensures :
      (fuel m : ℕ) (share : Share)
      → Ensures (AtMost m fuel) (count_share p k share) (λ _. AtMost m fuel)
  unfolding count_share
  count_share-Ensures fuel m share =
      Ensures->>= (λ _. AtMost m fuel) (record { ensures = λ s h a e. h })
        (λ n. record { ensures = λ s h a e. h })

  serve_share-Ensures :
      (fuel m : ℕ) → Ensures (AtMost m (suc fuel)) (serve_share p k) (λ _. AtMost m fuel)
  unfolding serve_share
  serve_share-Ensures fuel m =
      Ensures->>= (λ n s. (n.block_num ≡ m) × AtMost m (suc fuel) s)
        (record { ensures = λ s h n e. let e' : s ≡ n = cc in (rw e' at h.0, h) })
        (λ n.
          Ensures->>= (λ _. AtMost m fuel)
            (record {
              ensures = λ s (w, (b, c)) share e.
                  let e' : (get_future_bls m s.cache).0 ≡ ok share = rw w at e in
                  let l = length-waiting m s.cache share e' in (b, rw w (omega (arith, l, c)));
            })
            (λ share. count_share-Ensures fuel m share))

  future_shares-Ensures :
      (fuel m : ℕ)
      → Ensures (AtMost m fuel) (future_shares p k fuel) (λ r n. (r ≡ true) × IsServed n)
  unfolding future_shares
  future_shares-Ensures zero m = record {
    ensures = λ n h r e.
        let w : IsServed n = none_waits n.block_num n.cache (rw (← h.0) at h.1) in
        (ground (arith, w, e), w);
  }
  future_shares-Ensures (suc fuel) m =
      ensures_if p {m = λ _. (serve_share p k >> future_shares p k fuel)} {m' = λ _. pure true}
        (λ n. pending_future_bls n.block_num n.cache)
        (λ _.
          Ensures-imp (λ s h. h.0)
            (Ensures->>= (λ _. AtMost m fuel) (serve_share-Ensures fuel m)
              (λ _. future_shares-Ensures fuel m))
            (λ a s h. h))
        (λ _. record { ensures = λ s h r e. (cc, h.1) })

  -- One turn for each waiting share is enough for the loop over the shares that came too early:
  -- when it returns, it has ended by its own test, and no share waits for the present block.
  pub future_shares-Ends :
      (n : Node p) (r : Bool)
      → (future_shares p k (length (waiting n.block_num n.cache)) n).0 ≡ ok r
      → (r ≡ true) × IsServed (future_shares p k (length (waiting n.block_num n.cache)) n).1
  future_shares-Ends n r h =
      (future_shares-Ensures (length (waiting n.block_num n.cache)) n.block_num).ensures n
        (refl, omega arith) r h
