-- ===== src/Apply/Atomicity.antt =====
-- A block that is refused with a `ValueError` or an `AssertionError` changes neither the state nor
-- the patricia tree.
use blockchain_mapping_syste.Prelude.{
  true, false, [], ◌≡◌, refl, ap, ◌∙◌, inl, inr, Bool-cases, length, Result, Error, ok, err,
}
use blockchain_mapping_syste.Prelude.Hoare.{Keeps, Keeps->>=, Keeps-lift, Keeps-call}
use blockchain_mapping_syste.Balance.{Balance}
use blockchain_mapping_syste.State.{Snapshot, snapshot, revert}
use blockchain_mapping_syste.State.Peek.{peek}
use blockchain_mapping_syste.State.Revert.{
  read, put_balance, bump_nonce, commit_accounts, add_header, IsRecoverable, run_op-IsRecoverable,
  Reverted, revert_committed, settled,
}
use blockchain_mapping_syste.Block.{Block, PrevHeader, prev_header}
use blockchain_mapping_syste.Apply.{
  Platform, ChainState, Work, blank, apply_body, settle, is_caught, apply_block,
}
use blockchain_mapping_syste.Apply.Invariants.{IsInvariant, apply_transactions-Keeps}

module _ (p : Platform) where
  recoverable : IsInvariant p (IsRecoverable p.trie (blank p))
  recoverable = record {
    stable = record {
      reads = λ a s h. run_op-IsRecoverable p.trie (blank p) (read a) s h;
      writes = λ a b s h. run_op-IsRecoverable p.trie (blank p) (put_balance a b) s h;
    };
    bumps = λ a s h. run_op-IsRecoverable p.trie (blank p) (bump_nonce a) s h;
    commits = λ s h. run_op-IsRecoverable p.trie (blank p) (commit_accounts false) s h;
  }

  apply_body-IsRecoverable :
      (b : Block) → Keeps (λ w. IsRecoverable p.trie (blank p) w.state) (apply_body p b)
  unfolding apply_body
  apply_body-IsRecoverable b = Keeps->>= (Keeps-call (λ w h. h)) (λ w. Keeps->>= Keeps-lift (λ _.
      Keeps->>= Keeps-lift (λ _.
        Keeps->>= (apply_transactions-Keeps p _ recoverable b.transactions) (λ _. Keeps-call (λ w h.
          run_op-IsRecoverable p.trie (blank p) (add_header (prev_header p.header_hash b.header))
            w.state h)))))

  module _ (snap : Snapshot (Balance p.netaddr) PrevHeader p.trie) (s : ChainState p)
      (tree : p.Tree) where
    -- The state has the root, the variables and the accounts of `s` again, and the tree is as before.
    pub record Undone (s' : ChainState p) (tree' : p.Tree) : Type 0 where
      pub reverted : Reverted p.trie (blank p) snap (peek p.trie (blank p) s) s'
      pub same_tree : tree' ≡ tree

    settle-Undone :
        (e : Error) (q : Result (Unit {0}) × Work p)
        → ((revert p.trie (blank p) snap q.1.state).0 ≡ ok tt)
        → Reverted p.trie
            (blank p)
            snap
            (peek p.trie (blank p) s)
            (revert p.trie (blank p) snap q.1.state).1
        → (settle p snap tree q).0 ≡ err e
        → is_caught e ≡ true
        → Undone (settle p snap tree q).1 (settle p snap tree q).2
    unfolding settle
    settle-Undone e (ok _, w) done r h c = cc
    settle-Undone e (err f, w) done r h c = elim (Bool-cases (is_caught f)) [
      | inl q ↦ rw (q, done) (record { reverted = r; same_tree = refl })
      | inr q ↦ let h' : err f ≡ err e = rw q at h in cc
    ]

  -- From a recoverable state with an empty journal, when `apply_block` raises an exception that
  -- it catches, a `ValueError` or an `AssertionError`, then the root, the block variables,
  -- every account and the patricia tree are as they were before the call.
  pub apply_block-Undone :
      (b : Block) (s : ChainState p) (tree : p.Tree) (e : Error)
      → IsRecoverable p.trie (blank p) s
      → s.journal ≡ []
      → (apply_block p b s tree).0 ≡ err e
      → is_caught e ≡ true
      → Undone
          (snapshot p.trie (blank p) s)
          s
          tree
          (apply_block p b s tree).1
          (apply_block p b s tree).2
  unfolding apply_block snapshot
  apply_block-Undone b s tree e u j =
      let w : Work p = record { state = s; cached = [] } in
      let (done, _, r) =
        revert_committed p.trie (blank p) (snapshot p.trie (blank p) s) (apply_body p b w).1.state
          ((apply_body-IsRecoverable b).keeps w u) (ap length j) in
      settle-Undone (snapshot p.trie (blank p) s) s tree e (apply_body p b w) done (record {
        trie = r.trie;
        vars = r.vars;
        accounts = λ k. r.accounts k ∙ settled p.trie (blank p) s u j k;
      })
