-- ===== src/Chain/Headers.antt =====
-- The headers that the state lists: no transaction and no check changes them, and a block that is
-- applied adds its own.
use blockchain_mapping_syste.Prelude.{
  false, List, [], ◌∷◌, Bytes, bytes_eq, bytes_beq_sound, ◌==◌, ◌≡◌, refl, inl, inr, arith,
  Bool-cases, Result-cases, Result, Error, ok, err, ◌∙◌, index_error, value_error,
}
use blockchain_mapping_syste.Prelude.Exec.{modify, ◌>>=◌}
use blockchain_mapping_syste.Prelude.Hoare.{Keeps-lift, Ensures, Ensures->>=, Keeps-Ensures}
use blockchain_mapping_syste.Balance.{Balance}
use blockchain_mapping_syste.State.{
  Account, Field, snapshot, revert, commit, commit_all, commit_account, set_balance,
  increment_nonce, get_and_cache_account, add_block_header, set_and_journal,
}
use blockchain_mapping_syste.Prelude.Dict.{Dict}
use blockchain_mapping_syste.Block.{Block, PrevHeader, prev_header}
use blockchain_mapping_syste.Apply.{
  Platform, ChainState, Work, blank, validate_header, validate_transaction_tree, validate_block,
  apply_transactions, apply_body, settle, apply_block, is_caught, on_state,
}
use blockchain_mapping_syste.Apply.Invariants.{IsInvariant, apply_transactions-Keeps}

module _ (p : Platform) where
  abbrev pub HasHeaders : List PrevHeader → ChainState p → Type 0
  HasHeaders hs s = s.vars.prev_headers ≡ hs

  cached-headers :
      (a : Bytes) (s : ChainState p) → (get_and_cache_account p.trie (blank p) a s).1.vars ≡ s.vars
  unfolding get_and_cache_account
  cached-headers a s = ground arith

  written-headers :
      (a : Bytes) (v : Field (Balance p.netaddr)) (s : ChainState p)
      → (set_and_journal p.trie (blank p) a v s).vars ≡ s.vars
  unfolding set_and_journal
  written-headers a v s = ground arith

  commit_account-headers :
      (a : Bytes) (o : Account (Balance p.netaddr)) (s : ChainState p)
      → (commit_account p.trie (blank p) false a o s).vars ≡ s.vars
  unfolding commit_account
  commit_account-headers a o s = ground arith

  commit_all-headers :
      (c : Dict Bytes (Account (Balance p.netaddr))) (s : ChainState p)
      → (commit_all p.trie (blank p) false c s).vars ≡ s.vars
  unfolding commit_all
  commit_all-headers [] s = refl
  commit_all-headers ((a, o) ∷ c) s = commit_all-headers c _ ∙ commit_account-headers a o s

  -- The block comes right after the first header of the list.
  abbrev pub Follows : Block → List PrevHeader → Type 0
  Follows b [] = ⊥
  Follows b (parent ∷ _) = b.header.prevhash ≡ parent.hash

  validate_header-Follows :
      (hs : List PrevHeader) (s : ChainState p) (b : Block)
      → HasHeaders hs s
      → validate_header p s b.header ≡ ok tt
      → Follows b hs
  unfolding validate_header
  validate_header-Follows [] s b h e =
      let e' : err index_error ≡ ok tt = rw (h, validate_header) at e in cc
  validate_header-Follows (parent ∷ hs) s b h e =
      elim (Bool-cases (b.header.prevhash == parent.hash)) [
        | inl q ↦ bytes_beq_sound b.header.prevhash parent.hash q
        | inr q ↦ let e' : err value_error ≡ ok tt = rw (h, validate_header, q) at e in cc
      ]

  module _ (hs : List PrevHeader) where
    pub headers : IsInvariant p (HasHeaders hs)
    unfolding set_balance increment_nonce commit
    headers = record {
      stable = record {
        reads = λ a s h. rw (cached-headers a s) h;
        writes = λ a b s h. rw (written-headers, written-headers, cached-headers a s) h;
      };
      bumps = λ a s h. rw (written-headers, written-headers, cached-headers a s) h;
      commits = λ s h. rw (commit_all-headers s.cache s) h;
    }

    pub validate_block-Follows :
        (b : Block) → Ensures (HasHeaders hs) (validate_block p b) (λ _ _. Follows b hs)
    unfolding validate_block
    validate_block-Follows b =
        Ensures->>= (λ _. HasHeaders hs) (Keeps-Ensures Keeps-lift)
          (λ a.
            Ensures->>= (λ _. HasHeaders hs) (Keeps-Ensures Keeps-lift)
              (λ _.
                Ensures->>= (λ _. HasHeaders hs) (Keeps-Ensures Keeps-lift)
                  (λ _.
                    Ensures->>= (λ s _. HasHeaders hs s) (record { ensures = λ s h a e. cc })
                      (λ s.
                        Ensures->>= (λ _ _. Follows b hs)
                          (record { ensures = λ s' h u e. validate_header-Follows hs s b h e })
                          (λ _. record { ensures = λ s' h u e. h })))))

  -- What a block that is applied does to the headers, and what one that is refused does not.
  pub record Headed (b : Block) (s : ChainState p) (r : Result (Unit {0})) (s' : ChainState p)
      : Type 0 where
    pub added : r ≡ ok tt → HasHeaders (prev_header p.header_hash b.header ∷ s.vars.prev_headers) s'
    pub refused : (e : Error) → r ≡ err e → HasHeaders s.vars.prev_headers s'

  -- The header is added after the transactions, if they have returned.
  header_after :
      (b : Block) (s : ChainState p) (w : Work p) (q : Result (Unit {0}) × Work p)
      → HasHeaders s.vars.prev_headers q.1.state
      → let h = prev_header p.header_hash b.header in
        let r = ((λ _. q) >>= λ _. on_state p (modify (add_block_header p.trie (blank p) h))) w in
        Headed b s r.0 r.1.state
  unfolding ◌>>=◌ add_block_header
  header_after b s w (ok u, w') k = record { added = λ _. rw k refl; refused = λ e q. cc }
  header_after b s w (err e, w') k = record { added = λ q. cc; refused = λ _ _. k }

  apply_body-Headed :
      (b : Block) (w : Work p) → Headed b w.state (apply_body p b w).0 (apply_body p b w).1.state
  unfolding apply_body ◌>>=◌
  apply_body-Headed b w = elim (Result-cases (validate_header p w.state b.header)) [
    | inr (e, h) ↦ rw h (record { added = λ q. cc; refused = λ _ _. refl })
    | inl (_, h) ↦ elim (Result-cases (validate_transaction_tree p b)) [
      | inr (e, h') ↦ rw (h, h') (record { added = λ q. cc; refused = λ _ _. refl })
      | inl (_, h') ↦
          let k =
            (apply_transactions-Keeps p _ (headers w.state.vars.prev_headers) b.transactions).keeps
              w refl in
          rw (h, h') (header_after b w.state w (apply_transactions p b.transactions w) k)
    ]
  ]

  revert-headers :
      (s s' : ChainState p)
      → HasHeaders s.vars.prev_headers s'
      → HasHeaders s.vars.prev_headers (revert p.trie (blank p) (snapshot p.trie (blank p) s) s').1
  unfolding revert snapshot
  revert-headers s s' h = ground arith

  settle-Headed :
      (b : Block) (s : ChainState p) (tree : p.Tree) (q : Result (Unit {0}) × Work p)
      → Headed b s q.0 q.1.state
      → let r = settle p (snapshot p.trie (blank p) s) tree q in Headed b s r.0 r.1
  unfolding settle
  settle-Headed b s tree (ok u, w) k = k
  settle-Headed b s tree (err e, w) k =
      let back = revert-headers s w.state (k.refused e refl) in
      elim (Bool-cases (is_caught e)) [
        | inr n ↦ rw n k
        | inl y ↦
            elim (Result-cases (revert p.trie (blank p) (snapshot p.trie (blank p) s) w.state).0) [
              | inl (_, r) ↦ rw (y, r, settle) (record { added = λ q. cc; refused = λ _ _. back })
              | inr (_, r) ↦ rw (y, r, settle) (record { added = λ q. cc; refused = λ _ _. back })
            ]
      ]

  pub apply_block-Headed :
      (b : Block) (s : ChainState p) (tree : p.Tree)
      → Headed b s (apply_block p b s tree).0 (apply_block p b s tree).1
  unfolding apply_block
  apply_block-Headed b s tree =
      let w : Work p = record { state = s; cached = [] } in
      settle-Headed b s tree (apply_body p b w) (apply_body-Headed b w)
