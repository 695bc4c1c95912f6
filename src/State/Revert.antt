-- ===== src/State/Revert.antt =====
-- `revert` after `snapshot`: the accounts and the block variables are as they were, whatever was
-- done in between.
use blockchain_mapping_syste.Prelude.{
  ℕ, ◌+◌, ◌≡◌, refl, sym, ap, ◌∙◌, inl, inr, Bool, true, List, [], ◌∷◌, ◌++◌, Bytes, bytes_eq,
  arith, length, ok, Bool-cases,
}
use mathlib.Core.Path.{fun_ext, subst}
use blockchain_mapping_syste.Trie.{Trie}
use blockchain_mapping_syste.State.{
  State, Snapshot, Stored, Account, Field, nonce, balance, touched, get_and_cache_account,
  set_and_journal, set_balance, set_nonce, increment_nonce, unwind, commit, snapshot, revert,
  add_block_header,
}
use blockchain_mapping_syste.State.Peek.{peek}
use blockchain_mapping_syste.State.Journal.{
  Undoes, restore, read_in, unwind_lem, on_disk, get_and_cache-SameButCache, get_and_cache-Undoes,
  set_balance-Undoes, set_nonce-Undoes, increment_nonce-Undoes,
}

restored_by :
    {B : Type 0} (j : List (Bytes × Field B)) (q : Bytes → Account B) (k : Bytes)
    → j ++ [] ≡ []
    → restore j q k ≡ q k
restored_by [] q k e = refl
restored_by (u ∷ j) q k e = cc

-- Each operation on the state, with its arguments.
pub data Op (B H : Type 0) : Type 0 where
  read : Bytes → Op B H
  put_balance : Bytes → B → Op B H
  put_nonce : Bytes → ℕ → Op B H
  bump_nonce : Bytes → Op B H
  commit_accounts : Bool → Op B H
  add_header : H → Op B H

module _ {B H : Type 0} (t : Trie (Stored B)) (blank : B) where
  peeked :
      (s : State B H t) (k : Bytes) → read_in (on_disk t blank s.trie) s.cache k ≡ peek t blank s k
  unfolding peek
  peeked s k = refl

  unwound :
      (j₂ : List (Bytes × Field B)) (p : Bytes → Account B) (s : State B H t)
      → Undoes t blank j₂ p s
      → let (j, c) = unwind (length j₂) s.journal s.cache in
        (j ≡ j₂) × ((k : Bytes) → read_in (on_disk t blank s.trie) c k ≡ p k)
  unwound j₂ p s u =
      let base = on_disk t blank s.trie in
      let covered = rw u.journal at u.covered in
      let all = unwind_lem base u.j₁ j₂ s.cache covered in
      rw u.journal
        (all.0, λ k. all.1 k ∙ ap (λ q. restore u.j₁ q k) (fun_ext (peeked s)) ∙ u.restored k)

  -- What a revert to `snap` gives: the accounts read `p` again.
  pub record Reverted (snap : Snapshot B H t) (p : Bytes → Account B) (s : State B H t)
      : Type 0 where
    pub trie : s.trie ≡ snap.root
    pub vars : s.vars ≡ snap.aux
    pub accounts : (k : Bytes) → peek t blank s k ≡ p k

  -- No commit since the snapshot: the journal alone restores the accounts.
  pub revert_uncommitted :
      (snap : Snapshot B H t) (j₂ : List (Bytes × Field B)) (p : Bytes → Account B)
      (s : State B H t)
      → Undoes t blank j₂ p s
      → length j₂ ≡ snap.depth
      → snap.root ≡ s.trie
      → ((revert t blank snap s).0 ≡ ok tt)
        × ((revert t blank snap s).1.journal ≡ j₂)
        × Reverted snap p (revert t blank snap s).1
  unfolding revert peek
  revert_uncommitted snap j₂ p s u hd hr =
      let (hj, hp) = unwound j₂ p s u in
      let same = (t.root_eq.beq_iff snap.root s.trie).1 hr in
      rw (same, ← hd) (refl, hj, record { trie = sym hr; vars = refl; accounts = hp })

  -- Everything that the journal holds goes back to the accounts of the trie.
  abbrev pub IsRecoverable : State B H t → Type 0
  IsRecoverable s = Undoes t blank [] (on_disk t blank s.trie) s

  -- Commits or none since the snapshot, which was taken with an empty journal.
  pub revert_committed :
      (snap : Snapshot B H t) (s : State B H t)
      → IsRecoverable s
      → snap.depth ≡ 0
      → ((revert t blank snap s).0 ≡ ok tt)
        × ((revert t blank snap s).1.journal ≡ [])
        × Reverted snap (on_disk t blank snap.root) (revert t blank snap s).1
  unfolding revert peek
  revert_committed snap s u hd =
      let (hj, hp) = unwound [] (on_disk t blank s.trie) s u in
      elim (Bool-cases (t.root_eq.beq snap.root s.trie)) [
        | inl same ↦
            let hr = (t.root_eq.beq_iff snap.root s.trie).0 same in
            rw (same, hd)
              (
                refl,
                hj,
                record {
                  trie = sym hr;
                  vars = refl;
                  accounts = λ k. hp k ∙ ap (λ r. on_disk t blank r k) (sym hr);
                },
              )
        | inr other ↦
            rw (other, hd) (refl, hj, record { trie = refl; vars = refl; accounts = λ k. refl })
      ]

  abbrev pub run_op : Op B H → State B H t → State B H t
  run_op (read a) s = (get_and_cache_account t blank a s).1
  run_op (put_balance a b) s = set_balance t blank a b s
  run_op (put_nonce a n) s = set_nonce t blank a n s
  run_op (bump_nonce a) s = increment_nonce t blank a s
  run_op (commit_accounts e) s = commit t blank e s
  run_op (add_header h) s = add_block_header t blank h s

  abbrev pub run : List (Op B H) → State B H t → State B H t
  run [] s = s
  run (op ∷ ops) s = run ops (run_op op s)

  set_and_journal-trie :
      (a : Bytes) (f : Field B) (s : State B H t) → (set_and_journal t blank a f s).trie ≡ s.trie
  unfolding set_and_journal
  set_and_journal-trie a f s = ground arith

  cached-trie :
      (a : Bytes) (f g : Field B) (s : State B H t)
      → (set_and_journal t blank a g
          (set_and_journal t blank a f (get_and_cache_account t blank a s).1)).trie
        ≡ s.trie
  cached-trie a f g s =
      let s' = (get_and_cache_account t blank a s).1 in
      set_and_journal-trie a g (set_and_journal t blank a f s')
      ∙ set_and_journal-trie a f s'
      ∙ (get_and_cache-SameButCache t blank a s).trie

  moved :
      (s s' : State B H t)
      → s'.trie ≡ s.trie
      → Undoes t blank [] (on_disk t blank s.trie) s'
      → IsRecoverable s'
  moved s s' e u = subst (λ r. Undoes t blank [] (on_disk t blank r) s') (sym e) u

  commit-IsRecoverable : (e : Bool) (s : State B H t) → IsRecoverable (commit t blank e s)
  unfolding commit peek
  commit-IsRecoverable e s = record { j₁ = []; journal = refl; covered = tt; restored = λ k. refl }

  pub run_op-IsRecoverable :
      (op : Op B H) (s : State B H t) → IsRecoverable s → IsRecoverable (run_op op s)
  unfolding set_balance set_nonce increment_nonce add_block_header peek
  run_op-IsRecoverable (read a) s u =
      moved s _ (get_and_cache-SameButCache t blank a s).trie (get_and_cache-Undoes t blank a u)
  run_op-IsRecoverable (put_balance a b) s u =
      moved s _ (cached-trie a (balance b) (touched true) s) (set_balance-Undoes t blank a b u)
  run_op-IsRecoverable (put_nonce a n) s u =
      moved s _ (cached-trie a (nonce n) (touched true) s) (set_nonce-Undoes t blank a n u)
  run_op-IsRecoverable (bump_nonce a) s u =
      moved s _
        (cached-trie a (nonce ((get_and_cache_account t blank a s).0.nonce + 1)) (touched true) s)
        (increment_nonce-Undoes t blank a u)
  run_op-IsRecoverable (commit_accounts e) s u = commit-IsRecoverable e s
  run_op-IsRecoverable (add_header h) s u = record {
    j₁ = u.j₁;
    journal = u.journal;
    covered = u.covered;
    restored = u.restored;
  }

  pub run-IsRecoverable :
      (ops : List (Op B H)) (s : State B H t) → IsRecoverable s → IsRecoverable (run ops s)
  run-IsRecoverable [] s u = u
  run-IsRecoverable (op ∷ ops) s u =
      run-IsRecoverable ops (run_op op s) (run_op-IsRecoverable op s u)

  -- With an empty journal the accounts are those of the trie.
  pub settled :
      (s : State B H t)
      → IsRecoverable s
      → s.journal ≡ []
      → (k : Bytes) → on_disk t blank s.trie k ≡ peek t blank s k
  settled s u e k = sym (u.restored k) ∙ restored_by u.j₁ (peek t blank s) k (sym u.journal ∙ e)

  -- From a recoverable state with an empty journal, after any list of reads, balance and nonce
  -- changes, commits and added headers, `revert` to the snapshot taken before returns, and the
  -- root, the block variables and every account are as at the snapshot.
  pub revert-snapshot :
      (ops : List (Op B H)) (s : State B H t)
      → IsRecoverable s
      → s.journal ≡ []
      → ((revert t blank (snapshot t blank s) (run ops s)).0 ≡ ok tt)
        × Reverted
            (snapshot t blank s)
            (peek t blank s)
            (revert t blank (snapshot t blank s) (run ops s)).1
  unfolding snapshot
  revert-snapshot ops s u e =
      let (done, _, r) =
        revert_committed (snapshot t blank s) (run ops s) (run-IsRecoverable ops s u)
          (ap length e) in
      (
        done,
        record { trie = r.trie; vars = r.vars; accounts = λ k. r.accounts k ∙ settled s u e k },
      )
