-- ===== src/State/Journal.antt =====
-- The journal: unwinding it gives back every account as it was.
use blockchain_mapping_syste.Prelude.{
  ℕ, suc, ◌+◌, ◌≤◌, ◌≡◌, refl, ap, ◌∙◌, inl, inr, true, none, some, List, [], ◌∷◌, ◌++◌, Bytes,
  bytes_eq, bytes_beq_sound, ==_refl, ◌==◌, if◌then◌else◌, arith, Option-cases, length,
  length-append,
}
use mathlib.Core.Path.{fun_ext}
use blockchain_mapping_syste.Prelude.Dict.{Dict, lookup, insert, has_key, lookup-insert}
use blockchain_mapping_syste.Trie.{Trie}
use blockchain_mapping_syste.State.{
  State, Stored, Account, Field, nonce, balance, touched, set_attr, get_attr, from_trie, put_blank,
  get_and_cache_account, set_and_journal, set_balance, set_nonce, increment_nonce, undo, unwind,
}
use blockchain_mapping_syste.State.Peek.{
  peek, peek-get_and_cache, lookup-get_and_cache, lookup-set_and_journal,
}

module _ {B : Type 0} where
  abbrev pub undone : Bytes × Field B → (Bytes → Account B) → Bytes → Account B
  undone (a, f) p k = if a == k then set_attr f (p k) else p k

  -- The undo steps, made on what each address reads.
  abbrev pub restore : List (Bytes × Field B) → (Bytes → Account B) → Bytes → Account B
  restore [] p = p
  restore (u ∷ j) p = restore j (undone u p)

  -- Each undo step is about a cached account.
  abbrev pub Covers : List (Bytes × Field B) → Dict Bytes (Account B) → Type 0
  Covers [] c = Unit
  Covers ((a, f) ∷ j) c = (has_key a c ≡ true) × Covers j c

  has_key-insert :
      (a b : Bytes) (o : Account B) (c : Dict Bytes (Account B))
      → has_key b c ≡ true
      → has_key b (insert a o c) ≡ true
  has_key-insert a b o c h = ground (arith, lookup-insert a b o c)

  has_key-undo :
      (u : Bytes × Field B) (b : Bytes) (c : Dict Bytes (Account B))
      → has_key b c ≡ true
      → has_key b (undo u c) ≡ true
  unfolding undo
  has_key-undo (a, f) b c h = elim (Option-cases (lookup a c)) [
    | inl e ↦ ground arith
    | inr (o, e) ↦ ground (arith, lookup-insert a b (set_attr f o) c)
  ]

  pub Covers-insert :
      (a : Bytes) (o : Account B) (j : List (Bytes × Field B)) (c : Dict Bytes (Account B))
      → Covers j c
      → Covers j (insert a o c)
  Covers-insert a o [] c h = tt
  Covers-insert a o ((b, f) ∷ j) c (h, k) = (has_key-insert a b o c h, Covers-insert a o j c k)

  Covers-undo :
      (u : Bytes × Field B) (j : List (Bytes × Field B)) (c : Dict Bytes (Account B))
      → Covers j c
      → Covers j (undo u c)
  Covers-undo u [] c h = tt
  Covers-undo u ((b, f) ∷ j) c (h, k) = (has_key-undo u b c h, Covers-undo u j c k)

  -- What a cache and the accounts behind it read.
  abbrev pub read_in : (Bytes → Account B) → Dict Bytes (Account B) → Bytes → Account B
  read_in base c k = elim (lookup k c) [ none ↦ base k | some o ↦ o ]

  read_in-undo :
      (base : Bytes → Account B) (u : Bytes × Field B) (c : Dict Bytes (Account B)) (k : Bytes)
      → has_key u.0 c ≡ true
      → read_in base (undo u c) k ≡ undone u (read_in base c) k
  unfolding undo
  read_in-undo base (a, f) c k h = elim (Option-cases (lookup a c)) [
    | inl e ↦ ground arith
    | inr (o, e) ↦ ground (arith, lookup-insert a k (set_attr f o) c, bytes_beq_sound a k)
  ]

  unwind-stop :
      (l : ℕ) (u : Bytes × Field B) (j : List (Bytes × Field B)) (c : Dict Bytes (Account B))
      → l ≡ suc (length j)
      → unwind l (u ∷ j) c ≡ (u ∷ j, c)
  unfolding unwind
  unwind-stop l u j c h = ground arith

  unwind-pop :
      (l : ℕ) (u : Bytes × Field B) (j : List (Bytes × Field B)) (c : Dict Bytes (Account B))
      → l ≤ length j
      → unwind l (u ∷ j) c ≡ unwind l j (undo u c)
  unfolding unwind
  unwind-pop l u j c h = ground arith

  unwind-nil : (l : ℕ) (c : Dict Bytes (Account B)) → unwind l [] c ≡ ([], c)
  unfolding unwind
  unwind-nil l c = refl

  -- What unwinding to the depth of `j₂` leaves, when `j₁` lies above it.
  abbrev pub Unwound :
      (Bytes → Account B)
      → List (Bytes × Field B)
      → List (Bytes × Field B)
      → Dict Bytes (Account B)
      → List (Bytes × Field B) × Dict Bytes (Account B)
      → Type 0
  Unwound base j₁ j₂ c (j, c') =
      (j ≡ j₂) × ((k : Bytes) → read_in base c' k ≡ restore j₁ (read_in base c) k) × Covers j₂ c'

  pub unwind_lem :
      (base : Bytes → Account B) (j₁ j₂ : List (Bytes × Field B)) (c : Dict Bytes (Account B))
      → Covers (j₁ ++ j₂) c
      → Unwound base j₁ j₂ c (unwind (length j₂) (j₁ ++ j₂) c)
  unwind_lem base [] [] c h = rw unwind-nil (refl, λ k. refl, h)
  unwind_lem base [] (u ∷ j₂) c h =
      rw (unwind-stop (suc (length j₂)) u j₂ c refl) (refl, λ k. refl, h)
  unwind_lem base ((a, f) ∷ j₁) j₂ c (h, hs) =
      let ih = unwind_lem base j₁ j₂ (undo (a, f) c) (Covers-undo (a, f) (j₁ ++ j₂) c hs) in
      let same = fun_ext (λ k. read_in-undo base (a, f) c k h) in
      rw (unwind-pop (length j₂) (a, f) (j₁ ++ j₂) c (omega (arith, length-append j₁ j₂)))
        (ih.0, λ k. ih.1 k ∙ ap (λ p. restore j₁ p k) same, ih.2)

-- To write back the old value undoes a write.
set-get_attr :
    {B : Type 0} (f : Field B) (o : Account B) → set_attr (get_attr f o) (set_attr f o) ≡ o
unfolding set_attr get_attr
set-get_attr (nonce n) o = refl
set-get_attr (balance b) o = refl
set-get_attr (touched v) o = refl

-- What the trie has of each account.
abbrev pub on_disk : {B : Type 0} (t : Trie (Stored B)) → B → t.Root → Bytes → Account B
on_disk t blank r k = from_trie blank (t.get r k)

module _ {B H : Type 0} (t : Trie (Stored B)) (blank : B) where
  pub get_and_cache-hit :
      (a : Bytes) (o : Account B) (s : State B H t)
      → lookup a s.cache ≡ some o
      → get_and_cache_account t blank a s ≡ (o, s)
  unfolding get_and_cache_account
  get_and_cache-hit a o s e = rw (e, get_and_cache_account)

  pub get_and_cache-miss :
      (a : Bytes) (s : State B H t)
      → lookup a s.cache ≡ none
      → let o = on_disk t blank s.trie a in
        get_and_cache_account t blank a s
        ≡ (o, record s { cache = insert a o s.cache; env_db = put_blank (t.get s.trie a) s.env_db })
  unfolding get_and_cache_account
  get_and_cache-miss a s e = rw (e, get_and_cache_account)

  -- Reading an account leaves all but the cache and the database.
  pub record SameButCache (s s' : State B H t) : Type 0 where
    pub trie : s'.trie ≡ s.trie
    pub vars : s'.vars ≡ s.vars
    pub journal : s'.journal ≡ s.journal
    pub changed : s'.changed ≡ s.changed

  pub get_and_cache-SameButCache :
      (a : Bytes) (s : State B H t) → SameButCache s (get_and_cache_account t blank a s).1
  unfolding get_and_cache_account
  get_and_cache-SameButCache a s = ground arith

  get_and_cache-Covers :
      (a : Bytes) (j : List (Bytes × Field B)) (s : State B H t)
      → Covers j s.cache
      → Covers j (get_and_cache_account t blank a s).1.cache
  get_and_cache-Covers a j s h = elim (Option-cases (lookup a s.cache)) [
    | inl e ↦ rw (get_and_cache-miss a s e) (Covers-insert a (on_disk t blank s.trie a) j s.cache h)
    | inr (o, e) ↦ rw (get_and_cache-hit a o s e) h
  ]

  pub set_and_journal-cached :
      (a : Bytes) (f : Field B) (o : Account B) (s : State B H t)
      → lookup a s.cache ≡ some o
      → set_and_journal t blank a f s ≡ record s {
        journal = (a, get_attr f o) ∷ s.journal;
        cache = insert a (set_attr f o) s.cache;
      }
  unfolding set_and_journal
  set_and_journal-cached a f o s e = rw (e, set_and_journal)

  undone-set_and_journal :
      (a k : Bytes) (f : Field B) (o : Account B) (s : State B H t)
      → lookup a s.cache ≡ some o
      → undone (a, get_attr f o) (peek t blank (set_and_journal t blank a f s)) k ≡ peek t blank s k
  unfolding peek
  undone-set_and_journal a k f o s e = rw (set_and_journal-cached a f o s e) (
      ground
        (arith, lookup-insert a k (set_attr f o) s.cache, bytes_beq_sound a k, set-get_attr f o))

  -- The journal of `s` undoes everything since the accounts read `p` and the journal was `j₂`.
  pub record Undoes (j₂ : List (Bytes × Field B)) (p : Bytes → Account B) (s : State B H t)
      : Type 0 where
    pub j₁ : List (Bytes × Field B)
    pub journal : s.journal ≡ j₁ ++ j₂
    pub covered : Covers s.journal s.cache
    pub restored : (k : Bytes) → restore j₁ (peek t blank s) k ≡ p k

  module _ {j₂ : List (Bytes × Field B)} {p : Bytes → Account B} where
    pub get_and_cache-Undoes :
        (a : Bytes) {s : State B H t}
        → Undoes j₂ p s
        → Undoes j₂ p (get_and_cache_account t blank a s).1
    get_and_cache-Undoes a {s} u = record {
      j₁ = u.j₁;
      journal = (get_and_cache-SameButCache a s).journal ∙ u.journal;
      covered =
          rw ((get_and_cache-SameButCache a s).journal)
            (get_and_cache-Covers a s.journal s u.covered);
      restored = λ k.
          ap (λ q. restore u.j₁ q k) (fun_ext (λ b. peek-get_and_cache t blank a b s))
          ∙ u.restored k;
    }

    pub set_and_journal-Undoes :
        (a : Bytes) (f : Field B) (o : Account B) {s : State B H t}
        → lookup a s.cache ≡ some o
        → Undoes j₂ p s
        → Undoes j₂ p (set_and_journal t blank a f s)
    set_and_journal-Undoes a f o {s} e u = record {
      j₁ = (a, get_attr f o) ∷ u.j₁;
      journal = rw (set_and_journal-cached a f o s e) (ap (λ j. (a, get_attr f o) ∷ j) u.journal);
      covered = rw (set_and_journal-cached a f o s e) (
        ground (arith, lookup-insert a a (set_attr f o) s.cache, ==_refl a),
        Covers-insert a (set_attr f o) s.journal s.cache u.covered,
      );
      restored = λ k.
          ap (λ q. restore u.j₁ q k) (fun_ext (λ b. undone-set_and_journal a b f o s e))
          ∙ u.restored k;
    }

    pub set_balance-Undoes :
        (a : Bytes) (b : B) {s : State B H t}
        → Undoes j₂ p s
        → Undoes j₂ p (set_balance t blank a b s)
    unfolding set_balance
    set_balance-Undoes a b {s} u =
        let s' = (get_and_cache_account t blank a s).1 in
        let hit = lookup-get_and_cache t blank a s in
        set_and_journal-Undoes a (touched true) _
          (lookup-set_and_journal t blank a (balance b) _ s' hit)
          (set_and_journal-Undoes a (balance b) _ hit (get_and_cache-Undoes a u))

    pub set_nonce-Undoes :
        (a : Bytes) (n : ℕ) {s : State B H t}
        → Undoes j₂ p s
        → Undoes j₂ p (set_nonce t blank a n s)
    unfolding set_nonce
    set_nonce-Undoes a n {s} u =
        let s' = (get_and_cache_account t blank a s).1 in
        let hit = lookup-get_and_cache t blank a s in
        set_and_journal-Undoes a (touched true) _
          (lookup-set_and_journal t blank a (nonce n) _ s' hit)
          (set_and_journal-Undoes a (nonce n) _ hit (get_and_cache-Undoes a u))

    pub increment_nonce-Undoes :
        (a : Bytes) {s : State B H t} → Undoes j₂ p s → Undoes j₂ p (increment_nonce t blank a s)
    unfolding increment_nonce
    increment_nonce-Undoes a {s} u =
        let o = (get_and_cache_account t blank a s).0 in
        let s' = (get_and_cache_account t blank a s).1 in
        let hit = lookup-get_and_cache t blank a s in
        set_and_journal-Undoes a (touched true) _
          (lookup-set_and_journal t blank a (nonce (o.nonce + 1)) _ s' hit)
          (set_and_journal-Undoes a (nonce (o.nonce + 1)) _ hit (get_and_cache-Undoes a u))
