-- ===== src/State/Peek.antt =====
-- What the state says of each account, whether it is cached or not, under each operation.
use blockchain_mapping_syste.Prelude.{
  ℕ, ◌+◌, ◌≡◌, true, none, some, Bytes, bytes_eq, bytes_beq_sound, ==_refl, ◌==◌, if◌then◌else◌,
  arith,
}
use blockchain_mapping_syste.Prelude.Dict.{lookup, lookup-insert}
use blockchain_mapping_syste.Trie.{Trie}
use blockchain_mapping_syste.State.{
  State, Stored, Account, Field, nonce, balance, touched, set_attr, from_trie,
  get_and_cache_account, set_and_journal, set_balance, set_nonce, increment_nonce,
}

-- A field is written and the account is marked, as every setter does.
abbrev pub written : {B : Type 0} → Field B → Account B → Account B
written f o = set_attr (touched true) (set_attr f o)

module _ {B H : Type 0} (t : Trie (Stored B)) (blank : B) where
  -- The account of `j`: the cached object, or what the trie has.
  unfoldable pub peek : State B H t → Bytes → Account B
  peek s j = elim (lookup j s.cache) [ none ↦ from_trie blank (t.get s.trie j) | some o ↦ o ]

  pub account-get_and_cache :
      (a : Bytes) (s : State B H t) → (get_and_cache_account t blank a s).0 ≡ peek s a
  unfolding get_and_cache_account peek
  account-get_and_cache a s = ground arith

  pub peek-get_and_cache :
      (a j : Bytes) (s : State B H t) → peek (get_and_cache_account t blank a s).1 j ≡ peek s j
  unfolding get_and_cache_account peek
  peek-get_and_cache a j s =
      ground
        (arith, lookup-insert a j (from_trie blank (t.get s.trie a)) s.cache, bytes_beq_sound a j)

  pub lookup-get_and_cache :
      (a : Bytes) (s : State B H t)
      → lookup a (get_and_cache_account t blank a s).1.cache ≡ some (peek s a)
  unfolding get_and_cache_account peek
  lookup-get_and_cache a s =
      ground (arith, lookup-insert a a (from_trie blank (t.get s.trie a)) s.cache, ==_refl a)

  pub peek-set_and_journal :
      (a j : Bytes) (f : Field B) (o : Account B) (s : State B H t)
      → lookup a s.cache ≡ some o
      → peek (set_and_journal t blank a f s) j
        ≡ (if a == j then set_attr f (peek s j) else peek s j)
  unfolding set_and_journal peek
  peek-set_and_journal a j f o s e =
      ground (arith, lookup-insert a j (set_attr f o) s.cache, bytes_beq_sound a j)

  pub lookup-set_and_journal :
      (a : Bytes) (f : Field B) (o : Account B) (s : State B H t)
      → lookup a s.cache ≡ some o
      → lookup a (set_and_journal t blank a f s).cache ≡ some (set_attr f o)
  unfolding set_and_journal
  lookup-set_and_journal a f o s e =
      ground (arith, lookup-insert a a (set_attr f o) s.cache, ==_refl a)

  abbrev pub write_field : Bytes → Field B → State B H t → State B H t
  write_field a f s = set_and_journal t blank a (touched true) (set_and_journal t blank a f s)

  pub peek-write_field :
      (a j : Bytes) (f : Field B) (o : Account B) (s : State B H t)
      → lookup a s.cache ≡ some o
      → peek (write_field a f s) j ≡ (if a == j then written f (peek s j) else peek s j)
  peek-write_field a j f o s e = ground (
    arith,
    peek-set_and_journal a j f o s e,
    peek-set_and_journal a j (touched true) (set_attr f o) (set_and_journal t blank a f s)
        (lookup-set_and_journal a f o s e),
  )

  -- `set_balance` sets the balance of the account of its address and marks it as touched, and leaves
  -- every other account alone, whether it was cached or not.
  pub peek-set_balance :
      (a j : Bytes) (b : B) (s : State B H t)
      → peek (set_balance t blank a b s) j
        ≡ (if a == j then written (balance b) (peek s j) else peek s j)
  unfolding set_balance
  peek-set_balance a j b s =
      let s' = (get_and_cache_account t blank a s).1 in
      rw (peek-write_field a j (balance b) (peek s a) s' (lookup-get_and_cache a s))
        (rw (peek-get_and_cache a j s))

  pub peek-set_nonce :
      (a j : Bytes) (n : ℕ) (s : State B H t)
      → peek (set_nonce t blank a n s) j
        ≡ (if a == j then written (nonce n) (peek s j) else peek s j)
  unfolding set_nonce
  peek-set_nonce a j n s =
      let s' = (get_and_cache_account t blank a s).1 in
      rw (peek-write_field a j (nonce n) (peek s a) s' (lookup-get_and_cache a s))
        (rw (peek-get_and_cache a j s))

  -- `increment_nonce` adds one to the nonce of the account of its address and marks it as touched,
  -- and leaves every other account alone, whether it was cached or not.
  pub peek-increment_nonce :
      (a j : Bytes) (s : State B H t)
      → peek (increment_nonce t blank a s) j
        ≡ (if a == j then written (nonce ((peek s a).nonce + 1)) (peek s j) else peek s j)
  unfolding increment_nonce
  peek-increment_nonce a j s =
      let s' = (get_and_cache_account t blank a s).1 in
      rw (account-get_and_cache a s) (
        rw
          (peek-write_field a j (nonce ((peek s a).nonce + 1)) (peek s a) s'
            (lookup-get_and_cache a s))
          (rw (peek-get_and_cache a j s)))
