-- ===== src/State/Commit.antt =====
-- `commit` writes every touched account to the trie and empties cache and journal; what the state
-- says of each account stays the same.
use blockchain_mapping_syste.Prelude.{
  ◌+◌, ◌≡◌, refl, ◌∙◌, inl, inr, Bool, true, false, Option, none, some, [], ◌∷◌, Bytes, bytes_eq,
  bytes_beq_sound, ==_refl, ◌==◌, if◌then◌else◌, arith, Option-cases,
}
use blockchain_mapping_syste.Prelude.Dict.{Dict, lookup, insert, lookup-insert}
use blockchain_mapping_syste.Trie.{Trie}
use blockchain_mapping_syste.State.{
  State, Stored, Account, Field, nonce, balance, touched, stored, from_trie, set_attr,
  get_and_cache_account, set_and_journal, set_balance, increment_nonce, commit, commit_all,
  commit_account,
}
use blockchain_mapping_syste.State.Peek.{
  peek, written, write_field, lookup-get_and_cache, lookup-set_and_journal,
}
use blockchain_mapping_syste.State.Journal.{
  on_disk, get_and_cache-hit, get_and_cache-miss, set_and_journal-cached,
}

-- Each key is listed once.
abbrev pub IsDistinct : {V : Type 0} → Dict Bytes V → Type 0
IsDistinct [] = Unit
IsDistinct ((a, _) ∷ d) = (lookup a d ≡ none) × IsDistinct d

pub insert-IsDistinct :
    {V : Type 0} (a : Bytes) (v : V) (d : Dict Bytes V) → IsDistinct d → IsDistinct (insert a v d)
insert-IsDistinct a v [] h = (refl, tt)
insert-IsDistinct a v ((b, w) ∷ d) (h, k) = ground (
  arith,
  lookup-insert a b v d,
  insert-IsDistinct a v d k,
  ==_refl a,
  bytes_beq_sound a b,
  bytes_beq_sound b a,
)

-- What the trie has of `k` after a commit, by the cached account of `k`.
abbrev pub flushed :
    {B : Type 0} (t : Trie (Stored B)) → t.Root → Bytes → Option (Account B) → Option (Stored B)
flushed t r k none = t.get r k
flushed t r k (some o) = if o.touched then some (stored o) else t.get r k

not_deleted : {B : Type 0} (blank : B) (d : Option (Stored B)) → (from_trie blank d).deleted ≡ false
unfolding from_trie
not_deleted blank none = refl
not_deleted blank (some d) = refl

insert-insert :
    {V : Type 0} (a : Bytes) (v w : V) (d : Dict Bytes V) → insert a v (insert a w d) ≡ insert a v d
insert-insert a v w [] = ground (arith, ==_refl a)
insert-insert a v w ((b, u) ∷ d) = ground (arith, insert-insert a v w d)

written_deleted : {B : Type 0} (f : Field B) (o : Account B) → (written f o).deleted ≡ o.deleted
unfolding set_attr
written_deleted (nonce n) o = refl
written_deleted (balance b) o = refl
written_deleted (touched v) o = refl

written_touched : {B : Type 0} (f : Field B) (o : Account B) → (written f o).touched ≡ true
unfolding set_attr
written_touched f o = refl

module _ {B H : Type 0} (t : Trie (Stored B)) (blank : B) where
  -- A cached account is listed once and not deleted; untouched, it is what the trie has.
  pub record IsCoherent (s : State B H t) : Type 0 where
    pub distinct : IsDistinct s.cache
    pub live : (a : Bytes) (o : Account B) → lookup a s.cache ≡ some o → o.deleted ≡ false
    pub clean :
        (a : Bytes) (o : Account B)
        → lookup a s.cache ≡ some o
        → o.touched ≡ false
        → stored o ≡ stored (on_disk t blank s.trie a)

  commit_account-trie :
      (e : Bool) (a k : Bytes) (o : Account B) (s : State B H t)
      → o.deleted ≡ false
      → t.get (commit_account t blank e a o s).trie k
        ≡ (if a == k then flushed t s.trie k (some o) else t.get s.trie k)
  unfolding commit_account
  commit_account-trie e a k o s h =
      ground (arith, t.get-update s.trie a k (stored o), bytes_beq_sound a k)

  commit_all-trie :
      (e : Bool) (k : Bytes) (c : Dict Bytes (Account B)) (s : State B H t)
      → IsDistinct c
      → ((a : Bytes) (o : Account B) → lookup a c ≡ some o → o.deleted ≡ false)
      → t.get (commit_all t blank e c s).trie k ≡ flushed t s.trie k (lookup k c)
  unfolding commit_all
  commit_all-trie e k [] s d h = refl
  commit_all-trie e k ((a, o) ∷ c) s (fresh, d) h =
      let s' = commit_account t blank e a o s in
      ground (
        arith,
        commit_all-trie e k c s' d (λ b q m. ground (arith, h b q, bytes_beq_sound a b)),
        commit_account-trie e a k o s (h a o (ground (arith, ==_refl a))),
        bytes_beq_sound a k,
      )

  -- In a coherent state, `commit` leaves in the trie, for each address, the cached account
  -- where it was touched, and what the trie had otherwise.
  pub commit-trie :
      (e : Bool) (k : Bytes) (s : State B H t)
      → IsCoherent s
      → t.get (commit t blank e s).trie k ≡ flushed t s.trie k (lookup k s.cache)
  unfolding commit
  commit-trie e k s h = commit_all-trie e k s.cache s h.distinct h.live

  peek-commit :
      (e : Bool) (k : Bytes) (s : State B H t)
      → peek t blank (commit t blank e s) k ≡ on_disk t blank (commit t blank e s).trie k
  unfolding peek commit
  peek-commit e k s = refl

  stored-flushed :
      (k : Bytes) (s : State B H t)
      → IsCoherent s
      → stored (from_trie blank (flushed t s.trie k (lookup k s.cache))) ≡ stored (peek t blank s k)
  unfolding peek from_trie stored
  stored-flushed k s h = elim (Option-cases (lookup k s.cache)) [
    | inl e ↦ ground arith
    | inr (o, e) ↦ ground (arith, h.clean k o e)
  ]

  -- In a coherent state, `commit` changes the nonce and the balance of no account.
  pub stored-commit :
      (e : Bool) (k : Bytes) (s : State B H t)
      → IsCoherent s
      → stored (peek t blank (commit t blank e s) k) ≡ stored (peek t blank s k)
  stored-commit e k s h = rw (peek-commit e k s) (rw (commit-trie e k s h) (stored-flushed k s h))

  pub commit-IsCoherent : (e : Bool) (s : State B H t) → IsCoherent (commit t blank e s)
  unfolding commit
  commit-IsCoherent e s = record { distinct = tt; live = λ a o q. cc; clean = λ a o q. cc }

  insert-IsCoherent :
      (a : Bytes) (o : Account B) (s s' : State B H t)
      → IsCoherent s
      → s'.trie ≡ s.trie
      → s'.cache ≡ insert a o s.cache
      → o.deleted ≡ false
      → (o.touched ≡ false → stored o ≡ stored (on_disk t blank s.trie a))
      → IsCoherent s'
  insert-IsCoherent a o s s' h ht hc hd hs = record {
    distinct = rw hc (insert-IsDistinct a o s.cache h.distinct);
    live = λ b q m. let m' = rw hc at m in ground (arith, lookup-insert a b o s.cache, h.live b q);
    clean = λ b q m f.
        let m' = rw hc at m in
        rw ht (ground (arith, lookup-insert a b o s.cache, bytes_beq_sound a b, h.clean b q));
  }

  pub get_and_cache-IsCoherent :
      (a : Bytes) (s : State B H t)
      → IsCoherent s
      → IsCoherent (get_and_cache_account t blank a s).1
  get_and_cache-IsCoherent a s h = elim (Option-cases (lookup a s.cache)) [
    | inl e ↦ rw (get_and_cache-miss t blank a s e) (
        insert-IsCoherent a (on_disk t blank s.trie a) s _ h refl refl
          (not_deleted blank (t.get s.trie a)) (λ _. refl))
    | inr (o, e) ↦ rw (get_and_cache-hit t blank a o s e) h
  ]

  write_field-IsCoherent :
      (a : Bytes) (f : Field B) (o : Account B) (s : State B H t)
      → lookup a s.cache ≡ some o
      → IsCoherent s
      → IsCoherent (write_field t blank a f s)
  write_field-IsCoherent a f o s e h =
      let s' = set_and_journal t blank a f s in
      let step1 = set_and_journal-cached t blank a f o s e in
      let step2 =
        set_and_journal-cached t blank a (touched true) (set_attr f o) s'
          (lookup-set_and_journal t blank a f o s e) in
      insert-IsCoherent a (written f o) s (write_field t blank a f s) h (rw step2 (rw step1))
        (rw step2 (rw step1 (insert-insert a (written f o) (set_attr f o) s.cache)))
        (written_deleted f o ∙ h.live a o e) (λ q. cc (written_touched f o))

  pub set_balance-IsCoherent :
      (a : Bytes) (b : B) (s : State B H t) → IsCoherent s → IsCoherent (set_balance t blank a b s)
  unfolding set_balance
  set_balance-IsCoherent a b s h =
      write_field-IsCoherent a (balance b) _ _ (lookup-get_and_cache t blank a s)
        (get_and_cache-IsCoherent a s h)

  pub increment_nonce-IsCoherent :
      (a : Bytes) (s : State B H t) → IsCoherent s → IsCoherent (increment_nonce t blank a s)
  unfolding increment_nonce
  increment_nonce-IsCoherent a s h =
      write_field-IsCoherent a (nonce ((get_and_cache_account t blank a s).0.nonce + 1)) _ _
        (lookup-get_and_cache t blank a s) (get_and_cache-IsCoherent a s h)
