-- ===== src/State.antt =====
-- state.py with account.py: accounts over a trie, a cache of account objects, and a journal of
-- undo steps. An account object is reached through the cache alone, under its address, and cache
-- and journal are emptied together, so an undo step names the address of the object that it writes.
-- A pickled balance is the balance itself. Contract storage (`storage_cache`, `code`), which no
-- caller uses, is left out.
pub mod Peek
pub mod Journal
pub mod Revert
pub mod Commit
use blockchain_mapping_syste.Prelude.{
  ℕ, suc, ◌+◌, Bool, true, false, not, ◌&&◌, ◌||◌, Option, none, some, List, [], ◌∷◌, Bytes,
  bytes_eq, ◌==◌, length, replicate, ltb, nat_beq, if◌then◌else◌, Result, ok, err, assertion_error,
  ◌>>=◌,
}
use blockchain_mapping_syste.Prelude.Dict.{Dict, lookup, insert, erase}
use blockchain_mapping_syste.Trie.{Trie}

-- The fields of an account that its RLP encoding holds.
pub record Stored (B : Type 0) : Type 0 where
  pub nonce : ℕ
  pub balance : B

pub record Account (B : Type 0) : Type 0 where
  pub nonce : ℕ
  pub balance : B
  pub touched : Bool
  pub existent_at_start : Bool
  pub deleted : Bool

-- A value for an attribute, as `setattr` takes it.
pub data Field (B : Type 0) : Type 0 where
  nonce : ℕ → Field B
  balance : B → Field B
  touched : Bool → Field B

-- The attributes that `STATE_DEFAULTS` names.
pub record Vars (H : Type 0) : Type 0 where
  pub txindex : ℕ
  pub block_number : ℕ
  pub block_coinbase : Bytes
  pub timestamp : ℕ
  pub prev_headers : List H

-- `BLANK_HASH`, the hash of the empty string.
abbrev blank_hash : Bytes
blank_hash =
    197 ∷ 210 ∷ 70 ∷ 1 ∷ 134 ∷ 247 ∷ 35 ∷ 60 ∷ 146 ∷ 126 ∷ 125 ∷ 178 ∷ 220 ∷ 199 ∷ 3 ∷ 192 ∷ 229 ∷ 0
    ∷ 182 ∷ 83 ∷ 202 ∷ 130 ∷ 39 ∷ 59 ∷ 123 ∷ 250 ∷ 216 ∷ 4 ∷ 93 ∷ 133 ∷ 164 ∷ 112 ∷ []

-- `env.db.put(BLANK_HASH, b'')`, where the trie has no entry for the account.
unfoldable pub put_blank : {A : Type 0} → Option A → Dict Bytes Bytes → Dict Bytes Bytes
put_blank none db = insert blank_hash [] db
put_blank (some _) db = db

module _ (B H : Type 0) (t : Trie (Stored B)) where
  -- `trie` is the root hash. The last undo step comes first in `journal`.
  pub record State : Type 0 where
    pub trie : t.Root
    pub vars : Vars H
    pub journal : List (Bytes × Field B)
    pub cache : Dict Bytes (Account B)
    pub changed : Dict Bytes Bool
    pub executing_on_head : Bool
    -- The entries of the database under `b'address:'`.
    pub addresses : Dict Bytes (Stored B)
    -- What the object, or the one that it was copied from, has put into `env.db` for blank accounts.
    pub env_db : Dict Bytes Bytes

  pub record Snapshot : Type 0 where
    pub root : t.Root
    pub depth : ℕ
    pub aux : Vars H

module _ {B : Type 0} where
  unfoldable pub set_attr : Field B → Account B → Account B
  set_attr (nonce n) o = record o { nonce = n }
  set_attr (balance b) o = record o { balance = b }
  set_attr (touched v) o = record o { touched = v }

  -- `getattr(acct, param)`, for the parameter of the new value.
  unfoldable pub get_attr : Field B → Account B → Field B
  get_attr (nonce _) o = nonce o.nonce
  get_attr (balance _) o = balance o.balance
  get_attr (touched _) o = touched o.touched

  -- `Account.blank_account`, but for the write of the database.
  unfoldable pub blank_account : B → Account B
  blank_account b = record {
    nonce = 0;
    balance = b;
    touched = false;
    existent_at_start = false;
    deleted = false;
  }

  -- `rlp.decode(rlpdata, Account)`, or a blank account where the trie has no entry.
  unfoldable pub from_trie : B → Option (Stored B) → Account B
  unfolding blank_account
  from_trie b none = blank_account b
  from_trie b (some d) = record {
    nonce = d.nonce;
    balance = d.balance;
    touched = false;
    existent_at_start = true;
    deleted = false;
  }

  unfoldable pub account_exists : Account B → Bool
  account_exists o =
      if o.deleted && not o.touched then false else if o.touched then true else o.existent_at_start

  unfoldable pub stored : Account B → Stored B
  stored o = record { nonce = o.nonce; balance = o.balance }

  -- The call of one undo step.
  unfoldable pub undo : Bytes × Field B → Dict Bytes (Account B) → Dict Bytes (Account B)
  unfolding set_attr
  undo (a, f) c = elim (lookup a c) [ none ↦ c | some o ↦ insert a (set_attr f o) c ]

  -- The loop `while len(self.journal) > L` of `revert`.
  unfoldable pub unwind :
      ℕ
      → List (Bytes × Field B)
      → Dict Bytes (Account B)
      → List (Bytes × Field B) × Dict Bytes (Account B)
  unfolding undo
  unwind l [] c = ([], c)
  unwind l (u ∷ j) c =
      let rest = unwind l j (undo u c) in if ltb l (suc (length j)) then rest else (u ∷ j, c)

module _ {B H : Type 0} (t : Trie (Stored B)) (blank : B) where
  -- `State(env)`
  abbrev pub init : State B H t
  init = record {
    trie = t.blank;
    vars = record {
      txindex = 0;
      block_number = 0;
      block_coinbase = replicate 20 0;
      timestamp = 0;
      prev_headers = [];
    };
    journal = [];
    cache = [];
    changed = [];
    executing_on_head = false;
    addresses = [];
    env_db = [];
  }

  unfoldable pub get_and_cache_account : Bytes → State B H t → Account B × State B H t
  unfolding from_trie put_blank
  get_and_cache_account a s = elim (lookup a s.cache) [
    | some o ↦ (o, s)
    | none ↦
        let d = t.get s.trie a in
        let o = from_trie blank d in
        (o, record s { cache = insert a o s.cache; env_db = put_blank d s.env_db })
  ]

  unfoldable pub get_balance : Bytes → State B H t → B × State B H t
  unfolding get_and_cache_account
  get_balance a s = let (o, s') = get_and_cache_account a s in (o.balance, s')

  unfoldable pub get_nonce : Bytes → State B H t → ℕ × State B H t
  unfolding get_and_cache_account
  get_nonce a s = let (o, s') = get_and_cache_account a s in (o.nonce, s')

  -- Of the cached account of `a`; there is one, since each caller has just cached it.
  unfoldable pub set_and_journal : Bytes → Field B → State B H t → State B H t
  unfolding set_attr get_attr
  set_and_journal a f s = elim (lookup a s.cache) [
    | none ↦ s
    | some o ↦ record s {
      journal = (a, get_attr f o) ∷ s.journal;
      cache = insert a (set_attr f o) s.cache;
    }
  ]

  unfoldable pub set_balance : Bytes → B → State B H t → State B H t
  unfolding get_and_cache_account set_and_journal
  set_balance a b s =
      set_and_journal a (touched true) (set_and_journal a (balance b) (get_and_cache_account a s).1)

  unfoldable pub set_nonce : Bytes → ℕ → State B H t → State B H t
  unfolding get_and_cache_account set_and_journal
  set_nonce a n s =
      set_and_journal a (touched true) (set_and_journal a (nonce n) (get_and_cache_account a s).1)

  unfoldable pub increment_nonce : Bytes → State B H t → State B H t
  unfolding get_and_cache_account set_and_journal
  increment_nonce a s =
      let (o, s') = get_and_cache_account a s in
      set_and_journal a (touched true) (set_and_journal a (nonce (o.nonce + 1)) s')

  -- The body of the loop of `commit`. `executing_on_head` writes the database too.
  unfoldable pub commit_account : Bool → Bytes → Account B → State B H t → State B H t
  unfolding account_exists stored
  commit_account allow_empties a o s =
      if o.touched || o.deleted
      then if account_exists o || allow_empties
        then record s {
          changed = insert a true s.changed;
          trie = t.update s.trie a (stored o);
          addresses = if s.executing_on_head then insert a (stored o) s.addresses else s.addresses;
        }
        else record s {
          changed = insert a true s.changed;
          trie = t.delete s.trie a;
          addresses = if s.executing_on_head then erase a s.addresses else s.addresses;
        }
      else s

  unfoldable pub commit_all : Bool → Dict Bytes (Account B) → State B H t → State B H t
  unfolding commit_account
  commit_all allow_empties [] s = s
  commit_all allow_empties ((a, o) ∷ c) s =
      commit_all allow_empties c (commit_account allow_empties a o s)

  unfoldable pub commit : Bool → State B H t → State B H t
  unfolding commit_all
  commit allow_empties s = record (commit_all allow_empties s.cache s) { cache = []; journal = [] }

  unfoldable pub snapshot : State B H t → Snapshot B H t
  snapshot s = record { root = s.trie; depth = length s.journal; aux = s.vars }

  -- The state comes back beside the failed assertion too.
  unfoldable pub revert : Snapshot B H t → State B H t → Result (Unit {0}) × State B H t
  unfolding unwind
  revert p s =
      let (j, c) = unwind p.depth s.journal s.cache in
      if t.root_eq.beq p.root s.trie
      then (ok tt, record s { journal = j; cache = c; vars = p.aux })
      else if nat_beq p.depth 0
      then (ok tt, record s { journal = j; cache = []; trie = p.root; vars = p.aux })
      else (err assertion_error, record s { journal = j; cache = c })

  unfoldable pub add_block_header : H → State B H t → State B H t
  add_block_header h s = record s {
    vars = record s.vars { prev_headers = h ∷ s.vars.prev_headers };
  }
