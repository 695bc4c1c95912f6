-- ===== src/Chain/Refusing.antt =====
-- A block that `add_block` does not add changes nothing but caches and the queue of early blocks.
use blockchain_mapping_syste.Prelude.{
  ℕ, suc, ◌<◌, false, Bytes, ◌≡◌, refl, ◌∙◌, Bool, inl, inr, ◌⊎◌, Result, ok,
}
use blockchain_mapping_syste.State.{get_and_cache_account}
use blockchain_mapping_syste.State.Journal.{SameButCache, get_and_cache-SameButCache}
use blockchain_mapping_syste.State.Peek.{peek, peek-get_and_cache}
use blockchain_mapping_syste.Block.{Block}
use blockchain_mapping_syste.Apply.{Platform, ChainState, blank, validate_block}
use blockchain_mapping_syste.Apply.Invariants.{validate_block-Keeps}
use blockchain_mapping_syste.Chain.{Formats, Chain, insert_by_time, add_block}
use blockchain_mapping_syste.Chain.Sync.{IsSynced}
use blockchain_mapping_syste.Chain.Adding.{
  Outcome, invalid, early, failed, added, add_block-Outcome,
}

module _ (p : Platform) where
  -- The states say the same: only what is cached may differ.
  pub record SaysSame (s s' : ChainState p) : Type 0 where
    pub same : SameButCache p.trie (blank p) s s'
    pub accounts : (k : Bytes) → peek p.trie (blank p) s' k ≡ peek p.trie (blank p) s k

  read-SaysSame :
      (s : ChainState p) (a : Bytes) (s' : ChainState p)
      → SaysSame s s'
      → SaysSame s (get_and_cache_account p.trie (blank p) a s').1
  read-SaysSame s a s' h =
      let k = get_and_cache-SameButCache p.trie (blank p) a s' in
      record {
        same = record {
          trie = k.trie ∙ h.same.trie;
          vars = k.vars ∙ h.same.vars;
          journal = k.journal ∙ h.same.journal;
          changed = k.changed ∙ h.same.changed;
        };
        accounts = λ j. peek-get_and_cache p.trie (blank p) a j s' ∙ h.accounts j;
      }

  pub validate_block-SaysSame : (b : Block) (s : ChainState p) → SaysSame s (validate_block p b s).1
  validate_block-SaysSame b s =
      (validate_block-Keeps p (SaysSame s) (read-SaysSame s) b).keeps s (record {
        same = record { trie = refl; vars = refl; journal = refl; changed = refl };
        accounts = λ k. refl;
      })

module _ (p : Platform) (f : Formats p) where
  -- The chain `c'` after a block `b` was left out of the chain `c`.
  pub record IsRefused (now : ℕ) (b : Block) (c c' : Chain p) : Type 0 where
    pub state : SaysSame p c.state c'.state
    pub db : c'.db ≡ c.db
    pub head : c'.head_hash ≡ c.head_hash
    pub tree : c'.patricia ≡ c.patricia
    pub parents : c'.parent_queue ≡ c.parent_queue
    pub times :
        (c'.time_queue ≡ c.time_queue)
        ⊎ ((now < b.header.timestamp) × (c'.time_queue ≡ insert_by_time b c.time_queue))

  IsRefused-of :
      (now : ℕ) (b : Block) (c : Chain p) (q : Result Bool × Chain p)
      → Outcome p f now b c q
      → q.0 ≡ ok false
      → IsRefused now b c q.1
  IsRefused-of now b c q invalid h = record {
    state = validate_block-SaysSame p b c.state;
    db = refl;
    head = refl;
    tree = refl;
    parents = refl;
    times = inl refl;
  }
  IsRefused-of now b c q (early late) h = record {
    state = validate_block-SaysSame p b c.state;
    db = refl;
    head = refl;
    tree = refl;
    parents = refl;
    times = inr (late, refl);
  }
  IsRefused-of now b c q (failed e c' x) h = cc
  IsRefused-of now b c q (added c' due on x) h = cc

  -- From a synced chain, when `add_block` returns false, the database, the head, the patricia
  -- tree and the parent queue are as before, and every account and the block variables read as
  -- before. The time queue is as before too, or the block is later than the clock and has been
  -- put into it.
  pub add_block-IsRefused :
      (depth now : ℕ) (b : Block) (c : Chain p)
      → IsSynced p f c
      → (add_block p f (suc depth) now b c).0 ≡ ok false
      → IsRefused now b c (add_block p f (suc depth) now b c).1
  add_block-IsRefused depth now b c k h =
      IsRefused-of now b c _ (add_block-Outcome p f depth now b c k) h
