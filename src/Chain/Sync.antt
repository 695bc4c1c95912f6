-- ===== src/Chain/Sync.antt =====
-- The head of the chain is the last header of the state, so a block that is validated is one on the
-- head: no block ever waits for its parent, and none is added to a side chain.
use blockchain_mapping_syste.Prelude.{
  ℕ, true, List, [], ◌∷◌, Bytes, bytes_eq, ==_refl, ◌==◌, ◌≡◌, refl, ◌∙◌, inl, inr, arith,
  Result-cases, Result, Error, ok, err,
}
use blockchain_mapping_syste.Block.{Block, PrevHeader, prev_header}
use blockchain_mapping_syste.Apply.{Platform, ChainState, apply_block}
use blockchain_mapping_syste.Apply.Invariants.{validate_block-Keeps}
use blockchain_mapping_syste.Chain.{
  Formats, Chain, hash_of, forget_changed, extend_head, record_block, add_child, add_block,
}
use blockchain_mapping_syste.Chain.Invariants.{
  validated, IsValidated, IsChainInvariant, add_block-Keeps,
}
use blockchain_mapping_syste.Chain.TimeQueue.{extend_head-SameQueues, record_block-SameQueues}
use blockchain_mapping_syste.Chain.Headers.{
  HasHeaders, Follows, headers, validate_block-Follows, apply_block-Headed,
}

-- The first header of the list, if there is one, has the hash `h`.
abbrev pub IsFirst : Bytes → List PrevHeader → Type 0
IsFirst h [] = Unit
IsFirst h (x ∷ _) = x.hash ≡ h

module _ (p : Platform) (f : Formats p) where
  -- The head is the last header of the state, and no block waits for its parent.
  pub record IsSynced (c : Chain p) : Type 0 where
    pub first : IsFirst c.head_hash c.state.vars.prev_headers
    pub unqueued : c.parent_queue ≡ []

  pub first_of : (h : Bytes) (hs hs' : List PrevHeader) → hs' ≡ hs → IsFirst h hs → IsFirst h hs'
  first_of h hs hs' e k = rw e k

  validated-first :
      (b : Block) (c : Chain p)
      → IsFirst c.head_hash c.state.vars.prev_headers
      → IsFirst c.head_hash (validated p f b c).state.vars.prev_headers
  validated-first b c k =
      let hs = c.state.vars.prev_headers in
      first_of c.head_hash hs (validated p f b c).state.vars.prev_headers
        ((validate_block-Keeps p (HasHeaders p hs) (headers p hs).stable.reads b).keeps c.state
          refl)
        k

  -- What `apply_block` makes of a chain.
  abbrev pub applied : Block → Chain p → Result (Unit {0}) × ChainState p × p.Tree
  applied b c = apply_block p b (forget_changed p f c.state) c.patricia

  pub extend_head-state :
      (b : Block) (c : Chain p) → (extend_head p f b c).1.state ≡ (applied b c).1
  unfolding extend_head
  extend_head-state b c = ground arith

  head_moved :
      (b : Block) (c : Chain p)
      → (applied b c).0 ≡ ok tt
      → (extend_head p f b c).1.head_hash ≡ hash_of p f b
  unfolding extend_head
  head_moved b c h = ground arith

  head_stays :
      (b : Block) (c : Chain p) (e : Error)
      → (applied b c).0 ≡ err e
      → (extend_head p f b c).1.head_hash ≡ c.head_hash
  unfolding extend_head
  head_stays b c e h = ground arith

  extend_head-first :
      (b : Block) (c : Chain p)
      → IsFirst c.head_hash c.state.vars.prev_headers
      → IsFirst (extend_head p f b c).1.head_hash (extend_head p f b c).1.state.vars.prev_headers
  unfolding prev_header
  extend_head-first b c k =
      let headed = apply_block-Headed p b (forget_changed p f c.state) c.patricia in
      let hs' = (applied b c).1.vars.prev_headers in
      elim (Result-cases (applied b c).0) [
        | inr (e, h) ↦
            rw (extend_head-state b c, head_stays b c e h)
              (first_of c.head_hash c.state.vars.prev_headers hs' (headed.refused e h) k)
        | inl (_, h) ↦
            rw (extend_head-state b c, head_moved b c h)
              (first_of (hash_of p f b)
                (prev_header p.header_hash b.header ∷ c.state.vars.prev_headers) hs'
                (headed.added h) refl)
      ]

  record_block-head : (b : Block) (c : Chain p) → (record_block p f b c).head_hash ≡ c.head_hash
  unfolding record_block add_child
  record_block-head b c = ground arith

  record_block-first :
      (b : Block) (c : Chain p)
      → IsFirst c.head_hash c.state.vars.prev_headers
      → IsFirst (record_block p f b c).head_hash (record_block p f b c).state.vars.prev_headers
  unfolding record_block add_child
  record_block-first b c k = rw (record_block-head b c) k

  Follows-first :
      (h : Bytes) (b : Block) (hs : List PrevHeader)
      → IsFirst h hs
      → Follows p b hs
      → b.header.prevhash ≡ h
  Follows-first h b [] k w = absurd w
  Follows-first h b (x ∷ hs) k w = w ∙ k

  -- A block that is validated is one on the head.
  pub on_head :
      (b : Block) (c : Chain p) → IsSynced c → IsValidated p f b c → b.header.prevhash ≡ c.head_hash
  on_head b c k v =
      Follows-first c.head_hash b c.state.vars.prev_headers k.first
        ((validate_block-Follows p c.state.vars.prev_headers b).ensures c.state refl tt v)

  pub synced : IsChainInvariant p f IsSynced
  synced = record {
    validates = λ b c k. record { first = validated-first b c k.first; unqueued = k.unqueued };
    delays = λ b c k. record { first = k.first; unqueued = k.unqueued };
    extends = λ b c k. record {
      first = extend_head-first b c k.first;
      unqueued = (extend_head-SameQueues p f b c).parents ∙ k.unqueued;
    };
    records = λ b c k. record {
      first = record_block-first b c k.first;
      unqueued = (record_block-SameQueues p f b c).parents ∙ k.unqueued;
    };
    waits = λ b c k v e.
        let h : (b.header.prevhash == c.head_hash) ≡ true =
          rw (on_head b c k v) (==_refl c.head_hash) in
        cc;
    releases = λ h c k. record { first = k.first; unqueued = rw k.unqueued refl };
  }

  -- Whatever block comes and whether `add_block` returns or raises: where the head is the first
  -- of the state's headers and no block waits for its parent, it is so after the call.
  pub add_block-IsSynced :
      (depth now : ℕ) (b : Block) (c : Chain p)
      → IsSynced c
      → IsSynced (add_block p f depth now b c).1
  add_block-IsSynced depth now b c k = (add_block-Keeps p f IsSynced synced depth now b).keeps c k
