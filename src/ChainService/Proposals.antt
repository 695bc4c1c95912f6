-- ===== src/ChainService/Proposals.antt =====
-- A block that is created comes right after the head, holds transactions of the pool, in their order
-- and of the one afi that its number asks for, and has a group key exactly when it needs one.
use blockchain_mapping_syste.Prelude.{
  ℕ, ◌+◌, ◌%◌, true, Option, none, some, List, [], ◌∷◌, Bytes, ◌≡◌, ◌≢◌, refl, ◌∙◌, inl, inr,
  Bool-cases, Result-cases, arith, nat_beq, Result, ok, err,
}
use blockchain_mapping_syste.Prelude.Hoare.{Ensures, Ensures->>=, Ensures-lift}
use blockchain_mapping_syste.Transaction.{Transaction}
use blockchain_mapping_syste.Block.{Block}
use blockchain_mapping_syste.Apply.{Platform, ChainState, Work, apply_transaction}
use blockchain_mapping_syste.Chain.{Formats, process_time_queue}
use blockchain_mapping_syste.Chain.Draining.{process_time_queue-none}
use blockchain_mapping_syste.ChainService.{
  Service, Proposal, no_group_key, afi_of_number, check_afi, to_snapshot, clone, select, replay,
  create_tries, header_group_key, draft, propose, create_block, on_chain,
}

-- Some of the transactions of a list, in its order.
pub data Picked : List Transaction → List Transaction → Type 0 where
  end : Picked [] []
  take : {l l' : List Transaction} (x : Transaction) → Picked l l' → Picked (x ∷ l) (x ∷ l')
  skip : {l l' : List Transaction} (x : Transaction) → Picked l l' → Picked (x ∷ l) l'

module _ (p : Platform) (f : Formats p) where
  -- What `select` takes: in order, and of the right afi.
  pub record IsSelection (number : ℕ) (pool l : List Transaction) : Type 0 where
    pub picked : Picked pool l
    pub suited : check_afi p f number l ≡ ok tt

  add_one :
      (number : ℕ) (x : Transaction) (pool l : List Transaction)
      → nat_beq x.afi (afi_of_number p f number) ≡ true
      → IsSelection number pool l
      → IsSelection number (x ∷ pool) (x ∷ l)
  unfolding check_afi
  add_one number x pool l e k = record { picked = take x k.picked; suited = rw e k.suited }

  pass_over :
      (number : ℕ) (x : Transaction) (pool l : List Transaction)
      → IsSelection number pool l
      → IsSelection number (x ∷ pool) l
  pass_over number x pool l k = record { picked = skip x k.picked; suited = k.suited }

  select-IsSelection :
      (number : ℕ) (pool : List Transaction) (s : ChainState p)
      → IsSelection number pool (select p f number pool s)
  unfolding select check_afi
  select-IsSelection number [] s = record { picked = end; suited = refl }
  select-IsSelection number (x ∷ pool) s =
      let w : Work p = record { state = s; cached = [] } in
      let q = apply_transaction p x w in
      let with = select-IsSelection number pool q.1.state in
      elim (Bool-cases (nat_beq x.afi (afi_of_number p f number))) [
        | inr e ↦ rw e (pass_over number x pool _ (select-IsSelection number pool s))
        | inl e ↦ elim (Result-cases q.0) [
          | inl (_, h) ↦ rw (e, h, select) (add_one number x pool _ e with)
          | inr (_, h) ↦ rw (e, h, select) (pass_over number x pool _ with)
        ]
      ]

  -- The group key of a header: one that is not blank in a block that renews it, and the mark of none
  -- in any other.
  abbrev pub HasGroupKey : ℕ → ℕ → Bytes → Type 0
  HasGroupKey interval number key =
      (number % interval ≡ 0 → key ≢ []) × (number % interval ≢ 0 → key ≡ no_group_key)

  group_key-lem :
      (interval number : ℕ) (k : Option Bytes) (key : Bytes)
      → header_group_key p f interval number k ≡ ok key
      → HasGroupKey interval number key
  unfolding header_group_key
  group_key-lem interval number none key h = ground arith
  group_key-lem interval number (some []) key h = ground arith
  group_key-lem interval number (some (x ∷ k)) key h = ground arith

  -- Only the two roots are written.
  pub record SameButRoots (b b' : Block) : Type 0 where
    pub prevhash : b'.header.prevhash ≡ b.header.prevhash
    pub number : b'.header.number ≡ b.header.number
    pub timestamp : b'.header.timestamp ≡ b.header.timestamp
    pub group_key : b'.header.group_pubkey ≡ b.header.group_pubkey
    pub transactions : b'.transactions ≡ b.transactions

  create_tries-SameButRoots :
      (b b' : Block) (s : ChainState p) → (create_tries p f b s).0 ≡ ok b' → SameButRoots b b'
  unfolding create_tries
  create_tries-SameButRoots b b' s h = elim (Result-cases (clone p f (to_snapshot p f s).1)) [
    | inr (e, x) ↦ let h' : err e ≡ ok b' = rw (x, create_tries) at h in cc
    | inl (temp, x) ↦ elim (Result-cases (replay p f b.transactions temp)) [
      | inr (e, y) ↦ let h' : err e ≡ ok b' = rw (x, y, create_tries) at h in cc
      | inl (last, y) ↦
          let h' : ok (record b {
            header = record b.header {
              tx_root = p.mk_transaction_sha b.transactions;
              state_root = f.hash_of_root last.trie;
            };
          })
              ≡ ok b' =
            rw (x, y, create_tries) at h in
          record { prevhash = cc; number = cc; timestamp = cc; group_key = cc; transactions = cc }
    ]
  ]

  pub record IsProposal (interval now : ℕ) (v : Service p) (b : Block) : Type 0 where
    pub follows : b.header.prevhash ≡ v.chain.head_hash
    pub number : b.header.number ≡ v.chain.state.vars.block_number + 1
    pub timestamp : b.header.timestamp ≡ now
    pub group_key : HasGroupKey interval b.header.number b.header.group_pubkey
    pub selection : IsSelection b.header.number v.pool b.transactions

  -- What does not depend on the state is not lost.
  fact : {A F : Type 0} {m : Service p → Result A × Service p} → Ensures (λ _. F) m (λ _ _. F)
  fact = record { ensures = λ s h a e. h }

  IsProposal-of :
      (interval now : ℕ) (v : Service p) (b b' : Block)
      → IsProposal interval now v b
      → SameButRoots b b'
      → IsProposal interval now v b'
  IsProposal-of interval now v b b' k r = record {
    follows = r.prevhash ∙ k.follows;
    number = r.number ∙ k.number;
    timestamp = r.timestamp ∙ k.timestamp;
    group_key = rw (r.number, r.group_key) k.group_key;
    selection = rw (r.number, r.transactions) k.selection;
  }

  propose-IsProposal :
      (interval now : ℕ) (a : Proposal) (v : Service p)
      → Ensures (λ w. w ≡ v) (propose p f interval now a) (λ b _. IsProposal interval now v b)
  unfolding propose draft
  propose-IsProposal interval now a v =
      Ensures->>= (λ w _. w ≡ v) (record { ensures = λ s h w e. cc })
        (λ w.
          let number = w.chain.state.vars.block_number + 1 in
          Ensures->>= (λ _ _. w ≡ v) fact
            (λ coinbase.
              Ensures->>=
                (λ key _. (header_group_key p f interval number a.group_key ≡ ok key) × (w ≡ v))
                Ensures-lift
                (λ key. Ensures->>= _ fact (λ random. Ensures->>= _ fact (λ dump.
                  Ensures->>= _ fact (λ s. record {
                    ensures = λ t h b e. rw (← h.1) (
                        IsProposal-of interval now w (draft p f now coinbase random key a w s) b
                          (record {
                            follows = refl;
                            number = refl;
                            timestamp = refl;
                            group_key = group_key-lem interval number a.group_key key h.0;
                            selection = select-IsSelection number w.pool s;
                          })
                          (create_tries-SameButRoots (draft p f now coinbase random key a w s) b
                            t.chain.state e));
                  }))))))

  -- A block that `create_block` returns has the head as its parent, the next number and the
  -- present time, a group key exactly when its number is a multiple of the renewal interval and
  -- the text 0x00 otherwise, and transactions which are, in their order, some of the pool, all
  -- of the address family of the number's parity.
  pub create_block-IsProposal :
      (interval depth now : ℕ) (a : Proposal) (v : Service p) (b : Block)
      → (create_block p f interval depth now a v).0 ≡ ok b
      → IsProposal interval now v b
  unfolding create_block
  create_block-IsProposal interval depth now a v b h =
      let v' : Service p = record v { chain = record v.chain { localtime = now } } in
      let z = process_time_queue-none p f depth now v.chain in
      let first : Ensures (λ w. w ≡ v) (on_chain p f (process_time_queue p f depth now none))
          (λ _ w. w ≡ v') =
        record { ensures = λ s k r e. rw (k, z) refl } in
      let k =
        (Ensures->>= (λ _ w. w ≡ v') first (λ _. propose-IsProposal interval now a v')).ensures v
          refl b h in
      record {
        follows = k.follows;
        number = k.number;
        timestamp = k.timestamp;
        group_key = k.group_key;
        selection = k.selection;
      }
