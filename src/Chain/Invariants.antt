-- ===== src/Chain/Invariants.antt =====
-- What holds of the chain through `add_block` and `process_time_queue`, whether they return or raise.
use blockchain_mapping_syste.Prelude.{
  ℕ, zero, suc, true, false, Option, none, some, List, [], ◌∷◌, Bytes, bytes_eq, ◌==◌, ◌≡◌, inl,
  inr, ltb, length, get_elem?, ok, Bool, Bool-cases, Option-cases, Result-cases,
}
use blockchain_mapping_syste.Prelude.Exec.{Exec, pure, modify, ◌>>◌}
use blockchain_mapping_syste.Prelude.Hoare.{Keeps, Keeps->>=, Keeps-lift, Keeps-call}
use blockchain_mapping_syste.Prelude.Dict.{erase, has_key, lookup}
use blockchain_mapping_syste.Block.{Block}
use blockchain_mapping_syste.Apply.{Platform, validate_block}
use blockchain_mapping_syste.Chain.{
  Formats, Chain, insert_by_time, remove_at, hash_of, extend_head, record_block, add_each, release,
  wait_for_parent, add_to_side, place_block, add_block, is_due, drain, process_time_queue,
  mk_poststate_of_blockhash,
}

module _ (p : Platform) (f : Formats p) where
  -- The chain after the validation of `b`.
  abbrev pub validated : Block → Chain p → Chain p
  validated b c = record c { state = (validate_block p b c.state).1 }

  abbrev pub IsValidated : Block → Chain p → Type 0
  IsValidated b c = (validate_block p b c.state).0 ≡ ok tt

  -- A property that each step of `add_block` keeps.
  pub record IsChainInvariant (P : Chain p → Type 0) : Type 0 where
    pub validates : (b : Block) (c : Chain p) → P c → P (validated b c)
    pub delays :
        (b : Block) (c : Chain p)
        → P c
        → P (record c { time_queue = insert_by_time b c.time_queue })
    pub extends : (b : Block) (c : Chain p) → P c → P (extend_head p f b c).1
    pub records : (b : Block) (c : Chain p) → P c → P (record_block p f b c)
    pub waits :
        (b : Block) (c : Chain p)
        → P c
        → IsValidated b c
        → (b.header.prevhash == c.head_hash) ≡ false
        → P (wait_for_parent p f b (validated b c))
    pub releases :
        (h : Bytes) (c : Chain p) → P c → P (record c { parent_queue = erase h c.parent_queue })

  module _ (P : Chain p → Type 0) (i : IsChainInvariant P) where
    add_each-Keeps :
        (add : Block → Exec (Chain p) Bool) (l : List Block)
        → ((b : Block) → Keeps P (add b))
        → Keeps P (add_each p f add l)
    unfolding add_each
    add_each-Keeps add [] k = Keeps-lift
    add_each-Keeps add (b ∷ l) k = Keeps->>= (k b) (λ _. add_each-Keeps add l k)

    release-Keeps :
        (add : Block → Exec (Chain p) Bool) (h : Bytes)
        → ((b : Block) → Keeps P (add b))
        → Keeps P (release p f add h)
    unfolding release
    release-Keeps add h k = record {
      keeps = λ c q. elim (Option-cases (lookup h c.parent_queue)) [
        | inl e ↦ rw (e, release) q
        | inr (l, e) ↦
            let k' = Keeps->>= (add_each-Keeps add l k) (λ _.
              Keeps->>= (Keeps-call (λ c' q'. q'))
                (λ c'. Keeps->>= Keeps-lift (λ _. Keeps-call (λ c'' q''. i.releases h c'' q'')))) in
            rw (e, release) (k'.keeps c q)
      ];
    }

    add_to_side-Keeps : (b : Block) → Keeps P (add_to_side p f b)
    unfolding add_to_side
    add_to_side-Keeps b = record {
      keeps = λ c q. elim (Result-cases (mk_poststate_of_blockhash p f b.header.prevhash c)) [
        | inl (s, e) ↦ rw (e, add_to_side) q
        | inr (x, e) ↦ rw (e, add_to_side) q
      ];
    }

    extend-Keeps :
        (add : Block → Exec (Chain p) Bool) (b : Block)
        → ((x : Block) → Keeps P (add x))
        → Keeps P (do
          extend_head p f b
          modify (record_block p f b)
          release p f add (hash_of p f b)
          pure true)
    extend-Keeps add b k =
        Keeps->>= (record { keeps = i.extends b })
          (λ _.
            Keeps->>= (Keeps-call (i.records b))
              (λ _. Keeps->>= (release-Keeps add _ k) (λ _. Keeps-lift)))

    place_block-Keeps :
        (add : Block → Exec (Chain p) Bool) (now : ℕ) (b : Block) (c : Chain p)
        → ((x : Block) → Keeps P (add x))
        → P c
        → IsValidated b c
        → P (place_block p f add now b (validated b c)).1
    unfolding place_block
    place_block-Keeps add now b c k q v = elim (Bool-cases (ltb now b.header.timestamp)) [
      | inl late ↦ rw late (i.delays b _ (i.validates b c q))
      | inr due ↦ elim (Bool-cases (b.header.prevhash == c.head_hash)) [
        | inl e ↦ rw (due, e) ((extend-Keeps add b k).keeps _ (i.validates b c q))
        | inr e ↦ elim (Bool-cases (has_key b.header.prevhash c.db)) [
          | inl known ↦ rw (due, e, known) ((add_to_side-Keeps b).keeps _ (i.validates b c q))
          | inr unknown ↦ rw (due, e, unknown) (i.waits b c q v e)
        ]
      ]
    ]

    pub add_block-Keeps : (depth now : ℕ) (b : Block) → Keeps P (add_block p f depth now b)
    unfolding add_block
    add_block-Keeps zero now b = record { keeps = λ c q. q }
    add_block-Keeps (suc depth) now b = record {
      keeps = λ c q. elim (Result-cases (validate_block p b c.state).0) [
        | inl (u, e) ↦
            rw (e, add_block)
              (place_block-Keeps (add_block p f depth now) now b c (add_block-Keeps depth now) q e)
        | inr (x, e) ↦ rw (e, add_block) (i.validates b c q)
      ];
    }

    module _
        (pops : (j : ℕ) (c : Chain p)
          → P c
          → P (record c { time_queue = remove_at j c.time_queue })) where
      pub drain-Keeps :
          (fuel depth now : ℕ) (t : Option ℕ) (j : ℕ) → Keeps P (drain p f fuel depth now t j)
      unfolding drain
      drain-Keeps zero depth now t j = record { keeps = λ c q. q }
      drain-Keeps (suc fuel) depth now t j = record {
        keeps = λ c q. elim (Option-cases (get_elem? c.time_queue j)) [
          | inl e ↦ rw (e, drain) q
          | inr (b, e) ↦ elim (Bool-cases (is_due p f t b)) [
            | inr e' ↦ rw (e, e', drain) q
            | inl e' ↦
                let k = Keeps->>= (add_block-Keeps depth now b) (λ _.
                  Keeps->>= (Keeps-call (λ c' q'. q')) (λ c'. drain-Keeps fuel depth now t _)) in
                rw (e, e', drain) (k.keeps _ (pops j c q))
          ]
        ];
      }

      pub process_time_queue-Keeps :
          (depth now : ℕ) (t : Option ℕ)
          → ((n : ℕ) (c : Chain p) → P c → P (record c { localtime = n }))
          → Keeps P (process_time_queue p f depth now t)
      unfolding process_time_queue
      process_time_queue-Keeps depth now t k = record {
        keeps = λ c q.
            let n = elim t as (λ _. ℕ) [ none ↦ now | some m ↦ m ] in
            (drain-Keeps (suc (length c.time_queue)) depth now t 0).keeps
              (record c { localtime = n }) (k n c q);
      }
