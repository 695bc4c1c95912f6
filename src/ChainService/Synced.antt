-- ===== src/ChainService/Synced.antt =====
-- Every method of the chain service leaves a synced chain synced.
use blockchain_mapping_syste.Prelude.{
  ℕ, Option, none, some, List, [], ◌∷◌, Bytes, refl, ok, err, Result, Bool-cases, Result-cases, inl,
  inr,
}
use blockchain_mapping_syste.Prelude.Exec.{Exec, pure, lift}
use blockchain_mapping_syste.Prelude.Hoare.{Keeps, Keeps->>=, Keeps-lift}
use blockchain_mapping_syste.Balance.{Balance, in_own_ips}
use blockchain_mapping_syste.Transaction.{Transaction}
use blockchain_mapping_syste.Block.{Block, PrevHeader}
use blockchain_mapping_syste.MapReply.{Info, to_bytes}
use blockchain_mapping_syste.Apply.{
  Platform, ChainState, validate_transaction, read_balance, read_nonce, verify_block_signature,
}
use blockchain_mapping_syste.Apply.Invariants.{
  read_balance-Keeps, read_nonce-Keeps, validate_transaction-Keeps,
}
use blockchain_mapping_syste.Chain.{Formats, Chain, remove_at}
use blockchain_mapping_syste.Chain.Headers.{HasHeaders, headers}
use blockchain_mapping_syste.Chain.Sync.{IsSynced, first_of, synced, add_block-IsSynced}
use blockchain_mapping_syste.Chain.Invariants.{process_time_queue-Keeps}
use blockchain_mapping_syste.ChainService.{
  Service, Proposal, on_state, add_pending_transaction, collect_invalid, purge_pool,
  service_add_block, get_field, query_body, query_eid, cache_accounts, to_snapshot, clone, replay,
  create_tries, draft, propose, create_block,
}
use blockchain_mapping_syste.ChainService.Groups.{extract_first_ip_from_address}

module _ (p : Platform) (f : Formats p) where
  abbrev pub IsInStep : Service p → Type 0
  IsInStep v = IsSynced p f v.chain

  -- A method of the state that keeps its headers.
  pub on_state-Keeps :
      {A : Type 0} {m : Exec (ChainState p) A}
      → ((hs : List PrevHeader) → Keeps (HasHeaders p hs) m)
      → Keeps IsInStep (on_state p f m)
  on_state-Keeps {m = m} h = record {
    keeps = λ v k.
        let s = v.chain.state in
        record {
          first =
              first_of p f v.chain.head_hash s.vars.prev_headers (m s).1.vars.prev_headers
                ((h s.vars.prev_headers).keeps s refl) k.first;
          unqueued = k.unqueued;
        };
  }

  pub reading-Keeps : (a : Bytes) → Keeps IsInStep (on_state p f (read_balance p a))
  reading-Keeps a = on_state-Keeps (λ hs. read_balance-Keeps p _ (headers p hs).stable.reads a)

  pub counting-Keeps : (a : Bytes) → Keeps IsInStep (on_state p f (read_nonce p a))
  counting-Keeps a = on_state-Keeps (λ hs. read_nonce-Keeps p _ (headers p hs).stable.reads a)

  pub verifying-Keeps :
      (b : Block) (ip : p.netaddr.Net)
      → Keeps IsInStep (on_state p f (verify_block_signature p b ip))
  unfolding verify_block_signature
  verifying-Keeps b ip = on_state-Keeps (λ hs. Keeps->>= Keeps-lift (λ a.
      Keeps->>= (read_balance-Keeps p _ (headers p hs).stable.reads a) (λ c. record {
        keeps = λ s h. elim (Bool-cases (in_own_ips p.netaddr ip c)) [
          | inl e ↦ rw e h
          | inr e ↦ rw e h
        ];
      })))

  pub add_pending_transaction-Keeps :
      (tx : Transaction) → Keeps IsInStep (add_pending_transaction p f tx)
  unfolding add_pending_transaction
  add_pending_transaction-Keeps tx =
      Keeps->>=
        (on_state-Keeps (λ hs. validate_transaction-Keeps p _ (headers p hs).stable.reads tx))
        (λ _.
          Keeps->>= Keeps-lift (λ from. Keeps->>= Keeps-lift (λ _. record { keeps = λ v k. k })))

  collect_invalid-headers :
      (hs : List PrevHeader) (l : List Transaction) (s : ChainState p)
      → HasHeaders p hs s
      → HasHeaders p hs (collect_invalid p f l s).1
  unfolding collect_invalid
  collect_invalid-headers hs [] s h = h
  collect_invalid-headers hs (x ∷ l) s h =
      let q = validate_transaction p x s in
      let w =
        collect_invalid-headers hs l q.1
          ((validate_transaction-Keeps p _ (headers p hs).stable.reads x).keeps s h) in
      elim (Result-cases q.0) [
        | inl (_, e) ↦ rw (e, collect_invalid) w
        | inr (_, e) ↦ rw (e, collect_invalid) w
      ]

  purge_pool-IsInStep : (v : Service p) → IsInStep v → IsInStep (purge_pool p f v)
  unfolding purge_pool
  purge_pool-IsInStep v k =
      let s = v.chain.state in
      record {
        first =
            first_of p f v.chain.head_hash s.vars.prev_headers
              (collect_invalid p f v.pool s).1.vars.prev_headers
              (collect_invalid-headers s.vars.prev_headers v.pool s refl) k.first;
        unqueued = k.unqueued;
      }

  pub service_add_block-Keeps :
      (depth now : ℕ) (b : Block) → Keeps IsInStep (service_add_block p f depth now b)
  unfolding service_add_block
  service_add_block-Keeps depth now b = Keeps->>= Keeps-lift (λ _.
      Keeps->>= (record { keeps = λ v k. add_block-IsSynced p f depth now b v.chain k })
        (λ _.
          Keeps->>= (record { keeps = λ v k. k }) (λ _. record { keeps = purge_pool-IsInStep })))

  pub get_field-Keeps :
      {A : Type 0} (field : Balance p.netaddr → A) (a : Bytes)
      → Keeps IsInStep (get_field p f field a)
  unfolding get_field
  get_field-Keeps field a =
      Keeps->>= Keeps-lift (λ _. Keeps->>= (reading-Keeps a) (λ b. record { keeps = λ v k. k }))

  pub extract-Keeps :
      (first : p.netaddr.IpSet → Option p.netaddr.Net) (a : Bytes)
      → Keeps IsInStep (extract_first_ip_from_address p f first a)
  unfolding extract_first_ip_from_address
  extract-Keeps first a = record {
    keeps = λ v k. taken (get_field p f (λ b. b.own_ips) a v) ((get_field-Keeps _ a).keeps v k);
  }
    where
      taken :
          (q : Result p.netaddr.IpSet × Service p)
          → IsInStep q.1
          → (let q' : Result (Option p.netaddr.Net) × Service p = elim q.0 [
            | ok ips ↦ (ok (first ips), q.1)
            | err e ↦ (err e, q.1)
          ] in
              IsInStep q'.1)
      taken (ok ips, v) k = k
      taken (err e, v) k = k

  query_body-Keeps : (a : Bytes) (nonce : ℕ) → Keeps IsInStep (query_body p f a nonce)
  unfolding query_body
  query_body-Keeps a nonce = Keeps->>= Keeps-lift (λ ip.
      Keeps->>= (record { keeps = λ v k. k })
        (λ v. Keeps->>= Keeps-lift (λ address.
          Keeps->>= (reading-Keeps address) (λ b. Keeps->>= Keeps-lift (λ info. answered info)))))
    where
      answered :
          (info : Option Info)
          → (let m : Exec (Service p) (Option Bytes) = elim info [
            | none ↦ pure none
            | some i ↦ lift (elim (to_bytes nonce i) [ err e ↦ err e | ok s ↦ ok (some s) ])
          ] in
              Keeps IsInStep m)
      answered none = record { keeps = λ v k. k }
      answered (some i) = Keeps-lift

  pub query_eid-IsInStep :
      (a : Bytes) (nonce : ℕ) (v : Service p) → IsInStep v → IsInStep (query_eid p f a nonce v).1
  unfolding query_eid
  query_eid-IsInStep a nonce v k =
      taken (query_body p f a nonce v) ((query_body-Keeps a nonce).keeps v k)
    where
      taken :
          (q : Result (Option Bytes) × Service p)
          → IsInStep q.1
          → (let q' : Option Bytes × Service p = elim q.0 [
            | ok a ↦ (a, q.1)
            | err _ ↦ (none, q.1)
          ] in
              IsInStep q'.1)
      taken (ok ips, v) k = k
      taken (err e, v) k = k

  cache_accounts-headers :
      (hs : List PrevHeader) (l : List Bytes) (s : ChainState p)
      → HasHeaders p hs s
      → HasHeaders p hs (cache_accounts p f l s)
  unfolding cache_accounts
  cache_accounts-headers hs [] s h = h
  cache_accounts-headers hs (a ∷ l) s h =
      cache_accounts-headers hs l _ ((headers p hs).stable.reads a s h)

  to_snapshot-headers :
      (hs : List PrevHeader) (s : ChainState p)
      → HasHeaders p hs s
      → HasHeaders p hs (to_snapshot p f s).1
  unfolding to_snapshot
  to_snapshot-headers hs s h = cache_accounts-headers hs (f.keys s.trie) s h

  create_tries-Keeps : (b : Block) → Keeps IsInStep (on_state p f (create_tries p f b))
  unfolding create_tries
  create_tries-Keeps b = on_state-Keeps (λ hs. record {
    keeps = λ s h.
        let s' = (to_snapshot p f s).1 in
        let h' = to_snapshot-headers hs s h in
        elim (Result-cases (clone p f s')) [
          | inr (e, c) ↦ rw (c, create_tries) h'
          | inl (temp, c) ↦ elim (Result-cases (replay p f b.transactions temp)) [
            | inr (e, d) ↦ rw (c, d, create_tries) h'
            | inl (last, d) ↦ rw (c, d, create_tries) h'
          ]
        ];
  })

  propose-Keeps : (interval now : ℕ) (a : Proposal) → Keeps IsInStep (propose p f interval now a)
  unfolding propose
  propose-Keeps interval now a =
      Keeps->>= (record { keeps = λ v k. k })
        (λ v. Keeps->>= Keeps-lift (λ coinbase. Keeps->>= Keeps-lift (λ key.
          Keeps->>= Keeps-lift (λ random.
            Keeps->>= (on_state-Keeps (λ hs. record { keeps = to_snapshot-headers hs })) (λ dump.
              Keeps->>= Keeps-lift
                (λ s. create_tries-Keeps (draft p f now coinbase random key a v s)))))))

  pub create_block-Keeps :
      (interval depth now : ℕ) (a : Proposal)
      → Keeps IsInStep (create_block p f interval depth now a)
  unfolding create_block
  create_block-Keeps interval depth now a =
      Keeps->>=
        (record {
          keeps = λ v k.
              (process_time_queue-Keeps p f (IsSynced p f) (synced p f) (λ j c s. keep_queue j c s)
                  depth now none (λ n c s. record { first = s.first; unqueued = s.unqueued })).keeps
                v.chain k;
        })
        (λ _. propose-Keeps interval now a)
    where
      keep_queue :
          (j : ℕ) (c : Chain p)
          → IsSynced p f c
          → IsSynced p f (record c { time_queue = remove_at j c.time_queue })
      keep_queue j c s = record { first = s.first; unqueued = s.unqueued }
