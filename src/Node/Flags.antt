-- ===== src/Node/Flags.antt =====
-- The flags of a key generation, which the steps of the main loop keep in step: those on blocks.
use blockchain_mapping_syste.Prelude.{
  ℕ, Bool, true, false, ◌&&◌, ◌||◌, Option, none, some, List, [], ◌∷◌, Bytes, bytes_eq, ◌≡◌, ◌≢◌,
  refl, ok, err, Result, arith, Bool-cases, inl, inr, if◌then◌else◌,
}
use blockchain_mapping_syste.Prelude.Exec.{Exec}
use blockchain_mapping_syste.Prelude.Hoare.{Keeps, Keeps-lift, Keeps-if, Keeps->>=}
use blockchain_mapping_syste.Apply.{Platform}
use blockchain_mapping_syste.Block.{Block}
use blockchain_mapping_syste.Consensus.{Share}
use blockchain_mapping_syste.Chain.Sync.{IsSynced}
use blockchain_mapping_syste.ChainService.Synced.{
  IsInStep, extract-Keeps, verifying-Keeps, service_add_block-Keeps,
}
use blockchain_mapping_syste.ChainService.{Service}
use blockchain_mapping_syste.Node.{
  on_service, Config, Packages, Node, Message, send, self, attempt, is_skipped, signer_of_group,
  after_dkg, outside_dkg, during_dkg, choose_signer, verify_signer, check_block, send_shares,
  share_round, next_signer_round, leave_bootstrap, accept_block, receive_block, receive_blocks,
}

-- The node is in a key generation or has just left one, not both, only a member has left one, and the
-- next signer is known whenever it comes from the group.
pub record Ready (on exit member : Bool) (addr : Option Bytes) : Type 0 where
  pub apart : on ≡ true → exit ≡ false
  pub joined : exit ≡ true → member ≡ true
  pub signs : (on || exit) ≡ true → addr ≢ none

pub left_exit :
    (on exit member : Bool) (addr : Option Bytes)
    → Ready on exit member addr
    → Ready on false member addr
left_exit on exit member addr r = record {
  apart = λ e. refl;
  joined = λ e. cc;
  signs = λ e. r.signs (ground arith);
}

pub left_dkg :
    (on exit member : Bool) (addr : Option Bytes)
    → Ready on exit member addr
    → Ready false exit member addr
left_dkg on exit member addr r = record {
  apart = λ e. cc;
  joined = r.joined;
  signs = λ e. r.signs (ground arith);
}

pub known_signer :
    (on exit member : Bool) (addr : Option Bytes) (a : Bytes)
    → Ready on exit member addr
    → Ready on exit member (some a)
known_signer on exit member addr a r = record {
  apart = r.apart;
  joined = r.joined;
  signs = λ e q. cc;
}

module _ (p : Platform) where
  abbrev pub IsReady : Node p → Type 0
  IsReady n = Ready n.dkg_on n.exit_from_dkg n.in_dkg_group n.signing_addr

module _ (p : Platform) (k : Packages p) where
  -- The flags are in step, and the chain is synced.
  abbrev pub IsSound : Node p → Type 0
  IsSound n = IsReady p n × IsSynced p k.formats n.service.chain

  abbrev pub Stays : {A : Type 0} → Exec (Node p) A → Type 0
  Stays m = Keeps IsSound m

  pub stays :
      {A : Type 0} {m : Exec (Node p) A} → ((n : Node p) → IsSound n → IsSound (m n).1) → Stays m
  stays k = record { keeps = k }

  -- A step that is chosen by the state.
  pub Stays-at :
      {A : Type 0} {m : Node p → Exec (Node p) A}
      → ((n : Node p) → Stays (m n))
      → Stays (λ n. m n n)
  Stays-at k = record { keeps = λ n h. (k n).keeps n h }

  pub Stays-self : Stays (self p)
  Stays-self = stays (λ n h. h)

  pub Stays-send : {m : Message} → Stays (send p m)
  Stays-send = stays (λ n h. h)

  pub Stays-attempt : {A : Type 0} {m : Exec (Node p) A} → Stays m → Stays (attempt p m)
  Stays-attempt k = record { keeps = k.keeps }

  -- A method of the service.
  pub serves :
      {A : Type 0} {m : Exec (Service p) A}
      → Keeps (IsInStep p k.formats) m
      → Stays (on_service p m)
  serves h = record { keeps = λ n x. (x.0, h.keeps n.service x.1) }

module _ (p : Platform) (k : Packages p) where
  signer_of_group-Stays : Stays p k (signer_of_group p k)
  unfolding signer_of_group
  signer_of_group-Stays =
      Keeps->>= (Stays-self p k)
        (λ n. Keeps->>= Keeps-lift (λ a. serves p k (extract-Keeps p k.formats k.first_ip a)))

  after_dkg-Stays : (b : Block) → Stays p k (after_dkg p k b)
  unfolding after_dkg
  after_dkg-Stays b =
      Keeps->>=
        (stays p k
          (λ n h. (left_exit n.dkg_on n.exit_from_dkg n.in_dkg_group n.signing_addr h.0, h.1)))
        (λ _. Keeps->>= (Stays-self p k) (λ n'.
          Keeps->>= Keeps-lift (λ _. Keeps->>= signer_of_group-Stays (λ ip. stays p k (λ n h. h)))))

  during_dkg-Stays : (b : Block) → Stays p k (during_dkg p k b)
  unfolding during_dkg outside_dkg
  during_dkg-Stays b = Stays-at p k (λ n.
      Keeps-if n.dkg_on
        (Keeps->>= signer_of_group-Stays (λ ip.
          stays p k
            (λ n h. (left_dkg n.dkg_on n.exit_from_dkg n.in_dkg_group n.signing_addr h.0, h.1))))
        (stays p k (λ n h. h)))

  choose_signer-Stays : (b : Block) → Stays p k (choose_signer p k b)
  unfolding choose_signer
  choose_signer-Stays b =
      Stays-at p k
        (λ n. Keeps-if (n.in_dkg_group && n.exit_from_dkg) (after_dkg-Stays b) (during_dkg-Stays b))

  check_block-Stays : (b : Block) → Stays p k (check_block p k b)
  unfolding check_block verify_signer
  check_block-Stays b = Keeps->>= (stays p k (λ n h. h)) (λ _. Keeps->>= (Stays-self p k) (λ n.
      Keeps->>= Keeps-lift (λ _. Keeps->>= (choose_signer-Stays b) (λ _.
        Keeps->>= (Stays-self p k) (λ n'.
          Keeps->>= Keeps-lift
            (λ ip. Keeps->>= Keeps-lift (λ _. serves p k (verifying-Keeps p k.formats b ip))))))))

  send_shares-Stays : (now : ℕ) (l : List Share) → Stays p k (send_shares p k now l)
  unfolding send_shares
  send_shares-Stays now [] = Keeps-lift
  send_shares-Stays now (x ∷ l) =
      Keeps->>= (Stays-send p k)
        (λ _. Keeps->>= (stays p k (λ n h. h)) (λ _. send_shares-Stays now l))

  pub share_round-Stays : (now : ℕ) → Stays p k (share_round p k now)
  unfolding share_round
  share_round-Stays now = Stays-at p k (λ n.
      Keeps-if (n.in_dkg_group && n.create_shares)
        (Keeps->>= (stays p k (λ n h. h)) (λ _.
          Keeps->>= (Stays-self p k)
            (λ n'. Keeps->>= (stays p k (λ n h. h)) (λ l. send_shares-Stays now l))))
        (stays p k (λ n h. h)))

  pub next_signer_round-Stays : Stays p k (next_signer_round p k)
  unfolding next_signer_round
  next_signer_round-Stays =
      Keeps->>= (Stays-self p k) (λ n. Keeps->>= Keeps-lift (λ ip. stays p k (λ n h. h)))

  leave_bootstrap-IsSound :
      (b : Block) (n : Node p) → IsSound p k n → IsSound p k (leave_bootstrap p k b n)
  unfolding leave_bootstrap
  leave_bootstrap-IsSound b n h = elim (Bool-cases n.from_bootstrap) [
    | inl e ↦ rw e h
    | inr e ↦ rw e h
  ]

  accept_block-Stays : (g : Config) (now : ℕ) (b : Block) → Stays p k (accept_block p k g now b)
  unfolding accept_block
  accept_block-Stays g now b =
      Keeps->>= (serves p k (service_add_block-Keeps p k.formats g.depth now b)) (λ _.
        Keeps->>= (Stays-self p k) (λ n. Keeps->>= Keeps-lift (λ head.
          Keeps->>= (stays p k (λ n h. h)) (λ _.
            Keeps->>= (stays p k (leave_bootstrap-IsSound b)) (λ _.
              Keeps->>= next_signer_round-Stays
                (λ _. Keeps->>= (stays p k (λ n h. h)) (λ _. share_round-Stays now)))))))

  receive_block-Stays : (g : Config) (now : ℕ) (b : Block) → Stays p k (receive_block p k g now b)
  unfolding receive_block
  receive_block-Stays g now b =
      stays p k (λ n h. checked (check_block p k b n) ((check_block-Stays b).keeps n h))
    where
      checked :
          (q : Result Bool × Node p)
          → IsSound p k q.1
          → (let n' : Result (Unit {0}) × Node p = elim q.0 [
            | ok true ↦ accept_block p k g now b q.1
            | ok false ↦ (ok tt, q.1)
            | err e ↦ if is_skipped e then (ok tt, q.1) else (err e, q.1)
          ] in
              IsSound p k n'.1)
      checked (ok true, n') h = (accept_block-Stays g now b).keeps n' h
      checked (ok false, n') h = h
      checked (err e, n') h = ground arith

  pub receive_blocks-Stays :
      (g : Config) (now : ℕ) (l : List Block) → Stays p k (receive_blocks p k g now l)
  unfolding receive_blocks
  receive_blocks-Stays g now [] = Keeps-lift
  receive_blocks-Stays g now (b ∷ l) =
      Keeps->>= (receive_block-Stays g now b) (λ _. receive_blocks-Stays g now l)
