-- ===== src/Node/Groups.antt =====
-- The flags of a key generation, from its start to its end, and through a turn of the main loop.
use blockchain_mapping_syste.Prelude.{
  ℕ, ◌+◌, ◌%◌, nat_beq, Bool, true, false, not, ◌&&◌, some, List, [], ◌∷◌, Bytes, ◌≡◌, arith,
  Bool-cases, inl, inr, if◌then◌else◌,
}
use blockchain_mapping_syste.Prelude.Exec.{Exec, pure, ◌>>=◌}
use blockchain_mapping_syste.Prelude.Hoare.{Ensures, Ensures->>=, Ensures-if, Ensures-imp}
use blockchain_mapping_syste.Apply.{Platform}
use blockchain_mapping_syste.Consensus.{DkgShare, is_in}
use blockchain_mapping_syste.ShareCache.{in_dkg_cache}
use blockchain_mapping_syste.Node.{
  Config, Packages, Node, leave_if_finished, send_dkg_shares, join_group, start_dkg, trigger_dkg,
  take_dkg_share, receive_dkg_share, receive_dkg_shares, collect_dkg,
}
use blockchain_mapping_syste.Node.Flags.{Ready, IsSound}
use blockchain_mapping_syste.Chain.Sync.{IsSynced}

-- What holds before the next signer is known.
record Calm (on exit member : Bool) : Type 0 where
  apart : on ≡ true → exit ≡ false
  joined : exit ≡ true → member ≡ true

module _ (p : Platform) where
  is_out : (on exit c ready : Bool) → (c && not on && not exit && ready) ≡ true → exit ≡ false
  is_out on exit c ready h = ground arith

  named : (on exit member : Bool) (a : Bytes) → Calm on exit member → Ready on exit member (some a)
  named on exit member a c = record { apart = c.apart; joined = c.joined; signs = λ e q. cc }

  -- A step that branches on the state.
  pub ensures_if :
      {A : Type 0} {P : Node p → Type 0} {Q : A → Node p → Type 0} {m m' : Node p → Exec (Node p) A}
      (c : Node p → Bool)
      → ((n : Node p) → Ensures (λ s. P s × (c s ≡ true)) (m n) Q)
      → ((n : Node p) → Ensures (λ s. P s × (c s ≡ false)) (m' n) Q)
      → Ensures P (λ n. (if c n then m n else m' n) n) Q
  ensures_if c k k' = record {
    ensures = λ n h a. elim (Bool-cases (c n)) [
      | inl e ↦ rw e ((k n).ensures n (h, e) a)
      | inr e ↦ rw e ((k' n).ensures n (h, e) a)
    ];
  }

  step :
      {A : Type 0} {P Q : Node p → Type 0} {m : Exec (Node p) A}
      → ((n : Node p) → P n → Q (m n).1)
      → Ensures P m (λ _. Q)
  step k = record { ensures = λ n h a e. k n h }

module _ (p : Platform) (k : Packages p) where
  abbrev InStep : Node p → Type 0
  InStep n = IsSynced p k.formats n.service.chain

  abbrev IsCalm : Node p → Type 0
  IsCalm n = Calm n.dkg_on n.exit_from_dkg n.in_dkg_group × InStep n

  -- A member of the group of a key generation that has not ended.
  abbrev IsBusy : Node p → Type 0
  IsBusy n = IsSound p k n × (n.dkg_on ≡ true) × (n.in_dkg_group ≡ true)

  abbrev IsMember : Node p → Type 0
  IsMember n = IsSound p k n × (n.in_dkg_group ≡ true)

  abbrev IsFresh : Node p → Type 0
  IsFresh n = (n.exit_from_dkg ≡ false) × (n.in_dkg_group ≡ true) × InStep n

  abbrev IsOut : Node p → Type 0
  IsOut n = (n.exit_from_dkg ≡ false) × InStep n

  leave_if_finished-Ensures :
      (P Q : Node p → Type 0)
      → ((n : Node p) → P n → Q n)
      → ((n : Node p) → P n → Q (record n { dkg_on = false; exit_from_dkg = true }))
      → Ensures P (leave_if_finished p k) (λ _. Q)
  unfolding leave_if_finished
  leave_if_finished-Ensures P Q h h' =
      Ensures->>= (λ _. P) (step p (λ n x. x))
        (λ n.
          Ensures->>= (λ _. P) (step p (λ n x. x))
            (λ done.
              Ensures->>= (λ _. Q)
                (step p
                  (λ s x. elim (Bool-cases done) [ inl e ↦ rw e (h' s x) | inr e ↦ rw e (h s x) ]))
                (λ _. step p (λ n x. x))))

  send_dkg_shares-Ensures :
      (now : ℕ) (l : List DkgShare) → Ensures (IsFresh) (send_dkg_shares p k now l) (λ _. IsFresh)
  unfolding send_dkg_shares
  send_dkg_shares-Ensures now [] = step p (λ n x. x)
  send_dkg_shares-Ensures now (x ∷ l) =
      Ensures->>= (λ _. IsFresh) (step p (λ n x. x))
        (λ _. Ensures->>= (λ _. IsFresh) (step p (λ n x. x)) (λ _. send_dkg_shares-Ensures now l))

  join_group-Ensures :
      (now : ℕ) (group : List Bytes) → Ensures IsOut (join_group p k now group) (λ _. IsCalm)
  unfolding join_group
  join_group-Ensures now group =
      ensures_if p (λ n. n.in_dkg_group)
        (λ n.
          Ensures->>= (λ _. IsFresh) (step p (λ n x. (x.0.0, x.1, x.0.1)))
            (λ to_send.
              Ensures->>= (λ _. IsFresh) (send_dkg_shares-Ensures now to_send)
                (λ _.
                  Ensures->>= (λ _. IsCalm)
                    (leave_if_finished-Ensures (IsFresh) (IsCalm)
                      (λ n x. (record { apart = λ e. x.0; joined = λ e. x.1 }, x.2))
                      (λ n x. (record { apart = λ e. cc; joined = λ e. x.1 }, x.2)))
                    (λ _. step p (λ n x. x)))))
        (λ n. step p (λ n x. (record { apart = λ e. x.0.0; joined = λ e. cc }, x.0.1)))

  start_dkg-Ensures :
      (g : Config) (now : ℕ) → Ensures IsOut (start_dkg p k g now) (λ _. IsSound p k)
  unfolding start_dkg
  start_dkg-Ensures g now =
      let P = IsOut in
      Ensures->>= (λ _. P) (step p (λ n x. x))
        (λ _.
          Ensures->>= (λ _. P) (step p (λ n x. x))
            (λ n.
              Ensures->>= (λ _. P) (step p (λ n x. x))
                (λ group.
                  Ensures->>= (λ _. P) (step p (λ n x. x))
                    (λ _.
                      Ensures->>= (λ _. IsCalm) (join_group-Ensures now group)
                        (λ _.
                          Ensures->>= (λ _. IsCalm) (step p (λ n x. x))
                            (λ n'.
                              Ensures->>= (λ _. IsCalm) (step p (λ n x. x))
                                (λ b.
                                  Ensures->>= (λ _. IsCalm) (step p (λ n x. x))
                                    (λ a. step p (λ n x. (
                                      named p n.dkg_on n.exit_from_dkg n.in_dkg_group a x.0,
                                      x.1,
                                    ))))))))))

  pub trigger_dkg-Ensures :
      (g : Config) (now : ℕ) → Ensures (IsSound p k) (trigger_dkg p k g now) (λ _. IsSound p k)
  unfolding trigger_dkg
  trigger_dkg-Ensures g now = record {
    ensures = λ n h a. elim (Bool-cases (nat_beq g.dkg_renewal_interval 0)) [
      | inl e ↦ rw e (λ q. h)
      | inr e ↦ rw e (triggered.ensures n h a)
    ];
  }
    where
      triggered :
          Ensures
            (IsSound p k)
            (λ n.
              (if nat_beq ((n.block_num + 1) % g.dkg_renewal_interval) 0
                    && not n.dkg_on
                    && not n.exit_from_dkg
                    && n.consensus.verified
                  then start_dkg p k g now
                  else pure tt)
                n)
            (λ _. IsSound p k)
      triggered =
          ensures_if p
            (λ n.
              nat_beq ((n.block_num + 1) % g.dkg_renewal_interval) 0
              && not n.dkg_on
              && not n.exit_from_dkg
              && n.consensus.verified)
            (λ n.
              Ensures-imp
                (λ s x. (is_out p s.dkg_on s.exit_from_dkg _ s.consensus.verified x.1, x.0.1))
                (start_dkg-Ensures g now) (λ a s x. x))
            (λ n. step p (λ n x. x.0))

  take_dkg_share-Ensures :
      (g : Config) (now : ℕ) (share : DkgShare)
      → Ensures (IsBusy) (take_dkg_share p k g now share) (λ _. IsMember)
  unfolding take_dkg_share
  take_dkg_share-Ensures g now share =
      Ensures->>= (λ _. IsBusy) (step p (λ n x. x))
        (λ _.
          Ensures->>= (λ _. IsMember)
            (leave_if_finished-Ensures (IsBusy) (IsMember) (λ n x. (x.0, x.2))
              (λ n ((r, w), on, member). (
                (
                  record {
                    apart = λ e. cc;
                    joined = λ e. member;
                    signs = λ e. r.signs (ground (arith, on));
                  },
                  w,
                ),
                member,
              )))
            (λ done. Ensures->>= (λ _. IsMember) (step p (λ n x. x)) (λ n. step p (λ n x. x))))

  receive_dkg_share-Ensures :
      (g : Config) (now : ℕ) (share : DkgShare)
      → Ensures (IsBusy) (receive_dkg_share p k g now share) (λ _. IsMember)
  unfolding receive_dkg_share
  receive_dkg_share-Ensures g now share =
      ensures_if p (λ n. in_dkg_cache share n.cache) (λ n. step p (λ n x. (x.0.0, x.0.2)))
        (λ n.
          Ensures->>= (λ _. IsMember)
            (Ensures-imp (λ s x. x.0)
              (Ensures-if (is_in share.to n.my_dkg_ids) (take_dkg_share-Ensures g now share)
                (step p (λ n x. (x.0, x.2))))
              (λ a s x. x))
            (λ _. step p (λ n x. x)))

  receive_dkg_shares-Ensures :
      (g : Config) (now : ℕ) (l : List DkgShare)
      → Ensures (IsMember) (receive_dkg_shares p k g now l) (λ _. IsMember)
  unfolding receive_dkg_shares ◌>>=◌
  receive_dkg_shares-Ensures g now [] = step p (λ n x. x)
  receive_dkg_shares-Ensures g now (x ∷ l) =
      ensures_if p (λ n. n.dkg_on)
        (λ n.
          Ensures->>= (λ _. IsMember)
            (Ensures-imp (λ s x. (x.0.0, x.1, x.0.1)) (receive_dkg_share-Ensures g now x)
              (λ a s x. x))
            (λ _. receive_dkg_shares-Ensures g now l))
        (λ n. step p (λ n x. x.0))

  pub collect_dkg-Ensures :
      (g : Config) (now later : ℕ) (l : List DkgShare)
      → Ensures (IsSound p k) (collect_dkg p k g now later l) (λ _. IsSound p k)
  unfolding collect_dkg
  collect_dkg-Ensures g now later l =
      ensures_if p (λ n. n.in_dkg_group)
        (λ n. Ensures-imp (λ s x. x) (receive_dkg_shares-Ensures g now l) (λ a s x. x.0))
        (λ n. Ensures->>= (λ _. IsSound p k) (step p (λ n x. x.0)) (λ _. step p (λ n x. x)))
