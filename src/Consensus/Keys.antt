-- ===== src/Consensus/Keys.antt =====
-- The key generation: a share that a member has sent is never replaced.
use blockchain_mapping_syste.Prelude.{
  Option, none, some, Bytes, bytes_eq, bytes_beq_sound, ◌≡◌, inl, inr, arith, Option-cases,
}
use blockchain_mapping_syste.Prelude.Dict.{Dict, lookup, insert, lookup-insert}
use blockchain_mapping_syste.Consensus.{
  Bls, DkgShare, Member, Consensus, receive, finish, verify_dkg_contribution,
}

-- The share that the row of a node id has from a member.
abbrev pub share_in : Option Member → Option Bytes
share_in none = none
share_in (some m) = m.received_share

abbrev pub share_from : Bytes → Option (Dict Bytes Member) → Option Bytes
share_from source none = none
share_from source (some row) = share_in (lookup source row)

abbrev pub received : Bytes → Bytes → Option (Dict Bytes (Dict Bytes Member)) → Option Bytes
received to source none = none
received to source (some members) = share_from source (lookup to members)

module _ (k : Bls) where
  finish-members :
      (to : Bytes) (row : Dict Bytes Member) (c : Consensus)
      → (finish k to row c).1.members ≡ c.members
  unfolding finish
  finish-members to row c = ground arith

  receive-share :
      (own : Bytes) (m : Member) (s : DkgShare) (row : Dict Bytes Member) (source x : Bytes)
      → lookup s.source row ≡ some m
      → m.received_share ≡ none
      → share_in (lookup source row) ≡ some x
      → share_in (lookup source (receive k own m s row)) ≡ some x
  unfolding receive
  receive-share own m s row source x e n h = ground (
    arith,
    lookup-insert s.source source
        (record m { received_share = some s.secret_share_contrib; vvec = some s.verif_vector }) row,
    bytes_beq_sound s.source source,
  )

  put_row :
      (to to' source x : Bytes) (row row' : Dict Bytes Member)
      (members : Dict Bytes (Dict Bytes Member))
      → lookup to members ≡ some row
      → (share_in (lookup source row) ≡ some x → share_in (lookup source row') ≡ some x)
      → received to' source (some members) ≡ some x
      → received to' source (some (insert to row' members)) ≡ some x
  put_row to to' source x row row' members e f h =
      ground (arith, lookup-insert to to' row' members, bytes_beq_sound to to')

  -- A contribution that changes no row, or one that is stored in the row of its recipient.
  data Outcome (s : DkgShare) (c : Consensus) : Type 0 where
    left : (verify_dkg_contribution k s c).1.members ≡ c.members → Outcome s c
    stored :
        (members : Dict Bytes (Dict Bytes Member)) (row : Dict Bytes Member) (m own : Member)
        → c.members ≡ some members
        → lookup s.to members ≡ some row
        → lookup s.source row ≡ some m
        → m.received_share ≡ none
        → (verify_dkg_contribution k s c).1.members
          ≡ some (insert s.to (receive k own.id m s row) members)
        → Outcome s c

  outcome : (s : DkgShare) (c : Consensus) → Outcome s c
  unfolding verify_dkg_contribution
  outcome s c = elim (Option-cases c.members) [
    | inl e ↦ left (ground arith)
    | inr (members, e) ↦ elim (Option-cases (lookup s.to members)) [
      | inl e1 ↦ left (ground arith)
      | inr (row, e1) ↦ elim (Option-cases (lookup s.source row)) [
        | inl e2 ↦ left (ground arith)
        | inr (m, e2) ↦ elim (Option-cases m.received_share) [
          | inr (old, e3) ↦ left (ground arith)
          | inl e3 ↦ elim (Option-cases (lookup s.to row)) [
            | inl e4 ↦ left (ground arith)
            | inr (own, e4) ↦
                let c' = record c {
                  members = some (insert s.to (receive k own.id m s row) members);
                } in
                stored members row m own e e1 e2 e3
                  (ground (arith, finish-members s.to (receive k own.id m s row) c'))
          ]
        ]
      ]
    ]
  ]

  -- A share that a node id has received from a member stays, whatever further contribution
  -- comes, and whether `verify_dkg_contribution` accepts it, ignores it or raises.
  pub verify_dkg_contribution-received :
      (s : DkgShare) (c : Consensus) (to source x : Bytes)
      → received to source c.members ≡ some x
      → received to source (verify_dkg_contribution k s c).1.members ≡ some x
  verify_dkg_contribution-received s c to source x h = elim (outcome s c) [
    | left q ↦ rw q h
    | stored members row m own e0 e1 e2 e3 q ↦ rw q (
        put_row s.to to source x row (receive k own.id m s row) members e1
          (receive-share own.id m s row source x e2 e3) (rw e0 at h))
  ]
