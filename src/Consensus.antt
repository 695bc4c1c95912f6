-- ===== src/Consensus.antt =====
-- consensus.py: the collection of signature shares and the distributed key generation. The BLS library and sha256 are the fields of `Bls`; its texts are byte strings.
pub mod NextSigner
pub mod Signer
pub mod Shares
pub mod Keys
use blockchain_mapping_syste.Prelude.{
  bytes_eq, ℕ, ◌+◌, Bool, true, false, not, ◌&&◌, ◌||◌, Option, none, some, List, [], ◌∷◌, ◌++◌,
  map, Bytes, ◌==◌, length, leb, nat_beq, if◌then◌else◌, Result, ok, err, raise_if, key_error,
  index_error, attribute_error, dkg_gen_keys_error, dkg_generate_secret_key_share_error,
  dkg_add_contribution_shares_error, dkg_add_verification_vectors_error, bls_sign_error,
  bls_recover_error, bls_invalid_group_signature,
}
use blockchain_mapping_syste.Prelude.Exec.{Exec, pure, lift, gets, modify, ◌>>=◌, ◌>>◌}
use blockchain_mapping_syste.Prelude.Dict.{Dict, lookup, insert}

-- bls_wrapper.py, dkg.py and hashlib. The empty text is the sign of a failure.
pub record Bls : Type 0 where
  pub sign : Bytes → Bytes → Bytes
  pub recover : List Bytes → List Bytes → Bytes
  pub verify : Bytes → Bytes → Bytes → Bool
  -- `hashlib.sha256(x).hexdigest()`, and `bls.genKeys(zlib.adler32(oid))` without its second part
  pub sha256 : Bytes → Bytes
  pub gen_key : Bytes → Bytes
  pub verify_contribution : Bytes → Bytes → List Bytes → Bool
  -- `dkg.generateContribution(THRESHOLD, ids)`: the verification vector and the secrets
  pub contribute : List Bytes → List Bytes × List Bytes
  pub add_contributions : List Bytes → Bytes
  -- The first element of `dkg.addVerificationVectors`
  pub add_vectors : List (List Bytes) → Bytes
  -- `THRESHOLD`
  pub threshold : ℕ

-- shares.py
pub record Share : Type 0 where
  pub source : Bytes
  pub signature : Bytes
  pub block_number : ℕ

pub record DkgShare : Type 0 where
  pub source : Bytes
  pub to : Bytes
  pub secret_share_contrib : Bytes
  pub verif_vector : List Bytes

pub record Member : Type 0 where
  pub id : Bytes
  pub received_share : Option Bytes
  pub vvec : Option (List Bytes)

-- `members` is missing before `store_ids` or `new_dkg`.
pub record Consensus : Type 0 where
  pub dkg_group : List Bytes
  pub own_ids : List Bytes
  pub current_random_no : Bytes
  pub secret_keys : Dict Bytes Bytes
  pub group_key : Bytes
  pub group_sig : Bytes
  pub shares : List Bytes
  pub shares_ids : List Bytes
  pub msg : Bytes
  pub verified : Bool
  pub previous_group_key : Bytes
  pub members : Option (Dict Bytes (Dict Bytes Member))

-- `x in l`
abbrev pub is_in : Bytes → List Bytes → Bool
is_in x [] = false
is_in x (y ∷ l) = y == x || is_in x l

abbrev pub is_empty : Bytes → Bool
is_empty x = nat_beq (length x) 0

-- `self.members[self.members.keys()[0]][share.source]['id']`
unfoldable pub dkg_id_of : Bytes → Consensus → Result Bytes
dkg_id_of source c = elim c.members [
  | none ↦ err attribute_error
  | some [] ↦ err index_error
  | some ((_, first) ∷ _) ↦ elim (lookup source first) [ none ↦ err key_error | some m ↦ ok m.id ]
]

-- `not member["receivedShare"]` of some member
unfoldable pub has_share : Member → Bool
has_share m = elim m.received_share [ none ↦ false | some s ↦ not (is_empty s) ]

unfoldable pub all_have_share : Dict Bytes Member → Bool
unfolding has_share
all_have_share [] = true
all_have_share ((_, m) ∷ l) = has_share m && all_have_share l

-- `allSharesReceived`
unfoldable pub all_shares_received : Bytes → Dict Bytes (Dict Bytes Member) → Result Bool
unfolding all_have_share
all_shares_received id members = elim (lookup id members) [
  | none ↦ err key_error
  | some m ↦ ok (all_have_share m)
]

module _ (k : Bls) where
  -- `store_share` from the appends on.
  unfoldable pub add_share : Bytes → Bytes → Bytes → Exec Consensus Bool
  add_share dkg_id signature expected_message c =
      let ids = c.shares_ids ++ dkg_id ∷ [] in
      let sigs = c.shares ++ signature ∷ [] in
      let c' = record c { shares_ids = ids; shares = sigs } in
      let sig = k.recover ids sigs in
      let good = k.verify (k.sha256 expected_message) sig c.group_key in
      if leb k.threshold (length ids)
      then if is_empty sig
        then (err bls_recover_error, record c' { group_sig = sig })
        else if good
        then (
          ok true,
          record c' { group_sig = sig; verified = true; current_random_no = k.sha256 sig },
        )
        else (err bls_invalid_group_signature, record c' { group_sig = sig; verified = false })
      else (ok false, c')

  unfoldable pub store_share : Share → Bytes → Exec Consensus Bool
  unfolding dkg_id_of add_share
  store_share share expected_message c = elim (dkg_id_of share.source c) [
    | err e ↦ (err e, c)
    | ok dkg_id ↦
        if not (is_in dkg_id c.shares_ids) && not c.verified
        then add_share dkg_id share.signature expected_message c
        else (ok false, c)
  ]

  -- The first loop of `create_shares`; a node id without a key is passed over.
  unfoldable pub new_shares : Bytes → ℕ → Dict Bytes Bytes → List Bytes → Result (List Share)
  new_shares digest block_num keys [] = ok []
  new_shares digest block_num keys (oid ∷ ids) =
      let rest = new_shares digest block_num keys ids in
      elim (lookup oid keys) [
        | none ↦ rest
        | some key ↦
            let sig = k.sign digest key in
            if is_empty sig then err bls_sign_error else elim rest [
              | err e ↦ err e
              | ok l ↦ ok (record { source = oid; signature = sig; block_number = block_num } ∷ l)
            ]
      ]

  -- The second loop.
  unfoldable pub store_shares : List Share → Bytes → Exec Consensus (Unit {0})
  unfolding store_share
  store_shares [] msg = pure tt
  store_shares (share ∷ l) msg = do store_share share msg; store_shares l msg

  -- `message` is `str(last_random_no) + str(block_num) + str(count)`.
  unfoldable pub create_shares : Bytes → ℕ → Exec Consensus (List Share)
  unfolding new_shares store_shares
  create_shares message block_num = do
    modify (λ c. record c { msg = message })
    c ← gets (λ c. c)
    l ← lift (new_shares (k.sha256 message) block_num c.secret_keys c.own_ids)
    store_shares l message
    pure l

  unfoldable pub verify_group_sig : Bytes → Bytes → Bool → Consensus → Bool
  verify_group_sig expected_message block_group_sig use_prev_group_key c =
      k.verify (k.sha256 expected_message) block_group_sig
        (if use_prev_group_key then c.previous_group_key else c.group_key)

  -- `reset_bls`
  unfoldable pub reset_bls : Consensus → Consensus
  reset_bls c = record c { shares = []; shares_ids = []; verified = false }

  -- The loop that fills one dict of members.
  unfoldable pub fresh_members : List Bytes → Dict Bytes Member → Result (Dict Bytes Member)
  fresh_members [] m = ok m
  fresh_members (oid ∷ l) m =
      let rest =
        fresh_members l
          (insert oid (record { id = k.gen_key oid; received_share = none; vvec = none }) m) in
      if is_empty (k.gen_key oid) then err dkg_gen_keys_error else rest

  -- The member texts of `self.members['no_asociated_dkg']`; the dict in the making stays on an error.
  unfoldable pub store_ids : Bytes → List Bytes → Exec Consensus (Unit {0})
  unfolding fresh_members
  store_ids label new_dkg_group c =
      let c' = record c {
        previous_group_key = c.group_key;
        dkg_group = new_dkg_group;
        own_ids = [];
      } in
      elim (fresh_members new_dkg_group []) [
        | ok m ↦ (ok tt, record c' { members = some ((label, m) ∷ []) })
        | err e ↦ (err e, record c' { members = some ((label, []) ∷ []) })
      ]

  abbrev pub share_of : Member → Bytes
  share_of m = elim m.received_share [ none ↦ [] | some s ↦ s ]

  abbrev pub vector_of : Member → List Bytes
  vector_of m = elim m.vvec [ none ↦ [] | some v ↦ v ]

  -- The end of the key generation for the node id `to`, if every share of it is there.
  unfoldable pub finish : Bytes → Dict Bytes Member → Exec Consensus (Unit {0})
  unfolding all_have_share
  finish to row c =
      let key = k.add_contributions (map (λ m. share_of m.1) row) in
      let group = k.add_vectors (map (λ m. vector_of m.1) row) in
      let c' = record c { secret_keys = insert to key c.secret_keys } in
      if all_have_share row
      then if is_empty key
        then (err dkg_add_contribution_shares_error, c')
        else if is_empty group
        then (err dkg_add_verification_vectors_error, record c' { group_key = group })
        else (ok tt, record c' { group_key = group })
      else (ok tt, c)

  -- The row of `to` with the share `s`, if it is valid for the node's own id.
  unfoldable pub receive : Bytes → Member → DkgShare → Dict Bytes Member → Dict Bytes Member
  receive own_id member s row =
      if k.verify_contribution own_id s.secret_share_contrib s.verif_vector
      then insert s.source
          (record member {
            received_share = some s.secret_share_contrib;
            vvec = some s.verif_vector;
          })
          row
      else row

  -- `verify_dkg_contribution`
  unfoldable pub verify_dkg_contribution : DkgShare → Exec Consensus (Unit {0})
  unfolding receive finish
  verify_dkg_contribution s c = elim c.members [
    | none ↦ (err attribute_error, c)
    | some members ↦ elim (lookup s.to members) [
      | none ↦ (err key_error, c)
      | some row ↦ elim (lookup s.source row) [
        | none ↦ (err key_error, c)
        | some member ↦ elim member.received_share [
          | some _ ↦ (ok tt, c)
          | none ↦ elim (lookup s.to row) [
            | none ↦ (err key_error, c)
            | some own ↦
                let row' = receive own.id member s row in
                finish s.to row' (record c { members = some (insert s.to row' members) })
          ]
        ]
      ]
    ]
  ]

  -- The inner loop of the contributions of `node_id`: what is for another node is returned.
  unfoldable pub hand_out :
      Bytes → List Bytes → List Bytes → List Bytes → Exec Consensus (List DkgShare)
  unfolding verify_dkg_contribution
  hand_out node_id vector [] contribs = pure []
  hand_out node_id vector (oid ∷ oids) [] = lift (err index_error)
  hand_out node_id vector (oid ∷ oids) (contrib ∷ contribs) = do
    let share : DkgShare = record {
      source = node_id;
      to = oid;
      secret_share_contrib = contrib;
      verif_vector = vector;
    }
    c ← gets (λ c. c)
    if is_in oid c.own_ids
        then (do verify_dkg_contribution share; hand_out node_id vector oids contribs)
        else (do to_send ← hand_out node_id vector oids contribs; pure (share ∷ to_send))

  -- The loop over the members of the own node ids.
  unfoldable pub contributions : List (Bytes × Dict Bytes Member) → Exec Consensus (List DkgShare)
  unfolding hand_out
  contributions [] = pure []
  contributions ((node_id, row) ∷ rows) = do
    let (vector, contribs) = k.contribute (map (λ m. m.1.id) row)
    lift (raise_if (is_in [] contribs) dkg_generate_secret_key_share_error)
    here ← hand_out node_id vector (map (λ m. m.0) row) contribs
    there ← contributions rows
    pure (here ++ there)

  unfoldable pub rows_of :
      List Bytes
      → List Bytes
      → Dict Bytes (Dict Bytes Member)
      → Result (Dict Bytes (Dict Bytes Member))
  unfolding fresh_members
  rows_of new_dkg_group [] rows = ok rows
  rows_of new_dkg_group (node_id ∷ ids) rows = elim (fresh_members new_dkg_group []) [
    | err e ↦ err e
    | ok row ↦ rows_of new_dkg_group ids (insert node_id row rows)
  ]

  -- What an error of the key library leaves in `members` is not kept apart.
  unfoldable pub new_dkg : List Bytes → List Bytes → Exec Consensus (List DkgShare)
  unfolding rows_of contributions
  new_dkg new_dkg_group new_node_ids = do
    modify (λ c. record c {
      previous_group_key = c.group_key;
      members = some [];
      dkg_group = new_dkg_group;
      own_ids = new_node_ids;
    })
    rows ← lift (rows_of new_dkg_group new_node_ids [])
    modify (λ c. record c { members = some rows })
    contributions rows

-- `all_node_dkgs_finished`
unfoldable pub all_node_dkgs_finished : List Bytes → Dict Bytes (Dict Bytes Member) → Result Bool
all_node_dkgs_finished [] members = ok true
all_node_dkgs_finished (oid ∷ ids) members =
    let rest = all_node_dkgs_finished ids members in
    elim (lookup oid members) [
      | none ↦ err key_error
      | some row ↦ if all_have_share row then rest else ok false
    ]

-- `set_current_group_key`, as `store_group_key`
unfoldable pub set_current_group_key : Bytes → Consensus → Consensus
set_current_group_key group_key c = record c { group_key = group_key }

unfoldable pub bootstrap_only_set_random_no_manual : Bytes → Consensus → Consensus
bootstrap_only_set_random_no_manual random_no c = record c { current_random_no = random_no }

unfoldable pub bootstrap_only_set_group_sig_manual : Bytes → Consensus → Consensus
bootstrap_only_set_group_sig_manual group_sig c = record c { group_sig = group_sig }

-- `self.secretKeys[oid] = key` for each of the manual keys.
unfoldable pub put_keys : List (Bytes × Bytes) → Dict Bytes Bytes → Dict Bytes Bytes
put_keys [] keys = keys
put_keys ((oid, key) ∷ l) keys = put_keys l (insert oid key keys)

unfoldable pub bootstrap_master_add_secret_keys_manual :
    Bls → Bytes → List (Bytes × Bytes) → List Bytes → Exec Consensus (Unit {0})
unfolding put_keys store_ids
bootstrap_master_add_secret_keys_manual k label manual_keys my_dkg_ids = do
  c ← gets (λ c. c)
  store_ids k label c.dkg_group
  modify (λ c. record c {
    own_ids = my_dkg_ids;
    verified = false;
    secret_keys = put_keys manual_keys c.secret_keys;
  })
