-- ===== src/ShareCache.antt =====
-- share_cache.py: which shares have been seen, and the shares that came too early. Times are whole
-- seconds, and `now` stands for both calls of the clock in a method.
pub mod Future
use blockchain_mapping_syste.Prelude.{
  ℕ, ◌+◌, Bool, true, false, Option, none, some, List, [], ◌∷◌, ◌++◌, Bytes, bytes_eq, nat_eq, ◌==◌,
  length, ltb, if◌then◌else◌, Result, ok, err, key_error, index_error,
}
use blockchain_mapping_syste.Prelude.Exec.{Exec}
use blockchain_mapping_syste.Prelude.Dict.{Dict, lookup, insert}
use blockchain_mapping_syste.Consensus.{Share, DkgShare, is_in}

pub record ShareCache : Type 0 where
  pub dkg_share_cache : List Bytes
  pub bls_share_cache : List Bytes
  pub bls_future_shares : Dict ℕ (List Share)
  pub last_time_clear : ℕ

abbrev pub clearing_interval : ℕ
clearing_interval = 100000

unfoldable pub in_dkg_cache : DkgShare → ShareCache → Bool
in_dkg_cache share c = is_in share.secret_share_contrib c.dkg_share_cache

unfoldable pub in_bls_cache : Share → ShareCache → Bool
in_bls_cache share c = is_in share.signature c.bls_share_cache

-- The `if` of the two methods that store.
unfoldable pub clear_old : ℕ → ShareCache → ShareCache
clear_old now c =
    if ltb (c.last_time_clear + clearing_interval) now
    then record c { bls_share_cache = []; dkg_share_cache = []; last_time_clear = now }
    else c

unfoldable pub store_dkg : ℕ → DkgShare → ShareCache → ShareCache
unfolding clear_old
store_dkg now share c =
    let c' = clear_old now c in
    record c' { dkg_share_cache = c'.dkg_share_cache ++ share.secret_share_contrib ∷ [] }

unfoldable pub store_bls : ℕ → Share → ShareCache → ShareCache
unfolding clear_old
store_bls now share c =
    let c' = clear_old now c in
    record c' { bls_share_cache = c'.bls_share_cache ++ share.signature ∷ [] }

-- The list of a block, which a `KeyError` makes empty.
abbrev pub shares_of : Option (List Share) → List Share
shares_of none = []
shares_of (some l) = l

unfoldable pub store_future_bls : Share → ShareCache → ShareCache
store_future_bls share c =
    let l = shares_of (lookup share.block_number c.bls_future_shares) ++ share ∷ [] in
    record c { bls_future_shares = insert share.block_number l c.bls_future_shares }

unfoldable pub pending_future_bls : ℕ → ShareCache → Bool
pending_future_bls block_num c = elim (lookup block_num c.bls_future_shares) [
  | none ↦ false
  | some l ↦ ltb 0 (length l)
]

-- A list without its last element, and that element.
unfoldable pub pop : List Share → Option (Share × List Share)
pop [] = none
pop (x ∷ l) = elim (pop l) [ none ↦ some (x, []) | some q ↦ some (q.0, x ∷ q.1) ]

unfoldable pub get_future_bls : ℕ → Exec ShareCache Share
unfolding pop
get_future_bls block_num c = elim (lookup block_num c.bls_future_shares) [
  | none ↦ (err key_error, c)
  | some l ↦ elim (pop l) [
    | none ↦ (err index_error, c)
    | some q ↦ (ok q.0, record c { bls_future_shares = insert block_num q.1 c.bls_future_shares })
  ]
]
