-- ===== src/Database/Counts.antt =====
-- The database that counts references, over a database that is a map.
use blockchain_mapping_syste.Prelude.{
  Option, none, some, ◌++◌, Bytes, bytes_eq, bytes_beq_sound, ==_refl, ◌≡◌, refl, arith, ok, err,
  key_error,
}
use blockchain_mapping_syste.Utils.{Codec}
use blockchain_mapping_syste.Database.{BaseDb, one, refcount_put, refcount_delete}
use blockchain_mapping_syste.Database.Refinement.{IsMap}

module _ (c : Codec) (b : BaseDb) (Good : b.Db → Type 0) (view : b.Db → Bytes → Option Bytes)
    (m : IsMap b Good view) where
  put_new :
      (k value : Bytes) (d : b.Db)
      → (b.get k d).0 ≡ err key_error
      → refcount_put c b k value d ≡ (ok tt, b.put k (one ++ value) (b.get k d).1)
  unfolding refcount_put
  put_new k value d e = rw (refcount_put, e) refl

  delete_last :
      (k value : Bytes) (d : b.Db)
      → (b.get k d).0 ≡ ok (one ++ value)
      → refcount_delete c b k d ≡ b.delete k (b.get k d).1
  unfolding refcount_delete
  delete_last k value d e = rw (refcount_delete, e) refl

  -- Over a database that is a map and does not have the key `k`: after `put` and then `delete`
  -- of `k`, the map has for every key what it had.
  pub refcount_delete-refcount_put :
      (k j value : Bytes) (d : b.Db)
      → Good d
      → view d k ≡ none
      → view (refcount_delete c b k (refcount_put c b k value d).1).1 j ≡ view d j
  refcount_delete-refcount_put k j value d g e =
      let d1 = (b.get k d).1 in
      let g1 = m.get_good k d g in
      let d2 = b.put k (one ++ value) d1 in
      let g2 = m.put_good k (one ++ value) d1 g1 in
      let d3 = (b.get k d2).1 in
      let g3 = m.get_good k d2 g2 in
      let missing : (b.get k d).0 ≡ err key_error = ground (arith, m.get_value k d g, e) in
      let there : view d2 k ≡ some (one ++ value) =
        ground (arith, m.put_view k k (one ++ value) d1 g1, ==_refl k) in
      let found : (b.get k d2).0 ≡ ok (one ++ value) = ground (arith, m.get_value k d2 g2, there) in
      rw (put_new k value d missing, delete_last k value d2 found)
        (ground (
          arith,
          m.delete_view k j d3 g3,
          m.get_view k j d2 g2,
          m.put_view k j (one ++ value) d1 g1,
          m.get_view k j d g,
          bytes_beq_sound k j,
          e,
        ))
