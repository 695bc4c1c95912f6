-- ===== src/Database/Refinement.antt =====
-- Every database is a map: what its operations do to it, whatever caches and parents stand behind.
use blockchain_mapping_syste.Prelude.{
  Option, none, some, [], ◌∷◌, Bytes, bytes_eq, bytes_beq_sound, ◌==◌, if◌then◌else◌, ◌≡◌, refl,
  ◌∙◌, inl, inr, arith, ok, key_error, or_raise, Option-cases,
}
use blockchain_mapping_syste.Prelude.Dict.{Dict, lookup, lookup-insert, lookup-erase}
use blockchain_mapping_syste.Database.{
  BaseDb, is_some, ephem, ephem_get, ephem_delete, Overlay, overlay_get, overlay_put,
  overlay_delete, overlay_has_key, overlay_of, batched, LevelStore, Level, level_get, level_put,
  level_delete, level_has_key, level_commit, level_of,
}
use blockchain_mapping_syste.State.Commit.{IsDistinct, insert-IsDistinct}

-- A database of which `Good` holds stands for the map `view`: each operation does to the map what
-- its name says, and keeps `Good`.
pub record IsMap (b : BaseDb) (Good : b.Db → Type 0) (view : b.Db → Bytes → Option Bytes)
    : Type 0 where
  pub get_value : (k : Bytes) (d : b.Db) → Good d → (b.get k d).0 ≡ or_raise (view d k) key_error
  pub get_view : (k j : Bytes) (d : b.Db) → Good d → view (b.get k d).1 j ≡ view d j
  pub get_good : (k : Bytes) (d : b.Db) → Good d → Good (b.get k d).1
  pub has_value : (k : Bytes) (d : b.Db) → Good d → (b.has_key k d).0 ≡ ok (is_some (view d k))
  pub has_view : (k j : Bytes) (d : b.Db) → Good d → view (b.has_key k d).1 j ≡ view d j
  pub has_good : (k : Bytes) (d : b.Db) → Good d → Good (b.has_key k d).1
  pub put_view :
      (k j v : Bytes) (d : b.Db)
      → Good d
      → view (b.put k v d) j ≡ (if k == j then some v else view d j)
  pub put_good : (k v : Bytes) (d : b.Db) → Good d → Good (b.put k v d)
  pub delete_view :
      (k j : Bytes) (d : b.Db)
      → Good d
      → view (b.delete k d).1 j ≡ (if k == j then none else view d j)
  pub delete_good : (k : Bytes) (d : b.Db) → Good d → Good (b.delete k d).1
  pub commit_view : (j : Bytes) (d : b.Db) → Good d → view (b.commit d) j ≡ view d j
  pub commit_good : (d : b.Db) → Good d → Good (b.commit d)

ephem_delete-view :
    (k j : Bytes) (d : Dict Bytes Bytes)
    → lookup j (ephem_delete k d).1 ≡ (if k == j then none else lookup j d)
unfolding ephem_delete
ephem_delete-view k j d = ground (arith, lookup-erase k j d, bytes_beq_sound k j)

-- The in-memory database is a map: get, put, delete, `in` and commit do to it what their names
-- say.
pub ephem-IsMap : IsMap ephem (λ d. Unit) (λ d k. lookup k d)
unfolding ephem_get
ephem-IsMap = record {
  get_value = λ k d g. refl;
  get_view = λ k j d g. refl;
  get_good = λ k d g. tt;
  has_value = λ k d g. refl;
  has_view = λ k j d g. refl;
  has_good = λ k d g. tt;
  put_view = λ k j v d g. lookup-insert k j v d;
  put_good = λ k v d g. tt;
  delete_view = λ k j d g. ephem_delete-view k j d;
  delete_good = λ k d g. tt;
  commit_view = λ j d g. refl;
  commit_good = λ d g. tt;
}

-- An entry of a dict of changes, or what stands behind it.
abbrev pub changed : Option (Option Bytes) → Option Bytes → Option Bytes
changed none behind = behind
changed (some v) behind = v

module _ (b : BaseDb) (view : b.Db → Bytes → Option Bytes) where
  -- What the overlay has for a key, or what its parent has.
  abbrev pub overlay_view : Overlay b → Bytes → Option Bytes
  overlay_view o k = changed (lookup k o.overlay) (view o.db k)

module _ (b : BaseDb) (Good : b.Db → Type 0) (view : b.Db → Bytes → Option Bytes)
    (m : IsMap b Good view) where
  overlay_get_value :
      (k : Bytes) (o : Overlay b)
      → Good o.db
      → (overlay_get b k o).0 ≡ or_raise (overlay_view b view o k) key_error
  unfolding overlay_get
  overlay_get_value k o g = ground (arith, m.get_value k o.db g)

  overlay_get_view :
      (k j : Bytes) (o : Overlay b)
      → Good o.db
      → overlay_view b view (overlay_get b k o).1 j ≡ overlay_view b view o j
  unfolding overlay_get
  overlay_get_view k j o g = ground (arith, m.get_view k j o.db g)

  overlay_get_good : (k : Bytes) (o : Overlay b) → Good o.db → Good (overlay_get b k o).1.db
  unfolding overlay_get
  overlay_get_good k o g = ground (arith, m.get_good k o.db g)

  overlay_has_value :
      (k : Bytes) (o : Overlay b)
      → Good o.db
      → (overlay_has_key b k o).0 ≡ ok (is_some (overlay_view b view o k))
  unfolding overlay_has_key
  overlay_has_value k o g = ground (arith, m.has_value k o.db g)

  overlay_has_view :
      (k j : Bytes) (o : Overlay b)
      → Good o.db
      → overlay_view b view (overlay_has_key b k o).1 j ≡ overlay_view b view o j
  unfolding overlay_has_key
  overlay_has_view k j o g = ground (arith, m.has_view k j o.db g)

  overlay_has_good : (k : Bytes) (o : Overlay b) → Good o.db → Good (overlay_has_key b k o).1.db
  unfolding overlay_has_key
  overlay_has_good k o g = ground (arith, m.has_good k o.db g)

  -- An overlay over a database that is a map is the map of its own entries before those of its
  -- parent.
  pub overlay-IsMap : IsMap (overlay_of b) (λ o. Good o.db) (overlay_view b view)
  unfolding overlay_put overlay_delete
  overlay-IsMap = record {
    get_value = overlay_get_value;
    get_view = overlay_get_view;
    get_good = overlay_get_good;
    has_value = overlay_has_value;
    has_view = overlay_has_view;
    has_good = overlay_has_good;
    put_view = λ k j v o g. ground (arith, lookup-insert k j (some v) o.overlay);
    put_good = λ k v o g. g;
    delete_view = λ k j o g. ground (arith, lookup-insert k j none o.overlay);
    delete_good = λ k o g. g;
    commit_view = λ j o g. refl;
    commit_good = λ o g. g;
  }

-- A batch with each key listed once leaves what it has for a key.
batched-lookup :
    (batch : Dict Bytes (Option Bytes)) (j : Bytes) (old : Option Bytes)
    → IsDistinct batch
    → batched batch j old ≡ changed (lookup j batch) old
batched-lookup [] j old d = refl
batched-lookup ((k, v) ∷ rest) j old (fresh, d) =
    ground (arith, batched-lookup rest j (if k == j then v else old) d, bytes_beq_sound k j)

module _ (l : LevelStore) where
  -- What is not committed yet for a key, or what is.
  abbrev pub level_view : Level l → Bytes → Option Bytes
  level_view d k = changed (lookup k d.uncommitted) (l.fetch k d.db)

  level_get_value :
      (k : Bytes) (d : Level l) → (level_get l k d).0 ≡ or_raise (level_view d k) key_error
  unfolding level_get
  level_get_value k d = ground arith

  level_get_view : (k j : Bytes) (d : Level l) → level_view (level_get l k d).1 j ≡ level_view d j
  unfolding level_get
  level_get_view k j d = elim (Option-cases (l.fetch k d.db)) [
    | inl e ↦ ground arith
    | inr (v, e) ↦ ground (arith, lookup-insert k j (some v) d.uncommitted, bytes_beq_sound k j)
  ]

  level_get_good :
      (k : Bytes) (d : Level l)
      → IsDistinct d.uncommitted
      → IsDistinct (level_get l k d).1.uncommitted
  unfolding level_get
  level_get_good k d g = elim (Option-cases (l.fetch k d.db)) [
    | inl e ↦ ground arith
    | inr (v, e) ↦ ground (arith, insert-IsDistinct k (some v) d.uncommitted g)
  ]

  level_has_value :
      (k : Bytes) (d : Level l) → (level_has_key l k d).0 ≡ ok (is_some (level_view d k))
  unfolding level_has_key
  level_has_value k d = ground arith

  -- A LevelDB database whose uncommitted keys are distinct is the map of the uncommitted
  -- entries before those of the store, whatever `get` has cached, and `commit` does not change
  -- that map.
  pub level-IsMap : IsMap (level_of l) (λ d. IsDistinct d.uncommitted) level_view
  unfolding level_put level_delete level_has_key level_commit
  level-IsMap = record {
    get_value = λ k d g. level_get_value k d;
    get_view = λ k j d g. level_get_view k j d;
    get_good = level_get_good;
    has_value = λ k d g. level_has_value k d;
    has_view = λ k j d g. level_get_view k j d;
    has_good = level_get_good;
    put_view = λ k j v d g. ground (arith, lookup-insert k j (some v) d.uncommitted);
    put_good = λ k v d g. insert-IsDistinct k (some v) d.uncommitted g;
    delete_view = λ k j d g. ground (arith, lookup-insert k j none d.uncommitted);
    delete_good = λ k d g. insert-IsDistinct k none d.uncommitted g;
    commit_view = λ j d g.
        l.fetch-write d.uncommitted j d.db ∙ batched-lookup d.uncommitted j (l.fetch j d.db) g;
    commit_good = λ d g. tt;
  }
