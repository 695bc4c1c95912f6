-- ===== src/Database.antt =====
-- db.py: the in-memory database, the overlay for temporary changes, the LevelDB database with its
-- uncommitted writes, the database that keeps what was read, and the one that counts references. A database can be the parent of another, so each is a `BaseDb`.
pub mod Refinement
pub mod Counts
use blockchain_mapping_syste.Prelude.{
  ℕ, Bool, true, false, Option, none, some, List, [], ◌∷◌, Bytes, bytes_eq, ◌==◌, if◌then◌else◌,
  ◌≡◌, Result, ok, err, key_error, or_raise, ◌+◌, ◌-◌, ◌++◌, take, drop, Error, assertion_error,
  length, nat_beq, exception,
}
use blockchain_mapping_syste.Utils.{Codec, zpad, big_endian_value}
use blockchain_mapping_syste.Prelude.Exec.{Exec, call}
use blockchain_mapping_syste.Prelude.Dict.{Dict, lookup, insert, erase}

-- `get` may fill a cache, so it returns the database too. Each `__contains__` is `_has_key`.
pub record BaseDb : Type 1 where
  pub Db : Type 0
  pub get : Bytes → Exec Db Bytes
  pub put : Bytes → Bytes → Db → Db
  pub delete : Bytes → Exec Db (Unit {0})
  pub has_key : Bytes → Exec Db Bool
  pub commit : Db → Db

abbrev pub is_some : {A : Type 0} → Option A → Bool
is_some none = false
is_some (some _) = true

-- `_EphemDB`, whose state is the dict `db`. `del` raises on a missing key.
unfoldable pub ephem_get : Bytes → Exec (Dict Bytes Bytes) Bytes
ephem_get k d = (or_raise (lookup k d) key_error, d)

unfoldable pub ephem_delete : Bytes → Exec (Dict Bytes Bytes) (Unit {0})
ephem_delete k d = elim (lookup k d) [ none ↦ (err key_error, d) | some _ ↦ (ok tt, erase k d) ]

abbrev pub ephem : BaseDb
ephem = record {
  Db = Dict Bytes Bytes;
  get = ephem_get;
  put = insert;
  delete = ephem_delete;
  has_key = λ k d. (ok (is_some (lookup k d)), d);
  commit = λ d. d;
}

module _ (b : BaseDb) where
  -- `OverlayDB`; the value `None` in `overlay` is a deletion.
  pub record Overlay : Type 0 where
    pub db : b.Db
    pub overlay : Dict Bytes (Option Bytes)

  -- A call on the parent.
  abbrev on_parent : {A : Type 0} → Exec b.Db A → Exec Overlay A
  on_parent m o = let (r, d) = m o.db in (r, record o { db = d })

  unfoldable pub overlay_get : Bytes → Exec Overlay Bytes
  overlay_get k o = elim (lookup k o.overlay) [
    | some none ↦ (err key_error, o)
    | some (some v) ↦ (ok v, o)
    | none ↦ on_parent (b.get k) o
  ]

  unfoldable pub overlay_put : Bytes → Bytes → Overlay → Overlay
  overlay_put k v o = record o { overlay = insert k (some v) o.overlay }

  unfoldable pub overlay_delete : Bytes → Exec Overlay (Unit {0})
  overlay_delete k o = (ok tt, record o { overlay = insert k none o.overlay })

  unfoldable pub overlay_has_key : Bytes → Exec Overlay Bool
  overlay_has_key k o = elim (lookup k o.overlay) [
    | some v ↦ (ok (is_some v), o)
    | none ↦ on_parent (b.has_key k) o
  ]

  abbrev pub overlay_of : BaseDb
  overlay_of = record {
    Db = Overlay;
    get = overlay_get;
    put = overlay_put;
    delete = overlay_delete;
    has_key = overlay_has_key;
    commit = λ o. o;
  }

abbrev pub one : Bytes
one = 0 ∷ 0 ∷ 0 ∷ 1 ∷ []

-- `except KeyError: return 0`
abbrev pub if_key_error : Error → Result ℕ
if_key_error key_error = ok 0
if_key_error e = err e

-- What a batch of writes leaves under a key that had `old`; `none` is a deletion.
abbrev pub batched : List (Bytes × Option Bytes) → Bytes → Option Bytes → Option Bytes
batched [] j old = old
batched ((k, v) ∷ rest) j old = batched rest j (if k == j then v else old)

-- The leveldb package: `Get`, and `Write` of a batch.
pub record LevelStore : Type 1 where
  pub Store : Type 0
  pub fetch : Bytes → Store → Option Bytes
  pub write : List (Bytes × Option Bytes) → Store → Store
  pub fetch-write :
      (batch : List (Bytes × Option Bytes)) (j : Bytes) (s : Store)
      → fetch j (write batch s) ≡ batched batch j (fetch j s)

module _ (l : LevelStore) where
  -- `LevelDB`; the value `None` in `uncommitted` is a deletion.
  pub record Level : Type 0 where
    pub uncommitted : Dict Bytes (Option Bytes)
    pub db : l.Store

  unfoldable pub level_get : Bytes → Exec Level Bytes
  level_get k d = elim (lookup k d.uncommitted) [
    | some none ↦ (err key_error, d)
    | some (some v) ↦ (ok v, d)
    | none ↦ elim (l.fetch k d.db) [
      | none ↦ (err key_error, d)
      | some o ↦ (ok o, record d { uncommitted = insert k (some o) d.uncommitted })
    ]
  ]

  unfoldable pub level_put : Bytes → Bytes → Level → Level
  level_put k v d = record d { uncommitted = insert k (some v) d.uncommitted }

  unfoldable pub level_delete : Bytes → Exec Level (Unit {0})
  level_delete k d = (ok tt, record d { uncommitted = insert k none d.uncommitted })

  -- `get` in a `try`, whose only exception is the `KeyError`.
  unfoldable pub level_has_key : Bytes → Exec Level Bool
  unfolding level_get
  level_has_key k d =
      let (r, d') = level_get k d in (elim r [ ok _ ↦ ok true | err _ ↦ ok false ], d')

  unfoldable pub level_commit : Level → Level
  level_commit d = record { db = l.write d.uncommitted d.db; uncommitted = [] }

  abbrev pub level_of : BaseDb
  level_of = record {
    Db = Level;
    get = level_get;
    put = level_put;
    delete = level_delete;
    has_key = level_has_key;
    commit = level_commit;
  }

module _ (b : BaseDb) where
  -- `ListeningDB`: `kv` keeps what was read.
  pub record Listening : Type 0 where
    pub parent : b.Db
    pub kv : Dict Bytes Bytes

  -- A missing key is read from the parent twice.
  unfoldable pub listening_get : Bytes → Exec Listening Bytes
  listening_get k d =
      let (r, parent) = b.get k d.parent in
      elim (lookup k d.kv) [
        | some _ ↦ (r, record d { parent = parent })
        | none ↦ elim r [
          | err e ↦ (err e, record d { parent = parent })
          | ok v ↦
              let (r', parent') = b.get k parent in
              (r', record { parent = parent'; kv = insert k v d.kv })
        ]
      ]

  unfoldable pub listening_put : Bytes → Bytes → Listening → Listening
  listening_put k v d = record d { parent = b.put k v d.parent }

  unfoldable pub listening_delete : Bytes → Exec Listening (Unit {0})
  listening_delete k d = let (r, parent) = b.delete k d.parent in (r, record d { parent = parent })

  unfoldable pub listening_has_key : Bytes → Exec Listening Bool
  listening_has_key k d =
      let (r, parent) = b.has_key k d.parent in (r, record d { parent = parent })

  abbrev pub listening_of : BaseDb
  listening_of = record {
    Db = Listening;
    get = listening_get;
    put = listening_put;
    delete = listening_delete;
    has_key = listening_has_key;
    commit = λ d. d;
  }

module _ (c : Codec) where
  -- The counter of four bytes; `encode_int` is the big-endian codec.
  unfoldable pub add1 : Bytes → Bytes
  unfolding zpad big_endian_value
  add1 x = zpad (c.int_to_big_endian (big_endian_value 0 x + 1)) 4

  -- A counter of 0 makes `encode_int` raise.
  unfoldable pub sub1 : Bytes → Result Bytes
  unfolding zpad big_endian_value
  sub1 x =
      let v = big_endian_value 0 x in
      if nat_beq v 0 then err exception else ok (zpad (c.int_to_big_endian (v - 1)) 4)

  module _ (b : BaseDb) where
    -- `RefcountDB`: each value has its counter in front.
    unfoldable pub refcount_get : Bytes → Exec b.Db Bytes
    refcount_get k d =
        let (r, d') = b.get k d in (elim r [ err e ↦ err e | ok v ↦ ok (drop 4 v) ], d')

    unfoldable pub get_refcount : Bytes → Exec b.Db ℕ
    unfolding big_endian_value
    get_refcount k d =
        let (r, d') = b.get k d in
        (elim r [ ok v ↦ ok (big_endian_value 0 (take 4 v)) | err e ↦ if_key_error e ], d')

    unfoldable pub refcount_put : Bytes → Bytes → Exec b.Db (Unit {0})
    unfolding add1
    refcount_put k value d =
        let (r, d') = b.get k d in
        elim r [
          | ok v ↦
              if drop 4 v == value
              then (ok tt, b.put k (add1 (take 4 v) ++ value) d')
              else (err assertion_error, d')
          | err e ↦ elim (if_key_error e) [
            | ok _ ↦ (ok tt, b.put k (one ++ value) d')
            | err f ↦ (err f, d')
          ]
        ]

    unfoldable pub refcount_delete : Bytes → Exec b.Db (Unit {0})
    unfolding sub1
    refcount_delete k d =
        let (r, d') = b.get k d in
        elim r [
          | err e ↦ (err e, d')
          | ok v ↦ if take 4 v == one then b.delete k d' else elim (sub1 (take 4 v)) [
            | err e ↦ (err e, d')
            | ok counter ↦ (ok tt, b.put k (counter ++ drop 4 v) d')
          ]
        ]
