-- ===== src/Tests/Databases.antt =====
-- Databases of the instance: an overlay over a dict, and LevelDB as a dict.
use blockchain_mapping_syste.Prelude.{
  Option, none, some, List, [], ◌∷◌, Bytes, bytes_eq, ◌≡◌, refl, ◌∙◌, ap,
}
use blockchain_mapping_syste.Prelude.Dict.{Dict, lookup, insert, erase, lookup-insert, lookup-erase}
use blockchain_mapping_syste.Database.{ephem, overlay_of, batched, LevelStore, level_of}
use blockchain_mapping_syste.Database.Refinement.{
  IsMap, ephem-IsMap, overlay-IsMap, overlay_view, level-IsMap, level_view,
}
use blockchain_mapping_syste.State.Commit.{IsDistinct}

abbrev write : List (Bytes × Option Bytes) → Dict Bytes Bytes → Dict Bytes Bytes
write [] d = d
write ((k, none) ∷ rest) d = write rest (erase k d)
write ((k, some v) ∷ rest) d = write rest (insert k v d)

lookup-write :
    (batch : List (Bytes × Option Bytes)) (j : Bytes) (d : Dict Bytes Bytes)
    → lookup j (write batch d) ≡ batched batch j (lookup j d)
lookup-write [] j d = refl
lookup-write ((k, none) ∷ rest) j d =
    lookup-write rest j (erase k d) ∙ ap (batched rest j) (lookup-erase k j d)
lookup-write ((k, some v) ∷ rest) j d =
    lookup-write rest j (insert k v d) ∙ ap (batched rest j) (lookup-insert k j v d)

abbrev store : LevelStore
store = record {
  Store = Dict Bytes Bytes;
  fetch = lookup;
  write = write;
  fetch-write = lookup-write;
}

overlay-IsMap_example :
    IsMap (overlay_of ephem) (λ o. Unit) (overlay_view ephem (λ d k. lookup k d))
overlay-IsMap_example = overlay-IsMap ephem (λ d. Unit) (λ d k. lookup k d) ephem-IsMap

level-IsMap_example : IsMap (level_of store) (λ d. IsDistinct d.uncommitted) (level_view store)
level-IsMap_example = level-IsMap store
