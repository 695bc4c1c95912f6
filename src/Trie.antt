-- ===== src/Trie.antt =====
-- The secure Merkle trie (securetrie.py over trie.py, copied from pyethereum), which the state
-- calls: a root hash stands for a finite map, and to set `root_hash` again is to return to it.
pub mod Pairs
use blockchain_mapping_syste.Prelude.{
  ◌≡◌, Option, none, some, Bytes, bytes_eq, Eq, ◌==◌, if◌then◌else◌,
}

pub record Trie (V : Type 0) : Type 1 where
  pub Root : Type 0
  pub root_eq : Eq Root
  -- `BLANK_ROOT`
  pub blank : Root
  pub get : Root → Bytes → Option V
  pub update : Root → Bytes → V → Root
  pub delete : Root → Bytes → Root
  pub get-blank : (j : Bytes) → get blank j ≡ none
  pub get-update :
      (r : Root) (k j : Bytes) (v : V) → get (update r k v) j ≡ (if k == j then some v else get r j)
  pub get-delete :
      (r : Root) (k j : Bytes) → get (delete r k) j ≡ (if k == j then none else get r j)
