-- ===== src/User/Locators.antt =====
-- The metadata of a transaction of category 3 cannot be read.
use blockchain_mapping_syste.Prelude.{
  ℕ, ◌%◌, ◌≡◌, ◌≢◌, refl, true, inl, inr, Bool-cases, Option, some, List, [], ◌∷◌, Bytes, length,
  nat_beq, arith, if◌then◌else◌, Result, ok, err, exception, attribute_error,
}
use blockchain_mapping_syste.Prelude.Int.{ℤ}
use blockchain_mapping_syste.Prelude.Exec.{lift, modify, ◌>>=◌, ◌>>◌}
use blockchain_mapping_syste.Utils.{Codec, Item, num, str}
use blockchain_mapping_syste.User.{
  Buffer, split, int_of, append_item, append_address, is_afi, read_locators, read_metadata,
  set_metadata,
}

-- At most one round was begun: the list holds nothing, an afi, or an afi and an address.
pub data IsStump : Option (List Item) → Type 0 where
  nothing : IsStump (some [])
  an_afi : (a : ℤ) → IsStump (some (num a ∷ []))
  an_address : (a : ℤ) (ip : Bytes) → IsStump (some (num a ∷ str ip ∷ []))

module _ (c : Codec) where
  -- The call raises, and leaves a stump of the metadata.
  pub record Fails (q : Result (Unit {0}) × Buffer) : Type 0 where
    pub raises : q.0 ≢ ok tt
    pub stump : IsStump q.1.metadata

  -- The two statements after the afi is read.
  abbrev after_afi : Bytes → ℤ → Buffer → Result (Unit {0}) × Buffer
  after_afi ip a =
      modify (append_item (num a))
      >> (if is_afi a then modify (append_item (str ip)) else lift (err exception))

  after_afi-IsStump :
      (ip : Bytes) (r : Result ℤ) (b : Buffer)
      → b.metadata ≡ some []
      → IsStump ((lift r >>= after_afi ip) b).1.metadata
  unfolding append_item ◌>>=◌
  after_afi-IsStump ip (err e) b h = rw h nothing
  after_afi-IsStump ip (ok a) b h = elim (Bool-cases (is_afi a)) [
    | inl y ↦ rw (y, h) (an_address a ip)
    | inr y ↦ rw (y, h) (an_afi a)
  ]

  stopped :
      (q : Result (Unit {0}) × Buffer) (b : Buffer)
      → IsStump q.1.metadata
      → Fails (((λ _. q) >>= λ _. lift (err attribute_error)) b)
  unfolding ◌>>=◌
  stopped (ok u, b') b s = record { raises = λ q. cc; stump = s }
  stopped (err e, b') b s = record { raises = λ q. cc; stump = s }

  round-Fails :
      (afi ip priority weight : Bytes) (rest : List Bytes) (b : Buffer)
      → b.metadata ≡ some []
      → Fails (read_locators c (afi ∷ ip ∷ priority ∷ weight ∷ rest) b)
  unfolding read_locators append_address ◌>>=◌
  round-Fails afi ip priority weight rest b h =
      stopped (append_address afi ip b) b (after_afi-IsStump ip (int_of afi) b h)

  read_locators-Fails :
      (l : List Bytes) (b : Buffer)
      → b.metadata ≡ some []
      → l ≢ []
      → nat_beq (length l % 4) 0 ≡ true
      → Fails (read_locators c l b)
  read_locators-Fails [] b h n k = absurd (n refl)
  read_locators-Fails (x ∷ []) b h n k = ground arith
  read_locators-Fails (x ∷ y ∷ []) b h n k = ground arith
  read_locators-Fails (x ∷ y ∷ z ∷ []) b h n k = ground arith
  read_locators-Fails (x ∷ y ∷ z ∷ w ∷ l) b h n k = round-Fails x y z w l b h

  read_metadata-Fails :
      (x : Bytes) (l : List Bytes) (k : Option ℕ) (b : Buffer)
      → k ≡ some 3
      → b.metadata ≡ some []
      → Fails (read_metadata c (x ∷ l) k b)
  unfolding read_metadata
  read_metadata-Fails x l k b w h = elim (Bool-cases (nat_beq (length (x ∷ l) % 4) 0)) [
    | inl e ↦ rw (w, e) (read_locators-Fails (x ∷ l) b h (λ q. cc) e)
    | inr e ↦ rw (w, e) (record { raises = λ q. cc; stump = rw h nothing })
  ]

  -- For a transaction of category 3, `metadata` never returns, whatever its text, and leaves in
  -- the buffer at most the first address family and address of the text.
  pub set_metadata-Fails :
      (data_string : Bytes) (b : Buffer)
      → b.category ≡ some 3
      → Fails (set_metadata c data_string b)
  unfolding set_metadata ◌>>=◌
  set_metadata-Fails data_string b h =
      read_metadata-Fails (split b',' data_string).0 (split b',' data_string).1 b.category
        (record b { metadata = some [] }) h refl
