-- ===== src/Chain/Children.antt =====
-- The hashes of the children of a block, joined into one text and cut out again.
use blockchain_mapping_syste.Prelude.{
  ℕ, zero, suc, ◌≤◌, List, [], ◌∷◌, ◌++◌, Bytes, bytes_eq, ==_refl, ◌≡◌, refl, sym, ap, ◌∙◌, inl,
  inr, arith, Bool-cases, length, length-append, take, drop, if◌then◌else◌,
}
use mathlib.Core.List.{append-nil, append_assoc}
use blockchain_mapping_syste.Prelude.Dict.{insert, lookup-insert}
use blockchain_mapping_syste.Block.{Block}
use blockchain_mapping_syste.Apply.{Platform}
use blockchain_mapping_syste.Chain.{
  Chain, child_key, chunks, chunks_of, child_text, has_hash, add_child, get_child_hashes,
}

take-append : (n : ℕ) (s t : Bytes) → length s ≡ n → take n (s ++ t) ≡ s
take-append zero [] t h = refl
take-append zero (x ∷ s) t h = absurd (omega arith)
take-append (suc n) [] t h = absurd (omega arith)
take-append (suc n) (x ∷ s) t h = ap (λ r. x ∷ r) (take-append n s t (omega arith))

drop-append : (n : ℕ) (s t : Bytes) → length s ≡ n → drop n (s ++ t) ≡ t
drop-append zero [] t h = refl
drop-append zero (x ∷ s) t h = absurd (omega arith)
drop-append (suc n) [] t h = absurd (omega arith)
drop-append (suc n) (x ∷ s) t h = drop-append n s t (omega arith)

-- Hashes of 32 bytes.
abbrev pub AreHashes : List Bytes → Type 0
AreHashes [] = Unit
AreHashes (h ∷ l) = (length h ≡ 32) × AreHashes l

abbrev pub joined : List Bytes → Bytes
joined [] = []
joined (h ∷ l) = h ++ joined l

joined-append : (l : List Bytes) (h : Bytes) → joined (l ++ h ∷ []) ≡ joined l ++ h
joined-append [] h = append-nil h
joined-append (x ∷ l) h = rw (joined-append l h) (sym (append_assoc x (joined l) h))

AreHashes-append :
    (l : List Bytes) (h : Bytes) → AreHashes l → length h ≡ 32 → AreHashes (l ++ h ∷ [])
AreHashes-append [] h a e = (e, tt)
AreHashes-append (x ∷ l) h a e = (a.0, AreHashes-append l h a.1 e)

-- A slice that is not empty.
chunks_of-append :
    (fuel : ℕ) (h s : Bytes) → length h ≡ 32 → chunks_of (suc fuel) (h ++ s) ≡ h ∷ chunks_of fuel s
unfolding chunks_of
chunks_of-append fuel [] s e = absurd (omega arith)
chunks_of-append fuel (x ∷ h) s e = rw (take-append 32 (x ∷ h) s e, drop-append 32 (x ∷ h) s e) refl

chunks_of-joined :
    (fuel : ℕ) (l : List Bytes)
    → AreHashes l
    → length (joined l) ≤ fuel
    → chunks_of fuel (joined l) ≡ l
unfolding chunks_of
chunks_of-joined zero [] a h = refl
chunks_of-joined (suc fuel) [] a h = refl
chunks_of-joined zero (x ∷ l) a h = absurd (omega (arith, length-append x (joined l)))
chunks_of-joined (suc fuel) (x ∷ l) a h =
    chunks_of-append fuel x (joined l) a.0
    ∙ ap (λ r. x ∷ r) (chunks_of-joined fuel l a.1 (omega (arith, length-append x (joined l), a.0)))

chunks-joined : (l : List Bytes) → AreHashes l → chunks (joined l) ≡ l
unfolding chunks
chunks-joined l a = chunks_of-joined (length (joined l)) l a (omega arith)

module _ (p : Platform) where
  get_child_hashes-child_text :
      (h : Bytes) (c : Chain p) → get_child_hashes p h c ≡ chunks (child_text p h c)
  unfolding get_child_hashes child_text chunks chunks_of
  get_child_hashes-child_text h c = ground arith

  child_text-insert :
      (h s : Bytes) (c : Chain p)
      → child_text p h (record c { db = insert (child_key h) s c.db }) ≡ s
  unfolding child_text
  child_text-insert h s c =
      ground (arith, lookup-insert (child_key h) (child_key h) s c.db, ==_refl (child_key h))

  -- Where the text stored for a parent joins the 32-byte hashes `l`, and the hash of a block
  -- has 32 bytes, `get_child_hashes` of the block's parent after `add_child` is `l`, with the
  -- block's hash at the end if it was not in `l`.
  pub get_child_hashes-add_child :
      (b : Block) (c : Chain p) (l : List Bytes)
      → AreHashes l
      → child_text p b.header.prevhash c ≡ joined l
      → length (p.header_hash b.header) ≡ 32
      → get_child_hashes p b.header.prevhash (add_child p b c)
        ≡ (if has_hash (p.header_hash b.header) l then l else l ++ p.header_hash b.header ∷ [])
  unfolding add_child
  get_child_hashes-add_child b c l a e n =
      let h = p.header_hash b.header in
      let cut : chunks (child_text p b.header.prevhash c) ≡ l = rw e (chunks-joined l a) in
      elim (Bool-cases (has_hash h l)) [
        | inl q ↦ rw (cut, q) (get_child_hashes-child_text b.header.prevhash c ∙ cut)
        | inr q ↦
            let s = child_text p b.header.prevhash c ++ h in
            let s' : s ≡ joined (l ++ h ∷ []) = rw e (sym (joined-append l h)) in
            rw (cut, q)
              (get_child_hashes-child_text b.header.prevhash _
                ∙ ap chunks (child_text-insert b.header.prevhash s c ∙ s')
                ∙ chunks-joined (l ++ h ∷ []) (AreHashes-append l h a n))
      ]
