-- ===== src/Trie/Pairs.antt =====
-- A model of the trie: its root is the list of its pairs. It shows that the laws can hold.
use blockchain_mapping_syste.Prelude.{
  ◌≡◌, refl, Bool, true, false, ◌&&◌, [], ◌∷◌, Bytes, bytes_eq, bytes_beq, bytes_beq_sound, Eq,
  arith,
}
use blockchain_mapping_syste.Prelude.Dict.{Dict, lookup, insert, erase, lookup-insert, lookup-erase}
use blockchain_mapping_syste.Trie.{Trie}

module _ {V : Type 0} (v_eq : Eq V) where
  abbrev pub pairs_beq : Dict Bytes V → Dict Bytes V → Bool
  pairs_beq [] [] = true
  pairs_beq [] (q ∷ e) = false
  pairs_beq (p ∷ d) [] = false
  pairs_beq ((a, v) ∷ d) ((b, w) ∷ e) = bytes_beq a b && v_eq.beq v w && pairs_beq d e

  pub pairs_beq_sound : (d e : Dict Bytes V) → pairs_beq d e ≡ true → d ≡ e
  pairs_beq_sound [] [] h = refl
  pairs_beq_sound [] (q ∷ e) h = cc
  pairs_beq_sound (p ∷ d) [] h = cc
  pairs_beq_sound ((a, v) ∷ d) ((b, w) ∷ e) h =
      ground (arith, bytes_beq_sound a b, v_eq.beq_iff v w, pairs_beq_sound d e)

  pairs_beq_refl : (d : Dict Bytes V) → pairs_beq d d ≡ true
  pairs_beq_refl [] = refl
  pairs_beq_refl ((a, v) ∷ d) =
      ground (arith, bytes_eq.beq_iff a a, v_eq.beq_iff v v, pairs_beq_refl d)

  pub pairs_beq_complete : (d e : Dict Bytes V) → d ≡ e → pairs_beq d e ≡ true
  pairs_beq_complete d e h = rw (← h) (pairs_beq_refl d)

  abbrev pub pairs : Trie V
  pairs = record {
    Root = Dict Bytes V;
    root_eq = record {
      beq = pairs_beq;
      beq_iff = λ d e. (pairs_beq_sound d e, pairs_beq_complete d e);
    };
    blank = [];
    get = λ d k. lookup k d;
    update = λ d k v. insert k v d;
    delete = λ d k. erase k d;
    get-blank = λ j. refl;
    get-update = λ d k j v. lookup-insert k j v d;
    get-delete = λ d k j. lookup-erase k j d;
  }
