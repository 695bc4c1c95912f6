-- ===== src/ChainService/Members.antt =====
-- The members of a key generation are distinct addresses of the chain, as many as were asked for.
use blockchain_mapping_syste.Prelude.{
  ℕ, zero, suc, ◌%◌, true, false, ◌||◌, none, some, List, [], ◌∷◌, Bytes, bytes_eq, bytes_beq_sound,
  ==_refl, ◌==◌, length, nat_beq, ◌≡◌, refl, ap, inl, inr, arith, Bool-cases, Option-cases, ok, err,
  >>=-eq-ok, zero_division_error, index_error,
}
use blockchain_mapping_syste.Utils.{compress_random_no_to_int}
use blockchain_mapping_syste.Consensus.{is_in}
use blockchain_mapping_syste.Consensus.Shares.{IsOnce}
use blockchain_mapping_syste.ChainService.{pop_at, choose, get_current_dkg_group}

-- The list `l` without `a`, which was in it once.
record IsSplit (l : List Bytes) (a : Bytes) (l' : List Bytes) : Type 0 where
  pub same : (x : Bytes) → is_in x l ≡ (a == x || is_in x l')
  pub fresh : IsOnce l → is_in a l' ≡ false
  pub once : IsOnce l → IsOnce l'

some_injective : {A : Type 0} (x y : A) → some x ≡ some y → x ≡ y
some_injective x y h = cc

without_first : (y : Bytes) (l : List Bytes) → IsSplit (y ∷ l) y l
without_first y l = record { same = λ x. refl; fresh = λ o. o.0; once = λ o. o.1 }

without_later :
    (y : Bytes) (l : List Bytes) (a : Bytes) (l' : List Bytes)
    → IsSplit l a l'
    → IsSplit (y ∷ l) a (y ∷ l')
without_later y l a l' k = record {
  same = λ x. ground (arith, k.same x);
  fresh = λ o. ground (arith, k.fresh o.1, k.same y, bytes_beq_sound y a, ==_refl a, o.0);
  once = λ o. (ground (arith, k.same y, o.0), k.once o.1);
}

pop_at-IsSplit :
    (i : ℕ) (l : List Bytes) (q : Bytes × List Bytes) → pop_at i l ≡ some q → IsSplit l q.0 q.1
unfolding pop_at
pop_at-IsSplit i [] q h = cc
pop_at-IsSplit zero (y ∷ l) q h = rw (← some_injective (y, l) q h) (without_first y l)
pop_at-IsSplit (suc i) (y ∷ l) q h = elim (Option-cases (pop_at i l)) [
  | inl e ↦ let h' : none ≡ some q = rw e at h in cc
  | inr (p, e) ↦
      let h' : some (p.0, y ∷ p.1) ≡ some q = rw e at h in
      rw (← some_injective (p.0, y ∷ p.1) q h') (without_later y l p.0 p.1 (pop_at-IsSplit i l p e))
]

-- The members: distinct, addresses of `l`, and `n` in number.
pub record IsGroup (n : ℕ) (l group : List Bytes) : Type 0 where
  pub once : IsOnce group
  pub within : (x : Bytes) → is_in x group ≡ true → is_in x l ≡ true
  pub count : length group ≡ n

ok_injective : {A : Type 0} (x y : A) → ok x ≡ ok y → x ≡ y
ok_injective x y h = cc

extend :
    (n : ℕ) (l l' g : List Bytes) (a : Bytes)
    → IsOnce l
    → IsSplit l a l'
    → IsGroup n l' g
    → IsGroup (suc n) l (a ∷ g)
extend n l l' g a o k r = record {
  once = (outside, r.once);
  within = λ x h. ground (arith, k.same x, r.within x);
  count = ap suc r.count;
}
  where
    outside : is_in a g ≡ false
    outside = ground (arith, r.within a, k.fresh o)

choose-IsGroup :
    (digest : ℕ → Bytes) (n random_no : ℕ) (l group : List Bytes)
    → IsOnce l
    → choose digest n random_no l ≡ ok group
    → IsGroup n l group
unfolding choose
choose-IsGroup digest zero random_no l group o h =
    rw (← ok_injective [] group h) (record { once = tt; within = λ x e. cc; count = refl })
choose-IsGroup digest (suc n) random_no l group o h = elim (Bool-cases (nat_beq (length l) 0)) [
  | inl z ↦ let h' : err zero_division_error ≡ ok group = rw z at h in cc
  | inr z ↦ elim (Option-cases (pop_at (random_no % length l) l)) [
    | inl e ↦ let h' : err index_error ≡ ok group = rw (z, e) at h in cc
    | inr (q, e) ↦
        let (r, er, h1) =
          >>=-eq-ok (compress_random_no_to_int (digest random_no)) _ (rw (z, e) at h) in
        let (g, eg, h2) = >>=-eq-ok (choose digest n r q.1) _ h1 in
        let k = pop_at-IsSplit (random_no % length l) l q e in
        rw (← ok_injective (q.0 ∷ g) group h2)
          (extend n l q.1 g q.0 o k (choose-IsGroup digest n r q.1 g (k.once o) eg))
  ]
]

-- Where the addresses of the chain are distinct, the members that `get_current_dkg_group` returns
-- are distinct addresses of the chain, as many as were asked for.
pub get_current_dkg_group-IsGroup :
    (digest : ℕ → Bytes) (participants : ℕ) (random_text : Bytes) (all_addresses group : List Bytes)
    → IsOnce all_addresses
    → get_current_dkg_group digest participants random_text all_addresses ≡ ok group
    → IsGroup participants all_addresses group
unfolding get_current_dkg_group
get_current_dkg_group-IsGroup digest participants random_text all_addresses group o h =
    let (r, _, h1) = >>=-eq-ok (compress_random_no_to_int random_text) _ h in
    choose-IsGroup digest participants r all_addresses group o h1
