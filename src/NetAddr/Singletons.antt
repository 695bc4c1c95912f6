-- ===== src/NetAddr/Singletons.antt =====
-- The smallest model of the packages: a network is one address, a number. It shows that the
-- assumed laws can hold, and the witnesses run on it.
use blockchain_mapping_syste.Prelude.{
  Result, ok, err, index_error, ltb, ℕ, suc, ◌≡◌, refl, ◌↔◌, Bool, true, false, not, ◌&&◌, ◌||◌,
  Option, none, some, List, [], ◌∷◌, Bytes, arith, nat_eq, nat_beq, nat_beq_iff, ◌⊎◌, inl, inr,
  if◌then◌else◌,
}
use blockchain_mapping_syste.NetAddr.{NetAddr}

abbrev pub member : ℕ → List ℕ → Bool
member x [] = false
member x (y ∷ s) = nat_beq x y || member x s

abbrev pub keep : (ℕ → Bool) → List ℕ → List ℕ
keep p [] = []
keep p (y ∷ s) = let rest = keep p s in if p y then y ∷ rest else rest

abbrev pub count : List ℕ → ℕ
count [] = 0
count (y ∷ s) = suc (count s)

pub nat_beq_self : (n : ℕ) → nat_beq n n ≡ true
nat_beq_self n = ground arith

nat_cases : (x y : ℕ) → (x ≡ y) ⊎ (nat_beq x y ≡ false)
nat_cases x y = ground arith

pub member-keep : (x : ℕ) (p : ℕ → Bool) (s : List ℕ) → member x (keep p s) ≡ (member x s && p x)
member-keep x p [] = refl
member-keep x p (y ∷ s) = elim (nat_cases x y) [
  | inl e ↦ rw e (ground (arith, member-keep y p s))
  | inr e ↦ ground (arith, member-keep x p s)
]

pub member_of_contains :
    (s : List ℕ) (n : ℕ) → member n s ≡ true → (x : ℕ) → nat_beq x n ≡ true → member x s ≡ true
member_of_contains s n h x e = rw ((nat_beq_iff x n).0 e) h

pub count-zero_iff : (s : List ℕ) → (count s ≡ 0) ↔ ((x : ℕ) → member x s ≡ false)
count-zero_iff [] = (λ h x. refl, λ h. refl)
count-zero_iff (y ∷ s) = (λ h x. absurd (omega (arith, h)), λ h. ground (arith, h y))

abbrev max_size : ℕ
max_size = 9223372036854775807

abbrev pub count_len : List ℕ → Result ℕ
count_len s = if ltb max_size (count s) then err index_error else ok (count s)

abbrev pub one_byte : Bytes → Option ℕ
one_byte [] = none
one_byte (b ∷ s) = some b

pub or_single : (x : ℕ) (s : List ℕ) (n : ℕ) → member x (n ∷ s) ≡ (member x s || nat_beq x n)
or_single x s n = ground arith

pub only : (x n : ℕ) → member x (n ∷ []) ≡ nat_beq x n
only x n = ground arith

pub contains_self :
    (s : List ℕ) (n : ℕ) → ((x : ℕ) → nat_beq x n ≡ true → member x s ≡ true) → member n s ≡ true
contains_self s n h = h n (ground arith)

abbrev pub singletons : NetAddr
singletons = record {
  Ip = ℕ;
  Net = ℕ;
  IpSet = List ℕ;
  net_eq = nat_eq;
  empty = [];
  of_net = λ n. n ∷ [];
  add = λ s n. n ∷ s;
  remove = λ s n. keep (λ y. not (nat_beq y n)) s;
  diff = λ s t. keep (λ y. not (member y t)) s;
  inter = λ s t. keep (λ y. member y t) s;
  contains = λ s n. member n s;
  size = count;
  maxint = max_size;
  len = count_len;
  len-size = λ s. refl;
  net_of_v4 = one_byte;
  net_of_v6 = one_byte;
  mem = member;
  mem_net = nat_beq;
  net_point = λ n. n;
  mem-net_point = nat_beq_self;
  mem-empty = λ x. refl;
  mem-of_net = only;
  mem-add = or_single;
  mem-remove = λ x s n. member-keep x (λ y. not (nat_beq y n)) s;
  mem-diff = λ x s t. member-keep x (λ y. not (member y t)) s;
  mem-inter = λ x s t. member-keep x (λ y. member y t) s;
  contains_iff = λ s n. (member_of_contains s n, contains_self s n);
  size-zero_iff = count-zero_iff;
}
