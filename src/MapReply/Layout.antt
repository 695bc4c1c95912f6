-- ===== src/MapReply/Layout.antt =====
-- The layout of the answers: a reader of the bits finds the fields again, and every answer is a whole
-- number of bytes.
use blockchain_mapping_syste.Prelude.{
  ℕ, zero, suc, ◌+◌, ◌*◌, ◌/◌, ◌%◌, ◌^◌, ◌<◌, Bool, false, not, Option, none, some, List, [], ◌∷◌,
  ◌++◌, length, length-append, replicate, ltb, ltb→lt, nat_beq, nat_beq_iff, if◌then◌else◌, ◌≡◌,
  refl, sym, ap, ◌∙◌, inl, inr, arith, Bool-cases, ok, err, >>=-eq-ok, value_error, ◌>>=◌,
}
use native.Mathlib.Nat.{pow-suc}
use blockchain_mapping_syste.MapReply.{
  bits, uint, Net, get_bitstream_for_afi_address, LocatorRecord, locator_bits,
}

-- A reader of unsigned numbers.
abbrev pub read : ℕ → List Bool → Option (ℕ × List Bool)
read zero l = some (0, l)
read (suc n) l = elim (read n l) [
  | none ↦ none
  | some p ↦ elim p.1 [ [] ↦ none | b ∷ rest ↦ some (p.0 * 2 + (if b then 1 else 0), rest) ]
]

append_assoc : {A : Type 0} (a b c : List A) → (a ++ b) ++ c ≡ a ++ (b ++ c)
append_assoc [] b c = refl
append_assoc (x ∷ a) b c = ap (λ l. x ∷ l) (append_assoc a b c)

ok_injective : {A : Type 0} (x y : A) → ok x ≡ ok y → x ≡ y
ok_injective x y h = cc

halve : (v : ℕ) → v / 2 * 2 + (if not (nat_beq (v % 2) 0) then 1 else 0) ≡ v
halve v = ground arith

read-bits : (n v : ℕ) (rest : List Bool) → v < 2 ^ n → read n (bits n v ++ rest) ≡ some (v, rest)
unfolding bits
read-bits zero v rest h = ap (λ x. some (x, rest)) (omega arith)
read-bits (suc n) v rest h =
    let q = read-bits n (v / 2) (not (nat_beq (v % 2) 0) ∷ rest) (omega (arith, pow-suc 2 n)) in
    rw (append_assoc (bits n (v / 2)) (not (nat_beq (v % 2) 0) ∷ []) rest, q)
      (ap (λ x. some (x, rest)) (halve v))

-- What `uint` packs is read back, before whatever follows.
pub read-uint :
    (n v : ℕ) (l rest : List Bool) → uint n v ≡ ok l → read n (l ++ rest) ≡ some (v, rest)
unfolding uint
read-uint n v l rest h = elim (Bool-cases (ltb v (2 ^ n))) [
  | inl e ↦
      let h' : ok (bits n v) ≡ ok l = rw e at h in
      rw (← ok_injective (bits n v) l h') (read-bits n v rest (ltb→lt v (2 ^ n) e))
  | inr e ↦ let h' : err value_error ≡ ok l = rw e at h in cc
]

length-bits : (n v : ℕ) → length (bits n v) ≡ n
unfolding bits
length-bits zero v = refl
length-bits (suc n) v =
    omega
      (arith, length-append (bits n (v / 2)) (not (nat_beq (v % 2) 0) ∷ []), length-bits n (v / 2))

pub length-uint : (n v : ℕ) (l : List Bool) → uint n v ≡ ok l → length l ≡ n
unfolding uint
length-uint n v l h = ground (arith, length-bits n v)

-- The next field goes to `k`.
abbrev pub field : {A : Type 0} → ℕ → (ℕ → List Bool → Option A) → List Bool → Option A
field n k l = elim (read n l) [ none ↦ none | some p ↦ k p.0 p.1 ]

field-uint :
    {A : Type 0} (n v : ℕ) (k : ℕ → List Bool → Option A) (l tail rest : List Bool)
    → uint n v ≡ ok l
    → field n k ((l ++ tail) ++ rest) ≡ k v (tail ++ rest)
field-uint n v k l tail rest h =
    rw (append_assoc l tail rest, field, read-uint n v l (tail ++ rest) h) refl

-- The address behind its family: its version and its number.
abbrev pub read_address :
    {A : Type 0} → (Option (ℕ × ℕ) → List Bool → Option A) → List Bool → Option A
read_address k = field 16 (λ afi.
    if nat_beq afi 0
    then k none
    else if nat_beq afi 1
    then field 32 (λ ip. k (some (4, ip)))
    else if nat_beq afi 2
    then field 128 (λ ip. k (some (6, ip)))
    else (λ _. none))

abbrev pub address_of : Option Net → Option (ℕ × ℕ)
address_of none = none
address_of (some a) = some (a.version, a.ip)

two_fields :
    {A : Type 0} (n a w ip : ℕ) (j k : ℕ → List Bool → Option A) (l rest : List Bool)
    → (do x ← uint n a; y ← uint w ip; ok (x ++ y)) ≡ ok l
    → j a ≡ field w k
    → field n j (l ++ rest) ≡ k ip rest
two_fields n a w ip j k l rest h e =
    let (x, ex, h1) = >>=-eq-ok (uint n a) _ h in
    let (y, ey, h2) = >>=-eq-ok (uint w ip) _ h1 in
    let step : field n j ((x ++ y) ++ rest) ≡ j a (y ++ rest) = field-uint n a j x y rest ex in
    rw (← ok_injective (x ++ y) l h2)
      (step ∙ ap (λ f. f (y ++ rest)) e ∙ rw (field, read-uint w ip y rest ey) refl)

read_address-none :
    {A : Type 0} (k : Option (ℕ × ℕ) → List Bool → Option A) (rest : List Bool)
    → read_address k (replicate 16 false ++ rest) ≡ k none rest
read_address-none k rest = refl

read_address-bits :
    {A : Type 0} (k : Option (ℕ × ℕ) → List Bool → Option A) (a : Option Net) (l rest : List Bool)
    → get_bitstream_for_afi_address a ≡ ok l
    → read_address k (l ++ rest) ≡ k (address_of a) rest
unfolding get_bitstream_for_afi_address
read_address-bits k none l rest h = rw (← ok_injective (replicate 16 false) l h) refl
read_address-bits k (some a) l rest h = elim (Bool-cases (nat_beq a.version 4)) [
  | inl v4 ↦
      two_fields 16 1 32 a.ip _ (λ ip. k (some (4, ip))) l rest (rw v4 at h) refl
      ∙ ap (λ v. k (some (v, a.ip)) rest) (sym ((nat_beq_iff a.version 4).0 v4))
  | inr other ↦ elim (Bool-cases (nat_beq a.version 6)) [
    | inl v6 ↦
        two_fields 16 2 128 a.ip _ (λ ip. k (some (6, ip))) l rest (rw (other, v6) at h) refl
        ∙ ap (λ v. k (some (v, a.ip)) rest) (sym ((nat_beq_iff a.version 6).0 v6))
    | inr neither ↦ let h' : err value_error ≡ ok l = rw (other, neither) at h in cc
  ]
]

-- What a reader finds in a locator record.
pub record ReadLocator : Type 0 where
  pub priority : ℕ
  pub weight : ℕ
  pub mpriority : ℕ
  pub mweight : ℕ
  pub unusedflags : ℕ
  pub lpr : ℕ
  pub address : Option (ℕ × ℕ)

abbrev pub fields_of : LocatorRecord → ReadLocator
fields_of l = record {
  priority = l.priority;
  weight = l.weight;
  mpriority = l.mpriority;
  mweight = l.mweight;
  unusedflags = l.unusedflags;
  lpr = l.lpr;
  address = address_of l.locator;
}

abbrev pub read_locator : List Bool → Option (ReadLocator × List Bool)
read_locator = field 8 (λ p. field 8 (λ w. field 8 (λ mp. field 8 (λ mw. field 13 (λ u.
    field 3 (λ r. read_address (λ a rest. some (
      record {
        priority = p;
        weight = w;
        mpriority = mp;
        mweight = mw;
        unusedflags = u;
        lpr = r;
        address = a;
      },
      rest,
    ))))))))

-- A reader of the bits of a locator record whose fields fit finds the fields again, whatever
-- follows them.
pub read_locator-locator_bits :
    (l : LocatorRecord) (b rest : List Bool)
    → locator_bits l ≡ ok b
    → read_locator (b ++ rest) ≡ some (fields_of l, rest)
unfolding locator_bits
read_locator-locator_bits l b rest h =
    let (x1, e1, h1) = >>=-eq-ok (uint 8 l.priority) _ h in
    let (x2, e2, h2) = >>=-eq-ok (uint 8 l.weight) _ h1 in
    let (x3, e3, h3) = >>=-eq-ok (uint 8 l.mpriority) _ h2 in
    let (x4, e4, h4) = >>=-eq-ok (uint 8 l.mweight) _ h3 in
    let (x5, e5, h5) = >>=-eq-ok (uint 13 l.unusedflags) _ h4 in
    let (x6, e6, h6) = >>=-eq-ok (uint 3 l.lpr) _ h5 in
    let (x7, e7, h7) = >>=-eq-ok (get_bitstream_for_afi_address l.locator) _ h6 in
    rw (← ok_injective _ b h7) (
      field-uint 8 l.priority _ x1 _ rest e1
      ∙ field-uint 8 l.weight _ x2 _ rest e2
      ∙ field-uint 8 l.mpriority _ x3 _ rest e3
      ∙ field-uint 8 l.mweight _ x4 _ rest e4
      ∙ field-uint 13 l.unusedflags _ x5 _ rest e5
      ∙ field-uint 3 l.lpr _ x6 _ rest e6
      ∙ read_address-bits (λ a r. some (record (fields_of l) { address = a }, r)) l.locator x7 rest
          e7)
