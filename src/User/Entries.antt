-- ===== src/User/Entries.antt =====
-- Every transaction that the parser reads has fields in range.
use blockchain_mapping_syste.Prelude.{
  ℕ, ◌%◌, ◌≤◌, ◌≡◌, ◌⊎◌, inl, inr, false, ◌||◌, Bool-cases, Option, none, some, List, [], ◌∷◌, ◌++◌,
  Bytes, bytes_eq, ◌==◌, length, nat_beq, ltb, arith, ok, err, exception, key_error, Result-cases,
}
use blockchain_mapping_syste.Prelude.Int.{ℤ, pos, negsuc}
use blockchain_mapping_syste.Prelude.Exec.{◌>>=◌}
use blockchain_mapping_syste.Prelude.Hoare.{Keeps, Keeps->>=, Keeps-if, Keeps-lift, Keeps-call}
use blockchain_mapping_syste.Utils.{Codec, normalize_address, Item, num, str}
use blockchain_mapping_syste.Utils.Addresses.{length-normalize_address}
use blockchain_mapping_syste.User.{
  Buffer, Entry, no_data, split, set_category, set_afi, set_value, append_item, append_address,
  is_afi, store_category, store_afi, set_to, set_from, read_map_servers, read_locators,
  read_metadata, set_metadata, set_field, complete, complete_of, end_name, category_name, to_name,
  from_name, afi_name, value_name, metadata_name, read_line, cons_some, read_lines,
  read_transactions,
}

-- A value that is there fulfils `P`.
abbrev Maybe : {A : Type 0} → (A → Type 0) → Option A → Type 0
Maybe P none = Unit
Maybe P (some a) = P a

abbrev IsAddress : Bytes → Type 0
IsAddress a = length a ≡ 20

abbrev IsAfi : ℕ → Type 0
IsAfi n = (n ≡ 1) ⊎ (n ≡ 2)

record IsBuffer (b : Buffer) : Type 0 where
  pub category : Maybe (λ n. n ≤ 3) b.category
  pub afi : Maybe IsAfi b.afi
  pub to : Maybe IsAddress b.to
  pub from : Maybe IsAddress b.from

pub record IsEntry (e : Entry) : Type 0 where
  pub category : e.category ≤ 3
  pub afi : (e.afi ≡ 1) ⊎ (e.afi ≡ 2)
  pub to : length e.to ≡ 20
  pub from : length e.from ≡ 20

abbrev pub AllEntries : List Entry → Type 0
AllEntries [] = Unit
AllEntries (e ∷ l) = IsEntry e × AllEntries l

store_category-Keeps : (z : ℤ) → Keeps IsBuffer (store_category z)
unfolding store_category
store_category-Keeps (negsuc n) = Keeps-lift
store_category-Keeps (pos n) = record {
  keeps = λ b h. elim (Bool-cases (ltb 3 n)) [
    | inl e ↦ rw e h
    | inr e ↦ rw e (record { category = ground arith; afi = h.afi; to = h.to; from = h.from })
  ];
}

store_afi-Keeps : (z : ℤ) → Keeps IsBuffer (store_afi z)
unfolding store_afi
store_afi-Keeps (negsuc n) = Keeps-lift
store_afi-Keeps (pos n) = record {
  keeps = λ b h. elim (Bool-cases (nat_beq n 1 || nat_beq n 2)) [
    | inl e ↦ rw e (record { category = h.category; afi = ground arith; to = h.to; from = h.from })
    | inr e ↦ rw e h
  ];
}

append_item-IsBuffer : (x : Item) (b : Buffer) → IsBuffer b → IsBuffer (append_item x b)
unfolding append_item
append_item-IsBuffer x b h = record { category = h.category; afi = h.afi; to = h.to; from = h.from }

append_address-Keeps : (afi ip : Bytes) → Keeps IsBuffer (append_address afi ip)
unfolding append_address
append_address-Keeps afi ip = Keeps->>= Keeps-lift (λ a.
    Keeps->>= (Keeps-call (append_item-IsBuffer (num a)))
      (λ _. Keeps-if (is_afi a) (Keeps-call (append_item-IsBuffer (str ip))) Keeps-lift))

module _ (c : Codec) where
  -- An address that `normalize_address` returns, with no blank allowed.
  is_address : (x z : Bytes) → normalize_address c x false ≡ ok z → IsAddress z
  is_address x z h = elim (length-normalize_address c x z false h) [
    | inl e ↦ e
    | inr (e, _, _) ↦ cc
  ]

  set_to-Keeps : (s : Bytes) → Keeps IsBuffer (set_to c s)
  unfolding set_to ◌>>=◌
  set_to-Keeps s = record {
    keeps = λ b h. elim (Result-cases (normalize_address c s false)) [
      | inl (a, e) ↦
          rw e (record { category = h.category; afi = h.afi; to = is_address s a e; from = h.from })
      | inr (x, e) ↦ rw e h
    ];
  }

  set_from-Keeps : (s : Bytes) → Keeps IsBuffer (set_from c s)
  unfolding set_from ◌>>=◌
  set_from-Keeps s = record {
    keeps = λ b h. elim (Result-cases (normalize_address c s false)) [
      | inl (a, e) ↦
          rw e (record { category = h.category; afi = h.afi; to = h.to; from = is_address s a e })
      | inr (x, e) ↦ rw e h
    ];
  }

  read_map_servers-Keeps : (l : List Bytes) → Keeps IsBuffer (read_map_servers c l)
  unfolding read_map_servers
  read_map_servers-Keeps [] = Keeps-lift
  read_map_servers-Keeps (a ∷ []) = Keeps-lift
  read_map_servers-Keeps (a ∷ i ∷ []) = Keeps-lift
  read_map_servers-Keeps (a ∷ i ∷ x ∷ l) = Keeps->>= (append_address-Keeps a i) (λ _.
      Keeps->>= Keeps-lift (λ z.
        Keeps->>= (Keeps-call (append_item-IsBuffer (str z))) (λ _. read_map_servers-Keeps l)))

  read_locators-Keeps : (l : List Bytes) → Keeps IsBuffer (read_locators c l)
  unfolding read_locators
  read_locators-Keeps [] = Keeps-lift
  read_locators-Keeps (a ∷ []) = Keeps-lift
  read_locators-Keeps (a ∷ i ∷ []) = Keeps-lift
  read_locators-Keeps (a ∷ i ∷ x ∷ []) = Keeps-lift
  read_locators-Keeps (a ∷ i ∷ x ∷ w ∷ l) = Keeps->>= (append_address-Keeps a i) (λ _. Keeps-lift)

  read_metadata-Keeps : (l : List Bytes) (n : Option ℕ) → Keeps IsBuffer (read_metadata c l n)
  unfolding read_metadata
  read_metadata-Keeps l none = Keeps-lift
  read_metadata-Keeps l (some n) =
      Keeps-if (nat_beq n 2)
        (Keeps-if (nat_beq (length l % 3) 0) (read_map_servers-Keeps l)
          (Keeps-lift {r = err exception}))
        (Keeps-if (nat_beq n 3)
          (Keeps-if (nat_beq (length l % 4) 0) (read_locators-Keeps l)
            (Keeps-lift {r = err exception}))
          (Keeps-lift {r = err exception}))

  set_metadata-Keeps : (s : Bytes) → Keeps IsBuffer (set_metadata c s)
  unfolding set_metadata
  set_metadata-Keeps s =
      Keeps->>=
        (Keeps-call
          (λ b h. record { category = h.category; afi = h.afi; to = h.to; from = h.from }))
        (λ _.
          Keeps->>= (Keeps-call (λ b h. h))
            (λ b. read_metadata-Keeps ((split b',' s).0 ∷ (split b',' s).1) b.category))

  set_category-Keeps : (s : Bytes) → Keeps IsBuffer (set_category s)
  unfolding set_category
  set_category-Keeps s = Keeps->>= Keeps-lift store_category-Keeps

  set_afi-Keeps : (s : Bytes) → Keeps IsBuffer (set_afi s)
  unfolding set_afi
  set_afi-Keeps s = Keeps->>= Keeps-lift store_afi-Keeps

  set_value-Keeps : (s : Bytes) → Keeps IsBuffer (set_value s)
  unfolding set_value
  set_value-Keeps s =
      Keeps-call (λ b h. record { category = h.category; afi = h.afi; to = h.to; from = h.from })

  set_field-Keeps : (type content : Bytes) → Keeps IsBuffer (set_field c type content)
  unfolding set_field
  set_field-Keeps type content = Keeps-if (type == category_name) (set_category-Keeps content) (
      Keeps-if (type == to_name) (set_to-Keeps content) (
        Keeps-if (type == from_name) (set_from-Keeps content) (
          Keeps-if (type == afi_name) (set_afi-Keeps content) (
            Keeps-if (type == value_name) (set_value-Keeps content) (
              Keeps-if (type == metadata_name) (set_metadata-Keeps content)
                (Keeps-lift {r = err key_error}))))))

  complete_of-IsEntry :
      (a n : Option ℕ) (v t f : Option Bytes) (m : Option (List Item)) (l : List Entry)
      → Maybe IsAfi a
      → Maybe (λ k. k ≤ 3) n
      → Maybe IsAddress t
      → Maybe IsAddress f
      → AllEntries l
      → AllEntries (cons_some c (complete_of c a n v t f m) l)
  unfolding complete_of
  complete_of-IsEntry none n v t f m l ha hn ht hf k = k
  complete_of-IsEntry (some a) none v t f m l ha hn ht hf k = k
  complete_of-IsEntry (some a) (some n) none t f m l ha hn ht hf k = k
  complete_of-IsEntry (some a) (some n) (some v) none f m l ha hn ht hf k = k
  complete_of-IsEntry (some a) (some n) (some v) (some t) none m l ha hn ht hf k = k
  complete_of-IsEntry (some a) (some n) (some v) (some t) (some f) m l ha hn ht hf k =
      (record { category = hn; afi = ha; to = ht; from = hf }, k)

  no_data-IsBuffer : IsBuffer no_data
  no_data-IsBuffer = record { category = tt; afi = tt; to = tt; from = tt }

  read_lines-AllEntries :
      (b : Buffer) (lines : List Bytes) (l : List Entry)
      → IsBuffer b
      → read_lines c b lines ≡ ok l
      → AllEntries l
  unfolding read_lines complete
  read_lines-AllEntries b [] l h e = let e' : [] ≡ l = cc in rw (← e') tt
  read_lines-AllEntries b (line ∷ lines) l h e = elim (Result-cases (read_line c line)) [
    | inr (x, r) ↦ let e' : err x ≡ ok l = rw (r, read_lines) at e in cc
    | inl ((type, content), r) ↦ elim (Bool-cases (type == end_name)) [
      | inr t ↦
          read_lines-AllEntries (set_field c type content b).1 lines l
            ((set_field-Keeps type content).keeps b h) (rw (r, t, read_lines) at e)
      | inl t ↦ elim (Result-cases (read_lines c no_data lines)) [
        | inr (x, k) ↦ let e' : err x ≡ ok l = rw (r, t, k, read_lines) at e in cc
        | inl (l', k) ↦
            let e' : ok (cons_some c (complete c b) l') ≡ ok l = rw (r, t, k, read_lines) at e in
            let e'' : cons_some c (complete c b) l' ≡ l = cc in
            rw (← e'') (
              complete_of-IsEntry b.afi b.category b.value b.to b.from b.metadata l' h.afi
                h.category h.to h.from (read_lines-AllEntries no_data lines l' no_data-IsBuffer k))
      ]
    ]
  ]

  AllEntries-append : (l l' : List Entry) → AllEntries l → AllEntries l' → AllEntries (l ++ l')
  AllEntries-append [] l' h k = k
  AllEntries-append (x ∷ l) l' h k = (h.0, AllEntries-append l l' h.1 k)

  -- Every entry that `read_transactions` leaves in the list has a category up to 3, the address
  -- family 1 or 2 and addresses of 20 bytes, where the entries before it have.
  pub read_transactions-AllEntries :
      (lines : List Bytes) (before after : List Entry)
      → AllEntries before
      → read_transactions c lines before ≡ ok after
      → AllEntries after
  unfolding read_transactions
  read_transactions-AllEntries lines before after h e =
      elim (Result-cases (read_lines c no_data lines)) [
        | inr (x, k) ↦ let e' : err x ≡ ok after = rw (k, read_transactions) at e in cc
        | inl (l, k) ↦
            let e' : ok (before ++ l) ≡ ok after = rw (k, read_transactions) at e in
            let e'' : before ++ l ≡ after = cc in
            rw (← e'') (
              AllEntries-append before l h
                (read_lines-AllEntries no_data lines l no_data-IsBuffer k))
      ]
