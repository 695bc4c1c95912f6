-- ===== src/MapReply/Alignment.antt =====
-- Every answer is a whole number of bytes, so taking its bytes never raises.
use blockchain_mapping_syste.Prelude.{
  ℕ, ◌+◌, ◌*◌, ◌-◌, ◌<◌, Bool, true, false, Option, none, some, List, [], ◌∷◌, ◌++◌, Bytes, length,
  length-append, replicate, nat_beq, if◌then◌else◌, ◌≡◌, refl, ◌∙◌, inl, inr, arith, Bool-cases,
  Result, ok, err, >>=-eq-ok, exception, value_error, unbound_local, catch_as, or_raise, ◌>>=◌,
}
use blockchain_mapping_syste.MapReply.{
  uint, Net, get_bitstream_for_afi_address, LocatorRecord, locator_bits, MapReplyRecord,
  locators_bits, map_reply_bits, servers_bits, map_servers_bits, Info, servers, reply, flag_of,
  info_bits, response_bits, bytes_of, byte_of, to_bytes, afi_of,
}
use blockchain_mapping_syste.MapReply.Layout.{length-uint}

-- The length is `m` bytes.
record IsWhole (l : List Bool) : Type 0 where
  pub size : ℕ
  pub is_size : length l ≡ size * 8

append-IsWhole : (a b : List Bool) → IsWhole a → IsWhole b → IsWhole (a ++ b)
append-IsWhole a b h k = record {
  size = h.size + k.size;
  is_size = omega (arith, length-append a b, h.is_size, k.is_size);
}

uint-IsWhole : (n m v : ℕ) (l : List Bool) → n ≡ m * 8 → uint n v ≡ ok l → IsWhole l
uint-IsWhole n m v l e h = record { size = m; is_size = length-uint n v l h ∙ e }

ok_injective : {A : Type 0} (x y : A) → ok x ≡ ok y → x ≡ y
ok_injective x y h = cc

two_fit :
    (n m a w u ip : ℕ) (l : List Bool)
    → n ≡ m * 8
    → w ≡ u * 8
    → (do x ← uint n a; y ← uint w ip; ok (x ++ y)) ≡ ok l
    → IsWhole l
two_fit n m a w u ip l en ew h =
    let (x, ex, h1) = >>=-eq-ok (uint n a) _ h in
    let (y, ey, h2) = >>=-eq-ok (uint w ip) _ h1 in
    rw (← ok_injective _ l h2)
      (append-IsWhole x y (uint-IsWhole n m a x en ex) (uint-IsWhole w u ip y ew ey))

address-IsWhole :
    (a : Option Net) (l : List Bool) → get_bitstream_for_afi_address a ≡ ok l → IsWhole l
unfolding get_bitstream_for_afi_address
address-IsWhole none l h =
    rw (← ok_injective (replicate 16 false) l h) (record { size = 2; is_size = refl })
address-IsWhole (some a) l h = elim (Bool-cases (nat_beq a.version 4)) [
  | inl v4 ↦ two_fit 16 2 1 32 4 a.ip l refl refl (rw v4 at h)
  | inr other ↦ elim (Bool-cases (nat_beq a.version 6)) [
    | inl v6 ↦ two_fit 16 2 2 128 16 a.ip l refl refl (rw (other, v6) at h)
    | inr neither ↦ let h' : err value_error ≡ ok l = rw (other, neither) at h in cc
  ]
]

locator-IsWhole : (l : LocatorRecord) (b : List Bool) → locator_bits l ≡ ok b → IsWhole b
unfolding locator_bits
locator-IsWhole l b h =
    let (x1, e1, h1) = >>=-eq-ok (uint 8 l.priority) _ h in
    let (x2, e2, h2) = >>=-eq-ok (uint 8 l.weight) _ h1 in
    let (x3, e3, h3) = >>=-eq-ok (uint 8 l.mpriority) _ h2 in
    let (x4, e4, h4) = >>=-eq-ok (uint 8 l.mweight) _ h3 in
    let (x5, e5, h5) = >>=-eq-ok (uint 13 l.unusedflags) _ h4 in
    let (x6, e6, h6) = >>=-eq-ok (uint 3 l.lpr) _ h5 in
    let (x7, e7, h7) = >>=-eq-ok (get_bitstream_for_afi_address l.locator) _ h6 in
    let q = address-IsWhole l.locator x7 e7 in
    let flags : IsWhole (x5 ++ (x6 ++ x7)) = record {
      size = 2 + q.size;
      is_size = omega (
        arith,
        length-append x5 (x6 ++ x7),
        length-append x6 x7,
        length-uint 13 l.unusedflags x5 e5,
        length-uint 3 l.lpr x6 e6,
        q.is_size,
      );
    } in
    rw (← ok_injective _ b h7) (
      append-IsWhole x1 _ (uint-IsWhole 8 1 _ x1 refl e1) (
        append-IsWhole x2 _ (uint-IsWhole 8 1 _ x2 refl e2) (
          append-IsWhole x3 _ (uint-IsWhole 8 1 _ x3 refl e3)
            (append-IsWhole x4 _ (uint-IsWhole 8 1 _ x4 refl e4) flags))))

caught : (r : Result (List Bool)) (b : List Bool) → catch_as r exception ≡ ok b → r ≡ ok b
caught (ok a) b h = h
caught (err e) b h = cc

locators-IsWhole : (ls : List LocatorRecord) (b : List Bool) → locators_bits ls ≡ ok b → IsWhole b
unfolding locators_bits
locators-IsWhole [] b h = rw (← ok_injective [] b h) (record { size = 0; is_size = refl })
locators-IsWhole (l ∷ ls) b h =
    let (x, ex, h1) = >>=-eq-ok (catch_as (locator_bits l) exception) _ h in
    let (y, ey, h2) = >>=-eq-ok (locators_bits ls) _ h1 in
    rw (← ok_injective _ b h2) (
      append-IsWhole x y (locator-IsWhole l x (caught (locator_bits l) x ex))
        (locators-IsWhole ls y ey))

map_reply-IsWhole : (m : MapReplyRecord) (b : List Bool) → map_reply_bits m ≡ ok b → IsWhole b
unfolding map_reply_bits
map_reply-IsWhole m b h =
    let (x1, e1, h1) = >>=-eq-ok (uint 32 m.ttl) _ h in
    let (x2, e2, h2) = >>=-eq-ok (uint 8 (length m.locator_records)) _ h1 in
    let (x3, e3, h3) = >>=-eq-ok (uint 8 m.eid_prefix.prefixlen) _ h2 in
    let (x4, e4, h4) = >>=-eq-ok (uint 3 m.action) _ h3 in
    let (x5, e5, h5) = >>=-eq-ok (uint 12 m.map_version) _ h4 in
    let (x6, e6, h6) = >>=-eq-ok (get_bitstream_for_afi_address (some m.eid_prefix)) _ h5 in
    let (x7, e7, h7) = >>=-eq-ok (locators_bits m.locator_records) _ h6 in
    let q =
      append-IsWhole x6 x7 (address-IsWhole (some m.eid_prefix) x6 e6)
        (locators-IsWhole m.locator_records x7 e7) in
    let reserved : List Bool = replicate 16 false ++ (x5 ++ (x6 ++ x7)) in
    let flags : IsWhole (x4 ++ (m.authoritative ∷ reserved)) = record {
      size = 4 + q.size;
      is_size = omega (
        arith,
        length-append x4 (m.authoritative ∷ reserved),
        length-append (replicate 16 false) (x5 ++ (x6 ++ x7)),
        length-append x5 (x6 ++ x7),
        length-uint 3 m.action x4 e4,
        length-uint 12 m.map_version x5 e5,
        q.is_size,
      );
    } in
    rw (← ok_injective _ b h7) (
      append-IsWhole x1 _ (uint-IsWhole 32 4 _ x1 refl e1) (
        append-IsWhole x2 _ (uint-IsWhole 8 1 _ x2 refl e2)
          (append-IsWhole x3 _ (uint-IsWhole 8 1 _ x3 refl e3) flags)))

servers-IsWhole :
    (afi : Option ℕ) (l : List Net) (b : List Bool) → servers_bits afi l ≡ ok b → IsWhole b
unfolding servers_bits
servers-IsWhole afi [] b h = rw (← ok_injective [] b h) (record { size = 0; is_size = refl })
servers-IsWhole afi (key ∷ keys) b h =
    let (a, _, h1) = >>=-eq-ok (or_raise (afi_of key.version afi) unbound_local) _ h in
    let (x, ex, h2) = >>=-eq-ok (uint 16 a) _ h1 in
    let (y, ey, h3) = >>=-eq-ok (uint (if nat_beq a 1 then 32 else 128) key.ip) _ h2 in
    let (z, ez, h4) = >>=-eq-ok (servers_bits (afi_of key.version afi) keys) _ h3 in
    rw (← ok_injective _ b h4) (
      append-IsWhole x _ (uint-IsWhole 16 2 a x refl ex) (
        append-IsWhole y z
          (uint-IsWhole _ (if nat_beq a 1 then 4 else 16) key.ip y (sizes (nat_beq a 1)) ey)
          (servers-IsWhole (afi_of key.version afi) keys z ez)))
  where
    sizes : (c : Bool) → (if c then 32 else 128) ≡ (if c then 4 else 16) * 8
    sizes true = refl
    sizes false = refl

info-IsWhole : (info : Info) (b : List Bool) → info_bits info ≡ ok b → IsWhole b
unfolding info_bits map_servers_bits
info-IsWhole (reply m) b h = map_reply-IsWhole m b h
info-IsWhole (servers l) b h =
    let (x, ex, h1) = >>=-eq-ok (uint 8 (length l)) _ h in
    let (y, ey, h2) = >>=-eq-ok (servers_bits none l) _ h1 in
    rw (← ok_injective _ b h2)
      (append-IsWhole x y (uint-IsWhole 8 1 _ x refl ex) (servers-IsWhole none l y ey))

response-IsWhole :
    (nonce : ℕ) (info : Info) (b : List Bool) → response_bits nonce info ≡ ok b → IsWhole b
unfolding response_bits
response-IsWhole nonce info b h =
    let (x, ex, h1) = >>=-eq-ok (uint 64 nonce) _ h in
    let (y, ey, h2) = >>=-eq-ok (uint 8 (flag_of info)) _ h1 in
    let (z, ez, h3) = >>=-eq-ok (info_bits info) _ h2 in
    rw (← ok_injective _ b h3) (
      append-IsWhole x _ (uint-IsWhole 64 8 _ x refl ex)
        (append-IsWhole y z (uint-IsWhole 8 1 _ y refl ey) (info-IsWhole info z ez)))

odd : (n m : ℕ) → n ≡ m * 8 → 0 < n → ¬ (n < 8)
odd n m q l h = omega arith

-- The bytes of a list of bits.
pub record HasBytes (b : List Bool) (r : Result Bytes) : Type 0 where
  pub bytes : Bytes
  pub is_bytes : r ≡ ok bytes
  pub count : length b ≡ length bytes * 8

bytes_of-HasBytes : (b : List Bool) (m : ℕ) → length b ≡ m * 8 → HasBytes b (bytes_of b)
unfolding bytes_of
bytes_of-HasBytes [] m e = record { bytes = []; is_bytes = refl; count = refl }
bytes_of-HasBytes (a ∷ b ∷ c ∷ d ∷ e ∷ f ∷ g ∷ h ∷ l) m q =
    let r = bytes_of-HasBytes l (m - 1) (omega arith) in
    record {
      bytes = byte_of (a ∷ b ∷ c ∷ d ∷ e ∷ f ∷ g ∷ h ∷ []) 0 ∷ r.bytes;
      is_bytes = rw r.is_bytes refl;
      count = omega (arith, r.count);
    }
bytes_of-HasBytes (a ∷ []) m q = elim (odd 1 m q (omega arith) (omega arith)) [ ]
bytes_of-HasBytes (a ∷ b ∷ []) m q = elim (odd 2 m q (omega arith) (omega arith)) [ ]
bytes_of-HasBytes (a ∷ b ∷ c ∷ []) m q = elim (odd 3 m q (omega arith) (omega arith)) [ ]
bytes_of-HasBytes (a ∷ b ∷ c ∷ d ∷ []) m q = elim (odd 4 m q (omega arith) (omega arith)) [ ]
bytes_of-HasBytes (a ∷ b ∷ c ∷ d ∷ e ∷ []) m q = elim (odd 5 m q (omega arith) (omega arith)) [ ]
bytes_of-HasBytes (a ∷ b ∷ c ∷ d ∷ e ∷ f ∷ []) m q =
    elim (odd 6 m q (omega arith) (omega arith)) [ ]
bytes_of-HasBytes (a ∷ b ∷ c ∷ d ∷ e ∷ f ∷ g ∷ []) m q =
    elim (odd 7 m q (omega arith) (omega arith)) [ ]

-- When the bits of an answer can be built, `to_bytes` returns, and the bits are eight for each
-- byte.
pub to_bytes-HasBytes :
    (nonce : ℕ) (info : Info) (b : List Bool)
    → response_bits nonce info ≡ ok b
    → HasBytes b (to_bytes nonce info)
unfolding to_bytes
to_bytes-HasBytes nonce info b h =
    let w = response-IsWhole nonce info b h in rw h (bytes_of-HasBytes b w.size w.is_size)
