-- ===== src/Balance/Mappings.antt =====
-- `set_map_server` and `set_locator`: each empties what the other sets, and the locators of one
-- call end up with one priority and weight, the last, since they share a list.
use blockchain_mapping_syste.Prelude.{
  ℕ, ◌≡◌, some, List, [], ◌∷◌, Bytes, bytes_eq, ok, arith, >>=-eq-ok,
}
use blockchain_mapping_syste.Prelude.Dict.{Dict, lookup, lookup-insert}
use blockchain_mapping_syste.Utils.{bytes_to_int}
use blockchain_mapping_syste.NetAddr.{NetAddr}
use blockchain_mapping_syste.Balance.{
  Balance, set_map_server, set_locator, locators_from, write_shared, ipaddr_to_netaddr,
}

-- What a call that replaced the mappings has left alone.
pub record KeepsIps (n : NetAddr) (b b' : Balance n) : Type 0 where
  pub own : b'.own_ips ≡ b.own_ips
  pub delegated : b'.delegated_ips ≡ b.delegated_ips
  pub received : b'.received_ips ≡ b.received_ips

module _ (n : NetAddr) (items : List Bytes) (b b' : Balance n) where
  -- A balance whose map servers have been set has no locators, and its addresses are unchanged.
  pub set_map_server-locator :
      set_map_server n items b ≡ ok b' → (b'.locator ≡ []) × KeepsIps n b b'
  unfolding set_map_server
  set_map_server-locator h = ground arith

  -- A balance whose locators have been set has no map servers, and its addresses are unchanged.
  pub set_locator-map_server :
      set_locator n items b ≡ ok b' → (b'.map_server ≡ []) × KeepsIps n b b'
  unfolding set_locator
  set_locator-map_server h = ground arith

-- One locator as it stands in the metadata: afi, address, priority and weight.
pub record LocatorItem : Type 0 where
  pub afi : Bytes
  pub ip : Bytes
  pub priority : Bytes
  pub weight : Bytes

abbrev pub flat : List LocatorItem → List Bytes → List Bytes
flat [] rest = rest
flat (g ∷ gs) rest = g.afi ∷ g.ip ∷ g.priority ∷ g.weight ∷ flat gs rest

module _ (n : NetAddr) where
  lookup-write_shared :
      (l q : ℕ × ℕ) (ip : n.Net) (m : Dict n.Net (ℕ × ℕ))
      → lookup ⦃e = n.net_eq⦄ ip (write_shared n l m) ≡ some q
      → q ≡ l
  unfolding write_shared
  lookup-write_shared l q ip [] h = cc
  lookup-write_shared l q ip ((j, v) ∷ m) h = ground (arith, lookup-write_shared l q ip m)

  last_shared :
      (gs : List LocatorItem) (g : LocatorItem) (m m' : Dict n.Net (ℕ × ℕ)) (p w : ℕ)
      → locators_from n (flat gs (flat (g ∷ []) [])) m ≡ ok m'
      → bytes_to_int g.priority ≡ ok p
      → bytes_to_int g.weight ≡ ok w
      → (ip : n.Net) (q : ℕ × ℕ) → lookup ⦃e = n.net_eq⦄ ip m' ≡ some q
      → q ≡ (p, w)
  unfolding locators_from
  last_shared [] g m m' p w h hp hw ip q e =
      let (a, _, h1) = >>=-eq-ok (bytes_to_int g.afi) _ h in
      let (i, _, h2) = >>=-eq-ok (ipaddr_to_netaddr n a g.ip) _ h1 in
      let (p', _, h3) = >>=-eq-ok (bytes_to_int g.priority) _ h2 in
      let (w', _, h4) = >>=-eq-ok (bytes_to_int g.weight) _ h3 in
      let shared = write_shared n (p', w') m in
      ground (
        arith,
        lookup-insert ⦃e = n.net_eq⦄ i ip (p', w') shared,
        lookup-write_shared (p', w') q ip m,
      )
  last_shared (f ∷ gs) g m m' p w h hp hw ip q e =
      let (a, _, h1) = >>=-eq-ok (bytes_to_int f.afi) _ h in
      let (i, _, h2) = >>=-eq-ok (ipaddr_to_netaddr n a f.ip) _ h1 in
      let (p', _, h3) = >>=-eq-ok (bytes_to_int f.priority) _ h2 in
      let (w', _, h4) = >>=-eq-ok (bytes_to_int f.weight) _ h3 in
      last_shared gs g _ m' p w h4 hp hw ip q e

  -- When `set_locator` returns on a list that ends in the locator `g`, whose priority and
  -- weight are numbers, every locator of the balance has the priority and the weight of `g`,
  -- whatever its own were.
  pub set_locator-shared :
      (gs : List LocatorItem) (g : LocatorItem) (b b' : Balance n) (p w : ℕ)
      → set_locator n (flat gs (flat (g ∷ []) [])) b ≡ ok b'
      → bytes_to_int g.priority ≡ ok p
      → bytes_to_int g.weight ≡ ok w
      → (ip : n.Net) (q : ℕ × ℕ) → lookup ⦃e = n.net_eq⦄ ip b'.locator ≡ some q
      → q ≡ (p, w)
  unfolding set_locator
  set_locator-shared gs g b b' p w h hp hw ip q e =
      let (m, hm, done) = >>=-eq-ok (locators_from n (flat gs (flat (g ∷ []) [])) []) _ h in
      last_shared gs g [] m p w hm hp hw ip q (ground arith)
