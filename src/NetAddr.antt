-- ===== src/NetAddr.antt =====
-- The netaddr and ipaddr packages, as far as the code uses them. An `IpSet` is known by the single
-- addresses in it; `mem` and `mem_net` serve the laws only.
pub mod Singletons
use blockchain_mapping_syste.Prelude.{
  ℕ, ltb, if◌then◌else◌, Result, ok, err, index_error, ◌≡◌, ◌↔◌, Bool, true, false, not, ◌&&◌, ◌||◌,
  Option, Bytes, Eq, ◌==◌,
}

pub record NetAddr : Type 1 where
  -- One address, `IPNetwork` and `IPSet`.
  pub Ip : Type 0
  pub Net : Type 0
  pub IpSet : Type 0
  pub net_eq : Eq Net
  -- `IPSet()`, `IPSet(net)`, `s.add(net)`, `s.remove(net)`, `s - t`, `s & t`, `net in s`, `s.size`, `len(s)`
  pub empty : IpSet
  pub of_net : Net → IpSet
  pub add : IpSet → Net → IpSet
  pub remove : IpSet → Net → IpSet
  pub diff : IpSet → IpSet → IpSet
  pub inter : IpSet → IpSet → IpSet
  pub contains : IpSet → Net → Bool
  pub size : IpSet → ℕ
  pub len : IpSet → Result ℕ
  -- `sys.maxint`
  pub maxint : ℕ
  -- `IPNetwork(str(IPv4Address(Bytes(b))))`, and for IPv6; `none` where they raise.
  pub net_of_v4 : Bytes → Option Net
  pub net_of_v6 : Bytes → Option Net
  pub mem : Ip → IpSet → Bool
  pub mem_net : Ip → Net → Bool
  -- The first address of a network.
  pub net_point : Net → Ip
  pub mem-net_point : (n : Net) → mem_net (net_point n) n ≡ true
  pub mem-empty : (x : Ip) → mem x empty ≡ false
  pub mem-of_net : (x : Ip) (n : Net) → mem x (of_net n) ≡ mem_net x n
  pub mem-add : (x : Ip) (s : IpSet) (n : Net) → mem x (add s n) ≡ (mem x s || mem_net x n)
  pub mem-remove :
      (x : Ip) (s : IpSet) (n : Net) → mem x (remove s n) ≡ (mem x s && not (mem_net x n))
  pub mem-diff : (x : Ip) (s t : IpSet) → mem x (diff s t) ≡ (mem x s && not (mem x t))
  pub mem-inter : (x : Ip) (s t : IpSet) → mem x (inter s t) ≡ (mem x s && mem x t)
  pub len-size :
      (s : IpSet) → len s ≡ (if ltb maxint (size s) then err index_error else ok (size s))
  pub contains_iff :
      (s : IpSet) (n : Net)
      → (contains s n ≡ true) ↔ ((x : Ip) → mem_net x n ≡ true → mem x s ≡ true)
  pub size-zero_iff : (s : IpSet) → (size s ≡ 0) ↔ ((x : Ip) → mem x s ≡ false)
