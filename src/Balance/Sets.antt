-- ===== src/Balance/Sets.antt =====
-- `delegated_ips` and `received_ips`, address by address: what the adding and the removing methods
-- do to them, and that no entry is ever empty.
use blockchain_mapping_syste.Prelude.{
  ◌<◌, nat_beq, nat_beq_iff, ◌≡◌, inl, inr, Bool, true, false, not, ◌&&◌, ◌||◌, Option, none, some,
  Bytes, bytes_eq, bytes_beq_sound, ◌==◌, if◌then◌else◌, ok, arith, Bool-cases, Option-cases,
}
use blockchain_mapping_syste.Prelude.Dict.{Dict, lookup, insert, lookup-insert, lookup-erase}
use blockchain_mapping_syste.NetAddr.{NetAddr}
use blockchain_mapping_syste.Balance.{add_ips, remove_ips}

module _ (n : NetAddr) where
  abbrev pub in_entry : n.Ip → Option n.IpSet → Bool
  in_entry x none = false
  in_entry x (some s) = n.mem x s

  -- The address `x` is in the set of the entry of `a`.
  abbrev pub holds : n.Ip → Bytes → Dict Bytes n.IpSet → Bool
  holds x a d = in_entry x (lookup a d)

  pub mem-size_zero : (s : n.IpSet) (x : n.Ip) → n.size s ≡ 0 → n.mem x s ≡ false
  mem-size_zero s x h = (n.size-zero_iff s).0 h x

  pub size-mem : (s : n.IpSet) (x : n.Ip) → n.mem x s ≡ true → 0 < n.size s
  size-mem s x h = elim (Bool-cases (nat_beq (n.size s) 0)) [
    | inl e ↦ cc (mem-size_zero s x ((nat_beq_iff _ _).0 e))
    | inr e ↦ ground arith
  ]

  -- Adding a network to the entry of `a`, which may be missing, adds its addresses there and
  -- none to another entry.
  pub holds-add_ips :
      (a j : Bytes) (ips : n.Net) (d : Dict Bytes n.IpSet) (x : n.Ip)
      → holds x j (add_ips n a ips d)
        ≡ (if a == j then (holds x j d || n.mem_net x ips) else holds x j d)
  unfolding add_ips
  holds-add_ips a j ips d x = elim (Option-cases (lookup a d)) [
    | inl e ↦
        ground (arith, lookup-insert a j (n.of_net ips) d, bytes_beq_sound a j, n.mem-of_net x ips)
    | inr (s, e) ↦
        ground (arith, lookup-insert a j (n.add s ips) d, bytes_beq_sound a j, n.mem-add x s ips)
  ]

  -- A removal from the entry of `a` that does not raise takes the addresses out there, and
  -- leaves every other entry alone.
  pub holds-remove_ips :
      (a j : Bytes) (ips : n.IpSet) (d : Dict Bytes n.IpSet) (x : n.Ip) {d' : Dict Bytes n.IpSet}
      → remove_ips n a ips d ≡ ok d'
      → holds x j d' ≡ (if a == j then (holds x j d && not (n.mem x ips)) else holds x j d)
  unfolding remove_ips
  holds-remove_ips a j ips d x h = elim (Option-cases (lookup a d)) [
    | inl e ↦ ground arith
    | inr (s, e) ↦
        let left = n.diff s ips in
        ground (
          arith,
          lookup-insert a j left d,
          lookup-erase a j (insert a left d),
          bytes_beq_sound a j,
          n.mem-diff x s ips,
          mem-size_zero left x,
          n.len-size left,
        )
  ]

  -- No entry is an empty set.
  abbrev pub HasNoEmpty : Dict Bytes n.IpSet → Type 0
  HasNoEmpty d = (j : Bytes) (s : n.IpSet) → lookup j d ≡ some s → 0 < n.size s

  add-not_empty : (s : n.IpSet) (ips : n.Net) → 0 < n.size (n.add s ips)
  add-not_empty s ips =
      let x = n.net_point ips in
      size-mem (n.add s ips) x (ground (arith, n.mem-add x s ips, n.mem-net_point ips))

  of_net-not_empty : (ips : n.Net) → 0 < n.size (n.of_net ips)
  of_net-not_empty ips =
      let x = n.net_point ips in
      size-mem (n.of_net ips) x (ground (arith, n.mem-of_net x ips, n.mem-net_point ips))

  pub add_ips-HasNoEmpty :
      (a : Bytes) (ips : n.Net) (d : Dict Bytes n.IpSet)
      → HasNoEmpty d
      → HasNoEmpty (add_ips n a ips d)
  unfolding add_ips
  add_ips-HasNoEmpty a ips d h j t q = elim (Option-cases (lookup a d)) [
    | inl e ↦ ground (arith, lookup-insert a j (n.of_net ips) d, of_net-not_empty ips, h j t)
    | inr (s, e) ↦ ground (arith, lookup-insert a j (n.add s ips) d, add-not_empty s ips, h j t)
  ]

  -- Where no entry is an empty set, none is after a removal that does not raise.
  pub remove_ips-HasNoEmpty :
      (a : Bytes) (ips : n.IpSet) (d d' : Dict Bytes n.IpSet)
      → HasNoEmpty d
      → remove_ips n a ips d ≡ ok d'
      → HasNoEmpty d'
  unfolding remove_ips
  remove_ips-HasNoEmpty a ips d d' h r j t q = elim (Option-cases (lookup a d)) [
    | inl e ↦ ground arith
    | inr (s, e) ↦
        let left = n.diff s ips in
        ground (
          arith,
          lookup-insert a j left d,
          lookup-erase a j (insert a left d),
          n.len-size left,
          h j t,
        )
  ]
