-- ===== src/Refresh/Networks.antt =====
-- The IPv6 networks of a refresh: what `configure_members` of src/authority.rs computes before the
-- loop over the members.
use zeronsd.Base.{◌≡◌, Option, some, none, if◌then◌else◌, Outcome, ok, ◌>>=◌, or_panic, arith}
use zeronsd.Base.Exec.{continue, continue-step}
use zeronsd.Central.{Network, V6AssignMode}
use zeronsd.Crates.{Crates}
use zeronsd.Addresses.{network_rfc4193}
use zeronsd.Refresh.{Refresh, sixplane_network, rfc4193_network, assigned_networks, is_on}

module _ (C : Crates) where
  -- The IPv6 networks in which a network assigns addresses: 6PLANE and RFC 4193.
  abbrev pub rfc4193_of : Network → V6AssignMode → Outcome (Option C.IpNetwork)
  rfc4193_of network mode =
      if is_on mode.rfc4193 then (network_rfc4193 C network >>= λ n. ok (some n)) else ok none

  abbrev pub assigned_of :
      Network → Option V6AssignMode → Outcome (Option C.IpNetwork × Option C.IpNetwork)
  assigned_of network none = ok (none, none)
  assigned_of network (some mode) = sixplane_network C network mode >>= λ sixplane.
      rfc4193_of network mode >>= λ rfc4193. ok (sixplane, rfc4193)

  abbrev pub ipv6_networks : Network → Outcome (Option C.IpNetwork × Option C.IpNetwork)
  ipv6_networks network =
      or_panic network.config >>= λ config. assigned_of network config.v6_assign_mode

  rfc4193_network-value :
      (network : Network) (mode : V6AssignMode) (s : Refresh C) (o : Option C.IpNetwork)
      → (rfc4193_network C network mode s).0 ≡ ok o
      → rfc4193_of network mode ≡ ok o
  unfolding rfc4193_network
  rfc4193_network-value network mode s o h = ground (arith, h)

  pub assigned_networks-value :
      (network : Network) (o : Option V6AssignMode) (s : Refresh C)
      (nets : Option C.IpNetwork × Option C.IpNetwork)
      → (assigned_networks C network o s).0 ≡ ok nets
      → assigned_of network o ≡ ok nets
  unfolding assigned_networks
  assigned_networks-value network none s nets h = h
  assigned_networks-value network (some mode) s nets h =
      let (sixplane, six, here, rest) =
        continue-step (sixplane_network C network mode, s)
          (λ sixplane s'.
            continue (rfc4193_network C network mode s')
              (λ rfc4193 s''. (ok (sixplane, rfc4193), s'')))
          h in
      let (rfc4193, r, _, last) =
        continue-step (rfc4193_network C network mode s)
          (λ rfc4193 s''. (ok (sixplane, rfc4193), s'')) rest in
      rw (six, rfc4193_network-value network mode s rfc4193 r) last
