-- ===== src/Refresh/NewNetwork.antt =====
-- What `configure_members` of src/authority.rs does when the network starts to assign RFC 4193
-- addresses after the reverse zones were set up.
use zeronsd.Base.{
  ◌≡◌, refl, ◌∙◌, ap, true, Option, none, some, List, [], ◌∷◌, or_panic, ok, panic, arith, map,
}
use zeronsd.Base.Dict
use zeronsd.Base.Exec.{continue, continue_of_ok, continue_of_panic}
use zeronsd.Central.{Member, Network, NetworkConfig, V6AssignMode}
use zeronsd.Crates.{Crates}
use zeronsd.Crates.Laws.{IsNamesLawful}
use zeronsd.Addresses.{network_rfc4193}
use zeronsd.Authority.{HostsFile, RecordAuthority}
use zeronsd.Authority.PruneHosts.Final.{prune_hosts-eq-ok}
use zeronsd.Refresh.{
  ZtAuthority, Refresh, start_refresh, refresh_hosts, sixplane_network, rfc4193_network,
  assigned_networks, is_on,
}
use zeronsd.Refresh.Configure.{refresh_members, refresh_config, refresh_assigned, configure_members}

module _ (C : Crates) where
  -- The lists of written names have the networks of the reverse zones.
  lookup-start :
      (net : C.IpNetwork) (m : List (C.IpNetwork × RecordAuthority C))
      → Dict.lookup C.net_eq net m ≡ none
      → Dict.lookup C.net_eq net
          (map (λ (network, authority). (network, authority.domain_name ∷ [])) m)
        ≡ none
  unfolding Dict.lookup
  lookup-start net [] h = refl
  lookup-start net ((n, authority) ∷ m) h = ground (arith, lookup-start net m)

  rfc4193_network_panics :
      (network : Network) (mode : V6AssignMode) (net : C.IpNetwork) (s : Refresh C)
      → is_on mode.rfc4193 ≡ true
      → network_rfc4193 C network ≡ ok net
      → Dict.lookup C.net_eq net s.reverse_records ≡ none
      → rfc4193_network C network mode s ≡ (panic, s)
  unfolding rfc4193_network
  rfc4193_network_panics network mode net s on made missing = rw (on, made, continue, missing)

  assigned_networks_panics :
      (network : Network) (o : Option V6AssignMode) (mode : V6AssignMode)
      (sixplane : Option C.IpNetwork) (net : C.IpNetwork) (s : Refresh C)
      → o ≡ some mode
      → is_on mode.rfc4193 ≡ true
      → sixplane_network C network mode ≡ ok sixplane
      → network_rfc4193 C network ≡ ok net
      → Dict.lookup C.net_eq net s.reverse_records ≡ none
      → (assigned_networks C network o s).0 ≡ panic
  unfolding assigned_networks
  assigned_networks_panics network o mode sixplane net s m on six made missing =
      rw m (rw (six, continue, rfc4193_network_panics network mode net s on made missing) refl)

  refresh_hosts_lem :
      IsNamesLawful C
      → (hosts : Option (HostsFile C)) (s : Refresh C)
      → ((refresh_hosts C hosts s).0 ≡ ok tt)
        × ((refresh_hosts C hosts s).1.reverse_records ≡ s.reverse_records)
  unfolding refresh_hosts
  refresh_hosts_lem N none s = (refl, refl)
  refresh_hosts_lem N (some hosts) s = rw (prune_hosts-eq-ok C N hosts s.forward) (refl, refl)

module _ (C : Crates) (N : IsNamesLawful C) where
  -- If the network assigns RFC 4193 addresses, its IPv6 networks can be computed, and there is no
  -- reverse zone for its RFC 4193 network, then `configure_members` panics.
  pub configure_members_panics :
      (zt : ZtAuthority C) (network : Network) (config : NetworkConfig) (mode : V6AssignMode)
      (sixplane : Option C.IpNetwork) (net : C.IpNetwork) (members : List Member)
      → network.config ≡ some config
      → config.v6_assign_mode ≡ some mode
      → is_on mode.rfc4193 ≡ true
      → sixplane_network C network mode ≡ ok sixplane
      → network_rfc4193 C network ≡ ok net
      → Dict.lookup C.net_eq net zt.reverse_authority_map ≡ none
      → (configure_members C network members zt).0 ≡ panic
  unfolding configure_members refresh_members refresh_config refresh_assigned start_refresh
  configure_members_panics zt network config mode sixplane net members c m on six made missing =
      let hosts = refresh_hosts_lem C N zt.hosts (start_refresh C zt) in
      let s = (refresh_hosts C zt.hosts (start_refresh C zt)).1 in
      let absent : Dict.lookup C.net_eq net s.reverse_records ≡ none =
        ap (Dict.lookup C.net_eq net) hosts.1
        ∙ lookup-start C net zt.reverse_authority_map missing in
      ap (λ p. p.0) (continue_of_ok _ tt _ hosts.0)
      ∙ ap (λ p. p.0) (continue_of_ok (or_panic network.config, s) config _ (ap or_panic c))
      ∙ continue_of_panic (assigned_networks C network config.v6_assign_mode s) _
          (assigned_networks_panics C network _ mode sixplane net s m on six made absent)
