-- ===== src/Refresh/Total.antt =====
-- When `configure_members` of src/authority.rs succeeds.
use zeronsd.Base.{
  ◌≡◌, refl, ap, sym, ◌||◌, Option, some, none, List, [], ◌∷◌, map, arith, ok, >>=-eq-ok, or_panic,
  All, Bool-cases, inl, inr,
}
use mathlib.Core.Path.{subst}
use zeronsd.Base.Exec.{continue, for_each}
use zeronsd.Net.{IpAddr}
use zeronsd.Central.{Member, Network, NetworkConfig, V6AssignMode}
use zeronsd.Crates.{Crates}
use zeronsd.Crates.Laws.{IsNamesLawful, IsZoneLawful}
use zeronsd.Addresses.{network_rfc4193}
use zeronsd.Authority.{HostsFile, RecordAuthority}
use zeronsd.Authority.PruneHosts.Final.{prune_hosts-eq-ok}
use zeronsd.Members.{ZtRecord, new_record, insert_member}
use zeronsd.Members.Pointers.{HasName}
use zeronsd.Members.Wildcards.{HasWildcards, insert_member_ok}
use zeronsd.Refresh.{
  ZtAuthority, Refresh, start_refresh, on_forward, refresh_hosts, assigned_networks,
  sixplane_network, rfc4193_network, is_on,
}
use zeronsd.Refresh.Configure.{
  config_ips, reverse_member, rfc4193_member, configure_member, prune_all, refresh_each,
  refresh_assigned, refresh_config, refresh_members, configure_members,
}
use zeronsd.Refresh.Networks.{rfc4193_of, assigned_of, ipv6_networks}
use zeronsd.Refresh.Forward.{records_of}
use zeronsd.Refresh.Tracks.{
  Reaches, Reaches-continue, All-of, is_key, Tracks, reverse_member-Reaches, prune_all-Reaches,
}

module _ (C : Crates) where
  -- Without RFC 4193 addresses, the networks are assigned without a change of the state.
  assigned_networks_ok :
      (network : Network) (o : Option V6AssignMode) (sixplane : Option C.IpNetwork) (s : Refresh C)
      → assigned_of C network o ≡ ok (sixplane, none)
      → assigned_networks C network o s ≡ (ok (sixplane, none), s)
  unfolding assigned_networks rfc4193_network
  assigned_networks_ok network none sixplane s h = ap (λ r. (r, s)) h
  assigned_networks_ok network (some mode) sixplane s h =
      let (six, is_six, rest) = >>=-eq-ok (sixplane_network C network mode) _ h in
      let (rfc, is_rfc, last) = >>=-eq-ok (rfc4193_of C network mode) _ rest in
      let same : six ≡ sixplane = cc last in
      elim (Bool-cases (is_on mode.rfc4193)) [
        | inr off ↦ rw (is_six, rfc4193_network, off, same) refl
        | inl on ↦
            let (net, _, made) =
              >>=-eq-ok (network_rfc4193 C network) (λ n. ok (some n)) (rw on at is_rfc) in
            cc (made, last)
      ]

module _ (C : Crates) (N : IsNamesLawful C) (L : IsZoneLawful C)
    (named : (ip : IpAddr) → HasName C ip) (networks : List (C.IpNetwork × RecordAuthority C)) where
  configure_member-Reaches :
      (zt : ZtAuthority C) (sixplane : Option C.IpNetwork) (m : Member) (r : ZtRecord C)
      (s : Refresh C)
      → new_record C m sixplane none (C.of_lower zt.forward_authority.domain_name) zt.wildcard
        ≡ ok r
      → HasWildcards C r
      → Tracks C N L networks s
      → Reaches (Tracks C N L networks) (configure_member C zt sixplane none m s)
  unfolding configure_member on_forward rfc4193_member
  configure_member-Reaches zt sixplane m r s made wild h =
      let P = Tracks C N L networks in
      let entered = on_forward C (insert_member C r) s in
      rw (configure_member, made)
        (Reaches-continue P entered
          (λ _ t.
            continue (reverse_member C r (config_ips C m.config) t)
              (λ _. rfc4193_member C m r none))
          (insert_member_ok C r _ wild, h)
          (λ t k.
            Reaches-continue P (reverse_member C r (config_ips C m.config) t)
              (λ _. rfc4193_member C m r none)
              (reverse_member-Reaches C N L networks r (config_ips C m.config) t
                (All-of r.ips named) k)
              (λ t' k'. (refl, k'))))

  configure_each-Reaches :
      (zt : ZtAuthority C) (sixplane : Option C.IpNetwork) (members : List Member)
      (rs : List (ZtRecord C)) (s : Refresh C)
      → records_of C zt sixplane none members ≡ ok rs
      → All (HasWildcards C) rs
      → Tracks C N L networks s
      → Reaches (Tracks C N L networks) (for_each (configure_member C zt sixplane none) members s)
  unfolding for_each
  configure_each-Reaches zt sixplane [] rs s made wild h = (refl, h)
  configure_each-Reaches zt sixplane (m ∷ members) rs s made wild h =
      let (r, first, more) = >>=-eq-ok (new_record C m sixplane none _ zt.wildcard) _ made in
      let (rest, all, whole) = >>=-eq-ok (records_of C zt sixplane none members) _ more in
      let same : rs ≡ r ∷ rest = cc whole in
      let wild' = subst (All (HasWildcards C)) same wild in
      Reaches-continue (Tracks C N L networks) (configure_member C zt sixplane none m s)
        (λ _. for_each (configure_member C zt sixplane none) members)
        (configure_member-Reaches zt sixplane m r s first wild'.0 h)
        (λ t k. configure_each-Reaches zt sixplane members rest t all wild'.1 k)

module _ (C : Crates) (N : IsNamesLawful C) (L : IsZoneLawful C) where
  is_key-map :
      (k : C.IpNetwork) (m : List (C.IpNetwork × RecordAuthority C))
      → is_key C.net_eq k
          (map (λ (e : C.IpNetwork × RecordAuthority C). (e.0, e.1.domain_name ∷ [])) m)
        ≡ is_key C.net_eq k m
  is_key-map k [] = refl
  is_key-map k (e ∷ m) = ap (λ b. C.net_eq.same e.0 k || b) (is_key-map k m)

  start_refresh-Tracks :
      (zt : ZtAuthority C) → Tracks C N L zt.reverse_authority_map (start_refresh C zt)
  unfolding start_refresh
  start_refresh-Tracks zt =
      (λ n k. ground (arith, k, is_key-map n zt.reverse_authority_map), λ n k. k)

  refresh_hosts-Reaches :
      (zt : ZtAuthority C) (o : Option (HostsFile C))
      → Reaches (Tracks C N L zt.reverse_authority_map) (refresh_hosts C o (start_refresh C zt))
  unfolding refresh_hosts
  refresh_hosts-Reaches zt none = (refl, start_refresh-Tracks zt)
  refresh_hosts-Reaches zt (some hosts) =
      rw (prune_hosts-eq-ok C N hosts (start_refresh C zt).forward) (refl, start_refresh-Tracks zt)

  refresh_assigned-Reaches :
      (zt : ZtAuthority C) (network : Network) (config : NetworkConfig) (members : List Member)
      (sixplane : Option C.IpNetwork) (rs : List (ZtRecord C)) (s : Refresh C)
      → ((ip : IpAddr) → HasName C ip)
      → assigned_of C network config.v6_assign_mode ≡ ok (sixplane, none)
      → records_of C zt sixplane none members ≡ ok rs
      → All (HasWildcards C) rs
      → Tracks C N L zt.reverse_authority_map s
      → Reaches
          (Tracks C N L zt.reverse_authority_map)
          (refresh_assigned C zt network members config s)
  unfolding refresh_assigned refresh_each
  refresh_assigned-Reaches zt network config members sixplane rs s named assigned made wild h =
      let P = Tracks C N L zt.reverse_authority_map in
      rw
        (refresh_assigned, assigned_networks_ok C network config.v6_assign_mode sixplane s assigned)
        (Reaches-continue P (for_each (configure_member C zt sixplane none) members s)
          (λ _. prune_all C)
          (configure_each-Reaches C N L named zt.reverse_authority_map zt sixplane members rs s made
            wild h)
          (λ t k. prune_all-Reaches C N L zt.reverse_authority_map t k))

  -- If every address has a reverse name, the network assigns no RFC 4193 addresses, the records of
  -- all members can be made, and the names of which they enter wildcards have one, then
  -- `configure_members` succeeds.
  pub configure_members_succeeds :
      (zt : ZtAuthority C) (network : Network) (members : List Member)
      (sixplane : Option C.IpNetwork) (rs : List (ZtRecord C))
      → ((ip : IpAddr) → HasName C ip)
      → ipv6_networks C network ≡ ok (sixplane, none)
      → records_of C zt sixplane none members ≡ ok rs
      → All (HasWildcards C) rs
      → (configure_members C network members zt).0 ≡ ok tt
  unfolding configure_members refresh_members refresh_config
  configure_members_succeeds zt network members sixplane rs named nets made wild =
      let P = Tracks C N L zt.reverse_authority_map in
      let (config, has, assigned) = >>=-eq-ok (or_panic network.config) _ nets in
      (Reaches-continue P (refresh_hosts C zt.hosts (start_refresh C zt))
        (λ _. refresh_config C zt network members) (refresh_hosts-Reaches zt zt.hosts)
        (λ s h.
          subst (λ o. Reaches P (continue (o, s) (refresh_assigned C zt network members))) (sym has)
            (refresh_assigned-Reaches zt network config members sixplane rs s named assigned made
              wild h))).0
