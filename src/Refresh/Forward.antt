-- ===== src/Refresh/Forward.antt =====
-- What a successful `configure_members` of src/authority.rs does to the forward zone.
use zeronsd.Base.{
  ◌≡◌, refl, ◌∙◌, ap, sym, Option, some, none, List, [], ◌∷◌, Outcome, ok, map_all, or_panic, ◌>>=◌,
}
use zeronsd.Base.Exec.{
  continue, continue-ok, continue-step, continue-value, for_each, for_each-keeps, continue-keeps,
}
use zeronsd.Central.{Member, Network}
use zeronsd.Crates.{Crates, Zone}
use zeronsd.Authority.{HostsFile, prune_records, prune_hosts}
use zeronsd.Authority.PruneHosts.Final.{prune_hosts-eq-ok}
use zeronsd.Crates.Laws.{IsNamesLawful}
use zeronsd.Members.{ZtRecord, Writing, new_record, insert_member}
use zeronsd.Members.Names.{record_names, write_all, insert_member_lem}
use zeronsd.Refresh.{
  ZtAuthority, Refresh, start_refresh, on_forward, refresh_hosts, assigned_networks, host_names,
}
use zeronsd.Refresh.Configure.{
  config_ips, reverse_member, rfc4193_member, configure_member, prune_forward, prune_reverse,
  prune_all, refresh_each, refresh_assigned, refresh_config, refresh_members, configure_members,
}
use zeronsd.Refresh.Networks.{ipv6_networks, assigned_of, assigned_networks-value}
use zeronsd.Refresh.SameForward.{
  forward_of, SameForward, on_reverse-SameForward, reverse_member-SameForward,
  rfc4193_member-SameForward, assigned_networks-SameForward,
}

module _ (C : Crates) where
  -- The records of the members, entered one after the other.
  abbrev pub write_members : List (ZtRecord C) → Writing C → Writing C
  write_members [] w = w
  write_members (r ∷ rs) w = write_members rs (write_all C (record_names C r) r.ips w)

  configure_member_lem :
      (zt : ZtAuthority C) (sixplane rfc4193 : Option C.IpNetwork) (m : Member) (s : Refresh C)
      → (configure_member C zt sixplane rfc4193 m s).0 ≡ ok tt
      → (r : ZtRecord C) × (new_record C m sixplane rfc4193
            (C.of_lower zt.forward_authority.domain_name)
            zt.wildcard
          ≡ ok r)
        × (forward_of C (configure_member C zt sixplane rfc4193 m s).1
            ≡ write_all C (record_names C r) r.ips (forward_of C s))
  unfolding configure_member on_forward
  configure_member_lem zt sixplane rfc4193 m s h =
      let rest = λ (r : ZtRecord C) (_ : Unit {0}) (t : Refresh C).
        continue (reverse_member C r (config_ips C m.config) t)
          (λ _. rfc4193_member C m r rfc4193) in
      let made =
        new_record C m sixplane rfc4193 (C.of_lower zt.forward_authority.domain_name) zt.wildcard in
      let (r, e, here) =
        continue-value made s (λ r t. continue (on_forward C (insert_member C r) t) (rest r)) h in
      let entered = on_forward C (insert_member C r) s in
      let (entered_ok, there, _) = continue-ok entered (rest r) (ap (λ p. p.0) (sym here) ∙ h) in
      let kept : SameForward C (forward_of C entered.1) (rest r tt entered.1).1 =
        continue-keeps (SameForward C (forward_of C entered.1))
          (reverse_member C r (config_ips C m.config) entered.1) (λ _. rfc4193_member C m r rfc4193)
          (reverse_member-SameForward C r (config_ips C m.config) (forward_of C entered.1) entered.1
            refl)
          (λ _ t k. rfc4193_member-SameForward C m r rfc4193 (forward_of C entered.1) t k) in
      (
        r,
        e,
        ap (λ p. forward_of C p.1) (here ∙ there)
            ∙ kept
            ∙ insert_member_lem C r (forward_of C s) entered_ok,
      )

  -- The records of the members, as `ZTRecord::new` makes them.
  abbrev pub records_of :
      ZtAuthority C
      → Option C.IpNetwork
      → Option C.IpNetwork
      → List Member
      → Outcome (List (ZtRecord C))
  records_of zt sixplane rfc4193 members =
      map_all
        (λ m.
          new_record C m sixplane rfc4193 (C.of_lower zt.forward_authority.domain_name) zt.wildcard)
        members

  pub configure_each_lem :
      (zt : ZtAuthority C) (sixplane rfc4193 : Option C.IpNetwork) (members : List Member)
      (s : Refresh C)
      → (for_each (configure_member C zt sixplane rfc4193) members s).0 ≡ ok tt
      → (rs : List (ZtRecord C)) × (records_of zt sixplane rfc4193 members ≡ ok rs)
        × (forward_of C (for_each (configure_member C zt sixplane rfc4193) members s).1
            ≡ write_members rs (forward_of C s))
  unfolding for_each
  configure_each_lem zt sixplane rfc4193 [] s h = ([], refl, refl)
  configure_each_lem zt sixplane rfc4193 (m ∷ members) s h =
      let round = configure_member C zt sixplane rfc4193 in
      let (round_ok, here, rest_ok) = continue-ok (round m s) (λ _. for_each round members) h in
      let (r, made, entered) = configure_member_lem zt sixplane rfc4193 m s round_ok in
      let (rs, all_made, rest) =
        configure_each_lem zt sixplane rfc4193 members (round m s).1 rest_ok in
      (
        r ∷ rs,
        rw (made, all_made) refl,
        ap (λ p. forward_of C p.1) here ∙ rest ∙ ap (write_members rs) entered,
      )

  prune_all_lem :
      (s : Refresh C)
      → (prune_all C s).0 ≡ ok tt
      → (prune_all C s).1.forward ≡ (prune_records C s.forward_records s.forward).1
  unfolding prune_all prune_forward prune_reverse
  prune_all_lem s h =
      let pruned = prune_forward C s in
      let (_, here, _) = continue-ok pruned (λ _ t. for_each (prune_reverse C) t.reverse t) h in
      let kept : SameForward C (forward_of C pruned.1)
          (for_each (prune_reverse C) pruned.1.reverse pruned.1).1 =
        for_each-keeps (SameForward C (forward_of C pruned.1)) (prune_reverse C)
          (λ (network, _) t k. on_reverse-SameForward C network _ (forward_of C pruned.1) t k)
          pruned.1.reverse pruned.1 refl in
      ap (λ p. p.1.forward) here ∙ ap (λ w. w.zone) kept

  -- The forward zone and the written names, after the hosts of the hosts file.
  abbrev pub start_writing : C.LowerName → Zone C → Option (HostsFile C) → Writing C
  start_writing domain zone none = record { zone = zone; written = domain ∷ [] }
  start_writing domain zone (some hosts) = record {
    zone = (prune_hosts C hosts zone).1;
    written = domain ∷ host_names C hosts;
  }

  refresh_hosts-forward :
      IsNamesLawful C
      → (zt : ZtAuthority C) (o : Option (HostsFile C))
      → forward_of C (refresh_hosts C o (start_refresh C zt)).1
        ≡ start_writing zt.forward_authority.domain_name zt.forward_authority.authority o
  unfolding refresh_hosts start_refresh
  refresh_hosts-forward N zt none = refl
  refresh_hosts-forward N zt (some hosts) =
      rw (prune_hosts-eq-ok C N hosts zt.forward_authority.authority) refl

  -- The forward zone is what is left of the start and of the records of the members.
  pub configure_members_forward :
      IsNamesLawful C
      → (zt : ZtAuthority C) (network : Network) (members : List Member)
      → (configure_members C network members zt).0 ≡ ok tt
      → (sixplane : Option C.IpNetwork) × (rfc4193 : Option C.IpNetwork) × (rs : List (ZtRecord C))
        × (ipv6_networks C network ≡ ok (sixplane, rfc4193))
        × (records_of zt sixplane rfc4193 members ≡ ok rs)
        × ((configure_members C network members zt).1.forward_authority.authority ≡ (
            let w = write_members rs (
              start_writing zt.forward_authority.domain_name zt.forward_authority.authority
                zt.hosts) in
            (prune_records C w.written w.zone).1))
  unfolding configure_members refresh_members refresh_config refresh_assigned refresh_each
  configure_members_forward N zt network members h =
      let start =
        start_writing zt.forward_authority.domain_name zt.forward_authority.authority zt.hosts in
      let hosts = refresh_hosts C zt.hosts (start_refresh C zt) in
      let (_, e1, h1) = continue-ok hosts (λ _. refresh_config C zt network members) h in
      let (config, is_config, e2, h2) =
        continue-step (or_panic network.config, hosts.1) (refresh_assigned C zt network members)
          h1 in
      let assigned = assigned_networks C network config.v6_assign_mode hosts.1 in
      let (nets, is_nets, e3, h3) = continue-step assigned (refresh_each C zt members) h2 in
      let each = for_each (configure_member C zt nets.0 nets.1) members assigned.1 in
      let (each_ok, e4, h4) = continue-ok each (λ _. prune_all C) h3 in
      let (rs, made, entered) = configure_each_lem zt nets.0 nets.1 members assigned.1 each_ok in
      let at_start : forward_of C assigned.1 ≡ start =
        assigned_networks-SameForward C network config.v6_assign_mode start hosts.1
          (refresh_hosts-forward N zt zt.hosts) in
      (
        nets.0,
        nets.1,
        rs,
        ap (λ o. o >>= λ c. assigned_of C network c.v6_assign_mode) is_config
            ∙ assigned_networks-value C network config.v6_assign_mode hosts.1 nets is_nets,
        made,
        ap (λ p. p.1.forward) (e1 ∙ e2 ∙ e3 ∙ e4)
            ∙ prune_all_lem each.1 h4
            ∙ ap (λ w. (prune_records C w.written w.zone).1)
                (entered ∙ ap (write_members rs) at_start),
      )

  -- The same, where the networks do not matter.
  pub configure_members_lem :
      IsNamesLawful C
      → (zt : ZtAuthority C) (network : Network) (members : List Member)
      → (configure_members C network members zt).0 ≡ ok tt
      → (sixplane : Option C.IpNetwork) × (rfc4193 : Option C.IpNetwork) × (rs : List (ZtRecord C))
        × (records_of zt sixplane rfc4193 members ≡ ok rs)
        × ((configure_members C network members zt).1.forward_authority.authority ≡ (
            let w = write_members rs (
              start_writing zt.forward_authority.domain_name zt.forward_authority.authority
                zt.hosts) in
            (prune_records C w.written w.zone).1))
  configure_members_lem N zt network members h =
      let (sixplane, rfc4193, rs, _, made, result) =
        configure_members_forward N zt network members h in
      (sixplane, rfc4193, rs, made, result)
