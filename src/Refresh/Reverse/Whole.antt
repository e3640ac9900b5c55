-- ===== src/Refresh/Reverse/Whole.antt =====
-- The zone of one reverse network through the whole of a successful `configure_members` of
-- src/authority.rs.
use zeronsd.Base.{
  ◌≡◌, ◌∙◌, ap, sym, Option, some, none, List, [], ◌∷◌, ◌++◌, map, ok, ◌>>=◌, or_panic, Bool-cases,
  Option-cases, inl, inr, arith,
}
use mathlib.Core.Path.{subst}
use zeronsd.Base.Dict
use zeronsd.Base.Exec.{
  continue-ok, continue-step, continue-keeps, lift-keeps, lift-keeps_value, for_each,
}
use zeronsd.Central.{Member, Network, V6AssignMode}
use zeronsd.Crates.{Crates}
use zeronsd.Hostname.{to_ptr_soa_name}
use zeronsd.Addresses.{network_rfc4193}
use zeronsd.Authority.{HostsFile, RecordAuthority, prune_hosts}
use zeronsd.Members.{Writing}
use zeronsd.Refresh.{
  ZtAuthority, Refresh, start_refresh, refresh_hosts, sixplane_network, rfc4193_network,
  assigned_networks, is_on,
}
use zeronsd.Refresh.Configure.{
  configure_member, prune_all, refresh_each, refresh_assigned, refresh_config, refresh_members,
  configure_members,
}
use zeronsd.Refresh.Networks.{ipv6_networks, assigned_of, assigned_networks-value}
use zeronsd.Refresh.Reverse.{writing, HasReverse, lookup-insert_same, lookup-insert_other}

module _ (C : Crates) where
  lookup-domains :
      (n : C.IpNetwork) (m : List (C.IpNetwork × RecordAuthority C)) (a : RecordAuthority C)
      → Dict.lookup C.net_eq n m ≡ some a
      → Dict.lookup C.net_eq n
          (map (λ (network, authority). (network, authority.domain_name ∷ [])) m)
        ≡ some (a.domain_name ∷ [])
  unfolding Dict.lookup
  lookup-domains n [] a e = cc
  lookup-domains n ((k, b) ∷ m) a e = ground (arith, e, lookup-domains n m a)

module _ (C : Crates) (n : C.IpNetwork) (Q : Writing C → Type 0) where
  start_refresh-HasReverse :
      (zt : ZtAuthority C) (a : RecordAuthority C)
      → Dict.lookup C.net_eq n zt.reverse_authority_map ≡ some a
      → Q (writing C a (a.domain_name ∷ []))
      → HasReverse C n Q (start_refresh C zt)
  unfolding start_refresh
  start_refresh-HasReverse zt a found q =
      (a, a.domain_name ∷ [], found, lookup-domains C n zt.reverse_authority_map a found, q)

  refresh_hosts-HasReverse :
      (o : Option (HostsFile C)) (s : Refresh C)
      → HasReverse C n Q s
      → HasReverse C n Q (refresh_hosts C o s).1
  unfolding refresh_hosts
  refresh_hosts-HasReverse none s h = h
  refresh_hosts-HasReverse (some hosts) s h =
      lift-keeps (HasReverse C n Q) (prune_hosts C hosts s.forward).0 _ _ h (λ _. h)

  -- Writing the name that the zone of the network should have keeps `Q`.
  abbrev pub SoaNameKept : Type 0
  SoaNameKept =
      (name : C.LowerName) (w : Writing C)
      → to_ptr_soa_name C n ≡ ok name
      → Q w
      → Q (record w { written = w.written ++ name ∷ [] })

  abbrev push_name : C.IpNetwork → List C.LowerName → C.LowerName → Refresh C → Refresh C
  push_name net written name s = record s {
    reverse_records = Dict.insert C.net_eq net (written ++ name ∷ []) s.reverse_records;
  }

  push_name-own :
      (written : List C.LowerName) (name : C.LowerName) (s : Refresh C)
      → Dict.lookup C.net_eq n s.reverse_records ≡ some written
      → ((w : Writing C) → Q w → Q (record w { written = w.written ++ name ∷ [] }))
      → HasReverse C n Q s
      → HasReverse C n Q (push_name n written name s)
  push_name-own written name s e kept (a, names, found, there, q) =
      let same : names ≡ written = cc (e, there) in
      (
        a,
        written ++ name ∷ [],
        found,
        lookup-insert_same C n (written ++ name ∷ []) s.reverse_records,
        kept (writing C a written) (rw (← same) q),
      )

  push_name-HasReverse :
      (net : C.IpNetwork) (written : List C.LowerName) (name : C.LowerName) (s : Refresh C)
      → Dict.lookup C.net_eq net s.reverse_records ≡ some written
      → (net ≡ n → (w : Writing C) → Q w → Q (record w { written = w.written ++ name ∷ [] }))
      → HasReverse C n Q s
      → HasReverse C n Q (push_name net written name s)
  push_name-HasReverse net written name s e kept (a, names, found, there, q) =
      elim (Bool-cases (C.net_eq.same net n)) [
        | inl same ↦
            let p = (C.net_eq.same_iff net n).0 same in
            subst (λ i. HasReverse C n Q (push_name i written name s)) (sym p)
              (push_name-own written name s (rw p at e) (kept p) (a, names, found, there, q))
        | inr differ ↦ (
          a,
          names,
          found,
          lookup-insert_other C n net (written ++ name ∷ []) s.reverse_records differ ∙ there,
          q,
        )
      ]

  rfc4193_network-HasReverse :
      (network : Network) (mode : V6AssignMode) (s : Refresh C)
      → SoaNameKept
      → HasReverse C n Q s
      → HasReverse C n Q (rfc4193_network C network mode s).1
  unfolding rfc4193_network
  rfc4193_network-HasReverse network mode s kept h = elim (Bool-cases (is_on mode.rfc4193)) [
    | inr off ↦ rw (rfc4193_network, off) h
    | inl on ↦
        rw (rfc4193_network, on)
          (lift-keeps (HasReverse C n Q) (network_rfc4193 C network) s _ h (λ net.
            elim (Option-cases (Dict.lookup C.net_eq net s.reverse_records)) [
              | inl missing ↦ rw missing h
              | inr (written, there) ↦ rw there (
                  lift-keeps_value (HasReverse C n Q) (to_ptr_soa_name C net) s _ h (λ name e.
                    push_name-HasReverse net written name s there (λ p w. kept name w (rw (← p) e))
                      h))
            ]))
  ]

  assigned_networks-HasReverse :
      (network : Network) (o : Option V6AssignMode) (s : Refresh C)
      → SoaNameKept
      → HasReverse C n Q s
      → HasReverse C n Q (assigned_networks C network o s).1
  unfolding assigned_networks
  assigned_networks-HasReverse network none s kept h = h
  assigned_networks-HasReverse network (some mode) s kept h =
      lift-keeps (HasReverse C n Q) (sixplane_network C network mode) s _ h (λ sixplane.
        continue-keeps (HasReverse C n Q) (rfc4193_network C network mode s)
          (λ rfc4193 t. (ok (sixplane, rfc4193), t))
          (rfc4193_network-HasReverse network mode s kept h) (λ rfc4193 t k. k))

  -- The parts of a refresh: the loop over the members, which starts with `Q` true of the zone of
  -- the network, and the pruning succeed, and leave the reverse zones.
  abbrev pub HasParts :
      ZtAuthority C → Network → List Member → Option C.IpNetwork × Option C.IpNetwork → Type 0
  HasParts zt network members nets =
      (s : Refresh C) × HasReverse C n Q s
      × ((for_each (configure_member C zt nets.0 nets.1) members s).0 ≡ ok tt)
      × ((prune_all C (for_each (configure_member C zt nets.0 nets.1) members s).1).0 ≡ ok tt)
      × ((configure_members C network members zt).1.reverse_authority_map
          ≡ (prune_all C (for_each (configure_member C zt nets.0 nets.1) members s).1).1.reverse)

  -- A refresh that succeeds has these parts.
  pub configure_members-HasParts :
      (zt : ZtAuthority C) (network : Network) (members : List Member) (a : RecordAuthority C)
      → (configure_members C network members zt).0 ≡ ok tt
      → SoaNameKept
      → Dict.lookup C.net_eq n zt.reverse_authority_map ≡ some a
      → Q (writing C a (a.domain_name ∷ []))
      → (nets : Option C.IpNetwork × Option C.IpNetwork) × (ipv6_networks C network ≡ ok nets)
        × HasParts zt network members nets
  unfolding configure_members refresh_members refresh_config refresh_assigned refresh_each
  configure_members-HasParts zt network members a h kept found q =
      let hosts = refresh_hosts C zt.hosts (start_refresh C zt) in
      let (_, e1, h1) = continue-ok hosts (λ _. refresh_config C zt network members) h in
      let (config, is_config, e2, h2) =
        continue-step (or_panic network.config, hosts.1) (refresh_assigned C zt network members)
          h1 in
      let assigned = assigned_networks C network config.v6_assign_mode hosts.1 in
      let (nets, is_nets, e3, h3) = continue-step assigned (refresh_each C zt members) h2 in
      let each = for_each (configure_member C zt nets.0 nets.1) members assigned.1 in
      let (each_ok, e4, h4) = continue-ok each (λ _. prune_all C) h3 in
      let start =
        refresh_hosts-HasReverse zt.hosts (start_refresh C zt)
          (start_refresh-HasReverse zt a found q) in
      (
        nets,
        ap (λ o. o >>= λ c. assigned_of C network c.v6_assign_mode) is_config
            ∙ assigned_networks-value C network config.v6_assign_mode hosts.1 nets is_nets,
        (
          assigned.1,
          assigned_networks-HasReverse network config.v6_assign_mode hosts.1 kept start,
          each_ok,
          h4,
          ap (λ p. p.1.reverse) (e1 ∙ e2 ∙ e3 ∙ e4),
        ),
      )

  -- The same, for the IPv6 networks of the network.
  pub configure_members-HasParts_of :
      (zt : ZtAuthority C) (network : Network) (members : List Member) (a : RecordAuthority C)
      (nets : Option C.IpNetwork × Option C.IpNetwork)
      → (configure_members C network members zt).0 ≡ ok tt
      → ipv6_networks C network ≡ ok nets
      → SoaNameKept
      → Dict.lookup C.net_eq n zt.reverse_authority_map ≡ some a
      → Q (writing C a (a.domain_name ∷ []))
      → HasParts zt network members nets
  configure_members-HasParts_of zt network members a nets h e kept found q =
      let (nets', e', parts) = configure_members-HasParts zt network members a h kept found q in
      let same : nets' ≡ nets = cc (e, e') in subst (HasParts zt network members) same parts
