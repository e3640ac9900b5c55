-- ===== src/Refresh/Zones/Rounds.antt =====
-- The rounds of `find_members` of src/authority.rs: what they keep for all zones.
use zeronsd.Base.{
  ◌≡◌, refl, Option, some, none, List, [], ◌∷◌, Text, Outcome, ok, err, panic, or_panic, Bool-cases,
  Option-cases, inl, inr,
}
use zeronsd.Base.Dict
use zeronsd.Base.Exec.{continue-keeps, lift-keeps, for_each, for_each-keeps}
use zeronsd.Net.{IpAddr}
use zeronsd.Central.{Member, Network, V6AssignMode}
use zeronsd.Crates.{Crates, Zone}
use zeronsd.Hostname.{to_ptr_soa_name}
use zeronsd.Addresses.{network_rfc4193}
use zeronsd.Hosts.{parse_hosts}
use zeronsd.Authority.{HostsFile, prune_hosts}
use zeronsd.Members.Kept.{IsKept}
use zeronsd.Refresh.{
  ZtAuthority, Refresh, insert_names, insert_hosts, configure_hosts, configure_parsed,
  start_refresh, refresh_hosts, rfc4193_network, sixplane_network, assigned_networks, is_on,
}
use zeronsd.Refresh.Configure.{
  configure_member, prune_all, refresh_each, refresh_assigned, refresh_config, refresh_members,
  configure_members, Round, logged, configure_fetched, find_members_round, find_members,
}
use zeronsd.Refresh.Zones.{
  HoldsFor, HoldsReverse, HoldsAll, configure_member-keeps, prune_all-keeps,
}

module _ (C : Crates) (H : C.LowerName → HostsFile C → Type 0) where
  -- What is taken of the table of hosts, if there is one.
  abbrev pub HoldsHosts : C.LowerName → Option (HostsFile C) → Type 0
  HoldsHosts d none = Unit
  HoldsHosts d (some hosts) = H d hosts

  -- What is taken of the tables of hosts is so for all that `parse_hosts` gives.
  abbrev pub ParsesTo : Type 0
  ParsesTo =
      (d : C.LowerName) (read : Text → Option Text) (file : Option Text) (hosts : HostsFile C)
      → parse_hosts C (C.of_lower d) read file ≡ ok hosts
      → H d hosts

module _ (C : Crates) (H : C.LowerName → HostsFile C → Type 0)
    (P : C.LowerName → Zone C → Type 0) where
  -- Every zone of the server, and its table of hosts.
  abbrev pub HoldsServer : ZtAuthority C → Type 0
  HoldsServer zt =
      HoldsFor C P zt.forward_authority
      × HoldsReverse C P zt.reverse_authority_map
      × HoldsHosts C H zt.forward_authority.domain_name zt.hosts

module _ (C : Crates) (H : C.LowerName → HostsFile C → Type 0) (P : C.LowerName → Zone C → Type 0)
    (K : IsKept C H P) where
  refresh_hosts-keeps :
      (d : C.LowerName) (o : Option (HostsFile C)) (s : Refresh C)
      → HoldsHosts C H d o
      → HoldsAll C P d s
      → HoldsAll C P d (refresh_hosts C o s).1
  unfolding refresh_hosts
  refresh_hosts-keeps d none s hosts h = h
  refresh_hosts-keeps d (some table) s hosts (h, hs) =
      let kept = K.prune_hosts-keeps d table s.forward hosts h in
      lift-keeps (HoldsAll C P d) (prune_hosts C table s.forward).0 _ _ (kept, hs) (λ _. (kept, hs))

  rfc4193_network-keeps :
      (d : C.LowerName) (network : Network) (mode : V6AssignMode) (s : Refresh C)
      → HoldsAll C P d s
      → HoldsAll C P d (rfc4193_network C network mode s).1
  unfolding rfc4193_network
  rfc4193_network-keeps d network mode s h = elim (Bool-cases (is_on mode.rfc4193)) [
    | inr off ↦ rw (rfc4193_network, off) h
    | inl on ↦
        rw (rfc4193_network, on)
          (lift-keeps (HoldsAll C P d) (network_rfc4193 C network) s _ h (λ net.
            elim (Option-cases (Dict.lookup C.net_eq net s.reverse_records)) [
              | inl missing ↦ rw missing h
              | inr (written, there) ↦
                  rw there (lift-keeps (HoldsAll C P d) (to_ptr_soa_name C net) s _ h (λ name. h))
            ]))
  ]

  assigned_networks-keeps :
      (d : C.LowerName) (network : Network) (o : Option V6AssignMode) (s : Refresh C)
      → HoldsAll C P d s
      → HoldsAll C P d (assigned_networks C network o s).1
  unfolding assigned_networks
  assigned_networks-keeps d network none s h = h
  assigned_networks-keeps d network (some mode) s h =
      lift-keeps (HoldsAll C P d) (sixplane_network C network mode) s _ h (λ sixplane.
        continue-keeps (HoldsAll C P d) (rfc4193_network C network mode s)
          (λ rfc4193 t. (ok (sixplane, rfc4193), t)) (rfc4193_network-keeps d network mode s h)
          (λ rfc4193 t k. k))

  refresh_members-keeps :
      (zt : ZtAuthority C) (network : Network) (members : List Member) (s : Refresh C)
      → HoldsHosts C H zt.forward_authority.domain_name zt.hosts
      → HoldsAll C P zt.forward_authority.domain_name s
      → HoldsAll C P zt.forward_authority.domain_name (refresh_members C zt network members s).1
  unfolding refresh_members refresh_config refresh_assigned refresh_each
  refresh_members-keeps zt network members s hosts h =
      let d = zt.forward_authority.domain_name in
      continue-keeps (HoldsAll C P d) (refresh_hosts C zt.hosts s)
        (λ _. refresh_config C zt network members) (refresh_hosts-keeps d zt.hosts s hosts h)
        (λ _ s1 h1.
          lift-keeps (HoldsAll C P d) (or_panic network.config) s1
            (refresh_assigned C zt network members) h1
            (λ config.
              continue-keeps (HoldsAll C P d) (assigned_networks C network config.v6_assign_mode s1)
                (refresh_each C zt members)
                (assigned_networks-keeps d network config.v6_assign_mode s1 h1)
                (λ nets s2 h2.
                  continue-keeps (HoldsAll C P d)
                    (for_each (configure_member C zt nets.0 nets.1) members s2) (λ _. prune_all C)
                    (for_each-keeps (HoldsAll C P d) (configure_member C zt nets.0 nets.1)
                      (λ m t k. configure_member-keeps C H P K d zt nets.0 nets.1 m t k) members s2
                      h2)
                    (λ _ t k. prune_all-keeps C H P K d t k))))

  configure_members-keeps :
      (network : Network) (members : List Member) (zt : ZtAuthority C)
      → HoldsServer C H P zt
      → HoldsServer C H P (configure_members C network members zt).1
  unfolding configure_members start_refresh
  configure_members-keeps network members zt (h, hs, hosts) =
      let (k, ks) = refresh_members-keeps zt network members (start_refresh C zt) hosts (h, hs) in
      (k, ks, hosts)

  insert_names-keeps :
      (d : C.LowerName) (ip : IpAddr) (names : List C.Name) (z : Zone C)
      → P d z
      → P d (insert_names C ip names z)
  unfolding insert_names
  insert_names-keeps d ip [] z h = h
  insert_names-keeps d ip (n ∷ names) z h =
      insert_names-keeps d ip names _ (K.match_or_insert-keeps d n (ip ∷ []) z h)

  insert_hosts-keeps :
      (d : C.LowerName) (hosts : HostsFile C) (z : Zone C) → P d z → P d (insert_hosts C hosts z)
  unfolding insert_hosts
  insert_hosts-keeps d [] z h = h
  insert_hosts-keeps d ((ip, names) ∷ hosts) z h =
      insert_hosts-keeps d hosts _ (insert_names-keeps d ip names z h)

  -- A parse's result, and what follows.
  configured-keeps :
      (r : Outcome (HostsFile C)) (zt : ZtAuthority C)
      → ((hosts : HostsFile C) → r ≡ ok hosts → H zt.forward_authority.domain_name hosts)
      → HoldsServer C H P zt
      → HoldsServer C H P (configure_parsed C (r, zt)).1
  configured-keeps (ok hosts) zt parses (h, hs, _) =
      (insert_hosts-keeps zt.forward_authority.domain_name hosts _ h, hs, parses hosts refl)
  configured-keeps err zt parses h = h
  configured-keeps panic zt parses h = h

  configure_hosts-keeps :
      ParsesTo C H
      → (read : Text → Option Text) (zt : ZtAuthority C) → HoldsServer C H P zt
      → HoldsServer C H P (configure_hosts C read zt).1
  unfolding configure_hosts
  configure_hosts-keeps parses read zt h =
      let d = zt.forward_authority.domain_name in
      configured-keeps (parse_hosts C (C.of_lower d) read zt.hosts_file) zt
        (parses d read zt.hosts_file) h

  logged-keeps :
      (r : Outcome (Unit {0}) × ZtAuthority C)
      → HoldsServer C H P r.1
      → HoldsServer C H P (logged C r).1
  logged-keeps (ok u, zt) h = h
  logged-keeps (err, zt) h = h
  logged-keeps (panic, zt) h = h

  configure_fetched-keeps :
      (o : Option (Network × List Member)) (zt : ZtAuthority C)
      → HoldsServer C H P zt
      → HoldsServer C H P (configure_fetched C o zt).1
  unfolding configure_fetched
  configure_fetched-keeps none zt h = h
  configure_fetched-keeps (some (network, members)) zt h =
      logged-keeps (configure_members C network members zt)
        (configure_members-keeps network members zt h)

  -- All rounds.
  pub find_members-keeps :
      ParsesTo C H
      → (rounds : List (Round C)) (zt : ZtAuthority C) → HoldsServer C H P zt
      → HoldsServer C H P (find_members C rounds zt).1
  unfolding find_members find_members_round
  find_members-keeps parses rounds zt h =
      for_each-keeps (HoldsServer C H P) (find_members_round C)
        (λ round t k.
          continue-keeps (HoldsServer C H P) (logged C (configure_hosts C round.read t))
            (λ _. configure_fetched C round.fetched)
            (logged-keeps (configure_hosts C round.read t)
              (configure_hosts-keeps parses round.read t k))
            (λ _ t' k'. configure_fetched-keeps round.fetched t' k'))
        rounds zt h
