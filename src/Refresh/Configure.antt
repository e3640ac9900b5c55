-- ===== src/Refresh/Configure.antt =====
-- `configure_members` and `find_members` of src/authority.rs: the loops over the members, and the
-- pruning at the end.
use zeronsd.Base.{
  Option, none, some, List, [], ◌∷◌, Text, if◌then◌else◌, Outcome, ok, err, panic, or_panic,
}
use zeronsd.Base.Dict
use zeronsd.Base.Exec.{Exec, for_each, continue}
use zeronsd.Net.{IpAddr}
use zeronsd.Central.{NetworkConfig, Member, MemberConfig, Network}
use zeronsd.Crates.{Crates}
use zeronsd.Addresses.{member_rfc4193}
use zeronsd.Authority.{RecordAuthority, prune_records}
use zeronsd.Members.{ZtRecord, new_record, insert_member, insert_member_ptr, write_ptr}
use zeronsd.Refresh.{
  ZtAuthority, Refresh, start_refresh, on_forward, on_reverse, refresh_hosts, assigned_networks,
  configure_hosts,
}

module _ (C : Crates) where
  -- `filter_map(|ip| IpAddr::from_str(ip).ok())`
  abbrev pub valid_ips : List Text → List IpAddr
  valid_ips [] = []
  valid_ips (text ∷ texts) =
      let rest = valid_ips texts in elim (C.parse_ip text) [ none ↦ rest | some ip ↦ ip ∷ rest ]

  -- The addresses assigned to a member, if it has a configuration with some.
  abbrev assignments : Option (List Text) → List IpAddr
  assignments none = []
  assignments (some v) = valid_ips v

  abbrev pub config_ips : Option MemberConfig → List IpAddr
  config_ips none = []
  config_ips (some config) = assignments config.ip_assignments

  -- The loops over the networks and the addresses: for each assigned address in a network, all the
  -- addresses of the record are entered there.
  unfoldable pub reverse_ip : ZtRecord C → C.IpNetwork → IpAddr → Exec (Refresh C) (Unit {0})
  reverse_ip record' network ip s =
      if C.network_contains network ip
      then on_reverse C network (insert_member_ptr C record') s
      else (ok tt, s)

  unfoldable pub reverse_network :
      ZtRecord C → List IpAddr → C.IpNetwork × RecordAuthority C → Exec (Refresh C) (Unit {0})
  reverse_network record' ips (network, _) = for_each (reverse_ip record' network) ips

  unfoldable pub reverse_member : ZtRecord C → List IpAddr → Exec (Refresh C) (Unit {0})
  reverse_member record' ips s = for_each (reverse_network record' ips) s.reverse s

  -- `if let Some(ptr) = rfc4193 { … }`
  unfoldable pub rfc4193_member :
      Member → ZtRecord C → Option C.IpNetwork → Exec (Refresh C) (Unit {0})
  rfc4193_member member record' none s = (ok tt, s)
  rfc4193_member member record' (some ptr) s = elim (Dict.lookup C.net_eq ptr s.reverse) [
    | none ↦ (ok tt, s)
    | some authority ↦ elim (Dict.lookup C.net_eq ptr s.reverse_records) [
      | none ↦ (ok tt, s)
      | some records ↦
          continue (member_rfc4193 C member, s)
            (λ address.
              on_reverse C ptr
                (write_ptr C (C.ip_into_name (C.network_ip address)) record'.ptr_name))
    ]
  ]

  -- The body of the loop over the members.
  unfoldable pub configure_member :
      ZtAuthority C → Option C.IpNetwork → Option C.IpNetwork → Member → Exec (Refresh C) (Unit {0})
  configure_member zt sixplane rfc4193 member s =
      continue
        (
          new_record C member sixplane rfc4193 (C.of_lower zt.forward_authority.domain_name)
              zt.wildcard,
          s,
        )
        (λ record' s1. continue (on_forward C (insert_member C record') s1) (λ _ s2.
          continue (reverse_member record' (config_ips member.config) s2)
            (λ _. rfc4193_member member record' rfc4193)))

  -- The pruning of the forward zone and of each reverse zone.
  unfoldable pub prune_forward : Exec (Refresh C) (Unit {0})
  prune_forward s =
      let (r, z) = prune_records C s.forward_records s.forward in (r, record s { forward = z })

  unfoldable pub prune_reverse : C.IpNetwork × RecordAuthority C → Exec (Refresh C) (Unit {0})
  prune_reverse (network, _) =
      on_reverse C network
        (λ w. let (r, z) = prune_records C w.written w.zone in (r, record w { zone = z }))

  unfoldable pub prune_all : Exec (Refresh C) (Unit {0})
  prune_all s = continue (prune_forward s) (λ _ s'. for_each prune_reverse s'.reverse s')

  -- `configure_members` on its variables: from the loop over the members on, and so forth
  unfoldable pub refresh_each :
      ZtAuthority C
      → List Member
      → Option C.IpNetwork × Option C.IpNetwork
      → Exec (Refresh C) (Unit {0})
  refresh_each zt members (sixplane, rfc4193) s =
      continue (for_each (configure_member zt sixplane rfc4193) members s) (λ _. prune_all)

  unfoldable pub refresh_assigned :
      ZtAuthority C → Network → List Member → NetworkConfig → Exec (Refresh C) (Unit {0})
  refresh_assigned zt network members config s =
      continue (assigned_networks C network config.v6_assign_mode s) (refresh_each zt members)

  unfoldable pub refresh_config :
      ZtAuthority C → Network → List Member → Exec (Refresh C) (Unit {0})
  refresh_config zt network members s =
      continue (or_panic network.config, s) (refresh_assigned zt network members)

  unfoldable pub refresh_members :
      ZtAuthority C → Network → List Member → Exec (Refresh C) (Unit {0})
  refresh_members zt network members s =
      continue (refresh_hosts C zt.hosts s) (λ _. refresh_config zt network members)

  -- `configure_members`: what was written to the zones stays there, however it ends.
  unfoldable pub configure_members : Network → List Member → Exec (ZtAuthority C) (Unit {0})
  configure_members network members zt =
      let (r, s) = refresh_members zt network members (start_refresh C zt) in
      (
        r,
        record zt {
          reverse_authority_map = s.reverse;
          forward_authority = record zt.forward_authority { authority = s.forward };
        },
      )

  -- What a round of the loop of `find_members` sees: the files, and the answer of Central
  -- (`get_members`), if there is one.
  pub record Round : Type 0 where
    pub read : Text → Option Text
    pub fetched : Option (Network × List Member)

  -- An error is logged, and a panic ends the task.
  abbrev pub logged : Outcome (Unit {0}) × ZtAuthority C → Outcome (Unit {0}) × ZtAuthority C
  logged (ok tt, zt) = (ok tt, zt)
  logged (err, zt) = (ok tt, zt)
  logged (panic, zt) = (panic, zt)

  unfoldable pub configure_fetched :
      Option (Network × List Member) → Exec (ZtAuthority C) (Unit {0})
  configure_fetched none zt = (ok tt, zt)
  configure_fetched (some (network, members)) zt = logged (configure_members network members zt)

  unfoldable pub find_members_round : Round → Exec (ZtAuthority C) (Unit {0})
  find_members_round round zt =
      continue (logged (configure_hosts C round.read zt)) (λ _. configure_fetched round.fetched)

  -- `find_members`, over the rounds that it has made
  unfoldable pub find_members : List Round → Exec (ZtAuthority C) (Unit {0})
  find_members = for_each find_members_round
