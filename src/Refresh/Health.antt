-- ===== src/Refresh/Health.antt =====
-- When the loop `find_members` of src/authority.rs goes on: no round panics.
use zeronsd.Base.{
  ◌≡◌, ◌≢◌, refl, Option, some, none, List, Text, All, All-map, Outcome, ok, err, panic,
}
use zeronsd.Net.{IpAddr}
use zeronsd.Central.{Member, Network}
use zeronsd.Crates.{Crates}
use zeronsd.Crates.Laws.{IsNamesLawful, IsZoneLawful}
use zeronsd.Hosts.{parse_hosts}
use zeronsd.Authority.{HostsFile}
use zeronsd.Members.{ZtRecord}
use zeronsd.Members.Pointers.{HasName}
use zeronsd.Refresh.{ZtAuthority, configure_parsed, configure_hosts}
use zeronsd.Refresh.Configure.{
  configure_members, Round, logged, configure_fetched, find_members_round, find_members,
}
use zeronsd.Refresh.Networks.{ipv6_networks}
use zeronsd.Refresh.Forward.{records_of}
use zeronsd.Refresh.Tracks.{Reaches, Reaches-continue, Reaches-for_each}
use zeronsd.Members.Wildcards.{HasWildcards}
use zeronsd.Refresh.Total.{configure_members_succeeds}

module _ (C : Crates) (zt : ZtAuthority C) where
  -- Central gives no answer, or one with a configuration that assigns no RFC 4193 addresses, and
  -- with members whose records can be made, with wildcards where they are entered.
  abbrev pub IsUsable : Option (Network × List Member) → Type 0
  IsUsable none = Unit
  IsUsable (some (network, members)) =
      (sixplane : Option C.IpNetwork) × (ipv6_networks C network ≡ ok (sixplane, none))
      × (rs : List (ZtRecord C)) × (records_of C zt sixplane none members ≡ ok rs)
      × All (HasWildcards C) rs

  -- The parser of the hosts file does not panic, and the answer of Central can be used.
  abbrev pub IsHealthy : Round C → Type 0
  IsHealthy round =
      (parse_hosts C (C.of_lower zt.forward_authority.domain_name) round.read zt.hosts_file ≢ panic)
      × IsUsable round.fetched

  -- The settings that no round changes.
  abbrev HasSettings : ZtAuthority C → Type 0
  HasSettings t =
      (t.forward_authority.domain_name ≡ zt.forward_authority.domain_name)
      × (t.wildcard ≡ zt.wildcard)
      × (t.hosts_file ≡ zt.hosts_file)

  configure_parsed-Reaches :
      (r : Outcome (HostsFile C)) (t : ZtAuthority C)
      → r ≢ panic
      → HasSettings t
      → Reaches HasSettings (logged C (configure_parsed C (r, t)))
  configure_parsed-Reaches (ok hosts) t calm h = (refl, h)
  configure_parsed-Reaches err t calm h = (refl, h)
  configure_parsed-Reaches panic t calm h = absurd (calm refl)

  configure_hosts-Reaches :
      (read : Text → Option Text) (t : ZtAuthority C)
      → parse_hosts C (C.of_lower zt.forward_authority.domain_name) read zt.hosts_file ≢ panic
      → HasSettings t
      → Reaches HasSettings (logged C (configure_hosts C read t))
  unfolding configure_hosts
  configure_hosts-Reaches read t calm (domain, wildcard, file) =
      configure_parsed-Reaches
        (parse_hosts C (C.of_lower t.forward_authority.domain_name) read t.hosts_file) t
        (rw (domain, file) calm) (domain, wildcard, file)

  logged-Reaches :
      (r : Outcome (Unit {0}) × ZtAuthority C)
      → r.0 ≡ ok tt
      → HasSettings r.1
      → Reaches HasSettings (logged C r)
  logged-Reaches (ok u, t) e h = (refl, h)
  logged-Reaches (err, t) e h = cc
  logged-Reaches (panic, t) e h = cc

  module _ (N : IsNamesLawful C) (L : IsZoneLawful C) (named : (ip : IpAddr) → HasName C ip) where
    configure_fetched-Reaches :
        (o : Option (Network × List Member)) (t : ZtAuthority C)
        → IsUsable o
        → HasSettings t
        → Reaches HasSettings (configure_fetched C o t)
    unfolding configure_fetched configure_members
    configure_fetched-Reaches none t usable h = (refl, h)
    configure_fetched-Reaches (some (network, members)) t (sixplane, nets, rs, made, wild)
          (domain, wildcard, file) =
        logged-Reaches (configure_members C network members t)
          (configure_members_succeeds C N L t network members sixplane rs named nets
            (rw (domain, wildcard) made) wild)
          (domain, wildcard, file)

    -- If every address has a reverse name, and in each round the parser of the hosts file does not
    -- panic, and Central gives no answer, or a network that assigns no RFC 4193 addresses and
    -- members of whom all records can be made, with a wildcard for each name of theirs for which
    -- one is entered, then `find_members` runs all rounds and never panics.
    pub find_members_lasts :
        (rounds : List (Round C)) → All IsHealthy rounds → (find_members C rounds zt).0 ≡ ok tt
    unfolding find_members find_members_round
    find_members_lasts rounds healthy =
        (Reaches-for_each HasSettings (find_members_round C) rounds zt
          (All-map
            (λ round (calm, usable) t h.
              Reaches-continue HasSettings (logged C (configure_hosts C round.read t))
                (λ _. configure_fetched C round.fetched)
                (configure_hosts-Reaches round.read t calm h)
                (λ u k. configure_fetched-Reaches round.fetched u usable k))
            rounds healthy)
          (refl, refl, refl)).0
