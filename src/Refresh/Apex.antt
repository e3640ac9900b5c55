-- ===== src/Refresh/Apex.antt =====
-- The SOA records of the zones, through all rounds of `find_members` of src/authority.rs.
use zeronsd.Base.{
  ℕ, ◌≡◌, ◌≢◌, refl, ◌∙◌, ap, true, Option, some, none, List, [], ◌∷◌, Text, All, is_empty, arith,
  ok, inl, inr, Bool-cases,
}
use zeronsd.Net.{IpAddr}
use zeronsd.Dns.{RecordType, RrKey, type_same_iff}
use zeronsd.Crates.{Crates, Zone}
use zeronsd.Crates.Laws.{IsNamesLawful, IsZoneLawful, lookup_key}
use zeronsd.Hostname.Runs.{IsRegexLawful}
use zeronsd.Hostname.Domains.{IsAppendLawful, to_fqdn-ne}
use zeronsd.Hosts.{parse_hosts}
use zeronsd.Hosts.Entries.{parse_hosts-All}
use zeronsd.Authority.{HostsFile}
use zeronsd.Authority.Insert.{lookup-match_or_insert}
use zeronsd.Authority.Prune.{surviving, prune_records_lem}
use zeronsd.Authority.PruneHosts.Grouping.{listed, repeated}
use zeronsd.Authority.PruneHosts.Final.{pruned, prune_hosts_lem}
use zeronsd.Authority.Ptr.{lookup-configure_ptr}
use zeronsd.Authority.WellFormed.{
  IsWellFormed, match_or_insert-IsWellFormed, prune_records-IsWellFormed, prune_hosts-IsWellFormed,
  configure_ptr-IsWellFormed,
}
use zeronsd.Members.Kept.{IsKept}
use zeronsd.Refresh.{ZtAuthority}
use zeronsd.Refresh.Configure.{Round, find_members}
use zeronsd.Refresh.Zones.Rounds.{HoldsServer, find_members-keeps}

module _ (C : Crates) where
  abbrev pub soa_key : C.LowerName → RrKey C.LowerName
  soa_key d = record { name = d; record_type = RecordType.soa }

  -- The zone `d` is well formed, and has this set as its SOA set.
  abbrev pub HasSoa : (C.LowerName → Option C.RecordSet) → C.LowerName → Zone C → Type 0
  HasSoa soa d z = IsWellFormed C z × (lookup_key C (soa_key d) z ≡ soa d)

  -- The hosts file lists no address for the name of the zone.
  abbrev pub IsBelow : C.LowerName → HostsFile C → Type 0
  IsBelow d hosts = is_empty (listed C (C.of_lower d) hosts) ≡ true

  repeated-nil :
      (d : C.Name) (ip : IpAddr) (names : List C.Name)
      → All (λ n. n ≢ d) names
      → repeated C d ip names ≡ []
  repeated-nil d ip [] h = refl
  repeated-nil d ip (n ∷ names) (h, hs) = elim (Bool-cases (C.name_eq.same n d)) [
    | inl same ↦ absurd (h ((C.name_eq.same_iff n d).0 same))
    | inr differ ↦ rw differ (repeated-nil d ip names hs)
  ]

  listed-nil :
      (d : C.Name) (hosts : HostsFile C)
      → All (λ e. All (λ n. n ≢ d) e.1) hosts
      → listed C d hosts ≡ []
  unfolding listed
  listed-nil d [] h = refl
  listed-nil d ((ip, names) ∷ hosts) (h, hs) =
      rw (repeated-nil d ip names h) (listed-nil d hosts hs)

  pub parse_hosts-IsBelow :
      (R : IsRegexLawful C) (A : IsAppendLawful C) (d : C.LowerName) (read : Text → Option Text)
      (file : Option Text) (hosts : HostsFile C)
      → parse_hosts C (C.of_lower d) read file ≡ ok hosts
      → IsBelow d hosts
  parse_hosts-IsBelow R A d read file hosts e =
      let names =
        parse_hosts-All C (C.of_lower d) (λ n. n ≢ C.of_lower d)
          (λ s n e'. to_fqdn-ne C R A s (C.of_lower d) n e') read file hosts e in
      ap is_empty (listed-nil (C.of_lower d) hosts names)

module _ (C : Crates) (N : IsNamesLawful C) (L : IsZoneLawful C)
    (soa : C.LowerName → Option C.RecordSet) where
  surviving_soa :
      (written : List C.LowerName) (k : RrKey C.LowerName) (o : Option C.RecordSet)
      → k.record_type ≡ RecordType.soa
      → ((s : C.RecordSet) → o ≡ some s → C.set_type s ≡ k.record_type)
      → surviving C written k o ≡ o
  surviving_soa written k none t typed = refl
  surviving_soa written k (some s) t typed =
      ground (arith, (type_same_iff (C.set_type s) RecordType.soa).1 (typed s refl ∙ t))

  pub pruned_nil :
      (serial : ℕ) (ips : List IpAddr) (k : RrKey C.LowerName) (o : Option C.RecordSet)
      → is_empty ips ≡ true
      → pruned C serial ips k o ≡ o
  pruned_nil serial ips k none h = refl
  pruned_nil serial ips k (some s) h = rw h refl

  pub HasSoa-IsKept : IsKept C (IsBelow C) (HasSoa C soa)
  HasSoa-IsKept = record {
    match_or_insert-keeps = λ d name ips z (w, e). (
      match_or_insert-IsWellFormed C L name ips z w,
      lookup-match_or_insert C L name ips z (soa_key C d) (inr refl) ∙ e,
    );
    configure_ptr-keeps = λ d ptr fqdn z (w, e). (
      configure_ptr-IsWellFormed C L N ptr fqdn z w,
      lookup-configure_ptr C N L ptr fqdn z (soa_key C d)
            (λ p. let t : RecordType.soa ≡ RecordType.ptr = ap (λ k. k.record_type) p in cc t)
          ∙ e,
    );
    prune_records-keeps = λ d written z (w, e). (
      prune_records-IsWellFormed C L N written z w,
      (prune_records_lem C N written z (soa_key C d) w.nodup).1
          ∙ surviving_soa written (soa_key C d) _ refl (w.typed (soa_key C d))
          ∙ e,
    );
    prune_hosts-keeps = λ d hosts z below (w, e). (
      prune_hosts-IsWellFormed C L N hosts z w,
      (prune_hosts_lem C N hosts z (soa_key C d) w.nodup).1
          ∙ pruned_nil (C.serial z) _ (soa_key C d) _ below
          ∙ e,
    );
  }

  -- If names are lower-cased, put below the domain and matched as documented, and every zone of
  -- the server is well formed, has a given set (or none) as the SOA set of its name, and the table
  -- of hosts lists no address for the name of the forward zone, then so it is after any rounds of
  -- `find_members`, whatever Central and the hosts file give and however the rounds end.
  pub find_members-HasSoa :
      IsRegexLawful C
      → IsAppendLawful C
      → (rounds : List (Round C)) (zt : ZtAuthority C) → HoldsServer C (IsBelow C) (HasSoa C soa) zt
      → HoldsServer C (IsBelow C) (HasSoa C soa) (find_members C rounds zt).1
  find_members-HasSoa R A rounds zt h =
      find_members-keeps C (IsBelow C) (HasSoa C soa) HasSoa-IsKept
        (λ d read file hosts e. parse_hosts-IsBelow C R A d read file hosts e) rounds zt h
