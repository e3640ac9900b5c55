-- ===== src/Refresh/HostRound.antt =====
-- The names of the hosts file after `configure_hosts` and then `configure_members` of
-- src/authority.rs.
use zeronsd.Base.{
  ◌≡◌, ◌⊎◌, refl, ◌∙◌, ap, sym, true, false, Option, some, List, [], ◌∷◌, ◌++◌, Text, map,
  any-append, is_empty, arith, ok, Bool-cases, inl, inr,
}
use mathlib.Core.List.{flatten, map-append}
use zeronsd.Net.{IpAddr}
use zeronsd.Dns.{RData, RrKey, to_record_type, contains_rdata}
use zeronsd.Central.{Member, Network}
use zeronsd.Crates.{Crates, Zone}
use zeronsd.Crates.Laws.{IsNamesLawful, IsZoneLawful, lookup_key, rdatas_of}
use zeronsd.Hosts.{parse_hosts}
use zeronsd.Authority.{HostsFile, contains_name, key_of, prune_hosts, prune_records}
use zeronsd.Authority.Insert.{lookup-match_or_insert}
use zeronsd.Authority.Prune.{prune_records_lem, surviving-written}
use zeronsd.Authority.PruneHosts.Grouping.{listed, repeated}
use zeronsd.Authority.Union.{has_record, same-lower}
use zeronsd.Authority.WellFormed.{IsWellFormed}
use zeronsd.Members.{ZtRecord, Writing, write_name}
use zeronsd.Members.Names.{record_names, write_all}
use zeronsd.Refresh.{ZtAuthority, host_names, insert_hosts, configure_hosts}
use zeronsd.Refresh.Configure.{configure_members}
use zeronsd.Refresh.Forward.{write_members, records_of, configure_members_lem}
use zeronsd.Refresh.HostAnswers.{is_listed, insert_hosts-IsWellFormed, prune_hosts-insert_hosts}
use zeronsd.Refresh.Result.{member_names, before, before-IsWellFormed, written-before}

module _ (C : Crates) (L : IsZoneLawful C) where
  -- The records of members leave the sets of other names as they are.
  pub lookup-write_all :
      (k : RrKey C.LowerName) (names : List C.Name) (ips : List IpAddr) (w : Writing C)
      → contains_name C (map C.lower names) k.name ≡ false
      → lookup_key C k (write_all C names ips w).zone ≡ lookup_key C k w.zone
  unfolding write_name
  lookup-write_all k [] ips w h = refl
  lookup-write_all k (n ∷ names) ips w h =
      lookup-write_all k names ips (write_name C n ips w).1 (ground (arith, h))
      ∙ lookup-match_or_insert C L n ips w.zone k
          (inl (λ p. ground (arith, h, (C.lower_eq.same_iff (C.lower n) k.name).1 (sym p))))

  lookup-write_members :
      (k : RrKey C.LowerName) (rs : List (ZtRecord C)) (w : Writing C)
      → contains_name C (member_names C rs) k.name ≡ false
      → lookup_key C k (write_members C rs w).zone ≡ lookup_key C k w.zone
  lookup-write_members k [] w h = refl
  lookup-write_members k (r ∷ rs) w h =
      let apart =
        any-append (λ l. C.lower_eq.same l k.name) (map C.lower (record_names C r))
          (member_names C rs) in
      lookup-write_members k rs _ (ground (arith, apart, h))
      ∙ lookup-write_all k (record_names C r) r.ips w (ground (arith, apart, h))

is_empty-rest :
    {A : Type 0} (xs ys : List A)
    → is_empty xs ≡ true
    → is_empty (xs ++ ys) ≡ false
    → is_empty ys ≡ false
is_empty-rest [] ys e h = h
is_empty-rest (x ∷ xs) ys e h = cc

module _ (C : Crates) (N : IsNamesLawful C) where
  repeated-contains :
      (name : C.Name) (ip : IpAddr) (names : List C.Name)
      → is_empty (repeated C name ip names) ≡ false
      → contains_name C (map C.lower names) (C.lower name) ≡ true
  repeated-contains name ip [] h = cc
  repeated-contains name ip (n ∷ names) h =
      ground (arith, h, same-lower C N n name, repeated-contains name ip names)

  -- A name for which the hosts file lists an address is one of its names.
  listed-contains :
      (name : C.Name) (hosts : HostsFile C)
      → is_empty (listed C name hosts) ≡ false
      → contains_name C (host_names C hosts) (C.lower name) ≡ true
  unfolding listed flatten
  listed-contains name [] h = cc
  listed-contains name ((ip, names) ∷ hosts) h =
      rw
        (
          map-append C.lower names (flatten (map (λ (e : IpAddr × List C.Name). e.1) hosts)),
          any-append (λ l. C.lower_eq.same l (C.lower name)) (map C.lower names)
              (host_names C hosts),
        )
        (elim (Bool-cases (is_empty (repeated C name ip names))) [
          | inr some_ip ↦ ground (arith, repeated-contains name ip names some_ip)
          | inl nothing ↦ ground (arith, listed-contains name hosts (is_empty-rest _ _ nothing h))
        ])

module _ (C : Crates) (N : IsNamesLawful C) (L : IsZoneLawful C) where
  -- What the pruning of a zone that was just given the names of the hosts file leaves.
  prune_records-listed :
      (zt : ZtAuthority C) (hosts : HostsFile C) (z : Zone C) (rs : List (ZtRecord C))
      (name : C.Name) (d : RData C.Name)
      → IsWellFormed C z
      → zt.hosts ≡ some hosts
      → zt.forward_authority.authority ≡ insert_hosts C hosts z
      → is_empty (listed C name hosts) ≡ false
      → contains_name C (member_names C rs) (C.lower name) ≡ false
      → has_record C
          (prune_records C (before C N L zt rs).written (before C N L zt rs).zone).1
          name
          d
        ≡ is_listed C hosts name d
  prune_records-listed zt hosts z rs name d w kept start some_ip apart =
      let b = before C N L zt rs in
      let k : RrKey C.LowerName = key_of C name (to_record_type d) in
      let well = insert_hosts-IsWellFormed C N L hosts z w in
      let good = before-IsWellFormed C N L zt rs (rw start well) in
      let named : contains_name C b.written (C.lower name) ≡ true =
        rw (written-before C N L zt rs, kept)
          (ground (
            arith,
            listed-contains C N name hosts some_ip,
            any-append (λ l. C.lower_eq.same l (C.lower name)) (host_names C hosts)
                (member_names C rs),
          )) in
      let same : lookup_key C k (prune_records C b.written b.zone).1
          ≡ lookup_key C k (prune_hosts C hosts (insert_hosts C hosts z)).1 =
        (prune_records_lem C N b.written b.zone k good.nodup).1
        ∙ surviving-written C b.written k (lookup_key C k b.zone) named
        ∙ lookup-write_members C L k rs _ apart
        ∙ rw (kept, start) refl in
      ap (λ o. contains_rdata C.name_eq (rdatas_of C o) d) same
      ∙ prune_hosts-insert_hosts C N L hosts z name d w some_ip

  configure_hosts_kept :
      (zt : ZtAuthority C) (read : Text → Option Text) (hosts : HostsFile C)
      → parse_hosts C (C.of_lower zt.forward_authority.domain_name) read zt.hosts_file ≡ ok hosts
      → ((configure_hosts C read zt).1.hosts ≡ some hosts)
        × ((configure_hosts C read zt).1.forward_authority.authority
            ≡ insert_hosts C hosts zt.forward_authority.authority)
  unfolding configure_hosts
  configure_hosts_kept zt read hosts parsed = rw parsed (refl, refl)

  -- If the forward zone is well formed, the hosts file is parsed, and `configure_members` succeeds
  -- after `configure_hosts`, then a name for which the file lists an address is one of the names
  -- of a member's record, or has exactly the listed addresses, whatever records it had before.
  pub configure_members-configure_hosts :
      (zt : ZtAuthority C) (read : Text → Option Text) (hosts : HostsFile C) (network : Network)
      (members : List Member) (name : C.Name) (d : RData C.Name)
      → IsWellFormed C zt.forward_authority.authority
      → parse_hosts C (C.of_lower zt.forward_authority.domain_name) read zt.hosts_file ≡ ok hosts
      → (configure_members C network members (configure_hosts C read zt).1).0 ≡ ok tt
      → is_empty (listed C name hosts) ≡ false
      → (sixplane : Option C.IpNetwork) × (rfc4193 : Option C.IpNetwork) × (rs : List (ZtRecord C))
        × (records_of C (configure_hosts C read zt).1 sixplane rfc4193 members ≡ ok rs)
        × ((contains_name C (member_names C rs) (C.lower name) ≡ true)
            ⊎ (has_record C
                  (configure_members C network members
                    (configure_hosts C read zt).1).1.forward_authority.authority
                  name
                  d
                ≡ is_listed C hosts name d))
  configure_members-configure_hosts zt read hosts network members name d w parsed h some_ip =
      let zt' = (configure_hosts C read zt).1 in
      let (kept, start) = configure_hosts_kept zt read hosts parsed in
      let (sixplane, rfc4193, rs, made, result) = configure_members_lem C N zt' network members h in
      (
        sixplane,
        rfc4193,
        rs,
        made,
        elim (Bool-cases (contains_name C (member_names C rs) (C.lower name))) [
          | inl member ↦ inl member
          | inr apart ↦ inr (
              ap (λ z. has_record C z name d) result
              ∙ prune_records-listed zt' hosts zt.forward_authority.authority rs name d w kept start
                  some_ip apart)
        ],
      )
