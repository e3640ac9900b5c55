-- ===== src/Refresh/Stays.antt =====
-- What a refresh leaves as it was: the addresses of a name on which the zone and the records of the
-- members agree (`configure_members` of src/authority.rs).
use zeronsd.Base.{
  ◌≡◌, refl, ◌∙◌, ap, sym, Bool, true, false, not, Option, some, none, List, [], ◌∷◌, map, all,
  any-append, is_empty, if◌then◌else◌, arith, ok, Bool-cases, inl, inr,
}
use zeronsd.Dns.{RData, to_record_type, contains_rdata}
use zeronsd.Central.{Member, Network}
use zeronsd.Crates.{Crates, Zone}
use zeronsd.Crates.Laws.{IsNamesLawful, IsZoneLawful, lookup_key, rdatas_of}
use zeronsd.Authority.{HostsFile, contains_name, key_of, prune_records}
use zeronsd.Authority.Insert.{is_address}
use zeronsd.Authority.Prune.{surviving-written, prune_records_lem}
use zeronsd.Authority.PruneHosts.Grouping.{listed}
use zeronsd.Authority.PruneHosts.Final.{prune_hosts_lem}
use zeronsd.Authority.Union.{has_record}
use zeronsd.Authority.WellFormed.{IsWellFormed}
use zeronsd.Members.{ZtRecord, Writing}
use zeronsd.Members.Names.{record_names, write_all}
use zeronsd.Refresh.{ZtAuthority}
use zeronsd.Refresh.Networks.{ipv6_networks}
use zeronsd.Refresh.Configure.{configure_members}
use zeronsd.Refresh.Forward.{write_members, records_of, start_writing, configure_members_forward}
use zeronsd.Refresh.Owners.{has_name, owners, has_address, write_all_again}
use zeronsd.Refresh.HostRound.{lookup-write_all}
use zeronsd.Refresh.Apex.{pruned_nil}
use zeronsd.Refresh.Result.{own_names, member_names, before, before-IsWellFormed, written-before}

module _ (C : Crates) (name : C.Name) (d : RData C.Name) where
  -- The record has the address, or has it not, just as the zone.
  abbrev pub agrees : Bool → ZtRecord C → Bool
  agrees b r = if b then has_address C name d r else not (has_address C name d r)

  -- The hosts file does not list the name.
  abbrev pub IsUnlisted : Option (HostsFile C) → Type 0
  IsUnlisted none = Unit
  IsUnlisted (some hosts) = is_empty (listed C name hosts) ≡ true

  contains-member_names :
      (rs : List (ZtRecord C))
      → is_empty (owners C name rs) ≡ false
      → contains_name C (member_names C rs) (C.lower name) ≡ true
  contains-member_names [] h = cc
  contains-member_names (r ∷ rs) h = ground (
    arith,
    h,
    contains-member_names rs,
    any-append (λ l. C.lower_eq.same l (C.lower name)) (map C.lower (record_names C r))
        (member_names C rs),
  )

  write_members_stays :
      (L : IsZoneLawful C) (rs : List (ZtRecord C)) (w : Writing C) (b : Bool)
      → is_address (to_record_type d) ≡ true
      → has_record C w.zone name d ≡ b
      → all (agrees b) (owners C name rs) ≡ true
      → has_record C (write_members C rs w).zone name d ≡ b
  write_members_stays L [] w b address h agree = h
  write_members_stays L (r ∷ rs) w b address h agree = elim (Bool-cases (has_name C name r)) [
    | inl has ↦
        let both : all (agrees b) (r ∷ owners C name rs) ≡ true = rw has at agree in
        let same : has_address C name d r ≡ b = ground (arith, both) in
        let rest : all (agrees b) (owners C name rs) ≡ true = ground (arith, both) in
        write_members_stays L rs (write_all C (record_names C r) r.ips w) b address
          (write_all_again C L name d address (record_names C r) r.ips w (h ∙ sym same) ∙ same) rest
    | inr lacks ↦
        write_members_stays L rs (write_all C (record_names C r) r.ips w) b address
          (ap (λ o. contains_rdata C.name_eq (rdatas_of C o) d)
              (lookup-write_all C L (key_of C name (to_record_type d)) (record_names C r) r.ips w
                lacks)
            ∙ h)
          (rw lacks at agree)
  ]

module _ (C : Crates) (N : IsNamesLawful C) (L : IsZoneLawful C) where
  start_stays :
      (name : C.Name) (d : RData C.Name) (domain : C.LowerName) (z : Zone C)
      (o : Option (HostsFile C))
      → IsWellFormed C z
      → IsUnlisted C name d o
      → has_record C (start_writing C domain z o).zone name d ≡ has_record C z name d
  start_stays name d domain z none good unlisted = refl
  start_stays name d domain z (some hosts) good unlisted =
      let k = key_of C name (to_record_type d) in
      let empty : is_empty (listed C (C.of_lower (C.lower name)) hosts) ≡ true =
        rw (N.of_lower-lower name) unlisted in
      ap (λ o. contains_rdata C.name_eq (rdatas_of C o) d)
        ((prune_hosts_lem C N hosts z k good.nodup).1
          ∙ pruned_nil C N L (λ e. none) (C.serial z) _ k (lookup_key C k z) empty)

  -- On a well-formed forward zone, if a name is one of those of the members' records, the hosts
  -- file does not list it, and each record that has the name has an address just if the zone has
  -- it for the name, then after a `configure_members` that succeeds the zone has the address for
  -- the name just if it had it before.
  pub configure_members-agrees :
      (zt : ZtAuthority C) (network : Network) (members : List Member)
      (sixplane rfc4193 : Option C.IpNetwork) (rs : List (ZtRecord C)) (name : C.Name)
      (d : RData C.Name)
      → IsWellFormed C zt.forward_authority.authority
      → IsUnlisted C name d zt.hosts
      → is_address (to_record_type d) ≡ true
      → (configure_members C network members zt).0 ≡ ok tt
      → ipv6_networks C network ≡ ok (sixplane, rfc4193)
      → records_of C zt sixplane rfc4193 members ≡ ok rs
      → is_empty (owners C name rs) ≡ false
      → all
          (agrees C name d (has_record C zt.forward_authority.authority name d))
          (owners C name rs)
        ≡ true
      → has_record C (configure_members C network members zt).1.forward_authority.authority name d
        ≡ has_record C zt.forward_authority.authority name d
  configure_members-agrees zt network members sixplane rfc4193 rs name d good unlisted address h
        nets made owned agree =
      let (sixplane', rfc4193', rs', nets', made', result) =
        configure_members_forward C N zt network members h in
      let found : Option C.IpNetwork × Option C.IpNetwork = (sixplane', rfc4193') in
      let given : Option C.IpNetwork × Option C.IpNetwork = (sixplane, rfc4193) in
      let same : found ≡ given = cc (nets, nets') in
      let same_records : rs' ≡ rs =
        cc (made, made', ap (λ n. records_of C zt n.0 n.1 members) same) in
      let b = before C N L zt rs in
      let k = key_of C name (to_record_type d) in
      let listed_names =
        any-append (λ l. C.lower_eq.same l (C.lower name))
          (own_names C zt.forward_authority.domain_name zt.hosts) (member_names C rs) in
      let written : contains_name C b.written (C.lower name) ≡ true =
        rw (written-before C N L zt rs)
          (ground (arith, listed_names, contains-member_names C name d rs owned)) in
      let left : lookup_key C k (prune_records C b.written b.zone).1 ≡ lookup_key C k b.zone =
        (prune_records_lem C N b.written b.zone k (before-IsWellFormed C N L zt rs good).nodup).1
        ∙ surviving-written C b.written k (lookup_key C k b.zone) written in
      ap (λ z. has_record C z name d)
        (result
          ∙ ap (λ q. (prune_records C (before C N L zt q).written (before C N L zt q).zone).1)
              same_records)
      ∙ ap (λ o. contains_rdata C.name_eq (rdatas_of C o) d) left
      ∙ write_members_stays C name d L rs _ _ address
          (start_stays name d zt.forward_authority.domain_name zt.forward_authority.authority
            zt.hosts good unlisted)
          agree
