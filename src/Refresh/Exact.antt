-- ===== src/Refresh/Exact.antt =====
-- The addresses of a new name after a successful `configure_members` of src/authority.rs.
use zeronsd.Base.{
  ◌≡◌, ◌⊎◌, refl, ◌∙◌, ap, true, false, Option, some, none, List, any, any-append, arith, ok,
  Bool-cases, inl, inr,
}
use zeronsd.Dns.{RecordType, RData, RrKey, to_record_type, contains_rdata}
use zeronsd.Central.{Member, Network}
use zeronsd.Crates.{Crates, Zone}
use zeronsd.Crates.Laws.{IsNamesLawful, IsZoneLawful, lookup_key, rdatas_of}
use zeronsd.Authority.{HostsFile, contains_name, key_of, prune_records}
use zeronsd.Authority.Insert.{is_address}
use zeronsd.Authority.Prune.{surviving, surviving-written, prune_records_lem}
use zeronsd.Authority.PruneHosts.Final.{prune_hosts_lem}
use zeronsd.Authority.Union.{has_record}
use zeronsd.Authority.WellFormed.{IsWellFormed}
use zeronsd.Members.{ZtRecord, Writing}
use zeronsd.Refresh.{ZtAuthority}
use zeronsd.Refresh.Configure.{configure_members}
use zeronsd.Refresh.Networks.{ipv6_networks}
use zeronsd.Refresh.Forward.{records_of, start_writing, configure_members_forward}
use zeronsd.Refresh.Owners.{
  owners, is_shared, has_address, IsNew, has_address-owners, write_members_new,
}
use zeronsd.Refresh.Result.{own_names, member_names, before, before-IsWellFormed, written-before}

module _ (C : Crates) (N : IsNamesLawful C) (L : IsZoneLawful C) where
  start-IsNew :
      (name : C.Name) (domain : C.LowerName) (z : Zone C) (o : Option (HostsFile C))
      → IsWellFormed C z
      → IsNew C name z
      → IsNew C name (start_writing C domain z o).zone
  start-IsNew name domain z none good new = new
  start-IsNew name domain z (some hosts) good (no_a, no_aaaa) = (
    (prune_hosts_lem C N hosts z (key_of C name RecordType.a) good.nodup).1 ∙ rw no_a refl,
    (prune_hosts_lem C N hosts z (key_of C name RecordType.aaaa) good.nodup).1 ∙ rw no_aaaa refl,
  )

  -- What is not stored is not stored after the pruning.
  contains-surviving :
      (written : List C.LowerName) (k : RrKey C.LowerName) (o : Option C.RecordSet)
      (d : RData C.Name)
      → contains_rdata C.name_eq (rdatas_of C o) d ≡ false
      → contains_rdata C.name_eq (rdatas_of C (surviving C written k o)) d ≡ false
  contains-surviving written k none d h = h
  contains-surviving written k (some set) d h = ground (arith, h)

  -- The pruning takes nothing from a name of a record, and no record has another name.
  prune_records-owners :
      (w : Writing C) (rs : List (ZtRecord C)) (name : C.Name) (d : RData C.Name)
      → IsWellFormed C w.zone
      → ((l : C.LowerName)
          → contains_name C (member_names C rs) l ≡ true
          → contains_name C w.written l ≡ true)
      → has_record C w.zone name d ≡ any (has_address C name d) (owners C name rs)
      → has_record C (prune_records C w.written w.zone).1 name d
        ≡ any (has_address C name d) (owners C name rs)
  prune_records-owners w rs name d good written h =
      let k = key_of C name (to_record_type d) in
      let left = (prune_records_lem C N w.written w.zone k good.nodup).1 in
      elim (Bool-cases (any (has_address C name d) (owners C name rs))) [
        | inl given ↦
            rw
              (
                left,
                surviving-written C w.written k (lookup_key C k w.zone)
                    (written (C.lower name) (has_address-owners C name rs d given)),
              )
              h
        | inr apart ↦
            rw (left, apart) (contains-surviving w.written k (lookup_key C k w.zone) d (h ∙ apart))
      ]

  -- If the forward zone is well formed and a name has neither an A nor an AAAA set in it, then
  -- after a `configure_members` that succeeds the IPv6 networks of the network were computed and
  -- the records of all members were made with these, and the name belongs to several of these
  -- records, or it has exactly the addresses of the one record that it belongs to, and none if it
  -- belongs to no record.
  pub configure_members-owners :
      (zt : ZtAuthority C) (network : Network) (members : List Member) (name : C.Name)
      (d : RData C.Name)
      → IsWellFormed C zt.forward_authority.authority
      → IsNew C name zt.forward_authority.authority
      → is_address (to_record_type d) ≡ true
      → (configure_members C network members zt).0 ≡ ok tt
      → (sixplane rfc4193 : Option C.IpNetwork) × (rs : List (ZtRecord C)) × (ipv6_networks C
            network
          ≡ ok (sixplane, rfc4193))
        × (records_of C zt sixplane rfc4193 members ≡ ok rs)
        × ((is_shared C name rs ≡ true)
            ⊎ (has_record C
                  (configure_members C network members zt).1.forward_authority.authority
                  name
                  d
                ≡ any (has_address C name d) (owners C name rs)))
  configure_members-owners zt network members name d good new address h =
      let (sixplane, rfc4193, rs, nets, made, result) =
        configure_members_forward C N zt network members h in
      let b = before C N L zt rs in
      let names = λ (l : C.LowerName).
        any-append (λ k. C.lower_eq.same k l)
          (own_names C zt.forward_authority.domain_name zt.hosts) (member_names C rs) in
      let kept = λ (l : C.LowerName) (c : contains_name C (member_names C rs) l ≡ true).
        let all : contains_name C b.written l ≡ true =
          rw (written-before C N L zt rs) (ground (arith, names l, c)) in
        all in
      (
        sixplane,
        rfc4193,
        rs,
        nets,
        made,
        elim (write_members_new C L name d address rs _ (
            start-IsNew name zt.forward_authority.domain_name zt.forward_authority.authority
              zt.hosts good new)) [
                | inl shared ↦ inl shared
                | inr exact ↦ inr (
                    ap (λ z. has_record C z name d) result
                    ∙ prune_records-owners b rs name d (before-IsWellFormed C N L zt rs good) kept
                        exact)
              ],
      )
