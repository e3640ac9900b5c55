-- ===== src/Refresh/Result.antt =====
-- What the forward zone holds after a successful `configure_members` of src/authority.rs.
use zeronsd.Base.{
  ◌≡◌, refl, ◌∙◌, ap, sym, true, ◌||◌, Option, some, none, List, [], ◌∷◌, ◌++◌, map, arith, ok,
}
use mathlib.Core.List.{append_assoc, append-nil}
use zeronsd.Net.{IpAddr}
use zeronsd.Dns.{RecordType, RrKey, type_same}
use zeronsd.Central.{Member, Network}
use zeronsd.Crates.{Crates, Zone}
use zeronsd.Crates.Laws.{IsNamesLawful, IsZoneLawful, lookup_key}
use zeronsd.Authority.{HostsFile, contains_name}
use zeronsd.Authority.Prune.{surviving, prune_records_lem}
use zeronsd.Authority.WellFormed.{
  IsWellFormed, match_or_insert-IsWellFormed, prune_hosts-IsWellFormed,
}
use zeronsd.Members.{ZtRecord, Writing, write_name}
use zeronsd.Members.Names.{record_names, write_all}
use zeronsd.Refresh.{ZtAuthority, host_names}
use zeronsd.Refresh.Configure.{configure_members}
use zeronsd.Refresh.Forward.{write_members, records_of, start_writing, configure_members_lem}

module _ (C : Crates) where
  -- The names of the records of all members.
  abbrev pub member_names : List (ZtRecord C) → List C.LowerName
  member_names [] = []
  member_names (r ∷ rs) = map C.lower (record_names C r) ++ member_names rs

  -- The name of the zone, and the names of the hosts file.
  abbrev pub own_names : C.LowerName → Option (HostsFile C) → List C.LowerName
  own_names domain none = domain ∷ []
  own_names domain (some hosts) = domain ∷ host_names C hosts

  written-write_all :
      (names : List C.Name) (ips : List IpAddr) (w : Writing C)
      → (write_all C names ips w).written ≡ w.written ++ map C.lower names
  unfolding write_name
  written-write_all [] ips w = sym (append-nil w.written)
  written-write_all (n ∷ names) ips w =
      written-write_all names ips (write_name C n ips w).1
      ∙ append_assoc w.written (C.lower n ∷ []) (map C.lower names)

  written-write_members :
      (rs : List (ZtRecord C)) (w : Writing C)
      → (write_members C rs w).written ≡ w.written ++ member_names rs
  written-write_members [] w = sym (append-nil w.written)
  written-write_members (r ∷ rs) w =
      written-write_members rs (write_all C (record_names C r) r.ips w)
      ∙ ap (λ l. l ++ member_names rs) (written-write_all (record_names C r) r.ips w)
      ∙ append_assoc w.written (map C.lower (record_names C r)) (member_names rs)

  written-start_writing :
      (domain : C.LowerName) (z : Zone C) (o : Option (HostsFile C))
      → (start_writing C domain z o).written ≡ own_names domain o
  written-start_writing domain z none = refl
  written-start_writing domain z (some hosts) = refl

module _ (C : Crates) (N : IsNamesLawful C) (L : IsZoneLawful C) where
  write_all-IsWellFormed :
      (names : List C.Name) (ips : List IpAddr) (w : Writing C)
      → IsWellFormed C w.zone
      → IsWellFormed C (write_all C names ips w).zone
  unfolding write_name
  write_all-IsWellFormed [] ips w h = h
  write_all-IsWellFormed (n ∷ names) ips w h =
      write_all-IsWellFormed names ips (write_name C n ips w).1
        (match_or_insert-IsWellFormed C L n ips w.zone h)

  write_members-IsWellFormed :
      (rs : List (ZtRecord C)) (w : Writing C)
      → IsWellFormed C w.zone
      → IsWellFormed C (write_members C rs w).zone
  write_members-IsWellFormed [] w h = h
  write_members-IsWellFormed (r ∷ rs) w h =
      write_members-IsWellFormed rs _ (write_all-IsWellFormed (record_names C r) r.ips w h)

  start_writing-IsWellFormed :
      (domain : C.LowerName) (z : Zone C) (o : Option (HostsFile C))
      → IsWellFormed C z
      → IsWellFormed C (start_writing C domain z o).zone
  start_writing-IsWellFormed domain z none h = h
  start_writing-IsWellFormed domain z (some hosts) h = prune_hosts-IsWellFormed C L N hosts z h

  -- The zone and the names, just before the pruning.
  abbrev pub before : ZtAuthority C → List (ZtRecord C) → Writing C
  before zt rs =
      write_members C rs
        (start_writing C zt.forward_authority.domain_name zt.forward_authority.authority zt.hosts)

  pub before-IsWellFormed :
      (zt : ZtAuthority C) (rs : List (ZtRecord C))
      → IsWellFormed C zt.forward_authority.authority
      → IsWellFormed C (before zt rs).zone
  before-IsWellFormed zt rs w = write_members-IsWellFormed rs _ (
      start_writing-IsWellFormed zt.forward_authority.domain_name zt.forward_authority.authority
        zt.hosts w)

  pub written-before :
      (zt : ZtAuthority C) (rs : List (ZtRecord C))
      → (before zt rs).written
        ≡ own_names C zt.forward_authority.domain_name zt.hosts ++ member_names C rs
  written-before zt rs =
      written-write_members C rs _
      ∙ ap (λ l. l ++ member_names C rs)
          (written-start_writing C zt.forward_authority.domain_name zt.forward_authority.authority
            zt.hosts)

  -- A set that `prune_records` leaves has a written name or is of type SOA.
  pub surviving_named :
      (written : List C.LowerName) (k : RrKey C.LowerName) (o : Option C.RecordSet)
      (set : C.RecordSet)
      → ((s : C.RecordSet) → o ≡ some s → C.set_type s ≡ k.record_type)
      → surviving C written k o ≡ some set
      → (contains_name C written k.name || type_same k.record_type RecordType.soa) ≡ true
  surviving_named written k none set typed e = cc
  surviving_named written k (some s) set typed e =
      ground (arith, typed s refl, e, ap (λ t. type_same t RecordType.soa) (typed s refl))

  -- On a well-formed forward zone, after a `configure_members` that succeeds the records of all
  -- members were made, and every set of the forward zone is of type SOA, or of the name of the
  -- zone, of a name of the hosts file or of a name of one of these records.
  pub configure_members_sound :
      (zt : ZtAuthority C) (network : Network) (members : List Member) (k : RrKey C.LowerName)
      (set : C.RecordSet)
      → IsWellFormed C zt.forward_authority.authority
      → (configure_members C network members zt).0 ≡ ok tt
      → lookup_key C k (configure_members C network members zt).1.forward_authority.authority
        ≡ some set
      → (sixplane : Option C.IpNetwork) × (rfc4193 : Option C.IpNetwork) × (rs : List (ZtRecord C))
        × (records_of C zt sixplane rfc4193 members ≡ ok rs)
        × ((contains_name C
                (own_names C zt.forward_authority.domain_name zt.hosts ++ member_names C rs)
                k.name
              || type_same k.record_type RecordType.soa)
            ≡ true)
  configure_members_sound zt network members k set w h e =
      let (sixplane, rfc4193, rs, made, result) = configure_members_lem C N zt network members h in
      let b = before zt rs in
      let good = before-IsWellFormed zt rs w in
      let left =
        sym (ap (lookup_key C k) result ∙ (prune_records_lem C N b.written b.zone k good.nodup).1)
        ∙ e in
      (
        sixplane,
        rfc4193,
        rs,
        made,
        rw (← written-before zt rs)
            (surviving_named b.written k (lookup_key C k b.zone) set (good.typed k) left),
      )
