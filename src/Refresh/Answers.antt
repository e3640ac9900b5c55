-- ===== src/Refresh/Answers.antt =====
-- What the forward zone has for each member after a successful `configure_members` of
-- src/authority.rs.
use zeronsd.Base.{
  ◌≡◌, refl, ◌∙◌, sym, Bool, true, ◌&&◌, Option, List, [], ◌∷◌, any-append, All, All-map, arith, ok,
}
use mathlib.Core.Path.{subst}
use zeronsd.Net.{IpAddr}
use zeronsd.Dns.{RecordType, RrKey}
use zeronsd.Central.{Member, Network}
use zeronsd.Crates.{Crates, Zone}
use zeronsd.Crates.Laws.{IsNamesLawful, IsZoneLawful, lookup_key}
use zeronsd.Authority.{contains_name, key_of, match_or_insert, prune_records}
use zeronsd.Authority.Answered.{match_or_insert-answered}
use zeronsd.Authority.Keeps.{answered, answered-Keeps, match_or_insert-Keeps}
use zeronsd.Authority.Prune.{surviving-written, prune_records_lem}
use zeronsd.Authority.WellFormed.{IsWellFormed}
use zeronsd.Members.{ZtRecord, Writing, write_name}
use zeronsd.Members.Names.{record_names, write_all}
use zeronsd.Refresh.{ZtAuthority}
use zeronsd.Refresh.Configure.{configure_members}
use zeronsd.Refresh.Networks.{ipv6_networks}
use zeronsd.Refresh.Forward.{write_members, records_of, configure_members_forward}
use zeronsd.Refresh.Result.{before, before-IsWellFormed}

module _ (C : Crates) where
  -- The name is answered with the addresses, for both versions.
  abbrev pub answers : Zone C → List IpAddr → C.Name → Bool
  answers z ips n =
      answered C z ips RecordType.a (C.lower n) && answered C z ips RecordType.aaaa (C.lower n)

  -- Every name of every record is answered with the addresses of the record.
  abbrev pub AllAnswered : Zone C → List (ZtRecord C) → Type 0
  AllAnswered z rs = All (λ r. All (λ n. answers z r.ips n ≡ true) (record_names C r)) rs

  -- The name is written and answered.
  abbrev entered : Writing C → List IpAddr → C.Name → Bool
  entered w ips n = contains_name C w.written (C.lower n) && answers w.zone ips n

  abbrev AllEntered : Writing C → List (ZtRecord C) → Type 0
  AllEntered w rs = All (λ r. All (λ n. entered w r.ips n ≡ true) (record_names C r)) rs

module _ (C : Crates) (L : IsZoneLawful C) where
  entered-write_name :
      (n : C.Name) (ips : List IpAddr) (w : Writing C)
      → entered C (write_name C n ips w).1 ips n ≡ true
  unfolding write_name
  entered-write_name n ips w = ground (
    arith,
    any-append (λ l. C.lower_eq.same l (C.lower n)) w.written (C.lower n ∷ []),
    (C.lower_eq.same_iff (C.lower n) (C.lower n)).1 refl,
    match_or_insert-answered C L n ips w.zone,
  )

  -- What is entered stays so.
  write_name-entered :
      (n m : C.Name) (ips others : List IpAddr) (w : Writing C)
      → entered C w others m ≡ true
      → entered C (write_name C n ips w).1 others m ≡ true
  unfolding write_name
  write_name-entered n m ips others w h = ground (
    arith,
    h,
    any-append (λ l. C.lower_eq.same l (C.lower m)) w.written (C.lower n ∷ []),
    answered-Keeps C w.zone (match_or_insert C n ips w.zone) others RecordType.a (C.lower m)
        (match_or_insert-Keeps C L n ips w.zone),
    answered-Keeps C w.zone (match_or_insert C n ips w.zone) others RecordType.aaaa (C.lower m)
        (match_or_insert-Keeps C L n ips w.zone),
  )

  write_all-entered :
      (names : List C.Name) (ips : List IpAddr) (m : C.Name) (others : List IpAddr) (w : Writing C)
      → entered C w others m ≡ true
      → entered C (write_all C names ips w) others m ≡ true
  write_all-entered [] ips m others w h = h
  write_all-entered (n ∷ names) ips m others w h =
      write_all-entered names ips m others _ (write_name-entered n m ips others w h)

  entered-write_all :
      (names : List C.Name) (ips : List IpAddr) (w : Writing C)
      → All (λ n. entered C (write_all C names ips w) ips n ≡ true) names
  entered-write_all [] ips w = tt
  entered-write_all (n ∷ names) ips w = (
    write_all-entered names ips n ips _ (entered-write_name n ips w),
    entered-write_all names ips (write_name C n ips w).1,
  )

  write_members-entered :
      (rs : List (ZtRecord C)) (m : C.Name) (others : List IpAddr) (w : Writing C)
      → entered C w others m ≡ true
      → entered C (write_members C rs w) others m ≡ true
  write_members-entered [] m others w h = h
  write_members-entered (r ∷ rs) m others w h =
      write_members-entered rs m others _ (write_all-entered (record_names C r) r.ips m others w h)

  entered-write_members :
      (rs : List (ZtRecord C)) (w : Writing C) → AllEntered C (write_members C rs w) rs
  entered-write_members [] w = tt
  entered-write_members (r ∷ rs) w = (
    All-map (λ n. write_members-entered rs n r.ips _) (record_names C r)
        (entered-write_all (record_names C r) r.ips w),
    entered-write_members rs _,
  )

  -- `prune_records` takes nothing from a written name.
  prune_records-answers :
      (N : IsNamesLawful C) (w : Writing C) (ips : List IpAddr) (n : C.Name)
      → IsWellFormed C w.zone
      → entered C w ips n ≡ true
      → answers C (prune_records C w.written w.zone).1 ips n ≡ true
  prune_records-answers N w ips n good h =
      let same = λ (t : RecordType).
        let k : RrKey C.LowerName = key_of C n t in
        (prune_records_lem C N w.written w.zone k good.nodup).1
        ∙ surviving-written C w.written k (lookup_key C k w.zone) (ground (arith, h)) in
      rw (same RecordType.a, same RecordType.aaaa) (ground (arith, h))

  -- On a well-formed forward zone, after a `configure_members` that succeeds the IPv6 networks of
  -- the network were computed and the records of all members were made with these; and for every
  -- name of each of these records (its own, the custom one and their wildcards) and each IP
  -- version of which the record has an address, the set of that name and type holds one at least
  -- of the record's addresses.
  pub configure_members-answers :
      (N : IsNamesLawful C) (zt : ZtAuthority C) (network : Network) (members : List Member)
      → IsWellFormed C zt.forward_authority.authority
      → (configure_members C network members zt).0 ≡ ok tt
      → (sixplane : Option C.IpNetwork) × (rfc4193 : Option C.IpNetwork) × (rs : List (ZtRecord C))
        × (ipv6_networks C network ≡ ok (sixplane, rfc4193))
        × (records_of C zt sixplane rfc4193 members ≡ ok rs)
        × AllAnswered C (configure_members C network members zt).1.forward_authority.authority rs
  configure_members-answers N zt network members good h =
      let (sixplane, rfc4193, rs, nets, made, result) =
        configure_members_forward C N zt network members h in
      let b = before C N L zt rs in
      (
        sixplane,
        rfc4193,
        rs,
        nets,
        made,
        subst (λ z. AllAnswered C z rs) (sym result)
            (All-map
              (λ r.
                All-map
                  (λ n. prune_records-answers N b r.ips n (before-IsWellFormed C N L zt rs good))
                  (record_names C r))
              rs (entered-write_members rs _)),
      )
