-- ===== src/Refresh/Reverse/Points.antt =====
-- The PTR records that a reverse zone has for a member after a successful `configure_members` of
-- src/authority.rs.
use zeronsd.Base.{◌≡◌, ◌≢◌, ◌∙◌, ap, true, Option, some, List, ◌∷◌, ◌++◌, All, All-map, ok}
use zeronsd.Base.Dict
use zeronsd.Base.Exec.{continue-ok, for_each, for_each-keeps, for_each-append}
use zeronsd.Net.{IpAddr}
use zeronsd.Dns.{RecordType, RData}
use zeronsd.Central.{Member, Network}
use zeronsd.Crates.{Crates}
use zeronsd.Crates.Laws.{IsNamesLawful, IsZoneLawful, is_stored}
use zeronsd.Authority.{RecordAuthority, key_of}
use zeronsd.Authority.WellFormed.{IsWellFormed}
use zeronsd.Members.{ZtRecord, new_record}
use zeronsd.Refresh.{ZtAuthority}
use zeronsd.Refresh.Configure.{configure_member, prune_all, configure_members}
use zeronsd.Refresh.Forward.{records_of}
use zeronsd.Refresh.Reverse.{HasReverse}
use zeronsd.Refresh.Reverse.Kept.{
  PtrKept, configure_member-HasReverse, configure_each-HasReverse, prune_all-HasReverse,
}
use zeronsd.Refresh.Networks.{ipv6_networks}
use zeronsd.Refresh.Reverse.Whole.{configure_members-HasParts_of}
use zeronsd.Refresh.Reverse.Member.{Good-PtrKept}
use zeronsd.Refresh.Reverse.Assigned.{IsEntered, configure_member_enters}
use zeronsd.Refresh.Reverse.Shown.{IsGood, IsShown, write_ptr-IsShown_other, prune-IsShown}

module _ (C : Crates) (N : IsNamesLawful C) (L : IsZoneLawful C) where
  -- No address of the record has the reverse name.
  abbrev pub IsNotOf : C.Name → ZtRecord C → Type 0
  IsNotOf name r = All (λ ip. C.ip_into_name ip ≢ some name) r.ips

  -- If `configure_members` succeeds, the record of a member is made with the IPv6 networks of the
  -- network, an address has a reverse name that no address of the record of a later member has, a
  -- reverse zone is well formed, and either the address is one of the record's and the zone's
  -- network has one of those assigned to the member, or it is the member's RFC 4193 address and
  -- the network is that of these addresses, then afterwards the reverse zone is there and has a
  -- PTR record of that name for the name that the record points to, whatever it had before.
  pub configure_members-points :
      (zt : ZtAuthority C) (network : Network) (n : C.IpNetwork) (a : RecordAuthority C)
      (earlier later : List Member) (m : Member) (sixplane rfc4193 : Option C.IpNetwork)
      (r : ZtRecord C) (rs : List (ZtRecord C)) (ip : IpAddr) (name : C.Name)
      → Dict.lookup C.net_eq n zt.reverse_authority_map ≡ some a
      → IsWellFormed C a.authority
      → (configure_members C network (earlier ++ m ∷ later) zt).0 ≡ ok tt
      → ipv6_networks C network ≡ ok (sixplane, rfc4193)
      → new_record C m sixplane rfc4193 (C.of_lower zt.forward_authority.domain_name) zt.wildcard
        ≡ ok r
      → records_of C zt sixplane rfc4193 later ≡ ok rs
      → IsEntered C n r ip m rfc4193
      → C.ip_into_name ip ≡ some name
      → All (IsNotOf name) rs
      → (b : RecordAuthority C) × (Dict.lookup C.net_eq n
            (configure_members C network (earlier ++ m ∷ later) zt).1.reverse_authority_map
          ≡ some b)
        × (is_stored C (key_of C name RecordType.ptr) b.authority (RData.ptr r.ptr_name) ≡ true)
  unfolding for_each
  configure_members-points zt network n a earlier later m sixplane rfc4193 r rs ip name found good
        done nets made others entered named apart =
      let Before = IsGood C N L name r.ptr_name in
      let After = IsShown C N L name r.ptr_name in
      let body = configure_member C zt sixplane rfc4193 in
      let (s, start, loop_ok, _, result) =
        configure_members-HasParts_of C n Before zt network (earlier ++ m ∷ later) a
          (sixplane, rfc4193) done nets (λ l w _ q. q) found good in
      let (split, later_ok) = for_each-append body earlier (m ∷ later) s loop_ok in
      let t = (for_each body earlier s).1 in
      let reached : HasReverse C n Before t =
        for_each-keeps (HasReverse C n Before) body
          (λ k u.
            configure_member-HasReverse C Before n zt sixplane rfc4193 k u
              (λ q _. Good-PtrKept C N L n r ip name named q))
          earlier s start in
      let (here_ok, here, _) = continue-ok (body m t) (λ _. for_each body later) later_ok in
      let shown =
        configure_member_enters C N L n r ip name named zt sixplane rfc4193 m t made entered reached
          here_ok in
      let kept : All (PtrKept C After) rs =
        All-map
          (λ q.
            All-map
              (λ i differ w. write_ptr-IsShown_other C N L name r.ptr_name _ q.ptr_name w differ)
              q.ips)
          rs apart in
      let end =
        configure_each-HasReverse C After n zt sixplane rfc4193 later rs (body m t).1 others kept
          shown in
      let (b, _, there, _, (_, _, stored)) =
        prune_all-HasReverse C After n (for_each body later (body m t).1).1
          (prune-IsShown C N L name r.ptr_name) end in
      let whole = result ∙ ap (λ p. (prune_all C p.1).1.reverse) (split ∙ here) in
      (b, ap (Dict.lookup C.net_eq n) whole ∙ there, stored)
