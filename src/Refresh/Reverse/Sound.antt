-- ===== src/Refresh/Reverse/Sound.antt =====
-- What a reverse zone holds after a successful `configure_members` of src/authority.rs.
use zeronsd.Base.{
  ◌≡◌, refl, ◌∙◌, ap, sym, true, Option, some, none, List, [], ◌∷◌, ◌++◌, any-append, All, All-map,
  ok, arith, Bool-cases, ◌⊎◌, inl, inr, Option-cases,
}
use mathlib.Core.Path.{subst}
use zeronsd.Base.Dict
use zeronsd.Base.Exec.{continue-ok, for_each, for_each-establishes}
use zeronsd.Net.{IpAddr}
use zeronsd.Dns.{RecordType, RrKey, type_same_iff}
use zeronsd.Central.{Member, Network}
use zeronsd.Crates.{Crates}
use zeronsd.Crates.Laws.{IsNamesLawful, IsZoneLawful, lookup_key}
use zeronsd.Hostname.{to_ptr_soa_name}
use zeronsd.Authority.{RecordAuthority, contains_name, prune_records}
use zeronsd.Authority.Prune.{prune_records_lem}
use zeronsd.Authority.WellFormed.{
  IsWellFormed, configure_ptr-IsWellFormed, prune_records-IsWellFormed,
}
use zeronsd.Members.{ZtRecord, Writing, write_ptr}
use zeronsd.Members.Pointers.{write_ptr-eq-ok}
use zeronsd.Refresh.{ZtAuthority, Refresh, on_reverse}
use zeronsd.Refresh.Configure.{
  prune_forward, prune_reverse, prune_all, configure_member, configure_members,
}
use zeronsd.Refresh.Networks.{ipv6_networks}
use zeronsd.Refresh.Forward.{records_of, configure_each_lem}
use zeronsd.Refresh.Result.{surviving_named}
use zeronsd.Refresh.Reverse.{HasReverse, on_reverse_own, on_reverse-HasReverse, is_key_of_lookup}
use zeronsd.Refresh.Reverse.Kept.{PtrKept, configure_each-HasReverse}
use zeronsd.Refresh.Reverse.Whole.{configure_members-HasParts, configure_members-HasParts_of}

module _ (C : Crates) where
  -- The reverse names of addresses, those without a name left out.
  abbrev pub reverse_names : List IpAddr → List C.LowerName
  reverse_names [] = []
  reverse_names (ip ∷ ips) =
      let rest = reverse_names ips in
      elim (C.ip_into_name ip) [ none ↦ rest | some name ↦ C.lower name ∷ rest ]

  -- Of the addresses of all records.
  abbrev pub member_ptrs : List (ZtRecord C) → List C.LowerName
  member_ptrs [] = []
  member_ptrs (r ∷ rs) = reverse_names r.ips ++ member_ptrs rs

  names_allowed :
      (P : C.LowerName → Type 0) (ips : List IpAddr)
      → ((l : C.LowerName) → contains_name C (reverse_names ips) l ≡ true → P l)
      → All (λ ip. (name : C.Name) → C.ip_into_name ip ≡ some name → P (C.lower name)) ips
  names_allowed P [] h = tt
  names_allowed P (ip ∷ ips) h = (
    λ name e.
        h (C.lower name)
          (ground (arith, e, (C.lower_eq.same_iff (C.lower name) (C.lower name)).1 refl)),
    names_allowed P ips (λ l c. h l (ground (arith, c))),
  )

  -- The name of the zone, the one that the zone of the network should have, or the reverse name of
  -- an address of a record.
  abbrev pub IsReverseName : C.IpNetwork → C.LowerName → List (ZtRecord C) → C.LowerName → Type 0
  IsReverseName n domain rs l =
      (contains_name C (domain ∷ member_ptrs rs) l ≡ true) ⊎ (to_ptr_soa_name C n ≡ ok l)

module _ (C : Crates) (N : IsNamesLawful C) (L : IsZoneLawful C) (P : C.LowerName → Type 0) where
  -- The zone is well formed, and `P` holds of all written names.
  abbrev IsAllowed : Writing C → Type 0
  IsAllowed w =
      IsWellFormed C w.zone × ((l : C.LowerName) → contains_name C w.written l ≡ true → P l)

  -- `P` also holds of the names of all sets, but those of type SOA.
  abbrev IsPruned : Writing C → Type 0
  IsPruned w =
      IsAllowed w
      × ((k : RrKey C.LowerName) (set : C.RecordSet)
          → lookup_key C k w.zone ≡ some set
          → P k.name ⊎ (k.record_type ≡ RecordType.soa))

  push_allowed :
      (names : List C.LowerName) (m : C.LowerName)
      → P m
      → ((l : C.LowerName) → contains_name C names l ≡ true → P l)
      → (l : C.LowerName) → contains_name C (names ++ m ∷ []) l ≡ true
      → P l
  push_allowed names m pm h l c = elim (Bool-cases (contains_name C names l)) [
    | inl old ↦ h l old
    | inr new ↦
        let same : C.lower_eq.same m l ≡ true =
          ground (arith, c, new, any-append (λ k. C.lower_eq.same k l) names (m ∷ [])) in
        subst P ((C.lower_eq.same_iff m l).0 same) pm
  ]

  write_ptr-IsAllowed :
      (ip : IpAddr) (host : C.Name) (w : Writing C)
      → ((name : C.Name) → C.ip_into_name ip ≡ some name → P (C.lower name))
      → IsAllowed w
      → IsAllowed (write_ptr C (C.ip_into_name ip) host w).1
  write_ptr-IsAllowed ip host w named (good, h) = elim (Option-cases (C.ip_into_name ip)) [
    | inl unnamed ↦ rw unnamed (unfold write_ptr in (good, h))
    | inr (name, e) ↦
        rw (e, write_ptr-eq-ok C N L host name w)
          (
            configure_ptr-IsWellFormed C L N name host w.zone good,
            push_allowed w.written (C.lower name) (named name e) h,
          )
  ]

  prune-IsPruned :
      (w : Writing C)
      → IsAllowed w
      → IsPruned (record w { zone = (prune_records C w.written w.zone).1 })
  prune-IsPruned w (good, h) = (
    (prune_records-IsWellFormed C L N w.written w.zone good, h),
    λ k set e.
        let left = sym (prune_records_lem C N w.written w.zone k good.nodup).1 ∙ e in
        let either =
          surviving_named C N L w.written k (lookup_key C k w.zone) set (good.typed k) left in
        elim (Bool-cases (contains_name C w.written k.name)) [
          | inl named ↦ inl (h k.name named)
          | inr unnamed ↦
              inr ((type_same_iff k.record_type RecordType.soa).0 (rw unnamed at either))
        ],
  )

  -- After the pruning.
  prune_all-IsPruned :
      (n : C.IpNetwork) (s : Refresh C)
      → (prune_all C s).0 ≡ ok tt
      → HasReverse C n IsAllowed s
      → HasReverse C n IsPruned (prune_all C s).1
  unfolding prune_all prune_forward prune_reverse
  prune_all-IsPruned n s done h =
      let (_, here, done') =
        continue-ok (prune_forward C s) (λ _ t. for_each (prune_reverse C) t.reverse t) done in
      let t = (prune_forward C s).1 in
      let (a, _, found, _, _) = h in
      subst (λ p. HasReverse C n IsPruned p.1) (sym here)
        (for_each-establishes (HasReverse C n IsAllowed) (HasReverse C n IsPruned)
          (λ e. C.net_eq.same e.0 n) (prune_reverse C)
          (λ (network, _) u.
            on_reverse-HasReverse C n network _ IsAllowed u (λ w q. (prune-IsPruned w q).0))
          (λ (network, _) u.
            on_reverse-HasReverse C n network _ IsPruned u (λ w q. prune-IsPruned w q.0))
          (λ (network, _) u same k _.
            subst
              (λ j.
                HasReverse C n IsPruned
                  (on_reverse C j
                    (λ w.
                      let (r, z) = prune_records C w.written w.zone in (r, record w { zone = z }))
                    u).1)
              (sym ((C.net_eq.same_iff network n).0 same))
              (on_reverse_own C n _ IsAllowed IsPruned u (λ w q _. prune-IsPruned w q) k))
          t.reverse t (is_key_of_lookup C n t.reverse a found) h done')

  -- Entering the PTR records of a record whose reverse names satisfy `P`.
  records-IsAllowed :
      (rs : List (ZtRecord C))
      → ((l : C.LowerName) → contains_name C (member_ptrs C rs) l ≡ true → P l)
      → All (PtrKept C IsAllowed) rs
  records-IsAllowed [] h = tt
  records-IsAllowed (r ∷ rs) h =
      let parts = λ (l : C.LowerName).
        any-append (λ k. C.lower_eq.same k l) (reverse_names C r.ips) (member_ptrs C rs) in
      (
        All-map (λ ip named w. write_ptr-IsAllowed ip r.ptr_name w named) r.ips
            (names_allowed C P r.ips (λ l c. h l (ground (arith, c, parts l)))),
        records-IsAllowed rs (λ l c. h l (ground (arith, c, parts l))),
      )

module _ (C : Crates) (N : IsNamesLawful C) (L : IsZoneLawful C) where
  -- On a well-formed reverse zone, after a `configure_members` that succeeds the IPv6 networks of
  -- the network were computed and the records of all members were made with these, and every set
  -- that the reverse zone then has is of type SOA, or of the name that the zone has or should
  -- have, or of the reverse name of an address of one of these records.
  pub configure_members-IsReverseName :
      (zt : ZtAuthority C) (network : Network) (members : List Member) (n : C.IpNetwork)
      (a b : RecordAuthority C) (k : RrKey C.LowerName) (set : C.RecordSet)
      → Dict.lookup C.net_eq n zt.reverse_authority_map ≡ some a
      → IsWellFormed C a.authority
      → (configure_members C network members zt).0 ≡ ok tt
      → Dict.lookup C.net_eq n (configure_members C network members zt).1.reverse_authority_map
        ≡ some b
      → lookup_key C k b.authority ≡ some set
      → (sixplane rfc4193 : Option C.IpNetwork) × (rs : List (ZtRecord C)) × (ipv6_networks C
            network
          ≡ ok (sixplane, rfc4193))
        × (records_of C zt sixplane rfc4193 members ≡ ok rs)
        × (IsReverseName C n a.domain_name rs k.name ⊎ (k.record_type ≡ RecordType.soa))
  configure_members-IsReverseName zt network members n a b k set found good done end held =
      let (nets, is_nets, (s0, _, each_ok, _, _)) =
        configure_members-HasParts C n (λ w. IsWellFormed C w.zone) zt network members a done
          (λ l w _ q. q) found good in
      let (rs, made, _) = configure_each_lem C zt nets.0 nets.1 members s0 each_ok in
      let P = IsReverseName C n a.domain_name rs in
      let Allowed = IsAllowed C N L P in
      let (s, start, _, prune_ok, result) =
        configure_members-HasParts_of C n Allowed zt network members a nets done is_nets
          (λ l w e (q, h). (q, push_allowed C N L P w.written l (inr e) h)) found
          (good, λ l c. inl (ground (arith, c))) in
      let entered =
        configure_each-HasReverse C Allowed n zt nets.0 nets.1 members rs s made
          (records-IsAllowed C N L P rs (λ l c. inl (ground (arith, c)))) start in
      let (b', _, there, _, (_, all)) =
        prune_all-IsPruned C N L P n (for_each (configure_member C zt nets.0 nets.1) members s).1
          prune_ok entered in
      let same : b ≡ b' = cc (end, ap (Dict.lookup C.net_eq n) result, there) in
      (nets.0, nets.1, rs, is_nets, made, all k set (rw same at held))
