-- ===== src/Refresh/Reverse/Assigned.antt =====
-- The PTR record of the RFC 4193 address of a member, which the loop of `configure_members` of
-- src/authority.rs enters last.
use zeronsd.Base.{◌≡◌, sym, ◌∙◌, true, Option, some, any, ok, ◌⊎◌, inl, inr}
use mathlib.Core.Path.{subst}
use zeronsd.Base.Exec.{continue, continue-ok}
use zeronsd.Net.{IpAddr, ip_same}
use zeronsd.Central.{Member}
use zeronsd.Crates.{Crates}
use zeronsd.Crates.Laws.{IsNamesLawful, IsZoneLawful}
use zeronsd.Addresses.{member_rfc4193}
use zeronsd.Members.{ZtRecord, new_record, insert_member, write_ptr}
use zeronsd.Refresh.{ZtAuthority, Refresh, on_forward}
use zeronsd.Refresh.Configure.{config_ips, reverse_member, rfc4193_member, configure_member}
use zeronsd.Refresh.Reverse.{HasReverse, on_reverse_own}
use zeronsd.Refresh.Reverse.Kept.{reverse_member-HasReverse}
use zeronsd.Refresh.Reverse.Shown.{write_ptr_shows}
use zeronsd.Refresh.Reverse.Member.{Good, Shown, Good-PtrKept, configure_member_shows}

module _ (C : Crates) (n : C.IpNetwork) (r : ZtRecord C) (ip : IpAddr) where
  -- The address is one of the record's, and the network has one of those assigned to the member;
  -- or it is the RFC 4193 address of the member, and the network is that of these addresses.
  abbrev pub IsEntered : Member → Option C.IpNetwork → Type 0
  IsEntered m rfc4193 =
      ((any (λ i. C.network_contains n i) (config_ips C m.config) ≡ true)
        × (any (λ i. ip_same i ip) r.ips ≡ true))
      ⊎ ((rfc4193 ≡ some n)
          × (address : C.IpNetwork) × (member_rfc4193 C m ≡ ok address)
          × (ip ≡ C.network_ip address))

module _ (C : Crates) (N : IsNamesLawful C) (L : IsZoneLawful C) (n : C.IpNetwork) (r : ZtRecord C)
    (ip : IpAddr) (name : C.Name) (e : C.ip_into_name ip ≡ some name) where
  abbrev Before : Refresh C → Type 0
  Before = HasReverse C n (Good C N L n r ip name e)

  abbrev After : Refresh C → Type 0
  After = HasReverse C n (Shown C N L n r ip name e)

  rfc4193_member_shows :
      (m : Member) (address : C.IpNetwork) (s : Refresh C)
      → member_rfc4193 C m ≡ ok address
      → ip ≡ C.network_ip address
      → Before s
      → After (rfc4193_member C m r (some n) s).1
  unfolding rfc4193_member
  rfc4193_member_shows m address s made same (a, written, found, there, good) =
      rw (rfc4193_member, found, there, made, ← same, e)
        (on_reverse_own C n (write_ptr C (some name) r.ptr_name) (Good C N L n r ip name e)
          (Shown C N L n r ip name e) s (λ w q _. write_ptr_shows C N L name r.ptr_name w q)
          (a, written, found, there, good))

  configure_member_assigns :
      (zt : ZtAuthority C) (sixplane : Option C.IpNetwork) (m : Member) (address : C.IpNetwork)
      (s : Refresh C)
      → new_record C m sixplane (some n) (C.of_lower zt.forward_authority.domain_name) zt.wildcard
        ≡ ok r
      → member_rfc4193 C m ≡ ok address
      → ip ≡ C.network_ip address
      → Before s
      → (configure_member C zt sixplane (some n) m s).0 ≡ ok tt
      → After (configure_member C zt sixplane (some n) m s).1
  unfolding configure_member on_forward
  configure_member_assigns zt sixplane m address s made its same h done =
      let ptrs = λ (_ : Unit {0}) (t : Refresh C).
        continue (reverse_member C r (config_ips C m.config) t)
          (λ _. rfc4193_member C m r (some n)) in
      let entered = on_forward C (insert_member C r) s in
      let (_, here, rest) = continue-ok entered ptrs (rw (configure_member, made) at done) in
      let reversed = reverse_member C r (config_ips C m.config) entered.1 in
      let (_, there, _) = continue-ok reversed (λ _. rfc4193_member C m r (some n)) rest in
      let last : After (rfc4193_member C m r (some n) reversed.1).1 =
        rfc4193_member_shows m address reversed.1 its same (
          reverse_member-HasReverse C (Good C N L n r ip name e) n r (config_ips C m.config)
            entered.1 (Good-PtrKept C N L n r ip name e r) h) in
      rw (configure_member, made) (subst (λ p. After p.1) (sym (here ∙ there)) last)

  pub configure_member_enters :
      (zt : ZtAuthority C) (sixplane rfc4193 : Option C.IpNetwork) (m : Member) (s : Refresh C)
      → new_record C m sixplane rfc4193 (C.of_lower zt.forward_authority.domain_name) zt.wildcard
        ≡ ok r
      → IsEntered C n r ip m rfc4193
      → Before s
      → (configure_member C zt sixplane rfc4193 m s).0 ≡ ok tt
      → After (configure_member C zt sixplane rfc4193 m s).1
  configure_member_enters zt sixplane rfc4193 m s made (inl (inside, has)) h done =
      configure_member_shows C N L n r ip name e zt sixplane rfc4193 m s made has inside h done
  configure_member_enters zt sixplane rfc4193 m s made (inr (its, address, computed, same)) h done =
      subst
        (λ o.
          new_record C m sixplane o (C.of_lower zt.forward_authority.domain_name) zt.wildcard ≡ ok r
          → (configure_member C zt sixplane o m s).0 ≡ ok tt
          → After (configure_member C zt sixplane o m s).1)
        (sym its)
        (λ made' done'.
          configure_member_assigns zt sixplane m address s made' computed same h done')
        made done
