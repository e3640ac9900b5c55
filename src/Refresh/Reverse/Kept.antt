-- ===== src/Refresh/Reverse/Kept.antt =====
-- What the operations with a member's record keep of a reverse zone, in the loops of
-- `configure_members` of src/authority.rs.
use zeronsd.Base.{
  ◌≡◌, sym, Bool, Option, some, none, List, [], ◌∷◌, All, All-map, ok, >>=-eq-ok, Bool-cases,
  Option-cases, inl, inr,
}
use mathlib.Core.Path.{subst}
use zeronsd.Base.Dict
use zeronsd.Base.Exec.{
  continue, lift-keeps_value, continue-keeps, for_each, for_each-keeps, for_each-keeps_each,
}
use zeronsd.Net.{IpAddr}
use zeronsd.Central.{Member}
use zeronsd.Crates.{Crates}
use zeronsd.Addresses.{member_rfc4193}
use zeronsd.Authority.{prune_records}
use zeronsd.Members.{ZtRecord, Writing, new_record, insert_member, write_ptr, insert_member_ptr}
use zeronsd.Members.Ips.{rfc4193_ip}
use zeronsd.Refresh.{ZtAuthority, Refresh, on_forward}
use zeronsd.Refresh.Configure.{
  config_ips, reverse_ip, reverse_network, reverse_member, rfc4193_member, configure_member,
  prune_forward, prune_reverse, prune_all,
}
use zeronsd.Refresh.Forward.{records_of}
use zeronsd.Refresh.Reverse.{HasReverse, on_reverse-HasReverse}

module _ (C : Crates) (Q : Writing C → Type 0) where
  -- Entering the PTR records of a record keeps `Q`.
  abbrev pub PtrKept : ZtRecord C → Type 0
  PtrKept r =
      All (λ ip. (w : Writing C) → Q w → Q (write_ptr C (C.ip_into_name ip) r.ptr_name w).1) r.ips

  insert_member_ptr-kept :
      (r : ZtRecord C) (w : Writing C) → PtrKept r → Q w → Q (insert_member_ptr C r w).1
  unfolding insert_member_ptr
  insert_member_ptr-kept r w kept q =
      for_each-keeps_each Q (λ ip. write_ptr C (C.ip_into_name ip) r.ptr_name) r.ips kept w q

  pub reverse_ip-HasReverse :
      (n network : C.IpNetwork) (r : ZtRecord C) (ip : IpAddr) (s : Refresh C)
      → PtrKept r
      → HasReverse C n Q s
      → HasReverse C n Q (reverse_ip C r network ip s).1
  unfolding reverse_ip
  reverse_ip-HasReverse n network r ip s kept h =
      elim (Bool-cases (C.network_contains network ip)) [
        | inl inside ↦
            rw (reverse_ip, inside)
              (on_reverse-HasReverse C n network (insert_member_ptr C r) Q s
                (λ w q. insert_member_ptr-kept r w kept q) h)
        | inr outside ↦ rw (reverse_ip, outside) h
      ]

  pub reverse_member-HasReverse :
      (n : C.IpNetwork) (r : ZtRecord C) (ips : List IpAddr) (s : Refresh C)
      → PtrKept r
      → HasReverse C n Q s
      → HasReverse C n Q (reverse_member C r ips s).1
  unfolding reverse_member reverse_network
  reverse_member-HasReverse n r ips s kept h =
      for_each-keeps (HasReverse C n Q) (reverse_network C r ips)
        (λ (network, _) t.
          for_each-keeps (HasReverse C n Q) (reverse_ip C r network)
            (λ ip t' k. reverse_ip-HasReverse n network r ip t' kept k) ips t)
        s.reverse s h

  -- Entering the PTR record of the address that a member gets by RFC 4193 keeps `Q`.
  abbrev Rfc4193Kept : Member → ZtRecord C → Option C.IpNetwork → Type 0
  Rfc4193Kept m r none = Unit
  Rfc4193Kept m r (some ptr) =
      (address : C.IpNetwork)
      → member_rfc4193 C m ≡ ok address
      → (w : Writing C) → Q w
      → Q (write_ptr C (C.ip_into_name (C.network_ip address)) r.ptr_name w).1

  -- It is one of the addresses of the record.
  pub new_record-Rfc4193Kept :
      (m : Member) (sixplane o : Option C.IpNetwork) (domain_name : C.Name) (wildcard : Bool)
      (r : ZtRecord C)
      → new_record C m sixplane o domain_name wildcard ≡ ok r
      → PtrKept r
      → Rfc4193Kept m r o
  new_record-Rfc4193Kept m sixplane none domain_name wildcard r made kept = tt
  new_record-Rfc4193Kept m sixplane (some ptr) domain_name wildcard r made kept = λ address e.
      rfc4193_ip C
        (λ ip. (w : Writing C) → Q w → Q (write_ptr C (C.ip_into_name ip) r.ptr_name w).1) m
        sixplane domain_name wildcard r ptr address made kept e

  pub rfc4193_member-HasReverse :
      (n : C.IpNetwork) (m : Member) (r : ZtRecord C) (o : Option C.IpNetwork) (s : Refresh C)
      → Rfc4193Kept m r o
      → HasReverse C n Q s
      → HasReverse C n Q (rfc4193_member C m r o s).1
  unfolding rfc4193_member
  rfc4193_member-HasReverse n m r none s kept h = h
  rfc4193_member-HasReverse n m r (some ptr) s kept h =
      elim (Option-cases (Dict.lookup C.net_eq ptr s.reverse)) [
        | inl absent ↦ rw (rfc4193_member, absent) h
        | inr (authority, found) ↦
            elim (Option-cases (Dict.lookup C.net_eq ptr s.reverse_records)) [
              | inl missing ↦ rw (rfc4193_member, found, missing) h
              | inr (written, there) ↦
                  rw (rfc4193_member, found, there)
                    (lift-keeps_value (HasReverse C n Q) (member_rfc4193 C m) s _ h (λ address e.
                      on_reverse-HasReverse C n ptr
                        (write_ptr C (C.ip_into_name (C.network_ip address)) r.ptr_name) Q s
                        (kept address e) h))
            ]
      ]

  pub configure_member-HasReverse :
      (n : C.IpNetwork) (zt : ZtAuthority C) (sixplane rfc4193 : Option C.IpNetwork) (m : Member)
      (s : Refresh C)
      → ((r : ZtRecord C)
          → new_record C m sixplane rfc4193
              (C.of_lower zt.forward_authority.domain_name)
              zt.wildcard
            ≡ ok r
          → PtrKept r)
      → HasReverse C n Q s
      → HasReverse C n Q (configure_member C zt sixplane rfc4193 m s).1
  unfolding configure_member on_forward
  configure_member-HasReverse n zt sixplane rfc4193 m s kept h =
      lift-keeps_value (HasReverse C n Q)
        (new_record C m sixplane rfc4193 (C.of_lower zt.forward_authority.domain_name) zt.wildcard)
        s _ h
        (λ r made.
          let k = kept r made in
          continue-keeps (HasReverse C n Q) (on_forward C (insert_member C r) s)
            (λ _ t.
              continue (reverse_member C r (config_ips C m.config) t)
                (λ _. rfc4193_member C m r rfc4193))
            h
            (λ _ t q.
              continue-keeps (HasReverse C n Q) (reverse_member C r (config_ips C m.config) t)
                (λ _. rfc4193_member C m r rfc4193)
                (reverse_member-HasReverse n r (config_ips C m.config) t k q)
                (λ _ t' q'.
                  rfc4193_member-HasReverse n m r rfc4193 t'
                    (new_record-Rfc4193Kept m sixplane rfc4193 _ zt.wildcard r made k) q')))

  records-kept :
      (zt : ZtAuthority C) (sixplane rfc4193 : Option C.IpNetwork) (members : List Member)
      (rs : List (ZtRecord C))
      → records_of C zt sixplane rfc4193 members ≡ ok rs
      → All PtrKept rs
      → All
          (λ m.
            (r : ZtRecord C)
            → new_record C m sixplane rfc4193
                (C.of_lower zt.forward_authority.domain_name)
                zt.wildcard
              ≡ ok r
            → PtrKept r)
          members
  records-kept zt sixplane rfc4193 [] rs made kept = tt
  records-kept zt sixplane rfc4193 (m ∷ members) rs made kept =
      let (r, first, more) = >>=-eq-ok (new_record C m sixplane rfc4193 _ zt.wildcard) _ made in
      let (rest, others, last) = >>=-eq-ok (records_of C zt sixplane rfc4193 members) _ more in
      let same : r ∷ rest ≡ rs = cc last in
      let both : All PtrKept (r ∷ rest) = subst (All PtrKept) (sym same) kept in
      (
        λ q e. let p : r ≡ q = cc (first, e) in subst PtrKept p both.0,
        records-kept zt sixplane rfc4193 members rest others both.1,
      )

  -- The loop over members, of whose records all keep `Q`.
  pub configure_each-HasReverse :
      (n : C.IpNetwork) (zt : ZtAuthority C) (sixplane rfc4193 : Option C.IpNetwork)
      (members : List Member) (rs : List (ZtRecord C)) (s : Refresh C)
      → records_of C zt sixplane rfc4193 members ≡ ok rs
      → All PtrKept rs
      → HasReverse C n Q s
      → HasReverse C n Q (for_each (configure_member C zt sixplane rfc4193) members s).1
  configure_each-HasReverse n zt sixplane rfc4193 members rs s made kept h =
      for_each-keeps_each (HasReverse C n Q) (configure_member C zt sixplane rfc4193) members
        (All-map (λ m k t. configure_member-HasReverse n zt sixplane rfc4193 m t k) members
          (records-kept zt sixplane rfc4193 members rs made kept))
        s h

  -- The pruning of all zones.
  pub prune_all-HasReverse :
      (n : C.IpNetwork) (s : Refresh C)
      → ((w : Writing C) → Q w → Q (record w { zone = (prune_records C w.written w.zone).1 }))
      → HasReverse C n Q s
      → HasReverse C n Q (prune_all C s).1
  unfolding prune_all prune_forward prune_reverse
  prune_all-HasReverse n s kept h =
      continue-keeps (HasReverse C n Q) (prune_forward C s)
        (λ _ t. for_each (prune_reverse C) t.reverse t) h
        (λ _ t k.
          for_each-keeps (HasReverse C n Q) (prune_reverse C)
            (λ (network, _) t' k'. on_reverse-HasReverse C n network _ Q t' kept k') t.reverse t k)
