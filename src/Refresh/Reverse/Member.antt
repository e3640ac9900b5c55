-- ===== src/Refresh/Reverse/Member.antt =====
-- The round of the loop of `configure_members` of src/authority.rs for one member shows its PTR
-- records.
use zeronsd.Base.{◌≡◌, ◌∙◌, sym, true, Option, some, List, any, ok}
use mathlib.Core.Path.{subst}
use zeronsd.Base.Exec.{continue, continue-ok, for_each, for_each-keeps, for_each-establishes}
use zeronsd.Net.{IpAddr, ip_same, ip_same_iff}
use zeronsd.Central.{Member}
use zeronsd.Crates.{Crates}
use zeronsd.Crates.Laws.{IsNamesLawful, IsZoneLawful}
use zeronsd.Members.{ZtRecord, Writing, new_record, insert_member, insert_member_ptr, write_ptr}
use zeronsd.Refresh.{ZtAuthority, Refresh, on_forward}
use zeronsd.Refresh.Tracks.{All-of}
use zeronsd.Refresh.Configure.{
  config_ips, reverse_ip, reverse_network, reverse_member, rfc4193_member, configure_member,
}
use zeronsd.Refresh.Reverse.{HasReverse, on_reverse_own, is_key_of_lookup}
use zeronsd.Refresh.Reverse.Kept.{
  PtrKept, reverse_ip-HasReverse, rfc4193_member-HasReverse, new_record-Rfc4193Kept,
}
use zeronsd.Refresh.Reverse.Shown.{
  IsGood, IsShown, write_ptr-IsGood, write_ptr_shows, write_ptr-IsShown_same,
}

module _ (C : Crates) (N : IsNamesLawful C) (L : IsZoneLawful C) (n : C.IpNetwork) (r : ZtRecord C)
    (ip : IpAddr) (name : C.Name) (e : C.ip_into_name ip ≡ some name) where
  abbrev pub Good : Writing C → Type 0
  Good = IsGood C N L name r.ptr_name

  abbrev pub Shown : Writing C → Type 0
  Shown = IsShown C N L name r.ptr_name

  pub Good-PtrKept : (s : ZtRecord C) → PtrKept C Good s
  Good-PtrKept s =
      All-of s.ips (λ i. write_ptr-IsGood C N L name r.ptr_name (C.ip_into_name i) s.ptr_name)

  Shown-PtrKept : PtrKept C Shown r
  Shown-PtrKept =
      All-of r.ips (λ i. write_ptr-IsShown_same C N L name r.ptr_name (C.ip_into_name i))

  insert_member_ptr_shows :
      (w : Writing C)
      → any (λ i. ip_same i ip) r.ips ≡ true
      → Good w
      → (insert_member_ptr C r w).0 ≡ ok tt
      → Shown (insert_member_ptr C r w).1
  unfolding insert_member_ptr
  insert_member_ptr_shows w has good done =
      for_each-establishes Good Shown (λ i. ip_same i ip)
        (λ i. write_ptr C (C.ip_into_name i) r.ptr_name)
        (λ i. write_ptr-IsGood C N L name r.ptr_name (C.ip_into_name i) r.ptr_name)
        (λ i. write_ptr-IsShown_same C N L name r.ptr_name (C.ip_into_name i))
        (λ i w same good _.
          let p : i ≡ ip = (ip_same_iff i ip).0 same in
          rw (p, e) (write_ptr_shows C N L name r.ptr_name w good))
        r.ips w has good done

  reverse_ip_shows :
      (i : IpAddr) (s : Refresh C)
      → any (λ i. ip_same i ip) r.ips ≡ true
      → C.network_contains n i ≡ true
      → HasReverse C n Good s
      → (reverse_ip C r n i s).0 ≡ ok tt
      → HasReverse C n Shown (reverse_ip C r n i s).1
  unfolding reverse_ip
  reverse_ip_shows i s has inside h done =
      rw (reverse_ip, inside)
        (on_reverse_own C n (insert_member_ptr C r) Good Shown s
          (λ w good same.
            insert_member_ptr_shows w has good (same ∙ (rw (reverse_ip, inside) at done)))
          h)

  reverse_network_shows :
      (ips : List IpAddr) (s : Refresh C)
      → any (λ i. ip_same i ip) r.ips ≡ true
      → any (λ i. C.network_contains n i) ips ≡ true
      → HasReverse C n Good s
      → (for_each (reverse_ip C r n) ips s).0 ≡ ok tt
      → HasReverse C n Shown (for_each (reverse_ip C r n) ips s).1
  reverse_network_shows ips s has inside h done =
      for_each-establishes (HasReverse C n Good) (HasReverse C n Shown)
        (λ i. C.network_contains n i) (reverse_ip C r n)
        (λ i t k. reverse_ip-HasReverse C Good n n r i t (Good-PtrKept r) k)
        (λ i t k. reverse_ip-HasReverse C Shown n n r i t Shown-PtrKept k)
        (λ i t here k ran. reverse_ip_shows i t has here k ran) ips s inside h done

  reverse_member_shows :
      (ips : List IpAddr) (s : Refresh C)
      → any (λ i. ip_same i ip) r.ips ≡ true
      → any (λ i. C.network_contains n i) ips ≡ true
      → HasReverse C n Good s
      → (reverse_member C r ips s).0 ≡ ok tt
      → HasReverse C n Shown (reverse_member C r ips s).1
  unfolding reverse_member reverse_network
  reverse_member_shows ips s has inside (a, written, found, there, good) done =
      for_each-establishes (HasReverse C n Good) (HasReverse C n Shown) (λ t. C.net_eq.same t.0 n)
        (reverse_network C r ips)
        (λ (network, _) t.
          for_each-keeps (HasReverse C n Good) (reverse_ip C r network)
            (λ i t' k. reverse_ip-HasReverse C Good n network r i t' (Good-PtrKept r) k) ips t)
        (λ (network, _) t.
          for_each-keeps (HasReverse C n Shown) (reverse_ip C r network)
            (λ i t' k. reverse_ip-HasReverse C Shown n network r i t' Shown-PtrKept k) ips t)
        (λ (network, _) t same k ran.
          let p : network ≡ n = (C.net_eq.same_iff network n).0 same in
          subst
            (λ j.
              (for_each (reverse_ip C r j) ips t).0 ≡ ok tt
              → HasReverse C n Shown (for_each (reverse_ip C r j) ips t).1)
            (sym p) (reverse_network_shows ips t has inside k) ran)
        s.reverse s (is_key_of_lookup C n s.reverse a found) (a, written, found, there, good) done

  -- The round of the loop over the members for the member of the record.
  pub configure_member_shows :
      (zt : ZtAuthority C) (sixplane rfc4193 : Option C.IpNetwork) (m : Member) (s : Refresh C)
      → new_record C m sixplane rfc4193 (C.of_lower zt.forward_authority.domain_name) zt.wildcard
        ≡ ok r
      → any (λ i. ip_same i ip) r.ips ≡ true
      → any (λ i. C.network_contains n i) (config_ips C m.config) ≡ true
      → HasReverse C n Good s
      → (configure_member C zt sixplane rfc4193 m s).0 ≡ ok tt
      → HasReverse C n Shown (configure_member C zt sixplane rfc4193 m s).1
  unfolding configure_member on_forward
  configure_member_shows zt sixplane rfc4193 m s made has inside h done =
      let ptrs = λ (_ : Unit {0}) (t : Refresh C).
        continue (reverse_member C r (config_ips C m.config) t)
          (λ _. rfc4193_member C m r rfc4193) in
      let entered = on_forward C (insert_member C r) s in
      let (_, here, rest) = continue-ok entered ptrs (rw (configure_member, made) at done) in
      let reversed = reverse_member C r (config_ips C m.config) entered.1 in
      let (reversed_ok, there, _) = continue-ok reversed (λ _. rfc4193_member C m r rfc4193) rest in
      let last : HasReverse C n Shown (rfc4193_member C m r rfc4193 reversed.1).1 =
        rfc4193_member-HasReverse C Shown n m r rfc4193 reversed.1
          (new_record-Rfc4193Kept C Shown m sixplane rfc4193
            (C.of_lower zt.forward_authority.domain_name) zt.wildcard r made Shown-PtrKept)
          (reverse_member_shows (config_ips C m.config) entered.1 has inside h reversed_ok) in
      rw (configure_member, made) (subst (λ p. HasReverse C n Shown p.1) (sym (here ∙ there)) last)
