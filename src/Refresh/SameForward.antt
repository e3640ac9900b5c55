-- ===== src/Refresh/SameForward.antt =====
-- What `configure_members` of src/authority.rs does outside the forward zone leaves it as it is.
use zeronsd.Base.{◌≡◌, Option, some, none, List, ok, Bool-cases, Option-cases, inl, inr}
use zeronsd.Base.Dict
use zeronsd.Base.Exec.{Exec, for_each-keeps, lift-keeps, continue-keeps}
use zeronsd.Net.{IpAddr}
use zeronsd.Central.{Member, Network, V6AssignMode}
use zeronsd.Crates.{Crates}
use zeronsd.Addresses.{member_rfc4193, network_rfc4193}
use zeronsd.Hostname.{to_ptr_soa_name}
use zeronsd.Members.{ZtRecord, Writing, insert_member_ptr, write_ptr}
use zeronsd.Refresh.{
  Refresh, on_reverse, assigned_networks, rfc4193_network, sixplane_network, is_on,
}
use zeronsd.Refresh.Configure.{reverse_ip, reverse_network, reverse_member, rfc4193_member}

module _ (C : Crates) where
  -- The forward zone and the names that are written to it.
  abbrev pub forward_of : Refresh C → Writing C
  forward_of s = record { zone = s.forward; written = s.forward_records }

  abbrev pub SameForward : Writing C → Refresh C → Type 0
  SameForward w s = forward_of s ≡ w

  pub on_reverse-SameForward :
      (network : C.IpNetwork) (op : Exec (Writing C) (Unit {0})) (w : Writing C) (s : Refresh C)
      → SameForward w s
      → SameForward w (on_reverse C network op s).1
  unfolding on_reverse
  on_reverse-SameForward network op w s h =
      elim (Option-cases (Dict.lookup C.net_eq network s.reverse)) [
        | inl absent ↦ rw (on_reverse, absent) h
        | inr (authority, found) ↦
            elim (Option-cases (Dict.lookup C.net_eq network s.reverse_records)) [
              | inl missing ↦ rw (on_reverse, found, missing) h
              | inr (written, there) ↦ rw (on_reverse, found, there) h
            ]
      ]

  pub reverse_member-SameForward :
      (r : ZtRecord C) (ips : List IpAddr) (w : Writing C) (s : Refresh C)
      → SameForward w s
      → SameForward w (reverse_member C r ips s).1
  unfolding reverse_member reverse_network reverse_ip
  reverse_member-SameForward r ips w s h =
      for_each-keeps (SameForward w) (reverse_network C r ips)
        (λ (network, authority) t.
          for_each-keeps (SameForward w) (reverse_ip C r network)
            (λ ip t' k. elim (Bool-cases (C.network_contains network ip)) [
              | inl inside ↦
                  rw (reverse_ip, inside)
                    (on_reverse-SameForward network (insert_member_ptr C r) w t' k)
              | inr outside ↦ rw (reverse_ip, outside) k
            ])
            ips t)
        s.reverse s h

  pub rfc4193_member-SameForward :
      (m : Member) (r : ZtRecord C) (o : Option C.IpNetwork) (w : Writing C) (s : Refresh C)
      → SameForward w s
      → SameForward w (rfc4193_member C m r o s).1
  unfolding rfc4193_member
  rfc4193_member-SameForward m r none w s h = h
  rfc4193_member-SameForward m r (some ptr) w s h =
      elim (Option-cases (Dict.lookup C.net_eq ptr s.reverse)) [
        | inl absent ↦ rw (rfc4193_member, absent) h
        | inr (authority, found) ↦
            elim (Option-cases (Dict.lookup C.net_eq ptr s.reverse_records)) [
              | inl missing ↦ rw (rfc4193_member, found, missing) h
              | inr (written, there) ↦
                  rw (rfc4193_member, found, there)
                    (lift-keeps (SameForward w) (member_rfc4193 C m) s _ h (λ address.
                      on_reverse-SameForward ptr
                        (write_ptr C (C.ip_into_name (C.network_ip address)) r.ptr_name) w s h))
            ]
      ]

  pub rfc4193_network-SameForward :
      (network : Network) (mode : V6AssignMode) (w : Writing C) (s : Refresh C)
      → SameForward w s
      → SameForward w (rfc4193_network C network mode s).1
  unfolding rfc4193_network
  rfc4193_network-SameForward network mode w s h = elim (Bool-cases (is_on mode.rfc4193)) [
    | inr off ↦ rw (rfc4193_network, off) h
    | inl on ↦
        rw (rfc4193_network, on)
          (lift-keeps (SameForward w) (network_rfc4193 C network) s _ h (λ net.
            elim (Option-cases (Dict.lookup C.net_eq net s.reverse_records)) [
              | inl missing ↦ rw missing h
              | inr (written, there) ↦
                  rw there (lift-keeps (SameForward w) (to_ptr_soa_name C net) s _ h (λ name. h))
            ]))
  ]

  pub assigned_networks-SameForward :
      (network : Network) (o : Option V6AssignMode) (w : Writing C) (s : Refresh C)
      → SameForward w s
      → SameForward w (assigned_networks C network o s).1
  unfolding assigned_networks
  assigned_networks-SameForward network none w s h = h
  assigned_networks-SameForward network (some mode) w s h =
      lift-keeps (SameForward w) (sixplane_network C network mode) s _ h (λ sixplane.
        continue-keeps (SameForward w) (rfc4193_network C network mode s)
          (λ rfc4193 t. (ok (sixplane, rfc4193), t))
          (rfc4193_network-SameForward network mode w s h) (λ rfc4193 t k. k))
