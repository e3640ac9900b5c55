-- ===== src/Refresh/Zones.antt =====
-- What every operation of a zone keeps, the loop `find_members` of src/authority.rs keeps for all
-- its zones, whatever Central and the hosts file give and however the rounds end.
pub mod Rounds
use zeronsd.Base.{
  ◌≡◌, refl, ◌∙◌, Bool, true, false, Option, some, none, List, [], ◌∷◌, Text, All, Outcome, ok, err,
  panic, or_panic, Eq, if◌then◌else◌, Bool-cases, Option-cases, inl, inr,
}
use zeronsd.Base.Dict
use zeronsd.Base.Exec
use zeronsd.Base.Exec.{Exec, continue-keeps, lift-keeps, for_each, for_each-keeps}
use zeronsd.Net.{IpAddr}
use zeronsd.Central.{Member, Network, NetworkConfig, V6AssignMode}
use zeronsd.Crates.{Crates, Zone}
use zeronsd.Hostname.{to_ptr_soa_name}
use zeronsd.Addresses.{network_rfc4193, member_rfc4193}
use zeronsd.Hosts.{parse_hosts}
use zeronsd.Authority.{HostsFile, RecordAuthority, match_or_insert, prune_hosts, prune_records}
use zeronsd.Members.{ZtRecord, Writing, new_record, insert_member, insert_member_ptr, write_ptr}
use zeronsd.Members.Kept.{IsKept, insert_member-keeps, write_ptr-keeps, insert_member_ptr-keeps}
use zeronsd.Refresh.{
  ZtAuthority, Refresh, insert_names, insert_hosts, configure_hosts, start_refresh, on_forward,
  on_reverse, refresh_hosts, rfc4193_network, sixplane_network, assigned_networks, is_on,
}
use zeronsd.Refresh.Configure.{
  config_ips, reverse_ip, reverse_network, reverse_member, rfc4193_member, configure_member,
  prune_forward, prune_reverse, prune_all, refresh_each, refresh_assigned, refresh_config,
  refresh_members, configure_members, Round, logged, configure_fetched, find_members_round,
  find_members,
}

-- Every entry of a map that was got by `insert`.
pub All-insert :
    {K V : Type 0} (P : K × V → Type 0) (k : K) (v : V) (E : Eq K) (m : List (K × V))
    → P (k, v)
    → All P m
    → All P (Dict.insert E k v m)
unfolding Dict.insert
All-insert P k v E [] h hs = (h, tt)
All-insert P k v E ((j, w) ∷ m) h (hj, hs) = elim (Bool-cases (E.same j k)) [
  | inl same ↦ rw same (h, hs)
  | inr differ ↦ rw differ (hj, All-insert P k v E m h hs)
]

-- The entry that a lookup finds.
All-lookup :
    {K V : Type 0} (P : V → Type 0) (k : K) (v : V) (E : Eq K) (m : List (K × V))
    → All (λ e. P e.1) m
    → Dict.lookup E k m ≡ some v
    → P v
unfolding Dict.lookup
All-lookup P k v E [] hs e = cc
All-lookup P k v E ((j, w) ∷ m) (h, hs) e = elim (Bool-cases (E.same j k)) [
  | inl same ↦ let found : w ≡ v = cc (rw same at e) in rw (← found) h
  | inr differ ↦ All-lookup P k v E m hs (rw differ at e)
]

module _ (C : Crates) (P : C.LowerName → Zone C → Type 0) where
  abbrev pub HoldsFor : RecordAuthority C → Type 0
  HoldsFor a = P a.domain_name a.authority

  abbrev pub HoldsReverse : List (C.IpNetwork × RecordAuthority C) → Type 0
  HoldsReverse m = All (λ e. HoldsFor e.1) m

  -- The forward zone `d` and all reverse zones.
  abbrev pub HoldsAll : C.LowerName → Refresh C → Type 0
  HoldsAll d s = P d s.forward × HoldsReverse s.reverse

module _ (C : Crates) (H : C.LowerName → HostsFile C → Type 0) (P : C.LowerName → Zone C → Type 0)
    (K : IsKept C H P) where
  on_reverse-keeps :
      (d : C.LowerName) (network : C.IpNetwork) (op : Exec (Writing C) (Unit {0})) (s : Refresh C)
      → ((e : C.LowerName) (w : Writing C) → P e w.zone → P e (op w).1.zone)
      → HoldsAll C P d s
      → HoldsAll C P d (on_reverse C network op s).1
  unfolding on_reverse
  on_reverse-keeps d network op s keep (h, hs) =
      elim (Option-cases (Dict.lookup C.net_eq network s.reverse)) [
        | inl absent ↦ rw (on_reverse, absent) (h, hs)
        | inr (authority, found) ↦
            elim (Option-cases (Dict.lookup C.net_eq network s.reverse_records)) [
              | inl missing ↦ rw (on_reverse, found, missing) (h, hs)
              | inr (written, there) ↦
                  rw (on_reverse, found, there)
                    (
                      h,
                      All-insert (λ e. HoldsFor C P e.1) network _ C.net_eq s.reverse
                          (keep authority.domain_name
                            (record { zone = authority.authority; written = written })
                            (All-lookup (HoldsFor C P) network authority C.net_eq s.reverse hs
                              found))
                          hs,
                    )
            ]
      ]

  on_forward-keeps :
      (d : C.LowerName) (op : Exec (Writing C) (Unit {0})) (s : Refresh C)
      → ((w : Writing C) → P d w.zone → P d (op w).1.zone)
      → HoldsAll C P d s
      → HoldsAll C P d (on_forward C op s).1
  unfolding on_forward
  on_forward-keeps d op s keep (h, hs) = (keep _ h, hs)

  reverse_member-keeps :
      (d : C.LowerName) (r : ZtRecord C) (ips : List IpAddr) (s : Refresh C)
      → HoldsAll C P d s
      → HoldsAll C P d (reverse_member C r ips s).1
  unfolding reverse_member reverse_network reverse_ip
  reverse_member-keeps d r ips s h =
      for_each-keeps (HoldsAll C P d) (reverse_network C r ips)
        (λ (network, _) t.
          for_each-keeps (HoldsAll C P d) (reverse_ip C r network)
            (λ ip t' k. elim (Bool-cases (C.network_contains network ip)) [
              | inl inside ↦
                  rw (reverse_ip, inside)
                    (on_reverse-keeps d network (insert_member_ptr C r) t'
                      (λ e w. insert_member_ptr-keeps C H P K e r w) k)
              | inr outside ↦ rw (reverse_ip, outside) k
            ])
            ips t)
        s.reverse s h

  rfc4193_member-keeps :
      (d : C.LowerName) (m : Member) (r : ZtRecord C) (o : Option C.IpNetwork) (s : Refresh C)
      → HoldsAll C P d s
      → HoldsAll C P d (rfc4193_member C m r o s).1
  unfolding rfc4193_member
  rfc4193_member-keeps d m r none s h = h
  rfc4193_member-keeps d m r (some ptr) s h =
      elim (Option-cases (Dict.lookup C.net_eq ptr s.reverse)) [
        | inl absent ↦ rw (rfc4193_member, absent) h
        | inr (authority, found) ↦
            elim (Option-cases (Dict.lookup C.net_eq ptr s.reverse_records)) [
              | inl missing ↦ rw (rfc4193_member, found, missing) h
              | inr (written, there) ↦
                  rw (rfc4193_member, found, there)
                    (lift-keeps (HoldsAll C P d) (member_rfc4193 C m) s _ h (λ address.
                      on_reverse-keeps d ptr
                        (write_ptr C (C.ip_into_name (C.network_ip address)) r.ptr_name) s
                        (λ e w.
                          write_ptr-keeps C H P K e (C.ip_into_name (C.network_ip address))
                            r.ptr_name w)
                        h))
            ]
      ]

  pub configure_member-keeps :
      (d : C.LowerName) (zt : ZtAuthority C) (sixplane rfc4193 : Option C.IpNetwork) (m : Member)
      (s : Refresh C)
      → HoldsAll C P d s
      → HoldsAll C P d (configure_member C zt sixplane rfc4193 m s).1
  unfolding configure_member
  configure_member-keeps d zt sixplane rfc4193 m s h =
      lift-keeps (HoldsAll C P d)
        (new_record C m sixplane rfc4193 (C.of_lower zt.forward_authority.domain_name) zt.wildcard)
        s _ h
        (λ r.
          continue-keeps (HoldsAll C P d) (on_forward C (insert_member C r) s)
            (λ _ t.
              Exec.continue (reverse_member C r (config_ips C m.config) t)
                (λ _. rfc4193_member C m r rfc4193))
            (on_forward-keeps d (insert_member C r) s (λ w. insert_member-keeps C H P K d r w) h)
            (λ _ t k.
              continue-keeps (HoldsAll C P d) (reverse_member C r (config_ips C m.config) t)
                (λ _. rfc4193_member C m r rfc4193)
                (reverse_member-keeps d r (config_ips C m.config) t k)
                (λ _ t' k'. rfc4193_member-keeps d m r rfc4193 t' k')))

  pub prune_all-keeps :
      (d : C.LowerName) (s : Refresh C) → HoldsAll C P d s → HoldsAll C P d (prune_all C s).1
  unfolding prune_all prune_forward prune_reverse
  prune_all-keeps d s (h, hs) =
      continue-keeps (HoldsAll C P d) (prune_forward C s)
        (λ _ t. for_each (prune_reverse C) t.reverse t)
        (K.prune_records-keeps d s.forward_records s.forward h, hs)
        (λ _ t k.
          for_each-keeps (HoldsAll C P d) (prune_reverse C)
            (λ (network, _) t' k'.
              on_reverse-keeps d network _ t' (λ e w. K.prune_records-keeps e w.written w.zone) k')
            t.reverse t k)
