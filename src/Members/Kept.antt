-- ===== src/Members/Kept.antt =====
-- What every operation of a zone keeps, the operations with the records of a member keep
-- (src/authority.rs), however they end.
use zeronsd.Base.{Bool, true, false, Option, some, none, List, Outcome}
use zeronsd.Base.Exec.{continue-keeps, lift-keeps, for_each-keeps}
use zeronsd.Net.{IpAddr}
use zeronsd.Crates.{Crates, Zone}
use zeronsd.Hostname.{to_wildcard}
use zeronsd.Authority.{HostsFile, match_or_insert, prune_hosts, prune_records, configure_ptr}
use zeronsd.Members.{
  ZtRecord, Writing, get_custom_wildcard, write_name, write_wildcard, write_custom, insert_member,
  write_ptr, insert_member_ptr,
}

-- A property of zones, by the name of the zone, that the operations keep; `H` is what it takes of
-- the hosts files.
pub record IsKept (C : Crates) (H : C.LowerName → HostsFile C → Type 0)
    (P : C.LowerName → Zone C → Type 0) : Type 0 where
  pub match_or_insert-keeps :
      (d : C.LowerName) (name : C.Name) (ips : List IpAddr) (z : Zone C)
      → P d z
      → P d (match_or_insert C name ips z)
  pub configure_ptr-keeps :
      (d : C.LowerName) (ptr fqdn : C.Name) (z : Zone C)
      → P d z
      → P d (configure_ptr C ptr fqdn z).1
  pub prune_records-keeps :
      (d : C.LowerName) (written : List C.LowerName) (z : Zone C)
      → P d z
      → P d (prune_records C written z).1
  pub prune_hosts-keeps :
      (d : C.LowerName) (hosts : HostsFile C) (z : Zone C)
      → H d hosts
      → P d z
      → P d (prune_hosts C hosts z).1

module _ (C : Crates) (H : C.LowerName → HostsFile C → Type 0) (P : C.LowerName → Zone C → Type 0)
    (K : IsKept C H P) (d : C.LowerName) where
  abbrev Holds : Writing C → Type 0
  Holds w = P d w.zone

  write_name-keeps :
      (name : C.Name) (ips : List IpAddr) (w : Writing C)
      → Holds w
      → Holds (write_name C name ips w).1
  unfolding write_name
  write_name-keeps name ips w h = K.match_or_insert-keeps d name ips w.zone h

  write_wildcard-keeps :
      (b : Bool) (o : Outcome C.Name) (ips : List IpAddr) (w : Writing C)
      → Holds w
      → Holds (write_wildcard C b o ips w).1
  unfolding write_wildcard
  write_wildcard-keeps false o ips w h = h
  write_wildcard-keeps true o ips w h =
      lift-keeps Holds o w (λ n. write_name C n ips) h (λ n. write_name-keeps n ips w h)

  write_custom-keeps :
      (r : ZtRecord C) (o : Option C.Name) (w : Writing C)
      → Holds w
      → Holds (write_custom C r o w).1
  unfolding write_custom
  write_custom-keeps r none w h = h
  write_custom-keeps r (some name) w h =
      continue-keeps Holds (write_name C name r.ips w) _ (write_name-keeps name r.ips w h)
        (λ _ t k. write_wildcard-keeps r.wildcard (get_custom_wildcard C r) r.ips t k)

  pub insert_member-keeps :
      (r : ZtRecord C) (w : Writing C) → P d w.zone → P d (insert_member C r w).1.zone
  unfolding insert_member
  insert_member-keeps r w h =
      continue-keeps Holds _ (λ _. write_custom C r r.custom_name)
        (continue-keeps Holds (write_name C r.fqdn r.ips w)
          (λ _. write_wildcard C r.wildcard (to_wildcard C r.fqdn) r.ips)
          (write_name-keeps r.fqdn r.ips w h)
          (λ _ t k. write_wildcard-keeps r.wildcard (to_wildcard C r.fqdn) r.ips t k))
        (λ _ t k. write_custom-keeps r r.custom_name t k)

  pub write_ptr-keeps :
      (o : Option C.Name) (fqdn : C.Name) (w : Writing C)
      → P d w.zone
      → P d (write_ptr C o fqdn w).1.zone
  unfolding write_ptr
  write_ptr-keeps none fqdn w h = h
  write_ptr-keeps (some ptr) fqdn w h =
      lift-keeps Holds (configure_ptr C ptr fqdn w.zone).0 _ _
        (K.configure_ptr-keeps d ptr fqdn w.zone h) (λ _. K.configure_ptr-keeps d ptr fqdn w.zone h)

  pub insert_member_ptr-keeps :
      (r : ZtRecord C) (w : Writing C) → P d w.zone → P d (insert_member_ptr C r w).1.zone
  unfolding insert_member_ptr
  insert_member_ptr-keeps r w h =
      for_each-keeps Holds (λ ip. write_ptr C (C.ip_into_name ip) r.ptr_name)
        (λ ip t k. write_ptr-keeps (C.ip_into_name ip) r.ptr_name t k) r.ips w h
