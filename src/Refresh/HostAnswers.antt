-- ===== src/Refresh/HostAnswers.antt =====
-- Exactly which addresses the names of the hosts file have, after `configure_hosts` and then
-- `prune_hosts` of src/authority.rs.
use zeronsd.Base.{
  ℕ, ◌≡◌, refl, ◌∙◌, ap, sym, Bool, true, false, ◌||◌, Option, some, none, List, [], ◌∷◌, map,
  is_empty, arith, any-append, Bool-cases, inl, inr,
}
use mathlib.Core.List.{map-append}
use zeronsd.Net.{IpAddr}
use zeronsd.Dns.{RData, RrKey, rdata_same, contains_rdata, to_record_type}
use zeronsd.Crates.{Crates, Zone}
use zeronsd.Crates.Laws.{IsNamesLawful, IsZoneLawful, lookup_key, rdatas_of}
use zeronsd.Authority.{HostsFile, rdata_of_ip, key_of, typed_rdatas, match_or_insert, prune_hosts}
use zeronsd.Authority.Union.{
  same-lower, has_record, contains-typed_rdatas, has_record-match_or_insert,
}
use zeronsd.Authority.PruneHosts.{outdated}
use zeronsd.Authority.PruneHosts.Grouping.{listed, repeated}
use zeronsd.Authority.PruneHosts.Final.{pruned, prune_hosts_lem, contains-rebuilt, contains_of_all}
use zeronsd.Authority.WellFormed.{IsWellFormed, match_or_insert-IsWellFormed}
use zeronsd.Refresh.{insert_names, insert_hosts}

module _ (C : Crates) where
  -- The record is one for an address that the hosts file lists for the name.
  abbrev pub is_listed : HostsFile C → C.Name → RData C.Name → Bool
  is_listed hosts name d = contains_rdata C.name_eq (map rdata_of_ip (listed C name hosts)) d

module _ (C : Crates) (N : IsNamesLawful C) (L : IsZoneLawful C) where
  has_record-insert_names :
      (ip : IpAddr) (names : List C.Name) (z : Zone C) (name : C.Name) (d : RData C.Name)
      → has_record C (insert_names C ip names z) name d ≡ (
          contains_rdata C.name_eq (map rdata_of_ip (repeated C name ip names)) d
          || has_record C z name d)
  unfolding insert_names
  has_record-insert_names ip [] z name d = refl
  has_record-insert_names ip (n ∷ names) z name d =
      has_record-insert_names ip names (match_or_insert C n (ip ∷ []) z) name d
      ∙ rw (has_record-match_or_insert C L n ip z name d, same-lower C N n name) (ground arith)

  -- `insert_hosts` is a union: afterwards a name has exactly the records that it had and those for
  -- the addresses that the hosts file lists for it.
  pub has_record-insert_hosts :
      (hosts : HostsFile C) (z : Zone C) (name : C.Name) (d : RData C.Name)
      → has_record C (insert_hosts C hosts z) name d
        ≡ (is_listed C hosts name d || has_record C z name d)
  unfolding insert_hosts listed
  has_record-insert_hosts [] z name d = refl
  has_record-insert_hosts ((ip, names) ∷ hosts) z name d =
      has_record-insert_hosts hosts (insert_names C ip names z) name d
      ∙ rw
          (
            has_record-insert_names ip names z name d,
            map-append rdata_of_ip (repeated C name ip names) (listed C name hosts),
            any-append (λ e. rdata_same C.name_eq e d) (map rdata_of_ip (repeated C name ip names))
                (map rdata_of_ip (listed C name hosts)),
          )
          (ground arith)

  insert_names-IsWellFormed :
      (ip : IpAddr) (names : List C.Name) (z : Zone C)
      → IsWellFormed C z
      → IsWellFormed C (insert_names C ip names z)
  unfolding insert_names
  insert_names-IsWellFormed ip [] z w = w
  insert_names-IsWellFormed ip (n ∷ names) z w =
      insert_names-IsWellFormed ip names _ (match_or_insert-IsWellFormed C L n (ip ∷ []) z w)

  pub insert_hosts-IsWellFormed :
      (hosts : HostsFile C) (z : Zone C)
      → IsWellFormed C z
      → IsWellFormed C (insert_hosts C hosts z)
  unfolding insert_hosts
  insert_hosts-IsWellFormed [] z w = w
  insert_hosts-IsWellFormed ((ip, names) ∷ hosts) z w =
      insert_hosts-IsWellFormed hosts _ (insert_names-IsWellFormed ip names z w)

  -- A set that holds all of the listed addresses has exactly these after the pruning.
  contains-pruned_all :
      (serial : ℕ) (ips : List IpAddr) (k : RrKey C.LowerName) (o : Option C.RecordSet)
      (d : RData C.Name)
      → is_empty ips ≡ false
      → to_record_type d ≡ k.record_type
      → ((s : C.RecordSet) → o ≡ some s → C.set_type s ≡ k.record_type)
      → (contains_rdata C.name_eq (map rdata_of_ip ips) d ≡ true
          → contains_rdata C.name_eq (rdatas_of C o) d ≡ true)
      → contains_rdata C.name_eq (rdatas_of C (pruned C serial ips k o)) d
        ≡ contains_rdata C.name_eq (map rdata_of_ip ips) d
  contains-pruned_all serial ips k none d some_ip type typed complete = ground (arith, complete)
  contains-pruned_all serial ips k (some rset) d some_ip type typed complete =
      let e : C.set_type rset ≡ to_record_type d = typed rset refl ∙ sym type in
      let same : contains_rdata C.name_eq (typed_rdatas C (C.set_type rset) ips) d
          ≡ contains_rdata C.name_eq (map rdata_of_ip ips) d =
        ap (λ t. contains_rdata C.name_eq (typed_rdatas C t ips) d) e
        ∙ contains-typed_rdatas C ips d in
      elim (Bool-cases (outdated C ips rset)) [
        | inl old ↦
            rw (some_ip, old) (contains-rebuilt C L serial (C.of_lower k.name) ips rset d ∙ same)
        | inr new ↦
            let sound : contains_rdata C.name_eq (C.rdatas rset) d ≡ true
                → contains_rdata C.name_eq (typed_rdatas C (C.set_type rset) ips) d ≡ true =
              contains_of_all C L (C.rdatas rset) (typed_rdatas C (C.set_type rset) ips) d
                (ground arith) in
            rw (some_ip, new) (ground (arith, complete, sound, same))
      ]

  -- On a well-formed zone, after `insert_hosts` and then `prune_hosts` a name for which the hosts
  -- file lists an address has exactly the listed addresses, whatever records the zone had for the
  -- name.
  pub prune_hosts-insert_hosts :
      (hosts : HostsFile C) (z : Zone C) (name : C.Name) (d : RData C.Name)
      → IsWellFormed C z
      → is_empty (listed C name hosts) ≡ false
      → has_record C (prune_hosts C hosts (insert_hosts C hosts z)).1 name d
        ≡ is_listed C hosts name d
  prune_hosts-insert_hosts hosts z name d w some_ip =
      let z' = insert_hosts C hosts z in
      let k = key_of C name (to_record_type d) in
      let w' = insert_hosts-IsWellFormed hosts z w in
      let lists : listed C (C.of_lower k.name) hosts ≡ listed C name hosts =
        ap (λ n. listed C n hosts) (N.of_lower-lower name) in
      let o = lookup_key C k z' in
      rw ((prune_hosts_lem C N hosts z' k w'.nodup).1, lists)
        (contains-pruned_all (C.serial z') (listed C name hosts) k o d some_ip refl (w'.typed k)
          (λ h. has_record-insert_hosts hosts z name d ∙ ground (arith, h)))
