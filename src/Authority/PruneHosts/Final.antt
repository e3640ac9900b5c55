-- ===== src/Authority/PruneHosts/Final.antt =====
-- The whole of `prune_hosts` of src/authority.rs: the sets of the hosts afterwards.
use zeronsd.Base.{
  ℕ, ◌≡◌, refl, ◌∙◌, ap, sym, true, false, not, ◌&&◌, ◌||◌, Option, none, some, List, [], ◌∷◌, all,
  All, is_empty, if◌then◌else◌, arith, ok, same-eq-false_symm, Bool-cases, inl, inr,
}
use zeronsd.Base.Dict
use zeronsd.Base.Exec.{for_each}
use zeronsd.Net.{IpAddr, v4, v6}
use zeronsd.Dns.{
  RecordType, RData, RrKey, to_record_type, key_eq, contains_rdata, rdata_same_iff, rdata_same,
}
use zeronsd.Dns.{rdata_same}
use zeronsd.Crates.{Crates, Zone}
use zeronsd.Crates.Laws.{
  IsNamesLawful, IsZoneLawful, IsWellTyped, accumulates, lookup_key, is_stored, rdatas_of,
}
use zeronsd.Authority.{
  HostsFile, rdata_of_ip, has_type, typed_rdatas, prune_host, prune_hosts, hosts_map, add_all,
}
use zeronsd.Authority.PruneHosts.{
  outdated, rebuilt, revise, rounds, for_each-eq-rounds, lookup-rounds, rounds-NodupKeys,
}
use zeronsd.Authority.PruneHosts.Grouping.{listed, group, lookup-hosts_map, hosts_map-NodupKeys}

revise_other :
    (C : Crates) (serial : ℕ) (host : C.Name) (ips : List IpAddr) (k : RrKey C.LowerName)
    (o : Option C.RecordSet)
    → C.name_eq.same (C.of_lower k.name) host ≡ false
    → revise C serial host ips k o o ≡ o
revise_other C serial host ips k none h = refl
revise_other C serial host ips k (some rset) h = ground arith

module _ (C : Crates) (N : IsNamesLawful C) (serial : ℕ) where
  prune_host_lem :
      (host : C.Name) (ips : List IpAddr) (rr : Zone C)
      → prune_host C serial (host, ips) rr ≡ (ok tt, rounds C N serial host ips rr rr)
  unfolding prune_host
  prune_host_lem host ips rr = for_each-eq-rounds C N serial host ips rr rr

  abbrev turns : List (C.Name × List IpAddr) → Zone C → Zone C
  turns [] rr = rr
  turns ((host, ips) ∷ m) rr = turns m (rounds C N serial host ips rr rr)

  for_each-eq-turns :
      (m : List (C.Name × List IpAddr)) (rr : Zone C)
      → for_each (prune_host C serial) m rr ≡ (ok tt, turns m rr)
  unfolding for_each
  for_each-eq-turns [] rr = refl
  for_each-eq-turns ((host, ips) ∷ m) rr =
      rw (prune_host_lem host ips rr) (for_each-eq-turns m (rounds C N serial host ips rr rr))

  turns-NodupKeys :
      (m : List (C.Name × List IpAddr)) (rr : Zone C)
      → Dict.NodupKeys (key_eq C.lower_eq) rr
      → Dict.NodupKeys (key_eq C.lower_eq) (turns m rr)
  turns-NodupKeys [] rr h = h
  turns-NodupKeys ((host, ips) ∷ m) rr h =
      turns-NodupKeys m _ (rounds-NodupKeys C N serial host ips rr rr h)

  -- The set under a key after the turn of the host with the key's name, if there is one.
  abbrev turned : RrKey C.LowerName → Option (List IpAddr) → Option C.RecordSet → Option C.RecordSet
  turned k none now = now
  turned k (some ips) now = revise C serial (C.of_lower k.name) ips k now now

  lookup-turns :
      (m : List (C.Name × List IpAddr)) (rr : Zone C) (k : RrKey C.LowerName)
      → Dict.NodupKeys C.name_eq m
      → Dict.NodupKeys (key_eq C.lower_eq) rr
      → lookup_key C k (turns m rr)
        ≡ turned k (Dict.lookup C.name_eq (C.of_lower k.name) m) (lookup_key C k rr)
  lookup-turns [] rr k h u = rw (Dict.lookup-nil C.name_eq (C.of_lower k.name))
  lookup-turns ((host, ips) ∷ m) rr k (fresh, h) u =
      lookup-turns m (rounds C N serial host ips rr rr) k h
        (rounds-NodupKeys C N serial host ips rr rr u)
      ∙ rw
          (
            Dict.lookup-cons C.name_eq (C.of_lower k.name) host ips m,
            lookup-rounds C N serial host ips rr rr k u,
          )
          (elim (Bool-cases (C.name_eq.same host (C.of_lower k.name))) [
            | inl same ↦
                let e : host ≡ C.of_lower k.name = (C.name_eq.same_iff _ _).0 same in
                let absent : Dict.lookup C.name_eq (C.of_lower k.name) m ≡ none = rw e at fresh in
                rw (same, absent, e)
            | inr other ↦
                rw (
                  other,
                  revise_other C serial host ips k _ (same-eq-false_symm C.name_eq _ _ other),
                )
          ])

module _ (C : Crates) where
  -- What `prune_hosts` makes of a set of the host that has the addresses.
  abbrev pub pruned : ℕ → List IpAddr → RrKey C.LowerName → Option C.RecordSet → Option C.RecordSet
  pruned serial ips k none = none
  pruned serial ips k (some rset) =
      if not (is_empty ips) && outdated C ips rset
      then some (rebuilt C serial (C.of_lower k.name) ips rset)
      else some rset

  turned-group :
      (N : IsNamesLawful C) (serial : ℕ) (ips : List IpAddr) (k : RrKey C.LowerName)
      (o : Option C.RecordSet)
      → turned C N serial k (group ips) o ≡ pruned serial ips k o
  turned-group N serial [] k none = refl
  turned-group N serial [] k (some rset) = refl
  turned-group N serial (ip ∷ ips) k none = refl
  turned-group N serial (ip ∷ ips) k (some rset) =
      rw ((C.name_eq.same_iff (C.of_lower k.name) (C.of_lower k.name)).1 refl)

module _ (C : Crates) (N : IsNamesLawful C) where
  pub prune_hosts-NodupKeys :
      (hosts : HostsFile C) (rr : Zone C)
      → Dict.NodupKeys (key_eq C.lower_eq) rr
      → Dict.NodupKeys (key_eq C.lower_eq) (prune_hosts C hosts rr).1
  unfolding prune_hosts
  prune_hosts-NodupKeys hosts rr u =
      rw (for_each-eq-turns C N (C.serial rr) (hosts_map C hosts []) rr)
        (turns-NodupKeys C N (C.serial rr) (hosts_map C hosts []) rr u)

  pub prune_hosts-eq-ok : (hosts : HostsFile C) (rr : Zone C) → (prune_hosts C hosts rr).0 ≡ ok tt
  unfolding prune_hosts
  prune_hosts-eq-ok hosts rr = rw (for_each-eq-turns C N (C.serial rr) (hosts_map C hosts []) rr)

  -- On a zone without repeated keys `prune_hosts` succeeds, and decides the set under every key: a
  -- set of a host of the hosts file that is empty, or holds something other than the addresses of
  -- its type listed for the host, becomes the set of these addresses; any other set stays as it
  -- is, and no key is added or lost.
  pub prune_hosts_lem :
      (hosts : HostsFile C) (rr : Zone C) (k : RrKey C.LowerName)
      → Dict.NodupKeys (key_eq C.lower_eq) rr
      → ((prune_hosts C hosts rr).0 ≡ ok tt)
        × (lookup_key C k (prune_hosts C hosts rr).1
            ≡ pruned C (C.serial rr) (listed C (C.of_lower k.name) hosts) k (lookup_key C k rr))
  unfolding prune_hosts
  prune_hosts_lem hosts rr k u =
      let m = hosts_map C hosts [] in
      let nodup : Dict.NodupKeys C.name_eq m = hosts_map-NodupKeys C hosts [] tt in
      rw (for_each-eq-turns C N (C.serial rr) m rr) (
        refl,
        lookup-turns C N (C.serial rr) m rr k nodup u
            ∙ rw
                (lookup-hosts_map C (C.of_lower k.name) hosts [] []
                  (Dict.lookup-nil C.name_eq (C.of_lower k.name)))
                (turned-group C N (C.serial rr) _ k _),
      )

module _ (C : Crates) (L : IsZoneLawful C) where
  -- The data can be added to a set of the type.
  abbrev Fits : RecordType → RData C.Name → Type 0
  Fits t d = (accumulates (to_record_type d) ≡ true) × (t ≡ to_record_type d)

  rdata_of_ip-Fits : (t : RecordType) (ip : IpAddr) → has_type t ip ≡ true → Fits t (rdata_of_ip ip)
  rdata_of_ip-Fits RecordType.a (v4 x) h = (refl, refl)
  rdata_of_ip-Fits RecordType.aaaa (v6 x) h = (refl, refl)
  rdata_of_ip-Fits RecordType.a (v6 x) h = cc
  rdata_of_ip-Fits RecordType.aaaa (v4 x) h = cc
  rdata_of_ip-Fits RecordType.ptr (v4 x) h = cc
  rdata_of_ip-Fits RecordType.ptr (v6 x) h = cc
  rdata_of_ip-Fits RecordType.ns (v4 x) h = cc
  rdata_of_ip-Fits RecordType.ns (v6 x) h = cc
  rdata_of_ip-Fits RecordType.soa (v4 x) h = cc
  rdata_of_ip-Fits RecordType.soa (v6 x) h = cc

  typed_rdatas-Fits : (t : RecordType) (ips : List IpAddr) → All (Fits t) (typed_rdatas C t ips)
  typed_rdatas-Fits t [] = tt
  typed_rdatas-Fits t (ip ∷ ips) = elim (Bool-cases (has_type t ip)) [
    | inl has ↦ rw has (rdata_of_ip-Fits t ip has, typed_rdatas-Fits t ips)
    | inr lacks ↦ rw lacks (typed_rdatas-Fits t ips)
  ]

  contains-add_all :
      (set : C.RecordSet) (ds : List (RData C.Name)) (d : RData C.Name)
      → All (Fits (C.set_type set)) ds
      → contains_rdata C.name_eq (C.rdatas (add_all C set ds)) d
        ≡ (contains_rdata C.name_eq ds d || contains_rdata C.name_eq (C.rdatas set) d)
  unfolding add_all
  contains-add_all set [] d fits = refl
  contains-add_all set (e ∷ ds) d ((many, same), fits) =
      contains-add_all (C.add_rdata set e) ds d (rw (L.set_type-add_rdata set e) fits)
      ∙ rw (L.contains-add_rdata set e d many same) (ground arith)

  pub contains-rebuilt :
      (serial : ℕ) (host : C.Name) (ips : List IpAddr) (rset : C.RecordSet) (d : RData C.Name)
      → contains_rdata C.name_eq (C.rdatas (rebuilt C serial host ips rset)) d
        ≡ contains_rdata C.name_eq (typed_rdatas C (C.set_type rset) ips) d
  contains-rebuilt serial host ips rset d =
      contains-add_all (C.new_set host (C.set_type rset) serial) _ d (
        rw (L.set_type-new_set host (C.set_type rset) serial)
          (typed_rdatas-Fits (C.set_type rset) ips))
      ∙ rw (L.rdatas-new_set host (C.set_type rset) serial) (ground arith)

  pub contains_of_all :
      (ds es : List (RData C.Name)) (d : RData C.Name)
      → all (contains_rdata C.name_eq es) ds ≡ true
      → contains_rdata C.name_eq ds d ≡ true
      → contains_rdata C.name_eq es d ≡ true
  contains_of_all [] es d h k = cc
  contains_of_all (e ∷ ds) es d h k = elim (Bool-cases (rdata_same C.name_eq e d)) [
    | inl same ↦
        let e' : e ≡ d = (rdata_same_iff C.name_eq e d).0 same in
        ground (arith, ap (contains_rdata C.name_eq es) e')
    | inr other ↦ contains_of_all ds es d (ground arith) (ground arith)
  ]

  contains-pruned :
      (serial : ℕ) (ips : List IpAddr) (k : RrKey C.LowerName) (o : Option C.RecordSet)
      (d : RData C.Name)
      → is_empty ips ≡ false
      → ((set : C.RecordSet) → o ≡ some set → C.set_type set ≡ k.record_type)
      → contains_rdata C.name_eq (rdatas_of C (pruned C serial ips k o)) d ≡ true
      → contains_rdata C.name_eq (typed_rdatas C k.record_type ips) d ≡ true
  contains-pruned serial ips k none d some_ip typed h = cc
  contains-pruned serial ips k (some rset) d some_ip typed h =
      let e : C.set_type rset ≡ k.record_type = typed rset refl in
      elim (Bool-cases (outdated C ips rset)) [
        | inl old ↦
            rw (← e) (
              sym (contains-rebuilt serial (C.of_lower k.name) ips rset d) ∙ rw (some_ip, old) at h)
        | inr new ↦
            rw (← e) (contains_of_all (C.rdatas rset) _ d (ground arith) (rw (some_ip, new) at h))
      ]

  -- If a zone has no repeated keys and sets of the types of their keys, and the hosts file lists
  -- addresses for a name, then after `prune_hosts` every record of that name is one for a listed
  -- address of its type.
  pub prune_hosts_sound :
      IsNamesLawful C
      → (hosts : HostsFile C) (rr : Zone C) (k : RrKey C.LowerName) (d : RData C.Name)
      → Dict.NodupKeys (key_eq C.lower_eq) rr
      → IsWellTyped C rr
      → is_empty (listed C (C.of_lower k.name) hosts) ≡ false
      → is_stored C k (prune_hosts C hosts rr).1 d ≡ true
      → contains_rdata C.name_eq
          (typed_rdatas C k.record_type (listed C (C.of_lower k.name) hosts))
          d
        ≡ true
  prune_hosts_sound N hosts rr k d u typed some_ip h =
      contains-pruned (C.serial rr) _ k (lookup_key C k rr) d some_ip (typed k)
        (rw (prune_hosts_lem C N hosts rr k u).1 at h)
