-- ===== src/Authority/PruneHosts.antt =====
-- What `prune_hosts` of src/authority.rs leaves in a zone.
pub mod Grouping
pub mod Final
use zeronsd.Base.{
  ℕ, ◌≡◌, refl, ◌∙◌, ap, Bool, true, false, not, ◌&&◌, ◌||◌, Option, none, some, List, [], ◌∷◌,
  ◌++◌, any, all, map, filter, is_empty, if◌then◌else◌, arith, ok, Bool-cases, inl, inr,
}
use zeronsd.Base.Dict
use zeronsd.Base.Exec
use zeronsd.Base.Exec.{for_each}
use zeronsd.Net.{IpAddr}
use zeronsd.Dns.{RecordType, RData, RrKey, key_eq, key_same, key_same_iff, contains_rdata}
use zeronsd.Crates.{Crates, Zone}
use zeronsd.Crates.Laws.{IsNamesLawful, IsZoneLawful, lookup_key}
use zeronsd.Authority.{HostsFile, typed_rdatas, prune_host_entry, prune_host, prune_hosts, add_all}

module _ (C : Crates) where
  -- The test of `prune_hosts` on a record set of the host.
  abbrev pub outdated : List IpAddr → C.RecordSet → Bool
  outdated ips rset =
      is_empty (C.rdatas rset)
      || not (all (contains_rdata C.name_eq (typed_rdatas C (C.set_type rset) ips)) (C.rdatas rset))

  abbrev pub rebuilt : ℕ → C.Name → List IpAddr → C.RecordSet → C.RecordSet
  rebuilt serial host ips rset =
      add_all C (C.new_set host (C.set_type rset) serial) (typed_rdatas C (C.set_type rset) ips)

  -- What a round makes of the set under a key, from the set in the clone and the present one.
  abbrev pub revise :
      ℕ
      → C.Name
      → List IpAddr
      → RrKey C.LowerName
      → Option C.RecordSet
      → Option C.RecordSet
      → Option C.RecordSet
  revise serial host ips k none now = now
  revise serial host ips k (some rset) now =
      if C.name_eq.same (C.of_lower k.name) host && outdated ips rset
      then some (rebuilt serial (C.of_lower k.name) ips rset)
      else now

module _ (C : Crates) (N : IsNamesLawful C) (serial : ℕ) (host : C.Name) (ips : List IpAddr) where
  abbrev pub round : RrKey C.LowerName → C.RecordSet → Zone C → Zone C
  round j rset rr =
      if C.name_eq.same (C.of_lower j.name) host && outdated C ips rset
      then Dict.insert (key_eq C.lower_eq) j (rebuilt C serial (C.of_lower j.name) ips rset)
          (Dict.remove (key_eq C.lower_eq) j rr)
      else rr

  prune_host_entry_lem :
      (j : RrKey C.LowerName) (rset : C.RecordSet) (rr : Zone C)
      → prune_host_entry C serial host ips (j, rset) rr ≡ (ok tt, round j rset rr)
  unfolding prune_host_entry
  prune_host_entry_lem j rset rr =
      rw (N.lower_into_name_lem j.name, prune_host_entry) (ground arith)

  lookup-round :
      (j k : RrKey C.LowerName) (rset : C.RecordSet) (rr : Zone C)
      → lookup_key C k (round j rset rr) ≡ (
          if key_same C.lower_eq j k
          then revise C serial host ips j (some rset) (lookup_key C k rr)
          else lookup_key C k rr)
  lookup-round j k rset rr = ground (
    arith,
    Dict.lookup-insert (key_eq C.lower_eq) k j (rebuilt C serial (C.of_lower j.name) ips rset)
        (Dict.remove (key_eq C.lower_eq) j rr),
    Dict.lookup-remove (key_eq C.lower_eq) k j rr,
  )

  round-NodupKeys :
      (j : RrKey C.LowerName) (rset : C.RecordSet) (rr : Zone C)
      → Dict.NodupKeys (key_eq C.lower_eq) rr
      → Dict.NodupKeys (key_eq C.lower_eq) (round j rset rr)
  round-NodupKeys j rset rr h =
      elim (Bool-cases (C.name_eq.same (C.of_lower j.name) host && outdated C ips rset)) [
        | inl runs ↦ rw runs (
            Dict.insert-NodupKeys (key_eq C.lower_eq) j _ _
              (Dict.remove-NodupKeys (key_eq C.lower_eq) j rr h))
        | inr skips ↦ rw skips h
      ]

  -- The inner loop over the entries of a clone.
  abbrev pub rounds : Zone C → Zone C → Zone C
  rounds [] rr = rr
  rounds ((j, rset) ∷ es) rr = rounds es (round j rset rr)

  pub for_each-eq-rounds :
      (es rr : Zone C) → for_each (prune_host_entry C serial host ips) es rr ≡ (ok tt, rounds es rr)
  unfolding for_each
  for_each-eq-rounds [] rr = refl
  for_each-eq-rounds ((j, rset) ∷ es) rr =
      rw (prune_host_entry_lem j rset rr) (for_each-eq-rounds es (round j rset rr))

  pub rounds-NodupKeys :
      (es rr : Zone C)
      → Dict.NodupKeys (key_eq C.lower_eq) rr
      → Dict.NodupKeys (key_eq C.lower_eq) (rounds es rr)
  rounds-NodupKeys [] rr h = h
  rounds-NodupKeys ((j, rset) ∷ es) rr h = rounds-NodupKeys es _ (round-NodupKeys j rset rr h)

  pub lookup-rounds :
      (es rr : Zone C) (k : RrKey C.LowerName)
      → Dict.NodupKeys (key_eq C.lower_eq) es
      → lookup_key C k (rounds es rr)
        ≡ revise C serial host ips k (lookup_key C k es) (lookup_key C k rr)
  lookup-rounds [] rr k h = rw (Dict.lookup-nil (key_eq C.lower_eq) k)
  lookup-rounds ((j, rset) ∷ es) rr k (fresh, h) =
      lookup-rounds es (round j rset rr) k h
      ∙ rw (Dict.lookup-cons (key_eq C.lower_eq) k j rset es, lookup-round j k rset rr)
          (elim (Bool-cases (key_same C.lower_eq j k)) [
            | inl same ↦
                let e : j ≡ k = (key_same_iff C.lower_eq j k).0 same in
                let absent : lookup_key C k es ≡ none = rw e at fresh in rw (same, absent, e)
            | inr other ↦ rw other
          ])
