-- ===== src/Authority/WellFormed.antt =====
-- The invariant of a zone: every operation of `RecordAuthority` in src/authority.rs keeps it.
use zeronsd.Base.{
  ℕ, ◌≡◌, refl, ◌∙◌, sym, Option, some, none, List, [], ◌∷◌, arith, Bool-cases, inl, inr,
}
use zeronsd.Base.Dict
use zeronsd.Net.{IpAddr}
use zeronsd.Dns.{RecordType, RData, Record, RrKey, key_eq}
use zeronsd.Crates.{Crates, Zone}
use zeronsd.Crates.Laws.{IsNamesLawful, IsZoneLawful, IsWellTyped, lookup_key, is_stored}
use zeronsd.Authority.{
  HostsFile, upsert_all, replace_ip_record, must_insert, match_or_insert_type, match_or_insert,
  add_all, prune_hosts, remove_all, prune_records, key_of, configure_ptr,
}
use zeronsd.Authority.Prune.{expired-eq-ok, expired_keys}
use zeronsd.Authority.PruneHosts.{rebuilt}
use zeronsd.Authority.PruneHosts.Grouping.{listed}
use zeronsd.Authority.PruneHosts.Final.{pruned, prune_hosts_lem, prune_hosts-NodupKeys}
use zeronsd.Authority.Ptr.{configure_ptr-cases, here}

-- No key is repeated, and every set has the type of its key.
pub record IsWellFormed (C : Crates) (z : Zone C) : Type 0 where
  pub nodup : Dict.NodupKeys (key_eq C.lower_eq) z
  pub typed : IsWellTyped C z

module _ (C : Crates) (L : IsZoneLawful C) where
  pub upsert-IsWellFormed :
      (r : Record C.Name) (serial : ℕ) (z : Zone C)
      → IsWellFormed C z
      → IsWellFormed C (C.upsert r serial z)
  upsert-IsWellFormed r serial z w = record {
    nodup = L.upsert-NodupKeys r serial z w.nodup;
    typed = L.upsert-IsWellTyped r serial z w.typed;
  }

  upsert_all-IsWellFormed :
      (name : C.Name) (ds : List (RData C.Name)) (serial : ℕ) (z : Zone C)
      → IsWellFormed C z
      → IsWellFormed C (upsert_all C name ds serial z)
  unfolding upsert_all
  upsert_all-IsWellFormed name [] serial z w = w
  upsert_all-IsWellFormed name (d ∷ ds) serial z w =
      upsert_all-IsWellFormed name ds serial _ (upsert-IsWellFormed _ serial z w)

  match_or_insert_type-IsWellFormed :
      (name : C.Name) (ips : List IpAddr) (rt : RecordType) (z : Zone C)
      → IsWellFormed C z
      → IsWellFormed C (match_or_insert_type C name ips rt z)
  unfolding match_or_insert_type replace_ip_record
  match_or_insert_type-IsWellFormed name ips rt z w =
      elim (Bool-cases (must_insert C ips rt (lookup_key C (key_of C name rt) z))) [
        | inl runs ↦ rw (match_or_insert_type, runs) (upsert_all-IsWellFormed name _ _ z w)
        | inr skips ↦ rw (match_or_insert_type, skips) w
      ]

  pub match_or_insert-IsWellFormed :
      (name : C.Name) (ips : List IpAddr) (z : Zone C)
      → IsWellFormed C z
      → IsWellFormed C (match_or_insert C name ips z)
  unfolding match_or_insert
  match_or_insert-IsWellFormed name ips z w =
      match_or_insert_type-IsWellFormed name ips RecordType.aaaa _
        (match_or_insert_type-IsWellFormed name ips RecordType.a z w)

  -- A part of a well-typed zone is well typed.
  lookup_part :
      (z z' : Zone C)
      → ((k : RrKey C.LowerName) (set : C.RecordSet)
          → lookup_key C k z' ≡ some set
          → lookup_key C k z ≡ some set)
      → IsWellTyped C z
      → IsWellTyped C z'
  lookup_part z z' part typed k set e = typed k set (part k set e)

  pub remove-IsWellFormed :
      (j : RrKey C.LowerName) (z : Zone C)
      → IsWellFormed C z
      → IsWellFormed C (Dict.remove (key_eq C.lower_eq) j z)
  remove-IsWellFormed j z w = record {
    nodup = Dict.remove-NodupKeys (key_eq C.lower_eq) j z w.nodup;
    typed =
        lookup_part z _ (λ k set e. ground (arith, Dict.lookup-remove (key_eq C.lower_eq) k j z, e))
          w.typed;
  }

  remove_all-IsWellFormed :
      (keys : List (RrKey C.LowerName)) (z : Zone C)
      → IsWellFormed C z
      → IsWellFormed C (remove_all C keys z)
  unfolding remove_all
  remove_all-IsWellFormed [] z w = w
  remove_all-IsWellFormed (k ∷ keys) z w =
      remove_all-IsWellFormed keys _ (remove-IsWellFormed k z w)

  pub prune_records-IsWellFormed :
      IsNamesLawful C
      → (written : List C.LowerName) (z : Zone C) → IsWellFormed C z
      → IsWellFormed C (prune_records C written z).1
  unfolding prune_records
  prune_records-IsWellFormed N written z w =
      rw (expired-eq-ok C N written z) (remove_all-IsWellFormed (expired_keys C written z) z w)

  set_type-add_all :
      (set : C.RecordSet) (ds : List (RData C.Name))
      → C.set_type (add_all C set ds) ≡ C.set_type set
  unfolding add_all
  set_type-add_all set [] = refl
  set_type-add_all set (d ∷ ds) =
      set_type-add_all (C.add_rdata set d) ds ∙ L.set_type-add_rdata set d

  -- A set that `prune_hosts` rebuilds keeps its type.
  set_type-pruned :
      (serial : ℕ) (ips : List IpAddr) (k : RrKey C.LowerName) (o : Option C.RecordSet)
      (set : C.RecordSet)
      → pruned C serial ips k o ≡ some set
      → ((s : C.RecordSet) → o ≡ some s → C.set_type s ≡ k.record_type)
      → C.set_type set ≡ k.record_type
  set_type-pruned serial ips k none set e typed = cc
  set_type-pruned serial ips k (some s) set e typed =
      let same : C.set_type (rebuilt C serial (C.of_lower k.name) ips s) ≡ C.set_type s =
        set_type-add_all _ _ ∙ L.set_type-new_set (C.of_lower k.name) (C.set_type s) serial in
      ground (arith, typed s refl, same, e)

  pub prune_hosts-IsWellFormed :
      IsNamesLawful C
      → (hosts : HostsFile C) (z : Zone C) → IsWellFormed C z
      → IsWellFormed C (prune_hosts C hosts z).1
  prune_hosts-IsWellFormed N hosts z w = record {
    nodup = prune_hosts-NodupKeys C N hosts z w.nodup;
    typed = λ k set e.
        set_type-pruned (C.serial z) (listed C (C.of_lower k.name) hosts) k (lookup_key C k z) set
          (sym (prune_hosts_lem C N hosts z k w.nodup).1 ∙ e) (w.typed k);
  }

  pub configure_ptr-IsWellFormed :
      IsNamesLawful C
      → (ptr fqdn : C.Name) (z : Zone C) → IsWellFormed C z
      → IsWellFormed C (configure_ptr C ptr fqdn z).1
  configure_ptr-IsWellFormed N ptr fqdn z w =
      rw (configure_ptr-cases C N L ptr fqdn z)
        (elim (Bool-cases (is_stored C (here C N L ptr fqdn) z (RData.ptr fqdn))) [
          | inl present ↦ rw present w
          | inr absent ↦
              rw absent (upsert-IsWellFormed _ _ _ (remove-IsWellFormed (here C N L ptr fqdn) z w))
        ])
