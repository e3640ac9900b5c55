-- ===== src/Authority/History.antt =====
-- What a query can see of a zone while the methods of `RecordAuthority` in src/authority.rs run:
-- the zones between their commits. A commit is what is done under one lock on the records.
use zeronsd.Base.{ℕ, ◌≡◌, refl, true, List, [], ◌∷◌, All, Bool-cases, inl, inr}
use zeronsd.Base.Dict
use zeronsd.Net.{IpAddr}
use zeronsd.Dns.{RecordType, RData, Record, key_eq, to_record_type}
use zeronsd.Crates.{Crates, Zone}
use zeronsd.Crates.Laws.{IsNamesLawful, IsZoneLawful, accumulates, lookup_key, is_stored}
use zeronsd.Authority.{
  HostsFile, key_of, upsert_all, replace_ip_record, must_insert, match_or_insert_type,
  match_or_insert, prune_hosts, prune_records, configure_ptr,
}
use zeronsd.Authority.Insert.{AllAddresses, map-AllAddresses, accumulates_of_address}
use zeronsd.Authority.Ptr.{configure_ptr-cases, here}

-- One record is added; the PTR set of a name is removed, before a new one is added; the sets of the
-- hosts of a hosts file are rebuilt, of which `H` holds; what was not written is removed.
pub data Commit (C : Crates) (H : HostsFile C → Type 0) : Zone C → Zone C → Type 0 where
  add :
      (r : Record C.Name) (serial : ℕ) (z : Zone C)
      → accumulates (to_record_type r.rdata) ≡ true
      → Commit C H z (C.upsert r serial z)
  drop_ptr :
      (ptr : C.Name) (z : Zone C)
      → Commit C H z (Dict.remove (key_eq C.lower_eq) (key_of C ptr RecordType.ptr) z)
  rebuild_hosts :
      (hosts : HostsFile C) (z : Zone C) → H hosts → Commit C H z (prune_hosts C hosts z).1
  drop_expired :
      (written : List C.LowerName) (z : Zone C) → Commit C H z (prune_records C written z).1

-- The commits between two zones, one after the other.
pub data History (C : Crates) (H : HostsFile C → Type 0) (z : Zone C) : Zone C → Type 0 where
  unchanged : History C H z z
  later : {t u : Zone C} → History C H z t → Commit C H t u → History C H z u

module _ (C : Crates) (H : HostsFile C → Type 0) where
  -- All zones of a history, the last one first.
  abbrev pub zones : {z t : Zone C} → History C H z t → List (Zone C)
  zones {z} unchanged = z ∷ []
  zones {z} {t} (later h c) = t ∷ zones h

  -- What every commit keeps holds of all zones of a history, if it holds of the first.
  pub zones-All :
      (P : Zone C → Type 0)
      → ((t u : Zone C) → Commit C H t u → P t → P u)
      → {z t : Zone C} (h : History C H z t) → P z
      → P t × All P (zones h)
  zones-All P keep unchanged p = (p, (p, tt))
  zones-All P keep (later {t} {u} h c) p =
      let (last, all) = zones-All P keep h p in let now = keep t u c last in (now, (now, all))

  upsert_all-History :
      (name : C.Name) (ds : List (RData C.Name)) (serial : ℕ) (z t : Zone C)
      → AllAddresses ds
      → History C H z t
      → History C H z (upsert_all C name ds serial t)
  unfolding upsert_all
  upsert_all-History name [] serial z t hs h = h
  upsert_all-History name (d ∷ ds) serial z t (hd, hs) h =
      upsert_all-History name ds serial z _ hs
        (later h (add _ serial t (accumulates_of_address _ hd)))

  match_or_insert_type-History :
      (name : C.Name) (ips : List IpAddr) (rt : RecordType) (z t : Zone C)
      → History C H z t
      → History C H z (match_or_insert_type C name ips rt t)
  unfolding match_or_insert_type replace_ip_record
  match_or_insert_type-History name ips rt z t h =
      elim (Bool-cases (must_insert C ips rt (lookup_key C (key_of C name rt) t))) [
        | inl runs ↦
            rw (match_or_insert_type, runs)
              (upsert_all-History name _ _ z t (map-AllAddresses _ ips) h)
        | inr skips ↦ rw (match_or_insert_type, skips) h
      ]

  pub match_or_insert-History :
      (name : C.Name) (ips : List IpAddr) (z t : Zone C)
      → History C H z t
      → History C H z (match_or_insert C name ips t)
  unfolding match_or_insert
  match_or_insert-History name ips z t h =
      match_or_insert_type-History name ips RecordType.aaaa z _
        (match_or_insert_type-History name ips RecordType.a z t h)

  pub configure_ptr-History :
      (N : IsNamesLawful C) (L : IsZoneLawful C) (ptr fqdn : C.Name) (z t : Zone C)
      → History C H z t
      → History C H z (configure_ptr C ptr fqdn t).1
  configure_ptr-History N L ptr fqdn z t h =
      rw (configure_ptr-cases C N L ptr fqdn t)
        (elim (Bool-cases (is_stored C (here C N L ptr fqdn) t (RData.ptr fqdn))) [
          | inl present ↦ rw present h
          | inr absent ↦ rw absent (later (later h (drop_ptr ptr t)) (add _ _ _ refl))
        ])
