-- ===== src/Authority.antt =====
-- `RecordAuthority` of src/authority.rs: the operations on the records of one zone.
-- The `Arc<InMemoryAuthority>` that a `RecordAuthority` holds is a value here, and each operation
-- returns the zone that it leaves: every clone of the `Arc` sees that zone.
-- Reading `data().unwrap()` of a record never panics, since every record is stored with data.
pub mod Insert
pub mod Fresh
pub mod Answers
pub mod Union
pub mod Keeps
pub mod Answered
pub mod Prune
pub mod PruneHosts
pub mod Ptr
pub mod WellFormed
pub mod History
use zeronsd.Base.{
  ℕ, Bool, true, false, not, ◌&&◌, ◌||◌, Option, none, some, List, [], ◌∷◌, ◌++◌, map, all, any,
  filter, is_empty, if◌then◌else◌, Outcome, ok, err, panic, ◌>>=◌, or_err, or_panic,
}
use zeronsd.Base.Dict
use zeronsd.Base.Exec
use zeronsd.Base.Exec.{Exec, for_each}
use zeronsd.Net.{IpAddr, v4, v6, ip_eq}
use zeronsd.Dns.{
  RecordType, RData, Record, RrKey, key_eq, rdata_same, contains_rdata, to_record_type, type_same,
}
use zeronsd.Crates.{Crates, Zone}

-- `RData::A` or `RData::AAAA` of an address
abbrev pub rdata_of_ip : {Name : Type 0} → IpAddr → RData Name
rdata_of_ip (v4 x) = RData.a x
rdata_of_ip (v6 x) = RData.aaaa x

-- `matches!((ip, rt), …)`: the address has the version of the record type.
abbrev pub has_type : RecordType → IpAddr → Bool
has_type RecordType.a (v4 x) = true
has_type RecordType.aaaa (v6 x) = true
has_type _ _ = false

pub record RecordAuthority (C : Crates) : Type 0 where
  pub domain_name : C.LowerName
  pub authority : Zone C

-- `HostsFile`: the names of each address
abbrev pub HostsFile : Crates → Type 0
HostsFile C = List (IpAddr × List C.Name)

module _ (C : Crates) where
  abbrev pub key_of : C.Name → RecordType → RrKey C.LowerName
  key_of name rt = record { name = C.lower name; record_type = rt }

  -- The loop of `replace_ip_record`.
  unfoldable pub upsert_all : C.Name → List (RData C.Name) → ℕ → Zone C → Zone C
  upsert_all fqdn [] serial z = z
  upsert_all fqdn (rdata ∷ rdatas) serial z =
      upsert_all fqdn rdatas serial
        (C.upsert (record { name = fqdn; ttl = 60; rdata = rdata }) serial z)

  unfoldable pub replace_ip_record : C.Name → List (RData C.Name) → Zone C → Zone C
  replace_ip_record fqdn rdatas z = upsert_all fqdn rdatas (C.serial z) z

  -- The test of `match_or_insert` on the set that the zone has for the name and the type.
  unfoldable pub must_insert : List IpAddr → RecordType → Option C.RecordSet → Bool
  must_insert ips rt (some set) =
      C.set_is_empty set
      || (not (all (contains_rdata C.name_eq (map rdata_of_ip ips)) (C.rdatas set))
          && not (is_empty (filter (has_type rt) ips)))
  must_insert ips rt none = not (is_empty (filter (has_type rt) ips))

  -- One round of `match_or_insert`.
  unfoldable pub match_or_insert_type : C.Name → List IpAddr → RecordType → Zone C → Zone C
  match_or_insert_type name ips rt z =
      if must_insert ips rt (Dict.lookup (key_eq C.lower_eq) (key_of name rt) z)
      then replace_ip_record name (map rdata_of_ip ips) z
      else z

  unfoldable pub match_or_insert : C.Name → List IpAddr → Zone C → Zone C
  match_or_insert name ips z =
      match_or_insert_type name ips RecordType.aaaa (match_or_insert_type name ips RecordType.a z)

  -- `hosts_map`, filled by `prune_hosts`: an address is pushed to the list of a host, which is
  -- made first if the host has none.
  unfoldable pub push_one :
      IpAddr → C.Name → List (C.Name × List IpAddr) → List (C.Name × List IpAddr)
  push_one ip host m = elim (Dict.lookup C.name_eq host m) [
    | none ↦ Dict.insert C.name_eq host (ip ∷ []) m
    | some ips ↦ Dict.insert C.name_eq host (ips ++ ip ∷ []) m
  ]

  unfoldable pub push_ip :
      IpAddr → List C.Name → List (C.Name × List IpAddr) → List (C.Name × List IpAddr)
  push_ip ip [] m = m
  push_ip ip (host ∷ hosts) m = push_ip ip hosts (push_one ip host m)

  unfoldable pub hosts_map : HostsFile C → List (C.Name × List IpAddr) → List (C.Name × List IpAddr)
  hosts_map [] m = m
  hosts_map ((ip, names) ∷ hosts) m = hosts_map hosts (push_ip ip names m)

  -- `for rdata in rdatas { new_rset.add_rdata(rdata) }`
  unfoldable pub add_all : C.RecordSet → List (RData C.Name) → C.RecordSet
  add_all set [] = set
  add_all set (rdata ∷ rdatas) = add_all (C.add_rdata set rdata) rdatas

  -- The record data of the addresses of one type.
  abbrev pub typed_rdatas : RecordType → List IpAddr → List (RData C.Name)
  typed_rdatas rt ips = map rdata_of_ip (filter (has_type rt) ips)

  -- The body of the inner loop of `prune_hosts`.
  unfoldable pub prune_host_entry :
      ℕ → C.Name → List IpAddr → RrKey C.LowerName × C.RecordSet → Exec (Zone C) (Unit {0})
  prune_host_entry serial host ips (rrkey, rset) rr = elim (C.lower_into_name rrkey.name) [
    | none ↦ (panic, rr)
    | some key ↦
        let rt = C.set_type rset in
        let rdatas = typed_rdatas rt ips in
        if C.name_eq.same key host
          && (is_empty (C.rdatas rset)
              || not (all (contains_rdata C.name_eq rdatas) (C.rdatas rset)))
        then (
          ok tt,
          Dict.insert (key_eq C.lower_eq) rrkey (add_all (C.new_set key rt serial) rdatas)
              (Dict.remove (key_eq C.lower_eq) rrkey rr),
        )
        else (ok tt, rr)
  ]

  -- The body of the outer loop: the inner one walks a clone of the records.
  unfoldable pub prune_host : ℕ → C.Name × List IpAddr → Exec (Zone C) (Unit {0})
  prune_host serial (host, ips) rr = for_each (prune_host_entry serial host ips) rr rr

  unfoldable pub prune_hosts : HostsFile C → Exec (Zone C) (Unit {0})
  prune_hosts hosts rr = for_each (prune_host (C.serial rr)) (hosts_map hosts []) rr

  -- `written.contains(name)`
  abbrev pub contains_name : List C.LowerName → C.LowerName → Bool
  contains_name written name = any (λ n. C.lower_eq.same n name) written

  -- `rrkey_list`: the keys that `prune_records` will remove
  unfoldable pub expired : List C.LowerName → Zone C → Outcome (List (RrKey C.LowerName))
  expired written [] = ok []
  expired written ((rrkey, rs) ∷ rr) = or_err (C.lower_into_name rrkey.name) >>= λ name.
      expired written rr >>= λ keys. ok (
        if not (contains_name written (C.lower name))
          && not (type_same (C.set_type rs) RecordType.soa)
        then rrkey ∷ keys
        else keys)

  unfoldable pub remove_all : List (RrKey C.LowerName) → Zone C → Zone C
  remove_all [] rr = rr
  remove_all (rrkey ∷ keys) rr = remove_all keys (Dict.remove (key_eq C.lower_eq) rrkey rr)

  unfoldable pub prune_records : List C.LowerName → Exec (Zone C) (Unit {0})
  prune_records written rr =
      Exec.continue (expired written rr, rr) (λ keys rr. (ok tt, remove_all keys rr))

  -- `set_ptr_record`; it panics where `ptr` is no name.
  unfoldable pub set_ptr_record : C.Name → C.Name → Exec (Zone C) (Unit {0})
  set_ptr_record ptr fqdn rr = elim (C.name_into_name ptr) [
    | none ↦ (panic, rr)
    | some name ↦
        let records = Dict.remove (key_eq C.lower_eq) (key_of name RecordType.ptr) rr in
        let address : Record C.Name = record { name = ptr; ttl = 60; rdata = RData.ptr fqdn } in
        (ok tt, C.upsert address (C.serial records) records)
  ]

  unfoldable pub configure_ptr : C.Name → C.Name → Exec (Zone C) (Unit {0})
  configure_ptr ptr fqdn rr =
      elim (Dict.lookup (key_eq C.lower_eq) (key_of ptr RecordType.ptr) rr) [
        | some records ↦
            if not (any (λ d. rdata_same C.name_eq d (RData.ptr fqdn)) (C.rdatas records))
            then set_ptr_record ptr fqdn rr
            else (ok tt, rr)
        | none ↦ set_ptr_record ptr fqdn rr
      ]
