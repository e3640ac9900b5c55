-- ===== src/Crates/Laws.antt =====
-- What the theorems assume of the libraries: documented behaviour, one record for each topic.
use zeronsd.Net.{Ipv6, IpAddr, v6}
use zeronsd.Base.{
  ℕ, ◌≤◌, ◌≡◌, ◌≢◌, Bool, true, false, ◌||◌, Option, none, some, List, [], ◌∷◌, ◌++◌, is_empty,
}
use zeronsd.Base.Dict
use zeronsd.Dns.{RecordType, RData, Record, RrKey, Soa, key_eq, rdata_same, to_record_type}
use zeronsd.Dns.{contains_rdata}
use zeronsd.Crates.{Crates, Zone}

-- Names up to `==` are lower-case names, and a lower-case name is a name.
pub record IsNamesLawful (C : Crates) : Type 0 where
  pub lower-of_lower : (l : C.LowerName) → C.lower (C.of_lower l) ≡ l
  pub of_lower-lower : (n : C.Name) → C.of_lower (C.lower n) ≡ n
  pub lower_into_name_lem : (l : C.LowerName) → C.lower_into_name l ≡ some (C.of_lower l)
  pub name_into_name_lem : (n : C.Name) → C.name_into_name n ≡ some n

-- Types of which a record set keeps every record that is put into it.
abbrev pub accumulates : RecordType → Bool
accumulates RecordType.a = true
accumulates RecordType.aaaa = true
accumulates RecordType.ptr = true
accumulates RecordType.ns = false
accumulates RecordType.soa = false

module _ (C : Crates) where
  -- `RrKey::new(record.name().into(), record.rr_type())`
  abbrev pub record_key : Record C.Name → RrKey C.LowerName
  record_key r = record { name = C.lower r.name; record_type = to_record_type r.rdata }

  abbrev pub rdatas_of : Option C.RecordSet → List (RData C.Name)
  rdatas_of none = []
  rdatas_of (some set) = C.rdatas set

  abbrev pub lookup_key : RrKey C.LowerName → Zone C → Option C.RecordSet
  lookup_key = Dict.lookup (key_eq C.lower_eq)

  -- The data that the zone has under a key; nothing under an unknown key.
  abbrev pub stored : RrKey C.LowerName → Zone C → List (RData C.Name)
  stored k z = rdatas_of (lookup_key k z)

  abbrev pub is_stored : RrKey C.LowerName → Zone C → RData C.Name → Bool
  is_stored k z d = contains_rdata C.name_eq (stored k z) d

  -- A record set has the type of its key.
  abbrev pub IsWellTyped : Zone C → Type 0
  IsWellTyped z =
      (k : RrKey C.LowerName) (set : C.RecordSet)
      → lookup_key k z ≡ some set
      → C.set_type set ≡ k.record_type

-- Record sets, and `upsert`: it puts a record into the set of its key, and touches no other.
pub record IsZoneLawful (C : Crates) : Type 0 where
  pub rdatas-new_set : (n : C.Name) (t : RecordType) (s : ℕ) → C.rdatas (C.new_set n t s) ≡ []
  pub set_type-new_set : (n : C.Name) (t : RecordType) (s : ℕ) → C.set_type (C.new_set n t s) ≡ t
  pub contains-add_rdata :
      (set : C.RecordSet) (e d : RData C.Name)
      → accumulates (to_record_type e) ≡ true
      → C.set_type set ≡ to_record_type e
      → contains_rdata C.name_eq (C.rdatas (C.add_rdata set e)) d
        ≡ (rdata_same C.name_eq e d || contains_rdata C.name_eq (C.rdatas set) d)
  pub set_type-add_rdata :
      (set : C.RecordSet) (e : RData C.Name) → C.set_type (C.add_rdata set e) ≡ C.set_type set
  pub set_is_empty_lem : (set : C.RecordSet) → C.set_is_empty set ≡ is_empty (C.rdatas set)
  pub lookup-upsert_other :
      (r : Record C.Name) (s : ℕ) (z : Zone C) (k : RrKey C.LowerName)
      → k ≢ record_key C r
      → lookup_key C k (C.upsert r s z) ≡ lookup_key C k z
  pub is_stored-upsert :
      (r : Record C.Name) (s : ℕ) (z : Zone C) (d : RData C.Name)
      → accumulates (to_record_type r.rdata) ≡ true
      → is_stored C (record_key C r) (C.upsert r s z) d
        ≡ (rdata_same C.name_eq r.rdata d || is_stored C (record_key C r) z d)
  pub upsert-IsWellTyped :
      (r : Record C.Name) (s : ℕ) (z : Zone C) → IsWellTyped C z → IsWellTyped C (C.upsert r s z)
  pub upsert-NodupKeys :
      (r : Record C.Name) (s : ℕ) (z : Zone C)
      → Dict.NodupKeys (key_eq C.lower_eq) z
      → Dict.NodupKeys (key_eq C.lower_eq) (C.upsert r s z)

-- `IpNetwork::new(ip, prefix)` has that address, and accepts every IPv6 prefix up to 128.
pub record IsNetworksLawful (C : Crates) : Type 0 where
  pub network_ip-new_network :
      (ip : IpAddr) (prefix : ℕ) (n : C.IpNetwork)
      → C.new_network ip prefix ≡ some n
      → C.network_ip n ≡ ip
  pub new_network_v6 :
      (s : Ipv6) (prefix : ℕ)
      → prefix ≤ 128
      → (n : C.IpNetwork) × (C.new_network (v6 s) prefix ≡ some n)

-- The sets of single records, as `RecordSet::new` and `insert` make them.
abbrev pub sets_of : (C : Crates) → ℕ → List (Record C.Name) → Zone C
sets_of C serial [] = []
sets_of C serial (r ∷ rs) =
    Dict.insert (key_eq C.lower_eq) (record_key C r)
      (C.insert_record (C.new_set r.name (to_record_type r.rdata) serial) r serial)
      (sets_of C serial rs)

-- `InMemoryAuthority::new` puts the records of the given sets into new ones, with the serial number
-- of the SOA record; and a record put into a set does not change the type of the set.
pub record IsAuthorityLawful (C : Crates) : Type 0 where
  pub lookup-new_authority :
      (origin : C.Name) (rs : List (Record C.Name)) (r : Record C.Name) (soa : Soa C.Name)
      (z : Zone C) (k : RrKey C.LowerName)
      → r.rdata ≡ RData.soa soa
      → C.new_authority origin (sets_of C soa.serial (rs ++ r ∷ [])) ≡ some z
      → lookup_key C k z ≡ lookup_key C k (sets_of C soa.serial (rs ++ r ∷ []))
  pub new_authority-NodupKeys :
      (origin : C.Name) (m z : Zone C)
      → C.new_authority origin m ≡ some z
      → Dict.NodupKeys (key_eq C.lower_eq) m
      → Dict.NodupKeys (key_eq C.lower_eq) z
  pub set_type-insert_record :
      (set : C.RecordSet) (r : Record C.Name) (s : ℕ)
      → to_record_type r.rdata ≡ C.set_type set
      → C.set_type (C.insert_record set r s) ≡ C.set_type set
