-- ===== src/Tests/Zones.antt =====
-- The theorems on zones (src/authority.rs) at concrete zones.
use zeronsd.Base.{◌≡◌, refl, true, none, some, [], ◌∷◌, Text, ok, arith, ℕ}
use zeronsd.Base.Dict
use zeronsd.Net.{IpAddr, v4}
use zeronsd.Dns.{RecordType, RData, RrKey, contains_rdata, rdata_same, type_same, type_same_iff}
use zeronsd.Crates.{Zone}
use zeronsd.Crates.Laws.{lookup_key, is_stored, IsWellTyped}
use zeronsd.Base.Exec.{for_each}
use zeronsd.Authority.{
  add_all, prune_host, prune_host_entry, hosts_map, push_ip, push_one, HostsFile, rdata_of_ip,
  match_or_insert, prune_hosts, prune_records, configure_ptr, key_of,
}
use zeronsd.Authority.Insert.{match_or_insert_keeps}
use zeronsd.Authority.Answers.{match_or_insert_fresh, match_or_insert_skips}
use zeronsd.Authority.Prune.{prune_records_lem}
use zeronsd.Authority.PruneHosts.Grouping.{listed}
use zeronsd.Authority.PruneHosts.Final.{prune_hosts_lem, prune_hosts_sound}
use zeronsd.Authority.Ptr.{configure_ptr_lem}
use zeronsd.Tests.Toy.{ToySet, toy, toy-IsNamesLawful, toy-IsZoneLawful}

abbrev ip : ℕ → IpAddr
ip n = v4 (record { o0 = 10; o1 = 0; o2 = 0; o3 = n })

abbrev a_record : ℕ → RData Text
a_record n = rdata_of_ip (ip n)

abbrev laptop : Text
laptop = b'l' ∷ []

abbrev router : Text
router = b'r' ∷ []

abbrev a_key : Text → RrKey Text
a_key name = record { name = name; record_type = RecordType.a }

abbrev a_set : ℕ → ToySet
a_set n = record { kind = RecordType.a; content = a_record n ∷ [] }

-- The laptop has 10.0.0.7, the router 10.0.0.1.
abbrev office : Zone toy
office = (a_key laptop, a_set 7) ∷ (a_key router, a_set 1) ∷ []

abbrev office_hosts : HostsFile toy
office_hosts = (ip 8, laptop ∷ []) ∷ []

office-IsWellTyped : IsWellTyped toy office
unfolding Dict.lookup
office-IsWellTyped k set e = ground (arith, type_same_iff RecordType.a k.record_type, e)

prune_records_lem_example :
    ((prune_records toy (router ∷ []) office).0 ≡ ok tt)
    × (lookup_key toy (a_key laptop) (prune_records toy (router ∷ []) office).1 ≡ none)
unfolding Dict.lookup type_same rdata_same
prune_records_lem_example =
    prune_records_lem toy toy-IsNamesLawful (router ∷ []) office (a_key laptop) (refl, (refl, tt))

prune_hosts_lem_example :
    ((prune_hosts toy office_hosts office).0 ≡ ok tt)
    × (lookup_key toy (a_key laptop) (prune_hosts toy office_hosts office).1 ≡ some (a_set 8))
unfolding Dict.lookup type_same rdata_same add_all listed
prune_hosts_lem_example =
    prune_hosts_lem toy toy-IsNamesLawful office_hosts office (a_key laptop) (refl, (refl, tt))

prune_hosts_sound_example : contains_rdata toy.name_eq (a_record 8 ∷ []) (a_record 8) ≡ true
unfolding type_same rdata_same Dict.lookup Dict.insert Dict.remove add_all prune_hosts prune_host
    prune_host_entry for_each hosts_map push_ip push_one listed
prune_hosts_sound_example =
    prune_hosts_sound toy toy-IsZoneLawful toy-IsNamesLawful office_hosts office (a_key laptop)
      (a_record 8) (refl, (refl, tt)) office-IsWellTyped refl refl

match_or_insert_fresh_example :
    is_stored toy (a_key laptop) (match_or_insert toy laptop (ip 7 ∷ ip 8 ∷ []) []) (a_record 8)
    ≡ true
unfolding Dict.lookup type_same rdata_same
match_or_insert_fresh_example =
    match_or_insert_fresh toy toy-IsZoneLawful laptop (ip 7 ∷ ip 8 ∷ []) [] (a_record 8) refl refl
      refl

-- The address that the laptop no longer has is still there.
match_or_insert_keeps_example :
    is_stored toy (a_key laptop) (match_or_insert toy laptop (ip 8 ∷ []) office) (a_record 7) ≡ true
unfolding Dict.lookup type_same rdata_same
match_or_insert_keeps_example =
    match_or_insert_keeps toy toy-IsZoneLawful laptop (ip 8 ∷ []) office laptop (a_record 7) refl

-- The second address of the laptop is not added.
match_or_insert_skips_example : match_or_insert toy laptop (ip 7 ∷ ip 8 ∷ []) office ≡ office
unfolding Dict.lookup type_same rdata_same
match_or_insert_skips_example =
    match_or_insert_skips toy toy-IsZoneLawful laptop (ip 7 ∷ ip 8 ∷ []) office refl refl

configure_ptr_lem_example :
    ((configure_ptr toy router laptop office).0 ≡ ok tt)
    × (is_stored toy
          (key_of toy router RecordType.ptr)
          (configure_ptr toy router laptop office).1
          (RData.ptr laptop)
        ≡ true)
unfolding Dict.lookup type_same rdata_same
configure_ptr_lem_example =
    configure_ptr_lem toy toy-IsNamesLawful toy-IsZoneLawful router laptop office (RData.ptr laptop)
