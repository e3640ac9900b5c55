-- ===== src/Tests/Refreshes.antt =====
-- The theorems on refreshes and their parts (src/authority.rs, src/hosts.rs) at concrete inputs.
use zeronsd.Base.{
  ◌≡◌, ◌⊎◌, refl, true, false, any, ◌||◌, Option, none, some, List, [], ◌∷◌, ◌++◌, Text, ok, panic,
}
use zeronsd.Base.Dict
use zeronsd.Base.Exec.{for_each}
use zeronsd.Net.{IpAddr, v4}
use zeronsd.Dns.{RecordType, RrKey, rdata_same, type_same}
use zeronsd.Central.{Network, Member}
use zeronsd.Crates.Laws.{lookup_key}
use zeronsd.Hostname.{trim, to_fqdn, to_hostname, translate}
use zeronsd.Hosts.{parse_hosts}
use zeronsd.Hosts.Total.{HasTooLong, parse_hosts_total}
use zeronsd.Utils.{parse_member_name}
use zeronsd.Authority.{
  HostsFile, rdata_of_ip, upsert_all, replace_ip_record, must_insert, match_or_insert_type,
  match_or_insert, prune_hosts, prune_records, remove_all, expired, contains_name,
}
use zeronsd.Authority.WellFormed.{IsWellFormed}
use zeronsd.Authority.Union.{has_record}
use zeronsd.Authority.PruneHosts.Grouping.{listed}
use zeronsd.Members.{
  ZtRecord, new_record, assigned_ips, with_computed, insert_member, write_name, write_wildcard,
  write_custom,
}
use zeronsd.Refresh.{
  ZtAuthority, insert_hosts, start_refresh, refresh_hosts, on_forward, assigned_networks,
}
use zeronsd.Refresh.Configure.{
  configure_members, refresh_members, refresh_config, refresh_assigned, refresh_each,
  configure_member, reverse_member, rfc4193_member, prune_all, prune_forward, Round,
}
use zeronsd.Refresh.Forward.{records_of}
use zeronsd.Refresh.Result.{own_names, member_names, configure_members_sound}
use zeronsd.Refresh.Answers.{AllAnswered, configure_members-answers}
use zeronsd.Refresh.Owners.{is_shared, has_address, owners}
use zeronsd.Refresh.Networks.{ipv6_networks}
use zeronsd.Refresh.Exact.{configure_members-owners}
use zeronsd.Refresh.HostAnswers.{is_listed, prune_hosts-insert_hosts}
use zeronsd.Tests.Toy.{ToySet, ToyNetwork, toy, toy-IsNamesLawful, toy-IsZoneLawful}

abbrev pub domain : Text
domain = b'z' ∷ []

abbrev pub seven : IpAddr
seven = v4 (record { o0 = 10; o1 = 0; o2 = 0; o3 = 7 })

abbrev pub laptop : Member
laptop = record {
  network_id = some (b'0' ∷ []);
  node_id = some (b'l' ∷ []);
  name = none;
  config = some (record { ip_assignments = some ((b'7' ∷ []) ∷ []) });
}

abbrev pub network : Network
network = record {
  id = some (b'0' ∷ []);
  config = some (record { dns = none; v6_assign_mode = none });
}

abbrev pub server : ZtAuthority toy
server = record {
  network_id = [];
  hosts_file = none;
  reverse_authority_map = [];
  forward_authority = record { domain_name = domain; authority = [] };
  wildcard = false;
  update_interval = 30;
  hosts = none;
}

pub empty-IsWellFormed : IsWellFormed toy []
unfolding Dict.lookup
empty-IsWellFormed = record { nodup = tt; typed = λ k set e. cc }

abbrev laptop_key : RrKey Text
laptop_key = record {
  name = b'z' ∷ b't' ∷ b'-' ∷ b'l' ∷ b'.' ∷ b'z' ∷ [];
  record_type = RecordType.a;
}

abbrev laptop_set : ToySet
laptop_set = record { kind = RecordType.a; content = rdata_of_ip seven ∷ [] }

refreshed :
    ((configure_members toy network (laptop ∷ []) server).0 ≡ ok tt)
    × (lookup_key toy laptop_key
          (configure_members toy network (laptop ∷ []) server).1.forward_authority.authority
        ≡ some laptop_set)
unfolding configure_members refresh_members refresh_config refresh_assigned refresh_each
    configure_member new_record assigned_ips with_computed parse_member_name to_fqdn to_hostname
    translate trim refresh_hosts start_refresh on_forward insert_member write_name write_wildcard
    write_custom reverse_member rfc4193_member prune_all prune_forward prune_records expired
    remove_all match_or_insert match_or_insert_type must_insert replace_ip_record upsert_all
    assigned_networks for_each Dict.lookup Dict.insert Dict.remove type_same rdata_same
refreshed = (refl, refl)

configure_members-answers_example :
    (sixplane : Option ToyNetwork) × (rfc4193 : Option ToyNetwork) × (rs : List (ZtRecord toy))
    × (ipv6_networks toy network ≡ ok (sixplane, rfc4193))
    × (records_of toy server sixplane rfc4193 (laptop ∷ []) ≡ ok rs)
    × AllAnswered toy
        (configure_members toy network (laptop ∷ []) server).1.forward_authority.authority
        rs
configure_members-answers_example =
    configure_members-answers toy toy-IsZoneLawful toy-IsNamesLawful server network (laptop ∷ [])
      empty-IsWellFormed refreshed.0

configure_members_sound_example :
    (sixplane : Option ToyNetwork) × (rfc4193 : Option ToyNetwork) × (rs : List (ZtRecord toy))
    × (records_of toy server sixplane rfc4193 (laptop ∷ []) ≡ ok rs)
    × ((contains_name toy (own_names toy domain none ++ member_names toy rs) laptop_key.name
          || type_same RecordType.a RecordType.soa)
        ≡ true)
configure_members_sound_example =
    configure_members_sound toy toy-IsNamesLawful toy-IsZoneLawful server network (laptop ∷ [])
      laptop_key laptop_set empty-IsWellFormed refreshed.0 refreshed.1

abbrev laptop_name : Text
laptop_name = b'z' ∷ b't' ∷ b'-' ∷ b'l' ∷ b'.' ∷ b'z' ∷ []

configure_members-owners_example :
    (sixplane rfc4193 : Option ToyNetwork) × (rs : List (ZtRecord toy)) × (ipv6_networks toy network
      ≡ ok (sixplane, rfc4193))
    × (records_of toy server sixplane rfc4193 (laptop ∷ []) ≡ ok rs)
    × ((is_shared toy laptop_name rs ≡ true)
        ⊎ (has_record toy
              (configure_members toy network (laptop ∷ []) server).1.forward_authority.authority
              laptop_name
              (rdata_of_ip seven)
            ≡ any (has_address toy laptop_name (rdata_of_ip seven)) (owners toy laptop_name rs)))
unfolding Dict.lookup
configure_members-owners_example =
    configure_members-owners toy toy-IsNamesLawful toy-IsZoneLawful server network (laptop ∷ [])
      laptop_name (rdata_of_ip seven) empty-IsWellFormed (refl, refl) refl refreshed.0

abbrev pub printer : Text
printer = b'p' ∷ []

abbrev hosts : HostsFile toy
hosts = (seven, printer ∷ []) ∷ []

prune_hosts-insert_hosts_example :
    has_record toy (prune_hosts toy hosts (insert_hosts toy hosts [])).1 printer (rdata_of_ip seven)
    ≡ is_listed toy hosts printer (rdata_of_ip seven)
unfolding listed
prune_hosts-insert_hosts_example =
    prune_hosts-insert_hosts toy toy-IsNamesLawful toy-IsZoneLawful hosts [] printer
      (rdata_of_ip seven) empty-IsWellFormed refl

-- A round without a hosts file, and with one member.
abbrev pub round : Round toy
round = record { read = λ path. none; fetched = some (network, laptop ∷ []) }

parse_hosts_total_example :
    ((table : HostsFile toy) × (parse_hosts toy domain
          (λ path. some (b'7' ∷ 32 ∷ b'l' ∷ []))
          (some [])
        ≡ ok table))
    ⊎ ((parse_hosts toy domain (λ path. some (b'7' ∷ 32 ∷ b'l' ∷ [])) (some []) ≡ panic)
        × HasTooLong toy domain (b'7' ∷ 32 ∷ b'l' ∷ []))
parse_hosts_total_example =
    parse_hosts_total toy domain (λ path. some (b'7' ∷ 32 ∷ b'l' ∷ [])) [] (b'7' ∷ 32 ∷ b'l' ∷ [])
      refl
