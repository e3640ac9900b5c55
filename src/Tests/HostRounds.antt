-- ===== src/Tests/HostRounds.antt =====
-- Whole refreshes (src/authority.rs, src/hosts.rs) at concrete inputs: one with a hosts file, and
-- one with a reverse zone.
use zeronsd.Base.{
  ◌≡◌, ◌≢◌, panic, refl, true, false, Option, none, some, List, [], ◌∷◌, Text, ok, ◌⊎◌, arith,
}
use zeronsd.Base.Dict
use zeronsd.Base.Exec.{for_each}
use zeronsd.Net.{IpAddr, v4, v6, ip_same}
use zeronsd.Dns.{RecordType, rdata_same, type_same, type_same_iff}
use zeronsd.Central.{Network}
use zeronsd.Crates.{Zone}
use zeronsd.Hostname.{to_wildcard, trim, to_fqdn, to_hostname, translate}
use mathlib.Core.List.{flatten}
use zeronsd.Hosts.{
  parse_hosts, parse_lines, parse_line, parse_fields, parse_names, append_names, lines, lines_from,
}
use zeronsd.Utils.{parse_member_name}
use zeronsd.Authority.{
  prune_host, prune_host_entry, hosts_map, push_ip, push_one, add_all, HostsFile, rdata_of_ip,
  upsert_all, replace_ip_record, must_insert, match_or_insert_type, match_or_insert, prune_hosts,
  prune_records, remove_all, expired, contains_name,
}
use zeronsd.Authority.Union.{has_record}
use zeronsd.Authority.PruneHosts.Grouping.{listed}
use zeronsd.Members.{
  ZtRecord, new_record, assigned_ips, with_computed, insert_member, write_name, write_wildcard,
  write_custom,
}
use zeronsd.Refresh.{
  ZtAuthority, configure_hosts, insert_names, insert_hosts, start_refresh, refresh_hosts,
  on_forward, assigned_networks, sixplane_network, rfc4193_network,
}
use zeronsd.Refresh.Configure.{
  configure_members, refresh_members, refresh_config, refresh_assigned, refresh_each,
  configure_member, reverse_member, rfc4193_member, prune_all, prune_forward, Round, find_members,
}
use zeronsd.Refresh.Forward.{records_of}
use zeronsd.Refresh.Result.{member_names}
use zeronsd.Refresh.HostRound.{configure_members-configure_hosts}
use zeronsd.Refresh.HostAnswers.{is_listed}
use zeronsd.Members.Pointers.{HasName}
use zeronsd.Authority.WellFormed.{IsWellFormed}
use zeronsd.Refresh.Health.{find_members_lasts}
use zeronsd.Refresh.Stays.{configure_members-agrees}
use zeronsd.Members.Wildcards.{HasWildcards}
use zeronsd.Refresh.Total.{configure_members_succeeds}
use zeronsd.Tests.Toy.{
  long_toy, long_toy-IsNamesLawful, long_toy-IsZoneLawful, ToyNetwork, toy, toy-IsNamesLawful,
  toy-IsZoneLawful,
}
use zeronsd.Tests.Refreshes.{domain, seven, laptop, network, server, empty-IsWellFormed}

abbrev read_printer : Text → Option Text
read_printer path = some (b'7' ∷ 32 ∷ b'p' ∷ [])

abbrev printer_hosts : HostsFile toy
printer_hosts = (seven, (b'p' ∷ b'.' ∷ b'z' ∷ []) ∷ []) ∷ []

abbrev with_hosts : ZtAuthority toy
with_hosts = record server { hosts_file = some [] }

printer_parsed : parse_hosts toy domain read_printer (some []) ≡ ok printer_hosts
unfolding parse_hosts parse_lines parse_line parse_fields parse_names append_names lines lines_from
    trim to_fqdn to_hostname translate Dict.lookup Dict.insert ip_same
printer_parsed = refl

both_ok :
    (configure_members toy network (laptop ∷ []) (configure_hosts toy read_printer with_hosts).1).0
    ≡ ok tt
unfolding configure_hosts insert_hosts insert_names parse_hosts parse_lines parse_line parse_fields
    parse_names append_names lines lines_from ip_same prune_hosts prune_host prune_host_entry
    hosts_map push_ip push_one add_all configure_members refresh_members refresh_config
    refresh_assigned refresh_each configure_member new_record assigned_ips with_computed
    parse_member_name to_fqdn to_hostname translate trim refresh_hosts start_refresh on_forward
    insert_member write_name write_wildcard write_custom reverse_member rfc4193_member prune_all
    prune_forward prune_records expired remove_all match_or_insert match_or_insert_type must_insert
    replace_ip_record upsert_all assigned_networks for_each Dict.lookup Dict.insert Dict.remove
    type_same rdata_same flatten
both_ok = refl

configure_members-configure_hosts_example :
    (sixplane : Option ToyNetwork) × (rfc4193 : Option ToyNetwork) × (rs : List (ZtRecord toy))
    × (records_of toy (configure_hosts toy read_printer with_hosts).1 sixplane rfc4193 (laptop ∷ [])
        ≡ ok rs)
    × ((contains_name toy (member_names toy rs) (b'p' ∷ b'.' ∷ b'z' ∷ []) ≡ true)
        ⊎ (has_record toy
              (configure_members toy network
                (laptop ∷ [])
                (configure_hosts toy read_printer with_hosts).1).1.forward_authority.authority
              (b'p' ∷ b'.' ∷ b'z' ∷ [])
              (rdata_of_ip seven)
            ≡ is_listed toy printer_hosts (b'p' ∷ b'.' ∷ b'z' ∷ []) (rdata_of_ip seven)))
unfolding listed
configure_members-configure_hosts_example =
    configure_members-configure_hosts toy toy-IsNamesLawful toy-IsZoneLawful with_hosts read_printer
      printer_hosts network (laptop ∷ []) (b'p' ∷ b'.' ∷ b'z' ∷ []) (rdata_of_ip seven)
      empty-IsWellFormed printer_parsed both_ok refl

-- A server with a reverse zone for 10.0.0.7, where names may have any length.
abbrev pub with_reverse : ZtAuthority long_toy
with_reverse = record {
  network_id = [];
  hosts_file = none;
  reverse_authority_map =
      (record { address = seven; bits = 24 }, record { domain_name = []; authority = [] }) ∷ [];
  forward_authority = record { domain_name = domain; authority = [] };
  wildcard = true;
  update_interval = 30;
  hosts = none;
}

abbrev pub laptop_name : Text
laptop_name = b'z' ∷ b't' ∷ b'-' ∷ b'l' ∷ b'.' ∷ b'z' ∷ []

abbrev pub laptop_record : ZtRecord long_toy
laptop_record = record {
  fqdn = laptop_name;
  custom_name = none;
  ptr_name = laptop_name;
  ips = seven ∷ [];
  wildcard = true;
}

pub laptop_made : records_of long_toy with_reverse none none (laptop ∷ []) ≡ ok (laptop_record ∷ [])
unfolding new_record assigned_ips with_computed parse_member_name to_fqdn to_hostname translate trim
laptop_made = refl

pub wildcards : HasWildcards long_toy laptop_record
unfolding to_wildcard
wildcards = ((42 ∷ b'.' ∷ laptop_name, refl), tt)

pub all_named : (ip : IpAddr) → HasName long_toy ip
all_named (v4 x) = (_, refl)
all_named (v6 x) = (_, refl)

-- Two rounds without a hosts file: Central answers only in the second.
abbrev quiet : Round long_toy
quiet = record { read = λ path. none; fetched = none }

abbrev answered_round : Round long_toy
answered_round = record { read = λ path. none; fetched = some (network, laptop ∷ []) }

-- An assignment mode of which all is off.
abbrev off_network : Network
off_network = record network {
  config = some (record {
    dns = none;
    v6_assign_mode = some (record { sixplane = some false; rfc4193 = some false });
  });
}

abbrev off_round : Round long_toy
off_round = record { read = λ path. none; fetched = some (off_network, laptop ∷ []) }

no_hosts : parse_hosts long_toy domain (λ path. none) none ≡ ok []
unfolding parse_hosts
no_hosts = refl

calm : parse_hosts long_toy domain (λ path. none) none ≢ panic
calm e = cc (no_hosts, e)

find_members_lasts_example :
    (find_members long_toy (quiet ∷ answered_round ∷ off_round ∷ []) with_reverse).0 ≡ ok tt
unfolding sixplane_network rfc4193_network
find_members_lasts_example =
    find_members_lasts long_toy with_reverse long_toy-IsNamesLawful long_toy-IsZoneLawful all_named
      (quiet ∷ answered_round ∷ off_round ∷ [])
      (
        (calm, tt),
        (
          (calm, (none, refl, laptop_record ∷ [], laptop_made, (wildcards, tt))),
          ((calm, (none, refl, laptop_record ∷ [], laptop_made, (wildcards, tt))), tt),
        ),
      )

-- The same, where the forward zone has the laptop's address from the round before.
abbrev laptop_zone : Zone long_toy
laptop_zone =
    (
      record { name = laptop_name; record_type = RecordType.a },
      record { kind = RecordType.a; content = rdata_of_ip seven ∷ [] },
    )
    ∷ []

abbrev after_round : ZtAuthority long_toy
after_round = record with_reverse {
  forward_authority = record { domain_name = domain; authority = laptop_zone };
}

laptop_zone-IsWellFormed : IsWellFormed long_toy laptop_zone
unfolding Dict.lookup type_same
laptop_zone-IsWellFormed = record {
  nodup = (refl, tt);
  typed = λ k set e. ground (arith, e, type_same_iff RecordType.a k.record_type);
}

again_ok : (configure_members long_toy network (laptop ∷ []) after_round).0 ≡ ok tt
again_ok =
    configure_members_succeeds long_toy long_toy-IsNamesLawful long_toy-IsZoneLawful after_round
      network (laptop ∷ []) none (laptop_record ∷ []) all_named refl laptop_made (wildcards, tt)

configure_members-agrees_example :
    has_record long_toy
      (configure_members long_toy network (laptop ∷ []) after_round).1.forward_authority.authority
      laptop_name
      (rdata_of_ip seven)
    ≡ true
unfolding Dict.lookup type_same rdata_same to_wildcard
configure_members-agrees_example =
    configure_members-agrees long_toy long_toy-IsNamesLawful long_toy-IsZoneLawful after_round
      network (laptop ∷ []) none none (laptop_record ∷ []) laptop_name (rdata_of_ip seven)
      laptop_zone-IsWellFormed tt refl again_ok refl laptop_made refl refl
