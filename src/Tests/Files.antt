-- ===== src/Tests/Files.antt =====
-- The theorems on hosts files and refreshes (src/hosts.rs, src/authority.rs) at concrete inputs.
use zeronsd.Base.{◌≡◌, refl, true, false, Option, none, some, [], ◌∷◌, Text, ok, panic, map}
use zeronsd.Base.Dict
use zeronsd.Net.{IpAddr, v4, v6, ip_same}
use zeronsd.Central.{Network, NetworkConfig, V6AssignMode}
use zeronsd.Hosts.{
  parse_hosts, parse_lines, parse_line, parse_fields, parse_names, append_names, lines, lines_from,
}
use zeronsd.Hostname.{trim, to_fqdn, to_hostname, translate}
use mathlib.Core.List.{flatten}
use zeronsd.Hosts.Collect.{line_names, parse_hosts_collects}
use zeronsd.Authority.{HostsFile}
use zeronsd.Addresses.{digest_hex, fold_bytes, network_rfc4193, network_rfc4193_segments}
use zeronsd.Refresh.{ZtAuthority, sixplane_network, configure_hosts}
use zeronsd.Refresh.HostRecords.{Resolves, ResolvesAll, configure_hosts_stores}
use zeronsd.Refresh.Configure.{configure_members}
use zeronsd.Refresh.NewNetwork.{configure_members_panics}
use zeronsd.Tests.Toy.{toy, ToyNetwork, toy-IsNamesLawful, toy-IsZoneLawful}

abbrev domain : Text
domain = b'z' ∷ []

-- `7 l`, a line feed, `7 r # x`
abbrev content : Text
content = b'7' ∷ 32 ∷ b'l' ∷ 10 ∷ b'7' ∷ 32 ∷ b'r' ∷ 32 ∷ b'#' ∷ 32 ∷ b'x' ∷ []

abbrev disk : Text → Option Text
disk _ = some content

abbrev seven : IpAddr
seven = v4 (record { o0 = 10; o1 = 0; o2 = 0; o3 = 7 })

abbrev l_z : Text
l_z = b'l' ∷ b'.' ∷ b'z' ∷ []

abbrev r_z : Text
r_z = b'r' ∷ b'.' ∷ b'z' ∷ []

abbrev table : HostsFile toy
table = (seven, l_z ∷ r_z ∷ []) ∷ []

abbrev server : ZtAuthority toy
server = record {
  network_id = [];
  hosts_file = some [];
  reverse_authority_map = [];
  forward_authority = record { domain_name = domain; authority = [] };
  wildcard = false;
  update_interval = 30;
  hosts = none;
}

parsed : parse_hosts toy domain disk (some []) ≡ ok table
unfolding parse_hosts parse_lines parse_line parse_fields parse_names append_names lines lines_from
    trim to_fqdn to_hostname translate Dict.lookup Dict.insert ip_same
parsed = refl

parse_hosts_collects_example :
    l_z ∷ r_z ∷ [] ≡ flatten (map (line_names toy domain seven) (lines content))
unfolding Dict.lookup ip_same
parse_hosts_collects_example =
    parse_hosts_collects toy domain disk [] content table seven refl parsed

configure_hosts_stores_example :
    ((configure_hosts toy disk server).0 ≡ ok tt)
    × ((configure_hosts toy disk server).1.hosts ≡ some table)
    × ResolvesAll toy (configure_hosts toy disk server).1.forward_authority.authority table
    × ((name : Text) (ip : IpAddr)
        → Resolves toy [] name ip
        → Resolves toy (configure_hosts toy disk server).1.forward_authority.authority name ip)
configure_hosts_stores_example =
    configure_hosts_stores toy toy-IsZoneLawful disk server table parsed

-- A network that has started to assign RFC 4193 addresses.
abbrev assigning : V6AssignMode
assigning = record { sixplane = none; rfc4193 = some true }

abbrev assigning_config : NetworkConfig
assigning_config = record { dns = none; v6_assign_mode = some assigning }

abbrev assigning_network : Network
assigning_network = record { id = some (b'0' ∷ b'a' ∷ []); config = some assigning_config }

abbrev assigned : ToyNetwork
assigned = record { address = v6 (network_rfc4193_segments 10); bits = 88 }

configure_members_panics_example : (configure_members toy assigning_network [] server).0 ≡ panic
unfolding sixplane_network network_rfc4193 digest_hex fold_bytes Dict.lookup
configure_members_panics_example =
    configure_members_panics toy toy-IsNamesLawful server assigning_network assigning_config
      assigning none assigned [] refl refl refl refl refl refl
