-- ===== src/Tests/Services.antt =====
-- The theorems on settings, supervision and the start of the server at concrete inputs.
use zeronsd.Base.{
  Option, false, ◌≡◌, refl, true, false, some, none, List, [], ◌∷◌, Text, codes, text_eq, Outcome,
  ok, err, panic, All, ◌↔◌,
}
use zeronsd.Base.Dict
use zeronsd.Net.{IpAddr, ip_same}
use zeronsd.Central.{Network, NetworkConfig, V6AssignMode}
use zeronsd.Log
use zeronsd.Log.{LevelFilter, from_str_iff}
use zeronsd.Utils.{linux, parse_ip_from_cidr}
use zeronsd.Settings.{
  Launcher, StartArgs, Started, into_launcher, new_from_config, parse_format, into_launcher_lem,
  default_launcher, ConfigFormat,
}
use zeronsd.Supervise.{
  Properties, System, byte_length, validate, validate_token, validate_hosts, validate_domain,
  check_config, check_file, check_token, check_network_id, check_hosts, check_domain, check_secret,
  install_supervisor, install_validated, write_service, save_service, make_executable,
  supervise_template, service_path, service_name, uninstall_supervisor,
}
use zeronsd.Supervise.Install.{IsSystemLawful, uninstall_supervisor-install_supervisor}
use zeronsd.Supervise.Validate.{validate_sound}
use zeronsd.Addresses.{network_rfc4193, digest_hex, fold_bytes}
use zeronsd.Authority.Fresh.{new_zone, configure_authority}
use zeronsd.Hostname.{to_ptr_soa_name, to_fqdn, to_hostname, translate, trim, trim_start}
use zeronsd.Refresh.{ZtAuthority}
use zeronsd.Launch.{
  World, make_authority, listen_zones, assigned_zone, add_zone, get_member_name, version,
  local_client, local_client_from_file,
}
use zeronsd.Launch.ReverseZones.{HasZone, Covers, make_authority-Covers}
use zeronsd.Tests.Toy.{toy, ToyNetwork}

from_str_iff_example :
    (Log.from_str (codes "warn") ≡ ok LevelFilter.warn)
    ↔ (codes "warn" ≡ Log.to_string LevelFilter.warn)
from_str_iff_example = from_str_iff (codes "warn") LevelFilter.warn

-- Arguments with a configuration file, and others that differ in the domain.
abbrev with_file : StartArgs
with_file = record {
  start_network_id = codes "1";
  start_domain = none;
  start_hosts = none;
  start_secret = none;
  start_token = none;
  start_wildcard = false;
  config = some (codes "f");
  config_type = ConfigFormat.json;
  start_tls_cert = none;
  start_chain_cert = none;
  start_tls_key = none;
  start_local_url = [];
  start_log_level = none;
}

abbrev with_domain : StartArgs
with_domain = record with_file { start_domain = some (codes "d"); start_wildcard = true }

abbrev some_launcher : Text → Option Launcher
some_launcher s = some default_launcher

into_launcher_lem_example :
    (into_launcher some_launcher some_launcher some_launcher (λ path. some []) with_domain
      ≡ Started.launcher (record default_launcher { network_id = some (codes "1") }))
    × (some (codes "1") ≡ some (codes "1"))
unfolding into_launcher new_from_config parse_format
into_launcher_lem_example =
    into_launcher_lem some_launcher some_launcher some_launcher (λ path. some []) with_file
      with_domain (codes "f") (record default_launcher { network_id = some (codes "1") }) refl refl
      refl refl refl

-- A disk on which every path is a file.
abbrev pub machine : System
machine = record {
  Disk = List (Text × Text);
  canonicalize = λ disk path. some (b'/' ∷ path);
  is_file = λ disk path. some true;
  read = λ disk path. none;
  write = λ path text disk. some (Dict.insert text_eq path text disk);
  remove_file = λ path disk. some (Dict.remove text_eq path disk);
  set_mode = λ path mode disk. some disk;
  join = λ dir name. name;
  current_exe = none;
  capture_id = λ s. none;
  name_parses = λ s. true;
  render = λ template p. some [];
  is_space = λ c. false;
}

machine-IsSystemLawful : IsSystemLawful machine
machine-IsSystemLawful = record {
  remove_file-write = λ path text d d' h. (Dict.remove text_eq path d', refl);
  remove_file-set_mode = λ path mode d d' d'' h k. (Dict.remove text_eq path d'', refl);
}

abbrev unit_file : Properties
unit_file = record {
  launcher = record default_launcher {
    token = some (codes "token");
    network_id = some (codes "8056c2e21c000001");
  };
  binpath = [];
  config = none;
  config_type = ConfigFormat.yaml;
  config_type_supplied = false;
  distro = some (codes "alpine");
}

validate_sound_example :
    ((id : Text) × (unit_file.launcher.network_id ≡ some id) × (byte_length id ≡ 16))
    × ((token : Text) × (path : Text) × (unit_file.launcher.token ≡ some token)
        × (machine.canonicalize [] token ≡ some path)
        × (machine.is_file [] path ≡ some true)
        × ((validate machine [] unit_file).1.launcher.token ≡ some token))
unfolding validate validate_token validate_hosts validate_domain check_config check_file check_token
    check_network_id check_hosts check_domain check_secret
validate_sound_example = validate_sound machine [] unit_file refl

uninstall_supervisor-install_supervisor_example :
    (uninstall_supervisor machine linux unit_file
      (install_supervisor machine linux (unit_file, [])).1.1).0
    ≡ ok tt
unfolding install_supervisor install_validated write_service save_service make_executable
    supervise_template service_path service_name validate validate_token validate_hosts
    validate_domain check_config check_file check_token check_network_id check_hosts check_domain
    check_secret
uninstall_supervisor-install_supervisor_example =
    uninstall_supervisor-install_supervisor machine machine-IsSystemLawful linux unit_file unit_file
      [] refl refl refl

abbrev pub site_mode : V6AssignMode
site_mode = record { sixplane = none; rfc4193 = some true }

abbrev site_config : NetworkConfig
site_config = record { dns = none; v6_assign_mode = some site_mode }

abbrev site : Network
site = record { id = some (b'0' ∷ b'a' ∷ []); config = some site_config }

abbrev pub world : World toy
world = record {
  Client = Unit;
  HeaderValue = Text;
  header_value = some;
  HttpClient = Unit;
  build_client = λ agent https headers. some tt;
  new_central_client = λ url http. tt;
  LocalClient = Unit;
  new_local_client = λ url http. tt;
  version_string = b'1' ∷ [];
  central_instance = none;
  get_network_by_id = λ client id. some site;
  get_network_member_list = λ client id. some [];
  update_network = λ client id network. true;
  get_status = λ client. some (some (b'1' ∷ []));
  get_network = λ client id. some ((b'7' ∷ []) ∷ []);
  read = λ path. some [];
  token_variable = none;
  relative_text = λ name. name;
  ip_text = λ ip. [];
}

abbrev nothing : ZtAuthority toy
nothing = record {
  network_id = [];
  hosts_file = none;
  reverse_authority_map = [];
  forward_authority = record { domain_name = []; authority = [] };
  wildcard = false;
  update_interval = 0;
  hosts = none;
}

abbrev pub made : Outcome (ZtAuthority toy × List IpAddr) → ZtAuthority toy × List IpAddr
made (ok r) = r
made err = (nothing, [])
made panic = (nothing, [])

abbrev pub set_up : ZtAuthority toy × List IpAddr
set_up = made (make_authority toy world default_launcher [] (b'z' ∷ []) [] [] tt ((b'7' ∷ []) ∷ []))

make_authority-Covers_example :
    All (Covers toy world set_up.0.reverse_authority_map) ((b'7' ∷ []) ∷ [])
    × ((net : ToyNetwork) × (network_rfc4193 toy site ≡ ok net)
        × HasZone toy net set_up.0.reverse_authority_map)
unfolding make_authority listen_zones assigned_zone add_zone get_member_name parse_ip_from_cidr
    local_client_from_file local_client version new_zone configure_authority to_ptr_soa_name to_fqdn
    to_hostname translate trim trim_start network_rfc4193 digest_hex fold_bytes Dict.lookup
    Dict.insert ip_same
make_authority-Covers_example =
    make_authority-Covers toy world default_launcher [] (b'z' ∷ []) [] [] tt ((b'7' ∷ []) ∷ [])
      set_up.0 set_up.1 site site_config site_mode refl refl refl refl refl
