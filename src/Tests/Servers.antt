-- ===== src/Tests/Servers.antt =====
-- The theorems on the start of the server (src/init.rs, src/server.rs, src/cli.rs) at concrete
-- inputs.
use zeronsd.Base.{
  ℕ, ◌≡◌, refl, true, false, ◌||◌, Option, none, some, List, [], ◌∷◌, ◌++◌, map, Text, text_eq,
  is_empty, Outcome, ok,
}
use zeronsd.Base.Dict
use zeronsd.Net.{IpAddr, v4, ip_same}
use zeronsd.Central.{Network}
use zeronsd.Utils.{linux, domain_or_default, authtoken_path, central_token, parse_ip_from_cidr}
use zeronsd.Settings.{Launcher, default_launcher}
use zeronsd.Hostname.{to_ptr_soa_name, to_fqdn, to_hostname, translate, trim, trim_start}
use zeronsd.Addresses.{network_rfc4193, digest_hex, fold_bytes}
use zeronsd.Authority.Fresh.{new_zone, configure_authority}
use zeronsd.Launch.{
  make_authority, listen_zones, assigned_zone, add_zone, get_member_name, version, local_client,
  local_client_from_file, central_client, get_listen_ips, update_central_dns,
}
use zeronsd.Tests.Services.{world, made}
use zeronsd.Launch
use zeronsd.Refresh.{ZtAuthority}
use zeronsd.Server.{
  Served, Servers, forwarder, zone, init_catalog, add_reverse, add_dot, configure_server,
}
use zeronsd.Server.Catalog.{IsCatalogLawful, served, init_catalog_lem}
use zeronsd.Server.Listen.{Listener, on_udp, on_tcp, on_tls, IsFutureLawful, configure_server_lem}
use zeronsd.Server.Start.{
  run_find_members, run_listen, read_cert, read_chain, read_key, launch, launch_lem,
}
use zeronsd.Tests.Toy.{toy, ToyNetwork}

abbrev ToyServed : Type 0
ToyServed = Served toy (Unit {0})

abbrev find_served : List (Text × ToyServed) → Text → Option ToyServed
find_served catalog l = Dict.lookup toy.lower_eq l catalog

abbrev ToyListener : Type 0
ToyListener = Listener ℕ ℕ Unit Unit Unit

-- A server is its catalog and its listeners, as they were registered.
pub record ToyFuture : Type 0 where
  pub zones : List (Text × ToyServed)
  pub listening : List ToyListener

abbrev with_listener : ToyListener → ToyFuture → ToyFuture
with_listener l f = record f { listening = f.listening ++ l ∷ [] }

abbrev pub servers : Servers toy
servers = record {
  NameServer = Unit;
  ResolverOpts = Unit;
  system_conf = some ([], tt);
  Forwarder = Unit;
  forwarder_from_config = λ name_servers options. some tt;
  root = [];
  ZoneType = Unit;
  primary = tt;
  Catalog = List (Text × ToyServed);
  default_catalog = [];
  upsert_zone = λ name s catalog. Dict.insert text_eq name s catalog;
  Tcp = ℕ;
  Udp = ℕ;
  bind_tcp = λ ip port. some port;
  bind_udp = λ ip port. some port;
  Cert = Unit;
  Chain = Unit;
  Key = Unit;
  read_bytes = λ path. some [];
  cert_from_pem = λ pem. some tt;
  stack_from_pem = λ pem. some [];
  new_stack = some tt;
  push_cert = λ cert chain. some tt;
  key_from_pem = λ pem. some tt;
  Future = ToyFuture;
  new_future = λ catalog. record { zones = catalog; listening = [] };
  register_tls_listener =
      λ tls timeout cert chain key f. (true, with_listener (on_tls tls timeout cert chain key) f);
  register_socket = λ udp f. with_listener (on_udp udp) f;
  register_listener = λ tcp timeout f. with_listener (on_tcp tcp timeout) f;
  block_until_done = λ f. some tt;
}

servers-IsCatalogLawful : IsCatalogLawful toy servers
unfolding Dict.lookup
servers-IsCatalogLawful = record {
  find = λ catalog l. Dict.lookup text_eq l catalog;
  find-default_catalog = λ l. refl;
  find-upsert_zone = λ name s catalog l. Dict.lookup-insert text_eq l name s catalog;
}

servers-IsFutureLawful : IsFutureLawful toy servers
servers-IsFutureLawful = record {
  catalog_of = λ f. f.zones;
  listeners = λ f. f.listening;
  catalog_of-new_future = λ c. refl;
  listeners-new_future = λ c. refl;
  catalog_of-register_tls = λ t d c chain k f. refl;
  listeners-register_tls = λ t d c chain k f. refl;
  catalog_of-register_socket = λ u f. refl;
  listeners-register_socket = λ u f. refl;
  catalog_of-register_listener = λ t d f. refl;
  listeners-register_listener = λ t d f. refl;
}

abbrev reverse : ToyNetwork
reverse = record { address = v4 (record { o0 = 10; o1 = 0; o2 = 0; o3 = 7 }); bits = 24 }

-- A server with a reverse zone.
abbrev site : ZtAuthority toy
site = record {
  network_id = [];
  hosts_file = none;
  reverse_authority_map = (reverse, record { domain_name = []; authority = [] }) ∷ [];
  forward_authority = record { domain_name = b'z' ∷ []; authority = [] };
  wildcard = false;
  update_interval = 30;
  hosts = none;
}

abbrev reverse_name : Text
reverse_name = 7 ∷ 0 ∷ 0 ∷ 10 ∷ []

abbrev catalog : List (Text × ToyServed)
catalog = ([], forwarder tt) ∷ (b'z' ∷ [], zone []) ∷ (reverse_name, zone []) ∷ []

init_catalog_ok : init_catalog toy servers site ≡ ok catalog
unfolding init_catalog add_reverse to_ptr_soa_name Dict.insert
init_catalog_ok = refl

init_catalog_lem_example :
    (conf : List (Unit {0}) × Unit {0}) × (recursor : Unit {0}) × (some ([], tt) ≡ some conf)
    × (some tt ≡ some recursor)
    × (servers-IsCatalogLawful.find catalog reverse_name
        ≡ served toy servers recursor site reverse_name)
init_catalog_lem_example =
    init_catalog_lem toy servers servers-IsCatalogLawful site catalog reverse_name init_catalog_ok

abbrev address : IpAddr
address = reverse.address

-- With a certificate and a key.
abbrev configured : ToyFuture
configured = record {
  zones = catalog;
  listening = on_tls 853 1 tt none tt ∷ on_udp 53 ∷ on_tcp 53 1 ∷ [];
}

configure_server_ok :
    configure_server toy servers site address 1 (some tt) none (some tt) ≡ ok configured
unfolding configure_server add_dot init_catalog add_reverse to_ptr_soa_name Dict.insert
configure_server_ok = refl

configure_server_lem_example :
    (tcp : ℕ) × (udp : ℕ) × (dot : List ToyListener) × (some 53 ≡ some tcp)
    × (some 53 ≡ some udp)
    × (init_catalog toy servers site ≡ ok (servers-IsFutureLawful.catalog_of configured))
    × (servers-IsFutureLawful.listeners configured ≡ (dot ++ on_udp udp ∷ []) ++ on_tcp tcp 1 ∷ [])
    × ((is_empty dot || true) ≡ true)
configure_server_lem_example =
    configure_server_lem toy servers servers-IsFutureLawful site address 1 (some tt) none (some tt)
      configured configure_server_ok

-- The settings of a server whose token is in a file.
abbrev pub settings : Launcher
settings = record default_launcher {
  network_id = some [];
  token = some [];
  tls_cert = some [];
  tls_key = some [];
}

abbrev prepared : Outcome (ZtAuthority toy × List IpAddr) × List (Text × Network)
prepared = Launch.start toy world linux settings []

abbrev set_up : ZtAuthority toy × List IpAddr
set_up = made prepared.0

prepared_ok : prepared ≡ (ok (set_up.0, set_up.1), prepared.1)
unfolding Launch.start Launch.start_settings domain_or_default authtoken_path central_token
    central_client get_listen_ips update_central_dns make_authority listen_zones assigned_zone
    add_zone get_member_name parse_ip_from_cidr local_client_from_file local_client version new_zone
    configure_authority to_ptr_soa_name to_fqdn to_hostname translate trim trim_start
    network_rfc4193 digest_hex fold_bytes Dict.lookup Dict.insert ip_same
prepared_ok = refl

launch_lem_example : launch toy servers world linux settings ([], []) ≡ (
  ok set_up.0,
  (
    prepared.1,
    run_find_members set_up.0
        ∷ map (λ ip. run_listen set_up.0 ip 1 (some tt) none (some tt)) set_up.1,
  ),
)
unfolding read_cert read_chain read_key
launch_lem_example =
    launch_lem toy servers world linux settings set_up.0 set_up.1 [] prepared.1 [] (some tt) none
      (some tt) prepared_ok refl refl refl
