-- ===== src/Launch.antt =====
-- How `Launcher::start` of src/init.rs sets the zones up, with the helpers of src/utils.rs that ask
-- the local service and Central. What comes after, the listeners, is in Server/Start.
pub mod ReverseZones
pub mod NewZone
pub mod FirstZones
pub mod Updates
use zeronsd.Base.{
  Bool, true, false, Option, some, none, List, [], ◌∷◌, ◌++◌, Text, codes, is_empty, map_all,
  if◌then◌else◌, Outcome, ok, err, panic, ◌>>=◌, or_err, or_panic, unwrap,
}
use zeronsd.Base.Dict
use zeronsd.Base.Exec
use zeronsd.Base.Exec.{Exec, continue}
use zeronsd.Net.{IpAddr}
use zeronsd.Central.{Network, NetworkConfig, V6AssignMode, DnsConfig, Member}
use zeronsd.Crates.{Crates}
use zeronsd.Hostname.{to_fqdn, to_ptr_soa_name}
use zeronsd.Addresses.{network_rfc4193}
use zeronsd.Utils.{Platform, parse_ip_from_cidr, central_token, domain_or_default, authtoken_path}
use zeronsd.Settings.{Launcher}
use zeronsd.Authority.{RecordAuthority}
use zeronsd.Authority.Fresh.{new_zone}
use zeronsd.Refresh.{ZtAuthority, is_on}

-- The clients of Central and of the local service, which the build generates, files, and the texts
-- of names and addresses.
pub record World (C : Crates) : Type 1 where
  -- reqwest: `HeaderValue::from_str`, and a client's `build` with its user agent, whether it is
  -- `https_only`, and the default headers
  pub HeaderValue : Type 0
  pub header_value : Text → Option HeaderValue
  pub HttpClient : Type 0
  pub build_client : Text → Bool → List (Text × HeaderValue) → Option HttpClient
  -- `Client::new_with_client` of the two APIs, and the package's version
  pub Client : Type 0
  pub new_central_client : Text → HttpClient → Client
  pub LocalClient : Type 0
  pub new_local_client : Text → HttpClient → LocalClient
  pub version_string : Text
  -- the variable ZEROTIER_CENTRAL_INSTANCE
  pub central_instance : Option Text
  pub get_network_by_id : Client → Text → Option Network
  pub get_network_member_list : Client → Text → Option (List Member)
  -- whether Central accepts the update
  pub update_network : Client → Text → Network → Bool
  -- `get_status` and its address, and `get_network` and its assigned addresses
  pub get_status : LocalClient → Option (Option Text)
  pub get_network : LocalClient → Text → Option (List Text)
  pub read : Text → Option Text
  -- the variable ZEROTIER_CENTRAL_TOKEN
  pub token_variable : Option Text
  -- `set_fqdn(false)` and `to_string`
  pub relative_text : C.Name → Text
  pub ip_text : IpAddr → Text

module _ (C : Crates) (W : World C) where
  -- `get_members` of src/authority.rs
  unfoldable pub get_members : W.Client → Text → Outcome (Network × List Member)
  get_members client network_id =
      or_err (W.get_network_member_list client network_id) >>= λ members.
      or_err (W.get_network_by_id client network_id) >>= λ network. ok (network, members)

  unfoldable pub version : Text
  version = codes "zeronsd " ++ W.version_string

  abbrev base_url_of : Option Text → Text
  base_url_of none = codes "https://my.zerotier.com/api/v1"
  base_url_of (some url) = url

  unfoldable pub central_client : Text → Outcome W.Client
  central_client token = or_err (W.header_value (codes "bearer " ++ token)) >>= λ bearer.
      or_err (W.build_client version true ((codes "Authorization", bearer) ∷ [])) >>= λ http.
      ok (W.new_central_client (base_url_of W.central_instance) http)

  unfoldable pub local_client : Text → Text → Outcome W.LocalClient
  local_client authtoken local_url = or_err (W.header_value authtoken) >>= λ auth.
      or_err (W.build_client version false ((codes "X-ZT1-Auth", auth) ∷ [])) >>= λ http.
      ok (W.new_local_client local_url http)

  unfoldable pub local_client_from_file : Text → Text → Outcome W.LocalClient
  local_client_from_file authtoken_path local_url =
      or_err (W.read authtoken_path) >>= λ authtoken. local_client authtoken local_url

  unfoldable pub get_member_name : Text → C.Name → Text → Outcome C.LowerName
  get_member_name token_path domain_name local_url =
      local_client_from_file token_path local_url >>= λ client.
      or_err (W.get_status client) >>= λ status. or_err status >>= λ address.
      to_fqdn C (codes "zt-" ++ address) domain_name >>= λ name. ok (C.lower name)

  unfoldable pub get_listen_ips : Text → Text → Text → Outcome (List Text)
  get_listen_ips token_path network_id local_url =
      local_client_from_file token_path local_url >>= λ client.
      or_err (W.get_network client network_id) >>= λ assigned.
      if is_empty assigned then err else ok assigned

  -- The state is the list of the updates that were sent.
  unfoldable pub update_central_dns :
      C.Name → List Text → W.Client → Text → Exec (List (Text × Network)) (Unit {0})
  update_central_dns domain_name ips client network sent =
      continue (or_err (W.get_network_by_id client network), sent)
        (λ zt_network sent'. elim zt_network.config [
          | none ↦ (ok tt, sent')
          | some config ↦
              let dns : DnsConfig = record {
                domain = some (W.relative_text domain_name);
                servers = some ips;
              } in
              let update = record zt_network { config = some (record config { dns = some dns }) } in
              (
                if W.update_network client network update then ok tt else err,
                sent' ++ (network, update) ∷ [],
              )
        ])

  -- `if let Entry::Vacant(e) = authority_map.entry(cidr)`
  unfoldable pub add_zone :
      C.IpNetwork
      → List (C.IpNetwork × RecordAuthority C)
      → Outcome (List (C.IpNetwork × RecordAuthority C))
  add_zone cidr authority_map = elim (Dict.lookup C.net_eq cidr authority_map) [
    | some authority ↦ ok authority_map
    | none ↦ to_ptr_soa_name C cidr >>= λ name. new_zone C name name >>= λ ptr_authority.
        ok (Dict.insert C.net_eq cidr ptr_authority authority_map)
  ]

  -- The loop over the addresses: the addresses to listen on, and the reverse zones.
  unfoldable pub listen_zones :
      List Text
      → List (C.IpNetwork × RecordAuthority C)
      → Outcome (List IpAddr × List (C.IpNetwork × RecordAuthority C))
  listen_zones [] authority_map = ok ([], authority_map)
  listen_zones (text ∷ ips) authority_map = parse_ip_from_cidr C text >>= λ listen_ip.
      or_err (C.parse_network text) >>= λ cidr. add_zone cidr authority_map >>= λ longer.
      listen_zones ips longer >>= λ (listen_ips, all). ok (listen_ip ∷ listen_ips, all)

  -- The zone for RFC 4193 addresses, if the network assigns these.
  unfoldable pub assigned_zone :
      Network
      → Option V6AssignMode
      → List (C.IpNetwork × RecordAuthority C)
      → Outcome (List (C.IpNetwork × RecordAuthority C))
  assigned_zone network none authority_map = ok authority_map
  assigned_zone network (some mode) authority_map =
      if is_on mode.rfc4193
      then (unwrap (network_rfc4193 C network) >>= λ cidr. add_zone cidr authority_map)
      else ok authority_map

  -- The zones, as they are handed to `find_members`, and the addresses to listen on.
  unfoldable pub make_authority :
      Launcher
      → Text
      → C.Name
      → Text
      → Text
      → W.Client
      → List Text
      → Outcome (ZtAuthority C × List IpAddr)
  make_authority l network_id domain_name token_path local_url client ips =
      listen_zones ips [] >>= λ (listen_ips, authority_map).
      get_member_name token_path domain_name local_url >>= λ member_name.
      or_err (W.get_network_by_id client network_id) >>= λ network.
      or_panic network.config >>= λ config.
      assigned_zone network config.v6_assign_mode authority_map >>= λ reverse_zones.
      new_zone C (C.lower domain_name) member_name >>= λ authority. ok (
        record {
          network_id = network_id;
          hosts_file = l.hosts;
          reverse_authority_map = reverse_zones;
          forward_authority = authority;
          wildcard = l.wildcard;
          update_interval = 30;
          hosts = none;
        },
        listen_ips,
      )

  abbrev pub url_of : Option Text → Text
  url_of none = codes "http://127.0.0.1:9993"
  url_of (some url) = url

  -- The settings of `start`: the identifier of the network, the name of the domain, the path of the
  -- token, the client, the addresses of the local service, and the texts that go to Central.
  unfoldable pub start_settings :
      Platform → Launcher → Outcome (Text × C.Name × Text × W.Client × List Text × List Text)
  start_settings platform l = or_err l.network_id >>= λ network_id.
      domain_or_default C l.domain >>= λ domain_name.
      authtoken_path platform l.secret >>= λ authtoken.
      central_token C W.read W.token_variable l.token >>= λ token.
      central_client token >>= λ client.
      get_listen_ips authtoken network_id (url_of l.local_url) >>= λ ips.
      map_all (λ ip. parse_ip_from_cidr C ip >>= λ parsed. ok (W.ip_text parsed)) ips >>= λ texts.
      ok (network_id, domain_name, authtoken, client, ips, texts)

  -- `start`, up to the listeners
  unfoldable pub start :
      Platform → Launcher → Exec (List (Text × Network)) (ZtAuthority C × List IpAddr)
  start platform l sent =
      continue (start_settings platform l, sent)
        (λ (network_id, domain_name, authtoken, client, ips, texts) sent'.
          if is_empty ips
          then (err, sent')
          else continue (update_central_dns domain_name texts client network_id sent') (λ _ sent''.
            (
              make_authority l network_id domain_name authtoken (url_of l.local_url) client ips,
              sent'',
            )))
