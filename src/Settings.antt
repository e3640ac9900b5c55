-- ===== src/Settings.antt =====
-- The settings: `Launcher` and `ConfigFormat` of src/init.rs, and `StartArgs` of src/cli.rs.
-- Paths are texts here; that `to_str` is refused for a path that is not Unicode is left out.
use zeronsd.Base.{
  ap, sym, ◌≡◌, Bool, false, ◌||◌, Option, some, none, Text, codes, text_same, if◌then◌else◌,
  Outcome, ok, err, panic, ◌>>=◌, or_err,
}
use zeronsd.Log.{LevelFilter}

pub data ConfigFormat : Type 0 where
  json yaml toml : ConfigFormat

pub record Launcher : Type 0 where
  pub domain : Option Text
  pub hosts : Option Text
  pub secret : Option Text
  pub token : Option Text
  pub chain_cert : Option Text
  pub tls_cert : Option Text
  pub tls_key : Option Text
  pub wildcard : Bool
  pub log_level : Option LevelFilter
  pub local_url : Option Text
  pub network_id : Option Text

-- `Launcher::default`
abbrev pub default_launcher : Launcher
default_launcher = record {
  domain = none;
  hosts = none;
  secret = none;
  token = none;
  chain_cert = none;
  tls_cert = none;
  tls_key = none;
  wildcard = false;
  log_level = none;
  local_url = some (codes "http://127.0.0.1:9993");
  network_id = none;
}

-- `ConfigFormat::from_str`
unfoldable pub format_from_str : Text → Outcome ConfigFormat
format_from_str s =
    if text_same s (codes "json") || text_same s (codes "JSON")
    then ok ConfigFormat.json
    else if text_same s (codes "yaml") || text_same s (codes "YAML")
    then ok ConfigFormat.yaml
    else if text_same s (codes "toml") || text_same s (codes "TOML")
    then ok ConfigFormat.toml
    else err

pub record StartArgs : Type 0 where
  pub start_network_id : Text
  pub start_domain : Option Text
  pub start_hosts : Option Text
  pub start_secret : Option Text
  pub start_token : Option Text
  pub start_wildcard : Bool
  pub config : Option Text
  pub config_type : ConfigFormat
  pub start_tls_cert : Option Text
  pub start_chain_cert : Option Text
  pub start_tls_key : Option Text
  pub start_local_url : Text
  pub start_log_level : Option LevelFilter

-- What `into` does: it gives a launcher, or ends the process with a code.
pub data Started : Type 0 where
  launcher : Launcher → Started
  exit : Started

abbrev network_of : Started → Option Text
network_of (launcher l) = l.network_id
network_of exit = none

-- The deserializers of the three formats, and `std::fs::read_to_string`.
module _ (json yaml toml : Text → Option Launcher) (read : Text → Option Text) where
  unfoldable pub parse_format : Text → ConfigFormat → Outcome Launcher
  parse_format s ConfigFormat.json = or_err (json s)
  parse_format s ConfigFormat.yaml = or_err (yaml s)
  parse_format s ConfigFormat.toml = or_err (toml s)

  unfoldable pub new_from_config : Text → ConfigFormat → Outcome Launcher
  new_from_config filename format = or_err (read filename) >>= λ res. parse_format res format

  -- `Launcher::parse`
  unfoldable pub parse : Text → Text → ConfigFormat → Outcome Launcher
  parse s network_id format =
      parse_format s format >>= λ l. ok (record l { network_id = some network_id })

  -- A configuration file that was read, or not.
  abbrev with_network : Text → Outcome Launcher → Started
  with_network network_id (ok res) = launcher (record res { network_id = some network_id })
  with_network network_id err = exit
  with_network network_id panic = exit

  -- `Into<Launcher> for StartArgs`
  unfoldable pub into_launcher : StartArgs → Started
  into_launcher args = elim args.config [
    | some file ↦ with_network args.start_network_id (new_from_config file args.config_type)
    | none ↦ launcher (record {
      domain = args.start_domain;
      hosts = args.start_hosts;
      secret = args.start_secret;
      token = args.start_token;
      chain_cert = args.start_chain_cert;
      tls_cert = args.start_tls_cert;
      tls_key = args.start_tls_key;
      wildcard = args.start_wildcard;
      log_level = args.start_log_level;
      local_url = some args.start_local_url;
      network_id = some args.start_network_id;
    })
  ]

  network_id_of_ok :
      (network_id : Text) (r : Outcome Launcher) (l : Launcher)
      → with_network network_id r ≡ launcher l
      → l.network_id ≡ some network_id
  network_id_of_ok network_id (ok res) l h = ap network_of (sym h)
  network_id_of_ok network_id err l h = cc
  network_id_of_ok network_id panic l h = cc

  -- If two lists of arguments name the same configuration file, format and network, and the first
  -- is converted to a launcher, the second is converted to the same one, whatever its other
  -- options are, and the launcher has the network of the arguments.
  pub into_launcher_lem :
      (args args' : StartArgs) (file : Text) (l : Launcher)
      → args.config ≡ some file
      → args'.config ≡ some file
      → args'.config_type ≡ args.config_type
      → args'.start_network_id ≡ args.start_network_id
      → into_launcher args ≡ launcher l
      → (into_launcher args' ≡ launcher l) × (l.network_id ≡ some args.start_network_id)
  unfolding into_launcher
  into_launcher_lem args args' file l c c' t n h = (
    rw (c', t, n) (rw c at h),
    network_id_of_ok args.start_network_id (new_from_config file args.config_type) l (rw c at h),
  )
