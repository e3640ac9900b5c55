-- ===== src/Utils.antt =====
-- src/utils.rs: tokens, paths, domain names and member names.
-- Files and the environment are arguments: `read` is `std::fs::read_to_string`.
use zeronsd.Base.{
  Option, none, some, ◌++◌, Text, codes, is_empty, if◌then◌else◌, Outcome, ok, err, panic, ◌>>=◌,
  or_err, or_panic, String,
}
use zeronsd.Net.{IpAddr}
use zeronsd.Crates.{Crates}
use zeronsd.Hostname.{trim, to_fqdn}

abbrev pub default_domain_name : String
default_domain_name = "home.arpa."

-- `cfg!(target_os = …)`
pub data Platform : Type 0 where
  linux windows macos other : Platform

-- `authtoken_path`
unfoldable pub authtoken_path : Platform → Option Text → Outcome Text
authtoken_path platform (some arg) = ok arg
authtoken_path linux none = ok (codes "/var/lib/zerotier-one/authtoken.secret")
authtoken_path windows none = ok (codes "C:/ProgramData/ZeroTier/One/authtoken.secret")
authtoken_path macos none = ok (codes "/Library/Application Support/ZeroTier/One/authtoken.secret")
authtoken_path other none = panic

module _ (C : Crates) where
  -- `parse_ip_from_cidr`
  unfoldable pub parse_ip_from_cidr : Text → Outcome IpAddr
  parse_ip_from_cidr ip_with_cidr =
      or_panic (C.parse_network ip_with_cidr) >>= λ network. ok (C.network_ip network)

  -- The environment's token, unless it is empty.
  abbrev env_token : Option Text → Outcome Text
  env_token none = err
  env_token (some token) = if is_empty token then err else ok token

  -- `central_token`, where `env` is the variable ZEROTIER_CENTRAL_TOKEN
  unfoldable pub central_token : (Text → Option Text) → Option Text → Option Text → Outcome Text
  central_token read env (some path) = or_panic (read path) >>= λ text. ok (trim C.is_space text)
  central_token read env none = env_token env

  -- `domain_or_default`
  unfoldable pub domain_or_default : Option Text → Outcome C.Name
  domain_or_default none = or_err (C.name_from_str (codes default_domain_name))
  domain_or_default (some tld) =
      if is_empty tld then err else or_err (C.name_from_str (tld ++ codes "."))

  -- A name that is not valid is dropped.
  abbrev valid_name : Outcome C.Name → Outcome (Option C.Name)
  valid_name (ok record') = ok (some record')
  valid_name err = ok none
  valid_name panic = panic

  -- `parse_member_name`
  unfoldable pub parse_member_name : Option Text → C.Name → Outcome (Option C.Name)
  parse_member_name none domain_name = ok none
  parse_member_name (some name) domain_name =
      let name' = trim C.is_space name in
      if is_empty name' then ok none else valid_name (to_fqdn C name' domain_name)
