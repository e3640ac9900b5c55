-- ===== src/Crates.antt =====
-- The libraries that the program calls and whose code is not in the repository: hex, regex,
-- ipnetwork, trust-dns, and the parser of `std::net::IpAddr`. They are one record, the parameter
-- `C` of the other modules. `Laws` states what the theorems assume of them.
pub mod Laws
use zeronsd.Base.{ℕ, Bool, Option, List, Text, String, Eq}
use zeronsd.Net.{IpAddr}
use zeronsd.Dns.{RecordType, RData, Record, RrKey}

pub record Crates : Type 1 where
  -- `hex::decode`
  pub hex_decode : Text → Option (List ℕ)
  -- `char::is_whitespace`, and `IpAddr::from_str`
  pub is_space : ℕ → Bool
  pub parse_ip : Text → Option IpAddr
  -- The classes `\w` and `\d` of regex; its `\s` is `char::is_whitespace`.
  pub is_word : ℕ → Bool
  pub is_digit : ℕ → Bool
  -- `Regex::new(pattern).unwrap()` and then `replace_all`, `split`, `is_match`
  pub replace_all : String → Text → Text → Text
  pub split : String → Text → List Text
  pub is_match : String → Text → Bool
  -- ipnetwork: `IpNetwork`, its `==`, `new`, `from_str`, `ip`, `prefix`, `network`, `contains`,
  -- and whether it is `IpNetwork::V4`
  pub IpNetwork : Type 0
  pub net_eq : Eq IpNetwork
  pub new_network : IpAddr → ℕ → Option IpNetwork
  pub parse_network : Text → Option IpNetwork
  pub network_ip : IpNetwork → IpAddr
  pub network_prefix : IpNetwork → ℕ
  pub network_address : IpNetwork → IpAddr
  pub network_contains : IpNetwork → IpAddr → Bool
  pub network_is_v4 : IpNetwork → Bool
  -- trust-dns names: `Name` and `LowerName`, both up to their `==` (which disregards case), and
  -- the conversions `LowerName::from` and `Name::from`
  pub Name : Type 0
  pub LowerName : Type 0
  pub name_eq : Eq Name
  pub lower_eq : Eq LowerName
  pub lower : Name → LowerName
  pub of_lower : LowerName → Name
  -- `Name::from_str`, and `into_name` of a text, an address, a lower-case name and a name
  pub name_from_str : Text → Option Name
  pub text_into_name : Text → Option Name
  pub ip_into_name : IpAddr → Option Name
  pub lower_into_name : LowerName → Option Name
  pub name_into_name : Name → Option Name
  pub append_domain : Name → Name → Option Name
  pub into_wildcard : Name → Name
  pub trim_to : Name → ℕ → Name
  -- `RecordSet`: `new`, `add_rdata`, `insert`, the data of its records (without signatures),
  -- `record_type` and `is_empty`
  pub RecordSet : Type 0
  pub new_set : Name → RecordType → ℕ → RecordSet
  pub add_rdata : RecordSet → RData Name → RecordSet
  pub insert_record : RecordSet → Record Name → ℕ → RecordSet
  pub rdatas : RecordSet → List (RData Name)
  pub set_type : RecordSet → RecordType
  pub set_is_empty : RecordSet → Bool
  -- `InMemoryAuthority`, seen as its records: `new`, `serial` and `upsert`
  pub new_authority :
      Name → List (RrKey LowerName × RecordSet) → Option (List (RrKey LowerName × RecordSet))
  pub serial : List (RrKey LowerName × RecordSet) → ℕ
  pub upsert :
      Record Name → ℕ → List (RrKey LowerName × RecordSet) → List (RrKey LowerName × RecordSet)

-- The records of an `InMemoryAuthority`.
abbrev pub Zone : Crates → Type 0
Zone C = List (RrKey C.LowerName × C.RecordSet)
