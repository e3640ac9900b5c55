-- ===== src/Hosts.antt =====
-- src/hosts.rs: the parser of files in the format of /etc/hosts.
pub mod Collect
pub mod Entries
pub mod Total
use zeronsd.Base.{
  ℕ, Bool, true, false, ◌&&◌, Option, none, some, List, [], ◌∷◌, ◌++◌, reverse, Text, String, ◌==◌,
  is_empty, if◌then◌else◌, Outcome, ok, err, panic, ◌>>=◌,
}
use zeronsd.Base.Dict
use zeronsd.Net.{IpAddr, ip_eq}
use zeronsd.Crates.{Crates}
use zeronsd.Hostname.{trim, to_fqdn, whitespace_pattern}
use zeronsd.Authority.{HostsFile}

-- `COMMENT_MATCH`
abbrev pub comment_pattern : String
comment_pattern = "^\\s*#"

-- The end of a line, read backwards: a carriage return before the line feed goes with it.
abbrev pub without_return : Text → Text
without_return [] = []
without_return (c ∷ s) = if c == 13 then s else c ∷ s

-- `str::lines`. The text of the line so far is kept backwards; what follows the last line feed is
-- a line if it is not empty.
unfoldable pub lines_from : Text → Text → List Text
lines_from line [] = if is_empty line then [] else reverse line ∷ []
lines_from line (c ∷ s) =
    let closed = lines_from [] s in
    let longer = lines_from (c ∷ line) s in
    if c == 10 then reverse (without_return line) ∷ closed else longer

unfoldable pub lines : Text → List Text
unfolding lines_from
lines s = lines_from [] s

module _ (C : Crates) where
  -- `input.entry(ip)`: an address that is there already gets the names appended.
  unfoldable pub append_names : IpAddr → List C.Name → HostsFile C → HostsFile C
  append_names ip v input = elim (Dict.lookup ip_eq ip input) [
    | none ↦ Dict.insert ip_eq ip v input
    | some names ↦ Dict.insert ip_eq ip (names ++ v) input
  ]

module _ (C : Crates) (domain_name : C.Name) where
  -- The loop over the names of a line, up to a comment. A name that is not valid is skipped.
  unfoldable pub parse_names : List Text → Outcome (List C.Name)
  parse_names [] = ok []
  parse_names (host ∷ hosts) =
      let rest = parse_names hosts in
      if C.is_match comment_pattern host then ok [] else elim (to_fqdn C host domain_name) [
        | ok fqdn ↦ rest >>= λ v. ok (fqdn ∷ v)
        | err ↦ rest
        | panic ↦ panic
      ]

  -- The fields of a line: the address, and the names.
  unfoldable pub parse_fields : List Text → HostsFile C → Outcome (HostsFile C)
  parse_fields [] input = ok input
  parse_fields (ip ∷ hosts) input =
      if C.is_match comment_pattern ip then ok input else elim (C.parse_ip ip) [
        | some parsed_ip ↦ parse_names hosts >>= λ v. ok (append_names C parsed_ip v input)
        | none ↦ ok input
      ]

  unfoldable pub parse_line : Text → HostsFile C → Outcome (HostsFile C)
  parse_line line input =
      if is_empty (trim C.is_space line)
      then ok input
      else parse_fields (C.split whitespace_pattern line) input

  unfoldable pub parse_lines : List Text → HostsFile C → Outcome (HostsFile C)
  parse_lines [] input = ok input
  parse_lines (line ∷ rest) input = parse_line line input >>= λ input'. parse_lines rest input'

  -- `parse_hosts`, where `read` is `std::fs::read_to_string`
  unfoldable pub parse_hosts : (Text → Option Text) → Option Text → Outcome (HostsFile C)
  parse_hosts read none = ok []
  parse_hosts read (some hosts_file) = elim (read hosts_file) [
    | none ↦ err
    | some content ↦ parse_lines (lines content) []
  ]
