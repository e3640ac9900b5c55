-- ===== src/Hostname.antt =====
-- src/traits.rs: names for hosts, wildcards and reverse zones. `to_hostname` turns member names
-- into DNS names.
pub mod Runs
pub mod Translate
pub mod Domains
use zeronsd.Base.{
  ℕ, ◌+◌, ◌/◌, Bool, true, false, ◌||◌, [], ◌∷◌, reverse, Text, codes, text_same, if◌then◌else◌,
  ◌==◌, is_empty, Outcome, ok, err, ◌>>=◌, or_err, or_panic, ◌++◌, String,
}
use zeronsd.Central.{Member}
use zeronsd.Crates.{Crates}

-- `TRANSLATION_TABLE`
abbrev pub whitespace_pattern : String
whitespace_pattern = "\\s+"

abbrev pub catch_all_pattern : String
catch_all_pattern = "[^.\\s\\w\\d-]+"

abbrev pub dot : ℕ
dot = b'.'

abbrev pub dash : ℕ
dash = b'-'

-- `trim`
unfoldable pub trim_start : (ℕ → Bool) → Text → Text
trim_start p [] = []
trim_start p (c ∷ s) = let rest = trim_start p s in if p c then rest else c ∷ s

unfoldable pub trim : (ℕ → Bool) → Text → Text
unfolding trim_start
trim p s = reverse (trim_start p (reverse (trim_start p s)))

-- `ends_with('.')`
abbrev pub ends_with_dot : Text → Bool
ends_with_dot [] = false
ends_with_dot (c ∷ []) = c == dot
ends_with_dot (_ ∷ c ∷ s) = ends_with_dot (c ∷ s)

module _ (C : Crates) where
  -- The loop over the table, between the two calls of `trim`.
  unfoldable pub translate : Text → Text
  unfolding trim
  translate s = trim C.is_space (
      C.replace_all catch_all_pattern
        (C.replace_all whitespace_pattern (trim C.is_space s) (dash ∷ [])) [])

  -- `to_hostname` and `to_fqdn` of `String` and of `&str`
  unfoldable pub to_hostname : Text → Outcome C.Name
  unfolding trim
  to_hostname text =
      let s = translate text in
      if text_same s (dot ∷ []) || ends_with_dot s
      then err
      else if is_empty s
      then err
      else or_err (C.text_into_name (trim C.is_space s))

  unfoldable pub to_fqdn : Text → C.Name → Outcome C.Name
  to_fqdn text domain = to_hostname text >>= λ name. or_panic (C.append_domain name domain)

  -- `to_hostname` and `to_fqdn` of `Member`
  unfoldable pub member_to_hostname : Member → Outcome C.Name
  member_to_hostname member =
      or_panic member.node_id >>= λ node_id. to_hostname (codes "zt-" ++ node_id)

  unfoldable pub member_to_fqdn : Member → C.Name → Outcome C.Name
  member_to_fqdn member domain =
      or_panic member.node_id >>= λ node_id. to_fqdn (codes "zt-" ++ node_id) domain

  -- `to_wildcard`
  unfoldable pub to_wildcard : C.Name → Outcome C.Name
  to_wildcard name = or_panic (C.name_from_str (codes "*")) >>= λ star.
      or_panic (C.append_domain star name) >>= λ whole. ok (C.into_wildcard whole)

  -- `octet_factor`: how many bits each label of a reverse name stands for
  abbrev pub octet_factor : C.IpNetwork → ℕ
  octet_factor network = if C.network_is_v4 network then 8 else 4

  -- `to_ptr_soa_name`
  unfoldable pub to_ptr_soa_name : C.IpNetwork → Outcome C.LowerName
  to_ptr_soa_name network = or_err (C.ip_into_name (C.network_address network)) >>= λ name.
      ok (C.lower (C.trim_to name (C.network_prefix network / octet_factor network + 2)))
