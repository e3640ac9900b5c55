-- ===== src/Hosts/Collect.antt =====
-- What `parse_hosts` of src/hosts.rs collects for an address, line by line.
use zeronsd.Base.{
  ◌≡◌, refl, ◌∙◌, ap, sym, Option, none, some, List, [], ◌∷◌, ◌++◌, map, Text, is_empty,
  if◌then◌else◌, Outcome, ok, err, panic, Ensures, Ensures-bind, Ensures-ok, append-if, arith,
  Bool-cases, Option-cases, inl, inr,
}
use mathlib.Core.List.{append-nil, append_assoc, flatten}
use mathlib.Core.Path.{subst}
use zeronsd.Base.Dict
use zeronsd.Net.{IpAddr, ip_same, ip_same_iff, ip_eq}
use zeronsd.Crates.{Crates}
use zeronsd.Hostname.{trim, to_fqdn, whitespace_pattern}
use zeronsd.Authority.{HostsFile}
use zeronsd.Hosts.{
  comment_pattern, lines, parse_names, append_names, parse_fields, parse_line, parse_lines,
  parse_hosts,
}

module _ (C : Crates) where
  abbrev pub names_or_nil : Option (List C.Name) → List C.Name
  names_or_nil none = []
  names_or_nil (some names) = names

  -- The names that the table has for an address.
  abbrev pub names_at : IpAddr → HostsFile C → List C.Name
  names_at ip input = names_or_nil (Dict.lookup ip_eq ip input)

  names_at-append_names :
      (ip j : IpAddr) (v : List C.Name) (input : HostsFile C)
      → names_at ip (append_names C j v input)
        ≡ (if ip_same j ip then names_at ip input ++ v else names_at ip input)
  unfolding append_names
  names_at-append_names ip j v input = elim (Option-cases (Dict.lookup ip_eq j input)) [
    | inl e ↦
        rw (e, append_names)
          (rw (Dict.lookup-insert ip_eq ip j v input) (ground (arith, e, ip_same_iff j ip)))
    | inr (names, e) ↦
        rw (e, append_names)
          (rw (Dict.lookup-insert ip_eq ip j (names ++ v) input)
            (ground (arith, e, ip_same_iff j ip)))
  ]

module _ (C : Crates) (domain_name : C.Name) where
  -- The names of a result that is one.
  abbrev pub name_of : Outcome C.Name → List C.Name
  name_of (ok name) = name ∷ []
  name_of err = []
  name_of panic = []

  -- The fully qualified names of the fields before the first comment.
  unfoldable pub names_before_comment : List Text → List C.Name
  names_before_comment [] = []
  names_before_comment (field ∷ fields) =
      let rest = names_before_comment fields in
      if C.is_match comment_pattern field then [] else name_of (to_fqdn C field domain_name) ++ rest

  -- The names that the fields of a line give to an address.
  unfoldable pub field_names : IpAddr → List Text → List C.Name
  field_names ip [] = []
  field_names ip (field ∷ fields) =
      if C.is_match comment_pattern field then [] else elim (C.parse_ip field) [
        | none ↦ []
        | some found ↦ if ip_same found ip then names_before_comment fields else []
      ]

  unfoldable pub line_names : IpAddr → Text → List C.Name
  line_names ip line =
      if is_empty (trim C.is_space line)
      then []
      else field_names ip (C.split whitespace_pattern line)

  parse_names_lem :
      (fields : List Text)
      → Ensures (λ v. v ≡ names_before_comment fields) (parse_names C domain_name fields)
  unfolding parse_names names_before_comment
  parse_names_lem [] = refl
  parse_names_lem (field ∷ fields) = ground (arith, parse_names_lem fields)

  names_at-parse_fields :
      (ip : IpAddr) (fields : List Text) (input : HostsFile C)
      → Ensures
          (λ m. names_at C ip m ≡ names_at C ip input ++ field_names ip fields)
          (parse_fields C domain_name fields input)
  unfolding parse_fields field_names
  names_at-parse_fields ip [] input = sym (append-nil _)
  names_at-parse_fields ip (field ∷ fields) input =
      elim (Bool-cases (C.is_match comment_pattern field)) [
        | inl e ↦ rw e (sym (append-nil _))
        | inr e ↦ rw e (elim (Option-cases (C.parse_ip field)) [
          | inl bad ↦ rw bad (sym (append-nil _))
          | inr (found, good) ↦ rw good (
              Ensures-bind _ _ (parse_names C domain_name fields) _ (parse_names_lem fields)
                (λ v same. rw same (
                  names_at-append_names C ip found (names_before_comment fields) input
                  ∙ append-if (ip_same found ip) _ _)))
        ])
      ]

  names_at-parse_line :
      (ip : IpAddr) (line : Text) (input : HostsFile C)
      → Ensures
          (λ m. names_at C ip m ≡ names_at C ip input ++ line_names ip line)
          (parse_line C domain_name line input)
  unfolding parse_line line_names
  names_at-parse_line ip line input = elim (Bool-cases (is_empty (trim C.is_space line))) [
    | inl e ↦ rw e (sym (append-nil _))
    | inr e ↦ rw e (names_at-parse_fields ip (C.split whitespace_pattern line) input)
  ]

  names_at-parse_lines :
      (ip : IpAddr) (ls : List Text) (input : HostsFile C)
      → Ensures
          (λ m. names_at C ip m ≡ names_at C ip input ++ flatten (map (line_names ip) ls))
          (parse_lines C domain_name ls input)
  unfolding parse_lines flatten
  names_at-parse_lines ip [] input = sym (append-nil _)
  names_at-parse_lines ip (line ∷ ls) input =
      Ensures-bind _ _ (parse_line C domain_name line input) _ (names_at-parse_line ip line input)
        (λ m h.
          subst (λ names. Ensures (λ m'. names_at C ip m' ≡ names) (parse_lines C domain_name ls m))
            (ap (λ names. names ++ flatten (map (line_names ip) ls)) h
              ∙ append_assoc (names_at C ip input) (line_names ip line)
                  (flatten (map (line_names ip) ls)))
            (names_at-parse_lines ip ls m))

  -- If the hosts file can be read and parsed, the names in the table for an address are those of
  -- all lines with that address, in the order of the file: each line gives the fully qualified
  -- names of its fields up to the first comment, and lines that are blank, are comments or have no
  -- valid address give none.
  pub parse_hosts_collects :
      (read : Text → Option Text) (hosts_file content : Text) (m : HostsFile C) (ip : IpAddr)
      → read hosts_file ≡ some content
      → parse_hosts C domain_name read (some hosts_file) ≡ ok m
      → names_at C ip m ≡ flatten (map (line_names ip) (lines content))
  unfolding parse_hosts Dict.lookup
  parse_hosts_collects read hosts_file content m ip e h =
      Ensures-ok _ _ (rw (e, parse_hosts) at h) (names_at-parse_lines ip (lines content) [])
