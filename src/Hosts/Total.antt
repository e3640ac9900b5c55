-- ===== src/Hosts/Total.antt =====
-- When `parse_hosts` of src/hosts.rs gives a table.
use zeronsd.Base.{
  ◌≡◌, ◌≢◌, refl, Bool, true, false, Option, some, none, List, [], ◌∷◌, Text, is_empty, text_same,
  ◌||◌, if◌then◌else◌, Outcome, ok, err, panic, Bool-cases, Option-cases, Outcome-cases, inl, inr,
  or_err, ◌⊎◌,
}
use zeronsd.Crates.{Crates}
use zeronsd.Hostname.{trim, dot, ends_with_dot, translate, to_hostname, to_fqdn, whitespace_pattern}
use zeronsd.Authority.{HostsFile}
use zeronsd.Hosts.{
  comment_pattern, lines, append_names, parse_names, parse_fields, parse_line, parse_lines,
  parse_hosts,
}

or_err-ne-panic : {A : Type 0} (o : Option A) → or_err o ≢ panic
or_err-ne-panic none h = cc
or_err-ne-panic (some a) h = cc

refuse-ne-panic :
    {A : Type 0} (b : Bool) (r : Outcome A) → r ≢ panic → (if b then err else r) ≢ panic
refuse-ne-panic true r k h = cc
refuse-ne-panic false r k h = k h

-- Of one element at least.
abbrev Any : {A : Type 0} → (A → Type 0) → List A → Type 0
Any P [] = ⊥
Any P (x ∷ xs) = P x ⊎ Any P xs

module _ (C : Crates) (domain_name : C.Name) where
  -- The text is a name that cannot be put below the domain: it becomes too long.
  abbrev IsTooLong : Text → Type 0
  IsTooLong field =
      (name : C.Name) × (to_hostname C field ≡ ok name) × (C.append_domain name domain_name ≡ none)

  -- A field of a line of the file is such a text.
  abbrev pub HasTooLong : Text → Type 0
  HasTooLong content = Any (λ line. Any IsTooLong (C.split whitespace_pattern line)) (lines content)

  -- A result that is a value, or a panic for the reason `P`.
  abbrev Ends : {A : Type 0} → Type 0 → Outcome A → Type 0
  Ends {A} P r = ((a : A) × (r ≡ ok a)) ⊎ ((r ≡ panic) × P)

  to_hostname-ne-panic : (s : Text) → to_hostname C s ≢ panic
  unfolding to_hostname
  to_hostname-ne-panic s =
      refuse-ne-panic (text_same (translate C s) (dot ∷ []) || ends_with_dot (translate C s)) _
        (refuse-ne-panic (is_empty (translate C s)) _ (or_err-ne-panic _))

  -- Only a name that is too long makes `to_fqdn` panic.
  to_fqdn-eq-panic : (s : Text) → to_fqdn C s domain_name ≡ panic → IsTooLong s
  unfolding to_fqdn
  to_fqdn-eq-panic s h = elim (Outcome-cases (to_hostname C s)) [
    | inl (name, e) ↦ elim (Option-cases (C.append_domain name domain_name)) [
      | inl long ↦ (name, e, long)
      | inr (whole, e') ↦ cc (rw (e, e') at h)
    ]
    | inr (inl e) ↦ cc (rw e at h)
    | inr (inr e) ↦ absurd (to_hostname-ne-panic s e)
  ]

  parse_names-Ends :
      (fields : List Text) → Ends (Any IsTooLong fields) (parse_names C domain_name fields)
  unfolding parse_names
  parse_names-Ends [] = inl ([], refl)
  parse_names-Ends (field ∷ fields) = elim (Bool-cases (C.is_match comment_pattern field)) [
    | inl comment ↦ inl ([], rw comment refl)
    | inr text ↦ elim (Outcome-cases (to_fqdn C field domain_name)) [
      | inr (inr e) ↦ inr (rw (text, e) refl, inl (to_fqdn-eq-panic field e))
      | inl (n, e) ↦ elim (parse_names-Ends fields) [
        | inl (v, rest) ↦ inl (n ∷ v, rw (text, e, rest) refl)
        | inr (rest, long) ↦ inr (rw (text, e, rest) refl, inr long)
      ]
      | inr (inl e) ↦ elim (parse_names-Ends fields) [
        | inl (v, rest) ↦ inl (v, rw (text, e) rest)
        | inr (rest, long) ↦ inr (rw (text, e) rest, inr long)
      ]
    ]
  ]

  parse_fields-Ends :
      (fields : List Text) (m : HostsFile C)
      → Ends (Any IsTooLong fields) (parse_fields C domain_name fields m)
  unfolding parse_fields
  parse_fields-Ends [] m = inl (m, refl)
  parse_fields-Ends (field ∷ fields) m = elim (Bool-cases (C.is_match comment_pattern field)) [
    | inl comment ↦ inl (m, rw comment refl)
    | inr text ↦ elim (Option-cases (C.parse_ip field)) [
      | inl e ↦ inl (m, rw (text, e) refl)
      | inr (ip, e) ↦ elim (parse_names-Ends fields) [
        | inl (v, names) ↦ inl (append_names C ip v m, rw (text, e, names) refl)
        | inr (names, long) ↦ inr (rw (text, e, names) refl, inr long)
      ]
    ]
  ]

  parse_line-Ends :
      (line : Text) (m : HostsFile C)
      → Ends (Any IsTooLong (C.split whitespace_pattern line)) (parse_line C domain_name line m)
  unfolding parse_line
  parse_line-Ends line m = elim (Bool-cases (is_empty (trim C.is_space line))) [
    | inl blank ↦ inl (m, rw blank refl)
    | inr text ↦ rw (parse_line, text) (parse_fields-Ends (C.split whitespace_pattern line) m)
  ]

  parse_lines-Ends :
      (ls : List Text) (m : HostsFile C)
      → Ends
          (Any (λ line. Any IsTooLong (C.split whitespace_pattern line)) ls)
          (parse_lines C domain_name ls m)
  unfolding parse_lines
  parse_lines-Ends [] m = inl (m, refl)
  parse_lines-Ends (line ∷ ls) m = elim (parse_line-Ends line m) [
    | inr (here, long) ↦ inr (rw here refl, inl long)
    | inl (m', here) ↦ elim (parse_lines-Ends ls m') [
      | inl (m'', rest) ↦ inl (m'', rw here rest)
      | inr (rest, long) ↦ inr (rw here rest, inr long)
    ]
  ]

  -- If the hosts file can be read, then `parse_hosts` gives a table, or it panics and a field of a
  -- line of the file is a name that cannot be put below the domain; it never returns an error.
  pub parse_hosts_total :
      (read : Text → Option Text) (file content : Text)
      → read file ≡ some content
      → ((table : HostsFile C) × (parse_hosts C domain_name read (some file) ≡ ok table))
        ⊎ ((parse_hosts C domain_name read (some file) ≡ panic) × HasTooLong content)
  unfolding parse_hosts
  parse_hosts_total read file content e = rw (parse_hosts, e) (parse_lines-Ends (lines content) [])
