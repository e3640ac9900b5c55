-- ===== src/Hosts/Entries.antt =====
-- What holds of every name in the table that `parse_hosts` of src/hosts.rs gives.
use zeronsd.Base.{
  ◌≡◌, Option, some, none, List, [], ◌∷◌, ◌++◌, Text, All, is_empty, ok, Ensures, Ensures-after,
  Ensures-ok, Bool-cases, Option-cases, Outcome-cases, inl, inr,
}
use zeronsd.Base.Dict
use zeronsd.Net.{IpAddr, ip_eq}
use zeronsd.Crates.{Crates}
use zeronsd.Hostname.{trim, to_fqdn, whitespace_pattern}
use zeronsd.Authority.{HostsFile}
use zeronsd.Hosts.{
  comment_pattern, lines, append_names, parse_names, parse_fields, parse_line, parse_lines,
  parse_hosts,
}

module _ (C : Crates) (domain_name : C.Name) (P : C.Name → Type 0) where
  abbrev Accepts : Type 0
  Accepts = (s : Text) (n : C.Name) → to_fqdn C s domain_name ≡ ok n → P n

  abbrev pub AllNames : HostsFile C → Type 0
  AllNames m = All (λ e. All P e.1) m

  All-append : (xs ys : List C.Name) → All P xs → All P ys → All P (xs ++ ys)
  All-append [] ys h k = k
  All-append (x ∷ xs) ys (h, hs) k = (h, All-append xs ys hs k)

  All-insert_names :
      (ip : IpAddr) (v : List C.Name) (m : HostsFile C)
      → All P v
      → AllNames m
      → AllNames (Dict.insert ip_eq ip v m)
  unfolding Dict.insert
  All-insert_names ip v [] h hs = (h, tt)
  All-insert_names ip v ((j, w) ∷ m) h (hj, hs) = elim (Bool-cases (ip_eq.same j ip)) [
    | inl same ↦ rw same (h, hs)
    | inr differ ↦ rw differ (hj, All-insert_names ip v m h hs)
  ]

  lookup-All :
      (ip : IpAddr) (v : List C.Name) (m : HostsFile C)
      → AllNames m
      → Dict.lookup ip_eq ip m ≡ some v
      → All P v
  unfolding Dict.lookup
  lookup-All ip v [] hs e = cc
  lookup-All ip v ((j, w) ∷ m) (h, hs) e = elim (Bool-cases (ip_eq.same j ip)) [
    | inl same ↦ let found : w ≡ v = cc (rw same at e) in rw (← found) h
    | inr differ ↦ lookup-All ip v m hs (rw differ at e)
  ]

  append_names-All :
      (ip : IpAddr) (v : List C.Name) (m : HostsFile C)
      → All P v
      → AllNames m
      → AllNames (append_names C ip v m)
  unfolding append_names
  append_names-All ip v m h hs = elim (Option-cases (Dict.lookup ip_eq ip m)) [
    | inl e ↦ rw (append_names, e) (All-insert_names ip v m h hs)
    | inr (names, e) ↦
        rw (append_names, e)
          (All-insert_names ip (names ++ v) m (All-append names v (lookup-All ip names m hs e) h)
            hs)
  ]

  parse_names-All :
      Accepts → (fields : List Text) → Ensures (All P) (parse_names C domain_name fields)
  unfolding parse_names
  parse_names-All accepts [] = tt
  parse_names-All accepts (field ∷ fields) =
      let rest = parse_names-All accepts fields in
      elim (Bool-cases (C.is_match comment_pattern field)) [
        | inl comment ↦ rw (parse_names, comment) tt
        | inr text ↦ elim (Outcome-cases (to_fqdn C field domain_name)) [
          | inl (n, e) ↦
              rw (parse_names, text, e)
                (Ensures-after (All P) (parse_names C domain_name fields) _
                  (λ v ev. (accepts field n e, Ensures-ok (All P) _ ev rest)))
          | inr (inl e) ↦ rw (parse_names, text, e) rest
          | inr (inr e) ↦ rw (parse_names, text, e) tt
        ]
      ]

  parse_fields-All :
      Accepts
      → (fields : List Text) (m : HostsFile C) → AllNames m
      → Ensures AllNames (parse_fields C domain_name fields m)
  unfolding parse_fields
  parse_fields-All accepts [] m h = h
  parse_fields-All accepts (field ∷ fields) m h =
      elim (Bool-cases (C.is_match comment_pattern field)) [
        | inl comment ↦ rw (parse_fields, comment) h
        | inr text ↦ elim (Option-cases (C.parse_ip field)) [
          | inl e ↦ rw (parse_fields, text, e) h
          | inr (ip, e) ↦
              rw (parse_fields, text, e)
                (Ensures-after AllNames (parse_names C domain_name fields) _ (λ v ev.
                  append_names-All ip v m (Ensures-ok (All P) _ ev (parse_names-All accepts fields))
                    h))
        ]
      ]

  parse_line-All :
      Accepts
      → (line : Text) (m : HostsFile C) → AllNames m
      → Ensures AllNames (parse_line C domain_name line m)
  unfolding parse_line
  parse_line-All accepts line m h = elim (Bool-cases (is_empty (trim C.is_space line))) [
    | inl blank ↦ rw (parse_line, blank) h
    | inr text ↦
        rw (parse_line, text) (parse_fields-All accepts (C.split whitespace_pattern line) m h)
  ]

  parse_lines-All :
      Accepts
      → (ls : List Text) (m : HostsFile C) → AllNames m
      → Ensures AllNames (parse_lines C domain_name ls m)
  unfolding parse_lines
  parse_lines-All accepts [] m h = h
  parse_lines-All accepts (line ∷ ls) m h =
      Ensures-after AllNames (parse_line C domain_name line m) _ (λ m' e.
        parse_lines-All accepts ls m' (Ensures-ok AllNames _ e (parse_line-All accepts line m h)))

  parsed-All :
      Accepts
      → (read : Text → Option Text) (file : Option Text)
      → Ensures AllNames (parse_hosts C domain_name read file)
  unfolding parse_hosts
  parsed-All accepts read none = tt
  parsed-All accepts read (some file) = elim (Option-cases (read file)) [
    | inl e ↦ rw (parse_hosts, e) tt
    | inr (content, e) ↦ rw (parse_hosts, e) (parse_lines-All accepts (lines content) [] tt)
  ]

  -- The names of the table are fully qualified names of texts.
  pub parse_hosts-All :
      Accepts
      → (read : Text → Option Text) (file : Option Text) (m : HostsFile C)
      → parse_hosts C domain_name read file ≡ ok m
      → AllNames m
  parse_hosts-All accepts read file m e = Ensures-ok AllNames _ e (parsed-All accepts read file)
