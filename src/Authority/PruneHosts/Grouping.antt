-- ===== src/Authority/PruneHosts/Grouping.antt =====
-- `hosts_map` of `prune_hosts` in src/authority.rs: the addresses of each host name.
use zeronsd.Base.{
  ◌≡◌, refl, ◌∙◌, Option, none, some, List, [], ◌∷◌, ◌++◌, is_empty, if◌then◌else◌, Bool-cases,
  Option-cases, inl, inr,
}
use mathlib.Core.List.{append-nil, append_assoc}
use zeronsd.Base.Dict
use zeronsd.Net.{IpAddr}
use zeronsd.Crates.{Crates}
use zeronsd.Authority.{HostsFile, push_one, push_ip, hosts_map}

abbrev pub group : List IpAddr → Option (List IpAddr)
group ips = if is_empty ips then none else some ips

-- `push_ip` for one name.
abbrev with_ip : IpAddr → Option (List IpAddr) → List IpAddr
with_ip ip none = ip ∷ []
with_ip ip (some ips) = ips ++ ip ∷ []

module _ (C : Crates) where
  -- The address once for each time that the names hold the host.
  abbrev pub repeated : C.Name → IpAddr → List C.Name → List IpAddr
  repeated host ip [] = []
  repeated host ip (n ∷ names) =
      let rest = repeated host ip names in if C.name_eq.same n host then ip ∷ rest else rest

  -- The addresses that a hosts file lists for a host, in its order.
  unfoldable pub listed : C.Name → HostsFile C → List IpAddr
  listed host [] = []
  listed host ((ip, names) ∷ hosts) = repeated host ip names ++ listed host hosts

  lookup-push_one :
      (ip : IpAddr) (n host : C.Name) (m : List (C.Name × List IpAddr))
      → Dict.lookup C.name_eq host (push_one C ip n m) ≡ (
          if C.name_eq.same n host
          then some (with_ip ip (Dict.lookup C.name_eq n m))
          else Dict.lookup C.name_eq host m)
  unfolding push_one
  lookup-push_one ip n host m = elim (Option-cases (Dict.lookup C.name_eq n m)) [
    | inl e ↦ rw (e, push_one) (Dict.lookup-insert C.name_eq host n (ip ∷ []) m)
    | inr (ips, e) ↦ rw (e, push_one) (Dict.lookup-insert C.name_eq host n (ips ++ ip ∷ []) m)
  ]

  push_one-NodupKeys :
      (ip : IpAddr) (n : C.Name) (m : List (C.Name × List IpAddr))
      → Dict.NodupKeys C.name_eq m
      → Dict.NodupKeys C.name_eq (push_one C ip n m)
  unfolding push_one
  push_one-NodupKeys ip n m h = elim (Option-cases (Dict.lookup C.name_eq n m)) [
    | inl e ↦ rw (e, push_one) (Dict.insert-NodupKeys C.name_eq n (ip ∷ []) m h)
    | inr (ips, e) ↦ rw (e, push_one) (Dict.insert-NodupKeys C.name_eq n (ips ++ ip ∷ []) m h)
  ]

  with_ip-group : (ip : IpAddr) (ips : List IpAddr) → with_ip ip (group ips) ≡ ips ++ ip ∷ []
  with_ip-group ip [] = refl
  with_ip-group ip (_ ∷ ips) = refl

  group-append_one :
      (ips : List IpAddr) (ip : IpAddr) → some (ips ++ ip ∷ []) ≡ group (ips ++ ip ∷ [])
  group-append_one [] ip = refl
  group-append_one (_ ∷ ips) ip = refl

  lookup-push_ip :
      (host : C.Name) (ip : IpAddr) (names : List C.Name) (m : List (C.Name × List IpAddr))
      (ips : List IpAddr)
      → Dict.lookup C.name_eq host m ≡ group ips
      → Dict.lookup C.name_eq host (push_ip C ip names m) ≡ group (ips ++ repeated host ip names)
  unfolding push_ip
  lookup-push_ip host ip [] m ips h = rw append-nil h
  lookup-push_ip host ip (n ∷ names) m ips h = elim (Bool-cases (C.name_eq.same n host)) [
    | inl same ↦
        let e : n ≡ host = (C.name_eq.same_iff n host).0 same in
        let at : Dict.lookup C.name_eq n m ≡ group ips = rw e h in
        let pushed : Dict.lookup C.name_eq host (push_one C ip n m) ≡ group (ips ++ ip ∷ []) =
          lookup-push_one ip n host m
          ∙ rw (same, at, with_ip-group ip ips) (group-append_one ips ip) in
        rw same (
          lookup-push_ip host ip names (push_one C ip n m) (ips ++ ip ∷ []) pushed
          ∙ rw append_assoc)
    | inr other ↦ rw other (
        lookup-push_ip host ip names (push_one C ip n m) ips
          (lookup-push_one ip n host m ∙ rw other h))
  ]

  pub lookup-hosts_map :
      (host : C.Name) (hosts : HostsFile C) (m : List (C.Name × List IpAddr)) (ips : List IpAddr)
      → Dict.lookup C.name_eq host m ≡ group ips
      → Dict.lookup C.name_eq host (hosts_map C hosts m) ≡ group (ips ++ listed host hosts)
  unfolding hosts_map listed
  lookup-hosts_map host [] m ips h = rw append-nil h
  lookup-hosts_map host ((ip, names) ∷ hosts) m ips h =
      lookup-hosts_map host hosts (push_ip C ip names m) _ (lookup-push_ip host ip names m ips h)
      ∙ rw append_assoc

  push_ip-NodupKeys :
      (ip : IpAddr) (names : List C.Name) (m : List (C.Name × List IpAddr))
      → Dict.NodupKeys C.name_eq m
      → Dict.NodupKeys C.name_eq (push_ip C ip names m)
  unfolding push_ip
  push_ip-NodupKeys ip [] m h = h
  push_ip-NodupKeys ip (n ∷ names) m h = push_ip-NodupKeys ip names _ (push_one-NodupKeys ip n m h)

  pub hosts_map-NodupKeys :
      (hosts : HostsFile C) (m : List (C.Name × List IpAddr))
      → Dict.NodupKeys C.name_eq m
      → Dict.NodupKeys C.name_eq (hosts_map C hosts m)
  unfolding hosts_map
  hosts_map-NodupKeys [] m h = h
  hosts_map-NodupKeys ((ip, names) ∷ hosts) m h =
      hosts_map-NodupKeys hosts _ (push_ip-NodupKeys ip names m h)
