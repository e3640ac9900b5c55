-- ===== src/Refresh/HostRecords.antt =====
-- `configure_hosts` of src/authority.rs: the records of the hosts file.
use zeronsd.Base.{◌≡◌, refl, true, Option, some, List, [], ◌∷◌, Text, All, All-map, ok}
use zeronsd.Net.{IpAddr}
use zeronsd.Dns.{to_record_type}
use zeronsd.Crates.{Crates, Zone}
use zeronsd.Crates.Laws.{IsZoneLawful, is_stored}
use zeronsd.Hosts.{parse_hosts}
use zeronsd.Authority.{HostsFile, rdata_of_ip, key_of, match_or_insert}
use zeronsd.Authority.Insert.{match_or_insert_keeps}
use zeronsd.Authority.Answers.{match_or_insert_single}
use zeronsd.Refresh.{ZtAuthority, insert_names, insert_hosts, configure_hosts}

module _ (C : Crates) where
  -- The name has a record for the address.
  abbrev pub Resolves : Zone C → C.Name → IpAddr → Type 0
  Resolves z name ip =
      is_stored C (key_of C name (to_record_type (rdata_of_ip {Name = C.Name} ip))) z
        (rdata_of_ip ip)
      ≡ true

  -- All names of the hosts file have the records that it lists.
  abbrev pub ResolvesAll : Zone C → HostsFile C → Type 0
  ResolvesAll z hosts = All (λ (ip, names). All (λ name. Resolves z name ip) names) hosts

module _ (C : Crates) (L : IsZoneLawful C) where
  insert_names_keeps :
      (ip : IpAddr) (names : List C.Name) (z : Zone C) (name : C.Name) (j : IpAddr)
      → Resolves C z name j
      → Resolves C (insert_names C ip names z) name j
  unfolding insert_names
  insert_names_keeps ip [] z name j h = h
  insert_names_keeps ip (n ∷ names) z name j h =
      insert_names_keeps ip names (match_or_insert C n (ip ∷ []) z) name j
        (match_or_insert_keeps C L n (ip ∷ []) z name (rdata_of_ip j) h)

  insert_names_stores :
      (ip : IpAddr) (names : List C.Name) (z : Zone C)
      → All (λ name. Resolves C (insert_names C ip names z) name ip) names
  unfolding insert_names
  insert_names_stores ip [] z = tt
  insert_names_stores ip (n ∷ names) z = (
    insert_names_keeps ip names (match_or_insert C n (ip ∷ []) z) n ip
        (match_or_insert_single C L n ip z),
    insert_names_stores ip names (match_or_insert C n (ip ∷ []) z),
  )

  insert_hosts_keeps :
      (hosts : HostsFile C) (z : Zone C) (name : C.Name) (j : IpAddr)
      → Resolves C z name j
      → Resolves C (insert_hosts C hosts z) name j
  unfolding insert_hosts
  insert_hosts_keeps [] z name j h = h
  insert_hosts_keeps ((ip, names) ∷ hosts) z name j h =
      insert_hosts_keeps hosts (insert_names C ip names z) name j
        (insert_names_keeps ip names z name j h)

  insert_hosts_stores :
      (hosts : HostsFile C) (z : Zone C) → ResolvesAll C (insert_hosts C hosts z) hosts
  unfolding insert_hosts
  insert_hosts_stores [] z = tt
  insert_hosts_stores ((ip, names) ∷ hosts) z = (
    All-map (λ n. insert_hosts_keeps hosts (insert_names C ip names z) n ip) names
        (insert_names_stores ip names z),
    insert_hosts_stores hosts (insert_names C ip names z),
  )

  -- If the hosts file can be read and parsed, `configure_hosts` succeeds and keeps the table,
  -- every name of the table has a record for each address that lists it, and every address record
  -- that a name had is still there.
  pub configure_hosts_stores :
      (read : Text → Option Text) (zt : ZtAuthority C) (hosts : HostsFile C)
      → parse_hosts C (C.of_lower zt.forward_authority.domain_name) read zt.hosts_file ≡ ok hosts
      → ((configure_hosts C read zt).0 ≡ ok tt)
        × ((configure_hosts C read zt).1.hosts ≡ some hosts)
        × ResolvesAll C (configure_hosts C read zt).1.forward_authority.authority hosts
        × ((name : C.Name) (ip : IpAddr)
            → Resolves C zt.forward_authority.authority name ip
            → Resolves C (configure_hosts C read zt).1.forward_authority.authority name ip)
  unfolding configure_hosts
  configure_hosts_stores read zt hosts e =
      rw e
        (refl, refl, insert_hosts_stores hosts _, λ name ip h. insert_hosts_keeps hosts _ name ip h)
