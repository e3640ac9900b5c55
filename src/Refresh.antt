-- ===== src/Refresh.antt =====
-- `ZTAuthority` of src/authority.rs: what a refresh of all records does.
-- A refresh works on the zones behind the `Arc`s and on two local lists of names.
pub mod Configure
pub mod HostRecords
pub mod HostAnswers
pub mod Networks
pub mod SameForward
pub mod Forward
pub mod Result
pub mod Answers
pub mod HostRound
pub mod Zones
pub mod Apex
pub mod Moments
pub mod Loop
pub mod Tracks
pub mod Total
pub mod Health
pub mod NewNetwork
pub mod Reverse
pub mod Owners
pub mod Exact
pub mod Stays
use zeronsd.Base.{
  ℕ, Bool, true, false, Option, none, some, List, [], ◌∷◌, ◌++◌, map, Text, if◌then◌else◌, Outcome,
  ok, err, panic, ◌>>=◌, or_err, or_panic,
}
use mathlib.Core.List.{flatten}
use zeronsd.Base.Dict
use zeronsd.Base.Exec
use zeronsd.Base.Exec.{Exec, for_each, continue}
use zeronsd.Net.{IpAddr}
use zeronsd.Central.{Member, MemberConfig, Network, NetworkConfig, V6AssignMode}
use zeronsd.Crates.{Crates, Zone}
use zeronsd.Hostname.{to_ptr_soa_name}
use zeronsd.Addresses.{network_sixplane, network_rfc4193, member_rfc4193}
use zeronsd.Hosts.{parse_hosts}
use zeronsd.Authority.{HostsFile, RecordAuthority, match_or_insert, prune_hosts, prune_records}
use zeronsd.Members.{ZtRecord, new_record, Writing, insert_member, insert_member_ptr, write_ptr}

pub record ZtAuthority (C : Crates) : Type 0 where
  pub network_id : Text
  pub hosts_file : Option Text
  pub reverse_authority_map : List (C.IpNetwork × RecordAuthority C)
  pub forward_authority : RecordAuthority C
  pub wildcard : Bool
  -- in seconds
  pub update_interval : ℕ
  pub hosts : Option (HostsFile C)

-- The variables of `configure_members`: the zones, and the names written to each.
pub record Refresh (C : Crates) : Type 0 where
  pub forward : Zone C
  pub reverse : List (C.IpNetwork × RecordAuthority C)
  pub forward_records : List C.LowerName
  pub reverse_records : List (C.IpNetwork × List C.LowerName)

-- `unwrap_or(false)`
abbrev pub is_on : Option Bool → Bool
is_on none = false
is_on (some b) = b

module _ (C : Crates) where
  -- The loops of `configure_hosts`.
  unfoldable pub insert_names : IpAddr → List C.Name → Zone C → Zone C
  insert_names ip [] z = z
  insert_names ip (hostname ∷ hostnames) z =
      insert_names ip hostnames (match_or_insert C hostname (ip ∷ []) z)

  unfoldable pub insert_hosts : HostsFile C → Zone C → Zone C
  insert_hosts [] z = z
  insert_hosts ((ip, hostnames) ∷ hosts) z = insert_hosts hosts (insert_names ip hostnames z)

  -- `configure_hosts`, from the result of the parser on
  abbrev pub configure_parsed :
      Outcome (HostsFile C) × ZtAuthority C → Outcome (Unit {0}) × ZtAuthority C
  configure_parsed parsed = continue parsed (λ hosts zt'. (
    ok tt,
    record zt' {
      hosts = some hosts;
      forward_authority = record zt'.forward_authority {
        authority = insert_hosts hosts zt'.forward_authority.authority;
      };
    },
  ))

  unfoldable pub configure_hosts : (Text → Option Text) → Exec (ZtAuthority C) (Unit {0})
  configure_hosts read zt =
      configure_parsed
        (parse_hosts C (C.of_lower zt.forward_authority.domain_name) read zt.hosts_file, zt)

  -- The lists at the start of `configure_members`.
  unfoldable pub start_refresh : ZtAuthority C → Refresh C
  start_refresh zt = record {
    forward = zt.forward_authority.authority;
    reverse = zt.reverse_authority_map;
    forward_records = zt.forward_authority.domain_name ∷ [];
    reverse_records =
        map (λ (network, authority). (network, authority.domain_name ∷ []))
          zt.reverse_authority_map;
  }

  -- An operation on the forward authority.
  unfoldable pub on_forward : Exec (Writing C) (Unit {0}) → Exec (Refresh C) (Unit {0})
  on_forward op s =
      let (r, w) = op (record { zone = s.forward; written = s.forward_records }) in
      (r, record s { forward = w.zone; forward_records = w.written })

  -- An operation on the authority of a network, with the list of the names that are written there.
  unfoldable pub on_reverse :
      C.IpNetwork → Exec (Writing C) (Unit {0}) → Exec (Refresh C) (Unit {0})
  on_reverse network op s = elim (Dict.lookup C.net_eq network s.reverse) [
    | none ↦ (panic, s)
    | some authority ↦ elim (Dict.lookup C.net_eq network s.reverse_records) [
      | none ↦ (panic, s)
      | some written ↦
          let (r, w) = op (record { zone = authority.authority; written = written }) in
          (
            r,
            record s {
              reverse =
                  Dict.insert C.net_eq network (record authority { authority = w.zone }) s.reverse;
              reverse_records = Dict.insert C.net_eq network w.written s.reverse_records;
            },
          )
    ]
  ]

  -- `hosts.values().flatten()`
  abbrev pub host_names : HostsFile C → List C.LowerName
  host_names hosts = map C.lower (flatten (map (λ (ip, names). names) hosts))

  -- `if let Some(hosts) = self.hosts { … }`
  unfoldable pub refresh_hosts : Option (HostsFile C) → Exec (Refresh C) (Unit {0})
  refresh_hosts none s = (ok tt, s)
  refresh_hosts (some hosts) s =
      let (r, z) = prune_hosts C hosts s.forward in
      continue (r, record s { forward = z })
        (λ _ s'. (ok tt, record s' { forward_records = s'.forward_records ++ host_names hosts }))

  -- `sixplane`, if the network assigns such addresses
  unfoldable pub sixplane_network : Network → V6AssignMode → Outcome (Option C.IpNetwork)
  sixplane_network network mode =
      if is_on mode.sixplane then (network_sixplane C network >>= λ s. ok (some s)) else ok none

  -- `rfc4193` likewise; the name of its reverse zone is written.
  unfoldable pub rfc4193_network : Network → V6AssignMode → Exec (Refresh C) (Option C.IpNetwork)
  rfc4193_network network mode s =
      if is_on mode.rfc4193
      then continue (network_rfc4193 C network, s)
          (λ net s'. elim (Dict.lookup C.net_eq net s'.reverse_records) [
            | none ↦ (panic, s')
            | some written ↦
                continue (to_ptr_soa_name C net, s')
                  (λ name t. (
                    ok (some net),
                    record t {
                      reverse_records =
                          Dict.insert C.net_eq net (written ++ name ∷ []) t.reverse_records;
                    },
                  ))
          ])
      else (ok none, s)

  unfoldable pub assigned_networks :
      Network → Option V6AssignMode → Exec (Refresh C) (Option C.IpNetwork × Option C.IpNetwork)
  assigned_networks network none s = (ok (none, none), s)
  assigned_networks network (some mode) s =
      continue (sixplane_network network mode, s)
        (λ sixplane s'.
          continue (rfc4193_network network mode s') (λ rfc4193 s''. (ok (sixplane, rfc4193), s'')))
