-- ===== src/Tests/Reverses.antt =====
-- Reverse zones after whole refreshes, and the zones between the commits (src/authority.rs) at
-- concrete inputs.
use zeronsd.Base.{◌≡◌, refl, true, Option, none, List, [], ◌∷◌, ◌++◌, Text, ok, ◌⊎◌, inl, some}
use zeronsd.Base.Dict
use zeronsd.Base.Exec.{for_each}
use zeronsd.Net.{ip_same}
use zeronsd.Dns.{RecordType, RData, RrKey, rdata_same, type_same}
use zeronsd.Crates.Laws.{is_stored, lookup_key}
use zeronsd.Hostname.{trim, to_fqdn, to_hostname, to_wildcard, translate}
use zeronsd.Utils.{parse_member_name}
use zeronsd.Authority.{
  RecordAuthority, key_of, upsert_all, replace_ip_record, must_insert, match_or_insert_type,
  match_or_insert, prune_records, remove_all, expired, configure_ptr, set_ptr_record,
}
use zeronsd.Net.{IpAddr}
use zeronsd.Central.{MemberConfig}
use zeronsd.Addresses.{member_sixplane, member_rfc4193}
use zeronsd.Members.Ips.{Parses, Computes, new_record_ips}
use zeronsd.Authority.WellFormed.{IsWellFormed}
use zeronsd.Members.{
  ZtRecord, new_record, assigned_ips, with_computed, insert_member, insert_member_ptr, write_name,
  write_ptr, write_wildcard, write_custom,
}
use zeronsd.Refresh.{start_refresh, refresh_hosts, on_forward, on_reverse, assigned_networks}
use zeronsd.Refresh.Configure.{
  configure_members, refresh_members, refresh_config, refresh_assigned, refresh_each,
  configure_member, reverse_member, reverse_network, reverse_ip, rfc4193_member, prune_all,
  prune_forward, prune_reverse, find_members,
}
use zeronsd.Refresh.Networks.{ipv6_networks}
use zeronsd.Refresh.Forward.{records_of}
use zeronsd.Refresh.Total.{configure_members_succeeds}
use zeronsd.Refresh.Zones.Rounds.{HoldsServer}
use zeronsd.Refresh.Apex.{HasSoa, IsBelow}
use zeronsd.Refresh.Moments.{HasBeen, find_members-HasBeen}
use zeronsd.Refresh.Reverse.Points.{configure_members-points}
use zeronsd.Refresh.Reverse.Sound.{IsReverseName, configure_members-IsReverseName}
use zeronsd.Tests.Toy.{
  ToySet, ToyNetwork, toy, toy-IsNamesLawful, toy-IsZoneLawful, toy-IsRegexLawful,
  toy-IsAppendLawful, long_toy, long_toy-IsNamesLawful, long_toy-IsZoneLawful,
}
use zeronsd.Tests.Refreshes.{seven, laptop, network, server, round, empty-IsWellFormed}
use zeronsd.Tests.HostRounds.{
  with_reverse, laptop_name, laptop_record, laptop_made, wildcards, all_named,
}

find_members-HasBeen_example :
    HoldsServer toy
      (IsBelow toy)
      (HasBeen toy (λ d. []) (HasSoa toy (λ d. none)))
      (find_members toy (round ∷ []) server).1
unfolding Dict.lookup
find_members-HasBeen_example =
    find_members-HasBeen toy toy-IsNamesLawful toy-IsZoneLawful (λ d. none) toy-IsRegexLawful
      toy-IsAppendLawful (λ d. []) (round ∷ []) server (λ d. (empty-IsWellFormed, refl))
      (refl, tt, tt)

abbrev ten : ToyNetwork
ten = record { address = seven; bits = 24 }

abbrev ten_zone : RecordAuthority long_toy
ten_zone = record { domain_name = []; authority = [] }

zone-IsWellFormed : IsWellFormed long_toy ten_zone.authority
unfolding Dict.lookup
zone-IsWellFormed = record { nodup = tt; typed = λ k set e. cc }

reverse_ok : (configure_members long_toy network (laptop ∷ []) with_reverse).0 ≡ ok tt
reverse_ok =
    configure_members_succeeds long_toy long_toy-IsNamesLawful long_toy-IsZoneLawful with_reverse
      network (laptop ∷ []) none (laptop_record ∷ []) all_named refl laptop_made (wildcards, tt)

laptop_alone :
    new_record long_toy laptop none none with_reverse.forward_authority.domain_name true
    ≡ ok laptop_record
unfolding new_record assigned_ips with_computed parse_member_name to_fqdn to_hostname translate trim
laptop_alone = refl

new_record_ips_example :
    (config : MemberConfig) × (laptop.config ≡ some config)
    × (assigned six rfc : List IpAddr) × Parses long_toy config.ip_assignments assigned
    × Computes long_toy none (member_sixplane long_toy laptop) six
    × Computes long_toy none (member_rfc4193 long_toy laptop) rfc
    × (laptop_record.ips ≡ assigned ++ six ++ rfc)
new_record_ips_example =
    new_record_ips long_toy laptop none none with_reverse.forward_authority.domain_name true
      laptop_record laptop_alone

ten_found : Dict.lookup long_toy.net_eq ten with_reverse.reverse_authority_map ≡ some ten_zone
unfolding Dict.lookup ip_same
ten_found = refl

abbrev seven_name : Text
seven_name = 7 ∷ 0 ∷ 0 ∷ 10 ∷ []

configure_members-points_example :
    (b : RecordAuthority long_toy) × (Dict.lookup long_toy.net_eq ten
        (configure_members long_toy network (laptop ∷ []) with_reverse).1.reverse_authority_map
      ≡ some b)
    × (is_stored long_toy
          (key_of long_toy seven_name RecordType.ptr)
          b.authority
          (RData.ptr laptop_name)
        ≡ true)
unfolding ip_same
configure_members-points_example =
    configure_members-points long_toy long_toy-IsNamesLawful long_toy-IsZoneLawful with_reverse
      network ten ten_zone [] [] laptop none none laptop_record [] seven seven_name ten_found
      zone-IsWellFormed reverse_ok refl laptop_alone refl (inl (refl, refl)) refl tt

abbrev seven_key : RrKey Text
seven_key = record { name = seven_name; record_type = RecordType.ptr }

abbrev seven_set : ToySet
seven_set = record { kind = RecordType.ptr; content = RData.ptr laptop_name ∷ [] }

abbrev ten_refreshed : RecordAuthority long_toy
ten_refreshed = record { domain_name = []; authority = (seven_key, seven_set) ∷ [] }

refreshed_found :
    Dict.lookup long_toy.net_eq ten
      (configure_members long_toy network (laptop ∷ []) with_reverse).1.reverse_authority_map
    ≡ some ten_refreshed
unfolding configure_members refresh_members refresh_config refresh_assigned refresh_each
    configure_member new_record assigned_ips with_computed parse_member_name to_fqdn to_hostname
    translate trim to_wildcard refresh_hosts start_refresh on_forward on_reverse insert_member
    insert_member_ptr write_ptr configure_ptr set_ptr_record write_name write_wildcard write_custom
    reverse_member reverse_network reverse_ip rfc4193_member prune_all prune_forward prune_reverse
    prune_records expired remove_all match_or_insert match_or_insert_type must_insert
    replace_ip_record upsert_all assigned_networks for_each Dict.lookup Dict.insert Dict.remove
    type_same rdata_same ip_same
refreshed_found = refl

seven_held : lookup_key long_toy seven_key ten_refreshed.authority ≡ some seven_set
unfolding Dict.lookup type_same
seven_held = refl

configure_members-IsReverseName_example :
    (sixplane rfc4193 : Option ToyNetwork) × (rs : List (ZtRecord long_toy)) × (ipv6_networks
        long_toy network
      ≡ ok (sixplane, rfc4193))
    × (records_of long_toy with_reverse sixplane rfc4193 (laptop ∷ []) ≡ ok rs)
    × (IsReverseName long_toy ten [] rs seven_name
        ⊎ ◌≡◌ {A = RecordType} RecordType.ptr RecordType.soa)
configure_members-IsReverseName_example =
    configure_members-IsReverseName long_toy long_toy-IsNamesLawful long_toy-IsZoneLawful
      with_reverse network (laptop ∷ []) ten ten_zone ten_refreshed seven_key seven_set ten_found
      zone-IsWellFormed reverse_ok refreshed_found seven_held
