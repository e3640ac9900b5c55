-- ===== src/Tests/Launches.antt =====
-- The zones of a server from its start on (src/init.rs, src/authority.rs) at concrete inputs.
use zeronsd.Base.{◌≡◌, ◌⊎◌, ◌>>=◌, refl, some, List, [], ◌∷◌, Text, map_all, ok}
use zeronsd.Base.Dict
use zeronsd.Net.{ip_same}
use zeronsd.Crates.Laws.{IsAuthorityLawful}
use zeronsd.Hostname.{trim, trim_start, to_fqdn, to_hostname, to_ptr_soa_name, translate}
use zeronsd.Addresses.{network_rfc4193, digest_hex, fold_bytes}
use zeronsd.Utils.{linux, authtoken_path, central_token, parse_ip_from_cidr, domain_or_default}
use zeronsd.Launch.Updates.{Listens, Sends, start-Sends}
use zeronsd.Settings.{default_launcher}
use zeronsd.Authority.Fresh.{new_zone, configure_authority}
use zeronsd.Refresh.Configure.{find_members}
use zeronsd.Refresh.Zones.Rounds.{HoldsServer}
use zeronsd.Refresh.Apex.{HasSoa, IsBelow}
use zeronsd.Launch.{
  make_authority, listen_zones, assigned_zone, add_zone, get_member_name, local_client_from_file,
  local_client, version, central_client, url_of, start,
}
use zeronsd.Launch.NewZone.{soa_at_start}
use zeronsd.Launch.FirstZones.{find_members-make_authority}
use zeronsd.Tests.Toy.{
  toy, toy-IsNamesLawful, toy-IsZoneLawful, toy-IsRegexLawful, toy-IsAppendLawful,
}
use zeronsd.Tests.Services.{world, set_up}
use zeronsd.Tests.Servers.{settings}
use zeronsd.Tests.Refreshes.{round}

toy-IsAuthorityLawful : IsAuthorityLawful toy
toy-IsAuthorityLawful = record {
  lookup-new_authority = λ origin rs r soa z k e f. cc f;
  new_authority-NodupKeys = λ origin m z e h. let p : m ≡ z = cc e in rw (← p) h;
  set_type-insert_record = λ set r s e. refl;
}

is_set_up :
    make_authority toy world default_launcher [] (b'z' ∷ []) [] [] tt ((b'7' ∷ []) ∷ []) ≡ ok set_up
unfolding make_authority listen_zones assigned_zone add_zone get_member_name parse_ip_from_cidr
    local_client_from_file local_client version new_zone configure_authority to_ptr_soa_name to_fqdn
    to_hostname translate trim trim_start network_rfc4193 digest_hex fold_bytes Dict.lookup
    Dict.insert ip_same
is_set_up = refl

find_members-make_authority_example :
    HoldsServer toy
      (IsBelow toy)
      (HasSoa toy (soa_at_start toy))
      (find_members toy (round ∷ []) set_up.0).1
find_members-make_authority_example =
    find_members-make_authority toy world toy-IsNamesLawful toy-IsZoneLawful toy-IsAuthorityLawful
      toy-IsRegexLawful toy-IsAppendLawful default_launcher [] (b'z' ∷ []) [] [] tt
      ((b'7' ∷ []) ∷ []) set_up.0 set_up.1 (round ∷ []) is_set_up

start-Sends_example :
    ((start toy world linux settings []).1 ≡ [])
    ⊎ ((network_id : Text) × (domain_name : Text) × (authtoken : Text) × (client : Unit {0}) × (ips
          texts : List Text)
        × (settings.network_id ≡ some network_id)
        × (domain_or_default toy settings.domain ≡ ok domain_name)
        × (authtoken_path linux settings.secret ≡ ok authtoken)
        × (central_token toy world.read world.token_variable settings.token
              >>= central_client toy world
            ≡ ok client)
        × Listens toy world authtoken network_id (url_of toy world settings.local_url) ips
        × (map_all (λ ip. parse_ip_from_cidr toy ip >>= λ parsed. ok (world.ip_text parsed)) ips
            ≡ ok texts)
        × Sends toy world domain_name texts client network_id []
            (start toy world linux settings []).1)
start-Sends_example = start-Sends toy world linux settings []
