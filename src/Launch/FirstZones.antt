-- ===== src/Launch/FirstZones.antt =====
-- The zones that `Launcher::start` of src/init.rs makes, and what the rounds of `find_members` of
-- src/authority.rs keep of them.
use zeronsd.Base.{
  ◌≡◌, Option, some, none, List, [], ◌∷◌, Text, Ensures, Ensures-after, Ensures-ok, ok, or_err,
  or_panic, unwrap, Option-cases, Bool-cases, inl, inr,
}
use zeronsd.Base.Dict
use zeronsd.Net.{IpAddr}
use zeronsd.Central.{Network, V6AssignMode}
use zeronsd.Crates.{Crates}
use zeronsd.Crates.Laws.{IsNamesLawful, IsZoneLawful, IsAuthorityLawful}
use zeronsd.Hostname.{to_ptr_soa_name}
use zeronsd.Hostname.Runs.{IsRegexLawful}
use zeronsd.Hostname.Domains.{IsAppendLawful}
use zeronsd.Addresses.{network_rfc4193}
use zeronsd.Utils.{parse_ip_from_cidr}
use zeronsd.Settings.{Launcher}
use zeronsd.Authority.{RecordAuthority}
use zeronsd.Authority.Fresh.{new_zone}
use zeronsd.Refresh.{ZtAuthority, is_on}
use zeronsd.Refresh.Configure.{Round, find_members}
use zeronsd.Refresh.Zones.{HoldsFor, HoldsReverse, All-insert}
use zeronsd.Refresh.Zones.Rounds.{HoldsServer}
use zeronsd.Refresh.Apex.{HasSoa, IsBelow, find_members-HasSoa}
use zeronsd.Launch.NewZone.{soa_at_start, new_zone-HasSoa}
use zeronsd.Launch.{World, add_zone, listen_zones, assigned_zone, make_authority, get_member_name}

module _ (C : Crates) (W : World C) (N : IsNamesLawful C) (L : IsZoneLawful C)
    (A : IsAuthorityLawful C) where
  abbrev AllStarted : List (C.IpNetwork × RecordAuthority C) → Type 0
  AllStarted m = HoldsReverse C (HasSoa C (soa_at_start C)) m

  add_zone-AllStarted :
      (cidr : C.IpNetwork) (m : List (C.IpNetwork × RecordAuthority C))
      → AllStarted m
      → Ensures AllStarted (add_zone C W cidr m)
  unfolding add_zone
  add_zone-AllStarted cidr m h = elim (Option-cases (Dict.lookup C.net_eq cidr m)) [
    | inr (a, found) ↦ rw (add_zone, found) h
    | inl absent ↦
        rw (add_zone, absent)
          (Ensures-after _ (to_ptr_soa_name C cidr) _ (λ name _.
            Ensures-after _ (new_zone C name name) _ (λ a made.
              All-insert (λ e. HoldsFor C (HasSoa C (soa_at_start C)) e.1) cidr a C.net_eq m
                (Ensures-ok _ _ made (new_zone-HasSoa C N L A name name)) h)))
  ]

  listen_zones-AllStarted :
      (ips : List Text) (m : List (C.IpNetwork × RecordAuthority C))
      → AllStarted m
      → Ensures (λ r. AllStarted r.1) (listen_zones C W ips m)
  unfolding listen_zones
  listen_zones-AllStarted [] m h = h
  listen_zones-AllStarted (text ∷ ips) m h = Ensures-after _ (parse_ip_from_cidr C text) _ (λ ip _.
      Ensures-after _ (or_err (C.parse_network text)) _ (λ cidr _.
        Ensures-after _ (add_zone C W cidr m) _ (λ longer added.
          Ensures-after _ (listen_zones C W ips longer) _ (λ r rest. Ensures-ok _ _ rest (
            listen_zones-AllStarted ips longer
              (Ensures-ok _ _ added (add_zone-AllStarted cidr m h)))))))

  assigned_zone-AllStarted :
      (network : Network) (o : Option V6AssignMode) (m : List (C.IpNetwork × RecordAuthority C))
      → AllStarted m
      → Ensures AllStarted (assigned_zone C W network o m)
  unfolding assigned_zone
  assigned_zone-AllStarted network none m h = h
  assigned_zone-AllStarted network (some mode) m h = elim (Bool-cases (is_on mode.rfc4193)) [
    | inr off ↦ rw (assigned_zone, off) h
    | inl on ↦
        rw (assigned_zone, on)
          (Ensures-after _ (unwrap (network_rfc4193 C network)) _
            (λ net _. add_zone-AllStarted net m h))
  ]

  make_authority-HoldsServer :
      (l : Launcher) (network_id : Text) (domain_name : C.Name) (token_path local_url : Text)
      (client : W.Client) (ips : List Text)
      → Ensures
          (λ r. HoldsServer C (IsBelow C) (HasSoa C (soa_at_start C)) r.0)
          (make_authority C W l network_id domain_name token_path local_url client ips)
  unfolding make_authority
  make_authority-HoldsServer l network_id domain_name token_path local_url client ips =
      Ensures-after _ (listen_zones C W ips []) _ (λ (listen_ips, m) listened.
        Ensures-after _ (get_member_name C W token_path domain_name local_url) _ (λ name _.
          Ensures-after _ (or_err (W.get_network_by_id client network_id)) _ (λ network _.
            Ensures-after _ (or_panic network.config) _ (λ config _.
              Ensures-after _ (assigned_zone C W network config.v6_assign_mode m) _ (λ n assigned.
                Ensures-after _ (new_zone C (C.lower domain_name) name) _ (λ a made. (
                  Ensures-ok _ _ made (new_zone-HasSoa C N L A (C.lower domain_name) name),
                  Ensures-ok _ _ assigned (
                      assigned_zone-AllStarted network config.v6_assign_mode m
                        (Ensures-ok _ _ listened (listen_zones-AllStarted ips [] tt))),
                  tt,
                )))))))

  -- If names are lower-cased, put below the domain and matched, and zones are made of their first
  -- sets, as documented, and the set-up of the zones succeeds, then after any rounds of
  -- `find_members`, whatever Central and the hosts file give and however the rounds end, every
  -- zone of the server is well formed and the SOA set of its name is the one that it got at the
  -- start, with its numbers; and the table of hosts lists no address for the name of the forward
  -- zone.
  pub find_members-make_authority :
      IsRegexLawful C
      → IsAppendLawful C
      → (l : Launcher) (network_id : Text) (domain_name : C.Name) (token_path local_url : Text)
        (client : W.Client) (ips : List Text) (zt : ZtAuthority C) (listen_ips : List IpAddr)
        (rounds : List (Round C))
      → make_authority C W l network_id domain_name token_path local_url client ips
        ≡ ok (zt, listen_ips)
      → HoldsServer C (IsBelow C) (HasSoa C (soa_at_start C)) (find_members C rounds zt).1
  find_members-make_authority R B l network_id domain_name token_path local_url client ips zt
        listen_ips rounds made =
      find_members-HasSoa C N L (soa_at_start C) R B rounds zt (
        Ensures-ok _ _ made
          (make_authority-HoldsServer l network_id domain_name token_path local_url client ips))
