-- ===== src/Launch/ReverseZones.antt =====
-- Which reverse zones `Launcher::start` of src/init.rs makes.
use mathlib.Core.Path.{subst}
use zeronsd.Base.{
  ◌≡◌, refl, ◌∙◌, ap, sym, true, Option, some, none, List, [], ◌∷◌, Text, All, Ensures,
  Ensures-after, Ensures-of, Ensures-ok, Outcome, ok, err, panic, or_err, or_panic, unwrap,
  or_err-eq-ok, or_panic-eq-ok, Option-cases, Bool-cases, inl, inr,
}
use zeronsd.Base.Dict
use zeronsd.Net.{IpAddr}
use zeronsd.Central.{Network, NetworkConfig, V6AssignMode}
use zeronsd.Crates.{Crates}
use zeronsd.Hostname.{to_ptr_soa_name}
use zeronsd.Addresses.{network_rfc4193}
use zeronsd.Utils.{parse_ip_from_cidr}
use zeronsd.Settings.{Launcher}
use zeronsd.Authority.{RecordAuthority}
use zeronsd.Authority.Fresh.{new_zone}
use zeronsd.Refresh.{ZtAuthority, is_on}
use zeronsd.Launch.{World, add_zone, listen_zones, assigned_zone, make_authority, get_member_name}

module _ (C : Crates) where
  -- The map has a zone for the network.
  abbrev pub HasZone : C.IpNetwork → List (C.IpNetwork × RecordAuthority C) → Type 0
  HasZone net m = (authority : RecordAuthority C) × (Dict.lookup C.net_eq net m ≡ some authority)

  HasZone-insert :
      (net cidr : C.IpNetwork) (a : RecordAuthority C) (m : List (C.IpNetwork × RecordAuthority C))
      → HasZone net m
      → HasZone net (Dict.insert C.net_eq cidr a m)
  HasZone-insert net cidr a m (b, h) = elim (Bool-cases (C.net_eq.same cidr net)) [
    | inl same ↦ (a, Dict.lookup-insert C.net_eq net cidr a m ∙ rw same refl)
    | inr differ ↦ (b, Dict.lookup-insert C.net_eq net cidr a m ∙ rw differ h)
  ]

module _ (C : Crates) (W : World C) where
  abbrev Zones : Type 0
  Zones = List (C.IpNetwork × RecordAuthority C)

  -- No zone is lost.
  abbrev Extends : Zones → Zones → Type 0
  Extends m n = (net : C.IpNetwork) → HasZone C net m → HasZone C net n

  add_zone-HasZone :
      (cidr : C.IpNetwork) (m : Zones)
      → Ensures (λ n. HasZone C cidr n × Extends m n) (add_zone C W cidr m)
  unfolding add_zone
  add_zone-HasZone cidr m = elim (Option-cases (Dict.lookup C.net_eq cidr m)) [
    | inr (a, found) ↦ rw (add_zone, found) ((a, found), λ net h. h)
    | inl absent ↦
        rw (add_zone, absent)
          (Ensures-after _ (to_ptr_soa_name C cidr) _ (λ name _.
            Ensures-after _ (new_zone C name name) _ (λ a _. (
              (
                a,
                Dict.lookup-insert C.net_eq cidr cidr a m
                    ∙ rw ((C.net_eq.same_iff cidr cidr).1 refl) refl,
              ),
              λ net h. HasZone-insert C net cidr a m h,
            ))))
  ]

  -- The text is a network that has a zone.
  abbrev pub Covers : Zones → Text → Type 0
  Covers m text = (cidr : C.IpNetwork) × (C.parse_network text ≡ some cidr) × HasZone C cidr m

  Covers-All-Extends :
      (m n : Zones) (ips : List Text) → Extends m n → All (Covers m) ips → All (Covers n) ips
  Covers-All-Extends m n [] e h = tt
  Covers-All-Extends m n (text ∷ ips) e ((cidr, at_cidr, zone), h) =
      ((cidr, at_cidr, e cidr zone), Covers-All-Extends m n ips e h)

  listen_zones-Covers :
      (ips : List Text) (m : Zones)
      → Ensures (λ r. All (Covers r.1) ips × Extends m r.1) (listen_zones C W ips m)
  unfolding listen_zones
  listen_zones-Covers [] m = (tt, λ net h. h)
  listen_zones-Covers (text ∷ ips) m = Ensures-after _ (parse_ip_from_cidr C text) _ (λ ip _.
      Ensures-after _ (or_err (C.parse_network text)) _ (λ cidr at_cidr.
        Ensures-after _ (add_zone C W cidr m) _ (λ longer added.
          Ensures-after _ (listen_zones C W ips longer) _ (λ r rest.
            let (zone, grows) = Ensures-ok _ _ added (add_zone-HasZone cidr m) in
            let (covers, extends) = Ensures-ok _ _ rest (listen_zones-Covers ips longer) in
            (
              ((cidr, or_err-eq-ok _ at_cidr, extends cidr zone), covers),
              λ net h. extends net (grows net h),
            )))))

  some_injective : {A : Type 0} {a b : A} → some a ≡ some b → a ≡ b
  some_injective h = cc h

  -- Each zone that the members' RFC 4193 addresses need.
  abbrev CoversRfc4193 : Zones → Network → Option V6AssignMode → Type 0
  CoversRfc4193 m network none = Unit
  CoversRfc4193 m network (some mode) =
      is_on mode.rfc4193 ≡ true
      → (net : C.IpNetwork) × (network_rfc4193 C network ≡ ok net) × HasZone C net m

  unwrap-eq-ok : {A : Type 0} (r : Outcome A) {a : A} → unwrap r ≡ ok a → r ≡ ok a
  unwrap-eq-ok (ok b) h = h
  unwrap-eq-ok err h = cc
  unwrap-eq-ok panic h = cc

  assigned_zone-CoversRfc4193 :
      (network : Network) (o : Option V6AssignMode) (m : Zones)
      → Ensures (λ n. CoversRfc4193 n network o × Extends m n) (assigned_zone C W network o m)
  unfolding assigned_zone
  assigned_zone-CoversRfc4193 network none m = (tt, λ net h. h)
  assigned_zone-CoversRfc4193 network (some mode) m = elim (Bool-cases (is_on mode.rfc4193)) [
    | inr off ↦ rw (assigned_zone, off) ((λ on. cc on), λ net h. h)
    | inl on ↦
        rw (assigned_zone, on)
          (Ensures-after _ (unwrap (network_rfc4193 C network)) _ (λ net made.
            Ensures-of _ (add_zone C W net m) (λ n added.
              let (zone, grows) = Ensures-ok _ _ added (add_zone-HasZone net m) in
              ((λ _. (net, unwrap-eq-ok _ made, zone)), grows))))
  ]

  -- What the set-up covers, for the network that it fetches.
  make_authority-Ensures :
      (l : Launcher) (network_id : Text) (domain_name : C.Name) (token_path local_url : Text)
      (client : W.Client) (ips : List Text) (network : Network) (config : NetworkConfig)
      → W.get_network_by_id client network_id ≡ some network
      → network.config ≡ some config
      → Ensures
          (λ r.
            All (Covers r.0.reverse_authority_map) ips
            × CoversRfc4193 r.0.reverse_authority_map network config.v6_assign_mode)
          (make_authority C W l network_id domain_name token_path local_url client ips)
  unfolding make_authority
  make_authority-Ensures l network_id domain_name token_path local_url client ips network config
        fetched c =
      Ensures-after _ (listen_zones C W ips []) _ (λ (listen_ips, m) listened.
        Ensures-after _ (get_member_name C W token_path domain_name local_url) _ (λ name _.
          Ensures-after _ (or_err (W.get_network_by_id client network_id)) _ (λ network' fetched'.
            Ensures-after _ (or_panic network'.config) _ (λ config' c'.
              Ensures-after _ (assigned_zone C W network' config'.v6_assign_mode m) _ (λ n assigned.
                Ensures-after _ (new_zone C (C.lower domain_name) name) _ (λ a _.
                  let same : network ≡ network' =
                    some_injective (sym fetched ∙ or_err-eq-ok _ fetched') in
                  let same_config : config ≡ config' =
                    some_injective (sym c ∙ ap (λ x. x.config) same ∙ or_panic-eq-ok _ c') in
                  let (covers, _) = Ensures-ok _ _ listened (listen_zones-Covers ips []) in
                  let (covered, grows) =
                    Ensures-ok _ _ assigned
                      (assigned_zone-CoversRfc4193 network' config'.v6_assign_mode m) in
                  (Covers-All-Extends m n ips grows covers, rw (same, same_config) covered)))))))

  -- If the set-up of the zones succeeds, and Central's configuration of the network assigns RFC
  -- 4193 addresses, then each of the addresses to listen on is a network with a reverse zone, and
  -- the network's RFC 4193 network is computed and has a reverse zone.
  pub make_authority-Covers :
      (l : Launcher) (network_id : Text) (domain_name : C.Name) (token_path local_url : Text)
      (client : W.Client) (ips : List Text) (zt : ZtAuthority C) (listen_ips : List IpAddr)
      (network : Network) (config : NetworkConfig) (mode : V6AssignMode)
      → make_authority C W l network_id domain_name token_path local_url client ips
        ≡ ok (zt, listen_ips)
      → W.get_network_by_id client network_id ≡ some network
      → network.config ≡ some config
      → config.v6_assign_mode ≡ some mode
      → is_on mode.rfc4193 ≡ true
      → All (Covers zt.reverse_authority_map) ips
        × ((net : C.IpNetwork) × (network_rfc4193 C network ≡ ok net)
            × HasZone C net zt.reverse_authority_map)
  make_authority-Covers l network_id domain_name token_path local_url client ips zt listen_ips
        network config mode h fetched c m on =
      let (covers, covered) = Ensures-ok _ _ h (
        make_authority-Ensures l network_id domain_name token_path local_url client ips network
          config fetched c) in
      (covers, subst (CoversRfc4193 zt.reverse_authority_map network) m covered on)
