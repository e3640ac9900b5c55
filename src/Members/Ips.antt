-- ===== src/Members/Ips.antt =====
-- The addresses that `ZTRecord::new` of src/authority.rs gives the record of a member.
use zeronsd.Base.{
  ◌≡◌, refl, ◌∙◌, ap, Bool, Option, none, some, Text, map, map_all, >>=-eq-ok, or_panic-eq-ok, List,
  [], ◌∷◌, ◌++◌, All, All-last, Outcome, ok, or_panic, Ensures, Ensures-after, Ensures-ok,
}
use mathlib.Core.Path.{subst}
use mathlib.Core.List.{append-nil}
use zeronsd.Net.{IpAddr}
use zeronsd.Central.{Member, MemberConfig}
use zeronsd.Crates.{Crates}
use zeronsd.Hostname.{to_fqdn}
use zeronsd.Utils.{parse_member_name}
use zeronsd.Addresses.{member_sixplane, member_rfc4193}
use zeronsd.Members.{ZtRecord, assigned_ips, with_computed, new_record}

module _ (C : Crates) (m : Member) (sixplane rfc4193 : Option C.IpNetwork) where
  -- The assigned addresses, then the 6PLANE and the RFC 4193 address, where the network has such.
  abbrev pub HasIps : ZtRecord C → Type 0
  HasIps r =
      (assigned with_sixplane : List IpAddr) × (assigned_ips C m ≡ ok assigned)
      × (with_computed C sixplane (member_sixplane C m) assigned ≡ ok with_sixplane)
      × (with_computed C rfc4193 (member_rfc4193 C m) with_sixplane ≡ ok r.ips)

  new_record-HasIps :
      (domain_name : C.Name) (wildcard : Bool)
      → Ensures HasIps (new_record C m sixplane rfc4193 domain_name wildcard)
  unfolding new_record
  new_record-HasIps domain_name wildcard = Ensures-after HasIps (or_panic m.node_id) _ (λ node_id _.
      Ensures-after HasIps (to_fqdn C _ domain_name) _ (λ fqdn _.
        Ensures-after HasIps (parse_member_name C m.name domain_name) _ (λ custom_name _.
          Ensures-after HasIps (assigned_ips C m) _ (λ assigned first.
            Ensures-after HasIps (with_computed C sixplane (member_sixplane C m) assigned) _
              (λ with_sixplane second.
                Ensures-after HasIps (with_computed C rfc4193 (member_rfc4193 C m) with_sixplane) _
                  (λ ips third. (assigned, with_sixplane, first, second, third)))))))

-- The last of the addresses of a member of a network with RFC 4193 addresses is the member's.
last_ip :
    (C : Crates) (P : IpAddr → Type 0) (ptr : C.IpNetwork) (computed : Outcome C.IpNetwork)
    (ips all : List IpAddr) (address : C.IpNetwork)
    → with_computed C (some ptr) computed ips ≡ ok all
    → computed ≡ ok address
    → All P all
    → P (C.network_ip address)
unfolding with_computed
last_ip C P ptr computed ips all address made e h =
    let same : ◌≡◌ {A = Outcome (List IpAddr)} (ok (ips ++ C.network_ip address ∷ [])) (ok all) =
      rw e at made in
    let whole : ips ++ C.network_ip address ∷ [] ≡ all = cc same in
    All-last P ips (C.network_ip address) (rw whole h)

-- What holds of all addresses of a member's record, holds of its RFC 4193 address.
pub rfc4193_ip :
    (C : Crates) (P : IpAddr → Type 0) (m : Member) (sixplane : Option C.IpNetwork)
    (domain_name : C.Name) (wildcard : Bool) (r : ZtRecord C) (ptr address : C.IpNetwork)
    → new_record C m sixplane (some ptr) domain_name wildcard ≡ ok r
    → All P r.ips
    → member_rfc4193 C m ≡ ok address
    → P (C.network_ip address)
rfc4193_ip C P m sixplane domain_name wildcard r ptr address made h e =
    let (_, before, _, _, last) =
      Ensures-ok (HasIps C m sixplane (some ptr))
        (new_record C m sixplane (some ptr) domain_name wildcard) made
        (new_record-HasIps C m sixplane (some ptr) domain_name wildcard) in
    last_ip C P ptr (member_rfc4193 C m) before r.ips address last e h

-- The parser of an assigned address.
map_all-or_panic :
    {A B : Type 0} (f : A → Option B) (xs : List A) (ys : List B)
    → map_all (λ x. or_panic (f x)) xs ≡ ok ys
    → map f xs ≡ map some ys
map_all-or_panic f [] [] h = refl
map_all-or_panic f [] (y ∷ ys) h = cc
map_all-or_panic f (x ∷ xs) ys h =
    let (y, first, more) = >>=-eq-ok (or_panic (f x)) _ h in
    let (rest, others, last) = >>=-eq-ok (map_all (λ x. or_panic (f x)) xs) _ more in
    let whole : y ∷ rest ≡ ys = cc last in
    subst (λ l. map f (x ∷ xs) ≡ map some l) whole
      (rw (or_panic-eq-ok (f x) first, map_all-or_panic f xs rest others) refl)

module _ (C : Crates) where
  -- The addresses are those of the texts, all of which are addresses; none without texts.
  abbrev pub Parses : Option (List Text) → List IpAddr → Type 0
  Parses none ips = ips ≡ []
  Parses (some texts) ips = map C.parse_ip texts ≡ map some ips

  -- The computed address alone, if the network assigns such addresses, and else none.
  abbrev pub Computes : Option C.IpNetwork → Outcome C.IpNetwork → List IpAddr → Type 0
  Computes none computed ips = ips ≡ []
  Computes (some _) computed ips =
      (address : C.IpNetwork) × (computed ≡ ok address) × (ips ≡ C.network_ip address ∷ [])

  each-Parses :
      (texts : Option (List Text)) (ips : List IpAddr)
      → elim texts [ none ↦ ok [] | some v ↦ map_all (λ s. or_panic (C.parse_ip s)) v ] ≡ ok ips
      → Parses texts ips
  each-Parses none ips h = cc h
  each-Parses (some v) ips h = map_all-or_panic C.parse_ip v ips h

  assigned_ips-Parses :
      (m : Member) (assigned : List IpAddr)
      → assigned_ips C m ≡ ok assigned
      → (config : MemberConfig) × (m.config ≡ some config) × Parses config.ip_assignments assigned
  unfolding assigned_ips
  assigned_ips-Parses m assigned h =
      let (config, has, rest) = >>=-eq-ok (or_panic m.config) _ h in
      (config, or_panic-eq-ok m.config has, each-Parses config.ip_assignments assigned rest)

  with_computed-Computes :
      (o : Option C.IpNetwork) (computed : Outcome C.IpNetwork) (ips all : List IpAddr)
      → with_computed C o computed ips ≡ ok all
      → (more : List IpAddr) × Computes o computed more × (all ≡ ips ++ more)
  unfolding with_computed
  with_computed-Computes none computed ips all h = ([], refl, rw (append-nil ips) (cc h))
  with_computed-Computes (some ptr) computed ips all h =
      let (address, made, whole) = >>=-eq-ok computed _ h in
      (C.network_ip address ∷ [], (address, made, refl), cc whole)

  -- If `ZTRecord::new` makes the record of a member, then the member has a configuration, and the
  -- addresses of the record are, in this order: those of its assigned texts, each of which is an
  -- address; the member's 6PLANE address, just if a 6PLANE network is given; and the member's RFC
  -- 4193 address, just if an RFC 4193 network is given.
  pub new_record_ips :
      (m : Member) (sixplane rfc4193 : Option C.IpNetwork) (domain_name : C.Name) (wildcard : Bool)
      (r : ZtRecord C)
      → new_record C m sixplane rfc4193 domain_name wildcard ≡ ok r
      → (config : MemberConfig) × (m.config ≡ some config)
        × (assigned six rfc : List IpAddr) × Parses config.ip_assignments assigned
        × Computes sixplane (member_sixplane C m) six
        × Computes rfc4193 (member_rfc4193 C m) rfc
        × (r.ips ≡ assigned ++ six ++ rfc)
  new_record_ips m sixplane rfc4193 domain_name wildcard r made =
      let (assigned, with_sixplane, first, second, third) =
        Ensures-ok (HasIps C m sixplane rfc4193)
          (new_record C m sixplane rfc4193 domain_name wildcard) made
          (new_record-HasIps C m sixplane rfc4193 domain_name wildcard) in
      let (config, has, parsed) = assigned_ips-Parses m assigned first in
      let (six, is_six, e) =
        with_computed-Computes sixplane (member_sixplane C m) assigned with_sixplane second in
      let (rfc, is_rfc, e') =
        with_computed-Computes rfc4193 (member_rfc4193 C m) with_sixplane r.ips third in
      (config, has, assigned, six, rfc, parsed, is_six, is_rfc, e' ∙ ap (λ l. l ++ rfc) e)
