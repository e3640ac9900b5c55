-- ===== src/Server/Catalog.antt =====
-- Which zone the catalog of `init_catalog` (src/authority.rs) has for a name.
use zeronsd.Base.{
  ◌≡◌, refl, ◌∙◌, ap, sym, Bool, false, Option, some, none, List, [], ◌∷◌, if◌then◌else◌, Outcome,
  ok, err, panic, or_err, or_panic, or_err-eq-ok, or_panic-eq-ok, >>=-eq-ok,
}
use zeronsd.Crates.{Crates}
use zeronsd.Hostname.{to_ptr_soa_name}
use zeronsd.Authority.{RecordAuthority}
use zeronsd.Refresh.{ZtAuthority}
use zeronsd.Server.{Served, forwarder, zone, Servers, add_reverse, init_catalog}

-- A catalog has one zone for a name, the last that was put there.
pub record IsCatalogLawful (C : Crates) (S : Servers C) : Type 0 where
  pub find : S.Catalog → C.LowerName → Option (Served C S.Forwarder)
  pub find-default_catalog : (l : C.LowerName) → find S.default_catalog l ≡ none
  pub find-upsert_zone :
      (name : C.LowerName) (s : Served C S.Forwarder) (c : S.Catalog) (l : C.LowerName)
      → find (S.upsert_zone name s c) l ≡ (if C.lower_eq.same name l then some s else find c l)

module _ (C : Crates) (S : Servers C) where
  -- The name is that of the network's reverse zone.
  abbrev is_reverse_name : C.LowerName → Outcome C.LowerName → Bool
  is_reverse_name l (ok name) = C.lower_eq.same name l
  is_reverse_name l err = false
  is_reverse_name l panic = false

  -- The last of the reverse zones of this name, or else the given one.
  abbrev pub reverse_or :
      Option (Served C S.Forwarder)
      → C.LowerName
      → List (C.IpNetwork × RecordAuthority C)
      → Option (Served C S.Forwarder)
  reverse_or other l [] = other
  reverse_or other l ((network, authority) ∷ rest) =
      reverse_or
        (if is_reverse_name l (to_ptr_soa_name C network)
          then some (zone authority.authority)
          else other)
        l rest

  -- What is answered with: a reverse zone, else the forward zone, and the forwarder for the root.
  abbrev pub served : S.Forwarder → ZtAuthority C → C.LowerName → Option (Served C S.Forwarder)
  served recursor zt l =
      reverse_or
        (if C.lower_eq.same zt.forward_authority.domain_name l
          then some (zone zt.forward_authority.authority)
          else if C.lower_eq.same (C.lower S.root) l
          then some (forwarder recursor)
          else none)
        l zt.reverse_authority_map

  module _ (K : IsCatalogLawful C S) where
    find-add_reverse :
        (reverse : List (C.IpNetwork × RecordAuthority C)) (before after : S.Catalog)
        (l : C.LowerName)
        → add_reverse C S reverse before ≡ ok after
        → K.find after l ≡ reverse_or (K.find before l) l reverse
    unfolding add_reverse
    find-add_reverse [] before after l h =
        let same : before ≡ after = cc in ap (λ c. K.find c l) (sym same)
    find-add_reverse ((network, authority) ∷ rest) before after l h =
        let (name, named, further) = >>=-eq-ok (to_ptr_soa_name C network) _ h in
        find-add_reverse rest _ after l further ∙ rw (K.find-upsert_zone, named) refl

    -- The catalog of a successful `init_catalog` has for each name the last of the reverse zones
    -- of that name; if there is none, it has the forward zone for the name of the domain, and for
    -- the root the forwarder, made from the name servers of the system.
    pub init_catalog_lem :
        (zt : ZtAuthority C) (catalog : S.Catalog) (l : C.LowerName)
        → init_catalog C S zt ≡ ok catalog
        → (conf : List S.NameServer × S.ResolverOpts) × (recursor : S.Forwarder) × (S.system_conf
            ≡ some conf)
          × (S.forwarder_from_config conf.0 (some conf.1) ≡ some recursor)
          × (K.find catalog l ≡ served recursor zt l)
    unfolding init_catalog
    init_catalog_lem zt catalog l h =
        let (conf, at_conf, h1) = >>=-eq-ok (or_err S.system_conf) _ h in
        let (recursor, at_recursor, h2) =
          >>=-eq-ok (or_panic (S.forwarder_from_config conf.0 (some conf.1))) _ h1 in
        (
          conf,
          recursor,
          or_err-eq-ok S.system_conf at_conf,
          or_panic-eq-ok (S.forwarder_from_config conf.0 (some conf.1)) at_recursor,
          find-add_reverse zt.reverse_authority_map _ catalog l h2
              ∙ rw (K.find-upsert_zone, K.find-upsert_zone, K.find-default_catalog) refl,
        )
