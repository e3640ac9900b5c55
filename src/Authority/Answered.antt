-- ===== src/Authority/Answered.antt =====
-- After `match_or_insert` of src/authority.rs the given addresses are answered.
use zeronsd.Base.{
  ◌≡◌, refl, ◌∙◌, Bool, true, false, ◌&&◌, ◌||◌, not, Option, some, none, List, [], ◌∷◌, map, any,
  all, All, All-map, filter, is_empty, arith, Bool-cases, inl, inr,
}
use mathlib.Core.Path.{subst}
use zeronsd.Net.{IpAddr, v4, v6}
use zeronsd.Dns.{RecordType, RData, rdata_same_iff, contains_rdata, to_record_type}
use zeronsd.Crates.{Crates, Zone}
use zeronsd.Crates.Laws.{IsZoneLawful, lookup_key, rdatas_of, is_stored}
use zeronsd.Authority.{
  rdata_of_ip, has_type, key_of, must_insert, match_or_insert_type, match_or_insert,
}
use zeronsd.Authority.Insert.{is_stored-match_or_insert_type}
use zeronsd.Authority.Keeps.{answered, answered-Keeps, match_or_insert_type-Keeps}

module _ (C : Crates) (L : IsZoneLawful C) where
  -- An address of the version is among those that a round stores.
  any-stored :
      (rt : RecordType) (p : IpAddr → Bool) (ips : List IpAddr)
      → All (λ ip. has_type rt ip ≡ true → p ip ≡ true) ips
      → is_empty (filter (has_type rt) ips) ≡ false
      → any p ips ≡ true
  any-stored rt p [] h some_ip = cc
  any-stored rt p (ip ∷ ips) (h, hs) some_ip = ground (arith, h, any-stored rt p ips hs)

  -- Every address of a list is one of the list.
  contains_self :
      (ips : List IpAddr)
      → All (λ ip. contains_rdata C.name_eq (map rdata_of_ip ips) (rdata_of_ip ip) ≡ true) ips
  contains_self [] = tt
  contains_self (ip ∷ ips) = (
    ground (arith, (rdata_same_iff C.name_eq (rdata_of_ip ip) (rdata_of_ip ip)).1 refl),
    All-map (λ e h. ground (arith, h)) ips (contains_self ips),
  )

  any-shared :
      (d : RData C.Name) (ds : List (RData C.Name)) (ips : List IpAddr)
      → contains_rdata C.name_eq (map rdata_of_ip ips) d ≡ true
      → any (λ ip. contains_rdata C.name_eq (d ∷ ds) (rdata_of_ip ip)) ips ≡ true
  any-shared d ds [] h = cc
  any-shared d ds (ip ∷ ips) h = ground (
    arith,
    rdata_same_iff C.name_eq (rdata_of_ip ip) d,
    rdata_same_iff C.name_eq d (rdata_of_ip ip),
    any-shared d ds ips,
  )

  -- A set of the round's own addresses has one.
  own_answered :
      (ips : List IpAddr) (rt : RecordType) (ds : List (RData C.Name))
      → (is_empty ds
          || (not (all (contains_rdata C.name_eq (map rdata_of_ip ips)) ds)
              && not (is_empty (filter (has_type rt) ips))))
        ≡ false
      → (is_empty (filter (has_type rt) ips)
          || any (λ ip. contains_rdata C.name_eq ds (rdata_of_ip ip)) ips)
        ≡ true
  own_answered ips rt [] h = cc
  own_answered ips rt (d ∷ ds) h = ground (arith, any-shared d ds ips)

  -- A round that writes nothing found one.
  must_insert_answered :
      (ips : List IpAddr) (rt : RecordType) (o : Option C.RecordSet)
      → must_insert C ips rt o ≡ false
      → (is_empty (filter (has_type rt) ips)
          || any (λ ip. contains_rdata C.name_eq (rdatas_of C o) (rdata_of_ip ip)) ips)
        ≡ true
  unfolding must_insert
  must_insert_answered ips rt none h = ground arith
  must_insert_answered ips rt (some set) h =
      own_answered ips rt (C.rdatas set) (rw (← L.set_is_empty_lem set) h)

  has_type-eq :
      (rt : RecordType) (ip : IpAddr)
      → has_type rt ip ≡ true
      → to_record_type (rdata_of_ip {Name = C.Name} ip) ≡ rt
  has_type-eq RecordType.a (v4 x) h = refl
  has_type-eq RecordType.aaaa (v6 x) h = refl
  has_type-eq RecordType.a (v6 x) h = cc
  has_type-eq RecordType.aaaa (v4 x) h = cc
  has_type-eq RecordType.ptr ip h = cc
  has_type-eq RecordType.ns ip h = cc
  has_type-eq RecordType.soa ip h = cc

  -- A round that writes stores every address of its version.
  round_stores :
      (name : C.Name) (ips : List IpAddr) (rt : RecordType) (z : Zone C) (ip : IpAddr)
      → must_insert C ips rt (lookup_key C (key_of C name rt) z) ≡ true
      → contains_rdata C.name_eq (map rdata_of_ip ips) (rdata_of_ip ip) ≡ true
      → has_type rt ip ≡ true
      → is_stored C (key_of C name rt) (match_or_insert_type C name ips rt z) (rdata_of_ip ip)
        ≡ true
  round_stores name ips rt z ip runs given typed =
      subst
        (λ t.
          is_stored C (key_of C name t) (match_or_insert_type C name ips rt z) (rdata_of_ip ip)
          ≡ true)
        (has_type-eq rt ip typed)
        (is_stored-match_or_insert_type C L name ips rt z (rdata_of_ip ip) ∙ rw (runs, given) refl)

  match_or_insert_type-eq :
      (name : C.Name) (ips : List IpAddr) (rt : RecordType) (z : Zone C)
      → must_insert C ips rt (lookup_key C (key_of C name rt) z) ≡ false
      → match_or_insert_type C name ips rt z ≡ z
  unfolding match_or_insert_type
  match_or_insert_type-eq name ips rt z skips = rw skips

  -- After its round the addresses of a version are answered.
  match_or_insert_type-answered :
      (name : C.Name) (ips : List IpAddr) (rt : RecordType) (z : Zone C)
      → answered C (match_or_insert_type C name ips rt z) ips rt (C.lower name) ≡ true
  match_or_insert_type-answered name ips rt z =
      let k = key_of C name rt in
      let z' = match_or_insert_type C name ips rt z in
      elim (Bool-cases (must_insert C ips rt (lookup_key C k z))) [
        | inl runs ↦ elim (Bool-cases (is_empty (filter (has_type rt) ips))) [
          | inl nothing ↦ rw nothing refl
          | inr some_ip ↦ rw some_ip (
              any-stored rt (λ ip. is_stored C k z' (rdata_of_ip ip)) ips
                (All-map (λ ip. round_stores name ips rt z ip runs) ips (contains_self ips))
                some_ip)
        ]
        | inr skips ↦
            rw (match_or_insert_type-eq name ips rt z skips)
              (must_insert_answered ips rt (lookup_key C k z) skips)
      ]

  -- After `match_or_insert` the addresses of both versions are answered.
  pub match_or_insert-answered :
      (name : C.Name) (ips : List IpAddr) (z : Zone C)
      → (answered C (match_or_insert C name ips z) ips RecordType.a (C.lower name)
          && answered C (match_or_insert C name ips z) ips RecordType.aaaa (C.lower name))
        ≡ true
  unfolding match_or_insert
  match_or_insert-answered name ips z =
      let z' = match_or_insert_type C name ips RecordType.a z in
      let z'' = match_or_insert_type C name ips RecordType.aaaa z' in
      ground (
        arith,
        answered-Keeps C z' z'' ips RecordType.a (C.lower name)
            (match_or_insert_type-Keeps C L name ips RecordType.aaaa z')
            (match_or_insert_type-answered name ips RecordType.a z),
        match_or_insert_type-answered name ips RecordType.aaaa z',
      )
