-- ===== src/Authority/Answers.antt =====
-- Which addresses a name has after `match_or_insert` of src/authority.rs, case by case.
use zeronsd.Base.{
  ◌≡◌, refl, ◌∙◌, ap, Bool, true, false, not, ◌&&◌, Option, none, some, List, [], ◌∷◌, map, all,
  filter, is_empty, arith, Bool-cases, inl, inr,
}
use zeronsd.Net.{IpAddr, v4, v6}
use zeronsd.Dns.{RecordType, RData, rdata_same_iff, contains_rdata, to_record_type}
use zeronsd.Crates.{Crates, Zone}
use zeronsd.Crates.Laws.{IsZoneLawful, is_stored, lookup_key, rdatas_of}
use zeronsd.Authority.{
  rdata_of_ip, has_type, key_of, must_insert, match_or_insert_type, match_or_insert,
}
use zeronsd.Authority.Insert.{is_address, is_stored-match_or_insert_type}

module _ (C : Crates) where
  -- Every address is written only if one of the version of the round is there to begin with.
  contains-rdata_of_ip :
      (ips : List IpAddr) (d : RData C.Name)
      → contains_rdata C.name_eq (map rdata_of_ip ips) d ≡ true
      → (is_empty (filter (has_type RecordType.a) ips)
          && is_empty (filter (has_type RecordType.aaaa) ips))
        ≡ false
  contains-rdata_of_ip [] d h = cc
  contains-rdata_of_ip (v4 x ∷ ips) d h = refl
  contains-rdata_of_ip (v6 x ∷ ips) d h = ground arith

  -- A set of one address that holds nothing else.
  contains_of_all :
      (ds : List (RData C.Name)) (e : RData C.Name)
      → is_empty ds ≡ false
      → all (contains_rdata C.name_eq (e ∷ [])) ds ≡ true
      → contains_rdata C.name_eq ds e ≡ true
  contains_of_all [] e h k = cc
  contains_of_all (d ∷ ds) e h k =
      ground (arith, rdata_same_iff C.name_eq e d, rdata_same_iff C.name_eq d e)

module _ (C : Crates) where
  -- The name's set of a type has an address, and only addresses of `ips`; or there is no such set,
  -- and no address of the type in `ips`.
  abbrev pub covers : List IpAddr → RecordType → Option C.RecordSet → Bool
  covers ips rt none = is_empty (filter (has_type rt) ips)
  covers ips rt (some set) =
      not (is_empty (C.rdatas set))
      && all (contains_rdata C.name_eq (map rdata_of_ip ips)) (C.rdatas set)

  abbrev pub IsCovered : C.Name → List IpAddr → RecordType → Zone C → Type 0
  IsCovered name ips rt z = covers ips rt (lookup_key C (key_of C name rt) z) ≡ true

module _ (C : Crates) (L : IsZoneLawful C) where
  pub is_stored_of_none :
      (name : C.Name) (z : Zone C) (d : RData C.Name)
      → lookup_key C (key_of C name RecordType.a) z ≡ none
      → lookup_key C (key_of C name RecordType.aaaa) z ≡ none
      → is_address (to_record_type d) ≡ true
      → is_stored C (key_of C name (to_record_type d)) z d ≡ false
  is_stored_of_none name z (RData.a x) ha haaaa h = rw ha
  is_stored_of_none name z (RData.aaaa x) ha haaaa h = rw haaaa
  is_stored_of_none name z (RData.ptr x) ha haaaa h = cc
  is_stored_of_none name z (RData.ns x) ha haaaa h = cc
  is_stored_of_none name z (RData.soa x) ha haaaa h = cc

  -- If a name has neither an A nor an AAAA set, then after `match_or_insert` it has exactly the
  -- given addresses: an address record of its is stored if and only if its address is one of them.
  pub match_or_insert_fresh :
      (name : C.Name) (ips : List IpAddr) (z : Zone C) (d : RData C.Name)
      → lookup_key C (key_of C name RecordType.a) z ≡ none
      → lookup_key C (key_of C name RecordType.aaaa) z ≡ none
      → is_address (to_record_type d) ≡ true
      → is_stored C (key_of C name (to_record_type d)) (match_or_insert C name ips z) d
        ≡ contains_rdata C.name_eq (map rdata_of_ip ips) d
  unfolding match_or_insert match_or_insert_type must_insert
  match_or_insert_fresh name ips z d ha haaaa h =
      let z' = match_or_insert_type C name ips RecordType.a z in
      elim (Bool-cases (is_empty (filter (has_type RecordType.a) ips))) [
        | inl none4 ↦
            let same : z' ≡ z = rw (ha, none4) in
            let lookup' : lookup_key C (key_of C name RecordType.aaaa) z' ≡ none = rw same haaaa in
            ground (
              arith,
              is_stored-match_or_insert_type C L name ips RecordType.aaaa z' d,
              ap (λ y. is_stored C (key_of C name (to_record_type d)) y d) same,
              lookup',
              is_stored_of_none name z d ha haaaa h,
              contains-rdata_of_ip C ips d,
            )
        | inr some4 ↦ ground (
          arith,
          is_stored-match_or_insert_type C L name ips RecordType.a z d,
          is_stored-match_or_insert_type C L name ips RecordType.aaaa z' d,
          is_stored_of_none name z d ha haaaa h,
          ha,
        )
      ]

  must_insert_single :
      (ip : IpAddr) (o : Option C.RecordSet)
      → must_insert C (ip ∷ []) (to_record_type (rdata_of_ip {Name = C.Name} ip)) o ≡ false
      → contains_rdata C.name_eq (rdatas_of C o) (rdata_of_ip ip) ≡ true
  unfolding must_insert
  must_insert_single (v4 x) none h = cc
  must_insert_single (v6 x) none h = cc
  must_insert_single (v4 x) (some set) h =
      ground (arith, L.set_is_empty_lem set, contains_of_all C (C.rdatas set) (RData.a x))
  must_insert_single (v6 x) (some set) h =
      ground (arith, L.set_is_empty_lem set, contains_of_all C (C.rdatas set) (RData.aaaa x))

  -- The round of an address's own type leaves that address stored.
  is_stored-match_or_insert_type_self :
      (name : C.Name) (ip : IpAddr) (z : Zone C)
      → let rt = to_record_type (rdata_of_ip {Name = C.Name} ip) in
        is_stored C (key_of C name rt) (match_or_insert_type C name (ip ∷ []) rt z) (rdata_of_ip ip)
        ≡ true
  is_stored-match_or_insert_type_self name ip z =
      let rt = to_record_type (rdata_of_ip {Name = C.Name} ip) in
      let o = lookup_key C (key_of C name rt) z in
      is_stored-match_or_insert_type C L name (ip ∷ []) rt z (rdata_of_ip ip)
      ∙ elim (Bool-cases (must_insert C (ip ∷ []) rt o)) [
        | inl runs ↦ rw (runs, (rdata_same_iff C.name_eq (rdata_of_ip ip) (rdata_of_ip ip)).1 refl)
        | inr skips ↦ rw skips (must_insert_single ip o skips)
      ]

  -- After `match_or_insert` with a single address the name has a record for it, whatever the zone
  -- had before.
  pub match_or_insert_single :
      (name : C.Name) (ip : IpAddr) (z : Zone C)
      → is_stored C
          (key_of C name (to_record_type (rdata_of_ip {Name = C.Name} ip)))
          (match_or_insert C name (ip ∷ []) z)
          (rdata_of_ip ip)
        ≡ true
  unfolding match_or_insert
  match_or_insert_single name (v4 x) z = ground (
    arith,
    is_stored-match_or_insert_type_self name (v4 x) z,
    is_stored-match_or_insert_type C L name (v4 x ∷ []) RecordType.aaaa
        (match_or_insert_type C name (v4 x ∷ []) RecordType.a z) (RData.a x),
  )
  match_or_insert_single name (v6 x) z = is_stored-match_or_insert_type_self name (v6 x) _

  must_insert_of_covers :
      (ips : List IpAddr) (rt : RecordType) (o : Option C.RecordSet)
      → covers C ips rt o ≡ true
      → must_insert C ips rt o ≡ false
  unfolding must_insert
  must_insert_of_covers ips rt none h = ground arith
  must_insert_of_covers ips rt (some set) h = ground (arith, L.set_is_empty_lem set)

  match_or_insert_type_skips :
      (name : C.Name) (ips : List IpAddr) (rt : RecordType) (z : Zone C)
      → IsCovered C name ips rt z
      → match_or_insert_type C name ips rt z ≡ z
  unfolding match_or_insert_type
  match_or_insert_type_skips name ips rt z h = rw (must_insert_of_covers ips rt _ h)

  -- If, for A and for AAAA, the name has a set that is not empty and holds only addresses among
  -- the given ones, or has no set and no address of that type is given, then `match_or_insert`
  -- leaves the zone as it is: a given address that the set lacks is not added.
  pub match_or_insert_skips :
      (name : C.Name) (ips : List IpAddr) (z : Zone C)
      → IsCovered C name ips RecordType.a z
      → IsCovered C name ips RecordType.aaaa z
      → match_or_insert C name ips z ≡ z
  unfolding match_or_insert
  match_or_insert_skips name ips z h4 h6 =
      rw (match_or_insert_type_skips name ips RecordType.a z h4)
        (match_or_insert_type_skips name ips RecordType.aaaa z h6)
