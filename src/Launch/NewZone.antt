-- ===== src/Launch/NewZone.antt =====
-- What `RecordAuthority::new` of src/authority.rs puts into a new zone: one SOA and one NS set.
use zeronsd.Base.{
  ◌≡◌, refl, ◌∙◌, ap, sym, Option, some, none, [], ◌∷◌, codes, Ensures, Ensures-after, Ensures-of,
  Ensures-ok, or_err, or_err-eq-ok, or_panic-eq-ok, if◌then◌else◌, arith,
}
use zeronsd.Base.Dict
use zeronsd.Dns.{RecordType, RData, Record, RrKey, key_eq, key_same, type_same_iff, to_record_type}
use zeronsd.Crates.{Crates, Zone}
use zeronsd.Crates.Laws.{IsNamesLawful, IsZoneLawful, IsAuthorityLawful, lookup_key}
use zeronsd.Authority.{key_of}
use zeronsd.Authority.Fresh.{single, first_soa, configure_authority, new_zone}
use zeronsd.Refresh.Zones.{HoldsFor}
use zeronsd.Refresh.Apex.{soa_key, HasSoa}

module _ (C : Crates) where
  abbrev soa_of : C.LowerName → Option C.Name → Option C.RecordSet
  soa_of d none = none
  soa_of d (some administrator) = some (
      single C (C.of_lower d) (RData.soa (first_soa C (C.of_lower d) administrator)) RecordType.soa)

  abbrev administrator_of : C.LowerName → Option C.Name → Option C.Name
  administrator_of d none = none
  administrator_of d (some name) = C.append_domain name (C.of_lower d)

  -- The SOA set that a new zone gets: one record, whose data are the name, `administrator` below
  -- it, and the numbers in the code.
  abbrev pub soa_at_start : C.LowerName → Option C.RecordSet
  soa_at_start d = soa_of d (administrator_of d (C.name_from_str (codes "administrator")))

module _ (C : Crates) (N : IsNamesLawful C) (L : IsZoneLawful C) (A : IsAuthorityLawful C) where
  set_type-single :
      (name : C.Name) (rdata : RData C.Name) (rt : RecordType)
      → to_record_type rdata ≡ rt
      → C.set_type (single C name rdata rt) ≡ rt
  set_type-single name rdata rt e =
      A.set_type-insert_record (C.new_set name rt 1) _ 1 (e ∙ sym (L.set_type-new_set name rt 1))
      ∙ L.set_type-new_set name rt 1

  -- The two sets of a new zone.
  abbrev two_sets : C.Name → C.RecordSet → C.RecordSet → Zone C
  two_sets domain soa ns =
      Dict.insert (key_eq C.lower_eq) (key_of C domain RecordType.ns) ns
        (Dict.insert (key_eq C.lower_eq) (key_of C domain RecordType.soa) soa [])

  lookup-two_sets :
      (domain : C.Name) (soa ns : C.RecordSet) (k : RrKey C.LowerName)
      → lookup_key C k (two_sets domain soa ns) ≡ (
          if key_same C.lower_eq (key_of C domain RecordType.ns) k
          then some ns
          else if key_same C.lower_eq (key_of C domain RecordType.soa) k
          then some soa
          else none)
  lookup-two_sets domain soa ns k =
      Dict.lookup-insert (key_eq C.lower_eq) k (key_of C domain RecordType.ns) ns _
      ∙ rw
          (
            Dict.lookup-insert (key_eq C.lower_eq) k (key_of C domain RecordType.soa) soa [],
            Dict.lookup-nil {V = C.RecordSet} (key_eq C.lower_eq) k,
          )
          refl

  two_sets-typed :
      (domain : C.Name) (soa ns : C.RecordSet) (k : RrKey C.LowerName) (set : C.RecordSet)
      → C.set_type soa ≡ RecordType.soa
      → C.set_type ns ≡ RecordType.ns
      → lookup_key C k (two_sets domain soa ns) ≡ some set
      → C.set_type set ≡ k.record_type
  two_sets-typed domain soa ns k set soa_typed ns_typed e = ground (
    arith,
    soa_typed,
    ns_typed,
    e,
    lookup-two_sets domain soa ns k,
    type_same_iff RecordType.ns k.record_type,
    type_same_iff RecordType.soa k.record_type,
  )

  lookup-two_sets_soa :
      (d : C.LowerName) (soa ns : C.RecordSet)
      → lookup_key C (soa_key C d) (two_sets (C.of_lower d) soa ns) ≡ some soa
  lookup-two_sets_soa d soa ns = ground (
    arith,
    lookup-two_sets (C.of_lower d) soa ns (soa_key C d),
    N.lower-of_lower d,
    type_same_iff RecordType.ns RecordType.soa,
    type_same_iff RecordType.soa RecordType.soa,
    C.lower_eq.same_iff (C.lower (C.of_lower d)) d,
  )

  two_sets-HasSoa :
      (d : C.LowerName) (soa ns : C.RecordSet) (z : Zone C)
      → C.new_authority (C.of_lower d) (two_sets (C.of_lower d) soa ns) ≡ some z
      → ((k : RrKey C.LowerName)
          → lookup_key C k z ≡ lookup_key C k (two_sets (C.of_lower d) soa ns))
      → C.set_type soa ≡ RecordType.soa
      → C.set_type ns ≡ RecordType.ns
      → HasSoa C (λ e. some soa) d z
  two_sets-HasSoa d soa ns z e same soa_typed ns_typed = (
    record {
      nodup = A.new_authority-NodupKeys (C.of_lower d) _ z e (
          Dict.insert-NodupKeys (key_eq C.lower_eq) _ ns _
            (Dict.insert-NodupKeys (key_eq C.lower_eq) _ soa [] tt));
      typed = λ k set found.
          two_sets-typed (C.of_lower d) soa ns k set soa_typed ns_typed (sym (same k) ∙ found);
    },
    same (soa_key C d) ∙ lookup-two_sets_soa d soa ns,
  )

  configure_authority-HasSoa :
      (d : C.LowerName) (member_name : C.Name)
      → Ensures (HasSoa C (soa_at_start C) d) (configure_authority C (C.of_lower d) member_name)
  unfolding configure_authority
  configure_authority-HasSoa d member_name =
      Ensures-after _ (or_err (C.name_from_str (codes "administrator"))) _ (λ name reads.
        Ensures-after _ (or_err (C.append_domain name (C.of_lower d))) _ (λ administrator below.
          Ensures-of _ _ (λ z made.
            let content = first_soa C (C.of_lower d) administrator in
            let soa = RData.soa content in
            let soa_record : Record C.Name = record {
              name = C.of_lower d;
              ttl = 30;
              rdata = soa;
            } in
            let ns_record : Record C.Name = record {
              name = C.of_lower d;
              ttl = 30;
              rdata = RData.ns member_name;
            } in
            let (good, found) =
              two_sets-HasSoa d (single C (C.of_lower d) soa RecordType.soa)
                (single C (C.of_lower d) (RData.ns member_name) RecordType.ns) z
                (or_panic-eq-ok _ made)
                (λ k.
                  A.lookup-new_authority (C.of_lower d) (ns_record ∷ []) soa_record content z k refl
                    (or_panic-eq-ok _ made))
                (set_type-single (C.of_lower d) soa RecordType.soa refl)
                (set_type-single (C.of_lower d) (RData.ns member_name) RecordType.ns refl) in
            (
              good,
              found
                  ∙ sym (
                      ap (λ o. soa_of C d (administrator_of C d o)) (or_err-eq-ok _ reads)
                      ∙ ap (soa_of C d) (or_err-eq-ok _ below)),
            ))))

  pub new_zone-HasSoa :
      (d member_name : C.LowerName)
      → Ensures (HoldsFor C (HasSoa C (soa_at_start C))) (new_zone C d member_name)
  unfolding new_zone configure_authority
  new_zone-HasSoa d member_name =
      Ensures-after _ (configure_authority C (C.of_lower d) (C.of_lower member_name)) _
        (λ z made. Ensures-ok _ _ made (configure_authority-HasSoa d (C.of_lower member_name)))
