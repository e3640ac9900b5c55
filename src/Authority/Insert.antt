-- ===== src/Authority/Insert.antt =====
-- What `match_or_insert` of src/authority.rs leaves in a zone.
use zeronsd.Base.{
  ℕ, ◌≡◌, ◌≢◌, ◌⊎◌, refl, ◌∙◌, ap, sym, Bool, true, false, ◌||◌, List, [], ◌∷◌, map, if◌then◌else◌,
  arith, Bool-cases, inl, inr,
}
use mathlib.Core.Path.{subst}
use zeronsd.Net.{IpAddr, v4, v6}
use zeronsd.Dns.{
  RecordType, RData, Record, RrKey, rdata_same, rdata_same_iff, contains_rdata, to_record_type,
  type_same, type_same_iff,
}
use zeronsd.Crates.{Crates, Zone}
use zeronsd.Crates.Laws.{IsZoneLawful, accumulates, is_stored, lookup_key}
use zeronsd.Authority.{
  rdata_of_ip, key_of, upsert_all, replace_ip_record, must_insert, match_or_insert_type,
  match_or_insert,
}

-- The types of the records that `match_or_insert` writes.
abbrev pub is_address : RecordType → Bool
is_address RecordType.a = true
is_address RecordType.aaaa = true
is_address _ = false

abbrev pub AllAddresses : {Name : Type 0} → List (RData Name) → Type 0
AllAddresses [] = Unit
AllAddresses (d ∷ ds) = (is_address (to_record_type d) ≡ true) × AllAddresses ds

rdata_of_ip-is_address :
    (Name : Type 0) (ip : IpAddr)
    → is_address (to_record_type (rdata_of_ip {Name = Name} ip)) ≡ true
rdata_of_ip-is_address Name (v4 x) = refl
rdata_of_ip-is_address Name (v6 x) = refl

pub map-AllAddresses :
    (Name : Type 0) (ips : List IpAddr) → AllAddresses (map (rdata_of_ip {Name = Name}) ips)
map-AllAddresses Name [] = tt
map-AllAddresses Name (ip ∷ ips) = (rdata_of_ip-is_address Name ip, map-AllAddresses Name ips)

pub accumulates_of_address : (t : RecordType) → is_address t ≡ true → accumulates t ≡ true
accumulates_of_address t h = ground arith

rdata_same-eq-false :
    (C : Crates) (e d : RData C.Name)
    → to_record_type e ≢ to_record_type d
    → rdata_same C.name_eq e d ≡ false
rdata_same-eq-false C e d h = elim (Bool-cases (rdata_same C.name_eq e d)) [
  | inl same ↦ absurd (h (ap to_record_type ((rdata_same_iff C.name_eq e d).0 same)))
  | inr other ↦ other
]

module _ (C : Crates) where
  -- A key that `match_or_insert` does not write: of another name, or not for addresses.
  abbrev pub IsForeign : C.Name → RrKey C.LowerName → Type 0
  IsForeign name k = (k.name ≢ C.lower name) ⊎ (is_address k.record_type ≡ false)

  IsForeign-ne :
      (name : C.Name) (k : RrKey C.LowerName) (t : RecordType)
      → IsForeign name k
      → is_address t ≡ true
      → k ≢ key_of C name t
  IsForeign-ne name k t (inl other) h p = other (ap (λ k. k.name) p)
  IsForeign-ne name k t (inr other) h p =
      let same : k.record_type ≡ t = ap (λ k. k.record_type) p in
      let both : is_address t ≡ false = rw (← same) other in cc (sym h ∙ both)

module _ (C : Crates) (L : IsZoneLawful C) where
  -- The key of a record is decided by its type.
  is_stored-upsert_typed :
      (name : C.Name) (e d : RData C.Name) (s : ℕ) (z : Zone C)
      → is_address (to_record_type e) ≡ true
      → is_stored C
          (key_of C name (to_record_type d))
          (C.upsert (record { name = name; ttl = 60; rdata = e }) s z)
          d
        ≡ (rdata_same C.name_eq e d || is_stored C (key_of C name (to_record_type d)) z d)
  is_stored-upsert_typed name e d s z h =
      let r : Record C.Name = record { name = name; ttl = 60; rdata = e } in
      elim (Bool-cases (type_same (to_record_type e) (to_record_type d))) [
        | inl same ↦
            subst
              (λ t.
                is_stored C (key_of C name t) (C.upsert r s z) d
                ≡ (rdata_same C.name_eq e d || is_stored C (key_of C name t) z d))
              ((type_same_iff _ _).0 same) (L.is_stored-upsert r s z d (accumulates_of_address _ h))
        | inr other ↦
            let differ : to_record_type e ≢ to_record_type d = λ p. cc ((type_same_iff _ _).1 p) in
            rw (
              rdata_same-eq-false C e d differ,
              L.lookup-upsert_other r s z (key_of C name (to_record_type d))
                  (λ p. differ (sym (ap (λ k. k.record_type) p))),
            )
      ]

  is_stored-upsert_all :
      (name : C.Name) (ds : List (RData C.Name)) (d : RData C.Name) (s : ℕ) (z : Zone C)
      → AllAddresses ds
      → is_stored C (key_of C name (to_record_type d)) (upsert_all C name ds s z) d
        ≡ (contains_rdata C.name_eq ds d || is_stored C (key_of C name (to_record_type d)) z d)
  unfolding upsert_all
  is_stored-upsert_all name [] d s z h = refl
  is_stored-upsert_all name (e ∷ ds) d s z (h, hs) =
      is_stored-upsert_all name ds d s _ hs
      ∙ rw (is_stored-upsert_typed name e d s z h) (ground arith)

  lookup-upsert_all :
      (name : C.Name) (ds : List (RData C.Name)) (k : RrKey C.LowerName) (s : ℕ) (z : Zone C)
      → AllAddresses ds
      → IsForeign C name k
      → lookup_key C k (upsert_all C name ds s z) ≡ lookup_key C k z
  unfolding upsert_all
  lookup-upsert_all name [] k s z hs h = refl
  lookup-upsert_all name (e ∷ ds) k s z (he, hs) h =
      lookup-upsert_all name ds k s _ hs h
      ∙ L.lookup-upsert_other _ s z k (IsForeign-ne C name k _ h he)

  pub lookup-match_or_insert_type :
      (name : C.Name) (ips : List IpAddr) (rt : RecordType) (z : Zone C) (k : RrKey C.LowerName)
      → IsForeign C name k
      → lookup_key C k (match_or_insert_type C name ips rt z) ≡ lookup_key C k z
  unfolding match_or_insert_type replace_ip_record
  lookup-match_or_insert_type name ips rt z k h =
      elim (Bool-cases (must_insert C ips rt (lookup_key C (key_of C name rt) z))) [
        | inl runs ↦ rw runs (lookup-upsert_all name _ k _ z (map-AllAddresses _ ips) h)
        | inr skips ↦ rw skips
      ]

  -- `match_or_insert` leaves every set as it is that belongs to another name, or is of a type
  -- other than A and AAAA.
  pub lookup-match_or_insert :
      (name : C.Name) (ips : List IpAddr) (z : Zone C) (k : RrKey C.LowerName)
      → IsForeign C name k
      → lookup_key C k (match_or_insert C name ips z) ≡ lookup_key C k z
  unfolding match_or_insert
  lookup-match_or_insert name ips z k h =
      lookup-match_or_insert_type name ips _ _ k h ∙ lookup-match_or_insert_type name ips _ z k h

  -- One round adds every address, or does nothing.
  pub is_stored-match_or_insert_type :
      (name : C.Name) (ips : List IpAddr) (rt : RecordType) (z : Zone C) (d : RData C.Name)
      → is_stored C (key_of C name (to_record_type d)) (match_or_insert_type C name ips rt z) d ≡ (
          if must_insert C ips rt (lookup_key C (key_of C name rt) z)
          then (contains_rdata C.name_eq (map rdata_of_ip ips) d
              || is_stored C (key_of C name (to_record_type d)) z d)
          else is_stored C (key_of C name (to_record_type d)) z d)
  unfolding match_or_insert_type replace_ip_record
  is_stored-match_or_insert_type name ips rt z d =
      elim (Bool-cases (must_insert C ips rt (lookup_key C (key_of C name rt) z))) [
        | inl runs ↦ rw runs (is_stored-upsert_all name _ d _ z (map-AllAddresses _ ips))
        | inr skips ↦ rw skips
      ]

  match_or_insert_keeps_self :
      (name : C.Name) (ips : List IpAddr) (z : Zone C) (d : RData C.Name)
      → is_stored C (key_of C name (to_record_type d)) z d ≡ true
      → is_stored C (key_of C name (to_record_type d)) (match_or_insert C name ips z) d ≡ true
  unfolding match_or_insert
  match_or_insert_keeps_self name ips z d h =
      let z' = match_or_insert_type C name ips RecordType.a z in
      ground (
        arith,
        is_stored-match_or_insert_type name ips RecordType.a z d,
        is_stored-match_or_insert_type name ips RecordType.aaaa z' d,
      )

  -- Every address record that a zone has is still there after `match_or_insert`, also one of the
  -- same name for an address that is not among the given ones.
  pub match_or_insert_keeps :
      (name : C.Name) (ips : List IpAddr) (z : Zone C) (other : C.Name) (d : RData C.Name)
      → is_stored C (key_of C other (to_record_type d)) z d ≡ true
      → is_stored C (key_of C other (to_record_type d)) (match_or_insert C name ips z) d ≡ true
  match_or_insert_keeps name ips z other d h =
      let k = key_of C other (to_record_type d) in
      elim (Bool-cases (C.lower_eq.same (C.lower other) (C.lower name))) [
        | inl same ↦
            let e : k ≡ key_of C name (to_record_type d) =
              ap (λ l. record { name = l; record_type = to_record_type d })
                ((C.lower_eq.same_iff (C.lower other) (C.lower name)).0 same) in
            rw e (match_or_insert_keeps_self name ips z d (rw e at h))
        | inr differ ↦
            rw
              (lookup-match_or_insert name ips z k
                (inl (λ p. cc (differ, (C.lower_eq.same_iff (C.lower other) (C.lower name)).1 p))))
              h
      ]
