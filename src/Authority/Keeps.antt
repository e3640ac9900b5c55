-- ===== src/Authority/Keeps.antt =====
-- What `match_or_insert` of src/authority.rs never takes away.
use zeronsd.Base.{
  ℕ, ◌≡◌, refl, ◌∙◌, Bool, true, ◌||◌, List, [], ◌∷◌, any, filter, is_empty, arith, Bool-cases, inl,
  inr,
}
use zeronsd.Net.{IpAddr}
use zeronsd.Dns.{RecordType, RData, Record, RrKey, key_same, key_same_iff, to_record_type}
use zeronsd.Crates.{Crates, Zone}
use zeronsd.Crates.Laws.{IsZoneLawful, lookup_key, is_stored, accumulates}
use zeronsd.Authority.{
  rdata_of_ip, has_type, key_of, upsert_all, replace_ip_record, must_insert, match_or_insert_type,
  match_or_insert,
}
use zeronsd.Authority.Insert.{AllAddresses, map-AllAddresses, is_address}

module _ (C : Crates) where
  -- If there is an address of the version of the type, the set of the name and the type holds one of
  -- the addresses.
  abbrev pub answered : Zone C → List IpAddr → RecordType → C.LowerName → Bool
  answered z ips rt name =
      is_empty (filter (has_type rt) ips)
      || any (λ ip. is_stored C (record { name = name; record_type = rt }) z (rdata_of_ip ip)) ips

  any_mono :
      (p q : IpAddr → Bool) (ips : List IpAddr)
      → ((ip : IpAddr) → p ip ≡ true → q ip ≡ true)
      → any p ips ≡ true
      → any q ips ≡ true
  any_mono p q [] k h = h
  any_mono p q (ip ∷ ips) k h = ground (arith, k ip, any_mono p q ips k)

  -- What a zone keeps under every key.
  abbrev pub Keeps : Zone C → Zone C → Type 0
  Keeps z z' =
      (k : RrKey C.LowerName) (d : RData C.Name)
      → is_stored C k z d ≡ true
      → is_stored C k z' d ≡ true

  pub answered-Keeps :
      (z z' : Zone C) (ips : List IpAddr) (rt : RecordType) (name : C.LowerName)
      → Keeps z z'
      → answered z ips rt name ≡ true
      → answered z' ips rt name ≡ true
  answered-Keeps z z' ips rt name keeps h = ground (
    arith,
    any_mono (λ ip. is_stored C (record { name = name; record_type = rt }) z (rdata_of_ip ip))
        (λ ip. is_stored C (record { name = name; record_type = rt }) z' (rdata_of_ip ip)) ips
        (λ ip. keeps (record { name = name; record_type = rt }) (rdata_of_ip ip)),
  )

module _ (C : Crates) (L : IsZoneLawful C) where
  accumulates_of_address : (t : RecordType) → is_address t ≡ true → accumulates t ≡ true
  accumulates_of_address RecordType.a h = refl
  accumulates_of_address RecordType.aaaa h = refl
  accumulates_of_address RecordType.ptr h = cc
  accumulates_of_address RecordType.ns h = cc
  accumulates_of_address RecordType.soa h = cc

  upsert_all-Keeps :
      (name : C.Name) (ds : List (RData C.Name)) (serial : ℕ) (z : Zone C)
      → AllAddresses ds
      → Keeps C z (upsert_all C name ds serial z)
  unfolding upsert_all
  upsert_all-Keeps name [] serial z hs k d h = h
  upsert_all-Keeps name (e ∷ ds) serial z (he, hs) k d h =
      let r : Record C.Name = record { name = name; ttl = 60; rdata = e } in
      let here = key_of C name (to_record_type e) in
      upsert_all-Keeps name ds serial (C.upsert r serial z) hs k d
        (elim (Bool-cases (key_same C.lower_eq k here)) [
          | inl same ↦
              let same_key : k ≡ here = (key_same_iff C.lower_eq k here).0 same in
              rw same_key (
                L.is_stored-upsert r serial z d (accumulates_of_address _ he)
                ∙ ground (arith, rw same_key at h))
          | inr differ ↦
              rw
                (L.lookup-upsert_other r serial z k
                  (λ p. cc (differ, (key_same_iff C.lower_eq k here).1 p)))
                h
        ])

  pub match_or_insert_type-Keeps :
      (name : C.Name) (ips : List IpAddr) (rt : RecordType) (z : Zone C)
      → Keeps C z (match_or_insert_type C name ips rt z)
  unfolding match_or_insert_type replace_ip_record
  match_or_insert_type-Keeps name ips rt z k d h =
      elim (Bool-cases (must_insert C ips rt (lookup_key C (key_of C name rt) z))) [
        | inl runs ↦
            rw (match_or_insert_type, runs)
              (upsert_all-Keeps name _ _ z (map-AllAddresses _ ips) k d h)
        | inr skips ↦ rw (match_or_insert_type, skips) h
      ]

  pub match_or_insert-Keeps :
      (name : C.Name) (ips : List IpAddr) (z : Zone C) → Keeps C z (match_or_insert C name ips z)
  unfolding match_or_insert
  match_or_insert-Keeps name ips z k d h =
      match_or_insert_type-Keeps name ips RecordType.aaaa _ k d
        (match_or_insert_type-Keeps name ips RecordType.a z k d h)
