-- ===== src/Authority/Union.antt =====
-- `match_or_insert` of src/authority.rs with one address, as the union of the records with one more.
use zeronsd.Base.{
  ◌≡◌, refl, ◌∙◌, ap, sym, Bool, ◌&&◌, ◌||◌, List, [], ◌∷◌, map, arith, Bool-cases, inl, inr,
}
use zeronsd.Net.{IpAddr, v4, v6}
use zeronsd.Dns.{RecordType, RData, rdata_same, rdata_same_iff, contains_rdata, to_record_type}
use zeronsd.Crates.{Crates, Zone}
use zeronsd.Crates.Laws.{IsNamesLawful, IsZoneLawful, is_stored}
use zeronsd.Authority.{rdata_of_ip, key_of, typed_rdatas, match_or_insert_type, match_or_insert}
use zeronsd.Authority.Insert.{is_stored-match_or_insert_type, lookup-match_or_insert}
use zeronsd.Authority.Answers.{match_or_insert_single}

-- Names are the same in either case, and in lower case.
pub same-lower :
    (C : Crates)
    → IsNamesLawful C
    → (n m : C.Name) → C.lower_eq.same (C.lower n) (C.lower m) ≡ C.name_eq.same n m
same-lower C N n m = elim (Bool-cases (C.name_eq.same n m)) [
  | inl same ↦
      let e : n ≡ m = (C.name_eq.same_iff n m).0 same in
      rw same ((C.lower_eq.same_iff (C.lower n) (C.lower m)).1 (ap C.lower e))
  | inr differ ↦ elim (Bool-cases (C.lower_eq.same (C.lower n) (C.lower m))) [
    | inr other ↦ rw (differ, other)
    | inl same ↦
        let e : C.lower n ≡ C.lower m = (C.lower_eq.same_iff _ _).0 same in
        let e' : n ≡ m = sym (N.of_lower-lower n) ∙ ap C.of_lower e ∙ N.of_lower-lower m in
        cc ((C.name_eq.same_iff n m).1 e')
  ]
]

module _ (C : Crates) where
  -- The records of a name, by the type of the record that is asked for.
  abbrev pub has_record : Zone C → C.Name → RData C.Name → Bool
  has_record z name d = is_stored C (key_of C name (to_record_type d)) z d

  -- Selecting the addresses of a record's type loses nothing of it.
  pub contains-typed_rdatas :
      (ips : List IpAddr) (d : RData C.Name)
      → contains_rdata C.name_eq (typed_rdatas C (to_record_type d) ips) d
        ≡ contains_rdata C.name_eq (map rdata_of_ip ips) d
  unfolding rdata_same
  contains-typed_rdatas [] d = refl
  contains-typed_rdatas (v4 x ∷ ips) (RData.a y) =
      ground (arith, contains-typed_rdatas ips (RData.a y))
  contains-typed_rdatas (v4 x ∷ ips) (RData.aaaa y) = contains-typed_rdatas ips (RData.aaaa y)
  contains-typed_rdatas (v4 x ∷ ips) (RData.ptr y) = contains-typed_rdatas ips (RData.ptr y)
  contains-typed_rdatas (v4 x ∷ ips) (RData.ns y) = contains-typed_rdatas ips (RData.ns y)
  contains-typed_rdatas (v4 x ∷ ips) (RData.soa y) = contains-typed_rdatas ips (RData.soa y)
  contains-typed_rdatas (v6 x ∷ ips) (RData.aaaa y) =
      ground (arith, contains-typed_rdatas ips (RData.aaaa y))
  contains-typed_rdatas (v6 x ∷ ips) (RData.a y) = contains-typed_rdatas ips (RData.a y)
  contains-typed_rdatas (v6 x ∷ ips) (RData.ptr y) = contains-typed_rdatas ips (RData.ptr y)
  contains-typed_rdatas (v6 x ∷ ips) (RData.ns y) = contains-typed_rdatas ips (RData.ns y)
  contains-typed_rdatas (v6 x ∷ ips) (RData.soa y) = contains-typed_rdatas ips (RData.soa y)

module _ (C : Crates) (L : IsZoneLawful C) where
  match_or_insert_self :
      (name : C.Name) (ip : IpAddr) (z : Zone C) (d : RData C.Name)
      → has_record C (match_or_insert C name (ip ∷ []) z) name d
        ≡ (rdata_same C.name_eq (rdata_of_ip ip) d || has_record C z name d)
  unfolding match_or_insert
  match_or_insert_self name ip z d = elim (Bool-cases (rdata_same C.name_eq (rdata_of_ip ip) d)) [
    | inl same ↦
        let e : rdata_of_ip ip ≡ d = (rdata_same_iff C.name_eq (rdata_of_ip ip) d).0 same in
        rw same (
          ap (λ r. has_record C (match_or_insert C name (ip ∷ []) z) name r) (sym e)
          ∙ match_or_insert_single C L name ip z)
    | inr differ ↦ ground (
      arith,
      is_stored-match_or_insert_type C L name (ip ∷ []) RecordType.a z d,
      is_stored-match_or_insert_type C L name (ip ∷ []) RecordType.aaaa
          (match_or_insert_type C name (ip ∷ []) RecordType.a z) d,
    )
  ]

  -- One address is added to the records of the name, and nothing else changes.
  pub has_record-match_or_insert :
      (name : C.Name) (ip : IpAddr) (z : Zone C) (other : C.Name) (d : RData C.Name)
      → has_record C (match_or_insert C name (ip ∷ []) z) other d ≡ (
          (C.lower_eq.same (C.lower name) (C.lower other)
            && rdata_same C.name_eq (rdata_of_ip ip) d)
          || has_record C z other d)
  has_record-match_or_insert name ip z other d =
      elim (Bool-cases (C.lower_eq.same (C.lower name) (C.lower other))) [
        | inl same ↦
            let e : C.lower name ≡ C.lower other = (C.lower_eq.same_iff _ _).0 same in
            rw (same, ← e) (match_or_insert_self name ip z d)
        | inr differ ↦ rw (
          differ,
          lookup-match_or_insert C L name (ip ∷ []) z (key_of C other (to_record_type d)) (
              inl
                (λ p. cc (differ, (C.lower_eq.same_iff (C.lower name) (C.lower other)).1 (sym p)))),
        )
      ]
