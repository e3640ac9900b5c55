-- ===== src/Refresh/Owners.antt =====
-- The records that have a name, and what entering all records (src/authority.rs) leaves for a name
-- that is new.
use zeronsd.Base.{
  ◌≡◌, ◌+◌, ◌⊎◌, refl, ◌∙◌, ap, sym, Bool, true, false, none, List, [], ◌∷◌, map, any, any-append,
  filter, length, ltb, arith, Bool-cases, inl, inr,
}
use zeronsd.Net.{IpAddr}
use zeronsd.Dns.{RecordType, RData, to_record_type, contains_rdata}
use zeronsd.Crates.{Crates, Zone}
use zeronsd.Crates.Laws.{IsZoneLawful, lookup_key, rdatas_of}
use zeronsd.Authority.{contains_name, rdata_of_ip, key_of, match_or_insert, match_or_insert_type}
use zeronsd.Authority.Answers.{is_stored_of_none, match_or_insert_fresh}
use zeronsd.Authority.Insert.{is_address, is_stored-match_or_insert_type, lookup-match_or_insert}
use zeronsd.Authority.Union.{has_record}
use zeronsd.Members.{ZtRecord, Writing, write_name}
use zeronsd.Members.Names.{record_names, write_all}
use zeronsd.Refresh.Forward.{write_members}
use zeronsd.Refresh.HostRound.{lookup-write_all}
use zeronsd.Refresh.Result.{member_names}

module _ (C : Crates) (name : C.Name) where
  abbrev pub has_name : ZtRecord C → Bool
  has_name r = contains_name C (map C.lower (record_names C r)) (C.lower name)

  -- The records that have the name.
  abbrev pub owners : List (ZtRecord C) → List (ZtRecord C)
  owners rs = filter has_name rs

  -- The name belongs to more than one record.
  abbrev pub is_shared : List (ZtRecord C) → Bool
  is_shared rs = ltb 1 (length (owners rs))

  -- The datum is one of the addresses of a record.
  abbrev pub has_address : RData C.Name → ZtRecord C → Bool
  has_address d r = contains_rdata C.name_eq (map rdata_of_ip r.ips) d

  -- The name has neither an A nor an AAAA set.
  abbrev pub IsNew : Zone C → Type 0
  IsNew z =
      (lookup_key C (key_of C name RecordType.a) z ≡ none)
      × (lookup_key C (key_of C name RecordType.aaaa) z ≡ none)

  pub has_address-owners :
      (rs : List (ZtRecord C)) (d : RData C.Name)
      → any (has_address d) (owners rs) ≡ true
      → contains_name C (member_names C rs) (C.lower name) ≡ true
  has_address-owners [] d h = cc
  has_address-owners (r ∷ rs) d h = ground (
    arith,
    h,
    has_address-owners rs d,
    any-append (λ l. C.lower_eq.same l (C.lower name)) (map C.lower (record_names C r))
        (member_names C rs),
  )

-- A name that has exactly the addresses keeps them when they are entered again.
match_or_insert_again :
    (C : Crates) (L : IsZoneLawful C) (name : C.Name) (ips : List IpAddr) (z : Zone C)
    (d : RData C.Name)
    → has_record C z name d ≡ contains_rdata C.name_eq (map rdata_of_ip ips) d
    → has_record C (match_or_insert C name ips z) name d
      ≡ contains_rdata C.name_eq (map rdata_of_ip ips) d
unfolding match_or_insert
match_or_insert_again C L name ips z d h = ground (
  arith,
  h,
  is_stored-match_or_insert_type C L name ips RecordType.a z d,
  is_stored-match_or_insert_type C L name ips RecordType.aaaa
      (match_or_insert_type C name ips RecordType.a z) d,
)

one_or_more : {A : Type 0} (xs : List A) → (length xs ≡ 0) ⊎ (ltb 1 (length xs + 1) ≡ true)
one_or_more [] = inl refl
one_or_more (x ∷ xs) = inr (ground arith)

any_of_none : {A : Type 0} (p : A → Bool) (xs : List A) → length xs ≡ 0 → any p xs ≡ false
any_of_none p [] h = refl
any_of_none p (x ∷ xs) h = ground (arith, h)

module _ (C : Crates) (L : IsZoneLawful C) (name : C.Name) (d : RData C.Name)
    (address : is_address (to_record_type d) ≡ true) where
  lookup-other :
      (other : C.Name) (ips : List IpAddr) (z : Zone C) (t : RecordType)
      → C.lower_eq.same (C.lower other) (C.lower name) ≡ false
      → lookup_key C (key_of C name t) (match_or_insert C other ips z)
        ≡ lookup_key C (key_of C name t) z
  lookup-other other ips z t differ =
      lookup-match_or_insert C L other ips z (key_of C name t)
        (inl (λ p. cc (differ, (C.lower_eq.same_iff (C.lower other) (C.lower name)).1 (sym p))))

  pub write_all_again :
      (names : List C.Name) (ips : List IpAddr) (w : Writing C)
      → has_record C w.zone name d ≡ contains_rdata C.name_eq (map rdata_of_ip ips) d
      → has_record C (write_all C names ips w).zone name d
        ≡ contains_rdata C.name_eq (map rdata_of_ip ips) d
  unfolding write_name
  write_all_again [] ips w h = h
  write_all_again (other ∷ names) ips w h =
      write_all_again names ips _
        (elim (Bool-cases (C.lower_eq.same (C.lower other) (C.lower name))) [
          | inl same ↦
              let e = (C.lower_eq.same_iff (C.lower other) (C.lower name)).0 same in
              rw (← e) (match_or_insert_again C L other ips w.zone d (rw (← e) at h))
          | inr differ ↦ rw (lookup-other other ips w.zone (to_record_type d) differ) h
        ])

  -- A new name of a record has exactly the addresses of the record.
  write_all_new :
      (names : List C.Name) (ips : List IpAddr) (w : Writing C)
      → contains_name C (map C.lower names) (C.lower name) ≡ true
      → IsNew C name w.zone
      → has_record C (write_all C names ips w).zone name d
        ≡ contains_rdata C.name_eq (map rdata_of_ip ips) d
  unfolding write_name
  write_all_new [] ips w has new = cc
  write_all_new (other ∷ names) ips w has (no_a, no_aaaa) =
      elim (Bool-cases (C.lower_eq.same (C.lower other) (C.lower name))) [
        | inl same ↦
            let e = (C.lower_eq.same_iff (C.lower other) (C.lower name)).0 same in
            write_all_again names ips _ (
              rw (← e) (
                match_or_insert_fresh C L other ips w.zone d (rw (← e) at no_a)
                  (rw (← e) at no_aaaa) address))
        | inr differ ↦ write_all_new names ips _ (ground (arith, has, differ)) (
          lookup-other other ips w.zone RecordType.a differ ∙ no_a,
          lookup-other other ips w.zone RecordType.aaaa differ ∙ no_aaaa,
        )
      ]

  write_members_apart :
      (rs : List (ZtRecord C)) (w : Writing C)
      → length (owners C name rs) ≡ 0
      → has_record C (write_members C rs w).zone name d ≡ has_record C w.zone name d
  write_members_apart [] w h = refl
  write_members_apart (r ∷ rs) w h = elim (Bool-cases (has_name C name r)) [
    | inl has ↦ ground (arith, h, has)
    | inr lacks ↦
        write_members_apart rs _ (rw lacks at h)
        ∙ ap (λ o. contains_rdata C.name_eq (rdatas_of C o) d)
            (lookup-write_all C L (key_of C name (to_record_type d)) (record_names C r) r.ips w
              lacks)
  ]

  -- A new name has the addresses of its record, if it is of one, and none if it is of no record.
  pub write_members_new :
      (rs : List (ZtRecord C)) (w : Writing C)
      → IsNew C name w.zone
      → (is_shared C name rs ≡ true)
        ⊎ (has_record C (write_members C rs w).zone name d
            ≡ any (has_address C name d) (owners C name rs))
  write_members_new [] w (no_a, no_aaaa) =
      inr (is_stored_of_none C L name w.zone d no_a no_aaaa address)
  write_members_new (r ∷ rs) w (no_a, no_aaaa) = elim (Bool-cases (has_name C name r)) [
    | inl has ↦ elim (one_or_more (owners C name rs)) [
      | inr more ↦ inl (rw has (ground (arith, more)))
      | inl alone ↦ inr (
          write_members_apart rs _ alone
          ∙ write_all_new (record_names C r) r.ips w has (no_a, no_aaaa)
          ∙ rw has (ground (arith, any_of_none (has_address C name d) (owners C name rs) alone)))
    ]
    | inr lacks ↦
        let other = λ (t : RecordType).
          lookup-write_all C L (key_of C name t) (record_names C r) r.ips w lacks in
        rw lacks (
          write_members_new rs (write_all C (record_names C r) r.ips w)
            (other RecordType.a ∙ no_a, other RecordType.aaaa ∙ no_aaaa))
  ]
