-- ===== src/Authority/Ptr.antt =====
-- What `configure_ptr` of src/authority.rs leaves in a reverse zone.
use zeronsd.Base.{◌≡◌, ◌≢◌, refl, ◌∙◌, sym, true, ok, if◌then◌else◌, arith, Option-cases, inl, inr}
use zeronsd.Base.Dict
use zeronsd.Dns.{RecordType, RData, Record, RrKey, key_eq, key_same_iff, rdata_same, rdata_same_iff}
use zeronsd.Crates.{Crates, Zone}
use zeronsd.Crates.Laws.{IsNamesLawful, IsZoneLawful, lookup_key, is_stored}
use zeronsd.Authority.{key_of, set_ptr_record, configure_ptr}

module _ (C : Crates) (N : IsNamesLawful C) (L : IsZoneLawful C) (ptr fqdn : C.Name) where
  abbrev pub here : RrKey C.LowerName
  here = key_of C ptr RecordType.ptr

  abbrev pub address : Record C.Name
  address = record { name = ptr; ttl = 60; rdata = RData.ptr fqdn }

  abbrev pub replaced : Zone C → Zone C
  replaced rr =
      let records = Dict.remove (key_eq C.lower_eq) here rr in
      C.upsert address (C.serial records) records

  set_ptr_record_lem : (rr : Zone C) → set_ptr_record C ptr fqdn rr ≡ (ok tt, replaced rr)
  unfolding set_ptr_record
  set_ptr_record_lem rr = rw (N.name_into_name_lem ptr, set_ptr_record)

  is_stored-replaced :
      (rr : Zone C) (d : RData C.Name)
      → is_stored C here (replaced rr) d ≡ rdata_same C.name_eq (RData.ptr fqdn) d
  is_stored-replaced rr d =
      L.is_stored-upsert address _ _ d refl
      ∙ rw
          (
            Dict.lookup-remove (key_eq C.lower_eq) here here rr,
            (key_same_iff C.lower_eq here here).1 refl,
          )
          (ground arith)

  lookup-replaced :
      (rr : Zone C) (k : RrKey C.LowerName)
      → k ≢ here
      → lookup_key C k (replaced rr) ≡ lookup_key C k rr
  lookup-replaced rr k h =
      L.lookup-upsert_other address _ _ k h
      ∙ ground (
        arith,
        Dict.lookup-remove (key_eq C.lower_eq) k here rr,
        key_same_iff C.lower_eq here k,
        λ (p : here ≡ k). h (sym p),
      )

  -- `configure_ptr` either finds the record and leaves the zone, or replaces the set.
  pub configure_ptr-cases :
      (rr : Zone C)
      → configure_ptr C ptr fqdn rr
        ≡ (ok tt, if is_stored C here rr (RData.ptr fqdn) then rr else replaced rr)
  unfolding configure_ptr
  configure_ptr-cases rr = elim (Option-cases (lookup_key C here rr)) [
    | inl e ↦ rw (e, configure_ptr) (set_ptr_record_lem rr)
    | inr (set, e) ↦ rw (e, configure_ptr) (ground (arith, set_ptr_record_lem rr))
  ]

  -- `configure_ptr` succeeds. If the name had a PTR record for the host, its PTR records are those
  -- that it had; otherwise the record for the host is the only one.
  pub configure_ptr_lem :
      (rr : Zone C) (d : RData C.Name)
      → ((configure_ptr C ptr fqdn rr).0 ≡ ok tt)
        × (is_stored C here (configure_ptr C ptr fqdn rr).1 d ≡ (
            if is_stored C here rr (RData.ptr fqdn)
            then is_stored C here rr d
            else rdata_same C.name_eq (RData.ptr fqdn) d))
  configure_ptr_lem rr d =
      rw (configure_ptr-cases rr) (refl, ground (arith, is_stored-replaced rr d))

  -- The host's record is there afterwards.
  pub configure_ptr_stores :
      (rr : Zone C) → is_stored C here (configure_ptr C ptr fqdn rr).1 (RData.ptr fqdn) ≡ true
  configure_ptr_stores rr =
      (configure_ptr_lem rr (RData.ptr fqdn)).1
      ∙ ground (arith, (rdata_same_iff C.name_eq (RData.ptr fqdn) (RData.ptr fqdn)).1 refl)

  -- `configure_ptr` leaves every set as it is but the PTR set of its name.
  pub lookup-configure_ptr :
      (rr : Zone C) (k : RrKey C.LowerName)
      → k ≢ here
      → lookup_key C k (configure_ptr C ptr fqdn rr).1 ≡ lookup_key C k rr
  lookup-configure_ptr rr k h = rw (configure_ptr-cases rr) (ground (arith, lookup-replaced rr k h))
