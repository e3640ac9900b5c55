-- ===== src/Refresh/Reverse/Shown.antt =====
-- The PTR record of one reverse name, under the operations of `configure_members` of
-- src/authority.rs on its zone.
use zeronsd.Base.{
  ◌≡◌, ◌≢◌, refl, ◌∙◌, ap, sym, true, Option, some, none, List, [], ◌∷◌, ◌++◌, any-append, arith,
}
use zeronsd.Dns.{RecordType, RData}
use zeronsd.Crates.{Crates}
use zeronsd.Crates.Laws.{IsNamesLawful, IsZoneLawful, is_stored}
use zeronsd.Authority.{contains_name, key_of, prune_records}
use zeronsd.Authority.Prune.{surviving-written, prune_records_lem}
use zeronsd.Authority.Ptr.{configure_ptr_stores, lookup-configure_ptr}
use zeronsd.Authority.WellFormed.{
  IsWellFormed, configure_ptr-IsWellFormed, prune_records-IsWellFormed,
}
use zeronsd.Members.{Writing, write_ptr}
use zeronsd.Members.Pointers.{configure_ptr_keeps, write_ptr-eq-ok}

module _ (C : Crates) (N : IsNamesLawful C) (L : IsZoneLawful C) (name fqdn : C.Name) where
  abbrev pub IsGood : Writing C → Type 0
  IsGood w = IsWellFormed C w.zone

  -- The reverse name is written, and has a PTR record for the host.
  abbrev pub IsShown : Writing C → Type 0
  IsShown w =
      IsWellFormed C w.zone
      × (contains_name C w.written (C.lower name) ≡ true)
      × (is_stored C (key_of C name RecordType.ptr) w.zone (RData.ptr fqdn) ≡ true)

  pub write_ptr-IsGood :
      (o : Option C.Name) (host : C.Name) (w : Writing C)
      → IsGood w
      → IsGood (write_ptr C o host w).1
  write_ptr-IsGood none host w h = unfold write_ptr in h
  write_ptr-IsGood (some ptr) host w h =
      rw (write_ptr-eq-ok C N L host ptr w) (configure_ptr-IsWellFormed C L N ptr host w.zone h)

  -- What was written stays so.
  contains_name_more :
      (names : List C.LowerName) (l m : C.LowerName)
      → contains_name C names l ≡ true
      → contains_name C (names ++ m ∷ []) l ≡ true
  contains_name_more names l m h =
      ground (arith, h, any-append (λ k. C.lower_eq.same k l) names (m ∷ []))

  pub write_ptr_shows : (w : Writing C) → IsGood w → IsShown (write_ptr C (some name) fqdn w).1
  write_ptr_shows w h = rw (write_ptr-eq-ok C N L fqdn name w) (
    configure_ptr-IsWellFormed C L N name fqdn w.zone h,
    ground (
      arith,
      any-append (λ k. C.lower_eq.same k (C.lower name)) w.written (C.lower name ∷ []),
      (C.lower_eq.same_iff (C.lower name) (C.lower name)).1 refl,
    ),
    configure_ptr_stores C N L name fqdn w.zone,
  )

  -- A record that points to the same host.
  pub write_ptr-IsShown_same :
      (o : Option C.Name) (w : Writing C) → IsShown w → IsShown (write_ptr C o fqdn w).1
  write_ptr-IsShown_same none w h = unfold write_ptr in h
  write_ptr-IsShown_same (some ptr) w (good, named, stored) =
      rw (write_ptr-eq-ok C N L fqdn ptr w) (
        configure_ptr-IsWellFormed C L N ptr fqdn w.zone good,
        contains_name_more w.written (C.lower name) (C.lower ptr) named,
        configure_ptr_keeps C N L fqdn ptr name w.zone stored,
      )

  -- A record of another name.
  pub write_ptr-IsShown_other :
      (o : Option C.Name) (host : C.Name) (w : Writing C)
      → o ≢ some name
      → IsShown w
      → IsShown (write_ptr C o host w).1
  write_ptr-IsShown_other none host w differ h = unfold write_ptr in h
  write_ptr-IsShown_other (some ptr) host w differ (good, named, stored) =
      let other : key_of C name RecordType.ptr ≢ key_of C ptr RecordType.ptr = λ p. differ (
        ap some (
          sym (N.of_lower-lower ptr)
          ∙ ap (λ k. C.of_lower k.name) (sym p)
          ∙ N.of_lower-lower name)) in
      rw (write_ptr-eq-ok C N L host ptr w) (
        configure_ptr-IsWellFormed C L N ptr host w.zone good,
        contains_name_more w.written (C.lower name) (C.lower ptr) named,
        rw (lookup-configure_ptr C N L ptr host w.zone (key_of C name RecordType.ptr) other) stored,
      )

  pub prune-IsShown :
      (w : Writing C)
      → IsShown w
      → IsShown (record w { zone = (prune_records C w.written w.zone).1 })
  prune-IsShown w (good, named, stored) = (
    prune_records-IsWellFormed C L N w.written w.zone good,
    named,
    rw
        (
          (prune_records_lem C N w.written w.zone (key_of C name RecordType.ptr) good.nodup).1,
          surviving-written C w.written (key_of C name RecordType.ptr) _ named,
        )
        stored,
  )
