-- ===== src/Members/Pointers.antt =====
-- The PTR records that `insert_member_ptr` of src/authority.rs leaves for a member.
use zeronsd.Base.{
  ◌≡◌, refl, sym, true, Option, some, none, List, [], ◌∷◌, ◌++◌, All, ok, Bool-cases, inl, inr,
}
use mathlib.Core.Path.{subst}
use zeronsd.Base.Exec.{continue_of_ok, for_each, for_each-keeps}
use zeronsd.Net.{IpAddr}
use zeronsd.Dns.{RecordType, RData, key_same, key_same_iff}
use zeronsd.Crates.{Crates, Zone}
use zeronsd.Crates.Laws.{IsNamesLawful, IsZoneLawful, is_stored}
use zeronsd.Authority.{key_of, configure_ptr}
use zeronsd.Authority.Ptr.{configure_ptr-cases, configure_ptr_stores, lookup-configure_ptr}
use zeronsd.Members.{ZtRecord, Writing, write_ptr, insert_member_ptr}

module _ (C : Crates) where
  -- The address has a reverse name.
  abbrev pub HasName : IpAddr → Type 0
  HasName ip = (name : C.Name) × (C.ip_into_name ip ≡ some name)

  -- The reverse name of the address has a PTR record for the host.
  abbrev pub Points : Zone C → C.Name → IpAddr → Type 0
  Points z fqdn ip =
      (name : C.Name) × (C.ip_into_name ip ≡ some name)
      × (is_stored C (key_of C name RecordType.ptr) z (RData.ptr fqdn) ≡ true)

module _ (C : Crates) (N : IsNamesLawful C) (L : IsZoneLawful C) (fqdn : C.Name) where
  pub configure_ptr_keeps :
      (ptr other : C.Name) (z : Zone C)
      → is_stored C (key_of C other RecordType.ptr) z (RData.ptr fqdn) ≡ true
      → is_stored C (key_of C other RecordType.ptr) (configure_ptr C ptr fqdn z).1 (RData.ptr fqdn)
        ≡ true
  configure_ptr_keeps ptr other z h =
      let k = key_of C other RecordType.ptr in
      let here = key_of C ptr RecordType.ptr in
      elim (Bool-cases (key_same C.lower_eq k here)) [
        | inl same ↦
            let e : k ≡ here = (key_same_iff C.lower_eq k here).0 same in
            rw e (configure_ptr_stores C N L ptr fqdn z)
        | inr differ ↦
            rw
              (lookup-configure_ptr C N L ptr fqdn z k
                (λ p. cc (differ, (key_same_iff C.lower_eq k here).1 p)))
              h
      ]

  write_ptr_lem :
      (ptr : C.Name) (w : Writing C)
      → ((write_ptr C (some ptr) fqdn w).0 ≡ ok tt)
        × ((write_ptr C (some ptr) fqdn w).1.zone ≡ (configure_ptr C ptr fqdn w.zone).1)
  unfolding write_ptr
  write_ptr_lem ptr w = rw (configure_ptr-cases C N L ptr fqdn w.zone) (refl, refl)

  -- `write_ptr` for a name succeeds, and the name is written.
  pub write_ptr-eq-ok :
      (ptr : C.Name) (w : Writing C)
      → write_ptr C (some ptr) fqdn w ≡ (
        ok tt,
        record {
          zone = (configure_ptr C ptr fqdn w.zone).1;
          written = w.written ++ C.lower ptr ∷ [];
        },
      )
  unfolding write_ptr
  write_ptr-eq-ok ptr w = rw (configure_ptr-cases C N L ptr fqdn w.zone) refl

  write_ptr-Points :
      (o : Option C.Name) (ip : IpAddr) (w : Writing C)
      → Points C w.zone fqdn ip
      → Points C (write_ptr C o fqdn w).1.zone fqdn ip
  unfolding write_ptr
  write_ptr-Points none ip w h = h
  write_ptr-Points (some ptr) ip w (name, e, h) =
      (name, e, rw (write_ptr_lem ptr w).1 (configure_ptr_keeps ptr name w.zone h))

  write_ptr-Points_each :
      (ips : List IpAddr) (w : Writing C)
      → All (HasName C) ips
      → ((for_each (λ ip. write_ptr C (C.ip_into_name ip) fqdn) ips w).0 ≡ ok tt)
        × All
            (Points C (for_each (λ ip. write_ptr C (C.ip_into_name ip) fqdn) ips w).1.zone fqdn)
            ips
  unfolding for_each
  write_ptr-Points_each [] w h = (refl, tt)
  write_ptr-Points_each (ip ∷ ips) w ((name, e), hs) =
      let body = λ (ip : IpAddr). write_ptr C (C.ip_into_name ip) fqdn in
      let (succeeds, zone) = write_ptr_lem name w in
      let w' = (write_ptr C (some name) fqdn w).1 in
      let first : Points C w'.zone fqdn ip =
        (name, e, rw zone (configure_ptr_stores C N L name fqdn w.zone)) in
      let (rest_ok, rest) = write_ptr-Points_each ips w' hs in
      let kept : Points C (for_each body ips w').1.zone fqdn ip =
        for_each-keeps (λ w. Points C w.zone fqdn ip) body
          (λ j v h. write_ptr-Points (C.ip_into_name j) ip v h) ips w' first in
      let here : for_each body (ip ∷ ips) w ≡ for_each body ips w' =
        rw e (continue_of_ok (write_ptr C (some name) fqdn w) tt _ succeeds) in
      subst (λ r. (r.0 ≡ ok tt) × All (Points C r.1.zone fqdn) (ip ∷ ips)) (sym here)
        (rest_ok, (kept, rest))

module _ (C : Crates) (N : IsNamesLawful C) (L : IsZoneLawful C) where
  -- If every address of a record has a reverse name, `insert_member_ptr` succeeds, and each of
  -- these names has a PTR record for the name that the record points to.
  pub insert_member_ptr-Points :
      (r : ZtRecord C) (w : Writing C)
      → All (HasName C) r.ips
      → ((insert_member_ptr C r w).0 ≡ ok tt)
        × All (Points C (insert_member_ptr C r w).1.zone r.ptr_name) r.ips
  unfolding insert_member_ptr
  insert_member_ptr-Points r w h = write_ptr-Points_each C N L r.ptr_name r.ips w h
