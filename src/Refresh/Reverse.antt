-- ===== src/Refresh/Reverse.antt =====
-- The zone of one reverse network in `configure_members` of src/authority.rs, beside the list of
-- the names that are written to it.
pub mod Kept
pub mod Whole
pub mod Shown
pub mod Member
pub mod Assigned
pub mod Points
pub mod Sound
use zeronsd.Base.{
  ◌≡◌, refl, ◌∙◌, ap, sym, true, false, Option, some, none, List, [], ◌∷◌, any, if◌then◌else◌,
  Outcome, ok, Bool-cases, Option-cases, inl, inr, arith,
}
use mathlib.Core.Path.{subst}
use zeronsd.Base.Dict
use zeronsd.Base.Exec.{Exec}
use zeronsd.Crates.{Crates}
use zeronsd.Authority.{RecordAuthority}
use zeronsd.Members.{Writing}
use zeronsd.Refresh.{Refresh, on_reverse}
use zeronsd.Refresh.Tracks.{is_key}

module _ (C : Crates) where
  abbrev pub writing : RecordAuthority C → List C.LowerName → Writing C
  writing a written = record { zone = a.authority; written = written }

  -- The network has a reverse zone and a list of written names, of which `Q` holds.
  abbrev pub HasReverse : C.IpNetwork → (Writing C → Type 0) → Refresh C → Type 0
  HasReverse n Q s =
      (a : RecordAuthority C) × (written : List C.LowerName) × (Dict.lookup C.net_eq n s.reverse
        ≡ some a)
      × (Dict.lookup C.net_eq n s.reverse_records ≡ some written)
      × Q (writing a written)

  pub is_key_of_lookup :
      {V : Type 0} (n : C.IpNetwork) (m : List (C.IpNetwork × V)) (v : V)
      → Dict.lookup C.net_eq n m ≡ some v
      → is_key C.net_eq n m ≡ true
  unfolding Dict.lookup
  is_key_of_lookup n [] v e = cc
  is_key_of_lookup n ((j, w) ∷ m) v e = ground (arith, is_key_of_lookup n m v)

  pub lookup-insert_same :
      {V : Type 0} (n : C.IpNetwork) (v : V) (m : List (C.IpNetwork × V))
      → Dict.lookup C.net_eq n (Dict.insert C.net_eq n v m) ≡ some v
  lookup-insert_same n v m =
      Dict.lookup-insert C.net_eq n n v m ∙ rw ((C.net_eq.same_iff n n).1 refl) refl

  pub lookup-insert_other :
      {V : Type 0} (n j : C.IpNetwork) (v : V) (m : List (C.IpNetwork × V))
      → C.net_eq.same j n ≡ false
      → Dict.lookup C.net_eq n (Dict.insert C.net_eq j v m) ≡ Dict.lookup C.net_eq n m
  lookup-insert_other n j v m differ = Dict.lookup-insert C.net_eq n j v m ∙ rw differ refl

  -- What an operation on the zone of the network does.
  pub on_reverse_own :
      (n : C.IpNetwork) (op : Exec (Writing C) (Unit {0})) (Q R : Writing C → Type 0)
      (s : Refresh C)
      → ((w : Writing C) → Q w → (op w).0 ≡ (on_reverse C n op s).0 → R (op w).1)
      → HasReverse n Q s
      → HasReverse n R (on_reverse C n op s).1
  unfolding on_reverse
  on_reverse_own n op Q R s step (a, written, found, there, q) =
      let w = writing a written in
      let same : (op w).0 ≡ (on_reverse C n op s).0 = rw (on_reverse, found, there) refl in
      let b : RecordAuthority C = record a { authority = (op w).1.zone } in
      let r = step w q same in
      rw (on_reverse, found, there)
        (
          b,
          (op w).1.written,
          lookup-insert_same n b s.reverse,
          lookup-insert_same n (op w).1.written s.reverse_records,
          r,
        )

  -- An operation on the zone of another network.
  on_reverse_other :
      (n j : C.IpNetwork) (op : Exec (Writing C) (Unit {0})) (Q : Writing C → Type 0)
      (s : Refresh C)
      → C.net_eq.same j n ≡ false
      → HasReverse n Q s
      → HasReverse n Q (on_reverse C j op s).1
  unfolding on_reverse
  on_reverse_other n j op Q s differ (a, written, found, there, q) =
      elim (Option-cases (Dict.lookup C.net_eq j s.reverse)) [
        | inl absent ↦ rw (on_reverse, absent) (a, written, found, there, q)
        | inr (b, found_j) ↦ elim (Option-cases (Dict.lookup C.net_eq j s.reverse_records)) [
          | inl missing ↦ rw (on_reverse, found_j, missing) (a, written, found, there, q)
          | inr (names, there_j) ↦
              let w = writing b names in
              rw (on_reverse, found_j, there_j)
                (
                  a,
                  written,
                  lookup-insert_other n j (record b { authority = (op w).1.zone }) s.reverse differ
                      ∙ found,
                  lookup-insert_other n j (op w).1.written s.reverse_records differ ∙ there,
                  q,
                )
        ]
      ]

  -- What an operation keeps, it keeps for the network, whichever zone it is on.
  pub on_reverse-HasReverse :
      (n j : C.IpNetwork) (op : Exec (Writing C) (Unit {0})) (Q : Writing C → Type 0)
      (s : Refresh C)
      → ((w : Writing C) → Q w → Q (op w).1)
      → HasReverse n Q s
      → HasReverse n Q (on_reverse C j op s).1
  on_reverse-HasReverse n j op Q s keep h = elim (Bool-cases (C.net_eq.same j n)) [
    | inl same ↦
        subst (λ i. HasReverse n Q (on_reverse C i op s).1) (sym ((C.net_eq.same_iff j n).0 same))
          (on_reverse_own n op Q Q s (λ w q _. keep w q) h)
    | inr differ ↦ on_reverse_other n j op Q s differ h
  ]
