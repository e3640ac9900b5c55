-- ===== src/Members/Names.antt =====
-- The names that `insert_member` of src/authority.rs writes for a member.
use zeronsd.Base.{
  ◌≡◌, refl, ◌∙◌, ap, sym, Bool, true, false, Option, some, none, List, [], ◌∷◌, ◌++◌,
  if◌then◌else◌, Outcome, ok, err, panic,
}
use zeronsd.Base.Exec.{continue-ok}
use zeronsd.Net.{IpAddr}
use zeronsd.Crates.{Crates}
use zeronsd.Hostname.{to_wildcard}
use zeronsd.Members.{
  ZtRecord, Writing, get_custom_wildcard, write_name, write_wildcard, write_custom, insert_member,
}

module _ (C : Crates) where
  -- The name of a result that is one.
  abbrev pub name_of : Outcome C.Name → List C.Name
  name_of (ok name) = name ∷ []
  name_of err = []
  name_of panic = []

  -- A name, and its wildcard if there are to be wildcards.
  abbrev pub with_wildcard : Bool → C.Name → List C.Name
  with_wildcard wildcard name = name ∷ (if wildcard then name_of (to_wildcard C name) else [])

  abbrev pub custom_names : Bool → Option C.Name → List C.Name
  custom_names wildcard none = []
  custom_names wildcard (some name) = with_wildcard wildcard name

  -- The names of a record: its own and the custom one, each with its wildcard.
  abbrev pub record_names : ZtRecord C → List C.Name
  record_names r = with_wildcard r.wildcard r.fqdn ++ custom_names r.wildcard r.custom_name

  -- `write_name` for each of the names
  abbrev pub write_all : List C.Name → List IpAddr → Writing C → Writing C
  write_all [] ips w = w
  write_all (name ∷ names) ips w = write_all names ips (write_name C name ips w).1

  write_all-append :
      (xs ys : List C.Name) (ips : List IpAddr) (w : Writing C)
      → write_all (xs ++ ys) ips w ≡ write_all ys ips (write_all xs ips w)
  write_all-append [] ys ips w = refl
  write_all-append (x ∷ xs) ys ips w = write_all-append xs ys ips _

  write_wildcard_lem :
      (b : Bool) (o : Outcome C.Name) (ips : List IpAddr) (w : Writing C)
      → (write_wildcard C b o ips w).0 ≡ ok tt
      → (write_wildcard C b o ips w).1 ≡ write_all (if b then name_of o else []) ips w
  unfolding write_wildcard
  write_wildcard_lem false o ips w h = refl
  write_wildcard_lem true (ok name) ips w h = refl
  write_wildcard_lem true err ips w h = cc
  write_wildcard_lem true panic ips w h = cc

  custom_wildcard_lem :
      (r : ZtRecord C) (name : C.Name)
      → r.custom_name ≡ some name
      → get_custom_wildcard C r ≡ to_wildcard C name
  unfolding get_custom_wildcard
  custom_wildcard_lem r name e = rw e refl

  write_custom_lem :
      (r : ZtRecord C) (o : Option C.Name) (w : Writing C)
      → r.custom_name ≡ o
      → (write_custom C r o w).0 ≡ ok tt
      → (write_custom C r o w).1 ≡ write_all (custom_names r.wildcard o) r.ips w
  unfolding write_custom write_name
  write_custom_lem r none w e h = refl
  write_custom_lem r (some name) w e h =
      write_wildcard_lem r.wildcard (get_custom_wildcard C r) r.ips _ h
      ∙ ap
          (λ o.
            write_all (if r.wildcard then name_of o else []) r.ips (write_name C name r.ips w).1)
          (custom_wildcard_lem r name e)

  -- A success writes them all, in that order.
  pub insert_member_lem :
      (r : ZtRecord C) (w : Writing C)
      → (insert_member C r w).0 ≡ ok tt
      → (insert_member C r w).1 ≡ write_all (record_names r) r.ips w
  unfolding insert_member write_name
  insert_member_lem r w h =
      let own =
        write_wildcard C r.wildcard (to_wildcard C r.fqdn) r.ips (write_name C r.fqdn r.ips w).1 in
      let (own_ok, rest, custom_ok) = continue-ok own (λ _. write_custom C r r.custom_name) h in
      let custom = write_custom_lem r r.custom_name own.1 refl custom_ok in
      ap (λ p. p.1) rest
      ∙ custom
      ∙ ap (write_all (custom_names r.wildcard r.custom_name) r.ips) (
          write_wildcard_lem r.wildcard (to_wildcard C r.fqdn) r.ips (write_name C r.fqdn r.ips w).1
            own_ok)
      ∙ sym (
          write_all-append (if r.wildcard then name_of (to_wildcard C r.fqdn) else [])
            (custom_names r.wildcard r.custom_name) r.ips (write_name C r.fqdn r.ips w).1)
