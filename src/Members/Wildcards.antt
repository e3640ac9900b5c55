-- ===== src/Members/Wildcards.antt =====
-- The wildcards of a member's record (src/authority.rs): what they need so that `insert_member` does
-- not panic.
use zeronsd.Base.{
  ◌≡◌, refl, ◌∙◌, ap, Bool, true, false, Option, some, none, List, [], ◌∷◌, Outcome, ok, All,
}
use zeronsd.Base.Exec.{continue_of_ok}
use zeronsd.Net.{IpAddr}
use zeronsd.Crates.{Crates}
use zeronsd.Hostname.{to_wildcard}
use zeronsd.Members.{
  ZtRecord, Writing, get_custom_wildcard, write_name, write_wildcard, write_custom, insert_member,
}

module _ (C : Crates) where
  -- The name has a wildcard: it does not become too long.
  abbrev HasWildcard : C.Name → Type 0
  HasWildcard name = (whole : C.Name) × (to_wildcard C name ≡ ok whole)

  -- The names of a record for which wildcards are entered.
  abbrev wildcarded : Bool → C.Name → Option C.Name → List C.Name
  wildcarded false fqdn custom = []
  wildcarded true fqdn none = fqdn ∷ []
  wildcarded true fqdn (some custom) = fqdn ∷ custom ∷ []

  -- Each of them has a wildcard.
  abbrev pub HasWildcards : ZtRecord C → Type 0
  HasWildcards r = All HasWildcard (wildcarded r.wildcard r.fqdn r.custom_name)

  write_wildcard_ok :
      (o : Outcome C.Name) (name : C.Name) (ips : List IpAddr) (w : Writing C)
      → o ≡ ok name
      → (write_wildcard C true o ips w).0 ≡ ok tt
  unfolding write_wildcard write_name
  write_wildcard_ok o name ips w e = rw e refl

  write_custom_ok :
      (r : ZtRecord C) (b : Bool) (fqdn : C.Name) (o : Option C.Name) (w : Writing C)
      → All HasWildcard (wildcarded b fqdn o)
      → r.wildcard ≡ b
      → r.custom_name ≡ o
      → (write_custom C r o w).0 ≡ ok tt
  unfolding write_custom write_name get_custom_wildcard write_wildcard
  write_custom_ok r b fqdn none w wild is_b e = refl
  write_custom_ok r false fqdn (some name) w wild is_b e = rw (write_custom, is_b) refl
  write_custom_ok r true fqdn (some name) w (_, ((whole, made), _)) is_b e =
      rw (write_custom, is_b)
        (write_wildcard_ok (get_custom_wildcard C r) whole r.ips _
          (rw (get_custom_wildcard, e) made))

  fqdn_wildcard_ok :
      (b : Bool) (fqdn : C.Name) (o : Option C.Name) (ips : List IpAddr) (w : Writing C)
      → All HasWildcard (wildcarded b fqdn o)
      → (write_wildcard C b (to_wildcard C fqdn) ips w).0 ≡ ok tt
  unfolding write_wildcard
  fqdn_wildcard_ok false fqdn o ips w wild = refl
  fqdn_wildcard_ok true fqdn none ips w ((whole, made), _) =
      write_wildcard_ok (to_wildcard C fqdn) whole ips w made
  fqdn_wildcard_ok true fqdn (some name) ips w ((whole, made), _) =
      write_wildcard_ok (to_wildcard C fqdn) whole ips w made

  -- Such a record can be entered.
  pub insert_member_ok :
      (r : ZtRecord C) (w : Writing C) → HasWildcards r → (insert_member C r w).0 ≡ ok tt
  unfolding insert_member write_name
  insert_member_ok r w wild =
      let own =
        write_wildcard C r.wildcard (to_wildcard C r.fqdn) r.ips (write_name C r.fqdn r.ips w).1 in
      let e =
        fqdn_wildcard_ok r.wildcard r.fqdn r.custom_name r.ips (write_name C r.fqdn r.ips w).1
          wild in
      ap (λ p. p.0) (continue_of_ok own tt (λ _. write_custom C r r.custom_name) e)
      ∙ write_custom_ok r r.wildcard r.fqdn r.custom_name own.1 wild refl refl
