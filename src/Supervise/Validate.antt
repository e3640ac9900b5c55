-- ===== src/Supervise/Validate.antt =====
-- What `validate` of src/supervise.rs checks and changes.
use zeronsd.Base.{
  ◌≡◌, refl, ◌∙◌, ap, sym, Bool, true, false, some, Text, if◌then◌else◌, ◌==◌, Outcome, ok, err,
  panic, or_panic, or_err, ◌>>=◌, arith, >>=-eq-ok, or_err-eq-ok, or_panic-eq-ok, ==_iff,
}
use zeronsd.Base.Exec.{continue-ok, Exec, continue}
use zeronsd.Supervise.{
  Properties, System, byte_length, check_config, check_file, check_token, check_network_id,
  check_hosts, check_domain, check_secret, validate, validate_token, validate_hosts,
  validate_domain,
}

-- What no step of `validate` changes.
abbrev pub SameService : Properties → Properties → Type 0
SameService p q =
    (q.launcher.network_id ≡ p.launcher.network_id)
    × (q.launcher.token ≡ p.launcher.token)
    × (q.distro ≡ p.distro)

module _ (S : System) (disk : S.Disk) where
  check_config-SameService : (p : Properties) → SameService p (check_config S disk p).1
  unfolding check_config
  check_config-SameService p = ground arith

  check_hosts-SameService : (p : Properties) → SameService p (check_hosts S disk p).1
  unfolding check_hosts
  check_hosts-SameService p = ground arith

  check_secret-SameService : (p : Properties) → SameService p (check_secret S disk p).1
  unfolding check_secret
  check_secret-SameService p = ground arith

  SameService-trans : (p q r : Properties) → SameService p q → SameService q r → SameService p r
  SameService-trans p q r (a, b, c) (a', b', c') = (a' ∙ a, b' ∙ b, c' ∙ c)

  -- What every step keeps, their sequence keeps.
  step-SameService :
      (p : Properties) (r : Outcome (Unit {0}) × Properties)
      (f : Unit {0} → Exec Properties (Unit {0}))
      → SameService p r.1
      → ((q : Properties) → SameService q (f tt q).1)
      → SameService p (continue r f).1
  step-SameService p (ok tt, q) f h k = SameService-trans p q (f tt q).1 h (k q)
  step-SameService p (err, q) f h k = h
  step-SameService p (panic, q) f h k = h

  -- `validate` changes neither the network, nor the token's path, nor the distribution.
  pub validate-SameService : (p : Properties) → SameService p (validate S disk p).1
  unfolding validate validate_token validate_hosts validate_domain
  validate-SameService p =
      step-SameService p (check_config S disk p) (λ _. validate_token S disk)
        (check_config-SameService p)
        (λ p1.
          step-SameService p1 (check_token S disk p1 >>= λ _. check_network_id S p1, p1)
            (λ _. validate_hosts S disk) (refl, refl, refl)
            (λ p2.
              step-SameService p2 (check_hosts S disk p2) (λ _. validate_domain S disk)
                (check_hosts-SameService p2)
                (λ p3.
                  step-SameService p3 (check_domain S p3, p3) (λ _. check_secret S disk)
                    (refl, refl, refl) check_secret-SameService)))

  abbrev IsValid : Properties → Type 0
  IsValid p =
      ((id : Text) × (p.launcher.network_id ≡ some id) × (byte_length id ≡ 16))
      × ((token : Text) × (path : Text) × (p.launcher.token ≡ some token)
          × (S.canonicalize disk token ≡ some path)
          × (S.is_file disk path ≡ some true))

  guard-eq-ok :
      (b : Bool) → ◌≡◌ {A = Outcome (Unit {0})} (if b then ok tt else err) (ok tt) → b ≡ true
  guard-eq-ok true h = refl
  guard-eq-ok false h = cc

  checks_lem :
      (p : Properties) → (check_token S disk p >>= λ _. check_network_id S p) ≡ ok tt → IsValid p
  unfolding check_token check_network_id check_file
  checks_lem p h =
      let (u, token_ok, id_ok) = >>=-eq-ok (check_token S disk p) _ h in
      let (id, e_id, len) = >>=-eq-ok (or_panic p.launcher.network_id) _ id_ok in
      let (given, e_given, rest) = >>=-eq-ok (or_panic p.launcher.token) _ token_ok in
      let (path, e_path, file) = >>=-eq-ok (or_err (S.canonicalize disk given)) _ rest in
      let (b, e_b, is_a_file) = >>=-eq-ok (or_err (S.is_file disk path)) _ file in
      (
        (
          id,
          or_panic-eq-ok _ e_id,
          (==_iff (byte_length id) 16).0 (guard-eq-ok (byte_length id == 16) len),
        ),
        (
          given,
          path,
          or_panic-eq-ok _ e_given,
          or_err-eq-ok _ e_path,
          or_err-eq-ok _ e_b ∙ ap some (guard-eq-ok b is_a_file),
        ),
      )

  IsValid-SameService : (p q : Properties) → SameService p q → IsValid q → IsValid p
  IsValid-SameService p q (a, b, c) ((id, e_id, len), (given, path, e_given, e_path, file)) =
      ((id, sym a ∙ e_id, len), (given, path, sym b ∙ e_given, e_path, file))

  -- If `validate` succeeds, the network identifier is given and has 16 bytes, the token's path is
  -- given and leads to a file, and the launcher still has that path as it was given.
  pub validate_sound :
      (p : Properties)
      → (validate S disk p).0 ≡ ok tt
      → ((id : Text) × (p.launcher.network_id ≡ some id) × (byte_length id ≡ 16))
        × ((token : Text) × (path : Text) × (p.launcher.token ≡ some token)
            × (S.canonicalize disk token ≡ some path)
            × (S.is_file disk path ≡ some true)
            × ((validate S disk p).1.launcher.token ≡ some token))
  unfolding validate validate_token
  validate_sound p h =
      let (_, _, rest) = continue-ok (check_config S disk p) (λ _. validate_token S disk) h in
      let q = (check_config S disk p).1 in
      let (checks_ok, _, _) =
        continue-ok ((check_token S disk q >>= λ _. check_network_id S q), q)
          (λ _. validate_hosts S disk) rest in
      let (valid_id, (given, path, e_given, e_path, file)) =
        IsValid-SameService p q (check_config-SameService p) (checks_lem q checks_ok) in
      let (_, same_token, _) = validate-SameService p in
      (valid_id, (given, path, e_given, e_path, file, same_token ∙ e_given))
