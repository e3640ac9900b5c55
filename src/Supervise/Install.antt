-- ===== src/Supervise/Install.antt =====
-- What `install_supervisor` and `uninstall_supervisor` of src/supervise.rs do together.
use zeronsd.Base.{
  ℕ, ◌≡◌, refl, ◌∙◌, ap, sym, true, some, Text, ok, Option-cases, Bool-cases, inl, inr,
}
use zeronsd.Base.Exec.{continue, continue-value}
use zeronsd.Utils.{Platform, linux, windows, macos, other}
use zeronsd.Supervise.{
  Properties, System, validate, service_name, service_path, make_executable, save_service,
  is_executable, is_supported, supervise_template, write_service, install_validated,
  install_supervisor, uninstall_supervisor,
}
use zeronsd.Supervise.Validate.{validate-SameService}

-- A file that was written can be removed, also after its mode was set.
pub record IsSystemLawful (S : System) : Type 0 where
  pub remove_file-write :
      (path text : Text) (d d' : S.Disk)
      → S.write path text d ≡ some d'
      → (d'' : S.Disk) × (S.remove_file path d' ≡ some d'')
  pub remove_file-set_mode :
      (path : Text) (mode : ℕ) (d d' d'' : S.Disk)
      → S.remove_file path d ≡ some d'
      → S.set_mode path mode d ≡ some d''
      → (e : S.Disk) × (S.remove_file path d'' ≡ some e)

module _ (S : System) where
  service_path-SameService :
      (platform : Platform) (p q : Properties)
      → q.launcher.network_id ≡ p.launcher.network_id
      → q.distro ≡ p.distro
      → service_path S platform q ≡ service_path S platform p
  unfolding service_path service_name
  service_path-SameService linux p q a c = rw (a, c) refl
  service_path-SameService macos p q a c = rw (a, c) refl
  service_path-SameService windows p q a c = rw c refl
  service_path-SameService other p q a c = rw c refl

  make_executable-removable :
      IsSystemLawful S
      → (platform : Platform) (p : Properties) (path : Text) (d e : S.Disk)
      → S.remove_file path d ≡ some e
      → (e' : S.Disk) × (S.remove_file path (make_executable S platform p path d).1 ≡ some e')
  unfolding make_executable
  make_executable-removable L platform p path d e h =
      elim (Bool-cases (is_executable S platform p)) [
        | inl runs ↦ elim (Option-cases (S.set_mode path 0o755 d)) [
          | inl failed ↦ rw (runs, failed) (e, h)
          | inr (d', set) ↦ rw (runs, set) (L.remove_file-set_mode path 0o755 d e d' h set)
        ]
        | inr skips ↦ rw skips (e, h)
      ]

  save_service-removable :
      IsSystemLawful S
      → (platform : Platform) (p : Properties) (template path : Text) (d : S.Disk)
      → (save_service S platform p template path d).0 ≡ ok tt
      → (e : S.Disk) × (S.remove_file path (save_service S platform p template path d).1 ≡ some e)
  unfolding save_service
  save_service-removable L platform p template path d h =
      elim (Option-cases (S.write path template d)) [
        | inl failed ↦ cc (rw (save_service, failed) at h)
        | inr (d', written) ↦
            let (e, removed) = L.remove_file-write path template d d' written in
            rw (save_service, written) (make_executable-removable L platform p path d' e removed)
      ]

  write_service-removable :
      IsSystemLawful S
      → (platform : Platform) (p : Properties) (d : S.Disk)
      → (write_service S platform p d).0 ≡ ok tt
      → (path : Text) × (e : S.Disk) × (service_path S platform p ≡ ok path)
        × (S.remove_file path (write_service S platform p d).1 ≡ some e)
  unfolding write_service
  write_service-removable L platform p d h =
      let save = λ (template : Text) (path : Text). save_service S platform p template path in
      let (template, rendered, here) =
        continue-value (supervise_template S platform p) d
          (λ t d'. continue (service_path S platform p, d') (save t)) h in
      let (path, at_path, there) =
        continue-value (service_path S platform p) d (save template)
          (ap (λ r. r.0) (sym here) ∙ h) in
      let saved = ap (λ r. r.0) (sym (here ∙ there)) ∙ h in
      let (e, removed) = save_service-removable L platform p template path d saved in
      (path, e, at_path, ap (λ r. S.remove_file path r.1) (here ∙ there) ∙ removed)

  uninstall_written :
      IsSystemLawful S
      → (platform : Platform) (p r : Properties) (d : S.Disk)
      → (write_service S platform p d).0 ≡ ok tt
      → r.launcher.network_id ≡ p.launcher.network_id
      → r.distro ≡ p.distro
      → (path : Text) × (e : S.Disk) × (service_path S platform r ≡ ok path)
        × (S.remove_file path (write_service S platform p d).1 ≡ some e)
  uninstall_written L platform p r d h id distro =
      let (path, e, at_path, removed) = write_service-removable L platform p d h in
      (path, e, service_path-SameService platform p r id distro ∙ at_path, removed)

  uninstall_supervisor_removes :
      (platform : Platform) (r : Properties) (path : Text) (d e : S.Disk)
      → is_supported S platform ≡ true
      → service_path S platform r ≡ ok path
      → S.remove_file path d ≡ some e
      → (uninstall_supervisor S platform r d).0 ≡ ok tt
  unfolding uninstall_supervisor
  uninstall_supervisor_removes platform r path d e supported at_path removed =
      rw (supported, at_path, continue, removed) refl

  uninstall_validated :
      IsSystemLawful S
      → (platform : Platform) (p r : Properties) (d : S.Disk)
      → (install_validated S platform (p, d)).0 ≡ ok tt
      → r.launcher.network_id ≡ p.launcher.network_id
      → r.distro ≡ p.distro
      → (uninstall_supervisor S platform r (install_validated S platform (p, d)).1.1).0 ≡ ok tt
  unfolding install_validated
  uninstall_validated L linux p r d h id distro =
      let (path, e, at_path, removed) = uninstall_written L linux p r d h id distro in
      uninstall_supervisor_removes linux r path _ e refl at_path removed
  uninstall_validated L macos p r d h id distro =
      let (path, e, at_path, removed) = uninstall_written L macos p r d h id distro in
      uninstall_supervisor_removes macos r path _ e refl at_path removed
  uninstall_validated L windows p r d h id distro = cc
  uninstall_validated L other p r d h id distro = cc

  -- If written files can be removed, also after a change of mode, then on every platform what
  -- `install_supervisor` has installed is uninstalled successfully by properties with the same
  -- network and distribution.
  pub uninstall_supervisor-install_supervisor :
      IsSystemLawful S
      → (platform : Platform) (p r : Properties) (d : S.Disk)
      → (install_supervisor S platform (p, d)).0 ≡ ok tt
      → r.launcher.network_id ≡ p.launcher.network_id
      → r.distro ≡ p.distro
      → (uninstall_supervisor S platform r (install_supervisor S platform (p, d)).1.1).0 ≡ ok tt
  unfolding install_supervisor
  uninstall_supervisor-install_supervisor L platform p r d h id distro =
      let (r', q) = validate S d p in
      let (_, _, here) = continue-value r' (q, d) (λ _. install_validated S platform) h in
      let (same_id, _, same_distro) = validate-SameService S d p in
      ap (λ s. (uninstall_supervisor S platform r s.1.1).0) here
      ∙ uninstall_validated L platform q r d (ap (λ s. s.0) (sym here) ∙ h) (id ∙ sym same_id)
          (distro ∙ sym same_distro)
