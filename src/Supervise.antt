-- ===== src/Supervise.antt =====
-- src/supervise.rs: the service definition that `zeronsd supervise` installs.
-- The platform is an argument where the source has `cfg`. Paths are texts, and messages are left
-- out.
pub mod Templates
pub mod Validate
pub mod Install
use zeronsd.Base.{
  ℕ, ◌+◌, Bool, true, false, not, Option, some, none, List, [], ◌∷◌, ◌++◌, Text, codes, text_same,
  if◌then◌else◌, ltb, ◌==◌, is_empty, Outcome, ok, err, panic, ◌>>=◌, or_err, or_panic, unwrap,
}
use zeronsd.Base.Exec
use zeronsd.Base.Exec.{Exec, continue}
use zeronsd.Hostname.{trim}
use zeronsd.Utils.{Platform, linux, windows, macos, other}
use zeronsd.Settings.{Launcher, ConfigFormat, default_launcher, StartArgs, Started}
use zeronsd.Supervise.Templates.{text_of, systemd_template, alpine_template, macos_template}

-- `Properties`
pub record Properties : Type 0 where
  pub launcher : Launcher
  pub binpath : Text
  pub config : Option Text
  pub config_type : ConfigFormat
  pub config_type_supplied : Bool
  pub distro : Option Text

-- The operating system: `std::fs`, `Path::join`, `std::env::current_exe`, and the libraries that
-- are called: the capture of `\nID=(.+)\n`, `Name::parse`, and TinyTemplate's `render`.
pub record System : Type 1 where
  pub Disk : Type 0
  pub canonicalize : Disk → Text → Option Text
  -- `metadata`, and its `is_file`
  pub is_file : Disk → Text → Option Bool
  pub read : Disk → Text → Option Text
  pub write : Text → Text → Disk → Option Disk
  pub remove_file : Text → Disk → Option Disk
  pub set_mode : Text → ℕ → Disk → Option Disk
  pub join : Text → Text → Text
  pub current_exe : Option Text
  pub capture_id : Text → Option Text
  pub name_parses : Text → Bool
  pub render : Text → Properties → Option Text
  pub is_space : ℕ → Bool

-- `str::len`, in bytes of UTF-8
abbrev char_bytes : ℕ → ℕ
char_bytes c = if ltb c 0x80 then 1 else if ltb c 0x800 then 2 else if ltb c 0x10000 then 3 else 4

abbrev pub byte_length : Text → ℕ
byte_length [] = 0
byte_length (c ∷ s) = char_bytes c + byte_length s

abbrev is_yaml : ConfigFormat → Bool
is_yaml ConfigFormat.yaml = true
is_yaml _ = false

-- `distro.as_deref() == Some("alpine")`
abbrev pub is_alpine : Option Text → Bool
is_alpine none = false
is_alpine (some distro) = text_same distro (codes "alpine")

module _ (S : System) where
  -- The name of the Linux distribution, or none on other platforms.
  abbrev find_distro : Platform → S.Disk → Outcome (Option Text)
  find_distro linux disk = or_err (S.read disk (codes "/etc/os-release")) >>= λ release.
      or_err (S.capture_id release) >>= λ distro. ok (some distro)
  find_distro windows disk = ok none
  find_distro macos disk = ok none
  find_distro other disk = ok none

  -- `Properties::new`
  unfoldable pub new_properties :
      Platform → S.Disk → Launcher → Option Text → ConfigFormat → Outcome Properties
  new_properties platform disk launcher config config_type = find_distro platform disk >>= λ distro.
      or_err S.current_exe >>= λ binpath. ok (record {
        launcher = launcher;
        binpath = binpath;
        config = config;
        config_type = config_type;
        config_type_supplied = not (is_yaml config_type);
        distro = distro;
      })

  -- `From<StartArgs>`, by what the conversion to a launcher gave: nothing if that ended the process
  unfoldable pub of_start : Platform → S.Disk → StartArgs → Started → Option (Outcome Properties)
  of_start platform disk args Started.exit = none
  of_start platform disk args (Started.launcher l) =
      some (unwrap (new_properties platform disk l args.config args.config_type))

  -- `From<UnsuperviseArgs>`
  unfoldable pub of_unsupervise : Platform → S.Disk → Text → Outcome Properties
  of_unsupervise platform disk network_id =
      elim (new_properties platform disk (record default_launcher { network_id = some network_id })
        none ConfigFormat.yaml) [ ok p ↦ ok p | err ↦ panic | panic ↦ panic ]

  -- The steps of `validate`, which change the properties in place.
  unfoldable pub check_config : S.Disk → Exec Properties (Unit {0})
  check_config disk p = elim p.config [
    | none ↦ (ok tt, p)
    | some config ↦ elim (S.canonicalize disk config) [
      | none ↦ (err, p)
      | some res ↦ (ok tt, record p { config = some res })
    ]
  ]

  -- `metadata(path)` and `is_file`
  unfoldable pub check_file : S.Disk → Text → Outcome (Unit {0})
  check_file disk path = or_err (S.is_file disk path) >>= λ is_file. if is_file then ok tt else err

  unfoldable pub check_token : S.Disk → Properties → Outcome (Unit {0})
  check_token disk p = or_panic p.launcher.token >>= λ given.
      or_err (S.canonicalize disk given) >>= λ token. check_file disk token

  unfoldable pub check_network_id : Properties → Outcome (Unit {0})
  check_network_id p =
      or_panic p.launcher.network_id >>= λ id. if byte_length id == 16 then ok tt else err

  unfoldable pub check_hosts : S.Disk → Exec Properties (Unit {0})
  check_hosts disk p = elim p.launcher.hosts [
    | none ↦ (ok tt, p)
    | some hosts_file ↦
        continue (check_file disk hosts_file >>= λ _. or_err (S.canonicalize disk hosts_file), p)
          (λ path q. (ok tt, record q { launcher = record q.launcher { hosts = some path } }))
  ]

  unfoldable pub check_domain : Properties → Outcome (Unit {0})
  check_domain p = elim p.launcher.domain [
    | none ↦ ok tt
    | some domain ↦
        if is_empty (trim S.is_space domain)
        then err
        else if S.name_parses domain
        then ok tt
        else err
  ]

  unfoldable pub check_secret : S.Disk → Exec Properties (Unit {0})
  check_secret disk p = elim p.launcher.secret [
    | none ↦ (ok tt, p)
    | some authtoken ↦
        continue (check_file disk authtoken >>= λ _. or_err (S.canonicalize disk authtoken), p)
          (λ path q. (ok tt, record q { launcher = record q.launcher { secret = some path } }))
  ]

  -- `validate`, from the check of the domain on, from the hosts file on, and so forth
  unfoldable pub validate_domain : S.Disk → Exec Properties (Unit {0})
  validate_domain disk p = continue (check_domain p, p) (λ _. check_secret disk)

  unfoldable pub validate_hosts : S.Disk → Exec Properties (Unit {0})
  validate_hosts disk p = continue (check_hosts disk p) (λ _. validate_domain disk)

  unfoldable pub validate_token : S.Disk → Exec Properties (Unit {0})
  validate_token disk p =
      continue (check_token disk p >>= λ _. check_network_id p, p) (λ _. validate_hosts disk)

  unfoldable pub validate : S.Disk → Exec Properties (Unit {0})
  validate disk p = continue (check_config disk p) (λ _. validate_token disk)

  -- `get_service_template`
  unfoldable pub get_service_template : Platform → Properties → Text
  get_service_template linux p =
      if is_alpine p.distro
      then trim S.is_space (text_of alpine_template)
      else text_of systemd_template
  get_service_template macos p = text_of macos_template
  get_service_template windows p = []
  get_service_template other p = []

  unfoldable pub supervise_template : Platform → Properties → Outcome Text
  supervise_template platform p = or_err (S.render (get_service_template platform p) p)

  -- `service_name`
  unfoldable pub service_name : Platform → Properties → Outcome Text
  service_name linux p = or_panic p.launcher.network_id >>= λ id. ok (
      if is_alpine p.distro
      then codes "zeronsd-" ++ id
      else codes "zeronsd-" ++ id ++ codes ".service")
  service_name macos p = or_panic p.launcher.network_id >>= λ id.
      ok (codes "com.zerotier.nsd." ++ id ++ codes ".plist")
  service_name windows p = ok []
  service_name other p = ok []

  -- `SUPERVISE_SYSTEM_DIR` and `ALPINE_INIT_DIR`
  abbrev supervise_system_dir : Platform → Text
  supervise_system_dir linux = codes "/lib/systemd/system"
  supervise_system_dir macos = codes "/Library/LaunchDaemons/"
  supervise_system_dir windows = []
  supervise_system_dir other = []

  abbrev alpine_init_dir : Platform → Text
  alpine_init_dir linux = codes "/etc/init.d"
  alpine_init_dir _ = []

  unfoldable pub service_path : Platform → Properties → Outcome Text
  service_path platform p = service_name platform p >>= λ name. ok (
      S.join
        (if is_alpine p.distro then alpine_init_dir platform else supervise_system_dir platform)
        name)

  -- `executable`, which exists on Linux only
  abbrev pub is_executable : Platform → Properties → Bool
  is_executable linux p = is_alpine p.distro
  is_executable _ p = false

  -- On Alpine Linux the file is made executable.
  unfoldable pub make_executable : Platform → Properties → Text → Exec S.Disk (Unit {0})
  make_executable platform p path disk =
      if is_executable platform p
      then elim (S.set_mode path 0o755 disk) [ none ↦ (err, disk) | some after ↦ (ok tt, after) ]
      else (ok tt, disk)

  unfoldable pub save_service : Platform → Properties → Text → Text → Exec S.Disk (Unit {0})
  save_service platform p template path disk = elim (S.write path template disk) [
    | none ↦ (err, disk)
    | some after ↦ make_executable platform p path after
  ]

  -- The template is rendered, and written to its path.
  unfoldable pub write_service : Platform → Properties → Exec S.Disk (Unit {0})
  write_service platform p disk =
      continue (supervise_template platform p, disk)
        (λ template d.
          continue (service_path platform p, d) (λ path. save_service platform p template path))

  abbrev pub is_supported : Platform → Bool
  is_supported linux = true
  is_supported macos = true
  is_supported _ = false

  -- `install_supervisor`, after the validation
  unfoldable pub install_validated : Platform → Exec (Properties × S.Disk) (Unit {0})
  install_validated platform (p, disk) =
      if is_supported platform
      then (let (r, after) = write_service platform p disk in (r, (p, after)))
      else (err, (p, disk))

  unfoldable pub install_supervisor : Platform → Exec (Properties × S.Disk) (Unit {0})
  install_supervisor platform (p, disk) =
      let (r, q) = validate disk p in continue (r, (q, disk)) (λ _. install_validated platform)

  -- `uninstall_supervisor`
  unfoldable pub uninstall_supervisor : Platform → Properties → Exec S.Disk (Unit {0})
  uninstall_supervisor platform p disk =
      if is_supported platform
      then continue (service_path platform p, disk)
          (λ path d. elim (S.remove_file path d) [ none ↦ (err, d) | some d' ↦ (ok tt, d') ])
      else (err, disk)
