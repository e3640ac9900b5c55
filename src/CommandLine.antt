-- ===== src/CommandLine.antt =====
-- src/cli.rs: what the commands do. The parser of the command line, which clap derives, is left
-- out.
use zeronsd.Base.{
  ℕ, ◌+◌, ◌≡◌, Bool, true, false, Option, some, none, List, Text, Outcome, ok, err, panic,
}
use zeronsd.Base.Exec.{Exec, continue}
use zeronsd.Central.{Network}
use zeronsd.Crates.{Crates}
use zeronsd.Log.{Tracing, LevelFilter, to_log}
use zeronsd.Logger.{Process, Logging, init_logger}
use zeronsd.Utils.{Platform}
use zeronsd.Settings.{StartArgs, Launcher, Started, into_launcher}
use zeronsd.Supervise.{
  Properties, System, of_start, of_unsupervise, install_supervisor, uninstall_supervisor,
}
use zeronsd.Refresh.{ZtAuthority}
use zeronsd.Launch.{World}
use zeronsd.Server.{Servers}
use zeronsd.Server.Start.{Task, launch}

pub record UnsuperviseArgs : Type 0 where
  pub unsupervised_id : Text

pub data Command : Type 0 where
  start supervise : StartArgs → Command
  unsupervise : UnsuperviseArgs → Command

abbrev pub is_start : Command → Bool
is_start (start args) = true
is_start (supervise args) = false
is_start (unsupervise args) = false

pub record Cli : Type 0 where
  pub verbose : ℕ
  pub command : Command

-- How `init` ends: it waits for ever, while the tasks run; it returns; or the process was ended by
-- `exit(1)`.
pub data Ended : Type 0 where
  serving : Ended
  returned : Outcome (Unit {0}) → Ended
  exited : Ended

-- What the commands change; `complaints` counts the errors that `init` prints.
pub record Machine (C : Crates) (S : Servers C) (Y : System) (L : Tracing) : Type 1 where
  pub disk : Y.Disk
  pub logging : Logging L
  pub sent : List (Text × Network)
  pub tasks : List (Task C S)
  pub complaints : ℕ

-- The libraries; the platform and the process; and the deserializers and the file that the
-- conversion to a launcher uses.
module _ (C : Crates) (S : Servers C) (Y : System) (L : Tracing) (W : World C) (platform : Platform)
    (process : Process L) (json yaml toml : Text → Option Launcher)
    (read : Text → Option Text) where
  abbrev level_or_info : Option LevelFilter → LevelFilter
  level_or_info none = LevelFilter.info
  level_or_info (some filter) = filter

  abbrev after_logger :
      Outcome (Unit {0})
      → (Machine C S Y L → Ended × Machine C S Y L)
      → Machine C S Y L
      → Ended × Machine C S Y L
  after_logger (ok _) rest m = rest m
  after_logger err rest m = (returned err, m)
  after_logger panic rest m = (returned panic, m)

  -- `init_logger`, which changes the logging only.
  abbrev with_logger :
      Option L.Level
      → (Machine C S Y L → Ended × Machine C S Y L)
      → Machine C S Y L
      → Ended × Machine C S Y L
  with_logger level rest m =
      let (r, logging) = init_logger L process level m.logging in
      after_logger r rest (record m { logging = logging })

  -- `start(args).await?` and the endless loop.
  abbrev started : Outcome (ZtAuthority C) → Ended
  started (ok zt) = serving
  started err = returned err
  started panic = returned panic

  abbrev start_launcher : Launcher → Machine C S Y L → Ended × Machine C S Y L
  start_launcher l m =
      let (r, (sent, tasks)) = launch C S W platform l (m.sent, m.tasks) in
      (started r, record m { sent = sent; tasks = tasks })

  unfoldable pub run_start : StartArgs → Machine C S Y L → Ended × Machine C S Y L
  run_start args m = elim (into_launcher json yaml toml read args) [
    | Started.exit ↦ (exited, m)
    | Started.launcher l ↦ with_logger (to_log L (level_or_info l.log_level)) (start_launcher l) m
  ]

  -- `if result.is_err() { eprintln!(…) }` and `Ok(())`
  abbrev report : Outcome (Unit {0}) → Machine C S Y L → Ended × Machine C S Y L
  report (ok _) m = (returned (ok tt), m)
  report err m = (returned (ok tt), record m { complaints = m.complaints + 1 })
  report panic m = (returned panic, m)

  abbrev install_made : Platform → Properties → Exec Y.Disk (Unit {0})
  install_made on p d = let (r, s) = install_supervisor Y on (p, d) in (r, s.1)

  abbrev install : Option (Outcome Properties) → Machine C S Y L → Ended × Machine C S Y L
  install none m = (exited, m)
  install (some made) m =
      let (r, disk) = continue (made, m.disk) (install_made platform) in
      report r (record m { disk = disk })

  -- `Properties::from(args).install_supervisor()`
  abbrev supervise_args : StartArgs → Machine C S Y L → Ended × Machine C S Y L
  supervise_args args m =
      install (of_start Y platform m.disk args (into_launcher json yaml toml read args)) m

  -- `Properties::from(args).uninstall_supervisor()`
  abbrev unsupervise_args : UnsuperviseArgs → Machine C S Y L → Ended × Machine C S Y L
  unsupervise_args args m =
      let (r, disk) =
        continue (of_unsupervise Y platform m.disk args.unsupervised_id, m.disk)
          (uninstall_supervisor Y platform) in
      report r (record m { disk = disk })

  unfoldable pub run_supervise : StartArgs → Machine C S Y L → Ended × Machine C S Y L
  run_supervise args = with_logger (some L.info_level) (supervise_args args)

  unfoldable pub run_unsupervise : UnsuperviseArgs → Machine C S Y L → Ended × Machine C S Y L
  run_unsupervise args = with_logger (some L.info_level) (unsupervise_args args)

  abbrev run_command : Command → Machine C S Y L → Ended × Machine C S Y L
  run_command (start args) = run_start args
  run_command (supervise args) = run_supervise args
  run_command (unsupervise args) = run_unsupervise args

  -- `verbose` is never read.
  unfoldable pub init : Cli → Machine C S Y L → Ended × Machine C S Y L
  init cli = run_command cli.command

  -- What a command does to the service: how the installation or the removal ends on the disk, if
  -- the process is not ended before it.
  abbrev install_result : Option (Outcome Properties) → Y.Disk → Option (Outcome (Unit {0}))
  install_result none d = none
  install_result (some made) d = some (continue (made, d) (install_made platform)).0

  abbrev pub service_result : Command → Y.Disk → Option (Outcome (Unit {0}))
  service_result (start args) d = none
  service_result (supervise args) d =
      install_result (of_start Y platform d args (into_launcher json yaml toml read args)) d
  service_result (unsupervise args) d =
      some
        (continue (of_unsupervise Y platform d args.unsupervised_id, d)
          (uninstall_supervisor Y platform)).0

  -- How the command ends then, and the number of printed errors: an error is one more, and the
  -- command succeeds.
  abbrev pub ends_with : Option (Outcome (Unit {0})) → ℕ → Ended × ℕ
  ends_with none n = (exited, n)
  ends_with (some (ok _)) n = (returned (ok tt), n)
  ends_with (some err) n = (returned (ok tt), n + 1)
  ends_with (some panic) n = (returned panic, n)

  -- The end of a command and the number of printed errors are these, and nothing is sent to
  -- Central and no task is spawned.
  abbrev pub Reports :
      Option (Outcome (Unit {0})) → Machine C S Y L → Ended × Machine C S Y L → Type 0
  Reports o m r =
      ((r.0, r.1.complaints) ≡ ends_with o m.complaints)
      × (r.1.sent ≡ m.sent)
      × (r.1.tasks ≡ m.tasks)
