-- ===== src/Logger.antt =====
-- `init_logger` of src/utils.rs.
use zeronsd.Base.{
  ◌≡◌, ◌≢◌, refl, ap, sym, Bool, Option, some, none, Text, if◌then◌else◌, Outcome, ok, err, panic,
  ◌>>=◌, unwrap,
}
use zeronsd.Base.Exec.{Exec}
use zeronsd.Log.{Tracing, from_str, to_log}

-- `std::sync::Once`: a panic of what it is to call poisons it.
pub data Once : Type 0 where
  incomplete poisoned complete : Once

-- The process: the variables ZERONSD_LOG and RUST_LOG, and whether `LogTracer::init` and
-- `set_global_default` will succeed, which are third-party.
pub record Process (L : Tracing) : Type 0 where
  pub zeronsd_log : Option Text
  pub rust_log : Option Text
  pub log_tracer_works : Bool
  pub default_works : Bool

-- LOGGER, and the maximal level of the global subscriber, if there is one.
pub record Logging (L : Tracing) : Type 0 where
  pub once : Once
  pub subscriber : Option L.Level

module _ (L : Tracing) where
  -- `std::env::var("ZERONSD_LOG").or_else(…)`
  abbrev pub log_variable : Process L → Option Text
  log_variable p = elim p.zeronsd_log [ some text ↦ some text | none ↦ p.rust_log ]

  unfoldable pub logger_level : Process L → Option L.Level → Outcome (Option L.Level)
  logger_level p level = elim (log_variable p) [
    | some loglevel ↦ unwrap (from_str loglevel) >>= λ filter. ok (to_log L filter)
    | none ↦ ok level
  ]

  -- The closure of `call_once`.
  abbrev set_default : Process L → Option L.Level → Option L.Level → Outcome (Option L.Level)
  set_default p before none = ok before
  set_default p before (some level) = if p.default_works then ok (some level) else panic

  unfoldable pub install_logger :
      Process L → Option L.Level → Option L.Level → Outcome (Option L.Level)
  install_logger p level before = logger_level p level >>= λ chosen.
      if p.log_tracer_works then set_default p before chosen else panic

  -- How `call_once` leaves the state after its closure.
  abbrev after_call : Logging L → Outcome (Option L.Level) → Outcome (Unit {0}) × Logging L
  after_call s (ok subscriber) = (ok tt, record { once = complete; subscriber = subscriber })
  after_call s err = (panic, record { once = poisoned; subscriber = s.subscriber })
  after_call s panic = (panic, record { once = poisoned; subscriber = s.subscriber })

  abbrev call_once : Once → Logging L → Outcome (Option L.Level) → Outcome (Unit {0}) × Logging L
  call_once incomplete s closure = after_call s closure
  call_once poisoned s closure = (panic, s)
  call_once complete s closure = (ok tt, s)

  unfoldable pub init_logger : Process L → Option L.Level → Exec (Logging L) (Unit {0})
  init_logger p level s = call_once s.once s (install_logger p level s.subscriber)

  after_call-complete :
      (s : Logging L) (r : Outcome (Option L.Level))
      → (after_call s r).0 ≡ ok tt
      → (after_call s r).1.once ≡ complete
  after_call-complete s (ok subscriber) h = refl
  after_call-complete s err h = cc
  after_call-complete s panic h = cc

  call_once-complete :
      (once : Once) (s : Logging L) (r : Outcome (Option L.Level))
      → once ≡ s.once
      → (call_once once s r).0 ≡ ok tt
      → (call_once once s r).1.once ≡ complete
  call_once-complete incomplete s r e h = after_call-complete s r h
  call_once-complete poisoned s r e h = cc
  call_once-complete complete s r e h = sym e

  -- After an `init_logger` that succeeds, every further one succeeds and changes nothing, whatever
  -- its level is and whatever the variables have become.
  pub init_logger-init_logger :
      (p p' : Process L) (level level' : Option L.Level) (s : Logging L)
      → (init_logger p level s).0 ≡ ok tt
      → init_logger p' level' (init_logger p level s).1 ≡ (ok tt, (init_logger p level s).1)
  unfolding init_logger
  init_logger-init_logger p p' level level' s h =
      let t = (init_logger p level s).1 in
      ap (λ o. call_once o t (install_logger p' level' t.subscriber))
        (call_once-complete s.once s (install_logger p level s.subscriber) refl h)

  after_call-ne-err : (s : Logging L) (r : Outcome (Option L.Level)) → (after_call s r).0 ≢ err
  after_call-ne-err s (ok subscriber) h = cc
  after_call-ne-err s err h = cc
  after_call-ne-err s panic h = cc

  call_once-ne-err :
      (once : Once) (s : Logging L) (r : Outcome (Option L.Level)) → (call_once once s r).0 ≢ err
  call_once-ne-err incomplete s r h = after_call-ne-err s r h
  call_once-ne-err poisoned s r h = cc
  call_once-ne-err complete s r h = cc

  -- The logger returns, or panics.
  pub init_logger-ne-err :
      (p : Process L) (level : Option L.Level) (s : Logging L) → (init_logger p level s).0 ≢ err
  unfolding init_logger
  init_logger-ne-err p level s = call_once-ne-err s.once s (install_logger p level s.subscriber)
