-- ===== src/Tests/Commands.antt =====
-- The theorem on the commands of src/cli.rs at a concrete input.
use zeronsd.Base.{ℕ, true, none, []}
use zeronsd.Log.{Tracing}
use zeronsd.Logger.{Process, incomplete}
use zeronsd.CommandLine.{Cli, Machine, unsupervise}
use zeronsd.Tests.Services.{machine}
use zeronsd.Tests.Toy.{toy}
use zeronsd.Tests.Servers.{servers}

abbrev tracing : Tracing
tracing = record {
  Level = ℕ;
  error_level = 1;
  warn_level = 2;
  info_level = 3;
  trace_level = 5;
  debug_level = 4;
}

abbrev process : Process tracing
process = record {
  zeronsd_log = none;
  rust_log = none;
  log_tracer_works = true;
  default_works = true;
}

abbrev idle : Machine toy servers machine tracing
idle = record {
  disk = [];
  logging = record { once = incomplete; subscriber = none };
  sent = [];
  tasks = [];
  complaints = 0;
}

-- The path of the program is unknown, so that the removal fails.
abbrev removal : Cli
removal = record { verbose = 0; command = unsupervise (record { unsupervised_id = [] }) }
