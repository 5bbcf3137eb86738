-- ===== src/Logging.antt =====
-- src/logging.rs.
use chirpstack_udp_forwarder.Prelude.{Bool, if◌then◌else◌, Option, Text}
use chirpstack_udp_forwarder.Prelude.Outcome.{Outcome, unwrap, or_fail, ◌>>◌}

-- The calls of the log, syslog and simple_logger crates; `none` is an `Err`.
pub record Log : Type 1 where
  pub Level : Type 0
  pub level_from_str : Text → Option Level
  pub syslog_unix : Text → Option (Unit {0})
  pub set_boxed_logger : Level → Option (Unit {0})
  pub init_with_level : Level → Option (Unit {0})

pub data SetupError : Type 0 where
  create_syslog_logger : SetupError

module _ (L : Log) where
  unfoldable pub setup : Text → L.Level → Bool → Outcome SetupError (Unit {0})
  setup name level syslog =
      if syslog
      then (do or_fail (L.syslog_unix name) create_syslog_logger; unwrap (L.set_boxed_logger level))
      else unwrap (L.init_with_level level)
