-- ===== src/Config.antt =====
-- src/config.rs: the configuration's types with their defaults.
pub mod Toml
pub mod Deserialize
pub mod Load
use chirpstack_udp_forwarder.Prelude.{ℕ, List, [], Bool, true, false, Text, codes}

pub record Server : Type 0 where
  pub server : Text
  pub keepalive_interval_secs : ℕ
  pub keepalive_max_failures : ℕ
  pub forward_crc_ok : Bool
  pub forward_crc_invalid : Bool
  pub forward_crc_missing : Bool

abbrev pub default_server : Server
default_server = record {
  server = codes "127.0.0.1:1700";
  keepalive_interval_secs = 10;
  keepalive_max_failures = 12;
  forward_crc_ok = true;
  forward_crc_invalid = false;
  forward_crc_missing = false;
}

pub record UdpForwarder : Type 0 where
  pub log_level : Text
  pub log_to_syslog : Bool
  pub metrics_bind : Text
  pub servers : List Server

abbrev pub default_udp_forwarder : UdpForwarder
default_udp_forwarder = record {
  log_level = codes "INFO";
  log_to_syslog = false;
  metrics_bind = [];
  servers = [];
}

pub record Concentratord : Type 0 where
  pub event_url : Text
  pub command_url : Text

abbrev pub default_concentratord : Concentratord
default_concentratord = record {
  event_url = codes "ipc:///tmp/concentratord_event";
  command_url = codes "ipc:///tmp/concentratord_command";
}

pub record Configuration : Type 0 where
  pub udp_forwarder : UdpForwarder
  pub concentratord : Concentratord
