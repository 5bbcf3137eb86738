-- ===== src/Config/Deserialize.antt =====
-- The derived `Deserialize` of the types of src/config.rs, as serde documents it: a member of another
-- name is skipped, a second one of the same name is an error, an absent find_field has the value of the
-- struct's `Default` under `#[serde(default)]` and is an error otherwise. An array in place of a table
-- gives the fields by position. The kind of an error is not kept: the caller sees any.
pub mod Laws
pub mod Servers
pub mod Sections
use chirpstack_udp_forwarder.Prelude.{
  List, [], ◌∷◌, Option, none, some, Text, codes, text_eq, if◌then◌else◌,
}
use chirpstack_udp_forwarder.Prelude.Options.{◌>>=◌, or_default}
use chirpstack_udp_forwarder.Config.{
  Server, default_server, UdpForwarder, default_udp_forwarder, Concentratord, default_concentratord,
  Configuration,
}
use chirpstack_udp_forwarder.Config.Toml.{Toml, Shape, table, array, scalar}

module _ {V : Type 0} where
  abbrev pub by_position : List Text → List V → List (Text × V)
  by_position [] vs = []
  by_position (n ∷ ns) [] = []
  by_position (n ∷ ns) (v ∷ vs) = (n, v) ∷ by_position ns vs

  unfoldable pub members_of : List Text → Shape V → Option (List (Text × V))
  members_of names (table ms) = some ms
  members_of names (array vs) = some (by_position names vs)
  members_of names scalar = none

  module _ {A : Type 0} (n : Text) (read : V → Option A) where
    unfoldable pub add_field : V → Option (Option A) → Option (Option A)
    add_field v (some none) = do a ← read v; some (some a)
    add_field v _ = none

    -- The field's value, if there is one.
    unfoldable pub find_field : List (Text × V) → Option (Option A)
    find_field [] = some none
    find_field ((k, v) ∷ ms) =
        let rest = find_field ms in
        let found = add_field v rest in if text_eq k n then found else rest

    unfoldable pub with_default : A → List (Text × V) → Option A
    with_default a ms = do o ← find_field ms; some (or_default o a)

    unfoldable pub required : List (Text × V) → Option A
    required ms = do o ← find_field ms; o

  unfoldable pub read_each : {A : Type 0} → (V → Option A) → List V → Option (List A)
  read_each read [] = some []
  read_each read (v ∷ vs) = do a ← read v; rest ← read_each read vs; some (a ∷ rest)

  -- `Vec<A>`
  unfoldable pub read_vec : {A : Type 0} → (V → Option A) → Shape V → Option (List A)
  read_vec read (array vs) = read_each read vs
  read_vec read _ = none

abbrev pub server_names : List Text
server_names =
    codes "server"
    ∷ codes "keepalive_interval_secs"
    ∷ codes "keepalive_max_failures"
    ∷ codes "forward_crc_ok"
    ∷ codes "forward_crc_invalid"
    ∷ codes "forward_crc_missing"
    ∷ []

abbrev pub udp_forwarder_names : List Text
udp_forwarder_names =
    codes "log_level" ∷ codes "log_to_syslog" ∷ codes "metrics_bind" ∷ codes "servers" ∷ []

abbrev pub concentratord_names : List Text
concentratord_names = codes "event_url" ∷ codes "command_url" ∷ []

abbrev pub configuration_names : List Text
configuration_names = codes "udp_forwarder" ∷ codes "concentratord" ∷ []

module _ (T : Toml) where
  unfoldable pub deserialize_server : T.Value → Option Server
  deserialize_server v = do
    ms ← members_of server_names (T.shape v)
    server ← with_default (codes "server") T.read_string default_server.server ms
    interval ←
        with_default (codes "keepalive_interval_secs") T.read_u64
          default_server.keepalive_interval_secs ms
    failures ←
        with_default (codes "keepalive_max_failures") T.read_u32
          default_server.keepalive_max_failures ms
    crc_ok ← with_default (codes "forward_crc_ok") T.read_bool default_server.forward_crc_ok ms
    crc_invalid ←
        with_default (codes "forward_crc_invalid") T.read_bool default_server.forward_crc_invalid ms
    crc_missing ←
        with_default (codes "forward_crc_missing") T.read_bool default_server.forward_crc_missing ms
    some (record {
      server = server;
      keepalive_interval_secs = interval;
      keepalive_max_failures = failures;
      forward_crc_ok = crc_ok;
      forward_crc_invalid = crc_invalid;
      forward_crc_missing = crc_missing;
    })

  unfoldable pub deserialize_servers : T.Value → Option (List Server)
  deserialize_servers v = read_vec deserialize_server (T.shape v)

  unfoldable pub deserialize_udp_forwarder : T.Value → Option UdpForwarder
  deserialize_udp_forwarder v = do
    ms ← members_of udp_forwarder_names (T.shape v)
    log_level ← with_default (codes "log_level") T.read_string default_udp_forwarder.log_level ms
    log_to_syslog ←
        with_default (codes "log_to_syslog") T.read_bool default_udp_forwarder.log_to_syslog ms
    metrics_bind ←
        with_default (codes "metrics_bind") T.read_string default_udp_forwarder.metrics_bind ms
    servers ← with_default (codes "servers") deserialize_servers default_udp_forwarder.servers ms
    some (record {
      log_level = log_level;
      log_to_syslog = log_to_syslog;
      metrics_bind = metrics_bind;
      servers = servers;
    })

  unfoldable pub deserialize_concentratord : T.Value → Option Concentratord
  deserialize_concentratord v = do
    ms ← members_of concentratord_names (T.shape v)
    event_url ← with_default (codes "event_url") T.read_string default_concentratord.event_url ms
    command_url ←
        with_default (codes "command_url") T.read_string default_concentratord.command_url ms
    some (record { event_url = event_url; command_url = command_url })

  unfoldable pub deserialize_configuration : T.Value → Option Configuration
  deserialize_configuration v = do
    ms ← members_of configuration_names (T.shape v)
    udp_forwarder ← required (codes "udp_forwarder") deserialize_udp_forwarder ms
    concentratord ← required (codes "concentratord") deserialize_concentratord ms
    some (record { udp_forwarder = udp_forwarder; concentratord = concentratord })
