-- ===== src/Tests/Main.antt =====
-- The program with two servers and the metrics server.
use chirpstack_udp_forwarder.Prelude.{
  ◌≡◌, ◌↔◌, none, some, true, false, List, [], ◌∷◌, Bytes, Text, codes, refl, Bool, Option, text_eq,
  if◌then◌else◌,
}
use chirpstack_udp_forwarder.Prelude.Outcome.{ok, panic}
use chirpstack_udp_forwarder.Config.{Server, Configuration, default_server, default_concentratord}
use chirpstack_udp_forwarder.Config.Load
use chirpstack_udp_forwarder.Sockets.{Zmq, command_socket}
use chirpstack_udp_forwarder.Logging.{Log, setup}
use chirpstack_udp_forwarder.Helpers.{get_gateway_id}
use chirpstack_udp_forwarder.Config.Toml.{Toml, Shape, table, array, scalar}
use chirpstack_udp_forwarder.Config.Deserialize.{
  members_of, find_field, add_field, with_default, required, read_each, read_vec,
  deserialize_server, deserialize_servers, deserialize_udp_forwarder, deserialize_concentratord,
  deserialize_configuration,
}
use chirpstack_udp_forwarder.Main.{Spawned, forwarder, metrics, Cli, join_all, main}
use chirpstack_udp_forwarder.Main.Laws.{Staffs, Waits, ComesUp, main_iff}
use chirpstack_udp_forwarder.Tests.Instance.{scripted}
use chirpstack_udp_forwarder.Tests.Structs.{gateway}

-- The concentratord answers its first request; the logger takes any level.
abbrev zmq : Zmq scripted
zmq = record {
  socket = λ t. some (false, some gateway ∷ []);
  connect = λ s endpoint. some s;
  set_subscribe = λ s topic. some s;
}

abbrev log : Log
log = record {
  Level = Text;
  level_from_str = λ t. some t;
  syslog_unix = λ name. none;
  set_boxed_logger = λ level. some tt;
  init_with_level = λ level. some tt;
}

abbrev other_server : Server
other_server = record default_server { forward_crc_invalid = true }

abbrev args : List Text
args = codes "-c" ∷ codes "a.toml" ∷ []

-- The option `-c`, which may come several times.
abbrev parse : List Text → Option Cli
parse [] = some (record { config = [] })
parse (o ∷ []) = none
parse (o ∷ file ∷ rest) =
    let others = parse rest in
    if text_eq o (codes "-c")
    then elim others [ none ↦ none | some cli ↦ some (record { config = file ∷ cli.config }) ]
    else none

abbrev read_to_string : Text → Option Text
read_to_string t = if text_eq t (codes "a.toml") then some [] else none

-- The first server has the defaults.
data Node : Type 0 where
  root section urls list server other address yes : Node

abbrev nodes : Node → Shape Node
nodes root = table ((codes "udp_forwarder", section) ∷ (codes "concentratord", urls) ∷ [])
nodes section = table ((codes "metrics_bind", address) ∷ (codes "servers", list) ∷ [])
nodes urls = table []
nodes list = array (server ∷ other ∷ [])
nodes server = table []
nodes other = table ((codes "forward_crc_invalid", yes) ∷ [])
nodes _ = scalar

abbrev read_string : Node → Option Text
read_string address = some (codes "::1:9")
read_string _ = none

abbrev read_bool : Node → Option Bool
read_bool yes = some true
read_bool _ = none

abbrev toml : Toml
toml = record {
  Value = Node;
  document = λ t. some root;
  shape = nodes;
  read_string = read_string;
  read_bool = read_bool;
  read_u32 = λ v. none;
  read_u64 = λ v. none;
}

abbrev spawned : List Spawned
spawned =
    forwarder default_server default_concentratord.event_url default_concentratord.command_url
      gateway
    ∷ forwarder other_server default_concentratord.event_url default_concentratord.command_url
        gateway
    ∷ metrics (codes "::1:9")
    ∷ []

-- No thread returns.
abbrev returns : Spawned → Bool
returns t = false

main_iff_example :
    (main scripted zmq log toml read_to_string parse returns args [] ≡ ok (spawned, false)) ↔ (
      (c : Configuration) × (id : Bytes) × ComesUp scripted zmq log toml read_to_string parse args
        [] c id
      × Staffs c id c.udp_forwarder.servers spawned
      × Waits returns spawned false)
main_iff_example = main_iff scripted zmq log toml read_to_string parse args [] returns spawned false

comes_up : main scripted zmq log toml read_to_string parse returns args [] ≡ ok (spawned, false)
unfolding main Load.get Load.read_files setup command_socket get_gateway_id text_eq members_of
    find_field add_field with_default required read_each read_vec deserialize_server
    deserialize_servers deserialize_udp_forwarder deserialize_concentratord
    deserialize_configuration join_all Load.replace_vars
comes_up = refl

-- A file that cannot be read ends the program.
no_file :
    main scripted zmq log toml read_to_string parse returns (codes "-c" ∷ codes "b" ∷ []) [] ≡ panic
unfolding main Load.get Load.read_files text_eq
no_file = refl
