-- ===== src/Main.antt =====
-- `main` of src/main.rs, up to the threads that it spawns, and what it waits for then. Clap, the file
-- system and the environment are parameters.
pub mod Laws
use chirpstack_udp_forwarder.Prelude.{
  List, [], ◌∷◌, ◌++◌, map, Option, none, some, Bool, true, false, Text, Bytes, codes, ◌&&◌,
}
use chirpstack_udp_forwarder.Prelude.Outcome.{
  Outcome, ok, err, panic, unwrap, expect, or_fail, ◌>>=◌, ◌>>◌,
}
use chirpstack_udp_forwarder.External.{External}
use chirpstack_udp_forwarder.Runtime.{Runtime}
use chirpstack_udp_forwarder.Config.{Server, Configuration}
use chirpstack_udp_forwarder.Config.Toml.{Toml}
use chirpstack_udp_forwarder.Config.Load
use chirpstack_udp_forwarder.Sockets.{Zmq, command_socket}
use chirpstack_udp_forwarder.Logging.{Log, setup}
use chirpstack_udp_forwarder.Helpers.{get_gateway_id}

-- A thread with what it is given: `forwarder::start` or `metrics::start`.
pub data Spawned : Type 0 where
  forwarder : Server → (event_url command_url : Text) → (gateway_id : Bytes) → Spawned
  metrics : (bind : Text) → Spawned

-- `if !metrics_bind.is_empty()`
abbrev pub metrics_thread : Text → List Spawned
metrics_thread [] = []
metrics_thread (c ∷ bind) = metrics (c ∷ bind) ∷ []

module _ (conf : Configuration) where
  -- One thread for each server, then that of the metrics.
  unfoldable pub threads : Bytes → List Spawned
  threads gateway_id =
      map
        (λ server.
          forwarder server conf.concentratord.event_url conf.concentratord.command_url gateway_id)
        conf.udp_forwarder.servers
      ++ metrics_thread conf.udp_forwarder.metrics_bind

-- The joins, in order, given which threads return: whether `main` returns. A thread that panics has
-- ended the process before its `unwrap`.
unfoldable pub join_all : (Spawned → Bool) → List Spawned → Bool
join_all returns [] = true
join_all returns (t ∷ ts) = returns t && join_all returns ts

-- `struct Cli`
pub record Cli : Type 0 where
  pub config : List Text

module _ {X : External} (R : Runtime X) (Z : Zmq R) (L : Log) (T : Toml)
    (read_to_string : Text → Option Text) (parse : List Text → Option Cli) where
  -- The threads, and whether `main` returns. Arguments that clap refuses, or a question for its help,
  -- end the process before.
  unfoldable pub main :
      (Spawned → Bool) → List Text → Load.Vars → Outcome (Unit {0}) (List Spawned × Bool)
  unfolding threads
  main returns args vars = do
    cli ← or_fail (parse args) tt
    conf ← expect (Load.get T read_to_string cli.config vars)
    level ← unwrap (L.level_from_str conf.udp_forwarder.log_level)
    expect (setup L (codes "chirpstack-udp-forwarder") level conf.udp_forwarder.log_to_syslog)
    sock ← expect (command_socket Z conf.concentratord.command_url)
    gateway_id ← expect (get_gateway_id R sock)
    let ts = threads conf gateway_id
    ok (ts, join_all returns ts)
