-- ===== src/Forwarder/History.antt =====
-- A history of a forwarder: the handlers of the three loops of src/forwarder.rs, run one after the
-- other in any order. Each handler is one step; threads that meet
-- inside two handlers, between the locks of single fields of `State`, are the subject of Locks.
pub mod Counters
pub mod Refinement
pub mod Ledger
use chirpstack_udp_forwarder.Prelude.{ℕ, List, [], ◌∷◌, Option, Bytes}
use chirpstack_udp_forwarder.External.{External}
use chirpstack_udp_forwarder.Gw
use chirpstack_udp_forwarder.Runtime.{Runtime}
use chirpstack_udp_forwarder.Forwarder.World.{World, M, pure, ◌>>=◌, ◌>>◌}
use chirpstack_udp_forwarder.Forwarder.Events.{events_up, events_stats}
use chirpstack_udp_forwarder.Forwarder.Receive.{receive}
use chirpstack_udp_forwarder.Forwarder.Keepalive.{pull_data_round}

-- What happens to a forwarder: an event with the time and the token drawn, a datagram, or a round of
-- the keepalive loop with its token and its count.
pub data Input (X : External) : Type 0 where
  up : X.DateTime → ℕ → Gw.UplinkFrame X → Input X
  stats : X.DateTime → ℕ → Gw.GatewayStats X → Input X
  datagram : Bytes → Input X
  keepalive : ℕ → ℕ → Input X

module _ {X : External} (R : Runtime X) where
  unfoldable pub handle : Input X → M (World R) (Unit {0})
  handle (up now random frame) = events_up R now random frame
  handle (stats now random s) = events_stats R now random s
  handle (datagram b) = receive R b
  handle (keepalive random missed) = do _ ← pull_data_round R random missed; pure tt

  -- A panic ends the process, so nothing runs after it.
  unfoldable pub run : List (Input X) → M (World R) (Unit {0})
  run [] w = pure tt w
  run (i ∷ inputs) w = ◌>>◌ (handle i) (run inputs) w
