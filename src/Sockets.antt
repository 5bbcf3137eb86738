-- ===== src/Sockets.antt =====
-- The two `get_socket` of src/commands.rs and src/events.rs, on the ZeroMQ context of src/socket.rs.
use chirpstack_udp_forwarder.Prelude.{Option, [], Text, Bytes}
use chirpstack_udp_forwarder.Prelude.Outcome.{Outcome, unwrap, or_fail, ◌>>=◌}
use chirpstack_udp_forwarder.External.{External}
use chirpstack_udp_forwarder.Runtime.{Runtime}

pub data SocketType : Type 0 where
  req sub : SocketType

-- The calls of the zmq crate; `none` is an `Err`.
pub record Zmq {X : External} (R : Runtime X) : Type 0 where
  pub socket : SocketType → Option R.Sock
  pub connect : R.Sock → Text → Option R.Sock
  pub set_subscribe : R.Sock → Bytes → Option R.Sock

pub data ZmqError : Type 0 where
  zmq_error : ZmqError

module _ {X : External} {R : Runtime X} (Z : Zmq R) where
  unfoldable pub command_socket : Text → Outcome ZmqError R.Sock
  command_socket endpoint = do
    sock ← or_fail (Z.socket req) zmq_error
    or_fail (Z.connect sock endpoint) zmq_error

  unfoldable pub event_socket : Text → Outcome ZmqError R.Sock
  event_socket endpoint = do
    sock ← or_fail (Z.socket sub) zmq_error
    connected ← unwrap (Z.connect sock endpoint)
    or_fail (Z.set_subscribe connected []) zmq_error
