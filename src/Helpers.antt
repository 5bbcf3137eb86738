-- ===== src/Helpers.antt =====
-- `get_gateway_id` of src/helpers.rs: one request on a fresh command socket.
pub mod Laws
use chirpstack_udp_forwarder.Prelude.{Option, none, some, Bool, true, false, Bytes, if◌then◌else◌}
use chirpstack_udp_forwarder.Prelude.Outcome.{Outcome, ok, err, unwrap, or_fail, ◌>>=◌}
use chirpstack_udp_forwarder.External.{External}
use chirpstack_udp_forwarder.Gw
use chirpstack_udp_forwarder.Runtime.{Runtime}

pub data HelperError : Type 0 where
  could_not_read_gateway_id invalid_hex : HelperError

module _ {X : External} (R : Runtime X) where
  -- The socket is dropped at the end.
  unfoldable pub get_gateway_id : R.Sock → Outcome HelperError Bytes
  get_gateway_id sock = do
    sent ← unwrap (R.send sock (R.encode_command Gw.get_gateway_id))
    polled ← unwrap (R.poll sent)
    received ← if polled.0 then unwrap (R.recv polled.1) else err could_not_read_gateway_id
    gateway_id ← unwrap (R.decode_gateway_id received.0)
    or_fail (X.hex_decode gateway_id) invalid_hex
