-- ===== src/Runtime.antt =====
-- What src/forwarder.rs, src/helpers.rs and src/metrics.rs call and do not implement: prost's codec
-- of the messages, the ZeroMQ REQ socket of the command API, and prometheus_client's counters.
use chirpstack_udp_forwarder.Prelude.{
  ℕ, ◌+◌, ◌%◌, ◌^◌, ◌≡◌, ◌≢◌, Bool, true, false, Option, none, some, Bytes, Text,
}
use chirpstack_udp_forwarder.External.{External}
use chirpstack_udp_forwarder.Gw

-- `struct UdpLabels` of src/metrics.rs; `ty` is its field `type`.
pub record UdpLabels : Type 0 where
  pub server : Text
  pub ty : Text

pub record Runtime (X : External) : Type 1 where
  pub encode_command : Gw.Command → Bytes
  pub decode_tx_ack : Bytes → Option Gw.DownlinkTxAck
  pub decode_event : Bytes → Option (Gw.Event X)
  pub decode_gateway_id : Bytes → Option Text
  -- A socket's value holds what the peer will do. `none` is an `Err`; `poll` says whether a message
  -- can be read within its timeout.
  pub Sock : Type 0
  pub send : Sock → Bytes → Option Sock
  pub poll : Sock → Option (Bool × Sock)
  pub recv : Sock → Option (Bytes × Sock)
  pub Family : Type 0
  pub inc_by : Family → UdpLabels → ℕ → Family
  pub value : Family → UdpLabels → ℕ

-- The zmq_socket(3) manual on ZMQ_REQ: sends and receives alternate, and a send while a reply is
-- outstanding fails with EFSM. `awaiting` says that a reply is outstanding.
pub record IsReq {X : External} (R : Runtime X) : Type 0 where
  pub awaiting : R.Sock → Bool
  pub send-awaiting : (s t : R.Sock) (b : Bytes) → R.send s b ≡ some t → awaiting t ≡ true
  pub send_refused : (s : R.Sock) (b : Bytes) → awaiting s ≡ true → R.send s b ≡ none
  pub poll-awaiting : (s t : R.Sock) (r : Bool) → R.poll s ≡ some (r, t) → awaiting t ≡ awaiting s
  pub recv-awaiting : (s t : R.Sock) (b : Bytes) → R.recv s ≡ some (b, t) → awaiting t ≡ false

-- A family has one 64-bit counter for each set of labels.
pub record IsFamily {X : External} (R : Runtime X) : Type 0 where
  pub value-inc_by :
      (f : R.Family) (l : UdpLabels) (n : ℕ)
      → R.value (R.inc_by f l n) l ≡ (R.value f l + n) % 2 ^ 64
  pub value-inc_by_ne :
      (f : R.Family) (l k : UdpLabels) (n : ℕ) → l ≢ k → R.value (R.inc_by f l n) k ≡ R.value f k
