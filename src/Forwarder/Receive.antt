-- ===== src/Forwarder/Receive.antt =====
-- One round of `udp_receive_loop` of src/forwarder.rs after a datagram was received, with its
-- handlers `handle_push_ack`, `handle_pull_ack` and `handle_pull_resp`.
pub mod Laws
pub mod Downlink
pub mod Exchange
pub mod Counts
use chirpstack_udp_forwarder.Prelude.{
  ℕ, ◌++◌, List, [], ◌∷◌, Option, none, some, Bool, true, false, ◌==◌, ltb, if◌then◌else◌, Text,
  Bytes, codes, length,
}
use chirpstack_udp_forwarder.Prelude.Outcome.{Outcome, ok, err, panic}
use chirpstack_udp_forwarder.External.{External}
use chirpstack_udp_forwarder.Gw
use chirpstack_udp_forwarder.Runtime.{Runtime}
use chirpstack_udp_forwarder.Metrics.{incr_udp_received_count, incr_udp_received_bytes}
use chirpstack_udp_forwarder.Bytes.{array_8}
use chirpstack_udp_forwarder.Structs.Acks.{push_ack_from_bytes, pull_ack_from_bytes}
use chirpstack_udp_forwarder.Structs.PullResp.{PullResp}
use chirpstack_udp_forwarder.Structs.PullResp
use chirpstack_udp_forwarder.Structs.TxPk
use chirpstack_udp_forwarder.Structs.Packets.{TxAck, tx_ack_to_bytes}
use chirpstack_udp_forwarder.Forwarder.State.{
  State, incr_push_data_acked, set_pull_data_token_acked,
}
use chirpstack_udp_forwarder.Forwarder.World.{
  World, M, HandlerError, structs, txpk_to_proto, no_down_response, decode_tx_ack, no_message, pure,
  ◌>>=◌, ◌>>◌, lift, log_error, get_state, modify_state, modify_metrics, fail, or_fail_with,
  send_udp, count_sent,
}

unfoldable pub error_of_status : Gw.TxAckStatus → Text
error_of_status Gw.ok = []
error_of_status Gw.ignored = codes "IGNORED"
error_of_status Gw.too_late = codes "TOO_LATE"
error_of_status Gw.too_early = codes "TOO_EARLY"
error_of_status Gw.collision_packet = codes "COLLISION_PACKET"
error_of_status Gw.collision_beacon = codes "COLLISION_BEACON"
error_of_status Gw.tx_freq = codes "TX_FREQ"
error_of_status Gw.tx_power = codes "TX_POWER"
error_of_status Gw.gps_unlocked = codes "GPS_UNLOCKED"
error_of_status Gw.queue_full = codes "QUEUE_FULL"
error_of_status Gw.internal_error = codes "INTERNAL_ERROR"
error_of_status Gw.duty_cycle_overflow = codes "DUTY_CYCLE_OVERFLOW"

-- Exactly one item is wanted.
unfoldable pub error_of_items : List Gw.TxAckStatus → Option Text
unfolding error_of_status
error_of_items (s ∷ []) = some (error_of_status s)
error_of_items _ = none

unfoldable pub metrics_key : Text → Text
metrics_key [] = codes "TX_ACK_OK"
metrics_key (c ∷ s) = codes "TX_ACK_ERROR_" ++ (c ∷ s)

module _ {X : External} (R : Runtime X) where
  unfoldable pub handle_push_ack : Bytes → M (World R) (Unit {0})
  handle_push_ack b = do
    push_ack ← lift structs (push_ack_from_bytes b)
    s ← get_state
    if push_ack.random_token == s.push_data_token
        then modify_state incr_push_data_acked
        else pure tt

  -- The token is stored whether or not it is the expected one, which is only logged.
  unfoldable pub handle_pull_ack : Bytes → M (World R) (Unit {0})
  handle_pull_ack b = do
    pull_ack ← lift structs (pull_ack_from_bytes b)
    modify_state (set_pull_data_token_acked pull_ack.random_token)

  -- `sock.send(b, 0).unwrap()`
  command_send : Bytes → M (World R) (Unit {0})
  command_send b w = elim (R.send w.command_sock b) [
    | none ↦ (panic, w)
    | some sock ↦ (ok tt, record w { command_sock = sock })
  ]

  -- `zmq::poll(&mut items, 100).unwrap()`
  command_poll : M (World R) Bool
  command_poll w = elim (R.poll w.command_sock) [
    | none ↦ (panic, w)
    | some (readable, sock) ↦ (ok readable, record w { command_sock = sock })
  ]

  -- `sock.recv_bytes(0).unwrap()`
  command_recv : M (World R) Bytes
  command_recv w = elim (R.recv w.command_sock) [
    | none ↦ (panic, w)
    | some (b, sock) ↦ (ok b, record w { command_sock = sock })
  ]

  -- From the reply of the concentratord on.
  send_tx_ack : ℕ → Bytes → M (World R) (Unit {0})
  unfolding error_of_items metrics_key
  send_tx_ack random_token resp_b = do
    tx_ack ← or_fail_with decode_tx_ack (R.decode_tx_ack resp_b)
    s ← get_state
    id ← lift structs (array_8 s.gateway_id)
    error ← or_fail_with no_message (error_of_items tx_ack.items)
    bytes ← lift structs (
        tx_ack_to_bytes X (record {
          random_token = random_token;
          gateway_id = id;
          payload = record { txpk_ack = record { error = error } };
        }))
    send_udp bytes
    count_sent s.server (metrics_key error) (length bytes)

  unfoldable pub handle_pull_resp : Bytes → M (World R) (Unit {0})
  unfolding command_send command_poll command_recv send_tx_ack
  handle_pull_resp b = do
    pull_resp ← lift structs (PullResp.from_bytes X b)
    s ← get_state
    pl ←
        lift txpk_to_proto
          (TxPk.to_proto X pull_resp.payload.txpk pull_resp.random_token s.gateway_id)
    command_send (R.encode_command (Gw.send_downlink_frame pl))
    readable ← command_poll
    resp_b ← if readable then command_recv else fail no_down_response
    send_tx_ack pull_resp.random_token resp_b

  count_received : Text → Text → ℕ → M (World R) (Unit {0})
  count_received server typ size =
      modify_metrics
        (λ m. incr_udp_received_bytes R server typ size (incr_udp_received_count R server typ m))

  -- `match buffer[3]`: an error of a handler is logged.
  dispatch : ℕ → Bytes → M (World R) (Unit {0})
  unfolding count_received handle_push_ack handle_pull_resp handle_pull_ack
  dispatch id data_in = do
    s ← get_state
    if id == 0x01
        then (do
          count_received s.server (codes "PUSH_ACK") (length data_in)
          log_error (handle_push_ack data_in))
        else if id == 0x03
        then (do
          count_received s.server (codes "PULL_RESP") (length data_in)
          log_error (handle_pull_resp data_in))
        else if id == 0x04
        then (do
          count_received s.server (codes "PULL_ACK") (length data_in)
          log_error (handle_pull_ack data_in))
        else count_received s.server (codes "UNKNOWN") (length data_in)

  -- A datagram of fewer than 4 bytes is only logged. `buffer[3]` is the fourth byte received.
  unfoldable pub receive : Bytes → M (World R) (Unit {0})
  unfolding dispatch
  receive (v ∷ hi ∷ lo ∷ id ∷ rest) = dispatch id (v ∷ hi ∷ lo ∷ id ∷ rest)
  receive _ = pure tt
