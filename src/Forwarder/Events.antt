-- ===== src/Forwarder/Events.antt =====
-- `events_up` and `events_stats` of src/forwarder.rs. `now` is what `Utc::now()` gives, `random` the
-- token that is drawn.
pub mod Laws
use chirpstack_udp_forwarder.Prelude.{
  ℕ, List, [], ◌∷◌, Option, none, some, Bool, true, false, not, ◌&&◌, ◌||◌, ◌==◌, if◌then◌else◌,
  codes, length,
}
use chirpstack_udp_forwarder.External.{External}
use chirpstack_udp_forwarder.Gw
use chirpstack_udp_forwarder.Runtime.{Runtime}
use chirpstack_udp_forwarder.Bytes.{array_8}
use chirpstack_udp_forwarder.Structs.RxPk.{RxPk}
use chirpstack_udp_forwarder.Structs.RxPk
use chirpstack_udp_forwarder.Structs.Stat.{Stat}
use chirpstack_udp_forwarder.Structs.Stat
use chirpstack_udp_forwarder.Structs.Packets.{PushData, push_data_to_bytes}
use chirpstack_udp_forwarder.Forwarder.State.{
  State, set_push_data_token, incr_push_data_sent, incr_rxfw, get_and_reset_rxfw,
  get_and_reset_push_data_sent, get_and_reset_push_data_acked,
}
use chirpstack_udp_forwarder.Forwarder.World.{
  World, M, HandlerError, structs, pure, ◌>>=◌, ◌>>◌, lift, log_error, get_state, modify_state,
  with_state, send_udp, count_sent,
}

is_crc_ok : Gw.CrcStatus → Bool
is_crc_ok Gw.crc_ok = true
is_crc_ok _ = false

is_bad_crc : Gw.CrcStatus → Bool
is_bad_crc Gw.bad_crc = true
is_bad_crc _ = false

is_no_crc : Gw.CrcStatus → Bool
is_no_crc Gw.no_crc = true
is_no_crc _ = false

-- The test at the head of `events_up`.
unfoldable pub forwards : State → Gw.CrcStatus → Bool
unfolding is_crc_ok is_bad_crc is_no_crc
forwards s status =
    is_crc_ok status && s.forward_crc_ok
    || is_bad_crc status && s.forward_crc_invalid
    || is_no_crc status && s.forward_crc_missing

-- A frame with no `rx_info` passes the test and fails in `from_proto`.
unfoldable pub passes : {X : External} → State → Option (Gw.UplinkRxInfo X) → Bool
unfolding forwards
passes s none = true
passes s (some rx_info) = forwards s rx_info.crc_status

module _ (X : External) where
  -- `percentage of acknowledged datagrams`, if any was sent
  abbrev pub set_ackr : ℕ → ℕ → Stat X → Stat X
  set_ackr sent acked stat = if sent == 0 then stat else record stat {
    ackr = X.f32_mul (X.f32_div (X.f32_of_u32 acked) (X.f32_of_u32 sent)) (X.f32_of_u32 100);
  }

module _ {X : External} (R : Runtime X) where
  -- From the draw of the token on.
  push_rxpk : ℕ → RxPk X → M (World R) (Unit {0})
  push_rxpk random rxpk = do
    s ← get_state
    id ← lift structs (array_8 s.gateway_id)
    modify_state (set_push_data_token random)
    bytes ← lift structs (
        push_data_to_bytes X (record {
          random_token = random;
          gateway_id = id;
          payload = record { rxpk = rxpk ∷ []; stat = none };
        }))
    send_udp bytes
    modify_state incr_rxfw
    modify_state incr_push_data_sent
    count_sent s.server (codes "PUSH_DATA_RXPK") (length bytes)

  forward_up : X.DateTime → ℕ → Gw.UplinkFrame X → M (World R) (Unit {0})
  unfolding push_rxpk
  forward_up now random up = do
    rxpk ← lift structs (RxPk.from_proto X now up)
    push_rxpk random rxpk

  unfoldable pub events_up : X.DateTime → ℕ → Gw.UplinkFrame X → M (World R) (Unit {0})
  unfolding forward_up passes
  events_up now random up = do
    s ← get_state
    if passes s up.rx_info then log_error (forward_up now random up) else pure tt

  unfoldable pub events_stats : X.DateTime → ℕ → Gw.GatewayStats X → M (World R) (Unit {0})
  events_stats now random stats = log_error (do
    stat ← lift structs (Stat.from_proto X now stats)
    rxfw ← with_state get_and_reset_rxfw
    pd_sent ← with_state get_and_reset_push_data_sent
    pd_acked ← with_state get_and_reset_push_data_acked
    s ← get_state
    id ← lift structs (array_8 s.gateway_id)
    modify_state (set_push_data_token random)
    bytes ← lift structs (
        push_data_to_bytes X (record {
          random_token = random;
          gateway_id = id;
          payload = record {
            rxpk = [];
            stat = some (set_ackr X pd_sent pd_acked (record stat { rxfw = rxfw }));
          };
        }))
    send_udp bytes
    modify_state incr_push_data_sent
    count_sent s.server (codes "PUSH_DATA_STATS") (length bytes))
