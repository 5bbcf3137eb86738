-- ===== src/Tests/Forwarder.antt =====
-- The handlers of src/forwarder.rs at concrete worlds.
use chirpstack_udp_forwarder.Prelude.{
  ◌≡◌, ◌⊎◌, true, false, Option, none, some, List, [], ◌∷◌, Bytes, codes, refl,
}
use chirpstack_udp_forwarder.Prelude.Int.{negsuc}
use chirpstack_udp_forwarder.Prelude.Outcome.{ok, panic}
use chirpstack_udp_forwarder.External.{cut, int}
use chirpstack_udp_forwarder.Gw
use chirpstack_udp_forwarder.Structs.Decimal.{split, parse_u32}
use chirpstack_udp_forwarder.Structs.Types.{lora, lora_rate, deserialize_data_rate, is_alphabetic}
use chirpstack_udp_forwarder.Structs.Stat.{Stat}
use chirpstack_udp_forwarder.Structs.Stat
use chirpstack_udp_forwarder.Structs.TxPk.{TxPk, to_proto, deserialize_txpk}
use chirpstack_udp_forwarder.Structs.PullResp.{from_bytes, deserialize_payload}
use chirpstack_udp_forwarder.Structs.Packets.{push_data_to_bytes}
use chirpstack_udp_forwarder.Forwarder.State.{State}
use chirpstack_udp_forwarder.Forwarder.World.{World}
use chirpstack_udp_forwarder.Forwarder.Events.{events_up, events_stats, passes}
use chirpstack_udp_forwarder.Forwarder.Events.Laws.{
  events_up_outcome, events_stats_outcome, sends, rxpk_packet, after_rxpk, stat_packet, after_stats,
  IsReportOf,
}
use chirpstack_udp_forwarder.Forwarder.Receive.{receive, handle_pull_resp}
use chirpstack_udp_forwarder.Forwarder.Receive.Laws.{receive_acks, ack_effect, counted}
use chirpstack_udp_forwarder.Forwarder.Receive.Downlink.{
  IsDownlink, second_downlink_panics, receive-bad_datr_panics,
}
use chirpstack_udp_forwarder.Forwarder.Receive.Exchange.{Exchange, handle_pull_resp_outcome}
use chirpstack_udp_forwarder.Structs.Times.{IsOutOfRange}
use chirpstack_udp_forwarder.Structs.RxPk
use chirpstack_udp_forwarder.Tests.Instance.{plain, scripted, scripted-IsReq, plain-WritesJson}
use chirpstack_udp_forwarder.Tests.Structs.{gateway, uplink, rxpk, uplink_converts}

abbrev pub start : State
start = record {
  server = codes "localhost:1700";
  keepalive_interval = 10;
  forward_crc_ok = true;
  forward_crc_invalid = false;
  forward_crc_missing = false;
  keepalive_max_failures = 1;
  gateway_id = gateway;
  push_data_token = 123;
  push_data_sent = 1;
  push_data_acked = 0;
  pull_data_token = 7;
  pull_data_token_acked = 7;
  rxfw = 0;
}

-- A world whose command socket gets these replies.
abbrev pub world : List (Option Bytes) → World scripted
world replies = record {
  state = start;
  command_sock = (false, replies);
  metrics = record {
    udp_sent_count = λ l. 0;
    udp_sent_bytes = λ l. 0;
    udp_received_count = λ l. 0;
    udp_received_bytes = λ l. 0;
    registry = [];
  };
  sent = [];
}

abbrev pull_resp : Bytes
pull_resp = 2 ∷ 0 ∷ 9 ∷ 3 ∷ b'{' ∷ []

events_up_outcome_example :
    (b : Bytes) × (push_data_to_bytes plain (rxpk_packet scripted start 55 rxpk) ≡ ok b)
    × (events_up scripted 0 55 (uplink (1 ∷ 2 ∷ 3 ∷ 4 ∷ [])) (world []) ≡ (
      ok tt,
      sends scripted (codes "PUSH_DATA_RXPK") b (after_rxpk scripted 55 start) (world []),
    ))
unfolding passes
events_up_outcome_example =
    (events_up_outcome scripted plain-WritesJson 0 55 (uplink (1 ∷ 2 ∷ 3 ∷ 4 ∷ [])) (world [])
        refl).3
      rxpk refl uplink_converts

abbrev pub stats : Gw.GatewayStats plain
stats = record {
  time = some 0;
  location = none;
  rx_packets_received = 10;
  rx_packets_received_ok = 5;
  tx_packets_received = 14;
  tx_packets_emitted = 7;
}

events_stats_outcome_example :
    (IsOutOfRange plain (some 0)
      × (events_stats scripted 0 77 stats (world []) ≡ (panic, world [])))
    ⊎ ((IsOutOfRange plain (some 0) → ⊥)
        × (stat : Stat plain) × (b : Bytes) × IsReportOf scripted 0 stats start stat
        × (push_data_to_bytes plain (stat_packet scripted start 77 stat) ≡ ok b)
        × (events_stats scripted 0 77 stats (world []) ≡ (
          ok tt,
          sends scripted (codes "PUSH_DATA_STATS") b (after_stats scripted 77 start) (world []),
        )))
events_stats_outcome_example =
    events_stats_outcome scripted plain-WritesJson 0 77 stats (world []) refl

-- The gateway's time is outside the range.
stats_panic : (events_stats scripted 0 77 (record stats { time = some 1000 }) (world [])).0 ≡ panic
unfolding events_stats Stat.from_proto RxPk.time_of
stats_panic = refl

-- The PUSH_ACK of the last PUSH_DATA.
receive_acks_example : receive scripted (2 ∷ 0 ∷ 123 ∷ 1 ∷ []) (world []) ≡ (
  ok tt,
  record (world []) {
    state = ack_effect (2 ∷ 0 ∷ 123 ∷ 1 ∷ []) start;
    metrics = counted scripted (2 ∷ 0 ∷ 123 ∷ 1 ∷ []) (codes "localhost:1700") (world []).metrics;
  },
)
receive_acks_example = receive_acks scripted (2 ∷ 0 ∷ 123 ∷ 1 ∷ []) (world []) refl

push_ack_counts : (ack_effect (2 ∷ 0 ∷ 123 ∷ 1 ∷ []) start).push_data_acked ≡ 1
push_ack_counts = refl

abbrev good_txpk : TxPk plain
good_txpk = record {
  imme = some true;
  tmst = none;
  tmms = none;
  freq = 868;
  powe = 14;
  modu = lora;
  datr = lora_rate 7 125000;
  codr = none;
  fdev = none;
  ipol = none;
  prea = none;
  payload = codes "A";
  ncrc = none;
}

abbrev good_frame : Gw.DownlinkFrame
good_frame = record {
  downlink_id = 9;
  gateway_id = gateway;
  items =
      record {
        tx_info = record {
          frequency = 868000000;
          power = 14;
          modulation = record {
            parameters = some (
                Gw.lora (record {
                  bandwidth = 125000;
                  spreading_factor = 7;
                  code_rate = Gw.cr_undefined;
                  polarization_inversion = true;
                  preamble = 0;
                  no_crc = false;
                  code_rate_legacy = [];
                }));
          };
          board = 0;
          antenna = 0;
          timing = Gw.immediately;
          context = [];
        };
        phy_payload = codes "A";
      }
      ∷ [];
}

good_downlink :
    (w : World scripted) → w.state.gateway_id ≡ gateway → IsDownlink scripted pull_resp w
unfolding from_bytes deserialize_payload deserialize_txpk deserialize_data_rate parse_u32 split
    is_alphabetic to_proto
good_downlink w e = record {
  resp = record { random_token = 9; payload = record { txpk = good_txpk } };
  frame = good_frame;
  parsed = refl;
  converted = rw e;
}

handle_pull_resp_outcome_example :
    Exchange scripted
      (good_downlink (world (some [] ∷ [])) refl)
      (handle_pull_resp scripted pull_resp (world (some [] ∷ [])))
unfolding good_downlink
handle_pull_resp_outcome_example =
    handle_pull_resp_outcome scripted plain-WritesJson pull_resp (world (some [] ∷ []))
      (good_downlink (world (some [] ∷ [])) refl) refl

second_downlink_panics_example :
    (handle_pull_resp scripted pull_resp
      (handle_pull_resp scripted pull_resp (world (none ∷ []))).1).0
    ≡ panic
unfolding good_downlink
second_downlink_panics_example =
    second_downlink_panics scripted scripted-IsReq pull_resp pull_resp (world (none ∷ []))
      (good_downlink (world (none ∷ [])) refl) (true, none ∷ []) (true, []) refl refl
      (good_downlink (record (world (none ∷ [])) { command_sock = (true, []) }) refl)

receive-bad_datr_panics_example :
    (receive scripted (2 ∷ 0 ∷ 9 ∷ 3 ∷ b'-' ∷ []) (world [])).0 ≡ panic
receive-bad_datr_panics_example =
    receive-bad_datr_panics scripted (2 ∷ 0 ∷ 9 ∷ 3 ∷ b'-' ∷ []) 9 (int (negsuc 0)) cut cut false
      (world []) tt
      (record {
        hi = 0;
        lo = 9;
        first = b'-';
        rest = [];
        wire = refl;
        token_read = refl;
        json = refl;
      })
