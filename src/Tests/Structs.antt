-- ===== src/Tests/Structs.antt =====
-- The conversions of src/structs.rs at concrete packets and frames.
use chirpstack_udp_forwarder.Prelude.{
  ℕ, ◌<◌, ◌^◌, ◌≡◌, ◌≢◌, ◌↔◌, inr, Bool, true, false, none, some, [], ◌∷◌, Bytes, codes, refl,
  arith,
}
use chirpstack_udp_forwarder.Prelude.Int.{pos, negsuc}
use chirpstack_udp_forwarder.Prelude.Outcome.{ok, panic}
use chirpstack_udp_forwarder.Bytes.{u32_of_slice}
use chirpstack_udp_forwarder.Gw
use chirpstack_udp_forwarder.Structs.Types.{
  lora, lora_rate, lora4_5, crc_ok, serialize_data_rate, deserialize_data_rate,
  serialize_modulation, deserialize_modulation,
}
use chirpstack_udp_forwarder.Structs.Types.RoundTrip.{
  deserialize-serialize_data_rate, deserialize-serialize_enums,
}
use chirpstack_udp_forwarder.Structs.Acks.{push_ack_from_bytes, pull_ack_from_bytes}
use chirpstack_udp_forwarder.Structs.Acks.Laws.{IsAck, IsAck-from_bytes_iff}
use chirpstack_udp_forwarder.Structs.RxPk.{RxPk}
use chirpstack_udp_forwarder.Structs.RxPk
use chirpstack_udp_forwarder.Structs.RxPk.Laws.{
  HasInfo, IsReport, from_proto_outcome, from_proto-IsReport,
}
use chirpstack_udp_forwarder.Structs.TxPk.{TxPk, to_proto}
use chirpstack_udp_forwarder.Structs.TxPk.Laws.{to_proto_outcome, context_roundtrip}
use chirpstack_udp_forwarder.Structs.Packets.{
  PullData, PushData, TxAck, pull_data_to_bytes, push_data_to_bytes, tx_ack_to_bytes,
}
use chirpstack_udp_forwarder.Structs.Packets.Laws.{
  decode, packet, reply, decode-push_data_to_bytes, decode-tx_ack_to_bytes, ack-reply,
}
use chirpstack_udp_forwarder.Structs.PullResp.{PullResp, deserialize_payload}
use chirpstack_udp_forwarder.Structs.PullResp
use chirpstack_udp_forwarder.Structs.PullResp.Laws.{IsPullResp, from_bytes_outcome}
use chirpstack_udp_forwarder.Tests.Instance.{plain, plain-HasDurations}

abbrev pub gateway : Bytes
gateway = 1 ∷ 2 ∷ 3 ∷ 4 ∷ 5 ∷ 6 ∷ 7 ∷ 8 ∷ []

abbrev lora_info : Gw.LoraModulationInfo
lora_info = record {
  bandwidth = 125000;
  spreading_factor = 12;
  code_rate = Gw.cr45;
  polarization_inversion = true;
  preamble = 0;
  no_crc = false;
  code_rate_legacy = [];
}

-- src/structs.rs, test_push_data_rxpk_lora
abbrev pub rx_info : Bytes → Gw.UplinkRxInfo plain
rx_info context = record {
  gw_time = some 0;
  time_since_gps_epoch = some (record { seconds = pos 1; nanos = pos 0 });
  rssi = negsuc 159;
  snr = 5;
  channel = 1;
  rf_chain = 1;
  context = context;
  crc_status = Gw.crc_ok;
}

abbrev pub tx_info : Gw.UplinkTxInfo
tx_info = record {
  frequency = 868300000;
  modulation = some (record { parameters = some (Gw.lora lora_info) });
}

abbrev pub uplink : Bytes → Gw.UplinkFrame plain
uplink context = record {
  phy_payload = 1 ∷ 2 ∷ 3 ∷ [];
  tx_info = some tx_info;
  rx_info = some (rx_info context);
}

abbrev pub rxpk : RxPk plain
rxpk = record {
  time = 0;
  tmms = some 1000;
  tmst = 16909060;
  freq = 868;
  chan = 1;
  rfch = 1;
  stat = crc_ok;
  modu = lora;
  datr = lora_rate 12 125000;
  codr = some lora4_5;
  rssi = negsuc 159;
  lsnr = some 5;
  size = 3;
  payload = 1 ∷ 2 ∷ 3 ∷ [];
}

pub uplink_converts : RxPk.from_proto plain 0 (uplink (1 ∷ 2 ∷ 3 ∷ 4 ∷ [])) ≡ ok rxpk
unfolding RxPk.from_proto u32_of_slice
uplink_converts = refl

abbrev uplink_info : (context : Bytes) → HasInfo plain (uplink context)
uplink_info context = record { rx = rx_info context; tx = tx_info; has_rx = refl; has_tx = refl }

abbrev pub txpk : TxPk plain
txpk = record {
  imme = none;
  tmst = some 16909060;
  tmms = none;
  freq = 868;
  powe = 14;
  modu = lora;
  datr = lora_rate 7 125000;
  codr = none;
  fdev = none;
  ipol = none;
  prea = none;
  payload = codes "A";
  ncrc = none;
}

txpk_fits : (v : ℕ) → txpk.tmms ≡ some v → v < 2 ^ 64
txpk_fits v e = cc

abbrev pub downlink_at : Gw.Timing → Bytes → Gw.DownlinkFrame
downlink_at timing context = record {
  downlink_id = 123;
  gateway_id = gateway;
  items =
      record {
        tx_info = record {
          frequency = 868000000;
          power = 14;
          modulation = record {
            parameters = some (
                Gw.lora (record {
                  bandwidth = 125000;
                  spreading_factor = 7;
                  code_rate = Gw.cr_undefined;
                  polarization_inversion = true;
                  preamble = 0;
                  no_crc = false;
                  code_rate_legacy = [];
                }));
          };
          board = 0;
          antenna = 0;
          timing = timing;
          context = context;
        };
        phy_payload = codes "A";
      }
      ∷ [];
}

abbrev downlink : Gw.DownlinkFrame
downlink = downlink_at (Gw.delay (record { seconds = pos 0; nanos = pos 0 })) (1 ∷ 2 ∷ 3 ∷ 4 ∷ [])

txpk_converts : to_proto plain txpk 123 gateway ≡ ok downlink
unfolding to_proto
txpk_converts = refl

-- 812.5 kHz, of the 2.4 GHz band, comes back as 812 kHz.
deserialize-serialize_data_rate_example :
    deserialize_data_rate plain (serialize_data_rate plain (lora_rate 12 812500))
    ≡ ok (lora_rate 12 812000)
deserialize-serialize_data_rate_example =
    deserialize-serialize_data_rate plain (lora_rate 12 812500) (omega arith)

deserialize-serialize_enums_example :
    deserialize_modulation plain (serialize_modulation plain lora) ≡ ok lora
deserialize-serialize_enums_example = (deserialize-serialize_enums plain).0 lora

IsAck-from_bytes_iff_example :
    (push_ack_from_bytes (2 ∷ 1 ∷ 123 ∷ 4 ∷ []) ≢ panic)
    × (pull_ack_from_bytes (2 ∷ 1 ∷ 123 ∷ 4 ∷ []) ≢ panic)
    × ((t : ℕ)
        → ((push_ack_from_bytes (2 ∷ 1 ∷ 123 ∷ 4 ∷ []) ≡ ok (record { random_token = t }))
            ↔ IsAck 0x01 t (2 ∷ 1 ∷ 123 ∷ 4 ∷ []))
          × ((pull_ack_from_bytes (2 ∷ 1 ∷ 123 ∷ 4 ∷ []) ≡ ok (record { random_token = t }))
              ↔ IsAck 0x04 t (2 ∷ 1 ∷ 123 ∷ 4 ∷ [])))
IsAck-from_bytes_iff_example = IsAck-from_bytes_iff (2 ∷ 1 ∷ 123 ∷ 4 ∷ [])

from_proto_outcome_example : RxPk.from_proto plain 0 (uplink (1 ∷ 2 ∷ 3 ∷ [])) ≡ panic
from_proto_outcome_example =
    (from_proto_outcome plain 0 (uplink (1 ∷ 2 ∷ 3 ∷ []))).0.1
      (uplink_info (1 ∷ 2 ∷ 3 ∷ []), inr (omega arith))

from_proto-IsReport_example :
    IsReport plain 0 (uplink (1 ∷ 2 ∷ 3 ∷ 4 ∷ [])) (uplink_info (1 ∷ 2 ∷ 3 ∷ 4 ∷ [])) rxpk
from_proto-IsReport_example =
    from_proto-IsReport plain 0 (uplink (1 ∷ 2 ∷ 3 ∷ 4 ∷ [])) (uplink_info (1 ∷ 2 ∷ 3 ∷ 4 ∷ []))
      rxpk uplink_converts

to_proto_outcome_example : to_proto plain txpk 123 gateway ≢ panic
to_proto_outcome_example = (to_proto_outcome plain plain-HasDurations txpk 123 gateway txpk_fits).0

context_roundtrip_example :
    (item : Gw.DownlinkFrameItem) × (downlink.items ≡ item ∷ [])
    × (item.tx_info.context ≡ 1 ∷ 2 ∷ 3 ∷ 4 ∷ [])
context_roundtrip_example =
    context_roundtrip plain plain-HasDurations 0 (uplink (1 ∷ 2 ∷ 3 ∷ 4 ∷ []))
      (uplink_info (1 ∷ 2 ∷ 3 ∷ 4 ∷ [])) rxpk txpk 123 gateway downlink (omega arith)
      uplink_converts refl txpk_fits txpk_converts

abbrev pull_data : PullData
pull_data = record { random_token = 379; gateway_id = gateway }

abbrev push_data : PushData plain
push_data = record {
  random_token = 123;
  gateway_id = gateway;
  payload = record { rxpk = rxpk ∷ []; stat = none };
}

abbrev tx_ack : TxAck
tx_ack = record {
  random_token = 123;
  gateway_id = gateway;
  payload = record { txpk_ack = record { error = codes "TOO_LATE" } };
}

decode-push_data_to_bytes_example :
    (b : Bytes) × (push_data_to_bytes plain push_data ≡ ok b)
    × (decode b ≡ some (packet 123 0x00 gateway (codes "{}")))
decode-push_data_to_bytes_example =
    (decode-push_data_to_bytes plain push_data (omega arith) refl).1 (codes "{}") refl

decode-tx_ack_to_bytes_example :
    (b : Bytes) × (tx_ack_to_bytes plain tx_ack ≡ ok b)
    × (decode b ≡ some (packet 123 0x05 gateway (codes "{}")))
decode-tx_ack_to_bytes_example =
    (decode-tx_ack_to_bytes plain tx_ack (omega arith) refl).1 (codes "{}") refl

ack-reply_example :
    pull_ack_from_bytes (reply 0x04 (pull_data_to_bytes pull_data))
    ≡ ok (record { random_token = 379 })
ack-reply_example = (ack-reply plain).0 pull_data (omega arith)

from_bytes_outcome_example : (PullResp.from_bytes plain (2 ∷ 0 ∷ 123 ∷ 3 ∷ b'-' ∷ []) ≡ panic) ↔ (
    (token : ℕ) × (v : _) × (whole : Bool) × IsPullResp plain
      (2 ∷ 0 ∷ 123 ∷ 3 ∷ b'-' ∷ [])
      token
      v
      whole
    × (deserialize_payload plain v ≡ panic))
from_bytes_outcome_example = (from_bytes_outcome plain (2 ∷ 0 ∷ 123 ∷ 3 ∷ b'-' ∷ [])).1
