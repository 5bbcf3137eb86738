-- ===== src/Tests/Downlinks.antt =====
-- The unit tests of src/structs.rs that read downlinks: the text of a PULL_RESP up to the frame for
-- the concentratord.
use chirpstack_udp_forwarder.Prelude.{ℕ, ◌≡◌, refl, false, some, [], ◌∷◌, Text, codes, text_eq}
use chirpstack_udp_forwarder.Prelude.Int.{pos}
use chirpstack_udp_forwarder.Prelude.Outcome.{ok, ◌>>=◌}
use chirpstack_udp_forwarder.Gw
use chirpstack_udp_forwarder.Structs.Error.{Result}
use chirpstack_udp_forwarder.Structs.PullResp
use chirpstack_udp_forwarder.Structs.TxPk
use chirpstack_udp_forwarder.Structs.Types.{
  read_string, deserialize_modulation, deserialize_data_rate, deserialize_code_rate,
  data_rate_of_pieces, is_alphabetic,
}
use chirpstack_udp_forwarder.Structs.Decimal.{parse_u32, split}
use chirpstack_udp_forwarder.Tests.Structs.{gateway}
use chirpstack_udp_forwarder.Tests.Json.Reader.{reading, base64_bytes}

abbrev payload : Text
payload = codes "H3P3N2i9qc4yt7rK7ldqoeCVJGBybzPY5h1Dd7P7p8s="

-- The token of the packet, and the frame that its txpk becomes.
abbrev downlink_of : Text → Result (ℕ × Gw.DownlinkFrame)
downlink_of txpk = do
  pull_resp ← PullResp.from_bytes reading (2 ∷ 0 ∷ 123 ∷ 3 ∷ txpk)
  frame ← TxPk.to_proto reading pull_resp.payload.txpk 0 gateway
  ok (pull_resp.random_token, frame)

abbrev frame_of : Gw.DownlinkTxInfo → Gw.DownlinkFrame
frame_of tx_info = record {
  downlink_id = 0;
  gateway_id = codes "0102030405060708";
  items = record { tx_info = tx_info; phy_payload = base64_bytes payload } ∷ [];
}

abbrev lora_modulation : Gw.CodeRate → Gw.Modulation
lora_modulation code_rate = record {
  parameters = some (
      Gw.lora (record {
        bandwidth = 125000;
        spreading_factor = 11;
        code_rate = code_rate;
        polarization_inversion = false;
        preamble = 0;
        no_crc = false;
        code_rate_legacy = [];
      }));
}

abbrev txpk_lora_immediately : Text
txpk_lora_immediately =
    codes
      "{\"txpk\":{\n            \"imme\":true,\n            \"freq\":864.123456,\n            \"rfch\":0,\n            \"powe\":14,\n            \"modu\":\"LORA\",\n            \"datr\":\"SF11BW125\",\n            \"codr\":\"4/6\",\n            \"ipol\":false,\n            \"size\":32,\n            \"data\":\"H3P3N2i9qc4yt7rK7ldqoeCVJGBybzPY5h1Dd7P7p8s=\"}}"

abbrev frame_lora_immediately : Gw.DownlinkFrame
frame_lora_immediately = frame_of (record {
  frequency = 864123456;
  power = 14;
  modulation = lora_modulation Gw.cr46;
  board = 0;
  antenna = 0;
  timing = Gw.immediately;
  context = [];
})

test_pull_resp_lora_immediately :
    downlink_of txpk_lora_immediately ≡ ok (123, frame_lora_immediately)
unfolding PullResp.from_bytes PullResp.deserialize_payload TxPk.to_proto TxPk.timing_of
    TxPk.gw_code_rate TxPk.deserialize_txpk TxPk.struct_fields read_string deserialize_modulation
    deserialize_data_rate deserialize_code_rate data_rate_of_pieces is_alphabetic parse_u32 split
    text_eq
test_pull_resp_lora_immediately = refl

abbrev txpk_lora_delay : Text
txpk_lora_delay =
    codes
      "{\"txpk\":{\n            \"freq\":864.123456,\n            \"rfch\":0,\n            \"powe\":14,\n            \"modu\":\"LORA\",\n            \"datr\":\"SF11BW125\",\n            \"codr\":\"4/5\",\n            \"ipol\":false,\n            \"size\":32,\n            \"tmst\": 5000000,\n            \"data\":\"H3P3N2i9qc4yt7rK7ldqoeCVJGBybzPY5h1Dd7P7p8s=\"}}"

abbrev frame_lora_delay : Gw.DownlinkFrame
frame_lora_delay = frame_of (record {
  frequency = 864123456;
  power = 14;
  modulation = lora_modulation Gw.cr45;
  board = 0;
  antenna = 0;
  timing = Gw.delay (record { seconds = pos 0; nanos = pos 0 });
  context = 0 ∷ 76 ∷ 75 ∷ 64 ∷ [];
})

test_pull_resp_lora_delay : downlink_of txpk_lora_delay ≡ ok (123, frame_lora_delay)
unfolding PullResp.from_bytes PullResp.deserialize_payload TxPk.to_proto TxPk.timing_of
    TxPk.gw_code_rate TxPk.deserialize_txpk TxPk.struct_fields read_string deserialize_modulation
    deserialize_data_rate deserialize_code_rate data_rate_of_pieces is_alphabetic parse_u32 split
    text_eq
test_pull_resp_lora_delay = refl

abbrev txpk_lora_gps : Text
txpk_lora_gps =
    codes
      "{\"txpk\":{\n            \"freq\":864.123456,\n            \"rfch\":0,\n            \"powe\":14,\n            \"modu\":\"LORA\",\n            \"datr\":\"SF11BW125\",\n            \"codr\":\"4/5\",\n            \"ipol\":false,\n            \"size\":32,\n            \"tmms\": 5000000,\n            \"data\":\"H3P3N2i9qc4yt7rK7ldqoeCVJGBybzPY5h1Dd7P7p8s=\"}}"

abbrev frame_lora_gps : Gw.DownlinkFrame
frame_lora_gps = frame_of (record {
  frequency = 864123456;
  power = 14;
  modulation = lora_modulation Gw.cr45;
  board = 0;
  antenna = 0;
  timing = Gw.gps_epoch (record { seconds = pos 5000; nanos = pos 0 });
  context = [];
})

test_pull_resp_lora_gps : downlink_of txpk_lora_gps ≡ ok (123, frame_lora_gps)
unfolding PullResp.from_bytes PullResp.deserialize_payload TxPk.to_proto TxPk.timing_of
    TxPk.gw_code_rate TxPk.deserialize_txpk TxPk.struct_fields read_string deserialize_modulation
    deserialize_data_rate deserialize_code_rate data_rate_of_pieces is_alphabetic parse_u32 split
    text_eq
test_pull_resp_lora_gps = refl

abbrev txpk_fsk_delay : Text
txpk_fsk_delay =
    codes
      "{\"txpk\":{\n            \"freq\":861.3,\n            \"rfch\":0,\n            \"powe\":12,\n            \"modu\":\"FSK\",\n            \"datr\":50000,\n            \"fdev\":3000,\n            \"size\":32,\n            \"tmst\": 5000000,\n            \"data\":\"H3P3N2i9qc4yt7rK7ldqoeCVJGBybzPY5h1Dd7P7p8s=\"}}"

abbrev frame_fsk_delay : Gw.DownlinkFrame
frame_fsk_delay = frame_of (record {
  frequency = 861300000;
  power = 12;
  modulation = record {
    parameters = some (Gw.fsk (record { datarate = 50000; frequency_deviation = 3000 }));
  };
  board = 0;
  antenna = 0;
  timing = Gw.delay (record { seconds = pos 0; nanos = pos 0 });
  context = 0 ∷ 76 ∷ 75 ∷ 64 ∷ [];
})

test_pull_resp_fsk_delay : downlink_of txpk_fsk_delay ≡ ok (123, frame_fsk_delay)
unfolding PullResp.from_bytes PullResp.deserialize_payload TxPk.to_proto TxPk.timing_of
    TxPk.gw_code_rate TxPk.deserialize_txpk TxPk.struct_fields read_string deserialize_modulation
    deserialize_data_rate deserialize_code_rate data_rate_of_pieces is_alphabetic parse_u32 split
    text_eq
test_pull_resp_fsk_delay = refl
