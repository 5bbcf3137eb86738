-- ===== src/Tests/Vectors.antt =====
-- The unit tests of src/structs.rs that write packets, on decimals, base64 and a JSON printer.
use chirpstack_udp_forwarder.Prelude.{
  ◌≡◌, refl, true, false, none, some, [], ◌∷◌, ◌++◌, Bytes, codes,
}
use chirpstack_udp_forwarder.Prelude.Int.{pos, negsuc}
use chirpstack_udp_forwarder.Prelude.Outcome.{ok, ◌>>=◌}
use chirpstack_udp_forwarder.Gw
use chirpstack_udp_forwarder.Structs.Error.{Result}
use chirpstack_udp_forwarder.Bytes.{u32_of_slice}
use chirpstack_udp_forwarder.Structs.Types.{
  serialize_crc, serialize_modulation, serialize_data_rate, serialize_code_rate,
}
use chirpstack_udp_forwarder.Structs.RxPk
use chirpstack_udp_forwarder.Structs.Stat
use chirpstack_udp_forwarder.Structs.Packets.{
  push_data_to_bytes, tx_ack_to_bytes, serialize_push_data_payload, serialize_tx_ack_payload,
}
use chirpstack_udp_forwarder.Structs.Acks.{push_ack_from_bytes, pull_ack_from_bytes}
use chirpstack_udp_forwarder.Structs.Decimal.{format_u32}
use chirpstack_udp_forwarder.Tests.Structs.{gateway}
use chirpstack_udp_forwarder.Tests.Json.{decimal}

abbrev frame_lora : Gw.UplinkFrame decimal
frame_lora = record {
  rx_info = some (record {
    gw_time = some 0;
    time_since_gps_epoch = some (record { seconds = pos 1; nanos = pos 0 });
    rssi = negsuc 159;
    snr = 5500000;
    channel = 1;
    rf_chain = 1;
    context = 1 ∷ 2 ∷ 3 ∷ 4 ∷ [];
    crc_status = Gw.crc_ok;
  });
  tx_info = some (record {
    frequency = 868300000;
    modulation = some (record {
      parameters = some (
          Gw.lora (record {
            bandwidth = 125000;
            spreading_factor = 12;
            code_rate = Gw.cr45;
            polarization_inversion = true;
            preamble = 0;
            no_crc = false;
            code_rate_legacy = [];
          }));
    });
  });
  phy_payload = 1 ∷ 2 ∷ 3 ∷ [];
}

abbrev frame_fsk : Gw.UplinkFrame decimal
frame_fsk = record {
  rx_info = some (record {
    gw_time = some 0;
    time_since_gps_epoch = some (record { seconds = pos 1; nanos = pos 0 });
    rssi = negsuc 159;
    snr = 0;
    channel = 1;
    rf_chain = 2;
    context = 1 ∷ 2 ∷ 3 ∷ 4 ∷ [];
    crc_status = Gw.crc_ok;
  });
  tx_info = some (record {
    frequency = 868300000;
    modulation = some (record {
      parameters = some (Gw.fsk (record { datarate = 50000; frequency_deviation = 0 }));
    });
  });
  phy_payload = 1 ∷ 2 ∷ 3 ∷ [];
}

abbrev located_stats : Gw.GatewayStats decimal
located_stats = record {
  time = some 0;
  location = some (record { latitude = 1123000; longitude = 2123000; altitude = 3123000 });
  rx_packets_received = 10;
  rx_packets_received_ok = 5;
  tx_packets_received = 14;
  tx_packets_emitted = 7;
}

-- `RxPk::from_proto`, and `to_bytes` of a packet with it.
abbrev push_frame : Gw.UplinkFrame decimal → Result Bytes
push_frame uf = do
  rxpk ← RxPk.from_proto decimal 0 uf
  push_data_to_bytes decimal (record {
    random_token = 123;
    gateway_id = gateway;
    payload = record { rxpk = rxpk ∷ []; stat = none };
  })

abbrev push_stats : Gw.GatewayStats decimal → Result Bytes
push_stats gs = do
  stat ← Stat.from_proto decimal 0 gs
  push_data_to_bytes decimal (record {
    random_token = 123;
    gateway_id = gateway;
    payload = record { rxpk = []; stat = some stat };
  })

abbrev push_header : Bytes
push_header = 2 ∷ 0 ∷ 123 ∷ 0 ∷ gateway

test_push_data_rxpk_lora :
    push_frame frame_lora
    ≡ ok (
        push_header
        ++ codes
            "{\"rxpk\":[{\"time\":\"1970-01-01T00:00:00+00:00\",\"tmms\":1000,\"tmst\":16909060,\"freq\":868.3,\"chan\":1,\"rfch\":1,\"stat\":1,\"modu\":\"LORA\",\"datr\":\"SF12BW125\",\"codr\":\"4/5\",\"rssi\":-160,\"lsnr\":5.5,\"size\":3,\"data\":\"AQID\"}]}")
unfolding push_data_to_bytes serialize_push_data_payload RxPk.from_proto RxPk.duration_to_ms
    RxPk.crc_of RxPk.modu_of RxPk.datr_of RxPk.code_rate_of RxPk.codr_of RxPk.lsnr_of RxPk.time_of
    RxPk.serialize_rxpk serialize_crc serialize_modulation serialize_data_rate serialize_code_rate
    format_u32 u32_of_slice
test_push_data_rxpk_lora = refl

test_push_data_rxpk_fsk :
    push_frame frame_fsk
    ≡ ok (
        push_header
        ++ codes
            "{\"rxpk\":[{\"time\":\"1970-01-01T00:00:00+00:00\",\"tmms\":1000,\"tmst\":16909060,\"freq\":868.3,\"chan\":1,\"rfch\":2,\"stat\":1,\"modu\":\"FSK\",\"datr\":50000,\"rssi\":-160,\"size\":3,\"data\":\"AQID\"}]}")
unfolding push_data_to_bytes serialize_push_data_payload RxPk.from_proto RxPk.duration_to_ms
    RxPk.crc_of RxPk.modu_of RxPk.datr_of RxPk.code_rate_of RxPk.codr_of RxPk.lsnr_of RxPk.time_of
    RxPk.serialize_rxpk serialize_crc serialize_modulation serialize_data_rate serialize_code_rate
    format_u32 u32_of_slice
test_push_data_rxpk_fsk = refl

test_push_data_stat :
    push_stats located_stats
    ≡ ok (
        push_header
        ++ codes
            "{\"rxpk\":[],\"stat\":{\"time\":\"1970-01-01 00:00:00 UTC\",\"lati\":1.123,\"long\":2.123,\"alti\":3,\"rxnb\":10,\"rxok\":5,\"rxfw\":0,\"ackr\":0.0,\"dwnb\":14,\"txnb\":7}}")
unfolding push_data_to_bytes serialize_push_data_payload Stat.from_proto Stat.serialize_stat
    RxPk.time_of format_u32
test_push_data_stat = refl

test_tx_ack :
    tx_ack_to_bytes decimal (record {
      random_token = 123;
      gateway_id = gateway;
      payload = record { txpk_ack = record { error = codes "TOO_LATE" } };
    })
    ≡ ok (2 ∷ 0 ∷ 123 ∷ 5 ∷ (gateway ++ codes "{\"txpk_ack\":{\"error\":\"TOO_LATE\"}}"))
unfolding tx_ack_to_bytes serialize_tx_ack_payload
test_tx_ack = refl

test_push_ack : push_ack_from_bytes (2 ∷ 0 ∷ 123 ∷ 1 ∷ []) ≡ ok (record { random_token = 123 })
unfolding push_ack_from_bytes
test_push_ack = refl

test_pull_ack : pull_ack_from_bytes (2 ∷ 0 ∷ 123 ∷ 4 ∷ []) ≡ ok (record { random_token = 123 })
unfolding pull_ack_from_bytes
test_pull_ack = refl
