-- ===== src/Tests/GpsTime.antt =====
-- A GPS time of 1.234567890 s, sent up and back.
use chirpstack_udp_forwarder.Prelude.{◌≡◌, [], ◌∷◌, some, none, refl, arith}
use chirpstack_udp_forwarder.Prelude.Int.{pos}
use chirpstack_udp_forwarder.Prelude.Outcome.{ok}
use chirpstack_udp_forwarder.Bytes.{u32_of_slice}
use chirpstack_udp_forwarder.Gw
use chirpstack_udp_forwarder.Structs.RxPk.{RxPk, from_proto}
use chirpstack_udp_forwarder.Structs.RxPk.Laws.{HasInfo}
use chirpstack_udp_forwarder.Structs.TxPk.{TxPk, to_proto}
use chirpstack_udp_forwarder.Structs.TxPk.GpsTime.{gps_time_roundtrip}
use chirpstack_udp_forwarder.Tests.Instance.{plain, plain-HasDurations}
use chirpstack_udp_forwarder.Tests.Structs.{
  gateway, rx_info, tx_info, uplink, rxpk, txpk, downlink_at,
}

abbrev timed_rx_info : Gw.UplinkRxInfo plain
timed_rx_info = record (rx_info (1 ∷ 2 ∷ 3 ∷ 4 ∷ [])) {
  time_since_gps_epoch = some (record { seconds = pos 1; nanos = pos 234567890 });
}

abbrev timed_uplink : Gw.UplinkFrame plain
timed_uplink = record (uplink (1 ∷ 2 ∷ 3 ∷ 4 ∷ [])) { rx_info = some timed_rx_info }

abbrev timed_info : HasInfo plain timed_uplink
timed_info = record { rx = timed_rx_info; tx = tx_info; has_rx = refl; has_tx = refl }

abbrev timed_rxpk : RxPk plain
timed_rxpk = record rxpk { tmms = some 1234 }

timed_uplink_converts : from_proto plain 0 timed_uplink ≡ ok timed_rxpk
unfolding from_proto u32_of_slice
timed_uplink_converts = refl

abbrev timed_txpk : TxPk plain
timed_txpk = record txpk { tmst = none; tmms = some 1234 }

abbrev timed_downlink : Gw.DownlinkFrame
timed_downlink = downlink_at (Gw.gps_epoch (record { seconds = pos 1; nanos = pos 234000000 })) []

timed_txpk_converts : to_proto plain timed_txpk 123 gateway ≡ ok timed_downlink
unfolding to_proto
timed_txpk_converts = refl

gps_time_roundtrip_example :
    (timed_rxpk.tmms ≡ some 1234)
    × (item : Gw.DownlinkFrameItem) × (timed_downlink.items ≡ item ∷ [])
    × (item.tx_info.timing ≡ Gw.gps_epoch (record { seconds = pos 1; nanos = pos 234000000 }))
gps_time_roundtrip_example =
    gps_time_roundtrip plain plain-HasDurations 0 timed_uplink timed_info timed_rxpk timed_txpk 123
      gateway timed_downlink 1 234567890 refl (omega arith) (omega arith) timed_uplink_converts refl
      refl refl timed_txpk_converts
