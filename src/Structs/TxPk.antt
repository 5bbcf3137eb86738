-- ===== src/Structs/TxPk.antt =====
-- The `txpk` object of PULL_RESP in src/structs.rs: the derived `Deserialize` and
-- `TxPk::to_proto`, which makes a downlink frame of it.
mod Deserialize
mod Fields
pub mod Laws
pub mod GpsTime
pub use Fields.{TxPk}
pub use Deserialize.{StructFields}
unfoldable pub use Deserialize.{deserialize_txpk, struct_fields}
use chirpstack_udp_forwarder.Prelude.{
  ℕ, ◌*◌, ◌/◌, ◌%◌, List, [], ◌∷◌, Option, none, some, Bool, true, false, Text, Bytes, codes,
  if◌then◌else◌,
}
use chirpstack_udp_forwarder.Prelude.Int.{pos}
use chirpstack_udp_forwarder.Prelude.Outcome.{Outcome, ok, err, or_fail, ◌>>=◌}
use chirpstack_udp_forwarder.Bytes.{to_be_bytes_u32}
use chirpstack_udp_forwarder.External.{External}
use chirpstack_udp_forwarder.Gw
use chirpstack_udp_forwarder.Structs.Types.{
  Modulation, lora, fsk, DataRate, lora_rate, fsk_rate, CodeRate, undefined, lora4_5, lora4_6,
  lora4_7, lora4_8,
}
use chirpstack_udp_forwarder.Structs.Error.{
  Result, lora_data_rate_expected, fsk_data_rate_expected, no_timing, duration_range, base64,
}

abbrev pub unwrap_or {ℓ} : {A : Type ℓ} → A → Option A → A
unwrap_or d none = d
unwrap_or d (some a) = a

unfoldable pub gw_code_rate : Option CodeRate → Gw.CodeRate
gw_code_rate (some lora4_5) = Gw.cr45
gw_code_rate (some lora4_6) = Gw.cr46
gw_code_rate (some lora4_7) = Gw.cr47
gw_code_rate (some lora4_8) = Gw.cr48
gw_code_rate (some undefined) = Gw.cr_undefined
gw_code_rate none = Gw.cr_undefined

module _ (X : External) where
  parameters_of : TxPk X → Modulation → DataRate → Result Gw.Parameters
  unfolding gw_code_rate
  parameters_of p lora (lora_rate sf bw) = ok (
      Gw.lora (record {
        bandwidth = bw;
        spreading_factor = sf;
        code_rate = gw_code_rate p.codr;
        polarization_inversion = unwrap_or true p.ipol;
        preamble = unwrap_or 0 p.prea;
        no_crc = unwrap_or false p.ncrc;
        code_rate_legacy = [];
      }))
  parameters_of p lora (fsk_rate _) = err lora_data_rate_expected
  parameters_of p fsk (fsk_rate v) =
      ok (Gw.fsk (record { datarate = v; frequency_deviation = unwrap_or 0 p.fdev }))
  parameters_of p fsk (lora_rate _ _) = err fsk_data_rate_expected

  -- `Duration::from_millis(v).try_into()?`
  gps_timing : ℕ → Result Gw.Timing
  gps_timing v = elim (X.to_prost_duration (v / 1000) (v % 1000 * 1000000)) [
    | none ↦ err duration_range
    | some (s, n) ↦ ok (Gw.gps_epoch (record { seconds = s; nanos = n }))
  ]

  -- "immediately" wins over a timestamp, which wins over a GPS time.
  unfoldable pub timing_of : Bool → Option ℕ → Option ℕ → Result Gw.Timing
  unfolding gps_timing
  timing_of true tmst tmms = ok Gw.immediately
  timing_of false (some _) tmms = ok (Gw.delay (record { seconds = pos 0; nanos = pos 0 }))
  timing_of false none (some v) = gps_timing v
  timing_of false none none = err no_timing

  abbrev pub context_of : Option ℕ → Bytes
  context_of none = []
  context_of (some v) = to_be_bytes_u32 v

  unfoldable pub to_proto : TxPk X → ℕ → Bytes → Result Gw.DownlinkFrame
  unfolding parameters_of timing_of
  to_proto p downlink_id gateway_id = do
    parameters ← parameters_of p p.modu p.datr
    timing ← timing_of (unwrap_or false p.imme) p.tmst p.tmms
    phy_payload ← or_fail (X.base64_decode p.payload) base64
    ok (record {
      downlink_id = downlink_id;
      gateway_id = X.hex_encode gateway_id;
      items =
          record {
            tx_info = record {
              frequency = X.u32_of_f64 (X.f64_mul p.freq (X.f64_of_u32 1000000));
              power = p.powe;
              modulation = record { parameters = some parameters };
              board = 0;
              antenna = 0;
              timing = timing;
              context = context_of p.tmst;
            };
            phy_payload = phy_payload;
          }
          ∷ [];
    })
