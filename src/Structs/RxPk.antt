-- ===== src/Structs/RxPk.antt =====
-- `RxPk::from_proto` of src/structs.rs: an uplink frame as the `rxpk` object of PUSH_DATA.
pub mod Laws
use chirpstack_udp_forwarder.Prelude.{
  ℕ, suc, ◌+◌, ◌-◌, ◌*◌, ◌/◌, ◌%◌, ◌^◌, List, [], ◌∷◌, ◌++◌, Option, none, some, Text, Bytes, codes,
  length,
}
use chirpstack_udp_forwarder.Prelude.Int.{ℤ, pos, negsuc, neg, wrap}
use chirpstack_udp_forwarder.Prelude.Outcome.{Outcome, ok, err, or_fail, unwrap, ◌>>=◌}
use chirpstack_udp_forwarder.Bytes.{u32_of_slice}
use chirpstack_udp_forwarder.External.{External, Json, null, int, str, obj, Fields, end, field}
use chirpstack_udp_forwarder.Gw
use chirpstack_udp_forwarder.Structs.TimeFormats.{serialize_compact}
use chirpstack_udp_forwarder.Structs.Types.{
  Value, Crc, crc_ok, crc_invalid, crc_missing, Modulation, lora, fsk, DataRate, lora_rate,
  fsk_rate, CodeRate, undefined, lora4_5, lora4_6, lora4_7, lora4_8, serialize_crc,
  serialize_modulation, serialize_data_rate, serialize_code_rate,
}
use chirpstack_udp_forwarder.Structs.Error.{
  Error, Result, no_rx_info, no_tx_info, no_modulation, no_parameters, unsupported_modulation,
}

module _ (X : External) where
  -- `data` is called `payload` here.
  pub record RxPk : Type 0 where
    pub time : X.DateTime
    pub tmms : Option ℕ
    pub tmst : ℕ
    pub freq : X.F64
    pub chan : ℕ
    pub rfch : ℕ
    pub stat : Crc
    pub modu : Modulation
    pub datr : DataRate
    pub codr : Option CodeRate
    pub rssi : ℤ
    pub lsnr : Option X.F32
    pub size : ℕ
    pub payload : Text

-- `v.seconds * 1000` of an i64; the cast to u64 that follows takes it modulo 2 ^ 64.
times_1000 : ℤ → ℤ
times_1000 (pos n) = pos (n * 1000)
times_1000 (negsuc n) = negsuc (n * 1000 + 999)

-- `v.nanos / 1000000` of an i32, towards zero
nanos_to_ms : ℤ → ℤ
nanos_to_ms (pos n) = pos (n / 1000000)
nanos_to_ms (negsuc n) = neg (suc n / 1000000)

-- The additions wrap in a release build.
unfoldable pub duration_to_ms : Gw.Duration → ℕ
unfolding times_1000 nanos_to_ms
duration_to_ms v = (wrap 64 (times_1000 v.seconds) + wrap 64 (nanos_to_ms v.nanos)) % 2 ^ 64

unfoldable pub crc_of : Gw.CrcStatus → Crc
crc_of Gw.crc_ok = crc_ok
crc_of Gw.bad_crc = crc_invalid
crc_of Gw.no_crc = crc_missing

modu_of_parameters : Option Gw.Parameters → Result Modulation
modu_of_parameters (some (Gw.lora _)) = ok lora
modu_of_parameters (some (Gw.fsk _)) = ok fsk
modu_of_parameters (some Gw.lr_fhss) = err unsupported_modulation
modu_of_parameters none = err no_parameters

unfoldable pub modu_of : Option Gw.Modulation → Result Modulation
unfolding modu_of_parameters
modu_of (some v) = modu_of_parameters v.parameters
modu_of none = err no_modulation

datr_of_parameters : Option Gw.Parameters → Result DataRate
datr_of_parameters (some (Gw.lora v)) = ok (lora_rate v.spreading_factor v.bandwidth)
datr_of_parameters (some (Gw.fsk v)) = ok (fsk_rate v.datarate)
datr_of_parameters (some Gw.lr_fhss) = err unsupported_modulation
datr_of_parameters none = err no_parameters

unfoldable pub datr_of : Option Gw.Modulation → Result DataRate
unfolding datr_of_parameters
datr_of (some v) = datr_of_parameters v.parameters
datr_of none = err no_modulation

unfoldable pub code_rate_of : Gw.CodeRate → CodeRate
code_rate_of Gw.cr45 = lora4_5
code_rate_of Gw.cr46 = lora4_6
code_rate_of Gw.cr47 = lora4_7
code_rate_of Gw.cr48 = lora4_8
code_rate_of _ = undefined

codr_of_parameters : Option Gw.Parameters → Option CodeRate
codr_of_parameters (some (Gw.lora v)) = some (code_rate_of v.code_rate)
codr_of_parameters _ = none

unfoldable pub codr_of : Option Gw.Modulation → Option CodeRate
unfolding codr_of_parameters code_rate_of
codr_of (some v) = codr_of_parameters v.parameters
codr_of none = none

module _ (X : External) where
  lsnr_of_parameters : X.F32 → Option Gw.Parameters → Option X.F32
  lsnr_of_parameters snr (some (Gw.lora v)) = some snr
  lsnr_of_parameters snr _ = none

  unfoldable pub lsnr_of : X.F32 → Option Gw.Modulation → Option X.F32
  unfolding lsnr_of_parameters
  lsnr_of snr (some v) = lsnr_of_parameters snr v.parameters
  lsnr_of snr none = none

  -- `now` is what `Utc::now()` gives. A time outside chrono's range panics in `v.into()`.
  unfoldable pub time_of : X.DateTime → Option X.Timestamp → Result X.DateTime
  time_of now none = ok now
  time_of now (some v) = elim (X.to_system_time v) [
    | none ↦ ok now
    | some t ↦ unwrap (X.to_date_time t)
  ]

  -- The fields are computed in their order, so a time or a context panics before a
  -- modulation is refused.
  unfoldable pub from_proto : X.DateTime → Gw.UplinkFrame X → Result (RxPk X)
  unfolding time_of duration_to_ms crc_of modu_of datr_of codr_of lsnr_of
  from_proto now up = do
    rx_info ← or_fail up.rx_info no_rx_info
    tx_info ← or_fail up.tx_info no_tx_info
    time ← time_of now rx_info.gw_time
    tmst ← u32_of_slice rx_info.context
    modu ← modu_of tx_info.modulation
    datr ← datr_of tx_info.modulation
    ok (record {
      time = time;
      tmms = elim rx_info.time_since_gps_epoch [ none ↦ none | some v ↦ some (duration_to_ms v) ];
      tmst = tmst;
      freq = X.f64_div (X.f64_of_u32 tx_info.frequency) (X.f64_of_u32 1000000);
      chan = rx_info.channel;
      rfch = rx_info.rf_chain;
      stat = crc_of rx_info.crc_status;
      modu = modu;
      datr = datr;
      codr = codr_of tx_info.modulation;
      rssi = rx_info.rssi;
      lsnr = lsnr_of rx_info.snr tx_info.modulation;
      size = length up.phy_payload % 256;
      payload = X.base64_encode up.phy_payload;
    })

  -- `#[serde(skip_serializing_if = "Option::is_none")]`
  abbrev pub optional_field :
      {A : Type 0} → Text → (A → Value X) → Option A → Fields X.F64 X.F32 → Fields X.F64 X.F32
  optional_field name print none rest = rest
  optional_field name print (some a) rest = field name (print a) rest

  -- The derived `Serialize`: the fields under their names, in the order of the struct.
  unfoldable pub serialize_rxpk : RxPk X → Value X
  serialize_rxpk p = obj (
      field (codes "time") (serialize_compact X p.time) (
        optional_field (codes "tmms") (λ n. int (pos n)) p.tmms
          (field (codes "tmst") (int (pos p.tmst)) (
            field (codes "freq") (Json.f64 p.freq) (
              field (codes "chan") (int (pos p.chan)) (
                field (codes "rfch") (int (pos p.rfch)) (
                  field (codes "stat") (serialize_crc X p.stat) (
                    field (codes "modu") (serialize_modulation X p.modu) (
                      field (codes "datr") (serialize_data_rate X p.datr) (
                        optional_field (codes "codr") (serialize_code_rate X) p.codr (
                          field (codes "rssi") (int p.rssi) (
                            optional_field (codes "lsnr") (λ x. Json.f32 x) p.lsnr
                              (field (codes "size") (int (pos p.size))
                                (field (codes "data") (str p.payload) end))))))))))))))
