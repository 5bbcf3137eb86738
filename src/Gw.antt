-- ===== src/Gw.antt =====
-- The protobuf messages of chirpstack_api::gw that src/structs.rs and src/forwarder.rs read and
-- build, with the fields that they name. A field that is read through prost's getter of an
-- enumeration holds the getter's result.
use chirpstack_udp_forwarder.Prelude.{ℕ, Bool, List, Option, Bytes, Text}
use chirpstack_udp_forwarder.Prelude.Int.{ℤ}
use chirpstack_udp_forwarder.External.{External}

pub data CrcStatus : Type 0 where
  crc_ok bad_crc no_crc : CrcStatus

-- `other_rate` is every rate that the forwarder does not name.
pub data CodeRate : Type 0 where
  cr_undefined cr45 cr46 cr47 cr48 : CodeRate
  other_rate : ℕ → CodeRate

pub record LoraModulationInfo : Type 0 where
  pub bandwidth : ℕ
  pub spreading_factor : ℕ
  pub code_rate : CodeRate
  pub polarization_inversion : Bool
  pub preamble : ℕ
  pub no_crc : Bool
  pub code_rate_legacy : Text

pub record FskModulationInfo : Type 0 where
  pub datarate : ℕ
  pub frequency_deviation : ℕ

-- modulation::Parameters; nothing is read of an LR-FHSS modulation
pub data Parameters : Type 0 where
  lora : LoraModulationInfo → Parameters
  fsk : FskModulationInfo → Parameters
  lr_fhss : Parameters

pub record Modulation : Type 0 where
  pub parameters : Option Parameters

-- prost_types::Duration: i64 seconds and i32 nanoseconds
pub record Duration : Type 0 where
  pub seconds : ℤ
  pub nanos : ℤ

module _ (X : External) where
  pub record UplinkRxInfo : Type 0 where
    pub gw_time : Option X.Timestamp
    pub time_since_gps_epoch : Option Duration
    pub rssi : ℤ
    pub snr : X.F32
    pub channel : ℕ
    pub rf_chain : ℕ
    pub context : Bytes
    pub crc_status : CrcStatus

pub record UplinkTxInfo : Type 0 where
  pub frequency : ℕ
  pub modulation : Option Modulation

module _ (X : External) where
  pub record UplinkFrame : Type 0 where
    pub phy_payload : Bytes
    pub tx_info : Option UplinkTxInfo
    pub rx_info : Option (UplinkRxInfo X)

  pub record Location : Type 0 where
    pub latitude : X.F64
    pub longitude : X.F64
    pub altitude : X.F64

module _ (X : External) where
  pub record GatewayStats : Type 0 where
    pub time : Option X.Timestamp
    pub location : Option (Location X)
    pub rx_packets_received : ℕ
    pub rx_packets_received_ok : ℕ
    pub tx_packets_received : ℕ
    pub tx_packets_emitted : ℕ

  -- The events that the forwarder tells apart.
  pub data Event : Type 0 where
    uplink_frame : UplinkFrame X → Event
    gateway_stats : GatewayStats → Event
    other_event : Event

-- timing::Parameters
pub data Timing : Type 0 where
  immediately : Timing
  delay : Duration → Timing
  gps_epoch : Duration → Timing

pub record DownlinkTxInfo : Type 0 where
  pub frequency : ℕ
  pub power : ℕ
  pub modulation : Modulation
  pub board : ℕ
  pub antenna : ℕ
  pub timing : Timing
  pub context : Bytes

pub record DownlinkFrameItem : Type 0 where
  pub tx_info : DownlinkTxInfo
  pub phy_payload : Bytes

pub record DownlinkFrame : Type 0 where
  pub downlink_id : ℕ
  pub gateway_id : Text
  pub items : List DownlinkFrameItem

pub data Command : Type 0 where
  send_downlink_frame : DownlinkFrame → Command
  get_gateway_id : Command

pub data TxAckStatus : Type 0 where
  ignored ok too_late too_early collision_packet : TxAckStatus
  collision_beacon tx_freq tx_power gps_unlocked : TxAckStatus
  queue_full internal_error duty_cycle_overflow : TxAckStatus

-- The statuses of the items of a DownlinkTxAck.
pub record DownlinkTxAck : Type 0 where
  pub items : List TxAckStatus
