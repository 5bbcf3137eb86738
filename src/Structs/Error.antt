-- ===== src/Structs/Error.antt =====
-- The errors of the conversions in src/structs.rs (`anyhow!` messages), and `Result` over them.
use chirpstack_udp_forwarder.Prelude.{ℕ}
use chirpstack_udp_forwarder.Prelude.Outcome.{Outcome}
use chirpstack_udp_forwarder.Structs.Types.{SerdeError}

pub data Error : Type 0 where
  no_rx_info no_tx_info no_modulation no_parameters unsupported_modulation : Error
  expected_4_bytes expected_at_least_5_bytes bad_protocol_version bad_identifier : ℕ → Error
  invalid_json : Error
  serde : SerdeError → Error
  lora_data_rate_expected fsk_data_rate_expected no_timing duration_range base64 : Error

abbrev pub Result : Type 0 → Type 0
Result A = Outcome Error A
