-- ===== src/Forwarder/State.antt =====
-- `struct State` of src/forwarder.rs and its methods. Each method takes one mutex for its whole
-- body, so it is one step; a drawn random number is an argument. The sockets stand in `World`.
use chirpstack_udp_forwarder.Prelude.{ℕ, ◌+◌, ◌%◌, ◌^◌, Bool, Text, Bytes, ◌==◌, if◌then◌else◌}
use chirpstack_udp_forwarder.Config.{Server}

pub record State : Type 0 where
  pub server : Text
  pub keepalive_interval : ℕ
  pub forward_crc_ok : Bool
  pub forward_crc_invalid : Bool
  pub forward_crc_missing : Bool
  pub keepalive_max_failures : ℕ
  pub gateway_id : Bytes
  pub push_data_token : ℕ
  pub push_data_sent : ℕ
  pub push_data_acked : ℕ
  pub pull_data_token : ℕ
  pub pull_data_token_acked : ℕ
  pub rxfw : ℕ

-- The state that `start` builds. The interval is in seconds.
unfoldable pub new_state : Server → Bytes → State
new_state conf gateway_id = record {
  server = conf.server;
  keepalive_interval =
      if conf.keepalive_interval_secs == 0 then 5 else conf.keepalive_interval_secs;
  forward_crc_ok = conf.forward_crc_ok;
  forward_crc_invalid = conf.forward_crc_invalid;
  forward_crc_missing = conf.forward_crc_missing;
  keepalive_max_failures = conf.keepalive_max_failures;
  gateway_id = gateway_id;
  push_data_token = 0;
  push_data_sent = 0;
  push_data_acked = 0;
  pull_data_token = 0;
  pull_data_token_acked = 0;
  rxfw = 0;
}

-- u32 `+= 1`, which wraps in a release build.
abbrev pub incr_u32 : ℕ → ℕ
incr_u32 n = (n + 1) % 2 ^ 32

abbrev pub set_pull_data_token : ℕ → State → State
set_pull_data_token random s = record s { pull_data_token = random }

abbrev pub set_pull_data_token_acked : ℕ → State → State
set_pull_data_token_acked t s = record s { pull_data_token_acked = t }

abbrev pub set_push_data_token : ℕ → State → State
set_push_data_token random s = record s { push_data_token = random }

abbrev pub incr_push_data_sent : State → State
incr_push_data_sent s = record s { push_data_sent = incr_u32 s.push_data_sent }

abbrev pub get_and_reset_push_data_sent : State → ℕ × State
get_and_reset_push_data_sent s = (s.push_data_sent, record s { push_data_sent = 0 })

abbrev pub incr_push_data_acked : State → State
incr_push_data_acked s = record s { push_data_acked = incr_u32 s.push_data_acked }

abbrev pub get_and_reset_push_data_acked : State → ℕ × State
get_and_reset_push_data_acked s = (s.push_data_acked, record s { push_data_acked = 0 })

abbrev pub incr_rxfw : State → State
incr_rxfw s = record s { rxfw = incr_u32 s.rxfw }

abbrev pub get_and_reset_rxfw : State → ℕ × State
get_and_reset_rxfw s = (s.rxfw, record s { rxfw = 0 })
