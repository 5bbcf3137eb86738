-- ===== src/Structs/Types.antt =====
-- The enumerations of src/structs.rs with their `Serialize` and `Deserialize` impls.
pub mod RoundTrip
use chirpstack_udp_forwarder.Prelude.{
  ℕ, ◌*◌, ◌/◌, ◌%◌, ◌^◌, List, [], ◌∷◌, ◌++◌, Option, none, some, Text, leb, ltb, Bool, ◌&&◌, ◌||◌,
  if◌then◌else◌, codes, text_eq,
}
use chirpstack_udp_forwarder.Prelude.Int.{ℤ, pos, negsuc}
use chirpstack_udp_forwarder.Prelude.Outcome.{Outcome, ok, err, panic, or_fail, unwrap, ◌>>=◌}
use chirpstack_udp_forwarder.External.{External, Json, null, int, str}
use chirpstack_udp_forwarder.Structs.Decimal.{format_u32, parse_u32, split}

pub data Crc : Type 0 where
  crc_ok crc_invalid crc_missing : Crc

pub data Modulation : Type 0 where
  lora fsk : Modulation

-- Spreading factor and bandwidth in Hz, or bit rate.
pub data DataRate : Type 0 where
  lora_rate : ℕ → ℕ → DataRate
  fsk_rate : ℕ → DataRate

pub data CodeRate : Type 0 where
  undefined lora4_5 lora4_6 lora4_7 lora4_8 : CodeRate

-- `D::Error::custom`, and serde's own errors.
pub data SerdeError : Type 0 where
  unexpected_value : SerdeError
  invalid_datarate_string parse_sf_error parse_bw_error unexpected_type : SerdeError
  invalid_type invalid_length missing_field duplicate_field syntax : SerdeError

module _ (X : External) where
  abbrev pub Value : Type 0
  Value = Json X.F64 X.F32

  abbrev pub De : Type 0 → Type 0
  De A = Outcome SerdeError A

  unfoldable pub serialize_crc : Crc → Value
  serialize_crc crc_ok = int (pos 1)
  serialize_crc crc_invalid = int (negsuc 0)
  serialize_crc crc_missing = int (pos 0)

  unfoldable pub serialize_modulation : Modulation → Value
  serialize_modulation lora = str (codes "LORA")
  serialize_modulation fsk = str (codes "FSK")

  -- `String::deserialize`: any other type is an error.
  unfoldable pub read_string : Value → De Text
  read_string (str s) = ok s
  read_string _ = err invalid_type

  unfoldable pub deserialize_modulation : Value → De Modulation
  unfolding read_string text_eq
  deserialize_modulation v = do
    s ← read_string v
    if text_eq s (codes "LORA")
        then ok lora
        else if text_eq s (codes "FSK")
        then ok fsk
        else err unexpected_value

  unfoldable pub serialize_data_rate : DataRate → Value
  serialize_data_rate (lora_rate sf bw) =
      str (codes "SF" ++ (format_u32 sf ++ (codes "BW" ++ format_u32 (bw / 1000))))
  serialize_data_rate (fsk_rate bitrate) = int (pos bitrate)

  -- `char::is_alphabetic`
  unfoldable pub is_alphabetic : ℕ → Bool
  is_alphabetic c =
      if ltb c 128
      then leb b'A' c && leb c b'Z' || leb b'a' c && leb c b'z'
      else X.alphabetic_beyond_ascii c

  -- The five pieces of "SF7BW125": two empty ones, the spreading factor, an empty one, the
  -- bandwidth in kHz. `bw * 1000` wraps in a release build.
  unfoldable pub data_rate_of_pieces : List Text → De DataRate
  data_rate_of_pieces (_ ∷ _ ∷ s2 ∷ _ ∷ s4 ∷ []) = do
    sf ← or_fail (parse_u32 s2) parse_sf_error
    bw ← or_fail (parse_u32 s4) parse_bw_error
    ok (lora_rate sf (bw * 1000 % 2 ^ 32))
  data_rate_of_pieces _ = err invalid_datarate_string

  -- `v.as_u64().unwrap()` panics on a negative number and on a float.
  unfoldable pub deserialize_data_rate : Value → De DataRate
  unfolding data_rate_of_pieces
  deserialize_data_rate (str v) = data_rate_of_pieces (split is_alphabetic v)
  deserialize_data_rate (int (pos br)) = ok (fsk_rate (br % 2 ^ 32))
  deserialize_data_rate (int (negsuc n)) = panic
  deserialize_data_rate (Json.f64 x) = panic
  deserialize_data_rate _ = err unexpected_type

  unfoldable pub serialize_code_rate : CodeRate → Value
  serialize_code_rate lora4_5 = str (codes "4/5")
  serialize_code_rate lora4_6 = str (codes "4/6")
  serialize_code_rate lora4_7 = str (codes "4/7")
  serialize_code_rate lora4_8 = str (codes "4/8")
  serialize_code_rate undefined = null

  unfoldable pub deserialize_code_rate : Value → De CodeRate
  unfolding read_string text_eq
  deserialize_code_rate v = do
    s ← read_string v
    if text_eq s (codes "4/5")
        then ok lora4_5
        else if text_eq s (codes "4/6")
        then ok lora4_6
        else if text_eq s (codes "4/7")
        then ok lora4_7
        else if text_eq s (codes "4/8")
        then ok lora4_8
        else ok undefined
