-- ===== src/External.antt =====
-- What src/structs.rs, src/forwarder.rs and src/helpers.rs call and do not implement: floats, time,
-- base64, hex, serde_json, prost and the ZeroMQ request socket. Each is an unknown operation here.
mod Value
pub use Value.*
use chirpstack_udp_forwarder.Prelude.{ℕ, Bool, true, false, ◌≡◌, Option, none, some, Bytes, Text}
use chirpstack_udp_forwarder.Prelude.Int.{ℤ}

pub record External : Type 1 where
  -- f64 and f32, with `as` between them and u32
  pub F64 : Type 0
  pub F32 : Type 0
  pub f64_of_u32 : ℕ → F64
  pub f64_div : F64 → F64 → F64
  pub f64_mul : F64 → F64 → F64
  pub u32_of_f64 : F64 → ℕ
  pub f32_of_u32 : ℕ → F32
  pub f32_div : F32 → F32 → F32
  pub f32_mul : F32 → F32 → F32
  -- prost_types::Timestamp, with its `try_into`, std's SystemTime, and chrono's DateTime<Utc> with
  -- its `from` of a SystemTime, which panics (`none`) outside chrono's range, and the text of
  -- `date.format(FORMAT)`
  pub Timestamp : Type 0
  pub SystemTime : Type 0
  pub DateTime : Type 0
  pub to_system_time : Timestamp → Option SystemTime
  pub to_date_time : SystemTime → Option DateTime
  pub format : DateTime → Text → Text
  -- prost_types::Duration (seconds and nanoseconds) of a std Duration (likewise)
  pub to_prost_duration : ℕ → ℕ → Option (ℤ × ℤ)
  -- base64::general_purpose::STANDARD and hex
  pub base64_encode : Bytes → Text
  pub base64_decode : Text → Option Bytes
  pub hex_encode : Bytes → Text
  pub hex_decode : Text → Option Bytes
  -- serde_json, and serde's readers of the primitive types (`none` is a serde error). `from_slice`
  -- hands the text to the readers as far as it can be parsed: `none` if no value begins there, a
  -- value that may be `cut` where the text goes wrong, and whether only white space follows it.
  pub json_to_vec : Json F64 F32 → Option Bytes
  pub json_from_slice : Bytes → Option (Json F64 F32 × Bool)
  pub read_bool : Json F64 F32 → Option Bool
  pub read_u8 : Json F64 F32 → Option ℕ
  pub read_u32 : Json F64 F32 → Option ℕ
  pub read_u64 : Json F64 F32 → Option ℕ
  pub read_f64 : Json F64 F32 → Option F64
  -- `char::is_alphabetic` above ASCII
  pub alphabetic_beyond_ascii : ℕ → Bool

-- base64 decodes what it encoded.
pub record IsBase64 (X : External) : Type 0 where
  pub decode-encode : (b : Bytes) → X.base64_decode (X.base64_encode b) ≡ some b
