-- ===== src/Structs/Types/RoundTrip.antt =====
-- What a peer reads back from the data rate, modulation and code rate that the forwarder prints.
use chirpstack_udp_forwarder.Prelude.{
  ℕ, ◌*◌, ◌/◌, ◌^◌, ◌<◌, [], ◌∷◌, ◌++◌, false, ◌≡◌, ◌≢◌, refl, arith, codes,
}
use chirpstack_udp_forwarder.Prelude.Outcome.{ok, err}
use chirpstack_udp_forwarder.External.{External}
use chirpstack_udp_forwarder.Structs.Decimal.{format_u32, split}
use chirpstack_udp_forwarder.Structs.Decimal.RoundTrip.{
  IsDigit, parse_u32-format_u32, format_u32-IsDigit, split-digits, split-digits_end,
}
use chirpstack_udp_forwarder.Structs.Types.{
  DataRate, lora_rate, fsk_rate, CodeRate, undefined, lora4_5, lora4_6, lora4_7, lora4_8,
  Modulation, lora, fsk, invalid_type, serialize_data_rate, deserialize_data_rate,
  serialize_code_rate, deserialize_code_rate, serialize_modulation, deserialize_modulation,
  is_alphabetic,
}

module _ (X : External) where
  digit_is_no_separator : (c : ℕ) → IsDigit c → is_alphabetic X c ≡ false
  unfolding is_alphabetic
  digit_is_no_separator c h = ground arith

  -- The pieces of a printed LoRa data rate.
  split-serialize :
      (sf bw : ℕ)
      → split (is_alphabetic X) (codes "SF" ++ (format_u32 sf ++ (codes "BW" ++ format_u32 bw)))
        ≡ [] ∷ [] ∷ format_u32 sf ∷ [] ∷ format_u32 bw ∷ []
  unfolding split is_alphabetic
  split-serialize sf bw = rw (
    split-digits (is_alphabetic X) digit_is_no_separator (format_u32 sf) b'B'
        (codes "W" ++ format_u32 bw) (format_u32-IsDigit sf) refl,
    split-digits_end (is_alphabetic X) digit_is_no_separator (format_u32 bw)
        (format_u32-IsDigit bw),
  )

  -- The bandwidth of a LoRa rate in whole kHz.
  abbrev pub to_khz : DataRate → DataRate
  to_khz (lora_rate sf bw) = lora_rate sf (bw / 1000 * 1000)
  to_khz (fsk_rate br) = fsk_rate br

  -- u32 fields
  abbrev pub FitsU32 : DataRate → Type 0
  FitsU32 (lora_rate sf bw) = (sf < 2 ^ 32) × (bw < 2 ^ 32)
  FitsU32 (fsk_rate br) = br < 2 ^ 32

  -- A data rate of u32 fields that is serialized and deserialized comes back with its bandwidth
  -- rounded down to whole kHz, and a bit rate unchanged; there is no error and no panic.
  pub deserialize-serialize_data_rate :
      (d : DataRate) → FitsU32 d → deserialize_data_rate X (serialize_data_rate X d) ≡ ok (to_khz d)
  unfolding deserialize_data_rate serialize_data_rate
  deserialize-serialize_data_rate (lora_rate sf bw) h =
      rw
        (
          split-serialize sf (bw / 1000),
          parse_u32-format_u32 sf h.0,
          parse_u32-format_u32 (bw / 1000) (omega arith),
        )
        (ground arith)
  deserialize-serialize_data_rate (fsk_rate br) h = ground arith

  -- Of two LoRa rates of u32 fields, a peer sees the same text only if the spreading factors are
  -- equal and the bandwidths lie in the same kHz.
  pub serialize_data_rate_injective :
      (d e : DataRate)
      → FitsU32 d
      → FitsU32 e
      → serialize_data_rate X d ≡ serialize_data_rate X e
      → to_khz d ≡ to_khz e
  serialize_data_rate_injective d e hd he p =
      cc (deserialize-serialize_data_rate d hd, deserialize-serialize_data_rate e he)

  -- Every modulation, and every code rate but `undefined`, is read back as it was printed;
  -- `undefined` is printed as null, which the reader of code rates refuses.
  pub deserialize-serialize_enums :
      ((m : Modulation) → deserialize_modulation X (serialize_modulation X m) ≡ ok m)
      × ((c : CodeRate) → c ≢ undefined → deserialize_code_rate X (serialize_code_rate X c) ≡ ok c)
      × (deserialize_code_rate X (serialize_code_rate X undefined) ≡ err invalid_type)
  unfolding deserialize_modulation deserialize_code_rate serialize_modulation serialize_code_rate
  deserialize-serialize_enums = (modulations, code_rates, refl)
    where
      modulations : (m : Modulation) → deserialize_modulation X (serialize_modulation X m) ≡ ok m
      modulations lora = refl
      modulations fsk = refl

      code_rates :
          (c : CodeRate) → c ≢ undefined → deserialize_code_rate X (serialize_code_rate X c) ≡ ok c
      code_rates undefined h = absurd (h refl)
      code_rates lora4_5 h = refl
      code_rates lora4_6 h = refl
      code_rates lora4_7 h = refl
      code_rates lora4_8 h = refl
