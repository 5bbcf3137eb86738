-- ===== src/Structs/RxPk/Laws.antt =====
-- When an uplink frame becomes an `rxpk` object, when the conversion panics, and what the object
-- says of the frame.
use chirpstack_udp_forwarder.Prelude.{
  ℕ, ◌%◌, ◌≡◌, ◌≢◌, ◌↔◌, ◌⊎◌, inl, inr, Bool, true, false, Option, none, some, refl, sym, ◌∙◌,
  length, All, Option-cases,
}
use mathlib.Core.Path.{subst}
use chirpstack_udp_forwarder.Prelude.Outcome.{ok, err, panic, ok_injective}
use chirpstack_udp_forwarder.Bytes.{u32_of_slice_cases, to_be_bytes_u32, IsByte}
use chirpstack_udp_forwarder.External.{External}
use chirpstack_udp_forwarder.Gw
use chirpstack_udp_forwarder.Structs.Types.{
  Modulation, lora, fsk, DataRate, lora_rate, fsk_rate, CodeRate, undefined, lora4_5, lora4_6,
  lora4_7, lora4_8, Crc, crc_ok, crc_invalid, crc_missing,
}
use chirpstack_udp_forwarder.Structs.Error.{Error, no_rx_info, no_tx_info}
use chirpstack_udp_forwarder.Structs.Times.{IsOutOfRange, IsTime, time_of-cases}
use chirpstack_udp_forwarder.Structs.RxPk.{
  RxPk, from_proto, modu_of, datr_of, codr_of, lsnr_of, code_rate_of, duration_to_ms, crc_of,
}

-- LoRa or FSK parameters.
abbrev pub supported_parameters : Option Gw.Parameters → Bool
supported_parameters (some (Gw.lora _)) = true
supported_parameters (some (Gw.fsk _)) = true
supported_parameters _ = false

abbrev pub supported : Option Gw.Modulation → Bool
supported none = false
supported (some m) = supported_parameters m.parameters

module _ (X : External) where
  -- The frame has both information records, with these contents.
  pub record HasInfo (up : Gw.UplinkFrame X) : Type 0 where
    pub rx : Gw.UplinkRxInfo X
    pub tx : Gw.UplinkTxInfo
    pub has_rx : up.rx_info ≡ some rx
    pub has_tx : up.tx_info ≡ some tx

-- The code rates and the CRC statuses that stand for each other.
abbrev pub SameRate : Gw.CodeRate → CodeRate → Type 0
SameRate Gw.cr45 r = r ≡ lora4_5
SameRate Gw.cr46 r = r ≡ lora4_6
SameRate Gw.cr47 r = r ≡ lora4_7
SameRate Gw.cr48 r = r ≡ lora4_8
SameRate _ r = r ≡ undefined

abbrev pub SameCrc : Gw.CrcStatus → Crc → Type 0
SameCrc Gw.crc_ok c = c ≡ crc_ok
SameCrc Gw.bad_crc c = c ≡ crc_invalid
SameCrc Gw.no_crc c = c ≡ crc_missing

crc_of-SameCrc : (c : Gw.CrcStatus) → SameCrc c (crc_of c)
unfolding crc_of
crc_of-SameCrc Gw.crc_ok = refl
crc_of-SameCrc Gw.bad_crc = refl
crc_of-SameCrc Gw.no_crc = refl

code_rate_of-SameRate : (c : Gw.CodeRate) → SameRate c (code_rate_of c)
unfolding code_rate_of
code_rate_of-SameRate Gw.cr45 = refl
code_rate_of-SameRate Gw.cr46 = refl
code_rate_of-SameRate Gw.cr47 = refl
code_rate_of-SameRate Gw.cr48 = refl
code_rate_of-SameRate Gw.cr_undefined = refl
code_rate_of-SameRate (Gw.other_rate n) = refl

-- What the four fields that stand for the modulation say of its parameters.
abbrev pub Describes :
    {A : Type 0}
    → Option Gw.Parameters
    → A
    → Modulation
    → DataRate
    → Option CodeRate
    → Option A
    → Type 0
Describes (some (Gw.lora v)) snr modu datr codr lsnr =
    (modu ≡ lora)
    × (datr ≡ lora_rate v.spreading_factor v.bandwidth)
    × ((r : CodeRate) × (codr ≡ some r) × SameRate v.code_rate r)
    × (lsnr ≡ some snr)
Describes (some (Gw.fsk v)) snr modu datr codr lsnr =
    (modu ≡ fsk) × (datr ≡ fsk_rate v.datarate) × (codr ≡ none) × (lsnr ≡ none)
Describes _ snr modu datr codr lsnr = ⊥

abbrev pub DescribesModulation :
    {A : Type 0}
    → Option Gw.Modulation
    → A
    → Modulation
    → DataRate
    → Option CodeRate
    → Option A
    → Type 0
DescribesModulation none snr modu datr codr lsnr = ⊥
DescribesModulation (some m) snr modu datr codr lsnr =
    Describes m.parameters snr modu datr codr lsnr

module _ (X : External) (snr : X.F32) where
  parameters_cases :
      (o : Option Gw.Parameters)
      → ((supported_parameters o ≡ true)
          × (m : Modulation) × (d : DataRate) × (modu_of (some (record { parameters = o })) ≡ ok m)
          × (datr_of (some (record { parameters = o })) ≡ ok d)
          × Describes o snr m d
              (codr_of (some (record { parameters = o })))
              (lsnr_of X snr (some (record { parameters = o }))))
        ⊎ ((supported_parameters o ≡ false)
            × (e : Error) × (modu_of (some (record { parameters = o })) ≡ err e))
  unfolding modu_of datr_of codr_of lsnr_of
  parameters_cases none = inr (refl, _, refl)
  parameters_cases (some (Gw.lora v)) = inl (
    refl,
    _,
    _,
    refl,
    refl,
    (refl, refl, (code_rate_of v.code_rate, refl, code_rate_of-SameRate v.code_rate), refl),
  )
  parameters_cases (some (Gw.fsk v)) = inl (refl, _, _, refl, refl, (refl, refl, refl, refl))
  parameters_cases (some Gw.lr_fhss) = inr (refl, _, refl)

  modulation_cases :
      (o : Option Gw.Modulation)
      → ((supported o ≡ true)
          × (m : Modulation) × (d : DataRate) × (modu_of o ≡ ok m)
          × (datr_of o ≡ ok d)
          × DescribesModulation o snr m d (codr_of o) (lsnr_of X snr o))
        ⊎ ((supported o ≡ false) × (e : Error) × (modu_of o ≡ err e))
  unfolding modu_of
  modulation_cases none = inr (refl, _, refl)
  modulation_cases (some m) = parameters_cases m.parameters

module _ (X : External) (up : Gw.UplinkFrame X) where
  -- Neither the time nor the context makes the conversion panic.
  abbrev pub Convertible : HasInfo X up → Type 0
  Convertible i = (IsOutOfRange X i.rx.gw_time → ⊥) × (length i.rx.context ≡ 4)

module _ (X : External) (now : X.DateTime) (up : Gw.UplinkFrame X) where
  -- What an `rxpk` object says of the frame.
  pub record IsReport (i : HasInfo X up) (p : RxPk X) : Type 0 where
    pub time : IsTime X now i.rx.gw_time p.time
    pub crc : SameCrc i.rx.crc_status p.stat
    pub frequency : p.freq ≡ X.f64_div (X.f64_of_u32 i.tx.frequency) (X.f64_of_u32 1000000)
    pub modulation : DescribesModulation i.tx.modulation i.rx.snr p.modu p.datr p.codr p.lsnr
    pub timestamp : All IsByte i.rx.context → to_be_bytes_u32 p.tmst ≡ i.rx.context
    pub gps_time :
        p.tmms ≡ elim i.rx.time_since_gps_epoch [ none ↦ none | some v ↦ some (duration_to_ms v) ]
    pub payload : p.payload ≡ X.base64_encode up.phy_payload
    pub size : p.size ≡ length up.phy_payload % 256
    pub channels : (p.chan ≡ i.rx.channel) × (p.rfch ≡ i.rx.rf_chain) × (p.rssi ≡ i.rx.rssi)

  report : HasInfo X up → X.DateTime → ℕ → Modulation → DataRate → RxPk X
  unfolding from_proto
  report i time tmst m d = record {
    time = time;
    tmms = elim i.rx.time_since_gps_epoch [ none ↦ none | some v ↦ some (duration_to_ms v) ];
    tmst = tmst;
    freq = X.f64_div (X.f64_of_u32 i.tx.frequency) (X.f64_of_u32 1000000);
    chan = i.rx.channel;
    rfch = i.rx.rf_chain;
    stat = crc_of i.rx.crc_status;
    modu = m;
    datr = d;
    codr = codr_of i.tx.modulation;
    rssi = i.rx.rssi;
    lsnr = lsnr_of X i.rx.snr i.tx.modulation;
    size = length up.phy_payload % 256;
    payload = X.base64_encode up.phy_payload;
  }

  -- With both information records the outcome is decided by the time, the context's length and the
  -- modulation.
  from_proto_decided :
      (i : HasInfo X up)
      → (Convertible X up i
          × (supported i.tx.modulation ≡ true)
          × (p : RxPk X) × (from_proto X now up ≡ ok p)
          × IsReport i p)
        ⊎ (Convertible X up i
            × (supported i.tx.modulation ≡ false)
            × (e : Error) × (from_proto X now up ≡ err e))
        ⊎ ((IsOutOfRange X i.rx.gw_time ⊎ (length i.rx.context ≢ 4))
            × (from_proto X now up ≡ panic))
  unfolding from_proto report
  from_proto_decided i = elim (time_of-cases X now i.rx.gw_time) [
    | inl (out, z) ↦ inr (inr (inl out, rw (i.has_rx, i.has_tx, z)))
    | inr (within, time, z, known) ↦ elim (u32_of_slice_cases {E = Error} i.rx.context) [
      | inr (l, e) ↦ inr (inr (inr l, rw (i.has_rx, i.has_tx, z, e)))
      | inl (l, n, e, t) ↦ elim (modulation_cases X i.rx.snr i.tx.modulation) [
        | inr (s, e', q) ↦ inr (inl ((within, l), s, e', rw (i.has_rx, i.has_tx, z, e, q)))
        | inl (s, m, d, q, r, h) ↦ inl (
          (within, l),
          s,
          report i time n m d,
          rw (i.has_rx, i.has_tx, z, e, q, r),
          record {
            time = known;
            crc = crc_of-SameCrc i.rx.crc_status;
            frequency = refl;
            modulation = h;
            timestamp = t;
            gps_time = refl;
            payload = refl;
            size = refl;
            channels = (refl, refl, refl);
          },
        )
      ]
    ]
  ]

  from_proto_without_info : HasInfo X up ⊎ ((e : Error) × (from_proto X now up ≡ err e))
  unfolding from_proto
  from_proto_without_info = elim (Option-cases up.rx_info) [
    | inl e ↦ inr (no_rx_info, rw e)
    | inr (rx, e) ↦ elim (Option-cases up.tx_info) [
      | inl f ↦ inr (no_tx_info, rw (e, f))
      | inr (tx, f) ↦ inl (record { rx = rx; tx = tx; has_rx = e; has_tx = f })
    ]
  ]

  -- `RxPk::from_proto` panics exactly on a frame that has both information records and a time outside
  -- chrono's range or a context that is not 4 bytes long. It succeeds exactly on a frame that has
  -- both, no such time, a context of 4 bytes and LoRa or FSK parameters; every other frame is an error.
  pub from_proto_outcome :
      ((from_proto X now up ≡ panic)
        ↔ ((i : HasInfo X up) × (IsOutOfRange X i.rx.gw_time ⊎ (length i.rx.context ≢ 4))))
      × (((p : RxPk X) × (from_proto X now up ≡ ok p))
          ↔ ((i : HasInfo X up) × Convertible X up i × (supported i.tx.modulation ≡ true)))
  from_proto_outcome = ((panics, panics_only), (succeeds, succeeds_only))
    where
      panics :
          from_proto X now up ≡ panic
          → (i : HasInfo X up) × (IsOutOfRange X i.rx.gw_time ⊎ (length i.rx.context ≢ 4))
      panics h = elim from_proto_without_info [
        | inr (e, q) ↦ cc
        | inl i ↦ elim (from_proto_decided i) [
          | inl (c, s, p, q, r) ↦ cc
          | inr (inl (c, s, e, q)) ↦ cc
          | inr (inr (w, q)) ↦ (i, w)
        ]
      ]

      unfit :
          (i : HasInfo X up)
          → Convertible X up i
          → (IsOutOfRange X i.rx.gw_time ⊎ (length i.rx.context ≢ 4))
          → ⊥
      unfit i (within, l) (inl out) = within out
      unfit i (within, l) (inr n) = n l

      panics_only :
          (i : HasInfo X up) × (IsOutOfRange X i.rx.gw_time ⊎ (length i.rx.context ≢ 4))
          → from_proto X now up ≡ panic
      panics_only (i, w) = elim (from_proto_decided i) [
        | inl (c, s, p, q, r) ↦ absurd (unfit i c w)
        | inr (inl (c, s, e, q)) ↦ absurd (unfit i c w)
        | inr (inr (_, q)) ↦ q
      ]

      succeeds :
          (p : RxPk X) × (from_proto X now up ≡ ok p)
          → (i : HasInfo X up) × Convertible X up i × (supported i.tx.modulation ≡ true)
      succeeds (p, h) = elim from_proto_without_info [
        | inr (e, q) ↦ cc
        | inl i ↦ elim (from_proto_decided i) [
          | inl (c, s, p', q, r) ↦ (i, c, s)
          | inr (inl (c, s, e, q)) ↦ cc
          | inr (inr (w, q)) ↦ cc
        ]
      ]

      succeeds_only :
          (i : HasInfo X up) × Convertible X up i × (supported i.tx.modulation ≡ true)
          → (p : RxPk X) × (from_proto X now up ≡ ok p)
      succeeds_only (i, c, s) = elim (from_proto_decided i) [
        | inl (_, _, p, q, _) ↦ (p, q)
        | inr (inl (_, s', e, q)) ↦ cc
        | inr (inr (w, q)) ↦ absurd (unfit i c w)
      ]

  -- A conversion that succeeds reports the frame: the time is that of the frame, or the current one
  -- where it has none that is a system time; the CRC status, modulation, data rate, code rate and SNR
  -- fields agree with it (the last two stand for LoRa only); the frequency is in MHz; the timestamp's
  -- four big-endian bytes are the context, if that holds bytes; `tmms` is the GPS time, if any, by
  -- `duration_to_ms`; `data` is the payload's base64 text and `size` its length modulo 256; channel,
  -- RF chain and RSSI are copied.
  pub from_proto-IsReport :
      (i : HasInfo X up) (p : RxPk X) → from_proto X now up ≡ ok p → IsReport i p
  from_proto-IsReport i p h = elim (from_proto_decided i) [
    | inl (c, s, p', q, r) ↦ subst (IsReport i) (ok_injective p' p (sym q ∙ h)) r
    | inr (inl (l, s, e, q)) ↦ cc
    | inr (inr (l, q)) ↦ cc
  ]
