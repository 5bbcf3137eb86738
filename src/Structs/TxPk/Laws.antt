-- ===== src/Structs/TxPk/Laws.antt =====
-- When a `txpk` object becomes a downlink frame, and what the frame says.
use mathlib.Core.Path.{subst}
use chirpstack_udp_forwarder.Prelude.{
  ℕ, ◌*◌, ◌/◌, ◌%◌, ◌^◌, ◌<◌, ◌≡◌, ◌≢◌, ◌↔◌, ◌⊎◌, ◌∙◌, inl, inr, Bool, true, false, ◌||◌, [], ◌∷◌,
  Option, none, some, Bytes, refl, sym, ap, arith, All, Option-cases,
}
use chirpstack_udp_forwarder.Prelude.Int.{pos}
use chirpstack_udp_forwarder.Prelude.Outcome.{ok, err, panic, ok_injective}
use chirpstack_udp_forwarder.Bytes.{IsByte}
use chirpstack_udp_forwarder.External.{External}
use chirpstack_udp_forwarder.Gw
use chirpstack_udp_forwarder.Structs.Error.{Error, base64}
use chirpstack_udp_forwarder.Structs.Types.{Modulation, lora, fsk, DataRate, lora_rate, fsk_rate}
use chirpstack_udp_forwarder.Structs.RxPk.{RxPk, from_proto}
use chirpstack_udp_forwarder.Structs.RxPk.Laws.{HasInfo, IsReport, from_proto-IsReport}
use chirpstack_udp_forwarder.Structs.TxPk.{
  TxPk, to_proto, timing_of, gps_timing, parameters_of, context_of, unwrap_or,
}

abbrev pub agrees : Modulation → DataRate → Bool
agrees lora (lora_rate _ _) = true
agrees fsk (fsk_rate _) = true
agrees _ _ = false

-- prost_types: a std Duration of fewer than 2 ^ 63 seconds and less than a second in nanoseconds has
-- a protobuf form.
pub record HasDurations (X : External) : Type 0 where
  pub total :
      (s n : ℕ) → s < 2 ^ 63 → n < 1000000000 → X.to_prost_duration s n ≡ some (pos s, pos n)

abbrev pub is_some {ℓ} : {A : Type ℓ} → Option A → Bool
is_some none = false
is_some (some _) = true

abbrev pub has_timing : Bool → Option ℕ → Option ℕ → Bool
has_timing imme tmst tmms = imme || (is_some tmst || is_some tmms)

abbrev gps_at : ℕ → Gw.Timing
gps_at v = Gw.gps_epoch (record { seconds = pos (v / 1000); nanos = pos (v % 1000 * 1000000) })

-- The timing of the frame, by priority.
abbrev pub IsTiming : Bool → Option ℕ → Option ℕ → Gw.Timing → Type 0
IsTiming true tmst tmms t = t ≡ Gw.immediately
IsTiming false (some _) tmms t = t ≡ Gw.delay (record { seconds = pos 0; nanos = pos 0 })
IsTiming false none (some v) t =
    t ≡ Gw.gps_epoch (record { seconds = pos (v / 1000); nanos = pos (v % 1000 * 1000000) })
IsTiming false none none t = ⊥

module _ (X : External) where
  parameters_cases :
      (p : TxPk X) (m : Modulation) (d : DataRate)
      → ((agrees m d ≡ true) × (q : Gw.Parameters) × (parameters_of X p m d ≡ ok q))
        ⊎ ((agrees m d ≡ false) × (e : Error) × (parameters_of X p m d ≡ err e))
  unfolding parameters_of
  parameters_cases p lora (lora_rate sf bw) = inl (refl, _, refl)
  parameters_cases p lora (fsk_rate br) = inr (refl, _, refl)
  parameters_cases p fsk (lora_rate sf bw) = inr (refl, _, refl)
  parameters_cases p fsk (fsk_rate br) = inl (refl, _, refl)

module _ (X : External) (durations : HasDurations X) where
  small : (v : ℕ) → v < 2 ^ 64 → v / 1000 < 2 ^ 63
  small v h = omega arith

  timing_cases :
      (imme : Bool) (tmst tmms : Option ℕ)
      → ((v : ℕ) → tmms ≡ some v → v < 2 ^ 64)
      → ((has_timing imme tmst tmms ≡ true)
          × (t : Gw.Timing) × (timing_of X imme tmst tmms ≡ ok t)
          × IsTiming imme tmst tmms t)
        ⊎ ((has_timing imme tmst tmms ≡ false) × (e : Error) × (timing_of X imme tmst tmms ≡ err e))
  unfolding timing_of
  timing_cases true tmst tmms h = inl (refl, _, refl, refl)
  timing_cases false (some v) tmms h = inl (refl, _, refl, refl)
  timing_cases false none (some v) h = inl (
    refl,
    gps_at v,
    rw (
      durations.total (v / 1000) (v % 1000 * 1000000) (small v (h v refl)) (omega arith),
      gps_timing,
    ),
    refl,
  )
  timing_cases false none none h = inr (refl, _, refl)

module _ (X : External) where
  -- What a downlink frame says of the `txpk` object that it was made of.
  pub record IsDownlinkOf (p : TxPk X) (id : ℕ) (gateway_id : Bytes) (f : Gw.DownlinkFrame)
      : Type 0 where
    pub item : Gw.DownlinkFrameItem
    pub single : f.items ≡ item ∷ []
    pub id_copied : f.downlink_id ≡ id
    pub gateway : f.gateway_id ≡ X.hex_encode gateway_id
    pub payload : X.base64_decode p.payload ≡ some item.phy_payload
    pub timing : IsTiming (unwrap_or false p.imme) p.tmst p.tmms item.tx_info.timing
    pub context : item.tx_info.context ≡ context_of X p.tmst
    pub power : item.tx_info.power ≡ p.powe

-- The condition on a `txpk` object under which it can be sent.
pub record IsSendable {X : External} (p : TxPk X) : Type 0 where
  pub rate : agrees p.modu p.datr ≡ true
  pub timed : has_timing (unwrap_or false p.imme) p.tmst p.tmms ≡ true
  pub encoded : (b : Bytes) × (X.base64_decode p.payload ≡ some b)

module _ (X : External) (durations : HasDurations X) (p : TxPk X) (id : ℕ) (gateway_id : Bytes)
    (fits : (v : ℕ) → p.tmms ≡ some v → v < 2 ^ 64) where
  frame_item : Gw.Parameters → Gw.Timing → Bytes → Gw.DownlinkFrameItem
  frame_item m t b = record {
    tx_info = record {
      frequency = X.u32_of_f64 (X.f64_mul p.freq (X.f64_of_u32 1000000));
      power = p.powe;
      modulation = record { parameters = some m };
      board = 0;
      antenna = 0;
      timing = t;
      context = context_of X p.tmst;
    };
    phy_payload = b;
  }

  frame : Gw.Parameters → Gw.Timing → Bytes → Gw.DownlinkFrame
  unfolding frame_item
  frame m t b = record {
    downlink_id = id;
    gateway_id = X.hex_encode gateway_id;
    items = frame_item m t b ∷ [];
  }

  frame-IsDownlinkOf :
      (m : Gw.Parameters) (t : Gw.Timing) (b : Bytes)
      → IsTiming (unwrap_or false p.imme) p.tmst p.tmms t
      → X.base64_decode p.payload ≡ some b
      → IsDownlinkOf X p id gateway_id (frame m t b)
  unfolding frame
  frame-IsDownlinkOf m t b h e = record {
    item = frame_item m t b;
    single = refl;
    id_copied = refl;
    gateway = refl;
    payload = e;
    timing = h;
    context = refl;
    power = refl;
  }

  to_proto_decided :
      (IsSendable p
        × (f : Gw.DownlinkFrame) × (to_proto X p id gateway_id ≡ ok f)
        × IsDownlinkOf X p id gateway_id f)
      ⊎ ((¬ IsSendable p) × (e : Error) × (to_proto X p id gateway_id ≡ err e))
  unfolding to_proto frame
  to_proto_decided = elim (parameters_cases X p p.modu p.datr) [
    | inr (a, e, q) ↦ inr (λ s. cc (s.rate), e, rw q)
    | inl (a, m, q) ↦ elim (timing_cases X durations (unwrap_or false p.imme) p.tmst p.tmms fits) [
      | inr (b, e, r) ↦ inr (λ s. cc (s.timed), e, rw (q, r))
      | inl (b, t, r, h) ↦ elim (Option-cases (X.base64_decode p.payload)) [
        | inl n ↦ inr (λ s. cc (s.encoded.1), base64, rw (q, r, n))
        | inr (y, n) ↦ inl (
          record { rate = a; timed = b; encoded = (y, n) },
          frame m t y,
          rw (q, r, n),
          frame-IsDownlinkOf m t y h n,
        )
      ]
    ]
  ]

  -- `TxPk::to_proto` never panics. It succeeds exactly on an object whose modulation and data rate
  -- are of one kind, which has a timing ("immediately", a timestamp or a GPS time) and whose `data`
  -- is base64; every frame that it makes has one item, with the decoded payload, the timing by that
  -- priority, the timestamp as its context (empty if there is none) and the power, under the given
  -- downlink id and the gateway id in hex. The GPS time is a u64, and durations have a protobuf form.
  pub to_proto_outcome :
      (to_proto X p id gateway_id ≢ panic)
      × (((f : Gw.DownlinkFrame) × (to_proto X p id gateway_id ≡ ok f)) ↔ IsSendable p)
      × ((f : Gw.DownlinkFrame)
          → to_proto X p id gateway_id ≡ ok f
          → IsDownlinkOf X p id gateway_id f)
  to_proto_outcome = elim to_proto_decided [
    | inl (s, f, e, d) ↦ (
      λ q. cc,
      (λ _. s, λ _. (f, e)),
      λ f' e'. subst (IsDownlinkOf X p id gateway_id) (ok_injective f f' (sym e ∙ e')) d,
    )
    | inr (s, e, q) ↦ (λ r. cc, (λ (f, r). cc, λ s'. absurd (s s')), λ f r. cc)
  ]

module _ (X : External) (durations : HasDurations X) where
  -- The context of an uplink comes back in the downlink that answers it: where an uplink frame with
  -- both information records and a context of bytes was converted, a `txpk` object that carries its
  -- timestamp, if it is converted, gives one item whose context is that of the uplink.
  pub context_roundtrip :
      (now : X.DateTime) (up : Gw.UplinkFrame X) (i : HasInfo X up) (r : RxPk X) (p : TxPk X)
      (id : ℕ) (gateway_id : Bytes) (f : Gw.DownlinkFrame)
      → All IsByte i.rx.context
      → from_proto X now up ≡ ok r
      → p.tmst ≡ some r.tmst
      → ((v : ℕ) → p.tmms ≡ some v → v < 2 ^ 64)
      → to_proto X p id gateway_id ≡ ok f
      → (item : Gw.DownlinkFrameItem) × (f.items ≡ item ∷ [])
        × (item.tx_info.context ≡ i.rx.context)
  context_roundtrip now up i r p id gateway_id f bytes up_ok same fits down_ok =
      (down.item, down.single, down.context ∙ ap (context_of X) same ∙ up_report.timestamp bytes)
    where
      down : IsDownlinkOf X p id gateway_id f
      down = (to_proto_outcome X durations p id gateway_id fits).2 f down_ok

      up_report : IsReport X now up i r
      up_report = from_proto-IsReport X now up i r up_ok
