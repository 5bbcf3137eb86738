-- ===== src/Structs/TxPk/GpsTime.antt =====
-- The GPS time of an uplink frame, through the `tmms` of an `rxpk` object and back through that of
-- a `txpk` object (src/structs.rs).
use chirpstack_udp_forwarder.Prelude.{
  ℕ, ◌+◌, ◌*◌, ◌/◌, ◌%◌, ◌^◌, ◌<◌, ◌≡◌, ◌∙◌, [], ◌∷◌, Bool, true, false, Option, none, some, Bytes,
  sym, arith, refl, ap,
}
use mathlib.Core.Path.{subst}
use chirpstack_udp_forwarder.Prelude.Int.{pos}
use chirpstack_udp_forwarder.Prelude.Outcome.{ok}
use chirpstack_udp_forwarder.External.{External}
use chirpstack_udp_forwarder.Gw
use chirpstack_udp_forwarder.Structs.RxPk.{RxPk, from_proto, duration_to_ms}
use chirpstack_udp_forwarder.Structs.RxPk.Laws.{HasInfo, from_proto-IsReport}
use chirpstack_udp_forwarder.Structs.TxPk.{TxPk, to_proto, unwrap_or}
use chirpstack_udp_forwarder.Structs.TxPk.Laws.{
  HasDurations, IsTiming, IsDownlinkOf, to_proto_outcome,
}

abbrev gps_duration : ℕ → ℕ → Gw.Duration
gps_duration s n = record { seconds = pos s; nanos = pos n }

duration_to_ms-exact :
    (s n : ℕ)
    → s * 1000 + n / 1000000 < 2 ^ 64
    → duration_to_ms (gps_duration s n) ≡ s * 1000 + n / 1000000
unfolding duration_to_ms
duration_to_ms-exact s n h = omega (arith, h)

back :
    (s n : ℕ)
    → n < 1000000000
    → gps_duration ((s * 1000 + n / 1000000) / 1000) ((s * 1000 + n / 1000000) % 1000 * 1000000)
      ≡ gps_duration s (n / 1000000 * 1000000)
back s n h = rw (whole, rest) refl
  where
    whole : (s * 1000 + n / 1000000) / 1000 ≡ s
    whole = omega (arith, h)

    rest : (s * 1000 + n / 1000000) % 1000 ≡ n / 1000000
    rest = omega (arith, h)

some_injective : (a b : ℕ) → some a ≡ some b → a ≡ b
some_injective a b e = cc

timing_at :
    (imme : Bool) (tmst tmms : Option ℕ) (v : ℕ) (t : Gw.Timing)
    → imme ≡ false
    → tmst ≡ none
    → tmms ≡ some v
    → IsTiming imme tmst tmms t
    → t ≡ Gw.gps_epoch (gps_duration (v / 1000) (v % 1000 * 1000000))
timing_at false none (some w) v t a b c h = rw (sym (some_injective w v c)) h
timing_at false none none v t a b c h = cc
timing_at false (some x) tmms v t a b c h = cc
timing_at true tmst tmms v t a b c h = cc

module _ (X : External) (durations : HasDurations X) where
  -- The GPS time of an uplink, sent back in a downlink, is that of the uplink in whole milliseconds.
  -- The uplink frame, with both information records and a GPS time of `s` seconds and `n`
  -- nanoseconds (below 1 s, and all of it below 2 ^ 64 ms), was converted; the `txpk` object carries
  -- its `tmms`, no timestamp and no "immediately", and was converted; durations have a protobuf form.
  pub gps_time_roundtrip :
      (now : X.DateTime) (up : Gw.UplinkFrame X) (i : HasInfo X up) (r : RxPk X) (p : TxPk X)
      (id : ℕ) (gateway_id : Bytes) (f : Gw.DownlinkFrame) (s n : ℕ)
      → i.rx.time_since_gps_epoch ≡ some (record { seconds = pos s; nanos = pos n })
      → n < 1000000000
      → s * 1000 + n / 1000000 < 2 ^ 64
      → from_proto X now up ≡ ok r
      → p.tmms ≡ r.tmms
      → p.tmst ≡ none
      → unwrap_or false p.imme ≡ false
      → to_proto X p id gateway_id ≡ ok f
      → (r.tmms ≡ some (s * 1000 + n / 1000000))
        × (item : Gw.DownlinkFrameItem) × (f.items ≡ item ∷ [])
        × (item.tx_info.timing
            ≡ Gw.gps_epoch (record { seconds = pos s; nanos = pos (n / 1000000 * 1000000) }))
  gps_time_roundtrip now up i r p id gateway_id f s n time short small up_ok same untimed later
        down_ok =
      (
        tmms,
        down.item,
        down.single,
        timing_at (unwrap_or false p.imme) p.tmst p.tmms (s * 1000 + n / 1000000)
              down.item.tx_info.timing later untimed (same ∙ tmms) down.timing
            ∙ ap Gw.gps_epoch (back s n short),
      )
    where
      tmms : r.tmms ≡ some (s * 1000 + n / 1000000)
      tmms =
          (from_proto-IsReport X now up i r up_ok).gps_time
          ∙ (rw time (ap some (duration_to_ms-exact s n small)))

      fits : (v : ℕ) → p.tmms ≡ some v → v < 2 ^ 64
      fits v e = subst (λ m. m < 2 ^ 64) (some_injective _ _ (sym (same ∙ tmms) ∙ e)) small

      down : IsDownlinkOf X p id gateway_id f
      down = (to_proto_outcome X durations p id gateway_id fits).2 f down_ok
