-- ===== src/Structs/Times.antt =====
-- The time of an uplink or of the gateway's statistics, in src/structs.rs.
use chirpstack_udp_forwarder.Prelude.{◌≡◌, ◌⊎◌, inl, inr, refl, Option, none, some, Option-cases}
use chirpstack_udp_forwarder.Prelude.Outcome.{ok, panic}
use chirpstack_udp_forwarder.External.{External}
use chirpstack_udp_forwarder.Gw
use chirpstack_udp_forwarder.Structs.RxPk.{time_of}
use chirpstack_udp_forwarder.Structs.Stat.{Stat}
use chirpstack_udp_forwarder.Structs.Stat

module _ (X : External) where
  -- A timestamp that is a system time, and none of chrono's.
  abbrev pub IsOutOfRange : Option X.Timestamp → Type 0
  IsOutOfRange none = ⊥
  IsOutOfRange (some v) =
      (s : X.SystemTime) × (X.to_system_time v ≡ some s) × (X.to_date_time s ≡ none)

  -- The timestamp's time, or the current one where there is none or it is no system time.
  abbrev pub IsTime : X.DateTime → Option X.Timestamp → X.DateTime → Type 0
  IsTime now none t = t ≡ now
  IsTime now (some v) t =
      ((X.to_system_time v ≡ none) × (t ≡ now))
      ⊎ ((s : X.SystemTime) × (X.to_system_time v ≡ some s) × (X.to_date_time s ≡ some t))

  pub time_of-cases :
      (now : X.DateTime) (o : Option X.Timestamp)
      → (IsOutOfRange o × (time_of X now o ≡ panic))
        ⊎ ((IsOutOfRange o → ⊥) × (t : X.DateTime) × (time_of X now o ≡ ok t) × IsTime now o t)
  unfolding time_of
  time_of-cases now none = inr (λ h. h, now, refl, refl)
  time_of-cases now (some v) = elim (Option-cases (X.to_system_time v)) [
    | inl e ↦ inr ((λ (s, f, g). cc), now, rw (time_of, e) refl, inl (e, refl))
    | inr (s, e) ↦ elim (Option-cases (X.to_date_time s)) [
      | inl f ↦ inl ((s, e, f), rw (time_of, e) (rw f refl))
      | inr (t, f) ↦ inr ((λ (s', g, h). cc), t, rw (time_of, e) (rw f refl), inr (s, e, f))
    ]
  ]

  -- The gateway's own counters, in the statistics as they are converted.
  pub record IsConverted (now : X.DateTime) (stats : Gw.GatewayStats X) (stat : Stat X)
      : Type 0 where
    pub time : IsTime now stats.time stat.time
    pub received :
        (stat.rxnb ≡ stats.rx_packets_received) × (stat.rxok ≡ stats.rx_packets_received_ok)
    pub sent : (stat.dwnb ≡ stats.tx_packets_received) × (stat.txnb ≡ stats.tx_packets_emitted)

  pub from_proto-cases :
      (now : X.DateTime) (stats : Gw.GatewayStats X)
      → (IsOutOfRange stats.time × (Stat.from_proto X now stats ≡ panic))
        ⊎ ((IsOutOfRange stats.time → ⊥)
            × (stat : Stat X) × (Stat.from_proto X now stats ≡ ok stat)
            × IsConverted now stats stat
            × (stat.ackr ≡ X.f32_of_u32 0))
  unfolding Stat.from_proto Stat.stat_of
  from_proto-cases now stats = elim (time_of-cases now stats.time) [
    | inl (out, z) ↦ inl (out, rw z refl)
    | inr (within, time, z, known) ↦ inr (
      within,
      Stat.stat_of X time stats,
      rw z refl,
      record { time = known; received = (refl, refl); sent = (refl, refl) },
      refl,
    )
  ]
