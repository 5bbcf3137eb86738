-- ===== src/Forwarder/Events/Laws.antt =====
-- What the two event handlers do to the forwarder's state, on every branch.
use chirpstack_udp_forwarder.Prelude.{
  ℕ, ◌≡◌, ◌↔◌, ◌⊎◌, inl, inr, true, false, [], ◌∷◌, ◌++◌, none, some, Bytes, arith, length, codes,
  Text, Bool-cases, ◌≢◌, refl, ◌==◌, ==_iff,
}
use chirpstack_udp_forwarder.Prelude.Outcome.{ok, err, panic}
use chirpstack_udp_forwarder.Bytes.{to_be_bytes_u16, array_8_of_length}
use chirpstack_udp_forwarder.External.{External, Json}
use chirpstack_udp_forwarder.Gw
use chirpstack_udp_forwarder.Runtime.{Runtime}
use chirpstack_udp_forwarder.Metrics.{incr_udp_sent_count, incr_udp_sent_bytes}
use chirpstack_udp_forwarder.Structs.Error.{Error}
use chirpstack_udp_forwarder.Structs.RxPk.{RxPk}
use chirpstack_udp_forwarder.Structs.RxPk
use chirpstack_udp_forwarder.Structs.Acks.{protocol_version}
use chirpstack_udp_forwarder.Structs.Stat.{Stat}
use chirpstack_udp_forwarder.Structs.Times.{IsOutOfRange, IsConverted, from_proto-cases}
use chirpstack_udp_forwarder.Structs.Packets.{
  PushData, push_data_to_bytes, serialize_push_data_payload,
}
use chirpstack_udp_forwarder.Forwarder.State.{State, incr_u32}
use chirpstack_udp_forwarder.Forwarder.World.{World, count_sent}
use chirpstack_udp_forwarder.Forwarder.Events.{
  events_up, events_stats, forwards, passes, push_rxpk, set_ackr,
}

-- serde_json writes every value (a float that is no number as null).
pub record WritesJson (X : External) : Type 0 where
  pub total : (v : Json X.F64 X.F32) → (b : Bytes) × (X.json_to_vec v ≡ some b)

-- A frame passes the filter exactly when forwarding is switched on for its CRC status.
pub forwards_iff :
    (s : State) (c : Gw.CrcStatus)
    → (forwards s c ≡ true) ↔ (
        ((c ≡ Gw.crc_ok) × (s.forward_crc_ok ≡ true))
        ⊎ ((c ≡ Gw.bad_crc) × (s.forward_crc_invalid ≡ true))
        ⊎ ((c ≡ Gw.no_crc) × (s.forward_crc_missing ≡ true)))
unfolding forwards
forwards_iff s Gw.crc_ok = ground arith
forwards_iff s Gw.bad_crc = ground arith
forwards_iff s Gw.no_crc = ground arith

module _ {X : External} (R : Runtime X) where
  -- One more datagram, with its counters.
  abbrev pub sends : Text → Bytes → State → World R → World R
  sends typ b s w = record w {
    state = s;
    sent = w.sent ++ (b ∷ []);
    metrics =
        incr_udp_sent_bytes R w.state.server typ (length b)
          (incr_udp_sent_count R w.state.server typ w.metrics);
  }

  abbrev pub rxpk_packet : State → ℕ → RxPk X → PushData X
  rxpk_packet s random p = record {
    random_token = random;
    gateway_id = s.gateway_id;
    payload = record { rxpk = p ∷ []; stat = none };
  }

  abbrev pub after_rxpk : ℕ → State → State
  after_rxpk random s = record s {
    push_data_token = random;
    rxfw = incr_u32 s.rxfw;
    push_data_sent = incr_u32 s.push_data_sent;
  }

  push_rxpk-sends :
      (w : World R) (random : ℕ) (p : RxPk X) (b : Bytes)
      → length w.state.gateway_id ≡ 8
      → push_data_to_bytes X (rxpk_packet w.state random p) ≡ ok b
      → push_rxpk R random p w
        ≡ (ok tt, sends (codes "PUSH_DATA_RXPK") b (after_rxpk random w.state) w)
  unfolding push_rxpk count_sent
  push_rxpk-sends w random p b l e = rw (array_8_of_length {E = Error} w.state.gateway_id l, e)

  push_data_total : WritesJson X → (p : PushData X) → (b : Bytes) × (push_data_to_bytes X p ≡ ok b)
  unfolding push_data_to_bytes
  push_data_total writes p =
      let (j, e) = writes.total (serialize_push_data_payload X p.payload) in
      (protocol_version ∷ (to_be_bytes_u16 p.random_token ++ (0x00 ∷ (p.gateway_id ++ j))), rw e)

  -- `events_up` under a gateway id of 8 bytes and a total JSON writer: a frame that the CRC filter
  -- stops, and one that `from_proto` refuses, change nothing; a frame that makes `from_proto` panic
  -- panics; any other is written as one PUSH_DATA datagram with the drawn token, which is then the
  -- expected token, and counts once as forwarded and once as sent.
  pub events_up_outcome :
      WritesJson X
      → (now : X.DateTime) (random : ℕ) (up : Gw.UplinkFrame X) (w : World R)
      → length w.state.gateway_id ≡ 8
      → (passes w.state up.rx_info ≡ false → events_up R now random up w ≡ (ok tt, w))
        × ((e : Error)
            → RxPk.from_proto X now up ≡ err e
            → events_up R now random up w ≡ (ok tt, w))
        × (passes w.state up.rx_info ≡ true
            → RxPk.from_proto X now up ≡ panic
            → events_up R now random up w ≡ (panic, w))
        × ((p : RxPk X)
            → passes w.state up.rx_info ≡ true
            → RxPk.from_proto X now up ≡ ok p
            → (b : Bytes) × (push_data_to_bytes X (rxpk_packet w.state random p) ≡ ok b)
              × (events_up R now random up w
                  ≡ (ok tt, sends (codes "PUSH_DATA_RXPK") b (after_rxpk random w.state) w)))
  unfolding events_up
  events_up_outcome writes now random up w l = (
    λ f. rw f,
    λ e q. elim (Bool-cases (passes w.state up.rx_info)) [ inl t ↦ rw (t, q) | inr f ↦ rw f ],
    λ t q. rw (t, q),
    λ p t q.
        let (b, e) = push_data_total writes (rxpk_packet w.state random p) in
        (b, e, rw (t, q, push_rxpk-sends w random p b l e)),
  )

  abbrev pub after_stats : ℕ → State → State
  after_stats random s = record s {
    push_data_token = random;
    rxfw = 0;
    push_data_acked = 0;
    push_data_sent = 1;
  }

  -- The share of the acknowledged datagrams in percent, or 0 where none was sent.
  abbrev pub IsShare : ℕ → ℕ → X.F32 → Type 0
  IsShare sent acked share =
      ((sent ≡ 0) × (share ≡ X.f32_of_u32 0))
      ⊎ ((sent ≢ 0)
          × (share
              ≡ X.f32_mul (X.f32_div (X.f32_of_u32 acked) (X.f32_of_u32 sent)) (X.f32_of_u32 100)))

  -- The statistics as they are converted, with the forwarder's own two numbers.
  pub record IsReportOf (now : X.DateTime) (stats : Gw.GatewayStats X) (s : State) (p : Stat X)
      : Type 0 where
    pub converted : IsConverted X now stats p
    pub forwarded : p.rxfw ≡ s.rxfw
    pub acknowledged : IsShare s.push_data_sent s.push_data_acked p.ackr

  abbrev pub stat_packet : State → ℕ → Stat X → PushData X
  stat_packet s random stat = record {
    random_token = random;
    gateway_id = s.gateway_id;
    payload = record { rxpk = []; stat = some stat };
  }

  -- What is reported of the statistics as they are converted.
  reported : State → Stat X → Stat X
  reported s stat = set_ackr X s.push_data_sent s.push_data_acked (record stat { rxfw = s.rxfw })

  set_ackr-IsShare :
      (sent acked : ℕ) (stat : Stat X)
      → stat.ackr ≡ X.f32_of_u32 0
      → IsShare sent acked (set_ackr X sent acked stat).ackr
  set_ackr-IsShare sent acked stat z = elim (Bool-cases (sent == 0)) [
    | inl e ↦ rw e (inl ((==_iff sent 0).0 e, z))
    | inr e ↦ rw e (inr ((λ q. let f : (sent == 0) ≡ true = (==_iff sent 0).1 q in cc), refl))
  ]

  set_ackr-IsConverted :
      (now : X.DateTime) (stats : Gw.GatewayStats X) (sent acked : ℕ) (stat : Stat X)
      → IsConverted X now stats stat
      → IsConverted X now stats (set_ackr X sent acked stat)
  set_ackr-IsConverted now stats sent acked stat c = elim (Bool-cases (sent == 0)) [
    | inl e ↦ rw e c
    | inr e ↦ rw e (record { time = c.time; received = c.received; sent = c.sent })
  ]

  set_ackr-rxfw : (sent acked : ℕ) (stat : Stat X) → (set_ackr X sent acked stat).rxfw ≡ stat.rxfw
  set_ackr-rxfw sent acked stat = ground arith

  -- `events_stats` under a gateway id of 8 bytes and a total JSON writer: it panics on a time outside
  -- chrono's range; otherwise it writes one PUSH_DATA datagram with the drawn token, whose `stat`
  -- object holds the time and the counters of the gateway, the forwarded count and the share of
  -- acknowledged datagrams since the last report, and starts the counters again at 0, with this
  -- datagram as the first one sent.
  pub events_stats_outcome :
      WritesJson X
      → (now : X.DateTime) (random : ℕ) (stats : Gw.GatewayStats X) (w : World R)
      → length w.state.gateway_id ≡ 8
      → (IsOutOfRange X stats.time × (events_stats R now random stats w ≡ (panic, w)))
        ⊎ ((IsOutOfRange X stats.time → ⊥)
            × (stat : Stat X) × (b : Bytes) × IsReportOf now stats w.state stat
            × (push_data_to_bytes X (stat_packet w.state random stat) ≡ ok b)
            × (events_stats R now random stats w
                ≡ (ok tt, sends (codes "PUSH_DATA_STATS") b (after_stats random w.state) w)))
  unfolding events_stats count_sent reported
  events_stats_outcome writes now random stats w l = elim (from_proto-cases X now stats) [
    | inl (out, q) ↦ inl (out, rw q refl)
    | inr (within, stat, q, c, z) ↦
        let (b, e) = push_data_total writes (stat_packet w.state random (reported w.state stat)) in
        let counted : IsConverted X now stats (record stat { rxfw = w.state.rxfw }) = record {
          time = c.time;
          received = c.received;
          sent = c.sent;
        } in
        inr (
          within,
          reported w.state stat,
          b,
          record {
            converted =
                set_ackr-IsConverted now stats w.state.push_data_sent w.state.push_data_acked
                  (record stat { rxfw = w.state.rxfw }) counted;
            forwarded =
                set_ackr-rxfw w.state.push_data_sent w.state.push_data_acked
                  (record stat { rxfw = w.state.rxfw });
            acknowledged =
                set_ackr-IsShare w.state.push_data_sent w.state.push_data_acked
                  (record stat { rxfw = w.state.rxfw }) z;
          },
          e,
          rw (q, array_8_of_length {E = Error} w.state.gateway_id l, e),
        )
  ]
