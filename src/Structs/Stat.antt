-- ===== src/Structs/Stat.antt =====
-- `Stat::from_proto` of src/structs.rs: the gateway's counters as the `stat` object of PUSH_DATA.
use chirpstack_udp_forwarder.Prelude.{ℕ, Option, none, some, codes}
use chirpstack_udp_forwarder.Prelude.Int.{pos}
use chirpstack_udp_forwarder.Prelude.Outcome.{ok, ◌>>=◌}
use chirpstack_udp_forwarder.External.{External, Json, int, obj, end, field}
use chirpstack_udp_forwarder.Gw
use chirpstack_udp_forwarder.Structs.TimeFormats.{serialize_expanded}
use chirpstack_udp_forwarder.Structs.Types.{Value}
use chirpstack_udp_forwarder.Structs.Error.{Result}
use chirpstack_udp_forwarder.Structs.RxPk.{time_of}

module _ (X : External) where
  pub record Stat : Type 0 where
    pub time : X.DateTime
    pub lati : X.F64
    pub long : X.F64
    pub alti : ℕ
    pub rxnb : ℕ
    pub rxok : ℕ
    pub rxfw : ℕ
    pub ackr : X.F32
    pub dwnb : ℕ
    pub txnb : ℕ

module _ (X : External) where
  lati_of : Option (Gw.Location X) → X.F64
  lati_of (some v) = v.latitude
  lati_of none = X.f64_of_u32 0

  long_of : Option (Gw.Location X) → X.F64
  long_of (some v) = v.longitude
  long_of none = X.f64_of_u32 0

  alti_of : Option (Gw.Location X) → ℕ
  alti_of (some v) = X.u32_of_f64 v.altitude
  alti_of none = 0

  -- The object with this time. 0.0 is `as` of 0.
  unfoldable pub stat_of : X.DateTime → Gw.GatewayStats X → Stat X
  unfolding lati_of long_of alti_of
  stat_of time stats = record {
    time = time;
    lati = lati_of stats.location;
    long = long_of stats.location;
    alti = alti_of stats.location;
    rxnb = stats.rx_packets_received;
    rxok = stats.rx_packets_received_ok;
    rxfw = 0;
    ackr = X.f32_of_u32 0;
    dwnb = stats.tx_packets_received;
    txnb = stats.tx_packets_emitted;
  }

  -- There is no error.
  unfoldable pub from_proto : X.DateTime → Gw.GatewayStats X → Result (Stat X)
  unfolding stat_of time_of
  from_proto now stats = do time ← time_of X now stats.time; ok (stat_of time stats)

  unfoldable pub serialize_stat : Stat X → Value X
  serialize_stat s = obj (
      field (codes "time") (serialize_expanded X s.time) (
        field (codes "lati") (Json.f64 s.lati) (
          field (codes "long") (Json.f64 s.long) (
            field (codes "alti") (int (pos s.alti)) (
              field (codes "rxnb") (int (pos s.rxnb)) (
                field (codes "rxok") (int (pos s.rxok)) (
                  field (codes "rxfw") (int (pos s.rxfw)) (
                    field (codes "ackr") (Json.f32 s.ackr) (
                      field (codes "dwnb") (int (pos s.dwnb))
                        (field (codes "txnb") (int (pos s.txnb)) end))))))))))
