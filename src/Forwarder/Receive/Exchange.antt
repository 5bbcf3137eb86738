-- ===== src/Forwarder/Receive/Exchange.antt =====
-- How `handle_pull_resp` of src/forwarder.rs ends once the PULL_RESP became a downlink frame.
use chirpstack_udp_forwarder.Prelude.{
  ◌≡◌, ◌≢◌, ◌⊎◌, arith, refl, ◌++◌, List, [], ◌∷◌, none, some, true, false, Bytes, Text, codes,
  length, Option-cases, inl, inr,
}
use chirpstack_udp_forwarder.Prelude.Outcome.{Outcome, ok, err, panic}
use chirpstack_udp_forwarder.Bytes.{to_be_bytes_u16, array_8_of_length}
use chirpstack_udp_forwarder.External.{External, str, obj, field, end}
use chirpstack_udp_forwarder.Gw
use chirpstack_udp_forwarder.Runtime.{Runtime}
use chirpstack_udp_forwarder.Metrics.{incr_udp_sent_count, incr_udp_sent_bytes}
use chirpstack_udp_forwarder.Structs.Error.{Error}
use chirpstack_udp_forwarder.Structs.Packets.{tx_ack_to_bytes, serialize_tx_ack_payload}
use chirpstack_udp_forwarder.Forwarder.World.{
  World, HandlerError, count_sent, no_down_response, decode_tx_ack, no_message,
}
use chirpstack_udp_forwarder.Forwarder.Events.Laws.{WritesJson}
use chirpstack_udp_forwarder.Forwarder.Receive.{
  handle_pull_resp, error_of_status, error_of_items, metrics_key, command_send, command_poll,
  command_recv, send_tx_ack,
}
use chirpstack_udp_forwarder.Forwarder.Receive.Downlink.{IsDownlink, command}

-- The error text of a status, and the label under which its TX_ACK is counted.
abbrev pub reported_as : Gw.TxAckStatus → Text × Text
reported_as Gw.ok = ([], codes "TX_ACK_OK")
reported_as Gw.ignored = (codes "IGNORED", codes "TX_ACK_ERROR_IGNORED")
reported_as Gw.too_late = (codes "TOO_LATE", codes "TX_ACK_ERROR_TOO_LATE")
reported_as Gw.too_early = (codes "TOO_EARLY", codes "TX_ACK_ERROR_TOO_EARLY")
reported_as Gw.collision_packet = (codes "COLLISION_PACKET", codes "TX_ACK_ERROR_COLLISION_PACKET")
reported_as Gw.collision_beacon = (codes "COLLISION_BEACON", codes "TX_ACK_ERROR_COLLISION_BEACON")
reported_as Gw.tx_freq = (codes "TX_FREQ", codes "TX_ACK_ERROR_TX_FREQ")
reported_as Gw.tx_power = (codes "TX_POWER", codes "TX_ACK_ERROR_TX_POWER")
reported_as Gw.gps_unlocked = (codes "GPS_UNLOCKED", codes "TX_ACK_ERROR_GPS_UNLOCKED")
reported_as Gw.queue_full = (codes "QUEUE_FULL", codes "TX_ACK_ERROR_QUEUE_FULL")
reported_as Gw.internal_error = (codes "INTERNAL_ERROR", codes "TX_ACK_ERROR_INTERNAL_ERROR")
reported_as Gw.duty_cycle_overflow =
    (codes "DUTY_CYCLE_OVERFLOW", codes "TX_ACK_ERROR_DUTY_CYCLE_OVERFLOW")

reported_as-error : (s : Gw.TxAckStatus) → error_of_status s ≡ (reported_as s).0
unfolding error_of_status
reported_as-error Gw.ok = refl
reported_as-error Gw.ignored = refl
reported_as-error Gw.too_late = refl
reported_as-error Gw.too_early = refl
reported_as-error Gw.collision_packet = refl
reported_as-error Gw.collision_beacon = refl
reported_as-error Gw.tx_freq = refl
reported_as-error Gw.tx_power = refl
reported_as-error Gw.gps_unlocked = refl
reported_as-error Gw.queue_full = refl
reported_as-error Gw.internal_error = refl
reported_as-error Gw.duty_cycle_overflow = refl

reported_as-key : (s : Gw.TxAckStatus) → metrics_key (reported_as s).0 ≡ (reported_as s).1
unfolding metrics_key
reported_as-key Gw.ok = refl
reported_as-key Gw.ignored = refl
reported_as-key Gw.too_late = refl
reported_as-key Gw.too_early = refl
reported_as-key Gw.collision_packet = refl
reported_as-key Gw.collision_beacon = refl
reported_as-key Gw.tx_freq = refl
reported_as-key Gw.tx_power = refl
reported_as-key Gw.gps_unlocked = refl
reported_as-key Gw.queue_full = refl
reported_as-key Gw.internal_error = refl
reported_as-key Gw.duty_cycle_overflow = refl

module _ {X : External} (R : Runtime X) {b : Bytes} {w : World R} (d : IsDownlink R b w) where
  -- The world with the command socket as the exchange left it.
  abbrev pub with_sock : R.Sock → World R
  with_sock sock = record w { command_sock = sock }

  -- One more datagram, and its counters.
  abbrev pub acknowledged : Gw.TxAckStatus → R.Sock → Bytes → World R
  acknowledged status sock ack = record w {
    command_sock = sock;
    sent = w.sent ++ (ack ∷ []);
    metrics =
        incr_udp_sent_bytes R w.state.server (reported_as status).1 (length ack)
          (incr_udp_sent_count R w.state.server (reported_as status).1 w.metrics);
  }

  -- The text {"txpk_ack":{"error":…}}, behind the version, the token of the PULL_RESP, the identifier
  -- and the gateway id.
  abbrev pub IsTxAck : Gw.TxAckStatus → Bytes → Type 0
  IsTxAck status ack =
      (j : Bytes) × (X.json_to_vec (
          obj (
            field (codes "txpk_ack") (obj (field (codes "error") (str (reported_as status).0) end))
              end))
        ≡ some j)
      × (ack ≡ 2 ∷ (to_be_bytes_u16 d.resp.random_token ++ (5 ∷ (w.state.gateway_id ++ j))))

  -- How the exchange with the concentratord goes, how the handler ends then, and what it leaves.
  pub data Exchange : Outcome HandlerError (Unit {0}) × World R → Type 0 where
    not_sent : R.send w.command_sock (command R d) ≡ none → Exchange (panic, w)
    not_polled :
        (s1 : R.Sock)
        → R.send w.command_sock (command R d) ≡ some s1
        → R.poll s1 ≡ none
        → Exchange (panic, with_sock s1)
    timed_out :
        (s1 s2 : R.Sock)
        → R.send w.command_sock (command R d) ≡ some s1
        → R.poll s1 ≡ some (false, s2)
        → Exchange (err no_down_response, with_sock s2)
    not_received :
        (s1 s2 : R.Sock)
        → R.send w.command_sock (command R d) ≡ some s1
        → R.poll s1 ≡ some (true, s2)
        → R.recv s2 ≡ none
        → Exchange (panic, with_sock s2)
    not_decoded :
        (s1 s2 s3 : R.Sock) (reply : Bytes)
        → R.send w.command_sock (command R d) ≡ some s1
        → R.poll s1 ≡ some (true, s2)
        → R.recv s2 ≡ some (reply, s3)
        → R.decode_tx_ack reply ≡ none
        → Exchange (err decode_tx_ack, with_sock s3)
    not_single :
        (s1 s2 s3 : R.Sock) (reply : Bytes) (a : Gw.DownlinkTxAck)
        → R.send w.command_sock (command R d) ≡ some s1
        → R.poll s1 ≡ some (true, s2)
        → R.recv s2 ≡ some (reply, s3)
        → R.decode_tx_ack reply ≡ some a
        → length a.items ≢ 1
        → Exchange (err no_message, with_sock s3)
    answered :
        (s1 s2 s3 : R.Sock) (reply ack : Bytes) (a : Gw.DownlinkTxAck) (status : Gw.TxAckStatus)
        → R.send w.command_sock (command R d) ≡ some s1
        → R.poll s1 ≡ some (true, s2)
        → R.recv s2 ≡ some (reply, s3)
        → R.decode_tx_ack reply ≡ some a
        → a.items ≡ status ∷ []
        → IsTxAck status ack
        → Exchange (ok tt, acknowledged status s3 ack)

single_cases :
    (l : List Gw.TxAckStatus)
    → ((s : Gw.TxAckStatus) × (l ≡ s ∷ [])) ⊎ ((length l ≢ 1) × (error_of_items l ≡ none))
unfolding error_of_items
single_cases [] = inr (omega arith, refl)
single_cases (s ∷ []) = inl (s, refl)
single_cases (s ∷ t ∷ l) = inr (omega arith, refl)

module _ {X : External} (R : Runtime X) {b : Bytes} {w : World R} (d : IsDownlink R b w)
    (s1 s2 s3 : R.Sock) (reply : Bytes) (p : R.send w.command_sock (command R d) ≡ some s1)
    (q : R.poll s1 ≡ some (true, s2)) (r : R.recv s2 ≡ some (reply, s3)) where
  -- The handler from the reply on.
  replied : handle_pull_resp R b w ≡ send_tx_ack R d.resp.random_token reply (with_sock R d s3)
  unfolding handle_pull_resp
  replied =
      rw (d.parsed, d.converted, p, command_send) (rw (q, command_poll) (rw (r, command_recv) refl))

  written_ack :
      WritesJson X
      → (status : Gw.TxAckStatus)
      → (ack : Bytes) × IsTxAck R d status ack
        × (tx_ack_to_bytes X (record {
          random_token = d.resp.random_token;
          gateway_id = w.state.gateway_id;
          payload = record { txpk_ack = record { error = error_of_status status } };
        })
            ≡ ok ack)
  unfolding tx_ack_to_bytes serialize_tx_ack_payload
  written_ack writes status =
      let (j, e) = writes.total (
        obj (
          field (codes "txpk_ack") (obj (field (codes "error") (str (reported_as status).0) end))
            end)) in
      (_, (j, e, refl), rw (reported_as-error status, e) refl)

  replied-Exchange :
      WritesJson X → length w.state.gateway_id ≡ 8 → Exchange R d (handle_pull_resp R b w)
  unfolding send_tx_ack count_sent error_of_items
  replied-Exchange writes l = elim (Option-cases (R.decode_tx_ack reply)) [
    | inl t ↦ rw (replied, t) (not_decoded s1 s2 s3 reply p q r t)
    | inr (a, t) ↦ elim (single_cases a.items) [
      | inr (n, e) ↦
          rw (replied, t, array_8_of_length {E = Error} w.state.gateway_id l, e)
            (not_single s1 s2 s3 reply a p q r t n)
      | inl (status, e) ↦
          let (ack, i, u) = written_ack writes status in
          rw
            (
              replied,
              t,
              array_8_of_length {E = Error} w.state.gateway_id l,
              e,
              u,
              reported_as-error status,
              reported_as-key status,
            )
            (answered s1 s2 s3 reply ack a status p q r t e i)
    ]
  ]

module _ {X : External} (R : Runtime X) where
  -- A PULL_RESP that becomes a downlink frame is sent as a command. Its handler panics exactly if the
  -- socket refuses to send, poll or receive; it fails if no reply comes within the timeout, or the
  -- reply is no TX acknowledgement, or has not exactly one status. Otherwise exactly one TX_ACK
  -- datagram answers it, with the token of the PULL_RESP and the error text of the status, counted
  -- under the label of this status. Only the sockets and the counters change. The gateway id has 8
  -- bytes, and the JSON writer is total.
  pub handle_pull_resp_outcome :
      WritesJson X
      → (b : Bytes) (w : World R) (d : IsDownlink R b w) → length w.state.gateway_id ≡ 8
      → Exchange R d (handle_pull_resp R b w)
  unfolding handle_pull_resp
  handle_pull_resp_outcome writes b w d l =
      elim (Option-cases (R.send w.command_sock (command R d))) [
        | inl p ↦ rw (d.parsed, d.converted, p, command_send) (not_sent p)
        | inr (s1, p) ↦ elim (Option-cases (R.poll s1)) [
          | inl q ↦
              rw (d.parsed, d.converted, p, command_send) (rw (q, command_poll) (not_polled s1 p q))
          | inr ((false, s2), q) ↦
              rw (d.parsed, d.converted, p, command_send)
                (rw (q, command_poll) (timed_out s1 s2 p q))
          | inr ((true, s2), q) ↦ elim (Option-cases (R.recv s2)) [
            | inl r ↦
                rw (d.parsed, d.converted, p, command_send)
                  (rw (q, command_poll) (rw (r, command_recv) (not_received s1 s2 p q r)))
            | inr ((reply, s3), r) ↦ replied-Exchange R d s1 s2 s3 reply p q r writes l
          ]
        ]
      ]
