-- ===== src/Forwarder/Locks/Handlers.antt =====
-- The handlers as single steps, of the other modules, are the runs in which no other thread acts.
use chirpstack_udp_forwarder.Prelude.{
  ℕ, ◌≡◌, refl, List, [], ◌∷◌, ◌++◌, inl, inr, Bool, true, false, ◌==◌, if◌then◌else◌, arith, Bytes,
  length,
}
use chirpstack_udp_forwarder.Prelude.Outcome.{ok}
use chirpstack_udp_forwarder.External.{External}
use chirpstack_udp_forwarder.Gw
use chirpstack_udp_forwarder.Runtime.{Runtime}
use chirpstack_udp_forwarder.Structs.RxPk.{RxPk}
use chirpstack_udp_forwarder.Structs.Times.{IsOutOfRange}
use chirpstack_udp_forwarder.Structs.RxPk
use chirpstack_udp_forwarder.Structs.Acks.{PushAck, push_ack_from_bytes}
use chirpstack_udp_forwarder.Forwarder.State.{State, incr_push_data_acked}
use chirpstack_udp_forwarder.Forwarder.World.{World}
use chirpstack_udp_forwarder.Forwarder.Events.{events_up, events_stats, passes}
use chirpstack_udp_forwarder.Forwarder.Events.Laws.{
  WritesJson, events_up_outcome, events_stats_outcome, after_rxpk, after_stats,
}
use chirpstack_udp_forwarder.Forwarder.Receive.{handle_push_ack}
use chirpstack_udp_forwarder.Forwarder.Locks.{
  Report, waiting, listening, Locked, draw_up, send_up, count_rxfw, count_up, take_rxfw, take_sent,
  take_acked, draw_stats, send_stats, count_stats, heard, compared, events_step, receiver_step, Run,
  here, next,
}

-- Both threads at their loops' heads.
abbrev pub at_rest : State → Bool → List Report → Locked
at_rest state unanswered reports = record {
  state = state;
  events = waiting;
  receiver = listening;
  unanswered = unanswered;
  reports = reports;
}

module _ {X : External} (R : Runtime X) (s : State) (u : Bool) (rs : List Report) where
  up-Run : (random : ℕ) → Run (at_rest s u rs) 4 (at_rest (after_rxpk R random s) true rs)
  up-Run random =
      next
        (next (next (next here (events_step (draw_up random refl))) (events_step (send_up refl)))
          (events_step (count_rxfw refl)))
        (events_step (count_up refl))

  abbrev pub report_of : Report
  report_of = record { rxfw = s.rxfw; sent = s.push_data_sent; acked = s.push_data_acked }

  stats-Run :
      (random : ℕ)
      → Run (at_rest s u rs) 6 (at_rest (after_stats R random s) true (rs ++ (report_of ∷ [])))
  stats-Run random =
      next
        (next
          (next
            (next
              (next (next here (events_step (take_rxfw refl)))
                (events_step (take_sent s.rxfw refl)))
              (events_step (take_acked s.rxfw s.push_data_sent refl)))
            (events_step (draw_stats random report_of refl)))
          (events_step (send_stats report_of refl)))
        (events_step (count_stats refl))

  ack-Run :
      (token : ℕ)
      → (token ≡ s.push_data_token → u ≡ true)
      → Run (at_rest s u rs) 2 (
          at_rest
            (if token == s.push_data_token then incr_push_data_acked s else s)
            (if token == s.push_data_token then false else u)
            rs)
  ack-Run token once =
      next (next here (receiver_step (heard token refl once)))
        (receiver_step (compared token s.push_data_token refl))

module _ {X : External} (R : Runtime X) (w : World R) (u : Bool) (rs : List Report) where
  push_ack_state :
      (b : Bytes) (a : PushAck)
      → push_ack_from_bytes b ≡ ok a
      → (handle_push_ack R b w).1.state ≡ (
          if a.random_token == w.state.push_data_token
          then incr_push_data_acked w.state
          else w.state)
  unfolding handle_push_ack
  push_ack_state b a e = rw e (ground arith)

  -- A handler that runs from end to end is a run of the steps at the locks in which no other thread
  -- acts, with the handler's final state: `events_up` where the frame passes and is converted,
  -- `events_stats`, which reports the counts that it finds, where the time is within chrono's range,
  -- and `handle_push_ack` for a PUSH_ACK that answers its datagram once. The gateway id has 8 bytes,
  -- and the JSON writer is total.
  pub handlers_as_runs :
      WritesJson X
      → length w.state.gateway_id ≡ 8
      → ((now : X.DateTime) (random : ℕ) (up : Gw.UplinkFrame X) (p : RxPk X)
          → passes w.state up.rx_info ≡ true
          → RxPk.from_proto X now up ≡ ok p
          → Run (at_rest w.state u rs) 4 (at_rest (events_up R now random up w).1.state true rs))
        × ((now : X.DateTime) (random : ℕ) (stats : Gw.GatewayStats X)
            → (IsOutOfRange X stats.time → ⊥)
            → Run (at_rest w.state u rs) 6 (
                at_rest
                  (events_stats R now random stats w).1.state
                  true
                  (rs ++ (report_of R w.state u rs ∷ []))))
        × ((b : Bytes) (a : PushAck)
            → push_ack_from_bytes b ≡ ok a
            → (a.random_token ≡ w.state.push_data_token → u ≡ true)
            → Run (at_rest w.state u rs) 2 (
                at_rest
                  (handle_push_ack R b w).1.state
                  (if a.random_token == w.state.push_data_token then false else u)
                  rs))
  handlers_as_runs writes l = (
    λ now random up p t q.
        let (b, _, e) = (events_up_outcome R writes now random up w l).3 p t q in
        rw e (up-Run R w.state u rs random),
    λ now random stats within. elim (events_stats_outcome R writes now random stats w l) [
      | inl (out, _) ↦ absurd (within out)
      | inr (_, stat, b, _, _, e) ↦ rw e (stats-Run R w.state u rs random)
    ],
    λ b a e once. rw (push_ack_state b a e) (ack-Run R w.state u rs a.random_token once),
  )
