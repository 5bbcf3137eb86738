-- ===== src/Forwarder/History/Refinement.antt =====
-- The handlers refine the specification of the counters.
use chirpstack_udp_forwarder.Prelude.{
  ℕ, ◌≡◌, inl, inr, ◌∙◌, sym, ap, true, false, List, [], ◌∷◌, Bytes, refl, arith, length,
  Bool-cases, ◌==◌, ◌&&◌, if◌then◌else◌, ==_iff,
}
use chirpstack_udp_forwarder.Prelude.Outcome.{Outcome, ok, err, panic}
use chirpstack_udp_forwarder.Bytes.{from_be_bytes_u16}
use chirpstack_udp_forwarder.External.{External}
use chirpstack_udp_forwarder.Gw
use chirpstack_udp_forwarder.Runtime.{Runtime}
use chirpstack_udp_forwarder.Structs.Error.{Error}
use chirpstack_udp_forwarder.Structs.Acks.{protocol_version}
use chirpstack_udp_forwarder.Structs.RxPk.{RxPk}
use chirpstack_udp_forwarder.Structs.RxPk
use mathlib.Core.Path.{subst}
use chirpstack_udp_forwarder.Structs.Stat.{Stat}
use chirpstack_udp_forwarder.Structs.Stat
use chirpstack_udp_forwarder.Structs.Times.{from_proto-cases}
use chirpstack_udp_forwarder.Forwarder.State.{State}
use chirpstack_udp_forwarder.Forwarder.World.{
  World, M, ◌>>◌, HandlerError, count_sent, log_error-world,
}
use chirpstack_udp_forwarder.Forwarder.Events.{events_up, events_stats, passes}
use chirpstack_udp_forwarder.Forwarder.Events.Laws.{
  WritesJson, events_up_outcome, events_stats_outcome,
}
use chirpstack_udp_forwarder.Forwarder.Receive.{receive, handle_pull_resp}
use chirpstack_udp_forwarder.Forwarder.Receive.Laws.{receive_acks, is_pull_resp, ack_effect}
use chirpstack_udp_forwarder.Forwarder.Keepalive.{pull_data_round}
use chirpstack_udp_forwarder.Forwarder.History.{Input, up, stats, datagram, keepalive, handle, run}
use chirpstack_udp_forwarder.Forwarder.History.Counters.{
  counters, Change, forwarded, reported, acked_by, nothing, apply, apply_all,
}

-- A PUSH_ACK in its wire form.
abbrev pub change_of_datagram : Bytes → Change
change_of_datagram (v ∷ hi ∷ lo ∷ id ∷ []) =
    if v == protocol_version && id == 0x01 then acked_by (from_be_bytes_u16 hi lo) else nothing
change_of_datagram _ = nothing

module _ {X : External} (R : Runtime X) where
  abbrev pub forwarded_if : ℕ → Outcome Error (RxPk X) → Change
  forwarded_if random (ok p) = forwarded random
  forwarded_if random _ = nothing

  abbrev pub reported_if : ℕ → Outcome Error (Stat X) → Change
  reported_if random (ok p) = reported random
  reported_if random _ = nothing

  -- The change that an input stands for, in a world.
  abbrev pub change_of : World R → Input X → Change
  change_of w (up now random frame) =
      if passes w.state frame.rx_info
      then forwarded_if random (RxPk.from_proto X now frame)
      else nothing
  change_of w (stats now random s) = reported_if random (Stat.from_proto X now s)
  change_of w (datagram b) = change_of_datagram b
  change_of w (keepalive random missed) = nothing

  handle_pull_resp_state : (b : Bytes) (w : World R) → (handle_pull_resp R b w).1.state ≡ w.state
  unfolding handle_pull_resp count_sent
  handle_pull_resp_state b w = ground arith

  -- What a step leaves: the counters by the change, and the gateway id.
  abbrev Follows : World R → Change → Outcome HandlerError (Unit {0}) × World R → Type 0
  Follows w c r =
      (counters r.1.state ≡ apply c (counters w.state))
      × (r.1.state.gateway_id ≡ w.state.gateway_id)

  up_passed-Follows :
      WritesJson X
      → (now : X.DateTime) (random : ℕ) (frame : Gw.UplinkFrame X) (w : World R)
      → length w.state.gateway_id ≡ 8
      → passes w.state frame.rx_info ≡ true
      → (o : Outcome Error (RxPk X)) → RxPk.from_proto X now frame ≡ o
      → Follows w (forwarded_if random o) (events_up R now random frame w)
  up_passed-Follows writes now random frame w l t (ok p) e =
      let (b, _, q) = (events_up_outcome R writes now random frame w l).3 p t e in rw q (refl, refl)
  up_passed-Follows writes now random frame w l t (err x) e =
      rw ((events_up_outcome R writes now random frame w l).1 x e) (refl, refl)
  up_passed-Follows writes now random frame w l t panic e =
      rw ((events_up_outcome R writes now random frame w l).2 t e) (refl, refl)

  up-Follows :
      WritesJson X
      → (now : X.DateTime) (random : ℕ) (frame : Gw.UplinkFrame X) (w : World R)
      → length w.state.gateway_id ≡ 8
      → Follows w (change_of w (up now random frame)) (events_up R now random frame w)
  up-Follows writes now random frame w l = elim (Bool-cases (passes w.state frame.rx_info)) [
    | inl t ↦
        rw t (up_passed-Follows writes now random frame w l t (RxPk.from_proto X now frame) refl)
    | inr f ↦ rw (f, (events_up_outcome R writes now random frame w l).0 f) (refl, refl)
  ]

  ack-Follows :
      (b : Bytes) (s : State)
      → is_pull_resp b ≡ false
      → (counters (ack_effect b s) ≡ apply (change_of_datagram b) (counters s))
        × ((ack_effect b s).gateway_id ≡ s.gateway_id)
  ack-Follows [] s n = (refl, refl)
  ack-Follows (x ∷ []) s n = (refl, refl)
  ack-Follows (x ∷ y ∷ []) s n = (refl, refl)
  ack-Follows (x ∷ y ∷ z ∷ []) s n = (refl, refl)
  ack-Follows (v ∷ hi ∷ lo ∷ id ∷ []) s n = ground arith
  ack-Follows (v ∷ hi ∷ lo ∷ id ∷ x ∷ r) s n = (refl, refl)

  pub pull_resp_state :
      (v hi lo : ℕ) (r : Bytes) (w : World R)
      → (receive R (v ∷ hi ∷ lo ∷ 0x03 ∷ r) w).1.state ≡ w.state
  unfolding receive
  pull_resp_state v hi lo r w =
      ap (λ (t : World R). t.state)
        (log_error-world (handle_pull_resp R (v ∷ hi ∷ lo ∷ 0x03 ∷ r)) _)
      ∙ handle_pull_resp_state (v ∷ hi ∷ lo ∷ 0x03 ∷ r) _

  pull_resp-nothing :
      (v hi lo : ℕ) (r : Bytes) → change_of_datagram (v ∷ hi ∷ lo ∷ 0x03 ∷ r) ≡ nothing
  pull_resp-nothing v hi lo [] = ground arith
  pull_resp-nothing v hi lo (x ∷ r) = refl

  pull_resp3-Follows :
      (v hi lo : ℕ) (r : Bytes) (w : World R)
      → Follows w
          (change_of_datagram (v ∷ hi ∷ lo ∷ 0x03 ∷ r))
          (receive R (v ∷ hi ∷ lo ∷ 0x03 ∷ r) w)
  pull_resp3-Follows v hi lo r w = (
    ap counters (pull_resp_state v hi lo r w)
        ∙ sym (ap (λ c. apply c (counters w.state)) (pull_resp-nothing v hi lo r)),
    ap (λ (s : State). s.gateway_id) (pull_resp_state v hi lo r w),
  )

  pull_resp-Follows :
      (b : Bytes) (w : World R)
      → is_pull_resp b ≡ true
      → Follows w (change_of_datagram b) (receive R b w)
  pull_resp-Follows (v ∷ hi ∷ lo ∷ id ∷ r) w p =
      subst
        (λ k.
          Follows w (change_of_datagram (v ∷ hi ∷ lo ∷ k ∷ r)) (receive R (v ∷ hi ∷ lo ∷ k ∷ r) w))
        (sym ((==_iff id 0x03).0 p)) (pull_resp3-Follows v hi lo r w)
  pull_resp-Follows [] w p = cc
  pull_resp-Follows (x ∷ []) w p = cc
  pull_resp-Follows (x ∷ y ∷ []) w p = cc
  pull_resp-Follows (x ∷ y ∷ z ∷ []) w p = cc

  datagram-Follows : (b : Bytes) (w : World R) → Follows w (change_of_datagram b) (receive R b w)
  datagram-Follows b w = elim (Bool-cases (is_pull_resp b)) [
    | inl p ↦ pull_resp-Follows b w p
    | inr n ↦ rw (receive_acks R b w n) (ack-Follows b w.state n)
  ]

  keepalive-Follows :
      (random missed : ℕ) (w : World R) → Follows w nothing (handle R (keepalive random missed) w)
  unfolding handle pull_data_round count_sent
  keepalive-Follows random missed w = ground arith

  stats-Follows :
      WritesJson X
      → (now : X.DateTime) (random : ℕ) (s : Gw.GatewayStats X) (w : World R)
      → length w.state.gateway_id ≡ 8
      → Follows w (change_of w (stats now random s)) (events_stats R now random s w)
  stats-Follows writes now random s w l = elim (from_proto-cases X now s) [
    | inl (out, e) ↦ elim (events_stats_outcome R writes now random s w l) [
      | inl (_, q) ↦ rw (e, q) (refl, refl)
      | inr (within, _, _, _, _, _) ↦ absurd (within out)
    ]
    | inr (within, stat, e, c, z) ↦ elim (events_stats_outcome R writes now random s w l) [
      | inl (out, q) ↦ absurd (within out)
      | inr (_, p, b, _, _, q) ↦ rw (e, q) (refl, refl)
    ]
  ]

  handle-Follows :
      WritesJson X
      → (i : Input X) (w : World R) → length w.state.gateway_id ≡ 8
      → Follows w (change_of w i) (handle R i w)
  unfolding handle
  handle-Follows writes (up now random frame) w l = up-Follows writes now random frame w l
  handle-Follows writes (stats now random s) w l = stats-Follows writes now random s w l
  handle-Follows writes (datagram b) w l = datagram-Follows b w
  handle-Follows writes (keepalive random missed) w l = keepalive-Follows random missed w

  -- Nothing follows a panic.
  abbrev pub unless_panic : Outcome HandlerError (Unit {0}) → List Change → List Change
  unless_panic (ok a) rest = rest
  unless_panic (err e) rest = []
  unless_panic panic rest = []

  -- The changes of a history, up to a panic.
  abbrev pub changes : List (Input X) → World R → List Change
  changes [] w = []
  changes (i ∷ inputs) w =
      change_of w i ∷ unless_panic (handle R i w).0 (changes inputs (handle R i w).1)

  step-counters :
      (r : Outcome HandlerError (Unit {0}) × World R) (rest : M (World R) (Unit {0})) (c : Change)
      (later : List Change) (w : World R)
      → counters r.1.state ≡ apply c (counters w.state)
      → counters (rest r.1).1.state ≡ apply_all later (counters r.1.state)
      → counters (◌>>◌ (λ _. r) rest w).1.state
        ≡ apply_all (unless_panic r.0 later) (apply c (counters w.state))
  step-counters (ok a, v) rest c later w f ih = ih ∙ ap (apply_all later) f
  step-counters (err e, v) rest c later w f ih = f
  step-counters (panic, v) rest c later w f ih = f

  -- Over any history from a world with a gateway id of 8 bytes, and with a total JSON writer, the
  -- counters end as the specification says: by one change for each input, that of a forwarded frame,
  -- of a report that is written, of a PUSH_ACK in its wire form, or none; a panic ends the history.
  pub counters-run :
      WritesJson X
      → (inputs : List (Input X)) (w : World R) → length w.state.gateway_id ≡ 8
      → counters (run R inputs w).1.state ≡ apply_all (changes inputs w) (counters w.state)
  unfolding run
  counters-run writes [] w l = refl
  counters-run writes (i ∷ inputs) w l =
      step-counters (handle R i w) (run R inputs) (change_of w i) (changes inputs (handle R i w).1)
        w (handle-Follows writes i w l).0
        (counters-run writes inputs (handle R i w).1
          (ap length (handle-Follows writes i w l).1 ∙ l))
