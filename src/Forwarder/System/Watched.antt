-- ===== src/Forwarder/System/Watched.antt =====
-- What the keepalive loop looks at, and what the other threads of the forwarder leave of it.
use chirpstack_udp_forwarder.Reader.{Read, timeout, undecodable, event}
use chirpstack_udp_forwarder.Prelude.{
  if◌then◌else◌, ◌∙◌, ℕ, ◌≡◌, inl, inr, refl, sym, ap, arith, [], ◌∷◌, Bool, true, false, Bytes,
  Bool-cases, ◌==◌, ◌&&◌, ==_iff,
}
use mathlib.Core.Path.{subst}
use chirpstack_udp_forwarder.Bytes.{from_be_bytes_u16}
use chirpstack_udp_forwarder.External.{External}
use chirpstack_udp_forwarder.Gw
use chirpstack_udp_forwarder.Runtime.{Runtime}
use chirpstack_udp_forwarder.Structs.Acks.{protocol_version}
use chirpstack_udp_forwarder.Forwarder.State.{State}
use chirpstack_udp_forwarder.Forwarder.World.{World, count_sent}
use chirpstack_udp_forwarder.Forwarder.Events.{events_up, events_stats}
use chirpstack_udp_forwarder.Forwarder.Receive.{receive}
use chirpstack_udp_forwarder.Forwarder.Receive.Laws.{receive_acks, is_pull_resp, ack_effect}
use chirpstack_udp_forwarder.Forwarder.History.Refinement.{pull_resp_state}
use chirpstack_udp_forwarder.Prelude.{List, Option, none, some, ◌≢◌}
use chirpstack_udp_forwarder.Prelude.Outcome.{Outcome, ok, err, panic}
use chirpstack_udp_forwarder.Signals.{Signal, Channel}
use chirpstack_udp_forwarder.Forwarder.World.{HandlerError}
use chirpstack_udp_forwarder.Forwarder.System.{
  Thread, running, returned, Move, receive_round, events_round, keepalive_round, System,
  handle_read, handle_datagram, receive_loop_round, events_loop_round,
}

-- What the keepalive loop looks at.
abbrev pub Watched : Type 0
Watched = ℕ × ℕ × ℕ × Bytes

abbrev pub watched : State → Watched
watched s = (s.pull_data_token, s.pull_data_token_acked, s.keepalive_max_failures, s.gateway_id)

abbrev pub is_pull_ack : Bytes → Bool
is_pull_ack (v ∷ hi ∷ lo ∷ id ∷ []) = v == protocol_version && id == 0x04
is_pull_ack _ = false

-- The token that is the acknowledged one after a datagram.
abbrev pub acked_after : Bytes → ℕ → ℕ
acked_after (v ∷ hi ∷ lo ∷ id ∷ []) a =
    if v == protocol_version && id == 0x04 then from_be_bytes_u16 hi lo else a
acked_after _ a = a

abbrev pub heard : Bytes → Watched → Watched
heard b (token, acked, limit, id) = (token, acked_after b acked, limit, id)

-- The round gets no PULL_ACK, and draws no token 0 for a PULL_DATA, which is what
-- a new state holds as the acknowledged one.
abbrev pub IsUnanswered : {X : External} → Move X → Type 0
IsUnanswered (receive_round none) = Unit
IsUnanswered (receive_round (some b)) = is_pull_ack b ≡ false
IsUnanswered (events_round b now random) = Unit
IsUnanswered (keepalive_round random) = random ≢ 0

module _ {X : External} (R : Runtime X) where
  events_up-watched :
      (now : X.DateTime) (random : ℕ) (up : Gw.UplinkFrame X) (w : World R)
      → watched (events_up R now random up w).1.state ≡ watched w.state
  unfolding events_up count_sent
  events_up-watched now random up w = ground arith

  events_stats-watched :
      (now : X.DateTime) (random : ℕ) (stats : Gw.GatewayStats X) (w : World R)
      → watched (events_stats R now random stats w).1.state ≡ watched w.state
  unfolding events_stats count_sent
  events_stats-watched now random stats w = ground arith

  ack_effect-heard : (b : Bytes) (s : State) → watched (ack_effect b s) ≡ heard b (watched s)
  ack_effect-heard [] s = refl
  ack_effect-heard (x ∷ []) s = refl
  ack_effect-heard (x ∷ y ∷ []) s = refl
  ack_effect-heard (x ∷ y ∷ z ∷ []) s = refl
  ack_effect-heard (v ∷ hi ∷ lo ∷ id ∷ []) s = ground arith
  ack_effect-heard (v ∷ hi ∷ lo ∷ id ∷ x ∷ r) s = refl

  pull_resp-heard :
      (v hi lo : ℕ) (r : Bytes) (s : State) → watched s ≡ heard (v ∷ hi ∷ lo ∷ 0x03 ∷ r) (watched s)
  pull_resp-heard v hi lo [] s = ground arith
  pull_resp-heard v hi lo (x ∷ r) s = refl

  pub receive-heard :
      (b : Bytes) (w : World R) → watched (receive R b w).1.state ≡ heard b (watched w.state)
  receive-heard b w = elim (Bool-cases (is_pull_resp b)) [
    | inl p ↦ pull_resp b p
    | inr q ↦ rw (receive_acks R b w q) (ack_effect-heard b w.state)
  ]
    where
      pull_resp :
          (c : Bytes)
          → is_pull_resp c ≡ true
          → watched (receive R c w).1.state ≡ heard c (watched w.state)
      pull_resp (v ∷ hi ∷ lo ∷ id ∷ r) p =
          subst
            (λ k.
              watched (receive R (v ∷ hi ∷ lo ∷ k ∷ r) w).1.state
              ≡ heard (v ∷ hi ∷ lo ∷ k ∷ r) (watched w.state))
            (sym ((==_iff id 0x03).0 p))
            (ap watched (pull_resp_state R v hi lo r w) ∙ pull_resp-heard v hi lo r w.state)
      pull_resp [] p = cc
      pull_resp (x ∷ []) p = cc
      pull_resp (x ∷ y ∷ []) p = cc
      pull_resp (x ∷ y ∷ z ∷ []) p = cc

  acked_after-unheard : (b : Bytes) (a : ℕ) → is_pull_ack b ≡ false → acked_after b a ≡ a
  acked_after-unheard [] a n = refl
  acked_after-unheard (x ∷ []) a n = refl
  acked_after-unheard (x ∷ y ∷ []) a n = refl
  acked_after-unheard (x ∷ y ∷ z ∷ []) a n = refl
  acked_after-unheard (v ∷ hi ∷ lo ∷ id ∷ []) a n = rw n refl
  acked_after-unheard (v ∷ hi ∷ lo ∷ id ∷ x ∷ r) a n = refl

  receive-watched :
      (b : Bytes) (w : World R)
      → is_pull_ack b ≡ false
      → watched (receive R b w).1.state ≡ watched w.state
  receive-watched b w n =
      receive-heard b w
      ∙ ap (λ a. (w.state.pull_data_token, a, w.state.keepalive_max_failures, w.state.gateway_id))
          (acked_after-unheard b w.state.pull_data_token_acked n)

  abbrev pub Keeps : System R → Outcome HandlerError (Unit {0}) × System R → Type 0
  Keeps s r = (r.1.keepalive ≡ s.keepalive) × (watched r.1.world.state ≡ watched s.world.state)

  pub receive_loop_round-Keeps :
      (t : Thread) (b : Option Bytes) (r : Option Signal × List Channel) (s : System R)
      → IsUnanswered {X = X} (receive_round b)
      → Keeps s (receive_loop_round R t b r s)
  unfolding receive_loop_round handle_datagram
  receive_loop_round-Keeps returned b r s u = (refl, refl)
  receive_loop_round-Keeps running b (some signal, cs) s u = (refl, refl)
  receive_loop_round-Keeps running none (none, cs) s u = (refl, refl)
  receive_loop_round-Keeps running (some b) (none, cs) s u = (refl, receive-watched b s.world u)

  pub events_loop_round-Keeps :
      (t : Thread) (now : X.DateTime) (random : ℕ) (e : Outcome HandlerError (Read X))
      (r : Option Signal × List Channel) (s : System R)
      → Keeps s (events_loop_round R t now random e r s)
  unfolding events_loop_round handle_read
  events_loop_round-Keeps returned now random e r s = (refl, refl)
  events_loop_round-Keeps running now random panic r s = (refl, refl)
  events_loop_round-Keeps running now random (err e) r s = (refl, refl)
  events_loop_round-Keeps running now random (ok e) (some signal, cs) s = (refl, refl)
  events_loop_round-Keeps running now random (ok timeout) (none, cs) s = (refl, refl)
  events_loop_round-Keeps running now random (ok undecodable) (none, cs) s = (refl, refl)
  events_loop_round-Keeps running now random (ok (event (Gw.uplink_frame up))) (none, cs) s =
      (refl, events_up-watched now random up s.world)
  events_loop_round-Keeps running now random (ok (event (Gw.gateway_stats stats))) (none, cs) s =
      (refl, events_stats-watched now random stats s.world)
  events_loop_round-Keeps running now random (ok (event Gw.other_event)) (none, cs) s = (refl, refl)
