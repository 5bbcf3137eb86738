-- ===== src/Forwarder/System/NoPanic.antt =====
-- What cannot end the process: everything but downlinks, uplinks with a context that is not 4 bytes
-- long, times outside chrono's range, and errors of the event socket.
mod Handlers
use mathlib.Core.Path.{subst}
use chirpstack_udp_forwarder.Reader.{
  Polled, poll_error, unreadable, receive_error, message, Read, timeout, undecodable, event,
  read_event,
}
use chirpstack_udp_forwarder.Prelude.{
  ℕ, sym, ◌≡◌, ◌≢◌, refl, ap, ◌∙◌, List, [], ◌∷◌, Option, none, some, true, false, Bytes, length,
  Bool-cases, ◌⊎◌, inl, inr, ==_iff,
}
use chirpstack_udp_forwarder.Prelude.Outcome.{Outcome, ok, err, panic}
use chirpstack_udp_forwarder.External.{External}
use chirpstack_udp_forwarder.Gw
use chirpstack_udp_forwarder.Runtime.{Runtime}
use chirpstack_udp_forwarder.Metrics.{Metrics}
use chirpstack_udp_forwarder.Config.{Server}
use chirpstack_udp_forwarder.Signals.{Signal, Channel, take_signal}
use chirpstack_udp_forwarder.Structs.Error.{Error}
use chirpstack_udp_forwarder.Structs.PullResp.{from_bytes}
use chirpstack_udp_forwarder.Structs.RxPk.{RxPk, from_proto}
use chirpstack_udp_forwarder.Forwarder.State.{new_state}
use chirpstack_udp_forwarder.Forwarder.World.{World, HandlerError}
use chirpstack_udp_forwarder.Forwarder.Events.{events_up, passes}
use chirpstack_udp_forwarder.Forwarder.Events.Laws.{
  WritesJson, events_up_outcome, events_stats_outcome,
}
use chirpstack_udp_forwarder.Forwarder.Receive.{receive, handle_pull_resp}
use chirpstack_udp_forwarder.Forwarder.Receive.Laws.{receive_acks, is_pull_resp}
use chirpstack_udp_forwarder.Forwarder.Keepalive.{gives_up, count_missed}
use chirpstack_udp_forwarder.Forwarder.Keepalive.Laws.{round_sends}
use chirpstack_udp_forwarder.Forwarder.System.{
  Thread, running, returned, Keepalive, counting, stopped, Move, receive_round, events_round,
  keepalive_round, System, start, step, run_threads, handle_read, handle_datagram,
  receive_loop_round, events_loop_round, keepalive_loop_round, unless_ended, after_round,
}
use chirpstack_udp_forwarder.Forwarder.System.Laws.{
  Good, IsSound, step-IsSound, start-IsSound, gives_up_parts, with_threads,
}
use chirpstack_udp_forwarder.Forwarder.System.Watched.{receive-heard}
use chirpstack_udp_forwarder.Forwarder.System.NoPanic.Handlers.{
  IsHarmless, IsNoDownlink, HandlesWell, handle_read-HandlesWell, receive-HandlesWell,
}

module _ {X : External} (R : Runtime X) where
  -- No datagram is a downlink, and every event is harmless.
  abbrev pub AllHarmless : List (Move X) → Type 0
  AllHarmless [] = Unit
  AllHarmless (receive_round none ∷ moves) = AllHarmless moves
  AllHarmless (receive_round (some b) ∷ moves) = IsNoDownlink X b × AllHarmless moves
  AllHarmless (events_round b now random ∷ moves) =
      IsHarmless now (read_event R b) × AllHarmless moves
  AllHarmless (keepalive_round random ∷ moves) = AllHarmless moves

  -- A step that ends well and keeps the length of the gateway id.
  abbrev EndsWell : Outcome HandlerError (Unit {0}) × System R → Type 0
  EndsWell r = (r.0 ≡ ok tt) × (length r.1.world.state.gateway_id ≡ 8)

  module _ (writes : WritesJson X) where
    receive_loop_round-EndsWell :
        (t : Thread) (b : Option Bytes) (r : Option Signal × List Channel) (s : System R)
        → length s.world.state.gateway_id ≡ 8
        → HandlesWell R (handle_datagram R b s.world)
        → EndsWell (receive_loop_round R t b r s)
    unfolding receive_loop_round
    receive_loop_round-EndsWell returned b r s l h = (refl, l)
    receive_loop_round-EndsWell running b (some signal, cs) s l h = (refl, l)
    receive_loop_round-EndsWell running b (none, cs) s l h = h

    events_loop_round-EndsWell :
        (t : Thread) (now : X.DateTime) (random : ℕ) (e : Outcome HandlerError (Read X))
        (r : Option Signal × List Channel) (s : System R)
        → length s.world.state.gateway_id ≡ 8
        → IsHarmless now e
        → EndsWell (events_loop_round R t now random e r s)
    unfolding events_loop_round
    events_loop_round-EndsWell returned now random e r s l h = (refl, l)
    events_loop_round-EndsWell running now random panic r s l h = absurd h
    events_loop_round-EndsWell running now random (err x) r s l h = absurd h
    events_loop_round-EndsWell running now random (ok e) (some signal, cs) s l h = (refl, l)
    events_loop_round-EndsWell running now random (ok e) (none, cs) s l h =
        handle_read-HandlesWell R writes now random e s.world l h

    keepalive_round-EndsWell :
        (random : ℕ) (w : World R) (cs : List Channel) (rcv rd : Thread) (k : Keepalive)
        → Good k rcv rd cs
        → length w.state.gateway_id ≡ 8
        → EndsWell (step R (keepalive_round random) (with_threads R w cs rcv rd k))
    unfolding step keepalive_loop_round after_round
    keepalive_round-EndsWell random w cs rcv rd stopped g l = (refl, l)
    keepalive_round-EndsWell random w cs rcv rd (counting m) g l =
        elim (Bool-cases (gives_up w.state (count_missed w.state m))) [
          | inl over ↦ rw (gives_up_parts R random w cs rcv rd (counting m) m g refl over) (refl, l)
          | inr under ↦ rw (round_sends R random m w l under) (refl, l)
        ]

    then_EndsWell :
        (rest : System R → Outcome HandlerError (Unit {0}) × System R)
        (r : Outcome HandlerError (Unit {0}) × System R)
        → r.0 ≡ ok tt
        → (rest r.1).0 ≡ ok tt
        → (unless_ended R rest r).0 ≡ ok tt
    then_EndsWell rest (ok a, s) e h = h
    then_EndsWell rest (err x, s) e h = e
    then_EndsWell rest (panic, s) e h = e

    datagram-EndsWell :
        (b : Bytes) (s : System R)
        → length s.world.state.gateway_id ≡ 8
        → IsNoDownlink X b
        → EndsWell (step R (receive_round (some b)) s)
    unfolding step handle_datagram
    datagram-EndsWell b s l n =
        receive_loop_round-EndsWell s.receiver (some b) (take_signal 0 s.pool.senders) s l
          (receive-HandlesWell R writes b s.world l n)

    receive_none-EndsWell :
        (s : System R)
        → length s.world.state.gateway_id ≡ 8
        → EndsWell (step R (receive_round none) s)
    unfolding step handle_datagram
    receive_none-EndsWell s l =
        receive_loop_round-EndsWell s.receiver none (take_signal 0 s.pool.senders) s l (refl, l)

    events_round-EndsWell :
        (b : Polled) (now : X.DateTime) (random : ℕ) (s : System R)
        → length s.world.state.gateway_id ≡ 8
        → IsHarmless now (read_event R b)
        → EndsWell (step R (events_round b now random) s)
    unfolding step
    events_round-EndsWell b now random s l h =
        events_loop_round-EndsWell s.reader now random (read_event R b)
          (take_signal 1 s.pool.senders) s l h

    run_threads-ok :
        (moves : List (Move X)) (s : System R)
        → IsSound R s
        → AllHarmless moves
        → length s.world.state.gateway_id ≡ 8
        → (run_threads R moves s).0 ≡ ok tt
    unfolding run_threads
    run_threads-ok [] s g h l = refl
    run_threads-ok (receive_round none ∷ moves) s g h l =
        let move = receive_round none in
        let (o, k) = receive_none-EndsWell s l in
        then_EndsWell (run_threads R moves) (step R move s) o
          (run_threads-ok moves (step R move s).1 (step-IsSound R move s g) h k)
    run_threads-ok (receive_round (some b) ∷ moves) s g (n, h) l =
        let move = receive_round (some b) in
        let (o, k) = datagram-EndsWell b s l n in
        then_EndsWell (run_threads R moves) (step R move s) o
          (run_threads-ok moves (step R move s).1 (step-IsSound R move s g) h k)
    run_threads-ok (events_round b now random ∷ moves) s g (n, h) l =
        let move = events_round b now random in
        let (o, k) = events_round-EndsWell b now random s l n in
        then_EndsWell (run_threads R moves) (step R move s) o
          (run_threads-ok moves (step R move s).1 (step-IsSound R move s g) h k)
    run_threads-ok (keepalive_round random ∷ moves) s g h l =
        let move = keepalive_round random in
        let (o, k) =
          keepalive_round-EndsWell random s.world s.pool.senders s.receiver s.reader s.keepalive g
            l in
        then_EndsWell (run_threads R moves) (step R move s) o
          (run_threads-ok moves (step R move s).1 (step-IsSound R move s g) h k)

    -- No schedule from the start of a forwarder panics, in any order of the threads' rounds, as long as
    -- every PULL_RESP among the datagrams is refused by `PullResp::from_bytes` with an error, no event
    -- is an uplink frame that makes `RxPk::from_proto` panic or has statistics with a time outside
    -- chrono's range, and no poll or receive on the event socket fails: neither other datagrams,
    -- however malformed, nor the stop of the threads. The gateway id has 8 bytes, and the JSON writer
    -- is total.
    pub run_threads-no_panic :
        (conf : Server) (id : Bytes) (sock : R.Sock) (m : Metrics R) (moves : List (Move X))
        → length id ≡ 8
        → AllHarmless moves
        → (run_threads R moves (start R conf id sock m)).0 ≡ ok tt
    unfolding start new_state
    run_threads-no_panic conf id sock m moves l h =
        run_threads-ok moves (start R conf id sock m) (start-IsSound R conf id sock m) h l
