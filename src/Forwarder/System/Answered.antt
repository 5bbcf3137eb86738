-- ===== src/Forwarder/System/Answered.antt =====
-- A server that acknowledges every PULL_DATA before the next one, followed through the whole
-- forwarder.
use chirpstack_udp_forwarder.Reader.{Polled, read_event}
use chirpstack_udp_forwarder.Prelude.{
  ℕ, ◌≡◌, refl, sym, ap, ◌∙◌, arith, List, [], ◌∷◌, none, some, false, Bytes, length,
}
use mathlib.Core.Path.{subst}
use chirpstack_udp_forwarder.Prelude.Outcome.{Outcome, ok, err, panic}
use chirpstack_udp_forwarder.External.{External}
use chirpstack_udp_forwarder.Runtime.{Runtime}
use chirpstack_udp_forwarder.Metrics.{Metrics}
use chirpstack_udp_forwarder.Config.{Server}
use chirpstack_udp_forwarder.Signals.{Channel, take_signal, try_recv}
use chirpstack_udp_forwarder.Forwarder.State.{State, new_state}
use chirpstack_udp_forwarder.Forwarder.World.{World, HandlerError}
use chirpstack_udp_forwarder.Forwarder.Keepalive.{gives_up, count_missed}
use chirpstack_udp_forwarder.Forwarder.Keepalive.Laws.{round_sends}
use chirpstack_udp_forwarder.Forwarder.System.{
  Thread, running, Keepalive, counting, stopped, Move, receive_round, events_round, keepalive_round,
  System, start, step, run_threads, handle_datagram, receive_loop_round, keepalive_loop_round,
  unless_ended, after_round,
}
use chirpstack_udp_forwarder.Forwarder.System.Laws.{
  Good, IsSound, step-IsSound, start-IsSound, reachable-IsSound, with_threads, counting_injective,
}
use chirpstack_udp_forwarder.Forwarder.System.Watched.{
  Keeps, receive_loop_round-Keeps, events_loop_round-Keeps, watched, Watched, acked_after, heard,
  receive-heard,
}

-- Wherever the keepalive loop has its round, the last token that was drawn is the one that the last
-- PULL_ACK among the received datagrams carries. The numbers are these two tokens at the start.
abbrev pub AllAnswered : {X : External} → (drawn acked : ℕ) → List (Move X) → Type 0
AllAnswered drawn acked [] = Unit
AllAnswered drawn acked (receive_round none ∷ moves) = AllAnswered drawn acked moves
AllAnswered drawn acked (receive_round (some b) ∷ moves) =
    AllAnswered drawn (acked_after b acked) moves
AllAnswered drawn acked (events_round b now random ∷ moves) = AllAnswered drawn acked moves
AllAnswered drawn acked (keepalive_round random ∷ moves) =
    (drawn ≡ acked) × AllAnswered random acked moves

-- These are the tokens.
abbrev Tokens : (drawn acked : ℕ) → Watched → Type 0
Tokens drawn acked (token, last, limit, id) = (token ≡ drawn) × (last ≡ acked) × (length id ≡ 8)

-- The keepalive loop counts no miss.
abbrev Answered : (drawn acked : ℕ) → Keepalive → Watched → Type 0
Answered drawn acked k x = (k ≡ counting 0) × Tokens drawn acked x

heard-Tokens :
    (drawn acked : ℕ) (b : Bytes) (x : Watched)
    → Tokens drawn acked x
    → Tokens drawn (acked_after b acked) (heard b x)
heard-Tokens drawn acked b (token, last, limit, id) (t, a, l) = (t, ap (acked_after b) a, l)

none_missed : (s : State) → s.pull_data_token ≡ s.pull_data_token_acked → count_missed s 0 ≡ 0
unfolding count_missed
none_missed s e = ground arith

goes_on_at_zero : (s : State) → gives_up s 0 ≡ false
unfolding gives_up
goes_on_at_zero s = ground arith

module _ {X : External} (R : Runtime X) where
  abbrev IsAnswered : (drawn acked : ℕ) → System R → Type 0
  IsAnswered drawn acked s = Answered drawn acked s.keepalive (watched s.world.state)

  Keeps-IsAnswered :
      (drawn acked : ℕ) (s : System R) (r : Outcome HandlerError (Unit {0}) × System R)
      → Keeps R s r
      → IsAnswered drawn acked s
      → IsAnswered drawn acked r.1
  Keeps-IsAnswered drawn acked s r (p, q) (z, h) = (p ∙ z, subst (Tokens drawn acked) (sym q) h)

  receive_none-Keeps : (s : System R) → Keeps R s (step R (receive_round none) s)
  unfolding step
  receive_none-Keeps s =
      receive_loop_round-Keeps R s.receiver none (take_signal 0 s.pool.senders) s tt

  events_round-Keeps :
      (b : Polled) (now : X.DateTime) (random : ℕ) (s : System R)
      → Keeps R s (step R (events_round b now random) s)
  unfolding step
  events_round-Keeps b now random s =
      events_loop_round-Keeps R s.reader now random (read_event R b) (take_signal 1 s.pool.senders)
        s

  datagram-IsAnswered :
      (drawn acked : ℕ) (b : Bytes) (w : World R) (cs : List Channel) (rcv rd : Thread)
      (k : Keepalive)
      → Good k rcv rd cs
      → Answered drawn acked k (watched w.state)
      → IsAnswered drawn
          (acked_after b acked)
          (step R (receive_round (some b)) (with_threads R w cs rcv rd k)).1
  unfolding step receive_loop_round handle_datagram take_signal try_recv
  datagram-IsAnswered drawn acked b w cs rcv rd stopped g h = cc
  datagram-IsAnswered drawn acked b w cs rcv rd (counting m) (p, q, e) (z, h) =
      rw (p, e)
        (
          z,
          subst (Tokens drawn (acked_after b acked)) (sym (receive-heard R b w))
              (heard-Tokens drawn acked b (watched w.state) h),
        )

  keepalive_round-IsAnswered :
      (drawn acked random : ℕ) (w : World R) (cs : List Channel) (rcv rd : Thread) (k : Keepalive)
      → drawn ≡ acked
      → Answered drawn acked k (watched w.state)
      → IsAnswered random acked (step R (keepalive_round random) (with_threads R w cs rcv rd k)).1
  unfolding step keepalive_loop_round after_round
  keepalive_round-IsAnswered drawn acked random w cs rcv rd stopped d h = cc
  keepalive_round-IsAnswered drawn acked random w cs rcv rd (counting m) d (z, (t, a, l)) =
      let none = none_missed w.state (t ∙ (d ∙ sym a)) in
      rw
        (
          counting_injective m 0 z,
          round_sends R random 0 w l (ap (gives_up w.state) none ∙ goes_on_at_zero w.state),
        )
        (ap counting none, (refl, a, l))

  unless_ended-answered :
      (rest : System R → Outcome HandlerError (Unit {0}) × System R)
      (r : Outcome HandlerError (Unit {0}) × System R)
      → r.1.keepalive ≡ counting 0
      → (rest r.1).1.keepalive ≡ counting 0
      → (unless_ended R rest r).1.keepalive ≡ counting 0
  unless_ended-answered rest (ok a, s) h i = i
  unless_ended-answered rest (err e, s) h i = h
  unless_ended-answered rest (panic, s) h i = h

  run_threads-answered :
      (moves : List (Move X)) (drawn acked : ℕ) (s : System R)
      → IsSound R s
      → AllAnswered drawn acked moves
      → IsAnswered drawn acked s
      → (run_threads R moves s).1.keepalive ≡ counting 0
  unfolding run_threads
  run_threads-answered [] drawn acked s g u h = h.0
  run_threads-answered (receive_round none ∷ moves) drawn acked s g u h =
      let move = receive_round none in
      let i = Keeps-IsAnswered drawn acked s (step R move s) (receive_none-Keeps s) h in
      unless_ended-answered (run_threads R moves) (step R move s) i.0
        (run_threads-answered moves drawn acked (step R move s).1 (step-IsSound R move s g) u i)
  run_threads-answered (receive_round (some b) ∷ moves) drawn acked s g u h =
      let move = receive_round (some b) in
      let i =
        datagram-IsAnswered drawn acked b s.world s.pool.senders s.receiver s.reader s.keepalive g
          h in
      unless_ended-answered (run_threads R moves) (step R move s) i.0 (
        run_threads-answered moves drawn (acked_after b acked) (step R move s).1
          (step-IsSound R move s g) u i)
  run_threads-answered (events_round b now random ∷ moves) drawn acked s g u h =
      let move = events_round b now random in
      let i =
        Keeps-IsAnswered drawn acked s (step R move s) (events_round-Keeps b now random s) h in
      unless_ended-answered (run_threads R moves) (step R move s) i.0
        (run_threads-answered moves drawn acked (step R move s).1 (step-IsSound R move s g) u i)
  run_threads-answered (keepalive_round random ∷ moves) drawn acked s g (d, u) h =
      let move = keepalive_round random in
      let i =
        keepalive_round-IsAnswered drawn acked random s.world s.pool.senders s.receiver s.reader
          s.keepalive d h in
      unless_ended-answered (run_threads R moves) (step R move s) i.0
        (run_threads-answered moves random acked (step R move s).1 (step-IsSound R move s g) u i)

  -- A server that answers keeps a forwarder running: after any schedule from its start in which,
  -- wherever the keepalive loop has its round, the token of the last PULL_ACK received is the last one
  -- drawn (0 at first), whatever else the threads meet, the keepalive loop counts no missed
  -- acknowledgement and has not returned, and neither have the other threads. The gateway id has 8
  -- bytes.
  pub answered-running :
      (conf : Server) (id : Bytes) (sock : R.Sock) (m : Metrics R) (moves : List (Move X))
      → length id ≡ 8
      → AllAnswered 0 0 moves
      → ((run_threads R moves (start R conf id sock m)).1.keepalive ≡ counting 0)
        × ((run_threads R moves (start R conf id sock m)).1.receiver ≡ running)
        × ((run_threads R moves (start R conf id sock m)).1.reader ≡ running)
  unfolding start new_state
  answered-running conf id sock m moves l u =
      let s = (run_threads R moves (start R conf id sock m)).1 in
      let k =
        run_threads-answered moves 0 0 (start R conf id sock m) (start-IsSound R conf id sock m) u
          (refl, (refl, refl, l)) in
      let (p, q, e) =
        subst (λ a. Good a s.receiver s.reader s.pool.senders) k
          (reachable-IsSound R conf id sock m moves) in
      (k, p, q)
