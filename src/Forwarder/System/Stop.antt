-- ===== src/Forwarder/System/Stop.antt =====
-- What follows the stop signal of the keepalive loop.
use mathlib.Core.Path.{subst}
use chirpstack_udp_forwarder.Prelude.{ℕ, sym}
use chirpstack_udp_forwarder.Reader.{IsPolled, read_event-polled, Read}
use chirpstack_udp_forwarder.Prelude.{
  List, [], ◌∷◌, Bool, true, false, ◌||◌, ◌&&◌, Bytes, ◌≡◌, refl, ap, ◌∙◌,
}
use chirpstack_udp_forwarder.Prelude.Outcome.{Outcome, ok, err, panic}
use chirpstack_udp_forwarder.External.{External}
use chirpstack_udp_forwarder.Runtime.{Runtime}
use chirpstack_udp_forwarder.Metrics.{Metrics}
use chirpstack_udp_forwarder.Config.{Server}
use chirpstack_udp_forwarder.Signals.{Channel, take_signal, try_recv}
use chirpstack_udp_forwarder.Forwarder.World.{World, HandlerError}
use chirpstack_udp_forwarder.Forwarder.System.{
  Thread, running, returned, Keepalive, counting, stopped, Move, receive_round, events_round,
  keepalive_round, System, start, step, run_threads, joined, is_returned, receive_loop_round,
  events_loop_round, keepalive_loop_round, unless_ended,
}
use chirpstack_udp_forwarder.Forwarder.System.Laws.{IsSound, Good, step-IsSound, reachable-IsSound}

abbrev pub is_receive_round : {X : External} → Move X → Bool
is_receive_round (receive_round b) = true
is_receive_round _ = false

abbrev pub is_events_round : {X : External} → Move X → Bool
is_events_round (events_round b now random) = true
is_events_round _ = false

-- The event socket fails in no round.
abbrev IsReadable : {X : External} → Move X → Type 0
IsReadable (events_round b now random) = IsPolled b
IsReadable _ = Unit

abbrev pub AllReadable : {X : External} → List (Move X) → Type 0
AllReadable [] = Unit
AllReadable (m ∷ ms) = IsReadable m × AllReadable ms

-- Whether a schedule has such a round.
abbrev pub has : {X : External} → (Move X → Bool) → List (Move X) → Bool
has p [] = false
has p (m ∷ ms) = p m || has p ms

or_false : (b : Bool) → b ≡ b || false
or_false true = refl
or_false false = refl

all_returned : (a b : Bool) → ((a || true) && (b || true) && true) ≡ true
all_returned true true = refl
all_returned true false = refl
all_returned false true = refl
all_returned false false = refl

or_after : (x y a c : Bool) → x ≡ y || a → x || c ≡ y || (a || c)
or_after x true a c h = ap (λ b. b || c) h
or_after x false a c h = ap (λ b. b || c) h

module _ {X : External} (R : Runtime X) where
  -- A round after the stop: no handler runs, and a thread that has its round returns.
  abbrev Stopping : System R → Bool → Bool → Outcome HandlerError (Unit {0}) × System R → Type 0
  Stopping s receives reads (o, t) =
      (o ≡ ok tt)
      × (t.world ≡ s.world)
      × (t.keepalive ≡ stopped)
      × (is_returned t.receiver ≡ is_returned s.receiver || receives)
      × (is_returned t.reader ≡ is_returned s.reader || reads)

  abbrev threads_of : World R → List Channel → Thread → Thread → System R
  threads_of w cs rcv rd = record {
    world = w;
    pool = record { senders = cs };
    receiver = rcv;
    reader = rd;
    keepalive = stopped;
  }

  events_loop_round-threads_of :
      (now : X.DateTime) (random : ℕ) (r : Read X) (w : World R) (cs : List Channel) (rcv : Thread)
      → Good stopped rcv running cs
      → Stopping (threads_of w cs rcv running) false true (
          events_loop_round R running now random
            (ok r)
            (take_signal 1 cs)
            (threads_of w cs rcv running))
  unfolding events_loop_round take_signal try_recv
  events_loop_round-threads_of now random r w cs rcv (a, c, e, f, h) =
      rw (e, h) (refl, refl, refl, or_false _, refl)

  step-threads_of :
      (move : Move X) (w : World R) (cs : List Channel) (rcv rd : Thread)
      → Good stopped rcv rd cs
      → IsReadable move
      → Stopping
          (threads_of w cs rcv rd)
          (is_receive_round move)
          (is_events_round move)
          (step R move (threads_of w cs rcv rd))
  unfolding step receive_loop_round events_loop_round keepalive_loop_round take_signal try_recv
  step-threads_of (receive_round b) w cs returned rd g i = (refl, refl, refl, refl, or_false _)
  step-threads_of (receive_round b) w cs running rd (a, c, e, f, h) i =
      rw (e, f) (refl, refl, refl, refl, or_false _)
  step-threads_of (events_round b now random) w cs rcv returned g i =
      (refl, refl, refl, or_false _, refl)
  step-threads_of (events_round b now random) w cs rcv running g i =
      let (r, e) = read_event-polled R b i in
      subst
        (λ o. Stopping (threads_of w cs rcv running) false true (
          events_loop_round R running now random o (take_signal 1 cs)
            (threads_of w cs rcv running)))
        (sym e) (events_loop_round-threads_of now random r w cs rcv g)
  step-threads_of (keepalive_round random) w cs rcv rd g i =
      (refl, refl, refl, or_false _, or_false _)

  step-parts :
      (move : Move X) (w : World R) (cs : List Channel) (rcv rd : Thread) (k : Keepalive)
      → Good k rcv rd cs
      → k ≡ stopped
      → IsReadable move
      → Stopping
          (record (threads_of w cs rcv rd) { keepalive = k })
          (is_receive_round move)
          (is_events_round move)
          (step R move (record (threads_of w cs rcv rd) { keepalive = k }))
  step-parts move w cs rcv rd stopped g e i = step-threads_of move w cs rcv rd g i
  step-parts move w cs rcv rd (counting m) g e i = cc

  step-Stopping :
      (move : Move X) (s : System R)
      → IsSound R s
      → s.keepalive ≡ stopped
      → IsReadable move
      → Stopping s (is_receive_round move) (is_events_round move) (step R move s)
  step-Stopping move s g k i =
      step-parts move s.world s.pool.senders s.receiver s.reader s.keepalive g k i

  -- Of a step that stops and a rest that stops.
  stops_then :
      (s : System R) (a b c d : Bool) (rest : System R → Outcome HandlerError (Unit {0}) × System R)
      (r : Outcome HandlerError (Unit {0}) × System R)
      → Stopping s a b r
      → Stopping r.1 c d (rest r.1)
      → Stopping s (a || c) (b || d) (unless_ended R rest r)
  stops_then s a b c d rest (ok tt, t) (_, w, k, p, q) (o, w', k', p', q') =
      (o, w' ∙ w, k', p' ∙ or_after _ _ _ _ p, q' ∙ or_after _ _ _ _ q)
  stops_then s a b c d rest (err e, t) h i = cc
  stops_then s a b c d rest (panic, t) h i = cc

  run_threads-Stopping :
      (moves : List (Move X)) (s : System R)
      → IsSound R s
      → s.keepalive ≡ stopped
      → AllReadable moves
      → Stopping s (has is_receive_round moves) (has is_events_round moves) (run_threads R moves s)
  unfolding run_threads
  run_threads-Stopping [] s g k i = (refl, refl, k, or_false _, or_false _)
  run_threads-Stopping (move ∷ moves) s g k i =
      let (o, w, stays, p, q) = step-Stopping move s g k i.0 in
      stops_then s _ _ _ _ (run_threads R moves) (step R move s) (o, w, stays, p, q)
        (run_threads-Stopping moves (step R move s).1 (step-IsSound R move s g) stays i.1)

  -- Once the keepalive loop of a forwarder has returned, after any schedule from its start, any
  -- further schedule with a round of the receive loop and a round of the events loop, whatever they
  -- meet but an error of the event socket, joins all three threads, so `start` goes round; it panics
  -- nowhere and runs no handler.
  pub stop-joined :
      (conf : Server) (id : Bytes) (sock : R.Sock) (m : Metrics R) (before after : List (Move X))
      → (run_threads R before (start R conf id sock m)).1.keepalive ≡ stopped
      → AllReadable after
      → has is_receive_round after ≡ true
      → has is_events_round after ≡ true
      → ((run_threads R after (run_threads R before (start R conf id sock m)).1).0 ≡ ok tt)
        × ((run_threads R after (run_threads R before (start R conf id sock m)).1).1.world
            ≡ (run_threads R before (start R conf id sock m)).1.world)
        × (joined R (run_threads R after (run_threads R before (start R conf id sock m)).1).1
            ≡ true)
  unfolding joined
  stop-joined conf id sock m before after k i r e =
      let s = (run_threads R before (start R conf id sock m)).1 in
      let (o, w, stays, p, q) =
        run_threads-Stopping after s (reachable-IsSound R conf id sock m before) k i in
      (o, w, rw (p, q, r, e, stays) (all_returned _ _))
