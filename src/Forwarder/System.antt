-- ===== src/Forwarder/System.antt =====
-- The threads that `start` of src/forwarder.rs spawns, with the stop signals between them: a round
-- of `udp_receive_loop`, of `events_loop` (with `Reader::next` of src/events.rs) and of
-- `pull_data_loop` is one step each, and a schedule is any list of them.
pub mod Laws
pub mod Stop
pub mod Silent
pub mod NoPanic
pub mod Answered
pub mod Restarts
pub mod Watched
use chirpstack_udp_forwarder.Prelude.{
  ℕ, List, [], ◌∷◌, Option, none, some, Bool, true, false, ◌&&◌, if◌then◌else◌, Bytes,
}
use chirpstack_udp_forwarder.Prelude.Outcome.{Outcome, ok, err, panic}
use chirpstack_udp_forwarder.External.{External}
use chirpstack_udp_forwarder.Gw
use chirpstack_udp_forwarder.Runtime.{Runtime}
use chirpstack_udp_forwarder.Metrics.{Metrics}
use chirpstack_udp_forwarder.Reader.{Polled, Read, timeout, undecodable, event, read_event}
use chirpstack_udp_forwarder.Config.{Server}
use chirpstack_udp_forwarder.Signals.{
  Signal, Channel, stop, SignalPool, new_pool, new_receiver, send_signal, take_signal,
  drop_receiver,
}
use chirpstack_udp_forwarder.Forwarder.State.{new_state}
use chirpstack_udp_forwarder.Forwarder.World.{World, M, HandlerError, pure}
use chirpstack_udp_forwarder.Forwarder.Events.{events_up, events_stats}
use chirpstack_udp_forwarder.Forwarder.Receive.{receive}
use chirpstack_udp_forwarder.Forwarder.Keepalive.{pull_data_round}

pub data Thread : Type 0 where
  running returned : Thread

-- The keepalive thread holds the pool, and its count of missed acknowledgements.
pub data Keepalive : Type 0 where
  counting : ℕ → Keepalive
  stopped : Keepalive

abbrev pub is_returned : Thread → Bool
is_returned running = false
is_returned returned = true

abbrev pub is_stopped : Keepalive → Bool
is_stopped (counting m) = false
is_stopped stopped = true

-- A round of a thread, with what it meets: the datagram that `recv` returns, if any, before its
-- timeout; what is polled on the event socket, with the time and the token drawn; a token.
pub data Move (X : External) : Type 0 where
  receive_round : Option Bytes → Move X
  events_round : Polled → X.DateTime → ℕ → Move X
  keepalive_round : ℕ → Move X

module _ {X : External} (R : Runtime X) where
  -- The receivers of the pool are that of the receive loop (0) and that of the events loop (1).
  pub record System : Type 0 where
    pub world : World R
    pub pool : SignalPool
    pub receiver : Thread
    pub reader : Thread
    pub keepalive : Keepalive

module _ {X : External} (R : Runtime X) where
  -- The head of `start`'s loop: a new state and a new socket, the process's counters as they are.
  unfoldable pub start : Server → Bytes → R.Sock → Metrics R → System R
  start conf gateway_id sock metrics = record {
    world = record {
      state = new_state conf gateway_id;
      command_sock = sock;
      metrics = metrics;
      sent = [];
    };
    pool = new_receiver (new_receiver new_pool);
    receiver = running;
    reader = running;
    keepalive = counting 0;
  }

  unfoldable pub handle_read : X.DateTime → ℕ → Read X → M (World R) (Unit {0})
  handle_read now random timeout = pure tt
  handle_read now random undecodable = pure tt
  handle_read now random (event (Gw.uplink_frame pl)) = events_up R now random pl
  handle_read now random (event (Gw.gateway_stats pl)) = events_stats R now random pl
  handle_read now random (event Gw.other_event) = pure tt

  unfoldable pub handle_datagram : Option Bytes → M (World R) (Unit {0})
  handle_datagram none = pure tt
  handle_datagram (some b) = receive R b

  -- A handler, on the system's world.
  abbrev pub in_world : M (World R) (Unit {0}) → M (System R) (Unit {0})
  in_world m s = ((m s.world).0, record s { world = (m s.world).1 })

  -- A thread that finds a signal returns; otherwise it goes on with its round. The events loop looks
  -- for a signal after it has read.
  unfoldable pub receive_loop_round :
      Thread → Option Bytes → Option Signal × List Channel → M (System R) (Unit {0})
  receive_loop_round returned b _ s = (ok tt, s)
  receive_loop_round running b (some signal, cs) s =
      (ok tt, record s { pool = record { senders = drop_receiver 0 cs }; receiver = returned })
  receive_loop_round running b (none, cs) s =
      in_world (handle_datagram b) (record s { pool = record { senders = cs } })

  unfoldable pub events_loop_round :
      Thread
      → X.DateTime
      → ℕ
      → Outcome HandlerError (Read X)
      → Option Signal × List Channel
      → M (System R) (Unit {0})
  events_loop_round returned now random r _ s = (ok tt, s)
  events_loop_round running now random panic _ s = (panic, s)
  events_loop_round running now random (err e) _ s = (err e, s)
  events_loop_round running now random (ok r) (some signal, cs) s =
      (ok tt, record s { pool = record { senders = drop_receiver 1 cs }; reader = returned })
  events_loop_round running now random (ok r) (none, cs) s =
      in_world (handle_read now random r) (record s { pool = record { senders = cs } })

  -- The signal is sent where the loop gives up; `send` panics if a receiver is gone.
  broadcast : World R → Outcome (Unit {0}) SignalPool → M (System R) (Unit {0})
  broadcast w (ok pool) s = (ok tt, record s { world = w; pool = pool; keepalive = stopped })
  broadcast w _ s = (panic, record s { world = w })

  after_round : Outcome HandlerError (Option ℕ) × World R → M (System R) (Unit {0})
  unfolding broadcast
  after_round (ok (some m), w) s = (ok tt, record s { world = w; keepalive = counting m })
  after_round (ok none, w) s = broadcast w (send_signal s.pool stop) s
  after_round (err e, w) s = (err e, record s { world = w })
  after_round (panic, w) s = (panic, record s { world = w })

  unfoldable pub keepalive_loop_round : Keepalive → ℕ → M (System R) (Unit {0})
  unfolding after_round
  keepalive_loop_round stopped random s = (ok tt, s)
  keepalive_loop_round (counting m) random s = after_round (pull_data_round R random m s.world) s

  unfoldable pub step : Move X → M (System R) (Unit {0})
  unfolding receive_loop_round events_loop_round keepalive_loop_round
  step (receive_round b) s = receive_loop_round s.receiver b (take_signal 0 s.pool.senders) s
  step (events_round b now random) s =
      events_loop_round s.reader now random (read_event R b) (take_signal 1 s.pool.senders) s
  step (keepalive_round random) s = keepalive_loop_round s.keepalive random s

  -- A panic ends the process.
  abbrev pub unless_ended :
      (System R → Outcome HandlerError (Unit {0}) × System R)
      → Outcome HandlerError (Unit {0}) × System R
      → Outcome HandlerError (Unit {0}) × System R
  unless_ended rest (ok a, s) = rest s
  unless_ended rest (err e, s) = (err e, s)
  unless_ended rest (panic, s) = (panic, s)

  unfoldable pub run_threads : List (Move X) → M (System R) (Unit {0})
  run_threads [] s = (ok tt, s)
  run_threads (move ∷ moves) s = unless_ended (run_threads moves) (step move s)

  -- All three threads are joined, so `start` goes round.
  unfoldable pub joined : System R → Bool
  joined s = is_returned s.receiver && is_returned s.reader && is_stopped s.keepalive
