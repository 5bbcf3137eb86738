-- ===== src/Forwarder/System/Laws.antt =====
-- When the keepalive loop gives up, every thread of the forwarder returns.
use chirpstack_udp_forwarder.Reader.{Polled, Read, read_event}
use chirpstack_udp_forwarder.Prelude.{ℕ, List, [], ◌∷◌, Option, none, some, true, Bytes, ◌≡◌, refl}
use chirpstack_udp_forwarder.Prelude.Outcome.{Outcome, ok, err, panic}
use chirpstack_udp_forwarder.External.{External}
use chirpstack_udp_forwarder.Runtime.{Runtime}
use chirpstack_udp_forwarder.Metrics.{Metrics}
use chirpstack_udp_forwarder.Config.{Server}
use chirpstack_udp_forwarder.Signals.{
  Channel, waiting, closed, stop, take_signal, drop_receiver, new_receiver, new_pool, try_recv,
}
use chirpstack_udp_forwarder.Signals.Laws.{send_signal-open}
use chirpstack_udp_forwarder.Forwarder.World.{World, HandlerError}
use chirpstack_udp_forwarder.Forwarder.Keepalive.{pull_data_round, gives_up, count_missed}
use chirpstack_udp_forwarder.Forwarder.Keepalive.Laws.{round_gives_up}
use chirpstack_udp_forwarder.Forwarder.System.{
  Thread, running, returned, Keepalive, counting, stopped, Move, receive_round, events_round,
  keepalive_round, System, start, step, run_threads, receive_loop_round, events_loop_round,
  keepalive_loop_round, unless_ended, after_round, broadcast,
}

abbrev idle : List Channel
idle = waiting [] ∷ waiting [] ∷ []

-- A thread that was told to stop: the signal waits for it, or it returned and dropped its receiver.
abbrev pub Ends : Thread → Channel → Type 0
Ends running c = c ≡ waiting (stop ∷ [])
Ends returned c = c ≡ closed

-- While the keepalive loop runs, so do the others, and no signal waits; once it returned, both
-- others were told to stop.
abbrev pub Good : Keepalive → Thread → Thread → List Channel → Type 0
Good (counting m) rcv rd cs = (rcv ≡ running) × (rd ≡ running) × (cs ≡ waiting [] ∷ waiting [] ∷ [])
Good stopped rcv rd cs = (a : Channel) × (b : Channel) × (cs ≡ a ∷ b ∷ []) × Ends rcv a × Ends rd b

pub counting_injective : (a b : ℕ) → counting a ≡ counting b → a ≡ b
counting_injective a b h = cc

module _ {X : External} (R : Runtime X) where
  abbrev pub IsSound : System R → Type 0
  IsSound s = Good s.keepalive s.receiver s.reader s.pool.senders

  pub start-IsSound :
      (conf : Server) (id : Bytes) (sock : R.Sock) (m : Metrics R)
      → IsSound (start R conf id sock m)
  unfolding start new_receiver new_pool
  start-IsSound conf id sock m = (refl, refl, refl)

  abbrev pub with_threads : World R → List Channel → Thread → Thread → Keepalive → System R
  with_threads w cs rcv rd k = record {
    world = w;
    pool = record { senders = cs };
    receiver = rcv;
    reader = rd;
    keepalive = k;
  }

  receive_round-IsSound :
      (b : Option Bytes) (w : World R) (cs : List Channel) (rcv rd : Thread) (k : Keepalive)
      → Good k rcv rd cs
      → IsSound (step R (receive_round b) (with_threads w cs rcv rd k)).1
  unfolding step receive_loop_round take_signal drop_receiver try_recv
  receive_round-IsSound b w cs returned rd k g = g
  receive_round-IsSound b w cs running rd (counting m) (p, q, e) = rw e (p, q, refl)
  receive_round-IsSound b w cs running rd stopped (a, c, e, f, h) =
      rw (e, f) (closed, c, refl, refl, h)

  events_loop_round-IsSound :
      (now : X.DateTime) (random : ℕ) (o : Outcome HandlerError (Read X)) (w : World R)
      (cs : List Channel) (rcv rd : Thread) (k : Keepalive)
      → Good k rcv rd cs
      → IsSound
          (events_loop_round R rd now random o (take_signal 1 cs) (with_threads w cs rcv rd k)).1
  unfolding events_loop_round take_signal drop_receiver try_recv
  events_loop_round-IsSound now random o w cs rcv returned k g = g
  events_loop_round-IsSound now random panic w cs rcv running k g = g
  events_loop_round-IsSound now random (err e) w cs rcv running k g = g
  events_loop_round-IsSound now random (ok r) w cs rcv running (counting m) (p, q, e) =
      rw e (p, q, refl)
  events_loop_round-IsSound now random (ok r) w cs rcv running stopped (a, c, e, f, h) =
      rw (e, h) (a, closed, refl, f, refl)

  events_round-IsSound :
      (b : Polled) (now : X.DateTime) (random : ℕ) (w : World R) (cs : List Channel)
      (rcv rd : Thread) (k : Keepalive)
      → Good k rcv rd cs
      → IsSound (step R (events_round b now random) (with_threads w cs rcv rd k)).1
  unfolding step
  events_round-IsSound b now random w cs rcv rd k g =
      events_loop_round-IsSound now random (read_event R b) w cs rcv rd k g

  after_round-IsSound :
      (o : Outcome HandlerError (Option ℕ)) (v w : World R) (m : ℕ)
      → IsSound (after_round R (o, v) (with_threads w idle running running (counting m))).1
  unfolding after_round broadcast
  after_round-IsSound (ok (some k)) v w m = (refl, refl, refl)
  after_round-IsSound (ok none) v w m =
      rw (send_signal-open stop idle (tt, (tt, tt))) (_, _, refl, refl, refl)
  after_round-IsSound (err x) v w m = (refl, refl, refl)
  after_round-IsSound panic v w m = (refl, refl, refl)

  keepalive_round-IsSound :
      (random : ℕ) (w : World R) (cs : List Channel) (rcv rd : Thread) (k : Keepalive)
      → Good k rcv rd cs
      → IsSound (step R (keepalive_round random) (with_threads w cs rcv rd k)).1
  unfolding step keepalive_loop_round
  keepalive_round-IsSound random w cs rcv rd stopped g = g
  keepalive_round-IsSound random w cs rcv rd (counting m) (p, q, e) =
      rw (p, q, e)
        (after_round-IsSound (pull_data_round R random m w).0 (pull_data_round R random m w).1 w m)

  pub step-IsSound : (move : Move X) (s : System R) → IsSound s → IsSound (step R move s).1
  step-IsSound (receive_round b) s g =
      receive_round-IsSound b s.world s.pool.senders s.receiver s.reader s.keepalive g
  step-IsSound (events_round b now random) s g =
      events_round-IsSound b now random s.world s.pool.senders s.receiver s.reader s.keepalive g
  step-IsSound (keepalive_round random) s g =
      keepalive_round-IsSound random s.world s.pool.senders s.receiver s.reader s.keepalive g

  unless_ended-IsSound :
      (rest : System R → Outcome HandlerError (Unit {0}) × System R)
      → ((t : System R) → IsSound t → IsSound (rest t).1)
      → (r : Outcome HandlerError (Unit {0}) × System R) → IsSound r.1
      → IsSound (unless_ended R rest r).1
  unless_ended-IsSound rest keeps (ok a, t) h = keeps t h
  unless_ended-IsSound rest keeps (err e, t) h = h
  unless_ended-IsSound rest keeps (panic, t) h = h

  -- Run over any schedule, a system keeps this: while the keepalive loop runs, both other threads
  -- run and no signal waits for them; once it returned, each of them has the signal waiting or
  -- returned.
  pub run_threads-IsSound :
      (moves : List (Move X)) (s : System R) → IsSound s → IsSound (run_threads R moves s).1
  unfolding run_threads
  run_threads-IsSound [] s g = g
  run_threads-IsSound (move ∷ moves) s g =
      unless_ended-IsSound (run_threads R moves) (λ t h. run_threads-IsSound moves t h)
        (step R move s) (step-IsSound move s g)

  pub reachable-IsSound :
      (conf : Server) (id : Bytes) (sock : R.Sock) (m : Metrics R) (moves : List (Move X))
      → IsSound (run_threads R moves (start R conf id sock m)).1
  reachable-IsSound conf id sock m moves =
      run_threads-IsSound moves (start R conf id sock m) (start-IsSound conf id sock m)

  abbrev pub told : System R → System R
  told s = record s {
    pool = record { senders = waiting (stop ∷ []) ∷ waiting (stop ∷ []) ∷ [] };
    keepalive = stopped;
  }

  pub gives_up_parts :
      (random : ℕ) (w : World R) (cs : List Channel) (rcv rd : Thread) (k : Keepalive) (m : ℕ)
      → Good k rcv rd cs
      → k ≡ counting m
      → gives_up w.state (count_missed w.state m) ≡ true
      → step R (keepalive_round random) (with_threads w cs rcv rd k)
        ≡ (ok tt, told (with_threads w cs rcv rd k))
  unfolding step keepalive_loop_round after_round broadcast
  gives_up_parts random w cs rcv rd stopped m g e h = cc
  gives_up_parts random w cs rcv rd (counting m') m (p, q, i) e h =
      rw
        (
          counting_injective m' m e,
          i,
          round_gives_up R random m w h,
          send_signal-open stop idle (tt, (tt, tt)),
        )
        refl

  -- Where the keepalive loop of a forwarder gives up, after any schedule from its start, no `send`
  -- to the pool fails: the loop returns, the signal waits for both other threads, and nothing else
  -- changes.
  pub keepalive_round-told :
      (conf : Server) (id : Bytes) (sock : R.Sock) (m : Metrics R) (before : List (Move X))
      (random missed : ℕ)
      → (run_threads R before (start R conf id sock m)).1.keepalive ≡ counting missed
      → gives_up
          (run_threads R before (start R conf id sock m)).1.world.state
          (count_missed (run_threads R before (start R conf id sock m)).1.world.state missed)
        ≡ true
      → step R (keepalive_round random) (run_threads R before (start R conf id sock m)).1
        ≡ (ok tt, told (run_threads R before (start R conf id sock m)).1)
  keepalive_round-told conf id sock m before random missed k h =
      let s = (run_threads R before (start R conf id sock m)).1 in
      gives_up_parts random s.world s.pool.senders s.receiver s.reader s.keepalive missed
        (reachable-IsSound conf id sock m before) k h
