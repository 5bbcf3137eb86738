-- ===== src/Forwarder/System/Restarts.antt =====
-- The loop of `start` in src/forwarder.rs: when the threads of one life of the forwarder are joined,
-- the next one begins with a new state and new sockets. The process's counters stay.
use mathlib.Core.Path.{fun_ext}
use chirpstack_udp_forwarder.Prelude.{
  ℕ, suc, ◌+◌, ◌≤◌, ◌<◌, ◌^◌, ◌≡◌, ◌≢◌, refl, ap, ◌∙◌, List, [], ◌∷◌, ◌++◌, Bool, true, false,
  Option, some, Text, Bytes, length, All,
}
use chirpstack_udp_forwarder.Prelude.Outcome.{Outcome, ok, err, panic, unwrap, expect, ◌>>=◌, ◌>>◌}
use chirpstack_udp_forwarder.External.{External}
use chirpstack_udp_forwarder.Runtime.{Runtime}
use chirpstack_udp_forwarder.Metrics.{Metrics}
use chirpstack_udp_forwarder.Sockets.{Zmq, event_socket, command_socket}
use chirpstack_udp_forwarder.Config.{Server}
use chirpstack_udp_forwarder.Forwarder.World.{HandlerError}
use chirpstack_udp_forwarder.Forwarder.System.{
  Move, System, start, step, run_threads, unless_ended, joined,
}
use chirpstack_udp_forwarder.Forwarder.System.Stop.{
  AllReadable, has, is_receive_round, is_events_round,
}
use chirpstack_udp_forwarder.Forwarder.System.Silent.{
  AllUnanswered, keepalive_rounds, silent_server-joined,
}

module _ {X : External} (R : Runtime X) where
  -- One turn of the loop: whether the UDP socket is bound and connected, what ZeroMQ does, and the
  -- rounds of the threads.
  pub record Life : Type 0 where
    pub udp : Option (Unit {0})
    pub zmq : Zmq R
    pub moves : List (Move X)

module _ {X : External} (R : Runtime X) (conf : Server) (event_url command_url : Text)
    (gateway_id : Bytes) where
  -- The sockets, each with its `expect`, and the threads.
  begin : Life R → Metrics R → Outcome HandlerError (System R)
  begin life m = do
    unwrap life.udp
    sub_sock ← expect (event_socket life.zmq event_url)
    command_sock ← expect (command_socket life.zmq command_url)
    ok (start R conf gateway_id command_sock m)

  live :
      Life R
      → Metrics R
      → Outcome HandlerError (System R)
      → Outcome HandlerError (Unit {0}) × Metrics R × Bool
  live life m (ok s) = let (o, t) = run_threads R life.moves s in (o, t.world.metrics, joined R t)
  live life m (err e) = (err e, m, true)
  live life m panic = (panic, m, true)

  one_more : Outcome HandlerError ℕ × Metrics R → Outcome HandlerError ℕ × Metrics R
  one_more (ok n, m) = (ok (suc n), m)
  one_more (err e, m) = (err e, m)
  one_more (panic, m) = (panic, m)

  -- A life whose threads are not joined when its rounds are used up is the last one.
  after_life :
      (Metrics R → Outcome HandlerError ℕ × Metrics R)
      → Outcome HandlerError (Unit {0}) × Metrics R × Bool
      → Outcome HandlerError ℕ × Metrics R
  unfolding one_more
  after_life next (ok a, m, true) = one_more (next m)
  after_life next (ok a, m, false) = (ok 0, m)
  after_life next (err e, m, b) = (err e, m)
  after_life next (panic, m, b) = (panic, m)

  -- How many lives ended with all threads joined, and the counters at the end.
  unfoldable pub restarts : List (Life R) → Metrics R → Outcome HandlerError ℕ × Metrics R
  unfolding begin live after_life
  restarts [] m = (ok 0, m)
  restarts (life ∷ lives) m = after_life (restarts lives) (live life m (begin life m))

module _ {X : External} (R : Runtime X) where
  unless_ended-unless_ended :
      (f g : System R → Outcome HandlerError (Unit {0}) × System R)
      (r : Outcome HandlerError (Unit {0}) × System R)
      → unless_ended R (λ s. unless_ended R g (f s)) r ≡ unless_ended R g (unless_ended R f r)
  unless_ended-unless_ended f g (ok a, s) = refl
  unless_ended-unless_ended f g (err e, s) = refl
  unless_ended-unless_ended f g (panic, s) = refl

  run_threads-append :
      (xs ys : List (Move X)) (s : System R)
      → run_threads R (xs ++ ys) s ≡ unless_ended R (run_threads R ys) (run_threads R xs s)
  unfolding run_threads
  run_threads-append [] ys s = refl
  run_threads-append (x ∷ xs) ys s =
      ap (λ f. unless_ended R f (step R x s)) (fun_ext (run_threads-append xs ys))
      ∙ unless_ended-unless_ended (run_threads R xs) (run_threads R ys) (step R x s)

  goes_on :
      (f : System R → Outcome HandlerError (Unit {0}) × System R)
      (r : Outcome HandlerError (Unit {0}) × System R)
      → r.0 ≡ ok tt
      → unless_ended R f r ≡ f r.1
  goes_on f (ok a, s) e = refl
  goes_on f (err x, s) e = cc
  goes_on f (panic, s) e = cc

module _ {X : External} (R : Runtime X) (conf : Server) (event_url command_url : Text)
    (gateway_id : Bytes) where
  -- A life whose sockets are created and whose server acknowledges no PULL_DATA: in its rounds, the
  -- keepalive loop has its `keepalive_max_failures` + 2, and after them the two other threads have
  -- one each, without an error of the event socket.
  pub record IsSilentLife (life : Life R) : Type 0 where
    pub sub_sock : R.Sock
    pub command_sock : R.Sock
    pub bound : life.udp ≡ some tt
    pub subscribed : event_socket life.zmq event_url ≡ ok sub_sock
    pub connected : command_socket life.zmq command_url ≡ ok command_sock
    pub before : List (Move X)
    pub after : List (Move X)
    pub in_order : life.moves ≡ before ++ after
    pub silent : AllUnanswered before
    pub enough : conf.keepalive_max_failures + 2 ≤ keepalive_rounds before 0
    pub no_panic :
        (m : Metrics R) → (run_threads R before (start R conf gateway_id command_sock m)).0 ≡ ok tt
    pub readable : AllReadable after
    pub received : has is_receive_round after ≡ true
    pub read : has is_events_round after ≡ true

  one_more-ok :
      (r : Outcome HandlerError ℕ × Metrics R) (n : ℕ)
      → r.0 ≡ ok n
      → (one_more R conf event_url command_url gateway_id r).0 ≡ ok (suc n)
  unfolding one_more
  one_more-ok (ok k, m) n e = cc
  one_more-ok (err x, m) n e = cc
  one_more-ok (panic, m) n e = cc

  after_life-joined :
      (next : Metrics R → Outcome HandlerError ℕ × Metrics R) (n : ℕ)
      (r : Outcome HandlerError (Unit {0})) (m : Metrics R) (b : Bool)
      → r ≡ ok tt
      → b ≡ true
      → (next m).0 ≡ ok n
      → (after_life R conf event_url command_url gateway_id next (r, m, b)).0 ≡ ok (suc n)
  unfolding after_life
  after_life-joined next n (ok a) m true e f h = one_more-ok (next m) n h
  after_life-joined next n (ok a) m false e f h = cc
  after_life-joined next n (err x) m b e f h = cc
  after_life-joined next n panic m b e f h = cc

  module _ (life : Life R) (q : IsSilentLife life) (m : Metrics R) where
    whole_run :
        run_threads R life.moves (start R conf gateway_id q.command_sock m)
        ≡ run_threads R q.after
            (run_threads R q.before (start R conf gateway_id q.command_sock m)).1
    whole_run =
        let s = start R conf gateway_id q.command_sock m in
        ap (λ moves. run_threads R moves s) q.in_order
        ∙ (run_threads-append R q.before q.after s
            ∙ goes_on R (run_threads R q.after) (run_threads R q.before s) (q.no_panic m))

    life-joined :
        conf.keepalive_max_failures ≢ 0
        → conf.keepalive_max_failures + 1 < 2 ^ 32
        → length gateway_id ≡ 8
        → ((run_threads R life.moves (start R conf gateway_id q.command_sock m)).0 ≡ ok tt)
          × (joined R (run_threads R life.moves (start R conf gateway_id q.command_sock m)).1
              ≡ true)
    life-joined limited small l =
        let (k, o, j) =
          silent_server-joined R conf gateway_id q.command_sock m q.before q.after limited small l
            q.silent q.enough (q.no_panic m) q.readable q.received q.read in
        (ap (λ r. r.0) whole_run ∙ o, ap (λ r. joined R r.1) whole_run ∙ j)

  -- As long as its server acknowledges no PULL_DATA, a forwarder starts over: for any number of lives
  -- like this, one after the other, whatever else the threads meet in them, `start` goes round once
  -- for each, and never panics. The limit is not 0 (and below 2 ^ 32 - 1), and the gateway id has 8
  -- bytes; in a life the sockets are created, no datagram is a PULL_ACK and no token of a PULL_DATA
  -- is 0 until the keepalive loop has had `keepalive_max_failures` + 2 rounds, no round until then
  -- panics, and then the two other threads have a round each, without an error of the event socket.
  pub silent_server-restarts :
      (lives : List (Life R)) (m : Metrics R)
      → conf.keepalive_max_failures ≢ 0
      → conf.keepalive_max_failures + 1 < 2 ^ 32
      → length gateway_id ≡ 8
      → All IsSilentLife lives
      → (restarts R conf event_url command_url gateway_id lives m).0 ≡ ok (length lives)
  unfolding restarts
  silent_server-restarts [] m limited small l h = refl
  silent_server-restarts (life ∷ lives) m limited small l (q, h) =
      let (ends, joins) = life-joined life q m limited small l in
      rw (q.bound, q.subscribed, q.connected)
        (after_life-joined (restarts R conf event_url command_url gateway_id lives) (length lives) _
          _ _ ends joins (silent_server-restarts lives _ limited small l h))
