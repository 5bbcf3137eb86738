-- ===== src/Forwarder/System/Silent.antt =====
-- A server that never acknowledges a PULL_DATA, followed through the whole forwarder.
use chirpstack_udp_forwarder.Reader.{read_event}
use chirpstack_udp_forwarder.Prelude.{
  ℕ, zero, suc, ◌+◌, ◌≤◌, ◌<◌, ◌^◌, ◌≡◌, ◌≢◌, refl, arith, List, [], ◌∷◌, true, false, Bytes,
  length, Bool-cases, inl, inr,
}
use chirpstack_udp_forwarder.Prelude.Outcome.{Outcome, ok, err, panic}
use chirpstack_udp_forwarder.External.{External}
use chirpstack_udp_forwarder.Runtime.{Runtime}
use chirpstack_udp_forwarder.Metrics.{Metrics}
use chirpstack_udp_forwarder.Config.{Server}
use chirpstack_udp_forwarder.Signals.{Channel, take_signal}
use chirpstack_udp_forwarder.Forwarder.State.{State, new_state}
use chirpstack_udp_forwarder.Forwarder.World.{World, HandlerError}
use chirpstack_udp_forwarder.Forwarder.Keepalive.{gives_up, count_missed}
use chirpstack_udp_forwarder.Forwarder.Keepalive.Laws.{round_sends}
use chirpstack_udp_forwarder.Forwarder.System.{
  Thread, Keepalive, counting, stopped, Move, receive_round, events_round, keepalive_round, System,
  start, step, run_threads, keepalive_loop_round, unless_ended, after_round, joined,
}
use chirpstack_udp_forwarder.Forwarder.System.Laws.{
  Good, IsSound, step-IsSound, start-IsSound, gives_up_parts, with_threads,
}
use chirpstack_udp_forwarder.Forwarder.System.Stop.{
  AllReadable, stop-joined, has, is_receive_round, is_events_round,
}
use chirpstack_udp_forwarder.Forwarder.System.Watched.{
  watched, Watched, IsUnanswered, Keeps, receive_loop_round-Keeps, events_loop_round-Keeps,
}

-- A schedule of a server that acknowledges no PULL_DATA.
abbrev pub AllUnanswered : {X : External} → List (Move X) → Type 0
AllUnanswered [] = Unit
AllUnanswered (m ∷ ms) = IsUnanswered m × AllUnanswered ms

-- The rounds of the keepalive loop in a schedule, after `k` others.
abbrev keepalive_round_of : {X : External} → Move X → ℕ → ℕ
keepalive_round_of (keepalive_round random) k = suc k
keepalive_round_of _ k = k

abbrev pub keepalive_rounds : {X : External} → List (Move X) → ℕ → ℕ
keepalive_rounds [] k = k
keepalive_rounds (m ∷ ms) k = keepalive_rounds ms (keepalive_round_of m k)

-- After `k` rounds without an answer: the loop has returned, or has counted all but the first.
abbrev Waits : ℕ → ℕ → Keepalive → Watched → Type 0
Waits max k stopped (token, acked, limit, id) = Unit
Waits max k (counting m) (token, acked, limit, id) =
    (acked ≡ 0) × (limit ≡ max) × (length id ≡ 8) × (k ≢ 0 → token ≢ 0) × (k ≤ suc m) × (m ≤ max)

module _ {X : External} (R : Runtime X) where
  -- The count keeps up with the unanswered rounds.
  keeps_up :
      (s : State) (k m : ℕ)
      → m + 1 < 2 ^ 32
      → s.pull_data_token_acked ≡ 0
      → (k ≢ 0 → s.pull_data_token ≢ 0)
      → k ≤ suc m
      → suc k ≤ suc (count_missed s m)
  unfolding count_missed
  keeps_up s zero m b a token counted = omega arith
  keeps_up s (suc k) m b a token counted = let n = token (λ e. absurd (omega arith)) in ground arith

  within_limit :
      (s : State) (m max c : ℕ)
      → s.keepalive_max_failures ≡ max
      → max ≢ 0
      → gives_up s c ≡ false
      → c ≤ max
  unfolding gives_up
  within_limit s m max c l n under = ground arith

  module _ (max : ℕ) (limited : max ≢ 0) (small : max + 1 < 2 ^ 32) where
    abbrev Waiting : ℕ → System R → Type 0
    Waiting k s = Waits max k s.keepalive (watched s.world.state)

    Keeps-Waiting :
        (k : ℕ) (s : System R) (r : Outcome HandlerError (Unit {0}) × System R)
        → Keeps R s r
        → Waiting k s
        → Waiting k r.1
    Keeps-Waiting k s r (p, q) w = rw (p, q) w

    -- A round of a loop that goes on.
    round-Waiting :
        (random k m : ℕ) (w : World R) (cs : List Channel) (rcv rd : Thread)
        → Good (counting m) rcv rd cs
        → random ≢ 0
        → Waiting k (with_threads R w cs rcv rd (counting m))
        → Waiting
            (suc k)
            (step R (keepalive_round random) (with_threads R w cs rcv rd (counting m))).1
    unfolding step keepalive_loop_round after_round
    round-Waiting random k m w cs rcv rd g n (a, l, id, token, counted, within) =
        elim (Bool-cases (gives_up w.state (count_missed w.state m))) [
          | inl over ↦ rw (gives_up_parts R random w cs rcv rd (counting m) m g refl over) tt
          | inr under ↦ rw (round_sends R random m w id under) (
            a,
            l,
            id,
            λ _. n,
            keeps_up w.state k m (omega arith) a token counted,
            within_limit w.state m max _ l limited under,
          )
        ]

    keepalive_round-Waiting :
        (random k : ℕ) (w : World R) (cs : List Channel) (rcv rd : Thread) (a : Keepalive)
        → Good a rcv rd cs
        → random ≢ 0
        → Waiting k (with_threads R w cs rcv rd a)
        → Waiting (suc k) (step R (keepalive_round random) (with_threads R w cs rcv rd a)).1
    unfolding step keepalive_loop_round
    keepalive_round-Waiting random k w cs rcv rd stopped g n h = tt
    keepalive_round-Waiting random k w cs rcv rd (counting m) g n h =
        round-Waiting random k m w cs rcv rd g n h

    step-Waiting :
        (move : Move X) (k : ℕ) (s : System R)
        → IsSound R s
        → IsUnanswered move
        → Waiting k s
        → Waiting (keepalive_round_of move k) (step R move s).1
    unfolding step
    step-Waiting (receive_round b) k s g u h =
        Keeps-Waiting k s (step R (receive_round b) s)
          (receive_loop_round-Keeps R s.receiver b (take_signal 0 s.pool.senders) s u) h
    step-Waiting (events_round b now random) k s g u h =
        Keeps-Waiting k s (step R (events_round b now random) s)
          (events_loop_round-Keeps R s.reader now random (read_event R b)
            (take_signal 1 s.pool.senders) s)
          h
    step-Waiting (keepalive_round random) k s g u h =
        keepalive_round-Waiting random k s.world s.pool.senders s.receiver s.reader s.keepalive g u
          h

    -- A rest that waits, where no step panicked.
    goes_on :
        (k : ℕ) (rest : System R → Outcome HandlerError (Unit {0}) × System R)
        (r : Outcome HandlerError (Unit {0}) × System R)
        → ((rest r.1).0 ≡ ok tt → Waiting k (rest r.1).1)
        → (unless_ended R rest r).0 ≡ ok tt
        → Waiting k (unless_ended R rest r).1
    goes_on k rest (ok tt, t) h o = h o
    goes_on k rest (err e, t) h o = cc
    goes_on k rest (panic, t) h o = cc

    run_threads-Waiting :
        (moves : List (Move X)) (k : ℕ) (s : System R)
        → IsSound R s
        → AllUnanswered moves
        → Waiting k s
        → (run_threads R moves s).0 ≡ ok tt
        → Waiting (keepalive_rounds moves k) (run_threads R moves s).1
    unfolding run_threads
    run_threads-Waiting [] k s g u h o = h
    run_threads-Waiting (move ∷ moves) k s g u h o =
        goes_on (keepalive_rounds (move ∷ moves) k) (run_threads R moves) (step R move s)
          (run_threads-Waiting moves (keepalive_round_of move k) (step R move s).1
            (step-IsSound R move s g) u.1 (step-Waiting move k s g u.0 h))
          o

  enough : (max k : ℕ) (a : Keepalive) (x : Watched) → Waits max k a x → max + 2 ≤ k → a ≡ stopped
  enough max k stopped x h n = refl
  enough max k (counting m) x (a, l, id, t, counted, within) n = absurd (omega arith)

  -- A forwarder whose server never acknowledges a PULL_DATA restarts. The limit is not 0 (and below
  -- 2 ^ 32 - 1), the gateway id has 8 bytes, and from the start on the threads take their rounds in
  -- any order, on any datagrams but PULL_ACKs, any events and any tokens but 0 for the PULL_DATAs;
  -- no round panics. Once the keepalive loop has had `keepalive_max_failures` + 2 rounds, it has
  -- returned, and a further schedule with a round of the receive loop and one of the events loop,
  -- whatever they meet but an error of the event socket, joins the three threads without a panic.
  pub silent_server-joined :
      (conf : Server) (id : Bytes) (sock : R.Sock) (m : Metrics R) (before after : List (Move X))
      → conf.keepalive_max_failures ≢ 0
      → conf.keepalive_max_failures + 1 < 2 ^ 32
      → length id ≡ 8
      → AllUnanswered before
      → conf.keepalive_max_failures + 2 ≤ keepalive_rounds before 0
      → (run_threads R before (start R conf id sock m)).0 ≡ ok tt
      → AllReadable after
      → has is_receive_round after ≡ true
      → has is_events_round after ≡ true
      → ((run_threads R before (start R conf id sock m)).1.keepalive ≡ stopped)
        × ((run_threads R after (run_threads R before (start R conf id sock m)).1).0 ≡ ok tt)
        × (joined R (run_threads R after (run_threads R before (start R conf id sock m)).1).1
            ≡ true)
  unfolding start new_state
  silent_server-joined conf id sock m before after limited small l u enough_rounds o a r e =
      let s = (run_threads R before (start R conf id sock m)).1 in
      let waits =
        run_threads-Waiting conf.keepalive_max_failures limited small before 0
          (start R conf id sock m) (start-IsSound R conf id sock m) u
          (refl, refl, l, λ z. absurd (z refl), omega arith, omega arith) o in
      let k =
        enough conf.keepalive_max_failures (keepalive_rounds before 0) s.keepalive
          (watched s.world.state) waits enough_rounds in
      let (joins, w, all) = stop-joined R conf id sock m before after k a r e in (k, joins, all)
