-- ===== src/Forwarder/Locks.antt =====
-- The handlers of src/forwarder.rs one lock at a time: each method of `State` holds one mutex, so
-- the receive thread can act between any two of them in a handler of the events thread. A step is
-- one method, or one `socket.send`, of one of the two threads.
pub mod Bounds
pub mod Conservation
pub mod Handlers
use chirpstack_udp_forwarder.Prelude.{
  ℕ, zero, suc, ◌≡◌, List, [], ◌∷◌, ◌++◌, Bool, true, false, ◌==◌, if◌then◌else◌,
}
use chirpstack_udp_forwarder.Forwarder.State.{
  State, set_push_data_token, incr_push_data_sent, incr_push_data_acked, incr_rxfw,
  get_and_reset_rxfw, get_and_reset_push_data_sent, get_and_reset_push_data_acked,
}

-- The counts in one `stat` object.
pub record Report : Type 0 where
  pub rxfw : ℕ
  pub sent : ℕ
  pub acked : ℕ

-- Where the events thread stands, with the locals that are live there: in `events_up` after its
-- conversion (`up_`), and in `events_stats` (`stats_`).
pub data EventsPc : Type 0 where
  waiting : EventsPc  -- in `events_loop`
  up_send : EventsPc
  up_rxfw : EventsPc
  up_sent : EventsPc
  stats_sent : (rxfw : ℕ) → EventsPc  -- before `get_and_reset_push_data_sent`
  stats_acked : (rxfw sent : ℕ) → EventsPc  -- before `get_and_reset_push_data_acked`
  stats_token : Report → EventsPc
  stats_send : Report → EventsPc
  stats_count : EventsPc

-- The receive thread, in `handle_push_ack`.
pub data ReceiverPc : Type 0 where
  listening : ReceiverPc
  comparing : (token expected : ℕ) → ReceiverPc

-- `unanswered` says that the datagram with the expected token was sent and not acknowledged yet;
-- `reports` holds the counts that were sent, the oldest first.
pub record Locked : Type 0 where
  pub state : State
  pub events : EventsPc
  pub receiver : ReceiverPc
  pub unanswered : Bool
  pub reports : List Report

-- A step of the events thread, by where it stands.
pub data EventsStep (s : Locked) : Locked → Type 0 where
  draw_up :
      (random : ℕ)
      → s.events ≡ waiting
      → EventsStep s (record s {
        state = set_push_data_token random s.state;
        unanswered = false;
        events = up_send;
      })
  send_up : s.events ≡ up_send → EventsStep s (record s { unanswered = true; events = up_rxfw })
  count_rxfw :
      s.events ≡ up_rxfw → EventsStep s (record s { state = incr_rxfw s.state; events = up_sent })
  count_up :
      s.events ≡ up_sent
      → EventsStep s (record s { state = incr_push_data_sent s.state; events = waiting })
  take_rxfw :
      s.events ≡ waiting
      → EventsStep s (record s {
        state = (get_and_reset_rxfw s.state).1;
        events = stats_sent (get_and_reset_rxfw s.state).0;
      })
  take_sent :
      (rxfw : ℕ)
      → s.events ≡ stats_sent rxfw
      → EventsStep s (record s {
        state = (get_and_reset_push_data_sent s.state).1;
        events = stats_acked rxfw (get_and_reset_push_data_sent s.state).0;
      })
  take_acked :
      (rxfw sent : ℕ)
      → s.events ≡ stats_acked rxfw sent
      → EventsStep s (record s {
        state = (get_and_reset_push_data_acked s.state).1;
        events = stats_token (record {
          rxfw = rxfw;
          sent = sent;
          acked = (get_and_reset_push_data_acked s.state).0;
        });
      })
  draw_stats :
      (random : ℕ) (r : Report)
      → s.events ≡ stats_token r
      → EventsStep s (record s {
        state = set_push_data_token random s.state;
        unanswered = false;
        events = stats_send r;
      })
  send_stats :
      (r : Report)
      → s.events ≡ stats_send r
      → EventsStep s
          (record s { unanswered = true; reports = s.reports ++ (r ∷ []); events = stats_count })
  count_stats :
      s.events ≡ stats_count
      → EventsStep s (record s { state = incr_push_data_sent s.state; events = waiting })

-- A step of the receive thread. A PUSH_ACK that carries the expected token answers the datagram
-- with this token, once: `heard` wants it to be unanswered.
pub data ReceiverStep (s : Locked) : Locked → Type 0 where
  heard :
      (token : ℕ)
      → s.receiver ≡ listening
      → (token ≡ s.state.push_data_token → s.unanswered ≡ true)
      → ReceiverStep s (record s {
        receiver = comparing token s.state.push_data_token;
        unanswered = if token == s.state.push_data_token then false else s.unanswered;
      })
  compared :
      (token expected : ℕ)
      → s.receiver ≡ comparing token expected
      → ReceiverStep s (record s {
        state = if token == expected then incr_push_data_acked s.state else s.state;
        receiver = listening;
      })

pub data Step (s t : Locked) : Type 0 where
  events_step : EventsStep s t → Step s t
  receiver_step : ReceiverStep s t → Step s t

-- A run of `n` steps, in any order of the threads.
pub data Run (s : Locked) : ℕ → Locked → Type 0 where
  here : Run s zero s
  next : {n : ℕ} {t u : Locked} → Run s n t → Step t u → Run s (suc n) u

-- Both threads at their loops' heads, no datagram on its way.
abbrev pub quiet : State → Locked
quiet state = record {
  state = state;
  events = waiting;
  receiver = listening;
  unanswered = false;
  reports = [];
}
