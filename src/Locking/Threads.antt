-- ===== src/Locking/Threads.antt =====
-- What the threads of src/main.rs, src/forwarder.rs and src/metrics.rs lock, in order. An argument
-- says which way a handler takes; a `Bool` or an `Init`, whether a static is initialized there.
use chirpstack_udp_forwarder.Prelude.{ℕ, List, [], ◌∷◌, ◌++◌, map, Bool, true, false}
use chirpstack_udp_forwarder.Locking.{
  Mutex, event_sock, command_sock, push_data_token, push_data_sent, push_data_acked,
  pull_data_token, pull_data_token_acked, rxfw, mutex, exclusive, Action, locked, Init, sent_locks,
  received_locks, get_socket_locks, handle_write_locks,
}

-- The end of `handle_pull_resp`: an error at the parser, one behind the lock, or a TX_ACK.
pub data Downlink : Type 0 where
  unparsed refused : Downlink
  acknowledged : Init → Init → Downlink

-- A round of `udp_receive_loop`: a timeout or a short datagram, or one of the four types.
pub data ReceiveRound : Type 0 where
  nothing_received : ReceiveRound
  push_ack : Init → Init → (parsed matches : Bool) → ReceiveRound
  pull_resp : Init → Init → Downlink → ReceiveRound
  pull_ack : Init → Init → (parsed : Bool) → ReceiveRound
  unknown : Init → Init → ReceiveRound

-- A round of `events_loop`; `converted` says that `from_proto` gave a packet.
pub data EventsRound : Type 0 where
  nothing_to_do : EventsRound
  uplink_frame gateway_stats : Init → Init → EventsRound

-- A round of `pull_data_loop`, with a warning of a missed acknowledgement or not.
pub data KeepaliveRound : Type 0 where
  giving_up : KeepaliveRound
  sending : (missed : Bool) → Init → Init → KeepaliveRound

abbrev pub if_so : Bool → List Action → List Action
if_so true actions = actions
if_so false actions = []

abbrev pub concat : List (List Action) → List Action
concat [] = []
concat (p ∷ ps) = p ++ concat ps

-- The n-th forwarder.
module _ (n : ℕ) where
  -- A method of `State`: its mutex, for its whole body.
  abbrev pub method : Mutex → List Action
  method m = locked exclusive (mutex n m) []

  abbrev pub handle_pull_resp_locks : Downlink → List Action
  handle_pull_resp_locks unparsed = []
  handle_pull_resp_locks refused = locked exclusive (mutex n command_sock) []
  handle_pull_resp_locks (acknowledged i j) =
      locked exclusive (mutex n command_sock) (sent_locks i j)

  abbrev pub receive_locks : ReceiveRound → List Action
  receive_locks nothing_received = []
  receive_locks (push_ack i j parsed matches) =
      received_locks i j
      ++ if_so parsed (method push_data_token ++ if_so matches (method push_data_acked))
  receive_locks (pull_resp i j d) = received_locks i j ++ handle_pull_resp_locks d
  receive_locks (pull_ack i j parsed) =
      received_locks i j ++ if_so parsed (method pull_data_token ++ method pull_data_token_acked)
  receive_locks (unknown i j) = received_locks i j

  -- `events_up` and `events_stats` from their conversion on.
  abbrev pub events_locks : EventsRound → List Action
  events_locks nothing_to_do = []
  events_locks (uplink_frame i j) =
      method push_data_token ++ (method rxfw ++ (method push_data_sent ++ sent_locks i j))
  events_locks (gateway_stats i j) =
      method rxfw
      ++ (method push_data_sent
          ++ (method push_data_acked
              ++ (method push_data_token ++ (method push_data_sent ++ sent_locks i j))))

  -- The two tokens are compared, and the first one is read again for the warning.
  abbrev pub keepalive_locks : KeepaliveRound → List Action
  keepalive_locks giving_up =
      method pull_data_token ++ (method pull_data_token_acked ++ method pull_data_token)
  keepalive_locks (sending missed i j) =
      method pull_data_token
      ++ (method pull_data_token_acked
          ++ (if_so missed (method pull_data_token) ++ (method pull_data_token ++ sent_locks i j)))

-- A thread, with what it meets. `main` asks for the gateway id; `start` goes round for any number of
-- lives, with two sockets each; `events_loop` holds its socket's guard until it returns.
pub data Role : Type 0 where
  main_thread : (lazy : Bool) → Role
  start_thread : (lives : List (Bool × Bool)) → Role
  receive_thread : (n : ℕ) → List ReceiveRound → Role
  events_thread : (n : ℕ) → List EventsRound → Role
  keepalive_thread : (n : ℕ) → List KeepaliveRound → Role
  request_thread : (lazy : Bool) → Role

abbrev pub start_locks : Bool × Bool → List Action
start_locks (a, b) = get_socket_locks a ++ get_socket_locks b

unfoldable pub role_locks : Role → List Action
role_locks (main_thread lazy) = get_socket_locks lazy
role_locks (start_thread lives) = concat (map start_locks lives)
role_locks (receive_thread n rounds) = concat (map (receive_locks n) rounds)
role_locks (events_thread n rounds) =
    locked exclusive (mutex n event_sock) (concat (map (events_locks n) rounds))
role_locks (keepalive_thread n rounds) = concat (map (keepalive_locks n) rounds)
role_locks (request_thread lazy) = handle_write_locks lazy
