-- ===== src/Lib.antt =====
-- The ChirpStack UDP Forwarder: it takes uplink frames and statistics from the ChirpStack
-- Concentratord (ZeroMQ, protobuf) and sends them to a server by the Semtech UDP protocol, and it
-- passes the server's downlink frames back. Three threads share one `State`: the events loop writes
-- PUSH_DATA, the receive loop handles PUSH_ACK, PULL_RESP and PULL_ACK, the keepalive loop writes
-- PULL_DATA and counts the rounds that were not acknowledged.
--
-- Files:
--   Prelude        Boolean tests, text and bytes, lists, integers, and `Outcome`: a value, an error
--                  or a panic.
--   External       what the code calls of chrono, base64, hex, serde_json and the floats, as one
--                  parameter; External.Value is serde_json's `Value`, and a JSON text as far as its
--                  derived readers meet it.
--   Gw             the protobuf messages of chirpstack_api that are used.
--   Bytes          to_be_bytes, from_be_bytes and copy_from_slice.
--   Structs        src/structs.rs: Types (Crc, Modulation, DataRate, CodeRate), Decimal (the numbers in
--                  a LoRa rate), TimeFormats, RxPk and Stat (from_proto; Times has their time),
--                  Packets (to_bytes of PUSH_DATA, PULL_DATA and TX_ACK), Acks (from_bytes of PUSH_ACK
--                  and PULL_ACK), PullResp (from_bytes), TxPk (its derived Deserialize, to_proto).
--   Runtime        the protobuf codec, the ZeroMQ command socket and the counter family of
--                  prometheus_client, as one parameter with documented laws (IsReq, IsFamily).
--   Metrics        src/metrics.rs: the four counter families and the registry that their first use
--                  fills (Registry: any sequence of calls); Server is the HTTP server.
--   Config         src/config.rs: the sections and their defaults; Toml is the TOML parser, a
--                  parameter; Deserialize has the sections' derived readers, Load Configuration::get
--                  on a list of environment variables, some of them perhaps not Unicode.
--   Reader         `Reader::next` of src/events.rs.
--   Sockets        get_socket of src/commands.rs and src/events.rs; ZeroMQ's calls are a parameter.
--   Logging        src/logging.rs, with the crates' calls as a parameter.
--   Helpers        src/helpers.rs: the request for the gateway id.
--   Main           src/main.rs: the threads that the program spawns and joins.
--   Signals        src/signals.rs: a pool of stop signals.
--   Forwarder      src/forwarder.rs: State (its methods), World (the state with the sockets and the
--                  counters, and the monad of the handlers), Events (events_up, events_stats), Receive
--                  (a received datagram and its handlers; Exchange follows a downlink), Keepalive
--                  (pull_data_loop), History (any sequence of handler calls, against a specification of
--                  the upstream counters),
--                  System (the threads of `start`, with Reader::next of src/events.rs and the stop
--                  signals, over any schedule of rounds: Stop is what follows the signal, Silent a
--                  server that does not answer, Answered one that does, NoPanic what cannot end the
--                  process, Restarts the loop of `start`), Locks (the handlers of the upstream
--                  counters, one lock at a time: a step relation on two threads).
--   Locking        the locks that the threads of all files take, in order, for any number of threads:
--                  Threads has each thread's sequence, Order an order of the locks, Progress the
--                  search for a thread that goes on.
--   Tests          concrete parameters, and the theorems at concrete inputs; Vectors and Downlinks run
--                  the unit tests of src/structs.rs, on the decimals and the JSON of Tests.Json.
--
-- How the code is read. A handler is a function from a world to an outcome and a world; an error and
-- a panic keep what was done before them. The release profile has no overflow checks and aborts on a
-- panic, so additions wrap at their width and a panic ends the process. A number drawn at random
-- and the time of `Utc::now()` are arguments. Text and bytes are lists of numbers. The methods of
-- `State` lock one mutex each; a handler is one step in History and System, which run the handlers
-- of the three loops in any order, and in Locks each lock is a step of its own. Log lines are left
-- out, and so is the error of `socket.send`, which is only logged. Locking takes poll, recv and write to
-- return; it lets every thread initialize any lazy static.
--
-- Bounds. All recursion is structural: no fuel is used. `pull_data_loop` runs over a list of rounds,
-- each with its token and with what the other threads do while the loop sleeps; a loop that has
-- not returned when the rounds are used up gives its count, so that its return is a statement
-- about the rounds. The keepalive theorems take fewer than 2^32 rounds, or a limit below 2^32 - 1,
-- where the u32 count of missed acknowledgements cannot wrap.
--
-- Not modelled: the data that two threads exchange inside other handlers than those of the upstream
-- counters; log lines; the locks inside the libraries.
pub mod Prelude
pub mod External
pub mod Gw
pub mod Bytes
pub mod Structs
pub mod Runtime
pub mod Metrics
pub mod Signals
pub mod Config
pub mod Helpers
pub mod Sockets
pub mod Reader
pub mod Logging
pub mod Main
pub mod Locking
pub mod Forwarder
mod Tests
