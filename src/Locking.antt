-- ===== src/Locking.antt =====
-- The locks of the whole program: the mutexes of `State` in src/forwarder.rs, the ZeroMQ context of
-- src/socket.rs, the families and the registry of src/metrics.rs. Each thread is the sequence of what
-- it locks and unlocks; a `LazyLock` is locked while its initializer runs. The calls that wait for the
-- outside (poll, recv, write) are taken to return.
pub mod Threads
pub mod Order
pub mod Progress
use chirpstack_udp_forwarder.Prelude.{ℕ, ◌≡◌, ◌≢◌, List, [], ◌∷◌, ◌++◌, map, Bool, true, false, All}
use chirpstack_udp_forwarder.Metrics.{
  Family, sent_count, sent_bytes, received_count, received_bytes,
}

pub data Mutex : Type 0 where
  event_sock command_sock : Mutex
  push_data_token push_data_sent push_data_acked : Mutex
  pull_data_token pull_data_token_acked rxfw : Mutex

-- The mutexes of the n-th forwarder's `State`, and the statics.
pub data Lock : Type 0 where
  mutex : ℕ → Mutex → Lock
  zmq_context_init zmq_context : Lock
  family_init : Family → Lock
  registry_init registry : Lock

-- A mutex is exclusive, and so is `write` of a RwLock; `read` is shared.
pub data Mode : Type 0 where
  exclusive shared : Mode

pub data Action : Type 0 where
  acquire : Mode → Lock → Action
  release : Lock → Action

-- A thread: the locks that it holds, the last one first, and what it does next.
pub record Holder : Type 0 where
  pub held : List (Mode × Lock)
  pub rest : List Action

-- The other threads let a lock be taken in this mode.
abbrev pub Allows : Mode → Lock → Mode × Lock → Type 0
Allows shared l (shared, k) = Unit
Allows _ l (_, k) = l ≢ k

abbrev pub AllAllow : Mode → Lock → List Holder → Type 0
AllAllow m l ts = All (λ (t : Holder). All (Allows m l) t.held) ts

-- A step of one thread, among the others.
pub data LockStep : List Holder → List Holder → Type 0 where
  acquires :
      (before after : List Holder) (held : List (Mode × Lock)) (m : Mode) (l : Lock)
      (rest : List Action)
      → AllAllow m l (before ++ after)
      → LockStep
          (before ++ (record { held = held; rest = acquire m l ∷ rest } ∷ after))
          (before ++ (record { held = (m, l) ∷ held; rest = rest } ∷ after))
  releases :
      (before after : List Holder) (held : List (Mode × Lock)) (m : Mode) (l : Lock)
      (rest : List Action)
      → LockStep
          (before ++ (record { held = (m, l) ∷ held; rest = release l ∷ rest } ∷ after))
          (before ++ (record { held = held; rest = rest } ∷ after))

pub data LockRun (s : List Holder) : List Holder → Type 0 where
  begun : LockRun s s
  then_step : {t u : List Holder} → LockRun s t → LockStep t u → LockRun s u

-- A guard, from its lock to the end of its scope.
abbrev pub locked : Mode → Lock → List Action → List Action
locked m l body = acquire m l ∷ (body ++ (release l ∷ []))

-- A use of a `LazyLock`: its initializer, unless it has run before.
abbrev pub init_locks : Bool → Lock → List Action → List Action
init_locks true l body = locked exclusive l body
init_locks false l body = []

-- `register`, with the initializer of `REGISTRY` or not.
abbrev pub register_locks : Bool → List Action
register_locks lazy = init_locks lazy registry_init [] ++ locked exclusive registry []

-- What is initialized where a family is used.
pub data Init : Type 0 where
  initialized : Init
  uninitialized : (registry_too : Bool) → Init

abbrev pub family_locks : Family → Init → List Action
family_locks f initialized = []
family_locks f (uninitialized lazy) = locked exclusive (family_init f) (register_locks lazy)

-- The two increments for a datagram.
abbrev pub sent_locks : Init → Init → List Action
sent_locks i j = family_locks sent_count i ++ family_locks sent_bytes j

abbrev pub received_locks : Init → Init → List Action
received_locks i j = family_locks received_count i ++ family_locks received_bytes j

-- `get_socket` of src/commands.rs and src/events.rs.
abbrev pub get_socket_locks : Bool → List Action
get_socket_locks lazy = init_locks lazy zmq_context_init [] ++ locked exclusive zmq_context []

-- `handle_write` of src/metrics.rs, where the header could be written.
abbrev pub handle_write_locks : Bool → List Action
handle_write_locks lazy = init_locks lazy registry_init [] ++ locked shared registry []
