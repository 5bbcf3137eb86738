-- ===== src/Forwarder/World.antt =====
-- The state of src/forwarder.rs with what it acts on: the datagrams given to the UDP socket, the
-- command socket and the counters; and the monad of its handlers. An `Err` keeps what was done
-- before it, as in the source, and so does a panic.
use chirpstack_udp_forwarder.Prelude.{
  ℕ, List, [], ◌∷◌, ◌++◌, Option, none, some, Text, Bytes, ◌≡◌, arith,
}
use chirpstack_udp_forwarder.Prelude.Outcome.{Outcome, ok, err, panic}
use chirpstack_udp_forwarder.External.{External}
use chirpstack_udp_forwarder.Runtime.{Runtime}
use chirpstack_udp_forwarder.Metrics.{Metrics, incr_udp_sent_count, incr_udp_sent_bytes}
use chirpstack_udp_forwarder.Structs.Error.{Error}
use chirpstack_udp_forwarder.Forwarder.State.{State}

-- The messages of the handlers' errors; `structs` is an error of a conversion passed on by `?`.
pub data HandlerError : Type 0 where
  structs : Error → HandlerError
  txpk_to_proto : Error → HandlerError
  no_down_response decode_tx_ack no_message : HandlerError

module _ {X : External} (R : Runtime X) where
  -- `sent` holds the datagrams given to `socket.send`, the oldest first. Whether the system took
  -- them is only logged.
  pub record World : Type 0 where
    pub state : State
    pub command_sock : R.Sock
    pub metrics : Metrics R
    pub sent : List Bytes

abbrev pub M : Type 0 → Type 0 → Type 0
M W A = W → Outcome HandlerError A × W

module _ {W : Type 0} where
  abbrev pub pure : {A : Type 0} → A → M W A
  pure a w = (ok a, w)

  abbrev continue_with :
      {A B : Type 0} → (A → M W B) → Outcome HandlerError A × W → Outcome HandlerError B × W
  continue_with f (ok a, w) = f a w
  continue_with f (err e, w) = (err e, w)
  continue_with f (panic, w) = (panic, w)

  infixl 5 ◌>>=◌ ◌>>◌
  abbrev pub ◌>>=◌ : {A B : Type 0} → M W A → (A → M W B) → M W B
  ◌>>=◌ m f w = continue_with f (m w)

  abbrev pub ◌>>◌ : {B : Type 0} → M W (Unit {0}) → M W B → M W B
  ◌>>◌ m k w = continue_with (λ _. k) (m w)

  -- A conversion, with its error as one of the handler.
  abbrev pub lift : {A : Type 0} → (Error → HandlerError) → Outcome Error A → M W A
  lift f (ok a) w = (ok a, w)
  lift f (err e) w = (err (f e), w)
  lift f panic w = (panic, w)

  -- `return Err(e)`
  abbrev pub fail : {A : Type 0} → HandlerError → M W A
  fail e w = (err e, w)

  abbrev pub or_fail_with : {A : Type 0} → HandlerError → Option A → M W A
  or_fail_with e none w = (err e, w)
  or_fail_with e (some a) w = (ok a, w)

  -- The error is logged and dropped.
  abbrev pub log_error_of :
      Outcome HandlerError (Unit {0}) × W → Outcome HandlerError (Unit {0}) × W
  log_error_of (ok a, w) = (ok a, w)
  log_error_of (err e, w) = (ok tt, w)
  log_error_of (panic, w) = (panic, w)

  pub log_error-world : (m : M W (Unit {0})) (w : W) → (log_error_of (m w)).1 ≡ (m w).1
  log_error-world m w = ground arith

  abbrev pub log_error : M W (Unit {0}) → M W (Unit {0})
  log_error m w = log_error_of (m w)

module _ {X : External} {R : Runtime X} where
  abbrev pub get_state : M (World R) State
  get_state w = (ok w.state, w)

  abbrev pub modify_state : (State → State) → M (World R) (Unit {0})
  modify_state f w = (ok tt, record w { state = f w.state })

  -- A method that returns a value and changes the state.
  abbrev pub with_state : {A : Type 0} → (State → A × State) → M (World R) A
  with_state f w = (ok (f w.state).0, record w { state = (f w.state).1 })

  -- `socket.send(&bytes)`
  abbrev pub send_udp : Bytes → M (World R) (Unit {0})
  send_udp b w = (ok tt, record w { sent = w.sent ++ (b ∷ []) })

  abbrev pub modify_metrics : (Metrics R → Metrics R) → M (World R) (Unit {0})
  modify_metrics f w = (ok tt, record w { metrics = f w.metrics })

  -- The two counters of a datagram that was sent.
  unfoldable pub count_sent : Text → Text → ℕ → M (World R) (Unit {0})
  count_sent server typ size =
      modify_metrics
        (λ m. incr_udp_sent_bytes R server typ size (incr_udp_sent_count R server typ m))
