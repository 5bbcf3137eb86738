-- ===== src/Reader.antt =====
-- `Reader` of src/events.rs: one event of the concentratord within the timeout.
use chirpstack_udp_forwarder.Prelude.{none, some, Bytes, ◌≡◌, refl, inl, inr, Option-cases}
use chirpstack_udp_forwarder.Prelude.Outcome.{Outcome, ok, panic}
use chirpstack_udp_forwarder.External.{External}
use chirpstack_udp_forwarder.Gw
use chirpstack_udp_forwarder.Runtime.{Runtime}

-- What `zmq::poll` and `recv_bytes` find on the event socket: an error of either, no message before
-- the timeout, or a message.
pub data Polled : Type 0 where
  poll_error unreadable receive_error : Polled
  message : Bytes → Polled

-- What `Reader::next` gives.
pub data Read (X : External) : Type 0 where
  timeout undecodable : Read X
  event : Gw.Event X → Read X

-- No error.
abbrev pub IsPolled : Polled → Type 0
IsPolled unreadable = Unit
IsPolled (message b) = Unit
IsPolled _ = ⊥

module _ {X : External} (R : Runtime X) where
  -- Both errors are unwrapped. The loop of `src/forwarder.rs` sees the others as its items, so `E` is
  -- any type.
  unfoldable pub read_event {κ} : {E : Type κ} → Polled → Outcome E (Read X)
  read_event poll_error = panic
  read_event unreadable = ok timeout
  read_event receive_error = panic
  read_event (message b) = elim (R.decode_event b) [ none ↦ ok undecodable | some e ↦ ok (event e) ]

  pub read_event-polled {κ} :
      {E : Type κ} (b : Polled) → IsPolled b → (r : Read X) × (read_event {E = E} b ≡ ok r)
  unfolding read_event
  read_event-polled poll_error h = absurd h
  read_event-polled unreadable h = (timeout, refl)
  read_event-polled receive_error h = absurd h
  read_event-polled (message b) h = elim (Option-cases (R.decode_event b)) [
    | inl e ↦ (undecodable, rw (read_event, e) refl)
    | inr (v, e) ↦ (event v, rw (read_event, e) refl)
  ]
