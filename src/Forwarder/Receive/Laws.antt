-- ===== src/Forwarder/Receive/Laws.antt =====
-- Acknowledgements, and what every received datagram leaves alone.
use chirpstack_udp_forwarder.Prelude.{
  ℕ, ◌≡◌, Bool, false, [], ◌∷◌, Bytes, refl, arith, length, codes, Text, ◌==◌, if◌then◌else◌,
}
use chirpstack_udp_forwarder.Prelude.Outcome.{ok}
use chirpstack_udp_forwarder.Bytes.{from_be_bytes_u16}
use chirpstack_udp_forwarder.External.{External}
use chirpstack_udp_forwarder.Runtime.{Runtime}
use chirpstack_udp_forwarder.Metrics.{Metrics, incr_udp_received_count, incr_udp_received_bytes}
use chirpstack_udp_forwarder.Structs.Acks.{
  protocol_version, push_ack_from_bytes, pull_ack_from_bytes,
}
use chirpstack_udp_forwarder.Forwarder.State.{State, incr_u32}
use chirpstack_udp_forwarder.Forwarder.World.{World}
use chirpstack_udp_forwarder.Forwarder.Receive.{receive}

-- What an acknowledgement does, read off its wire form: a PUSH_ACK counts if it has the expected
-- token, a PULL_ACK leaves its token as the acknowledged one. Any other datagram does nothing here.
abbrev pub ack_effect : Bytes → State → State
ack_effect (v ∷ hi ∷ lo ∷ id ∷ []) s =
    if v == protocol_version
    then (if id == 0x01
        then (if from_be_bytes_u16 hi lo == s.push_data_token
            then record s { push_data_acked = incr_u32 s.push_data_acked }
            else s)
        else if id == 0x04
        then record s { pull_data_token_acked = from_be_bytes_u16 hi lo }
        else s)
    else s
ack_effect _ s = s

-- The metrics' name of a datagram, by its fourth byte.
abbrev pub type_of : ℕ → Text
type_of id =
    if id == 0x01
    then codes "PUSH_ACK"
    else if id == 0x03
    then codes "PULL_RESP"
    else if id == 0x04
    then codes "PULL_ACK"
    else codes "UNKNOWN"

abbrev pub is_pull_resp : Bytes → Bool
is_pull_resp (v ∷ hi ∷ lo ∷ id ∷ rest) = id == 0x03
is_pull_resp _ = false

module _ {X : External} (R : Runtime X) where
  abbrev pub counted : Bytes → Text → Metrics R → Metrics R
  counted (v ∷ hi ∷ lo ∷ id ∷ rest) server m =
      incr_udp_received_bytes R server (type_of id) (length (v ∷ hi ∷ lo ∷ id ∷ rest))
        (incr_udp_received_count R server (type_of id) m)
  counted _ server m = m

  -- A received datagram that is no PULL_RESP never panics and sends nothing; it is counted once
  -- under its type (not at all if it has fewer than 4 bytes), and changes the state by the
  -- acknowledgement that it is in its wire form, if any.
  pub receive_acks :
      (b : Bytes) (w : World R)
      → is_pull_resp b ≡ false
      → receive R b w ≡ (
        ok tt,
        record w { state = ack_effect b w.state; metrics = counted b w.state.server w.metrics },
      )
  unfolding receive push_ack_from_bytes pull_ack_from_bytes
  receive_acks [] w h = refl
  receive_acks (a ∷ []) w h = refl
  receive_acks (a ∷ b ∷ []) w h = refl
  receive_acks (a ∷ b ∷ c ∷ []) w h = refl
  receive_acks (v ∷ hi ∷ lo ∷ id ∷ []) w h = ground arith
  receive_acks (v ∷ hi ∷ lo ∷ id ∷ x ∷ r) w h = ground arith
