-- ===== src/Structs/Acks/Laws.antt =====
-- Which datagrams the two acknowledgement parsers of src/structs.rs accept, and that none makes them
-- panic.
use chirpstack_udp_forwarder.Prelude.{ℕ, ◌≡◌, ◌≢◌, ◌↔◌, Bytes, [], ◌∷◌, arith}
use chirpstack_udp_forwarder.Prelude.Outcome.{ok, panic}
use chirpstack_udp_forwarder.Bytes.{from_be_bytes_u16}
use chirpstack_udp_forwarder.Structs.Acks.{
  push_ack_from_bytes, pull_ack_from_bytes, protocol_version,
}

-- The wire form of an acknowledgement: version, big-endian token, identifier, and nothing else.
abbrev pub IsAck : ℕ → ℕ → Bytes → Type 0
IsAck id token b =
    (hi : ℕ) × (lo : ℕ) × (b ≡ protocol_version ∷ hi ∷ lo ∷ id ∷ [])
    × (token ≡ from_be_bytes_u16 hi lo)

push_ack_from_bytes_iff :
    (b : Bytes)
    → (push_ack_from_bytes b ≢ panic)
      × ((t : ℕ) → (push_ack_from_bytes b ≡ ok (record { random_token = t })) ↔ IsAck 0x01 t b)
unfolding push_ack_from_bytes
push_ack_from_bytes_iff [] = (λ e. cc, λ t. (λ e. cc, λ (hi, lo, e, _). cc))
push_ack_from_bytes_iff (a ∷ []) = (λ e. cc, λ t. (λ e. cc, λ (hi, lo, e, _). cc))
push_ack_from_bytes_iff (a ∷ b ∷ []) = (λ e. cc, λ t. (λ e. cc, λ (hi, lo, e, _). cc))
push_ack_from_bytes_iff (a ∷ b ∷ c ∷ []) = (λ e. cc, λ t. (λ e. cc, λ (hi, lo, e, _). cc))
push_ack_from_bytes_iff (a ∷ b ∷ c ∷ d ∷ []) =
    (ground arith, λ t. (λ h. (b, c, ground arith, ground arith), λ (hi, lo, e, k). ground arith))
push_ack_from_bytes_iff (a ∷ b ∷ c ∷ d ∷ e ∷ r) =
    (ground arith, λ t. (λ h. ground arith, λ (hi, lo, e, _). cc))

pull_ack_from_bytes_iff :
    (b : Bytes)
    → (pull_ack_from_bytes b ≢ panic)
      × ((t : ℕ) → (pull_ack_from_bytes b ≡ ok (record { random_token = t })) ↔ IsAck 0x04 t b)
unfolding pull_ack_from_bytes
pull_ack_from_bytes_iff [] = (λ e. cc, λ t. (λ e. cc, λ (hi, lo, e, _). cc))
pull_ack_from_bytes_iff (a ∷ []) = (λ e. cc, λ t. (λ e. cc, λ (hi, lo, e, _). cc))
pull_ack_from_bytes_iff (a ∷ b ∷ []) = (λ e. cc, λ t. (λ e. cc, λ (hi, lo, e, _). cc))
pull_ack_from_bytes_iff (a ∷ b ∷ c ∷ []) = (λ e. cc, λ t. (λ e. cc, λ (hi, lo, e, _). cc))
pull_ack_from_bytes_iff (a ∷ b ∷ c ∷ d ∷ []) =
    (ground arith, λ t. (λ h. (b, c, ground arith, ground arith), λ (hi, lo, e, k). ground arith))
pull_ack_from_bytes_iff (a ∷ b ∷ c ∷ d ∷ e ∷ r) =
    (ground arith, λ t. (λ h. ground arith, λ (hi, lo, e, _). cc))

-- `PushAck::from_bytes` accepts a datagram with a token exactly when the datagram is the wire form of
-- a PUSH_ACK (identifier 1) with this token, `PullAck::from_bytes` exactly when it is that of a
-- PULL_ACK (identifier 4), and neither panics on any datagram.
pub IsAck-from_bytes_iff :
    (b : Bytes)
    → (push_ack_from_bytes b ≢ panic)
      × (pull_ack_from_bytes b ≢ panic)
      × ((t : ℕ)
          → ((push_ack_from_bytes b ≡ ok (record { random_token = t })) ↔ IsAck 0x01 t b)
            × ((pull_ack_from_bytes b ≡ ok (record { random_token = t })) ↔ IsAck 0x04 t b))
IsAck-from_bytes_iff b =
    let (p, f) = push_ack_from_bytes_iff b in
    let (q, g) = pull_ack_from_bytes_iff b in (p, q, λ t. (f t, g t))
