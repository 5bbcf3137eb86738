-- ===== src/Structs/Acks.antt =====
-- `PushAck::from_bytes` and `PullAck::from_bytes` of src/structs.rs, and the reads that they share
-- with `PullResp::from_bytes`.
pub mod Laws
use chirpstack_udp_forwarder.Prelude.{
  ℕ, ◌+◌, Bytes, Bool, not, length, get_elem?, ◌==◌, if◌then◌else◌, refl, ◌≡◌, [], ◌∷◌,
}
use chirpstack_udp_forwarder.Prelude.Outcome.{Outcome, ok, err, unwrap, ◌>>=◌, ◌>>◌}
use chirpstack_udp_forwarder.Bytes.{from_be_bytes_u16}
use chirpstack_udp_forwarder.Structs.Error.{
  Result, expected_4_bytes, bad_protocol_version, bad_identifier, Error,
}

abbrev pub protocol_version : ℕ
protocol_version = 0x02

-- `b[i]` panics out of range.
abbrev pub index : Bytes → ℕ → Result ℕ
index b i = unwrap (get_elem? b i)

-- `if test { return Err(e) }`
abbrev pub fail_if : Bool → Error → Result (Unit {0})
fail_if test e = if test then err e else ok tt

-- `rt.copy_from_slice(&b[1..3])` and `u16::from_be_bytes(rt)`
abbrev pub token_of : Bytes → Result ℕ
token_of b = do hi ← index b 1; lo ← index b 2; ok (from_be_bytes_u16 hi lo)

pub record PushAck : Type 0 where
  pub random_token : ℕ

unfoldable pub push_ack_from_bytes : Bytes → Result PushAck
push_ack_from_bytes b = do
  fail_if (not (length b == 4)) (expected_4_bytes (length b))
  version ← index b 0
  fail_if (not (version == protocol_version)) (bad_protocol_version version)
  id ← index b 3
  fail_if (not (id == 0x01)) (bad_identifier id)
  token ← token_of b
  ok (record { random_token = token })

pub record PullAck : Type 0 where
  pub random_token : ℕ

unfoldable pub pull_ack_from_bytes : Bytes → Result PullAck
pull_ack_from_bytes b = do
  fail_if (not (length b == 4)) (expected_4_bytes (length b))
  version ← index b 0
  fail_if (not (version == protocol_version)) (bad_protocol_version version)
  id ← index b 3
  fail_if (not (id == 0x04)) (bad_identifier id)
  token ← token_of b
  ok (record { random_token = token })

-- src/structs.rs, test_push_ack and test_pull_ack
test_push_ack : push_ack_from_bytes (2 ∷ 0 ∷ 123 ∷ 1 ∷ []) ≡ ok (record { random_token = 123 })
unfolding push_ack_from_bytes
test_push_ack = refl

test_pull_ack : pull_ack_from_bytes (2 ∷ 0 ∷ 123 ∷ 4 ∷ []) ≡ ok (record { random_token = 123 })
unfolding pull_ack_from_bytes
test_pull_ack = refl
