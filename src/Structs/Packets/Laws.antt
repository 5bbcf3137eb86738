-- ===== src/Structs/Packets/Laws.antt =====
-- The three packets that the forwarder writes, read back by a decoder of the protocol's header.
use chirpstack_udp_forwarder.Prelude.{
  ℕ, ◌^◌, ◌<◌, ◌≡◌, ◌++◌, Bytes, [], ◌∷◌, Option, none, some, arith, length,
}
use mathlib.Core.List.{append-nil}
use chirpstack_udp_forwarder.Prelude.Outcome.{ok, panic}
use chirpstack_udp_forwarder.Bytes.{from_be_bytes_u16, to_be_bytes_u16}
use chirpstack_udp_forwarder.External.{External}
use chirpstack_udp_forwarder.Structs.Acks.{
  protocol_version, push_ack_from_bytes, pull_ack_from_bytes,
}
use chirpstack_udp_forwarder.Structs.Packets.{
  PullData, pull_data_to_bytes, PushData, push_data_to_bytes, TxAck, tx_ack_to_bytes,
  serialize_push_data_payload, serialize_tx_ack_payload,
}

-- A packet from a gateway: a header of 12 bytes, then the JSON text.
pub record Packet : Type 0 where
  pub version : ℕ
  pub token : ℕ
  pub identifier : ℕ
  pub gateway_id : Bytes
  pub rest : Bytes

-- What a server reads of a datagram.
unfoldable pub decode : Bytes → Option Packet
decode (v ∷ hi ∷ lo ∷ id ∷ a ∷ b ∷ c ∷ d ∷ e ∷ f ∷ g ∷ h ∷ r) = some (record {
  version = v;
  token = from_be_bytes_u16 hi lo;
  identifier = id;
  gateway_id = a ∷ b ∷ c ∷ d ∷ e ∷ f ∷ g ∷ h ∷ [];
  rest = r;
})
decode _ = none

abbrev pub packet : ℕ → ℕ → Bytes → Bytes → Packet
packet token id gateway_id rest = record {
  version = protocol_version;
  token = token;
  identifier = id;
  gateway_id = gateway_id;
  rest = rest;
}

decode-header :
    (token id : ℕ) (g r : Bytes)
    → token < 2 ^ 16
    → length g ≡ 8
    → decode (protocol_version ∷ (to_be_bytes_u16 token ++ (id ∷ (g ++ r))))
      ≡ some (packet token id g r)
unfolding decode
decode-header token id (a ∷ b ∷ c ∷ d ∷ e ∷ f ∷ g ∷ h ∷ []) r w l = ground arith
decode-header token id _ r w l = absurd (omega arith)

-- A PULL_DATA packet with a token of 16 bits and a gateway id of 8 bytes decodes to its token, the
-- identifier 2 and its gateway id, with nothing behind.
decode-pull_data_to_bytes :
    (p : PullData)
    → p.random_token < 2 ^ 16
    → length p.gateway_id ≡ 8
    → decode (pull_data_to_bytes p) ≡ some (packet p.random_token 0x02 p.gateway_id [])
unfolding pull_data_to_bytes
decode-pull_data_to_bytes p w l =
    ground (arith, decode-header p.random_token 2 p.gateway_id [], append-nil p.gateway_id)

module _ (X : External) where
  -- A PUSH_DATA packet with a token of 16 bits and a gateway id of 8 bytes is written exactly when
  -- its payload has a JSON text, and then decodes to its token, the identifier 0, its gateway id and
  -- that text; without a JSON text the writer panics.
  pub decode-push_data_to_bytes :
      (p : PushData X)
      → p.random_token < 2 ^ 16
      → length p.gateway_id ≡ 8
      → (X.json_to_vec (serialize_push_data_payload X p.payload) ≡ none
          → push_data_to_bytes X p ≡ panic)
        × ((j : Bytes)
            → X.json_to_vec (serialize_push_data_payload X p.payload) ≡ some j
            → (b : Bytes) × (push_data_to_bytes X p ≡ ok b)
              × (decode b ≡ some (packet p.random_token 0x00 p.gateway_id j)))
  unfolding push_data_to_bytes
  decode-push_data_to_bytes p w l =
      (λ e. rw e, λ j e. (_, rw e, decode-header p.random_token 0x00 p.gateway_id j w l))

  -- A TX_ACK packet with a token of 16 bits and a gateway id of 8 bytes is written exactly when its
  -- payload has a JSON text, and then decodes to its token, the identifier 5, its gateway id and
  -- that text; without a JSON text the writer panics.
  pub decode-tx_ack_to_bytes :
      (p : TxAck)
      → p.random_token < 2 ^ 16
      → length p.gateway_id ≡ 8
      → (X.json_to_vec (serialize_tx_ack_payload X p.payload) ≡ none → tx_ack_to_bytes X p ≡ panic)
        × ((j : Bytes)
            → X.json_to_vec (serialize_tx_ack_payload X p.payload) ≡ some j
            → (b : Bytes) × (tx_ack_to_bytes X p ≡ ok b)
              × (decode b ≡ some (packet p.random_token 0x05 p.gateway_id j)))
  unfolding tx_ack_to_bytes
  decode-tx_ack_to_bytes p w l =
      (λ e. rw e, λ j e. (_, rw e, decode-header p.random_token 0x05 p.gateway_id j w l))

-- What a server answers: version and token of the packet, and the identifier of the answer.
unfoldable pub reply : ℕ → Bytes → Bytes
reply id (v ∷ hi ∷ lo ∷ r) = v ∷ hi ∷ lo ∷ id ∷ []
reply id _ = []

module _ (X : External) where
  -- The reply of a server that copies version and token is read back with the token of the packet:
  -- PULL_ACK for a PULL_DATA, PUSH_ACK for a PUSH_DATA that was written, with tokens of 16 bits.
  pub ack-reply :
      ((p : PullData)
        → p.random_token < 2 ^ 16
        → pull_ack_from_bytes (reply 0x04 (pull_data_to_bytes p))
          ≡ ok (record { random_token = p.random_token }))
      × ((p : PushData X) (b : Bytes)
          → p.random_token < 2 ^ 16
          → push_data_to_bytes X p ≡ ok b
          → push_ack_from_bytes (reply 0x01 b) ≡ ok (record { random_token = p.random_token }))
  unfolding reply pull_data_to_bytes push_data_to_bytes pull_ack_from_bytes push_ack_from_bytes
  ack-reply = (λ p w. ground arith, λ p b w e. elim b [ [] ↦ ground arith | _ ↦ ground arith ])
