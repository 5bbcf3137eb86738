-- ===== src/Structs/Packets.antt =====
-- The packets that the forwarder writes: `to_bytes` of PUSH_DATA, PULL_DATA and TX_ACK in
-- src/structs.rs.
pub mod Laws
use chirpstack_udp_forwarder.Prelude.{
  ℕ, List, [], ◌∷◌, ◌++◌, Option, none, some, Bytes, Text, codes, ◌≡◌, refl,
}
use chirpstack_udp_forwarder.Prelude.Outcome.{Outcome, ok, unwrap, ◌>>=◌}
use chirpstack_udp_forwarder.Bytes.{to_be_bytes_u16}
use chirpstack_udp_forwarder.External.{External, Json, str, arr, obj, Items, nil, cons, end, field}
use chirpstack_udp_forwarder.Structs.Types.{Value}
use chirpstack_udp_forwarder.Structs.Error.{Result}
use chirpstack_udp_forwarder.Structs.RxPk.{RxPk, serialize_rxpk, optional_field}
use chirpstack_udp_forwarder.Structs.Stat.{Stat, serialize_stat}
use chirpstack_udp_forwarder.Structs.Acks.{protocol_version}

pub record PullData : Type 0 where
  pub random_token : ℕ
  pub gateway_id : Bytes

unfoldable pub pull_data_to_bytes : PullData → Bytes
pull_data_to_bytes p = protocol_version ∷ (to_be_bytes_u16 p.random_token ++ (0x02 ∷ p.gateway_id))

test_pull_data :
    pull_data_to_bytes
      (record { random_token = 123; gateway_id = 1 ∷ 2 ∷ 3 ∷ 4 ∷ 5 ∷ 6 ∷ 7 ∷ 8 ∷ [] })
    ≡ 2 ∷ 0 ∷ 123 ∷ 2 ∷ 1 ∷ 2 ∷ 3 ∷ 4 ∷ 5 ∷ 6 ∷ 7 ∷ 8 ∷ []
unfolding pull_data_to_bytes
test_pull_data = refl

pub record TxAckPayloadError : Type 0 where
  pub error : Text

pub record TxAckPayload : Type 0 where
  pub txpk_ack : TxAckPayloadError

pub record TxAck : Type 0 where
  pub random_token : ℕ
  pub gateway_id : Bytes
  pub payload : TxAckPayload

module _ (X : External) where
  pub record PushDataPayload : Type 0 where
    pub rxpk : List (RxPk X)
    pub stat : Option (Stat X)

module _ (X : External) where
  pub record PushData : Type 0 where
    pub random_token : ℕ
    pub gateway_id : Bytes
    pub payload : PushDataPayload X

module _ (X : External) where
  serialize_rxpks : List (RxPk X) → Items X.F64 X.F32
  serialize_rxpks [] = nil
  serialize_rxpks (p ∷ ps) = cons (serialize_rxpk X p) (serialize_rxpks ps)

  unfoldable pub serialize_push_data_payload : PushDataPayload X → Value X
  unfolding serialize_rxpks
  serialize_push_data_payload p = obj (
      field (codes "rxpk") (arr (serialize_rxpks p.rxpk))
        (optional_field X (codes "stat") (serialize_stat X) p.stat end))

  unfoldable pub serialize_tx_ack_payload : TxAckPayload → Value X
  serialize_tx_ack_payload p =
      obj (field (codes "txpk_ack") (obj (field (codes "error") (str p.txpk_ack.error) end)) end)

  -- `serde_json::to_vec(…).unwrap()`
  unfoldable pub push_data_to_bytes : PushData X → Result Bytes
  push_data_to_bytes p = do
    j ← unwrap (X.json_to_vec (serialize_push_data_payload p.payload))
    ok (protocol_version ∷ (to_be_bytes_u16 p.random_token ++ (0x00 ∷ (p.gateway_id ++ j))))

  unfoldable pub tx_ack_to_bytes : TxAck → Result Bytes
  tx_ack_to_bytes p = do
    j ← unwrap (X.json_to_vec (serialize_tx_ack_payload p.payload))
    ok (protocol_version ∷ (to_be_bytes_u16 p.random_token ++ (0x05 ∷ (p.gateway_id ++ j))))
