-- ===== src/Structs/PullResp.antt =====
-- `PullResp::from_bytes` of src/structs.rs, with the derived `Deserialize` of its payload.
pub mod Laws
use chirpstack_udp_forwarder.Prelude.{
  ℕ, Bytes, Text, List, [], ◌∷◌, Option, none, some, Bool, true, false, not, length, drop, ltb,
  ◌==◌, codes, text_eq, if◌then◌else◌,
}
use chirpstack_udp_forwarder.Prelude.Outcome.{
  Outcome, ok, err, unwrap, or_fail, map_err, ◌>>=◌, ◌>>◌,
}
use chirpstack_udp_forwarder.External.{External, Fields, end, cut, field}
use chirpstack_udp_forwarder.Structs.Types.{
  Value, De, missing_field, syntax, invalid_length, duplicate_field,
}
use chirpstack_udp_forwarder.Structs.Error.{
  Result, expected_at_least_5_bytes, bad_protocol_version, bad_identifier, invalid_json, serde,
}
use chirpstack_udp_forwarder.Structs.TxPk.{TxPk, deserialize_txpk, struct_fields}
use chirpstack_udp_forwarder.Structs.Acks.{protocol_version, index, fail_if, token_of}

module _ (X : External) where
  pub record PullRespPayload : Type 0 where
    pub txpk : TxPk X

module _ (X : External) where
  pub record PullResp : Type 0 where
    pub random_token : ℕ
    pub payload : PullRespPayload X

module _ (X : External) where
  read_member : Bool → Option (TxPk X) → Value X → De X (Option (TxPk X))
  read_member true (some _) v = err duplicate_field
  read_member true none v = do t ← deserialize_txpk X v; ok (some t)
  read_member false found v = ok found

  read_members : Option (TxPk X) → Fields X.F64 X.F32 → De X (Option (TxPk X))
  unfolding read_member
  read_members found end = ok found
  read_members found cut = err syntax
  read_members found (field n v rest) =
      read_member (text_eq n (codes "txpk")) found v >>= λ found'. read_members found' rest

  -- One member `txpk`, wherever it stands, and no second one.
  unfoldable pub deserialize_payload : Value X → De X (PullRespPayload X)
  unfolding struct_fields read_members text_eq
  deserialize_payload v = do
    s ← struct_fields X (codes "txpk" ∷ []) v
    found ← read_members none s.fields
    if s.complete
        then (do t ← or_fail found missing_field; ok (record { txpk = t }))
        else err invalid_length

  -- `serde_json::from_slice` reads the members while it parses: what is wrong further on in the text,
  -- or behind the value, is an error only after that.
  unfoldable pub from_bytes : Bytes → Result (PullResp X)
  from_bytes b = do
    fail_if (ltb (length b) 5) (expected_at_least_5_bytes (length b))
    version ← index b 0
    fail_if (not (version == protocol_version)) (bad_protocol_version version)
    id ← index b 3
    fail_if (not (id == 0x03)) (bad_identifier id)
    token ← token_of b
    (v, whole) ← or_fail (X.json_from_slice (drop 4 b)) invalid_json
    pl ← map_err serde (deserialize_payload v)
    fail_if (not whole) invalid_json
    ok (record { random_token = token; payload = pl })
