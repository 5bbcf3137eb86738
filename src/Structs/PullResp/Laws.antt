-- ===== src/Structs/PullResp/Laws.antt =====
-- Which datagrams `PullResp::from_bytes` accepts, and which make it panic.
use mathlib.Core.Path.{subst₂}
use native.Mathlib.Decide.{ℕ_discrete}
use chirpstack_udp_forwarder.Structs.Error.{Error, serde, invalid_json}
use chirpstack_udp_forwarder.Prelude.{
  sym, ◌∙◌, ℕ, ◌≡◌, ◌≢◌, ◌↔◌, ◌⊎◌, inl, inr, [], ◌∷◌, Option, none, some, Bytes, refl, ap, arith,
  codes, Bool, true, false,
}
use chirpstack_udp_forwarder.Prelude.Int.{negsuc}
use chirpstack_udp_forwarder.Prelude.Outcome.{Outcome, ok, err, panic}
use chirpstack_udp_forwarder.Bytes.{from_be_bytes_u16}
use chirpstack_udp_forwarder.External.{External, Json, int, obj, Fields, field}
use chirpstack_udp_forwarder.Structs.Types.{Value, De, deserialize_data_rate}
use chirpstack_udp_forwarder.Structs.Acks.{protocol_version}
use chirpstack_udp_forwarder.Structs.PullResp.{
  PullResp, PullRespPayload, from_bytes, deserialize_payload,
}
use chirpstack_udp_forwarder.Structs.TxPk.{deserialize_txpk}

module _ (X : External) where
  -- The wire form of a PULL_RESP: version, token, identifier 3, and a text of at least one byte that
  -- begins with a JSON value; `whole` says that nothing else follows it.
  pub record IsPullResp (b : Bytes) (token : ℕ) (v : Value X) (whole : Bool) : Type 0 where
    pub hi : ℕ
    pub lo : ℕ
    pub first : ℕ
    pub rest : Bytes
    pub wire : b ≡ protocol_version ∷ hi ∷ lo ∷ 0x03 ∷ first ∷ rest
    pub token_read : token ≡ from_be_bytes_u16 hi lo
    pub json : X.json_from_slice (first ∷ rest) ≡ some (v, whole)

module _ (X : External) where
  abbrev finish : ℕ → Bool → De X (PullRespPayload X) → Outcome Error (PullResp X)
  finish token true (ok pl) = ok (record { random_token = token; payload = pl })
  finish token false (ok pl) = err invalid_json
  finish token whole (err e) = err (serde e)
  finish token whole panic = panic

  -- The outcome is that of the payload's reader, or an error.
  abbrev Decided : Bytes → Type 0
  Decided b =
      ((token : ℕ) × (v : Value X) × (whole : Bool) × IsPullResp X b token v whole
        × (from_bytes X b ≡ finish token whole (deserialize_payload X v)))
      ⊎ (((r : PullResp X) → from_bytes X b ≢ ok r) × (from_bytes X b ≢ panic))

  from_bytes_of_wire :
      (hi lo x : ℕ) (r : Bytes) (o : Option (Value X × Bool))
      → X.json_from_slice (x ∷ r) ≡ o
      → Decided (protocol_version ∷ hi ∷ lo ∷ 0x03 ∷ x ∷ r)
  unfolding from_bytes
  from_bytes_of_wire hi lo x r none e = inr (λ p. ground arith, ground arith)
  from_bytes_of_wire hi lo x r (some (v, whole)) e = inl (
    from_be_bytes_u16 hi lo,
    v,
    whole,
    record { hi = hi; lo = lo; first = x; rest = r; wire = refl; token_read = refl; json = e },
    ground arith,
  )

  from_bytes_cases : (b : Bytes) → Decided b
  unfolding from_bytes
  from_bytes_cases [] = inr (λ p. ground arith, ground arith)
  from_bytes_cases (a ∷ []) = inr (λ p. ground arith, ground arith)
  from_bytes_cases (a ∷ b ∷ []) = inr (λ p. ground arith, ground arith)
  from_bytes_cases (a ∷ b ∷ c ∷ []) = inr (λ p. ground arith, ground arith)
  from_bytes_cases (a ∷ b ∷ c ∷ d ∷ []) = inr (λ p. ground arith, ground arith)
  from_bytes_cases (a ∷ hi ∷ lo ∷ d ∷ x ∷ r) = elim (ℕ_discrete a protocol_version) [
    | no n ↦ inr (λ p. ground arith, ground arith)
    | yes e ↦ elim (ℕ_discrete d 0x03) [
      | no n ↦ inr (λ p. ground arith, ground arith)
      | yes f ↦
          subst₂ (λ a' d'. Decided (a' ∷ hi ∷ lo ∷ d' ∷ x ∷ r)) (sym e) (sym f)
            (from_bytes_of_wire hi lo x r (X.json_from_slice (x ∷ r)) refl)
    ]
  ]

  -- On a wire form the outcome is that of the payload's reader.
  from_bytes-wire :
      (b : Bytes) (token : ℕ) (v : Value X) (whole : Bool)
      → IsPullResp X b token v whole
      → from_bytes X b ≡ finish token whole (deserialize_payload X v)
  unfolding from_bytes
  from_bytes-wire b token v whole i = rw (i.wire, i.token_read) (rw i.json (ground arith))

  -- `PullResp::from_bytes` gives a packet exactly when the datagram is the wire form of a PULL_RESP
  -- with its token and one JSON text, which is read as its payload; it panics exactly on such a wire
  -- form with a value whose reader panics, whatever is wrong in the text behind that place. So no
  -- header makes it panic.
  pub from_bytes_outcome :
      (b : Bytes)
      → ((r : PullResp X)
          → (from_bytes X b ≡ ok r) ↔ (
              (v : Value X) × IsPullResp X b r.random_token v true
              × (deserialize_payload X v ≡ ok r.payload)))
        × ((from_bytes X b ≡ panic) ↔ (
            (token : ℕ) × (v : Value X) × (whole : Bool) × IsPullResp X b token v whole
            × (deserialize_payload X v ≡ panic)))
  from_bytes_outcome b = (λ r. (reads r, reads_only r), (panics, panics_only))
    where
      finish_ok :
          (token : ℕ) (whole : Bool) (o : De X (PullRespPayload X)) (r : PullResp X)
          → finish token whole o ≡ ok r
          → (whole ≡ true) × (token ≡ r.random_token) × (o ≡ ok r.payload)
      finish_ok token true (ok pl) r e = ground arith
      finish_ok token false (ok pl) r e = cc
      finish_ok token true (err x) r e = cc
      finish_ok token false (err x) r e = cc
      finish_ok token true panic r e = cc
      finish_ok token false panic r e = cc

      finish_panic :
          (token : ℕ) (whole : Bool) (o : De X (PullRespPayload X))
          → finish token whole o ≡ panic
          → o ≡ panic
      finish_panic token true (ok pl) e = cc
      finish_panic token false (ok pl) e = cc
      finish_panic token true (err x) e = cc
      finish_panic token false (err x) e = cc
      finish_panic token whole panic e = refl

      panic_finishes : (token : ℕ) (whole : Bool) → finish token whole panic ≡ panic
      panic_finishes token true = refl
      panic_finishes token false = refl

      reads :
          (r : PullResp X)
          → from_bytes X b ≡ ok r
          → (v : Value X) × IsPullResp X b r.random_token v true
            × (deserialize_payload X v ≡ ok r.payload)
      reads r h = elim (from_bytes_cases b) [
        | inr (n, m) ↦ absurd (n r h)
        | inl (token, v, whole, i, e) ↦
            let (w, t, q) = finish_ok token whole (deserialize_payload X v) r (sym e ∙ h) in
            (v, subst₂ (λ k x. IsPullResp X b k v x) t w i, q)
      ]

      reads_only :
          (r : PullResp X)
          → (v : Value X) × IsPullResp X b r.random_token v true
            × (deserialize_payload X v ≡ ok r.payload)
          → from_bytes X b ≡ ok r
      reads_only r (v, i, q) =
          from_bytes-wire b r.random_token v true i ∙ ap (finish r.random_token true) q

      panics :
          from_bytes X b ≡ panic
          → (token : ℕ) × (v : Value X) × (whole : Bool) × IsPullResp X b token v whole
            × (deserialize_payload X v ≡ panic)
      panics h = elim (from_bytes_cases b) [
        | inr (n, m) ↦ absurd (m h)
        | inl (token, v, whole, i, e) ↦
            (token, v, whole, i, finish_panic token whole (deserialize_payload X v) (sym e ∙ h))
      ]

      panics_only :
          (token : ℕ) × (v : Value X) × (whole : Bool) × IsPullResp X b token v whole
            × (deserialize_payload X v ≡ panic)
          → from_bytes X b ≡ panic
      panics_only (token, v, whole, i, q) =
          from_bytes-wire b token v whole i
          ∙ (ap (finish token whole) q ∙ panic_finishes token whole)

  -- A number that is no u64: negative, or with a fraction or an exponent.
  abbrev pub IsNoU64 : Value X → Type 0
  IsNoU64 (int (negsuc n)) = Unit
  IsNoU64 (Json.f64 x) = Unit
  IsNoU64 _ = ⊥

  -- A payload whose `txpk` begins with a `datr` that is such a number.
  abbrev pub bad_datr : Value X → Fields X.F64 X.F32 → Fields X.F64 X.F32 → Value X
  bad_datr d rest rest' = obj (field (codes "txpk") (obj (field (codes "datr") d rest)) rest')

  pub deserialize_payload_panics :
      (d : Value X) (rest rest' : Fields X.F64 X.F32)
      → IsNoU64 d
      → deserialize_payload X (bad_datr d rest rest') ≡ panic
  unfolding deserialize_payload deserialize_txpk deserialize_data_rate
  deserialize_payload_panics (int (negsuc n)) rest rest' h = refl
  deserialize_payload_panics (Json.f64 x) rest rest' h = refl
  deserialize_payload_panics _ rest rest' h = absurd h
