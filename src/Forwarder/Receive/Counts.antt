-- ===== src/Forwarder/Receive/Counts.antt =====
-- The counters of src/metrics.rs over received datagrams.
use chirpstack_udp_forwarder.Prelude.{
  ℕ, ◌≡◌, ◌≢◌, ◌∙◌, sym, ap, ◌∷◌, Bytes, refl, arith, length, ◌==◌, ◌+◌, ◌%◌, ◌^◌, Bool-cases, inl,
  inr, ==_iff,
}
use mathlib.Core.Path.{subst}
use chirpstack_udp_forwarder.External.{External}
use chirpstack_udp_forwarder.Runtime.{Runtime, IsFamily, UdpLabels}
use chirpstack_udp_forwarder.Metrics.{
  Metrics, labels, incr_udp_received_count, incr_udp_received_bytes, incr_udp_sent_count,
  incr_udp_sent_bytes,
}
use chirpstack_udp_forwarder.Forwarder.World.{World, count_sent, log_error-world}
use chirpstack_udp_forwarder.Forwarder.Receive.{receive, handle_pull_resp}
use chirpstack_udp_forwarder.Forwarder.Receive.Laws.{type_of, counted, receive_acks}

module _ {X : External} (R : Runtime X) where
  abbrev received : Metrics R → R.Family × R.Family
  received m = (m.udp_received_count, m.udp_received_bytes)

  handle_pull_resp-received :
      (b : Bytes) (w : World R) → received (handle_pull_resp R b w).1.metrics ≡ received w.metrics
  unfolding handle_pull_resp count_sent incr_udp_sent_count incr_udp_sent_bytes
  handle_pull_resp-received b w = ground arith

  pull_resp-received :
      (v hi lo : ℕ) (r : Bytes) (w : World R)
      → received (receive R (v ∷ hi ∷ lo ∷ 0x03 ∷ r) w).1.metrics
        ≡ received (counted R (v ∷ hi ∷ lo ∷ 0x03 ∷ r) w.state.server w.metrics)
  unfolding receive
  pull_resp-received v hi lo r w =
      ap (λ (t : World R). received t.metrics)
        (log_error-world (handle_pull_resp R (v ∷ hi ∷ lo ∷ 0x03 ∷ r)) _)
      ∙ handle_pull_resp-received (v ∷ hi ∷ lo ∷ 0x03 ∷ r) _

  receive-received :
      (v hi lo id : ℕ) (r : Bytes) (w : World R)
      → received (receive R (v ∷ hi ∷ lo ∷ id ∷ r) w).1.metrics
        ≡ received (counted R (v ∷ hi ∷ lo ∷ id ∷ r) w.state.server w.metrics)
  receive-received v hi lo id r w = elim (Bool-cases (id == 0x03)) [
    | inl p ↦
        subst
          (λ k.
            received (receive R (v ∷ hi ∷ lo ∷ k ∷ r) w).1.metrics
            ≡ received (counted R (v ∷ hi ∷ lo ∷ k ∷ r) w.state.server w.metrics))
          (sym ((==_iff id 0x03).0 p)) (pull_resp-received v hi lo r w)
    | inr n ↦ rw (receive_acks R (v ∷ hi ∷ lo ∷ id ∷ r) w n) refl
  ]

  -- Any datagram of at least 4 bytes, on every branch of its handler, errors and panics included,
  -- counts once in `udp_received_count`, and with its length in `udp_received_bytes`, under the
  -- server and its type; the counters of all other labels stay. The counters have 64 bits.
  pub receive_counts :
      IsFamily R
      → (v hi lo id : ℕ) (r : Bytes) (w : World R)
      → (R.value
            (receive R (v ∷ hi ∷ lo ∷ id ∷ r) w).1.metrics.udp_received_count
            (labels w.state.server (type_of id))
          ≡ (R.value w.metrics.udp_received_count (labels w.state.server (type_of id)) + 1)
            % 2 ^ 64)
        × (R.value
              (receive R (v ∷ hi ∷ lo ∷ id ∷ r) w).1.metrics.udp_received_bytes
              (labels w.state.server (type_of id))
            ≡ (R.value w.metrics.udp_received_bytes (labels w.state.server (type_of id))
                + length (v ∷ hi ∷ lo ∷ id ∷ r))
              % 2 ^ 64)
        × ((k : UdpLabels)
            → labels w.state.server (type_of id) ≢ k
            → (R.value (receive R (v ∷ hi ∷ lo ∷ id ∷ r) w).1.metrics.udp_received_count k
                ≡ R.value w.metrics.udp_received_count k)
              × (R.value (receive R (v ∷ hi ∷ lo ∷ id ∷ r) w).1.metrics.udp_received_bytes k
                  ≡ R.value w.metrics.udp_received_bytes k))
  unfolding incr_udp_received_count incr_udp_received_bytes
  receive_counts family v hi lo id r w =
      let e = receive-received v hi lo id r w in
      let l = labels w.state.server (type_of id) in
      (
        ap (λ f. R.value f.0 l) e ∙ family.value-inc_by _ _ _,
        ap (λ f. R.value f.1 l) e ∙ family.value-inc_by _ _ _,
        λ k ne. (
          ap (λ f. R.value f.0 k) e ∙ family.value-inc_by_ne _ _ _ _ ne,
          ap (λ f. R.value f.1 k) e ∙ family.value-inc_by_ne _ _ _ _ ne,
        ),
      )
