-- ===== src/Forwarder/System/NoPanic/Handlers.antt =====
-- Which calls of the handlers of src/forwarder.rs end without a panic.
use mathlib.Core.Path.{subst}
use chirpstack_udp_forwarder.Reader.{Read, timeout, undecodable, event}
use chirpstack_udp_forwarder.Prelude.{
  ℕ, sym, ◌≡◌, ◌≢◌, refl, ap, ◌∙◌, [], ◌∷◌, true, false, Bytes, length, Bool-cases, ◌⊎◌, inl, inr,
  ==_iff,
}
use chirpstack_udp_forwarder.Prelude.Outcome.{Outcome, ok, err, panic}
use chirpstack_udp_forwarder.External.{External}
use chirpstack_udp_forwarder.Gw
use chirpstack_udp_forwarder.Runtime.{Runtime}
use chirpstack_udp_forwarder.Structs.Error.{Error}
use chirpstack_udp_forwarder.Structs.PullResp.{from_bytes}
use chirpstack_udp_forwarder.Structs.Times.{IsOutOfRange}
use chirpstack_udp_forwarder.Structs.RxPk.{RxPk, from_proto}
use chirpstack_udp_forwarder.Forwarder.World.{World, HandlerError}
use chirpstack_udp_forwarder.Forwarder.Events.{events_up, passes}
use chirpstack_udp_forwarder.Forwarder.Events.Laws.{
  WritesJson, events_up_outcome, events_stats_outcome,
}
use chirpstack_udp_forwarder.Forwarder.Receive.{receive, handle_pull_resp}
use chirpstack_udp_forwarder.Forwarder.Receive.Laws.{receive_acks, is_pull_resp}
use chirpstack_udp_forwarder.Forwarder.System.{handle_read}
use chirpstack_udp_forwarder.Forwarder.System.Watched.{receive-heard}

-- The read does not fail, and gives neither an uplink frame that makes its conversion panic nor
-- statistics with a time outside chrono's range.
abbrev pub IsHarmless : {X : External} → X.DateTime → Outcome HandlerError (Read X) → Type 0
IsHarmless {X} now (ok (event (Gw.uplink_frame up))) = from_proto X now up ≢ panic
IsHarmless {X} now (ok (event (Gw.gateway_stats stats))) = IsOutOfRange X stats.time → ⊥
IsHarmless now (ok _) = Unit
IsHarmless now _ = ⊥

-- The datagram is no PULL_RESP, or one that `PullResp::from_bytes` refuses.
abbrev pub IsNoDownlink : External → Bytes → Type 0
IsNoDownlink X b = (is_pull_resp b ≡ false) ⊎ ((e : Error) × (from_bytes X b ≡ err e))

module _ {X : External} (R : Runtime X) where
  abbrev pub HandlesWell : Outcome HandlerError (Unit {0}) × World R → Type 0
  HandlesWell r = (r.0 ≡ ok tt) × (length r.1.state.gateway_id ≡ 8)

  module _ (writes : WritesJson X) where
    up-HandlesWell :
        (now : X.DateTime) (random : ℕ) (up : Gw.UplinkFrame X) (w : World R)
        (o : Outcome Error (RxPk X))
        → length w.state.gateway_id ≡ 8
        → from_proto X now up ≡ o
        → o ≢ panic
        → HandlesWell (events_up R now random up w)
    up-HandlesWell now random up w o l e n = elim (Bool-cases (passes w.state up.rx_info)) [
      | inr f ↦ rw ((events_up_outcome R writes now random up w l).0 f) (refl, l)
      | inl t ↦ passed o e n t
    ]
      where
        passed :
            (o : Outcome Error (RxPk X))
            → from_proto X now up ≡ o
            → o ≢ panic
            → passes w.state up.rx_info ≡ true
            → HandlesWell (events_up R now random up w)
        passed (ok p) e n t =
            let (b, _, q) = (events_up_outcome R writes now random up w l).3 p t e in rw q (refl, l)
        passed (err x) e n t = rw ((events_up_outcome R writes now random up w l).1 x e) (refl, l)
        passed panic e n t = absurd (n refl)

    pub handle_read-HandlesWell :
        (now : X.DateTime) (random : ℕ) (e : Read X) (w : World R)
        → length w.state.gateway_id ≡ 8
        → IsHarmless now (ok e)
        → HandlesWell (handle_read R now random e w)
    unfolding handle_read
    handle_read-HandlesWell now random timeout w l h = (refl, l)
    handle_read-HandlesWell now random undecodable w l h = (refl, l)
    handle_read-HandlesWell now random (event (Gw.uplink_frame up)) w l h =
        up-HandlesWell now random up w (from_proto X now up) l refl h
    handle_read-HandlesWell now random (event (Gw.gateway_stats stats)) w l h =
        elim (events_stats_outcome R writes now random stats w l) [
          | inl (out, _) ↦ absurd (h out)
          | inr (_, stat, b, _, _, q) ↦ rw q (refl, l)
        ]
    handle_read-HandlesWell now random (event Gw.other_event) w l h = (refl, l)

    pull_resp-refused :
        (v hi lo : ℕ) (r : Bytes) (w : World R) (e : Error)
        → from_bytes X (v ∷ hi ∷ lo ∷ 0x03 ∷ r) ≡ err e
        → (receive R (v ∷ hi ∷ lo ∷ 0x03 ∷ r) w).0 ≡ ok tt
    unfolding receive handle_pull_resp
    pull_resp-refused v hi lo r w e h = rw h refl

    receive-refused :
        (b : Bytes) (w : World R) (e : Error)
        → is_pull_resp b ≡ true
        → from_bytes X b ≡ err e
        → (receive R b w).0 ≡ ok tt
    receive-refused (v ∷ hi ∷ lo ∷ id ∷ r) w e p h =
        subst
          (λ k.
            from_bytes X (v ∷ hi ∷ lo ∷ k ∷ r) ≡ err e
            → (receive R (v ∷ hi ∷ lo ∷ k ∷ r) w).0 ≡ ok tt)
          (sym ((==_iff id 0x03).0 p)) (pull_resp-refused v hi lo r w e) h
    receive-refused [] w e p h = cc
    receive-refused (x ∷ []) w e p h = cc
    receive-refused (x ∷ y ∷ []) w e p h = cc
    receive-refused (x ∷ y ∷ z ∷ []) w e p h = cc

    pub receive-HandlesWell :
        (b : Bytes) (w : World R)
        → length w.state.gateway_id ≡ 8
        → IsNoDownlink X b
        → HandlesWell (receive R b w)
    receive-HandlesWell b w l n = (ends n, ap (λ x. length x.3) (receive-heard R b w) ∙ l)
      where
        ends : IsNoDownlink X b → (receive R b w).0 ≡ ok tt
        ends (inl q) = ap (λ r. r.0) (receive_acks R b w q)
        ends (inr (e, h)) = elim (Bool-cases (is_pull_resp b)) [
          | inl p ↦ receive-refused b w e p h
          | inr q ↦ ap (λ r. r.0) (receive_acks R b w q)
        ]
