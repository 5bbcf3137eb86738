-- ===== src/Forwarder/History/Ledger.antt =====
-- What the counters come to on a network that answers each datagram at most once: the
-- acknowledgement rate that src/forwarder.rs reports is a rate.
use chirpstack_udp_forwarder.Prelude.{
  ℕ, ◌+◌, ◌≤◌, ◌<◌, ◌^◌, ◌≡◌, sym, Bool, true, false, List, [], ◌∷◌, length, ◌==◌, ◌&&◌,
  if◌then◌else◌, arith, refl, inl, inr, ◌⊎◌,
}
use chirpstack_udp_forwarder.Prelude.Outcome.{Outcome, ok, err, panic}
use mathlib.Core.Path.{subst}
use chirpstack_udp_forwarder.External.{External}
use chirpstack_udp_forwarder.Runtime.{Runtime}
use chirpstack_udp_forwarder.Forwarder.State.{incr_u32}
use chirpstack_udp_forwarder.Forwarder.World.{World, HandlerError}
use chirpstack_udp_forwarder.Forwarder.Events.Laws.{WritesJson}
use chirpstack_udp_forwarder.Forwarder.History.{Input, handle, run}
use chirpstack_udp_forwarder.Forwarder.History.Counters.{
  Counters, counters, Change, forwarded, reported, acked_by, nothing, apply, apply_all,
}
use chirpstack_udp_forwarder.Forwarder.History.Refinement.{changes, unless_panic, counters-run}

-- Whether no PUSH_ACK repeats: `pending` says that the token expected was not acknowledged yet.
abbrev pub answers_once : ℕ → Bool → List Change → Bool
answers_once token pending [] = true
answers_once token pending (forwarded t ∷ cs) = answers_once t true cs
answers_once token pending (reported t ∷ cs) = answers_once t true cs
answers_once token pending (acked_by t ∷ cs) =
    let once = answers_once token false cs in
    let other = answers_once token pending cs in if t == token then pending && once else other
answers_once token pending (nothing ∷ cs) = answers_once token pending cs

abbrev owed : Bool → ℕ
owed true = 1
owed false = 0

answers_once-cases :
    (match_ pending once other : Bool)
    → (if match_ then pending && once else other) ≡ true
    → (match_ ≡ true × pending ≡ true × once ≡ true) ⊎ (match_ ≡ false × other ≡ true)
answers_once-cases true true true other h = inl (refl, refl, refl)
answers_once-cases true true false other h = cc
answers_once-cases true false once other h = cc
answers_once-cases false pending once other h = inr (refl, h)

owed_one : (pending : Bool) → pending ≡ true → owed pending ≡ 1
owed_one true h = refl
owed_one false h = cc

acked_le_sent-apply_all :
    (cs : List Change) (c : Counters) (pending : Bool)
    → answers_once c.token pending cs ≡ true
    → c.acked + owed pending ≤ c.sent
    → c.sent + length cs < 2 ^ 32
    → (apply_all cs c).acked ≤ (apply_all cs c).sent
acked_le_sent-apply_all [] c pending h i b = omega arith
acked_le_sent-apply_all (forwarded t ∷ cs) c pending h i b =
    acked_le_sent-apply_all cs (apply (forwarded t) c) true h (omega arith) (omega arith)
acked_le_sent-apply_all (reported t ∷ cs) c pending h i b =
    acked_le_sent-apply_all cs (apply (reported t) c) true h (omega arith) (omega arith)
acked_le_sent-apply_all (acked_by t ∷ cs) c pending h i b =
    elim (answers_once-cases (t == c.token) pending (answers_once c.token false cs)
      (answers_once c.token pending cs) h) [
        | inl (e, p, once) ↦
            let acked_one = owed_one pending p in
            rw (apply_all, apply, e)
              (acked_le_sent-apply_all cs (record c { acked = incr_u32 c.acked }) false once
                (omega arith) (omega arith))
        | inr (e, other) ↦
            rw (apply_all, apply, e) (acked_le_sent-apply_all cs c pending other i (omega arith))
      ]
acked_le_sent-apply_all (nothing ∷ cs) c pending h i b =
    acked_le_sent-apply_all cs c pending h i (omega arith)

module _ {X : External} (R : Runtime X) where
  length-unless_panic :
      (o : Outcome HandlerError (Unit {0})) (cs : List Change)
      → length (unless_panic R o cs) ≤ length cs
  length-unless_panic (ok a) cs = omega arith
  length-unless_panic (err e) cs = omega arith
  length-unless_panic panic cs = omega arith

  length-changes :
      (inputs : List (Input X)) (w : World R) → length (changes R inputs w) ≤ length inputs
  length-changes [] w = omega arith
  length-changes (i ∷ inputs) w =
      let here = length-unless_panic (handle R i w).0 (changes R inputs (handle R i w).1) in
      let later = length-changes inputs (handle R i w).1 in omega arith

  -- Over any history of fewer than 2^32 inputs that starts with both counts at 0, on a network that
  -- acknowledges no token twice and none that was not sent, and with a total JSON writer and a
  -- gateway id of 8 bytes: the datagrams acknowledged since the last report are at most those sent
  -- since then, so the rate reported is at most 100 %.
  pub acked_le_sent-run :
      WritesJson X
      → (inputs : List (Input X)) (w : World R) → length w.state.gateway_id ≡ 8
      → w.state.push_data_sent ≡ 0
      → w.state.push_data_acked ≡ 0
      → length inputs < 2 ^ 32
      → answers_once w.state.push_data_token false (changes R inputs w) ≡ true
      → (run R inputs w).1.state.push_data_acked ≤ (run R inputs w).1.state.push_data_sent
  acked_le_sent-run writes inputs w l sent acked short once =
      let fewer = length-changes inputs w in
      let held =
        acked_le_sent-apply_all (changes R inputs w) (counters w.state) false once (omega arith)
          (omega arith) in
      subst (λ (c : Counters). c.acked ≤ c.sent) (sym (counters-run R writes inputs w l)) held
