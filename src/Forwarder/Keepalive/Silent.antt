-- ===== src/Forwarder/Keepalive/Silent.antt =====
-- The keepalive loop against a server that falls silent.
use chirpstack_udp_forwarder.Prelude.{
  ℕ, zero, suc, ◌+◌, ◌^◌, ◌≤◌, ◌<◌, ◌≡◌, ◌≢◌, inr, ◌∙◌, true, List, [], ◌∷◌, none, arith, length,
}
use chirpstack_udp_forwarder.Prelude.Outcome.{ok}
use chirpstack_udp_forwarder.External.{External}
use chirpstack_udp_forwarder.Runtime.{Runtime}
use chirpstack_udp_forwarder.Forwarder.State.{State}
use chirpstack_udp_forwarder.Forwarder.World.{World}
use chirpstack_udp_forwarder.Forwarder.Keepalive.Runs.{StartsRun, StartsRun-HasRun}
use chirpstack_udp_forwarder.Forwarder.Keepalive.{Round, pull_data_loop}
use chirpstack_udp_forwarder.Forwarder.Keepalive.Laws.{
  is_missed, after_round, AllLeaveAlone, observed, pull_data_loop_stops_iff,
}

is_missed_of_ne :
    (s : State) (t a : ℕ)
    → s.pull_data_token ≡ t
    → s.pull_data_token_acked ≡ a
    → t ≢ a
    → is_missed s ≡ true
is_missed_of_ne s t a p q n = ground arith

module _ {X : External} (R : Runtime X) where
  -- A server that is silent: nothing is acknowledged, and no drawn token is the acknowledged one.
  abbrev pub IsSilent : ℕ → List (Round R) → Type 0
  IsSilent a [] = Unit
  IsSilent a (r ∷ rounds) =
      (r.random ≢ a)
      × ((w : World R) → (r.during w).state.pull_data_token_acked ≡ w.state.pull_data_token_acked)
      × IsSilent a rounds

  StartsRun-silent :
      (n a : ℕ) (rounds : List (Round R)) (w : World R)
      → n ≤ length rounds
      → AllLeaveAlone R rounds
      → IsSilent a rounds
      → w.state.pull_data_token_acked ≡ a
      → is_missed w.state ≡ true
      → StartsRun n (observed R rounds w)
  StartsRun-silent zero a rounds w h q s e m = tt
  StartsRun-silent (suc n) a [] w h q s e m = absurd (omega arith)
  StartsRun-silent (suc n) a (r ∷ rounds) w h q s e m = rw m (
      StartsRun-silent n a rounds (r.during (after_round R r.random w)) (omega arith) q.1 s.2
        (s.1 _ ∙ e)
        (is_missed_of_ne (r.during (after_round R r.random w)).state r.random a (q.0.token _)
          (s.1 _ ∙ e) s.0))

  -- A server that falls silent is noticed: if no PULL_DATA is acknowledged in any of the rounds, no
  -- drawn token is the acknowledged one, and there are at least `keepalive_max_failures` + 2 rounds
  -- (and fewer than 2 ^ 32), the loop returns. The limit is not 0, the gateway id has 8 bytes, and
  -- the other threads leave the loop's token and the configuration alone.
  pub silent_server_stops :
      (rounds : List (Round R)) (w : World R)
      → AllLeaveAlone R rounds
      → IsSilent w.state.pull_data_token_acked rounds
      → length w.state.gateway_id ≡ 8
      → w.state.keepalive_max_failures ≢ 0
      → w.state.keepalive_max_failures + 2 ≤ length rounds
      → length rounds < 2 ^ 32
      → (pull_data_loop R rounds 0 w).0 ≡ ok none
  silent_server_stops [] w q s l z n b = absurd (omega arith)
  silent_server_stops (r ∷ rounds) w q s l z n b =
      (pull_data_loop_stops_iff R (r ∷ rounds) w q l z b).1 (
        inr (
          StartsRun-HasRun (suc w.state.keepalive_max_failures) _ (
            StartsRun-silent (suc w.state.keepalive_max_failures) w.state.pull_data_token_acked
              rounds (r.during (after_round R r.random w)) (omega arith) q.1 s.2 (s.1 _)
              (is_missed_of_ne (r.during (after_round R r.random w)).state r.random
                w.state.pull_data_token_acked (q.0.token _) (s.1 _) s.0))))
