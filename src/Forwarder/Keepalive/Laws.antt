-- ===== src/Forwarder/Keepalive/Laws.antt =====
-- When the keepalive loop gives up: after one more consecutive miss than `keepalive_max_failures`.
use chirpstack_udp_forwarder.Prelude.{
  ℕ, suc, ◌+◌, ◌^◌, ◌<◌, ◌≡◌, ◌≢◌, ◌↔◌, ◌⊎◌, inl, inr, ◌∙◌, sym, ap, Bool, true, false, not, List,
  [], ◌∷◌, ◌++◌, none, some, Bytes, refl, arith, length, codes, Bool-cases, ◌==◌, ltb,
}
use chirpstack_udp_forwarder.Prelude.Outcome.{ok, ok_injective}
use chirpstack_udp_forwarder.Bytes.{array_8_of_length}
use chirpstack_udp_forwarder.External.{External}
use chirpstack_udp_forwarder.Runtime.{Runtime}
use chirpstack_udp_forwarder.Structs.Error.{Error}
use chirpstack_udp_forwarder.Structs.Packets.{pull_data_to_bytes}
use chirpstack_udp_forwarder.Metrics.{incr_udp_sent_count, incr_udp_sent_bytes}
use chirpstack_udp_forwarder.Forwarder.State.{State}
use chirpstack_udp_forwarder.Forwarder.World.{World, count_sent}
use chirpstack_udp_forwarder.Forwarder.Keepalive.Runs.{
  StartsRun, HasRun, count, count_iff, StartsRun-HasRun, ltb-zero,
}
use chirpstack_udp_forwarder.Forwarder.Keepalive.{
  count_missed, gives_up, pull_data_round, Round, pull_data_loop,
}

-- The last PULL_DATA that was sent is not the last one acknowledged.
abbrev pub is_missed : State → Bool
is_missed s = not (s.pull_data_token == s.pull_data_token_acked)

gives_up_unlimited : (s : State) (k : ℕ) → s.keepalive_max_failures ≡ 0 → gives_up s k ≡ false
unfolding gives_up
gives_up_unlimited s k z = ground arith

module _ (s : State) (m max : ℕ) (limit : s.keepalive_max_failures ≡ max)
    (small : m + 1 < 2 ^ 32) where
  pub count_missed-missed : is_missed s ≡ true → count_missed s m ≡ m + 1
  unfolding count_missed
  count_missed-missed h = ground arith

  pub count_missed-answered : is_missed s ≡ false → count_missed s m ≡ 0
  unfolding count_missed
  count_missed-answered h = ground arith

  pub gives_up-eq : (k : ℕ) → max ≢ 0 → gives_up s k ≡ ltb max k
  unfolding gives_up
  gives_up-eq k z = ground arith

module _ {X : External} (R : Runtime X) where
  abbrev pub pull_data : ℕ → World R → Bytes
  pull_data random w =
      pull_data_to_bytes (record { random_token = random; gateway_id = w.state.gateway_id })

  -- The world after a round that sends.
  abbrev pub after_round : ℕ → World R → World R
  after_round random w = record w {
    state = record (w.state) { pull_data_token = random };
    sent = w.sent ++ (pull_data random w ∷ []);
    metrics =
        incr_udp_sent_bytes R w.state.server (codes "PULL_DATA") (length (pull_data random w))
          (incr_udp_sent_count R w.state.server (codes "PULL_DATA") w.metrics);
  }

  -- What the other threads leave alone while the loop sleeps: its configuration and its token.
  pub record LeavesAlone (during : World R → World R) : Type 0 where
    pub gateway : (w : World R) → (during w).state.gateway_id ≡ w.state.gateway_id
    pub limit :
        (w : World R) → (during w).state.keepalive_max_failures ≡ w.state.keepalive_max_failures
    pub token : (w : World R) → (during w).state.pull_data_token ≡ w.state.pull_data_token

  -- What the head of each round finds, if no round gives up.
  abbrev pub observed : List (Round R) → World R → List Bool
  observed [] w = []
  observed (r ∷ rounds) w = is_missed w.state ∷ observed rounds (r.during (after_round r.random w))

  abbrev pub AllLeaveAlone : List (Round R) → Type 0
  AllLeaveAlone [] = Unit
  AllLeaveAlone (r ∷ rounds) = LeavesAlone r.during × AllLeaveAlone rounds

  pub round_gives_up :
      (random m : ℕ) (w : World R)
      → gives_up w.state (count_missed w.state m) ≡ true
      → pull_data_round R random m w ≡ (ok none, w)
  unfolding pull_data_round
  round_gives_up random m w h = rw h

  pub round_sends :
      (random m : ℕ) (w : World R)
      → length w.state.gateway_id ≡ 8
      → gives_up w.state (count_missed w.state m) ≡ false
      → pull_data_round R random m w ≡ (ok (some (count_missed w.state m)), after_round random w)
  unfolding pull_data_round count_sent
  round_sends random m w l h = rw (h, array_8_of_length {E = Error} w.state.gateway_id l)

  loop-count :
      (max : ℕ) (rounds : List (Round R)) (m : ℕ) (w : World R)
      → AllLeaveAlone rounds
      → length w.state.gateway_id ≡ 8
      → w.state.keepalive_max_failures ≡ max
      → max ≢ 0
      → m + length rounds < 2 ^ 32
      → (pull_data_loop R rounds m w).0 ≡ ok (count max m (observed rounds w))
  unfolding pull_data_loop count
  loop-count max [] m w q l e z b = refl
  loop-count max (r ∷ rounds) m w q l e z b = elim (Bool-cases (is_missed w.state)) [
    | inl missed ↦
        let c = count_missed-missed w.state m max e (omega arith) missed in
        elim (Bool-cases (ltb max (m + 1))) [
          | inl over ↦ rw (
            round_gives_up r.random m w
                (gives_up-eq w.state m max e (omega arith) _ z ∙ ap (ltb max) c ∙ over),
            missed,
            over,
          )
          | inr under ↦
              rw
                (
                  round_sends r.random m w l
                      (gives_up-eq w.state m max e (omega arith) _ z ∙ ap (ltb max) c ∙ under),
                  missed,
                  under,
                  c,
                )
                (loop-count max rounds (m + 1) (r.during (after_round r.random w)) q.1
                  (ap length (q.0.gateway _) ∙ l) (q.0.limit _ ∙ e) z (omega arith))
        ]
    | inr answered ↦
        let c = count_missed-answered w.state m max e (omega arith) answered in
        rw
          (
            round_sends r.random m w l
                (gives_up-eq w.state m max e (omega arith) _ z ∙ ap (ltb max) c ∙ ltb-zero max),
            answered,
            c,
          )
          (loop-count max rounds 0 (r.during (after_round r.random w)) q.1
            (ap length (q.0.gateway _) ∙ l) (q.0.limit _ ∙ e) z (omega arith))
  ]

  -- The keepalive loop, started with no miss counted, with a limit other than 0, a gateway id of 8
  -- bytes, fewer than 2 ^ 32 rounds and other threads that leave its token and the configuration
  -- alone, returns exactly if somewhere in the rounds there are `keepalive_max_failures` + 1 heads
  -- in a row that find the last token sent not acknowledged.
  pub pull_data_loop_stops_iff :
      (rounds : List (Round R)) (w : World R)
      → AllLeaveAlone rounds
      → length w.state.gateway_id ≡ 8
      → w.state.keepalive_max_failures ≢ 0
      → length rounds < 2 ^ 32
      → ((pull_data_loop R rounds 0 w).0 ≡ ok none)
        ↔ HasRun (suc w.state.keepalive_max_failures) (observed rounds w)
  pull_data_loop_stops_iff rounds w q l z b =
      let max = w.state.keepalive_max_failures in
      let e = loop-count max rounds 0 w q l refl z (omega arith) in
      let c = count_iff max 0 max (observed rounds w) (omega arith) in
      (λ h. join (suc max) (c.0 (ok_injective _ _ (sym e ∙ h))), λ h. e ∙ ap ok (c.1 (inr h)))
    where
      join :
          (n : ℕ)
          → StartsRun n (observed rounds w) ⊎ HasRun n (observed rounds w)
          → HasRun n (observed rounds w)
      join n (inl s) = StartsRun-HasRun _ _ s
      join n (inr r) = r

  -- With a limit of 0 the loop never returns, whatever the server answers.
  pull_data_loop_unlimited :
      (rounds : List (Round R)) (m : ℕ) (w : World R)
      → AllLeaveAlone rounds
      → length w.state.gateway_id ≡ 8
      → w.state.keepalive_max_failures ≡ 0
      → (k : ℕ) × ((pull_data_loop R rounds m w).0 ≡ ok (some k))
  unfolding pull_data_loop
  pull_data_loop_unlimited [] m w q l z = (m, refl)
  pull_data_loop_unlimited (r ∷ rounds) m w q l z =
      rw (round_sends r.random m w l (gives_up_unlimited w.state _ z)) (
        pull_data_loop_unlimited rounds (count_missed w.state m) (r.during (after_round r.random w))
          q.1 (ap length (q.0.gateway _) ∙ l) (q.0.limit _ ∙ z))
