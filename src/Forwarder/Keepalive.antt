-- ===== src/Forwarder/Keepalive.antt =====
-- `pull_data_loop` of src/forwarder.rs: the keepalive frames and the count of those missed.
pub mod Runs
pub mod Laws
pub mod Silent
use chirpstack_udp_forwarder.Prelude.{
  ℕ, ◌+◌, ◌%◌, ◌^◌, List, [], ◌∷◌, Option, none, some, Bool, true, false, not, ◌&&◌, ◌==◌, ltb,
  if◌then◌else◌, codes, length,
}
use chirpstack_udp_forwarder.Prelude.Outcome.{Outcome, ok, err, panic}
use chirpstack_udp_forwarder.External.{External}
use chirpstack_udp_forwarder.Runtime.{Runtime}
use chirpstack_udp_forwarder.Bytes.{array_8}
use chirpstack_udp_forwarder.Structs.Packets.{PullData, pull_data_to_bytes}
use chirpstack_udp_forwarder.Forwarder.State.{State, incr_u32, set_pull_data_token}
use chirpstack_udp_forwarder.Forwarder.World.{
  World, M, HandlerError, structs, pure, ◌>>=◌, ◌>>◌, lift, get_state, modify_state, send_udp,
  count_sent,
}

-- The head of a round: the last token sent against the last one acknowledged.
unfoldable pub count_missed : State → ℕ → ℕ
count_missed s missed_acks =
    if not (s.pull_data_token == s.pull_data_token_acked) then incr_u32 missed_acks else 0

-- 0 stands for no limit.
unfoldable pub gives_up : State → ℕ → Bool
gives_up s missed_acks =
    not (s.keepalive_max_failures == 0) && ltb s.keepalive_max_failures missed_acks

module _ {X : External} (R : Runtime X) where
  send_pull_data : ℕ → M (World R) (Unit {0})
  send_pull_data random = do
    s ← get_state
    id ← lift structs (array_8 s.gateway_id)
    modify_state (set_pull_data_token random)
    let bytes = pull_data_to_bytes (record { random_token = random; gateway_id = id })
    send_udp bytes
    count_sent s.server (codes "PULL_DATA") (length bytes)

  -- One round. It gives the new count, or `none` where the loop sends the stop signal and returns.
  unfoldable pub pull_data_round : ℕ → ℕ → M (World R) (Option ℕ)
  unfolding send_pull_data count_missed gives_up
  pull_data_round random missed_acks = do
    s ← get_state
    let missed = count_missed s missed_acks
    if gives_up s missed then pure none else (do send_pull_data random; pure (some missed))

-- A round of the loop: the token that is drawn, and what the other threads do while it sleeps.
module _ {X : External} (R : Runtime X) where
  pub record Round : Type 0 where
    pub random : ℕ
    pub during : World R → World R

module _ {X : External} (R : Runtime X) where
  -- After a round: the loop has returned or panicked, or sleeps and goes on.
  proceed :
      Round R
      → (ℕ → M (World R) (Option ℕ))
      → Outcome HandlerError (Option ℕ) × World R
      → Outcome HandlerError (Option ℕ) × World R
  proceed r continue (ok (some m), w) = continue m (r.during w)
  proceed r continue (ok none, w) = (ok none, w)
  proceed r continue (err e, w) = (err e, w)
  proceed r continue (panic, w) = (panic, w)

  -- The loop over the given rounds: `none` if it returned, and its count of missed acknowledgements
  -- if the rounds are used up first.
  unfoldable pub pull_data_loop : List (Round R) → ℕ → M (World R) (Option ℕ)
  unfolding proceed
  pull_data_loop [] missed_acks w = (ok (some missed_acks), w)
  pull_data_loop (r ∷ rounds) missed_acks w =
      proceed r (λ m. pull_data_loop rounds m) (pull_data_round R r.random missed_acks w)
