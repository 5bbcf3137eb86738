-- ===== src/Tests/Keepalive.antt =====
-- The keepalive loop against a server that stays silent, and one that answers late.
use chirpstack_udp_forwarder.Prelude.{ℕ, ◌≡◌, ◌↔◌, none, List, [], ◌∷◌, refl, arith}
use chirpstack_udp_forwarder.Prelude.Outcome.{ok}
use chirpstack_udp_forwarder.Forwarder.Keepalive.{Round, pull_data_loop}
use chirpstack_udp_forwarder.Forwarder.Keepalive.Runs.{HasRun}
use chirpstack_udp_forwarder.Forwarder.Keepalive.Laws.{
  AllLeaveAlone, LeavesAlone, observed, pull_data_loop_stops_iff,
}
use chirpstack_udp_forwarder.Tests.Instance.{scripted}
use chirpstack_udp_forwarder.Tests.Forwarder.{world}

-- Nothing arrives while the loop sleeps.
abbrev quiet : ℕ → Round scripted
quiet random = record { random = random; during = λ w. w }

quiet-LeavesAlone : LeavesAlone scripted (λ w. w)
quiet-LeavesAlone = record { gateway = λ w. refl; limit = λ w. refl; token = λ w. refl }

-- One more round than the limit of 1 and the first, which finds the last token acknowledged.
abbrev rounds : List (Round scripted)
rounds = quiet 10 ∷ quiet 11 ∷ quiet 12 ∷ []

rounds-AllLeaveAlone : AllLeaveAlone scripted rounds
rounds-AllLeaveAlone = (quiet-LeavesAlone, (quiet-LeavesAlone, (quiet-LeavesAlone, tt)))

pull_data_loop_stops_iff_example :
    ((pull_data_loop scripted rounds 0 (world [])).0 ≡ ok none)
    ↔ HasRun 2 (observed scripted rounds (world []))
pull_data_loop_stops_iff_example =
    pull_data_loop_stops_iff scripted rounds (world []) rounds-AllLeaveAlone refl (omega arith)
      (omega arith)
