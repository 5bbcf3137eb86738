-- ===== src/Tests/System.antt =====
-- The threads of a forwarder whose server stays silent.
use chirpstack_udp_forwarder.Reader.{message, read_event}
use chirpstack_udp_forwarder.Prelude.{◌≡◌, List, [], ◌∷◌, refl, true, false, some}
use chirpstack_udp_forwarder.Prelude.Outcome.{ok}
use chirpstack_udp_forwarder.Config.{Server, default_server}
use chirpstack_udp_forwarder.Metrics.{Metrics}
use chirpstack_udp_forwarder.Bytes.{array_8}
use chirpstack_udp_forwarder.Signals.{take_signal, try_recv, send_signal, new_receiver, new_pool}
use chirpstack_udp_forwarder.Forwarder.State.{new_state}
use chirpstack_udp_forwarder.Forwarder.World.{count_sent}
use chirpstack_udp_forwarder.Forwarder.Keepalive.{pull_data_round}
use chirpstack_udp_forwarder.Forwarder.System.{
  Move, keepalive_round, receive_round, events_round, System, start, step, run_threads, joined,
}
use chirpstack_udp_forwarder.Forwarder.System.Laws.{told, keepalive_round-told}
use chirpstack_udp_forwarder.Forwarder.System.Stop.{stop-joined}
use chirpstack_udp_forwarder.Forwarder.System.Silent.{silent_server-joined}
use chirpstack_udp_forwarder.Forwarder.Receive.{receive}
use chirpstack_udp_forwarder.Forwarder.System.{stopped, handle_datagram, handle_read}
use chirpstack_udp_forwarder.Structs.Acks.{push_ack_from_bytes}
use chirpstack_udp_forwarder.Prelude.{none, arith}
use chirpstack_udp_forwarder.Forwarder.System.{counting, running}
use chirpstack_udp_forwarder.Forwarder.System.Answered.{answered-running}
use chirpstack_udp_forwarder.Forwarder.System.NoPanic.{run_threads-no_panic}
use chirpstack_udp_forwarder.Prelude.{◌++◌}
use chirpstack_udp_forwarder.Prelude.{inl, inr}
use chirpstack_udp_forwarder.Structs.PullResp.{from_bytes}
use chirpstack_udp_forwarder.Tests.Instance.{plain-WritesJson, Sock, plain, scripted}
use chirpstack_udp_forwarder.Tests.Structs.{gateway}

abbrev pub conf : Server
conf = record default_server { keepalive_max_failures = 1 }

abbrev pub sock : Sock
sock = (false, [])

abbrev pub zero_metrics : Metrics scripted
zero_metrics = record {
  udp_sent_count = λ l. 0;
  udp_sent_bytes = λ l. 0;
  udp_received_count = λ l. 0;
  udp_received_bytes = λ l. 0;
  registry = [];
}

abbrev begun : System scripted
begun = start scripted conf gateway sock zero_metrics

-- The second round misses one acknowledgement, and a third one gives up.
abbrev two_rounds : List (Move plain)
two_rounds = keepalive_round 5 ∷ keepalive_round 6 ∷ []

abbrev three_rounds : List (Move plain)
three_rounds = keepalive_round 5 ∷ keepalive_round 6 ∷ keepalive_round 7 ∷ []

abbrev pub both_rounds : List (Move plain)
both_rounds = events_round (message []) 0 9 ∷ receive_round (some (2 ∷ 0 ∷ 7 ∷ 4 ∷ [])) ∷ []

keepalive_round-told_example :
    step scripted (keepalive_round 7) (run_threads scripted two_rounds begun).1
    ≡ (ok tt, told scripted (run_threads scripted two_rounds begun).1)
unfolding run_threads start step pull_data_round new_state array_8 count_sent
keepalive_round-told_example =
    keepalive_round-told scripted conf gateway sock zero_metrics two_rounds 7 1 refl refl

stop-joined_example :
    ((run_threads scripted both_rounds (run_threads scripted three_rounds begun).1).0 ≡ ok tt)
    × ((run_threads scripted both_rounds (run_threads scripted three_rounds begun).1).1.world
        ≡ (run_threads scripted three_rounds begun).1.world)
    × (joined scripted
          (run_threads scripted both_rounds (run_threads scripted three_rounds begun).1).1
        ≡ true)
unfolding run_threads start step pull_data_round new_state array_8 count_sent send_signal
    new_receiver new_pool
stop-joined_example =
    stop-joined scripted conf gateway sock zero_metrics three_rounds both_rounds refl (tt, (tt, tt))
      refl refl

-- A PUSH_ACK, an event that does not decode and a receive timeout come between the rounds.
abbrev pub unanswered : List (Move plain)
unanswered =
    keepalive_round 5
    ∷ receive_round (some (2 ∷ 0 ∷ 7 ∷ 1 ∷ []))
    ∷ keepalive_round 6
    ∷ events_round (message []) 0 9
    ∷ receive_round none
    ∷ keepalive_round 7
    ∷ []

silent_server-joined_example :
    ((run_threads scripted unanswered begun).1.keepalive ≡ stopped)
    × ((run_threads scripted both_rounds (run_threads scripted unanswered begun).1).0 ≡ ok tt)
    × (joined scripted
          (run_threads scripted both_rounds (run_threads scripted unanswered begun).1).1
        ≡ true)
unfolding run_threads start step pull_data_round new_state array_8 count_sent send_signal
    new_receiver new_pool receive take_signal try_recv handle_datagram push_ack_from_bytes
    handle_read read_event
silent_server-joined_example =
    silent_server-joined scripted conf gateway sock zero_metrics unanswered both_rounds
      (λ e. absurd (omega (arith, e))) (omega arith) refl
      (
        λ e. absurd (omega (arith, e)),
        (refl, (λ e. absurd (omega (arith, e)), (tt, (tt, (λ e. absurd (omega (arith, e)), tt))))),
      )
      (omega arith) refl (tt, (tt, tt)) refl refl

-- Each token is acknowledged before the next round; a PULL_ACK that comes twice is no harm.
abbrev answered : List (Move plain)
answered =
    keepalive_round 5
    ∷ receive_round (some (2 ∷ 0 ∷ 5 ∷ 4 ∷ []))
    ∷ keepalive_round 6
    ∷ receive_round none
    ∷ receive_round (some (2 ∷ 0 ∷ 6 ∷ 4 ∷ []))
    ∷ receive_round (some (2 ∷ 0 ∷ 6 ∷ 4 ∷ []))
    ∷ keepalive_round 7
    ∷ []

answered-running_example :
    ((run_threads scripted answered begun).1.keepalive ≡ counting 0)
    × ((run_threads scripted answered begun).1.receiver ≡ running)
    × ((run_threads scripted answered begun).1.reader ≡ running)
answered-running_example =
    answered-running scripted conf gateway sock zero_metrics answered refl
      (refl, (refl, (refl, tt)))

-- A malformed datagram, a late PUSH_ACK, a PULL_RESP without a payload and the whole stop.
abbrev harmless : List (Move plain)
harmless =
    receive_round (some (9 ∷ 9 ∷ 9 ∷ 9 ∷ 9 ∷ []))
    ∷ receive_round (some (2 ∷ 0 ∷ 7 ∷ 1 ∷ []))
    ∷ receive_round (some (2 ∷ 0 ∷ 7 ∷ 3 ∷ []))
    ∷ (unanswered ++ both_rounds)

run_threads-no_panic_example : (run_threads scripted harmless begun).0 ≡ ok tt
unfolding read_event from_bytes
run_threads-no_panic_example =
    run_threads-no_panic scripted plain-WritesJson conf gateway sock zero_metrics harmless refl
      (inl refl, (inl refl, (inr (_, refl), (inl refl, (tt, (tt, (inl refl, tt)))))))
