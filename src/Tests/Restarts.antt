-- ===== src/Tests/Restarts.antt =====
-- A forwarder that starts over twice.
use chirpstack_udp_forwarder.Reader.{read_event}
use chirpstack_udp_forwarder.Prelude.{◌≡◌, ◌++◌, [], ◌∷◌, refl, some, arith, codes}
use chirpstack_udp_forwarder.Prelude.Outcome.{ok}
use chirpstack_udp_forwarder.Bytes.{array_8}
use chirpstack_udp_forwarder.Metrics.{Metrics}
use chirpstack_udp_forwarder.Signals.{take_signal, try_recv, send_signal, new_receiver, new_pool}
use chirpstack_udp_forwarder.Sockets.{Zmq, event_socket, command_socket}
use chirpstack_udp_forwarder.Structs.Acks.{push_ack_from_bytes}
use chirpstack_udp_forwarder.Forwarder.State.{new_state}
use chirpstack_udp_forwarder.Forwarder.World.{count_sent}
use chirpstack_udp_forwarder.Forwarder.Keepalive.{pull_data_round}
use chirpstack_udp_forwarder.Forwarder.Receive.{receive}
use chirpstack_udp_forwarder.Forwarder.System.{
  start, step, run_threads, handle_datagram, handle_read,
}
use chirpstack_udp_forwarder.Forwarder.System.Restarts.{
  Life, IsSilentLife, restarts, silent_server-restarts,
}
use chirpstack_udp_forwarder.Tests.Instance.{scripted}
use chirpstack_udp_forwarder.Tests.Structs.{gateway}
use chirpstack_udp_forwarder.Tests.System.{conf, sock, zero_metrics, unanswered, both_rounds}

abbrev zmq : Zmq scripted
zmq = record {
  socket = λ t. some sock;
  connect = λ s endpoint. some s;
  set_subscribe = λ s topic. some s;
}

abbrev life : Life scripted
life = record { udp = some tt; zmq = zmq; moves = unanswered ++ both_rounds }

no_panic :
    (m : Metrics scripted)
    → (run_threads scripted unanswered (start scripted conf gateway sock m)).0 ≡ ok tt
unfolding run_threads start step pull_data_round new_state array_8 count_sent send_signal
    new_receiver new_pool receive take_signal try_recv handle_datagram push_ack_from_bytes
    handle_read read_event
no_panic m = refl

life-IsSilentLife : IsSilentLife scripted conf (codes "event") (codes "command") gateway life
unfolding event_socket command_socket
life-IsSilentLife = record {
  sub_sock = sock;
  command_sock = sock;
  bound = refl;
  subscribed = refl;
  connected = refl;
  before = unanswered;
  after = both_rounds;
  in_order = refl;
  silent = (
    (λ e. absurd (omega (arith, e))),
    (refl, (λ e. absurd (omega (arith, e)), (tt, (tt, (λ e. absurd (omega (arith, e)), tt))))),
  );
  enough = omega arith;
  no_panic = no_panic;
  readable = (tt, (tt, tt));
  received = refl;
  read = refl;
}

silent_server-restarts_example :
    (restarts scripted conf
      (codes "event")
      (codes "command")
      gateway
      (life ∷ life ∷ [])
      zero_metrics).0
    ≡ ok 2
silent_server-restarts_example =
    silent_server-restarts scripted conf (codes "event") (codes "command") gateway
      (life ∷ life ∷ []) zero_metrics (λ e. absurd (omega (arith, e))) (omega arith) refl
      (life-IsSilentLife, (life-IsSilentLife, tt))
