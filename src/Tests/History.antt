-- ===== src/Tests/History.antt =====
-- Histories of the forwarder at concrete inputs.
use chirpstack_udp_forwarder.Prelude.{◌≡◌, ◌≤◌, List, [], ◌∷◌, arith, refl}
use chirpstack_udp_forwarder.Bytes.{u32_of_slice, array_8}
use chirpstack_udp_forwarder.Structs.RxPk
use chirpstack_udp_forwarder.Structs.Packets.{push_data_to_bytes}
use chirpstack_udp_forwarder.Structs.Acks.{push_ack_from_bytes}
use chirpstack_udp_forwarder.Forwarder.World.{World, count_sent}
use chirpstack_udp_forwarder.Forwarder.Events.{events_up, passes}
use chirpstack_udp_forwarder.Forwarder.Receive.{receive}
use chirpstack_udp_forwarder.Forwarder.History.{Input, up, datagram, handle, run}
use chirpstack_udp_forwarder.Forwarder.History.Counters.{counters, apply_all}
use chirpstack_udp_forwarder.Forwarder.History.Refinement.{changes, counters-run}
use chirpstack_udp_forwarder.Forwarder.History.Ledger.{acked_le_sent-run}
use chirpstack_udp_forwarder.Tests.Instance.{plain, scripted, plain-WritesJson}
use chirpstack_udp_forwarder.Tests.Structs.{uplink}
use chirpstack_udp_forwarder.Tests.Forwarder.{start, world}

abbrev fresh : World scripted
fresh = record (world []) { state = record start { push_data_sent = 0 } }

-- A frame is forwarded with the token 55, its PUSH_ACK comes, and one more with another token.
abbrev inputs : List (Input plain)
inputs =
    up 0 55 (uplink (1 ∷ 2 ∷ 3 ∷ 4 ∷ []))
    ∷ datagram (2 ∷ 0 ∷ 55 ∷ 1 ∷ [])
    ∷ datagram (2 ∷ 0 ∷ 54 ∷ 1 ∷ [])
    ∷ []

counters-run_example :
    counters (run scripted inputs fresh).1.state
    ≡ apply_all (changes scripted inputs fresh) (counters fresh.state)
counters-run_example = counters-run scripted plain-WritesJson inputs fresh refl

acked_le_sent-run_example :
    (run scripted inputs fresh).1.state.push_data_acked
    ≤ (run scripted inputs fresh).1.state.push_data_sent
unfolding handle events_up passes receive RxPk.from_proto u32_of_slice array_8 push_data_to_bytes
    count_sent push_ack_from_bytes
acked_le_sent-run_example =
    acked_le_sent-run scripted plain-WritesJson inputs fresh refl refl refl (omega arith) refl
