-- ===== src/Tests/Metrics.antt =====
-- The metrics at a concrete world.
use chirpstack_udp_forwarder.Prelude.{◌+◌, ◌%◌, ◌^◌, ◌≡◌, ◌≢◌, [], ◌∷◌}
use chirpstack_udp_forwarder.Runtime.{UdpLabels}
use chirpstack_udp_forwarder.Metrics.{labels}
use chirpstack_udp_forwarder.Forwarder.Receive.{receive}
use chirpstack_udp_forwarder.Forwarder.Receive.Laws.{type_of}
use chirpstack_udp_forwarder.Forwarder.Receive.Counts.{receive_counts}
use chirpstack_udp_forwarder.Tests.Instance.{scripted, scripted-IsFamily}
use chirpstack_udp_forwarder.Tests.Forwarder.{start, world}

-- The PUSH_ACK counts under its type, and no other label changes.
receive_counts_example :
    (scripted.value
        (receive scripted (2 ∷ 0 ∷ 123 ∷ 1 ∷ []) (world [])).1.metrics.udp_received_count
        (labels start.server (type_of 1))
      ≡ (0 + 1) % 2 ^ 64)
    × (scripted.value
          (receive scripted (2 ∷ 0 ∷ 123 ∷ 1 ∷ []) (world [])).1.metrics.udp_received_bytes
          (labels start.server (type_of 1))
        ≡ (0 + 4) % 2 ^ 64)
    × ((k : UdpLabels)
        → labels start.server (type_of 1) ≢ k
        → (scripted.value
              (receive scripted (2 ∷ 0 ∷ 123 ∷ 1 ∷ []) (world [])).1.metrics.udp_received_count
              k
            ≡ 0)
          × (scripted.value
                (receive scripted (2 ∷ 0 ∷ 123 ∷ 1 ∷ []) (world [])).1.metrics.udp_received_bytes
                k
              ≡ 0))
receive_counts_example = receive_counts scripted scripted-IsFamily 2 0 123 1 [] (world [])
