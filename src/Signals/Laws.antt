-- ===== src/Signals/Laws.antt =====
-- What a signal to the whole pool does.
use chirpstack_udp_forwarder.Prelude.{List, [], ◌∷◌, ◌++◌, ◌≡◌, refl, All, map}
use chirpstack_udp_forwarder.Prelude.Outcome.{ok}
use chirpstack_udp_forwarder.Signals.{Signal, Channel, waiting, closed, send, send_all, send_signal}

abbrev pub IsOpen : Channel → Type 0
IsOpen (waiting q) = Unit
IsOpen closed = ⊥

abbrev pub delivered : Signal → Channel → Channel
delivered s (waiting q) = waiting (q ++ (s ∷ []))
delivered s closed = closed

send_all-open :
    (s : Signal) (cs : List Channel) → All IsOpen cs → send_all s cs ≡ ok (map (delivered s) cs)
unfolding send_all send
send_all-open s [] h = refl
send_all-open s (waiting q ∷ cs) h = rw (send_all-open s cs h.1) refl
send_all-open s (closed ∷ cs) h = absurd h.0

-- A signal to a pool whose receivers are all there reaches each of them.
pub send_signal-open :
    (s : Signal) (cs : List Channel)
    → All IsOpen cs
    → send_signal (record { senders = cs }) s ≡ ok (record { senders = map (delivered s) cs })
unfolding send_signal
send_signal-open s cs h = rw (send_all-open s cs h) refl
