-- ===== src/Signals.antt =====
-- src/signals.rs: a stop signal to every receiver of a pool. A channel is the list of signals that
-- wait in it; `mpsc::channel` delivers in order and never loses a signal while its receiver lives.
pub mod Laws
use chirpstack_udp_forwarder.Prelude.{ℕ, zero, suc, List, [], ◌∷◌, ◌++◌, Option, none, some}
use chirpstack_udp_forwarder.Prelude.Outcome.{Outcome, ok, panic, ◌>>=◌}

pub data Signal : Type 0 where
  stop : Signal

-- The receiving end: the waiting signals, or `closed` once the receiver has been dropped.
pub data Channel : Type 0 where
  waiting : List Signal → Channel
  closed : Channel

-- The channels of `senders`, oldest first.
pub record SignalPool : Type 0 where
  pub senders : List Channel

unfoldable pub new_pool : SignalPool
new_pool = record { senders = [] }

-- The receiver is the last channel of the new pool.
unfoldable pub new_receiver : SignalPool → SignalPool
new_receiver p = record { senders = p.senders ++ (waiting [] ∷ []) }

-- `s.send(signal).unwrap()`: an error if the receiver is gone.
unfoldable pub send : Signal → Channel → Outcome (Unit {0}) Channel
send s (waiting q) = ok (waiting (q ++ (s ∷ [])))
send s closed = panic

send_all : Signal → List Channel → Outcome (Unit {0}) (List Channel)
unfolding send
send_all s [] = ok []
send_all s (c ∷ cs) = do c' ← send s c; cs' ← send_all s cs; ok (c' ∷ cs')

unfoldable pub send_signal : SignalPool → Signal → Outcome (Unit {0}) SignalPool
unfolding send_all
send_signal p s = do cs ← send_all s p.senders; ok (record { senders = cs })

-- `stop_receive.recv_timeout(0).is_ok()`: takes the first signal that waits.
unfoldable pub try_recv : Channel → Option Signal × Channel
try_recv (waiting []) = (none, waiting [])
try_recv (waiting (s ∷ q)) = (some s, waiting q)
try_recv closed = (none, closed)

-- The receiver number `i` looks for a signal.
unfoldable pub take_signal : ℕ → List Channel → Option Signal × List Channel
take_signal i [] = (none, [])
take_signal zero (c ∷ cs) = ((try_recv c).0, (try_recv c).1 ∷ cs)
take_signal (suc i) (c ∷ cs) = let (s, rest) = take_signal i cs in (s, c ∷ rest)

-- Its thread returns, and so drops it.
unfoldable pub drop_receiver : ℕ → List Channel → List Channel
drop_receiver i [] = []
drop_receiver zero (c ∷ cs) = closed ∷ cs
drop_receiver (suc i) (c ∷ cs) = c ∷ drop_receiver i cs
