-- ===== src/Tests/Locking.antt =====
-- Three threads at their locks.
use chirpstack_udp_forwarder.Prelude.{◌≢◌, List, [], ◌∷◌, true, false}
use chirpstack_udp_forwarder.Locking.{
  event_sock, pull_data_token, mutex, exclusive, initialized, uninitialized, Holder, LockRun, begun,
  then_step, acquires,
}
use chirpstack_udp_forwarder.Locking.Threads.{
  Role, events_thread, keepalive_thread, request_thread, uplink_frame, sending, role_locks,
}
use chirpstack_udp_forwarder.Locking.Progress.{at_begin, GoesOn, no_deadlock}

abbrev roles : List Role
roles =
    events_thread 0 (uplink_frame (uninitialized true) initialized ∷ [])
    ∷ keepalive_thread 0 (sending true initialized initialized ∷ [])
    ∷ request_thread false
    ∷ []

differ : mutex 0 pull_data_token ≢ mutex 0 event_sock
differ e = cc

-- The events thread has its socket and the keepalive thread its token.
abbrev reached : (ts : List Holder) × LockRun (at_begin roles) ts
unfolding role_locks
reached = (
  _,
  then_step (then_step begun (acquires [] _ _ exclusive (mutex 0 event_sock) _ (tt, (tt, tt))))
      (acquires (_ ∷ []) _ _ exclusive (mutex 0 pull_data_token) _ ((differ, tt), (tt, tt))),
)

no_deadlock_example : GoesOn reached.0
no_deadlock_example = no_deadlock roles reached.0 reached.1
