-- ===== src/Locking/Order.antt =====
-- An order of the locks: every thread takes them upwards.
use chirpstack_udp_forwarder.Prelude.{
  ℕ, ◌<◌, ◌≤◌, ◌≡◌, refl, sym, ap, arith, List, [], ◌∷◌, ◌++◌, map, Bool, true, false, All,
}
use mathlib.Core.Path.{subst}
use chirpstack_udp_forwarder.Metrics.{
  Family, sent_count, sent_bytes, received_count, received_bytes,
}
use chirpstack_udp_forwarder.Locking.{
  Mutex, event_sock, command_sock, push_data_token, push_data_acked, pull_data_token,
  pull_data_token_acked, Lock, mutex, zmq_context_init, zmq_context, family_init, registry_init,
  registry, Mode, exclusive, shared, Action, acquire, release, locked, init_locks, register_locks,
  Init, initialized, uninitialized, family_locks, sent_locks, received_locks, get_socket_locks,
}
use chirpstack_udp_forwarder.Locking.Threads.{
  Downlink, unparsed, refused, acknowledged, ReceiveRound, nothing_received, push_ack, pull_resp,
  pull_ack, unknown, EventsRound, nothing_to_do, uplink_frame, gateway_stats, KeepaliveRound,
  giving_up, sending, if_so, concat, method, handle_pull_resp_locks, receive_locks, events_locks,
  keepalive_locks, Role, main_thread, start_thread, receive_thread, events_thread, keepalive_thread,
  request_thread, start_locks, role_locks,
}

abbrev pub rank : Lock → ℕ
rank (mutex n event_sock) = 0
rank (mutex n command_sock) = 1
rank (mutex n m) = 2
rank zmq_context_init = 3
rank zmq_context = 4
rank (family_init f) = 5
rank registry_init = 6
rank registry = 7

abbrev pub Above : List (Mode × Lock) → Lock → Type 0
Above held l = All (λ (m, k). rank k < rank l) held

-- What is left of a thread takes locks above those that it holds, releases the last one taken, and
-- ends with none.
abbrev pub Fits : List (Mode × Lock) → List Action → Type 0
Fits held [] = held ≡ []
Fits held (acquire m l ∷ rest) = Above held l × Fits ((m, l) ∷ held) rest
Fits [] (release l ∷ rest) = ⊥
Fits ((m, k) ∷ held) (release l ∷ rest) = (k ≡ l) × Fits held rest

-- Actions that leave the locks held as they were.
abbrev Balanced : List (Mode × Lock) → List Action → Type 0
Balanced held p = (rest : List Action) → Fits held rest → Fits held (p ++ rest)

append_assoc : (p q r : List Action) → (p ++ q) ++ r ≡ p ++ (q ++ r)
append_assoc [] q r = refl
append_assoc (x ∷ p) q r = ap (λ t. x ∷ t) (append_assoc p q r)

module _ (held : List (Mode × Lock)) where
  nil-Balanced : Balanced held []
  nil-Balanced rest f = f

  append-Balanced : (p q : List Action) → Balanced held p → Balanced held q → Balanced held (p ++ q)
  append-Balanced p q f g rest h =
      subst (Fits held) (sym (append_assoc p q rest)) (f (q ++ rest) (g rest h))

  locked-Balanced :
      (m : Mode) (l : Lock) (body : List Action)
      → Above held l
      → Balanced ((m, l) ∷ held) body
      → Balanced held (locked m l body)
  locked-Balanced m l body a b rest h = (
    a,
    subst (Fits ((m, l) ∷ held)) (sym (append_assoc body (release l ∷ []) rest))
        (b (release l ∷ rest) (refl, h)),
  )

  if_so-Balanced : (b : Bool) (p : List Action) → Balanced held p → Balanced held (if_so b p)
  if_so-Balanced true p f = f
  if_so-Balanced false p f = nil-Balanced

  each-Balanced :
      {A : Type 0} (p : A → List Action) (xs : List A)
      → ((x : A) → Balanced held (p x))
      → Balanced held (concat (map p xs))
  each-Balanced p [] f = nil-Balanced
  each-Balanced p (x ∷ xs) f =
      append-Balanced (p x) (concat (map p xs)) (f x) (each-Balanced p xs f)

-- All locks that are held are below a rank.
abbrev pub Below : ℕ → List (Mode × Lock) → Type 0
Below r held = All (λ (m, k). rank k < r) held

Below-mono : (r q : ℕ) (held : List (Mode × Lock)) → r ≤ q → Below r held → Below q held
Below-mono r q [] o b = tt
Below-mono r q ((m, k) ∷ held) o (h, b) = (omega arith, Below-mono r q held o b)

module _ (held : List (Mode × Lock)) where
  init-Balanced : (lazy : Bool) (l : Lock) → Above held l → Balanced held (init_locks lazy l [])
  init-Balanced true l a = locked-Balanced held exclusive l [] a (nil-Balanced _)
  init-Balanced false l a = nil-Balanced held

  register-Balanced : (lazy : Bool) → Below 6 held → Balanced held (register_locks lazy)
  register-Balanced lazy b =
      append-Balanced held (init_locks lazy registry_init []) (locked exclusive registry [])
        (init-Balanced lazy registry_init b)
        (locked-Balanced held exclusive registry [] (Below-mono 6 7 held (omega arith) b)
          (nil-Balanced _))

module _ (held : List (Mode × Lock)) where
  family-Balanced : (f : Family) (i : Init) → Below 5 held → Balanced held (family_locks f i)
  family-Balanced f initialized b = nil-Balanced held
  family-Balanced f (uninitialized lazy) b =
      locked-Balanced held exclusive (family_init f) (register_locks lazy) b
        (register-Balanced _ lazy (omega arith, Below-mono 5 6 held (omega arith) b))

  sent-Balanced : (i j : Init) → Below 5 held → Balanced held (sent_locks i j)
  sent-Balanced i j b =
      append-Balanced held (family_locks sent_count i) (family_locks sent_bytes j)
        (family-Balanced sent_count i b) (family-Balanced sent_bytes j b)

  received-Balanced : (i j : Init) → Below 5 held → Balanced held (received_locks i j)
  received-Balanced i j b =
      append-Balanced held (family_locks received_count i) (family_locks received_bytes j)
        (family-Balanced received_count i b) (family-Balanced received_bytes j b)

  method-Balanced : (n : ℕ) (m : Mutex) → Above held (mutex n m) → Balanced held (method n m)
  method-Balanced n m a = locked-Balanced held exclusive (mutex n m) [] a (nil-Balanced _)

get_socket-Balanced : (lazy : Bool) → Balanced [] (get_socket_locks lazy)
get_socket-Balanced lazy =
    append-Balanced [] (init_locks lazy zmq_context_init []) (locked exclusive zmq_context [])
      (init-Balanced [] lazy zmq_context_init tt)
      (locked-Balanced [] exclusive zmq_context [] tt (nil-Balanced _))

module _ (n : ℕ) where
  pull_resp-Balanced : (d : Downlink) → Balanced [] (handle_pull_resp_locks n d)
  pull_resp-Balanced unparsed = nil-Balanced []
  pull_resp-Balanced refused =
      locked-Balanced [] exclusive (mutex n command_sock) [] tt (nil-Balanced _)
  pull_resp-Balanced (acknowledged i j) =
      locked-Balanced [] exclusive (mutex n command_sock) (sent_locks i j) tt
        (sent-Balanced _ i j (omega arith, tt))

  method_then : (m : Mutex) (p : List Action) → Balanced [] p → Balanced [] (method n m ++ p)
  method_then m p f = append-Balanced [] (method n m) p (method-Balanced [] n m tt) f

  receive-Balanced : (r : ReceiveRound) → Balanced [] (receive_locks n r)
  receive-Balanced nothing_received = nil-Balanced []
  receive-Balanced (push_ack i j parsed matches) =
      let acked = if_so matches (method n push_data_acked) in
      append-Balanced [] (received_locks i j) (if_so parsed (method n push_data_token ++ acked))
        (received-Balanced [] i j tt)
        (if_so-Balanced [] parsed (method n push_data_token ++ acked) (
          method_then push_data_token acked (
            if_so-Balanced [] matches (method n push_data_acked)
              (method-Balanced [] n push_data_acked tt))))
  receive-Balanced (pull_resp i j d) =
      append-Balanced [] (received_locks i j) (handle_pull_resp_locks n d)
        (received-Balanced [] i j tt) (pull_resp-Balanced d)
  receive-Balanced (pull_ack i j parsed) =
      let acked = method n pull_data_token_acked in
      append-Balanced [] (received_locks i j) (if_so parsed (method n pull_data_token ++ acked))
        (received-Balanced [] i j tt)
        (if_so-Balanced [] parsed (method n pull_data_token ++ acked)
          (method_then pull_data_token acked (method-Balanced [] n pull_data_token_acked tt)))
  receive-Balanced (unknown i j) = received-Balanced [] i j tt

  keepalive-Balanced : (r : KeepaliveRound) → Balanced [] (keepalive_locks n r)
  keepalive-Balanced giving_up rest f = (tt, (refl, (tt, (refl, (tt, (refl, f))))))
  keepalive-Balanced (sending true i j) rest f =
      (tt, (refl, (tt, (refl, (tt, (refl, (tt, (refl, sent-Balanced [] i j tt rest f))))))))
  keepalive-Balanced (sending false i j) rest f =
      (tt, (refl, (tt, (refl, (tt, (refl, sent-Balanced [] i j tt rest f))))))

  -- Below the guard of the event socket.
  abbrev under_event_sock : List (Mode × Lock)
  under_event_sock = (exclusive, mutex n event_sock) ∷ []

  events-Balanced : (r : EventsRound) → Balanced under_event_sock (events_locks n r)
  events-Balanced nothing_to_do rest f = f
  events-Balanced (uplink_frame i j) rest f =
      let up : Below 2 under_event_sock = (omega arith, tt) in
      let sent = sent-Balanced under_event_sock i j (omega arith, tt) rest f in
      (up, (refl, (up, (refl, (up, (refl, sent))))))
  events-Balanced (gateway_stats i j) rest f =
      let up : Below 2 under_event_sock = (omega arith, tt) in
      let sent = sent-Balanced under_event_sock i j (omega arith, tt) rest f in
      (up, (refl, (up, (refl, (up, (refl, (up, (refl, (up, (refl, sent))))))))))

append_nil : (p : List Action) → p ++ [] ≡ p
append_nil [] = refl
append_nil (x ∷ p) = ap (λ t. x ∷ t) (append_nil p)

role-Balanced : (r : Role) → Balanced [] (role_locks r)
unfolding role_locks
role-Balanced (main_thread lazy) = get_socket-Balanced lazy
role-Balanced (start_thread lives) = each-Balanced [] start_locks lives (λ (a, b).
    append-Balanced [] (get_socket_locks a) (get_socket_locks b) (get_socket-Balanced a)
      (get_socket-Balanced b))
role-Balanced (receive_thread n rounds) =
    each-Balanced [] (receive_locks n) rounds (receive-Balanced n)
role-Balanced (events_thread n rounds) =
    locked-Balanced [] exclusive (mutex n event_sock) (concat (map (events_locks n) rounds)) tt
      (each-Balanced (under_event_sock n) (events_locks n) rounds (events-Balanced n))
role-Balanced (keepalive_thread n rounds) =
    each-Balanced [] (keepalive_locks n) rounds (keepalive-Balanced n)
role-Balanced (request_thread lazy) =
    append-Balanced [] (init_locks lazy registry_init []) (locked shared registry [])
      (init-Balanced [] lazy registry_init tt)
      (locked-Balanced [] shared registry [] tt (nil-Balanced _))

pub role-Fits : (r : Role) → Fits [] (role_locks r)
role-Fits r = subst (Fits []) (append_nil (role_locks r)) (role-Balanced r [] refl)
