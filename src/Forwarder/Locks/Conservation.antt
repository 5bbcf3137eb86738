-- ===== src/Forwarder/Locks/Conservation.antt =====
-- No count is lost or doubled between the locks: what the threads count ends up in one report.
use chirpstack_udp_forwarder.Prelude.{
  ℕ, suc, ◌+◌, ◌≤◌, ◌<◌, ◌^◌, ◌≡◌, List, [], ◌∷◌, ◌++◌, ◌==◌, if◌then◌else◌, arith,
}
use chirpstack_udp_forwarder.Forwarder.State.{State}
use chirpstack_udp_forwarder.Forwarder.Locks.{
  Report, EventsPc, waiting, stats_sent, stats_acked, stats_token, stats_send, Locked, EventsStep,
  draw_up, send_up, count_rxfw, count_up, take_rxfw, take_sent, take_acked, draw_stats, send_stats,
  count_stats, ReceiverStep, heard, compared, Step, events_step, receiver_step, Run, here, next,
  quiet,
}

-- Three numbers: of forwarded frames, of datagrams sent, and of those acknowledged.
abbrev pub sum : List Report → Report
sum [] = record { rxfw = 0; sent = 0; acked = 0 }
sum (r ∷ rs) = record {
  rxfw = r.rxfw + (sum rs).rxfw;
  sent = r.sent + (sum rs).sent;
  acked = r.acked + (sum rs).acked;
}

-- What a step counts.
abbrev counted_by_events : {s t : Locked} → EventsStep s t → Report
counted_by_events (count_rxfw e) = record { rxfw = 1; sent = 0; acked = 0 }
counted_by_events (count_up e) = record { rxfw = 0; sent = 1; acked = 0 }
counted_by_events (count_stats e) = record { rxfw = 0; sent = 1; acked = 0 }
counted_by_events _ = record { rxfw = 0; sent = 0; acked = 0 }

abbrev counted_by_receiver : {s t : Locked} → ReceiverStep s t → Report
counted_by_receiver (compared token expected e) = record {
  rxfw = 0;
  sent = 0;
  acked = if token == expected then 1 else 0;
}
counted_by_receiver (heard token e once) = record { rxfw = 0; sent = 0; acked = 0 }

abbrev counted_by : {s t : Locked} → Step s t → Report
counted_by (events_step e) = counted_by_events e
counted_by (receiver_step r) = counted_by_receiver r

abbrev pub counted : {s t : Locked} {n : ℕ} → Run s n t → List Report
counted here = []
counted (next r st) = counted_by st ∷ counted r

-- What the events thread holds between the locks.
abbrev held : EventsPc → Report
held (stats_sent rxfw) = record { rxfw = rxfw; sent = 0; acked = 0 }
held (stats_acked rxfw sent) = record { rxfw = rxfw; sent = sent; acked = 0 }
held (stats_token r) = r
held (stats_send r) = r
held _ = record { rxfw = 0; sent = 0; acked = 0 }

sum-append :
    (rs : List Report) (r : Report)
    → ((sum (rs ++ (r ∷ []))).rxfw ≡ (sum rs).rxfw + r.rxfw)
      × ((sum (rs ++ (r ∷ []))).sent ≡ (sum rs).sent + r.sent)
      × ((sum (rs ++ (r ∷ []))).acked ≡ (sum rs).acked + r.acked)
sum-append [] r = (omega arith, omega arith, omega arith)
sum-append (x ∷ rs) r =
    let (a, b, c) = sum-append rs r in (omega (arith, a), omega (arith, b), omega (arith, c))

-- After `n` steps that counted `c`.
record Balanced (n : ℕ) (c : Report) (s : Locked) : Type 0 where
  rxfw_small : s.state.rxfw ≤ n
  sent_small : s.state.push_data_sent ≤ n
  acked_small : s.state.push_data_acked ≤ n
  rxfw_kept : (sum s.reports).rxfw + (held s.events).rxfw + s.state.rxfw ≡ c.rxfw
  sent_kept : (sum s.reports).sent + (held s.events).sent + s.state.push_data_sent ≡ c.sent
  acked_kept : (sum s.reports).acked + (held s.events).acked + s.state.push_data_acked ≡ c.acked

abbrev plus : Report → Report → Report
plus a b = record { rxfw = a.rxfw + b.rxfw; sent = a.sent + b.sent; acked = a.acked + b.acked }

EventsStep-Balanced :
    {n : ℕ} {c : Report} {s t : Locked} (e : EventsStep s t)
    → suc n < 2 ^ 32
    → Balanced n c s
    → Balanced (suc n) (plus (counted_by_events e) c) t
EventsStep-Balanced (draw_up random e) b h = ground arith
EventsStep-Balanced (send_up e) b h = ground arith
EventsStep-Balanced (count_rxfw e) b h = ground arith
EventsStep-Balanced (count_up e) b h = ground arith
EventsStep-Balanced (take_rxfw e) b h = ground arith
EventsStep-Balanced (take_sent rxfw e) b h = ground arith
EventsStep-Balanced (take_acked rxfw sent e) b h = ground arith
EventsStep-Balanced (draw_stats random r e) b h = ground arith
EventsStep-Balanced {n} {c} {s} (send_stats r e) b h = ground (arith, sum-append s.reports r)
EventsStep-Balanced (count_stats e) b h = ground arith

ReceiverStep-Balanced :
    {n : ℕ} {c : Report} {s t : Locked} (e : ReceiverStep s t)
    → suc n < 2 ^ 32
    → Balanced n c s
    → Balanced (suc n) (plus (counted_by_receiver e) c) t
ReceiverStep-Balanced (heard token e once) b h = ground arith
ReceiverStep-Balanced (compared token expected e) b h = ground arith

Run-Balanced :
    {s : Locked} {n : ℕ} {t : Locked} (r : Run s n t)
    → n < 2 ^ 32
    → Balanced 0 (sum []) s
    → Balanced n (sum (counted r)) t
Run-Balanced here b h = h
Run-Balanced (next r (events_step e)) b h = EventsStep-Balanced e b (Run-Balanced r (omega arith) h)
Run-Balanced (next r (receiver_step e)) b h =
    ReceiverStep-Balanced e b (Run-Balanced r (omega arith) h)

quiet-Balanced :
    (s : State)
    → s.rxfw ≡ 0
    → s.push_data_sent ≡ 0
    → s.push_data_acked ≡ 0
    → Balanced 0 (sum []) (quiet s)
quiet-Balanced s e f g = ground arith

at_rest-kept :
    (n : ℕ) (c : Report) (t : Locked)
    → t.events ≡ waiting
    → Balanced n c t
    → ((sum t.reports).rxfw + t.state.rxfw ≡ c.rxfw)
      × ((sum t.reports).sent + t.state.push_data_sent ≡ c.sent)
      × ((sum t.reports).acked + t.state.push_data_acked ≡ c.acked)
at_rest-kept n c t e h = ground arith

-- Every count reaches exactly one report. In every run of fewer than 2^32 steps from counts of 0, in
-- which no PUSH_ACK answers a datagram twice, however the threads' steps at the locks are ordered:
-- where the events thread is at its loop's head, the frames forwarded, the datagrams sent and those
-- found acknowledged in the steps of the run are those that the reports say in total, and those that
-- the state still counts.
pub reports-sum :
    (n : ℕ) (state : State) (t : Locked) (r : Run (quiet state) n t)
    → state.rxfw ≡ 0
    → state.push_data_sent ≡ 0
    → state.push_data_acked ≡ 0
    → n < 2 ^ 32
    → t.events ≡ waiting
    → ((sum t.reports).rxfw + t.state.rxfw ≡ (sum (counted r)).rxfw)
      × ((sum t.reports).sent + t.state.push_data_sent ≡ (sum (counted r)).sent)
      × ((sum t.reports).acked + t.state.push_data_acked ≡ (sum (counted r)).acked)
reports-sum n state t r e f g b w =
    at_rest-kept n (sum (counted r)) t w (Run-Balanced r b (quiet-Balanced state e f g))
