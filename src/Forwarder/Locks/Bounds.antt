-- ===== src/Forwarder/Locks/Bounds.antt =====
-- How far the counts of a report can be off, whatever the order of the threads' steps.
use chirpstack_udp_forwarder.Prelude.{
  ℕ, suc, ◌+◌, ◌≤◌, ◌<◌, ◌^◌, ◌≡◌, List, [], ◌∷◌, ◌++◌, Bool, true, false, All, ◌==◌, arith,
}
use chirpstack_udp_forwarder.Forwarder.State.{State}
use chirpstack_udp_forwarder.Forwarder.Locks.{
  Report, EventsPc, up_rxfw, up_sent, stats_acked, stats_token, stats_send, stats_count, ReceiverPc,
  listening, comparing, Locked, EventsStep, draw_up, send_up, count_rxfw, count_up, take_rxfw,
  take_sent, take_acked, draw_stats, send_stats, count_stats, ReceiverStep, heard, compared, Step,
  events_step, receiver_step, Run, here, next, quiet,
}

abbrev one_if : Bool → ℕ
one_if true = 1
one_if false = 0

-- An acknowledgement that was matched and is not counted yet.
abbrev matched : ReceiverPc → ℕ
matched listening = 0
matched (comparing token expected) = one_if (token == expected)

-- The datagrams against which the acknowledgements count: those sent since the last report, or,
-- once a report has taken their number, that number.
abbrev basis : EventsPc → ℕ → ℕ
basis (stats_acked rxfw sent) n = sent
basis up_rxfw n = n + 1
basis up_sent n = n + 1
basis stats_count n = n + 1
basis _ n = n

abbrev pub IsClose : Report → Type 0
IsClose r = r.acked ≤ r.sent + 2

abbrev CarriesClose : EventsPc → Type 0
CarriesClose (stats_token r) = IsClose r
CarriesClose (stats_send r) = IsClose r
CarriesClose _ = Unit

-- After `n` steps.
record Inv (n : ℕ) (s : Locked) : Type 0 where
  sent_small : s.state.push_data_sent ≤ n
  acked_small : s.state.push_data_acked ≤ n
  balance :
      s.state.push_data_acked + matched s.receiver + one_if s.unanswered
      ≤ basis s.events s.state.push_data_sent + 2
  carried : CarriesClose s.events
  reported : All IsClose s.reports

All-snoc {ℓ κ} :
    {A : Type ℓ} (P : A → Type κ) (xs : List A) (x : A) → All P xs → P x → All P (xs ++ (x ∷ []))
All-snoc P [] x h p = (p, tt)
All-snoc P (y ∷ xs) x h p = (h.0, All-snoc P xs x h.1 p)

EventsStep-Inv : {n : ℕ} {s t : Locked} → EventsStep s t → suc n < 2 ^ 32 → Inv n s → Inv (suc n) t
EventsStep-Inv (draw_up random e) b h = ground arith
EventsStep-Inv (send_up e) b h = ground arith
EventsStep-Inv (count_rxfw e) b h = ground arith
EventsStep-Inv (count_up e) b h = ground arith
EventsStep-Inv (take_rxfw e) b h = ground arith
EventsStep-Inv (take_sent rxfw e) b h = ground arith
EventsStep-Inv (take_acked rxfw sent e) b h = ground arith
EventsStep-Inv (draw_stats random r e) b h = ground arith
EventsStep-Inv {n} {s} (send_stats r e) b h = ground (arith, All-snoc IsClose s.reports r)
EventsStep-Inv (count_stats e) b h = ground arith

ReceiverStep-Inv :
    {n : ℕ} {s t : Locked} → ReceiverStep s t → suc n < 2 ^ 32 → Inv n s → Inv (suc n) t
ReceiverStep-Inv (heard token e once) b h = ground arith
ReceiverStep-Inv (compared token expected e) b h = ground arith

Step-Inv : {n : ℕ} {s t : Locked} → Step s t → suc n < 2 ^ 32 → Inv n s → Inv (suc n) t
Step-Inv (events_step e) b h = EventsStep-Inv e b h
Step-Inv (receiver_step r) b h = ReceiverStep-Inv r b h

quiet-Inv : (s : State) → s.push_data_sent ≡ 0 → s.push_data_acked ≡ 0 → Inv 0 (quiet s)
quiet-Inv s e f = ground arith

Run-Inv : {s : Locked} {n : ℕ} {t : Locked} → Run s n t → n < 2 ^ 32 → Inv 0 s → Inv n t
Run-Inv here b h = h
Run-Inv (next r st) b h = Step-Inv st b (Run-Inv r (omega arith) h)

-- In every run of fewer than 2^32 steps from counts of 0, in which no PUSH_ACK answers a datagram
-- twice, however the threads' steps at the locks are ordered: each report that is sent says at most
-- two more acknowledged datagrams than sent ones.
pub reports-IsClose :
    (n : ℕ) (state : State) (t : Locked)
    → Run (quiet state) n t
    → state.push_data_sent ≡ 0
    → state.push_data_acked ≡ 0
    → n < 2 ^ 32
    → All IsClose t.reports
reports-IsClose n state t r e f b = (Run-Inv r b (quiet-Inv state e f)).reported
