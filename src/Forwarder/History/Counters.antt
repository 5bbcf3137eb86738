-- ===== src/Forwarder/History/Counters.antt =====
-- The specification of the forwarder's upstream counters: what each kind of step does to them.
use chirpstack_udp_forwarder.Prelude.{ℕ, List, [], ◌∷◌, ◌==◌, if◌then◌else◌}
use chirpstack_udp_forwarder.Forwarder.State.{State, incr_u32}

-- The expected token, the datagrams sent and acknowledged since the last report, and the frames
-- forwarded since then.
pub record Counters : Type 0 where
  pub token : ℕ
  pub sent : ℕ
  pub acked : ℕ
  pub rxfw : ℕ

abbrev pub counters : State → Counters
counters s = record {
  token = s.push_data_token;
  sent = s.push_data_sent;
  acked = s.push_data_acked;
  rxfw = s.rxfw;
}

-- A frame forwarded or a report sent, with its token; a PUSH_ACK with this token; or neither.
pub data Change : Type 0 where
  forwarded : ℕ → Change
  reported : ℕ → Change
  acked_by : ℕ → Change
  nothing : Change

abbrev pub apply : Change → Counters → Counters
apply (forwarded t) c = record c { token = t; sent = incr_u32 c.sent; rxfw = incr_u32 c.rxfw }
apply (reported t) c = record { token = t; sent = 1; acked = 0; rxfw = 0 }
apply (acked_by t) c = if t == c.token then record c { acked = incr_u32 c.acked } else c
apply nothing c = c

abbrev pub apply_all : List Change → Counters → Counters
apply_all [] c = c
apply_all (x ∷ xs) c = apply_all xs (apply x c)
