-- ===== src/Tests/Http.antt =====
-- The metrics server on streams in memory.
use chirpstack_udp_forwarder.Prelude.{
  ℕ, ◌≡◌, ◌⊎◌, ◌++◌, refl, List, [], ◌∷◌, none, some, Bytes, codes, length, take, arith,
  if◌then◌else◌, ap,
}
use chirpstack_udp_forwarder.Prelude.Outcome.{ok, panic}
use chirpstack_udp_forwarder.Metrics.{
  Metrics, sent_count, received_bytes, incr_udp_sent_count, access, incr_udp_received_bytes,
}
use chirpstack_udp_forwarder.Metrics.Registry.{
  Call, call, increment_all, is_called, times, registry_once,
}
use chirpstack_udp_forwarder.Metrics.Server.{Http, IsStream, Metric, handle_request, start}
use chirpstack_udp_forwarder.Metrics.Server.Laws.{
  Exports, Answer, answer_head, handle_request_outcome,
}
use chirpstack_udp_forwarder.Tests.Instance.{scripted}
use chirpstack_udp_forwarder.Tests.Forwarder.{world}

abbrev names : List (Metric scripted) → Bytes
names [] = []
names (m ∷ ms) = m.name ++ names ms

-- The text that was written; it can be read unless it is empty. The families are encoded by names.
abbrev memory : Http scripted
memory = record {
  Stream = Bytes;
  bind = λ address. some (some (b'G' ∷ []) ∷ none ∷ some [] ∷ []);
  read = λ s k. elim s [ [] ↦ none | x ∷ r ↦ some ([], x ∷ r) ];
  write = λ s b. some (length b, s ++ b);
  written = λ s. s;
  encode = λ ms. some (names ms);
}

take-length : (b : Bytes) → b ≡ take (length b) b
take-length [] = refl
take-length (x ∷ b) = ap (λ t. x ∷ t) (take-length b)

memory_writes : (s t b : Bytes) (n : ℕ) → memory.write s b ≡ some (n, t) → t ≡ s ++ take n b
memory_writes s t b n e = ground (arith, take-length b)

memory_reads : (s t : Bytes) (k : ℕ) (b : Bytes) → memory.read s k ≡ some (b, t) → t ≡ s
memory_reads [] t k b e = cc
memory_reads (x ∷ r) t k b e = ground arith

memory-IsStream : IsStream memory
memory-IsStream = record { written-write = memory_writes; written-read = memory_reads }

abbrev metrics : Metrics scripted
metrics = (world []).metrics

abbrev calls : List Call
calls =
    call sent_count (codes "s") (codes "PULL_DATA") 1
    ∷ call received_bytes (codes "s") (codes "PUSH_ACK") 4
    ∷ call sent_count (codes "s") (codes "PULL_DATA") 1
    ∷ []

registry_once_example :
    times sent_count (increment_all scripted calls metrics).registry
    ≡ (if is_called sent_count calls then 1 else 0)
registry_once_example = registry_once scripted sent_count calls metrics refl

abbrev counted : Metrics scripted
counted = increment_all scripted calls metrics

-- A request that can be read.
abbrev request : Bytes
request = b'G' ∷ []

handle_request_outcome_example :
    ((memory.read request 1024 ≡ none) × (handle_request memory counted request ≡ panic))
    ⊎ ((r : Bytes) × (u : Bytes) × (memory.read request 1024 ≡ some (r, u))
        × (t : Bytes) × (handle_request memory counted request ≡ ok t)
        × (ms : List (Metric scripted)) × Exports counted counted.registry ms
        × (bytes : Bytes) × Answer memory ms u t bytes
        × (t ≡ request ++ bytes))
handle_request_outcome_example = handle_request_outcome memory memory-IsStream counted request

-- The two families that were incremented are in the answer.
answers :
    handle_request memory counted request
    ≡ ok (request ++ (answer_head ++ (codes "udp_sent_count" ++ codes "udp_received_bytes")))
unfolding handle_request incr_udp_sent_count access incr_udp_received_bytes
answers = refl

-- A stream that fails.
request_panics : handle_request memory counted [] ≡ panic
unfolding handle_request
request_panics = refl

-- The failed connection is passed over.
accepts_others : start memory (codes "0.0.0.0:9800") ≡ ok ((b'G' ∷ []) ∷ [] ∷ [])
unfolding start
accepts_others = refl
