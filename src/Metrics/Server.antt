-- ===== src/Metrics/Server.antt =====
-- The HTTP server of src/metrics.rs: a request is read and not looked at, and the answer is written
-- in two calls of `write`.
pub mod Laws
use chirpstack_udp_forwarder.Prelude.{
  ℕ, ◌≡◌, ◌≤◌, List, [], ◌∷◌, ◌++◌, Option, none, some, Text, Bytes, codes, length, take, map,
}
use chirpstack_udp_forwarder.Prelude.Outcome.{Outcome, ok, panic, unwrap, ◌>>=◌}
use chirpstack_udp_forwarder.External.{External}
use chirpstack_udp_forwarder.Runtime.{Runtime}
use chirpstack_udp_forwarder.Metrics.{
  Metrics, Family, sent_count, sent_bytes, received_count, received_bytes, name_of, help_of,
}

-- A registered family as prometheus_client's registry holds it.
pub record Metric {X : External} (R : Runtime X) : Type 0 where
  pub name : Text
  pub help : Text
  pub values : R.Family

-- std's TcpListener and TcpStream, and prometheus_client's `encode`; `none` is an `Err`. `read`
-- waits for at most the given number of bytes, and `write` says how many it took. A stream's value
-- holds what its peer will do, and `written` what was written to it. `bind` gives the connections that
-- will come in.
pub record Http {X : External} (R : Runtime X) : Type 1 where
  pub Stream : Type 0
  pub bind : Text → Option (List (Option Stream))
  pub read : Stream → ℕ → Option (Bytes × Stream)
  pub write : Stream → Bytes → Option (ℕ × Stream)
  pub written : Stream → Bytes
  pub encode : List (Metric R) → Option Bytes

-- The documentation of `Write::write` and `Read::read`: a call takes the first bytes, maybe not all
-- of them, and reading writes nothing.
pub record IsStream {X : External} {R : Runtime X} (H : Http R) : Type 0 where
  pub written-write :
      (s t : H.Stream) (b : Bytes) (n : ℕ)
      → H.write s b ≡ some (n, t)
      → H.written t ≡ H.written s ++ take n b
  pub written-read :
      (s t : H.Stream) (k : ℕ) (b : Bytes) → H.read s k ≡ some (b, t) → H.written t ≡ H.written s

unfoldable pub values_of : {X : External} {R : Runtime X} → Metrics R → Family → R.Family
values_of m sent_count = m.udp_sent_count
values_of m sent_bytes = m.udp_sent_bytes
values_of m received_count = m.udp_received_count
values_of m received_bytes = m.udp_received_bytes

-- The registry's clones share the counters of the statics.
unfoldable pub exported : {X : External} {R : Runtime X} → Metrics R → List (Metric R)
unfolding name_of help_of values_of
exported m =
    map (λ f. record { name = name_of f; help = help_of f; values = values_of m f }) m.registry

unfoldable pub header : Bytes
header =
    codes "HTTP/1.1 200 OK"
    ++ (13 ∷ 10 ∷ (codes "Content-Type: text/plain; charset=UTF-8" ++ (13 ∷ 10 ∷ 13 ∷ 10 ∷ [])))

module _ {X : External} {R : Runtime X} (H : Http R) where
  -- `stream.read(&mut buffer).unwrap()`
  unfoldable pub handle_read : H.Stream → Outcome (Unit {0}) H.Stream
  handle_read stream = elim (H.read stream 1024) [ none ↦ panic | some (b, next) ↦ ok next ]

  -- An error of a write or of the encoder is logged, and ends the answer.
  write_body : Metrics R → H.Stream → H.Stream
  unfolding exported
  write_body m stream = elim (H.encode (exported m)) [
    | none ↦ stream
    | some buffer ↦ elim (H.write stream buffer) [ none ↦ stream | some (n, next) ↦ next ]
  ]

  unfoldable pub handle_write : Metrics R → H.Stream → H.Stream
  unfolding write_body header
  handle_write m stream = elim (H.write stream header) [
    | none ↦ stream
    | some (n, next) ↦ write_body m next
  ]

  unfoldable pub handle_request : Metrics R → H.Stream → Outcome (Unit {0}) H.Stream
  unfolding handle_read handle_write
  handle_request m stream = do next ← handle_read stream; ok (handle_write m next)

  -- A connection that fails is logged, and the next one is awaited.
  accepted : List (Option H.Stream) → List H.Stream
  accepted [] = []
  accepted (some stream ∷ incoming) = stream ∷ accepted incoming
  accepted (none ∷ incoming) = accepted incoming

  -- The streams for which a thread runs `handle_request`.
  unfoldable pub start : Text → Outcome (Unit {0}) (List H.Stream)
  unfolding accepted
  start address = do incoming ← unwrap (H.bind address); ok (accepted incoming)
