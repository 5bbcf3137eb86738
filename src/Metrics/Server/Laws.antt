-- ===== src/Metrics/Server/Laws.antt =====
-- What a client of the metrics server gets.
use mathlib.Core.List.{append_assoc, append-nil}
use chirpstack_udp_forwarder.Prelude.{
  ℕ, ◌≡◌, ◌⊎◌, refl, sym, ap, ◌∙◌, List, [], ◌∷◌, ◌++◌, none, some, Bytes, codes, take,
  Option-cases, inl, inr,
}
use chirpstack_udp_forwarder.Prelude.Outcome.{ok, panic}
use chirpstack_udp_forwarder.External.{External}
use chirpstack_udp_forwarder.Runtime.{Runtime}
use chirpstack_udp_forwarder.Metrics.{
  Metrics, Family, sent_count, sent_bytes, received_count, received_bytes, name_of, help_of,
}
use chirpstack_udp_forwarder.Metrics.Server.{
  Http, Metric, IsStream, values_of, exported, header, handle_request, handle_read, handle_write,
  write_body,
}

-- A line of HTTP.
abbrev line : Bytes → Bytes
line s = s ++ (13 ∷ 10 ∷ [])

-- The status line, one field and the empty line.
abbrev pub answer_head : Bytes
answer_head =
    line (codes "HTTP/1.1 200 OK")
    ++ (line (codes "Content-Type: text/plain; charset=UTF-8") ++ line [])

header-answer_head : header ≡ answer_head
unfolding header
header-answer_head = refl

module _ {X : External} {R : Runtime X} (m : Metrics R) where
  -- What stands for a family in what is exported: its name, its help and its counters.
  abbrev pub Stands : Family → Metric R → Type 0
  Stands sent_count e =
      (e.name ≡ codes "udp_sent_count")
      × (e.help ≡ codes "Number of UDP datagrams sent")
      × (e.values ≡ m.udp_sent_count)
  Stands sent_bytes e =
      (e.name ≡ codes "udp_sent_bytes")
      × (e.help ≡ codes "Number of bytes sent over UDP")
      × (e.values ≡ m.udp_sent_bytes)
  Stands received_count e =
      (e.name ≡ codes "udp_received_count")
      × (e.help ≡ codes "Number of UDP datagrams received")
      × (e.values ≡ m.udp_received_count)
  Stands received_bytes e =
      (e.name ≡ codes "udp_received_bytes")
      × (e.help ≡ codes "Number of bytes received over UDP")
      × (e.values ≡ m.udp_received_bytes)

  -- One metric for each of the families, in order.
  abbrev pub Exports : List Family → List (Metric R) → Type 0
  Exports [] [] = Unit
  Exports (f ∷ fs) (e ∷ es) = Stands f e × Exports fs es
  Exports _ _ = ⊥

  metric-Stands :
      (f : Family)
      → Stands f (record { name = name_of f; help = help_of f; values = values_of m f })
  unfolding name_of help_of values_of
  metric-Stands sent_count = (refl, refl, refl)
  metric-Stands sent_bytes = (refl, refl, refl)
  metric-Stands received_count = (refl, refl, refl)
  metric-Stands received_bytes = (refl, refl, refl)

  registry-Exports : (fs : List Family) → Exports fs (exported (record m { registry = fs }))
  unfolding exported
  registry-Exports [] = tt
  registry-Exports (f ∷ fs) = (metric-Stands f, registry-Exports fs)

  exported-Exports : Exports m.registry (exported m)
  exported-Exports = registry-Exports m.registry

module _ {X : External} {R : Runtime X} (H : Http R) where
  -- How the two writes go, with the stream that they leave and the bytes that the client is sent.
  pub data Answer (ms : List (Metric R)) (s : H.Stream) : H.Stream → Bytes → Type 0 where
    head_refused : H.write s answer_head ≡ none → Answer ms s s []
    not_encoded :
        (n : ℕ) (u : H.Stream)
        → H.write s answer_head ≡ some (n, u)
        → H.encode ms ≡ none
        → Answer ms s u (take n answer_head)
    body_refused :
        (n : ℕ) (u : H.Stream) (body : Bytes)
        → H.write s answer_head ≡ some (n, u)
        → H.encode ms ≡ some body
        → H.write u body ≡ none
        → Answer ms s u (take n answer_head)
    body_written :
        (n k : ℕ) (u t : H.Stream) (body : Bytes)
        → H.write s answer_head ≡ some (n, u)
        → H.encode ms ≡ some body
        → H.write u body ≡ some (k, t)
        → Answer ms s t (take n answer_head ++ take k body)

  handle_write-Answer :
      (m : Metrics R) (s : H.Stream)
      → (bytes : Bytes) × Answer (exported m) s (handle_write H m s) bytes
  unfolding handle_write
  handle_write-Answer m s = elim (Option-cases (H.write s answer_head)) [
    | inl e ↦ ([], rw (handle_write, header-answer_head, e) (head_refused e))
    | inr ((n, u), e) ↦ elim (Option-cases (H.encode (exported m))) [
      | inl f ↦ (
        take n answer_head,
        rw (handle_write, header-answer_head, e) (rw (write_body, f) (not_encoded n u e f)),
      )
      | inr (body, f) ↦ elim (Option-cases (H.write u body)) [
        | inl g ↦ (
          take n answer_head,
          rw (handle_write, header-answer_head, e)
              (rw (write_body, f) (rw g (body_refused n u body e f g))),
        )
        | inr ((k, t), g) ↦ (
          take n answer_head ++ take k body,
          rw (handle_write, header-answer_head, e)
              (rw (write_body, f) (rw g (body_written n k u t body e f g))),
        )
      ]
    ]
  ]

module _ {X : External} {R : Runtime X} (H : Http R) (law : IsStream H) where
  -- The bytes of an answer are what the stream has more.
  stream_grows :
      (ms : List (Metric R)) (s t : H.Stream) (bytes : Bytes)
      → Answer H ms s t bytes
      → H.written t ≡ H.written s ++ bytes
  stream_grows ms s _ _ (head_refused e) = sym (append-nil (H.written s))
  stream_grows ms s _ _ (not_encoded n u e f) = law.written-write s u answer_head n e
  stream_grows ms s _ _ (body_refused n u body e f g) = law.written-write s u answer_head n e
  stream_grows ms s _ _ (body_written n k u t body e f g) =
      law.written-write u t body k g
      ∙ (ap (λ b. b ++ take k body) (law.written-write s u answer_head n e)
          ∙ append_assoc (H.written s) (take n answer_head) (take k body))

  -- A request panics exactly if reading it fails. Otherwise the client is sent exactly those first
  -- bytes of the head of the answer that its write takes, and then, unless that write or the encoder
  -- fails, those first bytes that the second write takes of the text that the encoder makes of one
  -- metric for each registered family, in order, with its name, its help and its counters. A write
  -- takes first bytes, and reading writes nothing.
  pub handle_request_outcome :
      (m : Metrics R) (s : H.Stream)
      → ((H.read s 1024 ≡ none) × (handle_request H m s ≡ panic))
        ⊎ ((request : Bytes) × (u : H.Stream) × (H.read s 1024 ≡ some (request, u))
            × (t : H.Stream) × (handle_request H m s ≡ ok t)
            × (ms : List (Metric R)) × Exports m m.registry ms
            × (bytes : Bytes) × Answer H ms u t bytes
            × (H.written t ≡ H.written s ++ bytes))
  unfolding handle_request handle_read
  handle_request_outcome m s = elim (Option-cases (H.read s 1024)) [
    | inl e ↦ inl (e, rw (handle_request, handle_read, e) refl)
    | inr ((request, u), e) ↦
        let (bytes, a) = handle_write-Answer H m u in
        inr (
          request,
          u,
          e,
          handle_write H m u,
          rw (handle_request, handle_read, e) refl,
          exported m,
          exported-Exports m,
          bytes,
          a,
          stream_grows (exported m) u (handle_write H m u) bytes a
              ∙ ap (λ b. b ++ bytes) (law.written-read s u 1024 request e),
        )
  ]
