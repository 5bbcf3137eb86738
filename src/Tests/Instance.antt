-- ===== src/Tests/Instance.antt =====
-- Stand-ins for what the program calls and does not implement, with the laws that are assumed of it.
use chirpstack_udp_forwarder.Prelude.{
  ℕ, ◌*◌, ◌/◌, ◌+◌, ◌%◌, ◌^◌, ◌≡◌, Bool, true, false, Option, none, some, List, [], ◌∷◌, Bytes,
  codes, length, refl, ◌==◌, if◌then◌else◌, ltb, text_eq, text_eq_refl, text_eq_sound, ◌&&◌, arith,
  Bool-cases, inl, inr,
}
use chirpstack_udp_forwarder.Prelude.Int.{pos, negsuc}
use chirpstack_udp_forwarder.External.{
  External, IsBase64, Json, bool, int, str, obj, end, cut, field,
}
use chirpstack_udp_forwarder.Gw
use chirpstack_udp_forwarder.Runtime.{Runtime, IsReq, IsFamily, UdpLabels}
use chirpstack_udp_forwarder.Structs.TxPk.Laws.{HasDurations}
use chirpstack_udp_forwarder.Forwarder.Events.Laws.{WritesJson}

abbrev pub Number : Type 0
Number = Json ℕ ℕ

abbrev natural : Number → Option ℕ
natural (int (pos n)) = some n
natural _ = none

abbrev boolean : Number → Option Bool
boolean (bool b) = some b
boolean _ = none

-- {"txpk": {"imme": true, "freq": 868, "powe": 14, "modu": "LORA", "datr": "SF7BW125", "data": "A"}}
abbrev pub good_payload : Number
good_payload = obj (
    field (codes "txpk")
      (obj (
        field (codes "imme") (bool true) (
          field (codes "freq") (int (pos 868)) (
            field (codes "powe") (int (pos 14)) (
              field (codes "modu") (str (codes "LORA")) (
                field (codes "datr") (str (codes "SF7BW125"))
                  (field (codes "data") (str (codes "A")) end)))))))
      end)

-- {"txpk": {"datr": -1, where the text ends.
abbrev pub bad_payload : Number
bad_payload = obj (field (codes "txpk") (obj (field (codes "datr") (int (negsuc 0)) cut)) cut)

-- Floats are numbers without a fraction; base64 and hex are the identity. A text that begins with
-- "-" is read as the bad payload, any other as the good one.
abbrev pub plain : External
plain = record {
  F64 = ℕ;
  F32 = ℕ;
  f64_of_u32 = λ n. n;
  f64_div = λ a b. a / b;
  f64_mul = λ a b. a * b;
  u32_of_f64 = λ n. n % 2 ^ 32;
  f32_of_u32 = λ n. n;
  f32_div = λ a b. a / b;
  f32_mul = λ a b. a * b;
  Timestamp = ℕ;
  SystemTime = ℕ;
  DateTime = ℕ;
  to_system_time = λ t. some t;
  to_date_time = λ t. if ltb t 1000 then some t else none;
  format = λ t form.
      if length form == 2
      then codes "1970-01-01T00:00:00+00:00"
      else codes "1970-01-01 00:00:00 UTC";
  to_prost_duration = λ s n. some (pos s, pos n);
  base64_encode = λ b. b;
  base64_decode = λ t. some t;
  hex_encode = λ b. b;
  hex_decode = λ t. some t;
  json_to_vec = λ v. some (codes "{}");
  json_from_slice = λ b. elim b [
    | [] ↦ none
    | c ∷ r ↦ if c == b'-' then some (bad_payload, false) else some (good_payload, true)
  ];
  read_bool = boolean;
  read_u8 = natural;
  read_u32 = natural;
  read_u64 = natural;
  read_f64 = natural;
  alphabetic_beyond_ascii = λ c. false;
}

plain-IsBase64 : IsBase64 plain
plain-IsBase64 = record { decode-encode = λ b. refl }

pub plain-HasDurations : HasDurations plain
plain-HasDurations = record { total = λ s n h k. refl }

pub plain-WritesJson : WritesJson plain
plain-WritesJson = record { total = λ v. (codes "{}", refl) }

-- The command socket: whether a reply is outstanding, and the peer's coming replies; at `none` it
-- stays silent.
abbrev pub Sock : Type 0
Sock = Bool × List (Option Bytes)

abbrev sock_send : Sock → Bytes → Option Sock
sock_send (true, replies) b = none
sock_send (false, replies) b = some (true, replies)

abbrev sock_poll : Sock → Option (Bool × Sock)
sock_poll (awaiting, []) = some (false, (awaiting, []))
sock_poll (awaiting, none ∷ replies) = some (false, (awaiting, replies))
sock_poll (awaiting, some b ∷ replies) = some (true, (awaiting, some b ∷ replies))

abbrev sock_recv : Sock → Option (Bytes × Sock)
sock_recv (true, some b ∷ replies) = some (b, (false, replies))
sock_recv _ = none

abbrev same_labels : UdpLabels → UdpLabels → Bool
same_labels l k = text_eq l.server k.server && text_eq l.ty k.ty

abbrev pub scripted : Runtime plain
scripted = record {
  encode_command = λ c. [];
  decode_tx_ack = λ b. some (record { items = Gw.too_late ∷ [] });
  decode_event = λ b. some Gw.other_event;
  decode_gateway_id = λ b. some b;
  Sock = Sock;
  send = sock_send;
  poll = sock_poll;
  recv = sock_recv;
  Family = UdpLabels → ℕ;
  inc_by = λ f l n k. if same_labels l k then (f k + n) % 2 ^ 64 else f k;
  value = λ f l. f l;
}

pub scripted-IsReq : IsReq scripted
scripted-IsReq = record {
  awaiting = λ (a, _). a;
  send-awaiting = sends;
  send_refused = refuses;
  poll-awaiting = polls;
  recv-awaiting = receives;
}
  where
    sends : (s t : Sock) (b : Bytes) → sock_send s b ≡ some t → t.0 ≡ true
    sends (true, r) t b e = cc
    sends (false, r) t b e = ground arith

    refuses : (s : Sock) (b : Bytes) → s.0 ≡ true → sock_send s b ≡ none
    refuses (true, r) b e = refl
    refuses (false, r) b e = cc

    polls : (s t : Sock) (r : Bool) → sock_poll s ≡ some (r, t) → t.0 ≡ s.0
    polls (a, []) t r e = ground arith
    polls (a, none ∷ rs) t r e = ground arith
    polls (a, some b ∷ rs) t r e = ground arith

    receives : (s t : Sock) (b : Bytes) → sock_recv s ≡ some (b, t) → t.0 ≡ false
    receives (true, some b' ∷ rs) t b e = ground arith
    receives (true, none ∷ rs) t b e = cc
    receives (true, []) t b e = cc
    receives (false, rs) t b e = cc

same_labels_sound : (l k : UdpLabels) → same_labels l k ≡ true → l ≡ k
same_labels_sound l k h = ground (arith, text_eq_sound l.server k.server, text_eq_sound l.ty k.ty)

pub scripted-IsFamily : IsFamily scripted
scripted-IsFamily = record {
  value-inc_by = λ f l n. ground (arith, text_eq_refl l.server, text_eq_refl l.ty);
  value-inc_by_ne = λ f l k n ne. elim (Bool-cases (same_labels l k)) [
    | inl same ↦ absurd (ne (same_labels_sound l k same))
    | inr differ ↦ rw differ
  ];
}
