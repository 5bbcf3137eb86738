-- ===== src/Tests/Json/Reader.antt =====
-- A JSON reader for the texts of the unit tests: objects, strings without escapes, `true`, `false`
-- and numbers that are not negative; and readers of base64 and hex.
use chirpstack_udp_forwarder.Prelude.{
  ℕ, zero, suc, ◌+◌, ◌-◌, ◌*◌, ◌/◌, ◌%◌, [], ◌∷◌, Option, none, some, Bool, true, false, Text,
  Bytes, ◌==◌, leb, ◌&&◌, ◌||◌, if◌then◌else◌, drop,
}
use chirpstack_udp_forwarder.Prelude.Options.{◌>>=◌}
use chirpstack_udp_forwarder.Prelude.Int.{pos}
use chirpstack_udp_forwarder.External.{External, Json, bool, int, f64, str, obj, Fields, end, field}
use chirpstack_udp_forwarder.Tests.Json.{decimal}

abbrev is_space : ℕ → Bool
is_space c = c == b' ' || c == b'\n'

abbrev skip : Text → Text
skip [] = []
skip (c ∷ s) = let rest = skip s in if is_space c then rest else c ∷ s

abbrev is_digit : ℕ → Bool
is_digit c = leb b'0' c && leb c b'9'

-- Up to the next quotation mark.
abbrev read_text : Text → Option (Text × Text)
read_text [] = none
read_text (c ∷ s) =
    let rest = read_text s in
    if c == b'"' then some ([], s) else elim rest [ none ↦ none | some (t, r) ↦ some (c ∷ t, r) ]

abbrev read_digits : ℕ → Text → ℕ × Text
read_digits n [] = (n, [])
read_digits n (c ∷ s) =
    let rest = read_digits (n * 10 + (c - b'0')) s in if is_digit c then rest else (n, c ∷ s)

-- The places behind the point, the first one worth `scale` millionths.
abbrev read_places : ℕ → Text → ℕ × Text
read_places scale [] = (0, [])
read_places scale (c ∷ s) =
    let (n, r) = read_places (scale / 10) s in
    if is_digit c then ((c - b'0') * scale + n, r) else (0, c ∷ s)

abbrev after_digits : ℕ × Text → Json ℕ ℕ × Text
after_digits (n, []) = (int (pos n), [])
after_digits (n, c ∷ s) =
    let (p, r) = read_places 100000 s in
    if c == b'.' then (f64 (n * 1000000 + p), r) else (int (pos n), c ∷ s)

-- What a value begins with.
pub data Start : Type 0 where
  quote brace t_or_f number : Start

abbrev start_of : ℕ → Start
start_of c =
    if c == b'"' then quote else if c == b'{' then brace else if is_digit c then number else t_or_f

abbrev expect : ℕ → Text → Option Text
expect c [] = none
expect c (d ∷ s) = if c == d then some s else none

-- The fuel bounds how deep objects are and how many members they have.
abbrev mutual
  read_value : ℕ → Text → Option (Json ℕ ℕ × Text)
  read_value zero s = none
  read_value (suc f) [] = none
  read_value (suc f) (c ∷ s) = read_start f (start_of c) c s

  read_start : ℕ → Start → ℕ → Text → Option (Json ℕ ℕ × Text)
  read_start zero start c s = none
  read_start (suc f) quote c s = do (t, r) ← read_text s; some (str t, r)
  read_start (suc f) brace c s = do (fs, r) ← read_object f (skip s); some (obj fs, r)
  read_start (suc f) number c s = some (after_digits (read_digits 0 (c ∷ s)))
  read_start (suc f) t_or_f c s =
      if c == b't' then some (bool true, drop 3 s) else some (bool false, drop 4 s)

  read_object : ℕ → Text → Option (Fields ℕ ℕ × Text)
  read_object zero s = none
  read_object (suc f) s = do
    s1 ← expect b'"' s
    (name, s2) ← read_text s1
    s3 ← expect b':' (skip s2)
    (v, s4) ← read_value f (skip s3)
    read_more f name v (skip s4)

  read_more : ℕ → Text → Json ℕ ℕ → Text → Option (Fields ℕ ℕ × Text)
  read_more zero name v s = none
  read_more (suc f) name v [] = none
  read_more (suc f) name v (c ∷ s) = elim (c == b',') [
    | true ↦ (do (fs, r) ← read_object f (skip s); some (field name v fs, r))
    | false ↦ some (field name v end, s)
  ]

abbrev is_empty : Text → Bool
is_empty [] = true
is_empty (c ∷ s) = false

-- A text that goes wrong within a value is not read at all.
abbrev read_json : Text → Option (Json ℕ ℕ × Bool)
read_json s = do (v, r) ← read_value 100 (skip s); some (v, is_empty (skip r))

abbrev six_bits : ℕ → ℕ
six_bits c =
    if leb b'A' c && leb c b'Z'
    then c - b'A'
    else if leb b'a' c && leb c b'z'
    then c - b'a' + 26
    else if is_digit c
    then c - b'0' + 52
    else if c == b'+'
    then 62
    else 63

abbrev pub base64_bytes : Text → Bytes
base64_bytes (a ∷ b ∷ c ∷ d ∷ s) =
    let first = six_bits a * 4 + six_bits b / 16 in
    let second = six_bits b % 16 * 16 + six_bits c / 4 in
    let third = six_bits c % 4 * 64 + six_bits d in
    if c == b'='
    then first ∷ []
    else if d == b'='
    then first ∷ second ∷ []
    else first ∷ second ∷ third ∷ base64_bytes s
base64_bytes _ = []

abbrev hex_digit : ℕ → ℕ
hex_digit n = if leb n 9 then b'0' + n else b'a' + (n - 10)

abbrev hex : Bytes → Text
hex [] = []
hex (b ∷ r) = hex_digit (b / 16) ∷ hex_digit (b % 16) ∷ hex r

abbrev float : Json ℕ ℕ → Option ℕ
float (int (pos n)) = some (n * 1000000)
float (f64 m) = some m
float _ = none

abbrev pub reading : External
reading = record decimal {
  json_from_slice = read_json;
  read_f64 = float;
  base64_decode = λ t. some (base64_bytes t);
  hex_encode = hex;
}
