-- ===== src/Tests/Json.antt =====
-- Stand-ins that write JSON: decimals with six places for the floats, base64, and a JSON printer.
pub mod Reader
use chirpstack_udp_forwarder.Prelude.{
  ℕ, suc, ◌+◌, ◌-◌, ◌*◌, ◌/◌, ◌%◌, ◌^◌, List, [], ◌∷◌, ◌++◌, Option, none, some, true, false, Text,
  Bytes, codes, length, get_elem?, ◌==◌, if◌then◌else◌,
}
use chirpstack_udp_forwarder.Prelude.Int.{ℤ, pos, negsuc}
use chirpstack_udp_forwarder.External.{
  External, Json, null, bool, int, f64, f32, str, arr, obj, Items, nil, cut_items, cons, Fields,
  end, cut, field,
}
use chirpstack_udp_forwarder.Structs.Decimal.{format_u32}
use chirpstack_udp_forwarder.Tests.Instance.{plain}

-- A number of millionths.
abbrev places : ℕ → Text
places r =
    (b'0' + r / 100000)
    ∷ (b'0' + r / 10000 % 10)
    ∷ (b'0' + r / 1000 % 10)
    ∷ (b'0' + r / 100 % 10)
    ∷ (b'0' + r / 10 % 10)
    ∷ (b'0' + r % 10)
    ∷ []

abbrev zero_or : Text → Text
zero_or [] = codes "0"
zero_or (c ∷ s) = c ∷ s

abbrev put : ℕ → Text → Text
put c [] = if c == b'0' then [] else c ∷ []
put c (d ∷ s) = c ∷ d ∷ s

abbrev trim : Text → Text
trim [] = []
trim (c ∷ s) = put c (trim s)

abbrev print_decimal : ℕ → Text
print_decimal m = format_u32 (m / 1000000) ++ (codes "." ++ zero_or (trim (places (m % 1000000))))

abbrev print_int : ℤ → Text
print_int (pos n) = format_u32 n
print_int (negsuc n) = b'-' ∷ format_u32 (n + 1)

-- No character of the texts needs an escape.
abbrev print_str : Text → Text
print_str t = b'"' ∷ (t ++ (b'"' ∷ []))

abbrev mutual
  print : Json ℕ ℕ → Text
  print null = codes "null"
  print (bool true) = codes "true"
  print (bool false) = codes "false"
  print (int n) = print_int n
  print (f64 m) = print_decimal m
  print (f32 m) = print_decimal m
  print (str t) = print_str t
  print (arr xs) = b'[' ∷ print_items xs
  print (obj fs) = b'{' ∷ print_fields fs

  print_items : Items ℕ ℕ → Text
  print_items nil = b']' ∷ []
  print_items cut_items = []
  print_items (cons x cut_items) = print x
  print_items (cons x nil) = print x ++ (b']' ∷ [])
  print_items (cons x (cons y xs)) = print x ++ (b',' ∷ print_items (cons y xs))

  print_fields : Fields ℕ ℕ → Text
  print_fields end = b'}' ∷ []
  print_fields cut = []
  print_fields (field n x cut) = print_str n ++ (b':' ∷ print x)
  print_fields (field n x end) = print_str n ++ (b':' ∷ (print x ++ (b'}' ∷ [])))
  print_fields (field n x (field o y fs)) =
      print_str n ++ (b':' ∷ (print x ++ (b',' ∷ print_fields (field o y fs))))

abbrev alphabet : Text
alphabet = codes "ABCDEFGHIJKLMNOPQRSTUVWXYZabcdefghijklmnopqrstuvwxyz0123456789+/"

abbrev digit : ℕ → ℕ
digit n = elim (get_elem? alphabet n) [ none ↦ b'=' | some c ↦ c ]

abbrev base64 : Bytes → Text
base64 [] = []
base64 (a ∷ []) = digit (a / 4) ∷ digit (a % 4 * 16) ∷ codes "=="
base64 (a ∷ b ∷ []) = digit (a / 4) ∷ digit (a % 4 * 16 + b / 16) ∷ digit (b % 16 * 4) ∷ codes "="
base64 (a ∷ b ∷ c ∷ r) =
    digit (a / 4)
    ∷ digit (a % 4 * 16 + b / 16)
    ∷ digit (b % 16 * 4 + c / 64)
    ∷ digit (c % 64)
    ∷ base64 r

abbrev pub decimal : External
decimal = record plain {
  f64_of_u32 = λ n. n * 1000000;
  f64_div = λ a b. a * 1000000 / b;
  f64_mul = λ a b. a * b / 1000000;
  u32_of_f64 = λ a. a / 1000000 % 2 ^ 32;
  f32_of_u32 = λ n. n * 1000000;
  f32_div = λ a b. a * 1000000 / b;
  f32_mul = λ a b. a * b / 1000000;
  base64_encode = base64;
  json_to_vec = λ v. some (print v);
}
