-- ===== src/Structs/Decimal.antt =====
-- Rust's `format!("{}", n)` and `str::parse::<u32>`, and `str::split` by a predicate, which the data
-- rate of src/structs.rs uses.
pub mod RoundTrip
use chirpstack_udp_forwarder.Prelude.{
  ℕ, zero, suc, ◌+◌, ◌-◌, ◌*◌, ◌/◌, ◌%◌, ◌^◌, List, [], ◌∷◌, Option, none, some, Text, ltb, leb,
  ◌==◌, Bool, ◌&&◌, if◌then◌else◌, ◌≡◌, refl, codes,
}

-- The fuel bounds the number of digits; `n + 1` is always enough.
emit : ℕ → ℕ → Text → Text
emit zero n out = out
emit (suc f) n out =
    let rest = emit f (n / 10) ((b'0' + n % 10) ∷ out) in
    if ltb n 10 then (b'0' + n) ∷ out else rest

unfoldable pub format_u32 : ℕ → Text
unfolding emit
format_u32 n = emit (n + 1) n []

abbrev pub is_digit : ℕ → Bool
is_digit c = leb b'0' c && leb c b'9'

scan : Text → ℕ → Option ℕ
scan [] n = some n
scan (c ∷ s) n =
    let n' = n * 10 + (c - b'0') in
    let rest = scan s n' in if is_digit c && ltb n' (2 ^ 32) then rest else none

-- A leading `+` is allowed; the empty text, a sign alone and a value from 2 ^ 32 on are errors.
unfoldable pub parse_u32 : Text → Option ℕ
unfolding scan
parse_u32 [] = none
parse_u32 (c ∷ []) = if is_digit c then some (c - b'0') else none
parse_u32 (c ∷ d ∷ s) = if c == b'+' then scan (d ∷ s) 0 else scan (c ∷ d ∷ s) 0

abbrev push_head : ℕ → List Text → List Text
push_head c [] = (c ∷ []) ∷ []
push_head c (piece ∷ pieces) = (c ∷ piece) ∷ pieces

-- `s.split(p)`: one piece more than `s` has characters that satisfy `p`.
unfoldable pub split : (ℕ → Bool) → Text → List Text
split p [] = [] ∷ []
split p (c ∷ s) = let rest = split p s in if p c then [] ∷ rest else push_head c rest

format_u32_runs : format_u32 4294967295 ≡ codes "4294967295"
unfolding format_u32
format_u32_runs = refl

parse_u32_runs : parse_u32 (codes "+4294967295") ≡ some 4294967295
unfolding parse_u32
parse_u32_runs = refl

parse_u32_overflows : parse_u32 (codes "4294967296") ≡ none
unfolding parse_u32
parse_u32_overflows = refl
