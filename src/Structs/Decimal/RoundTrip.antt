-- ===== src/Structs/Decimal/RoundTrip.antt =====
-- A number that is printed and parsed comes back, and a printed number holds no separator.
use chirpstack_udp_forwarder.Prelude.{
  ℕ, zero, suc, ◌+◌, ◌/◌, ◌%◌, ◌^◌, ◌≤◌, ◌<◌, [], ◌∷◌, ◌++◌, some, Text, ltb, Bool, true, false,
  ◌≡◌, refl, ◌∙◌, arith, All, Bool-cases, inl, inr,
}
use chirpstack_udp_forwarder.Structs.Decimal.{emit, scan, format_u32, parse_u32, split}

abbrev pub IsDigit : ℕ → Type 0
IsDigit c = (b'0' ≤ c) × (c ≤ b'9')

emit-IsDigit : (f n : ℕ) (out : Text) → n < f → All IsDigit out → All IsDigit (emit f n out)
unfolding emit
emit-IsDigit zero n out h d = absurd (omega arith)
emit-IsDigit (suc f) n out h d = ground (arith, emit-IsDigit f (n / 10) ((b'0' + n % 10) ∷ out))

scan-emit : (f n : ℕ) (out : Text) → n < f → n < 2 ^ 32 → scan (emit f n out) 0 ≡ scan out n
unfolding emit scan
scan-emit zero n out h w = absurd (omega arith)
scan-emit (suc f) n out h w = ground (arith, scan-emit f (n / 10) ((b'0' + n % 10) ∷ out))

-- The digits are at least one, and the first is no sign.
emit-cons : (f n : ℕ) (out : Text) → n < f → (c : ℕ) × (s : Text) × (emit f n out ≡ c ∷ s)
unfolding emit
emit-cons zero n out h = absurd (omega arith)
emit-cons (suc f) n out h = elim (Bool-cases (ltb n 10)) [
  | inl small ↦ (b'0' + n, out, rw small)
  | inr large ↦
      let (c, s, e) = emit-cons f (n / 10) ((b'0' + n % 10) ∷ out) (ground arith) in
      (c, s, rw large e)
]

parse_u32-eq-scan : (s : Text) (c : ℕ) (r : Text) → s ≡ c ∷ r → IsDigit c → parse_u32 s ≡ scan s 0
unfolding parse_u32 scan
parse_u32-eq-scan [] c r e d = cc
parse_u32-eq-scan (c' ∷ []) c r e d = ground arith
parse_u32-eq-scan (c' ∷ d' ∷ s) c r e d = ground arith

-- Every u32 is read back from its decimal print.
pub parse_u32-format_u32 : (n : ℕ) → n < 2 ^ 32 → parse_u32 (format_u32 n) ≡ some n
unfolding format_u32 scan
parse_u32-format_u32 n w =
    let (c, s, e) = emit-cons (n + 1) n [] (omega arith) in
    let digits : All IsDigit (c ∷ s) = rw e at (emit-IsDigit (n + 1) n [] (omega arith) tt) in
    parse_u32-eq-scan _ c s e digits.0 ∙ scan-emit (n + 1) n [] (omega arith) w

pub format_u32-IsDigit : (n : ℕ) → All IsDigit (format_u32 n)
unfolding format_u32
format_u32-IsDigit n = emit-IsDigit (n + 1) n [] (omega arith) tt

module _ (p : ℕ → Bool) (none_digit : (c : ℕ) → IsDigit c → p c ≡ false) where
  -- Digits up to a separator are the first piece.
  pub split-digits :
      (d : Text) (c : ℕ) (s : Text)
      → All IsDigit d
      → p c ≡ true
      → split p (d ++ c ∷ s) ≡ d ∷ split p s
  unfolding split
  split-digits [] c s h e = rw e
  split-digits (x ∷ d) c s h e = rw (split-digits d c s h.1 e, none_digit x h.0) (refl)

  -- Digits alone are one piece.
  pub split-digits_end : (d : Text) → All IsDigit d → split p d ≡ d ∷ []
  unfolding split
  split-digits_end [] h = refl
  split-digits_end (x ∷ d) h = rw (split-digits_end d h.1, none_digit x h.0) (refl)
