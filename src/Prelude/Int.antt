-- ===== src/Prelude/Int.antt =====
-- Signed integers over the native numbers, under the library's names, and Rust's casts of them.
use Prim.Native.Nat.{ℕ, zero, suc, ◌-◌, ◌%◌, ◌^◌}

-- `negsuc n` is -(n + 1).
pub data ℤ : Type 0 where
  pos : ℕ → ℤ
  negsuc : ℕ → ℤ

abbrev pub neg : ℕ → ℤ
neg zero = pos 0
neg (suc k) = negsuc k

-- The value modulo 2 ^ w: a cast of a signed integer to an unsigned one of w bits.
abbrev pub wrap : ℕ → ℤ → ℕ
wrap w (pos n) = n % 2 ^ w
wrap w (negsuc n) = 2 ^ w - 1 - n % 2 ^ w
