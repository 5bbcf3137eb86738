-- ===== src/Bytes.antt =====
-- `to_be_bytes` and `from_be_bytes` of u16 and u32, and fixed-size copies of slices.
use chirpstack_udp_forwarder.Prelude.{
  ℕ, ◌+◌, ◌*◌, ◌/◌, ◌%◌, ◌^◌, ◌<◌, ◌≡◌, [], ◌∷◌, Bytes, arith, length, refl, All, ◌⊎◌, inl, inr,
  ◌≢◌,
}
use chirpstack_udp_forwarder.Prelude.Outcome.{Outcome, ok, panic}

abbrev pub to_be_bytes_u16 : ℕ → Bytes
to_be_bytes_u16 n = (n / 256 % 256) ∷ (n % 256) ∷ []

abbrev pub from_be_bytes_u16 : ℕ → ℕ → ℕ
from_be_bytes_u16 a b = a * 256 + b

abbrev pub to_be_bytes_u32 : ℕ → Bytes
to_be_bytes_u32 n = (n / 2 ^ 24 % 256) ∷ (n / 2 ^ 16 % 256) ∷ (n / 256 % 256) ∷ (n % 256) ∷ []

abbrev pub from_be_bytes_u32 : ℕ → ℕ → ℕ → ℕ → ℕ
from_be_bytes_u32 a b c d = ((a * 256 + b) * 256 + c) * 256 + d

-- `bytes.copy_from_slice(s)` into 4 bytes, then `u32::from_be_bytes`: a slice of another length
-- panics.
unfoldable pub u32_of_slice {κ} : {E : Type κ} → Bytes → Outcome E ℕ
u32_of_slice (a ∷ b ∷ c ∷ d ∷ []) = ok (from_be_bytes_u32 a b c d)
u32_of_slice _ = panic

-- `id.copy_from_slice(s)` into 8 bytes.
unfoldable pub array_8 {κ} : {E : Type κ} → Bytes → Outcome E Bytes
array_8 (a ∷ b ∷ c ∷ d ∷ e ∷ f ∷ g ∷ h ∷ []) = ok (a ∷ b ∷ c ∷ d ∷ e ∷ f ∷ g ∷ h ∷ [])
array_8 _ = panic

abbrev pub IsByte : ℕ → Type 0
IsByte b = b < 256

pub array_8_of_length {κ} : {E : Type κ} (b : Bytes) → length b ≡ 8 → array_8 {E = E} b ≡ ok b
unfolding array_8
array_8_of_length (a ∷ b ∷ c ∷ d ∷ e ∷ f ∷ g ∷ h ∷ []) p = refl
array_8_of_length _ p = absurd (omega arith)

pub u32_of_slice_cases {κ} :
    {E : Type κ} (b : Bytes)
    → ((length b ≡ 4)
        × (n : ℕ) × (u32_of_slice {E = E} b ≡ ok n)
        × (All IsByte b → to_be_bytes_u32 n ≡ b))
      ⊎ ((length b ≢ 4) × (u32_of_slice {E = E} b ≡ panic))
unfolding u32_of_slice
u32_of_slice_cases (a ∷ b ∷ c ∷ d ∷ []) =
    inl (refl, from_be_bytes_u32 a b c d, refl, λ h. ground arith)
u32_of_slice_cases _ = inr (omega arith, refl)
