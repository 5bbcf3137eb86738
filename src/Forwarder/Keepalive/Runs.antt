-- ===== src/Forwarder/Keepalive/Runs.antt =====
-- Runs of consecutive missed keepalives, and the counter that finds them.
use chirpstack_udp_forwarder.Prelude.{
  ℕ, zero, suc, ◌+◌, ◌≤◌, ◌≡◌, ◌↔◌, ◌⊎◌, inl, inr, Bool, true, false, List, [], ◌∷◌, Option, none,
  some, arith, ltb, if◌then◌else◌,
}

-- `n` true flags at the head of the list.
abbrev pub StartsRun : ℕ → List Bool → Type 0
StartsRun zero l = Unit
StartsRun (suc n) [] = ⊥
StartsRun (suc n) (true ∷ l) = StartsRun n l
StartsRun (suc n) (false ∷ l) = ⊥

-- `n` consecutive true flags somewhere in the list.
abbrev pub HasRun : ℕ → List Bool → Type 0
HasRun n [] = StartsRun n []
HasRun n (x ∷ l) = StartsRun n (x ∷ l) ⊎ HasRun n l

-- The count over the flags of the rounds, with the limit `max`.
unfoldable pub count : ℕ → ℕ → List Bool → Option ℕ
count max m [] = some m
count max m (true ∷ l) = let rest = count max (m + 1) l in if ltb max (m + 1) then none else rest
count max m (false ∷ l) = count max 0 l

StartsRun-mono : (n k : ℕ) (l : List Bool) → k ≤ n → StartsRun n l → StartsRun k l
StartsRun-mono n zero l h s = tt
StartsRun-mono zero (suc k) l h s = absurd (omega arith)
StartsRun-mono (suc n) (suc k) [] h s = s
StartsRun-mono (suc n) (suc k) (true ∷ l) h s = StartsRun-mono n k l (omega arith) s
StartsRun-mono (suc n) (suc k) (false ∷ l) h s = s

pub StartsRun-HasRun : (n : ℕ) (l : List Bool) → StartsRun n l → HasRun n l
StartsRun-HasRun n [] s = s
StartsRun-HasRun n (x ∷ l) s = inl s

pub ltb-zero : (n : ℕ) → ltb n 0 ≡ false
ltb-zero n = ground arith

-- With `m` misses counted, `d` more are allowed.
pub count_iff :
    (max m d : ℕ) (l : List Bool)
    → m + d ≡ max
    → (count max m l ≡ none) ↔ (StartsRun (suc d) l ⊎ HasRun (suc max) l)
unfolding count
count_iff max m d [] h = (λ e. cc, λ s. elim s [ inl x ↦ absurd x | inr x ↦ absurd x ])
count_iff max m zero (true ∷ l) h = (λ e. inl tt, λ s. ground arith)
count_iff max m (suc d) (true ∷ l) h =
    let ih = count_iff max (m + 1) d l (omega arith) in
    (
      λ e. elim (ih.0 (ground arith)) [ inl s ↦ inl s | inr r ↦ inr (inr r) ],
      λ s. ground (arith, ih.1 (weaker s)),
    )
  where
    weaker :
        StartsRun (suc d) l ⊎ (StartsRun max l ⊎ HasRun (suc max) l)
        → StartsRun (suc d) l ⊎ HasRun (suc max) l
    weaker (inl s) = inl s
    weaker (inr (inl s)) = inl (StartsRun-mono max (suc d) l (omega arith) s)
    weaker (inr (inr r)) = inr r
count_iff max m d (false ∷ l) h =
    let ih = count_iff max 0 max l (omega arith) in
    (
      λ e. elim (ih.0 e) [
        | inl s ↦ inr (inr (StartsRun-HasRun (suc max) l s))
        | inr r ↦ inr (inr r)
      ],
      λ s. ih.1 (inr (later s)),
    )
  where
    later : ⊥ ⊎ (⊥ ⊎ HasRun (suc max) l) → HasRun (suc max) l
    later (inl x) = absurd x
    later (inr (inl x)) = absurd x
    later (inr (inr r)) = r
