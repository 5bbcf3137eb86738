-- ===== src/Metrics/Registry.antt =====
-- Which families the registry holds.
use mathlib.Core.Path.{subst}
use chirpstack_udp_forwarder.Prelude.{
  ℕ, ◌+◌, ◌≡◌, refl, sym, ◌∙◌, ap, ◌≤◌, Text, Bool, true, false, List, [], ◌∷◌, ◌++◌, ◌||◌,
  if◌then◌else◌, arith, Bool-cases, inl, inr,
}
use chirpstack_udp_forwarder.External.{External}
use chirpstack_udp_forwarder.Runtime.{Runtime}
use chirpstack_udp_forwarder.Metrics.{
  Family, sent_count, sent_bytes, received_count, received_bytes, same, is_registered, access,
  Metrics, incr_udp_sent_count, incr_udp_sent_bytes, incr_udp_received_count,
  incr_udp_received_bytes,
}

-- A call of one of the four functions, with its labels and its count.
pub data Call : Type 0 where
  call : Family → Text → Text → ℕ → Call

module _ {X : External} (R : Runtime X) where
  abbrev pub increment : Call → Metrics R → Metrics R
  increment (call sent_count server typ n) m = incr_udp_sent_count R server typ m
  increment (call sent_bytes server typ n) m = incr_udp_sent_bytes R server typ n m
  increment (call received_count server typ n) m = incr_udp_received_count R server typ m
  increment (call received_bytes server typ n) m = incr_udp_received_bytes R server typ n m

  abbrev pub increment_all : List Call → Metrics R → Metrics R
  increment_all [] m = m
  increment_all (c ∷ cs) m = increment_all cs (increment c m)

abbrev pub family : Call → Family
family (call f server typ n) = f

abbrev pub is_called : Family → List Call → Bool
is_called f [] = false
is_called f (c ∷ cs) = same f (family c) || is_called f cs

-- How often the registry holds a family.
abbrev pub times : Family → List Family → ℕ
times f [] = 0
times f (g ∷ gs) = (if same f g then 1 else 0) + times f gs

times-append : (f : Family) (gs hs : List Family) → times f (gs ++ hs) ≡ times f gs + times f hs
times-append f [] hs = omega arith
times-append f (g ∷ gs) hs = omega (arith, times-append f gs hs)

times_of_not_registered :
    (f : Family) (gs : List Family) → is_registered f gs ≡ false → times f gs ≡ 0
times_of_not_registered f [] h = refl
times_of_not_registered f (g ∷ gs) h = ground (arith, times_of_not_registered f gs)

same_sound : (f g : Family) → same f g ≡ true → f ≡ g
same_sound f g h = ground arith

-- The registry after some calls, against those made before.
abbrev bit : Bool → ℕ
bit true = 1
bit false = 0

or_none : (b : Bool) → b ≡ b || false
or_none true = refl
or_none false = refl

or_swap : (a b c : Bool) → (a || b) || c ≡ b || (a || c)
or_swap true true c = refl
or_swap true false c = refl
or_swap false b c = refl

bit_if : (b : Bool) → bit b ≡ (if b then 1 else 0)
bit_if true = refl
bit_if false = refl

times_of_registered : (f : Family) (gs : List Family) → is_registered f gs ≡ true → 1 ≤ times f gs
times_of_registered f [] h = cc
times_of_registered f (g ∷ gs) h = ground (arith, times_of_registered f gs)

bit_of_positive : (b : Bool) → 1 ≤ bit b → bit b ≡ 1
bit_of_positive true h = refl
bit_of_positive false h = absurd (omega arith)

times-access :
    (f g : Family) (gs : List Family) (before : Bool)
    → times f gs ≡ bit before
    → times f (access g gs) ≡ bit (same f g || before)
unfolding access
times-access f g gs before h = elim (Bool-cases (is_registered g gs)) [
  | inl r ↦ elim (Bool-cases (same f g)) [
    | inl e ↦
        let r' =
          times_of_registered f gs
            (subst (λ k. is_registered k gs ≡ true) (sym (same_sound f g e)) r) in
        let one = bit_of_positive before (subst (λ n. 1 ≤ n) h r') in rw (r, e) (h ∙ one)
    | inr e ↦ rw (r, e) h
  ]
  | inr r ↦ elim (Bool-cases (same f g)) [
    | inl e ↦
        let r' =
          times_of_not_registered f gs
            (subst (λ k. is_registered k gs ≡ false) (sym (same_sound f g e)) r) in
        rw (r, times-append f gs (g ∷ []), e) (omega (arith, r'))
    | inr e ↦ rw (r, times-append f gs (g ∷ []), e) (omega (arith, h))
  ]
]

module _ {X : External} (R : Runtime X) where
  registry-increment :
      (c : Call) (m : Metrics R) → (increment R c m).registry ≡ access (family c) m.registry
  unfolding incr_udp_sent_count incr_udp_sent_bytes incr_udp_received_count incr_udp_received_bytes
  registry-increment (call sent_count server typ n) m = refl
  registry-increment (call sent_bytes server typ n) m = refl
  registry-increment (call received_count server typ n) m = refl
  registry-increment (call received_bytes server typ n) m = refl

  times-increment_all :
      (f : Family) (cs : List Call) (m : Metrics R) (before : Bool)
      → times f m.registry ≡ bit before
      → times f (increment_all R cs m).registry ≡ bit (before || is_called f cs)
  times-increment_all f [] m before h = h ∙ ap bit (or_none before)
  times-increment_all f (c ∷ cs) m before h =
      times-increment_all f cs (increment R c m) (same f (family c) || before)
        (rw (registry-increment c m) (times-access f (family c) m.registry before h))
      ∙ ap bit (or_swap (same f (family c)) before (is_called f cs))

  -- Whatever calls are made from an empty registry on, it holds each family exactly once if one of
  -- them increments it, and not at all if none does: no family is exported before its first use, and
  -- none is registered twice.
  pub registry_once :
      (f : Family) (cs : List Call) (m : Metrics R)
      → m.registry ≡ []
      → times f (increment_all R cs m).registry ≡ (if is_called f cs then 1 else 0)
  registry_once f cs m e = times-increment_all f cs m false (rw e refl) ∙ bit_if (is_called f cs)
