-- ===== src/Prelude/Outcome.antt =====
-- How a Rust call ends: with a value, with an `Err` that the caller sees, or with a panic, which
-- stops the whole process (Cargo.toml, profile.release: panic = "abort").
use mathlib.Core.Path.{◌≡◌, refl}
use mathlib.Core.Logic.{◌≢◌}
use mathlib.Core.Option.{Option, none, some}

pub data Outcome {ℓ κ} (E : Type κ) (A : Type ℓ) : Type (ℓ ⊔ κ) where
  ok : A → Outcome E A
  err : E → Outcome E A
  panic : Outcome E A

module _ {κ} {E : Type κ} where
  infixl 5 ◌>>=◌ ◌>>◌
  abbrev pub ◌>>=◌ {ℓ ι} : {A : Type ℓ} {B : Type ι} → Outcome E A → (A → Outcome E B) → Outcome E B
  ok a >>= f = f a
  err e >>= f = err e
  panic >>= f = panic

  abbrev pub ◌>>◌ {ℓ} : {B : Type ℓ} → Outcome E (Unit {0}) → Outcome E B → Outcome E B
  m >> k = m >>= λ _. k

  -- `unwrap` and `expect` of an Option
  abbrev pub unwrap {ℓ} : {A : Type ℓ} → Option A → Outcome E A
  unwrap none = panic
  unwrap (some a) = ok a

  -- `match o { Some(v) => v, None => return Err(e) }`
  abbrev pub or_fail {ℓ} : {A : Type ℓ} → Option A → E → Outcome E A
  or_fail none e = err e
  or_fail (some a) e = ok a

  -- the outcome of one call with its error put into another type
  abbrev pub map_err {ℓ ι} : {F : Type ι} {A : Type ℓ} → (F → E) → Outcome F A → Outcome E A
  map_err f (ok a) = ok a
  map_err f (err e) = err (f e)
  map_err f panic = panic

  -- `expect` of a Result
  abbrev pub expect {ℓ ι} : {F : Type ι} {A : Type ℓ} → Outcome F A → Outcome E A
  expect (ok a) = ok a
  expect (err e) = panic
  expect panic = panic

pub ok_injective {ℓ κ} :
    {E : Type κ} {A : Type ℓ} (a b : A) → ◌≡◌ {A = Outcome E A} (ok a) (ok b) → a ≡ b
ok_injective a b h = cc

-- What a chain that ends with a value has in it; a chain panics only where one of its calls does.
module _ {ℓ κ ι} {E : Type κ} {A : Type ℓ} {B : Type ι} where
  pub chained :
      (o : Outcome E A) (f : A → Outcome E B) (b : B)
      → o >>= f ≡ ok b
      → (a : A) × (o ≡ ok a) × (f a ≡ ok b)
  chained (ok a) f b h = (a, refl, h)
  chained (err e) f b h = cc
  chained panic f b h = cc

  pub chained-no_panic :
      (o : Outcome E A) (f : A → Outcome E B)
      → o ≢ panic
      → ((a : A) → f a ≢ panic)
      → o >>= f ≢ panic
  chained-no_panic (ok a) f g h e = h a e
  chained-no_panic (err e) f g h q = cc
  chained-no_panic panic f g h q = g refl

module _ {ℓ κ} {E : Type κ} {A : Type ℓ} where
  pub or_fail-ok : (o : Option A) (e : E) (a : A) → or_fail o e ≡ ok a → o ≡ some a
  or_fail-ok none e a h = cc
  or_fail-ok (some b) e a h = cc

  pub or_fail-no_panic : (o : Option A) (e : E) → or_fail o e ≢ panic
  or_fail-no_panic none e h = cc
  or_fail-no_panic (some a) e h = cc
