-- ===== src/Prelude/Results.antt =====
-- Rust's `Result`, and the outcome of code that may also panic.
use mathlib.Core.Path.{◌≡◌, refl}
use mathlib.Core.Logic.{◌⊎◌, inl, inr}
use mathlib.Core.Option.{Option, none, some}

pub data Result {ℓ} (E A : Type ℓ) : Type ℓ where
  ok : A → Result E A
  err : E → Result E A

-- How a call ends: with a value, with an error value, or in a panic (`unwrap`, a slice).
pub data Outcome {ℓ} (E A : Type ℓ) : Type ℓ where
  done : A → Outcome E A
  fail : E → Outcome E A
  panic : Outcome E A

module _ {ℓ} {E F A : Type ℓ} where
  -- `r.map_err(f)?`
  abbrev pub try : (F → E) → Result F A → Outcome E A
  try f (ok a) = done a
  try f (err e) = fail (f e)

  -- `map_err` and `?` on a call that may panic.
  abbrev pub map_err : (F → E) → Outcome F A → Outcome E A
  map_err f (done a) = done a
  map_err f (fail e) = fail (f e)
  map_err f panic = panic

module _ {ℓ} {E A : Type ℓ} where
  -- `o.ok_or(e)?`
  abbrev pub ok_or : E → Option A → Outcome E A
  ok_or e none = fail e
  ok_or e (some a) = done a

  -- `o.unwrap()`
  abbrev pub unwrap : Option A → Outcome E A
  unwrap none = panic
  unwrap (some a) = done a

  pub Result-cases : (r : Result E A) → ((a : A) × (r ≡ ok a)) ⊎ ((e : E) × (r ≡ err e))
  Result-cases (ok a) = inl (a, refl)
  Result-cases (err e) = inr (e, refl)

  pub Outcome-cases :
      (r : Outcome E A) → ((a : A) × (r ≡ done a)) ⊎ ((e : E) × (r ≡ fail e)) ⊎ (r ≡ panic)
  Outcome-cases (done a) = inl (a, refl)
  Outcome-cases (fail e) = inr (inl (e, refl))
  Outcome-cases panic = inr (inr refl)

  pub done-injective : {a b : A} → ◌≡◌ {A = Outcome E A} (done a) (done b) → a ≡ b
  done-injective e = cc

  pub ok_or-eq-done : (e : E) (o : Option A) {a : A} → ok_or e o ≡ done a → o ≡ some a
  ok_or-eq-done e none h = cc
  ok_or-eq-done e (some b) h = cc

pub some-injective {ℓ} : {A : Type ℓ} {a b : A} → some a ≡ some b → a ≡ b
some-injective e = cc

module _ {ℓ} {E F A : Type ℓ} where
  pub try-eq-done : (f : F → E) (r : Result F A) {a : A} → try f r ≡ done a → r ≡ ok a
  try-eq-done f (ok b) h = cc
  try-eq-done f (err e) h = cc

  pub map_err-eq-done : (f : F → E) (o : Outcome F A) {a : A} → map_err f o ≡ done a → o ≡ done a
  map_err-eq-done f (done b) h = cc
  map_err-eq-done f (fail e) h = cc
  map_err-eq-done f panic h = cc

  pub map_err-eq-panic : (f : F → E) (o : Outcome F A) → map_err f o ≡ panic → o ≡ panic
  map_err-eq-panic f (done b) h = cc
  map_err-eq-panic f (fail e) h = cc
  map_err-eq-panic f panic h = refl
