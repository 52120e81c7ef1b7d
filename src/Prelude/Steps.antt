-- ===== src/Prelude/Steps.antt =====
-- Chains of steps that may fail or panic and change no state.
use keyserver_rust.Prelude.{◌≡◌, ◌≢◌, refl, Outcome, done, fail, panic}

module _ {ℓ} {E A B : Type ℓ} where
  infixl 5 ◌>>=◌
  abbrev pub ◌>>=◌ : Outcome E A → (A → Outcome E B) → Outcome E B
  done a >>= f = f a
  fail e >>= f = fail e
  panic >>= f = panic

  -- Inversion of a chain that succeeds, and a chain that does not panic.
  pub >>=-eq-done :
      (m : Outcome E A) (f : A → Outcome E B) {b : B}
      → (m >>= f) ≡ done b
      → (a : A) × (m ≡ done a) × (f a ≡ done b)
  >>=-eq-done (done a) f h = (a, refl, h)
  >>=-eq-done (fail e) f h = cc
  >>=-eq-done panic f h = cc

  pub >>=-ne-panic :
      (m : Outcome E A) (f : A → Outcome E B)
      → m ≢ panic
      → ((a : A) → m ≡ done a → f a ≢ panic)
      → (m >>= f) ≢ panic
  >>=-ne-panic (done a) f h k = k a refl
  >>=-ne-panic (fail e) f h k = cc
  >>=-ne-panic panic f h k = absurd (h refl)
