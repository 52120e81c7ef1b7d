-- ===== src/Prelude/Exec.antt =====
-- Code that changes a state and may fail or panic. What was written before stays written, so the
-- state comes back beside every outcome.
use keyserver_rust.Prelude.{Outcome, done, fail, panic, map_err}

abbrev pub Exec {ℓ} : Type ℓ → Type ℓ → Type ℓ → Type ℓ
Exec S E A = S → Outcome E A × S

module _ {ℓ} {S E A : Type ℓ} where
  abbrev pub pure : A → Exec S E A
  pure a s = (done a, s)

  abbrev pub throw : E → Exec S E A
  throw e s = (fail e, s)

  -- A pure computation among the steps.
  abbrev pub lift : Outcome E A → Exec S E A
  lift o s = (o, s)

module _ {ℓ} {S E A B : Type ℓ} where
  abbrev pub continue : Outcome E A → (A → Exec S E B) → Exec S E B
  continue (done a) f s = f a s
  continue (fail e) f s = (fail e, s)
  continue panic f s = (panic, s)

  infixl 5 ◌>>=◌ ◌>>◌
  abbrev pub ◌>>=◌ : Exec S E A → (A → Exec S E B) → Exec S E B
  ◌>>=◌ m f s = continue (m s).0 f (m s).1

  abbrev pub ◌>>◌ : Exec S E A → Exec S E B → Exec S E B
  m >> n = m >>= λ _. n

-- `m.map_err(f)`
abbrev pub exec_map_err {ℓ} : {S E F A : Type ℓ} → (F → E) → Exec S F A → Exec S E A
exec_map_err f m s = (map_err f (m s).0, (m s).1)
