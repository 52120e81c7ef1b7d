-- ===== src/Prelude/Assert.antt =====
-- What a test does with outcomes: assertions and `unwrap`, whose failure is a panic.
use keyserver_rust.Prelude.{
  ℕ, Bool, true, false, Outcome, done, fail, panic, ◌==◌, leb, length, if◌then◌else◌,
}
use keyserver_rust.Prelude.Bytes.{Bytes, bytes_eq, slice}
use keyserver_rust.Prelude.Exec.{Exec}

-- `assert!`
abbrev pub assert : Bool → Outcome ⊥ (Unit {0})
assert true = done tt
assert false = panic

-- `assert_eq!`
unfoldable pub assert_eq : ℕ → ℕ → Outcome ⊥ (Unit {0})
assert_eq a b = if a == b then done tt else panic

unfoldable pub assert_eq_bytes : Bytes → Bytes → Outcome ⊥ (Unit {0})
assert_eq_bytes a b = if bytes_eq a b then done tt else panic

-- `unwrap()` on what may also panic by itself.
abbrev pub unwrap_outcome : {E A : Type 0} → Outcome E A → Outcome ⊥ A
unwrap_outcome (done a) = done a
unwrap_outcome (fail e) = panic
unwrap_outcome panic = panic

abbrev pub unwrapping : {S E A : Type 0} → Exec S E A → Exec S ⊥ A
unwrapping m s = (unwrap_outcome (m s).0, (m s).1)

-- `xs[from..to]`
unfoldable pub slice_of : ℕ → ℕ → Bytes → Outcome ⊥ Bytes
slice_of from to xs = if leb to (length xs) then done (slice from to xs) else panic
