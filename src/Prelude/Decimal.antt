-- ===== src/Prelude/Decimal.antt =====
-- `Display` of unsigned integers.
use keyserver_rust.Prelude.{
  ℕ, zero, suc, ◌+◌, ◌-◌, ◌*◌, ◌/◌, ◌%◌, ◌<◌, ◌≡◌, ap, ◌∙◌, [], ◌∷◌, ltb, arith, Bool-cases, inl,
  inr, if◌then◌else◌,
}
use keyserver_rust.Prelude.Bytes.{Bytes}

-- The digits of a number in front of some digits. The fuel is more than the number, which loses a
-- digit at each call.
unfoldable pub digits_before : ℕ → ℕ → Bytes → Bytes
digits_before zero n ds = ds
digits_before (suc fuel) n ds =
    let rest = digits_before fuel (n / 10) ((48 + n % 10) ∷ ds) in
    if ltb n 10 then (48 + n) ∷ ds else rest

unfoldable pub decimal : ℕ → Bytes
unfolding digits_before
decimal n = digits_before (suc n) n []

-- The number that digits say, after a number that is read already.
abbrev pub number_after : ℕ → Bytes → ℕ
number_after n [] = n
number_after n (d ∷ ds) = number_after (n * 10 + (d - 48)) ds

digits_before-value :
    (fuel n : ℕ) (ds : Bytes)
    → n < fuel
    → number_after 0 (digits_before fuel n ds) ≡ number_after n ds
unfolding digits_before
digits_before-value zero n ds h = absurd (omega arith)
digits_before-value (suc fuel) n ds h = elim (Bool-cases (ltb n 10)) [
  | inl small ↦ rw small (ap (λ k. number_after k ds) (omega arith))
  | inr large ↦ rw large (
      digits_before-value fuel (n / 10) ((48 + n % 10) ∷ ds) (ground arith)
      ∙ ap (λ k. number_after k ds) (omega arith))
]

-- A number is read back from its digits.
number_after-decimal : (n : ℕ) → number_after 0 (decimal n) ≡ n
unfolding decimal
number_after-decimal n = digits_before-value (suc n) n [] (omega arith)
