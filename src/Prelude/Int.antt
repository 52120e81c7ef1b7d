-- ===== src/Prelude/Int.antt =====
-- Signed integers over the native numbers, under the library's names (its ℤ stands on the unary
-- ℕ), and the two's complement arithmetic of Rust's `i64`.
use keyserver_rust.Prelude.{
  ℕ, suc, ◌+◌, ◌-◌, ◌%◌, ◌^◌, ◌≤◌, ◌<◌, ◌≡◌, Bool, arith, ltb, leb, if◌then◌else◌,
}

-- `negsuc n` is -(n + 1).
pub data ℤ : Type 0 where
  pos : ℕ → ℤ
  negsuc : ℕ → ℤ

abbrev pub pos_part : ℤ → ℕ
pos_part (pos n) = n
pos_part (negsuc n) = 0

abbrev pub neg_part : ℤ → ℕ
neg_part (pos n) = 0
neg_part (negsuc n) = suc n

-- a - b, as an integer.
abbrev pub sub_ℕ : ℕ → ℕ → ℤ
sub_ℕ a b = if leb b a then pos (a - b) else negsuc (b - a - 1)

infixl 65 ◌+ℤ◌
infix 50 ◌≤ℤ◌ ◌<ℤ◌
unfoldable pub ◌+ℤ◌ : ℤ → ℤ → ℤ
a +ℤ b = sub_ℕ (pos_part a + pos_part b) (neg_part a + neg_part b)

infixl 65 ◌-ℤ◌
unfoldable pub ◌-ℤ◌ : ℤ → ℤ → ℤ
a -ℤ b = sub_ℕ (pos_part a + neg_part b) (neg_part a + pos_part b)

abbrev pub ◌≤ℤ◌ : ℤ → ℤ → Type 0
a ≤ℤ b = pos_part a + neg_part b ≤ pos_part b + neg_part a

abbrev pub ◌<ℤ◌ : ℤ → ℤ → Type 0
a <ℤ b = pos_part a + neg_part b < pos_part b + neg_part a

abbrev pub ltb_ℤ : ℤ → ℤ → Bool
ltb_ℤ a b = ltb (pos_part a + neg_part b) (pos_part b + neg_part a)

-- The range of an `i64`.
abbrev pub IsI64 : ℤ → Type 0
IsI64 a = (pos_part a < 2 ^ 63) × (neg_part a ≤ 2 ^ 63)

-- The 64-bit pattern of an `i64`, and the `i64` of a pattern.
abbrev pub pattern64 : ℤ → ℕ
pattern64 a = (2 ^ 64 + pos_part a - neg_part a) % 2 ^ 64

abbrev pub signed64 : ℕ → ℤ
signed64 w = if ltb w (2 ^ 63) then pos w else negsuc (2 ^ 64 - w - 1)

-- `a + b` on `i64` in a release build: it wraps around.
unfoldable pub add64 : ℤ → ℤ → ℤ
add64 a b = signed64 ((pattern64 a + pattern64 b) % 2 ^ 64)

-- `n as i64` for a `u64`.
unfoldable pub cast64 : ℕ → ℤ
cast64 n = signed64 (n % 2 ^ 64)

-- Where the true sum fits, wrapping addition gives it.
pub add64-eq : (a b : ℤ) → IsI64 a → IsI64 b → IsI64 (a +ℤ b) → add64 a b ≡ a +ℤ b
unfolding add64 ◌+ℤ◌
add64-eq (pos a) (pos b) ha hb h = ground arith
add64-eq (pos a) (negsuc b) ha hb h = ground arith
add64-eq (negsuc a) (pos b) ha hb h = ground arith
add64-eq (negsuc a) (negsuc b) ha hb h = ground arith

pub cast64-eq : (n : ℕ) → n < 2 ^ 63 → cast64 n ≡ pos n
unfolding cast64
cast64-eq n h = ground arith

-- Two non-negative numbers whose sum passes the range give a negative sum.
pub add64_overflow :
    (a b : ℕ) → a < 2 ^ 63 → b < 2 ^ 63 → 2 ^ 63 ≤ a + b → add64 (pos a) (pos b) <ℤ pos 0
unfolding add64
add64_overflow a b ha hb h = ground arith
