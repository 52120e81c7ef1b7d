-- ===== src/Prelude/Utf8.antt =====
-- `std::str::from_utf8`: which byte strings are UTF-8, as a machine that reads a byte at a time.
use keyserver_rust.Prelude.{
  All, ◌<◌, ℕ, zero, suc, ◌≡◌, refl, Bool, true, false, ◌&&◌, Option, none, some, [], ◌∷◌, arith,
  ltb, leb, ◌==◌, if◌then◌else◌,
}
use keyserver_rust.Prelude.Bytes.{Bytes}

-- Between characters; inside one, with the range of the next byte and how many follow it; refused.
pub data Utf8 : Type 0 where
  start : Utf8
  inside : ℕ → ℕ → ℕ → Utf8
  refused : Utf8

abbrev in_range : ℕ → ℕ → ℕ → Bool
in_range lo hi b = leb lo b && leb b hi

-- The leading byte of a character.
lead : ℕ → Utf8
lead b =
    if ltb b 0x80
    then start
    else if in_range 0xc2 0xdf b
    then inside 0x80 0xbf 0
    else if b == 0xe0
    then inside 0xa0 0xbf 1
    else if in_range 0xe1 0xec b
    then inside 0x80 0xbf 1
    else if b == 0xed
    then inside 0x80 0x9f 1
    else if in_range 0xee 0xef b
    then inside 0x80 0xbf 1
    else if b == 0xf0
    then inside 0x90 0xbf 2
    else if in_range 0xf1 0xf3 b
    then inside 0x80 0xbf 2
    else if b == 0xf4
    then inside 0x80 0x8f 2
    else refused

step : Utf8 → ℕ → Utf8
unfolding lead
step start b = lead b
step (inside lo hi zero) b = if in_range lo hi b then start else refused
step (inside lo hi (suc n)) b = if in_range lo hi b then inside 0x80 0xbf n else refused
step refused b = refused

run : Utf8 → Bytes → Bool
unfolding step
run start [] = true
run (inside lo hi n) [] = false
run refused [] = false
run s (b ∷ bs) = run (step s b) bs

unfoldable pub is_utf8 : Bytes → Bool
unfolding run
is_utf8 s = run start s

-- `str::from_utf8(s)`
unfoldable pub from_utf8 : Bytes → Option Bytes
unfolding is_utf8
from_utf8 s = if is_utf8 s then some s else none

samples :
    (is_utf8 (0xe2 ∷ 0x82 ∷ 0xac ∷ 65 ∷ []) ≡ true)
    × (is_utf8 (0xc0 ∷ 0x80 ∷ []) ≡ false)
    × (is_utf8 (0xe2 ∷ 0x82 ∷ []) ≡ false)
    × (is_utf8 (0xed ∷ 0xa0 ∷ 0x80 ∷ []) ≡ false)
unfolding is_utf8
samples = (refl, refl, refl, refl)

-- What is read is what was given.
pub from_utf8-eq : (s t : Bytes) → from_utf8 s ≡ some t → t ≡ s
unfolding from_utf8
from_utf8-eq s t e = ground arith

run-ascii : (s : Bytes) → All (λ b. b < 128) s → run start s ≡ true
unfolding run
run-ascii [] h = refl
run-ascii (b ∷ s) h = let low : ltb b 128 ≡ true = ground (arith, h.0) in rw low (run-ascii s h.1)

-- ASCII is UTF-8.
pub from_utf8-ascii : (s : Bytes) → All (λ b. b < 128) s → from_utf8 s ≡ some s
unfolding from_utf8
from_utf8-ascii s h = rw (run-ascii s h) refl
