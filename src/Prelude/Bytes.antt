-- ===== src/Prelude/Bytes.antt =====
-- Rust's `Vec<u8>`, `[u8]` and `str` as lists of bytes, with the operations of the standard
-- library that the program calls: comparison, slicing, `from_utf8`.
use Prim.Native.Char.{code}
use keyserver_rust.Prelude.{
  ℕ, ◌-◌, ◌≡◌, refl, ◌↔◌, Bool, true, false, not, ◌&&◌, String, List, [], ◌∷◌, arith, ltb, leb,
  ◌==◌, if◌then◌else◌, length, get_or, take, drop, Outcome, done, panic,
}

abbrev pub Bytes : Type 0
Bytes = List ℕ

-- The bytes of an ASCII literal.
unfoldable pub text : String → Bytes
text String.[] = []
text (String.◌∷◌ c s) = code c ∷ text s

-- `==` on byte strings.
unfoldable pub bytes_eq : Bytes → Bytes → Bool
bytes_eq [] [] = true
bytes_eq [] (b ∷ bs) = false
bytes_eq (a ∷ as_) [] = false
bytes_eq (a ∷ as_) (b ∷ bs) = a == b && bytes_eq as_ bs

pub bytes_eq_iff : (xs ys : Bytes) → (bytes_eq xs ys ≡ true) ↔ (xs ≡ ys)
unfolding bytes_eq
bytes_eq_iff [] [] = ground arith
bytes_eq_iff [] (b ∷ bs) = ground arith
bytes_eq_iff (a ∷ xs) [] = ground arith
bytes_eq_iff (a ∷ xs) (b ∷ bs) = ground (arith, bytes_eq_iff xs bs)

pub bytes_eq_refl : (xs : Bytes) → bytes_eq xs xs ≡ true
bytes_eq_refl xs = (bytes_eq_iff xs xs).1 refl

-- `xs[from..to]`, for bounds within the slice.
abbrev pub slice : ℕ → ℕ → Bytes → Bytes
slice from to xs = take (to - from) (drop from xs)

-- `s.is_char_boundary(i)`: the end of the string, or a byte that continues no character.
unfoldable pub is_char_boundary : Bytes → ℕ → Bool
is_char_boundary s i =
    if i == length s
    then true
    else if ltb i (length s)
    then not (leb 128 (get_or s i 0) && ltb (get_or s i 0) 192)
    else false

-- `&s[n..]` on a string: it panics out of bounds and inside a character.
unfoldable pub str_from : {E : Type 0} → ℕ → Bytes → Outcome E Bytes
str_from n s = if is_char_boundary s n then done (drop n s) else panic

-- `&s[..n]` on a string.
unfoldable pub str_to : {E : Type 0} → ℕ → Bytes → Outcome E Bytes
str_to n s = if is_char_boundary s n then done (take n s) else panic
