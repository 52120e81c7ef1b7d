-- ===== src/Server/Concurrent/Fairness.antt =====
-- The handlers of src/net/mod.rs under a schedule that lets each of them go on often enough.
use keyserver_rust.Prelude.{
  ℕ, zero, suc, ◌-◌, ◌≤◌, ◌<◌, ◌≡◌, ◌≢◌, refl, ap, ◌∙◌, List, [], ◌∷◌, All, length, Outcome, panic,
  ◌==◌, if◌then◌else◌, arith,
}
use keyserver_rust.Crates.{Crates}
use keyserver_rust.Crates.Laws.{RocksLaws, DigestLaws, CodecLaws}
use keyserver_rust.Http.{Response}
use keyserver_rust.Errors.{ServerError}
use keyserver_rust.Server.Integrity.{IsIntegral}
use keyserver_rust.Server.Concurrent.{
  Handler, ended, getting, deleting, putting, next_call, next_call_at, interleave,
}
use keyserver_rust.Server.Concurrent.Safe.{IsSafe}
use keyserver_rust.Server.Concurrent.Integrity.{Started, Started-IsSafe, next_call_at-IsSafe}
use keyserver_rust.Server.Concurrent.Bounded.{
  EndsWithin, EndsWithin-le, next_call-EndsWithin, Started-EndsWithin,
}

-- How often a schedule lets a position go on.
unfoldable pub turns_of : ℕ → List ℕ → ℕ
turns_of j [] = 0
turns_of j (i ∷ s) = if j == i then suc (turns_of j s) else turns_of j s

module _ (x : Crates) where
  -- The handler at each position ends within a number of calls.
  AllWithin : (ℕ → ℕ) → List (Handler x) → Type 0
  AllWithin f [] = Unit {0}
  AllWithin f (h ∷ hs) = EndsWithin x (f 0) h × AllWithin (λ j. f (suc j)) hs

  AllWithin-le :
      (f g : ℕ → ℕ) (hs : List (Handler x))
      → ((j : ℕ) → f j ≤ g j)
      → AllWithin f hs
      → AllWithin g hs
  unfolding AllWithin
  AllWithin-le f g [] le within = tt
  AllWithin-le f g (h ∷ hs) le within = (
    EndsWithin-le x (f 0) (g 0) h (le 0) within.0,
    AllWithin-le (λ j. f (suc j)) (λ j. g (suc j)) hs (λ j. le (suc j)) within.1,
  )

  -- A turn of a position takes one call from its number.
  abbrev after_turn : ℕ → (ℕ → ℕ) → ℕ → ℕ
  after_turn i f j = if j == i then f j - 1 else f j

  next_call-within :
      (n : ℕ) (h : Handler x) (d : x.Db)
      → EndsWithin x n h
      → EndsWithin x (n - 1) (next_call x h d).0
  unfolding EndsWithin next_call
  next_call-within zero (ended o) d within = tt
  next_call-within zero (getting k rest) d within = absurd within
  next_call-within zero (deleting k rest) d within = absurd within
  next_call-within zero (putting k v rest) d within = absurd within
  next_call-within (suc n) h d within =
      EndsWithin-le x n (suc n - 1) (next_call x h d).0 (omega arith)
        (next_call-EndsWithin x n h d within)

  next_call_at-AllWithin :
      (i : ℕ) (f : ℕ → ℕ) (hs : List (Handler x)) (d : x.Db)
      → AllWithin f hs
      → AllWithin (after_turn i f) (next_call_at x i hs d).0
  unfolding AllWithin next_call_at
  next_call_at-AllWithin i f [] d within = tt
  next_call_at-AllWithin zero f (h ∷ hs) d within = (
    next_call-within (f 0) h d within.0,
    AllWithin-le (λ j. f (suc j)) (λ j. after_turn zero f (suc j)) hs (λ j. ground arith) within.1,
  )
  next_call_at-AllWithin (suc i) f (h ∷ hs) d within = (
    EndsWithin-le x (f 0) (after_turn (suc i) f 0) h (ground arith) within.0,
    AllWithin-le (after_turn i (λ j. f (suc j))) (λ j. after_turn (suc i) f (suc j)) _
        (λ j. ground arith) (next_call_at-AllWithin i (λ j. f (suc j)) hs d within.1),
  )

  interleave-AllWithin :
      (s : List ℕ) (f : ℕ → ℕ) (hs : List (Handler x)) (d : x.Db)
      → AllWithin f hs
      → AllWithin (λ j. f j - turns_of j s) (interleave x s hs d).0
  unfolding interleave turns_of
  interleave-AllWithin [] f hs d within = AllWithin-le f (λ j. f j - 0) hs (λ j. omega arith) within
  interleave-AllWithin (i ∷ s) f hs d within =
      AllWithin-le (λ j. after_turn i f j - turns_of j s) (λ j. f j - turns_of j (i ∷ s)) _
        (λ j. ground arith)
        (interleave-AllWithin s (after_turn i f) _ _ (next_call_at-AllWithin i f hs d within))

  length-next_call_at :
      (i : ℕ) (hs : List (Handler x)) (d : x.Db) → length (next_call_at x i hs d).0 ≡ length hs
  unfolding next_call_at
  length-next_call_at i [] d = refl
  length-next_call_at zero (h ∷ hs) d = refl
  length-next_call_at (suc i) (h ∷ hs) d = ap suc (length-next_call_at i hs d)

  length-interleave :
      (s : List ℕ) (hs : List (Handler x)) (d : x.Db) → length (interleave x s hs d).0 ≡ length hs
  unfolding interleave
  length-interleave [] hs d = refl
  length-interleave (i ∷ s) hs d = length-interleave s _ _ ∙ length-next_call_at i hs d

  Started-AllWithin : (hs : List (Handler x)) → All (Started x) hs → AllWithin (λ j. 3) hs
  unfolding AllWithin
  Started-AllWithin [] started = tt
  Started-AllWithin (h ∷ hs) (first, others) =
      (Started-EndsWithin x h first, Started-AllWithin hs others)

  -- A handler has ended with a value or an error.
  abbrev pub IsAnswered : Handler x → Type 0
  IsAnswered h = (o : Outcome (ServerError x) Response) × (h ≡ ended o) × (o ≢ panic)

module _ (x : Crates) (laws : RocksLaws x.rocks) where
  IsAnswered-head : (h : Handler x) → EndsWithin x 0 h → IsSafe x laws h → IsAnswered x h
  unfolding EndsWithin IsSafe
  IsAnswered-head (ended o) within safe = (o, refl, safe)
  IsAnswered-head (getting k rest) within safe = absurd within
  IsAnswered-head (deleting k rest) within safe = absurd within
  IsAnswered-head (putting k v rest) within safe = absurd within

  IsAnswered-all :
      (f : ℕ → ℕ) (hs : List (Handler x))
      → ((j : ℕ) → j < length hs → f j ≡ 0)
      → AllWithin x f hs
      → All (IsSafe x laws) hs
      → All (IsAnswered x) hs
  unfolding AllWithin
  IsAnswered-all f [] spent within safe = tt
  IsAnswered-all f (h ∷ hs) spent within safe = (
    IsAnswered-head h (EndsWithin-le x (f 0) 0 h (omega (arith, spent 0 (omega arith))) within.0)
        safe.0,
    IsAnswered-all (λ j. f (suc j)) hs (λ j below. spent (suc j) (omega arith)) within.1 safe.1,
  )

  module _ (codec : CodecLaws x.codecs) (digests : DigestLaws x.hashes x.secp) where
    Started-all : (hs : List (Handler x)) → All (Started x) hs → All (IsSafe x laws) hs
    Started-all [] started = tt
    Started-all (h ∷ hs) (first, others) =
        (Started-IsSafe x laws codec digests h first, Started-all hs others)

    interleave-IsSafe :
        (s : List ℕ) (hs : List (Handler x)) (d : x.Db)
        → IsIntegral x laws d
        → All (IsSafe x laws) hs
        → All (IsSafe x laws) (interleave x s hs d).0 × IsIntegral x laws (interleave x s hs d).1
    unfolding interleave
    interleave-IsSafe [] hs d integral safe = (safe, integral)
    interleave-IsSafe (i ∷ s) hs d integral safe =
        let (after, integral') = next_call_at-IsSafe x laws codec digests i hs d integral safe in
        interleave-IsSafe s _ _ integral' after

    -- Under every schedule that lets each handler go on three times or more, in whatever order,
    -- every GET, PUT and end of a poll on an integral database ends with an answer or an error, none
    -- of them panics, and the database is integral in the end.
    pub interleave-IsAnswered :
        (s : List ℕ) (hs : List (Handler x)) (d : x.Db)
        → IsIntegral x laws d
        → All (Started x) hs
        → ((j : ℕ) → j < length hs → 3 ≤ turns_of j s)
        → All (IsAnswered x) (interleave x s hs d).0 × IsIntegral x laws (interleave x s hs d).1
    interleave-IsAnswered s hs d integral started fair =
        let (safe, after) = interleave-IsSafe s hs d integral (Started-all hs started) in
        let within = interleave-AllWithin x s (λ j. 3) hs d (Started-AllWithin x hs started) in
        (
          IsAnswered-all (λ j. 3 - turns_of j s) (interleave x s hs d).0
              (λ j below. omega (arith, fair j (omega (arith, length-interleave x s hs d)))) within
              safe,
          after,
        )
