-- ===== src/Models/Equal.antt =====
-- The equality that is derived for the messages of src/main.rs.
use keyserver_rust.Prelude.{
  ℕ, ◌≡◌, refl, Bool, true, false, ◌&&◌, ◌==◌, Option, none, some, List, [], ◌∷◌, arith,
}
use keyserver_rust.Prelude.Bytes.{bytes_eq, bytes_eq_refl}
use keyserver_rust.Models.{Output, Payment}

unfoldable pub option_eq : {A : Type 0} → (A → A → Bool) → Option A → Option A → Bool
option_eq eq none none = true
option_eq eq none (some b) = false
option_eq eq (some a) none = false
option_eq eq (some a) (some b) = eq a b

unfoldable pub list_eq : {A : Type 0} → (A → A → Bool) → List A → List A → Bool
list_eq eq [] [] = true
list_eq eq [] (b ∷ bs) = false
list_eq eq (a ∷ as_) [] = false
list_eq eq (a ∷ as_) (b ∷ bs) = eq a b && list_eq eq as_ bs

unfoldable pub output_eq : Output → Output → Bool
unfolding option_eq
output_eq a b = option_eq (λ m n. m == n) a.amount b.amount && bytes_eq a.script b.script

unfoldable pub payment_eq : Payment → Payment → Bool
unfolding option_eq list_eq output_eq
payment_eq a b =
    option_eq bytes_eq a.merchant_data b.merchant_data
    && list_eq bytes_eq a.transactions b.transactions
    && list_eq output_eq a.refund_to b.refund_to
    && option_eq bytes_eq a.memo b.memo

option_eq_refl :
    {A : Type 0} (eq : A → A → Bool)
    → ((a : A) → eq a a ≡ true)
    → (o : Option A) → option_eq eq o o ≡ true
unfolding option_eq
option_eq_refl eq same none = refl
option_eq_refl eq same (some a) = same a

list_eq_refl :
    {A : Type 0} (eq : A → A → Bool)
    → ((a : A) → eq a a ≡ true)
    → (l : List A) → list_eq eq l l ≡ true
unfolding list_eq
list_eq_refl eq same [] = refl
list_eq_refl eq same (a ∷ l) = rw (same a, list_eq_refl eq same l) refl

number_eq_refl : (n : ℕ) → (n == n) ≡ true
number_eq_refl n = ground arith

output_eq_refl : (o : Output) → output_eq o o ≡ true
unfolding output_eq
output_eq_refl o =
    rw (option_eq_refl (λ m n. m == n) number_eq_refl o.amount, bytes_eq_refl o.script) refl

pub payment_eq_refl : (m : Payment) → payment_eq m m ≡ true
unfolding payment_eq
payment_eq_refl m =
    rw
      (
        option_eq_refl bytes_eq bytes_eq_refl m.merchant_data,
        list_eq_refl bytes_eq bytes_eq_refl m.transactions,
        list_eq_refl output_eq output_eq_refl m.refund_to,
        option_eq_refl bytes_eq bytes_eq_refl m.memo,
      )
      refl
