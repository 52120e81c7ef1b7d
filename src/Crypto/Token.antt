-- ===== src/Crypto/Token.antt =====
-- src/crypto/token.rs: proof-of-payment tokens, keyed hashes of a URL under the server's secret.
pub mod Scenarios
use keyserver_rust.Prelude.{ℕ, zero, suc, Bool, true, ◌≡◌, ◌↔◌, sym, [], ◌∷◌, ◌==◌, ==_iff}
use keyserver_rust.Prelude.Bytes.{Bytes}
use keyserver_rust.Crates.{Crates}
use keyserver_rust.Crates.Laws.{SubtleLaws}

-- The bytes drawn from the random generator, by the order of the draws.
unfoldable pub generate_secret : (ℕ → ℕ) → ℕ → Bytes
generate_secret draw zero = []
generate_secret draw (suc len) = draw 0 ∷ generate_secret (λ i. draw (suc i)) len

module _ (x : Crates) where
  unfoldable pub generate_token : Bytes → Bytes → Bytes
  generate_token msg secret = x.hmac_sha256 secret msg

  unfoldable pub validate_token : Bytes → Bytes → Bytes → Bool
  unfolding generate_token
  validate_token msg secret expected = x.ct_eq (generate_token msg secret) expected == 1

  -- A token is accepted for a message exactly if it is the one generated for that message.
  pub validate_token_iff :
      SubtleLaws x.subtle
      → (msg secret token : Bytes)
      → (validate_token msg secret token ≡ true) ↔ (token ≡ generate_token msg secret)
  unfolding validate_token
  validate_token_iff laws msg secret token = (
    λ e. sym ((laws.ct_eq_iff _ _).0 ((==_iff _ _).0 e)),
    λ e. (==_iff _ _).1 ((laws.ct_eq_iff _ _).1 (sym e)),
  )
