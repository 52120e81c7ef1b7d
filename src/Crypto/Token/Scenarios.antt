-- ===== src/Crypto/Token/Scenarios.antt =====
-- The tests of src/crypto/token.rs as runs; the draws of each secret are arguments. A failed
-- assertion is a panic.
use keyserver_rust.Prelude.{ℕ, not, ◌≡◌, ◌≢◌, ◌↔◌, refl, Outcome, done, Bool-cases, inl, inr}
use keyserver_rust.Prelude.Bytes.{Bytes, text}
use keyserver_rust.Prelude.Assert.{assert}
use keyserver_rust.Crates.{Crates}
use keyserver_rust.Crates.Laws.{SubtleLaws}
use keyserver_rust.Crypto.Token.{
  generate_secret, generate_token, validate_token, validate_token_iff,
}

module _ (x : Crates) where
  unfoldable pub test_validate : (ℕ → ℕ) → Outcome ⊥ (Unit {0})
  unfolding generate_secret
  test_validate draw =
      let secret = generate_secret draw 16 in
      let msg = text "DEADBEEF" in
      let token = generate_token x msg secret in assert (validate_token x msg secret token)

  unfoldable pub test_validate_wrong_sig : (ℕ → ℕ) → (ℕ → ℕ) → Outcome ⊥ (Unit {0})
  unfolding generate_secret
  test_validate_wrong_sig draw_a draw_b =
      let secret_a = generate_secret draw_a 16 in
      let secret_b = generate_secret draw_b 16 in
      let msg = text "DEADBEEF" in
      let token = generate_token x msg secret_a in
      assert (not (validate_token x msg secret_b token))

  unfoldable pub test_validate_wrong_msg : (ℕ → ℕ) → Outcome ⊥ (Unit {0})
  unfolding generate_secret
  test_validate_wrong_msg draw =
      let secret = generate_secret draw 16 in
      let msg_a = text "DEADBEEF" in
      let msg_b = text "BEDEAD" in
      let token = generate_token x msg_a secret in
      assert (not (validate_token x msg_b secret token))

  unfoldable pub test_validate_wrong_token : (ℕ → ℕ) → Outcome ⊥ (Unit {0})
  unfolding generate_secret
  test_validate_wrong_token draw =
      let secret = generate_secret draw 16 in
      let msg = text "DEADBEEF" in
      let token = text "BEEFEED" in assert (not (validate_token x msg secret token))

  module _ (laws : SubtleLaws x.subtle) where
    accepted :
        (msg secret : Bytes)
        → assert (validate_token x msg secret (generate_token x msg secret)) ≡ done tt
    accepted msg secret =
        rw ((validate_token_iff x laws msg secret (generate_token x msg secret)).1 refl) refl

    refused_iff :
        (msg secret token : Bytes)
        → (assert (not (validate_token x msg secret token)) ≡ done tt)
          ↔ (token ≢ generate_token x msg secret)
    refused_iff msg secret token = elim (Bool-cases (validate_token x msg secret token)) [
      | inl valid ↦ (
        rw valid (λ h. cc),
        λ other. absurd (other ((validate_token_iff x laws msg secret token).0 valid)),
      )
      | inr invalid ↦ (
        λ h same. cc ((validate_token_iff x laws msg secret token).1 same, invalid),
        λ other. rw invalid refl,
      )
    ]

    -- For all draws, the test of a valid token passes, and the tests of wrong tokens pass exactly if
    -- the digests that they take for different are: those of one message under the two secrets, those
    -- of the two messages under one secret, and that of the message and the wrong token.
    token_tests_iff :
        (draw draw' : ℕ → ℕ)
        → (test_validate draw ≡ done tt)
          × ((test_validate_wrong_sig draw draw' ≡ done tt) ↔ (
              x.hmac_sha256 (generate_secret draw 16) (text "DEADBEEF")
              ≢ x.hmac_sha256 (generate_secret draw' 16) (text "DEADBEEF")))
          × ((test_validate_wrong_msg draw ≡ done tt) ↔ (
              x.hmac_sha256 (generate_secret draw 16) (text "DEADBEEF")
              ≢ x.hmac_sha256 (generate_secret draw 16) (text "BEDEAD")))
          × ((test_validate_wrong_token draw ≡ done tt)
              ↔ (text "BEEFEED" ≢ x.hmac_sha256 (generate_secret draw 16) (text "DEADBEEF")))
    unfolding test_validate test_validate_wrong_sig test_validate_wrong_msg
        test_validate_wrong_token generate_token
    token_tests_iff draw draw' =
        let secret = generate_secret draw 16 in
        (
          accepted (text "DEADBEEF") secret,
          refused_iff (text "DEADBEEF") (generate_secret draw' 16)
              (generate_token x (text "DEADBEEF") secret),
          refused_iff (text "BEDEAD") secret (generate_token x (text "DEADBEEF") secret),
          refused_iff (text "DEADBEEF") secret (text "BEEFEED"),
        )
