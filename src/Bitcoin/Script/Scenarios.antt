-- ===== src/Bitcoin/Script/Scenarios.antt =====
-- The test `test_gen_check_output` of src/bitcoin/mod.rs as a run, with its hash as an argument. A
-- failed assertion and an `unwrap` of nothing are panics.
use keyserver_rust.Prelude.{
  ◌≡◌, ◌↔◌, refl, ap, inl, inr, Option-cases, [], Outcome, done, unwrap, length, length-append,
  arith,
}
use keyserver_rust.Prelude.Bytes.{Bytes, bytes_eq_refl}
use keyserver_rust.Prelude.Assert.{assert_eq, assert_eq_bytes}
use keyserver_rust.Prelude.Steps.{◌>>=◌}
use keyserver_rust.Net.Payments.{first}
use keyserver_rust.Bitcoin.Script.{price, p2pkh_post, extract_pubkey_hash, generate_outputs}
use keyserver_rust.Bitcoin.Script.Shape.{p2pkh, extract_pubkey_hash-p2pkh, extract_pubkey_hash_iff}

unfoldable pub test_gen_check_output : Bytes → Outcome ⊥ (Unit {0})
unfolding assert_eq assert_eq_bytes
test_gen_check_output pk_hash =
    let outputs = generate_outputs pk_hash [] pk_hash in
    unwrap (first outputs) >>= λ o. unwrap o.amount >>= λ amount. assert_eq price amount >>= λ _.
    unwrap (extract_pubkey_hash o.script) >>= λ extracted_pkh. assert_eq_bytes pk_hash extracted_pkh

-- The test passes exactly for hashes of 20 bytes: the outputs of an invoice start with the price to
-- a script from which the hash is read back.
test_gen_check_output_iff :
    (pk_hash : Bytes) → (test_gen_check_output pk_hash ≡ done tt) ↔ (length pk_hash ≡ 20)
unfolding test_gen_check_output generate_outputs
test_gen_check_output_iff pk_hash = elim (Option-cases (extract_pubkey_hash (p2pkh pk_hash))) [
  | inl bad ↦ (λ h. cc (rw bad at h), λ n. absurd (cc (bad, extract_pubkey_hash-p2pkh pk_hash n)))
  | inr (h, found) ↦
      let (same, n) = (extract_pubkey_hash_iff (p2pkh pk_hash) h).0 found in
      (
        λ passed. omega (
          arith,
          ap length same,
          length-append pk_hash p2pkh_post,
          length-append h p2pkh_post,
          n,
        ),
        λ m. rw (extract_pubkey_hash-p2pkh pk_hash m, bytes_eq_refl pk_hash) refl,
      )
]
