-- ===== src/Net/Keys/Reading.antt =====
-- What `put_key` of src/net/mod.rs reads from a request before it turns to the database.
use keyserver_rust.Prelude.{
  ◌≡◌, ◌≢◌, subst, inl, inr, ok, Option, none, some, done, panic, List, [], arith, Outcome-cases,
  ok_or, done-injective, ok_or-eq-done, try-eq-done, ◌∷◌, ◌++◌,
}
use keyserver_rust.Prelude.Bytes.{Bytes}
use keyserver_rust.Prelude.Steps.{>>=-eq-done, >>=-ne-panic}
use keyserver_rust.Models.{Payload, AddressMetadata}
use keyserver_rust.Crates.{Crates}
use keyserver_rust.Crates.Laws.{DigestLaws}
use keyserver_rust.Errors.{ServerError, metadata_decode}
use keyserver_rust.Crypto.{validate, secp256k1}
use keyserver_rust.Crypto.Validation.{IsAuthentic, validate_iff, validate-ne-panic}
use keyserver_rust.Net.Keys.{read_body, decode_address, check_scheme, read_put}

-- Receiving a body does not panic.
pub read_body-ne-panic :
    {E : Type 0} (e : E) (raw : Bytes) (items : List (Option Bytes)) → read_body e raw items ≢ panic
unfolding read_body
read_body-ne-panic e raw [] = cc
read_body-ne-panic e raw (none ∷ items) = cc
read_body-ne-panic e raw (some item ∷ items) = read_body-ne-panic e (raw ++ item) items

module _ (x : Crates) where
  -- What a request's address and body were read as.
  pub record IsRead (addr_str : Bytes) (items : List (Option Bytes)) (addr : x.Address)
      (m : AddressMetadata) (p : Payload) : Type 0 where
    pub raw : Bytes
    pub received : read_body {E = ServerError x} metadata_decode [] items ≡ done raw
    pub decoded : x.decode_metadata raw ≡ some m
    pub addressed : x.decode addr_str ≡ ok addr
    pub scheme : m.scheme ≡ 1
    pub authentic : IsAuthentic x (x.body addr) m
    pub payload : x.decode_payload m.serialized_payload ≡ some p

  pub check_scheme_sound :
      (addr : x.Address) (m : AddressMetadata)
      → check_scheme x addr m ≡ done tt
      → (m.scheme ≡ 1) × (validate x (secp256k1 x.secp) addr m ≡ done tt)
  unfolding check_scheme
  check_scheme_sound addr m e = elim (Outcome-cases (validate x (secp256k1 x.secp) addr m)) [
    | inl (tt, good) ↦ (ground arith, good)
    | inr (inl (bad, refused)) ↦ absurd (ground arith)
    | inr (inr panicked) ↦ absurd (ground arith)
  ]

  pub read_put_sound :
      (addr_str : Bytes) (items : List (Option Bytes)) {r : x.Address × AddressMetadata × Payload}
      → read_put x addr_str items ≡ done r
      → IsRead addr_str items r.0 r.1 r.2
  unfolding read_put
  read_put_sound addr_str items e =
      let (raw, received, e₁) = >>=-eq-done _ _ e in
      let (m, decoded, e₂) = >>=-eq-done _ _ e₁ in
      let (addr, addressed, e₃) = >>=-eq-done _ _ e₂ in
      let (tt, checked, e₄) = >>=-eq-done _ _ e₃ in
      let (p, parsed, e₅) = >>=-eq-done _ _ e₄ in
      let (scheme, valid) = check_scheme_sound addr m checked in
      subst (λ t. IsRead addr_str items t.0 t.1 t.2) (done-injective e₅)
        (record {
          raw = raw;
          received = received;
          decoded = ok_or-eq-done _ _ decoded;
          addressed = try-eq-done _ _ addressed;
          scheme = scheme;
          authentic = (validate_iff x addr m).0 valid;
          payload = ok_or-eq-done _ _ parsed;
        })

  module _ (digests : DigestLaws x.hashes x.secp) where
    check_scheme-ne-panic : (addr : x.Address) (m : AddressMetadata) → check_scheme x addr m ≢ panic
    unfolding check_scheme
    check_scheme-ne-panic addr m e = validate-ne-panic x digests addr m (ground arith)

    pub read_put-ne-panic :
        (addr_str : Bytes) (items : List (Option Bytes)) → read_put x addr_str items ≢ panic
    unfolding read_put
    read_put-ne-panic addr_str items =
        >>=-ne-panic (read_body metadata_decode [] items) _ (read_body-ne-panic _ _ items) λ raw _.
          >>=-ne-panic (ok_or metadata_decode (x.decode_metadata raw)) _ (ground arith) λ m _.
            >>=-ne-panic (decode_address x addr_str) _ (ground arith) λ addr _.
              >>=-ne-panic (check_scheme x addr m) _ (check_scheme-ne-panic addr m)
                λ _ _. ground arith
