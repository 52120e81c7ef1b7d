-- ===== src/Crypto.antt =====
-- src/crypto: the interface of a signature scheme, its implementation by ECDSA over secp256k1,
-- the validation of metadata and the payment tokens.
pub mod Validation
pub mod Token
use keyserver_rust.Prelude.{
  Bool, not, Result, ok, err, Option, none, some, Outcome, done, fail, panic, try, map_err, unwrap,
  if◌then◌else◌, refl, ◌≡◌, length,
}
use keyserver_rust.Prelude.Bytes.{Bytes, bytes_eq}
use keyserver_rust.Prelude.Steps.{◌>>=◌}
use keyserver_rust.Models.{AddressMetadata}
use keyserver_rust.Crates.{Crates, Secp}
use keyserver_rust.Errors.{
  CryptoError, pubkey_deserialization, sig_deserialization, verification, ValidationError,
  into_validation, preimage,
}

-- The traits `PublicKey`, `Signature` and `SigScheme`.
pub record SigScheme : Type 1 where
  pub PublicKey : Type 0
  pub Signature : Type 0
  pub serialize : PublicKey → Bytes
  pub deserialize_key : Bytes → Result CryptoError PublicKey
  pub deserialize_sig : Bytes → Result CryptoError Signature
  pub verify_msg : Bytes → PublicKey → Signature → Outcome CryptoError (Unit {0})

-- `map_err(|_| e)` on a crate's result whose error is not looked at.
abbrev or_error {ℓ} : {E A : Type ℓ} → E → Option A → Result E A
or_error e none = err e
or_error e (some a) = ok a

-- src/crypto/ecdsa.rs
module _ (s : Secp) where
  unfoldable pub deserialize_public_key : Bytes → Result CryptoError s.Key
  deserialize_public_key raw = or_error pubkey_deserialization (s.key_from_slice raw)

  unfoldable pub deserialize_signature : Bytes → Result CryptoError s.Sig
  deserialize_signature raw = or_error sig_deserialization (s.sig_from_compact raw)

  unfoldable pub verify : Bytes → s.Key → s.Sig → Outcome CryptoError (Unit {0})
  verify msg key sig = do
    m ← unwrap (s.message_from_slice msg)
    if s.verify m sig key then done tt else fail verification

  abbrev pub secp256k1 : SigScheme
  secp256k1 = record {
    PublicKey = s.Key;
    Signature = s.Sig;
    serialize = s.key_serialize;
    deserialize_key = deserialize_public_key;
    deserialize_sig = deserialize_signature;
    verify_msg = verify;
  }

module _ (x : Crates) (s : SigScheme) where
  -- The trait `Addressable`
  unfoldable pub to_raw_address : s.PublicKey → Bytes
  to_raw_address key = x.hash160 (s.serialize key)

  -- src/crypto/authentication.rs, after the key: the digest and the signature
  unfoldable pub check_signature :
      AddressMetadata → s.PublicKey → Outcome ValidationError (Unit {0})
  check_signature metadata meta_pk =
      let payload_digest = x.sha256 metadata.serialized_payload in
      do
        sig ← try into_validation (s.deserialize_sig metadata.signature)
        map_err into_validation (s.verify_msg payload_digest meta_pk sig)

  unfoldable pub validate : x.Address → AddressMetadata → Outcome ValidationError (Unit {0})
  unfolding check_signature to_raw_address
  validate addr metadata = do
    meta_pk ← try into_validation (s.deserialize_key metadata.pub_key)
    if not (bytes_eq (to_raw_address meta_pk) (x.body addr))
        then fail preimage
        else check_signature metadata meta_pk
