-- ===== src/Crypto/Validation.antt =====
-- When `validate` of src/crypto/authentication.rs accepts metadata, over secp256k1.
use keyserver_rust.Prelude.{true, some, done, panic, ◌≡◌, ◌≢◌, ◌↔◌, inl, inr, arith, Option-cases}
use keyserver_rust.Prelude.Bytes.{Bytes, bytes_eq_iff}
use keyserver_rust.Models.{AddressMetadata}
use keyserver_rust.Crates.{Crates}
use keyserver_rust.Crates.Laws.{DigestLaws}
use keyserver_rust.Crypto.{
  secp256k1, validate, deserialize_public_key, deserialize_signature, verify,
}

module _ (x : Crates) where
  -- The metadata is the address owner's: its key hashes to the address and its signature is the
  -- key's on the payload's digest.
  pub record IsAuthentic (body : Bytes) (m : AddressMetadata) : Type 0 where
    pub key : x.Key
    pub sig : x.Sig
    pub msg : x.Message
    pub key_parsed : x.key_from_slice m.pub_key ≡ some key
    pub owner : x.hash160 (x.key_serialize key) ≡ body
    pub sig_parsed : x.sig_from_compact m.signature ≡ some sig
    pub digest : x.message_from_slice (x.sha256 m.serialized_payload) ≡ some msg
    pub verified : x.verify msg sig key ≡ true

  validate_sound :
      (addr : x.Address) (m : AddressMetadata)
      → validate x (secp256k1 x.secp) addr m ≡ done tt
      → IsAuthentic (x.body addr) m
  unfolding validate deserialize_public_key deserialize_signature verify
  validate_sound addr m e = elim (Option-cases (x.key_from_slice m.pub_key)) [
    | inl bad ↦ absurd (ground arith)
    | inr (key, parsed) ↦ elim (Option-cases (x.sig_from_compact m.signature)) [
      | inl bad ↦ absurd (ground arith)
      | inr (sig, sparsed) ↦
          elim (Option-cases (x.message_from_slice (x.sha256 m.serialized_payload))) [
            | inl bad ↦ absurd (ground arith)
            | inr (msg, mparsed) ↦ record {
              key = key;
              sig = sig;
              msg = msg;
              key_parsed = parsed;
              owner = ground (arith, bytes_eq_iff (x.hash160 (x.key_serialize key)) (x.body addr));
              sig_parsed = sparsed;
              digest = mparsed;
              verified = ground arith;
            }
          ]
    ]
  ]

  validate_complete :
      (addr : x.Address) (m : AddressMetadata)
      → IsAuthentic (x.body addr) m
      → validate x (secp256k1 x.secp) addr m ≡ done tt
  unfolding validate deserialize_public_key deserialize_signature verify
  validate_complete addr m a = ground (
    arith,
    a.key_parsed,
    a.owner,
    a.sig_parsed,
    a.digest,
    a.verified,
    bytes_eq_iff (x.hash160 (x.key_serialize a.key)) (x.body addr),
  )

  -- Metadata is accepted for an address exactly if its key parses and hashes to the address's
  -- body, its signature parses, and the signature is the key's on the digest of the payload.
  pub validate_iff :
      (addr : x.Address) (m : AddressMetadata)
      → (validate x (secp256k1 x.secp) addr m ≡ done tt) ↔ IsAuthentic (x.body addr) m
  validate_iff addr m = (validate_sound addr m, validate_complete addr m)

  module _ (laws : DigestLaws x.hashes x.secp) where
    -- The digest is always a message that the signature library takes: validation never panics.
    pub validate-ne-panic :
        (addr : x.Address) (m : AddressMetadata) → validate x (secp256k1 x.secp) addr m ≢ panic
    unfolding validate deserialize_public_key deserialize_signature verify
    validate-ne-panic addr m =
        let (msg, parsed) =
          laws.message_of_32 (x.sha256 m.serialized_payload)
            (laws.sha256_length m.serialized_payload) in
        ground (arith, parsed)
