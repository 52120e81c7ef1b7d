-- ===== src/Crates/Client.antt =====
-- What the tests of src/net call beside the program's own crates: the client's half of secp256k1,
-- of the address crate and of the generated encoders, with the laws that the tests rely on.
use keyserver_rust.Prelude.{All, ◌≡◌, true, Option, some, none, ok, err, [], ◌∷◌, length}
use keyserver_rust.Prelude.Bytes.{Bytes, text}
use keyserver_rust.Models.{PaymentRequest, PaymentDetails, Payload, AddrNetwork}
use keyserver_rust.Crates.{Crates}
use keyserver_rust.Crates.Laws.{is_visible}

pub record Client (x : Crates) : Type 1 where
  pub SecretKey : Type 0
  -- The key pair of a secret key, which `generate_keypair` draws.
  pub public_key : SecretKey → x.Key
  pub sign : x.Message → SecretKey → x.Sig
  pub serialize_compact : x.Sig → Bytes
  pub encode_payload : Payload → Bytes
  -- `Base58Codec::encode(body, HashType::Key, network)`
  pub encode_base58 : Bytes → AddrNetwork → Option Bytes
  pub decode_request : Bytes → Option PaymentRequest
  pub decode_details : Bytes → Option PaymentDetails

-- Keys, signatures and invoices are read as they were written, a signature is valid for its message
-- and key pair, and a hash of 20 bytes has a base58 address, which is visible ASCII and
-- which `Address::decode` takes. A message has no field 0, and "invalid" is no address.
pub record ClientLaws (x : Crates) (c : Client x) : Type 0 where
  pub key_lem : (k : x.Key) → x.key_from_slice (x.key_serialize k) ≡ some k
  pub sig_lem : (s : x.Sig) → x.sig_from_compact (c.serialize_compact s) ≡ some s
  pub verify-sign :
      (m : x.Message) (k : c.SecretKey) → x.verify m (c.sign m k) (c.public_key k) ≡ true
  pub hash160_length : (b : Bytes) → length (x.hash160 b) ≡ 20
  pub decode-encode_base58 :
      (b : Bytes) (n : AddrNetwork)
      → length b ≡ 20
      → (s : Bytes) × (a : x.Address) × (c.encode_base58 b n ≡ some s)
        × (x.decode s ≡ ok a)
        × (x.body a ≡ b)
        × All (λ n. is_visible n ≡ true) s
  pub decode-encode_request : (r : PaymentRequest) → c.decode_request (x.encode_request r) ≡ some r
  pub decode-encode_details : (d : PaymentDetails) → c.decode_details (x.encode_details d) ≡ some d
  pub malformed : x.decode_metadata (2 ∷ 3 ∷ 5 ∷ []) ≡ none
  pub invalid : (e : x.CashError × x.Base58Error) × (x.decode (text "invalid") ≡ err e)
