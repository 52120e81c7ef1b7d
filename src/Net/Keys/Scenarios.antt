-- ===== src/Net/Keys/Scenarios.antt =====
-- The tests of src/net/mod.rs as runs of the handlers on a database. A failed assertion is a panic;
-- the drawn key, the configured network and the readings of the clock are arguments.
pub mod Generated
pub mod Passes
use keyserver_rust.Prelude.{
  ℕ, Option, some, List, [], ◌∷◌, Outcome, done, fail, panic, unwrap, ◌==◌, if◌then◌else◌,
}
use keyserver_rust.Prelude.Bytes.{Bytes, text, bytes_eq}
use keyserver_rust.Prelude.Int.{pos, cast64}
use keyserver_rust.Prelude.Assert.{assert_eq, assert_eq_bytes}
use keyserver_rust.Prelude.Steps
use keyserver_rust.Prelude.Exec.{Exec, lift, ◌>>=◌, ◌>>◌}
use keyserver_rust.Models.{Entry, Header, Payload, AddressMetadata}
use keyserver_rust.Crates.{Crates}
use keyserver_rust.Crates.Client.{Client}
use keyserver_rust.Http.{Response, status_ok, status_bad_request, status_not_found}
use keyserver_rust.Errors.{ServerError, error_response}
use keyserver_rust.Crypto.{secp256k1, to_raw_address}
use keyserver_rust.Bitcoin.Network.{Network, into_addr_network}
use keyserver_rust.Net.Keys.{get_key, put_key}

abbrev pub test_entries : List Entry
test_entries =
    record {
      kind = text "text_utf8";
      headers = record { name = text "Type"; value = text "EgoBoost" } ∷ [];
      entry_data = text "This is going to be so much faster than Go";
    }
    ∷ []

-- The payload that the tests sign.
abbrev pub test_payload : ℕ → Payload
test_payload time = record { timestamp = cast64 time; ttl = pos 3000; entries = test_entries }

module _ (x : Crates) where
  -- The framework answers a handler's error with its response.
  unfoldable pub answer : Outcome (ServerError x) Response → Outcome ⊥ Response
  answer (done resp) = done resp
  answer (fail e) = done (error_response x e)
  answer panic = panic

  -- `app.call(req).await.unwrap()`
  abbrev pub call_app : Exec x.Db (ServerError x) Response → Exec x.Db ⊥ Response
  call_app handler d = (answer (handler d).0, (handler d).1)

  unfoldable pub test_index_get_invalid_address : ℕ → Exec x.Db ⊥ (Unit {0})
  unfolding answer assert_eq
  test_index_get_invalid_address now = do
    resp ← call_app (get_key x (text "invalid") now)
    lift (assert_eq resp.status status_bad_request)

  -- The second half of `test_index_put_get`: the metadata is got at the clock's third reading.
  unfoldable pub get_back : Bytes → Bytes → ℕ → Exec x.Db ⊥ (Unit {0})
  unfolding answer assert_eq assert_eq_bytes
  get_back address_base58 metadata_raw t = do
    resp ← call_app (get_key x address_base58 t)
    lift (assert_eq resp.status status_ok)
    lift (assert_eq_bytes resp.body metadata_raw)

  module _ (c : Client x) where
    -- The metadata that the tests put, signed.
    abbrev pub test_metadata : c.SecretKey → x.Message → ℕ → AddressMetadata
    test_metadata sk msg time = record {
      pub_key = x.key_serialize (c.public_key sk);
      serialized_payload = c.encode_payload (test_payload time);
      signature = c.serialize_compact (c.sign msg sk);
      scheme = 1;
    }

    unfoldable pub generate_address_metadata : c.SecretKey → Network → ℕ → Outcome ⊥ (Bytes × Bytes)
    unfolding to_raw_address
    generate_address_metadata sk network time =
        let address_raw = to_raw_address x (secp256k1 x.secp) (c.public_key sk) in
        let raw_payload = c.encode_payload (test_payload time) in
        Steps.◌>>=◌ (unwrap (c.encode_base58 address_raw (into_addr_network network)))
          λ address_base58.
            Steps.◌>>=◌ (unwrap (x.message_from_slice (x.sha256 raw_payload)))
              λ msg. done (address_base58, x.encode_metadata (test_metadata sk msg time))

    module _ (sk : c.SecretKey) (network : Network) (time : ℕ) where
      unfoldable pub test_index_put_ok : ℕ → ℕ → Exec x.Db ⊥ (Unit {0})
      unfolding answer assert_eq
      test_index_put_ok now later = do
        generated ← lift (generate_address_metadata sk network time)
        resp ← call_app (put_key x generated.0 (some generated.1 ∷ []) now later)
        lift (assert_eq resp.status status_ok)

      unfoldable pub test_index_put_malformed_payload : ℕ → ℕ → Exec x.Db ⊥ (Unit {0})
      unfolding answer assert_eq
      test_index_put_malformed_payload now later = do
        generated ← lift (generate_address_metadata sk network time)
        resp ← call_app (put_key x generated.0 (some (2 ∷ 3 ∷ 5 ∷ []) ∷ []) now later)
        lift (assert_eq resp.status status_bad_request)

      unfoldable pub test_index_put_invalid_address : ℕ → ℕ → Exec x.Db ⊥ (Unit {0})
      unfolding answer assert_eq
      test_index_put_invalid_address now later = do
        generated ← lift (generate_address_metadata sk network time)
        resp ← call_app (put_key x (text "invalid") (some generated.1 ∷ []) now later)
        lift (assert_eq resp.status status_bad_request)

      unfoldable pub test_index_get_not_found : ℕ → Exec x.Db ⊥ (Unit {0})
      unfolding answer assert_eq
      test_index_get_not_found now = do
        generated ← lift (generate_address_metadata sk network time)
        resp ← call_app (get_key x generated.0 now)
        lift (assert_eq resp.status status_not_found)

      unfoldable pub test_index_put_get : ℕ → ℕ → ℕ → Exec x.Db ⊥ (Unit {0})
      unfolding answer assert_eq get_back
      test_index_put_get now later t = do
        generated ← lift (generate_address_metadata sk network time)
        resp ← call_app (put_key x generated.0 (some generated.1 ∷ []) now later)
        lift (assert_eq resp.status status_ok)
        get_back generated.0 generated.1 t
