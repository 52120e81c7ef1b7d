-- ===== src/Net/Keys.antt =====
-- The handlers `get_key` and `put_key` of src/net/mod.rs. A body comes as its chunks, and a chunk
-- that could not be received is `none`. The state is the database's.
pub mod Reads
pub mod Reading
pub mod Writes
pub mod ReadBack
pub mod Acceptance
pub mod Scenarios
use keyserver_rust.Prelude.{
  ℕ, zero, suc, Result, ok, err, Option, none, some, List, [], ◌∷◌, ◌++◌, Outcome, done, fail,
  panic, try, map_err, ok_or, ◌==◌, if◌then◌else◌,
}
use keyserver_rust.Prelude.Bytes.{Bytes}
use keyserver_rust.Prelude.Steps
use keyserver_rust.Prelude.Exec.{Exec, pure, lift, exec_map_err, ◌>>=◌, ◌>>◌}
use keyserver_rust.Models.{Payload, AddressMetadata}
use keyserver_rust.Crates.{Crates}
use keyserver_rust.Http.{Response, respond, status_ok}
use keyserver_rust.Errors.{
  ServerError, validation, from_rocks, from_validation, from_address, not_found, metadata_decode,
  payload_decode, unsupported_sig_scheme,
}
use keyserver_rust.Crypto.{validate, secp256k1}
use keyserver_rust.Db.{get, put, check_timestamp}

-- `while let Some(item) = payload.next().await { raw.extend_from_slice(&item.map_err(|_| e)?) }`
unfoldable pub read_body : {E : Type 0} → E → Bytes → List (Option Bytes) → Outcome E Bytes
read_body e raw [] = done raw
read_body e raw (none ∷ items) = fail e
read_body e raw (some item ∷ items) = read_body e (raw ++ item) items

module _ (x : Crates) where
  -- `Address::decode(s)?`
  abbrev pub decode_address : Bytes → Outcome (ServerError x) x.Address
  decode_address s = try from_address (x.decode s)

  unfoldable pub get_key : Bytes → ℕ → Exec x.Db (ServerError x) Response
  get_key addr_str now = do
    addr ← lift (decode_address addr_str)
    found ← exec_map_err from_rocks (get x addr now)
    metadata ← lift (ok_or not_found found)
    pure (respond status_ok (x.encode_metadata metadata))

  -- `match metadata.scheme`
  unfoldable pub check_scheme : x.Address → AddressMetadata → Outcome (ServerError x) (Unit {0})
  check_scheme addr metadata =
      if metadata.scheme == 1
      then map_err validation (validate x (secp256k1 x.secp) addr metadata)
      else fail unsupported_sig_scheme

  -- `put_key` up to the database: the address, the metadata and its payload.
  unfoldable pub read_put :
      Bytes → List (Option Bytes) → Outcome (ServerError x) (x.Address × AddressMetadata × Payload)
  unfolding read_body check_scheme
  read_put addr_str items = Steps.◌>>=◌ (read_body metadata_decode [] items) λ metadata_raw.
      Steps.◌>>=◌ (ok_or metadata_decode (x.decode_metadata metadata_raw)) λ metadata.
        Steps.◌>>=◌ (decode_address addr_str) λ addr. Steps.◌>>=◌ (check_scheme addr metadata) λ _.
          Steps.◌>>=◌ (ok_or payload_decode (x.decode_payload metadata.serialized_payload))
            λ payload. done (addr, metadata, payload)

  -- The rest of `put_key`: the age is checked and the metadata stored.
  unfoldable pub store_put :
      x.Address → AddressMetadata → Payload → ℕ → ℕ → Exec x.Db (ServerError x) Response
  store_put addr metadata payload now later = do
    checked ← exec_map_err from_rocks (check_timestamp x addr payload now later)
    lift (try from_validation checked)
    exec_map_err from_rocks (put x addr metadata)
    pure (respond status_ok [])

  unfoldable pub put_key : Bytes → List (Option Bytes) → ℕ → ℕ → Exec x.Db (ServerError x) Response
  unfolding read_put store_put
  put_key addr_str items now later = do
    parsed ← lift (read_put addr_str items)
    store_put parsed.0 parsed.1 parsed.2 now later
