-- ===== src/Errors.antt =====
-- src/net/errors.rs and src/crypto/errors.rs: the errors, their messages and their responses.
pub mod Statuses
use keyserver_rust.Prelude.{◌++◌, Outcome, done, fail, panic}
use keyserver_rust.Prelude.Bytes.{Bytes, text}
use keyserver_rust.Crates.{Crates}
use keyserver_rust.Http.{
  Response, respond, status_bad_request, status_payment_required, status_not_found,
  status_not_acceptable, status_unsupported_media_type, status_internal_server_error,
}

pub data CryptoError : Type 0 where
  pubkey_deserialization sig_deserialization verification : CryptoError

unfoldable pub show_crypto : CryptoError → Bytes
show_crypto pubkey_deserialization = text "invalid pubkey"
show_crypto sig_deserialization = text "invalid signature"
show_crypto verification = text "verification failed"

pub data ValidationError : Type 0 where
  key_type preimage outdated expired_ttl : ValidationError
  crypto : CryptoError → ValidationError

unfoldable pub show_validation : ValidationError → Bytes
unfolding show_crypto
show_validation key_type = text "bad key type"
show_validation preimage = text "digest mismatch"
show_validation outdated = text "metadata is outdated"
show_validation expired_ttl = text "expired TTL"
show_validation (crypto e) = show_crypto e

-- `Into<ValidationError> for CryptoError`
abbrev pub into_validation : CryptoError → ValidationError
into_validation e = ValidationError.crypto e

unfoldable pub crypto_response : CryptoError → Response
crypto_response pubkey_deserialization =
    respond status_bad_request (show_crypto pubkey_deserialization)
crypto_response sig_deserialization = respond status_bad_request (show_crypto sig_deserialization)
crypto_response verification = respond status_bad_request (show_crypto verification)

unfoldable pub validation_response : ValidationError → Response
unfolding crypto_response
validation_response (crypto e) = crypto_response e
validation_response key_type = respond status_bad_request (show_validation key_type)
validation_response preimage = respond status_bad_request (show_validation preimage)
validation_response outdated = respond status_bad_request (show_validation outdated)
validation_response expired_ttl = respond status_bad_request (show_validation expired_ttl)

pub data PaymentError (x : Crates) : Type 0 where
  content accept decode payload no_merchant_dat invalid_merchant_dat : PaymentError x
  invalid_auth no_token uri_malformed no_tx : PaymentError x
  tx_deserialize : x.TxError → PaymentError x
  invalid_outputs invalid_tx mismatched_network addr_fetch_failed : PaymentError x

pub data ServerError (x : Crates) : Type 0 where
  db : x.RocksError → ServerError x
  validation : ValidationError → ServerError x
  crypto : CryptoError → ServerError x
  not_found metadata_decode payload_decode unsupported_sig_scheme : ServerError x
  payment : PaymentError x → ServerError x
  address : x.CashError → x.Base58Error → ServerError x

-- The conversions of `?` and `into`.
module _ {x : Crates} where
  abbrev pub from_address : x.CashError × x.Base58Error → ServerError x
  from_address (cash_err, base58_err) = address cash_err base58_err

  abbrev pub from_rocks : x.RocksError → ServerError x
  from_rocks err = db err

  abbrev pub from_validation : ValidationError → ServerError x
  from_validation err = validation err

  abbrev pub from_payment : PaymentError x → ServerError x
  from_payment err = payment err

  abbrev pub from_tx : x.TxError → PaymentError x
  from_tx err = tx_deserialize err

module _ (x : Crates) where
  unfoldable pub show_payment : PaymentError x → Bytes
  show_payment content = text "invalid content-type"
  show_payment accept = text "not acceptable"
  show_payment decode = text "failed to decode body"
  show_payment payload = text "failed to receive payload"
  show_payment no_merchant_dat = text "no merchant data"
  show_payment invalid_merchant_dat = text "invalid merchant data"
  show_payment no_token = text "no token"
  show_payment invalid_auth = text "invalid authorization"
  show_payment uri_malformed = text "malformed URI"
  show_payment no_tx = text "no payment tx"
  show_payment (tx_deserialize e) = text "payment tx malformed"
  show_payment invalid_outputs = text "invalid outputs"
  show_payment invalid_tx = text "invalid tx"
  show_payment addr_fetch_failed = text "failed to fetch address"
  show_payment mismatched_network = text "address mismatched with node network"

  unfoldable pub payment_response : PaymentError x → Response
  payment_response accept = respond status_not_acceptable (show_payment accept)
  payment_response content = respond status_unsupported_media_type (show_payment content)
  payment_response no_merchant_dat = respond status_bad_request (show_payment no_merchant_dat)
  payment_response payload = respond status_bad_request (show_payment payload)
  payment_response decode = respond status_bad_request (show_payment decode)
  payment_response invalid_merchant_dat =
      respond status_bad_request (show_payment invalid_merchant_dat)
  payment_response invalid_auth = respond status_payment_required (show_payment invalid_auth)
  payment_response no_token = respond status_payment_required (show_payment no_token)
  payment_response uri_malformed = respond status_bad_request (show_payment uri_malformed)
  payment_response no_tx = respond status_bad_request (show_payment no_tx)
  payment_response (tx_deserialize e) = respond status_bad_request (show_payment (tx_deserialize e))
  payment_response invalid_outputs = respond status_bad_request (show_payment invalid_outputs)
  payment_response invalid_tx = respond status_bad_request (show_payment invalid_tx)
  payment_response mismatched_network = respond status_bad_request (show_payment mismatched_network)
  payment_response addr_fetch_failed =
      respond status_internal_server_error (show_payment addr_fetch_failed)

  unfoldable pub show_server : ServerError x → Bytes
  unfolding show_payment show_validation show_crypto
  show_server (db e) = x.show_rocks e
  show_server (crypto e) = show_crypto e
  show_server not_found = text "not found"
  show_server metadata_decode = text "metadata decoding error"
  show_server payload_decode = text "payload decoding error"
  show_server unsupported_sig_scheme = text "signature scheme not supported"
  show_server (payment e) = show_payment e
  show_server (validation e) = show_validation e
  show_server (address cash_err base58_err) =
      x.show_cash cash_err ++ (text ", " ++ x.show_base58 base58_err)

  unfoldable pub error_response : ServerError x → Response
  unfolding validation_response crypto_response payment_response
  error_response (validation e) = validation_response e
  -- Do not yield sensitive information to clients
  error_response (db e) = respond status_internal_server_error (text "internal db error")
  error_response not_found = respond status_not_found (show_server not_found)
  error_response metadata_decode = respond status_bad_request (show_server metadata_decode)
  error_response payload_decode = respond status_bad_request (show_server payload_decode)
  error_response unsupported_sig_scheme =
      respond status_bad_request (show_server unsupported_sig_scheme)
  error_response (crypto e) = crypto_response e
  error_response (payment e) = payment_response e
  error_response (address cash_err base58_err) =
      respond status_bad_request (show_server (address cash_err base58_err))

  -- The framework answers an error of a route by its response, and hands on the middleware's.
  unfoldable pub answer_route : Outcome (ServerError x) Response → Outcome (ServerError x) Response
  unfolding error_response
  answer_route (done resp) = done resp
  answer_route (fail e) = done (error_response e)
  answer_route panic = panic
