-- ===== src/Errors/Statuses.antt =====
-- What the responses to errors of src/net/errors.rs tell a client.
use keyserver_rust.Prelude.{ℕ, ◌≡◌, refl, arith, false, true, Bool, if◌then◌else◌}
use keyserver_rust.Prelude.Bytes.{text}
use keyserver_rust.Crates.{Crates}
use keyserver_rust.Errors.{
  ServerError, db, validation, payment, not_found, show_server, error_response, PaymentError,
  addr_fetch_failed, invalid_auth, no_token,
}

module _ (x : Crates) where
  -- The errors that are the server's own fault.
  abbrev pub is_fault : ServerError x → Bool
  is_fault (db e) = true
  is_fault (payment addr_fetch_failed) = true
  is_fault _ = false

  abbrev pub is_db : ServerError x → Bool
  is_db (db e) = true
  is_db _ = false

  -- The errors of a client that has not paid.
  abbrev pub is_unpaid : ServerError x → Bool
  is_unpaid (payment invalid_auth) = true
  is_unpaid (payment no_token) = true
  is_unpaid _ = false

  -- The status of what remains: a missing key and two headers have their own, the rest is bad.
  abbrev pub refusal : ServerError x → ℕ
  refusal not_found = 404
  refusal (payment PaymentError.accept) = 406
  refusal (payment PaymentError.content) = 415
  refusal _ = 400

  -- The server's own faults are answered by 500, clients that have not paid by 402, a missing key
  -- by 404, the errors `Accept` and `Content` by 406 and 415, and every other error by 400; the
  -- body is the error's message, but for a database error, whose message is not sent.
  pub error_response_lem :
      (e : ServerError x)
      → ((error_response x e).status
          ≡ (if is_fault e then 500 else if is_unpaid e then 402 else refusal e))
        × ((error_response x e).body
            ≡ (if is_db e then text "internal db error" else show_server x e))
  unfolding error_response show_server
  error_response_lem (db e) = (refl, refl)
  error_response_lem (payment e) = ground arith
  error_response_lem (validation e) = ground arith
  error_response_lem (ServerError.crypto e) = ground arith
  error_response_lem not_found = (refl, refl)
  error_response_lem _ = (refl, refl)
