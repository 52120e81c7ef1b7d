-- ===== src/Net/CheckPayment/Scenarios.antt =====
-- The test `test_put_no_token` of src/net/payments.rs as a run of the middleware around `put_key`. A
-- failed assertion and an `unwrap` of an error are panics; the drawn key, the settings, the node's
-- answers and the readings of the clock are arguments.
pub mod NoToken
use keyserver_rust.Prelude.{
  ℕ, Bool, true, false, Option, none, some, List, [], ◌∷◌, ◌++◌, Outcome, done, fail, panic, unwrap,
  ltb, leb,
}
use keyserver_rust.Prelude.Bytes.{Bytes, text}
use keyserver_rust.Prelude.Assert.{assert, assert_eq, assert_eq_bytes, unwrap_outcome}
use keyserver_rust.Prelude.Steps
use keyserver_rust.Prelude.Exec.{Exec, lift, ◌>>=◌}
use keyserver_rust.Crates.{Crates, Rpc}
use keyserver_rust.Crates.Client.{Client}
use keyserver_rust.Http.{Request, Response, put_method, status_payment_required}
use keyserver_rust.Errors.{ServerError, error_response, answer_route}
use keyserver_rust.Settings.{Settings}
use keyserver_rust.Bitcoin.Wallet.{WalletState}
use keyserver_rust.Net.Keys.{put_key}
use keyserver_rust.Net.Keys.Scenarios.{generate_address_metadata}
use keyserver_rust.Net.CheckPayment.{call}

-- The URL of a key, and the put of it, without a header.
abbrev pub test_key_path : Bytes → Bytes
test_key_path addr_str = text "http://localhost:8080/keys/" ++ addr_str

abbrev pub test_put_request : Bytes → Request
test_put_request addr_str = record {
  method = put_method;
  header = λ name. none;
  scheme = text "http";
  host = text "localhost:8080";
  path = text "/keys/" ++ addr_str;
  query = none;
}

module _ (x : Crates) where
  -- `App::new().data(key_db).wrap(CheckPayment::new(..)).route("/keys/{addr}", put_key)`
  abbrev pub wrapped :
      Settings → Rpc → Bytes → Bytes → ℕ → ℕ → ℕ → Exec (WalletState × x.Db) ⊥ Response
  wrapped settings r addr_str raw time now later s =
      let answered =
        call x settings
          (λ req d. (
            answer_route x (put_key x addr_str (some raw ∷ []) now later d).0,
            (put_key x addr_str (some raw ∷ []) now later d).1,
          ))
          r (test_put_request addr_str) time s in
      (unwrap_outcome answered.0, answered.1)

  module _ (c : Client x) where
    -- The assertions on the invoice.
    unfoldable pub check_invoice : Bytes → ℕ → Response → Outcome ⊥ (Unit {0})
    unfolding assert_eq assert_eq_bytes
    check_invoice url checked resp =
        Steps.◌>>=◌ (assert_eq resp.status status_payment_required) λ _.
          Steps.◌>>=◌ (unwrap (c.decode_request resp.body)) λ invoice.
            Steps.◌>>=◌ (unwrap (c.decode_details invoice.serialized_payment_details)) λ details.
              Steps.◌>>=◌ (unwrap details.network) λ network.
                Steps.◌>>=◌ (assert_eq_bytes network (text "regnet")) λ _.
                  Steps.◌>>=◌ (unwrap details.expires) λ expires.
                    Steps.◌>>=◌ (assert (ltb details.time expires)) λ _.
                      Steps.◌>>=◌ (assert (leb details.time checked)) λ _.
                        Steps.◌>>=◌ (unwrap details.payment_url) λ payment_url.
                          Steps.◌>>=◌
                            (assert_eq_bytes payment_url (text "http://localhost:8080/payments"))
                            λ _.
                              Steps.◌>>=◌ (unwrap details.merchant_data)
                                λ merchant_data. assert_eq_bytes merchant_data url

    unfoldable pub test_put_no_token :
        c.SecretKey
        → Settings
        → Rpc
        → (made time now later checked : ℕ) → Exec (WalletState × x.Db) ⊥ (Unit {0})
    unfolding answer_route check_invoice
    test_put_no_token sk settings r made time now later checked = do
      generated ← lift (generate_address_metadata x c sk settings.network made)
      resp ← wrapped settings r generated.0 generated.1 time now later
      lift (check_invoice (test_key_path generated.0) checked resp)
