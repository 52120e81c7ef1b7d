-- ===== src/Server/Scenarios.antt =====
-- The test `test_put_payment` of src/net/payments.rs: a put without a token, the payment of its invoice,
-- and the put again, against the resources of keys and of payments on one wallet and one database. A
-- failed assertion and an `unwrap` of an error are panics; amounts are in units of 10⁻⁸.
pub mod Paying
pub mod Requests
pub mod Purchase
use keyserver_rust.Prelude.{
  ℕ, Option, none, some, List, [], ◌∷◌, ◌++◌, Outcome, done, fail, panic, unwrap,
}
use keyserver_rust.Prelude.Bytes.{Bytes, text}
use keyserver_rust.Prelude.Int.{ℤ, pos, ◌-ℤ◌}
use keyserver_rust.Prelude.Assert.{assert, assert_eq, assert_eq_bytes, unwrap_outcome, slice_of}
use keyserver_rust.Prelude.Steps
use keyserver_rust.Prelude.Exec.{Exec, pure, lift, ◌>>=◌, ◌>>◌}
use keyserver_rust.Models.{PaymentDetails, Payment}
use keyserver_rust.Models.Equal.{payment_eq}
use keyserver_rust.Crates.{Crates, Rpc}
use keyserver_rust.Crates.Client.{Client}
use keyserver_rust.Crates.Payer.{Outpoint, Location, Payer}
use keyserver_rust.Http.{
  Request, Response, Method, HeaderName, put_method, other_method, accept, authorization,
  content_type, location, find_header, respond, status_ok, status_accepted, status_not_found,
  status_not_acceptable, status_unsupported_media_type,
}
use keyserver_rust.Errors.{answer_route, ServerError, error_response}
use keyserver_rust.Settings.{Settings}
use keyserver_rust.Bitcoin.Network.{into_addr_network}
use keyserver_rust.Bitcoin.Script.{price}
use keyserver_rust.Bitcoin.Wallet.{WalletState}
use keyserver_rust.Net.Keys.{put_key}
use keyserver_rust.Net.Keys.Scenarios.{generate_address_metadata}
use keyserver_rust.Net.Payments.{first}
use keyserver_rust.Net.CheckPayment.{call}
use keyserver_rust.Net.CheckPayment.Scenarios.{test_key_path, test_put_request}
use keyserver_rust.Server.Routes.{Target, keys, payments, elsewhere, Router}
use keyserver_rust.Server.App.{Exchange, pay_route}

abbrev pub no_headers : HeaderName → Option Bytes
no_headers name = none

-- `.header(name, value)` on a request's headers.
abbrev pub ack_header : (HeaderName → Option Bytes) → HeaderName → Option Bytes
ack_header headers accept = some (text "application/bitcoincash-paymentack")
ack_header headers name = headers name

abbrev pub payment_type_header : (HeaderName → Option Bytes) → HeaderName → Option Bytes
payment_type_header headers content_type = some (text "application/bitcoincash-payment")
payment_type_header headers name = headers name

abbrev pub auth_header : Bytes → HeaderName → Option Bytes
auth_header auth authorization = some auth
auth_header auth name = none

-- The host of a request's URI, with its port.
abbrev pub authority : Location → Bytes
authority loc = host_of loc.host ++ port_of loc.port
  where
    host_of : Option Bytes → Bytes
    host_of none = []
    host_of (some h) = h

    port_of : Option Bytes → Bytes
    port_of none = []
    port_of (some p) = text ":" ++ p

-- `test::TestRequest::…().uri(…)…to_request()`
abbrev pub request_at : Method → (HeaderName → Option Bytes) → Location → Request
request_at method headers loc = record {
  method = method;
  header = headers;
  scheme = loc.scheme;
  host = authority loc;
  path = loc.path;
  query = none;
}

-- The outputs of the transaction: the price to the address, and the change but for the fee.
abbrev pub tx_outputs : Outpoint → Bytes → List (Bytes × ℤ)
tx_outputs utxo to = (to, pos price) ∷ (utxo.address, utxo.amount -ℤ pos price -ℤ pos 400) ∷ []

module _ (x : Crates) (c : Client x) where
  unfoldable pub read_invoice : Response → Outcome ⊥ PaymentDetails
  read_invoice resp =
      Steps.◌>>=◌ (unwrap (c.decode_request resp.body))
        λ invoice. unwrap (c.decode_details invoice.serialized_payment_details)

module _ (x : Crates) (settings : Settings) (c : Client x) (p : Payer x) where
  unfoldable pub generate_raw_tx : Bytes → Outcome ⊥ Bytes
  generate_raw_tx recv_addr = Steps.◌>>=◌ (unwrap p.list_unspent) λ utxos.
      Steps.◌>>=◌ (unwrap (first utxos)) λ utxo.
        Steps.◌>>=◌ (unwrap (c.encode_base58 recv_addr (into_addr_network settings.network))) λ to.
          Steps.◌>>=◌ (unwrap (p.create_raw_transaction utxo.txid utxo.vout (tx_outputs utxo to)))
            λ unsigned.
              Steps.◌>>=◌ (unwrap (p.sign_raw_transaction unsigned))
                λ hex. unwrap (p.hex_decode hex)

  -- The payment of an invoice, to the hash in its first script.
  unfoldable pub make_payment : PaymentDetails → Outcome ⊥ Payment
  unfolding generate_raw_tx slice_of
  make_payment details = Steps.◌>>=◌ (unwrap (first details.outputs)) λ p2pkh.
      Steps.◌>>=◌ (slice_of 3 23 p2pkh.script) λ addr. Steps.◌>>=◌ (generate_raw_tx addr) λ tx.
        done (record {
          merchant_data = details.merchant_data;
          memo = none;
          refund_to = [];
          transactions = tx ∷ [];
        })

module _ (x : Crates) (settings : Settings) (router : Router) where
  -- The one route of the resource of keys.
  unfoldable pub put_route : Method → Exchange → Exec x.Db (ServerError x) Response
  put_route put_method e d = (
    answer_route x (put_key x (router.addr e.request) e.items e.now e.later d).0,
    (put_key x (router.addr e.request) e.items e.now e.later d).1,
  )
  put_route (other_method name) e d = (done router.no_route, d)

  -- The application of the test, by where a request goes.
  unfoldable pub test_app_at :
      Target → Exchange → Exec (WalletState × x.Db) (ServerError x) Response
  unfolding put_route
  test_app_at keys e s = call x settings (λ req. put_route req.method e) e.rpc e.request e.time s
  test_app_at payments e s = (
    answer_route x (pay_route x settings router e.request.method e s).0,
    (pay_route x settings router e.request.method e s).1,
  )
  test_app_at elsewhere e s = (done (respond status_not_found []), s)

  -- `test::call_service(&mut app, req).await`
  unfoldable pub call_service : Exchange → Exec (WalletState × x.Db) ⊥ Response
  unfolding test_app_at
  call_service e s = (
    unwrap_outcome (test_app_at (router.target e.request) e s).0,
    (test_app_at (router.target e.request) e s).1,
  )

  module _ (p : Payer x) (r : Rpc) (clock : ℕ → ℕ × ℕ × ℕ) where
    -- The i-th request of the test, with its body and the readings of the clock meanwhile.
    abbrev pub request : ℕ → Request → Bytes → Exec (WalletState × x.Db) ⊥ Response
    request i req raw = call_service (record {
      rpc = r;
      request = req;
      items = some raw ∷ [];
      time = (clock i).0;
      now = (clock i).1;
      later = (clock i).2;
    })

    abbrev pub post :
        ℕ → (HeaderName → Option Bytes) → Location → Bytes → Exec (WalletState × x.Db) ⊥ Response
    post i headers loc raw = request i (request_at (other_method (text "POST")) headers loc) raw

    -- The three posts of the payment, of which only the last has both headers.
    unfoldable pub pay : Payment → Bytes → Exec (WalletState × x.Db) ⊥ Response
    unfolding assert_eq
    pay payment payment_url = do
      loc ← lift (unwrap (p.locate payment_url))
      let raw = p.encode_payment payment
      without_type ← post 1 (ack_header no_headers) loc raw
      lift (assert_eq without_type.status status_not_acceptable)
      without_accept ← post 2 (payment_type_header no_headers) loc raw
      lift (assert_eq without_accept.status status_unsupported_media_type)
      resp ← post 3 (ack_header (payment_type_header no_headers)) loc raw
      lift (assert_eq resp.status status_accepted)
      ack ← lift (unwrap (p.decode_ack resp.body))
      lift (assert (payment_eq payment ack.payment))
      pure resp

    -- The put again, at the answer's location and with its authorization.
    unfoldable pub redeem : Bytes → Bytes → Response → Exec (WalletState × x.Db) ⊥ (Unit {0})
    unfolding assert_eq assert_eq_bytes
    redeem key_url metadata_raw resp = do
      auth ← lift (unwrap (find_header authorization resp.headers))
      value ← lift (unwrap (find_header location resp.headers))
      url ← lift (unwrap (x.to_str value))
      loc ← lift (unwrap (p.locate url))
      host ← lift (unwrap loc.host)
      port ← lift (unwrap loc.port)
      lift (
          assert_eq_bytes (loc.scheme ++ (text "://" ++ (host ++ (text ":" ++ (port ++ loc.path)))))
            key_url)
      last ← request 4 (request_at put_method (auth_header auth) loc) metadata_raw
      lift (assert_eq last.status status_ok)

    unfoldable pub test_put_payment :
        (c : Client x) → c.SecretKey → ℕ → Exec (WalletState × x.Db) ⊥ (Unit {0})
    test_put_payment c sk made = do
      generated ← lift (generate_address_metadata x c sk settings.network made)
      invoiced ← request 0 (test_put_request generated.0) generated.1
      details ← lift (read_invoice x c invoiced)
      payment ← lift (make_payment x settings c p details)
      payment_url ← lift (unwrap details.payment_url)
      resp ← pay payment payment_url
      redeem (test_key_path generated.0) generated.1 resp
