-- ===== src/Net/CheckPayment.antt =====
-- The middleware `CheckPayment` of src/net/payments.rs: a PUT passes only with a token; without one
-- it is answered by an invoice. The clock and the node's answers are arguments. The token is looked
-- for in the authorization header alone: the query string of a request is not looked at.
pub mod Tokens
pub mod Invoices
pub mod Service
pub mod Totality
pub mod Scenarios
use keyserver_rust.Prelude.{
  ℕ, ◌+◌, Bool, not, ◌||◌, ◌&&◌, Result, ok, err, Option, none, some, List, [], ◌∷◌, ◌++◌, Outcome,
  done, fail, panic, try, map_err, ok_or, leb, length, if◌then◌else◌,
}
use keyserver_rust.Prelude.Bytes.{Bytes, text, bytes_eq, str_from, str_to}
use keyserver_rust.Prelude.Steps.{◌>>=◌}
use keyserver_rust.Prelude.Exec.{Exec, continue}
use keyserver_rust.Models.{PaymentDetails, PaymentRequest, Output}
use keyserver_rust.Crates.{Crates, Rpc}
use keyserver_rust.Http.{
  Request, Response, HeaderName, Method, put_method, other_method, authorization, content_type,
  transfer_encoding, status_payment_required,
}
use keyserver_rust.Errors.{
  PaymentError, ServerError, payment, address, invalid_auth, mismatched_network, addr_fetch_failed,
  error_response,
}
use keyserver_rust.Settings.{Settings}
use keyserver_rust.Bitcoin.Network.{from_addr_network, network_eq, to_string}
use keyserver_rust.Bitcoin.Script.{generate_outputs}
use keyserver_rust.Bitcoin.Wallet.{WalletState, add}
use keyserver_rust.Bitcoin.Client.{get_new_addr}
use keyserver_rust.Crypto.Token.{validate_token}
use keyserver_rust.Net.Keys.{decode_address}

abbrev pub valid_duration : ℕ
valid_duration = 30

abbrev pub payment_path : Bytes
payment_path = text "/payments"

-- What becomes of a request: it goes to the inner service, or it is answered here.
pub data Decision : Type 0 where
  forward : Decision
  answer : Response → Decision

unfoldable pub base_url : Request → Bytes
base_url req = req.scheme ++ (text "://" ++ req.host)

unfoldable pub merchant_url : Request → Bytes
unfolding base_url
merchant_url req = base_url req ++ req.path

module _ (x : Crates) where
  -- `&auth_str[0..4] == "POP "`, then `auth_str[4..]`
  unfoldable pub cut_pop : Bytes → Outcome (ServerError x) Bytes
  cut_pop auth_str =
      if leb 4 (length auth_str)
      then (str_to 4 auth_str >>= λ head.
          if bytes_eq head (text "POP ") then str_from 4 auth_str else fail (payment invalid_auth))
      else fail (payment invalid_auth)

  -- The token string of an authorization header.
  unfoldable pub token_string : Bytes → Outcome (ServerError x) Bytes
  unfolding cut_pop
  token_string value = ok_or (payment invalid_auth) (x.to_str value) >>= cut_pop

module _ (x : Crates) (settings : Settings) where
  -- The refusal of a token, answered here.
  abbrev refused : Decision
  refused = answer (error_response x (payment invalid_auth))

  unfoldable pub check_token : Request → Option Bytes → Outcome (ServerError x) Decision
  check_token req none = done refused
  check_token req (some token) =
      done (
        if not (validate_token x (merchant_url req) settings.secret token)
        then refused
        else forward)

  unfoldable pub authorize : Request → Bytes → Outcome (ServerError x) Decision
  unfolding token_string check_token
  authorize req value =
      token_string x value >>= λ token_str. check_token req (x.base64_decode token_str)

  unfoldable pub check_network : x.Address → Outcome (ServerError x) x.Address
  check_network addr =
      if not (network_eq (from_addr_network (x.addr_network addr)) settings.network)
        || not (x.is_key_hash addr)
      then fail (payment mismatched_network)
      else done addr

  -- The block `new_addr` up to the wallet: a fresh address of the node, on the right network.
  unfoldable pub fresh_address : Rpc → Outcome (ServerError x) x.Address
  unfolding check_network
  fresh_address r = map_err (λ _. payment addr_fetch_failed) (get_new_addr r) >>= λ addr_str.
      decode_address x addr_str >>= check_network

  unfoldable pub payment_details : Request → ℕ → Bytes → Bytes → PaymentDetails
  payment_details req now addr_raw put_body = record {
    network = some (to_string settings.network);
    outputs = generate_outputs addr_raw (base_url req) put_body;
    time = now;
    expires = some (now + valid_duration);
    memo = none;
    payment_url = some (base_url req ++ payment_path);
    merchant_data = some (merchant_url req);
  }

  unfoldable pub invoice : PaymentDetails → Response
  invoice details = record {
    status = status_payment_required;
    headers =
        (content_type, text "application/bitcoincash-paymentrequest")
        ∷ (transfer_encoding, text "binary")
        ∷ [];
    body = x.encode_request (record {
      payment_details_version = some 1;
      pki_type = some (text "none");
      pki_data = none;
      serialized_payment_details = x.encode_details details;
      signature = none;
    });
  }

  -- Without a token: the address of the path is decoded before the node is asked for a new one.
  unfoldable pub put_address : Request → Outcome (ServerError x) x.Address
  put_address req = str_from 6 req.path >>= λ put_addr_str. decode_address x put_addr_str

  -- The two addresses: the path's, then the node's.
  unfoldable pub addresses : Rpc → Request → Outcome (ServerError x) (x.Address × x.Address)
  unfolding put_address fresh_address
  addresses r req =
      put_address req >>= λ put_addr. fresh_address r >>= λ addr. done (put_addr, addr)

  unfoldable pub invoice_for :
      Request → ℕ → x.Address × x.Address → WalletState → Decision × WalletState
  unfolding payment_details invoice
  invoice_for req now (put_addr, addr) w = (
    answer (invoice (payment_details req now (x.body addr) (x.body put_addr))),
    add (x.body addr) w,
  )

  unfoldable pub issue_invoice : Rpc → Request → ℕ → Exec WalletState (ServerError x) Decision
  unfolding addresses invoice_for
  issue_invoice r req now w =
      continue (addresses r req)
        (λ both w. (done (invoice_for req now both w).0, (invoice_for req now both w).1)) w

  unfoldable pub check_authorization :
      Rpc → Request → ℕ → Option Bytes → Exec WalletState (ServerError x) Decision
  unfolding authorize issue_invoice
  check_authorization r req now none w = issue_invoice r req now w
  check_authorization r req now (some value) w = (authorize req value, w)

  unfoldable pub decide_put : Rpc → Request → ℕ → Method → Exec WalletState (ServerError x) Decision
  unfolding check_authorization
  decide_put r req now put_method w = check_authorization r req now (req.header authorization) w
  decide_put r req now (other_method name) w = (done forward, w)

  -- What `call` does before the inner service.
  unfoldable pub decide : Rpc → Request → ℕ → Exec WalletState (ServerError x) Decision
  unfolding decide_put
  decide r req now w = decide_put r req now req.method w

  module _ {S : Type 0} (service : Request → Exec S (ServerError x) Response) where
    -- The wallet is put beside the state of the inner service.
    unfoldable pub follow : Request → Decision → Exec (WalletState × S) (ServerError x) Response
    follow req (answer resp) s = (done resp, s)
    follow req forward (w, s) = ((service req s).0, (w, (service req s).1))

    -- `Service::call`
    unfoldable pub call : Rpc → Request → ℕ → Exec (WalletState × S) (ServerError x) Response
    unfolding decide follow
    call r req now (w, s) = continue (decide r req now w).0 (follow req) ((decide r req now w).1, s)
