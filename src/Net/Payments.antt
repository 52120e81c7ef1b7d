-- ===== src/Net/Payments.antt =====
-- `payment_handler` of src/net/payments.rs. The state is the wallet's; what the node answers is an
-- argument, and the body comes as its chunks, with `none` for one that could not be received.
pub mod Handled
use keyserver_rust.Prelude.{
  Bool, false, not, Result, ok, err, Option, none, some, List, [], ◌∷◌, ◌++◌, Outcome, done, fail,
  panic, try, map_err, ok_or, if◌then◌else◌,
}
use keyserver_rust.Prelude.Bytes.{Bytes, text, bytes_eq}
use keyserver_rust.Prelude.Utf8.{from_utf8}
use keyserver_rust.Prelude.Steps.{◌>>=◌}
use keyserver_rust.Prelude.Exec.{Exec, continue}
use keyserver_rust.Models.{Payment, PaymentAck, Transaction}
use keyserver_rust.Crates.{Crates, Rpc}
use keyserver_rust.Http.{
  Request, Response, HeaderName, accept, authorization, content_type, location, pragma,
  status_accepted,
}
use keyserver_rust.Errors.{
  PaymentError, ServerError, payment, payload_decode, decode, no_merchant_dat, invalid_merchant_dat,
  no_tx, from_payment, from_tx, invalid_outputs, invalid_tx,
}
use keyserver_rust.Settings.{Settings}
use keyserver_rust.Bitcoin.Wallet.{WalletState, check_outputs}
use keyserver_rust.Bitcoin.Client.{BitcoinError, send_tx}
use keyserver_rust.Crypto.Token.{generate_token}
use keyserver_rust.Net.Keys.{read_body}

-- `headers.get(name) == Some(&value)`
abbrev pub header_is : Option Bytes → Bytes → Bool
header_is none value = false
header_is (some v) value = bytes_eq v value

-- `transactions.get(0)`
abbrev pub first : {A : Type 0} → List A → Option A
first [] = none
first (t ∷ ts) = some t

module _ (x : Crates) where
  -- The two tests of the headers.
  unfoldable pub check_headers : Request → Outcome (ServerError x) (Unit {0})
  check_headers req =
      if not (header_is (req.header content_type) (text "application/bitcoincash-payment"))
      then fail (payment PaymentError.accept)
      else if not (header_is (req.header accept) (text "application/bitcoincash-paymentack"))
      then fail (payment PaymentError.content)
      else done tt

  -- The handler up to the wallet: the payment, its first transaction raw, and that transaction.
  unfoldable pub read_payment :
      Request → List (Option Bytes) → Outcome (ServerError x) (Payment × Bytes × Transaction)
  unfolding check_headers
  read_payment req items = check_headers req >>= λ _.
      read_body payload_decode [] items >>= λ payment_raw.
      ok_or (payment decode) (x.decode_payment payment_raw) >>= λ p.
      ok_or (payment no_tx) (first p.transactions) >>= λ tx_raw.
      try (λ e. from_payment (from_tx e)) (x.decode_tx tx_raw) >>= λ tx. done (p, tx_raw, tx)

  unfoldable pub acknowledgement : Payment → Bytes
  acknowledgement p =
      x.encode_ack (record { payment = p; memo = some (text "Thanks for your custom!") })

  -- `format!("POP {}", token)`, with the token of the merchant data in base64
  unfoldable pub pop_header : Settings → Bytes → Bytes
  pop_header settings merchant_data =
      text "POP " ++ x.base64_encode (generate_token x merchant_data settings.secret)

  unfoldable pub accepted : Settings → Payment → Bytes → Bytes → Response
  unfolding acknowledgement pop_header
  accepted settings p merchant_data redirect_url = record {
    status = status_accepted;
    headers =
        (location, redirect_url)
        ∷ (authorization, pop_header settings merchant_data)
        ∷ (pragma, text "no-cache")
        ∷ [];
    body = acknowledgement p;
  }

  -- The handler after the wallet: the transaction is sent and the token made.
  unfoldable pub complete : Settings → Rpc → Payment → Bytes → Outcome (ServerError x) Response
  unfolding accepted
  complete settings r p tx_raw = map_err (λ _. payment invalid_tx) (send_tx r x tx_raw) >>= λ _.
      ok_or (payment no_merchant_dat) p.merchant_data >>= λ merchant_data.
      ok_or (payment invalid_merchant_dat) (from_utf8 merchant_data) >>= λ s.
      ok_or (payment invalid_merchant_dat) (x.parse_url s) >>= λ redirect_url.
      done (accepted settings p merchant_data redirect_url)

  unfoldable pub after_check :
      Settings → Rpc → Payment → Bytes → Bool → Outcome (ServerError x) Response
  unfolding complete
  after_check settings r p tx_raw hit =
      if not hit then fail (payment invalid_outputs) else complete settings r p tx_raw

  unfoldable pub payment_handler :
      Settings → Rpc → Request → List (Option Bytes) → Exec WalletState (ServerError x) Response
  unfolding read_payment after_check
  payment_handler settings r req items w =
      continue (read_payment req items)
        (λ read w. (
          after_check settings r read.0 read.1 (check_outputs read.2 w).0,
          (check_outputs read.2 w).1,
        ))
        w
