-- ===== src/Tests/Payments.antt =====
-- The payment endpoint at concrete inputs.
use keyserver_rust.Prelude.{
  ◌≡◌, refl, Option, none, some, List, [], ◌∷◌, ◌++◌, done, fail, replicate, take, drop,
}
use keyserver_rust.Prelude.Bytes.{Bytes, text, bytes_eq, str_from, str_to, is_char_boundary}
use keyserver_rust.Prelude.Utf8.{from_utf8}
use keyserver_rust.Models.{Payment, Transaction}
use keyserver_rust.Http.{Request, Response, HeaderName, put_method, other_method}
use keyserver_rust.Errors.{payment, PaymentError, invalid_outputs}
use keyserver_rust.Settings.{Settings}
use keyserver_rust.Bitcoin.Network.{regnet, from_addr_network, network_eq}
use keyserver_rust.Bitcoin.Script.{generate_outputs, extract_pubkey_hash, p2pkh_pre, p2pkh_post}
use keyserver_rust.Bitcoin.Wallet.{check_outputs, check_p2pkh, contains, add}
use keyserver_rust.Bitcoin.Client.{send_tx, get_new_addr}
use keyserver_rust.Crypto.Token.{validate_token}
use keyserver_rust.Net.Payments.{read_payment, check_headers, accepted, payment_handler}
use keyserver_rust.Net.Payments.Handled.{IsHandled, payment_handler-IsHandled}
use keyserver_rust.Net.Keys.{read_body}
use keyserver_rust.Net.CheckPayment.{forward, merchant_url, payment_details, decide}
use keyserver_rust.Net.PaymentFlow.{with_token, PaysInvoice, paid_request_passes}
use keyserver_rust.Tests.Wire.Payments.{encode_payment, decode_payment}
use keyserver_rust.Tests.World.{crates, node}
use keyserver_rust.Tests.Meets.{subtle_laws, web_laws, rpc_laws}

abbrev pub key : Bytes
key = replicate 20 b'k'

abbrev pub settings : Settings
settings = record {
  bind = [];
  node_ip = [];
  rpc_port = 18443;
  rpc_username = [];
  rpc_password = [];
  zmq_port = 28332;
  secret = b's' ∷ [];
  db_path = [];
  network = regnet;
}

abbrev pub no_header : HeaderName → Option Bytes
no_header name = none

abbrev pub put_request : Request
put_request = record {
  method = put_method;
  header = no_header;
  scheme = text "http";
  host = text "h";
  path = text "/keys/" ++ key;
  query = some (text "code=3");
}

abbrev pub payment_headers : HeaderName → Option Bytes
payment_headers HeaderName.content_type = some (text "application/bitcoincash-payment")
payment_headers HeaderName.accept = some (text "application/bitcoincash-paymentack")
payment_headers _ = none

abbrev pub pay_request : Request
pay_request = record put_request { method = other_method (text "POST"); header = payment_headers }

abbrev pub script : Bytes
script = p2pkh_pre ++ (key ++ p2pkh_post)

-- The payment of the price to the script, in two parts.
abbrev pub raw_tx : Bytes
raw_tx = 5 ∷ script

abbrev pub paid_for : Bytes → Payment
paid_for url = record {
  merchant_data = some url;
  transactions = raw_tx ∷ [];
  refund_to = [];
  memo = none;
}

abbrev paid : Payment
paid = paid_for (merchant_url put_request)

abbrev encoded : Bytes
encoded = encode_payment paid

abbrev items : List (Option Bytes)
items = some (take 30 encoded) ∷ some (drop 30 encoded) ∷ []

abbrev tx : Transaction
tx = record { output = record { value = 5; script_pubkey = script } ∷ [] }

endpoints : Unit {0}
unfolding encode_payment decode_payment read_payment read_body check_headers text bytes_eq
    merchant_url payment_details generate_outputs send_tx from_utf8 payment_handler check_outputs
    check_p2pkh extract_pubkey_hash contains decide str_from str_to is_char_boundary validate_token
    get_new_addr from_addr_network network_eq
endpoints = tt

is_read : read_payment crates pay_request items ≡ done (paid, raw_tx, tx)
unfolding endpoints
is_read = refl

pays_invoice : PaysInvoice tx (payment_details crates settings put_request 100 key key)
unfolding endpoints
pays_invoice = record {
  before = [];
  output = record { value = 5; script_pubkey = script };
  after = [];
  split = refl;
  amount = refl;
  script = refl;
}

url_utf8 : from_utf8 (merchant_url put_request) ≡ some (merchant_url put_request)
unfolding endpoints
url_utf8 = refl

abbrev earned : Response
earned = accepted crates settings paid (merchant_url put_request) (merchant_url put_request)

paid_request_passes_example :
    ((payment_handler crates settings (node []) pay_request items (add key [])).0 ≡ done earned)
    × ((decide crates settings (node []) (with_token put_request earned) 200 []).0 ≡ done forward)
unfolding endpoints
paid_request_passes_example =
    paid_request_passes crates settings subtle_laws web_laws (node []) (node []) put_request
      pay_request items 100 200 [] [] key key paid raw_tx [] (merchant_url put_request) tx refl
      is_read refl pays_invoice refl url_utf8 refl

payment_handler-IsHandled_example :
    IsHandled crates settings
      (node [])
      pay_request
      items
      (key ∷ [])
      (payment_handler crates settings (node []) pay_request items (key ∷ []))
payment_handler-IsHandled_example =
    payment_handler-IsHandled crates settings (node []) (rpc_laws []) pay_request items (key ∷ [])

other_ends :
    ((payment_handler crates settings (node []) pay_request items []).0
      ≡ fail (payment invalid_outputs))
    × ((payment_handler crates settings (node []) put_request items []).0
        ≡ fail (payment PaymentError.accept))
unfolding endpoints
other_ends = (refl, refl)
