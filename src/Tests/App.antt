-- ===== src/Tests/App.antt =====
-- The whole purchase of an update at a concrete server: an invoice, its payment, and the PUT with
-- the token that the payment earned.
use keyserver_rust.Prelude.{◌≡◌, ◌≢◌, refl, arith, Option, some, List, [], ◌∷◌, done, panic}
use keyserver_rust.Prelude.Bytes.{Bytes, text, bytes_eq, str_from, str_to, is_char_boundary}
use keyserver_rust.Prelude.Int.{add64, cast64}
use keyserver_rust.Prelude.Utf8.{from_utf8}
use keyserver_rust.Http.{Request, other_method, put_method, respond, status_ok}
use keyserver_rust.Bitcoin.Network.{from_addr_network, network_eq}
use keyserver_rust.Bitcoin.Script.{extract_pubkey_hash}
use keyserver_rust.Bitcoin.Wallet.{WalletState, contains, remove, add, check_p2pkh, check_outputs}
use keyserver_rust.Bitcoin.Client.{get_new_addr, send_tx}
use keyserver_rust.Crypto.{validate, deserialize_public_key, deserialize_signature, verify}
use keyserver_rust.Crypto.Token.{generate_token, validate_token}
use keyserver_rust.Db.{expired, get, put, check_timestamp}
use keyserver_rust.Net.Keys.{read_body, put_key}
use keyserver_rust.Net.Payments.{payment_handler, read_payment, check_headers}
use keyserver_rust.Net.CheckPayment.{merchant_url, decide, call}
use keyserver_rust.Net.CheckPayment.Invoices.{IsKeyPath}
use keyserver_rust.Server.Routes.{keys_resource}
use keyserver_rust.Server.App.{Exchange, serve}
use keyserver_rust.Tests.Wire.Payments.{encode_payment, decode_payment}
use keyserver_rust.Tests.World.{Store, crates, node}
use keyserver_rust.Tests.Database.{key, body, empty}
use keyserver_rust.Tests.Payments.{key as node_key, settings, payment_headers, paid_for}
use keyserver_rust.Tests.Server.{router, get_request, put_request}

-- The node gives the address that the payment pays to.
abbrev pub exchange : Request → Bytes → List (Option Bytes) → Exchange
exchange request reply items = record {
  rpc = node reply;
  request = request;
  items = items;
  time = 100;
  now = 120;
  later = 120;
}

abbrev pub first_put : Exchange
first_put = exchange (record get_request { method = put_method }) node_key body

abbrev pub payment : Exchange
payment =
    exchange
      (record get_request {
        method = other_method (text "POST");
        header = payment_headers;
        path = text "/payments";
      })
      [] (some (encode_payment (paid_for (merchant_url get_request))) ∷ [])

abbrev pub second_put : Exchange
second_put = exchange put_request [] body

abbrev State : Type 0
State = WalletState × Store

abbrev after : Exchange → State → State
after e s = (serve crates settings router e s).1

abbrev s₁ : State
s₁ = after first_put ([], empty)

abbrev s₂ : State
s₂ = after payment s₁

abbrev s₃ : State
s₃ = after second_put s₂

purchases : Unit {0}
unfolding encode_payment decode_payment serve keys_resource call decide get_new_addr
    from_addr_network network_eq str_from str_to is_char_boundary text bytes_eq payment_handler
    read_payment check_headers read_body merchant_url check_outputs check_p2pkh extract_pubkey_hash
    contains remove add send_tx from_utf8 generate_token validate_token put_key validate
    deserialize_public_key deserialize_signature verify check_timestamp get put expired add64 cast64
purchases = tt

-- The invoice puts an address into the wallet, its payment takes it out, the PUT is stored.
is_purchased :
    ((serve crates settings router first_put ([], empty)).0 ≢ panic)
    × (s₁.0 ≡ node_key ∷ [])
    × (s₂.0 ≡ [])
    × ((serve crates settings router second_put s₂).0 ≡ done (respond status_ok []))
unfolding purchases
is_purchased = ((λ e. cc), refl, refl, refl)

pub key_path : IsKeyPath put_request.path
unfolding text
key_path = record { name = key; shape = refl; ascii = omega arith }
