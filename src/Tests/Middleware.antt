-- ===== src/Tests/Middleware.antt =====
-- The middleware and its tokens at concrete inputs.
use keyserver_rust.Prelude.{
  ℕ, ◌≡◌, ◌≢◌, refl, ◌↔◌, ◌⊎◌, none, some, [], ◌∷◌, ◌++◌, done, fail, arith, ◌+◌,
}
use keyserver_rust.Prelude.Bytes.{Bytes, text, bytes_eq, str_from, str_to, is_char_boundary}
use keyserver_rust.Prelude.Exec.{Exec}
use keyserver_rust.Http.{Request, Response, authorization, put_method, respond, status_ok}
use keyserver_rust.Errors.{ServerError, payment, invalid_auth}
use keyserver_rust.Bitcoin.Network.{from_addr_network, network_eq}
use keyserver_rust.Bitcoin.Wallet.{add}
use keyserver_rust.Bitcoin.Client.{get_new_addr}
use keyserver_rust.Crypto.Token.{generate_token, validate_token}
use keyserver_rust.Net.CheckPayment.{forward, merchant_url, decide}
use keyserver_rust.Net.CheckPayment.Tokens.{IsPaid, decide-forward_iff}
use keyserver_rust.Net.CheckPayment.Invoices.{IsKeyPath, IsInvoiced, decide-IsInvoiced}
use keyserver_rust.Tests.World.{crates, node}
use keyserver_rust.Tests.Meets.{subtle_laws, web_laws, rpc_laws}
use keyserver_rust.Tests.Payments.{key, settings, put_request}

endpoints : Unit {0}
unfolding text bytes_eq merchant_url decide str_from str_to is_char_boundary validate_token
    get_new_addr from_addr_network network_eq
endpoints = tt

abbrev with_pop : Bytes → Request
with_pop value = record put_request {
  header = λ name. elim name [ authorization ↦ some value | other ↦ none ];
}

-- "POP " and the token of the URL, in the encoding of the stand-in.
abbrev pub paying : Request
paying = with_pop (
    text "POP "
    ++ crates.base64_encode (generate_token crates (merchant_url put_request) settings.secret))

decide-forward_iff_example :
    ((decide crates settings (node []) paying 100 []).0 ≡ done forward)
    ↔ ((paying.method ≢ put_method) ⊎ IsPaid crates settings paying)
decide-forward_iff_example =
    decide-forward_iff crates settings subtle_laws web_laws (node []) paying 100 []

decide_ends :
    ((decide crates settings (node []) paying 100 []).0 ≡ done forward)
    × ((decide crates settings (node []) (with_pop (text "PO")) 100 []).0
        ≡ fail (payment invalid_auth))
    × ((decide crates settings (node []) (with_pop (text "POP b")) 100 []).0 ≢ done forward)
    × ((decide crates settings (node key) put_request 100 []).1 ≡ key ∷ [])
unfolding endpoints generate_token add
decide_ends = (refl, refl, cc, refl)

abbrev service : Request → Exec ℕ (ServerError crates) Response
service req n = (done (respond status_ok []), n + 1)

unpaid : ¬ IsPaid crates settings put_request
unpaid p = cc (p.has_header)

key_path : IsKeyPath put_request.path
unfolding text
key_path = record { name = key; shape = refl; ascii = omega arith }

decide-IsInvoiced_example :
    IsInvoiced crates settings
      (node key)
      put_request
      100
      []
      (decide crates settings (node key) put_request 100 [])
decide-IsInvoiced_example =
    decide-IsInvoiced crates settings (node key) put_request 100 [] (rpc_laws key) key_path refl
      refl
