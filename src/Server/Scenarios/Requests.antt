-- ===== src/Server/Scenarios/Requests.antt =====
-- How the application of the test `test_put_payment` of src/net/payments.rs answers its requests.
use keyserver_rust.Prelude.{ℕ, ◌≡◌, refl, inr, some, Option, List, ◌++◌, done}
use keyserver_rust.Prelude.Bytes.{Bytes, text, bytes_eq_refl}
use keyserver_rust.Prelude.Assert.{unwrap_outcome}
use keyserver_rust.Crates.{Crates, Rpc}
use keyserver_rust.Crates.Laws.{SubtleLaws, WebLaws}
use keyserver_rust.Crates.Client.{Client}
use keyserver_rust.Crates.Payer.{Location, at_server}
use keyserver_rust.Http.{Request, Response, HeaderName, put_method, other_method}
use keyserver_rust.Settings.{Settings}
use keyserver_rust.Bitcoin.Network.{into_addr_network}
use keyserver_rust.Bitcoin.Wallet.{WalletState, add}
use keyserver_rust.Crypto.Token.{generate_token}
use keyserver_rust.Net.Keys.{put_key}
use keyserver_rust.Net.Payments.{payment_handler, pop_header}
use keyserver_rust.Net.CheckPayment.{
  decide, issue_invoice, invoice_for, follow, call, payment_details, invoice, merchant_url,
  base_url, addresses,
}
use keyserver_rust.Net.CheckPayment.Tokens.{IsPaid}
use keyserver_rust.Net.CheckPayment.Service.{call-passes}
use keyserver_rust.Errors.{answer_route}
use keyserver_rust.Net.CheckPayment.Scenarios.{test_key_path, test_put_request}
use keyserver_rust.Net.PaymentFlow.{pop_visible}
use keyserver_rust.Server.Routes.{Router, keys, payments}
use keyserver_rust.Server.App.{Exchange, pay_route}
use keyserver_rust.Server.Scenarios.{auth_header, request_at, put_route, call_service}

-- The resources are at the paths that they are given: `/keys/{addr}` for the addresses in base58, and
-- `/payments`.
pub record RouterLaws (x : Crates) (c : Client x) (router : Router) : Type 0 where
  pub to_keys :
      (req : Request) (b s : Bytes) (settings : Settings)
      → c.encode_base58 b (into_addr_network settings.network) ≡ some s
      → req.path ≡ text "/keys/" ++ s
      → (router.target req ≡ keys) × (router.addr req ≡ s)
  pub to_payments : (req : Request) → req.path ≡ text "/payments" → router.target req ≡ payments

abbrev pub post_request : (HeaderName → Option Bytes) → Location → Request
post_request headers loc = request_at (other_method (text "POST")) headers loc

-- The put at the location of the answer to a payment, with its authorization.
abbrev pub put_with_token : Crates → Settings → Bytes → Request
put_with_token x settings s =
    request_at put_method (auth_header (pop_header x settings (test_key_path s)))
      (at_server (text "/keys/" ++ s))

module _ (x : Crates) (settings : Settings) (router : Router) (r : Rpc) (time now later : ℕ) where
  abbrev exchange : Request → List (Option Bytes) → Exchange
  exchange req items = record {
    rpc = r;
    request = req;
    items = items;
    time = time;
    now = now;
    later = later;
  }

  -- A put without a token whose addresses are found is answered by their invoice.
  pub invoiced :
      (items : List (Option Bytes)) (s : Bytes) (put_addr addr : x.Address) (w : WalletState)
      (d : x.Db)
      → router.target (test_put_request s) ≡ keys
      → addresses x settings r (test_put_request s) ≡ done (put_addr, addr)
      → call_service x settings router (exchange (test_put_request s) items) (w, d) ≡ (
        done (
            invoice x settings (
              payment_details x settings
                (test_put_request s)
                time
                (x.body addr)
                (x.body put_addr))),
        (add (x.body addr) w, d),
      )
  unfolding call_service call decide issue_invoice invoice_for follow
  invoiced items s put_addr addr w d target found = rw (target, found) refl

  module _ (headers : HeaderName → Option Bytes) (loc : Location) where
    -- A post to the payments is answered by the handler, and an error of it by its response.
    pub posted :
        (items : List (Option Bytes)) (w : WalletState) (d : x.Db)
        → router.target (post_request headers loc) ≡ payments
        → call_service x settings router (exchange (post_request headers loc) items) (w, d) ≡ (
          unwrap_outcome
              (answer_route x (payment_handler x settings r (post_request headers loc) items w).0),
          ((payment_handler x settings r (post_request headers loc) items w).1, d),
        )
    unfolding call_service pay_route
    posted items w d target = rw (target, bytes_eq_refl (text "POST")) refl

  module _ (subtle : SubtleLaws x.subtle) (web : WebLaws x.web) (s : Bytes) where
    put_with_token-IsPaid : IsPaid x settings (put_with_token x settings s)
    unfolding pop_header merchant_url base_url text
    put_with_token-IsPaid =
        let token = generate_token x (test_key_path s) settings.secret in
        record {
          value = pop_header x settings (test_key_path s);
          token_str = x.base64_encode token;
          has_header = refl;
          reads = web.visible_to_str _ (pop_visible _ (web.base64_visible token));
          decodes = web.decode-encode_base64 token;
        }

    -- It is put.
    pub put_again :
        (items : List (Option Bytes)) (w : WalletState) (d : x.Db) (resp : Response)
        → router.target (put_with_token x settings s) ≡ keys
        → router.addr (put_with_token x settings s) ≡ s
        → (put_key x s items now later d).0 ≡ done resp
        → (call_service x settings router (exchange (put_with_token x settings s) items) (w, d)).0
          ≡ done resp
    unfolding call_service put_route answer_route
    put_again items w d resp target named put =
        rw
          (
            target,
            call-passes x settings subtle web
                (λ req.
                  put_route x settings router req.method
                    (exchange (put_with_token x settings s) items))
                r (put_with_token x settings s) time w d (inr put_with_token-IsPaid),
            named,
            put,
          )
          refl
