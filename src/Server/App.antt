-- ===== src/Server/App.antt =====
-- The application of src/main.rs: the resource of keys, the payment endpoint and the static files on
-- one wallet and one database. One request is answered at a time
-- here; Server/Start/Workers has them cut into steps, and CORS stands in Server/Start.
pub mod Totality
pub mod Steps
pub mod Tally
use keyserver_rust.Prelude.{ℕ, Option, List, Outcome, done, if◌then◌else◌}
use keyserver_rust.Prelude.Bytes.{Bytes, text, bytes_eq}
use keyserver_rust.Prelude.Exec.{Exec, pure}
use keyserver_rust.Crates.{Crates, Rpc}
use keyserver_rust.Http.{Request, Response, Method, put_method, other_method}
use keyserver_rust.Errors.{ServerError}
use keyserver_rust.Settings.{Settings}
use keyserver_rust.Bitcoin.Wallet.{WalletState}
use keyserver_rust.Net.Payments.{payment_handler}
use keyserver_rust.Server.Routes.{Target, keys, payments, elsewhere, Router, keys_resource}

-- A request with its body, what the node answers meanwhile, and the readings of the clock: the
-- middleware's and the two of the handlers.
pub record Exchange : Type 1 where
  pub rpc : Rpc
  pub request : Request
  pub items : List (Option Bytes)
  pub time : ℕ
  pub now : ℕ
  pub later : ℕ

module _ (x : Crates) (settings : Settings) (router : Router) where
  abbrev pub App : Type 0
  App = Exec (WalletState × x.Db) (ServerError x) Response

  -- The route of `/payments`.
  unfoldable pub pay_route : Method → Exchange → App
  pay_route put_method e (w, d) = (done router.no_route, (w, d))
  pay_route (other_method name) e (w, d) =
      let handled = payment_handler x settings e.rpc e.request e.items w in
      if bytes_eq name (text "POST")
      then (handled.0, (handled.1, d))
      else (done router.no_route, (w, d))

  unfoldable pub serve_at : Target → Exchange → App
  unfolding pay_route
  serve_at keys e = keys_resource x router settings e.rpc e.request e.time e.items e.now e.later
  serve_at payments e = pay_route e.request.method e
  serve_at elsewhere e = pure (router.static_file e.request)

  unfoldable pub serve : Exchange → App
  unfolding serve_at
  serve e = serve_at (router.target e.request) e
