-- ===== src/Server/App/Totality.antt =====
-- The application of src/main.rs answers every request with a response or an error; it does not
-- panic.
use keyserver_rust.Prelude.{
  ℕ, ◌≡◌, ◌≢◌, refl, Option, List, Outcome, done, fail, panic, Bool-cases, inl, inr, Outcome-cases,
}
use keyserver_rust.Prelude.Bytes.{Bytes, text, bytes_eq}
use keyserver_rust.Crates.{Crates}
use keyserver_rust.Crates.Laws.{RocksLaws, WebLaws, DigestLaws, RpcLaws}
use keyserver_rust.Http.{Request, Response, Method, put_method, other_method}
use keyserver_rust.Errors.{ServerError}
use keyserver_rust.Settings.{Settings}
use keyserver_rust.Bitcoin.Wallet.{WalletState}
use keyserver_rust.Db.Contents.{IsWellFormed}
use keyserver_rust.Net.Keys.{get_key, put_key}
use keyserver_rust.Net.Keys.Reads.{IsGetKey, get_key-IsGetKey}
use keyserver_rust.Net.Keys.Writes.{IsPutKey, put_key-IsPutKey}
use keyserver_rust.Net.Payments.{payment_handler}
use keyserver_rust.Net.Payments.Handled.{IsHandled, payment_handler-IsHandled}
use keyserver_rust.Net.CheckPayment.{forward, answer, decide, follow, call}
use keyserver_rust.Net.CheckPayment.Invoices.{IsKeyPath}
use keyserver_rust.Net.CheckPayment.Totality.{decide-ne-panic}
use keyserver_rust.Server.Routes.{Target, keys, payments, elsewhere, Router, route, keys_resource}
use keyserver_rust.Server.App.{Exchange, pay_route, serve_at, serve}

module _ (x : Crates) (laws : RocksLaws x.rocks) where
  IsGetKey-ne-panic :
      (d : x.Db) (addr_str : Bytes) (now : ℕ) (r : Outcome (ServerError x) Response × x.Db)
      → IsGetKey x laws d addr_str now r
      → r.0 ≢ panic
  IsGetKey-ne-panic d addr_str now (done resp, d') h = λ e. cc
  IsGetKey-ne-panic d addr_str now (fail e, d') h = λ e. cc
  IsGetKey-ne-panic d addr_str now (panic, d') h = λ e. h

  IsPutKey-ne-panic :
      (d : x.Db) (addr_str : Bytes) (items : List (Option Bytes)) (now later : ℕ)
      (r : Outcome (ServerError x) Response × x.Db)
      → IsPutKey x laws d addr_str items now later r
      → r.0 ≢ panic
  IsPutKey-ne-panic d addr_str items now later (done resp, d') h = λ e. cc
  IsPutKey-ne-panic d addr_str items now later (fail e, d') h = λ e. cc
  IsPutKey-ne-panic d addr_str items now later (panic, d') h = λ e. h

  module _ (digests : DigestLaws x.hashes x.secp) (router : Router) where
    route-ne-panic :
        (m : Method) (req : Request) (items : List (Option Bytes)) (now later : ℕ) (d : x.Db)
        → IsWellFormed x laws d
        → (route x router m req items now later d).0 ≢ panic
    unfolding route
    route-ne-panic put_method req items now later d wf =
        IsPutKey-ne-panic d (router.addr req) items now later
          (put_key x (router.addr req) items now later d)
          (put_key-IsPutKey x laws digests d (router.addr req) items now later wf)
    route-ne-panic (other_method name) req items now later d wf =
        elim (Bool-cases (bytes_eq name (text "GET"))) [
          | inl got ↦ rw got (
              IsGetKey-ne-panic d (router.addr req) now (get_key x (router.addr req) now d)
                (get_key-IsGetKey x laws d (router.addr req) now wf))
          | inr missing ↦ rw missing (λ e. cc)
        ]

    module _ (settings : Settings) (web : WebLaws x.web) where
      keys_resource-ne-panic :
          (e : Exchange) (w : WalletState) (d : x.Db)
          → IsWellFormed x laws d
          → RpcLaws e.rpc
          → IsKeyPath e.request.path
          → (keys_resource x router settings e.rpc e.request e.time e.items e.now e.later (w, d)).0
            ≢ panic
      unfolding keys_resource call follow
      keys_resource-ne-panic e w d wf node key =
          elim (Outcome-cases (decide x settings e.rpc e.request e.time w).0) [
            | inl (forward, passed) ↦
                rw passed (route-ne-panic e.request.method e.request e.items e.now e.later d wf)
            | inl (answer resp, answered) ↦ rw answered (λ h. cc)
            | inr (inl (f, failed)) ↦ rw failed (λ h. cc)
            | inr (inr panicked) ↦
                absurd (decide-ne-panic x settings web e.rpc e.request e.time w node key panicked)
          ]

      IsHandled-ne-panic :
          (e : Exchange) (w : WalletState) (r : Outcome (ServerError x) Response × WalletState)
          → IsHandled x settings e.rpc e.request e.items w r
          → r.0 ≢ panic
      IsHandled-ne-panic e w (done resp, w') h = λ p. cc
      IsHandled-ne-panic e w (fail f, w') h = λ p. cc
      IsHandled-ne-panic e w (panic, w') h = λ p. h

      pay_route-ne-panic :
          (m : Method) (e : Exchange) (w : WalletState) (d : x.Db)
          → RpcLaws e.rpc
          → (pay_route x settings router m e (w, d)).0 ≢ panic
      unfolding pay_route
      pay_route-ne-panic put_method e w d node = λ h. cc
      pay_route-ne-panic (other_method name) e w d node =
          elim (Bool-cases (bytes_eq name (text "POST"))) [
            | inl posted ↦ rw posted (
                IsHandled-ne-panic e w (payment_handler x settings e.rpc e.request e.items w)
                  (payment_handler-IsHandled x settings e.rpc node e.request e.items w))
            | inr missing ↦ rw missing (λ h. cc)
          ]

      serve_at-ne-panic :
          (t : Target) (e : Exchange) (w : WalletState) (d : x.Db)
          → IsWellFormed x laws d
          → RpcLaws e.rpc
          → (t ≡ keys → IsKeyPath e.request.path)
          → (serve_at x settings router t e (w, d)).0 ≢ panic
      unfolding serve_at
      serve_at-ne-panic keys e w d wf node key = keys_resource-ne-panic e w d wf node (key refl)
      serve_at-ne-panic payments e w d wf node key = pay_route-ne-panic e.request.method e w d node
      serve_at-ne-panic elsewhere e w d wf node key = λ h. cc

      -- On a well-formed database no request makes the application panic, whatever its method,
      -- headers and body and whatever the node and the database answer, if the paths that are
      -- routed to the keys are ASCII and begin with "/keys/".
      pub serve-ne-panic :
          (e : Exchange) (w : WalletState) (d : x.Db)
          → IsWellFormed x laws d
          → RpcLaws e.rpc
          → (router.target e.request ≡ keys → IsKeyPath e.request.path)
          → (serve x settings router e (w, d)).0 ≢ panic
      unfolding serve
      serve-ne-panic e w d wf node key =
          serve_at-ne-panic (router.target e.request) e w d wf node key
