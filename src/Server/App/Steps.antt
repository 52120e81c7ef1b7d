-- ===== src/Server/App/Steps.antt =====
-- What a request to the application of src/main.rs does to the database is one step of it, or
-- nothing: so what holds under every sequence of steps holds under every sequence of requests that are
-- answered one at a time.
use keyserver_rust.Prelude.{
  ℕ, ◌≡◌, ◌≢◌, refl, sym, subst, ap, ◌∙◌, ◌⊎◌, inl, inr, Option, List, panic, Bool-cases,
  Outcome-cases,
}
use keyserver_rust.Prelude.Bytes.{Bytes, text, bytes_eq}
use keyserver_rust.Crates.{Crates}
use keyserver_rust.Crates.Laws.{RocksLaws, DigestLaws, CodecLaws, WebLaws, RpcLaws}
use keyserver_rust.Http.{Request, Method, put_method, other_method}
use keyserver_rust.Settings.{Settings}
use keyserver_rust.Bitcoin.Wallet.{WalletState}
use keyserver_rust.Net.CheckPayment.{forward, answer, decide, follow, call}
use keyserver_rust.Server.Integrity.{
  IsIntegral, IsIntegral-IsWellFormed, Step, getting, putting, Reach, here, next, Reach-IsIntegral,
}
use keyserver_rust.Net.CheckPayment.Invoices.{IsKeyPath}
use keyserver_rust.Server.Routes.{Target, keys, payments, elsewhere, Router, route, keys_resource}
use keyserver_rust.Server.App.Totality.{serve-ne-panic}
use keyserver_rust.Server.App.{Exchange, pay_route, serve_at, serve}

module _ (x : Crates) (laws : RocksLaws x.rocks) (settings : Settings) (router : Router) where
  -- The database as it was, or one step on.
  abbrev pub IsStep : x.Db → x.Db → Type 1
  IsStep d d' = (d' ≡ d) ⊎ Step x laws d d'

  route-IsStep :
      (m : Method) (req : Request) (items : List (Option Bytes)) (now later : ℕ) (d : x.Db)
      → IsStep d (route x router m req items now later d).1
  unfolding route
  route-IsStep put_method req items now later d =
      inr (putting (router.addr req) items now later refl)
  route-IsStep (other_method name) req items now later d =
      elim (Bool-cases (bytes_eq name (text "GET"))) [
        | inl got ↦ rw got (inr (getting (router.addr req) now refl))
        | inr missing ↦ rw missing (inl refl)
      ]

  keys_resource-IsStep :
      (e : Exchange) (w : WalletState) (d : x.Db)
      → IsStep d
          (keys_resource x router settings e.rpc e.request e.time e.items e.now e.later (w, d)).1.1
  unfolding keys_resource call follow
  keys_resource-IsStep e w d = elim (Outcome-cases (decide x settings e.rpc e.request e.time w).0) [
    | inl (forward, passed) ↦
        rw passed (route-IsStep e.request.method e.request e.items e.now e.later d)
    | inl (answer resp, answered) ↦ rw answered (inl refl)
    | inr (inl (f, failed)) ↦ rw failed (inl refl)
    | inr (inr panicked) ↦ rw panicked (inl refl)
  ]

  pay_route-database :
      (m : Method) (e : Exchange) (w : WalletState) (d : x.Db)
      → (pay_route x settings router m e (w, d)).1.1 ≡ d
  unfolding pay_route
  pay_route-database put_method e w d = refl
  pay_route-database (other_method name) e w d = elim (Bool-cases (bytes_eq name (text "POST"))) [
    | inl posted ↦ rw posted refl
    | inr missing ↦ rw missing refl
  ]

  serve-IsStep :
      (t : Target) (e : Exchange) (w : WalletState) (d : x.Db)
      → IsStep d (serve_at x settings router t e (w, d)).1.1
  unfolding serve_at
  serve-IsStep keys e w d = keys_resource-IsStep e w d
  serve-IsStep payments e w d = inl (pay_route-database e.request.method e w d)
  serve-IsStep elsewhere e w d = inl refl

  -- A turn of the server: a request, or a step in the background, which leaves the wallet alone.
  pub data Turn (a b : WalletState × x.Db) : Type 1 where
    serving : (e : Exchange) → b ≡ (serve x settings router e a).1 → Turn a b
    background : b.0 ≡ a.0 → Step x laws a.1 b.1 → Turn a b

  pub data Run (a : WalletState × x.Db) : WalletState × x.Db → Type 1 where
    start : Run a a
    turn : {b c : WalletState × x.Db} → Run a b → Turn b c → Run a c

  -- The database goes through steps of its own under every run of the application.
  pub Run-Reach : (a b : WalletState × x.Db) → Run a b → Reach x laws a.1 b.1
  unfolding serve
  Run-Reach a b start = here
  Run-Reach a b (turn {b = m} r (background same step)) = next (Run-Reach a m r) step
  Run-Reach a b (turn {b = m} r (serving e same)) =
      elim (serve-IsStep (router.target e.request) e m.0 m.1) [
        | inl unchanged ↦
            subst (Reach x laws a.1) (sym (ap (λ (s : WalletState × x.Db). s.1) same ∙ unchanged))
              (Run-Reach a m r)
        | inr step ↦
            next (Run-Reach a m r)
              (subst (Step x laws m.1) (sym (ap (λ (s : WalletState × x.Db). s.1) same)) step)
      ]

  -- The application does not panic in any state that it can come to from an integral database, an
  -- empty one for instance, and any wallet: after every run of requests, polls and compactions the
  -- database is integral, and no request that follows panics, if the node's error responses carry
  -- an error and the paths that are routed to the keys are ASCII and begin with "/keys/".
  pub Run-ne-panic :
      (codec : CodecLaws x.codecs) (digests : DigestLaws x.hashes x.secp) (web : WebLaws x.web)
      (a b : WalletState × x.Db) (e : Exchange)
      → IsIntegral x laws a.1
      → Run a b
      → RpcLaws e.rpc
      → (router.target e.request ≡ keys → IsKeyPath e.request.path)
      → IsIntegral x laws b.1 × ((serve x settings router e b).0 ≢ panic)
  Run-ne-panic codec digests web a b e integral run node key =
      let after = Reach-IsIntegral x laws codec digests a.1 b.1 integral (Run-Reach a b run) in
      (
        after,
        serve-ne-panic x laws digests router settings web e b.0 b.1
            (IsIntegral-IsWellFormed x laws b.1 after) node key,
      )
