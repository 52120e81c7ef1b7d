-- ===== src/Server/Start/Workers.antt =====
-- Requests on the workers of the server of src/main.rs, in the steps between which other requests may
-- run: a step is one critical section of the wallet or one call of the database, and what a request
-- does by itself, the exchange with the node included, belongs to the step before or after it.
use keyserver_rust.Prelude.{
  ℕ, zero, suc, true, false, Option, none, some, List, [], ◌∷◌, Outcome, done, fail, panic,
  if◌then◌else◌,
}
use keyserver_rust.Prelude.Bytes.{Bytes, text, bytes_eq}
use keyserver_rust.Prelude.Steps.{◌>>=◌}
use keyserver_rust.Models.{Payment, Transaction, TxOut}
use keyserver_rust.Crates.{Crates}
use keyserver_rust.Crates.System.{System}
use keyserver_rust.Http.{Response, Method, put_method, other_method}
use keyserver_rust.Errors.{answer_route, ServerError}
use keyserver_rust.Settings.{Settings}
use keyserver_rust.Bitcoin.Wallet.{WalletState}
use keyserver_rust.Bitcoin.Wallet.Interleaving.{Call, calling, holding, accepted, refused, advance}
use keyserver_rust.Net.CheckPayment.{Decision, forward, answer, decide}
use keyserver_rust.Net.Payments.{read_payment, after_check}
use keyserver_rust.Server.Concurrent.{
  Handler, ended, getting, deleting, putting, next_call, put_key_calls, get_key_calls,
}
use keyserver_rust.Server.Routes.{Target, keys, payments, elsewhere, Router}
use keyserver_rust.Server.App.{Exchange}
use keyserver_rust.Server.Start.{cors_options}

-- What is left of a request: it has arrived, or its handler of the keys calls the database, or its
-- payment is checked, output by output, or it is over. The background task's end of a poll is the
-- last kind.
pub data Task (x : Crates) : Type 1 where
  arrived : Exchange → Task x
  handling : Exchange → Handler x → Task x
  paying : Exchange → Payment → Bytes → Call → List TxOut → Task x
  over : Outcome (ServerError x) Response → Task x
  storing : Handler x → Task x

module _ (x : Crates) (Subscription : Type 0) (sys : System x Subscription) (settings : Settings)
    (router : Router) where
  -- A response on its way out through the middleware for CORS.
  unfoldable pub decorated :
      Exchange → Outcome (ServerError x) Response → Outcome (ServerError x) Response
  decorated e o = answer_route x o >>= λ resp. done (sys.decorate cors_options e.request resp)

  unfoldable pub settle : Exchange → Handler x → Task x
  unfolding decorated
  settle e (ended o) = over (decorated e o)
  settle e (getting k rest) = handling e (getting k rest)
  settle e (deleting k rest) = handling e (deleting k rest)
  settle e (putting k v rest) = handling e (putting k v rest)

  -- The routes of the keys.
  unfoldable pub route_calls : Method → Exchange → Handler x
  route_calls put_method e = put_key_calls x (router.addr e.request) e.items e.now e.later
  route_calls (other_method name) e =
      if bytes_eq name (text "GET")
      then get_key_calls x (router.addr e.request) e.now
      else ended (done router.no_route)

  -- After the middleware `CheckPayment`, whose errors are not decorated.
  unfoldable pub pass : Exchange → Outcome (ServerError x) Decision → Task x
  unfolding settle route_calls
  pass e (done forward) = settle e (route_calls e.request.method e)
  pass e (done (answer resp)) = over (decorated e (done resp))
  pass e (fail f) = over (answer_route x (fail f))
  pass e panic = over panic

  -- `check_outputs`: the next output.
  unfoldable pub look_at : Exchange → Payment → Bytes → List TxOut → Task x
  unfolding decorated
  look_at e p tx_raw [] = over (decorated e (after_check x settings e.rpc p tx_raw false))
  look_at e p tx_raw (o ∷ outputs) = paying e p tx_raw (calling o) outputs

  -- A call of `check_p2pkh` in the handler of a payment: its next step, and what follows it. Once
  -- the call has accepted, the transaction is sent.
  unfoldable pub resume :
      Exchange → Payment → Bytes → List TxOut → Call → WalletState → Task x × WalletState
  unfolding look_at advance
  resume e p tx_raw outputs (calling o) w =
      (paying e p tx_raw (advance (calling o) w).0 outputs, (advance (calling o) w).1)
  resume e p tx_raw outputs (holding h) w =
      (paying e p tx_raw (advance (holding h) w).0 outputs, (advance (holding h) w).1)
  resume e p tx_raw outputs (accepted h) w =
      (over (decorated e (after_check x settings e.rpc p tx_raw true)), w)
  resume e p tx_raw outputs refused w = (look_at e p tx_raw outputs, w)

  unfoldable pub open_payment :
      Exchange → Outcome (ServerError x) (Payment × Bytes × Transaction) → Task x
  unfolding look_at
  open_payment e (done (p, tx_raw, tx)) = look_at e p tx_raw tx.output
  open_payment e (fail f) = over (decorated e (fail f))
  open_payment e panic = over panic

  -- The route of `/payments`.
  unfoldable pub post_route : Method → Exchange → Task x
  unfolding open_payment
  post_route put_method e = over (decorated e (done router.no_route))
  post_route (other_method name) e =
      if bytes_eq name (text "POST")
      then open_payment e (read_payment x e.request e.items)
      else over (decorated e (done router.no_route))

  unfoldable pub arrive : Target → Exchange → WalletState → Task x × WalletState
  unfolding pass post_route
  arrive keys e w = let v = decide x settings e.rpc e.request e.time w in (pass e v.0, v.1)
  arrive payments e w = (post_route e.request.method e, w)
  arrive elsewhere e w = (over (decorated e (done (router.static_file e.request))), w)

  -- A preflight request is answered by the middleware for CORS.
  unfoldable pub admit : Option Response → Exchange → WalletState → Task x × WalletState
  unfolding arrive
  admit (some resp) e w = (over (done resp), w)
  admit none e w = arrive (router.target e.request) e w

  abbrev pub State : Type 0
  State = WalletState × x.Db

  -- One step of a request.
  unfoldable pub step : Task x → State → Task x × State
  unfolding admit settle resume
  step (arrived e) (w, d) =
      let r = admit (sys.intercept cors_options e.request) e w in (r.0, (r.1, d))
  step (handling e h) (w, d) = let r = next_call x h d in (settle e r.0, (w, r.1))
  step (paying e p tx_raw c outputs) (w, d) =
      let r = resume e p tx_raw outputs c w in (r.0, (r.1, d))
  step (over o) s = (over o, s)
  step (storing h) (w, d) = let r = next_call x h d in (storing r.0, (w, r.1))

  -- The request at a position goes on by one step.
  unfoldable pub step_at : ℕ → List (Task x) → State → List (Task x) × State
  unfolding step
  step_at i [] s = ([], s)
  step_at zero (t ∷ ts) s = ((step t s).0 ∷ ts, (step t s).1)
  step_at (suc i) (t ∷ ts) s = let rest = step_at i ts s in (t ∷ rest.0, rest.1)
