-- ===== src/Server/Start/Alone.antt =====
-- The steps of Server/Start/Workers are those of the application of src/main.rs: a request that no
-- other one disturbs is answered as `serve_cors` answers it.
use keyserver_rust.Prelude.{
  ℕ, zero, suc, ◌≡◌, refl, sym, Bool, Bool-cases, Option-cases, inl, inr, List, [], ◌∷◌, Outcome,
  done, Outcome-cases, ◌==◌, if◌then◌else◌,
}
use keyserver_rust.Prelude.Bytes.{Bytes, text, bytes_eq}
use keyserver_rust.Prelude.Steps.{◌>>=◌}
use keyserver_rust.Models.{Payment, TxOut}
use keyserver_rust.Crates.{Crates}
use keyserver_rust.Crates.System.{System}
use keyserver_rust.Http.{Response, Method, put_method, other_method}
use keyserver_rust.Errors.{answer_route, ServerError}
use keyserver_rust.Settings.{Settings}
use keyserver_rust.Bitcoin.Script.{price, extract_pubkey_hash}
use keyserver_rust.Bitcoin.Wallet.{
  WalletState, contains, flush, check_p2pkh, any_output, check_outputs,
}
use keyserver_rust.Bitcoin.Wallet.Interleaving.{look, advance}
use keyserver_rust.Net.CheckPayment.{forward, answer, decide, follow, call}
use keyserver_rust.Net.Payments.{read_payment, after_check, payment_handler}
use keyserver_rust.Server.Concurrent.{Handler, ended, getting, deleting, putting, next_call, run}
use keyserver_rust.Server.Concurrent.Alone.{run-handlers}
use keyserver_rust.Server.Routes.{Target, keys, payments, elsewhere, Router, route, keys_resource}
use keyserver_rust.Server.App.{Exchange, pay_route, serve_at, serve}
use keyserver_rust.Server.Start.{cors_options, is_service_error, serve_cors}
use keyserver_rust.Server.Start.Workers.{
  Task, arrived, over, decorated, settle, route_calls, pass, look_at, resume, open_payment,
  post_route, arrive, admit, step,
}

module _ (x : Crates) (Subscription : Type 0) (sys : System x Subscription) (settings : Settings)
    (router : Router) where
  abbrev pub Both : Type 0
  Both = WalletState × x.Db

  -- A request that goes on alone.
  unfoldable pub steps : ℕ → Task x → Both → Task x × Both
  steps zero t a = (t, a)
  steps (suc n) t a = let r = step x Subscription sys settings router t a in steps n r.0 r.1

  -- After some number of steps a request is over, with an outcome and a state.
  abbrev pub Ends : Task x → Both → Outcome (ServerError x) Response → Both → Type 1
  Ends t a o b = (n : ℕ) × (steps n t a ≡ (over o, b))

  settle-run :
      (e : Exchange) (h : Handler x) (w : WalletState) (d : x.Db)
      → Ends
          (settle x Subscription sys settings router e h)
          (w, d)
          (decorated x Subscription sys settings router e (run x h d).0)
          (w, (run x h d).1)
  unfolding steps step settle run next_call
  settle-run e (ended o) w d = (0, refl)
  settle-run e (getting k rest) w d =
      let (n, same) = settle-run e (rest (x.db_get d k).0) w (x.db_get d k).1 in (suc n, same)
  settle-run e (deleting k rest) w d =
      let (n, same) = settle-run e (rest (x.db_delete d k).0) w (x.db_delete d k).1 in (suc n, same)
  settle-run e (putting k v rest) w d =
      let (n, same) = settle-run e (rest (x.db_put d k v).0) w (x.db_put d k v).1 in (suc n, same)

  abbrev Checked : Exchange → Payment → Bytes → List TxOut → Both → Bool × WalletState → Type 1
  Checked e p tx_raw outputs a v =
      Ends (look_at x Subscription sys settings router e p tx_raw outputs) a
        (decorated x Subscription sys settings router e (after_check x settings e.rpc p tx_raw v.0))
        (v.1, a.1)

  look_at-any_output :
      (e : Exchange) (p : Payment) (tx_raw : Bytes) (outputs : List TxOut) (w : WalletState)
      (d : x.Db)
      → Checked e p tx_raw outputs (w, d) (any_output outputs w)
  unfolding steps step resume look_at advance look any_output check_p2pkh flush
  look_at-any_output e p tx_raw [] w d = (0, refl)
  look_at-any_output e p tx_raw (o ∷ outputs) w d =
      let (n, same) = look_at-any_output e p tx_raw outputs w d in
      elim (Bool-cases (o.value == price)) [
        | inr free ↦ (suc (suc n), rw free same)
        | inl priced ↦ elim (Option-cases (extract_pubkey_hash o.script_pubkey)) [
          | inl other ↦ (suc (suc n), rw (priced, other) same)
          | inr (h, found) ↦ elim (Bool-cases (contains h w)) [
            | inl there ↦ (3, rw (priced, found, there) refl)
            | inr absent ↦ (suc (suc n), rw (priced, found, absent) same)
          ]
        ]
      ]

  post_route-pay_route :
      (m : Method) (e : Exchange) (w : WalletState) (d : x.Db)
      → Ends
          (post_route x Subscription sys settings router m e)
          (w, d)
          (decorated x Subscription sys settings router e
            (pay_route x settings router m e (w, d)).0)
          (pay_route x settings router m e (w, d)).1
  unfolding post_route open_payment pay_route payment_handler check_outputs decorated answer_route
      steps
  post_route-pay_route put_method e w d = (0, refl)
  post_route-pay_route (other_method name) e w d = elim (Bool-cases (bytes_eq name (text "POST"))) [
    | inr missing ↦ (0, rw missing refl)
    | inl posted ↦ elim (Outcome-cases (read_payment x e.request e.items)) [
      | inl (read, found) ↦
          rw (posted, found) (look_at-any_output e read.0 read.1 read.2.output w d)
      | inr (inl (f, failed)) ↦ (0, rw (posted, failed) refl)
      | inr (inr panicked) ↦ (0, rw (posted, panicked) refl)
    ]
  ]

  route_calls-route :
      (m : Method) (e : Exchange) (d : x.Db)
      → run x (route_calls x Subscription sys settings router m e) d
        ≡ route x router m e.request e.items e.now e.later d
  unfolding route_calls route run
  route_calls-route put_method e d =
      (run-handlers x (router.addr e.request) e.items e.now e.later d).0
  route_calls-route (other_method name) e d = elim (Bool-cases (bytes_eq name (text "GET"))) [
    | inl got ↦ rw got (run-handlers x (router.addr e.request) e.items e.now e.later d).1
    | inr missing ↦ rw missing refl
  ]

  keys-follow :
      (e : Exchange) (w : WalletState) (d : x.Db)
      → Ends
          (pass x Subscription sys settings router e (decide x settings e.rpc e.request e.time w).0)
          ((decide x settings e.rpc e.request e.time w).1, d)
          (answer_route x
              (keys_resource x router settings e.rpc e.request e.time e.items e.now e.later
                (w, d)).0
            >>= λ resp. done (
                if is_service_error x Subscription sys keys
                  (decide x settings e.rpc e.request e.time w).0
                then resp
                else sys.decorate cors_options e.request resp))
          (keys_resource x router settings e.rpc e.request e.time e.items e.now e.later (w, d)).1
  unfolding pass keys_resource call follow is_service_error steps decorated answer_route
  keys-follow e w d = elim (Outcome-cases (decide x settings e.rpc e.request e.time w).0) [
    | inl (forward, passed) ↦
        rw (passed, sym (route_calls-route e.request.method e d))
          (settle-run e (route_calls x Subscription sys settings router e.request.method e)
            (decide x settings e.rpc e.request e.time w).1 d)
    | inl (answer resp, answered) ↦ (0, rw answered refl)
    | inr (inl (f, failed)) ↦ (0, rw failed refl)
    | inr (inr panicked) ↦ (0, rw panicked refl)
  ]

  -- The outcome of the application, on its way out.
  abbrev outcome : Target → Exchange → Both → Outcome (ServerError x) Response
  outcome t e a = answer_route x (serve_at x settings router t e a).0 >>= λ resp. done (
      if is_service_error x Subscription sys t (decide x settings e.rpc e.request e.time a.0).0
      then resp
      else sys.decorate cors_options e.request resp)

  arrive-serve_at :
      (t : Target) (e : Exchange) (w : WalletState) (d : x.Db)
      → Ends
          (arrive x Subscription sys settings router t e w).0
          ((arrive x Subscription sys settings router t e w).1, d)
          (outcome t e (w, d))
          (serve_at x settings router t e (w, d)).1
  unfolding arrive serve_at is_service_error steps decorated answer_route
  arrive-serve_at keys e w d = keys-follow e w d
  arrive-serve_at payments e w d = post_route-pay_route e.request.method e w d
  arrive-serve_at elsewhere e w d = (0, refl)

  -- A request that has arrived and that no other one disturbs is over after finitely many steps,
  -- with the response, and the wallet and the database, that `serve_cors` gives, whatever its
  -- method, its path, its headers and its body, and whatever the node and the database answer.
  pub alone-serve_cors :
      (e : Exchange) (w : WalletState) (d : x.Db)
      → Ends
          (arrived e)
          (w, d)
          (serve_cors x Subscription sys settings router e (w, d)).0
          (serve_cors x Subscription sys settings router e (w, d)).1
  unfolding serve_cors serve steps step admit
  alone-serve_cors e w d = elim (Option-cases (sys.intercept cors_options e.request)) [
    | inr (resp, intercepted) ↦ (1, rw (intercepted, steps, serve_cors) refl)
    | inl passed ↦
        let (n, same) = arrive-serve_at (router.target e.request) e w d in
        (suc n, rw (passed, steps, serve_cors) same)
  ]
