-- ===== src/Server/Start.antt =====
-- `main` of src/main.rs: the settings, the database, the wallet, the clients of the node and the
-- application of each worker. A failed `expect` is a panic; logging is left out, and each worker has
-- the same wallet and database.
pub mod Started
pub mod Pulls
pub mod Workers
pub mod Life
pub mod Calm
pub mod Alone
use keyserver_rust.Prelude.{
  ℕ, Bool, true, false, Option, none, some, List, [], ◌∷◌, ◌++◌, Result, ok, err, Outcome, done,
  fail, panic, try, if◌then◌else◌,
}
use keyserver_rust.Prelude.Bytes.{Bytes, text}
use keyserver_rust.Prelude.Decimal.{decimal}
use keyserver_rust.Prelude.Steps.{◌>>=◌}
use keyserver_rust.Prelude.Exec.{Exec}
use keyserver_rust.Crates.{Crates}
use keyserver_rust.Crates.Environment.{ConfigCrate, Matches, Dirs}
use keyserver_rust.Crates.System.{OpenOptions, CorsOptions, System}
use keyserver_rust.Http.{Request, Response, accept, authorization, content_type, location}
use keyserver_rust.Errors.{answer_route, ServerError}
use keyserver_rust.Settings.{Settings}
use keyserver_rust.Settings.Load.{new_settings}
use keyserver_rust.Bitcoin.Wallet.{WalletState}
use keyserver_rust.Bitcoin.TxStream.{Error, get_tx_stream, extract_details}
use keyserver_rust.Db.{ttl_filter}
use keyserver_rust.Server.Routes.{Target, keys, payments, elsewhere, Router}
use keyserver_rust.Net.CheckPayment.{Decision, decide}
use keyserver_rust.Server.App.{Exchange, serve}

module _ {ℓ} {E F A : Type ℓ} where
  -- `expect(..)`
  abbrev pub expect : Result F A → Outcome E A
  expect (ok a) = done a
  expect (err e) = panic

  -- `expect(..)` of what may also panic by itself.
  abbrev pub expect_outcome : Outcome F A → Outcome E A
  expect_outcome (done a) = done a
  expect_outcome (fail e) = panic
  expect_outcome panic = panic

unfoldable pub node_url : Settings → Bytes
unfolding decimal
node_url settings = text "http://" ++ (settings.node_ip ++ (text ":" ++ decimal settings.rpc_port))

unfoldable pub stream_url : Settings → Bytes
unfolding decimal
stream_url settings = text "tcp://" ++ (settings.node_ip ++ (text ":" ++ decimal settings.zmq_port))

abbrev pub cors_options : CorsOptions
cors_options = record {
  allowed_methods = text "GET" ∷ text "PUT" ∷ text "POST" ∷ [];
  allowed_headers = authorization ∷ content_type ∷ [];
  expose_headers = authorization ∷ accept ∷ location ∷ [];
}

-- The options of the database.
abbrev pub open_options : (x : Crates) → OpenOptions x
open_options x = record {
  create_if_missing = true;
  filter_name = text "ttl";
  compaction_filter = ttl_filter x;
}

module _ (x : Crates) (Subscription : Type 0) (sys : System x Subscription) where
  -- An item of the stream of announcements.
  abbrev pub Announcement : Type 0
  Announcement = Result (Error x Subscription) (Bytes × x.Address)

  -- `KeyDB::try_new`
  unfoldable pub try_new : Bytes → Result x.RocksError x.Db
  try_new path = sys.open_db (open_options x) path

  -- `BitcoinClient::new(..)`
  unfoldable pub bitcoin_client : Settings → sys.HttpClient
  unfolding node_url
  bitcoin_client settings =
      sys.http_client (node_url settings) (some settings.rpc_username) (some settings.rpc_password)

  -- `get_tx_stream(..)` with the binding of the listener, then `extract_details`.
  unfoldable pub key_stream : Settings → Result sys.ZmqError (List Announcement)
  unfolding stream_url
  key_stream settings = elim (sys.listen (stream_url settings)) [
    | ok messages ↦
        ok (extract_details x Subscription settings (get_tx_stream x Subscription messages))
    | err e ↦ err e
  ]

  -- What the server runs on: the values that `main` has made, with the items of the background
  -- task's stream.
  pub record Server : Type 0 where
    pub settings : Settings
    pub key_db : x.Db
    pub wallet_state : WalletState
    pub bitcoin_client : sys.HttpClient
    pub key_stream : List Announcement

  -- `main`, to the point where the server runs; the closure that makes the applications is
  -- `serve_cors`.
  unfoldable pub main : (c : ConfigCrate) → Matches → Dirs → Outcome sys.IoError Server
  unfolding try_new bitcoin_client key_stream
  main c m dirs = expect_outcome (new_settings c m dirs) >>= λ settings.
      expect (try_new settings.db_path) >>= λ key_db. expect (key_stream settings) >>= λ items.
      try (λ e. e) (sys.bind settings.bind) >>= λ _. done (record {
        settings = settings;
        key_db = key_db;
        wallet_state = [];
        bitcoin_client = bitcoin_client settings;
        key_stream = items;
      })

  -- Whether the outcome is an error of the middleware around the keys, which the resource hands on
  -- to the middleware for CORS as an error.
  unfoldable pub is_service_error : Target → Outcome (ServerError x) Decision → Bool
  is_service_error keys (fail e) = true
  is_service_error keys _ = false
  is_service_error payments o = false
  is_service_error elsewhere o = false

  -- The application of a worker, with the middleware for CORS around it, which answers a preflight
  -- request by itself and sets its headers on a response, but not on an error.
  unfoldable pub serve_cors :
      Settings → Router → Exchange → Exec (WalletState × x.Db) (ServerError x) Response
  unfolding is_service_error
  serve_cors settings router e s =
      let answered = serve x settings router e s in
      let failed =
        is_service_error (router.target e.request)
          (decide x settings e.rpc e.request e.time s.0).0 in
      elim (sys.intercept cors_options e.request) [
        | some resp ↦ (done resp, s)
        | none ↦ (
          answer_route x answered.0 >>= λ resp.
              done (if failed then resp else sys.decorate cors_options e.request resp),
          answered.1,
        )
      ]
