-- ===== src/Tests/Start.antt =====
-- The start of a server, and its life, with a stand-in for the system.
use keyserver_rust.Prelude.{
  ℕ, Bool-cases, inl, inr, ◌≡◌, refl, ◌==◌, if◌then◌else◌, Option, none, some, List, [], ◌∷◌, All,
  ok, err, done,
}
use keyserver_rust.Prelude.Bytes.{Bytes, text, bytes_eq}
use keyserver_rust.Prelude.Decimal.{decimal}
use keyserver_rust.Prelude.Utf8.{from_utf8}
use keyserver_rust.Models.{regtest}
use keyserver_rust.Crates.Environment.{Matches}
use keyserver_rust.Crates.Laws.{RpcLaws}
use keyserver_rust.Crates.System.{System}
use keyserver_rust.Http.{Response, Method, put_method, other_method, respond, status_ok}
use keyserver_rust.Settings.{Settings}
use keyserver_rust.Settings.Load.{new_settings}
use keyserver_rust.Bitcoin.Network.{regnet, deserialize_network, into_addr_network}
use keyserver_rust.Bitcoin.Script.{extract_op_return, own_url}
use keyserver_rust.Bitcoin.TxStream.{subscription, get_tx_stream, extract_details}
use keyserver_rust.Server.Integrity.{IsIntegral}
use keyserver_rust.Server.Start.{
  Server, main, serve_cors, stream_url, key_stream, bitcoin_client, try_new, node_url,
}
use keyserver_rust.Server.Start.Started.{IsStarted, main-IsStarted}
use keyserver_rust.Server.Start.Workers.{Task, arrived, step_at}
use keyserver_rust.Server.Start.Life.{Life, started, arrives, goes_on, IsCalm, AreGiven}
use keyserver_rust.Server.Start.Calm.{main-Life}
use keyserver_rust.Server.Start.Alone.{Ends, alone-serve_cors}
use keyserver_rust.Bitcoin.Wallet.{WalletState}
use keyserver_rust.Server.Routes.{payments}
use keyserver_rust.Tests.World.{Store, crates, node}
use keyserver_rust.Tests.Meets.{rocks_laws, codec_laws, digest_laws, web_laws, rpc_laws}
use keyserver_rust.Tests.Database.{key, empty, empty-IsIntegral}
use keyserver_rust.Tests.Payments.{key as node_key}
use keyserver_rust.Tests.Configuration.{config, config_laws, dirs, field}
use keyserver_rust.Tests.Chain.{messages}
use keyserver_rust.Tests.Server.{router}
use keyserver_rust.Tests.App.{first_put, payment, second_put, key_path}

-- An OPTIONS is answered by the middleware for CORS.
abbrev preflight : Method → Option Response
preflight put_method = none
preflight (other_method name) =
    if bytes_eq name (text "OPTIONS") then some (respond status_ok []) else none

abbrev system : System crates (Unit {0})
system = record {
  ZmqError = Unit {0};
  IoError = Unit {0};
  HttpClient = Bytes;
  open_db = λ options path. ok empty;
  http_client = λ endpoint username password. endpoint;
  node = λ client i. if i == 0 then node node_key else node [];
  listen = λ addr. if bytes_eq addr (text "tcp://127.0.0.1:28332") then ok messages else err tt;
  bind = λ addr. ok tt;
  intercept = λ options req. preflight req.method;
  decorate = λ options req resp. resp;
}

-- Nothing on the command line.
abbrev matches : Matches
matches = record { value_of = λ name. none; value_i64 = λ name. none }

main-IsStarted_example :
    IsStarted crates
      (Unit {0})
      system
      config
      config_laws
      matches
      dirs
      (main crates (Unit {0}) system config matches dirs)
main-IsStarted_example = main-IsStarted crates (Unit {0}) system config config_laws matches dirs

abbrev settings : Settings
settings = record {
  bind = text "127.0.0.1:8080";
  node_ip = text "127.0.0.1";
  rpc_port = 18443;
  rpc_username = text "username";
  rpc_password = text "password";
  zmq_port = 28332;
  secret = text "secret";
  db_path = text "/root/.keyserver-rust/db";
  network = regnet;
}

abbrev server : Server crates (Unit {0}) system
server = record {
  settings = settings;
  key_db = empty;
  wallet_state = [];
  bitcoin_client = text "http://127.0.0.1:18443";
  key_stream = err (subscription tt) ∷ ok (text "http://peer", (key, regtest)) ∷ [];
}

starts : main crates (Unit {0}) system config matches dirs ≡ done server
unfolding main try_new key_stream stream_url bitcoin_client node_url new_settings text bytes_eq
    deserialize_network field get_tx_stream extract_details extract_op_return from_utf8 own_url
    into_addr_network decimal
starts = refl

node_laws : (i : ℕ) → RpcLaws (system.node server.bitcoin_client i)
node_laws i = elim (Bool-cases (i == 0)) [
  | inl first ↦ rw first (rpc_laws node_key)
  | inr later ↦ rw later (rpc_laws [])
]

abbrev Tasks : Type 1
Tasks = List (Task crates)

abbrev Both : Type 0
Both = WalletState × Store

-- The requests whose turn it is go on, one after the other.
abbrev goes : List ℕ → Tasks × Both → Tasks × Both
goes [] b = b
goes (i ∷ order) b = goes order (step_at crates (Unit {0}) system settings router i b.0 b.1)

goes-Life :
    (order : List ℕ) (ts : Tasks) (a : Both)
    → Life crates (Unit {0}) system rocks_laws router server ts a
    → Life crates
        (Unit {0})
        system
        rocks_laws
        router
        server
        (goes order (ts, a)).0
        (goes order (ts, a)).1
goes-Life [] ts a l = l
goes-Life (i ∷ order) ts a l =
    goes-Life order (step_at crates (Unit {0}) system settings router i ts a).0
      (step_at crates (Unit {0}) system settings router i ts a).1 (goes_on l i)

-- The purchase of an update, whose three requests arrive before the first of them is over.
abbrev tasks : Tasks
tasks = arrived second_put ∷ arrived payment ∷ arrived first_put ∷ []

abbrev order : List ℕ
order = 2 ∷ 1 ∷ 1 ∷ 0 ∷ 1 ∷ 0 ∷ 1 ∷ 0 ∷ 1 ∷ 0 ∷ []

abbrev last : Tasks × Both
last = goes order (tasks, ([], empty))

payment_target : router.target payment.request ≡ payments
unfolding text bytes_eq
payment_target = refl

life : Life crates (Unit {0}) system rocks_laws router server last.0 last.1
life =
    goes-Life order tasks ([], empty)
      (arrives
        (arrives (arrives started first_put ((0, refl), λ e. key_path)) payment
          ((1, refl), λ e. absurd (cc (e, payment_target))))
        second_put ((2, refl), λ e. key_path))

main-Life_example :
    All (IsCalm crates (Unit {0}) system rocks_laws router server) last.0
    × IsIntegral crates rocks_laws last.1.1
    × AreGiven crates (Unit {0}) system rocks_laws router server last.1.0
main-Life_example =
    main-Life crates (Unit {0}) system rocks_laws router server node_laws codec_laws digest_laws
      web_laws config config_laws matches dirs starts empty-IsIntegral last.0 last.1 life

alone-serve_cors_example :
    Ends crates
      (Unit {0})
      system
      settings
      router
      (arrived first_put)
      ([], empty)
      (serve_cors crates (Unit {0}) system settings router first_put ([], empty)).0
      (serve_cors crates (Unit {0}) system settings router first_put ([], empty)).1
alone-serve_cors_example =
    alone-serve_cors crates (Unit {0}) system settings router first_put [] empty
