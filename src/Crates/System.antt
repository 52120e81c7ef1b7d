-- ===== src/Crates/System.antt =====
-- What `main` of src/main.rs calls to start the server: RocksDB's opening, the clients of the node,
-- the HTTP server and its middleware for CORS. What each of them answers is a parameter.
use keyserver_rust.Prelude.{ℕ, Bool, Option, List, Result, Outcome}
use keyserver_rust.Prelude.Bytes.{Bytes}
use keyserver_rust.Http.{Request, Response, HeaderName}
use keyserver_rust.Crates.{Crates, Rpc}
use keyserver_rust.Db.{CompactionDecision}

-- rocksdb: the options that the source sets.
pub record OpenOptions (x : Crates) : Type 0 where
  pub create_if_missing : Bool
  pub filter_name : Bytes
  -- The filter of a stored value, with a reading of the clock
  pub compaction_filter : Bytes → ℕ → Outcome x.RocksError CompactionDecision

-- actix-cors: what the source sets.
pub record CorsOptions : Type 0 where
  pub allowed_methods : List Bytes
  pub allowed_headers : List HeaderName
  pub expose_headers : List HeaderName

pub record System (x : Crates) (Subscription : Type 0) : Type 1 where
  pub ZmqError : Type 0
  pub IoError : Type 0
  pub HttpClient : Type 0
  -- `DB::open(&opts, path)`
  pub open_db : OpenOptions x → Bytes → Result x.RocksError x.Db
  -- `HttpClient::new(endpoint, username, password)`, and what it meets at its i-th use
  pub http_client : Bytes → Option Bytes → Option Bytes → HttpClient
  pub node : HttpClient → ℕ → Rpc
  -- `ZMQListener::bind(addr).await`: the messages of its stream
  pub listen : Bytes → Result ZmqError (List (Result Subscription Bytes))
  -- `HttpServer::bind`
  pub bind : Bytes → Result IoError (Unit {0})
  -- A request that the middleware answers by itself, and its headers on any other answer
  pub intercept : CorsOptions → Request → Option Response
  pub decorate : CorsOptions → Request → Response → Response
