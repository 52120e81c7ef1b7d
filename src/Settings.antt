-- ===== src/Settings.antt =====
-- src/settings.rs: the configuration of a server.
pub mod Load
pub mod Precedence
use keyserver_rust.Prelude.{ℕ}
use keyserver_rust.Prelude.Bytes.{Bytes}
use keyserver_rust.Bitcoin.Network.{Network}

pub record Settings : Type 0 where
  pub bind : Bytes
  pub node_ip : Bytes
  pub rpc_port : ℕ
  pub rpc_username : Bytes
  pub rpc_password : Bytes
  pub zmq_port : ℕ
  pub secret : Bytes
  pub db_path : Bytes
  pub network : Network
