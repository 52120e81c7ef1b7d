-- ===== src/Crates.antt =====
-- The code that the program calls and that is not in the repository: the crates and the generated
-- encoders. Each crate is a record of the operations that the source uses; what the source relies
-- on of them is a record of laws.
pub mod Laws
pub mod Environment
pub mod Client
pub mod Payer
pub mod System
use keyserver_rust.Prelude.{ℕ, Option, Bool, Result, List}
use keyserver_rust.Prelude.Bytes.{Bytes}
use keyserver_rust.Models.{
  Payload, AddressMetadata, PaymentDetails, PaymentRequest, Payment, PaymentAck, Transaction,
  AddrNetwork,
}

-- bitcoin_hashes
pub record Hashes : Type 0 where
  pub hash160 : Bytes → Bytes
  pub sha256 : Bytes → Bytes
  -- the secret, then the message
  pub hmac_sha256 : Bytes → Bytes → Bytes

-- subtle: `a.ct_eq(b).unwrap_u8()`
pub record Subtle : Type 0 where
  pub ct_eq : Bytes → Bytes → ℕ

-- secp256k1; the errors are dropped by every caller.
pub record Secp : Type 1 where
  pub Key : Type 0
  pub Sig : Type 0
  pub Message : Type 0
  pub key_from_slice : Bytes → Option Key
  pub key_serialize : Key → Bytes
  pub sig_from_compact : Bytes → Option Sig
  pub message_from_slice : Bytes → Option Message
  pub verify : Message → Sig → Key → Bool

-- bitcoincash_addr
pub record CashAddr : Type 1 where
  pub Address : Type 0
  pub CashError : Type 0
  pub Base58Error : Type 0
  pub decode : Bytes → Result (CashError × Base58Error) Address
  pub encode : Address → Option Bytes
  -- `as_body` and `into_body`
  pub body : Address → Bytes
  pub addr_network : Address → AddrNetwork
  -- `hash_type == HashType::Key`
  pub is_key_hash : Address → Bool
  -- `Address { body, network, ..Default::default() }`
  pub address : Bytes → AddrNetwork → Address
  pub show_cash : CashError → Bytes
  pub show_base58 : Base58Error → Bytes

-- rocksdb; the state of the database includes whatever makes a call fail.
pub record Rocks : Type 1 where
  pub Db : Type 0
  pub RocksError : Type 0
  pub show_rocks : RocksError → Bytes
  pub db_get : Db → Bytes → Result RocksError (Option Bytes) × Db
  pub db_put : Db → Bytes → Bytes → Result RocksError (Unit {0}) × Db
  pub db_delete : Db → Bytes → Result RocksError (Unit {0}) × Db

-- prost, with the code that it generates from the protocol files
pub record Codecs : Type 0 where
  pub decode_metadata : Bytes → Option AddressMetadata
  pub encode_metadata : AddressMetadata → Bytes
  pub decode_payload : Bytes → Option Payload
  pub encode_details : PaymentDetails → Bytes
  pub encode_request : PaymentRequest → Bytes
  pub decode_payment : Bytes → Option Payment
  pub encode_ack : PaymentAck → Bytes

-- actix-web's header values, base64 with the URL-safe alphabet, hex, url, and bitcoin's transactions
pub record Web : Type 1 where
  pub TxError : Type 0
  pub to_str : Bytes → Option Bytes
  pub hex_encode : Bytes → Bytes
  pub base64_encode : Bytes → Bytes
  pub base64_decode : Bytes → Option Bytes
  -- `Url::parse(s)`, then `into_string`
  pub parse_url : Bytes → Option Bytes
  pub decode_tx : Bytes → Result TxError Transaction

pub record Crates : Type 1 where
  pub hashes : Hashes
  pub open hashes use *
  pub subtle : Subtle
  pub open subtle use *
  pub secp : Secp
  pub open secp use *
  pub cashaddr : CashAddr
  pub open cashaddr use *
  pub rocks : Rocks
  pub open rocks use *
  pub codecs : Codecs
  pub open codecs use *
  pub web : Web
  pub open web use *

-- What reqwest and url answer a call to a peer: parsing the URL, sending the request, receiving
-- the body.
pub record PeerNet : Type 1 where
  pub ParseError : Type 0
  pub ReqError : Type 0
  pub Reply : Type 0
  pub parse_peer_url : Bytes → Result ParseError Bytes
  pub send : Bytes → Result ReqError Reply
  pub receive : Reply → Result ReqError Bytes

-- async-json-rpc: a request, and what the node answers to it.
pub record RpcRequest : Type 0 where
  pub method : Bytes
  pub params : List Bytes

pub record Rpc : Type 1 where
  pub HttpError : Type 0
  pub RpcError : Type 0
  pub JsonError : Type 0
  pub RpcResponse : Type 0
  pub send_request : RpcRequest → Result HttpError RpcResponse
  pub is_error : RpcResponse → Bool
  pub error : RpcResponse → Option RpcError
  -- `into_result::<String>()`
  pub into_result : RpcResponse → Option (Result JsonError Bytes)
