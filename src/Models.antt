-- ===== src/Models.antt =====
-- The messages of `models` (src/main.rs): the structs of the protocol buffers, with the fields that
-- the source reads and builds. Their encoders and decoders are generated and stand in `Crates`.
pub mod Equal
use keyserver_rust.Prelude.{ℕ, Option, List}
use keyserver_rust.Prelude.Int.{ℤ}
use keyserver_rust.Prelude.Bytes.{Bytes}

-- `address_metadata`; the program reads a payload's timestamp and time to live, in seconds.
pub record Header : Type 0 where
  pub name : Bytes
  pub value : Bytes

pub record Entry : Type 0 where
  pub kind : Bytes
  pub headers : List Header
  pub entry_data : Bytes

pub record Payload : Type 0 where
  pub timestamp : ℤ
  pub ttl : ℤ
  pub entries : List Entry

pub record AddressMetadata : Type 0 where
  pub pub_key : Bytes
  pub serialized_payload : Bytes
  pub signature : Bytes
  pub scheme : ℕ

-- `bip70::Output`
pub record Output : Type 0 where
  pub amount : Option ℕ
  pub script : Bytes

pub record PaymentDetails : Type 0 where
  pub network : Option Bytes
  pub outputs : List Output
  pub time : ℕ
  pub expires : Option ℕ
  pub memo : Option Bytes
  pub payment_url : Option Bytes
  pub merchant_data : Option Bytes

pub record PaymentRequest : Type 0 where
  pub payment_details_version : Option ℕ
  pub pki_type : Option Bytes
  pub pki_data : Option Bytes
  pub serialized_payment_details : Bytes
  pub signature : Option Bytes

pub record Payment : Type 0 where
  pub merchant_data : Option Bytes
  pub transactions : List Bytes
  pub refund_to : List Output
  pub memo : Option Bytes

pub record PaymentAck : Type 0 where
  pub payment : Payment
  pub memo : Option Bytes

-- The parts of the `bitcoin` crate's transaction that the program reads.
pub record TxOut : Type 0 where
  pub value : ℕ
  pub script_pubkey : Bytes

pub record Transaction : Type 0 where
  pub output : List TxOut

-- `bitcoincash_addr::Network`
pub data AddrNetwork : Type 0 where
  main test regtest : AddrNetwork
