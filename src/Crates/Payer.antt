-- ===== src/Crates/Payer.antt =====
-- What the test `test_put_payment` of src/net/payments.rs calls to pay: the calls to the wallet of the
-- node, URLs, and the client's half of the generated encoders, with the laws that it relies on.
use keyserver_rust.Prelude.{ℕ, ◌≡◌, ◌++◌, ok, Option, some, List, [], ◌∷◌, done, length}
use keyserver_rust.Prelude.Bytes.{Bytes, text}
use keyserver_rust.Prelude.Int.{ℤ, pos, ◌+ℤ◌, ◌≤ℤ◌}
use keyserver_rust.Models.{AddrNetwork, Payment, PaymentAck, Transaction, TxOut}
use keyserver_rust.Bitcoin.Script.{p2pkh_pre, p2pkh_post}
use keyserver_rust.Bitcoin.Client.{send_tx}
use keyserver_rust.Crates.{Crates, Rpc}
use keyserver_rust.Crates.Client.{Client}

-- An unspent output of the node's wallet; amounts are in units of 10⁻⁸, which decimals are exactly.
pub record Outpoint : Type 0 where
  pub txid : Bytes
  pub vout : ℕ
  pub amount : ℤ
  pub address : Bytes

-- The parts of a URL; a port as it is displayed.
pub record Location : Type 0 where
  pub scheme : Bytes
  pub host : Option Bytes
  pub port : Option Bytes
  pub path : Bytes

pub record Payer (x : Crates) : Type 0 where
  -- The results of the node's calls, `none` where a call or reading its result fails.
  pub list_unspent : Option (List Outpoint)
  pub create_raw_transaction : Bytes → ℕ → List (Bytes × ℤ) → Option Bytes
  pub sign_raw_transaction : Bytes → Option Bytes
  pub hex_decode : Bytes → Option Bytes
  pub locate : Bytes → Option Location
  pub encode_payment : Payment → Bytes
  pub decode_ack : Bytes → Option PaymentAck

abbrev pub at_server : Bytes → Location
at_server path = record {
  scheme = text "http";
  host = some (text "localhost");
  port = some (text "8080");
  path = path;
}

-- Payments and acknowledgements are read as they were written; the URLs of the server under test
-- parse to their parts, and are printed as they were.
pub record PayerLaws (x : Crates) (c : Client x) (p : Payer x) : Type 0 where
  pub decode-encode_payment : (m : Payment) → x.decode_payment (p.encode_payment m) ≡ some m
  pub decode-encode_ack : (a : PaymentAck) → p.decode_ack (x.encode_ack a) ≡ some a
  pub locate_payments :
      p.locate (text "http://localhost:8080/payments") ≡ some (at_server (text "/payments"))
  pub locate_key :
      (b s : Bytes) (n : AddrNetwork)
      → c.encode_base58 b n ≡ some s
      → p.locate (text "http://localhost:8080/keys/" ++ s) ≡ some (at_server (text "/keys/" ++ s))
  pub parse_key :
      (b s : Bytes) (n : AddrNetwork)
      → c.encode_base58 b n ≡ some s
      → x.parse_url (text "http://localhost:8080/keys/" ++ s)
        ≡ some (text "http://localhost:8080/keys/" ++ s)

-- A transaction that the node's wallet has made of an unspent output, to outputs of which the first
-- pays an amount to a hash: it has such an output, and the node takes it.
pub record IsSent (x : Crates) (p : Payer x) (r : Rpc) (u : Outpoint) (outputs : List (Bytes × ℤ))
    (amount : ℕ) (pk : Bytes) : Type 0 where
  pub unsigned : Bytes
  pub hex : Bytes
  pub raw : Bytes
  pub tx : Transaction
  pub before : List TxOut
  pub after : List TxOut
  pub txid : Bytes
  pub created : p.create_raw_transaction u.txid u.vout outputs ≡ some unsigned
  pub signed : p.sign_raw_transaction unsigned ≡ some hex
  pub unhexed : p.hex_decode hex ≡ some raw
  pub parsed : x.decode_tx raw ≡ ok tx
  pub split :
      tx.output
      ≡ before ++ record { value = amount; script_pubkey = p2pkh_pre ++ (pk ++ p2pkh_post) } ∷ after
  pub sent : send_tx r x raw ≡ done txid

-- An unspent output can be spent on the address of a hash and on one other, for amounts that are
-- not negative and that it covers.
pub record WalletLaws (x : Crates) (c : Client x) (p : Payer x) (r : Rpc) : Type 0 where
  pub spends :
      (u : Outpoint) (us : List Outpoint) (pk to other : Bytes) (n : AddrNetwork) (amount : ℕ)
      (change : ℤ)
      → p.list_unspent ≡ some (u ∷ us)
      → length pk ≡ 20
      → c.encode_base58 pk n ≡ some to
      → pos 0 ≤ℤ change
      → pos amount +ℤ change ≤ℤ u.amount
      → IsSent x p r u ((to, pos amount) ∷ (other, change) ∷ []) amount pk
