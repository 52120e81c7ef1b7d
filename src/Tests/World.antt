-- ===== src/Tests/World.antt =====
-- A stand-in for the crates that meets their laws: the encodings are invertible, a database is a
-- function, a signature is valid if it repeats the key.
use keyserver_rust.Prelude.{
  List, ℕ, zero, suc, ◌≡◌, refl, ap, Bool, true, false, ◌&&◌, Option, none, some, [], ◌∷◌, ◌++◌,
  Result, ok, err, arith, ◌+◌, length, take, drop, replicate, length-append, length-take, ltb, ◌==◌,
  if◌then◌else◌,
}
use keyserver_rust.Prelude.Int.{pos, sub_ℕ, pos_part, neg_part}
use keyserver_rust.Prelude.Bytes.{Bytes, bytes_eq}
use keyserver_rust.Models.{Entry, Payload, AddressMetadata, AddrNetwork, regtest, Transaction}
use keyserver_rust.Net.Keys.Scenarios.{test_entries}
use keyserver_rust.Crates.Client.{Client}
use keyserver_rust.Tests.Wire
use keyserver_rust.Crates.{Hashes, Subtle, Secp, CashAddr, Rocks, Codecs, Web, Rpc, PeerNet, Crates}

-- The first n bytes, filled up with zeros.
abbrev pub pad : ℕ → Bytes → Bytes
pad n m = take n (m ++ replicate n 0)

length-replicate : (n : ℕ) → length {A = ℕ} (replicate n 0) ≡ n
length-replicate zero = refl
length-replicate (suc n) = ap suc (length-replicate n)

pub length-pad : (n : ℕ) (m : Bytes) → length (pad n m) ≡ n
length-pad n m =
    length-take n (m ++ replicate n 0)
      (omega (arith, length-append m (replicate n 0), length-replicate n))

abbrev pub hashes : Hashes
hashes = record { hash160 = pad 20; sha256 = pad 32; hmac_sha256 = λ secret msg. secret ++ msg }

abbrev pub subtle : Subtle
subtle = record { ct_eq = λ a b. if bytes_eq a b then 1 else 0 }

abbrev pub secp : Secp
secp = record {
  Key = Bytes;
  Sig = Bytes;
  Message = Bytes;
  key_from_slice = λ raw. some raw;
  key_serialize = λ key. key;
  sig_from_compact = λ raw. some raw;
  message_from_slice = λ m. if length m == 32 then some m else none;
  verify = λ msg sig key. bytes_eq sig key;
}

-- A number as that many letters a, then b.
abbrev pub letters : Bytes → Bytes
letters [] = []
letters (n ∷ ns) = replicate n 97 ++ 98 ∷ letters ns

abbrev pub cons_some : ℕ → Option Bytes → Option Bytes
cons_some n none = none
cons_some n (some ns) = some (n ∷ ns)

abbrev pub numbers : ℕ → Bytes → Option Bytes
numbers n [] = some []
numbers n (c ∷ cs) =
    let rest = numbers (suc n) cs in
    let next = numbers 0 cs in if c == 97 then rest else cons_some n next

abbrev pub base58_address : Option Bytes → Result (Unit {0} × Unit {0}) (Bytes × AddrNetwork)
base58_address none = err (tt, tt)
base58_address (some b) = ok (b, regtest)

-- An i begins no address, a 1 a base58 one.
abbrev pub decode_address_str : Bytes → Result (Unit {0} × Unit {0}) (Bytes × AddrNetwork)
decode_address_str [] = err (tt, tt)
decode_address_str (b ∷ s) =
    if b == 105
    then err (tt, tt)
    else if b == 49
    then base58_address (numbers 0 s)
    else ok (b ∷ s, regtest)

abbrev pub cashaddr : CashAddr
cashaddr = record {
  Address = Bytes × AddrNetwork;
  CashError = Unit {0};
  Base58Error = Unit {0};
  decode = decode_address_str;
  encode = λ a. some a.0;
  body = λ a. a.0;
  addr_network = λ a. a.1;
  is_key_hash = λ a. true;
  address = λ b n. (b, n);
  show_cash = λ e. [];
  show_base58 = λ e. [];
}

abbrev pub Store : Type 0
Store = Bytes → Option Bytes

abbrev pub rocks : Rocks
rocks = record {
  Db = Store;
  RocksError = Unit {0};
  show_rocks = λ e. [];
  db_get = λ d k. (ok (d k), d);
  db_put = λ d k v. (ok tt, λ j. if bytes_eq k j then some v else d j);
  db_delete = λ d k. (ok tt, λ j. if bytes_eq k j then none else d j);
}

abbrev pub decode_metadata_bytes : Bytes → Option AddressMetadata
decode_metadata_bytes (s ∷ n ∷ k ∷ rest) =
    if ltb (length rest) (n + k)
    then none
    else some (record {
      pub_key = take n rest;
      serialized_payload = take k (drop n rest);
      signature = drop k (drop n rest);
      scheme = s;
    })
decode_metadata_bytes _ = none

abbrev pub decode_payload_bytes : Bytes → Option Payload
decode_payload_bytes (t ∷ l ∷ []) = some (record { timestamp = pos t; ttl = pos l; entries = [] })
decode_payload_bytes (a ∷ b ∷ l ∷ []) =
    some (record { timestamp = sub_ℕ a b; ttl = pos l; entries = [] })
decode_payload_bytes (a ∷ b ∷ l ∷ mark ∷ rest) =
    some (record { timestamp = sub_ℕ a b; ttl = pos l; entries = test_entries })
decode_payload_bytes _ = none

abbrev pub codecs : Codecs
codecs = record {
  decode_metadata = decode_metadata_bytes;
  encode_metadata = λ m.
      m.scheme
      ∷ length m.pub_key
      ∷ length m.serialized_payload
      ∷ (m.pub_key ++ (m.serialized_payload ++ m.signature));
  decode_payload = decode_payload_bytes;
  encode_details = Wire.encode_details;
  encode_request = Wire.encode_request;
  decode_payment = Wire.Payments.decode_payment;
  encode_ack = Wire.Payments.encode_ack;
}

abbrev pub ascii : Bytes → Bool
ascii [] = true
ascii (b ∷ s) = ltb b 128 && ascii s

-- One output: its amount, then its script.
abbrev pub decode_tx_bytes : Bytes → Result (Unit {0}) Transaction
decode_tx_bytes [] = err tt
decode_tx_bytes (v ∷ s) = ok (record { output = record { value = v; script_pubkey = s } ∷ [] })

abbrev pub web : Web
web = record {
  TxError = Unit {0};
  to_str = λ s. if ascii s then some s else none;
  hex_encode = λ b. b;
  base64_encode = letters;
  base64_decode = numbers 0;
  parse_url = λ s. some s;
  decode_tx = decode_tx_bytes;
}

abbrev pub crates : Crates
crates = record {
  hashes = hashes;
  subtle = subtle;
  secp = secp;
  cashaddr = cashaddr;
  rocks = rocks;
  codecs = codecs;
  web = web;
}

-- A node that answers every request with one text.
abbrev pub node : Bytes → Rpc
node reply = record {
  HttpError = Unit {0};
  RpcError = Unit {0};
  JsonError = Unit {0};
  RpcResponse = Bytes;
  send_request = λ request. ok reply;
  is_error = λ response. false;
  error = λ response. none;
  into_result = λ response. some (ok response);
}

-- A peer that serves one body.
abbrev pub peer : Bytes → PeerNet
peer reply = record {
  ParseError = Unit {0};
  ReqError = Unit {0};
  Reply = Bytes;
  parse_peer_url = λ url. ok url;
  send = λ url. ok reply;
  receive = λ r. ok r;
}

-- There are no entries, or those of the tests.
abbrev pub mark_entries : List Entry → Bytes
mark_entries [] = []
mark_entries (e ∷ es) = 1 ∷ []

abbrev pub client : Client crates
client = record {
  SecretKey = Bytes;
  public_key = λ sk. sk;
  sign = λ m sk. sk;
  serialize_compact = λ sig. sig;
  encode_payload =
      λ p. pos_part p.timestamp ∷ neg_part p.timestamp ∷ pos_part p.ttl ∷ mark_entries p.entries;
  encode_base58 = λ b n. some (49 ∷ letters b);
  decode_request = Wire.decode_request;
  decode_details = Wire.decode_details;
}
