-- ===== src/Tests/Server.antt =====
-- A stream of announcements polled to its end, and the resource of keys, at concrete inputs.
use keyserver_rust.Prelude.{
  ◌≡◌, refl, none, some, List, [], ◌∷◌, ◌++◌, done, length, take, drop, if◌then◌else◌,
}
use keyserver_rust.Prelude.Bytes.{Bytes, text, bytes_eq, str_from, str_to, is_char_boundary}
use keyserver_rust.Models.{regtest}
use keyserver_rust.Net.Peer.{PollEnd, peer_polling}
use keyserver_rust.Http.{Request, put_method, other_method, authorization, respond, status_ok}
use keyserver_rust.Crypto.Token.{generate_token, validate_token}
use keyserver_rust.Crypto.{validate, deserialize_public_key, deserialize_signature, verify}
use keyserver_rust.Db.{expired, get, put, check_timestamp}
use keyserver_rust.Prelude.Int.{add64, cast64}
use keyserver_rust.Db.Timestamps.{IsKept}
use keyserver_rust.Net.Keys.{put_key}
use keyserver_rust.Net.CheckPayment.{merchant_url, decide, call}
use keyserver_rust.Net.CheckPayment.Tokens.{IsPaid}
use keyserver_rust.Server.Routes.{
  keys, payments, elsewhere, Router, keys_resource, keys_resource-IsKept,
}
use keyserver_rust.Server.Integrity.{IsIntegral}
use keyserver_rust.Server.Polling.{Item, peer_polling-IsIntegral}
use keyserver_rust.Tests.World.{crates, codecs, peer, node}
use keyserver_rust.Tests.Meets.{digest_laws, rocks_laws, codec_laws, subtle_laws, web_laws}
use keyserver_rust.Tests.Database.{key, metadata, body, empty, empty-IsIntegral, empty-IsWellFormed}
use keyserver_rust.Tests.Payments.{settings}

-- A stored announcement between two failures of the stream.
abbrev items : List (Item crates)
items =
    (peer [], none, 100, 100)
    ∷ (peer (codecs.encode_metadata metadata), some (text "http://h", (key, regtest)), 120, 120)
    ∷ (peer [], none, 130, 130)
    ∷ []

peer_polling-IsIntegral_example :
    (ends : List PollEnd) × ((peer_polling crates items empty).0 ≡ done ends)
    × (length ends ≡ length items)
    × IsIntegral crates rocks_laws (peer_polling crates items empty).1
peer_polling-IsIntegral_example =
    peer_polling-IsIntegral crates rocks_laws codec_laws digest_laws empty items empty-IsIntegral

-- `{addr}` is what follows "/keys/".
abbrev pub router : Router
router = record {
  target = λ req.
      if bytes_eq (take 6 req.path) (text "/keys/")
      then keys
      else if bytes_eq req.path (text "/payments")
      then payments
      else elsewhere;
  addr = λ req. drop 6 req.path;
  no_route = respond 405 [];
  static_file = λ req. respond 404 [];
}

abbrev pub get_request : Request
get_request = record {
  method = other_method (text "GET");
  header = λ name. none;
  scheme = text "http";
  host = text "h";
  path = text "/keys/" ++ key;
  query = none;
}

abbrev token_str : Bytes
token_str = crates.base64_encode (generate_token crates (merchant_url get_request) settings.secret)

-- A PUT with the token of its URL.
abbrev pub put_request : Request
put_request = record get_request {
  method = put_method;
  header = λ name. elim name [ authorization ↦ some (text "POP " ++ token_str) | other ↦ none ];
}

put_request-IsPaid : IsPaid crates settings put_request
unfolding merchant_url text generate_token
put_request-IsPaid = record {
  value = text "POP " ++ token_str;
  token_str = token_str;
  has_header = refl;
  reads = refl;
  decodes = refl;
}

put_stored :
    (keys_resource crates router settings (node []) put_request 100 body 120 120 ([], empty)).0
    ≡ done (respond status_ok [])
unfolding keys_resource call decide str_from str_to is_char_boundary validate_token generate_token
    merchant_url text bytes_eq put_key validate deserialize_public_key deserialize_signature verify
    check_timestamp get put expired add64 cast64
put_stored = refl

keys_resource-IsKept_example :
    IsKept crates rocks_laws empty 120
      (keys_resource crates router settings (node []) get_request 100 [] 120 120 ([], empty)).1.1
keys_resource-IsKept_example =
    keys_resource-IsKept crates router rocks_laws settings subtle_laws web_laws (node [])
      get_request 100 [] 120 120 [] empty empty-IsWellFormed (λ e p. cc)
