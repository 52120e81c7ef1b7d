-- ===== src/Net/Peer.antt =====
-- `PeerClient` of src/net/peer.rs: metadata is pulled from the peers that transactions announce.
-- What the network answers is an argument of each call, and a log line is the way a poll ends.
pub mod Polls
use keyserver_rust.Prelude.{
  ℕ, Result, ok, err, Option, none, some, List, [], ◌∷◌, ◌++◌, Outcome, done, fail, panic,
}
use keyserver_rust.Prelude.Bytes.{Bytes, text}
use keyserver_rust.Prelude.Exec.{Exec, pure, ◌>>=◌, ◌>>◌}
use keyserver_rust.Models.{Payload, AddressMetadata}
use keyserver_rust.Crates.{Crates, PeerNet}
use keyserver_rust.Errors.{ValidationError}
use keyserver_rust.Crypto.{validate, secp256k1}
use keyserver_rust.Db.{put, check_timestamp}

pub data PeerError (n : PeerNet) : Type 0 where
  url_error : n.ParseError → PeerError n
  response_error : n.ReqError → PeerError n
  decode : PeerError n

module _ (n : PeerNet) where
  -- `From<ParseError> for PeerError`
  abbrev pub from_parse : n.ParseError → PeerError n
  from_parse e = url_error e

  unfoldable pub fetch : Bytes → Result (PeerError n) Bytes
  fetch url = elim (n.send url) [
    | err e ↦ err (response_error e)
    | ok reply ↦ elim (n.receive reply) [ err e ↦ err (response_error e) | ok body ↦ ok body ]
  ]

  unfoldable pub get_metadata : Bytes → Bytes → Result (PeerError n) Bytes
  unfolding fetch
  get_metadata peer_url bitcoin_addr =
      elim (n.parse_peer_url (peer_url ++ (text "/keys/" ++ bitcoin_addr))) [
        | err e ↦ err (from_parse e)
        | ok url ↦ fetch url
      ]

-- How the closure of `peer_polling` returns; all but the first and the last write a log line.
pub data PollEnd : Type 0 where
  stream_failed not_encoded not_fetched not_decoded : PollEnd
  not_valid : ValidationError → PollEnd
  bad_payload not_newer not_checked not_stored stored : PollEnd

module _ (x : Crates) where
  -- No error leaves the closure: it logs and returns.
  abbrev pub Poll : Type 0
  Poll = Exec x.Db ⊥ PollEnd

  -- What is done with the outcome of `put`, and before it with that of `check_timestamp`.
  unfoldable pub end_put : Outcome x.RocksError (Unit {0}) × x.Db → Outcome ⊥ PollEnd × x.Db
  end_put (done u, d) = (done stored, d)
  end_put (fail e, d) = (done not_stored, d)
  end_put (panic, d) = (panic, d)

  unfoldable pub end_check :
      x.Address
      → AddressMetadata
      → Outcome x.RocksError (Result ValidationError (Unit {0})) × x.Db
      → Outcome ⊥ PollEnd × x.Db
  unfolding end_put
  end_check addr metadata (done (err e), d) = (done not_newer, d)
  end_check addr metadata (fail e, d) = (done not_checked, d)
  end_check addr metadata (done (ok u), d) = end_put (put x addr metadata d)
  end_check addr metadata (panic, d) = (panic, d)

  -- `validate` and the payload, once the metadata is decoded.
  unfoldable pub end_validate :
      x.Address → AddressMetadata → ℕ → ℕ → Outcome ValidationError (Unit {0}) → Poll
  unfolding end_check
  end_validate addr metadata now later (fail e) d = (done (not_valid e), d)
  end_validate addr metadata now later panic d = (panic, d)
  end_validate addr metadata now later (done u) d =
      elim (x.decode_payload metadata.serialized_payload) [
        | none ↦ (done bad_payload, d)
        | some payload ↦ end_check addr metadata (check_timestamp x addr payload now later d)
      ]

  -- The closure of `peer_polling`, for an item of the stream, what the network answers and the two
  -- readings of the clock.
  unfoldable pub poll : (n : PeerNet) → Option (Bytes × x.Address) → ℕ → ℕ → Poll
  unfolding end_validate
  poll n none now later d = (done stream_failed, d)
  poll n (some (peer_addr, bitcoin_addr)) now later d = elim (x.encode bitcoin_addr) [
    | none ↦ (done not_encoded, d)
    | some bitcoin_addr_str ↦ elim (get_metadata n peer_addr bitcoin_addr_str) [
      | err e ↦ (done not_fetched, d)
      | ok metadata_raw ↦ elim (x.decode_metadata metadata_raw) [
        | none ↦ (done not_decoded, d)
        | some metadata ↦
            end_validate bitcoin_addr metadata now later
              (validate x (secp256k1 x.secp) bitcoin_addr metadata) d
      ]
    ]
  ]

  -- `for_each`: one item after the other; a panic ends the task.
  unfoldable pub peer_polling :
      List (PeerNet × Option (Bytes × x.Address) × ℕ × ℕ) → Exec x.Db ⊥ (List PollEnd)
  unfolding poll
  peer_polling [] = pure []
  peer_polling ((n, item, now, later) ∷ items) = do
    end ← poll n item now later
    rest ← peer_polling items
    pure (end ∷ rest)
