-- ===== src/Tests/Chain.antt =====
-- The background task over a stream of the node, at a concrete input.
use keyserver_rust.Prelude.{◌≡◌, refl, ◌⊎◌, Result, ok, err, List, [], ◌∷◌, done}
use keyserver_rust.Prelude.Bytes.{Bytes, text, bytes_eq}
use keyserver_rust.Prelude.Int.{add64, cast64}
use keyserver_rust.Prelude.Utf8.{from_utf8, is_utf8}
use keyserver_rust.Bitcoin.Network.{into_addr_network}
use keyserver_rust.Bitcoin.Script.{extract_op_return, own_url}
use keyserver_rust.Bitcoin.Script.Shape.{announcement}
use keyserver_rust.Bitcoin.TxStream.{get_tx_stream, extract_details}
use keyserver_rust.Crypto.{validate, deserialize_public_key, deserialize_signature, verify}
use keyserver_rust.Db.{expired, get, put, check_timestamp}
use keyserver_rust.Net.Peer.{PollEnd, stream_failed, stored, poll, get_metadata, peer_polling}
use keyserver_rust.Server.Integrity.{IsIntegral}
use keyserver_rust.Server.Chain.{Surroundings, follow_chain, IsAnnounced}
use keyserver_rust.Server.Chain.Announced.{IsShrunk, follow_chain-IsAnnounced}
use keyserver_rust.Tests.World.{crates, codecs, peer}
use keyserver_rust.Tests.Meets.{digest_laws, rocks_laws, codec_laws}
use keyserver_rust.Tests.Database.{key, metadata, empty, empty-IsIntegral}
use keyserver_rust.Tests.Payments.{settings}

-- A failure of the subscription, then a transaction that announces the key.
abbrev pub messages : List (Result (Unit {0}) Bytes)
messages = err tt ∷ ok (0 ∷ announcement 40 key (text "http://peer")) ∷ []

abbrev surroundings : Surroundings
surroundings i = (peer (codecs.encode_metadata metadata), 120, 120)

ends :
    (follow_chain crates (Unit {0}) settings surroundings messages empty).0
    ≡ done (stream_failed ∷ stored ∷ [])
unfolding follow_chain get_tx_stream extract_details extract_op_return from_utf8 is_utf8 own_url
    into_addr_network peer_polling poll get_metadata validate deserialize_public_key
    deserialize_signature verify check_timestamp get put expired add64 cast64 bytes_eq text
ends = refl

follow_chain-IsAnnounced_example :
    ((l : List PollEnd) × ((follow_chain crates (Unit {0}) settings surroundings messages empty).0
        ≡ done l))
    × IsIntegral crates rocks_laws
        (follow_chain crates (Unit {0}) settings surroundings messages empty).1
    × (IsShrunk crates rocks_laws empty
          (follow_chain crates (Unit {0}) settings surroundings messages empty).1
          key
        ⊎ IsAnnounced crates (Unit {0}) settings messages key)
follow_chain-IsAnnounced_example =
    follow_chain-IsAnnounced crates rocks_laws codec_laws digest_laws (Unit {0}) settings
      surroundings messages empty key empty-IsIntegral
