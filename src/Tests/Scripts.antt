-- ===== src/Tests/Scripts.antt =====
-- The scripts, the wallet and the stream of announcements at concrete inputs.
use keyserver_rust.Prelude.{
  ◌≡◌, ◌≢◌, refl, ◌↔◌, true, none, some, List, [], ◌∷◌, replicate, length, ◌+◌, ◌≤◌, All, ◌++◌,
}
use keyserver_rust.Prelude.Bytes.{Bytes, text, bytes_eq}
use keyserver_rust.Prelude.Utf8.{is_utf8, from_utf8}
use keyserver_rust.Models.{Transaction, TxOut, regtest}
use keyserver_rust.Settings.{Settings}
use keyserver_rust.Errors.{db, error_response}
use keyserver_rust.Errors.Statuses.{error_response_lem}
use keyserver_rust.Bitcoin.Network.{regnet, into_addr_network}
use keyserver_rust.Bitcoin.Script.{
  price, extract_pubkey_hash, extract_op_return, generate_outputs, own_url,
}
use keyserver_rust.Bitcoin.Script.Shape.{p2pkh, IsAnnouncement, extract_op_return_iff, announcement}
use keyserver_rust.Bitcoin.Script.RoundTrip.{script_of, extract_op_return-generate_iff}
use keyserver_rust.Bitcoin.Wallet.{check_outputs, check_p2pkh, contains, add, remove}
use keyserver_rust.Bitcoin.Wallet.Payments.{Pays, IsVerdict, check_outputs-IsVerdict}
use keyserver_rust.Bitcoin.Wallet.Lifetime.{
  Event, issue, pay, run, issued, payees, payee, count, has, issued_to, accepted-le-issued,
}
use keyserver_rust.Bitcoin.Wallet.Interleaving.{
  Turn, turn, calling, accepted, refused, advance, verdict, interleave, issues, calls, IsBacked,
  advance-check_p2pkh, interleave-IsBacked, interleave-race,
}
use keyserver_rust.Tests.World.{crates, cashaddr}

abbrev hash : Bytes
hash = replicate 20 3

abbrev host : Bytes
host = text "http://peer"

abbrev settings : Settings
settings = record {
  bind = text "here";
  node_ip = [];
  rpc_port = 18443;
  rpc_username = [];
  rpc_password = [];
  zmq_port = 28332;
  secret = [];
  db_path = [];
  network = regnet;
}

scripts : Unit {0}
unfolding extract_pubkey_hash extract_op_return generate_outputs text bytes_eq is_utf8 from_utf8
    own_url into_addr_network check_outputs check_p2pkh contains
scripts = tt

-- The repository's own test of the scripts, and the announcement read back.
read_back :
    (extract_pubkey_hash (script_of 0 (generate_outputs hash [] hash)) ≡ some hash)
    × (extract_op_return cashaddr settings (script_of 1 (generate_outputs hash host hash))
        ≡ some (host, (hash, regtest)))
    × (extract_op_return cashaddr settings (script_of 1 (generate_outputs hash [] hash)) ≡ none)
unfolding scripts
read_back = (refl, refl, refl)

extract_op_return_iff_example :
    (extract_op_return cashaddr settings (announcement 40 hash host) ≡ some (host, (hash, regtest)))
    ↔ IsAnnouncement cashaddr settings (announcement 40 hash host) host (hash, regtest)
extract_op_return_iff_example =
    extract_op_return_iff cashaddr settings (announcement 40 hash host) host (hash, regtest)

extract_op_return-generate_iff_example :
    (extract_op_return cashaddr settings (script_of 1 (generate_outputs hash host hash))
      ≡ some (host, cashaddr.address hash (into_addr_network settings.network)))
    ↔ ((1 ≤ length host)
        × (length host ≤ 226)
        × (is_utf8 host ≡ true)
        × (host ≢ own_url cashaddr settings))
extract_op_return-generate_iff_example =
    extract_op_return-generate_iff cashaddr settings hash host hash refl

abbrev tx : Transaction
tx = record {
  output =
      record { value = 4; script_pubkey = p2pkh hash }
      ∷ record { value = 5; script_pubkey = p2pkh hash }
      ∷ record { value = 0; script_pubkey = announcement 40 hash host }
      ∷ [];
}

check_outputs-IsVerdict_example : IsVerdict (hash ∷ []) tx.output (check_outputs tx (hash ∷ []))
check_outputs-IsVerdict_example = check_outputs-IsVerdict tx (hash ∷ [])

abbrev other : Bytes
other = replicate 20 4

abbrev events : List Event
events = pay tx ∷ issue hash ∷ pay tx ∷ pay tx ∷ []

accepted-le-issued_example :
    (length (payees events (other ∷ [])) ≡ (run events (other ∷ [])).0)
    × ((h : Bytes)
        → count h (payees events (other ∷ [])) + has h (run events (other ∷ [])).1
          ≤ issued_to h events + has h (other ∷ []))
    × ((run events (other ∷ [])).0 + length (run events (other ∷ [])).1
        ≤ issued events + length (other ∷ []))
accepted-le-issued_example = accepted-le-issued events (other ∷ [])

-- Of three payments to an address that is issued once, one is accepted.
paid_once : (payees events (other ∷ []) ≡ hash ∷ []) × (run events (other ∷ []) ≡ (1, other ∷ []))
unfolding scripts payees run payee add remove
paid_once = (refl, refl)

-- The output that pays to `hash`.
abbrev paying : TxOut
paying = record { value = price; script_pubkey = p2pkh hash }

paying-Pays : Pays (hash ∷ []) paying hash
unfolding scripts
paying-Pays = (refl, refl, refl)

abbrev schedule : List Turn
schedule = turn 0 ∷ Turn.issue hash ∷ turn 1 ∷ turn 0 ∷ turn 1 ∷ []

advance-check_p2pkh_example :
    (verdict
        (advance
          (advance (calling paying) (hash ∷ [])).0
          (advance (calling paying) (hash ∷ [])).1).0
      ≡ some (check_p2pkh paying (hash ∷ [])).0)
    × ((advance (advance (calling paying) (hash ∷ [])).0 (advance (calling paying) (hash ∷ [])).1).1
        ≡ (check_p2pkh paying (hash ∷ [])).1)
advance-check_p2pkh_example = advance-check_p2pkh paying (hash ∷ [])

interleave-IsBacked_example :
    All
      (IsBacked (issues schedule ++ hash ∷ []))
      (interleave schedule (calls (paying ∷ paying ∷ [])) (hash ∷ [])).0
interleave-IsBacked_example = interleave-IsBacked schedule (paying ∷ paying ∷ []) (hash ∷ [])

interleave-race_example :
    ((interleave
        (turn 0 ∷ turn 0 ∷ turn 1 ∷ turn 1 ∷ [])
        (calling paying ∷ calling paying ∷ [])
        (hash ∷ [])).0
      ≡ accepted hash ∷ refused ∷ [])
    × ((interleave
          (turn 0 ∷ turn 1 ∷ turn 0 ∷ turn 1 ∷ [])
          (calling paying ∷ calling paying ∷ [])
          (hash ∷ [])).0
        ≡ accepted hash ∷ accepted hash ∷ [])
interleave-race_example = interleave-race paying paying (hash ∷ []) hash paying-Pays paying-Pays

error_response_lem_example :
    ((error_response crates (db tt)).status ≡ 500)
    × ((error_response crates (db tt)).body ≡ text "internal db error")
error_response_lem_example = error_response_lem crates (db tt)
