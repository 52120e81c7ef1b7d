-- ===== src/Tests/Database.antt =====
-- The handlers of keys, the store and the polling of peers at concrete inputs.
use keyserver_rust.Prelude.{
  ◌≡◌, refl, true, Option, none, some, List, [], ◌∷◌, done, fail, replicate, arith, ◌↔◌, inl, inr,
  if◌then◌else◌, Bool-cases, subst,
}
use keyserver_rust.Prelude.Int.{pos, add64, cast64, ◌+ℤ◌}
use keyserver_rust.Prelude.Bytes.{Bytes, text, bytes_eq}
use keyserver_rust.Models.{Payload, AddressMetadata, regtest}
use keyserver_rust.Http.{respond, status_ok}
use keyserver_rust.Errors.{not_found, metadata_decode, unsupported_sig_scheme}
use keyserver_rust.Crypto.{
  validate, secp256k1, deserialize_public_key, deserialize_signature, verify,
}
use keyserver_rust.Crypto.Validation.{IsAuthentic, validate_iff}
use keyserver_rust.Db.{expired, get, put, check_timestamp, ttl_filter, remove}
use keyserver_rust.Db.Expiry.{expired_overflow}
use keyserver_rust.Db.Contents.{IsStored, live, IsWellFormed}
use keyserver_rust.Db.Compaction.{IsCompacted, live-compacted}
use keyserver_rust.Net.Keys.{get_key, put_key}
use keyserver_rust.Net.Keys.Reads.{IsGetKey, get_key-IsGetKey}
use keyserver_rust.Net.Keys.Writes.{IsPutKey, put_key-IsPutKey}
use keyserver_rust.Net.Keys.ReadBack.{IsServed, get_key-put_key}
use keyserver_rust.Net.Peer.{poll, stored, get_metadata}
use keyserver_rust.Net.Peer.Polls.{IsPolled, poll-IsPolled}
use keyserver_rust.Server.Integrity.{IsIntegral, Step, Reach, Reach-IsIntegral}
use keyserver_rust.Tests.World.{Store, crates, codecs, peer}
use keyserver_rust.Tests.Meets.{digest_laws, rocks_laws, codec_laws}

abbrev pub key : Bytes
key = replicate 20 7

abbrev pub metadata : AddressMetadata
metadata = record { pub_key = key; serialized_payload = 100 ∷ 50 ∷ []; signature = key; scheme = 1 }

abbrev pub payload : Payload
payload = record { timestamp = pos 100; ttl = pos 50; entries = [] }

abbrev pub body : List (Option Bytes)
body = some (codecs.encode_metadata metadata) ∷ []

abbrev pub empty : Store
empty = λ k. none

abbrev filled : Store
filled = λ k. if bytes_eq key k then some (codecs.encode_metadata metadata) else none

handlers : Unit {0}
unfolding put_key get_key validate deserialize_public_key deserialize_signature verify
    check_timestamp get put expired add64 cast64 bytes_eq ttl_filter poll get_metadata text
handlers = tt

put_ok : (put_key crates key body 120 120 empty).0 ≡ done (respond status_ok [])
unfolding handlers
put_ok = refl

other_ends :
    ((put_key crates key (none ∷ []) 120 120 empty).0 ≡ fail metadata_decode)
    × ((put_key crates key
          (some (codecs.encode_metadata (record metadata { scheme = 2 })) ∷ [])
          120
          120
          empty).0
        ≡ fail unsupported_sig_scheme)
    × ((get_key crates key 120 filled).0
        ≡ done (respond status_ok (codecs.encode_metadata metadata)))
    × ((get_key crates key 151 filled).0 ≡ fail not_found)
    × ((poll crates
          (peer (codecs.encode_metadata metadata))
          (some (text "http://h", (key, regtest)))
          120
          120
          empty).0
        ≡ done stored)
    × (ttl_filter crates (codecs.encode_metadata metadata) 151 ≡ done remove)
unfolding handlers
other_ends = (refl, refl, refl, refl, refl, refl)

pub empty-IsIntegral : IsIntegral crates rocks_laws empty
empty-IsIntegral k v e = cc

pub empty-IsWellFormed : IsWellFormed crates rocks_laws empty
empty-IsWellFormed k v e = cc

Reach-IsIntegral_example : IsIntegral crates rocks_laws (put_key crates key body 120 120 empty).1
Reach-IsIntegral_example =
    Reach-IsIntegral crates rocks_laws codec_laws digest_laws empty
      (put_key crates key body 120 120 empty).1 empty-IsIntegral
      (Reach.next Reach.here (Step.putting key body 120 120 refl))

put_key-IsPutKey_example :
    IsPutKey crates rocks_laws empty key body 120 120 (put_key crates key body 120 120 empty)
put_key-IsPutKey_example =
    put_key-IsPutKey crates rocks_laws digest_laws empty key body 120 120 empty-IsWellFormed

get_key-put_key_example :
    IsServed crates rocks_laws codec_laws key body 140
      (get_key crates key 140 (put_key crates key body 120 120 empty).1).0
get_key-put_key_example =
    get_key-put_key crates rocks_laws codec_laws digest_laws empty key body 120 120 140
      (respond status_ok []) empty-IsWellFormed put_ok

filled-IsWellFormed : IsWellFormed crates rocks_laws filled
filled-IsWellFormed k v e = elim (Bool-cases (bytes_eq key k)) [
  | inl same ↦
      subst (IsStored crates) (stored_value same)
        (record { metadata = metadata; payload = payload; decoded = refl; payload_decoded = refl })
  | inr other ↦ absurd (ground arith)
]
  where
    stored_value : bytes_eq key k ≡ true → codecs.encode_metadata metadata ≡ v
    stored_value same = ground arith

get_key-IsGetKey_example : IsGetKey crates rocks_laws filled key 151 (get_key crates key 151 filled)
get_key-IsGetKey_example = get_key-IsGetKey crates rocks_laws filled key 151 filled-IsWellFormed

compacted : IsCompacted crates rocks_laws filled empty 151
unfolding handlers
compacted k = elim (Bool-cases (bytes_eq key k)) [
  | inl same ↦ inr (codecs.encode_metadata metadata, 151, rw same, refl, omega arith, refl)
  | inr other ↦ inl (rw other)
]

live-compacted_example :
    live crates rocks_laws empty key 152 ≡ live crates rocks_laws filled key 152
live-compacted_example =
    live-compacted crates rocks_laws filled empty 151 152 key filled-IsWellFormed compacted
      (omega arith) (omega arith)

poll-IsPolled_example :
    IsPolled crates rocks_laws empty
      (key, regtest)
      120
      120
      (poll crates
        (peer (codecs.encode_metadata metadata))
        (some (text "http://h", (key, regtest)))
        120
        120
        empty)
poll-IsPolled_example =
    poll-IsPolled crates rocks_laws digest_laws empty (peer (codecs.encode_metadata metadata))
      (text "http://h") (key, regtest) 120 120 empty-IsWellFormed

validate_iff_example :
    (validate crates (secp256k1 crates.secp) (key, regtest) metadata ≡ done tt)
    ↔ IsAuthentic crates key metadata
validate_iff_example = validate_iff crates (key, regtest) metadata

payload_sum : payload.timestamp +ℤ payload.ttl ≡ pos 150
unfolding ◌+ℤ◌
payload_sum = refl

abbrev far : Payload
far = record { timestamp = pos 1577836800; ttl = pos 9223372036854775807; entries = [] }

expired_overflow_example : expired far 1577836801 ≡ true
expired_overflow_example =
    expired_overflow far 1577836800 9223372036854775807 1577836801 refl refl (omega arith)
      (omega arith) (omega arith) (omega arith)
