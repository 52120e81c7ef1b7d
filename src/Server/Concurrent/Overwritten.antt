-- ===== src/Server/Concurrent/Overwritten.antt =====
-- Two calls of `put_key` of src/net/mod.rs for one key whose calls of the database interleave.
use keyserver_rust.Prelude.{ℕ, ◌≡◌, refl, ◌∙◌, true, false, some, none, [], ◌∷◌, fail}
use keyserver_rust.Prelude.Bytes.{Bytes}
use keyserver_rust.Prelude.Int.{ltb_ℤ}
use keyserver_rust.Models.{Payload, AddressMetadata}
use keyserver_rust.Crates.{Crates}
use keyserver_rust.Crates.Laws.{RocksLaws, CodecLaws, IsHealthy}
use keyserver_rust.Errors.{validation, outdated}
use keyserver_rust.Db.{expired, decode_stored}
use keyserver_rust.Server.Concurrent.{
  ended, next_call, next_call_at, interleave, store_calls, get_calls, found_calls, drop_calls,
  compare_found, compare_with, put_calls,
}
use keyserver_rust.Server.Concurrent.Answers.{
  read, written, succeeded, get_lem, writes, contents-written, opens,
}

module _ (x : Crates) (laws : RocksLaws x.rocks) (health : IsHealthy x.rocks) where
  open laws use {contents}

  module _ (addr : x.Address) where
    abbrev k : Bytes
    k = x.body addr

    -- What is read back of a put of metadata is newer than the payload of another one, which is
    -- refused.
    refused :
        (codec : CodecLaws x.codecs) (m m' : AddressMetadata) (p p' : Payload) (now later : ℕ)
        (d : x.Db)
        → contents d k ≡ some (x.encode_metadata m')
        → x.decode_payload m'.serialized_payload ≡ some p'
        → ltb_ℤ p.timestamp p'.timestamp ≡ true
        → expired p' now ≡ false
        → next_call x (store_calls x addr m p now later) d
          ≡ (ended (fail (validation outdated)), read x addr d)
    unfolding next_call store_calls get_calls found_calls drop_calls decode_stored compare_found
        compare_with put_calls
    refused codec m m' p p' now later d stored parsed older live =
        rw
          (
            get_lem x laws health d k,
            stored,
            codec.decode-encode_metadata m',
            parsed,
            live,
            parsed,
            older,
          )
          refl

    -- Two PUTs of metadata for an address that holds nothing, the second of which is newer and is
    -- stored first: one after the other, the older one is refused and the newer one stays; when the
    -- older one has looked before that, both are answered 200 and the older one is what stays.
    pub put_race :
        (codec : CodecLaws x.codecs) (m m' : AddressMetadata) (p p' : Payload)
        (now later now' later' : ℕ) (d : x.Db)
        → contents d k ≡ none
        → x.decode_payload m'.serialized_payload ≡ some p'
        → ltb_ℤ p.timestamp p'.timestamp ≡ true
        → expired p' now ≡ false
        → ((interleave x
              (1 ∷ 1 ∷ 0 ∷ [])
              (store_calls x addr m p now later ∷ store_calls x addr m' p' now' later' ∷ [])
              d).0
            ≡ ended (fail (validation outdated)) ∷ succeeded x ∷ [])
          × (contents
                (interleave x
                  (1 ∷ 1 ∷ 0 ∷ [])
                  (store_calls x addr m p now later ∷ store_calls x addr m' p' now' later' ∷ [])
                  d).1
                k
              ≡ some (x.encode_metadata m'))
          × ((interleave x
                (0 ∷ 1 ∷ 1 ∷ 0 ∷ [])
                (store_calls x addr m p now later ∷ store_calls x addr m' p' now' later' ∷ [])
                d).0
              ≡ succeeded x ∷ succeeded x ∷ [])
          × (contents
                (interleave x
                  (0 ∷ 1 ∷ 1 ∷ 0 ∷ [])
                  (store_calls x addr m p now later ∷ store_calls x addr m' p' now' later' ∷ [])
                  d).1
                k
              ≡ some (x.encode_metadata m))
    unfolding interleave next_call_at
    put_race codec m m' p p' now later now' later' d absent parsed older live =
        let d₁ = read x addr d in
        let d₂ = written x addr m' d₁ in
        let stays = contents-written x laws health addr m' d₁ in
        let absent' = laws.contents-get d k k ∙ absent in
        let first = opens x laws health addr m' p' now' later' d absent in
        let last = refused codec m m' p p' now later d₂ stays parsed older live in
        let looks = opens x laws health addr m p now later d absent in
        let looks' = opens x laws health addr m' p' now' later' d₁ absent' in
        (
          rw (first, writes x laws health addr m' d₁, last) refl,
          rw (first, writes x laws health addr m' d₁, last) (laws.contents-get d₂ k k ∙ stays),
          rw
              (
                looks,
                looks',
                writes x laws health addr m' (read x addr d₁),
                writes x laws health addr m (written x addr m' (read x addr d₁)),
              )
              refl,
          rw
              (
                looks,
                looks',
                writes x laws health addr m' (read x addr d₁),
                writes x laws health addr m (written x addr m' (read x addr d₁)),
              )
              (contents-written x laws health addr m (written x addr m' (read x addr d₁))),
        )
