-- ===== src/Server/Integrity.antt =====
-- The database under every sequence of the server's steps: src/net/mod.rs, src/net/peer.rs and the
-- compaction of src/db.rs. One step runs at a time; each has its own readings of the clock.
use keyserver_rust.Prelude.{
  ℕ, ◌≡◌, sym, subst, ◌∙◌, ◌⊎◌, inl, inr, Option, none, some, Outcome, done, fail, panic, List,
  arith, Bool-cases,
}
use keyserver_rust.Prelude.Bytes.{Bytes, bytes_eq, bytes_eq_iff}
use keyserver_rust.Models.{Payload, AddressMetadata}
use keyserver_rust.Crates.{Crates, PeerNet}
use keyserver_rust.Crates.Laws.{RocksLaws, DigestLaws, CodecLaws}
use keyserver_rust.Http.{Response}
use keyserver_rust.Errors.{ServerError}
use keyserver_rust.Crypto.Validation.{IsAuthentic}
use keyserver_rust.Db.Contents.{IsWellFormed}
use keyserver_rust.Db.Timestamps.{IsKept}
use keyserver_rust.Db.Compaction.{IsCompacted}
use keyserver_rust.Net.Keys.{get_key, put_key}
use keyserver_rust.Net.Keys.Reads.{IsGetKey-IsKept, get_key-IsGetKey}
use keyserver_rust.Net.Keys.Writes.{IsUpdated, IsPutKey, put_key-IsPutKey}
use keyserver_rust.Net.Peer.{PollEnd, stored, poll}
use keyserver_rust.Net.Peer.Polls.{IsPolled, poll-IsPolled}

-- A value is sound for its key: it decodes with its payload, and is authentic for the key.
pub record IsSound (x : Crates) (k v : Bytes) : Type 0 where
  pub metadata : AddressMetadata
  pub payload : Payload
  pub decoded : x.decode_metadata v ≡ some metadata
  pub payload_decoded : x.decode_payload metadata.serialized_payload ≡ some payload
  pub authentic : IsAuthentic x k metadata

module _ (x : Crates) (laws : RocksLaws x.rocks) where
  open laws use {contents}

  abbrev pub IsIntegral : x.Db → Type 0
  IsIntegral d = (k v : Bytes) → contents d k ≡ some v → IsSound x k v

  -- A step of the server, as it changes the database.
  pub data Step (d d' : x.Db) : Type 1 where
    getting : (addr_str : Bytes) (now : ℕ) → d' ≡ (get_key x addr_str now d).1 → Step d d'
    putting :
        (addr_str : Bytes) (items : List (Option Bytes)) (now later : ℕ)
        → d' ≡ (put_key x addr_str items now later d).1
        → Step d d'
    polling :
        (n : PeerNet) (item : Option (Bytes × x.Address)) (now later : ℕ)
        → d' ≡ (poll x n item now later d).1
        → Step d d'
    compacting : (t : ℕ) → IsCompacted x laws d d' t → Step d d'

  pub data Reach (d : x.Db) : x.Db → Type 1 where
    here : Reach d d
    next : {e f : x.Db} → Reach d e → Step e f → Reach d f

  pub IsIntegral-IsWellFormed : (d : x.Db) → IsIntegral d → IsWellFormed x laws d
  IsIntegral-IsWellFormed d integral k v found =
      let s = integral k v found in
      record {
        metadata = s.metadata;
        payload = s.payload;
        decoded = s.decoded;
        payload_decoded = s.payload_decoded;
      }

  -- A database whose values are values of an integral one is integral.
  shrunk-IsIntegral :
      (d d' : x.Db)
      → IsIntegral d
      → ((j : Bytes) → (contents d' j ≡ contents d j) ⊎ (contents d' j ≡ none))
      → IsIntegral d'
  shrunk-IsIntegral d d' integral shrunk k v found = elim (shrunk k) [
    | inl same ↦ integral k v (sym same ∙ found)
    | inr gone ↦ absurd (cc)
  ]

  kept-IsIntegral : (d d' : x.Db) (now : ℕ) → IsIntegral d → IsKept x laws d now d' → IsIntegral d'
  kept-IsIntegral d d' now integral kept =
      shrunk-IsIntegral d d' integral
        λ j. elim (kept j) [ inl same ↦ inl same | inr (gone, _) ↦ inr gone ]

  set-IsIntegral :
      (codec : CodecLaws x.codecs) (d d' : x.Db) (k : Bytes) (m : AddressMetadata) (p : Payload)
      → IsIntegral d
      → IsAuthentic x k m
      → x.decode_payload m.serialized_payload ≡ some p
      → IsUpdated x laws d k m d'
      → IsIntegral d'
  set-IsIntegral codec d d' k m p integral auth parsed set j v found =
      elim (Bool-cases (bytes_eq k j)) [
        | inl same ↦
            let e : x.encode_metadata m ≡ v = ground (arith, set j) in
            subst (λ t. IsSound x t v) ((bytes_eq_iff k j).0 same)
              (subst (IsSound x k) e (record {
                metadata = m;
                payload = p;
                decoded = codec.decode-encode_metadata m;
                payload_decoded = parsed;
                authentic = auth;
              }))
        | inr other ↦ integral j v (ground (arith, set j))
      ]

  put-IsIntegral :
      (codec : CodecLaws x.codecs) (d : x.Db) (addr_str : Bytes) (items : List (Option Bytes))
      (now later : ℕ) (r : Outcome (ServerError x) Response × x.Db)
      → IsIntegral d
      → IsPutKey x laws d addr_str items now later r
      → IsIntegral r.1
  put-IsIntegral codec d addr_str items now later (done resp, d') integral
        (addr, m, p, read, _, set, _) =
      set-IsIntegral codec d d' (x.body addr) m p integral read.authentic read.payload set
  put-IsIntegral codec d addr_str items now later (fail e, d') integral kept =
      kept-IsIntegral d d' now integral kept
  put-IsIntegral codec d addr_str items now later (panic, d') integral never = absurd never

  polled-IsIntegral :
      (codec : CodecLaws x.codecs) (d : x.Db) (addr : x.Address) (now later : ℕ)
      (r : Outcome ⊥ PollEnd × x.Db)
      → IsIntegral d
      → IsPolled x laws d addr now later r
      → IsIntegral r.1
  polled-IsIntegral codec d addr now later (done stored, d') integral (m, p, auth, parsed, _, set) =
      set-IsIntegral codec d d' (x.body addr) m p integral auth parsed set
  polled-IsIntegral codec d addr now later (done end, d') integral kept =
      kept-IsIntegral d d' now integral kept
  polled-IsIntegral codec d addr now later (fail e, d') integral never = absurd never
  polled-IsIntegral codec d addr now later (panic, d') integral never = absurd never

  module _ (codec : CodecLaws x.codecs) (digests : DigestLaws x.hashes x.secp) where
    pub poll-IsIntegral :
        (d : x.Db) (n : PeerNet) (item : Option (Bytes × x.Address)) (now later : ℕ)
        → IsIntegral d
        → IsIntegral (poll x n item now later d).1
    unfolding poll
    poll-IsIntegral d n none now later integral = integral
    poll-IsIntegral d n (some (host, addr)) now later integral =
        polled-IsIntegral codec d addr now later (poll x n (some (host, addr)) now later d) integral
          (poll-IsPolled x laws digests d n host addr now later
            (IsIntegral-IsWellFormed d integral))

    Step-IsIntegral : (d d' : x.Db) → IsIntegral d → Step d d' → IsIntegral d'
    Step-IsIntegral d d' integral (getting addr_str now e) = subst IsIntegral (sym e) (
        kept-IsIntegral d (get_key x addr_str now d).1 now integral (
          IsGetKey-IsKept x laws d addr_str now (get_key x addr_str now d)
            (get_key-IsGetKey x laws d addr_str now (IsIntegral-IsWellFormed d integral))))
    Step-IsIntegral d d' integral (putting addr_str items now later e) = subst IsIntegral (sym e) (
        put-IsIntegral codec d addr_str items now later _ integral (
          put_key-IsPutKey x laws digests d addr_str items now later
            (IsIntegral-IsWellFormed d integral)))
    Step-IsIntegral d d' integral (polling n item now later e) =
        subst IsIntegral (sym e) (poll-IsIntegral d n item now later integral)
    Step-IsIntegral d d' integral (compacting t compacted) =
        shrunk-IsIntegral d d' integral
          λ j. elim (compacted j) [ inl same ↦ inl same | inr (_, _, _, _, _, gone) ↦ inr gone ]

    -- From an integral database, an empty one for instance, every sequence of requests, polls of
    -- peers and compactions leads to an integral one: each stored value decodes with its payload,
    -- and its key and signature are those of the owner of the address that it is stored under.
    pub Reach-IsIntegral : (d d' : x.Db) → IsIntegral d → Reach d d' → IsIntegral d'
    Reach-IsIntegral d d' integral here = integral
    Reach-IsIntegral d d' integral (next {e} r step) =
        Step-IsIntegral e d' (Reach-IsIntegral d e integral r) step
