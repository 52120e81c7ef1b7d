-- ===== src/Server/Register.antt =====
-- What the database promises, without its encoding: for each key an entry that lapses, is renews
-- by the key's owner, or stays. Every step of the server is such a change of each key.
pub mod Refinement
pub mod Order
use keyserver_rust.Prelude.{
  ℕ, ◌≡◌, ◌≤◌, refl, sym, ap, ◌∙◌, ◌⊎◌, inl, inr, true, false, Option, none, some, List, Outcome,
  done, fail, panic, arith, Bool-cases, Option-cases, some-injective, if◌then◌else◌, subst,
}
use keyserver_rust.Prelude.Bytes.{Bytes, bytes_eq, bytes_eq_iff}
use keyserver_rust.Prelude.Int.{◌≤ℤ◌}
use keyserver_rust.Models.{Payload, AddressMetadata}
use keyserver_rust.Crates.{Crates, PeerNet}
use keyserver_rust.Crates.Laws.{RocksLaws, DigestLaws, CodecLaws}
use keyserver_rust.Http.{Response}
use keyserver_rust.Errors.{ServerError}
use keyserver_rust.Crypto.Validation.{IsAuthentic}
use keyserver_rust.Db.{expired}
use keyserver_rust.Db.Contents.{IsWellFormed, live, unexpired, unexpired_lem}
use keyserver_rust.Db.Timestamps.{IsKept}
use keyserver_rust.Db.Compaction.{IsCompacted, removed-expired}
use keyserver_rust.Net.Keys.{get_key, put_key}
use keyserver_rust.Net.Keys.Reads.{IsGetKey-IsKept, get_key-IsGetKey}
use keyserver_rust.Net.Keys.Writes.{IsPutKey, put_key-IsPutKey, IsUpdated}
use keyserver_rust.Net.Peer.{PollEnd, stored, poll}
use keyserver_rust.Net.Peer.Polls.{IsPulled, IsPolled, poll-IsPolled}
use keyserver_rust.Server.Integrity.{
  IsIntegral, IsIntegral-IsWellFormed, Step, getting, putting, polling, compacting,
}

pub record Registration : Type 0 where
  pub metadata : AddressMetadata
  pub payload : Payload

-- A change of a key's entry, in a step that reads the clock at `now` and again at `later`.
pub data Change (x : Crates) (k : Bytes) (now later : ℕ) (before after : Option Registration)
    : Type 0 where
  keeps : after ≡ before → Change x k now later before after
  lapses :
      (e : Registration) (t : ℕ)
      → before ≡ some e
      → t ≤ now
      → expired e.payload t ≡ true
      → after ≡ none
      → Change x k now later before after
  renews :
      (e' : Registration)
      → after ≡ some e'
      → IsAuthentic x k e'.metadata
      → ((e : Registration)
          → before ≡ some e
          → expired e.payload now ≡ false
          → (e.payload.timestamp ≤ℤ e'.payload.timestamp) × (expired e'.payload later ≡ false))
      → Change x k now later before after

module _ (x : Crates) where
  -- The entry of a stored value, where it decodes.
  unfoldable pub entry : Option Bytes → Option Registration
  entry none = none
  entry (some v) = elim (x.decode_metadata v) [
    | none ↦ none
    | some m ↦ elim (x.decode_payload m.serialized_payload) [
      | none ↦ none
      | some p ↦ some (record { metadata = m; payload = p })
    ]
  ]

module _ (x : Crates) (laws : RocksLaws x.rocks) where
  open laws use {contents}

  -- The abstract store of a database.
  abbrev pub view : x.Db → Bytes → Option Registration
  view d k = entry x (contents d k)

  -- The readings of the clock of a step.
  unfoldable pub now_of : {d d' : x.Db} → Step x laws d d' → ℕ
  now_of (getting addr_str now e) = now
  now_of (putting addr_str items now later e) = now
  now_of (polling n item now later e) = now
  now_of (compacting t compacted) = t

  unfoldable pub later_of : {d d' : x.Db} → Step x laws d d' → ℕ
  later_of (getting addr_str now e) = now
  later_of (putting addr_str items now later e) = later
  later_of (polling n item now later e) = later
  later_of (compacting t compacted) = t
