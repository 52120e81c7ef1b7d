-- ===== src/Server/Register/Refinement.antt =====
-- Every step of the server is a change that the register of Server/Register allows: the handlers of
-- src/net/mod.rs, the polls of src/net/peer.rs, the compaction of src/db.rs.
use keyserver_rust.Prelude.{
  ℕ, ◌≡◌, refl, sym, ap, ◌∙◌, inl, inr, false, Option, none, some, List, Outcome, done, fail, panic,
  arith, Bool-cases, Option-cases, some-injective, if◌then◌else◌, subst,
}
use keyserver_rust.Prelude.Bytes.{Bytes, bytes_eq, bytes_eq_iff}
use keyserver_rust.Models.{Payload, AddressMetadata}
use keyserver_rust.Crates.{Crates, PeerNet}
use keyserver_rust.Crates.Laws.{RocksLaws, DigestLaws, CodecLaws}
use keyserver_rust.Http.{Response}
use keyserver_rust.Errors.{ServerError}
use keyserver_rust.Crypto.Validation.{IsAuthentic}
use keyserver_rust.Db.{expired}
use keyserver_rust.Db.Contents.{IsWellFormed, live, unexpired, unexpired_lem}
use keyserver_rust.Db.Timestamps.{IsKept}
use keyserver_rust.Db.Compaction.{IsCompacted, removed-expired}
use keyserver_rust.Net.Keys.{get_key, put_key}
use keyserver_rust.Net.Keys.Reads.{IsGetKey-IsKept, get_key-IsGetKey}
use keyserver_rust.Net.Keys.Writes.{IsPutKey, put_key-IsPutKey}
use keyserver_rust.Net.Peer.{PollEnd, stored, poll}
use keyserver_rust.Net.Peer.Polls.{IsPulled, IsPolled, poll-IsPolled}
use keyserver_rust.Server.Integrity.{
  IsIntegral, IsIntegral-IsWellFormed, Step, getting, putting, polling, compacting,
}
use keyserver_rust.Server.Register.{
  Registration, Change, keeps, lapses, renews, entry, view, now_of, later_of,
}

module _ (x : Crates) (laws : RocksLaws x.rocks) where
  open laws use {contents}

  entry_of :
      (v : Bytes) (m : AddressMetadata) (p : Payload)
      → x.decode_metadata v ≡ some m
      → x.decode_payload m.serialized_payload ≡ some p
      → entry x (some v) ≡ some (record { metadata = m; payload = p })
  unfolding entry
  entry_of v m p decoded parsed = ground (arith, decoded, parsed)

  -- An entry that is held by a well-formed database and has not expired is live.
  live_of :
      (d : x.Db) (k : Bytes) (now : ℕ) (e : Registration)
      → IsWellFormed x laws d
      → view x laws d k ≡ some e
      → expired e.payload now ≡ false
      → (live x laws d k now ≡ some e.metadata)
        × (x.decode_payload e.metadata.serialized_payload ≡ some e.payload)
  unfolding entry
  live_of d k now e wf held fresh = elim (Option-cases (contents d k)) [
    | inl nothing ↦ absurd (cc (held, nothing))
    | inr (v, found) ↦
        let s = wf k v found in
        let same : record { metadata = s.metadata; payload = s.payload } ≡ e = some-injective (
          sym (entry_of v s.metadata s.payload s.decoded s.payload_decoded)
          ∙ ap (entry x) (sym found)
          ∙ held) in
        let fresh' : expired s.payload now ≡ false =
          ap (λ (r : Registration). expired r.payload now) same ∙ fresh in
        (
          ap (unexpired x now) found
              ∙ unexpired_lem x now v s
              ∙ rw fresh' (ap some (ap (λ (r : Registration). r.metadata) same)),
          subst
              (λ (r : Registration).
                x.decode_payload r.metadata.serialized_payload ≡ some r.payload)
              same s.payload_decoded,
        )
  ]

  -- What is gone without being live had expired.
  kept-Change :
      (k : Bytes) (now later : ℕ) (d d' : x.Db)
      → IsWellFormed x laws d
      → IsKept x laws d now d'
      → Change x k now later (view x laws d k) (view x laws d' k)
  unfolding entry
  kept-Change k now later d d' wf kept = elim (kept k) [
    | inl same ↦ keeps (ap (entry x) same)
    | inr (gone, dead) ↦ elim (Option-cases (contents d k)) [
      | inl nothing ↦ keeps (ap (entry x) (gone ∙ sym nothing))
      | inr (v, found) ↦
          let s = wf k v found in
          let e : live x laws d k now ≡ (if expired s.payload now then none else some s.metadata) =
            ap (unexpired x now) found ∙ unexpired_lem x now v s in
          lapses (record { metadata = s.metadata; payload = s.payload }) now
            (ap (entry x) found ∙ entry_of v s.metadata s.payload s.decoded s.payload_decoded)
            (omega arith) (ground (arith, e, dead)) (ap (entry x) gone)
    ]
  ]

  compacted-Change :
      (k : Bytes) (t : ℕ) (d d' : x.Db)
      → IsWellFormed x laws d
      → IsCompacted x laws d d' t
      → Change x k t t (view x laws d k) (view x laws d' k)
  unfolding entry
  compacted-Change k t d d' wf compacted = elim (compacted k) [
    | inl same ↦ keeps (ap (entry x) same)
    | inr (v, now, found, decision, past, gone) ↦
        let s = wf k v found in
        lapses (record { metadata = s.metadata; payload = s.payload }) now
          (ap (entry x) found ∙ entry_of v s.metadata s.payload s.decoded s.payload_decoded) past
          (removed-expired x laws v now s decision) (ap (entry x) gone)
  ]

  pulled-Change :
      (codec : CodecLaws x.codecs) (k : Bytes) (addr : x.Address) (now later : ℕ) (d d' : x.Db)
      → IsWellFormed x laws d
      → IsPulled x laws d addr now later d'
      → Change x k now later (view x laws d k) (view x laws d' k)
  pulled-Change codec k addr now later d d' wf (m, p, auth, parsed, follows, set) =
      elim (Bool-cases (bytes_eq (x.body addr) k)) [
        | inr other ↦ keeps (ap (entry x) (ground (arith, set k, other)))
        | inl same ↦
            let at_key : x.body addr ≡ k = (bytes_eq_iff (x.body addr) k).0 same in
            let now_held : contents d' k ≡ some (x.encode_metadata m) =
              ground (arith, set k, same) in
            renews (record { metadata = m; payload = p })
              (ap (entry x) now_held
                ∙ entry_of (x.encode_metadata m) m p (codec.decode-encode_metadata m) parsed)
              (subst (λ j. IsAuthentic x j m) at_key auth)
              λ e held fresh. follows e.payload (
                e.metadata,
                subst (λ j. live x laws d j now ≡ some e.metadata) (sym at_key)
                    (live_of d k now e wf held fresh).0,
                (live_of d k now e wf held fresh).1,
              )
      ]

  put-Change :
      (codec : CodecLaws x.codecs) (k addr_str : Bytes) (items : List (Option Bytes))
      (now later : ℕ) (d : x.Db) (r : Outcome (ServerError x) Response × x.Db)
      → IsWellFormed x laws d
      → IsPutKey x laws d addr_str items now later r
      → Change x k now later (view x laws d k) (view x laws r.1 k)
  put-Change codec k addr_str items now later d (done resp, d') wf
        (addr, m, p, read, follows, set, _) =
      pulled-Change codec k addr now later d d' wf
        (m, p, read.authentic, read.payload, follows, set)
  put-Change codec k addr_str items now later d (fail e, d') wf unchanged =
      kept-Change k now later d d' wf unchanged
  put-Change codec k addr_str items now later d (panic, d') wf never = absurd never

  polled-Change :
      (codec : CodecLaws x.codecs) (k : Bytes) (addr : x.Address) (now later : ℕ) (d : x.Db)
      (r : Outcome ⊥ PollEnd × x.Db)
      → IsWellFormed x laws d
      → IsPolled x laws d addr now later r
      → Change x k now later (view x laws d k) (view x laws r.1 k)
  polled-Change codec k addr now later d (done stored, d') wf pulled =
      pulled-Change codec k addr now later d d' wf pulled
  polled-Change codec k addr now later d (done end, d') wf unchanged =
      kept-Change k now later d d' wf unchanged
  polled-Change codec k addr now later d (fail e, d') wf never = absurd never
  polled-Change codec k addr now later d (panic, d') wf never = absurd never

  module _ (codec : CodecLaws x.codecs) (digests : DigestLaws x.hashes x.secp) where
    poll-Change :
        (k : Bytes) (n : PeerNet) (item : Option (Bytes × x.Address)) (now later : ℕ) (d : x.Db)
        → IsWellFormed x laws d
        → Change x k now later (view x laws d k) (view x laws (poll x n item now later d).1 k)
    unfolding poll
    poll-Change k n none now later d wf = keeps refl
    poll-Change k n (some (host, addr)) now later d wf =
        polled-Change codec k addr now later d (poll x n (some (host, addr)) now later d) wf
          (poll-IsPolled x laws digests d n host addr now later wf)

    -- The server implements the register: from an integral database each step, a request, a poll or
    -- a compaction, changes the entry of each key in a way that the register allows. The entry
    -- stays; or it had expired, at a time no later than the step, and lapses; or it becomes one that
    -- is authentic for the key and, if the old one had not expired when the step began, is not older
    -- and has not expired itself.
    pub Step-Change :
        (d d' : x.Db) (k : Bytes)
        → IsIntegral x laws d
        → (s : Step x laws d d')
        → Change x k (now_of x laws s) (later_of x laws s) (view x laws d k) (view x laws d' k)
    unfolding now_of later_of
    Step-Change d d' k integral (getting addr_str now e) =
        let wf = IsIntegral-IsWellFormed x laws d integral in
        subst (λ f. Change x k now now (view x laws d k) (view x laws f k)) (sym e)
          (kept-Change k now now d (get_key x addr_str now d).1 wf (
            IsGetKey-IsKept x laws d addr_str now (get_key x addr_str now d)
              (get_key-IsGetKey x laws d addr_str now wf)))
    Step-Change d d' k integral (putting addr_str items now later e) =
        let wf = IsIntegral-IsWellFormed x laws d integral in
        subst (λ f. Change x k now later (view x laws d k) (view x laws f k)) (sym e)
          (put-Change codec k addr_str items now later d (put_key x addr_str items now later d) wf
            (put_key-IsPutKey x laws digests d addr_str items now later wf))
    Step-Change d d' k integral (polling n item now later e) =
        let wf = IsIntegral-IsWellFormed x laws d integral in
        subst (λ f. Change x k now later (view x laws d k) (view x laws f k)) (sym e)
          (poll-Change k n item now later d wf)
    Step-Change d d' k integral (compacting t compacted) =
        compacted-Change k t d d' (IsIntegral-IsWellFormed x laws d integral) compacted
