-- ===== src/Db/Scenarios/Expires.antt =====
-- When the test `test_ttl_ok` of src/db.rs passes.
use keyserver_rust.Prelude.{
  ℕ, ◌+◌, ◌^◌, ◌≤◌, ◌<◌, ◌≡◌, ◌↔◌, refl, sym, ap, ◌∙◌, inl, inr, true, false, Bool-cases, Option,
  none, some, Outcome, done, fail, panic, arith, if◌then◌else◌,
}
use keyserver_rust.Prelude.Int.{pos, cast64, cast64-eq, ◌+ℤ◌}
use keyserver_rust.Models.{AddressMetadata}
use keyserver_rust.Crates.{Crates}
use keyserver_rust.Crates.Laws.{RocksLaws, CodecLaws, IsHealthy}
use keyserver_rust.Crates.Client.{Client}
use keyserver_rust.Db.{expired, put, get}
use keyserver_rust.Db.Expiry.{expired_iff}
use keyserver_rust.Db.Contents.{IsWellFormed, live, unexpired, IsGet, get-IsGet}
use keyserver_rust.Db.Timestamps.{IsSwept}
use keyserver_rust.Db.Compaction.{IsCompacted, live-compacted}
use keyserver_rust.Db.Scenarios.{
  ttl_payload, ttl_metadata, ttl_address, after_compaction, test_ttl_ok,
}
use keyserver_rust.Net.Keys.ReadBack.{IsUpdated-IsWellFormed, live-set}
use keyserver_rust.Net.Keys.Writes.{IsUpdated}
use keyserver_rust.Net.Keys.Acceptance.{HasNoError, get-HasNoError}

-- The payload expires 10 seconds after it was made.
expired-ttl_payload :
    (made t : ℕ)
    → made + 10 < 2 ^ 63
    → t < 2 ^ 63
    → (expired (ttl_payload made) t ≡ true) ↔ (made + 10 < t)
unfolding ◌+ℤ◌
expired-ttl_payload made t h ht =
    let e = cast64-eq made (omega arith) in
    let sum : cast64 made +ℤ pos 10 ≡ pos (made + 10) = rw e (ground arith) in
    let old = rw sum at (
      expired_iff (ttl_payload made) t (rw e (omega arith)) (omega arith) (rw sum (omega arith))
        ht) in
    (λ o. omega (arith, old.0 o), λ l. old.1 (omega arith))

module _ (x : Crates) (laws : RocksLaws x.rocks) (health : IsHealthy x.rocks)
    (codec : CodecLaws x.codecs) where
  -- On a well-formed database whose calls do not fail `get` returns what is live.
  get-live :
      (d : x.Db) (addr : x.Address) (now : ℕ)
      → IsWellFormed x laws d
      → ((get x addr now d).0 ≡ done (live x laws d (x.body addr) now))
        × IsSwept x laws d (x.body addr) now (get x addr now d).1
  get-live d addr now wf =
      go (get x addr now d) (get-HasNoError x health addr now d) (get-IsGet x laws d addr now wf)
    where
      go :
          (r : Outcome x.RocksError (Option AddressMetadata) × x.Db)
          → HasNoError r.0
          → IsGet x laws d (x.body addr) now r
          → (r.0 ≡ done (live x laws d (x.body addr) now)) × IsSwept x laws d (x.body addr) now r.1
      go (done found, d') h (same, swept) = (ap done same, λ j. ground (arith, swept j, same))
      go (fail e, d') h same = absurd h
      go (panic, d') h never = absurd never

  compacted-IsWellFormed :
      (d d' : x.Db) (t : ℕ)
      → IsWellFormed x laws d
      → IsCompacted x laws d d' t
      → IsWellFormed x laws d'
  compacted-IsWellFormed d d' t wf compacted k v found = elim (compacted k) [
    | inl same ↦ wf k v (sym same ∙ found)
    | inr (_, _, _, _, _, gone) ↦ absurd (cc (gone, found))
  ]

  module _ (c : Client x) (compact : x.Db → x.Db) (sk : c.SecretKey) (made before after : ℕ)
      (parsed : x.decode_payload (c.encode_payload (ttl_payload made)) ≡ some (ttl_payload made))
      (d : x.Db) (wf : IsWellFormed x laws d) where
    abbrev addr : x.Address
    addr = ttl_address x c sk

    put_state : x.Db
    put_state = (put x addr (ttl_metadata x c made) d).1

    put_done : (put x addr (ttl_metadata x c made) d).0 ≡ done tt
    unfolding put
    put_done =
        rw (health.put_healthy d (x.body addr) (x.encode_metadata (ttl_metadata x c made))) refl

    put_set : IsUpdated x laws d (x.body addr) (ttl_metadata x c made) put_state
    unfolding put_state put
    put_set j =
        laws.put_ok d (x.body addr) (x.encode_metadata (ttl_metadata x c made)) j
          (health.put_healthy d (x.body addr) (x.encode_metadata (ttl_metadata x c made)))

    put-IsWellFormed : IsWellFormed x laws put_state
    put-IsWellFormed =
        IsUpdated-IsWellFormed x laws codec d put_state (x.body addr) (ttl_metadata x c made)
          (ttl_payload made) wf parsed put_set

    -- What is live after the put.
    put-live :
        (t : ℕ)
        → live x laws put_state (x.body addr) t
          ≡ (if expired (ttl_payload made) t then none else some (ttl_metadata x c made))
    put-live t =
        live-set x laws codec d put_state (x.body addr) (ttl_metadata x c made) (ttl_payload made) t
          parsed put_set

    got_state : x.Db
    got_state = (get x addr before put_state).1

    -- A get that finds the metadata leaves every value.
    got_same :
        expired (ttl_payload made) before ≡ false
        → (j : _) → laws.contents got_state j ≡ laws.contents put_state j
    unfolding got_state
    got_same fresh j =
        let found : live x laws put_state (x.body addr) before ≡ some (ttl_metadata x c made) =
          put-live before ∙ rw fresh in
        ground (arith, (get-live put_state addr before put-IsWellFormed).1 j, found)

    module _ (t : ℕ) (compacts : (e : x.Db) → IsCompacted x laws e (compact e) t)
        (ended : t ≤ after) (bound : after < 2 ^ 63) where
      after_compaction-ends :
          expired (ttl_payload made) before ≡ false
          → (after_compaction x c compact addr after got_state).0
            ≡ (if expired (ttl_payload made) after then done tt else panic)
      unfolding after_compaction
      after_compaction-ends fresh =
          let wf₂ : IsWellFormed x laws got_state =
            λ k v found. put-IsWellFormed k v (sym (got_same fresh k) ∙ found) in
          let wf₃ =
            compacted-IsWellFormed got_state (compact got_state) t wf₂ (compacts got_state) in
          let at_end : live x laws (compact got_state) (x.body addr) after
              ≡ (if expired (ttl_payload made) after then none else some (ttl_metadata x c made)) =
            live-compacted x laws got_state (compact got_state) t after (x.body addr) wf₂
              (compacts got_state) ended bound
            ∙ ap (unexpired x after) (got_same fresh (x.body addr))
            ∙ put-live after in
          let found = (get-live (compact got_state) addr after wf₃).0 ∙ ap done at_end in
          elim (Bool-cases (expired (ttl_payload made) after)) [
            | inl old ↦ rw (found, old) refl
            | inr live_still ↦ rw (found, live_still) refl
          ]

      -- On a well-formed database whose calls do not fail, the test of the time to live passes
      -- exactly if its first get reads the clock at most 10 seconds after the metadata was made and
      -- its second get later than that, where the forced compaction has ended by the second get;
      -- the clock's readings fit an `i64`.
      pub test_ttl_ok_iff :
          made + 10 < 2 ^ 63
          → before < 2 ^ 63
          → ((test_ttl_ok x c compact sk made before after d).0 ≡ done tt)
            ↔ ((before ≤ made + 10) × (made + 10 < after))
      unfolding test_ttl_ok got_state put_state
      test_ttl_ok_iff hm hb =
          let old_before = expired-ttl_payload made before hm hb in
          let old_after = expired-ttl_payload made after hm bound in
          let got =
            (get-live put_state addr before put-IsWellFormed).0 ∙ ap done (put-live before) in
          elim (Bool-cases (expired (ttl_payload made) before)) [
            | inl old ↦
                let late : made + 10 < before = old_before.0 old in
                rw (put_done, got, old) (λ e. absurd (cc), λ (early, _). absurd (omega arith))
            | inr fresh ↦
                let late : made + 10 < before → expired (ttl_payload made) before ≡ true =
                  old_before.1 in
                let gone : expired (ttl_payload made) after ≡ true → made + 10 < after =
                  old_after.0 in
                let still : made + 10 < after → expired (ttl_payload made) after ≡ true =
                  old_after.1 in
                rw (put_done, got, fresh, after_compaction-ends fresh) (ground arith)
          ]
