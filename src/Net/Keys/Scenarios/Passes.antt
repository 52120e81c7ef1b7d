-- ===== src/Net/Keys/Scenarios/Passes.antt =====
-- When the tests of src/net/mod.rs pass.
use keyserver_rust.Prelude.{
  ℕ, ◌+◌, ◌^◌, ◌<◌, ◌≤◌, ◌≡◌, ◌≢◌, ◌↔◌, refl, subst, ◌∙◌, ap, Bool-cases, true, none, some, inl,
  inr, [], ◌∷◌, Outcome, done, fail, panic, arith, if◌then◌else◌,
}
use keyserver_rust.Prelude.Bytes.{Bytes, text, bytes_eq_refl}
use keyserver_rust.Prelude.Int.{pos, cast64, cast64-eq, ◌+ℤ◌}
use keyserver_rust.Prelude.Assert.{assert_eq}
use keyserver_rust.Crates.{Crates}
use keyserver_rust.Crates.Laws.{RocksLaws, DigestLaws, CodecLaws, IsHealthy}
use keyserver_rust.Crates.Client.{Client, ClientLaws}
use keyserver_rust.Http.{Response, respond, status_ok}
use keyserver_rust.Errors.{ServerError, not_found, metadata_decode, address, db, error_response}
use keyserver_rust.Bitcoin.Network.{Network}
use keyserver_rust.Db.{expired}
use keyserver_rust.Db.Expiry.{expired_iff}
use keyserver_rust.Db.Contents.{IsWellFormed, live, unexpired}
use keyserver_rust.Net.Keys.{get_key, put_key, read_put, read_body}
use keyserver_rust.Net.Keys.Reads.{IsGetKey, get_key-IsGetKey}
use keyserver_rust.Net.Keys.ReadBack.{IsReadBack, IsServed, get_key-put_key}
use keyserver_rust.Net.Keys.Acceptance.{put_key_complete, get_key-ne-db}
use keyserver_rust.Net.Keys.Scenarios.Generated.{
  IsPayloadCodec, own_body, IsGenerated, generate_address_metadata-IsGenerated,
}
use keyserver_rust.Net.Keys.Scenarios.{
  test_payload, answer, test_index_get_invalid_address, test_index_put_ok,
  test_index_put_malformed_payload, test_index_put_invalid_address, test_index_get_not_found,
  get_back, test_index_put_get,
}

-- The tests' payload expires 3000 seconds after it was made.
expired-test_payload :
    (time t : ℕ)
    → time + 3000 < 2 ^ 63
    → t < 2 ^ 63
    → (expired (test_payload time) t ≡ true) ↔ (time + 3000 < t)
unfolding ◌+ℤ◌
expired-test_payload time t h ht =
    let e = cast64-eq time (omega arith) in
    let sum : cast64 time +ℤ pos 3000 ≡ pos (time + 3000) = rw e (ground arith) in
    let old = rw sum at (
      expired_iff (test_payload time) t (rw e (omega arith)) (omega arith) (rw sum (omega arith))
        ht) in
    (λ o. omega (arith, old.0 o), λ l. old.1 (omega arith))

module _ (x : Crates) (c : Client x) (laws : RocksLaws x.rocks) (health : IsHealthy x.rocks)
    (client : ClientLaws x c) (codec : CodecLaws x.codecs) (digests : DigestLaws x.hashes x.secp)
    (payloads : IsPayloadCodec x c) (sk : c.SecretKey) (network : Network) (time : ℕ) (d : x.Db)
    (wf : IsWellFormed x laws d) (fresh : laws.contents d (own_body x c sk) ≡ none) where
  abbrev pub generated : IsGenerated x c sk network time
  generated =
      generate_address_metadata-IsGenerated x c client codec digests payloads sk network time

  nothing_live : (t : ℕ) → live x laws d (x.body generated.addr) t ≡ none
  unfolding unexpired
  nothing_live t = rw (generated.owned, fresh) refl

  pub put_ends :
      (now later : ℕ)
      → (put_key x generated.addr_str
          (some (x.encode_metadata generated.metadata) ∷ [])
          now
          later
          d).0
        ≡ done (respond status_ok [])
  put_ends now later =
      put_key_complete x health laws d generated.addr_str
        (some (x.encode_metadata generated.metadata) ∷ []) now later wf
        (
          generated.addr,
          generated.metadata,
          test_payload time,
          generated.read,
          λ q (m, held, _). absurd (cc (nothing_live now, held)),
        )

  -- What `get_key` answers after the test's `put_key`.
  put_state : ℕ → ℕ → x.Db
  put_state now later =
      (put_key x generated.addr_str (some (x.encode_metadata generated.metadata) ∷ []) now later
        d).1

  IsServed-unique :
      (t : ℕ) (r : Outcome (ServerError x) Response)
      → IsServed x laws codec generated.addr_str
          (some (x.encode_metadata generated.metadata) ∷ [])
          t
          r
      → IsReadBack x laws codec generated.metadata (test_payload time) t r
  unfolding read_body
  IsServed-unique t r (addr, m, p, read, back) =
      let same_raw : x.encode_metadata generated.metadata ≡ read.raw = cc (read.received) in
      let same : m ≡ generated.metadata =
        cc (read.decoded, codec.decode-encode_metadata generated.metadata, same_raw) in
      let parsed : x.decode_payload generated.metadata.serialized_payload ≡ some p =
        subst (λ n. x.decode_payload n.serialized_payload ≡ some p) same read.payload in
      let same_payload : p ≡ test_payload time = cc (parsed, generated.read.payload) in
      subst (λ q. IsReadBack x laws codec generated.metadata q t r) same_payload
        (subst (λ n. IsReadBack x laws codec n p t r) same back)

  got_back :
      (now later t : ℕ)
      → (get_key x generated.addr_str t (put_state now later)).0 ≡ (
          if expired (test_payload time) t
          then fail not_found
          else done (respond status_ok (x.encode_metadata generated.metadata)))
  unfolding put_state
  got_back now later t =
      elim (IsServed-unique t _ (
        get_key-put_key x laws codec digests d generated.addr_str
          (some (x.encode_metadata generated.metadata) ∷ []) now later t (respond status_ok []) wf
          (put_ends now later))) [
            | inl answered ↦ answered
            | inr (b, failed) ↦
                absurd (get_key-ne-db x health generated.addr_str t (put_state now later) b failed)
          ]

  get_back_lem :
      (now later t : ℕ)
      → (get_back x generated.addr_str
          (x.encode_metadata generated.metadata)
          t
          (put_state now later)).0
        ≡ (if expired (test_payload time) t then panic else done tt)
  unfolding get_back answer error_response
  get_back_lem now later t = elim (Bool-cases (expired (test_payload time) t)) [
    | inl old ↦
        let missing : (get_key x generated.addr_str t (put_state now later)).0 ≡ fail not_found =
          got_back now later t ∙ rw old in
        rw (missing, old) refl
    | inr unexpired ↦
        let found : (get_key x generated.addr_str t (put_state now later)).0
            ≡ done (respond status_ok (x.encode_metadata generated.metadata)) =
          got_back now later t ∙ rw unexpired in
        rw (found, unexpired, bytes_eq_refl (x.encode_metadata generated.metadata)) refl
  ]

  -- Where the address of the drawn key holds nothing in a well-formed database whose calls do not
  -- fail, and the clock's readings fit an `i64`, the test that puts metadata and gets it back
  -- passes exactly if the get reads the clock at most 3000 seconds after the metadata was made,
  -- whatever the clock says to the put.
  pub test_index_put_get_iff :
      (now later t : ℕ)
      → time + 3000 < 2 ^ 63
      → t < 2 ^ 63
      → ((test_index_put_get x c sk network time now later t d).0 ≡ done tt) ↔ (t ≤ time + 3000)
  unfolding test_index_put_get answer assert_eq put_state
  test_index_put_get_iff now later t h ht =
      let old = expired-test_payload time t h ht in
      let gone : expired (test_payload time) t ≡ true → time + 3000 < t = old.0 in
      let still : time + 3000 < t → expired (test_payload time) t ≡ true = old.1 in
      rw (generated.ended, put_ends now later, get_back_lem now later t) (ground arith)

  put_malformed :
      (addr_str : Bytes) (now later : ℕ)
      → (put_key x addr_str (some (2 ∷ 3 ∷ 5 ∷ []) ∷ []) now later d).0 ≡ fail metadata_decode
  unfolding put_key read_put
  put_malformed addr_str now later = rw client.malformed refl

  put_invalid :
      (now later : ℕ)
      → (put_key x
          (text "invalid")
          (some (x.encode_metadata generated.metadata) ∷ [])
          now
          later
          d).0
        ≡ fail (address client.invalid.0.0 client.invalid.0.1)
  unfolding put_key read_put
  put_invalid now later =
      rw (codec.decode-encode_metadata generated.metadata, client.invalid.1) refl

  get_invalid :
      (now : ℕ)
      → (get_key x (text "invalid") now d).0 ≡ fail (address client.invalid.0.0 client.invalid.0.1)
  unfolding get_key
  get_invalid now = rw client.invalid.1 refl

  get_absent : (now : ℕ) → (get_key x generated.addr_str now d).0 ≡ fail not_found
  get_absent now =
      go (get_key x generated.addr_str now d) (get_key-IsGetKey x laws d generated.addr_str now wf)
        (get_key-ne-db x health generated.addr_str now d)
    where
      go :
          (r : Outcome (ServerError x) Response × x.Db)
          → IsGetKey x laws d generated.addr_str now r
          → ((b : x.RocksError) → r.0 ≢ fail (db b))
          → r.0 ≡ fail not_found
      go (done resp, d') (addr, m, decoded, held, _, _) healthy =
          let same : addr ≡ generated.addr = cc (generated.read.addressed) in
          absurd
            (cc (nothing_live now, subst (λ a. live x laws d (x.body a) now ≡ some m) same held))
      go (fail e, d') (inl (addr, decoded, missing, _, _)) healthy = ap fail missing
      go (fail e, d') (inr (inl (b, failed, _))) healthy = absurd (healthy b (ap fail failed))
      go (fail e, d') (inr (inr (bad, refused, _, _))) healthy =
          absurd (cc (generated.read.addressed, refused))
      go (panic, d') never healthy = absurd never

  -- Where the address of the drawn key holds nothing in a well-formed database whose calls do not
  -- fail, the other five tests of src/net/mod.rs pass at every reading of the clock: the put of the
  -- generated metadata is answered 200, a malformed body and the address "invalid", put or got, are
  -- bad requests, and the address that holds nothing is not found.
  pub net_tests-pass :
      (now later : ℕ)
      → ((test_index_put_ok x c sk network time now later d).0 ≡ done tt)
        × ((test_index_put_malformed_payload x c sk network time now later d).0 ≡ done tt)
        × ((test_index_put_invalid_address x c sk network time now later d).0 ≡ done tt)
        × ((test_index_get_invalid_address x now d).0 ≡ done tt)
        × ((test_index_get_not_found x c sk network time now d).0 ≡ done tt)
  unfolding test_index_put_ok test_index_put_malformed_payload test_index_put_invalid_address
      test_index_get_invalid_address test_index_get_not_found error_response
  net_tests-pass now later = (
    rw (generated.ended, put_ends now later) refl,
    rw (generated.ended, put_malformed generated.addr_str now later) refl,
    rw (generated.ended, put_invalid now later) refl,
    rw (get_invalid now) refl,
    rw (generated.ended, get_absent now) refl,
  )
