-- ===== src/Net/Keys/Acceptance.antt =====
-- When `put_key` of src/net/mod.rs succeeds, and what `get_key` does not answer, on a database whose calls do not fail.
use keyserver_rust.Prelude.{
  ◌≢◌, Result-cases, ok_or, ℕ, ◌≡◌, ◌↔◌, refl, inl, inr, Result, ok, err, Option, none, some,
  Outcome, done, fail, panic, List, [], arith, Option-cases, Bool-cases, try, map_err,
}
use keyserver_rust.Prelude.Bytes.{Bytes}
use keyserver_rust.Prelude.Int.{ltb_ℤ}
use keyserver_rust.Prelude.Exec.{◌>>=◌, continue, pure, lift, exec_map_err, ◌>>◌}
use keyserver_rust.Models.{Payload, AddressMetadata}
use keyserver_rust.Crates.{Crates}
use keyserver_rust.Crates.Laws.{RocksLaws, DigestLaws, IsHealthy}
use keyserver_rust.Http.{Response, respond, status_ok}
use keyserver_rust.Errors.{not_found, ServerError, ValidationError, db, validation}
use keyserver_rust.Crypto.Validation.{validate_iff}
use keyserver_rust.Db.{
  expired, delete, put, decode_stored, drop_expired, get, compare_stored, check_timestamp,
}
use keyserver_rust.Db.Contents.{IsWellFormed}
use keyserver_rust.Db.Timestamps.{IsChecked, check_timestamp-IsChecked}
use keyserver_rust.Net.Keys.Reading.{IsRead}
use keyserver_rust.Net.Keys.Writes.{MayFollow, IsPutKey, put_key-IsPutKey}
use keyserver_rust.Crypto.{validate, secp256k1}
use keyserver_rust.Net.Keys.{get_key, check_scheme, read_put, store_put, put_key}

-- The outcome is no error.
abbrev pub HasNoError : {E A : Type 0} → Outcome E A → Type 0
HasNoError (done a) = Unit
HasNoError (fail e) = ⊥
HasNoError panic = Unit

module _ (x : Crates) where
  validate_complete :
      (addr : x.Address) (m : AddressMetadata)
      → m.scheme ≡ 1
      → validate x (secp256k1 x.secp) addr m ≡ done tt
      → check_scheme x addr m ≡ done tt
  unfolding check_scheme
  validate_complete addr m scheme valid = ground arith

  -- What `put_key` can read, it reads.
  pub read_put_complete :
      (addr_str : Bytes) (items : List (Option Bytes)) (addr : x.Address) (m : AddressMetadata)
      (p : Payload)
      → IsRead x addr_str items addr m p
      → read_put x addr_str items ≡ done (addr, m, p)
  unfolding read_put
  read_put_complete addr_str items addr m p r = simp (
    r.received,
    r.decoded,
    r.addressed,
    validate_complete addr m r.scheme ((validate_iff x addr m).1 r.authentic),
    r.payload,
  )

  module _ (health : IsHealthy x.rocks) where
    drop_expired-HasNoError :
        (addr : x.Address) (now : ℕ) (found : Option AddressMetadata) (d : x.Db)
        → HasNoError (drop_expired x addr now found d).0
    unfolding drop_expired delete
    drop_expired-HasNoError addr now none d = tt
    drop_expired-HasNoError addr now (some m) d =
        elim (Option-cases (x.decode_payload m.serialized_payload)) [
          | inl bad ↦ rw bad tt
          | inr (p, parsed) ↦ elim (Bool-cases (expired p now)) [
            | inl old ↦ rw (parsed, old, health.delete_healthy d (x.body addr)) tt
            | inr fresh ↦ rw (parsed, fresh) tt
          ]
        ]

    pub get-HasNoError : (addr : x.Address) (now : ℕ) (d : x.Db) → HasNoError (get x addr now d).0
    unfolding get decode_stored
    get-HasNoError addr now d =
        let (v, found) = health.get_healthy d (x.body addr) in
        rw found (go v (x.db_get d (x.body addr)).1)
      where
        go :
            (v : Option Bytes) (d₁ : x.Db)
            → HasNoError (continue (decode_stored x v) (drop_expired x addr now) d₁).0
        go none d₁ = drop_expired-HasNoError addr now none d₁
        go (some dat) d₁ = elim (Option-cases (x.decode_metadata dat)) [
          | inl bad ↦ rw bad tt
          | inr (m, parsed) ↦ rw parsed (drop_expired-HasNoError addr now (some m) d₁)
        ]

    -- No error of the database reaches the answer of `get_key`.
    pub get_key-ne-db :
        (addr_str : Bytes) (now : ℕ) (d : x.Db) (b : x.RocksError)
        → (get_key x addr_str now d).0 ≢ fail (db b)
    unfolding get_key
    get_key-ne-db addr_str now d b = elim (Result-cases (x.decode addr_str)) [
      | inl (addr, decoded) ↦ rw decoded (go (get x addr now d) (get-HasNoError addr now d))
      | inr (bad, refused) ↦ rw refused (λ e. cc)
    ]
      where
        go :
            (r : Outcome x.RocksError (Option AddressMetadata) × x.Db)
            → HasNoError r.0
            → (continue {E = ServerError x}
                (map_err db r.0)
                (λ found. lift (ok_or not_found found) >>= λ m.
                  pure (respond status_ok (x.encode_metadata m)))
                r.1).0
              ≢ fail (db b)
        go (done none, d₁) h = λ e. cc
        go (done (some m), d₁) h = λ e. cc
        go (fail e, d₁) h = absurd h
        go (panic, d₁) h = λ e. cc

    compare_stored-HasNoError :
        (p : Payload) (later : ℕ) (found : Option AddressMetadata) (d : x.Db)
        → HasNoError (compare_stored x p later found d).0
    unfolding compare_stored
    compare_stored-HasNoError p later none d = tt
    compare_stored-HasNoError p later (some m) d =
        elim (Option-cases (x.decode_payload m.serialized_payload)) [
          | inl bad ↦ rw bad tt
          | inr (q, parsed) ↦ elim (Bool-cases (ltb_ℤ p.timestamp q.timestamp)) [
            | inl older ↦ rw (parsed, older) tt
            | inr newer ↦ elim (Bool-cases (expired p later)) [
              | inl gone ↦ rw (parsed, newer, gone) tt
              | inr fresh ↦ rw (parsed, newer, fresh) tt
            ]
          ]
        ]

    check_timestamp-HasNoError :
        (addr : x.Address) (p : Payload) (now later : ℕ) (d : x.Db)
        → HasNoError (check_timestamp x addr p now later d).0
    unfolding check_timestamp
    check_timestamp-HasNoError addr p now later d =
        go (get x addr now d) (get-HasNoError addr now d)
      where
        go :
            (r : Outcome x.RocksError (Option AddressMetadata) × x.Db)
            → HasNoError r.0
            → HasNoError (continue r.0 (compare_stored x p later) r.1).0
        go (done found, d₁) h = compare_stored-HasNoError p later found d₁
        go (fail e, d₁) h = absurd h
        go (panic, d₁) h = tt

    module _ (laws : RocksLaws x.rocks) where
      store_put_complete :
          (d : x.Db) (addr : x.Address) (m : AddressMetadata) (p : Payload) (now later : ℕ)
          → IsWellFormed x laws d
          → MayFollow x laws d (x.body addr) now later p
          → (store_put x addr m p now later d).0 ≡ done (respond status_ok [])
      unfolding store_put put
      store_put_complete d addr m p now later wf follows =
          go (check_timestamp x addr p now later d) (check_timestamp-HasNoError addr p now later d)
            (check_timestamp-IsChecked x laws d addr p now later wf)
        where
          go :
              (r : Outcome x.RocksError (Result ValidationError (Unit {0})) × x.Db)
              → HasNoError r.0
              → IsChecked x laws d (x.body addr) p now later r
              → (continue {E = ServerError x}
                  (map_err db r.0)
                  (λ checked.
                    lift (try validation checked)
                    >> (exec_map_err db (put x addr m) >> pure (respond status_ok [])))
                  r.1).0
                ≡ done (respond status_ok [])
          go (done (ok u), d₁) h checked =
              rw (health.put_healthy d₁ (x.body addr) (x.encode_metadata m)) refl
          go (done (err e), d₁) h (swept, q, holds, inl (_, older)) =
              let (newer, _) = follows q holds in absurd (ground arith)
          go (done (err e), d₁) h (swept, q, holds, inr (_, _, old)) =
              let (_, fresh) = follows q holds in absurd (cc)
          go (fail e, d₁) h checked = absurd h
          go (panic, d₁) h never = absurd never

      abbrev pub IsAcceptable : x.Db → Bytes → List (Option Bytes) → ℕ → ℕ → Type 0
      IsAcceptable d addr_str items now later =
          (addr : x.Address) × (m : AddressMetadata) × (p : Payload) × IsRead x addr_str items addr
            m p
          × MayFollow x laws d (x.body addr) now later p

      pub put_key_complete :
          (d : x.Db) (addr_str : Bytes) (items : List (Option Bytes)) (now later : ℕ)
          → IsWellFormed x laws d
          → IsAcceptable d addr_str items now later
          → (put_key x addr_str items now later d).0 ≡ done (respond status_ok [])
      unfolding put_key
      put_key_complete d addr_str items now later wf (addr, m, p, read, follows) =
          rw (read_put_complete addr_str items addr m p read)
            (store_put_complete d addr m p now later wf follows)

      IsAcceptable-of :
          (d : x.Db) (addr_str : Bytes) (items : List (Option Bytes)) (now later : ℕ)
          (r : Outcome (ServerError x) Response × x.Db)
          → r.0 ≡ done (respond status_ok [])
          → IsPutKey x laws d addr_str items now later r
          → IsAcceptable d addr_str items now later
      IsAcceptable-of d addr_str items now later (done resp, d') e
            (addr, m, p, read, follows, _, _) =
          (addr, m, p, read, follows)
      IsAcceptable-of d addr_str items now later (fail e₁, d') e kept = absurd (cc)
      IsAcceptable-of d addr_str items now later (panic, d') e never = absurd never

      -- On a well-formed database whose calls do not fail, `put_key` answers 200 with an empty body
      -- exactly when the address and the body can be read, the metadata names scheme 1 and is
      -- authentic for the address, its payload decodes, and that payload may follow a live one: it
      -- is not older, and has not expired by the second reading of the clock.
      pub put_key_iff :
          (digests : DigestLaws x.hashes x.secp) (d : x.Db) (addr_str : Bytes)
          (items : List (Option Bytes)) (now later : ℕ)
          → IsWellFormed x laws d
          → (put_key x addr_str items now later d).0 ≡ done (respond status_ok [])
            ↔ IsAcceptable d addr_str items now later
      put_key_iff digests d addr_str items now later wf = (
        λ e.
            IsAcceptable-of d addr_str items now later (put_key x addr_str items now later d) e
              (put_key-IsPutKey x laws digests d addr_str items now later wf),
        put_key_complete d addr_str items now later wf,
      )
