-- ===== src/Server/Concurrent/Alone.antt =====
-- A handler of src/net/mod.rs that no other one disturbs ends as `get_key` and `put_key` say.
use keyserver_rust.Prelude.{
  ℕ, ◌≡◌, refl, ap, ◌∙◌, inl, inr, Result, ok, err, Result-cases, Option, none, some, Option-cases,
  List, Outcome, done, fail, panic, Bool-cases, try, map_err, ok_or, sym, [],
}
use keyserver_rust.Prelude.Bytes.{Bytes}
use keyserver_rust.Prelude.Int.{ltb_ℤ}
use keyserver_rust.Prelude.Steps.{◌>>=◌}
use keyserver_rust.Models.{Payload, AddressMetadata}
use keyserver_rust.Crates.{Crates}
use keyserver_rust.Prelude.Exec
use keyserver_rust.Prelude.Exec.{continue, lift, pure, exec_map_err, ◌>>◌}
use keyserver_rust.Http.{Response, respond, status_ok}
use keyserver_rust.Errors.{ServerError, ValidationError, db, validation, not_found}
use keyserver_rust.Db.{
  expired, decode_stored, delete, drop_expired, get, compare_stored, check_timestamp, put,
}
use keyserver_rust.Net.Keys.{decode_address, read_put, get_key, put_key, store_put}
use keyserver_rust.Server.Concurrent.{
  Handler, ended, run, gone, Found, drop_calls, found_calls, get_calls, compare_with, compare_found,
  put_calls, store_calls, read_calls, put_key_calls, get_ended, look_calls, get_key_calls,
}

module _ (x : Crates) where
  -- The rest of a handler after a step of the store.
  abbrev after : (Found x → Handler x) → Found x × x.Db → Outcome (ServerError x) Response × x.Db
  after rest r = run x (rest r.0) r.1

  dropped :
      (rest : Found x → Handler x) (r : Result x.RocksError (Unit {0}) × x.Db)
      → run x (rest (gone x r.0)) r.1
        ≡ after rest (continue (try (λ e. e) r.0) (λ u. pure none) r.1)
  dropped rest (ok u, d) = refl
  dropped rest (err e, d) = refl

  run-drop :
      (addr : x.Address) (now : ℕ) (rest : Found x → Handler x) (m : AddressMetadata) (d : x.Db)
      → run x (drop_calls x addr now rest m (x.decode_payload m.serialized_payload)) d
        ≡ after rest (drop_expired x addr now (some m) d)
  unfolding run drop_calls drop_expired delete
  run-drop addr now rest m d = elim (Option-cases (x.decode_payload m.serialized_payload)) [
    | inl bad ↦ rw bad refl
    | inr (p, parsed) ↦ elim (Bool-cases (expired p now)) [
      | inr live ↦ rw (parsed, live) refl
      | inl dead ↦ rw (parsed, dead) (dropped rest (x.db_delete d (x.body addr)))
    ]
  ]

  -- What was read, and what `get` does then.
  run-found :
      (addr : x.Address) (now : ℕ) (rest : Found x → Handler x) (raw : Option Bytes) (d : x.Db)
      → run x (found_calls x addr now rest (decode_stored x raw)) d
        ≡ after rest (continue (decode_stored x raw) (drop_expired x addr now) d)
  unfolding found_calls decode_stored drop_expired
  run-found addr now rest none d = refl
  run-found addr now rest (some dat) d = elim (Option-cases (x.decode_metadata dat)) [
    | inl bad ↦ rw bad refl
    | inr (m, decoded) ↦ rw decoded (run-drop addr now rest m d)
  ]

  looked :
      (addr : x.Address) (now : ℕ) (rest : Found x → Handler x)
      (r : Result x.RocksError (Option Bytes) × x.Db)
      → run x (found_calls x addr now rest (try (λ e. e) r.0 >>= decode_stored x)) r.1
        ≡ after rest (
            continue
              (try (λ e. e) r.0)
              (λ raw. continue (decode_stored x raw) (drop_expired x addr now))
              r.1)
  unfolding found_calls
  looked addr now rest (ok raw, d) = run-found addr now rest raw d
  looked addr now rest (err e, d) = refl

  run-get :
      (addr : x.Address) (now : ℕ) (rest : Found x → Handler x) (d : x.Db)
      → run x (get_calls x addr now rest) d ≡ after rest (get x addr now d)
  unfolding run get_calls get
  run-get addr now rest d = looked addr now rest (x.db_get d (x.body addr))

  -- The verdict on the age and the end of `put_key`.
  stored :
      (addr : x.Address) (m : AddressMetadata)
      (o : Outcome x.RocksError (Result ValidationError (Unit {0}))) (d : x.Db)
      → run x (put_calls x addr m o) d
        ≡ continue
            (map_err db o)
            (λ checked.
              lift (try validation checked)
              >> (exec_map_err db (put x addr m) >> pure (respond status_ok [])))
            d
  unfolding run put_calls put
  stored addr m (done (ok u)) d =
      elim (Result-cases (x.db_put d (x.body addr) (x.encode_metadata m)).0) [
        | inl (u, set) ↦ rw set refl
        | inr (e, failed) ↦ rw failed refl
      ]
  stored addr m (done (err e)) d = refl
  stored addr m (fail e) d = refl
  stored addr m panic d = refl

  compared :
      (p : Payload) (later : ℕ) (r : Found x × x.Db)
      → continue r.0 (compare_stored x p later) r.1 ≡ (compare_found x p later r.0, r.1)
  unfolding compare_stored compare_found compare_with
  compared p later (done none, d) = refl
  compared p later (done (some m), d) =
      elim (Option-cases (x.decode_payload m.serialized_payload)) [
        | inl bad ↦ rw bad refl
        | inr (q, parsed) ↦ elim (Bool-cases (ltb_ℤ p.timestamp q.timestamp)) [
          | inl older ↦ rw (parsed, older) refl
          | inr newer ↦ elim (Bool-cases (expired p later)) [
            | inl dead ↦ rw (parsed, newer, dead) refl
            | inr live ↦ rw (parsed, newer, live) refl
          ]
        ]
      ]
  compared p later (fail e, d) = refl
  compared p later (panic, d) = refl

  pub run-store :
      (addr : x.Address) (m : AddressMetadata) (p : Payload) (now later : ℕ) (d : x.Db)
      → run x (store_calls x addr m p now later) d ≡ store_put x addr m p now later d
  unfolding store_calls store_put check_timestamp
  run-store addr m p now later d =
      run-get addr now (λ found. put_calls x addr m (compare_found x p later found)) d
      ∙ stored addr m (compare_found x p later (get x addr now d).0) (get x addr now d).1
      ∙ ap
          (λ (r : Outcome x.RocksError (Result ValidationError (Unit {0})) × x.Db).
            continue (map_err db r.0)
              (λ checked.
                lift (try validation checked)
                >> (exec_map_err db (put x addr m) >> pure (respond status_ok [])))
              r.1)
          (sym (compared p later (get x addr now d)))

  read_then :
      (now later : ℕ) (o : Outcome (ServerError x) (x.Address × AddressMetadata × Payload))
      (d : x.Db)
      → run x (read_calls x now later o) d
        ≡ continue o (λ parsed. store_put x parsed.0 parsed.1 parsed.2 now later) d
  unfolding run read_calls
  read_then now later (done (addr, m, p)) d = run-store addr m p now later d
  read_then now later (fail e) d = refl
  read_then now later panic d = refl

  got :
      (r : Found x × x.Db)
      → (get_ended x r.0, r.1)
        ≡ continue
            (map_err db r.0)
            (λ found.
              Exec.◌>>=◌
                (lift (ok_or not_found found))
                λ metadata. pure (respond status_ok (x.encode_metadata metadata)))
            r.1
  unfolding get_ended
  got (done none, d) = refl
  got (done (some m), d) = refl
  got (fail e, d) = refl
  got (panic, d) = refl

  looked_up :
      (now : ℕ) (o : Outcome (ServerError x) x.Address) (d : x.Db)
      → run x (look_calls x now o) d
        ≡ continue o
            (λ addr. Exec.◌>>=◌ (exec_map_err db (get x addr now)) λ found.
              Exec.◌>>=◌
                (lift (ok_or not_found found))
                λ metadata. pure (respond status_ok (x.encode_metadata metadata)))
            d
  unfolding run look_calls
  looked_up now (done addr) d =
      run-get addr now (λ found. ended (get_ended x found)) d ∙ got (get x addr now d)
  looked_up now (fail e) d = refl
  looked_up now panic d = refl

  -- Call by call, a handler that no other one disturbs ends as `put_key`, or `get_key`, ends, and
  -- leaves the database that it leaves.
  pub run-handlers :
      (addr_str : Bytes) (items : List (Option Bytes)) (now later : ℕ) (d : x.Db)
      → (run x (put_key_calls x addr_str items now later) d ≡ put_key x addr_str items now later d)
        × (run x (get_key_calls x addr_str now) d ≡ get_key x addr_str now d)
  unfolding put_key_calls put_key get_key_calls get_key
  run-handlers addr_str items now later d = (
    read_then now later (read_put x addr_str items) d,
    looked_up now (decode_address x addr_str) d,
  )
