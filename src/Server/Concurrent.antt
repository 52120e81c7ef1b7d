-- ===== src/Server/Concurrent.antt =====
-- The handlers `get_key` and `put_key` of src/net/mod.rs on several workers at once. Each call of the
-- database is atomic, and the calls of other handlers and compaction may come between those of one.
pub mod Alone
pub mod Safe
pub mod Integrity
pub mod Bounded
pub mod Fairness
pub mod Answers
pub mod Overwritten
pub mod Dropped
use keyserver_rust.Prelude.{
  ℕ, zero, suc, Result, ok, err, Option, none, some, List, [], ◌∷◌, Outcome, done, fail, panic, try,
  map_err, if◌then◌else◌,
}
use keyserver_rust.Prelude.Bytes.{Bytes}
use keyserver_rust.Prelude.Int.{ltb_ℤ}
use keyserver_rust.Prelude.Steps.{◌>>=◌}
use keyserver_rust.Prelude.Exec.{Exec}
use keyserver_rust.Models.{Payload, AddressMetadata}
use keyserver_rust.Crates.{Crates}
use keyserver_rust.Http.{Response, respond, status_ok}
use keyserver_rust.Errors.{
  ServerError, ValidationError, outdated, expired_ttl, db, validation, from_rocks, not_found,
}
use keyserver_rust.Db.{expired, decode_stored}
use keyserver_rust.Net.Keys.{decode_address, read_put}

-- What is left of a handler: it has ended, or calls the database and goes on with the answer.
pub data Handler (x : Crates) : Type 0 where
  ended : Outcome (ServerError x) Response → Handler x
  getting : Bytes → (Result x.RocksError (Option Bytes) → Handler x) → Handler x
  deleting : Bytes → (Result x.RocksError (Unit {0}) → Handler x) → Handler x
  putting : Bytes → Bytes → (Result x.RocksError (Unit {0}) → Handler x) → Handler x

module _ (x : Crates) where
  -- One call of the database.
  unfoldable pub next_call : Handler x → x.Db → Handler x × x.Db
  next_call (ended o) d = (ended o, d)
  next_call (getting k rest) d = (rest (x.db_get d k).0, (x.db_get d k).1)
  next_call (deleting k rest) d = (rest (x.db_delete d k).0, (x.db_delete d k).1)
  next_call (putting k v rest) d = (rest (x.db_put d k v).0, (x.db_put d k v).1)

  -- A handler that no other one disturbs.
  unfoldable pub run : Handler x → Exec x.Db (ServerError x) Response
  run (ended o) d = (o, d)
  run (getting k rest) d = run (rest (x.db_get d k).0) (x.db_get d k).1
  run (deleting k rest) d = run (rest (x.db_delete d k).0) (x.db_delete d k).1
  run (putting k v rest) d = run (rest (x.db_put d k v).0) (x.db_put d k v).1

  -- The outcome of `KeyDB::get`, and what the handler does with it.
  abbrev pub Found : Type 0
  Found = Outcome x.RocksError (Option AddressMetadata)

  abbrev pub gone : Result x.RocksError (Unit {0}) → Found
  gone r = try (λ e. e) r >>= λ _. done none

  unfoldable pub drop_calls :
      x.Address → ℕ → (Found → Handler x) → AddressMetadata → Option Payload → Handler x
  drop_calls addr now rest metadata none = rest panic
  drop_calls addr now rest metadata (some payload) =
      if expired payload now
      then deleting (x.body addr) (λ r. rest (gone r))
      else rest (done (some metadata))

  unfoldable pub found_calls : x.Address → ℕ → (Found → Handler x) → Found → Handler x
  unfolding drop_calls
  found_calls addr now rest (done none) = rest (done none)
  found_calls addr now rest (done (some metadata)) =
      drop_calls addr now rest metadata (x.decode_payload metadata.serialized_payload)
  found_calls addr now rest (fail e) = rest (fail e)
  found_calls addr now rest panic = rest panic

  -- `KeyDB::get`
  unfoldable pub get_calls : x.Address → ℕ → (Found → Handler x) → Handler x
  unfolding found_calls
  get_calls addr now rest =
      getting (x.body addr) λ raw. found_calls addr now rest (try (λ e. e) raw >>= decode_stored x)

  -- `KeyDB::check_timestamp` after its `get`
  unfoldable pub compare_with :
      Payload → ℕ → Option Payload → Outcome x.RocksError (Result ValidationError (Unit {0}))
  compare_with new_payload now none = panic
  compare_with new_payload now (some old_payload) =
      if ltb_ℤ new_payload.timestamp old_payload.timestamp
      then done (err outdated)
      else (if expired new_payload now then done (err expired_ttl) else done (ok tt))

  unfoldable pub compare_found :
      Payload → ℕ → Found → Outcome x.RocksError (Result ValidationError (Unit {0}))
  unfolding compare_with
  compare_found new_payload now (done none) = done (ok tt)
  compare_found new_payload now (done (some old_metadata)) =
      compare_with new_payload now (x.decode_payload old_metadata.serialized_payload)
  compare_found new_payload now (fail e) = fail e
  compare_found new_payload now panic = panic

  -- The end of `put_key`, by the verdict on the age.
  abbrev pub put_ended : Result x.RocksError (Unit {0}) → Outcome (ServerError x) Response
  put_ended r = try from_rocks r >>= λ _. done (respond status_ok [])

  unfoldable pub put_calls :
      x.Address
      → AddressMetadata
      → Outcome x.RocksError (Result ValidationError (Unit {0}))
      → Handler x
  put_calls addr metadata (done (ok u)) =
      putting (x.body addr) (x.encode_metadata metadata) (λ r. ended (put_ended r))
  put_calls addr metadata (done (err e)) = ended (fail (validation e))
  put_calls addr metadata (fail e) = ended (fail (db e))
  put_calls addr metadata panic = ended panic

  unfoldable pub store_calls : x.Address → AddressMetadata → Payload → ℕ → ℕ → Handler x
  unfolding get_calls compare_found put_calls
  store_calls addr metadata payload now later =
      get_calls addr now λ found. put_calls addr metadata (compare_found payload later found)

  unfoldable pub read_calls :
      ℕ → ℕ → Outcome (ServerError x) (x.Address × AddressMetadata × Payload) → Handler x
  unfolding store_calls
  read_calls now later (done (addr, metadata, payload)) =
      store_calls addr metadata payload now later
  read_calls now later (fail e) = ended (fail e)
  read_calls now later panic = ended panic

  unfoldable pub put_key_calls : Bytes → List (Option Bytes) → ℕ → ℕ → Handler x
  unfolding read_calls
  put_key_calls addr_str items now later = read_calls now later (read_put x addr_str items)

  -- The end of `get_key`, by what was found.
  unfoldable pub get_ended : Found → Outcome (ServerError x) Response
  get_ended (done none) = fail not_found
  get_ended (done (some metadata)) = done (respond status_ok (x.encode_metadata metadata))
  get_ended (fail e) = fail (db e)
  get_ended panic = panic

  unfoldable pub look_calls : ℕ → Outcome (ServerError x) x.Address → Handler x
  unfolding get_calls get_ended
  look_calls now (done addr) = get_calls addr now λ found. ended (get_ended found)
  look_calls now (fail e) = ended (fail e)
  look_calls now panic = ended panic

  unfoldable pub get_key_calls : Bytes → ℕ → Handler x
  unfolding look_calls
  get_key_calls addr_str now = look_calls now (decode_address x addr_str)

  -- The handler at a position goes on by one call.
  unfoldable pub next_call_at : ℕ → List (Handler x) → x.Db → List (Handler x) × x.Db
  unfolding next_call
  next_call_at i [] d = ([], d)
  next_call_at zero (h ∷ hs) d = ((next_call h d).0 ∷ hs, (next_call h d).1)
  next_call_at (suc i) (h ∷ hs) d = let rest = next_call_at i hs d in (h ∷ rest.0, rest.1)

  unfoldable pub interleave : List ℕ → List (Handler x) → x.Db → List (Handler x) × x.Db
  unfolding next_call_at
  interleave [] hs d = (hs, d)
  interleave (i ∷ s) hs d = interleave s (next_call_at i hs d).0 (next_call_at i hs d).1
