-- ===== src/Db.antt =====
-- src/db.rs: the store of metadata by address. Each reading of the clock is an argument, in seconds
-- since the epoch; the state is the database's.
pub mod Expiry
pub mod Contents
pub mod Timestamps
pub mod Compaction
pub mod Scenarios
use keyserver_rust.Prelude.{
  ℕ, Bool, true, false, Result, ok, err, Option, none, some, Outcome, done, fail, panic, try,
  unwrap, if◌then◌else◌,
}
use keyserver_rust.Prelude.Bytes.{Bytes}
use keyserver_rust.Prelude.Int.{ltb_ℤ, add64, cast64}
use keyserver_rust.Prelude.Steps
use keyserver_rust.Prelude.Exec.{Exec, pure, lift, ◌>>=◌, ◌>>◌}
use keyserver_rust.Models.{Payload, AddressMetadata}
use keyserver_rust.Crates.{Crates}
use keyserver_rust.Errors.{ValidationError, outdated, expired_ttl}

unfoldable pub expired : Payload → ℕ → Bool
expired payload now = ltb_ℤ (add64 payload.timestamp payload.ttl) (cast64 now)

-- `CompactionDecision`
pub data CompactionDecision : Type 0 where
  remove keep : CompactionDecision

module _ (x : Crates) where
  -- The filter that compaction runs on each stored value.
  unfoldable pub ttl_filter : Bytes → ℕ → Outcome x.RocksError CompactionDecision
  ttl_filter value now = Steps.◌>>=◌ (unwrap (x.decode_metadata value)) λ metadata.
      Steps.◌>>=◌ (unwrap (x.decode_payload metadata.serialized_payload))
        λ payload. done (if expired payload now then remove else keep)

  -- The calls of the database, as steps on its state.
  abbrev pub KeyDb : Type 0 → Type 0
  KeyDb A = Exec x.Db x.RocksError A

  abbrev pub call : {A : Type 0} → Result x.RocksError A × x.Db → Outcome x.RocksError A × x.Db
  call r = (try (λ e. e) r.0, r.1)

  unfoldable pub put : x.Address → AddressMetadata → KeyDb (Unit {0})
  put addr metadata d = call (x.db_put d (x.body addr) (x.encode_metadata metadata))

  unfoldable pub delete : x.Address → KeyDb (Unit {0})
  delete addr d = call (x.db_delete d (x.body addr))

  -- `opt_dat.map(|dat| AddressMetadata::decode(&dat[..]).unwrap())`
  unfoldable pub decode_stored : Option Bytes → Outcome x.RocksError (Option AddressMetadata)
  decode_stored none = done none
  decode_stored (some dat) =
      Steps.◌>>=◌ (unwrap (x.decode_metadata dat)) λ metadata. done (some metadata)

  -- The test of what was found: expired metadata is deleted.
  unfoldable pub drop_expired :
      x.Address → ℕ → Option AddressMetadata → KeyDb (Option AddressMetadata)
  unfolding delete
  drop_expired addr now none = pure none
  drop_expired addr now (some metadata) = do
    payload ← lift (unwrap (x.decode_payload metadata.serialized_payload))
    if expired payload now then (delete addr >>= λ _. pure none) else pure (some metadata)

  unfoldable pub get : x.Address → ℕ → KeyDb (Option AddressMetadata)
  unfolding decode_stored drop_expired
  get addr now = do
    raw ← λ d. call (x.db_get d (x.body addr))
    metadata ← lift (decode_stored raw)
    drop_expired addr now metadata

  -- The tests against the metadata that is stored; without any, there is none.
  unfoldable pub compare_stored :
      Payload → ℕ → Option AddressMetadata → KeyDb (Result ValidationError (Unit {0}))
  compare_stored new_payload now none = pure (ok tt)
  compare_stored new_payload now (some old_metadata) = do
    old_payload ← lift (unwrap (x.decode_payload old_metadata.serialized_payload))
    if ltb_ℤ new_payload.timestamp old_payload.timestamp
        then pure (err outdated)
        else (if expired new_payload now then pure (err expired_ttl) else pure (ok tt))

  -- The clock is read by `get` and again for the new payload.
  unfoldable pub check_timestamp :
      x.Address → Payload → ℕ → ℕ → KeyDb (Result ValidationError (Unit {0}))
  unfolding get compare_stored
  check_timestamp addr new_payload now later = do
    found ← get addr now
    compare_stored new_payload later found
