-- ===== src/Server/Concurrent/Safe.antt =====
-- The handlers of src/net/mod.rs, call by call: on sound answers of the database they write sound
-- values and do not panic.
use keyserver_rust.Prelude.{
  ℕ, ◌≡◌, ◌≢◌, refl, inl, inr, Result, ok, err, Option, none, some, Outcome, done, fail, panic,
  Bool-cases, try,
}
use keyserver_rust.Prelude.Bytes.{Bytes}
use keyserver_rust.Prelude.Int.{ltb_ℤ}
use keyserver_rust.Prelude.Steps.{◌>>=◌}
use keyserver_rust.Models.{Payload, AddressMetadata}
use keyserver_rust.Crates.{Crates}
use keyserver_rust.Crates.Laws.{RocksLaws}
use keyserver_rust.Errors.{ValidationError}
use keyserver_rust.Db.{expired, decode_stored}
use keyserver_rust.Server.Integrity.{IsSound}
use keyserver_rust.Server.Concurrent.{
  Handler, ended, getting, deleting, putting, Found, gone, drop_calls, found_calls, get_calls,
  compare_with, compare_found, put_ended, put_calls, store_calls,
}

module _ (x : Crates) (laws : RocksLaws x.rocks) where
  open laws use {contents}

  -- An answer of the database for a key, if its values are sound.
  abbrev pub IsAnswer : Bytes → Result x.RocksError (Option Bytes) → Type 0
  IsAnswer k (ok none) = Unit {0}
  IsAnswer k (ok (some v)) = IsSound x k v
  IsAnswer k (err e) = Unit {0}

  -- A handler that on sound answers writes sound values and does not panic.
  unfoldable pub IsSafe : Handler x → Type 0
  IsSafe (ended o) = o ≢ panic
  IsSafe (getting k rest) =
      (r : Result x.RocksError (Option Bytes)) → IsAnswer k r → IsSafe (rest r)
  IsSafe (deleting k rest) = (r : Result x.RocksError (Unit {0})) → IsSafe (rest r)
  IsSafe (putting k v rest) =
      IsSound x k v × ((r : Result x.RocksError (Unit {0})) → IsSafe (rest r))

  -- What `get` gives a handler on sound answers.
  abbrev pub IsGood : Found x → Type 0
  IsGood (done none) = Unit {0}
  IsGood (done (some m)) = (p : Payload) × (x.decode_payload m.serialized_payload ≡ some p)
  IsGood (fail e) = Unit {0}
  IsGood panic = ⊥

  gone-IsGood : (r : Result x.RocksError (Unit {0})) → IsGood (gone x r)
  gone-IsGood (ok u) = tt
  gone-IsGood (err e) = tt

  drop_calls-IsSafe :
      (addr : x.Address) (now : ℕ) (rest : Found x → Handler x) (m : AddressMetadata) (p : Payload)
      → ((found : Found x) → IsGood found → IsSafe (rest found))
      → x.decode_payload m.serialized_payload ≡ some p
      → IsSafe (drop_calls x addr now rest m (some p))
  unfolding drop_calls IsSafe
  drop_calls-IsSafe addr now rest m p safe parsed = elim (Bool-cases (expired p now)) [
    | inl dead ↦ rw dead (λ r. safe (gone x r) (gone-IsGood r))
    | inr live ↦ rw live (safe (done (some m)) (p, parsed))
  ]

  found_calls-IsSafe :
      (addr : x.Address) (now : ℕ) (rest : Found x → Handler x)
      (r : Result x.RocksError (Option Bytes))
      → ((found : Found x) → IsGood found → IsSafe (rest found))
      → IsAnswer (x.body addr) r
      → IsSafe (found_calls x addr now rest (try (λ e. e) r >>= decode_stored x))
  unfolding found_calls decode_stored
  found_calls-IsSafe addr now rest (ok none) safe sound = safe (done none) tt
  found_calls-IsSafe addr now rest (ok (some v)) safe sound =
      rw (sound.decoded, sound.payload_decoded)
        (drop_calls-IsSafe addr now rest sound.metadata sound.payload safe sound.payload_decoded)
  found_calls-IsSafe addr now rest (err e) safe sound = safe (fail e) tt

  pub get_calls-IsSafe :
      (addr : x.Address) (now : ℕ) (rest : Found x → Handler x)
      → ((found : Found x) → IsGood found → IsSafe (rest found))
      → IsSafe (get_calls x addr now rest)
  unfolding get_calls IsSafe
  get_calls-IsSafe addr now rest safe r answer = found_calls-IsSafe addr now rest r safe answer

  compare_found-ne-panic :
      (p : Payload) (later : ℕ) (found : Found x)
      → IsGood found
      → compare_found x p later found ≢ panic
  unfolding compare_found compare_with
  compare_found-ne-panic p later (done none) good h = cc
  compare_found-ne-panic p later (done (some m)) (q, parsed) h =
      elim (Bool-cases (ltb_ℤ p.timestamp q.timestamp)) [
        | inl older ↦ cc (rw (parsed, older) at h)
        | inr newer ↦ elim (Bool-cases (expired p later)) [
          | inl dead ↦ cc (rw (parsed, newer, dead) at h)
          | inr live ↦ cc (rw (parsed, newer, live) at h)
        ]
      ]
  compare_found-ne-panic p later (fail e) good h = cc
  compare_found-ne-panic p later panic good h = good

  put_ended-ne-panic : (r : Result x.RocksError (Unit {0})) → put_ended x r ≢ panic
  put_ended-ne-panic (ok u) h = cc
  put_ended-ne-panic (err e) h = cc

  put_calls-IsSafe :
      (addr : x.Address) (m : AddressMetadata)
      (o : Outcome x.RocksError (Result ValidationError (Unit {0})))
      → IsSound x (x.body addr) (x.encode_metadata m)
      → o ≢ panic
      → IsSafe (put_calls x addr m o)
  unfolding put_calls IsSafe
  put_calls-IsSafe addr m (done (ok u)) sound calm = (sound, λ r. put_ended-ne-panic r)
  put_calls-IsSafe addr m (done (err e)) sound calm = λ h. cc
  put_calls-IsSafe addr m (fail e) sound calm = λ h. cc
  put_calls-IsSafe addr m panic sound calm = absurd (calm refl)

  pub store_calls-IsSafe :
      (addr : x.Address) (m : AddressMetadata) (p : Payload) (now later : ℕ)
      → IsSound x (x.body addr) (x.encode_metadata m)
      → IsSafe (store_calls x addr m p now later)
  unfolding store_calls
  store_calls-IsSafe addr m p now later sound =
      get_calls-IsSafe addr now (λ found. put_calls x addr m (compare_found x p later found))
        λ found good.
          put_calls-IsSafe addr m (compare_found x p later found) sound
            (compare_found-ne-panic p later found good)
