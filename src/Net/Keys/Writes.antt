-- ===== src/Net/Keys/Writes.antt =====
-- What `put_key` of src/net/mod.rs accepts and stores.
use keyserver_rust.Prelude.{
  ℕ, ◌≡◌, refl, ◌∙◌, inl, inr, false, Result, ok, err, Option, some, Outcome, done, fail, panic,
  List, [], arith, Outcome-cases, try, map_err, if◌then◌else◌,
}
use keyserver_rust.Prelude.Bytes.{Bytes, bytes_eq}
use keyserver_rust.Prelude.Int.{◌≤ℤ◌}
use keyserver_rust.Prelude.Exec.{continue, pure, lift, exec_map_err, ◌>>◌}
use keyserver_rust.Models.{Payload, AddressMetadata}
use keyserver_rust.Crates.{Crates}
use keyserver_rust.Crates.Laws.{RocksLaws, DigestLaws}
use keyserver_rust.Http.{Response, respond, status_ok}
use keyserver_rust.Errors.{ServerError, ValidationError, db, validation}
use keyserver_rust.Db.{expired, put, check_timestamp}
use keyserver_rust.Db.Contents.{IsWellFormed, IsPut, put-IsPut}
use keyserver_rust.Db.Timestamps.{
  IsSwept, IsKept, IsSwept-IsKept, HoldsLive, IsChecked, check_timestamp-IsChecked,
}
use keyserver_rust.Net.Keys.Reading.{IsRead, read_put_sound, read_put-ne-panic}
use keyserver_rust.Net.Keys.{read_put, store_put, put_key}

module _ (x : Crates) (laws : RocksLaws x.rocks) where
  open laws use {contents}

  -- A payload may follow the live one: it is not older, and has not expired.
  abbrev pub MayFollow : x.Db → Bytes → ℕ → ℕ → Payload → Type 0
  MayFollow d k now later p =
      (q : Payload)
      → HoldsLive x laws d k now q
      → (q.timestamp ≤ℤ p.timestamp) × (expired p later ≡ false)

  -- The contents with one key set.
  abbrev pub IsUpdated : x.Db → Bytes → AddressMetadata → x.Db → Type 0
  IsUpdated d k m d' =
      (j : Bytes)
      → contents d' j ≡ (if bytes_eq k j then some (x.encode_metadata m) else contents d j)

  abbrev pub IsStorePut :
      x.Db
      → Bytes
      → AddressMetadata
      → Payload
      → ℕ
      → ℕ
      → Outcome (ServerError x) Response × x.Db
      → Type 0
  IsStorePut d k m p now later (done resp, d') =
      MayFollow d k now later p × IsUpdated d k m d' × (resp ≡ respond status_ok [])
  IsStorePut d k m p now later (fail e, d') = IsKept x laws d now d'
  IsStorePut d k m p now later (panic, d') = ⊥

  -- The last step of `store_put`, from the database that `check_timestamp` leaves.
  abbrev finish : Outcome x.RocksError (Unit {0}) × x.Db → Outcome (ServerError x) Response × x.Db
  finish r = continue (map_err db r.0) (λ _. pure (respond status_ok [])) r.1

  finish-IsStorePut :
      (d d₁ : x.Db) (k : Bytes) (m : AddressMetadata) (p : Payload) (now later : ℕ)
      (r : Outcome x.RocksError (Unit {0}) × x.Db)
      → IsSwept x laws d k now d₁
      → MayFollow d k now later p
      → IsPut x laws d₁ k m r
      → IsStorePut d k m p now later (finish r)
  finish-IsStorePut d d₁ k m p now later (done u, d₂) swept follows set =
      (follows, (λ j. ground (arith, set j, swept j)), refl)
  finish-IsStorePut d d₁ k m p now later (fail e, d₂) swept follows same = λ j.
      elim (IsSwept-IsKept x laws d d₁ k now swept j) [
        | inl kept ↦ inl (same j ∙ kept)
        | inr (gone, dead) ↦ inr (same j ∙ gone, dead)
      ]
  finish-IsStorePut d d₁ k m p now later (panic, d₂) swept follows never = never

  store_put-IsStorePut :
      (d : x.Db) (addr : x.Address) (m : AddressMetadata) (p : Payload) (now later : ℕ)
      → IsWellFormed x laws d
      → IsStorePut d (x.body addr) m p now later (store_put x addr m p now later d)
  unfolding store_put
  store_put-IsStorePut d addr m p now later wf =
      go (check_timestamp x addr p now later d)
        (check_timestamp-IsChecked x laws d addr p now later wf)
    where
      go :
          (r : Outcome x.RocksError (Result ValidationError (Unit {0})) × x.Db)
          → IsChecked x laws d (x.body addr) p now later r
          → IsStorePut d (x.body addr) m p now later (
              continue
                (map_err db r.0)
                (λ checked.
                  lift (try validation checked)
                  >> (exec_map_err db (put x addr m) >> pure (respond status_ok [])))
                r.1)
      go (done (ok u), d₁) (swept, follows) =
          finish-IsStorePut d d₁ (x.body addr) m p now later (put x addr m d₁) swept follows
            (put-IsPut x laws d₁ addr m)
      go (done (err e), d₁) (swept, _, _, _) = IsSwept-IsKept x laws d d₁ (x.body addr) now swept
      go (fail e, d₁) same = λ j. inl (same j)
      go (panic, d₁) never = never

  abbrev pub IsPutKey :
      x.Db → Bytes → List (Option Bytes) → ℕ → ℕ → Outcome (ServerError x) Response × x.Db → Type 0
  IsPutKey d addr_str items now later (done resp, d') =
      (addr : x.Address) × (m : AddressMetadata) × (p : Payload) × IsRead x addr_str items addr m p
      × MayFollow d (x.body addr) now later p
      × IsUpdated d (x.body addr) m d'
      × (resp ≡ respond status_ok [])
  IsPutKey d addr_str items now later (fail e, d') = IsKept x laws d now d'
  IsPutKey d addr_str items now later (panic, d') = ⊥

  IsStorePut-IsPutKey :
      (d : x.Db) (addr_str : Bytes) (items : List (Option Bytes)) (addr : x.Address)
      (m : AddressMetadata) (p : Payload) (now later : ℕ)
      (r : Outcome (ServerError x) Response × x.Db)
      → IsRead x addr_str items addr m p
      → IsStorePut d (x.body addr) m p now later r
      → IsPutKey d addr_str items now later r
  IsStorePut-IsPutKey d addr_str items addr m p now later (done resp, d') read
        (follows, set, ended) =
      (addr, m, p, read, follows, set, ended)
  IsStorePut-IsPutKey d addr_str items addr m p now later (fail e, d') read kept = kept
  IsStorePut-IsPutKey d addr_str items addr m p now later (panic, d') read never = never

  -- On a well-formed database `put_key` never panics. If it succeeds, then the body was received
  -- and decoded, the metadata names scheme 1 and is authentic for the address of the path, its
  -- payload is not older than any live one and, where there is a live one, has not expired; the
  -- encoded metadata is stored under the address and no other key changes. If it fails, every key
  -- keeps its value, but for values that had expired.
  pub put_key-IsPutKey :
      (digests : DigestLaws x.hashes x.secp) (d : x.Db) (addr_str : Bytes)
      (items : List (Option Bytes)) (now later : ℕ)
      → IsWellFormed x laws d
      → IsPutKey d addr_str items now later (put_key x addr_str items now later d)
  unfolding put_key
  put_key-IsPutKey digests d addr_str items now later wf =
      elim (Outcome-cases (read_put x addr_str items)) [
        | inl (r, read) ↦ rw read (
            IsStorePut-IsPutKey d addr_str items r.0 r.1 r.2 now later _
              (read_put_sound x addr_str items read)
              (store_put-IsStorePut d r.0 r.1 r.2 now later wf))
        | inr (inl (e, failed)) ↦ rw failed (λ j. inl refl)
        | inr (inr panicked) ↦ absurd (read_put-ne-panic x digests addr_str items panicked)
      ]
