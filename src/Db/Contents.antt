-- ===== src/Db/Contents.antt =====
-- What `get` and `put` of src/db.rs return and store, seen through the contents of the database.
use keyserver_rust.Prelude.{
  ℕ, ◌≡◌, sym, ◌∙◌, inl, inr, ok, Option, none, some, Outcome, done, fail, panic, arith, Bool-cases,
  Result-cases, if◌then◌else◌,
}
use keyserver_rust.Prelude.Bytes.{Bytes, bytes_eq, bytes_eq_iff}
use keyserver_rust.Prelude.Exec.{continue}
use keyserver_rust.Models.{Payload, AddressMetadata}
use keyserver_rust.Crates.{Crates}
use keyserver_rust.Crates.Laws.{RocksLaws}
use keyserver_rust.Db.{expired, put, delete, decode_stored, drop_expired, get}

abbrev pub or_gone : Option AddressMetadata → Option Bytes → Option Bytes
or_gone none v = none
or_gone (some m) v = v

module _ (x : Crates) where
  -- A stored value that decodes, with its payload.
  pub record IsStored (value : Bytes) : Type 0 where
    pub metadata : AddressMetadata
    pub payload : Payload
    pub decoded : x.decode_metadata value ≡ some metadata
    pub payload_decoded : x.decode_payload metadata.serialized_payload ≡ some payload

  -- The metadata of a stored value, unless it has expired.
  unfoldable pub unexpired : ℕ → Option Bytes → Option AddressMetadata
  unexpired now none = none
  unexpired now (some v) = elim (x.decode_metadata v) [
    | none ↦ none
    | some m ↦ elim (x.decode_payload m.serialized_payload) [
      | none ↦ none
      | some p ↦ if expired p now then none else some m
    ]
  ]

  pub unexpired_lem :
      (now : ℕ) (v : Bytes) (s : IsStored v)
      → unexpired now (some v) ≡ (if expired s.payload now then none else some s.metadata)
  unfolding unexpired
  unexpired_lem now v s = ground (arith, s.decoded, s.payload_decoded)

module _ (x : Crates) (laws : RocksLaws x.rocks) where
  open laws use {contents}

  -- Every value of the database decodes, and so does its payload.
  abbrev pub IsWellFormed : x.Db → Type 0
  IsWellFormed d = (k v : Bytes) → contents d k ≡ some v → IsStored x v

  -- The metadata that a database holds for a key at a time.
  abbrev pub live : x.Db → Bytes → ℕ → Option AddressMetadata
  live d k now = unexpired x now (contents d k)

  -- What `get` of a key at a time returns and leaves: the live metadata, and the database as it was
  -- but for the key's expired value; or an error, and the database as it was.
  abbrev pub IsGet :
      x.Db → Bytes → ℕ → Outcome x.RocksError (Option AddressMetadata) × x.Db → Type 0
  IsGet d k now (done r, d') =
      (r ≡ live d k now)
      × ((j : Bytes)
          → contents d' j ≡ (if bytes_eq k j then or_gone r (contents d j) else contents d j))
  IsGet d k now (fail e, d') = (j : Bytes) → contents d' j ≡ contents d j
  IsGet d k now (panic, d') = ⊥

  delete-IsGet :
      (d d₁ : x.Db) (addr : x.Address) (now : ℕ)
      → ((j : Bytes) → contents d₁ j ≡ contents d j)
      → live d (x.body addr) now ≡ none
      → IsGet d
          (x.body addr)
          now
          (continue (delete x addr d₁).0 (λ _ s. (done none, s)) (delete x addr d₁).1)
  unfolding delete
  delete-IsGet d d₁ addr now same gone = elim (Result-cases (x.db_delete d₁ (x.body addr)).0) [
    | inl (u, deleted) ↦
        rw deleted
          (sym gone, λ j. ground (arith, laws.delete_ok d₁ (x.body addr) j deleted, same j))
    | inr (e, failed) ↦ rw failed (λ j. laws.delete_err d₁ (x.body addr) j e failed ∙ same j)
  ]

  drop_expired-IsGet :
      (d d₁ : x.Db) (addr : x.Address) (now : ℕ) (v : Bytes) (s : IsStored x v)
      → contents d (x.body addr) ≡ some v
      → ((j : Bytes) → contents d₁ j ≡ contents d j)
      → IsGet d (x.body addr) now (drop_expired x addr now (some s.metadata) d₁)
  unfolding drop_expired
  drop_expired-IsGet d d₁ addr now v s found same = elim (Bool-cases (expired s.payload now)) [
    | inl old ↦
        rw (s.payload_decoded, old)
          (delete-IsGet d d₁ addr now same (rw (found, unexpired_lem x now v s, old)))
    | inr fresh ↦
        rw (s.payload_decoded, fresh)
          (rw (found, unexpired_lem x now v s, fresh), λ j. ground (arith, same j))
  ]

  get_found :
      (d : x.Db) (addr : x.Address) (now : ℕ) (raw : Option Bytes)
      → IsWellFormed d
      → (x.db_get d (x.body addr)).0 ≡ ok raw
      → IsGet d (x.body addr) now (get x addr now d)
  unfolding get decode_stored
  get_found d addr now none wf got =
      let absent : contents d (x.body addr) ≡ none = sym (laws.get_ok d (x.body addr) none got) in
      rw (got, drop_expired)
        (
          unfold unexpired in rw absent,
          λ j.
              ground
                (arith, laws.contents-get d (x.body addr) j, bytes_eq_iff (x.body addr) j, absent),
        )
  get_found d addr now (some v) wf got =
      let found : contents d (x.body addr) ≡ some v =
        sym (laws.get_ok d (x.body addr) (some v) got) in
      let s = wf (x.body addr) v found in
      rw (got, s.decoded)
        (drop_expired-IsGet d (x.db_get d (x.body addr)).1 addr now v s found
          (λ j. laws.contents-get d (x.body addr) j))

  -- On a well-formed database `get` never panics: it returns the metadata that is live at the
  -- clock's reading and takes out the key's value if that has expired, or it returns the
  -- database's error and leaves the contents alone.
  pub get-IsGet :
      (d : x.Db) (addr : x.Address) (now : ℕ)
      → IsWellFormed d
      → IsGet d (x.body addr) now (get x addr now d)
  get-IsGet d addr now wf = elim (Result-cases (x.db_get d (x.body addr)).0) [
    | inl (raw, got) ↦ get_found d addr now raw wf got
    | inr (e, failed) ↦ unfold get in rw failed (λ j. laws.contents-get d (x.body addr) j)
  ]

  -- `put` never panics: it sets the value of the address's body and no other, or it returns the
  -- database's error and leaves the contents alone.
  abbrev pub IsPut :
      x.Db → Bytes → AddressMetadata → Outcome x.RocksError (Unit {0}) × x.Db → Type 0
  IsPut d k m (done u, d') =
      (j : Bytes)
      → contents d' j ≡ (if bytes_eq k j then some (x.encode_metadata m) else contents d j)
  IsPut d k m (fail e, d') = (j : Bytes) → contents d' j ≡ contents d j
  IsPut d k m (panic, d') = ⊥

  pub put-IsPut :
      (d : x.Db) (addr : x.Address) (m : AddressMetadata) → IsPut d (x.body addr) m (put x addr m d)
  unfolding put
  put-IsPut d addr m = elim (Result-cases (x.db_put d (x.body addr) (x.encode_metadata m)).0) [
    | inl (tt, stored) ↦ rw stored (λ j. laws.put_ok d (x.body addr) (x.encode_metadata m) j stored)
    | inr (e, failed) ↦
        rw failed (λ j. laws.put_err d (x.body addr) (x.encode_metadata m) j e failed)
  ]
