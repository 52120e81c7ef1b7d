-- ===== src/Db/Timestamps.antt =====
-- What `check_timestamp` of src/db.rs decides.
use keyserver_rust.Prelude.{
  ℕ, ◌≡◌, refl, sym, ap, subst, ◌∙◌, ◌⊎◌, inl, inr, true, false, Result, ok, err, Option, none,
  some, Outcome, done, fail, panic, arith, Option-cases, Bool-cases, if◌then◌else◌,
}
use keyserver_rust.Prelude.Bytes.{Bytes, bytes_eq, bytes_eq_iff}
use keyserver_rust.Prelude.Int.{◌≤ℤ◌, ◌<ℤ◌, ltb_ℤ}
use keyserver_rust.Prelude.Exec.{continue}
use keyserver_rust.Models.{Payload, AddressMetadata}
use keyserver_rust.Crates.{Crates}
use keyserver_rust.Crates.Laws.{RocksLaws}
use keyserver_rust.Errors.{ValidationError, outdated, expired_ttl}
use keyserver_rust.Db.{expired, get, compare_stored, check_timestamp}
use keyserver_rust.Db.Contents.{
  IsWellFormed, live, or_gone, unexpired, unexpired_lem, IsGet, get-IsGet,
}

module _ (x : Crates) (laws : RocksLaws x.rocks) where
  open laws use {contents}

  -- The contents after `get`: the key's value is gone if nothing was live.
  abbrev pub IsSwept : x.Db → Bytes → ℕ → x.Db → Type 0
  IsSwept d k now d' =
      (j : Bytes)
      → contents d' j
        ≡ (if bytes_eq k j then or_gone (live x laws d k now) (contents d j) else contents d j)

  -- Every key keeps its value, or had nothing live and has lost it.
  abbrev pub IsKept : x.Db → ℕ → x.Db → Type 0
  IsKept d now d' =
      (j : Bytes)
      → (contents d' j ≡ contents d j) ⊎ ((contents d' j ≡ none) × (live x laws d j now ≡ none))

  pub IsSwept-IsKept : (d d' : x.Db) (k : Bytes) (now : ℕ) → IsSwept d k now d' → IsKept d now d'
  IsSwept-IsKept d d' k now swept j = elim (Bool-cases (bytes_eq k j)) [
    | inl same ↦
        let e : k ≡ j = (bytes_eq_iff k j).0 same in
        elim (Option-cases (live x laws d k now)) [
          | inl gone ↦ inr (ground (arith, swept j), ap (λ t. live x laws d t now) (sym e) ∙ gone)
          | inr (m, held) ↦ inl (ground (arith, swept j))
        ]
    | inr other ↦ inl (ground (arith, swept j))
  ]

  -- Live metadata with its payload.
  abbrev pub HoldsLive : x.Db → Bytes → ℕ → Payload → Type 0
  HoldsLive d k now q =
      (m : AddressMetadata) × (live x laws d k now ≡ some m)
      × (x.decode_payload m.serialized_payload ≡ some q)

  abbrev pub IsChecked :
      x.Db
      → Bytes
      → Payload
      → ℕ
      → ℕ
      → Outcome x.RocksError (Result ValidationError (Unit {0})) × x.Db
      → Type 0
  IsChecked d k p now later (done (ok u), d') =
      IsSwept d k now d'
      × ((q : Payload)
          → HoldsLive d k now q
          → (q.timestamp ≤ℤ p.timestamp) × (expired p later ≡ false))
  IsChecked d k p now later (done (err e), d') =
      IsSwept d k now d'
      × (q : Payload) × HoldsLive d k now q
      × (((e ≡ outdated) × (p.timestamp <ℤ q.timestamp))
          ⊎ ((e ≡ expired_ttl) × (q.timestamp ≤ℤ p.timestamp) × (expired p later ≡ true)))
  IsChecked d k p now later (fail e, d') = (j : Bytes) → contents d' j ≡ contents d j
  IsChecked d k p now later (panic, d') = ⊥

  -- Live metadata decodes, payload included, where the database is well-formed.
  pub live_payload :
      (d : x.Db) (k : Bytes) (now : ℕ) (m : AddressMetadata)
      → IsWellFormed x laws d
      → live x laws d k now ≡ some m
      → (q : Payload) × (v : Bytes) × (x.decode_payload m.serialized_payload ≡ some q)
        × (contents d k ≡ some v)
        × (x.decode_metadata v ≡ some m)
        × (expired q now ≡ false)
  unfolding unexpired
  live_payload d k now m wf e = elim (Option-cases (contents d k)) [
    | inl absent ↦ absurd (cc (ap (unexpired x now) absent, e))
    | inr (v, found) ↦
        let s = wf k v found in
        let same : (if expired s.payload now then none else some s.metadata) ≡ some m =
          sym (unexpired_lem x now v s) ∙ sym (ap (unexpired x now) found) ∙ e in
        (
          s.payload,
          v,
          ground (arith, s.payload_decoded),
          found,
          ground (arith, s.decoded),
          ground arith,
        )
  ]

  compare_stored-IsChecked :
      (d d₁ : x.Db) (k : Bytes) (p : Payload) (now later : ℕ) (r : Option AddressMetadata)
      → IsWellFormed x laws d
      → IsGet x laws d k now (done r, d₁)
      → IsChecked d k p now later (compare_stored x p later r d₁)
  unfolding compare_stored
  compare_stored-IsChecked d d₁ k p now later none wf (same, swept) =
      ((λ j. ground (arith, swept j)), λ q (m, holds, _). absurd (cc (same, holds)))
  compare_stored-IsChecked d d₁ k p now later (some m) wf (same, swept) =
      let (q, _, parsed, _, _, _) = live_payload d k now m wf (sym same) in
      let sweep : IsSwept d k now d₁ = λ j. ground (arith, swept j, same) in
      elim (Bool-cases (ltb_ℤ p.timestamp q.timestamp)) [
        | inl older ↦ rw (parsed, older) (sweep, q, (m, sym same, parsed), inl (refl, ground arith))
        | inr newer ↦ elim (Bool-cases (expired p later)) [
          | inl gone ↦
              rw (parsed, newer, gone)
                (sweep, q, (m, sym same, parsed), inr (refl, ground arith, gone))
          | inr fresh ↦
              rw (parsed, newer, fresh)
                (
                  sweep,
                  λ q' (m', holds, parsed').
                      let same_payload : q' ≡ q = cc in
                      (
                        subst (λ t. t.timestamp ≤ℤ p.timestamp) (sym same_payload) (ground arith),
                        fresh,
                      ),
                )
        ]
      ]

  -- On a well-formed database `check_timestamp` never panics. It accepts a payload if it is not
  -- older than any live one and, where there is a live one, has not expired itself; it refuses it
  -- as outdated if it is older than the live one, and as expired if it is not older and has
  -- expired; a database error leaves the contents alone.
  pub check_timestamp-IsChecked :
      (d : x.Db) (addr : x.Address) (p : Payload) (now later : ℕ)
      → IsWellFormed x laws d
      → IsChecked d (x.body addr) p now later (check_timestamp x addr p now later d)
  unfolding check_timestamp
  check_timestamp-IsChecked d addr p now later wf =
      go (get x addr now d) (get-IsGet x laws d addr now wf)
    where
      go :
          (r : Outcome x.RocksError (Option AddressMetadata) × x.Db)
          → IsGet x laws d (x.body addr) now r
          → IsChecked d (x.body addr) p now later (continue r.0 (compare_stored x p later) r.1)
      go (done r, d₁) h = compare_stored-IsChecked d d₁ (x.body addr) p now later r wf h
      go (fail e, d₁) h = h
      go (panic, d₁) h = h
