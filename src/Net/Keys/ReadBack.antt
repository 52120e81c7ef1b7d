-- ===== src/Net/Keys/ReadBack.antt =====
-- What `get_key` answers after a successful `put_key` of src/net/mod.rs.
use keyserver_rust.Prelude.{
  ℕ, ◌≡◌, sym, ap, subst, ◌∙◌, ◌⊎◌, inl, inr, ok, Option, none, some, Outcome, done, fail, panic,
  List, arith, Bool-cases, if◌then◌else◌,
}
use keyserver_rust.Prelude.Bytes.{Bytes, bytes_eq, bytes_eq_refl}
use keyserver_rust.Models.{Payload, AddressMetadata}
use keyserver_rust.Crates.{Crates}
use keyserver_rust.Crates.Laws.{RocksLaws, DigestLaws, CodecLaws}
use keyserver_rust.Http.{Response, respond, status_ok}
use keyserver_rust.Errors.{ServerError, db, not_found}
use keyserver_rust.Db.{expired}
use keyserver_rust.Db.Contents.{IsStored, IsWellFormed, live, unexpired, unexpired_lem}
use keyserver_rust.Net.Keys.{get_key, put_key}
use keyserver_rust.Net.Keys.Reads.{IsGetKey, get_key-IsGetKey}
use keyserver_rust.Net.Keys.Reading.{IsRead}
use keyserver_rust.Net.Keys.Writes.{IsUpdated, IsPutKey, put_key-IsPutKey}

module _ (x : Crates) (laws : RocksLaws x.rocks) (codec : CodecLaws x.codecs) where
  open laws use {contents}

  abbrev stored :
      (m : AddressMetadata) (p : Payload)
      → x.decode_payload m.serialized_payload ≡ some p
      → IsStored x (x.encode_metadata m)
  stored m p parsed = record {
    metadata = m;
    payload = p;
    decoded = codec.decode-encode_metadata m;
    payload_decoded = parsed;
  }

  pub IsUpdated-IsWellFormed :
      (d d' : x.Db) (k : Bytes) (m : AddressMetadata) (p : Payload)
      → IsWellFormed x laws d
      → x.decode_payload m.serialized_payload ≡ some p
      → IsUpdated x laws d k m d'
      → IsWellFormed x laws d'
  IsUpdated-IsWellFormed d d' k m p wf parsed set j v found = elim (Bool-cases (bytes_eq k j)) [
    | inl same ↦
        let e : x.encode_metadata m ≡ v = ground (arith, set j) in
        subst (IsStored x) e (stored m p parsed)
    | inr other ↦ wf j v (ground (arith, set j))
  ]

  pub live-set :
      (d d' : x.Db) (k : Bytes) (m : AddressMetadata) (p : Payload) (t : ℕ)
      → x.decode_payload m.serialized_payload ≡ some p
      → IsUpdated x laws d k m d'
      → live x laws d' k t ≡ (if expired p t then none else some m)
  live-set d d' k m p t parsed set =
      ap (unexpired x t) (set k ∙ rw (bytes_eq_refl k))
      ∙ unexpired_lem x t (x.encode_metadata m) (stored m p parsed)

  abbrev pub IsReadBack : AddressMetadata → Payload → ℕ → Outcome (ServerError x) Response → Type 0
  IsReadBack m p t r =
      (r ≡ (if expired p t then fail not_found else done (respond status_ok (x.encode_metadata m))))
      ⊎ ((b : x.RocksError) × (r ≡ fail (db b)))

  read_back :
      (d : x.Db) (addr_str : Bytes) (addr : x.Address) (m : AddressMetadata) (p : Payload) (t : ℕ)
      (r : Outcome (ServerError x) Response × x.Db)
      → x.decode addr_str ≡ ok addr
      → live x laws d (x.body addr) t ≡ (if expired p t then none else some m)
      → IsGetKey x laws d addr_str t r
      → IsReadBack m p t r.0
  read_back d addr_str addr m p t (done resp, d') decoded held (a, m', decoded', held', answer, _) =
      let same : a ≡ addr = cc in
      let held'' : live x laws d (x.body addr) t ≡ some m' =
        ap (λ b. live x laws d (x.body b) t) (sym same) ∙ held' in
      inl (ground arith)
  read_back d addr_str addr m p t (fail e, d') decoded held (inl (a, decoded', missing, gone, _)) =
      let same : a ≡ addr = cc in
      let gone' : live x laws d (x.body addr) t ≡ none =
        ap (λ b. live x laws d (x.body b) t) (sym same) ∙ gone in
      inl (ground arith)
  read_back d addr_str addr m p t (fail e, d') decoded held (inr (inl (b, failed, _))) =
      inr (b, ap fail failed)
  read_back d addr_str addr m p t (fail e, d') decoded held (inr (inr (c, bad, _, _))) = absurd (cc)
  read_back d addr_str addr m p t (panic, d') decoded held never = absurd never

  -- Metadata that a request's body carries is what a later `get_key` of the address answers.
  abbrev pub IsServed : Bytes → List (Option Bytes) → ℕ → Outcome (ServerError x) Response → Type 0
  IsServed addr_str items t r =
      (addr : x.Address) × (m : AddressMetadata) × (p : Payload) × IsRead x addr_str items addr m p
      × IsReadBack m p t r

  IsServed-after :
      (d : x.Db) (addr_str : Bytes) (items : List (Option Bytes)) (now later t : ℕ)
      (resp : Response) (r : Outcome (ServerError x) Response × x.Db)
      → IsWellFormed x laws d
      → r.0 ≡ done resp
      → IsPutKey x laws d addr_str items now later r
      → IsServed addr_str items t (get_key x addr_str t r.1).0
  IsServed-after d addr_str items now later t resp (done resp', d') wf e
        (addr, m, p, read, _, set, _) =
      (
        addr,
        m,
        p,
        read,
        read_back d' addr_str addr m p t (get_key x addr_str t d') read.addressed
            (live-set d d' (x.body addr) m p t read.payload set)
            (get_key-IsGetKey x laws d' addr_str t
              (IsUpdated-IsWellFormed d d' (x.body addr) m p wf read.payload set)),
      )
  IsServed-after d addr_str items now later t resp (fail e', d') wf e kept = absurd (cc)
  IsServed-after d addr_str items now later t resp (panic, d') wf e never = absurd never

  -- After a successful `put_key`, `get_key` of the same address at any reading of the clock answers
  -- 200 with the encoding of the metadata that was put, or not found once its payload has expired,
  -- or the database's error.
  pub get_key-put_key :
      (digests : DigestLaws x.hashes x.secp) (d : x.Db) (addr_str : Bytes)
      (items : List (Option Bytes)) (now later t : ℕ) (resp : Response)
      → IsWellFormed x laws d
      → (put_key x addr_str items now later d).0 ≡ done resp
      → IsServed addr_str items t (get_key x addr_str t (put_key x addr_str items now later d).1).0
  get_key-put_key digests d addr_str items now later t resp wf e =
      IsServed-after d addr_str items now later t resp (put_key x addr_str items now later d) wf e
        (put_key-IsPutKey x laws digests d addr_str items now later wf)
