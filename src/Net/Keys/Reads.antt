-- ===== src/Net/Keys/Reads.antt =====
-- What `get_key` of src/net/mod.rs answers, also after a `put_key`.
use keyserver_rust.Prelude.{
  ℕ, ◌≡◌, refl, sym, ◌⊎◌, inl, inr, ok, err, Option, none, some, Outcome, done, fail, panic, arith,
  Result-cases, map_err, ok_or,
}
use keyserver_rust.Prelude.Bytes.{Bytes}
use keyserver_rust.Prelude.Exec.{continue, pure, lift, ◌>>=◌}
use keyserver_rust.Models.{AddressMetadata}
use keyserver_rust.Crates.{Crates}
use keyserver_rust.Crates.Laws.{RocksLaws}
use keyserver_rust.Http.{Response, respond, status_ok}
use keyserver_rust.Errors.{ServerError, db, not_found, address}
use keyserver_rust.Db.{get}
use keyserver_rust.Db.Contents.{IsWellFormed, live, IsGet, get-IsGet}
use keyserver_rust.Db.Timestamps.{IsSwept, IsKept, IsSwept-IsKept}
use keyserver_rust.Net.Keys.{get_key}

module _ (x : Crates) (laws : RocksLaws x.rocks) where
  open laws use {contents}

  abbrev pub IsSame : x.Db → x.Db → Type 0
  IsSame d d' = (j : Bytes) → contents d' j ≡ contents d j

  abbrev pub IsGetKey : x.Db → Bytes → ℕ → Outcome (ServerError x) Response × x.Db → Type 0
  IsGetKey d addr_str now (done resp, d') =
      (addr : x.Address) × (m : AddressMetadata) × (x.decode addr_str ≡ ok addr)
      × (live x laws d (x.body addr) now ≡ some m)
      × (resp ≡ respond status_ok (x.encode_metadata m))
      × IsSame d d'
  IsGetKey d addr_str now (fail e, d') =
      ((addr : x.Address) × (x.decode addr_str ≡ ok addr)
        × (e ≡ not_found)
        × (live x laws d (x.body addr) now ≡ none)
        × IsSwept x laws d (x.body addr) now d')
      ⊎ ((b : x.RocksError) × (e ≡ db b) × IsSame d d')
      ⊎ ((c : x.CashError × x.Base58Error) × (x.decode addr_str ≡ err c)
          × (e ≡ address c.0 c.1)
          × IsSame d d')
  IsGetKey d addr_str now (panic, d') = ⊥

  -- Whatever it answers, only an expired value can be gone.
  pub IsGetKey-IsKept :
      (d : x.Db) (addr_str : Bytes) (now : ℕ) (r : Outcome (ServerError x) Response × x.Db)
      → IsGetKey d addr_str now r
      → IsKept x laws d now r.1
  IsGetKey-IsKept d addr_str now (done resp, d') (_, _, _, _, _, same) = λ j. inl (same j)
  IsGetKey-IsKept d addr_str now (fail e, d') (inl (addr, _, _, _, swept)) =
      IsSwept-IsKept x laws d d' (x.body addr) now swept
  IsGetKey-IsKept d addr_str now (fail e, d') (inr (inl (_, _, same))) = λ j. inl (same j)
  IsGetKey-IsKept d addr_str now (fail e, d') (inr (inr (_, _, _, same))) = λ j. inl (same j)
  IsGetKey-IsKept d addr_str now (panic, d') never = absurd never

  answer :
      (d : x.Db) (addr_str : Bytes) (addr : x.Address) (now : ℕ)
      (r : Outcome x.RocksError (Option AddressMetadata) × x.Db)
      → x.decode addr_str ≡ ok addr
      → IsGet x laws d (x.body addr) now r
      → IsGetKey d addr_str now (
          continue
            (map_err db r.0)
            (λ found.
              lift (ok_or not_found found) >>= λ m. pure (respond status_ok (x.encode_metadata m)))
            r.1)
  answer d addr_str addr now (done none, d') decoded (same, swept) =
      inl (addr, decoded, refl, sym same, λ j. ground (arith, swept j, same))
  answer d addr_str addr now (done (some m), d') decoded (same, swept) =
      (addr, m, decoded, sym same, refl, λ j. ground (arith, swept j))
  answer d addr_str addr now (fail e, d') decoded same = inr (inl (e, refl, same))
  answer d addr_str addr now (panic, d') decoded never = never

  -- On a well-formed database `get_key` never panics. It answers 200 with the encoded metadata that
  -- is live for the address of the path and leaves the contents alone; or the address is well
  -- formed, nothing is live, and it answers not found, having taken out an expired value; or it
  -- passes on the database's error or the address's, and leaves the contents alone.
  pub get_key-IsGetKey :
      (d : x.Db) (addr_str : Bytes) (now : ℕ)
      → IsWellFormed x laws d
      → IsGetKey d addr_str now (get_key x addr_str now d)
  unfolding get_key
  get_key-IsGetKey d addr_str now wf = elim (Result-cases (x.decode addr_str)) [
    | inl (addr, decoded) ↦
        rw decoded
          (answer d addr_str addr now (get x addr now d) decoded (get-IsGet x laws d addr now wf))
    | inr (c, bad) ↦ rw bad (inr (inr (c, bad, refl, λ j. refl)))
  ]
