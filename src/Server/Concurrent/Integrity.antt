-- ===== src/Server/Concurrent/Integrity.antt =====
-- The database and the handlers of src/net/mod.rs under every interleaving of their calls.
use keyserver_rust.Prelude.{
  ℕ, zero, suc, ◌≡◌, ◌≢◌, refl, sym, subst, ◌∙◌, inl, inr, Result, ok, err, Result-cases, Option,
  none, some, List, [], ◌∷◌, All, done, fail, panic, Outcome-cases, Bool-cases, arith, try,
}
use keyserver_rust.Prelude.Bytes.{Bytes, bytes_eq, bytes_eq_iff}
use keyserver_rust.Models.{Payload, AddressMetadata}
use keyserver_rust.Crates.{Crates}
use keyserver_rust.Crates.Laws.{RocksLaws, DigestLaws, CodecLaws}
use keyserver_rust.Errors.{address}
use keyserver_rust.Crypto.Validation.{IsAuthentic}
use keyserver_rust.Db.Compaction.{IsCompacted}
use keyserver_rust.Net.Keys.{read_put}
use keyserver_rust.Net.Keys.Reading.{read_put_sound, read_put-ne-panic}
use keyserver_rust.Server.Integrity.{IsSound, IsIntegral, here, next, compacting, Reach-IsIntegral}
use keyserver_rust.Server.Concurrent.{
  Handler, ended, getting, deleting, putting, Found, store_calls, read_calls, put_key_calls,
  get_ended, look_calls, get_key_calls, next_call, next_call_at,
}
use keyserver_rust.Server.Concurrent.Safe.{
  IsAnswer, IsSafe, IsGood, get_calls-IsSafe, store_calls-IsSafe,
}

module _ (x : Crates) where
  -- What a handler starts as: a GET, a PUT, or the end of a poll of authentic metadata, which makes
  -- the calls of `store_calls`.
  pub data Started : Handler x → Type 0 where
    get_started : (addr_str : Bytes) (now : ℕ) → Started (get_key_calls x addr_str now)
    put_started :
        (addr_str : Bytes) (items : List (Option Bytes)) (now later : ℕ)
        → Started (put_key_calls x addr_str items now later)
    poll_started :
        (addr : x.Address) (m : AddressMetadata) (p : Payload) (now later : ℕ)
        → IsAuthentic x (x.body addr) m
        → x.decode_payload m.serialized_payload ≡ some p
        → Started (store_calls x addr m p now later)

module _ (x : Crates) (laws : RocksLaws x.rocks) where
  open laws use {contents}

  -- The handlers that have started, and the database, after some of their calls.
  pub data Together (d : x.Db) : List (Handler x) → x.Db → Type 1 where
    begin : Together d [] d
    start :
        {h : Handler x} {hs : List (Handler x)} {d' : x.Db}
        → Together d hs d'
        → Started x h
        → Together d (h ∷ hs) d'
    turn :
        {hs : List (Handler x)} {d' : x.Db}
        → Together d hs d'
        → (i : ℕ) → Together d (next_call_at x i hs d').0 (next_call_at x i hs d').1
    compact :
        {hs : List (Handler x)} {d' e : x.Db}
        → Together d hs d'
        → (t : ℕ) → IsCompacted x laws d' e t
        → Together d hs e

  module _ (codec : CodecLaws x.codecs) (digests : DigestLaws x.hashes x.secp) where
    authentic-IsSound :
        (k : Bytes) (m : AddressMetadata) (p : Payload)
        → IsAuthentic x k m
        → x.decode_payload m.serialized_payload ≡ some p
        → IsSound x k (x.encode_metadata m)
    authentic-IsSound k m p auth parsed = record {
      metadata = m;
      payload = p;
      decoded = codec.decode-encode_metadata m;
      payload_decoded = parsed;
      authentic = auth;
    }

    get_ended-ne-panic : (found : Found x) → IsGood x laws found → get_ended x found ≢ panic
    unfolding get_ended
    get_ended-ne-panic (done none) good h = cc
    get_ended-ne-panic (done (some m)) good h = cc
    get_ended-ne-panic (fail e) good h = cc
    get_ended-ne-panic panic good h = good

    look_calls-IsSafe :
        (now : ℕ) (r : Result (x.CashError × x.Base58Error) x.Address)
        → IsSafe x laws (look_calls x now (try (λ e. address e.0 e.1) r))
    unfolding look_calls IsSafe
    look_calls-IsSafe now (ok addr) =
        get_calls-IsSafe x laws addr now (λ found. ended (get_ended x found)) get_ended-ne-panic
    look_calls-IsSafe now (err e) = λ h. cc

    pub Started-IsSafe : (h : Handler x) → Started x h → IsSafe x laws h
    unfolding put_key_calls read_calls get_key_calls IsSafe
    Started-IsSafe h (get_started addr_str now) = look_calls-IsSafe now (x.decode addr_str)
    Started-IsSafe h (poll_started addr m p now later auth parsed) =
        store_calls-IsSafe x laws addr m p now later
          (authentic-IsSound (x.body addr) m p auth parsed)
    Started-IsSafe h (put_started addr_str items now later) =
        elim (Outcome-cases (read_put x addr_str items)) [
          | inr (inr panicked) ↦ absurd (read_put-ne-panic x digests addr_str items panicked)
          | inr (inl (e, failed)) ↦ rw failed (λ h. cc)
          | inl ((addr, m, p), read) ↦
              let sound = read_put_sound x addr_str items read in
              rw read (
                store_calls-IsSafe x laws addr m p now later
                  (authentic-IsSound (x.body addr) m p sound.authentic sound.payload))
        ]

    -- The answer to a get, and the databases after a delete and after a put of a sound value.
    got-IsAnswer :
        (d : x.Db) (k : Bytes) (r : Result x.RocksError (Option Bytes))
        → IsIntegral x laws d
        → (x.db_get d k).0 ≡ r
        → IsAnswer x laws k r
    got-IsAnswer d k (ok none) integral e = tt
    got-IsAnswer d k (ok (some v)) integral e = integral k v (sym (laws.get_ok d k (some v) e))
    got-IsAnswer d k (err f) integral e = tt

    deleted-IsIntegral :
        (d : x.Db) (k : Bytes) → IsIntegral x laws d → IsIntegral x laws (x.db_delete d k).1
    deleted-IsIntegral d k integral j v found = elim (Result-cases (x.db_delete d k).0) [
      | inl (u, deleted) ↦ integral j v (ground (arith, laws.delete_ok d k j deleted))
      | inr (e, failed) ↦ integral j v (sym (laws.delete_err d k j e failed) ∙ found)
    ]

    set-IsIntegral :
        (d : x.Db) (k v : Bytes)
        → IsIntegral x laws d
        → IsSound x k v
        → IsIntegral x laws (x.db_put d k v).1
    set-IsIntegral d k v integral sound j u found = elim (Result-cases (x.db_put d k v).0) [
      | inr (e, failed) ↦ integral j u (sym (laws.put_err d k v j e failed) ∙ found)
      | inl (t, set) ↦ elim (Bool-cases (bytes_eq k j)) [
        | inr other ↦ integral j u (ground (arith, laws.put_ok d k v j set))
        | inl same ↦
            let e : v ≡ u = ground (arith, laws.put_ok d k v j set) in
            subst (λ t. IsSound x t u) ((bytes_eq_iff k j).0 same) (subst (IsSound x k) e sound)
      ]
    ]

    pub next_call-IsSafe :
        (h : Handler x) (d : x.Db)
        → IsIntegral x laws d
        → IsSafe x laws h
        → IsSafe x laws (next_call x h d).0 × IsIntegral x laws (next_call x h d).1
    unfolding next_call IsSafe
    next_call-IsSafe (ended o) d integral safe = (safe, integral)
    next_call-IsSafe (getting k rest) d integral safe = (
      safe (x.db_get d k).0 (got-IsAnswer d k (x.db_get d k).0 integral refl),
      λ j v found. integral j v (sym (laws.contents-get d k j) ∙ found),
    )
    next_call-IsSafe (deleting k rest) d integral safe =
        (safe (x.db_delete d k).0, deleted-IsIntegral d k integral)
    next_call-IsSafe (putting k v rest) d integral safe =
        (safe.1 (x.db_put d k v).0, set-IsIntegral d k v integral safe.0)

    pub next_call_at-IsSafe :
        (i : ℕ) (hs : List (Handler x)) (d : x.Db)
        → IsIntegral x laws d
        → All (IsSafe x laws) hs
        → All (IsSafe x laws) (next_call_at x i hs d).0
          × IsIntegral x laws (next_call_at x i hs d).1
    unfolding next_call_at
    next_call_at-IsSafe i [] d integral safe = (tt, integral)
    next_call_at-IsSafe zero (h ∷ hs) d integral safe =
        let (head, after) = next_call-IsSafe h d integral safe.0 in ((head, safe.1), after)
    next_call_at-IsSafe (suc i) (h ∷ hs) d integral safe =
        let (tail, after) = next_call_at-IsSafe i hs d integral safe.1 in ((safe.0, tail), after)

    -- From an integral database, an empty one for instance, however the calls of any GETs, PUTs and
    -- polls are interleaved with each other and with compaction, the database stays integral: each
    -- stored value decodes with its payload and is authentic for its key. And on sound answers of
    -- the database no handler that has started panics or writes what is not sound.
    pub Together-IsIntegral :
        (d d' : x.Db) (hs : List (Handler x))
        → IsIntegral x laws d
        → Together d hs d'
        → All (IsSafe x laws) hs × IsIntegral x laws d'
    Together-IsIntegral d d' hs integral begin = (tt, integral)
    Together-IsIntegral d d' hs integral (start {h = h} {hs = before} t s) =
        let (safe, after) = Together-IsIntegral d d' before integral t in
        ((Started-IsSafe h s, safe), after)
    Together-IsIntegral d d' hs integral (turn {hs = before} {d' = e} t i) =
        let (safe, after) = Together-IsIntegral d e before integral t in
        next_call_at-IsSafe i before e after safe
    Together-IsIntegral d d' hs integral (compact {d' = e} t time compacted) =
        let (safe, after) = Together-IsIntegral d e hs integral t in
        (
          safe,
          Reach-IsIntegral x laws codec digests e d' after (next here (compacting time compacted)),
        )
