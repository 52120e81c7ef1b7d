-- ===== src/Server/Concurrent/Bounded.antt =====
-- How many calls of the database a handler of src/net/mod.rs makes.
use keyserver_rust.Prelude.{
  ℕ, zero, suc, ◌≤◌, Result, ok, err, Option, none, some, inl, inr, Bool-cases, Outcome, done, fail,
  panic, Outcome-cases, try, arith,
}
use keyserver_rust.Prelude.Bytes.{Bytes}
use keyserver_rust.Prelude.Steps.{◌>>=◌}
use keyserver_rust.Models.{Payload, AddressMetadata}
use keyserver_rust.Crates.{Crates}
use keyserver_rust.Errors.{ValidationError}
use keyserver_rust.Db.{expired, decode_stored}
use keyserver_rust.Net.Keys.{decode_address, read_put}
use keyserver_rust.Server.Concurrent.{
  Handler, ended, getting, deleting, putting, Found, gone, drop_calls, found_calls, get_calls,
  compare_found, put_calls, store_calls, read_calls, put_key_calls, get_ended, look_calls,
  get_key_calls, next_call,
}
use keyserver_rust.Server.Concurrent.Integrity.{Started, get_started, put_started, poll_started}

module _ (x : Crates) where
  -- A handler ends after at most so many calls, whatever the database answers.
  unfoldable pub EndsWithin : ℕ → Handler x → Type 0
  EndsWithin n (ended o) = Unit {0}
  EndsWithin zero (getting k rest) = ⊥
  EndsWithin (suc n) (getting k rest) =
      (r : Result x.RocksError (Option Bytes)) → EndsWithin n (rest r)
  EndsWithin zero (deleting k rest) = ⊥
  EndsWithin (suc n) (deleting k rest) =
      (r : Result x.RocksError (Unit {0})) → EndsWithin n (rest r)
  EndsWithin zero (putting k v rest) = ⊥
  EndsWithin (suc n) (putting k v rest) =
      (r : Result x.RocksError (Unit {0})) → EndsWithin n (rest r)

  pub EndsWithin-le : (n m : ℕ) (h : Handler x) → n ≤ m → EndsWithin n h → EndsWithin m h
  unfolding EndsWithin
  EndsWithin-le n m (ended o) le within = tt
  EndsWithin-le zero m (getting k rest) le within = absurd within
  EndsWithin-le zero m (deleting k rest) le within = absurd within
  EndsWithin-le zero m (putting k v rest) le within = absurd within
  EndsWithin-le (suc n) zero (getting k rest) le within = absurd (omega arith)
  EndsWithin-le (suc n) zero (deleting k rest) le within = absurd (omega arith)
  EndsWithin-le (suc n) zero (putting k v rest) le within = absurd (omega arith)
  EndsWithin-le (suc n) (suc m) (getting k rest) le within =
      λ r. EndsWithin-le n m (rest r) (omega arith) (within r)
  EndsWithin-le (suc n) (suc m) (deleting k rest) le within =
      λ r. EndsWithin-le n m (rest r) (omega arith) (within r)
  EndsWithin-le (suc n) (suc m) (putting k v rest) le within =
      λ r. EndsWithin-le n m (rest r) (omega arith) (within r)

  -- A call brings the end nearer.
  pub next_call-EndsWithin :
      (n : ℕ) (h : Handler x) (d : x.Db) → EndsWithin (suc n) h → EndsWithin n (next_call x h d).0
  unfolding EndsWithin next_call
  next_call-EndsWithin n (ended o) d within = tt
  next_call-EndsWithin n (getting k rest) d within = within (x.db_get d k).0
  next_call-EndsWithin n (deleting k rest) d within = within (x.db_delete d k).0
  next_call-EndsWithin n (putting k v rest) d within = within (x.db_put d k v).0

  drop_calls-EndsWithin :
      (n : ℕ) (addr : x.Address) (now : ℕ) (rest : Found x → Handler x) (m : AddressMetadata)
      (p : Option Payload)
      → ((found : Found x) → EndsWithin n (rest found))
      → EndsWithin (suc n) (drop_calls x addr now rest m p)
  unfolding drop_calls EndsWithin
  drop_calls-EndsWithin n addr now rest m none within =
      EndsWithin-le n (suc n) (rest panic) (omega arith) (within panic)
  drop_calls-EndsWithin n addr now rest m (some p) within = elim (Bool-cases (expired p now)) [
    | inl dead ↦ rw dead (λ r. within (gone x r))
    | inr live ↦
        rw live
          (EndsWithin-le n (suc n) (rest (done (some m))) (omega arith) (within (done (some m))))
  ]

  found_calls-EndsWithin :
      (n : ℕ) (addr : x.Address) (now : ℕ) (rest : Found x → Handler x) (found : Found x)
      → ((found : Found x) → EndsWithin n (rest found))
      → EndsWithin (suc n) (found_calls x addr now rest found)
  unfolding found_calls
  found_calls-EndsWithin n addr now rest (done none) within =
      EndsWithin-le n (suc n) (rest (done none)) (omega arith) (within (done none))
  found_calls-EndsWithin n addr now rest (done (some m)) within =
      drop_calls-EndsWithin n addr now rest m (x.decode_payload m.serialized_payload) within
  found_calls-EndsWithin n addr now rest (fail e) within =
      EndsWithin-le n (suc n) (rest (fail e)) (omega arith) (within (fail e))
  found_calls-EndsWithin n addr now rest panic within =
      EndsWithin-le n (suc n) (rest panic) (omega arith) (within panic)

  get_calls-EndsWithin :
      (n : ℕ) (addr : x.Address) (now : ℕ) (rest : Found x → Handler x)
      → ((found : Found x) → EndsWithin n (rest found))
      → EndsWithin (suc (suc n)) (get_calls x addr now rest)
  unfolding get_calls EndsWithin
  get_calls-EndsWithin n addr now rest within =
      λ r. found_calls-EndsWithin n addr now rest (try (λ e. e) r >>= decode_stored x) within

  put_calls-EndsWithin :
      (addr : x.Address) (m : AddressMetadata)
      (o : Outcome x.RocksError (Result ValidationError (Unit {0})))
      → EndsWithin 1 (put_calls x addr m o)
  unfolding put_calls EndsWithin
  put_calls-EndsWithin addr m (done (ok u)) = λ r. tt
  put_calls-EndsWithin addr m (done (err e)) = tt
  put_calls-EndsWithin addr m (fail e) = tt
  put_calls-EndsWithin addr m panic = tt

  store_calls-EndsWithin :
      (addr : x.Address) (m : AddressMetadata) (p : Payload) (now later : ℕ)
      → EndsWithin 3 (store_calls x addr m p now later)
  unfolding store_calls
  store_calls-EndsWithin addr m p now later =
      get_calls-EndsWithin 1 addr now (λ found. put_calls x addr m (compare_found x p later found))
        λ found. put_calls-EndsWithin addr m (compare_found x p later found)

  -- Every handler ends after at most three calls.
  pub Started-EndsWithin : (h : Handler x) → Started x h → EndsWithin 3 h
  unfolding put_key_calls read_calls get_key_calls look_calls EndsWithin
  Started-EndsWithin h (poll_started addr m p now later auth parsed) =
      store_calls-EndsWithin addr m p now later
  Started-EndsWithin h (get_started addr_str now) =
      elim (Outcome-cases (decode_address x addr_str)) [
        | inl (addr, decoded) ↦
            rw decoded
              (get_calls-EndsWithin 1 addr now (λ found. ended (get_ended x found)) λ found. tt)
        | inr (inl (e, failed)) ↦ rw failed tt
        | inr (inr panicked) ↦ rw panicked tt
      ]
  Started-EndsWithin h (put_started addr_str items now later) =
      elim (Outcome-cases (read_put x addr_str items)) [
        | inl ((addr, m, p), read) ↦ rw read (store_calls-EndsWithin addr m p now later)
        | inr (inl (e, failed)) ↦ rw failed tt
        | inr (inr panicked) ↦ rw panicked tt
      ]
