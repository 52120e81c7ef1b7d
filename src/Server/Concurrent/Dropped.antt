-- ===== src/Server/Concurrent/Dropped.antt =====
-- A call of `get_key` and one of `put_key` of src/net/mod.rs for one key that interleave.
use keyserver_rust.Prelude.{ℕ, ◌≡◌, refl, ◌∙◌, true, ok, some, none, [], ◌∷◌, fail}
use keyserver_rust.Prelude.Bytes.{Bytes}
use keyserver_rust.Models.{Payload, AddressMetadata}
use keyserver_rust.Crates.{Crates}
use keyserver_rust.Crates.Laws.{RocksLaws, IsHealthy}
use keyserver_rust.Errors.{not_found}
use keyserver_rust.Db.{expired, decode_stored}
use keyserver_rust.Server.Concurrent.{
  Handler, ended, deleting, next_call, next_call_at, interleave, store_calls, get_calls,
  found_calls, drop_calls, compare_found, put_calls, gone, get_ended, get_key_calls, look_calls,
}
use keyserver_rust.Server.Concurrent.Answers.{
  writing, read, deleted, written, succeeded, get_lem, writes, contents-written, contents-deleted,
  opens,
}

module _ (x : Crates) (laws : RocksLaws x.rocks) (health : IsHealthy x.rocks) where
  open laws use {contents}

  module _ (addr : x.Address) where
    abbrev k : Bytes
    k = x.body addr

    -- A GET and a PUT that have found an expired value, before they delete it.
    get_dropping : Handler x
    get_dropping = deleting k (λ r. ended (get_ended x (gone x r)))

    put_dropping : AddressMetadata → Payload → ℕ → Handler x
    put_dropping m p later =
        deleting k (λ r. put_calls x addr m (compare_found x p later (gone x r)))

    get_drops : (d : x.Db) → next_call x get_dropping d ≡ (ended (fail not_found), deleted x addr d)
    unfolding next_call get_dropping get_ended
    get_drops d = rw (health.delete_healthy d k) refl

    put_drops :
        (m : AddressMetadata) (p : Payload) (later : ℕ) (d : x.Db)
        → next_call x (put_dropping m p later) d ≡ (writing x addr m, deleted x addr d)
    unfolding next_call put_dropping compare_found put_calls writing
    put_drops m p later d = rw (health.delete_healthy d k) refl

    module _ (v : Bytes) (m₀ : AddressMetadata) (p₀ : Payload)
        (decoded : x.decode_metadata v ≡ some m₀)
        (parsed : x.decode_payload m₀.serialized_payload ≡ some p₀) where
      get_finds :
          (addr_str : Bytes) (now : ℕ) (d : x.Db)
          → x.decode addr_str ≡ ok addr
          → contents d k ≡ some v
          → expired p₀ now ≡ true
          → next_call x (get_key_calls x addr_str now) d ≡ (get_dropping, read x addr d)
      unfolding next_call get_key_calls look_calls get_calls found_calls drop_calls decode_stored
          get_dropping
      get_finds addr_str now d addressed held dead =
          rw (addressed, get_lem x laws health d k, held, decoded, parsed, dead) refl

      put_finds :
          (m : AddressMetadata) (p : Payload) (now later : ℕ) (d : x.Db)
          → contents d k ≡ some v
          → expired p₀ now ≡ true
          → next_call x (store_calls x addr m p now later) d
            ≡ (put_dropping m p later, read x addr d)
      unfolding next_call store_calls get_calls found_calls drop_calls decode_stored put_dropping
      put_finds m p now later d held dead =
          rw (get_lem x laws health d k, held, decoded, parsed, dead) refl

      -- A GET and a PUT for an address that holds an expired value. One after the other, and when
      -- the GET has looked before the PUT and deletes after it, the GET is answered 404 and the PUT
      -- 200; but in the second case what was put is gone.
      pub get_race :
          (m : AddressMetadata) (p : Payload) (addr_str : Bytes) (now now' later' : ℕ) (d : x.Db)
          → x.decode addr_str ≡ ok addr
          → contents d k ≡ some v
          → expired p₀ now ≡ true
          → expired p₀ now' ≡ true
          → ((interleave x
                (0 ∷ 0 ∷ 1 ∷ 1 ∷ [])
                (get_key_calls x addr_str now ∷ store_calls x addr m p now' later' ∷ [])
                d).0
              ≡ ended (fail not_found) ∷ succeeded x ∷ [])
            × (contents
                  (interleave x
                    (0 ∷ 0 ∷ 1 ∷ 1 ∷ [])
                    (get_key_calls x addr_str now ∷ store_calls x addr m p now' later' ∷ [])
                    d).1
                  k
                ≡ some (x.encode_metadata m))
            × ((interleave x
                  (0 ∷ 1 ∷ 1 ∷ 1 ∷ 0 ∷ [])
                  (get_key_calls x addr_str now ∷ store_calls x addr m p now' later' ∷ [])
                  d).0
                ≡ ended (fail not_found) ∷ succeeded x ∷ [])
            × (contents
                  (interleave x
                    (0 ∷ 1 ∷ 1 ∷ 1 ∷ 0 ∷ [])
                    (get_key_calls x addr_str now ∷ store_calls x addr m p now' later' ∷ [])
                    d).1
                  k
                ≡ none)
      unfolding interleave next_call_at
      get_race m p addr_str now now' later' d addressed held dead dead' =
          let d₁ = read x addr d in
          let d₂ = deleted x addr d₁ in
          let looks = get_finds addr_str now d addressed held dead in
          let puts =
            opens x laws health addr m p now' later' d₂ (contents-deleted x laws health addr d₁) in
          let finds = put_finds m p now' later' d₁ (laws.contents-get d k k ∙ held) dead' in
          let drops = put_drops m p later' (read x addr d₁) in
          let e = deleted x addr (read x addr d₁) in
          (
            rw (looks, get_drops d₁, puts, writes x laws health addr m (read x addr d₂)) refl,
            rw (looks, get_drops d₁, puts, writes x laws health addr m (read x addr d₂))
                (contents-written x laws health addr m (read x addr d₂)),
            rw (looks, finds, drops, writes x laws health addr m e, get_drops (written x addr m e))
                refl,
            rw (looks, finds, drops, writes x laws health addr m e, get_drops (written x addr m e))
                (contents-deleted x laws health addr (written x addr m e)),
          )
