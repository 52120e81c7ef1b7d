-- ===== src/Server/Concurrent/Answers.antt =====
-- Single calls of the handlers of src/net/mod.rs, on a database whose calls do not fail.
use keyserver_rust.Prelude.{ℕ, ◌≡◌, refl, ap, ◌∙◌, ok, some, none, [], done, arith}
use keyserver_rust.Prelude.Bytes.{Bytes, bytes_eq_refl}
use keyserver_rust.Models.{Payload, AddressMetadata}
use keyserver_rust.Crates.{Crates}
use keyserver_rust.Crates.Laws.{RocksLaws, IsHealthy}
use keyserver_rust.Http.{respond, status_ok}
use keyserver_rust.Db.{decode_stored}
use keyserver_rust.Server.Concurrent.{
  Handler, ended, putting, put_ended, next_call, store_calls, get_calls, found_calls, compare_found,
  put_calls,
}

module _ (x : Crates) (addr : x.Address) where
  -- A PUT before its last call.
  unfoldable pub writing : AddressMetadata → Handler x
  writing m = putting (x.body addr) (x.encode_metadata m) (λ r. ended (put_ended x r))

  -- The databases after a get, a delete and a put.
  abbrev pub read : x.Db → x.Db
  read d = (x.db_get d (x.body addr)).1

  abbrev pub deleted : x.Db → x.Db
  deleted d = (x.db_delete d (x.body addr)).1

  abbrev pub written : AddressMetadata → x.Db → x.Db
  written m d = (x.db_put d (x.body addr) (x.encode_metadata m)).1

abbrev pub succeeded : (x : Crates) → Handler x
succeeded x = ended (done (respond status_ok []))

module _ (x : Crates) (laws : RocksLaws x.rocks) (health : IsHealthy x.rocks) where
  open laws use {contents}

  -- A healthy database answers with its contents.
  pub get_lem : (d : x.Db) (k : Bytes) → (x.db_get d k).0 ≡ ok (contents d k)
  get_lem d k = let (v, e) = health.get_healthy d k in e ∙ ap ok (laws.get_ok d k v e)

  module _ (addr : x.Address) where
    abbrev k : Bytes
    k = x.body addr

    pub writes :
        (m : AddressMetadata) (d : x.Db)
        → next_call x (writing x addr m) d ≡ (succeeded x, written x addr m d)
    unfolding next_call writing
    writes m d = rw (health.put_healthy d k (x.encode_metadata m)) refl

    pub contents-written :
        (m : AddressMetadata) (d : x.Db)
        → contents (written x addr m d) k ≡ some (x.encode_metadata m)
    contents-written m d = ground (
      arith,
      laws.put_ok d k (x.encode_metadata m) k (health.put_healthy d k (x.encode_metadata m)),
      bytes_eq_refl k,
    )

    pub contents-deleted : (d : x.Db) → contents (deleted x addr d) k ≡ none
    contents-deleted d =
        ground (arith, laws.delete_ok d k k (health.delete_healthy d k), bytes_eq_refl k)

    pub opens :
        (m : AddressMetadata) (p : Payload) (now later : ℕ) (d : x.Db)
        → contents d k ≡ none
        → next_call x (store_calls x addr m p now later) d ≡ (writing x addr m, read x addr d)
    unfolding next_call store_calls get_calls found_calls decode_stored compare_found put_calls
        writing
    opens m p now later d absent = rw (get_lem d k, absent) refl
