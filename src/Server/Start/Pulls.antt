-- ===== src/Server/Start/Pulls.antt =====
-- A poll of src/net/peer.rs, cut where it comes to the database: what it brings there, and the calls
-- of the database that are left, which are those of a PUT.
use keyserver_rust.Prelude.{
  ℕ, ◌≡◌, refl, sym, subst, ap, ◌∙◌, inl, inr, Result, ok, err, Result-cases, Option, none, some,
  Option-cases, some-injective, Outcome, done, fail, panic, try, map_err, [],
}
use keyserver_rust.Prelude.Bytes.{Bytes}
use keyserver_rust.Models.{Payload, AddressMetadata}
use keyserver_rust.Crates.{Crates, PeerNet}
use keyserver_rust.Prelude.Exec.{continue, lift, pure, exec_map_err, ◌>>◌}
use keyserver_rust.Http.{respond, status_ok}
use keyserver_rust.Errors.{ServerError, ValidationError, db, validation}
use keyserver_rust.Crypto.{validate, secp256k1}
use keyserver_rust.Crypto.Validation.{IsAuthentic, validate_iff}
use keyserver_rust.Db.{put, check_timestamp}
use keyserver_rust.Net.Keys.{store_put}
use keyserver_rust.Net.Peer.{get_metadata, end_put, end_check, end_validate, poll}
use keyserver_rust.Server.Concurrent.{run, store_calls}
use keyserver_rust.Server.Concurrent.Alone.{run-store}

module _ (x : Crates) where
  -- What a poll brings to the database: an address and its metadata with the payload.
  abbrev pub Pull : Type 0
  Pull = Option (x.Address × AddressMetadata × Payload)

  unfoldable pub with_payload : x.Address → AddressMetadata → Option Payload → Pull
  with_payload addr m none = none
  with_payload addr m (some p) = some (addr, m, p)

  unfoldable pub validated : x.Address → AddressMetadata → Outcome ValidationError (Unit {0}) → Pull
  unfolding with_payload
  validated addr m (done u) = with_payload addr m (x.decode_payload m.serialized_payload)
  validated addr m (fail e) = none
  validated addr m panic = none

  -- The closure of `peer_polling` up to the database.
  unfoldable pub pulled : PeerNet → Option (Bytes × x.Address) → Pull
  unfolding validated
  pulled n none = none
  pulled n (some (peer_addr, bitcoin_addr)) = elim (x.encode bitcoin_addr) [
    | none ↦ none
    | some bitcoin_addr_str ↦ elim (get_metadata n peer_addr bitcoin_addr_str) [
      | err e ↦ none
      | ok metadata_raw ↦ elim (x.decode_metadata metadata_raw) [
        | none ↦ none
        | some metadata ↦
            validated bitcoin_addr metadata (validate x (secp256k1 x.secp) bitcoin_addr metadata)
      ]
    ]
  ]

  -- The database after the calls that are left.
  unfoldable pub stored_by : Pull → ℕ → ℕ → x.Db → x.Db
  stored_by none now later d = d
  stored_by (some (addr, m, p)) now later d = (run x (store_calls x addr m p now later) d).1

  -- What comes to the database is authentic for its address, and its payload is that of the
  -- metadata.
  abbrev pub IsPull : x.Address × AddressMetadata × Payload → Type 0
  IsPull t = IsAuthentic x (x.body t.0) t.1 × (x.decode_payload t.1.serialized_payload ≡ some t.2)

  validated-IsPull :
      (addr : x.Address) (m : AddressMetadata) (o : Outcome ValidationError (Unit {0}))
      (t : x.Address × AddressMetadata × Payload)
      → validate x (secp256k1 x.secp) addr m ≡ o
      → validated addr m o ≡ some t
      → IsPull t
  unfolding validated with_payload
  validated-IsPull addr m (done u) t valid e =
      elim (Option-cases (x.decode_payload m.serialized_payload)) [
        | inl bad ↦ absurd (cc (rw bad at e))
        | inr (p, parsed) ↦
            subst IsPull (some-injective (rw parsed at e)) ((validate_iff x addr m).0 valid, parsed)
      ]
  validated-IsPull addr m (fail f) t valid e = absurd (cc (e))
  validated-IsPull addr m panic t valid e = absurd (cc (e))

  pub pulled-IsPull :
      (n : PeerNet) (item : Option (Bytes × x.Address)) (t : x.Address × AddressMetadata × Payload)
      → pulled n item ≡ some t
      → IsPull t
  unfolding pulled
  pulled-IsPull n none t e = absurd (cc (e))
  pulled-IsPull n (some (host, addr)) t e = elim (Option-cases (x.encode addr)) [
    | inl bad ↦ absurd (cc (rw (bad, pulled) at e))
    | inr (name, encoded) ↦ elim (Result-cases (get_metadata n host name)) [
      | inr (f, failed) ↦ absurd (cc (rw (encoded, failed, pulled) at e))
      | inl (raw, got) ↦ elim (Option-cases (x.decode_metadata raw)) [
        | inl bad ↦ absurd (cc (rw (encoded, got, bad, pulled) at e))
        | inr (m, decoded) ↦
            validated-IsPull addr m (validate x (secp256k1 x.secp) addr m) t refl
              (rw (encoded, got, decoded, pulled) at e)
      ]
    ]
  ]

  end_put-store : (r : Outcome x.RocksError (Unit {0}) × x.Db) → (end_put x r).1 ≡ r.1
  unfolding end_put
  end_put-store (done u, d) = refl
  end_put-store (fail e, d) = refl
  end_put-store (panic, d) = refl

  put_answered :
      (r : Outcome x.RocksError (Unit {0}) × x.Db)
      → (continue {E = ServerError x} (map_err db r.0) (λ _. pure (respond status_ok [])) r.1).1
        ≡ r.1
  put_answered (done u, d) = refl
  put_answered (fail e, d) = refl
  put_answered (panic, d) = refl

  end_check-store :
      (addr : x.Address) (m : AddressMetadata)
      (r : Outcome x.RocksError (Result ValidationError (Unit {0})) × x.Db)
      → (end_check x addr m r).1
        ≡ (continue {E = ServerError x}
            (map_err db r.0)
            (λ checked.
              lift (try validation checked)
              >> (exec_map_err db (put x addr m) >> pure (respond status_ok [])))
            r.1).1
  unfolding end_check
  end_check-store addr m (done (ok u), d) =
      end_put-store (put x addr m d) ∙ sym (put_answered (put x addr m d))
  end_check-store addr m (done (err e), d) = refl
  end_check-store addr m (fail e, d) = refl
  end_check-store addr m (panic, d) = refl

  end_validate-stored_by :
      (addr : x.Address) (m : AddressMetadata) (now later : ℕ)
      (o : Outcome ValidationError (Unit {0})) (d : x.Db)
      → (end_validate x addr m now later o d).1 ≡ stored_by (validated addr m o) now later d
  unfolding end_validate validated with_payload stored_by store_put
  end_validate-stored_by addr m now later (fail e) d = refl
  end_validate-stored_by addr m now later panic d = refl
  end_validate-stored_by addr m now later (done u) d =
      elim (Option-cases (x.decode_payload m.serialized_payload)) [
        | inl bad ↦ rw (bad, end_validate) refl
        | inr (p, parsed) ↦
            rw (parsed, end_validate)
              (end_check-store addr m (check_timestamp x addr p now later d)
                ∙ sym (ap (λ r. r.1) (run-store x addr m p now later d)))
      ]

  -- A poll leaves the database that the calls of a PUT with what it brings there leave, if it comes
  -- there at all.
  poll-stored_by :
      (n : PeerNet) (item : Option (Bytes × x.Address)) (now later : ℕ) (d : x.Db)
      → (poll x n item now later d).1 ≡ stored_by (pulled n item) now later d
  unfolding poll pulled stored_by
  poll-stored_by n none now later d = refl
  poll-stored_by n (some (host, addr)) now later d = elim (Option-cases (x.encode addr)) [
    | inl bad ↦ rw (bad, poll, pulled) refl
    | inr (name, encoded) ↦ elim (Result-cases (get_metadata n host name)) [
      | inr (e, failed) ↦ rw (encoded, failed, poll, pulled) refl
      | inl (raw, got) ↦ elim (Option-cases (x.decode_metadata raw)) [
        | inl bad ↦ rw (encoded, got, bad, poll, pulled) refl
        | inr (m, decoded) ↦
            rw (encoded, got, decoded, poll, pulled)
              (end_validate-stored_by addr m now later (validate x (secp256k1 x.secp) addr m) d)
      ]
    ]
  ]
