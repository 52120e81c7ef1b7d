-- ===== src/Net/Peer/Polls.antt =====
-- What a poll of src/net/peer.rs does to the database.
use keyserver_rust.Prelude.{
  ℕ, ◌≡◌, refl, ◌∙◌, inl, inr, Result, ok, err, some, Outcome, done, fail, panic, arith,
  Option-cases, Result-cases,
}
use keyserver_rust.Prelude.Bytes.{Bytes}
use keyserver_rust.Models.{Payload, AddressMetadata}
use keyserver_rust.Crates.{Crates, PeerNet}
use keyserver_rust.Crates.Laws.{RocksLaws, DigestLaws}
use keyserver_rust.Errors.{ValidationError}
use keyserver_rust.Crypto.{validate, secp256k1}
use keyserver_rust.Crypto.Validation.{IsAuthentic, validate_iff, validate-ne-panic}
use keyserver_rust.Db.{put, check_timestamp}
use keyserver_rust.Db.Contents.{IsWellFormed, IsPut, put-IsPut}
use keyserver_rust.Db.Timestamps.{
  IsSwept, IsKept, IsSwept-IsKept, IsChecked, check_timestamp-IsChecked,
}
use keyserver_rust.Net.Keys.Writes.{MayFollow, IsUpdated}
use keyserver_rust.Net.Peer.{PollEnd, stored, get_metadata, end_put, end_check, end_validate, poll}

module _ (x : Crates) (laws : RocksLaws x.rocks) where
  open laws use {contents}

  -- Metadata was stored that is authentic for its address and may follow what was live.
  abbrev pub IsPulled : x.Db → x.Address → ℕ → ℕ → x.Db → Type 0
  IsPulled d addr now later d' =
      (m : AddressMetadata) × (p : Payload) × IsAuthentic x (x.body addr) m
      × (x.decode_payload m.serialized_payload ≡ some p)
      × MayFollow x laws d (x.body addr) now later p
      × IsUpdated x laws d (x.body addr) m d'

  -- How a poll ends: with new metadata stored, or with every key kept but for expired values.
  abbrev pub IsPolled : x.Db → x.Address → ℕ → ℕ → Outcome ⊥ PollEnd × x.Db → Type 0
  IsPolled d addr now later (done stored, d') = IsPulled d addr now later d'
  IsPolled d addr now later (done end, d') = IsKept x laws d now d'
  IsPolled d addr now later (fail e, d') = ⊥
  IsPolled d addr now later (panic, d') = ⊥

  end_put-IsPolled :
      (d d₁ : x.Db) (addr : x.Address) (m : AddressMetadata) (p : Payload) (now later : ℕ)
      (r : Outcome x.RocksError (Unit {0}) × x.Db)
      → IsAuthentic x (x.body addr) m
      → x.decode_payload m.serialized_payload ≡ some p
      → IsSwept x laws d (x.body addr) now d₁
      → MayFollow x laws d (x.body addr) now later p
      → IsPut x laws d₁ (x.body addr) m r
      → IsPolled d addr now later (end_put x r)
  unfolding end_put
  end_put-IsPolled d d₁ addr m p now later (done u, d₂) auth parsed swept follows set =
      (m, p, auth, parsed, follows, λ j. ground (arith, set j, swept j))
  end_put-IsPolled d d₁ addr m p now later (fail e, d₂) auth parsed swept follows same = λ j.
      elim (IsSwept-IsKept x laws d d₁ (x.body addr) now swept j) [
        | inl kept ↦ inl (same j ∙ kept)
        | inr (gone, dead) ↦ inr (same j ∙ gone, dead)
      ]
  end_put-IsPolled d d₁ addr m p now later (panic, d₂) auth parsed swept follows never = never

  end_check-IsPolled :
      (d : x.Db) (addr : x.Address) (m : AddressMetadata) (p : Payload) (now later : ℕ)
      (r : Outcome x.RocksError (Result ValidationError (Unit {0})) × x.Db)
      → IsAuthentic x (x.body addr) m
      → x.decode_payload m.serialized_payload ≡ some p
      → IsChecked x laws d (x.body addr) p now later r
      → IsPolled d addr now later (end_check x addr m r)
  unfolding end_check
  end_check-IsPolled d addr m p now later (done (ok u), d₁) auth parsed (swept, follows) =
      end_put-IsPolled d d₁ addr m p now later (put x addr m d₁) auth parsed swept follows
        (put-IsPut x laws d₁ addr m)
  end_check-IsPolled d addr m p now later (done (err e), d₁) auth parsed (swept, _, _, _) =
      IsSwept-IsKept x laws d d₁ (x.body addr) now swept
  end_check-IsPolled d addr m p now later (fail e, d₁) auth parsed same = λ j. inl (same j)
  end_check-IsPolled d addr m p now later (panic, d₁) auth parsed never = never

  end_validate-IsPolled :
      (digests : DigestLaws x.hashes x.secp) (d : x.Db) (addr : x.Address) (m : AddressMetadata)
      (now later : ℕ) (v : Outcome ValidationError (Unit {0}))
      → IsWellFormed x laws d
      → validate x (secp256k1 x.secp) addr m ≡ v
      → IsPolled d addr now later (end_validate x addr m now later v d)
  unfolding end_validate
  end_validate-IsPolled digests d addr m now later (fail e) wf valid = λ j. inl refl
  end_validate-IsPolled digests d addr m now later panic wf valid =
      absurd (validate-ne-panic x digests addr m valid)
  end_validate-IsPolled digests d addr m now later (done u) wf valid =
      elim (Option-cases (x.decode_payload m.serialized_payload)) [
        | inl bad ↦ rw (bad, end_validate) (λ j. inl refl)
        | inr (p, parsed) ↦
            rw (parsed, end_validate)
              (end_check-IsPolled d addr m p now later (check_timestamp x addr p now later d)
                ((validate_iff x addr m).0 valid) parsed
                (check_timestamp-IsChecked x laws d addr p now later wf))
      ]

  -- On a well-formed database the poll of an announced address never panics, whatever the peer
  -- answers. It either stores metadata that is authentic for the address, is not older than any
  -- live one and has not expired where there is a live one, and changes no other key; or every key
  -- keeps its value, but for values that had expired.
  pub poll-IsPolled :
      (digests : DigestLaws x.hashes x.secp) (d : x.Db) (n : PeerNet) (host : Bytes)
      (addr : x.Address) (now later : ℕ)
      → IsWellFormed x laws d
      → IsPolled d addr now later (poll x n (some (host, addr)) now later d)
  unfolding poll
  poll-IsPolled digests d n host addr now later wf = elim (Option-cases (x.encode addr)) [
    | inl bad ↦ rw (bad, poll) (λ j. inl refl)
    | inr (name, encoded) ↦ elim (Result-cases (get_metadata n host name)) [
      | inr (e, failed) ↦ rw (encoded, failed, poll) (λ j. inl refl)
      | inl (raw, got) ↦ elim (Option-cases (x.decode_metadata raw)) [
        | inl bad ↦ rw (encoded, got, bad, poll) (λ j. inl refl)
        | inr (m, decoded) ↦
            rw (encoded, got, decoded, poll)
              (end_validate-IsPolled digests d addr m now later _ wf refl)
      ]
    ]
  ]
