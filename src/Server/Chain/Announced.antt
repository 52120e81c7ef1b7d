-- ===== src/Server/Chain/Announced.antt =====
-- The background task of src/main.rs stores only what the node's transactions announce.
use keyserver_rust.Prelude.{
  ℕ, suc, ◌≡◌, refl, subst, ◌∙◌, ◌⊎◌, inl, inr, Result, ok, err, Option, none, some, List, [], ◌∷◌,
  Outcome, done, fail, panic, arith, Bool-cases, Result-cases,
}
use keyserver_rust.Prelude.Bytes.{Bytes, bytes_eq, bytes_eq_iff}
use keyserver_rust.Models.{TxOut, Transaction}
use keyserver_rust.Crates.{Crates}
use keyserver_rust.Crates.Laws.{RocksLaws, DigestLaws, CodecLaws}
use keyserver_rust.Settings.{Settings}
use keyserver_rust.Bitcoin.TxStream.{
  Error, deserialization, read_message, get_tx_stream, find_announcement, extract_details,
  find_announcement-IsFound, IsFound,
}
use keyserver_rust.Net.Peer.{PollEnd, stored, poll, peer_polling}
use keyserver_rust.Net.Peer.Polls.{IsPolled, poll-IsPolled}
use keyserver_rust.Server.Integrity.{IsIntegral, IsIntegral-IsWellFormed, poll-IsIntegral}
use keyserver_rust.Server.Polling.{Item, poll_ends, peer_polling-IsIntegral}
use keyserver_rust.Server.Chain.{
  Surroundings, in_surroundings, follow_chain, IsAnnouncedBy, IsAnnounced,
}

-- A poll is made for the key.
abbrev pub IsPolledFor : (x : Crates) → List (Item x) → Bytes → Type 0
IsPolledFor x [] k = ⊥
IsPolledFor x ((n, none, now, later) ∷ items) k = IsPolledFor x items k
IsPolledFor x ((n, some (host, a), now, later) ∷ items) k = (x.body a ≡ k) ⊎ IsPolledFor x items k

module _ (x : Crates) (laws : RocksLaws x.rocks) where
  open laws use {contents}

  -- The key keeps its value, or has none.
  abbrev pub IsShrunk : x.Db → x.Db → Bytes → Type 0
  IsShrunk d d' k = (contents d' k ≡ contents d k) ⊎ (contents d' k ≡ none)

  IsShrunk-trans : (d e f : x.Db) (k : Bytes) → IsShrunk d e k → IsShrunk e f k → IsShrunk d f k
  IsShrunk-trans d e f k first (inr gone) = inr gone
  IsShrunk-trans d e f k (inl same) (inl same') = inl (same' ∙ same)
  IsShrunk-trans d e f k (inr gone) (inl same) = inr (same ∙ gone)

  polled-IsShrunk :
      (d : x.Db) (a : x.Address) (now later : ℕ) (k : Bytes) (r : Outcome ⊥ PollEnd × x.Db)
      → IsPolled x laws d a now later r
      → (x.body a ≡ k) ⊎ IsShrunk d r.1 k
  polled-IsShrunk d a now later k (done stored, d') (m, p, auth, parsed, follows, set) =
      elim (Bool-cases (bytes_eq (x.body a) k)) [
        | inl same ↦ inl ((bytes_eq_iff (x.body a) k).0 same)
        | inr other ↦ inr (inl (ground (arith, set k, other)))
      ]
  polled-IsShrunk d a now later k (done end, d') kept = elim (kept k) [
    | inl same ↦ inr (inl same)
    | inr (gone, dead) ↦ inr (inr gone)
  ]
  polled-IsShrunk d a now later k (fail e, d') never = absurd never
  polled-IsShrunk d a now later k (panic, d') never = absurd never

  module _ (codec : CodecLaws x.codecs) (digests : DigestLaws x.hashes x.secp) where
    polling-IsShrunk :
        (d : x.Db) (items : List (Item x)) (k : Bytes)
        → IsIntegral x laws d
        → IsPolledFor x items k ⊎ IsShrunk d (peer_polling x items d).1 k
    unfolding peer_polling
    polling-IsShrunk d [] k integral = inr (inl refl)
    polling-IsShrunk d ((n, none, now, later) ∷ items) k integral =
        let (ends, all, _, _) = peer_polling-IsIntegral x laws codec digests d items integral in
        rw all (polling-IsShrunk d items k integral)
    polling-IsShrunk d ((n, some (host, a), now, later) ∷ items) k integral =
        let item : Option (Bytes × x.Address) = some (host, a) in
        let (end, one) = poll_ends x laws codec digests d n item now later integral in
        let next = poll-IsIntegral x laws codec digests d n item now later integral in
        let (ends, all, _, _) =
          peer_polling-IsIntegral x laws codec digests (poll x n item now later d).1 items next in
        let polled = polled-IsShrunk d a now later k (poll x n item now later d) (
          poll-IsPolled x laws digests d n host a now later
            (IsIntegral-IsWellFormed x laws d integral)) in
        rw (one, all)
          (elim polled [
            | inl here ↦ inl (inl here)
            | inr first ↦ elim (polling-IsShrunk (poll x n item now later d).1 items k next) [
              | inl there ↦ inl (inr there)
              | inr rest ↦ inr (
                  IsShrunk-trans d (poll x n item now later d).1
                    (peer_polling x items (poll x n item now later d).1).1 k first rest)
            ]
          ])

    module _ (Subscription : Type 0) (settings : Settings) where
      read_cases :
          (raw : Bytes)
          → ((tx : Transaction) × (x.decode_tx raw ≡ ok tx)
              × (read_message x Subscription (ok raw) ≡ ok tx))
            ⊎ ((e : Error x Subscription) × (read_message x Subscription (ok raw) ≡ err e))
      unfolding read_message
      read_cases raw = elim (Result-cases (x.decode_tx raw)) [
        | inl (tx, decoded) ↦ inl (tx, decoded, rw (decoded, read_message) refl)
        | inr (e, bad) ↦ inr (deserialization e, rw (bad, read_message) refl)
      ]

      -- A poll that a transaction and what follows lead to is the transaction's, or a later one's.
      found-IsAnnouncedBy :
          (env : Surroundings) (i : ℕ) (outputs : List TxOut)
          (rest : List (Result (Error x Subscription) (Bytes × x.Address))) (k : Bytes)
          (f : Option (Bytes × x.Address))
          → IsFound x Subscription settings outputs f
          → IsPolledFor x
              (in_surroundings x Subscription env i
                (elim f [ some found ↦ ok found ∷ rest | none ↦ rest ]))
              k
          → IsAnnouncedBy x Subscription settings outputs k
            ⊎ ((j : ℕ) × IsPolledFor x (in_surroundings x Subscription env j rest) k)
      found-IsAnnouncedBy env i outputs rest k none nothing polled = inr (i, polled)
      found-IsAnnouncedBy env i outputs rest k (some (u, a)) (before, o, after, split, _, ann)
            (inl same) =
          inl (before, o, after, u, a, split, ann, same)
      found-IsAnnouncedBy env i outputs rest k (some (u, a)) found (inr later) = inr (suc i, later)

      -- What is polled for has been announced.
      polled-IsAnnounced :
          (env : Surroundings) (i : ℕ) (messages : List (Result Subscription Bytes)) (k : Bytes)
          → IsPolledFor x
              (in_surroundings x Subscription env i
                (extract_details x Subscription settings (get_tx_stream x Subscription messages)))
              k
          → IsAnnounced x Subscription settings messages k
      unfolding extract_details get_tx_stream read_message
      polled-IsAnnounced env i [] k polled = polled
      polled-IsAnnounced env i (err e ∷ messages) k polled =
          polled-IsAnnounced env (suc i) messages k polled
      polled-IsAnnounced env i (ok raw ∷ messages) k polled =
          let rest = get_tx_stream x Subscription messages in
          elim (read_cases raw) [
            | inr (e, bad) ↦
                let later : IsPolledFor x
                    (in_surroundings x Subscription env (suc i)
                      (extract_details x Subscription settings rest))
                    k =
                  subst
                    (λ m.
                      IsPolledFor x
                        (in_surroundings x Subscription env i
                          (extract_details x Subscription settings (m ∷ rest)))
                        k)
                    bad polled in
                inr (polled-IsAnnounced env (suc i) messages k later)
            | inl (tx, decoded, read) ↦
                let here =
                  subst
                    (λ m.
                      IsPolledFor x
                        (in_surroundings x Subscription env i
                          (extract_details x Subscription settings (m ∷ rest)))
                        k)
                    read polled in
                elim (found-IsAnnouncedBy env i tx.output
                  (extract_details x Subscription settings rest) k
                  (find_announcement x Subscription settings tx.output)
                  (find_announcement-IsFound x Subscription settings tx.output) here) [
                    | inl by ↦ inl (tx, decoded, by)
                    | inr (j, later) ↦ inr (polled-IsAnnounced env j messages k later)
                  ]
          ]

      -- From an integral database the background task comes to its end over any stream of the node,
      -- whatever the stream, the network and the clock give: nothing panics and the database at the
      -- end is integral. A key whose value is new at the end is the body of an address that an
      -- output of a transaction of the stream announces.
      pub follow_chain-IsAnnounced :
          (env : Surroundings) (messages : List (Result Subscription Bytes)) (d : x.Db) (k : Bytes)
          → IsIntegral x laws d
          → ((ends : List PollEnd) × ((follow_chain x Subscription settings env messages d).0
                ≡ done ends))
            × IsIntegral x laws (follow_chain x Subscription settings env messages d).1
            × (IsShrunk d (follow_chain x Subscription settings env messages d).1 k
                ⊎ IsAnnounced x Subscription settings messages k)
      unfolding follow_chain
      follow_chain-IsAnnounced env messages d k integral =
          let items =
            in_surroundings x Subscription env 0
              (extract_details x Subscription settings (get_tx_stream x Subscription messages)) in
          let (ends, all, _, after) =
            peer_polling-IsIntegral x laws codec digests d items integral in
          (
            (ends, all),
            after,
            elim (polling-IsShrunk d items k integral) [
              | inl polled ↦ inr (polled-IsAnnounced env 0 messages k polled)
              | inr shrunk ↦ inl shrunk
            ],
          )
