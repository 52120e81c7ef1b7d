-- ===== src/Server/Chain.antt =====
-- The background task that src/main.rs starts: the transactions of the node's stream, the
-- announcements in them, and the polls of the announced hosts.
pub mod Announced
use keyserver_rust.Prelude.{
  ℕ, suc, ◌≡◌, refl, sym, subst, ap, ◌∙◌, ◌⊎◌, inl, inr, Result, ok, err, Option, none, some, List,
  [], ◌∷◌, ◌++◌, Outcome, done, fail, panic, arith, Bool-cases, Option-cases, Result-cases,
}
use keyserver_rust.Prelude.Bytes.{Bytes, bytes_eq, bytes_eq_iff}
use keyserver_rust.Prelude.Exec.{Exec}
use keyserver_rust.Models.{TxOut, Transaction}
use keyserver_rust.Crates.{Crates, PeerNet}
use keyserver_rust.Crates.Laws.{RocksLaws, DigestLaws, CodecLaws}
use keyserver_rust.Settings.{Settings}
use keyserver_rust.Bitcoin.Script.Shape.{IsAnnouncement}
use keyserver_rust.Bitcoin.TxStream.{
  Error, deserialization, read_message, get_tx_stream, find_announcement, extract_details,
  find_announcement-IsFound, IsFound,
}
use keyserver_rust.Net.Peer.{PollEnd, stored, poll, peer_polling}
use keyserver_rust.Net.Peer.Polls.{IsPolled, poll-IsPolled}
use keyserver_rust.Server.Integrity.{IsIntegral, IsIntegral-IsWellFormed, poll-IsIntegral}
use keyserver_rust.Server.Polling.{Item, poll_ends, peer_polling-IsIntegral}

-- What the network answers and the clock reads for each item, by its position.
abbrev pub Surroundings : Type 1
Surroundings = ℕ → PeerNet × ℕ × ℕ

module _ (x : Crates) (Subscription : Type 0) where
  -- `Ok(ok)` of an item, or none.
  abbrev pub ok_of : {E A : Type 0} → Result E A → Option A
  ok_of (ok a) = some a
  ok_of (err e) = none

  abbrev pub in_surroundings :
      Surroundings → ℕ → List (Result (Error x Subscription) (Bytes × x.Address)) → List (Item x)
  in_surroundings env i [] = []
  in_surroundings env i (item ∷ items) =
      ((env i).0, ok_of item, (env i).1, (env i).2) ∷ in_surroundings env (suc i) items

  -- `peer_polling(key_db, extract_details(tx_stream))`
  unfoldable pub follow_chain :
      Settings → Surroundings → List (Result Subscription Bytes) → Exec x.Db ⊥ (List PollEnd)
  follow_chain settings env messages = peer_polling x (
      in_surroundings env 0
        (extract_details x Subscription settings (get_tx_stream x Subscription messages)))

  -- An output announces the address whose body is the key.
  abbrev pub IsAnnouncedBy : Settings → List TxOut → Bytes → Type 0
  IsAnnouncedBy settings outputs k =
      (before : List TxOut) × (o : TxOut) × (after : List TxOut) × (u : Bytes) × (a : x.Address)
      × (outputs ≡ before ++ o ∷ after)
      × IsAnnouncement x.cashaddr settings o.script_pubkey u a
      × (x.body a ≡ k)

  -- One of the messages is a transaction that announces the key.
  abbrev pub IsAnnounced : Settings → List (Result Subscription Bytes) → Bytes → Type 0
  IsAnnounced settings [] k = ⊥
  IsAnnounced settings (err e ∷ messages) k = IsAnnounced settings messages k
  IsAnnounced settings (ok raw ∷ messages) k =
      ((tx : Transaction) × (x.decode_tx raw ≡ ok tx) × IsAnnouncedBy settings tx.output k)
      ⊎ IsAnnounced settings messages k
