-- ===== src/Server/Polling.antt =====
-- The whole of `peer_polling` of src/net/peer.rs: the stream of announcements to its end.
use keyserver_rust.Prelude.{
  ℕ, suc, ◌≡◌, refl, ap, Option, none, some, Outcome, done, fail, panic, List, [], ◌∷◌, length,
}
use keyserver_rust.Prelude.Bytes.{Bytes}
use keyserver_rust.Crates.{Crates, PeerNet}
use keyserver_rust.Crates.Laws.{RocksLaws, DigestLaws, CodecLaws}
use keyserver_rust.Net.Peer.{PollEnd, stream_failed, poll, peer_polling}
use keyserver_rust.Net.Peer.Polls.{IsPolled, poll-IsPolled}
use keyserver_rust.Server.Integrity.{IsIntegral, IsIntegral-IsWellFormed, poll-IsIntegral}

module _ (x : Crates) where
  -- An item of the stream with what the network answers and the readings of the clock.
  abbrev pub Item : Type 1
  Item = PeerNet × Option (Bytes × x.Address) × ℕ × ℕ

module _ (x : Crates) (laws : RocksLaws x.rocks) where
  ended :
      (d : x.Db) (addr : x.Address) (now later : ℕ) (r : Outcome ⊥ PollEnd × x.Db)
      → IsPolled x laws d addr now later r
      → (end : PollEnd) × (r.0 ≡ done end)
  ended d addr now later (done end, d') polled = (end, refl)
  ended d addr now later (fail e, d') never = absurd never
  ended d addr now later (panic, d') never = absurd never

  module _ (codec : CodecLaws x.codecs) (digests : DigestLaws x.hashes x.secp) where
    pub poll_ends :
        (d : x.Db) (n : PeerNet) (item : Option (Bytes × x.Address)) (now later : ℕ)
        → IsIntegral x laws d
        → (end : PollEnd) × ((poll x n item now later d).0 ≡ done end)
    unfolding poll
    poll_ends d n none now later integral = (stream_failed, refl)
    poll_ends d n (some (host, addr)) now later integral =
        ended d addr now later (poll x n (some (host, addr)) now later d) (
          poll-IsPolled x laws digests d n host addr now later
            (IsIntegral-IsWellFormed x laws d integral))

    -- From an integral database the polling of any stream comes to its end, whatever the stream,
    -- the peers and the clock give: there is one end for each item, no poll panics, and the
    -- database at the end is integral.
    pub peer_polling-IsIntegral :
        (d : x.Db) (items : List (Item x))
        → IsIntegral x laws d
        → (ends : List PollEnd) × ((peer_polling x items d).0 ≡ done ends)
          × (length ends ≡ length items)
          × IsIntegral x laws (peer_polling x items d).1
    unfolding peer_polling
    peer_polling-IsIntegral d [] integral = ([], refl, refl, integral)
    peer_polling-IsIntegral d ((n, item, now, later) ∷ items) integral =
        let (end, one) = poll_ends d n item now later integral in
        let next = poll-IsIntegral x laws codec digests d n item now later integral in
        let (ends, all, count, kept) =
          peer_polling-IsIntegral (poll x n item now later d).1 items next in
        rw (one, all) (end ∷ ends, refl, ap suc count, kept)
