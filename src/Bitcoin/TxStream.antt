-- ===== src/Bitcoin/TxStream.antt =====
-- `get_tx_stream` and `extract_details` of src/bitcoin/tx_stream.rs. A stream is the list of its
-- items; the messages of the node and the failures of its subscription are the input.
use keyserver_rust.Prelude.{
  ◌≡◌, refl, ap, ◌⊎◌, inl, inr, Option, none, some, List, [], ◌∷◌, ◌++◌, Result, ok, err, map, All,
  Option-cases,
}
use keyserver_rust.Prelude.Bytes.{Bytes}
use keyserver_rust.Models.{Transaction, TxOut}
use keyserver_rust.Crates.{Crates}
use keyserver_rust.Settings.{Settings}
use keyserver_rust.Bitcoin.Script.{extract_op_return}
use keyserver_rust.Bitcoin.Script.Shape.{IsAnnouncement, extract_op_return_iff}

-- The subscription's errors and the crate's.
pub data StreamError (Subscription Encode : Type 0) : Type 0 where
  subscription : Subscription → StreamError Subscription Encode
  deserialization : Encode → StreamError Subscription Encode

module _ (x : Crates) (Subscription : Type 0) where
  abbrev pub Error : Type 0
  Error = StreamError Subscription x.TxError

  unfoldable pub read_message : Result Subscription Bytes → Result Error Transaction
  read_message (err e) = err (subscription e)
  read_message (ok raw_tx) = elim (x.decode_tx raw_tx) [
    | err e ↦ err (deserialization e)
    | ok tx ↦ ok tx
  ]

  unfoldable pub get_tx_stream : List (Result Subscription Bytes) → List (Result Error Transaction)
  unfolding read_message
  get_tx_stream messages = map read_message messages

  module _ (settings : Settings) where
    -- `find_map(extract_op_return)` over the outputs
    unfoldable pub find_announcement : List TxOut → Option (Bytes × x.Address)
    find_announcement [] = none
    find_announcement (o ∷ os) =
        let rest = find_announcement os in
        elim (extract_op_return x.cashaddr settings o.script_pubkey) [
          | some found ↦ some found
          | none ↦ rest
        ]

    -- `try_filter_map`: errors stay in the stream, transactions without an announcement leave it.
    unfoldable pub extract_details :
        List (Result Error Transaction) → List (Result Error (Bytes × x.Address))
    unfolding find_announcement
    extract_details [] = []
    extract_details (err e ∷ items) = err e ∷ extract_details items
    extract_details (ok tx ∷ items) =
        let rest = extract_details items in
        elim (find_announcement tx.output) [ some found ↦ ok found ∷ rest | none ↦ rest ]

    abbrev pub AnnouncesNothing : TxOut → Type 0
    AnnouncesNothing o =
        (u : Bytes) (a : x.Address) → ¬ IsAnnouncement x.cashaddr settings o.script_pubkey u a

    -- The first output that announces a host, with what it announces; or no output announces one.
    abbrev pub IsFound : List TxOut → Option (Bytes × x.Address) → Type 0
    IsFound outputs none = All AnnouncesNothing outputs
    IsFound outputs (some (u, a)) =
        (before : List TxOut) × (o : TxOut) × (after : List TxOut) × (outputs ≡ before ++ o ∷ after)
        × All AnnouncesNothing before
        × IsAnnouncement x.cashaddr settings o.script_pubkey u a

    IsFound-cons :
        (o : TxOut) (os : List TxOut) (r : Option (Bytes × x.Address))
        → AnnouncesNothing o
        → IsFound os r
        → IsFound (o ∷ os) r
    IsFound-cons o os none nothing all = (nothing, all)
    IsFound-cons o os (some (u, a)) nothing (before, p, after, split, all, ann) =
        (o ∷ before, p, after, ap (λ t. o ∷ t) split, (nothing, all), ann)

    pub find_announcement-IsFound :
        (outputs : List TxOut) → IsFound outputs (find_announcement outputs)
    unfolding find_announcement
    find_announcement-IsFound [] = tt
    find_announcement-IsFound (o ∷ os) =
        elim (Option-cases (extract_op_return x.cashaddr settings o.script_pubkey)) [
          | inl missing ↦
              rw (missing, find_announcement)
                (IsFound-cons o os (find_announcement os)
                  (λ u a ann. absurd (
                    cc (
                      missing,
                      (extract_op_return_iff x.cashaddr settings o.script_pubkey u a).1 ann,
                    )))
                  (find_announcement-IsFound os))
          | inr ((u, a), found) ↦
              rw (found, find_announcement)
                (
                  [],
                  o,
                  os,
                  refl,
                  tt,
                  (extract_op_return_iff x.cashaddr settings o.script_pubkey u a).0 found,
                )
        ]

    -- What is left of a stream after each item.
    abbrev pub IsExtracted :
        List (Result Error Transaction) → List (Result Error (Bytes × x.Address)) → Type 0
    IsExtracted [] out = out ≡ []
    IsExtracted (err e ∷ items) out =
        (rest : List (Result Error (Bytes × x.Address))) × (out ≡ err e ∷ rest)
        × IsExtracted items rest
    IsExtracted (ok tx ∷ items) out =
        (IsFound tx.output none × IsExtracted items out)
        ⊎ ((u : Bytes) × (a : x.Address) × (rest : List (Result Error (Bytes × x.Address)))
            × IsFound tx.output (some (u, a))
            × (out ≡ ok (u, a) ∷ rest)
            × IsExtracted items rest)

    IsExtracted-tx :
        (tx : Transaction) (items : List (Result Error Transaction))
        (rest : List (Result Error (Bytes × x.Address))) (f : Option (Bytes × x.Address))
        → IsFound tx.output f
        → IsExtracted items rest
        → IsExtracted (ok tx ∷ items) (elim f [ some found ↦ ok found ∷ rest | none ↦ rest ])
    IsExtracted-tx tx items rest none all done_ = inl (all, done_)
    IsExtracted-tx tx items rest (some (u, a)) found done_ = inr (u, a, rest, found, refl, done_)

    -- The stream of announcements keeps each error in its place, and has for each transaction the
    -- announcement of its first announcing output, or nothing if no output announces a host.
    extract_details-IsExtracted :
        (items : List (Result Error Transaction)) → IsExtracted items (extract_details items)
    unfolding extract_details
    extract_details-IsExtracted [] = refl
    extract_details-IsExtracted (err e ∷ items) =
        (extract_details items, refl, extract_details-IsExtracted items)
    extract_details-IsExtracted (ok tx ∷ items) =
        IsExtracted-tx tx items (extract_details items) (find_announcement tx.output)
          (find_announcement-IsFound tx.output) (extract_details-IsExtracted items)
