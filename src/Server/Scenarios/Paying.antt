-- ===== src/Server/Scenarios/Paying.antt =====
-- The payment that the test `test_put_payment` of src/net/payments.rs makes of an invoice.
use keyserver_rust.Prelude.{
  ℕ, ◌≡◌, refl, some, none, List, [], ◌∷◌, ◌++◌, done, arith, length, leb, true, take-append,
  length-append,
}
use keyserver_rust.Prelude.Bytes.{Bytes, text}
use keyserver_rust.Prelude.Int.{ℤ, pos, ◌+ℤ◌, ◌-ℤ◌, ◌≤ℤ◌}
use keyserver_rust.Prelude.Assert.{slice_of}
use keyserver_rust.Models.{PaymentDetails, PaymentRequest, Payment}
use keyserver_rust.Crates.{Crates, Rpc}
use keyserver_rust.Crates.Client.{Client, ClientLaws}
use keyserver_rust.Crates.Payer.{Outpoint, Payer, WalletLaws, IsSent}
use keyserver_rust.Http.{Request}
use keyserver_rust.Settings.{Settings}
use keyserver_rust.Bitcoin.Network.{into_addr_network}
use keyserver_rust.Bitcoin.Script.{price, p2pkh_pre, p2pkh_post, generate_outputs}
use keyserver_rust.Net.CheckPayment.{payment_details, invoice}
use keyserver_rust.Server.Scenarios.{tx_outputs, generate_raw_tx, read_invoice, make_payment}

-- The hash in a script that pays to it.
slice_of-p2pkh :
    (pk : Bytes) → length pk ≡ 20 → slice_of 3 23 (p2pkh_pre ++ (pk ++ p2pkh_post)) ≡ done pk
unfolding slice_of
slice_of-p2pkh pk n =
    let long : leb 23 (length (p2pkh_pre ++ (pk ++ p2pkh_post))) ≡ true =
      ground (arith, length-append pk p2pkh_post) in
    rw (long, take-append 20 pk p2pkh_post n) refl

-- The change is not negative, and the two amounts are covered.
change_covered :
    (amount : ℤ)
    → pos 405 ≤ℤ amount
    → (pos 0 ≤ℤ amount -ℤ pos price -ℤ pos 400)
      × (pos price +ℤ (amount -ℤ pos price -ℤ pos 400) ≤ℤ amount)
unfolding ◌+ℤ◌ ◌-ℤ◌
change_covered amount h = ground arith

-- The payment of an invoice by a transaction.
abbrev pub payment_of : PaymentDetails → Bytes → Payment
payment_of details raw = record {
  merchant_data = details.merchant_data;
  memo = none;
  refund_to = [];
  transactions = raw ∷ [];
}

module _ (x : Crates) (c : Client x) (client : ClientLaws x c) where
  pub read_invoice-invoice :
      (settings : Settings) (details : PaymentDetails)
      → read_invoice x c (invoice x settings details) ≡ done details
  unfolding read_invoice invoice
  read_invoice-invoice settings details =
      let message : PaymentRequest = record {
        payment_details_version = some 1;
        pki_type = some (text "none");
        pki_data = none;
        serialized_payment_details = x.encode_details details;
        signature = none;
      } in
      rw (client.decode-encode_request message, client.decode-encode_details details) refl

module _ (x : Crates) (settings : Settings) (c : Client x) (p : Payer x) (r : Rpc)
    (client : ClientLaws x c) (wallet : WalletLaws x c p r) (utxo : Outpoint)
    (others : List Outpoint) (funded : p.list_unspent ≡ some (utxo ∷ others))
    (covers : pos 405 ≤ℤ utxo.amount) where
  -- A payment to a hash: a transaction that the node takes and that pays the price to the hash.
  pub record IsFunded (pk : Bytes) : Type 0 where
    pub to : Bytes
    pub transaction : IsSent x p r utxo (tx_outputs utxo to) price pk
    pub made : generate_raw_tx x settings c p pk ≡ done transaction.raw

  pub generate_raw_tx-IsFunded : (pk : Bytes) → length pk ≡ 20 → IsFunded pk
  unfolding generate_raw_tx
  generate_raw_tx-IsFunded pk n =
      let network = into_addr_network settings.network in
      let (to, _, encoded, _, _, _) = client.decode-encode_base58 pk network n in
      let (change, total) = change_covered utxo.amount covers in
      let t =
        wallet.spends utxo others pk to utxo.address network price
          (utxo.amount -ℤ pos price -ℤ pos 400) funded n encoded change total in
      record {
        to = to;
        transaction = t;
        made = rw (funded, encoded, t.created, t.signed, t.unhexed) refl;
      }

  pub make_payment-invoice :
      (req : Request) (time : ℕ) (pk body : Bytes) (f : IsFunded pk)
      → length pk ≡ 20
      → make_payment x settings c p (payment_details x settings req time pk body)
        ≡ done (payment_of (payment_details x settings req time pk body) f.transaction.raw)
  unfolding make_payment payment_details generate_outputs
  make_payment-invoice req time pk body f n = rw (slice_of-p2pkh pk n, f.made) refl
