-- ===== src/Server/Scenarios/Purchase.antt =====
-- When the test `test_put_payment` of src/net/payments.rs passes.
use keyserver_rust.Prelude.{
  ℕ, ◌<◌, ◌≡◌, refl, sym, ap, subst, ◌∙◌, Bool, true, ◌&&◌, Option, none, some, List, [], ◌∷◌, ◌++◌,
  done, arith, All, length,
}
use keyserver_rust.Prelude.Bytes.{Bytes, text, bytes_eq_refl}
use keyserver_rust.Prelude.Utf8.{from_utf8, from_utf8-ascii}
use keyserver_rust.Prelude.Int.{ℤ, pos, ◌≤ℤ◌}
use keyserver_rust.Prelude.Assert.{assert_eq, assert_eq_bytes}
use keyserver_rust.Models.{PaymentDetails}
use keyserver_rust.Models.Equal.{payment_eq_refl}
use keyserver_rust.Crates.{Crates, Rpc}
use keyserver_rust.Crates.Laws.{
  RocksLaws, CodecLaws, DigestLaws, IsHealthy, SubtleLaws, WebLaws, is_visible, ascii_of_visible,
}
use keyserver_rust.Crates.Client.{Client, ClientLaws}
use keyserver_rust.Crates.Payer.{Outpoint, IsSent, Payer, PayerLaws, WalletLaws, at_server}
use keyserver_rust.Http.{Request, Response, respond, status_ok, find_header}
use keyserver_rust.Errors.{answer_route, error_response, payment, PaymentError}
use keyserver_rust.Settings.{Settings}
use keyserver_rust.Bitcoin.Network.{into_addr_network}
use keyserver_rust.Bitcoin.Script.{price, p2pkh_pre, p2pkh_post, generate_outputs}
use keyserver_rust.Bitcoin.Wallet.{WalletState, add}
use keyserver_rust.Db.Contents.{IsWellFormed}
use keyserver_rust.Net.Keys.{put_key, read_body}
use keyserver_rust.Net.Keys.Scenarios.Generated.{
  IsPayloadCodec, own_body, generate_address_metadata-IsGenerated,
}
use keyserver_rust.Net.Keys.Scenarios.Passes.{put_ends}
use keyserver_rust.Net.Payments.{
  check_headers, read_payment, payment_handler, acknowledgement, accepted,
}
use keyserver_rust.Net.CheckPayment.{payment_details, merchant_url, base_url}
use keyserver_rust.Net.CheckPayment.Scenarios.{test_key_path, test_put_request}
use keyserver_rust.Net.CheckPayment.Scenarios.NoToken.{GivesAddress, addresses_complete, keys_ascii}
use keyserver_rust.Net.PaymentFlow.{PaysInvoice, paid_request_passes}
use keyserver_rust.Server.Routes.{Router}
use keyserver_rust.Server.Scenarios.{
  no_headers, ack_header, payment_type_header, post, pay, redeem, test_put_payment,
}
use keyserver_rust.Server.Scenarios.Paying.{
  payment_of, read_invoice-invoice, generate_raw_tx-IsFunded, make_payment-invoice,
}
use keyserver_rust.Server.Scenarios.Requests.{
  RouterLaws, invoiced, post_request, posted, put_with_token, put_again,
}

-- The URL of a put is the one that the test has written.
merchant_url-put : (s : Bytes) → merchant_url (test_put_request s) ≡ test_key_path s
unfolding merchant_url base_url text
merchant_url-put s = refl

payment_url-put :
    (x : Crates) (settings : Settings) (s : Bytes) (time : ℕ) (pk body : Bytes)
    → (payment_details x settings (test_put_request s) time pk body).payment_url
      ≡ some (text "http://localhost:8080/payments")
unfolding payment_details base_url text
payment_url-put x settings s time pk body = refl

url_parts :
    (s : Bytes)
    → text "http"
        ++ (text "://" ++ (text "localhost" ++ (text ":" ++ (text "8080" ++ (text "/keys/" ++ s)))))
      ≡ test_key_path s
unfolding text
url_parts s = refl

all_visible : Bytes → Bool
all_visible [] = true
all_visible (b ∷ s) = is_visible b && all_visible s

visible-append :
    (t s : Bytes)
    → all_visible t ≡ true
    → All (λ b. is_visible b ≡ true) s
    → All (λ b. is_visible b ≡ true) (t ++ s)
unfolding all_visible
visible-append [] s e h = h
visible-append (b ∷ t) s e h = (ground arith, visible-append t s (ground arith) h)

key_path-visible :
    (s : Bytes)
    → All (λ b. is_visible b ≡ true) s
    → All (λ b. is_visible b ≡ true) (test_key_path s)
unfolding text all_visible
key_path-visible s h = visible-append (text "http://localhost:8080/keys/") s refl h

module _ (x : Crates) (settings : Settings) (router : Router) (c : Client x) (p : Payer x) (r : Rpc)
    (clock : ℕ → ℕ × ℕ × ℕ) (client : ClientLaws x c) (payer : PayerLaws x c p)
    (routes : RouterLaws x c router) (subtle : SubtleLaws x.subtle) (web : WebLaws x.web) where
  -- The posts that lack a header are refused, and nothing changes.
  post_without_type :
      (w : WalletState) (d : x.Db) (raw : Bytes)
      → post x settings router p r clock 1
          (ack_header no_headers)
          (at_server (text "/payments"))
          raw
          (w, d)
        ≡ (done (error_response x (payment PaymentError.accept)), (w, d))
  unfolding answer_route payment_handler
  post_without_type w d raw =
      posted x settings router r (clock 1).0 (clock 1).1 (clock 1).2 (ack_header no_headers)
        (at_server (text "/payments")) (some raw ∷ []) w d (routes.to_payments _ refl)

  post_without_accept :
      (w : WalletState) (d : x.Db) (raw : Bytes)
      → post x settings router p r clock 2
          (payment_type_header no_headers)
          (at_server (text "/payments"))
          raw
          (w, d)
        ≡ (done (error_response x (payment PaymentError.content)), (w, d))
  unfolding answer_route payment_handler
  post_without_accept w d raw =
      posted x settings router r (clock 2).0 (clock 2).1 (clock 2).2
        (payment_type_header no_headers) (at_server (text "/payments")) (some raw ∷ []) w d
        (routes.to_payments _ refl)
      ∙ rw (bytes_eq_refl (text "application/bitcoincash-payment")) refl

  module _ (s pk body : Bytes) (u : Outpoint) (time : ℕ) (n : length pk ≡ 20)
      (visible : All (λ b. is_visible b ≡ true) s) (sk : c.SecretKey)
      (encoded : c.encode_base58 (own_body x c sk) (into_addr_network settings.network)
        ≡ some s) where
    abbrev details : PaymentDetails
    details = payment_details x settings (test_put_request s) time pk body

    abbrev pay_post : Request
    pay_post =
        post_request (ack_header (payment_type_header no_headers)) (at_server (text "/payments"))

    module _ {outputs : List (Bytes × ℤ)} (t : IsSent x p r u outputs price pk) where
      items : List (Option Bytes)
      items = some (p.encode_payment (payment_of details t.raw)) ∷ []

      read_paid : read_payment x pay_post items ≡ done (payment_of details t.raw, t.raw, t.tx)
      unfolding read_payment check_headers items read_body
      read_paid =
          rw
            (
              bytes_eq_refl (text "application/bitcoincash-payment"),
              bytes_eq_refl (text "application/bitcoincash-paymentack"),
              payer.decode-encode_payment (payment_of details t.raw),
              t.parsed,
            )
            refl

      pays : PaysInvoice t.tx details
      unfolding payment_details generate_outputs
      pays = record {
        before = t.before;
        output = record { value = price; script_pubkey = p2pkh_pre ++ (pk ++ p2pkh_post) };
        after = t.after;
        split = t.split;
        amount = refl;
        script = refl;
      }

      -- What the payment is answered.
      abbrev paid_answer : Response
      paid_answer =
          accepted x settings (payment_of details t.raw) (test_key_path s) (test_key_path s)

      paid_accepted :
          (w : WalletState)
          → (payment_handler x settings r pay_post items (add pk w)).0 ≡ done paid_answer
      paid_accepted w =
          let same = merchant_url-put s in
          let parsed : x.parse_url (merchant_url (test_put_request s)) ≡ some (test_key_path s) =
            ap x.parse_url same ∙ payer.parse_key (own_body x c sk) s _ encoded in
          let utf8 : from_utf8 (merchant_url (test_put_request s))
              ≡ some (merchant_url (test_put_request s)) =
            from_utf8-ascii _ (
              subst (All (λ b. b < 128)) (sym same)
                (ascii_of_visible (test_key_path s) (key_path-visible s visible))) in
          (paid_request_passes x settings subtle web r r (test_put_request s) pay_post items time
            time w w pk body (payment_of details t.raw) t.raw t.txid (test_key_path s) t.tx n
            read_paid refl pays t.sent utf8 parsed).0
          ∙ ap (λ m. done (accepted x settings (payment_of details t.raw) m (test_key_path s))) same

      wallet_after : WalletState → WalletState
      wallet_after w = (payment_handler x settings r pay_post items (add pk w)).1

      post_paid :
          (w : WalletState) (d : x.Db)
          → post x settings router p r clock 3
              (ack_header (payment_type_header no_headers))
              (at_server (text "/payments"))
              (p.encode_payment (payment_of details t.raw))
              (add pk w, d)
            ≡ (done paid_answer, (wallet_after w, d))
      unfolding answer_route wallet_after items
      post_paid w d =
          posted x settings router r (clock 3).0 (clock 3).1 (clock 3).2
            (ack_header (payment_type_header no_headers)) (at_server (text "/payments")) items
            (add pk w) d (routes.to_payments _ refl)
          ∙ rw (paid_accepted w) refl

      pay_lem :
          (w : WalletState) (d : x.Db)
          → pay x settings router p r clock
              (payment_of details t.raw)
              (text "http://localhost:8080/payments")
              (add pk w, d)
            ≡ (done paid_answer, (wallet_after w, d))
      unfolding pay assert_eq error_response accepted acknowledgement
      pay_lem w d =
          let raw_payment = p.encode_payment (payment_of details t.raw) in
          rw payer.locate_payments (
            rw (post_without_type (add pk w) d raw_payment) (
              rw (post_without_accept (add pk w) d raw_payment) (
                rw (post_paid w d) (
                  rw
                    (payer.decode-encode_ack (record {
                      payment = payment_of details t.raw;
                      memo = some (text "Thanks for your custom!");
                    }))
                    (rw (payment_eq_refl (payment_of details t.raw)) refl)))))

      redeem_lem :
          (metadata_raw : Bytes) (w : WalletState) (d : x.Db)
          → (put_key x s (some metadata_raw ∷ []) (clock 4).1 (clock 4).2 d).0
            ≡ done (respond status_ok [])
          → (redeem x settings router p r clock (test_key_path s) metadata_raw paid_answer (w, d)).0
            ≡ done tt
      unfolding redeem assert_eq assert_eq_bytes accepted find_header
      redeem_lem metadata_raw w d put =
          let (target, named) =
            routes.to_keys (put_with_token x settings s) (own_body x c sk) s settings encoded
              refl in
          let again =
            put_again x settings router r (clock 4).0 (clock 4).1 (clock 4).2 subtle web s
              (some metadata_raw ∷ []) w d (respond status_ok []) target named put in
          rw (web.visible_to_str (test_key_path s) (key_path-visible s visible)) (
            rw (payer.locate_key (own_body x c sk) s _ encoded)
              (rw (url_parts s, bytes_eq_refl (test_key_path s)) (rw again refl)))

  module _ (laws : RocksLaws x.rocks) (health : IsHealthy x.rocks) (codec : CodecLaws x.codecs)
      (digests : DigestLaws x.hashes x.secp) (payloads : IsPayloadCodec x c)
      (wallet : WalletLaws x c p r) (utxo : Outpoint) (others : List Outpoint) where
    -- A put without a token, the payment of its invoice and the put again: for every key pair whose
    -- address holds nothing in a well-formed database whose calls do not fail, and every wallet and
    -- clock, the test passes if the node gives an address of a key on the configured network and its
    -- own wallet lists first an unspent output that covers the price and the fee.
    pub test_put_payment-passes :
        (sk : c.SecretKey) (made : ℕ) (w : WalletState) (d : x.Db)
        (gives : GivesAddress x settings r)
        → IsWellFormed x laws d
        → laws.contents d (own_body x c sk) ≡ none
        → length (x.body gives.addr) ≡ 20
        → p.list_unspent ≡ some (utxo ∷ others)
        → pos 405 ≤ℤ utxo.amount
        → (test_put_payment x settings router p r clock c sk made (w, d)).0 ≡ done tt
    unfolding test_put_payment
    test_put_payment-passes sk made w d gives wf fresh n funded covers =
        let g =
          generate_address_metadata-IsGenerated x c client codec digests payloads sk
            settings.network made in
        let s = g.addr_str in
        let pk = x.body gives.addr in
        let body = x.body g.addr in
        let time = (clock 0).0 in
        let raw = x.encode_metadata g.metadata in
        let f =
          generate_raw_tx-IsFunded x settings c p r client wallet utxo others funded covers pk n in
        let found =
          addresses_complete x settings r s g.addr gives
            (keys_ascii s (ascii_of_visible s g.visible)) g.read.addressed in
        let (to_keys, _) =
          routes.to_keys (test_put_request s) (own_body x c sk) s settings g.encoded refl in
        let details = payment_details x settings (test_put_request s) time pk body in
        rw g.ended (
          rw
            (invoiced x settings router r time (clock 0).1 (clock 0).2 (some raw ∷ []) s g.addr
              gives.addr w d to_keys found)
            (rw (read_invoice-invoice x c client settings details) (
              rw
                (make_payment-invoice x settings c p r client wallet utxo others funded covers
                  (test_put_request s) time pk body f n)
                (rw (payment_url-put x settings s time pk body) (
                  rw (pay_lem s pk body utxo time n g.visible sk g.encoded f.transaction w d) (
                    redeem_lem s pk body utxo time n g.visible sk g.encoded f.transaction raw _ d (
                      put_ends x c laws health client codec digests payloads sk settings.network
                        made d wf fresh (clock 4).1 (clock 4).2)))))))
