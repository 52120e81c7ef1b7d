-- ===== src/Net/CheckPayment/Scenarios/NoToken.antt =====
-- When the test `test_put_no_token` of src/net/payments.rs passes.
use keyserver_rust.Prelude.{
  ℕ, ◌≤◌, ◌<◌, ◌≡◌, ◌↔◌, refl, inl, inr, true, ok, none, some, Bool-cases, ltb, ◌+◌, ◌++◌, Outcome,
  done, fail, panic, arith, All, leb, Outcome-cases, if◌then◌else◌,
}
use keyserver_rust.Prelude.Bytes.{Bytes, text, bytes_eq, bytes_eq_refl, str_from}
use keyserver_rust.Models.{PaymentRequest}
use keyserver_rust.Crates.{Crates, Rpc}
use keyserver_rust.Crates.Laws.{DigestLaws, CodecLaws, ascii_of_visible}
use keyserver_rust.Crates.Client.{Client, ClientLaws}
use keyserver_rust.Http.{Request}
use keyserver_rust.Settings.{Settings}
use keyserver_rust.Errors.{ServerError}
use keyserver_rust.Bitcoin.Network.{
  Network, mainnet, testnet, regnet, to_string, from_addr_network, network_eq_iff,
}
use keyserver_rust.Bitcoin.Wallet.{WalletState}
use keyserver_rust.Bitcoin.Client.{get_new_addr}
use keyserver_rust.Net.Keys.Scenarios.Generated.{
  IsPayloadCodec, IsGenerated, generate_address_metadata-IsGenerated,
}
use keyserver_rust.Net.CheckPayment.{
  check_network, fresh_address, payment_details, invoice, put_address, addresses, invoice_for,
  issue_invoice, decide, call, merchant_url, base_url,
}
use keyserver_rust.Net.CheckPayment.Invoices.{addresses_sound, keys_boundary}
use keyserver_rust.Net.CheckPayment.Scenarios.{
  test_key_path, test_put_request, check_invoice, test_put_no_token,
}

regnet_iff : (n : Network) → (bytes_eq (to_string n) (text "regnet") ≡ true) ↔ (n ≡ regnet)
unfolding to_string bytes_eq text
regnet_iff mainnet = (λ e. cc, λ e. cc)
regnet_iff testnet = (λ e. cc, λ e. cc)
regnet_iff regnet = (λ e. refl, λ e. refl)

pub keys_ascii : (s : Bytes) → All (λ b. b < 128) s → All (λ b. b < 128) (text "/keys/" ++ s)
unfolding text
keys_ascii s h =
    (omega arith, (omega arith, (omega arith, (omega arith, (omega arith, (omega arith, h))))))

module _ (x : Crates) (settings : Settings) (r : Rpc) where
  -- The node gives an address of a key on the configured network.
  pub record GivesAddress : Type 0 where
    pub addr_str : Bytes
    pub addr : x.Address
    pub given : get_new_addr r ≡ done addr_str
    pub decoded : x.decode addr_str ≡ ok addr
    pub on_network : from_addr_network (x.addr_network addr) ≡ settings.network
    pub of_key : x.is_key_hash addr ≡ true

  pub addresses_complete :
      (s : Bytes) (put_addr : x.Address) (g : GivesAddress)
      → All (λ b. b < 128) (text "/keys/" ++ s)
      → x.decode s ≡ ok put_addr
      → addresses x settings r (test_put_request s) ≡ done (put_addr, g.addr)
  unfolding addresses put_address fresh_address check_network str_from text
  addresses_complete s put_addr g ascii decoded =
      rw
        (
          keys_boundary s ascii,
          decoded,
          g.given,
          g.decoded,
          g.of_key,
          (network_eq_iff _ _).1 g.on_network,
        )
        refl

  GivesAddress-of :
      (req : Request) (both : x.Address × x.Address)
      → addresses x settings r req ≡ done both
      → GivesAddress
  GivesAddress-of req both found =
      let a = addresses_sound x settings r req both found in
      record {
        addr_str = a.addr_str;
        addr = both.1;
        given = a.given;
        decoded = a.decoded;
        on_network = a.on_network;
        of_key = a.of_key;
      }

  module _ (c : Client x) (client : ClientLaws x c) where
    check_invoice_lem :
        (s pk body : Bytes) (time checked : ℕ)
        → check_invoice x c
            (test_key_path s)
            checked
            (invoice x settings (payment_details x settings (test_put_request s) time pk body))
          ≡ (if bytes_eq (to_string settings.network) (text "regnet")
              then (if leb time checked then done tt else panic)
              else panic)
    unfolding check_invoice invoice payment_details merchant_url base_url text
    check_invoice_lem s pk body time checked =
        let details = payment_details x settings (test_put_request s) time pk body in
        let message : PaymentRequest = record {
          payment_details_version = some 1;
          pki_type = some (text "none");
          pki_data = none;
          serialized_payment_details = x.encode_details details;
          signature = none;
        } in
        let begins : ltb time (time + 30) ≡ true = ground arith in
        rw (client.decode-encode_request message, client.decode-encode_details details)
          (elim (Bool-cases (bytes_eq (to_string settings.network) (text "regnet"))) [
            | inr other ↦ rw other refl
            | inl local ↦ elim (Bool-cases (leb time checked)) [
              | inr early ↦ rw (local, begins, early) refl
              | inl later ↦
                  rw
                    (
                      local,
                      begins,
                      later,
                      bytes_eq_refl (text "http://localhost:8080/payments"),
                      bytes_eq_refl (test_key_path s),
                    )
                    refl
            ]
          ])

    module _ (codec : CodecLaws x.codecs) (digests : DigestLaws x.hashes x.secp)
        (payloads : IsPayloadCodec x c) (sk : c.SecretKey) (made : ℕ) where
      abbrev generated : IsGenerated x c sk settings.network made
      generated =
          generate_address_metadata-IsGenerated x c client codec digests payloads sk
            settings.network made

      address_found :
          (g : GivesAddress)
          → addresses x settings r (test_put_request generated.addr_str)
            ≡ done (generated.addr, g.addr)
      address_found g =
          addresses_complete generated.addr_str generated.addr g
            (keys_ascii generated.addr_str (ascii_of_visible generated.addr_str generated.visible))
            generated.read.addressed

      -- The outcome of the test by the addresses that the middleware finds.
      abbrev ends : ℕ → ℕ → Outcome (ServerError x) (x.Address × x.Address) → Outcome ⊥ (Unit {0})
      ends time checked (done both) =
          if bytes_eq (to_string settings.network) (text "regnet")
          then (if leb time checked then done tt else panic)
          else panic
      ends time checked (fail e) = panic
      ends time checked panic = panic

      test_put_no_token-ends :
          (time now later checked : ℕ) (w : WalletState) (d : x.Db)
          → (test_put_no_token x c sk settings r made time now later checked (w, d)).0
            ≡ ends time checked (addresses x settings r (test_put_request generated.addr_str))
      unfolding test_put_no_token call decide issue_invoice invoice_for
      test_put_no_token-ends time now later checked w d =
          elim (Outcome-cases (addresses x settings r (test_put_request generated.addr_str))) [
            | inl (both, found) ↦
                rw (generated.ended, found)
                  (check_invoice_lem generated.addr_str (x.body both.1) (x.body both.0) time
                    checked)
            | inr (inl (e, failed)) ↦ rw (generated.ended, failed) refl
            | inr (inr panicked) ↦ rw (generated.ended, panicked) refl
          ]

      -- Whatever key is drawn and whatever the wallet and the database hold, the test that puts
      -- metadata without a token passes exactly if the configured network is the regnet, the node
      -- gives an address of a key on it, and the clock does not go back between the middleware's
      -- reading and the test's.
      pub test_put_no_token_iff :
          (time now later checked : ℕ) (w : WalletState) (d : x.Db)
          → ((test_put_no_token x c sk settings r made time now later checked (w, d)).0 ≡ done tt)
            ↔ ((settings.network ≡ regnet) × GivesAddress × (time ≤ checked))
      test_put_no_token_iff time now later checked w d =
          rw (test_put_no_token-ends time now later checked w d)
            (elim (Outcome-cases (addresses x settings r (test_put_request generated.addr_str))) [
              | inl (both, found) ↦ rw found (
                λ e. (
                  (regnet_iff settings.network).0 (ground arith),
                  GivesAddress-of _ both found,
                  ground arith,
                ),
                λ (local, _, le). let named = (regnet_iff settings.network).1 local in ground arith,
              )
              | inr (inl (e, failed)) ↦
                  rw failed (λ e. absurd (cc), λ (_, g, _). absurd (cc (address_found g)))
              | inr (inr panicked) ↦
                  rw panicked (λ e. absurd (cc), λ (_, g, _). absurd (cc (address_found g)))
            ])
