-- ===== src/Tests/Purchase.antt =====
-- The test of a payment with a stand-in for the wallet of the node.
use keyserver_rust.Prelude.{
  ℕ, ◌≡◌, refl, ap, ◌∙◌, some, none, Option, List, [], ◌∷◌, ◌++◌, done, arith, drop, Result, ok,
  err,
}
use keyserver_rust.Prelude.Bytes.{Bytes, text, bytes_eq}
use keyserver_rust.Prelude.Int.{ℤ, pos, pos_part}
use keyserver_rust.Models.{AddrNetwork}
use keyserver_rust.Bitcoin.Client.{send_tx, get_new_addr}
use keyserver_rust.Bitcoin.Network.{from_addr_network}
use keyserver_rust.Bitcoin.Script.{p2pkh_pre, p2pkh_post}
use keyserver_rust.Crates.Payer.{Outpoint, Payer, PayerLaws, WalletLaws, at_server}
use keyserver_rust.Net.CheckPayment.Scenarios.NoToken.{GivesAddress}
use keyserver_rust.Server.Scenarios.{test_put_payment}
use keyserver_rust.Server.Scenarios.Requests.{RouterLaws}
use keyserver_rust.Server.Scenarios.Purchase.{test_put_payment-passes}
use keyserver_rust.Tests.Wire.Payments.{
  encode_payment, decode_ack, decode-encode_payment, decode-encode_ack,
}
use keyserver_rust.Tests.World.{crates, client, node, decode_address_str, base58_address, letters}
use keyserver_rust.Tests.Meets.{
  rocks_laws, digest_laws, codec_laws, client_laws, healthy, payload_codec, subtle_laws, web_laws,
  numbers-letters,
}
use keyserver_rust.Tests.Database.{key, empty, empty-IsWellFormed}
use keyserver_rust.Tests.Payments.{settings}
use keyserver_rust.Tests.Server.{router}

-- A transaction that pays the first output.
abbrev paying_to : ℤ → Result (Unit {0} × Unit {0}) (Bytes × AddrNetwork) → Option Bytes
paying_to amount (err e) = none
paying_to amount (ok (b, n)) = some (pos_part amount ∷ (p2pkh_pre ++ (b ++ p2pkh_post)))

abbrev create : List (Bytes × ℤ) → Option Bytes
create [] = none
create ((to, amount) ∷ rest) = paying_to amount (decode_address_str to)

abbrev utxo : Outpoint
utxo = record { txid = []; vout = 0; amount = pos 1000; address = [] }

abbrev payer : Payer crates
payer = record {
  list_unspent = some (utxo ∷ []);
  create_raw_transaction = λ txid vout outputs. create outputs;
  sign_raw_transaction = λ unsigned. some unsigned;
  hex_decode = λ hex. some hex;
  locate = λ url. some (at_server (drop 21 url));
  encode_payment = encode_payment;
  decode_ack = decode_ack;
}

payer_laws : PayerLaws crates client payer
unfolding text
payer_laws = record {
  decode-encode_payment = decode-encode_payment;
  decode-encode_ack = decode-encode_ack;
  locate_payments = refl;
  locate_key = λ b s n encoded. refl;
  parse_key = λ b s n encoded. refl;
}

wallet_laws : WalletLaws crates client payer (node key)
unfolding send_tx
wallet_laws = record {
  spends = λ u us pk to other n amount change listed long encoded positive covered.
      let paid : create ((to, pos amount) ∷ (other, change) ∷ [])
          ≡ some (amount ∷ (p2pkh_pre ++ (pk ++ p2pkh_post))) =
        paid_to pk to other amount change encoded in
      record {
        unsigned = amount ∷ (p2pkh_pre ++ (pk ++ p2pkh_post));
        hex = amount ∷ (p2pkh_pre ++ (pk ++ p2pkh_post));
        raw = amount ∷ (p2pkh_pre ++ (pk ++ p2pkh_post));
        tx = record {
          output = record { value = amount; script_pubkey = p2pkh_pre ++ (pk ++ p2pkh_post) } ∷ [];
        };
        before = [];
        after = [];
        txid = key;
        created = paid;
        signed = refl;
        unhexed = refl;
        parsed = refl;
        split = refl;
        sent = refl;
      };
}
  where
    paid_to :
        (pk to other : Bytes) (amount : ℕ) (change : ℤ)
        → client.encode_base58 pk AddrNetwork.regtest ≡ some to
        → create ((to, pos amount) ∷ (other, change) ∷ [])
          ≡ some (amount ∷ (p2pkh_pre ++ (pk ++ p2pkh_post)))
    paid_to pk to other amount change encoded =
        let written : to ≡ 49 ∷ letters pk = ground arith in
        ap (λ t. paying_to (pos amount) (decode_address_str t)) written
        ∙ ap (λ b. paying_to (pos amount) (base58_address b)) (numbers-letters pk)

router_laws : RouterLaws crates client router
unfolding text bytes_eq
router_laws = record {
  to_keys = λ req b s settings encoded at. (rw at refl, rw at refl);
  to_payments = λ req at. rw at refl;
}

given : GivesAddress crates settings (node key)
unfolding get_new_addr from_addr_network
given = record {
  addr_str = key;
  addr = (key, AddrNetwork.regtest);
  given = refl;
  decoded = refl;
  on_network = refl;
  of_key = refl;
}

test_put_payment-passes_example :
    (test_put_payment crates settings router payer
      (node key)
      (λ i. (100, 101, 102))
      client
      key
      90
      ([], empty)).0
    ≡ done tt
unfolding given
test_put_payment-passes_example =
    test_put_payment-passes crates settings router client payer (node key) (λ i. (100, 101, 102))
      client_laws payer_laws router_laws subtle_laws web_laws rocks_laws healthy codec_laws
      digest_laws payload_codec wallet_laws utxo [] key 90 [] empty given empty-IsWellFormed refl
      refl refl (omega arith)
