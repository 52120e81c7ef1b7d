-- ===== src/Net/PaymentFlow.antt =====
-- The whole payment of src/net/payments.rs: an invoice, its payment, and the request again with the
-- token that the payment earned.
use keyserver_rust.Prelude.{
  ◌≡◌, refl, ap, ◌∙◌, ℕ, inr, true, Option, some, List, ◌∷◌, ◌++◌, done, All, length,
}
use keyserver_rust.Prelude.Bytes.{Bytes, text, bytes_eq_refl}
use keyserver_rust.Prelude.Utf8.{from_utf8}
use keyserver_rust.Models.{Payment, Transaction, TxOut, PaymentDetails}
use keyserver_rust.Crates.{Crates, Rpc}
use keyserver_rust.Crates.Laws.{SubtleLaws, WebLaws, is_visible}
use keyserver_rust.Http.{Request, Response, authorization, find_header}
use keyserver_rust.Settings.{Settings}
use keyserver_rust.Bitcoin.Script.{price, extract_pubkey_hash}
use keyserver_rust.Bitcoin.Script.RoundTrip.{script_of, extract_pubkey_hash-generate}
use keyserver_rust.Bitcoin.Wallet.{WalletState, add, contains-add, check_outputs}
use keyserver_rust.Bitcoin.Wallet.Payments.{check_outputs-paid}
use keyserver_rust.Bitcoin.Client.{send_tx}
use keyserver_rust.Crypto.Token.{generate_token}
use keyserver_rust.Net.Payments.{
  pop_header, accepted, read_payment, complete, after_check, payment_handler,
}
use keyserver_rust.Net.CheckPayment.{forward, merchant_url, base_url, payment_details, decide}
use keyserver_rust.Net.CheckPayment.Tokens.{IsPaid, decide-forward_iff}

-- The request again, with the authorization header that a response sets.
pub with_token : Request → Response → Request
with_token req resp = record req {
  header = λ name. elim name [
    | authorization ↦ find_header authorization resp.headers
    | other ↦ req.header other
  ];
}

-- A transaction pays an invoice: one of its outputs has the amount and the script of the first
-- output of the details.
pub record PaysInvoice (tx : Transaction) (details : PaymentDetails) : Type 0 where
  pub before : List TxOut
  pub output : TxOut
  pub after : List TxOut
  pub split : tx.output ≡ before ++ output ∷ after
  pub amount : output.value ≡ price
  pub script : output.script_pubkey ≡ script_of 0 details.outputs

pub pop_visible :
    (s : Bytes)
    → All (λ b. is_visible b ≡ true) s
    → All (λ b. is_visible b ≡ true) (text "POP " ++ s)
unfolding text
pop_visible s h = (refl, (refl, (refl, (refl, h))))

module _ (x : Crates) (settings : Settings) where
  -- The first output of an invoice's details pays to the address that was issued with it.
  issued_accepted :
      (req : Request) (now : ℕ) (pk body : Bytes) (w : WalletState) (tx : Transaction)
      → length pk ≡ 20
      → PaysInvoice tx (payment_details x settings req now pk body)
      → (check_outputs tx (add pk w)).0 ≡ true
  unfolding payment_details
  issued_accepted req now pk body w tx n paid =
      check_outputs-paid tx (add pk w) paid.before paid.output paid.after pk paid.split (
        paid.amount,
        ap extract_pubkey_hash paid.script ∙ extract_pubkey_hash-generate pk (base_url req) body n,
        contains-add pk pk w ∙ rw (bytes_eq_refl pk),
      )

  -- The header that the handler sets for a URL pays a request of that URL.
  accepted-IsPaid :
      (web : WebLaws x.web) (req : Request) (p : Payment) (url : Bytes)
      → IsPaid x settings (with_token req (accepted x settings p (merchant_url req) url))
  unfolding with_token accepted pop_header find_header merchant_url
  accepted-IsPaid web req p url = record {
    value = pop_header x settings (merchant_url req);
    token_str = x.base64_encode (generate_token x (merchant_url req) settings.secret);
    has_header = refl;
    reads =
        web.visible_to_str _ (
          pop_visible _ (web.base64_visible (generate_token x (merchant_url req) settings.secret)));
    decodes = web.decode-encode_base64 (generate_token x (merchant_url req) settings.secret);
  }

  paid_completes :
      (r : Rpc) (p : Payment) (tx_raw md txid url : Bytes)
      → send_tx r x tx_raw ≡ done txid
      → p.merchant_data ≡ some md
      → from_utf8 md ≡ some md
      → x.parse_url md ≡ some url
      → complete x settings r p tx_raw ≡ done (accepted x settings p md url)
  unfolding complete
  paid_completes r p tx_raw md txid url sent has utf8 parsed = rw (sent, has, utf8, parsed)

  handled_paid :
      (r : Rpc) (preq : Request) (items : List (Option Bytes)) (w : WalletState) (p : Payment)
      (tx_raw : Bytes) (tx : Transaction) (resp : Response)
      → read_payment x preq items ≡ done (p, tx_raw, tx)
      → (check_outputs tx w).0 ≡ true
      → complete x settings r p tx_raw ≡ done resp
      → (payment_handler x settings r preq items w).0 ≡ done resp
  unfolding payment_handler after_check
  handled_paid r preq items w p tx_raw tx resp read hit ended = rw (read, hit) ended

  -- A PUT that was answered by an invoice is paid for: a request to the payment endpoint with the
  -- invoice's merchant data and a first transaction that pays the invoice is answered 202 from the
  -- wallet that the invoice left, if the node takes the transaction and the URL parses; and the PUT
  -- again, with the authorization header of that answer, passes to the inner service, at any time
  -- and with any wallet.
  pub paid_request_passes :
      SubtleLaws x.subtle
      → (web : WebLaws x.web) (r r' : Rpc) (req preq : Request) (items : List (Option Bytes))
        (now now' : ℕ) (w w' : WalletState) (pk body : Bytes) (p : Payment)
        (tx_raw txid url : Bytes) (tx : Transaction)
      → length pk ≡ 20
      → read_payment x preq items ≡ done (p, tx_raw, tx)
      → p.merchant_data ≡ (payment_details x settings req now pk body).merchant_data
      → PaysInvoice tx (payment_details x settings req now pk body)
      → send_tx r x tx_raw ≡ done txid
      → from_utf8 (merchant_url req) ≡ some (merchant_url req)
      → x.parse_url (merchant_url req) ≡ some url
      → ((payment_handler x settings r preq items (add pk w)).0
          ≡ done (accepted x settings p (merchant_url req) url))
        × ((decide x settings r'
              (with_token req (accepted x settings p (merchant_url req) url))
              now'
              w').0
            ≡ done forward)
  unfolding payment_details
  paid_request_passes subtle web r r' req preq items now now' w w' pk body p tx_raw txid url tx n
        read md paid sent utf8 parsed =
      (
        handled_paid r preq items (add pk w) p tx_raw tx _ read
            (issued_accepted req now pk body w tx n paid)
            (paid_completes r p tx_raw (merchant_url req) txid url sent md utf8 parsed),
        (decide-forward_iff x settings subtle web r'
              (with_token req (accepted x settings p (merchant_url req) url)) now' w').1
            (inr (accepted-IsPaid web req p url)),
      )
