-- ===== src/Net/Payments/Handled.antt =====
-- How `payment_handler` of src/net/payments.rs ends, and what it does to the wallet.
use keyserver_rust.Prelude.{
  ◌≡◌, ◌≢◌, refl, sym, ap, ◌∙◌, ◌⊎◌, inl, inr, Bool, true, false, Option, some, List, [], Outcome,
  done, fail, panic, arith, Outcome-cases, done-injective, ok_or-eq-done, map_err-eq-done,
}
use keyserver_rust.Prelude.Bytes.{Bytes}
use keyserver_rust.Prelude.Utf8.{from_utf8, from_utf8-eq}
use keyserver_rust.Prelude.Steps.{>>=-eq-done}
use keyserver_rust.Models.{Payment, Transaction}
use keyserver_rust.Crates.{Crates, Rpc}
use keyserver_rust.Crates.Laws.{RpcLaws}
use keyserver_rust.Http.{Request, Response}
use keyserver_rust.Errors.{
  ServerError, payment, invalid_tx, no_merchant_dat, invalid_merchant_dat, payload_decode,
}
use keyserver_rust.Settings.{Settings}
use keyserver_rust.Bitcoin.Wallet.{WalletState, check_outputs}
use keyserver_rust.Bitcoin.Wallet.Payments.{IsVerdict, check_outputs-IsVerdict}
use keyserver_rust.Bitcoin.Client.{send_tx, send_tx-ne-panic}
use keyserver_rust.Net.Keys.Reading.{read_body-ne-panic}
use keyserver_rust.Net.Payments.{
  check_headers, read_payment, accepted, complete, after_check, payment_handler,
}

module _ (x : Crates) (settings : Settings) (r : Rpc) where
  -- The node took the transaction, and the merchant data is a URL in UTF-8.
  pub record IsComplete (p : Payment) (tx_raw : Bytes) (resp : Response) : Type 0 where
    pub txid : Bytes
    pub sent : send_tx r x tx_raw ≡ done txid
    pub merchant_data : Bytes
    pub has_data : p.merchant_data ≡ some merchant_data
    pub utf8 : from_utf8 merchant_data ≡ some merchant_data
    pub url : Bytes
    pub parsed : x.parse_url merchant_data ≡ some url
    pub answer : resp ≡ accepted x settings p merchant_data url

  complete_sound :
      (p : Payment) (tx_raw : Bytes) (resp : Response)
      → complete x settings r p tx_raw ≡ done resp
      → IsComplete p tx_raw resp
  unfolding complete
  complete_sound p tx_raw resp e =
      let (txid, sent, e₁) = >>=-eq-done _ _ e in
      let (md, has, e₂) = >>=-eq-done _ _ e₁ in
      let (s, utf8, e₃) = >>=-eq-done _ _ e₂ in
      let (url, parsed, e₄) = >>=-eq-done _ _ e₃ in
      let text_eq : s ≡ md = from_utf8-eq md s (ok_or-eq-done _ _ utf8) in
      record {
        txid = txid;
        sent = map_err-eq-done _ _ sent;
        merchant_data = md;
        has_data = ok_or-eq-done _ _ has;
        utf8 = ok_or-eq-done _ _ utf8 ∙ ap some text_eq;
        url = url;
        parsed = ap x.parse_url (sym text_eq) ∙ ok_or-eq-done _ _ parsed;
        answer = sym (done-injective e₄);
      }

  -- The errors that come after the wallet has been changed.
  abbrev pub IsLate : ServerError x → Type 0
  IsLate e =
      (e ≡ payment invalid_tx) ⊎ (e ≡ payment no_merchant_dat) ⊎ (e ≡ payment invalid_merchant_dat)

  complete-IsLate :
      (p : Payment) (tx_raw : Bytes) (e : ServerError x)
      → complete x settings r p tx_raw ≡ fail e
      → IsLate e
  unfolding complete
  complete-IsLate p tx_raw e h = ground arith

  pub complete-ne-panic :
      RpcLaws r → (p : Payment) (tx_raw : Bytes) → complete x settings r p tx_raw ≢ panic
  unfolding complete
  complete-ne-panic laws p tx_raw h = send_tx-ne-panic r laws x tx_raw (ground arith)

  pub read_payment-ne-panic :
      (req : Request) (items : List (Option Bytes)) → read_payment x req items ≢ panic
  unfolding read_payment check_headers
  read_payment-ne-panic req items h =
      read_body-ne-panic {E = ServerError x} payload_decode [] items (ground arith)

  -- How the handler ends. A success had its payment read, its outputs accepted, and is complete. An
  -- error leaves the wallet alone, or it is one of the late ones and the wallet has lost the
  -- address that was paid.
  abbrev pub IsHandled :
      Request
      → List (Option Bytes)
      → WalletState
      → Outcome (ServerError x) Response × WalletState
      → Type 0
  IsHandled req items w (done resp, w') =
      (p : Payment) × (tx_raw : Bytes) × (tx : Transaction) × (read_payment x req items
        ≡ done (p, tx_raw, tx))
      × IsVerdict w tx.output (true, w')
      × IsComplete p tx_raw resp
  IsHandled req items w (fail e, w') =
      (w' ≡ w)
      ⊎ ((p : Payment) × (tx_raw : Bytes) × (tx : Transaction) × (read_payment x req items
            ≡ done (p, tx_raw, tx))
          × IsVerdict w tx.output (true, w')
          × IsLate e)
  IsHandled req items w (panic, w') = ⊥

  completed :
      RpcLaws r
      → (req : Request) (items : List (Option Bytes)) (w w' : WalletState) (p : Payment)
        (tx_raw : Bytes) (tx : Transaction) (c : Outcome (ServerError x) Response)
      → read_payment x req items ≡ done (p, tx_raw, tx)
      → IsVerdict w tx.output (true, w')
      → complete x settings r p tx_raw ≡ c
      → IsHandled req items w (c, w')
  completed laws req items w w' p tx_raw tx (done resp) read paid e =
      (p, tx_raw, tx, read, paid, complete_sound p tx_raw resp e)
  completed laws req items w w' p tx_raw tx (fail f) read paid e =
      inr (p, tx_raw, tx, read, paid, complete-IsLate p tx_raw f e)
  completed laws req items w w' p tx_raw tx panic read paid e = complete-ne-panic laws p tx_raw e

  checked :
      RpcLaws r
      → (req : Request) (items : List (Option Bytes)) (w : WalletState) (p : Payment)
        (tx_raw : Bytes) (tx : Transaction) (v : Bool × WalletState)
      → read_payment x req items ≡ done (p, tx_raw, tx)
      → IsVerdict w tx.output v
      → IsHandled req items w (after_check x settings r p tx_raw v.0, v.1)
  unfolding after_check
  checked laws req items w p tx_raw tx (true, w') read paid =
      completed laws req items w w' p tx_raw tx (complete x settings r p tx_raw) read paid refl
  checked laws req items w p tx_raw tx (false, w') read (same, _) = inl same

  -- `payment_handler` does not panic. It answers 202 with the acknowledgement, the URL of the
  -- merchant data and its token only after it has read the payment, taken the first address
  -- that the transaction pays out of the wallet, and sent the transaction. Every error leaves the
  -- wallet alone, but for three that come after the address was taken: the node's refusal, missing
  -- merchant data and invalid merchant data.
  pub payment_handler-IsHandled :
      RpcLaws r
      → (req : Request) (items : List (Option Bytes)) (w : WalletState)
      → IsHandled req items w (payment_handler x settings r req items w)
  unfolding payment_handler
  payment_handler-IsHandled laws req items w = elim (Outcome-cases (read_payment x req items)) [
    | inl (read, found) ↦ rw found (
        checked laws req items w read.0 read.1 read.2 (check_outputs read.2 w) found
          (check_outputs-IsVerdict read.2 w))
    | inr (inl (e, failed)) ↦ rw failed (inl refl)
    | inr (inr panicked) ↦ absurd (read_payment-ne-panic req items panicked)
  ]
